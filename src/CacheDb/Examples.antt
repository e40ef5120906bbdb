-- ===== src/CacheDb/Examples.antt =====
-- A small database for the theorems on the cache: files that fail to open a number of times.
use server_based_deno.Base.{
  ℕ, zero, suc, ◌≡◌, refl, true, false, Option, none, some, [], ◌∷◌, Text, codes, Result, ok, err,
  text_beq,
}
use server_based_deno.Base.Effects.{Io, return, throw}
use server_based_deno.CacheDb.{
  Sqlite, CacheDb, CacheDbConfiguration, CacheFailure, error, blackhole, connected, black_hole,
  open_connection, open_connection_and_init, initialize_connection, with_connection,
  unwrap_or_default, delete_and_retry, actually_open_connection, update_version, preheat, give_up,
}
use server_based_deno.CacheDb.Policy.{black_hole_ignores}
use server_based_deno.CacheDb.Version.{KeepsRows, open_connection_and_init-version}

record Disk : Type 0 where
  failures : ℕ
  row : Option Text

-- A connection has no state of its own here; an error is a number.
open_from : ℕ → Io Disk ℕ (Unit {0})
open_from zero d = (ok tt, d)
open_from (suc n) d = (err n, record d { failures = n })

abbrev open_counting : Text → Io Disk ℕ (Unit {0})
open_counting path d = open_from d.failures d

abbrev store_row : Text → Io Disk ℕ (Unit {0})
store_row v d = (ok tt, record d { row = some v })

abbrev disk : Sqlite
disk = record {
  World = Disk;
  Connection = Unit;
  Error = ℕ;
  open_in_memory = return tt;
  open_file = open_counting;
  execute_batch = λ c sql. return tt;
  query_version = λ c d. (ok d.row, d);
  replace_version = λ c. store_row;
  prepare_cached = λ c q. return tt;
  remove_file = λ path d. (true, record d { failures = 0 });
}

row_read :
    (d : Disk) (v : Option Text) → ◌≡◌ {A = Result ℕ (Option Text)} (ok d.row) (ok v) → v ≡ d.row
row_read d v e = cc

abbrev disk_rows : KeepsRows disk
disk_rows = record {
  stored = λ c d. d.row;
  query_keeps = λ c d. refl;
  query_reads = λ c d v e. row_read d v e;
  replace_writes = λ c v d e. refl;
  prepare_keeps = λ c q d. refl;
}

-- A file system that does not let the file be deleted, and files that never open.
abbrev stuck : Sqlite
stuck = record disk {
  World = Disk;
  Connection = Unit;
  Error = ℕ;
  open_in_memory = return tt;
  open_file = λ path. throw 9;
  execute_batch = λ c sql. return tt;
  query_version = λ c d. (ok d.row, d);
  replace_version = λ c. store_row;
  prepare_cached = λ c q. return tt;
  remove_file = λ path d. (false, d);
}

abbrev settings : CacheFailure → CacheDbConfiguration
settings on_failure = record {
  table_initializer = codes "CREATE TABLE t";
  on_version_change = codes "DELETE FROM t";
  preheat_queries = codes "SELECT 1" ∷ [];
  on_failure = on_failure;
}

abbrev cache : (db : Sqlite) → CacheFailure → CacheDb db
cache db on_failure = record {
  conn = none;
  path = some (codes "/cache/check_cache");
  config = settings on_failure;
  version = codes "1.0";
}

abbrev disk_after : ℕ → Disk
disk_after n = record { failures = n; row = some (codes "0.9") }

opens : Unit {0}
unfolding open_connection open_connection_and_init initialize_connection update_version preheat
    delete_and_retry give_up text_beq actually_open_connection open_from
opens = tt

abbrev hole : CacheDb stuck
hole = record (cache stuck blackhole) { conn = some black_hole }

black_hole_ignores_example :
    with_connection stuck {A = ℕ} 0 (λ c. return 4) hole (disk_after 3) ≡ (ok 0, hole, disk_after 3)
black_hole_ignores_example = black_hole_ignores stuck 0 (λ c. return 4) hole (disk_after 3) refl

open_connection_and_init-version_example :
    unwrap_or_default
      (open_connection_and_init disk
        (cache disk error)
        (some (codes "/cache/check_cache"))
        (disk_after 0)).1.row
    ≡ codes "1.0"
unfolding opens
open_connection_and_init-version_example =
    open_connection_and_init-version disk disk_rows (cache disk error)
      (some (codes "/cache/check_cache")) tt (disk_after 0) refl

third_attempt_deletes :
    open_connection disk (cache disk error) (disk_after 5)
    ≡ (ok (connected tt), record { failures = 0; row = some (codes "1.0") })
unfolding opens
third_attempt_deletes = refl
