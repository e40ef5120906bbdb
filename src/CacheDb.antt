-- ===== src/CacheDb.antt =====
-- The cache database: crates/module_fetcher/src/cache/cache_db.rs. SQLite and the file system are
-- the parameter `Sqlite`.
pub mod Policy
pub mod Version
mod Examples
use server_based_deno.Base.{
  ℕ, Bool, true, false, not, Option, none, some, List, [], ◌∷◌, ◌++◌, Text, codes, Result, ok, err,
  text_keyed, ◌==◌, if◌then◌else◌,
}
use server_based_deno.Base.Effects.{Io, ◌>>=◌, ◌>>◌, return, throw}

pub data CacheFailure : Type 0 where
  error in_memory blackhole : CacheFailure

pub record CacheDbConfiguration : Type 0 where
  pub table_initializer : Text
  pub on_version_change : Text
  pub preheat_queries : List Text
  pub on_failure : CacheFailure

-- The calls of rusqlite and of `std::fs` that the cache makes.
pub record Sqlite : Type 1 where
  pub World : Type 0
  pub Connection : Type 0
  pub Error : Type 0
  pub open_in_memory : Io World Error Connection
  pub open_file : Text → Io World Error Connection
  pub execute_batch : Connection → Text → Io World Error (Unit {0})
  pub query_version : Connection → Io World Error (Option Text)
  pub replace_version : Connection → Text → Io World Error (Unit {0})
  pub prepare_cached : Connection → Text → Io World Error (Unit {0})
  pub remove_file : Text → World → Bool × World

abbrev pub unwrap_or_default : Option Text → Text
unwrap_or_default none = []
unwrap_or_default (some t) = t

abbrev pub pragmas : Text
pragmas =
    codes
      "PRAGMA journal_mode=TRUNCATE; PRAGMA synchronous=NORMAL; PRAGMA temp_store=memory; PRAGMA page_size=4096; PRAGMA mmap_size=6000000; PRAGMA optimize; CREATE TABLE IF NOT EXISTS info (key TEXT PRIMARY KEY, value TEXT NOT NULL);"

unfoldable pub create_combined_sql : CacheDbConfiguration → Text
create_combined_sql config = pragmas ++ config.table_initializer

module _ (db : Sqlite) where
  open db use {
    World, Connection, Error, open_in_memory, open_file, execute_batch, query_version,
    replace_version, prepare_cached, remove_file,
  }

  pub data ConnectionState : Type 0 where
    connected : Connection → ConnectionState
    black_hole : ConnectionState
    failed : Error → ConnectionState

  -- `conn` is the `OnceCell`.
  pub record CacheDb : Type 0 where
    pub conn : Option ConnectionState
    pub path : Option Text
    pub config : CacheDbConfiguration
    pub version : Text

  unfoldable pub actually_open_connection : Option Text → Io World Error Connection
  actually_open_connection none = open_in_memory
  actually_open_connection (some path) = open_file path

  unfoldable pub preheat : Connection → List Text → Io World Error (Unit {0})
  preheat conn [] = return tt
  preheat conn (q ∷ qs) = do prepare_cached conn q; preheat conn qs

  unfoldable pub update_version :
      CacheDbConfiguration → Connection → Text → Text → Io World Error (Unit {0})
  update_version config conn existing_version version =
      if existing_version == version
      then return tt
      else do execute_batch conn config.on_version_change; replace_version conn version

  unfoldable pub initialize_connection :
      CacheDbConfiguration → Connection → Text → Io World Error (Unit {0})
  initialize_connection config conn version = do
    execute_batch conn (create_combined_sql config)
    existing ← query_version conn
    update_version config conn (unwrap_or_default existing) version
    preheat conn config.preheat_queries

  unfoldable pub open_connection_and_init : CacheDb → Option Text → Io World Error Connection
  open_connection_and_init self path = do
    conn ← actually_open_connection path
    initialize_connection self.config conn self.version
    return conn

  -- `on_failure`, with the error of the second attempt.
  unfoldable pub give_up : CacheDb → Error → CacheFailure → Io World Error ConnectionState
  give_up self e in_memory = do conn ← open_connection_and_init self none; return (connected conn)
  give_up self e blackhole = return black_hole
  give_up self e error = throw e

  -- The third attempt, once the file is deleted.
  unfoldable pub after_delete :
      CacheDb → Text → Error → Result Error Connection × World → Io World Error ConnectionState
  after_delete self path e (ok conn, w') w = (ok (connected conn), w')
  after_delete self path e (err _, w') w = give_up self e self.config.on_failure w'

  unfoldable pub delete_and_retry : CacheDb → Text → Error → Io World Error ConnectionState
  unfolding after_delete
  delete_and_retry self path e w =
      let (deleted, w') = remove_file path w in
      if deleted
      then after_delete self path e (open_connection_and_init self self.path w') w'
      else give_up self e self.config.on_failure w'

  unfoldable pub retry : CacheDb → Text → Result Error Connection → Io World Error ConnectionState
  retry self path (ok conn) w = (ok (connected conn), w)
  retry self path (err e) w = delete_and_retry self path e w

  abbrev pub first_failed : CacheDb → Option Text → Error → Io World Error ConnectionState
  first_failed self none e w = (err e, w)
  first_failed self (some path) e w =
      let (r, w') = open_connection_and_init self self.path w in retry self path r w'

  abbrev pub first_try : CacheDb → Result Error Connection → Io World Error ConnectionState
  first_try self (ok conn) w = (ok (connected conn), w)
  first_try self (err e) w = first_failed self self.path e w

  unfoldable pub open_connection : CacheDb → Io World Error ConnectionState
  unfolding retry
  open_connection self w =
      let (r, w') = open_connection_and_init self self.path w in first_try self r w'

  abbrev pub or_error : Result Error ConnectionState → ConnectionState
  or_error (ok state) = state
  or_error (err e) = failed e

  -- `lock.get_or_init`: the cell is filled once.
  abbrev pub get_or_init : Option ConnectionState → CacheDb → World → ConnectionState × World
  get_or_init (some state) self w = (state, w)
  get_or_init none self w = let (r, w') = open_connection self w in (or_error r, w')

  unfoldable pub initialize : CacheDb → World → ConnectionState × CacheDb × World
  initialize self w =
      let (state, w') = get_or_init self.conn self w in
      (state, record self { conn = some state }, w')

  -- What a closure does with the connection; `default` is `T::default()`.
  unfoldable pub use_state :
      {A : Type 0} → A → (Connection → Io World Error A) → ConnectionState → Io World Error A
  use_state default f black_hole = return default
  use_state default f (failed e) = throw e
  use_state default f (connected conn) = f conn

  unfoldable pub with_connection :
      {A : Type 0}
      → A
      → (Connection → Io World Error A)
      → CacheDb
      → World
      → Result Error A × CacheDb × World
  unfolding initialize use_state
  with_connection default f self w =
      let (state, self', w') = initialize self w in
      let (r, w'') = use_state default f state w' in (r, self', w'')
