-- ===== src/CacheDb/Version.antt =====
-- The version row that crates/module_fetcher/src/cache/cache_db.rs keeps in the table `info`.
use server_based_deno.Base.{
  ◌≡◌, refl, Option, some, List, [], ◌∷◌, Text, ok, arith, text_keyed, Result-cases, sym, ◌∙◌,
  text_beq_iff, inl, inr,
}
use server_based_deno.CacheDb.{
  Sqlite, CacheDb, open_connection_and_init, initialize_connection, actually_open_connection,
  update_version, preheat, unwrap_or_default, create_combined_sql, CacheDbConfiguration,
}

-- What SQLite documents of the statements on the version row: a query returns the stored value
-- and changes nothing, a replacement that succeeds stores its argument, and preparing a statement
-- leaves the row alone.
pub record KeepsRows (db : Sqlite) : Type 0 where
  pub stored : db.Connection → db.World → Option Text
  pub query_keeps :
      (c : db.Connection) (w : db.World) → stored c (db.query_version c w).1 ≡ stored c w
  pub query_reads :
      (c : db.Connection) (w : db.World) (v : Option Text)
      → (db.query_version c w).0 ≡ ok v
      → v ≡ stored c w
  pub replace_writes :
      (c : db.Connection) (v : Text) (w : db.World)
      → (db.replace_version c v w).0 ≡ ok tt
      → stored c (db.replace_version c v w).1 ≡ some v
  pub prepare_keeps :
      (c : db.Connection) (q : Text) (w : db.World)
      → stored c (db.prepare_cached c q w).1 ≡ stored c w

module _ (db : Sqlite) (rows : KeepsRows db) where
  open db use {World, Connection}
  open rows use {stored, query_keeps, query_reads, replace_writes, prepare_keeps}

  stored-preheat :
      (c : Connection) (qs : List Text) (w : World) → stored c (preheat db c qs w).1 ≡ stored c w
  unfolding preheat
  stored-preheat c [] w = refl
  stored-preheat c (q ∷ qs) w =
      ground (arith, prepare_keeps c q w, stored-preheat c qs (db.prepare_cached c q w).1)

  stored-update_version :
      (config : CacheDbConfiguration) (c : Connection) (version : Text) (w : World)
      → (update_version db config c (unwrap_or_default (stored c w)) version w).0 ≡ ok tt
      → unwrap_or_default
          (stored c (update_version db config c (unwrap_or_default (stored c w)) version w).1)
        ≡ version
  unfolding update_version
  stored-update_version config c version w h = ground (
    arith,
    text_beq_iff (unwrap_or_default (stored c w)) version,
    replace_writes c version (db.execute_batch c config.on_version_change w).1,
  )

  initialize_connection-version :
      (config : CacheDbConfiguration) (c : Connection) (version : Text) (w : World)
      → (initialize_connection db config c version w).0 ≡ ok tt
      → unwrap_or_default (stored c (initialize_connection db config c version w).1) ≡ version
  unfolding initialize_connection
  initialize_connection-version config c version w h =
      let w₁ = (db.execute_batch c (create_combined_sql config) w).1 in
      let w₂ = (db.query_version c w₁).1 in
      let w₃ = (update_version db config c (unwrap_or_default (stored c w₂)) version w₂).1 in
      elim (Result-cases (db.query_version c w₁).0) [
        | inl (v, read) ↦
            let v_eq : v ≡ stored c w₂ = query_reads c w₁ v read ∙ sym (query_keeps c w₁) in
            ground (
              arith,
              stored-update_version config c version w₂,
              stored-preheat c config.preheat_queries w₃,
            )
        | inr (e, h') ↦ ground arith
      ]

  -- A connection that was initialised holds the running version in its version row, whichever
  -- version the file had before (an absent row counts as the empty version).
  pub open_connection_and_init-version :
      (self : CacheDb db) (path : Option Text) (c : Connection) (w : World)
      → (open_connection_and_init db self path w).0 ≡ ok c
      → unwrap_or_default (stored c (open_connection_and_init db self path w).1) ≡ self.version
  unfolding open_connection_and_init
  open_connection_and_init-version self path c w h = ground (
    arith,
    initialize_connection-version self.config c self.version (actually_open_connection db path w).1,
  )
