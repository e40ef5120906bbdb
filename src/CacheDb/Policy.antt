-- ===== src/CacheDb/Policy.antt =====
-- The policy of crates/module_fetcher/src/cache/cache_db.rs for files that do not open, and the
-- cell that holds its outcome.
use server_based_deno.Base.{
  ◌≡◌, none, some, Text, ok, err, arith, Result-cases, Bool-cases, inl, inr,
}
use server_based_deno.Base.Effects.{Io}
use server_based_deno.CacheDb.{
  Sqlite, CacheDb, ConnectionState, connected, black_hole, blackhole, open_connection_and_init,
  give_up, delete_and_retry, open_connection, initialize, with_connection,
}

module _ (db : Sqlite) where
  open db use {World, Connection, Error}

  -- The connection is opened once: on a cache that was initialised before, in whatever world, the
  -- same state is found and the world is left alone.
  pub initialize_once :
      (self : CacheDb db) (w later : World)
      → initialize db (initialize db self w).1 later
        ≡ ((initialize db self w).0, (initialize db self w).1, later)
  unfolding initialize
  initialize_once self w later = ground arith

  -- A file that opens at the second attempt is neither deleted nor opened again.
  pub open_connection_second_try :
      (self : CacheDb db) (path : Text) (e : Error) (conn : Connection) (w : World)
      → self.path ≡ some path
      → (open_connection_and_init db self self.path w).0 ≡ err e
      → (open_connection_and_init db self self.path
          (open_connection_and_init db self self.path w).1).0
        ≡ ok conn
      → open_connection db self w ≡ (
        ok (connected conn),
        (open_connection_and_init db self self.path
            (open_connection_and_init db self self.path w).1).1,
      )
  unfolding open_connection
  open_connection_second_try self path e conn w p a b = ground arith

  delete_and_retry_opens :
      (self : CacheDb db) (path : Text) (e : Error) (w : World)
      → self.config.on_failure ≡ blackhole
      → (state : ConnectionState db) × ((delete_and_retry db self path e w).0 ≡ ok state)
  unfolding delete_and_retry give_up
  delete_and_retry_opens self path e w q =
      elim (Result-cases (open_connection_and_init db self self.path (db.remove_file path w).1).0) [
        | inl (conn, h) ↦ elim (Bool-cases (db.remove_file path w).0) [
          | inl deleted ↦ (connected conn, ground arith)
          | inr kept ↦ (black_hole, ground arith)
        ]
        | inr (e', h) ↦ (black_hole, ground arith)
      ]

  -- A cache on disk whose policy is the black hole always comes up, connected or as a black hole.
  pub blackhole_always_opens :
      (self : CacheDb db) (path : Text) (w : World)
      → self.path ≡ some path
      → self.config.on_failure ≡ blackhole
      → (state : ConnectionState db) × ((open_connection db self w).0 ≡ ok state)
  unfolding open_connection
  blackhole_always_opens self path w p q =
      let w₁ = (open_connection_and_init db self self.path w).1 in
      let w₂ = (open_connection_and_init db self self.path w₁).1 in
      elim (Result-cases (open_connection_and_init db self self.path w).0) [
        | inl (conn, h) ↦ (connected conn, ground arith)
        | inr (e, h) ↦ elim (Result-cases (open_connection_and_init db self self.path w₁).0) [
          | inl (conn, h') ↦ (connected conn, ground arith)
          | inr (e', h') ↦
              let (state, opened) = delete_and_retry_opens self path e' w₂ q in
              (state, ground arith)
        ]
      ]

  -- When a cache could not be opened, each later use fails with the error of the opening, runs no
  -- query and touches nothing.
  pub failed_opening_sticks :
      {A : Type 0} (default : A) (f g : Connection → Io World Error A) (self : CacheDb db)
      (e : Error) (w later : World)
      → self.conn ≡ none
      → (open_connection db self w).0 ≡ err e
      → with_connection db default g (with_connection db default f self w).1 later
        ≡ (err e, (with_connection db default f self w).1, later)
  unfolding with_connection
  failed_opening_sticks default f g self e w later n h = ground arith

  -- A black hole ignores what it is given: every use returns the default value and runs nothing.
  pub black_hole_ignores :
      {A : Type 0} (default : A) (f : Connection → Io World Error A) (self : CacheDb db) (w : World)
      → self.conn ≡ some black_hole
      → with_connection db default f self w ≡ (ok default, self, w)
  unfolding with_connection
  black_hole_ignores default f self w h = ground arith
