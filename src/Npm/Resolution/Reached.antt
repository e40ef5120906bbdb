-- ===== src/Npm/Resolution/Reached.antt =====
-- The snapshots that a resolution reaches (crates/module_fetcher/src/npm/resolution/mod.rs).
use server_based_deno.Base.{
  ℕ, Option, none, some, List, [], get, Keyed, Result, ok, err, Bool-cases, all, any, ◌==◌, inl,
  inr,
}
use server_based_deno.Npm.{Semver, NpmPackageInfo}
use server_based_deno.Npm.Id.Equality.{nv_keyed}
use server_based_deno.Npm.Versions.{VersionAndInfo}
use server_based_deno.Npm.Snapshot.{NpmPackageReq}
use server_based_deno.Npm.Graph.{GraphError, Hashed}
use server_based_deno.Npm.Graph.Resolver.{NpmRegistryApi}
use server_based_deno.Npm.Graph.FromSnapshot.Builds.{Within}
use server_based_deno.Npm.Graph.IntoSnapshot.Closed.{IsHeld}
use server_based_deno.Npm.Resolution.{
  Snapshot, Lockfile, empty_snapshot, write_snapshot, add_package_reqs, without_removed,
  set_package_reqs, resolve_pending_packages, version_chosen, resolve_package_req_as_pending,
}
use server_based_deno.Npm.Resolution.Held.{NotMissing, add_package_reqs_to_snapshot-IsHeld}

module _ (sv : Semver) ⦃version_keyed : Keyed sv.Version⦄
    ⦃req_keyed : Keyed (NpmPackageReq sv.Req)⦄ where
  open sv use {Version, Req}

  module _ (api : NpmRegistryApi) (hash : List (Hashed Version) → ℕ)
      (known_good latest_version_req : Req) (depth fuel : ℕ) where
    module _ {L : Type 0} (lockfile : Lockfile sv L) where
      write_snapshot-IsHeld :
          (state : Snapshot sv × Option L) (x : Result GraphError (Snapshot sv) × Option L)
          → IsHeld sv state.0
          → Within NotMissing (IsHeld sv) x.0
          → IsHeld sv
              (write_snapshot sv api hash known_good latest_version_req depth fuel lockfile state
                x).1.0
      write_snapshot-IsHeld state (ok s, l) held h = h
      write_snapshot-IsHeld state (err e, l) held h = held

      empty-IsHeld : IsHeld sv (empty_snapshot sv)
      unfolding get
      empty-IsHeld = record {
        ids = λ id p e. cc e;
        dependencies_held = λ id p name d e. cc e;
        roots_held = λ n id e. cc e;
      }

      without_removed-IsHeld :
          (reqs : List (NpmPackageReq sv.Req)) (s : Snapshot sv)
          → IsHeld sv s
          → IsHeld sv
              (without_removed sv api hash known_good latest_version_req depth fuel lockfile reqs s)
      without_removed-IsHeld reqs s held =
          elim (Bool-cases (all (λ e. any (λ r. r == e.0) reqs) s.package_reqs)) [
            | inl kept ↦ rw kept held
            | inr removed ↦ rw removed empty-IsHeld
          ]

      -- The states of a resolution that starts from a snapshot and a lockfile.
      pub data Reached (start : Snapshot sv × Option L) : Snapshot sv × Option L → Type 0 where
        started : Reached start start
        added :
            (reqs : List (NpmPackageReq sv.Req)) (state : Snapshot sv × Option L)
            → Reached start state
            → Reached start
                (add_package_reqs sv api hash known_good latest_version_req depth fuel lockfile reqs
                  state).1
        set_to :
            (reqs : List (NpmPackageReq sv.Req)) (state : Snapshot sv × Option L)
            → Reached start state
            → Reached start
                (set_package_reqs sv api hash known_good latest_version_req depth fuel lockfile reqs
                  state).1
        resolved :
            (state : Snapshot sv × Option L)
            → Reached start state
            → Reached start
                (resolve_pending_packages sv api hash known_good latest_version_req depth fuel
                  lockfile state).1
        made_pending :
            (cached : Option NpmPackageInfo) (req : NpmPackageReq sv.Req)
            (state : Snapshot sv × Option L)
            → Reached start state
            → Reached start (
              (resolve_package_req_as_pending sv known_good latest_version_req cached req
                  state.0).1,
              state.1,
            )

      made_pending-IsHeld :
          (cached : Option NpmPackageInfo) (req : NpmPackageReq sv.Req) (s : Snapshot sv)
          → IsHeld sv s
          → IsHeld sv
              (resolve_package_req_as_pending sv known_good latest_version_req cached req s).1
      unfolding resolve_package_req_as_pending
      made_pending-IsHeld none req s held = held
      made_pending-IsHeld (some info) req s held = chosen _
        where
          chosen :
              (r : Result GraphError (VersionAndInfo sv))
              → IsHeld sv (version_chosen sv known_good latest_version_req req info r s).1
          chosen (err e) = held
          chosen (ok found) = record {
            ids = held.ids;
            dependencies_held = held.dependencies_held;
            roots_held = held.roots_held;
          }

      -- Whatever operations are called, in whatever order, and whether they succeed or fail, the
      -- snapshot of a resolution holds every dependency and every root under its own id, if the one
      -- that it starts from does.
      pub Reached-IsHeld :
          (start state : Snapshot sv × Option L)
          → IsHeld sv start.0
          → Reached start state
          → IsHeld sv state.0
      unfolding add_package_reqs set_package_reqs resolve_pending_packages
      Reached-IsHeld start _ held started = held
      Reached-IsHeld start _ held (added reqs state r) =
          let before = Reached-IsHeld start state held r in
          write_snapshot-IsHeld state _ before (
            add_package_reqs_to_snapshot-IsHeld sv api hash known_good latest_version_req depth fuel
              lockfile reqs state.0 state.1 before)
      Reached-IsHeld start _ held (set_to reqs state r) =
          let before = Reached-IsHeld start state held r in
          write_snapshot-IsHeld state _ before (
            add_package_reqs_to_snapshot-IsHeld sv api hash known_good latest_version_req depth fuel
              lockfile reqs _ state.1 (without_removed-IsHeld reqs state.0 before))
      Reached-IsHeld start _ held (resolved state r) =
          let before = Reached-IsHeld start state held r in
          write_snapshot-IsHeld state _ before (
            add_package_reqs_to_snapshot-IsHeld sv api hash known_good latest_version_req depth fuel
              lockfile [] state.0 state.1 before)
      Reached-IsHeld start _ held (made_pending cached req state r) =
          made_pending-IsHeld cached req state.0 (Reached-IsHeld start state held r)
