-- ===== src/Npm/Resolution/Ready.antt =====
-- The resolution keeps a snapshot closed and its copies apart
-- (crates/module_fetcher/src/npm/resolution/mod.rs).
use server_based_deno.Base.{
  ℕ, ◌≡◌, ◌≢◌, refl, Bool, Option, none, some, List, [], ◌∷◌, Text, get, Keyed, text_keyed, Result,
  ok, err, Bool-cases, inl, inr, any, all, ◌==◌, map_err,
}
use server_based_deno.Base.Effects.{each}
use server_based_deno.Npm.{Semver}
use server_based_deno.Npm.Id.Equality.{NpmPackageNv, nv_keyed, id_keyed}
use server_based_deno.Npm.Snapshot.{NpmPackageReq}
use server_based_deno.Npm.Graph.{
  Graph, GraphError, missing_node, api_failed, Hashed, take_pending_unresolved,
}
use server_based_deno.Npm.Graph.Resolver.{NpmRegistryApi, State}
use server_based_deno.Npm.Graph.FromSnapshot.{from_snapshot}
use server_based_deno.Npm.Graph.FromSnapshot.Builds.{Within}
use server_based_deno.Npm.Graph.FromSnapshot.Graphs.{from_snapshot-IsSound}
use server_based_deno.Npm.Graph.FromSnapshot.Roots.{from_snapshot-IsFit}
use server_based_deno.Npm.Graph.IntoSnapshot.Queue.{Sure}
use server_based_deno.Npm.Graph.IntoSnapshot.Closed.{IsReady, into_snapshot-IsReady}
use server_based_deno.Npm.Graph.Sound.{IsSound}
use server_based_deno.Npm.Graph.Fit.{IsFit, Kept, Kept-then, Kept-each}
use server_based_deno.Npm.Graph.Fit.Steps.{return-Kept, add_package_req-Kept}
use server_based_deno.Npm.Graph.Fit.Rounds.{resolve_pending-Kept}
use server_based_deno.Npm.Resolution.{
  Snapshot, Lockfile, empty_snapshot, lock, new_resolver, filter, add_reqs, resolve_all,
  snapshot_after, when_cached, extend_graph, when_graph, is_up_to_date, lock_result,
  add_package_reqs_to_snapshot, write_snapshot, add_package_reqs, without_removed, set_package_reqs,
  resolve_pending_packages,
}
use server_based_deno.Npm.Resolution.Held.{resolve_all-IsSound, new_resolver-IsLive, taken-IsSound}

abbrev AnyError : GraphError → Type 0
AnyError e = Unit

filter-nothing : {A : Type 0} (p : A → Bool) (xs : List A) → xs ≡ [] → filter p xs ≡ []
filter-nothing p [] e = refl
filter-nothing p (x ∷ xs) e = cc e

module _ (sv : Semver) ⦃version_keyed : Keyed sv.Version⦄ ⦃req_keyed : Keyed (NpmPackageReq sv.Req)⦄
    (api : NpmRegistryApi) (hash : List (Hashed sv.Version) → ℕ)
    (known_good latest_version_req : sv.Req) (depth fuel : ℕ) where
  open sv use {Version, Req}

  resolve_all-Kept :
      (reqs : List (NpmPackageReq sv.Req)) (pending : List (NpmPackageNv Version)) (s : State sv)
      → pending ≡ []
      → IsFit s.graph
      → Kept (resolve_all sv api hash known_good latest_version_req depth fuel reqs pending s)
  unfolding resolve_all
  resolve_all-Kept reqs (x ∷ xs) s e fit = cc e
  resolve_all-Kept reqs [] s e fit =
      Kept-then (each (add_reqs sv api hash known_good latest_version_req depth fuel) reqs s)
        (Kept-each _ reqs s
          (λ req t fit_t.
            Kept-then (map_err api_failed (api.package_info req.name), t) (return-Kept _ t fit_t)
              λ info u fit_u.
                add_package_req-Kept sv hash known_good latest_version_req req info u fit_u)
          fit)
        λ a t fit_t. resolve_pending-Kept sv hash known_good depth api fuel t fit_t

  snapshot_after-Ready :
      (x : Result GraphError (Unit {0}) × State sv)
      → IsSound x.1.graph
      → Kept x
      → Within AnyError
          (IsReady sv)
          (snapshot_after sv api hash known_good latest_version_req depth fuel x)
  snapshot_after-Ready (err e, t) sound kept = tt
  snapshot_after-Ready (ok u, t) sound kept = weaken _ (
      into_snapshot-IsReady sv api t.node_ids t.graph sound kept.fit.rooted kept.fit.apart
        kept.fit.none_pending)
    where
      weaken :
          (r : Result GraphError (Snapshot sv))
          → Sure (IsReady sv) r
          → Within AnyError (IsReady sv) r
      weaken (ok s) h = h
      weaken (err e) h = tt

  extend_graph-Ready :
      (reqs : List (NpmPackageReq sv.Req)) (g : Graph Version sv.Req)
      → IsSound g
      → IsFit g
      → Within AnyError
          (IsReady sv)
          (extend_graph sv api hash known_good latest_version_req depth fuel reqs g)
  unfolding extend_graph take_pending_unresolved new_resolver
  extend_graph-Ready reqs g sound fit = cached _ _ (
      snapshot_after-Ready _
        (resolve_all-IsSound sv api hash known_good latest_version_req depth fuel _ _ _
          (new_resolver-IsLive sv _ (taken-IsSound sv g sound)))
        (resolve_all-Kept _ _ _ (filter-nothing _ g.pending_unresolved_packages fit.none_pending)
          (record { rooted = fit.rooted; apart = fit.apart; none_pending = refl })))
    where
      cached :
          (r : Result Text (Unit {0})) (rest : Result GraphError (Snapshot sv))
          → Within AnyError (IsReady sv) rest
          → Within AnyError
              (IsReady sv)
              (when_cached sv api hash known_good latest_version_req depth fuel r rest)
      cached (err e) rest h = tt
      cached (ok u) rest h = h

  when_graph-Ready :
      (reqs : List (NpmPackageReq sv.Req)) (r : Result GraphError (Graph Version sv.Req))
      → Within (λ e. e ≢ missing_node) IsSound r
      → Within AnyError IsFit r
      → Within AnyError
          (IsReady sv)
          (when_graph sv api hash known_good latest_version_req depth fuel reqs r)
  when_graph-Ready reqs (err e) sound fit = tt
  when_graph-Ready reqs (ok g) sound fit = extend_graph-Ready reqs g sound fit

  module _ {L : Type 0} (lockfile : Lockfile sv L) where
    lock_result-Ready :
        (r : Result GraphError (Snapshot sv)) (l : Option L)
        → Within AnyError (IsReady sv) r
        → Within AnyError
            (IsReady sv)
            (lock_result sv api hash known_good latest_version_req depth fuel lockfile r l).0
    lock_result-Ready (err e) l h = tt
    lock_result-Ready (ok s) none h = h
    lock_result-Ready (ok s) (some l) h = by_result (lock sv lockfile s l).0
      where
        by_result :
            (r : Result GraphError (Unit {0}))
            → Within AnyError (IsReady sv) (elim r [ ok _ ↦ ok s | err e ↦ err e ])
        by_result (ok u) = h
        by_result (err e) = tt

    add_to_snapshot-Ready :
        (reqs : List (NpmPackageReq sv.Req)) (s : Snapshot sv) (l : Option L)
        → IsReady sv s
        → Within AnyError
            (IsReady sv)
            (add_package_reqs_to_snapshot sv api hash known_good latest_version_req depth fuel
              lockfile reqs s l).0
    unfolding add_package_reqs_to_snapshot
    add_to_snapshot-Ready reqs s l ready =
        elim (Bool-cases
          (is_up_to_date sv api hash known_good latest_version_req depth fuel reqs s)) [
            | inl same ↦ rw same ready
            | inr other ↦ rw other (
                lock_result-Ready _ l (
                  when_graph-Ready reqs (from_snapshot sv hash s) (from_snapshot-IsSound sv hash s)
                    (from_snapshot-IsFit sv hash s ready.closed ready.apart ready.none_pending)))
          ]

    write_snapshot-Ready :
        (state : Snapshot sv × Option L) (x : Result GraphError (Snapshot sv) × Option L)
        → IsReady sv state.0
        → Within AnyError (IsReady sv) x.0
        → IsReady sv
            (write_snapshot sv api hash known_good latest_version_req depth fuel lockfile state
              x).1.0
    write_snapshot-Ready state (ok s, l) ready h = h
    write_snapshot-Ready state (err e, l) ready h = ready

    empty-Ready : IsReady sv (empty_snapshot sv)
    unfolding get
    empty-Ready = record {
      closed = record {
        ids = λ id p e. cc e;
        dependencies_held = λ id p name d e. cc e;
        roots_held = λ n id e. cc e;
        reqs_held = λ r n e. cc e;
      };
      apart = λ a b p q e. cc e;
      none_pending = refl;
    }

    without_removed-Ready :
        (reqs : List (NpmPackageReq sv.Req)) (s : Snapshot sv)
        → IsReady sv s
        → IsReady sv
            (without_removed sv api hash known_good latest_version_req depth fuel lockfile reqs s)
    without_removed-Ready reqs s ready =
        elim (Bool-cases (all (λ e. any (λ r. r == e.0) reqs) s.package_reqs)) [
          | inl kept ↦ rw kept ready
          | inr removed ↦ rw removed empty-Ready
        ]

    -- From a snapshot that is closed, whose copies have different indices and in which nothing is
    -- pending, adding requirements, setting them and resolving what is pending, whether they succeed
    -- or fail, leave a snapshot of the same kind.
    pub package_reqs-IsReady :
        (reqs : List (NpmPackageReq sv.Req)) (state : Snapshot sv × Option L)
        → IsReady sv state.0
        → IsReady sv
            (add_package_reqs sv api hash known_good latest_version_req depth fuel lockfile reqs
              state).1.0
          × IsReady sv
              (set_package_reqs sv api hash known_good latest_version_req depth fuel lockfile reqs
                state).1.0
          × IsReady sv
              (resolve_pending_packages sv api hash known_good latest_version_req depth fuel
                lockfile state).1.0
    unfolding add_package_reqs set_package_reqs resolve_pending_packages
    package_reqs-IsReady reqs state ready = (
      write_snapshot-Ready state _ ready (add_to_snapshot-Ready reqs state.0 state.1 ready),
      write_snapshot-Ready state _ ready
          (add_to_snapshot-Ready reqs _ state.1 (without_removed-Ready reqs state.0 ready)),
      write_snapshot-Ready state _ ready (add_to_snapshot-Ready [] state.0 state.1 ready),
    )
