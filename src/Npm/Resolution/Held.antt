-- ===== src/Npm/Resolution/Held.antt =====
-- The operations of the resolution keep every dependency and root of the snapshot in it
-- (crates/module_fetcher/src/npm/resolution/mod.rs).
use server_based_deno.Base.{
  ℕ, ◌≢◌, refl, Option, none, some, List, [], ◌∷◌, Text, get, Keyed, Result, ok, err, map_err,
  Bool-cases, Option-cases, Result-cases, inl, inr,
}
use server_based_deno.Base.Effects.{Io, then_io, each}
use server_based_deno.Npm.{Semver}
use server_based_deno.Npm.Id.{NpmPackageId}
use server_based_deno.Npm.Id.Equality.{NpmPackageNv, nv_keyed}
use server_based_deno.Npm.Snapshot.{NpmPackageReq, NpmResolutionPackage}
use server_based_deno.Npm.Graph.{
  Graph, GraphError, missing_node, Hashed, api_failed, take_pending_unresolved,
}
use server_based_deno.Npm.Graph.Resolver.{NpmRegistryApi, State}
use server_based_deno.Npm.Graph.FromSnapshot.{from_snapshot}
use server_based_deno.Npm.Graph.FromSnapshot.Builds.{Within}
use server_based_deno.Npm.Graph.FromSnapshot.Graphs.{from_snapshot-IsSound}
use server_based_deno.Npm.Graph.IntoSnapshot.Queue.{Sure}
use server_based_deno.Npm.Graph.IntoSnapshot.Closed.{IsHeld, into_snapshot-IsHeld}
use server_based_deno.Npm.Graph.Sound.{IsSound}
use server_based_deno.Npm.Graph.Sound.Outcome.{IsLive, Outcome, Outcome-then, Outcome-all, Done}
use server_based_deno.Npm.Graph.Sound.Steps.{lift-Outcome, map_err-ne-missing}
use server_based_deno.Npm.Graph.Sound.Infos.{add_package_req-Outcome, add_root_package-Outcome}
use server_based_deno.Npm.Graph.Sound.Rounds.{resolve_pending-IsLive}
use server_based_deno.Npm.Resolution.{
  Snapshot, Lockfile, insert_specifier, insert_package, lock, new_resolver, add_reqs, add_pending,
  resolve_all, snapshot_after, when_cached, extend_graph, when_graph, is_up_to_date, lock_result,
  add_package_reqs_to_snapshot,
}

-- Any error but the panic of an `unwrap` of a missing node or resolved id.
abbrev pub NotMissing : GraphError → Type 0
NotMissing e = e ≢ missing_node

abbrev Any : {A : Type 0} → A → Type 0
Any a = Unit

then-NotMissing :
    {W A B : Type 0} (x : Result GraphError A × W) (k : A → Io W GraphError B)
    → Within NotMissing Any x.0
    → ((a : A) (w : W) → Within NotMissing Any (k a w).0)
    → Within NotMissing Any (then_io x.0 k x.1).0
then-NotMissing (ok a, w) k h next = next a w
then-NotMissing (err e, w) k h next = h

each-NotMissing :
    {W A : Type 0} (f : A → Io W GraphError (Unit {0})) (xs : List A) (w : W)
    → ((x : A) (v : W) → Within NotMissing Any (f x v).0)
    → Within NotMissing Any (each f xs w).0
each-NotMissing f [] w h = tt
each-NotMissing f (x ∷ xs) w h = then-NotMissing (f x w) _ (h x w) (λ a v. each-NotMissing f xs v h)

module _ (sv : Semver) ⦃version_keyed : Keyed sv.Version⦄
    ⦃req_keyed : Keyed (NpmPackageReq sv.Req)⦄ where
  open sv use {Version, Req}

  pub new_resolver-IsLive : (g : Graph Version sv.Req) → IsSound g → IsLive (new_resolver g)
  unfolding new_resolver
  new_resolver-IsLive g sound = record { sound = sound; cells = λ c. inr refl; started = inl refl }

  pub taken-IsSound : (g : Graph Version sv.Req) → IsSound g → IsSound (take_pending_unresolved g).1
  unfolding take_pending_unresolved
  taken-IsSound g sound = record {
    children = sound.children;
    has_id = sound.has_id;
    first = sound.first;
    roots = sound.roots;
    keys = sound.keys;
    peers = sound.peers;
  }

  module _ (api : NpmRegistryApi) (hash : List (Hashed Version) → ℕ)
      (known_good latest_version_req : Req) (depth fuel : ℕ) where
    resolve_all-Outcome :
        (reqs : List (NpmPackageReq sv.Req)) (pending : List (NpmPackageNv Version)) (s : State sv)
        → IsLive s
        → Outcome s Done
            (resolve_all sv api hash known_good latest_version_req depth fuel reqs pending s)
    unfolding resolve_all
    resolve_all-Outcome reqs pending s live =
        Outcome-then (each (add_reqs sv api hash known_good latest_version_req depth fuel) reqs s)
          (Outcome-all _ reqs s add_req live)
          λ a s1 live1 _ _.
            Outcome-then
              (each (add_pending sv api hash known_good latest_version_req depth fuel) pending s1)
              (Outcome-all _ pending s1 add_root live1)
              λ b s2 live2 _ _. resolve_pending-IsLive sv hash known_good depth api fuel s2 live2
      where
        cached :
            {A : Type 0} (r : Result Text A) (t : State sv)
            → IsLive t
            → Outcome t Done (map_err api_failed r, t)
        cached r t live_t =
            lift-Outcome (map_err api_failed r) t live_t
              (map_err-ne-missing api_failed r (λ e q. cc q))

        add_req :
            (req : NpmPackageReq sv.Req) (t : State sv)
            → IsLive t
            → Outcome t Done (add_reqs sv api hash known_good latest_version_req depth fuel req t)
        add_req req t live_t =
            Outcome-then (map_err api_failed (api.package_info req.name), t) (cached _ t live_t)
              λ info u live_u _ _.
                add_package_req-Outcome sv hash known_good latest_version_req req info u live_u

        add_root :
            (id : NpmPackageNv Version) (t : State sv)
            → IsLive t
            → Outcome t Done (add_pending sv api hash known_good latest_version_req depth fuel id t)
        add_root id t live_t =
            Outcome-then (map_err api_failed (api.package_info id.0), t) (cached _ t live_t)
              λ info u live_u _ _. add_root_package-Outcome sv hash known_good id info u live_u

    pub resolve_all-IsSound :
        (reqs : List (NpmPackageReq sv.Req)) (pending : List (NpmPackageNv Version)) (s : State sv)
        → IsLive s
        → IsSound
            (resolve_all sv api hash known_good latest_version_req depth fuel reqs pending
              s).1.graph
    resolve_all-IsSound reqs pending s live = (resolve_all-Outcome reqs pending s live).live.sound

    snapshot_after-Within :
        (s : State sv) (x : Result GraphError (Unit {0}) × State sv)
        → Outcome s Done x
        → Within NotMissing
            (IsHeld sv)
            (snapshot_after sv api hash known_good latest_version_req depth fuel x)
    snapshot_after-Within s (err e, t) outcome = outcome.value
    snapshot_after-Within s (ok u, t) outcome =
        weaken _ (into_snapshot-IsHeld sv api t.node_ids t.graph outcome.live.sound)
      where
        weaken :
            (r : Result GraphError (Snapshot sv))
            → Sure (IsHeld sv) r
            → Within NotMissing (IsHeld sv) r
        weaken (ok s) h = h
        weaken (err e) h = h.0

    extend_graph-Within :
        (reqs : List (NpmPackageReq sv.Req)) (g : Graph Version sv.Req)
        → IsSound g
        → Within NotMissing
            (IsHeld sv)
            (extend_graph sv api hash known_good latest_version_req depth fuel reqs g)
    unfolding extend_graph
    extend_graph-Within reqs g sound = cached _ _ (
        snapshot_after-Within _ _
          (resolve_all-Outcome _ _ _ (new_resolver-IsLive _ (taken-IsSound g sound))))
      where
        cached :
            (r : Result Text (Unit {0})) (rest : Result GraphError (Snapshot sv))
            → Within NotMissing (IsHeld sv) rest
            → Within NotMissing
                (IsHeld sv)
                (when_cached sv api hash known_good latest_version_req depth fuel r rest)
        cached (err e) rest h = λ q. cc q
        cached (ok u) rest h = h

    when_graph-Within :
        (reqs : List (NpmPackageReq sv.Req)) (r : Result GraphError (Graph Version sv.Req))
        → Within NotMissing IsSound r
        → Within NotMissing
            (IsHeld sv)
            (when_graph sv api hash known_good latest_version_req depth fuel reqs r)
    when_graph-Within reqs (err e) h = h
    when_graph-Within reqs (ok g) h = extend_graph-Within reqs g h

    module _ {L : Type 0} (lockfile : Lockfile sv L) where
      lock-NotMissing : (s : Snapshot sv) (l : L) → Within NotMissing Any (lock sv lockfile s l).0
      unfolding lock
      lock-NotMissing s l =
          then-NotMissing (each (insert_specifier sv lockfile s) s.package_reqs l) _
            (each-NotMissing (insert_specifier sv lockfile s) s.package_reqs l specifier_ok)
            (λ a v. each-NotMissing (insert_package sv lockfile) s.packages v package_ok)
        where
          specifier_ok :
              (entry : NpmPackageReq sv.Req × NpmPackageNv Version) (v : L)
              → Within NotMissing Any (insert_specifier sv lockfile s entry v).0
          specifier_ok entry v = elim (Option-cases (get entry.1 s.root_packages)) [
            | inl e ↦ rw (e, insert_specifier) (λ q. cc q)
            | inr (root, e) ↦ rw (e, insert_specifier) tt
          ]

          package_ok :
              (entry : NpmPackageId Version × NpmResolutionPackage Version) (v : L)
              → Within NotMissing Any (insert_package sv lockfile entry v).0
          package_ok entry v =
              elim (Result-cases (lockfile.check_or_insert_npm_package entry.1 v)) [
                | inl (a, e) ↦ rw (e, insert_package) tt
                | inr (q, e) ↦ rw (e, insert_package) (λ r. cc r)
              ]

      lock_result-Within :
          (r : Result GraphError (Snapshot sv)) (l : Option L)
          → Within NotMissing (IsHeld sv) r
          → Within NotMissing
              (IsHeld sv)
              (lock_result sv api hash known_good latest_version_req depth fuel lockfile r l).0
      lock_result-Within (err e) l h = h
      lock_result-Within (ok s) none h = h
      lock_result-Within (ok s) (some l) h =
          by_result (lock sv lockfile s l).0 (lock-NotMissing s l)
        where
          by_result :
              (r : Result GraphError (Unit {0}))
              → Within NotMissing Any r
              → Within NotMissing (IsHeld sv) (elim r [ ok _ ↦ ok s | err e ↦ err e ])
          by_result (ok u) ok_r = h
          by_result (err e) ok_r = ok_r

      -- From a snapshot that holds its dependencies and its roots the resolution of more
      -- requirements, whatever the fuel, gives a snapshot that holds its own, or an error that is no
      -- panic by an `unwrap` of a missing node or resolved id.
      pub add_package_reqs_to_snapshot-IsHeld :
          (reqs : List (NpmPackageReq sv.Req)) (s : Snapshot sv) (l : Option L)
          → IsHeld sv s
          → Within NotMissing
              (IsHeld sv)
              (add_package_reqs_to_snapshot sv api hash known_good latest_version_req depth fuel
                lockfile reqs s l).0
      unfolding add_package_reqs_to_snapshot
      add_package_reqs_to_snapshot-IsHeld reqs s l held =
          elim (Bool-cases
            (is_up_to_date sv api hash known_good latest_version_req depth fuel reqs s)) [
              | inl same ↦ rw same held
              | inr other ↦ rw other (
                  lock_result-Within _ l (
                    when_graph-Within reqs (from_snapshot sv hash s)
                      (from_snapshot-IsSound sv hash s)))
            ]
