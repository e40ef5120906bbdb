-- ===== src/Npm/Graph/Sound/Rounds.antt =====
-- The rounds of the resolution in a sound graph
-- (crates/module_fetcher/src/npm/resolution/graph.rs).
use server_based_deno.Base.{
  ℕ, zero, suc, ◌≡◌, ◌≢◌, refl, sym, ◌∙◌, Bool, true, false, Option, none, some, List, [], ◌∷◌, map,
  Text, get, nat_keyed, text_keyed, Keyed, Result, map_err, inl, inr,
}
use server_based_deno.Npm.{Semver, NpmPackageInfo, NpmPackageVersionInfo}
use server_based_deno.Npm.Id.Equality.{NpmPackageNv, nv_keyed}
use server_based_deno.Npm.Snapshot.{NpmPackageReq}
use server_based_deno.Npm.Dependencies.{
  NpmDependencyEntry, NpmDependencyEntryKind, dep, peer_dep, optional_peer,
}
use server_based_deno.Npm.Graph.{GraphPath, at_node, api_failed, Hashed}
use server_based_deno.Npm.Graph.Resolver.{
  Resolve, State, NpmRegistryApi, UnresolvedOptionalPeer, node_id, node_or_panic, resolved_or_panic,
  package_version_info,
}
use server_based_deno.Npm.Graph.Peers.{set_new_peer_dep}
use server_based_deno.Npm.Graph.Ancestors.{resolve_peer_dep}
use server_based_deno.Npm.Graph.Pending.{
  take_unresolved, keep_unresolved, settle_optional, resolve_peer, resolve_entry, mark_if_none,
  resolve_deps, stored_or_error, deps_of, unless_no_peers, resolve_path, next_round,
  resolve_pending,
}
use server_based_deno.Npm.Graph.Sound.{Known}
use server_based_deno.Npm.Graph.Sound.Outcome.{
  IsLive, Outcome, Outcome-ok, Outcome-err, Outcome-then, Outcome-each, Done, node_id-Known,
}
use server_based_deno.Npm.Graph.Sound.Steps.{
  node_or_panic-Outcome, resolved_or_panic-Outcome, lift-Outcome, set_no_peers-Outcome,
  map_err-ne-missing,
}
use server_based_deno.Npm.Graph.Sound.Infos.{store-Outcome}
use server_based_deno.Npm.Graph.Sound.Peers.{All-const}
use server_based_deno.Npm.Graph.Sound.Moves.{set_new_peer_dep-Outcome}
use server_based_deno.Npm.Graph.Sound.Find.{OptKnown}
use server_based_deno.Npm.Graph.Sound.Ancestors.{resolve_peer_dep-Outcome}
use server_based_deno.Npm.Graph.Sound.Pending.{resolve_dep-Outcome}

module _ (sv : Semver) ⦃version_keyed : Keyed sv.Version⦄ ⦃req_keyed : Keyed (NpmPackageReq sv.Req)⦄
    (hash : List (Hashed sv.Version) → ℕ) (known_good : sv.Req) (depth : ℕ) where
  open sv use {Version, Req}

  settle_optional-Outcome :
      (kind : NpmDependencyEntryKind) (name : Text) (nv : NpmPackageNv Version)
      (path : GraphPath Version) (id : Option ℕ) (s : State sv)
      → IsLive s
      → Known s.graph.nodes 0
      → OptKnown s.graph.nodes id
      → Outcome s Done (settle_optional sv hash known_good depth kind name nv path id s)
  unfolding take_unresolved keep_unresolved
  settle_optional-Outcome dep name nv path id s live started known = Outcome-ok Done s tt live tt
  settle_optional-Outcome peer_dep name nv path id s live started known =
      Outcome-ok Done s tt live tt
  settle_optional-Outcome optional_peer name nv path none s live started known = record {
    live = record { sound = live.sound; cells = live.cells; started = live.started };
    grows = λ i k. k;
    value = tt;
  }
  settle_optional-Outcome optional_peer name nv path (some id) s live started known =
      let taken = take_unresolved sv hash known_good depth nv s in
      let after : IsLive taken.1 = record {
        sound = live.sound;
        cells = live.cells;
        started = live.started;
      } in
      let step = λ (peer : UnresolvedOptionalPeer Version).
        set_new_peer_dep sv hash depth (peer.graph_path ∷ []) (at_node peer.graph_path)
          peer.specifier id in
      let rest =
        Outcome-each step _ taken.1 (λ nodes x. Known nodes id)
          (λ peer t live_t started_t k.
            set_new_peer_dep-Outcome sv hash depth _ (at_node peer.graph_path) peer.specifier id t
              live_t started_t k)
          (λ before after x grows k. grows id k) after started (All-const _ _ known) in
      record { live = rest.live; grows = rest.grows; value = rest.value }

  resolve_peer-Outcome :
      (entry : NpmDependencyEntry sv.Req) (info : NpmPackageInfo) (nv : NpmPackageNv Version)
      (path : GraphPath Version) (s : State sv)
      → IsLive s
      → Known s.graph.nodes 0
      → Outcome s Done (resolve_peer sv hash known_good depth entry info nv path s)
  unfolding resolve_peer
  resolve_peer-Outcome entry info nv path s live started =
      Outcome-then
        (resolve_peer_dep sv hash known_good depth entry.bare_specifier entry info path s)
        (resolve_peer_dep-Outcome sv hash known_good depth entry.bare_specifier entry info path s
          live started)
        λ id t live_t grows known.
          Outcome-then
            (settle_optional sv hash known_good depth entry.kind entry.bare_specifier nv path id t)
            (settle_optional-Outcome entry.kind entry.bare_specifier nv path id t live_t
              (grows 0 started) known)
            λ a u live_u _ _. Outcome-ok Done u true live_u tt

  resolve_entry-Outcome :
      (entry : NpmDependencyEntry sv.Req) (kind : NpmDependencyEntryKind) (info : NpmPackageInfo)
      (nv : NpmPackageNv Version) (path : GraphPath Version) (found : Bool) (s : State sv)
      → IsLive s
      → Known s.graph.nodes 0
      → Outcome s Done (resolve_entry sv hash known_good depth entry kind info nv path found s)
  resolve_entry-Outcome entry dep info nv path found s live started =
      resolve_dep-Outcome sv hash known_good depth entry info path found s live started
  resolve_entry-Outcome entry peer_dep info nv path found s live started =
      resolve_peer-Outcome entry info nv path s live started
  resolve_entry-Outcome entry optional_peer info nv path found s live started =
      resolve_peer-Outcome entry info nv path s live started

  mark_if_none-Outcome :
      (found : Bool) (path : GraphPath Version) (s : State sv)
      → IsLive s
      → Known s.graph.nodes 0
      → Outcome s Done (mark_if_none sv hash known_good depth found path s)
  mark_if_none-Outcome true path s live started = Outcome-ok Done s tt live tt
  mark_if_none-Outcome false path s live started =
      set_no_peers-Outcome (node_id s path) s live (node_id-Known s path live started)

  module _ (api : NpmRegistryApi) where
    api-Outcome :
        {A : Type 0} (r : Result Text A) (s : State sv)
        → IsLive s
        → Outcome s Done (map_err api_failed r, s)
    api-Outcome r s live =
        lift-Outcome (map_err api_failed r) s live (map_err-ne-missing api_failed r (λ e q. cc q))

    resolve_deps-Outcome :
        (nv : NpmPackageNv Version) (path : GraphPath Version)
        (entries : List (NpmDependencyEntry sv.Req)) (found : Bool) (s : State sv)
        → IsLive s
        → Known s.graph.nodes 0
        → Outcome s Done (resolve_deps sv hash known_good depth api nv path entries found s)
    unfolding resolve_deps
    resolve_deps-Outcome nv path [] found s live started = Outcome-ok Done s found live tt
    resolve_deps-Outcome nv path (entry ∷ entries) found s live started =
        Outcome-then (map_err api_failed (api.package_info entry.name), s) (api-Outcome _ s live)
          λ info s1 live1 grows1 _.
            Outcome-then
              (resolve_entry sv hash known_good depth entry entry.kind info nv path found s1)
              (resolve_entry-Outcome entry entry.kind info nv path found s1 live1
                (grows1 0 started))
              λ now s2 live2 grows2 _.
                resolve_deps-Outcome nv path entries now s2 live2 (grows2 0 (grows1 0 started))

    deps_of-Outcome :
        (nv : NpmPackageNv Version) (cached : Option (List (NpmDependencyEntry sv.Req)))
        (s : State sv)
        → IsLive s
        → Outcome s Done (deps_of sv hash known_good depth api nv cached s)
    deps_of-Outcome nv (some deps) s live = Outcome-ok Done s deps live tt
    deps_of-Outcome nv none s live =
        Outcome-then (map_err api_failed (package_version_info sv api nv), s) (api-Outcome _ s live)
          λ info t live_t _ _. stored info t live_t
      where
        stored :
            (info : Option NpmPackageVersionInfo) (t : State sv)
            → IsLive t
            → Outcome t Done (stored_or_error sv hash known_good depth api nv info t)
        stored none t live_t = Outcome-err Done t _ live_t (λ e. cc e)
        stored (some info) t live_t = store-Outcome sv nv info t live_t

    unless_no_peers-Outcome :
        (no_peers : Bool) (path : GraphPath Version) (id : ℕ) (s : State sv)
        → IsLive s
        → Known s.graph.nodes 0
        → Known s.graph.nodes id
        → Outcome s Done (unless_no_peers sv hash known_good depth api no_peers path id s)
    unless_no_peers-Outcome true path id s live started known = Outcome-ok Done s tt live tt
    unless_no_peers-Outcome false path id s live started known =
        Outcome-then (resolved_or_panic id s) (resolved_or_panic-Outcome id s live known)
          λ r s1 live1 grows1 _.
            Outcome-then
              (deps_of sv hash known_good depth api r.nv (get r.nv s1.dep_entry_cache) s1)
              (deps_of-Outcome r.nv _ s1 live1)
              λ deps s2 live2 grows2 _.
                Outcome-then
                  (map_err api_failed (api.cache_in_parallel (map (λ d. d.name) deps)), s2)
                  (api-Outcome _ s2 live2)
                  λ a s3 live3 grows3 _.
                    let started3 = grows3 0 (grows2 0 (grows1 0 started)) in
                    Outcome-then (resolve_deps sv hash known_good depth api r.nv path deps false s3)
                      (resolve_deps-Outcome r.nv path deps false s3 live3 started3)
                      λ found s4 live4 grows4 _.
                        mark_if_none-Outcome found path s4 live4 (grows4 0 started3)

    resolve_path-Outcome :
        (path : GraphPath Version) (s : State sv)
        → IsLive s
        → Known s.graph.nodes 0
        → Outcome s Done (resolve_path sv hash known_good depth api path s)
    unfolding resolve_path
    resolve_path-Outcome path s live started =
        let id = node_id s path in
        let known = node_id-Known s path live started in
        Outcome-then (node_or_panic id s) (node_or_panic-Outcome id s live known)
          λ node t live_t grows _.
            unless_no_peers-Outcome node.no_peers path id t live_t (grows 0 started)
              (grows id known)

    next_round-Outcome :
        (rest : Resolve Version sv.Req (Unit {0}))
        → ((t : State sv) → IsLive t → Outcome t Done (rest t))
        → (pending : List (GraphPath Version)) (s : State sv) → s.pending_unresolved_nodes ≡ pending
        → IsLive s
        → Outcome s Done (next_round sv hash known_good depth api rest pending s)
    next_round-Outcome rest safe [] s e live = Outcome-ok Done s tt live tt
    next_round-Outcome rest safe (path ∷ paths) s e live =
        let started : Known s.graph.nodes 0 = elim live.started [
          | inl empty ↦ absurd (nonempty (sym empty ∙ e))
          | inr k ↦ k
        ] in
        let taken : State sv = record s { pending_unresolved_nodes = paths } in
        let live_taken : IsLive taken = record {
          sound = live.sound;
          cells = live.cells;
          started = inr started;
        } in
        let round =
          Outcome-then (resolve_path sv hash known_good depth api path taken)
            (resolve_path-Outcome path taken live_taken started) λ a t live_t _ _. safe t live_t in
        record { live = round.live; grows = round.grows; value = round.value }
      where
        nonempty : [] ≢ path ∷ paths
        nonempty q = cc q

    -- From a sound graph, whatever the fuel, the resolution leaves a sound graph that has every
    -- node it had, whether it succeeds or fails, and it does not fail by an `unwrap` of a node or a
    -- resolved id that is missing.
    pub resolve_pending-IsLive :
        (fuel : ℕ) (s : State sv)
        → IsLive s
        → Outcome s Done (resolve_pending sv hash known_good depth api fuel s)
    unfolding resolve_pending
    resolve_pending-IsLive zero s live = Outcome-err Done s _ live (λ e. cc e)
    resolve_pending-IsLive (suc fuel) s live =
        next_round-Outcome (resolve_pending sv hash known_good depth api fuel)
          (resolve_pending-IsLive fuel) s.pending_unresolved_nodes s refl live
