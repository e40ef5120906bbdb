-- ===== src/Npm/Graph/Fit/Rounds.antt =====
-- The traversal keeps the graph fit (crates/module_fetcher/src/npm/resolution/graph.rs).
use server_based_deno.Base.{
  ℕ, zero, suc, Bool, true, false, Option, none, some, List, [], ◌∷◌, map, Text, get, nat_keyed,
  text_keyed, Keyed, map_err,
}
use server_based_deno.Npm.{Semver, NpmPackageInfo, NpmPackageVersionInfo}
use server_based_deno.Npm.Id.Equality.{NpmPackageNv, nv_keyed}
use server_based_deno.Npm.Snapshot.{NpmPackageReq}
use server_based_deno.Npm.Dependencies.{
  NpmDependencyEntry, NpmDependencyEntryKind, dep, peer_dep, optional_peer,
}
use server_based_deno.Npm.Graph.{GraphPath, at_node, Hashed, api_failed}
use server_based_deno.Npm.Graph.Resolver.{
  NpmRegistryApi, Resolve, State, UnresolvedOptionalPeer, node_id, resolved_or_panic, node_or_panic,
  package_version_info,
}
use server_based_deno.Npm.Graph.Peers.{set_new_peer_dep}
use server_based_deno.Npm.Graph.Ancestors.{resolve_peer_dep}
use server_based_deno.Npm.Graph.Pending.{
  or_none_unresolved, take_unresolved, keep_unresolved, settle_optional, resolve_peer,
  resolve_entry, mark_if_none, resolve_deps, stored_or_error, deps_of, unless_no_peers,
  resolve_path, next_round, resolve_pending,
}
use server_based_deno.Npm.Graph.Fit.{IsFit, Kept, Kept-then, Kept-each}
use server_based_deno.Npm.Graph.Fit.Steps.{
  resolved_or_panic-Kept, node_or_panic-Kept, return-Kept, set_no_peers-Kept, store-Kept,
}
use server_based_deno.Npm.Graph.Fit.Peers.{set_new_peer_dep-Kept, resolve_peer_dep-Kept}
use server_based_deno.Npm.Graph.Fit.Pending.{resolve_dep-Kept}

module _ (sv : Semver) ⦃version_keyed : Keyed sv.Version⦄ ⦃req_keyed : Keyed (NpmPackageReq sv.Req)⦄
    (hash : List (Hashed sv.Version) → ℕ) (known_good : sv.Req) (depth : ℕ) where
  open sv use {Version, Req}

  settle_optional-Kept :
      (kind : NpmDependencyEntryKind) (name : Text) (nv : NpmPackageNv Version)
      (path : GraphPath Version) (id : Option ℕ) (s : State sv)
      → IsFit s.graph
      → Kept (settle_optional sv hash known_good depth kind name nv path id s)
  unfolding take_unresolved keep_unresolved
  settle_optional-Kept dep name nv path id s fit = record { fit = fit }
  settle_optional-Kept peer_dep name nv path id s fit = record { fit = fit }
  settle_optional-Kept optional_peer name nv path none s fit = record { fit = fit }
  settle_optional-Kept optional_peer name nv path (some id) s fit =
      let step = λ (peer : UnresolvedOptionalPeer Version).
        set_new_peer_dep sv hash depth (peer.graph_path ∷ []) (at_node peer.graph_path)
          peer.specifier id in
      let rest =
        Kept-each step (or_none_unresolved (get nv s.unresolved_optional_peers))
          (take_unresolved sv hash known_good depth nv s).1
          (λ peer t fit_t.
            set_new_peer_dep-Kept sv hash depth _ (at_node peer.graph_path) peer.specifier id t
              fit_t)
          fit in
      record { fit = rest.fit }

  resolve_peer-Kept :
      (entry : NpmDependencyEntry sv.Req) (info : NpmPackageInfo) (nv : NpmPackageNv Version)
      (path : GraphPath Version) (s : State sv)
      → IsFit s.graph
      → Kept (resolve_peer sv hash known_good depth entry info nv path s)
  unfolding resolve_peer
  resolve_peer-Kept entry info nv path s fit =
      Kept-then (resolve_peer_dep sv hash known_good depth entry.bare_specifier entry info path s)
        (resolve_peer_dep-Kept sv hash known_good depth entry.bare_specifier entry info path s fit)
        λ id t fit_t.
          Kept-then
            (settle_optional sv hash known_good depth entry.kind entry.bare_specifier nv path id t)
            (settle_optional-Kept entry.kind entry.bare_specifier nv path id t fit_t)
            λ a u fit_u. return-Kept _ u fit_u

  resolve_entry-Kept :
      (entry : NpmDependencyEntry sv.Req) (kind : NpmDependencyEntryKind) (info : NpmPackageInfo)
      (nv : NpmPackageNv Version) (path : GraphPath Version) (found : Bool) (s : State sv)
      → IsFit s.graph
      → Kept (resolve_entry sv hash known_good depth entry kind info nv path found s)
  resolve_entry-Kept entry dep info nv path found s fit =
      resolve_dep-Kept sv hash known_good depth entry info path found s fit
  resolve_entry-Kept entry peer_dep info nv path found s fit =
      resolve_peer-Kept entry info nv path s fit
  resolve_entry-Kept entry optional_peer info nv path found s fit =
      resolve_peer-Kept entry info nv path s fit

  mark_if_none-Kept :
      (found : Bool) (path : GraphPath Version) (s : State sv)
      → IsFit s.graph
      → Kept (mark_if_none sv hash known_good depth found path s)
  mark_if_none-Kept true path s fit = record { fit = fit }
  mark_if_none-Kept false path s fit = set_no_peers-Kept (node_id s path) s fit

  module _ (api : NpmRegistryApi) where
    resolve_deps-Kept :
        (nv : NpmPackageNv Version) (path : GraphPath Version)
        (entries : List (NpmDependencyEntry sv.Req)) (found : Bool) (s : State sv)
        → IsFit s.graph
        → Kept (resolve_deps sv hash known_good depth api nv path entries found s)
    unfolding resolve_deps
    resolve_deps-Kept nv path [] found s fit = record { fit = fit }
    resolve_deps-Kept nv path (entry ∷ entries) found s fit =
        Kept-then (map_err api_failed (api.package_info entry.name), s) (return-Kept _ s fit)
          λ info s1 fit1.
            Kept-then
              (resolve_entry sv hash known_good depth entry entry.kind info nv path found s1)
              (resolve_entry-Kept entry entry.kind info nv path found s1 fit1)
              λ now s2 fit2. resolve_deps-Kept nv path entries now s2 fit2

    deps_of-Kept :
        (nv : NpmPackageNv Version) (cached : Option (List (NpmDependencyEntry sv.Req)))
        (s : State sv)
        → IsFit s.graph
        → Kept (deps_of sv hash known_good depth api nv cached s)
    deps_of-Kept nv (some deps) s fit = record { fit = fit }
    deps_of-Kept nv none s fit =
        Kept-then (map_err api_failed (package_version_info sv api nv), s) (return-Kept _ s fit)
          λ info t fit_t. stored info t fit_t
      where
        stored :
            (info : Option NpmPackageVersionInfo) (t : State sv)
            → IsFit t.graph
            → Kept (stored_or_error sv hash known_good depth api nv info t)
        stored none t fit_t = record { fit = fit_t }
        stored (some info) t fit_t = store-Kept sv nv info t fit_t

    unless_no_peers-Kept :
        (no_peers : Bool) (path : GraphPath Version) (id : ℕ) (s : State sv)
        → IsFit s.graph
        → Kept (unless_no_peers sv hash known_good depth api no_peers path id s)
    unless_no_peers-Kept true path id s fit = record { fit = fit }
    unless_no_peers-Kept false path id s fit =
        Kept-then (resolved_or_panic id s) (resolved_or_panic-Kept id s fit) λ r s1 fit1.
          Kept-then (deps_of sv hash known_good depth api r.nv (get r.nv s1.dep_entry_cache) s1)
            (deps_of-Kept r.nv _ s1 fit1)
            λ deps s2 fit2.
              Kept-then (map_err api_failed (api.cache_in_parallel (map (λ d. d.name) deps)), s2)
                (return-Kept _ s2 fit2)
                λ a s3 fit3.
                  Kept-then (resolve_deps sv hash known_good depth api r.nv path deps false s3)
                    (resolve_deps-Kept r.nv path deps false s3 fit3)
                    λ found s4 fit4. mark_if_none-Kept found path s4 fit4

    resolve_path-Kept :
        (path : GraphPath Version) (s : State sv)
        → IsFit s.graph
        → Kept (resolve_path sv hash known_good depth api path s)
    unfolding resolve_path
    resolve_path-Kept path s fit =
        Kept-then (node_or_panic (node_id s path) s) (node_or_panic-Kept _ s fit)
          λ node t fit_t. unless_no_peers-Kept node.no_peers path (node_id s path) t fit_t

    next_round-Kept :
        (rest : Resolve Version sv.Req (Unit {0}))
        → ((t : State sv) → IsFit t.graph → Kept (rest t))
        → (pending : List (GraphPath Version)) (s : State sv) → IsFit s.graph
        → Kept (next_round sv hash known_good depth api rest pending s)
    next_round-Kept rest keeps [] s fit = record { fit = fit }
    next_round-Kept rest keeps (path ∷ paths) s fit =
        let taken : State sv = record s { pending_unresolved_nodes = paths } in
        Kept-then (resolve_path sv hash known_good depth api path taken)
          (resolve_path-Kept path taken fit) λ a t fit_t. keeps t fit_t

    pub resolve_pending-Kept :
        (fuel : ℕ) (s : State sv)
        → IsFit s.graph
        → Kept (resolve_pending sv hash known_good depth api fuel s)
    unfolding resolve_pending
    resolve_pending-Kept zero s fit = record { fit = fit }
    resolve_pending-Kept (suc fuel) s fit =
        next_round-Kept (resolve_pending sv hash known_good depth api fuel)
          (resolve_pending-Kept fuel) s.pending_unresolved_nodes s fit
