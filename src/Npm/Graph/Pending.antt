-- ===== src/Npm/Graph/Pending.antt =====
-- The resolution of what is pending: `resolve_pending`, `analyze_dependency` and
-- `add_linked_circular_descendant` of crates/module_fetcher/src/npm/resolution/graph.rs. The loop
-- is on fuel, one unit for each path that it takes from the queue.
use server_based_deno.Base.{
  ℕ, zero, suc, Bool, true, false, not, Option, none, some, List, [], ◌∷◌, ◌++◌, map, Text, get,
  insert, remove, nat_keyed, text_keyed, Keyed, nat_beq, ok, err, if◌then◌else◌, map_err,
}
use server_based_deno.Base.Effects.{◌>>=◌, ◌>>◌, return, throw, lift, gets, each}
use server_based_deno.Npm.{Semver, NpmPackageInfo, NpmPackageVersionInfo}
use server_based_deno.Npm.Id.Equality.{NpmPackageNv, nv_keyed}
use server_based_deno.Npm.Snapshot.{NpmPackageReq}
use server_based_deno.Npm.Dependencies.{
  NpmDependencyEntry, NpmDependencyEntryKind, dep, peer_dep, optional_peer,
}
use server_based_deno.Npm.Graph.{
  GraphPath, Hashed, api_failed, no_version_information, out_of_fuel, specifier, at_node,
}
use server_based_deno.Npm.Graph.Paths.{get_path_to_ancestor_exclusive, find_ancestor}
use server_based_deno.Npm.Graph.Resolver.{
  Resolve, NpmRegistryApi, UnresolvedOptionalPeer, found, node_id, push_pending, push_linked,
  with_id, resolved_or_panic, node_or_panic, set_child, set_no_peers, store, resolve_node_from_info,
  package_version_info,
}
use server_based_deno.Npm.Graph.Peers.{PeerDeps, first, add_peer_deps_to_path, set_new_peer_dep}
use server_based_deno.Npm.Graph.Find.{with_nvs}
use server_based_deno.Npm.Graph.Ancestors.{resolve_peer_dep}

abbrev pub or_none_unresolved :
    {V : Type 0} → Option (List (UnresolvedOptionalPeer V)) → List (UnresolvedOptionalPeer V)
or_none_unresolved none = []
or_none_unresolved (some peers) = peers

module _ (sv : Semver) ⦃version_keyed : Keyed sv.Version⦄ ⦃req_keyed : Keyed (NpmPackageReq sv.Req)⦄
    (hash : List (Hashed sv.Version) → ℕ) (known_good : sv.Req) (depth : ℕ) where
  open sv use {Version, Req}

  abbrev pub add_any_peer_deps :
      PeerDeps Version → List (GraphPath Version) → Resolve Version sv.Req (Unit {0})
  add_any_peer_deps [] path = return tt
  add_any_peer_deps (d ∷ ds) path = add_peer_deps_to_path sv hash depth (d ∷ ds) path

  unfoldable pub add_linked_circular_descendant :
      GraphPath Version → GraphPath Version → Resolve Version sv.Req (Unit {0})
  add_linked_circular_descendant ancestor descendant = do
    ancestor_node_id ← gets (λ s. node_id s ancestor)
    path ← gets (λ s. get_path_to_ancestor_exclusive s.node_ids ancestor_node_id descendant)
    ancestor_resolved_id ← resolved_or_panic ancestor_node_id
    named ← gets (λ s. with_nvs s.graph.resolved_node_ids ancestor_resolved_id.peer_dependencies)
    peer_deps ← lift named
    add_any_peer_deps peer_deps path
    bottom ← lift (first path)
    bottom_node_id ← gets (λ s. node_id s bottom)
    descendant_node_id ← gets (λ s. node_id s descendant)
    set_child bottom_node_id (specifier descendant) descendant_node_id
    push_linked ancestor descendant

  abbrev pub link_or_queue :
      GraphPath Version
      → ℕ
      → Text
      → NpmPackageNv Version
      → ℕ
      → Option (GraphPath Version)
      → Resolve Version sv.Req ℕ
  link_or_queue parent_path parent_id name child_nv child_id none = do
    path ← with_id parent_path child_id name child_nv
    set_child parent_id name child_id
    push_pending path
    return child_id
  link_or_queue parent_path parent_id name child_nv child_id (some ancestor) = do
    ancestor_id ← gets (λ s. node_id s ancestor)
    path ← with_id parent_path ancestor_id name child_nv
    add_linked_circular_descendant ancestor path
    return ancestor_id

  unfoldable pub analyze_dependency :
      NpmDependencyEntry sv.Req → NpmPackageInfo → GraphPath Version → Resolve Version sv.Req ℕ
  analyze_dependency entry info parent_path = do
    parent_id ← gets (λ s. node_id s parent_path)
    child ← resolve_node_from_info sv hash known_good entry.version_req info
    if nat_beq child.1 parent_id
        then return child.1
        else link_or_queue parent_path parent_id entry.bare_specifier child.0 child.1
            (find_ancestor child.0 parent_path)

  -- A child that another path has analyzed.
  abbrev pub visit_child :
      GraphPath Version
      → ℕ
      → Text
      → NpmPackageNv Version
      → Option (GraphPath Version)
      → Resolve Version sv.Req ℕ
  visit_child parent_path child_id name child_nv none = do
    path ← with_id parent_path child_id name child_nv
    push_pending path
    return child_id
  visit_child parent_path child_id name child_nv (some ancestor) = do
    path ← with_id parent_path child_id name child_nv
    add_linked_circular_descendant ancestor path
    return child_id

  abbrev pub analyzed_or_not :
      NpmDependencyEntry sv.Req
      → NpmPackageInfo
      → GraphPath Version
      → Option ℕ
      → Resolve Version sv.Req ℕ
  analyzed_or_not entry info parent_path none = analyze_dependency entry info parent_path
  analyzed_or_not entry info parent_path (some child_id) = do
    id ← resolved_or_panic child_id
    visit_child parent_path child_id entry.bare_specifier id.nv (find_ancestor id.nv parent_path)

  abbrev pub check_peers : Bool → ℕ → Resolve Version sv.Req Bool
  check_peers true child_id = return true
  check_peers false child_id = do node ← node_or_panic child_id; return (not node.no_peers)

  unfoldable pub resolve_dep :
      NpmDependencyEntry sv.Req
      → NpmPackageInfo
      → GraphPath Version
      → Bool
      → Resolve Version sv.Req Bool
  resolve_dep entry info parent_path found_peer = do
    parent_id ← gets (λ s. node_id s parent_path)
    node ← node_or_panic parent_id
    child_id ← analyzed_or_not entry info parent_path (get entry.bare_specifier node.children)
    check_peers found_peer child_id

  unfoldable pub take_unresolved :
      NpmPackageNv Version → Resolve Version sv.Req (List (UnresolvedOptionalPeer Version))
  take_unresolved nv s = (
    ok (or_none_unresolved (get nv s.unresolved_optional_peers)),
    record s { unresolved_optional_peers = remove nv s.unresolved_optional_peers },
  )

  unfoldable pub keep_unresolved :
      NpmPackageNv Version → UnresolvedOptionalPeer Version → Resolve Version sv.Req (Unit {0})
  keep_unresolved nv peer s = (
    ok tt,
    record s {
      unresolved_optional_peers =
          insert nv (or_none_unresolved (get nv s.unresolved_optional_peers) ++ peer ∷ [])
            s.unresolved_optional_peers;
    },
  )

  -- What an optional peer dependency does for the paths to the same version.
  abbrev pub settle_optional :
      NpmDependencyEntryKind
      → Text
      → NpmPackageNv Version
      → GraphPath Version
      → Option ℕ
      → Resolve Version sv.Req (Unit {0})
  settle_optional dep name parent_nv path new_id = return tt
  settle_optional peer_dep name parent_nv path new_id = return tt
  settle_optional optional_peer name parent_nv path none =
      keep_unresolved parent_nv (record { specifier = name; graph_path = path })
  settle_optional optional_peer name parent_nv path (some new_id) = do
    peers ← take_unresolved parent_nv
    each
        (λ peer.
          set_new_peer_dep sv hash depth (peer.graph_path ∷ []) (at_node peer.graph_path)
            peer.specifier new_id)
        peers

  unfoldable pub resolve_peer :
      NpmDependencyEntry sv.Req
      → NpmPackageInfo
      → NpmPackageNv Version
      → GraphPath Version
      → Resolve Version sv.Req Bool
  resolve_peer entry info parent_nv parent_path = do
    new_id ← resolve_peer_dep sv hash known_good depth entry.bare_specifier entry info parent_path
    settle_optional entry.kind entry.bare_specifier parent_nv parent_path new_id
    return true

  abbrev pub resolve_entry :
      NpmDependencyEntry sv.Req
      → NpmDependencyEntryKind
      → NpmPackageInfo
      → NpmPackageNv Version
      → GraphPath Version
      → Bool
      → Resolve Version sv.Req Bool
  resolve_entry entry dep info parent_nv path found_peer = resolve_dep entry info path found_peer
  resolve_entry entry peer_dep info parent_nv path found_peer =
      resolve_peer entry info parent_nv path
  resolve_entry entry optional_peer info parent_nv path found_peer =
      resolve_peer entry info parent_nv path

  abbrev pub mark_if_none : Bool → GraphPath Version → Resolve Version sv.Req (Unit {0})
  mark_if_none true path = return tt
  mark_if_none false path = do id ← gets (λ s. node_id s path); set_no_peers id

  module _ (api : NpmRegistryApi) where
    -- The loop over the dependencies, with `found_peer`.
    unfoldable pub resolve_deps :
        NpmPackageNv Version
        → GraphPath Version
        → List (NpmDependencyEntry sv.Req)
        → Bool
        → Resolve Version sv.Req Bool
    resolve_deps parent_nv path [] found_peer = return found_peer
    resolve_deps parent_nv path (entry ∷ entries) found_peer = do
      info ← lift (map_err api_failed (api.package_info entry.name))
      found ← resolve_entry entry entry.kind info parent_nv path found_peer
      resolve_deps parent_nv path entries found

    abbrev pub stored_or_error :
        NpmPackageNv Version
        → Option NpmPackageVersionInfo
        → Resolve Version sv.Req (List (NpmDependencyEntry sv.Req))
    stored_or_error nv none = throw no_version_information
    stored_or_error nv (some info) = store sv nv info

    abbrev pub deps_of :
        NpmPackageNv Version
        → Option (List (NpmDependencyEntry sv.Req))
        → Resolve Version sv.Req (List (NpmDependencyEntry sv.Req))
    deps_of nv (some deps) = return deps
    deps_of nv none = do
      info ← lift (map_err api_failed (package_version_info sv api nv))
      stored_or_error nv info

    abbrev pub unless_no_peers : Bool → GraphPath Version → ℕ → Resolve Version sv.Req (Unit {0})
    unless_no_peers true path id = return tt
    unless_no_peers false path id = do
      resolved_id ← resolved_or_panic id
      cached ← gets (λ s. get resolved_id.nv s.dep_entry_cache)
      deps ← deps_of resolved_id.nv cached
      lift (map_err api_failed (api.cache_in_parallel (map (λ d. d.name) deps)))
      found_peer ← resolve_deps resolved_id.nv path deps false
      mark_if_none found_peer path

    -- A round of the loop.
    unfoldable pub resolve_path : GraphPath Version → Resolve Version sv.Req (Unit {0})
    resolve_path path = do
      id ← gets (λ s. node_id s path)
      node ← node_or_panic id
      unless_no_peers node.no_peers path id

    abbrev pub next_round :
        Resolve Version sv.Req (Unit {0})
        → List (GraphPath Version)
        → Resolve Version sv.Req (Unit {0})
    next_round rest [] s = (ok tt, s)
    next_round rest (path ∷ paths) s =
        (resolve_path path >> rest) (record s { pending_unresolved_nodes = paths })

    unfoldable pub resolve_pending : ℕ → Resolve Version sv.Req (Unit {0})
    resolve_pending zero s = (err out_of_fuel, s)
    resolve_pending (suc fuel) s = next_round (resolve_pending fuel) s.pending_unresolved_nodes s
