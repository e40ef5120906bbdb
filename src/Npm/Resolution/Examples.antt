-- ===== src/Npm/Resolution/Examples.antt =====
-- A requirement that is resolved through the whole of it, and the theorems on the resolution.
use server_based_deno.Base.{
  ◌≡◌, refl, Bool, true, Option, none, [], ◌∷◌, Text, codes, Map, get, insert, insert_in_order,
  sort_by, text_beq, text_ltb, text_keyed, nat_keyed, Result, ok, err, if◌then◌else◌, split_once,
  rsplit_once, strip_prefix, starts_with, replace,
}
use server_based_deno.Npm.{NpmPackageInfo}
use server_based_deno.Npm.Id.{NpmPackageId, npm_package_id, no_peers, peer}
use server_based_deno.Npm.Id.Equality.{nv_keyed, id_keyed, id_same}
use server_based_deno.Npm.Id.Examples.{two_versions}
use server_based_deno.Npm.CopyIndex.{resolve, from_map_with_capacity, count_copies}
use server_based_deno.Npm.Snapshot.{NpmResolutionPackage}
use server_based_deno.Npm.Snapshot.Examples.{bool_keyed, req_keyed}
use server_based_deno.Npm.Snapshot.Lockfile.{dummy_dist}
use server_based_deno.Npm.Graph.IntoSnapshot.Closed.{IsReady}
use server_based_deno.Npm.Resolution.{set_package_reqs, resolve_pending_packages}
use server_based_deno.Npm.Resolution.Ready.{package_reqs-IsReady}
use server_based_deno.Npm.Graph.{create_node, set, set_child_of_parent_node, next_node_id}
use server_based_deno.Npm.Graph.FromSnapshot.{from_snapshot, add_roots, no_paths, empty_graph}
use server_based_deno.Npm.Graph.Sound.{IsSound}
use server_based_deno.Npm.Graph.IntoSnapshot.{
  into_snapshot, queue_new, dedup, queue_roots, walk_children, root_ids, put_package, put_name,
  pkg_ids, collect, collect_pending, collect_all,
}
use server_based_deno.Npm.Graph.PackageIds.{
  get_npm_pkg_id, get_npm_pkg_id_from_resolved_id, push_peers, peer_node, child_with_nv,
}
use server_based_deno.Npm.Graph.Paths.{ancestors, find_ancestor, get_path_to_ancestor_exclusive}
use server_based_deno.Npm.Graph.{resolved, get_or_create_for_id}
use server_based_deno.Npm.CopyIndex.{with_capacity}
use server_based_deno.Base.{sort_by}
use server_based_deno.Npm.Graph.Resolver.{package_version_info}
use server_based_deno.Npm.Graph.IntoSnapshot.Closed.{IsHeld}
use server_based_deno.Npm.Dependencies.{NpmDependencyEntry, peer_dep}
use server_based_deno.Npm.Graph.{get_node_id, empty_path}
use server_based_deno.Npm.Graph.Resolver.{GraphDependencyResolver, add_package_req}
use server_based_deno.Npm.Graph.Ancestors.{resolve_peer_dep}
use server_based_deno.Npm.Graph.Ancestors.Itself.{resolve_peer_dep_itself}
use server_based_deno.Npm.Graph.Pending.{resolve_pending}
use server_based_deno.Npm.Graph.Sound.Outcome.{Outcome, Done}
use server_based_deno.Npm.Graph.Sound.Infos.{add_package_req-Outcome}
use server_based_deno.Npm.Graph.Sound.Rounds.{resolve_pending-IsLive}
use server_based_deno.Npm.Resolution.{
  Snapshot, Lockfile, new_resolver, resolve_all, extend_graph, add_package_reqs_to_snapshot,
  add_package_reqs,
}
use server_based_deno.Npm.Resolution.Held.{new_resolver-IsLive}
use server_based_deno.Npm.Resolution.Reached.{Reached, Reached-IsHeld}
use server_based_deno.Npm.Graph.{has_package_req, take_pending_unresolved}
use server_based_deno.Npm.Graph.Resolver.{resolve_node_from_info, versions_of, get_or_create, store}
use server_based_deno.Npm.Versions.{
  resolve_best_package_version_and_info, get_resolved_package_version_and_info, search_versions,
}
use server_based_deno.Npm.Best.{best_loop}
use server_based_deno.Npm.Graph.DepEntries.{sorted_entries, entry_ltb}
use server_based_deno.Npm.Dependencies.{dependencies_as_entries}
use server_based_deno.Npm.Dependencies.{
  peer_entries, dep_entries, parse_dep_entry, parse_dep_entry_name_and_raw_version,
}
use server_based_deno.Base.{rsplit_once, split_once, starts_with}
use server_based_deno.Npm.Graph.Resolver.{
  insert_req, insert_root, new_path, push_pending, node_or_panic, resolved_or_panic, set_no_peers,
  set_child, change_id, push_linked,
}
use server_based_deno.Npm.Graph.Pending.{
  resolve_path, resolve_deps, resolve_dep, analyze_dependency, take_unresolved, keep_unresolved,
  resolve_peer, add_linked_circular_descendant,
}
use server_based_deno.Npm.Graph.Paths.{find_from, ancestors_from, path_up_to}
use server_based_deno.Npm.Versions.{
  resolve_best_from_existing_versions, version_req_satisfies, tag_to_version_info,
}
use server_based_deno.Npm.Graph.{current_state_hash, peer_deps_hashed}
use server_based_deno.Npm.Graph.Ancestors.{search_ancestors}
use server_based_deno.Npm.Graph.Find.{
  find_peer_dep_in_node, find_matching_child, is_match, with_nvs, find_in_roots,
}
use server_based_deno.Npm.Graph.Peers.{
  set_new_peer_dep, add_peer_deps_to_path, add_peer_deps_to_node, change_node, move_descendant,
  copy_children, put_child, push_peer_deps,
}
use server_based_deno.Npm.Graph.{push_peer_dep, peer_dep_hash, current_state_hash_with_hasher}
use server_based_deno.Base.{map}
use server_based_deno.Npm.Graph.Examples.{
  sample, sample_hash, api, info, name_a, name_b, nv_a, path_a, id_b, req_a,
}

abbrev with_requirement : GraphDependencyResolver Bool Unit
with_requirement =
    (add_package_req two_versions sample_hash tt tt req_a
      (info name_a ((codes "b", codes "*") ∷ []))
      (new_resolver (empty_graph two_versions sample_hash sample))).1

empty_graph-IsSound : IsSound (empty_graph two_versions sample_hash sample)
unfolding get
empty_graph-IsSound = record {
  children = λ i n e. cc e;
  has_id = λ i n e. cc e;
  first = λ i k. cc k.1;
  roots = tt;
  keys = λ h i e. cc e;
  peers = λ i r e. cc e;
}

resolve_pending-IsLive_example :
    Outcome with_requirement Done
      (resolve_pending two_versions sample_hash tt 9 api 5 with_requirement)
resolve_pending-IsLive_example =
    resolve_pending-IsLive two_versions sample_hash tt 9 api 5 with_requirement
      (add_package_req-Outcome two_versions sample_hash tt tt req_a
        (info name_a ((codes "b", codes "*") ∷ []))
        (new_resolver (empty_graph two_versions sample_hash sample))
        (new_resolver-IsLive two_versions _ empty_graph-IsSound)).live

abbrev nothing : Snapshot two_versions
nothing = record {
  package_reqs = [];
  root_packages = [];
  packages_by_name = [];
  packages = [];
  pending_unresolved_packages = [];
}

abbrev no_lockfile : Lockfile two_versions (Unit {0})
no_lockfile = record {
  req_to_string = λ r. r.name;
  insert_npm_specifier = λ a b l. l;
  check_or_insert_npm_package = λ p l. ok l;
}

abbrev after_a : Snapshot two_versions × Option (Unit {0})
after_a =
    (add_package_reqs two_versions api sample_hash tt tt 9 5 no_lockfile (req_a ∷ [])
      (nothing, none)).1

-- The requirement of `a` is resolved to both packages.
resolved_a : after_a ≡ (sample, none)
unfolding add_package_reqs add_package_reqs_to_snapshot extend_graph resolve_all new_resolver get
    insert insert_in_order sort_by text_beq text_ltb from_snapshot add_roots has_package_req
    take_pending_unresolved add_package_req resolve_node_from_info versions_of
    resolve_best_package_version_and_info best_loop get_resolved_package_version_and_info
    search_versions get_or_create store sorted_entries dependencies_as_entries strip_prefix
    resolve_pending get_or_create_for_id get_node_id create_node next_node_id set
    set_child_of_parent_node resolved find_ancestor ancestors into_snapshot queue_new dedup
    queue_roots walk_children root_ids put_package put_name pkg_ids collect collect_pending
    collect_all get_npm_pkg_id get_npm_pkg_id_from_resolved_id push_peers peer_node child_with_nv
    resolve with_capacity from_map_with_capacity replace package_version_info id_same peer_entries
    dep_entries parse_dep_entry parse_dep_entry_name_and_raw_version rsplit_once split_once
    starts_with insert_req insert_root new_path push_pending node_or_panic resolved_or_panic
    set_no_peers set_child change_id push_linked resolve_path resolve_deps resolve_dep
    analyze_dependency take_unresolved keep_unresolved resolve_peer add_linked_circular_descendant
    find_from ancestors_from path_up_to resolve_best_from_existing_versions version_req_satisfies
    tag_to_version_info current_state_hash peer_deps_hashed count_copies
resolved_a = refl

nothing-IsHeld : IsHeld two_versions nothing
unfolding get
nothing-IsHeld = record {
  ids = λ id p e. cc e;
  dependencies_held = λ id p name d e. cc e;
  roots_held = λ n id e. cc e;
}

Reached-IsHeld_example : IsHeld two_versions after_a.0
Reached-IsHeld_example =
    Reached-IsHeld two_versions api sample_hash tt tt 9 5 no_lockfile (nothing, none) after_a
      nothing-IsHeld (Reached.added (req_a ∷ []) (nothing, none) Reached.started)

abbrev own_peer : NpmDependencyEntry Unit
own_peer = record {
  kind = peer_dep;
  bare_specifier = name_a;
  name = name_a;
  version_req = tt;
  peer_dep_version_req = none;
}

abbrev with_node : GraphDependencyResolver Bool Unit
with_node = record (new_resolver (empty_graph two_versions sample_hash sample)) {
  graph =
      (get_or_create_for_id sample_hash no_paths (record { nv = nv_a; peer_dependencies = [] })
        (empty_graph two_versions sample_hash sample)).1;
}

resolve_peer_dep_itself_example :
    resolve_peer_dep two_versions sample_hash tt 9 name_a own_peer (info name_a []) path_a with_node
    ≡ (err empty_path, with_node)
unfolding get_or_create_for_id create_node next_node_id get_node_id set resolved get insert
    new_resolver
resolve_peer_dep_itself_example =
    resolve_peer_dep_itself two_versions sample_hash tt 8 name_a own_peer (info name_a []) path_a
      (record { nv = nv_a; peer_dependencies = [] }) with_node refl refl refl refl refl

-- `c` has `b` as its peer, and `a` depends on both.
abbrev name_c : Text
name_c = codes "c"

abbrev id_c : NpmPackageId Bool
id_c = npm_package_id name_c true (peer id_b no_peers)

-- The peer is a peer of every package on the path to it, so of `a` as well.
abbrev id_a_b : NpmPackageId Bool
id_a_b = npm_package_id name_a true (peer id_b no_peers)

abbrev peer_info : Text → NpmPackageInfo
peer_info name = record {
  name = name;
  versions =
      (
        codes "1",
        record {
          version = codes "1";
          dist = dummy_dist;
          dependencies = [];
          peer_dependencies = (name_b, codes "*") ∷ [];
          peer_dependencies_meta = [];
        },
      )
      ∷ [];
  dist_tags = [];
}

abbrev three_infos : Text → Result Text NpmPackageInfo
three_infos name =
    if text_beq name name_a
    then ok (info name ((name_b, codes "*") ∷ (name_c, codes "*") ∷ []))
    else if text_beq name name_b
    then ok (info name [])
    else if text_beq name name_c
    then ok (peer_info name)
    else err (codes "404")

abbrev ids_and_dependencies :
    Map (NpmPackageId Bool) (NpmResolutionPackage Bool)
    → Map (NpmPackageId Bool) (Map Text (NpmPackageId Bool))
ids_and_dependencies packages = map (λ e. (e.0, e.1.dependencies)) packages

abbrev after_peers : Snapshot two_versions × Option (Unit {0})
after_peers =
    (add_package_reqs two_versions
      (record { package_info = three_infos; cache_in_parallel = λ names. ok tt }) sample_hash tt tt
      9 9 no_lockfile (req_a ∷ []) (nothing, none)).1

peer_resolved :
    ids_and_dependencies after_peers.0.packages
    ≡ (id_a_b, (name_b, id_b) ∷ (name_c, id_c) ∷ []) ∷ (id_b, []) ∷ (id_c, (name_b, id_b) ∷ []) ∷ []
unfolding add_package_reqs add_package_reqs_to_snapshot extend_graph resolve_all new_resolver get
    insert insert_in_order sort_by text_beq text_ltb from_snapshot add_roots has_package_req
    take_pending_unresolved add_package_req resolve_node_from_info versions_of
    resolve_best_package_version_and_info best_loop get_resolved_package_version_and_info
    search_versions get_or_create store sorted_entries dependencies_as_entries strip_prefix
    resolve_pending get_or_create_for_id get_node_id create_node next_node_id set
    set_child_of_parent_node resolved find_ancestor ancestors into_snapshot queue_new dedup
    queue_roots walk_children root_ids put_package put_name pkg_ids collect collect_pending
    collect_all get_npm_pkg_id get_npm_pkg_id_from_resolved_id push_peers peer_node child_with_nv
    resolve with_capacity from_map_with_capacity replace package_version_info id_same peer_entries
    dep_entries parse_dep_entry parse_dep_entry_name_and_raw_version rsplit_once split_once
    starts_with insert_req insert_root new_path push_pending node_or_panic resolved_or_panic
    set_no_peers set_child change_id push_linked resolve_path resolve_deps resolve_dep
    analyze_dependency take_unresolved keep_unresolved resolve_peer add_linked_circular_descendant
    find_from ancestors_from path_up_to resolve_best_from_existing_versions version_req_satisfies
    tag_to_version_info current_state_hash peer_deps_hashed count_copies search_ancestors
    resolve_peer_dep find_peer_dep_in_node find_matching_child is_match with_nvs find_in_roots
    set_new_peer_dep add_peer_deps_to_path add_peer_deps_to_node change_node move_descendant
    copy_children put_child push_peer_deps push_peer_dep peer_dep_hash
    current_state_hash_with_hasher get_path_to_ancestor_exclusive entry_ltb
peer_resolved = refl

nothing-IsReady : IsReady two_versions nothing
unfolding get
nothing-IsReady = record {
  closed = record {
    ids = λ id p e. cc e;
    dependencies_held = λ id p name d e. cc e;
    roots_held = λ n id e. cc e;
    reqs_held = λ r n e. cc e;
  };
  apart = λ a b p q e. cc e;
  none_pending = refl;
}

package_reqs-IsReady_example :
    IsReady two_versions
      (add_package_reqs two_versions api sample_hash tt tt 9 5 no_lockfile
        (req_a ∷ [])
        (nothing, none)).1.0
    × IsReady two_versions
        (set_package_reqs two_versions api sample_hash tt tt 9 5 no_lockfile
          (req_a ∷ [])
          (nothing, none)).1.0
    × IsReady two_versions
        (resolve_pending_packages two_versions api sample_hash tt tt 9 5 no_lockfile
          (nothing, none)).1.0
package_reqs-IsReady_example =
    package_reqs-IsReady two_versions api sample_hash tt tt 9 5 no_lockfile (req_a ∷ [])
      (nothing, none) nothing-IsReady
