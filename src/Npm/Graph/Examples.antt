-- ===== src/Npm/Graph/Examples.antt =====
-- A registry of two packages, a snapshot of them, and the theorems on the graph and on the
-- resolution at it.
use server_based_deno.Base.{
  ℕ, ◌+◌, ◌*◌, ◌≡◌, ◌≢◌, refl, Bool, true, false, none, some, List, [], ◌∷◌, Text, codes, Map, get,
  insert, insert_in_order, sort_by, text_beq, text_ltb, text_keyed, nat_keyed, ◌==◌, Result, ok,
  err, length, if◌then◌else◌, arith, All, Bool-cases, inl, inr, ◌⊎◌, subst, sym, ap, nat_beq,
  replace,
}
use server_based_deno.Npm.{NpmPackageInfo}
use server_based_deno.Npm.Id.{NpmPackageId, npm_package_id, Peers, no_peers, peer}
use server_based_deno.Npm.Id.Equality.{NpmPackageNv, nv, nv_keyed, id_keyed, id_same, id_same_iff}
use server_based_deno.Npm.Id.Examples.{two_versions}
use server_based_deno.Npm.CopyIndex.{AreApart, resolve, from_map_with_capacity}
use server_based_deno.Npm.Snapshot.{NpmPackageReq, NpmResolutionPackage, NpmResolutionSnapshot}
use server_based_deno.Npm.Snapshot.Examples.{bool_keyed, req_keyed}
use server_based_deno.Npm.Snapshot.Lookup.{IsClosed}
use server_based_deno.Npm.Snapshot.Lockfile.{dummy_dist}
use server_based_deno.Npm.Graph.{
  Graph, GraphPath, graph_path, at_node, at_root, GraphError, missing_node, same_node, Hashed,
  hashed_nv, hashed_id, create_node, set, set_child_of_parent_node, next_node_id,
}
use server_based_deno.Npm.Graph.Resolver.{NpmRegistryApi}
use server_based_deno.Npm.Graph.FromSnapshot.{
  from_snapshot, add_roots, get_or_create_graph_node, new_graph_node, peer_dep_ids, set_children,
  no_paths, empty_graph,
}
use server_based_deno.Npm.Graph.FromSnapshot.Builds.{Within, PeersFit}
use server_based_deno.Npm.Graph.FromSnapshot.Graphs.{
  from_snapshot-IsSound, from_snapshot_ends, IsWhole, Holds,
}
use server_based_deno.Npm.Graph.Sound.{IsSound, Known}
use server_based_deno.Npm.Graph.IntoSnapshot.{
  into_snapshot, queue_new, dedup, queue_roots, walk_children, root_ids, put_package, put_name,
  pkg_ids, collect, collect_pending, collect_all,
}
use server_based_deno.Npm.Graph.PackageIds.{
  get_npm_pkg_id, get_npm_pkg_id_from_resolved_id, push_peers, peer_node, child_with_nv,
}
use server_based_deno.Npm.Graph.PackageIds.Ends.{get_npm_pkg_id_ends}
use server_based_deno.Npm.Graph.Paths.{ancestors, find_ancestor, get_path_to_ancestor_exclusive}
use server_based_deno.Npm.Graph.Paths.Upward.{nodes_of, first_with, take_until, walks_up}
use server_based_deno.Npm.Graph.{ResolvedId, resolved, path_nv, node_id_ref}
use server_based_deno.Npm.CopyIndex.{with_capacity}
use server_based_deno.Base.{sort_by}
use server_based_deno.Npm.Graph.Resolver.{package_version_info}
use server_based_deno.Npm.Graph.IntoSnapshot.Queue.{Sure}
use server_based_deno.Npm.Graph.IntoSnapshot.Closed.{
  Rooted, CopiesApart, into_snapshot-IsClosed, into_snapshot-CopiesApart,
}

-- A registry of two packages, the first of which depends on the second.
abbrev pub info : Text → Map Text Text → NpmPackageInfo
info name deps = record {
  name = name;
  versions =
      (
        codes "1",
        record {
          version = codes "1";
          dist = dummy_dist;
          dependencies = deps;
          peer_dependencies = [];
          peer_dependencies_meta = [];
        },
      )
      ∷ [];
  dist_tags = [];
}

abbrev pub package_info : Text → Result Text NpmPackageInfo
package_info name =
    if text_beq name (codes "a")
    then ok (info name ((codes "b", codes "*") ∷ []))
    else if text_beq name (codes "b")
    then ok (info name [])
    else err (codes "404")

abbrev pub api : NpmRegistryApi
api = record { package_info = package_info; cache_in_parallel = λ names. ok tt }

abbrev pub of_version : Bool → ℕ
of_version true = 1
of_version false = 2

abbrev pub of_name : Text → ℕ
of_name [] = 0
of_name (c ∷ s) = c + 256 * of_name s

abbrev pub sample_hash : List (Hashed Bool) → ℕ
sample_hash [] = 5
sample_hash (hashed_nv (name, v) ∷ rest) =
    of_version v + 3 * (of_name name + 1000 * sample_hash rest)
sample_hash (hashed_id n ∷ rest) = 3 * (n + 1000 * sample_hash rest)

abbrev pub name_a : Text
name_a = codes "a"

abbrev pub name_b : Text
name_b = codes "b"

abbrev pub id_a : NpmPackageId Bool
id_a = npm_package_id name_a true no_peers

abbrev pub id_b : NpmPackageId Bool
id_b = npm_package_id name_b true no_peers

abbrev pub package_a : NpmResolutionPackage Bool
package_a = record {
  pkg_id = id_a;
  copy_index = 0;
  dist = dummy_dist;
  dependencies = (name_b, id_b) ∷ [];
}

abbrev pub package_b : NpmResolutionPackage Bool
package_b = record { pkg_id = id_b; copy_index = 0; dist = dummy_dist; dependencies = [] }

abbrev pub req_a : NpmPackageReq Unit
req_a = record { name = name_a; version_req = none }

abbrev pub sample : NpmResolutionSnapshot Bool Unit
sample = record {
  package_reqs = (req_a, (name_a, true)) ∷ [];
  root_packages = ((name_a, true), id_a) ∷ [];
  packages_by_name = (name_a, id_a ∷ []) ∷ (name_b, id_b ∷ []) ∷ [];
  packages = (id_a, package_a) ∷ (id_b, package_b) ∷ [];
  pending_unresolved_packages = [];
}

from_snapshot-IsSound_example :
    Within (λ e. e ≢ missing_node) IsSound (from_snapshot two_versions sample_hash sample)
from_snapshot-IsSound_example = from_snapshot-IsSound two_versions sample_hash sample

nodes_made :
    (g : Graph Bool Unit) × (from_snapshot two_versions sample_hash sample ≡ ok g)
    × (length g.nodes ≡ 2)
unfolding from_snapshot add_roots get_or_create_graph_node new_graph_node peer_dep_ids set_children
    create_node set set_child_of_parent_node next_node_id get insert insert_in_order text_beq
    text_ltb id_same
nodes_made = (_, refl, refl)

a_there : Holds two_versions sample_hash sample id_a
unfolding get id_same text_beq
a_there = (package_a, refl)

b_there : Holds two_versions sample_hash sample id_b
unfolding get id_same text_beq
b_there = (package_b, refl)

abbrev InSample : NpmPackageId Bool → NpmResolutionPackage Bool → Type 0
InSample id p = ((id_a ≡ id) × (package_a ≡ p)) ⊎ ((id_b ≡ id) × (package_b ≡ p))

in_sample :
    (id : NpmPackageId Bool) (p : NpmResolutionPackage Bool)
    → get id sample.packages ≡ some p
    → InSample id p
unfolding get
in_sample id p e = elim (Bool-cases (id_same id_a id)) [
  | inl same ↦ inl ((id_same_iff id_a id).0 same, cc (rw same at e))
  | inr other ↦ elim (Bool-cases (id_same id_b id)) [
    | inl same ↦ inr ((id_same_iff id_b id).0 same, cc (rw (other, same) at e))
    | inr none_left ↦ cc (rw (other, none_left) at e)
  ]
]

held_dependencies :
    (id : NpmPackageId Bool) (p : NpmResolutionPackage Bool)
    → InSample id p
    → All (λ c. Holds two_versions sample_hash sample c.1) p.dependencies
held_dependencies id p (inl (_, e)) =
    subst
      (λ (q : NpmResolutionPackage Bool).
        All (λ c. Holds two_versions sample_hash sample c.1) q.dependencies)
      e (b_there, tt)
held_dependencies id p (inr (_, e)) =
    subst
      (λ (q : NpmResolutionPackage Bool).
        All (λ c. Holds two_versions sample_hash sample c.1) q.dependencies)
      e tt

held_peers :
    (name : Text) (v : Bool) (ps : Peers Bool) (p : NpmResolutionPackage Bool)
    → InSample (npm_package_id name v ps) p
    → PeersFit (Holds two_versions sample_hash sample) ps
held_peers name v no_peers p h = tt
held_peers name v (peer q ps) p (inl (e, _)) = cc e
held_peers name v (peer q ps) p (inr (e, _)) = cc e

sample-IsWhole : IsWhole two_versions sample_hash sample
sample-IsWhole = record {
  roots = (a_there, tt);
  dependencies = λ id p e. held_dependencies id p (in_sample id p e);
  peers = λ name v ps h. held_peers name v ps h.0 (in_sample (npm_package_id name v ps) h.0 h.1);
}

from_snapshot_ends_example :
    Within (λ e. e ≡ same_node) IsSound (from_snapshot two_versions sample_hash sample)
from_snapshot_ends_example = from_snapshot_ends two_versions sample_hash sample sample-IsWhole

abbrev graph_of : Result GraphError (Graph Bool Unit) → Graph Bool Unit
graph_of (ok g) = g
graph_of (err e) = empty_graph two_versions sample_hash sample

abbrev sample_graph : Graph Bool Unit
sample_graph = graph_of (from_snapshot two_versions sample_hash sample)

graph_of-IsSound :
    (r : Result GraphError (Graph Bool Unit))
    → Within (λ e. e ≢ missing_node) IsSound r
    → (g : Graph Bool Unit) × (r ≡ ok g)
    → IsSound (graph_of r)
graph_of-IsSound (ok g) h e = h
graph_of-IsSound (err e) h (g, q) = cc q

sample_graph-IsSound : IsSound sample_graph
sample_graph-IsSound =
    graph_of-IsSound _ (from_snapshot-IsSound two_versions sample_hash sample)
      (nodes_made.0, nodes_made.1)

package_reqs_made : sample_graph.package_reqs ≡ sample.package_reqs
unfolding from_snapshot add_roots get_or_create_graph_node new_graph_node peer_dep_ids set_children
    create_node set set_child_of_parent_node next_node_id get insert insert_in_order text_beq
    text_ltb id_same
package_reqs_made = refl

roots_made : sample_graph.root_packages ≡ ((name_a, true), 0) ∷ []
unfolding from_snapshot add_roots get_or_create_graph_node new_graph_node peer_dep_ids set_children
    create_node set set_child_of_parent_node next_node_id get insert insert_in_order text_beq
    text_ltb id_same
roots_made = refl

copies_made : sample_graph.packages_to_copy_index ≡ (id_a, 0) ∷ (id_b, 0) ∷ []
unfolding from_snapshot add_roots get_or_create_graph_node new_graph_node peer_dep_ids set_children
    create_node set set_child_of_parent_node next_node_id get insert insert_in_order text_beq
    text_ltb id_same
copies_made = refl

sample_graph-Rooted : Rooted sample_graph
unfolding get
sample_graph-Rooted r n e =
    let only : (name_a, true) ≡ n = elim (Bool-cases (req_keyed.same req_a r)) [
      | inl same ↦ cc (rw (package_reqs_made, same) at e)
      | inr other ↦ cc (rw (package_reqs_made, other) at e)
    ] in
    (0, rw (sym only) (rw roots_made (unfold text_beq in refl)))

into_snapshot-IsClosed_example :
    Sure (IsClosed two_versions) (into_snapshot two_versions api no_paths sample_graph)
into_snapshot-IsClosed_example =
    into_snapshot-IsClosed two_versions api no_paths sample_graph sample_graph-IsSound
      sample_graph-Rooted

abbrev OneOf : NpmPackageId Bool → Type 0
OneOf a = (id_a ≡ a) ⊎ (id_b ≡ a)

one_of : (a : NpmPackageId Bool) (i : ℕ) → get a ((id_a, 0) ∷ (id_b, 0) ∷ []) ≡ some i → OneOf a
unfolding get
one_of a i e = elim (Bool-cases (id_same id_a a)) [
  | inl same ↦ inl ((id_same_iff id_a a).0 same)
  | inr other ↦ elim (Bool-cases (id_same id_b a)) [
    | inl same ↦ inr ((id_same_iff id_b a).0 same)
    | inr none_left ↦ cc (rw (other, none_left) at e)
  ]
]

names_differ : name_a ≢ name_b
names_differ e = ground (arith, e)

apart : (a b : NpmPackageId Bool) → OneOf a → OneOf b → nv a ≡ nv b → a ≡ b
apart a b (inl p) (inl q) e = cc (p, q)
apart a b (inr p) (inr q) e = cc (p, q)
apart a b (inl p) (inr q) e =
    absurd (names_differ (ap (λ (n : NpmPackageNv Bool). n.0) (rw (sym p, sym q) at e)))
apart a b (inr p) (inl q) e =
    absurd (names_differ (sym (ap (λ (n : NpmPackageNv Bool). n.0) (rw (sym p, sym q) at e))))

copies-AreApart : AreApart sample_graph.packages_to_copy_index
copies-AreApart a b i ha hb e =
    apart a b (one_of a i (rw copies_made at ha)) (one_of b i (rw copies_made at hb)) e

into_snapshot-CopiesApart_example :
    Sure CopiesApart (into_snapshot two_versions api no_paths sample_graph)
into_snapshot-CopiesApart_example =
    into_snapshot-CopiesApart two_versions api no_paths sample_graph sample_graph-IsSound
      copies-AreApart

-- The graph of a snapshot gives the snapshot back.
made_back : into_snapshot two_versions api no_paths sample_graph ≡ ok sample
unfolding from_snapshot add_roots get_or_create_graph_node new_graph_node peer_dep_ids set_children
    create_node set set_child_of_parent_node next_node_id get insert insert_in_order text_beq
    text_ltb id_same into_snapshot queue_new dedup queue_roots walk_children root_ids put_package
    put_name pkg_ids collect collect_pending collect_all get_npm_pkg_id
    get_npm_pkg_id_from_resolved_id push_peers peer_node child_with_nv resolve with_capacity replace
    package_version_info resolved sort_by from_map_with_capacity
made_back = refl

node_0 : Known sample_graph.nodes 0
unfolding from_snapshot add_roots get_or_create_graph_node new_graph_node peer_dep_ids set_children
    create_node set set_child_of_parent_node next_node_id get insert insert_in_order text_beq
    text_ltb id_same
node_0 = (_, refl)

get_npm_pkg_id_ends_example :
    (p : NpmPackageId Bool) × (r : ResolvedId Bool) × (get_npm_pkg_id no_paths sample_graph 0
      ≡ ok p)
    × (resolved 0 sample_graph.resolved_node_ids ≡ some r)
    × (nv p ≡ r.nv)
get_npm_pkg_id_ends_example =
    get_npm_pkg_id_ends no_paths sample_graph sample_graph-IsSound 0 node_0

abbrev pub nv_a : NpmPackageNv Bool
nv_a = (name_a, true)

abbrev pub path_a : GraphPath Bool
path_a = graph_path (at_root nv_a) 0 [] nv_a

abbrev path_b : GraphPath Bool
path_b = graph_path (at_node path_a) 1 name_b (name_b, true)

walks_up_example :
    (find_ancestor nv_a path_b ≡ first_with (λ p. path_nv p == nv_a) (nodes_of (ancestors path_b)))
    × (get_path_to_ancestor_exclusive (λ c. c) 0 path_b
        ≡ take_until (λ p. nat_beq (node_id_ref p) 0) (nodes_of (ancestors path_b)))
walks_up_example = walks_up nv_a (λ c. c) 0 path_b

abbrev no_peers_of_b : ResolvedId Bool
no_peers_of_b = record { nv = (name_b, true); peer_dependencies = [] }
