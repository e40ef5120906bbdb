-- ===== src/Npm/Graph/Peers.antt =====
-- Peer dependencies (crates/module_fetcher/src/npm/resolution/graph.rs): where one is found, and
-- the new ids of the nodes on the path from it. `depth` bounds how far a change passes from one
-- path to those that are linked to it.
use server_based_deno.Base.{
  ℕ, zero, suc, Bool, true, false, ◌||◌, none, some, List, [], ◌∷◌, Text, Map, get, nat_keyed,
  text_keyed, Keyed, ◌==◌, Result, ok, err, get_last?, if◌then◌else◌,
}
use server_based_deno.Base.Effects.{◌>>=◌, ◌>>◌, return, throw, lift, gets, each}
use server_based_deno.Npm.{Semver}
use server_based_deno.Npm.Id.Equality.{NpmPackageNv, nv_keyed}
use server_based_deno.Npm.Snapshot.{NpmPackageReq}
use server_based_deno.Npm.Graph.{
  ResolvedId, GraphPath, GraphPathNodeOrRoot, at_node, at_root, ResolvedIdPeerDep, parent_reference,
  GraphError, empty_path, out_of_fuel, Hashed, node_id_ref, previous_node, specifier, path_nv,
  push_peer_dep, added_child,
}
use server_based_deno.Npm.Graph.Paths.{get_path_to_ancestor_exclusive}
use server_based_deno.Npm.Graph.Resolver.{
  Resolve, node_id, push_pending, change_id, push_linked, with_id, resolved_or_panic, node_or_panic,
  set_child, get_or_create, with_graph, insert_root,
}

-- `path[0]` and `path.first().unwrap()`
abbrev pub first : {A : Type 0} → List A → Result GraphError A
first [] = err empty_path
first (x ∷ xs) = ok x

abbrev pub last : {A : Type 0} → List A → Result GraphError A
last xs = elim (get_last? xs) [ none ↦ err empty_path | some x ↦ ok x ]

-- `&path[0..path.len() - 1]`
abbrev pub without_last : {A : Type 0} → List A → List A
without_last [] = []
without_last (x ∷ []) = []
without_last (x ∷ y ∷ xs) = x ∷ without_last (y ∷ xs)

abbrev pub reverse_onto : {A : Type 0} → List A → List A → List A
reverse_onto [] acc = acc
reverse_onto (x ∷ xs) acc = reverse_onto xs (x ∷ acc)

-- `path.iter().rev()`
abbrev pub reverse : {A : Type 0} → List A → List A
reverse xs = reverse_onto xs []

-- A peer dependency with the package that it is of.
abbrev pub PeerDeps : Type 0 → Type 0
PeerDeps V = List (ResolvedIdPeerDep V × NpmPackageNv V)

module _ {V : Type 0} ⦃version_keyed : Keyed V⦄ (hash : List (Hashed V) → ℕ) where
  abbrev pub noted : Bool × ResolvedId V → Bool × ResolvedId V → Bool × ResolvedId V
  noted (pushed, id) (has_changed, after) = (pushed || has_changed, after)

  -- The loop over the peer dependencies, with `has_changed`.
  unfoldable pub push_peer_deps : (ℕ → ℕ) → PeerDeps V → ResolvedId V → Bool × ResolvedId V
  push_peer_deps node_ids [] id = (false, id)
  push_peer_deps node_ids ((reference, nv) ∷ rest) id =
      let skipped = push_peer_deps node_ids rest id in
      let pushed = push_peer_dep hash node_ids reference id in
      let after = push_peer_deps node_ids rest pushed.1 in
      if nv == id.nv then skipped else noted pushed after

module _ {V R : Type 0} where
  -- `parent_node.children.insert(…)`, with no test of the ids.
  unfoldable pub put_child : ℕ → Text → ℕ → Resolve V R (Unit {0})
  put_child parent_id name child_id s =
      with_graph (added_child parent_id name child_id (get parent_id s.graph.nodes) s.graph) s

  unfoldable pub copy_children : Map Text ℕ → ℕ → Resolve V R (Unit {0})
  copy_children children new_node_id =
      each (λ child. set_child new_node_id child.0 child.1) children

  abbrev pub copy_if_created : Bool → ℕ → ℕ → Resolve V R (Unit {0})
  copy_if_created false old_node_id new_node_id = return tt
  copy_if_created true old_node_id new_node_id = do
    node ← node_or_panic old_node_id
    copy_children node.children new_node_id

module _ (sv : Semver) ⦃version_keyed : Keyed sv.Version⦄
    ⦃req_keyed : Keyed (NpmPackageReq sv.Req)⦄ where
  open sv use {Version, Req}

  abbrev pub update_parent :
      GraphPathNodeOrRoot Version → Text → ℕ → Resolve Version sv.Req (Unit {0})
  update_parent (at_root nv) name new_node_id = insert_root sv nv new_node_id
  update_parent (at_node parent) name new_node_id = do
    parent_node_id ← gets (λ s. node_id s parent)
    put_child parent_node_id name new_node_id

  module _ (hash : List (Hashed sv.Version) → ℕ) where
    -- One circular descendant of a node that has got a new id. `add_peer_deps` is the recursive
    -- call.
    unfoldable pub move_descendant :
        (List (GraphPath Version) → Resolve Version sv.Req (Unit {0}))
        → ℕ
        → GraphPath Version
        → Resolve Version sv.Req (Unit {0})
    move_descendant add_peer_deps new_node_id descendant = do
      path ← gets (λ s. get_path_to_ancestor_exclusive s.node_ids new_node_id descendant)
      add_peer_deps path
      change_id descendant new_node_id
      bottom ← lift (first path)
      bottom_node_id ← gets (λ s. node_id s bottom)
      descendant_node_id ← gets (λ s. node_id s descendant)
      set_child bottom_node_id (specifier descendant) descendant_node_id

    -- A node of the path gets the id of its new peer dependencies.
    unfoldable pub change_node :
        (List (GraphPath Version) → Resolve Version sv.Req (Unit {0}))
        → GraphPath Version
        → ℕ
        → ResolvedId Version
        → Resolve Version sv.Req (Unit {0})
    change_node add_peer_deps path old_node_id new_resolved_id = do
      created ← get_or_create hash new_resolved_id
      copy_if_created created.0 old_node_id created.1
      change_id path created.1
      circular_descendants ← gets (λ s. s.linked_circular_descendants (node_id_ref path))
      each (move_descendant add_peer_deps created.1) circular_descendants
      update_parent (previous_node path) (specifier path) created.1

    abbrev pub change_if :
        (List (GraphPath Version) → Resolve Version sv.Req (Unit {0}))
        → GraphPath Version
        → ℕ
        → Bool × ResolvedId Version
        → Resolve Version sv.Req (Unit {0})
    change_if add_peer_deps path old_node_id (false, id) = return tt
    change_if add_peer_deps path old_node_id (true, id) =
        change_node add_peer_deps path old_node_id id

    -- A round of the loop over the path.
    unfoldable pub add_peer_deps_to_node :
        (List (GraphPath Version) → Resolve Version sv.Req (Unit {0}))
        → PeerDeps Version
        → GraphPath Version
        → Resolve Version sv.Req (Unit {0})
    add_peer_deps_to_node add_peer_deps peer_deps path = do
      old_node_id ← gets (λ s. node_id s path)
      old_resolved_id ← resolved_or_panic old_node_id
      pushed ← gets (λ s. push_peer_deps hash s.node_ids peer_deps old_resolved_id)
      change_if add_peer_deps path old_node_id pushed

    unfoldable pub add_peer_deps_to_path :
        ℕ → PeerDeps Version → List (GraphPath Version) → Resolve Version sv.Req (Unit {0})
    add_peer_deps_to_path zero peer_deps path = throw out_of_fuel
    add_peer_deps_to_path (suc depth) peer_deps path =
        each (add_peer_deps_to_node (add_peer_deps_to_path depth peer_deps) peer_deps)
          (reverse path)

    -- What is done with the path to the peer dependency: it is linked to the node that it leads
    -- back to, or analyzed later.
    abbrev pub queue_next :
        Bool → GraphPath Version → GraphPath Version → Resolve Version sv.Req (Unit {0})
    queue_next true top_node path = push_linked top_node path
    queue_next false top_node path = push_pending path

    unfoldable pub set_new_peer_dep :
        ℕ
        → List (GraphPath Version)
        → GraphPathNodeOrRoot Version
        → Text
        → ℕ
        → Resolve Version sv.Req (Unit {0})
    set_new_peer_dep depth path peer_dep_parent peer_dep_specifier peer_dep_id = do
      id ← resolved_or_panic peer_dep_id
      let peer_dep_nv = id.nv
      let reference = parent_reference peer_dep_parent peer_dep_nv
      top_node ← lift (last path)
      let circular = path_nv top_node == peer_dep_nv
      let below = if circular then without_last path else path
      add_peer_deps_to_path depth ((reference, peer_dep_nv) ∷ []) below
      bottom_node ← lift (first below)
      bottom_node_id ← gets (λ s. node_id s bottom_node)
      set_child bottom_node_id peer_dep_specifier peer_dep_id
      next ← with_id bottom_node peer_dep_id peer_dep_specifier peer_dep_nv
      queue_next circular top_node next
