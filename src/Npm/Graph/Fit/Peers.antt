-- ===== src/Npm/Graph/Fit/Peers.antt =====
-- Peer dependencies keep the graph fit (crates/module_fetcher/src/npm/resolution/graph.rs).
use server_based_deno.Base.{
  ℕ, zero, suc, Bool, true, false, Option, none, some, List, [], ◌∷◌, ◌++◌, Text, Keyed, ◌==◌,
  if◌then◌else◌,
}
use server_based_deno.Base.Effects.{each}
use server_based_deno.Npm.{Semver, NpmPackageInfo}
use server_based_deno.Npm.Id.Equality.{nv_keyed}
use server_based_deno.Npm.Snapshot.{NpmPackageReq}
use server_based_deno.Npm.Dependencies.{NpmDependencyEntry}
use server_based_deno.Npm.Graph.{
  ResolvedId, parent_reference, GraphPath, graph_path, GraphPathNodeOrRoot, at_node, at_root,
  Hashed, specifier, previous_node, node_id_ref, path_nv,
}
use server_based_deno.Npm.Graph.Paths.{get_path_to_ancestor_exclusive}
use server_based_deno.Npm.Graph.Resolver.{
  Resolve, State, node_id, change_id, set_child, resolved_or_panic, node_or_panic, get_or_create,
  with_id, resolve_node_from_info,
}
use server_based_deno.Npm.Graph.Peers.{
  PeerDeps, first, last, without_last, reverse, push_peer_deps, put_child, copy_children,
  copy_if_created, update_parent, move_descendant, change_node, change_if, add_peer_deps_to_node,
  add_peer_deps_to_path, queue_next, set_new_peer_dep,
}
use server_based_deno.Npm.Graph.Find.{find_peer_dep_in_node, find_in_roots}
use server_based_deno.Npm.Graph.Ancestors.{
  is_optional, set_or_else, below_root, search_ancestors, or_version_req, by_package_info,
  resolve_peer_dep,
}
use server_based_deno.Npm.Graph.Fit.{IsFit, Kept, Kept-then, Kept-each}
use server_based_deno.Npm.Graph.Fit.Steps.{
  push_pending-Kept, change_id-Kept, push_linked-Kept, new_path-Kept, resolved_or_panic-Kept,
  node_or_panic-Kept, return-Kept, put_graph-Kept, set_child-Kept, get_or_create-Kept,
  insert_root-Kept, resolve_node_from_info-Kept,
}

module _ (sv : Semver) ⦃version_keyed : Keyed sv.Version⦄ ⦃req_keyed : Keyed (NpmPackageReq sv.Req)⦄
    (hash : List (Hashed sv.Version) → ℕ) where
  open sv use {Version, Req}

  update_parent-Kept :
      (parent : GraphPathNodeOrRoot Version) (name : Text) (id : ℕ) (s : State sv)
      → IsFit s.graph
      → Kept (update_parent sv parent name id s)
  unfolding put_child
  update_parent-Kept (at_root nv) name id s fit = insert_root-Kept sv nv id s fit
  update_parent-Kept (at_node path) name id s fit = put_graph-Kept (node_id s path) name id s fit

  copy_if_created-Kept :
      (created : Bool) (old new : ℕ) (s : State sv)
      → IsFit s.graph
      → Kept (copy_if_created created old new s)
  unfolding copy_children
  copy_if_created-Kept false old new s fit = record { fit = fit }
  copy_if_created-Kept true old new s fit =
      Kept-then (node_or_panic old s) (node_or_panic-Kept old s fit) λ node t fit_t.
        Kept-each _ node.children t (λ c u fit_u. set_child-Kept new c.0 c.1 u fit_u) fit_t

  -- What the recursive call is taken to do.
  abbrev Keeps : (List (GraphPath Version) → Resolve Version sv.Req (Unit {0})) → Type 0
  Keeps add = (path : List (GraphPath Version)) (s : State sv) → IsFit s.graph → Kept (add path s)

  module _ (add : List (GraphPath Version) → Resolve Version sv.Req (Unit {0}))
      (keeps : Keeps add) where
    move_descendant-Kept :
        (id : ℕ) (descendant : GraphPath Version) (s : State sv)
        → IsFit s.graph
        → Kept (move_descendant sv hash add id descendant s)
    unfolding move_descendant
    move_descendant-Kept id descendant s fit =
        let path = get_path_to_ancestor_exclusive s.node_ids id descendant in
        Kept-then (add path s) (keeps path s fit) λ a s1 fit1.
          Kept-then (change_id descendant id s1) (change_id-Kept descendant id s1 fit1) λ b s2 fit2.
            Kept-then (first path, s2) (return-Kept _ s2 fit2)
              λ bottom s3 fit3.
                set_child-Kept (node_id s3 bottom) (specifier descendant) (node_id s3 descendant) s3
                  fit3

    change_node-Kept :
        (path : GraphPath Version) (old : ℕ) (id : ResolvedId Version) (s : State sv)
        → IsFit s.graph
        → Kept (change_node sv hash add path old id s)
    unfolding change_node
    change_node-Kept path old id s fit =
        Kept-then (get_or_create hash id s) (get_or_create-Kept hash id s fit) λ created s1 fit1.
          Kept-then (copy_if_created created.0 old created.1 s1)
            (copy_if_created-Kept created.0 old created.1 s1 fit1)
            λ a s2 fit2.
              Kept-then (change_id path created.1 s2) (change_id-Kept path created.1 s2 fit2)
                λ b s3 fit3.
                  Kept-then
                    (each (move_descendant sv hash add created.1)
                      (s3.linked_circular_descendants (node_id_ref path)) s3)
                    (Kept-each _ _ s3 (λ x t fit_t. move_descendant-Kept created.1 x t fit_t) fit3)
                    λ c s4 fit4.
                      update_parent-Kept (previous_node path) (specifier path) created.1 s4 fit4

    change_if-Kept :
        (path : GraphPath Version) (old : ℕ) (pushed : Bool × ResolvedId Version) (s : State sv)
        → IsFit s.graph
        → Kept (change_if sv hash add path old pushed s)
    change_if-Kept path old (false, id) s fit = record { fit = fit }
    change_if-Kept path old (true, id) s fit = change_node-Kept path old id s fit

    add_peer_deps_to_node-Kept :
        (deps : PeerDeps Version) (path : GraphPath Version) (s : State sv)
        → IsFit s.graph
        → Kept (add_peer_deps_to_node sv hash add deps path s)
    unfolding add_peer_deps_to_node
    add_peer_deps_to_node-Kept deps path s fit =
        Kept-then (resolved_or_panic (node_id s path) s) (resolved_or_panic-Kept _ s fit)
          λ old t fit_t.
            change_if-Kept path (node_id s path) (push_peer_deps hash t.node_ids deps old) t fit_t

  pub add_peer_deps_to_path-Kept :
      (depth : ℕ) (deps : PeerDeps Version) (path : List (GraphPath Version)) (s : State sv)
      → IsFit s.graph
      → Kept (add_peer_deps_to_path sv hash depth deps path s)
  unfolding add_peer_deps_to_path
  add_peer_deps_to_path-Kept zero deps path s fit = record { fit = fit }
  add_peer_deps_to_path-Kept (suc depth) deps path s fit =
      Kept-each _ (reverse path) s
        (λ x t fit_t.
          add_peer_deps_to_node-Kept (add_peer_deps_to_path sv hash depth deps)
            (λ p u fit_u. add_peer_deps_to_path-Kept depth deps p u fit_u) deps x t fit_t)
        fit

  queue_next-Kept :
      (circular : Bool) (top path : GraphPath Version) (s : State sv)
      → IsFit s.graph
      → Kept (queue_next sv hash circular top path s)
  queue_next-Kept true top path s fit = push_linked-Kept top path s fit
  queue_next-Kept false top path s fit = push_pending-Kept path s fit

  pub set_new_peer_dep-Kept :
      (depth : ℕ) (path : List (GraphPath Version)) (parent : GraphPathNodeOrRoot Version)
      (name : Text) (id : ℕ) (s : State sv)
      → IsFit s.graph
      → Kept (set_new_peer_dep sv hash depth path parent name id s)
  unfolding set_new_peer_dep
  set_new_peer_dep-Kept depth path parent name id s fit =
      Kept-then (resolved_or_panic id s) (resolved_or_panic-Kept id s fit) λ r s1 fit1.
        Kept-then (last path, s1) (return-Kept _ s1 fit1)
          λ top s2 fit2.
            let circular = path_nv top == r.nv in
            let below = if circular then without_last path else path in
            let deps : PeerDeps Version = (parent_reference parent r.nv, r.nv) ∷ [] in
            Kept-then (add_peer_deps_to_path sv hash depth deps below s2)
              (add_peer_deps_to_path-Kept depth deps below s2 fit2)
              λ a s3 fit3.
                Kept-then (first below, s3) (return-Kept _ s3 fit3)
                  λ bottom s4 fit4.
                    Kept-then (set_child (node_id s4 bottom) name id s4)
                      (set_child-Kept (node_id s4 bottom) name id s4 fit4)
                      λ b s5 fit5.
                        Kept-then (with_id bottom id name r.nv s5)
                          (new_path-Kept (at_node bottom) id name r.nv s5 fit5)
                          λ next s6 fit6. queue_next-Kept circular top next s6 fit6

  module _ (known_good : Req) (depth : ℕ) where
    set_or_else-Kept :
        (path : List (GraphPath Version)) (name : Text)
        (found : Option (GraphPathNodeOrRoot Version × ℕ))
        (otherwise : Resolve Version sv.Req (Option ℕ)) (s : State sv)
        → ((t : State sv) → IsFit t.graph → Kept (otherwise t))
        → IsFit s.graph
        → Kept (set_or_else sv hash known_good depth path name found otherwise s)
    set_or_else-Kept path name none otherwise s keeps fit = keeps s fit
    set_or_else-Kept path name (some (parent, id)) otherwise s keeps fit =
        Kept-then (set_new_peer_dep sv hash depth path parent name id s)
          (set_new_peer_dep-Kept depth path parent name id s fit) λ a t fit_t. return-Kept _ t fit_t

    search_ancestors-Kept :
        (entry : NpmDependencyEntry sv.Req) (info : NpmPackageInfo) (name : Text)
        (otherwise : Resolve Version sv.Req (Option ℕ)) (from : GraphPathNodeOrRoot Version)
        → ((t : State sv) → IsFit t.graph → Kept (otherwise t))
        → (path : List (GraphPath Version)) (s : State sv) → IsFit s.graph
        → Kept (search_ancestors sv hash known_good depth entry info name otherwise path from s)
    unfolding search_ancestors find_in_roots find_peer_dep_in_node
    search_ancestors-Kept entry info name otherwise (at_root root) keeps path s fit =
        Kept-then (find_in_roots sv known_good entry info s) (record { fit = fit })
          λ child t fit_t.
            set_or_else-Kept path name (below_root sv hash known_good depth (at_root root) child)
              otherwise t keeps fit_t
    search_ancestors-Kept entry info name otherwise (at_node (graph_path previous cell key nv))
          keeps path s fit =
        Kept-then
          (find_peer_dep_in_node sv known_good entry info (graph_path previous cell key nv) s)
          (record { fit = fit })
          λ found t fit_t.
            set_or_else-Kept _ name found _ t
              (λ u fit_u.
                search_ancestors-Kept entry info name otherwise previous keeps
                  (path ++ graph_path previous cell key nv ∷ []) u fit_u)
              fit_t

    by_package_info-Kept :
        (optional : Bool) (entry : NpmDependencyEntry sv.Req) (info : NpmPackageInfo) (name : Text)
        (path : GraphPath Version) (s : State sv)
        → IsFit s.graph
        → Kept (by_package_info sv hash known_good depth optional entry info name path s)
    by_package_info-Kept true entry info name path s fit = record { fit = fit }
    by_package_info-Kept false entry info name path s fit =
        let req = or_version_req sv hash known_good depth entry entry.peer_dep_version_req in
        Kept-then (resolve_node_from_info sv hash known_good req info s)
          (resolve_node_from_info-Kept sv hash known_good req info s fit)
          λ node t fit_t.
            Kept-then (set_new_peer_dep sv hash depth (path ∷ []) (at_node path) name node.1 t)
              (set_new_peer_dep-Kept depth (path ∷ []) (at_node path) name node.1 t fit_t)
              λ a u fit_u. return-Kept _ u fit_u

    pub resolve_peer_dep-Kept :
        (name : Text) (entry : NpmDependencyEntry sv.Req) (info : NpmPackageInfo)
        (path : GraphPath Version) (s : State sv)
        → IsFit s.graph
        → Kept (resolve_peer_dep sv hash known_good depth name entry info path s)
    unfolding resolve_peer_dep find_peer_dep_in_node
    resolve_peer_dep-Kept name entry info path s fit =
        Kept-then (find_peer_dep_in_node sv known_good entry info path s) (record { fit = fit })
          λ own t fit_t.
            set_or_else-Kept (path ∷ []) name own _ t
              (λ u fit_u.
                search_ancestors-Kept entry info name _ (previous_node path)
                  (λ v fit_v.
                    by_package_info-Kept (is_optional entry.kind) entry info name path v fit_v)
                  (path ∷ []) u fit_u)
              fit_t
