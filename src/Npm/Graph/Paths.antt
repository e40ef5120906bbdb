-- ===== src/Npm/Graph/Paths.antt =====
-- Paths of the traversal (`GraphPath` of crates/module_fetcher/src/npm/resolution/graph.rs).
pub mod Upward
use server_based_deno.Base.{
  ℕ, ◌≡◌, Bool, Option, none, some, List, [], ◌∷◌, Text, Keyed, ◌==◌, text_keyed, nat_beq,
  if◌then◌else◌,
}
use server_based_deno.Npm.Id.Equality.{NpmPackageNv, nv_keyed}
use server_based_deno.Npm.Graph.{
  GraphPath, graph_path, GraphPathNodeOrRoot, at_node, at_root, previous_node, node_id_ref,
}

module _ {V : Type 0} where
  unfoldable pub ancestors_from : GraphPathNodeOrRoot V → List (GraphPathNodeOrRoot V)
  ancestors_from (at_root root) = at_root root ∷ []
  ancestors_from (at_node (graph_path previous cell name nv)) =
      at_node (graph_path previous cell name nv) ∷ ancestors_from previous

  -- What `GraphPathAncestorIterator` yields.
  unfoldable pub ancestors : GraphPath V → List (GraphPathNodeOrRoot V)
  unfolding ancestors_from
  ancestors path = ancestors_from (previous_node path)

  -- The loop of `get_path_to_ancestor_exclusive`.
  unfoldable pub path_up_to : (ℕ → ℕ) → ℕ → GraphPathNodeOrRoot V → List (GraphPath V)
  path_up_to node_ids ancestor_node_id (at_root root) = []
  path_up_to node_ids ancestor_node_id (at_node (graph_path previous cell name nv)) =
      let rest = path_up_to node_ids ancestor_node_id previous in
      if nat_beq (node_ids cell) ancestor_node_id
      then []
      else graph_path previous cell name nv ∷ rest

  unfoldable pub get_path_to_ancestor_exclusive : (ℕ → ℕ) → ℕ → GraphPath V → List (GraphPath V)
  unfolding path_up_to
  get_path_to_ancestor_exclusive node_ids ancestor_node_id path =
      path_up_to node_ids ancestor_node_id (previous_node path)

module _ {V : Type 0} ⦃keyed : Keyed V⦄ where
  -- The loop of `find_ancestor`.
  unfoldable pub find_from : NpmPackageNv V → GraphPathNodeOrRoot V → Option (GraphPath V)
  find_from nv (at_root root) = none
  find_from nv (at_node (graph_path previous cell name own)) =
      let rest = find_from nv previous in
      if own == nv then some (graph_path previous cell name own) else rest

  unfoldable pub find_ancestor : NpmPackageNv V → GraphPath V → Option (GraphPath V)
  unfolding find_from
  find_ancestor nv path = find_from nv (previous_node path)
