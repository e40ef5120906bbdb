-- ===== src/Npm/Graph/Paths/Upward.antt =====
-- The walks up a path against its list of ancestors
-- (crates/module_fetcher/src/npm/resolution/graph.rs).
use server_based_deno.Base.{
  ℕ, ◌≡◌, refl, Bool, Option, none, some, List, [], ◌∷◌, Keyed, ◌==◌, nat_beq, if◌then◌else◌,
  Bool-cases, inl, inr,
}
use server_based_deno.Npm.Id.Equality.{NpmPackageNv, nv_keyed}
use server_based_deno.Npm.Graph.{
  GraphPath, graph_path, GraphPathNodeOrRoot, at_node, at_root, node_id_ref, path_nv, previous_node,
}
use server_based_deno.Npm.Graph.Paths.{
  ancestors_from, ancestors, path_up_to, get_path_to_ancestor_exclusive, find_from, find_ancestor,
}

module _ {V : Type 0} where
  -- The ancestors that are nodes.
  abbrev pub nodes_of : List (GraphPathNodeOrRoot V) → List (GraphPath V)
  nodes_of [] = []
  nodes_of (at_root root ∷ rest) = nodes_of rest
  nodes_of (at_node node ∷ rest) = node ∷ nodes_of rest

  abbrev pub first_with : (GraphPath V → Bool) → List (GraphPath V) → Option (GraphPath V)
  first_with p [] = none
  first_with p (x ∷ xs) = let later = first_with p xs in if p x then some x else later

  abbrev pub take_until : (GraphPath V → Bool) → List (GraphPath V) → List (GraphPath V)
  take_until p [] = []
  take_until p (x ∷ xs) = let later = take_until p xs in if p x then [] else x ∷ later

  path_up_to_lem :
      (node_ids : ℕ → ℕ) (id : ℕ) (from : GraphPathNodeOrRoot V)
      → path_up_to node_ids id from
        ≡ take_until (λ p. nat_beq (node_ids (node_id_ref p)) id) (nodes_of (ancestors_from from))
  unfolding path_up_to ancestors_from
  path_up_to_lem node_ids id (at_root root) = refl
  path_up_to_lem node_ids id (at_node (graph_path previous cell name nv)) =
      elim (Bool-cases (nat_beq (node_ids cell) id)) [
        | inl same ↦ rw same refl
        | inr other ↦ rw other (rw (path_up_to_lem node_ids id previous) refl)
      ]

  find_from_lem :
      ⦃keyed : Keyed V⦄ (nv : NpmPackageNv V) (from : GraphPathNodeOrRoot V)
      → find_from nv from ≡ first_with (λ p. path_nv p == nv) (nodes_of (ancestors_from from))
  unfolding find_from ancestors_from
  find_from_lem nv (at_root root) = refl
  find_from_lem nv (at_node (graph_path previous cell name own)) = elim (Bool-cases (own == nv)) [
    | inl same ↦ rw same refl
    | inr other ↦ rw other (find_from_lem nv previous)
  ]

  -- Among the ancestors that the iterator yields, from the nearest to the root, `find_ancestor` is
  -- the first node of the package, and `get_path_to_ancestor_exclusive` is what stands before the
  -- first node with the node id.
  pub walks_up :
      ⦃keyed : Keyed V⦄ (nv : NpmPackageNv V) (node_ids : ℕ → ℕ) (id : ℕ) (path : GraphPath V)
      → (find_ancestor nv path ≡ first_with (λ p. path_nv p == nv) (nodes_of (ancestors path)))
        × (get_path_to_ancestor_exclusive node_ids id path
            ≡ take_until (λ p. nat_beq (node_ids (node_id_ref p)) id) (nodes_of (ancestors path)))
  unfolding find_ancestor get_path_to_ancestor_exclusive ancestors
  walks_up nv node_ids id path =
      (find_from_lem nv (previous_node path), path_up_to_lem node_ids id (previous_node path))
