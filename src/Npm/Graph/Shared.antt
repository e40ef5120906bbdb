-- ===== src/Npm/Graph/Shared.antt =====
-- Nodes are shared by their resolved ids (crates/module_fetcher/src/npm/resolution/graph.rs).
use server_based_deno.Base.{
  ℕ, ◌≡◌, refl, false, List, Keyed, nat_keyed, get, get-insert_self, Option-cases, inl, inr,
}
use server_based_deno.Npm.Graph.{
  Graph, ResolvedId, Hashed, current_state_hash, set, get_node_id, create_node,
  get_or_create_for_id,
}

module _ {V R : Type 0} ⦃version_keyed : Keyed V⦄ (hash : List (Hashed V) → ℕ)
    (node_ids : ℕ → ℕ) where
  -- Asked again for the same resolved id, the graph gives the node that it gave and creates none.
  pub get_or_create_for_id_shares :
      (id : ResolvedId V) (g : Graph V R)
      → let first = get_or_create_for_id hash node_ids id g in
        get_or_create_for_id hash node_ids id first.1 ≡ ((false, first.0.1), first.1)
  unfolding get_or_create_for_id get_node_id create_node set
  get_or_create_for_id_shares id g =
      elim (Option-cases
        (get (current_state_hash hash node_ids id) g.resolved_node_ids.resolved_to_node_id)) [
          | inr (n, known) ↦ rw known (rw known refl)
          | inl unknown ↦ rw unknown (rw get-insert_self refl)
        ]
