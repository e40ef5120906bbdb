-- ===== src/Npm/Graph/Sound/Created.antt =====
-- New nodes and new children in a sound graph (crates/module_fetcher/src/npm/resolution/graph.rs).
use server_based_deno.Base.{
  ℕ, ◌≡◌, ◌≢◌, refl, sym, Bool, true, Option, none, some, List, [], ◌∷◌, Text, Map, get, insert,
  get-insert, get-remove, text_ltb, text_keyed, nat_keyed, Keyed, ◌==◌, nat_beq, Result, ok, err,
  All, All-map, All-insert_in_order, Option-cases, Bool-cases, inl, inr, ◌⊎◌, arith,
}
use server_based_deno.Npm.Id.Equality.{nv_keyed}
use server_based_deno.Npm.Graph.{
  Graph, ResolvedId, GraphError, missing_node, Hashed, new_node, with_child, create_node,
  next_node_id, set, without_old, get_node_id, get_or_create_for_id, added_child,
  set_child_of_parent_node, current_state_hash,
}
use server_based_deno.Npm.Graph.Sound.{
  Known, PeerKnown, IsSound, Grows, Known-insert, Grows-insert, All-PeerKnown-Grows, insert-IsSound,
}

pub nat_beq_self : (n : ℕ) → nat_beq n n ≡ true
nat_beq_self n = ground arith

pub List-cases :
    {A : Type 0} (xs : List A) → (xs ≡ []) ⊎ ((x : A) × (rest : List A) × (xs ≡ x ∷ rest))
List-cases [] = inl refl
List-cases (x ∷ xs) = inr (x, xs, refl)

pub get-without_old :
    {V : Type 0} (old : Option (ResolvedId V × ℕ)) (keys : Map ℕ ℕ) (h i : ℕ)
    → get h (without_old old keys) ≡ some i
    → get h keys ≡ some i
get-without_old none keys h i e = e
get-without_old (some (id, key)) keys h i e = elim (Bool-cases (key == h)) [
  | inl same ↦ cc (rw (get-remove key h keys, same) at e)
  | inr other ↦ rw (get-remove key h keys, other) at e
]

module _ {V R : Type 0} (hash : List (Hashed V) → ℕ) (node_ids : ℕ → ℕ) where
  created-IsSound :
      (g : Graph V R) (p : ℕ) (id : ResolvedId V) (versions : Map Text (List V))
      → IsSound g
      → All (PeerKnown g.nodes) id.peer_dependencies
      → Known (insert p new_node g.nodes) 0
      → IsSound (record g {
        package_name_versions = versions;
        nodes = insert p new_node g.nodes;
        resolved_node_ids = set hash node_ids p id g.resolved_node_ids;
      })
  unfolding set
  created-IsSound g p id versions sound ok_peers started =
      let ids = g.resolved_node_ids.node_to_resolved_id in
      let key = current_state_hash hash node_ids id in
      let old_keys = without_old (get p ids) g.resolved_node_ids.resolved_to_node_id in
      let grows = Grows-insert p new_node g.nodes in
      record {
        children = λ i m e. elim (Bool-cases (p == i)) [
          | inl same ↦
              let eq : new_node ≡ m = cc (rw (get-insert p i new_node g.nodes, same) at e) in
              rw (sym eq) tt
          | inr other ↦
              All-map m.children (λ c k. grows c.1 k)
                (sound.children i m (rw (get-insert p i new_node g.nodes, other) at e))
        ];
        has_id = λ i m e. elim (Bool-cases (p == i)) [
          | inl same ↦ ((id, key), rw get-insert (rw same refl))
          | inr other ↦
              let (r, found) =
                sound.has_id i m (rw (get-insert p i new_node g.nodes, other) at e) in
              (r, rw get-insert (rw other found))
        ];
        first = λ i k. started;
        roots = All-map g.root_packages (λ r k. grows r.1 k) sound.roots;
        keys = λ h i e. elim (Bool-cases (key == h)) [
          | inl same ↦
              let eq : p ≡ i = cc (rw (get-insert key h p old_keys, same) at e) in
              rw (sym eq) (Known-insert p new_node g.nodes)
          | inr other ↦ grows i (
              sound.keys h i
                (get-without_old (get p ids) _ h i (rw (get-insert key h p old_keys, other) at e)))
        ];
        peers = λ i r e. elim (Bool-cases (p == i)) [
          | inl same ↦
              let eq : (id, key) ≡ r = cc (rw (get-insert p i (id, key) ids, same) at e) in
              rw (sym eq) (
                All-PeerKnown-Grows g.nodes (insert p new_node g.nodes) id.peer_dependencies grows
                  ok_peers)
          | inr other ↦
              All-PeerKnown-Grows g.nodes (insert p new_node g.nodes) r.0.peer_dependencies grows
                (sound.peers i r (rw (get-insert p i (id, key) ids, other) at e))
        ];
      }

  first_node :
      ⦃version_keyed : Keyed V⦄ (g : Graph V R)
      → IsSound g
      → Known (insert (next_node_id g) new_node g.nodes) 0
  unfolding next_node_id
  first_node g sound = elim (List-cases g.nodes) [
    | inl empty ↦ rw empty (Known-insert 0 new_node [])
    | inr (node, rest, e) ↦
        let there : Known g.nodes node.0 =
          rw e (node.1, unfold get in rw (nat_beq_self node.0) refl) in
        Grows-insert (next_node_id g) new_node g.nodes 0 (sound.first node.0 there)
  ]

  -- What a step that answers with a node id leaves.
  pub record Gives (g : Graph V R) (answer : (Bool × ℕ) × Graph V R) : Type 0 where
    pub sound : IsSound answer.1
    pub grows : Grows g.nodes answer.1.nodes
    pub known : Known answer.1.nodes answer.0.1

  pub get_or_create_for_id-Gives :
      ⦃version_keyed : Keyed V⦄ (id : ResolvedId V) (g : Graph V R)
      → IsSound g
      → All (PeerKnown g.nodes) id.peer_dependencies
      → Gives g (get_or_create_for_id hash node_ids id g)
  unfolding get_or_create_for_id get_node_id create_node
  get_or_create_for_id-Gives id g sound ok_peers =
      elim (Option-cases
        (get (current_state_hash hash node_ids id) g.resolved_node_ids.resolved_to_node_id)) [
          | inr (i, known) ↦
              rw known (record { sound = sound; grows = λ j k. k; known = sound.keys _ i known })
          | inl unknown ↦ rw unknown (record {
            sound = created-IsSound g (next_node_id g) id _ sound ok_peers (first_node g sound);
            grows = Grows-insert (next_node_id g) new_node g.nodes;
            known = Known-insert (next_node_id g) new_node g.nodes;
          })
        ]

module _ {V R : Type 0} where
  -- What a step that may fail leaves, and that it does not fail by an `unwrap` of a missing node.
  abbrev pub Changes : Graph V R → Result GraphError (Graph V R) → Type 0
  Changes g (ok after) = IsSound after × Grows g.nodes after.nodes
  Changes g (err e) = e ≢ missing_node

  pub added_child-Changes :
      (g : Graph V R) (p child : ℕ) (name : Text)
      → IsSound g
      → Known g.nodes p
      → Known g.nodes child
      → Changes g (added_child p name child (get p g.nodes) g)
  added_child-Changes g p child name sound (n, there) known = rw there (
    insert-IsSound g p n (with_child name child n) sound there (
        All-insert_in_order (λ c. Known g.nodes c.1) text_ltb name child n.children known
          (sound.children p n there)),
    Grows-insert p (with_child name child n) g.nodes,
  )

  pub set_child_of_parent_node-Changes :
      (g : Graph V R) (p child : ℕ) (name : Text)
      → IsSound g
      → Known g.nodes p
      → Known g.nodes child
      → Changes g (set_child_of_parent_node p name child g)
  unfolding set_child_of_parent_node
  set_child_of_parent_node-Changes g p child name sound known_p known =
      elim (Bool-cases (nat_beq child p)) [
        | inl same ↦ rw same (λ e. cc e)
        | inr other ↦ rw other (added_child-Changes g p child name sound known_p known)
      ]
