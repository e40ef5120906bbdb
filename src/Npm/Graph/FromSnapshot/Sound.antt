-- ===== src/Npm/Graph/FromSnapshot/Sound.antt =====
-- The graph of a snapshot is sound (crates/module_fetcher/src/npm/resolution/graph.rs): the steps.
use server_based_deno.Base.{
  or_right, or_cases, text_keyed, ℕ, ◌≡◌, refl, sym, true, some, List, [], ◌∷◌, Text, Map, get,
  insert, get-insert, Keyed, nat_keyed, ◌==◌, nat_beq, nat_beq_iff, any, ok, All, All-map,
  All-insert_in_order, Bool-cases, inl, inr, ◌⊎◌, arith, text_ltb,
}
use server_based_deno.Npm.Id.{NpmPackageId}
use server_based_deno.Npm.Id.Equality.{NpmPackageNv, nv_keyed, id_keyed}
use server_based_deno.Npm.Graph.{
  Graph, Node, ResolvedId, ResolvedIdPeerDep, Hashed, new_node, with_child, next_node_id,
  create_node, set, current_state_hash, set_child_of_parent_node, without_old,
}
use server_based_deno.Npm.Snapshot.{NpmResolutionPackage}
use server_based_deno.Npm.Graph.FromSnapshot.{Building, no_paths, with_resolved_id}
use server_based_deno.Npm.Graph.Sound.{
  Known, PeerKnown, IsSound, Grows, Known-insert, Grows-insert, All-PeerKnown-Grows,
}
use server_based_deno.Npm.Graph.Sound.Created.{get-without_old, List-cases, nat_beq_self}

module _ {V R : Type 0} ⦃version_keyed : Keyed V⦄ where
  -- A sound graph, but for the nodes `unset` that have no resolved id yet.
  pub record Inv (unset : List ℕ) (b : Building V R) : Type 0 where
    pub children :
        (i : ℕ) (n : Node)
        → get i b.graph.nodes ≡ some n
        → All (λ c. Known b.graph.nodes c.1) n.children
    pub has_id :
        (i : ℕ) (n : Node)
        → get i b.graph.nodes ≡ some n
        → ((r : ResolvedId V × ℕ) × (get i b.graph.resolved_node_ids.node_to_resolved_id ≡ some r))
          ⊎ (any (nat_beq i) unset ≡ true)
    pub first : (i : ℕ) → Known b.graph.nodes i → Known b.graph.nodes 0
    pub roots : All (λ r. Known b.graph.nodes r.1) b.graph.root_packages
    pub keys :
        (h i : ℕ)
        → get h b.graph.resolved_node_ids.resolved_to_node_id ≡ some i
        → Known b.graph.nodes i
    pub peers :
        (i : ℕ) (r : ResolvedId V × ℕ)
        → get i b.graph.resolved_node_ids.node_to_resolved_id ≡ some r
        → All (PeerKnown b.graph.nodes) r.0.peer_dependencies
    pub created :
        (id : NpmPackageId V) (i : ℕ)
        → get id b.created_package_ids ≡ some i
        → Known b.graph.nodes i

  pub Inv-IsSound : (b : Building V R) → Inv [] b → IsSound b.graph
  Inv-IsSound b inv = record {
    children = inv.children;
    has_id = λ i n e. elim (inv.has_id i n e) [ inl h ↦ h | inr never ↦ cc never ];
    first = inv.first;
    roots = inv.roots;
    keys = inv.keys;
    peers = inv.peers;
  }

  first_node :
      (unset : List ℕ) (b : Building V R)
      → Inv unset b
      → Known (insert (next_node_id b.graph) new_node b.graph.nodes) 0
  unfolding next_node_id
  first_node unset b inv = elim (List-cases b.graph.nodes) [
    | inl empty ↦ rw empty (Known-insert 0 new_node [])
    | inr (node, rest, e) ↦
        let there : Known b.graph.nodes node.0 =
          rw e (node.1, unfold get in rw (nat_beq_self node.0) refl) in
        Grows-insert (next_node_id b.graph) new_node b.graph.nodes 0 (inv.first node.0 there)
  ]

  -- `create_node`, and the entry in `created_package_ids`.
  pub create_node-Inv :
      (unset : List ℕ) (b : Building V R) (id : NpmPackageId V) (nv : NpmPackageNv V)
      → Inv unset b
      → Inv ((create_node nv b.graph).0 ∷ unset) (record {
        graph = (create_node nv b.graph).1;
        created_package_ids = insert id (create_node nv b.graph).0 b.created_package_ids;
      })
  unfolding create_node
  create_node-Inv unset b id nv inv =
      let p = next_node_id b.graph in
      let nodes = b.graph.nodes in
      let grows = Grows-insert p new_node nodes in
      record {
        children = λ i m e. elim (Bool-cases (p == i)) [
          | inl same ↦
              let eq : new_node ≡ m = cc (rw (get-insert p i new_node nodes, same) at e) in
              rw (sym eq) tt
          | inr other ↦
              All-map m.children (λ c k. grows c.1 k)
                (inv.children i m (rw (get-insert p i new_node nodes, other) at e))
        ];
        has_id = λ i m e. elim (Bool-cases (p == i)) [
          | inl same ↦ inr (rw ((nat_beq_iff p i).0 same) (rw (nat_beq_self i) refl))
          | inr other ↦ elim (inv.has_id i m (rw (get-insert p i new_node nodes, other) at e)) [
            | inl h ↦ inl h
            | inr o ↦ inr (or_right (nat_beq i p) (any (nat_beq i) unset) o)
          ]
        ];
        first = λ i k. first_node unset b inv;
        roots = All-map b.graph.root_packages (λ r k. grows r.1 k) inv.roots;
        keys = λ h i e. grows i (inv.keys h i e);
        peers = λ i r e.
            All-PeerKnown-Grows nodes (insert p new_node nodes) r.0.peer_dependencies grows
              (inv.peers i r e);
        created = λ x i e. elim (Bool-cases (id == x)) [
          | inl same ↦
              let eq : p ≡ i = cc (rw (get-insert id x p b.created_package_ids, same) at e) in
              rw (sym eq) (Known-insert p new_node nodes)
          | inr other ↦
              grows i (inv.created x i (rw (get-insert id x p b.created_package_ids, other) at e))
        ];
      }

  -- The node gets its resolved id.
  pub set-Inv :
      (hash : List (Hashed V) → ℕ) (packages : Map (NpmPackageId V) (NpmResolutionPackage V))
      (unset : List ℕ) (b : Building V R) (p : ℕ) (nv : NpmPackageNv V)
      (deps : List (ResolvedIdPeerDep V))
      → Inv (p ∷ unset) b
      → Known b.graph.nodes p
      → All (PeerKnown b.graph.nodes) deps
      → Inv unset (with_resolved_id hash packages p nv (deps, b))
  unfolding set
  set-Inv hash packages unset b p nv deps inv known ok_deps =
      let id : ResolvedId V = record { nv = nv; peer_dependencies = deps } in
      let ids = b.graph.resolved_node_ids.node_to_resolved_id in
      let key = current_state_hash hash no_paths id in
      let old_keys = without_old (get p ids) b.graph.resolved_node_ids.resolved_to_node_id in
      record {
        children = inv.children;
        has_id = λ i m e. elim (Bool-cases (p == i)) [
          | inl same ↦ inl ((id, key), rw get-insert (rw same refl))
          | inr other ↦ elim (inv.has_id i m e) [
            | inl (r, h) ↦ inl (r, rw get-insert (rw other h))
            | inr o ↦ elim (or_cases (nat_beq i p) (any (nat_beq i) unset) o) [
              | inl eq ↦ cc (nat_beq_self p, rw ((nat_beq_iff i p).0 eq) at other)
              | inr later ↦ inr later
            ]
          ]
        ];
        first = inv.first;
        roots = inv.roots;
        keys = λ h i e. elim (Bool-cases (key == h)) [
          | inl same ↦
              let eq : p ≡ i = cc (rw (get-insert key h p old_keys, same) at e) in rw (sym eq) known
          | inr other ↦
              inv.keys h i
                (get-without_old (get p ids) _ h i (rw (get-insert key h p old_keys, other) at e))
        ];
        peers = λ i r e. elim (Bool-cases (p == i)) [
          | inl same ↦
              let eq : (id, key) ≡ r = cc (rw (get-insert p i (id, key) ids, same) at e) in
              rw (sym eq) ok_deps
          | inr other ↦ inv.peers i r (rw (get-insert p i (id, key) ids, other) at e)
        ];
        created = inv.created;
      }

  -- A child is set, or the node would be its own child.
  pub set_child-Inv :
      (unset : List ℕ) (b : Building V R) (p child : ℕ) (name : Text) (g : Graph V R)
      → Inv unset b
      → Known b.graph.nodes p
      → Known b.graph.nodes child
      → set_child_of_parent_node p name child b.graph ≡ ok g
      → Inv unset (record b { graph = g }) × Grows b.graph.nodes g.nodes
  unfolding set_child_of_parent_node
  set_child-Inv unset b p child name g inv (n, there) known e =
      let put = with_child name child n in
      let after = record b.graph { nodes = insert p put b.graph.nodes } in
      let grows = Grows-insert p put b.graph.nodes in
      let eq : after ≡ g = ground (arith) in
      rw (sym eq) (
        record {
          children = λ i m q. elim (Bool-cases (p == i)) [
            | inl same ↦
                let same_node : put ≡ m = cc (rw (get-insert p i put b.graph.nodes, same) at q) in
                rw (sym same_node) (
                  All-map put.children (λ c k. grows c.1 k)
                    (All-insert_in_order (λ c. Known b.graph.nodes c.1) text_ltb name child
                      n.children known (inv.children p n there)))
            | inr other ↦
                All-map m.children (λ c k. grows c.1 k)
                  (inv.children i m (rw (get-insert p i put b.graph.nodes, other) at q))
          ];
          has_id = λ i m q. elim (Bool-cases (p == i)) [
            | inl same ↦ inv.has_id i n (rw (sym ((nat_beq_iff p i).0 same)) there)
            | inr other ↦ inv.has_id i m (rw (get-insert p i put b.graph.nodes, other) at q)
          ];
          first = λ i k. grows 0 (inv.first p (n, there));
          roots = All-map b.graph.root_packages (λ r k. grows r.1 k) inv.roots;
          keys = λ h i q. grows i (inv.keys h i q);
          peers = λ i r q.
              All-PeerKnown-Grows b.graph.nodes (insert p put b.graph.nodes) r.0.peer_dependencies
                grows (inv.peers i r q);
          created = λ x i q. grows i (inv.created x i q);
        },
        grows,
      )
