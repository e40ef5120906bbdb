-- ===== src/Npm/Graph/Sound.antt =====
-- Graphs in which every node id leads to a node with a resolved id
-- (crates/module_fetcher/src/npm/resolution/graph.rs), and what the steps on a graph do to them.
pub mod Created
pub mod Outcome
pub mod Steps
pub mod Infos
pub mod Peers
pub mod Moves
pub mod Find
pub mod Ancestors
pub mod Pending
pub mod Rounds
use server_based_deno.Base.{
  ℕ, ◌≡◌, ◌≢◌, refl, sym, Bool, true, false, Option, none, some, List, [], ◌∷◌, Text, Map, get,
  insert, insert_in_order, remove, get-insert, get-insert_self, get-remove, text_ltb, text_keyed,
  nat_keyed, Keyed, ◌==◌, nat_beq, Result, ok, err, All, All-map, All-insert_in_order, Option-cases,
  Bool-cases, inl, inr, if◌then◌else◌, arith, nat_beq_iff,
}
use server_based_deno.Npm.Id.Equality.{NpmPackageNv, nv_keyed}
use server_based_deno.Npm.Graph.{
  Graph, Node, ResolvedId, ResolvedNodeIds, ResolvedIdPeerDep, parent_reference, snapshot_node_id,
  GraphError, missing_node, Hashed, new_node, with_child, create_node, next_node_id, set,
  without_old, get_node_id, get_or_create_for_id, added_child, set_child_of_parent_node,
  current_state_hash,
}

abbrev pub Known : Map ℕ Node → ℕ → Type 0
Known nodes i = (n : Node) × (get i nodes ≡ some n)

abbrev pub PeerKnown : {V : Type 0} → Map ℕ Node → ResolvedIdPeerDep V → Type 0
PeerKnown nodes (parent_reference parent nv) = Unit
PeerKnown nodes (snapshot_node_id i) = Known nodes i

pub record IsSound {V R : Type 0} (g : Graph V R) : Type 0 where
  pub children :
      (i : ℕ) (n : Node) → get i g.nodes ≡ some n → All (λ c. Known g.nodes c.1) n.children
  pub has_id :
      (i : ℕ) (n : Node)
      → get i g.nodes ≡ some n
      → (r : ResolvedId V × ℕ) × (get i g.resolved_node_ids.node_to_resolved_id ≡ some r)
  pub first : (i : ℕ) → Known g.nodes i → Known g.nodes 0
  pub roots : All (λ r. Known g.nodes r.1) g.root_packages
  pub keys : (h i : ℕ) → get h g.resolved_node_ids.resolved_to_node_id ≡ some i → Known g.nodes i
  pub peers :
      (i : ℕ) (r : ResolvedId V × ℕ)
      → get i g.resolved_node_ids.node_to_resolved_id ≡ some r
      → All (PeerKnown g.nodes) r.0.peer_dependencies

abbrev pub Grows : Map ℕ Node → Map ℕ Node → Type 0
Grows before after = (i : ℕ) → Known before i → Known after i

pub Known-insert : (p : ℕ) (n : Node) (nodes : Map ℕ Node) → Known (insert p n nodes) p
Known-insert p n nodes = (n, get-insert_self p n nodes)

pub Grows-insert : (p : ℕ) (n : Node) (nodes : Map ℕ Node) → Grows nodes (insert p n nodes)
Grows-insert p n nodes i (m, e) = elim (Bool-cases (p == i)) [
  | inl same ↦ (n, rw get-insert (rw same refl))
  | inr other ↦ (m, rw get-insert (rw other e))
]

PeerKnown-Grows :
    {V : Type 0} (before after : Map ℕ Node) (d : ResolvedIdPeerDep V)
    → Grows before after
    → PeerKnown before d
    → PeerKnown after d
PeerKnown-Grows before after (parent_reference parent nv) grows h = tt
PeerKnown-Grows before after (snapshot_node_id i) grows h = grows i h

pub All-PeerKnown-Grows :
    {V : Type 0} (before after : Map ℕ Node) (ds : List (ResolvedIdPeerDep V))
    → Grows before after
    → All (PeerKnown before) ds
    → All (PeerKnown after) ds
All-PeerKnown-Grows before after ds grows h =
    All-map ds (λ d k. PeerKnown-Grows before after d grows k) h

module _ {V R : Type 0} where
  -- A node that is there changes, and its new children are there as well.
  pub insert-IsSound :
      (g : Graph V R) (p : ℕ) (old n : Node)
      → IsSound g
      → get p g.nodes ≡ some old
      → All (λ c. Known g.nodes c.1) n.children
      → IsSound (record g { nodes = insert p n g.nodes })
  insert-IsSound g p old n sound there ok_children =
      let grows = Grows-insert p n g.nodes in
      record {
        children = λ i m e. elim (Bool-cases (p == i)) [
          | inl same ↦
              let eq : n ≡ m = cc (rw (get-insert p i n g.nodes, same) at e) in
              rw (sym eq) (All-map n.children (λ c k. grows c.1 k) ok_children)
          | inr other ↦
              All-map m.children (λ c k. grows c.1 k)
                (sound.children i m (rw (get-insert p i n g.nodes, other) at e))
        ];
        has_id = λ i m e. elim (Bool-cases (p == i)) [
          | inl same ↦ sound.has_id i old (rw (sym ((nat_beq_iff p i).0 same)) there)
          | inr other ↦ sound.has_id i m (rw (get-insert p i n g.nodes, other) at e)
        ];
        first = λ i k. grows 0 (sound.first p (old, there));
        roots = All-map g.root_packages (λ r k. grows r.1 k) sound.roots;
        keys = λ h i e. grows i (sound.keys h i e);
        peers = λ i r e.
            All-PeerKnown-Grows g.nodes (insert p n g.nodes) r.0.peer_dependencies grows
              (sound.peers i r e);
      }
