-- ===== src/Npm/Graph/Sound/Peers.antt =====
-- New peer dependencies in a sound graph (crates/module_fetcher/src/npm/resolution/graph.rs).
use server_based_deno.Base.{
  ℕ, ◌≢◌, Bool, true, false, List, [], ◌∷◌, Text, Map, nat_beq, Keyed, ◌==◌, err, All, All-map,
  All-append, Bool-cases, inl, inr, any,
}
use server_based_deno.Npm.Id.Equality.{nv_keyed}
use server_based_deno.Npm.Graph.{
  Node, ResolvedId, ResolvedIdPeerDep, missing_node, Hashed, push_peer_dep, peer_dep_hash,
}
use server_based_deno.Npm.Graph.Resolver.{GraphDependencyResolver, set_child, node_or_panic}
use server_based_deno.Npm.Graph.Peers.{
  PeerDeps, first, last, push_peer_deps, copy_children, copy_if_created,
}
use server_based_deno.Npm.Graph.Sound.{Known, PeerKnown, Grows, All-PeerKnown-Grows}
use server_based_deno.Npm.Graph.Sound.Outcome.{
  IsLive, Outcome, Outcome-ok, Outcome-then, Outcome-each, Done,
}
use server_based_deno.Npm.Graph.Sound.Steps.{set_child-Outcome, node_or_panic-Outcome, lift-Outcome}

abbrev pub DepsKnown : {V : Type 0} → Map ℕ Node → PeerDeps V → Type 0
DepsKnown nodes deps = All (λ d. PeerKnown nodes d.0) deps

pub All-const : {A : Type 0} (P : Type 0) (xs : List A) → P → All (λ x. P) xs
All-const P [] p = tt
All-const P (x ∷ xs) p = (p, All-const P xs p)

pub DepsKnown-Grows :
    {V : Type 0} (before after : Map ℕ Node) (deps : PeerDeps V)
    → Grows before after
    → DepsKnown before deps
    → DepsKnown after deps
DepsKnown-Grows before after [] grows h = tt
DepsKnown-Grows before after (d ∷ ds) grows h = (
  (All-PeerKnown-Grows before after (d.0 ∷ []) grows (h.0, tt)).0,
  DepsKnown-Grows before after ds grows h.1,
)

pub first-ne-missing : {A : Type 0} (xs : List A) → first xs ≢ err missing_node
first-ne-missing [] e = cc e
first-ne-missing (x ∷ xs) e = cc e

pub last-ne-missing : {A : Type 0} (xs : List A) → last xs ≢ err missing_node
last-ne-missing [] e = cc e
last-ne-missing (x ∷ []) e = cc e
last-ne-missing (x ∷ y ∷ xs) e = last-ne-missing (y ∷ xs) e

pub first-Outcome :
    {V R A : Type 0} (xs : List A) (s : GraphDependencyResolver V R)
    → IsLive s
    → Outcome s Done (first xs, s)
first-Outcome xs s live = lift-Outcome (first xs) s live (first-ne-missing xs)

module _ {V : Type 0} ⦃version_keyed : Keyed V⦄ (hash : List (Hashed V) → ℕ) (node_ids : ℕ → ℕ)
    (nodes : Map ℕ Node) where
  push_peer_dep-Known :
      (d : ResolvedIdPeerDep V) (id : ResolvedId V)
      → PeerKnown nodes d
      → All (PeerKnown nodes) id.peer_dependencies
      → All (PeerKnown nodes) (push_peer_dep hash node_ids d id).1.peer_dependencies
  unfolding push_peer_dep
  push_peer_dep-Known d id known h =
      elim (Bool-cases (
        any (λ e. nat_beq (peer_dep_hash hash node_ids d) (peer_dep_hash hash node_ids e))
          id.peer_dependencies)) [
            | inl same ↦ rw same h
            | inr other ↦
                rw other (All-append (PeerKnown nodes) id.peer_dependencies (d ∷ []) h (known, tt))
          ]

  pub push_peer_deps-Known :
      (deps : PeerDeps V) (id : ResolvedId V)
      → DepsKnown nodes deps
      → All (PeerKnown nodes) id.peer_dependencies
      → All (PeerKnown nodes) (push_peer_deps hash node_ids deps id).1.peer_dependencies
  unfolding push_peer_deps
  push_peer_deps-Known [] id known h = h
  push_peer_deps-Known ((d, nv) ∷ deps) id known h = elim (Bool-cases (nv == id.nv)) [
    | inl same ↦ rw same (push_peer_deps-Known deps id known.1 h)
    | inr other ↦ rw other (
        push_peer_deps-Known deps (push_peer_dep hash node_ids d id).1 known.1
          (push_peer_dep-Known d id known.0 h))
  ]

module _ {V R : Type 0} where
  copy_children-Outcome :
      (children : Map Text ℕ) (id : ℕ) (s : GraphDependencyResolver V R)
      → IsLive s
      → Known s.graph.nodes 0
      → Known s.graph.nodes id
      → All (λ c. Known s.graph.nodes c.1) children
      → Outcome s Done (copy_children children id s)
  unfolding copy_children
  copy_children-Outcome children id s live started known h =
      Outcome-each (λ c. set_child id c.0 c.1) children s
        (λ nodes c. Known nodes id × Known nodes c.1)
        (λ c t live_t _ k. set_child-Outcome id c.1 c.0 t live_t k.0 k.1)
        (λ before after c grows k. (grows id k.0, grows c.1 k.1)) live started
        (All-map children (λ c k. (known, k)) h)

  pub copy_if_created-Outcome :
      (created : Bool) (old new : ℕ) (s : GraphDependencyResolver V R)
      → IsLive s
      → Known s.graph.nodes 0
      → Known s.graph.nodes old
      → Known s.graph.nodes new
      → Outcome s Done (copy_if_created created old new s)
  copy_if_created-Outcome false old new s live started known_old known_new =
      Outcome-ok Done s tt live tt
  copy_if_created-Outcome true old new s live started known_old known_new =
      Outcome-then (node_or_panic old s) (node_or_panic-Outcome old s live known_old)
        λ node t live_t grows h.
          copy_children-Outcome node.children new t live_t (grows 0 started) (grows new known_new) h
