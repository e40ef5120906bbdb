-- ===== src/Npm/Graph/Sound/Outcome.antt =====
-- What an operation of the resolver leaves (crates/module_fetcher/src/npm/resolution/graph.rs): a
-- sound graph that has every node it had, and a value, or an error that is no missing node.
use server_based_deno.Base.{
  ℕ, ◌≡◌, ◌≢◌, List, [], ◌∷◌, Map, nat_keyed, Result, ok, err, All, All-map, inl, inr, ◌⊎◌,
}
use server_based_deno.Base.Effects.{then_io, each}
use server_based_deno.Npm.Id.Equality.{nv_keyed}
use server_based_deno.Npm.Graph.{Graph, Node, GraphPath, GraphError, missing_node, node_id_ref}
use server_based_deno.Npm.Graph.Resolver.{Resolve, GraphDependencyResolver, node_id}
use server_based_deno.Npm.Graph.Sound.{Known, IsSound, Grows}

module _ {V R : Type 0} where
  -- A cell that no path has been given holds 0.
  pub record IsLive (s : GraphDependencyResolver V R) : Type 0 where
    pub sound : IsSound s.graph
    pub cells : (c : ℕ) → Known s.graph.nodes (s.node_ids c) ⊎ (s.node_ids c ≡ 0)
    pub started : (s.pending_unresolved_nodes ≡ []) ⊎ Known s.graph.nodes 0

  abbrev pub Value :
      {A : Type 0}
      → (A → GraphDependencyResolver V R → Type 0)
      → Result GraphError A
      → GraphDependencyResolver V R
      → Type 0
  Value Q (ok a) t = Q a t
  Value Q (err e) t = e ≢ missing_node

  pub record Outcome {A : Type 0} (s : GraphDependencyResolver V R)
      (Q : A → GraphDependencyResolver V R → Type 0)
      (x : Result GraphError A × GraphDependencyResolver V R) : Type 0 where
    pub live : IsLive x.1
    pub grows : Grows s.graph.nodes x.1.graph.nodes
    pub value : Value Q x.0 x.1

  pub Outcome-ok :
      {A : Type 0} (Q : A → GraphDependencyResolver V R → Type 0) (s : GraphDependencyResolver V R)
      (a : A)
      → IsLive s
      → Q a s
      → Outcome s Q (ok a, s)
  Outcome-ok Q s a live q = record { live = live; grows = λ i k. k; value = q }

  pub Outcome-err :
      {A : Type 0} (Q : A → GraphDependencyResolver V R → Type 0) (s : GraphDependencyResolver V R)
      (e : GraphError)
      → IsLive s
      → e ≢ missing_node
      → Outcome s Q (err e, s)
  Outcome-err Q s e live h = record { live = live; grows = λ i k. k; value = h }

  -- The rule for a step and what follows it.
  pub Outcome-then :
      {A B : Type 0} {Q : A → GraphDependencyResolver V R → Type 0}
      {P : B → GraphDependencyResolver V R → Type 0} {s : GraphDependencyResolver V R}
      (x : Result GraphError A × GraphDependencyResolver V R) {k : A → Resolve V R B}
      → Outcome s Q x
      → ((a : A) (t : GraphDependencyResolver V R)
          → IsLive t
          → Grows s.graph.nodes t.graph.nodes
          → Q a t
          → Outcome t P (k a t))
      → Outcome s P (then_io x.0 k x.1)
  Outcome-then (ok a, t) first next =
      let rest = next a t first.live first.grows first.value in
      record { live = rest.live; grows = λ i k. rest.grows i (first.grows i k); value = rest.value }
  Outcome-then (err e, t) first next = record {
    live = first.live;
    grows = first.grows;
    value = first.value;
  }

  -- Any value will do.
  abbrev pub Done : {A : Type 0} → A → GraphDependencyResolver V R → Type 0
  Done a t = Unit

  pub Outcome-each :
      {A : Type 0} (f : A → Resolve V R (Unit {0})) (xs : List A) (s : GraphDependencyResolver V R)
      (P : Map ℕ Node → A → Type 0)
      → ((x : A) (t : GraphDependencyResolver V R)
          → IsLive t
          → Known t.graph.nodes 0
          → P t.graph.nodes x
          → Outcome t Done (f x t))
      → ((before after : Map ℕ Node) (x : A) → Grows before after → P before x → P after x)
      → IsLive s
      → Known s.graph.nodes 0
      → All (P s.graph.nodes) xs
      → Outcome s Done (each f xs s)
  Outcome-each f [] s P step mono live started h = Outcome-ok Done s tt live tt
  Outcome-each f (x ∷ xs) s P step mono live started h =
      Outcome-then (f x s) (step x s live started h.0) λ a t live_t grows _.
        Outcome-each f xs t P step mono live_t (grows 0 started)
          (All-map xs (λ y k. mono s.graph.nodes t.graph.nodes y grows k) h.1)

  -- The same for a step that asks for nothing.
  pub Outcome-all :
      {A : Type 0} (f : A → Resolve V R (Unit {0})) (xs : List A) (s : GraphDependencyResolver V R)
      → ((x : A) (t : GraphDependencyResolver V R) → IsLive t → Outcome t Done (f x t))
      → IsLive s
      → Outcome s Done (each f xs s)
  Outcome-all f [] s step live = Outcome-ok Done s tt live tt
  Outcome-all f (x ∷ xs) s step live =
      Outcome-then (f x s) (step x s live) λ a t live_t grows _. Outcome-all f xs t step live_t

  pub node_id-Known :
      (s : GraphDependencyResolver V R) (path : GraphPath V)
      → IsLive s
      → Known s.graph.nodes 0
      → Known s.graph.nodes (node_id s path)
  node_id-Known s path live started = elim (live.cells (node_id_ref path)) [
    | inl known ↦ known
    | inr zero ↦ rw zero started
  ]

  -- A new graph that has every node.
  pub with_graph-IsLive :
      (s : GraphDependencyResolver V R) (g : Graph V R)
      → IsLive s
      → IsSound g
      → Grows s.graph.nodes g.nodes
      → IsLive (record s { graph = g })
  with_graph-IsLive s g live sound grows = record {
    sound = sound;
    cells = λ c. elim (live.cells c) [ inl k ↦ inl (grows (s.node_ids c) k) | inr z ↦ inr z ];
    started = elim live.started [ inl e ↦ inl e | inr k ↦ inr (grows 0 k) ];
  }
