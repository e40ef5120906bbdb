-- ===== src/Npm/Graph/FromSnapshot/Fixed.antt =====
-- What the recursion over a snapshot leaves as it is
-- (crates/module_fetcher/src/npm/resolution/graph.rs).
use server_based_deno.Base.{
  ℕ, zero, suc, ◌≡◌, refl, Option, none, some, List, [], ◌∷◌, Text, Map, get, Keyed, nat_keyed,
  nat_beq, Bool-cases, Option-cases, inl, inr,
}
use server_based_deno.Npm.Id.{NpmPackageId, npm_package_id, Peers, no_peers, peer}
use server_based_deno.Npm.Id.Equality.{nv_keyed, id_keyed}
use server_based_deno.Npm.Snapshot.{NpmResolutionPackage}
use server_based_deno.Npm.Graph.{
  Graph, Node, GraphError, Hashed, create_node, set_child_of_parent_node, added_child,
}
use server_based_deno.Npm.Graph.FromSnapshot.{
  Building, NodeFor, resolution_of, peer_dep_ids, set_children, new_graph_node,
  get_or_create_graph_node,
}
use server_based_deno.Npm.Graph.FromSnapshot.Builds.{Within, Within-then}

abbrev pub AnyError : GraphError → Type 0
AnyError e = Unit

module _ {V R : Type 0} ⦃version_keyed : Keyed V⦄ where
  -- What the recursion leaves as it is.
  pub record Fixed (g h : Graph V R) : Type 0 where
    pub reqs : h.package_reqs ≡ g.package_reqs
    pub roots : h.root_packages ≡ g.root_packages
    pub copies : h.packages_to_copy_index ≡ g.packages_to_copy_index
    pub pending : h.pending_unresolved_packages ≡ g.pending_unresolved_packages

  pub Fixed-refl : (g : Graph V R) → Fixed g g
  Fixed-refl g = record { reqs = refl; roots = refl; copies = refl; pending = refl }

  abbrev pub NodeFixed : NodeFor V R → Type 0
  NodeFixed node_for =
      (g : Graph V R) (id : NpmPackageId V) (b : Building V R)
      → Fixed g b.graph
      → Within AnyError (λ x. Fixed g x.1.graph) (node_for id b)

  module _ (g : Graph V R) where
    peer_dep_ids-Fixed :
        (node_for : NodeFor V R)
        → NodeFixed node_for
        → (ps : Peers V) (b : Building V R) → Fixed g b.graph
        → Within AnyError (λ x. Fixed g x.1.graph) (peer_dep_ids node_for ps b)
    unfolding peer_dep_ids
    peer_dep_ids-Fixed node_for claim no_peers b fixed = fixed
    peer_dep_ids-Fixed node_for claim (peer p ps) b fixed =
        Within-then AnyError (λ x. Fixed g x.1.graph) (λ x. Fixed g x.1.graph) (node_for p b) _
          (claim g p b fixed)
          λ one fixed1.
            Within-then AnyError (λ x. Fixed g x.1.graph) (λ x. Fixed g x.1.graph)
              (peer_dep_ids node_for ps one.1) _ (peer_dep_ids-Fixed node_for claim ps one.1 fixed1)
              λ others fixed2. fixed2

    added-Fixed :
        (parent : ℕ) (name : Text) (child : ℕ) (o : Option Node) (h : Graph V R)
        → Fixed g h
        → Within AnyError (Fixed g) (added_child parent name child o h)
    added-Fixed parent name child none h fixed = tt
    added-Fixed parent name child (some node) h fixed = record {
      reqs = fixed.reqs;
      roots = fixed.roots;
      copies = fixed.copies;
      pending = fixed.pending;
    }

    set_child-Fixed :
        (parent : ℕ) (name : Text) (child : ℕ) (h : Graph V R)
        → Fixed g h
        → Within AnyError (Fixed g) (set_child_of_parent_node parent name child h)
    unfolding set_child_of_parent_node
    set_child-Fixed parent name child h fixed = elim (Bool-cases (nat_beq child parent)) [
      | inl same ↦ rw same tt
      | inr other ↦ rw other (added-Fixed parent name child _ h fixed)
    ]

    set_children-Fixed :
        (node_for : NodeFor V R)
        → NodeFixed node_for
        → (node_id : ℕ) (deps : Map Text (NpmPackageId V)) (b : Building V R) → Fixed g b.graph
        → Within AnyError (λ c. Fixed g c.graph) (set_children node_for node_id deps b)
    unfolding set_children
    set_children-Fixed node_for claim node_id [] b fixed = fixed
    set_children-Fixed node_for claim node_id ((name, child) ∷ rest) b fixed =
        Within-then AnyError (λ x. Fixed g x.1.graph) (λ c. Fixed g c.graph) (node_for child b) _
          (claim g child b fixed)
          λ found fixed1.
            Within-then AnyError (Fixed g) (λ c. Fixed g c.graph) _ _
              (set_child-Fixed node_id name found.0 found.1.graph fixed1)
              λ h fixed2. set_children-Fixed node_for claim node_id rest _ fixed2

    module _ (hash : List (Hashed V) → ℕ)
        (packages : Map (NpmPackageId V) (NpmResolutionPackage V)) where
      new_graph_node-Fixed :
          (node_for : NodeFor V R)
          → NodeFixed node_for
          → (id : NpmPackageId V) (b : Building V R) → Fixed g b.graph
          → Within AnyError (λ x. Fixed g x.1.graph) (new_graph_node hash packages node_for id b)
      unfolding new_graph_node create_node
      new_graph_node-Fixed node_for claim (npm_package_id name version ps) b fixed =
          Within-then AnyError (λ x. Fixed g x.1.graph) (λ x. Fixed g x.1.graph) _ _
            (peer_dep_ids-Fixed node_for claim ps _ (record {
              reqs = fixed.reqs;
              roots = fixed.roots;
              copies = fixed.copies;
              pending = fixed.pending;
            }))
            λ with_peers fixed1.
              Within-then AnyError (λ p. Unit) (λ x. Fixed g x.1.graph)
                (resolution_of (get (npm_package_id name version ps) packages)) _ (any_resolution _)
                λ resolution u.
                  Within-then AnyError (λ c. Fixed g c.graph) (λ x. Fixed g x.1.graph) _ _
                    (set_children-Fixed node_for claim _ resolution.dependencies _ (record {
                      reqs = fixed1.reqs;
                      roots = fixed1.roots;
                      copies = fixed1.copies;
                      pending = fixed1.pending;
                    }))
                    λ done fixed2. fixed2
        where
          any_resolution :
              (o : Option (NpmResolutionPackage V))
              → Within AnyError (λ p. Unit {0}) (resolution_of o)
          any_resolution none = tt
          any_resolution (some p) = tt

  pub get_or_create-Fixed :
      (hash : List (Hashed V) → ℕ) (packages : Map (NpmPackageId V) (NpmResolutionPackage V))
      (fuel : ℕ)
      → NodeFixed (get_or_create_graph_node hash packages fuel)
  unfolding get_or_create_graph_node
  get_or_create-Fixed hash packages zero g id b fixed = tt
  get_or_create-Fixed hash packages (suc fuel) g id b fixed =
      elim (Option-cases (get id b.created_package_ids)) [
        | inr (n, e) ↦ rw (e, get_or_create_graph_node) fixed
        | inl e ↦
            rw (e, get_or_create_graph_node)
              (new_graph_node-Fixed g hash packages (get_or_create_graph_node hash packages fuel)
                (get_or_create-Fixed hash packages fuel) id b fixed)
      ]
