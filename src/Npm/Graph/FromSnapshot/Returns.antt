-- ===== src/Npm/Graph/FromSnapshot/Returns.antt =====
-- The recursion of the graph of a snapshot ends and leaves a sound graph
-- (crates/module_fetcher/src/npm/resolution/graph.rs).
use server_based_deno.Base.{
  ℕ, zero, suc, ◌<◌, ◌≡◌, refl, false, none, some, List, ◌∷◌, Text, Map, get, insert, Keyed,
  nat_keyed, All, Option-cases, inl, inr, ◌⊎◌, arith,
}
use server_based_deno.Npm.Id.{NpmPackageId, npm_package_id, Peers}
use server_based_deno.Npm.Id.Equality.{NpmPackageNv, nv_keyed, id_keyed}
use server_based_deno.Npm.Snapshot.{NpmResolutionPackage}
use server_based_deno.Npm.Snapshot.Lockfile.{contains_key}
use server_based_deno.Npm.Graph.{
  GraphError, same_node, out_of_fuel, not_found_package, Hashed, create_node, next_node_id,
  new_node,
}
use server_based_deno.Npm.Graph.FromSnapshot.{
  Building, NodeFor, resolution_of, peer_dep_ids, set_children, with_resolved_id, new_graph_node,
  get_or_create_graph_node,
}
use server_based_deno.Npm.Graph.FromSnapshot.Sound.{Inv, create_node-Inv, set-Inv}
use server_based_deno.Npm.Graph.Sound.{Known, Grows, Known-insert, Grows-insert}
use server_based_deno.Npm.Graph.FromSnapshot.Builds.{
  Within, Within-then, PeersFit, Enough, Enough-fewer, Built, NodeClaim, peer_dep_ids-Within,
  set_children-Within, uncreated, uncreated-insert-lt, uncreated-insert-le,
}

-- What is known of the ids and the errors.
pub record Terms {V : Type 0} ⦃version_keyed : Keyed V⦄
    (packages : Map (NpmPackageId V) (NpmResolutionPackage V)) (E : GraphError → Type 0)
    (Fits : NpmPackageId V → Type 0) : Type 0 where
  pub same_node-E : E same_node
  pub held :
      (id : NpmPackageId V)
      → Fits id
      → ((p : NpmResolutionPackage V) × (get id packages ≡ some p))
        ⊎ (E not_found_package × E out_of_fuel)
  pub peers_fit :
      (name : Text) (v : V) (ps : Peers V) → Fits (npm_package_id name v ps) → PeersFit Fits ps
  pub dependencies_fit :
      (id : NpmPackageId V) (p : NpmResolutionPackage V)
      → Fits id
      → get id packages ≡ some p
      → All (λ c. Fits c.1) p.dependencies

module _ {V : Type 0} ⦃version_keyed : Keyed V⦄
    (packages : Map (NpmPackageId V) (NpmResolutionPackage V)) (E : GraphError → Type 0)
    (Fits : NpmPackageId V → Type 0) (terms : Terms packages E Fits) where
  open terms use {held}

  resolution-Within :
      (id : NpmPackageId V)
      → Fits id
      → Within E (λ p. get id packages ≡ some p) (resolution_of (get id packages))
  resolution-Within id fit = elim (Option-cases (get id packages)) [
    | inr (p, e) ↦ rw e refl
    | inl e ↦ elim (held id fit) [
      | inl (p, there) ↦ cc (there, e)
      | inr (missing, _) ↦ rw e missing
    ]
  ]

  -- An id that gets a node leaves fewer packages without one.
  enough_created :
      (fuel n : ℕ) (id : NpmPackageId V) (created : Map (NpmPackageId V) ℕ)
      → Fits id
      → get id created ≡ none
      → E out_of_fuel ⊎ (uncreated packages created < suc fuel)
      → E out_of_fuel ⊎ (uncreated packages (insert id n created) < fuel)
  enough_created fuel n id created fit e (inl out) = inl out
  enough_created fuel n id created fit e (inr lt) = elim (held id fit) [
    | inr (_, out) ↦ inl out
    | inl (p, there) ↦
        let new : contains_key id created ≡ false = rw (e, contains_key) refl in
        let less = uncreated-insert-lt packages id p n created there new in inr (omega arith)
  ]

module _ {V R : Type 0} ⦃version_keyed : Keyed V⦄ (hash : List (Hashed V) → ℕ)
    (packages : Map (NpmPackageId V) (NpmResolutionPackage V)) (E : GraphError → Type 0)
    (Fits : NpmPackageId V → Type 0) (terms : Terms packages E Fits) where
  open terms use {same_node-E, held, peers_fit, dependencies_fit}

  abbrev Claim : NodeFor V R → ℕ → Type 0
  Claim = NodeClaim hash packages E Fits same_node-E

  abbrev Made : List ℕ → Building V R → ℕ × Building V R → Type 0
  Made = Built hash packages E Fits same_node-E

  abbrev created_id : NpmPackageId V → NpmPackageNv V → Building V R → Building V R
  created_id id nv b = record {
    graph = (create_node nv b.graph).1;
    created_package_ids = insert id (create_node nv b.graph).0 b.created_package_ids;
  }

  created_id-Grows :
      (id : NpmPackageId V) (nv : NpmPackageNv V) (b : Building V R)
      → Grows b.graph.nodes (created_id id nv b).graph.nodes
        × Known (created_id id nv b).graph.nodes (create_node nv b.graph).0
  unfolding create_node
  created_id-Grows id nv b = (
    Grows-insert (next_node_id b.graph) new_node b.graph.nodes,
    Known-insert (next_node_id b.graph) new_node b.graph.nodes,
  )

  new_graph_node-Within :
      (node_for : NodeFor V R) (fuel : ℕ)
      → Claim node_for fuel
      → (unset : List ℕ) (id : NpmPackageId V) (b : Building V R) → Inv unset b
      → Fits id
      → get id b.created_package_ids ≡ none
      → Enough hash packages E Fits same_node-E (suc fuel) b
      → Within E (Made unset b) (new_graph_node hash packages node_for id b)
  unfolding new_graph_node
  new_graph_node-Within node_for fuel claim unset (npm_package_id name version peers) b inv fit
        unknown enough =
      let id = npm_package_id name version peers in
      let c = created_id id (name, version) b in
      let n = (create_node (name, version) b.graph).0 in
      let (grows_c, known_c) = created_id-Grows id (name, version) b in
      let enough_c =
        enough_created packages E Fits terms fuel n id b.created_package_ids fit unknown enough in
      Within-then E _ (Made unset b) (peer_dep_ids node_for peers c) _
        (peer_dep_ids-Within hash packages E Fits same_node-E node_for fuel claim (n ∷ unset) peers
          c (create_node-Inv unset b id (name, version) inv) (peers_fit name version peers fit)
          enough_c)
        λ with_peers built.
          Within-then E _ (Made unset b) (resolution_of (get id packages)) _
            (resolution-Within packages E Fits terms id fit)
            λ resolution there.
              let d = with_resolved_id hash packages n (name, version) with_peers in
              let known_d = built.0.grows n known_c in
              let inv_d =
                set-Inv hash packages unset with_peers.1 n (name, version) with_peers.0 built.0.inv
                  known_d built.1 in
              let enough_d =
                Enough-fewer hash packages E Fits same_node-E fuel c d built.0.fewer enough_c in
              Within-then E _ (Made unset b) (set_children node_for n resolution.dependencies d) _
                (set_children-Within hash packages E Fits same_node-E node_for fuel claim unset n
                  resolution.dependencies d inv_d known_d (dependencies_fit id resolution fit there)
                  enough_d)
                λ e step. (
                  record {
                    inv = step.inv;
                    grows = λ i k. step.grows i (built.0.grows i (grows_c i k));
                    fewer =
                        let x = step.fewer in
                        let y = built.0.fewer in
                        let z = uncreated-insert-le packages id n b.created_package_ids in
                        omega arith;
                  },
                  step.grows n known_d,
                )

  pub get_or_create_graph_node-Within :
      (fuel : ℕ) → Claim (get_or_create_graph_node hash packages fuel) fuel
  unfolding get_or_create_graph_node
  get_or_create_graph_node-Within zero unset id b inv fit (inl out) = out
  get_or_create_graph_node-Within zero unset id b inv fit (inr lt) = absurd (omega arith)
  get_or_create_graph_node-Within (suc fuel) unset id b inv fit enough =
      elim (Option-cases (get id b.created_package_ids)) [
        | inr (n, e) ↦
            rw (e, get_or_create_graph_node)
              (record { inv = inv; grows = λ i k. k; fewer = omega arith }, inv.created id n e)
        | inl e ↦
            rw (e, get_or_create_graph_node)
              (new_graph_node-Within (get_or_create_graph_node hash packages fuel) fuel
                (get_or_create_graph_node-Within fuel) unset id b inv fit e enough)
      ]
