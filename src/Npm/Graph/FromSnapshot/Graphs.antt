-- ===== src/Npm/Graph/FromSnapshot/Graphs.antt =====
-- The graph of a snapshot (crates/module_fetcher/src/npm/resolution/graph.rs).
use server_based_deno.Base.{
  ℕ, suc, ◌≡◌, ◌≢◌, refl, ap, some, List, [], ◌∷◌, Text, Map, get, insert_in_order, Keyed,
  nat_keyed, ok, All, All-insert_in_order, length, inl, inr, arith,
}
use server_based_deno.Npm.{Semver}
use server_based_deno.Npm.Id.{NpmPackageId, npm_package_id, Peers, no_peers, peer}
use server_based_deno.Npm.Id.Equality.{NpmPackageNv, nv_keyed, id_keyed}
use server_based_deno.Npm.Snapshot.{NpmPackageReq, NpmResolutionPackage}
use server_based_deno.Npm.Graph.{GraphError, missing_node, same_node, Hashed}
use server_based_deno.Npm.Graph.FromSnapshot.{Building, NodeFor, get_or_create_graph_node}
use server_based_deno.Npm.Graph.FromSnapshot.Sound.{Inv}
use server_based_deno.Npm.Graph.Sound.{Known}
use server_based_deno.Npm.Snapshot.{NpmResolutionSnapshot}
use server_based_deno.Npm.Graph.FromSnapshot.{add_roots, from_snapshot}
use server_based_deno.Npm.Graph.Resolver.{nv_ltb}
use server_based_deno.Npm.Graph.FromSnapshot.Sound.{Inv-IsSound}
use server_based_deno.Npm.Graph.Sound.{IsSound}
use server_based_deno.Npm.Graph.FromSnapshot.Builds.{
  Within, Within-then, PeersFit, Enough, Enough-fewer, Built, NodeClaim, uncreated,
}
use server_based_deno.Npm.Graph.FromSnapshot.{empty_graph}
use server_based_deno.Npm.Graph.FromSnapshot.Returns.{Terms, get_or_create_graph_node-Within}

module _ (sv : Semver) ⦃version_keyed : Keyed sv.Version⦄ ⦃req_keyed : Keyed (NpmPackageReq sv.Req)⦄
    (hash : List (Hashed sv.Version) → ℕ) where
  open sv use {Version, Req}

  module _ (packages : Map (NpmPackageId Version) (NpmResolutionPackage Version))
      (E : GraphError → Type 0) (Fits : NpmPackageId Version → Type 0)
      (terms : Terms packages E Fits) where
    open terms use {same_node-E}

    root-Inv :
        (nv : NpmPackageNv Version) (n : ℕ) (b : Building Version sv.Req)
        → Inv [] b
        → Known b.graph.nodes n
        → Inv [] (record b {
          graph = record b.graph {
            root_packages = insert_in_order (nv_ltb sv) nv n b.graph.root_packages;
          };
        })
    root-Inv nv n b inv known = record {
      children = inv.children;
      has_id = inv.has_id;
      first = inv.first;
      roots =
          All-insert_in_order (λ r. Known b.graph.nodes r.1) (nv_ltb sv) nv n b.graph.root_packages
            known inv.roots;
      keys = inv.keys;
      peers = inv.peers;
      created = inv.created;
    }

    add_roots-Within :
        (node_for : NodeFor Version sv.Req) (limit : ℕ)
        → NodeClaim hash packages E Fits same_node-E node_for limit
        → (roots : Map (NpmPackageNv Version) (NpmPackageId Version)) (b : Building Version sv.Req)
        → Inv [] b
        → All (λ r. Fits r.1) roots
        → Enough hash packages E Fits same_node-E limit b
        → Within E (λ c. IsSound c.graph) (add_roots sv hash node_for roots b)
    unfolding add_roots
    add_roots-Within node_for limit claim [] b inv fit enough = Inv-IsSound b inv
    add_roots-Within node_for limit claim ((nv, id) ∷ rest) b inv fit enough =
        Within-then E (Built hash packages E Fits same_node-E [] b) (λ c. IsSound c.graph)
          (node_for id b) _ (claim [] id b inv fit.0 enough)
          λ found built.
            add_roots-Within node_for limit claim rest _
              (root-Inv nv found.0 found.1 built.0.inv built.1) fit.1
              (Enough-fewer hash packages E Fits same_node-E limit b found.1 built.0.fewer enough)

  empty-Inv :
      (s : NpmResolutionSnapshot Version sv.Req)
      → Inv [] (record { graph = empty_graph sv hash s; created_package_ids = [] })
  unfolding get
  empty-Inv s = record {
    children = λ i n e. cc e;
    has_id = λ i n e. cc e;
    first = λ i (n, e). cc e;
    roots = tt;
    keys = λ h i e. cc e;
    peers = λ i r e. cc e;
    created = λ id i e. cc e;
  }

  uncreated-nil :
      (packages : Map (NpmPackageId Version) (NpmResolutionPackage Version))
      → uncreated packages [] ≡ length packages
  unfolding get
  uncreated-nil [] = refl
  uncreated-nil (e ∷ packages) = ap suc (uncreated-nil packages)

  from_snapshot-Within :
      (s : NpmResolutionSnapshot Version sv.Req) (E : GraphError → Type 0)
      (Fits : NpmPackageId Version → Type 0) (terms : Terms s.packages E Fits)
      → All (λ r. Fits r.1) s.root_packages
      → Within E IsSound (from_snapshot sv hash s)
  unfolding from_snapshot
  from_snapshot-Within s E Fits terms fit =
      let limit = suc (length s.packages) in
      let size = uncreated-nil s.packages in
      Within-then E (λ c. IsSound c.graph) IsSound _ (λ b. ok b.graph)
        (add_roots-Within s.packages E Fits terms (get_or_create_graph_node hash s.packages limit)
          limit (get_or_create_graph_node-Within hash s.packages E Fits terms limit) s.root_packages
          _ (empty-Inv s) fit (inr (omega arith)))
        λ b sound. sound

  any_each : {K : Type 0} (m : Map K (NpmPackageId Version)) → All (λ e. Unit {0}) m
  any_each [] = tt
  any_each (e ∷ m) = (tt, any_each m)

  any_peers : (ps : Peers Version) → PeersFit (λ id. Unit {0}) ps
  any_peers no_peers = tt
  any_peers (peer p ps) = (tt, any_peers ps)

  -- Whatever the snapshot, also one from a lockfile that was edited, the graph that is made of it is
  -- sound: every node id in it leads to a node with a resolved id. Where none is made, it is not by
  -- an `unwrap` of a missing node.
  pub from_snapshot-IsSound :
      (s : NpmResolutionSnapshot Version sv.Req)
      → Within (λ e. e ≢ missing_node) IsSound (from_snapshot sv hash s)
  from_snapshot-IsSound s =
      from_snapshot-Within s (λ e. e ≢ missing_node) (λ id. Unit)
        (record {
          same_node-E = λ e. cc e;
          held = λ id fit. inr (λ e. cc e, λ e. cc e);
          peers_fit = λ name v ps fit. any_peers ps;
          dependencies_fit = λ id p fit e. any_each p.dependencies;
        })
        (any_each s.root_packages)

  abbrev pub Holds : NpmResolutionSnapshot Version sv.Req → NpmPackageId Version → Type 0
  Holds s id = (p : NpmResolutionPackage Version) × (get id s.packages ≡ some p)

  -- The roots, the dependencies and the peers are packages of the snapshot.
  pub record IsWhole (s : NpmResolutionSnapshot Version sv.Req) : Type 0 where
    pub roots : All (λ r. Holds s r.1) s.root_packages
    pub dependencies :
        (id : NpmPackageId Version) (p : NpmResolutionPackage Version)
        → get id s.packages ≡ some p
        → All (λ c. Holds s c.1) p.dependencies
    pub peers :
        (name : Text) (v : Version) (ps : Peers Version)
        → Holds s (npm_package_id name v ps)
        → PeersFit (Holds s) ps

  -- The recursion over a snapshot in which every root, dependency and peer is a package ends: it
  -- gives a sound graph, or panics since a package would be its own child.
  pub from_snapshot_ends :
      (s : NpmResolutionSnapshot Version sv.Req)
      → IsWhole s
      → Within (λ e. e ≡ same_node) IsSound (from_snapshot sv hash s)
  from_snapshot_ends s whole =
      from_snapshot-Within s (λ e. e ≡ same_node) (Holds s)
        (record {
          same_node-E = refl;
          held = λ id fit. inl fit;
          peers_fit = whole.peers;
          dependencies_fit = λ id p fit e. whole.dependencies id p e;
        })
        whole.roots
