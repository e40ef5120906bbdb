-- ===== src/Npm/Graph/Resolver.antt =====
-- The state of `GraphDependencyResolver` (crates/module_fetcher/src/npm/resolution/graph.rs) with
-- the steps that its operations share, and the packages that it starts from. The paths' mutable
-- fields are two stores, indexed by the paths' cells; `next_ref` is the next free cell. The api is
-- the interface `NpmRegistryApi`. What is only logged is left out.
use server_based_deno.Base.{
  ℕ, ◌+◌, Bool, true, Option, none, some, List, [], ◌∷◌, ◌++◌, Text, Map, get, insert,
  insert_in_order, text_ltb, Keyed, text_keyed, nat_keyed, ◌==◌, ◌&&◌, ◌||◌, nat_beq, Result, ok,
  err, map_err, if◌then◌else◌,
}
use server_based_deno.Base.Effects.{Io, ◌>>=◌, ◌>>◌, return, lift, gets}
use server_based_deno.Npm.{Semver, NpmPackageInfo, NpmPackageVersionInfo}
use server_based_deno.Npm.Id.Equality.{NpmPackageNv, nv_keyed}
use server_based_deno.Npm.Snapshot.{NpmPackageReq}
use server_based_deno.Npm.Versions.{resolve_best_package_version_and_info}
use server_based_deno.Npm.Dependencies.{NpmDependencyEntry}
use server_based_deno.Npm.Graph.{
  Graph, Node, ResolvedId, GraphPath, graph_path, GraphPathNodeOrRoot, at_node, at_root, GraphError,
  missing_node, bad_requirement, dependencies_failed, version_failed, Hashed, node_id_ref, resolved,
  or_no_versions, get_or_create_for_id, set_child_of_parent_node,
}
use server_based_deno.Npm.Graph.DepEntries.{sorted_entries}

pub record NpmRegistryApi : Type 0 where
  pub package_info : Text → Result Text NpmPackageInfo
  pub cache_in_parallel : List Text → Result Text (Unit {0})

pub record UnresolvedOptionalPeer (V : Type 0) : Type 0 where
  pub specifier : Text
  pub graph_path : GraphPath V

pub record GraphDependencyResolver (V R : Type 0) : Type 0 where
  pub graph : Graph V R
  pub node_ids : ℕ → ℕ
  pub linked_circular_descendants : ℕ → List (GraphPath V)
  pub next_ref : ℕ
  pub pending_unresolved_nodes : List (GraphPath V)
  pub unresolved_optional_peers : Map (NpmPackageNv V) (List (UnresolvedOptionalPeer V))
  pub dep_entry_cache : Map (NpmPackageNv V) (List (NpmDependencyEntry R))

abbrev pub write : {A : Type 0} → (ℕ → A) → ℕ → A → ℕ → A
write f cell a c = if nat_beq c cell then a else f c

-- `unwrap` of what is looked up for a node id.
abbrev pub found : {A : Type 0} → Option A → Result GraphError A
found none = err missing_node
found (some a) = ok a

-- `self.package_info(&nv.name).await?.versions.get(&nv.version.to_string()).cloned()`
unfoldable pub package_version_info :
    (sv : Semver)
    → NpmRegistryApi
    → NpmPackageNv sv.Version
    → Result Text (Option NpmPackageVersionInfo)
package_version_info sv api nv = elim (api.package_info nv.0) [
  | err e ↦ err e
  | ok info ↦ ok (get (sv.to_string nv.1) info.versions)
]

abbrev pub Resolve : Type 0 → Type 0 → Type 0 → Type 0
Resolve V R A = Io (GraphDependencyResolver V R) GraphError A

module _ {V R : Type 0} where
  abbrev pub node_id : GraphDependencyResolver V R → GraphPath V → ℕ
  node_id s path = s.node_ids (node_id_ref path)

  unfoldable pub push_pending : GraphPath V → Resolve V R (Unit {0})
  push_pending path s =
      (ok tt, record s { pending_unresolved_nodes = s.pending_unresolved_nodes ++ path ∷ [] })

  unfoldable pub change_id : GraphPath V → ℕ → Resolve V R (Unit {0})
  change_id path id s = (ok tt, record s { node_ids = write s.node_ids (node_id_ref path) id })

  unfoldable pub push_linked : GraphPath V → GraphPath V → Resolve V R (Unit {0})
  push_linked ancestor descendant s =
      let cell = node_id_ref ancestor in
      let linked = s.linked_circular_descendants in
      (
        ok tt,
        record s {
          linked_circular_descendants = write linked cell (linked cell ++ descendant ∷ []);
        },
      )

  -- A new path has a cell of its own.
  unfoldable pub new_path :
      GraphPathNodeOrRoot V → ℕ → Text → NpmPackageNv V → Resolve V R (GraphPath V)
  new_path previous id specifier nv s = (
    ok (graph_path previous s.next_ref specifier nv),
    record s {
      node_ids = write s.node_ids s.next_ref id;
      linked_circular_descendants = write s.linked_circular_descendants s.next_ref [];
      next_ref = s.next_ref + 1;
    },
  )

  abbrev pub for_root : ℕ → NpmPackageNv V → Resolve V R (GraphPath V)
  for_root id nv = new_path (at_root nv) id [] nv

  abbrev pub with_id : GraphPath V → ℕ → Text → NpmPackageNv V → Resolve V R (GraphPath V)
  with_id path id specifier nv = new_path (at_node path) id specifier nv

  unfoldable pub resolved_or_panic : ℕ → Resolve V R (ResolvedId V)
  resolved_or_panic id s = (found (resolved id s.graph.resolved_node_ids), s)

  unfoldable pub node_or_panic : ℕ → Resolve V R Node
  node_or_panic id s = (found (get id s.graph.nodes), s)

  abbrev pub with_graph :
      Result GraphError (Graph V R)
      → GraphDependencyResolver V R
      → Result GraphError (Unit {0}) × GraphDependencyResolver V R
  with_graph (ok g) s = (ok tt, record s { graph = g })
  with_graph (err e) s = (err e, s)

  abbrev pub marked_no_peers : ℕ → Option Node → Graph V R → Result GraphError (Graph V R)
  marked_no_peers id none g = err missing_node
  marked_no_peers id (some node) g =
      ok (record g { nodes = insert id (record node { no_peers = true }) g.nodes })

  -- `borrow_node_mut(id).no_peers = true`
  unfoldable pub set_no_peers : ℕ → Resolve V R (Unit {0})
  set_no_peers id s = with_graph (marked_no_peers id (get id s.graph.nodes) s.graph) s

  unfoldable pub set_child : ℕ → Text → ℕ → Resolve V R (Unit {0})
  set_child parent_id specifier child_id s =
      with_graph (set_child_of_parent_node parent_id specifier child_id s.graph) s

  module _ ⦃version_keyed : Keyed V⦄ where
    unfoldable pub get_or_create : (List (Hashed V) → ℕ) → ResolvedId V → Resolve V R (Bool × ℕ)
    get_or_create hash id s =
        let (answer, g) = get_or_create_for_id hash s.node_ids id s.graph in
        (ok answer, record s { graph = g })

    -- `package_name_versions.entry(name).or_default()`
    unfoldable pub versions_of : Text → Resolve V R (List V)
    versions_of name s =
        let versions = or_no_versions (get name s.graph.package_name_versions) in
        (
          ok versions,
          record s {
            graph = record s.graph {
              package_name_versions = insert name versions s.graph.package_name_versions;
            };
          },
        )

module _ (sv : Semver) ⦃version_keyed : Keyed sv.Version⦄
    ⦃req_keyed : Keyed (NpmPackageReq sv.Req)⦄ where
  open sv use {Version, Req, to_string, parse_req_from_specifier, lt}

  abbrev pub State : Type 0
  State = GraphDependencyResolver Version sv.Req

  -- The order of `BTreeMap<Arc<NpmPackageNv>, NodeId>`.
  abbrev pub nv_ltb : NpmPackageNv Version → NpmPackageNv Version → Bool
  nv_ltb (m, v) (n, w) = text_ltb m n || (m == n && lt v w)

  unfoldable pub insert_root : NpmPackageNv Version → ℕ → Resolve Version sv.Req (Unit {0})
  insert_root nv id s = (
    ok tt,
    record s {
      graph = record s.graph { root_packages = insert_in_order nv_ltb nv id s.graph.root_packages };
    },
  )

  unfoldable pub insert_req :
      NpmPackageReq sv.Req → NpmPackageNv Version → Resolve Version sv.Req (Unit {0})
  insert_req req nv s = (
    ok tt,
    record s { graph = record s.graph { package_reqs = insert req nv s.graph.package_reqs } },
  )

  unfoldable pub store :
      NpmPackageNv Version
      → NpmPackageVersionInfo
      → Resolve Version sv.Req (List (NpmDependencyEntry sv.Req))
  store nv version_info s = elim (sorted_entries sv version_info) [
    | err e ↦ (err (dependencies_failed e), s)
    | ok deps ↦ (ok deps, record s { dep_entry_cache = insert nv deps s.dep_entry_cache })
  ]

  abbrev pub cached_or_stored :
      NpmPackageNv Version
      → NpmPackageVersionInfo
      → Option (List (NpmDependencyEntry sv.Req))
      → Resolve Version sv.Req (List (NpmDependencyEntry sv.Req))
  cached_or_stored nv info (some deps) = return deps
  cached_or_stored nv info none = store nv info

  -- `known_good` is the requirement that stands for the tag "latest" of @types/node.
  module _ (hash : List (Hashed sv.Version) → ℕ) (known_good : Req) where
    abbrev pub mark_leaf : ℕ → List (NpmDependencyEntry sv.Req) → Resolve Version sv.Req (Unit {0})
    mark_leaf id [] = set_no_peers id
    mark_leaf id (dep ∷ deps) = return tt

    unfoldable pub resolve_node_from_info :
        Req → NpmPackageInfo → Resolve Version sv.Req (NpmPackageNv Version × ℕ)
    resolve_node_from_info req info = do
      existing ← versions_of info.name
      best ← lift (
          map_err version_failed
            (resolve_best_package_version_and_info sv known_good req info existing))
      let nv : NpmPackageNv Version = (info.name, best.version)
      created ← get_or_create hash (record { nv = nv; peer_dependencies = [] })
      cached ← gets (λ s. get nv s.dep_entry_cache)
      deps ← cached_or_stored nv best.info cached
      mark_leaf created.1 deps
      return (nv, created.1)

    abbrev pub requirement : Option Req → Result GraphError Req
    requirement none = err bad_requirement
    requirement (some req) = ok req

    -- `latest_version_req` is what the static `LATEST_VERSION_REQ` holds.
    abbrev pub or_latest : Req → Option Req → Req
    or_latest latest_version_req none = latest_version_req
    or_latest latest_version_req (some req) = req

    unfoldable pub add_root_package :
        NpmPackageNv Version → NpmPackageInfo → Resolve Version sv.Req (Unit {0})
    add_root_package nv info s = elim (get nv s.graph.root_packages) [
      | some _ ↦ (ok tt, s)
      | none ↦
          (do
            req ← lift (requirement (parse_req_from_specifier (to_string nv.1)))
            node ← resolve_node_from_info req info
            insert_root node.0 node.1
            path ← for_root node.1 node.0
            push_pending path)
            s
    ]

    unfoldable pub add_package_req :
        Req → NpmPackageReq sv.Req → NpmPackageInfo → Resolve Version sv.Req (Unit {0})
    add_package_req latest_version_req package_req info s =
        elim (get package_req s.graph.package_reqs) [
          | some _ ↦ (ok tt, s)
          | none ↦
              (do
                node ←
                    resolve_node_from_info (or_latest latest_version_req package_req.version_req)
                      info
                insert_req package_req node.0
                insert_root node.0 node.1
                path ← for_root node.1 node.0
                push_pending path)
                s
        ]
