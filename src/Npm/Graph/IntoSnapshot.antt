-- ===== src/Npm/Graph/IntoSnapshot.antt =====
-- The snapshot of a graph: `into_snapshot` of
-- crates/module_fetcher/src/npm/resolution/graph.rs, with the order of `NpmPackageId` of mod.rs. The
-- loop is on fuel: as many rounds as there are nodes.
pub mod Queue
pub mod Rounds
pub mod Loop
pub mod Closed
use server_based_deno.Base.{
  ℕ, zero, suc, Bool, true, false, ◌&&◌, ◌||◌, Option, none, some, List, [], ◌∷◌, ◌++◌, map, Text,
  Map, get, insert, Keyed, nat_keyed, text_keyed, ◌==◌, any, Result, ok, err, ◌>>=◌, map_err,
  length, sort_by, if◌then◌else◌,
}
use server_based_deno.Npm.{Semver, NpmPackageVersionInfo, NpmPackageVersionDistInfo}
use server_based_deno.Npm.Id.{NpmPackageId, npm_package_id, Peers, no_peers, peer}
use server_based_deno.Npm.Id.Equality.{NpmPackageNv, nv, nv_keyed, id_keyed}
use server_based_deno.Npm.CopyIndex.{
  SnapshotPackageCopyIndexResolver, from_map_with_capacity, resolve,
}
use server_based_deno.Npm.Snapshot.{
  NpmPackageReq, NpmResolutionPackage, NpmResolutionSnapshot, or_empty,
}
use server_based_deno.Npm.Graph.{
  Graph, Node, GraphError, missing_node, missing_version_info, api_failed, out_of_fuel,
}
use server_based_deno.Npm.Graph.Resolver.{NpmRegistryApi, found, package_version_info, nv_ltb}
use server_based_deno.Npm.Graph.PackageIds.{get_npm_pkg_id}

-- What the loop collects. The set of the ids that were traversed is a list.
pub record Collecting (V : Type 0) : Type 0 where
  pub traversed_ids : List (NpmPackageId V)
  pub pending : List (ℕ × NpmPackageId V)
  pub packages_by_name : Map Text (List (NpmPackageId V))
  pub copy_index_resolver : SnapshotPackageCopyIndexResolver V
  pub packages : Map (NpmPackageId V) (NpmResolutionPackage V)

abbrev pub dist_of : Option NpmPackageVersionInfo → Result GraphError NpmPackageVersionDistInfo
dist_of none = err missing_version_info
dist_of (some info) = ok info.dist

module _ {V : Type 0} ⦃version_keyed : Keyed V⦄ where
  abbrev pub is_traversed : NpmPackageId V → List (NpmPackageId V) → Bool
  is_traversed id ids = any (λ other. other == id) ids

  -- `if traversed_ids.insert(…) { pending.push_back(…) }`
  unfoldable pub queue_new : ℕ → NpmPackageId V → Collecting V → Collecting V
  queue_new node_id id c = if is_traversed id c.traversed_ids then c else record c {
    traversed_ids = id ∷ c.traversed_ids;
    pending = c.pending ++ (node_id, id) ∷ [];
  }

  -- `Vec::dedup`
  unfoldable pub dedup : List (NpmPackageId V) → List (NpmPackageId V)
  dedup [] = []
  dedup (x ∷ []) = x ∷ []
  dedup (x ∷ y ∷ ids) = let rest = dedup (y ∷ ids) in if x == y then rest else x ∷ rest

  module _ (ids : Map ℕ (NpmPackageId V)) where
    unfoldable pub queue_roots :
        Map (NpmPackageNv V) ℕ → Collecting V → Result GraphError (Collecting V)
    queue_roots [] c = ok c
    queue_roots ((_, root_id) ∷ rest) c =
        found (get root_id ids) >>= λ id. queue_roots rest (queue_new root_id id c)

    unfoldable pub walk_children :
        Map Text ℕ
        → Map Text (NpmPackageId V)
        → Collecting V
        → Result GraphError (Map Text (NpmPackageId V) × Collecting V)
    walk_children [] dependencies c = ok (dependencies, c)
    walk_children ((specifier, child_id) ∷ rest) dependencies c = found (get child_id ids) >>= λ id.
        walk_children rest (insert specifier id dependencies) (queue_new child_id id c)

    unfoldable pub root_ids :
        Map (NpmPackageNv V) ℕ → Result GraphError (Map (NpmPackageNv V) (NpmPackageId V))
    root_ids [] = ok []
    root_ids ((root, node_id) ∷ rest) =
        found (get node_id ids) >>= λ id. root_ids rest >>= λ roots. ok (insert root id roots)

  -- The package, with the dependencies that were walked.
  unfoldable pub put_package :
      NpmPackageId V
      → NpmPackageVersionDistInfo
      → Map Text (NpmPackageId V) × Collecting V
      → Collecting V
  put_package id dist (dependencies, c) =
      let (index, resolver) = resolve id c.copy_index_resolver in
      record c {
        copy_index_resolver = resolver;
        packages =
            insert id
              (record { pkg_id = id; copy_index = index; dist = dist; dependencies = dependencies })
              c.packages;
      }

  unfoldable pub put_name : NpmPackageId V → Collecting V → Collecting V
  put_name id c = record c {
    packages_by_name =
        insert (nv id).0 (or_empty (get (nv id).0 c.packages_by_name) ++ id ∷ [])
          c.packages_by_name;
  }

module _ (sv : Semver) ⦃version_keyed : Keyed sv.Version⦄
    ⦃req_keyed : Keyed (NpmPackageReq sv.Req)⦄ where
  open sv use {Version, Req}

  unfoldable mutual
    pub id_ltb : NpmPackageId Version → NpmPackageId Version → Bool
    id_ltb (npm_package_id m v ps) (npm_package_id n w qs) =
        nv_ltb sv (m, v) (n, w) || (nv_keyed.same (m, v) (n, w) && peers_ltb ps qs)

    pub peers_ltb : Peers Version → Peers Version → Bool
    peers_ltb no_peers no_peers = false
    peers_ltb no_peers (peer q qs) = true
    peers_ltb (peer p ps) no_peers = false
    peers_ltb (peer p ps) (peer q qs) = id_ltb p q || (p == q && peers_ltb ps qs)

  abbrev pub sorted_names :
      Map Text (List (NpmPackageId Version)) → Map Text (List (NpmPackageId Version))
  sorted_names names = map (λ e. (e.0, dedup (sort_by id_ltb e.1))) names

  module _ (api : NpmRegistryApi) (node_ids : ℕ → ℕ) (g : Graph Version sv.Req) where
    -- `packages_to_pkg_ids`
    unfoldable pub pkg_ids : Map ℕ Node → Result GraphError (Map ℕ (NpmPackageId Version))
    pkg_ids [] = ok []
    pkg_ids ((node_id, node) ∷ rest) =
        get_npm_pkg_id node_ids g node_id >>= λ id. pkg_ids rest >>= λ ids. ok ((node_id, id) ∷ ids)

    module _ (ids : Map ℕ (NpmPackageId Version)) where
      -- A round of the loop.
      unfoldable pub collect :
          ℕ × NpmPackageId Version → Collecting Version → Result GraphError (Collecting Version)
      collect (node_id, id) c = found (get node_id g.nodes) >>= λ node.
          map_err api_failed (package_version_info sv api (nv id)) >>= λ info.
          dist_of info >>= λ dist. walk_children ids node.children [] (put_name id c) >>= λ walked.
          ok (put_package id dist walked)

      abbrev pub next_pending :
          (Collecting Version → Result GraphError (Collecting Version))
          → List (ℕ × NpmPackageId Version)
          → Collecting Version
          → Result GraphError (Collecting Version)
      next_pending rest [] c = ok c
      next_pending rest (e ∷ es) c = collect e (record c { pending = es }) >>= rest

      unfoldable pub collect_pending :
          ℕ → Collecting Version → Result GraphError (Collecting Version)
      collect_pending zero c = next_pending (λ _. err out_of_fuel) c.pending c
      collect_pending (suc fuel) c = next_pending (collect_pending fuel) c.pending c

      abbrev pub nothing_collected : Collecting Version
      nothing_collected = record {
        traversed_ids = [];
        pending = [];
        packages_by_name = [];
        copy_index_resolver = from_map_with_capacity g.packages_to_copy_index;
        packages = [];
      }

      abbrev pub snapshot_of :
          Map (NpmPackageNv Version) (NpmPackageId Version)
          → Collecting Version
          → NpmResolutionSnapshot Version sv.Req
      snapshot_of roots c = record {
        package_reqs = g.package_reqs;
        root_packages = roots;
        packages_by_name = sorted_names c.packages_by_name;
        packages = c.packages;
        pending_unresolved_packages = g.pending_unresolved_packages;
      }

      unfoldable pub collect_all : Result GraphError (NpmResolutionSnapshot Version sv.Req)
      collect_all = queue_roots ids g.root_packages nothing_collected >>= λ start.
          collect_pending (length g.nodes) start >>= λ c.
          root_ids ids g.root_packages >>= λ roots. ok (snapshot_of roots c)

    unfoldable pub into_snapshot : Result GraphError (NpmResolutionSnapshot Version sv.Req)
    into_snapshot = pkg_ids g.nodes >>= λ ids. collect_all ids
