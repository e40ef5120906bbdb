-- ===== src/Npm/Resolution.antt =====
-- The state of the resolution: `NpmResolution` of
-- crates/module_fetcher/src/npm/resolution/mod.rs. One operation at a time changes the snapshot (the
-- update queue), so that an operation is a function on it; it writes the snapshot only if it
-- succeeds. The lockfile of the crate deno_lockfile is the parameter `Lockfile`.
pub mod Held
pub mod Reached
pub mod Ready
mod Examples
use server_based_deno.Base.{
  ℕ, ◌+◌, Bool, true, false, not, ◌&&◌, Option, none, some, List, [], ◌∷◌, ◌++◌, map, Text, Map,
  get, insert, Keyed, text_keyed, ◌==◌, any, all, Result, ok, err, map_err, if◌then◌else◌,
}
use server_based_deno.Base.Effects.{Io, ◌>>=◌, ◌>>◌, return, lift, each}
use server_based_deno.Npm.{Semver, NpmPackageInfo}
use server_based_deno.Npm.Id.{NpmPackageId, npm_package_id, no_peers, as_serialized}
use server_based_deno.Npm.Id.Equality.{NpmPackageNv, nv, nv_keyed, id_keyed}
use server_based_deno.Npm.Versions.{VersionAndInfo, resolve_best_package_version_and_info}
use server_based_deno.Npm.Snapshot.{
  NpmPackageReq, NpmResolutionPackage, NpmResolutionSnapshot, NpmPackageCacheFolderId, LookupError,
  or_empty, is_empty, resolve_pkg_from_pkg_req, resolve_package_from_deno_module,
  get_package_cache_folder_id,
}
use server_based_deno.Npm.Snapshot.Lockfile.{contains_key}
use server_based_deno.Npm.Graph.{
  Graph, GraphError, Hashed, api_failed, version_failed, missing_info, missing_root,
  lockfile_failed, take_pending_unresolved, has_package_req, has_root_package,
}
use server_based_deno.Npm.Graph.Resolver.{
  NpmRegistryApi, GraphDependencyResolver, State, Resolve, add_package_req, add_root_package,
}
use server_based_deno.Npm.Graph.Pending.{resolve_pending}
use server_based_deno.Npm.Graph.FromSnapshot.{from_snapshot}
use server_based_deno.Npm.Graph.IntoSnapshot.{into_snapshot}

abbrev pub filter : {A : Type 0} → (A → Bool) → List A → List A
filter p [] = []
filter p (x ∷ xs) = if p x then x ∷ filter p xs else filter p xs

-- A set of names, as the list of its members.
abbrev pub name_set : List Text → List Text
name_set [] = []
name_set (name ∷ names) =
    if any (λ n. n == name) names then name_set names else name ∷ name_set names

abbrev pub none_pending : {A : Type 0} → List A → Bool
none_pending [] = true
none_pending (x ∷ xs) = false

-- `GraphDependencyResolver::new`
unfoldable pub new_resolver : {V R : Type 0} → Graph V R → GraphDependencyResolver V R
new_resolver g = record {
  graph = g;
  node_ids = λ cell. 0;
  linked_circular_descendants = λ cell. [];
  next_ref = 0;
  pending_unresolved_nodes = [];
  unresolved_optional_peers = [];
  dep_entry_cache = [];
}

module _ (sv : Semver) ⦃version_keyed : Keyed sv.Version⦄
    ⦃req_keyed : Keyed (NpmPackageReq sv.Req)⦄ where
  open sv use {Version, Req}

  abbrev pub Snapshot : Type 0
  Snapshot = NpmResolutionSnapshot Version sv.Req

  pub record Lockfile (L : Type 0) : Type 0 where
    pub req_to_string : NpmPackageReq sv.Req → Text
    pub insert_npm_specifier : Text → Text → L → L
    pub check_or_insert_npm_package : NpmResolutionPackage Version → L → Result Text L

  abbrev pub empty_snapshot : Snapshot
  empty_snapshot = record {
    package_reqs = [];
    root_packages = [];
    packages_by_name = [];
    packages = [];
    pending_unresolved_packages = [];
  }

  unfoldable pub has_packages : Snapshot → Bool
  has_packages s = not (none_pending s.packages)

  abbrev pub id_of :
      Result LookupError (NpmResolutionPackage Version) → Result LookupError (NpmPackageId Version)
  id_of (ok p) = ok p.pkg_id
  id_of (err e) = err e

  unfoldable pub resolve_pkg_id_from_pkg_req :
      NpmPackageReq sv.Req → Snapshot → Result LookupError (NpmPackageId Version)
  resolve_pkg_id_from_pkg_req req s = id_of (resolve_pkg_from_pkg_req sv req s)

  unfoldable pub resolve_pkg_id_from_deno_module :
      NpmPackageNv Version → Snapshot → Result LookupError (NpmPackageId Version)
  resolve_pkg_id_from_deno_module id s = id_of (resolve_package_from_deno_module sv id s)

  unfoldable pub resolve_package_cache_folder_id_from_id :
      NpmPackageId Version → Snapshot → Option (NpmPackageCacheFolderId Version)
  resolve_package_cache_folder_id_from_id id s = elim (get id s.packages) [
    | none ↦ none
    | some p ↦ some (get_package_cache_folder_id p)
  ]

  module _ {L : Type 0} (lockfile : Lockfile L) where
    abbrev pub insert_specifier :
        Snapshot → NpmPackageReq sv.Req × NpmPackageNv Version → Io L GraphError (Unit {0})
    insert_specifier s entry l = elim (get entry.1 s.root_packages) [
      | none ↦ (err missing_root, l)
      | some root ↦ (
        ok tt,
        lockfile.insert_npm_specifier (lockfile.req_to_string entry.0) (as_serialized sv root) l,
      )
    ]

    abbrev pub insert_package :
        NpmPackageId Version × NpmResolutionPackage Version → Io L GraphError (Unit {0})
    insert_package entry l = elim (lockfile.check_or_insert_npm_package entry.1 l) [
      | err e ↦ (err (lockfile_failed e), l)
      | ok after ↦ (ok tt, after)
    ]

    unfoldable pub lock : Snapshot → Io L GraphError (Unit {0})
    lock s = do each (insert_specifier s) s.package_reqs; each insert_package s.packages

  module _ (api : NpmRegistryApi) (hash : List (Hashed Version) → ℕ)
      (known_good latest_version_req : Req) (depth fuel : ℕ) where
    abbrev pub add_reqs : NpmPackageReq sv.Req → Resolve Version sv.Req (Unit {0})
    add_reqs req = do
      info ← lift (map_err api_failed (api.package_info req.name))
      add_package_req sv hash known_good latest_version_req req info

    abbrev pub add_pending : NpmPackageNv Version → Resolve Version sv.Req (Unit {0})
    add_pending id = do
      info ← lift (map_err api_failed (api.package_info id.0))
      add_root_package sv hash known_good id info

    -- The steps on the resolver.
    unfoldable pub resolve_all :
        List (NpmPackageReq sv.Req)
        → List (NpmPackageNv Version)
        → Resolve Version sv.Req (Unit {0})
    resolve_all reqs pending = do
      each add_reqs reqs
      each add_pending pending
      resolve_pending sv hash known_good depth api fuel

    abbrev pub snapshot_after : Result GraphError (Unit {0}) × State sv → Result GraphError Snapshot
    snapshot_after (err e, s) = err e
    snapshot_after (ok _, s) = into_snapshot sv api s.node_ids s.graph

    abbrev pub when_cached :
        Result Text (Unit {0}) → Result GraphError Snapshot → Result GraphError Snapshot
    when_cached (err e) rest = err (api_failed e)
    when_cached (ok _) rest = rest

    unfoldable pub extend_graph :
        List (NpmPackageReq sv.Req) → Graph Version sv.Req → Result GraphError Snapshot
    extend_graph package_reqs graph =
        let (pending, g) = take_pending_unresolved graph in
        let reqs = filter (λ r. not (has_package_req r g)) package_reqs in
        let unresolved = filter (λ p. not (has_root_package p g)) pending in
        let names = name_set (map (λ r. r.name) reqs ++ map (λ p. p.0) unresolved) in
        when_cached (api.cache_in_parallel names)
          (snapshot_after (resolve_all reqs unresolved (new_resolver g)))

    abbrev pub when_graph :
        List (NpmPackageReq sv.Req)
        → Result GraphError (Graph Version sv.Req)
        → Result GraphError Snapshot
    when_graph package_reqs (err e) = err e
    when_graph package_reqs (ok g) = extend_graph package_reqs g

    abbrev pub is_up_to_date : List (NpmPackageReq sv.Req) → Snapshot → Bool
    is_up_to_date package_reqs s =
        none_pending s.pending_unresolved_packages
        && all (λ req. contains_key req s.package_reqs) package_reqs

    module _ {L : Type 0} (lockfile : Lockfile L) where
      -- The lockfile, if there is one, takes the snapshot in.
      abbrev pub lock_result :
          Result GraphError Snapshot → Option L → Result GraphError Snapshot × Option L
      lock_result (err e) l = (err e, l)
      lock_result (ok s) none = (ok s, none)
      lock_result (ok s) (some l) =
          let (r, after) = lock lockfile s l in (elim r [ ok _ ↦ ok s | err e ↦ err e ], some after)

      unfoldable pub add_package_reqs_to_snapshot :
          List (NpmPackageReq sv.Req) → Snapshot → Option L → Result GraphError Snapshot × Option L
      add_package_reqs_to_snapshot package_reqs s l =
          if is_up_to_date package_reqs s
          then (ok s, l)
          else lock_result (when_graph package_reqs (from_snapshot sv hash s)) l

      -- The snapshot is written if there is one.
      abbrev pub write_snapshot :
          Snapshot × Option L
          → Result GraphError Snapshot × Option L
          → Result GraphError (Unit {0}) × (Snapshot × Option L)
      write_snapshot state (ok s, l) = (ok tt, (s, l))
      write_snapshot state (err e, l) = (err e, (state.0, l))

      unfoldable pub add_package_reqs :
          List (NpmPackageReq sv.Req) → Io (Snapshot × Option L) GraphError (Unit {0})
      add_package_reqs package_reqs state =
          write_snapshot state (add_package_reqs_to_snapshot package_reqs state.0 state.1)

      -- A requirement that is no longer wanted makes the resolution start again.
      abbrev pub without_removed : List (NpmPackageReq sv.Req) → Snapshot → Snapshot
      without_removed package_reqs s =
          if all (λ e. any (λ r. r == e.0) package_reqs) s.package_reqs then s else empty_snapshot

      unfoldable pub set_package_reqs :
          List (NpmPackageReq sv.Req) → Io (Snapshot × Option L) GraphError (Unit {0})
      set_package_reqs package_reqs state =
          write_snapshot state (
            add_package_reqs_to_snapshot package_reqs (without_removed package_reqs state.0)
              state.1)

      unfoldable pub resolve_pending_packages : Io (Snapshot × Option L) GraphError (Unit {0})
      resolve_pending_packages state =
          write_snapshot state (add_package_reqs_to_snapshot [] state.0 state.1)

  module _ (known_good latest_version_req : Req) where
    abbrev pub or_latest_req : Option Req → Req
    or_latest_req none = latest_version_req
    or_latest_req (some req) = req

    abbrev pub with_name :
        NpmPackageNv Version → List (NpmPackageId Version) → List (NpmPackageId Version)
    with_name id ids =
        if any (λ p. nv p == id) ids then ids else ids ++ npm_package_id id.0 id.1 no_peers ∷ []

    abbrev pub pending_added :
        NpmPackageReq sv.Req → Text → NpmPackageNv Version → Snapshot → Snapshot
    pending_added req name id s = record s {
      package_reqs = insert req id s.package_reqs;
      packages_by_name =
          insert name (with_name id (or_empty (get name s.packages_by_name))) s.packages_by_name;
      pending_unresolved_packages = s.pending_unresolved_packages ++ id ∷ [];
    }

    abbrev pub version_chosen :
        NpmPackageReq sv.Req
        → NpmPackageInfo
        → Result GraphError (VersionAndInfo sv)
        → Io Snapshot GraphError (NpmPackageNv Version)
    version_chosen req info (err e) s = (err e, s)
    version_chosen req info (ok found) s =
        let id : NpmPackageNv Version = (info.name, found.version) in
        (ok id, pending_added req info.name id s)

    -- `cached` is what `get_cached_package_info` gives.
    unfoldable pub resolve_package_req_as_pending :
        Option NpmPackageInfo → NpmPackageReq sv.Req → Io Snapshot GraphError (NpmPackageNv Version)
    resolve_package_req_as_pending none req s = (err missing_info, s)
    resolve_package_req_as_pending (some info) req s =
        version_chosen req info
          (map_err version_failed (
            resolve_best_package_version_and_info sv known_good (or_latest_req req.version_req) info
              (map (λ p. (nv p).1) (or_empty (get info.name s.packages_by_name)))))
          s
