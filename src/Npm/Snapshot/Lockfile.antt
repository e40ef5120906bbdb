-- ===== src/Npm/Snapshot/Lockfile.antt =====
-- `NpmResolutionSnapshot::from_lockfile` of crates/module_fetcher/src/npm/resolution/snapshot.rs.
-- The parser of requirements, the parser combinators and the registry are parameters; the fields of
-- the lockfile that are not read are left out.
pub mod Loops
pub mod Closed
use server_based_deno.Base.{
  ℕ, ◌≡◌, Bool, true, false, Option, none, some, List, [], ◌∷◌, ◌++◌, map, Text, Map, get, insert,
  Keyed, text_keyed, Result, ok, err, map_err, ◌>>=◌, all, if◌then◌else◌,
}
use server_based_deno.Npm.{Semver, NpmPackageVersionDistInfo, NpmPackageVersionInfo}
use server_based_deno.Npm.Id.{NpmPackageId, Monch, from_serialized}
use server_based_deno.Npm.Id.Equality.{NpmPackageNv, nv, nv_keyed, id_keyed}
use server_based_deno.Npm.CopyIndex.{SnapshotPackageCopyIndexResolver, with_capacity, resolve}
use server_based_deno.Npm.Snapshot.{
  NpmPackageReq, NpmResolutionPackage, NpmResolutionSnapshot, or_empty,
}

-- Of deno_lockfile.
pub record LockfilePackage : Type 0 where
  pub dependencies : Map Text Text

pub record NpmContent : Type 0 where
  pub specifiers : Map Text Text
  pub packages : Map Text LockfilePackage

pub data LockfileError : Type 0 where
  unable_to_parse : Text → LockfileError
  bad_id : Text → LockfileError
  corrupt : LockfileError
  registry_failed : Text → LockfileError
  not_in_registry : LockfileError

pub record Registry (V : Type 0) : Type 0 where
  pub cache_in_parallel : List Text → Result Text (Unit {0})
  pub package_version_info : NpmPackageNv V → Result Text (Option NpmPackageVersionInfo)

-- `NpmPackageVersionDistInfo::default()`
abbrev pub dummy_dist : NpmPackageVersionDistInfo
dummy_dist = record { tarball = []; shasum = []; integrity_field = none }

abbrev pub contains_key : {K W : Type 0} ⦃keyed : Keyed K⦄ → K → Map K W → Bool
contains_key k m = elim (get k m) [ none ↦ false | some v ↦ true ]

module _ (sv : Semver) ⦃version_keyed : Keyed sv.Version⦄
    ⦃req_keyed : Keyed (NpmPackageReq sv.Req)⦄ where
  open sv use {Version, Req}

  -- What the loop over the specifiers collects. A set is the list of what was put into it.
  pub record Specified : Type 0 where
    pub package_reqs : Map (NpmPackageReq sv.Req) (NpmPackageNv Version)
    pub root_packages : Map (NpmPackageNv Version) (NpmPackageId Version)
    pub verify_ids : List (NpmPackageId Version)

  -- What the loop over the packages collects.
  pub record Collected : Type 0 where
    pub packages_by_name : Map Text (List (NpmPackageId Version))
    pub packages : Map (NpmPackageId Version) (NpmResolutionPackage Version)
    pub copy_index_resolver : SnapshotPackageCopyIndexResolver Version
    pub verify_ids : List (NpmPackageId Version)

  abbrev pub specified : NpmPackageReq sv.Req → NpmPackageId Version → Specified → Specified
  specified req id s = record {
    package_reqs = insert req (nv id) s.package_reqs;
    root_packages = insert (nv id) id s.root_packages;
    verify_ids = id ∷ s.verify_ids;
  }

  abbrev pub no_specifiers : Specified
  no_specifiers = record { package_reqs = []; root_packages = []; verify_ids = [] }

  abbrev pub no_packages : List (NpmPackageId Version) → Collected
  no_packages verify_ids = record {
    packages_by_name = [];
    packages = [];
    copy_index_resolver = with_capacity;
    verify_ids = verify_ids;
  }

  -- A package with its dependencies, and the ids that these name.
  abbrev pub collected :
      NpmPackageId Version
      → Map Text (NpmPackageId Version) × List (NpmPackageId Version)
      → Collected
      → Collected
  collected id (dependencies, verify_ids) c =
      let (index, resolver) = resolve id c.copy_index_resolver in
      record {
        packages_by_name =
            insert (nv id).0 (or_empty (get (nv id).0 c.packages_by_name) ++ id ∷ [])
              c.packages_by_name;
        packages =
            insert id
              (record {
                pkg_id = id;
                copy_index = index;
                dist = dummy_dist;
                dependencies = dependencies;
              })
              c.packages;
        copy_index_resolver = resolver;
        verify_ids = verify_ids;
      }

  abbrev pub with_dist :
      NpmResolutionPackage Version
      → Option NpmPackageVersionInfo
      → Result LockfileError (NpmResolutionPackage Version)
  with_dist p none = err not_in_registry
  with_dist p (some info) = ok (record p { dist = info.dist })

  module _ (monch : Monch) (from_str : Text → Option (NpmPackageReq sv.Req)) where
    abbrev pub parsed_id : Text → Result LockfileError (NpmPackageId Version)
    parsed_id text = map_err bad_id (from_serialized sv monch text)

    abbrev pub parsed_req :
        Text → Option (NpmPackageReq sv.Req) → Result LockfileError (NpmPackageReq sv.Req)
    parsed_req key none = err (unable_to_parse key)
    parsed_req key (some req) = ok req

    unfoldable pub read_specifiers : Map Text Text → Specified → Result LockfileError Specified
    read_specifiers [] s = ok s
    read_specifiers ((key, value) ∷ rest) s = parsed_req key (from_str key) >>= λ req.
        parsed_id value >>= λ id. read_specifiers rest (specified req id s)

    unfoldable pub read_dependencies :
        Map Text Text
        → Map Text (NpmPackageId Version) × List (NpmPackageId Version)
        → Result LockfileError (Map Text (NpmPackageId Version) × List (NpmPackageId Version))
    read_dependencies [] found = ok found
    read_dependencies ((name, specifier) ∷ rest) found =
        parsed_id specifier >>= λ id. read_dependencies rest (insert name id found.0, id ∷ found.1)

    unfoldable pub read_packages :
        Map Text LockfilePackage → Collected → Result LockfileError Collected
    read_packages [] c = ok c
    read_packages ((key, value) ∷ rest) c = parsed_id key >>= λ id.
        read_dependencies value.dependencies ([], c.verify_ids) >>= λ found.
        read_packages rest (collected id found c)

    module _ (api : Registry Version) where
      unfoldable pub set_dists :
          Map (NpmPackageId Version) (NpmResolutionPackage Version)
          → Result LockfileError (Map (NpmPackageId Version) (NpmResolutionPackage Version))
      set_dists [] = ok []
      set_dists ((id, p) ∷ rest) =
          map_err registry_failed (api.package_version_info (nv p.pkg_id)) >>= λ info.
          with_dist p info >>= λ q. set_dists rest >>= λ qs. ok ((id, q) ∷ qs)

      unfoldable pub finish :
          Specified → Collected → Bool → Result LockfileError (NpmResolutionSnapshot Version sv.Req)
      unfolding set_dists
      finish s c false = err corrupt
      finish s c true =
          map_err registry_failed (api.cache_in_parallel (map (λ e. e.0) c.packages_by_name))
          >>= λ _. set_dists c.packages >>= λ packages. ok (record {
            package_reqs = s.package_reqs;
            root_packages = s.root_packages;
            packages_by_name = c.packages_by_name;
            packages = packages;
            pending_unresolved_packages = [];
          })

      unfoldable pub from_lockfile :
          NpmContent → Result LockfileError (NpmResolutionSnapshot Version sv.Req)
      unfolding read_specifiers read_dependencies read_packages
      from_lockfile content = read_specifiers content.specifiers no_specifiers >>= λ s.
          read_packages content.packages (no_packages s.verify_ids) >>= λ c.
          finish s c (all (λ id. contains_key id c.packages) c.verify_ids)
