-- ===== src/Npm/Dependencies.antt =====
-- Dependencies as packages list them: crates/module_fetcher/src/args/package_json.rs (the
-- application's package.json) and `dependencies_as_entries` of
-- crates/module_fetcher/src/npm/registry.rs (the registry's record of a version).
pub mod Local
pub mod Described
pub mod Entries
mod Examples
use server_based_deno.Base.{
  ◌≡◌, Bool, true, false, ◌||◌, Option, none, some, List, [], ◌∷◌, Text, codes, Map, get, insert,
  text_keyed, Result, ok, err, map_err, ◌>>=◌, starts_with, strip_prefix, rsplit_once, split,
  if◌then◌else◌,
}
use server_based_deno.Npm.{Semver, NpmPackageVersionInfo}
use server_based_deno.Npm.Snapshot.{NpmPackageReq}

pub data DepError : Type 0 where
  no_at : Text → DepError
  bad_specifier : Text → DepError
  unsupported : Text → DepError
  bad_requirement : Text → DepError

abbrev pub name_and_version : Text → Option (Text × Text) → Result DepError (Text × Text)
name_and_version value none = err (no_at value)
name_and_version value (some found) = ok found

abbrev pub after_npm : Text → Text → Option Text → Result DepError (Text × Text)
after_npm key value none = ok (key, value)
after_npm key value (some package_and_version) =
    name_and_version value (rsplit_once b'@' package_and_version)

unfoldable pub parse_dep_entry_name_and_raw_version : Text → Text → Result DepError (Text × Text)
parse_dep_entry_name_and_raw_version key value =
    after_npm key value (strip_prefix (codes "npm:") value)

abbrev pub is_unsupported : Text → Bool
is_unsupported value =
    starts_with (codes "workspace:") value
    || starts_with (codes "file:") value
    || starts_with (codes "git:") value
    || starts_with (codes "http:") value
    || starts_with (codes "https:") value

-- `split(':').next().unwrap()`
abbrev pub first_part : List Text → Text
first_part [] = []
first_part (p ∷ ps) = p

-- `PackageJson` of deno_node, as far as it is read.
pub record PackageJson : Type 0 where
  pub dependencies : Option (Map Text Text)
  pub dev_dependencies : Option (Map Text Text)

-- `NpmDependencyEntryKind`
pub data NpmDependencyEntryKind : Type 0 where
  dep : NpmDependencyEntryKind
  peer_dep : NpmDependencyEntryKind
  optional_peer : NpmDependencyEntryKind

pub record NpmDependencyEntry (R : Type 0) : Type 0 where
  pub kind : NpmDependencyEntryKind
  pub bare_specifier : Text
  pub name : Text
  pub version_req : R
  pub peer_dep_version_req : Option R

-- A peer is optional if its metadata says so.
abbrev pub peer_kind : Option Bool → NpmDependencyEntryKind
peer_kind none = peer_dep
peer_kind (some false) = peer_dep
peer_kind (some true) = optional_peer

module _ (sv : Semver) where
  open sv use {Req, parse_req_from_specifier, parse_req_from_npm}

  abbrev pub local_req : Text → Text → Option Req → Result DepError (NpmPackageReq sv.Req)
  local_req name text none = err (bad_specifier text)
  local_req name text (some req) = ok (record { name = name; version_req = some req })

  unfoldable pub parse_entry : Text → Text → Result DepError (NpmPackageReq sv.Req)
  unfolding parse_dep_entry_name_and_raw_version
  parse_entry key value =
      if is_unsupported value
      then err (unsupported (first_part (split b':' value)))
      else (parse_dep_entry_name_and_raw_version key value >>= λ entry.
          local_req entry.0 entry.1 (parse_req_from_specifier entry.1))

  -- `PackageJsonDeps`
  abbrev pub PackageJsonDeps : Type 0
  PackageJsonDeps = Map Text (Result DepError (NpmPackageReq sv.Req))

  unfoldable pub insert_each : Map Text Text → PackageJsonDeps → PackageJsonDeps
  insert_each [] result = result
  insert_each ((key, value) ∷ rest) result =
      insert_each rest (insert key (parse_entry key value) result)

  unfoldable pub insert_deps : Option (Map Text Text) → PackageJsonDeps → PackageJsonDeps
  insert_deps none result = result
  insert_deps (some deps) result = insert_each deps result

  unfoldable pub get_local_package_json_version_reqs : PackageJson → PackageJsonDeps
  get_local_package_json_version_reqs package_json =
      insert_deps package_json.dependencies (insert_deps package_json.dev_dependencies [])

  abbrev pub Entries : Type 0
  Entries = Map Text (NpmDependencyEntry sv.Req)

  abbrev pub entry_of :
      Text
      → NpmDependencyEntryKind
      → Text
      → Option Req
      → Result DepError (NpmDependencyEntry sv.Req)
  entry_of key kind name none = err (bad_requirement key)
  entry_of key kind name (some req) = ok (record {
    kind = kind;
    bare_specifier = key;
    name = name;
    version_req = req;
    peer_dep_version_req = none;
  })

  unfoldable pub parse_dep_entry :
      Text → Text → NpmDependencyEntryKind → Result DepError (NpmDependencyEntry sv.Req)
  parse_dep_entry key value kind = parse_dep_entry_name_and_raw_version key value >>= λ found.
      entry_of key kind found.0 (parse_req_from_npm found.1)

  unfoldable pub peer_entries : Map Text Bool → Map Text Text → Entries → Result DepError Entries
  peer_entries meta [] result = ok result
  peer_entries meta ((key, value) ∷ rest) result =
      parse_dep_entry key value (peer_kind (get key meta)) >>= λ entry.
      peer_entries meta rest (insert entry.bare_specifier entry result)

  -- A dependency that is a peer as well gives the peer its fallback.
  abbrev pub merged :
      NpmDependencyEntry sv.Req → Option (NpmDependencyEntry sv.Req) → NpmDependencyEntry sv.Req
  merged entry none = entry
  merged entry (some peer_entry) = record peer_entry {
    peer_dep_version_req = some entry.version_req;
  }

  unfoldable pub dep_entries : Map Text Text → Entries → Result DepError Entries
  dep_entries [] result = ok result
  dep_entries ((key, value) ∷ rest) result = parse_dep_entry key value dep >>= λ entry.
      dep_entries rest
        (insert entry.bare_specifier (merged entry (get entry.bare_specifier result)) result)

  -- The values of the map, with their keys.
  unfoldable pub dependencies_as_entries : NpmPackageVersionInfo → Result DepError Entries
  dependencies_as_entries info =
      peer_entries info.peer_dependencies_meta info.peer_dependencies [] >>= λ peers.
      dep_entries info.dependencies peers
