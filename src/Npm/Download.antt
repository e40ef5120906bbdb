-- ===== src/Npm/Download.antt =====
-- From the cache or from the registry: `CacheSetting` of crates/module_fetcher/src/util/
-- cache_setting.rs, `NpmCache::ensure_package` and `with_folder_sync_lock` of npm/cache.rs, and the
-- integrity check of npm/tarball.rs. What the network, the digests and the file system answer in a
-- call is an argument, `Attempt`.
pub mod Leaves
pub mod Once
mod Examples
use server_based_deno.Base.{
  ◌≡◌, Bool, true, false, ◌&&◌, ◌||◌, not, Option, none, some, List, [], ◌∷◌, ◌++◌, any, Text,
  codes, Map, get, insert, Keyed, ◌==◌, text_keyed, text_beq, Result, ok, err, split_once,
  to_lowercase, if◌then◌else◌,
}
use server_based_deno.Npm.{NpmPackageVersionDistInfo, integrity}
use server_based_deno.Npm.Id.Equality.{NpmPackageNv, nv_keyed}
use server_based_deno.Npm.Tarball.{PathBuf, Bytes, Files, TarEntry, Disk, extract_tarball}

pub data CacheSetting : Type 0 where
  only : CacheSetting
  reload_all : CacheSetting
  reload_some : List Text → CacheSetting
  respect_headers : CacheSetting
  use_cache : CacheSetting

unfoldable pub should_use_for_npm_package : CacheSetting → Text → Bool
should_use_for_npm_package reload_all name = false
should_use_for_npm_package (reload_some list) name =
    if any (λ i. i == codes "npm:") list
    then false
    else not (any (λ i. i == codes "npm:" ++ name) list)
should_use_for_npm_package only name = true
should_use_for_npm_package respect_headers name = true
should_use_for_npm_package use_cache name = true

abbrev pub is_only : CacheSetting → Bool
is_only only = true
is_only _ = false

pub data Algorithm : Type 0 where
  sha1 : Algorithm
  sha512 : Algorithm

-- The folder of a package: whether it is there, with its lock file, and the files in it. The lock
-- file is not one of them, and no tarball is taken to hold a file of its name.
pub data Folder : Type 0 where
  absent : Folder
  locked : Files → Folder
  ready : Files → Folder

abbrev pub files_of : Folder → Files
files_of absent = []
files_of (locked files) = files
files_of (ready files) = files

pub data DownloadError : Type 0 where
  not_cached : DownloadError
  failed : Text → DownloadError
  no_tarball : DownloadError
  unknown_integrity : DownloadError
  unknown_hash : Text → DownloadError
  wrong_checksum : DownloadError
  cleanup_failed : DownloadError

-- What the outside world answers: the registry, the digest in base64, the entries that the gzip and
-- tar crates find in a tarball, and the file system, which has the folder of the package at the
-- canonical path `output_folder`. A folder whose removal fails may be left in any state.
pub record Attempt : Type 0 where
  pub download : Text → Result Text (Option Bytes)
  pub digest : Algorithm → Bytes → Text
  pub lock_created : Result Text (Unit {0})
  pub archive : Bytes → Result Text (List (Result Text TarEntry))
  pub disk : Disk
  pub output_folder : PathBuf
  pub lock_removed : Bool
  pub folder_removed : Option Folder

abbrev pub algorithm_of : Text → Option Algorithm
algorithm_of hash_kind =
    if hash_kind == codes "sha512"
    then some sha512
    else (if hash_kind == codes "sha1" then some sha1 else none)

abbrev pub compared :
    Attempt → Bytes → Text → Text → Option Algorithm → Result DownloadError (Unit {0})
compared at data_bytes hash_kind checksum none = err (unknown_hash hash_kind)
compared at data_bytes hash_kind checksum (some algo) =
    if to_lowercase (at.digest algo data_bytes) == to_lowercase checksum
    then ok tt
    else err wrong_checksum

abbrev pub checked_parts : Attempt → Bytes → Option (Text × Text) → Result DownloadError (Unit {0})
checked_parts at data_bytes none = err unknown_integrity
checked_parts at data_bytes (some (hash_kind, checksum)) =
    compared at data_bytes hash_kind checksum (algorithm_of hash_kind)

unfoldable pub verify_tarball_integrity : Attempt → Bytes → Text → Result DownloadError (Unit {0})
verify_tarball_integrity at data_bytes npm_integrity =
    checked_parts at data_bytes (split_once b'-' npm_integrity)

-- After an error the folder is removed, as far as that succeeds.
abbrev pub cleaned : Option Folder → Text → Result DownloadError (Unit {0}) × Folder
cleaned none e = (err (failed e), absent)
cleaned (some left) e = (err cleanup_failed, left)

abbrev pub after_action : Attempt → Result Text Files → Result DownloadError (Unit {0}) × Folder
after_action at (err e) = cleaned at.folder_removed e
after_action at (ok files) = (ok tt, if at.lock_removed then ready files else locked files)

abbrev pub after_lock :
    Attempt → Result Text (Unit {0}) → Result Text Files → Result DownloadError (Unit {0}) × Folder
after_lock at (err e) action = cleaned at.folder_removed e
after_lock at (ok _) action = after_action at action

unfoldable pub with_folder_sync_lock :
    Attempt → Result Text Files → Result DownloadError (Unit {0}) × Folder
with_folder_sync_lock at action = after_lock at at.lock_created action

abbrev pub extract_if :
    Attempt
    → Bytes
    → Folder
    → Result DownloadError (Unit {0})
    → Result DownloadError (Unit {0}) × Folder
extract_if at data_bytes folder (err e) = (err e, folder)
extract_if at data_bytes folder (ok _) =
    with_folder_sync_lock at
      (extract_tarball at.disk at.output_folder (at.archive data_bytes) (files_of folder))

unfoldable pub verify_and_extract_tarball :
    Attempt → Bytes → NpmPackageVersionDistInfo → Folder → Result DownloadError (Unit {0}) × Folder
unfolding verify_tarball_integrity with_folder_sync_lock
verify_and_extract_tarball at data_bytes dist folder =
    extract_if at data_bytes folder (verify_tarball_integrity at data_bytes (integrity dist))

abbrev pub extract_download :
    Attempt
    → NpmPackageVersionDistInfo
    → Folder
    → Result Text (Option Bytes)
    → Result DownloadError (Unit {0}) × Folder
extract_download at dist folder (err e) = (err (failed e), folder)
extract_download at dist folder (ok none) = (err no_tarball, folder)
extract_download at dist folder (ok (some bytes)) = verify_and_extract_tarball at bytes dist folder

abbrev pub is_ready : Option Folder → Bool
is_ready (some (ready _)) = true
is_ready _ = false

abbrev pub folder_or_absent : Option Folder → Folder
folder_or_absent none = absent
folder_or_absent (some f) = f

-- `NpmCache`, with the folders on disk and the tarballs that were asked for.
pub record NpmCache (V : Type 0) : Type 0 where
  pub cache_setting : CacheSetting
  pub previously_reloaded_packages : List (NpmPackageNv V)
  pub folders : Map (NpmPackageNv V) Folder
  pub downloads : List Text

module _ {V : Type 0} ⦃version_keyed : Keyed V⦄ where
  -- `HashSet::insert` says whether the value is new.
  unfoldable pub should_use_global_cache_for_package :
      NpmPackageNv V → NpmCache V → Bool × NpmCache V
  should_use_global_cache_for_package package_nv c =
      if should_use_for_npm_package c.cache_setting package_nv.0
      then (true, c)
      else (if any (λ p. p == package_nv) c.previously_reloaded_packages then (true, c) else (
        false,
        record c { previously_reloaded_packages = package_nv ∷ c.previously_reloaded_packages },
      ))

  abbrev pub stored :
      NpmPackageNv V
      → Text
      → NpmCache V
      → Result DownloadError (Unit {0}) × Folder
      → Result DownloadError (Unit {0}) × NpmCache V
  stored package_nv tarball c (result, folder) = (
    result,
    record c { folders = insert package_nv folder c.folders; downloads = tarball ∷ c.downloads },
  )

  abbrev pub use_or_download :
      Attempt
      → NpmPackageNv V
      → NpmPackageVersionDistInfo
      → Bool × NpmCache V
      → Result DownloadError (Unit {0}) × NpmCache V
  use_or_download at package_nv dist (use_global, c) =
      if use_global && is_ready (get package_nv c.folders)
      then (ok tt, c)
      else (if is_only c.cache_setting
          then (err not_cached, c)
          else stored package_nv dist.tarball c (
              extract_download at dist (folder_or_absent (get package_nv c.folders))
                (at.download dist.tarball)))

  unfoldable pub ensure_package_inner :
      Attempt
      → NpmPackageNv V
      → NpmPackageVersionDistInfo
      → NpmCache V
      → Result DownloadError (Unit {0}) × NpmCache V
  unfolding verify_and_extract_tarball should_use_global_cache_for_package
  ensure_package_inner at package_nv dist c =
      use_or_download at package_nv dist (should_use_global_cache_for_package package_nv c)
