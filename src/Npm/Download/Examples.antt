-- ===== src/Npm/Download/Examples.antt =====
-- A package that is downloaded under `--reload`, and one that is used from then on.
use server_based_deno.Base.{
  ◌≡◌, refl, Bool, true, none, some, [], ◌∷◌, codes, get, text_beq, insert, to_lowercase,
  split_once, ok, err,
}
use server_based_deno.Npm.{NpmPackageVersionDistInfo, integrity}
use server_based_deno.Npm.Id.Equality.{NpmPackageNv, nv_keyed}
use server_based_deno.Npm.Snapshot.Examples.{bool_keyed}
use server_based_deno.Npm.Tarball.{
  regular, extract_tarball, extract_entries, extract_entry, created, canonicalize, path_starts_with,
  path_beq,
}
use server_based_deno.Npm.Download.{
  reload_all, ready, Attempt, NpmCache, ensure_package_inner, should_use_global_cache_for_package,
  should_use_for_npm_package, verify_and_extract_tarball, verify_tarball_integrity,
  with_folder_sync_lock,
}
use server_based_deno.Npm.Download.Once.{downloaded_once}

abbrev chalk : NpmPackageNv Bool
chalk = (codes "chalk", true)

abbrev dist : NpmPackageVersionDistInfo
dist = record { tarball = codes "chalk.tgz"; shasum = codes "ABC"; integrity_field = none }

abbrev online : Attempt
online = record {
  download = λ url. ok (some (codes "tar"));
  digest = λ algo bytes. codes "aBc";
  lock_created = ok tt;
  archive = λ bytes. ok (
      ok (record {
        path = ok (codes "package" ∷ codes "index.js" ∷ []);
        entry_type = regular;
        contents = bytes;
      })
      ∷ []);
  disk = record { create_dir_all = λ p. ok tt; unpack = λ p. ok tt };
  output_folder = codes "npm" ∷ codes "chalk" ∷ [];
  lock_removed = true;
  folder_removed = none;
}

abbrev offline : Attempt
offline = record {
  download = λ url. err (codes "no network");
  digest = λ algo bytes. [];
  lock_created = ok tt;
  archive = λ bytes. err (codes "not a gzip archive");
  disk = record { create_dir_all = λ p. ok tt; unpack = λ p. ok tt };
  output_folder = codes "npm" ∷ codes "chalk" ∷ [];
  lock_removed = true;
  folder_removed = none;
}

abbrev reloading : NpmCache Bool
reloading = record {
  cache_setting = reload_all;
  previously_reloaded_packages = [];
  folders = (chalk, ready []) ∷ [];
  downloads = [];
}

first_call : (ensure_package_inner online chalk dist reloading).0 ≡ ok tt
unfolding ensure_package_inner should_use_global_cache_for_package should_use_for_npm_package
    verify_and_extract_tarball verify_tarball_integrity with_folder_sync_lock integrity split_once
    text_beq to_lowercase get extract_tarball extract_entries extract_entry created canonicalize
    path_starts_with path_beq insert
first_call = refl

reloads_once :
    (ensure_package_inner online chalk dist reloading).1.downloads ≡ codes "chalk.tgz" ∷ []
unfolding ensure_package_inner should_use_global_cache_for_package should_use_for_npm_package
    verify_and_extract_tarball verify_tarball_integrity with_folder_sync_lock integrity split_once
    text_beq to_lowercase get extract_tarball extract_entries extract_entry created canonicalize
    path_starts_with path_beq insert
reloads_once = refl

files_unpacked :
    get chalk (ensure_package_inner online chalk dist reloading).1.folders
    ≡ some (ready ((codes "npm" ∷ codes "chalk" ∷ codes "index.js" ∷ [], codes "tar") ∷ []))
unfolding ensure_package_inner should_use_global_cache_for_package should_use_for_npm_package
    verify_and_extract_tarball verify_tarball_integrity with_folder_sync_lock integrity split_once
    text_beq to_lowercase get extract_tarball extract_entries extract_entry created canonicalize
    path_starts_with path_beq insert
files_unpacked = refl

downloaded_once_example :
    ensure_package_inner offline chalk dist (ensure_package_inner online chalk dist reloading).1
    ≡ (ok tt, (ensure_package_inner online chalk dist reloading).1)
downloaded_once_example = downloaded_once online offline chalk dist dist reloading refl first_call
