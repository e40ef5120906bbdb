-- ===== src/Npm/Cache.antt =====
-- Where npm packages lie on disk: `ReadonlyNpmCache` of crates/module_fetcher/src/npm/cache.rs. A
-- path is the list of its segments below the folder of the registry, and a specifier is taken for
-- the relative URL that `make_relative` gives for that folder. The crates base32 and url are
-- parameters.
pub mod Urls
pub mod Folders
mod Examples
use server_based_deno.Base.{
  ℕ, ◌≡◌, Bool, true, false, Option, none, some, List, [], ◌∷◌, ◌++◌, map, Text, codes, text_keyed,
  text_beq, ◌==◌, nat_beq, ltb, length, take, starts_with, strip_prefix, split, join, split_once,
  to_lowercase, print_usize, parse_usize, if◌then◌else◌,
}
use server_based_deno.Npm.{Semver}
use server_based_deno.Npm.MixedCase.{
  Base32, mixed_case_package_name_encode, mixed_case_package_name_decode,
}
use server_based_deno.Npm.Id.Equality.{NpmPackageNv}
use server_based_deno.Npm.Snapshot.{NpmPackageCacheFolderId}

-- The crate url: a segment of a file's path as it stands in the URL of the file.
pub record UrlPaths : Type 0 where
  pub percent_encode : Text → Text

-- `make_relative` from the folder of the registry to a file below it.
unfoldable pub relative_url : UrlPaths → List Text → Text
relative_url urls segments = join b'/' (map urls.percent_encode segments)

module _ (sv : Semver) (base32 : Base32) where
  open sv use {Version, to_string, parse_from_npm}

  unfoldable pub with_no_count : NpmPackageCacheFolderId Version → NpmPackageCacheFolderId Version
  with_no_count id = record { nv = id.nv; copy_index = 0 }

  unfoldable pub package_name_folder : Text → List Text
  package_name_folder name =
      if to_lowercase name == name
      then split b'/' name
      else (b'_' ∷ mixed_case_package_name_encode base32 name) ∷ []

  unfoldable pub package_folder_for_name_and_version : NpmPackageNv Version → List Text
  package_folder_for_name_and_version (name, version) =
      package_name_folder name ++ to_string version ∷ []

  unfoldable pub package_folder_for_id : NpmPackageCacheFolderId Version → List Text
  unfolding package_name_folder package_folder_for_name_and_version
  package_folder_for_id folder_id =
      if nat_beq folder_id.copy_index 0
      then package_folder_for_name_and_version folder_id.nv
      else package_name_folder folder_id.nv.0
        ++ (to_string folder_id.nv.1 ++ b'_' ∷ print_usize folder_id.copy_index) ∷ []

  -- `parts.pop()`, and what is left.
  abbrev pub pop : List Text → Option (List Text × Text)
  pop [] = none
  pop (p ∷ []) = some ([], p)
  pop (p ∷ q ∷ ps) = elim (pop (q ∷ ps)) [
    | none ↦ none
    | some (front, last) ↦ some (p ∷ front, last)
  ]

  abbrev pub with_version : Text → ℕ → Option Version → Option (NpmPackageCacheFolderId Version)
  with_version name index none = none
  with_version name index (some version) =
      some (record { nv = (name, version); copy_index = index })

  abbrev pub with_count : Text → Text → Option ℕ → Option (NpmPackageCacheFolderId Version)
  with_count name version none = none
  with_count name version (some copy_index) = with_version name copy_index (parse_from_npm version)

  abbrev pub read_version :
      Text → Text → Option (Text × Text) → Option (NpmPackageCacheFolderId Version)
  read_version name version_part none = with_version name 0 (parse_from_npm version_part)
  read_version name version_part (some (version, copy_count)) =
      with_count name version (parse_usize copy_count)

  abbrev pub read_popped : Option (List Text × Text) → Option (NpmPackageCacheFolderId Version)
  read_popped none = none
  read_popped (some (parts, version_part)) =
      read_version (join b'/' parts) version_part (split_once b'_' version_part)

  unfoldable pub read_parts : Text → Option (NpmPackageCacheFolderId Version)
  read_parts relative_url =
      let parts =
        take (if starts_with (b'@' ∷ []) relative_url then 3 else 2) (split b'/' relative_url) in
      if ltb (length parts) 2 then none else read_popped (pop parts)

  abbrev pub decode_first : List Text → Option Text
  decode_first [] = none
  decode_first (p ∷ ps) = elim (mixed_case_package_name_decode base32 p) [
    | none ↦ none
    | some part ↦ some (join b'/' (part ∷ ps))
  ]

  -- base32 decode the url if it starts with an underscore
  abbrev pub decoded : Text → Option Text → Option Text
  decoded relative_url none = some relative_url
  decoded relative_url (some end_url) = decode_first (split b'/' end_url)

  abbrev pub read_decoded : Option Text → Option (NpmPackageCacheFolderId Version)
  read_decoded none = none
  read_decoded (some relative_url) = read_parts relative_url

  unfoldable pub maybe_resolve_package_folder_id_from_specifier :
      Option Text → Option (NpmPackageCacheFolderId Version)
  unfolding read_parts
  maybe_resolve_package_folder_id_from_specifier none = none
  maybe_resolve_package_folder_id_from_specifier (some relative_url) =
      if starts_with (codes "../") relative_url
      then none
      else read_decoded (decoded relative_url (strip_prefix (codes "_") relative_url))
