-- ===== src/Npm/Snapshot.antt =====
-- The resolved packages and what is asked of them: crates/module_fetcher/src/npm/resolution/
-- snapshot.rs, with `NpmResolutionPackage` of mod.rs and `NpmPackageCacheFolderId` of npm/cache.rs.
pub mod Names
pub mod Partition
pub mod Lookup
pub mod Lockfile
pub mod Examples
use server_based_deno.Base.{
  ℕ, zero, suc, ◌+◌, ◌≡◌, ◌≢◌, refl, Bool, true, false, ◌&&◌, Option, none, some, List, [], ◌∷◌,
  ◌++◌, Text, codes, Map, get, Keyed, ◌==◌, text_keyed, nat_keyed, Result, ok, err, nat_beq, ltb,
  length, take, drop, starts_with, if◌then◌else◌, ◌>>=◌,
}
use mathlib.Core.Option
use server_based_deno.Npm.{Semver, NpmPackageVersionDistInfo}
use server_based_deno.Npm.Best.{best_loop}
use server_based_deno.Npm.Id.{NpmPackageId, npm_package_id}
use server_based_deno.Npm.Id.Equality.{NpmPackageNv, nv, nv_keyed, id_keyed}

-- Of deno_graph.
pub record NpmPackageReq (R : Type 0) : Type 0 where
  pub name : Text
  pub version_req : Option R

pub record NpmPackageCacheFolderId (V : Type 0) : Type 0 where
  pub nv : NpmPackageNv V
  pub copy_index : ℕ

pub record NpmResolutionPackage (V : Type 0) : Type 0 where
  pub pkg_id : NpmPackageId V
  pub copy_index : ℕ
  pub dist : NpmPackageVersionDistInfo
  pub dependencies : Map Text (NpmPackageId V)

unfoldable pub get_package_cache_folder_id :
    {V : Type 0} → NpmResolutionPackage V → NpmPackageCacheFolderId V
get_package_cache_folder_id p = record { nv = nv p.pkg_id; copy_index = p.copy_index }

pub record NpmResolutionSnapshot (V R : Type 0) : Type 0 where
  pub package_reqs : Map (NpmPackageReq R) (NpmPackageNv V)
  pub root_packages : Map (NpmPackageNv V) (NpmPackageId V)
  pub packages_by_name : Map Text (List (NpmPackageId V))
  pub packages : Map (NpmPackageId V) (NpmResolutionPackage V)
  pub pending_unresolved_packages : List (NpmPackageNv V)

-- A lookup fails with a message, or an `unwrap` panics.
pub data LookupError : Type 0 where
  could_not_find : LookupError
  panicked : LookupError

-- `str::find(char)`; the characters before and at a slash take one byte each or are cut whole.
abbrev pub find : ℕ → Text → Option ℕ
find c [] = none
find c (d ∷ s) = let later = Option.map suc (find c s) in if nat_beq d c then some 0 else later

abbrev pub after_slash : Option ℕ → ℕ
after_slash none = 0
after_slash (some slash_index) = slash_index + 1

abbrev pub up_to_slash : Text → ℕ → Option ℕ → Text
up_to_slash name start none = name
up_to_slash name start (some slash_index) = take (start + slash_index) name

unfoldable pub name_without_path : Text → Text
name_without_path name =
    let search_start_index =
      (if starts_with (b'@' ∷ []) name then after_slash (find b'/' name) else 0) in
    up_to_slash name search_start_index (find b'/' (drop search_start_index name))

abbrev pub unwrapped : {A : Type 0} → Option A → Result LookupError A
unwrapped none = err panicked
unwrapped (some a) = ok a

abbrev pub or_not_found :
    {A B : Type 0} → Option A → (A → Result LookupError B) → Result LookupError B
or_not_found none k = err could_not_find
or_not_found (some a) k = k a

abbrev pub or_empty : {A : Type 0} → Option (List A) → List A
or_empty none = []
or_empty (some l) = l

module _ (sv : Semver) ⦃version_keyed : Keyed sv.Version⦄
    ⦃req_keyed : Keyed (NpmPackageReq sv.Req)⦄ where
  open sv use {Version, Req, matches, lt, parse_req_from_npm}

  unfoldable pub is_empty : NpmResolutionSnapshot Version Req → Bool
  is_empty s = nat_beq (length s.packages) 0 && nat_beq (length s.pending_unresolved_packages) 0

  unfoldable pub resolve_package_from_deno_module :
      NpmPackageNv Version
      → NpmResolutionSnapshot Version Req
      → Result LookupError (NpmResolutionPackage Version)
  resolve_package_from_deno_module id s =
      or_not_found (get id s.root_packages) λ root. unwrapped (get root s.packages)

  unfoldable pub resolve_pkg_from_pkg_req :
      NpmPackageReq sv.Req
      → NpmResolutionSnapshot Version Req
      → Result LookupError (NpmResolutionPackage Version)
  resolve_pkg_from_pkg_req req s =
      or_not_found (get req s.package_reqs) λ id. resolve_package_from_deno_module id s

  abbrev pub fitting : Req → NpmPackageId Version → Result ⊥ (Option Version)
  fitting req (npm_package_id name version peers) =
      ok (if matches req version then some version else none)

  abbrev pub best_id :
      Result ⊥ (Option (Version × NpmPackageId Version)) → Option (NpmPackageId Version)
  best_id (ok none) = none
  best_id (ok (some (version, id))) = some id
  best_id (err e) = absurd e

  unfoldable pub resolve_best_package_id :
      Text → Req → NpmResolutionSnapshot Version Req → Option (NpmPackageId Version)
  resolve_best_package_id name req s =
      best_id (best_loop lt (fitting req) (or_empty (get name s.packages_by_name)) none)

  abbrev pub with_index :
      ℕ
      → Option (NpmResolutionPackage Version)
      → Option (NpmResolutionPackage Version)
      → Option (NpmResolutionPackage Version)
  with_index index none rest = rest
  with_index index (some p) rest = if nat_beq p.copy_index index then some p else rest

  -- The first id of the referrer's name with its version and its copy index.
  unfoldable pub find_referrer :
      NpmPackageCacheFolderId Version
      → NpmResolutionSnapshot Version Req
      → List (NpmPackageId Version)
      → Option (NpmResolutionPackage Version)
  find_referrer referrer s [] = none
  find_referrer referrer s (id ∷ ids) =
      let rest = find_referrer referrer s ids in
      if (nv id).1 == referrer.nv.1
      then with_index referrer.copy_index (get id s.packages) rest
      else rest

  abbrev pub best_any :
      Option Req
      → Text
      → NpmResolutionSnapshot Version Req
      → Result LookupError (NpmResolutionPackage Version)
  best_any none name s = err panicked
  best_any (some any_version_req) name s =
      or_not_found (resolve_best_package_id name any_version_req s)
        λ id. or_not_found (get id s.packages) ok

  abbrev pub dependency_or_best :
      Text
      → NpmResolutionPackage Version
      → Option (NpmPackageId Version)
      → NpmResolutionSnapshot Version Req
      → Result LookupError (NpmResolutionPackage Version)
  dependency_or_best name referrer (some id) s = unwrapped (get id s.packages)
  dependency_or_best name referrer none s =
      if (nv referrer.pkg_id).0 == name
      then ok referrer
      else best_any (parse_req_from_npm (codes "*")) name s

  unfoldable pub resolve_package_from_package :
      Text
      → NpmPackageCacheFolderId Version
      → NpmResolutionSnapshot Version Req
      → Result LookupError (NpmResolutionPackage Version)
  unfolding find_referrer name_without_path
  resolve_package_from_package name referrer s =
      or_not_found (find_referrer referrer s (or_empty (get referrer.nv.0 s.packages_by_name)))
        λ found.
          let bare = name_without_path name in
          dependency_or_best bare found (get bare found.dependencies) s

-- `Vec::swap_remove`: the last element takes the place of the one that goes.
abbrev pub rotate : {A : Type 0} → List A → List A
rotate [] = []
rotate (x ∷ []) = x ∷ []
rotate (x ∷ y ∷ xs) = elim (rotate (y ∷ xs)) [ [] ↦ x ∷ [] | z ∷ zs ↦ z ∷ x ∷ zs ]

abbrev pub swap_out : {A : Type 0} → List A → List A → Option (A × List A)
swap_out front [] = none
swap_out front (x ∷ back) = some (x, front ++ rotate back)

unfoldable pub swap_remove : {A : Type 0} → ℕ → List A → Option (A × List A)
swap_remove i xs = swap_out (take i xs) (drop i xs)

pub record NpmPackagesPartitioned (V : Type 0) : Type 0 where
  pub packages : List (NpmResolutionPackage V)
  pub copy_packages : List (NpmResolutionPackage V)

abbrev pub next_package : {A : Type 0} → List A → Option A
next_package [] = none
next_package (x ∷ xs) = some x

module _ {V : Type 0} where
  unfoldable pub into_all : NpmPackagesPartitioned V → List (NpmResolutionPackage V)
  into_all p = p.packages ++ p.copy_packages

  -- `for i in (0..packages.len()).rev()`; an index out of range panics.
  unfoldable pub partition_down :
      ℕ
      → List (NpmResolutionPackage V)
      → List (NpmResolutionPackage V)
      → Option (NpmPackagesPartitioned V)
  unfolding swap_remove
  partition_down zero packages copies =
      some (record { packages = packages; copy_packages = copies })
  partition_down (suc i) packages copies = elim (next_package (drop i packages)) [
    | none ↦ none
    | some p ↦ elim (ltb 0 p.copy_index) [
      | false ↦ partition_down i packages copies
      | true ↦ elim (swap_remove i packages) [
        | none ↦ none
        | some (removed, rest) ↦ partition_down i rest (copies ++ removed ∷ [])
      ]
    ]
  ]

  unfoldable pub all_packages_partitioned :
      List (NpmResolutionPackage V) → Option (NpmPackagesPartitioned V)
  all_packages_partitioned packages = partition_down (length packages) packages []
