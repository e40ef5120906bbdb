-- ===== src/Npm/Download/Once.antt =====
-- `NpmCache::ensure_package` as a whole, and one call after another
-- (crates/module_fetcher/src/npm/cache.rs).
use server_based_deno.Base.{
  ◌≡◌, refl, sym, ap, subst, ◌∙◌, Bool, true, false, ◌&&◌, ◌||◌, Option, none, some, ◌∷◌, any, get,
  insert, get-insert_self, Keyed, ◌==◌, text_keyed, Result, ok, err, Bool-cases, inl, inr,
}
use server_based_deno.Npm.{NpmPackageVersionDistInfo}
use server_based_deno.Npm.Id.Equality.{NpmPackageNv, nv_keyed, nv_same_iff}
use server_based_deno.Npm.Tarball.{Files}
use server_based_deno.Npm.Download.{
  should_use_for_npm_package, is_only, Folder, absent, locked, ready, DownloadError, Attempt,
  is_ready, folder_or_absent, NpmCache, should_use_global_cache_for_package, stored,
  use_or_download, ensure_package_inner,
}
use server_based_deno.Npm.Download.Leaves.{Leaves, Leaves-download, Leaves-ready}

is_ready_lem : (o : Option Folder) → is_ready o ≡ true → (files : Files) × (o ≡ some (ready files))
is_ready_lem none h = cc
is_ready_lem (some absent) h = cc
is_ready_lem (some (locked files)) h = cc
is_ready_lem (some (ready files)) h = (files, refl)

and_both : (a b : Bool) → (a && b) ≡ true → b ≡ true
and_both true b h = h
and_both false b h = cc

module _ {V : Type 0} ⦃version_keyed : Keyed V⦄ where
  -- The cache with the same folders and the same downloads; what was reloaded may differ.
  pub record IsSameDisk (c c' : NpmCache V) : Type 0 where
    pub folders : c'.folders ≡ c.folders
    pub downloads : c'.downloads ≡ c.downloads

  -- What becomes of a package that is to be there.
  pub data Ensures (at : Attempt) (package_nv : NpmPackageNv V) (dist : NpmPackageVersionDistInfo)
      (c : NpmCache V) : Result DownloadError (Unit {0}) × NpmCache V → Type 0 where
    cached :
        (files : Files) (c' : NpmCache V)
        → get package_nv c.folders ≡ some (ready files)
        → IsSameDisk c c'
        → Ensures at package_nv dist c (ok tt, c')
    refused :
        (e : DownloadError) (c' : NpmCache V)
        → is_only c.cache_setting ≡ true
        → IsSameDisk c c'
        → Ensures at package_nv dist c (err e, c')
    downloaded :
        (r : Result DownloadError (Unit {0})) (folder : Folder) (c' : NpmCache V)
        → Leaves at dist (folder_or_absent (get package_nv c.folders)) (r, folder)
        → c'.folders ≡ insert package_nv folder c.folders
        → c'.downloads ≡ dist.tarball ∷ c.downloads
        → Ensures at package_nv dist c (r, c')

  module _ (at : Attempt) (package_nv : NpmPackageNv V) (dist : NpmPackageVersionDistInfo) where
    stored-Ensures :
        (c c1 : NpmCache V) (x : Result DownloadError (Unit {0}) × Folder)
        → IsSameDisk c c1
        → Leaves at dist (folder_or_absent (get package_nv c1.folders)) x
        → Ensures at package_nv dist c (stored package_nv dist.tarball c1 x)
    stored-Ensures c c1 (r, folder) same leaves =
        downloaded r folder _
          (subst (λ m. Leaves at dist (folder_or_absent (get package_nv m)) (r, folder))
            same.folders leaves)
          (ap (insert package_nv folder) same.folders) (ap (λ l. dist.tarball ∷ l) same.downloads)

    use_or_download-Ensures :
        (c c1 : NpmCache V) (use_global : Bool)
        → IsSameDisk c c1
        → c1.cache_setting ≡ c.cache_setting
        → Ensures at package_nv dist c (use_or_download at package_nv dist (use_global, c1))
    use_or_download-Ensures c c1 use_global same setting =
        elim (Bool-cases (use_global && is_ready (get package_nv c1.folders))) [
          | inl hit ↦
              let (files, here) =
                is_ready_lem (get package_nv c1.folders) (and_both use_global _ hit) in
              rw hit (cached files c1 (ap (get package_nv) (sym same.folders) ∙ here) same)
          | inr miss ↦ elim (Bool-cases (is_only c1.cache_setting)) [
            | inl only_cached ↦
                rw miss
                  (rw only_cached (refused _ c1 (ap is_only (sym setting) ∙ only_cached) same))
            | inr free ↦ rw miss (
                rw free (
                  stored-Ensures c c1 _ same (
                    Leaves-download at dist (folder_or_absent (get package_nv c1.folders))
                      (at.download dist.tarball) refl)))
          ]
        ]

    pub ensure_package_inner-Ensures :
        (c : NpmCache V) → Ensures at package_nv dist c (ensure_package_inner at package_nv dist c)
    unfolding ensure_package_inner should_use_global_cache_for_package
    ensure_package_inner-Ensures c =
        let same : IsSameDisk c c = record { folders = refl; downloads = refl } in
        elim (Bool-cases (should_use_for_npm_package c.cache_setting package_nv.0)) [
          | inl by_setting ↦ rw by_setting (use_or_download-Ensures c c true same refl)
          | inr reload ↦
              rw reload
                (elim (Bool-cases (any (λ p. p == package_nv) c.previously_reloaded_packages)) [
                  | inl again ↦ rw again (use_or_download-Ensures c c true same refl)
                  | inr first ↦ rw first (
                      use_or_download-Ensures c _ false
                        (record { folders = refl; downloads = refl }) refl)
                ])
        ]

  -- Packages that are used from the cache if they are there.
  abbrev uses_cache : NpmPackageNv V → NpmCache V → Bool
  uses_cache package_nv c =
      should_use_for_npm_package c.cache_setting package_nv.0
      || any (λ p. p == package_nv) c.previously_reloaded_packages

  used_if_ready :
      (at : Attempt) (package_nv : NpmPackageNv V) (dist : NpmPackageVersionDistInfo)
      (c : NpmCache V)
      → uses_cache package_nv c ≡ true
      → is_ready (get package_nv c.folders) ≡ true
      → ensure_package_inner at package_nv dist c ≡ (ok tt, c)
  unfolding ensure_package_inner should_use_global_cache_for_package
  used_if_ready at package_nv dist c uses here =
      elim (Bool-cases (should_use_for_npm_package c.cache_setting package_nv.0)) [
        | inl by_setting ↦ rw by_setting (rw here refl)
        | inr reload ↦
            let again : any (λ p. p == package_nv) c.previously_reloaded_packages ≡ true =
              rw reload at uses in
            rw reload (rw again (rw here refl))
      ]

  uses_kept :
      (at : Attempt) (package_nv : NpmPackageNv V) (dist : NpmPackageVersionDistInfo)
      (use_global : Bool) (c : NpmCache V)
      → uses_cache package_nv (use_or_download at package_nv dist (use_global, c)).1
        ≡ uses_cache package_nv c
  uses_kept at package_nv dist use_global c =
      elim (Bool-cases (use_global && is_ready (get package_nv c.folders))) [
        | inl hit ↦ rw hit refl
        | inr miss ↦ elim (Bool-cases (is_only c.cache_setting)) [
          | inl only_cached ↦ rw miss (rw only_cached refl)
          | inr free ↦ rw miss (rw free refl)
        ]
      ]

  uses_from_now :
      (package_nv : NpmPackageNv V) (c : NpmCache V)
      → uses_cache package_nv (should_use_global_cache_for_package package_nv c).1 ≡ true
  unfolding should_use_global_cache_for_package
  uses_from_now package_nv c =
      elim (Bool-cases (should_use_for_npm_package c.cache_setting package_nv.0)) [
        | inl by_setting ↦ rw by_setting (rw by_setting refl)
        | inr reload ↦
            elim (Bool-cases (any (λ p. p == package_nv) c.previously_reloaded_packages)) [
              | inl again ↦ rw reload (rw again (rw reload again))
              | inr first ↦
                  let own : package_nv == package_nv ≡ true =
                    (nv_same_iff package_nv package_nv).1 refl in
                  rw reload (rw first (rw reload (rw own refl)))
            ]
      ]

  uses_afterwards :
      (at : Attempt) (package_nv : NpmPackageNv V) (dist : NpmPackageVersionDistInfo)
      (c : NpmCache V)
      → uses_cache package_nv (ensure_package_inner at package_nv dist c).1 ≡ true
  unfolding ensure_package_inner
  uses_afterwards at package_nv dist c =
      let next = should_use_global_cache_for_package package_nv c in
      uses_kept at package_nv dist next.0 next.1 ∙ uses_from_now package_nv c

  Ensures-ready :
      (at : Attempt) (package_nv : NpmPackageNv V) (dist : NpmPackageVersionDistInfo)
      (c : NpmCache V) (x : Result DownloadError (Unit {0}) × NpmCache V)
      → at.lock_removed ≡ true
      → Ensures at package_nv dist c x
      → x.0 ≡ ok tt
      → is_ready (get package_nv x.1.folders) ≡ true
  Ensures-ready at package_nv dist c x unlocked (cached files c' here same) h =
      ap is_ready (ap (get package_nv) same.folders ∙ here)
  Ensures-ready at package_nv dist c x unlocked (refused e c' o same) h = cc
  Ensures-ready at package_nv dist c x unlocked (downloaded r folder c' leaves folders d) h =
      let e = Leaves-ready at dist _ (r, folder) unlocked leaves h in
      ap is_ready (ap (get package_nv) folders ∙ get-insert_self package_nv folder c.folders) ∙ e

  -- Whatever the setting, a package that was made ready once is used from the cache from then on:
  -- nothing is downloaded and nothing changes, if the first call could remove its lock file.
  pub downloaded_once :
      (at at' : Attempt) (package_nv : NpmPackageNv V) (dist dist' : NpmPackageVersionDistInfo)
      (c : NpmCache V)
      → at.lock_removed ≡ true
      → (ensure_package_inner at package_nv dist c).0 ≡ ok tt
      → ensure_package_inner at' package_nv dist' (ensure_package_inner at package_nv dist c).1
        ≡ (ok tt, (ensure_package_inner at package_nv dist c).1)
  downloaded_once at at' package_nv dist dist' c unlocked done =
      used_if_ready at' package_nv dist' (ensure_package_inner at package_nv dist c).1
        (uses_afterwards at package_nv dist c)
        (Ensures-ready at package_nv dist c (ensure_package_inner at package_nv dist c) unlocked
          (ensure_package_inner-Ensures at package_nv dist c) done)
