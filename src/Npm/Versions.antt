-- ===== src/Npm/Versions.antt =====
-- The choice of a version: crates/module_fetcher/src/npm/resolution/common.rs.
use server_based_deno.Base.{
  ℕ, zero, suc, ◌≡◌, ◌≢◌, Bool, true, false, ◌&&◌, Option, none, some, List, Text, codes, get, All,
  Result, ok, err, arith, text_keyed, ◌==◌, inl, inr, ◌⊎◌, if◌then◌else◌, bind_inv, ◌>>=◌, All-map,
}
use mathlib.Core.List.{Memᴰ}
use server_based_deno.Npm.{NpmPackageVersionInfo, NpmPackageInfo, Semver, IsStrict}
use server_based_deno.Npm.Best.{
  best_loop, Offered, best_loop-NoneAbove, best_loop-Offered, Offered-Memᴰ, Offered-candidate,
  best_loop-ne-err,
}

pub data NpmError : Type 0 where
  bad_version : Text → NpmError
  no_matching : Text → NpmError
  no_dist_tag : Text → NpmError
  no_tagged_version : Text → NpmError
  version_not_found : Text → NpmError
  out_of_fuel : NpmError

module _ (sv : Semver) where
  open sv use {Version, Req, to_string, parse_from_npm, matches, tag, lt, same}

  pub record VersionAndInfo : Type 0 where
    pub version : Version
    pub info : NpmPackageVersionInfo

  -- One round of the loop over `info.versions.values()`.
  abbrev pub matching : Req → Text → Option Version → Result NpmError (Option Version)
  matching req text none = err (bad_version text)
  matching req text (some version) = ok (if matches req version then some version else none)

  abbrev pub listed : Req → Text × NpmPackageVersionInfo → Result NpmError (Option Version)
  listed req entry = matching req entry.1.version (parse_from_npm entry.1.version)

  abbrev pub or_no_match :
      NpmPackageInfo
      → Option (Version × (Text × NpmPackageVersionInfo))
      → Result NpmError VersionAndInfo
  or_no_match info none = err (no_matching info.name)
  or_no_match info (some (v, entry)) = ok (record { version = v; info = entry.1 })

  unfoldable pub search_versions : Req → NpmPackageInfo → Result NpmError VersionAndInfo
  search_versions req info =
      best_loop lt (listed req) info.versions none >>= λ best. or_no_match info best

  abbrev pub tagged :
      Text → Option Version → Option NpmPackageVersionInfo → Result NpmError VersionAndInfo
  tagged version parsed none = err (no_tagged_version version)
  tagged version none (some info) = err (bad_version version)
  tagged version (some v) (some info) = ok (record { version = v; info = info })

  abbrev pub lookup_tag : NpmPackageInfo → Text → Option Text → Result NpmError VersionAndInfo
  lookup_tag info name none = err (no_dist_tag name)
  lookup_tag info name (some version) =
      tagged version (parse_from_npm version) (get version info.versions)

  -- `known_good` is the requirement "18.0.0 - 18.11.18" that stands for the tag "latest" of
  -- @types/node; the two functions call one another, on fuel.
  unfoldable pub get_resolved_package_version_and_info :
      ℕ → Req → Req → NpmPackageInfo → Result NpmError VersionAndInfo
  get_resolved_package_version_and_info zero known_good req info = err out_of_fuel
  get_resolved_package_version_and_info (suc fuel) known_good req info = elim (tag req) [
    | none ↦ search_versions req info
    | some t ↦
        let good = get_resolved_package_version_and_info fuel known_good known_good info in
        if t == codes "latest" && info.name == codes "@types/node"
        then good
        else lookup_tag info t (get t info.dist_tags)
  ]

  unfoldable pub tag_to_version_info :
      ℕ → Req → NpmPackageInfo → Text → Result NpmError VersionAndInfo
  tag_to_version_info fuel known_good info t =
      if t == codes "latest" && info.name == codes "@types/node"
      then get_resolved_package_version_and_info fuel known_good known_good info
      else lookup_tag info t (get t info.dist_tags)

  unfoldable pub version_req_satisfies : Req → Req → Version → NpmPackageInfo → Result NpmError Bool
  version_req_satisfies known_good req version info = elim (tag req) [
    | some t ↦ tag_to_version_info 2 known_good info t >>= λ vi. ok (same vi.version version)
    | none ↦ ok (matches req version)
  ]

  -- One round of the loop over the versions that are in use already.
  abbrev pub in_use : Req → Req → NpmPackageInfo → Version → Result NpmError (Option Version)
  in_use known_good req info version = version_req_satisfies known_good req version info >>= λ fits.
      ok (if fits then some version else none)

  unfoldable pub resolve_best_from_existing_versions :
      Req → Req → NpmPackageInfo → List Version → Result NpmError (Option (Version × Version))
  resolve_best_from_existing_versions known_good req info existing =
      best_loop lt (in_use known_good req info) existing none

  abbrev pub known_version : Version → Option NpmPackageVersionInfo → Result NpmError VersionAndInfo
  known_version v none = err (version_not_found (to_string v))
  known_version v (some info) = ok (record { version = v; info = info })

  abbrev pub existing_or_new :
      Req → Req → NpmPackageInfo → Option (Version × Version) → Result NpmError VersionAndInfo
  existing_or_new known_good req info (some (v, _)) =
      known_version v (get (to_string v) info.versions)
  existing_or_new known_good req info none =
      get_resolved_package_version_and_info 2 known_good req info

  unfoldable pub resolve_best_package_version_and_info :
      Req → Req → NpmPackageInfo → List Version → Result NpmError VersionAndInfo
  unfolding resolve_best_from_existing_versions
  resolve_best_package_version_and_info known_good req info existing =
      resolve_best_from_existing_versions known_good req info existing >>= λ best.
      existing_or_new known_good req info best

  search-ne-out_of_fuel :
      (req : Req) (info : NpmPackageInfo) → search_versions req info ≢ err out_of_fuel
  unfolding search_versions
  search-ne-out_of_fuel req info h =
      let round = λ (e : Text × NpmPackageVersionInfo). listed-ne-out_of_fuel e in
      let loop = best_loop-ne-err lt (listed req) out_of_fuel round info.versions none in
      ground arith
    where
      listed-ne-out_of_fuel : (e : Text × NpmPackageVersionInfo) → listed req e ≢ err out_of_fuel
      listed-ne-out_of_fuel e = ground arith

  search_versions_inv :
      (req : Req) (info : NpmPackageInfo) (found : VersionAndInfo)
      → search_versions req info ≡ ok found
      → (entry : Text × NpmPackageVersionInfo) × (best_loop lt (listed req) info.versions none
          ≡ ok (some (found.version, entry)))
        × (found.info ≡ entry.1)
  unfolding search_versions
  search_versions_inv req info found h =
      let (best, e, q) =
        bind_inv (best_loop lt (listed req) info.versions none) (λ best. or_no_match info best)
          found h in
      go best e q
    where
      go :
          (best : Option (Version × (Text × NpmPackageVersionInfo)))
          → or_no_match info best ≡ ok found
          → best_loop lt (listed req) info.versions none ≡ ok best
          → (entry : Text × NpmPackageVersionInfo) × (best_loop lt (listed req) info.versions none
              ≡ ok (some (found.version, entry)))
            × (found.info ≡ entry.1)
      go none e q = cc
      go (some (v, entry)) e q = (entry, ground arith, ground arith)

  -- The two functions that call one another end: whatever the requirement, its tag and the
  -- package, two rounds are enough, if "18.0.0 - 18.11.18" is a range and not a tag.
  pub get_resolved-ne-out_of_fuel :
      (known_good req : Req) (info : NpmPackageInfo)
      → tag known_good ≡ none
      → get_resolved_package_version_and_info 2 known_good req info ≢ err out_of_fuel
  unfolding get_resolved_package_version_and_info
  get_resolved-ne-out_of_fuel known_good req info range h =
      ground (arith, search-ne-out_of_fuel req info, search-ne-out_of_fuel known_good info)

  -- Among the published versions the search takes one that the requirement matches, with its own
  -- record, and no published version that it matches is greater.
  pub search_versions-best :
      (req : Req) (info : NpmPackageInfo) (found : VersionAndInfo)
      → IsStrict lt
      → search_versions req info ≡ ok found
      → (entry : Text × NpmPackageVersionInfo) × (found.info ≡ entry.1)
        × Memᴰ entry info.versions
        × (parse_from_npm entry.1.version ≡ some found.version)
        × (matches req found.version ≡ true)
        × All
            (λ e.
              (w : Version)
              → parse_from_npm e.1.version ≡ some w
              → matches req w ≡ true
              → lt found.version w ≡ false)
            info.versions
  search_versions-best req info found strict h =
      let (entry, chosen, same_info) = search_versions_inv req info found h in
      let offered = offered_of (best_loop-Offered lt (listed req) info.versions none _ _ chosen) in
      let c = Offered-candidate lt (listed req) offered in
      let above = best_loop-NoneAbove lt (listed req) strict info.versions none _ _ chosen in
      (
        entry,
        same_info,
        Offered-Memᴰ lt (listed req) offered,
        ground arith,
        ground arith,
        All-map info.versions (λ e k w p m. k w (ground arith)) above,
      )
    where
      offered_of :
          {v : Version} {entry : Text × NpmPackageVersionInfo}
          → ◌≡◌ {A = Option (Version × (Text × NpmPackageVersionInfo))} none (some (v, entry))
            ⊎ Offered lt (listed req) v entry info.versions
          → Offered lt (listed req) v entry info.versions
      offered_of (inl e) = cc e
      offered_of (inr o) = o
