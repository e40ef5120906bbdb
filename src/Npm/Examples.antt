-- ===== src/Npm/Examples.antt =====
-- A semantic versioning of one number, and the theorems on npm packages at it.
use server_based_deno.Base.{
  ℕ, ◌+◌, ◌-◌, ◌≡◌, ◌≢◌, refl, Bool, true, false, Option, none, some, [], ◌∷◌, Text, codes, ok, err,
  arith, text_keyed, text_beq, get, ltb, leb, nat_beq, All,
}
use mathlib.Core.List.{Memᴰ}
use server_based_deno.Npm.{NpmPackageVersionInfo, NpmPackageInfo, Semver, IsStrict}
use server_based_deno.Npm.Best.{best_loop}
use server_based_deno.Npm.Versions.{
  VersionAndInfo, out_of_fuel, search_versions, get_resolved_package_version_and_info,
  resolve_best_package_version_and_info, version_req_satisfies, search_versions-best,
  get_resolved-ne-out_of_fuel,
}

-- A version `n` is written as the digit of `n`; a requirement is a lower bound, or the tag `latest`.
data OneReq : Type 0 where
  at_least : ℕ → OneReq
  latest : OneReq

abbrev digit : ℕ → Text
digit n = (n + b'0') ∷ []

abbrev undigit : Text → Option ℕ
undigit (c ∷ []) = some (c - b'0')
undigit _ = none

abbrev one_matches : OneReq → ℕ → Bool
one_matches (at_least m) n = leb m n
one_matches latest n = false

abbrev one_tag : OneReq → Option Text
one_tag (at_least m) = none
one_tag latest = some (codes "latest")

abbrev one : Semver
one = record {
  Version = ℕ;
  Req = OneReq;
  to_string = digit;
  parse_from_npm = undigit;
  parse_req_from_npm = λ t. some (at_least 0);
  parse_req_from_specifier = λ t. some (at_least 0);
  version_text = λ r. [];
  matches = one_matches;
  tag = one_tag;
  lt = ltb;
  same = nat_beq;
}

ltb-IsStrict : IsStrict ltb
ltb-IsStrict = record { irrefl = λ v. ground arith; trans = λ u v w p q. ground arith }

abbrev published : ℕ → Text × NpmPackageVersionInfo
published n = (
  digit n,
  record {
    version = digit n;
    dist = record { tarball = []; shasum = []; integrity_field = none };
    dependencies = [];
    peer_dependencies = [];
    peer_dependencies_meta = [];
  },
)

abbrev chalk : NpmPackageInfo
chalk = record {
  name = codes "chalk";
  versions = published 3 ∷ published 7 ∷ published 5 ∷ [];
  dist_tags = (codes "latest", digit 5) ∷ [];
}

abbrev newest : VersionAndInfo one
newest = record { version = 7; info = (published 7).1 }

search_versions-best_example :
    (entry : Text × NpmPackageVersionInfo) × (newest.info ≡ entry.1)
    × Memᴰ entry chalk.versions
    × (undigit entry.1.version ≡ some newest.version)
    × (one_matches (at_least 4) newest.version ≡ true)
    × All
        (λ e.
          (w : ℕ)
          → undigit e.1.version ≡ some w
          → one_matches (at_least 4) w ≡ true
          → ltb newest.version w ≡ false)
        chalk.versions
unfolding search_versions best_loop
search_versions-best_example = search_versions-best one (at_least 4) chalk newest ltb-IsStrict refl

get_resolved-ne-out_of_fuel_example :
    get_resolved_package_version_and_info one 2 (at_least 1) latest chalk ≢ err out_of_fuel
get_resolved-ne-out_of_fuel_example = get_resolved-ne-out_of_fuel one (at_least 1) latest chalk refl

tag_is_followed :
    get_resolved_package_version_and_info one 2 (at_least 1) latest chalk
    ≡ ok (record { version = 5; info = (published 5).1 })
unfolding get_resolved_package_version_and_info get text_beq
tag_is_followed = refl

existing_version_wins :
    resolve_best_package_version_and_info one (at_least 1) (at_least 2) chalk (3 ∷ [])
    ≡ ok (record { version = 3; info = (published 3).1 })
unfolding resolve_best_package_version_and_info version_req_satisfies best_loop get text_beq
existing_version_wins = refl
