-- ===== src/Npm/Snapshot/Examples.antt =====
-- A snapshot read from a lockfile, and the theorems on snapshots at it.
use server_based_deno.Base.{
  ℕ, ◌≡◌, refl, ◌↔◌, Bool, true, false, ◌&&◌, Option, none, some, List, [], ◌∷◌, Text, codes, Map,
  get, insert, Keyed, text_keyed, text_beq, text_beq_iff, replace, ok, arith, Bool-cases, inl, inr,
}
use server_based_deno.Npm.Id.{
  NpmPackageId, npm_package_id, no_peers, peer, from_serialized, parse_level_at_level, parse_name,
  parse_version, parse_name_and_version,
}
use server_based_deno.Npm.Id.Equality.{nv_keyed, id_keyed, id_same, id_same_iff}
use server_based_deno.Npm.Id.Examples.{two_versions, monch}
use server_based_deno.Npm.CopyIndex.{
  SnapshotPackageCopyIndexResolver, AreApart, resolve, from_map_with_capacity, count_copies,
  with_capacity,
}
use server_based_deno.Npm.CopyIndex.Apart.{copies_stay_apart}
use server_based_deno.Npm.Snapshot.{
  NpmPackageReq, NpmPackageCacheFolderId, NpmResolutionPackage, NpmResolutionSnapshot,
  NpmPackagesPartitioned, resolve_package_from_package, all_packages_partitioned,
}
use server_based_deno.Npm.Snapshot.Partition.{IsPartition, all_packages_partitioned_lem}
use server_based_deno.Npm.Snapshot.Lookup.{IsClosed, Answers, resolve_package_from_package-Answers}
use server_based_deno.Npm.Snapshot.Lockfile.{
  NpmContent, Registry, dummy_dist, from_lockfile, finish,
}
use server_based_deno.Npm.Snapshot.Lockfile.Closed.{from_lockfile-IsClosed, from_lockfile-copies}

abbrev bool_same : Bool → Bool → Bool
bool_same true true = true
bool_same false false = true
bool_same _ _ = false

pub bool_same_iff : (a b : Bool) → (bool_same a b ≡ true) ↔ (a ≡ b)
bool_same_iff true true = (λ _. refl, λ _. refl)
bool_same_iff true false = (λ h. cc, λ h. cc)
bool_same_iff false true = (λ h. cc, λ h. cc)
bool_same_iff false false = (λ _. refl, λ _. refl)

instance abbrev pub bool_keyed : Keyed Bool
bool_keyed = record { same = bool_same; same_iff = bool_same_iff }

abbrev option_same : Option (Unit {0}) → Option (Unit {0}) → Bool
option_same none none = true
option_same (some _) (some _) = true
option_same _ _ = false

abbrev req_same : NpmPackageReq Unit → NpmPackageReq Unit → Bool
req_same r q = text_beq r.name q.name && option_same r.version_req q.version_req

pub option_same_iff : (a b : Option (Unit {0})) → (option_same a b ≡ true) ↔ (a ≡ b)
option_same_iff none none = (λ _. refl, λ _. refl)
option_same_iff none (some u) = (λ h. cc, λ h. cc)
option_same_iff (some u) none = (λ h. cc, λ h. cc)
option_same_iff (some u) (some v) = (λ _. refl, λ _. refl)

pub req_same_iff : (r q : NpmPackageReq Unit) → (req_same r q ≡ true) ↔ (r ≡ q)
req_same_iff r q = (
  λ h. ground (arith, text_beq_iff r.name q.name, option_same_iff r.version_req q.version_req),
  λ h. ground (arith, text_beq_iff r.name q.name, option_same_iff r.version_req q.version_req),
)

instance abbrev pub req_keyed : Keyed (NpmPackageReq Unit)
req_keyed = record { same = req_same; same_iff = req_same_iff }

abbrev id_a : NpmPackageId Bool
id_a = npm_package_id (codes "a") true no_peers

abbrev id_c : NpmPackageId Bool
id_c = npm_package_id (codes "c") true no_peers

-- `c` once more, with `a` as its peer.
abbrev id_c_a : NpmPackageId Bool
id_c_a = npm_package_id (codes "c") true (peer id_a no_peers)

abbrev resolver : SnapshotPackageCopyIndexResolver Bool
resolver = from_map_with_capacity ((id_c, 3) ∷ [])

only_key : (a : NpmPackageId Bool) (i : ℕ) → get a ((id_c, 3) ∷ []) ≡ some i → id_c ≡ a
unfolding get
only_key a i h = elim (Bool-cases (id_same id_c a)) [
  | inl same ↦ (id_same_iff id_c a).0 same
  | inr other ↦ cc (rw (other, get) at h)
]

single-AreApart : AreApart ((id_c, 3) ∷ [])
single-AreApart a b i ha hb e =
    let first = only_key a i ha in let second = only_key b i hb in cc (first, second)

copies_stay_apart_example : id_c_a ≡ id_c_a
unfolding from_map_with_capacity resolve get insert count_copies id_same text_beq
copies_stay_apart_example =
    copies_stay_apart ((id_c, 3) ∷ []) (id_a ∷ id_c_a ∷ id_c ∷ []) id_c_a id_c_a 4 single-AreApart
      refl refl refl

-- The next copy of `c` comes after the copy that the map has.
next_copy : (resolve id_c_a resolver).0 ≡ 4
unfolding from_map_with_capacity resolve get insert count_copies id_same text_beq
next_copy = refl

abbrev package_of : NpmPackageId Bool → ℕ → Map Text (NpmPackageId Bool) → NpmResolutionPackage Bool
package_of id index deps = record {
  pkg_id = id;
  copy_index = index;
  dist = dummy_dist;
  dependencies = deps;
}

abbrev three : List (NpmResolutionPackage Bool)
three =
    package_of id_c_a 1 []
    ∷ package_of id_a 0 ((codes "c", id_c_a) ∷ [])
    ∷ package_of id_c 0 []
    ∷ []

all_packages_partitioned_lem_example :
    (p : NpmPackagesPartitioned Bool) × (all_packages_partitioned three ≡ some p)
    × IsPartition three p
all_packages_partitioned_lem_example = all_packages_partitioned_lem three

abbrev from_str : Text → Option (NpmPackageReq Unit)
from_str t = some (record { name = t; version_req = none })

abbrev api : Registry Bool
api = record {
  cache_in_parallel = λ names. ok tt;
  package_version_info = λ n. ok (
      some (record {
        version = n.0;
        dist = dummy_dist;
        dependencies = [];
        peer_dependencies = [];
        peer_dependencies_meta = [];
      }));
}

abbrev content : NpmContent
content = record {
  specifiers = (codes "a", codes "a@1") ∷ (codes "c", codes "c@1") ∷ [];
  packages =
      (codes "a@1", record { dependencies = (codes "c", codes "c@1_a@1") ∷ [] })
      ∷ (codes "c@1", record { dependencies = [] })
      ∷ (codes "c@1_a@1", record { dependencies = [] })
      ∷ [];
}

abbrev snapshot : NpmResolutionSnapshot Bool Unit
snapshot = record {
  package_reqs =
      (record { name = codes "a"; version_req = none }, (codes "a", true))
      ∷ (record { name = codes "c"; version_req = none }, (codes "c", true))
      ∷ [];
  root_packages = ((codes "a", true), id_a) ∷ ((codes "c", true), id_c) ∷ [];
  packages_by_name = (codes "a", id_a ∷ []) ∷ (codes "c", id_c ∷ id_c_a ∷ []) ∷ [];
  packages =
      (id_a, package_of id_a 0 ((codes "c", id_c_a) ∷ []))
      ∷ (id_c, package_of id_c 0 [])
      ∷ (id_c_a, package_of id_c_a 1 [])
      ∷ [];
  pending_unresolved_packages = [];
}

lockfile_read : from_lockfile two_versions monch from_str api content ≡ ok snapshot
unfolding from_lockfile finish get insert id_same text_beq from_serialized parse_name parse_version
    parse_name_and_version parse_level_at_level resolve with_capacity replace
lockfile_read = refl

snapshot-IsClosed : IsClosed two_versions snapshot
snapshot-IsClosed =
    from_lockfile-IsClosed two_versions monch from_str api content snapshot lockfile_read

from_lockfile-IsClosed_example : IsClosed two_versions snapshot
from_lockfile-IsClosed_example =
    from_lockfile-IsClosed two_versions monch from_str api content snapshot lockfile_read

from_lockfile-copies_example : id_c_a ≡ id_c_a
unfolding get id_same text_beq
from_lockfile-copies_example =
    from_lockfile-copies two_versions monch from_str api content snapshot lockfile_read id_c_a
      id_c_a (package_of id_c_a 1 []) (package_of id_c_a 1 []) refl refl refl

abbrev req_a : NpmPackageReq Unit
req_a = record { name = codes "a"; version_req = none }

abbrev folder_a : NpmPackageCacheFolderId Bool
folder_a = record { nv = (codes "a", true); copy_index = 0 }

resolve_package_from_package-Answers_example :
    Answers two_versions snapshot
      (resolve_package_from_package two_versions (codes "c/lib.js") folder_a snapshot)
resolve_package_from_package-Answers_example =
    resolve_package_from_package-Answers two_versions snapshot tt (codes "c/lib.js") folder_a
      snapshot-IsClosed refl
