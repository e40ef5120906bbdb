-- ===== src/Npm/CopyIndex.antt =====
-- Copy indices: `SnapshotPackageCopyIndexResolver` of
-- crates/module_fetcher/src/npm/resolution/snapshot.rs. An index is at most the number of packages,
-- so `usize` does not overflow and indices are natural numbers.
pub mod Apart
use server_based_deno.Base.{
  ℕ, ◌+◌, ◌≤◌, ◌≡◌, ◌≢◌, refl, sym, Bool, true, false, Option, none, some, List, [], ◌∷◌, Map, get,
  insert, get-insert, get-insert_self, Keyed, ◌==◌, ltb, arith, Option-cases, Bool-cases, inl, inr,
  if◌then◌else◌,
}
use server_based_deno.Npm.Id.{NpmPackageId}
use server_based_deno.Npm.Id.Equality.{NpmPackageNv, nv, nv_keyed, id_keyed}

pub record SnapshotPackageCopyIndexResolver (V : Type 0) : Type 0 where
  pub packages_to_copy_index : Map (NpmPackageId V) ℕ
  pub package_name_version_to_copy_count : Map (NpmPackageNv V) ℕ

-- `entry(..).or_insert(0)`, then the greater of the count and the index.
abbrev pub at_least : ℕ → Option ℕ → ℕ
at_least index none = index
at_least index (some count) = if ltb count index then index else count

-- `and_modify(|count| *count += 1).or_insert(0)`
abbrev pub next_count : Option ℕ → ℕ
next_count none = 0
next_count (some count) = count + 1

-- A count is there, and not below the index.
abbrev pub Counted : ℕ → Option ℕ → Type 0
Counted i none = ⊥
Counted i (some c) = i ≤ c

Counted-mono : (i c : ℕ) (o : Option ℕ) → i ≤ c → Counted c o → Counted i o
Counted-mono i c none le h = h
Counted-mono i c (some d) le h = omega arith

Counted-at_least : (i : ℕ) (o : Option ℕ) → i ≤ at_least i o
Counted-at_least i none = omega arith
Counted-at_least i (some c) = ground arith

at_least_old : (i j : ℕ) (o : Option ℕ) → Counted j o → j ≤ at_least i o
at_least_old i j none h = absurd h
at_least_old i j (some c) h = ground arith

module _ {V : Type 0} ⦃keyed : Keyed V⦄ where
  unfoldable pub with_capacity : SnapshotPackageCopyIndexResolver V
  with_capacity = record { packages_to_copy_index = []; package_name_version_to_copy_count = [] }

  unfoldable pub count_copies :
      Map (NpmPackageId V) ℕ → Map (NpmPackageNv V) ℕ → Map (NpmPackageNv V) ℕ
  count_copies [] counts = counts
  count_copies ((id, index) ∷ rest) counts =
      count_copies rest (insert (nv id) (at_least index (get (nv id) counts)) counts)

  unfoldable pub from_map_with_capacity :
      Map (NpmPackageId V) ℕ → SnapshotPackageCopyIndexResolver V
  from_map_with_capacity m = record {
    packages_to_copy_index = m;
    package_name_version_to_copy_count = count_copies m [];
  }

  abbrev pub known_or_new :
      NpmPackageId V
      → Option ℕ
      → SnapshotPackageCopyIndexResolver V
      → ℕ × SnapshotPackageCopyIndexResolver V
  known_or_new id (some index) r = (index, r)
  known_or_new id none r =
      let index = next_count (get (nv id) r.package_name_version_to_copy_count) in
      (
        index,
        record {
          packages_to_copy_index = insert id index r.packages_to_copy_index;
          package_name_version_to_copy_count =
              insert (nv id) index r.package_name_version_to_copy_count;
        },
      )

  unfoldable pub resolve :
      NpmPackageId V → SnapshotPackageCopyIndexResolver V → ℕ × SnapshotPackageCopyIndexResolver V
  resolve id r = known_or_new id (get id r.packages_to_copy_index) r

  -- The resolver after a run of `resolve`s.
  abbrev pub resolve_all :
      List (NpmPackageId V)
      → SnapshotPackageCopyIndexResolver V
      → SnapshotPackageCopyIndexResolver V
  resolve_all [] r = r
  resolve_all (id ∷ ids) r = resolve_all ids (resolve id r).1

  abbrev pub copy_index : NpmPackageId V → SnapshotPackageCopyIndexResolver V → Option ℕ
  copy_index id r = get id r.packages_to_copy_index

  -- Copies of one name and version have different indices.
  abbrev pub AreApart : Map (NpmPackageId V) ℕ → Type 0
  AreApart m =
      (a b : NpmPackageId V) (i : ℕ) → get a m ≡ some i → get b m ≡ some i → nv a ≡ nv b → a ≡ b

  abbrev pub AllCounted : SnapshotPackageCopyIndexResolver V → Type 0
  AllCounted r =
      (a : NpmPackageId V) (i : ℕ)
      → copy_index a r ≡ some i
      → Counted i (get (nv a) r.package_name_version_to_copy_count)

  Counted-insert :
      (i j : ℕ) (n k : NpmPackageNv V) (counts : Map (NpmPackageNv V) ℕ)
      → Counted j (get k counts)
      → Counted j (get k (insert n (at_least i (get n counts)) counts))
  Counted-insert i j n k counts h = rw get-insert (elim (Bool-cases (n == k)) [
    | inl same ↦
        let e = (nv_keyed.same_iff n k).0 same in rw same (at_least_old i j (get n counts) (rw e h))
    | inr other ↦ rw other h
  ])

  Counted-count_copies :
      (m : Map (NpmPackageId V) ℕ) (counts : Map (NpmPackageNv V) ℕ) (j : ℕ) (k : NpmPackageNv V)
      → Counted j (get k counts)
      → Counted j (get k (count_copies m counts))
  unfolding count_copies
  Counted-count_copies [] counts j k h = h
  Counted-count_copies ((id, index) ∷ rest) counts j k h =
      Counted-count_copies rest (insert (nv id) (at_least index (get (nv id) counts)) counts) j k
        (Counted-insert index j (nv id) k counts h)

  Counted-from_map :
      (m : Map (NpmPackageId V) ℕ) (counts : Map (NpmPackageNv V) ℕ) (a : NpmPackageId V) (i : ℕ)
      → get a m ≡ some i
      → Counted i (get (nv a) (count_copies m counts))
  unfolding count_copies get
  Counted-from_map [] counts a i h = cc
  Counted-from_map ((id, index) ∷ rest) counts a i h = elim (Bool-cases (id == a)) [
    | inl same ↦
        let e = (id_keyed.same_iff id a).0 same in
        let found : index ≡ i = cc (rw same at h) in
        Counted-count_copies rest _ i (nv a) (
          rw (sym e)
            (rw get-insert_self (rw (sym found) (Counted-at_least index (get (nv id) counts)))))
    | inr other ↦ Counted-from_map rest _ a i (rw other at h)
  ]

  pub AllCounted-from_map : (m : Map (NpmPackageId V) ℕ) → AllCounted (from_map_with_capacity m)
  unfolding from_map_with_capacity
  AllCounted-from_map m a i h = Counted-from_map m [] a i h
