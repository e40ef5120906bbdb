-- ===== src/Npm/CopyIndex/Apart.antt =====
-- The indices of the copies of one name and version
-- (crates/module_fetcher/src/npm/resolution/snapshot.rs).
use server_based_deno.Base.{
  ℕ, ◌≡◌, refl, sym, ap, subst, ◌∙◌, Option, none, some, List, [], ◌∷◌, Map, get, insert,
  get-insert, get-insert_self, Keyed, ◌==◌, arith, Option-cases, Bool-cases, inl, inr,
}
use server_based_deno.Npm.Id.{NpmPackageId}
use server_based_deno.Npm.Id.Equality.{NpmPackageNv, nv, nv_keyed, id_keyed}
use server_based_deno.Npm.CopyIndex.{
  SnapshotPackageCopyIndexResolver, from_map_with_capacity, with_capacity, next_count, resolve,
  resolve_all, copy_index, Counted, AreApart, AllCounted, AllCounted-from_map,
}

fresh_count : (o : Option ℕ) → Counted (next_count o) o → ⊥
fresh_count none h = h
fresh_count (some c) h = omega arith

Counted-next_count : (i : ℕ) (o : Option ℕ) → Counted i o → Counted i (some (next_count o))
Counted-next_count i none h = absurd h
Counted-next_count i (some c) h = omega arith

module _ {V : Type 0} ⦃keyed : Keyed V⦄ where
  pub record IsGood (r : SnapshotPackageCopyIndexResolver V) : Type 0 where
    pub counted : AllCounted r
    pub apart : AreApart r.packages_to_copy_index

  module _ (id : NpmPackageId V) (m : Map (NpmPackageId V) ℕ)
      (counts : Map (NpmPackageNv V) ℕ) where
    abbrev index : ℕ
    index = next_count (get (nv id) counts)

    Counted-insert_index :
        ((a : NpmPackageId V) (i : ℕ) → get a m ≡ some i → Counted i (get (nv a) counts))
        → (a : NpmPackageId V) (i : ℕ) → get a (insert id index m) ≡ some i
        → Counted i (get (nv a) (insert (nv id) index counts))
    Counted-insert_index before a i h = elim (Bool-cases (id == a)) [
      | inl same ↦
          let e = (id_keyed.same_iff id a).0 same in
          let here : index ≡ i = cc (rw (get-insert id a index m, same) at h) in
          rw (sym e) (rw get-insert_self (rw here (omega arith)))
      | inr other ↦
          let old = before a i (rw (get-insert id a index m, other) at h) in
          rw get-insert (elim (Bool-cases (nv id == nv a)) [
            | inl same_nv ↦
                let e = (nv_keyed.same_iff (nv id) (nv a)).0 same_nv in
                rw same_nv (Counted-next_count i (get (nv id) counts) (rw e old))
            | inr other_nv ↦ rw other_nv old
          ])
    ]

    -- The new index is none that a copy of the same name and version has.
    index-new :
        ((a : NpmPackageId V) (i : ℕ) → get a m ≡ some i → Counted i (get (nv a) counts))
        → (a : NpmPackageId V) → get a m ≡ some index
        → nv id ≡ nv a
        → ⊥
    index-new before a h e =
        fresh_count (get (nv id) counts)
          (subst (λ n. Counted index (get n counts)) (sym e) (before a index h))

    AreApart-insert_index :
        ((a : NpmPackageId V) (i : ℕ) → get a m ≡ some i → Counted i (get (nv a) counts))
        → AreApart m
        → AreApart (insert id index m)
    AreApart-insert_index before apart a b i ha hb e = elim (Bool-cases (id == a)) [
      | inl same_a ↦ elim (Bool-cases (id == b)) [
        | inl same_b ↦ sym ((id_keyed.same_iff id a).0 same_a) ∙ (id_keyed.same_iff id b).0 same_b
        | inr other_b ↦
            let here : index ≡ i = cc (rw (get-insert id a index m, same_a) at ha) in
            let there = rw (get-insert id b index m, other_b) at hb in
            absurd
              (index-new before b (rw here there) (ap nv ((id_keyed.same_iff id a).0 same_a) ∙ e))
      ]
      | inr other_a ↦ elim (Bool-cases (id == b)) [
        | inl same_b ↦
            let here : index ≡ i = cc (rw (get-insert id b index m, same_b) at hb) in
            let there = rw (get-insert id a index m, other_a) at ha in
            absurd (
              index-new before a (rw here there)
                (ap nv ((id_keyed.same_iff id b).0 same_b) ∙ sym e))
        | inr other_b ↦
            apart a b i (rw (get-insert id a index m, other_a) at ha)
              (rw (get-insert id b index m, other_b) at hb) e
      ]
    ]

  pub with_capacity-IsGood : IsGood with_capacity
  unfolding with_capacity get
  with_capacity-IsGood = record { counted = λ a i h. cc; apart = λ a b i h k e. cc }

  pub resolve-IsGood :
      (id : NpmPackageId V) (r : SnapshotPackageCopyIndexResolver V)
      → IsGood r
      → IsGood (resolve id r).1
  unfolding resolve
  resolve-IsGood id r good = elim (Option-cases (copy_index id r)) [
    | inr (i, known) ↦ rw known good
    | inl unknown ↦ rw unknown (record {
      counted =
          Counted-insert_index id r.packages_to_copy_index r.package_name_version_to_copy_count
            good.counted;
      apart =
          AreApart-insert_index id r.packages_to_copy_index r.package_name_version_to_copy_count
            good.counted good.apart;
    })
  ]

  resolve_all-IsGood :
      (ids : List (NpmPackageId V)) (r : SnapshotPackageCopyIndexResolver V)
      → IsGood r
      → IsGood (resolve_all ids r)
  resolve_all-IsGood [] r good = good
  resolve_all-IsGood (id ∷ ids) r good =
      resolve_all-IsGood ids (resolve id r).1 (resolve-IsGood id r good)

  pub from_map-IsGood :
      (m : Map (NpmPackageId V) ℕ) → AreApart m → IsGood (from_map_with_capacity m)
  unfolding from_map_with_capacity
  from_map-IsGood m apart = record { counted = AllCounted-from_map m; apart = apart }

  -- From a map in which copies of one name and version have different indices, and from the empty
  -- map in particular, no run of `resolve` gives two of them the same index.
  pub copies_stay_apart :
      (m : Map (NpmPackageId V) ℕ) (ids : List (NpmPackageId V)) (a b : NpmPackageId V) (i : ℕ)
      → AreApart m
      → copy_index a (resolve_all ids (from_map_with_capacity m)) ≡ some i
      → copy_index b (resolve_all ids (from_map_with_capacity m)) ≡ some i
      → nv a ≡ nv b
      → a ≡ b
  copies_stay_apart m ids a b i apart =
      (resolve_all-IsGood ids (from_map_with_capacity m) (from_map-IsGood m apart)).apart a b i

  pub resolve_known :
      (a b : NpmPackageId V) (i : ℕ) (r : SnapshotPackageCopyIndexResolver V)
      → copy_index a r ≡ some i
      → copy_index a (resolve b r).1 ≡ some i
  unfolding resolve
  resolve_known a b i r known = elim (Option-cases (copy_index b r)) [
    | inr (j, before) ↦ rw before known
    | inl unknown ↦ rw unknown (
        rw get-insert (elim (Bool-cases (b == a)) [
          | inl same ↦ let e = (id_keyed.same_iff b a).0 same in cc (unknown, known, e)
          | inr other ↦ rw other known
        ]))
  ]

  resolve_all_known :
      (ids : List (NpmPackageId V)) (a : NpmPackageId V) (i : ℕ)
      (r : SnapshotPackageCopyIndexResolver V)
      → copy_index a r ≡ some i
      → copy_index a (resolve_all ids r) ≡ some i
  resolve_all_known [] a i r known = known
  resolve_all_known (b ∷ ids) a i r known =
      resolve_all_known ids a i (resolve b r).1 (resolve_known a b i r known)

  pub resolve_records :
      (a : NpmPackageId V) (r : SnapshotPackageCopyIndexResolver V)
      → copy_index a (resolve a r).1 ≡ some (resolve a r).0
  unfolding resolve
  resolve_records a r = elim (Option-cases (copy_index a r)) [
    | inr (i, known) ↦ rw known (rw known refl)
    | inl unknown ↦ rw unknown (rw get-insert_self refl)
  ]

  -- Whatever is resolved in between, an id that is resolved again gets the index that it got first,
  -- and the resolver stays as it was.
  pub index_is_stable :
      (a : NpmPackageId V) (ids : List (NpmPackageId V)) (r : SnapshotPackageCopyIndexResolver V)
      → resolve a (resolve_all ids (resolve a r).1)
        ≡ ((resolve a r).0, resolve_all ids (resolve a r).1)
  index_is_stable a ids r =
      let still = resolve_all_known ids a (resolve a r).0 (resolve a r).1 (resolve_records a r) in
      unfold resolve in rw still refl
