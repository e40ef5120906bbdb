-- ===== src/Npm/Snapshot/Lockfile/Loops.antt =====
-- Invariants of the loops that read a lockfile.
use server_based_deno.Base.{
  ◌≡◌, refl, sym, ap, Bool, true, Option, some, List, [], ◌∷◌, Text, Map, get, insert, get-insert,
  get-insert_self, Keyed, ◌==◌, text_keyed, ok, bind_inv, all, arith, Bool-cases, inl, inr, ◌⊎◌,
  subst,
}
use mathlib.Core.List.{Memᴰ}
use server_based_deno.Npm.{Semver}
use server_based_deno.Npm.Id.{NpmPackageId, Monch}
use server_based_deno.Npm.Id.Equality.{NpmPackageNv, nv, nv_keyed, id_keyed}
use server_based_deno.Npm.CopyIndex.{copy_index}
use server_based_deno.Npm.CopyIndex.Apart.{
  IsGood, resolve-IsGood, resolve_known, resolve_records, with_capacity-IsGood,
}
use server_based_deno.Npm.Snapshot.{NpmPackageReq, NpmResolutionPackage}
use server_based_deno.Npm.Snapshot.Lockfile.{
  LockfilePackage, Specified, Collected, specified, collected, no_packages, parsed_id, parsed_req,
  read_specifiers, read_dependencies, read_packages,
}

pub all-Memᴰ :
    {A : Type 0} (test : A → Bool) (l : List A) (a : A)
    → all test l ≡ true
    → Memᴰ a l
    → test a ≡ true
all-Memᴰ test [] a h m = elim m [ ]
all-Memᴰ test (x ∷ l) a h (Memᴰ.head e) = rw e (ground arith)
all-Memᴰ test (x ∷ l) a h (Memᴰ.tail m) = all-Memᴰ test l a (ground arith) m

-- What is found after an insertion is the new value, or was there.
get-insert_cases :
    {K W : Type 0} ⦃keyed : Keyed K⦄ (k j : K) (v w : W) (m : Map K W)
    → get j (insert k v m) ≡ some w
    → ((k ≡ j) × (v ≡ w)) ⊎ (get j m ≡ some w)
get-insert_cases ⦃keyed⦄ k j v w m h = elim (Bool-cases (k == j)) [
  | inl same ↦ inl ((keyed.same_iff k j).0 same, cc (rw (get-insert k j v m, same) at h))
  | inr other ↦ inr (rw (get-insert k j v m, other) at h)
]

module _ (sv : Semver) ⦃version_keyed : Keyed sv.Version⦄
    ⦃req_keyed : Keyed (NpmPackageReq sv.Req)⦄ where
  open sv use {Version, Req}

  -- The ids that are the values of a map are to be verified.
  abbrev pub AreListed :
      {K : Type 0} ⦃keyed : Keyed K⦄
      → Map K (NpmPackageId Version)
      → List (NpmPackageId Version)
      → Type 0
  AreListed {K} m l = (k : K) (id : NpmPackageId Version) → get k m ≡ some id → Memᴰ id l

  AreListed-insert :
      {K : Type 0} ⦃keyed : Keyed K⦄ (k : K) (id : NpmPackageId Version)
      (m : Map K (NpmPackageId Version)) (l : List (NpmPackageId Version))
      → AreListed m l
      → AreListed (insert k id m) (id ∷ l)
  AreListed-insert k id m l h j d found = elim (get-insert_cases k j id d m found) [
    | inl (_, e) ↦ Memᴰ.head (sym e)
    | inr old ↦ Memᴰ.tail (h j d old)
  ]

  pub record SpecifiedInv (s : Specified sv) : Type 0 where
    pub roots : AreListed s.root_packages s.verify_ids
    pub rooted :
        (r : NpmPackageReq sv.Req) (n : NpmPackageNv Version)
        → get r s.package_reqs ≡ some n
        → (id : NpmPackageId Version) × (get n s.root_packages ≡ some id)

  root_kept :
      (n m : NpmPackageNv Version) (id d : NpmPackageId Version)
      (roots : Map (NpmPackageNv Version) (NpmPackageId Version))
      → get n roots ≡ some d
      → (q : NpmPackageId Version) × (get n (insert m id roots) ≡ some q)
  root_kept n m id d roots h = elim (Bool-cases (m == n)) [
    | inl same ↦ (id, rw get-insert (rw same refl))
    | inr other ↦ (d, rw get-insert (rw other h))
  ]

  specified-Inv :
      (req : NpmPackageReq sv.Req) (id : NpmPackageId Version) (s : Specified sv)
      → SpecifiedInv s
      → SpecifiedInv (specified sv req id s)
  specified-Inv req id s inv = record {
    roots = AreListed-insert (nv id) id s.root_packages s.verify_ids inv.roots;
    rooted = λ r n found. elim (get-insert_cases req r (nv id) n s.package_reqs found) [
      | inl (_, e) ↦ (id, rw (sym e) (get-insert_self (nv id) id s.root_packages))
      | inr old ↦ let (d, h) = inv.rooted r n old in root_kept n (nv id) id d s.root_packages h
    ];
  }

  pub record CollectedInv (c : Collected sv) : Type 0 where
    pub own_id :
        (id : NpmPackageId Version) (p : NpmResolutionPackage Version)
        → get id c.packages ≡ some p
        → p.pkg_id ≡ id
    pub indexed :
        (id : NpmPackageId Version) (p : NpmResolutionPackage Version)
        → get id c.packages ≡ some p
        → copy_index id c.copy_index_resolver ≡ some p.copy_index
    pub dependencies_listed :
        (id : NpmPackageId Version) (p : NpmResolutionPackage Version)
        → get id c.packages ≡ some p
        → AreListed p.dependencies c.verify_ids
    pub good : IsGood c.copy_index_resolver

  abbrev pub Includes : List (NpmPackageId Version) → List (NpmPackageId Version) → Type 0
  Includes l k = (id : NpmPackageId Version) → Memᴰ id l → Memᴰ id k

  collected-Inv :
      (id : NpmPackageId Version) (deps : Map Text (NpmPackageId Version))
      (l : List (NpmPackageId Version)) (c : Collected sv)
      → CollectedInv c
      → AreListed deps l
      → Includes c.verify_ids l
      → CollectedInv (collected sv id (deps, l) c)
  collected-Inv id deps l c inv listed more = record {
    own_id = λ k p found. elim (get-insert_cases id k _ p c.packages found) [
      | inl (same, e) ↦ cc (same, ap (λ (q : NpmResolutionPackage Version). q.pkg_id) e)
      | inr old ↦ inv.own_id k p old
    ];
    indexed = λ k p found. elim (get-insert_cases id k _ p c.packages found) [
      | inl (same, e) ↦
          let now = resolve_records id c.copy_index_resolver in
          rw (sym same) (rw (sym (ap (λ (q : NpmResolutionPackage Version). q.copy_index) e)) now)
      | inr old ↦ resolve_known k id p.copy_index c.copy_index_resolver (inv.indexed k p old)
    ];
    dependencies_listed = λ k p found. elim (get-insert_cases id k _ p c.packages found) [
      | inl (same, e) ↦
          subst (λ m. AreListed m l) (ap (λ (q : NpmResolutionPackage Version). q.dependencies) e)
            listed
      | inr old ↦ λ name d dep. more d (inv.dependencies_listed k p old name d dep)
    ];
    good = resolve-IsGood id c.copy_index_resolver inv.good;
  }

  pub no_packages-Inv : (l : List (NpmPackageId Version)) → CollectedInv (no_packages sv l)
  unfolding get
  no_packages-Inv l = record {
    own_id = λ id p h. cc;
    indexed = λ id p h. cc;
    dependencies_listed = λ id p h. cc;
    good = with_capacity-IsGood;
  }

  module _ (monch : Monch) (from_str : Text → Option (NpmPackageReq sv.Req)) where
    pub read_specifiers-Inv :
        (entries : Map Text Text) (s s' : Specified sv)
        → SpecifiedInv s
        → read_specifiers sv monch from_str entries s ≡ ok s'
        → SpecifiedInv s'
    unfolding read_specifiers
    read_specifiers-Inv [] s s' inv h = subst SpecifiedInv (cc h) inv
    read_specifiers-Inv ((key, value) ∷ rest) s s' inv h =
        let (req, h', _) = bind_inv (parsed_req sv monch from_str key (from_str key)) _ s' h in
        let (id, h'', _) = bind_inv (parsed_id sv monch from_str value) _ s' h' in
        read_specifiers-Inv rest (specified sv req id s) s' (specified-Inv req id s inv) h''

    read_dependencies_lem :
        (entries : Map Text Text) (m m' : Map Text (NpmPackageId Version))
        (l l' : List (NpmPackageId Version))
        → AreListed m l
        → read_dependencies sv monch from_str entries (m, l) ≡ ok (m', l')
        → AreListed m' l' × Includes l l'
    unfolding read_dependencies
    read_dependencies_lem [] m m' l l' listed h =
        let e : m ≡ m' = cc h in
        let e' : l ≡ l' = cc h in (rw (sym e) (rw (sym e') listed), λ id mem. rw (sym e') mem)
    read_dependencies_lem ((name, specifier) ∷ rest) m m' l l' listed h =
        let (id, h', _) = bind_inv (parsed_id sv monch from_str specifier) _ (m', l') h in
        let (listed', more) =
          read_dependencies_lem rest (insert name id m) m' (id ∷ l) l'
            (AreListed-insert name id m l listed) h' in
        (listed', λ d mem. more d (Memᴰ.tail mem))

    pub read_packages-Inv :
        (entries : Map Text LockfilePackage) (c c' : Collected sv)
        → CollectedInv c
        → read_packages sv monch from_str entries c ≡ ok c'
        → CollectedInv c' × Includes c.verify_ids c'.verify_ids
    unfolding read_packages
    read_packages-Inv [] c c' inv h =
        let e : c ≡ c' = cc h in
        subst (λ d. CollectedInv d × Includes c.verify_ids d.verify_ids) e (inv, λ id mem. mem)
    read_packages-Inv ((key, value) ∷ rest) c c' inv h =
        let (id, h', _) = bind_inv (parsed_id sv monch from_str key) _ c' h in
        let ((deps, l), h'', deps_read) =
          bind_inv (read_dependencies sv monch from_str value.dependencies ([], c.verify_ids)) _ c'
            h' in
        let (listed, more) =
          read_dependencies_lem value.dependencies [] deps c.verify_ids l
            (unfold get in λ k d e. cc) deps_read in
        let (inv', more') =
          read_packages-Inv rest (collected sv id (deps, l) c) c'
            (collected-Inv id deps l c inv listed more) h'' in
        (inv', λ d mem. more' d (more d mem))
