-- ===== src/Npm/Snapshot/Lockfile/Closed.antt =====
-- The snapshot that `from_lockfile` returns (crates/module_fetcher/src/npm/resolution/snapshot.rs).
use server_based_deno.Base.{
  ◌≡◌, refl, sym, ap, ◌∙◌, Bool, true, false, Option, none, some, [], ◌∷◌, Text, Map, get, Keyed,
  ◌==◌, text_keyed, Result, ok, map_err, bind_inv, all, Option-cases, Bool-cases, inl, inr, subst,
}
use mathlib.Core.List.{Memᴰ}
use server_based_deno.Npm.{Semver}
use server_based_deno.Npm.Id.{NpmPackageId, Monch}
use server_based_deno.Npm.Id.Equality.{nv, nv_keyed, id_keyed}
use server_based_deno.Npm.Snapshot.{
  NpmPackageReq, NpmPackageCacheFolderId, NpmResolutionPackage, NpmResolutionSnapshot,
  get_package_cache_folder_id,
}
use server_based_deno.Npm.Snapshot.Lookup.{IsClosed}
use server_based_deno.Npm.Snapshot.Lockfile.{
  NpmContent, Registry, Specified, Collected, no_packages, no_specifiers, contains_key, with_dist,
  registry_failed, read_specifiers, read_packages, set_dists, finish, from_lockfile,
}
use server_based_deno.Npm.Snapshot.Lockfile.Loops.{
  all-Memᴰ, SpecifiedInv, CollectedInv, Includes, no_packages-Inv, read_specifiers-Inv,
  read_packages-Inv,
}

module _ (sv : Semver) ⦃version_keyed : Keyed sv.Version⦄ ⦃req_keyed : Keyed (NpmPackageReq sv.Req)⦄
    (monch : Monch) (from_str : Text → Option (NpmPackageReq sv.Req))
    (api : Registry sv.Version) where
  open sv use {Version}

  -- Two packages that differ in their tarball at most.
  pub record IsSame (p q : NpmResolutionPackage Version) : Type 0 where
    pub id : p.pkg_id ≡ q.pkg_id
    pub index : p.copy_index ≡ q.copy_index
    pub dependencies : p.dependencies ≡ q.dependencies

  abbrev Packages : Type 0
  Packages = Map (NpmPackageId Version) (NpmResolutionPackage Version)

  with_dist-IsSame :
      (p q : NpmResolutionPackage Version) (info : Option _)
      → with_dist sv p info ≡ ok q
      → IsSame p q
  with_dist-IsSame p q none h = cc
  with_dist-IsSame p q (some info) h =
      let e : record p { dist = info.dist } ≡ q = cc h in
      record {
        id = ap (λ (r : NpmResolutionPackage Version). r.pkg_id) e;
        index = ap (λ (r : NpmResolutionPackage Version). r.copy_index) e;
        dependencies = ap (λ (r : NpmResolutionPackage Version). r.dependencies) e;
      }

  module _ (id : NpmPackageId Version) (p : NpmResolutionPackage Version) (rest m' : Packages) where
    pub record SetFirst : Type 0 where
      pub first : NpmResolutionPackage Version
      pub others : Packages
      pub same : IsSame p first
      pub rest_set : set_dists sv monch from_str api rest ≡ ok others
      pub whole : m' ≡ (id, first) ∷ others

    set_dists_inv : set_dists sv monch from_str api ((id, p) ∷ rest) ≡ ok m' → SetFirst
    unfolding set_dists
    set_dists_inv h =
        let (info, h1, _) =
          bind_inv (map_err registry_failed (api.package_version_info (nv p.pkg_id))) _ m' h in
        let (q, h2, dist) = bind_inv (with_dist sv p info) _ m' h1 in
        let (qs, h3, others) = bind_inv (set_dists sv monch from_str api rest) _ m' h2 in
        record {
          first = q;
          others = qs;
          same = with_dist-IsSame p q info dist;
          rest_set = others;
          whole = cc h3;
        }

  -- What is in the map afterwards was in it before.
  set_dists_back :
      (m m' : Packages) (k : NpmPackageId Version) (q : NpmResolutionPackage Version)
      → set_dists sv monch from_str api m ≡ ok m'
      → get k m' ≡ some q
      → (p : NpmResolutionPackage Version) × (get k m ≡ some p) × IsSame p q
  unfolding get
  set_dists_back [] m' k q h found =
      let e : [] ≡ m' = (unfold set_dists in cc h) in
      cc (subst (λ n. get k n ≡ some q) (sym e) found)
  set_dists_back ((id, p) ∷ rest) m' k q h found =
      let first_set = set_dists_inv id p rest m' h in
      let here = subst (λ n. get k n ≡ some q) first_set.whole found in
      elim (Bool-cases (id == k)) [
        | inl same ↦
            let e : first_set.first ≡ q = cc (rw same at here) in
            (p, rw same refl, subst (λ r. IsSame p r) e first_set.same)
        | inr other ↦
            rw other
              (set_dists_back rest first_set.others k q first_set.rest_set (rw other at here))
      ]

  set_dists_forth :
      (m m' : Packages) (k : NpmPackageId Version) (p : NpmResolutionPackage Version)
      → set_dists sv monch from_str api m ≡ ok m'
      → get k m ≡ some p
      → (q : NpmResolutionPackage Version) × (get k m' ≡ some q)
  unfolding get
  set_dists_forth [] m' k p h found = cc
  set_dists_forth ((id, r) ∷ rest) m' k p h found =
      let first_set = set_dists_inv id r rest m' h in
      subst (λ n. (q : NpmResolutionPackage Version) × (get k n ≡ some q)) (sym first_set.whole)
        (elim (Bool-cases (id == k)) [
          | inl same ↦ (first_set.first, rw same refl)
          | inr other ↦
              rw other
                (set_dists_forth rest first_set.others k p first_set.rest_set (rw other at found))
        ])

  contains_key_lem :
      (k : NpmPackageId Version) (m : Packages)
      → contains_key k m ≡ true
      → (p : NpmResolutionPackage Version) × (get k m ≡ some p)
  contains_key_lem k m h = elim (Option-cases (get k m)) [
    | inl nothing ↦ cc (rw (nothing, contains_key) at h)
    | inr (p, found) ↦ (p, found)
  ]

  -- The pieces of a successful reading.
  pub record Reading (content : NpmContent) (s : NpmResolutionSnapshot Version sv.Req)
      : Type 0 where
    pub specified : Specified sv
    pub collected : Collected sv
    pub specified_inv : SpecifiedInv sv specified
    pub collected_inv : CollectedInv sv collected
    pub more : Includes sv specified.verify_ids collected.verify_ids
    pub verified : all (λ id. contains_key id collected.packages) collected.verify_ids ≡ true
    pub set : set_dists sv monch from_str api collected.packages ≡ ok s.packages
    pub reqs : s.package_reqs ≡ specified.package_reqs
    pub roots : s.root_packages ≡ specified.root_packages

  ok_injective : {E A : Type 0} {a b : A} → ◌≡◌ {A = Result E A} (ok a) (ok b) → a ≡ b
  ok_injective e = cc e

  finish_inv :
      (sp : Specified sv) (c : Collected sv) (verified : Bool)
      (s : NpmResolutionSnapshot Version sv.Req)
      → finish sv monch from_str api sp c verified ≡ ok s
      → (verified ≡ true)
        × (set_dists sv monch from_str api c.packages ≡ ok s.packages)
        × (s.package_reqs ≡ sp.package_reqs)
        × (s.root_packages ≡ sp.root_packages)
  unfolding finish
  finish_inv sp c false s h = cc
  finish_inv sp c true s h =
      let (_, h', _) = bind_inv (map_err registry_failed (api.cache_in_parallel _)) _ s h in
      let (packages, h'', set) = bind_inv (set_dists sv monch from_str api c.packages) _ s h' in
      subst
        (λ (r : NpmResolutionSnapshot Version sv.Req).
          (true ≡ true)
          × (set_dists sv monch from_str api c.packages ≡ ok r.packages)
          × (r.package_reqs ≡ sp.package_reqs)
          × (r.root_packages ≡ sp.root_packages))
        (ok_injective h'') (refl, set, refl, refl)

  reading :
      (content : NpmContent) (s : NpmResolutionSnapshot Version sv.Req)
      → from_lockfile sv monch from_str api content ≡ ok s
      → Reading content s
  unfolding from_lockfile
  reading content s h =
      let (sp, h', specifiers_read) =
        bind_inv (read_specifiers sv monch from_str content.specifiers (no_specifiers sv)) _ s h in
      let (c, h'', packages_read) =
        bind_inv (read_packages sv monch from_str content.packages (no_packages sv sp.verify_ids)) _
          s h' in
      let (verified, set, reqs, roots) = finish_inv sp c _ s h'' in
      let (inv, more) =
        read_packages-Inv sv monch from_str content.packages (no_packages sv sp.verify_ids) c
          (no_packages-Inv sv sp.verify_ids) packages_read in
      record {
        specified = sp;
        collected = c;
        specified_inv =
            read_specifiers-Inv sv monch from_str content.specifiers (no_specifiers sv) sp
              (unfold get in record { roots = λ k id e. cc; rooted = λ r n e. cc }) specifiers_read;
        collected_inv = inv;
        more = more;
        verified = verified;
        set = set;
        reqs = reqs;
        roots = roots;
      }

  module _ (content : NpmContent) (s : NpmResolutionSnapshot Version sv.Req)
      (read : from_lockfile sv monch from_str api content ≡ ok s) where
    open (reading content s read) use {
      specified, collected, specified_inv, collected_inv, more, verified, set, reqs, roots,
    }

    listed_held :
        (d : NpmPackageId Version)
        → Memᴰ d collected.verify_ids
        → (q : NpmResolutionPackage Version) × (get d s.packages ≡ some q)
    listed_held d mem =
        let contained =
          all-Memᴰ (λ id. contains_key id collected.packages) collected.verify_ids d verified mem in
        let (p, found) = contains_key_lem d collected.packages contained in
        set_dists_forth collected.packages s.packages d p set found

    -- In a snapshot that was read from a lockfile every package stands under its own id, and every
    -- dependency, root and requirement leads to a package that the snapshot holds.
    pub from_lockfile-IsClosed : IsClosed sv s
    from_lockfile-IsClosed = record {
      ids = λ id q found.
          let (p, before, same) = set_dists_back collected.packages s.packages id q set found in
          sym same.id ∙ collected_inv.own_id id p before;
      dependencies_held = λ id q name d found dep.
          let (p, before, same) = set_dists_back collected.packages s.packages id q set found in
          listed_held d (
            collected_inv.dependencies_listed id p before name d
              (subst (λ m. get name m ≡ some d) (sym same.dependencies) dep));
      roots_held = λ n id root.
          listed_held id
            (more id (specified_inv.roots n id (subst (λ m. get n m ≡ some id) roots root)));
      reqs_held = λ r n known.
          let (id, root) = specified_inv.rooted r n (subst (λ m. get r m ≡ some n) reqs known) in
          (id, subst (λ m. get n m ≡ some id) (sym roots) root);
    }

    -- Two packages of a snapshot that was read from a lockfile which have one name, one version and
    -- one copy index have one id, so that they do not share a folder.
    pub from_lockfile-copies :
        (a b : NpmPackageId Version) (p q : NpmResolutionPackage Version)
        → get a s.packages ≡ some p
        → get b s.packages ≡ some q
        → get_package_cache_folder_id p ≡ get_package_cache_folder_id q
        → a ≡ b
    unfolding get_package_cache_folder_id
    from_lockfile-copies a b p q ha hb same_folder =
        let (p0, before_a, same_a) = set_dists_back collected.packages s.packages a p set ha in
        let (q0, before_b, same_b) = set_dists_back collected.packages s.packages b q set hb in
        let index : q.copy_index ≡ p.copy_index =
          ap (λ (f : NpmPackageCacheFolderId Version). f.copy_index) (sym same_folder) in
        collected_inv.good.apart a b p.copy_index
          (rw (sym same_a.index) (collected_inv.indexed a p0 before_a))
          (rw (sym index) (rw (sym same_b.index) (collected_inv.indexed b q0 before_b)))
          (ap nv (sym (from_lockfile-IsClosed.ids a p ha))
            ∙ ap (λ (f : NpmPackageCacheFolderId Version). f.nv) same_folder
            ∙ ap nv (from_lockfile-IsClosed.ids b q hb))
