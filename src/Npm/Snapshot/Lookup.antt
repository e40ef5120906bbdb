-- ===== src/Npm/Snapshot/Lookup.antt =====
-- Lookups in a closed snapshot (crates/module_fetcher/src/npm/resolution/snapshot.rs).
use server_based_deno.Base.{
  ◌≡◌, refl, some, List, [], ◌∷◌, Text, codes, get, Keyed, ◌==◌, text_keyed, Result, ok, err,
  nat_beq, Option-cases, Bool-cases, inl, inr,
}
use server_based_deno.Npm.{Semver}
use server_based_deno.Npm.Id.{NpmPackageId}
use server_based_deno.Npm.Id.Equality.{NpmPackageNv, nv, nv_keyed, id_keyed}
use server_based_deno.Npm.Snapshot.{
  NpmPackageReq, NpmPackageCacheFolderId, NpmResolutionPackage, NpmResolutionSnapshot, LookupError,
  could_not_find, or_empty, name_without_path, resolve_package_from_deno_module,
  resolve_pkg_from_pkg_req, resolve_package_from_package, find_referrer, best_any,
  resolve_best_package_id, dependency_or_best,
}

module _ (sv : Semver) ⦃version_keyed : Keyed sv.Version⦄
    ⦃req_keyed : Keyed (NpmPackageReq sv.Req)⦄ where
  open sv use {Version, Req, parse_req_from_npm}

  -- Every id that the snapshot names is the id of a package that it holds.
  pub record IsClosed (s : NpmResolutionSnapshot Version sv.Req) : Type 0 where
    pub ids :
        (id : NpmPackageId Version) (p : NpmResolutionPackage Version)
        → get id s.packages ≡ some p
        → p.pkg_id ≡ id
    pub dependencies_held :
        (id : NpmPackageId Version) (p : NpmResolutionPackage Version) (name : Text)
        (d : NpmPackageId Version)
        → get id s.packages ≡ some p
        → get name p.dependencies ≡ some d
        → (q : NpmResolutionPackage Version) × (get d s.packages ≡ some q)
    pub roots_held :
        (n : NpmPackageNv Version) (id : NpmPackageId Version)
        → get n s.root_packages ≡ some id
        → (q : NpmResolutionPackage Version) × (get id s.packages ≡ some q)
    pub reqs_held :
        (r : NpmPackageReq sv.Req) (n : NpmPackageNv Version)
        → get r s.package_reqs ≡ some n
        → (id : NpmPackageId Version) × (get n s.root_packages ≡ some id)

  -- The package is one of the snapshot's.
  abbrev pub Holds : NpmResolutionSnapshot Version sv.Req → NpmResolutionPackage Version → Type 0
  Holds s p = (id : NpmPackageId Version) × (get id s.packages ≡ some p)

  -- A requirement of the snapshot is resolved, to a package that it holds.
  pub resolve_pkg_from_pkg_req-known :
      (s : NpmResolutionSnapshot Version sv.Req) (r : NpmPackageReq sv.Req)
      (n : NpmPackageNv Version)
      → IsClosed s
      → get r s.package_reqs ≡ some n
      → (p : NpmResolutionPackage Version) × (resolve_pkg_from_pkg_req sv r s ≡ ok p) × Holds s p
  unfolding resolve_pkg_from_pkg_req resolve_package_from_deno_module
  resolve_pkg_from_pkg_req-known s r n closed known =
      let (id, root) = closed.reqs_held r n known in
      let (p, held) = closed.roots_held n id root in
      (p, rw known (rw root (rw held refl)), (id, held))

  find_referrer-Holds :
      (s : NpmResolutionSnapshot Version sv.Req) (referrer : NpmPackageCacheFolderId Version)
      (ids : List (NpmPackageId Version)) (p : NpmResolutionPackage Version)
      → find_referrer sv referrer s ids ≡ some p
      → Holds s p
  unfolding find_referrer
  find_referrer-Holds s referrer [] p h = cc
  find_referrer-Holds s referrer (id ∷ ids) p h = elim (Bool-cases ((nv id).1 == referrer.nv.1)) [
    | inr other ↦ find_referrer-Holds s referrer ids p (rw (other, find_referrer) at h)
    | inl same ↦ elim (Option-cases (get id s.packages)) [
      | inl none_held ↦
          find_referrer-Holds s referrer ids p
            (rw (none_held, find_referrer) at (rw (same, find_referrer) at h))
      | inr (q, held) ↦ elim (Bool-cases (nat_beq q.copy_index referrer.copy_index)) [
        | inl hit ↦
            (id, cc (held, rw hit at (rw (held, find_referrer) at (rw (same, find_referrer) at h))))
        | inr miss ↦
            find_referrer-Holds s referrer ids p
              (rw miss at (rw (held, find_referrer) at (rw (same, find_referrer) at h)))
      ]
    ]
  ]

  -- What a lookup may return: a package of the snapshot, or the message that none was found.
  pub data Answers (s : NpmResolutionSnapshot Version sv.Req)
      : Result LookupError (NpmResolutionPackage Version) → Type 0 where
    held : (p : NpmResolutionPackage Version) → Holds s p → Answers s (ok p)
    not_found : Answers s (err could_not_find)

  best_any-Answers :
      (s : NpmResolutionSnapshot Version sv.Req) (req : Req) (name : Text)
      → Answers s (best_any sv (some req) name s)
  best_any-Answers s req name = elim (Option-cases (resolve_best_package_id sv name req s)) [
    | inl nothing ↦ rw nothing not_found
    | inr (id, best) ↦ rw best (elim (Option-cases (get id s.packages)) [
      | inl nothing ↦ rw nothing not_found
      | inr (p, held_p) ↦ rw held_p (held p (id, held_p))
    ])
  ]

  dependency_or_best-Answers :
      (s : NpmResolutionSnapshot Version sv.Req) (any : Req) (name : Text)
      (referrer : NpmResolutionPackage Version)
      → IsClosed s
      → parse_req_from_npm (codes "*") ≡ some any
      → Holds s referrer
      → Answers s (dependency_or_best sv name referrer (get name referrer.dependencies) s)
  dependency_or_best-Answers s any name referrer closed star (rid, held_referrer) =
      elim (Option-cases (get name referrer.dependencies)) [
        | inr (id, dependency) ↦
            let (p, held_p) =
              closed.dependencies_held rid referrer name id held_referrer dependency in
            rw dependency (rw held_p (held p (id, held_p)))
        | inl nothing ↦ rw nothing (elim (Bool-cases ((nv referrer.pkg_id).0 == name)) [
          | inl own ↦ rw own (held referrer (rid, held_referrer))
          | inr other ↦ rw other (rw star (best_any-Answers s any name))
        ])
      ]

  -- An import of a package from a package gives a package that the snapshot holds, or the message
  -- that none was found; no `unwrap` panics, for a closed snapshot and if `*` is a requirement.
  pub resolve_package_from_package-Answers :
      (s : NpmResolutionSnapshot Version sv.Req) (any : Req) (name : Text)
      (referrer : NpmPackageCacheFolderId Version)
      → IsClosed s
      → parse_req_from_npm (codes "*") ≡ some any
      → Answers s (resolve_package_from_package sv name referrer s)
  unfolding resolve_package_from_package
  resolve_package_from_package-Answers s any name referrer closed star =
      elim (Option-cases
        (find_referrer sv referrer s (or_empty (get referrer.nv.0 s.packages_by_name)))) [
          | inl nothing ↦ rw nothing not_found
          | inr (p, found) ↦ rw found (
              dependency_or_best-Answers s any (name_without_path name) p closed star
                (find_referrer-Holds s referrer _ p found))
        ]
