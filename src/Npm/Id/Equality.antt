-- ===== src/Npm/Id/Equality.antt =====
-- The derived equality of package ids (the derive of `NpmPackageId` in
-- crates/module_fetcher/src/npm/resolution/mod.rs), so that ids are keys of maps.
use server_based_deno.Base.{
  ◌≡◌, refl, ◌↔◌, Bool, true, false, ◌&&◌, Text, Keyed, ◌==◌, text_keyed, text_beq_iff, arith,
}
use server_based_deno.Npm.Id.{NpmPackageId, npm_package_id, Peers, no_peers, peer}

-- `NpmPackageNv` of deno_graph: a name and a version.
abbrev pub NpmPackageNv : Type 0 → Type 0
NpmPackageNv V = Text × V

abbrev pub nv : {V : Type 0} → NpmPackageId V → NpmPackageNv V
nv (npm_package_id name version ps) = (name, version)

and_true : (a b : Bool) → (a && b) ≡ true → (a ≡ true) × (b ≡ true)
and_true true true h = (refl, refl)
and_true true false h = cc
and_true false b h = cc

module _ {V : Type 0} ⦃keyed : Keyed V⦄ where
  abbrev pub nv_same : NpmPackageNv V → NpmPackageNv V → Bool
  nv_same (m, v) (n, w) = m == n && v == w

  pub nv_same_iff : (a b : NpmPackageNv V) → (nv_same a b ≡ true) ↔ (a ≡ b)
  nv_same_iff (m, v) (n, w) = (
    λ h. ground (arith, text_beq_iff m n, keyed.same_iff v w),
    λ h. ground (arith, text_beq_iff m n, keyed.same_iff v w),
  )

  unfoldable mutual
    pub id_same : NpmPackageId V → NpmPackageId V → Bool
    id_same (npm_package_id m v ps) (npm_package_id n w qs) =
        nv_same (m, v) (n, w) && peers_same ps qs

    pub peers_same : Peers V → Peers V → Bool
    peers_same no_peers no_peers = true
    peers_same (peer p ps) (peer q qs) = id_same p q && peers_same ps qs
    peers_same _ _ = false

  mutual
    unfolding id_same

    pub id_same_iff : (p q : NpmPackageId V) → (id_same p q ≡ true) ↔ (p ≡ q)
    id_same_iff (npm_package_id m v ps) (npm_package_id n w qs) = (
      λ h. ground (arith, text_beq_iff m n, keyed.same_iff v w, peers_same_iff ps qs),
      λ h. ground (arith, text_beq_iff m n, keyed.same_iff v w, peers_same_iff ps qs),
    )

    pub peers_same_iff : (ps qs : Peers V) → (peers_same ps qs ≡ true) ↔ (ps ≡ qs)
    peers_same_iff no_peers no_peers = (λ _. refl, λ _. refl)
    peers_same_iff no_peers (peer q qs) = (λ h. cc, λ h. cc)
    peers_same_iff (peer p ps) no_peers = (λ h. cc, λ h. cc)
    peers_same_iff (peer p ps) (peer q qs) = (
      λ h.
          let both = and_true (id_same p q) (peers_same ps qs) h in
          let heads = (id_same_iff p q).0 (both.0) in
          let tails = (peers_same_iff ps qs).0 (both.1) in cc (heads, tails),
      λ h.
          let heads : p ≡ q = cc h in
          let tails : ps ≡ qs = cc h in
          rw ((id_same_iff p q).1 heads) ((peers_same_iff ps qs).1 tails),
    )

instance abbrev pub nv_keyed : {V : Type 0} ⦃keyed : Keyed V⦄ → Keyed (NpmPackageNv V)
nv_keyed = record { same = nv_same; same_iff = nv_same_iff }

instance abbrev pub id_keyed : {V : Type 0} ⦃keyed : Keyed V⦄ → Keyed (NpmPackageId V)
id_keyed = record { same = id_same; same_iff = id_same_iff }
