-- ===== src/Npm/Graph/IntoSnapshot/Loop.antt =====
-- The loop that makes a snapshot ends (crates/module_fetcher/src/npm/resolution/graph.rs).
use server_based_deno.Base.{
  or_cases, All-map, ℕ, zero, suc, ◌≤◌, ◌≡◌, refl, ap, subst, true, Option, none, some, List, [],
  ◌∷◌, Text, Map, get, Keyed, nat_keyed, text_keyed, ◌==◌, Result, ok, err, map_err, length, All,
  Bool-cases, inl, inr, arith,
}
use server_based_deno.Npm.{Semver, NpmPackageVersionInfo}
use server_based_deno.Npm.Id.{NpmPackageId}
use server_based_deno.Npm.Id.Equality.{nv, nv_keyed, id_keyed}
use server_based_deno.Npm.Snapshot.{NpmPackageReq}
use server_based_deno.Npm.Graph.{Graph, Node, GraphError, out_of_fuel, api_failed}
use server_based_deno.Npm.Graph.Resolver.{NpmRegistryApi, package_version_info}
use server_based_deno.Npm.Graph.IntoSnapshot.{
  Collecting, walk_children, put_package, put_name, dist_of, collect, next_pending, collect_pending,
}
use server_based_deno.Npm.Graph.IntoSnapshot.Queue.{Sure, Sure-then, is_pending, Inv, Spreads, work}
use server_based_deno.Npm.Graph.Sound.{Known, IsSound}
use server_based_deno.Npm.Graph.PackageIds.Ends.{get_npm_pkg_id_ends}
use server_based_deno.Npm.Graph.IntoSnapshot.{pkg_ids}
use server_based_deno.Npm.Graph.IntoSnapshot.Rounds.{walk_children-Sure, put_package-Inv}

-- Every key of the nodes is known.
Known-cons : (j k : ℕ) (n : Node) (nodes : Map ℕ Node) → Known nodes k → Known ((j, n) ∷ nodes) k
unfolding get
Known-cons j k n nodes (m, e) = elim (Bool-cases (j == k)) [
  | inl same ↦ (n, rw same refl)
  | inr other ↦ (m, rw other e)
]

pub Known-keys : (nodes : Map ℕ Node) → All (λ e. Known nodes e.0) nodes
unfolding get
Known-keys [] = tt
Known-keys ((j, n) ∷ nodes) =
    let self = (nat_keyed.same_iff j j).1 refl in
    ((n, rw self refl), All-map nodes (λ e k. Known-cons j e.0 n nodes k) (Known-keys nodes))

module _ (sv : Semver) ⦃version_keyed : Keyed sv.Version⦄ ⦃req_keyed : Keyed (NpmPackageReq sv.Req)⦄
    (api : NpmRegistryApi) (node_ids : ℕ → ℕ) (g : Graph sv.Version sv.Req)
    (sound : IsSound g) where
  open sv use {Version, Req}

  pub pkg_ids-named :
      (nodes : Map ℕ Node)
      → All (λ e. Known g.nodes e.0) nodes
      → (ids : Map ℕ (NpmPackageId Version)) × (pkg_ids sv api node_ids g nodes ≡ ok ids)
        × (length ids ≡ length nodes)
        × ((i : ℕ) → Known nodes i → (p : NpmPackageId Version) × (get i ids ≡ some p))
  unfolding pkg_ids get
  pkg_ids-named [] h = ([], refl, refl, λ i (n, e). cc e)
  pkg_ids-named ((j, n) ∷ nodes) h =
      let (p, _, e, _, _) = get_npm_pkg_id_ends node_ids g sound j h.0 in
      let (ids, q, len, named) = pkg_ids-named nodes h.1 in
      ((j, p) ∷ ids, rw e (rw q refl), ap suc len, λ i k. name_cons j i p n nodes ids named k)
    where
      name_cons :
          (j i : ℕ) (p : NpmPackageId Version) (n : Node) (nodes : Map ℕ Node)
          (ids : Map ℕ (NpmPackageId Version))
          → ((i : ℕ) → Known nodes i → (p : NpmPackageId Version) × (get i ids ≡ some p))
          → Known ((j, n) ∷ nodes) i
          → (q : NpmPackageId Version) × (get i ((j, p) ∷ ids) ≡ some q)
      name_cons j i p n nodes ids named (m, k) = elim (Bool-cases (j == i)) [
        | inl same ↦ (p, rw same refl)
        | inr other ↦ let (d, f) = named i (m, rw other at k) in (d, rw other f)
      ]

  module _ (ids : Map ℕ (NpmPackageId Version))
      (named : (i : ℕ) → Known g.nodes i → (p : NpmPackageId Version) × (get i ids ≡ some p)) where
    abbrev pub Collected : List (NpmPackageId Version) → Collecting Version → Type 0
    Collected extra c = Inv g.nodes g.packages_to_copy_index extra c

    abbrev Advanced : Collecting Version → Collecting Version → Type 0
    Advanced c d = Collected [] d × Spreads c d × (work ids d ≤ work ids c)

    api-Sure : {A : Type 0} (r : Result Text A) → Sure (λ a. Unit {0}) (map_err api_failed r)
    api-Sure (ok a) = tt
    api-Sure (err e) = (λ q. cc q, λ q. cc q)

    dist-Sure : (info : Option NpmPackageVersionInfo) → Sure (λ a. Unit {0}) (dist_of info)
    dist-Sure none = (λ q. cc q, λ q. cc q)
    dist-Sure (some info) = tt

    put_name-Inv :
        (extra : List (NpmPackageId Version)) (id : NpmPackageId Version) (c : Collecting Version)
        → Collected extra c
        → Collected extra (put_name id c)
    unfolding put_name
    put_name-Inv extra id c inv = record {
      listed = inv.listed;
      pending_known = inv.pending_known;
      own_id = inv.own_id;
      dependencies_traversed = inv.dependencies_traversed;
      indexed = inv.indexed;
      good = inv.good;
    }

    collect-Sure :
        (n : ℕ) (id : NpmPackageId Version) (c : Collecting Version)
        → Collected (id ∷ []) c
        → Known g.nodes n
        → Sure (Advanced c) (collect sv api node_ids g ids (n, id) c)
    unfolding collect put_name put_package
    collect-Sure n id c inv (node, there) =
        let start = put_name id c in
        let inv_start = put_name-Inv (id ∷ []) id c inv in
        rw there (
          Sure-then (λ a. Unit {0}) (Advanced c)
            (map_err api_failed (package_version_info sv api (nv id))) _ (api-Sure _)
            λ info _.
              Sure-then (λ a. Unit {0}) (Advanced c) (dist_of info) _ (dist-Sure info)
                λ dist _.
                  Sure-then _ (Advanced c) (walk_children ids node.children [] start) _
                    (walk_children-Sure g.nodes g.packages_to_copy_index ids named (id ∷ [])
                      node.children [] start inv_start (sound.children n node there)
                      (λ name d e. unfold get in cc e))
                    λ w walked. (
                      put_package-Inv g.nodes g.packages_to_copy_index ids named id dist w.0 w.1
                          walked.0.inv walked.1,
                      (λ x t. walked.0.spreads x t),
                      walked.0.less,
                    ))

    popped :
        (n : ℕ) (id : NpmPackageId Version) (es : List (ℕ × NpmPackageId Version))
        (c : Collecting Version)
        → c.pending ≡ (n, id) ∷ es
        → Collected [] c
        → Collected (id ∷ []) (record c { pending = es })
    popped n id es c e inv = record {
      listed = λ x t. elim (inv.listed x t) [
        | inl held ↦ inl held
        | inr (inl p) ↦
            elim (or_cases (id == x) (is_pending x es) (subst (λ l. is_pending x l ≡ true) e p)) [
              | inl same ↦ inr (inr (rw same refl))
              | inr later ↦ inr (inl later)
            ]
        | inr (inr never) ↦ cc never
      ];
      pending_known = (subst (λ l. All (λ k. Known g.nodes k.0) l) e inv.pending_known).1;
      own_id = inv.own_id;
      dependencies_traversed = inv.dependencies_traversed;
      indexed = inv.indexed;
      good = inv.good;
    }

    abbrev pub Ended : Collecting Version → Collecting Version → Type 0
    Ended c d = Collected [] d × (d.pending ≡ []) × Spreads c d

    spread :
        (c d : Collecting Version) (r : Result GraphError (Collecting Version))
        → Sure (Ended d) r
        → Spreads c d
        → Sure (Ended c) r
    spread c d (ok f) ended spreads = (ended.0, ended.1, λ x t. ended.2 x (spreads x t))
    spread c d (err f) ended spreads = ended

    -- A round and what follows it.
    next-Sure :
        (rest : Collecting Version → Result GraphError (Collecting Version))
        (pending : List (ℕ × NpmPackageId Version)) (c : Collecting Version)
        → c.pending ≡ pending
        → Collected [] c
        → ((d : Collecting Version)
            → Collected [] d
            → suc (work ids d) ≤ work ids c
            → Sure (Ended d) (rest d))
        → Sure (Ended c) (next_pending sv api node_ids g ids rest pending c)
    next-Sure rest [] c e inv next = (inv, e, λ x t. t)
    next-Sure rest ((n, id) ∷ es) c e inv next =
        let taken = popped n id es c e inv in
        let known = (subst (λ l. All (λ k. Known g.nodes k.0) l) e inv.pending_known).0 in
        let size = ap length e in
        Sure-then (Advanced (record c { pending = es })) (Ended c) _ rest
          (collect-Sure n id (record c { pending = es }) taken known)
          λ d advanced.
            spread c d _ (next d advanced.0 (let less = advanced.2 in omega arith)) advanced.1

    -- As many rounds are enough as there are ids left and packages in the queue.
    pub collect_pending-Sure :
        (fuel : ℕ) (c : Collecting Version)
        → Collected [] c
        → work ids c ≤ fuel
        → Sure (Ended c) (collect_pending sv api node_ids g ids fuel c)
    unfolding collect_pending
    collect_pending-Sure zero c inv enough =
        next-Sure (λ _. err out_of_fuel) c.pending c refl inv (λ d _ less. absurd (omega arith))
    collect_pending-Sure (suc fuel) c inv enough =
        next-Sure (collect_pending sv api node_ids g ids fuel) c.pending c refl inv
          (λ d inv_d less. collect_pending-Sure fuel d inv_d (omega arith))
