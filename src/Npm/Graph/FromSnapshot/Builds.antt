-- ===== src/Npm/Graph/FromSnapshot/Builds.antt =====
-- The recursion that makes the graph of a snapshot
-- (crates/module_fetcher/src/npm/resolution/graph.rs), for a set `E` of errors and a set `Fits` of
-- ids: either nothing is known of the ids, or each is a package's and there is fuel enough.
use server_based_deno.Base.{
  ℕ, suc, ◌≤◌, ◌<◌, ◌≡◌, refl, sym, subst, ◌∙◌, ◌↔◌, Bool, true, false, ◌||◌, some, List, [], ◌∷◌,
  Text, Map, get, insert, get-insert, Keyed, nat_keyed, ◌==◌, nat_beq, Result, ok, err, ◌>>=◌, All,
  Bool-cases, inl, inr, ◌⊎◌, arith, if◌then◌else◌,
}
use server_based_deno.Npm.Id.{NpmPackageId, Peers, no_peers, peer}
use server_based_deno.Npm.Id.Equality.{nv_keyed, id_keyed}
use server_based_deno.Npm.Snapshot.{NpmResolutionPackage}
use server_based_deno.Npm.Snapshot.Lockfile.{contains_key}
use server_based_deno.Npm.Graph.{
  Graph, ResolvedIdPeerDep, GraphError, same_node, out_of_fuel, Hashed, set_child_of_parent_node,
}
use server_based_deno.Npm.Graph.FromSnapshot.{Building, NodeFor, peer_dep_ids, set_children}
use server_based_deno.Npm.Graph.FromSnapshot.Sound.{Inv, set_child-Inv}
use server_based_deno.Npm.Graph.Sound.{Known, PeerKnown, Grows}

-- A value with the property, or an error of the set.
abbrev pub Within :
    {A : Type 0} → (GraphError → Type 0) → (A → Type 0) → Result GraphError A → Type 0
Within E Q (ok a) = Q a
Within E Q (err e) = E e

pub Within-then :
    {A B : Type 0} (E : GraphError → Type 0) (P : A → Type 0) (Q : B → Type 0)
    (r : Result GraphError A) (k : A → Result GraphError B)
    → Within E P r
    → ((a : A) → P a → Within E Q (k a))
    → Within E Q (r >>= k)
Within-then E P Q (ok a) k h next = next a h
Within-then E P Q (err e) k h next = h

module _ {V : Type 0} ⦃version_keyed : Keyed V⦄ where
  contains_key-insert :
      (id x : NpmPackageId V) (n : ℕ) (created : Map (NpmPackageId V) ℕ)
      → contains_key x (insert id n created) ≡ (id == x || contains_key x created)
  contains_key-insert id x n created = elim (Bool-cases (id == x)) [
    | inl same ↦
        rw same (rw (get-insert id x n created, contains_key) (rw (same, contains_key) refl))
    | inr other ↦
        rw other (rw (get-insert id x n created, contains_key) (rw (other, contains_key) refl))
  ]

  -- How many packages have no node.
  abbrev pub uncreated : Map (NpmPackageId V) (NpmResolutionPackage V) → Map (NpmPackageId V) ℕ → ℕ
  uncreated [] created = 0
  uncreated ((id, p) ∷ rest) created =
      if contains_key id created then uncreated rest created else suc (uncreated rest created)

  pub uncreated-insert-le :
      (packages : Map (NpmPackageId V) (NpmResolutionPackage V)) (id : NpmPackageId V) (n : ℕ)
      (created : Map (NpmPackageId V) ℕ)
      → uncreated packages (insert id n created) ≤ uncreated packages created
  uncreated-insert-le [] id n created = omega arith
  uncreated-insert-le ((x, p) ∷ rest) id n created =
      let le = uncreated-insert-le rest id n created in
      let e = contains_key-insert id x n created in
      rw e (by_tests (id == x) (contains_key x created) le)
    where
      by_tests :
          (a b : Bool)
          → uncreated rest (insert id n created) ≤ uncreated rest created
          → (if a || b
              then uncreated rest (insert id n created)
              else suc (uncreated rest (insert id n created)))
            ≤ (if b then uncreated rest created else suc (uncreated rest created))
      by_tests true true le = le
      by_tests true false le = omega arith
      by_tests false true le = le
      by_tests false false le = omega arith

  pub uncreated-insert-lt :
      (packages : Map (NpmPackageId V) (NpmResolutionPackage V)) (id : NpmPackageId V)
      (p : NpmResolutionPackage V) (n : ℕ) (created : Map (NpmPackageId V) ℕ)
      → get id packages ≡ some p
      → contains_key id created ≡ false
      → uncreated packages (insert id n created) < uncreated packages created
  unfolding get
  uncreated-insert-lt [] id p n created e new = cc
  uncreated-insert-lt ((x, q) ∷ rest) id p n created e new =
      let test = contains_key-insert id x n created in
      elim (Bool-cases (x == id)) [
        | inl same ↦
            let eq = (id_keyed.same_iff x id).0 same in
            let flipped : (id == x) ≡ true = (id_keyed.same_iff id x).1 (sym eq) in
            let le = uncreated-insert-le rest id n created in
            let fresh : contains_key x created ≡ false =
              subst (λ y. contains_key y created ≡ false) (sym eq) new in
            rw test (rw flipped (rw fresh (omega arith)))
        | inr other ↦
            let lt = uncreated-insert-lt rest id p n created (rw other at e) new in
            rw test (
              by_tests (id == x) (contains_key x created) other (id_keyed.same_iff id x)
                (id_keyed.same_iff x id) lt)
      ]
    where
      by_tests :
          (a b : Bool)
          → (x == id) ≡ false
          → ((a ≡ true) ↔ (id ≡ x))
          → (((x == id) ≡ true) ↔ (x ≡ id))
          → uncreated rest (insert id n created) < uncreated rest created
          → (if a || b
              then uncreated rest (insert id n created)
              else suc (uncreated rest (insert id n created)))
            < (if b then uncreated rest created else suc (uncreated rest created))
      by_tests true b other one two lt =
          let never : true ≡ false = sym (two.1 (sym (one.0 refl))) ∙ other in absurd (cc never)
      by_tests false true other one two lt = lt
      by_tests false false other one two lt = omega arith

abbrev pub PeersFit : {V : Type 0} → (NpmPackageId V → Type 0) → Peers V → Type 0
PeersFit Fits no_peers = Unit
PeersFit Fits (peer p ps) = Fits p × PeersFit Fits ps

module _ {V R : Type 0} ⦃version_keyed : Keyed V⦄ (hash : List (Hashed V) → ℕ)
    (packages : Map (NpmPackageId V) (NpmResolutionPackage V)) (E : GraphError → Type 0)
    (Fits : NpmPackageId V → Type 0) (same_node-E : E same_node) where
  abbrev pub left : Building V R → ℕ
  left b = uncreated packages b.created_package_ids

  abbrev pub Enough : ℕ → Building V R → Type 0
  Enough limit b = E out_of_fuel ⊎ (left b < limit)

  pub Enough-fewer :
      (limit : ℕ) (b c : Building V R) → left c ≤ left b → Enough limit b → Enough limit c
  Enough-fewer limit b c fewer (inl e) = inl e
  Enough-fewer limit b c fewer (inr lt) = inr (omega arith)

  pub record Step (unset : List ℕ) (b c : Building V R) : Type 0 where
    pub inv : Inv unset c
    pub grows : Grows b.graph.nodes c.graph.nodes
    pub fewer : left c ≤ left b

  pub Step-trans :
      {unset : List ℕ} (b c d : Building V R) → Step unset b c → Step unset c d → Step unset b d
  Step-trans b c d s t = record {
    inv = t.inv;
    grows = λ i k. t.grows i (s.grows i k);
    fewer = let x = s.fewer in let y = t.fewer in omega arith;
  }

  abbrev pub Built : List ℕ → Building V R → ℕ × Building V R → Type 0
  Built unset b x = Step unset b x.1 × Known x.1.graph.nodes x.0

  -- What the recursive call is taken to do.
  abbrev pub NodeClaim : NodeFor V R → ℕ → Type 0
  NodeClaim node_for limit =
      (unset : List ℕ) (id : NpmPackageId V) (b : Building V R)
      → Inv unset b
      → Fits id
      → Enough limit b
      → Within E (Built unset b) (node_for id b)

  abbrev pub BuiltPeers : List ℕ → Building V R → List (ResolvedIdPeerDep V) × Building V R → Type 0
  BuiltPeers unset b x = Step unset b x.1 × All (PeerKnown x.1.graph.nodes) x.0

  pub peer_dep_ids-Within :
      (node_for : NodeFor V R) (limit : ℕ)
      → NodeClaim node_for limit
      → (unset : List ℕ) (ps : Peers V) (b : Building V R) → Inv unset b
      → PeersFit Fits ps
      → Enough limit b
      → Within E (BuiltPeers unset b) (peer_dep_ids node_for ps b)
  unfolding peer_dep_ids
  peer_dep_ids-Within node_for limit claim unset no_peers b inv fit enough =
      (record { inv = inv; grows = λ i k. k; fewer = omega arith }, tt)
  peer_dep_ids-Within node_for limit claim unset (peer p ps) b inv fit enough =
      Within-then E (Built unset b) (BuiltPeers unset b) (node_for p b) _
        (claim unset p b inv fit.0 enough)
        λ one built.
          Within-then E (BuiltPeers unset one.1) (BuiltPeers unset b)
            (peer_dep_ids node_for ps one.1) _
            (peer_dep_ids-Within node_for limit claim unset ps one.1 built.0.inv fit.1
              (Enough-fewer limit b one.1 built.0.fewer enough))
            λ others more.
              (Step-trans b one.1 others.1 built.0 more.0, (more.0.grows one.0 built.1, more.1))

  pub child_set :
      (p child : ℕ) (name : Text) (g : Graph V R)
      → Known g.nodes p
      → Within E
          (λ after. set_child_of_parent_node p name child g ≡ ok after)
          (set_child_of_parent_node p name child g)
  unfolding set_child_of_parent_node
  child_set p child name g (n, there) = elim (Bool-cases (nat_beq child p)) [
    | inl same ↦ rw same same_node-E
    | inr other ↦ rw other (rw there refl)
  ]

  pub set_children-Within :
      (node_for : NodeFor V R) (limit : ℕ)
      → NodeClaim node_for limit
      → (unset : List ℕ) (p : ℕ) (children : Map Text (NpmPackageId V)) (b : Building V R)
      → Inv unset b
      → Known b.graph.nodes p
      → All (λ c. Fits c.1) children
      → Enough limit b
      → Within E (Step unset b) (set_children node_for p children b)
  unfolding set_children
  set_children-Within node_for limit claim unset p [] b inv known fit enough = record {
    inv = inv;
    grows = λ i k. k;
    fewer = omega arith;
  }
  set_children-Within node_for limit claim unset p ((name, child) ∷ rest) b inv known fit enough =
      Within-then E (Built unset b) (Step unset b) (node_for child b) _
        (claim unset child b inv fit.0 enough)
        λ found built.
          let known_p = built.0.grows p known in
          Within-then E _ (Step unset b) (set_child_of_parent_node p name found.0 found.1.graph) _
            (child_set p found.0 name found.1.graph known_p)
            λ g is_set.
              let (inv_g, grows_g) =
                set_child-Inv unset found.1 p found.0 name g built.0.inv known_p built.1 is_set in
              let after : Building V R = record found.1 { graph = g } in
              let here : Step unset b after = record {
                inv = inv_g;
                grows = λ i k. grows_g i (built.0.grows i k);
                fewer = built.0.fewer;
              } in
              Within-map (Step unset after) (Step unset b) _ (λ c s. Step-trans b after c here s)
                (set_children-Within node_for limit claim unset p rest after inv_g
                  (grows_g p known_p) fit.1 (Enough-fewer limit b found.1 built.0.fewer enough))
    where
      Within-map :
          {A : Type 0} (P Q : A → Type 0) (r : Result GraphError A)
          → ((a : A) → P a → Q a)
          → Within E P r
          → Within E Q r
      Within-map P Q (ok a) f h = f a h
      Within-map P Q (err e) f h = h
