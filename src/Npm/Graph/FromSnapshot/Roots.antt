-- ===== src/Npm/Graph/FromSnapshot/Roots.antt =====
-- The requirements, roots and copy indices of the graph of a snapshot
-- (crates/module_fetcher/src/npm/resolution/graph.rs).
use server_based_deno.Base.{
  ℕ, suc, ◌≡◌, refl, sym, subst, ◌∙◌, false, some, List, [], ◌∷◌, map, Map, get, insert_in_order,
  get-insert_in_order, Keyed, nat_keyed, ◌==◌, Result, ok, err, length, Bool-cases, inl, inr, ◌⊎◌,
}
use server_based_deno.Npm.{Semver}
use server_based_deno.Npm.Id.{NpmPackageId}
use server_based_deno.Npm.Id.Equality.{NpmPackageNv, nv_keyed, id_keyed}
use server_based_deno.Npm.CopyIndex.{AreApart}
use server_based_deno.Npm.Snapshot.{
  NpmPackageReq, NpmResolutionPackage, NpmResolutionSnapshot, get_package_cache_folder_id,
}
use server_based_deno.Npm.Snapshot.Lookup.{IsClosed}
use server_based_deno.Npm.Graph.{Graph, GraphError, Hashed}
use server_based_deno.Npm.Graph.Resolver.{nv_ltb}
use server_based_deno.Npm.Graph.FromSnapshot.{
  Building, NodeFor, add_roots, empty_graph, from_snapshot,
}
use server_based_deno.Npm.Graph.FromSnapshot.Builds.{Within, Within-then}
use server_based_deno.Npm.Graph.IntoSnapshot.Closed.{CopiesApart}
use server_based_deno.Npm.Graph.Fit.{IsFit}
use server_based_deno.Npm.Graph.FromSnapshot.Fixed.{
  AnyError, Fixed, Fixed-refl, NodeFixed, get_or_create-Fixed,
}

abbrev Has : {K A : Type 0} ⦃keyed : Keyed K⦄ → K → Map K A → Type 0
Has {K} {A} k m = (a : A) × (get k m ≡ some a)

module _ (sv : Semver) ⦃version_keyed : Keyed sv.Version⦄ ⦃req_keyed : Keyed (NpmPackageReq sv.Req)⦄
    (hash : List (Hashed sv.Version) → ℕ) where
  open sv use {Version, Req}

  -- The roots that were added, with those that were there.
  record Rooting (g : Graph Version sv.Req)
      (added : Map (NpmPackageNv Version) (NpmPackageId Version)) (h : Graph Version sv.Req)
      : Type 0 where
    reqs : h.package_reqs ≡ g.package_reqs
    copies : h.packages_to_copy_index ≡ g.packages_to_copy_index
    pending : h.pending_unresolved_packages ≡ g.pending_unresolved_packages
    roots : (n : NpmPackageNv Version) → Has n added ⊎ Has n g.root_packages → Has n h.root_packages

  none_added :
      (n : NpmPackageNv Version) (roots : Map (NpmPackageNv Version) ℕ)
      (nothing : Map (NpmPackageNv Version) (NpmPackageId Version))
      → nothing ≡ []
      → Has n nothing ⊎ Has n roots
      → Has n roots
  unfolding get
  none_added n roots [] e (inl (x, q)) = cc q
  none_added n roots (x ∷ xs) e (inl there) = cc e
  none_added n roots nothing e (inr there) = there

  -- A root is the one that was inserted, or it was there before.
  one_added :
      (root : NpmPackageNv Version) (id : NpmPackageId Version) (node_id : ℕ)
      (rest : Map (NpmPackageNv Version) (NpmPackageId Version))
      (roots : Map (NpmPackageNv Version) ℕ) (n : NpmPackageNv Version)
      → Has n ((root, id) ∷ rest) ⊎ Has n roots
      → Has n rest ⊎ Has n (insert_in_order (nv_ltb sv) root node_id roots)
  unfolding get
  one_added root id node_id rest roots n h = elim (Bool-cases (root == n)) [
    | inl same ↦
        inr (node_id, rw (get-insert_in_order (nv_ltb sv) root n node_id roots) (rw same refl))
    | inr other ↦ before h other
  ]
    where
      before :
          Has n ((root, id) ∷ rest) ⊎ Has n roots
          → (root == n) ≡ false
          → Has n rest ⊎ Has n (insert_in_order (nv_ltb sv) root node_id roots)
      before (inl (x, e)) other = inl (x, rw other at e)
      before (inr (i, e)) other =
          inr (i, rw (get-insert_in_order (nv_ltb sv) root n node_id roots) (rw other e))

  add_roots-Rooting :
      (node_for : NodeFor Version sv.Req)
      → NodeFixed node_for
      → (added : Map (NpmPackageNv Version) (NpmPackageId Version)) (b : Building Version sv.Req)
      → Within AnyError (λ c. Rooting b.graph added c.graph) (add_roots sv hash node_for added b)
  unfolding add_roots
  add_roots-Rooting node_for claim [] b = record {
    reqs = refl;
    copies = refl;
    pending = refl;
    roots = λ n h. none_added n b.graph.root_packages [] refl h;
  }
  add_roots-Rooting node_for claim ((root, id) ∷ rest) b =
      Within-then AnyError (λ x. Fixed b.graph x.1.graph)
        (λ c. Rooting b.graph ((root, id) ∷ rest) c.graph) (node_for id b) _
        (claim b.graph id b (Fixed-refl b.graph))
        λ found fixed. weaken found fixed _ (
          add_roots-Rooting node_for claim rest (record found.1 {
            graph = record found.1.graph {
              root_packages = insert_in_order (nv_ltb sv) root found.0 found.1.graph.root_packages;
            };
          }))
    where
      weaken :
          (found : ℕ × Building Version sv.Req)
          → Fixed b.graph found.1.graph
          → (r : Result GraphError (Building Version sv.Req))
          → Within AnyError
              (λ c.
                Rooting
                  (record found.1.graph {
                    root_packages =
                        insert_in_order (nv_ltb sv) root found.0 found.1.graph.root_packages;
                  })
                  rest
                  c.graph)
              r
          → Within AnyError (λ c. Rooting b.graph ((root, id) ∷ rest) c.graph) r
      weaken found fixed (err e) h = tt
      weaken found fixed (ok c) h = record {
        reqs = h.reqs ∙ fixed.reqs;
        copies = h.copies ∙ fixed.copies;
        pending = h.pending ∙ fixed.pending;
        roots = λ n there. h.roots n (
            one_added root id found.0 rest found.1.graph.root_packages n (
              subst (λ (m : Map (NpmPackageNv Version) ℕ). Has n ((root, id) ∷ rest) ⊎ Has n m)
                (sym fixed.roots) there));
      }

  copy_indices :
      (id : NpmPackageId Version) (i : ℕ)
      (packages : Map (NpmPackageId Version) (NpmResolutionPackage Version))
      → get id (map (λ e. (e.0, e.1.copy_index)) packages) ≡ some i
      → (p : NpmResolutionPackage Version) × (get id packages ≡ some p) × (p.copy_index ≡ i)
  unfolding get
  copy_indices id i [] e = cc e
  copy_indices id i ((x, p) ∷ rest) e = elim (Bool-cases (x == id)) [
    | inl same ↦ (p, rw same refl, cc (rw same at e))
    | inr other ↦
        let (q, there, index) = copy_indices id i rest (rw other at e) in (q, rw other there, index)
  ]

  empty_graph-AreApart :
      (s : NpmResolutionSnapshot Version sv.Req)
      → IsClosed sv s
      → CopiesApart s
      → AreApart (empty_graph sv hash s).packages_to_copy_index
  unfolding get_package_cache_folder_id
  empty_graph-AreApart s closed apart a b i ha hb same =
      let (p, held_p, index_p) = copy_indices a i s.packages ha in
      let (q, held_q, index_q) = copy_indices b i s.packages hb in
      apart a b p q held_p held_q
        (cc (closed.ids a p held_p, closed.ids b q held_q, same, index_p, index_q))

  -- A closed snapshot whose copies have different indices, and in which nothing is pending, gives a
  -- graph of the same kind.
  pub from_snapshot-IsFit :
      (s : NpmResolutionSnapshot Version sv.Req)
      → IsClosed sv s
      → CopiesApart s
      → s.pending_unresolved_packages ≡ []
      → Within AnyError IsFit (from_snapshot sv hash s)
  unfolding from_snapshot
  from_snapshot-IsFit s closed apart nothing =
      Within-then AnyError (λ c. Rooting (empty_graph sv hash s) s.root_packages c.graph) IsFit _
        (λ b. ok b.graph)
        (add_roots-Rooting _ (get_or_create-Fixed hash s.packages (suc (length s.packages)))
          s.root_packages _)
        λ b rooting. record {
          rooted = λ r n e. rooting.roots n (inl (closed.reqs_held r n (rw rooting.reqs at e)));
          apart = rw rooting.copies (empty_graph-AreApart s closed apart);
          none_pending = rooting.pending ∙ nothing;
        }
