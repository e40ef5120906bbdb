-- ===== src/Npm/Graph/Fit/Pending.antt =====
-- Dependencies keep the graph fit (crates/module_fetcher/src/npm/resolution/graph.rs).
use server_based_deno.Base.{
  ℕ, Bool, true, false, Option, none, some, List, [], ◌∷◌, Text, get, nat_keyed, text_keyed,
  nat_beq, Keyed, Bool-cases, inl, inr,
}
use server_based_deno.Npm.{Semver, NpmPackageInfo}
use server_based_deno.Npm.Id.Equality.{NpmPackageNv, nv_keyed}
use server_based_deno.Npm.Snapshot.{NpmPackageReq}
use server_based_deno.Npm.Dependencies.{NpmDependencyEntry}
use server_based_deno.Npm.Graph.{GraphPath, at_node, Hashed, specifier}
use server_based_deno.Npm.Graph.Paths.{find_ancestor, get_path_to_ancestor_exclusive}
use server_based_deno.Npm.Graph.Resolver.{
  State, node_id, push_pending, set_child, resolved_or_panic, node_or_panic, with_id,
  resolve_node_from_info,
}
use server_based_deno.Npm.Graph.Peers.{PeerDeps, first}
use server_based_deno.Npm.Graph.Find.{with_nvs}
use server_based_deno.Npm.Graph.Pending.{
  add_any_peer_deps, add_linked_circular_descendant, link_or_queue, analyze_dependency, visit_child,
  analyzed_or_not, check_peers, resolve_dep,
}
use server_based_deno.Npm.Graph.Fit.{IsFit, Kept, Kept-then}
use server_based_deno.Npm.Graph.Fit.Steps.{
  push_pending-Kept, push_linked-Kept, new_path-Kept, resolved_or_panic-Kept, node_or_panic-Kept,
  return-Kept, set_child-Kept, resolve_node_from_info-Kept,
}
use server_based_deno.Npm.Graph.Fit.Peers.{add_peer_deps_to_path-Kept}

module _ (sv : Semver) ⦃version_keyed : Keyed sv.Version⦄ ⦃req_keyed : Keyed (NpmPackageReq sv.Req)⦄
    (hash : List (Hashed sv.Version) → ℕ) (known_good : sv.Req) (depth : ℕ) where
  open sv use {Version, Req}

  add_any_peer_deps-Kept :
      (deps : PeerDeps Version) (path : List (GraphPath Version)) (s : State sv)
      → IsFit s.graph
      → Kept (add_any_peer_deps sv hash known_good depth deps path s)
  add_any_peer_deps-Kept [] path s fit = record { fit = fit }
  add_any_peer_deps-Kept (d ∷ ds) path s fit =
      add_peer_deps_to_path-Kept sv hash depth (d ∷ ds) path s fit

  add_linked-Kept :
      (ancestor descendant : GraphPath Version) (s : State sv)
      → IsFit s.graph
      → Kept (add_linked_circular_descendant sv hash known_good depth ancestor descendant s)
  unfolding add_linked_circular_descendant
  add_linked-Kept ancestor descendant s fit =
      let id = node_id s ancestor in
      let path = get_path_to_ancestor_exclusive s.node_ids id descendant in
      Kept-then (resolved_or_panic id s) (resolved_or_panic-Kept id s fit) λ r s1 fit1.
        Kept-then (with_nvs s1.graph.resolved_node_ids r.peer_dependencies, s1)
          (return-Kept _ s1 fit1)
          λ deps s2 fit2.
            Kept-then (add_any_peer_deps sv hash known_good depth deps path s2)
              (add_any_peer_deps-Kept deps path s2 fit2)
              λ a s3 fit3.
                Kept-then (first path, s3) (return-Kept _ s3 fit3)
                  λ bottom s4 fit4.
                    Kept-then
                      (set_child (node_id s4 bottom) (specifier descendant) (node_id s4 descendant)
                        s4)
                      (set_child-Kept _ _ _ s4 fit4)
                      λ b s5 fit5. push_linked-Kept ancestor descendant s5 fit5

  link_or_queue-Kept :
      (parent : GraphPath Version) (parent_id : ℕ) (name : Text) (nv : NpmPackageNv Version)
      (child : ℕ) (ancestor : Option (GraphPath Version)) (s : State sv)
      → IsFit s.graph
      → Kept (link_or_queue sv hash known_good depth parent parent_id name nv child ancestor s)
  link_or_queue-Kept parent parent_id name nv child none s fit =
      Kept-then (with_id parent child name nv s)
        (new_path-Kept (at_node parent) child name nv s fit)
        λ path s1 fit1.
          Kept-then (set_child parent_id name child s1)
            (set_child-Kept parent_id name child s1 fit1)
            λ a s2 fit2.
              Kept-then (push_pending path s2) (push_pending-Kept path s2 fit2)
                λ b s3 fit3. return-Kept _ s3 fit3
  link_or_queue-Kept parent parent_id name nv child (some ancestor) s fit =
      Kept-then (with_id parent (node_id s ancestor) name nv s)
        (new_path-Kept (at_node parent) _ name nv s fit)
        λ path s1 fit1.
          Kept-then (add_linked_circular_descendant sv hash known_good depth ancestor path s1)
            (add_linked-Kept ancestor path s1 fit1) λ a s2 fit2. return-Kept _ s2 fit2

  analyze_dependency-Kept :
      (entry : NpmDependencyEntry sv.Req) (info : NpmPackageInfo) (parent : GraphPath Version)
      (s : State sv)
      → IsFit s.graph
      → Kept (analyze_dependency sv hash known_good depth entry info parent s)
  unfolding analyze_dependency
  analyze_dependency-Kept entry info parent s fit =
      let parent_id = node_id s parent in
      Kept-then (resolve_node_from_info sv hash known_good entry.version_req info s)
        (resolve_node_from_info-Kept sv hash known_good entry.version_req info s fit)
        λ child t fit_t. elim (Bool-cases (nat_beq child.1 parent_id)) [
          | inl same ↦ rw same (return-Kept _ t fit_t)
          | inr other ↦ rw other (
              link_or_queue-Kept parent parent_id entry.bare_specifier child.0 child.1
                (find_ancestor child.0 parent) t fit_t)
        ]

  visit_child-Kept :
      (parent : GraphPath Version) (child : ℕ) (name : Text) (nv : NpmPackageNv Version)
      (ancestor : Option (GraphPath Version)) (s : State sv)
      → IsFit s.graph
      → Kept (visit_child sv hash known_good depth parent child name nv ancestor s)
  visit_child-Kept parent child name nv none s fit =
      Kept-then (with_id parent child name nv s)
        (new_path-Kept (at_node parent) child name nv s fit)
        λ path s1 fit1.
          Kept-then (push_pending path s1) (push_pending-Kept path s1 fit1)
            λ a s2 fit2. return-Kept _ s2 fit2
  visit_child-Kept parent child name nv (some ancestor) s fit =
      Kept-then (with_id parent child name nv s)
        (new_path-Kept (at_node parent) child name nv s fit)
        λ path s1 fit1.
          Kept-then (add_linked_circular_descendant sv hash known_good depth ancestor path s1)
            (add_linked-Kept ancestor path s1 fit1) λ a s2 fit2. return-Kept _ s2 fit2

  analyzed_or_not-Kept :
      (entry : NpmDependencyEntry sv.Req) (info : NpmPackageInfo) (parent : GraphPath Version)
      (child : Option ℕ) (s : State sv)
      → IsFit s.graph
      → Kept (analyzed_or_not sv hash known_good depth entry info parent child s)
  analyzed_or_not-Kept entry info parent none s fit =
      analyze_dependency-Kept entry info parent s fit
  analyzed_or_not-Kept entry info parent (some child) s fit =
      Kept-then (resolved_or_panic child s) (resolved_or_panic-Kept child s fit) λ r t fit_t.
        visit_child-Kept parent child entry.bare_specifier r.nv (find_ancestor r.nv parent) t fit_t

  check_peers-Kept :
      (found : Bool) (child : ℕ) (s : State sv)
      → IsFit s.graph
      → Kept (check_peers sv hash known_good depth found child s)
  check_peers-Kept true child s fit = record { fit = fit }
  check_peers-Kept false child s fit =
      Kept-then (node_or_panic child s) (node_or_panic-Kept child s fit)
        λ node t fit_t. return-Kept _ t fit_t

  pub resolve_dep-Kept :
      (entry : NpmDependencyEntry sv.Req) (info : NpmPackageInfo) (path : GraphPath Version)
      (found : Bool) (s : State sv)
      → IsFit s.graph
      → Kept (resolve_dep sv hash known_good depth entry info path found s)
  unfolding resolve_dep
  resolve_dep-Kept entry info path found s fit =
      Kept-then (node_or_panic (node_id s path) s) (node_or_panic-Kept _ s fit) λ node s1 fit1.
        let child = get entry.bare_specifier node.children in
        Kept-then (analyzed_or_not sv hash known_good depth entry info path child s1)
          (analyzed_or_not-Kept entry info path child s1 fit1)
          λ id s2 fit2. check_peers-Kept found id s2 fit2
