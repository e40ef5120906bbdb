-- ===== src/Npm/Graph/Fit/Steps.antt =====
-- The single steps of the resolver keep the graph fit
-- (crates/module_fetcher/src/npm/resolution/graph.rs).
use server_based_deno.Base.{
  ℕ, ◌≡◌, refl, nat_keyed, Option, none, some, List, [], ◌∷◌, Text, get, insert, insert_in_order,
  get-insert, get-insert_in_order, Keyed, nat_beq, ◌==◌, Result, ok, err, Bool-cases, Option-cases,
  Result-cases, inl, inr, map_err,
}
use server_based_deno.Npm.{Semver, NpmPackageInfo, NpmPackageVersionInfo}
use server_based_deno.Npm.Id.Equality.{NpmPackageNv, nv_keyed}
use server_based_deno.Npm.Snapshot.{NpmPackageReq}
use server_based_deno.Npm.Versions.{resolve_best_package_version_and_info}
use server_based_deno.Npm.Dependencies.{NpmDependencyEntry}
use server_based_deno.Npm.Graph.{
  Graph, Node, GraphPath, GraphPathNodeOrRoot, at_root, GraphError, ResolvedId, Hashed, create_node,
  found_or_created, get_or_create_for_id, added_child, set_child_of_parent_node, version_failed,
}
use server_based_deno.Npm.Graph.DepEntries.{sorted_entries}
use server_based_deno.Npm.Graph.Resolver.{
  GraphDependencyResolver, State, push_pending, change_id, push_linked, new_path, for_root,
  resolved_or_panic, node_or_panic, with_graph, marked_no_peers, set_no_peers, set_child,
  get_or_create, versions_of, nv_ltb, insert_root, insert_req, store, cached_or_stored, mark_leaf,
  resolve_node_from_info, or_latest, add_package_req,
}
use server_based_deno.Npm.Graph.FromSnapshot.Builds.{Within}
use server_based_deno.Npm.Graph.Fit.{IsFit, Kept, Kept-then}

abbrev AnyError : GraphError → Type 0
AnyError e = Unit

module _ {V R : Type 0} ⦃version_keyed : Keyed V⦄ ⦃req_keyed : Keyed (NpmPackageReq R)⦄ where
  pub push_pending-Kept :
      (path : GraphPath V) (s : GraphDependencyResolver V R)
      → IsFit s.graph
      → Kept (push_pending path s)
  unfolding push_pending
  push_pending-Kept path s fit = record { fit = fit }

  pub change_id-Kept :
      (path : GraphPath V) (id : ℕ) (s : GraphDependencyResolver V R)
      → IsFit s.graph
      → Kept (change_id path id s)
  unfolding change_id
  change_id-Kept path id s fit = record { fit = fit }

  pub push_linked-Kept :
      (ancestor descendant : GraphPath V) (s : GraphDependencyResolver V R)
      → IsFit s.graph
      → Kept (push_linked ancestor descendant s)
  unfolding push_linked
  push_linked-Kept ancestor descendant s fit = record { fit = fit }

  pub new_path-Kept :
      (previous : GraphPathNodeOrRoot V) (id : ℕ) (name : Text) (nv : NpmPackageNv V)
      (s : GraphDependencyResolver V R)
      → IsFit s.graph
      → Kept (new_path previous id name nv s)
  unfolding new_path
  new_path-Kept previous id name nv s fit = record { fit = fit }

  pub resolved_or_panic-Kept :
      (id : ℕ) (s : GraphDependencyResolver V R) → IsFit s.graph → Kept (resolved_or_panic id s)
  unfolding resolved_or_panic
  resolved_or_panic-Kept id s fit = record { fit = fit }

  pub node_or_panic-Kept :
      (id : ℕ) (s : GraphDependencyResolver V R) → IsFit s.graph → Kept (node_or_panic id s)
  unfolding node_or_panic
  node_or_panic-Kept id s fit = record { fit = fit }

  pub return-Kept :
      {A : Type 0} (r : Result GraphError A) (s : GraphDependencyResolver V R)
      → IsFit s.graph
      → Kept (r, s)
  return-Kept r s fit = record { fit = fit }

  with_graph-Kept :
      (r : Result GraphError (Graph V R)) (s : GraphDependencyResolver V R)
      → IsFit s.graph
      → Within AnyError IsFit r
      → Kept (with_graph r s)
  with_graph-Kept (ok g) s fit fit_r = record { fit = fit_r }
  with_graph-Kept (err e) s fit fit_r = record { fit = fit }

  marked-IsFit :
      (id : ℕ) (o : Option Node) (g : Graph V R)
      → IsFit g
      → Within AnyError IsFit (marked_no_peers id o g)
  marked-IsFit id none g fit = tt
  marked-IsFit id (some node) g fit = record {
    rooted = fit.rooted;
    apart = fit.apart;
    none_pending = fit.none_pending;
  }

  added_child-IsFit :
      (parent : ℕ) (name : Text) (child : ℕ) (o : Option Node) (g : Graph V R)
      → IsFit g
      → Within AnyError IsFit (added_child parent name child o g)
  added_child-IsFit parent name child none g fit = tt
  added_child-IsFit parent name child (some node) g fit = record {
    rooted = fit.rooted;
    apart = fit.apart;
    none_pending = fit.none_pending;
  }

  pub put_graph-Kept :
      (parent : ℕ) (name : Text) (child : ℕ) (s : GraphDependencyResolver V R)
      → IsFit s.graph
      → Kept (with_graph (added_child parent name child (get parent s.graph.nodes) s.graph) s)
  put_graph-Kept parent name child s fit =
      with_graph-Kept _ s fit (added_child-IsFit parent name child _ s.graph fit)

  pub set_no_peers-Kept :
      (id : ℕ) (s : GraphDependencyResolver V R) → IsFit s.graph → Kept (set_no_peers id s)
  unfolding set_no_peers
  set_no_peers-Kept id s fit = with_graph-Kept _ s fit (marked-IsFit id _ s.graph fit)

  pub set_child-Kept :
      (parent : ℕ) (name : Text) (child : ℕ) (s : GraphDependencyResolver V R)
      → IsFit s.graph
      → Kept (set_child parent name child s)
  unfolding set_child set_child_of_parent_node
  set_child-Kept parent name child s fit = elim (Bool-cases (nat_beq child parent)) [
    | inl same ↦ rw same (record { fit = fit })
    | inr other ↦ rw other (put_graph-Kept parent name child s fit)
  ]

  module _ (hash : List (Hashed V) → ℕ) where
    found_or_created-IsFit :
        (node_ids : ℕ → ℕ) (id : ResolvedId V) (o : Option ℕ) (g : Graph V R)
        → IsFit g
        → IsFit (found_or_created hash node_ids id o g).1
    unfolding create_node
    found_or_created-IsFit node_ids id (some n) g fit = fit
    found_or_created-IsFit node_ids id none g fit = record {
      rooted = fit.rooted;
      apart = fit.apart;
      none_pending = fit.none_pending;
    }

    pub get_or_create-Kept :
        (id : ResolvedId V) (s : GraphDependencyResolver V R)
        → IsFit s.graph
        → Kept (get_or_create hash id s)
    unfolding get_or_create get_or_create_for_id
    get_or_create-Kept id s fit = record {
      fit = found_or_created-IsFit s.node_ids id _ s.graph fit;
    }

  pub versions_of-Kept :
      (name : Text) (s : GraphDependencyResolver V R) → IsFit s.graph → Kept (versions_of name s)
  unfolding versions_of
  versions_of-Kept name s fit = record {
    fit = record { rooted = fit.rooted; apart = fit.apart; none_pending = fit.none_pending };
  }

module _ (sv : Semver) ⦃version_keyed : Keyed sv.Version⦄
    ⦃req_keyed : Keyed (NpmPackageReq sv.Req)⦄ where
  open sv use {Version, Req}

  root_kept :
      (nv n : NpmPackageNv Version) (id : ℕ) (g : Graph Version sv.Req)
      → (i : ℕ) × (get n g.root_packages ≡ some i)
      → (i : ℕ) × (get n (insert_in_order (nv_ltb sv) nv id g.root_packages) ≡ some i)
  root_kept nv n id g (i, e) = elim (Bool-cases (nv == n)) [
    | inl same ↦ (id, rw (get-insert_in_order (nv_ltb sv) nv n id g.root_packages) (rw same refl))
    | inr other ↦ (i, rw (get-insert_in_order (nv_ltb sv) nv n id g.root_packages) (rw other e))
  ]

  pub insert_root-Kept :
      (nv : NpmPackageNv Version) (id : ℕ) (s : State sv)
      → IsFit s.graph
      → Kept (insert_root sv nv id s)
  unfolding insert_root
  insert_root-Kept nv id s fit = record {
    fit = record {
      rooted = λ r n e. root_kept nv n id s.graph (fit.rooted r n e);
      apart = fit.apart;
      none_pending = fit.none_pending;
    };
  }

  pub store-Kept :
      (nv : NpmPackageNv Version) (info : NpmPackageVersionInfo) (s : State sv)
      → IsFit s.graph
      → Kept (store sv nv info s)
  unfolding store
  store-Kept nv info s fit = elim (Result-cases (sorted_entries sv info)) [
    | inl (deps, e) ↦ rw (e, store) (record { fit = fit })
    | inr (q, e) ↦ rw (e, store) (record { fit = fit })
  ]

  pub cached_or_stored-Kept :
      (nv : NpmPackageNv Version) (info : NpmPackageVersionInfo)
      (cached : Option (List (NpmDependencyEntry sv.Req))) (s : State sv)
      → IsFit s.graph
      → Kept (cached_or_stored sv nv info cached s)
  cached_or_stored-Kept nv info (some deps) s fit = record { fit = fit }
  cached_or_stored-Kept nv info none s fit = store-Kept nv info s fit

  module _ (hash : List (Hashed sv.Version) → ℕ) (known_good : Req) where
    mark_leaf-Kept :
        (id : ℕ) (deps : List (NpmDependencyEntry sv.Req)) (s : State sv)
        → IsFit s.graph
        → Kept (mark_leaf sv hash known_good id deps s)
    mark_leaf-Kept id [] s fit = set_no_peers-Kept id s fit
    mark_leaf-Kept id (dep ∷ deps) s fit = record { fit = fit }

    pub resolve_node_from_info-Kept :
        (req : Req) (info : NpmPackageInfo) (s : State sv)
        → IsFit s.graph
        → Kept (resolve_node_from_info sv hash known_good req info s)
    unfolding resolve_node_from_info
    resolve_node_from_info-Kept req info s fit =
        Kept-then (versions_of info.name s) (versions_of-Kept info.name s fit) λ existing s1 fit1.
          let best = resolve_best_package_version_and_info sv known_good req info existing in
          Kept-then (map_err version_failed best, s1) (return-Kept _ s1 fit1)
            λ vi s2 fit2.
              let id : ResolvedId Version = record {
                nv = (info.name, vi.version);
                peer_dependencies = [];
              } in
              Kept-then (get_or_create hash id s2) (get_or_create-Kept hash id s2 fit2)
                λ created s3 fit3.
                  Kept-then
                    (cached_or_stored sv (info.name, vi.version) vi.info
                      (get (info.name, vi.version) s3.dep_entry_cache) s3)
                    (cached_or_stored-Kept _ vi.info _ s3 fit3)
                    λ deps s4 fit4.
                      Kept-then (mark_leaf sv hash known_good created.1 deps s4)
                        (mark_leaf-Kept created.1 deps s4 fit4)
                        λ done s5 fit5. return-Kept _ s5 fit5

    -- The requirement and its root come together.
    requirement_and_root :
        (req : NpmPackageReq sv.Req) (nv : NpmPackageNv Version) (id : ℕ) (s : State sv)
        → IsFit s.graph
        → IsFit (insert_root sv nv id (insert_req sv req nv s).1).1.graph
    unfolding insert_root insert_req
    requirement_and_root req nv id s fit = record {
      rooted = rooted;
      apart = fit.apart;
      none_pending = fit.none_pending;
    }
      where
        rooted :
            (r : NpmPackageReq sv.Req) (n : NpmPackageNv Version)
            → get r (insert req nv s.graph.package_reqs) ≡ some n
            → (i : ℕ) × (get n (insert_in_order (nv_ltb sv) nv id s.graph.root_packages) ≡ some i)
        rooted r n e = elim (Bool-cases (req == r)) [
          | inl same ↦
              let own : nv ≡ n = cc (rw (get-insert req r nv s.graph.package_reqs, same) at e) in
              let self = (nv_keyed.same_iff nv n).1 own in
              (
                id,
                rw (get-insert_in_order (nv_ltb sv) nv n id s.graph.root_packages) (rw self refl),
              )
          | inr other ↦
              root_kept nv n id s.graph
                (fit.rooted r n (rw (get-insert req r nv s.graph.package_reqs, other) at e))
        ]

    pub add_package_req-Kept :
        (latest : Req) (req : NpmPackageReq sv.Req) (info : NpmPackageInfo) (s : State sv)
        → IsFit s.graph
        → Kept (add_package_req sv hash known_good latest req info s)
    unfolding add_package_req insert_req insert_root
    add_package_req-Kept latest req info s fit =
        elim (Option-cases (get req s.graph.package_reqs)) [
          | inr (nv, e) ↦ rw (e, add_package_req) (record { fit = fit })
          | inl e ↦
              rw (e, add_package_req)
                (Kept-then
                  (resolve_node_from_info sv hash known_good
                    (or_latest sv hash known_good latest req.version_req) info s)
                  (resolve_node_from_info-Kept _ info s fit)
                  λ node t fit_t.
                    let rooted = (insert_root sv node.0 node.1 (insert_req sv req node.0 t).1).1 in
                    Kept-then (for_root node.1 node.0 rooted)
                      (new_path-Kept (at_root node.0) node.1 [] node.0 rooted
                        (requirement_and_root req node.0 node.1 t fit_t))
                      λ path u fit_u. push_pending-Kept path u fit_u)
        ]
