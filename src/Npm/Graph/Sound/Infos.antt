-- ===== src/Npm/Graph/Sound/Infos.antt =====
-- How the resolver finds a package in the registry and starts from it
-- (crates/module_fetcher/src/npm/resolution/graph.rs), in a sound graph.
use server_based_deno.Base.{
  ℕ, ◌≢◌, Option, none, some, List, [], ◌∷◌, get, nat_keyed, Keyed, err, map_err,
  All-insert_in_order, Option-cases, inl, inr, Result-cases,
}
use server_based_deno.Base.Effects.{◌>>=◌, ◌>>◌}
use server_based_deno.Npm.{Semver, NpmPackageVersionInfo, NpmPackageInfo}
use server_based_deno.Npm.Id.Equality.{NpmPackageNv, nv_keyed}
use server_based_deno.Npm.Snapshot.{NpmPackageReq}
use server_based_deno.Npm.Graph.{ResolvedId, missing_node, version_failed, Hashed}
use server_based_deno.Npm.Graph.DepEntries.{sorted_entries}
use server_based_deno.Npm.Graph.Resolver.{
  State, push_pending, get_or_create, versions_of, nv_ltb, insert_root, insert_req, store,
  cached_or_stored, mark_leaf, resolve_node_from_info, add_root_package, add_package_req,
  requirement, or_latest, for_root,
}
use server_based_deno.Npm.Versions.{resolve_best_package_version_and_info}
use server_based_deno.Npm.Dependencies.{NpmDependencyEntry}
use server_based_deno.Npm.Graph.Sound.Steps.{
  versions_of-Outcome, lift-Outcome, map_err-ne-missing, get_or_create-Outcome,
  set_no_peers-Outcome, new_path-Outcome, push_pending-Outcome,
}
use server_based_deno.Npm.Graph.Sound.{Known}
use server_based_deno.Npm.Graph.Sound.Outcome.{
  IsLive, Outcome, Outcome-ok, Outcome-then, Outcome-err, Done, with_graph-IsLive,
}

module _ (sv : Semver) ⦃version_keyed : Keyed sv.Version⦄
    ⦃req_keyed : Keyed (NpmPackageReq sv.Req)⦄ where
  open sv use {Version, Req}

  pub insert_root-Outcome :
      (nv : NpmPackageNv Version) (id : ℕ) (s : State sv)
      → IsLive s
      → Known s.graph.nodes id
      → Outcome s Done (insert_root sv nv id s)
  unfolding insert_root
  insert_root-Outcome nv id s live known = record {
    live =
        with_graph-IsLive s _ live
          (record {
            children = live.sound.children;
            has_id = live.sound.has_id;
            first = live.sound.first;
            roots =
                All-insert_in_order (λ r. Known s.graph.nodes r.1) (nv_ltb sv) nv id
                  s.graph.root_packages known live.sound.roots;
            keys = live.sound.keys;
            peers = live.sound.peers;
          })
          (λ i k. k);
    grows = λ i k. k;
    value = tt;
  }

  pub insert_req-Outcome :
      (req : NpmPackageReq sv.Req) (nv : NpmPackageNv Version) (s : State sv)
      → IsLive s
      → Outcome s Done (insert_req sv req nv s)
  unfolding insert_req
  insert_req-Outcome req nv s live = record {
    live =
        with_graph-IsLive s _ live
          (record {
            children = live.sound.children;
            has_id = live.sound.has_id;
            first = live.sound.first;
            roots = live.sound.roots;
            keys = live.sound.keys;
            peers = live.sound.peers;
          })
          (λ i k. k);
    grows = λ i k. k;
    value = tt;
  }

  pub store-Outcome :
      (nv : NpmPackageNv Version) (info : NpmPackageVersionInfo) (s : State sv)
      → IsLive s
      → Outcome s Done (store sv nv info s)
  unfolding store
  store-Outcome nv info s live = elim (Result-cases (sorted_entries sv info)) [
    | inl (deps, e) ↦
        rw (e, store)
          (record {
            live = record { sound = live.sound; cells = live.cells; started = live.started };
            grows = λ i k. k;
            value = tt;
          })
    | inr (e, q) ↦ rw (q, store) (Outcome-err Done s _ live (λ h. cc h))
  ]

  cached_or_stored-Outcome :
      (nv : NpmPackageNv Version) (info : NpmPackageVersionInfo)
      (cached : Option (List (NpmDependencyEntry sv.Req))) (s : State sv)
      → IsLive s
      → Outcome s Done (cached_or_stored sv nv info cached s)
  cached_or_stored-Outcome nv info none s live = store-Outcome nv info s live
  cached_or_stored-Outcome nv info (some deps) s live = Outcome-ok Done s deps live tt

  module _ (hash : List (Hashed sv.Version) → ℕ) (known_good : Req) where
    mark_leaf-Outcome :
        (id : ℕ) (deps : List (NpmDependencyEntry sv.Req)) (s : State sv)
        → IsLive s
        → Known s.graph.nodes id
        → Outcome s Done (mark_leaf sv hash known_good id deps s)
    mark_leaf-Outcome id [] s live known = set_no_peers-Outcome id s live known
    mark_leaf-Outcome id (d ∷ ds) s live known = Outcome-ok Done s tt live tt

    -- The node that is answered is in the graph.
    pub resolve_node_from_info-Outcome :
        (req : Req) (info : NpmPackageInfo) (s : State sv)
        → IsLive s
        → Outcome s
            (λ a t. Known t.graph.nodes a.1)
            (resolve_node_from_info sv hash known_good req info s)
    unfolding resolve_node_from_info
    resolve_node_from_info-Outcome req info s live =
        Outcome-then (versions_of info.name s) (versions_of-Outcome info.name s live)
          λ existing s1 live1 _ _.
            let best = resolve_best_package_version_and_info sv known_good req info existing in
            Outcome-then (map_err version_failed best, s1)
              (lift-Outcome _ s1 live1 (map_err-ne-missing version_failed best (λ e q. cc q)))
              λ vi s2 live2 _ _.
                let id : ResolvedId Version = record {
                  nv = (info.name, vi.version);
                  peer_dependencies = [];
                } in
                Outcome-then (get_or_create hash id s2) (get_or_create-Outcome hash id s2 live2 tt)
                  λ created s3 live3 _ known.
                    Outcome-then
                      (cached_or_stored sv (info.name, vi.version) vi.info
                        (get (info.name, vi.version) s3.dep_entry_cache) s3)
                      (cached_or_stored-Outcome _ vi.info _ s3 live3)
                      λ deps s4 live4 grows4 _.
                        Outcome-then (mark_leaf sv hash known_good created.1 deps s4)
                          (mark_leaf-Outcome created.1 deps s4 live4 (grows4 created.1 known))
                          λ done s5 live5 grows5 _.
                            Outcome-ok _ s5 _ live5 (grows5 created.1 (grows4 created.1 known))

    start_from_root :
        (node : NpmPackageNv Version × ℕ) (s : State sv)
        → IsLive s
        → Known s.graph.nodes node.1
        → Outcome s Done
            ((insert_root sv node.0 node.1 >> (for_root node.1 node.0 >>= push_pending)) s)
    start_from_root node s live known =
        Outcome-then (insert_root sv node.0 node.1 s)
          (insert_root-Outcome node.0 node.1 s live known)
          λ a s1 live1 grows1 _.
            Outcome-then (for_root node.1 node.0 s1)
              (new_path-Outcome _ node.1 [] node.0 s1 live1 (grows1 node.1 known))
              λ path s2 live2 grows2 _.
                push_pending-Outcome path s2 live2
                  (live2.sound.first node.1 (grows2 node.1 (grows1 node.1 known)))

    pub add_root_package-Outcome :
        (nv : NpmPackageNv Version) (info : NpmPackageInfo) (s : State sv)
        → IsLive s
        → Outcome s Done (add_root_package sv hash known_good nv info s)
    unfolding add_root_package
    add_root_package-Outcome nv info s live = elim (Option-cases (get nv s.graph.root_packages)) [
      | inr (id, e) ↦ rw (e, add_root_package) (Outcome-ok Done s tt live tt)
      | inl e ↦
          rw (e, add_root_package)
            (Outcome-then
              (requirement sv hash known_good (sv.parse_req_from_specifier (sv.to_string nv.1)), s)
              (lift-Outcome _ s live (requirement-ne-missing _))
              λ req s1 live1 _ _.
                Outcome-then (resolve_node_from_info sv hash known_good req info s1)
                  (resolve_node_from_info-Outcome req info s1 live1)
                  λ node s2 live2 _ known. start_from_root node s2 live2 known)
    ]
      where
        requirement-ne-missing :
            (o : Option Req) → requirement sv hash known_good o ≢ err missing_node
        requirement-ne-missing none e = cc e
        requirement-ne-missing (some r) e = cc e

    pub add_package_req-Outcome :
        (latest : Req) (req : NpmPackageReq sv.Req) (info : NpmPackageInfo) (s : State sv)
        → IsLive s
        → Outcome s Done (add_package_req sv hash known_good latest req info s)
    unfolding add_package_req
    add_package_req-Outcome latest req info s live =
        elim (Option-cases (get req s.graph.package_reqs)) [
          | inr (nv, e) ↦ rw (e, add_package_req) (Outcome-ok Done s tt live tt)
          | inl e ↦
              rw (e, add_package_req)
                (Outcome-then
                  (resolve_node_from_info sv hash known_good
                    (or_latest sv hash known_good latest req.version_req) info s)
                  (resolve_node_from_info-Outcome _ info s live)
                  λ node s1 live1 _ known.
                    Outcome-then (insert_req sv req node.0 s1)
                      (insert_req-Outcome req node.0 s1 live1)
                      λ a s2 live2 grows2 _. start_from_root node s2 live2 (grows2 node.1 known))
        ]
