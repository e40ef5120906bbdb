-- ===== src/Npm/Graph/Sound/Moves.antt =====
-- The nodes of a path get the ids of their new peer dependencies, in a sound graph
-- (crates/module_fetcher/src/npm/resolution/graph.rs).
use server_based_deno.Base.{
  ℕ, zero, suc, Bool, true, false, List, [], ◌∷◌, Text, Keyed, ◌==◌, All, if◌then◌else◌,
}
use server_based_deno.Base.Effects.{each}
use server_based_deno.Npm.{Semver}
use server_based_deno.Npm.Id.Equality.{nv_keyed}
use server_based_deno.Npm.Snapshot.{NpmPackageReq}
use server_based_deno.Npm.Graph.{
  ResolvedId, parent_reference, GraphPath, GraphPathNodeOrRoot, at_node, at_root, Hashed, specifier,
  previous_node, node_id_ref, path_nv,
}
use server_based_deno.Npm.Graph.Paths.{get_path_to_ancestor_exclusive}
use server_based_deno.Npm.Graph.Resolver.{
  Resolve, State, node_id, change_id, set_child, resolved_or_panic, get_or_create, with_id,
}
use server_based_deno.Npm.Graph.Peers.{
  PeerDeps, first, last, without_last, reverse, push_peer_deps, copy_if_created, update_parent,
  move_descendant, change_node, change_if, add_peer_deps_to_node, add_peer_deps_to_path, queue_next,
  set_new_peer_dep,
}
use server_based_deno.Npm.Graph.Sound.{Known, PeerKnown}
use server_based_deno.Npm.Graph.Sound.Outcome.{
  IsLive, Outcome, Outcome-ok, Outcome-err, Outcome-then, Outcome-each, Done, node_id-Known,
}
use server_based_deno.Npm.Graph.Sound.Steps.{
  change_id-Outcome, set_child-Outcome, put_child-Outcome, resolved_or_panic-Outcome,
  get_or_create-Outcome, lift-Outcome, push_linked-Outcome, push_pending-Outcome, new_path-Outcome,
}
use server_based_deno.Npm.Graph.Sound.Infos.{insert_root-Outcome}
use server_based_deno.Npm.Graph.Sound.Peers.{
  DepsKnown, DepsKnown-Grows, All-const, first-Outcome, last-ne-missing, push_peer_deps-Known,
  copy_if_created-Outcome,
}

module _ (sv : Semver) ⦃version_keyed : Keyed sv.Version⦄ ⦃req_keyed : Keyed (NpmPackageReq sv.Req)⦄
    (hash : List (Hashed sv.Version) → ℕ) where
  open sv use {Version, Req}

  update_parent-Outcome :
      (parent : GraphPathNodeOrRoot Version) (name : Text) (id : ℕ) (s : State sv)
      → IsLive s
      → Known s.graph.nodes 0
      → Known s.graph.nodes id
      → Outcome s Done (update_parent sv parent name id s)
  update_parent-Outcome (at_root nv) name id s live started known =
      insert_root-Outcome sv nv id s live known
  update_parent-Outcome (at_node path) name id s live started known =
      put_child-Outcome (node_id s path) id name s live (node_id-Known s path live started) known

  -- What the recursive call is taken to do.
  abbrev pub Safe :
      PeerDeps Version → (List (GraphPath Version) → Resolve Version sv.Req (Unit {0})) → Type 0
  Safe deps add =
      (path : List (GraphPath Version)) (s : State sv)
      → IsLive s
      → Known s.graph.nodes 0
      → DepsKnown s.graph.nodes deps
      → Outcome s Done (add path s)

  module _ (deps : PeerDeps Version)
      (add : List (GraphPath Version) → Resolve Version sv.Req (Unit {0}))
      (safe : Safe deps add) where
    move_descendant-Outcome :
        (id : ℕ) (descendant : GraphPath Version) (s : State sv)
        → IsLive s
        → Known s.graph.nodes 0
        → Known s.graph.nodes id
        → DepsKnown s.graph.nodes deps
        → Outcome s Done (move_descendant sv hash add id descendant s)
    unfolding move_descendant
    move_descendant-Outcome id descendant s live started known ok_deps =
        let path = get_path_to_ancestor_exclusive s.node_ids id descendant in
        Outcome-then (add path s) (safe path s live started ok_deps) λ a s1 live1 grows1 _.
          Outcome-then (change_id descendant id s1)
            (change_id-Outcome descendant id s1 live1 (grows1 id known))
            λ b s2 live2 grows2 _.
              Outcome-then (first path, s2) (first-Outcome path s2 live2)
                λ bottom s3 live3 grows3 _.
                  let started3 = grows3 0 (grows2 0 (grows1 0 started)) in
                  set_child-Outcome (node_id s3 bottom) (node_id s3 descendant)
                    (specifier descendant) s3 live3 (node_id-Known s3 bottom live3 started3)
                    (node_id-Known s3 descendant live3 started3)

    change_node-Outcome :
        (path : GraphPath Version) (old : ℕ) (id : ResolvedId Version) (s : State sv)
        → IsLive s
        → Known s.graph.nodes 0
        → Known s.graph.nodes old
        → All (PeerKnown s.graph.nodes) id.peer_dependencies
        → DepsKnown s.graph.nodes deps
        → Outcome s Done (change_node sv hash add path old id s)
    unfolding change_node
    change_node-Outcome path old id s live started known ok_id ok_deps =
        Outcome-then (get_or_create hash id s) (get_or_create-Outcome hash id s live ok_id)
          λ created s1 live1 grows1 new1.
            Outcome-then (copy_if_created created.0 old created.1 s1)
              (copy_if_created-Outcome created.0 old created.1 s1 live1 (grows1 0 started)
                (grows1 old known) new1)
              λ a s2 live2 grows2 _.
                let new2 = grows2 created.1 new1 in
                Outcome-then (change_id path created.1 s2)
                  (change_id-Outcome path created.1 s2 live2 new2)
                  λ b s3 live3 grows3 _.
                    let new3 = grows3 created.1 new2 in
                    let started3 = grows3 0 (grows2 0 (grows1 0 started)) in
                    let deps3 =
                      DepsKnown-Grows s.graph.nodes s3.graph.nodes deps
                        (λ i k. grows3 i (grows2 i (grows1 i k))) ok_deps in
                    Outcome-then
                      (each (move_descendant sv hash add created.1)
                        (s3.linked_circular_descendants (node_id_ref path)) s3)
                      (Outcome-each (move_descendant sv hash add created.1) _ s3
                        (λ nodes x. Known nodes created.1 × DepsKnown nodes deps)
                        (λ x t live_t started_t k.
                          move_descendant-Outcome created.1 x t live_t started_t k.0 k.1)
                        (λ before after x grows k.
                          (grows created.1 k.0, DepsKnown-Grows before after deps grows k.1))
                        live3 started3 (All-const _ _ (new3, deps3)))
                      λ c s4 live4 grows4 _.
                        update_parent-Outcome (previous_node path) (specifier path) created.1 s4
                          live4 (grows4 0 started3) (grows4 created.1 new3)

    change_if-Outcome :
        (path : GraphPath Version) (old : ℕ) (pushed : Bool × ResolvedId Version) (s : State sv)
        → IsLive s
        → Known s.graph.nodes 0
        → Known s.graph.nodes old
        → All (PeerKnown s.graph.nodes) pushed.1.peer_dependencies
        → DepsKnown s.graph.nodes deps
        → Outcome s Done (change_if sv hash add path old pushed s)
    change_if-Outcome path old (false, id) s live started known ok_id ok_deps =
        Outcome-ok Done s tt live tt
    change_if-Outcome path old (true, id) s live started known ok_id ok_deps =
        change_node-Outcome path old id s live started known ok_id ok_deps

    add_peer_deps_to_node-Outcome :
        (path : GraphPath Version) (s : State sv)
        → IsLive s
        → Known s.graph.nodes 0
        → DepsKnown s.graph.nodes deps
        → Outcome s Done (add_peer_deps_to_node sv hash add deps path s)
    unfolding add_peer_deps_to_node
    add_peer_deps_to_node-Outcome path s live started ok_deps =
        let old = node_id s path in
        let known = node_id-Known s path live started in
        Outcome-then (resolved_or_panic old s) (resolved_or_panic-Outcome old s live known)
          λ id t live_t grows ok_id.
            let deps_t = DepsKnown-Grows s.graph.nodes t.graph.nodes deps grows ok_deps in
            change_if-Outcome path old (push_peer_deps hash t.node_ids deps id) t live_t
              (grows 0 started) (grows old known)
              (push_peer_deps-Known hash t.node_ids t.graph.nodes deps id deps_t ok_id) deps_t

  pub add_peer_deps_to_path-Outcome :
      (depth : ℕ) (deps : PeerDeps Version) → Safe deps (add_peer_deps_to_path sv hash depth deps)
  unfolding add_peer_deps_to_path
  add_peer_deps_to_path-Outcome zero deps path s live started ok_deps =
      Outcome-err Done s _ live (λ e. cc e)
  add_peer_deps_to_path-Outcome (suc depth) deps path s live started ok_deps =
      let add = add_peer_deps_to_path sv hash depth deps in
      let safe = add_peer_deps_to_path-Outcome depth deps in
      Outcome-each (add_peer_deps_to_node sv hash add deps) (reverse path) s
        (λ nodes x. DepsKnown nodes deps)
        (λ x t live_t started_t k.
          add_peer_deps_to_node-Outcome deps add safe x t live_t started_t k)
        (λ before after x grows k. DepsKnown-Grows before after deps grows k) live started
        (All-const _ _ ok_deps)

  queue_next-Outcome :
      (circular : Bool) (top path : GraphPath Version) (s : State sv)
      → IsLive s
      → Known s.graph.nodes 0
      → Outcome s Done (queue_next sv hash circular top path s)
  queue_next-Outcome true top path s live started = push_linked-Outcome top path s live
  queue_next-Outcome false top path s live started = push_pending-Outcome path s live started

  pub set_new_peer_dep-Outcome :
      (depth : ℕ) (path : List (GraphPath Version)) (parent : GraphPathNodeOrRoot Version)
      (name : Text) (id : ℕ) (s : State sv)
      → IsLive s
      → Known s.graph.nodes 0
      → Known s.graph.nodes id
      → Outcome s Done (set_new_peer_dep sv hash depth path parent name id s)
  unfolding set_new_peer_dep
  set_new_peer_dep-Outcome depth path parent name id s live started known =
      Outcome-then (resolved_or_panic id s) (resolved_or_panic-Outcome id s live known)
        λ r s1 live1 grows1 _.
          Outcome-then (last path, s1) (lift-Outcome (last path) s1 live1 (last-ne-missing path))
            λ top s2 live2 grows2 _.
              let circular = path_nv top == r.nv in
              let below = if circular then without_last path else path in
              let deps : PeerDeps Version = (parent_reference parent r.nv, r.nv) ∷ [] in
              Outcome-then (add_peer_deps_to_path sv hash depth deps below s2)
                (add_peer_deps_to_path-Outcome depth deps below s2 live2
                  (grows2 0 (grows1 0 started)) (tt, tt))
                λ a s3 live3 grows3 _.
                  Outcome-then (first below, s3) (first-Outcome below s3 live3)
                    λ bottom s4 live4 grows4 _.
                      let grows = λ (i : ℕ) (k : Known s.graph.nodes i).
                        grows4 i (grows3 i (grows2 i (grows1 i k))) in
                      Outcome-then (set_child (node_id s4 bottom) name id s4)
                        (set_child-Outcome (node_id s4 bottom) id name s4 live4
                          (node_id-Known s4 bottom live4 (grows 0 started)) (grows id known))
                        λ b s5 live5 grows5 _.
                          Outcome-then (with_id bottom id name r.nv s5)
                            (new_path-Outcome (at_node bottom) id name r.nv s5 live5
                              (grows5 id (grows id known)))
                            λ next s6 live6 grows6 _.
                              queue_next-Outcome circular top next s6 live6
                                (grows6 0 (grows5 0 (grows 0 started)))
