-- ===== src/Npm/Graph/Sound/Pending.antt =====
-- The resolution of what is pending, in a sound graph
-- (crates/module_fetcher/src/npm/resolution/graph.rs).
use server_based_deno.Base.{
  ℕ, Bool, true, false, not, Option, none, some, List, [], ◌∷◌, Text, Map, get, nat_keyed,
  text_keyed, Keyed, nat_beq, All, All-get, Bool-cases, inl, inr, Option-cases,
}
use server_based_deno.Npm.{Semver, NpmPackageInfo}
use server_based_deno.Npm.Id.Equality.{NpmPackageNv, nv_keyed}
use server_based_deno.Npm.Snapshot.{NpmPackageReq}
use server_based_deno.Npm.Dependencies.{NpmDependencyEntry}
use server_based_deno.Npm.Graph.{Node, GraphPath, at_node, Hashed, specifier}
use server_based_deno.Npm.Graph.Paths.{get_path_to_ancestor_exclusive, find_ancestor}
use server_based_deno.Npm.Graph.Resolver.{
  State, node_id, set_child, node_or_panic, resolved_or_panic, push_pending, with_id,
  resolve_node_from_info,
}
use server_based_deno.Npm.Graph.Peers.{PeerDeps, first}
use server_based_deno.Npm.Graph.Find.{with_nvs}
use server_based_deno.Npm.Graph.Pending.{
  add_any_peer_deps, add_linked_circular_descendant, link_or_queue, analyze_dependency, visit_child,
  analyzed_or_not, check_peers, resolve_dep,
}
use server_based_deno.Npm.Graph.Sound.{Known}
use server_based_deno.Npm.Graph.Sound.Outcome.{
  IsLive, Outcome, Outcome-ok, Outcome-then, Done, node_id-Known,
}
use server_based_deno.Npm.Graph.Sound.Steps.{
  set_child-Outcome, node_or_panic-Outcome, resolved_or_panic-Outcome, push_linked-Outcome,
  push_pending-Outcome, new_path-Outcome,
}
use server_based_deno.Npm.Graph.Sound.Infos.{resolve_node_from_info-Outcome}
use server_based_deno.Npm.Graph.Sound.Peers.{DepsKnown, first-Outcome}
use server_based_deno.Npm.Graph.Sound.Moves.{add_peer_deps_to_path-Outcome}
use server_based_deno.Npm.Graph.Sound.Find.{Fine-Outcome, with_nvs-Fine, OptKnown}

module _ (sv : Semver) ⦃version_keyed : Keyed sv.Version⦄ ⦃req_keyed : Keyed (NpmPackageReq sv.Req)⦄
    (hash : List (Hashed sv.Version) → ℕ) (known_good : sv.Req) (depth : ℕ) where
  open sv use {Version, Req}

  abbrev Present : ℕ → State sv → Type 0
  Present id t = Known t.graph.nodes id

  add_any_peer_deps-Outcome :
      (deps : PeerDeps Version) (path : List (GraphPath Version)) (s : State sv)
      → IsLive s
      → Known s.graph.nodes 0
      → DepsKnown s.graph.nodes deps
      → Outcome s Done (add_any_peer_deps sv hash known_good depth deps path s)
  add_any_peer_deps-Outcome [] path s live started h = Outcome-ok Done s tt live tt
  add_any_peer_deps-Outcome (d ∷ ds) path s live started h =
      add_peer_deps_to_path-Outcome sv hash depth (d ∷ ds) path s live started h

  add_linked-Outcome :
      (ancestor descendant : GraphPath Version) (s : State sv)
      → IsLive s
      → Known s.graph.nodes 0
      → Outcome s Done
          (add_linked_circular_descendant sv hash known_good depth ancestor descendant s)
  unfolding add_linked_circular_descendant
  add_linked-Outcome ancestor descendant s live started =
      let id = node_id s ancestor in
      let path = get_path_to_ancestor_exclusive s.node_ids id descendant in
      Outcome-then (resolved_or_panic id s)
        (resolved_or_panic-Outcome id s live (node_id-Known s ancestor live started))
        λ r s1 live1 grows1 ok_id.
          Outcome-then (with_nvs s1.graph.resolved_node_ids r.peer_dependencies, s1)
            (Fine-Outcome (λ ds t. DepsKnown t.graph.nodes ds) _ s1 live1
              (with_nvs-Fine s1.graph r.peer_dependencies live1.sound ok_id))
            λ deps s2 live2 grows2 ok_deps.
              let started2 = grows2 0 (grows1 0 started) in
              Outcome-then (add_any_peer_deps sv hash known_good depth deps path s2)
                (add_any_peer_deps-Outcome deps path s2 live2 started2 ok_deps)
                λ a s3 live3 grows3 _.
                  Outcome-then (first path, s3) (first-Outcome path s3 live3)
                    λ bottom s4 live4 grows4 _.
                      let started4 = grows4 0 (grows3 0 started2) in
                      Outcome-then
                        (set_child (node_id s4 bottom) (specifier descendant)
                          (node_id s4 descendant) s4)
                        (set_child-Outcome (node_id s4 bottom) (node_id s4 descendant)
                          (specifier descendant) s4 live4 (node_id-Known s4 bottom live4 started4)
                          (node_id-Known s4 descendant live4 started4))
                        λ b s5 live5 _ _. push_linked-Outcome ancestor descendant s5 live5

  link_or_queue-Outcome :
      (parent : GraphPath Version) (parent_id : ℕ) (name : Text) (nv : NpmPackageNv Version)
      (child : ℕ) (ancestor : Option (GraphPath Version)) (s : State sv)
      → IsLive s
      → Known s.graph.nodes 0
      → Known s.graph.nodes parent_id
      → Known s.graph.nodes child
      → Outcome s Present
          (link_or_queue sv hash known_good depth parent parent_id name nv child ancestor s)
  link_or_queue-Outcome parent parent_id name nv child none s live started known_p known =
      Outcome-then (with_id parent child name nv s)
        (new_path-Outcome (at_node parent) child name nv s live known)
        λ path s1 live1 grows1 _.
          Outcome-then (set_child parent_id name child s1)
            (set_child-Outcome parent_id child name s1 live1 (grows1 parent_id known_p)
              (grows1 child known))
            λ a s2 live2 grows2 _.
              Outcome-then (push_pending path s2)
                (push_pending-Outcome path s2 live2 (grows2 0 (grows1 0 started)))
                λ b s3 live3 grows3 _.
                  Outcome-ok Present s3 child live3
                    (grows3 child (grows2 child (grows1 child known)))
  link_or_queue-Outcome parent parent_id name nv child (some ancestor) s live started known_p
        known =
      let id = node_id s ancestor in
      let known_id = node_id-Known s ancestor live started in
      Outcome-then (with_id parent id name nv s)
        (new_path-Outcome (at_node parent) id name nv s live known_id)
        λ path s1 live1 grows1 _.
          Outcome-then (add_linked_circular_descendant sv hash known_good depth ancestor path s1)
            (add_linked-Outcome ancestor path s1 live1 (grows1 0 started))
            λ a s2 live2 grows2 _. Outcome-ok Present s2 id live2 (grows2 id (grows1 id known_id))

  analyze_dependency-Outcome :
      (entry : NpmDependencyEntry sv.Req) (info : NpmPackageInfo) (parent : GraphPath Version)
      (s : State sv)
      → IsLive s
      → Known s.graph.nodes 0
      → Outcome s Present (analyze_dependency sv hash known_good depth entry info parent s)
  unfolding analyze_dependency
  analyze_dependency-Outcome entry info parent s live started =
      let id = node_id s parent in
      Outcome-then (resolve_node_from_info sv hash known_good entry.version_req info s)
        (resolve_node_from_info-Outcome sv hash known_good entry.version_req info s live)
        λ child t live_t grows known. elim (Bool-cases (nat_beq child.1 id)) [
          | inl same ↦ rw same (Outcome-ok Present t child.1 live_t known)
          | inr other ↦ rw other (
              link_or_queue-Outcome parent id entry.bare_specifier child.0 child.1
                (find_ancestor child.0 parent) t live_t (grows 0 started)
                (grows id (node_id-Known s parent live started)) known)
        ]

  visit_child-Outcome :
      (parent : GraphPath Version) (child : ℕ) (name : Text) (nv : NpmPackageNv Version)
      (ancestor : Option (GraphPath Version)) (s : State sv)
      → IsLive s
      → Known s.graph.nodes 0
      → Known s.graph.nodes child
      → Outcome s Present (visit_child sv hash known_good depth parent child name nv ancestor s)
  visit_child-Outcome parent child name nv none s live started known =
      Outcome-then (with_id parent child name nv s)
        (new_path-Outcome (at_node parent) child name nv s live known)
        λ path s1 live1 grows1 _.
          Outcome-then (push_pending path s1)
            (push_pending-Outcome path s1 live1 (grows1 0 started))
            λ a s2 live2 grows2 _.
              Outcome-ok Present s2 child live2 (grows2 child (grows1 child known))
  visit_child-Outcome parent child name nv (some ancestor) s live started known =
      Outcome-then (with_id parent child name nv s)
        (new_path-Outcome (at_node parent) child name nv s live known)
        λ path s1 live1 grows1 _.
          Outcome-then (add_linked_circular_descendant sv hash known_good depth ancestor path s1)
            (add_linked-Outcome ancestor path s1 live1 (grows1 0 started))
            λ a s2 live2 grows2 _.
              Outcome-ok Present s2 child live2 (grows2 child (grows1 child known))

  analyzed_or_not-Outcome :
      (entry : NpmDependencyEntry sv.Req) (info : NpmPackageInfo) (parent : GraphPath Version)
      (child : Option ℕ) (s : State sv)
      → IsLive s
      → Known s.graph.nodes 0
      → OptKnown s.graph.nodes child
      → Outcome s Present (analyzed_or_not sv hash known_good depth entry info parent child s)
  analyzed_or_not-Outcome entry info parent none s live started known =
      analyze_dependency-Outcome entry info parent s live started
  analyzed_or_not-Outcome entry info parent (some child) s live started known =
      Outcome-then (resolved_or_panic child s) (resolved_or_panic-Outcome child s live known)
        λ r t live_t grows _.
          visit_child-Outcome parent child entry.bare_specifier r.nv (find_ancestor r.nv parent) t
            live_t (grows 0 started) (grows child known)

  check_peers-Outcome :
      (found_peer : Bool) (child : ℕ) (s : State sv)
      → IsLive s
      → Known s.graph.nodes child
      → Outcome s Done (check_peers sv hash known_good depth found_peer child s)
  check_peers-Outcome true child s live known = Outcome-ok Done s true live tt
  check_peers-Outcome false child s live known =
      Outcome-then (node_or_panic child s) (node_or_panic-Outcome child s live known)
        λ node t live_t _ _. Outcome-ok Done t (not node.no_peers) live_t tt

  pub resolve_dep-Outcome :
      (entry : NpmDependencyEntry sv.Req) (info : NpmPackageInfo) (parent : GraphPath Version)
      (found_peer : Bool) (s : State sv)
      → IsLive s
      → Known s.graph.nodes 0
      → Outcome s Done (resolve_dep sv hash known_good depth entry info parent found_peer s)
  unfolding resolve_dep
  resolve_dep-Outcome entry info parent found_peer s live started =
      let id = node_id s parent in
      Outcome-then (node_or_panic id s)
        (node_or_panic-Outcome id s live (node_id-Known s parent live started))
        λ node s1 live1 grows1 h.
          Outcome-then
            (analyzed_or_not sv hash known_good depth entry info parent
              (get entry.bare_specifier node.children) s1)
            (analyzed_or_not-Outcome entry info parent _ s1 live1 (grows1 0 started)
              (child-OptKnown s1.graph.nodes node.children entry.bare_specifier h))
            λ child s2 live2 _ known. check_peers-Outcome found_peer child s2 live2 known
    where
      child-OptKnown :
          (nodes : Map ℕ Node) (children : Map Text ℕ) (name : Text)
          → All (λ c. Known nodes c.1) children
          → OptKnown nodes (get name children)
      child-OptKnown nodes children name h = elim (Option-cases (get name children)) [
        | inl e ↦ rw e tt
        | inr (id, e) ↦ rw e (All-get (λ c. Known nodes c.1) name id children h e)
      ]
