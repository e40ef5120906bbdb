-- ===== src/Npm/Graph/Sound/Ancestors.antt =====
-- A peer dependency is resolved to a node of the graph
-- (crates/module_fetcher/src/npm/resolution/graph.rs).
use server_based_deno.Base.{
  ℕ, Bool, true, false, Option, none, some, List, [], ◌∷◌, ◌++◌, Text, Map, Keyed,
}
use server_based_deno.Npm.{Semver, NpmPackageInfo}
use server_based_deno.Npm.Snapshot.{NpmPackageReq}
use server_based_deno.Npm.Dependencies.{NpmDependencyEntry}
use server_based_deno.Npm.Graph.{
  Node, GraphPath, graph_path, GraphPathNodeOrRoot, at_node, at_root, Hashed, previous_node,
}
use server_based_deno.Npm.Graph.Resolver.{Resolve, State, resolve_node_from_info}
use server_based_deno.Npm.Graph.Peers.{set_new_peer_dep}
use server_based_deno.Npm.Graph.Find.{find_peer_dep_in_node, find_in_roots}
use server_based_deno.Npm.Graph.Ancestors.{
  is_optional, set_or_else, below_root, search_ancestors, or_version_req, by_package_info,
  resolve_peer_dep,
}
use server_based_deno.Npm.Graph.Sound.{Known}
use server_based_deno.Npm.Graph.Sound.Outcome.{IsLive, Outcome, Outcome-ok, Outcome-then}
use server_based_deno.Npm.Graph.Sound.Infos.{resolve_node_from_info-Outcome}
use server_based_deno.Npm.Graph.Sound.Moves.{set_new_peer_dep-Outcome}
use server_based_deno.Npm.Graph.Sound.Find.{
  OptKnown, FoundKnown, find_peer_dep_in_node-Outcome, find_in_roots-Outcome,
}

module _ (sv : Semver) ⦃version_keyed : Keyed sv.Version⦄ ⦃req_keyed : Keyed (NpmPackageReq sv.Req)⦄
    (hash : List (Hashed sv.Version) → ℕ) (known_good : sv.Req) (depth : ℕ) where
  open sv use {Version, Req}

  abbrev pub Answer : Option ℕ → State sv → Type 0
  Answer o t = OptKnown t.graph.nodes o

  abbrev Answers : Resolve Version sv.Req (Option ℕ) → Type 0
  Answers m = (s : State sv) → IsLive s → Known s.graph.nodes 0 → Outcome s Answer (m s)

  set_or_else-Outcome :
      (path : List (GraphPath Version)) (name : Text)
      (found : Option (GraphPathNodeOrRoot Version × ℕ))
      (otherwise : Resolve Version sv.Req (Option ℕ)) (s : State sv)
      → Answers otherwise
      → IsLive s
      → Known s.graph.nodes 0
      → FoundKnown s.graph.nodes found
      → Outcome s Answer (set_or_else sv hash known_good depth path name found otherwise s)
  set_or_else-Outcome path name none otherwise s answers live started known = answers s live started
  set_or_else-Outcome path name (some (parent, id)) otherwise s answers live started known =
      Outcome-then (set_new_peer_dep sv hash depth path parent name id s)
        (set_new_peer_dep-Outcome sv hash depth path parent name id s live started known)
        λ a t live_t grows _. Outcome-ok Answer t (some id) live_t (grows id known)

  below_root-FoundKnown :
      (nodes : Map ℕ Node) (root : GraphPathNodeOrRoot Version) (child : Option ℕ)
      → OptKnown nodes child
      → FoundKnown nodes (below_root sv hash known_good depth root child)
  below_root-FoundKnown nodes root none h = tt
  below_root-FoundKnown nodes root (some id) h = h

  search_ancestors-Answers :
      (entry : NpmDependencyEntry sv.Req) (info : NpmPackageInfo) (name : Text)
      (otherwise : Resolve Version sv.Req (Option ℕ)) (path : List (GraphPath Version))
      (from : GraphPathNodeOrRoot Version)
      → Answers otherwise
      → Answers (search_ancestors sv hash known_good depth entry info name otherwise path from)
  unfolding search_ancestors
  search_ancestors-Answers entry info name otherwise path (at_root root) answers s live started =
      Outcome-then (find_in_roots sv known_good entry info s)
        (find_in_roots-Outcome sv known_good entry info s live)
        λ child t live_t grows known.
          set_or_else-Outcome path name _ otherwise t answers live_t (grows 0 started)
            (below_root-FoundKnown t.graph.nodes (at_root root) child known)
  search_ancestors-Answers entry info name otherwise path
        (at_node (graph_path previous cell key nv)) answers s live started =
      let node = graph_path previous cell key nv in
      let rest =
        search_ancestors-Answers entry info name otherwise (path ++ node ∷ []) previous answers in
      Outcome-then (find_peer_dep_in_node sv known_good entry info node s)
        (find_peer_dep_in_node-Outcome sv known_good entry info node s live started)
        λ found t live_t grows known.
          set_or_else-Outcome (path ++ node ∷ []) name found _ t rest live_t (grows 0 started) known

  by_package_info-Answers :
      (optional : Bool) (entry : NpmDependencyEntry sv.Req) (info : NpmPackageInfo) (name : Text)
      (path : GraphPath Version)
      → Answers (by_package_info sv hash known_good depth optional entry info name path)
  by_package_info-Answers true entry info name path s live started =
      Outcome-ok Answer s none live tt
  by_package_info-Answers false entry info name path s live started =
      let req = or_version_req sv hash known_good depth entry entry.peer_dep_version_req in
      Outcome-then (resolve_node_from_info sv hash known_good req info s)
        (resolve_node_from_info-Outcome sv hash known_good req info s live)
        λ node t live_t grows known.
          Outcome-then (set_new_peer_dep sv hash depth (path ∷ []) (at_node path) name node.1 t)
            (set_new_peer_dep-Outcome sv hash depth (path ∷ []) (at_node path) name node.1 t live_t
              (grows 0 started) known)
            λ a u live_u grows_u _. Outcome-ok Answer u (some node.1) live_u (grows_u node.1 known)

  pub resolve_peer_dep-Outcome :
      (name : Text) (entry : NpmDependencyEntry sv.Req) (info : NpmPackageInfo)
      (path : GraphPath Version) (s : State sv)
      → IsLive s
      → Known s.graph.nodes 0
      → Outcome s Answer (resolve_peer_dep sv hash known_good depth name entry info path s)
  unfolding resolve_peer_dep
  resolve_peer_dep-Outcome name entry info path s live started =
      let last_resort =
        by_package_info sv hash known_good depth (is_optional entry.kind) entry info name path in
      let rest =
        search_ancestors-Answers entry info name last_resort (path ∷ []) (previous_node path)
          (by_package_info-Answers (is_optional entry.kind) entry info name path) in
      Outcome-then (find_peer_dep_in_node sv known_good entry info path s)
        (find_peer_dep_in_node-Outcome sv known_good entry info path s live started)
        λ found t live_t grows known.
          set_or_else-Outcome (path ∷ []) name found _ t rest live_t (grows 0 started) known
