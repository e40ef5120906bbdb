-- ===== src/Npm/Graph/Sound/Find.antt =====
-- What is found for a peer dependency is in the graph
-- (crates/module_fetcher/src/npm/resolution/graph.rs).
use server_based_deno.Base.{
  ℕ, ◌≢◌, ap, Bool, true, false, Option, none, some, List, [], ◌∷◌, map, Text, Map, get, nat_keyed,
  text_keyed, Keyed, ◌==◌, Result, ok, err, ◌>>=◌, All, Bool-cases, inl, inr, if◌then◌else◌,
}
use server_based_deno.Npm.{Semver, NpmPackageInfo}
use server_based_deno.Npm.Id.Equality.{NpmPackageNv}
use server_based_deno.Npm.Snapshot.{NpmPackageReq}
use server_based_deno.Npm.Versions.{version_req_satisfies}
use server_based_deno.Npm.Dependencies.{NpmDependencyEntry}
use server_based_deno.Npm.Graph.{
  Node, GraphPath, GraphPathNodeOrRoot, GraphError, missing_node, version_failed, previous_node,
  resolved, ResolvedId, ResolvedIdPeerDep, parent_reference, snapshot_node_id, Graph,
}
use server_based_deno.Npm.Graph.Resolver.{GraphDependencyResolver, State, found, node_id}
use server_based_deno.Npm.Graph.Find.{
  is_match, find_matching_child, named, below, find_peer_dep_in_node, find_in_roots, with_nvs,
  child_pkg_nv,
}
use server_based_deno.Npm.Graph.Sound.{Known, PeerKnown, IsSound}
use server_based_deno.Npm.Graph.Sound.Outcome.{
  IsLive, Outcome, Outcome-ok, Outcome-err, node_id-Known,
}
use server_based_deno.Npm.Graph.Sound.Steps.{map_err-ne-missing}
use server_based_deno.Npm.Graph.Sound.Peers.{DepsKnown}

-- A value with the property, or an error that is no missing node.
abbrev pub Fine : {A : Type 0} → (A → Type 0) → Result GraphError A → Type 0
Fine Q (ok a) = Q a
Fine Q (err e) = e ≢ missing_node

Fine-then :
    {A B : Type 0} (P : A → Type 0) (Q : B → Type 0) (r : Result GraphError A)
    (k : A → Result GraphError B)
    → Fine P r
    → ((a : A) → P a → Fine Q (k a))
    → Fine Q (r >>= k)
Fine-then P Q (ok a) k h next = next a h
Fine-then P Q (err e) k h next = h

Fine-if :
    {A : Type 0} (Q : A → Type 0) (b : Bool) (x y : Result GraphError A)
    → Fine Q x
    → Fine Q y
    → Fine Q (if b then x else y)
Fine-if Q true x y hx hy = hx
Fine-if Q false x y hx hy = hy

pub Fine-Outcome :
    {V R A : Type 0} (Q : A → GraphDependencyResolver V R → Type 0) (r : Result GraphError A)
    (s : GraphDependencyResolver V R)
    → IsLive s
    → Fine (λ a. Q a s) r
    → Outcome s Q (r, s)
Fine-Outcome Q (ok a) s live h = Outcome-ok Q s a live h
Fine-Outcome Q (err e) s live h = Outcome-err Q s e live h

abbrev Any : {A : Type 0} → A → Type 0
Any a = Unit

Fine-ne : {A : Type 0} (r : Result GraphError A) → r ≢ err missing_node → Fine Any r
Fine-ne (ok a) h = tt
Fine-ne (err e) h = λ q. h (ap err q)

-- The resolved id of a node that is there.
Fine-resolved :
    {V R : Type 0} (g : Graph V R) (id : ℕ)
    → IsSound g
    → Known g.nodes id
    → Fine
        (λ (r : ResolvedId V). All (PeerKnown g.nodes) r.peer_dependencies)
        (found (resolved id g.resolved_node_ids))
unfolding resolved
Fine-resolved g id sound (n, there) =
    let (r, e) = sound.has_id id n there in rw e (sound.peers id r e)

abbrev pub OptKnown : Map ℕ Node → Option ℕ → Type 0
OptKnown nodes none = Unit
OptKnown nodes (some id) = Known nodes id

abbrev pub FoundKnown : {V : Type 0} → Map ℕ Node → Option (GraphPathNodeOrRoot V × ℕ) → Type 0
FoundKnown nodes none = Unit
FoundKnown nodes (some (parent, id)) = Known nodes id

module _ (sv : Semver) ⦃version_keyed : Keyed sv.Version⦄ ⦃req_keyed : Keyed (NpmPackageReq sv.Req)⦄
    (known_good : sv.Req) where
  open sv use {Version, Req}

  is_match-Fine :
      (entry : NpmDependencyEntry sv.Req) (info : NpmPackageInfo) (nv : NpmPackageNv Version)
      → Fine Any (is_match sv known_good entry info nv)
  unfolding is_match
  is_match-Fine entry info (name, version) = elim (Bool-cases (name == entry.name)) [
    | inl same ↦ rw same (
        Fine-ne _ (
          map_err-ne-missing version_failed
            (version_req_satisfies sv known_good entry.version_req version info) (λ e q. cc q)))
    | inr other ↦ rw other tt
  ]

  -- A child that is in the graph, and whose name is found.
  abbrev Child : Map ℕ Node → ℕ × Result GraphError (NpmPackageNv Version) → Type 0
  Child nodes c = Known nodes c.0 × Fine Any c.1

  find_matching_child-Fine :
      (nodes : Map ℕ Node) (entry : NpmDependencyEntry sv.Req) (info : NpmPackageInfo)
      (children : List (ℕ × Result GraphError (NpmPackageNv Version)))
      → All (Child nodes) children
      → Fine (OptKnown nodes) (find_matching_child sv known_good entry info children)
  unfolding find_matching_child
  find_matching_child-Fine nodes entry info [] h = tt
  find_matching_child-Fine nodes entry info ((id, nv) ∷ rest) h =
      let later = find_matching_child-Fine nodes entry info rest h.1 in
      Fine-then Any (OptKnown nodes) nv _ h.0.1 λ pkg _.
        Fine-then Any (OptKnown nodes) (is_match sv known_good entry info pkg) _
          (is_match-Fine entry info pkg)
          λ fits _.
            Fine-if (OptKnown nodes) fits (ok (some id))
              (find_matching_child sv known_good entry info rest) h.0.0 later

  named-Child :
      (s : State sv) (children : Map Text ℕ)
      → IsLive s
      → All (λ c. Known s.graph.nodes c.1) children
      → All (Child s.graph.nodes) (map (λ c. named sv known_good s c.1) children)
  named-Child s [] live h = tt
  named-Child s ((name, id) ∷ rest) live h = (
    (
      h.0,
      Fine-then (λ (r : ResolvedId Version). All (PeerKnown s.graph.nodes) r.peer_dependencies) Any
          _ _ (Fine-resolved s.graph id live.sound h.0) (λ r _. tt),
    ),
    named-Child s rest live h.1,
  )

  roots-Child :
      (nodes : Map ℕ Node) (roots : Map (NpmPackageNv Version) ℕ)
      → All (λ r. Known nodes r.1) roots
      → All (Child nodes) (map (λ r. (r.1, ok r.0)) roots)
  roots-Child nodes [] h = tt
  roots-Child nodes ((nv, id) ∷ rest) h = ((h.0, tt), roots-Child nodes rest h.1)

  below-FoundKnown :
      (nodes : Map ℕ Node) (path : GraphPath Version) (child : Option ℕ)
      → OptKnown nodes child
      → FoundKnown nodes (below sv known_good path child)
  below-FoundKnown nodes path none h = tt
  below-FoundKnown nodes path (some id) h = h

  pub find_peer_dep_in_node-Outcome :
      (entry : NpmDependencyEntry sv.Req) (info : NpmPackageInfo) (path : GraphPath Version)
      (s : State sv)
      → IsLive s
      → Known s.graph.nodes 0
      → Outcome s
          (λ o t. FoundKnown t.graph.nodes o)
          (find_peer_dep_in_node sv known_good entry info path s)
  unfolding find_peer_dep_in_node
  find_peer_dep_in_node-Outcome entry info path s live started =
      let id = node_id s path in
      let known = node_id-Known s path live started in
      Fine-Outcome _ _ s live (
        Fine-then _ (FoundKnown s.graph.nodes) (found (resolved id s.graph.resolved_node_ids)) _
          (Fine-resolved s.graph id live.sound known)
          λ r _.
            Fine-then Any (FoundKnown s.graph.nodes) (is_match sv known_good entry info r.nv) _
              (is_match-Fine entry info r.nv)
              λ fits _.
                Fine-if (FoundKnown s.graph.nodes) fits (ok (some (previous_node path, id))) _ known
                  (children_of id known))
    where
      found_node :
          (id : ℕ)
          → Known s.graph.nodes id
          → Fine (λ n. All (λ c. Known s.graph.nodes c.1) n.children) (found (get id s.graph.nodes))
      found_node id (n, there) = rw there (live.sound.children id n there)

      children_of :
          (id : ℕ)
          → Known s.graph.nodes id
          → Fine (FoundKnown s.graph.nodes) (
              found (get id s.graph.nodes) >>= λ node.
              find_matching_child sv known_good entry info
                (map (λ c. named sv known_good s c.1) node.children)
              >>= λ child. ok (below sv known_good path child))
      children_of id known =
          Fine-then _ (FoundKnown s.graph.nodes) (found (get id s.graph.nodes)) _
            (found_node id known)
            λ node h.
              Fine-then (OptKnown s.graph.nodes) (FoundKnown s.graph.nodes) _ _
                (find_matching_child-Fine s.graph.nodes entry info _
                  (named-Child s node.children live h))
                λ child k. below-FoundKnown s.graph.nodes path child k

  pub find_in_roots-Outcome :
      (entry : NpmDependencyEntry sv.Req) (info : NpmPackageInfo) (s : State sv)
      → IsLive s
      → Outcome s (λ o t. OptKnown t.graph.nodes o) (find_in_roots sv known_good entry info s)
  unfolding find_in_roots
  find_in_roots-Outcome entry info s live = Fine-Outcome _ _ s live (
      find_matching_child-Fine s.graph.nodes entry info _
        (roots-Child s.graph.nodes s.graph.root_packages live.sound.roots))

module _ {V R : Type 0} where
  child_pkg_nv-Fine :
      (g : Graph V R) (d : ResolvedIdPeerDep V)
      → IsSound g
      → PeerKnown g.nodes d
      → Fine Any (child_pkg_nv g.resolved_node_ids d)
  child_pkg_nv-Fine g (parent_reference parent nv) sound known = tt
  child_pkg_nv-Fine g (snapshot_node_id id) sound known =
      Fine-then _ Any (found (resolved id g.resolved_node_ids)) _ (Fine-resolved g id sound known)
        (λ r _. tt)

  pub with_nvs-Fine :
      (g : Graph V R) (ds : List (ResolvedIdPeerDep V))
      → IsSound g
      → All (PeerKnown g.nodes) ds
      → Fine (DepsKnown g.nodes) (with_nvs g.resolved_node_ids ds)
  unfolding with_nvs
  with_nvs-Fine g [] sound h = tt
  with_nvs-Fine g (d ∷ ds) sound h =
      Fine-then Any (DepsKnown g.nodes) (child_pkg_nv g.resolved_node_ids d) _
        (child_pkg_nv-Fine g d sound h.0)
        λ nv _.
          Fine-then (DepsKnown g.nodes) (DepsKnown g.nodes) (with_nvs g.resolved_node_ids ds) _
            (with_nvs-Fine g ds sound h.1) λ deps k. (h.0, k)
