-- ===== src/Npm/Graph/PackageIds/Ends.antt =====
-- The package id of a node is found after as many calls as there are nodes
-- (crates/module_fetcher/src/npm/resolution/graph.rs).
use server_based_deno.Base.{
  ℕ, zero, suc, ◌≤◌, ◌<◌, ◌≡◌, refl, ap, false, Option, none, some, List, [], ◌∷◌, Text, Map, get,
  Keyed, nat_keyed, ◌==◌, nat_beq, nat_beq_iff, any, Result, ok, length, if◌then◌else◌, All,
  All-get, Bool-cases, Option-cases, inl, inr, arith,
}
use server_based_deno.Npm.Id.{NpmPackageId, npm_package_id}
use server_based_deno.Npm.Id.Equality.{NpmPackageNv, nv, nv_keyed}
use server_based_deno.Npm.Graph.{
  Graph, Node, ResolvedId, ResolvedIdPeerDep, parent_reference, snapshot_node_id, at_node, at_root,
  GraphError, node_id_ref, resolved,
}
use server_based_deno.Npm.Graph.PackageIds.{
  with_id, or_later, child_with_nv, peer_node, push_new, push_peer, push_peers, peers_of,
  get_npm_pkg_id_from_resolved_id, get_npm_pkg_id,
}
use server_based_deno.Npm.Graph.Sound.{Known, PeerKnown, IsSound}

-- How many nodes have not been seen.
abbrev unseen : Map ℕ Node → List ℕ → ℕ
unseen [] seen = 0
unseen ((i, n) ∷ nodes) seen =
    if any (nat_beq i) seen then unseen nodes seen else suc (unseen nodes seen)

unseen-cons-le :
    (nodes : Map ℕ Node) (c : ℕ) (seen : List ℕ) → unseen nodes (c ∷ seen) ≤ unseen nodes seen
unseen-cons-le [] c seen = omega arith
unseen-cons-le ((i, n) ∷ nodes) c seen = ground (arith, unseen-cons-le nodes c seen)

unseen-cons-lt :
    (nodes : Map ℕ Node) (c : ℕ) (seen : List ℕ)
    → Known nodes c
    → any (nat_beq c) seen ≡ false
    → unseen nodes (c ∷ seen) < unseen nodes seen
unfolding get
unseen-cons-lt [] c seen (n, e) new = cc
unseen-cons-lt ((i, m) ∷ nodes) c seen (n, e) new = elim (Bool-cases (i == c)) [
  | inl same ↦
      let eq : i ≡ c = (nat_beq_iff i c).0 same in
      let le = unseen-cons-le nodes c seen in rw eq (ground arith)
  | inr other ↦ let lt = unseen-cons-lt nodes c seen (n, rw other at e) new in ground arith
]

unseen-nil : (nodes : Map ℕ Node) → unseen nodes [] ≡ length nodes
unseen-nil [] = refl
unseen-nil ((i, n) ∷ nodes) = ap suc (unseen-nil nodes)

module _ {V R : Type 0} ⦃version_keyed : Keyed V⦄ (node_ids : ℕ → ℕ) (g : Graph V R)
    (sound : IsSound g) where
  -- A node of the graph with its resolved id, or nothing.
  abbrev Target : Option (ℕ × ResolvedId V) → Type 0
  Target none = Unit
  Target (some (c, r)) = Known g.nodes c × All (PeerKnown g.nodes) r.peer_dependencies

  with_id-Target :
      (id : ℕ) → Known g.nodes id → Target (with_id id (resolved id g.resolved_node_ids))
  unfolding resolved
  with_id-Target id (n, there) =
      let (r, e) = sound.has_id id n there in rw e ((n, there), sound.peers id r e)

  child_with_nv-Target :
      (nv : NpmPackageNv V) (children : Map Text ℕ)
      → All (λ c. Known g.nodes c.1) children
      → Target (child_with_nv node_ids g nv children)
  unfolding child_with_nv
  child_with_nv-Target nv [] h = tt
  child_with_nv-Target nv ((name, id) ∷ rest) h =
      or_later-Target (with_id id (resolved id g.resolved_node_ids)) _ (with_id-Target id h.0)
        (child_with_nv-Target nv rest h.1)
    where
      or_later-Target :
          (o later : Option (ℕ × ResolvedId V))
          → Target o
          → Target later
          → Target (or_later node_ids g nv o later)
      or_later-Target none later t u = u
      or_later-Target (some (c, r)) later t u = elim (Bool-cases (r.nv == nv)) [
        | inl same ↦ rw same t
        | inr other ↦ rw other u
      ]

  peer_node-Target :
      (dep : ResolvedIdPeerDep V) → PeerKnown g.nodes dep → Target (peer_node node_ids g dep)
  unfolding peer_node
  peer_node-Target (snapshot_node_id id) known = with_id-Target id known
  peer_node-Target (parent_reference (at_root root) nv) known =
      elim (Option-cases (get nv g.root_packages)) [
        | inl e ↦ rw e tt
        | inr (id, e) ↦ rw e (
            with_id-Target id
              (All-get (λ r. Known g.nodes r.1) nv id g.root_packages sound.roots e))
      ]
  peer_node-Target (parent_reference (at_node path) nv) known =
      elim (Option-cases (get (node_ids (node_id_ref path)) g.nodes)) [
        | inl e ↦ rw (e, peer_node) tt
        | inr (n, e) ↦ rw (e, peer_node) (child_with_nv-Target nv n.children (sound.children _ n e))
      ]

  -- What the recursive call is taken to do.
  abbrev Ends : (ResolvedId V → List ℕ → Result GraphError (NpmPackageId V)) → List ℕ → Type 0
  Ends id_of seen =
      (c : ℕ) (r : ResolvedId V)
      → any (nat_beq c) seen ≡ false
      → Known g.nodes c
      → All (PeerKnown g.nodes) r.peer_dependencies
      → (p : NpmPackageId V) × (id_of r (c ∷ seen) ≡ ok p)

  push_peer_total :
      (id_of : ResolvedId V → List ℕ → Result GraphError (NpmPackageId V)) (seen : List ℕ)
      (o : Option (ℕ × ResolvedId V)) (pushed : List (NpmPackageId V))
      → Ends id_of seen
      → Target o
      → (more : List (NpmPackageId V)) × (push_peer node_ids g id_of seen o pushed ≡ ok more)
  push_peer_total id_of seen none pushed ends t = (pushed, refl)
  push_peer_total id_of seen (some (c, r)) pushed ends t =
      elim (Bool-cases (any (nat_beq c) seen)) [
        | inl old ↦ (pushed, rw old refl)
        | inr new ↦
            let (p, e) = ends c r new t.0 t.1 in (push_new node_ids g p pushed, rw new (rw e refl))
      ]

  push_peers_total :
      (id_of : ResolvedId V → List ℕ → Result GraphError (NpmPackageId V)) (seen : List ℕ)
      (deps : List (ResolvedIdPeerDep V)) (pushed : List (NpmPackageId V))
      → Ends id_of seen
      → All (PeerKnown g.nodes) deps
      → (out : List (NpmPackageId V)) × (push_peers node_ids g id_of seen deps pushed ≡ ok out)
  unfolding push_peers
  push_peers_total id_of seen [] pushed ends h = (pushed, refl)
  push_peers_total id_of seen (dep ∷ deps) pushed ends h =
      let (more, e) =
        push_peer_total id_of seen (peer_node node_ids g dep) pushed ends
          (peer_node-Target dep h.0) in
      let (out, q) = push_peers_total id_of seen deps more ends h.1 in (out, rw e q)

  id_ends :
      (fuel : ℕ) (r : ResolvedId V) (seen : List ℕ)
      → unseen g.nodes seen < fuel
      → All (PeerKnown g.nodes) r.peer_dependencies
      → (p : NpmPackageId V) × (get_npm_pkg_id_from_resolved_id node_ids g fuel r seen ≡ ok p)
        × (nv p ≡ r.nv)
  unfolding get_npm_pkg_id_from_resolved_id
  id_ends zero r seen enough h = absurd (omega arith)
  id_ends (suc fuel) r seen enough h =
      let ends : Ends (get_npm_pkg_id_from_resolved_id node_ids g fuel) seen =
        (λ c q new known peers.
          let lt = unseen-cons-lt g.nodes c seen known new in
          let (p, e, _) = id_ends fuel q (c ∷ seen) (omega arith) peers in (p, e)) in
      let (peers, e) =
        push_peers_total (get_npm_pkg_id_from_resolved_id node_ids g fuel) seen r.peer_dependencies
          [] ends h in
      (npm_package_id r.nv.0 r.nv.1 (peers_of peers), rw e refl, refl)

  -- In a sound graph every node has a package id, of the name and version of its resolved id: the
  -- calls that follow the peer dependencies end, since they stop at a node that was seen.
  pub get_npm_pkg_id_ends :
      (id : ℕ)
      → Known g.nodes id
      → (p : NpmPackageId V) × (r : ResolvedId V) × (get_npm_pkg_id node_ids g id ≡ ok p)
        × (resolved id g.resolved_node_ids ≡ some r)
        × (nv p ≡ r.nv)
  unfolding get_npm_pkg_id resolved
  get_npm_pkg_id_ends id (n, there) =
      let (r, e) = sound.has_id id n there in
      let (p, q, same) =
        id_ends (suc (length g.nodes)) r.0 [] (omega (arith, unseen-nil g.nodes))
          (sound.peers id r e) in
      (p, r.0, rw e q, rw e refl, same)
