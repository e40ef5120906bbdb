-- ===== src/Npm/Graph/Sound/Steps.antt =====
-- The small steps of the resolver in a sound graph (crates/module_fetcher/src/npm/resolution/
-- graph.rs).
use server_based_deno.Base.{
  ℕ, ◌≡◌, ◌≢◌, ap, true, List, Text, Map, nat_keyed, Keyed, nat_beq, Result, ok, err, map_err, All,
  Bool-cases, inl, inr, ◌⊎◌,
}
use server_based_deno.Npm.Id.Equality.{NpmPackageNv, nv_keyed}
use server_based_deno.Npm.Graph.{
  Graph, Node, ResolvedId, GraphPath, GraphPathNodeOrRoot, GraphError, missing_node, Hashed,
  node_id_ref, resolved,
}
use server_based_deno.Npm.Graph.Resolver.{
  GraphDependencyResolver, write, push_pending, change_id, push_linked, new_path, resolved_or_panic,
  node_or_panic, with_graph, set_no_peers, set_child, get_or_create, versions_of,
}
use server_based_deno.Npm.Graph.Peers.{put_child}
use server_based_deno.Npm.Graph.Sound.{Known, PeerKnown, IsSound, insert-IsSound, Grows-insert}
use server_based_deno.Npm.Graph.Sound.Created.{
  get_or_create_for_id-Gives, Changes, added_child-Changes, set_child_of_parent_node-Changes,
}
use server_based_deno.Npm.Graph.Sound.Outcome.{
  IsLive, Outcome, Outcome-ok, Outcome-err, Done, with_graph-IsLive,
}

write-cells :
    (nodes : Map ℕ Node) (node_ids : ℕ → ℕ) (cell id : ℕ)
    → ((c : ℕ) → Known nodes (node_ids c) ⊎ (node_ids c ≡ 0))
    → Known nodes id
    → (c : ℕ) → Known nodes (write node_ids cell id c) ⊎ (write node_ids cell id c ≡ 0)
write-cells nodes node_ids cell id cells known c = elim (Bool-cases (nat_beq c cell)) [
  | inl same ↦ rw same (inl known)
  | inr other ↦ rw other (cells c)
]

module _ {V R : Type 0} where
  abbrev pub Gets : ℕ → GraphDependencyResolver V R → Type 0
  Gets id t = Known t.graph.nodes id

  pub push_pending-Outcome :
      (path : GraphPath V) (s : GraphDependencyResolver V R)
      → IsLive s
      → Known s.graph.nodes 0
      → Outcome s Done (push_pending path s)
  unfolding push_pending
  push_pending-Outcome path s live started = record {
    live = record { sound = live.sound; cells = live.cells; started = inr started };
    grows = λ i k. k;
    value = tt;
  }

  pub resolved_or_panic-Outcome :
      (id : ℕ) (s : GraphDependencyResolver V R)
      → IsLive s
      → Known s.graph.nodes id
      → Outcome s
          (λ r t. All (PeerKnown t.graph.nodes) r.peer_dependencies)
          (resolved_or_panic id s)
  unfolding resolved_or_panic resolved
  resolved_or_panic-Outcome id s live (n, there) =
      let (r, e) = live.sound.has_id id n there in
      rw e (Outcome-ok _ s r.0 live (live.sound.peers id r e))

  pub node_or_panic-Outcome :
      (id : ℕ) (s : GraphDependencyResolver V R)
      → IsLive s
      → Known s.graph.nodes id
      → Outcome s (λ n t. All (λ c. Known t.graph.nodes c.1) n.children) (node_or_panic id s)
  unfolding node_or_panic
  node_or_panic-Outcome id s live (n, there) =
      rw there (Outcome-ok _ s n live (live.sound.children id n there))

  pub change_id-Outcome :
      (path : GraphPath V) (id : ℕ) (s : GraphDependencyResolver V R)
      → IsLive s
      → Known s.graph.nodes id
      → Outcome s Done (change_id path id s)
  unfolding change_id
  change_id-Outcome path id s live known = record {
    live = record {
      sound = live.sound;
      cells = write-cells s.graph.nodes s.node_ids (node_id_ref path) id live.cells known;
      started = live.started;
    };
    grows = λ i k. k;
    value = tt;
  }

  pub new_path-Outcome :
      (previous : GraphPathNodeOrRoot V) (id : ℕ) (name : Text) (nv : NpmPackageNv V)
      (s : GraphDependencyResolver V R)
      → IsLive s
      → Known s.graph.nodes id
      → Outcome s Done (new_path previous id name nv s)
  unfolding new_path
  new_path-Outcome previous id name nv s live known = record {
    live = record {
      sound = live.sound;
      cells = write-cells s.graph.nodes s.node_ids s.next_ref id live.cells known;
      started = live.started;
    };
    grows = λ i k. k;
    value = tt;
  }

  pub push_linked-Outcome :
      (ancestor descendant : GraphPath V) (s : GraphDependencyResolver V R)
      → IsLive s
      → Outcome s Done (push_linked ancestor descendant s)
  unfolding push_linked
  push_linked-Outcome ancestor descendant s live = record {
    live = record { sound = live.sound; cells = live.cells; started = live.started };
    grows = λ i k. k;
    value = tt;
  }

  with_graph-Outcome :
      (r : Result GraphError (Graph V R)) (s : GraphDependencyResolver V R)
      → IsLive s
      → Changes s.graph r
      → Outcome s Done (with_graph r s)
  with_graph-Outcome (ok g) s live changes = record {
    live = with_graph-IsLive s g live changes.0 changes.1;
    grows = changes.1;
    value = tt;
  }
  with_graph-Outcome (err e) s live changes = Outcome-err Done s e live changes

  pub set_child-Outcome :
      (p child : ℕ) (name : Text) (s : GraphDependencyResolver V R)
      → IsLive s
      → Known s.graph.nodes p
      → Known s.graph.nodes child
      → Outcome s Done (set_child p name child s)
  unfolding set_child
  set_child-Outcome p child name s live known_p known =
      with_graph-Outcome _ s live
        (set_child_of_parent_node-Changes s.graph p child name live.sound known_p known)

  pub put_child-Outcome :
      (p child : ℕ) (name : Text) (s : GraphDependencyResolver V R)
      → IsLive s
      → Known s.graph.nodes p
      → Known s.graph.nodes child
      → Outcome s Done (put_child p name child s)
  unfolding put_child
  put_child-Outcome p child name s live known_p known =
      with_graph-Outcome _ s live
        (added_child-Changes s.graph p child name live.sound known_p known)

  pub set_no_peers-Outcome :
      (id : ℕ) (s : GraphDependencyResolver V R)
      → IsLive s
      → Known s.graph.nodes id
      → Outcome s Done (set_no_peers id s)
  unfolding set_no_peers
  set_no_peers-Outcome id s live (n, there) = with_graph-Outcome _ s live (
      rw there (
        insert-IsSound s.graph id n (record n { no_peers = true }) live.sound there
            (live.sound.children id n there),
        Grows-insert id (record n { no_peers = true }) s.graph.nodes,
      ))

  pub get_or_create-Outcome :
      ⦃version_keyed : Keyed V⦄ (hash : List (Hashed V) → ℕ) (id : ResolvedId V)
      (s : GraphDependencyResolver V R)
      → IsLive s
      → All (PeerKnown s.graph.nodes) id.peer_dependencies
      → Outcome s (λ a t. Known t.graph.nodes a.1) (get_or_create hash id s)
  unfolding get_or_create
  get_or_create-Outcome hash id s live ok_peers =
      let gives = get_or_create_for_id-Gives hash s.node_ids id s.graph live.sound ok_peers in
      record {
        live = with_graph-IsLive s _ live gives.sound gives.grows;
        grows = gives.grows;
        value = gives.known;
      }

  same_nodes-IsSound :
      (g : Graph V R) (versions : Map Text (List V))
      → IsSound g
      → IsSound (record g { package_name_versions = versions })
  same_nodes-IsSound g versions sound = record {
    children = sound.children;
    has_id = sound.has_id;
    first = sound.first;
    roots = sound.roots;
    keys = sound.keys;
    peers = sound.peers;
  }

  pub versions_of-Outcome :
      ⦃version_keyed : Keyed V⦄ (name : Text) (s : GraphDependencyResolver V R)
      → IsLive s
      → Outcome s Done (versions_of name s)
  unfolding versions_of
  versions_of-Outcome name s live = record {
    live = with_graph-IsLive s _ live (same_nodes-IsSound s.graph _ live.sound) (λ i k. k);
    grows = λ i k. k;
    value = tt;
  }

  pub lift-Outcome :
      {A : Type 0} (r : Result GraphError A) (s : GraphDependencyResolver V R)
      → IsLive s
      → r ≢ err missing_node
      → Outcome s Done (r, s)
  lift-Outcome (ok a) s live h = Outcome-ok Done s a live tt
  lift-Outcome (err e) s live h = Outcome-err Done s e live (λ q. h (ap err q))

pub map_err-ne-missing :
    {E A : Type 0} (g : E → GraphError) (r : Result E A)
    → ((e : E) → g e ≢ missing_node)
    → map_err g r ≢ err missing_node
map_err-ne-missing g (ok a) h q = cc
map_err-ne-missing g (err e) h q = h e (cc q)
