-- ===== src/Pool/Invariant/Spawned.antt =====
-- The invariant after a request is accepted (`UserWorkerMsgs::SendRequest`).
use server_based_deno.Base.{
  ℕ, ◌≡◌, inl, inr, true, some, List, [], ◌∷◌, ◌++◌, arith, subst₂, nat_beq, nat_beq_iff, nat_keyed,
  get, get-insert, Bool-cases, if◌then◌else◌, Map,
}
use server_based_deno.Pool.{
  WorkerHandle, spawned, RequestTask, Pool, push_handle, spawn_request, or_empty,
}
use server_based_deno.Pool.Invariant.{member, Tracked, held, awaited, IsTidy, finished_old}

member-append : (i n : ℕ) (l : List ℕ) → member i l ≡ true → member i (l ++ n ∷ []) ≡ true
member-append i n [] h = cc
member-append i n (j ∷ l) h = ground (arith, member-append i n l)

member-append_self : (n : ℕ) (l : List ℕ) → member n (l ++ n ∷ []) ≡ true
member-append_self n [] = ground arith
member-append_self n (j ∷ l) = ground (arith, member-append_self n l)

pub get-push_handle :
    (k n j : ℕ) (m : Map ℕ (List ℕ))
    → get j (push_handle k n m)
      ≡ (if nat_beq k j then some (or_empty (get k m) ++ n ∷ []) else get j m)
unfolding push_handle
get-push_handle k n j m = ground (arith, get-insert k j (or_empty (get k m) ++ n ∷ []) m)

-- A request that is accepted: its worker is there, and its task joins the worker's handles.
module _ (key req tx : ℕ) (s : Pool) (w : WorkerHandle)
    (present : get key s.user_workers ≡ some w) where
  Tracked-spawn_request : (i k : ℕ) → Tracked s i k → Tracked (spawn_request key req tx s) i k
  unfolding spawn_request
  Tracked-spawn_request i k (awaited j d a b c) = awaited j d a b c
  Tracked-spawn_request i k (held v hs a b c) = elim (Bool-cases (nat_beq key k)) [
    | inl same ↦
        held v (hs ++ s.next_task ∷ []) a
          (ground (arith, get-push_handle key s.next_task k s.handles))
          (member-append i s.next_task hs c)
    | inr other ↦ held v hs a (ground (arith, get-push_handle key s.next_task k s.handles)) c
  ]

  spawn_request-Tracked_self : Tracked (spawn_request key req tx s) s.next_task key
  unfolding spawn_request
  spawn_request-Tracked_self =
      held w (or_empty (get key s.handles) ++ s.next_task ∷ []) present
        (ground (arith, get-push_handle key s.next_task key s.handles))
        (member-append_self s.next_task (or_empty (get key s.handles)))

  spawned_task : RequestTask
  spawned_task = record { key = key; req = req; tx = tx; phase = spawned }

  requests-spawn_request :
      (i : ℕ)
      → get i (spawn_request key req tx s).requests
        ≡ (if nat_beq s.next_task i then some spawned_task else get i s.requests)
  unfolding spawn_request spawned_task
  requests-spawn_request i = get-insert s.next_task i spawned_task s.requests

  pub spawn_request-IsTidy : IsTidy s → IsTidy (spawn_request key req tx s)
  spawn_request-IsTidy h = record {
    old_request = λ i t e.
        unfold spawn_request in ground (arith, requests-spawn_request i, h.old_request i t);
    old_shutdown = λ j d e. unfold spawn_request in ground (arith, h.old_shutdown j d);
    tracked = λ i t e. elim (Bool-cases (nat_beq s.next_task i)) [
      | inl same ↦
          let key_eq : key ≡ t.key =
            unfold spawned_task in ground (arith, requests-spawn_request i) in
          subst₂ (λ a b. Tracked (spawn_request key req tx s) a b) ((nat_beq_iff _ _).0 same) key_eq
            spawn_request-Tracked_self
      | inr other ↦
          Tracked-spawn_request i t.key (h.tracked i t (ground (arith, requests-spawn_request i)))
    ];
    gone = unfold spawn_request in h.gone;
    single = unfold spawn_request in h.single;
    drained = λ j d e n i m.
        let e' : get j s.shutdowns ≡ some d = unfold spawn_request in e in
        let done = h.drained j d e' n i m in
        let old = finished_old h i done in ground (arith, requests-spawn_request i);
  }
