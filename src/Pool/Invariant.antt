-- ===== src/Pool/Invariant.antt =====
-- The invariant of the pool and its tasks (crates/base/src/worker_ctx.rs): each request task is on the list
-- of its worker's handles, or on the list that a shutdown of its worker waits for.
pub mod Spawned
pub mod Removed
pub mod Advanced
use server_based_deno.Base.{
  ℕ, suc, ◌+◌, ◌≤◌, ◌<◌, ◌≡◌, refl, ◌≢◌, ◌⊎◌, inl, inr, Bool, true, false, ◌||◌, Option, none, some,
  List, [], ◌∷◌, ◌++◌, arith, ap, subst₂, any, nat_beq, nat_beq_iff, nat_keyed, get, insert, remove,
  get-insert, get-remove, get-insert_self, Bool-cases, Option-cases, if◌then◌else◌, ok, err, Text,
  Map, Result,
}
use server_based_deno.Pool.{
  EdgeContextInitOpts, EdgeContextOpts, user_worker, main_worker, UserWorkerMsgs, create,
  send_request, shutdown, WorkerHandle, Phase, finished, spawned, RequestTask, ShutdownTask,
  joining, Pool, empty_pool, Env, Flow, running, state, handle, handle_create, handle_send_request,
  handle_shutdown, push_handle, spawn_request, begin_shutdown, create_worker, register, answer,
  or_empty, on_create,
}
use server_based_deno.Pool.Tasks.{
  RequestEvent, next_phase, advance_request, is_finished, joined, next_ending, advance_shutdown,
  IsFresh, Step, message, request, ending, Reach, here, next,
}

abbrev pub member : ℕ → List ℕ → Bool
member i l = any (λ j. nat_beq j i) l

-- The task `i` of the worker `k` is on one of the two lists.
pub data Tracked (s : Pool) (i k : ℕ) : Type 0 where
  held :
      (w : WorkerHandle) (hs : List ℕ)
      → get k s.user_workers ≡ some w
      → get k s.handles ≡ some hs
      → member i hs ≡ true
      → Tracked s i k
  awaited :
      (j : ℕ) (d : ShutdownTask)
      → get j s.shutdowns ≡ some d
      → d.key ≡ k
      → member i d.waiting ≡ true
      → Tracked s i k

pub record IsTidy (s : Pool) : Type 0 where
  pub old_request : (i : ℕ) (t : RequestTask) → get i s.requests ≡ some t → i < s.next_task
  pub old_shutdown : (j : ℕ) (d : ShutdownTask) → get j s.shutdowns ≡ some d → j < s.next_task
  pub tracked : (i : ℕ) (t : RequestTask) → get i s.requests ≡ some t → Tracked s i t.key
  pub gone :
      (j : ℕ) (d : ShutdownTask) → get j s.shutdowns ≡ some d → get d.key s.user_workers ≡ none
  pub single :
      (j j' : ℕ) (d d' : ShutdownTask)
      → get j s.shutdowns ≡ some d
      → get j' s.shutdowns ≡ some d'
      → d.key ≡ d'.key
      → j ≡ j'
  pub drained :
      (j : ℕ) (d : ShutdownTask)
      → get j s.shutdowns ≡ some d
      → d.ending ≢ joining
      → (i : ℕ) → member i d.waiting ≡ true
      → is_finished (get i s.requests) ≡ true

pub IsTidy-empty : IsTidy empty_pool
unfolding get
IsTidy-empty = record {
  old_request = λ i t h. cc;
  old_shutdown = λ i t h. cc;
  tracked = λ i t h. cc;
  gone = λ j d h. cc;
  single = λ j j' d d' h h' e. cc;
  drained = λ j d h n i m. cc;
}

-- What a registration changes: the workers grow by at most the fresh key.
pub record Grows (k : ℕ) (s s' : Pool) : Type 0 where
  pub same_requests : s'.requests ≡ s.requests
  pub same_handles : s'.handles ≡ s.handles
  pub same_shutdowns : s'.shutdowns ≡ s.shutdowns
  pub later : s.next_task ≤ s'.next_task
  pub keeps :
      (j : ℕ) (w : WorkerHandle)
      → get j s.user_workers ≡ some w
      → (k ≡ j → ⊥)
      → get j s'.user_workers ≡ some w
  pub adds : (j : ℕ) → get j s.user_workers ≡ none → (k ≡ j → ⊥) → get j s'.user_workers ≡ none

pub handle_create-Grows :
    (env : Env) (opts : EdgeContextInitOpts) (c : EdgeContextOpts) (tx : ℕ) (s s' : Pool)
    → on_create env opts c tx s ≡ running s'
    → Grows env.new_key s s'
unfolding register create_worker answer
handle_create-Grows env opts (main_worker m) tx s s' h = cc
handle_create-Grows env opts (user_worker u) tx s s' h = record {
  same_requests = ground arith;
  same_handles = ground arith;
  same_shutdowns = ground arith;
  later = ground arith;
  keeps = λ j w g n.
      ground (arith, get-insert env.new_key j (record { thread = s.next_task }) s.user_workers);
  adds = λ j g n.
      ground (arith, get-insert env.new_key j (record { thread = s.next_task }) s.user_workers);
}

Tracked-Grows :
    {k : ℕ} {s s' : Pool} (i j : ℕ)
    → Grows k s s'
    → get k s.user_workers ≡ none
    → Tracked s i j
    → Tracked s' i j
Tracked-Grows {k} {s} i j g f (held w hs a b c) =
    held w hs (g.keeps j w a (λ e. cc (ap (λ (x : ℕ). get x s.user_workers) e)))
      (rw g.same_handles b) c
Tracked-Grows {k} {s} i j g f (awaited x d a b c) = awaited x d (rw g.same_shutdowns a) b c

pub Grows-IsTidy : {k : ℕ} {s s' : Pool} → Grows k s s' → IsFresh k s → IsTidy s → IsTidy s'
Grows-IsTidy g f h = record {
  old_request = λ i t e. omega (arith, h.old_request i t (rw (← g.same_requests) e), g.later);
  old_shutdown = λ j d e. omega (arith, h.old_shutdown j d (rw (← g.same_shutdowns) e), g.later);
  tracked = λ i t e. Tracked-Grows i t.key g f.no_worker (h.tracked i t (rw (← g.same_requests) e));
  gone = λ j d e.
      let e' = rw g.same_shutdowns at e in g.adds d.key (h.gone j d e') (f.no_shutdown j d e');
  single =
      λ j j' d d' e e'. h.single j j' d d' (rw (← g.same_shutdowns) e) (rw (← g.same_shutdowns) e');
  drained = λ j d e n i m. rw g.same_requests (h.drained j d (rw (← g.same_shutdowns) e) n i m);
}

pub finished_old :
    {s : Pool} → IsTidy s → (i : ℕ) → is_finished (get i s.requests) ≡ true → i < s.next_task
finished_old {s} h i done = elim (Option-cases (get i s.requests)) [
  | inl missing ↦ cc
  | inr (t, found) ↦ h.old_request i t found
]
