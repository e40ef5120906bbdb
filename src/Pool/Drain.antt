-- ===== src/Pool/Drain.antt =====
-- What the shutdown of a worker guarantees to the requests that it accepted.
use server_based_deno.Base.{
  ℕ, ◌≡◌, ◌≢◌, some, Option-cases, arith, nat_keyed, get, true, inl, inr, subst, sym, ap, ◌∙◌,
}
use server_based_deno.Pool.{
  UserWorkerMsgs, create, send_request, shutdown, RequestTask, ShutdownTask, joining, Pool,
  empty_pool, Env, Reply, answer, running, handle, handle_create, handle_send_request,
  handle_shutdown,
}
use server_based_deno.Pool.Tasks.{
  is_finished, IsFresh, Step, message, request, ending, Reach, here, next,
}
use server_based_deno.Pool.Invariant.{
  Tracked, held, awaited, IsTidy, IsTidy-empty, Grows, Grows-IsTidy, handle_create-Grows,
}
use server_based_deno.Pool.Invariant.Spawned.{spawn_request-IsTidy}
use server_based_deno.Pool.Invariant.Removed.{begin_shutdown-IsTidy}
use server_based_deno.Pool.Invariant.Advanced.{advance_request-IsTidy, advance_shutdown-IsTidy}

answer-Grows :
    (k : ℕ) (env : Env) (tx : ℕ) (r : Reply) {s s' : Pool}
    → answer env tx r s ≡ running s'
    → Grows k s s'
unfolding answer
answer-Grows k env tx r {s} {s'} e = record {
  same_requests = ground arith;
  same_handles = ground arith;
  same_shutdowns = ground arith;
  later = ground arith;
  keeps = λ j w g n. ground arith;
  adds = λ j g n. ground arith;
}

send_request-IsTidy :
    (env : Env) (key req tx : ℕ) {s s' : Pool}
    → IsFresh env.new_key s
    → IsTidy s
    → handle_send_request env key req tx s ≡ running s'
    → IsTidy s'
unfolding handle_send_request
send_request-IsTidy env key req tx {s} {s'} f h e = elim (Option-cases (get key s.user_workers)) [
  | inl missing ↦
      Grows-IsTidy (answer-Grows env.new_key env tx _ (rw (missing, handle_send_request) at e)) f h
  | inr (w, found) ↦
      subst IsTidy (cc (rw (found, handle_send_request) at e))
        (spawn_request-IsTidy key req tx s w found h)
]

shutdown-IsTidy :
    (key : ℕ) {s s' : Pool} → IsTidy s → handle_shutdown key s ≡ running s' → IsTidy s'
unfolding handle_shutdown
shutdown-IsTidy key {s} {s'} h e = elim (Option-cases (get key s.user_workers)) [
  | inl missing ↦ cc (rw (missing, handle_shutdown) at e)
  | inr (w, found) ↦
      subst IsTidy (cc (rw (found, handle_shutdown) at e)) (begin_shutdown-IsTidy key s w found h)
]

handle-IsTidy :
    (env : Env) (msg : UserWorkerMsgs) {s s' : Pool}
    → IsFresh env.new_key s
    → IsTidy s
    → handle env msg s ≡ running s'
    → IsTidy s'
handle-IsTidy env (create opts tx) {s} {s'} f h e =
    Grows-IsTidy (handle_create-Grows env opts opts.conf tx s s' (unfold handle handle_create in e))
      f h
handle-IsTidy env (send_request key req tx) {s} {s'} f h e =
    send_request-IsTidy env key req tx f h (unfold handle in e)
handle-IsTidy env (shutdown key) {s} {s'} f h e = shutdown-IsTidy key h (unfold handle in e)

-- Every step of the pool's loop and of its tasks keeps the invariant.
pub Step-IsTidy : {s s' : Pool} → Step s s' → IsTidy s → IsTidy s'
Step-IsTidy (message env msg f e) h = handle-IsTidy env msg f h e
Step-IsTidy (request {s = s} alive i ev t at) h = advance_request-IsTidy alive i ev t s at h
Step-IsTidy (ending {s = s} received j d at) h = advance_shutdown-IsTidy received j d s at h

pub Reach-IsTidy : {s : Pool} → Reach empty_pool s → IsTidy s
Reach-IsTidy here = IsTidy-empty
Reach-IsTidy (next r st) = Step-IsTidy st (Reach-IsTidy r)

-- In every reachable state, once the shutdown task of a worker has gone past its join (the
-- terminate signal was sent or refused), every request task of that worker has finished.
pub signalled_worker_drained :
    {s : Pool} (i j : ℕ) (t : RequestTask) (d : ShutdownTask)
    → Reach empty_pool s
    → get j s.shutdowns ≡ some d
    → d.ending ≢ joining
    → get i s.requests ≡ some t
    → t.key ≡ d.key
    → is_finished (some t) ≡ true
signalled_worker_drained {s} i j t d r e n at k =
    let h = Reach-IsTidy r in tracked_drained h (h.tracked i t at)
  where
    tracked_drained : IsTidy s → Tracked s i t.key → is_finished (some t) ≡ true
    tracked_drained h (held w hs a b c) =
        cc (a, h.gone j d e, ap (λ (x : ℕ). get x s.user_workers) k)
    tracked_drained h (awaited j' d' a b c) =
        let j_eq = h.single j j' d d' e a (sym (b ∙ k)) in
        let d_eq : d ≡ d' = cc (ap (λ (x : ℕ). get x s.shutdowns) j_eq) in
        rw at at (h.drained j d e n i (rw d_eq c))
