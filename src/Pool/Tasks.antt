-- ===== src/Pool/Tasks.antt =====
-- The tasks that the pool spawns (crates/base/src/worker_ctx.rs), as steps that interleave with
-- the pool's loop.
use server_based_deno.Base.{
  ℕ, ◌≡◌, Bool, true, false, Option, none, some, List, [], ◌∷◌, ◌++◌, all, get, insert, nat_keyed,
  if◌then◌else◌,
}
use server_based_deno.Pool.{
  Reply, response, Phase, spawned, sent, finished, RequestTask, Ending, joining, signalled, refused,
  dropped, ShutdownTask, Pool, Env, UserWorkerMsgs, handle, running,
}

-- What a request task meets at its next `await`: the worker's channel took the message or is
-- closed, the response came, or it was lost.
pub data RequestEvent : Type 0 where
  accepted closed lost : RequestEvent
  answered : ℕ → RequestEvent

unfoldable pub next_phase : RequestEvent → Phase → Phase
next_phase accepted spawned = sent
next_phase closed spawned = finished
next_phase (answered res) sent = finished
next_phase lost sent = finished
next_phase _ p = p

abbrev pub reply_of : RequestEvent → Phase → Option Reply
reply_of (answered res) sent = some (response res)
reply_of _ _ = none

abbrev pub post : ℕ → Option Reply → List (ℕ × Reply) → List (ℕ × Reply)
post tx none replies = replies
post tx (some r) replies = replies ++ (tx, r) ∷ []

unfoldable pub advance_request : (ℕ → Bool) → ℕ → RequestEvent → RequestTask → Pool → Pool
unfolding next_phase
advance_request alive i ev t s = record s {
  requests = insert i (record t { phase = next_phase ev t.phase }) s.requests;
  replies = if alive t.tx then post t.tx (reply_of ev t.phase) s.replies else s.replies;
}

abbrev pub is_finished : Option RequestTask → Bool
is_finished none = false
is_finished (some t) = elim t.phase [ finished ↦ true | _ ↦ false ]

-- `join_all(handles_worker)` is ready.
abbrev pub joined : Pool → List ℕ → Bool
joined s waiting = all (λ i. is_finished (get i s.requests)) waiting

-- The shutdown task: join, send the terminate signal, sleep, drop the worker's channel. The signal
-- fails if the worker's thread has ended (`received` is false).
abbrev pub next_ending : Bool → Bool → Ending → Ending
next_ending true true joining = signalled
next_ending true false joining = refused
next_ending done received signalled = dropped
next_ending done received e = e

unfoldable pub advance_shutdown : Bool → ℕ → ShutdownTask → Pool → Pool
advance_shutdown received j d s = record s {
  shutdowns =
      insert j (record d { ending = next_ending (joined s d.waiting) received d.ending })
        s.shutdowns;
}

-- `Uuid::new_v4` gives a key that no worker or task has had.
pub record IsFresh (k : ℕ) (s : Pool) : Type 0 where
  pub no_worker : get k s.user_workers ≡ none
  pub no_request : (i : ℕ) (t : RequestTask) → get i s.requests ≡ some t → k ≡ t.key → ⊥
  pub no_shutdown : (j : ℕ) (d : ShutdownTask) → get j s.shutdowns ≡ some d → k ≡ d.key → ⊥

pub data Step : Pool → Pool → Type 0 where
  message :
      {s s' : Pool} (env : Env) (msg : UserWorkerMsgs)
      → IsFresh env.new_key s
      → handle env msg s ≡ running s'
      → Step s s'
  request :
      {s : Pool} (alive : ℕ → Bool) (i : ℕ) (ev : RequestEvent) (t : RequestTask)
      → get i s.requests ≡ some t
      → Step s (advance_request alive i ev t s)
  ending :
      {s : Pool} (received : Bool) (j : ℕ) (d : ShutdownTask)
      → get j s.shutdowns ≡ some d
      → Step s (advance_shutdown received j d s)

pub data Reach (s : Pool) : Pool → Type 0 where
  here : Reach s s
  next : {t u : Pool} → Reach s t → Step t u → Reach s u
