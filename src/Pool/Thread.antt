-- ===== src/Pool/Thread.antt =====
-- The thread of a user worker (`create_worker` in crates/base/src/worker_ctx.rs): the timer that
-- asks the pool for a shutdown, and the `select!` between the event loop and the terminate signal.
use server_based_deno.Base.{
  ℕ, ◌≡◌, refl, ◌≢◌, Option, some, List, [], ◌∷◌, ◌++◌, ◌∙◌, ◌⊎◌, inl, inr, arith,
}
use server_based_deno.Pool.{EdgeUserRuntimeOpts, UserWorkerMsgs, shutdown}

pub data Timer : Type 0 where
  sleeping fired aborted : Timer

-- `closing`: the terminate branch sleeps for 1000 ms after it aborted the timer. `ended`: the block
-- of `block_on` is over, and with it the tasks of its `LocalSet`, the timer included.
pub data Selected : Type 0 where
  waiting closing ended : Selected

pub record Thread : Type 0 where
  pub opts : EdgeUserRuntimeOpts
  pub timer : Timer
  pub selected : Selected
  pub sent : List UserWorkerMsgs

-- `elapsed`: the sleep of `life_time_ms` is over; `grace_over`: that of 1000 ms is.
pub data ThreadEvent : Type 0 where
  elapsed event_loop_done terminate_signal grace_over : ThreadEvent

unfoldable pub start_thread : EdgeUserRuntimeOpts → Thread
start_thread opts = record { opts = opts; timer = sleeping; selected = waiting; sent = [] }

-- `if let Some(k) = key { if let Some(tx) = pool_msg_tx { tx.send(Shutdown(k)) } }`
unfoldable pub halt_message : Option ℕ → Option ℕ → List UserWorkerMsgs
halt_message (some k) (some tx) = shutdown k ∷ []
halt_message _ _ = []

abbrev pub fire : Timer → Thread → Thread
fire sleeping th = record th {
  timer = fired;
  sent = th.sent ++ halt_message th.opts.key th.opts.pool_msg_tx;
}
fire fired th = th
fire aborted th = th

-- The timer runs until the thread is over, during the last second too.
abbrev pub on_elapsed : Selected → Thread → Thread
on_elapsed waiting th = fire th.timer th
on_elapsed closing th = fire th.timer th
on_elapsed ended th = th

-- `if !handle.is_finished() { handle.abort(); sleep(1000 ms).await }`
abbrev pub abort : Timer → Thread → Thread
abort sleeping th = record th { timer = aborted; selected = closing }
abort fired th = record th { selected = ended }
abort aborted th = record th { selected = ended }

abbrev pub on_terminate : Selected → Thread → Thread
on_terminate waiting th = abort th.timer th
on_terminate closing th = th
on_terminate ended th = th

abbrev pub on_event_loop_done : Selected → Thread → Thread
on_event_loop_done waiting th = record th { selected = ended }
on_event_loop_done closing th = th
on_event_loop_done ended th = th

abbrev pub on_grace_over : Selected → Thread → Thread
on_grace_over waiting th = th
on_grace_over closing th = record th { selected = ended }
on_grace_over ended th = th

unfoldable pub step_thread : ThreadEvent → Thread → Thread
unfolding halt_message
step_thread elapsed th = on_elapsed th.selected th
step_thread event_loop_done th = on_event_loop_done th.selected th
step_thread terminate_signal th = on_terminate th.selected th
step_thread grace_over th = on_grace_over th.selected th

unfoldable pub run_thread : List ThreadEvent → Thread → Thread
unfolding step_thread start_thread
run_thread [] th = th
run_thread (ev ∷ evs) th = run_thread evs (step_thread ev th)

-- The timer will not send anything: it does not sleep, or it is gone with the thread.
abbrev IsSilent : Thread → Type 0
IsSilent th = (th.timer ≢ sleeping) ⊎ (th.selected ≡ ended)

Silent-step : (ev : ThreadEvent) (th : Thread) → IsSilent th → IsSilent (step_thread ev th)
unfolding step_thread
Silent-step elapsed th n = ground arith
Silent-step event_loop_done th n = ground arith
Silent-step terminate_signal th n = ground arith
Silent-step grace_over th n = ground arith

sent-step : (ev : ThreadEvent) (th : Thread) → IsSilent th → (step_thread ev th).sent ≡ th.sent
unfolding step_thread
sent-step elapsed th n = ground arith
sent-step event_loop_done th n = ground arith
sent-step terminate_signal th n = ground arith
sent-step grace_over th n = ground arith

Silent-run :
    (evs : List ThreadEvent) (th : Thread) → IsSilent th → (run_thread evs th).sent ≡ th.sent
unfolding run_thread
Silent-run [] th n = refl
Silent-run (ev ∷ evs) th n =
    Silent-run evs (step_thread ev th) (Silent-step ev th n) ∙ sent-step ev th n

-- When the life time of a running worker is over, its thread asks the pool to shut down its own
-- key, and it asks for nothing else, whatever happens afterwards.
pub timer_elapsed_first :
    (evs : List ThreadEvent) (th : Thread) (k tx : ℕ)
    → th.timer ≡ sleeping
    → th.selected ≡ waiting
    → th.sent ≡ []
    → th.opts.key ≡ some k
    → th.opts.pool_msg_tx ≡ some tx
    → (run_thread (elapsed ∷ evs) th).sent ≡ shutdown k ∷ []
unfolding run_thread step_thread halt_message
timer_elapsed_first evs th k tx a b c d e =
    Silent-run evs (step_thread elapsed th) (ground arith) ∙ ground arith

-- A worker whose event loop ended, or that was told to terminate, while its `select!` was waiting
-- sends no message afterwards, even if its life time is over during the last second.
pub ended_thread_silent :
    (ev : ThreadEvent) (evs : List ThreadEvent) (th : Thread)
    → th.selected ≡ waiting
    → (ev ≡ event_loop_done) ⊎ (ev ≡ terminate_signal)
    → (run_thread (ev ∷ evs) th).sent ≡ th.sent
unfolding run_thread step_thread
ended_thread_silent ev evs th w (inl e) =
    rw e (Silent-run evs (step_thread event_loop_done th) (ground arith) ∙ ground arith)
ended_thread_silent ev evs th w (inr e) =
    rw e (Silent-run evs (step_thread terminate_signal th) (ground arith) ∙ ground arith)
