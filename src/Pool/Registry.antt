-- ===== src/Pool/Registry.antt =====
-- What the pool's messages do to the table of workers (crates/base/src/worker_ctx.rs).
use server_based_deno.Base.{
  ℕ, ◌≡◌, refl, ◌≢◌, true, false, some, List, [], ◌∷◌, ◌++◌, arith, nat_keyed, get, get-insert,
  get-insert_self, get-remove, subst,
}
use server_based_deno.Pool.{
  EdgeContextInitOpts, EdgeUserRuntimeOpts, EdgeContextOpts, user_worker, main_worker,
  UserWorkerMsgs, create, send_request, shutdown, failed, no_main_function, not_available, created,
  WorkerHandle, Pool, Env, running, panicked, state, handle, handle_create, handle_send_request,
  begin_shutdown, serve, with_key, on_create, answer, spawn_request, create_worker, register,
}
use server_based_deno.Pool.Invariant.Spawned.{get-push_handle}

-- After a worker's shutdown is accepted, a request for it is answered by the error "User worker
-- not available" and starts nothing; if the caller is gone, the pool's loop ends.
pub send_request-shutdown :
    (env : Env) (key req tx : ℕ) (s s' : Pool)
    → handle env (shutdown key) s ≡ running s'
    → handle env (send_request key req tx) s' ≡ answer env tx (failed not_available) s'
unfolding handle
send_request-shutdown env key req tx s s' h = ground (arith, get-remove key key s.user_workers)

-- A second shutdown of the same worker makes the pool's loop panic, whatever comes after it, so
-- that no later message is handled.
pub double_shutdown_panics :
    (env env' : Env) (key : ℕ) (w : WorkerHandle) (s : Pool) (rest : List (Env × UserWorkerMsgs))
    → get key s.user_workers ≡ some w
    → serve ((env, shutdown key) ∷ (env', shutdown key) ∷ rest) s
      ≡ panicked (begin_shutdown key w s)
unfolding serve handle
double_shutdown_panics env env' key w s rest h = ground (arith, get-remove key key s.user_workers)

on_create-running :
    (env env' : Env) (opts : EdgeContextInitOpts) (u : EdgeUserRuntimeOpts) (tx req tx' : ℕ)
    (s s' : Pool)
    → env.exists opts.service_path ≡ true
    → on_create env opts (user_worker u) tx s ≡ running s'
    → (s'.threads ≡ s.threads ++ with_key env u opts ∷ [])
      × (s'.replies ≡ s.replies ++ (tx, created env.new_key) ∷ [])
      × (handle_send_request env' env.new_key req tx' s'
          ≡ running (spawn_request env.new_key req tx' s'))
unfolding register create_worker answer handle_send_request
on_create-running env env' opts u tx req tx' s s' x h = (
  ground arith,
  ground arith,
  ground (arith, get-insert_self env.new_key (record { thread = s.next_task }) s.user_workers),
)

-- Creating a user worker whose service path exists starts one thread, whose options carry the
-- fresh key and the pool's channel; the key is then found in the table, and a request sent to it
-- is handed to that worker.
pub send_request-create :
    (env env' : Env) (opts : EdgeContextInitOpts) (u : EdgeUserRuntimeOpts) (tx req tx' : ℕ)
    (s s' : Pool)
    → opts.conf ≡ user_worker u
    → env.exists opts.service_path ≡ true
    → handle env (create opts tx) s ≡ running s'
    → (s'.threads ≡ s.threads ++ with_key env u opts ∷ [])
      × (s'.replies ≡ s.replies ++ (tx, created env.new_key) ∷ [])
      × (handle env' (send_request env.new_key req tx') s'
          ≡ running (spawn_request env.new_key req tx' s'))
unfolding handle
send_request-create env env' opts u tx req tx' s s' c x h =
    let h' = subst (λ o. on_create env opts o tx s ≡ running s') c (unfold handle_create in h) in
    on_create-running env env' opts u tx req tx' s s' x h'

-- A service path that does not exist: no worker, no thread; the caller gets the error.
pub create_missing_path :
    (env : Env) (opts : EdgeContextInitOpts) (u : EdgeUserRuntimeOpts) (tx : ℕ) (s : Pool)
    → opts.conf ≡ user_worker u
    → env.exists opts.service_path ≡ false
    → handle env (create opts tx) s ≡ answer env tx (failed (no_main_function opts.service_path)) s
unfolding handle
create_missing_path env opts u tx s c x = unfold handle_create in rw c (ground arith)

-- The worker that a message is about.
abbrev pub subject : Env → UserWorkerMsgs → ℕ
subject env (create opts tx) = env.new_key
subject env (send_request key req tx) = key
subject env (shutdown key) = key

on_create_frame :
    (env : Env) (opts : EdgeContextInitOpts) (c : EdgeContextOpts) (tx k : ℕ) (s : Pool)
    → env.new_key ≢ k
    → (get k (state (on_create env opts c tx s)).user_workers ≡ get k s.user_workers)
      × (get k (state (on_create env opts c tx s)).handles ≡ get k s.handles)
unfolding register create_worker answer
on_create_frame env opts (main_worker _) tx k s n = (refl, refl)
on_create_frame env opts (user_worker u) tx k s n =
    ground (arith, get-insert env.new_key k (record { thread = s.next_task }) s.user_workers)

-- A message changes the table's entry and the handles of no other worker, whether the loop goes
-- on, ends or panics.
pub handle_frame :
    (env : Env) (msg : UserWorkerMsgs) (k : ℕ) (s : Pool)
    → subject env msg ≢ k
    → (get k (state (handle env msg s)).user_workers ≡ get k s.user_workers)
      × (get k (state (handle env msg s)).handles ≡ get k s.handles)
unfolding handle spawn_request begin_shutdown answer
handle_frame env (create opts tx) k s n =
    unfold handle_create in on_create_frame env opts opts.conf tx k s n
handle_frame env (send_request key req tx) k s n =
    ground (arith, get-push_handle key s.next_task k s.handles)
handle_frame env (shutdown key) k s n =
    ground (arith, get-remove key k s.user_workers, get-remove key k s.handles)
