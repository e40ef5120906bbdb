-- ===== src/Pool/Examples.antt =====
-- A pool that creates a worker, serves a request and shuts the worker down, and the theorems of the
-- pool at that run.
use server_based_deno.Base.{
  inr, ℕ, ◌≡◌, refl, true, false, none, some, [], ◌∷◌, arith, nat_keyed, get, insert, remove, codes,
}
use server_based_deno.Pool.{
  EdgeContextInitOpts, EdgeUserRuntimeOpts, default_user_opts, user_worker, create, send_request,
  shutdown, failed, no_main_function, not_available, created, response, finished, signalled,
  RequestTask, ShutdownTask, Pool, empty_pool, Env, running, panicked, state, handle, serve, answer,
  begin_shutdown,
}
use server_based_deno.Pool.Tasks.{
  accepted, answered, advance_request, advance_shutdown, is_finished, IsFresh, message, request,
  ending, Reach, here, next,
}
use server_based_deno.Pool.Drain.{signalled_worker_drained}
use server_based_deno.Pool.Registry.{
  send_request-shutdown, double_shutdown_panics, create_missing_path, handle_frame, subject,
}
use server_based_deno.Pool.Thread.{
  Thread, start_thread, run_thread, elapsed, terminate_signal, event_loop_done, timer_elapsed_first,
  ended_thread_silent,
}

runs : Unit {0}
unfolding handle serve get insert remove advance_request advance_shutdown default_user_opts
runs = tt

abbrev user_opts : EdgeUserRuntimeOpts
user_opts = record { life_time_ms = 5; key = none; pool_msg_tx = none }

abbrev hello : EdgeContextInitOpts
hello = record {
  service_path = codes "api/hello-world";
  no_module_cache = false;
  import_map_path = none;
  env_vars = [];
  conf = user_worker user_opts;
}

abbrev hello_thread : Thread
hello_thread = start_thread (record user_opts { key = some 7; pool_msg_tx = some 0 })

timer_elapsed_first_example :
    (run_thread (elapsed ∷ terminate_signal ∷ elapsed ∷ []) hello_thread).sent ≡ shutdown 7 ∷ []
unfolding run_thread
timer_elapsed_first_example =
    timer_elapsed_first (terminate_signal ∷ elapsed ∷ []) hello_thread 7 0 refl refl refl refl refl

ended_thread_silent_example :
    (run_thread (terminate_signal ∷ elapsed ∷ event_loop_done ∷ []) hello_thread).sent ≡ []
unfolding start_thread
ended_thread_silent_example =
    ended_thread_silent terminate_signal (elapsed ∷ event_loop_done ∷ []) hello_thread refl
      (inr refl)

-- Every path exists, every receiver is there.
abbrev env : ℕ → Env
env k = record { exists = λ p. true; alive = λ tx. true; new_key = k; pool_tx = 0 }

abbrev no_files : Env
no_files = record { exists = λ p. false; alive = λ tx. true; new_key = 7; pool_tx = 0 }

abbrev one_worker : Pool
one_worker = record empty_pool {
  user_workers = (7, record { thread = 0 }) ∷ [];
  threads =
      record hello { conf = user_worker (record user_opts { key = some 7; pool_msg_tx = some 0 }) }
      ∷ [];
  next_task = 1;
  replies = (3, created 7) ∷ [];
}

creates : handle (env 7) (create hello 3) empty_pool ≡ running one_worker
unfolding runs
creates = refl

abbrev busy : Pool
busy = record one_worker {
  requests = (1, record { key = 7; req = 100; tx = 4; phase = finished }) ∷ [];
  handles = (7, 1 ∷ []) ∷ [];
  next_task = 2;
  replies = (3, created 7) ∷ (4, response 55) ∷ [];
}

abbrev task : RequestTask
task = record { key = 7; req = 100; tx = 4; phase = finished }

abbrev ended : ShutdownTask
ended = record { key = 7; worker = record { thread = 0 }; waiting = 1 ∷ []; ending = signalled }

abbrev drained_pool : Pool
drained_pool = record busy {
  user_workers = [];
  handles = [];
  shutdowns = (2, ended) ∷ [];
  next_task = 3;
}

IsFresh-empty : IsFresh 7 empty_pool
unfolding runs
IsFresh-empty = record { no_worker = refl; no_request = λ i t e q. cc; no_shutdown = λ j d e q. cc }

IsFresh-one_worker : IsFresh 9 one_worker
unfolding runs
IsFresh-one_worker = record {
  no_worker = refl;
  no_request = λ i t e q. cc;
  no_shutdown = λ j d e q. cc;
}

IsFresh-busy : IsFresh 9 busy
unfolding runs
IsFresh-busy = record {
  no_worker = refl;
  no_request = λ i t e q. ground arith;
  no_shutdown = λ j d e q. cc;
}

Reach-busy : Reach empty_pool busy
unfolding runs
Reach-busy =
    next
      (next
        (next (next here (message (env 7) (create hello 3) IsFresh-empty refl))
          (message (env 9) (send_request 7 100 4) IsFresh-one_worker refl))
        (request (λ tx. true) 1 accepted _ refl))
      (request (λ tx. true) 1 (answered 55) _ refl)

Reach-drained_pool : Reach empty_pool drained_pool
unfolding runs
Reach-drained_pool =
    next (next Reach-busy (message (env 9) (shutdown 7) IsFresh-busy refl)) (ending true 2 _ refl)

signalled_worker_drained_example : is_finished (some task) ≡ true
unfolding runs
signalled_worker_drained_example =
    signalled_worker_drained 1 2 task ended Reach-drained_pool refl (λ e. cc) refl refl

abbrev after_shutdown : Pool
after_shutdown = state (handle (env 9) (shutdown 7) busy)

send_request-shutdown_example :
    handle (env 9) (send_request 7 101 5) after_shutdown
    ≡ answer (env 9) 5 (failed not_available) after_shutdown
unfolding runs
send_request-shutdown_example = send_request-shutdown (env 9) 7 101 5 busy after_shutdown refl

double_shutdown_panics_example :
    serve ((env 9, shutdown 7) ∷ (env 9, shutdown 7) ∷ (env 9, send_request 7 1 2) ∷ []) busy
    ≡ panicked (begin_shutdown 7 (record { thread = 0 }) busy)
unfolding runs
double_shutdown_panics_example =
    double_shutdown_panics (env 9) (env 9) 7 (record { thread = 0 }) busy
      ((env 9, send_request 7 1 2) ∷ []) refl

create_missing_path_example :
    handle no_files (create hello 3) empty_pool
    ≡ answer no_files 3 (failed (no_main_function hello.service_path)) empty_pool
create_missing_path_example = create_missing_path no_files hello user_opts 3 empty_pool refl refl

handle_frame_example :
    (get 7 (state (handle (env 9) (shutdown 8) busy)).user_workers ≡ get 7 busy.user_workers)
    × (get 7 (state (handle (env 9) (shutdown 8) busy)).handles ≡ get 7 busy.handles)
handle_frame_example =
    handle_frame (env 9) (shutdown 8) 7 busy (λ (e : subject (env 9) (shutdown 8) ≡ 7). omega arith)
