-- ===== src/Pool.antt =====
-- The user worker pool: crates/base/src/worker_ctx.rs and
-- crates/sb_worker_context/essentials.rs. Requests, responses and channels are opaque and named
-- by numbers; what the runtime decides (a fresh UUID, the file system, whether a receiver is still
-- there) comes in as `Env`.
pub mod Tasks
pub mod Thread
pub mod Registry
pub mod Invariant
pub mod Drain
mod Examples
use server_based_deno.Base.{
  ℕ, ◌+◌, ◌*◌, Bool, true, false, Option, none, some, List, [], ◌∷◌, ◌++◌, Text, Map, get, insert,
  remove, Result, ok, err, not, nat_keyed, if◌then◌else◌,
}

-- essentials.rs

pub record EdgeUserRuntimeOpts : Type 0 where
  pub life_time_ms : ℕ
  pub key : Option ℕ
  pub pool_msg_tx : Option ℕ

pub record EdgeMainRuntimeOpts : Type 0 where
  pub worker_pool_tx : ℕ

pub data EdgeContextOpts : Type 0 where
  user_worker : EdgeUserRuntimeOpts → EdgeContextOpts
  main_worker : EdgeMainRuntimeOpts → EdgeContextOpts

pub record EdgeContextInitOpts : Type 0 where
  pub service_path : Text
  pub no_module_cache : Bool
  pub import_map_path : Option Text
  pub env_vars : Map Text Text
  pub conf : EdgeContextOpts

unfoldable pub default_user_opts : EdgeUserRuntimeOpts
default_user_opts = record {
  life_time_ms = 365 * 24 * 60 * 60 * 1000;
  key = none;
  pool_msg_tx = none;
}

-- The reply channel of a message is named by a number.
pub data UserWorkerMsgs : Type 0 where
  create : EdgeContextInitOpts → ℕ → UserWorkerMsgs
  send_request : ℕ → ℕ → ℕ → UserWorkerMsgs
  shutdown : ℕ → UserWorkerMsgs

pub data WorkerError : Type 0 where
  no_main_function : Text → WorkerError
  not_available : WorkerError

pub data Reply : Type 0 where
  created : ℕ → Reply
  response : ℕ → Reply
  failed : WorkerError → Reply

-- worker_ctx.rs

-- The two channel ends that the pool keeps of a worker, named by the thread that they lead to.
pub record WorkerHandle : Type 0 where
  pub thread : ℕ

pub data Phase : Type 0 where
  spawned sent finished : Phase

-- A spawned request task: it sends to the worker, waits for the response, and answers the caller.
pub record RequestTask : Type 0 where
  pub key : ℕ
  pub req : ℕ
  pub tx : ℕ
  pub phase : Phase

pub data Ending : Type 0 where
  joining signalled refused dropped : Ending

-- A spawned shutdown task: `waiting` is what `join_all` waits for.
pub record ShutdownTask : Type 0 where
  pub key : ℕ
  pub worker : WorkerHandle
  pub waiting : List ℕ
  pub ending : Ending

-- The loop's two maps, with the tasks that it spawned (by join handle), the worker threads that
-- were started and the replies that were sent.
pub record Pool : Type 0 where
  pub user_workers : Map ℕ WorkerHandle
  pub handles : Map ℕ (List ℕ)
  pub threads : List EdgeContextInitOpts
  pub requests : Map ℕ RequestTask
  pub shutdowns : Map ℕ ShutdownTask
  pub next_task : ℕ
  pub replies : List (ℕ × Reply)

abbrev pub empty_pool : Pool
empty_pool = record {
  user_workers = [];
  handles = [];
  threads = [];
  requests = [];
  shutdowns = [];
  next_task = 0;
  replies = [];
}

pub record Env : Type 0 where
  pub exists : Text → Bool
  pub alive : ℕ → Bool
  pub new_key : ℕ
  pub pool_tx : ℕ

-- The loop goes on, ends by `bail!`, or panics.
pub data Flow : Type 0 where
  running stopped panicked : Pool → Flow

abbrev pub state : Flow → Pool
state (running s) = s
state (stopped s) = s
state (panicked s) = s

-- `create_worker`: the check of the service path, then a thread and the channel ends to it.
unfoldable pub create_worker :
    (Text → Bool) → EdgeContextInitOpts → Pool → Result WorkerError (WorkerHandle × Pool)
create_worker exists conf s =
    if not (exists conf.service_path)
    then err (no_main_function conf.service_path)
    else ok (
      record { thread = s.next_task },
      record s { threads = s.threads ++ conf ∷ []; next_task = s.next_task + 1 },
    )

-- `if tx.send(r).is_err() { bail!(…) }`
unfoldable pub answer : Env → ℕ → Reply → Pool → Flow
answer env tx r s =
    if env.alive tx then running (record s { replies = s.replies ++ (tx, r) ∷ [] }) else stopped s

abbrev pub with_key : Env → EdgeUserRuntimeOpts → EdgeContextInitOpts → EdgeContextInitOpts
with_key env opts worker_options = record worker_options {
  conf = user_worker (record opts { key = some env.new_key; pool_msg_tx = some env.pool_tx });
}

unfoldable pub register : Env → ℕ → Result WorkerError (WorkerHandle × Pool) → Pool → Flow
unfolding answer
register env tx (ok (worker, s')) s =
    answer env tx (created env.new_key)
      (record s' { user_workers = insert env.new_key worker s'.user_workers })
register env tx (err e) s = answer env tx (failed e) s

abbrev pub on_create : Env → EdgeContextInitOpts → EdgeContextOpts → ℕ → Pool → Flow
on_create env worker_options (user_worker opts) tx s =
    register env tx (create_worker env.exists (with_key env opts worker_options) s) s
on_create env worker_options (main_worker _) tx s = panicked s

unfoldable pub handle_create : Env → EdgeContextInitOpts → ℕ → Pool → Flow
unfolding register create_worker
handle_create env worker_options tx s = on_create env worker_options worker_options.conf tx s

-- `handles.get_mut(&key)`, or a new entry.
unfoldable pub push_handle : ℕ → ℕ → Map ℕ (List ℕ) → Map ℕ (List ℕ)
push_handle key handle m = elim (get key m) [
  | some worker_handles ↦ insert key (worker_handles ++ handle ∷ []) m
  | none ↦ insert key (handle ∷ []) m
]

unfoldable pub spawn_request : ℕ → ℕ → ℕ → Pool → Pool
unfolding push_handle
spawn_request key req tx s = record s {
  requests =
      insert s.next_task (record { key = key; req = req; tx = tx; phase = spawned }) s.requests;
  handles = push_handle key s.next_task s.handles;
  next_task = s.next_task + 1;
}

unfoldable pub handle_send_request : Env → ℕ → ℕ → ℕ → Pool → Flow
unfolding spawn_request answer
handle_send_request env key req tx s = elim (get key s.user_workers) [
  | some worker ↦ running (spawn_request key req tx s)
  | none ↦ answer env tx (failed not_available) s
]

abbrev pub or_empty : Option (List ℕ) → List ℕ
or_empty none = []
or_empty (some l) = l

unfoldable pub begin_shutdown : ℕ → WorkerHandle → Pool → Pool
begin_shutdown key worker s = record s {
  user_workers = remove key s.user_workers;
  handles = remove key s.handles;
  shutdowns =
      insert s.next_task
        (record {
          key = key;
          worker = worker;
          waiting = or_empty (get key s.handles);
          ending = joining;
        })
        s.shutdowns;
  next_task = s.next_task + 1;
}

-- `user_workers.remove(&key).unwrap()` panics on a key that is not there.
unfoldable pub handle_shutdown : ℕ → Pool → Flow
unfolding begin_shutdown
handle_shutdown key s = elim (get key s.user_workers) [
  | some worker ↦ running (begin_shutdown key worker s)
  | none ↦ panicked s
]

unfoldable pub handle : Env → UserWorkerMsgs → Pool → Flow
unfolding handle_create handle_send_request handle_shutdown
handle env (create opts tx) s = handle_create env opts tx s
handle env (send_request key req tx) s = handle_send_request env key req tx s
handle env (shutdown key) s = handle_shutdown key s

-- The loop over the messages that arrive, each with what the runtime decides for it.
unfoldable pub serve : List (Env × UserWorkerMsgs) → Pool → Flow
serve [] s = stopped s
serve ((env, msg) ∷ rest) s = elim (handle env msg s) [
  | running s' ↦ serve rest s'
  | stopped s' ↦ stopped s'
  | panicked s' ↦ panicked s'
]
