-- ===== src/Ops/Worker.antt =====
-- `op_user_worker_create`, `op_user_worker_fetch_send` and `op_user_worker_shutdown` of
-- crates/sb_workers/lib.rs. What the pool answers is an argument; UUIDs are numbers, and their
-- text form is the parameter `Uuids`.
use server_based_deno.Base.{
  ℕ, ◌+◌, ◌≡◌, refl, Bool, Option, none, some, List, [], ◌∷◌, ◌++◌, Text, codes, Map, get, insert,
  remove, Result, ok, err, arith, text_keyed, nat_keyed, ◌==◌, get-insert, get-remove,
  if◌then◌else◌,
}
use server_based_deno.Base.Effects.{Io, ◌>>=◌, ◌>>◌}
use server_based_deno.Pool.{
  EdgeContextInitOpts, user_worker, UserWorkerMsgs, create, send_request, shutdown,
}

pub record UserWorkerCreateOptions : Type 0 where
  pub service_path : Text
  pub life_time_ms : ℕ
  pub no_module_cache : Bool
  pub import_map_path : Option Text
  pub env_vars : List (Text × Text)

-- Text of UUIDs, of the crate `uuid`.
pub record Uuids : Type 0 where
  pub to_string : ℕ → Text
  pub parse_str : Text → Option ℕ

pub data OpError : Type 0 where
  invalid_worker_creation : Text → OpError
  invalid_worker_response : OpError
  pool_closed reply_dropped bad_resource bad_uuid : OpError

-- The loop over `env_vars`: a later pair overwrites an earlier one.
unfoldable pub collect_env : List (Text × Text) → Map Text Text → Map Text Text
collect_env [] m = m
collect_env ((key, value) ∷ rest) m = collect_env rest (insert key value m)

unfoldable pub create_options : UserWorkerCreateOptions → EdgeContextInitOpts
unfolding collect_env
create_options opts = record {
  service_path = opts.service_path;
  no_module_cache = opts.no_module_cache;
  import_map_path = opts.import_map_path;
  env_vars = collect_env opts.env_vars [];
  conf = user_worker (record { life_time_ms = opts.life_time_ms; key = none; pool_msg_tx = none });
}

-- `result_rx.await`: the pool's result, or `none` if the pool dropped the sender.
unfoldable pub create_result : Uuids → Option (Result Text ℕ) → Result OpError Text
create_result uuids none = err (invalid_worker_creation (codes "failed to create worker"))
create_result uuids (some (err e)) = err (invalid_worker_creation e)
create_result uuids (some (ok key)) = ok (uuids.to_string key)

-- The messages that were sent to the pool, and the table of request resources.
pub record OpState : Type 0 where
  pub pool_open : Bool
  pub messages : List UserWorkerMsgs
  pub requests : Map ℕ ℕ
  pub next_tx : ℕ

-- `tx.send(msg)?`
unfoldable pub send : UserWorkerMsgs → Io OpState OpError (Unit {0})
send msg s =
    if s.pool_open
    then (ok tt, record s { messages = s.messages ++ msg ∷ [] })
    else (err pool_closed, s)

-- A new oneshot channel, named by its number.
abbrev channel : Io OpState OpError ℕ
channel s = (ok s.next_tx, record s { next_tx = s.next_tx + 1 })

unfoldable pub op_user_worker_create :
    Uuids → UserWorkerCreateOptions → Option (Result Text ℕ) → Io OpState OpError Text
unfolding send create_options create_result
op_user_worker_create uuids opts result = do
  result_tx ← channel
  send (create (create_options opts) result_tx)
  λ s. (create_result uuids result, s)

-- `resource_table.take(rid)?`
unfoldable pub take_request : ℕ → Io OpState OpError ℕ
take_request rid s = elim (get rid s.requests) [
  | none ↦ (err bad_resource, s)
  | some req ↦ (ok req, record s { requests = remove rid s.requests })
]

abbrev parsed : Option ℕ → Io OpState OpError ℕ
parsed none s = (err bad_uuid, s)
parsed (some uuid) s = (ok uuid, s)

-- The answer of the worker: an error becomes "user worker not available".
unfoldable pub send_result : Option (Result Text ℕ) → Result OpError ℕ
send_result none = err reply_dropped
send_result (some (err e)) = err invalid_worker_response
send_result (some (ok res)) = ok res

unfoldable pub op_user_worker_fetch_send :
    Uuids → Text → ℕ → Option (Result Text ℕ) → Io OpState OpError ℕ
unfolding send take_request send_result
op_user_worker_fetch_send uuids key rid result = do
  request ← take_request rid
  result_tx ← channel
  uuid ← parsed (uuids.parse_str key)
  send (send_request uuid request result_tx)
  λ s. (send_result result, s)

unfoldable pub op_user_worker_shutdown : Uuids → Text → Io OpState OpError (Unit {0})
unfolding send
op_user_worker_shutdown uuids key = do uuid ← parsed (uuids.parse_str key); send (shutdown uuid)

-- The last value of a key in the list of environment variables.
abbrev pub last_value : Text → List (Text × Text) → Option Text → Option Text
last_value k [] found = found
last_value k ((j, v) ∷ rest) found = last_value k rest (if j == k then some v else found)

get-collect_env_from :
    (k : Text) (vars : List (Text × Text)) (m : Map Text Text)
    → get k (collect_env vars m) ≡ last_value k vars (get k m)
unfolding collect_env
get-collect_env_from k [] m = refl
get-collect_env_from k ((j, v) ∷ rest) m =
    rw (get-collect_env_from k rest (insert j v m)) (rw (get-insert j k v m))

-- The worker sees, for each variable, the last value that the caller listed, and no variable that
-- the caller did not list.
pub get-create_options :
    (k : Text) (opts : UserWorkerCreateOptions)
    → get k (create_options opts).env_vars ≡ last_value k opts.env_vars none
unfolding create_options get
get-create_options k opts = get-collect_env_from k opts.env_vars []

sent-without_request :
    (uuids : Uuids) (key : Text) (rid : ℕ) (result : Option (Result Text ℕ)) (s : OpState)
    → get rid (op_user_worker_fetch_send uuids key rid result s).1.requests ≡ none
unfolding op_user_worker_fetch_send
sent-without_request uuids key rid result s = ground (arith, get-remove rid rid s.requests)

-- A request is taken out of the table by its first send, whatever becomes of it: a second send of
-- the same resource is refused as a bad resource and sends no message.
pub fetch_send_once :
    (uuids : Uuids) (key key' : Text) (rid : ℕ) (result result' : Option (Result Text ℕ))
    (s : OpState)
    → op_user_worker_fetch_send uuids key' rid result'
        (op_user_worker_fetch_send uuids key rid result s).1
      ≡ (err bad_resource, (op_user_worker_fetch_send uuids key rid result s).1)
fetch_send_once uuids key key' rid result result' s =
    let gone = sent-without_request uuids key rid result s in
    unfold op_user_worker_fetch_send in rw (gone, take_request)
