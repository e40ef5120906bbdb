-- ===== src/Ops/Examples.antt =====
-- The theorems of the ops at concrete requests, streams and workers.
use server_based_deno.Base.{
  ℕ, suc, map, ◌≤◌, ◌≡◌, refl, true, false, none, some, List, [], ◌∷◌, ◌++◌, Text, codes, Result,
  ok, err, arith, text_keyed, nat_keyed, get, text_beq, length,
}
use server_based_deno.Ops.Stream.{
  Bytes, channel_closed, read, content, content-read, read-empty_at_end, write, shutdown_body,
  poll_next,
}
use server_based_deno.Ops.Channel.{Event, writes, goes_away, polls, start, step, run, chunk, repeat}
use server_based_deno.Ops.Channel.Delivery.{IsDelivery, run-IsDelivery}
use server_based_deno.Ops.Channel.Rounds.{rounds, rounds_complete}
use server_based_deno.Ops.Worker.{
  UserWorkerCreateOptions, Uuids, OpState, bad_resource, create_options, op_user_worker_fetch_send,
  get-create_options, fetch_send_once,
}

-- UUIDs printed as a run of `1`s.
abbrev ones : ℕ → Text
ones Prim.Native.Nat.zero = []
ones (Prim.Native.Nat.suc n) = b'1' ∷ ones n

abbrev tally : Uuids
tally = record { to_string = ones; parse_str = λ t. some (length t) }

abbrev options : UserWorkerCreateOptions
options = record {
  service_path = codes "api/fetch";
  life_time_ms = 1000;
  no_module_cache = false;
  import_map_path = none;
  env_vars = (codes "A", codes "1") ∷ (codes "B", codes "2") ∷ (codes "A", codes "3") ∷ [];
}

get-create_options_example : get (codes "A") (create_options options).env_vars ≡ some (codes "3")
unfolding text_beq
get-create_options_example = get-create_options (codes "A") options

abbrev first_state : OpState
first_state = record { pool_open = true; messages = []; requests = (4, 77) ∷ []; next_tx = 0 }

abbrev after_send : OpState
after_send = (op_user_worker_fetch_send tally (codes "11") 4 (some (ok 9)) first_state).1

fetch_send_once_example :
    op_user_worker_fetch_send tally (codes "111") 4 none after_send ≡ (err bad_resource, after_send)
fetch_send_once_example =
    fetch_send_once tally (codes "11") (codes "111") 4 (some (ok 9)) none first_state

abbrev two_chunks : List Bytes
two_chunks = (1 ∷ 2 ∷ []) ∷ (3 ∷ []) ∷ []

-- The second write waits for the first poll, and the sender goes before the end marker.
abbrev cut_short : List Event
cut_short = writes ∷ writes ∷ polls ∷ writes ∷ goes_away ∷ polls ∷ polls ∷ polls ∷ []

run-IsDelivery_example : IsDelivery two_chunks (run cut_short (start two_chunks))
run-IsDelivery_example = run-IsDelivery two_chunks cut_short

cut_short_polled :
    (run cut_short (start two_chunks)).polled
    ≡ map chunk two_chunks ++ repeat 2 (some (err channel_closed))
unfolding run step write shutdown_body poll_next
cut_short_polled = refl

rounds_complete_example :
    (k : ℕ) × ((run (rounds 3) (run (writes ∷ polls ∷ writes ∷ []) (start two_chunks))).polled
      ≡ map chunk two_chunks ++ repeat (suc k) none)
unfolding run step write poll_next
rounds_complete_example =
    rounds_complete two_chunks (writes ∷ polls ∷ writes ∷ []) 3 refl (omega arith)

content-read_example :
    (◌≡◌ {A = Bytes}
      ((1 ∷ 2 ∷ []) ++ content (ok (3 ∷ []) ∷ []))
      (content (ok [] ∷ ok (1 ∷ 2 ∷ 3 ∷ []) ∷ [])))
    × (length {A = ℕ} (1 ∷ 2 ∷ []) ≤ 2)
unfolding read
content-read_example =
    content-read 2 (ok [] ∷ ok (1 ∷ 2 ∷ 3 ∷ []) ∷ []) (ok (3 ∷ []) ∷ []) (1 ∷ 2 ∷ []) refl

read-empty_at_end_example : (content (ok [] ∷ []) ≡ []) × (◌≡◌ {A = List (Result Text Bytes)} [] [])
unfolding read
read-empty_at_end_example = read-empty_at_end 5 (ok [] ∷ []) [] (omega arith) refl
