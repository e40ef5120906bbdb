-- ===== src/Ops/Channel.antt =====
-- The transfer of a request's body over its channel (crates/sb_workers/lib.rs): the writes of the
-- script, the loss of its end of the channel and the polls of the stream, in any order.
pub mod Delivery
pub mod Rounds
use server_based_deno.Base.{
  ℕ, zero, suc, ◌+◌, ◌≤◌, ◌<◌, ◌≡◌, refl, sym, ap, ◌∙◌, Bool, true, false, Option, none, some, List,
  [], ◌∷◌, ◌++◌, map, Text, Result, ok, err, arith, length, append_assoc, if◌then◌else◌,
}
use server_based_deno.Ops.Stream.{
  Bytes, MpscByteStream, new_stream, Poll, pending, ready, channel_closed, poll_next, write,
  shutdown_body,
}

abbrev pub Item : Type 0
Item = Option (Result Text Bytes)

-- What the script has still to write, whether its end marker is sent, the channel, and what the
-- polls of the stream returned so far.
pub record Transfer : Type 0 where
  pub to_write : List Bytes
  pub marked : Bool
  pub stream : MpscByteStream
  pub polled : List Item

abbrev pub start : List Bytes → Transfer
start chunks = record { to_write = chunks; marked = false; stream = new_stream; polled = [] }

pub data Event : Type 0 where
  writes shuts_down goes_away polls : Event

abbrev pub after_write : List Bytes → Option (ℕ × MpscByteStream) → Transfer → Transfer
after_write rest none t = t
after_write rest (some (n, s)) t = record t { to_write = rest; stream = s }

abbrev pub after_shutdown : Option MpscByteStream → Transfer → Transfer
after_shutdown none t = t
after_shutdown (some s) t = record t { marked = true; stream = s }

-- The script writes its chunks one after the other, and shuts the body down once after the last.
abbrev pub send_next : List Bytes → Transfer → Transfer
send_next [] t = t
send_next (c ∷ cs) t = if t.stream.connected then after_write cs (write c t.stream) t else t

abbrev pub send_marker : List Bytes → Bool → Transfer → Transfer
send_marker [] false t = if t.stream.connected then after_shutdown (shutdown_body t.stream) t else t
send_marker _ _ t = t

abbrev pub after_poll : Poll × MpscByteStream → Transfer → Transfer
after_poll (pending, s) t = record t { stream = s }
after_poll (ready item, s) t = record t { stream = s; polled = t.polled ++ item ∷ [] }

unfoldable pub step : Event → Transfer → Transfer
step writes t = send_next t.to_write t
step shuts_down t = send_marker t.to_write t.marked t
step goes_away t = record t { stream = record t.stream { connected = false } }
step polls t = after_poll (poll_next t.stream) t

unfoldable pub run : List Event → Transfer → Transfer
run [] t = t
run (e ∷ es) t = run es (step e t)

abbrev pub chunk : Bytes → Item
chunk c = some (ok c)

abbrev pub repeat : ℕ → Item → List Item
repeat zero x = []
repeat (suc n) x = x ∷ repeat n x
