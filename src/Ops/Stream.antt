-- ===== src/Ops/Stream.antt =====
-- The body streams of crates/sb_workers/lib.rs: the byte stream behind a channel that carries a
-- request's body, and the reads of a response's body.
use mathlib.Core.Option
use server_based_deno.Base.{
  ℕ, zero, suc, ◌≤◌, ◌<◌, ◌≡◌, refl, Bool, true, false, Option, none, some, List, [], ◌∷◌, ◌++◌, ap,
  subst, codes, Text, Result, ok, err, arith, length, take, drop, if◌then◌else◌,
}

-- A chunk of bytes is the list of its bytes.
abbrev pub Bytes : Type 0
Bytes = List ℕ

-- The channel behind the stream, `mpsc::channel(1)`: the one message that it can hold, and whether a
-- sender is left.
pub record MpscByteStream : Type 0 where
  pub slot : Option (Option Bytes)
  pub connected : Bool
  pub shutdown : Bool

-- `MpscByteStream::new`
abbrev pub new_stream : MpscByteStream
new_stream = record { slot = none; connected = true; shutdown = false }

pub data Poll : Type 0 where
  pending : Poll
  ready : Option (Result Text Bytes) → Poll

abbrev pub channel_closed : Text
channel_closed = codes "channel closed"

abbrev pub poll_from : Option (Option Bytes) → MpscByteStream → Poll × MpscByteStream
poll_from none s =
    if s.connected
    then (pending, s)
    else if s.shutdown
    then (ready none, s)
    else (ready (some (err channel_closed)), s)
poll_from (some none) s = (ready none, record s { slot = none; shutdown = true })
poll_from (some (some val)) s = (ready (some (ok val)), record s { slot = none })

unfoldable pub poll_next : MpscByteStream → Poll × MpscByteStream
poll_next s = poll_from s.slot s

-- `Sender::send`, tried once: a message waits as long as the channel is full.
abbrev pub send_from : Option (Option Bytes) → Option Bytes → MpscByteStream → Option MpscByteStream
send_from none message s = some (record s { slot = some message })
send_from (some _) message s = none

-- `write` of the request body, with the number of bytes written.
unfoldable pub write : Bytes → MpscByteStream → Option (ℕ × MpscByteStream)
write bytes s = Option.map (λ s'. (length bytes, s')) (send_from s.slot (some bytes) s)

-- `shutdown` of the request body.
unfoldable pub shutdown_body : MpscByteStream → Option MpscByteStream
shutdown_body s = send_from s.slot none s

-- The response's body: a peekable stream of chunks that may fail.
abbrev pub BytesStream : Type 0
BytesStream = List (Result Text Bytes)

-- `read(limit)` skips empty chunks, and leaves in the stream what does not fit.
unfoldable pub read : ℕ → BytesStream → Result Text Bytes × BytesStream
read limit [] = (ok [], [])
read limit (err e ∷ rest) = (err e, rest)
read limit (ok [] ∷ rest) = read limit rest
read limit (ok (b ∷ bs) ∷ rest) = (ok (take limit (b ∷ bs)), ok (drop limit (b ∷ bs)) ∷ rest)

-- The bytes up to the first failure.
abbrev pub content : BytesStream → Bytes
content [] = []
content (err e ∷ rest) = []
content (ok bs ∷ rest) = bs ++ content rest

take-append-drop : (n : ℕ) (xs ys : Bytes) → take n xs ++ (drop n xs ++ ys) ≡ xs ++ ys
take-append-drop zero xs ys = refl
take-append-drop (suc n) [] ys = refl
take-append-drop (suc n) (x ∷ xs) ys = ap (λ (r : Bytes). x ∷ r) (take-append-drop n xs ys)

length-take-le : (n : ℕ) (xs : Bytes) → length (take n xs) ≤ n
length-take-le zero xs = omega arith
length-take-le (suc n) [] = omega arith
length-take-le (suc n) (x ∷ xs) = omega (arith, length-take-le n xs)

-- A read returns at most `limit` bytes, and they are the next bytes of the body: with what the
-- stream still holds they make up the content, so nothing is lost, repeated or reordered.
pub content-read :
    (limit : ℕ) (s s' : BytesStream) (bs : Bytes)
    → read limit s ≡ (ok bs, s')
    → (bs ++ content s' ≡ content s) × (length bs ≤ limit)
unfolding read
content-read limit [] s' bs h = ground arith
content-read limit (err e ∷ rest) s' bs h = ground arith
content-read limit (ok [] ∷ rest) s' bs h = content-read limit rest s' bs h
content-read limit (ok (b ∷ cs) ∷ rest) s' bs h =
    let len = length-take-le limit (b ∷ cs) in
    let same = take-append-drop limit (b ∷ cs) (content rest) in
    let bs_eq : take limit (b ∷ cs) ≡ bs = ground arith in
    (ground arith, subst (λ x. length x ≤ limit) bs_eq len)

-- With room for a byte, a read that returns nothing has reached the end of the body.
pub read-empty_at_end :
    (limit : ℕ) (s s' : BytesStream)
    → 0 < limit
    → read limit s ≡ (ok [], s')
    → (content s ≡ []) × (s' ≡ [])
unfolding read
read-empty_at_end limit [] s' p h = ground arith
read-empty_at_end limit (err e ∷ rest) s' p h = ground arith
read-empty_at_end limit (ok [] ∷ rest) s' p h = read-empty_at_end limit rest s' p h
read-empty_at_end zero (ok (b ∷ cs) ∷ rest) s' p h = absurd (omega arith)
read-empty_at_end (suc n) (ok (b ∷ cs) ∷ rest) s' p h = ground arith
