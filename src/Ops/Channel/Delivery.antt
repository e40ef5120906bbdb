-- ===== src/Ops/Channel/Delivery.antt =====
-- What the polls of a body's stream return (crates/sb_workers/lib.rs).
use server_based_deno.Base.{
  ℕ, zero, suc, ◌≡◌, refl, sym, ap, ◌∙◌, Bool, true, false, Option, none, some, List, [], ◌∷◌, ◌++◌,
  map, err, append_assoc,
}
use server_based_deno.Ops.Stream.{Bytes, channel_closed, poll_next, write, shutdown_body}
use server_based_deno.Ops.Channel.{
  Item, Transfer, start, Event, writes, shuts_down, goes_away, polls, step, run, chunk, repeat,
}

-- What the polls of a stream may have returned: a part of the body; the whole body and its end; or
-- a part of it and the error, as the sender was gone.
pub data IsDelivery (chunks : List Bytes) (t : Transfer) : Type 0 where
  so_far :
      (got rest : List Bytes)
      → got ++ rest ≡ chunks
      → t.polled ≡ map chunk got
      → IsDelivery chunks t
  whole :
      (n : ℕ)
      → t.marked ≡ true
      → t.polled ≡ map chunk chunks ++ repeat (suc n) none
      → IsDelivery chunks t
  broken :
      (got rest : List Bytes) (n : ℕ)
      → got ++ rest ≡ chunks
      → t.stream.connected ≡ false
      → t.marked ≡ false
      → t.polled ≡ map chunk got ++ repeat (suc n) (some (err channel_closed))
      → IsDelivery chunks t

abbrev pub transfer : List Bytes → Bool → Option (Option Bytes) → Bool → Bool → List Item → Transfer
transfer to_write marked slot connected shutdown polled = record {
  to_write = to_write;
  marked = marked;
  stream = record { slot = slot; connected = connected; shutdown = shutdown };
  polled = polled;
}

-- The phases of a transfer.
pub data Phase (chunks : List Bytes) : Transfer → Type 0 where
  idle :
      (got rest : List Bytes) (b : Bool) (polled : List Item)
      → got ++ rest ≡ chunks
      → polled ≡ map chunk got
      → Phase chunks (transfer rest false none b false polled)
  full :
      (got rest : List Bytes) (c : Bytes) (b : Bool) (polled : List Item)
      → got ++ c ∷ rest ≡ chunks
      → polled ≡ map chunk got
      → Phase chunks (transfer rest false (some (some c)) b false polled)
  closing :
      (b : Bool) (polled : List Item)
      → polled ≡ map chunk chunks
      → Phase chunks (transfer [] true (some none) b false polled)
  closed :
      (b : Bool) (n : ℕ) (polled : List Item)
      → polled ≡ map chunk chunks ++ repeat (suc n) none
      → Phase chunks (transfer [] true none b true polled)
  lost :
      (got rest : List Bytes) (n : ℕ) (polled : List Item)
      → got ++ rest ≡ chunks
      → polled ≡ map chunk got ++ repeat (suc n) (some (err channel_closed))
      → Phase chunks (transfer rest false none false false polled)

repeat_snoc : (n : ℕ) (x : Item) → repeat n x ++ x ∷ [] ≡ repeat (suc n) x
repeat_snoc zero x = refl
repeat_snoc (suc n) x = ap (λ (l : List Item). x ∷ l) (repeat_snoc n x)

pub chunks_snoc :
    (got : List Bytes) (c : Bytes) → map chunk got ++ chunk c ∷ [] ≡ map chunk (got ++ c ∷ [])
chunks_snoc [] c = refl
chunks_snoc (d ∷ got) c = ap (λ (l : List Item). chunk d ∷ l) (chunks_snoc got c)

pub append_nil : (l : List Bytes) → l ++ [] ≡ l
append_nil [] = refl
append_nil (x ∷ l) = ap (λ (r : List Bytes). x ∷ r) (append_nil l)

-- One more of the same item.
once_more :
    (l polled : List Item) (n : ℕ) (x : Item)
    → polled ≡ l ++ repeat (suc n) x
    → polled ++ x ∷ [] ≡ l ++ repeat (suc (suc n)) x
once_more l polled n x e =
    ap (λ (p : List Item). p ++ x ∷ []) e
    ∙ append_assoc l (repeat (suc n) x) (x ∷ [])
    ∙ ap (λ (r : List Item). l ++ r) (repeat_snoc (suc n) x)

step-Phase :
    {chunks : List Bytes} (e : Event) (t : Transfer) → Phase chunks t → Phase chunks (step e t)
unfolding step write shutdown_body poll_next
step-Phase goes_away t (idle got rest b polled all seen) = idle got rest false polled all seen
step-Phase goes_away t (full got rest c b polled all seen) = full got rest c false polled all seen
step-Phase goes_away t (closing b polled seen) = closing false polled seen
step-Phase goes_away t (closed b n polled seen) = closed false n polled seen
step-Phase goes_away t (lost got rest n polled all seen) = lost got rest n polled all seen
step-Phase writes t (idle got [] b polled all seen) = idle got [] b polled all seen
step-Phase writes t (idle got (c ∷ rest) true polled all seen) =
    full got rest c true polled all seen
step-Phase writes t (idle got (c ∷ rest) false polled all seen) =
    idle got (c ∷ rest) false polled all seen
step-Phase writes t (full got [] c b polled all seen) = full got [] c b polled all seen
step-Phase writes t (full got (d ∷ rest) c true polled all seen) =
    full got (d ∷ rest) c true polled all seen
step-Phase writes t (full got (d ∷ rest) c false polled all seen) =
    full got (d ∷ rest) c false polled all seen
step-Phase writes t (closing b polled seen) = closing b polled seen
step-Phase writes t (closed b n polled seen) = closed b n polled seen
step-Phase writes t (lost got [] n polled all seen) = lost got [] n polled all seen
step-Phase writes t (lost got (c ∷ rest) n polled all seen) = lost got (c ∷ rest) n polled all seen
step-Phase shuts_down t (idle got [] true polled all seen) =
    closing true polled (seen ∙ ap (map chunk) (sym (append_nil got) ∙ all))
step-Phase shuts_down t (idle got [] false polled all seen) = idle got [] false polled all seen
step-Phase shuts_down t (idle got (c ∷ rest) b polled all seen) =
    idle got (c ∷ rest) b polled all seen
step-Phase shuts_down t (full got [] c true polled all seen) = full got [] c true polled all seen
step-Phase shuts_down t (full got [] c false polled all seen) = full got [] c false polled all seen
step-Phase shuts_down t (full got (d ∷ rest) c b polled all seen) =
    full got (d ∷ rest) c b polled all seen
step-Phase shuts_down t (closing b polled seen) = closing b polled seen
step-Phase shuts_down t (closed b n polled seen) = closed b n polled seen
step-Phase shuts_down t (lost got [] n polled all seen) = lost got [] n polled all seen
step-Phase shuts_down t (lost got (c ∷ rest) n polled all seen) =
    lost got (c ∷ rest) n polled all seen
step-Phase polls t (idle got rest true polled all seen) = idle got rest true polled all seen
step-Phase polls t (idle got rest false polled all seen) =
    lost got rest 0 _ all (ap (λ (l : List Item). l ++ some (err channel_closed) ∷ []) seen)
step-Phase polls t (full got rest c b polled all seen) =
    idle (got ++ c ∷ []) rest b _ (append_assoc got (c ∷ []) rest ∙ all)
      (ap (λ (l : List Item). l ++ chunk c ∷ []) seen ∙ chunks_snoc got c)
step-Phase polls t (closing b polled seen) =
    closed b 0 _ (ap (λ (l : List Item). l ++ none ∷ []) seen)
step-Phase polls t (closed true n polled seen) = closed true n polled seen
step-Phase {chunks} polls t (closed false n polled seen) =
    closed false (suc n) _ (once_more (map chunk chunks) polled n none seen)
step-Phase polls t (lost got rest n polled all seen) =
    lost got rest (suc n) _ all (once_more (map chunk got) polled n _ seen)

pub run-Phase :
    {chunks : List Bytes} (es : List Event) (t : Transfer)
    → Phase chunks t
    → Phase chunks (run es t)
unfolding run
run-Phase [] t h = h
run-Phase (e ∷ es) t h = run-Phase es (step e t) (step-Phase e t h)

Phase-IsDelivery : {chunks : List Bytes} (t : Transfer) → Phase chunks t → IsDelivery chunks t
Phase-IsDelivery t (idle got rest b polled all seen) = so_far got rest all seen
Phase-IsDelivery t (full got rest c b polled all seen) = so_far got (c ∷ rest) all seen
Phase-IsDelivery {chunks} t (closing b polled seen) = so_far chunks [] (append_nil chunks) seen
Phase-IsDelivery t (closed b n polled seen) = IsDelivery.whole n refl seen
Phase-IsDelivery t (lost got rest n polled all seen) = broken got rest n all refl refl seen

-- However the writes of a body, the loss of its sender and the polls of its stream interleave, the
-- polls return the chunks in order, each once: a part of them so far; if the end marker was sent,
-- all of them and then, each time, the end; or, if the sender is gone and sent no end marker, a part
-- of them and then, each time, the error "channel closed".
pub run-IsDelivery :
    (chunks : List Bytes) (es : List Event) → IsDelivery chunks (run es (start chunks))
run-IsDelivery chunks es =
    Phase-IsDelivery (run es (start chunks))
      (run-Phase es (start chunks) (idle [] chunks true [] refl refl))
