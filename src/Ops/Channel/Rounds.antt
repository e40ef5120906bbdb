-- ===== src/Ops/Channel/Rounds.antt =====
-- The transfer of a body goes on until its end (crates/sb_workers/lib.rs).
use server_based_deno.Base.{
  ℕ, zero, suc, ◌+◌, ◌≤◌, ◌<◌, ◌≡◌, refl, sym, ap, ◌∙◌, true, false, none, List, [], ◌∷◌, ◌++◌, map,
  arith, length, append_assoc,
}
use server_based_deno.Ops.Stream.{Bytes, poll_next, write, shutdown_body}
use server_based_deno.Ops.Channel.{
  Item, Transfer, start, Event, writes, shuts_down, polls, step, run, chunk, repeat,
}
use server_based_deno.Ops.Channel.Delivery.{
  transfer, Phase, idle, full, closing, closed, lost, append_nil, chunks_snoc, run-Phase,
}

-- A round: the script tries to go on, and the stream is polled.
abbrev pub rounds : ℕ → List Event
rounds zero = []
rounds (suc n) = writes ∷ shuts_down ∷ polls ∷ rounds n

abbrev IsWhole : List Bytes → List Item → Type 0
IsWhole chunks polled = (k : ℕ) × (polled ≡ map chunk chunks ++ repeat (suc k) none)

-- After the end nothing changes as long as the sender is there.
rounds-closed :
    (n : ℕ) (polled : List Item)
    → (run (rounds n) (transfer [] true none true true polled)).polled ≡ polled
unfolding run step poll_next
rounds-closed zero polled = refl
rounds-closed (suc n) polled = rounds-closed n polled

module _ (chunks : List Bytes) where
  rounds-after_end :
      (n k : ℕ) (polled : List Item)
      → polled ≡ map chunk chunks ++ repeat (suc k) none
      → IsWhole chunks (run (rounds n) (transfer [] true none true true polled)).polled
  rounds-after_end n k polled seen = (k, rounds-closed n polled ∙ seen)

  -- The marker is polled next.
  last_round :
      (n : ℕ) (polled : List Item)
      → polled ≡ map chunk chunks
      → IsWhole chunks
          (run (rounds n) (transfer [] true none true true (polled ++ none ∷ []))).polled
  last_round n polled seen =
      rounds-after_end n 0 (polled ++ none ∷ []) (ap (λ (l : List Item). l ++ none ∷ []) seen)

  rounds-idle :
      (n : ℕ) (got rest : List Bytes) (polled : List Item)
      → got ++ rest ≡ chunks
      → polled ≡ map chunk got
      → length rest < n
      → IsWhole chunks (run (rounds n) (transfer rest false none true false polled)).polled
  unfolding run step write shutdown_body poll_next
  rounds-idle zero got rest polled all seen enough = absurd (omega arith)
  rounds-idle (suc n) got [] polled all seen enough =
      last_round n polled (seen ∙ ap (map chunk) (sym (append_nil got) ∙ all))
  rounds-idle (suc n) got (c ∷ []) polled all seen enough =
      rounds-idle n (got ++ c ∷ []) [] (polled ++ chunk c ∷ []) (append_assoc got (c ∷ []) [] ∙ all)
        (ap (λ (l : List Item). l ++ chunk c ∷ []) seen ∙ chunks_snoc got c) (omega arith)
  rounds-idle (suc n) got (c ∷ d ∷ rest) polled all seen enough =
      rounds-idle n (got ++ c ∷ []) (d ∷ rest) (polled ++ chunk c ∷ [])
        (append_assoc got (c ∷ []) (d ∷ rest) ∙ all)
        (ap (λ (l : List Item). l ++ chunk c ∷ []) seen ∙ chunks_snoc got c) (omega arith)

  rounds-Phase :
      (n : ℕ) (t : Transfer)
      → Phase chunks t
      → t.stream.connected ≡ true
      → length t.to_write + 2 ≤ n
      → IsWhole chunks (run (rounds n) t).polled
  unfolding run step write shutdown_body poll_next
  rounds-Phase zero t phase here enough = absurd (omega arith)
  rounds-Phase (suc n) t (idle got rest true polled all seen) here enough =
      rounds-idle (suc n) got rest polled all seen (omega arith)
  rounds-Phase (suc n) t (full got [] c true polled all seen) here enough =
      rounds-idle n (got ++ c ∷ []) [] (polled ++ chunk c ∷ []) (append_assoc got (c ∷ []) [] ∙ all)
        (ap (λ (l : List Item). l ++ chunk c ∷ []) seen ∙ chunks_snoc got c) (omega arith)
  rounds-Phase (suc n) t (full got (d ∷ rest) c true polled all seen) here enough =
      rounds-idle n (got ++ c ∷ []) (d ∷ rest) (polled ++ chunk c ∷ [])
        (append_assoc got (c ∷ []) (d ∷ rest) ∙ all)
        (ap (λ (l : List Item). l ++ chunk c ∷ []) seen ∙ chunks_snoc got c) (omega arith)
  rounds-Phase (suc n) t (closing true polled seen) here enough = last_round n polled seen
  rounds-Phase (suc n) t (closed true k polled seen) here enough = rounds-after_end n k polled seen
  rounds-Phase (suc n) t (idle got rest false polled all seen) here enough = cc
  rounds-Phase (suc n) t (full got rest c false polled all seen) here enough = cc
  rounds-Phase (suc n) t (closing false polled seen) here enough = cc
  rounds-Phase (suc n) t (closed false k polled seen) here enough = cc
  rounds-Phase (suc n) t (lost got rest k polled all seen) here enough = cc

-- A body never gets stuck: wherever its transfer stands, if its sender is still there, two rounds
-- more than it has chunks to write bring the whole body and its end to the reader.
pub rounds_complete :
    (chunks : List Bytes) (es : List Event) (n : ℕ)
    → (run es (start chunks)).stream.connected ≡ true
    → length (run es (start chunks)).to_write + 2 ≤ n
    → (k : ℕ) × ((run (rounds n) (run es (start chunks))).polled
        ≡ map chunk chunks ++ repeat (suc k) none)
rounds_complete chunks es n here enough =
    rounds-Phase chunks n (run es (start chunks))
      (run-Phase es (start chunks) (idle [] chunks true [] refl refl)) here enough
