-- ===== src/Pool/Invariant/Advanced.antt =====
-- The invariant after a request task or a shutdown task goes on.
use server_based_deno.Base.{
  ℕ, ◌≡◌, refl, ◌≢◌, inl, inr, Bool, true, some, List, [], ◌∷◌, arith, ap, subst₂, subst, sym, ◌∙◌,
  nat_beq, nat_beq_iff, nat_keyed, get, get-insert, Bool-cases, if◌then◌else◌,
}
use server_based_deno.Pool.{RequestTask, ShutdownTask, joining, Pool}
use server_based_deno.Pool.Tasks.{
  RequestEvent, next_phase, advance_request, is_finished, joined, next_ending, advance_shutdown,
}
use server_based_deno.Pool.Invariant.{member, Tracked, held, awaited, IsTidy}

-- A request task goes on.
module _ (alive : ℕ → Bool) (i₀ : ℕ) (ev : RequestEvent) (t₀ : RequestTask) (s : Pool)
    (at : get i₀ s.requests ≡ some t₀) where
  requests-advance_request :
      (i : ℕ)
      → get i (advance_request alive i₀ ev t₀ s).requests ≡ (
          if nat_beq i₀ i
          then some (record t₀ { phase = next_phase ev t₀.phase })
          else get i s.requests)
  unfolding advance_request
  requests-advance_request i =
      get-insert i₀ i (record t₀ { phase = next_phase ev t₀.phase }) s.requests

  Tracked-advance_request :
      (i k : ℕ) → Tracked s i k → Tracked (advance_request alive i₀ ev t₀ s) i k
  unfolding advance_request
  Tracked-advance_request i k (held v hs a b c) = held v hs a b c
  Tracked-advance_request i k (awaited j d a b c) = awaited j d a b c

  -- A finished task stays finished.
  finished-advance_request :
      (i : ℕ)
      → is_finished (get i s.requests) ≡ true
      → is_finished (get i (advance_request alive i₀ ev t₀ s).requests) ≡ true
  unfolding next_phase
  finished-advance_request i h = ground (arith, requests-advance_request i)

  Tracked-advance_request_old :
      (i : ℕ) (t : RequestTask)
      → IsTidy s
      → get i (advance_request alive i₀ ev t₀ s).requests ≡ some t
      → Tracked s i t.key
  Tracked-advance_request_old i t h e = elim (Bool-cases (nat_beq i₀ i)) [
    | inl same ↦
        let key_eq : t₀.key ≡ t.key = ground (arith, requests-advance_request i) in
        subst₂ (λ a b. Tracked s a b) ((nat_beq_iff _ _).0 same) key_eq (h.tracked i₀ t₀ at)
    | inr other ↦ h.tracked i t (ground (arith, requests-advance_request i))
  ]

  pub advance_request-IsTidy : IsTidy s → IsTidy (advance_request alive i₀ ev t₀ s)
  advance_request-IsTidy h = record {
    old_request = λ i t e.
        unfold advance_request in
        ground (arith, requests-advance_request i, h.old_request i t, h.old_request i₀ t₀);
    old_shutdown = unfold advance_request in h.old_shutdown;
    tracked = λ i t e. Tracked-advance_request i t.key (Tracked-advance_request_old i t h e);
    gone = unfold advance_request in h.gone;
    single = unfold advance_request in h.single;
    drained = λ j d e n i m.
        finished-advance_request i (h.drained j d (unfold advance_request in e) n i m);
  }

-- The shutdown task goes on.
joined-finished :
    (s : Pool) (l : List ℕ) (i : ℕ)
    → joined s l ≡ true
    → member i l ≡ true
    → is_finished (get i s.requests) ≡ true
joined-finished s [] i h m = cc
joined-finished s (j ∷ l) i h m = ground (arith, joined-finished s l i, nat_beq_iff j i)

module _ (received : Bool) (j₀ : ℕ) (d₀ : ShutdownTask) (s : Pool)
    (at : get j₀ s.shutdowns ≡ some d₀) where
  moved : ShutdownTask
  moved = record d₀ { ending = next_ending (joined s d₀.waiting) received d₀.ending }

  shutdowns-advance_shutdown :
      (j : ℕ)
      → get j (advance_shutdown received j₀ d₀ s).shutdowns
        ≡ (if nat_beq j₀ j then some moved else get j s.shutdowns)
  unfolding advance_shutdown moved
  shutdowns-advance_shutdown j = get-insert j₀ j moved s.shutdowns

  -- Each task has the key and the list that it had.
  advance_shutdown-old :
      (j : ℕ) (d : ShutdownTask)
      → get j (advance_shutdown received j₀ d₀ s).shutdowns ≡ some d
      → (d' : ShutdownTask) × (get j s.shutdowns ≡ some d')
        × (d'.key ≡ d.key)
        × (d'.waiting ≡ d.waiting)
  unfolding moved
  advance_shutdown-old j d e = elim (Bool-cases (nat_beq j₀ j)) [
    | inl same ↦
        let j_eq : j₀ ≡ j = (nat_beq_iff _ _).0 same in
        (
          d₀,
          subst (λ (x : ℕ). get x s.shutdowns ≡ some d₀) j_eq at,
          ground (arith, shutdowns-advance_shutdown j),
          ground (arith, shutdowns-advance_shutdown j),
        )
    | inr other ↦ (d, ground (arith, shutdowns-advance_shutdown j), refl, refl)
  ]

  Tracked-advance_shutdown :
      (i k : ℕ) → Tracked s i k → Tracked (advance_shutdown received j₀ d₀ s) i k
  unfolding moved
  Tracked-advance_shutdown i k (held v hs a b c) = unfold advance_shutdown in held v hs a b c
  Tracked-advance_shutdown i k (awaited j d a b c) = elim (Bool-cases (nat_beq j₀ j)) [
    | inl same ↦
        let j_eq : j₀ ≡ j = (nat_beq_iff _ _).0 same in
        let d_eq : d₀ ≡ d = ground arith in
        awaited j moved (ground (arith, shutdowns-advance_shutdown j)) (rw d_eq b) (rw d_eq c)
    | inr other ↦ awaited j d (ground (arith, shutdowns-advance_shutdown j)) b c
  ]

  -- The signal is sent only when the join is complete.
  moved-drained :
      IsTidy s
      → moved.ending ≢ joining
      → (i : ℕ) → member i d₀.waiting ≡ true
      → is_finished (get i s.requests) ≡ true
  unfolding moved
  moved-drained h n i m = elim (Bool-cases (joined s d₀.waiting)) [
    | inl done ↦ joined-finished s d₀.waiting i done m
    | inr pending ↦ h.drained j₀ d₀ at (λ q. n (ground arith)) i m
  ]

  advance_shutdown-drained :
      (j : ℕ) (d : ShutdownTask)
      → IsTidy s
      → get j (advance_shutdown received j₀ d₀ s).shutdowns ≡ some d
      → d.ending ≢ joining
      → (i : ℕ) → member i d.waiting ≡ true
      → is_finished (get i s.requests) ≡ true
  advance_shutdown-drained j d h e n i m = elim (Bool-cases (nat_beq j₀ j)) [
    | inl same ↦
        let d_eq : moved ≡ d = ground (arith, shutdowns-advance_shutdown j) in
        moved-drained h (λ q. n (cc q)) i
          (unfold moved in (rw (← ap (λ (x : ShutdownTask). x.waiting) d_eq) at m))
    | inr other ↦ h.drained j d (ground (arith, shutdowns-advance_shutdown j)) n i m
  ]

  pub advance_shutdown-IsTidy : IsTidy s → IsTidy (advance_shutdown received j₀ d₀ s)
  advance_shutdown-IsTidy h = record {
    old_request = unfold advance_shutdown in h.old_request;
    old_shutdown = λ j d e.
        let (d', p, q, r) = advance_shutdown-old j d e in
        unfold advance_shutdown in h.old_shutdown j d' p;
    tracked =
        λ i t e. Tracked-advance_shutdown i t.key (h.tracked i t (unfold advance_shutdown in e));
    gone = λ j d e.
        let (d', p, q, r) = advance_shutdown-old j d e in
        unfold advance_shutdown in (rw (← q) (h.gone j d' p));
    single = λ j j' d d' e e' q.
        let (f, p, k, _) = advance_shutdown-old j d e in
        let (f', p', k', _) = advance_shutdown-old j' d' e' in
        h.single j j' f f' p p' (k ∙ q ∙ sym k');
    drained = λ j d e n i m. unfold advance_shutdown in advance_shutdown-drained j d h e n i m;
  }
