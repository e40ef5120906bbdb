-- ===== src/Pool/Invariant/Removed.antt =====
-- The invariant after a worker is removed (`UserWorkerMsgs::Shutdown`).
use server_based_deno.Base.{
  ℕ, ◌≡◌, ◌≢◌, inl, inr, true, none, some, arith, nat_beq, nat_beq_iff, nat_keyed, get, remove,
  get-insert, get-remove, Bool-cases, if◌then◌else◌,
}
use server_based_deno.Pool.{WorkerHandle, ShutdownTask, joining, Pool, begin_shutdown, or_empty}
use server_based_deno.Pool.Tasks.{is_finished}
use server_based_deno.Pool.Invariant.{member, Tracked, held, awaited, IsTidy}

-- The removal of a worker: its handles go to the shutdown task.
module _ (key : ℕ) (s : Pool) (w : WorkerHandle) (present : get key s.user_workers ≡ some w) where
  shutdown_task : ShutdownTask
  shutdown_task = record {
    key = key;
    worker = w;
    waiting = or_empty (get key s.handles);
    ending = joining;
  }

  shutdowns-begin_shutdown :
      (j : ℕ)
      → get j (begin_shutdown key w s).shutdowns
        ≡ (if nat_beq s.next_task j then some shutdown_task else get j s.shutdowns)
  unfolding begin_shutdown shutdown_task
  shutdowns-begin_shutdown j = get-insert s.next_task j shutdown_task s.shutdowns

  Tracked-begin_shutdown :
      (i k : ℕ) → IsTidy s → Tracked s i k → Tracked (begin_shutdown key w s) i k
  Tracked-begin_shutdown i k h (awaited j d a b c) =
      let old = h.old_shutdown j d a in awaited j d (ground (arith, shutdowns-begin_shutdown j)) b c
  Tracked-begin_shutdown i k h (held v hs a b c) = elim (Bool-cases (nat_beq key k)) [
    | inl same ↦
        let k_eq : key ≡ k = (nat_beq_iff _ _).0 same in
        awaited s.next_task shutdown_task (ground (arith, shutdowns-begin_shutdown s.next_task))
          (unfold shutdown_task in k_eq) (unfold shutdown_task in (rw k_eq (rw b c)))
    | inr other ↦
        unfold begin_shutdown in
        held v hs (ground (arith, get-remove key k s.user_workers))
          (ground (arith, get-remove key k s.handles)) c
  ]

  begin_shutdown-gone :
      (j : ℕ) (d : ShutdownTask)
      → IsTidy s
      → get j (begin_shutdown key w s).shutdowns ≡ some d
      → get d.key (remove key s.user_workers) ≡ none
  unfolding shutdown_task
  begin_shutdown-gone j d h e =
      ground (arith, shutdowns-begin_shutdown j, get-remove key d.key s.user_workers, h.gone j d)

  begin_shutdown-single :
      (j j' : ℕ) (d d' : ShutdownTask)
      → IsTidy s
      → get j (begin_shutdown key w s).shutdowns ≡ some d
      → get j' (begin_shutdown key w s).shutdowns ≡ some d'
      → d.key ≡ d'.key
      → j ≡ j'
  unfolding shutdown_task
  begin_shutdown-single j j' d d' h e e' q = ground (
    arith,
    shutdowns-begin_shutdown j,
    shutdowns-begin_shutdown j',
    h.single j j' d d',
    h.gone j d,
    h.gone j' d',
  )

  begin_shutdown-drained :
      (j : ℕ) (d : ShutdownTask)
      → IsTidy s
      → get j (begin_shutdown key w s).shutdowns ≡ some d
      → d.ending ≢ joining
      → (i : ℕ) → member i d.waiting ≡ true
      → is_finished (get i s.requests) ≡ true
  begin_shutdown-drained j d h e n i m = elim (Bool-cases (nat_beq s.next_task j)) [
    | inl same ↦ unfold shutdown_task in absurd (n (ground (arith, shutdowns-begin_shutdown j)))
    | inr other ↦ h.drained j d (ground (arith, shutdowns-begin_shutdown j)) n i m
  ]

  pub begin_shutdown-IsTidy : IsTidy s → IsTidy (begin_shutdown key w s)
  begin_shutdown-IsTidy h = record {
    old_request = λ i t e. unfold begin_shutdown in ground (arith, h.old_request i t);
    old_shutdown = λ j d e.
        unfold begin_shutdown in ground (arith, shutdowns-begin_shutdown j, h.old_shutdown j d);
    tracked =
        λ i t e. Tracked-begin_shutdown i t.key h (h.tracked i t (unfold begin_shutdown in e));
    gone = λ j d e. unfold begin_shutdown in begin_shutdown-gone j d h e;
    single = λ j j' d d' e e'. begin_shutdown-single j j' d d' h e e';
    drained = λ j d e n i m. unfold begin_shutdown in begin_shutdown-drained j d h e n i m;
  }
