-- ===== src/Prefetcher/Pool/Returning.antt =====
-- When Close comes back, and when it does not.
use cache_predict.Common.{
  ℕ, zero, suc, ◌≤◌, ◌<◌, ◌≡◌, ◌≢◌, ◌⊎◌, ◌∙◌, refl, sym, ap, inl, inr, Bool, true, false, arith,
  ◌==◌, ==_iff, Bool-cases,
}
use cache_predict.Common.Family.{update, all_or_one}
use cache_predict.Prefetcher.{PrefetchJob}
use cache_predict.Prefetcher.Pool.{
  Worker, waiting, executing, stopped, Closer, not_called, flagged, cancelled, returned, Pool,
  is_cancelled, is_closed, new_pool, Step, checks, sends, drops, takes, ends, stops, flags, cancels,
  waits, Reach, here, later,
}
use cache_predict.Prefetcher.Pool.Closing.{
  IsInner, Run, stay, go, all_left, Step-all_left, has_stopped, has_stopped_lem, stopped_at_end,
}

module _ (n : ℕ) (comes_back : PrefetchJob → Bool) where
  -- A worker whose job, if it has one, comes back.
  abbrev pub is_free : Worker → Bool
  is_free waiting = true
  is_free (executing job) = comes_back job
  is_free stopped = true

  abbrev pub AreFree : Pool → Type 0
  AreFree s = (i : ℕ) → i < n → is_free (s.worker i) ≡ true

  update-AreFree :
      (s : Pool) (i : ℕ) (w : Worker)
      → is_free w ≡ true
      → AreFree s
      → (j : ℕ) → j < n
      → is_free (update s.worker i w j) ≡ true
  update-AreFree s i w fine free j lt = elim (Bool-cases (i == j)) [
    | inl same ↦ rw (update, same) fine
    | inr apart ↦ rw (update, apart) (free j lt)
  ]

  OneStep : Pool → Type 0
  OneStep s =
      (t : Pool) × (st : Step n comes_back s t) × IsInner n comes_back st
      × (is_closed t.closer ≡ true)
      × AreFree t

  worker_goes_on :
      (s : Pool) (i : ℕ) (w : Worker)
      → s.closer ≡ cancelled
      → i < n
      → s.worker i ≡ w
      → has_stopped w ≡ false
      → AreFree s
      → OneStep s
  unfolding OneStep
  worker_goes_on s i waiting c lt at e free = (
    _,
    stops i lt at (ap is_cancelled c),
    tt,
    ap is_closed c,
    update-AreFree s i stopped refl free,
  )
  worker_goes_on s i (executing job) c lt at e free =
      let back : comes_back job ≡ true = sym (ap is_free at) ∙ free i lt in
      (_, ends i job lt at back, tt, ap is_closed c, update-AreFree s i waiting refl free)
  worker_goes_on s i stopped c lt at e free = absurd (cc)

  closer_goes_on :
      (s : Pool) (c : Closer)
      → s.closer ≡ c
      → is_closed c ≡ true
      → AreFree s
      → (c ≡ returned) ⊎ OneStep s
  unfolding OneStep
  closer_goes_on s not_called at e free = absurd (cc)
  closer_goes_on s flagged at e free = inr (_, cancels at, tt, refl, free)
  closer_goes_on s cancelled at e free = elim (all_or_one has_stopped n s.worker) [
    | inl all ↦ inr (_, waits at (λ i lt. has_stopped_lem (s.worker i) (all i lt)), tt, refl, free)
    | inr (i, lt, open_at) ↦ inr (worker_goes_on s i (s.worker i) at lt refl open_at free)
  ]
  closer_goes_on s returned at e free = inl refl

  closes_within :
      (m : ℕ) (s : Pool)
      → is_closed s.closer ≡ true
      → AreFree s
      → all_left n comes_back s ≤ m
      → (t : Pool) × (run : Run n comes_back s t) × (t.closer ≡ returned)
  unfolding OneStep
  closes_within zero s e free le = elim (closer_goes_on s s.closer refl e free) [
    | inl over ↦ (s, stay, over)
    | inr (t, st, inner, e', free') ↦
        absurd (omega (arith, Step-all_left n comes_back st inner, le))
  ]
  closes_within (suc m) s e free le = elim (closer_goes_on s s.closer refl e free) [
    | inl over ↦ (s, stay, over)
    | inr (t, st, inner, e', free') ↦
        let (u, run, over) =
          closes_within m t e' free' (omega (arith, Step-all_left n comes_back st inner, le)) in
        (u, go st inner run, over)
  ]

  -- From every state of a pool in which Close has been called, and in which the execute of each job that a
  -- worker has in hand comes back, the workers and Close alone can go on until Close returns.
  pub close_returns :
      (s : Pool)
      → is_closed s.closer ≡ true
      → AreFree s
      → (t : Pool) × (run : Run n comes_back s t) × (t.closer ≡ returned)
  close_returns s e free = closes_within (all_left n comes_back s) s e free (omega arith)

  -- A job that does not come back.
  module _ (i : ℕ) (job : PrefetchJob) (lt : i < n) (stuck : comes_back job ≡ false) where
    IsStuck : Pool → Type 0
    IsStuck s = s.worker i ≡ executing job

    apart_from :
        (s : Pool) (j : ℕ) (w : Worker)
        → IsStuck s
        → s.worker j ≢ executing job
        → update s.worker j w i ≡ executing job
    unfolding IsStuck
    apart_from s j w at other = elim (Bool-cases (j == i)) [
      | inl same ↦ absurd (other (ap s.worker ((==_iff j i).0 same) ∙ at))
      | inr apart ↦ rw (apart) at
    ]

    Step-IsStuck : {s t : Pool} → Step n comes_back s t → IsStuck s → IsStuck t
    unfolding IsStuck
    Step-IsStuck (checks o) at = at
    Step-IsStuck (sends sent k c room) at = at
    Step-IsStuck (drops k c full) at = at
    Step-IsStuck {s} (takes j taken rest below free q) at =
        apart_from s j (executing taken) at (λ e. absurd (cc))
    Step-IsStuck {s} (ends j ended below was back) at = apart_from s j waiting at (λ e. absurd (cc))
    Step-IsStuck {s} (stops j below free o) at = apart_from s j stopped at (λ e. absurd (cc))
    Step-IsStuck (flags c) at = at
    Step-IsStuck (cancels c) at = at
    Step-IsStuck (waits c all) at = at

    stays_so :
        {s t : Pool}
        → Reach n comes_back new_pool s
        → IsStuck s
        → Reach n comes_back s t
        → IsStuck t × Reach n comes_back new_pool t
    stays_so r at here = (at, r)
    stays_so r at (later more st) =
        let (still, r') = stays_so r at more in (Step-IsStuck st still, later r' st)

    -- When a worker of the pool has a job in hand whose execute does not come back, then in every state from
    -- there on it still has the job in hand, and Close has not returned.
    pub close_blocked :
        {s t : Pool}
        → Reach n comes_back new_pool s
        → s.worker i ≡ executing job
        → Reach n comes_back s t
        → (t.worker i ≡ executing job) × (t.closer ≢ returned)
    unfolding IsStuck
    close_blocked r at more =
        let (still, r') = stays_so r at more in
        (still, λ over. absurd (cc (still, stopped_at_end n comes_back r' over i lt)))
