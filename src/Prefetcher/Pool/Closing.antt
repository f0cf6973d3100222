-- ===== src/Prefetcher/Pool/Closing.antt =====
-- Close waits for the workers, and how many steps they and Close have left.
use cache_predict.Common.{
  ℕ, zero, suc, ◌+◌, ◌*◌, ◌≤◌, ◌<◌, ◌≡◌, refl, ap, Bool, true, false, arith, length,
}
use cache_predict.Common.Family.{total, total-update}
use cache_predict.Prefetcher.{PrefetchJob}
use cache_predict.Prefetcher.Pool.{
  Worker, waiting, executing, stopped, Closer, not_called, flagged, cancelled, returned, Pool,
  new_pool, Step, checks, sends, drops, takes, ends, stops, flags, cancels, waits, Reach, here,
  later,
}

-- What does not change behind the return of Close.
pub record IsOver (n : ℕ) (s t : Pool) : Type 0 where
  pub over : t.closer ≡ returned
  pub all_stopped : (i : ℕ) → i < n → t.worker i ≡ stopped
  pub none_taken : t.taken ≡ s.taken
  pub none_ended : t.ended ≡ s.ended

-- What the workers and Close have left to do, when nobody submits.
abbrev to_do : Worker → ℕ
to_do waiting = 1
to_do (executing job) = 2
to_do stopped = 0

abbrev close_left : Closer → ℕ
close_left not_called = 3
close_left flagged = 2
close_left cancelled = 1
close_left returned = 0

abbrev pub has_stopped : Worker → Bool
has_stopped waiting = false
has_stopped (executing job) = false
has_stopped stopped = true

pub has_stopped_lem : (w : Worker) → has_stopped w ≡ true → w ≡ stopped
has_stopped_lem w e = ground arith

module _ (n : ℕ) (comes_back : PrefetchJob → Bool) where
  pub stopped_at_end :
      {s : Pool}
      → Reach n comes_back new_pool s
      → s.closer ≡ returned
      → (i : ℕ) → i < n
      → s.worker i ≡ stopped
  stopped_at_end here e i lt = absurd (cc)
  stopped_at_end (later r (checks o)) e i lt = stopped_at_end r e i lt
  stopped_at_end (later r (sends job k c room)) e i lt = stopped_at_end r e i lt
  stopped_at_end (later r (drops k c full)) e i lt = stopped_at_end r e i lt
  stopped_at_end (later r (takes j job rest below at q)) e i lt =
      absurd (cc (stopped_at_end r e j below))
  stopped_at_end (later r (ends j job below at back)) e i lt =
      absurd (cc (stopped_at_end r e j below))
  stopped_at_end (later r (stops j below at o)) e i lt = absurd (cc (stopped_at_end r e j below))
  stopped_at_end (later r (flags c)) e i lt = absurd (cc)
  stopped_at_end (later r (cancels c)) e i lt = absurd (cc)
  stopped_at_end (later r (waits c all)) e i lt = all i lt

  Step-IsOver : {s t u : Pool} → Step n comes_back t u → IsOver n s t → IsOver n s u
  Step-IsOver (checks o) v = absurd (cc (v.over))
  Step-IsOver (sends job k c room) v = record {
    over = v.over;
    all_stopped = v.all_stopped;
    none_taken = v.none_taken;
    none_ended = v.none_ended;
  }
  Step-IsOver (drops k c full) v = record {
    over = v.over;
    all_stopped = v.all_stopped;
    none_taken = v.none_taken;
    none_ended = v.none_ended;
  }
  Step-IsOver (takes i job rest lt at q) v = absurd (cc (v.all_stopped i lt))
  Step-IsOver (ends i job lt at back) v = absurd (cc (v.all_stopped i lt))
  Step-IsOver (stops i lt at o) v = absurd (cc (v.all_stopped i lt))
  Step-IsOver (flags c) v = absurd (cc (v.over))
  Step-IsOver (cancels c) v = absurd (cc (v.over))
  Step-IsOver (waits c all) v = absurd (cc (v.over))

  Reach-IsOver : {s t : Pool} → IsOver n s s → Reach n comes_back s t → IsOver n s t
  Reach-IsOver v here = v
  Reach-IsOver v (later r st) = Step-IsOver st (Reach-IsOver v r)

  -- When Close has returned in a pool of n workers, then in every state from there on all workers have
  -- stopped, and no job has been taken out of the channel or executed since, although callers of
  -- Submit that saw the pool open may still send.
  pub close_waits :
      {s t : Pool}
      → Reach n comes_back new_pool s
      → s.closer ≡ returned
      → Reach n comes_back s t
      → IsOver n s t
  close_waits r e more =
      Reach-IsOver
        (record {
          over = e;
          all_stopped = stopped_at_end r e;
          none_taken = refl;
          none_ended = refl;
        })
        more

  -- A step of a worker or of Close.
  abbrev pub IsInner : {s t : Pool} → Step n comes_back s t → Type 0
  IsInner (checks o) = ⊥
  IsInner (sends job k c room) = ⊥
  IsInner (drops k c full) = ⊥
  IsInner (takes i job rest lt at q) = Unit
  IsInner (ends i job lt at back) = Unit
  IsInner (stops i lt at o) = Unit
  IsInner (flags c) = Unit
  IsInner (cancels c) = Unit
  IsInner (waits c all) = Unit

  -- A run of the workers and Close alone.
  pub data Run : Pool → Pool → Type 0 where
    stay : {s : Pool} → Run s s
    go : {s t u : Pool} (st : Step n comes_back s t) → IsInner st → Run t u → Run s u

  abbrev pub run_steps : {s t : Pool} → Run s t → ℕ
  run_steps stay = 0
  run_steps (go st inner run) = suc (run_steps run)

  abbrev pub all_left : Pool → ℕ
  all_left s = total to_do n s.worker + 2 * length s.queue + close_left s.closer

  pub Step-all_left :
      {s t : Pool} (st : Step n comes_back s t) → IsInner st → all_left t < all_left s
  Step-all_left (checks o) inner = absurd inner
  Step-all_left (sends job k c room) inner = absurd inner
  Step-all_left (drops k c full) inner = absurd inner
  Step-all_left {s} (takes i job rest lt at q) inner =
      omega (arith, total-update to_do n i (executing job) s.worker lt, ap to_do at, ap length q)
  Step-all_left {s} (ends i job lt at back) inner =
      omega (arith, total-update to_do n i waiting s.worker lt, ap to_do at)
  Step-all_left {s} (stops i lt at o) inner =
      omega (arith, total-update to_do n i stopped s.worker lt, ap to_do at)
  Step-all_left {s} (flags c) inner = omega (arith, ap close_left c)
  Step-all_left {s} (cancels c) inner = omega (arith, ap close_left c)
  Step-all_left {s} (waits c all) inner = omega (arith, ap close_left c)

  to_do_bounded : (w : Worker) → to_do w ≤ 2
  to_do_bounded w = ground arith

  total_bounded : (m : ℕ) (f : ℕ → Worker) → total to_do m f ≤ 2 * m
  total_bounded zero f = omega arith
  total_bounded (suc m) f = omega (arith, to_do_bounded (f m), total_bounded m f)

  run_within : {s t : Pool} (run : Run s t) → run_steps run ≤ all_left s
  run_within stay = omega arith
  run_within (go st inner run) = omega (arith, Step-all_left st inner, run_within run)

  -- When nobody submits, n workers and Close take at most two steps for each worker and each waiting job, and
  -- three for Close.
  pub run_bounded : {s t : Pool} (run : Run s t) → run_steps run ≤ 2 * n + 2 * length s.queue + 3
  run_bounded {s} run =
      let closing : close_left s.closer ≤ 3 = ground arith in
      omega (arith, run_within run, total_bounded n s.worker, closing)
