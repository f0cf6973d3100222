-- ===== src/Prefetcher/Pool/Invariant.antt =====
-- Where the jobs of a pool are.
use cache_predict.Common.{
  ℕ, suc, ◌+◌, ◌≤◌, ◌<◌, ◌≡◌, ◌∙◌, refl, Bool, sym, ap, [], ◌∷◌, ◌++◌, arith, length, length-append,
  append_assoc,
}
use cache_predict.Common.Family.{update, total, total-update}
use cache_predict.Prefetcher.{PrefetchJob, queue_cap}
use cache_predict.Prefetcher.Pool.{
  Worker, waiting, executing, stopped, Pool, new_pool, Step, checks, sends, drops, takes, ends,
  stops, flags, cancels, waits, Reach, here, later,
}

-- A worker's jobs: one while it executes.
abbrev pub busy : Worker → ℕ
busy waiting = 0
busy (executing job) = 1
busy stopped = 0

pub record IsConserved (n : ℕ) (s : Pool) : Type 0 where
  pub in_order : s.sent ≡ s.taken ++ s.queue
  pub accounted : length s.taken ≡ length s.ended + total busy n s.worker
  pub bounded : length s.queue ≤ queue_cap

module _ (n : ℕ) (comes_back : PrefetchJob → Bool) where
  busy-update :
      (i : ℕ) (w : Worker) (s : Pool)
      → i < n
      → total busy n (update s.worker i w) + busy (s.worker i) ≡ total busy n s.worker + busy w
  busy-update i w s lt = total-update busy n i w s.worker lt

  Step-IsConserved : {s t : Pool} → Step n comes_back s t → IsConserved n s → IsConserved n t
  Step-IsConserved {s} (checks o) v = record {
    in_order = v.in_order;
    accounted = v.accounted;
    bounded = v.bounded;
  }
  Step-IsConserved {s} (sends job k c room) v = record {
    in_order = rw (v.in_order) (append_assoc s.taken s.queue (job ∷ []));
    accounted = v.accounted;
    bounded = omega (arith, length-append s.queue (job ∷ []));
  }
  Step-IsConserved {s} (drops k c full) v = record {
    in_order = v.in_order;
    accounted = v.accounted;
    bounded = v.bounded;
  }
  Step-IsConserved {s} (takes i job rest lt at q) v = record {
    in_order = v.in_order ∙ (ap (◌++◌ s.taken) q ∙ sym (append_assoc s.taken (job ∷ []) rest));
    accounted = omega (
      arith,
      v.accounted,
      busy-update i (executing job) s lt,
      ap busy at,
      length-append s.taken (job ∷ []),
    );
    bounded = omega (arith, v.bounded, ap length q);
  }
  Step-IsConserved {s} (ends i job lt at back) v = record {
    in_order = v.in_order;
    accounted = omega (
      arith,
      v.accounted,
      busy-update i waiting s lt,
      ap busy at,
      length-append s.ended (job ∷ []),
    );
    bounded = v.bounded;
  }
  Step-IsConserved {s} (stops i lt at o) v = record {
    in_order = v.in_order;
    accounted = omega (arith, v.accounted, busy-update i stopped s lt, ap busy at);
    bounded = v.bounded;
  }
  Step-IsConserved {s} (flags c) v = record {
    in_order = v.in_order;
    accounted = v.accounted;
    bounded = v.bounded;
  }
  Step-IsConserved {s} (cancels c) v = record {
    in_order = v.in_order;
    accounted = v.accounted;
    bounded = v.bounded;
  }
  Step-IsConserved {s} (waits c w) v = record {
    in_order = v.in_order;
    accounted = v.accounted;
    bounded = v.bounded;
  }

  idle_workers : (m : ℕ) → total busy m new_pool.worker ≡ 0
  idle_workers ℕ.zero = refl
  idle_workers (suc m) = omega (arith, idle_workers m)

  -- In every reachable state of a pool of n workers: the jobs that were taken out of the channel and behind
  -- them those that are in it are all that were sent, in order; those taken are as many as have been
  -- executed and are being executed; and no more than 256 wait.
  pub Reach-IsConserved : {s : Pool} → Reach n comes_back new_pool s → IsConserved n s
  Reach-IsConserved here = record {
    in_order = refl;
    accounted = omega (arith, idle_workers n);
    bounded = omega arith;
  }
  Reach-IsConserved (later r st) = Step-IsConserved st (Reach-IsConserved r)
