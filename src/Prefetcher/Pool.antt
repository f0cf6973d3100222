-- ===== src/Prefetcher/Pool.antt =====
-- prefetcher.go: the pool of NewPrefetcher, its workers, the callers of Submit and the one call of Close, as
-- steps of one system. A step is an access to the flag, the context, the channel or the wait group; of
-- a job there are its start and its end, which comes if its execute comes back: it may wait in a handler, or
-- for a request of the middleware that leads the call of its key. The channel is never closed.
pub mod Invariant
pub mod Closing
pub mod Returning
mod Runs
use cache_predict.Common.{
  ℕ, suc, ◌≤◌, ◌<◌, ◌≡◌, Bool, true, false, List, [], ◌∷◌, ◌++◌, length, if◌then◌else◌,
}
use cache_predict.Common.Family.{update}
use cache_predict.Common.Int.{ℤ}
use cache_predict.Prefetcher.{PrefetchJob, queue_cap}
use cache_predict.Sharded.Ops.{positive_or}

pub data Worker : Type 0 where
  waiting : Worker  -- in the select
  executing : (job : PrefetchJob) → Worker  -- in execute
  stopped : Worker  -- behind wg.Done

-- Where the call of Close stands that the Once lets through.
pub data Closer : Type 0 where
  not_called : Closer
  flagged : Closer  -- behind closed.Store(true)
  cancelled : Closer  -- behind cancel, in wg.Wait
  returned : Closer

-- `checked` callers of Submit have seen the pool open and have not sent their job yet. `sent` and `taken`
-- are all jobs that went into the channel and came out of it, in order, and `ended` those that have been executed.
pub record Pool : Type 0 where
  pub queue : List PrefetchJob
  pub closer : Closer
  pub checked : ℕ
  pub worker : ℕ → Worker
  pub sent : List PrefetchJob
  pub taken : List PrefetchJob
  pub ended : List PrefetchJob

-- `p.ctx.Err() != nil`
abbrev pub is_cancelled : Closer → Bool
is_cancelled not_called = false
is_cancelled flagged = false
is_cancelled cancelled = true
is_cancelled returned = true

-- `p.closed.Load() || p.ctx.Err() != nil`
abbrev pub is_closed : Closer → Bool
is_closed not_called = false
is_closed c = true

-- The number of workers that NewPrefetcher starts.
unfoldable pub worker_count : ℤ → ℕ
unfolding positive_or
worker_count workers = positive_or 4 workers

-- NewPrefetcher
abbrev pub new_pool : Pool
new_pool = record {
  queue = [];
  closer = not_called;
  checked = 0;
  worker = λ _. waiting;
  sent = [];
  taken = [];
  ended = [];
}

-- `comes_back` says of a job whether its execute does.
pub data Step (n : ℕ) (comes_back : PrefetchJob → Bool) (s : Pool) : Pool → Type 0 where
  checks : is_closed s.closer ≡ false → Step n comes_back s (record s { checked = suc s.checked })
  sends :
      (job : PrefetchJob) (k : ℕ)
      → s.checked ≡ suc k
      → length s.queue < queue_cap
      → Step n comes_back s
          (record s { queue = s.queue ++ job ∷ []; checked = k; sent = s.sent ++ job ∷ [] })
  drops :
      (k : ℕ)
      → s.checked ≡ suc k
      → queue_cap ≤ length s.queue
      → Step n comes_back s (record s { checked = k })
  takes :
      (i : ℕ) (job : PrefetchJob) (rest : List PrefetchJob)
      → i < n
      → s.worker i ≡ waiting
      → s.queue ≡ job ∷ rest
      → Step n comes_back s (record s {
        queue = rest;
        worker = update s.worker i (executing job);
        taken = s.taken ++ job ∷ [];
      })
  ends :
      (i : ℕ) (job : PrefetchJob)
      → i < n
      → s.worker i ≡ executing job
      → comes_back job ≡ true
      → Step n comes_back s
          (record s { worker = update s.worker i waiting; ended = s.ended ++ job ∷ [] })
  stops :
      (i : ℕ)
      → i < n
      → s.worker i ≡ waiting
      → is_cancelled s.closer ≡ true
      → Step n comes_back s (record s { worker = update s.worker i stopped })
  flags : s.closer ≡ not_called → Step n comes_back s (record s { closer = flagged })
  cancels : s.closer ≡ flagged → Step n comes_back s (record s { closer = cancelled })
  waits :
      s.closer ≡ cancelled
      → ((i : ℕ) → i < n → s.worker i ≡ stopped)
      → Step n comes_back s (record s { closer = returned })

pub data Reach (n : ℕ) (comes_back : PrefetchJob → Bool) (s : Pool) : Pool → Type 0 where
  here : Reach n comes_back s s
  later : {t u : Pool} → Reach n comes_back s t → Step n comes_back t u → Reach n comes_back s u
