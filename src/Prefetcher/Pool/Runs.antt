-- ===== src/Prefetcher/Pool/Runs.antt =====
-- A pool with one worker: a job is sent and taken, Close is called while it is executed, and Close returns.
use cache_predict.Common.{
  ℕ, zero, suc, ◌<◌, ◌+◌, ◌*◌, ◌≤◌, ◌≡◌, ◌≢◌, refl, Bool, true, false, [], ◌∷◌, arith,
}
use cache_predict.Common.Family.{update}
use cache_predict.Common.Int.{pos, negsuc}
use cache_predict.Common.Text.{codes}
use cache_predict.Prefetcher.{PrefetchJob}
use cache_predict.Prefetcher.Pool.{
  waiting, executing, stopped, flagged, cancelled, returned, Pool, worker_count, new_pool, checks,
  sends, takes, ends, stops, flags, cancels, waits, Reach, here, later,
}
use cache_predict.Prefetcher.Pool.Closing.{IsOver, Run, run_steps, close_waits, run_bounded}
use cache_predict.Prefetcher.Pool.Returning.{AreFree, close_returns, close_blocked}
use cache_predict.Prefetcher.Pool.Invariant.{IsConserved, Reach-IsConserved}

abbrev job : PrefetchJob
job = record {
  session_id = codes "s";
  prediction = record { call = codes "GET /a"; pattern = codes "GET /a"; count = 9; total = 10 };
  host = codes "h";
  auth_headers = [];
  cookies = [];
  is_auth = true;
}

-- Every job comes back.
abbrev ever : PrefetchJob → Bool
ever j = true

abbrev seen_open : Pool
seen_open = record new_pool { checked = 1 }

abbrev holding : Pool
holding = record new_pool { queue = job ∷ []; sent = job ∷ [] }

abbrev working : Pool
working = record holding {
  queue = [];
  worker = update new_pool.worker 0 (executing job);
  taken = job ∷ [];
}

-- Close has been called in the middle of the job.
abbrev closing : Pool
closing = record working { closer = flagged }

abbrev done : Pool
done = record closing {
  closer = cancelled;
  worker = update working.worker 0 waiting;
  ended = job ∷ [];
}

abbrev at_rest : Pool
at_rest = record done { worker = update done.worker 0 stopped }

abbrev over : Pool
over = record at_rest { closer = returned }

only_worker : (i : ℕ) → i < 1 → over.worker i ≡ stopped
only_worker zero lt = refl
only_worker (suc i) lt = absurd (omega arith)

to_working : Reach 1 ever new_pool working
to_working =
    later (later (later here (checks refl)) (sends job 0 refl (omega arith)))
      (takes 0 job [] (omega arith) refl refl)

to_over : Reach 1 ever new_pool over
to_over =
    later
      (later
        (later (later (later to_working (flags refl)) (cancels refl))
          (ends 0 job (omega arith) refl refl))
        (stops 0 (omega arith) refl refl))
      (waits refl only_worker)

Reach-IsConserved_example : IsConserved 1 working
Reach-IsConserved_example = Reach-IsConserved 1 ever to_working

close_waits_example : IsOver 1 over over
close_waits_example = close_waits 1 ever to_over refl here

closing_free : AreFree 1 ever closing
closing_free zero lt = refl
closing_free (suc i) lt = absurd (omega arith)

run_bounded_example :
    run_steps 1 ever (close_returns 1 ever closing refl closing_free).1 ≤ 2 * 1 + 2 * 0 + 3
run_bounded_example = run_bounded 1 ever (close_returns 1 ever closing refl closing_free).1

close_returns_example : (t : Pool) × (run : Run 1 ever closing t) × (t.closer ≡ returned)
close_returns_example = close_returns 1 ever closing refl closing_free

-- The same job, where it does not come back.
abbrev never : PrefetchJob → Bool
never j = false

to_stuck : Reach 1 never new_pool working
to_stuck =
    later (later (later here (checks refl)) (sends job 0 refl (omega arith)))
      (takes 0 job [] (omega arith) refl refl)

to_hung : Reach 1 never working (record closing { closer = cancelled })
to_hung = later (later here (flags refl)) (cancels refl)

close_blocked_example : (closing.worker 0 ≡ executing job) × (cancelled ≢ returned)
close_blocked_example = close_blocked 1 never 0 job (omega arith) refl to_stuck refl to_hung

-- Four workers where none are asked for.
default_workers : worker_count (negsuc 0) ≡ 4
unfolding worker_count
default_workers = refl

asked_workers : worker_count (pos 2) ≡ 2
unfolding worker_count
asked_workers = refl
