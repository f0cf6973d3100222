-- ===== src/Telemetry/Laws.antt =====
-- Requests are hits, misses and calls in between; and what a snapshot in parts can show.
use cache_predict.Common.{ℕ, zero, suc, ◌+◌, ◌%◌, ◌^◌, ◌≡◌, refl, arith}
use cache_predict.Telemetry.{
  Telemetry, new_telemetry, add_request, add_hit, add_miss, record_prefetch, record_hit, InFlight,
  Step, Reach, stats,
}
use cache_predict.Telemetry.Step.{begin_hit, end_hit, begin_miss, end_miss, prefetch}
use cache_predict.Telemetry.Reach.{here, next}

abbrev pub idle : InFlight
idle = record { counters = new_telemetry; hits_begun = 0; misses_begun = 0 }

-- The requests are the hits, the misses and those whose call is not over, but for the wrap-around.
abbrev IsBalanced : InFlight → Type 0
IsBalanced s =
    s.counters.total_requests % 2 ^ 64
    ≡ (s.counters.cache_hits + s.counters.cache_misses + s.hits_begun + s.misses_begun) % 2 ^ 64

Step-IsBalanced : {s t : InFlight} → Step s t → IsBalanced s → IsBalanced t
unfolding add_request add_hit add_miss record_prefetch
Step-IsBalanced (begin_hit s) b = omega (arith, b)
Step-IsBalanced (end_hit s n e) b = omega (arith, b, e)
Step-IsBalanced (begin_miss s) b = omega (arith, b)
Step-IsBalanced (end_miss s n e) b = omega (arith, b, e)
Step-IsBalanced (prefetch s) b = b

Reach-IsBalanced : {s : InFlight} → Reach idle s → IsBalanced s
Reach-IsBalanced here = refl
Reach-IsBalanced (next r s) = Step-IsBalanced s (Reach-IsBalanced r)

-- In any interleaving of the atomic additions, when no RecordHit and no RecordMiss is under way, a
-- snapshot has as many requests as hits and misses together, modulo 2 ^ 64.
pub stats-Reach :
    (s : InFlight)
    → Reach idle s
    → s.hits_begun ≡ 0
    → s.misses_begun ≡ 0
    → (stats s.counters s.counters s.counters s.counters).total % 2 ^ 64
      ≡ ((stats s.counters s.counters s.counters s.counters).hits
          + (stats s.counters s.counters s.counters s.counters).misses)
        % 2 ^ 64
unfolding stats
stats-Reach s r h m = omega (arith, Reach-IsBalanced r, h, m)

-- `n` calls of RecordHit, one after the other.
pub after_hits : ℕ → Telemetry
after_hits zero = new_telemetry
after_hits (suc n) = record_hit (after_hits n)
