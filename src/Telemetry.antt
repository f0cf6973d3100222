-- ===== src/Telemetry.antt =====
-- telemetry.go: the counters of `Telemetry`, each an atomic of its own, and the snapshot that Stats takes.
pub mod Laws
mod Runs
use cache_predict.Common.{ℕ, ◌+◌, ◌%◌, ◌^◌, ◌≡◌, ltb, if◌then◌else◌}

pub record Telemetry : Type 0 where
  pub total_requests : ℕ
  pub cache_hits : ℕ
  pub cache_misses : ℕ
  pub prefetches_executed : ℕ

-- NewTelemetry
abbrev pub new_telemetry : Telemetry
new_telemetry = record {
  total_requests = 0;
  cache_hits = 0;
  cache_misses = 0;
  prefetches_executed = 0;
}

-- The atomic additions.
unfoldable pub add_request : Telemetry → Telemetry
add_request t = record t { total_requests = (t.total_requests + 1) % 2 ^ 64 }

unfoldable pub add_hit : Telemetry → Telemetry
add_hit t = record t { cache_hits = (t.cache_hits + 1) % 2 ^ 64 }

unfoldable pub add_miss : Telemetry → Telemetry
add_miss t = record t { cache_misses = (t.cache_misses + 1) % 2 ^ 64 }

-- RecordPrefetch
unfoldable pub record_prefetch : Telemetry → Telemetry
record_prefetch t = record t { prefetches_executed = (t.prefetches_executed + 1) % 2 ^ 64 }

-- RecordHit, with nothing between its two additions
unfoldable pub record_hit : Telemetry → Telemetry
record_hit t = add_hit (add_request t)

-- RecordMiss, likewise
unfoldable pub record_miss : Telemetry → Telemetry
record_miss t = add_miss (add_request t)

-- The counters, and how many calls of RecordHit and RecordMiss stand between their two additions.
pub record InFlight : Type 0 where
  pub counters : Telemetry
  pub hits_begun : ℕ
  pub misses_begun : ℕ

-- One atomic addition of some caller.
pub data Step : InFlight → InFlight → Type 0 where
  begin_hit :
      (s : InFlight)
      → Step s (record s { counters = add_request s.counters; hits_begun = s.hits_begun + 1 })
  end_hit :
      (s : InFlight) (n : ℕ)
      → s.hits_begun ≡ n + 1
      → Step s (record s { counters = add_hit s.counters; hits_begun = n })
  begin_miss :
      (s : InFlight)
      → Step s (record s { counters = add_request s.counters; misses_begun = s.misses_begun + 1 })
  end_miss :
      (s : InFlight) (n : ℕ)
      → s.misses_begun ≡ n + 1
      → Step s (record s { counters = add_miss s.counters; misses_begun = n })
  prefetch : (s : InFlight) → Step s (record s { counters = record_prefetch s.counters })

pub data Reach (s : InFlight) : InFlight → Type 0 where
  here : Reach s s
  next : {t u : InFlight} → Reach s t → Step t u → Reach s u

-- A float64 that is the quotient of two counters.
pub record Ratio : Type 0 where
  pub num : ℕ
  pub den : ℕ

pub record Stats : Type 0 where
  pub total : ℕ
  pub hits : ℕ
  pub misses : ℕ
  pub prefetches : ℕ
  pub hit_rate : Ratio

-- Stats: the four loads see the counters at four moments, one after the other. HitRate stays the
-- quotient.
unfoldable pub stats : Telemetry → Telemetry → Telemetry → Telemetry → Stats
stats t1 t2 t3 t4 = record {
  total = t1.total_requests;
  hits = t2.cache_hits;
  misses = t3.cache_misses;
  prefetches = t4.prefetches_executed;
  hit_rate =
      if ltb 0 t1.total_requests
      then record { num = t2.cache_hits; den = t1.total_requests }
      else record { num = 0; den = 1 };
}
