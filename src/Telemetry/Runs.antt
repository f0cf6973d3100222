-- ===== src/Telemetry/Runs.antt =====
-- The theorems on the counters at concrete inputs.
use cache_predict.Common.{◌+◌, ◌%◌, ◌^◌, ◌≡◌, refl}
use cache_predict.Telemetry.{
  new_telemetry, add_request, add_hit, add_miss, record_hit, record_miss, InFlight, Stats, stats,
}
use cache_predict.Telemetry.Step.{begin_hit, end_hit}
use cache_predict.Telemetry.Reach.{here, next}
use cache_predict.Telemetry.Laws.{idle, stats-Reach, after_hits}

two_requests : (record_miss (record_hit new_telemetry)).total_requests ≡ 2
unfolding record_miss record_hit add_hit add_miss add_request
two_requests = refl

abbrev one_begun : InFlight
one_begun = record { counters = add_request new_telemetry; hits_begun = 0 + 1; misses_begun = 0 }

abbrev one_over : InFlight
one_over = record {
  counters = add_hit (add_request new_telemetry);
  hits_begun = 0;
  misses_begun = 0;
}

stats-Reach_example :
    (stats one_over.counters one_over.counters one_over.counters one_over.counters).total % 2 ^ 64
    ≡ ((stats one_over.counters one_over.counters one_over.counters one_over.counters).hits
        + (stats one_over.counters one_over.counters one_over.counters one_over.counters).misses)
      % 2 ^ 64
stats-Reach_example =
    stats-Reach one_over (next (next here (begin_hit idle)) (end_hit one_begun 0 refl)) refl refl

abbrev torn : Stats
torn = stats (after_hits 1) (after_hits (1 + 2)) new_telemetry new_telemetry
