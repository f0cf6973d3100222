-- ===== src/Coalesce/Runs.antt =====
-- The theorems about callers at a run of two.
use cache_predict.Common.{ℕ, ◌≡◌, ◌<◌, refl, true, none, some, zero}
use cache_predict.Common.Dict.{lookup, insert, bytes_key}
use cache_predict.Coalesce.{
  FnResult, result, System, join_call, unregister, keep_result, publish, panics, panicked,
  handler_panicked,
}
use cache_predict.Coalesce.Views.{agreed, own}
use cache_predict.Coalesce.Safety.{single_flight, follower_result}
use cache_predict.Coalesce.Progress.{everyone_returns, has_ended, Run}
use cache_predict.Coalesce.TwoCallers.{one_key, both_in, to_both, to_ended}

single_flight_example : zero ≡ zero
unfolding join_call lookup
single_flight_example = single_flight one_key to_both 0 0 0 0 refl refl refl

follower_result_example :
    (result none (some handler_panicked) ≡ agreed panics)
    × (panicked ≡ own panics)
    × (one_key 0 ≡ one_key 1)
unfolding join_call keep_result unregister publish lookup insert
follower_result_example =
    follower_result one_key (to_ended panics) 0 1 0 panics panicked none (some handler_panicked)
      refl refl

abbrev both_panic : ℕ → FnResult
both_panic i = panics

everyone_returns_example :
    (t : System) × Run one_key 2 both_panic both_in t
    × ((i : ℕ) → i < 2 → has_ended (t.pc i) ≡ true)
everyone_returns_example = everyone_returns one_key 2 both_panic to_both
