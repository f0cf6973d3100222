-- ===== src/Markov/Runs.antt =====
-- A short life of a map-based predictor, and the theorem about its predictions at it.
use cache_predict.Common.{◌≡◌, ◌⊎◌, ◌<◌, ◌^◌, some, List, [], ◌∷◌, arith}
use cache_predict.Common.Int.{pos}
use cache_predict.Common.Words.{Bytes}
use cache_predict.Common.Dict.{lookup, insert, bytes_key}
use cache_predict.Common.Text.{codes}
use cache_predict.Markov.Counts.{sum_counts}
use cache_predict.Normalizer.{normalize_route}
use cache_predict.Markov.{
  AdaptiveMarkovPredictor, HistoryStep, new_adaptive_markov_predictor, forecast, last_visit,
  past_of, total_of, row_of, record_visit, count_visit, remember, add_weight,
}
use cache_predict.Markov.Forecast.{IsForecast, forecast-IsForecast}
use cache_predict.Markov.Invariant.{
  IsPredictor, Op, records, seeds, apply_all, apply_all-IsPredictor,
}

abbrev short_life : List Op
short_life =
    records 0 (codes "s") (codes "GET") (codes "/a") []
    ∷ records 0 (codes "s") (codes "GET") (codes "/b") []
    ∷ seeds (codes "GET /b") (codes "GET /c") (pos 3)
    ∷ []

abbrev lived : AdaptiveMarkovPredictor
lived = apply_all short_life new_adaptive_markov_predictor

apply_all-IsPredictor_example : IsPredictor lived
apply_all-IsPredictor_example = apply_all-IsPredictor short_life

lived_small : (from : Bytes) → sum_counts (row_of from lived) < 2 ^ 63
unfolding row_of lookup sum_counts record_visit count_visit remember add_weight past_of insert
    total_of normalize_route
lived_small from = ground arith

forecast-IsForecast_example :
    (forecast (codes "s") (pos 2) lived ≡ [])
    ⊎ ((last : HistoryStep) × (last_visit (past_of (codes "s") lived) ≡ some last)
        × IsForecast (pos 2) (total_of last.pattern lived) (forecast (codes "s") (pos 2) lived))
forecast-IsForecast_example =
    forecast-IsForecast (codes "s") (pos 2) lived (apply_all-IsPredictor short_life).balanced
      lived_small
