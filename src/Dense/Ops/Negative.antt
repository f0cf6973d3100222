-- ===== src/Dense/Ops/Negative.antt =====
-- Predict with a negative topK.
use cache_predict.Common.{ℕ, ◌≡◌, none, some, List, ◌∷◌, arith, Option-cases, inl, inr, get_elem?}
use cache_predict.Common.Int.{pos, negsuc}
use cache_predict.Common.Words.{Bytes}
use cache_predict.Dense.Ops.{
  DenseMatrixPredictor, Prediction, cut, predict_row, predict_from, predict, shard_for,
}
use cache_predict.Dense.Sessions.{DenseStep, last_step, history_of}

module _ (k n : ℕ) (c : Prediction) (preds : List Prediction) (p : DenseMatrixPredictor) where
  predict_row_negative :
      (last : DenseStep) (total : ℕ)
      → predict_row last total (pos n) p ≡ some (c ∷ preds)
      → predict_row last total (negsuc k) p ≡ none
  unfolding predict_row cut
  predict_row_negative last total h = ground arith

  predict_from_negative :
      (last : DenseStep)
      → predict_from last (pos n) p ≡ some (c ∷ preds)
      → predict_from last (negsuc k) p ≡ none
  unfolding predict_from
  predict_from_negative last h = elim (Option-cases (get_elem? p.counts.totals last.id)) [
    | inl e ↦ ground (arith, e)
    | inr (total, e) ↦ ground (arith, e, predict_row_negative last total)
  ]

  -- Where Predict for a session gives some prediction, with a topK that is not negative, it panics with a
  -- negative one.
  pub predict_negative :
      (sum64 : Bytes → ℕ) (session : Bytes)
      → predict sum64 session (pos n) p ≡ some (c ∷ preds)
      → predict sum64 session (negsuc k) p ≡ none
  unfolding predict
  predict_negative sum64 session h =
      elim (Option-cases (get_elem? p.shards (shard_for sum64 session))) [
        | inl e ↦ ground (arith, e)
        | inr (sessions, e) ↦ elim (Option-cases (last_step (history_of session sessions))) [
          | inl f ↦ ground (arith, e, f)
          | inr (last, f) ↦ ground (arith, e, f, predict_from_negative last)
        ]
      ]
