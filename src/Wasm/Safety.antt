-- ===== src/Wasm/Safety.antt =====
-- The page's calls do not panic, unless one asks for a negative number of predictions.
use cache_predict.Common.{ℕ, suc, ◌≡◌, refl, ap, Option, some, List, [], ◌∷◌, All, arith, length}
use cache_predict.Common.Int.{ℤ, pos}
use cache_predict.Common.Words.{Bytes}
use cache_predict.Common.Text.{codes}
use cache_predict.Dense.Ops.{DenseMatrixPredictor, Prediction, predict}
use cache_predict.Dense.Ops.Invariant.{IsPredictor}
use cache_predict.Dense.Ops.Life.{new_dense_matrix_predictor-IsPredictor}
use cache_predict.Dense.Ops.Predicting.{predict-IsForecast}
use cache_predict.Dense.Ops.Recording.{record_request-IsPredictor}
use cache_predict.Prefetcher.{split_uri}
use cache_predict.Registry.{new_endpoint_registry}
use cache_predict.Registry.Laws.{IsRegistry-new}
use cache_predict.Wasm.{
  page_predictor, session_id, Rules, Output, PageCall, records, predicts, with_state, nothing,
  text_or, rules_of, asks_rules, record_page, top_k_of, predict_json, speculation_rules, call,
  run_page,
}

module _ (sum64 : Bytes → ℕ) {V : Type 0} (string_of : V → Bytes) (number_of : V → Option ℤ)
    (marshal : List Prediction → Option Bytes) (marshal_rules : Rules → Option Bytes) where
  -- The first argument is no negative number.
  abbrev pub IsTameList : List V → Type 0
  IsTameList args =
      (k : ℕ) × (top_k_of sum64 string_of number_of marshal marshal_rules args ≡ pos k)

  abbrev pub IsTame : PageCall V → Type 0
  IsTame (records victim args) = Unit
  IsTame (predicts args) = IsTameList args
  IsTame (asks_rules args) = IsTameList args

  abbrev Goes : PageCall V → DenseMatrixPredictor → Type 0
  Goes c p =
      (out : Output) × (p' : DenseMatrixPredictor) × (call sum64 string_of number_of marshal
          marshal_rules c p
        ≡ some (out, p'))
      × IsPredictor p'

  call-records :
      (victim : ℕ) (args : List V) (p : DenseMatrixPredictor)
      → IsPredictor p
      → Goes (records victim args) p
  unfolding record_page
  call-records victim [] p v = (_, _, refl, v)
  call-records victim (a ∷ []) p v = (_, _, refl, v)
  call-records victim (method ∷ full ∷ args) p v =
      let (path, query) = split_uri (string_of full) in
      let (w, e, good, counted) =
        record_request-IsPredictor sum64 victim session_id (string_of method) path query p v in
      (nothing, w, rw (e) refl, good)

  predict_json-some :
      (args : List V) (p : DenseMatrixPredictor) (preds : List Prediction)
      → predict sum64 session_id (top_k_of sum64 string_of number_of marshal marshal_rules args) p
        ≡ some preds
      → predict_json sum64 string_of number_of marshal marshal_rules args p
        ≡ some (text_or (codes "[]") (marshal preds))
  unfolding predict_json
  predict_json-some args p preds e = rw (e, predict_json) refl

  speculation_rules-some :
      (args : List V) (p : DenseMatrixPredictor) (preds : List Prediction)
      → predict sum64 session_id (top_k_of sum64 string_of number_of marshal marshal_rules args) p
        ≡ some preds
      → speculation_rules sum64 string_of number_of marshal marshal_rules args p
        ≡ some (text_or (codes "{}") (marshal_rules (rules_of preds)))
  unfolding speculation_rules
  speculation_rules-some args p preds e = rw (e, speculation_rules) refl

  call-predicts :
      (args : List V) (p : DenseMatrixPredictor)
      → IsPredictor p
      → IsTameList args
      → Goes (predicts args) p
  call-predicts args p v (k, tame) =
      let (preds, t, e, forecast) = predict-IsForecast sum64 session_id k p v in
      (
        _,
        p,
        ap (with_state sum64 string_of number_of marshal marshal_rules p)
            (predict_json-some args p preds (rw (tame) e)),
        v,
      )

  call-asks_rules :
      (args : List V) (p : DenseMatrixPredictor)
      → IsPredictor p
      → IsTameList args
      → Goes (asks_rules args) p
  call-asks_rules args p v (k, tame) =
      let (preds, t, e, forecast) = predict-IsForecast sum64 session_id k p v in
      (
        _,
        p,
        ap (with_state sum64 string_of number_of marshal marshal_rules p)
            (speculation_rules-some args p preds (rw (tame) e)),
        v,
      )

  call-Goes : (c : PageCall V) (p : DenseMatrixPredictor) → IsPredictor p → IsTame c → Goes c p
  call-Goes (records victim args) p v tame = call-records victim args p v
  call-Goes (predicts args) p v tame = call-predicts args p v tame
  call-Goes (asks_rules args) p v tame = call-asks_rules args p v tame

  run_page-Goes :
      (calls : List (PageCall V)) (p : DenseMatrixPredictor)
      → IsPredictor p
      → All IsTame calls
      → (outs : List Output) × (run_page sum64 string_of number_of marshal marshal_rules calls p
          ≡ some outs)
        × (length outs ≡ length calls)
  unfolding run_page
  run_page-Goes [] p v tame = ([], refl, refl)
  run_page-Goes (c ∷ calls) p v (tame, more) =
      let (out, p', e, v') = call-Goes c p v tame in
      let (outs, f, n) = run_page-Goes calls p' v' more in
      (out ∷ outs, rw (run_page, e, f) refl, ap suc n)

  -- From the start of the program, whatever a page calls and however often, each call gives an output and none
  -- panics, where no call of predict or getSpeculationRules asks for a negative number of predictions.
  pub run_page_total :
      (calls : List (PageCall V))
      → All IsTame calls
      → (outs : List Output) × (run_page sum64 string_of number_of marshal marshal_rules calls
            page_predictor
          ≡ some outs)
        × (length outs ≡ length calls)
  run_page_total calls tame =
      run_page-Goes calls page_predictor
        (new_dense_matrix_predictor-IsPredictor (pos 512) (pos 0) new_endpoint_registry
          IsRegistry-new (omega arith))
        tame
