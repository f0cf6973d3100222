-- ===== src/Wasm.antt =====
-- cmd/wasm/main.go: the functions that a page calls, over the dense predictor of one session. A value of
-- JavaScript is of a type `V`; `string_of` is its String method, and `number_of` its Int where its type is
-- a number. json.Marshal is an argument, `none` for an error; a nil slice is an empty one here. A
-- panic is `none`.
pub mod Safety
mod Runs
use cache_predict.Common.{ℕ, Option, none, some, List, [], ◌∷◌, map}
use cache_predict.Common.Int.{ℤ, pos}
use cache_predict.Common.Words.{Bytes}
use cache_predict.Common.Text.{codes}
use cache_predict.ClientAssets.{call_url}
use cache_predict.Dense.Ops.{
  DenseMatrixPredictor, Prediction, new_dense_matrix_predictor, record_request, predict,
}
use cache_predict.Prefetcher.{split_uri}
use cache_predict.Registry.{new_endpoint_registry}

-- The package's variables.
abbrev pub page_predictor : DenseMatrixPredictor
page_predictor = new_dense_matrix_predictor (pos 512) (pos 0) new_endpoint_registry

abbrev pub session_id : Bytes
session_id = codes "browser_client"

-- The map of speculationRules.
pub record Rules : Type 0 where
  pub source : Bytes
  pub urls : List Bytes
  pub eagerness : Bytes

pub data Output : Type 0 where
  nothing : Output
  text : Bytes → Output

unfoldable pub rules_of : List Prediction → Rules
rules_of preds = record {
  source = codes "list";
  urls = map (λ (p : Prediction). call_url p.call) preds;
  eagerness = codes "moderate";
}

-- The text, or what stands for it when json.Marshal fails.
abbrev pub text_or : Bytes → Option Bytes → Output
text_or default none = text default
text_or default (some out) = text out

-- A call by the page. `victim` is the session that a full shard would give up.
pub data PageCall (V : Type 0) : Type 0 where
  records : (victim : ℕ) → List V → PageCall V
  predicts : List V → PageCall V
  asks_rules : List V → PageCall V

module _ (sum64 : Bytes → ℕ) {V : Type 0} (string_of : V → Bytes) (number_of : V → Option ℤ)
    (marshal : List Prediction → Option Bytes) (marshal_rules : Rules → Option Bytes) where
  unfoldable pub record_page : ℕ → List V → DenseMatrixPredictor → Option DenseMatrixPredictor
  record_page victim (method ∷ full ∷ args) p =
      let (path, query) = split_uri (string_of full) in
      record_request sum64 victim session_id (string_of method) path query p
  record_page victim args p = some p

  unfoldable pub top_k_of : List V → ℤ
  top_k_of [] = pos 3
  top_k_of (v ∷ args) = elim (number_of v) [ none ↦ pos 3 | some k ↦ k ]

  unfoldable pub predict_json : List V → DenseMatrixPredictor → Option Output
  predict_json args p = elim (predict sum64 session_id (top_k_of args) p) [
    | none ↦ none
    | some preds ↦ some (text_or (codes "[]") (marshal preds))
  ]

  unfoldable pub speculation_rules : List V → DenseMatrixPredictor → Option Output
  speculation_rules args p = elim (predict sum64 session_id (top_k_of args) p) [
    | none ↦ none
    | some preds ↦ some (text_or (codes "{}") (marshal_rules (rules_of preds)))
  ]

  abbrev pub with_state :
      DenseMatrixPredictor → Option Output → Option (Output × DenseMatrixPredictor)
  with_state p none = none
  with_state p (some out) = some (out, p)

  abbrev recorded : Option DenseMatrixPredictor → Option (Output × DenseMatrixPredictor)
  recorded none = none
  recorded (some p) = some (nothing, p)

  abbrev pub call : PageCall V → DenseMatrixPredictor → Option (Output × DenseMatrixPredictor)
  call (records victim args) p = recorded (record_page victim args p)
  call (predicts args) p = with_state p (predict_json args p)
  call (asks_rules args) p = with_state p (speculation_rules args p)

  -- The outputs of a page's calls in a row, unless one of them panics.
  unfoldable pub run_page : List (PageCall V) → DenseMatrixPredictor → Option (List Output)
  run_page [] p = some []
  run_page (c ∷ calls) p = elim (call c p) [
    | none ↦ none
    | some (out, p') ↦ elim (run_page calls p') [ none ↦ none | some outs ↦ some (out ∷ outs) ]
  ]
