-- ===== src/Markov.antt =====
-- predictor.go: `AdaptiveMarkovPredictor`, whose transitions and totals are maps by pattern. Counters are Go ints,
-- as their 64 bits: a weight of SeedTransition may be negative, and sums wrap around.
pub mod Counts
pub mod Invariant
pub mod Forecast
mod Runs
use cache_predict.Common.{
  ℕ, zero, suc, ◌+◌, ◌-◌, ◌%◌, ◌^◌, Bool, true, false, not, ◌&&◌, Option, none, some, List, [], ◌∷◌,
  ◌++◌, leb, ltb, if◌then◌else◌, length, drop, take, get_elem?,
}
use cache_predict.Common.Int.{ℤ, pos, negsuc, int_bits, int_lt}
use cache_predict.Common.Words.{Bytes}
use cache_predict.Common.Dict.{Dict, lookup, insert, remove, bytes_key}
use cache_predict.Common.Text.{
  codes, is_empty, contains, replace_first, split, split_once, to_upper,
}
use cache_predict.Dense.Hydrate.{is_numeric, is_uuid, is_hex_id}
use cache_predict.Dense.Ops.{Prediction}
use cache_predict.Normalizer.{normalize_route}

pub record HistoryStep : Type 0 where
  pub concrete : Bytes
  pub pattern : Bytes
  pub path : Bytes
  pub query : Bytes

pub record AdaptiveMarkovPredictor : Type 0 where
  pub max_history : ℕ
  pub max_sessions : ℕ
  pub sessions : Dict Bytes (List HistoryStep)
  pub transitions : Dict Bytes (Dict Bytes ℕ)
  pub totals : Dict Bytes ℕ

abbrev pub new_adaptive_markov_predictor : AdaptiveMarkovPredictor
new_adaptive_markov_predictor = record {
  max_history = 10;
  max_sessions = 5000;
  sessions = [];
  transitions = [];
  totals = [];
}

-- What reading a missing key of a map gives.
abbrev pub or_zero : Option ℕ → ℕ
or_zero none = 0
or_zero (some n) = n

abbrev pub or_nil {ℓ} : {A : Type ℓ} → Option (List A) → List A
or_nil none = []
or_nil (some l) = l

unfoldable pub total_of : Bytes → AdaptiveMarkovPredictor → ℕ
total_of from p = or_zero (lookup from p.totals)

unfoldable pub row_of : Bytes → AdaptiveMarkovPredictor → Dict Bytes ℕ
row_of from p = or_nil (lookup from p.transitions)

unfoldable pub past_of : Bytes → AdaptiveMarkovPredictor → List HistoryStep
past_of session p = or_nil (lookup session p.sessions)

-- p.transitions[from][to] += weight; p.totals[from] += weight
unfoldable pub add_weight : Bytes → Bytes → ℤ → AdaptiveMarkovPredictor → AdaptiveMarkovPredictor
add_weight from to weight p = record p {
  transitions =
      insert from
        (insert to ((or_zero (lookup to (row_of from p)) + int_bits weight) % 2 ^ 64)
          (row_of from p))
        p.transitions;
  totals = insert from ((total_of from p + int_bits weight) % 2 ^ 64) p.totals;
}

abbrev pub last_visit : List HistoryStep → Option HistoryStep
last_visit [] = none
last_visit (s ∷ []) = some s
last_visit (s ∷ t ∷ hist) = last_visit (t ∷ hist)

unfoldable pub count_visit :
    List HistoryStep → HistoryStep → AdaptiveMarkovPredictor → AdaptiveMarkovPredictor
count_visit hist step p = elim (last_visit hist) [
  | none ↦ p
  | some last ↦ add_weight last.pattern step.pattern (pos 1) p
]

-- The first key of `range p.sessions`, of which Go leaves the order open: `victim` chooses it.
unfoldable pub drop_session : ℕ → Dict Bytes (List HistoryStep) → Dict Bytes (List HistoryStep)
drop_session victim sessions = elim (get_elem? sessions (victim % length sessions)) [
  | none ↦ sessions
  | some entry ↦ remove entry.0 sessions
]

unfoldable pub keep_latest : ℕ → List HistoryStep → List HistoryStep
keep_latest max_history hist =
    if ltb max_history (length hist) then drop (length hist - max_history) hist else hist

-- The part of Record behind the transition.
unfoldable pub remember :
    ℕ → Bytes → List HistoryStep → HistoryStep → AdaptiveMarkovPredictor → AdaptiveMarkovPredictor
remember victim session hist step p =
    let full = leb (length hist) 0 && leb p.max_sessions (length p.sessions) in
    record p {
      sessions =
          insert session (keep_latest p.max_history (hist ++ step ∷ []))
            (if full then drop_session victim p.sessions else p.sessions);
    }

abbrev pub visit_step : Bytes → Bytes → Bytes → HistoryStep
visit_step method path query =
    let upper = to_upper method in
    record {
      concrete =
          (upper ++ (codes " " ++ path)) ++ (if is_empty query then [] else codes "?" ++ query);
      pattern = normalize_route upper path;
      path = path;
      query = query;
    }

-- Record
unfoldable pub record_visit :
    ℕ → Bytes → Bytes → Bytes → Bytes → AdaptiveMarkovPredictor → AdaptiveMarkovPredictor
record_visit victim session method path query p =
    let step = visit_step method path query in
    let hist = past_of session p in remember victim session hist step (count_visit hist step p)

-- SeedTransition
abbrev pub seed_transition : Bytes → Bytes → ℤ → AdaptiveMarkovPredictor → AdaptiveMarkovPredictor
seed_transition = add_weight

-- ResetSession
unfoldable pub forget_session : Bytes → AdaptiveMarkovPredictor → AdaptiveMarkovPredictor
forget_session session p = record p { sessions = remove session p.sessions }

-- One segment in the place of its kind of placeholder, where the path has that.
unfoldable pub put_segment : Bytes → Bytes → Option Bytes
put_segment seg path =
    if is_empty seg
    then none
    else if is_numeric seg && contains path (codes ":id")
    then some (replace_first path (codes ":id") seg)
    else if is_uuid seg && contains path (codes ":uuid")
    then some (replace_first path (codes ":uuid") seg)
    else if is_hex_id seg && contains path (codes ":hex")
    then some (replace_first path (codes ":hex") seg)
    else none

-- From the last segment on, up to the first that has a place.
unfoldable pub put_last : List Bytes → Bytes → Option Bytes
put_last [] path = none
put_last (seg ∷ segments) path = elim (put_last segments path) [
  | some filled ↦ some filled
  | none ↦ put_segment seg path
]

abbrev pub filled_or : Option Bytes → Bytes → Bytes
filled_or none path = path
filled_or (some filled) path = filled

unfoldable pub reconstruct_call : Bytes → HistoryStep → Bytes
reconstruct_call target last = elim (split_once b' ' target) [
  | none ↦ target
  | some (method, path) ↦
      let filled = filled_or (put_last (split b'/' last.path) path) path in
      let call = method ++ (codes " " ++ filled) in
      if not (is_empty last.query) && contains filled last.path
      then call ++ (codes "?" ++ last.query)
      else call
]

unfoldable pub row_predictions : ℕ → HistoryStep → Dict Bytes ℕ → List Prediction
row_predictions total last [] = []
row_predictions total last ((pattern, count) ∷ row) =
    record { call = reconstruct_call pattern last; pattern = pattern; count = count; total = total }
    ∷ row_predictions total last row

-- sort.Slice by falling probabilities, which have one denominator.
unfoldable pub insert_prediction : Prediction → List Prediction → List Prediction
insert_prediction c [] = c ∷ []
insert_prediction c (d ∷ l) =
    if int_lt c.count d.count then d ∷ insert_prediction c l else c ∷ d ∷ l

unfoldable pub sort_predictions : List Prediction → List Prediction
sort_predictions [] = []
sort_predictions (c ∷ l) = insert_prediction c (sort_predictions l)

unfoldable pub cut_predictions : ℤ → List Prediction → List Prediction
cut_predictions (pos k) preds = if ltb 0 k && ltb k (length preds) then take k preds else preds
cut_predictions (negsuc k) preds = preds

-- Predict
unfoldable pub forecast : Bytes → ℤ → AdaptiveMarkovPredictor → List Prediction
forecast session top_k p = elim (last_visit (past_of session p)) [
  | none ↦ []
  | some last ↦
      let total = total_of last.pattern p in
      if not (int_lt 0 total)
      then []
      else cut_predictions top_k
          (sort_predictions (row_predictions total last (row_of last.pattern p)))
]
