-- ===== src/Dense/Runs.antt =====
-- Runs of the dense predictor, and its theorems at concrete inputs.
use cache_predict.Common.{
  ℕ, ◌*◌, ◌≡◌, ◌≤◌, ◌⊎◌, refl, none, some, List, [], ◌∷◌, arith, length, if◌then◌else◌,
}
use cache_predict.Common.Int.{pos, negsuc}
use cache_predict.Common.Words.{Bytes}
use cache_predict.Common.Dict.{bytes_key, lookup}
use cache_predict.Common.Text.{codes, contains, split, split_once, replace_first}
use cache_predict.Normalizer.{is_digit}
use cache_predict.Registry.{new_endpoint_registry, pattern_of, invalid_route_id}
use cache_predict.Registry.Laws.{IsRegistry-new}
use cache_predict.Dense.Matrix.{TransitionMatrix, new_matrix, row_start, count_transition}
use cache_predict.Dense.Matrix.Step.{Counted, count_transition-Counted}
use cache_predict.Dense.Candidates.{scan_row, keep_positive, sort_candidates, insert_candidate}
use cache_predict.Dense.Sessions.{DenseStep, history_of}
use cache_predict.Dense.Hydrate.{
  hydrate_call, is_static, carry_query, fill_all, fill, active_ids, path_ids, take_segment,
  is_numeric, is_uuid, is_hex_id,
}
use cache_predict.Dense.Hydrate.Privacy.{hydrate_call_private}
use cache_predict.Dense.Ops.{
  DenseMatrixPredictor, Prediction, new_dense_matrix_predictor, record_request, predict,
  reset_session, shard_for, predict_from, predict_row, cut,
}
use cache_predict.Dense.Ops.Invariant.{IsPredictor, CountedAfter}
use cache_predict.Dense.Ops.Recording.{route_id, last_in, record_request-IsPredictor}
use cache_predict.Dense.Ops.Negative.{predict_negative}
use cache_predict.Dense.Ops.Predicting.{IsForecast, predict-IsForecast}
use cache_predict.Dense.Ops.Life.{
  new_matrix-IsMatrix, new_dense_matrix_predictor-IsPredictor, count_transition_wide,
  predict-reset_session,
}

abbrev by_length : Bytes → ℕ
by_length s = length s

abbrev start : DenseMatrixPredictor
start = new_dense_matrix_predictor (pos 3) (pos 2) new_endpoint_registry

start-IsPredictor : IsPredictor start
start-IsPredictor =
    new_dense_matrix_predictor-IsPredictor (pos 3) (pos 2) new_endpoint_registry IsRegistry-new
      (omega arith)

count_transition-Counted_example :
    (w : TransitionMatrix) × (count_transition 0 1 (new_matrix 2) ≡ some w)
    × Counted 0 1 (new_matrix 2) w
unfolding new_matrix
count_transition-Counted_example =
    count_transition-Counted (new_matrix 2) 0 1 (new_matrix-IsMatrix 2 (omega arith)) (omega arith)
      (omega arith)

count_transition_wide_example : count_transition 0 1 (new_matrix (0x10000 * 1)) ≡ none
count_transition_wide_example = count_transition_wide 1 0 1

-- The predictor after one request of the session.
one_request : DenseMatrixPredictor
one_request =
    (record_request-IsPredictor by_length 0 (codes "s") (codes "GET") (codes "/users") [] start
      start-IsPredictor).0

one_request-IsPredictor : IsPredictor one_request
unfolding one_request
one_request-IsPredictor =
    (record_request-IsPredictor by_length 0 (codes "s") (codes "GET") (codes "/users") [] start
      start-IsPredictor).2

record_request-IsPredictor_example :
    (w : DenseMatrixPredictor) × (record_request by_length 0
        (codes "s")
        (codes "GET")
        (codes "/users/42")
        []
        one_request
      ≡ some w)
    × IsPredictor w
    × ((((route_id by_length 0 (codes "s") (codes "GET") (codes "/users/42") [] one_request
              ≡ invalid_route_id)
            ⊎ (one_request.counts.max_routes
                ≤ route_id by_length 0
                    (codes "s")
                    (codes "GET")
                    (codes "/users/42")
                    []
                    one_request))
          × (w.counts ≡ one_request.counts))
        ⊎ CountedAfter
            (last_in (shard_for by_length (codes "s")) (codes "s") one_request.shards)
            (route_id by_length 0 (codes "s") (codes "GET") (codes "/users/42") [] one_request)
            one_request.counts
            w.counts)
record_request-IsPredictor_example =
    record_request-IsPredictor by_length 0 (codes "s") (codes "GET") (codes "/users/42") []
      one_request one_request-IsPredictor

predict-IsForecast_example :
    (l : List Prediction) × (t : ℕ) × (predict by_length (codes "s") (pos 2) one_request ≡ some l)
    × IsForecast 2 t l
predict-IsForecast_example =
    predict-IsForecast by_length (codes "s") 2 one_request one_request-IsPredictor

predict-reset_session_example :
    (w : DenseMatrixPredictor) × (reset_session by_length (codes "s") one_request ≡ some w)
    × (predict by_length (codes "t") (pos 2) w ≡ (
        if bytes_key.same (codes "s") (codes "t")
        then some []
        else predict by_length (codes "t") (pos 2) one_request))
predict-reset_session_example =
    predict-reset_session by_length (codes "s") (codes "t") (pos 2) one_request
      one_request-IsPredictor.sharded

abbrev on_item : DenseStep
on_item = record {
  id = 0;
  concrete = codes "GET /items/7";
  pattern = codes "GET /items/:id";
  path = codes "/items/7";
  query = [];
}

item_filled : hydrate_call [] 1 (codes "GET /reviews/:id") on_item ≡ codes "GET /reviews/7"
unfolding hydrate_call split_once carry_query is_static contains fill_all fill active_ids path_ids
    split take_segment is_numeric is_digit is_uuid is_hex_id replace_first
item_filled = refl

hydrate_call_private_example :
    hydrate_call ((1, codes "GET /reviews/9?x") ∷ []) 1 (codes "GET /reviews/:id") on_item
    ≡ hydrate_call [] 2 (codes "GET /reviews/:id") on_item
unfolding is_static contains
hydrate_call_private_example =
    hydrate_call_private ((1, codes "GET /reviews/9?x") ∷ []) [] 1 2 (codes "GET /reviews/:id")
      on_item refl

-- One route that has led to itself five times.
abbrev one_route : DenseMatrixPredictor
one_route = record {
  registry = record {
    patterns = (codes "GET /a", 0) ∷ [];
    reverse = codes "GET /a" ∷ [];
    count = 1;
  };
  counts = record { max_routes = 1; matrix = 5 ∷ []; totals = 5 ∷ [] };
  shards = [] ∷ ((codes "s", on_a ∷ []) ∷ []) ∷ [];
  max_history = 10;
  concrete = [];
}
  where
    on_a : DenseStep
    on_a = record {
      id = 0;
      concrete = codes "GET /a";
      pattern = codes "GET /a";
      path = codes "/a";
      query = [];
    }

abbrev a_again : Prediction
a_again = record { call = codes "GET /a"; pattern = codes "GET /a"; count = 5; total = 5 }

predicted : predict by_length (codes "s") (pos 3) one_route ≡ some (a_again ∷ [])
unfolding predict shard_for history_of predict_from predict_row scan_row row_start sort_candidates
    insert_candidate cut lookup hydrate_call split_once carry_query is_static contains fill_all fill
    active_ids path_ids split take_segment is_numeric is_digit is_uuid is_hex_id replace_first
    keep_positive pattern_of
predicted = refl

predict_negative_example : predict by_length (codes "s") (negsuc 0) one_route ≡ none
predict_negative_example = predict_negative 0 3 a_again [] one_route by_length (codes "s") predicted
