-- ===== src/Dense/Ops.antt =====
-- The operations of DenseMatrixPredictor. A panic is `none`. `sum64` is the xxhash digest of a session's
-- id, and `victim` chooses the session that a full shard gives up.
pub mod Invariant
pub mod Life
pub mod Negative
pub mod Predicting
pub mod Recording
use cache_predict.Common.{
  ℕ, ◌+◌, ◌%◌, ◌^◌, Bool, true, false, not, ◌&&◌, ◌||◌, Option, none, some, List, [], ◌∷◌, ◌++◌,
  map, leb, ltb, ◌==◌, min, if◌then◌else◌, length, get_elem?, get_or, set, take, replicate,
}
use cache_predict.Common.Int.{ℤ, pos, negsuc}
use cache_predict.Common.Words.{Bytes}
use cache_predict.Common.Dict.{Dict, insert, remove, number_key, bytes_key}
use cache_predict.Common.Text.{codes, is_empty, to_upper}
use cache_predict.Registry.{
  EndpointRegistry, get_or_register, pattern_of, invalid_route_id, new_endpoint_registry,
}
use cache_predict.Normalizer.{normalize_route}
use cache_predict.Dense.Matrix.{TransitionMatrix, new_matrix, row_start, count_transition}
use cache_predict.Dense.Sessions.{DenseStep, History, Sessions, last_step, history_of, track}
use cache_predict.Dense.Hydrate.{is_static, hydrate_call}
use cache_predict.Dense.Candidates.{Candidate, scan_row, sort_candidates}

pub record DenseMatrixPredictor : Type 0 where
  pub registry : EndpointRegistry
  pub counts : TransitionMatrix
  pub shards : List Sessions
  pub max_history : ℕ
  pub concrete : Dict ℕ Bytes

abbrev pub num_session_shards : ℕ
num_session_shards = 64

-- cfg.MaxRoutes and cfg.MaxHistory, where they are positive
abbrev pub positive_field : ℤ → ℕ → ℕ
positive_field (pos n) default = if ltb 0 n then n else default
positive_field (negsuc n) default = default

-- NewDenseMatrixPredictor; without a configuration the fields are zero and the registry is new.
unfoldable pub new_dense_matrix_predictor : ℤ → ℤ → EndpointRegistry → DenseMatrixPredictor
new_dense_matrix_predictor max_routes max_history registry = record {
  registry = registry;
  counts = new_matrix (positive_field max_routes 1024 % 2 ^ 32);
  shards = replicate num_session_shards [];
  max_history = positive_field max_history 10;
  concrete = [];
}

pub record Prediction : Type 0 where
  pub call : Bytes
  pub pattern : Bytes
  -- Probability is `float64(count) / float64(total)`, and stays the fraction here; `count` is the 64 bits
  -- of an int, which the dense predictor's counters never make negative.
  pub count : ℕ
  pub total : ℕ

unfoldable pub concrete_call : Bytes → Bytes → Bytes → Bytes
concrete_call method path query =
    (method ++ (codes " " ++ path)) ++ (if is_empty query then [] else codes "?" ++ query)

-- The counting part of Record: `prior` is the last step before this one.
unfoldable pub count_step : Option DenseStep → ℕ → TransitionMatrix → Option TransitionMatrix
count_step none to_id counts = some counts
count_step (some prior) to_id counts =
    let counted = count_transition prior.id to_id counts in
    if ltb prior.id counts.max_routes then counted else some counts

unfoldable pub remember_concrete : ℕ → DenseStep → Dict ℕ Bytes → Dict ℕ Bytes
remember_concrete id step concrete =
    if is_static step.pattern then insert id step.concrete concrete else concrete

-- Record's part behind the registration, for a route that the matrix has.
unfoldable pub record_step :
    ℕ → ℕ → Bytes → DenseStep → DenseMatrixPredictor → Option DenseMatrixPredictor
record_step victim shard session step p = elim (get_elem? p.shards shard) [
  | none ↦ none
  | some sessions ↦ elim (count_step (last_step (history_of session sessions)) step.id p.counts) [
    | none ↦ none
    | some counts ↦ some (record {
      registry = p.registry;
      counts = counts;
      shards = set p.shards shard (track victim p.max_history session step sessions);
      max_history = p.max_history;
      concrete = remember_concrete step.id step p.concrete;
    })
  ]
]

abbrev pub with_registry : EndpointRegistry → DenseMatrixPredictor → DenseMatrixPredictor
with_registry r p = record {
  registry = r;
  counts = p.counts;
  shards = p.shards;
  max_history = p.max_history;
  concrete = p.concrete;
}

abbrev pub predictions :
    EndpointRegistry → Dict ℕ Bytes → DenseStep → ℕ → List Candidate → List Prediction
predictions registry concrete last total [] = []
predictions registry concrete last total (c ∷ l) =
    record {
      call = hydrate_call concrete c.to_id (pattern_of c.to_id registry) last;
      pattern = pattern_of c.to_id registry;
      count = c.count;
      total = total;
    }
    ∷ predictions registry concrete last total l

-- The cut by topK: a negative one is a capacity that `make` refuses.
unfoldable pub cut : ℤ → List Candidate → Option (List Candidate)
cut top_k [] = some []
cut (pos k) (c ∷ l) = some (take (min k (length (c ∷ l))) (c ∷ l))
cut (negsuc k) (c ∷ l) = none

-- Predict from the last step, on a row with transitions.
unfoldable pub predict_row : DenseStep → ℕ → ℤ → DenseMatrixPredictor → Option (List Prediction)
predict_row last total top_k p =
    let registered = min p.registry.count p.counts.max_routes in
    elim (scan_row (row_start last.id p.counts) 0 registered p.counts.matrix) [
      | none ↦ none
      | some found ↦ elim (cut top_k (sort_candidates found)) [
        | none ↦ none
        | some best ↦ some (predictions p.registry p.concrete last total best)
      ]
    ]

unfoldable pub predict_from : DenseStep → ℤ → DenseMatrixPredictor → Option (List Prediction)
predict_from last top_k p =
    if leb p.counts.max_routes last.id then some [] else elim (get_elem? p.counts.totals last.id) [
      | none ↦ none
      | some total ↦ if total == 0 then some [] else predict_row last total top_k p
    ]

module _ (sum64 : Bytes → ℕ) where
  unfoldable pub shard_for : Bytes → ℕ
  shard_for session = sum64 session % num_session_shards

  -- Record
  unfoldable pub record_request :
      ℕ → Bytes → Bytes → Bytes → Bytes → DenseMatrixPredictor → Option DenseMatrixPredictor
  record_request victim session method path query p =
      let upper = to_upper method in
      let pattern = normalize_route upper path in
      let (to_id, registry) = get_or_register pattern p.registry in
      let step : DenseStep = record {
        id = to_id;
        concrete = concrete_call upper path query;
        pattern = pattern;
        path = path;
        query = query;
      } in
      if (to_id == invalid_route_id) || leb p.counts.max_routes to_id
      then some (with_registry registry p)
      else record_step victim (shard_for session) session step (with_registry registry p)

  -- Predict
  unfoldable pub predict : Bytes → ℤ → DenseMatrixPredictor → Option (List Prediction)
  predict session top_k p = elim (get_elem? p.shards (shard_for session)) [
    | none ↦ none
    | some sessions ↦ elim (last_step (history_of session sessions)) [
      | none ↦ some []
      | some last ↦ predict_from last top_k p
    ]
  ]

  -- ResetSession
  unfoldable pub reset_session : Bytes → DenseMatrixPredictor → Option DenseMatrixPredictor
  reset_session session p = elim (get_elem? p.shards (shard_for session)) [
    | none ↦ none
    | some sessions ↦ some (record {
      registry = p.registry;
      counts = p.counts;
      shards = set p.shards (shard_for session) (remove session sessions);
      max_history = p.max_history;
      concrete = p.concrete;
    })
  ]
