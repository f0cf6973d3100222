-- ===== src/Dense/Ops/Life.antt =====
-- New predictors, and the end of a session.
use cache_predict.Common.{
  ℕ, zero, suc, ◌+◌, ◌*◌, ◌%◌, ◌^◌, ◌≤◌, ◌<◌, ◌≡◌, refl, sym, ◌∙◌, ap, Option, List, none, some, [],
  ◌==◌, ==_iff, arith, if◌then◌else◌, length, length-replicate, replicate, get_elem?, get_elem?-lt,
  get_elem?-set_self, get_elem?-set_ne, get_or, set, All-replicate, Bool-cases, inl, inr,
}
use cache_predict.Common.Int.{ℤ}
use cache_predict.Common.Words.{Bytes}
use cache_predict.Common.Dict.{remove, bytes_key, lookup-remove}
use cache_predict.Registry.{EndpointRegistry}
use cache_predict.Registry.Laws.{IsRegistry}
use cache_predict.Dense.Matrix.{new_matrix, count_transition}
use cache_predict.Dense.Matrix.Rows.{row_sum}
use cache_predict.Dense.Matrix.Counts.{IsMatrix, small_square}
use cache_predict.Dense.Sessions.{History, Sessions, last_step, history_of}
use cache_predict.Dense.Sessions.Bounds.{IsShard}
use cache_predict.Dense.Ops.{
  DenseMatrixPredictor, Prediction, num_session_shards, positive_field, new_dense_matrix_predictor,
  predict_row, predict_from, predict, shard_for, reset_session,
}
use cache_predict.Dense.Ops.Invariant.{IsPredictor}

get_or-zeros : (n i : ℕ) → get_or {A = ℕ} (replicate n 0) i 0 ≡ 0
get_or-zeros zero i = refl
get_or-zeros (suc n) zero = refl
get_or-zeros (suc n) (suc i) = get_or-zeros n i

row_sum-zeros : (k start n : ℕ) → row_sum (replicate k 0) start n ≡ 0
unfolding row_sum
row_sum-zeros k start zero = refl
row_sum-zeros k start (suc n) = omega (arith, get_or-zeros k start, row_sum-zeros k (start + 1) n)

pub new_matrix-IsMatrix : (n : ℕ) → n ≤ 0xffff → IsMatrix (new_matrix n)
unfolding new_matrix
new_matrix-IsMatrix n h =
    let square : n * n % 2 ^ 32 ≡ n * n = omega (arith, small_square n h) in
    record {
      sums = record {
        narrow = h;
        square = length-replicate (n * n % 2 ^ 32) 0 ∙ square;
        rows = length-replicate n 0;
        summed = λ f l. get_or-zeros n f ∙ sym (row_sum-zeros (n * n % 2 ^ 32) (f * n) n);
      };
      low = λ f l. omega (arith, get_or-zeros n f);
    }

-- With a registry that keeps its invariant, and a MaxRoutes of at most 65535, a new predictor keeps its own.
pub new_dense_matrix_predictor-IsPredictor :
    (max_routes max_history : ℤ) (r : EndpointRegistry)
    → IsRegistry r
    → positive_field max_routes 1024 ≤ 0xffff
    → IsPredictor (new_dense_matrix_predictor max_routes max_history r)
unfolding new_dense_matrix_predictor new_matrix
new_dense_matrix_predictor-IsPredictor max_routes max_history r v h = record {
  registered = v;
  counted = new_matrix-IsMatrix (positive_field max_routes 1024 % 2 ^ 32) (omega arith);
  sharded = length-replicate {A = Sessions} num_session_shards [];
  tracked =
      All-replicate
        (IsShard (positive_field max_history 10) (positive_field max_routes 1024 % 2 ^ 32))
        num_session_shards [] (omega arith, tt);
  static_only = tt;
}

-- With a MaxRoutes that is a multiple of 65536 the matrix has no cells, since its size wraps around to
-- zero, and the first transition that is counted panics.
pub count_transition_wide : (k f t : ℕ) → count_transition f t (new_matrix (0x10000 * k)) ≡ none
unfolding count_transition new_matrix
count_transition_wide k f t =
    let empty : 0x10000 * k * (0x10000 * k) % 2 ^ 32 ≡ 0 = omega arith in
    rw (count_transition, empty) refl

history_of-remove :
    (session other : Bytes) (sessions : Sessions)
    → history_of other (remove session sessions)
      ≡ (if bytes_key.same session other then [] else history_of other sessions)
unfolding history_of
history_of-remove session other sessions = elim (Bool-cases (bytes_key.same session other)) [
  | inl e ↦ rw (history_of, lookup-remove, e) refl
  | inr e ↦ rw (history_of, lookup-remove, e) refl
]

module _ (sum64 : Bytes → ℕ) (session other : Bytes) (top_k : ℤ) where
  shard_for-lt :
      (p : DenseMatrixPredictor)
      → length p.shards ≡ num_session_shards
      → (s : Bytes) → shard_for sum64 s < length p.shards
  unfolding shard_for
  shard_for-lt p h s = omega (arith, h)

  answer : History → DenseMatrixPredictor → Option (List Prediction)
  answer hist p = elim (last_step hist) [ none ↦ some [] | some last ↦ predict_from last top_k p ]

  predict_lem :
      (p : DenseMatrixPredictor) (sessions : Sessions) (hist : History)
      → get_elem? p.shards (shard_for sum64 other) ≡ some sessions
      → history_of other sessions ≡ hist
      → predict sum64 other top_k p ≡ answer hist p
  unfolding predict answer
  predict_lem p sessions hist e q = rw (predict, e, q) refl

  abbrev with_shards : List Sessions → DenseMatrixPredictor → DenseMatrixPredictor
  with_shards shards p = record {
    registry = p.registry;
    counts = p.counts;
    shards = shards;
    max_history = p.max_history;
    concrete = p.concrete;
  }

  -- Predict reads the shards for the history only.
  answer-with_shards :
      (hist : History) (shards : List Sessions) (p : DenseMatrixPredictor)
      → answer hist (with_shards shards p) ≡ answer hist p
  unfolding answer predict_from predict_row
  answer-with_shards hist shards p = refl

  predict-with_shards :
      (p : DenseMatrixPredictor) (shards : List Sessions) (now before : Sessions)
      → get_elem? shards (shard_for sum64 other) ≡ some now
      → get_elem? p.shards (shard_for sum64 other) ≡ some before
      → history_of other now ≡ history_of other before
      → predict sum64 other top_k (with_shards shards p) ≡ predict sum64 other top_k p
  predict-with_shards p shards now before e d same =
      predict_lem (with_shards shards p) now (history_of other before) e same
      ∙ answer-with_shards (history_of other before) shards p
      ∙ sym (predict_lem p before (history_of other before) d refl)

  -- ResetSession ends one session: then nothing is predicted for it, and for every other session what was
  -- predicted before.
  pub predict-reset_session :
      (p : DenseMatrixPredictor)
      → length p.shards ≡ num_session_shards
      → (w : DenseMatrixPredictor) × (reset_session sum64 session p ≡ some w)
        × (predict sum64 other top_k w
            ≡ (if bytes_key.same session other then some [] else predict sum64 other top_k p))
  unfolding reset_session answer
  predict-reset_session p h =
      let mine = shard_for sum64 session in
      let theirs = shard_for sum64 other in
      let (sessions, e) = get_elem?-lt p.shards mine (shard_for-lt p h session) in
      let shards = set p.shards mine (remove session sessions) in
      let self =
        get_elem?-set_self p.shards mine (remove session sessions) (shard_for-lt p h session) in
      (
        with_shards shards p,
        rw (reset_session, e) refl,
        elim (Bool-cases (bytes_key.same session other)) [
          | inl s ↦
              let eq : session ≡ other = (bytes_key.same_iff session other).0 s in
              let here : get_elem? shards theirs ≡ some (remove session sessions) =
                ap (λ o. get_elem? shards (shard_for sum64 o)) (sym eq) ∙ self in
              predict_lem (with_shards shards p) (remove session sessions) [] here
                (history_of-remove session other sessions ∙ rw s refl)
              ∙ sym (rw s refl)
          | inr s ↦ elim (Bool-cases (mine == theirs)) [
            | inl q ↦
                let eq : mine ≡ theirs = (==_iff mine theirs).0 q in
                predict-with_shards p shards (remove session sessions) sessions
                  (ap (get_elem? shards) (sym eq) ∙ self) (ap (get_elem? p.shards) (sym eq) ∙ e)
                  (history_of-remove session other sessions ∙ rw s refl)
                ∙ sym (rw s refl)
            | inr q ↦
                let (there, d) = get_elem?-lt p.shards theirs (shard_for-lt p h other) in
                predict-with_shards p shards there there
                  (get_elem?-set_ne p.shards mine theirs (remove session sessions)
                      (λ z. ground arith)
                    ∙ d)
                  d refl
                ∙ sym (rw s refl)
          ]
        ],
      )
