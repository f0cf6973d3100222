-- ===== src/Dense/Ops/Predicting.antt =====
-- Predict answers without a panic, and its probabilities are ranked and add up to at most one.
use cache_predict.Common.{
  ℕ, zero, suc, ◌+◌, ◌*◌, ◌≤◌, ◌<◌, ◌≡◌, refl, sym, ap, false, List, some, [], ◌∷◌, leb, ◌==◌,
  arith, min, length, length-take, take, get_elem?-lt, All, All-get_elem?, Option-cases, Bool-cases,
  inl, inr,
}
use cache_predict.Common.Int.{pos}
use cache_predict.Common.Words.{Bytes}
use cache_predict.Common.Dict.{Dict}
use cache_predict.Registry.{EndpointRegistry}
use cache_predict.Dense.Matrix.{row_start}
use cache_predict.Dense.Matrix.Rows.{row_sum-le, get_elem?-get_or}
use cache_predict.Dense.Matrix.Counts.{total, row_start_lem, length_small, rows_apart}
use cache_predict.Dense.Sessions.{DenseStep, last_step, history_of}
use cache_predict.Dense.Sessions.Bounds.{IsShard, IsRoute, history_of-IsSession, All-last_step}
use cache_predict.Dense.Candidates.{Candidate, scan_row, sort_candidates}
use cache_predict.Dense.Candidates.Ranking.{
  count_sum, IsPositive, IsAtMost, IsRanked, scan_row_lem, sort_candidates-IsRanked,
  sort_candidates-All, sort_candidates-count_sum, All-take, IsRanked-take, count_sum-take,
}
use cache_predict.Dense.Ops.{
  DenseMatrixPredictor, Prediction, predictions, cut, predict_row, predict_from, predict, shard_for,
}
use cache_predict.Dense.Ops.Invariant.{IsPredictor}

-- The numerators of the probabilities together.
pub weight : List Prediction → ℕ
weight [] = 0
weight (q ∷ l) = q.count + weight l

abbrev pub IsLikely : ℕ → Prediction → Type 0
IsLikely t q = (0 < q.count) × (q.total ≡ t)

abbrev pub IsNoLikelier : ℕ → Prediction → Type 0
IsNoLikelier n q = q.count ≤ n

abbrev pub IsOrdered : List Prediction → Type 0
IsOrdered [] = Unit
IsOrdered (q ∷ l) = All (IsNoLikelier q.count) l × IsOrdered l

-- At most `k` predictions, each with a positive fraction of `t`, the likelier first, of `t` together.
pub record IsForecast (k t : ℕ) (l : List Prediction) : Type 0 where
  pub few : length l ≤ k
  pub likely : All (IsLikely t) l
  pub ordered : IsOrdered l
  pub shared : weight l ≤ t

module _ (r : EndpointRegistry) (concrete : Dict ℕ Bytes) (last : DenseStep) (t : ℕ) where
  length-predictions : (l : List Candidate) → length (predictions r concrete last t l) ≡ length l
  length-predictions [] = refl
  length-predictions (c ∷ l) = ap suc (length-predictions l)

  weight-predictions : (l : List Candidate) → weight (predictions r concrete last t l) ≡ count_sum l
  unfolding weight count_sum
  weight-predictions [] = refl
  weight-predictions (c ∷ l) = ap (λ n. c.count + n) (weight-predictions l)

  predictions-IsLikely :
      (l : List Candidate) → All IsPositive l → All (IsLikely t) (predictions r concrete last t l)
  predictions-IsLikely [] h = tt
  predictions-IsLikely (c ∷ l) h = ((h.0, refl), predictions-IsLikely l h.1)

  predictions-AtMost :
      (n : ℕ) (l : List Candidate)
      → All (IsAtMost n) l
      → All (IsNoLikelier n) (predictions r concrete last t l)
  predictions-AtMost n [] h = tt
  predictions-AtMost n (c ∷ l) h = (h.0, predictions-AtMost n l h.1)

  predictions-IsOrdered :
      (l : List Candidate) → IsRanked l → IsOrdered (predictions r concrete last t l)
  predictions-IsOrdered [] h = tt
  predictions-IsOrdered (c ∷ l) h = (predictions-AtMost c.count l h.0, predictions-IsOrdered l h.1)

cut_pos : (k : ℕ) (l : List Candidate) → cut (pos k) l ≡ some (take (min k (length l)) l)
unfolding cut
cut_pos k [] = ap some (sym (take-nil (min k 0)))
  where
    take-nil : (n : ℕ) → take {A = Candidate} n [] ≡ []
    take-nil zero = refl
    take-nil (suc n) = refl
cut_pos k (c ∷ l) = refl

IsForecast-nil : (k t : ℕ) → IsForecast k t []
unfolding weight
IsForecast-nil k t = record { few = omega arith; likely = tt; ordered = tt; shared = omega arith }

module _ (p : DenseMatrixPredictor) (v : IsPredictor p) (last : DenseStep)
    (h : last.id < p.counts.max_routes) (k : ℕ) where
  abbrev n : ℕ
  n = p.counts.max_routes

  abbrev registered : ℕ
  registered = min p.registry.count n

  predict_row_lem :
      (start : ℕ) (found : List Candidate)
      → row_start last.id p.counts ≡ start
      → scan_row start 0 registered p.counts.matrix ≡ some found
      → predict_row last (total last.id p.counts) (pos k) p
        ≡ some (
            predictions p.registry p.concrete last
              (total last.id p.counts)
              (take (min k (length (sort_candidates found))) (sort_candidates found)))
  unfolding predict_row
  predict_row_lem start found r e = rw (predict_row, r, e, cut_pos k (sort_candidates found)) refl

  predict_row-IsForecast :
      (l : List Prediction) × (predict_row last (total last.id p.counts) (pos k) p ≡ some l)
      × IsForecast k (total last.id p.counts) l
  predict_row-IsForecast =
      let sums = v.counted.sums in
      let (found, e, s, pos_all) =
        scan_row_lem (last.id * n) 0 registered p.counts.matrix (last.id * n) (omega arith)
          (omega (arith, sums.square, rows_apart last.id n n h))
          (omega (arith, length_small p.counts sums)) in
      let t = total last.id p.counts in
      let sorted = sort_candidates found in
      let best = take (min k (length sorted)) sorted in
      (
        predictions p.registry p.concrete last t best,
        predict_row_lem (last.id * n) found (row_start_lem p.counts sums last.id h) e,
        record {
          few = omega (
            arith,
            length-predictions p.registry p.concrete last t best,
            length-take (min k (length sorted)) sorted,
          );
          likely = predictions-IsLikely p.registry p.concrete last t best (
              All-take IsPositive (min k (length sorted)) sorted
                (sort_candidates-All IsPositive found pos_all));
          ordered =
              predictions-IsOrdered p.registry p.concrete last t best
                (IsRanked-take (min k (length sorted)) sorted (sort_candidates-IsRanked found));
          shared = omega (
            arith,
            weight-predictions p.registry p.concrete last t best,
            count_sum-take (min k (length sorted)) sorted,
            sort_candidates-count_sum found,
            s,
            sums.summed last.id h,
            row_sum-le p.counts.matrix (last.id * n) registered n (omega arith),
          );
        },
      )

  predict_from-IsForecast :
      (l : List Prediction) × (predict_from last (pos k) p ≡ some l)
      × IsForecast k (total last.id p.counts) l
  unfolding predict_from
  predict_from-IsForecast =
      let inside : leb n last.id ≡ false = ground arith in
      let there = get_elem?-get_or p.counts.totals last.id (omega (arith, v.counted.sums.rows)) in
      elim (Bool-cases (total last.id p.counts == 0)) [
        | inl z ↦ ([], rw (predict_from, inside, there, z) refl, IsForecast-nil k _)
        | inr z ↦
            let (l, e, f) = predict_row-IsForecast in (l, rw (predict_from, inside, there, z) e, f)
      ]

-- In a predictor that keeps its invariant Predict with a topK that is not negative never panics, and gives at
-- most topK predictions, each with a positive probability, none likelier than one in front of it, whose
-- probabilities add up to at most one.
pub predict-IsForecast :
    (sum64 : Bytes → ℕ) (session : Bytes) (k : ℕ) (p : DenseMatrixPredictor)
    → IsPredictor p
    → (l : List Prediction) × (t : ℕ) × (predict sum64 session (pos k) p ≡ some l)
      × IsForecast k t l
unfolding predict
predict-IsForecast sum64 session k p v =
    let (sessions, e) =
      get_elem?-lt p.shards (shard_for sum64 session)
        (unfold shard_for in omega (arith, v.sharded)) in
    let good =
      All-get_elem? (IsShard p.max_history p.counts.max_routes) p.shards (shard_for sum64 session)
        v.tracked e in
    elim (Option-cases (last_step (history_of session sessions))) [
      | inl q ↦ ([], 0, rw (predict, e, q) refl, IsForecast-nil k 0)
      | inr (last, q) ↦
          let below =
            All-last_step (IsRoute p.counts.max_routes) (history_of session sessions) last
              (history_of-IsSession p.max_history p.counts.max_routes session sessions good.1).1
              q in
          let (l, r, f) = predict_from-IsForecast p v last below k in
          (l, total last.id p.counts, rw (predict, e, q) r, f)
    ]
