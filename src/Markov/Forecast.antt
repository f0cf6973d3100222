-- ===== src/Markov/Forecast.antt =====
-- The predictions of the map-based predictor.
use cache_predict.Common.{
  ℕ, zero, suc, ◌⊎◌, ◌+◌, ◌≡◌, ◌≤◌, ◌<◌, ◌^◌, refl, false, ◌&&◌, some, List, [], ◌∷◌, arith, ltb,
  Bool-cases, Option-cases, inl, inr, length, take, All,
}
use cache_predict.Common.Int.{ℤ, pos, negsuc, int_lt}
use cache_predict.Common.Words.{Bytes}
use cache_predict.Common.Dict.{Dict}
use cache_predict.Dense.Ops.{Prediction}
use cache_predict.Markov.{
  AdaptiveMarkovPredictor, HistoryStep, forecast, past_of, last_visit, row_predictions,
  insert_prediction, sort_predictions, cut_predictions, total_of, row_of,
}
use cache_predict.Markov.Counts.{IsBalanced, sum_counts}

unfoldable pub all_counts : List Prediction → ℕ
all_counts [] = 0
all_counts (c ∷ l) = c.count + all_counts l

abbrev pub IsFalling : List Prediction → Type 0
IsFalling [] = Unit
IsFalling (c ∷ []) = Unit
IsFalling (c ∷ d ∷ l) = (d.count ≤ c.count) × IsFalling (d ∷ l)

abbrev pub IsCut : ℤ → List Prediction → Type 0
IsCut (pos k) l = (ltb 0 k ≡ false) ⊎ (length l ≤ k)
IsCut (negsuc k) l = Unit

-- Predictions of one total, the likeliest first, whose probabilities add up to at most one.
pub record IsForecast (top_k : ℤ) (total : ℕ) (l : List Prediction) : Type 0 where
  pub one_total : All (λ c. c.total ≡ total) l
  pub at_most_one : all_counts l ≤ total
  pub falling : IsFalling l
  pub cut : IsCut top_k l

module _ (total : ℕ) where
  abbrev Of : Prediction → Type 0
  Of c = c.total ≡ total

  All-row_predictions :
      (last : HistoryStep) (row : Dict Bytes ℕ) → All Of (row_predictions total last row)
  unfolding row_predictions
  All-row_predictions last [] = tt
  All-row_predictions last ((pattern, count) ∷ row) = (refl, All-row_predictions last row)

  All-insert_prediction :
      (c : Prediction) (l : List Prediction) → Of c → All Of l → All Of (insert_prediction c l)
  unfolding insert_prediction
  All-insert_prediction c [] h t = (h, tt)
  All-insert_prediction c (d ∷ l) h (t, ts) = elim (Bool-cases (int_lt c.count d.count)) [
    | inl e ↦ rw (e) (t, All-insert_prediction c l h ts)
    | inr e ↦ rw (e) (h, (t, ts))
  ]

  All-sort_predictions : (l : List Prediction) → All Of l → All Of (sort_predictions l)
  unfolding sort_predictions
  All-sort_predictions [] h = tt
  All-sort_predictions (c ∷ l) (h, hs) =
      All-insert_prediction c (sort_predictions l) h (All-sort_predictions l hs)

  All-take : (k : ℕ) (l : List Prediction) → All Of l → All Of (take k l)
  All-take zero l h = tt
  All-take (suc k) [] h = tt
  All-take (suc k) (c ∷ l) (h, hs) = (h, All-take k l hs)

  all_counts-row_predictions :
      (last : HistoryStep) (row : Dict Bytes ℕ)
      → all_counts (row_predictions total last row) ≡ sum_counts row
  unfolding row_predictions all_counts sum_counts
  all_counts-row_predictions last [] = refl
  all_counts-row_predictions last ((pattern, count) ∷ row) =
      rw (all_counts-row_predictions last row) refl

all_counts-insert_prediction :
    (c : Prediction) (l : List Prediction)
    → all_counts (insert_prediction c l) ≡ c.count + all_counts l
unfolding insert_prediction all_counts
all_counts-insert_prediction c [] = refl
all_counts-insert_prediction c (d ∷ l) = ground (arith, all_counts-insert_prediction c l)

all_counts-sort_predictions : (l : List Prediction) → all_counts (sort_predictions l) ≡ all_counts l
unfolding sort_predictions all_counts
all_counts-sort_predictions [] = refl
all_counts-sort_predictions (c ∷ l) =
    ground
      (arith, all_counts-insert_prediction c (sort_predictions l), all_counts-sort_predictions l)

all_counts-take : (k : ℕ) (l : List Prediction) → all_counts (take k l) ≤ all_counts l
unfolding all_counts
all_counts-take zero l = omega arith
all_counts-take (suc k) [] = omega arith
all_counts-take (suc k) (c ∷ l) = omega (arith, all_counts-take k l)

-- The order in which the code sorts, of ints.
abbrev IsIntFalling : List Prediction → Type 0
IsIntFalling [] = Unit
IsIntFalling (c ∷ []) = Unit
IsIntFalling (c ∷ d ∷ l) = (int_lt c.count d.count ≡ false) × IsIntFalling (d ∷ l)

insert_prediction-IsIntFalling :
    (c : Prediction) (l : List Prediction) → IsIntFalling l → IsIntFalling (insert_prediction c l)
unfolding insert_prediction
insert_prediction-IsIntFalling c [] h = tt
insert_prediction-IsIntFalling c (d ∷ []) h = ground arith
insert_prediction-IsIntFalling c (d ∷ e ∷ l) h =
    let rest = insert_prediction-IsIntFalling c (e ∷ l) h.1 in ground (arith, rest, h)

sort_predictions-IsIntFalling : (l : List Prediction) → IsIntFalling (sort_predictions l)
unfolding sort_predictions
sort_predictions-IsIntFalling [] = tt
sort_predictions-IsIntFalling (c ∷ l) =
    insert_prediction-IsIntFalling c (sort_predictions l) (sort_predictions-IsIntFalling l)

-- Below 2 ^ 63 the order of ints is that of their bits.
int_lt-small : (a b : ℕ) → a < 2 ^ 63 → b < 2 ^ 63 → int_lt a b ≡ false → b ≤ a
int_lt-small a b h k e = ground (arith, h, k, e)

IsIntFalling-IsFalling :
    (l : List Prediction) → all_counts l < 2 ^ 63 → IsIntFalling l → IsFalling l
unfolding all_counts
IsIntFalling-IsFalling [] h f = tt
IsIntFalling-IsFalling (c ∷ []) h f = tt
IsIntFalling-IsFalling (c ∷ d ∷ l) h (f, fs) = (
  int_lt-small c.count d.count (omega arith) (omega arith) f,
  IsIntFalling-IsFalling (d ∷ l) (omega arith) fs,
)

take-IsFalling : (k : ℕ) (l : List Prediction) → IsFalling l → IsFalling (take k l)
take-IsFalling zero l h = tt
take-IsFalling (suc k) [] h = tt
take-IsFalling (suc zero) (c ∷ l) h = tt
take-IsFalling (suc (suc k)) (c ∷ []) h = tt
take-IsFalling (suc (suc k)) (c ∷ d ∷ l) (h, hs) = (h, take-IsFalling (suc k) (d ∷ l) hs)

take_short : (k : ℕ) (l : List Prediction) → length (take k l) ≤ k
take_short zero l = omega arith
take_short (suc k) [] = omega arith
take_short (suc k) (c ∷ l) = omega (arith, take_short k l)

cut_predictions-IsForecast :
    (top_k : ℤ) (total : ℕ) (l : List Prediction)
    → All (λ c. c.total ≡ total) l
    → all_counts l ≤ total
    → IsFalling l
    → IsForecast top_k total (cut_predictions top_k l)
unfolding cut_predictions
cut_predictions-IsForecast (pos k) total l one most falling =
    elim (Bool-cases (ltb 0 k && ltb k (length l))) [
      | inl e ↦ rw (e) (record {
        one_total = All-take total k l one;
        at_most_one = omega (arith, most, all_counts-take k l);
        falling = take-IsFalling k l falling;
        cut = inr (take_short k l);
      })
      | inr e ↦ rw (e) (record {
        one_total = one;
        at_most_one = most;
        falling = falling;
        cut = ground (arith, e);
      })
    ]
cut_predictions-IsForecast (negsuc k) total l one most falling = record {
  one_total = one;
  at_most_one = most;
  falling = falling;
  cut = tt;
}

-- In a map-based predictor whose totals are the sums of their rows as Go's ints add up, where a pattern's
-- counters are not negative and their sum is an int (is below 2 ^ 63): Predict gives nothing, or the session
-- has a last step, all predictions have the total of its pattern, their counters add up to at most that
-- total, the likeliest is first, and a positive topK is no less than their number.
pub forecast-IsForecast :
    (session : Bytes) (top_k : ℤ) (p : AdaptiveMarkovPredictor)
    → IsBalanced p
    → ((from : Bytes) → sum_counts (row_of from p) < 2 ^ 63)
    → (forecast session top_k p ≡ [])
      ⊎ ((last : HistoryStep) × (last_visit (past_of session p) ≡ some last)
          × IsForecast top_k (total_of last.pattern p) (forecast session top_k p))
unfolding forecast
forecast-IsForecast session top_k p balanced small =
    elim (Option-cases (last_visit (past_of session p))) [
      | inl e ↦ inl (rw (forecast, e) refl)
      | inr (last, e) ↦ elim (Bool-cases (int_lt 0 (total_of last.pattern p))) [
        | inr f ↦ inl (rw (forecast, e, f) refl)
        | inl f ↦
            let total = total_of last.pattern p in
            let row = row_predictions total last (row_of last.pattern p) in
            let sum : all_counts (sort_predictions row) ≡ sum_counts (row_of last.pattern p) =
              rw
                (
                  all_counts-sort_predictions row,
                  all_counts-row_predictions total last (row_of last.pattern p),
                )
                refl in
            let fits = small last.pattern in
            inr (
              last,
              e,
              rw (forecast, e, f)
                  (cut_predictions-IsForecast top_k total (sort_predictions row)
                    (All-sort_predictions total row
                      (All-row_predictions total last (row_of last.pattern p)))
                    (omega (arith, sum, fits, balanced last.pattern))
                    (IsIntFalling-IsFalling (sort_predictions row) (omega (arith, sum, fits))
                      (sort_predictions-IsIntFalling row))),
            )
      ]
    ]
