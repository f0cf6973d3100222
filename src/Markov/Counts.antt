-- ===== src/Markov/Counts.antt =====
-- The counters of a row, and their sum.
use cache_predict.Common.{ℕ, ◌+◌, ◌%◌, ◌^◌, ◌≡◌, [], ◌∷◌, arith, if◌then◌else◌}
use cache_predict.Common.Int.{ℤ, int_bits}
use cache_predict.Common.Words.{Bytes}
use cache_predict.Common.Dict.{Dict, lookup, insert, lookup-insert, bytes_key}
use cache_predict.Markov.{AdaptiveMarkovPredictor, or_zero, total_of, row_of, add_weight}

unfoldable pub sum_counts : Dict Bytes ℕ → ℕ
sum_counts [] = 0
sum_counts ((to, count) ∷ row) = count + sum_counts row

sum_counts-insert :
    (to : Bytes) (weight : ℕ) (row : Dict Bytes ℕ)
    → sum_counts (insert to ((or_zero (lookup to row) + weight) % 2 ^ 64) row) % 2 ^ 64
      ≡ (sum_counts row + weight) % 2 ^ 64
unfolding sum_counts insert lookup
sum_counts-insert to weight [] = omega arith
sum_counts-insert to weight ((b, n) ∷ row) = ground (arith, sum_counts-insert to weight row)

-- Each total is the sum of its row's counters, as Go's ints add up.
abbrev pub IsBalanced : AdaptiveMarkovPredictor → Type 0
IsBalanced p = (from : Bytes) → total_of from p ≡ sum_counts (row_of from p) % 2 ^ 64

total_of-add_weight :
    (from to other : Bytes) (weight : ℤ) (p : AdaptiveMarkovPredictor)
    → total_of other (add_weight from to weight p) ≡ (
        if bytes_key.same from other
        then (total_of from p + int_bits weight) % 2 ^ 64
        else total_of other p)
unfolding add_weight total_of
total_of-add_weight from to other weight p =
    ground (arith, lookup-insert from other ((total_of from p + int_bits weight) % 2 ^ 64) p.totals)

sum_counts-add_weight :
    (from to other : Bytes) (weight : ℤ) (p : AdaptiveMarkovPredictor)
    → sum_counts (row_of other (add_weight from to weight p)) % 2 ^ 64 ≡ (
        if bytes_key.same from other
        then (sum_counts (row_of from p) + int_bits weight) % 2 ^ 64
        else sum_counts (row_of other p) % 2 ^ 64)
unfolding add_weight row_of
sum_counts-add_weight from to other weight p =
    let row =
      insert to ((or_zero (lookup to (row_of from p)) + int_bits weight) % 2 ^ 64)
        (row_of from p) in
    ground (
      arith,
      lookup-insert from other row p.transitions,
      sum_counts-insert to (int_bits weight) (row_of from p),
    )

pub add_weight-IsBalanced :
    (from to : Bytes) (weight : ℤ) (p : AdaptiveMarkovPredictor)
    → IsBalanced p
    → IsBalanced (add_weight from to weight p)
add_weight-IsBalanced from to weight p balanced other = ground (
  arith,
  total_of-add_weight from to other weight p,
  sum_counts-add_weight from to other weight p,
  balanced from,
  balanced other,
)
