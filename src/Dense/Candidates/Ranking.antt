-- ===== src/Dense/Candidates/Ranking.antt =====
-- What the scan of a row finds, and its order after the sort.
use cache_predict.Common.{
  ℕ, zero, suc, ◌+◌, ◌%◌, ◌^◌, ◌≤◌, ◌<◌, ◌≡◌, refl, sym, ◌∙◌, ap, some, List, [], ◌∷◌, arith, ltb,
  length, get_or, take, All, if_cases,
}
use cache_predict.Dense.Matrix.Rows.{row_sum, row_sum-zero, row_sum-suc, get_elem?-get_or}
use cache_predict.Dense.Candidates.{
  Candidate, keep_positive, scan_row, insert_candidate, sort_candidates,
}

-- The counts of the candidates together.
unfoldable pub count_sum : List Candidate → ℕ
count_sum [] = 0
count_sum (c ∷ l) = c.count + count_sum l

abbrev pub IsPositive : Candidate → Type 0
IsPositive c = 0 < c.count

abbrev pub IsAtMost : ℕ → Candidate → Type 0
IsAtMost n c = c.count ≤ n

-- No count is greater than one in front of it.
abbrev pub IsRanked : List Candidate → Type 0
IsRanked [] = Unit
IsRanked (c ∷ l) = All (IsAtMost c.count) l × IsRanked l

keep_positive-count_sum :
    (to_id count : ℕ) (rest : List Candidate)
    → count_sum (keep_positive to_id count rest) ≡ count + count_sum rest
unfolding keep_positive count_sum
keep_positive-count_sum to_id count rest = ground arith

keep_positive-IsPositive :
    (to_id count : ℕ) (rest : List Candidate)
    → All IsPositive rest
    → All IsPositive (keep_positive to_id count rest)
unfolding keep_positive
keep_positive-IsPositive to_id count rest h =
    if_cases (All IsPositive) (ltb 0 count) _ _ (λ e. (ground arith, h)) (λ _. h)

scan_row-step :
    (start to_id n : ℕ) (cells : List ℕ) (p : ℕ) (rest : List Candidate)
    → (start + to_id) % 2 ^ 32 ≡ p
    → p < length cells
    → scan_row start (to_id + 1) n cells ≡ some rest
    → scan_row start to_id (suc n) cells ≡ some (keep_positive to_id (get_or cells p 0) rest)
unfolding scan_row
scan_row-step start to_id n cells p rest index fits e =
    rw (scan_row, index, get_elem?-get_or cells p fits, e) refl

-- The scan stays in the row, and the candidates' counts add up to the part that it reads.
pub scan_row_lem :
    (start to_id n : ℕ) (cells : List ℕ) (p : ℕ)
    → p ≡ start + to_id
    → p + n ≤ length cells
    → length cells ≤ 2 ^ 32
    → (found : List Candidate) × (scan_row start to_id n cells ≡ some found)
      × (count_sum found ≡ row_sum cells p n)
      × All IsPositive found
unfolding scan_row
scan_row_lem start to_id zero cells p here fits small =
    ([], refl, unfold count_sum in sym (row_sum-zero cells p), tt)
scan_row_lem start to_id (suc n) cells p here fits small =
    let index : (start + to_id) % 2 ^ 32 ≡ p = omega arith in
    let (rest, e, s, h) =
      scan_row_lem start (to_id + 1) n cells (p + 1) (omega arith) (omega arith) small in
    (
      keep_positive to_id (get_or cells p 0) rest,
      scan_row-step start to_id n cells p rest index (omega arith) e,
      omega
          (arith, keep_positive-count_sum to_id (get_or cells p 0) rest, row_sum-suc cells p n, s),
      keep_positive-IsPositive to_id (get_or cells p 0) rest h,
    )

insert_candidate-count_sum :
    (c : Candidate) (l : List Candidate) → count_sum (insert_candidate c l) ≡ c.count + count_sum l
unfolding insert_candidate count_sum
insert_candidate-count_sum c [] = refl
insert_candidate-count_sum c (d ∷ l) = ground (arith, insert_candidate-count_sum c l)

insert_candidate-All :
    (P : Candidate → Type 0) (c : Candidate) (l : List Candidate)
    → P c
    → All P l
    → All P (insert_candidate c l)
unfolding insert_candidate
insert_candidate-All P c [] p h = (p, tt)
insert_candidate-All P c (d ∷ l) p h =
    if_cases (All P) (ltb c.count d.count) _ _ (λ _. (h.0, insert_candidate-All P c l p h.1))
      (λ _. (p, h))

All-AtMost : (m n : ℕ) (l : List Candidate) → m ≤ n → All (IsAtMost m) l → All (IsAtMost n) l
All-AtMost m n [] k h = tt
All-AtMost m n (c ∷ l) k h = (omega (arith, h.0), All-AtMost m n l k h.1)

insert_candidate-IsRanked :
    (c : Candidate) (l : List Candidate) → IsRanked l → IsRanked (insert_candidate c l)
unfolding insert_candidate
insert_candidate-IsRanked c [] h = (tt, tt)
insert_candidate-IsRanked c (d ∷ l) h =
    if_cases IsRanked (ltb c.count d.count) _ _
      (λ e. (
        insert_candidate-All (IsAtMost d.count) c l (ground arith) h.0,
        insert_candidate-IsRanked c l h.1,
      ))
      (λ e. ((ground arith, All-AtMost d.count c.count l (ground arith) h.0), h))

-- The sort ranks its candidates, keeps what holds of all of them, their counts and their number.
pub sort_candidates-IsRanked : (l : List Candidate) → IsRanked (sort_candidates l)
unfolding sort_candidates
sort_candidates-IsRanked [] = tt
sort_candidates-IsRanked (c ∷ l) =
    insert_candidate-IsRanked c (sort_candidates l) (sort_candidates-IsRanked l)

pub sort_candidates-All :
    (P : Candidate → Type 0) (l : List Candidate) → All P l → All P (sort_candidates l)
unfolding sort_candidates
sort_candidates-All P [] h = tt
sort_candidates-All P (c ∷ l) h =
    insert_candidate-All P c (sort_candidates l) h.0 (sort_candidates-All P l h.1)

pub sort_candidates-count_sum : (l : List Candidate) → count_sum (sort_candidates l) ≡ count_sum l
unfolding sort_candidates count_sum
sort_candidates-count_sum [] = refl
sort_candidates-count_sum (c ∷ l) =
    insert_candidate-count_sum c (sort_candidates l)
    ∙ ap (λ n. c.count + n) (sort_candidates-count_sum l)

pub All-take : (P : Candidate → Type 0) (n : ℕ) (l : List Candidate) → All P l → All P (take n l)
All-take P zero l h = tt
All-take P (suc n) [] h = tt
All-take P (suc n) (c ∷ l) h = (h.0, All-take P n l h.1)

pub IsRanked-take : (n : ℕ) (l : List Candidate) → IsRanked l → IsRanked (take n l)
IsRanked-take zero l h = tt
IsRanked-take (suc n) [] h = tt
IsRanked-take (suc n) (c ∷ l) h = (All-take (IsAtMost c.count) n l h.0, IsRanked-take n l h.1)

pub count_sum-take : (n : ℕ) (l : List Candidate) → count_sum (take n l) ≤ count_sum l
unfolding count_sum
count_sum-take zero l = omega arith
count_sum-take (suc n) [] = omega arith
count_sum-take (suc n) (c ∷ l) = omega (arith, count_sum-take n l)
