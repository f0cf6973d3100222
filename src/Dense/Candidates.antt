-- ===== src/Dense/Candidates.antt =====
-- Predict's scan of a row, its sort and its cut.

pub mod Ranking
use cache_predict.Common.{
  ℕ, zero, suc, ◌+◌, ◌%◌, ◌^◌, Option, none, some, List, [], ◌∷◌, ltb, if◌then◌else◌, get_elem?,
  take, map,
}

pub record Candidate : Type 0 where
  pub to_id : ℕ
  pub count : ℕ

-- One counter of the row, kept if it is positive.
unfoldable pub keep_positive : ℕ → ℕ → List Candidate → List Candidate
keep_positive to_id count rest =
    if ltb 0 count then record { to_id = to_id % 2 ^ 16; count = count } ∷ rest else rest

-- `n` counters of the row, from `to_id` on; `none` is an index out of range.
unfoldable pub scan_row : ℕ → ℕ → ℕ → List ℕ → Option (List Candidate)
scan_row start to_id zero cells = some []
scan_row start to_id (suc n) cells = elim (get_elem? cells ((start + to_id) % 2 ^ 32)) [
  | none ↦ none
  | some count ↦ elim (scan_row start (to_id + 1) n cells) [
    | none ↦ none
    | some rest ↦ some (keep_positive to_id count rest)
  ]
]

unfoldable pub insert_candidate : Candidate → List Candidate → List Candidate
insert_candidate c [] = c ∷ []
insert_candidate c (d ∷ l) = if ltb c.count d.count then d ∷ insert_candidate c l else c ∷ d ∷ l

-- sort.Slice by falling counts. Go leaves the order of equal counts open; here it is the row's.
unfoldable pub sort_candidates : List Candidate → List Candidate
sort_candidates [] = []
sort_candidates (c ∷ l) = insert_candidate c (sort_candidates l)
