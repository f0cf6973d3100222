-- ===== src/Dense/Matrix.antt =====
-- The counters of the dense predictor: the flat matrix, the totals of its rows, and the halving of a row.
-- An index out of range, where Go panics, is `none`. Each atomic operation is run in the order written;
-- interleavings of two updates of one row are not modelled.
pub mod Rows
pub mod Counts
pub mod Step
use cache_predict.Common.{
  ℕ, zero, suc, ◌+◌, ◌*◌, ◌/◌, ◌%◌, ◌^◌, Option, none, some, List, replicate, leb, if◌then◌else◌,
  get_elem?, set,
}

-- The fields of DenseMatrixPredictor that Record counts in.
pub record TransitionMatrix : Type 0 where
  pub max_routes : ℕ
  pub matrix : List ℕ
  pub totals : List ℕ

-- The two make calls of NewDenseMatrixPredictor: the product wraps around as a uint32.
unfoldable pub new_matrix : ℕ → TransitionMatrix
new_matrix max_routes = record {
  max_routes = max_routes;
  matrix = replicate (max_routes * max_routes % 2 ^ 32) 0;
  totals = replicate max_routes 0;
}

unfoldable pub row_start : ℕ → TransitionMatrix → ℕ
row_start from_id m = from_id * m.max_routes % 2 ^ 32

-- The loop of rescaleRow: `n` counters left, from `to_id` on, and the new total so far.
unfoldable pub halve_cells : ℕ → ℕ → ℕ → List ℕ → ℕ → Option (List ℕ × ℕ)
halve_cells start to_id zero cells new_total = some (cells, new_total)
halve_cells start to_id (suc n) cells new_total =
    elim (get_elem? cells ((start + to_id) % 2 ^ 32)) [
      | none ↦ none
      | some old ↦
          halve_cells start (to_id + 1) n (set cells ((start + to_id) % 2 ^ 32) (old / 2))
            ((new_total + old / 2) % 2 ^ 32)
    ]

unfoldable pub rescale_row : ℕ → TransitionMatrix → Option TransitionMatrix
rescale_row from_id m = elim (halve_cells (row_start from_id m) 0 m.max_routes m.matrix 0) [
  | none ↦ none
  | some halved ↦ some (record {
    max_routes = m.max_routes;
    matrix = halved.0;
    totals = set m.totals from_id halved.1;
  })
]

-- A cell and a total are incremented; `cell` and `total` are their old values.
unfoldable pub add_one : ℕ → ℕ → ℕ → ℕ → TransitionMatrix → TransitionMatrix
add_one from_id idx cell total m = record {
  max_routes = m.max_routes;
  matrix = set m.matrix idx ((cell + 1) % 2 ^ 32);
  totals = set m.totals from_id ((total + 1) % 2 ^ 32);
}

-- The last part of Record, for a step that has a predecessor.
unfoldable pub count_transition : ℕ → ℕ → TransitionMatrix → Option TransitionMatrix
count_transition from_id to_id m =
    let idx = (row_start from_id m + to_id) % 2 ^ 32 in
    elim (get_elem? m.matrix idx) [
      | none ↦ none
      | some cell ↦ elim (get_elem? m.totals from_id) [
        | none ↦ none
        | some total ↦
            let counted = add_one from_id idx cell total m in
            let rescaled = rescale_row from_id counted in
            if leb 0x7fffffff ((total + 1) % 2 ^ 32) then rescaled else some counted
      ]
    ]
