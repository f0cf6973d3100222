-- ===== src/Dense/Matrix/Counts.antt =====
-- A row's total is the sum of its counters and stays below the limit, and one step counts one transition.
use cache_predict.Common.{
  ℕ, ◌+◌, ◌*◌, ◌%◌, ◌^◌, ◌≤◌, ◌<◌, ◌≡◌, ◌≢◌, refl, sym, ◌∙◌, ap, ap₂, subst, ◌⊎◌, arith, ltb,
  ltb→lt, ◌&&◌, if◌then◌else◌, length, length-set, get_or, set, ◌==◌, ==_iff, Bool-cases, inl, inr,
  true,
}
use native.Mathlib.Nat.{mul-le-mul, le_refl}
use cache_predict.Dense.Matrix.{TransitionMatrix, row_start, add_one}
use cache_predict.Dense.Matrix.Rows.{
  row_sum, row_sum-same, row_sum-bump, get_or-row_sum, get_or-set_self, get_or-set_ne,
}

abbrev pub cell : ℕ → ℕ → TransitionMatrix → ℕ
cell f t m = get_or m.matrix (f * m.max_routes + t) 0

abbrev pub total : ℕ → TransitionMatrix → ℕ
total f m = get_or m.totals f 0

pub record IsSummed (m : TransitionMatrix) : Type 0 where
  pub narrow : m.max_routes ≤ 0xffff
  pub square : length m.matrix ≡ m.max_routes * m.max_routes
  pub rows : length m.totals ≡ m.max_routes
  pub summed :
      (f : ℕ) → f < m.max_routes → total f m ≡ row_sum m.matrix (f * m.max_routes) m.max_routes

pub record IsMatrix (m : TransitionMatrix) : Type 0 where
  pub sums : IsSummed m
  pub low : (f : ℕ) → f < m.max_routes → total f m < 0x7fffffff

suc_le : (f g : ℕ) → f < g → f + 1 ≤ g
suc_le f g h = omega arith

pub rows_apart : (f g n : ℕ) → f < g → f * n + n ≤ g * n
rows_apart f g n h = omega (arith, mul-le-mul (suc_le f g h) (le_refl n))

pub small_square : (n : ℕ) → n ≤ 0xffff → n * n < 2 ^ 32
small_square n h = omega (arith, mul-le-mul h h)

-- One for the transition that is counted.
abbrev pub added : ℕ → ℕ → ℕ → ℕ → ℕ
added f t g s = if (g == f) && (s == t) then 1 else 0

added_self : (f t g s : ℕ) → (g == f) ≡ true → (s == t) ≡ true → added f t g s ≡ 1
added_self f t g s p q = ground arith

added_ne : (f t g s : ℕ) → g ≢ f ⊎ s ≢ t → added f t g s ≡ 0
added_ne f t g s (inl p) = ground arith
added_ne f t g s (inr p) = ground arith

module _ (m : TransitionMatrix) (v : IsSummed m) where
  abbrev n : ℕ
  n = m.max_routes

  pub cell_fits : (f t : ℕ) → f < n → t < n → f * n + t < length m.matrix
  cell_fits f t h k = omega (arith, v.square, rows_apart f n n h)

  pub length_small : length m.matrix < 2 ^ 32
  length_small = omega (arith, v.square, small_square n v.narrow)

  pub row_start_lem : (f : ℕ) → f < n → row_start f m ≡ f * n
  unfolding row_start
  row_start_lem f h = omega (arith, rows_apart f n n h, small_square n v.narrow)

  pub cell-total : (f t : ℕ) → f < n → t < n → cell f t m ≤ total f m
  cell-total f t h k = omega (
    arith,
    v.summed f h,
    get_or-row_sum m.matrix (f * n) n (f * n + t) (omega arith) (omega arith),
  )

  -- The cells of other rows are others.
  pub outside_row : (f g i t : ℕ) → f ≢ g → g * n ≤ i → i < g * n + n → t < n → f * n + t ≢ i
  outside_row f g i t ne l u k e = elim (Bool-cases (ltb f g)) [
    | inl b ↦ omega (arith, rows_apart f g n (ltb→lt f g b))
    | inr b ↦ omega (arith, rows_apart g f n (ground arith))
  ]

  module _ (f t : ℕ) (h : f < n) (k : t < n) (low : total f m < 0x7fffffff) where
    abbrev pub after : TransitionMatrix
    after = record {
      max_routes = n;
      matrix = set m.matrix (f * n + t) (cell f t m + 1);
      totals = set m.totals f (total f m + 1);
    }

    pub add_one_lem : add_one f (f * n + t) (cell f t m) (total f m) m ≡ after
    unfolding add_one
    add_one_lem =
        let small : (cell f t m + 1) % 2 ^ 32 ≡ cell f t m + 1 =
          omega (arith, cell-total f t h k) in
        let few : (total f m + 1) % 2 ^ 32 ≡ total f m + 1 = omega arith in rw (small, few) refl

    after-cell_self : cell f t after ≡ cell f t m + 1
    after-cell_self = get_or-set_self m.matrix (f * n + t) (cell f t m + 1) (cell_fits f t h k)

    pub after-cell : (g s : ℕ) → s < n → cell g s after ≡ cell g s m + added f t g s
    after-cell g s l = elim (Bool-cases (g == f)) [
      | inl e ↦ elim (Bool-cases (s == t)) [
        | inl d ↦
            let place : g * n + s ≡ f * n + t =
              ap₂ (λ a b. a * n + b) ((==_iff g f).0 e) ((==_iff s t).0 d) in
            omega (
              arith,
              ap (λ i. get_or after.matrix i 0) place,
              ap (λ i. get_or m.matrix i 0) place,
              after-cell_self,
              added_self f t g s e d,
            )
        | inr d ↦
            let row : g * n ≡ f * n = ap (λ a. a * n) ((==_iff g f).0 e) in
            omega (
              arith,
              get_or-set_ne m.matrix (f * n + t) (g * n + s) (cell f t m + 1)
                  (λ q. ground (arith, q, row)),
              added_ne f t g s (inr (ground arith)),
            )
      ]
      | inr e ↦
          let ne : g ≢ f = ground arith in
          omega (
            arith,
            get_or-set_ne m.matrix (f * n + t) (g * n + s) (cell f t m + 1)
                (λ q. outside_row g f (f * n + t) s ne (omega arith) (omega arith) l (sym q)),
            added_ne f t g s (inl ne),
          )
    ]

    pub after-total_self : total f after ≡ total f m + 1
    after-total_self = get_or-set_self m.totals f (total f m + 1) (omega (arith, v.rows))

    pub after-total_ne : (g : ℕ) → f ≢ g → total g after ≡ total g m
    after-total_ne g ne = get_or-set_ne m.totals f g (total f m + 1) ne

    pub after-IsSummed : IsSummed after
    after-IsSummed = record {
      narrow = v.narrow;
      square = length-set m.matrix _ _ ∙ v.square;
      rows = length-set m.totals f _ ∙ v.rows;
      summed = λ g l. elim (Bool-cases (f == g)) [
        | inl e ↦
            let same : f ≡ g = (==_iff f g).0 e in
            subst (λ j. total j after ≡ row_sum after.matrix (j * n) n) same
              (omega (
                arith,
                after-total_self,
                v.summed f h,
                row_sum-bump m.matrix (f * n) n (f * n + t) (omega arith) (omega arith)
                    (cell_fits f t h k),
              ))
        | inr e ↦
            let ne : f ≢ g = ground arith in
            after-total_ne g ne
            ∙ v.summed g l
            ∙ row_sum-same m.matrix after.matrix (g * n) n (λ i a b. sym (
                get_or-set_ne m.matrix (f * n + t) i (cell f t m + 1)
                  (outside_row f g i t ne a b k)))
      ];
    }
