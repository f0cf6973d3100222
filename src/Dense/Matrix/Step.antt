-- ===== src/Dense/Matrix/Step.antt =====
-- One transition counted: the row that it rescales, and the whole effect on the matrix.
use cache_predict.Common.{
  ℕ, ◌+◌, ◌*◌, ◌/◌, ◌%◌, ◌^◌, ◌≤◌, ◌<◌, ◌≡◌, ◌≢◌, refl, sym, ◌∙◌, ap, subst, some, List, arith, leb,
  ◌&&◌, ltb, ltb→lt, if◌then◌else◌, length-set, get_or, set, ◌==◌, ==_iff, Bool-cases, inl, inr,
  true, false,
}
use cache_predict.Dense.Matrix.{
  TransitionMatrix, halve_cells, row_start, rescale_row, count_transition,
}
use cache_predict.Dense.Matrix.Rows.{
  row_sum, row_sum-same, row_sum-Halved, get_or-set_self, get_or-set_ne, get_elem?-get_or, Halved,
  halve_cells-Halved,
}
use cache_predict.Dense.Matrix.Counts.{
  cell, total, added, IsSummed, IsMatrix, cell_fits, row_start_lem, length_small, rows_apart, after,
  add_one_lem, after-cell, after-IsSummed, after-total_self, after-total_ne,
}

module _ (m : TransitionMatrix) (v : IsSummed m) (f : ℕ) (h : f < m.max_routes) where
  abbrev n : ℕ
  n = m.max_routes

  abbrev halved : List ℕ → TransitionMatrix
  halved ys = record { max_routes = n; matrix = ys; totals = set m.totals f (row_sum ys (f * n) n) }

  rescale_row_lem :
      (start t : ℕ) (ys : List ℕ)
      → row_start f m ≡ start
      → halve_cells start 0 n m.matrix 0 ≡ some (ys, t)
      → rescale_row f m ≡ some (record { max_routes = n; matrix = ys; totals = set m.totals f t })
  unfolding rescale_row
  rescale_row_lem start t ys r e = rw (rescale_row, r, e) refl

  rescale_row-Halved :
      total f m < 2 ^ 32
      → (ys : List ℕ) × (rescale_row f m ≡ some (halved ys)) × Halved m.matrix ys (f * n) n
  rescale_row-Halved few =
      let (ys, e, p) =
        halve_cells-Halved (f * n) 0 n m.matrix 0 (f * n) (omega arith)
          (omega (arith, v.square, rows_apart f n n h)) (omega (arith, length_small m v))
          (omega (arith, v.summed f h)) in
      let sum : 0 + row_sum ys (f * n) n ≡ row_sum ys (f * n) n = omega arith in
      (
        ys,
        rescale_row_lem (f * n) (row_sum ys (f * n) n) ys (row_start_lem m v f h)
            (e ∙ ap (λ t. some (ys, t)) sum),
        p,
      )

  module _ (ys : List ℕ) (p : Halved m.matrix ys (f * n) n) where
    halved-total : total f (halved ys) ≡ row_sum ys (f * n) n
    halved-total = get_or-set_self m.totals f _ (omega (arith, v.rows))

    halved-total_ne : (g : ℕ) → f ≢ g → total g (halved ys) ≡ total g m
    halved-total_ne g ne = get_or-set_ne m.totals f g _ ne

    halved-total_le : 2 * total f (halved ys) ≤ total f m
    halved-total_le =
        omega (arith, halved-total, v.summed f h, row_sum-Halved m.matrix ys (f * n) n p.inside)

    halved-row_ne :
        (g i : ℕ) → f ≢ g → g * n ≤ i → i < g * n + n → get_or ys i 0 ≡ get_or m.matrix i 0
    halved-row_ne g i ne l u = elim (Bool-cases (ltb f g)) [
      | inl b ↦ p.behind i (omega (arith, rows_apart f g n (ltb→lt f g b)))
      | inr b ↦ p.before i (omega (arith, rows_apart g f n (ground arith)))
    ]

    halved-cell :
        (g s : ℕ) → s < n → cell g s (halved ys) ≡ (if g == f then cell g s m / 2 else cell g s m)
    halved-cell g s l = elim (Bool-cases (g == f)) [
      | inl e ↦
          let row : g * n ≡ f * n = ap (λ a. a * n) ((==_iff g f).0 e) in
          ground (arith, p.inside (g * n + s) (omega arith) (omega arith))
      | inr e ↦
          ground
            (arith, halved-row_ne g (g * n + s) (λ q. ground arith) (omega arith) (omega arith))
    ]

    halved-IsSummed : IsSummed (halved ys)
    halved-IsSummed = record {
      narrow = v.narrow;
      square = p.same_length ∙ v.square;
      rows = length-set m.totals f _ ∙ v.rows;
      summed = λ g l. elim (Bool-cases (f == g)) [
        | inl e ↦
            let same : f ≡ g = (==_iff f g).0 e in
            subst (λ j. total j (halved ys) ≡ row_sum ys (j * n) n) same halved-total
        | inr e ↦
            let ne : f ≢ g = ground arith in
            halved-total_ne g ne
            ∙ v.summed g l
            ∙ row_sum-same m.matrix ys (g * n) n (λ i a b. sym (halved-row_ne g i ne a b))
      ];
    }

-- What counting the transition from `f` to `t` makes of the matrix `m`.
pub record Counted (f t : ℕ) (m w : TransitionMatrix) : Type 0 where
  pub sound : IsMatrix w
  pub size : w.max_routes ≡ m.max_routes
  pub cells :
      (g s : ℕ)
      → g < m.max_routes
      → s < m.max_routes
      → cell g s w ≡ (
          if (g == f) && leb 0x7fffffff (total f m + 1)
          then (cell g s m + added f t g s) / 2
          else cell g s m + added f t g s)

module _ (m : TransitionMatrix) (v : IsMatrix m) (f t : ℕ) (h : f < m.max_routes)
    (k : t < m.max_routes) where
  abbrev one_more : TransitionMatrix
  one_more = after m v.sums f t h k (v.low f h)

  one_more-IsSummed : IsSummed one_more
  one_more-IsSummed = after-IsSummed m v.sums f t h k (v.low f h)

  one_more-total : total f one_more ≡ total f m + 1
  one_more-total = after-total_self m v.sums f t h k (v.low f h)

  one_more-total_ne : (g : ℕ) → f ≢ g → total g one_more ≡ total g m
  one_more-total_ne = after-total_ne m v.sums f t h k (v.low f h)

  one_more-cell : (g s : ℕ) → s < m.max_routes → cell g s one_more ≡ cell g s m + added f t g s
  one_more-cell = after-cell m v.sums f t h k (v.low f h)

  count_transition_lem :
      count_transition f t m
      ≡ (if leb 0x7fffffff (total f m + 1) then rescale_row f one_more else some one_more)
  unfolding count_transition
  count_transition_lem =
      let start = row_start_lem m v.sums f h in
      let place : (f * m.max_routes + t) % 2 ^ 32 ≡ f * m.max_routes + t =
        omega (arith, cell_fits m v.sums f t h k, length_small m v.sums) in
      let few : (total f m + 1) % 2 ^ 32 ≡ total f m + 1 = omega (arith, v.low f h) in
      rw
        (
          count_transition,
          start,
          place,
          get_elem?-get_or m.matrix (f * m.max_routes + t) (cell_fits m v.sums f t h k),
          get_elem?-get_or m.totals f (omega (arith, v.sums.rows)),
          few,
          start,
          place,
          add_one_lem m v.sums f t h k (v.low f h),
        )
        refl

  one_more-Counted : leb 0x7fffffff (total f m + 1) ≡ false → Counted f t m one_more
  one_more-Counted e = record {
    sound = record {
      sums = one_more-IsSummed;
      low = λ g l. elim (Bool-cases (f == g)) [
        | inl q ↦
            subst (λ j. total j one_more < 0x7fffffff) ((==_iff f g).0 q)
              (ground (arith, one_more-total, e))
        | inr q ↦ omega (arith, v.low g l, one_more-total_ne g (ground arith))
      ];
    };
    size = refl;
    cells = λ g s a b. ground (arith, one_more-cell g s b, e);
  }

  module _ (ys : List ℕ) (p : Halved one_more.matrix ys (f * m.max_routes) m.max_routes) where
    abbrev rescaled : TransitionMatrix
    rescaled = halved one_more one_more-IsSummed f h ys

    rescaled-Counted : leb 0x7fffffff (total f m + 1) ≡ true → Counted f t m rescaled
    rescaled-Counted e = record {
      sound = record {
        sums = halved-IsSummed one_more one_more-IsSummed f h ys p;
        low = λ g l. elim (Bool-cases (f == g)) [
          | inl q ↦
              subst (λ j. total j rescaled < 0x7fffffff) ((==_iff f g).0 q)
                (omega (
                  arith,
                  v.low f h,
                  one_more-total,
                  halved-total_le one_more one_more-IsSummed f h ys p,
                ))
          | inr q ↦ omega (
            arith,
            v.low g l,
            one_more-total_ne g (ground arith),
            halved-total_ne one_more one_more-IsSummed f h ys p g (ground arith),
          )
        ];
      };
      size = refl;
      cells = λ g s a b.
          ground
            (arith, one_more-cell g s b, e, halved-cell one_more one_more-IsSummed f h ys p g s b);
    }

-- In a matrix that keeps its invariant, counting a transition between two of its routes never leaves the
-- matrix, keeps the invariant, and adds one to that transition's counter and to no other; where the row's
-- total reaches the limit by it, all counters of the row are halved then.
pub count_transition-Counted :
    (m : TransitionMatrix) (f t : ℕ)
    → IsMatrix m
    → f < m.max_routes
    → t < m.max_routes
    → (w : TransitionMatrix) × (count_transition f t m ≡ some w) × Counted f t m w
count_transition-Counted m f t v h k = elim (Bool-cases (leb 0x7fffffff (total f m + 1))) [
  | inl e ↦
      let (ys, r, p) =
        rescale_row-Halved (one_more m v f t h k) (one_more-IsSummed m v f t h k) f h
          (omega (arith, v.low f h, one_more-total m v f t h k)) in
      (
        rescaled m v f t h k ys p,
        count_transition_lem m v f t h k ∙ rw e r,
        rescaled-Counted m v f t h k ys p e,
      )
  | inr e ↦ (
    one_more m v f t h k,
    count_transition_lem m v f t h k ∙ rw e refl,
    one_more-Counted m v f t h k e,
  )
]
