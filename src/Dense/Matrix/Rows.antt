-- ===== src/Dense/Matrix/Rows.antt =====
-- Sums over a part of the flat matrix, and what halving a part does to it.
use cache_predict.Common.{
  ℕ, zero, suc, ◌+◌, ◌*◌, ◌/◌, ◌%◌, ◌^◌, ◌≤◌, ◌<◌, ◌≡◌, ◌≢◌, refl, ◌∙◌, ap, subst, some, List, [],
  ◌∷◌, arith, length, length-set, get_elem?, get_or, set, ap₂, ◌==◌, ==_iff, Bool-cases, inl, inr,
}
use cache_predict.Dense.Matrix.{halve_cells}

unfoldable pub row_sum : List ℕ → ℕ → ℕ → ℕ
row_sum cells start zero = 0
row_sum cells start (suc n) = get_or cells start 0 + row_sum cells (start + 1) n

pub row_sum-zero : (cells : List ℕ) (start : ℕ) → row_sum cells start 0 ≡ 0
unfolding row_sum
row_sum-zero cells start = refl

pub row_sum-suc :
    (cells : List ℕ) (start n : ℕ)
    → row_sum cells start (suc n) ≡ get_or cells start 0 + row_sum cells (start + 1) n
unfolding row_sum
row_sum-suc cells start n = refl

pub get_or-set_self : (xs : List ℕ) (i v : ℕ) → i < length xs → get_or (set xs i v) i 0 ≡ v
get_or-set_self [] i v h = omega arith
get_or-set_self (x ∷ xs) zero v h = refl
get_or-set_self (x ∷ xs) (suc i) v h = get_or-set_self xs i v (omega arith)

pub get_or-set_ne : (xs : List ℕ) (i j v : ℕ) → i ≢ j → get_or (set xs i v) j 0 ≡ get_or xs j 0
get_or-set_ne [] i j v h = refl
get_or-set_ne (x ∷ xs) zero zero v h = absurd (h refl)
get_or-set_ne (x ∷ xs) zero (suc j) v h = refl
get_or-set_ne (x ∷ xs) (suc i) zero v h = refl
get_or-set_ne (x ∷ xs) (suc i) (suc j) v h = get_or-set_ne xs i j v (λ e. h (ap suc e))

pub get_elem?-get_or : (xs : List ℕ) (i : ℕ) → i < length xs → get_elem? xs i ≡ some (get_or xs i 0)
get_elem?-get_or [] i h = absurd (omega arith)
get_elem?-get_or (x ∷ xs) zero h = refl
get_elem?-get_or (x ∷ xs) (suc i) h = get_elem?-get_or xs i (omega arith)

pub row_sum-same :
    (xs ys : List ℕ) (start n : ℕ)
    → ((i : ℕ) → start ≤ i → i < start + n → get_or xs i 0 ≡ get_or ys i 0)
    → row_sum xs start n ≡ row_sum ys start n
unfolding row_sum
row_sum-same xs ys start zero h = refl
row_sum-same xs ys start (suc n) h =
    ap₂ ◌+◌ (h start (omega arith) (omega arith))
      (row_sum-same xs ys (start + 1) n (λ i l u. h i (omega arith) (omega arith)))

pub get_or-row_sum :
    (xs : List ℕ) (start n i : ℕ) → start ≤ i → i < start + n → get_or xs i 0 ≤ row_sum xs start n
unfolding row_sum
get_or-row_sum xs start zero i l u = omega arith
get_or-row_sum xs start (suc n) i l u = elim (Bool-cases (start == i)) [
  | inl e ↦ rw (← (==_iff start i).0 e) (omega arith)
  | inr e ↦ omega (arith, get_or-row_sum xs (start + 1) n i (ground arith) (omega arith))
]

-- One counter more in the part is one more in its sum.
pub row_sum-bump :
    (xs : List ℕ) (start n i : ℕ)
    → start ≤ i
    → i < start + n
    → i < length xs
    → row_sum (set xs i (get_or xs i 0 + 1)) start n ≡ row_sum xs start n + 1
unfolding row_sum
row_sum-bump xs start zero i l u b = omega arith
row_sum-bump xs start (suc n) i l u b = elim (Bool-cases (start == i)) [
  | inl e ↦
      let same : start ≡ i = (==_iff start i).0 e in
      omega (
        arith,
        ap (λ j. get_or (set xs i (get_or xs i 0 + 1)) j 0) same,
        ap (λ j. get_or xs j 0) same,
        get_or-set_self xs i (get_or xs i 0 + 1) b,
        row_sum-same (set xs i (get_or xs i 0 + 1)) xs (start + 1) n
            (λ j k m. get_or-set_ne xs i j (get_or xs i 0 + 1) (λ q. omega arith)),
      )
  | inr e ↦ omega (
    arith,
    row_sum-bump xs (start + 1) n i (ground arith) (omega arith) b,
    get_or-set_ne xs i start (get_or xs i 0 + 1) (λ q. ground arith),
  )
]

-- The second list is the first with each counter of the part halved.
pub record Halved (xs ys : List ℕ) (start n : ℕ) : Type 0 where
  pub same_length : length ys ≡ length xs
  pub inside : (i : ℕ) → start ≤ i → i < start + n → get_or ys i 0 ≡ get_or xs i 0 / 2
  pub before : (i : ℕ) → i < start → get_or ys i 0 ≡ get_or xs i 0
  pub behind : (i : ℕ) → start + n ≤ i → get_or ys i 0 ≡ get_or xs i 0

pub row_sum-Halved :
    (xs ys : List ℕ) (start n : ℕ)
    → ((i : ℕ) → start ≤ i → i < start + n → get_or ys i 0 ≡ get_or xs i 0 / 2)
    → 2 * row_sum ys start n ≤ row_sum xs start n
unfolding row_sum
row_sum-Halved xs ys start zero h = omega arith
row_sum-Halved xs ys start (suc n) h = omega (
  arith,
  h start (omega arith) (omega arith),
  row_sum-Halved xs ys (start + 1) n (λ i l u. h i (omega arith) (omega arith)),
)

halve_cells-step :
    (start to_id n : ℕ) (cells : List ℕ) (acc p : ℕ)
    → p ≡ start + to_id
    → p < length cells
    → length cells ≤ 2 ^ 32
    → acc + get_or cells p 0 / 2 < 2 ^ 32
    → halve_cells start to_id (suc n) cells acc
      ≡ halve_cells start
          (to_id + 1)
          n
          (set cells p (get_or cells p 0 / 2))
          (acc + get_or cells p 0 / 2)
unfolding halve_cells
halve_cells-step start to_id n cells acc p here fits small bound =
    let index : (start + to_id) % 2 ^ 32 ≡ p = omega arith in
    let sum : (acc + get_or cells p 0 / 2) % 2 ^ 32 ≡ acc + get_or cells p 0 / 2 = omega arith in
    rw (halve_cells, index, get_elem?-get_or cells p fits, sum)
      (ap
        (λ q.
          halve_cells start (to_id + 1) n (set cells q (get_or cells p 0 / 2))
            (acc + get_or cells p 0 / 2))
        index)

Halved-step :
    (cells ys : List ℕ) (p n : ℕ)
    → p < length cells
    → Halved (set cells p (get_or cells p 0 / 2)) ys (p + 1) n
    → Halved cells ys p (suc n)
Halved-step cells ys p n fits h = record {
  same_length = h.same_length ∙ length-set cells p _;
  inside = λ i l u. elim (Bool-cases (p == i)) [
    | inl e ↦
        let same : p ≡ i = (==_iff p i).0 e in
        subst (λ j. get_or ys j 0 ≡ get_or cells j 0 / 2) same
          (h.before p (omega arith) ∙ get_or-set_self cells p _ fits)
    | inr e ↦
        h.inside i (ground arith) (omega arith)
        ∙ ap (λ x. x / 2) (get_or-set_ne cells p i _ (λ q. ground arith))
  ];
  before = λ i l. h.before i (omega arith) ∙ get_or-set_ne cells p i _ (λ q. omega arith);
  behind = λ i l. h.behind i (omega arith) ∙ get_or-set_ne cells p i _ (λ q. omega arith);
}

-- The loop halves its part and adds up what it writes, where neither an index nor the sum wraps around.
pub halve_cells-Halved :
    (start to_id n : ℕ) (cells : List ℕ) (acc p : ℕ)
    → p ≡ start + to_id
    → p + n ≤ length cells
    → length cells ≤ 2 ^ 32
    → acc + row_sum cells p n < 2 ^ 32
    → (ys : List ℕ) × (halve_cells start to_id n cells acc ≡ some (ys, acc + row_sum ys p n))
      × Halved cells ys p n
halve_cells-Halved start to_id zero cells acc p here fits small bound = (
  cells,
  unfold halve_cells row_sum in ap (λ t. some (cells, t)) (omega arith),
  record {
    same_length = refl;
    inside = λ i l u. absurd (omega arith);
    before = λ i l. refl;
    behind = λ i l. refl;
  },
)
halve_cells-Halved start to_id (suc n) cells acc p here fits small bound =
    let half = get_or cells p 0 / 2 in
    let rest =
      row_sum-same (set cells p half) cells (p + 1) n
        (λ j k m. get_or-set_ne cells p j half (λ q. omega arith)) in
    let all = row_sum-suc cells p n in
    let (ys, e, h) =
      halve_cells-Halved start (to_id + 1) n (set cells p half) (acc + half) (p + 1) (omega arith)
        (omega (arith, length-set cells p half)) (omega (arith, length-set cells p half))
        (omega arith) in
    let first = h.before p (omega arith) ∙ get_or-set_self cells p half (omega arith) in
    let total : acc + half + row_sum ys (p + 1) n ≡ acc + row_sum ys p (suc n) =
      omega (arith, row_sum-suc ys p n) in
    (
      ys,
      halve_cells-step start to_id n cells acc p here (omega arith) small (omega arith)
          ∙ e
          ∙ ap (λ t. some (ys, t)) total,
      Halved-step cells ys p n (omega arith) h,
    )

-- A shorter part has no greater sum.
pub row_sum-le : (xs : List ℕ) (start m n : ℕ) → m ≤ n → row_sum xs start m ≤ row_sum xs start n
unfolding row_sum
row_sum-le xs start zero n h = omega arith
row_sum-le xs start (suc m) zero h = absurd (omega arith)
row_sum-le xs start (suc m) (suc n) h = omega (arith, row_sum-le xs (start + 1) m n (omega arith))
