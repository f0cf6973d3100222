-- ===== src/Common/Family.antt =====
-- Families indexed by numbers, for threads: a change at one index, and a sum over the indices below a bound.
use cache_predict.Common.{
  ℕ, zero, suc, ◌+◌, ◌≤◌, ◌<◌, ◌≡◌, ◌⊎◌, refl, ap, inl, inr, Bool, true, false, arith, ◌==◌, ==_iff,
  if◌then◌else◌, Bool-cases,
}

abbrev pub update {ℓ} : {A : Type ℓ} → (ℕ → A) → ℕ → A → ℕ → A
update f i a j = if i == j then a else f j

module _ {ℓ} {A : Type ℓ} (weight : A → ℕ) where
  abbrev pub total : ℕ → (ℕ → A) → ℕ
  total zero f = 0
  total (suc n) f = weight (f n) + total n f

  total_above : (n i : ℕ) (a : A) (f : ℕ → A) → n ≤ i → total n (update f i a) ≡ total n f
  total_above zero i a f le = refl
  total_above (suc n) i a f le =
      let below = total_above n i a f (omega arith) in ground (arith, below, ==_iff i n)

  pub total-update :
      (n i : ℕ) (a : A) (f : ℕ → A)
      → i < n
      → total n (update f i a) + weight (f i) ≡ total n f + weight a
  total-update zero i a f lt = absurd (omega arith)
  total-update (suc n) i a f lt = elim (Bool-cases (i == n)) [
    | inl same ↦
        let e : i ≡ n = (==_iff i n).0 same in
        let above = total_above n i a f (omega arith) in
        rw (same) (ground (arith, above, ap (λ k. weight (f k)) e))
    | inr apart ↦
        let below = total-update n i a f (ground (arith, ==_iff i n)) in
        rw (apart) (omega (arith, below))
  ]

module _ {ℓ} {A : Type ℓ} (test : A → Bool) where
  -- All below the bound pass a test, or one of them does not.
  pub all_or_one :
      (n : ℕ) (f : ℕ → A)
      → ((i : ℕ) → i < n → test (f i) ≡ true) ⊎ ((i : ℕ) × (i < n) × (test (f i) ≡ false))
  all_or_one zero f = inl (λ i lt. absurd (omega arith))
  all_or_one (suc n) f = elim (all_or_one n f) [
    | inr (i, lt, e) ↦ inr (i, omega (arith, lt), e)
    | inl below ↦ elim (Bool-cases (test (f n))) [
      | inl e ↦ inl (λ i lt. elim (Bool-cases (i == n)) [
        | inl same ↦ rw ((==_iff i n).0 same) e
        | inr apart ↦ below i (ground (arith, apart, lt, ==_iff i n))
      ])
      | inr e ↦ inr (n, omega arith, e)
    ]
  ]
