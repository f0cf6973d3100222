-- ===== src/Common/Dict.antt =====
-- Go maps as association lists, over any type of keys with a test of equality.
-- The order of the list is the order in which a `range` over the map would meet the keys, which Go
-- leaves open; no two entries of a map have one key.
use cache_predict.Common.{
  ℕ, zero, suc, ◌≤◌, ◌<◌, get_elem?, ◌≡◌, ◌≢◌, ◌↔◌, refl, sym, Bool, true, false, ◌&&◌, Option,
  none, some, List, [], ◌∷◌, ◌++◌, arith, ◌==◌, ==_iff, if◌then◌else◌, length, inl, inr, Bool-cases,
  All,
}
use mathlib.Core.Path.{subst, subst₂}

pub record Key {ℓ} (K : Type ℓ) : Type ℓ where
  pub same : K → K → Bool
  pub same_iff : (a b : K) → (same a b ≡ true) ↔ (a ≡ b)

abbrev same_number : ℕ → ℕ → Bool
same_number a b = a == b

instance abbrev pub number_key : Key ℕ
number_key = record { same = same_number; same_iff = ==_iff }

abbrev same_bytes : List ℕ → List ℕ → Bool
same_bytes [] [] = true
same_bytes [] (y ∷ ys) = false
same_bytes (x ∷ xs) [] = false
same_bytes (x ∷ xs) (y ∷ ys) = (x == y) && same_bytes xs ys

pub same_bytes_iff : (xs ys : List ℕ) → (same_bytes xs ys ≡ true) ↔ (xs ≡ ys)
same_bytes_iff [] [] = (λ _. refl, λ _. refl)
same_bytes_iff [] (y ∷ ys) = (λ e. cc, λ e. cc)
same_bytes_iff (x ∷ xs) [] = (λ e. cc, λ e. cc)
same_bytes_iff (x ∷ xs) (y ∷ ys) =
    (λ e. ground (arith, same_bytes_iff xs ys), λ e. ground (arith, same_bytes_iff xs ys))

instance abbrev pub bytes_key : Key (List ℕ)
bytes_key = record { same = same_bytes; same_iff = same_bytes_iff }

abbrev pub Dict {ℓ} : Type ℓ → Type ℓ → Type ℓ
Dict K V = List (K × V)

module _ {ℓ} {K : Type ℓ} ⦃k : Key K⦄ where
  pub same_refl : (a : K) → k.same a a ≡ true
  same_refl a = (k.same_iff a a).1 refl

  pub same_ne : (a b : K) → a ≢ b → k.same a b ≡ false
  same_ne a b h = ground (arith, k.same_iff a b)

module _ {ℓ} {K V : Type ℓ} ⦃k : Key K⦄ where
  unfoldable pub lookup : K → Dict K V → Option V
  lookup a [] = none
  lookup a ((b, v) ∷ d) = if k.same b a then some v else lookup a d

  -- m[a] = v
  unfoldable pub insert : K → V → Dict K V → Dict K V
  insert a v [] = (a, v) ∷ []
  insert a v ((b, w) ∷ d) = if k.same b a then (b, v) ∷ d else (b, w) ∷ insert a v d

  -- delete(m, a)
  unfoldable pub remove : K → Dict K V → Dict K V
  remove a [] = []
  remove a ((b, w) ∷ d) = let rest = remove a d in if k.same b a then rest else (b, w) ∷ rest

  pub lookup-insert :
      (a b : K) (v : V) (d : Dict K V)
      → lookup b (insert a v d) ≡ (if k.same a b then some v else lookup b d)
  unfolding lookup insert
  lookup-insert a b v [] = refl
  lookup-insert a b v ((c, w) ∷ d) =
      ground (arith, k.same_iff a b, k.same_iff c a, k.same_iff c b, lookup-insert a b v d)

  pub lookup-remove :
      (a b : K) (d : Dict K V) → lookup b (remove a d) ≡ (if k.same a b then none else lookup b d)
  unfolding lookup remove
  lookup-remove a b [] = ground arith
  lookup-remove a b ((c, w) ∷ d) =
      ground (arith, k.same_iff a b, k.same_iff c a, k.same_iff c b, lookup-remove a b d)

  pub lookup-insert_self : (a : K) (v : V) (d : Dict K V) → lookup a (insert a v d) ≡ some v
  lookup-insert_self a v d = rw (lookup-insert, same_refl)

  pub lookup-insert_ne :
      (a b : K) (v : V) (d : Dict K V) → a ≢ b → lookup b (insert a v d) ≡ lookup b d
  lookup-insert_ne a b v d h = rw (lookup-insert, same_ne a b h)

  pub length-insert_new :
      (a : K) (v : V) (d : Dict K V) → lookup a d ≡ none → length (insert a v d) ≡ suc (length d)
  unfolding lookup insert
  length-insert_new a v [] h = refl
  length-insert_new a v ((b, w) ∷ d) h = ground (arith, length-insert_new a v d)

  pub length-insert : (a : K) (v : V) (d : Dict K V) → length (insert a v d) ≤ suc (length d)
  unfolding insert
  length-insert a v [] = omega arith
  length-insert a v ((b, w) ∷ d) = ground (arith, length-insert a v d)

  pub length-remove : (a : K) (d : Dict K V) → length (remove a d) ≤ length d
  unfolding remove
  length-remove a [] = omega arith
  length-remove a ((b, w) ∷ d) = ground (arith, length-remove a d)

  pub length-insert_old :
      (a : K) (v w : V) (d : Dict K V) → lookup a d ≡ some w → length (insert a v d) ≡ length d
  unfolding lookup insert
  length-insert_old a v w [] h = absurd (cc)
  length-insert_old a v w ((b, u) ∷ d) h = ground (arith, length-insert_old a v w d)

  pub length-remove_at :
      (d : Dict K V) (i : ℕ) (e : K × V) → get_elem? d i ≡ some e → length (remove e.0 d) < length d
  unfolding remove
  length-remove_at [] i e h = absurd (cc)
  length-remove_at ((b, u) ∷ d) zero e h =
      let here : b ≡ e.0 = cc in ground (arith, k.same_iff b e.0, here, length-remove e.0 d)
  length-remove_at ((b, u) ∷ d) (suc i) e h =
      ground (arith, length-remove_at d i e h, length-remove e.0 d)

  -- A new key goes behind the others.
  pub insert_new :
      (a : K) (v : V) (d : Dict K V) → lookup a d ≡ none → insert a v d ≡ d ++ (a, v) ∷ []
  unfolding lookup insert
  insert_new a v [] h = refl
  insert_new a v ((b, w) ∷ d) h = ground (arith, insert_new a v d)

  -- No key stands twice.
  abbrev pub IsMap : Dict K V → Type ℓ
  IsMap [] = Unit
  IsMap ((a, v) ∷ d) = (lookup a d ≡ none) × IsMap d

  -- None of the second map's keys stands in the first.
  abbrev pub Fresh : Dict K V → Dict K V → Type ℓ
  Fresh acc [] = Unit
  Fresh acc ((a, v) ∷ d) = (lookup a acc ≡ none) × Fresh acc d

  pub Fresh-nil : (d : Dict K V) → Fresh [] d
  unfolding lookup
  Fresh-nil [] = tt
  Fresh-nil ((a, v) ∷ d) = (refl, Fresh-nil d)

  pub Fresh-insert :
      (a : K) (v : V) (acc d : Dict K V)
      → lookup a d ≡ none
      → Fresh acc d
      → Fresh (insert a v acc) d
  unfolding lookup
  Fresh-insert a v acc [] n f = tt
  Fresh-insert a v acc ((b, w) ∷ d) n f = (
    ground (arith, lookup-insert a b v acc, k.same_iff a b, k.same_iff b a, f.0),
    Fresh-insert a v acc d (ground arith) f.1,
  )

  pub IsMap-insert : (a : K) (v : V) (d : Dict K V) → IsMap d → IsMap (insert a v d)
  unfolding insert
  IsMap-insert a v [] m = (unfold lookup in refl, tt)
  IsMap-insert a v ((b, w) ∷ d) m = elim (Bool-cases (k.same b a)) [
    | inl e ↦ rw e m
    | inr e ↦ rw e (
      rw lookup-insert (ground (arith, k.same_iff a b, k.same_iff b a, m.0)),
      IsMap-insert a v d m.1,
    )
  ]

module _ {ℓ} {K V : Type ℓ} ⦃k : Key K⦄ (P : K × V → Type ℓ) where
  pub All-insert : (a : K) (v : V) (d : Dict K V) → P (a, v) → All P d → All P (insert a v d)
  unfolding insert
  All-insert a v [] p h = (p, tt)
  All-insert a v ((b, w) ∷ d) p h = elim (Bool-cases (k.same b a)) [
    | inl e ↦ rw e (subst (λ c. P (c, v)) (sym ((k.same_iff b a).0 e)) p, h.1)
    | inr e ↦ rw e (h.0, All-insert a v d p h.1)
  ]

  pub All-remove : (a : K) (d : Dict K V) → All P d → All P (remove a d)
  unfolding remove
  All-remove a [] h = tt
  All-remove a ((b, w) ∷ d) h = elim (Bool-cases (k.same b a)) [
    | inl e ↦ rw e (All-remove a d h.1)
    | inr e ↦ rw e (h.0, All-remove a d h.1)
  ]

  pub All-lookup : (a : K) (v : V) (d : Dict K V) → All P d → lookup a d ≡ some v → P (a, v)
  unfolding lookup
  All-lookup a v [] h e = absurd (cc)
  All-lookup a v ((b, w) ∷ d) h e = elim (Bool-cases (k.same b a)) [
    | inl s ↦ let q : w ≡ v = ground arith in subst₂ (λ c x. P (c, x)) ((k.same_iff b a).0 s) q h.0
    | inr s ↦ All-lookup a v d h.1 (rw s at e)
  ]
