-- ===== src/Normalizer/Order.antt =====
-- The order of the query's segments does not matter to the hashed text.
use cache_predict.Common.{
  ℕ, ◌≡◌, refl, ap, Bool, true, false, List, [], ◌∷◌, arith, ◌==◌, ◌∙◌, sym, ap₂, inl, inr,
  Bool-cases,
}
use cache_predict.Common.Words.{Bytes}
use cache_predict.Normalizer.{
  text_le, insert_text, sort_texts, canonical_query, query_part, hashed_text, fast_hash64_with_host,
  canonical_cache_key_with_host,
}
use cache_predict.Common.Text.{codes, contains, split, is_empty, join}
use mathlib.Core.List.{Permᴰ, Perm}
use mathlib.Core.Logic.{∥∥₁_elim}
use mathlib.Core.HLevel.{hedberg}
use native.Mathlib.Decide.{ℕ_discrete}

text_le_total : (a b : Bytes) → text_le a b ≡ false → text_le b a ≡ true
unfolding text_le
text_le_total [] b h = absurd (cc)
text_le_total (x ∷ a) [] h = refl
text_le_total (x ∷ a) (y ∷ b) h = ground (arith, text_le_total a b)

text_le_antisymm : (a b : Bytes) → text_le a b ≡ true → text_le b a ≡ true → a ≡ b
unfolding text_le
text_le_antisymm [] [] h k = refl
text_le_antisymm [] (y ∷ b) h k = absurd (cc)
text_le_antisymm (x ∷ a) [] h k = absurd (cc)
text_le_antisymm (x ∷ a) (y ∷ b) h k = ground (arith, text_le_antisymm a b)

text_le_trans : (a b c : Bytes) → text_le a b ≡ true → text_le b c ≡ true → text_le a c ≡ true
unfolding text_le
text_le_trans [] b c h k = refl
text_le_trans (x ∷ a) [] c h k = absurd (cc)
text_le_trans (x ∷ a) (y ∷ b) [] h k = absurd (cc)
text_le_trans (x ∷ a) (y ∷ b) (z ∷ c) h k = ground (arith, text_le_trans a b c)

insert_text_comm :
    (a b : Bytes) (l : List Bytes)
    → insert_text a (insert_text b l) ≡ insert_text b (insert_text a l)
unfolding insert_text
insert_text_comm a b [] = ground (arith, text_le_total a b, text_le_antisymm a b)
insert_text_comm a b (c ∷ l) = ground (
  arith,
  text_le_total a b,
  text_le_antisymm a b,
  text_le_trans a b c,
  text_le_trans b a c,
  text_le_total a c,
  text_le_total b c,
  text_le_trans a c b,
  text_le_trans b c a,
  text_le_trans c a b,
  text_le_trans c b a,
  insert_text_comm a b l,
)

sort_texts-permᴰ : {l m : List Bytes} → Permᴰ l m → sort_texts l ≡ sort_texts m
unfolding sort_texts
sort_texts-permᴰ Permᴰ.nil = refl
sort_texts-permᴰ (Permᴰ.cons e p) = ap₂ insert_text e (sort_texts-permᴰ p)
sort_texts-permᴰ (Permᴰ.swap {a = a} {b = b} {l = l} e f) =
    insert_text_comm a b (sort_texts l)
    ∙ ap₂ insert_text f (ap (λ c. insert_text c (sort_texts l)) e)
sort_texts-permᴰ (Permᴰ.trans p q) = sort_texts-permᴰ p ∙ sort_texts-permᴰ q

Bytes-discrete : Discrete Bytes
Bytes-discrete = hlevel ℕ_discrete

Texts-discrete : Discrete (List Bytes)
Texts-discrete = hlevel ℕ_discrete

sort_texts-perm : {l m : List Bytes} → Perm l m → sort_texts l ≡ sort_texts m
sort_texts-perm {l} {m} p =
    ∥∥₁_elim p (hedberg Texts-discrete (sort_texts l) (sort_texts m)) sort_texts-permᴰ

-- A query without `&` is its only segment.
split_single : (q : Bytes) → contains q (codes "&") ≡ false → split b'&' q ≡ q ∷ []
unfolding contains split
split_single [] h = refl
split_single (c ∷ q) h = ground (arith, split_single q)

canonical_query_lem : (q : Bytes) → canonical_query q ≡ join (sort_texts (split b'&' q)) (codes "&")
unfolding canonical_query
canonical_query_lem q = elim (Bool-cases (contains q (codes "&"))) [
  | inl many ↦ rw many
  | inr single ↦ rw (single, split_single q single) (unfold sort_texts insert_text join in refl)
]

-- The segments of the empty query, and of no other.
abbrev only_empty : List Bytes → Bool
only_empty ([] ∷ []) = true
only_empty _ = false

insert_text-cons :
    (b : Bytes) (l : List Bytes) → (y : Bytes) × (m : List Bytes) × (insert_text b l ≡ y ∷ m)
unfolding insert_text
insert_text-cons b [] = (b, [], refl)
insert_text-cons b (c ∷ l) = elim (Bool-cases (text_le b c)) [
  | inl e ↦ (b, c ∷ l, rw e)
  | inr e ↦ (c, insert_text b l, rw e)
]

only_empty-insert_text : (a b : Bytes) (m : List Bytes) → only_empty (insert_text a (b ∷ m)) ≡ false
unfolding insert_text
only_empty-insert_text a b m = let (y, n, e) = insert_text-cons a m in ground (arith, e)

only_empty-sort_texts : (l : List Bytes) → only_empty (sort_texts l) ≡ only_empty l
unfolding sort_texts
only_empty-sort_texts [] = refl
only_empty-sort_texts (a ∷ []) = unfold insert_text in refl
only_empty-sort_texts (a ∷ b ∷ l) =
    let (y, m, e) = insert_text-cons b (sort_texts l) in rw e (only_empty-insert_text a y m ∙ two a)
  where
    two : (a : Bytes) → false ≡ only_empty (a ∷ b ∷ l)
    two [] = refl
    two (c ∷ a) = refl

split-cons : (sep : ℕ) (s : Bytes) → (p : Bytes) × (ps : List Bytes) × (split sep s ≡ p ∷ ps)
unfolding split
split-cons sep [] = ([], [], refl)
split-cons sep (c ∷ s) = elim (Bool-cases (c == sep)) [
  | inl e ↦ ([], split sep s, rw e)
  | inr e ↦ let (p, ps, q) = split-cons sep s in (c ∷ p, ps, rw (e, q))
]

only_empty-split : (sep : ℕ) (s : Bytes) → only_empty (split sep s) ≡ is_empty s
unfolding split
only_empty-split sep [] = refl
only_empty-split sep (c ∷ s) = let (p, ps, e) = split-cons sep s in ground (arith, e)

query_part-perm :
    (q q' : Bytes) → Perm (split b'&' q) (split b'&' q') → query_part q ≡ query_part q'
unfolding query_part
query_part-perm q q' p =
    let same = sort_texts-perm p in
    let empty : is_empty q ≡ is_empty q' =
      sym (only_empty-split b'&' q)
      ∙ sym (only_empty-sort_texts (split b'&' q))
      ∙ ap only_empty same
      ∙ only_empty-sort_texts (split b'&' q')
      ∙ only_empty-split b'&' q' in
    rw (empty, canonical_query_lem, canonical_query_lem q', same)

-- Two queries with the same segments between `&`, in whatever order, have one text to hash and so one
-- cache key, whatever the method, the host, the path and the negotiated headers.
pub cache_key_query_order :
    (sum64 : Bytes → ℕ) (method host path q q' : Bytes) (vary : List Bytes)
    → Perm (split b'&' q) (split b'&' q')
    → canonical_cache_key_with_host sum64 method host path q vary
      ≡ canonical_cache_key_with_host sum64 method host path q' vary
unfolding canonical_cache_key_with_host fast_hash64_with_host hashed_text
cache_key_query_order sum64 method host path q q' vary p = rw (query_part-perm q q' p)
