-- ===== src/Normalizer/Routes.antt =====
-- What the regular expressions of NormalizeRoute make of a path.
use cache_predict.Common.{
  ℕ, zero, suc, ◌+◌, ◌≡◌, ◌≢◌, ◌&&◌, Bool, false, none, List, append-nil, subst, refl, ap, ◌∙◌,
  true, false, [], ◌∷◌, ◌++◌, arith, length, drop, drop-append_front, Option, All, some, ◌==◌,
  lt→ltb,
}
use cache_predict.Common.Words.{Bytes}
use cache_predict.Common.Text.{codes, to_upper}
use cache_predict.Normalizer.{
  is_digit, is_hex, is_dash, hex_shape, has_shape, hex_token, uuid_token, normalize_path,
  normalize_route, digit_run, at_boundary, numeric_token, replace_tokens, token_at, slash_behind,
}

abbrev pub IsDigit : ℕ → Type 0
IsDigit c = is_digit c ≡ true

abbrev pub IsNoSlash : ℕ → Type 0
IsNoSlash c = (c == b'/') ≡ false

digit_run-append : (a s : Bytes) → All IsDigit a → digit_run (a ++ b'/' ∷ s) ≡ length a
unfolding digit_run
digit_run-append [] s h = refl
digit_run-append (c ∷ a) s (h, hs) = rw (h, digit_run-append a s hs)

add_zero_left : (n : ℕ) → 0 + n ≡ n
add_zero_left n = omega arith

suc_add : (m n : ℕ) → suc m + n ≡ suc (m + n)
suc_add m n = omega arith

-- Bytes of a match that was replaced are left out.
replace_tokens-skip :
    (token : Bytes → Option ℕ) (name a s : Bytes) (n : ℕ)
    → replace_tokens token name (length a + n) (a ++ s) ≡ replace_tokens token name n s
unfolding replace_tokens
replace_tokens-skip token name [] s n = rw (add_zero_left n) refl
replace_tokens-skip token name (c ∷ a) s n =
    rw (suc_add (length a) n) (replace_tokens-skip token name a s n)

replace_tokens-match :
    (token : Bytes → Option ℕ) (name s : Bytes) (n : ℕ)
    → token s ≡ some n
    → replace_tokens token name 0 (b'/' ∷ s)
      ≡ (b'/' ∷ name)
        ++ (slash_behind (drop n s)
            ++ replace_tokens token name (n + length (slash_behind (drop n s))) s)
unfolding replace_tokens token_at
replace_tokens-match token name s n e = rw (replace_tokens, e) refl

numeric_token_at :
    (c : ℕ) (a s : Bytes)
    → All IsDigit (c ∷ a)
    → numeric_token ((c ∷ a) ++ b'/' ∷ s) ≡ some (length (c ∷ a))
unfolding numeric_token at_boundary
numeric_token_at c a s h = rw (
  digit_run-append (c ∷ a) s h,
  drop-append_front (c ∷ a) (b'/' ∷ s),
  lt→ltb 0 (length (c ∷ a)) (omega arith),
)

replace_tokens-no_slash :
    (token : Bytes → Option ℕ) (name s : Bytes)
    → All IsNoSlash s
    → replace_tokens token name 0 s ≡ s
unfolding replace_tokens token_at
replace_tokens-no_slash token name [] h = refl
replace_tokens-no_slash token name (c ∷ s) (h, hs) =
    ground (arith, replace_tokens-no_slash token name s hs)

-- A slash and a number in front of a slash become `/:id/` whatever the number is, and what follows is read without that slash.
pub numeric_id :
    (c : ℕ) (a t : Bytes)
    → All IsDigit (c ∷ a)
    → replace_tokens numeric_token (codes ":id") 0 (b'/' ∷ ((c ∷ a) ++ b'/' ∷ t))
      ≡ codes "/:id/" ++ replace_tokens numeric_token (codes ":id") 0 t
unfolding replace_tokens token_at slash_behind
numeric_id c a t h =
    replace_tokens-match numeric_token (codes ":id") ((c ∷ a) ++ b'/' ∷ t) (length (c ∷ a))
      (numeric_token_at c a t h)
    ∙ rw
        (
          drop-append_front (c ∷ a) (b'/' ∷ t),
          replace_tokens-skip numeric_token (codes ":id") (c ∷ a) (b'/' ∷ t) 1,
        )
        refl

replace_tokens-append :
    (token : Bytes → Option ℕ) (name s rest : Bytes)
    → All IsNoSlash s
    → replace_tokens token name 0 (s ++ rest) ≡ s ++ replace_tokens token name 0 rest
unfolding replace_tokens token_at
replace_tokens-append token name [] rest h = refl
replace_tokens-append token name (c ∷ s) rest (h, hs) =
    ground (arith, replace_tokens-append token name s rest hs)

-- A segment that is no token stays.
replace_tokens-segment :
    (token : Bytes → Option ℕ) (name s rest : Bytes)
    → All IsNoSlash s
    → token (s ++ rest) ≡ none
    → replace_tokens token name 0 (b'/' ∷ (s ++ rest))
      ≡ b'/' ∷ (s ++ replace_tokens token name 0 rest)
unfolding replace_tokens token_at
replace_tokens-segment token name s rest h e =
    rw (replace_tokens, e) (ap (λ x. b'/' ∷ x) (replace_tokens-append token name s rest h))

-- What may stand behind a segment.
abbrev IsEnd : Bytes → Type 0
IsEnd [] = Unit
IsEnd (c ∷ s) = c ≡ b'/'

-- A number is a token of n hexadecimal digits only if it has n.
digits_no_hex :
    (n : ℕ) (a rest : Bytes)
    → All IsDigit a
    → length a ≢ n
    → IsEnd rest
    → (has_shape (hex_shape n) (a ++ rest) && at_boundary (drop n (a ++ rest))) ≡ false
unfolding has_shape hex_shape at_boundary is_digit is_hex
digits_no_hex zero [] rest h ne e = absurd (ne refl)
digits_no_hex zero (c ∷ a) rest (h, hs) ne e = ground (arith, h)
digits_no_hex (suc n) [] [] h ne e = refl
digits_no_hex (suc n) [] (c ∷ rest) h ne e = ground (arith, e)
digits_no_hex (suc n) (c ∷ a) rest (h, hs) ne e =
    ground (arith, digits_no_hex n a rest hs (λ q. ne (ap suc q)) e)

-- and it has no dash.
digits_no_dash :
    (n : ℕ) (ps : List (ℕ → Bool)) (a rest : Bytes)
    → All IsDigit a
    → IsEnd rest
    → has_shape (hex_shape n ++ is_dash ∷ ps) (a ++ rest) ≡ false
unfolding has_shape hex_shape is_digit is_hex is_dash
digits_no_dash zero ps [] [] h e = refl
digits_no_dash zero ps [] (c ∷ rest) h e = ground (arith, e)
digits_no_dash zero ps (c ∷ a) rest (h, hs) e = ground (arith, h)
digits_no_dash (suc n) ps [] [] h e = refl
digits_no_dash (suc n) ps [] (c ∷ rest) h e = ground (arith, e)
digits_no_dash (suc n) ps (c ∷ a) rest (h, hs) e = ground (arith, digits_no_dash n ps a rest hs e)

-- A number in a path, which is not 24 digits long.
abbrev pub IsShortNumber : Bytes → Type 0
IsShortNumber [] = ⊥
IsShortNumber (c ∷ a) = All IsDigit (c ∷ a) × (length (c ∷ a) ≢ 24)

number_digits : (a : Bytes) → IsShortNumber a → All IsDigit a
number_digits [] h = tt
number_digits (c ∷ a) h = h.0

number_length : (a : Bytes) → IsShortNumber a → length a ≢ 24
number_length [] h = absurd h
number_length (c ∷ a) h = h.1

module _ (a rest : Bytes) (number : IsShortNumber a) (e : IsEnd rest) where
  number_no_hex : hex_token (a ++ rest) ≡ none
  unfolding hex_token
  number_no_hex =
      rw (digits_no_hex 24 a rest (number_digits a number) (number_length a number) e) refl

  number_no_uuid : uuid_token (a ++ rest) ≡ none
  unfolding uuid_token
  number_no_uuid = rw (digits_no_dash 8 _ a rest (number_digits a number) e) refl

digits_stay_in : (a : Bytes) → All IsDigit a → All IsNoSlash a
unfolding is_digit
digits_stay_in [] h = tt
digits_stay_in (c ∷ a) (h, hs) = (ground (arith, h), digits_stay_in a hs)

-- A word of a path: it begins with a byte that is no hexadecimal digit.
abbrev pub IsWord : Bytes → Type 0
IsWord [] = ⊥
IsWord (c ∷ w) = (is_hex c ≡ false) × All IsNoSlash (c ∷ w)

word_stays_in : (w : Bytes) → IsWord w → All IsNoSlash w
word_stays_in [] h = tt
word_stays_in (c ∷ w) h = h.1

word_no_hex : (w rest : Bytes) → IsWord w → hex_token (w ++ rest) ≡ none
unfolding hex_token has_shape hex_shape
word_no_hex [] rest h = absurd h
word_no_hex (c ∷ w) rest (h, no_slash) = rw (h) refl

word_no_uuid : (w rest : Bytes) → IsWord w → uuid_token (w ++ rest) ≡ none
unfolding uuid_token has_shape hex_shape
word_no_uuid [] rest h = absurd h
word_no_uuid (c ∷ w) rest (h, no_slash) = rw (h) refl

word_no_number : (w rest : Bytes) → IsWord w → numeric_token (w ++ rest) ≡ none
unfolding numeric_token digit_run is_hex is_digit
word_no_number [] rest h = absurd h
word_no_number (c ∷ w) rest (h, no_slash) = ground (arith, h)

replace_tokens-last :
    (token : Bytes → Option ℕ) (name s : Bytes)
    → All IsNoSlash s
    → token s ≡ none
    → replace_tokens token name 0 (b'/' ∷ s) ≡ b'/' ∷ s
unfolding replace_tokens token_at
replace_tokens-last token name s h e =
    rw (replace_tokens, e) (ap (λ x. b'/' ∷ x) (replace_tokens-no_slash token name s h))

-- The first of two numbers at the end is replaced.
numbers_at_end :
    (a b : Bytes)
    → IsShortNumber a
    → IsShortNumber b
    → replace_tokens numeric_token (codes ":id") 0 (b'/' ∷ (a ++ b'/' ∷ b)) ≡ codes "/:id/" ++ b
numbers_at_end [] b first second = absurd first
numbers_at_end (c ∷ a) b first second =
    numeric_id c a b first.0
    ∙ ap (λ s. codes "/:id/" ++ s)
        (replace_tokens-no_slash numeric_token (codes ":id") b
          (digits_stay_in b (number_digits b second)))

module _ (w a b : Bytes) (word : IsWord w) (first : IsShortNumber a)
    (second : IsShortNumber b) where
  abbrev path : Bytes
  path = b'/' ∷ (w ++ b'/' ∷ (a ++ b'/' ∷ b))

  -- A scan that knows none of the segments leaves the path alone.
  scan_same :
      (token : Bytes → Option ℕ) (name : Bytes)
      → token (w ++ b'/' ∷ (a ++ b'/' ∷ b)) ≡ none
      → token (a ++ b'/' ∷ b) ≡ none
      → token (b ++ []) ≡ none
      → replace_tokens token name 0 path ≡ path
  scan_same token name no_w no_a no_b =
      replace_tokens-segment token name w (b'/' ∷ (a ++ b'/' ∷ b)) (word_stays_in w word) no_w
      ∙ ap (λ x. b'/' ∷ (w ++ x))
          (replace_tokens-segment token name a (b'/' ∷ b) (digits_stay_in a (number_digits a first))
              no_a
            ∙ ap (λ x. b'/' ∷ (a ++ x))
                (replace_tokens-last token name b (digits_stay_in b (number_digits b second))
                  (subst (λ x. token x ≡ none) (append-nil b) no_b)))

  normalize_path-numbers : normalize_path path ≡ b'/' ∷ (w ++ (codes "/:id/" ++ b))
  unfolding normalize_path
  normalize_path-numbers =
      let scan = λ (x : Bytes). replace_tokens numeric_token (codes ":id") 0 x in
      let hex = λ (x : Bytes). replace_tokens hex_token (codes ":hex") 0 x in
      ap (λ x. scan (hex x))
        (scan_same uuid_token (codes ":uuid") (word_no_uuid w _ word)
          (number_no_uuid a _ first refl) (number_no_uuid b [] second tt))
      ∙ ap scan (
          scan_same hex_token (codes ":hex") (word_no_hex w _ word) (number_no_hex a _ first refl)
            (number_no_hex b [] second tt))
      ∙ replace_tokens-segment numeric_token (codes ":id") w (b'/' ∷ (a ++ b'/' ∷ b))
          (word_stays_in w word) (word_no_number w _ word)
      ∙ ap (λ x. b'/' ∷ (w ++ x)) (numbers_at_end a b first second)

  -- Of a path of three segments, a word that begins with no hexadecimal digit and two numbers, none of 24
  -- digits, NormalizeRoute replaces the first number alone: its match takes the slash in front of the second.
  pub adjacent_ids :
      (method : Bytes)
      → normalize_route method path
        ≡ to_upper method ++ (codes " " ++ (b'/' ∷ (w ++ (codes "/:id/" ++ b))))
  unfolding normalize_route
  adjacent_ids method = ap (λ p. to_upper method ++ (codes " " ++ p)) normalize_path-numbers
