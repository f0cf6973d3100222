-- ===== src/Normalizer/CacheKey.antt =====
-- The hexadecimal text of a hash, and what the hashed text does not tell apart.
use cache_predict.Common.{
  ℕ, zero, suc, ◌+◌, ◌*◌, ◌-◌, ◌/◌, ◌%◌, ◌^◌, ◌<◌, ◌≡◌, refl, ap, sym, ◌∙◌, ◌⊎◌, inl, inr, Bool,
  true, false, ◌&&◌, ◌==◌, ==_iff, List, [], ◌∷◌, ◌++◌, append_assoc, arith, get_or, if◌then◌else◌,
  ltb,
}
use cache_predict.Common.Words.{Bytes}
use cache_predict.Common.Text.{codes, contains, is_empty, to_upper}
use cache_predict.Normalizer.{
  hex_text, hex_digits, canonical_query, query_part, host_part, vary_part, body_part,
  hashed_body_text, fast_hash64, canonical_cache_key, hashed_text, fast_hash64_with_host,
  canonical_cache_key_with_host,
}
use native.Mathlib.Nat.{pow-succ'}

-- The number that a digit stands for.
digit_value : ℕ → ℕ
digit_value c = if ltb c b'a' then c - b'0' else c - b'a' + 10

read_hex : ℕ → Bytes → ℕ
read_hex acc [] = acc
read_hex acc (c ∷ s) = read_hex (acc * 16 + digit_value c) s

read_hex-append :
    (acc : ℕ) (s : Bytes) (c : ℕ) → read_hex acc (s ++ c ∷ []) ≡ read_hex acc s * 16 + digit_value c
unfolding read_hex
read_hex-append acc [] c = refl
read_hex-append acc (d ∷ s) c = read_hex-append (acc * 16 + digit_value d) s c

-- Every number below `n` is that of its digit.
reads_digits : ℕ → Bool
reads_digits zero = true
reads_digits (suc n) = (digit_value (get_or hex_digits n 0) == n) && reads_digits n

reads_digits_at :
    (n d : ℕ) → reads_digits n ≡ true → d < n → digit_value (get_or hex_digits d 0) ≡ d
unfolding reads_digits
reads_digits_at zero d e h = omega arith
reads_digits_at (suc n) d e h = grind (arith, reads_digits_at n d, ==_iff)

digit_table : (d : ℕ) → d < 16 → digit_value (get_or hex_digits d 0) ≡ d
unfolding reads_digits digit_value hex_digits
digit_table d h = reads_digits_at 16 d refl h

read_hex-hex_text : (n h : ℕ) → h < 16 ^ n → read_hex 0 (hex_text n h) ≡ h
unfolding hex_text read_hex
read_hex-hex_text zero h small = omega arith
read_hex-hex_text (suc n) h small =
    read_hex-append 0 (hex_text n (h / 16)) (get_or hex_digits (h % 16) 0)
    ∙ omega (
      arith,
      digit_table (h % 16) (omega arith),
      read_hex-hex_text n (h / 16) (omega (arith, pow-succ' 16 n)),
    )

-- Two 64-bit hashes with one key are equal: the key loses nothing of the hash.
pub cache_key_injective :
    (sum64 : Bytes → ℕ) (m m' host host' path path' q q' : Bytes) (vary vary' : List Bytes)
    → ((s : Bytes) → sum64 s < 2 ^ 64)
    → canonical_cache_key_with_host sum64 m host path q vary
      ≡ canonical_cache_key_with_host sum64 m' host' path' q' vary'
    → fast_hash64_with_host sum64 m host path q vary
      ≡ fast_hash64_with_host sum64 m' host' path' q' vary'
unfolding canonical_cache_key_with_host fast_hash64_with_host
cache_key_injective sum64 m m' host host' path path' q q' vary vary' range e =
    sym (read_hex-hex_text 16 _ (range _)) ∙ ap (read_hex 0) e ∙ read_hex-hex_text 16 _ (range _)

-- A path with a question mark and a tail in it, which a decoded `%3F` gives, has the text and so the key of
-- the shorter path with the tail for its query, where the tail is not empty and has no `&`.
pub query_in_path :
    (sum64 : Bytes → ℕ) (method host path q : Bytes) (vary : List Bytes)
    → is_empty q ≡ false
    → contains q (codes "&") ≡ false
    → canonical_cache_key_with_host sum64 method host (path ++ (codes "?" ++ q)) [] vary
      ≡ canonical_cache_key_with_host sum64 method host path q vary
unfolding canonical_cache_key_with_host fast_hash64_with_host hashed_text query_part canonical_query
query_in_path sum64 method host path q vary e n = rw (e, n, append_assoc path (codes "?" ++ q))

-- For GET and HEAD, in whatever case the method is written, CanonicalCacheKey ignores the body and gives
-- the key that CanonicalCacheKeyWithHost gives without a host and without negotiated headers.
pub canonical_cache_key_get :
    (sum64 : Bytes → ℕ) (method path q body : Bytes)
    → (to_upper method ≡ codes "GET") ⊎ (to_upper method ≡ codes "HEAD")
    → canonical_cache_key sum64 method path q body
      ≡ canonical_cache_key_with_host sum64 method [] path q []
unfolding canonical_cache_key canonical_cache_key_with_host fast_hash64 fast_hash64_with_host
    hashed_text hashed_body_text body_part host_part vary_part
canonical_cache_key_get sum64 method path q body (inl e) = ground (arith, e)
canonical_cache_key_get sum64 method path q body (inr e) = ground (arith, e)
