-- ===== src/Normalizer.antt =====
-- normalizer.go: route patterns, and the text that a cache key is the hash of.
-- The three regular expressions are one scan each: at a slash, a token followed by a slash or the end.
-- `sum64` is the xxhash digest, which is that of all that was written to it.
pub mod Order
pub mod CacheKey
pub mod Routes
mod Runs
use cache_predict.Common.{
  ℕ, zero, suc, ◌+◌, ◌/◌, ◌%◌, ◌≡◌, refl, Bool, true, false, not, ◌&&◌, ◌||◌, Option, none, some,
  List, [], ◌∷◌, ◌++◌, leb, ltb, ◌==◌, if◌then◌else◌, length, drop, replicate, get_or,
}
use cache_predict.Common.Dict.{bytes_key}
use cache_predict.Common.Words.{Bytes}
use cache_predict.Common.Text.{codes, is_empty, to_lower, to_upper, contains, split, join}

unfoldable pub is_digit : ℕ → Bool
is_digit c = leb b'0' c && leb c b'9'

unfoldable pub is_hex : ℕ → Bool
is_hex c = (leb b'0' c && leb c b'9') || (leb b'a' c && leb c b'f') || (leb b'A' c && leb c b'F')

is_dash : ℕ → Bool
is_dash c = c == b'-'

-- The length of the longest front of digits.
unfoldable pub digit_run : Bytes → ℕ
unfolding is_digit
digit_run [] = 0
digit_run (c ∷ s) = if is_digit c then suc (digit_run s) else 0

-- (/|$)
unfoldable pub at_boundary : Bytes → Bool
at_boundary [] = true
at_boundary (c ∷ s) = c == b'/'

-- A front with one byte of each class.
unfoldable pub has_shape : List (ℕ → Bool) → Bytes → Bool
has_shape [] s = true
has_shape (p ∷ ps) [] = false
has_shape (p ∷ ps) (c ∷ s) = p c && has_shape ps s

hex_shape : ℕ → List (ℕ → Bool)
unfolding is_hex
hex_shape n = replicate n is_hex

-- `\d+`, `[0-9a-fA-F]{24}` and the groups of a UUID, behind the slash: the length of the token, where the
-- expression matches. A shorter run of digits would be followed by a digit, so the longest decides.
unfoldable pub numeric_token : Bytes → Option ℕ
unfolding digit_run at_boundary
numeric_token s = let n = digit_run s in if ltb 0 n && at_boundary (drop n s) then some n else none

unfoldable pub hex_token : Bytes → Option ℕ
unfolding hex_shape has_shape at_boundary
hex_token s = if has_shape (hex_shape 24) s && at_boundary (drop 24 s) then some 24 else none

unfoldable pub uuid_token : Bytes → Option ℕ
unfolding hex_shape has_shape at_boundary is_dash
uuid_token s =
    let group = λ (n : ℕ). is_dash ∷ hex_shape n in
    if has_shape (hex_shape 8 ++ (group 4 ++ (group 4 ++ (group 4 ++ group 12)))) s
      && at_boundary (drop 36 s)
    then some 36
    else none

-- A token at this byte, if it is a slash.
token_at : (Bytes → Option ℕ) → ℕ → Bytes → Option ℕ
token_at token c s = if c == b'/' then token s else none

-- What `$1` stands for: the slash behind the token, which belongs to the match, or nothing.
slash_behind : Bytes → Bytes
slash_behind [] = []
slash_behind (c ∷ s) = c ∷ []

-- ReplaceAllString by `/` + name + `$1`: `skip` bytes belong to a match that was replaced.
unfoldable pub replace_tokens : (Bytes → Option ℕ) → Bytes → ℕ → Bytes → Bytes
unfolding token_at slash_behind
replace_tokens token name skip [] = []
replace_tokens token name (suc skip) (c ∷ s) = replace_tokens token name skip s
replace_tokens token name zero (c ∷ s) = elim (token_at token c s) [
  | none ↦ c ∷ replace_tokens token name zero s
  | some n ↦
      let group = slash_behind (drop n s) in
      (b'/' ∷ name) ++ (group ++ replace_tokens token name (n + length group) s)
]

unfoldable pub normalize_path : Bytes → Bytes
unfolding replace_tokens uuid_token hex_token numeric_token
normalize_path path =
    replace_tokens numeric_token (codes ":id") 0
      (replace_tokens hex_token (codes ":hex") 0 (replace_tokens uuid_token (codes ":uuid") 0 path))

-- NormalizeRoute
unfoldable pub normalize_route : Bytes → Bytes → Bytes
unfolding normalize_path to_upper
normalize_route method path = to_upper method ++ (codes " " ++ normalize_path path)

-- strings.Compare(a, b) <= 0, byte by byte
unfoldable pub text_le : Bytes → Bytes → Bool
text_le [] b = true
text_le (x ∷ a) [] = false
text_le (x ∷ a) (y ∷ b) = ltb x y || ((x == y) && text_le a b)

unfoldable pub insert_text : Bytes → List Bytes → List Bytes
insert_text a [] = a ∷ []
insert_text a (b ∷ l) = if text_le a b then a ∷ b ∷ l else b ∷ insert_text a l

-- sort.Strings; the order is total and equal texts are one, so the result is the only sorted list.
unfoldable pub sort_texts : List Bytes → List Bytes
sort_texts [] = []
sort_texts (a ∷ l) = insert_text a (sort_texts l)

-- The query as it is hashed: the segments between `&` in order.
unfoldable pub canonical_query : Bytes → Bytes
canonical_query q =
    if contains q (codes "&") then join (sort_texts (split b'&' q)) (codes "&") else q

query_part : Bytes → Bytes
query_part q = if is_empty q then [] else codes "?" ++ canonical_query q

host_part : Bytes → Bytes
host_part host = if is_empty host then [] else to_lower host ++ codes " "

vary_part : List Bytes → Bytes
vary_part [] = []
vary_part (v ∷ vs) = codes " vary=" ++ (v ++ vary_part vs)

-- What FastHash64WithHost writes to the digest.
unfoldable pub hashed_text : Bytes → Bytes → Bytes → Bytes → List Bytes → Bytes
unfolding query_part host_part vary_part
hashed_text method host path query vary =
    to_upper method
    ++ (codes " " ++ (host_part host ++ (path ++ (query_part query ++ vary_part vary))))

body_part : Bytes → Bytes → Bytes
body_part method body =
    if not (is_empty body)
      && (not (bytes_key.same method (codes "GET")) && not (bytes_key.same method (codes "HEAD")))
    then codes " body=" ++ body
    else []

-- What FastHash64 writes to the digest.
unfoldable pub hashed_body_text : Bytes → Bytes → Bytes → Bytes → Bytes
unfolding query_part body_part
hashed_body_text method path query body =
    to_upper method
    ++ (codes " " ++ (path ++ (query_part query ++ body_part (to_upper method) body)))

hex_digits : Bytes
hex_digits = codes "0123456789abcdef"

-- The low `n` hexadecimal digits of `h`, highest first.
unfoldable pub hex_text : ℕ → ℕ → Bytes
unfolding hex_digits
hex_text zero h = []
hex_text (suc n) h = hex_text n (h / 16) ++ get_or hex_digits (h % 16) 0 ∷ []

module _ (sum64 : Bytes → ℕ) where
  unfoldable pub fast_hash64_with_host : Bytes → Bytes → Bytes → Bytes → List Bytes → ℕ
  fast_hash64_with_host method host path query vary =
      sum64 (hashed_text method host path query vary)

  -- CanonicalCacheKeyWithHost
  unfoldable pub canonical_cache_key_with_host : Bytes → Bytes → Bytes → Bytes → List Bytes → Bytes
  canonical_cache_key_with_host method host path query vary =
      hex_text 16 (fast_hash64_with_host method host path query vary)

  unfoldable pub fast_hash64 : Bytes → Bytes → Bytes → Bytes → ℕ
  fast_hash64 method path query body = sum64 (hashed_body_text method path query body)

  -- CanonicalCacheKey, which tests the method as it was given, not in upper case.
  unfoldable pub canonical_cache_key : Bytes → Bytes → Bytes → Bytes → Bytes
  canonical_cache_key method path query body =
      if not (is_empty body)
        && (not (bytes_key.same method (codes "GET")) && not (bytes_key.same method (codes "HEAD")))
      then hex_text 16 (fast_hash64 method path query body)
      else canonical_cache_key_with_host method [] path query []
