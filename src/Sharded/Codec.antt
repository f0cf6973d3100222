-- ===== src/Sharded/Codec.antt =====
-- sharded_store.go: the header section of a stored entry, `encodeHeaders` and `decodeHeaders`.
-- A decoder's position `idx` in the bytes is given by what lies behind it, `b[idx:]`.
pub mod RoundTrip
use cache_predict.Common.{
  ℕ, zero, suc, ◌+◌, Option, none, some, List, [], ◌∷◌, ◌++◌, true, false, leb, ltb, if◌then◌else◌,
  length, take, drop,
}
use cache_predict.Common.Words.{Bytes, put_le, get_le}
use cache_predict.Common.Dict.{insert, bytes_key}
use cache_predict.Http.{Header}

infixl 5 ◌>>=◌
abbrev ◌>>=◌ : {A B : Type 0} → Option A → (A → Option B) → Option B
none >>= f = none
some a >>= f = f a

-- The values of one name: 4 bytes of length before each.
unfoldable pub encode_values : List Bytes → Bytes
encode_values [] = []
encode_values (v ∷ vv) = put_le 4 (length v) ++ (v ++ encode_values vv)

-- The loop over the names. A length that passes its 2 or 4 bytes is cut off.
unfoldable pub encode_fields : Header → Bytes
encode_fields [] = []
encode_fields ((k, vv) ∷ h) =
    put_le 2 (length k) ++ (k ++ (put_le 2 (length vv) ++ (encode_values vv ++ encode_fields h)))

unfoldable pub encode_headers : Header → Bytes
encode_headers [] = []
encode_headers (f ∷ h) = put_le 2 (length (f ∷ h)) ++ encode_fields (f ∷ h)

-- `idx+w <= len(b)`, and the number read there
unfoldable pub read_word : ℕ → Bytes → Option (ℕ × Bytes)
read_word w b = if leb w (length b) then some (get_le (take w b), drop w b) else none

-- `idx+n > len(b)` ends the loop
unfoldable pub read_bytes : ℕ → Bytes → Option (Bytes × Bytes)
read_bytes n b = if ltb (length b) n then none else some (take n b, drop n b)

-- What a round of the inner loop does: it ends the loop, or reads a value and goes on.
pub data Round : Type 0 where
  stop : Bytes → Round
  value : Bytes → Bytes → Round

-- Where a value is cut short, the loop has passed its length.
unfoldable pub read_value : Bytes → Round
read_value b = elim (read_word 4 b) [
  | none ↦ stop b
  | some (n, b') ↦ elim (read_bytes n b') [ none ↦ stop b' | some (v, rest) ↦ value v rest ]
]

-- The inner loop over `j < numValues`.
unfoldable pub decode_values : ℕ → Bytes → List Bytes × Bytes
decode_values zero b = ([], b)
decode_values (suc n) b = elim (read_value b) [
  | stop rest ↦ ([], rest)
  | value v rest ↦ let (vv, end) = decode_values n rest in (v ∷ vv, end)
]

-- One round of the outer loop: `none` where it breaks.
unfoldable pub decode_field : Bytes → Option (Bytes × List Bytes × Bytes)
decode_field b = do
  (size, b₁) ← read_word 2 b
  (key, b₂) ← read_bytes size b₁
  (count, b₃) ← read_word 2 b₂
  some (key, (decode_values count b₃).0, (decode_values count b₃).1)

unfoldable pub decode_fields : ℕ → Bytes → Header → Header
decode_fields zero b h = h
decode_fields (suc n) b h = elim (decode_field b) [
  | none ↦ h
  | some (key, vals, rest) ↦ decode_fields n rest (insert key vals h)
]

unfoldable pub decode_headers : Bytes → Header
decode_headers b = elim (read_word 2 b) [ none ↦ [] | some (n, rest) ↦ decode_fields n rest [] ]
