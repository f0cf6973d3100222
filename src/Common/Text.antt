-- ===== src/Common/Text.antt =====
-- The functions of Go's `strings` that the code calls, on byte sequences. Letters are ASCII: the
-- code's own constants are, and case changes of other letters are not modelled.
use Prim.Native.Char.{code}
use Prim.Native.String.{String}
use cache_predict.Common.{
  ℕ, ◌+◌, ◌-◌, ◌≡◌, Bool, true, false, ◌&&◌, ◌||◌, Option, none, some, List, [], ◌∷◌, ◌++◌, map,
  arith, leb, ◌==◌, if◌then◌else◌, length, drop,
}
use cache_predict.Common.Words.{Bytes}

abbrev pub codes : String → Bytes
codes String.[] = []
codes (String.◌∷◌ c s) = code c ∷ codes s

-- s == ""
abbrev pub is_empty : Bytes → Bool
is_empty [] = true
is_empty (c ∷ s) = false

unfoldable pub lower_byte : ℕ → ℕ
lower_byte c = if leb b'A' c && leb c b'Z' then c + 32 else c

unfoldable pub upper_byte : ℕ → ℕ
upper_byte c = if leb b'a' c && leb c b'z' then c - 32 else c

-- strings.ToLower, strings.ToUpper
unfoldable pub to_lower : Bytes → Bytes
unfolding lower_byte
to_lower = map lower_byte

unfoldable pub to_upper : Bytes → Bytes
unfolding upper_byte
to_upper = map upper_byte

-- strings.HasPrefix(s, prefix)
unfoldable pub has_prefix : Bytes → Bytes → Bool
has_prefix s [] = true
has_prefix [] (p ∷ ps) = false
has_prefix (c ∷ s) (p ∷ ps) = (c == p) && has_prefix s ps

-- strings.Contains(s, sub)
unfoldable pub contains : Bytes → Bytes → Bool
unfolding has_prefix
contains [] sub = is_empty sub
contains (c ∷ s) sub = has_prefix (c ∷ s) sub || contains s sub

-- strings.Replace(s, old, new, 1), for an `old` that is not empty
unfoldable pub replace_first : Bytes → Bytes → Bytes → Bytes
unfolding has_prefix
replace_first [] old new = []
replace_first (c ∷ s) old new =
    if has_prefix (c ∷ s) old then new ++ drop (length old) (c ∷ s) else c ∷ replace_first s old new

add_to_first : ℕ → List Bytes → List Bytes
add_to_first c [] = (c ∷ []) ∷ []
add_to_first c (p ∷ ps) = (c ∷ p) ∷ ps

-- strings.Split(s, sep), for a separator of one byte
unfoldable pub split : ℕ → Bytes → List Bytes
unfolding add_to_first
split sep [] = [] ∷ []
split sep (c ∷ s) = let rest = split sep s in if c == sep then [] ∷ rest else add_to_first c rest

put_front : ℕ → Option (Bytes × Bytes) → Option (Bytes × Bytes)
put_front c none = none
put_front c (some (a, b)) = some (c ∷ a, b)

-- strings.SplitN(s, sep, 2): `none` where the result has one part only
unfoldable pub split_once : ℕ → Bytes → Option (Bytes × Bytes)
unfolding put_front
split_once sep [] = none
split_once sep (c ∷ s) =
    let rest = split_once sep s in if c == sep then some ([], s) else put_front c rest

pub lower_byte-lower_byte : (c : ℕ) → lower_byte (lower_byte c) ≡ lower_byte c
unfolding lower_byte
lower_byte-lower_byte c = ground arith

-- An ASCII white space byte.
abbrev is_space : ℕ → Bool
is_space c = (c == b' ') || (leb 9 c && leb c 13)

drop_space : Bytes → Bytes
drop_space [] = []
drop_space (c ∷ s) = let rest = drop_space s in if is_space c then rest else c ∷ s

drop_space_end : Bytes → Bytes
drop_space_end [] = []
drop_space_end (c ∷ s) =
    let rest = drop_space_end s in if is_space c && is_empty rest then [] else c ∷ rest

-- strings.TrimSpace
unfoldable pub trim_space : Bytes → Bytes
unfolding drop_space drop_space_end
trim_space s = drop_space (drop_space_end s)

-- strings.Join(parts, sep)
unfoldable pub join : List Bytes → Bytes → Bytes
join [] sep = []
join (p ∷ []) sep = p
join (p ∷ q ∷ parts) sep = p ++ (sep ++ join (q ∷ parts) sep)
