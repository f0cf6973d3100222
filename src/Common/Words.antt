-- ===== src/Common/Words.antt =====
-- encoding/binary's little-endian integers, and slices of a byte sequence.
use cache_predict.Common.{
  ℕ, zero, suc, ◌+◌, ◌-◌, ◌*◌, ◌/◌, ◌%◌, ◌^◌, ◌≤◌, ◌<◌, ◌≡◌, refl, ap, List, [], ◌∷◌, ◌++◌, arith,
  length, take, drop, take-append_front, take-length, drop-append_front, take-append_le,
  drop-append_le, length-drop,
}
use native.Mathlib.Nat.{pow-succ'}

abbrev pub Bytes : Type 0
Bytes = List ℕ

-- The `w` low bytes of `v`, lowest first. What does not fit is cut off, as Go's conversion does.
unfoldable pub put_le : ℕ → ℕ → Bytes
put_le zero v = []
put_le (suc w) v = (v % 256) ∷ put_le w (v / 256)

-- The number that the bytes spell.
unfoldable pub get_le : Bytes → ℕ
get_le [] = 0
get_le (b ∷ bs) = b + 256 * get_le bs

-- b[from:to]
unfoldable pub slice : Bytes → ℕ → ℕ → Bytes
slice b from to = take (to - from) (drop from b)

pub length-put_le : (w v : ℕ) → length (put_le w v) ≡ w
unfolding put_le
length-put_le zero v = refl
length-put_le (suc w) v = ap suc (length-put_le w (v / 256))

below_step : (w v : ℕ) → v < 256 ^ suc w → v / 256 < 256 ^ w
below_step w v h = omega (arith, pow-succ' 256 w)

-- A number that fits is read back.
pub get_le-put_le : (w v : ℕ) → v < 256 ^ w → get_le (put_le w v) ≡ v
unfolding get_le put_le
get_le-put_le zero v h = omega arith
get_le-put_le (suc w) v h = omega (arith, get_le-put_le w (v / 256) (below_step w v h))

-- Whatever fits or not, what is read back is not above what was written.
pub get_le-put_le_le : (w v : ℕ) → get_le (put_le w v) ≤ v
unfolding get_le put_le
get_le-put_le_le zero v = omega arith
get_le-put_le_le (suc w) v = omega (arith, get_le-put_le_le w (v / 256))

-- The slice that a middle part fills.
pub slice_mid :
    (pre mid post : Bytes) (i j : ℕ)
    → i ≡ length pre
    → j ≡ i + length mid
    → slice (pre ++ (mid ++ post)) i j ≡ mid
unfolding slice
slice_mid pre mid post i j hi hj =
    let n : (j - i) ≡ length mid = omega arith in
    rw (n, hi, drop-append_front pre (mid ++ post)) (take-append_front mid post)

-- The slice up to the end.
pub slice_end :
    (pre mid : Bytes) (i j : ℕ) → i ≡ length pre → j ≡ i + length mid → slice (pre ++ mid) i j ≡ mid
unfolding slice
slice_end pre mid i j hi hj =
    let n : (j - i) ≡ length mid = omega arith in
    rw (n, hi, drop-append_front pre mid) (take-length mid)

-- What is appended does not change a slice that lies before it.
pub slice-append :
    (b more : Bytes) (i j : ℕ) → i ≤ j → j ≤ length b → slice (b ++ more) i j ≡ slice b i j
unfolding slice
slice-append b more i j h k =
    rw (drop-append_le i b more (omega arith))
      (take-append_le (j - i) (drop i b) more (omega (arith, length-drop i b)))
