-- ===== src/Vary.antt =====
-- middleware.go: the request headers that a response's Vary names, as a key and as a map.
use cache_predict.Common.{ℕ, Bool, true, false, ◌||◌, List, [], ◌∷◌, ◌++◌, ◌==◌, if◌then◌else◌}
use cache_predict.Common.Words.{Bytes}
use cache_predict.Common.Dict.{Dict, insert, bytes_key}
use cache_predict.Common.Text.{codes, is_empty, split, to_lower, trim_space}
use cache_predict.Normalizer.{hex_text}
use cache_predict.Http
use cache_predict.Http.{Header}

-- The parts from one on; in front of all but the first stands an `&`.
unfoldable pub signature_from : Bool → List Bytes → Header → Bytes
signature_from is_first [] r = []
signature_from is_first (p ∷ parts) r =
    let rest = signature_from false parts r in
    let name = trim_space p in
    if is_empty name
    then rest
    else (if is_first then [] else codes "&")
      ++ (to_lower name ++ (codes "=" ++ (Http.get r name ++ rest)))

unfoldable pub vary_signature : Bytes → Header → Bytes
vary_signature vary_header r = signature_from true (split b',' vary_header) r

-- `%x` of a number, from its digits with leading zeros: one digit stays.
unfoldable pub unpadded : Bytes → Bytes
unpadded [] = []
unpadded (d ∷ []) = d ∷ []
unpadded (d ∷ e ∷ s) = let rest = unpadded (e ∷ s) in if d == b'0' then rest else d ∷ e ∷ s

-- `varyHeader == "" || varyHeader == "*"`
abbrev pub names_none : Bytes → Bool
names_none vary_header = is_empty vary_header || bytes_key.same vary_header (codes "*")

unfoldable pub vary_key : (Bytes → ℕ) → Bytes → Bytes → Header → Bytes
vary_key sum64 primary_key vary_header r =
    if names_none vary_header
    then primary_key
    else primary_key
      ++ (codes "_v" ++ unpadded (hex_text 16 (sum64 (vary_signature vary_header r))))

unfoldable pub record_parts : List Bytes → Header → Dict Bytes Bytes → Dict Bytes Bytes
record_parts [] r m = m
record_parts (p ∷ parts) r m =
    let name = trim_space p in
    record_parts parts r (if is_empty name then m else insert name (Http.get r name) m)

unfoldable pub extract_vary_map : Header → Bytes → Dict Bytes Bytes
extract_vary_map r vary_header =
    if names_none vary_header then [] else record_parts (split b',' vary_header) r []
