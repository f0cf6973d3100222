-- ===== src/Http.antt =====
-- net/http's Header: a map from canonical names to lists of values, and the requests that the
-- components read.
use cache_predict.Common.{
  ℕ, ◌≡◌, ◌∙◌, ap, sym, inl, inr, Bool-cases, Option, Option-cases, refl, Bool, true, false, ◌&&◌,
  ◌||◌, none, some, List, [], ◌∷◌, ◌++◌, leb, ◌==◌, if◌then◌else◌,
}
use cache_predict.Common.Words.{Bytes}
use cache_predict.Common.Dict.{Dict, lookup, insert, lookup-insert, bytes_key}
use cache_predict.Common.Text.{codes, upper_byte, lower_byte}

abbrev pub Header : Type 0
Header = Dict Bytes (List Bytes)

-- The bytes that a header's name may have.
is_token_byte : ℕ → Bool
is_token_byte c =
    (leb b'a' c && leb c b'z')
    || (leb b'A' c && leb c b'Z')
    || (leb b'0' c && leb c b'9')
    || is_mark (codes "!#$%&'*+-.^_`|~") c
  where
    is_mark : List ℕ → ℕ → Bool
    is_mark [] c = false
    is_mark (m ∷ ms) c = (m == c) || is_mark ms c

all_token_bytes : Bytes → Bool
unfolding is_token_byte
all_token_bytes [] = true
all_token_bytes (c ∷ s) = is_token_byte c && all_token_bytes s

-- A letter at the front and one behind a dash is upper case, any other lower case.
canonical_from : Bool → Bytes → Bytes
unfolding upper_byte lower_byte
canonical_from up [] = []
canonical_from up (c ∷ s) =
    (if up then upper_byte c else lower_byte c) ∷ canonical_from (c == b'-') s

-- textproto.CanonicalMIMEHeaderKey; a name with another byte in it stays as it is.
unfoldable pub canonical_key : Bytes → Bytes
unfolding all_token_bytes canonical_from
canonical_key s = if all_token_bytes s then canonical_from true s else s

-- h.Values(name)
unfoldable pub values : Header → Bytes → List Bytes
unfolding canonical_key lookup
values h name = elim (lookup (canonical_key name) h) [ none ↦ [] | some vv ↦ vv ]

first_or_empty : List Bytes → Bytes
first_or_empty [] = []
first_or_empty (v ∷ vv) = v

-- h.Get(name): the first value, or the empty text
unfoldable pub get : Header → Bytes → Bytes
unfolding values first_or_empty
get h name = first_or_empty (values h name)

-- h.Set(name, value)
unfoldable pub set : Header → Bytes → Bytes → Header
unfolding canonical_key insert
set h name value = insert (canonical_key name) (value ∷ []) h

-- h.Add(name, value)
unfoldable pub add : Header → Bytes → Bytes → Header
unfolding values canonical_key insert
add h name value = insert (canonical_key name) (values h name ++ value ∷ []) h

abbrev first_of : Option (List Bytes) → Bytes
first_of none = []
first_of (some vv) = first_or_empty vv

get_lem : (h : Header) (name : Bytes) → get h name ≡ first_of (lookup (canonical_key name) h)
unfolding get values first_or_empty
get_lem h name = elim (Option-cases (lookup (canonical_key name) h)) [
  | inl e ↦ rw (get, values, e) refl
  | inr (vv, e) ↦ rw (get, values, e) refl
]

pub get-set :
    (h : Header) (name value other : Bytes)
    → get (set h name value) other
      ≡ (if bytes_key.same (canonical_key name) (canonical_key other) then value else get h other)
unfolding set first_or_empty
get-set h name value other =
    get_lem (set h name value) other
    ∙ ap first_of (lookup-insert (canonical_key name) (canonical_key other) (value ∷ []) h)
    ∙ elim (Bool-cases (bytes_key.same (canonical_key name) (canonical_key other))) [
      | inl e ↦ rw e refl
      | inr e ↦ rw e (sym (get_lem h other))
    ]

canonical_sample : canonical_key (codes "x-preCOG-vary-a") ≡ codes "X-Precog-Vary-A"
unfolding canonical_key
canonical_sample = refl
