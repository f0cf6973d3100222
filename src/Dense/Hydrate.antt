-- ===== src/Dense/Hydrate.antt =====
-- hydrateCall: the placeholders of a pattern filled from the last step of the session.

pub mod Privacy
use cache_predict.Common.{
  ℕ, Bool, true, false, not, ◌&&◌, ◌||◌, Option, none, some, List, [], ◌∷◌, ◌++◌, ◌==◌,
  if◌then◌else◌, length, get_or,
}
use cache_predict.Common.Words.{Bytes}
use cache_predict.Common.Dict.{Dict, lookup, number_key, bytes_key}
use cache_predict.Common.Text.{codes, is_empty, contains, replace_first, split, split_once}
use cache_predict.Normalizer.{is_digit, is_hex}
use cache_predict.Dense.Sessions.{DenseStep}

abbrev pub all_bytes : (ℕ → Bool) → Bytes → Bool
all_bytes p [] = true
all_bytes p (c ∷ s) = p c && all_bytes p s

unfoldable pub is_numeric : Bytes → Bool
is_numeric s = not (is_empty s) && all_bytes is_digit s

unfoldable pub is_uuid : Bytes → Bool
is_uuid s =
    (length s == 36)
    && ((get_or s 8 0 == b'-')
        && ((get_or s 13 0 == b'-') && ((get_or s 18 0 == b'-') && (get_or s 23 0 == b'-'))))

unfoldable pub is_hex_id : Bytes → Bool
is_hex_id s = (length s == 24) && all_bytes is_hex s

-- activeNumID, activeUUID and activeHexID
pub record ActiveIds : Type 0 where
  pub num : Bytes
  pub uuid : Bytes
  pub hex : Bytes

abbrev pub no_ids : ActiveIds
no_ids = record { num = []; uuid = []; hex = [] }

-- `v` where nothing was found yet and the test holds
abbrev pub or_take : Bytes → Bool → Bytes → Bytes
or_take found test v = if is_empty found && test then v else found

unfoldable pub take_segment : Bytes → ActiveIds → ActiveIds
take_segment seg ids = if is_empty seg then ids else record {
  num = or_take ids.num (is_numeric seg) seg;
  uuid = or_take ids.uuid (is_uuid seg) seg;
  hex = or_take ids.hex (is_hex_id seg) seg;
}

-- From the last segment to the first.
unfoldable pub path_ids : List Bytes → ActiveIds
path_ids [] = no_ids
path_ids (seg ∷ segments) = take_segment seg (path_ids segments)

unfoldable pub is_id_name : Bytes → Bool
is_id_name k =
    bytes_key.same k (codes "id")
    || (bytes_key.same k (codes "product_id")
        || (bytes_key.same k (codes "order_id") || bytes_key.same k (codes "item_id")))

unfoldable pub take_parameter : Bytes → ActiveIds → ActiveIds
take_parameter qp ids = elim (split_once b'=' qp) [
  | none ↦ ids
  | some kv ↦ record {
    num = or_take ids.num (is_id_name kv.0 && is_numeric kv.1) kv.1;
    uuid = or_take ids.uuid (is_uuid kv.1) kv.1;
    hex = or_take ids.hex (is_hex_id kv.1) kv.1;
  }
]

unfoldable pub query_ids : List Bytes → ActiveIds → ActiveIds
query_ids [] ids = ids
query_ids (qp ∷ qps) ids = query_ids qps (take_parameter qp ids)

unfoldable pub active_ids : DenseStep → ActiveIds
active_ids last =
    let ids = path_ids (split b'/' last.path) in
    if (is_empty ids.num || (is_empty ids.uuid || is_empty ids.hex)) && not (is_empty last.query)
    then query_ids (split b'&' last.query) ids
    else ids

unfoldable pub fill : Bytes → Bytes → Bytes → Bytes
fill name value call =
    if not (is_empty value) && contains call name then replace_first call name value else call

unfoldable pub is_static : Bytes → Bool
is_static pattern =
    not (contains pattern (codes ":id"))
    && (not (contains pattern (codes ":uuid")) && not (contains pattern (codes ":hex")))

-- known[strings.Index(known, "?"):], where it has a question mark
unfoldable pub from_question_mark : Bytes → Bytes
from_question_mark [] = []
from_question_mark (c ∷ s) = if c == b'?' then c ∷ s else from_question_mark s

abbrev pub known_call : ℕ → Dict ℕ Bytes → Bytes
known_call id concrete = elim (lookup id concrete) [ none ↦ [] | some call ↦ call ]

unfoldable pub carry_query : Bytes → Bytes → Bytes → Bytes
carry_query pattern known call =
    if is_static pattern
      && (not (is_empty known) && (not (contains call (codes "?")) && contains known (codes "?")))
    then call ++ from_question_mark known
    else call

unfoldable pub fill_all : ActiveIds → Bytes → Bytes
fill_all ids call =
    fill (codes ":hex") ids.hex (fill (codes ":uuid") ids.uuid (fill (codes ":id") ids.num call))

unfoldable pub hydrate_call : Dict ℕ Bytes → ℕ → Bytes → DenseStep → Bytes
hydrate_call concrete id pattern last = elim (split_once b' ' pattern) [
  | none ↦ pattern
  | some parts ↦
      carry_query pattern (known_call id concrete)
        (fill_all (active_ids last) (parts.0 ++ (codes " " ++ parts.1)))
]
