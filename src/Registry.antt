-- ===== src/Registry.antt =====
-- endpoint_index.go: the registry of route patterns, `EndpointRegistry`.
-- A registration is atomic: the slow path runs under the mutex and reads the map again there.
pub mod Laws
mod Runs
use cache_predict.Common.{
  ℕ, suc, ◌+◌, ◌%◌, ◌^◌, Option, none, some, List, [], ◌∷◌, ◌++◌, leb, ltb, if◌then◌else◌, length,
  get_elem?, get_or,
}
use cache_predict.Common.Words.{Bytes}
use cache_predict.Common.Dict.{Dict, lookup, insert, bytes_key}

abbrev pub max_indexed_routes : ℕ
max_indexed_routes = 4096

abbrev pub invalid_route_id : ℕ
invalid_route_id = 0xffff

pub record EndpointRegistry : Type 0 where
  pub patterns : Dict Bytes ℕ
  pub reverse : List Bytes
  pub count : ℕ

-- NewEndpointRegistry
abbrev pub new_endpoint_registry : EndpointRegistry
new_endpoint_registry = record { patterns = []; reverse = []; count = 0 }

-- `newRev := make([]string, len(rev)+1); copy(newRev, rev); newRev[id] = pattern`, where an id past
-- the end would panic; `Registry.Laws` shows that it never is.
write_back : List Bytes → ℕ → Bytes → List Bytes
write_back [] id pattern = pattern ∷ []
write_back (p ∷ rev) ℕ.zero pattern = pattern ∷ (rev ++ [] ∷ [])
write_back (p ∷ rev) (suc id) pattern = p ∷ write_back rev id pattern

-- The part under the lock, for a pattern that is not there yet.
register : Bytes → EndpointRegistry → ℕ × EndpointRegistry
unfolding write_back
register pattern r =
    if leb max_indexed_routes r.count
    then (invalid_route_id, r)
    else let id = r.count % 2 ^ 16 in
      (
        id,
        record {
          patterns = insert pattern id r.patterns;
          reverse = write_back r.reverse id pattern;
          count = (r.count + 1) % 2 ^ 32;
        },
      )

unfoldable pub get_or_register : Bytes → EndpointRegistry → ℕ × EndpointRegistry
unfolding register
get_or_register pattern r = elim (lookup pattern r.patterns) [
  | some id ↦ (id, r)
  | none ↦ register pattern r
]

-- Lookup
unfoldable pub find : Bytes → EndpointRegistry → Option ℕ
find pattern r = lookup pattern r.patterns

-- Pattern: the empty text for an id that is not there
unfoldable pub pattern_of : ℕ → EndpointRegistry → Bytes
pattern_of id r = if ltb id (length r.reverse) then get_or r.reverse id [] else []
