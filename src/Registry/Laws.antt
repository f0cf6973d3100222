-- ===== src/Registry/Laws.antt =====
-- The registry's ids and patterns are inverse to one another, and stay so.
use cache_predict.Common.{
  ℕ, zero, suc, ◌+◌, ◌%◌, ◌^◌, ◌≤◌, ◌<◌, ◌≡◌, ◌≢◌, refl, ap, none, some, List, [], ◌∷◌, ◌++◌, arith,
  inl, inr, false, ◌↔◌, Bool-cases, Option-cases, leb, ltb, if◌then◌else◌, lt_of_get_elem?, length,
  length-append, get_elem?, get_or,
}
use cache_predict.Common.Words.{Bytes}
use cache_predict.Common.Dict.{lookup, insert, lookup-insert, lookup-insert_self, bytes_key}
use cache_predict.Registry.{
  EndpointRegistry, new_endpoint_registry, write_back, register, get_or_register, find, pattern_of,
  max_indexed_routes, invalid_route_id,
}

-- The ids are the positions in `reverse`, where their patterns stand.
pub record IsRegistry (r : EndpointRegistry) : Type 0 where
  pub counted : length r.reverse ≡ r.count
  pub capped : r.count ≤ max_indexed_routes
  pub id_at : (p : Bytes) (id : ℕ) → lookup p r.patterns ≡ some id → get_elem? r.reverse id ≡ some p
  pub at_id : (p : Bytes) (id : ℕ) → get_elem? r.reverse id ≡ some p → lookup p r.patterns ≡ some id

write_back-length : (rev : List Bytes) (p : Bytes) → write_back rev (length rev) p ≡ rev ++ p ∷ []
unfolding write_back
write_back-length [] p = refl
write_back-length (q ∷ rev) p = ap (◌∷◌ q) (write_back-length rev p)

get_elem?-push :
    (rev : List Bytes) (p : Bytes) (i : ℕ)
    → get_elem? (rev ++ p ∷ []) i ≡ (
        if ltb i (length rev) then get_elem? rev i else if ltb (length rev) i then none else some p)
get_elem?-push [] p zero = refl
get_elem?-push [] p (suc i) = ground arith
get_elem?-push (q ∷ rev) p zero = ground arith
get_elem?-push (q ∷ rev) p (suc i) = ground (arith, get_elem?-push rev p i)

pub IsRegistry-new : IsRegistry new_endpoint_registry
unfolding lookup
IsRegistry-new = record {
  counted = refl;
  capped = omega arith;
  id_at = λ p id e. absurd (cc);
  at_id = λ p id e. absurd (cc);
}

module _ (p : Bytes) (r : EndpointRegistry) (new : lookup p r.patterns ≡ none)
    (v : IsRegistry r) where
  abbrev pushed : EndpointRegistry
  pushed = record {
    patterns = insert p (length r.reverse) r.patterns;
    reverse = r.reverse ++ p ∷ [];
    count = length r.reverse + 1;
  }

  pushed-id_at :
      (q : Bytes) (id : ℕ)
      → lookup q pushed.patterns ≡ some id
      → get_elem? pushed.reverse id ≡ some q
  pushed-id_at q id e = elim (Bool-cases (bytes_key.same p q)) [
    | inl same ↦
        let eq : p ≡ q = (bytes_key.same_iff p q).0 same in
        let i : length r.reverse ≡ id =
          ground (arith, lookup-insert p q (length r.reverse) r.patterns) in
        rw (← i, get_elem?-push r.reverse p (length r.reverse)) (ground arith)
    | inr apart ↦
        let old : lookup q r.patterns ≡ some id =
          ground (arith, lookup-insert p q (length r.reverse) r.patterns) in
        let there = v.id_at q id old in
        let below = lt_of_get_elem? r.reverse id there in
        rw (get_elem?-push r.reverse p id) (ground (arith, there, below))
  ]

  pushed-at_id :
      (q : Bytes) (id : ℕ)
      → get_elem? pushed.reverse id ≡ some q
      → lookup q pushed.patterns ≡ some id
  pushed-at_id q id e = ground (
    arith,
    get_elem?-push r.reverse p id,
    lookup-insert p q (length r.reverse) r.patterns,
    bytes_key.same_iff p q,
    v.at_id q id,
    new,
  )

  pushed-IsRegistry : length r.reverse < max_indexed_routes → IsRegistry pushed
  pushed-IsRegistry room = record {
    counted = omega (arith, length-append r.reverse (p ∷ []));
    capped = omega arith;
    id_at = pushed-id_at;
    at_id = pushed-at_id;
  }

  -- Below the cap the new pattern gets the next id, and nothing wraps.
  register-pushed :
      length r.reverse < max_indexed_routes → register p r ≡ (length r.reverse, pushed)
  unfolding register
  register-pushed room =
      let c = v.counted in
      let id : r.count % 2 ^ 16 ≡ length r.reverse = omega arith in
      let next : (r.count + 1) % 2 ^ 32 ≡ length r.reverse + 1 = omega arith in
      let below : leb max_indexed_routes r.count ≡ false = ground arith in
      rw (below, id, next, write_back-length r.reverse p)

  register-full : length r.reverse ≡ max_indexed_routes → register p r ≡ (invalid_route_id, r)
  unfolding register
  register-full full = let c = v.counted in ground (arith, c)

get_or_at : (rev : List Bytes) (i : ℕ) (p : Bytes) → get_elem? rev i ≡ some p → get_or rev i [] ≡ p
get_or_at [] i p e = absurd (cc)
get_or_at (q ∷ rev) zero p e = cc
get_or_at (q ∷ rev) (suc i) p e = get_or_at rev i p e

pattern_of-at :
    (r : EndpointRegistry) (id : ℕ) (p : Bytes)
    → get_elem? r.reverse id ≡ some p
    → pattern_of id r ≡ p
unfolding pattern_of
pattern_of-at r id p e =
    let below = lt_of_get_elem? r.reverse id e in ground (arith, below, get_or_at r.reverse id p e)

-- The three outcomes of GetOrRegister in a registry that keeps its invariant.
module _ (p : Bytes) (r : EndpointRegistry) (v : IsRegistry r) where
  known : (id : ℕ) → lookup p r.patterns ≡ some id → get_or_register p r ≡ (id, r)
  unfolding get_or_register
  known id e = rw (e, get_or_register)

  unknown : lookup p r.patterns ≡ none → get_or_register p r ≡ register p r
  unfolding get_or_register
  unknown e = rw (e, get_or_register)

  -- A claim about the result holds if it holds of each outcome.
  outcomes {ℓ} :
      (P : ℕ × EndpointRegistry → Type ℓ)
      → ((id : ℕ) → lookup p r.patterns ≡ some id → P (id, r))
      → ((new : lookup p r.patterns ≡ none)
          → length r.reverse < max_indexed_routes
          → P (length r.reverse, pushed p r new v))
      → (lookup p r.patterns ≡ none
          → length r.reverse ≡ max_indexed_routes
          → P (invalid_route_id, r))
      → P (get_or_register p r)
  outcomes P old new full = elim (Option-cases (lookup p r.patterns)) [
    | inr (id, e) ↦ rw (known id e) (old id e)
    | inl e ↦ elim (Bool-cases (ltb (length r.reverse) max_indexed_routes)) [
      | inl room ↦
          let below : length r.reverse < max_indexed_routes = ground (arith, room) in
          rw (unknown e, register-pushed p r e v below) (new e below)
      | inr none_left ↦
          let c = v.counted in
          let m = v.capped in
          let at_cap : length r.reverse ≡ max_indexed_routes = ground (arith, none_left, c, m) in
          rw (unknown e, register-full p r e v at_cap) (full e at_cap)
    ]
  ]

  -- Registration keeps the invariant of the registry.
  pub get_or_register-IsRegistry : IsRegistry (get_or_register p r).1
  get_or_register-IsRegistry =
      outcomes (λ (res : ℕ × EndpointRegistry). IsRegistry res.1) (λ id e. v)
        (λ new room. pushed-IsRegistry p r new v room) (λ e full. v)

  -- An id that is not the invalid one is that of the pattern, both ways: Lookup finds it and Pattern
  -- gives the pattern back.
  pub get_or_register_inverse :
      (get_or_register p r).0 ≢ invalid_route_id
      → (find p (get_or_register p r).1 ≡ some (get_or_register p r).0)
        × (pattern_of (get_or_register p r).0 (get_or_register p r).1 ≡ p)
  unfolding find
  get_or_register_inverse =
      outcomes
        (λ (res : ℕ × EndpointRegistry).
          res.0 ≢ invalid_route_id
          → (lookup p res.1.patterns ≡ some res.0) × (pattern_of res.0 res.1 ≡ p))
        (λ id e _. (e, pattern_of-at r id p (v.id_at p id e)))
        (λ new room _.
          let here = lookup-insert_self p (length r.reverse) r.patterns in
          (here, pattern_of-at (pushed p r new v) _ p (pushed-id_at p r new v p _ here)))
        (λ e full valid. absurd (valid refl))

  -- No registration changes the id of a pattern that has one.
  pub find-get_or_register :
      (q : Bytes) (id : ℕ) → find q r ≡ some id → find q (get_or_register p r).1 ≡ some id
  unfolding find
  find-get_or_register q id e =
      outcomes (λ (res : ℕ × EndpointRegistry). lookup q res.1.patterns ≡ some id) (λ _ _. e)
        (λ new room.
          ground (arith, lookup-insert p q (length r.reverse) r.patterns, bytes_key.same_iff p q))
        (λ _ _. e)

  -- The invalid id is returned exactly for a new pattern at a full registry.
  pub get_or_register_invalid :
      ((get_or_register p r).0 ≡ invalid_route_id)
      ↔ ((find p r ≡ none) × (r.count ≡ max_indexed_routes))
  unfolding find
  get_or_register_invalid =
      let c = v.counted in
      let m = v.capped in
      outcomes
        (λ (res : ℕ × EndpointRegistry).
          (res.0 ≡ invalid_route_id)
          ↔ ((lookup p r.patterns ≡ none) × (r.count ≡ max_indexed_routes)))
        (λ id e.
          let below = lt_of_get_elem? r.reverse id (v.id_at p id e) in
          (λ i. absurd (omega arith), λ h. cc (e, h.0)))
        (λ new room. (λ i. absurd (omega arith), λ h. absurd (omega (arith, h.1))))
        (λ e full. (λ i. (e, omega arith), λ h. refl))
