-- ===== src/Middleware/Warm.antt =====
-- What a request finds in the cache after another request has put its response there.
use cache_predict.Common.{
  ℕ, ◌≡◌, ◌∙◌, inl, inr, refl, Bool, true, false, some, List, [], ◌∷◌, ◌++◌, arith, Bool-cases,
}
use cache_predict.Common.Int.{ℤ}
use cache_predict.Common.Words.{Bytes}
use cache_predict.Common.Dict.{Dict, insert, bytes_key, same_refl}
use cache_predict.Common.Text.{codes, is_empty, split, trim_space}
use cache_predict.Entry.{ResponseEntry, matches_vary, all_match}
use cache_predict.Http
use cache_predict.Http.{Header}
use cache_predict.Middleware.{
  Clock, Ask, new_entry, put_entry, find_cached, preferred, may_read, shares,
}
use cache_predict.Middleware.Caching.{MayBeShared}
use cache_predict.Store.{MemoryStore, memory_store, memory_get, memory_set, is_over, expiry_after}
use cache_predict.Store.Laws.{memory_get-memory_set}
use cache_predict.Vary.{
  signature_from, vary_signature, vary_key, names_none, record_parts, extract_vary_map,
}
use cache_predict.Writer.{CapturingResponseWriter}

-- The two requests have the same values under the names of these parts.
abbrev pub Agree : Header → Header → List Bytes → Type 0
Agree r r' [] = Unit
Agree r r' (p ∷ parts) = (Http.get r' (trim_space p) ≡ Http.get r (trim_space p)) × Agree r r' parts

pub Agree-refl : (h : Header) (parts : List Bytes) → Agree h h parts
Agree-refl h [] = tt
Agree-refl h (p ∷ parts) = (refl, Agree-refl h parts)

all_match-insert :
    (name : Bytes) (v : Bytes) (r' : Header) (m : Dict Bytes Bytes)
    → Http.get r' name ≡ v
    → all_match m r' ≡ true
    → all_match (insert name v m) r' ≡ true
unfolding all_match insert
all_match-insert name v r' [] e h = rw (e) (ground (arith, same_refl v))
all_match-insert name v r' ((b, w) ∷ m) e h =
    let rest = all_match-insert name v r' m e (ground (arith, h)) in
    elim (Bool-cases (bytes_key.same b name)) [
      | inl same ↦
          let b_is = (bytes_key.same_iff b name).0 same in
          rw (same) (rw (b_is, e) (ground (arith, same_refl v, h)))
      | inr apart ↦ rw (apart) (ground (arith, rest, h))
    ]

all_match-record_parts :
    (parts : List Bytes) (r r' : Header) (m : Dict Bytes Bytes)
    → Agree r r' parts
    → all_match m r' ≡ true
    → all_match (record_parts parts r m) r' ≡ true
unfolding record_parts
all_match-record_parts [] r r' m agree h = h
all_match-record_parts (p ∷ parts) r r' m (e, agree) h =
    elim (Bool-cases (is_empty (trim_space p))) [
      | inl none_there ↦ rw (none_there) (all_match-record_parts parts r r' m agree h)
      | inr named ↦ rw (named) (
          all_match-record_parts parts r r' (insert (trim_space p) (Http.get r (trim_space p)) m)
            agree (all_match-insert (trim_space p) (Http.get r (trim_space p)) r' m e h))
    ]

signature_from-Agree :
    (is_first : Bool) (parts : List Bytes) (r r' : Header)
    → Agree r r' parts
    → signature_from is_first parts r' ≡ signature_from is_first parts r
unfolding signature_from
signature_from-Agree is_first [] r r' agree = refl
signature_from-Agree is_first (p ∷ parts) r r' (e, agree) =
    let rest = signature_from-Agree false parts r r' agree in rw (e, rest) refl

same_longer : (k : Bytes) (c : ℕ) (x : Bytes) → bytes_key.same (k ++ c ∷ x) k ≡ false
same_longer [] c x = refl
same_longer (d ∷ k) c x = ground (arith, same_longer k c x)

vary_key-Agree :
    (sum64 : Bytes → ℕ) (key vary_header : Bytes) (r r' : Header)
    → Agree r r' (split b',' vary_header)
    → vary_key sum64 key vary_header r' ≡ vary_key sum64 key vary_header r
unfolding vary_key vary_signature
vary_key-Agree sum64 key vary_header r r' agree =
    rw (signature_from-Agree true (split b',' vary_header) r r' agree) refl

vary_key_apart :
    (sum64 : Bytes → ℕ) (key vary_header : Bytes) (r : Header)
    → names_none vary_header ≡ false
    → bytes_key.same (vary_key sum64 key vary_header r) key ≡ false
unfolding vary_key
vary_key_apart sum64 key vary_header r named = rw (named) (same_longer key _ _)

module _ (sum64 : Bytes → ℕ) (t : Clock) (ttl : ℤ) (a a' : Ask) (rec : CapturingResponseWriter)
    (s : MemoryStore) (now later : ℕ) (shared : MayBeShared a rec) (same_key : a'.key ≡ a.key)
    (agree : Agree a.r.header a'.r.header (split b',' (Http.get rec.header (codes "Vary"))))
    (may_share : shares a' (new_entry t ttl a.r rec) ≡ true)
    (fresh : is_over now (expiry_after t.stored ttl) ≡ false)
    (fresh_vary : is_over later (expiry_after t.stored_vary ttl) ≡ false) where
  abbrev entry : ResponseEntry
  entry = new_entry t ttl a.r rec

  abbrev vary_header : Bytes
  vary_header = Http.get rec.header (codes "Vary")

  not_star : bytes_key.same vary_header (codes "*") ≡ false
  not_star = elim (Bool-cases (bytes_key.same vary_header (codes "*"))) [
    | inl e ↦ absurd (shared.can_vary ((bytes_key.same_iff vary_header (codes "*")).0 e))
    | inr e ↦ e
  ]

  vary_holds : all_match (extract_vary_map a.r.header vary_header) a'.r.header ≡ true
  unfolding extract_vary_map all_match
  vary_holds = elim (Bool-cases (names_none vary_header)) [
    | inl e ↦ rw (e) refl
    | inr e ↦
        rw (e)
          (all_match-record_parts (split b',' vary_header) a.r.header a'.r.header [] agree refl)
  ]

  matches_entry : matches_vary entry a'.r.header ≡ true
  unfolding matches_vary new_entry
  matches_entry = rw (not_star) vary_holds

  may_read_entry : may_read a' entry ≡ true
  unfolding may_read
  may_read_entry = rw (matches_entry) may_share

  abbrev once : MemoryStore
  once = (memory_set t.stored a.key entry ttl s).2

  abbrev twice : MemoryStore
  twice = (memory_set t.stored_vary (vary_key sum64 a.key vary_header a.r.header) entry ttl once).2

  abbrev put : MemoryStore
  put = (put_entry sum64 memory_store t ttl a entry s).1

  get_once : memory_get now a'.key once ≡ some entry
  get_once = rw (same_key, memory_get-memory_set, same_refl a.key, fresh) refl

  module _ (named : names_none vary_header ≡ false) where
    get_twice : memory_get now a'.key twice ≡ some entry
    get_twice =
        let apart : bytes_key.same (vary_key sum64 a.key vary_header a.r.header) a'.key ≡ false =
          rw (same_key) (vary_key_apart sum64 a.key vary_header a.r.header named) in
        memory_get-memory_set t.stored_vary now (vary_key sum64 a.key vary_header a.r.header) a'.key
          entry ttl once
        ∙ rw (apart) get_once

    one_vary_key :
        vary_key sum64 a'.key vary_header a'.r.header ≡ vary_key sum64 a.key vary_header a.r.header
    one_vary_key =
        rw (same_key) (vary_key-Agree sum64 a.key vary_header a.r.header a'.r.header agree)

    get_vary : memory_get later (vary_key sum64 a'.key vary_header a'.r.header) twice ≡ some entry
    get_vary =
        rw
          (
            one_vary_key,
            memory_get-memory_set,
            same_refl (vary_key sum64 a.key vary_header a.r.header),
            fresh_vary,
          )
          refl

    preferred-twice : preferred sum64 memory_store later a' entry twice ≡ entry
    unfolding preferred new_entry
    preferred-twice =
        rw (named, vary_key_apart sum64 a'.key vary_header a'.r.header named, get_vary) refl

  preferred-once :
      names_none vary_header ≡ true → preferred sum64 memory_store later a' entry once ≡ entry
  unfolding preferred new_entry
  preferred-once e = rw (e) refl

  find_from :
      (x : MemoryStore)
      → memory_get now a'.key x ≡ some entry
      → preferred sum64 memory_store later a' entry x ≡ entry
      → find_cached sum64 memory_store now later a' x ≡ some entry
  unfolding find_cached
  find_from x e f = rw (find_cached, e, f, may_read_entry) refl

  -- On MemoryStore: when the middleware has stored a response that may be shared, and both records of it
  -- are within their time, a later request with the same cache key, which has the values of the first
  -- request under all names of the response's Vary and which the response may be served to (it is not
  -- authenticated, its route is public, or the response is), finds that response.
  pub find_cached-put_entry :
      find_cached sum64 memory_store now later a'
        (put_entry sum64 memory_store t ttl a (new_entry t ttl a.r rec) s).1
      ≡ some (new_entry t ttl a.r rec)
  unfolding put_entry new_entry memory_set
  find_cached-put_entry = elim (Bool-cases (names_none vary_header)) [
    | inl e ↦ rw (e) (find_from once get_once (preferred-once e))
    | inr e ↦ rw (e) (find_from twice (get_twice e) (preferred-twice e))
  ]
