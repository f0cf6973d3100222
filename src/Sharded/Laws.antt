-- ===== src/Sharded/Laws.antt =====
-- The operations of a whole `ShardedStore`: what an open store keeps, and what its readers see.
use cache_predict.Common.{
  ℕ, ◌%◌, ◌^◌, ◌<◌, ◌≡◌, ◌≢◌, refl, none, some, Bool, true, false, ◌&&◌, if_cases, Bool-cases,
  arith, length, All, inl, inr, ltb, ◌==◌, ==_iff, if◌then◌else◌, get_elem?, get_elem?-lt,
  get_elem?-set_self, get_elem?-set_ne, length-set, All-get_elem?, All-set, lt_of_get_elem?,
}
use cache_predict.Common.Int.{ℤ}
use cache_predict.Common.Dict.{Dict, number_key}
use cache_predict.Entry.{ResponseEntry}
use cache_predict.Sharded.Codec.RoundTrip.{IsEncodable}
use cache_predict.Sharded.Shard.{
  total_entry_len, CacheShard, expire_nano, prepare, append_record, store_record, is_full,
  is_expired, get_record, delete_record,
}
use cache_predict.Sharded.Arena.{FitsRecord}
use cache_predict.Sharded.Invariant.{IsValid, store_record-IsValid}
use cache_predict.Sharded.Writes.{
  restored, get_record-store_ne, get_record-store_self, store-append,
}
use cache_predict.Sharded.Ops.{ShardedStore, put_shard, get_by_hash, set_by_hash, delete_by_hash}

-- A shard that is open, has its index and keeps its invariant.
pub record IsReady (sh : CacheShard) : Type 0 where
  pub valid : IsValid sh
  pub opened : sh.closed ≡ false
  pub index : Dict ℕ ℕ
  pub indexed : sh.entries ≡ some index

pub record IsReadyStore (s : ShardedStore) : Type 0 where
  pub sharded : 0 < s.num_shards
  pub complete : length s.shards ≡ s.num_shards
  pub ready : All IsReady s.shards

abbrev pub shard_index : ℕ → ShardedStore → ℕ
shard_index h s = h % s.num_shards

pub shard_of :
    (h : ℕ) (s : ShardedStore)
    → IsReadyStore s
    → (sh : CacheShard) × (get_elem? s.shards (shard_index h s) ≡ some sh) × IsReady sh
shard_of h s r =
    let (sh, e) = get_elem?-lt s.shards (shard_index h s) (omega (arith, r.sharded, r.complete)) in
    (sh, e, All-get_elem? IsReady s.shards (shard_index h s) r.ready e)

pub put_shard-IsReadyStore :
    (h : ℕ) (sh : CacheShard) (s : ShardedStore)
    → IsReadyStore s
    → IsReady sh
    → IsReadyStore (put_shard h sh s)
unfolding put_shard
put_shard-IsReadyStore h sh s r w = record {
  sharded = r.sharded;
  complete = omega (arith, r.complete, length-set s.shards (shard_index h s) sh);
  ready = All-set IsReady s.shards (shard_index h s) sh r.ready w;
}

store_record-IsReady :
    (expire h : ℕ) (e : ResponseEntry) (sh : CacheShard)
    → IsReady sh
    → h < 2 ^ 64
    → total_entry_len e < 2 ^ 32
    → IsReady (store_record expire h e sh).1
unfolding append_record
store_record-IsReady expire h e sh r hh ht =
    let claim = λ (res : Bool × CacheShard). IsValid res.1 → IsReady res.1 in
    let keep = λ (_ : IsValid sh). r in
    let ready : claim (append_record expire h e sh r.index) =
      if_cases claim sh.closed _ _ (λ _. keep)
        λ _.
          if_cases claim (ltb sh.max_size (total_entry_len e % 2 ^ 32)) _ _ (λ _. keep)
            λ _ v. record { valid = v; opened = r.opened; index = _; indexed = refl } in
    let same = store-append expire h e sh r.index r.valid r.opened r.indexed hh ht in
    rw same (ready (rw same at (store_record-IsValid expire h e sh r.valid hh ht)))

module _ (h : ℕ) (s : ShardedStore) {sh : CacheShard}
    (found : get_elem? s.shards (shard_index h s) ≡ some sh) where
  pub get_by_hash-at : (now : ℕ) → get_by_hash now h s ≡ get_record now h sh
  unfolding get_by_hash
  get_by_hash-at now = rw (found, get_by_hash)

  pub set_by_hash-at :
      (now : ℕ) (e : ResponseEntry) (ttl : ℤ)
      → set_by_hash now h (some e) ttl s ≡ (
        (store_record (expire_nano now ttl) h (prepare now e ttl) sh).0,
        some (prepare now e ttl),
        put_shard h (store_record (expire_nano now ttl) h (prepare now e ttl) sh).1 s,
      )
  unfolding set_by_hash
  set_by_hash-at now e ttl = rw (found, set_by_hash)

  pub delete_by_hash-at : delete_by_hash h s ≡ put_shard h (delete_record h sh) s
  unfolding delete_by_hash
  delete_by_hash-at = rw (found, delete_by_hash)

  -- The shard that was put back is the one that the hash leads to.
  pub put_shard-at_self :
      (sh' : CacheShard)
      → get_elem? (put_shard h sh' s).shards (shard_index h (put_shard h sh' s)) ≡ some sh'
  unfolding put_shard
  put_shard-at_self sh' =
      get_elem?-set_self s.shards (shard_index h s) sh'
        (lt_of_get_elem? s.shards (shard_index h s) found)

pub put_shard-at_same :
    (h j : ℕ) (s : ShardedStore) {sh : CacheShard}
    → get_elem? s.shards (shard_index h s) ≡ some sh
    → (sh' : CacheShard) → shard_index h s ≡ shard_index j s
    → get_elem? (put_shard h sh' s).shards (shard_index j (put_shard h sh' s)) ≡ some sh'
unfolding put_shard
put_shard-at_same h j s found sh' i = rw (← i) (put_shard-at_self h s found sh')

-- A hash of another shard finds what it found before.
pub get_by_hash-put_ne :
    (now h j : ℕ) (sh' : CacheShard) (s : ShardedStore)
    → shard_index h s ≢ shard_index j s
    → get_by_hash now j (put_shard h sh' s) ≡ get_by_hash now j s
unfolding get_by_hash put_shard
get_by_hash-put_ne now h j sh' s ne =
    rw (get_elem?-set_ne s.shards (shard_index h s) (shard_index j s) sh' ne, get_by_hash)

-- The shard of a hash has no room left for `total` bytes.
unfoldable pub shard_is_full : ℕ → ℕ → ShardedStore → Bool
shard_is_full h total s = elim (get_elem? s.shards (shard_index h s)) [
  | none ↦ false
  | some sh ↦ is_full sh total
]

-- The caller's entry after SetByHash, and the size of its record.
module _ (now h : ℕ) (e : ResponseEntry) (ttl : ℤ) (s : ShardedStore) (r : IsReadyStore s)
    (hash : h < 2 ^ 64) (size : total_entry_len (prepare now e ttl) < 2 ^ 32) where
  abbrev stored : CacheShard → CacheShard
  stored sh = (store_record (expire_nano now ttl) h (prepare now e ttl) sh).1

  -- SetByHash keeps an open store an open store that keeps its invariants.
  pub set_by_hash-IsReadyStore : IsReadyStore (set_by_hash now h (some e) ttl s).2
  set_by_hash-IsReadyStore =
      let (sh, found, ready) = shard_of h s r in
      rw (set_by_hash-at h s found now e ttl) (
        put_shard-IsReadyStore h _ s r
          (store_record-IsReady (expire_nano now ttl) h (prepare now e ttl) sh ready hash size))

  -- What SetByHash stored under a hash, GetByHash finds under it until the time to live is over: the
  -- body, the content type, the status and the headers of the entry.
  pub get-set_self :
      (later : ℕ)
      → FitsRecord (prepare now e ttl)
      → IsEncodable (prepare now e ttl).header
      → expire_nano now ttl < 2 ^ 64
      → (set_by_hash now h (some e) ttl s).0 ≡ true
      → get_by_hash later h (set_by_hash now h (some e) ttl s).2 ≡ (
          if is_expired later (expire_nano now ttl)
          then none
          else some (restored later (expire_nano now ttl) (prepare now e ttl)))
  get-set_self later fits coded time ok =
      let (sh, found, ready) = shard_of h s r in
      let done = set_by_hash-at h s found now e ttl in
      rw (done, get_by_hash-at h _ (put_shard-at_self h s found (stored sh)) later)
        (get_record-store_self (expire_nano now ttl) h (prepare now e ttl) sh ready.index
          ready.valid ready.opened ready.indexed hash size later fits coded time (rw done at ok))

  -- Another hash finds what it found before, unless the store took the entry, both hashes lead to one
  -- shard and that shard was full: then its arena was reset and the other hash finds nothing.
  pub get-set_ne :
      (later j : ℕ)
      → h ≢ j
      → get_by_hash later j (set_by_hash now h (some e) ttl s).2 ≡ (
          if (shard_index h s == shard_index j s)
            && ((set_by_hash now h (some e) ttl s).0
                && shard_is_full h (total_entry_len (prepare now e ttl)) s)
          then none
          else get_by_hash later j s)
  unfolding shard_is_full
  get-set_ne later j ne =
      let (sh, found, ready) = shard_of h s r in
      let done = set_by_hash-at h s found now e ttl in
      elim (Bool-cases (shard_index h s == shard_index j s)) [
        | inl same ↦
            let i : shard_index h s ≡ shard_index j s = (==_iff _ _).0 same in
            rw
              (
                done,
                same,
                get_by_hash-at j _ (put_shard-at_same h j s found (stored sh) i) later,
                get_by_hash-at j s (rw i at found) later,
                found,
                shard_is_full,
              )
              (get_record-store_ne (expire_nano now ttl) h (prepare now e ttl) sh ready.index
                ready.valid ready.opened ready.indexed hash size later j ne)
        | inr apart ↦
            rw (done, apart)
              (get_by_hash-put_ne later h j (stored sh) s
                (λ i. cc (apart, (==_iff (shard_index h s) (shard_index j s)).1 i)))
      ]
