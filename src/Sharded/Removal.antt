-- ===== src/Sharded/Removal.antt =====
-- `Del`, `Close` and `NewShardedStore` of sharded_store.go.
use cache_predict.Common.{
  ℕ, zero, suc, ◌%◌, ◌^◌, ◌<◌, ◌≡◌, refl, List, [], ◌∷◌, Option, none, some, false, Option-cases,
  Bool-cases, arith, inl, inr, ◌==◌, ==_iff, if◌then◌else◌, get_elem?, length-replicate,
  All-replicate, map,
}
use cache_predict.Common.Int.{ℤ}
use cache_predict.Common.Dict.{lookup-remove, number_key}
use cache_predict.Entry.{ResponseEntry}
use cache_predict.Sharded.Shard.{CacheShard, store_record, get_record, delete_record, close_shard}
use cache_predict.Sharded.Ops.{
  ShardedStore, ShardedConfig, get_by_hash, set_by_hash, delete_by_hash, close, new_sharded_store,
  configured_shards, configured_bytes, shard_max_size, empty_shard,
}
use cache_predict.Sharded.Laws.{
  IsReady, IsReadyStore, shard_index, put_shard-at_same, get_by_hash-at, delete_by_hash-at,
  get_by_hash-put_ne,
}

-- In one shard, open or not.
get_record-delete :
    (now h j : ℕ) (sh : CacheShard)
    → get_record now j (delete_record h sh) ≡ (if h == j then none else get_record now j sh)
unfolding get_record delete_record
get_record-delete now h j sh = elim (Option-cases sh.entries) [
  | inl n ↦ ground arith
  | inr (index, e) ↦ ground (arith, lookup-remove h j index)
]

-- After Del of a hash GetByHash finds nothing under it, and under any other what it found before.
pub get-delete :
    (now h j : ℕ) (s : ShardedStore)
    → get_by_hash now j (delete_by_hash h s) ≡ (if h == j then none else get_by_hash now j s)
unfolding get_by_hash delete_by_hash
get-delete now h j s = elim (Option-cases (get_elem? s.shards (shard_index h s))) [
  | inl n ↦ ground arith
  | inr (sh, found) ↦ elim (Bool-cases (shard_index h s == shard_index j s)) [
    | inl same ↦
        let i : shard_index h s ≡ shard_index j s = (==_iff _ _).0 same in
        rw
          (
            delete_by_hash-at h s found,
            get_by_hash-at j _ (put_shard-at_same h j s found (delete_record h sh) i) now,
            get_by_hash-at j s (rw i at found) now,
          )
          (get_record-delete now h j sh)
    | inr apart ↦
        rw
          (
            delete_by_hash-at h s found,
            get_by_hash-put_ne now h j (delete_record h sh) s
                (λ i. cc (apart, (==_iff (shard_index h s) (shard_index j s)).1 i)),
          )
          (ground (arith, apart))
  ]
]

get_elem?-map_close :
    (shards : List CacheShard) (i : ℕ)
    → get_elem? (map close_shard shards) i
      ≡ elim (get_elem? shards i) [ none ↦ none | some sh ↦ some (close_shard sh) ]
get_elem?-map_close [] i = refl
get_elem?-map_close (sh ∷ shards) zero = refl
get_elem?-map_close (sh ∷ shards) (suc i) = get_elem?-map_close shards i

-- A closed store finds nothing under any hash and takes no entry.
pub close_final :
    (now h : ℕ) (e : Option ResponseEntry) (ttl : ℤ) (s : ShardedStore)
    → (get_by_hash now h (close s) ≡ none) × ((set_by_hash now h e ttl (close s)).0 ≡ false)
unfolding get_by_hash set_by_hash close close_shard get_record store_record
close_final now h e ttl s = elim (Option-cases (get_elem? s.shards (h % s.num_shards))) [
  | inl n ↦ ground (arith, get_elem?-map_close s.shards (h % s.num_shards))
  | inr (sh, found) ↦ ground (arith, get_elem?-map_close s.shards (h % s.num_shards))
]

configured_shards_pos : (cfg : Option ShardedConfig) → 0 < configured_shards cfg
unfolding configured_shards
configured_shards_pos none = omega arith
configured_shards_pos (some cfg) = ground arith

-- A new store is open and keeps its invariants, where a shard has less than 2 GiB.
pub new_sharded_store-IsReadyStore :
    (cfg : Option ShardedConfig)
    → shard_max_size (configured_bytes cfg) (configured_shards cfg) < 2 ^ 31
    → IsReadyStore (new_sharded_store cfg)
unfolding new_sharded_store
new_sharded_store-IsReadyStore cfg small =
    let size = shard_max_size (configured_bytes cfg) (configured_shards cfg) in
    record {
      sharded = configured_shards_pos cfg;
      complete = length-replicate (configured_shards cfg) (empty_shard size);
      ready = All-replicate IsReady (configured_shards cfg) (empty_shard size) (record {
        valid = record { bounded = omega arith; sized = small; sound = tt };
        opened = refl;
        index = [];
        indexed = refl;
      });
    }
