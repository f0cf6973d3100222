-- ===== src/Sharded/Ops.antt =====
-- sharded_store.go: `ShardedStore`, its shards and the operations of the Store interface.
-- `sum64` is xxhash.Sum64String, a library function that is not part of the sources.
use cache_predict.Common.{
  ℕ, zero, suc, ◌*◌, ◌/◌, ◌%◌, ◌^◌, Bool, false, Option, none, some, List, [], map, ltb,
  if◌then◌else◌, get_elem?, set, replicate,
}
use cache_predict.Common.Int.{ℤ, pos, negsuc}
use cache_predict.Common.Words.{Bytes}
use cache_predict.Entry.{ResponseEntry}
use cache_predict.Sharded.Shard.{
  CacheShard, expire_nano, prepare, store_record, get_record, delete_record, close_shard,
}

abbrev pub default_shards : ℕ
default_shards = 256

abbrev pub default_max_shard_size : ℕ
default_max_shard_size = 1024 * 1024

pub record ShardedConfig : Type 0 where
  pub num_shards : ℤ
  pub max_cost_bytes : ℤ

pub record ShardedStore : Type 0 where
  pub shards : List CacheShard
  pub num_shards : ℕ

-- A configured number above zero replaces the default.
unfoldable pub positive_or : ℕ → ℤ → ℕ
positive_or default (pos zero) = default
positive_or default (pos (suc n)) = suc n
positive_or default (negsuc n) = default

-- `uint32(maxBytes / int64(numShards))`, and 64 KB at least
unfoldable pub shard_max_size : ℕ → ℕ → ℕ
shard_max_size max_bytes num_shards =
    let size = max_bytes / num_shards % 2 ^ 32 in if ltb size (64 * 1024) then 64 * 1024 else size

abbrev pub empty_shard : ℕ → CacheShard
empty_shard size = record { entries = some []; ring = []; max_size = size; closed = false }

-- The numbers that NewShardedStore settles on; the nil configuration is `none`.
unfoldable pub configured_shards : Option ShardedConfig → ℕ
unfolding positive_or
configured_shards none = default_shards
configured_shards (some cfg) = positive_or default_shards cfg.num_shards

unfoldable pub configured_bytes : Option ShardedConfig → ℕ
unfolding positive_or
configured_bytes none = default_shards * default_max_shard_size
configured_bytes (some cfg) =
    positive_or (default_shards * default_max_shard_size) cfg.max_cost_bytes

-- NewShardedStore
unfoldable pub new_sharded_store : Option ShardedConfig → ShardedStore
new_sharded_store cfg =
    let n = configured_shards cfg in
    record {
      shards = replicate n (empty_shard (shard_max_size (configured_bytes cfg) n));
      num_shards = n;
    }

-- GetByHash; a store always has the shard `h % numShards`.
unfoldable pub get_by_hash : ℕ → ℕ → ShardedStore → Option ResponseEntry
get_by_hash now h s = elim (get_elem? s.shards (h % s.num_shards)) [
  | none ↦ none
  | some sh ↦ get_record now h sh
]

-- The shard of `h` replaced.
unfoldable pub put_shard : ℕ → CacheShard → ShardedStore → ShardedStore
put_shard h sh s = record s { shards = set s.shards (h % s.num_shards) sh }

-- SetByHash with what it has written into the caller's entry; a nil entry is refused.
unfoldable pub set_by_hash :
    ℕ → ℕ → Option ResponseEntry → ℤ → ShardedStore → Bool × Option ResponseEntry × ShardedStore
set_by_hash now h none ttl s = (false, none, s)
set_by_hash now h (some e) ttl s =
    let e' = prepare now e ttl in
    elim (get_elem? s.shards (h % s.num_shards)) [
      | none ↦ (false, some e', s)
      | some sh ↦
          let (stored, sh') = store_record (expire_nano now ttl) h e' sh in
          (stored, some e', put_shard h sh' s)
    ]

unfoldable pub delete_by_hash : ℕ → ShardedStore → ShardedStore
delete_by_hash h s = elim (get_elem? s.shards (h % s.num_shards)) [
  | none ↦ s
  | some sh ↦ put_shard h (delete_record h sh) s
]

module _ (sum64 : Bytes → ℕ) where
  unfoldable pub get : ℕ → Bytes → ShardedStore → Option ResponseEntry
  get now key s = get_by_hash now (sum64 key) s

  unfoldable pub set_key :
      ℕ
      → Bytes
      → Option ResponseEntry
      → ℤ
      → ShardedStore
      → Bool × Option ResponseEntry × ShardedStore
  set_key now key e ttl s = set_by_hash now (sum64 key) e ttl s

  unfoldable pub del : Bytes → ShardedStore → ShardedStore
  del key s = delete_by_hash (sum64 key) s

unfoldable pub close : ShardedStore → ShardedStore
close s = record s { shards = map close_shard s.shards }
