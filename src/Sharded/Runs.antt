-- ===== src/Sharded/Runs.antt =====
-- Runs of the sharded store, and its theorems at concrete inputs.
use cache_predict.Common.{
  ◌≡◌, refl, List, Option, none, some, [], ◌∷◌, ◌<◌, ◌^◌, true, false, arith,
}
use cache_predict.Common.Int.{pos}
use cache_predict.Common.Words.{put_le}
use cache_predict.Common.Dict.{lookup, insert, number_key, bytes_key}
use cache_predict.Common.Text.{codes, to_lower, has_prefix}
use cache_predict.Http
use cache_predict.Http.{Header}
use cache_predict.Entry.{ResponseEntry}
use cache_predict.Sharded.Codec.{encode_headers, encode_fields, encode_values, decode_headers}
use cache_predict.Sharded.Codec.RoundTrip.{IsEncodable, decode-encode}
use cache_predict.Sharded.Shard.{
  expire_nano, prepare, persist_vary, total_entry_len, append_record, store_record, is_expired,
  recover_vary,
}
use cache_predict.Sharded.Ops.{
  ShardedStore, ShardedConfig, new_sharded_store, configured_shards, configured_bytes,
  shard_max_size, get_by_hash, set_by_hash, close,
}
use cache_predict.Sharded.Arena.{FitsRecord}
use cache_predict.Sharded.Writes.{restored}
use cache_predict.Sharded.Laws.{IsReadyStore, get-set_self}
use cache_predict.Sharded.Ideal.{
  Command, sets, gets, deletes, taken, found, deleted, answers, FitsFormat,
}
use cache_predict.Sharded.Refinement.{answers-new_sharded_store}
use cache_predict.Sharded.Removal.{close_final, new_sharded_store-IsReadyStore}

abbrev two_headers : Header
two_headers = (codes "Etag", codes "1" ∷ []) ∷ (codes "Vary", codes "A" ∷ codes "" ∷ []) ∷ []

abbrev sample : ResponseEntry
sample = record {
  body = codes "hi";
  header = two_headers;
  content_type = codes "t";
  status_code = 200;
  created_at = 1;
  expires_at = none;
  vary = (codes "A", codes "b") ∷ [];
}

abbrev small : Option ShardedConfig
small = some (record { num_shards = pos 2; max_cost_bytes = pos 1000 })

two_headers-IsEncodable : IsEncodable two_headers
unfolding lookup
two_headers-IsEncodable = record {
  few = omega arith;
  short = omega arith;
  is_map = (refl, (refl, tt));
}

decode-encode_example : decode_headers (encode_headers two_headers) ≡ two_headers
decode-encode_example = decode-encode two_headers two_headers-IsEncodable

-- The Vary map goes through the headers and comes back under its canonical names.
vary_survives :
    recover_vary (persist_vary sample.vary sample.header) [] ≡ (codes "A", codes "b") ∷ []
unfolding recover_vary persist_vary Http.set has_prefix to_lower insert Http.canonical_key
vary_survives = refl

small_fits : shard_max_size (configured_bytes small) (configured_shards small) < 2 ^ 31
unfolding shard_max_size configured_bytes configured_shards
small_fits = omega arith

abbrev prepared : ResponseEntry
prepared = prepare 40 sample (pos 100)

prepared_size : total_entry_len prepared < 2 ^ 32
unfolding total_entry_len prepare persist_vary encode_headers encode_fields encode_values Http.set
    Http.canonical_key insert to_lower put_le
prepared_size = omega arith

abbrev filled : ShardedStore
filled = (set_by_hash 40 7 (some sample) (pos 100) (new_sharded_store small)).2

prepared_fits : FitsRecord prepared
unfolding prepare persist_vary encode_headers encode_fields encode_values Http.set
    Http.canonical_key insert to_lower put_le
prepared_fits = record {
  status = omega arith;
  content_type = omega arith;
  header = omega arith;
  body = omega arith;
}

prepared_coded : IsEncodable prepared.header
unfolding prepare persist_vary Http.set Http.canonical_key insert lookup to_lower
prepared_coded = record {
  few = omega arith;
  short = omega arith;
  is_map = (refl, (refl, (refl, tt)));
}

accepted : (set_by_hash 40 7 (some sample) (pos 100) (new_sharded_store small)).0 ≡ true
unfolding set_by_hash store_record append_record new_sharded_store shard_max_size configured_bytes
    configured_shards total_entry_len prepare persist_vary encode_headers encode_fields
    encode_values Http.set Http.canonical_key insert to_lower put_le
accepted = refl

time_fits : expire_nano 40 (pos 100) < 2 ^ 64
unfolding expire_nano
time_fits = omega arith

small-IsReadyStore : IsReadyStore (new_sharded_store small)
small-IsReadyStore = new_sharded_store-IsReadyStore small small_fits

-- What is stored at 40 for 100 is gone at 141.
get-set_late : get_by_hash 141 7 filled ≡ none
unfolding is_expired expire_nano
get-set_late =
    get-set_self 40 7 sample (pos 100) (new_sharded_store small) small-IsReadyStore (omega arith)
      prepared_size 141 prepared_fits prepared_coded time_fits accepted

close_final_example :
    (get_by_hash 90 7 (close filled) ≡ none)
    × ((set_by_hash 90 7 (some sample) (pos 5) (close filled)).0 ≡ false)
close_final_example = close_final 90 7 (some sample) (pos 5) filled

-- One entry is stored, found, deleted, and not found again.
abbrev four_calls : List Command
four_calls = sets 40 7 sample (pos 100) ∷ gets 90 7 ∷ deletes 7 ∷ gets 90 7 ∷ []

set_fits : FitsFormat 40 7 sample (pos 100)
set_fits = record {
  hash = omega arith;
  size = prepared_size;
  lengths = prepared_fits;
  coded = prepared_coded;
  time = time_fits;
}

answers-new_sharded_store_example :
    answers four_calls (new_sharded_store small)
    ≡ taken true ∷ found (some (restored 90 140 prepared)) ∷ deleted ∷ found none ∷ []
unfolding is_expired expire_nano configured_bytes configured_shards shard_max_size total_entry_len
    prepare persist_vary encode_headers encode_fields encode_values Http.set Http.canonical_key
    insert to_lower put_le
answers-new_sharded_store_example =
    answers-new_sharded_store small four_calls small_fits (set_fits, (tt, (tt, (tt, tt))))
