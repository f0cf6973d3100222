-- ===== src/Sharded/Sizes.antt =====
-- How SetByHash measures a shard: the record that is refused, the arena that is full, and its new length.
use cache_predict.Common.{
  ℕ, ◌+◌, ◌%◌, ◌^◌, ◌<◌, ◌≡◌, [], Bool, true, false, not, arith, length, ltb, if◌then◌else◌,
}
use cache_predict.Entry.{ResponseEntry}
use cache_predict.Sharded.Arena.{length-record_bytes}
use cache_predict.Sharded.Laws.{IsReady}
use cache_predict.Sharded.Shard.{
  total_entry_len, CacheShard, append_record, store_record, is_full, make_room,
}
use cache_predict.Sharded.Writes.{store-append}

-- The bytes in an arena of `used` bytes and at most `max_size` after a record of `total` is written.
abbrev pub used_after : ℕ → ℕ → ℕ → ℕ
used_after max_size used total =
    if ltb max_size total then used else if ltb max_size (used + total) then total else used + total

-- What a shard shows of itself after SetByHash, apart from its index.
pub record IsMeasured (sh : CacheShard) (total : ℕ) (res : Bool × CacheShard) : Type 0 where
  pub answer : res.0 ≡ not (ltb sh.max_size total)
  pub same_size : res.1.max_size ≡ sh.max_size
  pub new_length : length res.1.ring ≡ used_after sh.max_size (length sh.ring) total
  pub refused : ltb sh.max_size total ≡ true → res.1 ≡ sh

module _ (expire h : ℕ) (e : ResponseEntry) (sh : CacheShard) (ready : IsReady sh)
    (hash : h < 2 ^ 64) (size : total_entry_len e < 2 ^ 32) where
  abbrev total : ℕ
  total = total_entry_len e

  pub is_full-fits :
      ltb sh.max_size total ≡ false → is_full sh total ≡ ltb sh.max_size (length sh.ring + total)
  unfolding is_full
  is_full-fits fit = ground (arith, ready.valid.bounded, ready.valid.sized)

  plain : total % 2 ^ 32 ≡ total
  plain = omega (arith, size)

  append-IsMeasured : IsMeasured sh total (append_record expire h e sh ready.index)
  unfolding append_record make_room is_full
  append-IsMeasured = record {
    answer = ground (arith, ready.opened, plain);
    same_size = ground (arith, ready.opened, plain);
    new_length = ground (
      arith,
      ready.opened,
      ready.valid.bounded,
      ready.valid.sized,
      length-record_bytes [] expire h e,
      length-record_bytes sh.ring expire h e,
    );
    refused = λ big. ground (arith, ready.opened, plain);
  }

  pub store_record-IsMeasured : IsMeasured sh total (store_record expire h e sh)
  store_record-IsMeasured =
      rw (store-append expire h e sh ready.index ready.valid ready.opened ready.indexed hash size)
        append-IsMeasured
