-- ===== src/Sharded/Invariant.antt =====
-- The invariant of a shard, and that the critical sections of sharded_store.go keep it.
use cache_predict.Common.{
  ℕ, ◌+◌, ◌%◌, ◌^◌, ◌≤◌, ◌<◌, ◌≡◌, [], ◌∷◌, ◌++◌, Option, none, some, Bool, false, if_cases,
  Option-cases, arith, length, length-append, All, inl, inr, ltb,
}
use cache_predict.Common.Words.{Bytes, get_le-put_le, get_le-put_le_le}
use cache_predict.Common.Dict.{Dict, insert, All-insert, number_key}
use cache_predict.Entry.{ResponseEntry}
use cache_predict.Sharded.Codec.{encode_headers}
use cache_predict.Sharded.Shard.{
  record_bytes, total_entry_len, read_head, CacheShard, append_record, store_record, is_full,
  make_room,
}
use cache_predict.Sharded.Arena.{read_head-append, read_head-record_bytes, length-record_bytes}
use mathlib.Core.Path.{subst}

-- The index entry `(hash, offset)` leads to a whole record of that hash.
pub record IsSound (ring : Bytes) (item : ℕ × ℕ) : Type 0 where
  pub room : item.1 + 28 ≤ length ring
  pub named : (read_head ring item.1).stored_hash ≡ item.0
  pub inside :
      item.1
        + 28
        + (read_head ring item.1).ct_len
        + (read_head ring item.1).hdr_len
        + (read_head ring item.1).body_len
      ≤ length ring

abbrev pub AllSound : Bytes → Option (Dict ℕ ℕ) → Type 0
AllSound ring none = Unit
AllSound ring (some index) = All (IsSound ring) index

pub record IsValid (sh : CacheShard) : Type 0 where
  pub bounded : length sh.ring ≤ sh.max_size
  pub sized : sh.max_size < 2 ^ 31
  pub sound : AllSound sh.ring sh.entries

IsSound-append :
    (ring more : Bytes) (item : ℕ × ℕ) → IsSound ring item → IsSound (ring ++ more) item
IsSound-append ring more item s =
    let e = read_head-append ring more item.1 s.room in
    record {
      room = omega (arith, length-append ring more, s.room);
      named = rw e s.named;
      inside = rw e (omega (arith, length-append ring more, s.inside));
    }

All-IsSound-append :
    (ring more : Bytes) (index : Dict ℕ ℕ)
    → All (IsSound ring) index
    → All (IsSound (ring ++ more)) index
All-IsSound-append ring more [] h = tt
All-IsSound-append ring more (item ∷ index) (s, h) =
    (IsSound-append ring more item s, All-IsSound-append ring more index h)

IsSound-record_bytes :
    (pre : Bytes) (expire h : ℕ) (e : ResponseEntry)
    → h < 2 ^ 64
    → IsSound (pre ++ record_bytes expire h e) (h, length pre)
unfolding total_entry_len
IsSound-record_bytes pre expire h e fits =
    let head = read_head-record_bytes pre expire h e in
    let size = length-record_bytes pre expire h e in
    record {
      room = omega (arith, size);
      named = rw head (get_le-put_le 8 h fits);
      inside = rw head (
          omega (
            arith,
            size,
            get_le-put_le_le 2 (length e.content_type),
            get_le-put_le_le 4 (length (encode_headers e.header)),
            get_le-put_le_le 4 (length e.body),
          ));
    }

-- The arena with one more record, where the offset did not wrap.
push-IsValid :
    (sh : CacheShard) (index : Dict ℕ ℕ) (pre : Bytes) (expire h : ℕ) (e : ResponseEntry)
    → h < 2 ^ 64
    → sh.max_size < 2 ^ 31
    → length pre + total_entry_len e ≤ sh.max_size
    → All (IsSound pre) index
    → IsValid (record sh {
      entries = some (insert h (length pre % 2 ^ 32) index);
      ring = pre ++ record_bytes expire h e;
    })
push-IsValid sh index pre expire h e fits sized room sound =
    let w : length pre % 2 ^ 32 ≡ length pre = omega arith in
    record {
      bounded = omega (arith, length-record_bytes pre expire h e);
      sized = sized;
      sound = rw w (
          All-insert (IsSound (pre ++ record_bytes expire h e)) h (length pre) index
            (IsSound-record_bytes pre expire h e fits)
            (All-IsSound-append pre (record_bytes expire h e) index sound));
    }

abbrev pub appended : CacheShard → ℕ → ℕ → ResponseEntry → Dict ℕ ℕ × Bytes → CacheShard
appended sh expire h e room = record sh {
  entries = some (insert h (length room.1 % 2 ^ 32) room.0);
  ring = room.1 ++ record_bytes expire h e;
}

-- An entry that passed the test of its size is appended to a valid shard.
pub appended-IsValid :
    (expire h : ℕ) (e : ResponseEntry) (sh : CacheShard) (index : Dict ℕ ℕ)
    → IsValid sh
    → All (IsSound sh.ring) index
    → h < 2 ^ 64
    → total_entry_len e < 2 ^ 32
    → ltb sh.max_size (total_entry_len e % 2 ^ 32) ≡ false
    → IsValid (appended sh expire h e (make_room sh (total_entry_len e) index))
unfolding make_room is_full
appended-IsValid expire h e sh index v s hh ht fit =
    if_cases (λ room. IsValid (appended sh expire h e room)) (is_full sh (total_entry_len e)) _ _
      (λ full. push-IsValid sh [] [] expire h e hh v.sized (ground arith) tt)
      (λ room.
        push-IsValid sh index sh.ring expire h e hh v.sized (ground (arith, v.bounded, v.sized)) s)

append_record-IsValid :
    (expire h : ℕ) (e : ResponseEntry) (sh : CacheShard) (index : Dict ℕ ℕ)
    → IsValid sh
    → All (IsSound sh.ring) index
    → h < 2 ^ 64
    → total_entry_len e < 2 ^ 32
    → IsValid (append_record expire h e sh index).1
unfolding append_record
append_record-IsValid expire h e sh index v s hh ht =
    let P = λ (r : Bool × CacheShard). IsValid r.1 in
    if_cases P sh.closed _ _ (λ _. v)
      λ _.
        if_cases P (ltb sh.max_size (total_entry_len e % 2 ^ 32)) _ _ (λ _. v)
          λ fit. appended-IsValid expire h e sh index v s hh ht fit

pub store_record-IsValid :
    (expire h : ℕ) (e : ResponseEntry) (sh : CacheShard)
    → IsValid sh
    → h < 2 ^ 64
    → total_entry_len e < 2 ^ 32
    → IsValid (store_record expire h e sh).1
unfolding store_record
store_record-IsValid expire h e sh v hh ht = elim (Option-cases sh.entries) [
  | inl n ↦ rw (n, store_record) v
  | inr (index, q) ↦
      rw (q, store_record)
        (append_record-IsValid expire h e sh index v (subst (AllSound sh.ring) q v.sound) hh ht)
]
