-- ===== src/Sharded/Reads.antt =====
-- What `GetByHash` finds in a shard that keeps its invariant.
use cache_predict.Common.{
  ℕ, ◌+◌, ◌≡◌, ◌++◌, Option, none, some, false, Option-cases, arith, length, inl, inr, ltb-false,
  ==_iff, if◌then◌else◌,
}
use cache_predict.Common.Words.{Bytes, slice-append}
use cache_predict.Common.Dict.{Dict, lookup, All-lookup, number_key}
use cache_predict.Entry.{ResponseEntry}
use cache_predict.Sharded.Shard.{
  read_head, CacheShard, is_expired, read_body, read_record, get_record,
}
use cache_predict.Sharded.Arena.{read_head-append}
use cache_predict.Sharded.Invariant.{IsSound, IsValid, AllSound}
use mathlib.Core.Path.{subst}

-- The entry at a sound offset: absent exactly where it has expired.
unfoldable pub live_record : Bytes → ℕ → ℕ → Option ResponseEntry
live_record ring now offset =
    if is_expired now (read_head ring offset).expire
    then none
    else some (read_body ring now (offset + 28) (read_head ring offset))

-- At an offset of the index the checks of the code against a damaged arena never fail.
read_record-live :
    (ring : Bytes) (now h offset : ℕ)
    → IsSound ring (h, offset)
    → read_record ring now h offset ≡ live_record ring now offset
unfolding read_record live_record
read_record-live ring now h offset s =
    let head = read_head ring offset in
    rw (
      ltb-false (length ring) (offset + 28) s.room,
      (==_iff head.stored_hash h).1 s.named,
      ltb-false (length ring) (offset + 28 + head.ct_len + head.hdr_len + head.body_len) s.inside,
      read_record,
    )

live_record-append :
    (ring more : Bytes) (now h offset : ℕ)
    → IsSound ring (h, offset)
    → live_record (ring ++ more) now offset ≡ live_record ring now offset
unfolding live_record read_body
live_record-append ring more now h offset s =
    let head = read_head ring offset in
    let c = offset + 28 in
    rw (
      read_head-append ring more offset s.room,
      slice-append ring more c (c + head.ct_len) (omega arith) (omega (arith, s.inside)),
      slice-append ring more (c + head.ct_len) (c + head.ct_len + head.hdr_len) (omega arith)
          (omega (arith, s.inside)),
      slice-append ring more (c + head.ct_len + head.hdr_len)
          (c + head.ct_len + head.hdr_len + head.body_len) (omega arith) (omega (arith, s.inside)),
    )

-- What a hash finds through the index.
unfoldable pub find_live : Bytes → ℕ → Option ℕ → Option ResponseEntry
find_live ring now none = none
find_live ring now (some offset) = live_record ring now offset

module _ (sh : CacheShard) (index : Dict ℕ ℕ) (v : IsValid sh) (opened : sh.closed ≡ false)
    (indexed : sh.entries ≡ some index) where
  IsSound-lookup : (h offset : ℕ) → lookup h index ≡ some offset → IsSound sh.ring (h, offset)
  IsSound-lookup h offset e =
      All-lookup (IsSound sh.ring) h offset index (subst (AllSound sh.ring) indexed v.sound) e

  -- In an open shard that keeps its invariant `GetByHash` answers with the record that the index
  -- names, and with nothing exactly where the hash is not in the index or the record has expired.
  pub get_record_exact : (now h : ℕ) → get_record now h sh ≡ find_live sh.ring now (lookup h index)
  unfolding get_record find_live
  get_record_exact now h = elim (Option-cases (lookup h index)) [
    | inl n ↦ rw (indexed, opened, n, get_record)
    | inr (offset, e) ↦
        rw (indexed, opened, e, get_record)
          (read_record-live sh.ring now h offset (IsSound-lookup h offset e))
  ]

  pub find_live-append :
      (more : Bytes) (now h : ℕ)
      → find_live (sh.ring ++ more) now (lookup h index) ≡ find_live sh.ring now (lookup h index)
  unfolding find_live
  find_live-append more now h = elim (Option-cases (lookup h index)) [
    | inl n ↦ rw n
    | inr (offset, e) ↦
        rw (e, find_live) (live_record-append sh.ring more now h offset (IsSound-lookup h offset e))
  ]
