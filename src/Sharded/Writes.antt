-- ===== src/Sharded/Writes.antt =====
-- What `SetByHash` leaves behind: the entry that it stored, and the entries of the other hashes.
use cache_predict.Common.{
  ℕ, ◌+◌, ◌%◌, ◌^◌, ◌<◌, ◌≡◌, ◌≢◌, refl, sym, [], ◌++◌, Option, none, some, Bool, true, false, ◌&&◌,
  if_cases, Bool-cases, arith, length, length-append, ap, ◌∙◌, inl, inr, ltb, if◌then◌else◌,
  append_assoc,
}
use cache_predict.Common.Words.{Bytes, get_le-put_le, slice, slice_mid, slice_end}
use cache_predict.Common.Dict.{
  Dict, lookup, insert, lookup-insert_ne, lookup-insert_self, number_key,
}
use cache_predict.Entry.{ResponseEntry}
use cache_predict.Sharded.Codec.{encode_headers}
use cache_predict.Sharded.Codec.RoundTrip.{IsEncodable, decode-encode}
use cache_predict.Sharded.Shard.{
  record_bytes, total_entry_len, RecordHead, read_head, CacheShard, append_record, store_record,
  is_full, make_room, is_expired, expires, recover_vary, read_body, get_record,
}
use cache_predict.Sharded.Arena.{
  read_head-record_bytes, length-record_bytes, FitsRecord, behind, ring_eq, length-behind,
}
use cache_predict.Sharded.Invariant.{IsValid, AllSound, appended, appended-IsValid}
use cache_predict.Sharded.Reads.{live_record, find_live, find_live-append, get_record_exact}
use mathlib.Core.Path.{subst}

-- The entry that comes back: the Vary map is read off the headers, and the time is the reader's.
abbrev pub restored : ℕ → ℕ → ResponseEntry → ResponseEntry
restored now expire e = record e {
  created_at = now;
  expires_at = expires expire;
  vary = recover_vary e.header [];
}

module _ (pre : Bytes) (now expire h : ℕ) (e : ResponseEntry) (fits : FitsRecord e)
    (coded : IsEncodable e.header) (time : expire < 2 ^ 64) (hash : h < 2 ^ 64) where
  abbrev arena : Bytes
  arena = pre ++ record_bytes expire h e

  abbrev head : RecordHead
  head = record {
    expire = expire;
    stored_hash = h;
    status = e.status_code;
    ct_len = length e.content_type;
    hdr_len = length (encode_headers e.header);
    body_len = length e.body;
  }

  read_head_fits : read_head arena (length pre) ≡ head
  read_head_fits = read_head-record_bytes pre expire h e ∙ λ i. record {
    expire = get_le-put_le 8 expire time i;
    stored_hash = get_le-put_le 8 h hash i;
    status = get_le-put_le 2 e.status_code fits.status i;
    ct_len = get_le-put_le 2 (length e.content_type) fits.content_type i;
    hdr_len = get_le-put_le 4 (length (encode_headers e.header)) fits.header i;
    body_len = get_le-put_le 4 (length e.body) fits.body i;
  }

  abbrev front : Bytes
  front = behind pre expire h e

  abbrev cursor : ℕ
  cursor = length pre + 28

  slice_type : slice arena cursor (cursor + length e.content_type) ≡ e.content_type
  slice_type = rw (ring_eq pre expire h e) (
      slice_mid front e.content_type (encode_headers e.header ++ e.body) cursor _
        (sym (length-behind pre expire h e)) refl)

  slice_headers :
      slice arena
        (cursor + length e.content_type)
        (cursor + length e.content_type + length (encode_headers e.header))
      ≡ encode_headers e.header
  slice_headers =
      rw
        (
          ring_eq pre expire h e,
          ← append_assoc front e.content_type (encode_headers e.header ++ e.body),
        )
        (slice_mid (front ++ e.content_type) (encode_headers e.header) e.body _ _
          (omega (arith, length-behind pre expire h e, length-append front e.content_type)) refl)

  slice_body :
      slice arena
        (cursor + length e.content_type + length (encode_headers e.header))
        (cursor + length e.content_type + length (encode_headers e.header) + length e.body)
      ≡ e.body
  slice_body =
      rw
        (
          ring_eq pre expire h e,
          ← append_assoc front e.content_type (encode_headers e.header ++ e.body),
          ← append_assoc (front ++ e.content_type) (encode_headers e.header) e.body,
        )
        (slice_end ((front ++ e.content_type) ++ encode_headers e.header) e.body _ _
          (omega (
            arith,
            length-behind pre expire h e,
            length-append front e.content_type,
            length-append (front ++ e.content_type) (encode_headers e.header),
          ))
          refl)

  read_body_fits : read_body arena now cursor head ≡ restored now expire e
  unfolding read_body
  read_body_fits = rw (slice_type, slice_headers, slice_body, decode-encode e.header coded)

  -- A record that was written last is read back whole, unless it has expired.
  live_record-record_bytes :
      live_record arena now (length pre)
      ≡ (if is_expired now expire then none else some (restored now expire e))
  unfolding live_record
  live_record-record_bytes = rw (read_head_fits, read_body_fits)

module _ (expire h : ℕ) (e : ResponseEntry) (sh : CacheShard) (index : Dict ℕ ℕ) (v : IsValid sh)
    (opened : sh.closed ≡ false) (indexed : sh.entries ≡ some index) (hash : h < 2 ^ 64)
    (size : total_entry_len e < 2 ^ 32) where
  pub store-append : store_record expire h e sh ≡ append_record expire h e sh index
  unfolding store_record
  store-append =
      ap
        (λ (o : Option (Dict ℕ ℕ)).
          let r : Bool × CacheShard = elim o [
            | none ↦ (false, sh)
            | some i ↦ append_record expire h e sh i
          ] in
          r)
        indexed

  abbrev total : ℕ
  total = total_entry_len e

  abbrev room : Dict ℕ ℕ × Bytes
  room = make_room sh total index

  -- A hash looked up in the shard after the record was appended.
  get_record-appended :
      (now j : ℕ)
      → ltb sh.max_size (total % 2 ^ 32) ≡ false
      → get_record now j (appended sh expire h e room)
        ≡ find_live
            (room.1 ++ record_bytes expire h e)
            now
            (lookup j (insert h (length room.1 % 2 ^ 32) room.0))
  get_record-appended now j fit =
      let s = subst (AllSound sh.ring) indexed v.sound in
      get_record_exact (appended sh expire h e room) _
        (appended-IsValid expire h e sh index v s hash size fit) opened refl now j

  offset_fits : ltb sh.max_size (total % 2 ^ 32) ≡ false → length room.1 % 2 ^ 32 ≡ length room.1
  offset_fits fit =
      let s = subst (AllSound sh.ring) indexed v.sound in
      let w = appended-IsValid expire h e sh index v s hash size fit in
      omega (arith, w.bounded, v.sized, length-record_bytes room.1 expire h e)

  get_record-appended_ne :
      (now j : ℕ)
      → h ≢ j
      → ltb sh.max_size (total % 2 ^ 32) ≡ false
      → get_record now j (appended sh expire h e room)
        ≡ (if is_full sh total then none else get_record now j sh)
  unfolding make_room
  get_record-appended_ne now j ne fit =
      rw (get_record-appended now j fit, lookup-insert_ne h j (length room.1 % 2 ^ 32) room.0 ne)
        (elim (Bool-cases (is_full sh total)) [
          | inl full ↦ rw full (unfold lookup find_live in refl)
          | inr fresh ↦
              rw (fresh, get_record_exact sh index v opened indexed now j)
                (find_live-append sh index v opened indexed (record_bytes expire h e) now j)
        ])

  -- Another hash finds after SetByHash what it found before, unless the entry was stored in a shard
  -- that was full: then the shard has started afresh and the other hash finds nothing.
  pub get_record-store_ne :
      (now j : ℕ)
      → h ≢ j
      → get_record now j (store_record expire h e sh).1
        ≡ (if (store_record expire h e sh).0 && is_full sh total then none else get_record now j sh)
  unfolding append_record
  get_record-store_ne now j ne =
      let claim = λ (r : Bool × CacheShard).
        get_record now j r.1 ≡ (if r.0 && is_full sh total then none else get_record now j sh) in
      rw store-append (
        if_cases claim sh.closed _ _ (λ _. refl)
          λ _.
            if_cases claim (ltb sh.max_size (total % 2 ^ 32)) _ _ (λ _. refl)
              λ fit. get_record-appended_ne now j ne fit)

  -- What SetByHash stored under a hash, GetByHash returns for it until it has expired.
  pub get_record-store_self :
      (now : ℕ)
      → FitsRecord e
      → IsEncodable e.header
      → expire < 2 ^ 64
      → (store_record expire h e sh).0 ≡ true
      → get_record now h (store_record expire h e sh).1
        ≡ (if is_expired now expire then none else some (restored now expire e))
  unfolding append_record
  get_record-store_self now fits coded time =
      let goal = λ (r : Bool × CacheShard).
        r.0 ≡ true
        → get_record now h r.1
          ≡ (if is_expired now expire then none else some (restored now expire e)) in
      rw store-append (
        if_cases goal sh.closed _ _ (λ _ p. cc)
          λ _.
            if_cases goal (ltb sh.max_size (total % 2 ^ 32)) _ _ (λ _ p. cc)
              λ fit p.
                rw
                  (
                    get_record-appended now h fit,
                    lookup-insert_self h (length room.1 % 2 ^ 32) room.0,
                    offset_fits fit,
                  )
                  (unfold find_live in
                    live_record-record_bytes room.1 now expire h e fits coded time hash))
