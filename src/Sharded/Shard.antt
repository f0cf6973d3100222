-- ===== src/Sharded/Shard.antt =====
-- sharded_store.go: one `cacheShard`, a byte arena `ring` with the index `entries` from hashes to
-- offsets. The shard of a hash and the hash of a key are in cache_predict.Sharded.Ops.
use cache_predict.Common.{
  ℕ, zero, suc, ◌+◌, ◌%◌, ◌^◌, Bool, true, false, ◌&&◌, not, Option, none, some, List, [], ◌∷◌,
  ◌++◌, ltb, ◌==◌, if◌then◌else◌, length, drop,
}
use cache_predict.Common.Int.{ℤ, pos, negsuc}
use cache_predict.Common.Words.{Bytes, put_le, get_le, slice}
use cache_predict.Common.Dict.{Dict, lookup, insert, remove, number_key, bytes_key}
use cache_predict.Common.Text.{codes, to_lower, has_prefix}
use cache_predict.Http
use cache_predict.Http.{Header}
use cache_predict.Entry.{ResponseEntry}
use cache_predict.Sharded.Codec.{encode_headers, decode_headers}

abbrev pub entry_header_size : ℕ
entry_header_size = 28

pub record CacheShard : Type 0 where
  pub entries : Option (Dict ℕ ℕ)
  pub ring : Bytes
  pub max_size : ℕ
  pub closed : Bool

-- A ttl above zero sets an expiry `now + ttl`; any other stands for "never", 0.
unfoldable pub expire_nano : ℕ → ℤ → ℕ
expire_nano now (pos zero) = 0
expire_nano now (pos (suc n)) = now + suc n
expire_nano now (negsuc n) = 0

abbrev expiry : ℕ → ℤ → Option ℕ → Option ℕ
expiry now (pos zero) old = old
expiry now (pos (suc n)) old = some (now + suc n)
expiry now (negsuc n) old = old

-- entry.Header.Set("X-Precog-Vary-"+strings.ToLower(k), v) for each recorded header
unfoldable pub persist_vary : Dict Bytes Bytes → Header → Header
persist_vary [] h = h
persist_vary ((k, v) ∷ m) h = persist_vary m (Http.set h (codes "X-Precog-Vary-" ++ to_lower k) v)

-- What SetByHash writes into the caller's entry before it looks at the shard.
unfoldable pub prepare : ℕ → ResponseEntry → ℤ → ResponseEntry
prepare now e ttl = record e {
  header = persist_vary e.vary e.header;
  expires_at = expiry now ttl e.expires_at;
}

-- The bytes of one record: the header of 28 bytes, the content type, the headers and the body.
unfoldable pub record_bytes : ℕ → ℕ → ResponseEntry → Bytes
record_bytes expire h e =
    put_le 8 expire
    ++ (put_le 8 h
        ++ (put_le 2 e.status_code
            ++ (put_le 2 (length e.content_type)
                ++ (put_le 4 (length (encode_headers e.header))
                    ++ (put_le 4 (length e.body)
                        ++ (e.content_type ++ (encode_headers e.header ++ e.body)))))))

unfoldable pub total_entry_len : ResponseEntry → ℕ
total_entry_len e =
    entry_header_size + length e.content_type + length (encode_headers e.header) + length e.body

-- `uint32(len(sh.ring))+uint32(totalEntryLen) > sh.maxSize`, a sum that wraps
unfoldable pub is_full : CacheShard → ℕ → Bool
is_full sh total = ltb sh.max_size ((length sh.ring % 2 ^ 32 + total % 2 ^ 32) % 2 ^ 32)

-- A full shard starts afresh, and loses what it held.
unfoldable pub make_room : CacheShard → ℕ → Dict ℕ ℕ → Dict ℕ ℕ × Bytes
make_room sh total index = if is_full sh total then ([], []) else (index, sh.ring)

-- SetByHash on a shard that has its index: the three tests, and the record that is appended.
unfoldable pub append_record : ℕ → ℕ → ResponseEntry → CacheShard → Dict ℕ ℕ → Bool × CacheShard
append_record expire h e sh index =
    if sh.closed
    then (false, sh)
    else if ltb sh.max_size (total_entry_len e % 2 ^ 32)
    then (false, sh)
    else let (index', ring') = make_room sh (total_entry_len e) index in
      (
        true,
        record sh {
          entries = some (insert h (length ring' % 2 ^ 32) index');
          ring = ring' ++ record_bytes expire h e;
        },
      )

-- The critical section of SetByHash, for an entry that `prepare` has written.
unfoldable pub store_record : ℕ → ℕ → ResponseEntry → CacheShard → Bool × CacheShard
store_record expire h e sh = elim sh.entries [
  | none ↦ (false, sh)
  | some index ↦ append_record expire h e sh index
]

-- The numbers in the header of a record.
pub record RecordHead : Type 0 where
  pub expire : ℕ
  pub stored_hash : ℕ
  pub status : ℕ
  pub ct_len : ℕ
  pub hdr_len : ℕ
  pub body_len : ℕ

unfoldable pub read_head : Bytes → ℕ → RecordHead
read_head ring offset = record {
  expire = get_le (slice ring offset (offset + 8));
  stored_hash = get_le (slice ring (offset + 8) (offset + 16));
  status = get_le (slice ring (offset + 16) (offset + 18));
  ct_len = get_le (slice ring (offset + 18) (offset + 20));
  hdr_len = get_le (slice ring (offset + 20) (offset + 24));
  body_len = get_le (slice ring (offset + 24) (offset + 28));
}

-- `expireNano > 0 && now > expireNano`, where the 8 bytes are read as an int64
unfoldable pub is_expired : ℕ → ℕ → Bool
is_expired now expire = (ltb 0 expire && ltb expire (2 ^ 63)) && ltb expire now

unfoldable pub expires : ℕ → Option ℕ
expires expire = if ltb 0 expire && ltb expire (2 ^ 63) then some expire else none

abbrev recover_one : Bytes → List Bytes → Dict Bytes Bytes → Dict Bytes Bytes
recover_one k [] m = m
recover_one k (v ∷ vv) m =
    if has_prefix (to_lower k) (codes "x-precog-vary-")
    then insert (drop (length (codes "x-precog-vary-")) k) v m
    else m

-- The Vary map from the headers that `persist_vary` added.
unfoldable pub recover_vary : Header → Dict Bytes Bytes → Dict Bytes Bytes
recover_vary [] m = m
recover_vary ((k, vv) ∷ h) m = recover_vary h (recover_one k vv m)

-- The entry behind a record's header.
unfoldable pub read_body : Bytes → ℕ → ℕ → RecordHead → ResponseEntry
unfolding expires
read_body ring now cursor head =
    let hdr =
      decode_headers (slice ring (cursor + head.ct_len) (cursor + head.ct_len + head.hdr_len)) in
    record {
      body =
          slice ring (cursor + head.ct_len + head.hdr_len)
            (cursor + head.ct_len + head.hdr_len + head.body_len);
      header = hdr;
      content_type = slice ring cursor (cursor + head.ct_len);
      status_code = head.status;
      created_at = now;
      expires_at = expires head.expire;
      vary = recover_vary hdr [];
    }

-- GetByHash from the offset on.
unfoldable pub read_record : Bytes → ℕ → ℕ → ℕ → Option ResponseEntry
read_record ring now h offset =
    if ltb (length ring) (offset + entry_header_size)
    then none
    else let head = read_head ring offset in
      let cursor = offset + entry_header_size in
      if not (head.stored_hash == h)
      then none
      else if is_expired now head.expire
      then none
      else if ltb (length ring) (cursor + head.ct_len + head.hdr_len + head.body_len)
      then none
      else some (read_body ring now cursor head)

-- The critical section of GetByHash.
unfoldable pub get_record : ℕ → ℕ → CacheShard → Option ResponseEntry
get_record now h sh = elim sh.entries [
  | none ↦ none
  | some index ↦
      if sh.closed
      then none
      else elim (lookup h index) [ none ↦ none | some offset ↦ read_record sh.ring now h offset ]
]

-- The critical section of Del.
unfoldable pub delete_record : ℕ → CacheShard → CacheShard
delete_record h sh = elim sh.entries [
  | none ↦ sh
  | some index ↦ if sh.closed then sh else record sh { entries = some (remove h index) }
]

-- What Close does to a shard.
unfoldable pub close_shard : CacheShard → CacheShard
close_shard sh = record sh { entries = none; ring = []; closed = true }
