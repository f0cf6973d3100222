-- ===== src/Sharded/Arena.antt =====
-- What the records of an arena look like: `read_record` on bytes that `record_bytes` wrote, and on
-- an arena that has grown since.
use cache_predict.Common.{
  ℕ, ◌+◌, ◌^◌, ◌≤◌, ◌<◌, ◌≡◌, refl, sym, ◌++◌, append_assoc, arith, length, length-append,
}
use cache_predict.Common.Words.{
  Bytes, put_le, get_le, slice, length-put_le, slice_mid, slice-append,
}
use cache_predict.Entry.{ResponseEntry}
use cache_predict.Sharded.Codec.{encode_headers}
use cache_predict.Sharded.Shard.{record_bytes, total_entry_len, read_head}

-- The arena grew behind a record: its header is read as before.
pub read_head-append :
    (ring more : Bytes) (offset : ℕ)
    → offset + 28 ≤ length ring
    → read_head (ring ++ more) offset ≡ read_head ring offset
unfolding read_head
read_head-append ring more offset h = rw (
  slice-append ring more offset (offset + 8) (omega arith) (omega arith),
  slice-append ring more (offset + 8) (offset + 16) (omega arith) (omega arith),
  slice-append ring more (offset + 16) (offset + 18) (omega arith) (omega arith),
  slice-append ring more (offset + 18) (offset + 20) (omega arith) (omega arith),
  slice-append ring more (offset + 20) (offset + 24) (omega arith) (omega arith),
  slice-append ring more (offset + 24) (offset + 28) (omega arith) (omega arith),
)

-- A number of `w` bytes that stands behind `pre`.
word_at :
    (ring pre post : Bytes) (w v i j : ℕ)
    → ring ≡ pre ++ (put_le w v ++ post)
    → i ≡ length pre
    → j ≡ i + w
    → get_le (slice ring i j) ≡ get_le (put_le w v)
word_at ring pre post w v i j hr hi hj =
    rw (hr, slice_mid pre (put_le w v) post i j hi (omega (arith, length-put_le w v)))

length_words : (xs : Bytes) (w v : ℕ) → length (xs ++ put_le w v) ≡ length xs + w
length_words xs w v = omega (arith, length-append xs (put_le w v), length-put_le w v)

-- The header of a record that stands behind `pre`.
module _ (pre tail : Bytes) (expire h status n₁ n₂ n₃ : ℕ) where
  abbrev from_body_len : Bytes
  from_body_len = put_le 4 n₃ ++ tail

  abbrev from_hdr_len : Bytes
  from_hdr_len = put_le 4 n₂ ++ from_body_len

  abbrev from_ct_len : Bytes
  from_ct_len = put_le 2 n₁ ++ from_hdr_len

  abbrev from_status : Bytes
  from_status = put_le 2 status ++ from_ct_len

  abbrev from_hash : Bytes
  from_hash = put_le 8 h ++ from_status

  abbrev arena : Bytes
  arena = pre ++ (put_le 8 expire ++ from_hash)

  abbrev pub behind_expire : Bytes
  behind_expire = pre ++ put_le 8 expire

  abbrev pub behind_hash : Bytes
  behind_hash = behind_expire ++ put_le 8 h

  abbrev pub behind_status : Bytes
  behind_status = behind_hash ++ put_le 2 status

  abbrev pub behind_ct_len : Bytes
  behind_ct_len = behind_status ++ put_le 2 n₁

  abbrev pub behind_hdr_len : Bytes
  behind_hdr_len = behind_ct_len ++ put_le 4 n₂

  read_head_front : read_head arena (length pre) ≡ record {
    expire = get_le (put_le 8 expire);
    stored_hash = get_le (put_le 8 h);
    status = get_le (put_le 2 status);
    ct_len = get_le (put_le 2 n₁);
    hdr_len = get_le (put_le 4 n₂);
    body_len = get_le (put_le 4 n₃);
  }
  unfolding read_head
  read_head_front =
      let l₂ : length behind_expire ≡ length pre + 8 = length_words pre 8 expire in
      let l₃ : length behind_hash ≡ length pre + 16 =
        omega (arith, length_words behind_expire 8 h) in
      let l₄ : length behind_status ≡ length pre + 18 =
        omega (arith, length_words behind_hash 2 status) in
      let l₅ : length behind_ct_len ≡ length pre + 20 =
        omega (arith, length_words behind_status 2 n₁) in
      let l₆ : length behind_hdr_len ≡ length pre + 24 =
        omega (arith, length_words behind_ct_len 4 n₂) in
      let e₁ = word_at arena pre from_hash 8 expire (length pre) (length pre + 8) refl refl refl in
      let e₂ =
        word_at arena behind_expire from_status 8 h (length pre + 8) (length pre + 16)
          (simp append_assoc) (sym l₂) (omega arith) in
      let e₃ =
        word_at arena behind_hash from_ct_len 2 status (length pre + 16) (length pre + 18)
          (simp append_assoc) (sym l₃) (omega arith) in
      let e₄ =
        word_at arena behind_status from_hdr_len 2 n₁ (length pre + 18) (length pre + 20)
          (simp append_assoc) (sym l₄) (omega arith) in
      let e₅ =
        word_at arena behind_ct_len from_body_len 4 n₂ (length pre + 20) (length pre + 24)
          (simp append_assoc) (sym l₅) (omega arith) in
      let e₆ =
        word_at arena behind_hdr_len tail 4 n₃ (length pre + 24) (length pre + 28)
          (simp append_assoc) (sym l₆) (omega arith) in
      λ i. record {
        expire = e₁ i;
        stored_hash = e₂ i;
        status = e₃ i;
        ct_len = e₄ i;
        hdr_len = e₅ i;
        body_len = e₆ i;
      }

  abbrev pub behind_head : Bytes
  behind_head = behind_hdr_len ++ put_le 4 n₃

  arena_eq : arena ≡ behind_head ++ tail
  arena_eq = simp append_assoc

  length-behind_head : length behind_head ≡ length pre + 28
  length-behind_head = omega (
    arith,
    length_words pre 8 expire,
    length_words behind_expire 8 h,
    length_words behind_hash 2 status,
    length_words behind_status 2 n₁,
    length_words behind_ct_len 4 n₂,
    length_words behind_hdr_len 4 n₃,
  )

-- An entry whose every length and number fits the bytes that a record has for it.
pub record FitsRecord (e : ResponseEntry) : Type 0 where
  pub status : e.status_code < 2 ^ 16
  pub content_type : length e.content_type < 2 ^ 16
  pub header : length (encode_headers e.header) < 2 ^ 32
  pub body : length e.body < 2 ^ 32

module _ (pre : Bytes) (expire h : ℕ) (e : ResponseEntry) where
  abbrev pub ring : Bytes
  ring = pre ++ record_bytes expire h e

  abbrev pub tail_of : Bytes
  tail_of = e.content_type ++ (encode_headers e.header ++ e.body)

  abbrev pub behind : Bytes
  behind =
      behind_head pre tail_of expire h e.status_code (length e.content_type)
        (length (encode_headers e.header)) (length e.body)

  pub ring_eq : ring ≡ behind ++ tail_of
  unfolding record_bytes
  ring_eq =
      arena_eq pre tail_of expire h e.status_code (length e.content_type)
        (length (encode_headers e.header)) (length e.body)

  pub length-behind : length behind ≡ length pre + 28
  length-behind =
      length-behind_head pre tail_of expire h e.status_code (length e.content_type)
        (length (encode_headers e.header)) (length e.body)

  pub length-record_bytes : length ring ≡ length pre + total_entry_len e
  unfolding total_entry_len
  length-record_bytes = rw ring_eq (
      omega (
        arith,
        length-behind,
        length-append behind tail_of,
        length-append e.content_type (encode_headers e.header ++ e.body),
        length-append (encode_headers e.header) e.body,
      ))

  pub read_head-record_bytes : read_head ring (length pre) ≡ record {
    expire = get_le (put_le 8 expire);
    stored_hash = get_le (put_le 8 h);
    status = get_le (put_le 2 e.status_code);
    ct_len = get_le (put_le 2 (length e.content_type));
    hdr_len = get_le (put_le 4 (length (encode_headers e.header)));
    body_len = get_le (put_le 4 (length e.body));
  }
  unfolding record_bytes
  read_head-record_bytes =
      read_head_front pre tail_of expire h e.status_code (length e.content_type)
        (length (encode_headers e.header)) (length e.body)
