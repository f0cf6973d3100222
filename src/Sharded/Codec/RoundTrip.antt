-- ===== src/Sharded/Codec/RoundTrip.antt =====
-- `decodeHeaders` reads back what `encodeHeaders` wrote.
use cache_predict.Common.{
  ℕ, ◌^◌, ◌<◌, ◌≡◌, refl, sym, ◌∙◌, ap, some, List, [], ◌∷◌, ◌++◌, append_assoc, append-nil, arith,
  le→leb, ltb-false, length, length-append, take-append_front, drop-append_front, All,
}
use cache_predict.Common.Words.{Bytes, put_le, get_le, length-put_le, get_le-put_le}
use cache_predict.Common.Dict.{insert, bytes_key, IsMap, Fresh, Fresh-nil, Fresh-insert, insert_new}
use cache_predict.Http.{Header}
use cache_predict.Sharded.Codec.{
  encode_values, encode_fields, encode_headers, read_word, read_bytes, value, read_value,
  decode_values, decode_field, decode_fields, decode_headers,
}

-- A front of known length.
read_bytes-append :
    (s rest : Bytes) (n : ℕ) → n ≡ length s → read_bytes n (s ++ rest) ≡ some (s, rest)
unfolding read_bytes
read_bytes-append s rest n e = rw (
  e,
  ltb-false (length (s ++ rest)) (length s) (omega (arith, length-append s rest)),
  take-append_front s rest,
  drop-append_front s rest,
)

read_word-append :
    (s rest : Bytes) (w : ℕ) → w ≡ length s → read_word w (s ++ rest) ≡ some (get_le s, rest)
unfolding read_word
read_word-append s rest w e = rw (
  e,
  le→leb (length s) (length (s ++ rest)) (omega (arith, length-append s rest)),
  take-append_front s rest,
  drop-append_front s rest,
)

read_word-put_le :
    (w v : ℕ) (rest : Bytes) → v < 256 ^ w → read_word w (put_le w v ++ rest) ≡ some (v, rest)
read_word-put_le w v rest h =
    read_word-append (put_le w v) rest w (sym (length-put_le w v))
    ∙ ap (λ (n : ℕ). some (n, rest)) (get_le-put_le w v h)

abbrev pub IsShortValue : Bytes → Type 0
IsShortValue v = length v < 2 ^ 32

read_value-append :
    (v rest : Bytes)
    → IsShortValue v
    → read_value (put_le 4 (length v) ++ (v ++ rest)) ≡ value v rest
unfolding read_value
read_value-append v rest h = rw (
  read_word-put_le 4 (length v) (v ++ rest) h,
  read_bytes-append v rest (length v) refl,
  read_value,
)

decode_values-encode_values :
    (vv : List Bytes) (rest : Bytes)
    → All IsShortValue vv
    → decode_values (length vv) (encode_values vv ++ rest) ≡ (vv, rest)
unfolding decode_values encode_values
decode_values-encode_values [] rest h = refl
decode_values-encode_values (v ∷ vv) rest (hv, hs) = rw (
  append_assoc (put_le 4 (length v)) (v ++ encode_values vv) rest,
  append_assoc v (encode_values vv) rest,
  read_value-append v (encode_values vv ++ rest) hv,
  decode_values-encode_values vv rest hs,
  decode_values,
)

abbrev pub IsShortField : Bytes × List Bytes → Type 0
IsShortField (k, vv) = (length k < 2 ^ 16) × (length vv < 2 ^ 16) × All IsShortValue vv

decode_field-append :
    (k : Bytes) (vv : List Bytes) (rest : Bytes)
    → IsShortField (k, vv)
    → decode_field
        (put_le 2 (length k) ++ (k ++ (put_le 2 (length vv) ++ (encode_values vv ++ rest))))
      ≡ some (k, vv, rest)
unfolding decode_field
decode_field-append k vv rest (hk, hn, hv) = rw (
  read_word-put_le 2 (length k) (k ++ (put_le 2 (length vv) ++ (encode_values vv ++ rest))) hk,
  read_bytes-append k (put_le 2 (length vv) ++ (encode_values vv ++ rest)) (length k) refl,
  read_word-put_le 2 (length vv) (encode_values vv ++ rest) hn,
  decode_values-encode_values vv rest hv,
)

decode_fields-encode_fields :
    (h acc : Header) (rest : Bytes)
    → All IsShortField h
    → IsMap h
    → Fresh acc h
    → decode_fields (length h) (encode_fields h ++ rest) acc ≡ acc ++ h
unfolding decode_fields encode_fields
decode_fields-encode_fields [] acc rest s m f = sym (append-nil acc)
decode_fields-encode_fields ((k, vv) ∷ h) acc rest (s, ss) (m, ms) (f, fs) =
    rw
      (
        append_assoc (put_le 2 (length k))
            (k ++ (put_le 2 (length vv) ++ (encode_values vv ++ encode_fields h))) rest,
        append_assoc k (put_le 2 (length vv) ++ (encode_values vv ++ encode_fields h)) rest,
        append_assoc (put_le 2 (length vv)) (encode_values vv ++ encode_fields h) rest,
        append_assoc (encode_values vv) (encode_fields h) rest,
        decode_field-append k vv (encode_fields h ++ rest) s,
        decode_fields,
      )
      (decode_fields-encode_fields h (insert k vv acc) rest ss ms (Fresh-insert k vv acc h m fs)
        ∙ rw (insert_new k vv acc f, append_assoc acc ((k, vv) ∷ []) h))

-- A header that the section has room for.
pub record IsEncodable (h : Header) : Type 0 where
  pub few : length h < 2 ^ 16
  pub short : All IsShortField h
  pub is_map : IsMap h

-- Of a header that fits its numbers `decodeHeaders` reads back from `encodeHeaders` the same names
-- with the same values, in the same order.
pub decode-encode : (h : Header) → IsEncodable h → decode_headers (encode_headers h) ≡ h
unfolding decode_headers encode_headers
decode-encode [] e = unfold read_word in refl
decode-encode (f ∷ h) e =
    rw (read_word-put_le 2 (length (f ∷ h)) (encode_fields (f ∷ h)) e.few, decode_headers)
      (rw (← append-nil (encode_fields (f ∷ h)))
        (decode_fields-encode_fields (f ∷ h) [] [] e.short e.is_map (Fresh-nil (f ∷ h))))
