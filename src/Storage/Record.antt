-- ===== src/Storage/Record.antt =====
-- crates/es-broker/src/storage/record.rs: one event record on disk. `crc32fast::hash` is a parameter,
-- and a signed integer is its two's complement word.
pub mod Fields
pub mod RoundTrip
use event_stream.Prelude.{
  ℕ, ◌+◌, ◌-◌, ◌*◌, ◌%◌, ◌^◌, Bool, Option, none, some, List, [], ◌∷◌, ◌++◌, ltb, leb, ◌==◌,
  if◌then◌else◌, length, take, drop, is_empty, unwrap_or,
}
use event_stream.Bytes.BigEndian.{to_be, from_be}

pub record Record : Type 0 where
  pub offset : ℕ
  pub timestamp_ms : ℕ
  pub key : Option (List ℕ)
  pub value : List ℕ

-- The `reason` of an invalid header.
pub data Reason : Type 0 where
  body_len_below_minimum body_len_exceeds_maximum key_len_negative value_len_mismatch : Reason

pub data RecordDecodeError : Type 0 where
  eof : RecordDecodeError
  truncated : ℕ → RecordDecodeError
  crc_mismatch : ℕ → ℕ → ℕ → RecordDecodeError
  invalid : ℕ → Reason → RecordDecodeError

-- `Result<A, RecordDecodeError>`
pub data RecordResult {ℓ} (A : Type ℓ) : Type ℓ where
  decoded : A → RecordResult A
  failed : RecordDecodeError → RecordResult A

-- `HEADER_LEN`, and the lengths of the fields around the key and the value.
abbrev pub header_len : ℕ
header_len = 20

abbrev pub value_len_field : ℕ
value_len_field = 4

abbrev pub crc_len : ℕ
crc_len = 4

abbrev pub record_len_field : ℕ
record_len_field = 4

abbrev pub max_record_body_bytes : ℕ
max_record_body_bytes = 256 * 1024 * 1024

-- `k.len() as i32`, and -1 without a key.
abbrev pub key_len_word : Option (List ℕ) → ℕ
key_len_word none = 2 ^ 32 - 1
key_len_word (some k) = length k % 2 ^ 32

abbrev pub key_bytes : Option (List ℕ) → List ℕ
key_bytes none = []
key_bytes (some k) = k

unfoldable pub body_len_of : Record → ℕ
body_len_of r = header_len + length (key_bytes r.key) + value_len_field + length r.value + crc_len

-- What the checksum covers.
unfoldable pub covered : Record → List ℕ
covered r =
    to_be 8 r.offset
    ++ (to_be 8 r.timestamp_ms
        ++ (to_be 4 (key_len_word r.key)
            ++ (key_bytes r.key ++ (to_be 4 (length r.value % 2 ^ 32) ++ r.value))))

unfoldable pub check_body_len : ℕ → ℕ → RecordResult ℕ
check_body_len body_len at_ =
    if ltb body_len (header_len + value_len_field + crc_len)
    then failed (invalid at_ body_len_below_minimum)
    else if ltb max_record_body_bytes body_len
    then failed (invalid at_ body_len_exceeds_maximum)
    else decoded body_len

unfoldable pub peek_record_len : List ℕ → ℕ → RecordResult (Option ℕ)
peek_record_len buf at_ =
    if ltb (length buf) record_len_field
    then decoded none
    else elim (check_body_len (from_be (take 4 buf)) at_) [
      | decoded body_len ↦ decoded (some (record_len_field + body_len))
      | failed e ↦ failed e
    ]

-- `key_len` is that of the key, if there is one.
unfoldable pub record_disk_size : Option ℕ → ℕ → ℕ
record_disk_size key_len value_len =
    record_len_field + (header_len + unwrap_or key_len 0 + value_len_field + value_len + crc_len)

module _ (hash : List ℕ → ℕ) where
  unfoldable pub encode_record : Record → List ℕ
  encode_record r = to_be 4 (body_len_of r % 2 ^ 32) ++ (covered r ++ to_be 4 (hash (covered r)))

  -- The checksum, before anything is copied out; `end` is where it stands.
  unfoldable pub check_crc : List ℕ → ℕ → Option (List ℕ) → ℕ → ℕ → RecordResult Record
  check_crc body at_ key p value_len =
      let end = p + value_len_field + value_len in
      let stored = from_be (take 4 (drop end body)) in
      let computed = hash (take end body) in
      if stored == computed
      then decoded (record {
        offset = from_be (take 8 body);
        timestamp_ms = from_be (take 8 (drop 8 body));
        key = key;
        value = take value_len (drop (p + value_len_field) body);
      })
      else failed (crc_mismatch at_ stored computed)

  -- The value, whose length must fill the body exactly; `p` is where its length stands.
  unfoldable pub read_value : List ℕ → ℕ → Option (List ℕ) → ℕ → RecordResult Record
  read_value body at_ key p =
      if ltb (length body) (p + value_len_field)
      then failed (truncated at_)
      else (let value_len = from_be (take 4 (drop p body)) in
          if p + value_len_field + value_len + crc_len == length body
          then check_crc body at_ key p value_len
          else failed (invalid at_ value_len_mismatch))

  unfoldable pub read_key : List ℕ → ℕ → ℕ → RecordResult Record
  read_key body at_ key_len =
      if leb (2 ^ 31) key_len
      then (if key_len == 2 ^ 32 - 1
          then read_value body at_ none header_len
          else failed (invalid at_ key_len_negative))
      else if ltb (length body) (header_len + key_len)
      then failed (truncated at_)
      else read_value body at_ (some (take key_len (drop header_len body))) (header_len + key_len)

  unfoldable pub decode_body : List ℕ → ℕ → RecordResult Record
  decode_body body at_ = read_key body at_ (from_be (take 4 (drop 16 body)))

  unfoldable pub decode_framed : List ℕ → ℕ → RecordResult ℕ → RecordResult (Record × ℕ)
  decode_framed buf at_ (failed e) = failed e
  decode_framed buf at_ (decoded body_len) =
      if ltb (length buf) (record_len_field + body_len)
      then failed (truncated at_)
      else elim (decode_body (take body_len (drop record_len_field buf)) at_) [
        | decoded r ↦ decoded (r, record_len_field + body_len)
        | failed e ↦ failed e
      ]

  unfoldable pub decode_record : List ℕ → ℕ → RecordResult (Record × ℕ)
  decode_record buf at_ =
      if is_empty buf
      then failed eof
      else if ltb (length buf) record_len_field
      then failed (truncated at_)
      else decode_framed buf at_ (check_body_len (from_be (take 4 buf)) at_)

  -- `read_record`, over what is left of the file from `at` on: fewer bytes than a length prefix are the
  -- end of the file. The reader then stands after the bytes of the record, and is put back on an error.
  unfoldable pub read_record : List ℕ → ℕ → RecordResult (Record × ℕ)
  read_record left at_ =
      if ltb (length left) record_len_field
      then failed eof
      else decode_framed left at_ (check_body_len (from_be (take 4 left)) at_)
