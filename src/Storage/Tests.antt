-- ===== src/Storage/Tests.antt =====
-- crates/es-broker/src/storage: the theorems at a concrete record.
use event_stream.Prelude.{
  ℕ, ◌%◌, ◌^◌, ◌<◌, ◌≡◌, refl, some, List, [], ◌∷◌, ◌++◌, arith, length, take,
}
use event_stream.Bytes.BigEndian.{to_be}
use event_stream.Storage.Record.{
  Record, decoded, failed, truncated, body_len_of, covered, record_disk_size, encode_record,
  decode_record,
}
use event_stream.Storage.Record.RoundTrip.{
  decode-encode_record, decode_record-torn, record_disk_size-encode_record,
}
use event_stream.Storage.Record.Fields.{RecordFits, map_length}
use event_stream.Bytes.Reader.{ok}
use event_stream.Storage.Index.{write_all_to, load_from, load_from-write_all_to}

-- A checksum that counts the bytes.
abbrev count_bytes : List ℕ → ℕ
count_bytes bytes = length bytes % 2 ^ 32

count_bytes_u32 : (bytes : List ℕ) → count_bytes bytes < 2 ^ 32
count_bytes_u32 bytes = omega arith

abbrev keyed : Record
keyed = record { offset = 42; timestamp_ms = 1700; key = some (1 ∷ 2 ∷ []); value = 3 ∷ 4 ∷ 5 ∷ [] }

keyed-RecordFits : RecordFits keyed
unfolding body_len_of
keyed-RecordFits = (omega arith, omega arith, omega arith)

length_37 : length (encode_record count_bytes keyed) ≡ 37
unfolding encode_record body_len_of covered to_be
length_37 = refl

decode-encode_record_example :
    decode_record count_bytes (encode_record count_bytes keyed ++ 9 ∷ []) 100
    ≡ decoded (keyed, length (encode_record count_bytes keyed))
decode-encode_record_example =
    decode-encode_record count_bytes count_bytes_u32 keyed keyed-RecordFits 100 (9 ∷ [])

decode_record-torn_example :
    decode_record count_bytes (take 30 (encode_record count_bytes keyed)) 100
    ≡ failed (truncated 100)
decode_record-torn_example =
    decode_record-torn count_bytes count_bytes_u32 keyed keyed-RecordFits 100 30 (omega arith)
      (omega (arith, length_37))

record_disk_size-encode_record_example :
    record_disk_size (map_length keyed.key) (length keyed.value)
    ≡ length (encode_record count_bytes keyed)
record_disk_size-encode_record_example =
    record_disk_size-encode_record count_bytes count_bytes_u32 keyed keyed-RecordFits

load_from-write_all_to_example :
    load_from (write_all_to ((0, 0) ∷ (10, 4100) ∷ [])) ≡ ok ((0, 0) ∷ (10, 4100) ∷ [])
load_from-write_all_to_example =
    load_from-write_all_to ((0, 0) ∷ (10, 4100) ∷ [])
      ((omega arith, omega arith), ((omega arith, omega arith), tt))
