-- ===== src/Wire/Codec.antt =====
-- wire.rs: the encoders and decoders of requests and responses. Of the decoders of responses,
-- `Vec::with_capacity` is left out: it has no effect on the result.
use event_stream.Prelude.{ℕ, ◌%◌, ◌^◌, Bool, Option, List, ◌++◌, length}
use event_stream.Bytes.BigEndian.{to_be}
use event_stream.Bytes.Reader.{IoResult, ok, err, Read, ◌>>=◌, pure, get_uint, get_many, encode_all}
use event_stream.Wire.{
  WireProduceRecord, WireProduceRequest, WireProduceResult, WireConsumeRequest, WireRecord,
  WireConsumeResponse,
}
use event_stream.Wire.Fields.{
  put_flag, put_str, put_value, put_opt_bytes_i32, put_opt_string_i32, put_opt_u32_neg,
  put_opt_i64_min, get_flag, get_value, get_opt_bytes_i32, get_opt_u32_neg, get_opt_i64_min,
  get_str, get_opt_string_i32, with_capacity,
}

-- A decoder's answer: bytes after what it reads are left unread.
abbrev pub value_of : {A : Type 0} → IoResult (A × List ℕ) → IoResult A
value_of (ok (a, rest)) = ok a
value_of (err e) = err e

-- The body of the loop over `req.records`.
unfoldable pub put_produce_record : WireProduceRecord → List ℕ
put_produce_record r =
    put_opt_bytes_i32 r.key
    ++ (put_value r.value ++ (put_opt_u32_neg r.partition ++ put_opt_i64_min r.sequence))

unfoldable pub encode_produce_request : WireProduceRequest → List ℕ
encode_produce_request req =
    put_str req.topic
    ++ (put_opt_string_i32 req.producer_id
        ++ (to_be 4 (length req.records % 2 ^ 32) ++ encode_all put_produce_record req.records))

unfoldable pub get_produce_record : Read WireProduceRecord
get_produce_record = do
  k ← get_opt_bytes_i32
  v ← get_value
  p ← get_opt_u32_neg
  s ← get_opt_i64_min
  pure (record { key = k; value = v; partition = p; sequence = s })

-- What `decode_produce_request` has before its loop: the fields, the count, and the capacity of the
-- `records` it reserved.
pub record ProduceHead : Type 0 where
  pub topic : List ℕ
  pub producer_id : Option (List ℕ)
  pub count : ℕ
  pub capacity : ℕ

unfoldable pub read_produce_head : (List ℕ → Bool) → Read ProduceHead
read_produce_head is_utf8 = do
  t ← get_str is_utf8
  p ← get_opt_string_i32 is_utf8
  n ← get_uint 4
  c ← with_capacity n 20
  pure (record { topic = t; producer_id = p; count = n; capacity = c })

unfoldable pub read_produce_request : (List ℕ → Bool) → Read WireProduceRequest
read_produce_request is_utf8 = do
  h ← read_produce_head is_utf8
  rs ← get_many get_produce_record h.count
  pure (record { topic = h.topic; producer_id = h.producer_id; records = rs })

abbrev pub decode_produce_request : (List ℕ → Bool) → List ℕ → IoResult WireProduceRequest
decode_produce_request is_utf8 bytes = value_of (read_produce_request is_utf8 bytes)

unfoldable pub put_produce_result : WireProduceResult → List ℕ
put_produce_result r = to_be 4 r.partition ++ (to_be 8 r.offset ++ put_flag r.duplicate)

unfoldable pub encode_produce_response : List WireProduceResult → List ℕ
encode_produce_response results =
    to_be 4 (length results % 2 ^ 32) ++ encode_all put_produce_result results

unfoldable pub get_produce_result : Read WireProduceResult
get_produce_result = do
  p ← get_uint 4
  o ← get_uint 8
  d ← get_flag
  pure (record { partition = p; offset = o; duplicate = d })

unfoldable pub read_produce_response : Read (List WireProduceResult)
read_produce_response = do n ← get_uint 4; get_many get_produce_result n

abbrev pub decode_produce_response : List ℕ → IoResult (List WireProduceResult)
decode_produce_response bytes = value_of (read_produce_response bytes)

unfoldable pub encode_consume_request : WireConsumeRequest → List ℕ
encode_consume_request req =
    put_str req.topic
    ++ (to_be 4 req.partition
        ++ (to_be 8 req.offset ++ (to_be 4 req.max_records ++ to_be 4 req.max_bytes)))

unfoldable pub read_consume_request : (List ℕ → Bool) → Read WireConsumeRequest
read_consume_request is_utf8 = do
  t ← get_str is_utf8
  p ← get_uint 4
  o ← get_uint 8
  mr ← get_uint 4
  mb ← get_uint 4
  pure (record { topic = t; partition = p; offset = o; max_records = mr; max_bytes = mb })

abbrev pub decode_consume_request : (List ℕ → Bool) → List ℕ → IoResult WireConsumeRequest
decode_consume_request is_utf8 bytes = value_of (read_consume_request is_utf8 bytes)

unfoldable pub put_record : WireRecord → List ℕ
put_record r =
    to_be 4 r.partition
    ++ (to_be 8 r.offset
        ++ (to_be 8 r.timestamp_ms ++ (put_opt_bytes_i32 r.key ++ put_value r.value)))

unfoldable pub encode_consume_response : WireConsumeResponse → List ℕ
encode_consume_response resp =
    to_be 8 resp.next_offset
    ++ (to_be 8 resp.high_watermark
        ++ (to_be 4 (length resp.records % 2 ^ 32) ++ encode_all put_record resp.records))

unfoldable pub get_record : Read WireRecord
get_record = do
  p ← get_uint 4
  o ← get_uint 8
  t ← get_uint 8
  k ← get_opt_bytes_i32
  v ← get_value
  pure (record { partition = p; offset = o; timestamp_ms = t; key = k; value = v })

unfoldable pub read_consume_response : Read WireConsumeResponse
read_consume_response = do
  next ← get_uint 8
  hw ← get_uint 8
  n ← get_uint 4
  rs ← get_many get_record n
  pure (record { records = rs; next_offset = next; high_watermark = hw })

abbrev pub decode_consume_response : List ℕ → IoResult WireConsumeResponse
decode_consume_response bytes = value_of (read_consume_response bytes)
