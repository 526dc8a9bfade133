-- ===== src/Wire/RoundTrip.antt =====
-- wire.rs: requests and responses are read back from their encodings.
use event_stream.Prelude.{
  ℕ, ◌%◌, ◌^◌, ◌<◌, ◌≡◌, ◌≢◌, refl, ap, ◌∙◌, Bool, Option, none, some, List, ◌++◌, arith, length,
  All,
}
use mathlib.Core.List.{append_assoc}
use event_stream.Bytes.BigEndian.{to_be}
use event_stream.Bytes.Reader.{
  IoResult, ok, Read, ◌>>=◌, get_uint, get_many, encode_all, get_many-encode_all,
}
use event_stream.Bytes.Steps.{IsU32, IsU64, u32, u64, after}
use event_stream.Wire.{
  WireProduceRecord, WireProduceRequest, WireProduceResult, WireConsumeRequest, WireRecord,
  WireConsumeResponse,
}
use event_stream.Wire.Fields.{
  OnSome, IsI32Length, IsStr, IsOptString, as_partition, i64_min, get_str, get_flag, get_value,
  get_opt_bytes_i32, get_opt_u32_neg, get_opt_i64_min, get_str-put, get_flag-put, put_opt_u32_neg,
  get_value-put, get_opt_bytes_i32-put, get_opt_u32_neg-put, get_opt_i64_min-put,
}
use event_stream.Wire.Head.{read_produce_head-put}
use event_stream.Wire.Codec.{
  value_of, put_produce_record, encode_produce_request, get_produce_record, read_produce_head,
  read_produce_request, decode_produce_request, put_produce_result, encode_produce_response,
  get_produce_result, read_produce_response, decode_produce_response, encode_consume_request,
  read_consume_request, decode_consume_request, put_record, encode_consume_response, get_record,
  read_consume_response, decode_consume_response,
}

-- The count of a list that fits it, and the list.
module _ {A : Type 0} (read : Read A) (enc : A → List ℕ) (P : A → Type 0)
    (reads_back : (a : A) (rest : List ℕ) → P a → read (enc a ++ rest) ≡ ok (a, rest)) where
  counted :
      {B : Type 0} {rest : List ℕ} {r : IoResult (B × List ℕ)} {xs : List A} (f : List A → Read B)
      → IsU32 (length xs)
      → All P xs
      → f xs rest ≡ r
      → (do n ← get_uint 4; ys ← get_many read n; f ys)
          (to_be 4 (length xs % 2 ^ 32) ++ (encode_all enc xs ++ rest))
        ≡ r
  counted {rest = rest} {xs = xs} f h fit next =
      let len : length xs % 2 ^ 32 ≡ length xs = omega arith in
      rw len (
        u32 _ h (
          after (get_many read (length xs)) f
            (get_many-encode_all read enc P reads_back xs rest fit) next))

  -- The same, where nothing follows the list.
  counted_last :
      (xs : List A) (rest : List ℕ)
      → IsU32 (length xs)
      → All P xs
      → (do n ← get_uint 4; get_many read n)
          (to_be 4 (length xs % 2 ^ 32) ++ (encode_all enc xs ++ rest))
        ≡ ok (xs, rest)
  counted_last xs rest h fit =
      let len : length xs % 2 ^ 32 ≡ length xs = omega arith in
      rw len (u32 _ h (get_many-encode_all read enc P reads_back xs rest fit))

-- The fields have the width of their Rust type, the key's length fits its `i32`, and neither option
-- holds a value that its sentinel stands for.
abbrev pub ProduceRecordFits : WireProduceRecord → Type 0
ProduceRecordFits r =
    IsI32Length r.key
    × IsU32 (length r.value)
    × OnSome (λ n. n < 2 ^ 31) r.partition
    × OnSome (λ n. IsU64 n × (n ≢ i64_min)) r.sequence

as_partition_small : (o : Option ℕ) → OnSome (λ n. n < 2 ^ 31) o → as_partition o ≡ o
as_partition_small none h = refl
as_partition_small (some n) h = ground arith

OnSome-IsU32 : (o : Option ℕ) → OnSome (λ n. n < 2 ^ 31) o → OnSome IsU32 o
OnSome-IsU32 none h = tt
OnSome-IsU32 (some n) h = omega arith

get_partition :
    (o : Option ℕ) (rest : List ℕ)
    → OnSome (λ n. n < 2 ^ 31) o
    → get_opt_u32_neg (put_opt_u32_neg o ++ rest) ≡ ok (o, rest)
get_partition o rest h =
    get_opt_u32_neg-put o rest (OnSome-IsU32 o h)
    ∙ ap (λ (p : Option ℕ). ok (p, rest)) (as_partition_small o h)

get_produce_record-put :
    (r : WireProduceRecord) (rest : List ℕ)
    → ProduceRecordFits r
    → get_produce_record (put_produce_record r ++ rest) ≡ ok (r, rest)
unfolding get_produce_record put_produce_record
get_produce_record-put r rest (k, v, p, s) = simp append_assoc (
    after get_opt_bytes_i32 _ (get_opt_bytes_i32-put r.key _ k) (
      after get_value _ (get_value-put r.value _ v) (
        after get_opt_u32_neg _ (get_partition r.partition _ p)
          (after get_opt_i64_min _ (get_opt_i64_min-put r.sequence rest s) refl))))

module _ (is_utf8 : List ℕ → Bool) where
  abbrev pub ProduceRequestFits : WireProduceRequest → Type 0
  ProduceRequestFits req =
      IsStr is_utf8 req.topic
      × IsOptString is_utf8 req.producer_id
      × IsU32 (length req.records)
      × All ProduceRecordFits req.records

  read_produce_request-encode :
      (req : WireProduceRequest) (rest : List ℕ)
      → ProduceRequestFits req
      → read_produce_request is_utf8 (encode_produce_request req ++ rest) ≡ ok (req, rest)
  unfolding read_produce_request encode_produce_request
  read_produce_request-encode req rest (t, p, n, rs) =
      let len : length req.records % 2 ^ 32 ≡ length req.records = omega arith in
      let tail = encode_all put_produce_record req.records ++ rest in
      simp append_assoc (
        rw len (
          after (read_produce_head is_utf8) _
            (read_produce_head-put is_utf8 req.topic req.producer_id (length req.records) tail t p
              n)
            (after (get_many get_produce_record (length req.records)) _
              (get_many-encode_all get_produce_record put_produce_record ProduceRecordFits
                get_produce_record-put req.records rest rs)
              refl)))

  -- A produce request is read back from its encoding, whatever follows it, when its strings are valid
  -- UTF-8, its numbers have their width, its lengths and counts fit their fields, its partitions are
  -- below 2^31, and no sequence number is i64::MIN.
  pub decode_produce_request-encode :
      (req : WireProduceRequest) (rest : List ℕ)
      → ProduceRequestFits req
      → decode_produce_request is_utf8 (encode_produce_request req ++ rest) ≡ ok req
  decode_produce_request-encode req rest h = ap value_of (read_produce_request-encode req rest h)

abbrev pub ProduceResultFits : WireProduceResult → Type 0
ProduceResultFits r = IsU32 r.partition × IsU64 r.offset

get_produce_result-put :
    (r : WireProduceResult) (rest : List ℕ)
    → ProduceResultFits r
    → get_produce_result (put_produce_result r ++ rest) ≡ ok (r, rest)
unfolding get_produce_result put_produce_result
get_produce_result-put r rest (p, o) =
    simp append_assoc (u32 _ p (u64 _ o (after get_flag _ (get_flag-put r.duplicate rest) refl)))

read_produce_response-encode :
    (results : List WireProduceResult) (rest : List ℕ)
    → IsU32 (length results)
    → All ProduceResultFits results
    → read_produce_response (encode_produce_response results ++ rest) ≡ ok (results, rest)
unfolding read_produce_response encode_produce_response
read_produce_response-encode results rest n rs = simp append_assoc (
    counted_last get_produce_result put_produce_result ProduceResultFits get_produce_result-put
      results rest n rs)

-- The results of a produce request are read back from their encoding, whatever follows them, when their
-- numbers have their width and there are fewer than 2^32.
pub decode_produce_response-encode :
    (results : List WireProduceResult) (rest : List ℕ)
    → IsU32 (length results)
    → All ProduceResultFits results
    → decode_produce_response (encode_produce_response results ++ rest) ≡ ok results
decode_produce_response-encode results rest n rs =
    ap value_of (read_produce_response-encode results rest n rs)

module _ (is_utf8 : List ℕ → Bool) where
  abbrev pub ConsumeRequestFits : WireConsumeRequest → Type 0
  ConsumeRequestFits req =
      IsStr is_utf8 req.topic
      × IsU32 req.partition
      × IsU64 req.offset
      × IsU32 req.max_records
      × IsU32 req.max_bytes

  read_consume_request-encode :
      (req : WireConsumeRequest) (rest : List ℕ)
      → ConsumeRequestFits req
      → read_consume_request is_utf8 (encode_consume_request req ++ rest) ≡ ok (req, rest)
  unfolding read_consume_request encode_consume_request
  read_consume_request-encode req rest (t, p, o, mr, mb) = simp append_assoc (
      after (get_str is_utf8) _ (get_str-put is_utf8 req.topic _ t)
        (u32 _ p (u64 _ o (u32 _ mr (u32 _ mb refl)))))

  -- A consume request is read back from its encoding, whatever follows it, when its topic is valid UTF-8
  -- shorter than 2^16 bytes and its numbers have their width.
  pub decode_consume_request-encode :
      (req : WireConsumeRequest) (rest : List ℕ)
      → ConsumeRequestFits req
      → decode_consume_request is_utf8 (encode_consume_request req ++ rest) ≡ ok req
  decode_consume_request-encode req rest h = ap value_of (read_consume_request-encode req rest h)

abbrev pub WireRecordFits : WireRecord → Type 0
WireRecordFits r =
    IsU32 r.partition
    × IsU64 r.offset
    × IsU64 r.timestamp_ms
    × IsI32Length r.key
    × IsU32 (length r.value)

get_record-put :
    (r : WireRecord) (rest : List ℕ)
    → WireRecordFits r
    → get_record (put_record r ++ rest) ≡ ok (r, rest)
unfolding get_record put_record
get_record-put r rest (p, o, t, k, v) = simp append_assoc (
    u32 _ p (
      u64 _ o (
        u64 _ t (
          after get_opt_bytes_i32 _ (get_opt_bytes_i32-put r.key _ k)
            (after get_value _ (get_value-put r.value rest v) refl)))))

abbrev pub ConsumeResponseFits : WireConsumeResponse → Type 0
ConsumeResponseFits resp =
    IsU64 resp.next_offset
    × IsU64 resp.high_watermark
    × IsU32 (length resp.records)
    × All WireRecordFits resp.records

read_consume_response-encode :
    (resp : WireConsumeResponse) (rest : List ℕ)
    → ConsumeResponseFits resp
    → read_consume_response (encode_consume_response resp ++ rest) ≡ ok (resp, rest)
unfolding read_consume_response encode_consume_response
read_consume_response-encode resp rest (o, hw, n, rs) =
    simp append_assoc
      (u64 _ o (u64 _ hw (counted get_record put_record WireRecordFits get_record-put _ n rs refl)))

-- A consume response is read back from its encoding, whatever follows it, when its numbers have their
-- width, its lengths fit their fields and it has fewer than 2^32 records.
pub decode_consume_response-encode :
    (resp : WireConsumeResponse) (rest : List ℕ)
    → ConsumeResponseFits resp
    → decode_consume_response (encode_consume_response resp ++ rest) ≡ ok resp
decode_consume_response-encode resp rest h = ap value_of (read_consume_response-encode resp rest h)
