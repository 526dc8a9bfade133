-- ===== src/Wire/Tests.antt =====
-- wire.rs: the theorems at a request and a response of the kind its own tests send.
use event_stream.Prelude.{
  ℕ, ◌+◌, ◌-◌, ◌*◌, ◌^◌, ◌≤◌, ◌≡◌, refl, Bool, true, ◌&&◌, none, some, List, [], ◌∷◌, ◌++◌, arith,
  ltb, length,
}
use event_stream.Bytes.Reader.{ok, err, unexpected_eof}
use event_stream.Wire.{WireProduceRecord, WireProduceRequest, WireRecord, WireConsumeResponse}
use event_stream.Wire.Fields.{put_opt_u32_neg, get_opt_u32_neg, get_opt_u32_neg-put}
use event_stream.Wire.Codec.{
  ProduceHead, read_produce_head, encode_produce_request, decode_produce_request,
  encode_consume_response, decode_consume_response,
}
use event_stream.Wire.Head.{claiming}
use event_stream.Wire.RoundTrip.{decode_produce_request-encode, decode_consume_response-encode}
use event_stream.Wire.Bounded.{decode_produce_request-overclaimed}

-- Accepts ASCII alone.
abbrev is_ascii : List ℕ → Bool
is_ascii [] = true
is_ascii (b ∷ bs) = ltb b 128 && is_ascii bs

abbrev orders : List ℕ
orders = 111 ∷ 114 ∷ 100 ∷ []

abbrev keyed : WireProduceRecord
keyed = record {
  key = some (107 ∷ []);
  value = 0 ∷ 255 ∷ [];
  partition = some 2;
  sequence = some 42;
}

abbrev bare : WireProduceRecord
bare = record { key = none; value = 118 ∷ []; partition = none; sequence = none }

abbrev produce_request : WireProduceRequest
produce_request = record {
  topic = orders;
  producer_id = some (112 ∷ []);
  records = keyed ∷ bare ∷ [];
}

decode_produce_request-encode_example :
    decode_produce_request is_ascii (encode_produce_request produce_request ++ 9 ∷ [])
    ≡ ok produce_request
decode_produce_request-encode_example =
    decode_produce_request-encode is_ascii produce_request (9 ∷ []) (
      (omega arith, refl),
      (omega arith, refl),
      omega arith,
      (
        (omega arith, omega arith, omega arith, (omega arith, omega arith)),
        ((tt, omega arith, tt, tt), tt),
      ),
    )

-- A time before 1970.
abbrev old_record : WireRecord
old_record = record {
  partition = 1;
  offset = 100;
  timestamp_ms = 2 ^ 64 - 1000;
  key = some (0 ∷ 195 ∷ []);
  value = 0 ∷ 1 ∷ [];
}

abbrev consume_response : WireConsumeResponse
consume_response = record { records = old_record ∷ []; next_offset = 101; high_watermark = 200 }

decode_consume_response-encode_example :
    decode_consume_response (encode_consume_response consume_response ++ 1 ∷ [])
    ≡ ok consume_response
decode_consume_response-encode_example = decode_consume_response-encode consume_response (1 ∷ []) (
  omega arith,
  omega arith,
  omega arith,
  ((omega arith, omega arith, omega arith, omega arith, omega arith), tt),
)

abbrev one_byte : List ℕ
one_byte = 5 ∷ []

decode_produce_request-overclaimed_example :
    (decode_produce_request is_ascii (claiming [] none (2 ^ 32 - 1) one_byte) ≡ err unexpected_eof)
    × ((h : ProduceHead) × (read_produce_head is_ascii (claiming [] none (2 ^ 32 - 1) one_byte)
          ≡ ok (h, one_byte))
        × (h.count ≡ 2 ^ 32 - 1)
        × (h.capacity * 20 ≤ length one_byte))
decode_produce_request-overclaimed_example =
    decode_produce_request-overclaimed is_ascii [] none (2 ^ 32 - 1) one_byte (omega arith, refl) tt
      (omega arith) (omega arith)

-- A partition number that an `i32` has no room for.
get_opt_u32_neg-put_example :
    get_opt_u32_neg (put_opt_u32_neg (some (2 ^ 31 + 5)) ++ 8 ∷ []) ≡ ok (none, 8 ∷ [])
get_opt_u32_neg-put_example = get_opt_u32_neg-put (some (2 ^ 31 + 5)) (8 ∷ []) (omega arith)
