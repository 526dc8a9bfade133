-- ===== src/Wire/Head.antt =====
-- wire.rs: the fields of a produce request before its records, written and read back.
use event_stream.Prelude.{ℕ, ◌≡◌, refl, Bool, Option, List, ◌++◌, length}
use event_stream.Bytes.BigEndian.{to_be}
use event_stream.Bytes.Reader.{ok}
use event_stream.Bytes.Steps.{IsU32, u32, after}
use event_stream.Wire.Fields.{
  cap_hint, IsStr, IsOptString, put_str, put_opt_string_i32, get_str-put, get_opt_string_i32-put,
  get_str, get_opt_string_i32,
}
use event_stream.Wire.Codec.{ProduceHead, read_produce_head}

module _ (topic : List ℕ) (producer_id : Option (List ℕ)) (n : ℕ) (tail : List ℕ) where
  -- The bytes of a request up to its count, and any bytes after it.
  abbrev pub claiming : List ℕ
  claiming = put_str topic ++ (put_opt_string_i32 producer_id ++ (to_be 4 n ++ tail))

  abbrev pub head : ProduceHead
  head = record {
    topic = topic;
    producer_id = producer_id;
    count = n;
    capacity = cap_hint (length tail) n 20;
  }

module _ (is_utf8 : List ℕ → Bool) (topic : List ℕ) (producer_id : Option (List ℕ)) (n : ℕ)
    (tail : List ℕ) where
  pub read_produce_head-put :
      IsStr is_utf8 topic
      → IsOptString is_utf8 producer_id
      → IsU32 n
      → read_produce_head is_utf8 (claiming topic producer_id n tail)
        ≡ ok (head topic producer_id n tail, tail)
  unfolding read_produce_head
  read_produce_head-put t p h = after (get_str is_utf8) _ (get_str-put is_utf8 topic _ t) (
      after (get_opt_string_i32 is_utf8) _ (get_opt_string_i32-put is_utf8 producer_id _ p)
        (u32 _ h refl))
