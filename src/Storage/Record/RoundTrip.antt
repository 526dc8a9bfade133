-- ===== src/Storage/Record/RoundTrip.antt =====
-- storage/record.rs: a record is read back from its encoding, and a torn one is told as such.
use event_stream.Prelude.{
  ℕ, ◌+◌, ◌-◌, ◌%◌, ◌^◌, ◌≤◌, ◌<◌, ◌≡◌, refl, ap, ◌∙◌, inl, inr, true, false, List, ◌++◌, arith,
  ltb, length, take, drop, length-append, length-take, take-append, Bool-cases,
}
use mathlib.Core.List.{append_assoc}
use event_stream.Prelude.{ltb-false, ltb-true}
use event_stream.Bytes.Parts.{is_empty-false, take-append_long, between}
use event_stream.Bytes.BigEndian.{to_be, from_be, length-to_be, from_be-to_be}
use event_stream.Storage.Record.{
  Record, decoded, failed, truncated, max_record_body_bytes, body_len_of, check_body_len,
  record_disk_size, encode_record, decode_framed, decode_record,
}
use event_stream.Storage.Record.Fields.{
  RecordFits, map_length, unwrap-map_length, body, length-body, length-place, decode_body-body,
}

module _ (hash : List ℕ → ℕ) (is_u32 : (bytes : List ℕ) → hash bytes < 2 ^ 32) (r : Record)
    (fits : RecordFits r) where
  abbrev whole_body : List ℕ
  whole_body = body hash is_u32 r

  encode_record_split : encode_record hash r ≡ to_be 4 (body_len_of r) ++ whole_body
  unfolding encode_record
  encode_record_split =
      let whole : body_len_of r % 2 ^ 32 ≡ body_len_of r = omega (arith, fits.2) in
      ap (λ (n : ℕ). to_be 4 n ++ whole_body) whole

  length-encode_record : length (encode_record hash r) ≡ 4 + body_len_of r
  length-encode_record =
      ap (λ (xs : List ℕ). length xs) encode_record_split
      ∙ length-append (to_be 4 (body_len_of r)) whole_body
      ∙ omega (arith, length-to_be 4 (body_len_of r), (length-body hash is_u32 r))

  -- The claimed length, read from anything that starts like the encoding, passes its check.
  claimed :
      (at_ : ℕ) (buf rest : List ℕ)
      → buf ≡ to_be 4 (body_len_of r) ++ rest
      → check_body_len (from_be (take 4 buf)) at_ ≡ decoded (body_len_of r)
  unfolding check_body_len
  claimed at_ buf rest e =
      let raw : from_be (take 4 buf) ≡ body_len_of r =
        ap (λ (xs : List ℕ). from_be (take 4 xs)) e
        ∙ ap from_be (take-append 4 (to_be 4 (body_len_of r)) rest (length-to_be 4 (body_len_of r)))
        ∙ from_be-to_be 4 (body_len_of r) (omega (arith, fits.2)) in
      let enough : ltb (body_len_of r) 28 ≡ false =
        ltb-false (body_len_of r) 28
          (omega (arith, (length-place hash is_u32 r), (length-body hash is_u32 r))) in
      let capped : ltb max_record_body_bytes (body_len_of r) ≡ false =
        ltb-false max_record_body_bytes (body_len_of r) fits.2 in
      rw (raw, enough, capped) refl

  framed :
      (at_ : ℕ) (buf rest : List ℕ)
      → buf ≡ to_be 4 (body_len_of r) ++ rest
      → decode_record hash buf at_ ≡ decode_framed hash buf at_ (decoded (body_len_of r))
  unfolding decode_record
  framed at_ buf rest e =
      let len : 4 ≤ length buf = omega (
        arith,
        ap (λ (xs : List ℕ). length xs) e,
        length-append (to_be 4 (body_len_of r)) rest,
        length-to_be 4 (body_len_of r),
      ) in
      rw
        (
          is_empty-false buf (omega (arith, len)),
          ltb-false (length buf) 4 len,
          claimed at_ buf rest e,
        )
        refl

  read_body :
      (rest : List ℕ) → take (body_len_of r) (drop 4 (encode_record hash r ++ rest)) ≡ whole_body
  read_body rest =
      let split : encode_record hash r ++ rest ≡ to_be 4 (body_len_of r) ++ (whole_body ++ rest) =
        ap (λ (xs : List ℕ). xs ++ rest) encode_record_split
        ∙ append_assoc (to_be 4 (body_len_of r)) whole_body rest in
      ap (λ (xs : List ℕ). take (body_len_of r) (drop 4 xs)) split
      ∙ between 4 (body_len_of r) (to_be 4 (body_len_of r)) whole_body rest
          (length-to_be 4 (body_len_of r)) (length-body hash is_u32 r)

  -- Under a checksum that is a u32, a record
  -- whose fields have their width and whose body is within the limit is read back from its
  -- encoding, whatever bytes follow, with the number of bytes that it occupies.
  pub decode-encode_record :
      (at_ : ℕ) (rest : List ℕ)
      → decode_record hash (encode_record hash r ++ rest) at_
        ≡ decoded (r, length (encode_record hash r))
  unfolding decode_framed
  decode-encode_record at_ rest =
      let split : encode_record hash r ++ rest ≡ to_be 4 (body_len_of r) ++ (whole_body ++ rest) =
        ap (λ (xs : List ℕ). xs ++ rest) encode_record_split
        ∙ append_assoc (to_be 4 (body_len_of r)) whole_body rest in
      let long : ltb (length (encode_record hash r ++ rest)) (4 + body_len_of r) ≡ false =
        ltb-false (length (encode_record hash r ++ rest)) (4 + body_len_of r)
          (omega (arith, length-encode_record, length-append (encode_record hash r) rest)) in
      framed at_ (encode_record hash r ++ rest) (whole_body ++ rest) split
      ∙ rw (long, read_body rest, decode_body-body hash is_u32 r fits at_, length-encode_record)
          refl

  torn_prefix :
      (at_ n : ℕ)
      → 0 < n
      → n < 4
      → n ≤ length (encode_record hash r)
      → decode_record hash (take n (encode_record hash r)) at_ ≡ failed (truncated at_)
  unfolding decode_record
  torn_prefix at_ n some_bytes lt le =
      let len : length (take n (encode_record hash r)) ≡ n =
        length-take n (encode_record hash r) ∙ omega (arith, le) in
      rw
        (
          is_empty-false (take n (encode_record hash r)) (omega (arith, len)),
          ltb-true (length (take n (encode_record hash r))) 4 (omega (arith, len)),
        )
        refl

  -- A record (its fields of their width, its body within the limit, the checksum a u32) that was cut after its first
  -- byte and before its last is reported as truncated at its position, and never as corrupt.
  pub decode_record-torn :
      (at_ n : ℕ)
      → 0 < n
      → n < length (encode_record hash r)
      → decode_record hash (take n (encode_record hash r)) at_ ≡ failed (truncated at_)
  unfolding decode_framed
  decode_record-torn at_ n some_bytes cut = elim (Bool-cases (ltb n 4)) [
    | inl short ↦ torn_prefix at_ n some_bytes (ground (arith, short)) (omega (arith, cut))
    | inr whole ↦
        let len : length (take n (encode_record hash r)) ≡ n =
          length-take n (encode_record hash r) ∙ omega (arith, cut) in
        let four : 4 ≤ n = ground (arith, whole) in
        let split : take n (encode_record hash r)
            ≡ to_be 4 (body_len_of r) ++ take (n - 4) whole_body =
          ap (take n) encode_record_split
          ∙ take-append_long n (to_be 4 (body_len_of r)) whole_body
              (omega (arith, four, length-to_be 4 (body_len_of r)))
          ∙ ap (λ (k : ℕ). to_be 4 (body_len_of r) ++ take k whole_body)
              (omega (arith, length-to_be 4 (body_len_of r))) in
        let less : ltb (length (take n (encode_record hash r))) (4 + body_len_of r) ≡ true =
          ltb-true (length (take n (encode_record hash r))) (4 + body_len_of r)
            (omega (arith, len, cut, length-encode_record)) in
        framed at_ (take n (encode_record hash r)) (take (n - 4) whole_body) split ∙ rw less refl
  ]

  -- The encoding of a record (its fields of their width, its body within the limit, the checksum a
  -- u32) has the size that
  -- `record_disk_size` computes from the lengths of its key and value.
  pub record_disk_size-encode_record :
      record_disk_size (map_length r.key) (length r.value) ≡ length (encode_record hash r)
  unfolding record_disk_size body_len_of
  record_disk_size-encode_record = omega (arith, length-encode_record, unwrap-map_length r.key)
