-- ===== src/Storage/Record/Fields.antt =====
-- storage/record.rs: the fields of an encoded body, each read back from where it stands.
use event_stream.Prelude.{
  ℕ, ◌+◌, ◌-◌, ◌%◌, ◌^◌, ◌≤◌, ◌<◌, ◌≡◌, refl, ap, sym, ◌∙◌, inl, inr, true, false, Option, none,
  some, List, ◌++◌, arith, ltb, leb, ◌==◌, ==_iff, length, take, drop, length-append, take_all,
  take-append, drop-append, Option-cases, unwrap_or,
}
use mathlib.Core.Path.{ap₂}
use mathlib.Core.List.{append_assoc}
use event_stream.Prelude.{ltb-false}
use event_stream.Bytes.Parts.{between}
use event_stream.Bytes.BigEndian.{to_be, from_be, length-to_be, from_be-to_be}
use event_stream.Storage.Record.{
  Record, decoded, max_record_body_bytes, key_len_word, key_bytes, body_len_of, covered, check_crc,
  read_value, read_key, decode_body,
}

-- The fields have their width, and the record is not longer than one may be.
abbrev pub RecordFits : Record → Type 0
RecordFits r =
    (r.offset < 2 ^ 64) × (r.timestamp_ms < 2 ^ 64) × (body_len_of r ≤ max_record_body_bytes)

-- `key.map(|k| k.len())`
abbrev pub map_length : Option (List ℕ) → Option ℕ
map_length none = none
map_length (some k) = some (length k)

pub unwrap-map_length : (o : Option (List ℕ)) → unwrap_or (map_length o) 0 ≡ length (key_bytes o)
unwrap-map_length none = refl
unwrap-map_length (some k) = refl

word_small : (o : Option (List ℕ)) → key_len_word o < 256 ^ 4
word_small none = omega arith
word_small (some k) = omega arith

module _ (hash : List ℕ → ℕ) (is_u32 : (bytes : List ℕ) → hash bytes < 2 ^ 32) (r : Record) where
  -- The body of an encoded record.
  abbrev pub body : List ℕ
  body = covered r ++ to_be 4 (hash (covered r))

  length-covered : length (covered r) ≡ 24 + length (key_bytes r.key) + length r.value
  unfolding covered
  length-covered = omega (
    arith,
    length-append (to_be 8 r.offset) (
        to_be 8 r.timestamp_ms
        ++ (to_be 4 (key_len_word r.key)
            ++ (key_bytes r.key ++ (to_be 4 (length r.value % 2 ^ 32) ++ r.value)))),
    length-append (to_be 8 r.timestamp_ms) (
        to_be 4 (key_len_word r.key)
        ++ (key_bytes r.key ++ (to_be 4 (length r.value % 2 ^ 32) ++ r.value))),
    length-append (to_be 4 (key_len_word r.key))
        (key_bytes r.key ++ (to_be 4 (length r.value % 2 ^ 32) ++ r.value)),
    length-append (key_bytes r.key) (to_be 4 (length r.value % 2 ^ 32) ++ r.value),
    length-append (to_be 4 (length r.value % 2 ^ 32)) r.value,
    length-to_be 8 r.offset,
    length-to_be 8 r.timestamp_ms,
    length-to_be 4 (key_len_word r.key),
    length-to_be 4 (length r.value % 2 ^ 32),
  )

  pub length-body : length body ≡ body_len_of r
  unfolding body_len_of
  length-body = omega (
    arith,
    length-covered,
    length-append (covered r) (to_be 4 (hash (covered r))),
    length-to_be 4 (hash (covered r)),
  )

  -- The body, cut before its key, before the length of its value, before the value and before the
  -- checksum.
  abbrev head : List ℕ
  head = to_be 8 r.offset ++ to_be 8 r.timestamp_ms

  abbrev crc : List ℕ
  crc = to_be 4 (hash (covered r))

  abbrev value_word : List ℕ
  value_word = to_be 4 (length r.value % 2 ^ 32)

  -- The prefix of the body before the value's length.
  abbrev prefix : List ℕ
  prefix = (head ++ to_be 4 (key_len_word r.key)) ++ key_bytes r.key

  length-head : length head ≡ 16
  length-head =
      length-append (to_be 8 r.offset) (to_be 8 r.timestamp_ms)
      ∙ omega (arith, length-to_be 8 r.offset, length-to_be 8 r.timestamp_ms)

  body_at_key_len :
      body
      ≡ head
        ++ (to_be 4 (key_len_word r.key) ++ (key_bytes r.key ++ (value_word ++ (r.value ++ crc))))
  unfolding covered
  body_at_key_len = simp append_assoc refl

  body_at_key :
      body
      ≡ (head ++ to_be 4 (key_len_word r.key))
        ++ (key_bytes r.key ++ (value_word ++ (r.value ++ crc)))
  body_at_key = body_at_key_len ∙ sym (append_assoc head (to_be 4 (key_len_word r.key)) _)

  body_at_value_len : body ≡ prefix ++ (value_word ++ (r.value ++ crc))
  body_at_value_len =
      body_at_key ∙ sym (append_assoc (head ++ to_be 4 (key_len_word r.key)) (key_bytes r.key) _)

  body_at_value : body ≡ (prefix ++ value_word) ++ (r.value ++ crc)
  body_at_value = body_at_value_len ∙ sym (append_assoc prefix value_word _)

  -- Where the length of the value stands.
  abbrev place : ℕ
  place = 20 + length (key_bytes r.key)

  length-prefix : length prefix ≡ place
  length-prefix =
      length-append (head ++ to_be 4 (key_len_word r.key)) (key_bytes r.key)
      ∙ omega (
        arith,
        length-append head (to_be 4 (key_len_word r.key)),
        length-head,
        length-to_be 4 (key_len_word r.key),
      )

  pub length-place : length body ≡ place + 4 + length r.value + 4
  unfolding body_len_of
  length-place = omega (arith, length-body)

  module _ (fits : RecordFits r) where
    value_small : length r.value % 2 ^ 32 ≡ length r.value
    unfolding body_len_of
    value_small = omega (arith, fits.2)

    read_end : drop (place + 4 + length r.value) body ≡ crc
    read_end =
        drop-append (place + 4 + length r.value) (covered r) crc (omega (arith, length-covered))

    read_covered : take (place + 4 + length r.value) body ≡ covered r
    read_covered =
        take-append (place + 4 + length r.value) (covered r) crc (omega (arith, length-covered))

    read_crc : from_be (take 4 (drop (place + 4 + length r.value) body)) ≡ hash (covered r)
    read_crc =
        ap (λ (xs : List ℕ). from_be (take 4 xs)) read_end
        ∙ ap from_be (take_all 4 crc (omega (arith, length-to_be 4 (hash (covered r)))))
        ∙ from_be-to_be 4 (hash (covered r)) (is_u32 (covered r))

    read_offset : from_be (take 8 body) ≡ r.offset
    read_offset =
        ap (λ (xs : List ℕ). from_be (take 8 xs))
          (body_at_key_len ∙ append_assoc (to_be 8 r.offset) (to_be 8 r.timestamp_ms) _)
        ∙ ap from_be (take-append 8 (to_be 8 r.offset) _ (length-to_be 8 r.offset))
        ∙ from_be-to_be 8 r.offset fits.0

    read_timestamp : from_be (take 8 (drop 8 body)) ≡ r.timestamp_ms
    read_timestamp =
        ap (λ (xs : List ℕ). from_be (take 8 (drop 8 xs)))
          (body_at_key_len ∙ append_assoc (to_be 8 r.offset) (to_be 8 r.timestamp_ms) _)
        ∙ ap from_be (
            between 8 8 (to_be 8 r.offset) (to_be 8 r.timestamp_ms) _ (length-to_be 8 r.offset)
              (length-to_be 8 r.timestamp_ms))
        ∙ from_be-to_be 8 r.timestamp_ms fits.1

    read_the_value : take (length r.value) (drop (place + 4) body) ≡ r.value
    read_the_value =
        ap (λ (xs : List ℕ). take (length r.value) (drop (place + 4) xs)) body_at_value
        ∙ between (place + 4) (length r.value) (prefix ++ value_word) r.value crc
            (length-append prefix value_word
              ∙ omega (arith, length-prefix, length-to_be 4 (length r.value % 2 ^ 32)))
            refl

    read_value_len : from_be (take 4 (drop place body)) ≡ length r.value
    read_value_len =
        ap (λ (xs : List ℕ). from_be (take 4 (drop place xs))) body_at_value_len
        ∙ ap from_be (
            between place 4 prefix value_word (r.value ++ crc) length-prefix
              (length-to_be 4 (length r.value % 2 ^ 32)))
        ∙ from_be-to_be 4 (length r.value % 2 ^ 32) (omega arith)
        ∙ value_small

    check_crc-body : (at_ : ℕ) → check_crc hash body at_ r.key place (length r.value) ≡ decoded r
    unfolding check_crc
    check_crc-body at_ =
        let agree : (hash (covered r) == hash (covered r)) ≡ true = ground arith in
        rw (read_crc, read_covered, agree, read_offset, read_timestamp, read_the_value) refl

    read_value-body : (at_ : ℕ) → read_value hash body at_ r.key place ≡ decoded r
    unfolding read_value
    read_value-body at_ =
        let whole : length body ≡ place + 4 + length r.value + 4 = length-place in
        let room : place + 4 ≤ length body = omega (arith, whole) in
        let long : ltb (length body) (place + 4) ≡ false =
          ltb-false (length body) (place + 4) room in
        let full : (place + 4 + length r.value + 4 == length body) ≡ true =
          (==_iff (place + 4 + length r.value + 4) (length body)).1 (sym whole) in
        rw (long, read_value_len, full) (check_crc-body at_)

    -- With a key its length is below 2^31, and the word of none is that of -1.
    key_small : (k : List ℕ) → r.key ≡ some k → length k < 2 ^ 31
    unfolding body_len_of
    key_small k e =
        let same : length (key_bytes r.key) ≡ length k = ap (λ o. length (key_bytes o)) e in
        omega (arith, fits.2, same)

    read_key_len : from_be (take 4 (drop 16 body)) ≡ key_len_word r.key
    read_key_len =
        ap (λ (xs : List ℕ). from_be (take 4 (drop 16 xs))) body_at_key_len
        ∙ ap from_be (
            between 16 4 head (to_be 4 (key_len_word r.key)) _ length-head
              (length-to_be 4 (key_len_word r.key)))
        ∙ from_be-to_be 4 (key_len_word r.key) (word_small r.key)

    read_the_key : take (length (key_bytes r.key)) (drop 20 body) ≡ key_bytes r.key
    read_the_key =
        ap (λ (xs : List ℕ). take (length (key_bytes r.key)) (drop 20 xs)) body_at_key
        ∙ between 20 (length (key_bytes r.key)) (head ++ to_be 4 (key_len_word r.key))
            (key_bytes r.key) _
            (length-append head (to_be 4 (key_len_word r.key))
              ∙ omega (arith, length-head, length-to_be 4 (key_len_word r.key)))
            refl

    read_key-none :
        (at_ : ℕ) → r.key ≡ none → read_key hash body at_ (key_len_word r.key) ≡ decoded r
    unfolding read_key
    read_key-none at_ e =
        let word : key_len_word r.key ≡ 2 ^ 32 - 1 = ap key_len_word e in
        let empty : length (key_bytes r.key) ≡ 0 =
          ap (λ (o : Option (List ℕ)). length (key_bytes o)) e in
        rw word (
          ap₂ (λ (o : Option (List ℕ)) (p : ℕ). read_value hash body at_ o p) (sym e)
            (omega (arith, empty))
          ∙ read_value-body at_)

    read_key-some :
        (at_ : ℕ) (k : List ℕ)
        → r.key ≡ some k
        → read_key hash body at_ (key_len_word r.key) ≡ decoded r
    unfolding read_key
    read_key-some at_ k e =
        let small : length k < 2 ^ 31 = key_small k e in
        let word : key_len_word r.key ≡ length k = ap key_len_word e ∙ omega (arith, small) in
        let bytes : key_bytes r.key ≡ k = ap key_bytes e in
        let same : length (key_bytes r.key) ≡ length k = ap (λ (xs : List ℕ). length xs) bytes in
        let positive : leb (2 ^ 31) (length k) ≡ false = ground (arith, small) in
        let long : ltb (length body) (20 + length k) ≡ false =
          ltb-false (length body) (20 + length k) (omega (arith, length-place, same)) in
        let key : take (length k) (drop 20 body) ≡ k =
          ap (λ (n : ℕ). take n (drop 20 body)) (sym same) ∙ read_the_key ∙ bytes in
        rw (word, positive, long, key)
          (ap₂ (λ (o : Option (List ℕ)) (p : ℕ). read_value hash body at_ o p) (sym e)
              (omega (arith, same))
            ∙ read_value-body at_)

    pub decode_body-body : (at_ : ℕ) → decode_body hash body at_ ≡ decoded r
    unfolding decode_body
    decode_body-body at_ = elim (Option-cases r.key) [
      | inl e ↦ rw read_key_len (read_key-none at_ e)
      | inr (k, e) ↦ rw read_key_len (read_key-some at_ k e)
    ]
