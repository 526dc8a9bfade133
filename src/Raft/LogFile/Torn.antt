-- ===== src/Raft/LogFile/Torn.antt =====
-- raft/log.rs, `decode_log`: a log file that was cut at any byte.
use event_stream.Prelude.{
  ℕ, zero, suc, ◌+◌, ◌-◌, ◌%◌, ◌^◌, ◌≤◌, ◌<◌, ◌≡◌, refl, ap, sym, ◌∙◌, inl, inr, true, false, ◌||◌,
  none, some, List, [], ◌∷◌, ◌++◌, arith, ltb, ◌==◌, length, take, drop, length-append, length-take,
  take-append, drop-append, All, Bool-cases,
}
use mathlib.Core.List.{append_assoc}
use event_stream.Prelude.{or_true}
use event_stream.Bytes.Parts.{take-take, take-within}
use event_stream.Bytes.BigEndian.{to_be, from_be, length-to_be, from_be-to_be}
use event_stream.Bytes.Reader.{encode_all}
use event_stream.Raft.Messages.{LogEntry}
use event_stream.Raft.LogFile.{
  entry_header, max_entry_bytes, entry_body, encode_entry, decode_checked, decode_sized,
  decode_entry, decode_from, decode_log,
}

-- The fields have their width, and the entry is one that the reader takes.
abbrev pub EntryFits : LogEntry → Type 0
EntryFits e = (e.term < 2 ^ 64) × (e.index < 2 ^ 64) × (20 + length e.payload ≤ max_entry_bytes)

length-entry_body : (e : LogEntry) → length (entry_body e) ≡ 16 + length e.payload
unfolding entry_body
length-entry_body e = omega (
  arith,
  length-append (to_be 8 e.term) (to_be 8 e.index ++ e.payload),
  length-append (to_be 8 e.index) e.payload,
  length-to_be 8 e.term,
  length-to_be 8 e.index,
)

module _ (hash : List ℕ → ℕ) (is_u32 : (bytes : List ℕ) → hash bytes < 2 ^ 32) where
  -- What an entry claims as its length, and what is behind the claim.
  abbrev body_len : LogEntry → ℕ
  body_len e = 20 + length e.payload

  abbrev behind : LogEntry → List ℕ
  behind e = to_be 4 (hash (entry_body e)) ++ entry_body e

  encode_entry_split :
      (e : LogEntry) → EntryFits e → encode_entry hash e ≡ to_be 4 (body_len e) ++ behind e
  unfolding encode_entry
  encode_entry_split e (t, i, fits) =
      let whole : (20 + length e.payload) % 2 ^ 32 ≡ 20 + length e.payload = omega arith in
      ap (λ (n : ℕ). to_be 4 n ++ behind e) whole

  length-behind : (e : LogEntry) → length (behind e) ≡ body_len e
  length-behind e = omega (
    arith,
    length-append (to_be 4 (hash (entry_body e))) (entry_body e),
    length-to_be 4 (hash (entry_body e)),
    length-entry_body e,
  )

  length-encode_entry : (e : LogEntry) → EntryFits e → length (encode_entry hash e) ≡ 4 + body_len e
  length-encode_entry e fit =
      ap (λ (xs : List ℕ). length xs) (encode_entry_split e fit)
      ∙ length-append (to_be 4 (body_len e)) (behind e)
      ∙ omega (arith, length-to_be 4 (body_len e), length-behind e)

  -- The body is read back once its checksum agrees.
  decode_checked-entry_body :
      (e : LogEntry) (n : ℕ)
      → EntryFits e
      → decode_checked hash n (hash (entry_body e)) (entry_body e) ≡ some (e, 4 + n)
  unfolding decode_checked entry_body
  decode_checked-entry_body e n (t, i, fits) =
      let l8 : length (to_be 8 e.term) ≡ 8 = length-to_be 8 e.term in
      let i8 : length (to_be 8 e.index) ≡ 8 = length-to_be 8 e.index in
      let head : List ℕ = to_be 8 e.term in
      let tail : List ℕ = to_be 8 e.index ++ e.payload in
      let t' : from_be (take 8 (head ++ tail)) ≡ e.term =
        ap from_be (take-append 8 head tail l8) ∙ from_be-to_be 8 e.term t in
      let i' : from_be (take 8 (drop 8 (head ++ tail))) ≡ e.index =
        ap (λ (xs : List ℕ). from_be (take 8 xs)) (drop-append 8 head tail l8)
        ∙ ap from_be (take-append 8 (to_be 8 e.index) e.payload i8)
        ∙ from_be-to_be 8 e.index i in
      let both : length (to_be 8 e.term ++ to_be 8 e.index) ≡ 16 =
        omega (arith, length-append (to_be 8 e.term) (to_be 8 e.index)) in
      let p' : drop 16 (head ++ tail) ≡ e.payload =
        ap (drop 16) (sym (append_assoc (to_be 8 e.term) (to_be 8 e.index) e.payload))
        ∙ drop-append 16 (to_be 8 e.term ++ to_be 8 e.index) e.payload both in
      let same : (hash (head ++ tail) == hash (head ++ tail)) ≡ true = ground arith in
      rw (same, t', i', p') refl

  decode_sized-encode_entry :
      (e : LogEntry) (rest : List ℕ)
      → EntryFits e
      → decode_sized hash (body_len e) (encode_entry hash e ++ rest) ≡ some (e, 4 + body_len e)
  unfolding decode_sized
  decode_sized-encode_entry e rest (t, i, fits) =
      let head : List ℕ = to_be 4 (body_len e) in
      let crc : List ℕ = to_be 4 (hash (entry_body e)) in
      let c4 : length crc ≡ 4 = length-to_be 4 (hash (entry_body e)) in
      let split : encode_entry hash e ++ rest ≡ head ++ (crc ++ (entry_body e ++ rest)) =
        ap (λ (xs : List ℕ). xs ++ rest) (encode_entry_split e (t, i, fits))
        ∙ append_assoc head (behind e) rest
        ∙ ap (λ (xs : List ℕ). head ++ xs) (append_assoc crc (entry_body e) rest) in
      let after_head : drop 4 (encode_entry hash e ++ rest) ≡ crc ++ (entry_body e ++ rest) =
        ap (drop 4) split
        ∙ drop-append 4 head (crc ++ (entry_body e ++ rest)) (length-to_be 4 (body_len e)) in
      let crc' : from_be (take 4 (drop 4 (encode_entry hash e ++ rest))) ≡ hash (entry_body e) =
        ap (λ (xs : List ℕ). from_be (take 4 xs)) after_head
        ∙ ap from_be (take-append 4 crc (entry_body e ++ rest) c4)
        ∙ from_be-to_be 4 (hash (entry_body e)) (is_u32 (entry_body e)) in
      let after_crc : drop 8 (encode_entry hash e ++ rest) ≡ entry_body e ++ rest =
        ap (drop 8) (split ∙ sym (append_assoc head crc (entry_body e ++ rest)))
        ∙ drop-append 8 (head ++ crc) (entry_body e ++ rest)
            (length-append head crc ∙ omega (arith, length-to_be 4 (body_len e), c4)) in
      let body' : take (body_len e - 4) (drop 8 (encode_entry hash e ++ rest)) ≡ entry_body e =
        ap (take (body_len e - 4)) after_crc
        ∙ take-append (body_len e - 4) (entry_body e) rest (omega (arith, length-entry_body e)) in
      let long : 4 + body_len e ≤ length (encode_entry hash e ++ rest) =
        omega
          (arith, length-append (encode_entry hash e) rest, length-encode_entry e (t, i, fits)) in
      let taken : ((ltb (body_len e) 20 || ltb max_entry_bytes (body_len e))
            || ltb (length (encode_entry hash e ++ rest)) (4 + body_len e))
          ≡ false =
        ground arith in
      rw (taken, crc', body') (decode_checked-entry_body e (body_len e) (t, i, fits))

  -- The claimed length of an entry, read from anything that keeps its first four bytes.
  claimed :
      (e : LogEntry) (bytes : List ℕ)
      → EntryFits e
      → take 4 bytes ≡ take 4 (encode_entry hash e)
      → from_be (take 4 bytes) ≡ body_len e
  claimed e bytes (t, i, fits) same =
      ap from_be (
        same
        ∙ ap (take 4) (encode_entry_split e (t, i, fits))
        ∙ take-append 4 (to_be 4 (body_len e)) (behind e) (length-to_be 4 (body_len e)))
      ∙ from_be-to_be 4 (body_len e) (ground arith)

  decode_entry-encode_entry :
      (e : LogEntry) (rest : List ℕ)
      → EntryFits e
      → decode_entry hash (encode_entry hash e ++ rest) ≡ some (e, length (encode_entry hash e))
  unfolding decode_entry
  decode_entry-encode_entry e rest fit =
      let whole = length-encode_entry e fit in
      let long : ltb (length (encode_entry hash e ++ rest)) entry_header ≡ false =
        ground (arith, length-append (encode_entry hash e) rest, whole) in
      let bl : from_be (take 4 (encode_entry hash e ++ rest)) ≡ body_len e =
        claimed e (encode_entry hash e ++ rest) fit
          (take-within 4 (encode_entry hash e) rest (omega (arith, whole))) in
      rw (long, bl, whole) (decode_sized-encode_entry e rest fit)

  -- A proper prefix of an entry is no entry.
  decode_entry-torn :
      (e : LogEntry) (n : ℕ)
      → EntryFits e
      → n < length (encode_entry hash e)
      → decode_entry hash (take n (encode_entry hash e)) ≡ none
  unfolding decode_entry decode_sized
  decode_entry-torn e n fit lt =
      let len : length (take n (encode_entry hash e)) ≡ n =
        length-take n (encode_entry hash e) ∙ omega arith in
      elim (Bool-cases (ltb n entry_header)) [
        | inl short ↦ rw (len, short) refl
        | inr head ↦
            let bl =
              claimed e (take n (encode_entry hash e)) fit
                (take-take 4 n (encode_entry hash e) (ground arith)) in
            let cut : ltb n (4 + body_len e) ≡ true = ground (arith, length-encode_entry e fit) in
            rw
              (
                len,
                head,
                bl,
                cut,
                or_true (ltb (body_len e) 20 || ltb max_entry_bytes (body_len e)),
              )
              refl
      ]

  -- The entries with their positions in the file, from a position on.
  abbrev pub positions : ℕ → List LogEntry → List (LogEntry × ℕ)
  positions pos [] = []
  positions pos (e ∷ es) = (e, pos) ∷ positions (pos + length (encode_entry hash e)) es

  decode_from_stops :
      (fuel pos : ℕ) (bytes : List ℕ)
      → decode_entry hash bytes ≡ none
      → decode_from hash (suc fuel) pos bytes ≡ ([], pos)
  unfolding decode_from
  decode_from_stops fuel pos bytes h = rw (h, decode_from)

  decode_from_goes :
      (fuel pos n : ℕ) (e : LogEntry) (bytes : List ℕ)
      → decode_entry hash bytes ≡ some (e, n)
      → decode_from hash (suc fuel) pos bytes ≡ (
        (e, pos) ∷ (decode_from hash fuel (pos + n) (drop n bytes)).0,
        (decode_from hash fuel (pos + n) (drop n bytes)).1,
      )
  unfolding decode_from
  decode_from_goes fuel pos n e bytes h = rw (h, decode_from)

  decode_from-encode_all :
      (es : List LogEntry) (tail : List ℕ) (fuel pos : ℕ)
      → All EntryFits es
      → decode_entry hash tail ≡ none
      → length (encode_all (encode_entry hash) es ++ tail) ≤ fuel
      → decode_from hash fuel pos (encode_all (encode_entry hash) es ++ tail)
        ≡ (positions pos es, pos + length (encode_all (encode_entry hash) es))
  unfolding decode_from
  decode_from-encode_all [] tail zero pos fit torn enough = ap (λ (k : ℕ). ([], k)) (omega arith)
  decode_from-encode_all [] tail (suc fuel) pos fit torn enough =
      decode_from_stops fuel pos tail torn ∙ ap (λ (k : ℕ). ([], k)) (omega arith)
  decode_from-encode_all (e ∷ es) tail zero pos (fit, more) torn enough =
      let whole : encode_all (encode_entry hash) (e ∷ es) ++ tail
          ≡ encode_entry hash e ++ (encode_all (encode_entry hash) es ++ tail) =
        append_assoc (encode_entry hash e) (encode_all (encode_entry hash) es) tail in
      let len = length-append (encode_entry hash e) (encode_all (encode_entry hash) es ++ tail) in
      absurd (omega (arith, rw whole at enough, len, length-encode_entry e fit))
  decode_from-encode_all (e ∷ es) tail (suc fuel) pos (fit, more) torn enough =
      let one : List ℕ = encode_entry hash e in
      let rest : List ℕ = encode_all (encode_entry hash) es in
      let whole : (one ++ rest) ++ tail ≡ one ++ (rest ++ tail) = append_assoc one rest tail in
      let len = length-append one (rest ++ tail) in
      let here = length-encode_entry e fit in
      let next : decode_from hash fuel (pos + length one)
            (drop (length one) (one ++ (rest ++ tail)))
          ≡ (positions (pos + length one) es, (pos + length one) + length rest) =
        ap (decode_from hash fuel (pos + length one))
          (drop-append (length one) one (rest ++ tail) refl)
        ∙ decode_from-encode_all es tail fuel (pos + length one) more torn
            (omega (arith, rw whole at enough, len, here)) in
      ap (decode_from hash (suc fuel) pos) whole
      ∙ decode_from_goes fuel pos (length one) e (one ++ (rest ++ tail))
          (decode_entry-encode_entry e (rest ++ tail) fit)
      ∙ ap (λ (r : List (LogEntry × ℕ) × ℕ). ((e, pos) ∷ r.0, r.1)) next
      ∙ ap (λ (k : ℕ). ((e, pos) ∷ positions (pos + length one) es, k))
          (omega (arith, length-append one rest))

  -- A log file of entries that the reader takes (the checksum a u32, terms and indices u64s, no
  -- entry beyond the limit), cut at any byte of its last entry, is read as every entry before it, each with its
  -- position, and the length of the part to keep is where the cut entry started.
  pub decode_log-torn :
      (es : List LogEntry) (e : LogEntry) (n : ℕ)
      → All EntryFits es
      → EntryFits e
      → n < length (encode_entry hash e)
      → decode_log hash (encode_all (encode_entry hash) es ++ take n (encode_entry hash e))
        ≡ (positions 0 es, length (encode_all (encode_entry hash) es))
  unfolding decode_log
  decode_log-torn es e n fits fit lt =
      decode_from-encode_all es (take n (encode_entry hash e)) _ 0 fits
        (decode_entry-torn e n fit lt) (omega arith)
      ∙ ap (λ (k : ℕ). (positions 0 es, k)) (omega arith)
