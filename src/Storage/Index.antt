-- ===== src/Storage/Index.antt =====
-- crates/es-broker/src/storage/index.rs: the entries of a sparse index and their file.
use event_stream.Prelude.{
  ℕ, ◌*◌, ◌/◌, ◌%◌, ◌^◌, ◌<◌, ◌≡◌, refl, ◌∙◌, true, List, [], ◌∷◌, ◌++◌, arith, ◌==◌, ==_iff,
  if◌then◌else◌, length, length-append, All,
}
use mathlib.Core.List.{append_assoc, append-nil}
use event_stream.Bytes.BigEndian.{to_be, length-to_be}
use event_stream.Bytes.Reader.{
  IoResult, ok, err, invalid_data, Read, ◌>>=◌, pure, get_uint, get_many, encode_all, bind_ok,
  get_uint-to_be, get_many-encode_all,
}

-- `INDEX_ENTRY_LEN`
abbrev pub index_entry_len : ℕ
index_entry_len = 16

-- `push` and `last`, on the entries.
unfoldable pub push : List (ℕ × ℕ) → ℕ → ℕ → List (ℕ × ℕ)
push entries relative_offset file_position = entries ++ (relative_offset, file_position) ∷ []

unfoldable pub write_entry : ℕ × ℕ → List ℕ
write_entry (rel, pos) = to_be 8 rel ++ to_be 8 pos

-- The bytes of the file.
unfoldable pub write_all_to : List (ℕ × ℕ) → List ℕ
write_all_to entries = encode_all write_entry entries

unfoldable pub read_entry : Read (ℕ × ℕ)
read_entry = do rel ← get_uint 8; pos ← get_uint 8; pure (rel, pos)

without_rest : IoResult (List (ℕ × ℕ) × List ℕ) → IoResult (List (ℕ × ℕ))
without_rest (ok (entries, rest)) = ok entries
without_rest (err e) = err e

-- The chunks of 16 bytes, in order.
unfoldable pub load_from : List ℕ → IoResult (List (ℕ × ℕ))
unfolding without_rest
load_from buf =
    if length buf % index_entry_len == 0
    then without_rest (get_many read_entry (length buf / index_entry_len) buf)
    else err invalid_data

abbrev pub EntryFits : ℕ × ℕ → Type 0
EntryFits (rel, pos) = (rel < 2 ^ 64) × (pos < 2 ^ 64)

read-write_entry :
    (e : ℕ × ℕ) (rest : List ℕ) → EntryFits e → read_entry (write_entry e ++ rest) ≡ ok (e, rest)
unfolding read_entry write_entry
read-write_entry (rel, pos) rest (r, p) = rw append_assoc (
    bind_ok (get_uint 8) _ (get_uint-to_be 8 rel (to_be 8 pos ++ rest) r)
    ∙ bind_ok (get_uint 8) _ (get_uint-to_be 8 pos rest p))

length-write_all_to : (es : List (ℕ × ℕ)) → length (write_all_to es) ≡ 16 * length es
unfolding write_all_to write_entry
length-write_all_to [] = omega arith
length-write_all_to ((rel, pos) ∷ es) =
    length-append (to_be 8 rel ++ to_be 8 pos) (write_all_to es)
    ∙ omega (
      arith,
      length-append (to_be 8 rel) (to_be 8 pos),
      length-to_be 8 rel,
      length-to_be 8 pos,
      length-write_all_to es,
    )

-- An index whose offsets and positions are u64s is read back from the file that it was written to.
pub load_from-write_all_to :
    (es : List (ℕ × ℕ)) → All EntryFits es → load_from (write_all_to es) ≡ ok es
unfolding load_from write_all_to
load_from-write_all_to es fits =
    let len : length (write_all_to es) ≡ 16 * length es = length-write_all_to es in
    let whole : (length (encode_all write_entry es) % 16 == 0) ≡ true =
      (==_iff (length (encode_all write_entry es) % 16) 0).1 (omega (arith, len)) in
    let count : length (encode_all write_entry es) / 16 ≡ length es = omega (arith, len) in
    let read : get_many read_entry (length es) (encode_all write_entry es) ≡ ok (es, []) =
      rw append-nil at
        (get_many-encode_all read_entry write_entry EntryFits read-write_entry es [] fits) in
    rw (whole, count, read) refl
