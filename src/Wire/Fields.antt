-- ===== src/Wire/Fields.antt =====
-- wire.rs: the fields that `WireBuf` writes and `WireReader` reads. The tests of `String::from_utf8` are
-- a parameter. A `usize` holds any `u32`, so the `as usize` of a length is left out.
use event_stream.Prelude.{
  ℕ, ◌-◌, ◌/◌, ◌%◌, ◌^◌, ◌<◌, ◌≡◌, ◌≢◌, refl, Bool, true, false, not, Option, none, some, List,
  ◌++◌, leb, ltb, ◌==◌, if◌then◌else◌, arith, length, min, max,
}
use mathlib.Core.List.{append_assoc}
use event_stream.Bytes.BigEndian.{to_be}
use event_stream.Bytes.Reader.{
  ok, invalid_data, Read, ◌>>=◌, pure, fail, get_bytes, get_bytes-append, get_uint,
}
use event_stream.Bytes.Steps.{IsU16, IsU32, IsU64, u8, u16, u32, u64, after}

-- `v < 0`, of an `i32` in two's complement.
abbrev pub is_negative : ℕ → Bool
is_negative v = leb (2 ^ 31) v

-- `i64::MIN`
abbrev pub i64_min : ℕ
i64_min = 2 ^ 63

-- `if r.duplicate { 1 } else { 0 }`
unfoldable pub put_flag : Bool → List ℕ
put_flag b = to_be 1 (if b then 1 else 0)

unfoldable pub put_str : List ℕ → List ℕ
put_str s = to_be 2 (length s % 2 ^ 16) ++ s

unfoldable pub put_value : List ℕ → List ℕ
put_value v = to_be 4 (length v % 2 ^ 32) ++ v

unfoldable pub put_opt_bytes_i32 : Option (List ℕ) → List ℕ
put_opt_bytes_i32 none = to_be 4 (2 ^ 32 - 1)
put_opt_bytes_i32 (some b) = to_be 4 (length b % 2 ^ 32) ++ b

unfoldable pub put_opt_string_i32 : Option (List ℕ) → List ℕ
put_opt_string_i32 none = to_be 4 (2 ^ 32 - 1)
put_opt_string_i32 (some s) = to_be 4 (length s % 2 ^ 32) ++ s

unfoldable pub put_opt_u32_neg : Option ℕ → List ℕ
put_opt_u32_neg none = to_be 4 (2 ^ 32 - 1)
put_opt_u32_neg (some n) = to_be 4 n

unfoldable pub put_opt_i64_min : Option ℕ → List ℕ
put_opt_i64_min none = to_be 8 i64_min
put_opt_i64_min (some n) = to_be 8 n

-- The capacity that is reserved for `count` items, with `remaining` bytes left.
abbrev pub cap_hint : ℕ → ℕ → ℕ → ℕ
cap_hint remaining count min_item_bytes = min count (remaining / max min_item_bytes 1)

-- `Vec::with_capacity(r.cap_hint(count, min_item_bytes))`: the capacity, and the input as it was.
abbrev pub with_capacity : ℕ → ℕ → Read ℕ
with_capacity count min_item_bytes bs = ok (cap_hint (length bs) count min_item_bytes, bs)

unfoldable pub get_flag : Read Bool
get_flag = do b ← get_uint 1; pure (not (b == 0))

unfoldable pub get_value : Read (List ℕ)
get_value = do n ← get_uint 4; get_bytes n

unfoldable pub get_opt_bytes_i32 : Read (Option (List ℕ))
get_opt_bytes_i32 = do
  len ← get_uint 4
  if is_negative len then pure none else (do b ← get_bytes len; pure (some b))

unfoldable pub get_opt_u32_neg : Read (Option ℕ)
get_opt_u32_neg = do v ← get_uint 4; if is_negative v then pure none else pure (some v)

unfoldable pub get_opt_i64_min : Read (Option ℕ)
get_opt_i64_min = do v ← get_uint 8; if v == i64_min then pure none else pure (some v)

module _ (is_utf8 : List ℕ → Bool) where
  -- `String::from_utf8(raw)`, a failure of which becomes `InvalidData`.
  abbrev pub from_utf8 : List ℕ → Read (List ℕ)
  from_utf8 raw = if is_utf8 raw then pure raw else fail invalid_data

  unfoldable pub get_str : Read (List ℕ)
  get_str = do n ← get_uint 2; raw ← get_bytes n; from_utf8 raw

  unfoldable pub get_opt_string_i32 : Read (Option (List ℕ))
  get_opt_string_i32 = do
    len ← get_uint 4
    if is_negative len
        then pure none
        else (do raw ← get_bytes len; s ← from_utf8 raw; pure (some s))

-- Options, where there is something.
abbrev pub OnSome : (ℕ → Type 0) → Option ℕ → Type 0
OnSome P none = Unit
OnSome P (some n) = P n

-- What is left of a partition number that goes through an `i32`.
abbrev pub as_partition : Option ℕ → Option ℕ
as_partition none = none
as_partition (some n) = if ltb n (2 ^ 31) then some n else none

-- An optional partition number is read back from what is written of it when it is below 2^31; a larger
-- one is read as none.
pub get_opt_u32_neg-put :
    (o : Option ℕ) (rest : List ℕ)
    → OnSome IsU32 o
    → get_opt_u32_neg (put_opt_u32_neg o ++ rest) ≡ ok (as_partition o, rest)
unfolding get_opt_u32_neg put_opt_u32_neg
get_opt_u32_neg-put none rest h = u32 _ (omega arith) refl
get_opt_u32_neg-put (some n) rest h = u32 _ h (ground arith)

pub get_opt_i64_min-put :
    (o : Option ℕ) (rest : List ℕ)
    → OnSome (λ n. IsU64 n × (n ≢ i64_min)) o
    → get_opt_i64_min (put_opt_i64_min o ++ rest) ≡ ok (o, rest)
unfolding get_opt_i64_min put_opt_i64_min
get_opt_i64_min-put none rest h = u64 _ (omega arith) refl
get_opt_i64_min-put (some n) rest (h, ne) = u64 _ h (ground arith)

pub get_flag-put : (b : Bool) (rest : List ℕ) → get_flag (put_flag b ++ rest) ≡ ok (b, rest)
unfolding get_flag put_flag
get_flag-put true rest = u8 _ (omega arith) refl
get_flag-put false rest = u8 _ (omega arith) refl

pub get_value-put :
    (v rest : List ℕ) → IsU32 (length v) → get_value (put_value v ++ rest) ≡ ok (v, rest)
unfolding get_value put_value
get_value-put v rest h =
    let len : length v % 2 ^ 32 ≡ length v = omega arith in
    rw (append_assoc, len) (u32 _ h (get_bytes-append (length v) v rest refl))

abbrev pub IsI32Length : Option (List ℕ) → Type 0
IsI32Length none = Unit
IsI32Length (some b) = length b < 2 ^ 31

pub get_opt_bytes_i32-put :
    (o : Option (List ℕ)) (rest : List ℕ)
    → IsI32Length o
    → get_opt_bytes_i32 (put_opt_bytes_i32 o ++ rest) ≡ ok (o, rest)
unfolding get_opt_bytes_i32 put_opt_bytes_i32
get_opt_bytes_i32-put none rest h = u32 _ (omega arith) refl
get_opt_bytes_i32-put (some b) rest h =
    let len : length b % 2 ^ 32 ≡ length b = omega arith in
    let sign : is_negative (length b) ≡ false = ground arith in
    rw (append_assoc, len)
      (u32 _ (omega arith)
        (rw sign (after (get_bytes (length b)) _ (get_bytes-append (length b) b rest refl) refl)))

module _ (is_utf8 : List ℕ → Bool) where
  -- The bytes of a `String` are valid UTF-8, here of one that its length field can count.
  abbrev pub IsStr : List ℕ → Type 0
  IsStr s = IsU16 (length s) × (is_utf8 s ≡ true)

  abbrev pub IsOptString : Option (List ℕ) → Type 0
  IsOptString none = Unit
  IsOptString (some s) = (length s < 2 ^ 31) × (is_utf8 s ≡ true)

  pub get_str-put : (s rest : List ℕ) → IsStr s → get_str is_utf8 (put_str s ++ rest) ≡ ok (s, rest)
  unfolding get_str put_str
  get_str-put s rest (h, valid) =
      let len : length s % 2 ^ 16 ≡ length s = omega arith in
      rw (append_assoc, len)
        (u16 _ h (
          after (get_bytes (length s)) _ (get_bytes-append (length s) s rest refl) (rw valid refl)))

  pub get_opt_string_i32-put :
      (o : Option (List ℕ)) (rest : List ℕ)
      → IsOptString o
      → get_opt_string_i32 is_utf8 (put_opt_string_i32 o ++ rest) ≡ ok (o, rest)
  unfolding get_opt_string_i32 put_opt_string_i32
  get_opt_string_i32-put none rest h = u32 _ (omega arith) refl
  get_opt_string_i32-put (some s) rest (h, valid) =
      let len : length s % 2 ^ 32 ≡ length s = omega arith in
      let sign : is_negative (length s) ≡ false = ground arith in
      rw (append_assoc, len)
        (u32 _ (omega arith) (
          rw sign (
            after (get_bytes (length s)) _ (get_bytes-append (length s) s rest refl)
              (rw valid refl))))
