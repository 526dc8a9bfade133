-- ===== src/Wire/Bounded.antt =====
-- wire.rs: what the decoders take off their input, and what they reserve before they read it.
use event_stream.Prelude.{
  ℕ, zero, suc, ◌+◌, ◌*◌, ◌<◌, ◌≤◌, ◌≡◌, refl, ap, Bool, true, false, Option, List, arith, length,
  length-drop, if◌then◌else◌, ◌==◌,
}
use native.Mathlib.Nat.{suc-mul}
use event_stream.Bytes.Reader.{
  IoResult, ok, err, unexpected_eof, Read, ◌>>=◌, get_bytes, get_uint, get_many,
}
use event_stream.Bytes.Steps.{IsU32, after}
use event_stream.Wire.Fields.{
  is_negative, i64_min, IsStr, IsOptString, get_value, get_opt_bytes_i32, get_opt_u32_neg,
  get_opt_i64_min,
}
use event_stream.Wire.Head.{claiming, head, read_produce_head-put}
use event_stream.Wire.Codec.{
  value_of, get_produce_record, ProduceHead, read_produce_head, read_produce_request,
  decode_produce_request,
}

-- A read takes at least `k` of the `n` bytes of its input, or fails because they run out.
abbrev Spent : {A : Type 0} → ℕ → ℕ → IoResult (A × List ℕ) → Type 0
Spent k n (ok (a, rest)) = k + length rest ≤ n
Spent k n (err e) = e ≡ unexpected_eof

abbrev Takes : {A : Type 0} → ℕ → Read A → Type 0
Takes k m = (bs : List ℕ) → Spent k (length bs) (m bs)

Takes-get_bytes : (n : ℕ) → Takes n (get_bytes n)
unfolding get_bytes
Takes-get_bytes n bs = ground (arith, length-drop n bs)

Takes-if :
    {A : Type 0} (k : ℕ) (c : Bool) (m n : Read A)
    → Takes k m
    → Takes k n
    → Takes k (if c then m else n)
Takes-if k true m n hm hn = hm
Takes-if k false m n hm hn = hn

module _ {A B : Type 0} (j k : ℕ) (f : A → Read B) (hf : (a : A) → Takes k (f a)) where
  Spent-bind :
      (n : ℕ) (r : IoResult (A × List ℕ))
      → Spent j n r
      → Spent (j + k) n (elim r [ ok (a, rest) ↦ f a rest | err e ↦ err e ])
  Spent-bind n (ok (a, rest)) h =
      elim (f a rest) as (λ r. Spent k (length rest) r → Spent (j + k) n r) [
        | ok (b, left) ↦ λ t. omega arith
        | err e ↦ λ t. t
      ]
        (hf a rest)
  Spent-bind n (err e) h = h

  Takes-bind : (m : Read A) → Takes j m → Takes (j + k) (m >>= f)
  Takes-bind m hm bs = Spent-bind (length bs) (m bs) (hm bs)

-- A read that takes more takes less.
Takes-weaken : {A : Type 0} (j k : ℕ) (m : Read A) → j ≤ k → Takes k m → Takes j m
Takes-weaken j k m le hm bs =
    elim (m bs) as (λ r. Spent k (length bs) r → Spent j (length bs) r) [
      | ok (a, rest) ↦ λ t. omega arith
      | err e ↦ λ t. t
    ]
      (hm bs)

Takes-get_uint : (w : ℕ) → Takes w (get_uint w)
unfolding get_uint
Takes-get_uint w =
    Takes-weaken w (w + 0) (get_uint w) (omega arith)
      (Takes-bind w 0 _ (λ raw rest. omega arith) (get_bytes w) (Takes-get_bytes w))

Takes-get_value : Takes 4 get_value
unfolding get_value
Takes-get_value =
    Takes-bind 4 0 _ (λ n. Takes-weaken 0 n _ (omega arith) (Takes-get_bytes n)) (get_uint 4)
      (Takes-get_uint 4)

-- What follows a length takes any number of bytes.
Takes-bytes_then :
    {B : Type 0} (n : ℕ) (f : List ℕ → Read B)
    → ((b : List ℕ) → Takes 0 (f b))
    → Takes 0 (get_bytes n >>= f)
Takes-bytes_then n f h =
    Takes-weaken 0 (n + 0) _ (omega arith) (Takes-bind n 0 f h (get_bytes n) (Takes-get_bytes n))

Takes-get_opt_bytes_i32 : Takes 4 get_opt_bytes_i32
unfolding get_opt_bytes_i32
Takes-get_opt_bytes_i32 =
    Takes-bind 4 0 _
      (λ len.
        Takes-if 0 (is_negative len) _ _ (λ rest. omega arith)
          (Takes-bytes_then len _ (λ b rest. omega arith)))
      (get_uint 4) (Takes-get_uint 4)

Takes-get_opt_u32_neg : Takes 4 get_opt_u32_neg
unfolding get_opt_u32_neg
Takes-get_opt_u32_neg =
    Takes-bind 4 0 _
      (λ v. Takes-if 0 (is_negative v) _ _ (λ rest. omega arith) (λ rest. omega arith)) (get_uint 4)
      (Takes-get_uint 4)

Takes-get_opt_i64_min : Takes 8 get_opt_i64_min
unfolding get_opt_i64_min
Takes-get_opt_i64_min =
    Takes-bind 8 0 _
      (λ v. Takes-if 0 (v == i64_min) _ _ (λ rest. omega arith) (λ rest. omega arith)) (get_uint 8)
      (Takes-get_uint 8)

Takes-get_produce_record : Takes 20 get_produce_record
unfolding get_produce_record
Takes-get_produce_record =
    Takes-bind 4 16 _
      (λ k.
        Takes-bind 4 12 _
          (λ v.
            Takes-bind 4 8 _
              (λ p. Takes-bind 8 0 _ (λ s rest. omega arith) get_opt_i64_min Takes-get_opt_i64_min)
              get_opt_u32_neg Takes-get_opt_u32_neg)
          get_value Takes-get_value)
      get_opt_bytes_i32 Takes-get_opt_bytes_i32

-- The loop takes what its items take.
Takes-get_many :
    {A : Type 0} (k : ℕ) (read : Read A) → Takes k read → (n : ℕ) → Takes (n * k) (get_many read n)
unfolding get_many
Takes-get_many k read h zero = λ rest. omega arith
Takes-get_many k read h (suc n) =
    Takes-weaken (suc n * k) (k + (n * k + 0)) _ (omega (arith, suc-mul n k)) (
      Takes-bind k (n * k + 0) _
        (λ a.
          Takes-bind (n * k) 0 _ (λ more rest. omega arith) (get_many read n)
            (Takes-get_many k read h n))
        read h)

-- A loop over more items than the input can hold fails, whatever would follow it.
module _ {A B : Type 0} (k : ℕ) (read : Read A) (f : List A → Read B) (h : Takes k read) where
  too_many :
      (n : ℕ) (bs : List ℕ) → length bs < n * k → (get_many read n >>= f) bs ≡ err unexpected_eof
  too_many n bs short =
      elim (get_many read n bs)
          as (λ r.
            Spent (n * k) (length bs) r
            → (elim r [ ok (a, rest) ↦ f a rest | err e ↦ err e ]) ≡ err unexpected_eof) [
              | ok (xs, rest) ↦ λ t. absurd (omega arith)
              | err e ↦ λ t. ap err t
            ]
        (Takes-get_many k read h n bs)

module _ (is_utf8 : List ℕ → Bool) (topic : List ℕ) (producer_id : Option (List ℕ)) (n : ℕ)
    (tail : List ℕ) where
  -- A produce request that claims more records than its bytes can hold, at 20 bytes for the smallest, is
  -- refused as cut short; and where the decoder starts on them, what it has reserved is no more
  -- records than the bytes that are left can hold.
  pub decode_produce_request-overclaimed :
      IsStr is_utf8 topic
      → IsOptString is_utf8 producer_id
      → IsU32 n
      → length tail < n * 20
      → (decode_produce_request is_utf8 (claiming topic producer_id n tail) ≡ err unexpected_eof)
        × ((h : ProduceHead) × (read_produce_head is_utf8 (claiming topic producer_id n tail)
              ≡ ok (h, tail))
            × (h.count ≡ n)
            × (h.capacity * 20 ≤ length tail))
  unfolding read_produce_request
  decode_produce_request-overclaimed t p h short =
      let start = read_produce_head-put is_utf8 topic producer_id n tail t p h in
      let cut : read_produce_request is_utf8 (claiming topic producer_id n tail)
          ≡ err unexpected_eof =
        after (read_produce_head is_utf8) _ start
          (too_many 20 get_produce_record _ Takes-get_produce_record n tail short) in
      (ap value_of cut, (head topic producer_id n tail, start, refl, omega arith))
