-- ===== src/Bytes/Steps.antt =====
-- Single reads of a `do` block over what a codec wrote: what is left to show is that the rest of the
-- block goes on from there.
use event_stream.Prelude.{ℕ, ◌^◌, ◌<◌, ◌≡◌, ◌∙◌, List, ◌++◌}
use event_stream.Bytes.BigEndian.{to_be}
use event_stream.Bytes.Reader.{IoResult, ok, Read, ◌>>=◌, bind_ok, get_uint, get_uint-to_be}

abbrev pub IsU8 : ℕ → Type 0
IsU8 n = n < 2 ^ 8

abbrev pub IsU16 : ℕ → Type 0
IsU16 n = n < 2 ^ 16

abbrev pub IsU32 : ℕ → Type 0
IsU32 n = n < 2 ^ 32

abbrev pub IsU64 : ℕ → Type 0
IsU64 n = n < 2 ^ 64

module _ {B : Type 0} {rest : List ℕ} {r : IoResult (B × List ℕ)} where
  pub u8 :
      {v : ℕ} (f : ℕ → Read B) → IsU8 v → f v rest ≡ r → (get_uint 1 >>= f) (to_be 1 v ++ rest) ≡ r
  u8 {v = v} f h next = bind_ok (get_uint 1) f (get_uint-to_be 1 v rest h) ∙ next

  pub u16 :
      {v : ℕ} (f : ℕ → Read B) → IsU16 v → f v rest ≡ r → (get_uint 2 >>= f) (to_be 2 v ++ rest) ≡ r
  u16 {v = v} f h next = bind_ok (get_uint 2) f (get_uint-to_be 2 v rest h) ∙ next

  pub u32 :
      {v : ℕ} (f : ℕ → Read B) → IsU32 v → f v rest ≡ r → (get_uint 4 >>= f) (to_be 4 v ++ rest) ≡ r
  u32 {v = v} f h next = bind_ok (get_uint 4) f (get_uint-to_be 4 v rest h) ∙ next

  pub u64 :
      {v : ℕ} (f : ℕ → Read B) → IsU64 v → f v rest ≡ r → (get_uint 8 >>= f) (to_be 8 v ++ rest) ≡ r
  u64 {v = v} f h next = bind_ok (get_uint 8) f (get_uint-to_be 8 v rest h) ∙ next

  -- A read that is known to succeed.
  pub after :
      {A : Type 0} {bs : List ℕ} {a : A} (m : Read A) (f : A → Read B)
      → m bs ≡ ok (a, rest)
      → f a rest ≡ r
      → (m >>= f) bs ≡ r
  after m f e next = bind_ok m f e ∙ next
