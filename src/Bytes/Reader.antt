-- ===== src/Bytes/Reader.antt =====
-- The bounds-checked reads that the codecs share, over what is left of the input: `ensure` and the
-- `get_*` of es-protocol's `WireReader`, which `raft/messages.rs` has once more as `Reader`.
use event_stream.Prelude.{
  ℕ, zero, suc, ◌^◌, ◌<◌, ◌≡◌, refl, ap, ◌∙◌, false, List, [], ◌∷◌, ◌++◌, arith, ltb, if◌then◌else◌,
  length, take, drop, length-append, take-append, drop-append, All,
}
use mathlib.Core.List.{append_assoc}
use event_stream.Bytes.BigEndian.{to_be, from_be, length-to_be, from_be-to_be}

-- `io::ErrorKind`, as far as the codecs return it.
pub data IoError : Type 0 where
  unexpected_eof invalid_data : IoError

pub data IoResult {ℓ} (A : Type ℓ) : Type ℓ where
  ok : A → IoResult A
  err : IoError → IoResult A

-- A read takes what is left of the input, and hands on its value and what is left after it.
abbrev pub Read : Type 0 → Type 0
Read A = List ℕ → IoResult (A × List ℕ)

infixl 10 ◌>>=◌
abbrev pub ◌>>=◌ : {A B : Type 0} → Read A → (A → Read B) → Read B
◌>>=◌ m f bs = elim (m bs) [ ok (a, rest) ↦ f a rest | err e ↦ err e ]

abbrev pub pure : {A : Type 0} → A → Read A
pure a bs = ok (a, bs)

abbrev pub fail : {A : Type 0} → IoError → Read A
fail e bs = err e

-- `ensure(n)`, then the next `n` bytes.
unfoldable pub get_bytes : ℕ → Read (List ℕ)
get_bytes n bs = if ltb (length bs) n then err unexpected_eof else ok (take n bs, drop n bs)

-- A big-endian number of `w` bytes.
unfoldable pub get_uint : ℕ → Read ℕ
get_uint w = do raw ← get_bytes w; pure (from_be raw)

-- `for _ in 0..n { out.push(read()?) }`
unfoldable pub get_many : {A : Type 0} → Read A → ℕ → Read (List A)
get_many read zero = pure []
get_many read (suc n) = do a ← read; more ← get_many read n; pure (a ∷ more)

-- The rest of a `do` block runs on from a read that succeeded.
pub bind_ok :
    {A B : Type 0} (m : Read A) (f : A → Read B) {bs rest : List ℕ} {a : A}
    → m bs ≡ ok (a, rest)
    → (m >>= f) bs ≡ f a rest
bind_ok m f e = rw (e, ◌>>=◌)

pub get_bytes-append :
    (n : ℕ) (xs rest : List ℕ) → length xs ≡ n → get_bytes n (xs ++ rest) ≡ ok (xs, rest)
unfolding get_bytes
get_bytes-append n xs rest h =
    let enough : ltb (length (xs ++ rest)) n ≡ false = ground (arith, length-append xs rest) in
    rw (enough, take-append n xs rest h, drop-append n xs rest h)

pub get_uint-to_be :
    (w v : ℕ) (rest : List ℕ) → v < 256 ^ w → get_uint w (to_be w v ++ rest) ≡ ok (v, rest)
unfolding get_uint
get_uint-to_be w v rest h =
    bind_ok (get_bytes w) _ (get_bytes-append w (to_be w v) rest (length-to_be w v))
    ∙ ap (λ (a : ℕ). ok (a, rest)) (from_be-to_be w v h)

-- `for a in xs { buf.extend(enc(a)) }`
abbrev pub encode_all : {A : Type 0} → (A → List ℕ) → List A → List ℕ
encode_all enc [] = []
encode_all enc (a ∷ more) = enc a ++ encode_all enc more

-- A reader that reads back each encoded element reads back the encoded list.
module _ {A : Type 0} (read : Read A) (enc : A → List ℕ) (P : A → Type 0)
    (reads_back : (a : A) (rest : List ℕ) → P a → read (enc a ++ rest) ≡ ok (a, rest)) where
  pub get_many-encode_all :
      (xs : List A) (rest : List ℕ)
      → All P xs
      → get_many read (length xs) (encode_all enc xs ++ rest) ≡ ok (xs, rest)
  unfolding get_many
  get_many-encode_all [] rest h = refl
  get_many-encode_all (a ∷ more) rest (ha, h) = rw append_assoc (
      bind_ok read _ (reads_back a (encode_all enc more ++ rest) ha)
      ∙ bind_ok (get_many read (length more)) _ (get_many-encode_all more rest h))
