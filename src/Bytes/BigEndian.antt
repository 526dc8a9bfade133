-- ===== src/Bytes/BigEndian.antt =====
-- `to_be_bytes` and `from_be_bytes` of the unsigned integers, at any width, and of `i32` and `i64`.
use event_stream.Prelude.{
  ℕ, zero, suc, ◌+◌, ◌*◌, ◌/◌, ◌%◌, ◌^◌, ◌<◌, ◌≡◌, refl, ◌∙◌, List, [], ◌∷◌, ◌++◌, arith, length,
  length-append, All,
}
use native.Mathlib.Nat.{pow-suc}

-- The `w` bytes of `v`, the most significant first.
unfoldable pub to_be : ℕ → ℕ → List ℕ
to_be zero v = []
to_be (suc w) v = to_be w (v / 256) ++ v % 256 ∷ []

unfoldable pub from_be_onto : ℕ → List ℕ → ℕ
from_be_onto acc [] = acc
from_be_onto acc (b ∷ bs) = from_be_onto (acc * 256 + b) bs

unfoldable pub from_be : List ℕ → ℕ
unfolding from_be_onto
from_be bs = from_be_onto 0 bs

abbrev pub IsByte : ℕ → Type 0
IsByte b = b < 256

pub length-to_be : (w v : ℕ) → length (to_be w v) ≡ w
unfolding to_be
length-to_be zero v = refl
length-to_be (suc w) v =
    length-append (to_be w (v / 256)) (v % 256 ∷ []) ∙ omega (arith, length-to_be w (v / 256))

All-snoc : (xs : List ℕ) (b : ℕ) → All IsByte xs → IsByte b → All IsByte (xs ++ b ∷ [])
All-snoc [] b h hb = (hb, tt)
All-snoc (x ∷ xs) b h hb = (h.0, All-snoc xs b h.1 hb)

-- Every element that `to_be` writes is a byte.
pub to_be-IsByte : (w v : ℕ) → All IsByte (to_be w v)
unfolding to_be
to_be-IsByte zero v = tt
to_be-IsByte (suc w) v =
    All-snoc (to_be w (v / 256)) (v % 256) (to_be-IsByte w (v / 256)) (omega arith)

from_be_onto-snoc :
    (acc b : ℕ) (xs : List ℕ) → from_be_onto acc (xs ++ b ∷ []) ≡ from_be_onto acc xs * 256 + b
unfolding from_be_onto
from_be_onto-snoc acc b [] = refl
from_be_onto-snoc acc b (x ∷ xs) = from_be_onto-snoc (acc * 256 + x) b xs

pub from_be-to_be : (w v : ℕ) → v < 256 ^ w → from_be (to_be w v) ≡ v
unfolding from_be to_be
from_be-to_be zero v h = omega arith
from_be-to_be (suc w) v h =
    let q : 256 ^ suc w ≡ 256 * 256 ^ w = grind (arith, pow-suc) in
    from_be_onto-snoc 0 (v % 256) (to_be w (v / 256))
    ∙ omega (arith, from_be-to_be w (v / 256) (omega (arith, q)))
