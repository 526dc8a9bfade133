-- ===== src/Bytes/Parts.antt =====
-- Parts of lists of bytes, by where they stand.
use event_stream.Prelude.{
  ℕ, zero, suc, ◌-◌, ◌≤◌, ◌<◌, ◌≡◌, refl, ap, ◌∙◌, false, List, [], ◌∷◌, ◌++◌, arith, length, take,
  drop, is_empty, take-append, drop-append,
}

pub take-take : (m n : ℕ) (xs : List ℕ) → m ≤ n → take m (take n xs) ≡ take m xs
take-take zero n xs h = refl
take-take (suc m) zero xs h = absurd (omega arith)
take-take (suc m) (suc n) [] h = refl
take-take (suc m) (suc n) (x ∷ xs) h = ap (λ (zs : List ℕ). x ∷ zs) (take-take m n xs (omega arith))

pub take-within : (n : ℕ) (xs ys : List ℕ) → n ≤ length xs → take n (xs ++ ys) ≡ take n xs
take-within zero xs ys h = refl
take-within (suc n) [] ys h = absurd (omega arith)
take-within (suc n) (x ∷ xs) ys h = ap (λ (zs : List ℕ). x ∷ zs) (take-within n xs ys (omega arith))

pub is_empty-false : (xs : List ℕ) → 0 < length xs → is_empty xs ≡ false
is_empty-false [] h = absurd (omega arith)
is_empty-false (x ∷ xs) h = refl

pub take-append_long :
    (n : ℕ) (xs ys : List ℕ) → length xs ≤ n → take n (xs ++ ys) ≡ xs ++ take (n - length xs) ys
take-append_long n [] ys h = ap (λ (k : ℕ). take k ys) (omega arith)
take-append_long zero (x ∷ xs) ys h = absurd (omega arith)
take-append_long (suc n) (x ∷ xs) ys h =
    ap (λ (zs : List ℕ). x ∷ zs) (take-append_long n xs ys (omega arith))
    ∙ ap (λ (k : ℕ). x ∷ xs ++ take k ys) (omega arith)

-- The list between two others, by where it stands.
pub between :
    (p n : ℕ) (xs ys zs : List ℕ)
    → length xs ≡ p
    → length ys ≡ n
    → take n (drop p (xs ++ (ys ++ zs))) ≡ ys
between p n xs ys zs hx hy = ap (take n) (drop-append p xs (ys ++ zs) hx) ∙ take-append n ys zs hy
