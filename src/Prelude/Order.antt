-- ===== src/Prelude/Order.antt =====
-- `sort_unstable` on numbers, and how many elements of a list reach a bound.
use event_stream.Prelude.Tests.{leb, if◌then◌else◌}
use event_stream.Prelude.Lists.{length, get_elem?}
use event_stream.Prelude.Maps.{contains}
use Prim.Native.Nat.{ℕ, zero, suc, ◌+◌, ◌≤◌, ◌<◌}
use mathlib.Core.Path.{◌≡◌, refl}
use mathlib.Core.List.{List, [], ◌∷◌}
use mathlib.Core.Option.{some}
use native.Mathlib.Omega.{arith}

insert_sorted : ℕ → List ℕ → List ℕ
insert_sorted a [] = a ∷ []
insert_sorted a (x ∷ xs) = let rest = insert_sorted a xs in if leb a x then a ∷ x ∷ xs else x ∷ rest

unfoldable pub sort : List ℕ → List ℕ
unfolding insert_sorted
sort [] = []
sort (x ∷ xs) = insert_sorted x (sort xs)

-- How many elements are at least `b`.
abbrev pub count_ge : ℕ → List ℕ → ℕ
count_ge b [] = 0
count_ge b (x ∷ xs) = (if leb b x then 1 else 0) + count_ge b xs

abbrev pub AllGe : ℕ → List ℕ → Type 0
AllGe b [] = Unit
AllGe b (x ∷ xs) = (b ≤ x) × AllGe b xs

abbrev pub IsSorted : List ℕ → Type 0
IsSorted [] = Unit
IsSorted (x ∷ xs) = AllGe x xs × IsSorted xs

AllGe-weaken : (a b : ℕ) (xs : List ℕ) → a ≤ b → AllGe b xs → AllGe a xs
AllGe-weaken a b [] h k = tt
AllGe-weaken a b (x ∷ xs) h (hx, k) = (omega arith, AllGe-weaken a b xs h k)

AllGe-insert_sorted : (b a : ℕ) (xs : List ℕ) → b ≤ a → AllGe b xs → AllGe b (insert_sorted a xs)
unfolding insert_sorted
AllGe-insert_sorted b a [] h k = (h, tt)
AllGe-insert_sorted b a (x ∷ xs) h k = ground (arith, AllGe-insert_sorted b a xs)

insert_sorted-IsSorted : (a : ℕ) (xs : List ℕ) → IsSorted xs → IsSorted (insert_sorted a xs)
unfolding insert_sorted
insert_sorted-IsSorted a [] h = (tt, tt)
insert_sorted-IsSorted a (x ∷ xs) h =
    ground (arith, AllGe-weaken a x xs, AllGe-insert_sorted x a xs, insert_sorted-IsSorted a xs)

pub sort-IsSorted : (xs : List ℕ) → IsSorted (sort xs)
unfolding sort
sort-IsSorted [] = tt
sort-IsSorted (x ∷ xs) = insert_sorted-IsSorted x (sort xs) (sort-IsSorted xs)

count_ge-insert_sorted :
    (b a : ℕ) (xs : List ℕ) → count_ge b (insert_sorted a xs) ≡ count_ge b (a ∷ xs)
unfolding insert_sorted
count_ge-insert_sorted b a [] = refl
count_ge-insert_sorted b a (x ∷ xs) = ground (arith, count_ge-insert_sorted b a xs)

pub count_ge-sort : (b : ℕ) (xs : List ℕ) → count_ge b (sort xs) ≡ count_ge b xs
unfolding sort
count_ge-sort b [] = refl
count_ge-sort b (x ∷ xs) = omega (arith, count_ge-insert_sorted b x (sort xs), count_ge-sort b xs)

length-insert_sorted : (a : ℕ) (xs : List ℕ) → length (insert_sorted a xs) ≡ suc (length xs)
unfolding insert_sorted
length-insert_sorted a [] = refl
length-insert_sorted a (x ∷ xs) = ground (arith, length-insert_sorted a xs)

pub length-sort : (xs : List ℕ) → length (sort xs) ≡ length xs
unfolding sort
length-sort [] = refl
length-sort (x ∷ xs) = omega (arith, length-insert_sorted x (sort xs), length-sort xs)

count_ge_all : (b : ℕ) (xs : List ℕ) → AllGe b xs → count_ge b xs ≡ length xs
count_ge_all b [] h = refl
count_ge_all b (x ∷ xs) h = ground (arith, count_ge_all b xs)

count_ge-le-length : (b : ℕ) (xs : List ℕ) → count_ge b xs ≤ length xs
count_ge-le-length b [] = omega arith
count_ge-le-length b (x ∷ xs) = ground (arith, count_ge-le-length b xs)

AllGe-get_elem? : (b i c : ℕ) (xs : List ℕ) → AllGe b xs → get_elem? xs i ≡ some c → b ≤ c
AllGe-get_elem? b i c [] h e = absurd (cc e)
AllGe-get_elem? b zero c (x ∷ xs) h e = ground arith
AllGe-get_elem? b (suc i) c (x ∷ xs) h e = AllGe-get_elem? b i c xs h.1 e

-- In ascending order, a bound reaches at least `k` elements exactly when it is at most the
-- element at `length - k`.
pub count_ge-sorted :
    (xs : List ℕ) (i c b : ℕ)
    → IsSorted xs
    → get_elem? xs i ≡ some c
    → (b ≤ c → length xs ≤ count_ge b xs + i) × (c < b → count_ge b xs + i < length xs)
count_ge-sorted [] i c b s e = absurd (cc e)
count_ge-sorted (x ∷ xs) zero c b s e =
    ground (arith, count_ge_all b xs, AllGe-weaken b x xs, count_ge-le-length b xs)
count_ge-sorted (x ∷ xs) (suc i) c b s e =
    ground (arith, count_ge-sorted xs i c b, AllGe-get_elem? x i c xs, count_ge_all b xs)

contains-insert_sorted :
    (b a : ℕ) (xs : List ℕ) → contains b (insert_sorted a xs) ≡ contains b (a ∷ xs)
unfolding insert_sorted
contains-insert_sorted b a [] = refl
contains-insert_sorted b a (x ∷ xs) = ground (arith, contains-insert_sorted b a xs)

pub contains-sort : (b : ℕ) (xs : List ℕ) → contains b (sort xs) ≡ contains b xs
unfolding sort
contains-sort b [] = refl
contains-sort b (x ∷ xs) = ground (arith, contains-insert_sorted b x (sort xs), contains-sort b xs)
