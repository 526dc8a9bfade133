-- ===== src/Prelude/Ordered.antt =====
-- `BTreeMap` and `BTreeSet` as lists in the order of their keys, and strings as the bytes of their UTF-8,
-- which Rust compares in lexicographic order. A `DashMap` is such a map too: nothing depends on its order.
use event_stream.Prelude.Tests.{ltb, ◌==◌, ==_iff, if◌then◌else◌}
use Prim.Native.Nat.{ℕ, ◌+◌, ◌≤◌}
use mathlib.Core.Path.{◌≡◌, refl, ap, ap₂, ◌∙◌, sym}
use mathlib.Core.Logic.{◌↔◌}
use mathlib.Core.Bool.{Bool, true, false, ◌&&◌, ◌||◌}
use mathlib.Core.List.{List, [], ◌∷◌}
use mathlib.Core.Option.{Option, none, some}
use native.Mathlib.Omega.{arith}

pub record Key (K : Type 0) : Type 0 where
  pub same : K → K → Bool
  pub before : K → K → Bool
  pub same_iff : (a b : K) → (same a b ≡ true) ↔ (a ≡ b)

abbrev pub Str : Type 0
Str = List ℕ

abbrev pub str_same : Str → Str → Bool
str_same [] [] = true
str_same [] (b ∷ ys) = false
str_same (a ∷ xs) [] = false
str_same (a ∷ xs) (b ∷ ys) = a == b && str_same xs ys

abbrev pub str_before : Str → Str → Bool
str_before [] [] = false
str_before [] (b ∷ ys) = true
str_before (a ∷ xs) [] = false
str_before (a ∷ xs) (b ∷ ys) = ltb a b || (a == b && str_before xs ys)

pub str_same→ : (a b : Str) → str_same a b ≡ true → a ≡ b
str_same→ [] [] h = refl
str_same→ [] (b ∷ ys) h = absurd (cc h)
str_same→ (a ∷ xs) [] h = absurd (cc h)
str_same→ (a ∷ xs) (b ∷ ys) h =
    let head : a ≡ b = ground arith in
    let tail : str_same xs ys ≡ true = ground arith in
    ap₂ (λ (x : ℕ) (zs : Str). x ∷ zs) head (str_same→ xs ys tail)

pub str_same_refl : (a : Str) → str_same a a ≡ true
str_same_refl [] = refl
str_same_refl (a ∷ xs) = ground (arith, str_same_refl xs)

instance abbrev pub str_key : Key Str
str_key = record {
  same = str_same;
  before = str_before;
  same_iff = λ a b. (str_same→ a b, λ e. ap (str_same a) (sym e) ∙ str_same_refl a);
}

instance abbrev pub nat_key : Key ℕ
nat_key = record { same = ◌==◌; before = ltb; same_iff = ==_iff }

-- `(String, u32)`
abbrev pub pair_same : Str × ℕ → Str × ℕ → Bool
pair_same (s, m) (t, n) = str_same s t && m == n

abbrev pub pair_before : Str × ℕ → Str × ℕ → Bool
pair_before (s, m) (t, n) = str_before s t || (str_same s t && ltb m n)

pub pair_same→ : (a b : Str × ℕ) → pair_same a b ≡ true → a ≡ b
pair_same→ (s, m) (t, n) h =
    let first : s ≡ t = str_same→ s t (ground arith) in
    let second : m ≡ n = ground arith in ap₂ (λ (x : Str) (y : ℕ). (x, y)) first second

pub pair_same_refl : (a : Str × ℕ) → pair_same a a ≡ true
pair_same_refl (s, m) = ground (arith, str_same_refl s)

instance abbrev pub pair_key : Key (Str × ℕ)
pair_key = record {
  same = pair_same;
  before = pair_before;
  same_iff = λ a b. (pair_same→ a b, λ e. ap (pair_same a) (sym e) ∙ pair_same_refl a);
}

module _ {K : Type 0} ⦃e : Key K⦄ where
  pub same_refl : (k : K) → e.same k k ≡ true
  same_refl k = (e.same_iff k k).1 refl

  -- The tests of a `BTreeSet`.
  abbrev pub member : K → List K → Bool
  member k [] = false
  member k (j ∷ ks) = e.same j k || member k ks

  -- A second insertion of a member changes nothing.
  abbrev pub insert_before : K → List K → List K
  insert_before k [] = k ∷ []
  insert_before k (j ∷ ks) =
      let rest = insert_before k ks in if e.before k j then k ∷ j ∷ ks else j ∷ rest

  abbrev pub add : K → List K → List K
  add k ks = if member k ks then ks else insert_before k ks

  member-insert_before :
      (k j : K) (ks : List K) → member j (insert_before k ks) ≡ (e.same k j || member j ks)
  member-insert_before k j [] = refl
  member-insert_before k j (i ∷ ks) = ground (arith, member-insert_before k j ks)

  member_same :
      (k j : K) (ks : List K) → e.same k j ≡ true → member k ks ≡ true → member j ks ≡ true
  member_same k j ks h m = ground (arith, e.same_iff k j)

  pub member-add : (k j : K) (ks : List K) → member j (add k ks) ≡ (e.same k j || member j ks)
  member-add k j ks = ground (arith, member-insert_before k j ks, member_same k j ks)

  -- How often a key stands in a list.
  abbrev pub count : K → List K → ℕ
  count k [] = 0
  count k (j ∷ ks) = (if e.same j k then 1 else 0) + count k ks

  count-insert_before :
      (k j : K) (ks : List K)
      → count j (insert_before k ks) ≡ (if e.same k j then 1 else 0) + count j ks
  count-insert_before k j [] = refl
  count-insert_before k j (i ∷ ks) = ground (arith, count-insert_before k j ks)

  pub member-count : (k : K) (ks : List K) → member k ks ≡ false → count k ks ≡ 0
  member-count k [] h = refl
  member-count k (j ∷ ks) h = ground (arith, member-count k ks)

  -- The members of a `BTreeSet` are in it once.
  pub count-add : (k j : K) (ks : List K) → count j ks ≤ 1 → count j (add k ks) ≤ 1
  count-add k j ks h = ground (arith, count-insert_before k j ks, member-count k ks, e.same_iff k j)

abbrev pub OrdMap : Type 0 → Type 0 → Type 0
OrdMap K V = List (K × V)

module _ {K V : Type 0} ⦃e : Key K⦄ where
  abbrev pub find : K → OrdMap K V → Option V
  find k [] = none
  find k ((j, v) ∷ m) = if e.same j k then some v else find k m

  abbrev pub put : K → V → OrdMap K V → OrdMap K V
  put k v [] = (k, v) ∷ []
  put k v ((j, w) ∷ m) =
      let rest = put k v m in
      if e.same j k then (k, v) ∷ m else if e.before k j then (k, v) ∷ (j, w) ∷ m else (j, w) ∷ rest

  abbrev pub delete : K → OrdMap K V → OrdMap K V
  delete k [] = []
  delete k ((j, v) ∷ m) = let rest = delete k m in if e.same j k then rest else (j, v) ∷ rest

  pub find-put :
      (k j : K) (v : V) (m : OrdMap K V)
      → find j (put k v m) ≡ (if e.same k j then some v else find j m)
  find-put k j v [] = refl
  find-put k j v ((i, w) ∷ m) =
      ground (arith, find-put k j v m, e.same_iff i k, e.same_iff k j, e.same_iff i j)

  pub find-delete :
      (k j : K) (m : OrdMap K V) → find j (delete k m) ≡ (if e.same k j then none else find j m)
  find-delete k j [] = ground arith
  find-delete k j ((i, w) ∷ m) =
      ground (arith, find-delete k j m, e.same_iff i k, e.same_iff k j, e.same_iff i j)

  -- `m.get_mut(k)`, and what is done to the value.
  abbrev pub modify : K → (V → V) → OrdMap K V → OrdMap K V
  modify k f [] = []
  modify k f ((j, v) ∷ m) =
      let rest = modify k f m in if e.same j k then (j, f v) ∷ m else (j, v) ∷ rest
