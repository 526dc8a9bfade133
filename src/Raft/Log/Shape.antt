-- ===== src/Raft/Log/Shape.antt =====
-- raft/log.rs: the shape of a well-formed log, and its look-ups in terms of positions.
use event_stream.Prelude.{
  ℕ, zero, suc, ◌+◌, ◌-◌, ◌≤◌, ◌<◌, ◌≡◌, refl, ap, ◌∙◌, sym, Option, none, some, List, [], ◌∷◌,
  ◌++◌, arith, leb, length, last, get_elem?, add_u64, take, drop, inl, inr, ◌^◌, Bool-cases, leb→le,
}
use event_stream.Raft.Messages.{LogEntry}
use event_stream.Raft.Log.{
  Log, last_index, get, term_at, get_from, index_of_last, term_of_entry, truncated, renumber,
}

-- The entries carry the indices after `b`, without a gap.
abbrev pub Follows : ℕ → List LogEntry → Type 0
Follows b [] = Unit
Follows b (e ∷ es) = (e.index ≡ b + 1) × Follows (b + 1) es

abbrev pub Contiguous : Log → Type 0
Contiguous l = Follows l.base_index l.entries

-- The term of the entry at a position of a list.
abbrev pub term_elem : List LogEntry → ℕ → Option ℕ
term_elem es k = term_of_entry (get_elem? es k)

index_of_last-Follows :
    (b d : ℕ) (e : LogEntry) (es : List LogEntry)
    → Follows b (e ∷ es)
    → index_of_last (last (e ∷ es)) d ≡ b + suc (length es)
index_of_last-Follows b d e [] h = omega arith
index_of_last-Follows b d e (f ∷ es) h = index_of_last-Follows (b + 1) d f es h.1 ∙ omega arith

last_index-entries :
    (b : ℕ) (es : List LogEntry) → Follows b es → index_of_last (last es) b ≡ b + length es
last_index-entries b [] h = omega arith
last_index-entries b (e ∷ es) h = index_of_last-Follows b b e es h

-- The last index is the base plus the number of entries in memory.
pub last_index-Contiguous :
    (l : Log) → Contiguous l → last_index l ≡ l.base_index + length l.entries
unfolding last_index
last_index-Contiguous l h = last_index-entries l.base_index l.entries h

get_from-Follows :
    (b k : ℕ) (es : List LogEntry) → Follows b es → get_from es (b + 1 + k) ≡ get_elem? es k
get_from-Follows b k [] h = refl
get_from-Follows b k (e ∷ es) h =
    let same : b + 1 + k - e.index ≡ k = omega arith in ground (arith, ap (get_elem? (e ∷ es)) same)

get_from-below : (b i : ℕ) (es : List LogEntry) → Follows b es → i ≤ b → get_from es i ≡ none
get_from-below b i [] h le = refl
get_from-below b i (e ∷ es) h le = ground arith

pub get-at : (l : Log) (k : ℕ) → Contiguous l → get l (l.base_index + 1 + k) ≡ get_elem? l.entries k
unfolding get
get-at l k h = get_from-Follows l.base_index k l.entries h

pub get-below : (l : Log) (i : ℕ) → Contiguous l → i ≤ l.base_index → get l i ≡ none
unfolding get
get-below l i h le = get_from-below l.base_index i l.entries h le

pub term_at-at :
    (l : Log) (k : ℕ) → Contiguous l → term_at l (l.base_index + 1 + k) ≡ term_elem l.entries k
unfolding term_at
term_at-at l k h = ground (arith, get-at l k h)

-- A look-up above the base, at the position that its index names.
pub term_at-above :
    (l : Log) (i : ℕ)
    → Contiguous l
    → l.base_index < i
    → term_at l i ≡ term_elem l.entries (i - l.base_index - 1)
term_at-above l i h lt =
    let e : i ≡ l.base_index + 1 + (i - l.base_index - 1) = omega arith in
    ap (term_at l) e ∙ term_at-at l (i - l.base_index - 1) h

pub get-above :
    (l : Log) (i : ℕ)
    → Contiguous l
    → l.base_index < i
    → get l i ≡ get_elem? l.entries (i - l.base_index - 1)
get-above l i h lt =
    let e : i ≡ l.base_index + 1 + (i - l.base_index - 1) = omega arith in
    ap (get l) e ∙ get-at l (i - l.base_index - 1) h

pub term_elem_in : (es : List LogEntry) (k : ℕ) (t : ℕ) → term_elem es k ≡ some t → k < length es
term_elem_in [] k t h = absurd (cc h)
term_elem_in (e ∷ es) zero t h = omega arith
term_elem_in (e ∷ es) (suc k) t h = omega (arith, term_elem_in es k t h)

pub term_elem-some :
    (es : List LogEntry) (k : ℕ) → k < length es → (t : ℕ) × (term_elem es k ≡ some t)
term_elem-some [] k h = absurd (omega arith)
term_elem-some (e ∷ es) zero h = (e.term, refl)
term_elem-some (e ∷ es) (suc k) h = term_elem-some es k (omega arith)

pub term_elem-none : (es : List LogEntry) (k : ℕ) → term_elem es k ≡ none → length es ≤ k
term_elem-none [] k h = omega arith
term_elem-none (e ∷ es) zero h = absurd (cc h)
term_elem-none (e ∷ es) (suc k) h = omega (arith, term_elem-none es k h)

pub Follows-append :
    (b : ℕ) (xs ys : List LogEntry)
    → Follows b xs
    → Follows (b + length xs) ys
    → Follows b (xs ++ ys)
Follows-append b [] ys hx hy = let e : b + 0 ≡ b = omega arith in rw e at hy
Follows-append b (x ∷ xs) ys hx hy =
    let e : b + suc (length xs) ≡ b + 1 + length xs = omega arith in
    (hx.0, Follows-append (b + 1) xs ys hx.1 (rw e at hy))

pub Follows-take : (b n : ℕ) (es : List LogEntry) → Follows b es → Follows b (take n es)
Follows-take b zero es h = tt
Follows-take b (suc n) [] h = tt
Follows-take b (suc n) (e ∷ es) h = (h.0, Follows-take (b + 1) n es h.1)

pub Follows-drop :
    (b n : ℕ) (es : List LogEntry) → Follows b es → n ≤ length es → Follows (b + n) (drop n es)
Follows-drop b zero es h le = let e : b ≡ b + 0 = omega arith in rw e at h
Follows-drop b (suc n) [] h le = tt
Follows-drop b (suc n) (e ∷ es) h le =
    let q : b + 1 + n ≡ b + suc n = omega arith in
    rw q at (Follows-drop (b + 1) n es h.1 (omega arith))

pub Follows-renumber :
    (b next : ℕ) (es : List LogEntry)
    → next ≡ b + 1
    → next + length es ≤ 2 ^ 64
    → Follows b (renumber next es)
unfolding renumber
Follows-renumber b next [] e h = tt
Follows-renumber b next (x ∷ []) e h = (e, tt)
Follows-renumber b next (x ∷ y ∷ es) e h =
    (e, Follows-renumber (b + 1) (add_u64 next 1) (y ∷ es) (omega arith) (omega arith))

take_nil {ℓ} : {A : Type ℓ} (n : ℕ) → ◌≡◌ {A = List A} (take n []) []
take_nil zero = refl
take_nil (suc n) = refl

pub truncated-Follows :
    (b cut : ℕ) (es : List LogEntry)
    → Follows b es
    → b < cut
    → truncated es cut ≡ take (cut - b - 1) es
unfolding truncated
truncated-Follows b cut [] h lt = sym (take_nil (cut - b - 1))
truncated-Follows b cut (e ∷ es) h lt = elim (Bool-cases (leb cut e.index)) [
  | inl p ↦
      let none_kept : cut - b - 1 ≡ 0 = omega (arith, leb→le cut e.index p) in rw (p, none_kept)
  | inr p ↦ let same : cut - e.index ≡ cut - b - 1 = omega (arith, h.0) in rw (p, same)
]
