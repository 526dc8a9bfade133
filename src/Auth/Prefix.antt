-- ===== src/Auth/Prefix.antt =====
-- auth.rs: the topics that a prefix covers.
use event_stream.Prelude.{
  ℕ, ◌≡◌, ◌≢◌, ◌↔◌, ◌⊎◌, inl, inr, refl, ap, true, false, ◌||◌, [], ◌∷◌, ◌++◌, arith, ◌==◌, length,
  drop, Bool-cases, is_empty, length-append, drop-append, length-drop,
}
use mathlib.Core.Path.{ap₂}
use event_stream.Prelude.Ordered.{Str, str_same, str_same→}
use event_stream.Auth.{
  star, starts_with, is_separator, starts_separated, ends_separated, prefix_matches,
}

starts_with→ : (p s : Str) → starts_with p s ≡ true → s ≡ p ++ drop (length p) s
starts_with→ [] s h = refl
starts_with→ (a ∷ p) [] h = absurd (cc h)
starts_with→ (a ∷ p) (c ∷ s) h =
    let head : c ≡ a = ground arith in
    let tail : starts_with p s ≡ true = ground arith in
    ap₂ (λ (x : ℕ) (zs : Str). x ∷ zs) head (starts_with→ p s tail)

starts_with-append : (p s : Str) → starts_with p (p ++ s) ≡ true
starts_with-append [] s = refl
starts_with-append (a ∷ p) s = ground (arith, starts_with-append p s)

-- `.`, `-` or `_`.
abbrev pub Separator : ℕ → Type 0
Separator c = (c ≡ 46) ⊎ (c ≡ 45) ⊎ (c ≡ 95)

Separator→ : (c : ℕ) → is_separator c ≡ true → Separator c
Separator→ c h = ground arith

Separator← : (c : ℕ) → Separator c → is_separator c ≡ true
Separator← c h = ground arith

abbrev pub StartsSeparated : Str → Type 0
StartsSeparated s = (c : ℕ) × (cs : Str) × (s ≡ c ∷ cs) × Separator c

abbrev pub EndsSeparated : Str → Type 0
EndsSeparated s = (c : ℕ) × (cs : Str) × (s ≡ cs ++ c ∷ []) × Separator c

starts_separated→ : (s : Str) → starts_separated s ≡ true → StartsSeparated s
starts_separated→ [] h = absurd (cc h)
starts_separated→ (c ∷ cs) h = (c, cs, refl, Separator→ c h)

starts_separated← : (s : Str) → StartsSeparated s → starts_separated s ≡ true
starts_separated← s (c, cs, e, sep) = rw e (Separator← c sep)

ends_separated→ : (s : Str) → ends_separated s ≡ true → EndsSeparated s
ends_separated→ [] h = absurd (cc h)
ends_separated→ (c ∷ []) h = (c, [], refl, Separator→ c h)
ends_separated→ (c ∷ d ∷ cs) h =
    let (last_, front, e, sep) = ends_separated→ (d ∷ cs) h in
    (last_, c ∷ front, ap (λ (s : Str). c ∷ s) e, sep)

ends_separated-append :
    (front : Str) (c : ℕ) → Separator c → ends_separated (front ++ c ∷ []) ≡ true
ends_separated-append [] c sep = Separator← c sep
ends_separated-append (a ∷ []) c sep = Separator← c sep
ends_separated-append (a ∷ b ∷ front) c sep = ends_separated-append (b ∷ front) c sep

ends_separated← : (s : Str) → EndsSeparated s → ends_separated s ≡ true
ends_separated← s (c, front, e, sep) = rw e (ends_separated-append front c sep)

-- Below a name starts at a separator, which the prefix may end in.
abbrev pub Boundary : Str → Str → Type 0
Boundary pre rest = (rest ≡ []) ⊎ EndsSeparated pre ⊎ StartsSeparated rest

-- A prefix is `*`, or the topic's name or a name above it.
abbrev pub Covers : Str → Str → Type 0
Covers pre topic =
    (pre ≡ star) ⊎ ((pre ≢ []) × ((rest : Str) × (topic ≡ pre ++ rest) × Boundary pre rest))

is_empty→ : (s : Str) → is_empty s ≡ true → s ≡ []
is_empty→ [] h = refl
is_empty→ (c ∷ s) h = absurd (cc h)

length_zero : (s : Str) → length s ≡ 0 → s ≡ []
length_zero [] h = refl
length_zero (c ∷ s) h = absurd (omega arith)

-- What the last two tests see.
boundary :
    (pre topic : Str)
    → ((length topic == length pre) || ends_separated pre)
        || starts_separated (drop (length pre) topic)
      ≡ true
    → Boundary pre (drop (length pre) topic)
boundary pre topic h = elim (Bool-cases (length topic == length pre)) [
  | inl level ↦
      let short : length (drop (length pre) topic) ≡ 0 =
        ground (arith, length-drop (length pre) topic) in
      inl (length_zero _ short)
  | inr deeper ↦ elim (Bool-cases (ends_separated pre)) [
    | inl ends ↦ inr (inl (ends_separated→ pre ends))
    | inr inside ↦ inr (inr (starts_separated→ _ (ground arith)))
  ]
]

pub prefix_matches→ : (pre topic : Str) → prefix_matches pre topic ≡ true → Covers pre topic
unfolding prefix_matches
prefix_matches→ pre topic h = elim (Bool-cases (str_same pre star)) [
  | inl all ↦ inl (str_same→ pre star all)
  | inr some_ ↦
      let starts : starts_with pre topic ≡ true = ground arith in
      let named : is_empty pre ≡ false = ground arith in
      inr (
        λ none. cc (named, ap is_empty none),
        (drop (length pre) topic, starts_with→ pre topic starts, boundary pre topic (ground arith)),
      )
]

covers_below :
    (pre rest : Str) → pre ≢ [] → Boundary pre rest → prefix_matches pre (pre ++ rest) ≡ true
unfolding prefix_matches
covers_below [] rest ne b = absurd (ne refl)
covers_below (c ∷ pre) rest ne b =
    let starts = starts_with-append (c ∷ pre) rest in
    let left : drop (length (c ∷ pre)) (c ∷ pre ++ rest) ≡ rest =
      drop-append (length (c ∷ pre)) (c ∷ pre) rest refl in
    elim b [
      | inl e ↦ ground (arith, length-append (c ∷ pre) rest, starts, ap length e)
      | inr (inl ends) ↦ ground (arith, starts, ends_separated← (c ∷ pre) ends)
      | inr (inr next) ↦
          ground (arith, starts, ap starts_separated left, starts_separated← rest next)
    ]

pub prefix_matches← : (pre topic : Str) → Covers pre topic → prefix_matches pre topic ≡ true
unfolding prefix_matches
prefix_matches← pre topic (inl e) =
    let all : str_same pre star ≡ true = ap (λ (s : Str). str_same s star) e in rw all refl
prefix_matches← pre topic (inr (ne, (rest, e, b))) = rw e (covers_below pre rest ne b)

-- A prefix matches a topic exactly when it is `*`, or is not empty and the topic's name is the prefix itself,
-- the prefix and a separator and what may follow it, or any continuation of a prefix that ends in a
-- separator.
pub prefix_matches_iff : (pre topic : Str) → (prefix_matches pre topic ≡ true) ↔ Covers pre topic
prefix_matches_iff pre topic = (prefix_matches→ pre topic, prefix_matches← pre topic)
