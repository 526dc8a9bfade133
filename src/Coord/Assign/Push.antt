-- ===== src/Coord/Assign/Push.antt =====
-- coord.rs, `recompute_assignment`: the buckets that its passes push onto.
use event_stream.Prelude.{
  ◌≤◌, ◌≡◌, refl, sym, ◌∙◌, inl, inr, Bool, true, false, some, List, [], ◌∷◌, arith, if◌then◌else◌,
  length, Bool-cases, All, length-append,
}
use mathlib.Core.Path.{subst}
use event_stream.Prelude.Ordered.{
  Str, str_same, str_same→, str_same_refl, str_key, pair_key, pair_same_refl, OrdMap, find,
}
use event_stream.Coord.{Tp, Member}
use event_stream.Coord.Assign.{Buckets, empty_buckets, bucket, push}
use event_stream.Coord.Assign.Once.{count_in, count-snoc}
use event_stream.Coord.Assign.Fair.{Subscribed}

-- There is a bucket of that id.
abbrev pub has : Str → Buckets → Bool
has mid [] = false
has mid ((j, b) ∷ cur) = if str_same j mid then true else has mid cur

abbrev pub HasAll : OrdMap Str Member → Buckets → Type 0
HasAll ms cur = All (λ (e : Str × Member). has (e.0) cur ≡ true) ms

has-push : (mid j : Str) (u : Tp) (cur : Buckets) → has mid (push j u cur) ≡ has mid cur
has-push mid j u [] = refl
has-push mid j u ((i, b) ∷ cur) = elim (Bool-cases (str_same i j)) [
  | inl same ↦ rw same refl
  | inr other ↦ rw (other, has-push mid j u cur) refl
]

pub HasAll-push :
    (j : Str) (u : Tp) (cur : Buckets) (ms : OrdMap Str Member)
    → HasAll ms cur
    → HasAll ms (push j u cur)
HasAll-push j u cur [] h = tt
HasAll-push j u cur ((mid, m) ∷ ms) (now, later) =
    (has-push mid j u cur ∙ now, HasAll-push j u cur ms later)

pub has-Subscribed :
    (mid t : Str) (cur : Buckets) (ms : OrdMap Str Member)
    → HasAll ms cur
    → Subscribed mid t ms
    → has mid cur ≡ true
has-Subscribed mid t cur [] h sub = absurd sub
has-Subscribed mid t cur ((j, m) ∷ ms) (now, later) (inl (q, s)) =
    subst (λ (x : Str). has x cur ≡ true) q now
has-Subscribed mid t cur ((j, m) ∷ ms) (now, later) (inr sub) =
    has-Subscribed mid t cur ms later sub

pub has_found :
    (mid : Str) (m : Member) (cur : Buckets) (ms : OrdMap Str Member)
    → HasAll ms cur
    → find mid ms ≡ some m
    → has mid cur ≡ true
has_found mid m cur [] h e = absurd (cc e)
has_found mid m cur ((j, n) ∷ ms) (now, later) e = elim (Bool-cases (str_same j mid)) [
  | inl same ↦ subst (λ (x : Str). has x cur ≡ true) (str_same→ j mid same) now
  | inr other ↦
      let rest : find mid ((j, n) ∷ ms) ≡ find mid ms = rw other refl in
      has_found mid m cur ms later (sym rest ∙ e)
]

HasAll-weaken :
    (j : Str) (b : List Tp) (cur : Buckets) (ms : OrdMap Str Member)
    → HasAll ms cur
    → HasAll ms ((j, b) ∷ cur)
HasAll-weaken j b cur [] h = tt
HasAll-weaken j b cur ((mid, m) ∷ ms) (now, later) = (ground arith, HasAll-weaken j b cur ms later)

pub HasAll-empty : (ms : OrdMap Str Member) → HasAll ms (empty_buckets ms)
HasAll-empty [] = tt
HasAll-empty ((mid, m) ∷ ms) =
    (rw (str_same_refl mid) refl, HasAll-weaken mid [] (empty_buckets ms) ms (HasAll-empty ms))

-- A push puts its partition there, takes nothing away, and shrinks no bucket.
pub push-there :
    (mid : Str) (tp : Tp) (cur : Buckets) → has mid cur ≡ true → 1 ≤ count_in tp (push mid tp cur)
push-there mid tp [] h = absurd (cc h)
push-there mid tp ((j, b) ∷ cur) h = elim (Bool-cases (str_same j mid)) [
  | inl same ↦ rw same (ground (arith, count-snoc tp tp b, pair_same_refl tp))
  | inr other ↦ rw other (let rest = push-there mid tp cur (ground arith) in omega arith)
]

pub push-keeps :
    (mid : Str) (u tp : Tp) (cur : Buckets) → count_in tp cur ≤ count_in tp (push mid u cur)
push-keeps mid u tp [] = omega arith
push-keeps mid u tp ((j, b) ∷ cur) = elim (Bool-cases (str_same j mid)) [
  | inl same ↦ rw same (omega (arith, count-snoc tp u b))
  | inr other ↦ rw other (omega (arith, push-keeps mid u tp cur))
]

pub push-grows :
    (j mid : Str) (u : Tp) (cur : Buckets)
    → length (bucket mid cur) ≤ length (bucket mid (push j u cur))
push-grows j mid u [] = omega arith
push-grows j mid u ((i, b) ∷ cur) = elim (Bool-cases (str_same i j)) [
  | inl same ↦ rw same (ground (arith, length-append b (u ∷ [])))
  | inr other ↦ rw other (ground (arith, push-grows j mid u cur))
]
