-- ===== src/Retention/Budget.antt =====
-- retention.rs: after a pass a partition is within its budget, or only its active segment is left.
use event_stream.Prelude.{
  ℕ, ◌+◌, ◌-◌, ◌%◌, ◌^◌, ◌≤◌, ◌<◌, ◌≡◌, ◌⊎◌, refl, sym, ◌∙◌, inl, inr, true, false, ◌||◌, Option,
  some, List, [], ◌∷◌, ◌++◌, arith, ltb, leb, ◌==◌, if◌then◌else◌, Bool-cases, contains, All,
  is_empty, last, length,
}
use mathlib.Core.Path.{subst}
use event_stream.Prelude.Order.{sort, contains-sort}
use event_stream.Retention.{
  SegmentInfo, expired, sum_sizes, trim_to, over_budget, dedup, sealed_of, victims_of, plan_victims,
}

-- The sizes of the segments that are victims, and of those that are not.
abbrev pub removed : List ℕ → List SegmentInfo → ℕ
removed victims [] = 0
removed victims (s ∷ ss) =
    (if contains s.base_offset victims then s.size_bytes else 0) + removed victims ss

abbrev pub remaining : List ℕ → List SegmentInfo → ℕ
remaining victims [] = 0
remaining victims (s ∷ ss) =
    (if contains s.base_offset victims then 0 else s.size_bytes) + remaining victims ss

abbrev pub AllRemoved : List ℕ → List SegmentInfo → Type 0
AllRemoved victims ss = All (λ (s : SegmentInfo). contains s.base_offset victims ≡ true) ss

contains-append : (a b : ℕ) (xs : List ℕ) → contains a (xs ++ b ∷ []) ≡ (contains a xs || b == a)
contains-append a b [] = ground arith
contains-append a b (x ∷ xs) = ground (arith, contains-append a b xs)

trim_to-keeps :
    (a : ℕ) (sealed : List SegmentInfo) (over : ℕ) (victims : List ℕ)
    → contains a victims ≡ true
    → contains a (trim_to sealed over victims) ≡ true
unfolding trim_to
trim_to-keeps a [] over victims h = h
trim_to-keeps a (s ∷ sealed) over victims h = ground (
  arith,
  trim_to-keeps a sealed (over - s.size_bytes) victims,
  trim_to-keeps a sealed (over - s.size_bytes) (victims ++ s.base_offset ∷ []),
  contains-append a s.base_offset victims,
)

-- The victims make up for what the partition is over its budget, or are all there are.
abbrev IsEnough : ℕ → List ℕ → List SegmentInfo → Type 0
IsEnough over victims ss = (over ≤ removed victims ss) ⊎ AllRemoved victims ss

IsEnough-cons :
    (over : ℕ) (victims : List ℕ) (s : SegmentInfo) (ss : List SegmentInfo)
    → contains s.base_offset victims ≡ true
    → IsEnough (over - s.size_bytes) victims ss
    → IsEnough over victims (s ∷ ss)
IsEnough-cons over victims s ss there (inl enough) = inl (rw there (omega arith))
IsEnough-cons over victims s ss there (inr all) = inr (there, all)

trim_to-IsEnough :
    (sealed : List SegmentInfo) (over : ℕ) (victims : List ℕ)
    → IsEnough over (trim_to sealed over victims) sealed
unfolding trim_to
trim_to-IsEnough [] over victims = inr tt
trim_to-IsEnough (s ∷ sealed) over victims = elim (Bool-cases (contains s.base_offset victims)) [
  | inl old ↦
      let left = trim_to sealed (over - s.size_bytes) victims in
      let opened : trim_to (s ∷ sealed) over victims ≡ left = rw (trim_to, old) refl in
      let there = trim_to-keeps s.base_offset sealed (over - s.size_bytes) victims old in
      subst (λ (v : List ℕ). IsEnough over v (s ∷ sealed)) (sym opened)
        (IsEnough-cons over left s sealed there
          (trim_to-IsEnough sealed (over - s.size_bytes) victims))
  | inr new ↦ elim (Bool-cases (over == 0)) [
    | inl done ↦ inl (let none_over : over ≡ 0 = ground arith in omega arith)
    | inr more ↦
        let next = victims ++ s.base_offset ∷ [] in
        let left = trim_to sealed (over - s.size_bytes) next in
        let opened : trim_to (s ∷ sealed) over victims ≡ left = rw (trim_to, new, more) refl in
        let marked : contains s.base_offset next ≡ true =
          ground (arith, contains-append s.base_offset s.base_offset victims) in
        let there = trim_to-keeps s.base_offset sealed (over - s.size_bytes) next marked in
        subst (λ (v : List ℕ). IsEnough over v (s ∷ sealed)) (sym opened)
          (IsEnough-cons over left s sealed there
            (trim_to-IsEnough sealed (over - s.size_bytes) next))
  ]
]

removed-remaining :
    (victims : List ℕ) (ss : List SegmentInfo)
    → removed victims ss + remaining victims ss ≡ sum_sizes ss
removed-remaining victims [] = refl
removed-remaining victims (s ∷ ss) = ground (arith, removed-remaining victims ss)

removed-sealed_of :
    (victims : List ℕ) (active_base : ℕ) (ss : List SegmentInfo)
    → removed victims (sealed_of active_base ss) ≤ removed victims ss
removed-sealed_of victims active_base [] = omega arith
removed-sealed_of victims active_base (s ∷ ss) =
    ground (arith, removed-sealed_of victims active_base ss)

contains-dedup : (a : ℕ) (xs : List ℕ) → contains a (dedup xs) ≡ contains a xs
contains-dedup a [] = refl
contains-dedup a (x ∷ []) = refl
contains-dedup a (x ∷ y ∷ xs) = ground (arith, contains-dedup a (y ∷ xs))

-- The order of the victims and repetitions among them do not matter.
contains-victims : (a : ℕ) (xs : List ℕ) → contains a (dedup (sort xs)) ≡ contains a xs
contains-victims a xs = contains-dedup a (sort xs) ∙ contains-sort a xs

removed-victims :
    (xs : List ℕ) (ss : List SegmentInfo) → removed (dedup (sort xs)) ss ≡ removed xs ss
removed-victims xs [] = refl
removed-victims xs (s ∷ ss) = rw (contains-victims s.base_offset xs, removed-victims xs ss) refl

AllRemoved-victims :
    (xs : List ℕ) (ss : List SegmentInfo) → AllRemoved xs ss → AllRemoved (dedup (sort xs)) ss
AllRemoved-victims xs [] h = tt
AllRemoved-victims xs (s ∷ ss) (now, later) =
    (contains-victims s.base_offset xs ∙ now, AllRemoved-victims xs ss later)

victims_of-budget :
    (cutoff : Option ℕ) (retention_bytes active_base : ℕ) (snapshot : List SegmentInfo)
    → sum_sizes snapshot < 2 ^ 64
    → (remaining
          (victims_of cutoff (some retention_bytes) snapshot (sealed_of active_base snapshot))
          snapshot
        ≤ retention_bytes)
      ⊎ AllRemoved
          (victims_of cutoff (some retention_bytes) snapshot (sealed_of active_base snapshot))
          (sealed_of active_base snapshot)
unfolding over_budget
victims_of-budget cutoff retention_bytes active_base snapshot small =
    let sealed = sealed_of active_base snapshot in
    let old = expired cutoff sealed in
    let total : sum_sizes snapshot % 2 ^ 64 ≡ sum_sizes snapshot = omega arith in
    let parts =
      removed-remaining (victims_of cutoff (some retention_bytes) snapshot sealed) snapshot in
    elim (Bool-cases (ltb retention_bytes (sum_sizes snapshot))) [
      | inr within ↦ inl (ground (arith, parts))
      | inl over ↦
          let vs = trim_to sealed (sum_sizes snapshot - retention_bytes) old in
          let opened : over_budget (some retention_bytes) snapshot sealed old ≡ vs =
            rw (over_budget, total, over) refl in
          elim (trim_to-IsEnough sealed (sum_sizes snapshot - retention_bytes) old) [
            | inr all ↦ inr (rw opened (AllRemoved-victims vs sealed all))
            | inl enough ↦ inl (
                rw opened (
                  ground (
                    arith,
                    removed-victims vs snapshot,
                    removed-sealed_of vs active_base snapshot,
                    removed-remaining (dedup (sort vs)) snapshot,
                  )))
          ]
    ]

AllRemoved-empty :
    (victims : List ℕ) (ss : List SegmentInfo) → is_empty ss ≡ true → AllRemoved victims ss
AllRemoved-empty victims [] h = tt
AllRemoved-empty victims (s ∷ ss) h = absurd (cc h)

sealed_of-single :
    (active : SegmentInfo) (snapshot : List SegmentInfo)
    → last snapshot ≡ some active
    → leb (length snapshot) 1 ≡ true
    → is_empty (sealed_of active.base_offset snapshot) ≡ true
sealed_of-single active [] e h = refl
sealed_of-single active (s ∷ []) e h =
    let same : s ≡ active = cc e in
    let not_below : ltb s.base_offset active.base_offset ≡ false = rw same (ground arith) in
    rw not_below refl
sealed_of-single active (s ∷ t ∷ ss) e h = absurd (ground arith)

-- With a budget, and sizes that add up in a `u64`, what a pass leaves of the partition fits the budget, unless it
-- removes every sealed segment, each of those below the active one.
pub plan_victims-budget :
    (cutoff : Option ℕ) (retention_bytes : ℕ) (active : SegmentInfo) (snapshot : List SegmentInfo)
    → last snapshot ≡ some active
    → sum_sizes snapshot < 2 ^ 64
    → (remaining (plan_victims cutoff (some retention_bytes) snapshot) snapshot ≤ retention_bytes)
      ⊎ AllRemoved
          (plan_victims cutoff (some retention_bytes) snapshot)
          (sealed_of active.base_offset snapshot)
unfolding plan_victims
plan_victims-budget cutoff retention_bytes active snapshot e small =
    elim (Bool-cases (leb (length snapshot) 1)) [
      | inl single ↦ inr (AllRemoved-empty _ _ (sealed_of-single active snapshot e single))
      | inr several ↦ elim (Bool-cases (is_empty (sealed_of active.base_offset snapshot))) [
        | inl none_sealed ↦ inr (AllRemoved-empty _ _ none_sealed)
        | inr some_sealed ↦
            let victims =
              victims_of cutoff (some retention_bytes) snapshot
                (sealed_of active.base_offset snapshot) in
            let opened : plan_victims cutoff (some retention_bytes) snapshot ≡ victims =
              rw (plan_victims, several, e, some_sealed) refl in
            rw opened (victims_of-budget cutoff retention_bytes active.base_offset snapshot small)
      ]
    ]
