-- ===== src/Coord/Assign/Full.antt =====
-- coord.rs, `recompute_assignment`: when an orphan is left to no one.
use event_stream.Prelude.{
  ℕ, ◌≤◌, ◌≡◌, ◌⊎◌, refl, sym, ◌∙◌, inl, inr, true, ◌&&◌, none, some, [], ◌∷◌, arith, ltb, length,
  Bool-cases, All,
}
use event_stream.Prelude.Ordered.{Str, str_key, pair_key, OrdMap, member}
use event_stream.Coord.{Tp, Member}
use event_stream.Coord.Assign.{Buckets, bucket, push, best_member}
use event_stream.Coord.Assign.Once.{count_in}
use event_stream.Coord.Assign.Push.{push-keeps, push-grows}

-- The members that subscribe to the topic have no room left.
abbrev pub AllFull : ℕ → Tp → Buckets → OrdMap Str Member → Type 0
AllFull target_max tp cur ms =
    All
      (λ (e : Str × Member).
        (member (tp.0) (e.1).topics ≡ true) → target_max ≤ length (bucket (e.0) cur))
      ms

best_member-some :
    (target_max : ℕ) (tp : Tp) (cur : Buckets) (ms : OrdMap Str Member) (mid : Str) (load : ℕ)
    → best_member target_max tp cur ms (some mid) load ≡ none
    → ⊥
unfolding best_member
best_member-some target_max tp cur [] mid load e = cc e
best_member-some target_max tp cur ((j, m) ∷ ms) mid load e =
    elim (Bool-cases (
      member (tp.0) m.topics
      && (ltb (length (bucket j cur)) target_max && ltb (length (bucket j cur)) load))) [
        | inl y ↦
            let opened : best_member target_max tp cur ((j, m) ∷ ms) (some mid) load
                ≡ best_member target_max tp cur ms (some j) (length (bucket j cur)) =
              rw (best_member, y) refl in
            best_member-some target_max tp cur ms j (length (bucket j cur)) (sym opened ∙ e)
        | inr n ↦
            let opened : best_member target_max tp cur ((j, m) ∷ ms) (some mid) load
                ≡ best_member target_max tp cur ms (some mid) load =
              rw (best_member, n) refl in
            best_member-some target_max tp cur ms mid load (sym opened ∙ e)
      ]

pub best_member-AllFull :
    (target_max : ℕ) (tp : Tp) (cur : Buckets) (ms : OrdMap Str Member) (load : ℕ)
    → target_max ≤ load
    → best_member target_max tp cur ms none load ≡ none
    → AllFull target_max tp cur ms
unfolding best_member
best_member-AllFull target_max tp cur [] load le e = tt
best_member-AllFull target_max tp cur ((j, m) ∷ ms) load le e =
    elim (Bool-cases (
      member (tp.0) m.topics
      && (ltb (length (bucket j cur)) target_max && ltb (length (bucket j cur)) load))) [
        | inl y ↦
            let opened : best_member target_max tp cur ((j, m) ∷ ms) none load
                ≡ best_member target_max tp cur ms (some j) (length (bucket j cur)) =
              rw (best_member, y) refl in
            absurd
              (best_member-some target_max tp cur ms j (length (bucket j cur)) (sym opened ∙ e))
        | inr n ↦
            let opened : best_member target_max tp cur ((j, m) ∷ ms) none load
                ≡ best_member target_max tp cur ms none load =
              rw (best_member, n) refl in
            (λ sub. ground arith, best_member-AllFull target_max tp cur ms load le (sym opened ∙ e))
      ]

-- A partition is assigned, or no member that could have it has room.
abbrev pub IsServed : ℕ → OrdMap Str Member → Tp → Buckets → Type 0
IsServed target_max ms tp cur = (1 ≤ count_in tp cur) ⊎ AllFull target_max tp cur ms

pub AllFull-push :
    (target_max : ℕ) (tp u : Tp) (j : Str) (cur : Buckets) (ms : OrdMap Str Member)
    → AllFull target_max tp cur ms
    → AllFull target_max tp (push j u cur) ms
AllFull-push target_max tp u j cur [] h = tt
AllFull-push target_max tp u j cur ((mid, m) ∷ ms) (now, later) = (
  λ sub. let full = now sub in omega (arith, push-grows j mid u cur),
  AllFull-push target_max tp u j cur ms later,
)

pub IsServed-push :
    (target_max : ℕ) (ms : OrdMap Str Member) (tp u : Tp) (j : Str) (cur : Buckets)
    → IsServed target_max ms tp cur
    → IsServed target_max ms tp (push j u cur)
IsServed-push target_max ms tp u j cur (inl there) = inl (omega (arith, push-keeps j u tp cur))
IsServed-push target_max ms tp u j cur (inr full) = inr (AllFull-push target_max tp u j cur ms full)
