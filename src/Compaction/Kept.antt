-- ===== src/Compaction/Kept.antt =====
-- compaction.rs: what is left of the records after a pass.
use event_stream.Prelude.{
  ℕ, suc, ◌≤◌, ◌≡◌, refl, ap, sym, ◌∙◌, inl, inr, Bool, true, false, ◌&&◌, not, Option, none, some,
  List, [], ◌∷◌, arith, ◌==◌, ltb, is_empty, if◌then◌else◌, Bool-cases, Option-cases,
}
use mathlib.Core.Path.{subst}
use event_stream.Prelude.Ordered.{Str, str_same→, str_key, OrdMap, find}
use event_stream.Storage.Record.{Record}
use event_stream.Compaction.{Latest, droppable, newest, is_keyless, keyless, keeps, survivors}
use event_stream.Compaction.Indexed.{signed}
use event_stream.Compaction.Newest.{of_key, last_of, times_of, Ascends, entry_of, find-newest}

-- What is noted of the keys of some records.
abbrev IsNoted : ℕ → OrdMap Str Latest → List Record → Type 0
IsNoted cutoff latest rs =
    (k : Str) (s : Record) → last_of k rs ≡ some s → find k latest ≡ some (entry_of cutoff s)

keeps-of_key :
    (k : Str) (l : Latest) (r : Record) (latest : OrdMap Str Latest)
    → of_key k r.key ≡ true
    → find k latest ≡ some l
    → keeps latest r ≡ (l.offset == r.offset && not l.drop)
unfolding keeps
keeps-of_key k l r latest mine e = elim (Option-cases r.key) [
  | inl n ↦ absurd (cc (mine, ap (of_key k) n))
  | inr (j, f) ↦
      let same : j ≡ k = str_same→ j k (sym (ap (of_key k) f) ∙ mine) in
      let there = subst (λ (x : Str). find x latest ≡ some l) (sym same) e in
      rw (f, keeps, there) refl
]

-- An empty value from before the cutoff.
abbrev pub is_expired : ℕ → Record → Bool
is_expired cutoff s = elim s.value [
  | [] ↦ ltb (signed s.timestamp_ms) (signed cutoff)
  | b ∷ bs ↦ false
]

droppable_lem : (cutoff : ℕ) (s : Record) → droppable cutoff s ≡ is_expired cutoff s
droppable_lem cutoff s = go s.value
  where
    go :
        (v : List ℕ)
        → (is_empty v && ltb (signed s.timestamp_ms) (signed cutoff))
          ≡ (elim v [ [] ↦ ltb (signed s.timestamp_ms) (signed cutoff) | b ∷ bs ↦ false ])
    go [] = refl
    go (b ∷ bs) = refl

-- What remains of a key: its last record, unless that is a tombstone to drop.
abbrev pub remaining : ℕ → Option Record → Option Record
remaining cutoff none = none
remaining cutoff (some s) = if is_expired cutoff s then none else some s

-- A later record of the same key lies above.
last_of-above :
    (k : Str) (b : ℕ) (s : Record) (rs : List Record)
    → Ascends b rs
    → last_of k rs ≡ some s
    → b ≤ s.offset
last_of-above k b s [] h e = absurd (cc e)
last_of-above k b s (r ∷ rs) (le, h) e = elim (Option-cases (last_of k rs)) [
  | inr (t, f) ↦
      let found : last_of k (r ∷ rs) ≡ some t = rw f refl in
      let q : t ≡ s = cc (found, e) in
      let above = last_of-above k (suc r.offset) t rs h f in
      subst (λ (x : Record). b ≤ x.offset) q (omega arith)
  | inl f ↦ elim (Bool-cases (of_key k r.key)) [
    | inl mine ↦
        let found : last_of k (r ∷ rs) ≡ some r = rw (f, mine) refl in
        let q : r ≡ s = cc (found, e) in subst (λ (x : Record). b ≤ x.offset) q le
    | inr other ↦
        let found : last_of k (r ∷ rs) ≡ none = rw (f, other) refl in absurd (cc (found, e))
  ]
]

IsNoted-rest :
    (cutoff : ℕ) (latest : OrdMap Str Latest) (r : Record) (rs : List Record)
    → IsNoted cutoff latest (r ∷ rs)
    → IsNoted cutoff latest rs
IsNoted-rest cutoff latest r rs h k s e = h k s (rw e refl)

-- The last record of a key, if any, is the only one.
abbrev once : Option Record → ℕ
once none = 0
once (some s) = 1

abbrev pub Shows : Str → Option Record → List Record → Type 0
Shows k o xs = (last_of k xs ≡ o) × (times_of k xs ≡ once o)

last_of-other :
    (k : Str) (r : Record) (xs : List Record)
    → of_key k r.key ≡ false
    → last_of k (r ∷ xs) ≡ last_of k xs
last_of-other k r xs other = elim (Option-cases (last_of k xs)) [
  | inl e ↦ rw (e, other) refl
  | inr (s, e) ↦ rw e refl
]

Shows-other :
    (k : Str) (o : Option Record) (r : Record) (xs : List Record) (c : Bool)
    → of_key k r.key ≡ false
    → Shows k o xs
    → Shows k o (if c then r ∷ xs else xs)
Shows-other k o r xs false other h = h
Shows-other k o r xs true other (here, times) =
    (last_of-other k r xs other ∙ here, rw other (omega (arith, times)))

Shows-first :
    (k : Str) (r : Record) (xs : List Record)
    → of_key k r.key ≡ true
    → Shows k none xs
    → Shows k (some r) (r ∷ xs)
Shows-first k r xs mine (here, times) = (rw (here, mine) refl, rw mine (omega (arith, times)))

-- In the second pass, the last record of a key is what remains of it, and is there once.
survivors-Shows :
    (cutoff b : ℕ) (latest : OrdMap Str Latest) (k : Str) (rs : List Record)
    → IsNoted cutoff latest rs
    → Ascends b rs
    → Shows k (remaining cutoff (last_of k rs)) (survivors latest rs)
survivors-Shows cutoff b latest k [] h asc = (refl, refl)
survivors-Shows cutoff b latest k (r ∷ rs) h (le, asc) =
    let later =
      survivors-Shows cutoff (suc r.offset) latest k rs (IsNoted-rest cutoff latest r rs h) asc in
    elim (Bool-cases (of_key k r.key)) [
      | inr other ↦ rw (last_of-other k r rs other) (
          Shows-other k (remaining cutoff (last_of k rs)) r (survivors latest rs) (keeps latest r)
            other later)
      | inl mine ↦ elim (Option-cases (last_of k rs)) [
        | inl e ↦
            let found : last_of k (r ∷ rs) ≡ some r = rw (e, mine) refl in
            let kept = keeps-of_key k (entry_of cutoff r) r latest mine (h k r found) in
            let none_later : Shows k none (survivors latest rs) =
              subst (λ (o : Option Record). Shows k (remaining cutoff o) (survivors latest rs)) e
                later in
            elim (Bool-cases (is_expired cutoff r)) [
              | inl gone ↦
                  let dropped : keeps latest r ≡ false =
                    ground (arith, kept, droppable_lem cutoff r ∙ gone) in
                  rw (found, dropped) (rw gone none_later)
              | inr stays ↦
                  let stayed : keeps latest r ≡ true =
                    ground (arith, kept, droppable_lem cutoff r ∙ stays) in
                  rw (found, stayed)
                    (rw stays (Shows-first k r (survivors latest rs) mine none_later))
            ]
        | inr (s, e) ↦
            let found : last_of k (r ∷ rs) ≡ some s = rw e refl in
            let kept = keeps-of_key k (entry_of cutoff s) r latest mine (h k s found) in
            let above = last_of-above k (suc r.offset) s rs asc e in
            let dropped : keeps latest r ≡ false = ground (arith, kept, above) in
            rw (found, dropped)
              (subst (λ (o : Option Record). Shows k (remaining cutoff o) (survivors latest rs)) e
                later)
      ]
    ]

keyless-survivors :
    (latest : OrdMap Str Latest) (rs : List Record) → keyless (survivors latest rs) ≡ keyless rs
unfolding keeps
keyless-survivors latest [] = refl
keyless-survivors latest (r ∷ rs) = elim (Option-cases r.key) [
  | inl e ↦
      let stays : keeps latest r ≡ true = rw (keeps, e) refl in
      rw stays (omega (arith, keyless-survivors latest rs))
  | inr (k, e) ↦
      let keyed : is_keyless r ≡ false = rw (is_keyless, e) refl in
      elim (Bool-cases (keeps latest r)) [
        | inl y ↦ rw (y, keyed) (omega (arith, keyless-survivors latest rs))
        | inr n ↦ rw (n, keyed) (omega (arith, keyless-survivors latest rs))
      ]
]

-- Of records whose offsets ascend, a pass keeps for each key exactly its last record, and not even that when it
-- is a tombstone from before the cutoff; and it keeps every record without a key.
pub survivors-newest :
    (cutoff : ℕ) (rs : List Record) (k : Str)
    → Ascends 0 rs
    → Shows k (remaining cutoff (last_of k rs)) (survivors (newest cutoff rs []) rs)
      × (keyless (survivors (newest cutoff rs []) rs) ≡ keyless rs)
survivors-newest cutoff rs k h =
    let noted : IsNoted cutoff (newest cutoff rs []) rs =
      λ j s e. find-newest cutoff 0 j rs [] h (λ i l f. absurd (cc f)) ∙ rw e refl in
    (
      survivors-Shows cutoff 0 (newest cutoff rs []) k rs noted h,
      keyless-survivors (newest cutoff rs []) rs,
    )
