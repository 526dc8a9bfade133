-- ===== src/Compaction/Newest.antt =====
-- compaction.rs: what the first pass notes of each key.
use event_stream.Prelude.{
  ℕ, suc, ◌+◌, ◌≤◌, ◌<◌, ◌≡◌, refl, sym, ◌∙◌, inl, inr, Bool, false, Option, none, some, List, [],
  ◌∷◌, arith, ltb, if◌then◌else◌, Bool-cases, Option-cases,
}
use event_stream.Prelude.Ordered.{Str, str_same, str_key, OrdMap, find, find-put}
use event_stream.Storage.Record.{Record}
use event_stream.Compaction.{Latest, droppable, note_latest, note_record, newest}

-- A record of that key.
abbrev pub of_key : Str → Option Str → Bool
of_key k none = false
of_key k (some j) = str_same j k

-- What a consumer knows of a key: its last record.
abbrev pub last_of : Str → List Record → Option Record
last_of k [] = none
last_of k (r ∷ rs) = elim (last_of k rs) [
  | some s ↦ some s
  | none ↦ if of_key k r.key then some r else none
]

abbrev pub times_of : Str → List Record → ℕ
times_of k [] = 0
times_of k (r ∷ rs) = (if of_key k r.key then 1 else 0) + times_of k rs

-- The offsets of a log, in order from `b`.
abbrev pub Ascends : ℕ → List Record → Type 0
Ascends b [] = Unit
Ascends b (r ∷ rs) = (b ≤ r.offset) × Ascends (suc r.offset) rs

abbrev pub entry_of : ℕ → Record → Latest
entry_of cutoff r = record { offset = r.offset; drop = droppable cutoff r }

-- What is noted of a key lies below an offset.
abbrev pub IsBelow : ℕ → OrdMap Str Latest → Type 0
IsBelow b latest = (k : Str) (l : Latest) → find k latest ≡ some l → l.offset < b

find-note_latest :
    (k j : Str) (new : Latest) (latest : OrdMap Str Latest)
    → ((l : Latest) → find j latest ≡ some l → l.offset ≤ new.offset)
    → find k (note_latest j new latest) ≡ (if str_same j k then some new else find k latest)
unfolding note_latest
find-note_latest k j new latest h = elim (Option-cases (find j latest)) [
  | inl e ↦ rw (e, note_latest) (find-put j k new latest)
  | inr (l, e) ↦
      let small = h l e in
      let late : ltb new.offset l.offset ≡ false = ground arith in
      rw (e, note_latest, late) (find-put j k new latest)
]

find-note_record :
    (cutoff b : ℕ) (k : Str) (r : Record) (latest : OrdMap Str Latest)
    → IsBelow b latest
    → b ≤ r.offset
    → find k (note_record cutoff r latest)
      ≡ (if of_key k r.key then some (entry_of cutoff r) else find k latest)
unfolding note_record
find-note_record cutoff b k r latest below le = elim (Option-cases r.key) [
  | inl e ↦ rw (e, note_record) refl
  | inr (j, e) ↦
      rw (e, note_record)
        (find-note_latest k j (entry_of cutoff r) latest
          (λ l f. let small = below j l f in omega arith))
]

IsBelow-note_record :
    (cutoff b : ℕ) (r : Record) (latest : OrdMap Str Latest)
    → IsBelow b latest
    → b ≤ r.offset
    → IsBelow (suc r.offset) (note_record cutoff r latest)
IsBelow-note_record cutoff b r latest below le k l e =
    let noted = find-note_record cutoff b k r latest below le in
    elim (Bool-cases (of_key k r.key)) [
      | inl mine ↦
          let new : some (entry_of cutoff r) ≡ some l = sym (noted ∙ rw mine refl) ∙ e in
          let same : r.offset ≡ l.offset = cc new in omega arith
      | inr other ↦
          let old : find k latest ≡ some l = sym (noted ∙ rw other refl) ∙ e in
          let small = below k l old in omega arith
    ]

abbrev pub entry_or : ℕ → Option Record → Option Latest → Option Latest
entry_or cutoff none old = old
entry_or cutoff (some s) old = some (entry_of cutoff s)

-- After the first pass a key is noted with its last record.
pub find-newest :
    (cutoff b : ℕ) (k : Str) (rs : List Record) (latest : OrdMap Str Latest)
    → Ascends b rs
    → IsBelow b latest
    → find k (newest cutoff rs latest) ≡ entry_or cutoff (last_of k rs) (find k latest)
find-newest cutoff b k [] latest h below = refl
find-newest cutoff b k (r ∷ rs) latest (le, h) below =
    let later =
      find-newest cutoff (suc r.offset) k rs (note_record cutoff r latest) h
        (IsBelow-note_record cutoff b r latest below le) in
    let noted = find-note_record cutoff b k r latest below le in
    elim (Option-cases (last_of k rs)) [
      | inr (s, e) ↦ later ∙ rw e refl
      | inl e ↦ later ∙ (elim (Bool-cases (of_key k r.key)) [
        | inl mine ↦ rw (e, mine) (noted ∙ rw mine refl)
        | inr other ↦ rw (e, other) (noted ∙ rw other refl)
      ])
    ]
