-- ===== src/Compaction/Survivors.antt =====
-- compaction.rs: the segments of the second pass, read in turn, are written as one.
use event_stream.Prelude.{
  ℕ, suc, ◌≤◌, ◌≡◌, refl, ap, sym, ◌∙◌, inl, inr, true, false, Option, none, some, List, [], ◌∷◌,
  ◌++◌, arith, ltb-false, Bool-cases, Option-cases, length, All,
}
use mathlib.Core.Path.{subst}
use event_stream.Prelude.Ordered.{Str, OrdMap}
use event_stream.Storage.Record.{Record}
use event_stream.Compaction.{
  Segment, Latest, Written, keeps, survivors, emit, visit, for_each, write_survivors, read_all,
  empty_written,
}
use event_stream.Compaction.Newest.{Ascends}
use event_stream.Compaction.Indexed.{PointsAt, IsCopy}
use event_stream.Compaction.Emitted.{IsSparse, IsSparse-emit, Adds, Adds-none, Adds-emit}

module _ (hash : List ℕ → ℕ) (base_offset : ℕ) (latest : OrdMap Str Latest) where
  visit-kept :
      (r : Record) (w : Written)
      → keeps latest r ≡ true
      → base_offset ≤ r.offset
      → visit hash base_offset latest r w ≡ some (emit hash base_offset r w)
  unfolding visit
  visit-kept r w keep le = rw (keep, ltb-false r.offset base_offset le) refl

  visit-dropped :
      (r : Record) (w : Written)
      → keeps latest r ≡ false
      → visit hash base_offset latest r w ≡ some w
  unfolding visit
  visit-dropped r w skip = rw skip refl

  -- One record after the other, as from one segment.
  for_each-Adds :
      (b : ℕ) (rs : List Record) (w : Written)
      → base_offset ≤ b
      → Ascends b rs
      → IsSparse w
      → (v : Written) × (for_each (visit hash base_offset latest) rs w ≡ some v)
        × Adds hash base_offset w (survivors latest rs) v
  for_each-Adds b [] w le asc h = (w, refl, Adds-none hash base_offset w h)
  for_each-Adds b (r ∷ rs) w le (above, asc) h = elim (Bool-cases (keeps latest r)) [
    | inl keep ↦
        let next = emit hash base_offset r w in
        let sparse = IsSparse-emit hash base_offset r w (omega arith) h in
        let (v, e, added) = for_each-Adds (suc r.offset) rs next (omega arith) asc sparse in
        let here = visit-kept r w keep (omega arith) in
        (
          v,
          rw (for_each, here) e,
          rw keep (Adds-emit hash base_offset r (survivors latest rs) w v (omega arith) h added),
        )
    | inr skip ↦
        let (v, e, added) = for_each-Adds (suc r.offset) rs w (omega arith) asc h in
        let here = visit-dropped r w skip in (v, rw (for_each, here) e, rw skip added)
  ]

for_each-append :
    {A : Type 0} (f : Record → A → Option A) (rs more : List Record) (a : A)
    → for_each f (rs ++ more) a
      ≡ (elim (for_each f rs a) [ none ↦ none | some b ↦ for_each f more b ])
for_each-append f [] more a = refl
for_each-append f (r ∷ rs) more a = elim (Option-cases (f r a)) [
  | inl e ↦ rw e refl
  | inr (b, e) ↦ rw e (for_each-append f rs more b)
]

-- What is read of a list of segments is what the first has, and then the others.
read_all-split :
    (s : Segment) (ss : List Segment) (rs : List Record)
    → read_all (s ∷ ss) ≡ some rs
    → (mine : List Record) × (more : List Record) × (s.contents ≡ some mine)
      × (read_all ss ≡ some more)
      × (rs ≡ mine ++ more)
read_all-split s ss rs e = elim (Option-cases s.contents) [
  | inl n ↦ let failed : read_all (s ∷ ss) ≡ none = rw n refl in absurd (cc (failed, e))
  | inr (mine, m) ↦ elim (Option-cases (read_all ss)) [
    | inl n ↦ let failed : read_all (s ∷ ss) ≡ none = rw (m, n) refl in absurd (cc (failed, e))
    | inr (more, n) ↦
        let both : read_all (s ∷ ss) ≡ some (mine ++ more) = rw (m, n) refl in
        (mine, more, m, n, cc (both, e))
  ]
]

write_survivors-cons :
    (hash : List ℕ → ℕ) (base_offset : ℕ) (latest : OrdMap Str Latest) (s : Segment)
    (ss : List Segment) (mine : List Record) (w : Written)
    → s.contents ≡ some mine
    → write_survivors hash base_offset latest (s ∷ ss) w
      ≡ (elim (for_each (visit hash base_offset latest) mine w) [
        | none ↦ none
        | some v ↦ write_survivors hash base_offset latest ss v
      ])
unfolding write_survivors
write_survivors-cons hash base_offset latest s ss mine w m =
    let after : Option (List Record) → Option Written = λ c.
      elim (elim c as (λ x. Option Written) [
        | none ↦ none
        | some rs ↦ for_each (visit hash base_offset latest) rs w
      ])
        as (λ x. Option Written) [
          | none ↦ none
          | some v ↦ write_survivors hash base_offset latest ss v
        ] in
    ap after m

write_survivors-read_all :
    (hash : List ℕ → ℕ) (base_offset : ℕ) (latest : OrdMap Str Latest) (sealed : List Segment)
    (rs : List Record) (w : Written)
    → read_all sealed ≡ some rs
    → write_survivors hash base_offset latest sealed w
      ≡ for_each (visit hash base_offset latest) rs w
unfolding write_survivors
write_survivors-read_all hash base_offset latest [] [] w e = refl
write_survivors-read_all hash base_offset latest [] (r ∷ rs) w e = absurd (cc e)
write_survivors-read_all hash base_offset latest (s ∷ ss) rs w e =
    let (mine, more, m, n, both) = read_all-split s ss rs e in
    let f = visit hash base_offset latest in
    write_survivors-cons hash base_offset latest s ss mine w m
    ∙ rw (both, for_each-append f mine more w)
        (elim (Option-cases (for_each f mine w)) [
          | inl stop ↦ rw stop refl
          | inr (v, go) ↦ rw go (write_survivors-read_all hash base_offset latest ss more v n)
        ])

-- When every sealed segment can be read, and their records, in turn, have ascending offsets from the base
-- on, the second pass succeeds, and what it writes is the survivors: the log is their encodings in turn and
-- nothing else, the size is its length, each index entry gives a survivor's offset and the position at
-- which it begins, an entry stands less than 4096 bytes before each survivor, and the time span holds
-- their timestamps.
pub write_survivors_lem :
    (hash : List ℕ → ℕ) (base_offset : ℕ) (latest : OrdMap Str Latest) (sealed : List Segment)
    (rs : List Record)
    → read_all sealed ≡ some rs
    → Ascends base_offset rs
    → (v : Written) × (write_survivors hash base_offset latest sealed empty_written ≡ some v)
      × IsCopy hash base_offset (survivors latest rs) v
write_survivors_lem hash base_offset latest sealed rs e asc =
    let (v, done, (log, size, (es, index, points), reaches, spans, wider, sparse)) =
      for_each-Adds hash base_offset latest base_offset rs empty_written (omega arith) asc tt in
    (
      v,
      write_survivors-read_all hash base_offset latest sealed rs empty_written e ∙ done,
      (
        log,
        omega (arith, size, ap length log),
        subst (All (PointsAt hash base_offset 0 (survivors latest rs))) (sym index) points,
        reaches,
        spans,
      ),
    )
