-- ===== src/Groups/Files.antt =====
-- groups.rs: the files that a flush writes.
use event_stream.Prelude.{
  ◌≡◌, ◌⊎◌, inl, inr, refl, ◌∙◌, sym, Bool, true, false, Option, none, some, List, [], ◌∷◌, arith,
  if◌then◌else◌, Option-cases, Bool-cases,
}
use event_stream.Prelude.Ordered.{
  Str, str_same, str_same→, str_key, nat_key, OrdMap, find, put, find-put, member,
}
use event_stream.Groups.{GroupEntry, GroupFile, current, parse_group_file, parse_all, write_dirty}

-- What a restart reads back of a group.
abbrev pub parsed : Option GroupFile → Option GroupEntry
parsed none = none
parsed (some f) = some (parse_group_file f)

abbrev pub saved : Str → OrdMap Str GroupFile → Option GroupEntry
saved g fs = parsed (find g fs)

pub find-parse_all : (g : Str) (fs : OrdMap Str GroupFile) → find g (parse_all fs) ≡ saved g fs
find-parse_all g [] = refl
find-parse_all g ((j, f) ∷ fs) = ground (arith, find-parse_all g fs)

saved-put :
    (j g : Str) (en : GroupEntry) (fs : OrdMap Str GroupFile)
    → saved g (put j (current en.owner en.offsets) fs)
      ≡ (if str_same j g then some en else saved g fs)
saved-put j g en fs = ground (arith, find-put j g (current en.owner en.offsets) fs)

-- A group whose file a flush leaves alone.
abbrev pub IsClean : Str → OrdMap Str GroupEntry → List Str → Type 0
IsClean g known dirty = (member g dirty ≡ false) ⊎ (find g known ≡ none)

module _ (writes : Str → Bool) (known : OrdMap Str GroupEntry) (g : Str) where
  abbrev pub IsSaved : OrdMap Str GroupFile → Type 0
  IsSaved fs = saved g fs ≡ find g known

  -- One file is written: the group's own is then right, and the others are as before.
  write_one :
      (j : Str) (en : GroupEntry) (fs : OrdMap Str GroupFile)
      → find j known ≡ some en
      → (str_same j g ≡ false → IsSaved fs)
      → IsSaved (put j (current en.owner en.offsets) fs)
  write_one j en fs e h = elim (Bool-cases (str_same j g)) [
    | inl same ↦ saved-put j g en fs ∙ rw (same, sym (str_same→ j g same)) (sym e)
    | inr other ↦ saved-put j g en fs ∙ rw other (h other)
  ]

  -- A file that is right stays right.
  pub write_dirty-keeps :
      (dirty : List Str) (fs : OrdMap Str GroupFile)
      → IsSaved fs
      → IsSaved (write_dirty writes known dirty fs).0
  unfolding write_dirty
  write_dirty-keeps [] fs h = h
  write_dirty-keeps (j ∷ dirty) fs h = elim (Option-cases (find j known)) [
    | inl e ↦ rw (e, write_dirty) (write_dirty-keeps dirty fs h)
    | inr (en, e) ↦ elim (Bool-cases (writes j)) [
      | inl w ↦
          rw (e, write_dirty, w)
            (write_dirty-keeps dirty (put j (current en.owner en.offsets) fs)
              (write_one j en fs e (λ n. h)))
      | inr w ↦ rw (e, write_dirty, w) h
    ]
  ]

  IsClean-unknown :
      (j : Str) (dirty : List Str)
      → find j known ≡ none
      → IsClean g known dirty
      → IsClean g known (j ∷ dirty)
  IsClean-unknown j dirty e (inr n) = inr n
  IsClean-unknown j dirty e (inl n) = elim (Bool-cases (str_same j g)) [
    | inl same ↦ inr (rw (sym (str_same→ j g same)) e)
    | inr other ↦ inl (ground arith)
  ]

  IsClean-other :
      (j : Str) (dirty : List Str)
      → str_same j g ≡ false
      → IsClean g known dirty
      → IsClean g known (j ∷ dirty)
  IsClean-other j dirty other (inr n) = inr n
  IsClean-other j dirty other (inl n) = inl (ground arith)

  -- When the flush succeeds, the files of the dirty groups become right.
  pub write_dirty-saves :
      (dirty : List Str) (fs : OrdMap Str GroupFile)
      → (IsClean g known dirty → IsSaved fs)
      → (write_dirty writes known dirty fs).1 ≡ true
      → IsSaved (write_dirty writes known dirty fs).0
  unfolding write_dirty
  write_dirty-saves [] fs h = λ done. h (inl refl)
  write_dirty-saves (j ∷ dirty) fs h = elim (Option-cases (find j known)) [
    | inl e ↦
        rw (e, write_dirty) (write_dirty-saves dirty fs (λ c. h (IsClean-unknown j dirty e c)))
    | inr (en, e) ↦ elim (Bool-cases (writes j)) [
      | inl w ↦
          rw (e, write_dirty, w)
            (write_dirty-saves dirty (put j (current en.owner en.offsets) fs)
              (λ c. write_one j en fs e (λ other. h (IsClean-other j dirty other c))))
      | inr w ↦ rw (e, write_dirty, w) (λ done. absurd (cc done))
    ]
  ]

pub write_dirty_succeeds :
    (writes : Str → Bool) (known : OrdMap Str GroupEntry)
    → ((j : Str) → writes j ≡ true)
    → (dirty : List Str) (fs : OrdMap Str GroupFile) → (write_dirty writes known dirty fs).1 ≡ true
unfolding write_dirty
write_dirty_succeeds writes known all [] fs = refl
write_dirty_succeeds writes known all (j ∷ dirty) fs = elim (Option-cases (find j known)) [
  | inl e ↦ rw (e, write_dirty) (write_dirty_succeeds writes known all dirty fs)
  | inr (en, e) ↦
      rw (e, write_dirty, all j)
        (write_dirty_succeeds writes known all dirty (put j (current en.owner en.offsets) fs))
]
