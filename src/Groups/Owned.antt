-- ===== src/Groups/Owned.antt =====
-- groups.rs: a group belongs to its first user, and what a commit leaves in the store.
use event_stream.Prelude.{
  ℕ, ◌≡◌, ◌⊎◌, inl, inr, refl, ap, false, ◌&&◌, not, some, List, [], ◌∷◌, All, if◌then◌else◌,
  is_empty, Option-cases, Bool-cases, leb, length,
}
use event_stream.Prelude.Ordered.{Str, str_same, str_same→, str_key, nat_key, find, find-put}
use event_stream.Auth.{ApiKey, is_admin}
use event_stream.Groups.{
  GroupEntry, GroupStore, GroupResult, granted, refused, invalid, forbidden, mark_dirty, set_entry,
  claim, authorize_or_claim, is_foreign, validate_group_name, commit, commit_into, set_offset,
  offset_at, reset, flush, max_groups, empty_entry, is_some, tracked, max_entries_per_group,
}
use event_stream.Groups.Run.{Event, join, committed, reset_to, flushed, step, run}

-- A key that is neither the owner's nor a global admin's.
abbrev pub IsForeign : Str → ApiKey → Type 0
IsForeign owner key = (str_same owner key.key_id ≡ false) × (is_admin key ≡ false)

-- The event is on another group, or by a foreign key, or writes files. A reset is an admin's.
abbrev pub Spares : Str → Str → Event → Type 0
Spares g owner (join j key) = (str_same j g ≡ false) ⊎ IsForeign owner key
Spares g owner (committed j key topic partition offset) =
    (str_same j g ≡ false) ⊎ IsForeign owner key
Spares g owner (reset_to j topic partition offset) = str_same j g ≡ false
Spares g owner (flushed writes) = Unit

module _ (g : Str) (en : GroupEntry) (owned : is_empty en.owner ≡ false) where
  Holds : GroupStore → Type 0
  Holds s = find g s.entries ≡ some en

  set_entry-Holds :
      (j : Str) (new : GroupEntry) (s : GroupStore)
      → str_same j g ≡ false
      → Holds s
      → Holds (set_entry j new s)
  unfolding set_entry Holds
  set_entry-Holds j new s other h = rw (find-put j g new s.entries, other) h

  claim-Holds :
      (j : Str) (key : ApiKey) (old : GroupEntry) (s : GroupStore)
      → str_same j g ≡ false
      → Holds s
      → Holds (claim j key old s).0
  unfolding claim Holds mark_dirty set_entry
  claim-Holds j key old s other h = elim (Bool-cases (is_empty old.owner)) [
    | inl free ↦
        rw
          (
            free,
            find-put j g (record { owner = key.key_id; offsets = old.offsets }) s.entries,
            other,
          )
          h
    | inr taken ↦ elim (Bool-cases (is_foreign old key)) [
      | inl f ↦ rw (taken, f) h
      | inr f ↦ rw (taken, f) h
    ]
  ]

  -- A foreign key is refused, and nothing changes.
  authorize_foreign :
      (key : ApiKey) (s : GroupStore)
      → Holds s
      → IsForeign en.owner key
      → authorize_or_claim g key s
        ≡ (s, refused (if validate_group_name g then forbidden else invalid))
  unfolding authorize_or_claim Holds claim
  authorize_foreign key s h (other, plain) = elim (Bool-cases (validate_group_name g)) [
    | inl valid ↦ rw (valid, h, owned, other, plain) refl
    | inr bad ↦ rw bad refl
  ]

  authorize_elsewhere :
      (j : Str) (key : ApiKey) (s : GroupStore)
      → str_same j g ≡ false
      → Holds s
      → Holds (authorize_or_claim j key s).0
  unfolding authorize_or_claim
  authorize_elsewhere j key s other h = elim (Bool-cases (validate_group_name j)) [
    | inl valid ↦ elim (Option-cases (find j s.entries)) [
      | inl new ↦ elim (Bool-cases (leb max_groups (length s.entries))) [
        | inl full ↦ rw (valid, new, full) h
        | inr room ↦
            rw (valid, new, room)
              (claim-Holds j key empty_entry _ other (set_entry-Holds j empty_entry s other h))
      ]
      | inr (old, e) ↦ rw (valid, e) (claim-Holds j key old s other h)
    ]
    | inr bad ↦ rw bad h
  ]

  authorize-Holds :
      (j : Str) (key : ApiKey) (s : GroupStore)
      → Holds s
      → (str_same j g ≡ false) ⊎ IsForeign en.owner key
      → Holds (authorize_or_claim j key s).0
  authorize-Holds j key s h spares = elim (Bool-cases (str_same j g)) [
    | inl e ↦ elim spares [
      | inl other ↦ absurd (cc (e, other))
      | inr foreign ↦ rw (str_same→ j g e, authorize_foreign key s h foreign) h
    ]
    | inr other ↦ authorize_elsewhere j key s other h
  ]

  commit_into-Holds :
      (j topic : Str) (partition offset : ℕ) (old : GroupEntry) (s : GroupStore)
      → str_same j g ≡ false
      → Holds s
      → Holds (commit_into j topic partition offset old s).0
  unfolding commit_into Holds mark_dirty set_entry
  commit_into-Holds j topic partition offset old s other h =
      elim (Bool-cases (
        not (is_some (offset_at topic partition old.offsets))
        && leb max_entries_per_group (tracked old.offsets))) [
          | inl full ↦ rw full h
          | inr room ↦
              rw (room, find-put j g (set_offset topic partition offset old) s.entries, other) h
        ]

  commit_elsewhere :
      (j topic : Str) (partition offset : ℕ) (answer : GroupResult GroupEntry)
      (claimed : GroupStore)
      → str_same j g ≡ false
      → Holds claimed
      → Holds
          (elim answer as (λ r. GroupStore × GroupResult (Unit {0})) [
            | granted old ↦ commit_into j topic partition offset old claimed
            | refused e ↦ (claimed, refused e)
          ]).0
  commit_elsewhere j topic partition offset (granted old) claimed other h =
      commit_into-Holds j topic partition offset old claimed other h
  commit_elsewhere j topic partition offset (refused e) claimed other h = h

  -- Neither does a commit change anything.
  commit_foreign :
      (key : ApiKey) (topic : Str) (partition offset : ℕ) (s : GroupStore)
      → Holds s
      → IsForeign en.owner key
      → commit g key topic partition offset s
        ≡ (s, refused (if validate_group_name g then forbidden else invalid))
  unfolding commit
  commit_foreign key topic partition offset s h foreign =
      let e = authorize_foreign key s h foreign in
      rw (e, commit)
        (ap
          (λ (p : GroupStore × GroupResult GroupEntry).
            (p.0, refused (if validate_group_name g then forbidden else invalid)))
          e)

  commit-Holds :
      (j : Str) (key : ApiKey) (topic : Str) (partition offset : ℕ) (s : GroupStore)
      → Holds s
      → (str_same j g ≡ false) ⊎ IsForeign en.owner key
      → Holds (commit j key topic partition offset s).0
  unfolding commit
  commit-Holds j key topic partition offset s h spares = elim (Bool-cases (str_same j g)) [
    | inl e ↦ elim spares [
      | inl other ↦ absurd (cc (e, other))
      | inr foreign ↦
          rw (str_same→ j g e) (rw (commit_foreign key topic partition offset s h foreign) h)
    ]
    | inr other ↦
        commit_elsewhere j topic partition offset (authorize_or_claim j key s).1
          (authorize_or_claim j key s).0 other (authorize_elsewhere j key s other h)
  ]

  reset-Holds :
      (j topic : Str) (partition offset : ℕ) (s : GroupStore)
      → str_same j g ≡ false
      → Holds s
      → Holds (reset j topic partition offset s)
  unfolding reset Holds mark_dirty set_entry
  reset-Holds j topic partition offset s other h = elim (Option-cases (find j s.entries)) [
    | inl e ↦ rw (e, reset) h
    | inr (old, e) ↦
        rw (e, reset, find-put j g (set_offset topic partition offset old) s.entries, other) h
  ]

  step-Holds : (ev : Event) (s : GroupStore) → Spares g en.owner ev → Holds s → Holds (step ev s)
  unfolding step flush Holds
  step-Holds (join j key) s spares h = authorize-Holds j key s h spares
  step-Holds (committed j key topic partition offset) s spares h =
      commit-Holds j key topic partition offset s h spares
  step-Holds (reset_to j topic partition offset) s spares h =
      reset-Holds j topic partition offset s spares h
  step-Holds (flushed writes) s spares h = h

  run-Holds :
      (evs : List Event) (s : GroupStore)
      → All (Spares g en.owner) evs
      → Holds s
      → Holds (run evs s)
  run-Holds [] s spares h = h
  run-Holds (ev ∷ evs) s (now, later) h = run-Holds evs (step ev s) later (step-Holds ev s now h)

-- Once a group has an owner, no sequence of joins, commits, resets and flushes in which the owner's key and
-- the global admins leave the group alone changes its entry, and a commit to it by any other key is then
-- refused and changes nothing at all.
pub run-keeps_owned :
    (g : Str) (en : GroupEntry) (evs : List Event) (s : GroupStore)
    → is_empty en.owner ≡ false
    → find g s.entries ≡ some en
    → All (Spares g en.owner) evs
    → (find g (run evs s).entries ≡ some en)
      × ((key : ApiKey) (topic : Str) (partition offset : ℕ)
          → IsForeign en.owner key
          → commit g key topic partition offset (run evs s)
            ≡ (run evs s, refused (if validate_group_name g then forbidden else invalid)))
unfolding Holds
run-keeps_owned g en evs s owned h spares =
    let kept = run-Holds g en owned evs s spares h in
    (
      kept,
      λ key topic partition offset foreign.
          commit_foreign g en owned key topic partition offset (run evs s) kept foreign,
    )
