-- ===== src/Groups/Durable.antt =====
-- groups.rs: what the files hold of the entries, and what a flush and a restart bring back.
use event_stream.Prelude.{
  ℕ, ◌≡◌, inl, inr, refl, ◌∙◌, sym, Bool, true, false, ◌&&◌, not, List, [], ◌∷◌, arith,
  if◌then◌else◌, is_empty, Option-cases, Bool-cases, leb, length,
}
use event_stream.Prelude.Ordered.{
  Str, str_same, str_key, nat_key, OrdMap, find, put, find-put, add, member-add,
}
use event_stream.Auth.{ApiKey}
use event_stream.Groups.{
  GroupEntry, GroupFile, GroupStore, GroupResult, granted, refused, mark_dirty, set_entry, claim,
  authorize_or_claim, is_foreign, validate_group_name, commit, commit_into, set_offset, offset_at,
  reset, flush, max_groups, empty_entry, is_some, tracked, max_entries_per_group, open_store,
  write_dirty,
}
use event_stream.Groups.Run.{Event, join, committed, reset_to, flushed, step, run}
use event_stream.Groups.Files.{
  saved, IsClean, find-parse_all, write_dirty-keeps, write_dirty-saves, write_dirty_succeeds,
}

-- The files hold each entry that is not dirty, and no group besides.
abbrev pub IsKept : GroupStore → Type 0
IsKept s = (g : Str) → IsClean g s.entries s.dirty → saved g s.files ≡ find g s.entries

open_store-IsKept : (fs : OrdMap Str GroupFile) → IsKept (open_store fs)
unfolding open_store
open_store-IsKept fs g clean = sym (find-parse_all g fs)

IsClean-before :
    (j g : Str) (en : GroupEntry) (dirty : List Str) (known : OrdMap Str GroupEntry)
    → IsClean g (put j en known) (add j dirty)
    → (str_same j g ≡ false) × IsClean g known dirty
IsClean-before j g en dirty known (inl n) = ground (arith, member-add j g dirty, n)
IsClean-before j g en dirty known (inr n) = ground (arith, find-put j g en known, n)

-- An entry that changes is marked dirty.
touch-IsKept :
    (j : Str) (en : GroupEntry) (s : GroupStore)
    → IsKept s
    → IsKept (mark_dirty j (set_entry j en s))
unfolding mark_dirty set_entry
touch-IsKept j en s h g clean =
    let (other, before) = IsClean-before j g en s.dirty s.entries clean in
    h g before ∙ sym (rw (find-put j g en s.entries, other) refl)

-- So is one that is new.
touch_new-IsKept :
    (j : Str) (old en : GroupEntry) (s : GroupStore)
    → IsKept s
    → IsKept (mark_dirty j (set_entry j en (set_entry j old s)))
unfolding mark_dirty set_entry
touch_new-IsKept j old en s h g clean =
    let (other, before) = IsClean-before j g en s.dirty (put j old s.entries) clean in
    let there : find g (put j old s.entries) ≡ find g s.entries =
      rw (find-put j g old s.entries, other) refl in
    h g (elim before [ inl n ↦ inl n | inr n ↦ inr (sym there ∙ n) ])
    ∙ sym (rw (find-put j g en (put j old s.entries), other) there)

claim-IsKept :
    (j : Str) (key : ApiKey) (old : GroupEntry) (s : GroupStore)
    → IsKept s
    → IsKept (claim j key old s).0
unfolding claim
claim-IsKept j key old s h = elim (Bool-cases (is_empty old.owner)) [
  | inl free ↦ rw free (touch-IsKept j (record { owner = key.key_id; offsets = old.offsets }) s h)
  | inr taken ↦ elim (Bool-cases (is_foreign old key)) [
    | inl f ↦ rw (taken, f) h
    | inr f ↦ rw (taken, f) h
  ]
]

authorize-IsKept :
    (j : Str) (key : ApiKey) (s : GroupStore) → IsKept s → IsKept (authorize_or_claim j key s).0
unfolding authorize_or_claim claim
authorize-IsKept j key s h = elim (Bool-cases (validate_group_name j)) [
  | inl valid ↦ elim (Option-cases (find j s.entries)) [
    | inl new ↦ elim (Bool-cases (leb max_groups (length s.entries))) [
      | inl full ↦ rw (valid, new, full) h
      | inr room ↦
          rw (valid, new, room)
            (touch_new-IsKept j empty_entry (record { owner = key.key_id; offsets = [] }) s h)
    ]
    | inr (old, e) ↦ rw (valid, e) (claim-IsKept j key old s h)
  ]
  | inr bad ↦ rw bad h
]

commit_into-IsKept :
    (j topic : Str) (partition offset : ℕ) (old : GroupEntry) (s : GroupStore)
    → IsKept s
    → IsKept (commit_into j topic partition offset old s).0
unfolding commit_into
commit_into-IsKept j topic partition offset old s h =
    elim (Bool-cases (
      not (is_some (offset_at topic partition old.offsets))
      && leb max_entries_per_group (tracked old.offsets))) [
        | inl full ↦ rw full h
        | inr room ↦ rw room (touch-IsKept j (set_offset topic partition offset old) s h)
      ]

answer-IsKept :
    (j topic : Str) (partition offset : ℕ) (answer : GroupResult GroupEntry) (claimed : GroupStore)
    → IsKept claimed
    → IsKept
        (elim answer as (λ r. GroupStore × GroupResult (Unit {0})) [
          | granted old ↦ commit_into j topic partition offset old claimed
          | refused e ↦ (claimed, refused e)
        ]).0
answer-IsKept j topic partition offset (granted old) claimed h =
    commit_into-IsKept j topic partition offset old claimed h
answer-IsKept j topic partition offset (refused e) claimed h = h

commit-IsKept :
    (j : Str) (key : ApiKey) (topic : Str) (partition offset : ℕ) (s : GroupStore)
    → IsKept s
    → IsKept (commit j key topic partition offset s).0
unfolding commit
commit-IsKept j key topic partition offset s h =
    answer-IsKept j topic partition offset (authorize_or_claim j key s).1
      (authorize_or_claim j key s).0 (authorize-IsKept j key s h)

reset-IsKept :
    (j topic : Str) (partition offset : ℕ) (s : GroupStore)
    → IsKept s
    → IsKept (reset j topic partition offset s)
unfolding reset
reset-IsKept j topic partition offset s h = elim (Option-cases (find j s.entries)) [
  | inl e ↦ rw (e, reset) h
  | inr (old, e) ↦ rw (e, reset) (touch-IsKept j (set_offset topic partition offset old) s h)
]

IsClean-still :
    (g : Str) (s : GroupStore) (done : Bool)
    → done ≡ false
    → IsClean g s.entries (if done then [] else s.dirty)
    → IsClean g s.entries s.dirty
IsClean-still g s true e clean = absurd (cc e)
IsClean-still g s false e clean = clean

flush-IsKept : (writes : Str → Bool) (s : GroupStore) → IsKept s → IsKept (flush writes s).0
unfolding flush
flush-IsKept writes s h g clean =
    elim (Bool-cases (write_dirty writes s.entries s.dirty s.files).1) [
      | inl done ↦ write_dirty-saves writes s.entries g s.dirty s.files (h g) done
      | inr failed ↦
          write_dirty-keeps writes s.entries g s.dirty s.files
            (h g (IsClean-still g s _ failed clean))
    ]

step-IsKept : (ev : Event) (s : GroupStore) → IsKept s → IsKept (step ev s)
unfolding step
step-IsKept (join j key) s h = authorize-IsKept j key s h
step-IsKept (committed j key topic partition offset) s h =
    commit-IsKept j key topic partition offset s h
step-IsKept (reset_to j topic partition offset) s h = reset-IsKept j topic partition offset s h
step-IsKept (flushed writes) s h = flush-IsKept writes s h

run-IsKept : (evs : List Event) (s : GroupStore) → IsKept s → IsKept (run evs s)
run-IsKept [] s h = h
run-IsKept (ev ∷ evs) s h = run-IsKept evs (step ev s) (step-IsKept ev s h)

-- From any group files and after any events, failed flushes among them, a flush whose writes succeed reports
-- success, and a restart from the files it leaves finds for every group the entry that was there, or none
-- where there was none.
pub flush-survives :
    (fs : OrdMap Str GroupFile) (evs : List Event) (writes : Str → Bool)
    → ((j : Str) → writes j ≡ true)
    → ((flush writes (run evs (open_store fs))).1 ≡ true)
      × ((g : Str)
          → find g (open_store (flush writes (run evs (open_store fs))).0.files).entries
            ≡ find g (run evs (open_store fs)).entries)
unfolding flush open_store
flush-survives fs evs writes all =
    let s : GroupStore = run evs (open_store fs) in
    let done = write_dirty_succeeds writes s.entries all s.dirty s.files in
    (
      done,
      λ g.
          find-parse_all g (write_dirty writes s.entries s.dirty s.files).0
          ∙ write_dirty-saves writes s.entries g s.dirty s.files
              (run-IsKept evs (open_store fs) (open_store-IsKept fs) g) done,
    )
