-- ===== src/Groups/Committed.antt =====
-- groups.rs: what a commit changes for those who fetch.
use event_stream.Prelude.{
  ℕ, ◌≡◌, inl, inr, refl, ap, ◌∙◌, sym, Bool, true, false, ◌&&◌, not, Option, none, some, [], ◌==◌,
  if◌then◌else◌, is_empty, Option-cases, Bool-cases, leb, length, unwrap_or,
}
use event_stream.Prelude.Ordered.{
  Str, str_same, str_same→, str_same_refl, str_key, nat_key, OrdMap, find, put, find-put,
}
use event_stream.Auth.{ApiKey}
use event_stream.Groups.{
  GroupEntry, GroupStore, GroupResult, granted, refused, mark_dirty, set_entry, claim,
  authorize_or_claim, is_foreign, validate_group_name, commit, commit_into, set_offset, offset_at,
  in_topic, in_entry, fetch, max_groups, empty_entry, is_some, tracked, max_entries_per_group,
}

find_default : (q : ℕ) (o : Option (OrdMap ℕ ℕ)) → find q (unwrap_or o []) ≡ in_topic q o
find_default q none = refl
find_default q (some m) = refl

-- One offset is set, the others stay.
offset_at-set_offset :
    (topic u : Str) (partition q offset : ℕ) (en : GroupEntry)
    → offset_at u q (set_offset topic partition offset en).offsets
      ≡ (if str_same topic u && partition == q then some offset else offset_at u q en.offsets)
unfolding set_offset
offset_at-set_offset topic u partition q offset en =
    let m = unwrap_or (find topic en.offsets) [] in
    let at_topic = find-put topic u (put partition offset m) en.offsets in
    elim (Bool-cases (str_same topic u)) [
      | inl same ↦
          rw
            (
              at_topic,
              same,
              find-put partition q offset m,
              find_default q (find topic en.offsets),
              sym (str_same→ topic u same),
            )
            refl
      | inr other ↦ rw (at_topic, other) refl
    ]

fetch-set_entry :
    (g j u : Str) (q : ℕ) (en : GroupEntry) (s : GroupStore)
    → fetch j u q (mark_dirty g (set_entry g en s))
      ≡ (if str_same g j then offset_at u q en.offsets else fetch j u q s)
unfolding fetch mark_dirty set_entry
fetch-set_entry g j u q en s = elim (Bool-cases (str_same g j)) [
  | inl same ↦ rw (find-put g j en s.entries, same) refl
  | inr other ↦ rw (find-put g j en s.entries, other) refl
]

-- What holds of a store and an answer after `authorize_or_claim`: offsets are as before, and a granted entry
-- is the group's.
Authorized : Str → GroupStore → GroupStore × GroupResult GroupEntry → Type 0
Authorized g s (claimed, answer) =
    ((j u : Str) (q : ℕ) → fetch j u q claimed ≡ fetch j u q s)
    × ((en : GroupEntry) → answer ≡ granted en → find g claimed.entries ≡ some en)

-- An entry is replaced by one with the same offsets.
fetch-set_owner :
    (g j u : Str) (q : ℕ) (old en : GroupEntry) (s : GroupStore)
    → in_entry u q (find g s.entries) ≡ offset_at u q en.offsets
    → fetch j u q (set_entry g en s) ≡ fetch j u q s
unfolding fetch set_entry
fetch-set_owner g j u q old en s e = elim (Bool-cases (str_same g j)) [
  | inl same ↦ rw (find-put g j en s.entries, same, sym (str_same→ g j same)) (sym e)
  | inr other ↦ rw (find-put g j en s.entries, other) refl
]

find-set_entry :
    (g : Str) (en : GroupEntry) (s : GroupStore) → find g (set_entry g en s).entries ≡ some en
unfolding set_entry
find-set_entry g en s = rw (find-put g g en s.entries, str_same_refl g) refl

claim-Authorized :
    (g : Str) (key : ApiKey) (en : GroupEntry) (s : GroupStore)
    → find g s.entries ≡ some en
    → Authorized g s (claim g key en s)
unfolding claim Authorized mark_dirty fetch
claim-Authorized g key en s e =
    let owned : GroupEntry = record { owner = key.key_id; offsets = en.offsets } in
    elim (Bool-cases (is_empty en.owner)) [
      | inl free ↦ rw free (
        λ j u q. fetch-set_owner g j u q en owned s (ap (in_entry u q) e),
        λ new same. find-set_entry g owned s ∙ cc same,
      )
      | inr taken ↦ elim (Bool-cases (is_foreign en key)) [
        | inl f ↦ rw (taken, f) (λ j u q. refl, λ new same. absurd (cc same))
        | inr f ↦ rw (taken, f) (λ j u q. refl, λ new same. e ∙ cc same)
      ]
    ]

authorize-Authorized :
    (g : Str) (key : ApiKey) (s : GroupStore) → Authorized g s (authorize_or_claim g key s)
unfolding authorize_or_claim Authorized
authorize-Authorized g key s = elim (Bool-cases (validate_group_name g)) [
  | inl valid ↦ elim (Option-cases (find g s.entries)) [
    | inl new ↦ elim (Bool-cases (leb max_groups (length s.entries))) [
      | inl full ↦ rw (valid, new, full) (λ j u q. refl, λ en same. absurd (cc same))
      | inr room ↦
          let (same, there) =
            claim-Authorized g key empty_entry (set_entry g empty_entry s)
              (find-set_entry g empty_entry s) in
          rw (valid, new, room)
            (
              λ j u q.
                  same j u q
                  ∙ fetch-set_owner g j u q empty_entry empty_entry s (ap (in_entry u q) new),
              there,
            )
    ]
    | inr (en, e) ↦ rw (valid, e) (claim-Authorized g key en s e)
  ]
  | inr bad ↦ rw bad (λ j u q. refl, λ en same. absurd (cc same))
]

abbrev pub was_granted : {A : Type 0} → GroupResult A → Bool
was_granted (granted a) = true
was_granted (refused e) = false

-- What a fetch finds after a commit of `offset` with some answer.
abbrev Fetches : Str → Str → ℕ → ℕ → GroupStore → GroupStore × GroupResult Unit → Type 0
Fetches g topic partition offset s (after, answer) =
    (j u : Str) (q : ℕ)
    → fetch j u q after ≡ (
        if was_granted answer && (str_same g j && (str_same topic u && partition == q))
        then some offset
        else fetch j u q s)

set_fetches :
    (g topic : Str) (partition offset : ℕ) (en : GroupEntry) (s : GroupStore)
    → find g s.entries ≡ some en
    → (j u : Str) (q : ℕ)
    → fetch j u q (mark_dirty g (set_entry g (set_offset topic partition offset en) s)) ≡ (
        if str_same g j && (str_same topic u && partition == q) then some offset else fetch j u q s)
unfolding fetch
set_fetches g topic partition offset en s e j u q =
    fetch-set_entry g j u q (set_offset topic partition offset en) s
    ∙ elim (Bool-cases (str_same g j)) [
      | inl same ↦
          rw (same, offset_at-set_offset topic u partition q offset en, sym (str_same→ g j same), e)
            refl
      | inr other ↦ rw other refl
    ]

commit_into-Fetches :
    (g topic : Str) (partition offset : ℕ) (en : GroupEntry) (s : GroupStore)
    → find g s.entries ≡ some en
    → Fetches g topic partition offset s (commit_into g topic partition offset en s)
unfolding commit_into
commit_into-Fetches g topic partition offset en s e =
    elim (Bool-cases (
      not (is_some (offset_at topic partition en.offsets))
      && leb max_entries_per_group (tracked en.offsets))) [
        | inl full ↦ rw full (λ j u q. refl)
        | inr room ↦ rw room (λ j u q. set_fetches g topic partition offset en s e j u q)
      ]

answer-Fetches :
    (g topic : Str) (partition offset : ℕ) (answer : GroupResult GroupEntry) (claimed : GroupStore)
    → ((en : GroupEntry) → answer ≡ granted en → find g claimed.entries ≡ some en)
    → Fetches g topic partition offset claimed
        (elim answer as (λ r. GroupStore × GroupResult (Unit {0})) [
          | granted en ↦ commit_into g topic partition offset en claimed
          | refused e ↦ (claimed, refused e)
        ])
answer-Fetches g topic partition offset (granted en) claimed there =
    commit_into-Fetches g topic partition offset en claimed (there en refl)
answer-Fetches g topic partition offset (refused e) claimed there = λ j u q. refl

-- After a commit that is granted, the committed group, topic and partition have the committed offset and all
-- others what they had; after one that is refused, for whatever reason, every fetch finds what it found.
pub fetch-commit :
    (g : Str) (key : ApiKey) (topic : Str) (partition offset : ℕ) (s : GroupStore) (j u : Str)
    (q : ℕ)
    → fetch j u q (commit g key topic partition offset s).0 ≡ (
        if was_granted (commit g key topic partition offset s).1
          && (str_same g j && (str_same topic u && partition == q))
        then some offset
        else fetch j u q s)
unfolding commit Authorized
fetch-commit g key topic partition offset s j u q =
    let (same, there) = authorize-Authorized g key s in
    rw (sym (same j u q)) (
      answer-Fetches g topic partition offset (authorize_or_claim g key s).1
        (authorize_or_claim g key s).0 there j u q)
