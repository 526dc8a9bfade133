-- ===== src/Coord/Fenced.antt =====
-- coord.rs: a generation stands for one assignment.
use event_stream.Prelude.{
  ℕ, ◌≤◌, ◌≡◌, ◌⊎◌, refl, ap, sym, ◌∙◌, inl, inr, true, ◌&&◌, not, Option, some, List, [], ◌∷◌,
  arith, leb, length, is_empty, Bool-cases, Option-cases, add_u64,
}
use mathlib.Core.Path.{ap₂}
use event_stream.Prelude.Ordered.{Str, str_same, str_same→, str_key, OrdMap, find, delete, modify}
use event_stream.Auth.{ApiKey}
use event_stream.Groups.{is_some}
use event_stream.Coord.{Tp, Member, GroupState}
use event_stream.Coord.Assign.{recompute_assignment}
use event_stream.Coord.Assign.Once.{count_in, IsDisjoint, recompute_assignment-IsDisjoint}
use event_stream.Coord.Group.{
  is_other, topics_same, with_members, subscribe, beat, rejoin, join_new, join_group, leave_group,
  expire_group, stale_ids, heartbeat_group, max_members_per_group,
}
use event_stream.Coord.Coordinator.{new_group}

-- What the operations do to one group.
pub data GroupEvent : Type 0 where
  joined : (now : ℕ) (mid : Str) (topics : List Str) (key : ApiKey) → GroupEvent
  left : (key : ApiKey) (mid : Str) → GroupEvent
  expired : (timeout now : ℕ) → GroupEvent
  beaten : (now : ℕ) (key : ApiKey) (mid : Str) (generation : ℕ) → GroupEvent

-- Who is in the group, with the topics of each.
abbrev pub subscriptions : OrdMap Str Member → List (Str × List Str)
subscriptions [] = []
subscriptions ((mid, m) ∷ ms) = (mid, m.topics) ∷ subscriptions ms

-- A new generation, or the same members, subscriptions and assignment as before.
abbrev pub IsFenced : GroupState → GroupState → Type 0
IsFenced s after =
    (after.generation ≡ add_u64 s.generation 1)
    ⊎ ((after.generation ≡ s.generation)
        × (after.assignment ≡ s.assignment)
        × (subscriptions after.members ≡ subscriptions s.members))

topics_same→ : (ts us : List Str) → topics_same ts us ≡ true → ts ≡ us
topics_same→ [] [] h = refl
topics_same→ [] (u ∷ us) h = absurd (cc h)
topics_same→ (t ∷ ts) [] h = absurd (cc h)
topics_same→ (t ∷ ts) (u ∷ us) h =
    ap₂ (λ (x : Str) (xs : List Str). x ∷ xs) (str_same→ t u (ground arith))
      (topics_same→ ts us (ground arith))

subscriptions-beat :
    (mid : Str) (now : ℕ) (ms : OrdMap Str Member)
    → subscriptions (modify mid (beat now) ms) ≡ subscriptions ms
subscriptions-beat mid now [] = refl
subscriptions-beat mid now ((j, m) ∷ ms) = elim (Bool-cases (str_same j mid)) [
  | inl same ↦ rw same refl
  | inr other ↦
      rw other
        (ap (λ (xs : List (Str × List Str)). (j, m.topics) ∷ xs) (subscriptions-beat mid now ms))
]

subscriptions-subscribe :
    (mid : Str) (topics : List Str) (now : ℕ) (m : Member) (ms : OrdMap Str Member)
    → find mid ms ≡ some m
    → m.topics ≡ topics
    → subscriptions (modify mid (subscribe topics now) ms) ≡ subscriptions ms
subscriptions-subscribe mid topics now m [] e h = refl
subscriptions-subscribe mid topics now m ((j, n) ∷ ms) e h = elim (Bool-cases (str_same j mid)) [
  | inl same ↦
      let found : find mid ((j, n) ∷ ms) ≡ some n = rw same refl in
      let q : n ≡ m = cc (found, e) in
      rw same (
        ap (λ (ts : List Str). (j, ts) ∷ subscriptions ms)
          (sym h ∙ ap (λ (x : Member). x.topics) (sym q)))
  | inr other ↦
      let later : find mid ((j, n) ∷ ms) ≡ find mid ms = rw other refl in
      rw other (
        ap (λ (xs : List (Str × List Str)). (j, n.topics) ∷ xs)
          (subscriptions-subscribe mid topics now m ms (sym later ∙ e) h))
]

module _ (partitions : Str → Option (List ℕ)) where
  unfoldable pub step : GroupEvent → GroupState → GroupState
  step (joined now mid topics key) s = (join_group partitions now mid topics key s).0
  step (left key mid) s = (leave_group partitions key mid s).0
  step (expired timeout now) s = expire_group partitions timeout now s
  step (beaten now key mid generation) s = (heartbeat_group now key mid generation s).0

  -- A rebalance with some members, or the same generation, assignment and subscriptions as before.
  abbrev pub IsMove : GroupState → GroupState → Type 0
  IsMove s after =
      ((ms : OrdMap Str Member) × (after ≡ recompute_assignment partitions (with_members ms s)))
      ⊎ ((after.generation ≡ s.generation)
          × (after.assignment ≡ s.assignment)
          × (subscriptions after.members ≡ subscriptions s.members))

  unchanged : (s : GroupState) → IsMove s s
  unchanged s = inr (refl, refl, refl)

  recomputed :
      (s : GroupState) (ms : OrdMap Str Member)
      → IsMove s (recompute_assignment partitions (with_members ms s))
  recomputed s ms = inl (ms, refl)

  rejoin-IsMove :
      (now : ℕ) (mid : Str) (topics : List Str) (m : Member) (s : GroupState)
      → find mid s.members ≡ some m
      → IsMove s (rejoin partitions now mid topics m s)
  unfolding rejoin
  rejoin-IsMove now mid topics m s e = elim (Bool-cases (topics_same m.topics topics)) [
    | inl same ↦ rw same (
        inr (
          refl,
          refl,
          subscriptions-subscribe mid topics now m s.members e (topics_same→ m.topics topics same),
        ))
    | inr changed ↦ rw changed (recomputed s (modify mid (subscribe topics now) s.members))
  ]

  join_group-IsMove :
      (now : ℕ) (mid : Str) (topics : List Str) (key : ApiKey) (s : GroupState)
      → IsMove s (join_group partitions now mid topics key s).0
  unfolding join_group join_new
  join_group-IsMove now mid topics key s =
      elim (Bool-cases
        (not (is_some (find mid s.members)) && leb max_members_per_group (length s.members))) [
          | inl full ↦ rw full (unchanged s)
          | inr room ↦ elim (Option-cases (find mid s.members)) [
            | inl e ↦ rw (room, e, join_group) (recomputed s _)
            | inr (m, e) ↦ elim (Bool-cases (is_other m key)) [
              | inl f ↦ rw (room, e, join_group, f) (unchanged s)
              | inr f ↦ rw (room, e, join_group, f) (rejoin-IsMove now mid topics m s e)
            ]
          ]
        ]

  leave_group-IsMove :
      (key : ApiKey) (mid : Str) (s : GroupState) → IsMove s (leave_group partitions key mid s).0
  unfolding leave_group
  leave_group-IsMove key mid s = elim (Option-cases (find mid s.members)) [
    | inl e ↦ rw (e, leave_group) (unchanged s)
    | inr (m, e) ↦ elim (Bool-cases (is_other m key)) [
      | inl f ↦ rw (e, leave_group, f) (unchanged s)
      | inr f ↦ rw (e, leave_group, f) (recomputed s (delete mid s.members))
    ]
  ]

  expire_group-IsMove :
      (timeout now : ℕ) (s : GroupState) → IsMove s (expire_group partitions timeout now s)
  unfolding expire_group
  expire_group-IsMove timeout now s =
      elim (Bool-cases (is_empty (stale_ids timeout now s.members))) [
        | inl none_stale ↦ rw none_stale (unchanged s)
        | inr some_stale ↦ rw some_stale (recomputed s _)
      ]

  heartbeat_group-IsMove :
      (now : ℕ) (key : ApiKey) (mid : Str) (generation : ℕ) (s : GroupState)
      → IsMove s (heartbeat_group now key mid generation s).0
  unfolding heartbeat_group
  heartbeat_group-IsMove now key mid generation s = elim (Option-cases (find mid s.members)) [
    | inl e ↦ rw (e, heartbeat_group) (unchanged s)
    | inr (m, e) ↦ elim (Bool-cases (is_other m key)) [
      | inl f ↦ rw (e, heartbeat_group, f) (unchanged s)
      | inr f ↦ rw (e, heartbeat_group, f) (inr (refl, refl, subscriptions-beat mid now s.members))
    ]
  ]

  step-IsMove : (ev : GroupEvent) (s : GroupState) → IsMove s (step ev s)
  unfolding step
  step-IsMove (joined now mid topics key) s = join_group-IsMove now mid topics key s
  step-IsMove (left key mid) s = leave_group-IsMove key mid s
  step-IsMove (expired timeout now) s = expire_group-IsMove timeout now s
  step-IsMove (beaten now key mid generation) s = heartbeat_group-IsMove now key mid generation s

  -- Every operation on a group either begins a new generation (the old one plus one, in a `u64`) or leaves the
  -- generation, the assignment, the members and what each subscribes to as they are: who holds the current
  -- generation holds its assignment.
  pub step-IsFenced : (ev : GroupEvent) (s : GroupState) → IsFenced s (step ev s)
  unfolding recompute_assignment
  step-IsFenced ev s = elim (step-IsMove ev s) [
    | inl (ms, e) ↦ inl (ap (λ (x : GroupState). x.generation) e)
    | inr same ↦ inr same
  ]

  step-IsDisjoint : (ev : GroupEvent) (s : GroupState) → IsDisjoint s → IsDisjoint (step ev s)
  step-IsDisjoint ev s h = elim (step-IsMove ev s) [
    | inl (ms, e) ↦ rw e (recompute_assignment-IsDisjoint partitions (with_members ms s) h)
    | inr (g, a, m) ↦ λ tp. rw a (h tp)
  ]

-- Events in turn, each with the topics there are at its time.
abbrev pub run : List ((Str → Option (List ℕ)) × GroupEvent) → GroupState → GroupState
run [] s = s
run ((partitions, ev) ∷ evs) s = run evs (step partitions ev s)

run_from-IsDisjoint :
    (evs : List ((Str → Option (List ℕ)) × GroupEvent)) (s : GroupState)
    → IsDisjoint s
    → IsDisjoint (run evs s)
run_from-IsDisjoint [] s h = h
run_from-IsDisjoint ((partitions, ev) ∷ evs) s h =
    run_from-IsDisjoint evs (step partitions ev s) (step-IsDisjoint partitions ev s h)

-- In every order of joins, leaves, expiries and heartbeats from a new group, while topics come and go, no
-- partition is ever assigned in two places, to two members or twice to one.
pub run-IsDisjoint :
    (evs : List ((Str → Option (List ℕ)) × GroupEvent)) (tp : Tp)
    → count_in tp (run evs new_group).assignment ≤ 1
run-IsDisjoint evs tp = run_from-IsDisjoint evs new_group (λ u. omega arith) tp
