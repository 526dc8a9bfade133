-- ===== src/Coord/Assign/Complete.antt =====
-- coord.rs, `recompute_assignment`: which partitions are left to no one.
use event_stream.Prelude.{
  ℕ, ◌-◌, ◌^◌, ◌≤◌, ◌≡◌, refl, inl, inr, true, false, Option, none, some, List, [], ◌∷◌, arith,
  length, is_empty, Bool-cases, Option-cases,
}
use mathlib.Core.Path.{subst}
use event_stream.Prelude.Ordered.{
  Str, str_same, str_key, pair_key, pair_same, pair_same→, OrdMap, find, member, member-add,
}
use event_stream.Coord.{Tp, Member, GroupState}
use event_stream.Coord.Assign.{
  all_partitions, Buckets, empty_buckets, bucket, push, keeps, keep_one, keep_parts, sticky,
  best_member, distribute, orphans_of, sort_buckets, assign, recompute_assignment, div_ceil,
}
use event_stream.Coord.Assign.Once.{count_in, count_in-sort_buckets}
use event_stream.Coord.Assign.Fair.{length-sort_parts, best_member-Subscribed}
use event_stream.Coord.Assign.Push.{
  HasAll, HasAll-push, has-Subscribed, has_found, HasAll-empty, push-there, push-keeps,
}
use event_stream.Coord.Assign.Full.{AllFull, best_member-AllFull, IsServed, IsServed-push}

module _ (target_max : ℕ) (ms : OrdMap Str Member) (small : target_max ≤ 2 ^ 64 - 1) where
  distribute-keeps :
      (tps : List Tp) (tp : Tp) (cur : Buckets)
      → IsServed target_max ms tp cur
      → IsServed target_max ms tp (distribute target_max ms tps cur)
  unfolding distribute
  distribute-keeps [] tp cur h = h
  distribute-keeps (u ∷ tps) tp cur h =
      elim (Option-cases (best_member target_max u cur ms none (2 ^ 64 - 1))) [
        | inl e ↦ rw (e, distribute) (distribute-keeps tps tp cur h)
        | inr (mid, e) ↦
            rw (e, distribute)
              (distribute-keeps tps tp (push mid u cur)
                (IsServed-push target_max ms tp u mid cur h))
      ]

  distribute-serves :
      (tps : List Tp) (tp : Tp) (cur : Buckets)
      → HasAll ms cur
      → member tp tps ≡ true
      → IsServed target_max ms tp (distribute target_max ms tps cur)
  unfolding distribute
  distribute-serves [] tp cur has_all h = absurd (cc h)
  distribute-serves (u ∷ tps) tp cur has_all h =
      elim (Option-cases (best_member target_max u cur ms none (2 ^ 64 - 1))) [
        | inl e ↦ elim (Bool-cases (pair_same u tp)) [
          | inl same ↦
              let full : AllFull target_max u cur ms =
                best_member-AllFull target_max u cur ms (2 ^ 64 - 1) small e in
              rw (e, distribute)
                (distribute-keeps tps tp cur (
                  inr
                    (subst (λ (x : Tp). AllFull target_max x cur ms) (pair_same→ u tp same) full)))
          | inr other ↦ rw (e, distribute) (distribute-serves tps tp cur has_all (ground arith))
        ]
        | inr (mid, e) ↦ elim (Bool-cases (pair_same u tp)) [
          | inl same ↦ elim (best_member-Subscribed target_max u cur ms none (2 ^ 64 - 1) mid e) [
            | inl never ↦ absurd (cc never)
            | inr (sub, room) ↦
                let there = push-there mid u cur (has-Subscribed mid (u.0) cur ms has_all sub) in
                rw (e, distribute)
                  (distribute-keeps tps tp (push mid u cur) (
                    inl (
                      subst (λ (x : Tp). 1 ≤ count_in x (push mid u cur)) (pair_same→ u tp same)
                        there)))
          ]
          | inr other ↦
              rw (e, distribute)
                (distribute-serves tps tp (push mid u cur) (HasAll-push mid u cur ms has_all)
                  (ground arith))
        ]
      ]

-- Each member has a bucket, and what is marked as assigned is in one.
abbrev IsPlaced : OrdMap Str Member → Buckets × List Tp → Type 0
IsPlaced ms (cur, assigned) =
    HasAll ms cur × ((tp : Tp) → member tp assigned ≡ true → 1 ≤ count_in tp cur)

module _ (target_max : ℕ) (all : List Tp) (ms : OrdMap Str Member) where
  keep_one-IsPlaced :
      (mid : Str) (m : Member) (u : Tp) (acc : Buckets × List Tp)
      → find mid ms ≡ some m
      → IsPlaced ms acc
      → IsPlaced ms (keep_one target_max all mid m u acc)
  unfolding keep_one
  keep_one-IsPlaced mid m u (cur, assigned) e (has_all, h) =
      elim (Bool-cases (keeps target_max all m (bucket mid cur) u)) [
        | inl kept ↦
            let there = push-there mid u cur (has_found mid m cur ms has_all e) in
            rw kept (
              HasAll-push mid u cur ms has_all,
              λ tp y. elim (Bool-cases (pair_same u tp)) [
                | inl same ↦
                    subst (λ (x : Tp). 1 ≤ count_in x (push mid u cur)) (pair_same→ u tp same) there
                | inr other ↦
                    let old : member tp assigned ≡ true =
                      ground (arith, member-add u tp assigned, y, other) in
                    let before = h tp old in omega (arith, push-keeps mid u tp cur)
              ],
            )
        | inr dropped ↦ rw dropped (has_all, h)
      ]

  keep_parts-IsPlaced :
      (mid : Str) (m : Member) (tps : List Tp) (acc : Buckets × List Tp)
      → find mid ms ≡ some m
      → IsPlaced ms acc
      → IsPlaced ms (keep_parts target_max all mid m tps acc)
  unfolding keep_parts
  keep_parts-IsPlaced mid m [] acc e h = h
  keep_parts-IsPlaced mid m (u ∷ tps) acc e h =
      keep_parts-IsPlaced mid m tps (keep_one target_max all mid m u acc) e
        (keep_one-IsPlaced mid m u acc e h)

  sticky-IsPlaced :
      (previous : Buckets) (acc : Buckets × List Tp)
      → IsPlaced ms acc
      → IsPlaced ms (sticky target_max all ms previous acc)
  unfolding sticky
  sticky-IsPlaced [] acc h = h
  sticky-IsPlaced ((mid, tps) ∷ previous) acc h = elim (Option-cases (find mid ms)) [
    | inl e ↦ rw (e, sticky) (sticky-IsPlaced previous acc h)
    | inr (m, e) ↦
        rw (e, sticky)
          (sticky-IsPlaced previous (keep_parts target_max all mid m tps acc)
            (keep_parts-IsPlaced mid m tps acc e h))
  ]

member-orphans_of :
    (tp : Tp) (assigned all : List Tp)
    → member tp assigned ≡ false
    → member tp all ≡ true
    → member tp (orphans_of assigned all) ≡ true
member-orphans_of tp assigned [] n h = h
member-orphans_of tp assigned (u ∷ all) n h =
    ground (arith, member-orphans_of tp assigned all, pair_same→ u tp)

length-bucket-sort_buckets :
    (mid : Str) (cur : Buckets) → length (bucket mid (sort_buckets cur)) ≡ length (bucket mid cur)
length-bucket-sort_buckets mid [] = refl
length-bucket-sort_buckets mid ((j, b) ∷ cur) = elim (Bool-cases (str_same j mid)) [
  | inl same ↦ rw same (length-sort_parts b)
  | inr other ↦ rw other (length-bucket-sort_buckets mid cur)
]

AllFull-sort_buckets :
    (target_max : ℕ) (tp : Tp) (cur : Buckets) (ms : OrdMap Str Member)
    → AllFull target_max tp cur ms
    → AllFull target_max tp (sort_buckets cur) ms
AllFull-sort_buckets target_max tp cur [] h = tt
AllFull-sort_buckets target_max tp cur ((mid, m) ∷ ms) (now, later) = (
  λ sub. let full = now sub in omega (arith, length-bucket-sort_buckets mid cur),
  AllFull-sort_buckets target_max tp cur ms later,
)

IsServed-sort_buckets :
    (target_max : ℕ) (ms : OrdMap Str Member) (tp : Tp) (cur : Buckets)
    → IsServed target_max ms tp cur
    → IsServed target_max ms tp (sort_buckets cur)
IsServed-sort_buckets target_max ms tp cur (inl there) =
    inl (omega (arith, count_in-sort_buckets tp cur))
IsServed-sort_buckets target_max ms tp cur (inr full) =
    inr (AllFull-sort_buckets target_max tp cur ms full)

assign-IsServed :
    (partitions : Str → Option (List ℕ)) (ms : OrdMap Str Member) (previous : Buckets) (tp : Tp)
    → div_ceil (length (all_partitions partitions ms [])) (length ms) ≤ 2 ^ 64 - 1
    → member tp (all_partitions partitions ms []) ≡ true
    → IsServed
        (div_ceil (length (all_partitions partitions ms [])) (length ms))
        ms
        tp
        (assign partitions ms previous)
unfolding assign
assign-IsServed partitions ms previous tp small h =
    let all : List Tp = all_partitions partitions ms [] in
    let target_max : ℕ = div_ceil (length all) (length ms) in
    let passed : Buckets × List Tp = sticky target_max all ms previous (empty_buckets ms, []) in
    let (has_all, placed) =
      sticky-IsPlaced target_max all ms previous (empty_buckets ms, [])
        (HasAll-empty ms, λ u y. absurd (cc y)) in
    elim (Bool-cases (member tp (passed.1))) [
      | inl kept ↦
          distribute-keeps target_max ms small (orphans_of (passed.1) all) tp (passed.0)
            (inl (placed tp kept))
      | inr orphan ↦
          distribute-serves target_max ms small (orphans_of (passed.1) all) tp (passed.0) has_all
            (member-orphans_of tp (passed.1) all orphan h)
    ]

-- After a rebalance of a group with members, each partition of the topics they subscribe to is assigned, or
-- every member that subscribes to its topic already has the most that a member may have: the total divided by
-- the members, rounded up, which is assumed to fit a `usize`.
pub recompute_assignment-IsServed :
    (partitions : Str → Option (List ℕ)) (s : GroupState) (tp : Tp)
    → is_empty s.members ≡ false
    → div_ceil (length (all_partitions partitions s.members [])) (length s.members) ≤ 2 ^ 64 - 1
    → member tp (all_partitions partitions s.members []) ≡ true
    → IsServed
        (div_ceil (length (all_partitions partitions s.members [])) (length s.members))
        s.members
        tp
        (recompute_assignment partitions s).assignment
unfolding recompute_assignment
recompute_assignment-IsServed partitions s tp some_left small h = rw some_left (
    IsServed-sort_buckets _ s.members tp (assign partitions s.members s.assignment)
      (assign-IsServed partitions s.members s.assignment tp small h))
