-- ===== src/Coord/Assign/Once.antt =====
-- coord.rs, `recompute_assignment`: no partition is assigned twice.
use event_stream.Prelude.{
  ℕ, ◌+◌, ◌≤◌, ◌≡◌, refl, inl, inr, false, Option, none, List, [], ◌∷◌, ◌++◌, arith, if◌then◌else◌,
  length, is_empty, unwrap_or, Bool-cases, Option-cases, ◌^◌, ◌-◌,
}
use event_stream.Prelude.Ordered.{
  Str, str_same, str_key, pair_key, pair_same, pair_same→, pair_before, OrdMap, find, member, add,
  member-add, count, count-add,
}
use event_stream.Coord.{Tp, Member, GroupState}
use event_stream.Coord.Assign.{
  add_partitions, add_topics, all_partitions, Buckets, empty_buckets, bucket, push, keeps, keep_one,
  keep_parts, sticky, best_member, distribute, orphans_of, sort_parts, insert_tp, sort_buckets,
  assign, recompute_assignment, div_ceil,
}

-- In how many places a partition is assigned.
abbrev pub count_in : Tp → Buckets → ℕ
count_in tp [] = 0
count_in tp ((mid, b) ∷ cur) = count tp b + count_in tp cur

pub count-snoc :
    (tp u : Tp) (b : List Tp)
    → count tp (b ++ u ∷ []) ≡ count tp b + (if pair_same u tp then 1 else 0)
count-snoc tp u [] = omega arith
count-snoc tp u (v ∷ b) = omega (arith, count-snoc tp u b)

pub count_in-push :
    (tp u : Tp) (mid : Str) (cur : Buckets)
    → count_in tp (push mid u cur) ≤ count_in tp cur + (if pair_same u tp then 1 else 0)
count_in-push tp u mid [] = omega arith
count_in-push tp u mid ((j, b) ∷ cur) = elim (Bool-cases (str_same j mid)) [
  | inl same ↦ rw same (omega (arith, count-snoc tp u b))
  | inr other ↦ rw other (omega (arith, count_in-push tp u mid cur))
]

-- Whatever is in a bucket is marked as assigned.
abbrev pub Marked : Buckets × List Tp → Type 0
Marked (cur, assigned) = (tp : Tp) → member tp assigned ≡ false → count_in tp cur ≡ 0

module _ (target_max : ℕ) (all : List Tp) where
  module _ (mid : Str) (m : Member) where
    keep_one-count :
        (tp u : Tp) (acc : Buckets × List Tp)
        → count_in tp (keep_one target_max all mid m u acc).0
          ≤ count_in tp (acc.0) + (if pair_same u tp then 1 else 0)
    unfolding keep_one
    keep_one-count tp u (cur, assigned) =
        elim (Bool-cases (keeps target_max all m (bucket mid cur) u)) [
          | inl kept ↦ rw kept (count_in-push tp u mid cur)
          | inr dropped ↦ rw dropped (omega arith)
        ]

    keep_parts-count :
        (tp : Tp) (tps : List Tp) (acc : Buckets × List Tp)
        → count_in tp (keep_parts target_max all mid m tps acc).0
          ≤ count_in tp (acc.0) + count tp tps
    unfolding keep_parts
    keep_parts-count tp [] acc = omega arith
    keep_parts-count tp (u ∷ tps) acc = omega (
      arith,
      keep_parts-count tp tps (keep_one target_max all mid m u acc),
      keep_one-count tp u acc,
    )

    keep_one-Marked :
        (u : Tp) (acc : Buckets × List Tp)
        → Marked acc
        → Marked (keep_one target_max all mid m u acc)
    unfolding keep_one
    keep_one-Marked u (cur, assigned) h =
        elim (Bool-cases (keeps target_max all m (bucket mid cur) u)) [
          | inl kept ↦ rw kept (λ tp n.
              ground (arith, member-add u tp assigned, h tp, count_in-push tp u mid cur, n))
          | inr dropped ↦ rw dropped h
        ]

    keep_parts-Marked :
        (tps : List Tp) (acc : Buckets × List Tp)
        → Marked acc
        → Marked (keep_parts target_max all mid m tps acc)
    unfolding keep_parts
    keep_parts-Marked [] acc h = h
    keep_parts-Marked (u ∷ tps) acc h =
        keep_parts-Marked tps (keep_one target_max all mid m u acc) (keep_one-Marked u acc h)

  module _ (ms : OrdMap Str Member) where
    sticky-count :
        (tp : Tp) (previous : Buckets) (acc : Buckets × List Tp)
        → count_in tp (sticky target_max all ms previous acc).0
          ≤ count_in tp (acc.0) + count_in tp previous
    unfolding sticky
    sticky-count tp [] acc = omega arith
    sticky-count tp ((mid, tps) ∷ previous) acc = elim (Option-cases (find mid ms)) [
      | inl e ↦ rw (e, sticky) (omega (arith, sticky-count tp previous acc))
      | inr (m, e) ↦
          rw (e, sticky)
            (omega (
              arith,
              sticky-count tp previous (keep_parts target_max all mid m tps acc),
              keep_parts-count mid m tp tps acc,
            ))
    ]

    sticky-Marked :
        (previous : Buckets) (acc : Buckets × List Tp)
        → Marked acc
        → Marked (sticky target_max all ms previous acc)
    unfolding sticky
    sticky-Marked [] acc h = h
    sticky-Marked ((mid, tps) ∷ previous) acc h = elim (Option-cases (find mid ms)) [
      | inl e ↦ rw (e, sticky) (sticky-Marked previous acc h)
      | inr (m, e) ↦
          rw (e, sticky)
            (sticky-Marked previous (keep_parts target_max all mid m tps acc)
              (keep_parts-Marked mid m tps acc h))
    ]

    distribute-count :
        (tp : Tp) (tps : List Tp) (cur : Buckets)
        → count_in tp (distribute target_max ms tps cur) ≤ count_in tp cur + count tp tps
    unfolding distribute
    distribute-count tp [] cur = omega arith
    distribute-count tp (u ∷ tps) cur =
        elim (Option-cases (best_member target_max u cur ms none (2 ^ 64 - 1))) [
          | inl e ↦ rw (e, distribute) (omega (arith, distribute-count tp tps cur))
          | inr (mid, e) ↦
              rw (e, distribute)
                (omega
                  (arith, distribute-count tp tps (push mid u cur), count_in-push tp u mid cur))
        ]

pub orphans_of-count :
    (tp : Tp) (assigned all : List Tp)
    → count tp (orphans_of assigned all) ≤ (if member tp assigned then 0 else count tp all)
orphans_of-count tp assigned [] = ground arith
orphans_of-count tp assigned (u ∷ all) =
    ground (arith, orphans_of-count tp assigned all, pair_same→ u tp)

module _ (partitions : Str → Option (List ℕ)) where
  add_partitions-once :
      (tp : Tp) (t : Str) (ps : List ℕ) (all : List Tp)
      → count tp all ≤ 1
      → count tp (add_partitions partitions t ps all) ≤ 1
  add_partitions-once tp t [] all h = h
  add_partitions-once tp t (p ∷ ps) all h =
      add_partitions-once tp t ps (add (t, p) all) (count-add (t, p) tp all h)

  add_topics-once :
      (tp : Tp) (ts : List Str) (all : List Tp)
      → count tp all ≤ 1
      → count tp (add_topics partitions ts all) ≤ 1
  add_topics-once tp [] all h = h
  add_topics-once tp (t ∷ ts) all h =
      add_topics-once tp ts (add_partitions partitions t (unwrap_or (partitions t) []) all)
        (add_partitions-once tp t (unwrap_or (partitions t) []) all h)

  all_partitions-once :
      (tp : Tp) (ms : OrdMap Str Member) (all : List Tp)
      → count tp all ≤ 1
      → count tp (all_partitions partitions ms all) ≤ 1
  all_partitions-once tp [] all h = h
  all_partitions-once tp ((mid, m) ∷ ms) all h =
      all_partitions-once tp ms (add_topics partitions m.topics all)
        (add_topics-once tp m.topics all h)

count_in-empty : (tp : Tp) (ms : OrdMap Str Member) → count_in tp (empty_buckets ms) ≡ 0
count_in-empty tp [] = refl
count_in-empty tp ((mid, m) ∷ ms) = omega (arith, count_in-empty tp ms)

assign-once :
    (partitions : Str → Option (List ℕ)) (ms : OrdMap Str Member) (previous : Buckets) (tp : Tp)
    → count_in tp previous ≤ 1
    → count_in tp (assign partitions ms previous) ≤ 1
unfolding assign
assign-once partitions ms previous tp h =
    let all : List Tp = all_partitions partitions ms [] in
    let target_max : ℕ = div_ceil (length all) (length ms) in
    let passed : Buckets × List Tp = sticky target_max all ms previous (empty_buckets ms, []) in
    ground (
      arith,
      distribute-count target_max all ms tp (orphans_of (passed.1) all) (passed.0),
      orphans_of-count tp (passed.1) all,
      sticky-count target_max all ms tp previous (empty_buckets ms, []),
      sticky-Marked target_max all ms previous (empty_buckets ms, []) (λ u n. count_in-empty u ms)
          tp,
      all_partitions-once partitions tp ms [] (omega arith),
      count_in-empty tp ms,
    )

count-insert_tp : (tp u : Tp) (b : List Tp) → count tp (insert_tp u b) ≡ count tp (u ∷ b)
unfolding insert_tp
count-insert_tp tp u [] = refl
count-insert_tp tp u (v ∷ b) = elim (Bool-cases (pair_before v u)) [
  | inl y ↦ rw y (omega (arith, count-insert_tp tp u b))
  | inr n ↦ rw n refl
]

pub count-sort_parts : (tp : Tp) (b : List Tp) → count tp (sort_parts b) ≡ count tp b
unfolding sort_parts
count-sort_parts tp [] = refl
count-sort_parts tp (u ∷ b) =
    omega (arith, count-insert_tp tp u (sort_parts b), count-sort_parts tp b)

pub count_in-sort_buckets :
    (tp : Tp) (cur : Buckets) → count_in tp (sort_buckets cur) ≡ count_in tp cur
count_in-sort_buckets tp [] = refl
count_in-sort_buckets tp ((mid, b) ∷ cur) =
    omega (arith, count-sort_parts tp b, count_in-sort_buckets tp cur)

-- No partition is assigned twice.
abbrev pub IsDisjoint : GroupState → Type 0
IsDisjoint s = (tp : Tp) → count_in tp s.assignment ≤ 1

-- After a rebalance each partition stands in at most one place of the assignment, once in one member's list,
-- when that was so before it.
pub recompute_assignment-IsDisjoint :
    (partitions : Str → Option (List ℕ)) (s : GroupState)
    → IsDisjoint s
    → IsDisjoint (recompute_assignment partitions s)
unfolding recompute_assignment
recompute_assignment-IsDisjoint partitions s h tp = elim (Bool-cases (is_empty s.members)) [
  | inl none_left ↦ rw none_left (omega arith)
  | inr some_left ↦ rw some_left (
      omega (
        arith,
        count_in-sort_buckets tp (assign partitions s.members s.assignment),
        assign-once partitions s.members s.assignment tp (h tp),
      ))
]
