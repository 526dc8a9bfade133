-- ===== src/Coord/Assign/Fair.antt =====
-- coord.rs, `recompute_assignment`: what a member is assigned, and how much.
use event_stream.Prelude.{
  ℕ, ◌-◌, ◌^◌, ◌≤◌, ◌<◌, ◌≡◌, ◌⊎◌, refl, sym, ◌∙◌, inl, inr, true, ◌&&◌, Option, none, some, List,
  [], ◌∷◌, ◌++◌, arith, ltb, length, is_empty, Bool-cases, Option-cases, All, length-append,
}
use mathlib.Core.Path.{subst}
use event_stream.Prelude.Ordered.{
  Str, str_same, str_same→, str_key, pair_key, pair_same_refl, pair_before, OrdMap, find, member,
}
use event_stream.Coord.{Tp, Member, GroupState}
use event_stream.Coord.Assign.{
  all_partitions, Buckets, empty_buckets, bucket, push, keeps, keep_one, keep_parts, sticky,
  best_member, distribute, orphans_of, sort_parts, insert_tp, sort_buckets, assign,
  recompute_assignment, div_ceil,
}

-- A member of that id subscribes to the topic.
abbrev pub Subscribed : Str → Str → OrdMap Str Member → Type 0
Subscribed mid t [] = ⊥
Subscribed mid t ((j, m) ∷ ms) = ((j ≡ mid) × (member t m.topics ≡ true)) ⊎ Subscribed mid t ms

-- The member that gets the next orphan subscribes to its topic and has room.
pub best_member-Subscribed :
    (target_max : ℕ) (tp : Tp) (cur : Buckets) (ms : OrdMap Str Member) (best : Option Str)
    (best_load : ℕ) (mid : Str)
    → best_member target_max tp cur ms best best_load ≡ some mid
    → (best ≡ some mid) ⊎ (Subscribed mid (tp.0) ms × (length (bucket mid cur) < target_max))
unfolding best_member
best_member-Subscribed target_max tp cur [] best best_load mid e = inl e
best_member-Subscribed target_max tp cur ((j, m) ∷ ms) best best_load mid e =
    let load : ℕ = length (bucket j cur) in
    elim (Bool-cases (member (tp.0) m.topics && (ltb load target_max && ltb load best_load))) [
      | inl fits ↦
          let opened : best_member target_max tp cur ((j, m) ∷ ms) best best_load
              ≡ best_member target_max tp cur ms (some j) load =
            rw (best_member, fits) refl in
          let sub : member (tp.0) m.topics ≡ true = ground arith in
          let room : length (bucket j cur) < target_max = ground arith in
          elim (best_member-Subscribed target_max tp cur ms (some j) load mid (sym opened ∙ e)) [
            | inl ej ↦
                let q : j ≡ mid = cc ej in
                inr (inl (q, sub), subst (λ (x : Str). length (bucket x cur) < target_max) q room)
            | inr (later, room_later) ↦ inr (inr later, room_later)
          ]
      | inr passed ↦
          let opened : best_member target_max tp cur ((j, m) ∷ ms) best best_load
              ≡ best_member target_max tp cur ms best best_load =
            rw (best_member, passed) refl in
          elim (best_member-Subscribed target_max tp cur ms best best_load mid (sym opened ∙ e)) [
            | inl eb ↦ inl eb
            | inr (later, room_later) ↦ inr (inr later, room_later)
          ]
    ]

Subscribed-found :
    (mid t : Str) (m : Member) (ms : OrdMap Str Member)
    → find mid ms ≡ some m
    → member t m.topics ≡ true
    → Subscribed mid t ms
Subscribed-found mid t m [] e h = absurd (cc e)
Subscribed-found mid t m ((j, n) ∷ ms) e h = elim (Bool-cases (str_same j mid)) [
  | inl same ↦
      let found : find mid ((j, n) ∷ ms) ≡ some n = rw same refl in
      let q : n ≡ m = cc (found, e) in inl (str_same→ j mid same, rw q h)
  | inr other ↦
      let later : find mid ((j, n) ∷ ms) ≡ find mid ms = rw other refl in
      inr (Subscribed-found mid t m ms (sym later ∙ e) h)
]

length-insert_tp : (u : Tp) (b : List Tp) → length (insert_tp u b) ≡ length (u ∷ b)
unfolding insert_tp
length-insert_tp u [] = refl
length-insert_tp u (v ∷ b) = elim (Bool-cases (pair_before v u)) [
  | inl y ↦ rw y (omega (arith, length-insert_tp u b))
  | inr n ↦ rw n refl
]

pub length-sort_parts : (b : List Tp) → length (sort_parts b) ≡ length b
unfolding sort_parts
length-sort_parts [] = refl
length-sort_parts (u ∷ b) = omega (arith, length-insert_tp u (sort_parts b), length-sort_parts b)

module _ (target_max : ℕ) (all : List Tp) (ms : OrdMap Str Member) where
  -- A member may hold the partitions that there are of the topics it subscribes to.
  abbrev pub Deserves : Str → Tp → Type 0
  Deserves mid tp = (member tp all ≡ true) × Subscribed mid (tp.0) ms

  abbrev pub IsFair : Buckets → Type 0
  IsFair [] = Unit
  IsFair ((mid, b) ∷ cur) = (length b ≤ target_max) × All (Deserves mid) b × IsFair cur

  All-snoc : (P : Tp → Type 0) (b : List Tp) (u : Tp) → All P b → P u → All P (b ++ u ∷ [])
  All-snoc P [] u h p = (p, tt)
  All-snoc P (v ∷ b) u (hv, h) p = (hv, All-snoc P b u h p)

  push-IsFair :
      (mid : Str) (u : Tp) (cur : Buckets)
      → length (bucket mid cur) < target_max
      → Deserves mid u
      → IsFair cur
      → IsFair (push mid u cur)
  push-IsFair mid u [] room d h = tt
  push-IsFair mid u ((j, b) ∷ cur) room d (fits, own, more) = elim (Bool-cases (str_same j mid)) [
    | inl same ↦
        let here : bucket mid ((j, b) ∷ cur) ≡ b = rw same refl in
        let less : length b < target_max =
          subst (λ (x : List Tp). length x < target_max) here room in
        rw same (
          omega (arith, length-append b (u ∷ [])),
          All-snoc (Deserves j) b u own
              (subst (λ (x : Str). Deserves x u) (sym (str_same→ j mid same)) d),
          more,
        )
    | inr other ↦
        let there : bucket mid ((j, b) ∷ cur) ≡ bucket mid cur = rw other refl in
        rw other (
          fits,
          own,
          push-IsFair mid u cur (subst (λ (x : List Tp). length x < target_max) there room) d more,
        )
  ]

  keep_one-IsFair :
      (mid : Str) (m : Member) (u : Tp) (acc : Buckets × List Tp)
      → find mid ms ≡ some m
      → IsFair (acc.0)
      → IsFair (keep_one target_max all mid m u acc).0
  unfolding keep_one keeps
  keep_one-IsFair mid m u (cur, assigned) e h =
      elim (Bool-cases (keeps target_max all m (bucket mid cur) u)) [
        | inl kept ↦
            let there : member u all ≡ true = ground arith in
            let sub : member (u.0) m.topics ≡ true = ground arith in
            let room : length (bucket mid cur) < target_max = ground arith in
            rw kept (push-IsFair mid u cur room (there, Subscribed-found mid (u.0) m ms e sub) h)
        | inr dropped ↦ rw dropped h
      ]

  keep_parts-IsFair :
      (mid : Str) (m : Member) (tps : List Tp) (acc : Buckets × List Tp)
      → find mid ms ≡ some m
      → IsFair (acc.0)
      → IsFair (keep_parts target_max all mid m tps acc).0
  unfolding keep_parts
  keep_parts-IsFair mid m [] acc e h = h
  keep_parts-IsFair mid m (u ∷ tps) acc e h =
      keep_parts-IsFair mid m tps (keep_one target_max all mid m u acc) e
        (keep_one-IsFair mid m u acc e h)

  pub sticky-IsFair :
      (previous : Buckets) (acc : Buckets × List Tp)
      → IsFair (acc.0)
      → IsFair (sticky target_max all ms previous acc).0
  unfolding sticky
  sticky-IsFair [] acc h = h
  sticky-IsFair ((mid, tps) ∷ previous) acc h = elim (Option-cases (find mid ms)) [
    | inl e ↦ rw (e, sticky) (sticky-IsFair previous acc h)
    | inr (m, e) ↦
        rw (e, sticky)
          (sticky-IsFair previous (keep_parts target_max all mid m tps acc)
            (keep_parts-IsFair mid m tps acc e h))
  ]

  pub distribute-IsFair :
      (tps : List Tp) (cur : Buckets)
      → All (λ tp. member tp all ≡ true) tps
      → IsFair cur
      → IsFair (distribute target_max ms tps cur)
  unfolding distribute
  distribute-IsFair [] cur there h = h
  distribute-IsFair (u ∷ tps) cur (now, later) h =
      elim (Option-cases (best_member target_max u cur ms none (2 ^ 64 - 1))) [
        | inl e ↦ rw (e, distribute) (distribute-IsFair tps cur later h)
        | inr (mid, e) ↦ elim (best_member-Subscribed target_max u cur ms none (2 ^ 64 - 1) mid e) [
          | inl never ↦ absurd (cc never)
          | inr (sub, room) ↦
              rw (e, distribute)
                (distribute-IsFair tps (push mid u cur) later
                  (push-IsFair mid u cur room (now, sub) h))
        ]
      ]

  empty_buckets-IsFair : (ns : OrdMap Str Member) → IsFair (empty_buckets ns)
  empty_buckets-IsFair [] = tt
  empty_buckets-IsFair ((mid, m) ∷ ns) = (omega arith, tt, empty_buckets-IsFair ns)

  All-insert_tp : (P : Tp → Type 0) (u : Tp) (b : List Tp) → P u → All P b → All P (insert_tp u b)
  unfolding insert_tp
  All-insert_tp P u [] p h = (p, tt)
  All-insert_tp P u (v ∷ b) p (hv, h) = elim (Bool-cases (pair_before v u)) [
    | inl y ↦ rw y (hv, All-insert_tp P u b p h)
    | inr n ↦ rw n (p, (hv, h))
  ]

  All-sort_parts : (P : Tp → Type 0) (b : List Tp) → All P b → All P (sort_parts b)
  unfolding sort_parts
  All-sort_parts P [] h = tt
  All-sort_parts P (u ∷ b) (p, h) = All-insert_tp P u (sort_parts b) p (All-sort_parts P b h)

  sort_buckets-IsFair : (cur : Buckets) → IsFair cur → IsFair (sort_buckets cur)
  sort_buckets-IsFair [] h = tt
  sort_buckets-IsFair ((mid, b) ∷ cur) (fits, own, more) = (
    omega (arith, length-sort_parts b),
    All-sort_parts (Deserves mid) b own,
    sort_buckets-IsFair cur more,
  )

member_weaken :
    (u : Tp) (all : List Tp) (tps : List Tp)
    → All (λ tp. member tp all ≡ true) tps
    → All (λ tp. member tp (u ∷ all) ≡ true) tps
member_weaken u all [] h = tt
member_weaken u all (v ∷ tps) (now, later) = (ground arith, member_weaken u all tps later)

orphans_of-All :
    (assigned all : List Tp) → All (λ tp. member tp all ≡ true) (orphans_of assigned all)
orphans_of-All assigned [] = tt
orphans_of-All assigned (u ∷ all) = elim (Bool-cases (member u assigned)) [
  | inl old ↦ rw old (member_weaken u all (orphans_of assigned all) (orphans_of-All assigned all))
  | inr new ↦ rw new (
    ground (arith, pair_same_refl u),
    member_weaken u all (orphans_of assigned all) (orphans_of-All assigned all),
  )
]

-- After a rebalance no member has more partitions than the total divided by the members, rounded up, and each
-- of its partitions exists and is of a topic that it subscribes to.
pub recompute_assignment-IsFair :
    (partitions : Str → Option (List ℕ)) (s : GroupState)
    → IsFair
        (div_ceil (length (all_partitions partitions s.members [])) (length s.members))
        (all_partitions partitions s.members [])
        s.members
        (recompute_assignment partitions s).assignment
unfolding recompute_assignment assign
recompute_assignment-IsFair partitions s =
    let all : List Tp = all_partitions partitions s.members [] in
    let target_max : ℕ = div_ceil (length all) (length s.members) in
    let passed : Buckets × List Tp =
      sticky target_max all s.members s.assignment (empty_buckets s.members, []) in
    elim (Bool-cases (is_empty s.members)) [
      | inl none_left ↦ rw none_left tt
      | inr some_left ↦ rw some_left (
          sort_buckets-IsFair target_max all s.members
            (distribute target_max s.members (orphans_of (passed.1) all) (passed.0))
            (distribute-IsFair target_max all s.members (orphans_of (passed.1) all) (passed.0)
              (orphans_of-All (passed.1) all)
              (sticky-IsFair target_max all s.members s.assignment (empty_buckets s.members, [])
                (empty_buckets-IsFair target_max all s.members s.members))))
    ]
