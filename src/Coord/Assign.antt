-- ===== src/Coord/Assign.antt =====
-- coord.rs: `recompute_assignment`. The partitions of a topic, `broker.topic(t)`, are an argument. Where the
-- code walks the members' ids and looks each up, the members are walked with their ids.
pub mod Once
pub mod Fair
pub mod Push
pub mod Full
pub mod Complete
use event_stream.Prelude.{
  ℕ, zero, suc, ◌+◌, ◌-◌, ◌/◌, ◌^◌, Bool, true, false, ◌&&◌, ◌||◌, not, Option, none, some, List,
  [], ◌∷◌, ◌++◌, ltb, leb, if◌then◌else◌, length, is_empty, unwrap_or, add_u64,
}
use event_stream.Prelude.Ordered.{
  Str, str_same, str_key, pair_key, pair_before, OrdMap, find, member, add,
}
use event_stream.Coord.{Tp, Member, GroupState}

module _ (partitions : Str → Option (List ℕ)) where
  -- The partitions of one topic, and of the topics of one member.
  abbrev pub add_partitions : Str → List ℕ → List Tp → List Tp
  add_partitions t [] all = all
  add_partitions t (p ∷ ps) all = add_partitions t ps (add (t, p) all)

  abbrev pub add_topics : List Str → List Tp → List Tp
  add_topics [] all = all
  add_topics (t ∷ ts) all = add_topics ts (add_partitions t (unwrap_or (partitions t) []) all)

  -- What should be assigned to someone in the group.
  abbrev pub all_partitions : OrdMap Str Member → List Tp → List Tp
  all_partitions [] all = all
  all_partitions ((mid, m) ∷ ms) all = all_partitions ms (add_topics m.topics all)

-- `total.div_ceil(m_count)`
unfoldable pub div_ceil : ℕ → ℕ → ℕ
div_ceil n d = (n + d - 1) / d

abbrev pub Buckets : Type 0
Buckets = OrdMap Str (List Tp)

-- `current.insert(mid, Vec::new())` for each member.
abbrev pub empty_buckets : OrdMap Str Member → Buckets
empty_buckets [] = []
empty_buckets ((mid, m) ∷ ms) = (mid, []) ∷ empty_buckets ms

abbrev pub bucket : Str → Buckets → List Tp
bucket mid cur = unwrap_or (find mid cur) []

-- `current.get_mut(mid).unwrap().push(tp)`
abbrev pub push : Str → Tp → Buckets → Buckets
push mid tp [] = []
push mid tp ((j, b) ∷ cur) =
    let rest = push mid tp cur in if str_same j mid then (j, b ++ tp ∷ []) ∷ cur else (j, b) ∷ rest

-- The tests of the first pass: the partition is there, its owner subscribes to it and has room.
unfoldable pub keeps : ℕ → List Tp → Member → List Tp → Tp → Bool
keeps target_max all m held tp =
    member tp all && (member (tp.0) m.topics && not (leb target_max (length held)))

-- One of a previous owner's partitions, onto the buckets and what is assigned; then all of them.
unfoldable pub keep_one : ℕ → List Tp → Str → Member → Tp → Buckets × List Tp → Buckets × List Tp
keep_one target_max all mid m tp acc =
    if keeps target_max all m (bucket mid (acc.0)) tp
    then (push mid tp (acc.0), add tp (acc.1))
    else acc

unfoldable pub keep_parts :
    ℕ → List Tp → Str → Member → List Tp → Buckets × List Tp → Buckets × List Tp
keep_parts target_max all mid m [] acc = acc
keep_parts target_max all mid m (tp ∷ tps) acc =
    keep_parts target_max all mid m tps (keep_one target_max all mid m tp acc)

-- Pass 1.
unfoldable pub sticky :
    ℕ → List Tp → OrdMap Str Member → Buckets → Buckets × List Tp → Buckets × List Tp
sticky target_max all ms [] acc = acc
sticky target_max all ms ((prev_owner, tps) ∷ previous) acc =
    let kept = λ (m : Member). keep_parts target_max all prev_owner m tps acc in
    sticky target_max all ms previous (elim (find prev_owner ms) [ none ↦ acc | some m ↦ kept m ])

-- The least-loaded member that subscribes to the topic and has room, with the load found so far.
unfoldable pub best_member : ℕ → Tp → Buckets → OrdMap Str Member → Option Str → ℕ → Option Str
best_member target_max tp cur [] best best_load = best
best_member target_max tp cur ((mid, m) ∷ ms) best best_load =
    let load = length (bucket mid cur) in
    let better = best_member target_max tp cur ms (some mid) load in
    let same = best_member target_max tp cur ms best best_load in
    if member (tp.0) m.topics && (ltb load target_max && ltb load best_load) then better else same

-- Pass 2.
unfoldable pub distribute : ℕ → OrdMap Str Member → List Tp → Buckets → Buckets
distribute target_max ms [] cur = cur
distribute target_max ms (tp ∷ tps) cur =
    distribute target_max ms tps (elim (best_member target_max tp cur ms none (2 ^ 64 - 1)) [
      | none ↦ cur
      | some mid ↦ push mid tp cur
    ])

abbrev pub orphans_of : List Tp → List Tp → List Tp
orphans_of assigned [] = []
orphans_of assigned (tp ∷ tps) =
    let rest = orphans_of assigned tps in if member tp assigned then rest else tp ∷ rest

insert_tp : Tp → List Tp → List Tp
insert_tp tp [] = tp ∷ []
insert_tp tp (u ∷ us) =
    let rest = insert_tp tp us in if pair_before u tp then u ∷ rest else tp ∷ u ∷ us

-- `v.sort()`
unfoldable pub sort_parts : List Tp → List Tp
unfolding insert_tp
sort_parts [] = []
sort_parts (tp ∷ tps) = insert_tp tp (sort_parts tps)

abbrev pub sort_buckets : Buckets → Buckets
sort_buckets [] = []
sort_buckets ((mid, b) ∷ cur) = (mid, sort_parts b) ∷ sort_buckets cur

-- The buckets after both passes.
unfoldable pub assign : (Str → Option (List ℕ)) → OrdMap Str Member → Buckets → Buckets
assign partitions ms previous =
    let all = all_partitions partitions ms [] in
    let target_max = div_ceil (length all) (length ms) in
    let (cur, assigned) = sticky target_max all ms previous (empty_buckets ms, []) in
    distribute target_max ms (orphans_of assigned all) cur

unfoldable pub recompute_assignment : (Str → Option (List ℕ)) → GroupState → GroupState
recompute_assignment partitions s =
    let assigned = sort_buckets (assign partitions s.members s.assignment) in
    record {
      generation = add_u64 s.generation 1;
      members = s.members;
      assignment = (if is_empty s.members then [] else assigned);
    }
