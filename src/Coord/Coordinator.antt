-- ===== src/Coord/Coordinator.antt =====
-- coord.rs: `GroupCoordinator`, its operations on all groups. The store of the groups' owners is `broker.groups`,
-- the partitions of a topic are `broker.topic`, and a fresh member id is drawn by the caller of `join`.
use event_stream.Prelude.{
  ℕ, Bool, true, ◌&&◌, not, Option, none, some, List, [], ◌∷◌, ltb, leb, if◌then◌else◌, length,
  is_empty, unwrap_or,
}
use event_stream.Prelude.Ordered.{Str, str_same, str_before, str_key, OrdMap, find, put}
use event_stream.Auth.{ApiKey}
use event_stream.Groups.{
  GroupStore, granted, refused, authorize_or_claim, validate_group_name, is_some, max_groups,
}
use event_stream.Coord.{GroupState}
use event_stream.Coord.Group.{
  bad_group, bad_member, no_topics, too_many_topics, no_such_topic, too_many_groups, not_authorized,
  CoordResult, replied, failed, JoinReply, HeartbeatReply, heartbeat_unknown, AssignmentReply,
  assignment_unknown, max_topics_per_member, validate_member_id, join_group, leave_group,
  heartbeat_group, assignment_group, expire_group, topics_of,
}

pub record GroupCoordinator : Type 0 where
  pub member_timeout : ℕ
  pub state : OrdMap Str GroupState

abbrev pub new_group : GroupState
new_group = record { generation = 0; members = []; assignment = [] }

-- The state of a group after its lock is released.
abbrev pub set_group : Str → GroupState → GroupCoordinator → GroupCoordinator
set_group g s c = record { member_timeout = c.member_timeout; state = put g s c.state }

insert_topic : Str → List Str → List Str
insert_topic t [] = t ∷ []
insert_topic t (u ∷ us) =
    let rest = insert_topic t us in if str_before u t then u ∷ rest else t ∷ u ∷ us

-- `topics.sort()`, `topics.dedup()`
unfoldable pub sort_topics : List Str → List Str
unfolding insert_topic
sort_topics [] = []
sort_topics (t ∷ ts) = insert_topic t (sort_topics ts)

unfoldable pub dedup : List Str → List Str
dedup [] = []
dedup (t ∷ []) = t ∷ []
dedup (t ∷ u ∷ ts) = let rest = dedup (u ∷ ts) in if str_same t u then rest else t ∷ rest

-- `member_id.filter(|s| !s.is_empty()).unwrap_or_else(generate_member_id)`
abbrev pub chosen_id : Option Str → Str → Str
chosen_id none fresh = fresh
chosen_id (some id) fresh = if is_empty id then fresh else id

module _ (partitions : Str → Option (List ℕ)) where
  abbrev pub all_exist : List Str → Bool
  all_exist [] = true
  all_exist (t ∷ ts) = is_some (partitions t) && all_exist ts

  -- `join`, from where the group's owner is known.
  unfoldable pub join_slot :
      ℕ
      → Str
      → Str
      → List Str
      → ApiKey
      → GroupCoordinator
      → GroupCoordinator × CoordResult JoinReply
  join_slot now g mid topics key c =
      if not (is_some (find g c.state)) && leb max_groups (length c.state)
      then (c, failed too_many_groups)
      else (let (s, answer) =
            join_group partitions now mid topics key (unwrap_or (find g c.state) new_group) in
          (set_group g s c, answer))

  unfoldable pub join_checked :
      ℕ
      → Str
      → Str
      → List Str
      → ApiKey
      → GroupStore
      → GroupCoordinator
      → GroupStore × GroupCoordinator × CoordResult JoinReply
  join_checked now g mid topics key gs c =
      let (owned, verdict) = authorize_or_claim g key gs in
      elim verdict [
        | refused e ↦ (owned, c, failed (not_authorized e))
        | granted en ↦
            let (joined, answer) = join_slot now g mid topics key c in (owned, joined, answer)
      ]

  unfoldable pub join :
      ℕ
      → Str
      → Str
      → ApiKey
      → Option Str
      → List Str
      → GroupStore
      → GroupCoordinator
      → GroupStore × GroupCoordinator × CoordResult JoinReply
  join now fresh g key member_id topics gs c =
      let mid = chosen_id member_id fresh in
      let wanted = dedup (sort_topics topics) in
      if not (validate_group_name g)
      then (gs, c, failed bad_group)
      else if not (validate_member_id mid)
      then (gs, c, failed bad_member)
      else if is_empty topics
      then (gs, c, failed no_topics)
      else if ltb max_topics_per_member (length wanted)
      then (gs, c, failed too_many_topics)
      else if not (all_exist wanted)
      then (gs, c, failed no_such_topic)
      else join_checked now g mid wanted key gs c

  unfoldable pub leave : Str → ApiKey → Str → GroupCoordinator → GroupCoordinator × CoordResult Unit
  leave g key mid c = elim (find g c.state) [
    | none ↦ (c, replied tt)
    | some s ↦ let (left, answer) = leave_group partitions key mid s in (set_group g left c, answer)
  ]

  abbrev pub expire_all : ℕ → ℕ → OrdMap Str GroupState → OrdMap Str GroupState
  expire_all timeout now [] = []
  expire_all timeout now ((g, s) ∷ more) =
      (g, expire_group partitions timeout now s) ∷ expire_all timeout now more

  unfoldable pub expire_stale : ℕ → GroupCoordinator → GroupCoordinator
  expire_stale now c = record {
    member_timeout = c.member_timeout;
    state = expire_all c.member_timeout now c.state;
  }

unfoldable pub heartbeat :
    ℕ → Str → ApiKey → Str → ℕ → GroupCoordinator → GroupCoordinator × CoordResult HeartbeatReply
heartbeat now g key mid generation c = elim (find g c.state) [
  | none ↦ (c, replied (heartbeat_unknown 0))
  | some s ↦
      let (beaten, answer) = heartbeat_group now key mid generation s in
      (set_group g beaten c, answer)
]

unfoldable pub assignment : Str → ApiKey → Str → GroupCoordinator → CoordResult AssignmentReply
assignment g key mid c = elim (find g c.state) [
  | none ↦ replied (assignment_unknown 0)
  | some s ↦ assignment_group key mid s
]

unfoldable pub group_topics : Str → GroupCoordinator → List Str
group_topics g c = elim (find g c.state) [ none ↦ [] | some s ↦ topics_of s.members [] ]
