-- ===== src/Coord/Group.antt =====
-- coord.rs: what the operations do to the state of one group, under its lock.
use event_stream.Prelude.{
  ℕ, ◌-◌, Bool, true, false, ◌&&◌, ◌||◌, not, Option, none, some, List, [], ◌∷◌, ltb, leb, ◌==◌,
  if◌then◌else◌, length, is_empty, unwrap_or,
}
use event_stream.Prelude.Ordered.{Str, str_same, str_key, OrdMap, find, put, delete, modify, add}
use event_stream.Auth.{ApiKey, is_admin, all_name_chars}
use event_stream.Groups.{GroupError, is_some}
use event_stream.Coord.{Tp, Member, GroupState}
use event_stream.Coord.Assign.{recompute_assignment}

abbrev pub max_topics_per_member : ℕ
max_topics_per_member = 100

abbrev pub max_members_per_group : ℕ
max_members_per_group = 1000

-- The errors of `join`, `heartbeat`, `leave` and `assignment`.
pub data CoordError : Type 0 where
  bad_group bad_member no_topics too_many_topics no_such_topic too_many_groups : CoordError
  too_many_members member_forbidden : CoordError
  not_authorized : GroupError → CoordError

pub data CoordResult (A : Type 0) : Type 0 where
  replied : A → CoordResult A
  failed : CoordError → CoordResult A

pub record JoinReply : Type 0 where
  pub member_id : Str
  pub generation : ℕ
  pub assignment : List Tp

pub data HeartbeatReply : Type 0 where
  alive : ℕ → HeartbeatReply
  rebalance_required : ℕ → HeartbeatReply
  heartbeat_unknown : ℕ → HeartbeatReply

pub data AssignmentReply : Type 0 where
  assigned : ℕ → List Tp → AssignmentReply
  assignment_unknown : ℕ → AssignmentReply

unfoldable pub validate_member_id : Str → Bool
validate_member_id id = if is_empty id || ltb 200 (length id) then false else all_name_chars id

-- `m.owner != key.key_id && !key.is_admin()`
abbrev pub is_other : Member → ApiKey → Bool
is_other m key = not (str_same m.owner key.key_id) && not (is_admin key)

-- `existing.topics != topics`
abbrev pub topics_same : List Str → List Str → Bool
topics_same [] [] = true
topics_same [] (u ∷ us) = false
topics_same (t ∷ ts) [] = false
topics_same (t ∷ ts) (u ∷ us) = str_same t u && topics_same ts us

abbrev pub with_members : OrdMap Str Member → GroupState → GroupState
with_members ms s = record { generation = s.generation; members = ms; assignment = s.assignment }

abbrev pub share : Str → GroupState → List Tp
share mid s = unwrap_or (find mid s.assignment) []

abbrev pub reply_of : Str → GroupState → JoinReply
reply_of mid s = record { member_id = mid; generation = s.generation; assignment = share mid s }

-- The heartbeat is the time of the call.
abbrev pub subscribe : List Str → ℕ → Member → Member
subscribe topics now m = record {
  id = m.id;
  topics = topics;
  last_heartbeat = now;
  owner = m.owner;
}

abbrev pub beat : ℕ → Member → Member
beat now m = subscribe m.topics now m

-- Whether a member was silent for longer than the timeout; an `Instant` never runs back.
abbrev pub is_stale : ℕ → ℕ → Member → Bool
is_stale timeout now m = ltb timeout (now - m.last_heartbeat)

abbrev pub stale_ids : ℕ → ℕ → OrdMap Str Member → List Str
stale_ids timeout now [] = []
stale_ids timeout now ((mid, m) ∷ ms) =
    let rest = stale_ids timeout now ms in if is_stale timeout now m then mid ∷ rest else rest

abbrev pub delete_all : List Str → OrdMap Str Member → OrdMap Str Member
delete_all [] ms = ms
delete_all (mid ∷ mids) ms = delete_all mids (delete mid ms)

module _ (partitions : Str → Option (List ℕ)) where
  unfoldable pub rejoin : ℕ → Str → List Str → Member → GroupState → GroupState
  rejoin now mid topics m s =
      let updated = with_members (modify mid (subscribe topics now) s.members) s in
      if topics_same m.topics topics then updated else recompute_assignment partitions updated

  unfoldable pub join_new : ℕ → Str → List Str → ApiKey → GroupState → GroupState
  join_new now mid topics key s =
      let m : Member = record {
        id = mid;
        topics = topics;
        last_heartbeat = now;
        owner = key.key_id;
      } in
      recompute_assignment partitions (with_members (put mid m s.members) s)

  -- `join`, from where it holds the group's lock.
  unfoldable pub join_group :
      ℕ → Str → List Str → ApiKey → GroupState → GroupState × CoordResult JoinReply
  join_group now mid topics key s =
      if not (is_some (find mid s.members)) && leb max_members_per_group (length s.members)
      then (s, failed too_many_members)
      else elim (find mid s.members) [
        | some m ↦
            if is_other m key
            then (s, failed member_forbidden)
            else (let joined = rejoin now mid topics m s in (joined, replied (reply_of mid joined)))
        | none ↦
            let joined = join_new now mid topics key s in (joined, replied (reply_of mid joined))
      ]

  unfoldable pub leave_group : ApiKey → Str → GroupState → GroupState × CoordResult Unit
  leave_group key mid s = elim (find mid s.members) [
    | none ↦ (s, replied tt)
    | some m ↦
        if is_other m key
        then (s, failed member_forbidden)
        else (recompute_assignment partitions (with_members (delete mid s.members) s), replied tt)
  ]

  -- One group's turn in `expire_stale`.
  unfoldable pub expire_group : ℕ → ℕ → GroupState → GroupState
  expire_group timeout now s =
      let stale = stale_ids timeout now s.members in
      if is_empty stale
      then s
      else recompute_assignment partitions (with_members (delete_all stale s.members) s)

unfoldable pub heartbeat_group :
    ℕ → ApiKey → Str → ℕ → GroupState → GroupState × CoordResult HeartbeatReply
heartbeat_group now key mid generation s = elim (find mid s.members) [
  | none ↦ (s, replied (heartbeat_unknown s.generation))
  | some m ↦ if is_other m key then (s, failed member_forbidden) else (
    with_members (modify mid (beat now) s.members) s,
    replied (
        if generation == s.generation then alive s.generation else rebalance_required s.generation),
  )
]

unfoldable pub assignment_group : ApiKey → Str → GroupState → CoordResult AssignmentReply
assignment_group key mid s = elim (find mid s.members) [
  | none ↦ replied (assignment_unknown s.generation)
  | some m ↦
      if is_other m key
      then failed member_forbidden
      else replied (assigned s.generation (share mid s))
]

abbrev pub add_all : List Str → List Str → List Str
add_all [] acc = acc
add_all (t ∷ ts) acc = add_all ts (add t acc)

-- `group_topics`, of a known group.
abbrev pub topics_of : OrdMap Str Member → List Str → List Str
topics_of [] acc = acc
topics_of ((mid, m) ∷ ms) acc = topics_of ms (add_all m.topics acc)
