-- ===== src/Coord/Tests.antt =====
-- coord.rs: the theorems at a group of two members, one of which subscribes to the larger topic alone.
use event_stream.Prelude.{
  ℕ, ◌≤◌, ◌≡◌, refl, false, Option, none, some, List, [], ◌∷◌, arith, length, if◌then◌else◌,
}
use event_stream.Prelude.Ordered.{Str, str_same, str_key, pair_key}
use event_stream.Auth.{ApiKey}
use event_stream.Coord.{GroupState}
use event_stream.Coord.Assign.{
  div_ceil, all_partitions, recompute_assignment, assign, sticky, keep_parts, keep_one, keeps,
  distribute, best_member, sort_parts,
}
use event_stream.Coord.Assign.Once.{count_in}
use event_stream.Coord.Assign.Fair.{IsFair, recompute_assignment-IsFair}
use event_stream.Coord.Assign.Full.{IsServed}
use event_stream.Coord.Assign.Complete.{recompute_assignment-IsServed}
use event_stream.Coord.Coordinator.{new_group}
use event_stream.Coord.Fenced.{
  GroupEvent, joined, left, expired, beaten, step, run, IsFenced, step-IsFenced, run-IsDisjoint,
}

abbrev small : Str
small = 120 ∷ []

abbrev large : Str
large = 121 ∷ []

-- One partition of `small`, three of `large`.
abbrev partitions : Str → Option (List ℕ)
partitions t =
    if str_same t small
    then some (0 ∷ [])
    else if str_same t large
    then some (0 ∷ 1 ∷ 2 ∷ [])
    else none

abbrev key : ApiKey
key = record {
  key_id = 107 ∷ [];
  name = [];
  acls = [];
  produce_bytes_per_sec = none;
  consume_bytes_per_sec = none;
  created_at_ms = 0;
  disabled = false;
}

abbrev alice : Str
alice = 97 ∷ []

abbrev bob : Str
bob = 98 ∷ []

abbrev two_members : GroupState
two_members = record {
  generation = 3;
  members =
      (alice, record { id = alice; topics = small ∷ []; last_heartbeat = 0; owner = key.key_id })
      ∷ (bob, record { id = bob; topics = large ∷ []; last_heartbeat = 0; owner = key.key_id })
      ∷ [];
  assignment = [];
}

-- The last partition of `large` is assigned to no one.
left_over : count_in (large, 2) (recompute_assignment partitions two_members).assignment ≡ 0
unfolding recompute_assignment assign sticky keep_parts keep_one keeps distribute best_member
    sort_parts div_ceil
left_over = refl

at_most_two :
    div_ceil
      (length (all_partitions partitions two_members.members []))
      (length two_members.members)
    ≡ 2
unfolding div_ceil
at_most_two = refl

recompute_assignment-IsFair_example :
    IsFair
      (div_ceil
        (length (all_partitions partitions two_members.members []))
        (length two_members.members))
      (all_partitions partitions two_members.members [])
      two_members.members
      (recompute_assignment partitions two_members).assignment
recompute_assignment-IsFair_example = recompute_assignment-IsFair partitions two_members

recompute_assignment-IsServed_example :
    IsServed
      (div_ceil
        (length (all_partitions partitions two_members.members []))
        (length two_members.members))
      two_members.members
      (large, 2)
      (recompute_assignment partitions two_members).assignment
recompute_assignment-IsServed_example =
    recompute_assignment-IsServed partitions two_members (large, 2) refl
      (omega (arith, at_most_two)) refl

step-IsFenced_example :
    IsFenced two_members (step partitions (joined 5 alice (small ∷ large ∷ []) key) two_members)
step-IsFenced_example =
    step-IsFenced partitions (joined 5 alice (small ∷ large ∷ []) key) two_members

abbrev events : List ((Str → Option (List ℕ)) × GroupEvent)
events =
    (partitions, joined 0 alice (large ∷ []) key)
    ∷ (partitions, joined 1 bob (large ∷ small ∷ []) key)
    ∷ (partitions, beaten 9 key bob 2)
    ∷ (partitions, expired 5 10)
    ∷ (partitions, left key bob)
    ∷ []

run-IsDisjoint_example : count_in (large, 0) (run events new_group).assignment ≤ 1
run-IsDisjoint_example = run-IsDisjoint events (large, 0)
