-- ===== src/Raft/Step.antt =====
-- crates/es-broker/src/raft/state.rs: one message or one proposal.
pub mod Advances
use event_stream.Prelude.{
  ℕ, zero, suc, ◌+◌, ◌-◌, ◌*◌, ◌/◌, ◌^◌, Bool, true, false, ◌&&◌, ◌||◌, not, Option, none, some,
  List, [], ◌∷◌, ◌++◌, map, ltb, leb, ◌==◌, if◌then◌else◌, option_eq, unwrap_or, add_u64,
  saturating_add, u64_max, min, max, length, is_empty, first, last, get_elem?, contains, set_insert,
  retain_ne, Map, lookup, insert, remove,
}
use event_stream.Prelude.Order.{sort}
use event_stream.Raft.Messages.{
  LogEntry, RequestVote, RequestVoteResp, AppendEntries, AppendEntriesResp, InstallSnapshot,
  InstallSnapshotResp, Message, request_vote, request_vote_resp, append_entries,
  append_entries_resp, install_snapshot, install_snapshot_resp, term, sender,
}
use event_stream.Raft.Config.{encode_config_change, decode_config_change}
use event_stream.Raft.Log.{
  Log, Appended, appended, empty_log, last_index, last_term, term_at, get, slice, slice_bounded,
  append_at, compact_through as compact_log, install_snapshot as install_in_log,
}
use event_stream.Raft.State.{
  max_append_entries, max_append_bytes, max_term_jump, Role, follower, candidate, leader, is_leader,
  is_candidate, Action, send_to, broadcast, reset_election_timer, apply, send_snapshot, PersistOp,
  hard_state, append, truncate_from, compact_through, RaftState, push, persist_hard_state, quorum,
  is_member,
}
use event_stream.Raft.Commit.{append_local, recompute_commit_index}
use event_stream.Raft.Drain.{drain_apply_actions}
use event_stream.Raft.Election.{step_down_to, handle_request_vote, handle_request_vote_resp}
use event_stream.Raft.Replication.{handle_append_entries, handle_append_entries_resp}
use event_stream.Raft.Snapshot.{handle_install_snapshot, handle_install_snapshot_resp}

unfoldable pub dispatch : RaftState → Message → ℕ → RaftState × List Action
dispatch s (request_vote rv) progress = handle_request_vote s rv
dispatch s (request_vote_resp rvr) progress = handle_request_vote_resp s rvr
dispatch s (append_entries ae) progress = handle_append_entries s ae
dispatch s (append_entries_resp aer) progress = handle_append_entries_resp s aer
dispatch s (install_snapshot is) progress = handle_install_snapshot s is progress
dispatch s (install_snapshot_resp isr) progress = handle_install_snapshot_resp s isr

abbrev resets_timer : List Action → Bool
resets_timer [] = false
resets_timer (reset_election_timer ∷ rest) = true
resets_timer (a ∷ rest) = resets_timer rest

-- A term that no plausible run of elections reaches from ours.
abbrev pub implausible : RaftState → ℕ → Bool
implausible s t = ltb (saturating_add s.current_term max_term_jump) t || t == u64_max

-- A message that passed the two checks of `on_message_with_progress`.
unfoldable pub process : RaftState → Message → ℕ → RaftState × List Action
process s msg progress =
    let stepped_down = ltb s.current_term (term msg) in
    let s1 = if stepped_down then step_down_to s (term msg) else s in
    let (s2, actions) = dispatch s1 msg progress in
    let out =
      if stepped_down && not (resets_timer actions)
      then reset_election_timer ∷ actions
      else actions in
    let (s3, applied) = drain_apply_actions s2 in (s3, out ++ applied)

unfoldable pub on_message_with_progress : RaftState → Message → ℕ → RaftState × List Action
on_message_with_progress s msg progress =
    if not (is_member s (sender msg)) || implausible s (term msg)
    then (s, [])
    else process s msg progress

unfoldable pub on_message : RaftState → Message → RaftState × List Action
on_message s msg = on_message_with_progress s msg 0

pub data ProposeOutcome : Type 0 where
  accepted : ℕ → ProposeOutcome
  not_leader : Option ℕ → ProposeOutcome

unfoldable pub try_propose : RaftState → List ℕ → ProposeOutcome × RaftState × List Action
try_propose s payload =
    if is_leader s.role
    then (let (s1, next_idx) = append_local s payload in
        let (s2, actions) = drain_apply_actions (recompute_commit_index s1) in
        (accepted next_idx, s2, actions))
    else (not_leader s.leader_hint, s, [])

unfoldable pub try_change_membership :
    RaftState → List ℕ → List ℕ → ProposeOutcome × RaftState × List Action
try_change_membership s add gone =
    if is_leader s.role
    then try_propose s (encode_config_change add gone)
    else (not_leader s.leader_hint, s, [])
