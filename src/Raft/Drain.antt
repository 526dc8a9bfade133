-- ===== src/Raft/Drain.antt =====
-- crates/es-broker/src/raft/state.rs: handing committed entries to the state machine, and membership changes.
pub mod Applied
use event_stream.Prelude.{
  ℕ, zero, suc, ◌+◌, ◌-◌, ◌*◌, ◌/◌, ◌^◌, Bool, true, false, ◌&&◌, ◌||◌, not, Option, none, some,
  List, [], ◌∷◌, ◌++◌, map, ltb, leb, ◌==◌, if◌then◌else◌, option_eq, unwrap_or, add_u64,
  saturating_add, u64_max, min, max, length, is_empty, first, last, get_elem?, contains, set_insert,
  retain_ne, Map, lookup, insert, remove,
}
use event_stream.Prelude.Order.{sort}
use event_stream.Raft.Messages.{
  LogEntry, RequestVote, RequestVoteResp, AppendEntries, AppendEntriesResp, InstallSnapshot,
  InstallSnapshotResp, Message, request_vote, request_vote_resp, append_entries,
  append_entries_resp, install_snapshot, install_snapshot_resp, term, sender,
}
use event_stream.Raft.Config.{encode_config_change, decode_config_change}
use event_stream.Raft.Log.{
  Log, Appended, appended, empty_log, last_index, last_term, term_at, get, slice, slice_bounded,
  append_at, compact_through as compact_log, install_snapshot as install_in_log,
}
use event_stream.Raft.State.{
  max_append_entries, max_append_bytes, max_term_jump, Role, follower, candidate, leader, is_leader,
  is_candidate, Action, send_to, broadcast, reset_election_timer, apply, send_snapshot, PersistOp,
  hard_state, append, truncate_from, compact_through, RaftState, push, persist_hard_state, quorum,
  is_member,
}

unfoldable pub remove_peer : RaftState → ℕ → RaftState
remove_peer s id = record s {
  peers = retain_ne id s.peers;
  match_index = remove id s.match_index;
  next_index = remove id s.next_index;
  snapshot_cursor = remove id s.snapshot_cursor;
}

unfoldable pub remove_peers : List ℕ → RaftState → RaftState
unfolding remove_peer
remove_peers [] s = s
remove_peers (id ∷ ids) s = remove_peers ids (remove_peer s id)

unfoldable pub add_peer : RaftState → ℕ → RaftState
add_peer s id = if contains id s.peers || id == s.me then s else record s {
  peers = s.peers ++ id ∷ [];
  next_index = insert id 1 s.next_index;
  match_index = insert id 0 s.match_index;
}

unfoldable pub add_peers : List ℕ → RaftState → RaftState
add_peers [] s = s
add_peers (id ∷ ids) s = add_peers ids (add_peer s id)

unfoldable pub apply_config_change : RaftState → List ℕ → List ℕ → RaftState
unfolding remove_peers add_peers add_peer
apply_config_change s add gone =
    let s' = add_peers add (remove_peers gone s) in record s' { peers = sort s'.peers }

-- What one round of `drain_apply_actions` does with the entry under `last_applied`.
unfoldable pub drain_entry : RaftState → Option LogEntry → RaftState × List Action
drain_entry s none = (s, [])
drain_entry s (some e) =
    if is_empty e.payload then (s, []) else elim (decode_config_change e.payload) [
      | none ↦ (s, apply e ∷ [])
      | some (add, gone) ↦ (apply_config_change s add gone, [])
    ]

-- The loop runs while `last_applied < commit_index`, and no round changes `commit_index`: the
-- number is that of the rounds left.
unfoldable pub drain_rounds : ℕ → RaftState → RaftState × List Action
drain_rounds zero s = (s, [])
drain_rounds (suc n) s =
    let i = s.last_applied + 1 in
    let (s', out) = drain_entry (record s { last_applied = i }) (get s.log i) in
    let (s'', more) = drain_rounds n s' in (s'', out ++ more)

unfoldable pub drain_apply_actions : RaftState → RaftState × List Action
drain_apply_actions s = drain_rounds (s.commit_index - s.last_applied) s
