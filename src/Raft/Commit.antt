-- ===== src/Raft/Commit.antt =====
-- crates/es-broker/src/raft/state.rs: appending to the own log and moving the commit index.
pub mod Majority
use event_stream.Prelude.{
  ℕ, zero, suc, ◌+◌, ◌-◌, ◌*◌, ◌/◌, ◌^◌, Bool, true, false, ◌&&◌, ◌||◌, not, Option, none, some,
  List, [], ◌∷◌, ◌++◌, map, ltb, leb, ◌==◌, if◌then◌else◌, option_eq, unwrap_or, add_u64,
  saturating_add, u64_max, min, max, length, is_empty, first, last, get_elem?, contains, set_insert,
  retain_ne, Map, lookup, insert, remove,
}
use event_stream.Prelude.Order.{sort}
use event_stream.Raft.Messages.{
  LogEntry, RequestVote, RequestVoteResp, AppendEntries, AppendEntriesResp, InstallSnapshot,
  InstallSnapshotResp, Message, request_vote, request_vote_resp, append_entries,
  append_entries_resp, install_snapshot, install_snapshot_resp, term, sender,
}
use event_stream.Raft.Config.{encode_config_change, decode_config_change}
use event_stream.Raft.Log.{
  Log, Appended, appended, empty_log, last_index, last_term, term_at, get, slice, slice_bounded,
  append_at, compact_through as compact_log, install_snapshot as install_in_log,
}
use event_stream.Raft.State.{
  max_append_entries, max_append_bytes, max_term_jump, Role, follower, candidate, leader, is_leader,
  is_candidate, Action, send_to, broadcast, reset_election_timer, apply, send_snapshot, PersistOp,
  hard_state, append, truncate_from, compact_through, RaftState, push, persist_hard_state, quorum,
  is_member,
}

-- The multiset of replicated indices, of the current members and of the leader itself.
abbrev pub replicated : RaftState → List ℕ
replicated s = map (λ p. unwrap_or (lookup p s.match_index) 0) s.peers ++ last_index s.log ∷ []

-- `indices[n - quorum]` after the sort; out of bounds the source would panic.
unfoldable pub candidate_index : RaftState → Option ℕ
candidate_index s = get_elem? (sort (replicated s)) (length (replicated s) - quorum s)

abbrev pub commit_candidate : RaftState → Option ℕ → RaftState
commit_candidate s none = s
commit_candidate s (some c) =
    if ltb s.commit_index c && option_eq (term_at s.log c) (some s.current_term)
    then record s { commit_index = c }
    else s

unfoldable pub recompute_commit_index : RaftState → RaftState
recompute_commit_index s = commit_candidate s (candidate_index s)

unfoldable pub append_local : RaftState → List ℕ → RaftState × ℕ
append_local s payload =
    let next_idx = add_u64 (last_index s.log) 1 in
    let entry : LogEntry = record { term = s.current_term; index = next_idx; payload = payload } in
    (
      record s {
        pending = s.pending ++ append (entry ∷ []) ∷ [];
        log = record s.log { entries = s.log.entries ++ entry ∷ [] };
      },
      next_idx,
    )
