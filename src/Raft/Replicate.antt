-- ===== src/Raft/Replicate.antt =====
-- crates/es-broker/src/raft/state.rs: what a leader sends to one peer.
use event_stream.Prelude.{ℕ, ◌-◌, List, [], map, leb, if◌then◌else◌, unwrap_or, lookup}
use event_stream.Raft.Messages.{Message, append_entries}
use event_stream.Raft.Log.{term_at, slice_bounded}
use event_stream.Raft.State.{
  max_append_entries, max_append_bytes, is_leader, Action, send_to, send_snapshot, RaftState,
}

unfoldable pub build_append_for : RaftState → ℕ → Message
build_append_for s peer =
    let next = unwrap_or (lookup peer s.next_index) 1 in
    let prev_log_index = next - 1 in
    append_entries (record {
      term = s.current_term;
      leader_id = s.me;
      prev_log_index = prev_log_index;
      prev_log_term = unwrap_or (term_at s.log prev_log_index) 0;
      entries = slice_bounded s.log next max_append_entries max_append_bytes;
      leader_commit = s.commit_index;
    })

unfoldable pub replicate_to : RaftState → ℕ → Action
replicate_to s peer =
    if leb (unwrap_or (lookup peer s.next_index) 1) s.log.base_index
    then send_snapshot peer
    else send_to peer (build_append_for s peer)

unfoldable pub on_heartbeat_tick : RaftState → List Action
on_heartbeat_tick s = if is_leader s.role then map (replicate_to s) s.peers else []
