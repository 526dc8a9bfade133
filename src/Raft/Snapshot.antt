-- ===== src/Raft/Snapshot.antt =====
-- crates/es-broker/src/raft/state.rs: snapshots.
use event_stream.Prelude.{
  ℕ, Bool, true, false, ◌||◌, not, Option, none, some, List, [], ◌∷◌, ltb, leb, ◌==◌, if◌then◌else◌,
  unwrap_or, add_u64, min, max, lookup, insert, remove,
}
use event_stream.Raft.Messages.{
  LogEntry, InstallSnapshot, InstallSnapshotResp, install_snapshot_resp,
}
use event_stream.Raft.Log.{
  last_index, term_at, compact_through as compact_log, install_snapshot as install_in_log,
}
use event_stream.Raft.State.{
  follower, is_leader, Action, send_to, reset_election_timer, send_snapshot, truncate_from,
  compact_through, RaftState, push, persist_hard_state,
}
use event_stream.Raft.Commit.{recompute_commit_index}
use event_stream.Raft.Replicate.{replicate_to}

-- The log part of a finished snapshot, and the operation that it records.
unfoldable pub install_log : RaftState → InstallSnapshot → RaftState
install_log s is =
    if ltb s.log.base_index is.last_index
    then (let (l, kept) = install_in_log s.log is.last_index is.last_term in
        push (if kept then compact_through is.last_index else truncate_from 0)
          (record s { log = l }))
    else s

unfoldable pub install_done : RaftState → InstallSnapshot → RaftState
install_done s is =
    let s1 = install_log s is in
    record s1 {
      commit_index = max is.last_index s1.commit_index;
      last_applied = max is.last_index s1.last_applied;
    }

unfoldable pub accept_snapshot_leader : RaftState → InstallSnapshot → RaftState
accept_snapshot_leader s is =
    let s1 : RaftState = record s { role = follower; leader_hint = some is.leader_id } in
    if ltb s.current_term is.term
    then persist_hard_state (record s1 { current_term = is.term; voted_for = none })
    else s1

snapshot_reply : InstallSnapshot → RaftState → Bool → ℕ → ℕ → Action
snapshot_reply is s success progress installed_index = send_to is.leader_id (
    install_snapshot_resp (record {
      term = s.current_term;
      success = success;
      responder_id = s.me;
      next_offset = progress;
      installed_index = installed_index;
    }))

unfoldable pub handle_install_snapshot : RaftState → InstallSnapshot → ℕ → RaftState × List Action
unfolding accept_snapshot_leader snapshot_reply
handle_install_snapshot s is progress =
    if ltb is.term s.current_term
    then (s, snapshot_reply is s false progress 0 ∷ [])
    else (let s1 = accept_snapshot_leader s is in
        let s2 = if is.done then install_done s1 is else s1 in
        let installed = if is.done then max is.last_index s2.log.base_index else 0 in
        (s2, snapshot_reply is s2 true progress installed ∷ reset_election_timer ∷ []))

-- The follower's log now starts after `installed_index`.
unfoldable pub installed_on_peer : RaftState → InstallSnapshotResp → RaftState × List Action
installed_on_peer s isr =
    let peer = isr.responder_id in
    let installed = min isr.installed_index (last_index s.log) in
    let mi = max (unwrap_or (lookup peer s.match_index) 0) installed in
    let s1 = recompute_commit_index (record s {
      match_index = insert peer mi s.match_index;
      next_index = insert peer (add_u64 mi 1) s.next_index;
      snapshot_cursor = remove peer s.snapshot_cursor;
    }) in
    (
      s1,
      if ltb mi (last_index s1.log) || ltb mi s1.log.base_index
          then replicate_to s1 peer ∷ []
          else [],
    )

unfoldable pub handle_install_snapshot_resp :
    RaftState → InstallSnapshotResp → RaftState × List Action
unfolding installed_on_peer
handle_install_snapshot_resp s isr =
    if not (is_leader s.role) || not (isr.term == s.current_term)
    then (s, [])
    else if not isr.success
    then (s, [])
    else if ltb 0 isr.installed_index
    then installed_on_peer s isr
    else (
      record s { snapshot_cursor = insert isr.responder_id isr.next_offset s.snapshot_cursor },
      send_snapshot isr.responder_id ∷ [],
    )

pub record PersistedSnapshot : Type 0 where
  pub last_index : ℕ
  pub last_term : ℕ
  pub bytes : List ℕ

pub record PersistedRaft : Type 0 where
  pub current_term : ℕ
  pub voted_for : Option ℕ
  pub log : List LogEntry

-- `PersistedRaft::from_runtime`
unfoldable pub snapshot_persistent : RaftState → PersistedRaft
snapshot_persistent s = record {
  current_term = s.current_term;
  voted_for = s.voted_for;
  log = s.log.entries;
}

-- `e.index <= last_index` of the first entry.
abbrev pub covers_first : List LogEntry → ℕ → Bool
covers_first [] i = false
covers_first (e ∷ es) i = leb e.index i

unfoldable pub restore_snapshot : RaftState → Option PersistedSnapshot → RaftState
restore_snapshot s none = s
restore_snapshot s (some snap) =
    let s1 =
      if covers_first s.log.entries snap.last_index
      then push (compact_through snap.last_index) s
      else s in
    record s1 {
      log = record (compact_log s1.log snap.last_index snap.last_term) {
        base_index = snap.last_index;
        base_term = snap.last_term;
      };
      commit_index = max snap.last_index s1.commit_index;
      last_applied = max snap.last_index s1.last_applied;
    }

-- `bail!` if the first entry does not follow the base.
unfoldable pub gap_free : RaftState → List LogEntry → Option RaftState
gap_free s [] = some s
gap_free s (e ∷ es) = if e.index == add_u64 s.log.base_index 1 then some s else none

unfoldable pub restore : RaftState → PersistedRaft → Option PersistedSnapshot → Option RaftState
unfolding restore_snapshot gap_free
restore s persisted snapshot =
    let s1 : RaftState = record s {
      current_term = persisted.current_term;
      voted_for = persisted.voted_for;
      log = record { entries = persisted.log; base_index = 0; base_term = 0 };
    } in
    let s2 = restore_snapshot s1 snapshot in gap_free s2 s2.log.entries

unfoldable pub compacted :
    RaftState → List ℕ → ℕ → Option ℕ → Option (RaftState × PersistedSnapshot)
compacted s bytes through none = none
compacted s bytes through (some t) = some (
  push (compact_through through) (record s { log = compact_log s.log through t }),
  record { last_index = through; last_term = t; bytes = bytes },
)

unfoldable pub take_snapshot :
    RaftState → List ℕ → Option ℕ → Option (RaftState × PersistedSnapshot)
take_snapshot s bytes requested =
    let through = min (unwrap_or requested s.last_applied) s.last_applied in
    if through == 0 || leb through s.log.base_index
    then none
    else compacted s bytes through (term_at s.log through)
