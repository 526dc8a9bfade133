-- ===== src/Raft/Replication.antt =====
-- crates/es-broker/src/raft/state.rs: AppendEntries, on the follower and on the leader.
use event_stream.Prelude.{
  ℕ, ◌-◌, Bool, true, false, ◌||◌, not, Option, none, some, List, [], ◌∷◌, ◌++◌, ltb, leb, ◌==◌,
  if◌then◌else◌, option_eq, unwrap_or, saturating_add, u64_max, min, max, length, is_empty, lookup,
  insert,
}
use event_stream.Raft.Messages.{AppendEntries, AppendEntriesResp, append_entries_resp}
use event_stream.Raft.Log.{Log, Appended, appended, last_index, term_at, slice, append_at}
use event_stream.Raft.State.{
  follower, is_leader, Action, send_to, reset_election_timer, append, truncate_from, RaftState,
  persist_hard_state,
}
use event_stream.Raft.Commit.{recompute_commit_index}
use event_stream.Raft.Replicate.{replicate_to}

-- A newer leader is accepted with its term; the current term's leader is only noted.
unfoldable pub accept_leader : RaftState → AppendEntries → RaftState
accept_leader s ae =
    let s1 =
      if ltb s.current_term ae.term
      then persist_hard_state (record s { current_term = ae.term; voted_for = none })
      else s in
    record s1 { role = follower; leader_hint = some ae.leader_id }

unfoldable pub consistent : RaftState → AppendEntries → Bool
consistent s ae =
    if ae.prev_log_index == 0
    then true
    else if ltb ae.prev_log_index s.log.base_index
    then true
    else option_eq (term_at s.log ae.prev_log_index) (some ae.prev_log_term)

-- The log operations that a successful `append_at` records.
abbrev pub record_change : RaftState → Option ℕ → Log → RaftState
record_change s none l = record s { log = l }
record_change s (some j) l = record s {
  log = l;
  pending = (s.pending ++ truncate_from j ∷ []) ++ append (slice l j u64_max) ∷ [];
}

-- `none` if the append was refused.
abbrev pub apply_append : RaftState → Appended → Option RaftState
apply_append s Appended.refused = none
apply_append s (appended ch l) = some (record_change s ch l)

unfoldable pub append_from_leader : RaftState → AppendEntries → Option RaftState
append_from_leader s ae =
    if is_empty ae.entries
    then some s
    else apply_append s
        (append_at s.log (saturating_add ae.prev_log_index 1) ae.entries s.commit_index)

-- The commit index after an append that proves the log up to `last_new`.
unfoldable pub advance_commit : RaftState → ℕ → ℕ → RaftState
advance_commit s leader_commit last_new =
    if ltb s.commit_index leader_commit
    then record s { commit_index = max (min leader_commit last_new) s.commit_index }
    else s

-- The state, `success` and `match_index`, past the term check.
abbrev pub appended_or_not : RaftState → AppendEntries → Option RaftState → RaftState × Bool × ℕ
appended_or_not s ae none = (s, false, last_index s.log)
appended_or_not s ae (some s') =
    let last_new = saturating_add ae.prev_log_index (length ae.entries) in
    (advance_commit s' ae.leader_commit last_new, true, last_new)

unfoldable pub accept_entries : RaftState → AppendEntries → RaftState × Bool × ℕ
accept_entries s ae =
    if consistent s ae
    then appended_or_not s ae (append_from_leader s ae)
    else (s, false, last_index s.log)

append_reply : AppendEntries → RaftState → Bool → ℕ → Action
append_reply ae s success match_index = send_to ae.leader_id (
    append_entries_resp (record {
      term = s.current_term;
      success = success;
      responder_id = s.me;
      match_index = match_index;
    }))

unfoldable pub handle_append_entries : RaftState → AppendEntries → RaftState × List Action
unfolding append_reply
handle_append_entries s ae =
    if leb s.current_term ae.term
    then (let (s', success, match_index) = accept_entries (accept_leader s ae) ae in
        (s', append_reply ae s' success match_index ∷ reset_election_timer ∷ []))
    else (s, append_reply ae s false 0 ∷ [])

abbrev pub note_match : RaftState → ℕ → ℕ → ℕ → RaftState
note_match s peer mi cur =
    if ltb cur mi then record s { match_index = insert peer mi s.match_index } else s

-- A success: the peer's indices move up, and the commit index with them.
unfoldable pub acknowledged : RaftState → AppendEntriesResp → RaftState × List Action
acknowledged s aer =
    let peer = aer.responder_id in
    let mi = min aer.match_index (last_index s.log) in
    let cur = unwrap_or (lookup peer s.match_index) 0 in
    let s1 = note_match s peer mi cur in
    let mi' = max mi cur in
    let s2 =
      recompute_commit_index
        (record s1 { next_index = insert peer (saturating_add mi' 1) s1.next_index }) in
    (s2, if ltb mi' (last_index s2.log) then replicate_to s2 peer ∷ [] else [])

-- A rejection: step back, or to just past the follower's last entry.
unfoldable pub backed_off : RaftState → AppendEntriesResp → RaftState × List Action
backed_off s aer =
    let peer = aer.responder_id in
    let cur = unwrap_or (lookup peer s.next_index) 1 in
    let next = max (min (cur - 1) (saturating_add aer.match_index 1)) 1 in
    let s1 : RaftState = record s { next_index = insert peer next s.next_index } in
    (s1, replicate_to s1 peer ∷ [])

unfoldable pub handle_append_entries_resp : RaftState → AppendEntriesResp → RaftState × List Action
unfolding acknowledged backed_off
handle_append_entries_resp s aer =
    if not (is_leader s.role) || not (aer.term == s.current_term)
    then (s, [])
    else if aer.success
    then acknowledged s aer
    else backed_off s aer
