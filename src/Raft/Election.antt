-- ===== src/Raft/Election.antt =====
-- crates/es-broker/src/raft/state.rs: elections and votes.
use event_stream.Prelude.{
  ℕ, Bool, ◌&&◌, ◌||◌, not, none, some, List, [], ◌∷◌, ◌++◌, ltb, leb, ◌==◌, if◌then◌else◌,
  option_eq, add_u64, saturating_add, length, is_empty, last, set_insert, insert,
}
use event_stream.Raft.Messages.{RequestVote, RequestVoteResp, request_vote, request_vote_resp}
use event_stream.Raft.Log.{last_index, last_term}
use event_stream.Raft.State.{
  follower, candidate, leader, is_leader, is_candidate, Action, send_to, broadcast,
  reset_election_timer, RaftState, persist_hard_state, quorum,
}
use event_stream.Raft.Commit.{append_local, recompute_commit_index}
use event_stream.Raft.Drain.{drain_apply_actions}
use event_stream.Raft.Replicate.{on_heartbeat_tick}

unfoldable pub step_down_to : RaftState → ℕ → RaftState
step_down_to s t =
    let newer = ltb s.current_term t in
    let changed = newer || not (option_eq s.voted_for none) in
    let s1 : RaftState = record s {
      current_term = if newer then t else s.current_term;
      voted_for = none;
    } in
    let s2 = if changed then persist_hard_state s1 else s1 in
    record s2 {
      role = follower;
      votes_received = [];
      leader_hint = none;
      match_index = [];
      next_index = [];
      snapshot_cursor = [];
    }

-- `match_index` and `next_index` of every peer of a fresh leader.
unfoldable pub fresh_peers : ℕ → List ℕ → RaftState → RaftState
fresh_peers last [] s = s
fresh_peers last (p ∷ ps) s = fresh_peers last ps (record s {
  match_index = insert p 0 s.match_index;
  next_index = insert p (add_u64 last 1) s.next_index;
})

-- The role and the emptied maps of a new leader, before it writes.
unfoldable pub lead : RaftState → RaftState
lead s = record s {
  role = leader;
  leader_hint = some s.me;
  match_index = [];
  next_index = [];
  snapshot_cursor = [];
}

unfoldable pub with_noop : RaftState → RaftState
with_noop s = if s.noop_on_elect then (append_local s []).0 else s

unfoldable pub settle : RaftState → RaftState
settle s = record (fresh_peers (last_index s.log) s.peers s) { votes_received = [] }

unfoldable pub become_leader : RaftState → RaftState
become_leader s = recompute_commit_index (settle (with_noop (lead s)))

-- A candidate of the next term, with its own vote.
unfoldable pub stand : RaftState → RaftState
stand s =
    let s1 : RaftState = record s {
      current_term = saturating_add s.current_term 1;
      role = candidate;
      voted_for = some s.me;
    } in
    record (persist_hard_state s1) { votes_received = s.me ∷ []; leader_hint = none }

unfoldable pub start_election : RaftState → RaftState × List Action
start_election s =
    let s1 = stand s in
    if is_empty s1.peers
    then (let s2 = become_leader s1 in
        let out = on_heartbeat_tick s2 in
        let (s3, more) = drain_apply_actions s2 in (s3, out ++ more))
    else (
      s1,
      reset_election_timer
          ∷ broadcast (
              request_vote (record {
                term = s1.current_term;
                candidate_id = s1.me;
                last_log_index = last_index s1.log;
                last_log_term = last_term s1.log;
              }))
          ∷ [],
    )

unfoldable pub on_election_timeout : RaftState → RaftState × List Action
on_election_timeout s = if is_leader s.role then (s, []) else start_election s

-- The voter grants only to a log that is at least as up to date as its own.
abbrev pub up_to_date : RaftState → RequestVote → Bool
up_to_date s rv =
    ltb (last_term s.log) rv.last_log_term
    || (rv.last_log_term == last_term s.log && leb (last_index s.log) rv.last_log_index)

abbrev pub can_vote : RaftState → RequestVote → Bool
can_vote s rv = option_eq s.voted_for none || option_eq s.voted_for (some rv.candidate_id)

unfoldable pub grants : RaftState → RequestVote → Bool
grants s rv = leb s.current_term rv.term && (up_to_date s rv && can_vote s rv)

unfoldable pub handle_request_vote : RaftState → RequestVote → RaftState × List Action
handle_request_vote s rv =
    let grant = grants s rv in
    let s' =
      if grant && not (option_eq s.voted_for (some rv.candidate_id))
      then persist_hard_state (record s { voted_for = some rv.candidate_id })
      else s in
    let resp =
      request_vote_resp
        (record { term = s'.current_term; vote_granted = grant; voter_id = s'.me }) in
    (s', send_to rv.candidate_id resp ∷ (if grant then reset_election_timer ∷ [] else []))

unfoldable pub with_vote : RaftState → ℕ → RaftState
with_vote s voter = record s { votes_received = set_insert voter s.votes_received }

-- Only a candidate counts votes, and only those of its term.
abbrev pub ignores_vote : RaftState → RequestVoteResp → Bool
ignores_vote s rvr = not (is_candidate s.role) || not (rvr.term == s.current_term)

abbrev pub elected : RaftState → Bool
elected s = leb (quorum s) (length s.votes_received)

unfoldable pub handle_request_vote_resp : RaftState → RequestVoteResp → RaftState × List Action
handle_request_vote_resp s rvr =
    if ignores_vote s rvr
    then (s, [])
    else if rvr.vote_granted
    then (let s1 = with_vote s rvr.voter_id in
        if elected s1 then (let s2 = become_leader s1 in (s2, on_heartbeat_tick s2)) else (s1, []))
    else (s, [])
