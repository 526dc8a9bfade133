-- ===== src/Raft/Tests/Nodes.antt =====
-- raft/state.rs: the theorems on one node, at concrete nodes.
use event_stream.Prelude.{
  ℕ, ◌+◌, ◌-◌, ◌*◌, ◌≤◌, ◌<◌, ◌≡◌, refl, true, false, none, some, [], ◌∷◌, arith,
}
use event_stream.Raft.Messages.{LogEntry, RequestVote, AppendEntries, append_entries}
use event_stream.Raft.Log.{last_index, last_term}
use event_stream.Raft.State.{
  RaftState, new, leader, candidate, follower, quorum, take_persist_ops, persist_hard_state,
}
use event_stream.Raft.Commit.{recompute_commit_index, candidate_index}
use event_stream.Raft.Commit.Majority.{Recomputed, recompute_commit_index-majority, quorum_majority}
use event_stream.Raft.Drain.{drain_apply_actions}
use event_stream.Raft.Drain.Applied.{SameCore, all_due, drain_apply_actions_lem}
use event_stream.Prelude.Order.{sort}
use event_stream.Raft.Elected.{Won, handle_request_vote_resp-Won}
use event_stream.Raft.Messages.{RequestVoteResp}
use event_stream.Raft.Election.{
  handle_request_vote_resp, with_vote, become_leader, settle, with_noop, lead, fresh_peers, grants,
  handle_request_vote,
}
use event_stream.Raft.Snapshot.{PersistedSnapshot, restore, snapshot_persistent}
use event_stream.Raft.Recovery.{ComesBack, restore-ComesBack}
use event_stream.Raft.Step.{on_message_with_progress}
use event_stream.Raft.Step.Advances.{Advances}
use event_stream.Raft.Sound.{IsSound, HasRoom}
use event_stream.Raft.Sound.Events.{on_message_with_progress-IsSound, new-IsSound}
use event_stream.Raft.Store.{Stored, persist, IsDurable}
use event_stream.Raft.Store.Events.{on_message_with_progress-IsDurable}
use event_stream.Raft.Run.{
  Node, Run, message, write, stop, then, Run-IsSound, Run-Advances, votes_once,
}

abbrev entry : ℕ → ℕ → LogEntry
entry t i = record { term = t; index = i; payload = 7 ∷ [] }

-- A new follower of three nodes, with empty files.
abbrev fresh : RaftState
fresh = new 1 (2 ∷ 3 ∷ [])

abbrev empty_files : Stored
empty_files = record { current_term = 0; voted_for = none; entries = [] }

fresh_room : HasRoom fresh
unfolding new last_index
fresh_room = omega arith

fresh-IsDurable : IsDurable empty_files fresh
unfolding new persist
fresh-IsDurable = refl

-- Two entries from the leader of term 3, the first committed.
abbrev batch : AppendEntries
batch = record {
  term = 3;
  leader_id = 2;
  prev_log_index = 0;
  prev_log_term = 0;
  entries = entry 2 1 ∷ entry 3 2 ∷ [];
  leader_commit = 1;
}

abbrev followed : RaftState
followed = (on_message_with_progress fresh (append_entries batch) 0).0

-- The follower takes the entries, then writes them.
abbrev written : Node
written = (persist empty_files (take_persist_ops followed).1, (take_persist_ops followed).0)

following : Run (empty_files, fresh) written
following =
    then
      (then stop
        (message {d = empty_files} {s = fresh} (append_entries batch) 0 fresh_room (omega arith)))
      write

on_message_with_progress-IsSound_example : IsSound followed
on_message_with_progress-IsSound_example =
    on_message_with_progress-IsSound fresh (append_entries batch) 0 fresh_room (omega arith)
      (new-IsSound 1 (2 ∷ 3 ∷ []))

on_message_with_progress-IsDurable_example : IsDurable empty_files followed
on_message_with_progress-IsDurable_example =
    on_message_with_progress-IsDurable empty_files fresh (append_entries batch) 0
      (new-IsSound 1 (2 ∷ 3 ∷ [])) (omega arith) fresh-IsDurable

Run-IsSound_example : IsSound written.1 × IsDurable written.0 written.1
Run-IsSound_example = Run-IsSound following (new-IsSound 1 (2 ∷ 3 ∷ [])) fresh-IsDurable

Run-Advances_example : Advances fresh written.1
Run-Advances_example = Run-Advances following

-- A candidate asks twice.
abbrev ask : RequestVote
ask = record { term = 3; candidate_id = 2; last_log_index = 5; last_log_term = 2 }

abbrev ask_again : RequestVote
ask_again = record ask { last_log_index = 6 }

abbrev voter : RaftState
voter = record {
  me = 1;
  peers = 2 ∷ 3 ∷ [];
  role = follower;
  current_term = 3;
  voted_for = none;
  leader_hint = none;
  log = record { entries = entry 1 1 ∷ entry 2 2 ∷ []; base_index = 0; base_term = 0 };
  commit_index = 2;
  last_applied = 1;
  match_index = [];
  next_index = [];
  snapshot_cursor = [];
  noop_on_elect = false;
  votes_received = [];
  pending = [];
}

voter-grants : grants voter ask ≡ true
unfolding grants last_index last_term
voter-grants = refl

asked_again : grants (handle_request_vote voter ask).0 ask_again ≡ true
unfolding handle_request_vote grants last_index last_term persist_hard_state
asked_again = refl

term_stays : (handle_request_vote voter ask).0.current_term ≡ 3
unfolding handle_request_vote grants last_index last_term persist_hard_state
term_stays = refl

votes_once_example : ask_again.candidate_id ≡ ask.candidate_id
votes_once_example =
    votes_once empty_files voter ask ask_again voter-grants stop term_stays asked_again

-- A leader of the same log, which a majority holds.
abbrev led : RaftState
led = record voter {
  role = leader;
  match_index = (2, 2) ∷ (3, 0) ∷ [];
  commit_index = 0;
  current_term = 2;
}

recompute_commit_index-majority_example :
    Recomputed led (recompute_commit_index led) × ((c : ℕ) × (candidate_index led ≡ some c))
recompute_commit_index-majority_example = recompute_commit_index-majority led

quorum_majority_example : (2 + 1 < 2 * quorum led) × (quorum led ≤ 2 + 1)
quorum_majority_example = quorum_majority led

drain_apply_actions_lem_example :
    ((drain_apply_actions voter).1 ≡ all_due voter.log 1 (2 - 1))
    × ((drain_apply_actions voter).0.last_applied ≡ (drain_apply_actions voter).0.commit_index)
    × SameCore voter (drain_apply_actions voter).0
drain_apply_actions_lem_example = drain_apply_actions_lem voter (omega arith)

voter-IsSound : IsSound voter
unfolding last_index
voter-IsSound = record {
  shape = (refl, (refl, tt));
  base_le = omega arith;
  applied_le = omega arith;
  commit_le = omega arith;
}

abbrev first_saved : PersistedSnapshot
first_saved = record { last_index = 1; last_term = 1; bytes = [] }

restore-ComesBack_example :
    (s' : RaftState) × (restore (new 1 (2 ∷ 3 ∷ [])) (snapshot_persistent voter) (some first_saved)
      ≡ some s')
    × ComesBack voter first_saved s'
restore-ComesBack_example =
    restore-ComesBack voter first_saved 1 (2 ∷ 3 ∷ []) voter-IsSound (omega arith) (omega arith)

-- A candidate of term 3 with its own vote, and the vote of node 2.
abbrev standing : RaftState
standing = record voter { role = candidate; voted_for = some 1; votes_received = 1 ∷ [] }

abbrev vote : RequestVoteResp
vote = record { term = 3; vote_granted = true; voter_id = 2 }

standing_leads : (handle_request_vote_resp standing vote).0.role ≡ leader
unfolding handle_request_vote_resp with_vote quorum become_leader settle with_noop lead
    recompute_commit_index candidate_index last_index fresh_peers sort
standing_leads = refl

handle_request_vote_resp-Won_example : Won standing vote
handle_request_vote_resp-Won_example =
    handle_request_vote_resp-Won standing vote (λ e. absurd (cc e)) standing_leads
