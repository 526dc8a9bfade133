-- ===== src/Raft/Elected.antt =====
-- raft/state.rs, `handle_request_vote_resp`: who becomes leader.
use event_stream.Prelude.{
  ◌≤◌, ◌≡◌, ◌≢◌, refl, inl, inr, true, false, ◌||◌, not, arith, ◌==◌, length, set_insert,
  Bool-cases,
}
use event_stream.Raft.Messages.{RequestVoteResp}
use event_stream.Raft.State.{Role, follower, candidate, leader, is_candidate, RaftState, quorum}
use event_stream.Raft.Election.{ignores_vote, with_vote, elected, handle_request_vote_resp}

-- A candidate won its election with this vote.
pub record Won (s : RaftState) (rvr : RequestVoteResp) : Type 0 where
  pub was : s.role ≡ candidate
  pub granted : rvr.vote_granted ≡ true
  pub same_term : rvr.term ≡ s.current_term
  pub majority : quorum s ≤ length (set_insert rvr.voter_id s.votes_received)

counted :
    (s : RaftState) (rvr : RequestVoteResp)
    → ignores_vote s rvr ≡ false
    → (s.role ≡ candidate) × (rvr.term ≡ s.current_term)
counted s rvr e = role_of s.role e
  where
    role_of :
        (r : Role)
        → (not (is_candidate r) || not (rvr.term == s.current_term)) ≡ false
        → (r ≡ candidate) × (rvr.term ≡ s.current_term)
    role_of follower e = absurd (cc e)
    role_of leader e = absurd (cc e)
    role_of candidate e = (refl, ground (arith, e))

-- A node that a vote makes leader was a candidate, the vote was granted to it in its own term, and
-- with it the votes on record are a quorum.
pub handle_request_vote_resp-Won :
    (s : RaftState) (rvr : RequestVoteResp)
    → s.role ≢ leader
    → (handle_request_vote_resp s rvr).0.role ≡ leader
    → Won s rvr
unfolding handle_request_vote_resp with_vote quorum
handle_request_vote_resp-Won s rvr before after = elim (Bool-cases (ignores_vote s rvr)) [
  | inl ignored ↦ absurd (before (rw ignored at after))
  | inr heard ↦ elim (Bool-cases rvr.vote_granted) [
    | inr denied ↦ absurd (before (rw (heard, denied) at after))
    | inl granted ↦ elim (Bool-cases (elected (with_vote s rvr.voter_id))) [
      | inr short ↦ absurd (before (rw (heard, granted, short) at after))
      | inl enough ↦
          let (was, same_term) = counted s rvr heard in
          record {
            was = was;
            granted = granted;
            same_term = same_term;
            majority = ground (arith, enough);
          }
    ]
  ]
]
