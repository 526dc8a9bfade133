-- ===== src/Raft/Run.antt =====
-- crates/es-broker/src/raft: the life of one node between two restarts, as its driver runs it: a
-- message, a timeout, a proposal, a snapshot, and the writing of the pending operations, in any order.
use event_stream.Prelude.{
  arith, ℕ, ◌<◌, ◌≡◌, refl, ◌∙◌, sym, true, ◌||◌, Option, some, List, inl, inr, u64_max, option_eq,
  Bool-cases, Option-cases, leb, ◌==◌, min, unwrap_or,
}
use mathlib.Core.Path.{subst}
use mathlib.Core.Option.{some-injective}
use event_stream.Raft.Log.{term_at}
use event_stream.Raft.Messages.{RequestVote, Message}
use event_stream.Raft.State.{RaftState, take_persist_ops, persist_hard_state}
use event_stream.Raft.Commit.Majority.{option_eq-true}
use event_stream.Raft.Election.{on_election_timeout, can_vote, grants, handle_request_vote}
use event_stream.Raft.Snapshot.{PersistedSnapshot, take_snapshot, compacted}
use event_stream.Raft.Step.{on_message_with_progress, try_propose}
use event_stream.Raft.Step.Advances.{
  Advances, Advances-same, Advances-refl, Advances-trans, on_message_with_progress-Advances,
  on_election_timeout-Advances, try_propose-Advances,
}
use event_stream.Raft.Sound.{IsSound, HasRoom, Plausible}
use event_stream.Raft.Sound.Events.{
  on_message_with_progress-IsSound, on_election_timeout-IsSound, try_propose-IsSound,
  take_snapshot-IsSound,
}
use event_stream.Raft.Store.{Stored, persist, IsDurable}
use event_stream.Raft.Store.Events.{
  on_message_with_progress-IsDurable, on_election_timeout-IsDurable, try_propose-IsDurable,
  take_snapshot-IsDurable,
}

-- A node and what its files hold.
abbrev pub Node : Type 0
Node = Stored × RaftState

pub data Step : Node → Node → Type 0 where
  message :
      {d : Stored} {s : RaftState} (msg : Message) (progress : ℕ)
      → HasRoom s
      → Plausible s msg
      → Step (d, s) (d, (on_message_with_progress s msg progress).0)
  timeout :
      {d : Stored} {s : RaftState}
      → HasRoom s
      → s.current_term < u64_max
      → Step (d, s) (d, (on_election_timeout s).0)
  propose :
      {d : Stored} {s : RaftState} (payload : List ℕ)
      → HasRoom s
      → Step (d, s) (d, (try_propose s payload).1)
  snapshot :
      {d : Stored} {s s' : RaftState} {snap : PersistedSnapshot} (bytes : List ℕ)
      (through : Option ℕ)
      → HasRoom s
      → take_snapshot s bytes through ≡ some (s', snap)
      → Step (d, s) (d, s')
  write :
      {d : Stored} {s : RaftState}
      → Step (d, s) (persist d (take_persist_ops s).1, (take_persist_ops s).0)

pub data Run : Node → Node → Type 0 where
  stop : {n : Node} → Run n n
  then : {a b c : Node} → Run a b → Step b c → Run a c

Step-IsSound :
    {a b : Node} → Step a b → IsSound a.1 → IsDurable a.0 a.1 → IsSound b.1 × IsDurable b.0 b.1
unfolding take_persist_ops persist
Step-IsSound (message {d} {s} msg progress room ok) h k = (
  on_message_with_progress-IsSound s msg progress room ok h,
  on_message_with_progress-IsDurable d s msg progress h ok k,
)
Step-IsSound (timeout {d} {s} room lt) h k =
    (on_election_timeout-IsSound s room h, on_election_timeout-IsDurable d s k)
Step-IsSound (propose {d} {s} payload room) h k =
    (try_propose-IsSound s payload room h, try_propose-IsDurable d s payload k)
Step-IsSound (snapshot {d} {s} {s'} {snap} bytes through room e) h k = (
  take_snapshot-IsSound s bytes through s' snap room h e,
  take_snapshot-IsDurable d s bytes through s' snap room h e k,
)
Step-IsSound (write {d} {s}) h k = (
  record {
    shape = h.shape;
    base_le = h.base_le;
    applied_le = h.applied_le;
    commit_le = h.commit_le;
  },
  k,
)

-- Whatever sequence of messages, timeouts, proposals, snapshots and writes a node goes through (no
-- message implausible, an index and a term to spare at each), a node that starts sound and whose
-- pending writes lead to its state stays so: its log has no gap, base ≤ applied ≤ committed ≤ last,
-- and writing what is pending brings the files to its term, vote and log.
pub Run-IsSound :
    {a b : Node} → Run a b → IsSound a.1 → IsDurable a.0 a.1 → IsSound b.1 × IsDurable b.0 b.1
Run-IsSound stop h k = (h, k)
Run-IsSound (then run step) h k = let (h', k') = Run-IsSound run h k in Step-IsSound step h' k'

take_snapshot-Advances :
    (s : RaftState) (bytes : List ℕ) (through : Option ℕ) (s' : RaftState)
    (snap : PersistedSnapshot)
    → take_snapshot s bytes through ≡ some (s', snap)
    → Advances s s'
unfolding take_snapshot compacted
take_snapshot-Advances s bytes requested s' snap e =
    let through : ℕ = min (unwrap_or requested s.last_applied) s.last_applied in
    elim (Bool-cases (through == 0 || leb through s.log.base_index)) [
      | inl nothing ↦ cc (rw nothing at e)
      | inr more ↦ elim (Option-cases (term_at s.log through)) [
        | inl missing ↦ cc (rw (more, missing) at e)
        | inr (t, found) ↦
            subst (λ (p : RaftState × PersistedSnapshot). Advances s p.0)
              (some-injective _ _ (rw (more, found) at e))
              (Advances-same (record {
                me = refl;
                current_term = refl;
                voted_for = refl;
                commit_index = refl;
                last_applied = refl;
              }))
      ]
    ]

Step-Advances : {a b : Node} → Step a b → Advances a.1 b.1
unfolding take_persist_ops
Step-Advances (message {d} {s} msg progress room ok) =
    on_message_with_progress-Advances s msg progress
Step-Advances (timeout {d} {s} room lt) = on_election_timeout-Advances s lt
Step-Advances (propose {d} {s} payload room) = try_propose-Advances s payload
Step-Advances (snapshot {d} {s} {s'} {snap} bytes through room e) =
    take_snapshot-Advances s bytes through s' snap e
Step-Advances (write {d} {s}) = Advances-same (record {
  me = refl;
  current_term = refl;
  voted_for = refl;
  commit_index = refl;
  last_applied = refl;
})

-- In a run of one node (no message implausible, an index and a term to spare at each) neither its term nor its commit index nor what it has applied ever goes back,
-- and a vote stays for as long as its term does.
pub Run-Advances : {a b : Node} → Run a b → Advances a.1 b.1
Run-Advances (stop {n}) = Advances-refl n.1
Run-Advances (then run step) = Advances-trans (Run-Advances run) (Step-Advances step)

-- A granted vote is on record.
handle_request_vote-votes :
    (s : RaftState) (rv : RequestVote)
    → grants s rv ≡ true
    → ((handle_request_vote s rv).0.voted_for ≡ some rv.candidate_id)
      × ((handle_request_vote s rv).0.current_term ≡ s.current_term)
unfolding handle_request_vote persist_hard_state
handle_request_vote-votes s rv granted =
    elim (Bool-cases (option_eq s.voted_for (some rv.candidate_id))) [
      | inl again ↦ rw (granted, again) (option_eq-true s.voted_for rv.candidate_id again, refl)
      | inr first ↦ rw (granted, first) (refl, refl)
    ]

grants-can_vote : (s : RaftState) (rv : RequestVote) → grants s rv ≡ true → can_vote s rv ≡ true
unfolding grants
grants-can_vote s rv granted = ground (arith, granted)

-- Whatever run of events (no message implausible, an index and a term to spare at each) a node goes
-- through after it granted its vote to a candidate, a candidate that it grants its vote to in the
-- same term is the same one.
pub votes_once :
    (d : Stored) (s : RaftState) {b : Node} (rv rv' : RequestVote)
    → grants s rv ≡ true
    → Run (d, (handle_request_vote s rv).0) b
    → b.1.current_term ≡ s.current_term
    → grants b.1 rv' ≡ true
    → rv'.candidate_id ≡ rv.candidate_id
votes_once d s {b} rv rv' granted run same_term again =
    let (voted, at_term) = handle_request_vote-votes s rv granted in
    let s1 : RaftState = (handle_request_vote s rv).0 in
    let can : can_vote b.1 rv' ≡ true = grants-can_vote b.1 rv' again in
    let after : b.1.voted_for ≡ some rv.candidate_id =
      elim ((Run-Advances run).vote (same_term ∙ sym at_term)) [
        | inl nobody ↦ absurd (cc (sym nobody ∙ voted))
        | inr stays ↦ stays ∙ voted
      ] in
    let told : can_vote (record b.1 { voted_for = some rv.candidate_id }) rv' ≡ true =
      rw after at can in
    ground (arith, told)
