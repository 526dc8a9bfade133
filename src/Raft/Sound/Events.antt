-- ===== src/Raft/Sound/Events.antt =====
-- raft/state.rs: the invariant under every event.
use event_stream.Prelude.{
  ℕ, ◌≤◌, ◌<◌, ◌≡◌, refl, inl, inr, Bool, true, false, ◌||◌, not, Option, some, List, arith,
  if◌then◌else◌, leb, ltb, ◌==◌, Bool-cases, Option-cases, is_empty, min, unwrap_or,
}
use mathlib.Core.Path.{subst}
use mathlib.Core.Option.{some-injective}
use event_stream.Raft.Messages.{
  RequestVote, RequestVoteResp, AppendEntriesResp, InstallSnapshotResp, Message, request_vote,
  request_vote_resp, append_entries, append_entries_resp, install_snapshot, install_snapshot_resp,
  term, sender,
}
use event_stream.Raft.Log.{last_index, term_at, compact_through}
use event_stream.Raft.Log.Compact.{term_at_le, compact_through-Compacted}
use event_stream.Raft.State.{
  RaftState, persist_hard_state, is_leader, is_member, new, push, PersistOp,
}
use event_stream.Raft.Election.{
  step_down_to, stand, start_election, on_election_timeout, handle_request_vote, with_vote,
  ignores_vote, elected, handle_request_vote_resp,
}
use event_stream.Raft.Replication.{note_match, acknowledged, backed_off, handle_append_entries_resp}
use event_stream.Raft.Snapshot.{
  installed_on_peer, handle_install_snapshot_resp, PersistedSnapshot, take_snapshot, compacted,
}
use event_stream.Raft.Step.{dispatch, process, on_message_with_progress, try_propose, implausible}
use event_stream.Raft.Sound.{IsSound, HasRoom, Plausible}
use event_stream.Raft.Sound.Local.{
  SameLog, IsSound-same, drain-IsSound, recompute-IsSound, append_local-IsSound,
  become_leader-IsSound,
}
use event_stream.Raft.Sound.Follower.{
  handle_append_entries-IsSound, handle_install_snapshot-IsSound,
}

-- The log and what is committed and applied of it are untouched.
same :
    {s s' : RaftState}
    → s'.log ≡ s.log
    → s'.commit_index ≡ s.commit_index
    → s'.last_applied ≡ s.last_applied
    → SameLog s s'
same a b c = record { log = a; commit_index = b; last_applied = c }

pub step_down_to-SameLog : (s : RaftState) (t : ℕ) → SameLog s (step_down_to s t)
unfolding step_down_to persist_hard_state
step_down_to-SameLog s t = ground arith

stand-SameLog : (s : RaftState) → SameLog s (stand s)
unfolding stand persist_hard_state
stand-SameLog s = same refl refl refl

handle_request_vote-SameLog :
    (s : RaftState) (rv : RequestVote) → SameLog s (handle_request_vote s rv).0
unfolding handle_request_vote persist_hard_state
handle_request_vote-SameLog s rv = ground arith

with_vote-SameLog : (s : RaftState) (v : ℕ) → SameLog s (with_vote s v)
unfolding with_vote
with_vote-SameLog s v = same refl refl refl

HasRoom-same : {s s' : RaftState} → SameLog s s' → HasRoom s → HasRoom s'
HasRoom-same e room = rw e.log room

-- A handler that returns early under a test.
first-IsSound {ℓ} :
    (b : Bool) {A : Type ℓ} (r q : RaftState × A)
    → IsSound r.0
    → IsSound q.0
    → IsSound (if b then r else q).0
first-IsSound true r q h k = h
first-IsSound false r q h k = k

handle_request_vote_resp-IsSound :
    (s : RaftState) (rvr : RequestVoteResp)
    → HasRoom s
    → IsSound s
    → IsSound (handle_request_vote_resp s rvr).0
unfolding handle_request_vote_resp
handle_request_vote_resp-IsSound s rvr room h =
    let s1 : RaftState = with_vote s rvr.voter_id in
    let e : SameLog s s1 = with_vote-SameLog s rvr.voter_id in
    first-IsSound (ignores_vote s rvr) _ _ h (
      first-IsSound rvr.vote_granted _ _
        (first-IsSound (elected s1) _ _
          (become_leader-IsSound s1 (HasRoom-same e room) (IsSound-same e h)) (IsSound-same e h))
        h)

note_match-SameLog : (s : RaftState) (peer mi cur : ℕ) → SameLog s (note_match s peer mi cur)
note_match-SameLog s peer mi cur = ground arith

acknowledged-IsSound :
    (s : RaftState) (aer : AppendEntriesResp) → IsSound s → IsSound (acknowledged s aer).0
unfolding acknowledged
acknowledged-IsSound s aer h =
    recompute-IsSound _
      (IsSound-same (same refl refl refl) (IsSound-same (note_match-SameLog s _ _ _) h))

backed_off-IsSound :
    (s : RaftState) (aer : AppendEntriesResp) → IsSound s → IsSound (backed_off s aer).0
unfolding backed_off
backed_off-IsSound s aer h = IsSound-same (same refl refl refl) h

handle_append_entries_resp-IsSound :
    (s : RaftState) (aer : AppendEntriesResp)
    → IsSound s
    → IsSound (handle_append_entries_resp s aer).0
unfolding handle_append_entries_resp
handle_append_entries_resp-IsSound s aer h =
    first-IsSound (not (is_leader s.role) || not (aer.term == s.current_term)) _ _ h
      (first-IsSound aer.success _ _ (acknowledged-IsSound s aer h) (backed_off-IsSound s aer h))

installed_on_peer-IsSound :
    (s : RaftState) (isr : InstallSnapshotResp) → IsSound s → IsSound (installed_on_peer s isr).0
unfolding installed_on_peer
installed_on_peer-IsSound s isr h = recompute-IsSound _ (IsSound-same (same refl refl refl) h)

handle_install_snapshot_resp-IsSound :
    (s : RaftState) (isr : InstallSnapshotResp)
    → IsSound s
    → IsSound (handle_install_snapshot_resp s isr).0
unfolding handle_install_snapshot_resp
handle_install_snapshot_resp-IsSound s isr h =
    first-IsSound (not (is_leader s.role) || not (isr.term == s.current_term)) _ _ h (
      first-IsSound (not isr.success) _ _ h (
        first-IsSound (ltb 0 isr.installed_index) _ _ (installed_on_peer-IsSound s isr h)
          (IsSound-same (same refl refl refl) h)))

dispatch-IsSound :
    (s : RaftState) (msg : Message) (progress : ℕ)
    → HasRoom s
    → Plausible s msg
    → IsSound s
    → IsSound (dispatch s msg progress).0
unfolding dispatch
dispatch-IsSound s (request_vote rv) progress room ok h =
    IsSound-same (handle_request_vote-SameLog s rv) h
dispatch-IsSound s (request_vote_resp rvr) progress room ok h =
    handle_request_vote_resp-IsSound s rvr room h
dispatch-IsSound s (append_entries ae) progress room ok h = handle_append_entries-IsSound s ae h ok
dispatch-IsSound s (append_entries_resp aer) progress room ok h =
    handle_append_entries_resp-IsSound s aer h
dispatch-IsSound s (install_snapshot is) progress room ok h =
    handle_install_snapshot-IsSound s is progress h ok
dispatch-IsSound s (install_snapshot_resp isr) progress room ok h =
    handle_install_snapshot_resp-IsSound s isr h

pub Plausible-same :
    {s s' : RaftState} (msg : Message) → SameLog s s' → Plausible s msg → Plausible s' msg
Plausible-same (append_entries ae) e ok = ok
Plausible-same (install_snapshot is) e ok = (ok.0, rw (e.log, e.commit_index) ok.1)
Plausible-same _ e ok = tt

process-IsSound :
    (s : RaftState) (msg : Message) (progress : ℕ)
    → HasRoom s
    → Plausible s msg
    → IsSound s
    → IsSound (process s msg progress).0
unfolding process
process-IsSound s msg progress room ok h = elim (Bool-cases (ltb s.current_term (term msg))) [
  | inl newer ↦
      let s1 : RaftState = step_down_to s (term msg) in
      let e : SameLog s s1 = step_down_to-SameLog s (term msg) in
      rw newer (
        drain-IsSound _ (
          dispatch-IsSound s1 msg progress (HasRoom-same e room) (Plausible-same msg e ok)
            (IsSound-same e h)))
  | inr same_term ↦ rw same_term (drain-IsSound _ (dispatch-IsSound s msg progress room ok h))
]

-- From a sound node with an index to spare, every message that is plausible for it (no batch
-- overflows the indices, no finished snapshot contradicts committed history) leaves it sound.
pub on_message_with_progress-IsSound :
    (s : RaftState) (msg : Message) (progress : ℕ)
    → HasRoom s
    → Plausible s msg
    → IsSound s
    → IsSound (on_message_with_progress s msg progress).0
unfolding on_message_with_progress
on_message_with_progress-IsSound s msg progress room ok h =
    first-IsSound (not (is_member s (sender msg)) || implausible s (term msg)) _ _ h
      (process-IsSound s msg progress room ok h)

start_election-IsSound : (s : RaftState) → HasRoom s → IsSound s → IsSound (start_election s).0
unfolding start_election
start_election-IsSound s room h =
    let s1 : RaftState = stand s in
    let e : SameLog s s1 = stand-SameLog s in
    first-IsSound (is_empty s1.peers) _ _
      (drain-IsSound _ (become_leader-IsSound s1 (HasRoom-same e room) (IsSound-same e h)))
      (IsSound-same e h)

pub on_election_timeout-IsSound :
    (s : RaftState) → HasRoom s → IsSound s → IsSound (on_election_timeout s).0
unfolding on_election_timeout
on_election_timeout-IsSound s room h =
    first-IsSound (is_leader s.role) _ _ h (start_election-IsSound s room h)

pub try_propose-IsSound :
    (s : RaftState) (payload : List ℕ) → HasRoom s → IsSound s → IsSound (try_propose s payload).1
unfolding try_propose
try_propose-IsSound s payload room h = elim (Bool-cases (is_leader s.role)) [
  | inr other ↦ rw other h
  | inl leads ↦
      rw leads (drain-IsSound _ (recompute-IsSound _ (append_local-IsSound s payload room h)))
]

-- A new node is sound.
pub new-IsSound : (me : ℕ) (peers : List ℕ) → IsSound (new me peers)
unfolding new last_index
new-IsSound me peers = record {
  shape = tt;
  base_le = omega arith;
  applied_le = omega arith;
  commit_le = omega arith;
}

-- Taking a snapshot within what is applied keeps a node sound.
pub take_snapshot-IsSound :
    (s : RaftState) (bytes : List ℕ) (through : Option ℕ) (s' : RaftState)
    (snap : PersistedSnapshot)
    → HasRoom s
    → IsSound s
    → take_snapshot s bytes through ≡ some (s', snap)
    → IsSound s'
unfolding take_snapshot compacted
take_snapshot-IsSound s bytes requested s' snap room h e =
    let through : ℕ = min (unwrap_or requested s.last_applied) s.last_applied in
    elim (Bool-cases (through == 0 || leb through s.log.base_index)) [
      | inl nothing ↦ cc (rw nothing at e)
      | inr more ↦ elim (Option-cases (term_at s.log through)) [
        | inl missing ↦ cc (rw (more, missing) at e)
        | inr (t, found) ↦
            let above : s.log.base_index < through = ground arith in
            let le : through ≤ last_index s.log = term_at_le s.log through t h.shape found in
            let c = compact_through-Compacted s.log through t h.shape above le (omega arith) in
            let made : IsSound (
                push (PersistOp.compact_through through)
                  (record s { log = compact_through s.log through t })) =
              record {
                shape = c.shape;
                base_le = omega (arith, c.base_index);
                applied_le = h.applied_le;
                commit_le = omega (arith, c.last, h.commit_le);
              } in
            subst (λ (p : RaftState × PersistedSnapshot). IsSound p.0)
              (some-injective _ _ (rw (more, found) at e)) made
      ]
    ]
