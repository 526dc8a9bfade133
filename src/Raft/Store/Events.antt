-- ===== src/Raft/Store/Events.antt =====
-- raft/state.rs: whatever a node does, its pending writes lead from the files to its state.
use event_stream.Prelude.{
  ◌-◌, ◌<◌, ◌≡◌, refl, ap, sym, ◌∙◌, inl, inr, Bool, true, false, ◌&&◌, ◌||◌, not, none, some, List,
  [], ◌∷◌, arith, if◌then◌else◌, ltb, ◌≤◌, ℕ, min, unwrap_or, Option, Option-cases, ltb→lt, leb,
  ◌==◌, option_eq, Bool-cases, is_empty,
}
use mathlib.Core.Path.{subst}
use mathlib.Core.Option.{some-injective}
use event_stream.Raft.Messages.{
  RequestVote, RequestVoteResp, AppendEntries, AppendEntriesResp, InstallSnapshot,
  InstallSnapshotResp, Message, request_vote, request_vote_resp, append_entries,
  append_entries_resp, install_snapshot, install_snapshot_resp, term, sender,
}
use event_stream.Raft.Log.{Log, last_index, term_at}
use event_stream.Raft.Log.Compact.{term_at_le}
use event_stream.Raft.State.{RaftState, PersistOp, persist_hard_state, is_leader, is_member}
use event_stream.Raft.Commit.{recompute_commit_index, append_local}
use event_stream.Raft.Commit.Majority.{Recomputed, stayed, moved, recompute_commit_index-majority}
use event_stream.Raft.Drain.{drain_apply_actions}
use event_stream.Raft.Drain.Applied.{drain_rounds_lem}
use event_stream.Raft.Election.{
  step_down_to, lead, with_noop, settle, fresh_peers, become_leader, stand, start_election,
  on_election_timeout, grants, handle_request_vote, with_vote, ignores_vote, elected,
  handle_request_vote_resp,
}
use event_stream.Raft.Replication.{
  accept_leader, handle_append_entries, note_match, acknowledged, backed_off,
  handle_append_entries_resp,
}
use event_stream.Raft.Snapshot.{
  PersistedSnapshot, take_snapshot, compacted, accept_snapshot_leader, handle_install_snapshot,
  installed_on_peer, handle_install_snapshot_resp,
}
use event_stream.Raft.Step.{dispatch, process, on_message_with_progress, try_propose, implausible}
use event_stream.Raft.Sound.{IsSound, HasRoom, Plausible}
use event_stream.Raft.Sound.Local.{SameLog, IsSound-same}
use event_stream.Raft.Sound.Follower.{accept_leader-SameLog, accept_snapshot_leader-SameLog}
use event_stream.Raft.Sound.Events.{step_down_to-SameLog, Plausible-same}
use event_stream.Raft.Store.{Stored, persist, IsDurable}
use event_stream.Raft.Store.Durable.{persist_hard_state-IsDurable, entries_of}
use event_stream.Raft.Store.Writes.{
  compact-IsDurable, SameDisk, IsDurable-same, append_local-IsDurable, accept_entries-IsDurable,
  install_done-IsDurable,
}

same :
    {s s' : RaftState}
    → s'.current_term ≡ s.current_term
    → s'.voted_for ≡ s.voted_for
    → s'.log.entries ≡ s.log.entries
    → s'.pending ≡ s.pending
    → SameDisk s s'
same a b c e = record { current_term = a; voted_for = b; entries = c; pending = e }

module _ (d : Stored) where
  drain-IsDurable : (s : RaftState) → IsDurable d s → IsDurable d (drain_apply_actions s).0
  unfolding drain_apply_actions
  drain-IsDurable s h =
      let (core, _, _) = drain_rounds_lem (s.commit_index - s.last_applied) s in
      let s' : RaftState = (drain_apply_actions s).0 in
      IsDurable-same d {s = s} {s' = s'}
        (record {
          current_term = core.current_term;
          voted_for = core.voted_for;
          entries = ap (λ (l : Log). l.entries) core.log;
          pending = core.pending;
        })
        h

  Recomputed-IsDurable : (s s' : RaftState) → Recomputed s s' → IsDurable d s → IsDurable d s'
  Recomputed-IsDurable s s' (stayed e) h = rw e h
  Recomputed-IsDurable s s' (moved c e up now held highest) h = rw e h

  recompute-IsDurable : (s : RaftState) → IsDurable d s → IsDurable d (recompute_commit_index s)
  recompute-IsDurable s h =
      Recomputed-IsDurable s (recompute_commit_index s) (recompute_commit_index-majority s).0 h

  -- A change of the term or the vote alone.
  new_hard_state :
      (s s' : RaftState)
      → s'.log.entries ≡ s.log.entries
      → s'.pending ≡ s.pending
      → IsDurable d s
      → IsDurable d (persist_hard_state s')
  new_hard_state s s' entries pending h = persist_hard_state-IsDurable d s' (
      ap (λ (ops : List PersistOp). (persist d ops).entries) pending
      ∙ entries_of d s h
      ∙ sym entries)

  first-IsDurable {ℓ} :
      (b : Bool) {A : Type ℓ} (r q : RaftState × A)
      → IsDurable d r.0
      → IsDurable d q.0
      → IsDurable d (if b then r else q).0
  first-IsDurable true r q h k = h
  first-IsDurable false r q h k = k

fresh_peers-SameDisk : (last : ℕ) (ps : List ℕ) (s : RaftState) → SameDisk s (fresh_peers last ps s)
unfolding fresh_peers
fresh_peers-SameDisk last [] s = same refl refl refl refl
fresh_peers-SameDisk last (p ∷ ps) s =
    let h = fresh_peers-SameDisk last ps _ in same h.current_term h.voted_for h.entries h.pending

module _ (d : Stored) where
  settle-IsDurable : (s : RaftState) → IsDurable d s → IsDurable d (settle s)
  unfolding settle
  settle-IsDurable s h =
      let e = fresh_peers-SameDisk (last_index s.log) s.peers s in
      IsDurable-same d {s = s} {s' = settle s}
        (record {
          current_term = e.current_term;
          voted_for = e.voted_for;
          entries = e.entries;
          pending = e.pending;
        })
        h

  with_noop-IsDurable : (s : RaftState) → IsDurable d s → IsDurable d (with_noop s)
  unfolding with_noop
  with_noop-IsDurable s h = go s.noop_on_elect
    where
      go : (b : Bool) → IsDurable d (if b then (append_local s []).0 else s)
      go true = append_local-IsDurable d s [] h
      go false = h

  lead-IsDurable : (s : RaftState) → IsDurable d s → IsDurable d (lead s)
  unfolding lead
  lead-IsDurable s h = h

  become_leader-IsDurable : (s : RaftState) → IsDurable d s → IsDurable d (become_leader s)
  unfolding become_leader
  become_leader-IsDurable s h =
      recompute-IsDurable d _ (settle-IsDurable _ (with_noop-IsDurable _ (lead-IsDurable s h)))

  step_down_to-IsDurable :
      (s : RaftState) (t : ℕ) → s.current_term < t → IsDurable d s → IsDurable d (step_down_to s t)
  unfolding step_down_to
  step_down_to-IsDurable s t lt h =
      let newer : ltb s.current_term t ≡ true = ground arith in
      let s1 : RaftState = record s { current_term = t; voted_for = none } in
      rw newer (new_hard_state d s s1 refl refl h)

  stand-IsDurable : (s : RaftState) → IsDurable d s → IsDurable d (stand s)
  unfolding stand
  stand-IsDurable s h = new_hard_state d s _ refl refl h

  handle_request_vote-IsDurable :
      (s : RaftState) (rv : RequestVote) → IsDurable d s → IsDurable d (handle_request_vote s rv).0
  unfolding handle_request_vote
  handle_request_vote-IsDurable s rv h =
      go (grants s rv && not (option_eq s.voted_for (some rv.candidate_id)))
    where
      s1 : RaftState
      s1 = record s { voted_for = some rv.candidate_id }

      go : (b : Bool) → IsDurable d (if b then persist_hard_state s1 else s)
      go true = new_hard_state d s s1 refl refl h
      go false = h

  handle_request_vote_resp-IsDurable :
      (s : RaftState) (rvr : RequestVoteResp)
      → IsDurable d s
      → IsDurable d (handle_request_vote_resp s rvr).0
  unfolding handle_request_vote_resp with_vote
  handle_request_vote_resp-IsDurable s rvr h = first-IsDurable d (ignores_vote s rvr) _ _ h (
      first-IsDurable d rvr.vote_granted _ _
        (first-IsDurable d (elected (with_vote s rvr.voter_id)) _ _ (become_leader-IsDurable _ h) h)
        h)

  accept_leader-IsDurable :
      (s : RaftState) (ae : AppendEntries) → IsDurable d s → IsDurable d (accept_leader s ae)
  unfolding accept_leader
  accept_leader-IsDurable s ae h = elim (Bool-cases (ltb s.current_term ae.term)) [
    | inl newer ↦
        let s1 : RaftState = record s { current_term = ae.term; voted_for = none } in
        rw newer (new_hard_state d s s1 refl refl h)
    | inr now ↦ rw now h
  ]

  handle_append_entries-IsDurable :
      (s : RaftState) (ae : AppendEntries)
      → IsSound s
      → Plausible s (append_entries ae)
      → IsDurable d s
      → IsDurable d (handle_append_entries s ae).0
  unfolding handle_append_entries
  handle_append_entries-IsDurable s ae sound ok h =
      first-IsDurable d (leb s.current_term ae.term) _ _
        (accept_entries-IsDurable d (accept_leader s ae) ae
          (IsSound-same (accept_leader-SameLog s ae) sound).shape ok
          (accept_leader-IsDurable s ae h))
        h

  note_match-SameDisk : (s : RaftState) (peer mi cur : ℕ) → SameDisk s (note_match s peer mi cur)
  note_match-SameDisk s peer mi cur = ground arith

  acknowledged-IsDurable :
      (s : RaftState) (aer : AppendEntriesResp) → IsDurable d s → IsDurable d (acknowledged s aer).0
  unfolding acknowledged
  acknowledged-IsDurable s aer h =
      recompute-IsDurable d _ (IsDurable-same d (note_match-SameDisk s _ _ _) h)

  handle_append_entries_resp-IsDurable :
      (s : RaftState) (aer : AppendEntriesResp)
      → IsDurable d s
      → IsDurable d (handle_append_entries_resp s aer).0
  unfolding handle_append_entries_resp backed_off
  handle_append_entries_resp-IsDurable s aer h =
      first-IsDurable d (not (is_leader s.role) || not (aer.term == s.current_term)) _ _ h
        (first-IsDurable d aer.success _ _ (acknowledged-IsDurable s aer h) h)

  accept_snapshot_leader-IsDurable :
      (s : RaftState) (is : InstallSnapshot)
      → IsDurable d s
      → IsDurable d (accept_snapshot_leader s is)
  unfolding accept_snapshot_leader
  accept_snapshot_leader-IsDurable s is h = elim (Bool-cases (ltb s.current_term is.term)) [
    | inl newer ↦ rw newer (new_hard_state d s _ refl refl h)
    | inr now ↦ rw now h
  ]

  handle_install_snapshot-IsDurable :
      (s : RaftState) (is : InstallSnapshot) (progress : ℕ)
      → IsSound s
      → Plausible s (install_snapshot is)
      → IsDurable d s
      → IsDurable d (handle_install_snapshot s is progress).0
  unfolding handle_install_snapshot
  handle_install_snapshot-IsDurable s is progress sound ok h =
      let s1 : RaftState = accept_snapshot_leader s is in
      let h1 : IsDurable d s1 = accept_snapshot_leader-IsDurable s is h in
      let shape = (IsSound-same (accept_snapshot_leader-SameLog s is) sound).shape in
      elim (Bool-cases (ltb is.term s.current_term)) [
        | inl old ↦ rw old h
        | inr now ↦ elim (Bool-cases is.done) [
          | inr chunk ↦ rw (now, chunk) h1
          | inl done ↦ simp (now, done) (install_done-IsDurable d s1 is shape ok.0 h1)
        ]
      ]

  handle_install_snapshot_resp-IsDurable :
      (s : RaftState) (isr : InstallSnapshotResp)
      → IsDurable d s
      → IsDurable d (handle_install_snapshot_resp s isr).0
  unfolding handle_install_snapshot_resp installed_on_peer
  handle_install_snapshot_resp-IsDurable s isr h =
      first-IsDurable d (not (is_leader s.role) || not (isr.term == s.current_term)) _ _ h (
        first-IsDurable d (not isr.success) _ _ h
          (first-IsDurable d (ltb 0 isr.installed_index) _ _ (recompute-IsDurable d _ h) h))

  dispatch-IsDurable :
      (s : RaftState) (msg : Message) (progress : ℕ)
      → IsSound s
      → Plausible s msg
      → IsDurable d s
      → IsDurable d (dispatch s msg progress).0
  unfolding dispatch
  dispatch-IsDurable s (request_vote rv) progress sound ok h = handle_request_vote-IsDurable s rv h
  dispatch-IsDurable s (request_vote_resp rvr) progress sound ok h =
      handle_request_vote_resp-IsDurable s rvr h
  dispatch-IsDurable s (append_entries ae) progress sound ok h =
      handle_append_entries-IsDurable s ae sound ok h
  dispatch-IsDurable s (append_entries_resp aer) progress sound ok h =
      handle_append_entries_resp-IsDurable s aer h
  dispatch-IsDurable s (install_snapshot is) progress sound ok h =
      handle_install_snapshot-IsDurable s is progress sound ok h
  dispatch-IsDurable s (install_snapshot_resp isr) progress sound ok h =
      handle_install_snapshot_resp-IsDurable s isr h

  process-IsDurable :
      (s : RaftState) (msg : Message) (progress : ℕ)
      → IsSound s
      → Plausible s msg
      → IsDurable d s
      → IsDurable d (process s msg progress).0
  unfolding process
  process-IsDurable s msg progress sound ok h = elim (Bool-cases (ltb s.current_term (term msg))) [
    | inl newer ↦
        let s1 : RaftState = step_down_to s (term msg) in
        let e : SameLog s s1 = step_down_to-SameLog s (term msg) in
        rw newer (
          drain-IsDurable d _ (
            dispatch-IsDurable s1 msg progress (IsSound-same e sound) (Plausible-same msg e ok)
              (step_down_to-IsDurable s (term msg) (ltb→lt _ _ newer) h)))
    | inr now ↦ rw now (drain-IsDurable d _ (dispatch-IsDurable s msg progress sound ok h))
  ]

-- If writing the pending operations of a sound node brings the files to its term, vote and log,
-- then it still does after any plausible message: every change that a message makes to what must
-- survive a crash is recorded, in an order that leads to it.
pub on_message_with_progress-IsDurable :
    (d : Stored) (s : RaftState) (msg : Message) (progress : ℕ)
    → IsSound s
    → Plausible s msg
    → IsDurable d s
    → IsDurable d (on_message_with_progress s msg progress).0
unfolding on_message_with_progress
on_message_with_progress-IsDurable d s msg progress sound ok h =
    first-IsDurable d (not (is_member s (sender msg)) || implausible s (term msg)) _ _ h
      (process-IsDurable d s msg progress sound ok h)

start_election-IsDurable :
    (d : Stored) (s : RaftState) → IsDurable d s → IsDurable d (start_election s).0
unfolding start_election
start_election-IsDurable d s h =
    let h1 : IsDurable d (stand s) = stand-IsDurable d s h in
    first-IsDurable d (is_empty (stand s).peers) _ _
      (drain-IsDurable d _ (become_leader-IsDurable d (stand s) h1)) h1

pub on_election_timeout-IsDurable :
    (d : Stored) (s : RaftState) → IsDurable d s → IsDurable d (on_election_timeout s).0
unfolding on_election_timeout
on_election_timeout-IsDurable d s h =
    first-IsDurable d (is_leader s.role) _ _ h (start_election-IsDurable d s h)

pub try_propose-IsDurable :
    (d : Stored) (s : RaftState) (payload : List ℕ)
    → IsDurable d s
    → IsDurable d (try_propose s payload).1
unfolding try_propose
try_propose-IsDurable d s payload h = elim (Bool-cases (is_leader s.role)) [
  | inr other ↦ rw other h
  | inl leads ↦
      rw leads
        (drain-IsDurable d _ (recompute-IsDurable d _ (append_local-IsDurable d s payload h)))
]

-- Taking a snapshot records the compaction that it makes.
pub take_snapshot-IsDurable :
    (d : Stored) (s : RaftState) (bytes : List ℕ) (through : Option ℕ) (s' : RaftState)
    (snap : PersistedSnapshot)
    → HasRoom s
    → IsSound s
    → take_snapshot s bytes through ≡ some (s', snap)
    → IsDurable d s
    → IsDurable d s'
unfolding take_snapshot compacted
take_snapshot-IsDurable d s bytes requested s' snap room sound e h =
    let through : ℕ = min (unwrap_or requested s.last_applied) s.last_applied in
    elim (Bool-cases (through == 0 || leb through s.log.base_index)) [
      | inl nothing ↦ cc (rw nothing at e)
      | inr more ↦ elim (Option-cases (term_at s.log through)) [
        | inl missing ↦ cc (rw (more, missing) at e)
        | inr (t, found) ↦
            let above : s.log.base_index < through = ground arith in
            let le : through ≤ last_index s.log = term_at_le s.log through t sound.shape found in
            subst (λ (p : RaftState × PersistedSnapshot). IsDurable d p.0)
              (some-injective _ _ (rw (more, found) at e))
              (compact-IsDurable d s through t sound.shape above le (omega arith) h)
      ]
    ]
