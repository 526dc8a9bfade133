-- ===== src/Raft/Step/Advances.antt =====
-- raft/state.rs: what no event takes back. Terms, the commit index and `last_applied` only grow,
-- and a vote stays for its term.
use event_stream.Prelude.{
  ℕ, ◌-◌, ◌≤◌, ◌<◌, ◌≡◌, refl, ◌∙◌, ◌⊎◌, inl, inr, Bool, true, false, not, Option, none, some, List,
  [], ◌∷◌, arith, ltb, leb, ltb→lt, Map, ◌||◌, if◌then◌else◌, ◌==◌, Bool-cases, Option-cases,
  u64_max, is_empty,
}
use mathlib.Core.Path.{subst}
use mathlib.Core.Option.{some-injective}
use event_stream.Raft.Messages.{
  RequestVote, RequestVoteResp, AppendEntries, AppendEntriesResp, InstallSnapshot,
  InstallSnapshotResp, Message, request_vote, request_vote_resp, append_entries,
  append_entries_resp, install_snapshot, install_snapshot_resp, term, sender,
}
use event_stream.Raft.Log.{Appended, appended, last_index}
use event_stream.Raft.State.{RaftState, persist_hard_state, is_leader, is_member}
use event_stream.Raft.Commit.{
  recompute_commit_index, append_local, commit_candidate, candidate_index,
}
use event_stream.Raft.Drain.{drain_apply_actions}
use event_stream.Raft.Drain.Applied.{drain_rounds_lem}
use event_stream.Raft.Election.{
  step_down_to, lead, with_noop, settle, become_leader, fresh_peers, with_vote, ignores_vote,
  elected, stand, start_election, on_election_timeout, grants, handle_request_vote,
  handle_request_vote_resp,
}
use event_stream.Raft.Replication.{
  accept_leader, append_from_leader, apply_append, advance_commit, accept_entries, consistent,
  handle_append_entries, acknowledged, backed_off, note_match, handle_append_entries_resp,
}
use event_stream.Raft.Snapshot.{
  install_log, install_done, accept_snapshot_leader, handle_install_snapshot, installed_on_peer,
  handle_install_snapshot_resp,
}
use event_stream.Raft.Step.{dispatch, process, on_message_with_progress, try_propose, implausible}

pub record Advances (s s' : RaftState) : Type 0 where
  pub me : s'.me ≡ s.me
  pub current_term : s.current_term ≤ s'.current_term
  pub vote : s'.current_term ≡ s.current_term → (s.voted_for ≡ none) ⊎ (s'.voted_for ≡ s.voted_for)
  pub commit_index : s.commit_index ≤ s'.commit_index
  pub last_applied : s.last_applied ≤ s'.last_applied

pub Advances-refl : (s : RaftState) → Advances s s
Advances-refl s = ground arith

pub Advances-trans : {s t u : RaftState} → Advances s t → Advances t u → Advances s u
Advances-trans {s} {t} {u} a b = record {
  me = b.me ∙ a.me;
  current_term = omega arith;
  vote = λ e.
      let et : t.current_term ≡ s.current_term = omega arith in
      let eu : u.current_term ≡ t.current_term = omega arith in
      ground (arith, a.vote et, b.vote eu);
  commit_index = omega arith;
  last_applied = omega arith;
}

-- The fields that `Advances` reads are the same.
pub record SameGains (s s' : RaftState) : Type 0 where
  pub me : s'.me ≡ s.me
  pub current_term : s'.current_term ≡ s.current_term
  pub voted_for : s'.voted_for ≡ s.voted_for
  pub commit_index : s'.commit_index ≡ s.commit_index
  pub last_applied : s'.last_applied ≡ s.last_applied

pub Advances-same : {s s' : RaftState} → SameGains s s' → Advances s s'
Advances-same h = record {
  me = h.me;
  current_term = omega arith;
  vote = λ _. inr h.voted_for;
  commit_index = omega arith;
  last_applied = omega arith;
}

-- A handler that returns early under a test.
first-Advances {ℓ} :
    (b : Bool) {A : Type ℓ} {s : RaftState} (r q : RaftState × A)
    → Advances s r.0
    → Advances s q.0
    → Advances s (if b then r else q).0
first-Advances true r q h k = h
first-Advances false r q h k = k

Advances-if :
    (b : Bool) {s t u : RaftState} → Advances s t → Advances s u → Advances s (if b then t else u)
Advances-if true h k = h
Advances-if false h k = k

pub drain-Advances : (s : RaftState) → Advances s (drain_apply_actions s).0
unfolding drain_apply_actions
drain-Advances s =
    let (core, last, _) = drain_rounds_lem (s.commit_index - s.last_applied) s in
    record {
      me = core.me;
      current_term = omega (arith, core.current_term);
      vote = λ _. inr core.voted_for;
      commit_index = omega (arith, core.commit_index);
      last_applied = omega (arith, last);
    }

commit_candidate-Advances : (s : RaftState) (o : Option ℕ) → Advances s (commit_candidate s o)
commit_candidate-Advances s none = ground arith
commit_candidate-Advances s (some c) = ground arith

pub recompute-Advances : (s : RaftState) → Advances s (recompute_commit_index s)
unfolding recompute_commit_index
recompute-Advances s = commit_candidate-Advances s (candidate_index s)

fresh_peers-SameGains :
    (last : ℕ) (ps : List ℕ) (s : RaftState) → SameGains s (fresh_peers last ps s)
unfolding fresh_peers
fresh_peers-SameGains last [] s = record {
  me = refl;
  current_term = refl;
  voted_for = refl;
  commit_index = refl;
  last_applied = refl;
}
fresh_peers-SameGains last (p ∷ ps) s =
    let h = fresh_peers-SameGains last ps _ in
    record {
      me = h.me;
      current_term = h.current_term;
      voted_for = h.voted_for;
      commit_index = h.commit_index;
      last_applied = h.last_applied;
    }

append_local-SameGains : (s : RaftState) (payload : List ℕ) → SameGains s (append_local s payload).0
unfolding append_local
append_local-SameGains s payload = record {
  me = refl;
  current_term = refl;
  voted_for = refl;
  commit_index = refl;
  last_applied = refl;
}

lead-Advances : (s : RaftState) → Advances s (lead s)
unfolding lead
lead-Advances s = ground arith

with_noop-Advances : (s : RaftState) → Advances s (with_noop s)
unfolding with_noop
with_noop-Advances s =
    Advances-if s.noop_on_elect (Advances-same (append_local-SameGains s [])) (Advances-refl s)

settle-Advances : (s : RaftState) → Advances s (settle s)
unfolding settle
settle-Advances s =
    let h = fresh_peers-SameGains (last_index s.log) s.peers s in
    Advances-same (record {
      me = h.me;
      current_term = h.current_term;
      voted_for = h.voted_for;
      commit_index = h.commit_index;
      last_applied = h.last_applied;
    })

pub become_leader-Advances : (s : RaftState) → Advances s (become_leader s)
unfolding become_leader
become_leader-Advances s = Advances-trans (lead-Advances s) (
    Advances-trans (with_noop-Advances (lead s)) (
      Advances-trans (settle-Advances (with_noop (lead s)))
        (recompute-Advances (settle (with_noop (lead s))))))

step_down_to-Advances : (s : RaftState) (t : ℕ) → s.current_term < t → Advances s (step_down_to s t)
unfolding step_down_to persist_hard_state
step_down_to-Advances s t lt = ground arith

stand-Advances : (s : RaftState) → s.current_term < u64_max → Advances s (stand s)
unfolding stand persist_hard_state
stand-Advances s lt = ground arith

handle_request_vote-Advances :
    (s : RaftState) (rv : RequestVote) → Advances s (handle_request_vote s rv).0
unfolding handle_request_vote grants persist_hard_state
handle_request_vote-Advances s rv = ground arith

accept_leader-Advances : (s : RaftState) (ae : AppendEntries) → Advances s (accept_leader s ae)
unfolding accept_leader persist_hard_state
accept_leader-Advances s ae = ground arith

advance_commit-Advances : (s : RaftState) (c n : ℕ) → Advances s (advance_commit s c n)
unfolding advance_commit
advance_commit-Advances s c n = ground arith

backed_off-Advances : (s : RaftState) (aer : AppendEntriesResp) → Advances s (backed_off s aer).0
unfolding backed_off
backed_off-Advances s aer = ground arith

install_done-Advances : (s : RaftState) (is : InstallSnapshot) → Advances s (install_done s is)
unfolding install_done install_log
install_done-Advances s is = ground arith

accept_snapshot_leader-Advances :
    (s : RaftState) (is : InstallSnapshot) → Advances s (accept_snapshot_leader s is)
unfolding accept_snapshot_leader persist_hard_state
accept_snapshot_leader-Advances s is = ground arith

start_election-Advances :
    (s : RaftState) → s.current_term < u64_max → Advances s (start_election s).0
unfolding start_election
start_election-Advances s lt = elim (Bool-cases (is_empty (stand s).peers)) [
  | inr more ↦ rw more (stand-Advances s lt)
  | inl alone ↦ rw alone (
      Advances-trans (stand-Advances s lt) (
        Advances-trans (become_leader-Advances (stand s))
          (drain-Advances (become_leader (stand s)))))
]

pub on_election_timeout-Advances :
    (s : RaftState) → s.current_term < u64_max → Advances s (on_election_timeout s).0
unfolding on_election_timeout
on_election_timeout-Advances s lt = elim (Bool-cases (is_leader s.role)) [
  | inl leads ↦ rw leads (Advances-refl s)
  | inr other ↦ rw other (start_election-Advances s lt)
]

with_vote-Advances : (s : RaftState) (v : ℕ) → Advances s (with_vote s v)
unfolding with_vote
with_vote-Advances s v = ground arith

handle_request_vote_resp-Advances :
    (s : RaftState) (rvr : RequestVoteResp) → Advances s (handle_request_vote_resp s rvr).0
unfolding handle_request_vote_resp
handle_request_vote_resp-Advances s rvr = elim (Bool-cases (ignores_vote s rvr)) [
  | inl ignored ↦ rw ignored (Advances-refl s)
  | inr heard ↦ elim (Bool-cases rvr.vote_granted) [
    | inr no_vote ↦ rw (heard, no_vote) (Advances-refl s)
    | inl granted ↦
        let s1 : RaftState = with_vote s rvr.voter_id in
        elim (Bool-cases (elected s1)) [
          | inr few ↦ rw (heard, granted, few) (with_vote-Advances s rvr.voter_id)
          | inl enough ↦
              rw (heard, granted, enough)
                (Advances-trans (with_vote-Advances s rvr.voter_id) (become_leader-Advances s1))
        ]
  ]
]

apply_append-Advances :
    (s s' : RaftState) (r : Appended) → apply_append s r ≡ some s' → Advances s s'
apply_append-Advances s s' Appended.refused e = absurd (cc e)
apply_append-Advances s s' (appended none l) e = subst (Advances s) (some-injective _ _ e) (record {
  me = refl;
  current_term = omega arith;
  vote = λ _. inr refl;
  commit_index = omega arith;
  last_applied = omega arith;
})
apply_append-Advances s s' (appended (some j) l) e =
    subst (Advances s) (some-injective _ _ e) (record {
      me = refl;
      current_term = omega arith;
      vote = λ _. inr refl;
      commit_index = omega arith;
      last_applied = omega arith;
    })

append_from_leader-Advances :
    (s s' : RaftState) (ae : AppendEntries) → append_from_leader s ae ≡ some s' → Advances s s'
unfolding append_from_leader
append_from_leader-Advances s s' ae e = elim (Bool-cases (is_empty ae.entries)) [
  | inl heartbeat ↦ subst (Advances s) (some-injective _ _ (rw heartbeat at e)) (Advances-refl s)
  | inr entries ↦ apply_append-Advances s s' _ (rw entries at e)
]

accept_entries-Advances : (s : RaftState) (ae : AppendEntries) → Advances s (accept_entries s ae).0
unfolding accept_entries
accept_entries-Advances s ae = elim (Bool-cases (consistent s ae)) [
  | inr gap ↦ rw gap (Advances-refl s)
  | inl fits ↦ elim (Option-cases (append_from_leader s ae)) [
    | inl refused ↦ rw (fits, refused) (Advances-refl s)
    | inr (s', e) ↦
        rw (fits, e)
          (Advances-trans (append_from_leader-Advances s s' ae e) (advance_commit-Advances s' _ _))
  ]
]

handle_append_entries-Advances :
    (s : RaftState) (ae : AppendEntries) → Advances s (handle_append_entries s ae).0
unfolding handle_append_entries
handle_append_entries-Advances s ae = elim (Bool-cases (leb s.current_term ae.term)) [
  | inr old ↦ rw old (Advances-refl s)
  | inl now ↦ rw now (
      Advances-trans (accept_leader-Advances s ae)
        (accept_entries-Advances (accept_leader s ae) ae))
]

note_match-Advances : (s : RaftState) (peer mi cur : ℕ) → Advances s (note_match s peer mi cur)
note_match-Advances s peer mi cur = ground arith

set_next-Advances : (s : RaftState) (m : Map ℕ) → Advances s (record s { next_index = m })
set_next-Advances s m = ground arith

acknowledged-Advances :
    (s : RaftState) (aer : AppendEntriesResp) → Advances s (acknowledged s aer).0
unfolding acknowledged
acknowledged-Advances s aer =
    Advances-trans (note_match-Advances s _ _ _)
      (Advances-trans (set_next-Advances _ _) (recompute-Advances _))

handle_append_entries_resp-Advances :
    (s : RaftState) (aer : AppendEntriesResp) → Advances s (handle_append_entries_resp s aer).0
unfolding handle_append_entries_resp
handle_append_entries_resp-Advances s aer =
    first-Advances (not (is_leader s.role) || not (aer.term == s.current_term)) _ _
      (Advances-refl s)
      (first-Advances aer.success _ _ (acknowledged-Advances s aer) (backed_off-Advances s aer))

handle_install_snapshot-Advances :
    (s : RaftState) (is : InstallSnapshot) (progress : ℕ)
    → Advances s (handle_install_snapshot s is progress).0
unfolding handle_install_snapshot
handle_install_snapshot-Advances s is progress =
    let s1 : RaftState = accept_snapshot_leader s is in
    first-Advances (ltb is.term s.current_term) _ _ (Advances-refl s) (
      Advances-trans (accept_snapshot_leader-Advances s is)
        (Advances-if is.done (install_done-Advances s1 is) (Advances-refl s1)))

set_cursor-Advances :
    (s : RaftState) (m n c : Map ℕ)
    → Advances s (record s { match_index = m; next_index = n; snapshot_cursor = c })
set_cursor-Advances s m n c = ground arith

installed_on_peer-Advances :
    (s : RaftState) (isr : InstallSnapshotResp) → Advances s (installed_on_peer s isr).0
unfolding installed_on_peer
installed_on_peer-Advances s isr =
    Advances-trans (set_cursor-Advances s _ _ _) (recompute-Advances _)

handle_install_snapshot_resp-Advances :
    (s : RaftState) (isr : InstallSnapshotResp) → Advances s (handle_install_snapshot_resp s isr).0
unfolding handle_install_snapshot_resp
handle_install_snapshot_resp-Advances s isr =
    first-Advances (not (is_leader s.role) || not (isr.term == s.current_term)) _ _
      (Advances-refl s)
      (first-Advances (not isr.success) _ _ (Advances-refl s) (
        first-Advances (ltb 0 isr.installed_index) _ _ (installed_on_peer-Advances s isr)
          (set_cursor-Advances s s.match_index s.next_index _)))

dispatch-Advances :
    (s : RaftState) (msg : Message) (progress : ℕ) → Advances s (dispatch s msg progress).0
unfolding dispatch
dispatch-Advances s (request_vote rv) progress = handle_request_vote-Advances s rv
dispatch-Advances s (request_vote_resp rvr) progress = handle_request_vote_resp-Advances s rvr
dispatch-Advances s (append_entries ae) progress = handle_append_entries-Advances s ae
dispatch-Advances s (append_entries_resp aer) progress = handle_append_entries_resp-Advances s aer
dispatch-Advances s (install_snapshot is) progress = handle_install_snapshot-Advances s is progress
dispatch-Advances s (install_snapshot_resp isr) progress =
    handle_install_snapshot_resp-Advances s isr

process-Advances :
    (s : RaftState) (msg : Message) (progress : ℕ) → Advances s (process s msg progress).0
unfolding process
process-Advances s msg progress = elim (Bool-cases (ltb s.current_term (term msg))) [
  | inl newer ↦
      let s1 : RaftState = step_down_to s (term msg) in
      rw newer (
        Advances-trans (step_down_to-Advances s (term msg) (ltb→lt _ _ newer))
          (Advances-trans (dispatch-Advances s1 msg progress) (drain-Advances _)))
  | inr same ↦ rw same (Advances-trans (dispatch-Advances s msg progress) (drain-Advances _))
]

-- Whatever message arrives, the node's term, commit index and `last_applied` do not go down, and
-- a vote that it cast stays as long as its term does.
pub on_message_with_progress-Advances :
    (s : RaftState) (msg : Message) (progress : ℕ)
    → Advances s (on_message_with_progress s msg progress).0
unfolding on_message_with_progress
on_message_with_progress-Advances s msg progress =
    first-Advances (not (is_member s (sender msg)) || implausible s (term msg)) _ _
      (Advances-refl s) (process-Advances s msg progress)

pub try_propose-Advances : (s : RaftState) (payload : List ℕ) → Advances s (try_propose s payload).1
unfolding try_propose
try_propose-Advances s payload = elim (Bool-cases (is_leader s.role)) [
  | inr other ↦ rw other (Advances-refl s)
  | inl leads ↦
      let s1 : RaftState = (append_local s payload).0 in
      rw leads (
        Advances-trans (Advances-same (append_local-SameGains s payload))
          (Advances-trans (recompute-Advances s1) (drain-Advances (recompute_commit_index s1))))
]
