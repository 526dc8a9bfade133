-- ===== src/Raft/Drain/Applied.antt =====
-- raft/state.rs, `drain_apply_actions`: each committed entry is handed out once, in log order.
use event_stream.Prelude.{
  ℕ, zero, suc, ◌+◌, ◌-◌, ◌≤◌, ◌≡◌, refl, sym, ◌∙◌, inl, inr, Option, none, some, List, [], ◌∷◌,
  ◌++◌, arith, if◌then◌else◌, contains, ◌==◌, ◌||◌, Bool-cases, Option-cases, is_empty,
}
use mathlib.Core.Path.{ap₂}
use event_stream.Raft.Messages.{LogEntry}
use event_stream.Raft.Config.{decode_config_change}
use event_stream.Raft.Log.{Log, get}
use event_stream.Raft.State.{Action, apply, RaftState}
use event_stream.Raft.Drain.{
  remove_peer, remove_peers, add_peer, add_peers, apply_config_change, drain_entry, drain_rounds,
  drain_apply_actions,
}

-- What neither a membership change nor the drain touches.
pub record SameCore (s s' : RaftState) : Type 0 where
  pub me : s'.me ≡ s.me
  pub role : s'.role ≡ s.role
  pub current_term : s'.current_term ≡ s.current_term
  pub voted_for : s'.voted_for ≡ s.voted_for
  pub leader_hint : s'.leader_hint ≡ s.leader_hint
  pub log : s'.log ≡ s.log
  pub commit_index : s'.commit_index ≡ s.commit_index
  pub votes_received : s'.votes_received ≡ s.votes_received
  pub pending : s'.pending ≡ s.pending

pub SameCore-refl : (s : RaftState) → SameCore s s
SameCore-refl s = record {
  me = refl;
  role = refl;
  current_term = refl;
  voted_for = refl;
  leader_hint = refl;
  log = refl;
  commit_index = refl;
  votes_received = refl;
  pending = refl;
}

pub SameCore-trans : {s t u : RaftState} → SameCore s t → SameCore t u → SameCore s u
SameCore-trans a b = record {
  me = b.me ∙ a.me;
  role = b.role ∙ a.role;
  current_term = b.current_term ∙ a.current_term;
  voted_for = b.voted_for ∙ a.voted_for;
  leader_hint = b.leader_hint ∙ a.leader_hint;
  log = b.log ∙ a.log;
  commit_index = b.commit_index ∙ a.commit_index;
  votes_received = b.votes_received ∙ a.votes_received;
  pending = b.pending ∙ a.pending;
}

-- A membership change also leaves `last_applied`.
abbrev Untouched : RaftState → RaftState → Type 0
Untouched s s' = SameCore s s' × (s'.last_applied ≡ s.last_applied)

remove_peer-SameCore : (s : RaftState) (id : ℕ) → SameCore s (remove_peer s id)
unfolding remove_peer
remove_peer-SameCore s id = record {
  me = refl;
  role = refl;
  current_term = refl;
  voted_for = refl;
  leader_hint = refl;
  log = refl;
  commit_index = refl;
  votes_received = refl;
  pending = refl;
}

remove_peers-Untouched : (ids : List ℕ) (s : RaftState) → Untouched s (remove_peers ids s)
unfolding remove_peers
remove_peers-Untouched [] s = (SameCore-refl s, refl)
remove_peers-Untouched (id ∷ ids) s =
    let (core, last) = remove_peers-Untouched ids (remove_peer s id) in
    (SameCore-trans (remove_peer-SameCore s id) core, last)

add_peer-Untouched : (s : RaftState) (id : ℕ) → Untouched s (add_peer s id)
unfolding add_peer
add_peer-Untouched s id = elim (Bool-cases (contains id s.peers || id == s.me)) [
  | inl old ↦ rw old (SameCore-refl s, refl)
  | inr new ↦ rw new (
    record {
      me = refl;
      role = refl;
      current_term = refl;
      voted_for = refl;
      leader_hint = refl;
      log = refl;
      commit_index = refl;
      votes_received = refl;
      pending = refl;
    },
    refl,
  )
]

add_peers-Untouched : (ids : List ℕ) (s : RaftState) → Untouched s (add_peers ids s)
unfolding add_peers
add_peers-Untouched [] s = (SameCore-refl s, refl)
add_peers-Untouched (id ∷ ids) s =
    let (core, last) = add_peers-Untouched ids (add_peer s id) in
    let (core', last') = add_peer-Untouched s id in (SameCore-trans core' core, last ∙ last')

pub apply_config_change-Untouched :
    (s : RaftState) (add gone : List ℕ)
    → SameCore s (apply_config_change s add gone)
      × ((apply_config_change s add gone).last_applied ≡ s.last_applied)
unfolding apply_config_change
apply_config_change-Untouched s add gone =
    let (core, last) = remove_peers-Untouched gone s in
    let (core', last') = add_peers-Untouched add (remove_peers gone s) in
    let both = SameCore-trans core core' in
    (
      record {
        me = both.me;
        role = both.role;
        current_term = both.current_term;
        voted_for = both.voted_for;
        leader_hint = both.leader_hint;
        log = both.log;
        commit_index = both.commit_index;
        votes_received = both.votes_received;
        pending = both.pending;
      },
      last' ∙ last,
    )

drain_entry-Untouched : (s : RaftState) (o : Option LogEntry) → Untouched s (drain_entry s o).0
unfolding drain_entry
drain_entry-Untouched s none = (SameCore-refl s, refl)
drain_entry-Untouched s (some e) = elim (Bool-cases (is_empty e.payload)) [
  | inl noop ↦ rw noop (SameCore-refl s, refl)
  | inr entry ↦ elim (Option-cases (decode_config_change e.payload)) [
    | inl client ↦ rw (entry, client) (SameCore-refl s, refl)
    | inr ((add, gone), e) ↦ rw (entry, e) (apply_config_change-Untouched s add gone)
  ]
]

-- What the state machine is to be handed of one entry: neither a leader's no-op nor a change of
-- membership.
abbrev pub due : Option LogEntry → List Action
due none = []
due (some e) =
    if is_empty e.payload
    then []
    else elim (decode_config_change e.payload) [ none ↦ apply e ∷ [] | some _ ↦ [] ]

-- The same for the `n` indices after `i`, in order.
abbrev pub all_due : Log → ℕ → ℕ → List Action
all_due l i zero = []
all_due l i (suc n) = due (get l (i + 1)) ++ all_due l (i + 1) n

due_of_entry : (s : RaftState) (o : Option LogEntry) → (drain_entry s o).1 ≡ due o
unfolding drain_entry
due_of_entry s none = refl
due_of_entry s (some e) = ground arith

last_applied-SameCore : (s : RaftState) (i : ℕ) → SameCore s (record s { last_applied = i })
last_applied-SameCore s i = record {
  me = refl;
  role = refl;
  current_term = refl;
  voted_for = refl;
  leader_hint = refl;
  log = refl;
  commit_index = refl;
  votes_received = refl;
  pending = refl;
}

pub drain_rounds_lem :
    (n : ℕ) (s : RaftState)
    → SameCore s (drain_rounds n s).0
      × ((drain_rounds n s).0.last_applied ≡ s.last_applied + n)
      × ((drain_rounds n s).1 ≡ all_due s.log s.last_applied n)
unfolding drain_rounds
drain_rounds_lem zero s = (SameCore-refl s, omega arith, refl)
drain_rounds_lem (suc n) s =
    let i : ℕ = s.last_applied + 1 in
    let s0 : RaftState = record s { last_applied = i } in
    let s1 : RaftState = (drain_entry s0 (get s.log i)).0 in
    let (core, last) = drain_entry-Untouched s0 (get s.log i) in
    let (core', last', out) = drain_rounds_lem n s1 in
    (
      SameCore-trans (last_applied-SameCore s i) (SameCore-trans core core'),
      omega (arith, last, last'),
      ap₂ (λ (a b : List Action). a ++ b) (due_of_entry s0 (get s.log i))
          (out ∙ ap₂ (λ (l : Log) (k : ℕ). all_due l k n) core.log last),
    )

-- When something is left to apply, the drain hands out what is due of the committed entries after
-- `last_applied`, each once and in log order, and ends with `last_applied` at the commit index.
-- It leaves the term, the vote, the role, the log and the pending writes alone.
pub drain_apply_actions_lem :
    (s : RaftState)
    → s.last_applied ≤ s.commit_index
    → ((drain_apply_actions s).1 ≡ all_due s.log s.last_applied (s.commit_index - s.last_applied))
      × ((drain_apply_actions s).0.last_applied ≡ (drain_apply_actions s).0.commit_index)
      × SameCore s (drain_apply_actions s).0
unfolding drain_apply_actions
drain_apply_actions_lem s le =
    let (core, last, out) = drain_rounds_lem (s.commit_index - s.last_applied) s in
    (out, last ∙ omega arith ∙ sym core.commit_index, core)
