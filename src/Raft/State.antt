-- ===== src/Raft/State.antt =====
-- crates/es-broker/src/raft/state.rs: the state of one node, and its hard state. A method that
-- mutates `self` returns the new state, beside its result. Log lines are left out.
use event_stream.Prelude.{
  ℕ, ◌+◌, ◌*◌, ◌/◌, ◌^◌, Bool, true, false, Option, none, List, [], ◌∷◌, ◌++◌, length, contains,
  Map,
}
use event_stream.Raft.Messages.{LogEntry, Message}
use event_stream.Raft.Log.{Log, empty_log}

-- `MAX_APPEND_ENTRIES`, `MAX_APPEND_BYTES` and `MAX_TERM_JUMP`
abbrev pub max_append_entries : ℕ
max_append_entries = 1024

abbrev pub max_append_bytes : ℕ
max_append_bytes = 4 * 1024 * 1024

abbrev pub max_term_jump : ℕ
max_term_jump = 2 ^ 20

pub data Role : Type 0 where
  follower candidate leader : Role

abbrev pub is_leader : Role → Bool
is_leader leader = true
is_leader _ = false

abbrev pub is_candidate : Role → Bool
is_candidate candidate = true
is_candidate _ = false

pub data Action : Type 0 where
  send_to : ℕ → Message → Action
  broadcast : Message → Action
  reset_election_timer : Action
  apply : LogEntry → Action
  send_snapshot : ℕ → Action

-- raft/log.rs: a durable change, drained by the driver before it sends anything.
pub data PersistOp : Type 0 where
  hard_state : ℕ → Option ℕ → PersistOp
  append : List LogEntry → PersistOp
  truncate_from : ℕ → PersistOp
  compact_through : ℕ → PersistOp

pub record RaftState : Type 0 where
  pub me : ℕ
  pub peers : List ℕ
  pub role : Role
  pub current_term : ℕ
  pub voted_for : Option ℕ
  pub leader_hint : Option ℕ
  pub log : Log
  pub commit_index : ℕ
  pub last_applied : ℕ
  pub match_index : Map ℕ
  pub next_index : Map ℕ
  pub snapshot_cursor : Map ℕ
  pub noop_on_elect : Bool
  pub votes_received : List ℕ
  pub pending : List PersistOp

-- `RaftState::new`
unfoldable pub new : ℕ → List ℕ → RaftState
new me peers = record {
  me = me;
  peers = peers;
  role = follower;
  current_term = 0;
  voted_for = none;
  leader_hint = none;
  log = empty_log;
  commit_index = 0;
  last_applied = 0;
  match_index = [];
  next_index = [];
  snapshot_cursor = [];
  noop_on_elect = false;
  votes_received = [];
  pending = [];
}

abbrev pub push : PersistOp → RaftState → RaftState
push op s = record s { pending = s.pending ++ op ∷ [] }

-- `pending.retain(|op| !matches!(op, HardState { .. }))`
unfoldable pub without_hard_state : List PersistOp → List PersistOp
without_hard_state [] = []
without_hard_state (hard_state t v ∷ ops) = without_hard_state ops
without_hard_state (append es ∷ ops) = append es ∷ without_hard_state ops
without_hard_state (truncate_from i ∷ ops) = truncate_from i ∷ without_hard_state ops
without_hard_state (compact_through i ∷ ops) = compact_through i ∷ without_hard_state ops

unfoldable pub persist_hard_state : RaftState → RaftState
persist_hard_state s = record s {
  pending = without_hard_state s.pending ++ hard_state s.current_term s.voted_for ∷ [];
}

-- `a.div_ceil(2)`
abbrev div_ceil_two : ℕ → ℕ
div_ceil_two a = (a + 1) / 2

unfoldable pub quorum : RaftState → ℕ
quorum s = div_ceil_two (length s.peers) + 1

abbrev pub is_member : RaftState → ℕ → Bool
is_member s id = contains id s.peers

-- `take_persist_ops`
unfoldable pub take_persist_ops : RaftState → RaftState × List PersistOp
take_persist_ops s = (record s { pending = [] }, s.pending)
