-- ===== src/Raft/Store.antt =====
-- raft/log.rs: `RaftStore::persist`, over what the files hold: the hard state and the entries of the
-- log file, in order. Every write succeeds; file positions and fsync are left out.
pub mod Durable
pub mod Writes
pub mod Events
use event_stream.Prelude.{ℕ, Bool, Option, List, [], ◌∷◌, ◌++◌, ltb, leb, if◌then◌else◌, ◌≡◌}
use event_stream.Raft.Messages.{LogEntry}
use event_stream.Raft.Log.{Log}
use event_stream.Raft.State.{
  PersistOp, hard_state, append, truncate_from, compact_through, RaftState,
}

pub record Stored : Type 0 where
  pub current_term : ℕ
  pub voted_for : Option ℕ
  pub entries : List LogEntry

-- The entries before the first whose index is not below `from` (`partition_point`).
unfoldable pub before : ℕ → List LogEntry → List LogEntry
before from [] = []
before from (e ∷ es) = let rest = before from es in if ltb e.index from then e ∷ rest else []

-- The entries from the first whose index is above `through` on.
unfoldable pub after : ℕ → List LogEntry → List LogEntry
after through [] = []
after through (e ∷ es) = let rest = after through es in if leb e.index through then rest else e ∷ es

unfoldable pub persist_op : Stored → PersistOp → Stored
persist_op d (hard_state t v) = record d { current_term = t; voted_for = v }
persist_op d (append es) = record d { entries = d.entries ++ es }
persist_op d (truncate_from from) = record d { entries = before from d.entries }
persist_op d (compact_through through) = record d { entries = after through d.entries }

unfoldable pub persist : Stored → List PersistOp → Stored
persist d [] = d
persist d (op ∷ ops) = persist (persist_op d op) ops

-- What the files must hold for a restart to come back to this state.
abbrev pub stored : RaftState → Stored
stored s = record {
  current_term = s.current_term;
  voted_for = s.voted_for;
  entries = s.log.entries;
}

-- Writing the pending operations brings the files to the state in memory.
abbrev pub IsDurable : Stored → RaftState → Type 0
IsDurable d s = persist d s.pending ≡ stored s
