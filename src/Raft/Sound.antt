-- ===== src/Raft/Sound.antt =====
-- raft/state.rs: the invariant of one node. The log has no gap, and the snapshot, what is applied,
-- what is committed and the end of the log stand in this order.
pub mod Local
pub mod Follower
pub mod Events
use event_stream.Prelude.{ℕ, ◌+◌, ◌≤◌, ◌<◌, ◌^◌, ◌≡◌, Bool, true, Option, some, length, u64_max}
use event_stream.Raft.Messages.{
  AppendEntries, InstallSnapshot, Message, append_entries, install_snapshot,
}
use event_stream.Raft.Log.{last_index, term_at}
use event_stream.Raft.Log.Shape.{Contiguous}
use event_stream.Raft.State.{RaftState}

pub record IsSound (s : RaftState) : Type 0 where
  pub shape : Contiguous s.log
  pub base_le : s.log.base_index ≤ s.last_applied
  pub applied_le : s.last_applied ≤ s.commit_index
  pub commit_le : s.commit_index ≤ last_index s.log

-- There is an index left for one more entry.
abbrev pub HasRoom : RaftState → Type 0
HasRoom s = last_index s.log + 1 < 2 ^ 64

-- No index of the batch overflows.
abbrev pub BatchFits : AppendEntries → Type 0
BatchFits ae = ae.prev_log_index + 1 + length ae.entries < 2 ^ 64

-- A finished snapshot does not contradict committed history: if it ends at or below the commit
-- index, the log has its last entry.
abbrev pub SnapshotAgrees : RaftState → InstallSnapshot → Type 0
SnapshotAgrees s is =
    (is.last_index < u64_max)
    × (is.done ≡ true
        → s.log.base_index < is.last_index
        → is.last_index ≤ s.commit_index
        → term_at s.log is.last_index ≡ some is.last_term)

-- What is assumed of a message: only of the two that a leader writes the log with.
abbrev pub Plausible : RaftState → Message → Type 0
Plausible s (append_entries ae) = BatchFits ae
Plausible s (install_snapshot is) = SnapshotAgrees s is
Plausible s _ = Unit
