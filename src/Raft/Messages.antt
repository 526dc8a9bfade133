-- ===== src/Raft/Messages.antt =====
-- crates/es-broker/src/raft/messages.rs: the RPC messages. `u8`, `u32` and `u64` are numbers.
pub mod Codec
use event_stream.Prelude.{ℕ, Bool, List}

pub record LogEntry : Type 0 where
  pub term : ℕ
  pub index : ℕ
  pub payload : List ℕ

pub record RequestVote : Type 0 where
  pub term : ℕ
  pub candidate_id : ℕ
  pub last_log_index : ℕ
  pub last_log_term : ℕ

pub record RequestVoteResp : Type 0 where
  pub term : ℕ
  pub vote_granted : Bool
  pub voter_id : ℕ

pub record AppendEntries : Type 0 where
  pub term : ℕ
  pub leader_id : ℕ
  pub prev_log_index : ℕ
  pub prev_log_term : ℕ
  pub entries : List LogEntry
  pub leader_commit : ℕ

pub record AppendEntriesResp : Type 0 where
  pub term : ℕ
  pub success : Bool
  pub responder_id : ℕ
  pub match_index : ℕ

pub record InstallSnapshot : Type 0 where
  pub term : ℕ
  pub leader_id : ℕ
  pub last_index : ℕ
  pub last_term : ℕ
  pub offset : ℕ
  pub done : Bool
  pub bytes : List ℕ

pub record InstallSnapshotResp : Type 0 where
  pub term : ℕ
  pub success : Bool
  pub responder_id : ℕ
  pub next_offset : ℕ
  pub installed_index : ℕ

pub data Message : Type 0 where
  request_vote : RequestVote → Message
  request_vote_resp : RequestVoteResp → Message
  append_entries : AppendEntries → Message
  append_entries_resp : AppendEntriesResp → Message
  install_snapshot : InstallSnapshot → Message
  install_snapshot_resp : InstallSnapshotResp → Message

unfoldable pub term : Message → ℕ
term (request_vote m) = m.term
term (request_vote_resp m) = m.term
term (append_entries m) = m.term
term (append_entries_resp m) = m.term
term (install_snapshot m) = m.term
term (install_snapshot_resp m) = m.term

unfoldable pub sender : Message → ℕ
sender (request_vote m) = m.candidate_id
sender (request_vote_resp m) = m.voter_id
sender (append_entries m) = m.leader_id
sender (append_entries_resp m) = m.responder_id
sender (install_snapshot m) = m.leader_id
sender (install_snapshot_resp m) = m.responder_id
