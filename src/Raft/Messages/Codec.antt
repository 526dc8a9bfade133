-- ===== src/Raft/Messages/Codec.antt =====
-- raft/messages.rs: `Message::encode`, `Message::decode` and the `Reader` below them. A `usize` holds
-- any `u32`, so the `as usize` of a length is left out; the capacity hint has no effect on the result.
pub mod RoundTrip
use event_stream.Prelude.{
  ℕ, ◌%◌, ◌^◌, Bool, true, false, not, List, [], ◌∷◌, ◌++◌, ◌==◌, if◌then◌else◌, length,
}
use event_stream.Bytes.BigEndian.{to_be}
use event_stream.Bytes.Reader.{
  IoResult, ok, err, unexpected_eof, invalid_data, Read, ◌>>=◌, pure, fail, get_bytes, get_uint,
  get_many, encode_all,
}
use event_stream.Raft.Messages.{
  LogEntry, RequestVote, RequestVoteResp, AppendEntries, AppendEntriesResp, InstallSnapshot,
  InstallSnapshotResp, Message, request_vote, request_vote_resp, append_entries,
  append_entries_resp, install_snapshot, install_snapshot_resp,
}

abbrev pub tag_request_vote : ℕ
tag_request_vote = 1

abbrev pub tag_request_vote_resp : ℕ
tag_request_vote_resp = 2

abbrev pub tag_append_entries : ℕ
tag_append_entries = 3

abbrev pub tag_append_entries_resp : ℕ
tag_append_entries_resp = 4

abbrev pub tag_install_snapshot : ℕ
tag_install_snapshot = 5

abbrev pub tag_install_snapshot_resp : ℕ
tag_install_snapshot_resp = 6

-- `if b { 1 } else { 0 }`
abbrev pub flag : Bool → ℕ
flag true = 1
flag false = 0

-- `(len as u32).to_be_bytes()`, then the bytes.
unfoldable pub put_bytes : List ℕ → List ℕ
put_bytes bytes = to_be 4 (length bytes % 2 ^ 32) ++ bytes

unfoldable pub encode_entry_body : LogEntry → List ℕ
encode_entry_body e = to_be 8 e.term ++ (to_be 8 e.index ++ put_bytes e.payload)

unfoldable pub encode : Message → List ℕ
encode (request_vote m) =
    tag_request_vote ∷ to_be 8 m.term
    ++ (to_be 4 m.candidate_id ++ (to_be 8 m.last_log_index ++ to_be 8 m.last_log_term))
encode (request_vote_resp m) =
    tag_request_vote_resp ∷ to_be 8 m.term ++ (flag m.vote_granted ∷ to_be 4 m.voter_id)
encode (append_entries m) =
    tag_append_entries ∷ to_be 8 m.term
    ++ (to_be 4 m.leader_id
        ++ (to_be 8 m.prev_log_index
            ++ (to_be 8 m.prev_log_term
                ++ (to_be 4 (length m.entries % 2 ^ 32)
                    ++ (encode_all encode_entry_body m.entries ++ to_be 8 m.leader_commit)))))
encode (append_entries_resp m) =
    tag_append_entries_resp ∷ to_be 8 m.term
    ++ (flag m.success ∷ to_be 4 m.responder_id ++ to_be 8 m.match_index)
encode (install_snapshot m) =
    tag_install_snapshot ∷ to_be 8 m.term
    ++ (to_be 4 m.leader_id
        ++ (to_be 8 m.last_index
            ++ (to_be 8 m.last_term ++ (to_be 8 m.offset ++ (flag m.done ∷ put_bytes m.bytes)))))
encode (install_snapshot_resp m) =
    tag_install_snapshot_resp ∷ to_be 8 m.term
    ++ (flag m.success ∷ to_be 4 m.responder_id
        ++ (to_be 8 m.next_offset ++ to_be 8 m.installed_index))

unfoldable pub get_u8 : Read ℕ
get_u8 [] = err unexpected_eof
get_u8 (b ∷ rest) = ok (b, rest)

-- `u8()? != 0`
unfoldable pub get_flag : Read Bool
get_flag = do b ← get_u8; pure (not (b == 0))

-- A `u32` length, then that many bytes.
unfoldable pub get_sized : Read (List ℕ)
get_sized = do n ← get_uint 4; get_bytes n

unfoldable pub decode_entry_body : Read LogEntry
decode_entry_body = do
  t ← get_uint 8
  i ← get_uint 8
  p ← get_sized
  pure (record { term = t; index = i; payload = p })

unfoldable pub decode_request_vote : Read Message
decode_request_vote = do
  t ← get_uint 8
  c ← get_uint 4
  li ← get_uint 8
  lt ← get_uint 8
  pure (
      request_vote (record { term = t; candidate_id = c; last_log_index = li; last_log_term = lt }))

unfoldable pub decode_request_vote_resp : Read Message
decode_request_vote_resp = do
  t ← get_uint 8
  g ← get_flag
  v ← get_uint 4
  pure (request_vote_resp (record { term = t; vote_granted = g; voter_id = v }))

unfoldable pub decode_append_entries : Read Message
decode_append_entries = do
  t ← get_uint 8
  l ← get_uint 4
  pi ← get_uint 8
  pt ← get_uint 8
  n ← get_uint 4
  es ← get_many decode_entry_body n
  c ← get_uint 8
  pure (
      append_entries (record {
        term = t;
        leader_id = l;
        prev_log_index = pi;
        prev_log_term = pt;
        entries = es;
        leader_commit = c;
      }))

unfoldable pub decode_append_entries_resp : Read Message
decode_append_entries_resp = do
  t ← get_uint 8
  g ← get_flag
  r ← get_uint 4
  mi ← get_uint 8
  pure (append_entries_resp (record { term = t; success = g; responder_id = r; match_index = mi }))

unfoldable pub decode_install_snapshot : Read Message
decode_install_snapshot = do
  t ← get_uint 8
  l ← get_uint 4
  li ← get_uint 8
  lt ← get_uint 8
  o ← get_uint 8
  g ← get_flag
  b ← get_sized
  pure (
      install_snapshot (record {
        term = t;
        leader_id = l;
        last_index = li;
        last_term = lt;
        offset = o;
        done = g;
        bytes = b;
      }))

unfoldable pub decode_install_snapshot_resp : Read Message
decode_install_snapshot_resp = do
  t ← get_uint 8
  g ← get_flag
  r ← get_uint 4
  next ← get_uint 8
  ii ← get_uint 8
  pure (
      install_snapshot_resp (record {
        term = t;
        success = g;
        responder_id = r;
        next_offset = next;
        installed_index = ii;
      }))

unfoldable pub decode_body : ℕ → Read Message
decode_body tag =
    if tag == tag_request_vote
    then decode_request_vote
    else if tag == tag_request_vote_resp
    then decode_request_vote_resp
    else if tag == tag_append_entries
    then decode_append_entries
    else if tag == tag_append_entries_resp
    then decode_append_entries_resp
    else if tag == tag_install_snapshot
    then decode_install_snapshot
    else if tag == tag_install_snapshot_resp
    then decode_install_snapshot_resp
    else fail invalid_data

-- Bytes after the message are left unread.
unfoldable pub decode : List ℕ → IoResult Message
decode [] = err invalid_data
decode bytes = elim ((get_u8 >>= decode_body) bytes) [ ok (m, rest) ↦ ok m | err e ↦ err e ]
