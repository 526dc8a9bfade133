-- ===== src/Raft/Tests/Files.antt =====
-- raft/log.rs, raft/messages.rs and raft/state.rs: the theorems on what is read back, at concrete bytes.
use event_stream.Prelude.{
  ℕ, ◌%◌, ◌^◌, ◌<◌, ◌≡◌, refl, true, some, List, [], ◌∷◌, ◌++◌, arith, length, take,
}
use event_stream.Bytes.BigEndian.{to_be}
use event_stream.Bytes.Reader.{ok, encode_all}
use event_stream.Raft.Messages.{LogEntry, AppendEntries, append_entries}
use event_stream.Raft.Messages.Codec.{encode, decode}
use event_stream.Raft.Messages.Codec.RoundTrip.{decode-encode}
use event_stream.Raft.Config.{
  encode_config_change, decode_config_change, is_config_entry, decode-encode_config_change,
}
use event_stream.Raft.LogFile.{entry_body, encode_entry, decode_log}
use event_stream.Raft.LogFile.Torn.{positions, decode_log-torn}

abbrev entry : ℕ → ℕ → LogEntry
entry t i = record { term = t; index = i; payload = 7 ∷ 8 ∷ [] }

abbrev batch : AppendEntries
batch = record {
  term = 3;
  leader_id = 1;
  prev_log_index = 4;
  prev_log_term = 2;
  entries = entry 2 5 ∷ entry 3 6 ∷ [];
  leader_commit = 5;
}

decode-encode_example : decode (encode (append_entries batch) ++ 9 ∷ []) ≡ ok (append_entries batch)
decode-encode_example = decode-encode (append_entries batch) (9 ∷ []) (
  omega arith,
  omega arith,
  omega arith,
  omega arith,
  omega arith,
  ((omega arith, omega arith, omega arith), ((omega arith, omega arith, omega arith), tt)),
  omega arith,
)

decode-encode_config_change_example :
    (decode_config_change (encode_config_change (4 ∷ []) (2 ∷ 3 ∷ [])) ≡ some (4 ∷ [], 2 ∷ 3 ∷ []))
    × (is_config_entry (encode_config_change (4 ∷ []) (2 ∷ 3 ∷ [])) ≡ true)
decode-encode_config_change_example =
    decode-encode_config_change (4 ∷ []) (2 ∷ 3 ∷ []) (omega arith, tt)
      (omega arith, (omega arith, tt)) (omega arith) (omega arith)

-- A checksum that counts the bytes.
abbrev count_bytes : List ℕ → ℕ
count_bytes bytes = length bytes % 2 ^ 32

count_bytes_u32 : (bytes : List ℕ) → count_bytes bytes < 2 ^ 32
count_bytes_u32 bytes = omega arith

entry_length : length (encode_entry count_bytes (entry 1 2)) ≡ 26
unfolding encode_entry entry_body to_be
entry_length = refl

decode_log-torn_example :
    decode_log count_bytes (
      encode_all (encode_entry count_bytes) (entry 1 1 ∷ [])
      ++ take 25 (encode_entry count_bytes (entry 1 2)))
    ≡ (
      positions count_bytes count_bytes_u32 0 (entry 1 1 ∷ []),
      length (encode_all (encode_entry count_bytes) (entry 1 1 ∷ [])),
    )
decode_log-torn_example =
    decode_log-torn count_bytes count_bytes_u32 (entry 1 1 ∷ []) (entry 1 2) 25
      ((omega arith, omega arith, omega arith), tt) (omega arith, omega arith, omega arith)
      (omega (arith, entry_length))
