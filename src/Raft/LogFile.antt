-- ===== src/Raft/LogFile.antt =====
-- raft/log.rs: the log file, `encode_entry` and `decode_log`. `crc32fast::hash` is a parameter.
pub mod Torn
use event_stream.Prelude.{
  ℕ, zero, suc, ◌+◌, ◌-◌, ◌*◌, ◌%◌, ◌^◌, ◌||◌, Option, none, some, List, [], ◌∷◌, ◌++◌, ltb, ◌==◌,
  if◌then◌else◌, length, take, drop,
}
use event_stream.Bytes.BigEndian.{to_be, from_be}
use event_stream.Raft.Messages.{LogEntry}

-- `ENTRY_HEADER` and `MAX_ENTRY_BYTES`
abbrev pub entry_header : ℕ
entry_header = 24

abbrev pub max_entry_bytes : ℕ
max_entry_bytes = 512 * 1024 * 1024

-- What the checksum is taken of.
unfoldable pub entry_body : LogEntry → List ℕ
entry_body e = to_be 8 e.term ++ (to_be 8 e.index ++ e.payload)

module _ (hash : List ℕ → ℕ) where
  unfoldable pub encode_entry : LogEntry → List ℕ
  encode_entry e =
      let body_len = 4 + 8 + 8 + length e.payload in
      to_be 4 (body_len % 2 ^ 32) ++ (to_be 4 (hash (entry_body e)) ++ entry_body e)

  -- The checksum of the body, and the entry.
  unfoldable pub decode_checked : ℕ → ℕ → List ℕ → Option (LogEntry × ℕ)
  decode_checked body_len crc body =
      if hash body == crc
      then some (
        record {
          term = from_be (take 8 body);
          index = from_be (take 8 (drop 8 body));
          payload = drop 16 body;
        },
        4 + body_len,
      )
      else none

  -- The length that the record claims, before anything is read by it.
  unfoldable pub decode_sized : ℕ → List ℕ → Option (LogEntry × ℕ)
  decode_sized body_len bytes =
      if (ltb body_len 20 || ltb max_entry_bytes body_len) || ltb (length bytes) (4 + body_len)
      then none
      else decode_checked body_len (from_be (take 4 (drop 4 bytes)))
          (take (body_len - 4) (drop 8 bytes))

  -- One round of the loop, on what is left of the file: the entry and how many bytes it takes, or
  -- nothing where the loop stops.
  unfoldable pub decode_entry : List ℕ → Option (LogEntry × ℕ)
  decode_entry bytes =
      if ltb (length bytes) entry_header then none else decode_sized (from_be (take 4 bytes)) bytes

  unfoldable pub decode_from : ℕ → ℕ → List ℕ → List (LogEntry × ℕ) × ℕ
  decode_from zero pos bytes = ([], pos)
  decode_from (suc fuel) pos bytes = elim (decode_entry bytes) [
    | none ↦ ([], pos)
    | some (e, n) ↦
        let (out, end) = decode_from fuel (pos + n) (drop n bytes) in ((e, pos) ∷ out, end)
  ]

  -- Every round takes at least a byte, so that the length of the file is fuel enough.
  unfoldable pub decode_log : List ℕ → List (LogEntry × ℕ) × ℕ
  decode_log bytes = decode_from (length bytes) 0 bytes
