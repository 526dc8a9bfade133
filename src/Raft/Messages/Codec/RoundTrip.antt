-- ===== src/Raft/Messages/Codec/RoundTrip.antt =====
-- raft/messages.rs: every message is read back from its encoding.
use event_stream.Prelude.{
  ℕ, ◌%◌, ◌^◌, ◌≡◌, refl, ◌∙◌, Bool, true, false, List, [], ◌∷◌, ◌++◌, arith, length, All,
}
use mathlib.Core.List.{append_assoc}
use event_stream.Bytes.BigEndian.{to_be}
use event_stream.Bytes.Steps.{IsU32, IsU64, u32, u64}
use event_stream.Bytes.Reader.{
  IoResult, ok, Read, ◌>>=◌, bind_ok, get_bytes-append, get_uint, get_many, encode_all,
  get_many-encode_all,
}
use event_stream.Raft.Messages.{
  LogEntry, RequestVote, RequestVoteResp, AppendEntries, AppendEntriesResp, InstallSnapshot,
  InstallSnapshotResp, Message, request_vote, request_vote_resp, append_entries,
  append_entries_resp, install_snapshot, install_snapshot_resp,
}
use event_stream.Raft.Messages.Codec.{
  flag, put_bytes, encode_entry_body, encode, get_u8, get_flag, get_sized, decode_entry_body,
  decode_request_vote, decode_request_vote_resp, decode_append_entries, decode_append_entries_resp,
  decode_install_snapshot, decode_install_snapshot_resp, decode_body, decode,
}

abbrev EntryFits : LogEntry → Type 0
EntryFits e = IsU64 e.term × IsU64 e.index × IsU32 (length e.payload)

-- The fields have the width of their Rust type, and what is counted fits the `u32` count.
abbrev Fits : Message → Type 0
Fits (request_vote m) =
    IsU64 m.term × IsU32 m.candidate_id × IsU64 m.last_log_index × IsU64 m.last_log_term
Fits (request_vote_resp m) = IsU64 m.term × IsU32 m.voter_id
Fits (append_entries m) =
    IsU64 m.term
    × IsU32 m.leader_id
    × IsU64 m.prev_log_index
    × IsU64 m.prev_log_term
    × IsU32 (length m.entries)
    × All EntryFits m.entries
    × IsU64 m.leader_commit
Fits (append_entries_resp m) = IsU64 m.term × IsU32 m.responder_id × IsU64 m.match_index
Fits (install_snapshot m) =
    IsU64 m.term
    × IsU32 m.leader_id
    × IsU64 m.last_index
    × IsU64 m.last_term
    × IsU64 m.offset
    × IsU32 (length m.bytes)
Fits (install_snapshot_resp m) =
    IsU64 m.term × IsU32 m.responder_id × IsU64 m.next_offset × IsU64 m.installed_index

-- One read of a `do` block: what is left to show is that the rest of the block goes on from there.
module _ {B : Type 0} {rest : List ℕ} {r : IoResult (B × List ℕ)} where
  bit : {b : Bool} (f : Bool → Read B) → f b rest ≡ r → (get_flag >>= f) (flag b ∷ rest) ≡ r
  unfolding get_flag get_u8
  bit {b = true} f next = next
  bit {b = false} f next = next

get_sized-put_bytes :
    (bytes rest : List ℕ)
    → IsU32 (length bytes)
    → get_sized (put_bytes bytes ++ rest) ≡ ok (bytes, rest)
unfolding get_sized put_bytes
get_sized-put_bytes bytes rest h =
    let len : length bytes % 2 ^ 32 ≡ length bytes = omega arith in
    rw (append_assoc, len) (u32 _ h (get_bytes-append (length bytes) bytes rest refl))

module _ {B : Type 0} {rest : List ℕ} {r : IoResult (B × List ℕ)} where
  sized :
      {bytes : List ℕ} (f : List ℕ → Read B)
      → IsU32 (length bytes)
      → f bytes rest ≡ r
      → (get_sized >>= f) (put_bytes bytes ++ rest) ≡ r
  sized {bytes = bytes} f h next = bind_ok get_sized f (get_sized-put_bytes bytes rest h) ∙ next

decode_entry_body-encode :
    (e : LogEntry) (rest : List ℕ)
    → EntryFits e
    → decode_entry_body (encode_entry_body e ++ rest) ≡ ok (e, rest)
unfolding decode_entry_body encode_entry_body
decode_entry_body-encode e rest (t, i, p) =
    rw (append_assoc, append_assoc) (u64 _ t (u64 _ i (sized _ p refl)))

module _ {B : Type 0} {rest : List ℕ} {r : IoResult (B × List ℕ)} where
  -- The count of a list that fits it, and the list.
  counted :
      {es : List LogEntry} (f : List LogEntry → Read B)
      → IsU32 (length es)
      → All EntryFits es
      → f es rest ≡ r
      → (do n ← get_uint 4; xs ← get_many decode_entry_body n; f xs)
          (to_be 4 (length es % 2 ^ 32) ++ (encode_all encode_entry_body es ++ rest))
        ≡ r
  counted {es = es} f h fit next =
      let len : length es % 2 ^ 32 ≡ length es = omega arith in
      let read =
        get_many-encode_all decode_entry_body encode_entry_body EntryFits decode_entry_body-encode
          es rest fit in
      rw len (u32 _ h (bind_ok (get_many decode_entry_body (length es)) f read ∙ next))

request_vote_lem :
    (m : RequestVote) (rest : List ℕ)
    → Fits (request_vote m)
    → (get_u8 >>= decode_body) (encode (request_vote m) ++ rest) ≡ ok (request_vote m, rest)
unfolding get_u8 decode_body encode decode_request_vote
request_vote_lem m rest (t, c, li, lt) =
    rw (append_assoc, append_assoc, append_assoc) (u64 _ t (u32 _ c (u64 _ li (u64 _ lt refl))))

request_vote_resp_lem :
    (m : RequestVoteResp) (rest : List ℕ)
    → Fits (request_vote_resp m)
    → (get_u8 >>= decode_body) (encode (request_vote_resp m) ++ rest)
      ≡ ok (request_vote_resp m, rest)
unfolding get_u8 decode_body encode decode_request_vote_resp
request_vote_resp_lem m rest (t, v) = rw append_assoc (u64 _ t (bit _ (u32 _ v refl)))

append_entries_lem :
    (m : AppendEntries) (rest : List ℕ)
    → Fits (append_entries m)
    → (get_u8 >>= decode_body) (encode (append_entries m) ++ rest) ≡ ok (append_entries m, rest)
unfolding get_u8 decode_body encode decode_append_entries
append_entries_lem m rest (t, l, pi, pt, n, es, c) =
    simp append_assoc (u64 _ t (u32 _ l (u64 _ pi (u64 _ pt (counted _ n es (u64 _ c refl))))))

append_entries_resp_lem :
    (m : AppendEntriesResp) (rest : List ℕ)
    → Fits (append_entries_resp m)
    → (get_u8 >>= decode_body) (encode (append_entries_resp m) ++ rest)
      ≡ ok (append_entries_resp m, rest)
unfolding get_u8 decode_body encode decode_append_entries_resp
append_entries_resp_lem m rest (t, r, mi) =
    rw (append_assoc, append_assoc) (u64 _ t (bit _ (u32 _ r (u64 _ mi refl))))

install_snapshot_lem :
    (m : InstallSnapshot) (rest : List ℕ)
    → Fits (install_snapshot m)
    → (get_u8 >>= decode_body) (encode (install_snapshot m) ++ rest) ≡ ok (install_snapshot m, rest)
unfolding get_u8 decode_body encode decode_install_snapshot
install_snapshot_lem m rest (t, l, li, lt, o, b) =
    simp append_assoc (u64 _ t (u32 _ l (u64 _ li (u64 _ lt (u64 _ o (bit _ (sized _ b refl)))))))

install_snapshot_resp_lem :
    (m : InstallSnapshotResp) (rest : List ℕ)
    → Fits (install_snapshot_resp m)
    → (get_u8 >>= decode_body) (encode (install_snapshot_resp m) ++ rest)
      ≡ ok (install_snapshot_resp m, rest)
unfolding get_u8 decode_body encode decode_install_snapshot_resp
install_snapshot_resp_lem m rest (t, r, next, ii) =
    rw (append_assoc, append_assoc, append_assoc)
      (u64 _ t (bit _ (u32 _ r (u64 _ next (u64 _ ii refl)))))

decode_body-encode :
    (m : Message) (rest : List ℕ)
    → Fits m
    → (get_u8 >>= decode_body) (encode m ++ rest) ≡ ok (m, rest)
decode_body-encode (request_vote m) rest h = request_vote_lem m rest h
decode_body-encode (request_vote_resp m) rest h = request_vote_resp_lem m rest h
decode_body-encode (append_entries m) rest h = append_entries_lem m rest h
decode_body-encode (append_entries_resp m) rest h = append_entries_resp_lem m rest h
decode_body-encode (install_snapshot m) rest h = install_snapshot_lem m rest h
decode_body-encode (install_snapshot_resp m) rest h = install_snapshot_resp_lem m rest h

decode_ok :
    {m : Message} {rest : List ℕ} (bytes : List ℕ)
    → (get_u8 >>= decode_body) bytes ≡ ok (m, rest)
    → decode bytes ≡ ok m
unfolding decode get_u8
decode_ok [] e = absurd (cc e)
decode_ok (b ∷ bytes) e = rw (e, decode)

-- A message whose fields have their width and whose lengths fit their u32 counts is read back from
-- its encoding, whatever bytes follow it.
pub decode-encode : (m : Message) (rest : List ℕ) → Fits m → decode (encode m ++ rest) ≡ ok m
unfolding decode
decode-encode m rest h = decode_ok (encode m ++ rest) (decode_body-encode m rest h)
