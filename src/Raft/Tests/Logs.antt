-- ===== src/Raft/Tests/Logs.antt =====
-- raft/log.rs: the theorems on the log, at concrete logs.
use event_stream.Prelude.{
  ℕ, ◌+◌, ◌-◌, ◌≤◌, ◌≡◌, ◌↔◌, refl, some, List, [], ◌∷◌, arith, length, drop, u64_max,
}
use event_stream.Raft.Messages.{LogEntry}
use event_stream.Raft.Log.{
  Log, Appended, appended, append_at, slice, compact_through, last_index, term_at, scan, get,
  truncate_from, renumber,
}
use event_stream.Raft.Log.Shape.{term_elem}
use event_stream.Raft.Log.Written.{Fits}
use event_stream.Raft.Log.AppendAt.{
  KeepsCommitted, append_at-KeepsCommitted, append_at-holds_all, append_at-refuses_iff,
  append_at_reaches, Conflict,
}
use event_stream.Raft.Log.Compact.{Compacted, compact_through-Compacted}
use event_stream.Raft.Log.Tail.{slice_tail}

abbrev entry : ℕ → ℕ → LogEntry
entry t i = record { term = t; index = i; payload = 7 ∷ [] }

-- Entries 11 to 13 after a snapshot at 10, in terms 1, 1 and 2.
abbrev sample : Log
sample = record {
  entries = entry 1 11 ∷ entry 1 12 ∷ entry 2 13 ∷ [];
  base_index = 10;
  base_term = 1;
}

-- From 12 on, the first of them already in the log and the second in conflict with it.
abbrev batch : List LogEntry
batch = entry 1 0 ∷ entry 3 0 ∷ entry 3 0 ∷ []

abbrev sample_written : Log
sample_written = record {
  entries = entry 1 11 ∷ entry 1 12 ∷ entry 3 13 ∷ entry 3 14 ∷ [];
  base_index = 10;
  base_term = 1;
}

sample_fits : Fits sample 12 batch
sample_fits = record {
  shape = (refl, (refl, (refl, tt)));
  reach = omega arith;
  small = omega arith;
}

sample_append : append_at sample 12 batch 12 ≡ appended (some 13) sample_written
unfolding append_at scan term_at get last_index truncate_from renumber
sample_append = refl

last_13 : last_index sample ≡ 13
unfolding last_index
last_13 = refl

append_at-KeepsCommitted_example : KeepsCommitted 12 sample sample_written
append_at-KeepsCommitted_example =
    append_at-KeepsCommitted sample 12 12 batch sample_fits (some 13) sample_written
      (omega (arith, last_13)) sample_append

append_at-holds_all_example : term_at sample_written (12 + 2) ≡ term_elem batch 2
append_at-holds_all_example =
    append_at-holds_all sample 12 12 batch sample_fits (some 13) sample_written sample_append 2
      (omega arith) (omega arith)

append_at_reaches_example : 12 + length batch ≤ last_index sample_written + 1
append_at_reaches_example =
    append_at_reaches sample 12 12 batch sample_fits (some 13) sample_written sample_append

append_at-refuses_iff_example :
    (append_at sample 12 batch 13 ≡ Appended.refused) ↔ Conflict sample 13 12 batch sample_fits
append_at-refuses_iff_example =
    append_at-refuses_iff sample 13 12 batch sample_fits (omega (arith, last_13))

compact_through-Compacted_example : Compacted sample 12 1 (compact_through sample 12 1)
compact_through-Compacted_example =
    compact_through-Compacted sample 12 1 sample_fits.shape (omega arith) (omega (arith, last_13))
      (omega arith)

slice_tail_example : slice sample 12 u64_max ≡ drop (12 - 10 - 1) sample.entries
slice_tail_example =
    slice_tail sample 12 sample_fits.shape (omega (arith, last_13)) (omega arith)
      (omega (arith, last_13))
