-- ===== src/Compaction/Pass.antt =====
-- compaction.rs: one pass of `compact_partition`, and how it ends. The files of the swap are left out.
use event_stream.Prelude.{
  ℕ, ◌+◌, ◌-◌, Bool, none, some, List, [], ◌∷◌, ltb, ◌==◌, if◌then◌else◌, length, last, first,
}
use event_stream.Prelude.Ordered.{str_key}
use event_stream.Storage.Record.{Record}
use event_stream.Compaction.{
  Segment, newest, keyless, live, Written, write_survivors, read_all, empty_written,
}

abbrev pub sealed_before : ℕ → List Segment → List Segment
sealed_before active_base [] = []
sealed_before active_base (s ∷ ss) =
    let rest = sealed_before active_base ss in
    if ltb s.base_offset active_base then s ∷ rest else rest

-- How a pass ends: with nothing to do, with an error that leaves the segments as they were, or with one
-- segment in place of the sealed ones, and the report.
pub data Outcome : Type 0 where
  nothing : Outcome
  aborted : Outcome
  compacted :
      (base_offset : ℕ) (written : Written) (records_kept records_dropped sealed_merged : ℕ)
      → Outcome

module _ (hash : List ℕ → ℕ) (tombstone_cutoff : ℕ) where
  -- From where the records are read; `unchanged` is the test under the appender's lock.
  unfoldable pub compact_records : Bool → List Segment → ℕ → List Record → Outcome
  compact_records unchanged sealed lowest_base rs =
      let latest = newest tombstone_cutoff rs [] in
      let kept = keyless rs + live latest in
      let dropped = length rs - kept in
      let written = write_survivors hash lowest_base latest sealed empty_written in
      if dropped == 0 then nothing else elim written [
        | none ↦ aborted
        | some w ↦
            if unchanged then compacted lowest_base w kept dropped (length sealed) else nothing
      ]

  unfoldable pub compact_partition : Bool → List Segment → Outcome
  compact_partition unchanged snapshot =
      if ltb (length snapshot) 2 then nothing else elim (last snapshot) [
        | none ↦ nothing
        | some active ↦
            let sealed = sealed_before active.base_offset snapshot in
            elim (first sealed) [
              | none ↦ nothing
              | some lowest ↦ elim (read_all sealed) [
                | none ↦ aborted
                | some rs ↦ compact_records unchanged sealed lowest.base_offset rs
              ]
            ]
      ]
