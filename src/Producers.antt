-- ===== src/Producers.antt =====
-- crates/es-broker/src/producers.rs: the remembered sequences of an idempotent producer,
-- `ProducerState::check` and `ProducerState::record`. An `i64` sequence is held as its distance from
-- `i64::MIN`. Topics and partitions are the keys of a map with a decided equality.
pub mod Window
mod Tests
use event_stream.Prelude.{
  ℕ, ◌+◌, ◌-◌, ◌^◌, Bool, ◌||◌, Option, none, some, List, [], ◌∷◌, ◌++◌, ltb, ◌==◌, if◌then◌else◌,
  saturating_add, length, drop, is_empty,
}

pub data DedupeOutcome : Type 0 where
  accept : DedupeOutcome
  duplicate : ℕ → DedupeOutcome
  sequence_too_low : ℕ → DedupeOutcome
  gap : ℕ → ℕ → DedupeOutcome

-- `WINDOW`
abbrev pub window : ℕ
window = 128

-- The sequence 0.
abbrev pub zero_sequence : ℕ
zero_sequence = 2 ^ 63

pub record PartitionWindow : Type 0 where
  pub last_seen : ℕ
  pub last_offset : ℕ
  pub recent : List (ℕ × ℕ)

-- `PartitionWindow::default()`
abbrev pub empty_window : PartitionWindow
empty_window = record { last_seen = zero_sequence; last_offset = 0; recent = [] }

-- `recent.iter().find(|(s, _)| *s == sequence)`
unfoldable pub find_recent : List (ℕ × ℕ) → ℕ → Option ℕ
find_recent [] sequence = none
find_recent ((s, off) ∷ more) sequence =
    let rest = find_recent more sequence in if s == sequence then some off else rest

-- What `check` does once the window has been looked up.
unfoldable pub check_window : Option PartitionWindow → ℕ → DedupeOutcome
check_window none sequence = accept
check_window (some w) sequence =
    if sequence == saturating_add w.last_seen 1
    then accept
    else if ltb w.last_seen sequence
    then gap (saturating_add w.last_seen 1) sequence
    else elim (find_recent w.recent sequence) [
      | some off ↦ duplicate off
      | none ↦
          if sequence == w.last_seen then duplicate w.last_offset else sequence_too_low w.last_seen
    ]

-- `while w.recent.len() > WINDOW { w.recent.pop_front(); }`
abbrev pub trim : List (ℕ × ℕ) → List (ℕ × ℕ)
trim recent = drop (length recent - window) recent

-- What `record` does to the window; `unwrap_or` of the default is `or_default`.
unfoldable pub record_window : PartitionWindow → ℕ → ℕ → PartitionWindow
record_window w sequence offset =
    let w1 : PartitionWindow =
      if is_empty w.recent || ltb w.last_seen sequence
      then record w { last_seen = sequence; last_offset = offset }
      else w in
    record w1 { recent = trim (w1.recent ++ (sequence, offset) ∷ []) }
