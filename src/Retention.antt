-- ===== src/Retention.antt =====
-- crates/es-broker/src/retention.rs: `plan_victims`, the sealed segments that a pass removes. The time below
-- which a segment is too old, where there is one, is an argument.
pub mod Budget
mod Tests
use event_stream.Prelude.{
  ℕ, ◌+◌, ◌-◌, ◌%◌, ◌^◌, Bool, true, false, ◌&&◌, not, Option, none, some, List, [], ◌∷◌, ◌++◌, ltb,
  leb, ◌==◌, if◌then◌else◌, length, is_empty, last, contains,
}
use event_stream.Prelude.Order.{sort}
use event_stream.Compaction.{lt_i64}

-- What a segment says of itself; the timestamp is a two's complement word.
pub record SegmentInfo : Type 0 where
  pub base_offset : ℕ
  pub size_bytes : ℕ
  pub max_timestamp_ms : ℕ

-- `i64::MIN`, of a segment without records.
abbrev pub no_records : ℕ
no_records = 2 ^ 63

abbrev pub is_expired : ℕ → SegmentInfo → Bool
is_expired cutoff s = not (s.max_timestamp_ms == no_records) && lt_i64 s.max_timestamp_ms cutoff

unfoldable pub expired : Option ℕ → List SegmentInfo → List ℕ
expired none sealed = []
expired (some cutoff) [] = []
expired (some cutoff) (s ∷ sealed) =
    let rest = expired (some cutoff) sealed in
    if is_expired cutoff s then s.base_offset ∷ rest else rest

abbrev pub sum_sizes : List SegmentInfo → ℕ
sum_sizes [] = 0
sum_sizes (s ∷ ss) = s.size_bytes + sum_sizes ss

-- Oldest first, until the partition is no longer over its budget.
unfoldable pub trim_to : List SegmentInfo → ℕ → List ℕ → List ℕ
trim_to [] over victims = victims
trim_to (s ∷ sealed) over victims =
    let counted = trim_to sealed (over - s.size_bytes) victims in
    let marked = trim_to sealed (over - s.size_bytes) (victims ++ s.base_offset ∷ []) in
    if contains s.base_offset victims then counted else if over == 0 then victims else marked

unfoldable pub over_budget : Option ℕ → List SegmentInfo → List SegmentInfo → List ℕ → List ℕ
over_budget none snapshot sealed victims = victims
over_budget (some retention_bytes) snapshot sealed victims =
    let total = sum_sizes snapshot % 2 ^ 64 in
    if ltb retention_bytes total then trim_to sealed (total - retention_bytes) victims else victims

abbrev pub dedup : List ℕ → List ℕ
dedup [] = []
dedup (a ∷ []) = a ∷ []
dedup (a ∷ b ∷ more) = let rest = dedup (b ∷ more) in if a == b then rest else a ∷ rest

abbrev pub sealed_of : ℕ → List SegmentInfo → List SegmentInfo
sealed_of active_base [] = []
sealed_of active_base (s ∷ ss) =
    let rest = sealed_of active_base ss in if ltb s.base_offset active_base then s ∷ rest else rest

abbrev pub victims_of : Option ℕ → Option ℕ → List SegmentInfo → List SegmentInfo → List ℕ
victims_of cutoff retention_bytes snapshot sealed =
    dedup (sort (over_budget retention_bytes snapshot sealed (expired cutoff sealed)))

unfoldable pub plan_victims : Option ℕ → Option ℕ → List SegmentInfo → List ℕ
plan_victims cutoff retention_bytes snapshot =
    if leb (length snapshot) 1 then [] else elim (last snapshot) [
      | none ↦ []
      | some active ↦
          let sealed = sealed_of active.base_offset snapshot in
          if is_empty sealed then [] else victims_of cutoff retention_bytes snapshot sealed
    ]
