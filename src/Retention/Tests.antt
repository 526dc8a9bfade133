-- ===== src/Retention/Tests.antt =====
-- retention.rs: the theorem at three segments over a budget.
use event_stream.Prelude.{ℕ, ◌≤◌, ◌⊎◌, refl, none, some, List, [], ◌∷◌, arith}
use event_stream.Retention.{SegmentInfo, sealed_of, plan_victims}
use event_stream.Retention.Budget.{remaining, AllRemoved, plan_victims-budget}

abbrev segment : ℕ → ℕ → ℕ → SegmentInfo
segment base size newest = record {
  base_offset = base;
  size_bytes = size;
  max_timestamp_ms = newest;
}

abbrev segments : List SegmentInfo
segments = segment 0 100 5 ∷ segment 10 60 7 ∷ segment 20 50 9 ∷ []

plan_victims-budget_example :
    (remaining (plan_victims none (some 120) segments) segments ≤ 120)
    ⊎ AllRemoved (plan_victims none (some 120) segments) (sealed_of 20 segments)
plan_victims-budget_example =
    plan_victims-budget none 120 (segment 20 50 9) segments refl (omega arith)
