-- ===== src/Groups/Run.antt =====
-- groups.rs: the operations of a store, in any order.
use event_stream.Prelude.{ℕ, Bool, List, [], ◌∷◌}
use event_stream.Prelude.Ordered.{Str}
use event_stream.Auth.{ApiKey}
use event_stream.Groups.{GroupStore, authorize_or_claim, commit, reset, flush}

-- `authorize_or_claim` alone is how a member joins a group.
pub data Event : Type 0 where
  join : Str → ApiKey → Event
  committed : Str → ApiKey → Str → ℕ → ℕ → Event
  reset_to : Str → Str → ℕ → ℕ → Event
  flushed : (Str → Bool) → Event

unfoldable pub step : Event → GroupStore → GroupStore
step (join g key) s = (authorize_or_claim g key s).0
step (committed g key topic partition offset) s = (commit g key topic partition offset s).0
step (reset_to g topic partition offset) s = reset g topic partition offset s
step (flushed writes) s = (flush writes s).0

abbrev pub run : List Event → GroupStore → GroupStore
run [] s = s
run (ev ∷ evs) s = run evs (step ev s)
