-- ===== src/Coord.antt =====
-- crates/es-broker/src/coord.rs: the coordinator of consumer groups. An `Instant` is a count of ticks.
pub mod Assign
pub mod Group
pub mod Coordinator
pub mod Fenced
mod Tests
use event_stream.Prelude.{ℕ, List}
use event_stream.Prelude.Ordered.{Str, OrdMap}

-- A topic and one of its partitions.
abbrev pub Tp : Type 0
Tp = Str × ℕ

pub record Member : Type 0 where
  pub id : Str
  pub topics : List Str
  pub last_heartbeat : ℕ
  pub owner : Str

pub record GroupState : Type 0 where
  pub generation : ℕ
  pub members : OrdMap Str Member
  pub assignment : OrdMap Str (List Tp)
