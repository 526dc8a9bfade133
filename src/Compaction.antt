-- ===== src/Compaction.antt =====
-- crates/es-broker/src/compaction.rs: one pass over the sealed segments of a partition. A segment is its base
-- offset and what `for_each_record` reads of it, nothing when a record is unreadable; the time below which a
-- tombstone is dropped is an argument; the files of the swap are left out.
pub mod Pass
pub mod Newest
pub mod Kept
pub mod Indexed
pub mod Emitted
pub mod Survivors
mod Tests
use event_stream.Prelude.{
  ℕ, zero, suc, ◌+◌, ◌-◌, ◌*◌, ◌%◌, ◌^◌, Bool, true, false, ◌&&◌, ◌||◌, not, Option, none, some,
  List, [], ◌∷◌, ◌++◌, ltb, leb, ◌==◌, if◌then◌else◌, length, is_empty, last, unwrap_or, first,
}
use event_stream.Prelude.Ordered.{Str, str_key, OrdMap, find, put}
use event_stream.Storage.Record.{Record, encode_record}

pub record Segment : Type 0 where
  pub base_offset : ℕ
  pub contents : Option (List Record)

-- `a < b`, of two `i64`s in two's complement.
abbrev pub lt_i64 : ℕ → ℕ → Bool
lt_i64 a b = ltb ((a + 2 ^ 63) % 2 ^ 64) ((b + 2 ^ 63) % 2 ^ 64)

pub record Latest : Type 0 where
  pub offset : ℕ
  pub drop : Bool

abbrev pub droppable : ℕ → Record → Bool
droppable tombstone_cutoff r = is_empty r.value && lt_i64 r.timestamp_ms tombstone_cutoff

-- `latest.get_mut(&k)` and its three cases.
unfoldable pub note_latest : Str → Latest → OrdMap Str Latest → OrdMap Str Latest
note_latest k new latest = elim (find k latest) [
  | none ↦ put k new latest
  | some l ↦ if ltb new.offset l.offset then latest else put k new latest
]

unfoldable pub note_record : ℕ → Record → OrdMap Str Latest → OrdMap Str Latest
note_record tombstone_cutoff r latest = elim r.key [
  | none ↦ latest
  | some k ↦
      note_latest k (record { offset = r.offset; drop = droppable tombstone_cutoff r }) latest
]

-- Pass 1 over the records, and how many of them have no key.
abbrev pub newest : ℕ → List Record → OrdMap Str Latest → OrdMap Str Latest
newest tombstone_cutoff [] latest = latest
newest tombstone_cutoff (r ∷ rs) latest =
    newest tombstone_cutoff rs (note_record tombstone_cutoff r latest)

abbrev pub is_keyless : Record → Bool
is_keyless r = elim r.key [ none ↦ true | some k ↦ false ]

abbrev pub keyless : List Record → ℕ
keyless [] = 0
keyless (r ∷ rs) = (if is_keyless r then 1 else 0) + keyless rs

abbrev pub live : OrdMap Str Latest → ℕ
live [] = 0
live ((k, l) ∷ latest) = (if l.drop then 0 else 1) + live latest

-- `keep` of pass 2, and the records it holds for.
unfoldable pub keeps : OrdMap Str Latest → Record → Bool
keeps latest r = elim r.key [
  | none ↦ true
  | some k ↦ elim (find k latest) [ none ↦ false | some l ↦ l.offset == r.offset && not l.drop ]
]

abbrev pub survivors : OrdMap Str Latest → List Record → List Record
survivors latest [] = []
survivors latest (r ∷ rs) =
    let rest = survivors latest rs in if keeps latest r then r ∷ rest else rest

-- What `write_survivors` has written so far, and the buffer it encodes each record in.
pub record Written : Type 0 where
  pub log : List ℕ
  pub size_bytes : ℕ
  pub index_entries : List (ℕ × ℕ)
  pub last_indexed : Option ℕ
  pub min_ts : ℕ
  pub max_ts : ℕ
  pub buf : List ℕ

-- `Vec::clear`
abbrev pub clear : List ℕ → List ℕ
clear buf = []

abbrev pub index_interval_bytes : ℕ
index_interval_bytes = 4096

abbrev pub is_due : ℕ → Option ℕ → Bool
is_due file_pos none = true
is_due file_pos (some p) = leb (p + index_interval_bytes) file_pos

-- The records of a segment in turn, until one fails.
abbrev pub for_each : {A : Type 0} → (Record → A → Option A) → List Record → A → Option A
for_each f [] a = some a
for_each f (r ∷ rs) a = elim (f r a) [ none ↦ none | some b ↦ for_each f rs b ]

-- The pass fails as well when a record is unreadable.
abbrev pub for_each_record : {A : Type 0} → (Record → A → Option A) → Segment → A → Option A
for_each_record f s a = elim s.contents [ none ↦ none | some rs ↦ for_each f rs a ]

module _ (hash : List ℕ → ℕ) where
  -- `encode_record(&mut buf, ...)` appends to what the buffer holds.
  abbrev pub encode_into : List ℕ → Record → List ℕ
  encode_into buf r = buf ++ encode_record hash r

  unfoldable pub emit : ℕ → Record → Written → Written
  emit base_offset r w =
      let encoded = encode_into (clear w.buf) r in
      let file_pos = w.size_bytes in
      let due = is_due file_pos w.last_indexed in
      record {
        log = w.log ++ encoded;
        size_bytes = w.size_bytes + length encoded;
        index_entries =
            (if due
              then w.index_entries ++ (r.offset - base_offset, file_pos) ∷ []
              else w.index_entries);
        last_indexed = (if due then some file_pos else w.last_indexed);
        min_ts = (if lt_i64 r.timestamp_ms w.min_ts then r.timestamp_ms else w.min_ts);
        max_ts = (if lt_i64 w.max_ts r.timestamp_ms then r.timestamp_ms else w.max_ts);
        buf = encoded;
      }

  -- What is done with each record that is read, nothing when one to keep lies below the base.
  unfoldable pub visit : ℕ → OrdMap Str Latest → Record → Written → Option Written
  visit base_offset latest r w =
      if not (keeps latest r)
      then some w
      else if ltb r.offset base_offset
      then none
      else some (emit base_offset r w)

  unfoldable pub write_survivors : ℕ → OrdMap Str Latest → List Segment → Written → Option Written
  write_survivors base_offset latest [] w = some w
  write_survivors base_offset latest (s ∷ ss) w =
      elim (for_each_record (visit base_offset latest) s w) [
        | none ↦ none
        | some v ↦ write_survivors base_offset latest ss v
      ]

-- The records of the sealed segments in turn, nothing when one is unreadable.
abbrev pub read_all : List Segment → Option (List Record)
read_all [] = some []
read_all (s ∷ ss) =
    let rest = read_all ss in
    elim s.contents [
      | none ↦ none
      | some rs ↦ elim rest [ none ↦ none | some more ↦ some (rs ++ more) ]
    ]

abbrev pub empty_written : Written
empty_written = record {
  log = [];
  size_bytes = 0;
  index_entries = [];
  last_indexed = none;
  min_ts = 2 ^ 63 - 1;
  max_ts = 2 ^ 63;
  buf = [];
}
