-- ===== src/Raft/Log.antt =====
-- crates/es-broker/src/raft/log.rs: the in-memory log with a compacted prefix. `Result<_, ()>` is
-- `Option`. An addition of `u64`s that the source does not make saturating is `add_u64`.
pub mod Shape
pub mod Append
pub mod Written
pub mod AppendAt
pub mod Compact
pub mod Tail
use event_stream.Prelude.{
  ℕ, zero, suc, ◌+◌, ◌-◌, Bool, true, false, ◌&&◌, ◌||◌, Option, none, some, List, [], ◌∷◌, ◌++◌,
  ltb, leb, ◌==◌, if◌then◌else◌, option_eq, unwrap_or, add_u64, saturating_add, u64_max, min, max,
  length, is_empty, first, last, get_elem?, take, drop,
}
use mathlib.Core.Option
use event_stream.Raft.Messages.{LogEntry}

pub record Log : Type 0 where
  pub entries : List LogEntry
  pub base_index : ℕ
  pub base_term : ℕ

-- `Log::default()`
abbrev pub empty_log : Log
empty_log = record { entries = []; base_index = 0; base_term = 0 }

abbrev pub index_of_last : Option LogEntry → ℕ → ℕ
index_of_last none b = b
index_of_last (some e) b = e.index

abbrev pub term_of_last : Option LogEntry → ℕ → ℕ
term_of_last none b = b
term_of_last (some e) b = e.term

unfoldable pub last_index : Log → ℕ
last_index l = index_of_last (last l.entries) l.base_index

unfoldable pub last_term : Log → ℕ
last_term l = term_of_last (last l.entries) l.base_term

-- `first` is the index of the first entry in memory.
abbrev pub get_from : List LogEntry → ℕ → Option LogEntry
get_from [] index = none
get_from (e ∷ es) index = if ltb index e.index then none else get_elem? (e ∷ es) (index - e.index)

unfoldable pub get : Log → ℕ → Option LogEntry
get l index = get_from l.entries index

abbrev pub term_of_entry : Option LogEntry → Option ℕ
term_of_entry none = none
term_of_entry (some e) = some e.term

unfoldable pub term_at : Log → ℕ → Option ℕ
term_at l index =
    if index == 0
    then some 0
    else if index == l.base_index
    then some l.base_term
    else if ltb index l.base_index
    then none
    else term_of_entry (get l index)

-- The part of `slice` behind the guards, with the first entry at hand.
unfoldable pub slice_from : Log → List LogEntry → ℕ → ℕ → List LogEntry
slice_from l [] start end_exclusive = []
slice_from l (e ∷ es) start end_exclusive =
    let s = max start e.index in
    let n = min end_exclusive (add_u64 (last_index l) 1) in
    if leb n s then [] else take (n - s) (drop (s - e.index) (e ∷ es))

unfoldable pub slice : Log → ℕ → ℕ → List LogEntry
slice l start end_exclusive =
    if start == 0 || leb end_exclusive start then [] else slice_from l l.entries start end_exclusive

-- The loop of `slice_bounded`: `n` entries and `bytes` payload bytes are in `out` already.
bounded : ℕ → ℕ → ℕ → ℕ → List LogEntry → List LogEntry
bounded max_entries max_bytes n bytes [] = []
bounded max_entries max_bytes n bytes (e ∷ es) =
    let rest = bounded max_entries max_bytes (n + 1) (bytes + length e.payload) es in
    if ltb 0 n && (leb max_entries n || ltb max_bytes (bytes + length e.payload))
    then []
    else e ∷ rest

slice_bounded_from : Log → List LogEntry → ℕ → ℕ → ℕ → List LogEntry
slice_bounded_from l [] start max_entries max_bytes = []
slice_bounded_from l (e ∷ es) start max_entries max_bytes =
    let s = max start e.index in
    if ltb (last_index l) s
    then []
    else bounded max_entries max_bytes 0 0 (drop (s - e.index) (e ∷ es))

unfoldable pub slice_bounded : Log → ℕ → ℕ → ℕ → List LogEntry
unfolding slice_bounded_from bounded last_index
slice_bounded l start max_entries max_bytes =
    if start == 0 then [] else slice_bounded_from l l.entries start max_entries max_bytes

-- The entries that `truncate_from` keeps, past its first guard.
unfoldable pub truncated : List LogEntry → ℕ → List LogEntry
truncated [] cut_index = []
truncated (e ∷ es) cut_index =
    if leb cut_index e.index then [] else take (cut_index - e.index) (e ∷ es)

unfoldable pub truncate_from : Log → ℕ → Log
unfolding truncated
truncate_from l cut_index = record l {
  entries = if leb cut_index l.base_index then [] else truncated l.entries cut_index;
}

-- How the `while` loop of `append_at` ends: refused, or with the log (cut if there was a
-- conflict) and what is left to append.
pub data Scan : Type 0 where
  refused : Scan
  scanned : Log → List LogEntry → Scan

unfoldable pub scan : Log → ℕ → ℕ → List LogEntry → Scan
scan l committed idx [] = scanned l []
scan l committed idx (e ∷ es) =
    let next = scan l committed (add_u64 idx 1) es in
    if leb idx l.base_index then next else elim (term_at l idx) [
      | none ↦ scanned l (e ∷ es)
      | some t ↦
          if t == e.term
          then next
          else if leb idx committed
          then refused
          else scanned (truncate_from l idx) (e ∷ es)
    ]

-- Every appended entry gets the index of its place.
unfoldable pub renumber : ℕ → List LogEntry → List LogEntry
renumber next [] = []
renumber next (e ∷ es) = record e { index = next } ∷ renumber (add_u64 next 1) es

pub data Appended : Type 0 where
  refused : Appended
  appended : Option ℕ → Log → Appended

append_rest : Log → List LogEntry → Appended
append_rest l [] = appended none l
append_rest l (e ∷ es) =
    let first_changed = add_u64 (last_index l) 1 in
    appended (some first_changed)
      (record l { entries = l.entries ++ renumber first_changed (e ∷ es) })

after_scan : Scan → Appended
after_scan Scan.refused = Appended.refused
after_scan (scanned l rest) = append_rest l rest

-- On a refusal the log is unchanged, so `refused` carries none.
unfoldable pub append_at : Log → ℕ → List LogEntry → ℕ → Appended
unfolding after_scan append_rest
append_at l start_index new_entries committed =
    after_scan (scan l committed start_index new_entries)

-- How many entries `compact_through` drains.
abbrev pub drain_count : List LogEntry → ℕ → ℕ
drain_count [] cut_index = 0
drain_count (e ∷ es) cut_index = min (saturating_add cut_index 1 - e.index) (length (e ∷ es))

unfoldable pub compact_through : Log → ℕ → ℕ → Log
compact_through l cut_index cut_term = if leb cut_index l.base_index then l else record {
  entries = drop (drain_count l.entries cut_index) l.entries;
  base_index = cut_index;
  base_term = cut_term;
}

abbrev pub keeps_suffix : Log → ℕ → ℕ → Bool
keeps_suffix l index t = option_eq (term_at l index) (some t) && leb l.base_index index

unfoldable pub install_snapshot : Log → ℕ → ℕ → Log × Bool
install_snapshot l index t =
    if keeps_suffix l index t
    then (compact_through l index t, true)
    else (record { entries = []; base_index = index; base_term = t }, false)
