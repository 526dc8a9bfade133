-- ===== src/Groups.antt =====
-- crates/es-broker/src/groups.rs: who a consumer group belongs to, and the offsets committed to it. Each
-- operation takes and hands back the store, and runs as a whole; the source locks the group's entry while it
-- reads and writes it, and a commit once to authorize and once more to write. A file is what `serde_json` wrote
-- or will parse.
pub mod Run
pub mod Owned
pub mod Files
pub mod Durable
pub mod Committed
mod Tests
use event_stream.Prelude.{
  ℕ, ◌+◌, Bool, true, false, ◌&&◌, ◌||◌, not, Option, none, some, List, [], ◌∷◌, ltb, leb,
  if◌then◌else◌, length, is_empty, unwrap_or,
}
use event_stream.Prelude.Ordered.{Str, str_same, str_key, nat_key, OrdMap, find, put, add}
use event_stream.Auth.{ApiKey, is_admin, all_name_chars}

abbrev pub Offsets : Type 0
Offsets = OrdMap Str (OrdMap ℕ ℕ)

abbrev pub max_groups : ℕ
max_groups = 100000

abbrev pub max_entries_per_group : ℕ
max_entries_per_group = 100000

pub record GroupEntry : Type 0 where
  pub owner : Str
  pub offsets : Offsets

abbrev pub empty_entry : GroupEntry
empty_entry = record { owner = []; offsets = [] }

-- A file of today, and one from before groups had owners.
pub data GroupFile : Type 0 where
  current : Str → Offsets → GroupFile
  legacy : Offsets → GroupFile

abbrev pub parse_group_file : GroupFile → GroupEntry
parse_group_file (current o offs) = record { owner = o; offsets = offs }
parse_group_file (legacy offs) = record { owner = []; offsets = offs }

pub data GroupError : Type 0 where
  invalid forbidden limit : GroupError

-- `Result<A, GroupError>`
pub data GroupResult (A : Type 0) : Type 0 where
  granted : A → GroupResult A
  refused : GroupError → GroupResult A

pub record GroupStore : Type 0 where
  pub entries : OrdMap Str GroupEntry
  pub dirty : List Str
  pub files : OrdMap Str GroupFile

abbrev pub parse_all : OrdMap Str GroupFile → OrdMap Str GroupEntry
parse_all [] = []
parse_all ((g, f) ∷ more) = (g, parse_group_file f) ∷ parse_all more

-- `GroupStore::open`, on the group files of the directory.
unfoldable pub open_store : OrdMap Str GroupFile → GroupStore
open_store fs = record { entries = parse_all fs; dirty = []; files = fs }

unfoldable pub validate_group_name : Str → Bool
validate_group_name name =
    if is_empty name || ltb 200 (length name)
    then false
    else if not (all_name_chars name)
    then false
    else not (str_same name (46 ∷ []) || str_same name (46 ∷ 46 ∷ []))

unfoldable pub mark_dirty : Str → GroupStore → GroupStore
mark_dirty g s = record { entries = s.entries; dirty = add g s.dirty; files = s.files }

-- What a locked entry is left as.
unfoldable pub set_entry : Str → GroupEntry → GroupStore → GroupStore
set_entry g en s = record { entries = put g en s.entries; dirty = s.dirty; files = s.files }

-- `g.owner != key.key_id && !key.is_admin()`
abbrev pub is_foreign : GroupEntry → ApiKey → Bool
is_foreign en key = not (str_same en.owner key.key_id) && not (is_admin key)

unfoldable pub claim : Str → ApiKey → GroupEntry → GroupStore → GroupStore × GroupResult GroupEntry
claim g key en s =
    if is_empty en.owner
    then (let owned : GroupEntry = record { owner = key.key_id; offsets = en.offsets } in
        (mark_dirty g (set_entry g owned s), granted owned))
    else if is_foreign en key
    then (s, refused forbidden)
    else (s, granted en)

-- The granted entry is the locked one of the group.
unfoldable pub authorize_or_claim : Str → ApiKey → GroupStore → GroupStore × GroupResult GroupEntry
authorize_or_claim g key s =
    if not (validate_group_name g) then (s, refused invalid) else elim (find g s.entries) [
      | some en ↦ claim g key en s
      | none ↦
          if leb max_groups (length s.entries)
          then (s, refused limit)
          else claim g key empty_entry (set_entry g empty_entry s)
    ]

unfoldable pub check_access : Str → ApiKey → GroupStore → GroupResult Unit
check_access g key s = elim (find g s.entries) [
  | none ↦ granted tt
  | some en ↦ if not (is_empty en.owner) && is_foreign en key then refused forbidden else granted tt
]

-- `g.offsets.values().map(|m| m.len()).sum()`
abbrev pub tracked : Offsets → ℕ
tracked [] = 0
tracked ((t, m) ∷ more) = length m + tracked more

-- `.and_then(|m| m.get(&partition)).copied()`
abbrev pub in_topic : ℕ → Option (OrdMap ℕ ℕ) → Option ℕ
in_topic partition none = none
in_topic partition (some m) = find partition m

abbrev pub offset_at : Str → ℕ → Offsets → Option ℕ
offset_at topic partition offs = in_topic partition (find topic offs)

abbrev pub is_some : {A : Type 0} → Option A → Bool
is_some none = false
is_some (some a) = true

-- `g.offsets.entry(topic).or_default().insert(partition, offset)`
unfoldable pub set_offset : Str → ℕ → ℕ → GroupEntry → GroupEntry
set_offset topic partition offset en = record {
  owner = en.owner;
  offsets = put topic (put partition offset (unwrap_or (find topic en.offsets) [])) en.offsets;
}

unfoldable pub commit_into :
    Str → Str → ℕ → ℕ → GroupEntry → GroupStore → GroupStore × GroupResult Unit
commit_into g topic partition offset en s =
    if not (is_some (offset_at topic partition en.offsets))
      && leb max_entries_per_group (tracked en.offsets)
    then (s, refused limit)
    else (mark_dirty g (set_entry g (set_offset topic partition offset en) s), granted tt)

unfoldable pub commit : Str → ApiKey → Str → ℕ → ℕ → GroupStore → GroupStore × GroupResult Unit
commit g key topic partition offset s =
    let (claimed, answer) = authorize_or_claim g key s in
    elim answer [
      | granted en ↦ commit_into g topic partition offset en claimed
      | refused e ↦ (claimed, refused e)
    ]

unfoldable pub reset : Str → Str → ℕ → ℕ → GroupStore → GroupStore
reset g topic partition offset s = elim (find g s.entries) [
  | none ↦ s
  | some en ↦ mark_dirty g (set_entry g (set_offset topic partition offset en) s)
]

-- What is read of a group's locked entry.
abbrev pub in_entry : Str → ℕ → Option GroupEntry → Option ℕ
in_entry topic partition none = none
in_entry topic partition (some en) = offset_at topic partition en.offsets

unfoldable pub fetch : Str → Str → ℕ → GroupStore → Option ℕ
fetch g topic partition s = in_entry topic partition (find g s.entries)

unfoldable pub snapshot : Str → GroupStore → Offsets
snapshot g s = elim (find g s.entries) [ none ↦ [] | some en ↦ en.offsets ]

unfoldable pub owner_of : Str → GroupStore → Option Str
owner_of g s = elim (find g s.entries) [ none ↦ none | some en ↦ some en.owner ]

-- The files of the dirty groups, written in turn until one fails (`writes` says which do not).
unfoldable pub write_dirty :
    (Str → Bool)
    → OrdMap Str GroupEntry
    → List Str
    → OrdMap Str GroupFile
    → OrdMap Str GroupFile × Bool
write_dirty writes known [] fs = (fs, true)
write_dirty writes known (g ∷ more) fs =
    let skipped = write_dirty writes known more fs in
    elim (find g known) [
      | none ↦ skipped
      | some en ↦
          let next = write_dirty writes known more (put g (current en.owner en.offsets) fs) in
          if writes g then next else (fs, false)
    ]

-- The flag says whether the flush succeeded; when it did not, the groups stay dirty.
unfoldable pub flush : (Str → Bool) → GroupStore → GroupStore × Bool
flush writes s =
    let (fs, done) = write_dirty writes s.entries s.dirty s.files in
    (record { entries = s.entries; dirty = (if done then [] else s.dirty); files = fs }, done)
