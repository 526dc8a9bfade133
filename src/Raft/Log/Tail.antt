-- ===== src/Raft/Log/Tail.antt =====
-- raft/log.rs, `slice`: from an index to the end of the log.
use event_stream.Prelude.{
  ℕ, suc, ◌+◌, ◌-◌, ◌≤◌, ◌<◌, ◌^◌, ◌≡◌, false, ◌||◌, List, [], ◌∷◌, arith, leb, ◌==◌, length, drop,
  length-drop, take_all, min, max, u64_max, add_u64,
}
use event_stream.Raft.Messages.{LogEntry}
use event_stream.Raft.Log.{Log, last_index, slice, slice_from}
use event_stream.Raft.Log.Shape.{Follows, Contiguous, last_index-Contiguous}

slice_from_tail :
    (l : Log) (e : LogEntry) (es : List LogEntry) (j : ℕ)
    → e.index ≡ l.base_index + 1
    → last_index l ≡ l.base_index + suc (length es)
    → last_index l + 1 < 2 ^ 64
    → l.base_index < j
    → j ≤ last_index l
    → slice_from l (e ∷ es) j u64_max ≡ drop (j - l.base_index - 1) (e ∷ es)
unfolding slice_from
slice_from_tail l e es j first last small above le =
    let s : max j e.index ≡ j = omega arith in
    let n : min u64_max (add_u64 (last_index l) 1) ≡ last_index l + 1 = omega arith in
    let some_left : leb (last_index l + 1) j ≡ false = ground arith in
    let k : j - e.index ≡ j - l.base_index - 1 = omega arith in
    rw (s, n, some_left, k)
      (take_all _ _ (omega (arith, length-drop (j - l.base_index - 1) (e ∷ es))))

slice_from_any :
    (l : Log) (es : List LogEntry) (j : ℕ)
    → Follows l.base_index es
    → last_index l ≡ l.base_index + length es
    → last_index l + 1 < 2 ^ 64
    → l.base_index < j
    → j ≤ last_index l
    → slice_from l es j u64_max ≡ drop (j - l.base_index - 1) es
slice_from_any l [] j h last small above le = absurd (omega arith)
slice_from_any l (e ∷ es) j h last small above le = slice_from_tail l e es j h.0 last small above le

-- On a gapless log whose last index is below u64::MAX, `slice` from an index above the base and within
-- the log, with no upper bound, returns every entry from there on.
pub slice_tail :
    (l : Log) (j : ℕ)
    → Contiguous l
    → last_index l + 1 < 2 ^ 64
    → l.base_index < j
    → j ≤ last_index l
    → slice l j u64_max ≡ drop (j - l.base_index - 1) l.entries
unfolding slice
slice_tail l j h small above le =
    let inside : (j == 0 || leb u64_max j) ≡ false = ground arith in
    rw inside (slice_from_any l l.entries j h (last_index-Contiguous l h) small above le)
