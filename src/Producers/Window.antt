-- ===== src/Producers/Window.antt =====
-- producers.rs: what is remembered is exactly the last accepted sequences.
use event_stream.Prelude.{
  ℕ, zero, suc, ◌+◌, ◌-◌, ◌≤◌, ◌<◌, ◌≡◌, refl, ap, ◌∙◌, inl, inr, true, false, Option, none, some,
  List, [], ◌∷◌, ◌++◌, arith, ltb, ◌==◌, saturating_add, u64_max, length, drop, is_empty, get_elem?,
  length-append, length-drop, Bool-cases,
}
use event_stream.Prelude.{or_true}
use event_stream.Producers.{
  DedupeOutcome, accept, duplicate, sequence_too_low, gap, window, PartitionWindow, find_recent,
  check_window, empty_window, trim, record_window,
}

-- The pairs carry the sequences from `from` on, without a gap.
abbrev pub Runs : ℕ → List (ℕ × ℕ) → Type 0
Runs from [] = Unit
Runs from ((s, off) ∷ more) = (s ≡ from) × Runs (from + 1) more

-- The window remembers the sequences from `from` to `last_seen`, at least one and at most `window`.
pub record IsWindow (w : PartitionWindow) : Type 0 where
  pub from : ℕ
  pub runs : Runs from w.recent
  pub ends : from + length w.recent ≡ w.last_seen + 1
  pub some_recent : 0 < length w.recent
  pub bounded : length w.recent ≤ window

abbrev offset_of : Option (ℕ × ℕ) → Option ℕ
offset_of none = none
offset_of (some (s, off)) = some off

find_recent-Runs :
    (from k : ℕ) (recent : List (ℕ × ℕ)) (s off : ℕ)
    → Runs from recent
    → get_elem? recent k ≡ some (s, off)
    → find_recent recent (from + k) ≡ some off
unfolding find_recent
find_recent-Runs from k [] s off h e = absurd (cc e)
find_recent-Runs from zero ((a, o) ∷ more) s off h e =
    let here : (a == from + 0) ≡ true = ground (arith, h.0) in
    rw here (ap (λ (o : Option (ℕ × ℕ)). offset_of o) e)
find_recent-Runs from (suc k) ((a, o) ∷ more) s off h e =
    let past : (a == from + suc k) ≡ false = ground (arith, h.0) in
    let next : from + 1 + k ≡ from + suc k = omega arith in
    rw past (rw next at (find_recent-Runs (from + 1) k more s off h.1 e))

find_recent-below :
    (from sequence : ℕ) (recent : List (ℕ × ℕ))
    → Runs from recent
    → sequence < from
    → find_recent recent sequence ≡ none
unfolding find_recent
find_recent-below from sequence [] h lt = refl
find_recent-below from sequence ((a, o) ∷ more) h lt =
    let past : (a == sequence) ≡ false = ground (arith, h.0) in
    rw past (find_recent-below (from + 1) sequence more h.1 (omega arith))

Runs-append :
    (from : ℕ) (recent : List (ℕ × ℕ)) (off : ℕ)
    → Runs from recent
    → Runs from (recent ++ (from + length recent, off) ∷ [])
Runs-append from [] off h = (omega arith, tt)
Runs-append from ((a, o) ∷ more) off h =
    let next : from + 1 + length more ≡ from + suc (length more) = omega arith in
    (h.0, rw next at (Runs-append (from + 1) more off h.1))

Runs-drop :
    (from n : ℕ) (recent : List (ℕ × ℕ))
    → Runs from recent
    → n ≤ length recent
    → Runs (from + n) (drop n recent)
Runs-drop from zero recent h le = let same : from ≡ from + 0 = omega arith in rw same at h
Runs-drop from (suc n) [] h le = absurd (omega arith)
Runs-drop from (suc n) ((a, o) ∷ more) h le =
    let next : from + 1 + n ≡ from + suc n = omega arith in
    rw next at (Runs-drop (from + 1) n more h.1 (omega arith))

-- What `record` makes of a window that accepted the next sequence.
next_window :
    (w : PartitionWindow) (off : ℕ)
    → record_window w (w.last_seen + 1) off ≡ record {
      last_seen = w.last_seen + 1;
      last_offset = off;
      recent = trim (w.recent ++ (w.last_seen + 1, off) ∷ []);
    }
unfolding record_window
next_window w off =
    let newer : ltb w.last_seen (w.last_seen + 1) ≡ true = ground arith in
    rw (newer, or_true (is_empty w.recent)) refl

-- A window that holds the last accepted sequences without a gap, at least one and at most 128, does
-- so again once the next sequence (if it is not beyond the last `i64`) is recorded.
pub record_window-IsWindow :
    (w : PartitionWindow) (off : ℕ)
    → IsWindow w
    → w.last_seen < u64_max
    → IsWindow (record_window w (w.last_seen + 1) off)
record_window-IsWindow w off h lt =
    let all : List (ℕ × ℕ) = w.recent ++ (w.last_seen + 1, off) ∷ [] in
    let len : length all ≡ length w.recent + 1 =
      length-append w.recent ((w.last_seen + 1, off) ∷ []) in
    let dropped : ℕ = length all - window in
    let left : length (trim all) ≡ length all - dropped = length-drop dropped all in
    let place : h.from + length w.recent ≡ w.last_seen + 1 = h.ends in
    let runs : Runs h.from all = rw place at (Runs-append h.from w.recent off h.runs) in
    rw (next_window w off) (record {
      from = h.from + dropped;
      runs = Runs-drop h.from dropped all runs (omega (arith, len, h.bounded));
      ends = omega (arith, left, len, h.ends, h.bounded);
      some_recent = omega (arith, left, len, h.bounded);
      bounded = omega (arith, left, len, h.bounded);
    })

-- The first record that a producer sends makes a window of its own.
pub first_window-IsWindow : (sequence off : ℕ) → IsWindow (record_window empty_window sequence off)
unfolding record_window
first_window-IsWindow sequence off = record {
  from = sequence;
  runs = (refl, tt);
  ends = refl;
  some_recent = omega arith;
  bounded = omega arith;
}

-- The four answers that a sequence can get from a window that remembers from `from` on.
pub data Answer (w : PartitionWindow) (from sequence : ℕ) : DedupeOutcome → Type 0 where
  next : sequence ≡ w.last_seen + 1 → Answer w from sequence accept
  ahead : w.last_seen + 1 < sequence → Answer w from sequence (gap (w.last_seen + 1) sequence)
  old : sequence < from → Answer w from sequence (sequence_too_low w.last_seen)
  remembered :
      (off : ℕ)
      → from ≤ sequence
      → get_elem? w.recent (sequence - from) ≡ some (sequence, off)
      → Answer w from sequence (duplicate off)

Runs-get :
    (from k : ℕ) (recent : List (ℕ × ℕ))
    → Runs from recent
    → k < length recent
    → (off : ℕ) × (get_elem? recent k ≡ some (from + k, off))
Runs-get from k [] h lt = absurd (omega arith)
Runs-get from zero ((a, o) ∷ more) h lt = (o, ap (λ (x : ℕ). some (x, o)) (omega (arith, h.0)))
Runs-get from (suc k) ((a, o) ∷ more) h lt =
    let (off, e) = Runs-get (from + 1) k more h.1 (omega arith) in
    (off, e ∙ ap (λ (x : ℕ). some (x, off)) (omega arith))

-- With a window that holds the last accepted sequences without a gap, and whose last sequence is not
-- the last `i64`, a sequence is accepted if it is the next one, leaves a gap if it is beyond it, is
-- too low if it is below the window, and is otherwise answered with the offset recorded for it.
pub check_window_lem :
    (w : PartitionWindow) (sequence : ℕ)
    → (h : IsWindow w) → w.last_seen < u64_max
    → Answer w h.from sequence (check_window (some w) sequence)
unfolding check_window
check_window_lem w sequence h lt =
    let sat : saturating_add w.last_seen 1 ≡ w.last_seen + 1 = omega arith in
    elim (Bool-cases (sequence == (w.last_seen + 1))) [
      | inl same ↦ rw (sat, same) (next (ground (arith, same)))
      | inr other ↦ elim (Bool-cases (ltb w.last_seen sequence)) [
        | inl above ↦ rw (sat, other, above) (ahead (ground (arith, other, above)))
        | inr within ↦ elim (Bool-cases (ltb sequence h.from)) [
          | inl low ↦
              let below : sequence < h.from = ground (arith, low) in
              let differs : (sequence == w.last_seen) ≡ false =
                ground (arith, below, h.ends, h.some_recent) in
              rw
                (
                  sat,
                  other,
                  within,
                  find_recent-below h.from sequence w.recent h.runs below,
                  differs,
                )
                (old below)
          | inr kept ↦
              let from_le : h.from ≤ sequence = ground (arith, kept) in
              let le_last : sequence ≤ w.last_seen = ground (arith, within) in
              let at_ : h.from + (sequence - h.from) ≡ sequence = omega (arith, from_le) in
              let (off, e) =
                Runs-get h.from (sequence - h.from) w.recent h.runs
                  (omega (arith, h.ends, le_last, from_le)) in
              let found : find_recent w.recent sequence ≡ some off =
                rw at_ at (find_recent-Runs h.from (sequence - h.from) w.recent _ off h.runs e) in
              rw (sat, other, within, found) (remembered off from_le (rw at_ at e))
        ]
      ]
    ]
