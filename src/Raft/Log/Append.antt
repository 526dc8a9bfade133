-- ===== src/Raft/Log/Append.antt =====
-- raft/log.rs, `append_at`: what it keeps, what it writes, and what it refuses.
use event_stream.Prelude.{
  ℕ, zero, suc, ◌+◌, ◌-◌, ◌≤◌, ◌<◌, ◌≡◌, ◌≢◌, refl, ap, ◌∙◌, sym, none, some, List, [], ◌∷◌, arith,
  leb, ◌==◌, length, add_u64, take, drop, ◌⊎◌, inl, inr, ◌^◌, Bool-cases, Option-cases, leb→le,
  lt→leb, ==_iff, take_all,
}
use event_stream.Raft.Messages.{LogEntry}
use event_stream.Raft.Log.{Log, Scan, scanned, term_at, scan, truncate_from}
use event_stream.Raft.Log.Shape.{
  Contiguous, term_elem, term_at-above, term_elem_in, term_elem-none, truncated-Follows,
}

-- Cutting above the base keeps the entries below the cut.
pub truncate_from-above :
    (l : Log) (cut : ℕ)
    → Contiguous l
    → l.base_index < cut
    → truncate_from l cut ≡ record l { entries = take (cut - l.base_index - 1) l.entries }
unfolding truncate_from
truncate_from-above l cut h lt =
    rw (lt→leb l.base_index cut lt, truncated-Follows l.base_index cut l.entries h lt)

-- The first `n` new entries are in the log already, as far as the snapshot does not hold them.
abbrev pub Matches : Log → ℕ → List LogEntry → ℕ → Type 0
Matches l idx es n = (k : ℕ) → k < n → l.base_index < idx + k → term_at l (idx + k) ≡ term_elem es k

-- What the scan hands on: the log cut at the first conflict, and the entries from there on.
pub record Scanned (l : Log) (committed idx : ℕ) (es : List LogEntry) (l' : Log)
    (rest : List LogEntry) : Type 0 where
  pub skipped : ℕ
  pub kept : ℕ
  pub rest_eq : rest ≡ drop skipped es
  pub within : skipped ≤ length es
  pub log_eq : l' ≡ record l { entries = take kept l.entries }
  pub kept_le : kept ≤ length l.entries
  pub place : (skipped < length es) → l.base_index + kept + 1 ≡ idx + skipped
  pub untouched : (kept ≡ length l.entries) ⊎ ((committed < idx + skipped) × (skipped < length es))
  pub held : Matches l idx es skipped

module _ (l : Log) (committed : ℕ) (shape : Contiguous l) where
  Matches-cons :
      (idx n : ℕ) (e : LogEntry) (es : List LogEntry)
      → (l.base_index < idx → term_at l idx ≡ some e.term)
      → Matches l (idx + 1) es n
      → Matches l idx (e ∷ es) (suc n)
  Matches-cons idx n e es here there zero lt above =
      let q : idx + 0 ≡ idx = omega arith in rw q (here (omega arith))
  Matches-cons idx n e es here there (suc k) lt above =
      let q : idx + suc k ≡ idx + 1 + k = omega arith in rw q (there k (omega arith) (omega arith))

  Scanned-here :
      (idx : ℕ) (e : LogEntry) (es : List LogEntry)
      → l.base_index < idx
      → idx ≤ l.base_index + length l.entries + 1
      → (idx ≤ l.base_index + length l.entries → committed < idx)
      → Scanned l committed idx
          (e ∷ es)
          (record l { entries = take (idx - l.base_index - 1) l.entries })
          (e ∷ es)
  Scanned-here idx e es above reach free = record {
    skipped = 0;
    kept = idx - l.base_index - 1;
    rest_eq = refl;
    within = omega arith;
    log_eq = refl;
    kept_le = omega arith;
    place = λ _. omega arith;
    untouched = ground arith;
    held = λ k lt _. absurd (omega arith);
  }

  Scanned-next :
      (idx : ℕ) (e : LogEntry) (es : List LogEntry) (l' : Log) (rest : List LogEntry)
      → (l.base_index < idx → term_at l idx ≡ some e.term)
      → Scanned l committed (idx + 1) es l' rest
      → Scanned l committed idx (e ∷ es) l' rest
  Scanned-next idx e es l' rest here s = record {
    skipped = suc s.skipped;
    kept = s.kept;
    rest_eq = s.rest_eq;
    within = omega (arith, s.within);
    log_eq = s.log_eq;
    kept_le = s.kept_le;
    place = λ lt. omega (arith, s.place (omega arith));
    untouched = ground (arith, s.untouched);
    held = Matches-cons idx s.skipped e es here s.held;
  }

-- How a scan may end.
abbrev pub ScanSpec : Log → ℕ → ℕ → List LogEntry → Scan → Type 0
ScanSpec l committed idx es Scan.refused =
    (k : ℕ) × (k < length es)
    × (l.base_index < idx + k)
    × (idx + k ≤ committed)
    × (term_at l (idx + k) ≢ term_elem es k)
ScanSpec l committed idx es (scanned l' rest) = Scanned l committed idx es l' rest

module _ (l : Log) (committed : ℕ) (shape : Contiguous l) where
  term_at_reach :
      (idx t : ℕ)
      → l.base_index < idx
      → term_at l idx ≡ some t
      → idx ≤ l.base_index + length l.entries
  term_at_reach idx t above e = omega (
    arith,
    term_elem_in l.entries (idx - l.base_index - 1) t (sym (term_at-above l idx shape above) ∙ e),
  )

  term_at_past :
      (idx : ℕ) → l.base_index < idx → term_at l idx ≡ none → l.base_index + length l.entries < idx
  term_at_past idx above e = omega (
    arith,
    term_elem-none l.entries (idx - l.base_index - 1) (sym (term_at-above l idx shape above) ∙ e),
  )

  ScanSpec-next :
      (idx : ℕ) (e : LogEntry) (es : List LogEntry) (s : Scan)
      → (l.base_index < idx → term_at l idx ≡ some e.term)
      → ScanSpec l committed (idx + 1) es s
      → ScanSpec l committed idx (e ∷ es) s
  ScanSpec-next idx e es Scan.refused here (k, lt, above, le, differs) =
      let q : idx + 1 + k ≡ idx + suc k = omega arith in
      (suc k, omega arith, omega arith, omega arith, rw q at differs)
  ScanSpec-next idx e es (scanned l' rest) here s =
      Scanned-next l committed shape idx e es l' rest here s

  Scanned-whole :
      (idx : ℕ) (e : LogEntry) (es : List LogEntry)
      → l.base_index < idx
      → idx ≤ l.base_index + length l.entries + 1
      → l.base_index + length l.entries < idx
      → Scanned l committed idx (e ∷ es) l (e ∷ es)
  Scanned-whole idx e es above reach far =
      let all : take (idx - l.base_index - 1) l.entries ≡ l.entries =
        take_all _ l.entries (omega arith) in
      rw all at (Scanned-here l committed shape idx e es above reach (λ le. absurd (omega arith)))

  refused_here :
      (idx t : ℕ) (e : LogEntry) (es : List LogEntry)
      → t ≢ e.term
      → term_at l idx ≡ some t
      → term_at l (idx + 0) ≢ term_elem (e ∷ es) 0
  refused_here idx t e es differs found =
      let q : idx + 0 ≡ idx = omega arith in rw (q, found) (λ p. differs (ground arith))

  pub scan_spec :
      (idx : ℕ) (es : List LogEntry)
      → idx ≤ l.base_index + length l.entries + 1
      → idx + length es < 2 ^ 64
      → ScanSpec l committed idx es (scan l committed idx es)
  unfolding scan
  scan_spec idx [] reach fits = record {
    skipped = 0;
    kept = length l.entries;
    rest_eq = refl;
    within = omega arith;
    log_eq =
        ap (λ es. record l { entries = es })
          (sym (take_all (length l.entries) l.entries (omega arith)));
    kept_le = omega arith;
    place = λ lt. absurd (omega arith);
    untouched = inl refl;
    held = λ k lt _. absurd (omega arith);
  }
  scan_spec idx (e ∷ es) reach fits =
      let next : ℕ = add_u64 idx 1 in
      let step : next ≡ idx + 1 = omega arith in
      let go =
        λ (here : l.base_index < idx → term_at l idx ≡ some e.term)
            (reach' : idx ≤ l.base_index + length l.entries).
          ScanSpec-next idx e es (scan l committed next es) here
            (rw step (scan_spec (idx + 1) es (omega arith) (omega arith))) in
      elim (Bool-cases (leb idx l.base_index)) [
        | inl below ↦
            let le : idx ≤ l.base_index = leb→le _ _ below in
            rw below (go (λ lt. absurd (omega arith)) (omega arith))
        | inr above ↦
            let lt : l.base_index < idx = ground arith in
            elim (Option-cases (term_at l idx)) [
              | inl past ↦
                  let far : l.base_index + length l.entries < idx = term_at_past idx lt past in
                  rw (above, past) (Scanned-whole idx e es lt reach far)
              | inr (t, found) ↦ elim (Bool-cases (t == e.term)) [
                | inl same ↦
                    let eq : t ≡ e.term = (==_iff t e.term).0 same in
                    rw (above, found, same)
                      (go (λ _. rw eq at found) (term_at_reach idx t lt found))
                | inr other ↦ elim (Bool-cases (leb idx committed)) [
                  | inl fixed ↦
                      let differs : t ≢ e.term = λ q. ground arith in
                      let le : idx ≤ committed = leb→le _ _ fixed in
                      rw (above, found, other, fixed)
                        (
                          0,
                          omega arith,
                          omega arith,
                          omega arith,
                          refused_here idx t e es differs found,
                        )
                  | inr free ↦
                      rw (above, found, other, free, truncate_from-above l idx shape lt)
                        (Scanned-here l committed shape idx e es lt reach (λ _. ground arith))
                ]
              ]
            ]
      ]
