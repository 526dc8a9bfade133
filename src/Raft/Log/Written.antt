-- ===== src/Raft/Log/Written.antt =====
-- raft/log.rs, `append_at`: the log that it leaves, on each of its three ends.
use event_stream.Prelude.{
  ℕ, zero, suc, ◌+◌, ◌-◌, ◌≤◌, ◌<◌, ◌≡◌, ◌≢◌, refl, ap, ◌∙◌, sym, none, some, List, [], ◌∷◌, ◌++◌,
  arith, ltb, leb, length, add_u64, take, drop, ◌⊎◌, inl, inr, ◌^◌, Bool-cases, leb→le, ltb→lt,
  take_all, length-take, length-drop, length-append, get_elem?-take, get_elem?-append_left,
  get_elem?-append_right, get_elem?-drop,
}
use event_stream.Raft.Messages.{LogEntry}
use event_stream.Raft.Log.{
  Log, Scan, scanned, Appended, appended, last_index, get, term_at, scan, renumber, append_at,
  append_rest, after_scan, term_of_entry,
}
use event_stream.Raft.Log.Shape.{
  Contiguous, term_elem, last_index-Contiguous, term_at-above, get-above, get-below, Follows-append,
  Follows-take, Follows-renumber,
}
use event_stream.Raft.Log.Append.{Scanned, ScanSpec, Matches, scan_spec}

-- Above the base, two logs with the same entry have the same term.
pub term_at-get :
    (l m : Log) (i : ℕ)
    → Contiguous l
    → Contiguous m
    → l.base_index ≡ m.base_index
    → m.base_index < i
    → get l i ≡ get m i
    → term_at l i ≡ term_at m i
term_at-get l m i hl hm base above e =
    term_at-above l i hl (omega arith)
    ∙ ap term_of_entry (sym (get-above l i hl (omega arith)) ∙ e ∙ get-above m i hm above)
    ∙ sym (term_at-above m i hm above)

-- The log was changed from the index `j` on.
pub record Written (l : Log) (committed start : ℕ) (es : List LogEntry) (j : ℕ) (l' : Log)
    : Type 0 where
  pub kept : ℕ
  pub skipped : ℕ
  pub at_kept : j ≡ l.base_index + kept + 1
  pub at_skipped : j ≡ start + skipped
  pub kept_le : kept ≤ length l.entries
  pub some_left : skipped < length es
  pub log_eq : l' ≡ record l { entries = take kept l.entries ++ renumber j (drop skipped es) }
  pub untouched : (kept ≡ length l.entries) ⊎ (committed < j)
  pub held : Matches l start es skipped

abbrev pub AppendSpec : Log → ℕ → ℕ → List LogEntry → Appended → Type 0
AppendSpec l committed start es Appended.refused =
    (k : ℕ) × (k < length es)
    × (l.base_index < start + k)
    × (start + k ≤ committed)
    × (term_at l (start + k) ≢ term_elem es k)
AppendSpec l committed start es (appended none l') = (l' ≡ l) × Matches l start es (length es)
AppendSpec l committed start es (appended (some j) l') = Written l committed start es j l'

pub length-renumber : (j : ℕ) (es : List LogEntry) → length (renumber j es) ≡ length es
unfolding renumber
length-renumber j [] = refl
length-renumber j (e ∷ es) = ap suc (length-renumber (add_u64 j 1) es)

pub term_elem-renumber :
    (j k : ℕ) (es : List LogEntry) → term_elem (renumber j es) k ≡ term_elem es k
unfolding renumber
term_elem-renumber j k [] = refl
term_elem-renumber j zero (e ∷ es) = refl
term_elem-renumber j (suc k) (e ∷ es) = term_elem-renumber (add_u64 j 1) k es

-- What the hypotheses of `append_at` come to in the handler: the log has no gap, the entries
-- start at most one past its end, and no index overflows.
pub record Fits (l : Log) (start : ℕ) (es : List LogEntry) : Type 0 where
  pub shape : Contiguous l
  pub reach : start ≤ l.base_index + length l.entries + 1
  pub small : start + length es < 2 ^ 64

module _ (l : Log) (committed start : ℕ) (es : List LogEntry) (fits : Fits l start es) where
  AppendSpec-append_rest :
      (l' : Log) (rest : List LogEntry)
      → Scanned l committed start es l' rest
      → AppendSpec l committed start es (append_rest l' rest)
  unfolding append_rest
  AppendSpec-append_rest l' [] s =
      let left : 0 ≡ length es - s.skipped = ap length s.rest_eq ∙ length-drop s.skipped es in
      let all : s.skipped ≡ length es = omega (arith, s.within) in
      let kept_all : s.kept ≡ length l.entries = ground (arith, s.untouched) in
      let same : take s.kept l.entries ≡ l.entries = take_all s.kept l.entries (omega arith) in
      (s.log_eq ∙ ap (λ xs. record l { entries = xs }) same, rw all at s.held)
  AppendSpec-append_rest l' (e ∷ rest) s =
      let left : suc (length rest) ≡ length es - s.skipped =
        ap length s.rest_eq ∙ length-drop s.skipped es in
      let lt : s.skipped < length es = omega arith in
      let j : ℕ = add_u64 (last_index l') 1 in
      let cut : Log = record l { entries = take s.kept l.entries } in
      let end : last_index l' ≡ l.base_index + s.kept =
        ap last_index s.log_eq
        ∙ last_index-Contiguous cut (Follows-take l.base_index s.kept l.entries fits.shape)
        ∙ omega (arith, length-take s.kept l.entries, s.kept_le) in
      let at : j ≡ l.base_index + s.kept + 1 = omega (arith, s.place lt, fits.small) in
      record {
        kept = s.kept;
        skipped = s.skipped;
        at_kept = at;
        at_skipped = omega (arith, s.place lt);
        kept_le = s.kept_le;
        some_left = lt;
        log_eq =
            ap (λ (m : Log). record m { entries = m.entries ++ renumber j (e ∷ rest) }) s.log_eq
            ∙ ap
                (λ (r : List LogEntry). record l {
                  entries = take s.kept l.entries ++ renumber j r;
                })
                s.rest_eq;
        untouched = ground (arith, s.untouched, s.place lt);
        held = s.held;
      }

  -- Every end of `append_at` meets its specification.
  pub append_at_spec : AppendSpec l committed start es (append_at l start es committed)
  unfolding append_at
  append_at_spec =
      go (scan l committed start es)
        (scan_spec l committed fits.shape start es fits.reach fits.small)
    where
      go :
          (s : Scan)
          → ScanSpec l committed start es s
          → AppendSpec l committed start es (after_scan s)
      go Scan.refused h = h
      go (scanned l' rest) h = AppendSpec-append_rest l' rest h

module _ (l : Log) (committed start : ℕ) (es : List LogEntry) (j : ℕ) (l' : Log)
    (fits : Fits l start es) (w : Written l committed start es j l') where
  cut : Log
  cut = record l { entries = take w.kept l.entries }

  length-kept : length (take w.kept l.entries) ≡ w.kept
  length-kept = omega (arith, length-take w.kept l.entries, w.kept_le)

  length-left : length (renumber j (drop w.skipped es)) ≡ length es - w.skipped
  length-left = length-renumber j (drop w.skipped es) ∙ length-drop w.skipped es

  pub Written-shape : Contiguous l'
  Written-shape = rw w.log_eq (
      Follows-append l.base_index (take w.kept l.entries) _
        (Follows-take l.base_index w.kept l.entries fits.shape)
        (Follows-renumber (l.base_index + length (take w.kept l.entries)) j (drop w.skipped es)
          (omega (arith, length-kept, w.at_kept))
          (omega (arith, length-drop w.skipped es, w.at_skipped, fits.small))))

  pub Written-base : (l'.base_index ≡ l.base_index) × (l'.base_term ≡ l.base_term)
  Written-base = (ap (λ (m : Log). m.base_index) w.log_eq, ap (λ (m : Log). m.base_term) w.log_eq)

  pub Written-length : l'.base_index + length l'.entries + 1 ≡ start + length es
  Written-length =
      let q : length l'.entries ≡ w.kept + (length es - w.skipped) =
        ap (λ (m : Log). length m.entries) w.log_eq
        ∙ length-append (take w.kept l.entries) (renumber j (drop w.skipped es))
        ∙ omega (arith, length-kept, length-left) in
      omega (arith, q, Written-base.0, w.at_kept, w.at_skipped, w.some_left)

  -- Nothing below the first changed index differs.
  pub Written-below : (i : ℕ) → i < j → get l' i ≡ get l i
  Written-below i lt = elim (Bool-cases (leb i l.base_index)) [
    | inl low ↦
        get-below l' i Written-shape (omega (arith, leb→le _ _ low, Written-base.0))
        ∙ sym (get-below l i fits.shape (leb→le _ _ low))
    | inr high ↦
        let above : l.base_index < i = ground arith in
        let k : ℕ = i - l.base_index - 1 in
        let small : k < w.kept = omega (arith, w.at_kept) in
        get-above l' i Written-shape (omega (arith, Written-base.0))
        ∙ rw (w.log_eq) (
            get_elem?-append_left k (take w.kept l.entries) _ (omega (arith, length-kept))
            ∙ get_elem?-take w.kept k l.entries small)
        ∙ sym (get-above l i fits.shape above)
  ]

  term_elem-kept : (k : ℕ) → term_elem l'.entries (w.kept + k) ≡ term_elem es (w.skipped + k)
  term_elem-kept k =
      let left : List LogEntry = take w.kept l.entries in
      let right : List LogEntry = renumber j (drop w.skipped es) in
      let q : w.kept + k ≡ length left + k = omega (arith, length-kept) in
      rw w.log_eq (
        ap (term_elem (left ++ right)) q
        ∙ ap term_of_entry (get_elem?-append_right k left right)
        ∙ term_elem-renumber j k (drop w.skipped es)
        ∙ ap term_of_entry (get_elem?-drop w.skipped k es))

  -- Every new entry above the base is in the log, under the index that it came for.
  pub Written-holds : Matches l' start es (length es)
  Written-holds k lt above =
      let base : l'.base_index ≡ l.base_index = Written-base.0 in
      elim (Bool-cases (ltb k w.skipped)) [
        | inl early ↦
            let before : k < w.skipped = ltb→lt _ _ early in
            let old : l.base_index < start + k = omega (arith) in
            term_at-get l' l (start + k) Written-shape fits.shape base old
              (Written-below (start + k) (omega (arith, w.at_skipped)))
            ∙ w.held k before old
        | inr late ↦
            let after : w.skipped ≤ k = ground arith in
            let d : ℕ = k - w.skipped in
            let e : start + k - l'.base_index - 1 ≡ w.kept + d =
              omega (arith, w.at_kept, w.at_skipped) in
            let f : w.skipped + d ≡ k = omega arith in
            term_at-above l' (start + k) Written-shape above
            ∙ ap (term_elem l'.entries) e
            ∙ term_elem-kept d
            ∙ ap (term_elem es) f
      ]
