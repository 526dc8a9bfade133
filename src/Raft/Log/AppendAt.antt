-- ===== src/Raft/Log/AppendAt.antt =====
-- raft/log.rs, `append_at`: committed history stays, and an accepted append is in the log.
use event_stream.Prelude.{
  ℕ, zero, suc, ◌+◌, ◌-◌, ◌≤◌, ◌<◌, ◌≡◌, ◌≢◌, ◌↔◌, refl, ◌∙◌, sym, Option, none, some, List, arith,
  length, leb, leb→le, Bool-cases, inl, inr,
}
use event_stream.Raft.Messages.{LogEntry}
use event_stream.Raft.Log.{Log, Appended, appended, last_index, get, term_at, append_at}
use event_stream.Raft.Log.Shape.{
  Contiguous, term_elem, last_index-Contiguous, term_at-above, term_elem_in, term_elem-some,
}
use event_stream.Raft.Log.Append.{Matches}
use event_stream.Raft.Log.Written.{
  AppendSpec, Written, Fits, append_at_spec, Written-shape, Written-base, Written-below,
  Written-holds, Written-length, term_at-get,
}

-- Same base, no gap, and every entry up to `committed` as it was.
pub record KeepsCommitted (committed : ℕ) (l l' : Log) : Type 0 where
  pub shape : Contiguous l'
  pub base_index : l'.base_index ≡ l.base_index
  pub base_term : l'.base_term ≡ l.base_term
  pub below : (i : ℕ) → i ≤ committed → get l' i ≡ get l i

module _ (l : Log) (committed start : ℕ) (es : List LogEntry) (fits : Fits l start es) where
  spec_of : {r : Appended} → append_at l start es committed ≡ r → AppendSpec l committed start es r
  spec_of e = rw e at (append_at_spec l committed start es fits)

  KeepsCommitted-of :
      (ch : Option ℕ) (l' : Log)
      → committed ≤ last_index l
      → AppendSpec l committed start es (appended ch l')
      → KeepsCommitted committed l l'
  KeepsCommitted-of none l' le (same, _) =
      rw same
        (record { shape = fits.shape; base_index = refl; base_term = refl; below = λ i h. refl })
  KeepsCommitted-of (some j) l' le w = record {
    shape = Written-shape l committed start es j l' fits w;
    base_index = (Written-base l committed start es j l' fits w).0;
    base_term = (Written-base l committed start es j l' fits w).1;
    below = λ i h.
        Written-below l committed start es j l' fits w i
          (ground (arith, w.untouched, w.at_kept, last_index-Contiguous l fits.shape));
  }

  Matches-of :
      (ch : Option ℕ) (l' : Log)
      → AppendSpec l committed start es (appended ch l')
      → Matches l' start es (length es)
  Matches-of none l' (same, held) = rw same held
  Matches-of (some j) l' w = Written-holds l committed start es j l' fits w

  -- If `append_at` accepts entries that start at most one past the end of a gapless log (no index
  -- of theirs overflowing), and the commit index is in the log, the new log has no gap and the same
  -- base, and each of its entries up to the commit index is unchanged.
  pub append_at-KeepsCommitted :
      (ch : Option ℕ) (l' : Log)
      → committed ≤ last_index l
      → append_at l start es committed ≡ appended ch l'
      → KeepsCommitted committed l l'
  append_at-KeepsCommitted ch l' le e = KeepsCommitted-of ch l' le (spec_of e)

  -- If `append_at` accepts entries that start at most one past the end of a gapless log (no index
  -- of theirs overflowing), then for every new entry whose index lies above the snapshot the log
  -- holds an entry of the same term under that index.
  pub append_at-holds_all :
      (ch : Option ℕ) (l' : Log)
      → append_at l start es committed ≡ appended ch l'
      → (k : ℕ) → k < length es
      → l'.base_index < start + k
      → term_at l' (start + k) ≡ term_elem es k
  append_at-holds_all ch l' e = Matches-of ch l' (spec_of e)

  -- A new entry that contradicts the log at a committed index above the snapshot.
  abbrev pub Conflict : Type 0
  Conflict =
      (k : ℕ) × (k < length es)
      × (l.base_index < start + k)
      × (start + k ≤ committed)
      × (term_at l (start + k) ≢ term_elem es k)

  not-Conflict :
      (ch : Option ℕ) (l' : Log)
      → committed ≤ last_index l
      → AppendSpec l committed start es (appended ch l')
      → ¬ Conflict
  not-Conflict ch l' le s (k, lt, above, fixed, differs) =
      let keeps : KeepsCommitted committed l l' = KeepsCommitted-of ch l' le s in
      differs (
        sym (
          term_at-get l' l (start + k) keeps.shape fits.shape keeps.base_index above
            (keeps.below (start + k) fixed))
        ∙ Matches-of ch l' s k lt (omega (arith, keeps.base_index)))

  refused_of :
      (r : Appended)
      → committed ≤ last_index l
      → AppendSpec l committed start es r
      → Conflict
      → r ≡ Appended.refused
  refused_of Appended.refused le s c = refl
  refused_of (appended ch l') le s c = absurd (not-Conflict ch l' le s c)

  -- On a gapless log that holds the commit index, and entries that start at most one past its end
  -- (no index of theirs overflowing), `append_at` refuses exactly when one of the new entries
  -- differs in term from the log at an index that is committed and above the snapshot.
  pub append_at-refuses_iff :
      committed ≤ last_index l → (append_at l start es committed ≡ Appended.refused) ↔ Conflict
  append_at-refuses_iff le = (
    λ e. spec_of e,
    λ c.
        refused_of (append_at l start es committed) le (append_at_spec l committed start es fits) c,
  )

  reached :
      (l' : Log) (n : ℕ)
      → Contiguous l'
      → Matches l' start es n
      → n ≤ length es
      → start ≤ last_index l' + 1
      → start + n ≤ last_index l' + 1
  reached l' zero shape held le h = omega arith
  reached l' (suc n) shape held le h = elim (Bool-cases (leb (start + n) l'.base_index)) [
    | inl low ↦ omega (arith, leb→le (start + n) l'.base_index low, last_index-Contiguous l' shape)
    | inr high ↦
        let above : l'.base_index < start + n = ground arith in
        let (t, e) = term_elem-some es n (omega arith) in
        omega (
          arith,
          last_index-Contiguous l' shape,
          term_elem_in l'.entries (start + n - l'.base_index - 1) t
              (sym (term_at-above l' (start + n) shape above) ∙ held n (omega arith) above ∙ e),
        )
  ]

  -- If `append_at` accepts entries that start at most one past the end of a gapless log (no index
  -- of theirs overflowing), the new log reaches at least to the last of them.
  pub append_at_reaches :
      (ch : Option ℕ) (l' : Log)
      → append_at l start es committed ≡ appended ch l'
      → start + length es ≤ last_index l' + 1
  append_at_reaches none l' e =
      let (same, held) = spec_of e in
      rw same (
        reached l (length es) fits.shape held (omega arith)
          (omega (arith, fits.reach, last_index-Contiguous l fits.shape)))
  append_at_reaches (some j) l' e =
      let w : Written l committed start es j l' = spec_of e in
      omega (
        arith,
        Written-length l committed start es j l' fits w,
        last_index-Contiguous l' (Written-shape l committed start es j l' fits w),
      )
