-- ===== src/Raft/Log/Compact.antt =====
-- raft/log.rs, `compact_through` and `install_snapshot`.
use event_stream.Prelude.{
  ℕ, zero, suc, ◌+◌, ◌-◌, ◌≤◌, ◌<◌, ◌≡◌, refl, ap, sym, ◌∙◌, some, List, [], ◌∷◌, arith, leb,
  lt→leb, leb→le, length, drop, length-drop, drop_all, min, u64_max, saturating_add, Bool-cases,
  inl, inr,
}
use event_stream.Raft.Messages.{LogEntry}
use event_stream.Raft.Log.{Log, last_index, term_at, compact_through, drain_count}
use event_stream.Raft.Log.Shape.{
  Follows, Contiguous, last_index-Contiguous, term_at-above, term_elem_in, Follows-drop,
}

-- An index with a term lies in the log.
pub term_at_le : (l : Log) (i t : ℕ) → Contiguous l → term_at l i ≡ some t → i ≤ last_index l
term_at_le l i t h e = elim (Bool-cases (leb i l.base_index)) [
  | inl low ↦ omega (arith, leb→le i l.base_index low, last_index-Contiguous l h)
  | inr high ↦
      let above : l.base_index < i = ground arith in
      omega (
        arith,
        last_index-Contiguous l h,
        term_elem_in l.entries (i - l.base_index - 1) t (sym (term_at-above l i h above) ∙ e),
      )
]

drop-min : (n : ℕ) (es : List LogEntry) → drop (min n (length es)) es ≡ drop n es
drop-min n es = elim (Bool-cases (leb n (length es))) [
  | inl le ↦
      let q : min n (length es) ≡ n = omega (arith, leb→le n (length es) le) in
      ap (λ (k : ℕ). drop k es) q
  | inr gt ↦
      let lt : length es < n = ground arith in
      let q : min n (length es) ≡ length es = omega arith in
      ap (λ (k : ℕ). drop k es) q
      ∙ drop_all (length es) es (omega arith)
      ∙ sym (drop_all n es (omega arith))
]

pub drop_nil : (n : ℕ) → ◌≡◌ {A = List LogEntry} (drop n []) []
drop_nil zero = refl
drop_nil (suc n) = refl

pub drained :
    (b cut : ℕ) (es : List LogEntry)
    → Follows b es
    → cut < u64_max
    → drop (drain_count es cut) es ≡ drop (cut - b) es
drained b cut [] h small = sym (drop_nil (cut - b))
drained b cut (e ∷ es) h small =
    let q : saturating_add cut 1 - e.index ≡ cut - b = omega (arith, h.0) in
    ap (λ (k : ℕ). drop (min k (length (e ∷ es))) (e ∷ es)) q ∙ drop-min (cut - b) (e ∷ es)

-- Compacting above the base drops exactly the entries up to the cut.
pub compact_through-above :
    (l : Log) (cut t : ℕ)
    → Contiguous l
    → l.base_index < cut
    → cut < u64_max
    → compact_through l cut t
      ≡ record { entries = drop (cut - l.base_index) l.entries; base_index = cut; base_term = t }
unfolding compact_through
compact_through-above l cut t h lt small = rw (lt→leb l.base_index cut lt) (
    ap (λ (es : List LogEntry). record { entries = es; base_index = cut; base_term = t })
      (drained l.base_index cut l.entries h small))

-- What compacting within the log leaves.
pub record Compacted (l : Log) (cut t : ℕ) (l' : Log) : Type 0 where
  pub shape : Contiguous l'
  pub base_index : l'.base_index ≡ cut
  pub base_term : l'.base_term ≡ t
  pub last : last_index l' ≡ last_index l
  pub entries : l'.entries ≡ drop (cut - l.base_index) l.entries

-- Compacting a gapless log at an index above its base and within it leaves a gapless log with the
-- base there, the same last index, and exactly the entries after the cut.
pub compact_through-Compacted :
    (l : Log) (cut t : ℕ)
    → Contiguous l
    → l.base_index < cut
    → cut ≤ last_index l
    → cut < u64_max
    → Compacted l cut t (compact_through l cut t)
compact_through-Compacted l cut t h lt le small =
    let n : ℕ = cut - l.base_index in
    let within : n ≤ length l.entries = omega (arith, last_index-Contiguous l h) in
    let at_cut : l.base_index + n ≡ cut = omega arith in
    let shape' : Follows cut (drop n l.entries) =
      rw at_cut at (Follows-drop l.base_index n l.entries h within) in
    let l' : Log = record { entries = drop n l.entries; base_index = cut; base_term = t } in
    rw (compact_through-above l cut t h lt small) (record {
      shape = shape';
      base_index = refl;
      base_term = refl;
      last = omega (
        arith,
        last_index-Contiguous l' shape',
        last_index-Contiguous l h,
        length-drop n l.entries,
      );
      entries = refl;
    })
