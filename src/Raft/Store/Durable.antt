-- ===== src/Raft/Store/Durable.antt =====
-- raft/log.rs and raft/state.rs: how each recorded operation acts on the files.
use event_stream.Prelude.{
  ℕ, zero, suc, ◌+◌, ◌-◌, ◌≤◌, ◌<◌, ◌≡◌, refl, ap, sym, ◌∙◌, inl, inr, List, [], ◌∷◌, ◌++◌, arith,
  ltb, leb, ltb→lt, leb→le, take, drop, Bool-cases,
}
use event_stream.Raft.Messages.{LogEntry}
use event_stream.Raft.Log.Shape.{Follows}
use event_stream.Raft.State.{
  PersistOp, hard_state, append, truncate_from, compact_through, RaftState, persist_hard_state,
  without_hard_state,
}
use event_stream.Raft.Store.{Stored, before, after, persist_op, persist, IsDurable}

pub persist-append :
    (d : Stored) (xs ys : List PersistOp) → persist d (xs ++ ys) ≡ persist (persist d xs) ys
unfolding persist
persist-append d [] ys = refl
persist-append d (op ∷ xs) ys = persist-append (persist_op d op) xs ys

-- One more operation is one more write.
pub persist-push :
    (d : Stored) (ops : List PersistOp) (op : PersistOp)
    → persist d (ops ++ op ∷ []) ≡ persist_op (persist d ops) op
persist-push d ops op = persist-append d ops (op ∷ []) ∙ (unfold persist in refl)

-- The log part of the files does not depend on the hard states among the operations.
entries_without :
    (ops : List PersistOp) (a b : Stored)
    → a.entries ≡ b.entries
    → (persist a (without_hard_state ops)).entries ≡ (persist b ops).entries
unfolding persist without_hard_state persist_op
entries_without [] a b e = e
entries_without (hard_state t v ∷ ops) a b e = entries_without ops a _ e
entries_without (append es ∷ ops) a b e = entries_without ops _ _ (ap (λ xs. xs ++ es) e)
entries_without (truncate_from i ∷ ops) a b e = entries_without ops _ _ (ap (before i) e)
entries_without (compact_through i ∷ ops) a b e = entries_without ops _ _ (ap (after i) e)

-- Collapsing the repeated hard states loses nothing: the files end at the newest one.
pub persist_hard_state-IsDurable :
    (d : Stored) (s : RaftState)
    → (persist d s.pending).entries ≡ s.log.entries
    → IsDurable d (persist_hard_state s)
unfolding persist_hard_state persist_op
persist_hard_state-IsDurable d s e =
    persist-push d (without_hard_state s.pending) (hard_state s.current_term s.voted_for)
    ∙ ap
        (λ (es : List LogEntry). record {
          current_term = s.current_term;
          voted_for = s.voted_for;
          entries = es;
        })
        (entries_without s.pending d d refl ∙ e)

pub entries_of :
    (d : Stored) (s : RaftState) → IsDurable d s → (persist d s.pending).entries ≡ s.log.entries
entries_of d s h = ap (λ (x : Stored). x.entries) h

-- The cuts, on entries without a gap.
take_nil : (n : ℕ) → ◌≡◌ {A = List LogEntry} (take n []) []
take_nil zero = refl
take_nil (suc n) = refl

drop_nil : (n : ℕ) → ◌≡◌ {A = List LogEntry} (drop n []) []
drop_nil zero = refl
drop_nil (suc n) = refl

pub before-Follows :
    (b i : ℕ) (es : List LogEntry) → Follows b es → b < i → before i es ≡ take (i - b - 1) es
unfolding before
before-Follows b i [] h lt = sym (take_nil (i - b - 1))
before-Follows b i (e ∷ es) h lt = elim (Bool-cases (ltb e.index i)) [
  | inl inside ↦
      let q : i - b - 1 ≡ suc (i - (b + 1) - 1) = omega (arith, h.0, ltb→lt e.index i inside) in
      rw (inside, q)
        (ap (λ (r : List LogEntry). e ∷ r)
          (before-Follows (b + 1) i es h.1 (omega (arith, h.0, ltb→lt e.index i inside))))
  | inr past ↦
      let le : i ≤ e.index = ground arith in
      let q : i - b - 1 ≡ 0 = omega (arith, h.0) in rw (past, q)
]

pub after-Follows :
    (b i : ℕ) (es : List LogEntry) → Follows b es → b ≤ i → after i es ≡ drop (i - b) es
unfolding after
after-Follows b i [] h le = sym (drop_nil (i - b))
after-Follows b i (e ∷ es) h le = elim (Bool-cases (leb e.index i)) [
  | inl gone ↦
      let q : i - b ≡ suc (i - (b + 1)) = omega (arith, h.0, leb→le e.index i gone) in
      rw (gone, q) (after-Follows (b + 1) i es h.1 (omega (arith, h.0, leb→le e.index i gone)))
  | inr kept ↦
      let lt : i < e.index = ground arith in let q : i - b ≡ 0 = omega (arith, h.0) in rw (kept, q)
]

pub before-zero : (es : List LogEntry) → before 0 es ≡ []
unfolding before
before-zero [] = refl
before-zero (e ∷ es) = ground arith
