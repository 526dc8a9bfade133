-- ===== src/Raft/Store/Writes.antt =====
-- raft/state.rs: each change of the log records what brings the files to it.
use event_stream.Prelude.{
  ℕ, ◌+◌, ◌-◌, ◌≤◌, ◌<◌, ◌≡◌, ap, sym, ◌∙◌, inl, inr, Option, none, some, List, [], ◌∷◌, ◌++◌,
  arith, ltb, ltb→lt, length, take, drop, Bool-cases, Option-cases, is_empty, drop-append,
  length-take, u64_max, saturating_add, add_u64,
}
use mathlib.Core.Path.{subst, ap₂}
use mathlib.Core.Option.{some-injective}
use event_stream.Raft.Messages.{LogEntry, AppendEntries, InstallSnapshot}
use event_stream.Raft.Log.{
  Log, compact_through as compact_log, Appended, appended, last_index, slice, install_snapshot,
  keeps_suffix, renumber,
}
use event_stream.Raft.Log.Shape.{Contiguous, last_index-Contiguous}
use event_stream.Raft.Log.Written.{
  AppendSpec, Written, Fits, append_at_spec, Written-shape, Written-base, Written-length,
}
use event_stream.Raft.Log.Compact.{term_at_le, compact_through-Compacted}
use event_stream.Raft.Log.Tail.{slice_tail}
use event_stream.Raft.State.{PersistOp, append, truncate_from, compact_through, RaftState, push}
use event_stream.Raft.Commit.{append_local}
use event_stream.Raft.Replication.{
  append_from_leader, apply_append, record_change, accept_entries, consistent, advance_commit,
}
use event_stream.Raft.Snapshot.{install_log, install_done}
use event_stream.Raft.Sound.{BatchFits}
use event_stream.Raft.Sound.Follower.{consistent_le, handler_Fits, kept_term}
use event_stream.Raft.Store.{Stored, before, persist_op, stored, IsDurable}
use event_stream.Raft.Store.Durable.{persist-push, before-Follows, after-Follows, before-zero}

-- The files and the pending writes are the same, as far as durability reads them.
pub record SameDisk (s s' : RaftState) : Type 0 where
  pub current_term : s'.current_term ≡ s.current_term
  pub voted_for : s'.voted_for ≡ s.voted_for
  pub entries : s'.log.entries ≡ s.log.entries
  pub pending : s'.pending ≡ s.pending

pub IsDurable-same :
    (d : Stored) {s s' : RaftState} → SameDisk s s' → IsDurable d s → IsDurable d s'
IsDurable-same d same h = rw (same.pending, same.current_term, same.voted_for, same.entries) h

pub append_local-IsDurable :
    (d : Stored) (s : RaftState) (payload : List ℕ)
    → IsDurable d s
    → IsDurable d (append_local s payload).0
unfolding append_local persist_op
append_local-IsDurable d s payload h =
    let entry : LogEntry = record {
      term = s.current_term;
      index = add_u64 (last_index s.log) 1;
      payload = payload;
    } in
    persist-push d s.pending (append (entry ∷ []))
    ∙ ap (λ (x : Stored). persist_op x (append (entry ∷ []))) h

-- A truncation at `j` and the tail from `j` on rebuild the log that `append_at` wrote.
module _ (s : RaftState) (start : ℕ) (es : List LogEntry) (j : ℕ) (l : Log)
    (fits : Fits s.log start es) (w : Written s.log s.commit_index start es j l) where
  rebuilt : before j s.log.entries ++ slice l j u64_max ≡ l.entries
  rebuilt =
      let b : ℕ = s.log.base_index in
      let left : List LogEntry = take w.kept s.log.entries in
      let right : List LogEntry = renumber j (drop w.skipped es) in
      let shape : Contiguous l = Written-shape s.log s.commit_index start es j l fits w in
      let base : l.base_index ≡ b = (Written-base s.log s.commit_index start es j l fits w).0 in
      let end : l.base_index + length l.entries + 1 ≡ start + length es =
        Written-length s.log s.commit_index start es j l fits w in
      let last : last_index l ≡ l.base_index + length l.entries = last_index-Contiguous l shape in
      let whole : l.entries ≡ left ++ right = ap (λ (m : Log). m.entries) w.log_eq in
      let n : j - b - 1 ≡ w.kept = omega (arith, w.at_kept) in
      let kept : length left ≡ w.kept =
        omega (arith, length-take w.kept s.log.entries, w.kept_le) in
      let cut : before j s.log.entries ≡ left =
        before-Follows b j s.log.entries fits.shape (omega (arith, w.at_kept))
        ∙ ap (λ (k : ℕ). take k s.log.entries) n in
      let n' : j - l.base_index - 1 ≡ w.kept = omega (arith, w.at_kept, base) in
      let tail : slice l j u64_max ≡ right =
        slice_tail l j shape (omega (arith, fits.small, last, end)) (omega (arith, w.at_kept, base))
          (omega (arith, last, end, w.at_skipped, w.some_left))
        ∙ ap (λ (k : ℕ). drop k l.entries) n'
        ∙ ap (λ (xs : List LogEntry). drop w.kept xs) whole
        ∙ drop-append w.kept left right kept in
      ap₂ (λ (xs ys : List LogEntry). xs ++ ys) cut tail ∙ sym whole

record_change-IsDurable :
    (d : Stored) (s : RaftState) (start : ℕ) (es : List LogEntry) (ch : Option ℕ) (l : Log)
    → Fits s.log start es
    → AppendSpec s.log s.commit_index start es (appended ch l)
    → IsDurable d s
    → IsDurable d (record_change s ch l)
unfolding persist_op
record_change-IsDurable d s start es none l fits (same, _) h =
    h ∙ ap (λ (m : Log). stored (record s { log = m })) (sym same)
record_change-IsDurable d s start es (some j) l fits w h =
    persist-push d (s.pending ++ truncate_from j ∷ []) (append (slice l j u64_max))
    ∙ ap (λ (x : Stored). persist_op x (append (slice l j u64_max)))
        (persist-push d s.pending (truncate_from j)
          ∙ ap (λ (x : Stored). persist_op x (truncate_from j)) h)
    ∙ ap
        (λ (xs : List LogEntry). record {
          current_term = s.current_term;
          voted_for = s.voted_for;
          entries = xs;
        })
        (rebuilt s start es j l fits w)

apply_append-IsDurable :
    (d : Stored) (s : RaftState) (start : ℕ) (es : List LogEntry) (r : Appended) (s' : RaftState)
    → Fits s.log start es
    → AppendSpec s.log s.commit_index start es r
    → apply_append s r ≡ some s'
    → IsDurable d s
    → IsDurable d s'
apply_append-IsDurable d s start es Appended.refused s' fits w e h = absurd (cc e)
apply_append-IsDurable d s start es (appended ch l) s' fits w e h =
    subst (IsDurable d) (some-injective _ _ e) (record_change-IsDurable d s start es ch l fits w h)

append_from_leader-IsDurable :
    (d : Stored) (s : RaftState) (ae : AppendEntries) (s' : RaftState)
    → Contiguous s.log
    → BatchFits ae
    → ae.prev_log_index ≤ last_index s.log
    → append_from_leader s ae ≡ some s'
    → IsDurable d s
    → IsDurable d s'
unfolding append_from_leader
append_from_leader-IsDurable d s ae s' shape fits le e h = elim (Bool-cases (is_empty ae.entries)) [
  | inl heartbeat ↦ subst (IsDurable d) (some-injective _ _ (rw heartbeat at e)) h
  | inr entries ↦
      let f = handler_Fits s ae shape fits le in
      apply_append-IsDurable d s (saturating_add ae.prev_log_index 1) ae.entries _ s' f
        (append_at_spec s.log s.commit_index (saturating_add ae.prev_log_index 1) ae.entries f)
        (rw entries at e) h
]

advance_commit-SameDisk : (s : RaftState) (c n : ℕ) → SameDisk s (advance_commit s c n)
unfolding advance_commit
advance_commit-SameDisk s c n = ground arith

pub accept_entries-IsDurable :
    (d : Stored) (s : RaftState) (ae : AppendEntries)
    → Contiguous s.log
    → BatchFits ae
    → IsDurable d s
    → IsDurable d (accept_entries s ae).0
unfolding accept_entries
accept_entries-IsDurable d s ae shape fits h = elim (Bool-cases (consistent s ae)) [
  | inr gap ↦ rw gap h
  | inl joins ↦ elim (Option-cases (append_from_leader s ae)) [
    | inl refused ↦ rw (joins, refused) h
    | inr (s', e) ↦
        rw (joins, e)
          (IsDurable-same d (advance_commit-SameDisk s' _ _) (
            append_from_leader-IsDurable d s ae s' shape fits (consistent_le s ae shape joins) e h))
  ]
]

-- Compacting within the log is a compaction on disk.
pub compact-IsDurable :
    (d : Stored) (s : RaftState) (cut t : ℕ)
    → Contiguous s.log
    → s.log.base_index < cut
    → cut ≤ last_index s.log
    → cut < u64_max
    → IsDurable d s
    → IsDurable d (push (compact_through cut) (record s { log = compact_log s.log cut t }))
unfolding persist_op
compact-IsDurable d s cut t shape above le small h =
    let c = compact_through-Compacted s.log cut t shape above le small in
    let op : PersistOp = compact_through cut in
    persist-push d s.pending op
    ∙ ap (λ (x : Stored). persist_op x op) h
    ∙ ap
        (λ (xs : List LogEntry). record {
          current_term = s.current_term;
          voted_for = s.voted_for;
          entries = xs;
        })
        (after-Follows s.log.base_index cut s.log.entries shape (omega arith) ∙ sym c.entries)

-- A snapshot that the log keeps a suffix of is a compaction on disk, and any other clears the log.
install_log-IsDurable :
    (d : Stored) (s : RaftState) (is : InstallSnapshot)
    → Contiguous s.log
    → is.last_index < u64_max
    → IsDurable d s
    → IsDurable d (install_log s is)
unfolding install_log install_snapshot persist_op
install_log-IsDurable d s is shape small h =
    elim (Bool-cases (ltb s.log.base_index is.last_index)) [
      | inr old ↦ rw old h
      | inl new ↦
          let above : s.log.base_index < is.last_index = ltb→lt _ _ new in
          elim (Bool-cases (keeps_suffix s.log is.last_index is.last_term)) [
            | inl keeps ↦
                let found = kept_term s.log is.last_index is.last_term keeps in
                let le = term_at_le s.log is.last_index is.last_term shape found in
                rw (new, keeps)
                  (compact-IsDurable d s is.last_index is.last_term shape above le small h)
            | inr cleared ↦
                let op : PersistOp = truncate_from 0 in
                rw (new, cleared)
                  (persist-push d s.pending op
                    ∙ ap (λ (x : Stored). persist_op x op) h
                    ∙ ap
                        (λ (xs : List LogEntry). record {
                          current_term = s.current_term;
                          voted_for = s.voted_for;
                          entries = xs;
                        })
                        (before-zero s.log.entries))
          ]
    ]

pub install_done-IsDurable :
    (d : Stored) (s : RaftState) (is : InstallSnapshot)
    → Contiguous s.log
    → is.last_index < u64_max
    → IsDurable d s
    → IsDurable d (install_done s is)
unfolding install_done
install_done-IsDurable d s is shape small h = install_log-IsDurable d s is shape small h
