-- ===== src/Raft/Sound/Follower.antt =====
-- raft/state.rs: the invariant under what a leader writes into a follower's log.
use event_stream.Prelude.{
  ℕ, ◌+◌, ◌≤◌, ◌<◌, ◌≡◌, refl, inl, inr, true, false, Option, none, some, List, [], ◌∷◌, arith,
  length, leb, ltb, ltb→lt, ◌==◌, ==_iff, Bool-cases, Option-cases, is_empty, saturating_add,
}
use mathlib.Core.Path.{subst}
use mathlib.Core.Option.{some-injective}
use event_stream.Raft.Messages.{AppendEntries, InstallSnapshot}
use event_stream.Raft.Log.{
  Log, Appended, appended, last_index, term_at, append_at, install_snapshot, keeps_suffix,
}
use event_stream.Raft.Log.Shape.{Contiguous, last_index-Contiguous}
use event_stream.Raft.Log.Written.{
  AppendSpec, Fits, append_at_spec, Written-shape, Written-base, Written-length,
}
use event_stream.Raft.Log.AppendAt.{append_at_reaches}
use event_stream.Raft.Log.Compact.{term_at_le, compact_through-Compacted}
use event_stream.Raft.Commit.Majority.{option_eq-true}
use event_stream.Raft.State.{RaftState, PersistOp, persist_hard_state, push}
use event_stream.Raft.Replication.{
  accept_leader, consistent, append_from_leader, apply_append, record_change, advance_commit,
  accept_entries, handle_append_entries,
}
use event_stream.Raft.Snapshot.{
  install_log, install_done, accept_snapshot_leader, handle_install_snapshot,
}
use event_stream.Raft.Sound.{IsSound, BatchFits, SnapshotAgrees}
use event_stream.Raft.Sound.Local.{SameLog, IsSound-same}

-- A consistent append starts at most one past the end of the log.
pub consistent_le :
    (s : RaftState) (ae : AppendEntries)
    → Contiguous s.log
    → consistent s ae ≡ true
    → ae.prev_log_index ≤ last_index s.log
unfolding consistent
consistent_le s ae h e = elim (Bool-cases (ae.prev_log_index == 0)) [
  | inl start ↦ omega (arith, (==_iff ae.prev_log_index 0).0 start)
  | inr later ↦ elim (Bool-cases (ltb ae.prev_log_index s.log.base_index)) [
    | inl below ↦
        omega
          (arith, ltb→lt ae.prev_log_index s.log.base_index below, last_index-Contiguous s.log h)
    | inr above ↦
        term_at_le s.log ae.prev_log_index ae.prev_log_term h
          (option_eq-true _ _ (rw (later, above) at e))
  ]
]

pub handler_Fits :
    (s : RaftState) (ae : AppendEntries)
    → Contiguous s.log
    → BatchFits ae
    → ae.prev_log_index ≤ last_index s.log
    → Fits s.log (saturating_add ae.prev_log_index 1) ae.entries
handler_Fits s ae h fits le = record {
  shape = h;
  reach = omega (arith, last_index-Contiguous s.log h);
  small = omega arith;
}

-- An append that the log took: the invariant holds, and the log reaches to the batch's end.
record Took (s : RaftState) (ae : AppendEntries) (s' : RaftState) : Type 0 where
  sound : IsSound s'
  commit_index : s'.commit_index ≡ s.commit_index
  reaches : ae.prev_log_index + length ae.entries ≤ last_index s'.log

length_of_empty {ℓ} : {A : Type ℓ} (xs : List A) → is_empty xs ≡ true → length xs ≡ 0
length_of_empty [] h = refl
length_of_empty (x ∷ xs) h = absurd (cc h)

record_change-SameLog :
    (s : RaftState) (ch : Option ℕ) (l : Log)
    → SameLog (record s { log = l }) (record_change s ch l)
record_change-SameLog s none l = record { log = refl; commit_index = refl; last_applied = refl }
record_change-SameLog s (some j) l = record { log = refl; commit_index = refl; last_applied = refl }

module _ (s : RaftState) (ae : AppendEntries) (sound : IsSound s) (fits : BatchFits ae)
    (le : ae.prev_log_index ≤ last_index s.log) where
  abbrev start : ℕ
  start = saturating_add ae.prev_log_index 1

  with_log-IsSound :
      (ch : Option ℕ) (l : Log)
      → append_at s.log start ae.entries s.commit_index ≡ appended ch l
      → IsSound (record s { log = l })
  with_log-IsSound ch l e = go ch l (
      rw e at (
        append_at_spec s.log s.commit_index start ae.entries
          (handler_Fits s ae sound.shape fits le)))
    where
      go :
          (ch : Option ℕ) (l : Log)
          → AppendSpec s.log s.commit_index start ae.entries (appended ch l)
          → IsSound (record s { log = l })
      go none l (same, _) =
          IsSound-same (record { log = same; commit_index = refl; last_applied = refl }) sound
      go (some j) l w =
          let f = handler_Fits s ae sound.shape fits le in
          let shape' = Written-shape s.log s.commit_index start ae.entries j l f w in
          let base = Written-base s.log s.commit_index start ae.entries j l f w in
          record {
            shape = shape';
            base_le = rw base.0 sound.base_le;
            applied_le = sound.applied_le;
            commit_le = ground (
              arith,
              w.untouched,
              w.at_kept,
              w.at_skipped,
              w.some_left,
              sound.commit_le,
              last_index-Contiguous s.log sound.shape,
              last_index-Contiguous l shape',
              Written-length s.log s.commit_index start ae.entries j l f w,
            );
          }

  apply_append-Took :
      (r : Appended) (s' : RaftState)
      → append_at s.log start ae.entries s.commit_index ≡ r
      → apply_append s r ≡ some s'
      → Took s ae s'
  apply_append-Took Appended.refused s' e p = absurd (cc p)
  apply_append-Took (appended ch l) s' e p = subst (Took s ae) (some-injective _ _ p) (record {
    sound = IsSound-same (record_change-SameLog s ch l) (with_log-IsSound ch l e);
    commit_index = (record_change-SameLog s ch l).commit_index;
    reaches = rw (record_change-SameLog s ch l).log (
        omega (
          arith,
          append_at_reaches s.log s.commit_index start ae.entries
              (handler_Fits s ae sound.shape fits le) ch l e,
        ));
  })

  append_from_leader-Took : (s' : RaftState) → append_from_leader s ae ≡ some s' → Took s ae s'
  unfolding append_from_leader
  append_from_leader-Took s' e = elim (Bool-cases (is_empty ae.entries)) [
    | inl heartbeat ↦ subst (Took s ae) (some-injective _ _ (rw heartbeat at e)) (record {
      sound = sound;
      commit_index = refl;
      reaches = omega (arith, length_of_empty ae.entries heartbeat);
    })
    | inr entries ↦ apply_append-Took _ s' refl (rw entries at e)
  ]

advance_commit-IsSound :
    (s : RaftState) (c n : ℕ) → n ≤ last_index s.log → IsSound s → IsSound (advance_commit s c n)
unfolding advance_commit
advance_commit-IsSound s c n le h = elim (Bool-cases (ltb s.commit_index c)) [
  | inr low ↦ rw low h
  | inl up ↦ rw up (record {
    shape = h.shape;
    base_le = h.base_le;
    applied_le = omega (arith, h.applied_le);
    commit_le = omega (arith, h.commit_le);
  })
]

accept_entries-IsSound :
    (s : RaftState) (ae : AppendEntries)
    → IsSound s
    → BatchFits ae
    → IsSound (accept_entries s ae).0
unfolding accept_entries
accept_entries-IsSound s ae h fits = elim (Bool-cases (consistent s ae)) [
  | inr gap ↦ rw gap h
  | inl joins ↦ elim (Option-cases (append_from_leader s ae)) [
    | inl refused ↦ rw (joins, refused) h
    | inr (s', e) ↦
        let took : Took s ae s' =
          append_from_leader-Took s ae h fits (consistent_le s ae h.shape joins) s' e in
        rw (joins, e) (advance_commit-IsSound s' _ _ (omega (arith, took.reaches)) took.sound)
  ]
]

pub accept_leader-SameLog : (s : RaftState) (ae : AppendEntries) → SameLog s (accept_leader s ae)
unfolding accept_leader persist_hard_state
accept_leader-SameLog s ae = elim (Bool-cases (ltb s.current_term ae.term)) [
  | inl newer ↦ rw newer (record { log = refl; commit_index = refl; last_applied = refl })
  | inr same ↦ rw same (record { log = refl; commit_index = refl; last_applied = refl })
]

pub handle_append_entries-IsSound :
    (s : RaftState) (ae : AppendEntries)
    → IsSound s
    → BatchFits ae
    → IsSound (handle_append_entries s ae).0
unfolding handle_append_entries
handle_append_entries-IsSound s ae h fits = elim (Bool-cases (leb s.current_term ae.term)) [
  | inr old ↦ rw old h
  | inl now ↦ rw now (
      accept_entries-IsSound (accept_leader s ae) ae (IsSound-same (accept_leader-SameLog s ae) h)
        fits)
]

pub accept_snapshot_leader-SameLog :
    (s : RaftState) (is : InstallSnapshot) → SameLog s (accept_snapshot_leader s is)
unfolding accept_snapshot_leader persist_hard_state
accept_snapshot_leader-SameLog s is = elim (Bool-cases (ltb s.current_term is.term)) [
  | inl newer ↦ rw newer (record { log = refl; commit_index = refl; last_applied = refl })
  | inr same ↦ rw same (record { log = refl; commit_index = refl; last_applied = refl })
]

push-SameLog : (s : RaftState) (op : PersistOp) → SameLog s (push op s)
push-SameLog s op = record { log = refl; commit_index = refl; last_applied = refl }

pub kept_term : (l : Log) (i t : ℕ) → keeps_suffix l i t ≡ true → term_at l i ≡ some t
kept_term l i t e = option_eq-true (term_at l i) t (ground arith)

uncommitted :
    (l : Log) (i t c : ℕ)
    → l.base_index < i
    → keeps_suffix l i t ≡ false
    → (i ≤ c → term_at l i ≡ some t)
    → c < i
uncommitted l i t c above cleared agrees = elim (Bool-cases (ltb c i)) [
  | inl lt ↦ ltb→lt c i lt
  | inr ge ↦ let found : term_at l i ≡ some t = agrees (ground arith) in ground arith
]

install_done-IsSound :
    (s : RaftState) (is : InstallSnapshot)
    → IsSound s
    → is.done ≡ true
    → SnapshotAgrees s is
    → IsSound (install_done s is)
unfolding install_done install_log install_snapshot
install_done-IsSound s is h done (small, agrees) =
    elim (Bool-cases (ltb s.log.base_index is.last_index)) [
      | inr old ↦ rw old (record {
        shape = h.shape;
        base_le = omega (arith, h.base_le);
        applied_le = omega (arith, h.applied_le);
        commit_le = ground (arith, h.commit_le, h.applied_le, h.base_le);
      })
      | inl new ↦
          let above : s.log.base_index < is.last_index = ltb→lt _ _ new in
          elim (Bool-cases (keeps_suffix s.log is.last_index is.last_term)) [
            | inl keeps ↦
                let found : term_at s.log is.last_index ≡ some is.last_term =
                  kept_term s.log is.last_index is.last_term keeps in
                let le : is.last_index ≤ last_index s.log =
                  term_at_le s.log is.last_index is.last_term h.shape found in
                let c =
                  compact_through-Compacted s.log is.last_index is.last_term h.shape above le
                    small in
                rw (new, keeps)
                  (record {
                    shape = c.shape;
                    base_le = omega (arith, c.base_index);
                    applied_le = omega (arith, h.applied_le);
                    commit_le = omega (arith, c.last, h.commit_le);
                  })
            | inr cleared ↦
                let fresh : Log = record {
                  entries = [];
                  base_index = is.last_index;
                  base_term = is.last_term;
                } in
                let past : s.commit_index < is.last_index =
                  uncommitted s.log is.last_index is.last_term s.commit_index above cleared
                    (agrees done above) in
                rw (new, cleared)
                  (record {
                    shape = tt;
                    base_le = omega arith;
                    applied_le = omega (arith, h.applied_le);
                    commit_le = omega (arith, last_index-Contiguous fresh tt);
                  })
          ]
    ]

pub handle_install_snapshot-IsSound :
    (s : RaftState) (is : InstallSnapshot) (progress : ℕ)
    → IsSound s
    → SnapshotAgrees s is
    → IsSound (handle_install_snapshot s is progress).0
unfolding handle_install_snapshot
handle_install_snapshot-IsSound s is progress h agrees =
    let s1 : RaftState = accept_snapshot_leader s is in
    let same : SameLog s s1 = accept_snapshot_leader-SameLog s is in
    elim (Bool-cases (ltb is.term s.current_term)) [
      | inl old ↦ rw old h
      | inr now ↦ elim (Bool-cases is.done) [
        | inr chunk ↦ rw (now, chunk) (IsSound-same same h)
        | inl done ↦
            simp (now, done)
              (install_done-IsSound s1 is (IsSound-same same h) done
                (agrees.0, rw (same.log, same.commit_index) agrees.1))
      ]
    ]
