-- ===== src/Raft/Recovery.antt =====
-- raft/state.rs, `restore`: what a restarted node comes back to.
use event_stream.Prelude.{
  ℕ, ◌+◌, ◌-◌, ◌≤◌, ◌<◌, ◌≡◌, refl, ap, sym, ◌∙◌, inl, inr, true, some, List, [], ◌∷◌, arith, leb,
  ◌==◌, length, drop, get_elem?, get_elem?-drop, length-drop, drop_all, max, u64_max, add_u64,
  Bool-cases,
}
use event_stream.Raft.Messages.{LogEntry}
use event_stream.Raft.Log.{Log, last_index, get, compact_through}
use event_stream.Raft.Log.Shape.{
  Follows, Contiguous, Follows-drop, get-above, last_index-Contiguous,
}
use event_stream.Raft.Log.Compact.{drained}
use event_stream.Raft.State.{RaftState, new}
use event_stream.Raft.Snapshot.{
  PersistedRaft, PersistedSnapshot, snapshot_persistent, restore, restore_snapshot, gap_free,
  covers_first,
}
use event_stream.Raft.Sound.{IsSound}

-- Dropping past the end leaves entries that follow anything.
Follows-drop_any : (b n : ℕ) (es : List LogEntry) → Follows b es → Follows (b + n) (drop n es)
Follows-drop_any b n es h = elim (Bool-cases (leb n (length es))) [
  | inl le ↦ Follows-drop b n es h (ground arith)
  | inr gt ↦ rw (drop_all n es (ground arith)) tt
]

-- The log that is left of entries that follow `b`, under a snapshot at or above it.
compact_read :
    (b cut t : ℕ) (es : List LogEntry)
    → Follows b es
    → b ≤ cut
    → cut < u64_max
    → (compact_through (record { entries = es; base_index = 0; base_term = 0 }) cut t).entries
      ≡ drop (cut - b) es
unfolding compact_through
compact_read b cut t es h le small = elim (Bool-cases (leb cut 0)) [
  | inr above ↦ rw (above, drained b cut es h small)
  | inl start ↦ let none_cut : cut - b ≡ 0 = ground arith in rw (start, none_cut)
]

gap_free-Follows :
    (s : RaftState) (es : List LogEntry)
    → Follows s.log.base_index es
    → s.log.base_index < u64_max
    → gap_free s es ≡ some s
unfolding gap_free
gap_free-Follows s [] h small = refl
gap_free-Follows s (e ∷ es) h small =
    let q : (e.index == add_u64 s.log.base_index 1) ≡ true = ground (arith, h.0) in rw q

-- What a restart from entries that follow `b`, under a snapshot at or above `b`, makes of them.
pub record Restored (b : ℕ) (persisted : PersistedRaft) (snap : PersistedSnapshot) (s : RaftState)
    : Type 0 where
  pub current_term : s.current_term ≡ persisted.current_term
  pub voted_for : s.voted_for ≡ persisted.voted_for
  pub shape : Contiguous s.log
  pub base_index : s.log.base_index ≡ snap.last_index
  pub base_term : s.log.base_term ≡ snap.last_term
  pub entries : s.log.entries ≡ drop (snap.last_index - b) persisted.log
  pub commit_index : s.commit_index ≡ snap.last_index
  pub last_applied : s.last_applied ≡ snap.last_index

-- The log as the files give it.
abbrev read_log : PersistedRaft → Log
read_log persisted = record { entries = persisted.log; base_index = 0; base_term = 0 }

abbrev read_state : ℕ → List ℕ → PersistedRaft → RaftState
read_state me peers persisted = record (new me peers) {
  current_term = persisted.current_term;
  voted_for = persisted.voted_for;
  log = read_log persisted;
}

abbrev under : RaftState → PersistedSnapshot → RaftState
under s snap = record s {
  log = record (compact_through s.log snap.last_index snap.last_term) {
    base_index = snap.last_index;
    base_term = snap.last_term;
  };
  commit_index = max snap.last_index s.commit_index;
  last_applied = max snap.last_index s.last_applied;
}

module _ (b : ℕ) (persisted : PersistedRaft) (snap : PersistedSnapshot)
    (h : Follows b persisted.log) (le : b ≤ snap.last_index)
    (small : snap.last_index < u64_max) where
  under-Restored :
      (s : RaftState)
      → s.current_term ≡ persisted.current_term
      → s.voted_for ≡ persisted.voted_for
      → s.log ≡ read_log persisted
      → s.commit_index ≡ 0
      → s.last_applied ≡ 0
      → Restored b persisted snap (under s snap)
  under-Restored s term vote log commit applied =
      let left : (compact_through s.log snap.last_index snap.last_term).entries
          ≡ drop (snap.last_index - b) persisted.log =
        rw log (compact_read b snap.last_index snap.last_term persisted.log h le small) in
      let at_base : b + (snap.last_index - b) ≡ snap.last_index = omega arith in
      record {
        current_term = term;
        voted_for = vote;
        shape = rw left (rw at_base at (Follows-drop_any b (snap.last_index - b) persisted.log h));
        base_index = refl;
        base_term = refl;
        entries = left;
        commit_index = omega arith;
        last_applied = omega arith;
      }

  read-Restored :
      (me : ℕ) (peers : List ℕ)
      → Restored b persisted snap (restore_snapshot (read_state me peers persisted) (some snap))
  unfolding restore_snapshot new
  read-Restored me peers = elim (Bool-cases (covers_first persisted.log snap.last_index)) [
    | inl covers ↦ rw covers (under-Restored _ refl refl refl refl refl)
    | inr above ↦ rw above (under-Restored _ refl refl refl refl refl)
  ]

  restore_lem :
      (me : ℕ) (peers : List ℕ)
      → (s : RaftState) × (restore (new me peers) persisted (some snap) ≡ some s)
        × Restored b persisted snap s
  unfolding restore
  restore_lem me peers =
      let s : RaftState = restore_snapshot (read_state me peers persisted) (some snap) in
      let r : Restored b persisted snap s = read-Restored me peers in
      (s, gap_free-Follows s s.log.entries r.shape (omega (arith, r.base_index)), r)

-- What a node comes back to, against what it was.
pub record ComesBack (s : RaftState) (snap : PersistedSnapshot) (s' : RaftState) : Type 0 where
  pub current_term : s'.current_term ≡ s.current_term
  pub voted_for : s'.voted_for ≡ s.voted_for
  pub entry : (i : ℕ) → snap.last_index < i → get s'.log i ≡ get s.log i
  pub last : last_index s'.log ≡ max snap.last_index (last_index s.log)
  pub commit_index : s'.commit_index ≡ snap.last_index
  pub sound : IsSound s'

Restored-ComesBack :
    (s : RaftState) (snap : PersistedSnapshot) (s' : RaftState)
    → IsSound s
    → s.log.base_index ≤ snap.last_index
    → Restored s.log.base_index (snapshot_persistent s) snap s'
    → ComesBack s snap s'
unfolding snapshot_persistent
Restored-ComesBack s snap s' h le r =
    let cut : ℕ = snap.last_index - s.log.base_index in
    let len : length s'.log.entries ≡ length s.log.entries - cut =
      ap (λ (es : List LogEntry). length es) r.entries ∙ length-drop cut s.log.entries in
    let end' : last_index s'.log ≡ s'.log.base_index + length s'.log.entries =
      last_index-Contiguous s'.log r.shape in
    let end : last_index s.log ≡ s.log.base_index + length s.log.entries =
      last_index-Contiguous s.log h.shape in
    record {
      current_term = r.current_term;
      voted_for = r.voted_for;
      entry = λ i above.
          let at_base : s'.log.base_index < i = omega (arith, r.base_index) in
          let place : cut + (i - s'.log.base_index - 1) ≡ i - s.log.base_index - 1 =
            omega (arith, r.base_index) in
          get-above s'.log i r.shape at_base
          ∙ ap (λ (es : List LogEntry). get_elem? es (i - s'.log.base_index - 1)) r.entries
          ∙ get_elem?-drop cut (i - s'.log.base_index - 1) s.log.entries
          ∙ ap (get_elem? s.log.entries) place
          ∙ sym (get-above s.log i h.shape (omega arith));
      last = omega (arith, len, end', end, r.base_index);
      commit_index = r.commit_index;
      sound = record {
        shape = r.shape;
        base_le = omega (arith, r.base_index, r.last_applied);
        applied_le = omega (arith, r.last_applied, r.commit_index);
        commit_le = omega (arith, end', r.base_index, r.commit_index);
      };
    }

-- A sound node that crashes when its files hold its term, its vote and its log, and whose last saved
-- snapshot (at an index below u64::MAX) is at its base or (a crash between saving it and compacting the log) above it, restarts:
-- with its term, its vote and every entry above the snapshot, sound, and committed up to the snapshot.
pub restore-ComesBack :
    (s : RaftState) (snap : PersistedSnapshot) (me : ℕ) (peers : List ℕ)
    → IsSound s
    → s.log.base_index ≤ snap.last_index
    → snap.last_index < u64_max
    → (s' : RaftState) × (restore (new me peers) (snapshot_persistent s) (some snap) ≡ some s')
      × ComesBack s snap s'
unfolding snapshot_persistent
restore-ComesBack s snap me peers h le small =
    let (s', e, r) =
      restore_lem s.log.base_index (snapshot_persistent s) snap h.shape le small me peers in
    (s', e, Restored-ComesBack s snap s' h le r)
