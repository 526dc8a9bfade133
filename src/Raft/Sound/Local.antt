-- ===== src/Raft/Sound/Local.antt =====
-- raft/state.rs: the invariant under what a node does by itself: writing its own log, moving its
-- commit index, standing for election and handing entries out.
use event_stream.Prelude.{
  ℕ, ◌+◌, ◌-◌, ◌≡◌, refl, ◌∙◌, Bool, true, false, List, [], ◌∷◌, arith, length-append,
  if◌then◌else◌,
}
use event_stream.Raft.Log.{last_index}
use event_stream.Raft.Log.Shape.{Contiguous, last_index-Contiguous, Follows-append}
use event_stream.Raft.Log.Compact.{term_at_le}
use event_stream.Raft.State.{RaftState}
use event_stream.Raft.Commit.{recompute_commit_index, append_local}
use event_stream.Raft.Commit.Majority.{Recomputed, stayed, moved, recompute_commit_index-majority}
use event_stream.Raft.Drain.{drain_apply_actions}
use event_stream.Raft.Drain.Applied.{drain_rounds_lem}
use event_stream.Raft.Election.{lead, with_noop, settle, become_leader, fresh_peers}
use event_stream.Raft.Sound.{IsSound, HasRoom}

-- The fields that the invariant reads are the same.
pub record SameLog (s s' : RaftState) : Type 0 where
  pub log : s'.log ≡ s.log
  pub commit_index : s'.commit_index ≡ s.commit_index
  pub last_applied : s'.last_applied ≡ s.last_applied

pub IsSound-same : {s s' : RaftState} → SameLog s s' → IsSound s → IsSound s'
IsSound-same {s} {s'} same h = record {
  shape = rw same.log h.shape;
  base_le = rw (same.log, same.last_applied) h.base_le;
  applied_le = rw (same.commit_index, same.last_applied) h.applied_le;
  commit_le = rw (same.log, same.commit_index) h.commit_le;
}

pub drain-IsSound : (s : RaftState) → IsSound s → IsSound (drain_apply_actions s).0
unfolding drain_apply_actions
drain-IsSound s h =
    let (core, last, _) = drain_rounds_lem (s.commit_index - s.last_applied) s in
    let at_commit : s.last_applied + (s.commit_index - s.last_applied) ≡ s.commit_index =
      omega (arith, h.applied_le) in
    record {
      shape = rw core.log h.shape;
      base_le = rw (core.log, last, at_commit) (omega (arith, h.base_le, h.applied_le));
      applied_le = rw (core.commit_index, last, at_commit) (omega arith);
      commit_le = rw (core.commit_index, core.log) h.commit_le;
    }

Recomputed-IsSound : (s s' : RaftState) → Recomputed s s' → IsSound s → IsSound s'
Recomputed-IsSound s s' (stayed e) h = rw e h
Recomputed-IsSound s s' (moved c e up now held highest) h = rw e (record {
  shape = h.shape;
  base_le = h.base_le;
  applied_le = omega (arith, h.applied_le);
  commit_le = term_at_le s.log c s.current_term h.shape now;
})

pub recompute-IsSound : (s : RaftState) → IsSound s → IsSound (recompute_commit_index s)
recompute-IsSound s h =
    Recomputed-IsSound s (recompute_commit_index s) (recompute_commit_index-majority s).0 h

-- The log of `append_local` is one entry longer.
pub append_local-shape :
    (s : RaftState) (payload : List ℕ)
    → Contiguous s.log
    → HasRoom s
    → Contiguous (append_local s payload).0.log
unfolding append_local
append_local-shape s payload h room =
    Follows-append s.log.base_index s.log.entries _ h
      (omega (arith, last_index-Contiguous s.log h), tt)

append_local-last :
    (s : RaftState) (payload : List ℕ)
    → Contiguous s.log
    → HasRoom s
    → last_index (append_local s payload).0.log ≡ last_index s.log + 1
append_local-last s payload h room =
    last_index-Contiguous (append_local s payload).0.log (append_local-shape s payload h room)
    ∙ (unfold append_local in
        omega (arith, length-append {0} s.log.entries, last_index-Contiguous s.log h))

pub append_local-IsSound :
    (s : RaftState) (payload : List ℕ) → HasRoom s → IsSound s → IsSound (append_local s payload).0
unfolding append_local
append_local-IsSound s payload room h = record {
  shape = append_local-shape s payload h.shape room;
  base_le = h.base_le;
  applied_le = h.applied_le;
  commit_le = omega (arith, h.commit_le, append_local-last s payload h.shape room);
}

fresh_peers-SameLog : (last : ℕ) (ps : List ℕ) (s : RaftState) → SameLog s (fresh_peers last ps s)
unfolding fresh_peers
fresh_peers-SameLog last [] s = record { log = refl; commit_index = refl; last_applied = refl }
fresh_peers-SameLog last (p ∷ ps) s =
    let h = fresh_peers-SameLog last ps _ in
    record { log = h.log; commit_index = h.commit_index; last_applied = h.last_applied }

settle-IsSound : (s : RaftState) → IsSound s → IsSound (settle s)
unfolding settle
settle-IsSound s h =
    let same = fresh_peers-SameLog (last_index s.log) s.peers s in
    IsSound-same
      (record {
        log = same.log;
        commit_index = same.commit_index;
        last_applied = same.last_applied;
      })
      h

with_noop-IsSound : (s : RaftState) → HasRoom s → IsSound s → IsSound (with_noop s)
unfolding with_noop
with_noop-IsSound s room h = go s.noop_on_elect
  where
    go : (b : Bool) → IsSound (if b then (append_local s []).0 else s)
    go true = append_local-IsSound s [] room h
    go false = h

lead-IsSound : (s : RaftState) → IsSound s → IsSound (lead s)
unfolding lead
lead-IsSound s h = IsSound-same (record { log = refl; commit_index = refl; last_applied = refl }) h

lead-HasRoom : (s : RaftState) → HasRoom s → HasRoom (lead s)
unfolding lead
lead-HasRoom s room = room

pub become_leader-IsSound : (s : RaftState) → HasRoom s → IsSound s → IsSound (become_leader s)
unfolding become_leader
become_leader-IsSound s room h = recompute-IsSound (settle (with_noop (lead s))) (
    settle-IsSound (with_noop (lead s))
      (with_noop-IsSound (lead s) (lead-HasRoom s room) (lead-IsSound s h)))
