-- ===== src/Raft/Commit/Majority.antt =====
-- raft/state.rs, `quorum` and `recompute_commit_index`: the commit index moves only to what a
-- majority holds, to the highest such index, and only within the current term.
use event_stream.Prelude.{
  ℕ, suc, ◌+◌, ◌-◌, ◌*◌, ◌≤◌, ◌<◌, ◌≡◌, refl, ap, ◌∙◌, inl, inr, true, Option, none, some, List, [],
  ◌∷◌, map, arith, ltb, option_eq, length, length-append, get_elem?_in, Bool-cases,
}
use event_stream.Prelude.Order.{
  sort, count_ge, sort-IsSorted, count_ge-sort, length-sort, count_ge-sorted,
}
use event_stream.Raft.Log.{last_index, term_at}
use event_stream.Raft.State.{RaftState, quorum}
use event_stream.Raft.Commit.{replicated, candidate_index, recompute_commit_index, commit_candidate}

length-map {ℓ κ} :
    {A : Type ℓ} {B : Type κ} (f : A → B) (xs : List A) → length (map f xs) ≡ length xs
length-map f [] = refl
length-map f (x ∷ xs) = ap suc (length-map f xs)

pub length-replicated : (s : RaftState) → length (replicated s) ≡ length s.peers + 1
length-replicated s =
    length-append _ (last_index s.log ∷ []) ∙ omega (arith, length-map {0, 0} _ s.peers)

-- A quorum is more than half of the cluster (the peers and the node itself) and not more than
-- the cluster.
pub quorum_majority :
    (s : RaftState) → (length s.peers + 1 < 2 * quorum s) × (quorum s ≤ length s.peers + 1)
unfolding quorum
quorum_majority s = omega arith

candidate_lem :
    (s : RaftState)
    → (c : ℕ) × (candidate_index s ≡ some c)
      × ((b : ℕ) → b ≤ c → quorum s ≤ count_ge b (replicated s))
      × ((b : ℕ) → c < b → count_ge b (replicated s) < quorum s)
unfolding candidate_index
candidate_lem s =
    let xs : List ℕ = replicated s in
    let i : ℕ = length xs - quorum s in
    let n : length (sort xs) ≡ length xs = length-sort xs in
    let len : length xs ≡ length s.peers + 1 = length-replicated s in
    let fits : quorum s ≤ length xs = omega (arith, quorum_majority s) in
    let some_quorum : 0 < quorum s = omega (arith, quorum_majority s) in
    let (c, e) = get_elem?_in i (sort xs) (omega arith) in
    (
      c,
      e,
      λ b le.
          omega (
            arith,
            count_ge-sort b xs,
            (count_ge-sorted (sort xs) i c b (sort-IsSorted xs) e).0 le,
          ),
      λ b lt.
          omega (
            arith,
            count_ge-sort b xs,
            (count_ge-sorted (sort xs) i c b (sort-IsSorted xs) e).1 lt,
          ),
    )

-- What `recompute_commit_index` does to the commit index.
pub data Recomputed (s s' : RaftState) : Type 0 where
  stayed : s' ≡ s → Recomputed s s'
  moved :
      (c : ℕ)
      → s' ≡ record s { commit_index = c }
      → s.commit_index < c
      → term_at s.log c ≡ some s.current_term
      → quorum s ≤ count_ge c (replicated s)
      → ((b : ℕ) → quorum s ≤ count_ge b (replicated s) → b ≤ c)
      → Recomputed s s'

pub option_eq-true : (o : Option ℕ) (t : ℕ) → option_eq o (some t) ≡ true → o ≡ some t
option_eq-true none t h = absurd (cc h)
option_eq-true (some a) t h = ground arith

commit_candidate_lem :
    (s : RaftState) (c : ℕ)
    → ((b : ℕ) → b ≤ c → quorum s ≤ count_ge b (replicated s))
    → ((b : ℕ) → c < b → count_ge b (replicated s) < quorum s)
    → Recomputed s (commit_candidate s (some c))
commit_candidate_lem s c held highest = elim (Bool-cases (ltb s.commit_index c)) [
  | inr low ↦ rw low (stayed refl)
  | inl up ↦ elim (Bool-cases (option_eq (term_at s.log c) (some s.current_term))) [
    | inr old ↦ rw (up, old) (stayed refl)
    | inl now ↦
        rw (up, now)
          (moved c refl (ground arith) (option_eq-true _ _ now) (held c (omega arith))
            (λ b q. ground (arith, highest b)))
  ]
]

-- The commit index stays, or it moves up to the highest index that a majority of the current
-- members holds (the node itself included), and the entry there is of the current term. The
-- choice never reads out of bounds.
pub recompute_commit_index-majority :
    (s : RaftState)
    → Recomputed s (recompute_commit_index s) × ((c : ℕ) × (candidate_index s ≡ some c))
unfolding recompute_commit_index
recompute_commit_index-majority s =
    let (c, e, held, highest) = candidate_lem s in
    (rw e (commit_candidate_lem s c held highest), (c, e))
