-- ===== src/Compaction/Emitted.antt =====
-- compaction.rs: what the second pass writes.
use event_stream.Prelude.{
  ℕ, ◌+◌, ◌-◌, ◌≤◌, ◌<◌, ◌≡◌, refl, sym, ◌∙◌, inl, Bool, true, false, Option, none, some, List, [],
  ◌∷◌, ◌++◌, arith, length, length-append, All, if◌then◌else◌,
}
use mathlib.Core.List.{append_assoc, append-nil}
use event_stream.Bytes.Reader.{encode_all}
use event_stream.Storage.Record.{Record, encode_record}
use event_stream.Compaction.{Written, is_due, emit}
use event_stream.Compaction.Indexed.{
  signed, Spans, Indexed, Indexed-append, Indexed-last, PointsAt, PointsAt-append, Reaches,
}

-- The position that was indexed last has its entry, and is behind.
abbrev LastIndexed : List (ℕ × ℕ) → ℕ → Option ℕ → Type 0
LastIndexed es size none = Unit
LastIndexed es size (some p) = Indexed p es × (p ≤ size)

abbrev pub IsSparse : Written → Type 0
IsSparse w = LastIndexed w.index_entries w.size_bytes w.last_indexed

-- An entry from which the bytes at a position are reached.
abbrev Near : List (ℕ × ℕ) → ℕ → Type 0
Near es pos = (p : ℕ) × Indexed p es × (p ≤ pos) × (pos < p + 4096)

Near-last :
    (es : List (ℕ × ℕ)) (size n : ℕ) (last_ : Option ℕ)
    → is_due size last_ ≡ false
    → LastIndexed es size last_
    → Near es size × LastIndexed es (size + n) last_
Near-last es size n none near h = absurd (cc near)
Near-last es size n (some p) near (here, le) = ((p, here, le, ground arith), (here, omega arith))

-- What the test for an entry does to the index.
index_step :
    (due : Bool) (P : ℕ × ℕ → Type 0) (rel size n : ℕ) (es : List (ℕ × ℕ)) (last_ : Option ℕ)
    → is_due size last_ ≡ due
    → P (rel, size)
    → LastIndexed es size last_
    → ((fs : List (ℕ × ℕ)) × ((if due then es ++ (rel, size) ∷ [] else es) ≡ es ++ fs) × All P fs)
      × Near (if due then es ++ (rel, size) ∷ [] else es) size
      × LastIndexed
          (if due then es ++ (rel, size) ∷ [] else es)
          (size + n)
          (if due then some size else last_)
index_step true P rel size n es last_ d here h = (
  ((rel, size) ∷ [], refl, (here, tt)),
  (size, Indexed-last rel size es, omega arith, omega arith),
  (Indexed-last rel size es, omega arith),
)
index_step false P rel size n es last_ d here h =
    let (near, kept) = Near-last es size n last_ d h in (([], sym (append-nil es), tt), near, kept)

-- A time span that holds all that another does.
abbrev Widens : Written → Written → Type 0
Widens w v = (signed v.min_ts ≤ signed w.min_ts) × (signed w.max_ts ≤ signed v.max_ts)

module _ (hash : List ℕ → ℕ) (base_offset : ℕ) where
  -- What was added to a log by writing the records after what was there.
  abbrev pub Adds : Written → List Record → Written → Type 0
  Adds w rs v =
      (v.log ≡ w.log ++ encode_all (encode_record hash) rs)
      × (v.size_bytes ≡ w.size_bytes + length (encode_all (encode_record hash) rs))
      × ((es : List (ℕ × ℕ)) × (v.index_entries ≡ w.index_entries ++ es)
          × All (PointsAt hash base_offset w.size_bytes rs) es)
      × Reaches hash base_offset v.index_entries w.size_bytes rs
      × All (Spans v) rs
      × Widens w v
      × IsSparse v

  module _ (r : Record) (w : Written) where
    Spans-emit : Spans (emit hash base_offset r w) r × Widens w (emit hash base_offset r w)
    unfolding emit
    Spans-emit = (ground arith, ground arith)

    -- The one entry that a record may get, and the entry from which it is reached.
    index-emit :
        base_offset ≤ r.offset
        → IsSparse w
        → ((es : List (ℕ × ℕ)) × ((emit hash base_offset r w).index_entries ≡ w.index_entries ++ es)
            × All (PointsAt hash base_offset w.size_bytes (r ∷ [])) es)
          × Near (emit hash base_offset r w).index_entries w.size_bytes
          × IsSparse (emit hash base_offset r w)
    unfolding emit
    index-emit le h =
        index_step (is_due w.size_bytes w.last_indexed)
          (PointsAt hash base_offset w.size_bytes (r ∷ [])) (r.offset - base_offset) w.size_bytes
          (length (encode_record hash r)) w.index_entries w.last_indexed refl
          (inl (refl, omega arith)) h

  pub IsSparse-emit :
      (r : Record) (w : Written)
      → base_offset ≤ r.offset
      → IsSparse w
      → IsSparse (emit hash base_offset r w)
  IsSparse-emit r w le h = (index-emit r w le h).2

  pub Adds-none : (w : Written) → IsSparse w → Adds w [] w
  Adds-none w h = (
    sym (append-nil w.log),
    omega arith,
    ([], sym (append-nil w.index_entries), tt),
    tt,
    tt,
    (omega arith, omega arith),
    h,
  )

  -- A record, and then the others.
  pub Adds-emit :
      (r : Record) (rs : List Record) (w v : Written)
      → base_offset ≤ r.offset
      → IsSparse w
      → Adds (emit hash base_offset r w) rs v
      → Adds w (r ∷ rs) v
  unfolding emit
  Adds-emit r rs w v le h (log, size, (es, index, points), reaches, spans, wider, sparse) =
      let ((fs, one, here), (p, at_p, below, close), now) = index-emit r w le h in
      let ((low, high), (lower, higher)) = Spans-emit r w in
      let (less, more) = wider in
      let all_entries : v.index_entries ≡ w.index_entries ++ (fs ++ es) =
        rw (index, one) (append_assoc w.index_entries fs es) in
      (
        log ∙ append_assoc w.log (encode_record hash r) (encode_all (encode_record hash) rs),
        omega (
          arith,
          size,
          length-append (encode_record hash r) (encode_all (encode_record hash) rs),
        ),
        (
          fs ++ es,
          all_entries,
          PointsAt-append hash base_offset w.size_bytes r rs fs es here points,
        ),
        (
          (
            p,
            rw index (Indexed-append p (emit hash base_offset r w).index_entries es at_p),
            below,
            close,
          ),
          reaches,
        ),
        ((omega arith, omega arith), spans),
        (omega arith, omega arith),
        sparse,
      )
