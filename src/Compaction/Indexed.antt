-- ===== src/Compaction/Indexed.antt =====
-- compaction.rs: what a log and its index entries say of the records in it.
use event_stream.Prelude.{
  ℕ, ◌+◌, ◌%◌, ◌^◌, ◌≤◌, ◌<◌, ◌≡◌, refl, ◌⊎◌, inl, inr, List, [], ◌∷◌, ◌++◌, length, All,
}
use event_stream.Bytes.Reader.{encode_all}
use event_stream.Storage.Record.{Record, encode_record}
use event_stream.Compaction.{Written}

-- The place of an `i64` among all of them.
abbrev pub signed : ℕ → ℕ
signed a = (a + 2 ^ 63) % 2 ^ 64

-- The time span that was noted holds the record.
abbrev pub Spans : Written → Record → Type 0
Spans v r = (signed v.min_ts ≤ signed r.timestamp_ms) × (signed r.timestamp_ms ≤ signed v.max_ts)

-- An entry stands at that position.
abbrev pub Indexed : ℕ → List (ℕ × ℕ) → Type 0
Indexed p [] = ⊥
Indexed p ((rel, at_) ∷ es) = (at_ ≡ p) ⊎ Indexed p es

pub Indexed-append : (p : ℕ) (es fs : List (ℕ × ℕ)) → Indexed p es → Indexed p (es ++ fs)
Indexed-append p [] fs h = absurd h
Indexed-append p ((rel, at_) ∷ es) fs (inl e) = inl e
Indexed-append p ((rel, at_) ∷ es) fs (inr h) = inr (Indexed-append p es fs h)

pub Indexed-last : (rel p : ℕ) (es : List (ℕ × ℕ)) → Indexed p (es ++ (rel, p) ∷ [])
Indexed-last rel p [] = inl refl
Indexed-last rel p (e ∷ es) = inr (Indexed-last rel p es)

module _ (hash : List ℕ → ℕ) (base_offset : ℕ) where
  -- Where records are written from a position on, an entry gives the offset of one of them, relative
  -- to the base, and the position it begins at.
  abbrev pub PointsAt : ℕ → List Record → (ℕ × ℕ) → Type 0
  PointsAt pos [] (rel, at_) = ⊥
  PointsAt pos (r ∷ rs) (rel, at_) =
      ((at_ ≡ pos) × (base_offset + rel ≡ r.offset))
      ⊎ PointsAt (pos + length (encode_record hash r)) rs (rel, at_)

  PointsAt-later :
      (pos : ℕ) (r : Record) (rs : List Record) (es : List (ℕ × ℕ))
      → All (PointsAt (pos + length (encode_record hash r)) rs) es
      → All (PointsAt pos (r ∷ rs)) es
  PointsAt-later pos r rs [] h = tt
  PointsAt-later pos r rs ((rel, at_) ∷ es) (p, h) = (inr p, PointsAt-later pos r rs es h)

  -- Entries of the first record, and then entries of those after it.
  pub PointsAt-append :
      (pos : ℕ) (r : Record) (rs : List Record) (fs es : List (ℕ × ℕ))
      → All (PointsAt pos (r ∷ [])) fs
      → All (PointsAt (pos + length (encode_record hash r)) rs) es
      → All (PointsAt pos (r ∷ rs)) (fs ++ es)
  PointsAt-append pos r rs [] es h k = PointsAt-later pos r rs es k
  PointsAt-append pos r rs ((rel, at_) ∷ fs) es (inl e, h) k =
      (inl e, PointsAt-append pos r rs fs es h k)
  PointsAt-append pos r rs ((rel, at_) ∷ fs) es (inr none_, h) k = absurd none_

  -- Where records are written from a position on, an entry stands at most 4095 bytes before the
  -- beginning of each.
  abbrev pub Reaches : List (ℕ × ℕ) → ℕ → List Record → Type 0
  Reaches es pos [] = Unit
  Reaches es pos (r ∷ rs) =
      ((p : ℕ) × Indexed p es × (p ≤ pos) × (pos < p + 4096))
      × Reaches es (pos + length (encode_record hash r)) rs

  -- The log, its size, its index entries and its time span are those of the records.
  abbrev pub IsCopy : List Record → Written → Type 0
  IsCopy rs v =
      (v.log ≡ encode_all (encode_record hash) rs)
      × (v.size_bytes ≡ length v.log)
      × All (PointsAt 0 rs) v.index_entries
      × Reaches v.index_entries 0 rs
      × All (Spans v) rs
