-- ===== src/Compaction/Tests.antt =====
-- compaction.rs: the theorem at a log with an overwritten key and an old tombstone.
use event_stream.Prelude.{
  ℕ, refl, ◌*◌, ◌%◌, ◌^◌, ◌≡◌, length, take, drop, Option, none, some, List, [], ◌∷◌, arith,
}
use event_stream.Prelude.Ordered.{Str}
use event_stream.Storage.Record.{Record}
use event_stream.Compaction.{
  Segment, newest, survivors, keyless, Written, empty_written, write_survivors,
}
use event_stream.Compaction.Indexed.{IsCopy}
use event_stream.Compaction.Survivors.{write_survivors_lem}
use event_stream.Compaction.Newest.{last_of}
use event_stream.Compaction.Kept.{Shows, remaining, survivors-newest}

abbrev entry : ℕ → Option Str → List ℕ → Record
entry at_ k v = record { offset = at_; timestamp_ms = 10 * at_; key = k; value = v }

abbrev records : List Record
records =
    entry 0 (some (1 ∷ [])) (7 ∷ [])
    ∷ entry 1 (some (2 ∷ [])) (8 ∷ [])
    ∷ entry 2 none (9 ∷ [])
    ∷ entry 4 (some (1 ∷ [])) (6 ∷ [])
    ∷ entry 5 (some (2 ∷ [])) []
    ∷ []

survivors-newest_example :
    Shows
      (2 ∷ [])
      (remaining 1000 (last_of (2 ∷ []) records))
      (survivors (newest 1000 records []) records)
    × (keyless (survivors (newest 1000 records []) records) ≡ keyless records)
survivors-newest_example =
    survivors-newest 1000 records (2 ∷ [])
      (omega arith, (omega arith, (omega arith, (omega arith, (omega arith, tt)))))

-- A checksum that counts the bytes.
abbrev count_bytes : List ℕ → ℕ
count_bytes bytes = length bytes % 2 ^ 32

-- The records of a segment from 0, and of one from 5.
abbrev segments : List Segment
segments =
    record { base_offset = 0; contents = some (take 4 records) }
    ∷ record { base_offset = 5; contents = some (drop 4 records) }
    ∷ []

write_survivors_lem_example :
    (w : Written) × (write_survivors count_bytes 0 (newest 1000 records []) segments empty_written
      ≡ some w)
    × IsCopy count_bytes 0 (survivors (newest 1000 records []) records) w
write_survivors_lem_example =
    write_survivors_lem count_bytes 0 (newest 1000 records []) segments records refl
      (omega arith, (omega arith, (omega arith, (omega arith, (omega arith, tt)))))
