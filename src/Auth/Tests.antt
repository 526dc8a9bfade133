-- ===== src/Auth/Tests.antt =====
-- auth.rs: the theorem at a key with two grants.
use event_stream.Prelude.{◌≡◌, ◌↔◌, true, false, none, [], ◌∷◌}
use event_stream.Prelude.Ordered.{Str}
use event_stream.Auth.{read, write, ApiKey, can}
use event_stream.Auth.Covers.{AnyOf, Grants, can_iff}

-- `o`, and `o.e`.
abbrev above : Str
above = 111 ∷ []

abbrev below : Str
below = 111 ∷ 46 ∷ 101 ∷ []

abbrev writer : ApiKey
writer = record {
  key_id = 107 ∷ [];
  name = [];
  acls =
      record { action = read; topic_prefix = 120 ∷ [] }
      ∷ record { action = write; topic_prefix = above }
      ∷ [];
  produce_bytes_per_sec = none;
  consume_bytes_per_sec = none;
  created_at_ms = 0;
  disabled = false;
}

can_iff_example :
    (can writer read below ≡ true) ↔ ((false ≡ false) × AnyOf (Grants read below) writer.acls)
can_iff_example = can_iff writer read below
