-- ===== src/Groups/Tests.antt =====
-- groups.rs: the theorems at a group of one key, which another tries to use.
use event_stream.Prelude.{
  ℕ, ◌≡◌, inl, inr, refl, true, false, ◌&&◌, none, some, List, [], ◌∷◌, ◌==◌, if◌then◌else◌,
}
use event_stream.Prelude.Ordered.{Str, str_same, str_key, OrdMap, find}
use event_stream.Auth.{ApiKey, read, star, is_admin}
use event_stream.Groups.{
  GroupEntry, GroupFile, current, legacy, refused, forbidden, invalid, commit, fetch, flush,
  open_store, validate_group_name,
}
use event_stream.Groups.Run.{Event, join, committed, reset_to, flushed, run}
use event_stream.Groups.Owned.{IsForeign, run-keeps_owned}
use event_stream.Groups.Durable.{flush-survives}
use event_stream.Groups.Committed.{was_granted, fetch-commit}

abbrev key_named : Str → ApiKey
key_named id = record {
  key_id = id;
  name = id;
  acls = record { action = read; topic_prefix = star } ∷ [];
  produce_bytes_per_sec = none;
  consume_bytes_per_sec = none;
  created_at_ms = 0;
  disabled = false;
}

abbrev alice : ApiKey
alice = key_named (97 ∷ [])

abbrev bob : ApiKey
bob = key_named (98 ∷ [])

abbrev group : Str
group = 103 ∷ []

abbrev topic : Str
topic = 116 ∷ []

abbrev alices : GroupEntry
alices = record { owner = alice.key_id; offsets = (topic, (0, 5) ∷ []) ∷ [] }

abbrev files : OrdMap Str GroupFile
files = (group, current alices.owner alices.offsets) ∷ (topic, legacy []) ∷ []

bob-IsForeign : IsForeign alice.key_id bob
unfolding is_admin
bob-IsForeign = (refl, refl)

abbrev events : List Event
events =
    committed group bob topic 0 0
    ∷ join group bob
    ∷ committed topic bob topic 1 7
    ∷ flushed (λ g. false)
    ∷ reset_to topic topic 1 2
    ∷ []

run-keeps_owned_example :
    (find group (run events (open_store files)).entries ≡ some alices)
    × ((key : ApiKey) (t : Str) (partition offset : ℕ)
        → IsForeign alices.owner key
        → commit group key t partition offset (run events (open_store files)) ≡ (
          run events (open_store files),
          refused (if validate_group_name group then forbidden else invalid),
        ))
unfolding open_store
run-keeps_owned_example =
    run-keeps_owned group alices events (open_store files) refl refl
      (inr bob-IsForeign, (inr bob-IsForeign, (inl refl, (tt, (refl, tt)))))

flush-survives_example :
    ((flush (λ g. true) (run events (open_store files))).1 ≡ true)
    × ((g : Str)
        → find g (open_store (flush (λ j. true) (run events (open_store files))).0.files).entries
          ≡ find g (run events (open_store files)).entries)
flush-survives_example = flush-survives files events (λ g. true) (λ g. refl)

fetch-commit_example : fetch group topic 0 (commit group alice topic 0 9 (open_store files)).0 ≡ (
    if was_granted (commit group alice topic 0 9 (open_store files)).1
      && (str_same group group && (str_same topic topic && 0 == 0))
    then some 9
    else fetch group topic 0 (open_store files))
fetch-commit_example = fetch-commit group alice topic 0 9 (open_store files) group topic 0
