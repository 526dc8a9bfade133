-- ===== src/Auth.antt =====
-- crates/es-broker/src/auth.rs: the grants of an API key. Strings are the bytes of their UTF-8, in which
-- the separators and the names that pass `validate_prefix` are ASCII.
pub mod Prefix
pub mod Covers
mod Tests
use event_stream.Prelude.{
  ℕ, Bool, true, false, ◌&&◌, ◌||◌, not, Option, List, [], ◌∷◌, ltb, leb, ◌==◌, if◌then◌else◌,
  length, drop, is_empty,
}
use event_stream.Prelude.Ordered.{Str, str_same}

pub data AclAction : Type 0 where
  read write admin : AclAction

abbrev pub action_same : AclAction → AclAction → Bool
action_same read read = true
action_same write write = true
action_same admin admin = true
action_same a b = false

pub record AclRule : Type 0 where
  pub action : AclAction
  pub topic_prefix : Str

pub record ApiKey : Type 0 where
  pub key_id : Str
  pub name : Str
  pub acls : List AclRule
  pub produce_bytes_per_sec : Option ℕ
  pub consume_bytes_per_sec : Option ℕ
  pub created_at_ms : ℕ
  pub disabled : Bool

-- `"*"`
abbrev pub star : Str
star = 42 ∷ []

-- `NAME_SEPARATORS`: `.`, `-` and `_`.
abbrev pub is_separator : ℕ → Bool
is_separator c = c == 46 || (c == 45 || c == 95)

abbrev pub starts_with : Str → Str → Bool
starts_with [] s = true
starts_with (p ∷ ps) [] = false
starts_with (p ∷ ps) (c ∷ cs) = p == c && starts_with ps cs

-- `s.starts_with(NAME_SEPARATORS)`, `s.ends_with(NAME_SEPARATORS)`
abbrev pub starts_separated : Str → Bool
starts_separated [] = false
starts_separated (c ∷ cs) = is_separator c

abbrev pub ends_separated : Str → Bool
ends_separated [] = false
ends_separated (c ∷ []) = is_separator c
ends_separated (c ∷ d ∷ cs) = ends_separated (d ∷ cs)

unfoldable pub prefix_matches : Str → Str → Bool
prefix_matches pre topic =
    if str_same pre star
    then true
    else if is_empty pre || not (starts_with pre topic)
    then false
    else if (length topic == length pre) || ends_separated pre
    then true
    else starts_separated (drop (length pre) topic)

-- A grant of `admin` covers each action, and one of `write` also `read`.
abbrev pub action_ok : AclAction → AclAction → Bool
action_ok admin b = true
action_ok write read = true
action_ok a b = action_same a b

unfoldable pub matches : AclRule → AclAction → Str → Bool
matches r a topic = action_ok r.action a && prefix_matches r.topic_prefix topic

abbrev pub any : {A : Type 0} → (A → Bool) → List A → Bool
any test [] = false
any test (x ∷ xs) = test x || any test xs

unfoldable pub can : ApiKey → AclAction → Str → Bool
can k a topic = if k.disabled then false else any (λ r. matches r a topic) k.acls

unfoldable pub is_admin : ApiKey → Bool
is_admin k =
    if k.disabled
    then false
    else any (λ r. action_same r.action admin && str_same r.topic_prefix star) k.acls

abbrev pub is_alphanumeric : ℕ → Bool
is_alphanumeric c = (leb 48 c && leb c 57) || ((leb 65 c && leb c 90) || (leb 97 c && leb c 122))

-- What names may hold: ASCII letters and digits, `_`, `-` and `.`.
abbrev pub all_name_chars : Str → Bool
all_name_chars [] = true
all_name_chars (c ∷ cs) = (is_alphanumeric c || is_separator c) && all_name_chars cs

unfoldable pub validate_prefix : Str → Bool
validate_prefix pre =
    if str_same pre star
    then true
    else if is_empty pre || ltb 200 (length pre)
    then false
    else all_name_chars pre
