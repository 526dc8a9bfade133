-- ===== src/Raft/Config.antt =====
-- raft/state.rs: membership changes as log payloads.
use event_stream.Prelude.{
  ℕ, zero, suc, ◌%◌, ◌^◌, ◌≤◌, ◌<◌, ◌≡◌, refl, ◌∙◌, Bool, true, false, ◌&&◌, Option, none, some,
  List, [], ◌∷◌, ◌++◌, arith, ltb, leb, ◌==◌, if◌then◌else◌, length, take, drop, length-append,
  take-append, drop-append, All,
}
use mathlib.Core.List.{append_assoc, append-nil}
use event_stream.Bytes.BigEndian.{to_be, from_be, length-to_be, from_be-to_be}
use event_stream.Bytes.Reader.{encode_all}

-- `CONFIG_MAGIC`
abbrev pub config_magic : List ℕ
config_magic = 0xEE ∷ 0xEE ∷ 0xEE ∷ 0xEE ∷ []

-- `len as u32`
abbrev pub u32_len : {A : Type 0} → List A → ℕ
u32_len xs = length xs % 2 ^ 32

unfoldable pub encode_config_change : List ℕ → List ℕ → List ℕ
encode_config_change add remove =
    config_magic
    ++ (to_be 4 (u32_len add)
        ++ (encode_all (to_be 4) add ++ (to_be 4 (u32_len remove) ++ encode_all (to_be 4) remove)))

-- `payload[..4] == CONFIG_MAGIC`
starts_with_magic : List ℕ → Bool
starts_with_magic (a ∷ b ∷ c ∷ d ∷ rest) = a == 0xEE && (b == 0xEE && (c == 0xEE && d == 0xEE))
starts_with_magic _ = false

unfoldable pub is_config_entry : List ℕ → Bool
unfolding starts_with_magic
is_config_entry payload = leb 4 (length payload) && starts_with_magic payload

infixl 10 ◌>>=◌
abbrev pub ◌>>=◌ : {A B : Type 0} → Option A → (A → Option B) → Option B
none >>= f = none
some a >>= f = f a

unfoldable pub take_u32 : List ℕ → Option (ℕ × List ℕ)
take_u32 bytes = if ltb (length bytes) 4 then none else some (from_be (take 4 bytes), drop 4 bytes)

unfoldable pub take_n_ids : ℕ → List ℕ → Option (List ℕ × List ℕ)
take_n_ids zero bytes = some ([], bytes)
take_n_ids (suc n) bytes = do
  (id, rest) ← take_u32 bytes
  (ids, rest') ← take_n_ids n rest
  some (id ∷ ids, rest')

unfoldable pub take_ids : List ℕ → Option (List ℕ × List ℕ)
take_ids bytes = do (len, rest) ← take_u32 bytes; take_n_ids len rest

unfoldable pub decode_config_change : List ℕ → Option (List ℕ × List ℕ)
unfolding starts_with_magic
decode_config_change payload =
    if ltb (length payload) 8
    then none
    else if starts_with_magic payload
    then (do
      (add, rest) ← take_ids (drop 4 payload)
      (remove, rest') ← take_ids rest
      some (add, remove))
    else none

abbrev pub IsU32 : ℕ → Type 0
IsU32 n = n < 2 ^ 32

bind_some : {A B : Type 0} (m : Option A) (f : A → Option B) {a : A} → m ≡ some a → (m >>= f) ≡ f a
bind_some m f e = rw (e, ◌>>=◌)

take_u32-to_be : (v : ℕ) (rest : List ℕ) → IsU32 v → take_u32 (to_be 4 v ++ rest) ≡ some (v, rest)
unfolding take_u32
take_u32-to_be v rest h =
    let four : length (to_be 4 v) ≡ 4 = length-to_be 4 v in
    let enough : ltb (length (to_be 4 v ++ rest)) 4 ≡ false =
      ground (arith, length-append (to_be 4 v) rest) in
    rw (
      enough,
      take-append 4 (to_be 4 v) rest four,
      drop-append 4 (to_be 4 v) rest four,
      from_be-to_be 4 v h,
    )

take_n_ids-encode_all :
    (ids rest : List ℕ)
    → All IsU32 ids
    → take_n_ids (length ids) (encode_all (to_be 4) ids ++ rest) ≡ some (ids, rest)
unfolding take_n_ids
take_n_ids-encode_all [] rest h = refl
take_n_ids-encode_all (i ∷ ids) rest (hi, h) = rw append_assoc (
    bind_some _ _ (take_u32-to_be i (encode_all (to_be 4) ids ++ rest) hi)
    ∙ bind_some _ _ (take_n_ids-encode_all ids rest h))

take_ids-encode_all :
    (ids rest : List ℕ)
    → All IsU32 ids
    → length ids < 2 ^ 32
    → take_ids (to_be 4 (u32_len ids) ++ (encode_all (to_be 4) ids ++ rest)) ≡ some (ids, rest)
unfolding take_ids
take_ids-encode_all ids rest h small =
    let len : u32_len ids ≡ length ids = omega arith in
    rw len (
      bind_some _ _ (take_u32-to_be (length ids) (encode_all (to_be 4) ids ++ rest) small)
      ∙ take_n_ids-encode_all ids rest h)

-- A membership change of fewer than 2^32 ids to add and to remove, each a u32, is read back from
-- its payload, and the payload counts as a configuration entry.
pub decode-encode_config_change :
    (add remove : List ℕ)
    → All IsU32 add
    → All IsU32 remove
    → length add < 2 ^ 32
    → length remove < 2 ^ 32
    → (decode_config_change (encode_config_change add remove) ≡ some (add, remove))
      × (is_config_entry (encode_config_change add remove) ≡ true)
unfolding decode_config_change encode_config_change is_config_entry
decode-encode_config_change add remove ha hr la lr =
    let tail : List ℕ = to_be 4 (u32_len remove) ++ encode_all (to_be 4) remove in
    let body : List ℕ = to_be 4 (u32_len add) ++ (encode_all (to_be 4) add ++ tail) in
    let long : 4 ≤ length body = omega (
      arith,
      length-append (to_be 4 (u32_len add)) (encode_all (to_be 4) add ++ tail),
      length-to_be 4 (u32_len add),
    ) in
    let enough : ltb (length (config_magic ++ body)) 8 ≡ false = ground arith in
    let little : leb 4 (length (config_magic ++ body)) ≡ true = ground arith in
    let removed : take_ids tail ≡ some (remove, []) =
      rw append-nil at (take_ids-encode_all remove [] hr lr) in
    let decoded : decode_config_change (config_magic ++ body) ≡ some (add, remove) = rw enough (
      bind_some (take_ids body) _ (take_ids-encode_all add tail ha la)
      ∙ bind_some (take_ids tail) _ removed) in
    (decoded, rw little)
