-- ===== src/Wire.antt =====
-- crates/es-protocol/src/wire.rs: the binary protocol of the hot path, its requests and responses.
pub mod Fields
pub mod Codec
pub mod Head
pub mod RoundTrip
pub mod Bounded
mod Tests
use event_stream.Prelude.{ℕ, Bool, Option, none, some, List, ◌==◌, if◌then◌else◌, ◌≡◌, refl, arith}

pub data HandshakeStatus : Type 0 where
  ok bad_magic auth_failed auth_required feature_unsupported internal : HandshakeStatus

-- `#[repr(u8)]`
abbrev pub status_byte : HandshakeStatus → ℕ
status_byte ok = 0
status_byte bad_magic = 1
status_byte auth_failed = 2
status_byte auth_required = 3
status_byte feature_unsupported = 4
status_byte internal = 5

-- `HandshakeStatus::from_u8`
unfoldable pub status_from_u8 : ℕ → Option HandshakeStatus
status_from_u8 b =
    if b == 0
    then some ok
    else if b == 1
    then some bad_magic
    else if b == 2
    then some auth_failed
    else if b == 3
    then some auth_required
    else if b == 4
    then some feature_unsupported
    else if b == 5
    then some internal
    else none

pub data Opcode : Type 0 where
  produce consume ping produce_ok consume_ok ping_ok error : Opcode

-- `#[repr(u8)]`
abbrev pub opcode_byte : Opcode → ℕ
opcode_byte produce = 1
opcode_byte consume = 2
opcode_byte ping = 3
opcode_byte produce_ok = 129
opcode_byte consume_ok = 130
opcode_byte ping_ok = 131
opcode_byte error = 255

-- `Opcode::from_u8`
unfoldable pub opcode_from_u8 : ℕ → Option Opcode
opcode_from_u8 b =
    if b == 1
    then some produce
    else if b == 2
    then some consume
    else if b == 3
    then some ping
    else if b == 129
    then some produce_ok
    else if b == 130
    then some consume_ok
    else if b == 131
    then some ping_ok
    else if b == 255
    then some error
    else none

-- A `String` is its bytes, and a signed integer its two's complement word.
pub record WireProduceRecord : Type 0 where
  pub key : Option (List ℕ)
  pub value : List ℕ
  pub partition : Option ℕ
  pub sequence : Option ℕ

pub record WireProduceRequest : Type 0 where
  pub topic : List ℕ
  pub producer_id : Option (List ℕ)
  pub records : List WireProduceRecord

pub record WireProduceResult : Type 0 where
  pub partition : ℕ
  pub offset : ℕ
  pub duplicate : Bool

pub record WireConsumeRequest : Type 0 where
  pub topic : List ℕ
  pub partition : ℕ
  pub offset : ℕ
  pub max_records : ℕ
  pub max_bytes : ℕ

pub record WireRecord : Type 0 where
  pub partition : ℕ
  pub offset : ℕ
  pub timestamp_ms : ℕ
  pub key : Option (List ℕ)
  pub value : List ℕ

pub record WireConsumeResponse : Type 0 where
  pub records : List WireRecord
  pub next_offset : ℕ
  pub high_watermark : ℕ

status_byte-from_u8 : (o : HandshakeStatus) → status_from_u8 (status_byte o) ≡ some o
unfolding status_from_u8
status_byte-from_u8 ok = refl
status_byte-from_u8 bad_magic = refl
status_byte-from_u8 auth_failed = refl
status_byte-from_u8 auth_required = refl
status_byte-from_u8 feature_unsupported = refl
status_byte-from_u8 internal = refl

opcode_byte-from_u8 : (o : Opcode) → opcode_from_u8 (opcode_byte o) ≡ some o
unfolding opcode_from_u8
opcode_byte-from_u8 produce = refl
opcode_byte-from_u8 consume = refl
opcode_byte-from_u8 ping = refl
opcode_byte-from_u8 produce_ok = refl
opcode_byte-from_u8 consume_ok = refl
opcode_byte-from_u8 ping_ok = refl
opcode_byte-from_u8 error = refl
