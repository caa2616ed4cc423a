-- ===== src/Message/Types.antt =====
-- `message/message.go`: the message, the limits and the errors.
use causalclock.Base.{ℕ, ◌*◌, Str, Option, List}
use causalclock.Base.Time.{Time}
use causalclock.Clock.Types.{Clock}

abbrev pub current_version : ℕ
current_version = 1

abbrev pub max_message_size : ℕ
max_message_size = 16 * 1024 * 1024

abbrev pub max_sender_id_length : ℕ
max_sender_id_length = 256

abbrev pub max_payload_size : ℕ
max_payload_size = 15 * 1024 * 1024

-- The error values, and the formatted errors by their texts. The three of a sender's name all
-- wrap `ErrInvalidSenderID`; `err_validation_failed` and `err_invalid_encoding` wrap another.
pub data Error : Type 0 where
  err_nil_message : Error
  err_invalid_version : ℕ → Error
  err_sender_id_empty err_sender_id_too_long err_sender_id_control : Error
  err_nil_clock err_payload_too_large err_metadata_too_large err_message_too_large : Error
  err_empty_data err_null_clock err_encoding_failed err_encoder_config err_decoder_config : Error
  err_invalid_clock_value : Str → Error
  err_validation_failed : Error → Error
  err_invalid_encoding : Error → Error
  err_decode : ℕ → Error

pub data Result {ℓ} (A : Type ℓ) : Type ℓ where
  ok : A → Result A
  err : Error → Result A

infixl 5 ◌>>=◌
abbrev pub ◌>>=◌ {ℓ κ} : {A : Type ℓ} {B : Type κ} → Result A → (A → Result B) → Result B
ok a >>= f = f a
err e >>= f = err e

-- `Message`. The version is a uint8; a nil map of metadata is `none`; a nil and an empty payload
-- are one.
pub record Message : Type 0 where
  pub version : ℕ
  pub sender_id : Str
  pub clock : Option Clock
  pub payload : List ℕ
  pub timestamp : Time
  pub metadata : Option (List (Str × Str))
