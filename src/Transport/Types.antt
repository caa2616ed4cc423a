-- ===== src/Transport/Types.antt =====
-- `transport/transport.go`: the message, the errors and the configuration.
use causalclock.Base.{ℕ, Str, Bool, List, Option, ◌*◌}
use causalclock.Base.Time.{Time}

-- `Message`. `none` is the nil map of metadata; nil and empty byte slices are one, since no
-- code here tells them apart.
pub record Message : Type 0 where
  pub from : Str
  pub to : Str
  pub seq : ℕ  -- uint64
  pub body : List ℕ
  pub timestamp : Time
  pub vector_clock_data : List ℕ
  pub metadata : Option (List (Str × Str))

-- The errors that are values, and the formatted ones by their texts. `os_error` stands for an
-- error of the operating system that a method wraps or passes on.
pub data Error : Type 0 where
  err_connection_closed err_listener_closed err_dial_failed err_context_cancelled : Error
  err_message_too_large err_invalid_address err_not_implemented : Error
  err_data_too_short err_invalid_from_length err_invalid_to_length err_invalid_seq : Error
  err_invalid_body_length err_invalid_body_data : Error
  err_invalid_clock_length err_invalid_clock_data : Error
  err_nil_message err_listener_exists err_no_listener err_queue_full : Error
  err_read_length err_read_data err_write_length err_write_data err_flush : Error
  err_resolve err_listen err_dial err_accept os_error : Error
  err_hook : ℕ → Error

-- A call returns a value, returns an error, or panics.
pub data Outcome {ℓ} (A : Type ℓ) : Type ℓ where
  ok : A → Outcome A
  err : Error → Outcome A
  panic : Outcome A

infixl 5 ◌>>=◌ ◌>>◌
abbrev pub ◌>>=◌ {ℓ κ} : {A : Type ℓ} {B : Type κ} → Outcome A → (A → Outcome B) → Outcome B
ok a >>= f = f a
err e >>= f = err e
panic >>= f = panic

abbrev pub ◌>>◌ {ℓ} : {B : Type ℓ} → Outcome (Unit {0}) → Outcome B → Outcome B
m >> k = m >>= λ _. k

-- `if test { return nil, e }`
abbrev pub reject_if : Bool → Error → Outcome (Unit {0})
reject_if Bool.true e = err e
reject_if Bool.false e = ok tt

-- `TransportConfig`, in whole milliseconds where it holds a duration.
pub record TransportConfig : Type 0 where
  pub max_message_size : ℕ
  pub dial_timeout : ℕ
  pub connect_retries : ℕ
  pub read_timeout : ℕ
  pub write_timeout : ℕ
  pub node_id : Str

-- `DefaultConfig`
unfoldable pub default_config : TransportConfig
default_config = record {
  max_message_size = 16 * 1024 * 1024;
  dial_timeout = 10000;
  connect_retries = 3;
  read_timeout = 30000;
  write_timeout = 30000;
  node_id = List.[];
}
