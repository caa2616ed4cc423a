-- ===== src/Message/Serializer.antt =====
-- `Marshal` and `Unmarshal` of `message/cbor.go`, `message/json.go` and
-- `message/json_helpers.go`. What turns the helper struct into bytes and back is a parameter: the
-- CBOR package is not part of the repository, and `Message.Json` has the text of JSON.
use causalclock.Base.{
  ℕ, ℤ, pos, negsuc, Str, Option, none, some, List, [], length, ltb, ◌==◌, if◌then◌else◌, ◌∷◌, ◌++◌,
}
use causalclock.Base.Time.{Time, zero_time, is_zero_time, unix_time}
use causalclock.Message.Types.{
  Message, Result, ok, err, ◌>>=◌, max_message_size, err_nil_message, err_validation_failed,
  err_encoding_failed, err_message_too_large, err_invalid_encoding, err_empty_data, err_null_clock,
}
use causalclock.Message.Validate.{validate}
use causalclock.Message.Clocks.{clock_data, rebuild}

-- `cborMessage`, `messageJSON`: the struct that is encoded. `none` is a nil map.
pub record Helper : Type 0 where
  pub version : ℕ
  pub sender_id : Str
  pub clock_data : Option (List (Str × ℤ))
  pub payload : List ℕ
  pub timestamp : ℤ
  pub metadata : Option (List (Str × Str))

-- The encoder and the decoder of the package at hand, CBOR or JSON, for the struct. A failing
-- decoder tells which error. A decoder reads the first value of its input only.
pub record Codec : Type 0 where
  pub encode : Helper → Option (List ℕ)
  pub decode : List ℕ → (Result Helper)

-- `if !msg.Timestamp.IsZero() { helper.Timestamp = msg.Timestamp.Unix() }`
abbrev pub sent_time : Time → ℤ
sent_time t = if is_zero_time t then pos 0 else t.sec

-- `if helper.Timestamp > 0 { msg.Timestamp = time.Unix(helper.Timestamp, 0) }`
abbrev pub arrived_time : ℤ → Time
arrived_time (negsuc n) = zero_time
arrived_time (pos n) = if n == 0 then zero_time else unix_time (pos n)

-- The struct of a message.
unfoldable pub helper_of : Message → Helper
helper_of m = record {
  version = m.version;
  sender_id = m.sender_id;
  clock_data = some (clock_data m.clock);
  payload = m.payload;
  timestamp = sent_time m.timestamp;
  metadata = m.metadata;
}

-- The message of a struct whose clock has been rebuilt.
unfoldable pub message_of : Helper → List (Str × ℤ) → Result Message
message_of h m = do
  clk ← rebuild m
  ok (record {
    version = h.version;
    sender_id = h.sender_id;
    clock = some clk;
    payload = h.payload;
    timestamp = arrived_time h.timestamp;
    metadata = h.metadata;
  })

-- The last check of `Unmarshal`.
abbrev pub validated : Message → Result Message
validated m = elim (validate (some m)) [ none ↦ ok m | some e ↦ err (err_validation_failed e) ]

-- The checks of the length that `Unmarshal` makes first.
abbrev pub sized : List ℕ → Result (List ℕ)
sized input =
    if length input == 0
    then err (err_invalid_encoding err_empty_data)
    else if ltb max_message_size (length input)
    then err err_message_too_large
    else ok input

-- The last check of `Marshal`.
abbrev pub limited : List ℕ → Result (List ℕ)
limited out = if ltb max_message_size (length out) then err err_message_too_large else ok out

-- The text with the line feed that the encoder of JSON adds.
abbrev pub line : List ℕ → List ℕ
line out = out ++ (b'\n' ∷ [])

-- A decoder's error, wrapped by `ErrInvalidEncoding`.
abbrev pub wrap_decode {ℓ} : {A : Type ℓ} → Result A → Result A
wrap_decode (ok a) = ok a
wrap_decode (err e) = err (err_invalid_encoding e)

-- The entries of a map that may be nil.
abbrev pub or_empty : Option (List (Str × ℤ)) → List (Str × ℤ)
or_empty none = []
or_empty (some m) = m

module _ (codec : Codec) where
  -- `CBORSerializer.Marshal`
  unfoldable pub marshal_cbor : Option Message → Result (List ℕ)
  marshal_cbor none = err err_nil_message
  marshal_cbor (some m) = elim (validate (some m)) [
    | some e ↦ err (err_validation_failed e)
    | none ↦ elim (codec.encode (helper_of m)) [
      | none ↦ err err_encoding_failed
      | some out ↦ limited out
    ]
  ]

  -- `Message.MarshalJSON`
  unfoldable pub marshal_helper : Option Message → Result (List ℕ)
  marshal_helper none = err err_nil_message
  marshal_helper (some m) = elim (codec.encode (helper_of m)) [
    | none ↦ err err_encoding_failed
    | some out ↦ ok out
  ]

  -- `JSONSerializer.Marshal`, whose encoder calls `Message.MarshalJSON`. The text that comes from
  -- there is compact already; the encoder ends it with a line feed.
  unfoldable pub marshal_json : Option Message → Result (List ℕ)
  unfolding marshal_helper
  marshal_json none = err err_nil_message
  marshal_json (some m) = elim (validate (some m)) [
    | some e ↦ err (err_validation_failed e)
    | none ↦ elim (marshal_helper (some m)) [
      | err e ↦ err err_encoding_failed
      | ok out ↦ limited (line out)
    ]
  ]

  -- `CBORSerializer.Unmarshal`: a nil map of the clock counts as an empty one.
  unfoldable pub unmarshal_cbor : List ℕ → Result Message
  unfolding message_of
  unmarshal_cbor input = do
    bytes ← sized input
    h ← wrap_decode (codec.decode bytes)
    m ← message_of h (or_empty h.clock_data)
    validated m

  -- `Message.UnmarshalJSON`: a nil map of the clock is refused.
  unfoldable pub unmarshal_helper : Helper → Result Message
  unfolding message_of
  unmarshal_helper h = elim h.clock_data [ none ↦ err err_null_clock | some m ↦ message_of h m ]

  -- `JSONSerializer.Unmarshal`, whose decoder calls `Message.UnmarshalJSON`.
  unfoldable pub unmarshal_json : List ℕ → Result Message
  unfolding unmarshal_helper
  unmarshal_json input = do
    bytes ← sized input
    m ← wrap_decode (do h ← codec.decode bytes; unmarshal_helper h)
    validated m
