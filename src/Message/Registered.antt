-- ===== src/Message/Registered.antt =====
-- The serializers that `DefaultRegistry` of `message/serializer.go` hands out.
use causalclock.Base.{if◌then◌else◌, [], ◌∷◌, Str, str_eq, List, ℤ, ℕ, some, none, ◌≡◌}
use causalclock.Clock.Types.{Clock}
use causalclock.Counter.{int64}
use causalclock.Counters.Compare.{compare}
use causalclock.Counters.Comparison.{equal_cmp}
use causalclock.Message.Carried.{IsSendable}
use causalclock.Message.Registry.{
  Serializer, get, default_registry, get-default_registry, cbor_serializer, json_serializer,
}
use causalclock.Message.RoundTrip.{Carries, arrived_as, unmarshal-marshal}
use causalclock.Message.Serializer.{Codec, line}
use causalclock.Message.Types.{Message, ok}
use causalclock.Message.Validate.{validate}

abbrev pub cbor_name : Str
cbor_name = b'c' ∷ b'b' ∷ b'o' ∷ b'r' ∷ []

abbrev pub json_name : Str
json_name = b'j' ∷ b's' ∷ b'o' ∷ b'n' ∷ []

-- The serializer sends the message as these bytes, and reads it from them as it arrives.
pub record Delivers (s : Serializer) (m : Message) (c : Clock) (sent : List ℕ) : Type 0 where
  pub marshalled : s.marshal (some m) ≡ ok sent
  pub arrived_clock : Clock
  pub unmarshalled : s.unmarshal sent ≡ ok (arrived_as m arrived_clock)
  pub equal : compare int64 (some arrived_clock) (some c) ≡ equal_cmp

-- The registry that the program starts with, where the set-up of CBOR succeeded, gives a
-- serializer for the name cbor, one for the name json and none for any other. A valid message with
-- a sendable clock that the encodings carry is sent by the first as the output of the encoder of
-- CBOR, and by the second as the text of the encoder of JSON with a line feed; from these each
-- gives the message back with a clock that compares equal and all else as it was sent but for the
-- time. A time of one second or more after the epoch loses what is below a second, and any other
-- becomes January 1 of year 1. Where the set-up failed, the name json gives the same serializer and
-- every other name none.
pub get-default_registry_trip :
    (cbor json : Codec) (m : Message) (c : Clock) (out text : List ℕ)
    (arrived arrived' : List (Str × ℤ))
    → validate (some m) ≡ none
    → m.clock ≡ some c
    → IsSendable c
    → Carries cbor m out out arrived
    → Carries json m text (line text) arrived'
    → (s : Serializer) × (s' : Serializer) × Delivers s m c out
      × Delivers s' m c (line text)
      × ((name : Str)
          → get (default_registry (json_serializer json) (some (cbor_serializer cbor))) name ≡ (
              if str_eq cbor_name name
              then some s
              else if str_eq json_name name
              then some s'
              else none))
      × ((name : Str)
          → get (default_registry (json_serializer json) none) name
            ≡ (if str_eq json_name name then some s' else none))
get-default_registry_trip cbor json m c out text arrived arrived' v e h k k' =
    let ((c', put, taken, equal), (d', put', taken', equal')) =
      unmarshal-marshal cbor json m c out text arrived arrived' v e h k k' in
    (
      cbor_serializer cbor,
      json_serializer json,
      record { marshalled = put; arrived_clock = c'; unmarshalled = taken; equal = equal },
      record { marshalled = put'; arrived_clock = d'; unmarshalled = taken'; equal = equal' },
      get-default_registry (json_serializer json) (some (cbor_serializer cbor)),
      get-default_registry (json_serializer json) none,
    )
