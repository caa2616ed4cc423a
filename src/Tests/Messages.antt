-- ===== src/Tests/Messages.antt =====
-- Messages, their serialized form and the registry.
use causalclock.Base.{
  if◌then◌else◌, true, Str, ℤ, List, ℕ, ◌≤◌, none, some, [], ◌∷◌, length, lookup, insert, value_at,
  Distinct, ◌≡◌, ◌↔◌, inl, refl, arith, str_eq, str_ltb,
}
use causalclock.Base.Time.{zero_time, is_zero_time}
use causalclock.Base.Runes.{any_rune}
use causalclock.Clock.Types.{Clock}
use causalclock.Counter.{int64}
use causalclock.Counters.Comparison.{equal_cmp}
use causalclock.Counters.Compare.{compare}
use causalclock.Counters.Defs.{new, set, get, merge, increment}
use causalclock.Counters.Listing.{nodes}
use causalclock.Message.Types.{Message, ok, max_message_size}
use causalclock.Message.Validate.{validate, validate_sender_id}
use causalclock.Message.Clocks.{clock_data, rebuild}
use causalclock.Message.Serializer.{
  Codec, helper_of, marshal_cbor, marshal_json, unmarshal_cbor, unmarshal_json,
}
use causalclock.Message.Sender.{IsMessage, validate_iff}
use causalclock.Message.RoundTrip.{unmarshal_safe, unmarshal-marshal, Carries, arrived_as}
use causalclock.Message.Zeros.{rebuild-new}
use causalclock.Message.Registry.{Serializer, default_registry, json_serializer, cbor_serializer}
use causalclock.Message.Registry
use causalclock.Message.Registered.{cbor_name, json_name, Delivers, get-default_registry_trip}
use causalclock.Base.Quote.{quoted}
use causalclock.Base.Json.{sort_entries}
use causalclock.Message.Json.{helper_onto, read_helper, json_codec}
use causalclock.Message.Json.Texts.{text_of, carried_by}
use causalclock.Message.Serializer.{line}
use causalclock.Tests.Json.{greeting, refused, greeting_accepted, IsSendable-ab, IsText-greeting}
use causalclock.Tests.Data.{node_a, node_b, clock_ab}

program : Unit {0}
unfolding new set get increment merge compare lookup insert value_at nodes str_eq str_ltb validate
    clock_data rebuild helper_of marshal_cbor marshal_json unmarshal_cbor unmarshal_json any_rune
    is_zero_time validate_sender_id helper_onto read_helper quoted
program = tt

-- A message from node a.
abbrev hello : Message
hello = record {
  version = 1;
  sender_id = node_a;
  clock = some clock_ab;
  payload = b'h' ∷ b'i' ∷ [];
  timestamp = zero_time;
  metadata = none;
}

-- The encoding of JSON, in the place of either.
abbrev codec : Codec
codec = json_codec true refused

abbrev text : List ℕ
text = text_of true greeting

abbrev arrived : List (Str × ℤ)
arrived = sort_entries (clock_data (some clock_ab))

reads_text : read_helper text ≡ some (helper_of greeting)
unfolding program
reads_text = refl

reads_line : read_helper (line text) ≡ some (helper_of greeting)
unfolding program
reads_line = refl

sizes :
    (1 ≤ length text) × (length text ≤ max_message_size) × (length (line text) ≤ max_message_size)
unfolding program
sizes = (omega arith, omega arith, omega arith)

carried_by_cbor : Carries codec greeting text text arrived
unfolding program
carried_by_cbor =
    carried_by true refused greeting clock_ab text greeting_accepted refl IsSendable-ab
      IsText-greeting reads_text sizes.0 sizes.1

carried_by_json : Carries codec greeting text (line text) arrived
unfolding program
carried_by_json =
    carried_by true refused greeting clock_ab (line text) greeting_accepted refl IsSendable-ab
      IsText-greeting reads_line (omega arith) sizes.2

unmarshal-marshal_example :
    ((c' : Clock) × (marshal_cbor codec (some greeting) ≡ ok text)
      × (unmarshal_cbor codec text ≡ ok (arrived_as greeting c'))
      × (compare int64 (some c') (some clock_ab) ≡ equal_cmp))
    × ((c' : Clock) × (marshal_json codec (some greeting) ≡ ok (line text))
        × (unmarshal_json codec (line text) ≡ ok (arrived_as greeting c'))
        × (compare int64 (some c') (some clock_ab) ≡ equal_cmp))
unmarshal-marshal_example =
    unmarshal-marshal codec codec greeting clock_ab text text arrived arrived greeting_accepted refl
      IsSendable-ab carried_by_cbor carried_by_json

get-default_registry_trip_example :
    (s : Serializer) × (s' : Serializer) × Delivers s greeting clock_ab text
    × Delivers s' greeting clock_ab (line text)
    × ((name : Str)
        → Registry.get
            (default_registry (json_serializer codec) (some (cbor_serializer codec)))
            name
          ≡ (if str_eq cbor_name name
              then some s
              else if str_eq json_name name
              then some s'
              else none))
    × ((name : Str)
        → Registry.get (default_registry (json_serializer codec) none) name
          ≡ (if str_eq json_name name then some s' else none))
get-default_registry_trip_example =
    get-default_registry_trip codec codec greeting clock_ab text text arrived arrived
      greeting_accepted refl IsSendable-ab carried_by_cbor carried_by_json

got : (m : Message) × (unmarshal_cbor codec text ≡ ok m)
unfolding program json_codec
got = (_, refl)

unmarshal_safe_example :
    (validate (some got.0) ≡ none) × (1 ≤ length text) × (length text ≤ max_message_size)
unmarshal_safe_example = unmarshal_safe codec text (inl got.1)

validate_iff_example :
    (validate (some hello) ≡ none) ↔ ((m : Message) × (some hello ≡ some m) × IsMessage m)
validate_iff_example = validate_iff (some hello)

Distinct-data : Distinct (clock_data (some clock_ab))
unfolding program
Distinct-data = (refl, (refl, tt))

rebuild-new_example :
    rebuild (clock_data (some (new int64 (node_a ∷ node_b ∷ [])))) ≡ ok (new int64 [])
rebuild-new_example = rebuild-new (node_a ∷ node_b ∷ [])
