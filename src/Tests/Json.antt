-- ===== src/Tests/Json.antt =====
-- Messages in JSON.
use causalclock.Base.{
  str_eq_iff, false, Str, Distinct, true, ℕ, ◌≤◌, pos, none, some, List, [], ◌∷◌, length, lookup,
  insert, ◌≡◌, refl, arith, value_at, str_eq, str_ltb,
}
use causalclock.Base.Time.{unix_time, is_zero_time}
use causalclock.Base.Runes.{decode_rune, any_rune}
use causalclock.Base.Quote.{valid_from, quoted}
use causalclock.Clock.Types.{Clock}
use causalclock.Counter.{int64}
use causalclock.Counters.Comparison.{equal_cmp}
use causalclock.Counters.Compare.{compare}
use causalclock.Counters.Defs.{new, set, get}
use causalclock.Counters.Listing.{nodes}
use causalclock.Message.Sender.{IsMessage}
use causalclock.Message.Types.{Message, Result, ok, err, err_decode, max_message_size}
use causalclock.Message.Validate.{validate, validate_sender_id}
use causalclock.Message.Clocks.{clock_data}
use causalclock.Message.Carried.{IsSendable}
use causalclock.Message.Serializer.{Helper, helper_of, line, marshal_json, unmarshal_json}
use causalclock.Message.RoundTrip.{arrived_as}
use causalclock.Message.Json.{helper_onto, read_helper, json_codec}
use causalclock.Message.Json.Texts.{IsText, text_of, unmarshal_json-marshal_json}
use causalclock.Message.Json.Lossy.{marshal_json-rune_error}
use causalclock.Message.Json.Determinism.{marshal_json_deterministic}
use causalclock.Counters.Determinism.Views.{Same}
use causalclock.Tests.Data.{node_a, node_b, clock_ab, clock_ba, IsValid-ab, IsValid-ba}

program : Unit {0}
unfolding new set get compare lookup insert value_at nodes str_eq str_ltb validate clock_data
    validate_sender_id helper_of any_rune is_zero_time valid_from helper_onto read_helper
program = tt

-- A message with a quote, a bracket, a letter past ASCII and a line separator in its sender's name.
abbrev pub greeting : Message
greeting = record {
  version = 1;
  sender_id = b'a' ∷ b'"' ∷ b'<' ∷ 0xc3 ∷ 0xa9 ∷ 0xe2 ∷ 0x80 ∷ 0xa8 ∷ [];
  clock = some clock_ab;
  payload = b'h' ∷ b'i' ∷ [];
  timestamp = unix_time (pos 7);
  metadata = some ((b'k' ∷ [], b'\n' ∷ []) ∷ []);
}

abbrev text : List ℕ
text =
    b'{' ∷ b'"' ∷ b'v' ∷ b'e' ∷ b'r' ∷ b's' ∷ b'i' ∷ b'o' ∷ b'n' ∷ b'"' ∷ b':' ∷ b'1' ∷ b',' ∷ b'"'
    ∷ b's' ∷ b'e' ∷ b'n' ∷ b'd' ∷ b'e' ∷ b'r' ∷ b'_' ∷ b'i' ∷ b'd' ∷ b'"' ∷ b':' ∷ b'"' ∷ b'a'
    ∷ b'\\' ∷ b'"' ∷ b'\\' ∷ b'u' ∷ b'0' ∷ b'0' ∷ b'3' ∷ b'c' ∷ 0xc3 ∷ 0xa9 ∷ b'\\' ∷ b'u' ∷ b'2'
    ∷ b'0' ∷ b'2' ∷ b'8' ∷ b'"' ∷ b',' ∷ b'"' ∷ b'c' ∷ b'l' ∷ b'o' ∷ b'c' ∷ b'k' ∷ b'"' ∷ b':'
    ∷ b'{' ∷ b'"' ∷ b'a' ∷ b'"' ∷ b':' ∷ b'2' ∷ b',' ∷ b'"' ∷ b'b' ∷ b'"' ∷ b':' ∷ b'1' ∷ b'}'
    ∷ b',' ∷ b'"' ∷ b'p' ∷ b'a' ∷ b'y' ∷ b'l' ∷ b'o' ∷ b'a' ∷ b'd' ∷ b'"' ∷ b':' ∷ b'"' ∷ b'a'
    ∷ b'G' ∷ b'k' ∷ b'=' ∷ b'"' ∷ b',' ∷ b'"' ∷ b't' ∷ b'i' ∷ b'm' ∷ b'e' ∷ b's' ∷ b't' ∷ b'a'
    ∷ b'm' ∷ b'p' ∷ b'"' ∷ b':' ∷ b'7' ∷ b',' ∷ b'"' ∷ b'm' ∷ b'e' ∷ b't' ∷ b'a' ∷ b'd' ∷ b'a'
    ∷ b't' ∷ b'a' ∷ b'"' ∷ b':' ∷ b'{' ∷ b'"' ∷ b'k' ∷ b'"' ∷ b':' ∷ b'"' ∷ b'\\' ∷ b'n' ∷ b'"'
    ∷ b'}' ∷ b'}' ∷ []

text_of-greeting : text_of true greeting ≡ text
unfolding program quoted
text_of-greeting = refl

text_read_back : read_helper text ≡ some (helper_of greeting)
unfolding program
text_read_back = refl

pub greeting_accepted : validate (some greeting) ≡ none
unfolding program
greeting_accepted = refl

pub IsSendable-ab : IsSendable clock_ab
unfolding program
IsSendable-ab = record { valid = IsValid-ab; ranged = λ k. ground arith }

pub IsText-greeting : IsText greeting
unfolding program
IsText-greeting = record {
  sender = refl;
  nodes = (refl, (refl, tt));
  payload = (omega arith, (omega arith, tt));
  seconds = refl;
  metadata = ((tt, tt), ((refl, refl), tt));
}

-- What the decoder makes of other texts.
abbrev pub refused : List ℕ → Result Helper
refused input = err (err_decode 0)

small_text : length (line (text_of true greeting)) ≤ max_message_size
unfolding program quoted
small_text = omega arith

unmarshal_json-marshal_json_example :
    (c' : Clock) × (marshal_json (json_codec true refused) (some greeting)
      ≡ ok (line (text_of true greeting)))
    × (unmarshal_json (json_codec true refused) (line (text_of true greeting))
        ≡ ok (arrived_as greeting c'))
    × (compare int64 (some c') (some clock_ab) ≡ equal_cmp)
unmarshal_json-marshal_json_example =
    unmarshal_json-marshal_json true refused greeting clock_ab greeting_accepted refl IsSendable-ab
      IsText-greeting small_text

no_rune :
    (decode_rune 0xff (b'a' ∷ []) ≡ (0xfffd, 1)) × (decode_rune 0xfe (b'a' ∷ []) ≡ (0xfffd, 1))
unfolding decode_rune
no_rune = (refl, refl)

abbrev misnamed : ℕ → Message
misnamed b = record greeting { sender_id = b ∷ b'a' ∷ [] }

IsMessage-misnamed : IsMessage (misnamed 0xff)
IsMessage-misnamed = record {
  version_current = refl;
  sender = record {
    nonempty = omega arith;
    short = omega arith;
    printable = ((omega arith, λ e. omega arith), ((omega arith, λ e. omega arith), tt));
  };
  has_clock = (clock_ab, refl);
  payload_small = omega arith;
  pairs = ((omega arith, omega arith), tt);
}

small_misnamed : length (line (text_of true (misnamed 0xff))) ≤ max_message_size
unfolding program quoted
small_misnamed = omega arith

marshal_json-rune_error_example :
    (out : List ℕ) × (validate (some (misnamed 0xff)) ≡ none)
    × (validate (some (misnamed 0xfe)) ≡ none)
    × (marshal_json (json_codec true refused) (some (misnamed 0xff)) ≡ ok out)
    × (marshal_json (json_codec true refused) (some (misnamed 0xfe)) ≡ ok out)
marshal_json-rune_error_example =
    marshal_json-rune_error true refused greeting 0xff 0xfe (b'a' ∷ []) no_rune.0 no_rune.1
      IsMessage-misnamed small_misnamed

a_is_not_b : str_eq node_a node_b ≡ false
unfolding program
a_is_not_b = refl

other_order : Same (some clock_ab) (some clock_ba)
unfolding program
other_order k = ground (arith, str_eq_iff node_a k, str_eq_iff node_b k, a_is_not_b)

-- The same two pairs in two orders.
abbrev pairs_ab : List (Str × Str)
pairs_ab = (node_a, b'x' ∷ []) ∷ (node_b, b'y' ∷ []) ∷ []

abbrev pairs_ba : List (Str × Str)
pairs_ba = (node_b, b'y' ∷ []) ∷ (node_a, b'x' ∷ []) ∷ []

pairs-Distinct : Distinct pairs_ab × Distinct pairs_ba
unfolding program
pairs-Distinct = ((refl, (refl, tt)), (refl, (refl, tt)))

pairs_same : (k : Str) → lookup k pairs_ab ≡ lookup k pairs_ba
unfolding program
pairs_same k = ground (arith, str_eq_iff node_a k, str_eq_iff node_b k, a_is_not_b)

marshal_json_deterministic_example :
    marshal_json
      (json_codec true refused)
      (some (record greeting { clock = some clock_ab; metadata = some pairs_ab }))
    ≡ marshal_json
        (json_codec true refused)
        (some (record greeting { clock = some clock_ba; metadata = some pairs_ba }))
marshal_json_deterministic_example =
    marshal_json_deterministic true refused greeting clock_ab clock_ba pairs_ab pairs_ba
      IsValid-ab.distinct IsValid-ba.distinct other_order pairs-Distinct.0 pairs-Distinct.1
      pairs_same
