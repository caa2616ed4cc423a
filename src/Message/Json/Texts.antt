-- ===== src/Message/Json/Texts.antt =====
-- Messages on their way through the JSON serializer.
use causalclock.Base.{
  ℕ, ◌≤◌, ◌<◌, ℤ, pos, negsuc, is_int64, Str, none, some, List, [], ◌∷◌, Bool, true, All, length,
  length-append, ◌≡◌, refl, lt→ltb, arith,
}
use causalclock.Base.Bytes.{IsByte}
use causalclock.Base.Decimal.{print_ℤ}
use causalclock.Base.Quote.{valid_from}
use causalclock.Base.Json.{sort_entries, read_number}
use causalclock.Base.Json.Laws.{IsReadable, read_number-print_ℤ}
use causalclock.Base.Json.Sorting.{sort_entries-Distinct}
use causalclock.Clock.Types.{Clock}
use causalclock.Counter.{int64}
use causalclock.Counters.Comparison.{equal_cmp}
use causalclock.Counters.Compare.{compare}
use causalclock.Message.Types.{Message, Result, ok, max_message_size}
use causalclock.Message.Validate.{validate}
use causalclock.Message.Sender.{validate_iff}
use causalclock.Message.Clocks.{clock_data}
use causalclock.Message.Rebuild.{AllCounts}
use causalclock.Message.Carried.{IsSendable, clock_data-AllCounts}
use causalclock.Message.Serializer.{Helper, helper_of, line, marshal_json, unmarshal_json}
use causalclock.Message.RoundTrip.{Carries, arrived_as, json_trip}
use causalclock.Message.Json.{helper_onto, json_codec, read_helper}
use causalclock.Message.Json.Fields.{IsMetadata}
use causalclock.Message.Json.Trip.{IsWritable, read_helper-helper_onto}
use causalclock.Message.Json.Ends.{helper_onto-append}

-- A message that JSON can carry: the names and the metadata are UTF-8, the payload is bytes, the
-- seconds are an int64, and the metadata stands in the order of its keys, if there is any.
pub record IsText (m : Message) : Type 0 where
  pub sender : valid_from 0 m.sender_id ≡ true
  pub nodes : All (λ e. valid_from 0 e.0 ≡ true) (clock_data m.clock)
  pub payload : All IsByte m.payload
  pub seconds : is_int64 m.timestamp.sec ≡ true
  pub metadata : IsMetadata m.metadata

-- What `MarshalJSON` writes.
abbrev pub text_of : Bool → Message → Str
text_of nil_payload m = helper_onto nil_payload (helper_of m) []

counters-IsReadable :
    (m : List (Str × ℤ))
    → All (λ e. valid_from 0 e.0 ≡ true) m
    → AllCounts m
    → All (IsReadable print_ℤ read_number) m
counters-IsReadable [] t a = tt
counters-IsReadable ((k, pos n) ∷ m) t a = (
  record {
    text = t.0;
    reads = λ tail stop. read_number-print_ℤ (pos n) tail (lt→ltb n _ a.0) stop;
  },
  counters-IsReadable m t.1 a.1,
)
counters-IsReadable ((k, negsuc n) ∷ m) t a = absurd a.0

small_version : (m : Message) → validate (some m) ≡ none → m.version < 256
small_version m v =
    let (m', same, valid) = (validate_iff (some m)).0 v in
    let q : m ≡ m' = cc in rw q (omega (arith, valid.version_current))

writable :
    (m : Message) (c : Clock)
    → validate (some m) ≡ none
    → m.clock ≡ some c
    → IsSendable c
    → IsText m
    → IsWritable (helper_of m) (clock_data m.clock)
unfolding helper_of
writable m c v e h t =
    let (d, a) = clock_data-AllCounts c h in
    record {
      version = small_version m v;
      sender_id = t.sender;
      clock_data = refl;
      distinct = rw e d;
      counters = counters-IsReadable (clock_data m.clock) t.nodes (rw e a);
      payload = t.payload;
      timestamp = ground (arith, t.seconds);
      metadata = t.metadata;
    }

decode_of_read_helper :
    (nil_payload : Bool) (elsewhere : List ℕ → Result Helper) (input : List ℕ) {h : Helper}
    → read_helper input ≡ some h
    → (json_codec nil_payload elsewhere).decode input ≡ ok h
unfolding json_codec
decode_of_read_helper nil_payload elsewhere input e = ground (arith, e)

pub encode_text :
    (nil_payload : Bool) (elsewhere : List ℕ → Result Helper) (m : Message)
    → (json_codec nil_payload elsewhere).encode (helper_of m) ≡ some (text_of nil_payload m)
unfolding json_codec
encode_text nil_payload elsewhere m = refl

line_read :
    (nil_payload : Bool) (m : Message) (clock : List (Str × ℤ))
    → IsWritable (helper_of m) clock
    → read_helper (line (text_of nil_payload m))
      ≡ some (record (helper_of m) { clock_data = some (sort_entries clock) })
line_read nil_payload m clock w =
    rw (helper_onto-append nil_payload (helper_of m) [] (b'\n' ∷ []))
      (read_helper-helper_onto nil_payload (helper_of m) clock (b'\n' ∷ []) w)

-- The encoding of a message as JSON, read from a text that holds it.
pub carried_by :
    (nil_payload : Bool) (elsewhere : List ℕ → Result Helper) (m : Message) (c : Clock)
    (sent : List ℕ)
    → validate (some m) ≡ none
    → m.clock ≡ some c
    → IsSendable c
    → IsText m
    → read_helper sent
      ≡ some (record (helper_of m) { clock_data = some (sort_entries (clock_data m.clock)) })
    → 1 ≤ length sent
    → length sent ≤ max_message_size
    → Carries
        (json_codec nil_payload elsewhere)
        m
        (text_of nil_payload m)
        sent
        (sort_entries (clock_data m.clock))
carried_by nil_payload elsewhere m c sent v e h t read full small =
    let kept = sort_entries-Distinct (clock_data m.clock) (writable m c v e h t).distinct in
    record {
      encoded = encode_text nil_payload elsewhere m;
      decoded = decode_of_read_helper nil_payload elsewhere sent read;
      distinct = kept.0;
      same = kept.1;
      nonempty = full;
      small = small;
    }

carried :
    (nil_payload : Bool) (elsewhere : List ℕ → Result Helper) (m : Message) (c : Clock)
    → validate (some m) ≡ none
    → m.clock ≡ some c
    → IsSendable c
    → IsText m
    → length (line (text_of nil_payload m)) ≤ max_message_size
    → Carries
        (json_codec nil_payload elsewhere)
        m
        (text_of nil_payload m)
        (line (text_of nil_payload m))
        (sort_entries (clock_data m.clock))
carried nil_payload elsewhere m c v e h t small =
    carried_by nil_payload elsewhere m c (line (text_of nil_payload m)) v e h t
      (line_read nil_payload m (clock_data m.clock) (writable m c v e h t))
      (omega (arith, length-append (text_of nil_payload m) (b'\n' ∷ []))) small

-- A valid message with a sendable clock, whose names and metadata are UTF-8, whose payload is bytes,
-- whose seconds are an int64, whose metadata stands in the order of its keys, if there is any, and
-- whose JSON is within the limit with its line feed, is marshalled to that JSON, and `unmarshal`
-- returns it with a clock that compares equal and all else as it was sent but for the time,
-- whatever the decoder makes of texts in another form. A time of one second or more after the epoch
-- loses what is below a second, and any other time becomes January 1 of year 1.
pub unmarshal_json-marshal_json :
    (nil_payload : Bool) (elsewhere : List ℕ → Result Helper) (m : Message) (c : Clock)
    → validate (some m) ≡ none
    → m.clock ≡ some c
    → IsSendable c
    → IsText m
    → length (line (text_of nil_payload m)) ≤ max_message_size
    → (c' : Clock) × (marshal_json (json_codec nil_payload elsewhere) (some m)
        ≡ ok (line (text_of nil_payload m)))
      × (unmarshal_json (json_codec nil_payload elsewhere) (line (text_of nil_payload m))
          ≡ ok (arrived_as m c'))
      × (compare int64 (some c') (some c) ≡ equal_cmp)
unmarshal_json-marshal_json nil_payload elsewhere m c v e h t small =
    json_trip (json_codec nil_payload elsewhere) m c (text_of nil_payload m)
      (sort_entries (clock_data m.clock)) v e h (carried nil_payload elsewhere m c v e h t small)
