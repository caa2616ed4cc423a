-- ===== src/Message/RoundTrip.antt =====
-- What the serializers guarantee, for any encoding of the helper struct.
use causalclock.Base.Time.{Time, is_zero_time}
use causalclock.Base.{
  ap, ◌∙◌, refl, suc, zero, pos, negsuc, ltb_of_le, ◌⊎◌, ℕ, ◌≤◌, ℤ, Str, false, Option, none, some,
  List, length, lookup, Distinct, ltb, ◌==◌, ◌≡◌, arith, inl, inr,
}
use causalclock.Clock.Types.{Clock}
use causalclock.Counter.{int64}
use causalclock.Counters.Comparison.{equal_cmp}
use causalclock.Counters.Compare.{compare}
use causalclock.Message.Types.{Message, ok, max_message_size}
use causalclock.Message.Validate.{validate_message, validate}
use causalclock.Message.Clocks.{clock_data, rebuild}
use causalclock.Message.Carried.{IsSendable, rebuild-clock_data}
use causalclock.Message.Serializer.{
  validated, Codec, sent_time, arrived_time, helper_of, line, marshal_cbor, marshal_json,
  unmarshal_cbor, unmarshal_json,
}

validated_lem : (m : Message) → validate (some m) ≡ none → validated m ≡ ok m
validated_lem m h = rw (h, validated)

-- The time that is left of an instant at so many seconds from the epoch: the whole seconds after
-- it, or January 1 of year 1.
abbrev pub whole_seconds : ℤ → Time
whole_seconds (pos (suc n)) = record { sec = pos (suc n); nsec = 0 }
whole_seconds (pos zero) = record { sec = negsuc 62135596799; nsec = 0 }
whole_seconds (negsuc n) = record { sec = negsuc 62135596799; nsec = 0 }

-- The message that arrives: the clock is another one that compares equal, the time is cut, and all
-- else is as it was sent.
pub arrived_as : Message → Clock → Message
arrived_as m c = record m { clock = some c; timestamp = whole_seconds m.timestamp.sec }

arrived_time_of_seconds :
    (s : ℤ) (n : ℕ) → arrived_time (sent_time (record { sec = s; nsec = n })) ≡ whole_seconds s
unfolding is_zero_time
arrived_time_of_seconds (pos zero) n = refl
arrived_time_of_seconds (pos (suc k)) n = ground arith
arrived_time_of_seconds (negsuc k) n = ground arith

-- The message with the time as the code takes it through the struct.
coded_as : Message → Clock → Message
coded_as m c = record m { clock = some c; timestamp = arrived_time (sent_time m.timestamp) }

coded_as-arrived_as : (m : Message) (c : Clock) → coded_as m c ≡ arrived_as m c
unfolding coded_as arrived_as
coded_as-arrived_as m c =
    ap (λ t. record m { clock = some c; timestamp = t })
      (arrived_time_of_seconds m.timestamp.sec m.timestamp.nsec)

module _ (codec : Codec) where
  -- What either `marshal` returns is within the limit, and comes from a valid message.
  pub marshal_safe :
      (p : Option Message) {out : List ℕ}
      → (marshal_cbor codec p ≡ ok out) ⊎ (marshal_json codec p ≡ ok out)
      → (validate p ≡ none) × (length out ≤ max_message_size)
  unfolding marshal_cbor marshal_json
  marshal_safe none (inl h) = cc
  marshal_safe none (inr h) = cc
  marshal_safe (some m) (inl h) = ground arith
  marshal_safe (some m) (inr h) = ground arith

  -- Whatever bytes arrive, a message that either `unmarshal` returns is valid, and the bytes were
  -- at least one and within the limit.
  pub unmarshal_safe :
      (input : List ℕ) {m : Message}
      → (unmarshal_cbor codec input ≡ ok m) ⊎ (unmarshal_json codec input ≡ ok m)
      → (validate (some m) ≡ none) × (1 ≤ length input) × (length input ≤ max_message_size)
  unfolding unmarshal_cbor unmarshal_json
  unmarshal_safe input (inl h) = ground arith
  unmarshal_safe input (inr h) = ground arith

  -- The encoder accepts the struct of the message, and the decoder gives the struct back from what
  -- is sent of the output, with the entries of the clock's map in some order.
  pub record Carries (m : Message) (out sent : List ℕ) (arrived : List (Str × ℤ)) : Type 0 where
    pub encoded : codec.encode (helper_of m) ≡ some out
    pub decoded : codec.decode sent ≡ ok (record (helper_of m) { clock_data = some arrived })
    pub distinct : Distinct arrived
    pub same : (k : Str) → lookup k arrived ≡ lookup k (clock_data m.clock)
    pub nonempty : 1 ≤ length sent
    pub small : length sent ≤ max_message_size

  valid_arrival :
      (m : Message) (c : Clock) → validate (some m) ≡ none → validate (some (coded_as m c)) ≡ none
  unfolding validate validate_message coded_as
  valid_arrival m c h = ground arith

  arrival :
      (m : Message) (c' : Clock) (out sent : List ℕ) (arrived : List (Str × ℤ))
      → validate (some m) ≡ none
      → Carries m out sent arrived
      → rebuild arrived ≡ ok c'
      → (unmarshal_cbor codec sent ≡ ok (arrived_as m c'))
        × (unmarshal_json codec sent ≡ ok (arrived_as m c'))
  unfolding unmarshal_cbor unmarshal_json helper_of coded_as
  arrival m c' out sent arrived v k done =
      let valid = valid_arrival m c' v in
      let same = ap ok (coded_as-arrived_as m c') in
      let fits : ltb max_message_size (length sent) ≡ false = ltb_of_le _ _ k.small in
      let there : (length sent == 0) ≡ false = ground (arith, k.nonempty) in
      (
        rw (there, fits, k.decoded, done) (validated_lem (coded_as m c') valid) ∙ same,
        rw (there, fits, k.decoded, done) (validated_lem (coded_as m c') valid) ∙ same,
      )

  cbor_trip :
      (m : Message) (c : Clock) (out : List ℕ) (arrived : List (Str × ℤ))
      → validate (some m) ≡ none
      → m.clock ≡ some c
      → IsSendable c
      → Carries m out out arrived
      → (c' : Clock) × (marshal_cbor codec (some m) ≡ ok out)
        × (unmarshal_cbor codec out ≡ ok (arrived_as m c'))
        × (compare int64 (some c') (some c) ≡ equal_cmp)
  unfolding marshal_cbor
  cbor_trip m c out arrived v e h k =
      let (c', done, valid, reads, equal) =
        rebuild-clock_data c arrived h k.distinct (rw e at k.same) in
      (c', ground (arith, k.encoded, k.small), (arrival m c' out out arrived v k done).0, equal)

  pub json_trip :
      (m : Message) (c : Clock) (out : List ℕ) (arrived : List (Str × ℤ))
      → validate (some m) ≡ none
      → m.clock ≡ some c
      → IsSendable c
      → Carries m out (line out) arrived
      → (c' : Clock) × (marshal_json codec (some m) ≡ ok (line out))
        × (unmarshal_json codec (line out) ≡ ok (arrived_as m c'))
        × (compare int64 (some c') (some c) ≡ equal_cmp)
  unfolding marshal_json
  json_trip m c out arrived v e h k =
      let (c', done, valid, reads, equal) =
        rebuild-clock_data c arrived h k.distinct (rw e at k.same) in
      (
        c',
        ground (arith, k.encoded, k.small),
        (arrival m c' out (line out) arrived v k done).1,
        equal,
      )

-- A valid message with a sendable clock is marshalled, and `unmarshal` of the same serializer
-- returns it with a clock that compares equal and all else as it was sent but for the time, where
-- the encoding of CBOR carries the struct as it is, and that of JSON with a line feed behind it. A
-- time of one second or more after the epoch loses what is below a second, and any other time
-- becomes January 1 of year 1.
pub unmarshal-marshal :
    (cbor json : Codec) (m : Message) (c : Clock) (out text : List ℕ)
    (arrived arrived' : List (Str × ℤ))
    → validate (some m) ≡ none
    → m.clock ≡ some c
    → IsSendable c
    → Carries cbor m out out arrived
    → Carries json m text (line text) arrived'
    → ((c' : Clock) × (marshal_cbor cbor (some m) ≡ ok out)
        × (unmarshal_cbor cbor out ≡ ok (arrived_as m c'))
        × (compare int64 (some c') (some c) ≡ equal_cmp))
      × ((c' : Clock) × (marshal_json json (some m) ≡ ok (line text))
          × (unmarshal_json json (line text) ≡ ok (arrived_as m c'))
          × (compare int64 (some c') (some c) ≡ equal_cmp))
unmarshal-marshal cbor json m c out text arrived arrived' v e h k k' =
    (cbor_trip cbor m c out arrived v e h k, json_trip json m c text arrived' v e h k')
