-- ===== src/Message/Validate.antt =====
-- `NewMessage`, `Validate`, `Size`, `WithMetadata` and `validateSenderID` of
-- `message/message.go`. An `error` result is an `Option`, `none` for nil.
use causalclock.Base.{
  ℕ, ◌+◌, ◌*◌, Str, Bool, Option, none, some, List, [], ◌∷◌, length, insert, ltb, ◌==◌, ◌||◌,
  if◌then◌else◌,
}
use causalclock.Base.Runes.{any_rune}
use causalclock.Base.Time.{Time}
use causalclock.Clock.Types.{Clock}
use causalclock.Counter.{int64}
use causalclock.Counters.Defs.{copy}
use causalclock.Counters.Listing.{nodes, len}
use causalclock.Message.Types.{
  Message, Error, Result, ok, err, current_version, max_sender_id_length, max_payload_size,
  err_nil_message, err_invalid_version, err_sender_id_empty, err_sender_id_too_long,
  err_sender_id_control, err_nil_clock, err_payload_too_large, err_metadata_too_large,
}

-- `r < 32 || r == 127`
abbrev pub is_control : ℕ → Bool
is_control r = ltb r 32 || (r == 127)

-- `validateSenderID`
unfoldable pub validate_sender_id : Str → Option Error
unfolding any_rune
validate_sender_id id =
    if length id == 0
    then some err_sender_id_empty
    else if ltb max_sender_id_length (length id)
    then some err_sender_id_too_long
    else if any_rune is_control id
    then some err_sender_id_control
    else none

-- The loop of `Validate` over the metadata.
unfoldable pub validate_metadata : List (Str × Str) → Option Error
validate_metadata [] = none
validate_metadata ((key, value) ∷ m) =
    if ltb 256 (length key) || ltb 1024 (length value)
    then some err_metadata_too_large
    else validate_metadata m

-- `Validate` past the test for a nil pointer.
unfoldable pub validate_message : Message → Option Error
unfolding validate_metadata
validate_message m =
    if (m.version == 0) || ltb current_version m.version
    then some (err_invalid_version m.version)
    else elim (validate_sender_id m.sender_id) [
      | some e ↦ some e
      | none ↦ elim m.clock [
        | none ↦ some err_nil_clock
        | some c ↦
            if ltb max_payload_size (length m.payload)
            then some err_payload_too_large
            else elim m.metadata [ none ↦ none | some pairs ↦ validate_metadata pairs ]
      ]
    ]

-- `Validate`
unfoldable pub validate : Option Message → Option Error
unfolding validate_message
validate none = some err_nil_message
validate (some m) = validate_message m

-- `NewMessage`; `now` is what `time.Now().UTC()` returns.
unfoldable pub new_message : Time → Str → Option Clock → List ℕ → Result Message
new_message now sender_id clk payload = elim (validate_sender_id sender_id) [
  | some e ↦ err e
  | none ↦ elim clk [
    | none ↦ err err_nil_clock
    | some c ↦
        if ltb max_payload_size (length payload)
        then err err_payload_too_large
        else ok (record {
          version = current_version;
          sender_id = sender_id;
          clock = some (copy int64 (some c));
          payload = payload;
          timestamp = now;
          metadata = none;
        })
  ]
]

-- The loop of `Size` over the nodes of the clock.
unfoldable pub size_nodes : ℕ → List Str → ℕ
size_nodes size [] = size
size_nodes size (node ∷ ns) = size_nodes (size + (length node + 8)) ns

-- The loop of `Size` over the metadata.
unfoldable pub size_metadata : ℕ → List (Str × Str) → ℕ
size_metadata size [] = size
size_metadata size ((key, value) ∷ m) = size_metadata (size + (length key + length value + 16)) m

-- `Size`, as an unbounded number.
unfoldable pub size : Message → ℕ
unfolding size_nodes size_metadata
size m =
    let fixed = 1 + length m.sender_id + length m.payload + 8 in
    let with_clock : ℕ = elim m.clock [
      | none ↦ fixed
      | some c ↦ size_nodes fixed (nodes (some c)) + 16 * len (some c)
    ] in
    elim m.metadata [ none ↦ with_clock | some pairs ↦ size_metadata with_clock pairs ]

-- `WithMetadata`
unfoldable pub with_metadata : Message → Str → Str → Message
with_metadata m key value = elim m.metadata [
  | none ↦ record m { metadata = some (insert key value []) }
  | some pairs ↦ record m { metadata = some (insert key value pairs) }
]
