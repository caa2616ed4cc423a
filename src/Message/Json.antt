-- ===== src/Message/Json.antt =====
-- The text that the encoder of `encoding/json` writes for the struct `messageJSON` of
-- `message/json_helpers.go`, and what the decoder makes of such a text. What the decoder makes of
-- a text in another form (spaces, fields in another order, an error) is a parameter.
use causalclock.Base.{
  ℕ, zero, ℤ, pos, negsuc, Str, Option, none, some, List, [], ◌∷◌, ◌++◌, Bool, ltb, if◌then◌else◌,
}
use causalclock.Base.Decimal.{print_ℤ}
use causalclock.Base.Base64
use causalclock.Base.Quote.{quoted, read_string}
use causalclock.Base.Json.{sort_entries, strip, map_onto, read_map, read_number, ◌>>=◌}
use causalclock.Message.Types.{Result, ok}
use causalclock.Message.Serializer.{Helper, Codec}
pub mod Fields
pub mod Trip
mod Ends
pub mod Texts
pub mod Lossy
pub mod Determinism

abbrev pub null : Str
null = b'n' ∷ b'u' ∷ b'l' ∷ b'l' ∷ []

-- What stands in front of the value of each field.
abbrev pub version_key : Str
version_key = b'{' ∷ b'"' ∷ b'v' ∷ b'e' ∷ b'r' ∷ b's' ∷ b'i' ∷ b'o' ∷ b'n' ∷ b'"' ∷ b':' ∷ []

abbrev pub sender_id_key : Str
sender_id_key =
    b',' ∷ b'"' ∷ b's' ∷ b'e' ∷ b'n' ∷ b'd' ∷ b'e' ∷ b'r' ∷ b'_' ∷ b'i' ∷ b'd' ∷ b'"' ∷ b':' ∷ []

abbrev pub clock_key : Str
clock_key = b',' ∷ b'"' ∷ b'c' ∷ b'l' ∷ b'o' ∷ b'c' ∷ b'k' ∷ b'"' ∷ b':' ∷ []

abbrev pub payload_key : Str
payload_key = b',' ∷ b'"' ∷ b'p' ∷ b'a' ∷ b'y' ∷ b'l' ∷ b'o' ∷ b'a' ∷ b'd' ∷ b'"' ∷ b':' ∷ []

abbrev pub timestamp_key : Str
timestamp_key =
    b',' ∷ b'"' ∷ b't' ∷ b'i' ∷ b'm' ∷ b'e' ∷ b's' ∷ b't' ∷ b'a' ∷ b'm' ∷ b'p' ∷ b'"' ∷ b':' ∷ []

abbrev pub metadata_key : Str
metadata_key =
    b',' ∷ b'"' ∷ b'm' ∷ b'e' ∷ b't' ∷ b'a' ∷ b'd' ∷ b'a' ∷ b't' ∷ b'a' ∷ b'"' ∷ b':' ∷ []

-- `map[string]int64`; a nil map is null.
unfoldable pub clock_onto : Option (List (Str × ℤ)) → Str → Str
unfolding map_onto sort_entries
clock_onto none tail = null ++ tail
clock_onto (some m) tail = map_onto print_ℤ (sort_entries m) tail

-- `[]byte`, in base64; a nil slice is null. The model has one empty payload, so that it is told
-- which of the two a slice of no bytes is.
unfoldable pub payload_onto : Bool → List ℕ → Str → Str
unfolding Base64.encode
payload_onto is_nil [] tail = if is_nil then null ++ tail else quoted [] ++ tail
payload_onto is_nil (b ∷ bs) tail = quoted (Base64.encode (b ∷ bs)) ++ tail

-- `int64` with `omitempty`: a zero is left out.
unfoldable pub timestamp_onto : ℤ → Str → Str
unfolding print_ℤ
timestamp_onto (pos zero) tail = tail
timestamp_onto t tail = timestamp_key ++ (print_ℤ t ++ tail)

-- `map[string]string` with `omitempty`: a nil and an empty map are left out.
unfoldable pub metadata_onto : Option (List (Str × Str)) → Str → Str
unfolding map_onto sort_entries
metadata_onto none tail = tail
metadata_onto (some []) tail = tail
metadata_onto (some (e ∷ m)) tail = metadata_key ++ map_onto quoted (sort_entries (e ∷ m)) tail

-- `json.Marshal(helper)`, in front of the text that follows.
unfoldable pub helper_onto : Bool → Helper → Str → Str
unfolding clock_onto payload_onto timestamp_onto metadata_onto
helper_onto nil_payload h tail =
    version_key
    ++ (print_ℤ (pos h.version)
        ++ (sender_id_key
            ++ (quoted h.sender_id
                ++ (clock_key
                    ++ clock_onto h.clock_data (
                        payload_key
                        ++ payload_onto nil_payload h.payload (
                            timestamp_onto h.timestamp
                              (metadata_onto h.metadata (b'}' ∷ tail))))))))

-- A uint8.
unfoldable pub read_version : Str → Option (ℕ × Str)
unfolding read_number
read_version s = do
  (v, rest) ← read_number s
  elim v [ negsuc n ↦ none | pos n ↦ if ltb n 256 then some (n, rest) else none ]

unfoldable pub read_clock : Str → Option (Option (List (Str × ℤ)) × Str)
unfolding read_map
read_clock s = elim (strip null s) [
  | some rest ↦ some (none, rest)
  | none ↦ do (m, rest) ← read_map read_number s; some (some m, rest)
]

unfoldable pub read_payload : Str → Option (List ℕ × Str)
unfolding Base64.decode
read_payload s = elim (strip null s) [
  | some rest ↦ some ([], rest)
  | none ↦ do (text, rest) ← read_string s; bytes ← Base64.decode text; some (bytes, rest)
]

unfoldable pub read_timestamp : Str → Option (ℤ × Str)
read_timestamp s = elim (strip timestamp_key s) [
  | none ↦ some (pos 0, s)
  | some rest ↦ read_number rest
]

unfoldable pub read_metadata : Str → Option (Option (List (Str × Str)) × Str)
read_metadata s = elim (strip metadata_key s) [
  | none ↦ some (none, s)
  | some s1 ↦ do (m, rest) ← read_map read_string s1; some (some m, rest)
]

-- `decoder.Decode(&helper)` of a text in the form that the encoder writes; a decoder leaves what
-- stands behind the value.
unfoldable pub read_helper : Str → Option Helper
unfolding read_version read_clock read_payload read_timestamp read_metadata
read_helper s = do
  s1 ← strip version_key s
  (version, s2) ← read_version s1
  s3 ← strip sender_id_key s2
  (sender_id, s4) ← read_string s3
  s5 ← strip clock_key s4
  (clock_data, s6) ← read_clock s5
  s7 ← strip payload_key s6
  (payload, s8) ← read_payload s7
  (timestamp, s9) ← read_timestamp s8
  (metadata, s10) ← read_metadata s9
  rest ← strip (b'}' ∷ []) s10
  some (record {
    version = version;
    sender_id = sender_id;
    clock_data = clock_data;
    payload = payload;
    timestamp = timestamp;
    metadata = metadata;
  })

-- `encoding/json` for the struct.
unfoldable pub json_codec : Bool → (List ℕ → Result Helper) → Codec
unfolding helper_onto read_helper
json_codec nil_payload elsewhere = record {
  encode = λ h. some (helper_onto nil_payload h []);
  decode = λ input. elim (read_helper input) [ none ↦ elsewhere input | some h ↦ ok h ];
}
