-- ===== src/Message/Json/Trip.antt =====
-- The struct on its way through the text of the encoder.
use causalclock.Base.{
  ◌<◌, ℤ, is_int64, Str, Option, none, some, List, [], ◌∷◌, ◌++◌, Bool, true, All, Distinct, ◌≡◌,
  refl,
}
use causalclock.Base.Decimal.{print_ℤ}
use causalclock.Base.Bytes.{IsByte}
use causalclock.Base.Scan.{Stops}
use causalclock.Base.Quote.{quoted, valid_from}
use causalclock.Base.Quote.Laws.{read_string-quoted}
use causalclock.Base.Json.{sort_entries, strip, read_number}
use causalclock.Base.Json.Laws.{IsReadable}
use causalclock.Message.Serializer.{Helper}
use causalclock.Message.Json.{
  sender_id_key, clock_key, payload_key, timestamp_key, clock_onto, payload_onto, timestamp_onto,
  metadata_onto, helper_onto, read_helper,
}
use causalclock.Message.Json.Fields.{
  read_version-print_ℤ, read_clock-clock_onto, read_payload-payload_onto,
  read_timestamp-timestamp_onto, read_metadata-metadata_onto, IsMetadata,
}

-- The text behind the fields that may be left out.
Stops-metadata_onto :
    (m : Option (List (Str × Str))) (tail : Str) → Stops tail → Stops (metadata_onto m tail)
unfolding metadata_onto
Stops-metadata_onto none tail h = h
Stops-metadata_onto (some []) tail h = h
Stops-metadata_onto (some (e ∷ m)) tail h = refl

strip_timestamp :
    (m : Option (List (Str × Str))) (tail : Str)
    → strip timestamp_key (metadata_onto m (b'}' ∷ tail)) ≡ none
unfolding metadata_onto strip
strip_timestamp none tail = refl
strip_timestamp (some []) tail = refl
strip_timestamp (some (e ∷ m)) tail = refl

-- What a struct must hold to be read back: numbers in their ranges, bytes, and well-formed text.
pub record IsWritable (h : Helper) (clock : List (Str × ℤ)) : Type 0 where
  pub version : h.version < 256
  pub sender_id : valid_from 0 h.sender_id ≡ true
  pub clock_data : h.clock_data ≡ some clock
  pub distinct : Distinct clock
  pub counters : All (IsReadable print_ℤ read_number) clock
  pub payload : All IsByte h.payload
  pub timestamp : is_int64 h.timestamp ≡ true
  pub metadata : IsMetadata h.metadata

pub read_helper-helper_onto :
    (nil_payload : Bool) (h : Helper) (clock : List (Str × ℤ)) (tail : Str)
    → IsWritable h clock
    → read_helper (helper_onto nil_payload h tail)
      ≡ some (record h { clock_data = some (sort_entries clock) })
unfolding read_helper helper_onto
read_helper-helper_onto nil_payload h clock tail w =
    let t6 = metadata_onto h.metadata (b'}' ∷ tail) in
    let t5 = timestamp_onto h.timestamp t6 in
    let t4 = payload_key ++ payload_onto nil_payload h.payload t5 in
    let t3 = clock_key ++ clock_onto (some clock) t4 in
    let t2 = sender_id_key ++ (quoted h.sender_id ++ t3) in
    rw
      (
        w.clock_data,
        read_version-print_ℤ h.version t2 w.version refl,
        read_string-quoted h.sender_id t3 w.sender_id,
        read_clock-clock_onto clock t4 w.distinct w.counters,
        read_payload-payload_onto nil_payload h.payload t5 w.payload,
        read_timestamp-timestamp_onto h.timestamp t6 w.timestamp
            (Stops-metadata_onto h.metadata (b'}' ∷ tail) refl) (strip_timestamp h.metadata tail),
        read_metadata-metadata_onto h.metadata (b'}' ∷ tail) w.metadata refl,
      )
      refl
