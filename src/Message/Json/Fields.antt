-- ===== src/Message/Json/Fields.antt =====
-- The fields of the struct on their way through the text.
use causalclock.Base.{
  ℕ, zero, suc, ◌<◌, ℤ, pos, negsuc, is_int64, Str, Option, none, some, List, [], ◌∷◌, ◌++◌, Bool,
  true, false, All, Distinct, lt→ltb, ◌≡◌, refl, arith,
}
use causalclock.Base.Decimal.{print_ℤ}
use causalclock.Base.Base64
use causalclock.Base.Bytes.{IsByte}
use causalclock.Base.Scan.{Stops}
use causalclock.Base.Quote.{quoted, read_string, valid_from}
use causalclock.Base.Quote.Laws.{read_string-quoted, valid_from_ascii}
use causalclock.Base.Json.{sort_entries, strip, map_onto, read_number}
use causalclock.Base.Json.Laws.{strip-append, read_number-print_ℤ, IsReadable, read_map-map_onto}
use causalclock.Base.Json.Sorting.{
  sort_entries-Distinct, sort_entries-All, IsRising, IsRising-Distinct, sort_entries_rising,
}
use causalclock.Message.Json.{
  null, timestamp_key, metadata_key, clock_onto, payload_onto, timestamp_onto, metadata_onto,
  read_version, read_clock, read_payload, read_timestamp, read_metadata,
}

small_int64 : (n : ℕ) → n < 256 → is_int64 (pos n) ≡ true
small_int64 n h = ground arith

pub read_version-print_ℤ :
    (n : ℕ) (tail : Str)
    → n < 256
    → Stops tail
    → read_version (print_ℤ (pos n) ++ tail) ≡ some (n, tail)
unfolding read_version
read_version-print_ℤ n tail h stop =
    rw (read_version, read_number-print_ℤ (pos n) tail (small_int64 n h) stop, lt→ltb n 256 h) refl

-- No text that starts with a quote or a brace is null.
strip-null-quoted : (s tail : Str) → strip null (quoted s ++ tail) ≡ none
unfolding strip quoted
strip-null-quoted s tail = refl

read_payload-quoted :
    (bs : List ℕ) (tail : Str)
    → All IsByte bs
    → read_payload (quoted (Base64.encode bs) ++ tail) ≡ some (bs, tail)
unfolding read_payload
read_payload-quoted bs tail a = ground (
  arith,
  strip-null-quoted (Base64.encode bs) tail,
  read_string-quoted (Base64.encode bs) tail
      (valid_from_ascii (Base64.encode bs) (Base64.encode_ascii bs)),
  Base64.decode-encode bs a,
)

strip-null-map_onto :
    {V : Type 0} (print_value : V → Str) (m : List (Str × V)) (tail : Str)
    → strip null (map_onto print_value m tail) ≡ none
unfolding strip map_onto
strip-null-map_onto print_value [] tail = refl
strip-null-map_onto print_value (e ∷ m) tail = refl

pub read_payload-payload_onto :
    (is_nil : Bool) (bs : List ℕ) (tail : Str)
    → All IsByte bs
    → read_payload (payload_onto is_nil bs tail) ≡ some (bs, tail)
unfolding read_payload payload_onto
read_payload-payload_onto true [] tail a = ground (arith, strip-append null tail)
read_payload-payload_onto false [] tail a = read_payload-quoted [] tail a
read_payload-payload_onto is_nil (b ∷ bs) tail a = read_payload-quoted (b ∷ bs) tail a

pub read_clock-clock_onto :
    (m : List (Str × ℤ)) (tail : Str)
    → Distinct m
    → All (IsReadable print_ℤ read_number) m
    → read_clock (clock_onto (some m) tail) ≡ some (some (sort_entries m), tail)
unfolding read_clock clock_onto
read_clock-clock_onto m tail d a = ground (
  arith,
  strip-null-map_onto print_ℤ (sort_entries m) tail,
  read_map-map_onto print_ℤ read_number (sort_entries m) tail (sort_entries-Distinct m d).0
      (sort_entries-All (IsReadable print_ℤ read_number) m a),
)

-- A text that starts with a comma or a closing brace, but with none of the keys of a map.
pub read_timestamp-timestamp_onto :
    (t : ℤ) (tail : Str)
    → is_int64 t ≡ true
    → Stops tail
    → strip timestamp_key tail ≡ none
    → read_timestamp (timestamp_onto t tail) ≡ some (t, tail)
unfolding read_timestamp timestamp_onto
read_timestamp-timestamp_onto (pos zero) tail r stop h = rw (read_timestamp, timestamp_onto, h) refl
read_timestamp-timestamp_onto (pos (suc n)) tail r stop h = ground (
  arith,
  strip-append timestamp_key (print_ℤ (pos (suc n)) ++ tail),
  read_number-print_ℤ (pos (suc n)) tail r stop,
)
read_timestamp-timestamp_onto (negsuc n) tail r stop h = ground (
  arith,
  strip-append timestamp_key (print_ℤ (negsuc n) ++ tail),
  read_number-print_ℤ (negsuc n) tail r stop,
)

-- Texts that are well-formed.
abbrev pub AllTexts : List (Str × Str) → Type 0
AllTexts m = All (λ e. (valid_from 0 e.0 ≡ true) × (valid_from 0 e.1 ≡ true)) m

texts-IsReadable : (m : List (Str × Str)) → AllTexts m → All (IsReadable quoted read_string) m
texts-IsReadable [] a = tt
texts-IsReadable ((k, v) ∷ m) a = (
  record { text = a.0.0; reads = λ tail stop. read_string-quoted v tail a.0.1 },
  texts-IsReadable m a.1,
)

-- Metadata that comes back as it is: none, or entries in the order of their keys.
abbrev pub IsMetadata : Option (List (Str × Str)) → Type 0
IsMetadata none = Unit
IsMetadata (some []) = ⊥
IsMetadata (some (e ∷ m)) = IsRising (e ∷ m) × AllTexts (e ∷ m)

pub read_metadata-metadata_onto :
    (m : Option (List (Str × Str))) (tail : Str)
    → IsMetadata m
    → strip metadata_key tail ≡ none
    → read_metadata (metadata_onto m tail) ≡ some (m, tail)
unfolding read_metadata metadata_onto
read_metadata-metadata_onto none tail h k = rw (read_metadata, metadata_onto, k) refl
read_metadata-metadata_onto (some []) tail h k = absurd h
read_metadata-metadata_onto (some (e ∷ m)) tail h k = ground (
  arith,
  strip-append metadata_key (map_onto quoted (e ∷ m) tail),
  sort_entries_rising (e ∷ m) h.0,
  read_map-map_onto quoted read_string (e ∷ m) tail (IsRising-Distinct (e ∷ m) h.0)
      (texts-IsReadable (e ∷ m) h.1),
)
