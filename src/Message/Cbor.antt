-- ===== src/Message/Cbor.antt =====
-- `NewCBORSerializer` of `message/cbor.go`. The CBOR package is a parameter: what its options make
-- of the struct and of bytes.
use causalclock.Base.{ℕ, ℤ, Str, ◌<◌, Option, none, some, List, length, ◌≡◌}
use causalclock.Message.Types.{Result, ok, err, Error, err_encoder_config, err_decoder_config}
use causalclock.Message.Serializer.{Helper, Codec}
pub mod Pairs

-- The options of the package that are set, with their defaults.
pub data SortMode : Type 0 where
  sort_none sort_bytewise_lexical : SortMode

pub data TimeMode : Type 0 where
  time_unix time_rfc3339 : TimeMode

pub data DupMapKeyMode : Type 0 where
  dup_map_key_quiet dup_map_key_enforced_apf : DupMapKeyMode

pub record EncOptions : Type 0 where
  pub sort : SortMode
  pub time : TimeMode

pub record DecOptions : Type 0 where
  pub max_map_pairs : ℕ
  pub max_array_elements : ℕ
  pub max_nested_levels : ℕ
  pub dup_map_key : DupMapKeyMode

-- `EncMode` and `DecMode` of the package; options that it refuses give nothing.
pub record CborPackage : Type 0 where
  pub enc_mode : EncOptions → Option (Helper → Option (List ℕ))
  pub dec_mode : DecOptions → Option (List ℕ → Result Helper)

abbrev pub enc_options : EncOptions
enc_options = record { sort = sort_bytewise_lexical; time = time_rfc3339 }

abbrev pub dec_options : DecOptions
dec_options = record {
  max_map_pairs = 1000;
  max_array_elements = 10000;
  max_nested_levels = 16;
  dup_map_key = dup_map_key_enforced_apf;
}

-- `NewCBORSerializer`: the two modes that a `CBORSerializer` holds.
unfoldable pub new_cbor_serializer : CborPackage → Result Codec
new_cbor_serializer cbor = elim (cbor.enc_mode enc_options) [
  | none ↦ err err_encoder_config
  | some encode ↦ elim (cbor.dec_mode dec_options) [
    | none ↦ err err_decoder_config
    | some decode ↦ ok (record { encode = encode; decode = decode })
  ]
]

-- The documentation of `MaxMapPairs`: a decoder refuses a map of more pairs, whatever the options
-- it was written with.
pub record RefusesPairs (cbor : CborPackage) : Type 0 where
  pub refused :
      (with_options : EncOptions) (options : DecOptions) {encode : Helper → Option (List ℕ)}
      {decode : List ℕ → Result Helper}
      → cbor.enc_mode with_options ≡ some encode
      → cbor.dec_mode options ≡ some decode
      → (h : Helper) {out : List ℕ} → encode h ≡ some out
      → {m : List (Str × ℤ)} → h.clock_data ≡ some m
      → options.max_map_pairs < length m
      → (e : Error) × (decode out ≡ err e)
