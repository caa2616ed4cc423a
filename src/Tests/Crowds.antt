-- ===== src/Tests/Crowds.antt =====
-- A message whose clock has 1001 nodes.
use causalclock.Base.{
  ℕ, zero, suc, ◌/◌, ◌%◌, ℤ, pos, Str, Option, none, some, List, [], ◌∷◌, length, ltb,
  if◌then◌else◌,
}
use causalclock.Base.Time.{zero_time}
use causalclock.Clock.Types.{Clock}
use causalclock.Message.Types.{Message, Result, ok, err, err_decode, err_empty_data}
use causalclock.Message.Serializer.{Helper, Codec}
use causalclock.Message.Cbor.{CborPackage}
use causalclock.Tests.Data.{node_a}

-- So many nodes, each named by the two bytes of a number, at one.
unfoldable numbered : ℕ → List (Str × ℤ)
numbered zero = []
numbered (suc n) = (n / 256 ∷ n % 256 ∷ [], pos 1) ∷ numbered n

abbrev crowd : Clock
crowd = record { entries = some (numbered 1001) }

abbrev crowded : Message
crowded = record {
  version = 1;
  sender_id = node_a;
  clock = some crowd;
  payload = [];
  timestamp = zero_time;
  metadata = none;
}

-- A package that writes the number of the pairs only, and holds to the limit when it reads.
abbrev count_pairs : Option (List (Str × ℤ)) → ℕ
count_pairs none = 0
count_pairs (some m) = length m

abbrev no_nodes : Helper
no_nodes = record {
  version = 1;
  sender_id = node_a;
  clock_data = some [];
  payload = [];
  timestamp = pos 0;
  metadata = none;
}

abbrev read_count : ℕ → List ℕ → Result Helper
read_count most [] = err err_empty_data
read_count most (n ∷ _) = if ltb most n then err (err_decode 0) else ok no_nodes

abbrev counting : CborPackage
counting = record {
  enc_mode = λ options. some (λ h. some (count_pairs h.clock_data ∷ []));
  dec_mode = λ options. some (read_count options.max_map_pairs);
}

abbrev written_with : Option (Helper → Option (List ℕ)) → Helper → Option (List ℕ)
written_with none h = none
written_with (some encode) h = encode h

abbrev read_with : Option (List ℕ → Result Helper) → List ℕ → Result Helper
read_with none input = err err_empty_data
read_with (some decode) input = decode input

abbrev counting_codec : Codec
counting_codec = record {
  encode = λ h. some (count_pairs h.clock_data ∷ []);
  decode = read_count 1000;
}
