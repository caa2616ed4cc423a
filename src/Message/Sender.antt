-- ===== src/Message/Sender.antt =====
-- What validation accepts.
use causalclock.Base.{
  ℕ, ◌≤◌, Str, false, Option, none, some, List, [], ◌∷◌, length, any, All, ◌≡◌, ◌≢◌, ◌↔◌, refl,
  arith,
}
use mathlib.Core.Path.{subst}
use causalclock.Base.Time.{Time}
use causalclock.Base.Runes.{any_rune, any_rune-any}
use causalclock.Clock.Types.{Clock}
use causalclock.Message.Types.{ok, Message, Error, max_payload_size}
use causalclock.Message.Validate.{
  new_message, validate_message, validate, is_control, validate_sender_id, validate_metadata,
}

-- A byte that is no ASCII control character.
abbrev pub IsPrintable : ℕ → Type 0
IsPrintable b = (32 ≤ b) × (b ≢ 127)

-- A sender's name of 1 to 256 bytes without control characters.
pub record IsSender (id : Str) : Type 0 where
  pub nonempty : 1 ≤ length id
  pub short : length id ≤ 256
  pub printable : All IsPrintable id

no_control : (s : Str) → any is_control s ≡ false → All IsPrintable s
no_control [] h = tt
no_control (b ∷ s) h = (ground arith, no_control s (ground arith))

All-IsPrintable : (s : Str) → All IsPrintable s → any is_control s ≡ false
All-IsPrintable [] h = refl
All-IsPrintable (b ∷ s) h = ground (arith, All-IsPrintable s h.1)

runes : (s : Str) → any_rune is_control s ≡ any is_control s
unfolding any_rune
runes s = any_rune-any is_control 0 s (λ r h. ground arith) tt

-- `validate_sender_id` accepts exactly these names, though it scans the name rune by rune.
pub validate_sender_id_iff : (id : Str) → (validate_sender_id id ≡ none) ↔ IsSender id
unfolding validate_sender_id
validate_sender_id_iff id = (
  λ h. record {
    nonempty = ground arith;
    short = ground arith;
    printable = no_control id (ground (arith, runes id));
  },
  λ s. ground (arith, runes id, All-IsPrintable id s.printable),
)

-- A pair of metadata within the limits.
abbrev pub IsPair : Str × Str → Type 0
IsPair e = (length e.0 ≤ 256) × (length e.1 ≤ 1024)

abbrev pub Pairs : Option (List (Str × Str)) → Type 0
Pairs none = Unit
Pairs (some m) = All IsPair m

pairs_of : (m : List (Str × Str)) → validate_metadata m ≡ none → All IsPair m
unfolding validate_metadata
pairs_of [] h = tt
pairs_of ((k, v) ∷ m) h = (ground arith, pairs_of m (ground arith))

of_pairs : (m : List (Str × Str)) → All IsPair m → validate_metadata m ≡ none
unfolding validate_metadata
of_pairs [] h = refl
of_pairs ((k, v) ∷ m) h = ground (arith, of_pairs m h.1)

-- A message that is safe to process.
pub record IsMessage (m : Message) : Type 0 where
  pub version_current : m.version ≡ 1
  pub sender : IsSender m.sender_id
  pub has_clock : (c : Clock) × (m.clock ≡ some c)
  pub payload_small : length m.payload ≤ max_payload_size
  pub pairs : Pairs m.metadata

metadata_iff :
    (o : Option (List (Str × Str)))
    → (◌≡◌ {A = Option Error} (elim o [ none ↦ none | some pairs ↦ validate_metadata pairs ]) none)
      ↔ Pairs o
metadata_iff none = (λ h. tt, λ h. refl)
metadata_iff (some m) = (pairs_of m, of_pairs m)

message_accepted : (m : Message) → validate_message m ≡ none → IsMessage m
unfolding validate_message
message_accepted m h =
    let sender_ok : validate_sender_id m.sender_id ≡ none = ground arith in
    let clock_ok : (c : Clock) × (m.clock ≡ some c) = ground arith in
    record {
      version_current = ground arith;
      sender = (validate_sender_id_iff m.sender_id).0 sender_ok;
      has_clock = clock_ok;
      payload_small = ground arith;
      pairs = (metadata_iff m.metadata).0 (ground arith);
    }

accepted_message : (m : Message) → IsMessage m → validate_message m ≡ none
unfolding validate_message
accepted_message m h = ground (
  arith,
  (validate_sender_id_iff m.sender_id).1 h.sender,
  h.has_clock.1,
  (metadata_iff m.metadata).1 h.pairs,
)

-- `validate` accepts exactly the pointers to messages of the current version, from a sender within
-- its limits, with a clock, a payload within its limit and metadata pairs within theirs.
pub validate_iff :
    (p : Option Message) → (validate p ≡ none) ↔ ((m : Message) × (p ≡ some m) × IsMessage m)
unfolding validate
validate_iff none = (λ h. cc, λ (m, e, h). cc)
validate_iff (some m) = (
  λ h. (m, refl, message_accepted m h),
  λ (n, e, h). accepted_message m (let q : n ≡ m = cc in subst IsMessage q h),
)

-- A message that `new_message` makes passes `validate`.
pub new_message-IsMessage :
    (now : Time) (id : Str) (clk : Option Clock) (payload : List ℕ) {m : Message}
    → new_message now id clk payload ≡ ok m
    → validate (some m) ≡ none
unfolding validate validate_message new_message
new_message-IsMessage now id clk payload {m} e = ground arith
