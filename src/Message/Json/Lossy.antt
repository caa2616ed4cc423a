-- ===== src/Message/Json/Lossy.antt =====
-- Names that are no UTF-8, in JSON.
use causalclock.Base.{
  length, ltb_of_le, ◌≤◌, ℕ, ◌≤◌, ◌∷◌, ◌++◌, [], Str, ◌||◌, Option, none, some, List, Bool, true,
  false, ltb, ◌≡◌, refl, arith, ap, ap₂, sym, ◌∙◌, Option-cases, inl, inr,
}
use causalclock.Base.Runes.{decode_rune, decode_ascii, rune_error, any_rune}
use causalclock.Base.Quote.{quoted, escape_from}
use causalclock.Message.Sender.{IsMessage, validate_iff}
use causalclock.Message.Types.{
  ok, max_message_size, Message, Result, err, Error, err_encoding_failed, err_validation_failed,
}
use causalclock.Message.Validate.{is_control, validate, validate_sender_id}
use causalclock.Message.Serializer.{Helper, Codec, helper_of, limited, line, marshal_json}
use causalclock.Message.Json.{helper_onto, json_codec}
use causalclock.Message.Json.Texts.{text_of, encode_text}

past_ascii : (a : ℕ) (s : Str) → decode_rune a s ≡ (rune_error, 1) → 128 ≤ a
past_ascii a s h = ground (arith, decode_ascii a s)

replacement : Str
replacement = b'\\' ∷ b'u' ∷ b'f' ∷ b'f' ∷ b'f' ∷ b'd' ∷ []

-- A byte that begins no rune.
escape_from-error :
    (a : ℕ) (s : Str)
    → decode_rune a s ≡ (rune_error, 1)
    → escape_from true 0 (a ∷ s) ≡ replacement ++ escape_from true 0 s
unfolding escape_from replacement
escape_from-error a s h =
    let past = past_ascii a s h in let big : ltb a 0x80 ≡ false = ground arith in rw (h, big) refl

any_rune-error :
    (test : ℕ → Bool) (a : ℕ) (s : Str)
    → decode_rune a s ≡ (rune_error, 1)
    → any_rune test (a ∷ s) ≡ (test rune_error || any_rune test s)
unfolding any_rune
any_rune-error test a s h = rw h refl

module _ (a b : ℕ) (s : Str) (h : decode_rune a s ≡ (rune_error, 1))
    (k : decode_rune b s ≡ (rune_error, 1)) where
  same_quoted : quoted (a ∷ s) ≡ quoted (b ∷ s)
  unfolding quoted
  same_quoted = rw (escape_from-error a s h, escape_from-error b s k) refl

  same_sender : validate_sender_id (a ∷ s) ≡ validate_sender_id (b ∷ s)
  unfolding validate_sender_id
  same_sender = rw (any_rune-error is_control a s h, any_rune-error is_control b s k) refl

  same_validate :
      (m : Message)
      → validate (some (record m { sender_id = a ∷ s }))
        ≡ validate (some (record m { sender_id = b ∷ s }))
  unfolding validate
  same_validate m = rw same_sender refl

  same_text :
      (nil_payload : Bool) (m : Message)
      → text_of nil_payload (record m { sender_id = a ∷ s })
        ≡ text_of nil_payload (record m { sender_id = b ∷ s })
  unfolding helper_onto helper_of
  same_text nil_payload m = rw same_quoted refl

marshal_from : Option Error → Option (List ℕ) → Result (List ℕ)
marshal_from (some e) text = err (err_validation_failed e)
marshal_from none none = err err_encoding_failed
marshal_from none (some text) = limited (line text)

marshal_json_form :
    (codec : Codec) (m : Message)
    → marshal_json codec (some m) ≡ marshal_from (validate (some m)) (codec.encode (helper_of m))
unfolding marshal_json marshal_from
marshal_json_form codec m = elim (Option-cases (validate (some m))) [
  | inl e ↦ elim (Option-cases (codec.encode (helper_of m))) [
    | inl k ↦ ground (arith, e, k)
    | inr (text, k) ↦ ground (arith, e, k)
  ]
  | inr (x, e) ↦ ground (arith, e)
]

pub marshal_json_alike :
    (codec : Codec) (m n : Message)
    → validate (some m) ≡ validate (some n)
    → codec.encode (helper_of m) ≡ codec.encode (helper_of n)
    → marshal_json codec (some m) ≡ marshal_json codec (some n)
marshal_json_alike codec m n e k =
    marshal_json_form codec m ∙ ap₂ marshal_from e k ∙ sym (marshal_json_form codec n)

-- A valid message within the limit is sent.
marshal_json_text :
    (nil_payload : Bool) (elsewhere : List ℕ → Result Helper) (m : Message)
    → validate (some m) ≡ none
    → length (line (text_of nil_payload m)) ≤ max_message_size
    → marshal_json (json_codec nil_payload elsewhere) (some m) ≡ ok (line (text_of nil_payload m))
unfolding marshal_from
marshal_json_text nil_payload elsewhere m v small =
    marshal_json_form (json_codec nil_payload elsewhere) m
    ∙ ap₂ marshal_from v (encode_text nil_payload elsewhere m)
    ∙ rw (ltb_of_le max_message_size (length (line (text_of nil_payload m))) small) refl

-- A message within the limits of validation, whose sender's name begins with a byte that begins no
-- sequence of UTF-8, and the same message with another such byte in its place both validate and
-- both are marshalled, to one and the same JSON, where it is within the size limit: the names
-- cannot be told apart in what is sent.
pub marshal_json-rune_error :
    (nil_payload : Bool) (elsewhere : List ℕ → Result Helper) (m : Message) (a b : ℕ) (s : Str)
    → decode_rune a s ≡ (rune_error, 1)
    → decode_rune b s ≡ (rune_error, 1)
    → IsMessage (record m { sender_id = a ∷ s })
    → length (line (text_of nil_payload (record m { sender_id = a ∷ s }))) ≤ max_message_size
    → (out : List ℕ) × (validate (some (record m { sender_id = a ∷ s })) ≡ none)
      × (validate (some (record m { sender_id = b ∷ s })) ≡ none)
      × (marshal_json (json_codec nil_payload elsewhere) (some (record m { sender_id = a ∷ s }))
          ≡ ok out)
      × (marshal_json (json_codec nil_payload elsewhere) (some (record m { sender_id = b ∷ s }))
          ≡ ok out)
marshal_json-rune_error nil_payload elsewhere m a b s h k safe small =
    let one = record m { sender_id = a ∷ s } in
    let valid = (validate_iff (some one)).1 (one, refl, safe) in
    let valid' = sym (same_validate a b s h k m) ∙ valid in
    let text = same_text a b s h k nil_payload m in
    (
      line (text_of nil_payload one),
      valid,
      valid',
      marshal_json_text nil_payload elsewhere one valid small,
      marshal_json_text nil_payload elsewhere (record m { sender_id = b ∷ s }) valid'
            (rw text at small)
          ∙ ap (λ t. ok (line t)) (sym text),
    )
