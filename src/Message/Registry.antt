-- ===== src/Message/Registry.antt =====
-- `Registry` of `message/serializer.go`: serializers by name. Each method holds the lock for its
-- whole body, so that it is one step.
use causalclock.Base.{
  ℕ, Str, str_eq, Option, none, some, List, [], ◌∷◌, insert, lookup, lookup-insert, if◌then◌else◌,
  ◌≡◌, refl,
}
use causalclock.Message.Serializer.{
  Codec, marshal_cbor, unmarshal_cbor, marshal_json, unmarshal_json,
}
use causalclock.Message.Types.{Message, Result}

-- The interface `Serializer`.
pub record Serializer : Type 0 where
  pub marshal : Option Message → Result (List ℕ)
  pub unmarshal : List ℕ → Result Message
  pub name : Str

pub record Registry : Type 0 where
  pub serializers : List (Str × Serializer)

-- `NewRegistry`
unfoldable pub new_registry : Registry
new_registry = record { serializers = [] }

-- `Register`
unfoldable pub register : Registry → Serializer → Registry
register r s = record { serializers = insert s.name s r.serializers }

-- `CBORSerializer` and `JSONSerializer` as values of the interface, with `Name`.
abbrev pub cbor_serializer : Codec → Serializer
cbor_serializer codec = record {
  marshal = marshal_cbor codec;
  unmarshal = unmarshal_cbor codec;
  name = b'c' ∷ b'b' ∷ b'o' ∷ b'r' ∷ [];
}

abbrev pub json_serializer : Codec → Serializer
json_serializer codec = record {
  marshal = marshal_json codec;
  unmarshal = unmarshal_json codec;
  name = b'j' ∷ b's' ∷ b'o' ∷ b'n' ∷ [];
}

-- `Get`; the missing serializer is `none`.
unfoldable pub get : Registry → Str → Option Serializer
get r name = lookup name r.serializers

-- `init`: JSON always, CBOR where its set-up succeeded.
unfoldable pub default_registry : Serializer → Option Serializer → Registry
unfolding register new_registry
default_registry json none = register new_registry json
default_registry json (some cbor) = register (register new_registry json) cbor

-- After `register` the name leads to the serializer, and every other name to what it led to.
pub get-register :
    (r : Registry) (s : Serializer) (name : Str)
    → get (register r s) name ≡ (if str_eq s.name name then some s else get r name)
unfolding get register
get-register r s name = lookup-insert s.name name s r.serializers

get-new_registry : (name : Str) → get new_registry name ≡ none
unfolding get new_registry lookup
get-new_registry name = refl

-- The registry that a program starts with knows JSON, CBOR where its set-up succeeded, and
-- nothing else.
pub get-default_registry :
    (json : Serializer) (cbor : Option Serializer) (name : Str)
    → get (default_registry json cbor) name ≡ elim cbor [
      | none ↦ if str_eq json.name name then some json else none
      | some c ↦
          if str_eq c.name name then some c else if str_eq json.name name then some json else none
    ]
unfolding default_registry
get-default_registry json none name = rw (get-register, get-new_registry)
get-default_registry json (some c) name = rw (
  get-register (register new_registry json) c name,
  get-register new_registry json name,
  get-new_registry,
)
