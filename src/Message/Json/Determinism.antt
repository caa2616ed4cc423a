-- ===== src/Message/Json/Determinism.antt =====
-- The JSON of messages whose maps hold the same entries in another order.
use causalclock.Base.{
  ℤ, insert, ℕ, ◌∷◌, [], ◌⊎◌, inl, inr, Str, str_eq, str_eq_iff, str_eq_refl, none, some, List,
  Bool, false, ltb, ◌||◌, length, lookup, Distinct, ◌≡◌, refl, sym, ap, ◌∙◌, arith, Bool-cases,
}
use causalclock.Clock.Types.{Clock, NodeId}
use causalclock.Counter.{int64}
use causalclock.Counters.Defs.{made, get}
use causalclock.Counters.Listing.{nodes}
use causalclock.Counters.Determinism.Views.{Same, nodes_deterministic, get-of_Same}
use causalclock.Base.Json.Canonical.{sort_entries_same}
use causalclock.Message.Types.{Message, Result, err_metadata_too_large}
use causalclock.Message.Validate.{validate, validate_metadata}
use causalclock.Message.Clocks.{clock_data_loop, clock_data}
use causalclock.Message.Serializer.{Helper, helper_of, marshal_json}
use causalclock.Message.Json.{metadata_onto, helper_onto, json_codec}
use causalclock.Message.Json.Texts.{text_of, encode_text}
use causalclock.Message.Json.Lossy.{marshal_json_alike}

clock_data_loop_same :
    (c d : Clock) (out : List (Str × ℤ)) (ns : List NodeId)
    → ((k : Str) → get int64 (some c) k ≡ get int64 (some d) k)
    → clock_data_loop c out ns ≡ clock_data_loop d out ns
unfolding clock_data_loop
clock_data_loop_same c d out [] h = refl
clock_data_loop_same c d out (k ∷ ns) h =
    rw (h k) (clock_data_loop_same c d (insert k (get int64 (some d) k) out) ns h)

-- The map of a clock, its order included, depends on the counters only.
clock_data-Same :
    (c d : Clock)
    → Distinct (made c)
    → Distinct (made d)
    → Same (some c) (some d)
    → clock_data (some c) ≡ clock_data (some d)
unfolding clock_data
clock_data-Same c d hc hd s =
    ap (clock_data_loop c []) (nodes_deterministic (some c) (some d) hc hd s)
    ∙ clock_data_loop_same c d [] (nodes (some d)) (get-of_Same int64 (some c) (some d) s)

metadata_onto_same :
    (p q : List (Str × Str)) (tail : Str)
    → Distinct p
    → Distinct q
    → ((k : Str) → lookup k p ≡ lookup k q)
    → metadata_onto (some p) tail ≡ metadata_onto (some q) tail
unfolding metadata_onto lookup
metadata_onto_same [] [] tail d d' h = refl
metadata_onto_same [] ((k, v) ∷ q) tail d d' h = absurd (ground (arith, h k, str_eq_refl k))
metadata_onto_same ((k, v) ∷ p) [] tail d d' h = absurd (ground (arith, h k, str_eq_refl k))
metadata_onto_same (e ∷ p) (f ∷ q) tail d d' h =
    let same = sort_entries_same (e ∷ p) (f ∷ q) d d' h in rw same refl

-- `len(key) > 256 || len(value) > 1024`
abbrev too_large : Str → Str → Bool
too_large k v = ltb 256 (length k) || ltb 1024 (length v)

metadata_result :
    (m : List (Str × Str))
    → (validate_metadata m ≡ none) ⊎ (validate_metadata m ≡ some err_metadata_too_large)
unfolding validate_metadata
metadata_result [] = inl refl
metadata_result ((k, v) ∷ m) = elim (Bool-cases (too_large k v)) [
  | inl e ↦ inr (rw e refl)
  | inr e ↦ rw e (metadata_result m)
]

pairs_fit :
    (m : List (Str × Str)) (k v : Str)
    → validate_metadata m ≡ none
    → lookup k m ≡ some v
    → too_large k v ≡ false
unfolding validate_metadata lookup
pairs_fit [] k v h e = absurd (ground arith)
pairs_fit ((j, w) ∷ m) k v h e = elim (Bool-cases (str_eq j k)) [
  | inl q ↦
      let same_key : j ≡ k = ground (arith, str_eq_iff j k) in
      let same_value : w ≡ v = ground arith in rw (← same_key, ← same_value) (ground arith)
  | inr q ↦ pairs_fit m k v (ground arith) (ground arith)
]

fitting_pairs :
    (m : List (Str × Str))
    → Distinct m
    → ((k v : Str) → lookup k m ≡ some v → too_large k v ≡ false)
    → validate_metadata m ≡ none
unfolding validate_metadata lookup
fitting_pairs [] d h = refl
fitting_pairs ((k, v) ∷ m) d h =
    let fits = h k v (rw (str_eq_refl k) refl) in
    rw fits (fitting_pairs m d.1 (λ j w e. h j w (ground (arith, str_eq_iff k j, d.0, e))))

validate_metadata_same :
    (p q : List (Str × Str))
    → Distinct p
    → Distinct q
    → ((k : Str) → lookup k p ≡ lookup k q)
    → validate_metadata p ≡ validate_metadata q
validate_metadata_same p q d d' h = elim (metadata_result p) [
  | inl e ↦ e ∙ sym (fitting_pairs q d' (λ k v f. pairs_fit p k v e (h k ∙ f)))
  | inr e ↦ elim (metadata_result q) [
    | inl f ↦ fitting_pairs p d (λ k v g. pairs_fit q k v f (sym (h k) ∙ g)) ∙ sym f
    | inr f ↦ e ∙ sym f
  ]
]

module _ (m : Message) (c d : Clock) (p q : List (Str × Str)) where
  -- The message with the one clock and metadata, and with the others.
  abbrev one : Message
  one = record m { clock = some c; metadata = some p }

  abbrev other : Message
  other = record m { clock = some d; metadata = some q }

  module _ (hc : Distinct (made c)) (hd : Distinct (made d)) (s : Same (some c) (some d))
      (hp : Distinct p) (hq : Distinct q) (t : (k : Str) → lookup k p ≡ lookup k q) where
    same_validate : validate (some one) ≡ validate (some other)
    unfolding validate
    same_validate = ground (arith, validate_metadata_same p q hp hq t)

    same_text : (nil_payload : Bool) → text_of nil_payload one ≡ text_of nil_payload other
    unfolding helper_onto helper_of
    same_text nil_payload =
        rw (clock_data-Same c d hc hd s, metadata_onto_same p q (b'}' ∷ []) hp hq t) refl

-- The JSON of a message, and whether it validates, do not depend on the order in which the entries
-- of its clock and of its metadata are met, where the keys of each are distinct.
pub marshal_json_deterministic :
    (nil_payload : Bool) (elsewhere : List ℕ → Result Helper) (m : Message) (c d : Clock)
    (p q : List (Str × Str))
    → Distinct (made c)
    → Distinct (made d)
    → Same (some c) (some d)
    → Distinct p
    → Distinct q
    → ((k : Str) → lookup k p ≡ lookup k q)
    → marshal_json
        (json_codec nil_payload elsewhere)
        (some (record m { clock = some c; metadata = some p }))
      ≡ marshal_json
          (json_codec nil_payload elsewhere)
          (some (record m { clock = some d; metadata = some q }))
marshal_json_deterministic nil_payload elsewhere m c d p q hc hd s hp hq t =
    marshal_json_alike (json_codec nil_payload elsewhere) (one m c d p q) (other m c d p q)
      (same_validate m c d p q hc hd s hp hq t)
      (encode_text nil_payload elsewhere (one m c d p q)
        ∙ ap some (same_text m c d p q hc hd s hp hq t nil_payload)
        ∙ sym (encode_text nil_payload elsewhere (other m c d p q)))
