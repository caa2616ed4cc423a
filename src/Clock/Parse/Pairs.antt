-- ===== src/Clock/Parse/Pairs.antt =====
-- `ParseClock` on one printed pair, and on a text in braces.
use causalclock.Base.{
  Str, ◌-◌, ◌<◌, [], ◌∷◌, ◌++◌, length, length-append, true, false, some, ℤ, is_int64, str_eq,
  str_eq_iff, ◌==◌, Bool-cases, inl, inr, ◌≡◌, refl, ap, sym, ◌∙◌, arith,
}
use mathlib.Core.List.{append-nil, append_assoc, reverse-append}
use causalclock.Base.Decimal.{print_ℤ}
use causalclock.Base.Scan.{
  scan_int, scan_int-print_ℤ, print_ℤ_lacks, print_ℤ-IsTrimmed, front_width-print_ℤ,
}
use causalclock.Base.Slices.{slice, slice-append}
use causalclock.Base.Text.{
  trim_space, split, has_suffix, has_byte, has_byte-append, IsTrimmed, trim_space-IsTrimmed,
  split_none, split-append, front_width_solid, back_width_last, front_width-append,
}
use causalclock.Clock.Parse.{ok, set_parts, parse_loop, parse_trimmed, parse_clock}
use causalclock.Clock.Types.{Clock, NodeId}
use causalclock.Counter.{int64}
use causalclock.Counters.Defs.{new, set}

-- A name that the text format can carry.
pub record IsPlain (k : NodeId) : Type 0 where
  pub no_comma : has_byte b',' k ≡ false
  pub no_colon : has_byte b':' k ≡ false
  pub trimmed : IsTrimmed k

-- `%s:%d`
abbrev pub text : NodeId → ℤ → Str
text k v = k ++ (b':' ∷ print_ℤ v)

pub text-IsTrimmed : (k : NodeId) (v : ℤ) → IsPlain k → IsTrimmed (text k v)
text-IsTrimmed k v p =
    let front = front_width-append k b':' (print_ℤ v) p.trimmed.front (omega arith) (omega arith) in
    rw append_assoc at (print_ℤ-IsTrimmed v (k ++ (b':' ∷ [])) (rw append_assoc front))

pub text_lacks_comma : (k : NodeId) (v : ℤ) → IsPlain k → has_byte b',' (text k v) ≡ false
text_lacks_comma k v p = ground (
  arith,
  has_byte-append b',' k (b':' ∷ print_ℤ v),
  p.no_comma,
  print_ℤ_lacks b',' v refl (λ e. omega arith),
)

-- One pair is read as what it was printed from.
pub set_parts-text :
    (c : Clock) (pair : Str) (k : NodeId) (v : ℤ)
    → IsPlain k
    → is_int64 v ≡ true
    → set_parts c pair (split b':' (text k v)) ≡ ok (set int64 c k v)
unfolding set_parts
set_parts-text c pair k v p r =
    let value : scan_int (trim_space (print_ℤ v)) ≡ some v =
      rw
        (trim_space-IsTrimmed (print_ℤ v)
          (print_ℤ-IsTrimmed v [] (rw append-nil at (front_width-print_ℤ v []))))
        (ap scan_int (sym (append-nil (print_ℤ v))) ∙ scan_int-print_ℤ v [] r tt) in
    rw (
      split-append b':' k (print_ℤ v) p.no_colon,
      split_none b':' (print_ℤ v) (print_ℤ_lacks b':' v refl (λ e. omega arith)),
      set_parts,
      value,
      trim_space-IsTrimmed k p.trimmed,
    )

-- A text in braces that is not empty is read pair by pair.
pub parse_clock_braced :
    (body : Str)
    → 0 < length body
    → parse_clock (b'{' ∷ (body ++ (b'}' ∷ []))) ≡ parse_loop (new int64 []) (split b',' body)
unfolding parse_clock parse_trimmed
parse_clock_braced body h =
    let s : Str = b'{' ∷ (body ++ (b'}' ∷ [])) in
    let trimmed : trim_space s ≡ s = trim_space-IsTrimmed s (record {
      front = front_width_solid b'{' (body ++ (b'}' ∷ [])) (omega arith) (omega arith);
      back = back_width_last (b'{' ∷ body) b'}' (omega arith) (omega arith);
    }) in
    let braces : Str = b'{' ∷ b'}' ∷ [] in
    let not_empty : str_eq s braces ≡ false = elim (Bool-cases (str_eq s braces)) [
      | inl e ↦
          absurd
            (omega (arith, ap length ((str_eq_iff s braces).0 e), length-append body (b'}' ∷ [])))
      | inr e ↦ e
    ] in
    let suffix : has_suffix b'}' s ≡ true =
      rw (has_suffix, reverse-append (b'{' ∷ body) (b'}' ∷ [])) in
    let cut : slice s 1 (length s - 1) ≡ body =
      slice-append (b'{' ∷ []) body (b'}' ∷ []) 1 (length s - 1) refl
        (omega (arith, length-append body (b'}' ∷ []))) in
    let some_body : (length body == 0) ≡ false = ground arith in
    rw (trimmed, parse_trimmed, not_empty, suffix, cut, some_body)
