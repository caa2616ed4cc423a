-- ===== src/Causality/History.antt =====
-- What is known of every event of a run: from which map its stamp was made.
use causalclock.Base.{
  ℕ, ◌+◌, Str, str_eq, str_eq_iff, Option, none, some, [], ◌∷◌, ◌++◌, length, length-append, ◌≡◌,
  refl, sym, ◌∙◌, inl, inr, if◌then◌else◌, arith, Bool-cases,
}
use causalclock.Base.Slices.{get_elem?, get_elem?-append, get_elem?-snoc, get_elem?-some-lt}
use causalclock.Causality.{Event, World, initial, happen, Run, started, acted, received}
use causalclock.Counter.{Counter}
use causalclock.Counters.Changes.{
  new-IsValid, get-new, copy-IsValid, get-copy, increment-IsValid, merge-IsValid,
}
use causalclock.Counters.Defs.{Counters, copy, increment, merge}
use causalclock.Counters.Events.{CanGrow}
use causalclock.Counters.Reads.{get-increment}
use causalclock.Counters.Spec.{IsValid}
use causalclock.Causality.Stamps.{Prior, first, last, Source, Stamped, Stamped-append, Prior-other}

module _ {V : Type 0} (num : Counter V) where
  -- The same of all events of a world, and of the map of every node.
  pub record IsHistory (w : World V) : Type 0 where
    pub stamped : (j : ℕ) (b : Event V) → get_elem? w.events j ≡ some b → Stamped num w.events j b
    pub current : (p : Str) → Prior num w.events (length w.events) p (w.clocks p)
    pub valid : (p : Str) → IsValid num (some (w.clocks p))

  initial-IsHistory : IsHistory (initial num)
  initial-IsHistory = record {
    stamped = λ j b h. ground arith;
    current = λ p. first (λ i a h. ground arith) (get-new num []);
    valid = λ p. new-IsValid num [];
  }

  module _ (w : World V) (p : Str) (cause : Option ℕ) (mixed : Counters V) (h : IsHistory w)
      (mixed_ok : IsValid num (some mixed)) (grow_ok : CanGrow num mixed p)
      (source_ok : Source num w.events (length w.events) (w.clocks p) cause mixed) where
    abbrev after : Counters V
    after = (increment num mixed p).0

    abbrev newest : Event V
    newest = record { node = p; cause = cause; stamp = copy num (some after) }

    after-IsValid : IsValid num (some after)
    after-IsValid = increment-IsValid num mixed p mixed_ok grow_ok.ranged grow_ok.below_top

    newest-Stamped : Stamped num (w.events ++ (newest ∷ [])) (length w.events) newest
    newest-Stamped =
        Stamped-append num w.events newest (length w.events) newest (omega arith) (record {
          base = w.clocks p;
          base_valid = h.valid p;
          prior = h.current p;
          mixed = mixed;
          mixed_valid = mixed_ok;
          source = source_ok;
          grow = grow_ok;
          stamp_valid = copy-IsValid num (some after) after-IsValid;
          stamp_get =
              λ k. get-copy num (some after) k after-IsValid ∙ (get-increment num mixed p k).0;
        })

    happen-current :
        (q : Str)
        → Prior num
            (w.events ++ (newest ∷ []))
            (length (w.events ++ (newest ∷ [])))
            q
            (if str_eq p q then after else w.clocks q)
    happen-current q = elim (Bool-cases (str_eq p q)) [
      | inl same ↦
          let p_q : p ≡ q = (str_eq_iff p q).0 same in
          let n : length (w.events ++ (newest ∷ [])) ≡ length w.events + 1 =
            length-append w.events (newest ∷ []) in
          rw same (
            last (length w.events) newest (omega (arith, n)) (get_elem?-append w.events [] newest)
              p_q (λ k. sym (get-copy num (some after) k after-IsValid))
              (λ i' a' l m g. absurd (omega (arith, n))))
      | inr apart ↦ rw apart (
          Prior-other num w.events newest q (w.clocks q) (λ e. ground (arith, str_eq_iff p q))
            (h.current q))
    ]

    happen-IsValid : (q : Str) → IsValid num (some (if str_eq p q then after else w.clocks q))
    happen-IsValid q = elim (Bool-cases (str_eq p q)) [
      | inl same ↦ rw same after-IsValid
      | inr apart ↦ rw apart (h.valid q)
    ]

    happen-Stamped :
        (j : ℕ) (b : Event V)
        → get_elem? (w.events ++ (newest ∷ [])) j ≡ some b
        → Stamped num (w.events ++ (newest ∷ [])) j b
    happen-Stamped j b g = elim (get_elem?-snoc w.events newest b j g) [
      | inl old ↦
          let j_lt = get_elem?-some-lt w.events j b old in
          Stamped-append num w.events newest j b (omega arith) (h.stamped j b old)
      | inr (at_end, is_newest) ↦ rw (at_end, is_newest) newest-Stamped
    ]

    happen-IsHistory : IsHistory (happen num w p cause after)
    happen-IsHistory = record {
      stamped = happen-Stamped;
      current = happen-current;
      valid = happen-IsValid;
    }

  -- Every run is one.
  pub Run-IsHistory : (w : World V) → Run num w → IsHistory w
  Run-IsHistory w started = initial-IsHistory
  Run-IsHistory w (acted {w = v} p r g) =
      let h = Run-IsHistory v r in happen-IsHistory v p none (v.clocks p) h (h.valid p) g refl
  Run-IsHistory w (received {w = v} {a = a} p i r e g) =
      let h = Run-IsHistory v r in
      let sent = (h.stamped i a e).stamp_valid in
      happen-IsHistory v p (some i) (merge num (v.clocks p) (some a.stamp)) h
        (merge-IsValid num (v.clocks p) (some a.stamp) (h.valid p) sent) g
        (a, get_elem?-some-lt v.events i a e, e, sent, refl)
