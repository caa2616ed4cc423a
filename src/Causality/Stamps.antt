-- ===== src/Causality/Stamps.antt =====
-- From which map the stamp of an event was made, and that later events leave that as it is.
use causalclock.Base.{
  ℕ, ◌<◌, ◌≤◌, Str, str_eq, Option, none, some, List, [], ◌∷◌, ◌++◌, length, length-append, ◌≡◌,
  ◌≢◌, sym, ◌∙◌, inl, inr, if◌then◌else◌, arith,
}
use causalclock.Base.Slices.{get_elem?, get_elem?-append_lt, get_elem?-snoc, get_elem?-some-lt}
use causalclock.Causality.{Event}
use causalclock.Counter.{Counter}
use causalclock.Counters.Defs.{Counters, get, merge}
use causalclock.Counters.Events.{CanGrow}
use causalclock.Counters.Spec.{IsValid}

module _ {V : Type 0} (num : Counter V) where
  open num use {origin}

  -- The map of node `p` before the event at place `j`: still at zero, or as the last event of the
  -- node left it.
  pub data Prior (events : List (Event V)) (j : ℕ) (p : Str) (c : Counters V) : Type 0 where
    first :
        ((i : ℕ) (a : Event V) → i < j → get_elem? events i ≡ some a → a.node ≢ p)
        → ((k : Str) → get num (some c) k ≡ origin)
        → Prior events j p c
    last :
        (i : ℕ) (a : Event V)
        → i < j
        → get_elem? events i ≡ some a
        → a.node ≡ p
        → ((k : Str) → get num (some c) k ≡ get num (some a.stamp) k)
        → ((i' : ℕ) (a' : Event V) → i < i' → i' < j → get_elem? events i' ≡ some a' → a'.node ≢ p)
        → Prior events j p c

  -- What the event at place `j` increments: the map of its node, into which a message of an
  -- earlier event was merged if there is one.
  abbrev pub Source : List (Event V) → ℕ → Counters V → Option ℕ → Counters V → Type 0
  Source events j base none mixed = mixed ≡ base
  Source events j base (some i) mixed =
      (a : Event V) × (i < j)
      × (get_elem? events i ≡ some a)
      × IsValid num (some a.stamp)
      × (mixed ≡ merge num base (some a.stamp))

  pub record Stamped (events : List (Event V)) (j : ℕ) (b : Event V) : Type 0 where
    pub base : Counters V
    pub base_valid : IsValid num (some base)
    pub prior : Prior events j b.node base
    pub mixed : Counters V
    pub mixed_valid : IsValid num (some mixed)
    pub source : Source events j base b.cause mixed
    pub grow : CanGrow num mixed b.node
    pub stamp_valid : IsValid num (some b.stamp)
    pub stamp_get :
        (k : Str)
        → get num (some b.stamp) k ≡ (
            if str_eq b.node k
            then num.inc (get num (some mixed) b.node)
            else get num (some mixed) k)

  Prior-append :
      (events : List (Event V)) (e : Event V) (j : ℕ) (p : Str) (c : Counters V)
      → j ≤ length events
      → Prior events j p c
      → Prior (events ++ (e ∷ [])) j p c
  Prior-append events e j p c h (first none_yet empty) =
      first
        (λ i a l g. none_yet i a l (sym (get_elem?-append_lt events (e ∷ []) i (omega arith)) ∙ g))
        empty
  Prior-append events e j p c h (last i a l g n s between) =
      last i a l (get_elem?-append_lt events (e ∷ []) i (omega arith) ∙ g) n s (λ i' a' l' m g'.
        between i' a' l' m (sym (get_elem?-append_lt events (e ∷ []) i' (omega arith)) ∙ g'))

  Source-append :
      (events : List (Event V)) (e : Event V) (j : ℕ) (base mixed : Counters V) (cause : Option ℕ)
      → j ≤ length events
      → Source events j base cause mixed
      → Source (events ++ (e ∷ [])) j base cause mixed
  Source-append events e j base mixed none h s = s
  Source-append events e j base mixed (some i) h (a, l, g, v, m) =
      (a, l, get_elem?-append_lt events (e ∷ []) i (omega arith) ∙ g, v, m)

  pub Stamped-append :
      (events : List (Event V)) (e : Event V) (j : ℕ) (b : Event V)
      → j ≤ length events
      → Stamped events j b
      → Stamped (events ++ (e ∷ [])) j b
  Stamped-append events e j b h s = record {
    base = s.base;
    base_valid = s.base_valid;
    prior = Prior-append events e j b.node s.base h s.prior;
    mixed = s.mixed;
    mixed_valid = s.mixed_valid;
    source = Source-append events e j s.base s.mixed b.cause h s.source;
    grow = s.grow;
    stamp_valid = s.stamp_valid;
    stamp_get = s.stamp_get;
  }

  other :
      (events : List (Event V)) (e : Event V) (q : Str) (i : ℕ) (a : Event V)
      → e.node ≢ q
      → get_elem? (events ++ (e ∷ [])) i ≡ some a
      → (get_elem? events i ≡ some a → a.node ≢ q)
      → a.node ≢ q
  other events e q i a n g old = elim (get_elem?-snoc events e a i g) [
    | inl h ↦ old h
    | inr (at_end, is_newest) ↦ rw is_newest n
  ]

  -- An event of another node leaves the node's prior map what it is.
  pub Prior-other :
      (events : List (Event V)) (e : Event V) (q : Str) (c : Counters V)
      → e.node ≢ q
      → Prior events (length events) q c
      → Prior (events ++ (e ∷ [])) (length (events ++ (e ∷ []))) q c
  Prior-other events e q c n (first none_yet empty) =
      first
        (λ i a l g. other events e q i a n g (λ h. none_yet i a (get_elem?-some-lt events i a h) h))
        empty
  Prior-other events e q c n (last i a l g at_q same between) =
      last i a (omega (arith, length-append events (e ∷ [])))
        (get_elem?-append_lt events (e ∷ []) i l ∙ g) at_q same
        (λ i' a' l' m g'.
          other events e q i' a' n g' (λ h. between i' a' l' (get_elem?-some-lt events i' a' h) h))
