-- ===== src/Causality/Order.antt =====
-- What happened before leaves a smaller stamp.
use causalclock.Base.{
  ℕ, zero, suc, ◌<◌, ltb, ltb→lt, ap, Str, str_eq, str_eq_iff, str_eq_refl, true, Option, none,
  some, List, ◌≡◌, sym, ◌∙◌, inl, inr, arith, Bool-cases,
}
use causalclock.Base.Slices.{get_elem?}
use causalclock.Causality.{Event, World, HappensBefore, same_node, message, chain}
use causalclock.Causality.History.{IsHistory}
use causalclock.Causality.Stamps.{Prior, first, last, Source, Stamped}
use causalclock.Counter.{Counter, join-ge_left, join-ge_right, less_irrefl, less_of_ge}
use causalclock.Counters.Defs.{Counters, get}
use causalclock.Counters.Reads.{get-merge}
use causalclock.Counters.Spec.{IsValid, Below}

module _ {V : Type 0} (num : Counter V) where
  open num use {less}

  -- One stamp is at most the other, and smaller at the other's node.
  pub record Precedes (a b : Event V) : Type 0 where
    pub below : Below num (some a.stamp) (some b.stamp)
    pub smaller : less (get num (some a.stamp) b.node) (get num (some b.stamp) b.node) ≡ true

  Below-trans : (c d e : Option (Counters V)) → Below num c d → Below num d e → Below num c e
  Below-trans c d e p q k = num.ge_trans (get num e k) (get num d k) (get num c k) (q k) (p k)

  Below-refl : (c : Option (Counters V)) → Below num c c
  Below-refl c k = less_irrefl num (get num c k)

  module _ (events : List (Event V)) (j : ℕ) (b : Event V) (s : Stamped num events j b) where
    -- The stamp is the mixed map with the node's counter one up.
    pub stamp_step : less (get num (some s.mixed) b.node) (get num (some b.stamp) b.node) ≡ true
    stamp_step =
        rw (s.stamp_get b.node, str_eq_refl)
          (num.less-inc (get num (some s.mixed) b.node) s.grow.ranged s.grow.below_top)

    mixed-Below : Below num (some s.mixed) (some b.stamp)
    mixed-Below k = elim (Bool-cases (str_eq b.node k)) [
      | inl same ↦
          rw (← (str_eq_iff b.node k).0 same) (
            num.less_asym (get num (some s.mixed) b.node) (get num (some b.stamp) b.node)
              stamp_step)
      | inr apart ↦ rw (s.stamp_get k, apart) (less_irrefl num (get num (some s.mixed) k))
    ]

    -- Whatever is at most the mixed map precedes the stamp.
    Below-mixed : (a : Event V) → Below num (some a.stamp) (some s.mixed) → Precedes a b
    Below-mixed a h = record {
      below = Below-trans (some a.stamp) (some s.mixed) (some b.stamp) h mixed-Below;
      smaller =
          less_of_ge num (get num (some a.stamp) b.node) (get num (some s.mixed) b.node)
            (get num (some b.stamp) b.node) (h b.node) stamp_step;
    }

  -- What a source is made of is at most the source.
  base-Below :
      (events : List (Event V)) (j : ℕ) (base mixed : Counters V) (cause : Option ℕ)
      → IsValid num (some base)
      → Source num events j base cause mixed
      → Below num (some base) (some mixed)
  base-Below events j base mixed none v e k = rw e (less_irrefl num (get num (some base) k))
  base-Below events j base mixed (some i) v (a, l, g, sent, e) k =
      rw (e, get-merge num base (some a.stamp) k v sent)
        (join-ge_left num (get num (some base) k) (get num (some a.stamp) k))

  sent-Below :
      (events : List (Event V)) (j i : ℕ) (base mixed : Counters V) (cause : Option ℕ)
      → IsValid num (some base)
      → Source num events j base cause mixed
      → cause ≡ some i
      → (a : Event V) × (i < j)
        × (get_elem? events i ≡ some a)
        × Below num (some a.stamp) (some mixed)
  sent-Below events j i base mixed none v e c = cc
  sent-Below events j i base mixed (some i') v (a, l, g, sent, e) c =
      let same : i' ≡ i = ground arith in
      (
        a,
        rw (← same) l,
        rw (← same) g,
        λ k.
            rw (e, get-merge num base (some a.stamp) k v sent)
              (join-ge_right num (get num (some base) k) (get num (some a.stamp) k)),
      )

  module _ (w : World V) (h : IsHistory num w) where
    abbrev pub At : ℕ → Event V → Type 0
    At i a = get_elem? w.events i ≡ some a

    -- The map of a node is above every stamp that the node left before, given that its stamps
    -- rise up to there.
    Prior-Below :
        (j i : ℕ) (a : Event V) (p : Str) (c : Counters V)
        → Prior num w.events j p c
        → At i a
        → a.node ≡ p
        → i < j
        → ((i' : ℕ) (a' : Event V) → At i' a' → a'.node ≡ p → i < i' → i' < j → Precedes a a')
        → Below num (some a.stamp) (some c)
    Prior-Below j i a p c (first none_yet empty) e n l rise k = absurd (none_yet i a l e n)
    Prior-Below j i a p c (last i' a' l' e' n' same between) e n l rise k =
        elim (Bool-cases (ltb i i')) [
          | inl before ↦ rw (same k) ((rise i' a' e' n' (ltb→lt i i' before) l').below k)
          | inr after ↦ elim (Bool-cases (ltb i' i)) [
            | inl later ↦ absurd (between i a (ltb→lt i' i later) l e n)
            | inr equal ↦
                let place : i ≡ i' = ground arith in
                let event : a ≡ a' = ground (arith, ap (get_elem? w.events) place) in
                rw (same k, event) (less_irrefl num (get num (some a'.stamp) k))
          ]
        ]

    -- Of two events of one node the earlier precedes the later.
    pub node_order :
        (n i j : ℕ) (a b : Event V)
        → j < n
        → At i a
        → At j b
        → a.node ≡ b.node
        → i < j
        → Precedes a b
    node_order zero i j a b l p q e m = absurd (omega arith)
    node_order (suc n) i j a b l p q e m =
        let s = h.stamped j b q in
        let prior =
          Prior-Below j i a b.node s.base s.prior p e m
            (λ i' a' p' e' m' l'. node_order n i i' a a' (omega arith) p p' (e ∙ sym e') m') in
        Below-mixed w.events j b s a (
          Below-trans (some a.stamp) (some s.base) (some s.mixed) prior
            (base-Below w.events j s.base s.mixed b.cause s.base_valid s.source))

    HappensBefore-target : {i j : ℕ} → HappensBefore w.events i j → (b : Event V) × At j b
    HappensBefore-target (same_node {b = b} p q e l) = (b, q)
    HappensBefore-target (message {b = b} q c) = (b, q)
    HappensBefore-target (chain x y) = HappensBefore-target y

    pub At-unique : (i : ℕ) (a b : Event V) → At i a → At i b → a ≡ b
    At-unique i a b p q = ground arith

    Precedes-trans : (a b c : Event V) → Precedes a b → Precedes b c → Precedes a c
    Precedes-trans a b c x y = record {
      below = Below-trans (some a.stamp) (some b.stamp) (some c.stamp) x.below y.below;
      smaller =
          less_of_ge num (get num (some a.stamp) c.node) (get num (some b.stamp) c.node)
            (get num (some c.stamp) c.node) (x.below c.node) y.smaller;
    }

    -- The sending of a message precedes its receipt.
    message_order : (i j : ℕ) (a b : Event V) → At i a → At j b → b.cause ≡ some i → Precedes a b
    message_order i j a b p q c =
        let s = h.stamped j b q in
        let (a', l, g, below) =
          sent-Below w.events j i s.base s.mixed b.cause s.base_valid s.source c in
        Below-mixed w.events j b s a (rw (At-unique i a a' p g) below)

    -- What happened before an event precedes it.
    pub HappensBefore-Precedes :
        {i j : ℕ} (a b : Event V) → HappensBefore w.events i j → At i a → At j b → Precedes a b
    HappensBefore-Precedes {i} {j} a b (same_node {a = a'} {b = b'} p' q' e l) p q =
        node_order (suc j) i j a b (omega arith) p q
          (ap (λ (x : Event V). x.node) (At-unique i a a' p p')
            ∙ e
            ∙ ap (λ (x : Event V). x.node) (At-unique j b' b q' q))
          l
    HappensBefore-Precedes {i} {j} a b (message {b = b'} q' c) p q =
        message_order i j a b p q (rw (At-unique j b b' q q') c)
    HappensBefore-Precedes a b (chain x y) p q =
        let (m, at_m) = HappensBefore-target x in
        Precedes-trans a m b (HappensBefore-Precedes a m x p at_m)
          (HappensBefore-Precedes m b y at_m q)
