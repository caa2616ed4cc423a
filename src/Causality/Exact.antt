-- ===== src/Causality/Exact.antt =====
-- `Compare` on the stamps of two events answers exactly whether one happened before the other.
use causalclock.Base.{
  ℕ, zero, suc, ◌<◌, ltb, ltb→lt, str_eq, str_eq_iff, true, false, Option, none, some, ◌≡◌, ◌≢◌,
  ◌↔◌, refl, sym, ◌⊎◌, inl, inr, arith, Bool-cases,
}
use causalclock.Base.Slices.{get_elem?}
use causalclock.Causality.{Event, World, Run, HappensBefore, same_node, message, chain}
use causalclock.Causality.History.{IsHistory, Run-IsHistory}
use causalclock.Causality.Stamps.{Prior, first, last, Source}
use causalclock.Causality.Order.{stamp_step, node_order, At-unique, HappensBefore-Precedes}
use causalclock.Counter.{Counter, join, less_irrefl, less_of_ge}
use causalclock.Counters.Compare.{compare}
use causalclock.Counters.Comparison.{Comparison, before_cmp, concurrent_cmp, after_cmp, equal_cmp}
use causalclock.Counters.Defs.{Counters, get}
use causalclock.Counters.Order.Sound.{compare-eq_iff, compare-Related}
use causalclock.Counters.Reads.{get-merge}
use causalclock.Counters.Spec.{IsValid, Related}

module _ {V : Type 0} (num : Counter V) where
  open num use {origin, less}

  join-cases : (a b : V) → (join num a b ≡ a) ⊎ (join num a b ≡ b)
  unfolding join
  join-cases a b = elim (Bool-cases (less a b)) [ inl e ↦ inr (rw e) | inr e ↦ inl (rw e) ]

  module _ (w : World V) (h : IsHistory num w) where
    abbrev At : ℕ → Event V → Type 0
    At i a = get_elem? w.events i ≡ some a

    -- The event is that one, or happened before it.
    abbrev Known : ℕ → ℕ → Type 0
    Known i j = (i ≡ j) ⊎ HappensBefore w.events i j

    Known-then : (i m j : ℕ) → Known i m → HappensBefore w.events m j → HappensBefore w.events i j
    Known-then i m j (inl e) x = rw e x
    Known-then i m j (inr y) x = chain y x

    -- A stamp is above zero at its own node.
    own_positive :
        (i : ℕ) (a : Event V) → At i a → less origin (get num (some a.stamp) a.node) ≡ true
    own_positive i a p =
        let s = h.stamped i a p in
        less_of_ge num origin (get num (some s.mixed) a.node) (get num (some a.stamp) a.node)
          (s.mixed_valid.nonneg a.node) (stamp_step num w.events i a s)

    same_node-Known :
        (i j : ℕ) (a b : Event V)
        → At i a
        → At j b
        → a.node ≡ b.node
        → less (get num (some b.stamp) a.node) (get num (some a.stamp) a.node) ≡ false
        → Known i j
    same_node-Known i j a b p q e reach = elim (Bool-cases (ltb i j)) [
      | inl before ↦ inr (same_node p q e (ltb→lt i j before))
      | inr after ↦ elim (Bool-cases (ltb j i)) [
        | inl later ↦
            let x =
              node_order num w h (suc i) j i b a (omega arith) q p (sym e) (ltb→lt j i later) in
            absurd (cc (x.smaller, reach))
        | inr equal ↦ inl (ground arith)
      ]
    ]

    module _ (i j : ℕ) (a b : Event V) (p : At i a) (q : At j b)
        (earlier : (i' : ℕ) (a' : Event V)
          → i' < j
          → At i' a'
          → less (get num (some a'.stamp) a.node) (get num (some a.stamp) a.node) ≡ false
          → Known i i') where
      -- A map whose counter of the node reaches the stamp's.
      abbrev Reaches : Counters V → Type 0
      Reaches c = less (get num (some c) a.node) (get num (some a.stamp) a.node) ≡ false

      Prior-Known :
          (c : Counters V) → Prior num w.events j b.node c → Reaches c → HappensBefore w.events i j
      Prior-Known c (first none_yet empty) reach =
          absurd (cc (own_positive i a p, reach, empty a.node))
      Prior-Known c (last i' a' l' e' n' same between) reach =
          Known-then i i' j (earlier i' a' l' e' (rw (← same a.node) reach)) (same_node e' q n' l')

      Source-Known :
          (base mixed : Counters V) (cause : Option ℕ)
          → IsValid num (some base)
          → Prior num w.events j b.node base
          → Source num w.events j base cause mixed
          → b.cause ≡ cause
          → Reaches mixed
          → HappensBefore w.events i j
      Source-Known base mixed none v prior s c reach = Prior-Known base prior (rw s at reach)
      Source-Known base mixed (some m) v prior (x, l, g, sent, e) c reach =
          let both = rw (e, get-merge num base (some x.stamp) a.node v sent) at reach in
          elim (join-cases (get num (some base) a.node) (get num (some x.stamp) a.node)) [
            | inl left ↦ Prior-Known base prior (rw left at both)
            | inr right ↦ Known-then i m j (earlier m x l g (rw right at both)) (message q c)
          ]

      reaching-Known :
          less (get num (some b.stamp) a.node) (get num (some a.stamp) a.node) ≡ false → Known i j
      reaching-Known reach =
          let s = h.stamped j b q in
          elim (Bool-cases (str_eq b.node a.node)) [
            | inl same ↦ same_node-Known i j a b p q (sym ((str_eq_iff b.node a.node).0 same)) reach
            | inr apart ↦ inr (
                Source-Known s.base s.mixed b.cause s.base_valid s.prior s.source refl
                  (rw (s.stamp_get a.node, apart) at reach))
          ]

    -- An event whose stamp reaches that of another at the other's node knows of it.
    Known-of_reach :
        (n i j : ℕ) (a b : Event V)
        → j < n
        → At i a
        → At j b
        → less (get num (some b.stamp) a.node) (get num (some a.stamp) a.node) ≡ false
        → Known i j
    Known-of_reach zero i j a b l p q reach = absurd (omega arith)
    Known-of_reach (suc n) i j a b l p q reach =
        reaching-Known i j a b p q
          (λ i' a' l' p' reach'. Known-of_reach n i i' a a' (omega arith) p p' reach') reach

  unknown :
      (w : World V) (h : IsHistory num w) (i j : ℕ)
      → i ≢ j
      → ¬ HappensBefore w.events i j
      → ¬ Known w h i j
  unknown w h i j apart nb (inl e) = apart e
  unknown w h i j apart nb (inr x) = nb x

  -- In every run, and for any two of its events, `compare` answers that the stamp of one is before
  -- the stamp of the other exactly when the one event happened before the other.
  pub compare-HappensBefore :
      (w : World V) (i j : ℕ) (a b : Event V)
      → Run num w
      → get_elem? w.events i ≡ some a
      → get_elem? w.events j ≡ some b
      → (compare num (some a.stamp) (some b.stamp) ≡ before_cmp) ↔ HappensBefore w.events i j
  compare-HappensBefore w i j a b r p q =
      let h = Run-IsHistory num w r in
      let sa = h.stamped i a p in
      let sb = h.stamped j b q in
      let exact =
        compare-eq_iff num (some a.stamp) (some b.stamp) before_cmp sa.stamp_valid sb.stamp_valid in
      (
        λ e.
            let (below, (k, exceeds)) = exact.0 e in
            elim (Known-of_reach w h (suc j) i j a b (omega arith) p q (below a.node)) [
              | inl same ↦
                  let event = At-unique num w h j a b (rw (← same) p) q in
                  absurd (cc (exceeds, event, less_irrefl num (get num (some a.stamp) k)))
              | inr x ↦ x
            ],
        λ x.
            let y = HappensBefore-Precedes num w h a b x p q in
            exact.1 (y.below, (b.node, y.smaller)),
      )

  -- Events that do not know of each other have stamps of which neither is at most the other.
  unrelated :
      (w : World V) (i j : ℕ) (a b : Event V)
      → IsHistory num w
      → get_elem? w.events i ≡ some a
      → get_elem? w.events j ≡ some b
      → i ≢ j
      → ¬ HappensBefore w.events i j
      → ¬ HappensBefore w.events j i
      → (r : Comparison) → Related num (some a.stamp) (some b.stamp) r
      → r ≡ concurrent_cmp
  unrelated w i j a b h p q apart nb na concurrent_cmp x = refl
  unrelated w i j a b h p q apart nb na before_cmp x =
      absurd (
        unknown w h i j apart nb
          (Known-of_reach w h (suc j) i j a b (omega arith) p q (x.0 a.node)))
  unrelated w i j a b h p q apart nb na after_cmp x = absurd (
      unknown w h j i (λ e. apart (sym e)) na
        (Known-of_reach w h (suc i) j i b a (omega arith) q p (x.0 b.node)))
  unrelated w i j a b h p q apart nb na equal_cmp x = absurd (
      unknown w h i j apart nb (
        Known-of_reach w h (suc j) i j a b (omega arith) p q
          (rw (x a.node) (less_irrefl num (get num (some b.stamp) a.node)))))

  -- In every run, two events have concurrent stamps exactly when they are two and neither happened
  -- before the other.
  pub compare-concurrent :
      (w : World V) (i j : ℕ) (a b : Event V)
      → Run num w
      → get_elem? w.events i ≡ some a
      → get_elem? w.events j ≡ some b
      → (compare num (some a.stamp) (some b.stamp) ≡ concurrent_cmp)
        ↔ ((i ≢ j) × (¬ HappensBefore w.events i j) × (¬ HappensBefore w.events j i))
  compare-concurrent w i j a b r p q =
      let h = Run-IsHistory num w r in
      let related =
        compare-Related num (some a.stamp) (some b.stamp) (h.stamped i a p).stamp_valid
          (h.stamped j b q).stamp_valid in
      (
        λ e.
            let ((k, more), (l, less')) = rw e at related in
            (
              λ same.
                  let event = At-unique num w h j a b (rw (← same) p) q in
                  cc (more, event, less_irrefl num (get num (some a.stamp) k)),
              λ x. cc ((HappensBefore-Precedes num w h a b x p q).below k, more),
              λ x. cc ((HappensBefore-Precedes num w h b a x q p).below l, less'),
            ),
        λ (apart, not_before, not_after).
            unrelated w i j a b h p q apart not_before not_after
              (compare num (some a.stamp) (some b.stamp)) related,
      )
