-- ===== src/Counter/Laws.antt =====
-- The interface of a counter type, and the order that its test defines.
use causalclock.Base.{
  ◌≡◌, ◌≢◌, ◌↔◌, Bool, true, false, Str, Bool-cases, inl, inr, arith, if◌then◌else◌,
}

pub record Counter (V : Type 0) : Type 0 where
  -- The zero value, which a missing map entry reads as.
  pub origin : V
  -- The largest value, from which `++` wraps round.
  pub top : V
  -- `v++` on a value of the machine type.
  pub inc : V → V
  -- `a < b`
  pub less : V → V → Bool
  -- `v == 0`
  pub is_zero : V → Bool
  -- `%d`
  pub format : V → Str
  -- The values that the machine type holds.
  pub in_range : V → Bool
  pub less_asym : (a b : V) → less a b ≡ true → less b a ≡ false
  pub less_total : (a b : V) → less a b ≡ false → less b a ≡ false → a ≡ b
  pub ge_trans : (a b c : V) → less a b ≡ false → less b c ≡ false → less a c ≡ false
  pub is_zero_iff : (a : V) → (is_zero a ≡ true) ↔ (a ≡ origin)
  pub in_range-origin : in_range origin ≡ true
  pub in_range-inc : (a : V) → in_range a ≡ true → in_range (inc a) ≡ true
  pub less-inc : (a : V) → in_range a ≡ true → a ≢ top → less a (inc a) ≡ true

module _ {V : Type 0} (num : Counter V) where
  open num use {less}

  -- The larger of two values.
  unfoldable pub join : V → V → V
  join a b = if less a b then b else a

  pub less_irrefl : (a : V) → less a a ≡ false
  less_irrefl a = elim (Bool-cases (less a a)) [ inl e ↦ num.less_asym a a e | inr e ↦ e ]

  pub join-ge_left : (a b : V) → less (join a b) a ≡ false
  unfolding join
  join-ge_left a b = ground (arith, num.less_asym a b, less_irrefl a)

  pub join-ge_right : (a b : V) → less (join a b) b ≡ false
  unfolding join
  join-ge_right a b = ground (arith, less_irrefl b)

  pub join-least : (a b c : V) → less c a ≡ false → less c b ≡ false → less c (join a b) ≡ false
  unfolding join
  join-least a b c ha hb = ground arith

  pub join_idem : (a : V) → join a a ≡ a
  unfolding join
  join_idem a = ground arith

  pub join_absorb : (a b : V) → less a b ≡ false → join a b ≡ a
  unfolding join
  join_absorb a b h = ground arith

  -- Two values that bound each other are one.
  pub join_comm : (a b : V) → join a b ≡ join b a
  join_comm a b =
      num.less_total (join a b) (join b a)
        (join-least b a (join a b) (join-ge_right a b) (join-ge_left a b))
        (join-least a b (join b a) (join-ge_right b a) (join-ge_left b a))

  pub join_assoc : (a b c : V) → join (join a b) c ≡ join a (join b c)
  join_assoc a b c =
      let l = join (join a b) c in
      let r = join a (join b c) in
      let l_ab = join-ge_left (join a b) c in
      let r_bc = join-ge_right a (join b c) in
      num.less_total l r
        (join-least a (join b c) l (num.ge_trans l (join a b) a l_ab (join-ge_left a b)) (
          join-least b c l (num.ge_trans l (join a b) b l_ab (join-ge_right a b))
            (join-ge_right (join a b) c)))
        (join-least (join a b) c r
          (join-least a b r (join-ge_left a (join b c))
            (num.ge_trans r (join b c) b r_bc (join-ge_left b c)))
          (num.ge_trans r (join b c) c r_bc (join-ge_right b c)))

  -- A value above another one that is strictly above a third.
  pub less_of_ge : (a b c : V) → less b a ≡ false → less b c ≡ true → less a c ≡ true
  less_of_ge a b c h k = elim (Bool-cases (less a c)) [
    | inl e ↦ e
    | inr e ↦ ground (arith, num.ge_trans b a c h e)
  ]
