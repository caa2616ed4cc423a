-- ===== src/Counters/Order/Loop.antt =====
-- The loop of `Compare` answers from two facts: whether some counter of the first side is
-- greater, and whether some counter of the second side is.
use causalclock.Base.{
  Str, Bool, true, false, List, [], ◌∷◌, any, keys, value_at, ◌||◌, ◌&&◌, ◌≡◌, arith, Bool-cases,
  inl, inr,
}
use causalclock.Counter.{Counter, less_irrefl}
use causalclock.Counters.Comparison.{classify}
use causalclock.Counters.Compare.{all_nodes, compare_loop}
use causalclock.Counters.Members.{has, value_at_of_has-false, any_none}

module _ {V : Type 0} (num : Counter V) where
  open num use {origin, less}

  -- The first side is greater at the key.
  abbrev pub exceeds_at : List (Str × V) → List (Str × V) → Str → Bool
  exceeds_at m n k = less (value_at origin k n) (value_at origin k m)

  -- The first side is greater somewhere among the keys of both.
  abbrev pub exceeds : List (Str × V) → List (Str × V) → Bool
  exceeds m n = any (exceeds_at m n) (all_nodes m n)

  pub compare_loop-classify :
      (m n : List (Str × V)) (ks : List Str) (g l : Bool)
      → (g && l) ≡ false
      → compare_loop num m n ks g l
        ≡ classify (g || any (exceeds_at m n) ks) (l || any (exceeds_at n m) ks)
  unfolding compare_loop classify
  compare_loop-classify m n [] g l h = ground arith
  compare_loop-classify m n (k ∷ ks) g l h = ground (
    arith,
    num.less_asym (value_at origin k n) (value_at origin k m),
    compare_loop-classify m n ks true l,
    compare_loop-classify m n ks g true,
    compare_loop-classify m n ks g l,
  )

  -- Nowhere greater among the keys of both sides is nowhere greater at all.
  pub exceeds-false :
      (m n : List (Str × V)) (ks : List Str)
      → ((k : Str) → has k ks ≡ (has k (keys n) || has k (keys m)))
      → any (exceeds_at m n) ks ≡ false
      → (k : Str) → exceeds_at m n k ≡ false
  exceeds-false m n ks cover h k = elim (Bool-cases (has k ks)) [
    | inl e ↦ any_none (exceeds_at m n) ks k h e
    | inr e ↦ ground (
      arith,
      cover k,
      value_at_of_has-false origin k m,
      value_at_of_has-false origin k n,
      less_irrefl num origin,
    )
  ]
