-- ===== src/Common/Table.antt =====
-- Over a small range, every value is checked by evaluation.
use Prim.Native.Nat.{ℕ, zero, suc, ◌<◌}
use mathlib.Core.Path.{◌≡◌}
use mathlib.Core.Bool.{Bool, true, ◌&&◌}
use native.Mathlib.Omega.{arith}

module _ (test : ℕ → Bool) where
  -- The test holds at every number below the bound.
  unfoldable pub holds_below : ℕ → Bool
  holds_below zero = true
  holds_below (suc bound) = holds_below bound && test bound

  pub holds_below-at : (bound k : ℕ) → k < bound → holds_below bound ≡ true → test k ≡ true
  unfolding holds_below
  holds_below-at zero k small held = absurd (omega arith)
  holds_below-at (suc bound) k small held = ground (arith, holds_below-at bound k)
