-- ===== src/Base/Table.antt =====
-- A fact about the small numbers, from an evaluation at each of them.
use Prim.Native.Nat.{ℕ, zero, suc, ◌<◌}
use mathlib.Core.Path.{◌≡◌}
use mathlib.Core.Bool.{Bool, true, ◌&&◌}
use native.Mathlib.Omega.{arith}

unfoldable pub holds_below : (ℕ → Bool) → ℕ → Bool
holds_below p zero = true
holds_below p (suc n) = p n && holds_below p n

pub holds_below_at : (p : ℕ → Bool) (n : ℕ) → holds_below p n ≡ true → (i : ℕ) → i < n → p i ≡ true
unfolding holds_below
holds_below_at p zero e i h = absurd (omega arith)
holds_below_at p (suc n) e i h = ground (arith, holds_below_at p n (ground arith) i)
