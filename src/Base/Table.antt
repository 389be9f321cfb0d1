-- ===== src/Base/Table.antt =====
-- Functions on small numbers compared by trying them.
use Prim.Native.Nat.{ℕ, zero, suc, ◌<◌}
use mathlib.Core.Path.{◌≡◌}
use mathlib.Core.Bool.{Bool, true, ◌&&◌}
use native.Mathlib.Omega.{arith}
use cert_yjs.Base.Tests.{◌==◌}

-- Two functions agree on all numbers below a bound.
unfoldable pub same_to : (ℕ → ℕ) → (ℕ → ℕ) → ℕ → Bool
same_to f g zero = true
same_to f g (suc n) = f n == g n && same_to f g n

pub same_to-at : (f g : ℕ → ℕ) (n : ℕ) → same_to f g n ≡ true → (i : ℕ) → i < n → f i ≡ g i
unfolding same_to
same_to-at f g zero e i b = absurd (omega arith)
same_to-at f g (suc n) e i b = ground (arith, same_to-at f g n (ground arith) i)
