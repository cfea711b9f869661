-- ===== src/Base/Order.antt =====
-- `<` on the native numbers is well founded, for strong induction.
use Prim.Native.Nat.{ℕ, zero, suc, ◌<◌}
use mathlib.Core.WellFounded.{Acc, WellFounded}
use native.Mathlib.Omega.{arith}

below-Acc : (k n : ℕ) → n < k → Acc ◌<◌ n
below-Acc zero n h = absurd (omega arith)
below-Acc (suc k) n h = Acc.intro n (λ m hm. below-Acc k m (omega arith))

pub lt_wf : WellFounded ◌<◌
lt_wf = record { apply = λ n. below-Acc (suc n) n (omega arith) }
