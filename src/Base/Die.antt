-- ===== src/Base/Die.antt =====
-- What a kernel routine ends in: a result, or `die(status)` of system/system.h, which masks the
-- interrupts and halts the processor, so that nothing of its caller runs afterwards.
use Prim.Native.Nat.{ℕ}

pub data Outcome {ℓ} (A : Type ℓ) : Type ℓ where
  done : A → Outcome A
  died : ℕ → Outcome A

abbrev pub status_nomem : ℕ
status_nomem = 0xBADB00B5

-- What runs after a routine that may end in `die`.
abbrev pub and_then {ℓ κ} : {A : Type ℓ} {B : Type κ} → Outcome A → (A → Outcome B) → Outcome B
and_then (done a) f = f a
and_then (died status) f = died status
