-- ===== src/Prelude/Arrays.antt =====
-- Arrays as functions of their index, and indices that go round a ring.
use Prim.Native.Nat.{ℕ, ◌+◌, ◌-◌, ◌%◌, ◌^◌, ◌<◌}
use native.Mathlib.Nat.{mod-add-mod, mod-eq_of_lt, mod-eq-sub-mod, mod-lt}
use mathlib.Core.Path.{◌≡◌}
use mathlib.Core.Logic.{inl, inr}
use mathlib.Core.Bool.{false}
use native.Mathlib.Omega.{arith}
use kinova_gen3_driver.Prelude.Tests.{ltb, ◌==◌, u64, if◌then◌else◌, Bool-cases}

abbrev pub set_at {ℓ} : {A : Type ℓ} → ℕ → A → (ℕ → A) → ℕ → A
set_at i a at j = if i == j then a else at j

-- Subtraction of `uint64_t`.
abbrev pub sub_u64 : ℕ → ℕ → ℕ
sub_u64 a b = u64 (a + 2 ^ 64 - b)

-- Two positions less than a whole round apart have different indices.
pub mod-apart : (w t d : ℕ) → 0 < d → d < w → ((t + d) % w == t % w) ≡ false
mod-apart w t d p q = elim (Bool-cases (ltb (t % w + d) w)) [
  | inl e ↦ ground (arith, mod-add-mod t w d, mod-eq_of_lt {n = t % w + d} {m = w} (ground arith))
  | inr e ↦ ground (
    arith,
    mod-lt t {m = w} (omega arith),
    mod-add-mod t w d,
    mod-eq-sub-mod {n = t % w + d} {m = w} (ground arith),
    mod-eq_of_lt {n = t % w + d - w} {m = w} (ground (arith, mod-lt t {m = w} (omega arith))),
  )
]
