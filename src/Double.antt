-- ===== src/Double.antt =====
-- What the driver uses of `double`: C++ floating point is not code of this repository, so its type
-- and its operations are a parameter. `lit n k` is the literal n * 10^-k.
use native.Mathlib.Nat.{mul-le-mul_left}
use kinova_gen3_driver.Prelude.{
  ℕ, zero, suc, ◌-◌, ◌*◌, ◌^◌, ◌≤◌, ◌≡◌, refl, ap, arith, String, Bool, true, false, Option, none,
  some, if◌then◌else◌, is_some,
}
use kinova_gen3_driver.Prelude.Int.{ℤ, pos, ◌+ℤ◌, ◌-ℤ◌, scaled_mul, scaled_div, abs_ℤ, ltb_ℤ, leb_ℤ}

pub record Double (R : Type 0) : Type 0 where
  pub lit : ℕ → ℕ → R
  pub pi : R
  pub add : R → R → R
  pub sub : R → R → R
  pub mul : R → R → R
  pub div : R → R → R
  pub abs : R → R
  pub lt : R → R → Bool
  pub le : R → R → Bool
  pub is_finite : R → Bool
  pub infinity : R
  -- `float(x)`, the rounding to single precision, as a value of the same type.
  pub to_float : R → R
  -- The text that `std::to_string` or a stream gives.
  pub show : R → String

module _ {R : Type 0} ⦃d : Double R⦄ where
  infixl 65 ◌+ᵈ◌ ◌-ᵈ◌
  infixl 70 ◌*ᵈ◌ ◌/ᵈ◌
  infix 50 ◌<ᵈ◌ ◌≤ᵈ◌
  abbrev pub ◌+ᵈ◌ : R → R → R
  ◌+ᵈ◌ = d.add

  abbrev pub ◌-ᵈ◌ : R → R → R
  ◌-ᵈ◌ = d.sub

  abbrev pub ◌*ᵈ◌ : R → R → R
  ◌*ᵈ◌ = d.mul

  abbrev pub ◌/ᵈ◌ : R → R → R
  ◌/ᵈ◌ = d.div

  abbrev pub ◌<ᵈ◌ : R → R → Bool
  ◌<ᵈ◌ = d.lt

  abbrev pub ◌≤ᵈ◌ : R → R → Bool
  ◌≤ᵈ◌ = d.le

  -- The literals 0.0 and 1.0.
  abbrev pub nought : R
  nought = d.lit 0 0

  abbrev pub one : R
  one = d.lit 1 0

  -- `std::min`, `std::max` and `std::clamp`, by their documented comparisons.
  abbrev pub min_d : R → R → R
  min_d a b = if b <ᵈ a then b else a

  abbrev pub max_d : R → R → R
  max_d a b = if a <ᵈ b then b else a

  abbrev pub clamp_d : R → R → R → R
  clamp_d v lo hi = if v <ᵈ lo then lo else if hi <ᵈ v then hi else v

-- The laws of the order that some theorems use. NaN compares false with everything.
pub record IsOrdered {R : Type 0} (d : Double R) : Type 0 where
  pub le_of_not_lt :
      (x y : R) → d.is_finite x ≡ true → d.is_finite y ≡ true → d.lt x y ≡ false → d.le y x ≡ true
  pub le_of_lt : (x y : R) → d.lt x y ≡ true → d.le x y ≡ true
  pub not-lt_of_le : (x y : R) → d.le x y ≡ true → d.lt y x ≡ false
  pub le_trans : (x y z : R) → d.le x y ≡ true → d.le y z ≡ true → d.le x z ≡ true
  pub lit_finite : (n k : ℕ) → d.is_finite (d.lit n k) ≡ true
  pub lit_le :
      (m j n k : ℕ) → j ≤ 9 → k ≤ 9 → m * 10 ^ k ≤ n * 10 ^ j → d.le (d.lit m j) (d.lit n k) ≡ true
  pub le_refl : (x : R) → d.is_finite x ≡ true → d.le x x ≡ true

module _ {R : Type 0} ⦃d : Double R⦄ where
  -- `std::clamp` of finite numbers lands between its bounds when these are in order.
  pub clamp_range :
      (o : IsOrdered d) (v lo hi : R)
      → d.is_finite v ≡ true
      → d.is_finite lo ≡ true
      → d.is_finite hi ≡ true
      → (lo ≤ᵈ hi) ≡ true
      → ((lo ≤ᵈ clamp_d v lo hi) ≡ true) × ((clamp_d v lo hi ≤ᵈ hi) ≡ true)
  clamp_range o v lo hi f l h b =
      ground
        (arith, o.le_refl lo l, o.le_refl hi h, o.le_of_not_lt v lo f l, o.le_of_not_lt hi v h f)

-- A concrete `Double`: whole billionths, with `none` for NaN.
abbrev pub Nano : Type 0
Nano = Option ℤ

abbrev pub scale : ℕ
scale = 10 ^ 9

abbrev pub lift : (ℤ → ℤ → ℤ) → Nano → Nano → Nano
lift f (some a) (some b) = some (f a b)
lift f _ _ = none

abbrev pub compare_by : (ℤ → ℤ → Bool) → Nano → Nano → Bool
compare_by f (some a) (some b) = f a b
compare_by f _ _ = false

abbrev pub nano_abs : Nano → Nano
nano_abs none = none
nano_abs (some a) = some (abs_ℤ a)

instance abbrev pub nano : Double Nano
nano = record {
  lit = λ n k. some (pos (n * 10 ^ (9 - k)));
  pi = some (pos 3141592654);
  add = lift ◌+ℤ◌;
  sub = lift ◌-ℤ◌;
  mul = lift (scaled_mul scale);
  div = lift (scaled_div scale);
  abs = nano_abs;
  lt = compare_by ltb_ℤ;
  le = compare_by leb_ℤ;
  is_finite = is_some;
  infinity = some (pos (10 ^ 30));
  to_float = λ x. x;
  show = λ x. "?";
}

power_split : (j : ℕ) → j ≤ 9 → 10 ^ (9 - j) * 10 ^ j ≡ 10 ^ 9
power_split zero h = refl
power_split (suc zero) h = refl
power_split (suc (suc zero)) h = refl
power_split (suc (suc (suc zero))) h = refl
power_split (suc (suc (suc (suc zero)))) h = refl
power_split (suc (suc (suc (suc (suc zero))))) h = refl
power_split (suc (suc (suc (suc (suc (suc zero)))))) h = refl
power_split (suc (suc (suc (suc (suc (suc (suc zero))))))) h = refl
power_split (suc (suc (suc (suc (suc (suc (suc (suc zero)))))))) h = refl
power_split (suc (suc (suc (suc (suc (suc (suc (suc (suc zero))))))))) h = refl
power_split (suc (suc (suc (suc (suc (suc (suc (suc (suc (suc n)))))))))) h = absurd (omega arith)

-- With a * b and c * e the same positive number, m * e ≤ n * b gives m * a ≤ n * c.
cross_mono : (m n a b c e : ℕ) → a * b ≡ 10 ^ 9 → c * e ≡ 10 ^ 9 → m * e ≤ n * b → m * a ≤ n * c
cross_mono m n a b c e u v h =
    omega
      (arith, mul-le-mul_left (a * c) h, ap (λ (t : ℕ). m * a * t) v, ap (λ (t : ℕ). n * c * t) u)

lit_mono :
    (m j n k : ℕ) → j ≤ 9 → k ≤ 9 → m * 10 ^ k ≤ n * 10 ^ j → m * 10 ^ (9 - j) ≤ n * 10 ^ (9 - k)
lit_mono m j n k p q h =
    cross_mono m n (10 ^ (9 - j)) (10 ^ j) (10 ^ (9 - k)) (10 ^ k) (power_split j p)
      (power_split k q) h

pub nano-IsOrdered : IsOrdered nano
nano-IsOrdered = record {
  le_of_not_lt = λ x y. ground arith;
  le_of_lt = λ x y. ground arith;
  not-lt_of_le = λ x y. ground arith;
  le_trans = λ x y z. ground arith;
  lit_finite = λ n k. ground arith;
  lit_le = λ m j n k p q h. ground (arith, lit_mono m j n k p q h);
  le_refl = λ x. ground arith;
}
