-- ===== src/Units.antt =====
-- include/kinova_lowlevel/units.h: `wrap_to_pi`, two loops on fuel. With the fuel spent the value so
-- far is returned, which the source, whose loops are unbounded, does not do; `wrap_to_pi_bounds` says
-- for which angles and fuel the loops end by their tests.
use kinova_gen3_driver.Prelude.{
  ℕ, zero, suc, ◌≤◌, ◌<◌, ◌≡◌, Bool, true, false, arith, Bool-cases, inl, inr,
}
use kinova_gen3_driver.Double.{Double, ◌+ᵈ◌, ◌-ᵈ◌, ◌*ᵈ◌, ◌<ᵈ◌, ◌≤ᵈ◌, nought}

module _ {R : Type 0} ⦃d : Double R⦄ where
  abbrev pub turn : R
  turn = d.lit 2 0 *ᵈ d.pi

  abbrev pub minus_pi : R
  minus_pi = nought -ᵈ d.pi

  -- while (a > M_PI) a -= 2.0 * M_PI;
  unfoldable pub wrap_down : ℕ → R → R
  wrap_down zero a = a
  wrap_down (suc f) a = elim (d.pi <ᵈ a) [ true ↦ wrap_down f (a -ᵈ turn) | false ↦ a ]

  -- while (a <= -M_PI) a += 2.0 * M_PI;
  unfoldable pub wrap_up : ℕ → R → R
  wrap_up zero a = a
  wrap_up (suc f) a = elim (a ≤ᵈ minus_pi) [ true ↦ wrap_up f (a +ᵈ turn) | false ↦ a ]

  unfoldable pub wrap_to_pi : ℕ → R → R
  wrap_to_pi fuel a = wrap_up fuel (wrap_down fuel a)

  -- What the loops rely on, of the angles in `near`: a round stays in it, `turns` falls in each round,
  -- and a turn up from -pi or below does not pass pi. It holds of `double` for the angles below 2^50 in
  -- absolute value, where a turn is not lost to rounding; of the angles above 2^54 and the infinities,
  -- on which the loops of the source do not end, it says nothing.
  pub record Turns (near : R → Bool) (turns : R → ℕ) : Type 0 where
    pub down :
        (a : R)
        → near a ≡ true
        → (d.pi <ᵈ a) ≡ true
        → (near (a -ᵈ turn) ≡ true) × (turns (a -ᵈ turn) < turns a)
    pub up :
        (a : R)
        → near a ≡ true
        → (a ≤ᵈ minus_pi) ≡ true
        → (near (a +ᵈ turn) ≡ true) × (turns (a +ᵈ turn) < turns a)
    pub up_below : (a : R) → near a ≡ true → (a ≤ᵈ minus_pi) ≡ true → (d.pi <ᵈ (a +ᵈ turn)) ≡ false

  module _ (near : R → Bool) (turns : R → ℕ) (t : Turns near turns) where
    wrap_down-le :
        (f : ℕ) (a : R)
        → near a ≡ true
        → turns a < f
        → ((d.pi <ᵈ wrap_down f a) ≡ false)
          × (near (wrap_down f a) ≡ true)
          × (turns (wrap_down f a) ≤ turns a)
    unfolding wrap_down
    wrap_down-le zero a n h = elim h [ ]
    wrap_down-le (suc f) a n h = elim (Bool-cases (d.pi <ᵈ a)) [
      | inl more ↦
          let fall = t.down a n more in
          rw (more, wrap_down) (ground (arith, wrap_down-le f (a -ᵈ turn)))
      | inr done ↦ rw (done, wrap_down) (done, n, omega arith)
    ]

    wrap_up-le :
        (f : ℕ) (a : R)
        → near a ≡ true
        → turns a < f
        → (d.pi <ᵈ a) ≡ false
        → ((d.pi <ᵈ wrap_up f a) ≡ false) × ((wrap_up f a ≤ᵈ minus_pi) ≡ false)
    unfolding wrap_up
    wrap_up-le zero a n h b = elim h [ ]
    wrap_up-le (suc f) a n h b = elim (Bool-cases (a ≤ᵈ minus_pi)) [
      | inl more ↦
          let fall = t.up a n more in
          rw (more, wrap_up) (ground (arith, wrap_up-le f (a +ᵈ turn), t.up_below a n more))
      | inr done ↦ rw (done, wrap_up) (b, done)
    ]

    -- From an angle in the range where a round makes progress, with fuel for its turns, the loops end by
    -- their tests: the angle is neither above pi nor at or below -pi.
    pub wrap_to_pi_bounds :
        (f : ℕ) (a : R)
        → near a ≡ true
        → turns a < f
        → ((d.pi <ᵈ wrap_to_pi f a) ≡ false) × ((wrap_to_pi f a ≤ᵈ minus_pi) ≡ false)
    unfolding wrap_to_pi
    wrap_to_pi_bounds f a n h =
        let (below, kept, fewer) = wrap_down-le f a n h in
        wrap_up-le f (wrap_down f a) kept (omega arith) below
