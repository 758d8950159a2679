-- ===== src/Watchdog.antt =====
-- include/kinova_lowlevel/command_watchdog.h: staleness of a single-writer command stream. The
-- writer's counter wraps at 2^64.
use kinova_gen3_driver.Prelude.{
  ℕ, zero, suc, ◌+◌, ◌<◌, ◌^◌, ◌≡◌, refl, Bool, true, false, ◌&&◌, arith, ◌==◌, u64, if◌then◌else◌,
  List, [], ◌∷◌,
}
use kinova_gen3_driver.Double.{Double, ◌+ᵈ◌, ◌<ᵈ◌, ◌≤ᵈ◌, nought}

pub record Watchdog (R : Type 0) : Type 0 where
  pub count : ℕ
  pub timeout_s : R
  pub last_seen : ℕ
  pub stale_s : R
  pub fresh : Bool

module _ {R : Type 0} ⦃d : Double R⦄ where
  unfoldable pub arm : R → Watchdog R → Watchdog R
  arm t w = record w { timeout_s = t }

  unfoldable pub bump : Watchdog R → Watchdog R
  bump w = record w { count = u64 (w.count + 1) }

  unfoldable pub reset : Watchdog R → Watchdog R
  reset w = record w { last_seen = w.count; stale_s = nought; fresh = false }

  -- The new state is computed first: `fresh_` and `stale_s_`.
  unfoldable pub observe : R → Watchdog R → Watchdog R
  observe dt w =
      if w.count == w.last_seen
      then record w { fresh = false; stale_s = w.stale_s +ᵈ dt }
      else record w { fresh = true; last_seen = w.count; stale_s = nought }

  unfoldable pub tick : R → Watchdog R → Bool × Watchdog R
  unfolding observe
  tick dt w =
      let w' = observe dt w in ((nought <ᵈ w'.timeout_s) && (w'.timeout_s ≤ᵈ w'.stale_s), w')

  unfoldable pub is_armed : Watchdog R → Bool
  is_armed w = nought <ᵈ w.timeout_s

  -- The stale time after quiet ticks: the sum of their steps, in order.
  abbrev pub quiet_sum : List R → R → R
  quiet_sum [] s = s
  quiet_sum (dt ∷ dts) s = quiet_sum dts (s +ᵈ dt)

  unfoldable pub ticks : List R → Watchdog R → Watchdog R
  unfolding tick
  ticks [] w = w
  ticks (dt ∷ dts) w = ticks dts (tick dt w).1

  abbrev pub repeat_bump : ℕ → Watchdog R → Watchdog R
  repeat_bump zero w = w
  repeat_bump (suc n) w = repeat_bump n (bump w)

  quiet :
      (dts : List R) (w : Watchdog R)
      → w.count ≡ w.last_seen
      → ((ticks dts w).stale_s ≡ quiet_sum dts w.stale_s)
        × ((ticks dts w).count ≡ (ticks dts w).last_seen)
        × ((ticks dts w).timeout_s ≡ w.timeout_s)
  unfolding ticks
  quiet [] w e = (refl, e, refl)
  quiet (dt ∷ dts) w e = ground (arith, quiet dts (tick dt w).1)

  -- From a reset, a stream that publishes nothing more is reported stale exactly when it is armed
  -- and the summed ticks have reached the timeout; a command sent before the reset is not fresh.
  pub quiet_stale :
      (dts : List R) (dt : R) (w : Watchdog R)
      → let r = tick dt (ticks dts (reset w)) in
        (r.0 ≡ ((nought <ᵈ w.timeout_s) && (w.timeout_s ≤ᵈ (quiet_sum dts nought +ᵈ dt))))
        × (r.1.fresh ≡ false)
  unfolding tick reset
  quiet_stale dts dt w = ground (arith, quiet dts (reset w) refl)

  repeat_bump-count :
      (n : ℕ) (w : Watchdog R)
      → (u64 (repeat_bump n w).count ≡ u64 (w.count + n))
        × ((repeat_bump n w).last_seen ≡ w.last_seen)
        × ((repeat_bump n w).timeout_s ≡ w.timeout_s)
  unfolding bump
  repeat_bump-count zero w = (ground arith, refl, refl)
  repeat_bump-count (suc n) w = ground (arith, repeat_bump-count n (bump w))

  -- Any number of commands from 1 to 2^64 - 1 since the last tick makes the next tick fresh, puts
  -- the stale time back at nought and catches the count up, in spite of the wrap of the counter.
  bump-fresh :
      (n : ℕ) (dt : R) (w : Watchdog R)
      → 0 < n
      → n < 2 ^ 64
      → w.count ≡ w.last_seen
      → w.count < 2 ^ 64
      → let r = tick dt (repeat_bump n w) in
        (r.1.fresh ≡ true) × (r.1.stale_s ≡ nought) × (r.1.last_seen ≡ r.1.count)
  unfolding tick
  bump-fresh n dt w p q e b = ground (arith, repeat_bump-count n w)
