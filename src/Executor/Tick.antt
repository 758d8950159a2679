-- ===== src/Executor/Tick.antt =====
-- What one tick of the executor reports and leaves behind, and when a goal ends.
use kinova_gen3_driver.Prelude.{
  ◌≡◌, true, false, not, ◌&&◌, none, some, List, [], ◌∷◌, arith, is_some, if◌then◌else◌, ℕ, All,
}
use kinova_gen3_driver.Double.{Double, ◌-ᵈ◌, ◌<ᵈ◌, ◌≤ᵈ◌, nought}
use kinova_gen3_driver.Types.{
  Joint, JointVec, joints, every_joint, successful, path_tolerance_violated,
}
use kinova_gen3_driver.Units.{wrap_to_pi}
use kinova_gen3_driver.Executor.{
  Executor, Active, tick, tick_active, any_diverges, diverges, is_active, advance, reference_at,
  effective_scale,
}
use kinova_gen3_driver.Executor.Sample.{duration}

module _ {R : Type 0} ⦃d : Double R⦄ (fuel : ℕ) where
  -- The distance that the guard measures: folded by whole turns on a continuous joint only.
  abbrev pub deviation : Executor R → JointVec R → JointVec R → Joint → R
  deviation x q_meas q_ref i =
      let raw = q_meas i -ᵈ q_ref i in d.abs (if x.continuous i then wrap_to_pi fuel raw else raw)

  abbrev pub Tracks : Executor R → JointVec R → JointVec R → Joint → Type 0
  Tracks x q_meas q_ref i =
      ((nought <ᵈ x.path_tol i) && (x.path_tol i <ᵈ deviation x q_meas q_ref i)) ≡ false

  Tracks-All :
      (x : Executor R) (q_meas q_ref : JointVec R) (is : List Joint)
      → any_diverges fuel x q_meas q_ref is ≡ false
      → All (Tracks x q_meas q_ref) is
  unfolding any_diverges diverges
  Tracks-All x q_meas q_ref [] e = tt
  Tracks-All x q_meas q_ref (i ∷ is) e = (ground arith, Tracks-All x q_meas q_ref is (ground arith))

  -- While a goal keeps running, no joint with a tolerance was further than it from the reference
  -- that this tick wrote, and the goal's clock has not reached its duration.
  pub tick_running :
      (now : R) (q_meas : JointVec R) (speed : R) (a : Active R) (x : Executor R)
      → x.active ≡ some a
      → (tick fuel now q_meas speed x).0.active ≡ true
      → let a' = advance now (effective_scale x.scale speed) a in
        let ref = reference_at (effective_scale x.scale speed) a' in
        ((i : Joint) → Tracks x q_meas ref.q i)
        × ((duration a'.plan ≤ᵈ a'.traj_t) ≡ false)
        × ((tick fuel now q_meas speed x).1 ≡ some ref)
        × ((tick fuel now q_meas speed x).2.active ≡ some a')
  unfolding tick tick_active
  tick_running now q_meas speed a x e r =
      let a' = advance now (effective_scale x.scale speed) a in
      let ref = reference_at (effective_scale x.scale speed) a' in
      (
        every_joint (Tracks x q_meas ref.q) (Tracks-All x q_meas ref.q joints (ground arith)),
        ground arith,
        ground arith,
        ground arith,
      )

  -- On every branch the status agrees with the state: `active` says whether a goal is still held,
  -- `completed` whether one was and no longer is, a violated tolerance is reported only for a goal
  -- that ends, and an idle executor is left exactly as it was and writes nothing.
  pub tick_status :
      (now : R) (q_meas : JointVec R) (speed : R) (x : Executor R)
      → let (st, written, y) = tick fuel now q_meas speed x in
        (st.active ≡ is_active y)
        × (st.completed ≡ (is_active x && not (is_active y)))
        × (is_some written ≡ is_active x)
        × ((if is_active x then x else y) ≡ x)
        × (y.mode ≡ x.mode)
        × (y.path_tol ≡ x.path_tol)
  unfolding tick tick_active
  tick_status now q_meas speed x = ground arith

  -- A goal whose clock reaches its duration ends in this very tick, whatever the arm does: with
  -- success if no joint diverged from the last reference, else with the violated tolerance.
  tick_ends :
      (now : R) (q_meas : JointVec R) (speed : R) (a : Active R) (x : Executor R)
      → x.active ≡ some a
      → let a' = advance now (effective_scale x.scale speed) a in
        let ref = reference_at (effective_scale x.scale speed) a' in
        (duration a'.plan ≤ᵈ a'.traj_t) ≡ true
        → let r = tick fuel now q_meas speed x in
          (r.0.completed ≡ true)
          × (r.2.active ≡ none)
          × (r.0.error_code ≡ (
              if any_diverges fuel x q_meas
                (reference_at
                  (effective_scale x.scale speed)
                  (advance now (effective_scale x.scale speed) a)).q
                joints
              then path_tolerance_violated
              else successful))
  unfolding tick tick_active
  tick_ends now q_meas speed a x e h = ground arith
