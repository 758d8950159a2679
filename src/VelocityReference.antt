-- ===== src/VelocityReference.antt =====
-- include/kinova_lowlevel/velocity_reference.h: the leashed integration of a velocity command and the
-- cap on it. `fuel` bounds the loops of `wrap_to_pi`. (`TwistDlsSolver`, an Eigen decomposition, is a
-- parameter of its callers.)
use kinova_gen3_driver.Prelude.{
  ℕ, ◌≡◌, Bool, true, false, ◌&&◌, List, [], ◌∷◌, arith, if◌then◌else◌,
}
use kinova_gen3_driver.Double.{
  Double, IsOrdered, ◌+ᵈ◌, ◌-ᵈ◌, ◌*ᵈ◌, ◌/ᵈ◌, ◌<ᵈ◌, ◌≤ᵈ◌, nought, one, min_d, clamp_d, clamp_range,
}
use kinova_gen3_driver.Types.{Joint, joints, JointVec}
use kinova_gen3_driver.Units.{wrap_to_pi}

module _ {R : Type 0} ⦃d : Double R⦄ where
  abbrev pub velocity_ref_max_lead : R
  velocity_ref_max_lead = d.lit 1 1

  unfoldable pub integrate_leashed_reference :
      ℕ
      → JointVec R
      → JointVec R
      → R
      → JointVec R
      → R
      → (Joint → Bool)
      → JointVec R
      → JointVec R
      → JointVec R
  integrate_leashed_reference fuel q_ref qd dt q_meas max_lead continuous q_lower q_upper i =
      let advanced = q_ref i +ᵈ qd i *ᵈ dt in
      let raw = advanced -ᵈ q_meas i in
      let lead = if continuous i then wrap_to_pi fuel raw else raw in
      let leashed = q_meas i +ᵈ clamp_d lead (nought -ᵈ max_lead) max_lead in
      if continuous i then wrap_to_pi fuel leashed else clamp_d leashed (q_lower i) (q_upper i)

  -- The uniform scale: the smallest ratio of a cap to a command that exceeds it.
  unfoldable pub scale_down : JointVec R → JointVec R → List Joint → R → R
  scale_down v_max qd [] s = s
  scale_down v_max qd (i ∷ is) s =
      let a = d.abs (qd i) in
      scale_down v_max qd is (if (v_max i <ᵈ a) && (nought <ᵈ a) then min_d s (v_max i /ᵈ a) else s)

  unfoldable pub limit_joint_velocity : JointVec R → JointVec R → JointVec R
  limit_joint_velocity v_max qd i =
      clamp_d (qd i *ᵈ scale_down v_max qd joints one) (nought -ᵈ v_max i) (v_max i)

  module _ (o : IsOrdered d) where
    -- A bounded joint's reference never leaves its limits, and a limited command never exceeds its
    -- cap, as long as the numbers are finite and the limits and the cap are in order.
    pub reference_in_limits :
        (fuel : ℕ) (q_ref qd : JointVec R) (dt : R) (q_meas : JointVec R) (max_lead : R)
        (continuous : Joint → Bool) (q_lower q_upper : JointVec R) (i : Joint)
        → continuous i ≡ false
        → d.is_finite
            (q_meas i +ᵈ clamp_d (q_ref i +ᵈ qd i *ᵈ dt -ᵈ q_meas i) (nought -ᵈ max_lead) max_lead)
          ≡ true
        → d.is_finite (q_lower i) ≡ true
        → d.is_finite (q_upper i) ≡ true
        → (q_lower i ≤ᵈ q_upper i) ≡ true
        → let q =
            integrate_leashed_reference fuel q_ref qd dt q_meas max_lead continuous q_lower q_upper
              i in
          ((q_lower i ≤ᵈ q) ≡ true) × ((q ≤ᵈ q_upper i) ≡ true)
    unfolding integrate_leashed_reference
    reference_in_limits fuel q_ref qd dt q_meas max_lead continuous q_lower q_upper i c f l h b =
        ground (
          arith,
          clamp_range o
              (q_meas i
                +ᵈ clamp_d (q_ref i +ᵈ qd i *ᵈ dt -ᵈ q_meas i) (nought -ᵈ max_lead) max_lead)
              (q_lower i) (q_upper i) f l h b,
        )
