-- ===== src/Modes/Float.antt =====
-- src/float_mode.cpp: gravity compensation with damping and a spring to an anchor that trails the
-- measured joints by at most a band. `gravity` is `Dynamics::gravity`; `fuel` bounds the loops of
-- `wrap_to_pi`.
use kinova_gen3_driver.Prelude.{
  ℕ, ◌≡◌, Bool, true, not, ◌&&◌, Option, none, some, List, [], ◌∷◌, if◌then◌else◌,
}
use kinova_gen3_driver.Double.{
  Double, IsOrdered, ◌+ᵈ◌, ◌-ᵈ◌, ◌*ᵈ◌, ◌<ᵈ◌, ◌≤ᵈ◌, nought, clamp_d, clamp_range,
}
use kinova_gen3_driver.Types.{Joint, joints, JointVec, JointFeedback, JointCommand, torque_actuator}
use kinova_gen3_driver.Units.{wrap_to_pi}
use kinova_gen3_driver.Modes.{JointLimits, continuous}

pub record FloatParams (R : Type 0) : Type 0 where
  pub damping : JointVec R
  pub spring : JointVec R
  pub drag_band_rad : R
  pub torque_limit : JointVec R

pub record FloatMode (R : Type 0) : Type 0 where
  pub p : FloatParams R
  pub urdf : JointLimits R
  pub anchor : JointVec R

-- Every joint of a list passes a test.
abbrev pub all_joints : (Joint → Bool) → List Joint → Bool
all_joints t [] = true
all_joints t (i ∷ is) = let rest = all_joints t is in t i && rest

module _ {R : Type 0} ⦃d : Double R⦄ where
  abbrev pub is_nonneg : R → Bool
  is_nonneg x = d.is_finite x && not (x <ᵈ nought)

  abbrev pub is_positive : R → Bool
  is_positive x = d.is_finite x && not (x ≤ᵈ nought)

  -- The constructor; `none` is the throw.
  unfoldable pub new_float_mode : FloatParams R → JointLimits R → Option (FloatMode R)
  new_float_mode p u =
      if not (all_joints (λ i. is_nonneg (p.damping i)) joints)
      then none
      else if not (all_joints (λ i. is_nonneg (p.spring i)) joints)
      then none
      else if not (is_positive p.drag_band_rad)
      then none
      else if not (all_joints (λ i. is_positive (p.torque_limit i)) joints)
      then none
      else some (record { p = p; urdf = u; anchor = λ _. nought })

  unfoldable pub enter_float : JointFeedback R → FloatMode R → FloatMode R
  enter_float fb m = record m { anchor = fb.q }

  -- One joint of the anchor loop: the error and the new anchor.
  unfoldable pub drag : ℕ → R → Bool → R → R → R × R
  drag fuel band free q anchor =
      let raw = q -ᵈ anchor in
      let err = if free then wrap_to_pi fuel raw else raw in
      let moved : R × R =
        if band <ᵈ err
        then (band, q -ᵈ band)
        else if err <ᵈ (nought -ᵈ band)
        then (nought -ᵈ band, q +ᵈ band)
        else (err, anchor) in
      (moved.0, if free then wrap_to_pi fuel moved.1 else moved.1)

  unfoldable pub float_torque :
      (JointVec R → JointVec R) → ℕ → JointFeedback R → FloatMode R → JointVec R
  float_torque gravity fuel fb m i =
      let err = (drag fuel m.p.drag_band_rad (continuous m.urdf i) (fb.q i) (m.anchor i)).0 in
      clamp_d (gravity fb.q i -ᵈ m.p.damping i *ᵈ fb.qd i -ᵈ m.p.spring i *ᵈ err)
        (nought -ᵈ m.p.torque_limit i) (m.p.torque_limit i)

  unfoldable pub compute_float :
      (JointVec R → JointVec R)
      → ℕ
      → JointFeedback R
      → JointCommand R
      → FloatMode R
      → JointCommand R × FloatMode R
  compute_float gravity fuel fb out m = (
    record out { mode = torque_actuator; torque = float_torque gravity fuel fb m; position = fb.q },
    record m {
      anchor = λ i. (drag fuel m.p.drag_band_rad (continuous m.urdf i) (fb.q i) (m.anchor i)).1;
    },
  )

  -- The torque of a joint is within its limit, as long as the sum of its terms and the limit are finite
  -- and the limit is not negative.
  pub compute_float_bounds :
      (o : IsOrdered d) (gravity : JointVec R → JointVec R) (fuel : ℕ) (fb : JointFeedback R)
      (out : JointCommand R) (m : FloatMode R) (i : Joint)
      → let limit = m.p.torque_limit i in
        let err = (drag fuel m.p.drag_band_rad (continuous m.urdf i) (fb.q i) (m.anchor i)).0 in
        d.is_finite (gravity fb.q i -ᵈ m.p.damping i *ᵈ fb.qd i -ᵈ m.p.spring i *ᵈ err) ≡ true
        → d.is_finite limit ≡ true
        → d.is_finite (nought -ᵈ limit) ≡ true
        → ((nought -ᵈ limit) ≤ᵈ limit) ≡ true
        → let tau = (compute_float gravity fuel fb out m).0.torque i in
          (((nought -ᵈ limit) ≤ᵈ tau) ≡ true) × ((tau ≤ᵈ limit) ≡ true)
  unfolding compute_float float_torque
  compute_float_bounds o gravity fuel fb out m i f g h l = clamp_range o _ _ _ f h g l
