-- ===== src/Gains/Bounds.antt =====
-- What `validate_custom` accepts, against the bounds of gains.h and the gravity floor.
use kinova_gen3_driver.Prelude.{◌≡◌, refl, ◌↔◌, true, false, none, List, [], ◌∷◌, arith, All}
use kinova_gen3_driver.Double.{Double, IsOrdered, ◌≤ᵈ◌}
use kinova_gen3_driver.Types.{
  Joint, j1, j2, j3, j4, j5, j6, j7, joints, every_joint, JointImpedanceGainValues,
}
use kinova_gen3_driver.Gains.{
  validate_custom, first_failure, joint_failure, out_of, zeta_min, zeta_max, kq_min, kq_max,
  torque_limit_floor, torque_limit_ceil,
}

module _ {R : Type 0} ⦃d : Double R⦄ where
  -- Finite, and between two bounds.
  abbrev pub InRange : R → R → R → Type 0
  InRange lo hi x = (d.is_finite x ≡ true) × ((lo ≤ᵈ x) ≡ true) × ((x ≤ᵈ hi) ≡ true)

  pub record IsWithin (g : JointImpedanceGainValues R) : Type 0 where
    pub zeta_in : InRange zeta_min zeta_max g.zeta
    pub kq_in : (i : Joint) → InRange kq_min kq_max (g.kq i)
    pub torque_limit_in :
        (i : Joint) → InRange (torque_limit_floor i) (torque_limit_ceil i) (g.torque_limit i)

  module _ (o : IsOrdered d) where
    abbrev Fine : JointImpedanceGainValues R → Joint → Type 0
    Fine g i =
        InRange kq_min kq_max (g.kq i)
        × InRange (torque_limit_floor i) (torque_limit_ceil i) (g.torque_limit i)

    in_range :
        (lo hi x : R)
        → d.is_finite lo ≡ true
        → d.is_finite hi ≡ true
        → (out_of lo hi x ≡ false) ↔ InRange lo hi x
    in_range lo hi x p q = (
      ground (arith, o.le_of_not_lt x lo, o.le_of_not_lt hi x),
      ground (arith, o.not-lt_of_le lo x, o.not-lt_of_le x hi),
    )

    floor_finite :
        (i : Joint)
        → (d.is_finite (torque_limit_floor i) ≡ true) × (d.is_finite (torque_limit_ceil i) ≡ true)
    floor_finite j1 = (o.lit_finite _ _, o.lit_finite _ _)
    floor_finite _ = (o.lit_finite _ _, o.lit_finite _ _)

    joint_failure_iff :
        (g : JointImpedanceGainValues R) (i : Joint) → (joint_failure g i ≡ none) ↔ Fine g i
    unfolding joint_failure
    joint_failure_iff g i =
        let (a, b) = floor_finite i in
        let k = in_range kq_min kq_max (g.kq i) (o.lit_finite 1 0) (o.lit_finite 400 0) in
        let t = in_range _ _ (g.torque_limit i) a b in
        (ground (arith, k.0, t.0), ground (arith, k.1, t.1))

    first_failure-parts :
        (g : JointImpedanceGainValues R) (i : Joint) (is : List Joint)
        → (first_failure g (i ∷ is) ≡ none)
          ↔ ((joint_failure g i ≡ none) × (first_failure g is ≡ none))
    unfolding first_failure
    first_failure-parts g i is = (ground arith, ground arith)

    first_failure_iff :
        (g : JointImpedanceGainValues R) (is : List Joint)
        → (first_failure g is ≡ none) ↔ All (Fine g) is
    unfolding first_failure
    first_failure_iff g [] = (λ _. tt, λ _. refl)
    first_failure_iff g (i ∷ is) =
        let one = joint_failure_iff g i in
        let more = first_failure_iff g is in
        let both = first_failure-parts g i is in
        (λ e. (one.0 (both.0 e).0, more.0 (both.0 e).1), λ h. both.1 (one.1 h.0, more.1 h.1))

    accepted :
        (g : JointImpedanceGainValues R)
        → (validate_custom g).ok ≡ true
        → (out_of zeta_min zeta_max g.zeta ≡ false) × (first_failure g joints ≡ none)
    unfolding validate_custom
    accepted g e = ground arith

    passes :
        (g : JointImpedanceGainValues R)
        → out_of zeta_min zeta_max g.zeta ≡ false
        → first_failure g joints ≡ none
        → (validate_custom g).ok ≡ true
    unfolding validate_custom
    passes g z e = ground arith

    each : (g : JointImpedanceGainValues R) → IsWithin g → All (Fine g) joints
    each g w = (at j1, (at j2, (at j3, (at j4, (at j5, (at j6, (at j7, tt)))))))
      where
        at : (i : Joint) → Fine g i
        at i = (w.kq_in i, w.torque_limit_in i)

    -- Custom gains are accepted exactly when the damping ratio, every stiffness and every torque
    -- limit is finite and within its bounds: no accepted limit lies below its gravity floor.
    pub validate_custom_iff :
        (g : JointImpedanceGainValues R) → ((validate_custom g).ok ≡ true) ↔ IsWithin g
    validate_custom_iff g =
        let z = in_range zeta_min zeta_max g.zeta (o.lit_finite 5 2) (o.lit_finite 2 0) in
        let all = first_failure_iff g joints in
        (
          λ e.
              let (fine, none_failed) = accepted g e in
              record {
                zeta_in = z.0 fine;
                kq_in = λ i. (every_joint (Fine g) (all.0 none_failed) i).0;
                torque_limit_in = λ i. (every_joint (Fine g) (all.0 none_failed) i).1;
              },
          λ w. passes g (z.1 w.zeta_in) (all.1 (each g w)),
        )
