-- ===== src/Gains/Resolution.antt =====
-- What `resolve_gains` hands to the mode: the deployment's own fields survive every profile, and a
-- torque limit below the gravity floor cannot come out of it.
use kinova_gen3_driver.Prelude.{◌≡◌, refl, true, some, arith}
use kinova_gen3_driver.Double.{Double, IsOrdered, ◌≤ᵈ◌}
use kinova_gen3_driver.Types.{
  Joint, j1, j2, j3, j4, j5, j6, j7, ImpedanceGains, GainsProfile, session_default, soft, medium,
  stiff, custom, unknown_profile,
}
use kinova_gen3_driver.Gains.{
  JointImpedanceParams, resolve_gains, resolve_profile, known_profile, validate_custom,
  torque_limit_floor, default_params,
}
use kinova_gen3_driver.Gains.Bounds.{validate_custom_iff}

module _ {R : Type 0} ⦃d : Double R⦄ where
  -- The fields that belong to the deployment.
  pub record SameDeployment (a b : JointImpedanceParams R) : Type 0 where
    pub same_ref_speed : a.max_ref_speed ≡ b.max_ref_speed
    pub same_ramp : a.gain_ramp_s ≡ b.gain_ramp_s
    pub same_timeout : a.cmd_timeout_s ≡ b.cmd_timeout_s
    pub same_ik : a.ik ≡ b.ik

  abbrev pub AboveFloor : JointImpedanceParams R → Type 0
  AboveFloor p = (i : Joint) → (torque_limit_floor i ≤ᵈ p.torque_limit i) ≡ true

  -- The gains are known to be safe to apply: a known profile, and custom values that were validated.
  pub record IsAccepted (s : ImpedanceGains R) : Type 0 where
    pub known : known_profile s.profile ≡ true
    pub validated : s.profile ≡ custom → (validate_custom s.custom_values).ok ≡ true

  resolve_profile_keeps :
      (p : GainsProfile) (s : ImpedanceGains R) (base : JointImpedanceParams R)
      → known_profile p ≡ true
      → (q : JointImpedanceParams R) × (resolve_profile p s base ≡ some q) × SameDeployment q base
  unfolding resolve_profile known_profile
  resolve_profile_keeps session_default s base k = (base, refl, ground arith)
  resolve_profile_keeps custom s base k = (_, refl, ground arith)
  resolve_profile_keeps soft s base k = (_, refl, ground arith)
  resolve_profile_keeps medium s base k = (_, refl, ground arith)
  resolve_profile_keeps stiff s base k = (_, refl, ground arith)
  resolve_profile_keeps unknown_profile s base k = cc

  -- For a profile of the enumeration the resolution does not throw, and every field that is not a
  -- gain keeps the session default's value.
  pub resolve_gains_keeps :
      (s : ImpedanceGains R) (base : JointImpedanceParams R)
      → known_profile s.profile ≡ true
      → (q : JointImpedanceParams R) × (resolve_gains s base ≡ some q) × SameDeployment q base
  unfolding resolve_gains
  resolve_gains_keeps s base k = resolve_profile_keeps s.profile s base k

  module _ (o : IsOrdered d) where
    pub default-AboveFloor : AboveFloor default_params
    unfolding default_params
    default-AboveFloor j1 = o.lit_le 188 1 39 0 (omega arith) (omega arith) (omega arith)
    default-AboveFloor j2 = o.lit_le 376 1 39 0 (omega arith) (omega arith) (omega arith)
    default-AboveFloor j3 = o.lit_le 146 1 39 0 (omega arith) (omega arith) (omega arith)
    default-AboveFloor j4 = o.lit_le 145 1 39 0 (omega arith) (omega arith) (omega arith)
    default-AboveFloor j5 = o.lit_le 37 1 9 0 (omega arith) (omega arith) (omega arith)
    default-AboveFloor j6 = o.lit_le 37 1 9 0 (omega arith) (omega arith) (omega arith)
    default-AboveFloor j7 = o.lit_le 5 1 9 0 (omega arith) (omega arith) (omega arith)

    profile-AboveFloor :
        (p : GainsProfile) (s : ImpedanceGains R) (base q : JointImpedanceParams R)
        → ((p ≡ custom) → (validate_custom s.custom_values).ok ≡ true)
        → AboveFloor base
        → resolve_profile p s base ≡ some q
        → AboveFloor q
    unfolding resolve_profile default_params
    profile-AboveFloor session_default s base q v b e i = ground (arith, b i)
    profile-AboveFloor custom s base q v b e i =
        ground (arith, ((validate_custom_iff o s.custom_values).0 (v refl)).torque_limit_in i)
    profile-AboveFloor soft s base q v b e i = ground (arith, default-AboveFloor i)
    profile-AboveFloor medium s base q v b e i = ground (arith, default-AboveFloor i)
    profile-AboveFloor stiff s base q v b e i = ground (arith, default-AboveFloor i)
    profile-AboveFloor unknown_profile s base q v b e i = cc

    -- Whatever gains a command carries, if custom ones were validated and the session default holds
    -- every torque limit at or above its gravity floor, then so does what the mode is given.
    pub resolve_gains-AboveFloor :
        (s : ImpedanceGains R) (base q : JointImpedanceParams R)
        → IsAccepted s
        → AboveFloor base
        → resolve_gains s base ≡ some q
        → AboveFloor q
    unfolding resolve_gains
    resolve_gains-AboveFloor s base q a b e = profile-AboveFloor s.profile s base q a.validated b e
