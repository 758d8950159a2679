-- ===== src/Gains.antt =====
-- src/interface/gains.cpp: the compliance that a command asks for. `throw` of `profile_params` is
-- `none`; the message texts are the source's, with `show` for `std::to_string`.
pub mod Bounds
pub mod Resolution
use kinova_gen3_driver.Prelude.{
  ℕ, Bool, true, false, not, ◌||◌, Option, none, some, List, [], ◌∷◌, String, if◌then◌else◌,
}
use Prim.Native.String.{◌++◌}
use mathlib.Core.Option
use kinova_gen3_driver.Double.{Double, ◌<ᵈ◌, ◌-ᵈ◌, nought}
use kinova_gen3_driver.Types.{
  Joint, j1, j2, j3, j4, j5, j6, j7, joints, JointVec, GainsProfile, session_default, soft, medium,
  stiff, custom, unknown_profile, ImpedanceGains, JointImpedanceGainValues,
}

-- include/kinova_lowlevel/diff_ik.h.
pub record DiffIkParams (R : Type 0) : Type 0 where
  pub max_iters : ℕ
  pub pos_tol : R
  pub rot_tol : R
  pub damping : R
  pub max_pos_err : R
  pub max_rot_err : R
  pub max_joint_step : R
  pub min_step : R
  pub posture_gain : R
  pub q_rest : JointVec R
  pub limit_gain : R
  pub limit_margin : R
  pub limit_clamp_margin : R
  pub q_lower : JointVec R
  pub q_upper : JointVec R

-- include/kinova_lowlevel/joint_impedance_mode.h.
pub record JointImpedanceParams (R : Type 0) : Type 0 where
  pub kq : JointVec R
  pub zeta : R
  pub torque_limit : JointVec R
  pub max_tracking_error : R
  pub max_ref_speed : JointVec R
  pub gain_ramp_s : R
  pub cmd_timeout_s : R
  pub ik : DiffIkParams R

pub record Check : Type 0 where
  pub ok : Bool
  pub message : String

abbrev pub vec : {R : Type 0} → R → R → R → R → R → R → R → JointVec R
vec a b c e f g h j1 = a
vec a b c e f g h j2 = b
vec a b c e f g h j3 = c
vec a b c e f g h j4 = e
vec a b c e f g h j5 = f
vec a b c e f g h j6 = g
vec a b c e f g h j7 = h

abbrev pub index_text : Joint → String
index_text = vec "0" "1" "2" "3" "4" "5" "6"

abbrev check_of : Option String → Check
check_of none = record { ok = true; message = "" }
check_of (some m) = record { ok = false; message = m }

module _ {R : Type 0} ⦃d : Double R⦄ where
  abbrev pub zeta_min : R
  zeta_min = d.lit 5 2

  abbrev pub zeta_max : R
  zeta_max = d.lit 2 0

  abbrev pub kq_min : R
  kq_min = d.lit 1 0

  abbrev pub kq_max : R
  kq_max = d.lit 400 0

  abbrev pub torque_limit_floor : JointVec R
  torque_limit_floor =
      vec (d.lit 188 1) (d.lit 376 1) (d.lit 146 1) (d.lit 145 1) (d.lit 37 1) (d.lit 37 1)
        (d.lit 5 1)

  abbrev pub torque_limit_ceil : JointVec R
  torque_limit_ceil =
      vec (d.lit 39 0) (d.lit 39 0) (d.lit 39 0) (d.lit 39 0) (d.lit 9 0) (d.lit 9 0) (d.lit 9 0)

  -- `!std::isfinite(x) || x < lo || x > hi`.
  abbrev pub out_of : R → R → R → Bool
  out_of lo hi x = not (d.is_finite x) || (x <ᵈ lo || hi <ᵈ x)

  abbrev range_text : R → R → String
  range_text lo hi = "must be finite and in [" ++ d.show lo ++ ", " ++ d.show hi ++ "]"

  -- One round of the loop over the joints: the message of a failure.
  unfoldable pub joint_failure : JointImpedanceGainValues R → Joint → Option String
  joint_failure g i =
      if out_of kq_min kq_max (g.kq i)
      then some ("kq[" ++ index_text i ++ "] " ++ range_text kq_min kq_max)
      else if out_of (torque_limit_floor i) (torque_limit_ceil i) (g.torque_limit i)
      then some (
          "torque_limit["
          ++ index_text i
          ++ "] "
          ++ range_text (torque_limit_floor i) (torque_limit_ceil i)
          ++ ": below the floor the clamp eats gravity and the arm falls")
      else none

  unfoldable pub first_failure : JointImpedanceGainValues R → List Joint → Option String
  first_failure g [] = none
  first_failure g (i ∷ is) =
      let rest = first_failure g is in elim (joint_failure g i) [ some m ↦ some m | none ↦ rest ]

  unfoldable pub validate_custom : JointImpedanceGainValues R → Check
  validate_custom g =
      if out_of zeta_min zeta_max g.zeta
      then check_of (some ("zeta " ++ range_text zeta_min zeta_max))
      else check_of (first_failure g joints)

  -- The defaults of the struct, which are the medium tuning.
  unfoldable pub default_params : JointImpedanceParams R
  default_params = record {
    kq =
        vec (d.lit 80 0) (d.lit 80 0) (d.lit 80 0) (d.lit 80 0) (d.lit 30 0) (d.lit 30 0)
          (d.lit 30 0);
    zeta = d.lit 5 1;
    torque_limit =
        vec (d.lit 39 0) (d.lit 39 0) (d.lit 39 0) (d.lit 39 0) (d.lit 9 0) (d.lit 9 0) (d.lit 9 0);
    max_tracking_error = d.lit 35 2;
    max_ref_speed = λ _. d.infinity;
    gain_ramp_s = d.lit 1 1;
    cmd_timeout_s = nought;
    ik = record {
      max_iters = 4;
      pos_tol = d.lit 1 4;
      rot_tol = d.lit 1 3;
      damping = d.lit 1 3;
      max_pos_err = d.lit 5 2;
      max_rot_err = d.lit 20 2;
      max_joint_step = d.lit 5 2;
      min_step = d.lit 1 7;
      posture_gain = d.lit 15 2;
      q_rest =
          vec nought (d.lit 26 2) (d.lit 314 2) (nought -ᵈ d.lit 227 2) nought (d.lit 96 2)
            (d.lit 157 2);
      limit_gain = d.lit 5 1;
      limit_margin = d.lit 25 2;
      limit_clamp_margin = d.lit 2 2;
      q_lower = λ _. nought -ᵈ d.infinity;
      q_upper = λ _. d.infinity;
    };
  }

  unfoldable pub profile_params : GainsProfile → Option (JointImpedanceParams R)
  unfolding default_params
  profile_params medium = some default_params
  profile_params soft = some (record default_params {
    kq =
        vec (d.lit 40 0) (d.lit 40 0) (d.lit 40 0) (d.lit 40 0) (d.lit 15 0) (d.lit 15 0)
          (d.lit 15 0);
    zeta = d.lit 4 1;
    max_tracking_error = d.lit 45 2;
  })
  profile_params stiff = some (record default_params {
    kq =
        vec (d.lit 160 0) (d.lit 160 0) (d.lit 160 0) (d.lit 160 0) (d.lit 60 0) (d.lit 60 0)
          (d.lit 60 0);
    zeta = d.lit 7 1;
    max_tracking_error = d.lit 25 2;
  })
  profile_params custom = none
  profile_params session_default = none
  profile_params unknown_profile = none

  unfoldable pub overlay_profile_gains :
      JointImpedanceParams R → JointImpedanceParams R → JointImpedanceParams R
  overlay_profile_gains base profile = record base {
    kq = profile.kq;
    zeta = profile.zeta;
    max_tracking_error = profile.max_tracking_error;
    torque_limit = profile.torque_limit;
  }

  unfoldable pub resolve_profile :
      GainsProfile → ImpedanceGains R → JointImpedanceParams R → Option (JointImpedanceParams R)
  unfolding profile_params overlay_profile_gains
  resolve_profile session_default s base = some base
  resolve_profile custom s base = some (record base {
    kq = s.custom_values.kq;
    zeta = s.custom_values.zeta;
    torque_limit = s.custom_values.torque_limit;
  })
  resolve_profile p s base = Option.map (overlay_profile_gains base) (profile_params p)

  unfoldable pub resolve_gains :
      ImpedanceGains R → JointImpedanceParams R → Option (JointImpedanceParams R)
  unfolding resolve_profile
  resolve_gains s base = resolve_profile s.profile s base

unfoldable pub known_profile : GainsProfile → Bool
known_profile unknown_profile = false
known_profile session_default = true
known_profile soft = true
known_profile medium = true
known_profile stiff = true
known_profile custom = true
