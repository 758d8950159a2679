-- ===== src/Modes/CartesianImpedance.antt =====
-- src/cartesian_impedance_mode.cpp: a spring and damper of the hand over gravity, with a secondary
-- torque in the null space. The kinematics and dynamics of the rigid-body model (the Jacobian J, its
-- damped pseudo-inverse, the manipulability) are parameters; `fuel` bounds the loops of `wrap_to_pi`.
use kinova_gen3_driver.Prelude.{ℕ, Bool, true, false, if◌then◌else◌}
use kinova_gen3_driver.Double.{Double, ◌+ᵈ◌, ◌-ᵈ◌, ◌*ᵈ◌, ◌/ᵈ◌, ◌≤ᵈ◌, nought, one, min_d, clamp_d}
use kinova_gen3_driver.Types.{
  j1, j2, j3, j4, j5, j6, j7, vx, vy, vz, same, JointVec, Vector6, Pose, JointFeedback,
  JointCommand, torque_actuator,
}
use kinova_gen3_driver.Units.{wrap_to_pi}
use kinova_gen3_driver.Modes.{Slots, both, publish, published, JointLimits, continuous}

pub record CartesianImpedanceParams (R : Type 0) : Type 0 where
  pub kx : Vector6 R
  pub dx : Vector6 R
  pub nullspace_kp : R
  pub nullspace_kd : R
  pub nullspace_on : Bool
  pub nullspace_use_fixed_rest : Bool
  pub nullspace_q_rest : JointVec R
  pub manip_on : Bool
  pub manip_gain : R
  pub manip_fd_step : R
  pub pinv_damping : R
  pub torque_limit : R
  pub gain_ramp_s : R

-- `twist q v` is J v and `wrench q f` is Jᵀ f at q; `project q l t` is N t with the damping l;
-- `manipulability q` is √max(0, det J Jᵀ).
pub record CartesianModel (R : Type 0) : Type 0 where
  pub fk : JointVec R → Pose R
  pub pose_error : Pose R → Pose R → Vector6 R
  pub twist : JointVec R → JointVec R → Vector6 R
  pub wrench : JointVec R → Vector6 R → JointVec R
  pub project : JointVec R → R → JointVec R → JointVec R
  pub manipulability : JointVec R → R
  pub gravity : JointVec R → JointVec R

pub record CartesianImpedanceMode (R : Type 0) : Type 0 where
  pub urdf : JointLimits R
  pub gains : Slots (CartesianImpedanceParams R)
  pub entry_pose : Pose R
  pub q_rest : JointVec R
  pub ext_target : Slots (Pose R)
  pub has_ext_target : Bool
  pub ramp_elapsed : R

module _ {R : Type 0} ⦃d : Double R⦄ where
  abbrev linear_or : R → R → Vector6 R
  linear_or l r vx = l
  linear_or l r vy = l
  linear_or l r vz = l
  linear_or l r a = r

  abbrev elbow_up : JointVec R
  elbow_up j1 = nought
  elbow_up j2 = d.lit 26 2
  elbow_up j3 = d.lit 314 2
  elbow_up j4 = nought -ᵈ d.lit 227 2
  elbow_up j5 = nought
  elbow_up j6 = d.lit 96 2
  elbow_up j7 = d.lit 157 2

  -- A default `CartesianImpedanceParams`.
  unfoldable pub default_cartesian : CartesianImpedanceParams R
  default_cartesian = record {
    kx = linear_or (d.lit 300 0) (d.lit 30 0);
    dx = linear_or (d.lit 35 0) (d.lit 5 0);
    nullspace_kp = nought;
    nullspace_kd = d.lit 8 0;
    nullspace_on = true;
    nullspace_use_fixed_rest = false;
    nullspace_q_rest = elbow_up;
    manip_on = false;
    manip_gain = nought;
    manip_fd_step = d.lit 1 4;
    pinv_damping = d.lit 1 3;
    torque_limit = d.lit 39 0;
    gain_ramp_s = d.lit 1 1;
  }

  -- The constructor; `x` is the default pose of the slots and of the entry.
  unfoldable pub new_cartesian_mode :
      JointLimits R → CartesianImpedanceParams R → Pose R → CartesianImpedanceMode R
  new_cartesian_mode u p x = record {
    urdf = u;
    gains = both p;
    entry_pose = x;
    q_rest = λ _. nought;
    ext_target = both x;
    has_ext_target = false;
    ramp_elapsed = nought;
  }

  unfoldable pub set_cartesian_gains :
      CartesianImpedanceParams R → CartesianImpedanceMode R → CartesianImpedanceMode R
  set_cartesian_gains p m = record m { gains = publish p m.gains }

  unfoldable pub set_cartesian_target : Pose R → CartesianImpedanceMode R → CartesianImpedanceMode R
  set_cartesian_target x m = record m { ext_target = publish x m.ext_target; has_ext_target = true }

  module _ (x : CartesianModel R) where
    unfoldable pub enter_cartesian :
        JointFeedback R → CartesianImpedanceMode R → CartesianImpedanceMode R
    enter_cartesian fb m =
        let p = published m.gains in
        record m {
          entry_pose = x.fk fb.q;
          q_rest = if p.nullspace_use_fixed_rest then p.nullspace_q_rest else fb.q;
          has_ext_target = false;
          ramp_elapsed = nought;
        }

    -- The gradient of the manipulability by forward differences.
    unfoldable pub manip_torque : CartesianImpedanceParams R → JointVec R → JointVec R
    manip_torque p q i =
        let ahead : JointVec R = λ j. if same j i then q j +ᵈ p.manip_fd_step else q j in
        p.manip_gain *ᵈ (x.manipulability ahead -ᵈ x.manipulability q) *ᵈ (one /ᵈ p.manip_fd_step)

    unfoldable pub secondary_torque :
        ℕ → CartesianImpedanceParams R → JointFeedback R → CartesianImpedanceMode R → JointVec R
    unfolding manip_torque
    secondary_torque fuel p fb m i =
        let raw = m.q_rest i -ᵈ fb.q i in
        let off = if continuous m.urdf i then wrap_to_pi fuel raw else raw in
        let posture = p.nullspace_kp *ᵈ off -ᵈ p.nullspace_kd *ᵈ fb.qd i in
        if p.manip_on then posture +ᵈ manip_torque p fb.q i else posture

    unfoldable pub active_torque :
        ℕ → CartesianImpedanceParams R → JointFeedback R → CartesianImpedanceMode R → JointVec R
    unfolding secondary_torque
    active_torque fuel p fb m i =
        let target = if m.has_ext_target then published m.ext_target else m.entry_pose in
        let e = x.pose_error target (x.fk fb.q) in
        let v = x.twist fb.q fb.qd in
        let task = x.wrench fb.q (λ a. p.kx a *ᵈ e a -ᵈ p.dx a *ᵈ v a) in
        if p.nullspace_on
        then task i +ᵈ x.project fb.q p.pinv_damping (secondary_torque fuel p fb m) i
        else task i

    unfoldable pub compute_cartesian :
        ℕ
        → JointFeedback R
        → R
        → JointCommand R
        → CartesianImpedanceMode R
        → JointCommand R × CartesianImpedanceMode R
    unfolding active_torque
    compute_cartesian fuel fb dt out m =
        let p = published m.gains in
        let ramp =
          if p.gain_ramp_s ≤ᵈ nought then one else min_d one (m.ramp_elapsed /ᵈ p.gain_ramp_s) in
        (
          record out {
            mode = torque_actuator;
            torque = λ i.
                clamp_d (x.gravity fb.q i +ᵈ ramp *ᵈ active_torque fuel p fb m i)
                  (nought -ᵈ p.torque_limit) p.torque_limit;
            position = fb.q;
          },
          record m { ramp_elapsed = m.ramp_elapsed +ᵈ dt },
        )
