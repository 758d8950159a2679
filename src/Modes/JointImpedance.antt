-- ===== src/Modes/JointImpedance.antt =====
-- src/joint_impedance_mode.cpp: a spring and damper to a rate-limited reference over gravity. The mass
-- matrix and gravity of the rigid-body model, `std::sqrt` and `DiffIkSolver::solve` are parameters;
-- `fuel` bounds the loops of `wrap_to_pi`.
use kinova_gen3_driver.Prelude.{ℕ, Bool, true, false, ◌&&◌, if◌then◌else◌}
use kinova_gen3_driver.Double.{
  Double, ◌+ᵈ◌, ◌-ᵈ◌, ◌*ᵈ◌, ◌/ᵈ◌, ◌≤ᵈ◌, nought, one, min_d, max_d, clamp_d,
}
use kinova_gen3_driver.Types.{Joint, JointVec, Pose, JointFeedback, JointCommand, torque_actuator}
use kinova_gen3_driver.Executor.Sample.{JointTarget}
use kinova_gen3_driver.Gains.{DiffIkParams, JointImpedanceParams}
use kinova_gen3_driver.Units.{wrap_to_pi}
use kinova_gen3_driver.Watchdog.{Watchdog, arm, bump, reset, tick}
use kinova_gen3_driver.Modes.{Slots, both, publish, published, JointLimits, continuous}
use kinova_gen3_driver.Modes.JointPosition.{IkResult, no_ik, or_else}

-- `mass_diagonal q i` is M(q)(i, i), and `mass_times q v` is M(q) v.
pub record ImpedanceModel (R : Type 0) : Type 0 where
  pub gravity : JointVec R → JointVec R
  pub mass_diagonal : JointVec R → Joint → R
  pub mass_times : JointVec R → JointVec R → JointVec R
  pub sqrt : R → R
  pub solve : DiffIkParams R → Pose R → JointVec R → IkResult R × JointVec R

pub data HoldSource : Type 0 where
  entry_hold pose_target_source joint_target_source : HoldSource

pub record JointImpedanceMode (R : Type 0) : Type 0 where
  pub urdf : JointLimits R
  pub gains : Slots (JointImpedanceParams R)
  pub source : HoldSource
  pub ext_target : Slots (Pose R)
  pub ext_q_target : Slots (JointTarget R)
  pub wd : Watchdog R
  pub speed_scale : R
  pub frozen : Bool
  pub q_d : JointVec R
  pub qd_ref : JointVec R
  pub ramp_elapsed : R
  pub last_ik : IkResult R

-- The feedforward of a cycle: `ff_velocity` with `qd_cmd`, `ff_acceleration` with `qdd_ff`.
pub record Feedforward (R : Type 0) : Type 0 where
  pub ff_velocity : Bool
  pub ff_acceleration : Bool
  pub qd_cmd : JointVec R
  pub qdd_ff : JointVec R

module _ {R : Type 0} ⦃d : Double R⦄ where
  unfoldable pub seed_gains : JointLimits R → JointImpedanceParams R → JointImpedanceParams R
  seed_gains u p = record p {
    max_ref_speed = λ i. or_else (p.max_ref_speed i) (u.v_max i);
    ik = record (p.ik) {
      q_lower = λ i. or_else (p.ik.q_lower i) (u.q_lower i);
      q_upper = λ i. or_else (p.ik.q_upper i) (u.q_upper i);
    };
  }

  -- The constructor; `x` and `t` are the default targets of the slots.
  unfoldable pub new_impedance_mode :
      JointLimits R → JointImpedanceParams R → Pose R → JointTarget R → JointImpedanceMode R
  unfolding arm
  new_impedance_mode u p x t = record {
    urdf = u;
    gains = both (seed_gains u p);
    source = entry_hold;
    ext_target = both x;
    ext_q_target = both t;
    wd =
        arm p.cmd_timeout_s (record {
          count = 0;
          timeout_s = nought;
          last_seen = 0;
          stale_s = nought;
          fresh = false;
        });
    speed_scale = one;
    frozen = false;
    q_d = λ _. nought;
    qd_ref = λ _. nought;
    ramp_elapsed = nought;
    last_ik = no_ik;
  }

  unfoldable pub set_impedance_scale : R → JointImpedanceMode R → JointImpedanceMode R
  set_impedance_scale s m = record m { speed_scale = s }

  unfoldable pub set_impedance_gains :
      JointImpedanceParams R → JointImpedanceMode R → JointImpedanceMode R
  set_impedance_gains p m = record m { gains = publish (seed_gains m.urdf p) m.gains }

  unfoldable pub set_impedance_pose : Pose R → JointImpedanceMode R → JointImpedanceMode R
  set_impedance_pose x m = record m {
    ext_target = publish x m.ext_target;
    source = pose_target_source;
    wd = bump m.wd;
  }

  unfoldable pub set_impedance_joints : JointTarget R → JointImpedanceMode R → JointImpedanceMode R
  set_impedance_joints t m = record m {
    ext_q_target = publish t m.ext_q_target;
    source = joint_target_source;
    wd = bump m.wd;
  }

  unfoldable pub set_impedance_timeout : R → JointImpedanceMode R → JointImpedanceMode R
  set_impedance_timeout s m = record m {
    wd = arm (if nought ≤ᵈ s then s else (published m.gains).cmd_timeout_s) m.wd;
  }

  unfoldable pub enter_impedance : JointFeedback R → JointImpedanceMode R → JointImpedanceMode R
  enter_impedance fb m = record m {
    q_d = fb.q;
    source = entry_hold;
    ramp_elapsed = nought;
    last_ik = no_ik;
    wd = reset m.wd;
    frozen = false;
  }

  -- The staleness of the stream, and the freeze that it latches.
  unfoldable pub watch_target : JointFeedback R → R → JointImpedanceMode R → JointImpedanceMode R
  watch_target fb dt m =
      let t = tick dt m.wd in
      let seen = record m { wd = t.1; frozen = if t.1.fresh then false else m.frozen } in
      if t.0 then record seen { frozen = true; q_d = fb.q; last_ik = no_ik } else seen

  abbrev pub no_feedforward : Feedforward R
  no_feedforward = record {
    ff_velocity = false;
    ff_acceleration = false;
    qd_cmd = λ _. nought;
    qdd_ff = λ _. nought;
  }

  unfoldable pub follow_joints : JointTarget R → Feedforward R
  follow_joints t = record {
    ff_velocity = t.has_velocity;
    ff_acceleration = t.has_velocity && t.has_acceleration;
    qd_cmd = if t.has_velocity then t.qd else (λ _. nought);
    qdd_ff = if t.has_velocity && t.has_acceleration then t.qdd else (λ _. nought);
  }

  -- The rate limit of one joint, and the wrap of its reference.
  unfoldable pub limit_reference : ℕ → Bool → R → R → R → R
  limit_reference fuel free max_step q_prev q_d =
      let raw = q_d -ᵈ q_prev in
      let moved =
        q_prev
        +ᵈ clamp_d (if free then wrap_to_pi fuel raw else raw) (nought -ᵈ max_step) max_step in
      if free then wrap_to_pi fuel moved else moved

  module _ (x : ImpedanceModel R) where
    unfoldable pub resolve_target : JointImpedanceMode R → Feedforward R × JointImpedanceMode R
    resolve_target m = if m.frozen then (no_feedforward, m) else elim (m.source) [
      | joint_target_source ↦
          let t = published m.ext_q_target in
          (follow_joints t, record m { q_d = t.q; last_ik = no_ik })
      | pose_target_source ↦
          let solved = x.solve (published m.gains).ik (published m.ext_target) m.q_d in
          (no_feedforward, record m { last_ik = solved.0; q_d = solved.1 })
      | entry_hold ↦ (no_feedforward, record m { last_ik = no_ik })
    ]

    -- The spring and the damper of one joint.
    unfoldable pub spring_torque :
        ℕ → JointImpedanceParams R → JointFeedback R → JointImpedanceMode R → JointVec R
    spring_torque fuel p fb m i =
        let raw = m.q_d i -ᵈ fb.q i in
        let err = if continuous m.urdf i then wrap_to_pi fuel raw else raw in
        let e = clamp_d err (nought -ᵈ p.max_tracking_error) p.max_tracking_error in
        let dq = d.lit 2 0 *ᵈ p.zeta *ᵈ x.sqrt (max_d nought (p.kq i *ᵈ x.mass_diagonal fb.q i)) in
        p.kq i *ᵈ e -ᵈ dq *ᵈ (fb.qd i -ᵈ m.qd_ref i)

    -- What the ramp scales is the spring with the inertial feedforward; gravity is never scaled.
    unfoldable pub impedance_torque :
        ℕ
        → JointImpedanceParams R
        → Feedforward R
        → JointFeedback R
        → JointImpedanceMode R
        → JointVec R
    impedance_torque fuel p ff fb m i =
        let spring = spring_torque fuel p fb m i in
        let driven =
          if ff.ff_acceleration then spring +ᵈ x.mass_times fb.q ff.qdd_ff i else spring in
        let ramp =
          if p.gain_ramp_s ≤ᵈ nought then one else min_d one (m.ramp_elapsed /ᵈ p.gain_ramp_s) in
        clamp_d (x.gravity fb.q i +ᵈ ramp *ᵈ driven) (nought -ᵈ p.torque_limit i) (p.torque_limit i)

    unfoldable pub compute_impedance :
        ℕ
        → JointFeedback R
        → R
        → JointCommand R
        → JointImpedanceMode R
        → JointCommand R × JointImpedanceMode R
    compute_impedance fuel fb dt out m =
        let p = published m.gains in
        let watched = watch_target fb dt m in
        let resolved = resolve_target watched in
        let cap : JointVec R = λ i. m.speed_scale *ᵈ p.max_ref_speed i in
        let moved = record (resolved.1) {
          q_d = λ i.
              limit_reference fuel (continuous m.urdf i) (cap i *ᵈ dt) (watched.q_d i)
                (resolved.1.q_d i);
          qd_ref =
              if resolved.0.ff_velocity
              then (λ i. clamp_d (resolved.0.qd_cmd i) (nought -ᵈ cap i) (cap i))
              else (λ _. nought);
        } in
        (
          record out {
            mode = torque_actuator;
            torque = impedance_torque fuel p resolved.0 fb moved;
            position = fb.q;
          },
          record moved { ramp_elapsed = m.ramp_elapsed +ᵈ dt },
        )
