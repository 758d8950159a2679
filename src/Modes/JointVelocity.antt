-- ===== src/Modes/JointVelocity.antt =====
-- src/joint_velocity_mode.cpp: a streamed joint velocity or twist, integrated to a position reference
-- that freezes at the measured pose when the stream goes stale. `TwistDlsSolver` with the Jacobian is
-- a parameter; `fuel` bounds the loops of `wrap_to_pi`.
pub mod Frozen
use kinova_gen3_driver.Prelude.{
  ℕ, ◌≡◌, refl, arith, Bool, true, false, not, ◌&&◌, ◌||◌, List, [], ◌∷◌, if◌then◌else◌, Bool-cases,
  inl, inr,
}
use kinova_gen3_driver.Double.{Double, IsOrdered, ◌*ᵈ◌, ◌≤ᵈ◌, nought, one, clamp_d, clamp_range}
use kinova_gen3_driver.Types.{
  Joint, JointVec, Vector6, JointFeedback, JointCommand, ActuatorMode, position_actuator,
}
use kinova_gen3_driver.Watchdog.{Watchdog, arm, bump, reset, tick}
use kinova_gen3_driver.VelocityReference.{
  velocity_ref_max_lead, integrate_leashed_reference, limit_joint_velocity,
}
use kinova_gen3_driver.Modes.{Slots, both, publish, published, JointLimits, continuous}

pub record JointVelocityParams (R : Type 0) : Type 0 where
  pub max_qd : JointVec R
  pub dls_damping : R
  pub w_threshold : R
  pub dls_damping_max : R
  pub posture_gain : R
  pub q_rest : JointVec R
  pub cmd_timeout_s : R

pub data Source : Type 0 where
  no_source joint_source twist_source : Source

abbrev pub is_no_source : Source → Bool
is_no_source no_source = true
is_no_source joint_source = false
is_no_source twist_source = false

-- `W` is the state of the solver: `TwistDlsSolver::reset` and `solve`, the latter with the Jacobian at
-- the measured joints.
pub record TwistSolver (R : Type 0) (W : Type 0) : Type 0 where
  pub restart : W → W
  pub solve : JointVec R → Vector6 R → JointVelocityParams R → W → JointVec R × W

pub record JointVelocityMode (R : Type 0) (W : Type 0) : Type 0 where
  pub urdf : JointLimits R
  pub params : Slots (JointVelocityParams R)
  pub source : Source
  pub ext_qd : Slots (JointVec R)
  pub ext_twist : Slots (Vector6 R)
  pub wd : Watchdog R
  pub speed_scale : R
  pub frozen : Bool
  pub qd_target : JointVec R
  pub twist_target : Vector6 R
  pub qd_cmd : JointVec R
  pub q_ref : JointVec R
  pub solver : W

module _ {R : Type 0} ⦃d : Double R⦄ where
  unfoldable pub seed_limits : JointLimits R → JointVelocityParams R → JointVelocityParams R
  seed_limits u p = record p {
    max_qd = λ i.
        clamp_d (if d.is_finite (p.max_qd i) then p.max_qd i else u.v_max i) nought (u.v_max i);
  }

  module _ {W : Type 0} where
    unfoldable pub new_velocity_mode :
        JointLimits R → JointVelocityParams R → W → JointVelocityMode R W
    unfolding arm
    new_velocity_mode u p w = record {
      urdf = u;
      params = both (seed_limits u p);
      source = no_source;
      ext_qd = both (λ _. nought);
      ext_twist = both (λ _. nought);
      wd = arm p.cmd_timeout_s (record {
        count = 0;
        timeout_s = nought;
        last_seen = 0;
        stale_s = nought;
        fresh = false;
      });
      speed_scale = one;
      frozen = false;
      qd_target = λ _. nought;
      twist_target = λ _. nought;
      qd_cmd = λ _. nought;
      q_ref = λ _. nought;
      solver = w;
    }

    unfoldable pub set_velocity_params :
        JointVelocityParams R → JointVelocityMode R W → JointVelocityMode R W
    set_velocity_params p m = record m { params = publish (seed_limits m.urdf p) m.params }

    unfoldable pub set_velocity_target : JointVec R → JointVelocityMode R W → JointVelocityMode R W
    set_velocity_target qd m = record m {
      ext_qd = publish qd m.ext_qd;
      source = joint_source;
      wd = bump m.wd;
    }

    unfoldable pub set_twist_target : Vector6 R → JointVelocityMode R W → JointVelocityMode R W
    set_twist_target v m = record m {
      ext_twist = publish v m.ext_twist;
      source = twist_source;
      wd = bump m.wd;
    }

    unfoldable pub set_velocity_timeout : R → JointVelocityMode R W → JointVelocityMode R W
    set_velocity_timeout s m = record m {
      wd = arm (if nought ≤ᵈ s then s else (published m.params).cmd_timeout_s) m.wd;
    }

    unfoldable pub set_velocity_scale : R → JointVelocityMode R W → JointVelocityMode R W
    set_velocity_scale s m = record m { speed_scale = s }

  module _ {W : Type 0} (ts : TwistSolver R W) where
    unfoldable pub enter_velocity : JointFeedback R → JointVelocityMode R W → JointVelocityMode R W
    enter_velocity fb m = record m {
      source = no_source;
      qd_target = λ _. nought;
      twist_target = λ _. nought;
      qd_cmd = λ _. nought;
      q_ref = fb.q;
      frozen = false;
      solver = ts.restart m.solver;
      wd = reset m.wd;
    }

    -- The watchdog and the freeze that it latches.
    unfoldable pub watch_stream : R → JointVelocityMode R W → JointVelocityMode R W
    watch_stream dt m =
        let t = tick dt m.wd in
        record m { wd = t.1; frozen = if t.0 then true else if t.1.fresh then false else m.frozen }

    -- The velocity of this cycle ahead of the cap.
    unfoldable pub take_target :
        JointFeedback R → JointVelocityParams R → JointVelocityMode R W → JointVelocityMode R W
    take_target fb p m = elim (m.source) [
      | twist_source ↦
          let v = if m.wd.fresh then published m.ext_twist else m.twist_target in
          let solved = ts.solve fb.q v p m.solver in
          record m { twist_target = v; qd_cmd = solved.0; solver = solved.1 }
      | _ ↦
          let qd = if m.wd.fresh then published m.ext_qd else m.qd_target in
          record m { qd_target = qd; qd_cmd = qd }
    ]

    unfoldable pub limit_command :
        JointVelocityParams R → JointVelocityMode R W → JointVelocityMode R W
    limit_command p m = record m {
      qd_cmd = λ i. limit_joint_velocity p.max_qd m.qd_cmd i *ᵈ m.speed_scale;
    }

    unfoldable pub choose_velocity : JointFeedback R → JointVelocityMode R W → JointVelocityMode R W
    choose_velocity fb m =
        if m.frozen || is_no_source m.source
        then record m { qd_cmd = λ _. nought; q_ref = if m.frozen then fb.q else m.q_ref }
        else limit_command (published m.params) (take_target fb (published m.params) m)

    unfoldable pub compute_velocity :
        ℕ
        → JointFeedback R
        → R
        → JointCommand R
        → JointVelocityMode R W
        → JointCommand R × JointVelocityMode R W
    compute_velocity fuel fb dt out m =
        let chosen = choose_velocity fb (watch_stream dt m) in
        let q =
          integrate_leashed_reference fuel chosen.q_ref chosen.qd_cmd dt fb.q velocity_ref_max_lead
            (continuous m.urdf) m.urdf.q_lower m.urdf.q_upper in
        (
          record out {
            mode = position_actuator;
            position = q;
            velocity = λ _. nought;
            torque = λ _. nought;
          },
          record chosen { q_ref = q },
        )
