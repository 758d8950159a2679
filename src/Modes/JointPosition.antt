-- ===== src/Modes/JointPosition.antt =====
-- src/joint_position_mode.cpp: a joint or pose target that a rate-limited, leashed reference walks to.
-- `DiffIkSolver::solve` is a parameter; `fuel` bounds the loops of `wrap_to_pi`.
use kinova_gen3_driver.Prelude.{ℕ, ◌≡◌, arith, Bool, true, false, ◌&&◌, if◌then◌else◌}
use kinova_gen3_driver.Double.{
  Double, IsOrdered, ◌+ᵈ◌, ◌-ᵈ◌, ◌*ᵈ◌, ◌<ᵈ◌, ◌≤ᵈ◌, nought, one, clamp_d, clamp_range,
}
use kinova_gen3_driver.Types.{JointVec, Pose, JointFeedback, JointCommand, position_actuator}
use kinova_gen3_driver.Executor.Sample.{JointTarget}
use kinova_gen3_driver.Gains.{DiffIkParams}
use kinova_gen3_driver.Units.{wrap_to_pi}
use kinova_gen3_driver.Watchdog.{Watchdog, arm, bump, reset, tick}
use kinova_gen3_driver.Modes.{Slots, both, publish, published, JointLimits, continuous}

pub record IkResult (R : Type 0) : Type 0 where
  pub pos_err : R
  pub rot_err : R
  pub iters : ℕ
  pub converged : Bool

pub record JointPositionParams (R : Type 0) : Type 0 where
  pub max_ref_speed : JointVec R
  pub max_following_error : R
  pub q_lower : JointVec R
  pub q_upper : JointVec R
  pub cmd_timeout_s : R
  pub ik_fault_s : R
  pub ik : DiffIkParams R

pub data TargetSource : Type 0 where
  entry_source pose_source joint_source : TargetSource

abbrev pub is_pose_source : TargetSource → Bool
is_pose_source pose_source = true
is_pose_source entry_source = false
is_pose_source joint_source = false

pub record JointPositionMode (R : Type 0) : Type 0 where
  pub urdf : JointLimits R
  pub params : Slots (JointPositionParams R)
  pub entry_q : JointVec R
  pub ext_target : Slots (JointVec R)
  pub pose_target : Slots (Pose R)
  pub source : TargetSource
  pub wd : Watchdog R
  pub speed_scale : R
  pub q_ref : JointVec R
  pub last_ik : IkResult R
  pub ik_bad_s : R
  pub ik_faulted : Bool
  pub ik_q : JointVec R
  pub last_source : TargetSource

module _ {R : Type 0} ⦃d : Double R⦄ where
  abbrev pub no_ik : IkResult R
  no_ik = record { pos_err = nought; rot_err = nought; iters = 0; converged = false }

  abbrev pub or_else : R → R → R
  or_else x y = if d.is_finite x then x else y

  unfoldable pub seed_limits : JointLimits R → JointPositionParams R → JointPositionParams R
  seed_limits u p = record p {
    q_lower = λ i. or_else (p.q_lower i) (u.q_lower i);
    q_upper = λ i. or_else (p.q_upper i) (u.q_upper i);
    max_ref_speed = λ i. clamp_d (or_else (p.max_ref_speed i) (u.v_max i)) nought (u.v_max i);
    ik = record (p.ik) {
      q_lower = λ i. or_else (p.ik.q_lower i) (u.q_lower i);
      q_upper = λ i. or_else (p.ik.q_upper i) (u.q_upper i);
    };
  }

  -- The constructor; `x` is the default pose of the target slots.
  unfoldable pub new_position_mode :
      JointLimits R → JointPositionParams R → Pose R → JointPositionMode R
  unfolding arm
  new_position_mode u p x = record {
    urdf = u;
    params = both (seed_limits u p);
    entry_q = λ _. nought;
    ext_target = both (λ _. nought);
    pose_target = both x;
    source = entry_source;
    wd =
        arm p.cmd_timeout_s (record {
          count = 0;
          timeout_s = nought;
          last_seen = 0;
          stale_s = nought;
          fresh = false;
        });
    speed_scale = one;
    q_ref = λ _. nought;
    last_ik = no_ik;
    ik_bad_s = nought;
    ik_faulted = false;
    ik_q = λ _. nought;
    last_source = entry_source;
  }

  unfoldable pub set_position_scale : R → JointPositionMode R → JointPositionMode R
  set_position_scale s m = record m { speed_scale = s }

  unfoldable pub set_position_params :
      JointPositionParams R → JointPositionMode R → JointPositionMode R
  set_position_params p m = record m { params = publish (seed_limits m.urdf p) m.params }

  unfoldable pub set_joint_target : JointTarget R → JointPositionMode R → JointPositionMode R
  set_joint_target t m = record m {
    ext_target = publish t.q m.ext_target;
    source = joint_source;
    wd = bump m.wd;
  }

  unfoldable pub set_pose_target : Pose R → JointPositionMode R → JointPositionMode R
  set_pose_target x m = record m {
    pose_target = publish x m.pose_target;
    source = pose_source;
    wd = bump m.wd;
  }

  unfoldable pub set_position_timeout : R → JointPositionMode R → JointPositionMode R
  set_position_timeout s m = record m {
    wd = arm (if nought ≤ᵈ s then s else (published m.params).cmd_timeout_s) m.wd;
  }

  unfoldable pub clear_ik_fault : JointPositionMode R → JointPositionMode R
  clear_ik_fault m = record m { ik_faulted = false }

  unfoldable pub enter_position : JointFeedback R → JointPositionMode R → JointPositionMode R
  enter_position fb m = record m {
    entry_q = fb.q;
    q_ref = fb.q;
    source = entry_source;
    last_source = entry_source;
    ik_q = fb.q;
    ik_bad_s = nought;
    ik_faulted = false;
    last_ik = no_ik;
    wd = reset m.wd;
  }

  -- A cycle of a stale stream.
  unfoldable pub freeze : JointFeedback R → JointPositionMode R → JointVec R × JointPositionMode R
  freeze fb m = (fb.q, record m { q_ref = fb.q; last_ik = no_ik; ik_bad_s = nought })

  -- The transition into a pose target.
  unfoldable pub begin_pose : JointPositionMode R → JointPositionMode R
  begin_pose m = if is_pose_source m.last_source then m else record m {
    ik_q = m.q_ref;
    ik_bad_s = nought;
    ik_faulted = false;
    last_source = pose_source;
  }

  -- What a solve leaves: the time without convergence, and the fault that it latches.
  unfoldable pub judge_ik :
      R → R → IkResult R × JointVec R → JointPositionMode R → JointPositionMode R
  judge_ik ik_fault_s dt solved m =
      let bad = m.ik_bad_s +ᵈ dt in
      let m' = record m { last_ik = solved.0; ik_q = solved.1 } in
      if solved.0.converged
      then record m' { ik_bad_s = nought }
      else if nought <ᵈ ik_fault_s
      then record m' {
        ik_bad_s = bad;
        ik_faulted = if ik_fault_s ≤ᵈ bad then true else m.ik_faulted;
      }
      else m'

  module _ (solve : DiffIkParams R → Pose R → JointVec R → IkResult R × JointVec R) where
    unfoldable pub track_pose :
        JointFeedback R → R → JointPositionMode R → JointVec R × JointPositionMode R
    track_pose fb dt m =
        let p = published m.params in
        let begun = begin_pose m in
        let m' = judge_ik p.ik_fault_s dt (solve p.ik (published m.pose_target) begun.ik_q) begun in
        (if m'.ik_faulted then fb.q else m'.ik_q, m')

    unfoldable pub choose_target :
        JointFeedback R → R → JointPositionMode R → JointVec R × JointPositionMode R
    choose_target fb dt m = elim (m.source) [
      | joint_source ↦
          (published m.ext_target, record m { last_ik = no_ik; last_source = joint_source })
      | pose_source ↦ track_pose fb dt m
      | entry_source ↦ (m.entry_q, record m { last_ik = no_ik; last_source = entry_source })
    ]

  -- One joint of the last loop: the limits, the rate, the leash, the wrap, and the limits again.
  unfoldable pub leashed_joint : ℕ → Bool → R → R → R → R → R → R → R → R
  leashed_joint fuel free lower upper max_step max_lead target q_ref q =
      let bounded = d.is_finite lower && d.is_finite upper in
      let tgt = if bounded then clamp_d target lower upper else target in
      let raw = tgt -ᵈ q_ref in
      let err = if free then wrap_to_pi fuel raw else raw in
      let stepped = q_ref +ᵈ clamp_d err (nought -ᵈ max_step) max_step in
      let ahead = stepped -ᵈ q in
      let lead = if free then wrap_to_pi fuel ahead else ahead in
      let leashed =
        if nought <ᵈ max_lead then q +ᵈ clamp_d lead (nought -ᵈ max_lead) max_lead else stepped in
      if free then wrap_to_pi fuel leashed else leashed

  unfoldable pub advance_joint : ℕ → Bool → R → R → R → R → R → R → R → R
  advance_joint fuel free lower upper max_step max_lead target q_ref q =
      let leashed = leashed_joint fuel free lower upper max_step max_lead target q_ref q in
      if d.is_finite lower && d.is_finite upper then clamp_d leashed lower upper else leashed

  module _ (solve : DiffIkParams R → Pose R → JointVec R → IkResult R × JointVec R) where
    unfoldable pub compute_position :
        ℕ
        → JointFeedback R
        → R
        → JointCommand R
        → JointPositionMode R
        → JointCommand R × JointPositionMode R
    compute_position fuel fb dt out m =
        let t = tick dt m.wd in
        let ticked = record m { wd = t.1 } in
        let p = published m.params in
        let chosen = if t.0 then freeze fb ticked else choose_target solve fb dt ticked in
        let q : JointVec R = λ i.
          advance_joint fuel (continuous m.urdf i) (p.q_lower i) (p.q_upper i)
            (m.speed_scale *ᵈ p.max_ref_speed i *ᵈ dt) p.max_following_error (chosen.0 i)
            (chosen.1.q_ref i) (fb.q i) in
        (
          record out {
            mode = position_actuator;
            position = q;
            torque = λ _. nought;
            velocity = λ _. nought;
          },
          record (chosen.1) { q_ref = q },
        )

  -- The reference of a joint whose limits are finite and in order stays within them, as long as the
  -- leashed reference is finite.
  pub advance_joint_limits :
      (o : IsOrdered d) (fuel : ℕ) (free : Bool) (lower upper max_step max_lead target q_ref q : R)
      → d.is_finite lower ≡ true
      → d.is_finite upper ≡ true
      → (lower ≤ᵈ upper) ≡ true
      → d.is_finite (leashed_joint fuel free lower upper max_step max_lead target q_ref q) ≡ true
      → let r = advance_joint fuel free lower upper max_step max_lead target q_ref q in
        ((lower ≤ᵈ r) ≡ true) × ((r ≤ᵈ upper) ≡ true)
  unfolding advance_joint
  advance_joint_limits o fuel free lower upper max_step max_lead target q_ref q f g l w = ground (
    arith,
    clamp_range o (leashed_joint fuel free lower upper max_step max_lead target q_ref q) lower upper
        w f g l,
  )
