-- ===== src/Supervisor/Safety.antt =====
-- The handlers of src/interface/supervisor.cpp and the gains that they let through.
use kinova_gen3_driver.Prelude.{
  ◌≡◌, true, false, none, some, arith, Option-cases, Bool-cases, inl, inr,
}
use kinova_gen3_driver.Double.{Double, IsOrdered}
use kinova_gen3_driver.Types.{
  GoalId, TrajectoryGoal, contact, arm_unavailable, LinkState, running, faulted, connecting,
  CancelRequest, GainsRequest, ContactThresholdsRequest, JointSetpoint, PoseSetpoint, TwistSetpoint,
  GripperSetpoint, SpeedOverrideRequest,
}
use kinova_gen3_driver.Supervisor.{Supervisor, World}
use kinova_gen3_driver.Supervisor.Streams.{
  on_setpoint_joint_position, on_setpoint_pose, on_setpoint_joint_torque,
  on_setpoint_joint_velocity, on_setpoint_twist, open_refusal, open_begin, seed_stream, open_commit,
  is_kind,
}
use kinova_gen3_driver.Supervisor.Handlers.{
  on_trajectory_accepted, on_trajectory_cancel, on_link_state, link_down, on_set_gains,
  on_set_speed_override, set_speed_override, on_set_contact_thresholds, with_monitor_thresholds,
  on_query_contact, clear_contact, clear_latched, on_gripper_setpoint,
}
use kinova_gen3_driver.Session.{open_session}
use kinova_gen3_driver.Supervisor.System.{ask_open}
use kinova_gen3_driver.Types.{impedance, StreamOpenRequest}
use kinova_gen3_driver.Supervisor.Floor.{
  acceptable, resolve_gains-above_floor, IsSafe, open_ready, apply_impedance_gains-IsSafe,
  on_halt-IsSafe,
}

module _ {R : Type 0} ⦃d : Double R⦄ (o : IsOrdered d) where
  pub on_trajectory_accepted-IsSafe :
      (i : GoalId) (g : TrajectoryGoal R) (s : Supervisor R)
      → IsSafe s
      → IsSafe (on_trajectory_accepted i g s)
  unfolding on_trajectory_accepted
  on_trajectory_accepted-IsSafe i g s v = ground arith

  pub on_trajectory_cancel-IsSafe :
      (c : CancelRequest) (s : Supervisor R) → IsSafe s → IsSafe ((on_trajectory_cancel c s).1)
  unfolding on_trajectory_cancel
  on_trajectory_cancel-IsSafe c s v = ground arith

  pub on_set_gains-IsSafe :
      (r : GainsRequest R) (s : Supervisor R) → IsSafe s → IsSafe ((on_set_gains r s).1)
  unfolding on_set_gains
  on_set_gains-IsSafe r s v = elim (Bool-cases (acceptable r.spec)) [
    | inl a ↦
        let (q, e, h) =
          resolve_gains-above_floor o r.spec s.session_default_params a v.base_above in
        ground arith
    | inr a ↦ ground arith
  ]

  pub on_set_speed_override-IsSafe :
      (r : SpeedOverrideRequest R) (s : Supervisor R)
      → IsSafe s
      → IsSafe ((on_set_speed_override r s).1)
  unfolding on_set_speed_override set_speed_override
  on_set_speed_override-IsSafe r s v = ground arith

  pub on_set_contact_thresholds-IsSafe :
      (r : ContactThresholdsRequest R) (s : Supervisor R)
      → IsSafe s
      → IsSafe ((on_set_contact_thresholds r s).1)
  unfolding on_set_contact_thresholds with_monitor_thresholds
  on_set_contact_thresholds-IsSafe r s v = ground arith

  pub on_query_contact-IsSafe :
      (w : World R) (s : Supervisor R) → IsSafe s → IsSafe ((on_query_contact w s).1)
  unfolding on_query_contact
  on_query_contact-IsSafe w s v = ground arith

  pub clear_contact-IsSafe :
      (w : World R) (s : Supervisor R) → IsSafe s → IsSafe ((clear_contact w s).1)
  unfolding clear_contact clear_latched
  clear_contact-IsSafe w s v = ground (arith, on_halt-IsSafe contact w s v)

  pub on_setpoint_joint_position-IsSafe :
      (p : JointSetpoint R) (w : World R) (s : Supervisor R)
      → IsSafe s
      → IsSafe (on_setpoint_joint_position p w s)
  unfolding on_setpoint_joint_position
  on_setpoint_joint_position-IsSafe p w s v = ground arith

  pub on_setpoint_pose-IsSafe :
      (p : PoseSetpoint R) (w : World R) (s : Supervisor R)
      → IsSafe s
      → IsSafe (on_setpoint_pose p w s)
  unfolding on_setpoint_pose
  on_setpoint_pose-IsSafe p w s v = ground arith

  pub on_setpoint_joint_torque-IsSafe :
      (p : JointSetpoint R) (w : World R) (s : Supervisor R)
      → IsSafe s
      → IsSafe (on_setpoint_joint_torque p w s)
  unfolding on_setpoint_joint_torque
  on_setpoint_joint_torque-IsSafe p w s v = ground arith

  pub on_setpoint_joint_velocity-IsSafe :
      (p : JointSetpoint R) (w : World R) (s : Supervisor R)
      → IsSafe s
      → IsSafe (on_setpoint_joint_velocity p w s)
  unfolding on_setpoint_joint_velocity
  on_setpoint_joint_velocity-IsSafe p w s v = ground arith

  pub on_setpoint_twist-IsSafe :
      (p : TwistSetpoint R) (w : World R) (s : Supervisor R)
      → IsSafe s
      → IsSafe (on_setpoint_twist p w s)
  unfolding on_setpoint_twist
  on_setpoint_twist-IsSafe p w s v = ground arith

  pub on_gripper_setpoint-IsSafe :
      (p : GripperSetpoint R) (s : Supervisor R) → IsSafe s → IsSafe (on_gripper_setpoint p s)
  unfolding on_gripper_setpoint
  on_gripper_setpoint-IsSafe p s v = ground arith

  pub on_link_state-IsSafe :
      (l : LinkState) (w : World R) (s : Supervisor R) → IsSafe s → IsSafe (on_link_state l w s)
  unfolding on_link_state link_down
  on_link_state-IsSafe running w s v = ground arith
  on_link_state-IsSafe connecting w s v =
      ground (arith, on_halt-IsSafe arm_unavailable w (record s { ready = false }) (ground arith))
  on_link_state-IsSafe faulted w s v =
      ground (arith, on_halt-IsSafe arm_unavailable w (record s { ready = false }) (ground arith))

  -- What `on_stream_open` lets through has gains that can be applied.
  open_refusal-ready :
      (r : StreamOpenRequest R) (s : Supervisor R)
      → open_refusal r s ≡ none
      → open_ready (some r) ≡ true
  unfolding open_refusal
  open_refusal-ready r s e = ground arith

  pub ask_open-IsSafe :
      (r : StreamOpenRequest R) (s : Supervisor R) → IsSafe s → IsSafe (ask_open r s)
  unfolding ask_open open_begin
  ask_open-IsSafe r s v = elim (Option-cases (open_refusal r s)) [
    | inl e ↦ ground (arith, open_refusal-ready r s e)
    | inr (why, e) ↦ ground arith
  ]

  pub seed_stream-IsSafe :
      (r : StreamOpenRequest R) (w : World R) (s : Supervisor R)
      → IsSafe s
      → IsSafe (seed_stream r w s)
  unfolding seed_stream
  seed_stream-IsSafe r w s v = ground arith

  pub open_commit-IsSafe :
      (r : StreamOpenRequest R) (w : World R) (s : Supervisor R)
      → open_ready (some r) ≡ true
      → IsSafe s
      → IsSafe ((open_commit r w s).1)
  unfolding open_commit
  open_commit-IsSafe r w s ready v =
      let t = record s { session = (open_session r w.now_s s.session).1 } in
      elim (Bool-cases (is_kind r.control_mode impedance)) [
        | inl k ↦
            ground (arith, apply_impedance_gains-IsSafe o r.gains t (ground arith) (ground arith))
        | inr k ↦ ground arith
      ]
