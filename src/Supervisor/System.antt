-- ===== src/Supervisor/System.antt =====
-- The whole supervisor as a transition system: what may happen between two steps of its threads, and
-- a run over a schedule. Each handler is one step, except `on_stream_open`, which has one before and
-- one after its settle sleep, and the sampler, which has one for each stretch of an iteration.
-- (A backend serves its stream opens one at a time.)
use kinova_gen3_driver.Prelude.{ℕ, Bool, true, false, ◌&&◌, not, Option, none, some, List, [], ◌∷◌}
use kinova_gen3_driver.Double.{Double, nought, one}
use kinova_gen3_driver.Types.{
  Joint, JointVec, Vector6, HaltReason, ownership_revoked, no_cause, GoalId, TrajectoryGoal,
  CancelRequest, position, StreamOpenRequest, GainsRequest, SpeedOverrideRequest,
  ContactThresholdsRequest, default_theta, ArmState, JointSetpoint, PoseSetpoint, TwistSetpoint,
  GripperSetpoint, LinkState,
}
use kinova_gen3_driver.Session.{new_session}
use kinova_gen3_driver.Gains.{JointImpedanceParams, overlay_profile_gains, default_params}
use kinova_gen3_driver.Contact.{ContactProfiles}
use kinova_gen3_driver.Gripper.{GripperController}
use kinova_gen3_driver.Executor.{new_executor}
use kinova_gen3_driver.Monitor.{Monitor, Dynamics, set_thresholds}
use kinova_gen3_driver.Monitor.Latch.{Event, after}
use kinova_gen3_driver.Supervisor.{
  Supervisor, World, top, draining, ticking, settling_goal, submitting, request_mode,
}
use kinova_gen3_driver.Supervisor.Streams.{
  on_halt, open_begin, open_finish, on_stream_close, on_setpoint_joint_position, on_setpoint_pose,
  on_setpoint_joint_torque, on_setpoint_joint_velocity, on_setpoint_twist,
}
use kinova_gen3_driver.Supervisor.Handlers.{
  on_trajectory_accepted, on_trajectory_cancel, on_link_state, on_set_gains, on_set_speed_override,
  on_set_contact_thresholds, on_query_contact, clear_contact, on_gripper_setpoint, blank_status,
}
use kinova_gen3_driver.Supervisor.Sampler.{top_step, drain_step, start_goal, submit_goal, tick_step}

pub data Input (R : Type 0) : Type 0 where
  goal_accepted : GoalId → TrajectoryGoal R → Input R
  goal_cancel : CancelRequest → Input R
  new_gains : GainsRequest R → Input R
  speed_override_to : SpeedOverrideRequest R → Input R
  contact_thresholds : ContactThresholdsRequest R → Input R
  contact_query : World R → Input R
  contact_clear : World R → Input R
  halt : HaltReason → World R → Input R
  open_asks : StreamOpenRequest R → Input R
  open_wakes : World R → Input R
  close : World R → Input R
  joint_position_to : JointSetpoint R → World R → Input R
  pose_to : PoseSetpoint R → World R → Input R
  joint_torque_to : JointSetpoint R → World R → Input R
  joint_velocity_to : JointSetpoint R → World R → Input R
  twist_to : TwistSetpoint R → World R → Input R
  gripper_to : GripperSetpoint R → Input R
  link_to : LinkState → World R → Input R
  monitor_event : Event R → Input R
  sampler_step : World R → Input R

-- What the deployment gives the constructor.
pub record Deps (R : Type 0) : Type 0 where
  pub grip : Option (GripperController R)
  pub idle_grip : GripperController R
  pub monitor : Option (Monitor R)
  pub profiles : ContactProfiles R
  pub imp_params : JointImpedanceParams R
  pub q_lower : JointVec R
  pub q_upper : JointVec R
  pub v_max : JointVec R
  pub state_snap : ArmState R

module _ {R : Type 0} ⦃d : Double R⦄ where
  -- The constructor past the checks that throw (a null dependency, unusable contact profiles), and
  -- `start`.
  unfoldable pub start : Deps R → Supervisor R
  unfolding new_executor new_session overlay_profile_gains default_params set_thresholds
  start deps = record {
    has_grip = elim (deps.grip) [ none ↦ false | some _ ↦ true ];
    grip = elim (deps.grip) [ none ↦ deps.idle_grip | some g ↦ g ];
    monitor = elim (deps.monitor) [
      | none ↦ none
      | some m ↦ some (set_thresholds deps.profiles.normal m)
    ];
    contact_profiles = deps.profiles;
    contact_profile = default_theta;
    contact_theta = deps.profiles.normal;
    contact_status = blank_status;
    contact_cleared = false;
    continuous = wraps;
    q_lower = deps.q_lower;
    q_upper = deps.q_upper;
    v_max = deps.v_max;
    traj = new_executor wraps;
    traj_sink = position;
    traj_bound_kind = position;
    active_mode_kind = position;
    in_flight = false;
    speed_override = one;
    speed_applied = one;
    session_default_params = overlay_profile_gains deps.imp_params default_params;
    session = new_session;
    stream_open = false;
    close_cause = no_cause;
    stream_hold_q = λ _. nought;
    have_hold_q = false;
    stream_q_ref = λ _. nought;
    stream_qd_cmd = λ _. nought;
    stream_twist_cmd = λ _. nought;
    inbox = [];
    halt_pending = false;
    halt_reason = ownership_revoked;
    ready = true;
    state_snap = deps.state_snap;
    opening = none;
    phase = top;
    active_goal = none;
    q_meas = λ _. nought;
    have_q_meas = false;
    was_latched = false;
    speed = one;
    terminated = false;
    calls = request_mode position ∷ [];
  }
    where
      wraps : Joint → Bool
      wraps i = not (d.is_finite (deps.q_lower i)) && not (d.is_finite (deps.q_upper i))

  -- `on_stream_open` starts unless one is asleep.
  unfoldable pub ask_open : StreamOpenRequest R → Supervisor R → Supervisor R
  ask_open r s = elim (s.opening) [ none ↦ (open_begin r s).1 | some _ ↦ s ]

  unfoldable pub wake_open : World R → Supervisor R → Supervisor R
  wake_open w s = elim (s.opening) [ none ↦ s | some r ↦ (open_finish r w s).1 ]

  unfoldable pub watch : Dynamics R → Event R → Supervisor R → Supervisor R
  watch dyn e s = elim (s.monitor) [
    | none ↦ s
    | some m ↦ record s { monitor = some (after dyn e m) }
  ]

  module _ (fuel : ℕ) (solve : JointVec R → Vector6 R → JointVec R) where
    -- The sampler's next stretch.
    unfoldable pub sample : World R → Supervisor R → Supervisor R
    sample w s = elim (s.phase) [
      | top ↦ top_step fuel solve w s
      | draining ↦ drain_step s
      | ticking ↦ tick_step fuel w s
      | settling_goal id g ↦ start_goal id g (record s { phase = draining })
      | submitting id g ↦ submit_goal id g (record s { phase = draining })
    ]

    module _ (dyn : Dynamics R) where
      unfoldable pub step : Input R → Supervisor R → Supervisor R
      step (goal_accepted id g) s = on_trajectory_accepted id g s
      step (goal_cancel c) s = (on_trajectory_cancel c s).1
      step (new_gains r) s = (on_set_gains r s).1
      step (speed_override_to r) s = (on_set_speed_override r s).1
      step (contact_thresholds r) s = (on_set_contact_thresholds r s).1
      step (contact_query w) s = (on_query_contact w s).1
      step (contact_clear w) s = (clear_contact w s).1
      step (halt r w) s = on_halt r w s
      step (open_asks r) s = ask_open r s
      step (open_wakes w) s = wake_open w s
      step (close w) s = on_stream_close w s
      step (joint_position_to p w) s = on_setpoint_joint_position p w s
      step (pose_to p w) s = on_setpoint_pose p w s
      step (joint_torque_to p w) s = on_setpoint_joint_torque p w s
      step (joint_velocity_to p w) s = on_setpoint_joint_velocity p w s
      step (twist_to p w) s = on_setpoint_twist p w s
      step (gripper_to p) s = on_gripper_setpoint p s
      step (link_to l w) s = on_link_state l w s
      step (monitor_event e) s = watch dyn e s
      step (sampler_step w) s = sample w s

      unfoldable pub run : List (Input R) → Supervisor R → Supervisor R
      run [] s = s
      run (e ∷ es) s = run es (step e s)
