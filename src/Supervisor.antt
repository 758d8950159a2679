-- ===== src/Supervisor.antt =====
-- src/interface/supervisor.cpp: the state that its threads share, and the calls that they make. What
-- a handler reads from outside (the clock, the snapshot of the arm, the modes' own references) is a
-- `World`; every call of a mode, the executor thread or the action server is recorded in `calls`,
-- newest first. A mutex-protected block is one step.
pub mod Streams
pub mod Handlers
pub mod Sampler
pub mod System
pub mod Frame
pub mod Settlement
pub mod Ledger
pub mod Schedule
pub mod Halting
pub mod Floor
pub mod Safety
pub mod Applied
use kinova_gen3_driver.Prelude.{
  ℕ, Bool, true, false, Option, none, some, List, [], ◌∷◌, String, is_some, if◌then◌else◌,
}
use kinova_gen3_driver.Double.{Double}
use kinova_gen3_driver.Types.{
  Joint, JointVec, Vector6, Pose, GoalId, HaltReason, ownership_revoked, emergency_stop,
  operator_request, arm_unavailable, contact, StreamCloseCause, ControlModeKind, position,
  impedance, velocity, torque, StreamOpenRequest, TrajectoryGoal, TrajectoryResult, ResultCode,
  halted_code, contact_stop_code, JointFeedback, ArmState, ContactProfile, ContactStatus,
}
use kinova_gen3_driver.Session.{Session}
use kinova_gen3_driver.Gripper.{GripperController}
use kinova_gen3_driver.Gains.{JointImpedanceParams}
use kinova_gen3_driver.Contact.{ContactProfiles}
use kinova_gen3_driver.Monitor.{Monitor}
use kinova_gen3_driver.Executor.{Executor}
use kinova_gen3_driver.Executor.Sample.{JointTarget}

-- A mode is named by its kind: `pos_`, `imp_`, `vel_`, `tau_`.
pub data Call (R : Type 0) : Type 0 where
  request_mode : ControlModeKind → Call R
  set_target : ControlModeKind → JointVec R → Call R
  set_joint_target : ControlModeKind → JointTarget R → Call R
  set_pose_target : ControlModeKind → Pose R → Call R
  set_torque : JointVec R → Call R
  set_velocity_target : JointVec R → Call R
  set_twist_target : Vector6 R → Call R
  set_command_timeout : ControlModeKind → R → Call R
  set_speed_scale : ControlModeKind → R → Call R
  clear_ik_fault : Call R
  set_gains : JointImpedanceParams R → Call R
  settle : GoalId → TrajectoryResult → Call R
  publish_feedback : GoalId → JointVec R → R → Call R

-- An entry of `inbox_`: a goal with the reason of the halt that marked it, or a cancel.
pub data Inbound (R : Type 0) : Type 0 where
  goal_in : GoalId → TrajectoryGoal R → Option HaltReason → Inbound R
  cancel_in : GoalId → Inbound R

-- Where the sampler thread stands: at the top of an iteration, draining the inbox, asleep in the
-- mode settle of a goal, between its last look at the halt and the submission of a goal, or about to
-- tick.
pub data Phase (R : Type 0) : Type 0 where
  top draining ticking : Phase R
  settling_goal submitting : GoalId → TrajectoryGoal R → Phase R

pub record Supervisor (R : Type 0) : Type 0 where
  pub has_grip : Bool
  pub grip : GripperController R
  pub monitor : Option (Monitor R)
  pub contact_profiles : ContactProfiles R
  pub contact_profile : ContactProfile
  pub contact_theta : JointVec R
  pub contact_status : ContactStatus R
  pub contact_cleared : Bool
  pub continuous : Joint → Bool
  pub q_lower : JointVec R
  pub q_upper : JointVec R
  pub v_max : JointVec R
  pub traj : Executor R
  pub traj_sink : ControlModeKind
  pub traj_bound_kind : ControlModeKind
  pub active_mode_kind : ControlModeKind
  pub in_flight : Bool
  pub speed_override : R
  pub speed_applied : R
  pub session_default_params : JointImpedanceParams R
  pub session : Session R
  pub stream_open : Bool
  pub close_cause : StreamCloseCause
  pub stream_hold_q : JointVec R
  pub have_hold_q : Bool
  pub stream_q_ref : JointVec R
  pub stream_qd_cmd : JointVec R
  pub stream_twist_cmd : Vector6 R
  pub inbox : List (Inbound R)
  pub halt_pending : Bool
  pub halt_reason : HaltReason
  pub ready : Bool
  pub state_snap : ArmState R
  -- The stream open that is asleep in its mode settle.
  pub opening : Option (StreamOpenRequest R)
  -- Locals of `sampler_loop`; `active_goal` is `active_id` where `have_active`.
  pub phase : Phase R
  pub active_goal : Option GoalId
  pub q_meas : JointVec R
  pub have_q_meas : Bool
  pub was_latched : Bool
  pub speed : R
  -- An exception left a thread that catches nothing.
  pub terminated : Bool
  pub calls : List (Call R)

pub record World (R : Type 0) : Type 0 where
  pub now_s : R
  pub tick_dt : R
  pub snap : Option (JointFeedback R)
  pub ik_faulted : Bool
  pub pos_reference : JointVec R
  pub imp_reference : JointVec R
  pub status_whole : Bool

unfoldable pub halt_reason_string : HaltReason → String
halt_reason_string ownership_revoked = "halted: ownership revoked"
halt_reason_string emergency_stop = "halted: emergency stop"
halt_reason_string operator_request = "halted: operator request"
halt_reason_string arm_unavailable = "halted: arm fault or connection lost"
halt_reason_string contact = "halted: unexpected contact"

unfoldable pub halt_result_code : HaltReason → ResultCode
halt_result_code contact = contact_stop_code
halt_result_code ownership_revoked = halted_code
halt_result_code emergency_stop = halted_code
halt_result_code operator_request = halted_code
halt_result_code arm_unavailable = halted_code

-- The mode that owns a joint sink, and the one that owns a pose sink.
unfoldable pub sink_for : ControlModeKind → Option ControlModeKind
sink_for position = some position
sink_for impedance = some impedance
sink_for torque = none
sink_for velocity = none

unfoldable pub pose_sink_for : ControlModeKind → Option ControlModeKind
pose_sink_for impedance = some impedance
pose_sink_for position = some position
pose_sink_for velocity = none
pose_sink_for torque = none

abbrev pub is_contact : HaltReason → Bool
is_contact contact = true
is_contact ownership_revoked = false
is_contact emergency_stop = false
is_contact operator_request = false
is_contact arm_unavailable = false

module _ {R : Type 0} where
  abbrev pub emit : Call R → Supervisor R → Supervisor R
  emit c s = record s { calls = c ∷ s.calls }

  abbrev pub latched_in : Option (Monitor R) → Bool
  latched_in none = false
  latched_in (some m) = m.latched

  unfoldable pub contact_latched : Supervisor R → Bool
  contact_latched s = latched_in s.monitor

  -- `sampled_q`: the last good reading stands in for a torn one.
  abbrev pub sampled_q : Option (JointFeedback R) → JointVec R → JointVec R
  sampled_q none last = last
  sampled_q (some fb) last = fb.q

abbrev pub result_of : ResultCode → String → TrajectoryResult
result_of code text = record { error_code = code; error_string = text }

unfoldable pub halt_result : HaltReason → TrajectoryResult
unfolding halt_reason_string halt_result_code
halt_result r = result_of (halt_result_code r) (halt_reason_string r)
