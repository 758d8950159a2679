-- ===== src/Types.antt =====
-- include/kinova_lowlevel/interface/value_types.h with the enums of trajectory_executor.h and
-- arm_link.h, joint_types.h, gripper_types.h and cartesian_types.h. `Token` and `GoalId`, arrays of 16 bytes, are
-- the 128-bit numbers that those bytes spell; all-zero is 0. An enum that can arrive as a raw byte
-- has a constructor for the values outside the enumeration.
use kinova_gen3_driver.Prelude.{
  ◌==◌, ℕ, ◌≡◌, arith, Bool, true, false, String, List, [], ◌∷◌, Option, All,
}

-- A joint-space vector has one entry for each of the 7 joints.
pub data Joint : Type 0 where
  j1 j2 j3 j4 j5 j6 j7 : Joint

-- The order of `for (int i = 0; i < kNumJoints; ++i)`.
abbrev pub joints : List Joint
joints = j1 ∷ j2 ∷ j3 ∷ j4 ∷ j5 ∷ j6 ∷ j7 ∷ []

-- The index of a joint, from 0, and whether two are the same.
abbrev pub index : Joint → ℕ
index j1 = 0
index j2 = 1
index j3 = 2
index j4 = 3
index j5 = 4
index j6 = 5
index j7 = 6

abbrev pub same : Joint → Joint → Bool
same i j = index i == index j

abbrev pub JointVec : Type 0 → Type 0
JointVec R = Joint → R

pub every_joint {ℓ} : (P : Joint → Type ℓ) → All P joints → (i : Joint) → P i
every_joint P (a, (b, (c, (e, (f, (g, (h, _))))))) j1 = a
every_joint P (a, (b, (c, (e, (f, (g, (h, _))))))) j2 = b
every_joint P (a, (b, (c, (e, (f, (g, (h, _))))))) j3 = c
every_joint P (a, (b, (c, (e, (f, (g, (h, _))))))) j4 = e
every_joint P (a, (b, (c, (e, (f, (g, (h, _))))))) j5 = f
every_joint P (a, (b, (c, (e, (f, (g, (h, _))))))) j6 = g
every_joint P (a, (b, (c, (e, (f, (g, (h, _))))))) j7 = h

pub data Axis : Type 0 where
  vx vy vz wx wy wz : Axis

abbrev pub Vector6 : Type 0 → Type 0
Vector6 R = Axis → R

pub record Pose (R : Type 0) : Type 0 where
  pub px : R
  pub py : R
  pub pz : R
  pub qw : R
  pub qx : R
  pub qy : R
  pub qz : R

abbrev pub GoalId : Type 0
GoalId = ℕ

abbrev pub Token : Type 0
Token = ℕ

pub data ArbitrationMode : Type 0 where
  enforced disabled : ArbitrationMode

pub data HaltReason : Type 0 where
  ownership_revoked emergency_stop operator_request arm_unavailable contact : HaltReason

pub data StreamCloseCause : Type 0 where
  no_cause client_request deadline_expired halted ik_fault contact_stop : StreamCloseCause

pub data ControlModeKind : Type 0 where
  position impedance velocity torque : ControlModeKind

pub data SetpointKind : Type 0 where
  joint_position ee_pose joint_velocity ee_twist joint_torque : SetpointKind

pub data Preemption : Type 0 where
  queue latest_wins : Preemption

pub data LinkState : Type 0 where
  connecting running faulted : LinkState

pub data GoalResponse : Type 0 where
  accept_goal reject_goal reject_unauthorized : GoalResponse

pub data CancelResponse : Type 0 where
  accept_cancel reject_cancel : CancelResponse

pub data GainsProfile : Type 0 where
  session_default soft medium stiff custom unknown_profile : GainsProfile

pub data ContactProfile : Type 0 where
  default_theta sensitive loose custom_theta unknown_theta : ContactProfile

abbrev pub mode_eq : ControlModeKind → ControlModeKind → Bool
mode_eq position position = true
mode_eq impedance impedance = true
mode_eq velocity velocity = true
mode_eq torque torque = true
mode_eq _ _ = false

pub mode_eq-eq : (m n : ControlModeKind) → mode_eq m n ≡ true → m ≡ n
mode_eq-eq m n h = ground arith

abbrev pub kind_eq : SetpointKind → SetpointKind → Bool
kind_eq joint_position joint_position = true
kind_eq ee_pose ee_pose = true
kind_eq joint_velocity joint_velocity = true
kind_eq ee_twist ee_twist = true
kind_eq joint_torque joint_torque = true
kind_eq _ _ = false

-- `namespace result_code`: the constants, kept as names for -1, -4, ... -11.
pub data ResultCode : Type 0 where
  successful invalid_goal path_tolerance_violated goal_tolerance_violated preempted : ResultCode
  planning_failed not_authorized halted_code stream_rejected contact_stop_code : ResultCode

pub record GripperCommand (R : Type 0) : Type 0 where
  pub position : R
  pub speed : R
  pub force : R
  pub active : Bool

pub record GripperFeedback (R : Type 0) : Type 0 where
  pub position : R
  pub effort : R
  pub current : R
  pub present : Bool

pub record JointFeedback (R : Type 0) : Type 0 where
  pub q : JointVec R
  pub qd : JointVec R
  pub tau : JointVec R
  pub current : JointVec R
  pub frame_id : ℕ
  pub fault : Bool
  pub low_level : Bool
  pub gripper : GripperFeedback R

pub data ActuatorMode : Type 0 where
  position_actuator velocity_actuator torque_actuator current_actuator : ActuatorMode

pub record JointCommand (R : Type 0) : Type 0 where
  pub mode : ActuatorMode
  pub position : JointVec R
  pub velocity : JointVec R
  pub torque : JointVec R
  pub gripper : GripperCommand R

pub record JointImpedanceGainValues (R : Type 0) : Type 0 where
  pub kq : JointVec R
  pub zeta : R
  pub torque_limit : JointVec R

pub record ImpedanceGains (R : Type 0) : Type 0 where
  pub profile : GainsProfile
  pub custom_values : JointImpedanceGainValues R

pub record StreamOpenRequest (R : Type 0) : Type 0 where
  pub kind : SetpointKind
  pub control_mode : ControlModeKind
  pub timeout_s : R
  pub gains : ImpedanceGains R
  pub token : Token

pub record StreamOpenResult : Type 0 where
  pub accepted : Bool
  pub error_code : ResultCode
  pub message : String

pub record StreamCloseRequest : Type 0 where
  pub token : Token

pub record JointSetpoint (R : Type 0) : Type 0 where
  pub values : JointVec R
  pub token : Token

pub record PoseSetpoint (R : Type 0) : Type 0 where
  pub pose : Pose R
  pub token : Token

pub record TwistSetpoint (R : Type 0) : Type 0 where
  pub twist : Vector6 R
  pub token : Token

pub record GripperSetpoint (R : Type 0) : Type 0 where
  pub command : GripperCommand R
  pub token : Token

pub record GripperState (R : Type 0) : Type 0 where
  pub position : R
  pub effort : R
  pub current : R
  pub present : Bool
  pub stamp_s : R

pub record JointWaypoint (R : Type 0) : Type 0 where
  pub q : JointVec R
  pub t_s : R
  pub qd : JointVec R
  pub qdd : JointVec R

pub record Trajectory (R : Type 0) : Type 0 where
  pub points : List (JointWaypoint R)
  pub has_velocities : Bool
  pub has_accelerations : Bool

pub record TrajectoryGoal (R : Type 0) : Type 0 where
  pub trajectory : Trajectory R
  pub path_tolerance : JointVec R
  pub goal_tolerance : JointVec R
  pub goal_time_tolerance_s : R
  pub speed_scale : R
  pub control_mode : ControlModeKind
  pub preemption : Preemption
  pub gains : ImpedanceGains R
  pub sender_id : String
  pub token : Token

pub record TrajectoryResult : Type 0 where
  pub error_code : ResultCode
  pub error_string : String

pub record ArmState (R : Type 0) : Type 0 where
  pub q : JointVec R
  pub qd : JointVec R
  pub tau : JointVec R
  pub ee_pose : Pose R
  pub ee_twist : Vector6 R
  pub ee_wrench : Vector6 R
  pub fault : Bool
  pub stamp_s : R
  pub speed_override : R

pub record GainsRequest (R : Type 0) : Type 0 where
  pub spec : ImpedanceGains R
  pub token : Token

pub record GainsResult : Type 0 where
  pub accepted : Bool
  pub message : String

pub record SpeedOverrideRequest (R : Type 0) : Type 0 where
  pub scale : R
  pub sender_id : String
  pub token : Token

pub record SpeedResult : Type 0 where
  pub accepted : Bool
  pub message : String

pub record ContactThresholdsRequest (R : Type 0) : Type 0 where
  pub profile : ContactProfile
  pub custom_values : JointVec R
  pub token : Token

pub record ContactThresholdsResult (R : Type 0) : Type 0 where
  pub accepted : Bool
  pub message : String
  pub profile : ContactProfile
  pub theta : JointVec R

pub record CancelRequest : Type 0 where
  pub id : GoalId
  pub token : Token

pub record StreamStatus (R : Type 0) : Type 0 where
  pub is_open : Bool
  pub kind : SetpointKind
  pub control_mode : ControlModeKind
  pub timeout_s : R
  pub rejected_count : ℕ

pub record GrantResult : Type 0 where
  pub accepted : Bool
  pub token : Token
  pub generation : ℕ
  pub message : String

pub record ArbitrationStatus : Type 0 where
  pub mode : ArbitrationMode
  pub estopped : Bool
  pub owned : Bool
  pub owner_id : String
  pub generation : ℕ
  pub rejected_count : ℕ

-- contact_monitor.h's published status.
pub data ContactDetection : Type 0 where
  observe enforce : ContactDetection

pub data ContactPhase : Type 0 where
  settling armed latched_phase : ContactPhase

pub record ContactTrip (R : Type 0) : Type 0 where
  pub cycle : ℕ
  pub joint : Option Joint
  pub r : JointVec R
  pub theta : JointVec R
  pub q : JointVec R
  pub qd : JointVec R

pub record ContactStatus (R : Type 0) : Type 0 where
  pub detection : ContactDetection
  pub phase : ContactPhase
  pub settled : Bool
  pub r : JointVec R
  pub theta : JointVec R
  pub would_trips : ℕ
  pub bad_samples : ℕ
  pub has_trip : Bool
  pub last : ContactTrip R

pub record ContactState (R : Type 0) : Type 0 where
  pub enabled : Bool
  pub profile : ContactProfile
  pub status : ContactStatus R
