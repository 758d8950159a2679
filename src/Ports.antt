-- ===== src/Ports.antt =====
-- include/kinova_lowlevel/interface/ports.h: the driving ports that a backend calls. One state `D`
-- stands for the objects behind the three sinks (in the driver all three are the Supervisor), and
-- each method is a function of it.
use kinova_gen3_driver.Types.{
  HaltReason, GoalResponse, CancelResponse, GoalId, TrajectoryGoal, CancelRequest, GainsRequest,
  GainsResult, SpeedOverrideRequest, SpeedResult, ArmState, ContactThresholdsRequest,
  ContactThresholdsResult, ContactState, StreamOpenRequest, StreamOpenResult, StreamCloseRequest,
  JointSetpoint, PoseSetpoint, TwistSetpoint, StreamStatus, GripperSetpoint, GripperState,
}

pub record Sinks (R D : Type 0) : Type 0 where
  pub on_trajectory_goal : TrajectoryGoal R → D → GoalResponse × D
  pub on_trajectory_accepted : GoalId → TrajectoryGoal R → D → D
  pub on_trajectory_cancel : CancelRequest → D → CancelResponse × D
  pub on_set_gains : GainsRequest R → D → GainsResult × D
  pub on_set_speed_override : SpeedOverrideRequest R → D → SpeedResult × D
  pub on_query_state : D → ArmState R
  pub on_set_contact_thresholds : ContactThresholdsRequest R → D → ContactThresholdsResult R × D
  pub on_query_contact : D → ContactState R × D
  pub on_halt : HaltReason → D → D
  pub on_stream_open : StreamOpenRequest R → D → StreamOpenResult × D
  pub on_stream_close : StreamCloseRequest → D → D
  pub on_setpoint_joint_position : JointSetpoint R → D → D
  pub on_setpoint_joint_velocity : JointSetpoint R → D → D
  pub on_setpoint_joint_torque : JointSetpoint R → D → D
  pub on_setpoint_pose : PoseSetpoint R → D → D
  pub on_setpoint_twist : TwistSetpoint R → D → D
  pub on_query_stream : D → StreamStatus R
  pub on_gripper_setpoint : GripperSetpoint R → D → D
  pub on_query_gripper : D → GripperState R
