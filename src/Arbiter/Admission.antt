-- ===== src/Arbiter/Admission.antt =====
-- The gate of arbiter.cpp, over all twelve gated methods at once: which of them reach the sink.
use kinova_gen3_driver.Prelude.{◌+◌, ◌≡◌, ◌⊎◌, ◌↔◌, true, false, arith, if◌then◌else◌, u64}
use kinova_gen3_driver.Types.{
  Token, GoalId, disabled, TrajectoryGoal, CancelRequest, GainsRequest, ContactThresholdsRequest,
  StreamOpenRequest, StreamCloseRequest, JointSetpoint, PoseSetpoint, TwistSetpoint,
  GripperSetpoint,
}
use kinova_gen3_driver.Ports.{Sinks}
use kinova_gen3_driver.Arbiter.{
  Arbiter, admit, on_trajectory_goal, on_trajectory_accepted, on_trajectory_cancel, on_set_gains,
  on_set_contact_thresholds, on_stream_open, on_stream_close, on_setpoint_joint_position,
  on_setpoint_joint_velocity, on_setpoint_joint_torque, on_setpoint_pose, on_setpoint_twist,
  on_gripper_setpoint,
}

-- A call of one of the gated methods.
pub data Command (R : Type 0) : Type 0 where
  goal : TrajectoryGoal R → Command R
  accepted : GoalId → TrajectoryGoal R → Command R
  cancel : CancelRequest → Command R
  gains : GainsRequest R → Command R
  thresholds : ContactThresholdsRequest R → Command R
  open_stream : StreamOpenRequest R → Command R
  close_stream : StreamCloseRequest → Command R
  joint_position_setpoint : JointSetpoint R → Command R
  joint_velocity_setpoint : JointSetpoint R → Command R
  joint_torque_setpoint : JointSetpoint R → Command R
  pose_setpoint : PoseSetpoint R → Command R
  twist_setpoint : TwistSetpoint R → Command R
  gripper_setpoint : GripperSetpoint R → Command R

abbrev pub token_of : {R : Type 0} → Command R → Token
token_of (goal r) = r.token
token_of (accepted _ r) = r.token
token_of (cancel c) = c.token
token_of (gains r) = r.token
token_of (thresholds r) = r.token
token_of (open_stream r) = r.token
token_of (close_stream r) = r.token
token_of (joint_position_setpoint p) = p.token
token_of (joint_velocity_setpoint p) = p.token
token_of (joint_torque_setpoint p) = p.token
token_of (pose_setpoint p) = p.token
token_of (twist_setpoint p) = p.token
token_of (gripper_setpoint p) = p.token

module _ {R D : Type 0} (s : Sinks R D) where
  -- The sink's own method for a command.
  abbrev pub deliver : Command R → D → D
  deliver (goal r) d = (s.on_trajectory_goal r d).1
  deliver (accepted id r) d = s.on_trajectory_accepted id r d
  deliver (cancel c) d = (s.on_trajectory_cancel c d).1
  deliver (gains r) d = (s.on_set_gains r d).1
  deliver (thresholds r) d = (s.on_set_contact_thresholds r d).1
  deliver (open_stream r) d = (s.on_stream_open r d).1
  deliver (close_stream r) d = s.on_stream_close r d
  deliver (joint_position_setpoint p) d = s.on_setpoint_joint_position p d
  deliver (joint_velocity_setpoint p) d = s.on_setpoint_joint_velocity p d
  deliver (joint_torque_setpoint p) d = s.on_setpoint_joint_torque p d
  deliver (pose_setpoint p) d = s.on_setpoint_pose p d
  deliver (twist_setpoint p) d = s.on_setpoint_twist p d
  deliver (gripper_setpoint p) d = s.on_gripper_setpoint p d

  -- What a refusal asks of the sink: only a refused threshold change reads the contact state.
  abbrev pub refusal : Command R → D → D
  refusal (thresholds r) d = (s.on_query_contact d).1
  refusal _ d = d

module _ {R G D : Type 0} (s : Sinks R D) where
  unfoldable pub handle : Command R → Arbiter G D → Arbiter G D
  unfolding on_trajectory_goal on_trajectory_accepted on_trajectory_cancel on_set_gains
      on_set_contact_thresholds on_stream_open on_stream_close on_setpoint_joint_position
      on_setpoint_joint_velocity on_setpoint_joint_torque on_setpoint_pose on_setpoint_twist
      on_gripper_setpoint
  handle (goal r) a = (on_trajectory_goal s r a).1
  handle (accepted id r) a = on_trajectory_accepted s id r a
  handle (cancel c) a = (on_trajectory_cancel s c a).1
  handle (gains r) a = (on_set_gains s r a).1
  handle (thresholds r) a = (on_set_contact_thresholds s r a).1
  handle (open_stream r) a = (on_stream_open s r a).1
  handle (close_stream r) a = on_stream_close s r a
  handle (joint_position_setpoint p) a = on_setpoint_joint_position s p a
  handle (joint_velocity_setpoint p) a = on_setpoint_joint_velocity s p a
  handle (joint_torque_setpoint p) a = on_setpoint_joint_torque s p a
  handle (pose_setpoint p) a = on_setpoint_pose s p a
  handle (twist_setpoint p) a = on_setpoint_twist s p a
  handle (gripper_setpoint p) a = on_gripper_setpoint s p a

  -- Every gated method is the same gate: an admitted command changes the arbiter only by what the
  -- sink makes of it, and a refused one only counts the refusal (and, for contact thresholds, reads
  -- the contact state).
  pub handle_gate :
      (c : Command R) (a : Arbiter G D)
      → handle c a ≡ (
          if admit a (token_of c)
          then record a { down = deliver s c a.down }
          else record a { rejected = u64 (a.rejected + 1); down = refusal s c a.down })
  unfolding handle
  handle_gate (goal r) a = ground arith
  handle_gate c a = ground arith

module _ {G D : Type 0} (a : Arbiter G D) (t : Token) where
  -- In enforced mode a command is admitted exactly when the arm is not e-stopped, it is owned, and
  -- the command carries the live token; in disabled mode, exactly when the arm is not e-stopped.
  admit-iff-live :
      (admit a t ≡ true)
      ↔ ((a.estopped ≡ false) × ((a.mode ≡ disabled) ⊎ ((a.owned ≡ true) × (t ≡ a.token))))
  unfolding admit
  admit-iff-live = (ground arith, ground arith)
