-- ===== src/Tests.antt =====
-- Concrete numbers, requests and sinks for the examples.
mod Ownership
mod Limits
mod Driving
mod Overlap
mod Linking
mod Looping
mod Streaming
mod Arm
mod Packets
mod Transports
use kinova_gen3_driver.Prelude.{ℕ, ◌+◌, ◌≡◌, true, false, none, some, List, [], ◌∷◌}
use kinova_gen3_driver.Double.{Double, Nano, nano, nought, one}
use kinova_gen3_driver.Types.{
  JointVec, Vector6, Pose, TrajectoryGoal, JointWaypoint, Trajectory, ImpedanceGains, JointFeedback,
  session_default, accept_goal, accept_cancel, position, latest_wins, successful, joint_position,
  default_theta, ContactStatus, enforce, settling, ArmState, ContactThresholdsRequest,
}
use kinova_gen3_driver.Ports.{Sinks}
use kinova_gen3_driver.Arbiter.{Rng}

abbrev pub at : ℕ → JointVec Nano
at n = λ _. nano.lit n 0

abbrev pub still : Vector6 Nano
still = λ _. nano.lit 0 0

abbrev pub origin : Pose Nano
origin = record {
  px = nano.lit 0 0;
  py = nano.lit 0 0;
  pz = nano.lit 0 0;
  qw = nano.lit 1 0;
  qx = nano.lit 0 0;
  qy = nano.lit 0 0;
  qz = nano.lit 0 0;
}

abbrev pub bare_gains : ImpedanceGains Nano
bare_gains = record {
  profile = session_default;
  custom_values = record { kq = at 100; zeta = nano.lit 1 0; torque_limit = at 38 };
}

abbrev pub waypoint : ℕ → ℕ → JointWaypoint Nano
waypoint q t = record { q = at q; t_s = nano.lit t 0; qd = at 0; qdd = at 0 }

abbrev pub short_plan : Trajectory Nano
short_plan = record {
  points = waypoint 0 0 ∷ waypoint 1 2 ∷ [];
  has_velocities = false;
  has_accelerations = false;
}

abbrev pub short_goal : TrajectoryGoal Nano
short_goal = record {
  trajectory = short_plan;
  path_tolerance = at 0;
  goal_tolerance = at 0;
  goal_time_tolerance_s = nano.lit 0 0;
  speed_scale = nano.lit 1 0;
  control_mode = position;
  preemption = latest_wins;
  gains = bare_gains;
  sender_id = "test";
  token = 7;
}

abbrev pub feedback : JointFeedback Nano
feedback = record {
  q = at 0;
  qd = at 0;
  tau = at 0;
  current = at 0;
  frame_id = 1;
  fault = false;
  low_level = true;
  gripper = record {
    position = nano.lit 0 0;
    effort = nano.lit 0 0;
    current = nano.lit 0 0;
    present = true;
  };
}

abbrev pub no_status : ContactStatus Nano
no_status = record {
  detection = enforce;
  phase = settling;
  settled = false;
  r = at 0;
  theta = at 20;
  would_trips = 0;
  bad_samples = 0;
  has_trip = false;
  last = record { cycle = 0; joint = none; r = at 0; theta = at 0; q = at 0; qd = at 0 };
}

abbrev pub arm_state : ArmState Nano
arm_state = record {
  q = at 0;
  qd = at 0;
  tau = at 0;
  ee_pose = origin;
  ee_twist = still;
  ee_wrench = still;
  fault = false;
  stamp_s = nano.lit 0 0;
  speed_override = nano.lit 1 0;
}

-- Counts the commands, and the halts, queries and speed changes.
abbrev pub Counts : Type 0
Counts = ℕ × ℕ

abbrev command_seen : Counts → Counts
command_seen (c, h) = (c + 1, h)

abbrev other_seen : Counts → Counts
other_seen (c, h) = (c, h + 1)

abbrev pub counting : Sinks Nano Counts
counting = record {
  on_trajectory_goal = λ g d. (accept_goal, command_seen d);
  on_trajectory_accepted = λ i g d. command_seen d;
  on_trajectory_cancel = λ c d. (accept_cancel, command_seen d);
  on_set_gains = λ r d. (record { accepted = true; message = "" }, command_seen d);
  on_set_speed_override = λ r d. (record { accepted = true; message = "" }, other_seen d);
  on_query_state = λ d. arm_state;
  on_set_contact_thresholds = λ r d. (
    record { accepted = true; message = ""; profile = default_theta; theta = at 20 },
    command_seen d,
  );
  on_query_contact =
      λ d. (record { enabled = true; profile = default_theta; status = no_status }, other_seen d);
  on_halt = λ r d. other_seen d;
  on_stream_open =
      λ r d. (record { accepted = true; error_code = successful; message = "" }, command_seen d);
  on_stream_close = λ r d. command_seen d;
  on_setpoint_joint_position = λ p d. command_seen d;
  on_setpoint_joint_velocity = λ p d. command_seen d;
  on_setpoint_joint_torque = λ p d. command_seen d;
  on_setpoint_pose = λ p d. command_seen d;
  on_setpoint_twist = λ p d. command_seen d;
  on_query_stream = λ d. record {
    is_open = false;
    kind = joint_position;
    control_mode = position;
    timeout_s = nano.lit 0 0;
    rejected_count = 0;
  };
  on_gripper_setpoint = λ p d. command_seen d;
  on_query_gripper = λ d. record {
    position = nano.lit 0 0;
    effort = nano.lit 0 0;
    current = nano.lit 0 0;
    present = true;
    stamp_s = nano.lit 0 0;
  };
}

-- A source whose words are all 5.
instance abbrev pub fives : Rng ℕ
fives = record { draw = λ n. (5, n + 1) }
