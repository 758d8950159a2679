-- ===== src/Teleop/Server.antt =====
-- apps/teleop_socket_server.cpp: the receiver of the teleop server and the packet that its other thread
-- streams back. A datagram is the bytes that `recvfrom` leaves in the buffer. The bit patterns of
-- `double` and `float`, the normalization of a quaternion and the forward kinematics are parameters; the
-- control modes and the gripper controller are the driver's.
use kinova_gen3_driver.Prelude.{
  ℕ, ◌+◌, Bool, true, false, not, ◌||◌, Option, none, some, List, if◌then◌else◌, ltb, ◌==◌, length,
  ◌⊎◌, inl, inr,
}
use kinova_gen3_driver.Double.{Double, one}
use kinova_gen3_driver.Types.{Pose, JointVec, JointFeedback, GripperCommand}
use kinova_gen3_driver.Gains.{JointImpedanceParams}
use kinova_gen3_driver.Gripper.{GripperController, set_target}
use kinova_gen3_driver.Modes.CartesianImpedance.{
  CartesianImpedanceParams, CartesianImpedanceMode, default_cartesian, set_cartesian_gains,
  set_cartesian_target,
}
use kinova_gen3_driver.Modes.JointImpedance.{
  JointImpedanceMode, set_impedance_gains, set_impedance_pose,
}
use kinova_gen3_driver.Teleop.{
  magic_number, version_number, pose_target, set_gains, control, feedback, clear_faults, rehome,
  freeze, shutdown, Header, PoseTargetPacket, GainsPacket, ControlPacket, FeedbackPacket,
  get_header, get_pose, get_gains, get_control,
}

-- Only the selected mode is constructed.
abbrev pub Mode : Type 0 → Type 0
Mode R = CartesianImpedanceMode R ⊎ JointImpedanceMode R

-- What the threads of the server share; `clears` counts the calls of `transport.clear_faults`.
pub record Server (R : Type 0) : Type 0 where
  pub mode : Mode R
  pub jgains : JointImpedanceParams R
  pub injector : GripperController R
  pub client : Option ℕ
  pub last_control_seq : ℕ
  pub stop : Bool
  pub warned : Bool
  pub clears : ℕ

-- `double` and `float` as their bits, and the code of others.
pub record Outside (R : Type 0) : Type 0 where
  pub of_double : ℕ → R
  pub of_float : ℕ → R
  pub to_double : R → ℕ
  pub to_float : R → ℕ
  pub normalized : Pose R → Pose R
  pub fk : JointVec R → Pose R
  pub home_pose : Pose R

module _ {R : Type 0} ⦃d : Double R⦄ (o : Outside R) where
  abbrev pub pose_from_packet : PoseTargetPacket → Pose R
  pose_from_packet p = o.normalized (record {
    px = o.of_double p.px;
    py = o.of_double p.py;
    pz = o.of_double p.pz;
    qw = o.of_double p.qw;
    qx = o.of_double p.qx;
    qy = o.of_double p.qy;
    qz = o.of_double p.qz;
  })

  unfoldable pub set_mode_target : Pose R → Mode R → Mode R
  set_mode_target x (inl m) = inl (set_cartesian_target x m)
  set_mode_target x (inr m) = inr (set_impedance_pose x m)

  -- A default `GripperCommand` with the position of the packet.
  abbrev pub gripper_from_packet : PoseTargetPacket → GripperCommand R
  gripper_from_packet p = record {
    position = o.of_float p.gripper;
    speed = one;
    force = d.lit 5 1;
    active = false;
  }

  unfoldable pub on_pose : PoseTargetPacket → Server R → Server R
  unfolding set_mode_target
  on_pose p s = record s {
    mode = set_mode_target (pose_from_packet p) s.mode;
    injector = set_target (gripper_from_packet p) s.injector;
  }

  -- The Cartesian branch starts from default parameters, the joint branch from those of the start.
  unfoldable pub cartesian_from_packet : GainsPacket → CartesianImpedanceParams R
  cartesian_from_packet p = record (default_cartesian {R = R}) {
    kx = λ a. o.of_double (p.kx a);
    dx = λ a. o.of_double (p.dx a);
    nullspace_kp = o.of_double p.nullspace_kp;
    nullspace_kd = o.of_double p.nullspace_kd;
    pinv_damping = o.of_double p.pinv_damping;
    torque_limit = o.of_double p.torque_limit;
    gain_ramp_s = o.of_double p.gain_ramp_s;
    nullspace_on = not (p.nullspace_on == 0);
  }

  unfoldable pub set_mode_gains : GainsPacket → JointImpedanceParams R → Mode R → Mode R
  unfolding cartesian_from_packet
  set_mode_gains p j (inl m) = inl (set_cartesian_gains (cartesian_from_packet p) m)
  set_mode_gains p j (inr m) = inr (
      set_impedance_gains
        (record j {
          torque_limit = λ _. o.of_double p.torque_limit;
          gain_ramp_s = o.of_double p.gain_ramp_s;
        })
        m)

  abbrev is_joint : Mode R → Bool
  is_joint (inl m) = false
  is_joint (inr m) = true

  unfoldable pub on_gains : GainsPacket → Server R → Server R
  unfolding set_mode_gains
  on_gains p s = record s {
    mode = set_mode_gains p s.jgains s.mode;
    warned = s.warned || is_joint s.mode;
  }

  abbrev freeze_at : Option (JointFeedback R) → Mode R → Mode R
  freeze_at none m = m
  freeze_at (some fb) m = set_mode_target (o.fk fb.q) m

  -- `snapshot` is what `snapshot.load` gives. The acknowledgement follows whatever the command is.
  unfoldable pub on_control : ControlPacket → Option (JointFeedback R) → Server R → Server R
  unfolding set_mode_target
  on_control p snapshot s = record s {
    clears = if p.command == clear_faults then s.clears + 1 else s.clears;
    mode =
        if p.command == rehome
        then set_mode_target o.home_pose s.mode
        else if p.command == freeze
        then freeze_at snapshot s.mode
        else s.mode;
    stop = s.stop || p.command == shutdown;
    last_control_seq = p.control_seq;
  }

  -- A packet of the type that the header names, if the datagram is long enough for it.
  unfoldable pub dispatch : Header → List ℕ → Option (JointFeedback R) → Server R → Server R
  unfolding on_pose on_gains on_control
  dispatch h bytes snapshot s =
      if h.msg_type == pose_target
      then if ltb (length bytes) 84
        then s
        else elim (get_pose bytes) [ none ↦ s | some (p, _) ↦ on_pose p s ]
      else if h.msg_type == set_gains
      then if ltb (length bytes) 157
        then s
        else elim (get_gains bytes) [ none ↦ s | some (p, _) ↦ on_gains p s ]
      else if h.msg_type == control
      then if ltb (length bytes) 28
        then s
        else elim (get_control bytes) [ none ↦ s | some (p, _) ↦ on_control p snapshot s ]
      else s

  -- One round of the receiver.
  unfoldable pub receive_datagram : List ℕ → ℕ → Option (JointFeedback R) → Server R → Server R
  unfolding dispatch
  receive_datagram bytes src snapshot s =
      if ltb (length bytes) 20 then s else elim (get_header bytes) [
        | none ↦ s
        | some (h, _) ↦
            if not (h.magic == magic_number) || not (h.version == version_number)
            then s
            else dispatch h bytes snapshot (record s { client = some src })
      ]

  -- What the other thread sends to the last client; `now` is the clock.
  unfoldable pub feedback_packet : JointFeedback R → ℕ → Server R → FeedbackPacket
  feedback_packet fb now s =
      let ee = o.fk fb.q in
      record {
        h = record {
          magic = magic_number;
          version = version_number;
          msg_type = feedback;
          seq = 0;
          timestamp_ns = now;
        };
        q = λ i. o.to_double (fb.q i);
        qd = λ i. o.to_double (fb.qd i);
        tau = λ i. o.to_double (fb.tau i);
        ee_pos = (o.to_double ee.px, o.to_double ee.py, o.to_double ee.pz);
        ee_quat_wxyz = (o.to_double ee.qw, o.to_double ee.qx, o.to_double ee.qy, o.to_double ee.qz);
        gripper_state = o.to_float fb.gripper.position;
        fault = if fb.fault then 1 else 0;
        frame_id = fb.frame_id;
        last_control_seq = s.last_control_seq;
      }
