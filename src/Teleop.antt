-- ===== src/Teleop.antt =====
-- include/kinova_lowlevel/teleop_protocol.h: the packets of the teleop server and their bytes. Layouts
-- are packed and little-endian, so a packet is its fields one after another, each the bytes of a number
-- with the lowest first. A `double` or `float` is its bit pattern. `get_*` are the copies that the server
-- makes of a received struct; `put_*` are the bytes of a struct in memory.
pub mod RoundTrip
pub mod Layout
pub mod Server
pub mod Answers
use kinova_gen3_driver.Prelude.{
  ℕ, zero, suc, ◌+◌, ◌*◌, ◌/◌, ◌%◌, ◌^◌, Bool, ◌&&◌, List, [], ◌∷◌, ◌++◌, Option, none, some, ◌==◌,
}
use kinova_gen3_driver.Types.{
  Axis, vx, vy, vz, wx, wy, wz, Vector6, Joint, j1, j2, j3, j4, j5, j6, j7, JointVec,
}

abbrev pub magic_number : ℕ
magic_number = 0x4B544C50

abbrev pub version_number : ℕ
version_number = 2

-- `MsgType`, by its values.
abbrev pub pose_target : ℕ
pose_target = 1

abbrev pub set_gains : ℕ
set_gains = 2

abbrev pub control : ℕ
control = 3

abbrev pub feedback : ℕ
feedback = 4

-- `ControlCmd`, by its values.
abbrev pub clear_faults : ℕ
clear_faults = 1

abbrev pub rehome : ℕ
rehome = 2

abbrev pub freeze : ℕ
freeze = 3

abbrev pub shutdown : ℕ
shutdown = 4

pub record Header : Type 0 where
  pub magic : ℕ
  pub version : ℕ
  pub msg_type : ℕ
  pub seq : ℕ
  pub timestamp_ns : ℕ

pub record PoseTargetPacket : Type 0 where
  pub h : Header
  pub px : ℕ
  pub py : ℕ
  pub pz : ℕ
  pub qw : ℕ
  pub qx : ℕ
  pub qy : ℕ
  pub qz : ℕ
  pub gripper : ℕ
  pub flags : ℕ

pub record GainsPacket : Type 0 where
  pub h : Header
  pub kx : Vector6 ℕ
  pub dx : Vector6 ℕ
  pub nullspace_kp : ℕ
  pub nullspace_kd : ℕ
  pub pinv_damping : ℕ
  pub torque_limit : ℕ
  pub gain_ramp_s : ℕ
  pub nullspace_on : ℕ

pub record ControlPacket : Type 0 where
  pub h : Header
  pub command : ℕ
  pub control_seq : ℕ

pub record FeedbackPacket : Type 0 where
  pub h : Header
  pub q : JointVec ℕ
  pub qd : JointVec ℕ
  pub tau : JointVec ℕ
  pub ee_pos : ℕ × ℕ × ℕ
  pub ee_quat_wxyz : ℕ × ℕ × ℕ × ℕ
  pub gripper_state : ℕ
  pub fault : ℕ
  pub frame_id : ℕ
  pub last_control_seq : ℕ

unfoldable pub valid_header : Header → ℕ → Bool
valid_header h expected =
    h.magic == magic_number && (h.version == version_number && h.msg_type == expected)

-- The `k` bytes of a number in front of the rest, and the number of the first `k` bytes.
unfoldable pub put : ℕ → ℕ → List ℕ → List ℕ
put zero n rest = rest
put (suc k) n rest = n % 256 ∷ put k (n / 256) rest

unfoldable pub get : ℕ → List ℕ → Option (ℕ × List ℕ)
get zero bs = some (0, bs)
get (suc k) [] = none
get (suc k) (b ∷ bs) = elim (get k bs) [ none ↦ none | some (n, rest) ↦ some (b + 256 * n, rest) ]

-- A reader of bytes: `memcpy` out of a buffer, which fails past its end.
abbrev pub P : Type 0 → Type 0
P A = List ℕ → Option (A × List ℕ)

infixl 5 ◌>>=◌
abbrev pub ◌>>=◌ : {A B : Type 0} → P A → (A → P B) → P B
◌>>=◌ m f bs = elim (m bs) [ none ↦ none | some (a, rest) ↦ f a rest ]

abbrev pub pure : {A : Type 0} → A → P A
pure a bs = some (a, bs)

unfoldable pub put_header : Header → List ℕ → List ℕ
put_header h rest =
    put 4 h.magic (put 2 h.version (put 2 h.msg_type (put 4 h.seq (put 8 h.timestamp_ns rest))))

unfoldable pub get_header : P Header
get_header = do
  m ← get 4
  v ← get 2
  t ← get 2
  s ← get 4
  n ← get 8
  pure (record { magic = m; version = v; msg_type = t; seq = s; timestamp_ns = n })

abbrev pub by_axis : ℕ → ℕ → ℕ → ℕ → ℕ → ℕ → Vector6 ℕ
by_axis a b c e f g vx = a
by_axis a b c e f g vy = b
by_axis a b c e f g vz = c
by_axis a b c e f g wx = e
by_axis a b c e f g wy = f
by_axis a b c e f g wz = g

unfoldable pub put_axes : Vector6 ℕ → List ℕ → List ℕ
put_axes v rest =
    put 8 (v vx) (put 8 (v vy) (put 8 (v vz) (put 8 (v wx) (put 8 (v wy) (put 8 (v wz) rest)))))

unfoldable pub get_axes : P (Vector6 ℕ)
get_axes = do
  a ← get 8
  b ← get 8
  c ← get 8
  e ← get 8
  f ← get 8
  g ← get 8
  pure (by_axis a b c e f g)

unfoldable pub put_joints : JointVec ℕ → List ℕ → List ℕ
put_joints v rest =
    put 8 (v j1)
      (put 8 (v j2) (put 8 (v j3) (put 8 (v j4) (put 8 (v j5) (put 8 (v j6) (put 8 (v j7) rest))))))

unfoldable pub put_pose : PoseTargetPacket → List ℕ → List ℕ
put_pose p rest = put_header p.h (
    put 8 p.px (
      put 8 p.py (
        put 8 p.pz (
          put 8 p.qw
            (put 8 p.qx (put 8 p.qy (put 8 p.qz (put 4 p.gripper (put 4 p.flags rest)))))))))

unfoldable pub get_pose : P PoseTargetPacket
get_pose = do
  h ← get_header
  a ← get 8
  b ← get 8
  c ← get 8
  w ← get 8
  x ← get 8
  y ← get 8
  z ← get 8
  g ← get 4
  f ← get 4
  pure (record {
    h = h;
    px = a;
    py = b;
    pz = c;
    qw = w;
    qx = x;
    qy = y;
    qz = z;
    gripper = g;
    flags = f;
  })

unfoldable pub put_gains : GainsPacket → List ℕ → List ℕ
put_gains p rest = put_header p.h (
    put_axes p.kx (
      put_axes p.dx (
        put 8 p.nullspace_kp (
          put 8 p.nullspace_kd (
            put 8 p.pinv_damping
              (put 8 p.torque_limit (put 8 p.gain_ramp_s (put 1 p.nullspace_on rest))))))))

unfoldable pub get_gains : P GainsPacket
get_gains = do
  h ← get_header
  k ← get_axes
  e ← get_axes
  a ← get 8
  b ← get 8
  c ← get 8
  t ← get 8
  r ← get 8
  o ← get 1
  pure (record {
    h = h;
    kx = k;
    dx = e;
    nullspace_kp = a;
    nullspace_kd = b;
    pinv_damping = c;
    torque_limit = t;
    gain_ramp_s = r;
    nullspace_on = o;
  })

unfoldable pub put_control : ControlPacket → List ℕ → List ℕ
put_control p rest = put_header p.h (put 4 p.command (put 4 p.control_seq rest))

unfoldable pub get_control : P ControlPacket
get_control = do
  h ← get_header
  c ← get 4
  s ← get 4
  pure (record { h = h; command = c; control_seq = s })

unfoldable pub put_feedback : FeedbackPacket → List ℕ → List ℕ
put_feedback p rest = put_header p.h (
    put_joints p.q (
      put_joints p.qd (
        put_joints p.tau (
          put 8 p.ee_pos.0 (
            put 8 p.ee_pos.1 (
              put 8 p.ee_pos.2 (
                put 8 p.ee_quat_wxyz.0 (
                  put 8 p.ee_quat_wxyz.1 (
                    put 8 p.ee_quat_wxyz.2 (
                      put 8 p.ee_quat_wxyz.3 (
                        put 4 p.gripper_state (
                          put 1 p.fault
                            (put 8 p.frame_id (put 4 p.last_control_seq rest))))))))))))))
