-- ===== src/Teleop/RoundTrip.antt =====
-- include/kinova_lowlevel/teleop_protocol.h: reading back what was written, and the sizes.
use mathlib.Core.Path.{fun_ext}
use kinova_gen3_driver.Prelude.{
  ℕ, zero, suc, ◌+◌, ◌/◌, ◌^◌, ◌<◌, ◌≡◌, refl, arith, ap, ◌∙◌, List, some, length,
}
use kinova_gen3_driver.Types.{Axis, vx, vy, vz, wx, wy, wz, Vector6}
use kinova_gen3_driver.Teleop.{
  Header, PoseTargetPacket, GainsPacket, ControlPacket, put, get, put_header, get_header, by_axis,
  put_axes, get_axes, put_pose, get_pose, put_gains, get_gains, put_control, get_control, P, ◌>>=◌,
}

get-put : (k n : ℕ) (rest : List ℕ) → n < 256 ^ k → get k (put k n rest) ≡ some (n, rest)
unfolding get put
get-put zero n rest h = ground arith
get-put (suc k) n rest h = ground (arith, get-put k (n / 256) rest)

-- A reader that starts with what has been written.
pub bind_read :
    {A B : Type 0} (m : P A) (f : A → P B) (bs rest : List ℕ) (a : A)
    → m bs ≡ some (a, rest)
    → (m >>= f) bs ≡ f a rest
bind_read m f bs rest a e = rw (e, ◌>>=◌)

get-then :
    {B : Type 0} (k n : ℕ) (f : ℕ → P B) (rest : List ℕ)
    → n < 256 ^ k
    → (get k >>= f) (put k n rest) ≡ f n rest
get-then k n f rest h = bind_read (get k) f (put k n rest) rest n (get-put k n rest h)

-- Each field of a packet is a number that its width holds.
pub record HeaderFits (h : Header) : Type 0 where
  pub magic : h.magic < 256 ^ 4
  pub version : h.version < 256 ^ 2
  pub msg_type : h.msg_type < 256 ^ 2
  pub seq : h.seq < 256 ^ 4
  pub timestamp_ns : h.timestamp_ns < 256 ^ 8

pub get_header-put :
    (h : Header) (rest : List ℕ) → HeaderFits h → get_header (put_header h rest) ≡ some (h, rest)
unfolding get_header put_header
get_header-put h rest f =
    get-then 4 h.magic _ _ f.magic
    ∙ get-then 2 h.version _ _ f.version
    ∙ get-then 2 h.msg_type _ _ f.msg_type
    ∙ get-then 4 h.seq _ _ f.seq
    ∙ get-then 8 h.timestamp_ns _ rest f.timestamp_ns

abbrev AxesFit : Vector6 ℕ → Type 0
AxesFit v = (a : Axis) → v a < 256 ^ 8

by_axis_eta : (v : Vector6 ℕ) → by_axis (v vx) (v vy) (v vz) (v wx) (v wy) (v wz) ≡ v
by_axis_eta v = fun_ext at_axis
  where
    at_axis : (a : Axis) → by_axis (v vx) (v vy) (v vz) (v wx) (v wy) (v wz) a ≡ v a
    at_axis vx = refl
    at_axis vy = refl
    at_axis vz = refl
    at_axis wx = refl
    at_axis wy = refl
    at_axis wz = refl

get_axes-put :
    (v : Vector6 ℕ) (rest : List ℕ) → AxesFit v → get_axes (put_axes v rest) ≡ some (v, rest)
unfolding get_axes put_axes
get_axes-put v rest f =
    get-then 8 (v vx) _ _ (f vx)
    ∙ get-then 8 (v vy) _ _ (f vy)
    ∙ get-then 8 (v vz) _ _ (f vz)
    ∙ get-then 8 (v wx) _ _ (f wx)
    ∙ get-then 8 (v wy) _ _ (f wy)
    ∙ get-then 8 (v wz) _ rest (f wz)
    ∙ ap (λ (u : Vector6 ℕ). some (u, rest)) (by_axis_eta v)

pub record PoseFits (p : PoseTargetPacket) : Type 0 where
  pub h : HeaderFits p.h
  pub px : p.px < 256 ^ 8
  pub py : p.py < 256 ^ 8
  pub pz : p.pz < 256 ^ 8
  pub qw : p.qw < 256 ^ 8
  pub qx : p.qx < 256 ^ 8
  pub qy : p.qy < 256 ^ 8
  pub qz : p.qz < 256 ^ 8
  pub gripper : p.gripper < 256 ^ 4
  pub flags : p.flags < 256 ^ 4

pub get_pose-put :
    (p : PoseTargetPacket) (rest : List ℕ)
    → PoseFits p
    → get_pose (put_pose p rest) ≡ some (p, rest)
unfolding get_pose put_pose
get_pose-put p rest f =
    bind_read get_header _ _ _ p.h (get_header-put p.h _ f.h)
    ∙ get-then 8 p.px _ _ f.px
    ∙ get-then 8 p.py _ _ f.py
    ∙ get-then 8 p.pz _ _ f.pz
    ∙ get-then 8 p.qw _ _ f.qw
    ∙ get-then 8 p.qx _ _ f.qx
    ∙ get-then 8 p.qy _ _ f.qy
    ∙ get-then 8 p.qz _ _ f.qz
    ∙ get-then 4 p.gripper _ _ f.gripper
    ∙ get-then 4 p.flags _ rest f.flags

pub record GainsFit (p : GainsPacket) : Type 0 where
  pub h : HeaderFits p.h
  pub kx : AxesFit p.kx
  pub dx : AxesFit p.dx
  pub nullspace_kp : p.nullspace_kp < 256 ^ 8
  pub nullspace_kd : p.nullspace_kd < 256 ^ 8
  pub pinv_damping : p.pinv_damping < 256 ^ 8
  pub torque_limit : p.torque_limit < 256 ^ 8
  pub gain_ramp_s : p.gain_ramp_s < 256 ^ 8
  pub nullspace_on : p.nullspace_on < 256 ^ 1

pub get_gains-put :
    (p : GainsPacket) (rest : List ℕ) → GainsFit p → get_gains (put_gains p rest) ≡ some (p, rest)
unfolding get_gains put_gains
get_gains-put p rest f =
    bind_read get_header _ _ _ p.h (get_header-put p.h _ f.h)
    ∙ bind_read get_axes _ _ _ p.kx (get_axes-put p.kx _ f.kx)
    ∙ bind_read get_axes _ _ _ p.dx (get_axes-put p.dx _ f.dx)
    ∙ get-then 8 p.nullspace_kp _ _ f.nullspace_kp
    ∙ get-then 8 p.nullspace_kd _ _ f.nullspace_kd
    ∙ get-then 8 p.pinv_damping _ _ f.pinv_damping
    ∙ get-then 8 p.torque_limit _ _ f.torque_limit
    ∙ get-then 8 p.gain_ramp_s _ _ f.gain_ramp_s
    ∙ get-then 1 p.nullspace_on _ rest f.nullspace_on

pub record ControlFits (p : ControlPacket) : Type 0 where
  pub h : HeaderFits p.h
  pub command : p.command < 256 ^ 4
  pub control_seq : p.control_seq < 256 ^ 4

pub get_control-put :
    (p : ControlPacket) (rest : List ℕ)
    → ControlFits p
    → get_control (put_control p rest) ≡ some (p, rest)
unfolding get_control put_control
get_control-put p rest f =
    bind_read get_header _ _ _ p.h (get_header-put p.h _ f.h)
    ∙ get-then 4 p.command _ _ f.command
    ∙ get-then 4 p.control_seq _ rest f.control_seq

pub length-put : (k n : ℕ) (rest : List ℕ) → length (put k n rest) ≡ k + length rest
unfolding put
length-put zero n rest = omega arith
length-put (suc k) n rest = omega (arith, length-put k (n / 256) rest)
