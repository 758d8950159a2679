-- ===== src/Teleop/Layout.antt =====
-- include/kinova_lowlevel/teleop_protocol.h: where the fields of a received packet lie.
use mathlib.Core.Path.{fun_ext}
use kinova_gen3_driver.Prelude.{
  ℕ, zero, suc, ◌+◌, ◌-◌, ◌*◌, ◌≤◌, ◌≡◌, refl, arith, ap, sym, ◌∙◌, List, [], ◌∷◌, some, length,
}
use kinova_gen3_driver.Types.{Axis, vx, vy, vz, wx, wy, wz, Vector6}
use kinova_gen3_driver.Teleop.{
  Header, get, get_header, by_axis, get_axes, get_pose, get_gains, get_control, P, ◌>>=◌,
}
use kinova_gen3_driver.Teleop.RoundTrip.{bind_read}

-- Without the first elements.
abbrev pub drop : ℕ → List ℕ → List ℕ
drop zero bs = bs
drop (suc n) [] = []
drop (suc n) (b ∷ bs) = drop n bs

-- The number that the first bytes are, the lowest first.
abbrev number : ℕ → List ℕ → ℕ
number zero bs = 0
number (suc k) [] = 0
number (suc k) (b ∷ bs) = b + 256 * number k bs

-- A field of `k` bytes, `o` bytes into a packet.
abbrev pub field : ℕ → ℕ → List ℕ → ℕ
field o k bs = number k (drop o bs)

length-drop : (o : ℕ) (bs : List ℕ) → o ≤ length bs → length (drop o bs) ≡ length bs - o
length-drop zero bs h = omega arith
length-drop (suc o) [] h = absurd (omega (arith, h))
length-drop (suc o) (b ∷ bs) h = omega (arith, length-drop o bs (omega (arith, h)))

drop-nil : (n : ℕ) → drop n [] ≡ []
drop-nil zero = refl
drop-nil (suc n) = refl

drop-drop : (o k : ℕ) (bs : List ℕ) → drop k (drop o bs) ≡ drop (o + k) bs
drop-drop zero k bs = ap (λ (n : ℕ). drop n bs) (omega arith)
drop-drop (suc o) k [] = drop-nil k ∙ sym (drop-nil (suc o + k))
drop-drop (suc o) k (b ∷ bs) =
    drop-drop o k bs ∙ ap (λ (n : ℕ). drop n (b ∷ bs)) {x = suc (o + k)} (omega arith)

get-number : (k : ℕ) (bs : List ℕ) → k ≤ length bs → get k bs ≡ some (number k bs, drop k bs)
unfolding get
get-number zero bs h = refl
get-number (suc k) [] h = absurd (omega (arith, h))
get-number (suc k) (b ∷ bs) h = rw (get-number k bs (omega (arith, h))) refl

get_at :
    {B : Type 0} (o k : ℕ) (f : ℕ → P B) (bs : List ℕ)
    → o + k ≤ length bs
    → (get k >>= f) (drop o bs) ≡ f (field o k bs) (drop (o + k) bs)
get_at o k f bs h =
    let size = length-drop o bs (omega (arith, h)) in
    bind_read (get k) f _ _ _ (get-number k (drop o bs) (omega (arith, h, size)))
    ∙ ap (f (field o k bs)) (drop-drop o k bs)

-- The header that a packet starts with.
abbrev pub header_of : List ℕ → Header
header_of bs = record {
  magic = field 0 4 bs;
  version = field 4 2 bs;
  msg_type = field 6 2 bs;
  seq = field 8 4 bs;
  timestamp_ns = field 12 8 bs;
}

get_header-header_of :
    (bs : List ℕ) → 20 ≤ length bs → get_header bs ≡ some (header_of bs, drop 20 bs)
unfolding get_header
get_header-header_of bs h =
    get_at 0 4 _ bs (omega (arith, h))
    ∙ get_at 4 2 _ bs (omega (arith, h))
    ∙ get_at 6 2 _ bs (omega (arith, h))
    ∙ get_at 8 4 _ bs (omega (arith, h))
    ∙ get_at 12 8 _ bs h

-- Reading on behind the header.
after_header :
    {B : Type 0} (f : Header → P B) (bs : List ℕ)
    → 20 ≤ length bs
    → (get_header >>= f) bs ≡ f (header_of bs) (drop 20 bs)
after_header f bs h = bind_read get_header f _ _ _ (get_header-header_of bs h)

abbrev pub axis_number : Axis → ℕ
axis_number vx = 0
axis_number vy = 1
axis_number vz = 2
axis_number wx = 3
axis_number wy = 4
axis_number wz = 5

-- Six fields of eight bytes, one for each axis.
abbrev pub axes_at : ℕ → List ℕ → Vector6 ℕ
axes_at o bs a = field (o + 8 * axis_number a) 8 bs

get_axes-axes_at :
    (o : ℕ) (bs : List ℕ)
    → o + 48 ≤ length bs
    → get_axes (drop o bs) ≡ some (axes_at o bs, drop (o + 48) bs)
unfolding get_axes
get_axes-axes_at o bs h =
    get_at o 8 _ bs (omega (arith, h))
    ∙ get_at (o + 8) 8 _ bs (omega (arith, h))
    ∙ get_at (o + 8 + 8) 8 _ bs (omega (arith, h))
    ∙ get_at (o + 8 + 8 + 8) 8 _ bs (omega (arith, h))
    ∙ get_at (o + 8 + 8 + 8 + 8) 8 _ bs (omega (arith, h))
    ∙ get_at (o + 8 + 8 + 8 + 8 + 8) 8 _ bs (omega (arith, h))
    ∙ (λ i. some (fun_ext at_axis i, end_at i))
  where
    read : Vector6 ℕ
    read =
        by_axis (field o 8 bs) (field (o + 8) 8 bs) (field (o + 8 + 8) 8 bs)
          (field (o + 8 + 8 + 8) 8 bs) (field (o + 8 + 8 + 8 + 8) 8 bs)
          (field (o + 8 + 8 + 8 + 8 + 8) 8 bs)

    end_at : drop (o + 8 + 8 + 8 + 8 + 8 + 8) bs ≡ drop (o + 48) bs
    end_at = ap (λ (n : ℕ). drop n bs) (omega arith)

    at_axis : (a : Axis) → read a ≡ axes_at o bs a
    at_axis vx = ap (λ (n : ℕ). field n 8 bs) (omega arith)
    at_axis vy = ap (λ (n : ℕ). field n 8 bs) (omega arith)
    at_axis vz = ap (λ (n : ℕ). field n 8 bs) (omega arith)
    at_axis wx = ap (λ (n : ℕ). field n 8 bs) (omega arith)
    at_axis wy = ap (λ (n : ℕ). field n 8 bs) (omega arith)
    at_axis wz = ap (λ (n : ℕ). field n 8 bs) (omega arith)

axes_then :
    {B : Type 0} (o : ℕ) (f : Vector6 ℕ → P B) (bs : List ℕ)
    → o + 48 ≤ length bs
    → (get_axes >>= f) (drop o bs) ≡ f (axes_at o bs) (drop (o + 48) bs)
axes_then o f bs h = bind_read get_axes f _ _ _ (get_axes-axes_at o bs h)

get_pose_at :
    (bs : List ℕ)
    → 84 ≤ length bs
    → get_pose bs
      ≡ some (
        record {
          h = header_of bs;
          px = field 20 8 bs;
          py = field 28 8 bs;
          pz = field 36 8 bs;
          qw = field 44 8 bs;
          qx = field 52 8 bs;
          qy = field 60 8 bs;
          qz = field 68 8 bs;
          gripper = field 76 4 bs;
          flags = field 80 4 bs;
        },
        drop 84 bs,
      )
unfolding get_pose
get_pose_at bs h =
    after_header _ bs (omega (arith, h))
    ∙ get_at 20 8 _ bs (omega (arith, h))
    ∙ get_at 28 8 _ bs (omega (arith, h))
    ∙ get_at 36 8 _ bs (omega (arith, h))
    ∙ get_at 44 8 _ bs (omega (arith, h))
    ∙ get_at 52 8 _ bs (omega (arith, h))
    ∙ get_at 60 8 _ bs (omega (arith, h))
    ∙ get_at 68 8 _ bs (omega (arith, h))
    ∙ get_at 76 4 _ bs (omega (arith, h))
    ∙ get_at 80 4 _ bs h

get_gains_at :
    (bs : List ℕ)
    → 157 ≤ length bs
    → get_gains bs
      ≡ some (
        record {
          h = header_of bs;
          kx = axes_at 20 bs;
          dx = axes_at 68 bs;
          nullspace_kp = field 116 8 bs;
          nullspace_kd = field 124 8 bs;
          pinv_damping = field 132 8 bs;
          torque_limit = field 140 8 bs;
          gain_ramp_s = field 148 8 bs;
          nullspace_on = field 156 1 bs;
        },
        drop 157 bs,
      )
unfolding get_gains
get_gains_at bs h =
    after_header _ bs (omega (arith, h))
    ∙ axes_then 20 _ bs (omega (arith, h))
    ∙ axes_then 68 _ bs (omega (arith, h))
    ∙ get_at 116 8 _ bs (omega (arith, h))
    ∙ get_at 124 8 _ bs (omega (arith, h))
    ∙ get_at 132 8 _ bs (omega (arith, h))
    ∙ get_at 140 8 _ bs (omega (arith, h))
    ∙ get_at 148 8 _ bs (omega (arith, h))
    ∙ get_at 156 1 _ bs h

get_control_at :
    (bs : List ℕ)
    → 28 ≤ length bs
    → get_control bs
      ≡ some (
        record { h = header_of bs; command = field 20 4 bs; control_seq = field 24 4 bs },
        drop 28 bs,
      )
unfolding get_control
get_control_at bs h =
    after_header _ bs (omega (arith, h)) ∙ get_at 20 4 _ bs (omega (arith, h)) ∙ get_at 24 4 _ bs h

-- Each packet that the server accepts by its size is read field by field from the bytes at its offset in
-- the packed struct, the lowest byte first: the header at 0, 4, 6, 8 and 12; behind it the position at
-- 20, the quaternion w, x, y, z at 44, the gripper at 76 and the flags at 80; or the gains at 20 and 68
-- (an axis every 8 bytes) and from 116 on; or the command at 20 and its number at 24.
pub packets_layout :
    (p g c : List ℕ)
    → 84 ≤ length p
    → 157 ≤ length g
    → 28 ≤ length c
    → (get_pose p
        ≡ some (
          record {
            h = header_of p;
            px = field 20 8 p;
            py = field 28 8 p;
            pz = field 36 8 p;
            qw = field 44 8 p;
            qx = field 52 8 p;
            qy = field 60 8 p;
            qz = field 68 8 p;
            gripper = field 76 4 p;
            flags = field 80 4 p;
          },
          drop 84 p,
        ))
      × (get_gains g
          ≡ some (
            record {
              h = header_of g;
              kx = axes_at 20 g;
              dx = axes_at 68 g;
              nullspace_kp = field 116 8 g;
              nullspace_kd = field 124 8 g;
              pinv_damping = field 132 8 g;
              torque_limit = field 140 8 g;
              gain_ramp_s = field 148 8 g;
              nullspace_on = field 156 1 g;
            },
            drop 157 g,
          ))
      × (get_control c
          ≡ some (
            record { h = header_of c; command = field 20 4 c; control_seq = field 24 4 c },
            drop 28 c,
          ))
packets_layout p g c hp hg hc = (get_pose_at p hp, get_gains_at g hg, get_control_at c hc)
