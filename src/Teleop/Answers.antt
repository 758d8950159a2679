-- ===== src/Teleop/Answers.antt =====
-- apps/teleop_socket_server.cpp: what the receiver makes of a client's datagrams.
use kinova_gen3_driver.Prelude.{
  ℕ, ◌+◌, ◌≡◌, refl, arith, true, false, not, ◌||◌, ◌∙◌, Option, some, List, length, if◌then◌else◌,
  ltb, ◌==◌, Bool-cases, ◌⊎◌, inl, inr,
}
use kinova_gen3_driver.Double.{Double, nought, one, clamp_d}
use kinova_gen3_driver.Types.{Pose, JointFeedback}
use kinova_gen3_driver.Gripper.{clamp01, stamp, stamp-set_target}
use kinova_gen3_driver.Modes.{published}
use kinova_gen3_driver.Modes.CartesianImpedance.{
  CartesianImpedanceMode, CartesianModel, enter_cartesian, set_cartesian_target,
  set_cartesian_gains, default_cartesian,
}
use kinova_gen3_driver.Modes.JointImpedance.{set_impedance_pose, pose_target_source}
use kinova_gen3_driver.Teleop.{
  magic_number, version_number, pose_target, set_gains, control, clear_faults, rehome, freeze,
  shutdown, Header, PoseTargetPacket, GainsPacket, ControlPacket, get_header, put_header, get_pose,
  put_pose, put_gains, get_gains, get_control, put_control, put_axes, valid_header,
}
use kinova_gen3_driver.Teleop.RoundTrip.{
  PoseFits, GainsFit, ControlFits, get_header-put, get_pose-put, get_gains-put, get_control-put,
  length-put,
}
use kinova_gen3_driver.Teleop.Server.{
  Server, Outside, Mode, pose_from_packet, gripper_from_packet, on_pose, on_gains, on_control,
  dispatch, receive_datagram, set_mode_target, set_mode_gains, cartesian_from_packet,
}

-- The pose that a mode will take as its target.
abbrev pub HeadsFor : {R : Type 0} → Pose R → Mode R → Type 0
HeadsFor x (inl m) = (published m.ext_target ≡ x) × (m.has_ext_target ≡ true)
HeadsFor x (inr m) = (published m.ext_target ≡ x) × (m.source ≡ pose_target_source)

module _ {R : Type 0} ⦃d : Double R⦄ (o : Outside R) (src : ℕ)
    (snapshot : Option (JointFeedback R)) where
  abbrev seen : Server R → Server R
  seen s = record s { client = some src }

  -- A datagram with a header of the protocol is dispatched by its type, and its sender remembered.
  opened :
      (expected : ℕ) (h : Header) (bytes rest : List ℕ) (s : Server R)
      → ltb (length bytes) 20 ≡ false
      → get_header bytes ≡ some (h, rest)
      → valid_header h expected ≡ true
      → (receive_datagram o bytes src snapshot s ≡ dispatch o h bytes snapshot (seen s))
        × (h.msg_type ≡ expected)
  unfolding receive_datagram valid_header
  opened expected h bytes rest s long e valid =
      let m : (h.magic == magic_number) ≡ true = ground arith in
      let v : (h.version == version_number) ≡ true = ground arith in
      (rw (long, e, m, v), ground arith)

  dispatch-control :
      (h : Header) (bytes rest : List ℕ) (p : ControlPacket) (s : Server R)
      → h.msg_type ≡ control
      → ltb (length bytes) 28 ≡ false
      → get_control bytes ≡ some (p, rest)
      → dispatch o h bytes snapshot s ≡ on_control o p snapshot s
  unfolding dispatch
  dispatch-control h bytes rest p s t long e = rw (t, long, e)

  length-put_control :
      (p : ControlPacket) (rest : List ℕ) → length (put_control p rest) ≡ 28 + length rest
  unfolding put_control put_header
  length-put_control p rest = simp length-put (omega arith)

  receive_control :
      (p : ControlPacket) (rest : List ℕ) (s : Server R)
      → ControlFits p
      → valid_header p.h control ≡ true
      → receive_datagram o (put_control p rest) src snapshot s ≡ on_control o p snapshot (seen s)
  unfolding put_control
  receive_control p rest s fits valid =
      let bytes = put_control p rest in
      let size = length-put_control p rest in
      let (e, t) =
        opened control p.h bytes _ s (ground (arith, size)) (get_header-put p.h _ fits.h) valid in
      e
      ∙ dispatch-control p.h bytes rest p (seen s) t (ground (arith, size))
          (get_control-put p rest fits)

  dispatch_pose :
      (h : Header) (bytes rest : List ℕ) (p : PoseTargetPacket) (s : Server R)
      → h.msg_type ≡ pose_target
      → ltb (length bytes) 84 ≡ false
      → get_pose bytes ≡ some (p, rest)
      → dispatch o h bytes snapshot s ≡ on_pose o p s
  unfolding dispatch
  dispatch_pose h bytes rest p s t long e = rw (t, long, e)

  length-put_pose :
      (p : PoseTargetPacket) (rest : List ℕ) → length (put_pose p rest) ≡ 84 + length rest
  unfolding put_pose put_header
  length-put_pose p rest = simp length-put (omega arith)

  receive_pose :
      (p : PoseTargetPacket) (rest : List ℕ) (s : Server R)
      → PoseFits p
      → valid_header p.h pose_target ≡ true
      → receive_datagram o (put_pose p rest) src snapshot s ≡ on_pose o p (seen s)
  unfolding put_pose
  receive_pose p rest s fits valid =
      let bytes = put_pose p rest in
      let size = length-put_pose p rest in
      let (e, t) =
        opened pose_target p.h bytes _ s (ground (arith, size)) (get_header-put p.h _ fits.h)
          valid in
      e
      ∙ dispatch_pose p.h bytes rest p (seen s) t (ground (arith, size)) (get_pose-put p rest fits)

  dispatch_gains :
      (h : Header) (bytes rest : List ℕ) (p : GainsPacket) (s : Server R)
      → h.msg_type ≡ set_gains
      → ltb (length bytes) 157 ≡ false
      → get_gains bytes ≡ some (p, rest)
      → dispatch o h bytes snapshot s ≡ on_gains o p s
  unfolding dispatch
  dispatch_gains h bytes rest p s t long e = rw (t, long, e)

  length-put_gains :
      (p : GainsPacket) (rest : List ℕ) → length (put_gains p rest) ≡ 157 + length rest
  unfolding put_gains put_header put_axes
  length-put_gains p rest = simp length-put (omega arith)

  receive_gains :
      (p : GainsPacket) (rest : List ℕ) (s : Server R)
      → GainsFit p
      → valid_header p.h set_gains ≡ true
      → receive_datagram o (put_gains p rest) src snapshot s ≡ on_gains o p (seen s)
  unfolding put_gains
  receive_gains p rest s fits valid =
      let bytes = put_gains p rest in
      let size = length-put_gains p rest in
      let (e, t) =
        opened set_gains p.h bytes _ s (ground (arith, size)) (get_header-put p.h _ fits.h) valid in
      e
      ∙ dispatch_gains p.h bytes rest p (seen s) t (ground (arith, size))
          (get_gains-put p rest fits)

  -- A control packet of a client is acknowledged by its number, whatever it commands; it stops the
  -- server exactly if it commands the shutdown, clears faults exactly if it commands that, and leaves
  -- the gripper, and with any other command the mode's target, as they were.
  pub control_acknowledged :
      (p : ControlPacket) (rest : List ℕ) (s : Server R)
      → ControlFits p
      → valid_header p.h control ≡ true
      → let t = receive_datagram o (put_control p rest) src snapshot s in
        (t.last_control_seq ≡ p.control_seq)
        × (t.client ≡ some src)
        × (t.stop ≡ (s.stop || p.command == shutdown))
        × (t.clears ≡ (if p.command == clear_faults then s.clears + 1 else s.clears))
        × (t.injector ≡ s.injector)
        × ((p.command == rehome) ≡ false → (p.command == freeze) ≡ false → t.mode ≡ s.mode)
  unfolding on_control
  control_acknowledged p rest s fits valid =
      rw (receive_control p rest s fits valid) (refl, refl, refl, refl, refl, (λ a b. rw (a, b)))

  set_mode_target-HeadsFor : (x : Pose R) (m : Mode R) → HeadsFor x (set_mode_target o x m)
  unfolding set_mode_target set_cartesian_target set_impedance_pose
  set_mode_target-HeadsFor x (inl m) = ground arith
  set_mode_target-HeadsFor x (inr m) = ground arith

  -- A pose packet of a client makes its position and its quaternion, read in the order w, x, y, z and
  -- normalized, the target of whichever mode is live, and its gripper position, cut off at 0 and at 1,
  -- what the gripper is sent in the next frames; nothing is acknowledged, and the server goes on.
  pub pose_followed :
      (p : PoseTargetPacket) (rest : List ℕ) (s : Server R)
      → PoseFits p
      → valid_header p.h pose_target ≡ true
      → let t = receive_datagram o (put_pose p rest) src snapshot s in
        HeadsFor
          (o.normalized (record {
            px = o.of_double p.px;
            py = o.of_double p.py;
            pz = o.of_double p.pz;
            qw = o.of_double p.qw;
            qx = o.of_double p.qx;
            qy = o.of_double p.qy;
            qz = o.of_double p.qz;
          }))
          t.mode
        × ((stamp t.injector).active ≡ true)
        × ((stamp t.injector).position ≡ clamp_d (o.of_float p.gripper) nought one)
        × (t.client ≡ some src)
        × (t.last_control_seq ≡ s.last_control_seq)
        × (t.stop ≡ s.stop)
  unfolding on_pose clamp01
  pose_followed p rest s fits valid =
      let stamped = stamp-set_target (gripper_from_packet o p) s.injector in
      rw (receive_pose p rest s fits valid) (
        set_mode_target-HeadsFor (pose_from_packet o p) s.mode,
        stamped.0,
        stamped.1,
        refl,
        refl,
        refl,
      )

  -- A datagram that is shorter than a header, or whose header is not of this protocol and version,
  -- changes nothing, not even the client that feedback goes to.
  foreign_ignored :
      (bytes : List ℕ) (s : Server R)
      → (ltb (length bytes) 20 ≡ true)
        ⊎ ((h : Header) × (rest : List ℕ) × (get_header bytes ≡ some (h, rest))
            × (valid_header h h.msg_type ≡ false))
      → receive_datagram o bytes src snapshot s ≡ s
  unfolding receive_datagram valid_header
  foreign_ignored bytes s (inl short) = rw short
  foreign_ignored bytes s (inr (h, rest, e, bad)) =
      let other : (not (h.magic == magic_number) || not (h.version == version_number)) ≡ true =
        ground arith in
      elim (Bool-cases (ltb (length bytes) 20)) [
        | inl short ↦ rw short
        | inr long ↦ rw (long, e, other)
      ]

  -- A gains packet in the Cartesian mode turns the ascent of the manipulability off at once, whatever it
  -- was set to before. The rest posture of the running mode stays as it is; but from the next entry of
  -- the mode on it is where the arm then is, not the fixed posture that may have been set before.
  pub gains_reset :
      (p : GainsPacket) (rest : List ℕ) (s : Server R) (m : CartesianImpedanceMode R)
      → GainsFit p
      → valid_header p.h set_gains ≡ true
      → s.mode ≡ inl m
      → (m' : CartesianImpedanceMode R) × ((receive_datagram o
            (put_gains p rest)
            src
            snapshot
            s).mode
          ≡ inl m')
        × ((published m'.gains).manip_on ≡ false)
        × (m'.q_rest ≡ m.q_rest)
        × ((x : CartesianModel R) (fb : JointFeedback R) → (enter_cartesian x fb m').q_rest ≡ fb.q)
  unfolding on_gains set_mode_gains set_cartesian_gains cartesian_from_packet default_cartesian
      enter_cartesian
  gains_reset p rest s m fits valid e =
      rw (receive_gains p rest s fits valid, e)
        (
          set_cartesian_gains (cartesian_from_packet o p) m,
          refl,
          ground arith,
          ground arith,
          λ x fb. ground arith,
        )
