-- ===== src/Tests/Packets.antt =====
-- Packets of a client, and a histogram of a few samples.
use kinova_gen3_driver.Prelude.{
  ℕ, zero, suc, ◌+◌, ◌/◌, ◌^◌, ◌≡◌, refl, arith, true, false, ◌||◌, none, some, List, [], ◌∷◌,
  if◌then◌else◌, ◌==◌, inl,
}
use kinova_gen3_driver.Prelude.Int.{pos_part}
use kinova_gen3_driver.Double.{clamp_d, Nano, nano, nought, one}
use kinova_gen3_driver.Telemetry.Histogram.{add_all, new_histogram, percentile}
use kinova_gen3_driver.Telemetry.Histogram.Percentile.{IsRank, percentile-IsRank}
use kinova_gen3_driver.Gains.{default_params}
use kinova_gen3_driver.Gripper.{new_gripper, stamp}
use kinova_gen3_driver.Modes.{published}
use kinova_gen3_driver.Modes.CartesianImpedance.{
  CartesianImpedanceMode, CartesianModel, enter_cartesian, default_cartesian, new_cartesian_mode,
}
use kinova_gen3_driver.Teleop.{
  valid_header, Header, PoseTargetPacket, GainsPacket, ControlPacket, magic_number, version_number,
  pose_target, set_gains, control, clear_faults, rehome, freeze, shutdown, put_pose, get_pose,
  put_gains, get_gains, put_control, get_control,
}
use kinova_gen3_driver.Teleop.Layout.{header_of, field, axes_at, packets_layout}
use kinova_gen3_driver.Teleop.RoundTrip.{GainsFit}
use kinova_gen3_driver.Types.{JointFeedback}
use kinova_gen3_driver.Teleop.Server.{Outside, Server, receive_datagram}
use kinova_gen3_driver.Teleop.Answers.{HeadsFor, control_acknowledged, pose_followed, gains_reset}
use kinova_gen3_driver.Tests.{at, origin}

abbrev durations : List ℕ
durations = 3000 ∷ 900 ∷ 5000 ∷ 1200 ∷ []

abbrev whole : ℕ → Nano
whole n = nano.lit n 0

abbrev round_up : Nano → ℕ
round_up none = 0
round_up (some x) = (pos_part x + 999999999) / 10 ^ 9

-- Half of the four samples.
percentile-IsRank_example :
    IsRank 2 durations (percentile whole round_up (nano.lit 5 1) (add_all durations new_histogram))
percentile-IsRank_example =
    percentile-IsRank whole round_up durations (nano.lit 5 1) 2 (omega arith) (omega arith) refl
      refl (omega arith, refl, omega arith)

abbrev headed : ℕ → Header
headed t = record {
  magic = magic_number;
  version = version_number;
  msg_type = t;
  seq = 9;
  timestamp_ns = 77;
}

abbrev pose_packet : PoseTargetPacket
pose_packet = record {
  h = headed pose_target;
  px = 1;
  py = 2;
  pz = 3;
  qw = 1;
  qx = 0;
  qy = 0;
  qz = 0;
  gripper = 4;
  flags = 1;
}

abbrev gains_packet : GainsPacket
gains_packet = record {
  h = headed set_gains;
  kx = λ _. 200;
  dx = λ _. 30;
  nullspace_kp = 1;
  nullspace_kd = 8;
  pinv_damping = 1;
  torque_limit = 39;
  gain_ramp_s = 1;
  nullspace_on = 1;
}

gains_packet-GainsFit : GainsFit gains_packet
gains_packet-GainsFit = record {
  h = omega arith;
  kx = λ a. omega arith;
  dx = λ a. omega arith;
  nullspace_kp = omega arith;
  nullspace_kd = omega arith;
  pinv_damping = omega arith;
  torque_limit = omega arith;
  gain_ramp_s = omega arith;
  nullspace_on = omega arith;
}

abbrev shutdown_packet : ControlPacket
shutdown_packet = record { h = headed control; command = shutdown; control_seq = 1000 }

abbrev outside : Outside Nano
outside = record {
  of_double = whole;
  of_float = whole;
  to_double = round_up;
  to_float = round_up;
  normalized = λ x. x;
  fk = λ q. origin;
  home_pose = origin;
}

-- Started with the ascent of the manipulability.
abbrev climbing : CartesianImpedanceMode Nano
climbing =
    new_cartesian_mode (record { q_lower = at 0; q_upper = at 3; v_max = at 1 })
      (record (default_cartesian {R = Nano}) { manip_on = true; manip_gain = one }) origin

abbrev server : Server Nano
server = record {
  mode = inl climbing;
  jgains = default_params {R = Nano};
  injector = new_gripper;
  client = none;
  last_control_seq = 0;
  stop = false;
  warned = false;
  clears = 0;
}

control_acknowledged_example :
    let t = receive_datagram outside (put_control shutdown_packet []) 8 none server in
    (t.last_control_seq ≡ 1000)
    × (t.client ≡ some 8)
    × (t.stop ≡ (server.stop || shutdown_packet.command == shutdown))
    × (t.clears
        ≡ (if shutdown_packet.command == clear_faults then server.clears + 1 else server.clears))
    × (t.injector ≡ server.injector)
    × ((shutdown_packet.command == rehome) ≡ false
        → (shutdown_packet.command == freeze) ≡ false
        → t.mode ≡ server.mode)
unfolding valid_header
control_acknowledged_example =
    control_acknowledged outside 8 none shutdown_packet [] server (omega arith) refl

pose_followed_example :
    let t = receive_datagram outside (put_pose pose_packet []) 8 none server in
    HeadsFor
      (record {
        px = whole 1;
        py = whole 2;
        pz = whole 3;
        qw = whole 1;
        qx = whole 0;
        qy = whole 0;
        qz = whole 0;
      })
      t.mode
    × ((stamp t.injector).active ≡ true)
    × ((stamp t.injector).position ≡ clamp_d (whole 4) nought one)
    × (t.client ≡ some 8)
    × (t.last_control_seq ≡ 0)
    × (t.stop ≡ false)
unfolding valid_header
pose_followed_example = pose_followed outside 8 none pose_packet [] server (omega arith) refl

gains_reset_example :
    (m' : CartesianImpedanceMode Nano) × ((receive_datagram outside
        (put_gains gains_packet [])
        8
        none
        server).mode
      ≡ inl m')
    × ((published m'.gains).manip_on ≡ false)
    × (m'.q_rest ≡ climbing.q_rest)
    × ((x : CartesianModel Nano) (fb : JointFeedback Nano)
        → (enter_cartesian x fb m').q_rest ≡ fb.q)
unfolding valid_header
gains_reset_example =
    gains_reset outside 8 none gains_packet [] server climbing gains_packet-GainsFit refl refl

-- Bytes that differ from place to place.
abbrev counting_bytes : ℕ → List ℕ
counting_bytes zero = []
counting_bytes (suc n) = n ∷ counting_bytes n

packets_layout_example :
    let p = counting_bytes 84 in
    let g = counting_bytes 160 in
    let c = counting_bytes 28 in
    (get_pose p
      ≡ some (
        record {
          h = header_of p;
          px = field 20 8 p;
          py = field 28 8 p;
          pz = field 36 8 p;
          qw = field 44 8 p;
          qx = field 52 8 p;
          qy = field 60 8 p;
          qz = field 68 8 p;
          gripper = field 76 4 p;
          flags = field 80 4 p;
        },
        [],
      ))
    × (get_gains g
        ≡ some (
          record {
            h = header_of g;
            kx = axes_at 20 g;
            dx = axes_at 68 g;
            nullspace_kp = field 116 8 g;
            nullspace_kd = field 124 8 g;
            pinv_damping = field 132 8 g;
            torque_limit = field 140 8 g;
            gain_ramp_s = field 148 8 g;
            nullspace_on = field 156 1 g;
          },
          2 ∷ 1 ∷ 0 ∷ [],
        ))
    × (get_control c
        ≡ some (record { h = header_of c; command = field 20 4 c; control_seq = field 24 4 c }, []))
packets_layout_example =
    packets_layout (counting_bytes 84) (counting_bytes 160) (counting_bytes 28) (omega arith)
      (omega arith) (omega arith)
