-- ===== src/Session.antt =====
-- src/interface/streaming_session.cpp: the lifecycle of a streaming session. Each atomic of the class
-- is a field, and the clock's reading is an argument.
pub mod Lifecycle
use kinova_gen3_driver.Prelude.{ℕ, ◌+◌, Bool, true, false, not, ◌||◌, String, if◌then◌else◌, u64}
use kinova_gen3_driver.Double.{Double, ◌-ᵈ◌, ◌<ᵈ◌, ◌≤ᵈ◌, nought}
use kinova_gen3_driver.Types.{
  ControlModeKind, position, impedance, velocity, torque, SetpointKind, joint_position, ee_pose,
  joint_velocity, ee_twist, joint_torque, mode_eq, kind_eq, StreamOpenRequest, StreamOpenResult,
  stream_rejected, successful, StreamStatus,
}

pub record Session (R : Type 0) : Type 0 where
  pub open_flag : Bool
  pub kind : SetpointKind
  pub mode : ControlModeKind
  pub timeout_s : R
  pub last_s : R
  pub rejected : ℕ

-- The valid-pair table.
unfoldable pub pair_supported : SetpointKind → ControlModeKind → Bool
pair_supported joint_position m = mode_eq m position || mode_eq m impedance
pair_supported ee_pose m = mode_eq m impedance || mode_eq m position
pair_supported joint_torque m = mode_eq m torque
pair_supported joint_velocity m = mode_eq m velocity || mode_eq m impedance
pair_supported ee_twist m = mode_eq m velocity || mode_eq m impedance

abbrev pub refuse_stream : String → StreamOpenResult
refuse_stream m = record { accepted = false; error_code = stream_rejected; message = m }

abbrev pub accept_stream : StreamOpenResult
accept_stream = record { accepted = true; error_code = successful; message = "" }

module _ {R : Type 0} ⦃d : Double R⦄ where
  unfoldable pub new_session : Session R
  new_session = record {
    open_flag = false;
    kind = joint_position;
    mode = position;
    timeout_s = d.lit 1 1;
    last_s = nought;
    rejected = 0;
  }

  unfoldable pub open_session : StreamOpenRequest R → R → Session R → StreamOpenResult × Session R
  unfolding pair_supported
  open_session r now s =
      if s.open_flag
      then (refuse_stream "a session is already open; close it first", s)
      else if r.timeout_s ≤ᵈ nought
      then (refuse_stream "timeout_s must be > 0: an unbounded stream has no safe-stop", s)
      else if not (pair_supported r.kind r.control_mode)
      then (refuse_stream "unsupported (setpoint kind, control mode) pair", s)
      else (
        accept_stream,
        record s {
          open_flag = true;
          kind = r.kind;
          mode = r.control_mode;
          timeout_s = r.timeout_s;
          last_s = now;
        },
      )

  unfoldable pub close_session : Session R → Session R
  close_session s = record s { open_flag = false }

  unfoldable pub admit_setpoint : SetpointKind → R → Session R → Bool × Session R
  admit_setpoint k now s =
      if not s.open_flag || not (kind_eq k s.kind)
      then (false, record s { rejected = u64 (s.rejected + 1) })
      else (true, record s { last_s = now })

  unfoldable pub expired : R → Session R → Bool
  expired now s = if not s.open_flag then false else s.timeout_s <ᵈ (now -ᵈ s.last_s)

  unfoldable pub session_status : Session R → StreamStatus R
  session_status s = record {
    is_open = s.open_flag;
    kind = s.kind;
    control_mode = s.mode;
    timeout_s = s.timeout_s;
    rejected_count = s.rejected;
  }
