-- ===== src/Supervisor/Streams.antt =====
-- The streaming tier of supervisor.cpp: opening a session around the mode switch, the one teardown,
-- the setpoints, and the halt that closes it.
use kinova_gen3_driver.Prelude.{
  Bool, true, false, not, ◌&&◌, Option, none, some, List, [], ◌∷◌, if◌then◌else◌,
}
use kinova_gen3_driver.Double.{Double, ◌-ᵈ◌, ◌≤ᵈ◌, nought, one}
use kinova_gen3_driver.Types.{
  JointVec, HaltReason, StreamCloseCause, client_request, halted, contact_stop, ControlModeKind,
  position, impedance, velocity, mode_eq, SetpointKind, joint_position, ee_pose, joint_velocity,
  ee_twist, joint_torque, ImpedanceGains, custom, session_default, StreamOpenRequest,
  StreamOpenResult, contact_stop_code, JointSetpoint, PoseSetpoint, TwistSetpoint, StreamStatus,
  GainsProfile,
}
use kinova_gen3_driver.Session.{
  pair_supported, open_session, close_session, admit_setpoint, session_status, refuse_stream,
}
use kinova_gen3_driver.Gripper.{release}
use kinova_gen3_driver.Gains.{validate_custom, known_profile, resolve_gains}
use kinova_gen3_driver.Supervisor.{
  Supervisor, World, Inbound, goal_in, cancel_in, request_mode, set_target, set_pose_target,
  set_torque, set_velocity_target, set_twist_target, set_command_timeout, clear_ik_fault, set_gains,
  sink_for, pose_sink_for, is_contact, emit, contact_latched, sampled_q,
}

abbrev pub is_kind : ControlModeKind → ControlModeKind → Bool
is_kind = mode_eq

abbrev pub is_session_default : GainsProfile → Bool
is_session_default session_default = true
is_session_default _ = false

abbrev pub is_custom : GainsProfile → Bool
is_custom custom = true
is_custom _ = false

-- The two kinds that the sampler integrates when they run in impedance.
abbrev pub is_velocity_kind : SetpointKind → Bool
is_velocity_kind joint_velocity = true
is_velocity_kind ee_twist = true
is_velocity_kind _ = false

abbrev pub contact_refusal : StreamOpenResult
contact_refusal = record {
  accepted = false;
  error_code = contact_stop_code;
  message = "stopped on unexpected contact; call /clear_faults";
}

module _ {R : Type 0} ⦃d : Double R⦄ where
  -- The argument -1.0 restores a mode's own timeout.
  abbrev pub own_timeout : R
  own_timeout = nought -ᵈ one

  unfoldable pub apply_impedance_gains : ImpedanceGains R → Supervisor R → Supervisor R
  apply_impedance_gains g s = elim (resolve_gains g s.session_default_params) [
    | none ↦ record s { terminated = true }
    | some p ↦ emit (set_gains p) s
  ]

  -- Where a closing stream holds: measured, else the last hold, else the mode's own reference.
  unfoldable pub hold_at : World R → Supervisor R → JointVec R
  hold_at w s =
      let reference =
        if is_kind s.active_mode_kind impedance then w.imp_reference else w.pos_reference in
      sampled_q w.snap (if s.have_hold_q then s.stream_hold_q else reference)

  -- The hold of a mode that has a joint sink.
  unfoldable pub latch_hold : World R → Supervisor R → Supervisor R
  latch_hold w s = elim (sink_for s.active_mode_kind) [
    | none ↦ s
    | some k ↦
        emit (set_target k (hold_at w s))
          (record s { stream_hold_q = hold_at w s; have_hold_q = true })
  ]

  -- A velocity mode is commanded zero.
  unfoldable pub stop_velocity : Supervisor R → Supervisor R
  stop_velocity s =
      if is_kind s.active_mode_kind velocity then emit (set_velocity_target (λ _. nought)) s else s

  unfoldable pub close_stream : StreamCloseCause → World R → Supervisor R → Supervisor R
  close_stream cause w s =
      if not s.stream_open
      then s
      else emit clear_ik_fault (
          emit (set_command_timeout s.active_mode_kind own_timeout) (
            stop_velocity (
              latch_hold w (record s {
                stream_open = false;
                close_cause = cause;
                session = close_session s.session;
              }))))

  abbrev pub flush : HaltReason → List (Inbound R) → List (Inbound R)
  flush r [] = []
  flush r (cancel_in id ∷ is) = flush r is
  flush r (goal_in id g none ∷ is) = goal_in id g (some r) ∷ flush r is
  flush r (goal_in id g (some why) ∷ is) = goal_in id g (some why) ∷ flush r is

  unfoldable pub release_grip : Supervisor R → Supervisor R
  release_grip s = if s.has_grip then record s { grip = release s.grip } else s

  -- The block under `q_mtx_`.
  unfoldable pub latch_halt : HaltReason → Supervisor R → Supervisor R
  latch_halt r s = record s {
    inbox = flush r s.inbox;
    halt_reason = if s.halt_pending && is_contact s.halt_reason then s.halt_reason else r;
    halt_pending = true;
  }

  unfoldable pub on_halt : HaltReason → World R → Supervisor R → Supervisor R
  on_halt r w s =
      latch_halt r (release_grip (close_stream (if is_contact r then contact_stop else halted) w s))

  -- The checks of `on_stream_open` before the mode switch: the refusal.
  unfoldable pub open_refusal : StreamOpenRequest R → Supervisor R → Option StreamOpenResult
  open_refusal r s =
      if not s.ready
      then some (refuse_stream "arm not ready")
      else if contact_latched s
      then some contact_refusal
      else if s.in_flight
      then some (refuse_stream "a trajectory goal is in flight")
      else if s.stream_open
      then some (refuse_stream "a session is already open; close it first")
      else if r.timeout_s ≤ᵈ nought
      then some (refuse_stream "timeout_s must be > 0: an unbounded stream has no safe-stop")
      else if not (pair_supported r.kind r.control_mode)
      then some (refuse_stream "unsupported (setpoint kind, control mode) pair")
      else if not (known_profile r.gains.profile)
      then some (
          refuse_stream
            "unknown gains profile: expected session-default, soft, medium, stiff or custom")
      else if not (is_kind r.control_mode impedance) && not (is_session_default r.gains.profile)
      then some (refuse_stream "gains supplied for a non-impedance stream")
      else if is_kind r.control_mode impedance
          && (is_custom r.gains.profile && not (validate_custom r.gains.custom_values).ok)
      then some (refuse_stream ((validate_custom r.gains.custom_values).message))
      else none

  -- `on_stream_open` up to its settle sleep; `none` while it sleeps. (An open that needs no mode
  -- switch does not sleep: its second half follows at once.)
  unfoldable pub open_begin :
      StreamOpenRequest R → Supervisor R → Option StreamOpenResult × Supervisor R
  open_begin r s = elim (open_refusal r s) [
    | some refused ↦ (some refused, s)
    | none ↦
        let s1 = record s { opening = some r } in
        (
          none,
          if is_kind r.control_mode s.active_mode_kind
              then s1
              else emit (request_mode r.control_mode)
                  (record s1 { active_mode_kind = r.control_mode }),
        )
  ]

  -- The compliant velocity state of a session that is about to open.
  unfoldable pub seed_stream : StreamOpenRequest R → World R → Supervisor R → Supervisor R
  seed_stream r w s =
      if is_kind r.control_mode impedance && is_velocity_kind r.kind
      then record s {
        stream_q_ref = sampled_q w.snap w.imp_reference;
        stream_qd_cmd = λ _. nought;
        stream_twist_cmd = λ _. nought;
      }
      else s

  -- The session's own answer, and what follows it.
  unfoldable pub open_commit :
      StreamOpenRequest R → World R → Supervisor R → StreamOpenResult × Supervisor R
  open_commit r w s =
      let (res, session) = open_session r w.now_s s.session in
      let opened = record s { session = session } in
      if not res.accepted
      then (res, emit (set_command_timeout r.control_mode own_timeout) opened)
      else let tuned =
          if is_kind r.control_mode impedance
          then apply_impedance_gains r.gains opened
          else opened in
        (res, record tuned { stream_open = true })

  -- `on_stream_open` from its settle sleep on, under `stream_mtx_`.
  unfoldable pub open_finish :
      StreamOpenRequest R → World R → Supervisor R → StreamOpenResult × Supervisor R
  open_finish r w s0 =
      let s = record s0 { opening = none } in
      if not s.ready
      then (
        refuse_stream "arm not ready",
        emit (request_mode position) (record s { active_mode_kind = position }),
      )
      else if contact_latched s
      then (contact_refusal, s)
      else if not (is_kind s.active_mode_kind r.control_mode)
      then (refuse_stream "the mode changed during the open; retry", s)
      else open_commit r w
          (seed_stream r w (emit (set_command_timeout r.control_mode r.timeout_s) s))

  unfoldable pub on_stream_close : World R → Supervisor R → Supervisor R
  on_stream_close w s = close_stream client_request w s

  unfoldable pub on_query_stream : Supervisor R → StreamStatus R
  on_query_stream s = session_status s.session

  abbrev pub admitted : SetpointKind → World R → Supervisor R → Bool × Supervisor R
  admitted k w s =
      let (ok, session) = admit_setpoint k w.now_s s.session in (ok, record s { session = session })

  unfoldable pub on_setpoint_joint_position :
      JointSetpoint R → World R → Supervisor R → Supervisor R
  on_setpoint_joint_position p w s =
      let (ok, s') = admitted joint_position w s in
      if not ok
      then s'
      else elim (sink_for s'.session.mode) [ none ↦ s' | some k ↦ emit (set_target k p.values) s' ]

  unfoldable pub on_setpoint_pose : PoseSetpoint R → World R → Supervisor R → Supervisor R
  on_setpoint_pose p w s =
      let (ok, s') = admitted ee_pose w s in
      if not ok then s' else elim (pose_sink_for s'.session.mode) [
        | none ↦ s'
        | some k ↦ emit (set_pose_target k p.pose) s'
      ]

  unfoldable pub on_setpoint_joint_torque : JointSetpoint R → World R → Supervisor R → Supervisor R
  on_setpoint_joint_torque p w s =
      let (ok, s') = admitted joint_torque w s in
      if not ok then s' else emit (set_torque p.values) s'

  unfoldable pub on_setpoint_joint_velocity :
      JointSetpoint R → World R → Supervisor R → Supervisor R
  on_setpoint_joint_velocity p w s =
      let (ok, s') = admitted joint_velocity w s in
      if not ok
      then s'
      else if is_kind s'.session.mode velocity
      then emit (set_velocity_target p.values) s'
      else if is_kind s'.session.mode impedance
      then record s' { stream_qd_cmd = p.values }
      else s'

  unfoldable pub on_setpoint_twist : TwistSetpoint R → World R → Supervisor R → Supervisor R
  on_setpoint_twist p w s =
      let (ok, s') = admitted ee_twist w s in
      if not ok
      then s'
      else if is_kind s'.session.mode velocity
      then emit (set_twist_target p.twist) s'
      else if is_kind s'.session.mode impedance
      then record s' { stream_twist_cmd = p.twist }
      else s'
