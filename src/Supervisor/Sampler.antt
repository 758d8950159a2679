-- ===== src/Supervisor/Sampler.antt =====
-- `Supervisor::sampler_loop`: one iteration in the steps between which another thread may run. `fuel`
-- bounds the loops of `wrap_to_pi`; `solve` is `TwistDlsSolver::solve` at the arm's Jacobian.
use kinova_gen3_driver.Prelude.{
  ℕ, Bool, true, false, not, ◌&&◌, ◌||◌, Option, none, some, [], ◌∷◌, String, is_some, get_or,
  if◌then◌else◌,
}
use kinova_gen3_driver.Double.{Double, ◌-ᵈ◌, ◌*ᵈ◌, ◌/ᵈ◌, ◌<ᵈ◌, nought}
use kinova_gen3_driver.Types.{
  JointVec, Vector6, contact, deadline_expired, ik_fault, GoalId, TrajectoryGoal, ControlModeKind,
  position, impedance, velocity, ee_twist, kind_eq, TrajectoryResult, ResultCode, successful,
  invalid_goal, path_tolerance_violated, preempted,
}
use kinova_gen3_driver.Units.{wrap_to_pi}
use kinova_gen3_driver.VelocityReference.{
  integrate_leashed_reference, limit_joint_velocity, velocity_ref_max_lead,
}
use kinova_gen3_driver.Session.{expired}
use kinova_gen3_driver.Gains.{validate_custom, known_profile}
use kinova_gen3_driver.Executor.{
  SubmitResult, accepted, rejected_speed_scale, new_executor, submit, tick, slew_scale,
  valid_timestamps, is_queue, is_active,
}
use kinova_gen3_driver.Executor.Sample.{JointTarget}
use kinova_gen3_driver.Supervisor.{
  Supervisor, World, Inbound, goal_in, cancel_in, top, draining, ticking, settling_goal, submitting,
  request_mode, set_target, set_joint_target, set_speed_scale, settle, publish_feedback, sink_for,
  emit, contact_latched, sampled_q, result_of, halt_result,
}
use kinova_gen3_driver.Supervisor.Streams.{
  is_kind, is_custom, is_velocity_kind, close_stream, on_halt, apply_impedance_gains,
}

abbrev pub submit_text : SubmitResult → String
submit_text rejected_speed_scale = "speed_scale outside [kMinSpeedScale, 1.0]: refused, not clamped"
submit_text _ = "rejected by executor"

abbrev pub took : SubmitResult → Bool
took accepted = true
took _ = false

abbrev pub end_code : ResultCode → ResultCode
end_code path_tolerance_violated = path_tolerance_violated
end_code _ = successful

module _ {R : Type 0} ⦃d : Double R⦄ where
  -- `traj_.emplace(...)`, bound to the sink of a kind (an inert position sink where it has none).
  unfoldable pub rebind : ControlModeKind → Supervisor R → Supervisor R
  rebind k s = record s {
    traj = new_executor s.continuous;
    traj_sink = get_or position (sink_for k);
    traj_bound_kind = k;
  }

  -- No goal is active.
  unfoldable pub go_idle : Supervisor R → Supervisor R
  go_idle s = record s { active_goal = none; in_flight = false }

  unfoldable pub settle_active : TrajectoryResult → Supervisor R → Supervisor R
  settle_active r s = elim (s.active_goal) [ none ↦ s | some id ↦ emit (settle id r) s ]

  -- The slewed speed scale, pushed to the three modes.
  unfoldable pub push_speed : World R → Supervisor R → Supervisor R
  push_speed w s =
      let speed = slew_scale s.speed s.speed_override w.tick_dt in
      emit (set_speed_scale velocity speed) (
        emit (set_speed_scale impedance speed) (
          emit (set_speed_scale position speed)
            (record s { speed = speed; speed_applied = speed })))

  -- Step 0-: one contact halt for each rising edge of the latch; a clear resets the edge.
  unfoldable pub contact_edge : World R → Supervisor R → Supervisor R
  contact_edge w s =
      let seen = if s.contact_cleared then false else s.was_latched in
      let latched = contact_latched s in
      let s1 = record s { contact_cleared = false } in
      record (if latched && not seen then on_halt contact w s1 else s1) { was_latched = latched }

  -- While the link is down, the next run must adopt position mode.
  unfoldable pub line_up_position : Supervisor R → Supervisor R
  line_up_position s =
      if s.ready then s else emit (request_mode position) (record s { active_mode_kind = position })

  -- The hold at the measured configuration, where the running kind has a joint sink.
  unfoldable pub hold_measured : World R → Supervisor R → Supervisor R
  hold_measured w s =
      let q = sampled_q w.snap s.q_meas in
      let s' = record s { q_meas = q } in
      elim (sink_for s.active_mode_kind) [ none ↦ s' | some k ↦ emit (set_target k q) s' ]

  -- Step 0: a pending halt settles the active goal, drops the trajectory and holds.
  unfoldable pub take_halt : World R → Supervisor R → Supervisor R
  take_halt w s =
      if not s.halt_pending
      then s
      else let s1 =
          line_up_position
            (settle_active (halt_result s.halt_reason) (record s { halt_pending = false })) in
        hold_measured w (go_idle (rebind s1.active_mode_kind s1))

  -- Steps 0b and 0c: a session past its deadline, and one whose pose no longer converges.
  unfoldable pub close_dead_stream : World R → Supervisor R → Supervisor R
  close_dead_stream w s =
      let s1 =
        if s.stream_open && expired w.now_s s.session
        then close_stream deadline_expired w s
        else s in
      if s1.stream_open && (is_kind s1.active_mode_kind position && w.ik_faulted)
      then close_stream ik_fault w s1
      else s1

  -- A velocity-kind session runs in impedance.
  abbrev pub integrates : Supervisor R → Bool
  integrates s =
      s.stream_open && (is_kind s.session.mode impedance && is_velocity_kind s.session.kind)

module _ {R : Type 0} ⦃d : Double R⦄ (fuel : ℕ) (solve : JointVec R → Vector6 R → JointVec R) where
  -- The limited, scaled velocity that the session asks for.
  unfoldable pub stream_velocity : Supervisor R → JointVec R
  stream_velocity s =
      let qd =
        if kind_eq s.session.kind ee_twist
        then solve s.q_meas s.stream_twist_cmd
        else s.stream_qd_cmd in
      λ i. limit_joint_velocity s.v_max qd i *ᵈ s.speed

  -- The rate at which the reference really advanced.
  unfoldable pub achieved_rate : World R → Supervisor R → JointVec R → JointVec R
  achieved_rate w s q_ref i =
      let raw = q_ref i -ᵈ s.stream_q_ref i in
      let step = if s.continuous i then wrap_to_pi fuel raw else raw in
      if nought <ᵈ w.tick_dt then step /ᵈ w.tick_dt else nought

  unfoldable pub integrate_stream : World R → Supervisor R → Supervisor R
  integrate_stream w s =
      let q_ref =
        integrate_leashed_reference fuel s.stream_q_ref (stream_velocity s) w.tick_dt s.q_meas
          velocity_ref_max_lead s.continuous s.q_lower s.q_upper in
      emit
        (set_joint_target impedance (record {
          q = q_ref;
          qd = achieved_rate w s q_ref;
          qdd = λ _. nought;
          has_velocity = true;
          has_acceleration = false;
        }))
        (record s { stream_q_ref = q_ref })

  -- Step 0d: compliant velocity, skipped before the first good reading.
  unfoldable pub compliant_step : World R → Supervisor R → Supervisor R
  compliant_step w s =
      if not (integrates s)
      then s
      else let s' = record s {
        q_meas = sampled_q w.snap s.q_meas;
        have_q_meas = s.have_q_meas || is_some w.snap;
      } in
        if s'.have_q_meas then integrate_stream w s' else s'

  -- The iteration up to the inbox.
  unfoldable pub top_step : World R → Supervisor R → Supervisor R
  top_step w s =
      record (compliant_step w
        (close_dead_stream w (take_halt w (contact_edge w (push_speed w s))))) { phase = draining }

module _ {R : Type 0} ⦃d : Double R⦄ where
  abbrev pub refuse_goal : GoalId → String → Supervisor R → Supervisor R
  refuse_goal id text s = emit (settle id (result_of invalid_goal text)) s

  unfoldable pub cancel_active : Supervisor R → Supervisor R
  cancel_active s = go_idle (rebind s.active_mode_kind (settle_active (result_of preempted "") s))

  -- Gains that a goal applies as it starts.
  unfoldable pub start_gains : TrajectoryGoal R → Supervisor R → Supervisor R
  start_gains g s = if is_kind g.control_mode impedance then apply_impedance_gains g.gains s else s

  -- The last look at the halt, under the lock of the inbox, which is let go before the submission.
  unfoldable pub start_goal : GoalId → TrajectoryGoal R → Supervisor R → Supervisor R
  start_goal id g s =
      if s.halt_pending
      then emit (settle id (halt_result s.halt_reason)) s
      else record s { phase = submitting id g }

  unfoldable pub submit_goal : GoalId → TrajectoryGoal R → Supervisor R → Supervisor R
  submit_goal id g s =
      let (sr, traj) =
        submit g.trajectory g.control_mode g.preemption g.path_tolerance g.speed_scale s.traj in
      if not (took sr)
      then refuse_goal id (submit_text sr) s
      else record (start_gains g
          (settle_active (result_of preempted "") (record s { traj = traj }))) {
            active_goal = some id;
            in_flight = not (is_some s.active_goal) || s.in_flight;
          }

  -- The mode switch of a goal; the settle sleep follows.
  unfoldable pub switch_mode : GoalId → TrajectoryGoal R → Supervisor R → Supervisor R
  switch_mode id g s = record (rebind g.control_mode (emit (request_mode g.control_mode) s)) {
    active_mode_kind = g.control_mode;
    phase = settling_goal id g;
  }

  abbrev pub failed_gains : TrajectoryGoal R → Bool
  failed_gains g =
      is_kind g.control_mode impedance
      && (not (known_profile g.gains.profile)
          || is_custom g.gains.profile && not (validate_custom g.gains.custom_values).ok)

  -- The checks on a goal as it leaves the inbox: the refusal.
  unfoldable pub goal_refusal : TrajectoryGoal R → Supervisor R → Option String
  goal_refusal g s =
      if s.stream_open
      then some "a streaming session opened before this goal could start"
      else if not (is_kind g.control_mode position) && not (is_kind g.control_mode impedance)
      then some "trajectory execution supports position and impedance only"
      else if failed_gains g
      then some "gains failed validation at execution"
      else if is_some s.active_goal && is_queue g.preemption
      then some
          "queueing is disabled: wait for the active goal to finish, preempt it with LATEST_WINS, or send one goal through all waypoints"
      else if not (valid_timestamps g.trajectory)
      then some "waypoint timestamps must be finite and at least kMinSegmentSpanSec (10 ns) apart"
      else none

  abbrev pub needs_switch : TrajectoryGoal R → Supervisor R → Bool
  needs_switch g s =
      not (is_kind g.control_mode s.traj_bound_kind)
      || not (is_kind g.control_mode s.active_mode_kind)

  unfoldable pub drain_goal : GoalId → TrajectoryGoal R → Supervisor R → Supervisor R
  drain_goal id g s = elim (goal_refusal g s) [
    | some text ↦ refuse_goal id text s
    | none ↦
        if needs_switch g s
        then if is_some s.active_goal
          then refuse_goal id "mode change while a trajectory is in flight" s
          else switch_mode id g s
        else start_goal id g s
  ]

  unfoldable pub drain_one : Inbound R → Supervisor R → Supervisor R
  drain_one (goal_in id g (some why)) s = emit (settle id (halt_result why)) s
  drain_one (goal_in id g none) s = drain_goal id g s
  drain_one (cancel_in id) s = cancel_active s

  -- Step 1: the front of the inbox, or the end of the drain.
  unfoldable pub drain_step : Supervisor R → Supervisor R
  drain_step s = elim (s.inbox) [
    | [] ↦ record s { phase = ticking }
    | i ∷ is ↦ drain_one i (record s { inbox = is })
  ]

  -- What a tick's outcome does to the goal.
  unfoldable pub finish_tick : Bool → ResultCode → Supervisor R → Supervisor R
  finish_tick completed code s =
      if completed && is_some s.active_goal
      then go_idle (settle_active (result_of (end_code code) "") s)
      else s

  abbrev pub write_target : Option (JointTarget R) → Supervisor R → Supervisor R
  write_target none s = s
  write_target (some t) s = emit (set_joint_target s.traj_sink t) s

module _ {R : Type 0} ⦃d : Double R⦄ (fuel : ℕ) where
  -- Step 2: tick the active trajectory; the iteration ends.
  unfoldable pub tick_step : World R → Supervisor R → Supervisor R
  tick_step w s0 =
      let s = record s0 { phase = top } in
      if not (is_active s.traj)
      then s
      else let q = sampled_q w.snap s.q_meas in
        let (st, target, traj) = tick fuel w.now_s q s.speed s.traj in
        finish_tick st.completed st.error_code (
          emit (publish_feedback (get_or 0 s.active_goal) q st.fraction) (
            write_target target (record s {
              q_meas = q;
              have_q_meas = s.have_q_meas || is_some w.snap;
              traj = traj;
            })))
