-- ===== src/Supervisor/Applied.antt =====
-- The gains that the sampler and a stream open apply, and those of a whole schedule.
use kinova_gen3_driver.Prelude.{
  ℕ, ◌≡◌, refl, Bool, true, false, not, ◌||◌, Option, none, some, List, [], ◌∷◌, arith,
  if◌then◌else◌, is_some, get_or, Option-cases, List-cases, Bool-cases, inl, inr,
}
use kinova_gen3_driver.Double.{Double, IsOrdered}
use kinova_gen3_driver.Types.{GoalId, TrajectoryGoal, client_request, JointVec, Vector6}
use kinova_gen3_driver.Monitor.{Dynamics}
use kinova_gen3_driver.Monitor.Latch.{Event}
use kinova_gen3_driver.Supervisor.{Supervisor, World, goal_in, cancel_in, top, draining}
use kinova_gen3_driver.Supervisor.Streams.{on_stream_close}
use kinova_gen3_driver.Supervisor.System.{
  Input, goal_accepted, goal_cancel, new_gains, speed_override_to, contact_thresholds,
  contact_query, contact_clear, halt, open_asks, open_wakes, close, joint_position_to, pose_to,
  joint_torque_to, joint_velocity_to, twist_to, gripper_to, link_to, monitor_event, sampler_step,
  sample, watch, step, run, Deps, start,
}
use kinova_gen3_driver.Types.{
  position, impedance, preempted, StreamOpenRequest, StreamOpenResult, ResultCode,
}
use kinova_gen3_driver.Gains.{overlay_profile_gains}
use kinova_gen3_driver.Gains.Resolution.{default-AboveFloor}
use kinova_gen3_driver.Executor.{submit, tick, is_active}
use kinova_gen3_driver.Executor.Sample.{JointTarget}
use kinova_gen3_driver.Session.{refuse_stream}
use kinova_gen3_driver.Supervisor.{
  emit, Inbound, Call, set_gains, request_mode, set_command_timeout, contact_latched, result_of,
  sampled_q, publish_feedback,
}
use kinova_gen3_driver.Supervisor.Streams.{
  open_finish, open_commit, seed_stream, contact_refusal, is_kind,
}
use kinova_gen3_driver.Supervisor.System.{wake_open}
use kinova_gen3_driver.Supervisor.Sampler.{
  settle_active, start_gains, start_goal, submit_goal, switch_mode, goal_refusal, failed_gains,
  drain_goal, cancel_active, drain_one, drain_step, finish_tick, tick_step, write_target, top_step,
  go_idle, rebind,
}
use kinova_gen3_driver.Supervisor.Schedule.{Phase-cases}
use kinova_gen3_driver.Supervisor.Floor.{
  above_floor-AboveFloor, AboveFloor-above_floor, sent_above, IsSafe, AllAbove, open_ready,
  apply_impedance_gains-IsSafe, close_stream-IsSafe, on_halt-IsSafe, settle_active-IsSafe,
  rebind-IsSafe, top_part-IsSafe,
}
use kinova_gen3_driver.Supervisor.Safety

module _ {R : Type 0} ⦃d : Double R⦄ (o : IsOrdered d) where
  if-IsSafe :
      (b : Bool) (x y : StreamOpenResult × Supervisor R)
      → IsSafe x.1
      → IsSafe y.1
      → IsSafe ((if b then x else y).1)
  if-IsSafe true x y p q = p
  if-IsSafe false x y p q = q

  open_finish-IsSafe :
      (r : StreamOpenRequest R) (w : World R) (s : Supervisor R)
      → open_ready (some r) ≡ true
      → IsSafe s
      → IsSafe ((open_finish r w s).1)
  unfolding open_finish
  open_finish-IsSafe r w s ready v =
      let s0 = record s { opening = none } in
      let v0 : IsSafe s0 = ground arith in
      let armed = emit (set_command_timeout r.control_mode r.timeout_s) s0 in
      let va : IsSafe armed = ground arith in
      let c = open_commit r w (seed_stream r w armed) in
      let switched : StreamOpenResult × Supervisor R =
        (refuse_stream "the mode changed during the open; retry", s0) in
      let b3 = if not (is_kind s0.active_mode_kind r.control_mode) then switched else c in
      let b2 = if contact_latched s0 then (contact_refusal, s0) else b3 in
      let down : StreamOpenResult × Supervisor R = (
        refuse_stream "arm not ready",
        emit (request_mode position) (record s0 { active_mode_kind = position }),
      ) in
      let vd : IsSafe down.1 = ground arith in
      let committed =
        Safety.open_commit-IsSafe o r w (seed_stream r w armed) ready
          (Safety.seed_stream-IsSafe o r w armed va) in
      if-IsSafe (not s0.ready) down b2 vd (
        if-IsSafe (contact_latched s0) (contact_refusal, s0) b3 v0
          (if-IsSafe (not (is_kind s0.active_mode_kind r.control_mode)) switched c v0 committed))

  wake_open-IsSafe : (w : World R) (s : Supervisor R) → IsSafe s → IsSafe (wake_open w s)
  unfolding wake_open
  wake_open-IsSafe w s v = elim (Option-cases s.opening) [
    | inl e ↦ ground arith
    | inr (r, e) ↦ ground (arith, open_finish-IsSafe r w s (ground arith) v)
  ]

  start_goal-IsSafe :
      (i : GoalId) (g : TrajectoryGoal R) (s : Supervisor R)
      → failed_gains g ≡ false
      → IsSafe s
      → IsSafe (start_goal i g s)
  unfolding start_goal
  start_goal-IsSafe i g s e v = ground arith

  submit_goal-IsSafe :
      (i : GoalId) (g : TrajectoryGoal R) (s : Supervisor R)
      → failed_gains g ≡ false
      → IsSafe s
      → IsSafe (submit_goal i g s)
  unfolding submit_goal start_gains
  submit_goal-IsSafe i g s e v =
      let sub =
        submit g.trajectory g.control_mode g.preemption g.path_tolerance g.speed_scale s.traj in
      let s1 = settle_active (result_of preempted "") (record s { traj = sub.1 }) in
      let v1 =
        settle_active-IsSafe (result_of preempted "") (record s { traj = sub.1 }) (ground arith) in
      elim (Bool-cases (is_kind g.control_mode impedance)) [
        | inl k ↦ ground (arith, apply_impedance_gains-IsSafe o g.gains s1 (ground arith) v1)
        | inr k ↦ ground (arith, v1)
      ]

  switch_mode-IsSafe :
      (i : GoalId) (g : TrajectoryGoal R) (s : Supervisor R)
      → failed_gains g ≡ false
      → IsSafe s
      → IsSafe (switch_mode i g s)
  unfolding switch_mode rebind
  switch_mode-IsSafe i g s e v = ground arith

  goal_refusal-failed_gains :
      (g : TrajectoryGoal R) (s : Supervisor R) → goal_refusal g s ≡ none → failed_gains g ≡ false
  unfolding goal_refusal
  goal_refusal-failed_gains g s e = ground arith

  drain_goal-IsSafe :
      (i : GoalId) (g : TrajectoryGoal R) (s : Supervisor R) → IsSafe s → IsSafe (drain_goal i g s)
  unfolding drain_goal
  drain_goal-IsSafe i g s v = elim (Option-cases (goal_refusal g s)) [
    | inl e ↦
        let f = goal_refusal-failed_gains g s e in
        ground (arith, start_goal-IsSafe i g s f v, switch_mode-IsSafe i g s f v)
    | inr (why, e) ↦ ground arith
  ]

  drain_one-IsSafe : (x : Inbound R) (s : Supervisor R) → IsSafe s → IsSafe (drain_one x s)
  unfolding drain_one cancel_active
  drain_one-IsSafe (goal_in i g (some why)) s v = ground arith
  drain_one-IsSafe (goal_in i g none) s v = drain_goal-IsSafe i g s v
  drain_one-IsSafe (cancel_in i) s v =
      rebind-IsSafe s.active_mode_kind (settle_active (result_of preempted "") s)
        (settle_active-IsSafe (result_of preempted "") s v)

  drain_step-IsSafe : (s : Supervisor R) → IsSafe s → IsSafe (drain_step s)
  unfolding drain_step
  drain_step-IsSafe s v = elim (List-cases s.inbox) [
    | inl n ↦ ground arith
    | inr (x, xs, n) ↦ ground (arith, drain_one-IsSafe x (record s { inbox = xs }) (ground arith))
  ]

  finish_tick-IsSafe :
      (b : Bool) (c : ResultCode) (s : Supervisor R) → IsSafe s → IsSafe (finish_tick b c s)
  unfolding finish_tick settle_active go_idle
  finish_tick-IsSafe b c s v = ground arith

  write_target-IsSafe :
      (t : Option (JointTarget R)) (s : Supervisor R) → IsSafe s → IsSafe (write_target t s)
  write_target-IsSafe none s v = v
  write_target-IsSafe (some t) s v = ground arith

  tick_step-IsSafe :
      (fuel : ℕ) (w : World R) (s : Supervisor R) → IsSafe s → IsSafe (tick_step fuel w s)
  unfolding tick_step
  tick_step-IsSafe fuel w s v = elim (Bool-cases (is_active s.traj)) [
    | inl a ↦
        let q = sampled_q w.snap s.q_meas in
        let r = tick fuel w.now_s q s.speed s.traj in
        let s1 = record s {
          phase = top;
          q_meas = q;
          have_q_meas = s.have_q_meas || is_some w.snap;
          traj = r.2;
        } in
        let s2 = write_target r.1 s1 in
        let v2 = write_target-IsSafe r.1 s1 (ground arith) in
        let s3 = emit (publish_feedback (get_or 0 s.active_goal) q (r.0.fraction)) s2 in
        ground (arith, finish_tick-IsSafe (r.0.completed) (r.0.error_code) s3 (ground (arith, v2)))
    | inr a ↦ ground arith
  ]

  watch-IsSafe :
      (dyn : Dynamics R) (e : Event R) (s : Supervisor R) → IsSafe s → IsSafe (watch dyn e s)
  unfolding watch
  watch-IsSafe dyn e s v = ground arith

  sent_above-AllAbove : (cs : List (Call R)) → sent_above cs ≡ true → AllAbove cs
  sent_above-AllAbove [] e = tt
  sent_above-AllAbove (set_gains p ∷ cs) e =
      (AboveFloor-above_floor p (ground arith), sent_above-AllAbove cs (ground arith))
  sent_above-AllAbove (_ ∷ cs) e = sent_above-AllAbove cs e

  start-IsSafe : (deps : Deps R) → IsSafe (start deps)
  unfolding start overlay_profile_gains
  start-IsSafe deps = record {
    alive = refl;
    base_above =
        above_floor-AboveFloor (start deps).session_default_params (λ i. default-AboveFloor o i);
    calls_above = refl;
    goal_checked = refl;
    open_checked = refl;
  }

  module _ (fuel : ℕ) (solve : JointVec R → Vector6 R → JointVec R) where
    sample-IsSafe : (w : World R) (s : Supervisor R) → IsSafe s → IsSafe (sample fuel solve w s)
    unfolding sample top_step
    sample-IsSafe w s v = elim (Phase-cases s.phase) [
      | inl e ↦ ground (arith, top_part-IsSafe fuel solve w s v)
      | inr (inl e) ↦ ground (arith, drain_step-IsSafe s v)
      | inr (inr (inl e)) ↦ ground (arith, tick_step-IsSafe fuel w s v)
      | inr (inr (inr (inl (i, g, e)))) ↦ ground (
        arith,
        start_goal-IsSafe i g (record s { phase = draining }) (ground arith) (ground arith),
      )
      | inr (inr (inr (inr (i, g, e)))) ↦ ground (
        arith,
        submit_goal-IsSafe i g (record s { phase = draining }) (ground arith) (ground arith),
      )
    ]

    module _ (dyn : Dynamics R) where
      step-IsSafe : (e : Input R) (s : Supervisor R) → IsSafe s → IsSafe (step fuel solve dyn e s)
      unfolding step on_stream_close
      step-IsSafe (goal_accepted i g) s v = Safety.on_trajectory_accepted-IsSafe o i g s v
      step-IsSafe (goal_cancel c) s v = Safety.on_trajectory_cancel-IsSafe o c s v
      step-IsSafe (new_gains r) s v = Safety.on_set_gains-IsSafe o r s v
      step-IsSafe (speed_override_to r) s v = Safety.on_set_speed_override-IsSafe o r s v
      step-IsSafe (contact_thresholds r) s v = Safety.on_set_contact_thresholds-IsSafe o r s v
      step-IsSafe (contact_query w) s v = Safety.on_query_contact-IsSafe o w s v
      step-IsSafe (contact_clear w) s v = Safety.clear_contact-IsSafe o w s v
      step-IsSafe (halt r w) s v = on_halt-IsSafe r w s v
      step-IsSafe (open_asks r) s v = Safety.ask_open-IsSafe o r s v
      step-IsSafe (open_wakes w) s v = wake_open-IsSafe w s v
      step-IsSafe (close w) s v = close_stream-IsSafe client_request w s v
      step-IsSafe (joint_position_to p w) s v = Safety.on_setpoint_joint_position-IsSafe o p w s v
      step-IsSafe (pose_to p w) s v = Safety.on_setpoint_pose-IsSafe o p w s v
      step-IsSafe (joint_torque_to p w) s v = Safety.on_setpoint_joint_torque-IsSafe o p w s v
      step-IsSafe (joint_velocity_to p w) s v = Safety.on_setpoint_joint_velocity-IsSafe o p w s v
      step-IsSafe (twist_to p w) s v = Safety.on_setpoint_twist-IsSafe o p w s v
      step-IsSafe (gripper_to p) s v = Safety.on_gripper_setpoint-IsSafe o p s v
      step-IsSafe (link_to l w) s v = Safety.on_link_state-IsSafe o l w s v
      step-IsSafe (monitor_event e) s v = watch-IsSafe dyn e s v
      step-IsSafe (sampler_step w) s v = sample-IsSafe w s v

      run-IsSafe :
          (es : List (Input R)) (s : Supervisor R) → IsSafe s → IsSafe (run fuel solve dyn es s)
      unfolding run
      run-IsSafe [] s v = v
      run-IsSafe (e ∷ es) s v = run-IsSafe es (step fuel solve dyn e s) (step-IsSafe e s v)

      -- Whatever the clients ask for and however the threads are scheduled, every set of gains that
      -- the supervisor applies keeps each joint's torque limit at or above its gravity floor, and no
      -- thread dies of the exception that an unknown profile raises.
      pub run-start-AboveFloor :
          (deps : Deps R) (es : List (Input R))
          → let s = run fuel solve dyn es (start deps) in AllAbove s.calls × (s.terminated ≡ false)
      run-start-AboveFloor deps es =
          let v = run-IsSafe es (start deps) (start-IsSafe deps) in
          (sent_above-AllAbove (run fuel solve dyn es (start deps)).calls v.calls_above, v.alive)
