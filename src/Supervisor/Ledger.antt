-- ===== src/Supervisor/Ledger.antt =====
-- What the steps of `sampler_loop` do to the ledger of goals and results.
use kinova_gen3_driver.Prelude.{
  ℕ, ◌+◌, ◌≡◌, refl, Bool, false, Option, none, some, [], ◌∷◌, ◌∙◌, count_if, List-cases, inl, inr,
  arith, is_some, get_or, ◌||◌,
}
use kinova_gen3_driver.Double.{Double}
use kinova_gen3_driver.Types.{
  GoalId, TrajectoryGoal, TrajectoryResult, contact, preempted, JointVec, Vector6, ResultCode,
  deadline_expired, ik_fault,
}
use kinova_gen3_driver.Executor.{submit, tick}
use kinova_gen3_driver.Executor.Sample.{JointTarget}
use kinova_gen3_driver.Supervisor.{
  Supervisor, World, Inbound, goal_in, cancel_in, top, draining, ticking, emit, result_of,
  halt_result, sampled_q, publish_feedback,
}
use kinova_gen3_driver.Supervisor.Streams.{close_stream, apply_impedance_gains}
use kinova_gen3_driver.Supervisor.Sampler.{
  rebind, go_idle, settle_active, push_speed, contact_edge, line_up_position, hold_measured,
  take_halt, close_dead_stream, compliant_step, integrate_stream, top_step, cancel_active,
  start_gains, start_goal, submit_goal, switch_mode, drain_goal, drain_one, drain_step, finish_tick,
  tick_step, write_target,
}
use kinova_gen3_driver.Supervisor.Frame.{
  settle_active-Same, line_up_position-Same, hold_measured-Same,
}
use kinova_gen3_driver.Supervisor.Settlement.{
  total, waits_for, runs, starts, close_stream-total, on_halt-total, close_stream-phase,
  on_halt-phase, apply_impedance_gains-total,
}

module _ {R : Type 0} ⦃d : Double R⦄ (id : GoalId) where
  push_speed-total : (w : World R) (s : Supervisor R) → total id (push_speed w s) ≡ total id s
  unfolding push_speed
  push_speed-total w s = refl

  contact_edge-total : (w : World R) (s : Supervisor R) → total id (contact_edge w s) ≡ total id s
  unfolding contact_edge
  contact_edge-total w s =
      ground (arith, on_halt-total id contact w (record s { contact_cleared = false }))

  -- The result of the active goal is sent.
  settle_active-total :
      (r : TrajectoryResult) (s : Supervisor R)
      → total id (settle_active r s) ≡ runs id s.active_goal + total id s
  unfolding settle_active
  settle_active-total r s = ground arith

  line_up_position-total : (s : Supervisor R) → total id (line_up_position s) ≡ total id s
  unfolding line_up_position
  line_up_position-total s = ground arith

  hold_measured-total : (w : World R) (s : Supervisor R) → total id (hold_measured w s) ≡ total id s
  unfolding hold_measured
  hold_measured-total w s = ground arith

  take_halt-total : (w : World R) (s : Supervisor R) → total id (take_halt w s) ≡ total id s
  unfolding take_halt rebind go_idle
  take_halt-total w s =
      let s0 = record s { halt_pending = false } in
      let s1 = settle_active (halt_result s.halt_reason) s0 in
      let s2 = line_up_position s1 in
      ground (
        arith,
        settle_active-total (halt_result s.halt_reason) s0,
        settle_active-Same (halt_result s.halt_reason) s0,
        line_up_position-total s1,
        line_up_position-Same s1,
        hold_measured-total w (go_idle (rebind s2.active_mode_kind s2)),
      )

  close_dead_stream-total :
      (w : World R) (s : Supervisor R) → total id (close_dead_stream w s) ≡ total id s
  unfolding close_dead_stream
  close_dead_stream-total w s = ground (
    arith,
    close_stream-total id deadline_expired w s,
    close_stream-total id ik_fault w s,
    close_stream-total id ik_fault w (close_stream deadline_expired w s),
  )

  push_speed-phase : (w : World R) (s : Supervisor R) → (push_speed w s).phase ≡ s.phase
  unfolding push_speed
  push_speed-phase w s = refl

  contact_edge-phase : (w : World R) (s : Supervisor R) → (contact_edge w s).phase ≡ s.phase
  unfolding contact_edge
  contact_edge-phase w s =
      ground (arith, on_halt-phase id contact w (record s { contact_cleared = false }))

  take_halt-phase : (w : World R) (s : Supervisor R) → (take_halt w s).phase ≡ s.phase
  unfolding take_halt rebind go_idle
  take_halt-phase w s =
      let s0 = record s { halt_pending = false } in
      let s1 = settle_active (halt_result s.halt_reason) s0 in
      let s2 = line_up_position s1 in
      ground (
        arith,
        settle_active-Same (halt_result s.halt_reason) s0,
        line_up_position-Same s1,
        hold_measured-Same w (go_idle (rebind s2.active_mode_kind s2)),
      )

  close_dead_stream-phase :
      (w : World R) (s : Supervisor R) → (close_dead_stream w s).phase ≡ s.phase
  unfolding close_dead_stream
  close_dead_stream-phase w s = ground (
    arith,
    close_stream-phase id deadline_expired w s,
    close_stream-phase id ik_fault w s,
    close_stream-phase id ik_fault w (close_stream deadline_expired w s),
  )

  drain_begins :
      (s : Supervisor R) → s.phase ≡ top → total id (record s { phase = draining }) ≡ total id s
  drain_begins s e = ground arith

  module _ (fuel : ℕ) (solve : JointVec R → Vector6 R → JointVec R) where
    compliant_step-total :
        (w : World R) (s : Supervisor R) → total id (compliant_step fuel solve w s) ≡ total id s
    unfolding compliant_step integrate_stream
    compliant_step-total w s = ground arith

    compliant_step-phase :
        (w : World R) (s : Supervisor R) → (compliant_step fuel solve w s).phase ≡ s.phase
    unfolding compliant_step integrate_stream
    compliant_step-phase w s = ground arith

    -- The steps before the inbox leave the phase alone.
    prefix-phase :
        (w : World R) (s : Supervisor R)
        → (compliant_step fuel solve w
            (close_dead_stream w (take_halt w (contact_edge w (push_speed w s))))).phase
          ≡ s.phase
    prefix-phase w s =
        let s1 = push_speed w s in
        let s2 = contact_edge w s1 in
        let s3 = take_halt w s2 in
        let s4 = close_dead_stream w s3 in
        compliant_step-phase w s4
        ∙ (close_dead_stream-phase w s3
            ∙ (take_halt-phase w s2 ∙ (contact_edge-phase w s1 ∙ push_speed-phase w s)))

    pub top_step-total :
        (w : World R) (s : Supervisor R)
        → s.phase ≡ top
        → total id (top_step fuel solve w s) ≡ total id s
    unfolding top_step
    top_step-total w s e =
        let s1 = push_speed w s in
        let s2 = contact_edge w s1 in
        let s3 = take_halt w s2 in
        let s4 = close_dead_stream w s3 in
        let s5 = compliant_step fuel solve w s4 in
        drain_begins s5 (prefix-phase w s ∙ e)
        ∙ (compliant_step-total w s4
            ∙ (close_dead_stream-total w s3
                ∙ (take_halt-total w s2 ∙ (contact_edge-total w s1 ∙ push_speed-total w s))))

  cancel_active-total : (s : Supervisor R) → total id (cancel_active s) ≡ total id s
  unfolding cancel_active go_idle rebind
  cancel_active-total s = ground (
    arith,
    settle_active-total (result_of preempted "") s,
    settle_active-Same (result_of preempted "") s,
  )

  start_gains-total :
      (g : TrajectoryGoal R) (s : Supervisor R) → total id (start_gains g s) ≡ total id s
  unfolding start_gains
  start_gains-total g s = ground (arith, apply_impedance_gains-total id g.gains s)

  start_gains-active :
      (g : TrajectoryGoal R) (s : Supervisor R)
      → ((start_gains g s).active_goal ≡ s.active_goal) × ((start_gains g s).phase ≡ s.phase)
  unfolding start_gains apply_impedance_gains
  start_gains-active g s = ground arith

  -- The goal that was being started is settled or goes on to its submission.
  pub start_goal-total :
      (i : GoalId) (g : TrajectoryGoal R) (s : Supervisor R)
      → starts id s.phase ≡ 0
      → total id (start_goal i g s) ≡ runs id (some i) + total id s
  unfolding start_goal
  start_goal-total i g s e = ground arith

  -- The goal that was being submitted is settled or becomes the active one.
  pub submit_goal-total :
      (i : GoalId) (g : TrajectoryGoal R) (s : Supervisor R)
      → starts id s.phase ≡ 0
      → total id (submit_goal i g s) ≡ runs id (some i) + total id s
  unfolding submit_goal settle_active
  submit_goal-total i g s e =
      let sub =
        submit g.trajectory g.control_mode g.preemption g.path_tolerance g.speed_scale s.traj in
      let s1 = settle_active (result_of preempted "") (record s { traj = sub.1 }) in
      ground (arith, start_gains-total g s1, start_gains-active g s1)

  switch_mode-total :
      (i : GoalId) (g : TrajectoryGoal R) (s : Supervisor R)
      → starts id s.phase ≡ 0
      → total id (switch_mode i g s) ≡ runs id (some i) + total id s
  unfolding switch_mode rebind
  switch_mode-total i g s e = ground arith

  drain_goal-total :
      (i : GoalId) (g : TrajectoryGoal R) (s : Supervisor R)
      → starts id s.phase ≡ 0
      → total id (drain_goal i g s) ≡ runs id (some i) + total id s
  unfolding drain_goal
  drain_goal-total i g s e = ground (arith, start_goal-total i g s e, switch_mode-total i g s e)

  abbrev waiting : Inbound R → ℕ
  waiting x = count_if (waits_for id) (x ∷ [])

  drain_one-total :
      (x : Inbound R) (s : Supervisor R)
      → starts id s.phase ≡ 0
      → total id (drain_one x s) ≡ waiting x + total id s
  unfolding drain_one
  drain_one-total (goal_in i g (some why)) s e = ground arith
  drain_one-total (goal_in i g none) s e = drain_goal-total i g s e ∙ ground arith
  drain_one-total (cancel_in i) s e = cancel_active-total s ∙ omega arith

  drain_ends :
      (s : Supervisor R) → s.phase ≡ draining → total id (record s { phase = ticking }) ≡ total id s
  drain_ends s e = ground arith

  pub drain_step-total :
      (s : Supervisor R) → s.phase ≡ draining → total id (drain_step s) ≡ total id s
  unfolding drain_step
  drain_step-total s e = elim (List-cases s.inbox) [
    | inl n ↦ ground (arith, drain_ends s e)
    | inr (x, xs, n) ↦ ground (arith, drain_one-total x (record s { inbox = xs }) (ground arith))
  ]

  finish_tick-total :
      (b : Bool) (c : ResultCode) (s : Supervisor R) → total id (finish_tick b c s) ≡ total id s
  unfolding finish_tick settle_active go_idle
  finish_tick-total b c s = ground arith

  write_target-total :
      (t : Option (JointTarget R)) (s : Supervisor R) → total id (write_target t s) ≡ total id s
  write_target-total none s = refl
  write_target-total (some t) s = refl

  pub tick_step-total :
      (fuel : ℕ) (w : World R) (s : Supervisor R)
      → s.phase ≡ ticking
      → total id (tick_step fuel w s) ≡ total id s
  unfolding tick_step
  tick_step-total fuel w s e =
      let s0 = record s { phase = top } in
      let q = sampled_q w.snap s.q_meas in
      let r = tick fuel w.now_s q s.speed s.traj in
      let s1 = record s0 {
        q_meas = q;
        have_q_meas = s.have_q_meas || is_some w.snap;
        traj = r.2;
      } in
      let s2 = write_target r.1 s1 in
      let s3 = emit (publish_feedback (get_or 0 s.active_goal) q (r.0.fraction)) s2 in
      ground
        (arith, finish_tick-total (r.0.completed) (r.0.error_code) s3, write_target-total r.1 s1)
