-- ===== src/Supervisor/Halting.antt =====
-- What a halt stops: the goals that were queued, the one that runs, and the executor.
use kinova_gen3_driver.Prelude.{
  ℕ, ◌≡◌, ◌⊎◌, inl, inr, refl, Bool, true, false, not, ◌&&◌, ◌||◌, Option, none, some, List, [],
  ◌∷◌, is_some, arith, if◌then◌else◌, List-cases, Bool-cases, get_or, ◌∙◌,
}
use kinova_gen3_driver.Double.{Double}
use kinova_gen3_driver.Types.{
  JointVec, Vector6, HaltReason, contact, contact_stop, halted, preempted, GoalId, TrajectoryGoal,
  ResultCode,
}
use kinova_gen3_driver.Executor.{is_active, new_executor, tick, submit}
use kinova_gen3_driver.Executor.Sample.{JointTarget}
use kinova_gen3_driver.Supervisor.{
  Supervisor, World, Inbound, goal_in, cancel_in, Phase, top, draining, ticking, settling_goal,
  submitting, is_contact, emit, halt_result, result_of, publish_feedback, sampled_q,
}
use kinova_gen3_driver.Supervisor.Streams.{
  on_halt, close_stream, release_grip, latch_halt, flush, apply_impedance_gains,
}
use kinova_gen3_driver.Supervisor.Sampler.{
  push_speed, contact_edge, take_halt, line_up_position, rebind, settle_active, go_idle,
  close_dead_stream, top_step, start_goal, submit_goal, start_gains, drain_step, drain_one,
  tick_step, finish_tick, write_target,
}
use kinova_gen3_driver.Supervisor.System.{sample}
use kinova_gen3_driver.Supervisor.Frame.{
  Same, close_stream-Same, close_dead_stream-Same, settle_active-Same, line_up_position-Same,
  hold_measured-Same, compliant_step-Same,
}
use kinova_gen3_driver.Supervisor.Schedule.{Phase-cases}

abbrev pub all_marked : {R : Type 0} → List (Inbound R) → Bool
all_marked [] = true
all_marked (goal_in id g why ∷ is) = let rest = all_marked is in is_some why && rest
all_marked (cancel_in id ∷ is) = false

abbrev asleep : {R : Type 0} → Phase R → Bool
asleep (settling_goal id g) = true
asleep (submitting id g) = true
asleep top = false
asleep draining = false
asleep ticking = false

module _ {R : Type 0} ⦃d : Double R⦄ where
  -- The goal that has passed the last look at the halt and is being submitted.
  abbrev pub in_submission : Phase R → Option GoalId
  in_submission (submitting id g) = some id
  in_submission (settling_goal id g) = none
  in_submission top = none
  in_submission draining = none
  in_submission ticking = none

  -- No goal is held, started or executed.
  abbrev pub is_idle : Supervisor R → Bool
  is_idle s =
      not (is_some s.active_goal)
      && (not s.in_flight && (not (is_active s.traj) && not (asleep s.phase)))

  flush-marked : (r : HaltReason) (is : List (Inbound R)) → all_marked (flush r is) ≡ true
  flush-marked r [] = refl
  flush-marked r (cancel_in id ∷ is) = flush-marked r is
  flush-marked r (goal_in id g none ∷ is) = flush-marked r is
  flush-marked r (goal_in id g (some why) ∷ is) = flush-marked r is

  on_halt-latches :
      (r : HaltReason) (w : World R) (s : Supervisor R)
      → let t = on_halt r w s in
        (all_marked t.inbox ≡ true)
        × (t.halt_pending ≡ true)
        × (t.active_goal ≡ s.active_goal)
        × (t.phase ≡ s.phase)
  unfolding on_halt release_grip latch_halt
  on_halt-latches r w s = ground (
    arith,
    close_stream-Same (if is_contact r then contact_stop else halted) w s,
    flush-marked r (close_stream (if is_contact r then contact_stop else halted) w s).inbox,
  )

  -- A halt was taken, or is still to be taken by the top of the next iteration.
  pub record IsHalted (goal late : Option GoalId) (s : Supervisor R) : Type 0 where
    pub marked : all_marked s.inbox ≡ true
    pub quiet : (s.halt_pending || is_idle s) ≡ true
    pub no_new_goal : (s.active_goal ≡ none) ⊎ ((s.active_goal ≡ goal) ⊎ (s.active_goal ≡ late))
    pub no_new_submission : (in_submission s.phase ≡ none) ⊎ (in_submission s.phase ≡ late)

  contact_edge-IsHalted :
      (goal late : Option GoalId) (w : World R) (s : Supervisor R)
      → IsHalted goal late s
      → IsHalted goal late (contact_edge w s) × ((contact_edge w s).phase ≡ s.phase)
  unfolding contact_edge
  contact_edge-IsHalted goal late w s v =
      ground (arith, on_halt-latches contact w (record s { contact_cleared = false }))

  -- What `take_halt` leaves.
  take_halt-IsHalted :
      (goal late : Option GoalId) (w : World R) (s : Supervisor R)
      → s.phase ≡ top
      → IsHalted goal late s
      → IsHalted goal late (take_halt w s)
        × ((take_halt w s).halt_pending ≡ false)
        × (is_idle (take_halt w s) ≡ true)
  unfolding take_halt rebind go_idle new_executor
  take_halt-IsHalted goal late w s e v =
      let s0 = record s { halt_pending = false } in
      let s1 = settle_active (halt_result s.halt_reason) s0 in
      let s2 = line_up_position s1 in
      ground (
        arith,
        settle_active-Same (halt_result s.halt_reason) s0,
        line_up_position-Same s1,
        hold_measured-Same w (go_idle (rebind s2.active_mode_kind s2)),
      )

  push_speed-IsHalted :
      (goal late : Option GoalId) (w : World R) (s : Supervisor R)
      → IsHalted goal late s
      → IsHalted goal late (push_speed w s) × ((push_speed w s).phase ≡ s.phase)
  unfolding push_speed
  push_speed-IsHalted goal late w s v = ground arith

  top_step-IsHalted :
      (fuel : ℕ) (solve : JointVec R → Vector6 R → JointVec R) (goal late : Option GoalId)
      (w : World R) (s : Supervisor R)
      → s.phase ≡ top
      → IsHalted goal late s
      → let t = top_step fuel solve w s in
        IsHalted goal late t × (t.halt_pending ≡ false) × (is_idle t ≡ true)
  unfolding top_step
  top_step-IsHalted fuel solve goal late w s e v =
      let s1 = push_speed w s in
      let v1 = push_speed-IsHalted goal late w s v in
      let s2 = contact_edge w s1 in
      let v2 = contact_edge-IsHalted goal late w s1 v1.0 in
      let s3 = take_halt w s2 in
      let s4 = close_dead_stream w s3 in
      ground (
        arith,
        take_halt-IsHalted goal late w s2 (v2.1 ∙ (v1.1 ∙ e)) v2.0,
        close_dead_stream-Same w s3,
        compliant_step-Same fuel solve w s4,
      )

  contact_edge-pending :
      (w : World R) (s : Supervisor R)
      → s.halt_pending ≡ true
      → ((contact_edge w s).halt_pending ≡ true) × ((contact_edge w s).phase ≡ s.phase)
  unfolding contact_edge
  contact_edge-pending w s h =
      ground (arith, on_halt-latches contact w (record s { contact_cleared = false }))

  take_halt-pending :
      (w : World R) (s : Supervisor R)
      → s.phase ≡ top
      → s.halt_pending ≡ true
      → ((take_halt w s).halt_pending ≡ false) × (is_idle (take_halt w s) ≡ true)
  unfolding take_halt rebind go_idle new_executor
  take_halt-pending w s e h =
      let s0 = record s { halt_pending = false } in
      let s1 = settle_active (halt_result s.halt_reason) s0 in
      let s2 = line_up_position s1 in
      ground (
        arith,
        settle_active-Same (halt_result s.halt_reason) s0,
        line_up_position-Same s1,
        hold_measured-Same w (go_idle (rebind s2.active_mode_kind s2)),
      )

  -- The top of an iteration takes a pending halt, whatever runs and whatever is queued: afterwards the
  -- halt is no longer pending, no goal is active, in flight, asleep or in submission, the executor is
  -- idle, and the queue is next.
  pub top_step-pending :
      (fuel : ℕ) (solve : JointVec R → Vector6 R → JointVec R) (w : World R) (s : Supervisor R)
      → s.phase ≡ top
      → s.halt_pending ≡ true
      → let t = top_step fuel solve w s in
        (t.halt_pending ≡ false) × (is_idle t ≡ true) × (t.phase ≡ draining)
  unfolding top_step push_speed
  top_step-pending fuel solve w s e h =
      let s1 = push_speed w s in
      let p1 : (s1.halt_pending ≡ true) × (s1.phase ≡ top) = ground arith in
      let s2 = contact_edge w s1 in
      let p2 = contact_edge-pending w s1 p1.0 in
      let s3 = take_halt w s2 in
      let s4 = close_dead_stream w s3 in
      ground (
        arith,
        take_halt-pending w s2 (p2.1 ∙ p1.1) p2.0,
        close_dead_stream-Same w s3,
        compliant_step-Same fuel solve w s4,
      )

  start_goal-IsHalted :
      (goal late : Option GoalId) (id : GoalId) (g : TrajectoryGoal R) (s : Supervisor R)
      → s.phase ≡ settling_goal id g
      → IsHalted goal late s
      → IsHalted goal late (start_goal id g (record s { phase = draining }))
  unfolding start_goal
  start_goal-IsHalted goal late id g s e v = ground arith

  start_gains-keeps :
      (g : TrajectoryGoal R) (s : Supervisor R)
      → ((start_gains g s).inbox ≡ s.inbox)
        × ((start_gains g s).halt_pending ≡ s.halt_pending)
        × ((start_gains g s).phase ≡ s.phase)
  unfolding start_gains apply_impedance_gains
  start_gains-keeps g s = ground arith

  submit_goal-IsHalted :
      (goal late : Option GoalId) (id : GoalId) (g : TrajectoryGoal R) (s : Supervisor R)
      → s.phase ≡ submitting id g
      → IsHalted goal late s
      → IsHalted goal late (submit_goal id g (record s { phase = draining }))
  unfolding submit_goal settle_active
  submit_goal-IsHalted goal late id g s e v =
      let sub =
        submit g.trajectory g.control_mode g.preemption g.path_tolerance g.speed_scale s.traj in
      let s1 =
        settle_active (result_of preempted "") (record s { phase = draining; traj = sub.1 }) in
      let is_late : some id ≡ late = ground arith in ground (arith, start_gains-keeps g s1)

  drain_step-IsHalted :
      (goal late : Option GoalId) (s : Supervisor R)
      → s.phase ≡ draining
      → IsHalted goal late s
      → IsHalted goal late (drain_step s)
  unfolding drain_step drain_one
  drain_step-IsHalted goal late s e v = elim (List-cases s.inbox) [
    | inl n ↦ ground arith
    | inr (goal_in id g (some why), xs, n) ↦ ground arith
    | inr (goal_in id g none, xs, n) ↦ ground arith
    | inr (cancel_in id, xs, n) ↦ ground arith
  ]

  finish_tick-IsHalted :
      (goal late : Option GoalId) (b : Bool) (c : ResultCode) (s : Supervisor R)
      → IsHalted goal late s
      → IsHalted goal late (finish_tick b c s)
  unfolding finish_tick settle_active go_idle
  finish_tick-IsHalted goal late b c s v = ground arith

  tick_step-IsHalted :
      (fuel : ℕ) (goal late : Option GoalId) (w : World R) (s : Supervisor R)
      → s.phase ≡ ticking
      → IsHalted goal late s
      → IsHalted goal late (tick_step fuel w s)
  unfolding tick_step
  tick_step-IsHalted fuel goal late w s e v = elim (Bool-cases (is_active s.traj)) [
    | inl a ↦
        let q = sampled_q w.snap s.q_meas in
        let r = tick fuel w.now_s q s.speed s.traj in
        let s1 = record s {
          phase = top;
          q_meas = q;
          have_q_meas = s.have_q_meas || is_some w.snap;
          traj = r.2;
        } in
        let s3 =
          emit (publish_feedback (get_or 0 s.active_goal) q (r.0.fraction)) (write_target r.1 s1) in
        ground (
          arith,
          written r.1 s1,
          finish_tick-IsHalted goal late (r.0.completed) (r.0.error_code) s3,
        )
    | inr a ↦ ground arith
  ]
    where
      written : (t : Option (JointTarget R)) (s : Supervisor R) → Same (write_target t s) s
      written none s = ground arith
      written (some t) s = ground arith

  module _ (fuel : ℕ) (solve : JointVec R → Vector6 R → JointVec R) where
    sample-IsHalted :
        (goal late : Option GoalId) (w : World R) (s : Supervisor R)
        → IsHalted goal late s
        → IsHalted goal late (sample fuel solve w s)
    unfolding sample
    sample-IsHalted goal late w s v = elim (Phase-cases s.phase) [
      | inl e ↦ ground (arith, top_step-IsHalted fuel solve goal late w s e v)
      | inr (inl e) ↦ ground (arith, drain_step-IsHalted goal late s e v)
      | inr (inr (inl e)) ↦ ground (arith, tick_step-IsHalted fuel goal late w s e v)
      | inr (inr (inr (inl (i, g, e)))) ↦ ground (arith, start_goal-IsHalted goal late i g s e v)
      | inr (inr (inr (inr (i, g, e)))) ↦ ground (arith, submit_goal-IsHalted goal late i g s e v)
    ]

    abbrev pub samples : List (World R) → Supervisor R → Supervisor R
    samples [] s = s
    samples (w ∷ ws) s = samples ws (sample fuel solve w s)

    samples-IsHalted :
        (goal late : Option GoalId) (ws : List (World R)) (s : Supervisor R)
        → IsHalted goal late s
        → IsHalted goal late (samples ws s)
    samples-IsHalted goal late [] s v = v
    samples-IsHalted goal late (w ∷ ws) s v =
        samples-IsHalted goal late ws (sample fuel solve w s) (sample-IsHalted goal late w s v)

    -- After a halt, wherever the sampler stood and however far it then runs on its own, no goal
    -- starts, except one that was in submission, past the last look at the halt, when the halt came: the
    -- active goal is none, the one of before or that one, every goal in the queue is marked, and once
    -- the halt is no longer pending nothing is active, in flight, asleep, in submission or executed.
    pub samples-on_halt :
        (r : HaltReason) (w : World R) (ws : List (World R)) (s : Supervisor R)
        → IsHalted s.active_goal (in_submission s.phase) (samples ws (on_halt r w s))
    samples-on_halt r w ws s =
        samples-IsHalted s.active_goal (in_submission s.phase) ws (on_halt r w s)
          (ground (arith, on_halt-latches r w s))
