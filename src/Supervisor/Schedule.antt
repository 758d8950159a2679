-- ===== src/Supervisor/Schedule.antt =====
-- The ledger of goals and results over any schedule of the supervisor's threads.
use kinova_gen3_driver.Prelude.{
  ℕ, ◌+◌, ◌≡◌, ◌⊎◌, refl, Bool, false, some, List, [], ◌∷◌, ◌==◌, ◌∙◌, count_if, count_if-append,
  arith, inl, inr,
}
use kinova_gen3_driver.Double.{Double}
use kinova_gen3_driver.Types.{
  GoalId, TrajectoryGoal, client_request, JointVec, Vector6, contact, arm_unavailable, LinkState,
  running, faulted, connecting, CancelRequest, GainsRequest, ContactThresholdsRequest,
  JointSetpoint, PoseSetpoint, TwistSetpoint, GripperSetpoint, SpeedOverrideRequest,
}
use kinova_gen3_driver.Monitor.{Dynamics}
use kinova_gen3_driver.Monitor.Latch.{Event}
use kinova_gen3_driver.Supervisor.{
  Supervisor, World, Phase, goal_in, cancel_in, top, draining, ticking, settling_goal, submitting,
}
use kinova_gen3_driver.Supervisor.Streams.{
  on_stream_close, on_setpoint_joint_position, on_setpoint_pose, on_setpoint_joint_torque,
  on_setpoint_joint_velocity, on_setpoint_twist,
}
use kinova_gen3_driver.Supervisor.Handlers.{
  on_trajectory_accepted, on_trajectory_cancel, on_link_state, link_down, on_set_gains,
  on_set_speed_override, set_speed_override, on_set_contact_thresholds, with_monitor_thresholds,
  on_query_contact, clear_contact, clear_latched, on_gripper_setpoint, arrival_mark,
}
use kinova_gen3_driver.Supervisor.System.{
  Input, goal_accepted, goal_cancel, new_gains, speed_override_to, contact_thresholds,
  contact_query, contact_clear, halt, open_asks, open_wakes, close, joint_position_to, pose_to,
  joint_torque_to, joint_velocity_to, twist_to, gripper_to, link_to, monitor_event, sampler_step,
  sample, watch, step, run, Deps, start,
}
use kinova_gen3_driver.Supervisor.Settlement.{
  total, due, sent, runs, waits_for, close_stream-total, on_halt-total, wake_open-total,
  ask_open-total,
}
use kinova_gen3_driver.Supervisor.Ledger.{
  top_step-total, drain_step-total, tick_step-total, start_goal-total, submit_goal-total,
}

-- A goal that the action server accepts under an id.
abbrev pub accepts : {R : Type 0} → GoalId → Input R → Bool
accepts id (goal_accepted i g) = i == id
accepts id _ = false

pub Phase-cases :
    {R : Type 0} (p : Phase R)
    → (p ≡ top)
      ⊎ ((p ≡ draining)
          ⊎ ((p ≡ ticking)
              ⊎ (((i : GoalId) × (g : TrajectoryGoal R) × (p ≡ settling_goal i g))
                  ⊎ ((i : GoalId) × (g : TrajectoryGoal R) × (p ≡ submitting i g)))))
Phase-cases top = inl refl
Phase-cases draining = inr (inl refl)
Phase-cases ticking = inr (inr (inl refl))
Phase-cases (settling_goal i g) = inr (inr (inr (inl (i, g, refl))))
Phase-cases (submitting i g) = inr (inr (inr (inr (i, g, refl))))

module _ {R : Type 0} ⦃d : Double R⦄ (id : GoalId) where
  on_trajectory_accepted-total :
      (i : GoalId) (g : TrajectoryGoal R) (s : Supervisor R)
      → total id (on_trajectory_accepted i g s) ≡ runs id (some i) + total id s
  unfolding on_trajectory_accepted
  on_trajectory_accepted-total i g s =
      ground (arith, count_if-append (waits_for id) s.inbox (goal_in i g (arrival_mark s) ∷ []))

  on_trajectory_cancel-total :
      (c : CancelRequest) (s : Supervisor R) → total id ((on_trajectory_cancel c s).1) ≡ total id s
  unfolding on_trajectory_cancel
  on_trajectory_cancel-total c s =
      ground (arith, count_if-append (waits_for id) s.inbox (cancel_in c.id ∷ []))

  on_set_gains-total :
      (r : GainsRequest R) (s : Supervisor R) → total id ((on_set_gains r s).1) ≡ total id s
  unfolding on_set_gains
  on_set_gains-total r s = ground arith

  on_set_speed_override-total :
      (r : SpeedOverrideRequest R) (s : Supervisor R)
      → total id ((on_set_speed_override r s).1) ≡ total id s
  unfolding on_set_speed_override set_speed_override
  on_set_speed_override-total r s = ground arith

  on_set_contact_thresholds-total :
      (r : ContactThresholdsRequest R) (s : Supervisor R)
      → total id ((on_set_contact_thresholds r s).1) ≡ total id s
  unfolding on_set_contact_thresholds with_monitor_thresholds
  on_set_contact_thresholds-total r s = ground arith

  on_query_contact-total :
      (w : World R) (s : Supervisor R) → total id ((on_query_contact w s).1) ≡ total id s
  unfolding on_query_contact
  on_query_contact-total w s = ground arith

  clear_contact-total :
      (w : World R) (s : Supervisor R) → total id ((clear_contact w s).1) ≡ total id s
  unfolding clear_contact clear_latched
  clear_contact-total w s = ground (arith, on_halt-total id contact w s)

  on_stream_close-total :
      (w : World R) (s : Supervisor R) → total id (on_stream_close w s) ≡ total id s
  unfolding on_stream_close
  on_stream_close-total w s = close_stream-total id client_request w s

  on_setpoint_joint_position-total :
      (p : JointSetpoint R) (w : World R) (s : Supervisor R)
      → total id (on_setpoint_joint_position p w s) ≡ total id s
  unfolding on_setpoint_joint_position
  on_setpoint_joint_position-total p w s = ground arith

  on_setpoint_pose-total :
      (p : PoseSetpoint R) (w : World R) (s : Supervisor R)
      → total id (on_setpoint_pose p w s) ≡ total id s
  unfolding on_setpoint_pose
  on_setpoint_pose-total p w s = ground arith

  on_setpoint_joint_torque-total :
      (p : JointSetpoint R) (w : World R) (s : Supervisor R)
      → total id (on_setpoint_joint_torque p w s) ≡ total id s
  unfolding on_setpoint_joint_torque
  on_setpoint_joint_torque-total p w s = ground arith

  on_setpoint_joint_velocity-total :
      (p : JointSetpoint R) (w : World R) (s : Supervisor R)
      → total id (on_setpoint_joint_velocity p w s) ≡ total id s
  unfolding on_setpoint_joint_velocity
  on_setpoint_joint_velocity-total p w s = ground arith

  on_setpoint_twist-total :
      (p : TwistSetpoint R) (w : World R) (s : Supervisor R)
      → total id (on_setpoint_twist p w s) ≡ total id s
  unfolding on_setpoint_twist
  on_setpoint_twist-total p w s = ground arith

  on_gripper_setpoint-total :
      (p : GripperSetpoint R) (s : Supervisor R) → total id (on_gripper_setpoint p s) ≡ total id s
  unfolding on_gripper_setpoint
  on_gripper_setpoint-total p s = ground arith

  on_link_state-total :
      (l : LinkState) (w : World R) (s : Supervisor R) → total id (on_link_state l w s) ≡ total id s
  unfolding on_link_state link_down
  on_link_state-total running w s = refl
  on_link_state-total connecting w s =
      ground (arith, on_halt-total id arm_unavailable w (record s { ready = false }))
  on_link_state-total faulted w s =
      ground (arith, on_halt-total id arm_unavailable w (record s { ready = false }))

  module _ (fuel : ℕ) (solve : JointVec R → Vector6 R → JointVec R) (dyn : Dynamics R) where
    watch-total : (e : Event R) (s : Supervisor R) → total id (watch dyn e s) ≡ total id s
    unfolding watch
    watch-total e s = ground arith

    asleep-total :
        (i : GoalId) (g : TrajectoryGoal R) (s : Supervisor R)
        → s.phase ≡ settling_goal i g
        → runs id (some i) + total id (record s { phase = draining }) ≡ total id s
    asleep-total i g s e = ground arith

    submitting-total :
        (i : GoalId) (g : TrajectoryGoal R) (s : Supervisor R)
        → s.phase ≡ submitting i g
        → runs id (some i) + total id (record s { phase = draining }) ≡ total id s
    submitting-total i g s e = ground arith

    sample-total : (w : World R) (s : Supervisor R) → total id (sample fuel solve w s) ≡ total id s
    unfolding sample
    sample-total w s = elim (Phase-cases s.phase) [
      | inl e ↦ ground (arith, top_step-total id fuel solve w s e)
      | inr (inl e) ↦ ground (arith, drain_step-total id s e)
      | inr (inr (inl e)) ↦ ground (arith, tick_step-total id fuel w s e)
      | inr (inr (inr (inl (i, g, e)))) ↦ ground (
        arith,
        start_goal-total id i g (record s { phase = draining }) refl,
        asleep-total i g s e,
      )
      | inr (inr (inr (inr (i, g, e)))) ↦ ground (
        arith,
        submit_goal-total id i g (record s { phase = draining }) refl,
        submitting-total i g s e,
      )
    ]

    abbrev took_in : Input R → ℕ
    took_in e = count_if (accepts id) (e ∷ [])

    step-total :
        (e : Input R) (s : Supervisor R)
        → total id (step fuel solve dyn e s) ≡ took_in e + total id s
    unfolding step
    step-total (goal_accepted i g) s = on_trajectory_accepted-total i g s ∙ ground arith
    step-total (goal_cancel c) s = on_trajectory_cancel-total c s ∙ omega arith
    step-total (new_gains r) s = on_set_gains-total r s ∙ omega arith
    step-total (speed_override_to r) s = on_set_speed_override-total r s ∙ omega arith
    step-total (contact_thresholds r) s = on_set_contact_thresholds-total r s ∙ omega arith
    step-total (contact_query w) s = on_query_contact-total w s ∙ omega arith
    step-total (contact_clear w) s = clear_contact-total w s ∙ omega arith
    step-total (halt r w) s = on_halt-total id r w s ∙ omega arith
    step-total (open_asks r) s = ask_open-total id r s ∙ omega arith
    step-total (open_wakes w) s = wake_open-total id w s ∙ omega arith
    step-total (close w) s = on_stream_close-total w s ∙ omega arith
    step-total (joint_position_to p w) s = on_setpoint_joint_position-total p w s ∙ omega arith
    step-total (pose_to p w) s = on_setpoint_pose-total p w s ∙ omega arith
    step-total (joint_torque_to p w) s = on_setpoint_joint_torque-total p w s ∙ omega arith
    step-total (joint_velocity_to p w) s = on_setpoint_joint_velocity-total p w s ∙ omega arith
    step-total (twist_to p w) s = on_setpoint_twist-total p w s ∙ omega arith
    step-total (gripper_to p) s = on_gripper_setpoint-total p s ∙ omega arith
    step-total (link_to l w) s = on_link_state-total l w s ∙ omega arith
    step-total (monitor_event e) s = watch-total e s ∙ omega arith
    step-total (sampler_step w) s = sample-total w s ∙ omega arith

    run-total :
        (es : List (Input R)) (s : Supervisor R)
        → total id (run fuel solve dyn es s) ≡ count_if (accepts id) es + total id s
    unfolding run
    run-total [] s = omega arith
    run-total (e ∷ es) s = ground (arith, run-total es (step fuel solve dyn e s), step-total e s)

    -- Whatever the threads' schedule, the results sent under an id and the goals still queued, being
    -- started or running under it are together exactly the goals accepted under it. So no goal is
    -- settled twice, none is dropped, and a result is never sent for a goal that was not accepted.
    pub run-start-settles :
        (deps : Deps R) (es : List (Input R))
        → let s = run fuel solve dyn es (start deps) in
          sent id s + due id s ≡ count_if (accepts id) es
    unfolding start
    run-start-settles deps es = ground (arith, run-total es (start deps))
