-- ===== src/Supervisor/Frame.antt =====
-- What the steps of an iteration leave alone: the inbox, the pending halt, the goal and the executor.
use kinova_gen3_driver.Prelude.{ℕ, ◌≡◌, arith}
use kinova_gen3_driver.Double.{Double}
use kinova_gen3_driver.Types.{
  JointVec, Vector6, deadline_expired, ik_fault, StreamCloseCause, TrajectoryResult,
}
use kinova_gen3_driver.Supervisor.{Supervisor, World}
use kinova_gen3_driver.Supervisor.Streams.{close_stream, latch_hold, stop_velocity}
use kinova_gen3_driver.Supervisor.Sampler.{
  line_up_position, settle_active, hold_measured, close_dead_stream, compliant_step,
  integrate_stream,
}

module _ {R : Type 0} ⦃d : Double R⦄ where
  -- The fields that the rest of an iteration must leave alone.
  pub record Same (s t : Supervisor R) : Type 0 where
    pub same_inbox : s.inbox ≡ t.inbox
    pub same_pending : s.halt_pending ≡ t.halt_pending
    pub same_goal : s.active_goal ≡ t.active_goal
    pub same_flight : s.in_flight ≡ t.in_flight
    pub same_traj : s.traj ≡ t.traj
    pub same_phase : s.phase ≡ t.phase

  pub close_stream-Same :
      (c : StreamCloseCause) (w : World R) (s : Supervisor R) → Same (close_stream c w s) s
  unfolding close_stream latch_hold stop_velocity
  close_stream-Same c w s = ground arith

  pub close_dead_stream-Same : (w : World R) (s : Supervisor R) → Same (close_dead_stream w s) s
  unfolding close_dead_stream
  close_dead_stream-Same w s = ground (
    arith,
    close_stream-Same deadline_expired w s,
    close_stream-Same ik_fault w s,
    close_stream-Same ik_fault w (close_stream deadline_expired w s),
  )

  pub settle_active-Same : (r : TrajectoryResult) (s : Supervisor R) → Same (settle_active r s) s
  unfolding settle_active
  settle_active-Same r s = ground arith

  pub line_up_position-Same : (s : Supervisor R) → Same (line_up_position s) s
  unfolding line_up_position
  line_up_position-Same s = ground arith

  pub hold_measured-Same : (w : World R) (s : Supervisor R) → Same (hold_measured w s) s
  unfolding hold_measured
  hold_measured-Same w s = ground arith

  pub compliant_step-Same :
      (fuel : ℕ) (solve : JointVec R → Vector6 R → JointVec R) (w : World R) (s : Supervisor R)
      → Same (compliant_step fuel solve w s) s
  unfolding compliant_step integrate_stream
  compliant_step-Same fuel solve w s = ground arith
