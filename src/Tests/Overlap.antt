-- ===== src/Tests/Overlap.antt =====
-- A stream that opens around a goal: `on_stream_open` of src/interface/supervisor.cpp checks
-- `in_flight_` before its settle sleep alone.
use kinova_gen3_driver.Prelude.{◌≡◌, refl, true, ◌&&◌, List, [], ◌∷◌, is_some}
use kinova_gen3_driver.Double.{Nano, nano}
use kinova_gen3_driver.Types.{StreamOpenRequest, ee_pose, position}
use kinova_gen3_driver.Session.{open_session, pair_supported, new_session}
use kinova_gen3_driver.Gains.{known_profile}
use kinova_gen3_driver.Executor.{
  valid_timestamps, valid_stamps, spaced_after, slew_scale, adopt, submit, new_executor,
}
use kinova_gen3_driver.Supervisor.{Supervisor, contact_latched}
use kinova_gen3_driver.Supervisor.Streams.{
  open_begin, open_refusal, open_finish, open_commit, seed_stream,
}
use kinova_gen3_driver.Supervisor.Handlers.{on_trajectory_accepted, arrival_mark}
use kinova_gen3_driver.Supervisor.Sampler.{
  push_speed, contact_edge, take_halt, close_dead_stream, compliant_step, drain_step, drain_one,
  drain_goal, goal_refusal, start_goal, submit_goal, settle_active, start_gains, top_step,
}
use kinova_gen3_driver.Supervisor.System.{
  Input, goal_accepted, open_asks, open_wakes, sampler_step, start, run, step, sample, ask_open,
  wake_open,
}
use kinova_gen3_driver.Tests.{short_goal, bare_gains}
use kinova_gen3_driver.Tests.Limits.{free_body}
use kinova_gen3_driver.Tests.Driving.{world, no_twist, started}

abbrev ask_pose : StreamOpenRequest Nano
ask_pose = record {
  kind = ee_pose;
  control_mode = position;
  timeout_s = nano.lit 1 0;
  gains = bare_gains;
  token = 7;
}

-- The goal waits in the inbox while the open passes its check, and starts during the sleep.
abbrev race : List (Input Nano)
race =
    goal_accepted 3 short_goal
    ∷ open_asks ask_pose
    ∷ sampler_step world
    ∷ sampler_step world
    ∷ sampler_step world
    ∷ open_wakes world
    ∷ []

abbrev raced : Supervisor Nano
raced = run 4 no_twist free_body race started

-- After it the session is open and the goal is active.
raced_overlaps : (raced.stream_open && (raced.in_flight && is_some raced.active_goal)) ≡ true
unfolding start run step sample ask_open wake_open open_begin open_refusal open_finish open_commit
    seed_stream open_session pair_supported known_profile contact_latched on_trajectory_accepted
    arrival_mark top_step push_speed contact_edge take_halt close_dead_stream compliant_step
    drain_step drain_one drain_goal goal_refusal valid_timestamps valid_stamps spaced_after
    start_goal submit_goal submit adopt new_executor settle_active start_gains new_session
    slew_scale
raced_overlaps = refl
