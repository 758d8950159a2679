-- ===== src/Tests/Driving.antt =====
-- The executor and the supervisor on concrete goals.
use kinova_gen3_driver.Prelude.{
  ◌+◌, ◌≡◌, ◌↔◌, refl, true, false, none, some, List, [], ◌∷◌, if◌then◌else◌, count_if,
}
use kinova_gen3_driver.Double.{Nano, nano, nano-IsOrdered, nought, ◌≤ᵈ◌}
use kinova_gen3_driver.Types.{
  Joint, JointVec, Vector6, position, latest_wins, emergency_stop, impedance,
}
use kinova_gen3_driver.Gains.{default_params}
use kinova_gen3_driver.Gripper.{new_gripper}
use kinova_gen3_driver.Executor.{
  Executor, Active, submit, tick, advance, reference_at, effective_scale, any_diverges, diverges,
  tick_active,
}
use kinova_gen3_driver.Executor.Sample.{duration}
use kinova_gen3_driver.Executor.Submit.{is_accepted, IsFit, submit_iff}
use kinova_gen3_driver.Executor.Tick.{Tracks, tick_running}
use kinova_gen3_driver.Supervisor.{Supervisor, World, submitting, draining}
use kinova_gen3_driver.Supervisor.Streams.{on_halt}
use kinova_gen3_driver.Supervisor.Sampler.{top_step}
use kinova_gen3_driver.Supervisor.System.{
  Input, goal_accepted, new_gains, halt, sampler_step, Deps, start, run,
}
use kinova_gen3_driver.Supervisor.Settlement.{sent, due}
use kinova_gen3_driver.Supervisor.Schedule.{accepts, run-start-settles}
use kinova_gen3_driver.Supervisor.Halting.{
  IsHalted, is_idle, samples, samples-on_halt, top_step-pending,
}
use kinova_gen3_driver.Tests.{at, short_plan, short_goal, arm_state, feedback}
use kinova_gen3_driver.Supervisor.Floor.{AllAbove}
use kinova_gen3_driver.Supervisor.Applied.{run-start-AboveFloor}
use kinova_gen3_driver.Tests.Limits.{stiff_gains, usable_profiles, free_body}

abbrev empty_executor : Executor Nano
empty_executor = record {
  continuous = λ _. false;
  mode = position;
  active = none;
  path_tol = at 0;
  scale = nano.lit 1 0;
  applied = nano.lit 1 0;
}

abbrev half_way : Active Nano
half_way = record {
  plan = short_plan;
  traj_t = nano.lit 1 0;
  last_now_s = nano.lit 4 0;
  started = true;
}

abbrev busy : Executor Nano
busy = record empty_executor { active = some half_way }

submit_iff_example :
    let r = submit short_plan position latest_wins (at 0) (nano.lit 1 0) empty_executor in
    ((is_accepted r.0 ≡ true) ↔ IsFit short_plan position latest_wins (nano.lit 1 0) empty_executor)
    × (r.1 ≡ (
        if is_accepted r.0
        then record {
          continuous = λ _. false;
          mode = position;
          active =
              some (record {
                plan = short_plan;
                traj_t = nought;
                last_now_s = nought;
                started = false;
              });
          path_tol = at 0;
          scale = nano.lit 1 0;
          applied = nano.lit 1 0;
        }
        else empty_executor))
submit_iff_example = submit_iff short_plan position latest_wins (at 0) (nano.lit 1 0) empty_executor

tick_running_example :
    let a' = advance (nano.lit 4 0) (effective_scale busy.scale (nano.lit 1 0)) half_way in
    let ref = reference_at (effective_scale busy.scale (nano.lit 1 0)) a' in
    ((i : Joint) → Tracks 4 busy (at 0) ref.q i)
    × ((duration a'.plan ≤ᵈ a'.traj_t) ≡ false)
    × ((tick 4 (nano.lit 4 0) (at 0) (nano.lit 1 0) busy).1 ≡ some ref)
    × ((tick 4 (nano.lit 4 0) (at 0) (nano.lit 1 0) busy).2.active ≡ some a')
unfolding tick tick_active advance any_diverges diverges duration
tick_running_example = tick_running 4 (nano.lit 4 0) (at 0) (nano.lit 1 0) half_way busy refl refl

abbrev deps : Deps Nano
deps = record {
  grip = none;
  idle_grip = new_gripper;
  monitor = none;
  profiles = usable_profiles;
  imp_params = default_params;
  q_lower = λ _. nano.infinity;
  q_upper = at 3;
  v_max = at 1;
  state_snap = arm_state;
}

abbrev pub world : World Nano
world = record {
  now_s = nano.lit 4 0;
  tick_dt = nano.lit 1 2;
  snap = some feedback;
  ik_faulted = false;
  pos_reference = at 0;
  imp_reference = at 0;
  status_whole = true;
}

abbrev pub no_twist : JointVec Nano → Vector6 Nano → JointVec Nano
no_twist q v = at 0

abbrev schedule : List (Input Nano)
schedule =
    goal_accepted 3 short_goal
    ∷ sampler_step world
    ∷ sampler_step world
    ∷ halt emergency_stop world
    ∷ sampler_step world
    ∷ []

abbrev pub started : Supervisor Nano
started = start deps

run-start-settles_example :
    let s = run 4 no_twist free_body schedule started in
    sent 3 s + due 3 s ≡ count_if (accepts 3) schedule
run-start-settles_example = run-start-settles 3 4 no_twist free_body deps schedule

abbrev all_inputs : List (Input Nano)
all_inputs =
    new_gains (record { spec = stiff_gains; token = 7 })
    ∷ goal_accepted 3 (record short_goal { control_mode = impedance; gains = stiff_gains })
    ∷ sampler_step world
    ∷ sampler_step world
    ∷ sampler_step world
    ∷ []

run-start-AboveFloor_example :
    let s = run 4 no_twist free_body all_inputs started in AllAbove s.calls × (s.terminated ≡ false)
run-start-AboveFloor_example =
    run-start-AboveFloor nano-IsOrdered 4 no_twist free_body deps all_inputs

-- The halt comes between the last look at it and the submission.
abbrev late_halt : Supervisor Nano
late_halt = record started { phase = submitting 3 short_goal }

samples-on_halt_example :
    IsHalted none
      (some 3)
      (samples 4 no_twist (world ∷ world ∷ []) (on_halt emergency_stop world late_halt))
unfolding start
samples-on_halt_example =
    samples-on_halt 4 no_twist emergency_stop world (world ∷ world ∷ []) late_halt

abbrev halted_one : Supervisor Nano
halted_one = record started { halt_pending = true }

top_step-pending_example :
    let t = top_step 4 no_twist world halted_one in
    (t.halt_pending ≡ false) × (is_idle t ≡ true) × (t.phase ≡ draining)
unfolding start
top_step-pending_example = top_step-pending 4 no_twist world halted_one refl refl
