-- ===== src/Tests/Looping.antt =====
-- The real-time loop and its ring of samples on concrete cycles.
use kinova_gen3_driver.Prelude.{
  ℕ, ◌+◌, ◌≡◌, refl, arith, true, false, none, some, List, [], ◌∷◌, ◌⊎◌, EachOf,
}
use kinova_gen3_driver.Double.{Nano, nano, nought}
use kinova_gen3_driver.Types.{torque_actuator, JointCommand}
use kinova_gen3_driver.Telemetry.{CycleSample, new_ring, round_up_pow2}
use kinova_gen3_driver.Telemetry.Ring.{pushes, pops, run_ring, run_queue, run_ring-refines}
use kinova_gen3_driver.RtExecutor.{
  ExecutorConfig, no_misses, Loop, Modes, Cycle, Answer, replies, times_out, pumped, count_exchange,
  is_lost, End, comms_lost, exchanges_command,
}
use kinova_gen3_driver.RtExecutor.Steps.{cycle}
use kinova_gen3_driver.RtExecutor.Running.{Event, cycles, requests, run, run_loop}
use kinova_gen3_driver.RtExecutor.CommsLoss.{
  after, streak, recent, meets, survives, count_exchange-meets,
}
use kinova_gen3_driver.RtExecutor.Trace.{is_orderly, log, OnSome, run_loop-orderly}
use kinova_gen3_driver.RtExecutor.Latched.{foreign, run-foreign}
use kinova_gen3_driver.RtExecutor.Missed.{Resends, cycle_missed}
use kinova_gen3_driver.Tests.{at, feedback}
use kinova_gen3_driver.Tests.Limits.{free_body, stopped}

run_ring-refines_example :
    run_ring {A = ℕ} (pushes 1 ∷ pushes 2 ∷ pushes 3 ∷ pops ∷ pops ∷ pops ∷ []) (new_ring 0 2)
    ≡ run_queue {A = ℕ}
        (round_up_pow2 2)
        (pushes 1 ∷ pushes 2 ∷ pushes 3 ∷ pops ∷ pops ∷ pops ∷ [])
        []
run_ring-refines_example =
    run_ring-refines 0 2 (pushes 1 ∷ pushes 2 ∷ pushes 3 ∷ pops ∷ pops ∷ pops ∷ []) (omega arith)
      (omega arith)

abbrev settings : ExecutorConfig Nano
settings = record {
  max_consecutive_misses = 3;
  max_window_misses = 2;
  miss_window = 4;
  exit_on_fault = true;
  period_ns = 1000;
  dt_s = nano.lit 1 3;
  max_dt_s = nano.lit 63 3;
}

-- Two misses with one good exchange between them.
count_exchange-meets_example :
    is_lost (count_exchange settings true (after settings (false ∷ true ∷ []))).0
    ≡ meets settings (true ∷ false ∷ true ∷ [])
unfolding survives meets streak recent
count_exchange-meets_example =
    count_exchange-meets settings true (false ∷ true ∷ []) refl (omega arith) refl

-- Modes that count their computes.
abbrev counters : Modes Nano ℕ
counters = record {
  required_modes = λ _ _. torque_actuator;
  on_enter = λ _ _ s. s;
  on_exit = λ _ s. s;
  compute = λ _ _ _ c s. (c, s + 1);
}

abbrev blank_sample : CycleSample
blank_sample = record {
  cycle_index = 0;
  wake_jitter_ns = 0;
  comm_ns = 0;
  compute_ns = 0;
  cycle_ns = 0;
  flags = 0;
}

abbrev pub rest_command : JointCommand Nano
rest_command = record {
  mode = torque_actuator;
  position = at 0;
  velocity = at 0;
  torque = at 0;
  gripper = record { position = nought; speed = nought; force = nought; active = false };
}

-- A loop that runs mode 1, with contact mode 7, after some misses in a row.
abbrev loop_after : ℕ → Loop Nano ℕ
loop_after n = record {
  cfg = settings;
  requested = some 2;
  contact = some stopped;
  on_contact = 7;
  modes = 0;
  ring = new_ring blank_sample 8;
  active = some 1;
  cmd = rest_command;
  fb = feedback;
  misses = record no_misses { consecutive = n };
  faulty = 0;
  not_low_level = 0;
  last_compute_ns = none;
  last_read_ns = 0;
  boundary = 1000;
  cycle_index = 0;
  calls = [];
}

abbrev a_cycle : Answer Nano → Cycle Nano
a_cycle a = record { t0 = 1001; t1 = 1100; t2 = 1200; now = 1300; pumping = pumped; answer = a }

abbrev in_seconds : ℕ → Nano
in_seconds n = nano.lit n 9

abbrev some_events : List (Event Nano ℕ)
some_events =
    cycles (a_cycle (replies feedback))
    ∷ requests 3
    ∷ cycles (a_cycle times_out)
    ∷ cycles (a_cycle (replies feedback))
    ∷ []

cycle_missed_example :
    EachOf
      (λ (e : End × Loop Nano ℕ).
        (e.0 ≡ comms_lost) × (e.1.calls ≡ exchanges_command rest_command ∷ []))
      (Resends (loop_after 1))
      (cycle counters free_body in_seconds (a_cycle times_out) (loop_after 1))
cycle_missed_example =
    cycle_missed counters free_body in_seconds (a_cycle times_out) (loop_after 1) refl (omega arith)

run_loop-orderly_example :
    OnSome
      (λ (o : (End × Loop Nano ℕ) ⊎ Loop Nano ℕ). is_orderly (log o) ≡ true)
      (run_loop counters free_body in_seconds
        (times_out ∷ replies feedback ∷ [])
        900
        950
        some_events
        (loop_after 0))
run_loop-orderly_example =
    run_loop-orderly counters free_body in_seconds (times_out ∷ replies feedback ∷ []) 900 950
      some_events (loop_after 0)

run-foreign_example :
    foreign 7 (log (run counters free_body in_seconds some_events (loop_after 0)))
    ≡ foreign {R = Nano} 7 []
run-foreign_example =
    run-foreign counters free_body in_seconds some_events (loop_after 0) {m = stopped} refl
      (record { phase_is = refl; enforced = refl }, refl, refl) tt
