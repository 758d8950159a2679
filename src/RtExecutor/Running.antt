-- ===== src/RtExecutor/Running.antt =====
-- src/rt_executor.cpp: a run of the loop, from its first exchange to its end, between the steps of the
-- other threads.
use kinova_gen3_driver.Prelude.{
  ℕ, ◌+◌, true, false, Option, none, some, List, [], ◌∷◌, if◌then◌else◌, ◌⊎◌, inl, inr, ◌then_do◌,
}
use mathlib.Core.Option
use kinova_gen3_driver.Double.{Double, nought, one}
use kinova_gen3_driver.Types.{JointVec, JointFeedback, JointCommand, torque_actuator}
use kinova_gen3_driver.Monitor.{Dynamics, on_run_start, set_thresholds, request_clear}
use kinova_gen3_driver.RtExecutor.{no_misses, Modes, End, Loop, Answer, Cycle}
use kinova_gen3_driver.RtExecutor.Steps.{request_mode, exchange, cycle}

module _ {R : Type 0} ⦃d : Double R⦄ {S : Type 0} where
  -- What the locals of `run` start from; `begin` is the part of `run` ahead of its first exchange.
  unfoldable pub begin : Loop R S → Loop R S
  begin l = record l {
    contact = Option.map on_run_start l.contact;
    active = none;
    cmd = benign;
    fb = blank;
    misses = no_misses;
    faulty = 0;
    not_low_level = 0;
    last_compute_ns = none;
    cycle_index = 0;
    calls = [];
  }
    where
      zeros : JointVec R
      zeros = λ _. nought

      benign : JointCommand R
      benign = record {
        mode = torque_actuator;
        position = zeros;
        velocity = zeros;
        torque = zeros;
        gripper = record { position = nought; speed = one; force = d.lit 5 1; active = false };
      }

      blank : JointFeedback R
      blank = record {
        q = zeros;
        qd = zeros;
        tau = zeros;
        current = zeros;
        frame_id = 0;
        fault = false;
        low_level = true;
        gripper = record { position = nought; effort = nought; current = nought; present = false };
      }

module _ {R : Type 0} {S : Type 0} where
  -- The exchanges ahead of the loop: one that times out is tried again. `none` waits for more answers.
  unfoldable pub seed : List (Answer R) → Loop R S → Option ((End × Loop R S) ⊎ Loop R S)
  seed [] l = none
  seed (a ∷ rest) l = elim (exchange a l) [
    | inl e ↦ some (inl e)
    | inr (missed, l') ↦ if missed then seed rest l' else some (inr l')
  ]

  -- The clock is read twice once the first feedback is there.
  unfoldable pub begin_cycles : ℕ → ℕ → Loop R S → Loop R S
  begin_cycles read now l = record l { last_read_ns = read; boundary = now + l.cfg.period_ns }

-- Between two cycles another thread may request a mode, set a mode's targets and parameters, or use
-- the monitor.
pub data Event (R : Type 0) (S : Type 0) : Type 0 where
  cycles : Cycle R → Event R S
  requests : ℕ → Event R S
  sets_modes_state : S → Event R S
  sets_thresholds : JointVec R → Event R S
  asks_clear : Event R S

module _ {R : Type 0} ⦃d : Double R⦄ {S : Type 0} (ms : Modes R S) (dyn : Dynamics R)
    (seconds : ℕ → R) where
  unfoldable pub step : Event R S → Loop R S → (End × Loop R S) ⊎ Loop R S
  step (cycles x) l = cycle ms dyn seconds x l
  step (requests m) l = inr (request_mode m l)
  step (sets_modes_state s) l = inr (record l { modes = s })
  step (sets_thresholds theta) l =
      inr (record l { contact = Option.map (set_thresholds theta) l.contact })
  step asks_clear l = inr (record l { contact = Option.map request_clear l.contact })

  unfoldable pub run : List (Event R S) → Loop R S → (End × Loop R S) ⊎ Loop R S
  run [] l = inr l
  run (e ∷ es) l = step e l then_do run es

  -- The whole of `RtExecutor::run`; `none` is a run that still waits for its first feedback.
  unfoldable pub run_loop :
      List (Answer R) → ℕ → ℕ → List (Event R S) → Loop R S → Option ((End × Loop R S) ⊎ Loop R S)
  run_loop answers read now es l = elim (seed answers (begin l)) [
    | none ↦ none
    | some o ↦ some (o then_do λ l'. run es (begin_cycles read now l'))
  ]
