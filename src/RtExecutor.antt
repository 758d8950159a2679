-- ===== src/RtExecutor.antt =====
-- src/rt_executor.cpp: the real-time loop. The locals of `RtExecutor::run` and the members that it
-- uses are the fields of `Loop`. The clock and the answers of the transport are the arguments of a
-- cycle; the control modes are a parameter (`Modes`), named by numbers as the code names them by
-- address; `calls` logs, newest first, what this run asks of them and of the transport. The setup of
-- the thread (`enable_rt`, the sleeps) is left out. Clocks are nanoseconds of a clock that never goes
-- back.
pub mod Steps
pub mod Running
pub mod CommsLoss
pub mod Trace
pub mod Latched
pub mod Missed
use Prim.Native.Nat.{min}
use kinova_gen3_driver.Prelude.{
  ℕ, ◌+◌, ◌-◌, ◌*◌, ◌%◌, ◌^◌, Bool, true, false, not, ◌&&◌, ◌||◌, Option, none, some, List, [], ◌∷◌,
  if◌then◌else◌, ltb, leb, ◌==◌, u64, ◌⊎◌, inl, inr, ◌then_do◌, set_at, sub_u64,
}
use mathlib.Core.Option
use kinova_gen3_driver.Double.{Double, nought, one, min_d}
use kinova_gen3_driver.Types.{
  Joint, joints, JointVec, JointFeedback, JointCommand, ActuatorMode, position_actuator,
  velocity_actuator, torque_actuator, current_actuator,
}
use kinova_gen3_driver.Telemetry.{SampleRing, CycleSample, push}
use kinova_gen3_driver.Monitor
use kinova_gen3_driver.Monitor.{Dynamics, on_run_start, set_thresholds, request_clear}

pub record ExecutorConfig (R : Type 0) : Type 0 where
  pub max_consecutive_misses : ℕ
  pub max_window_misses : ℕ
  pub miss_window : ℕ
  pub exit_on_fault : Bool
  -- What `run` works out first from `rate_hz`.
  pub period_ns : ℕ
  pub dt_s : R
  pub max_dt_s : R

-- What the constructor asks of the settings; it throws otherwise.
abbrev pub is_valid : {R : Type 0} → ExecutorConfig R → Bool
is_valid c =
    not (ltb c.max_consecutive_misses 1 || (ltb c.max_window_misses 1 || ltb c.miss_window 1))

-- The counters of `exchange_ok`; the vector `miss_at` is a function of its index.
pub record Misses : Type 0 where
  pub consecutive : ℕ
  pub miss_at : ℕ → ℕ
  pub exchanges : ℕ
  pub total_misses : ℕ

pub data Verdict : Type 0 where
  good tolerated in_a_row within_window : Verdict

abbrev pub no_misses : Misses
no_misses = record { consecutive = 0; miss_at = λ _. 0; exchanges = 0; total_misses = 0 }

abbrev pub note_miss : {R : Type 0} → ExecutorConfig R → Misses → Misses
note_miss c m = record {
  consecutive = m.consecutive + 1;
  miss_at = set_at (m.total_misses % c.max_window_misses) m.exchanges m.miss_at;
  exchanges = u64 (m.exchanges + 1);
  total_misses = u64 (m.total_misses + 1);
}

unfoldable pub is_full : {R : Type 0} → ExecutorConfig R → ℕ → Misses → Bool
is_full c n m =
    leb c.max_window_misses m.total_misses
    && ltb (sub_u64 n (m.miss_at (m.total_misses % c.max_window_misses))) c.miss_window

unfoldable pub miss : {R : Type 0} → ExecutorConfig R → Misses → Verdict × Misses
miss c m =
    if leb c.max_consecutive_misses (m.consecutive + 1)
    then (in_a_row, record m { exchanges = u64 (m.exchanges + 1); consecutive = m.consecutive + 1 })
    else if is_full c m.exchanges (note_miss c m)
    then (within_window, note_miss c m)
    else (tolerated, note_miss c m)

abbrev pub is_lost : Verdict → Bool
is_lost good = false
is_lost tolerated = false
is_lost in_a_row = true
is_lost within_window = true

-- `exchange_ok`, given whether the exchange timed out.
unfoldable pub count_exchange : {R : Type 0} → ExecutorConfig R → Bool → Misses → Verdict × Misses
count_exchange c missed m =
    if missed
    then miss c m
    else (good, record m { exchanges = u64 (m.exchanges + 1); consecutive = 0 })

-- A control mode as the loop sees it: `S` is the state of all the modes.
pub record Modes (R : Type 0) (S : Type 0) : Type 0 where
  pub required_modes : ℕ → JointVec ActuatorMode
  pub on_enter : ℕ → JointFeedback R → S → S
  pub on_exit : ℕ → S → S
  pub compute : ℕ → JointFeedback R → R → JointCommand R → S → JointCommand R × S

pub data Call (R : Type 0) : Type 0 where
  enters exits : ℕ → Call R
  computes : ℕ → R → Call R
  sets_modes : JointVec ActuatorMode → JointCommand R → Call R
  exchanges_command : JointCommand R → Call R

pub data End : Type 0 where
  comms_lost arm_fault propagates : End

pub record Loop (R : Type 0) (S : Type 0) : Type 0 where
  pub cfg : ExecutorConfig R
  pub requested : Option ℕ
  pub contact : Option (Monitor.Monitor R)
  pub on_contact : ℕ
  pub modes : S
  pub ring : SampleRing CycleSample
  pub active : Option ℕ
  pub cmd : JointCommand R
  pub fb : JointFeedback R
  pub misses : Misses
  pub faulty : ℕ
  pub not_low_level : ℕ
  pub last_compute_ns : Option ℕ
  pub last_read_ns : ℕ
  pub boundary : ℕ
  pub cycle_index : ℕ
  pub calls : List (Call R)

-- What the transport answers to an exchange and to a switch of the actuators' modes.
pub data Answer (R : Type 0) : Type 0 where
  replies : JointFeedback R → Answer R
  times_out breaks : Answer R

pub data Pumping : Type 0 where
  pumped pump_times_out pump_breaks : Pumping

pub record Cycle (R : Type 0) : Type 0 where
  -- The readings of the clock, in the order they are taken.
  pub t0 : ℕ
  pub t1 : ℕ
  pub t2 : ℕ
  pub now : ℕ
  pub pumping : Pumping
  pub answer : Answer R

-- `kFaultConfirmExchanges` and `kLeftLowLevelConfirmExchanges`.
abbrev pub fault_confirm : ℕ
fault_confirm = 3

abbrev pub left_low_level_confirm : ℕ
left_low_level_confirm = 50

-- `clamp_u32` of a difference: a negative one gives 0.
abbrev pub clamp_u32 : ℕ → ℕ → ℕ
clamp_u32 a b = min (a - b) (2 ^ 32 - 1)

abbrev pub flag : Bool → ℕ → ℕ
flag b n = if b then n else 0

abbrev pub same_mode : ActuatorMode → ActuatorMode → Bool
same_mode position_actuator position_actuator = true
same_mode velocity_actuator velocity_actuator = true
same_mode torque_actuator torque_actuator = true
same_mode current_actuator current_actuator = true
same_mode _ _ = false

unfoldable pub same_modes : JointVec ActuatorMode → JointVec ActuatorMode → List Joint → Bool
same_modes a b [] = true
same_modes a b (i ∷ is) = same_mode (a i) (b i) && same_modes a b is

abbrev pub is_mode : ℕ → Option ℕ → Bool
is_mode m none = false
is_mode m (some a) = m == a

abbrev pub contact_latched : {R : Type 0} → Option (Monitor.Monitor R) → Bool
contact_latched none = false
contact_latched (some m) = m.latched
