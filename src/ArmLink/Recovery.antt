-- ===== src/ArmLink/Recovery.antt =====
-- src/arm_link.cpp: how the link gets the arm, loses it and gets it back.
use Prim.Native.String.{◌++◌}
use kinova_gen3_driver.Prelude.{
  ◌+◌, ◌≡◌, true, false, none, some, [], ◌∷◌, arith, u64, String, Bool-cases, inl, inr,
}
use kinova_gen3_driver.Types.{connecting, running, faulted}
use kinova_gen3_driver.ArmLink.{
  Thrown, comms_lost, timed_out, Reply, connect, set_servoing_low_level, set_position_modes,
  run_executor, release_low_level, clear_faults, safe_shutdown, tell, at_release, at_wait,
  at_servoing, at_run, Link, set_state, latch, request_clear, shutdown, lost, caught, enter_faulted,
  enter_servoing, enter_check, top_step, connect_step, check_step, wait_step, settle_step,
  modes_step, step_at, goes_on, asks_clear, step, run,
}

-- A call that returns, with no fault to report.
abbrev pub fine : Reply
fine = record { thrown = none; in_fault = false; due = false; late = false }

abbrev pub throws : Thrown → Reply
throws t = record { thrown = some t; in_fault = false; due = false; late = false }

-- A fault that an operator clears: once `request_clear` has accepted, five steps in which no call
-- throws and the arm reports no fault bring the executor back, with the arm cleared before it is taken, the fault gone from the latch and from
-- the reported reason, the state running, and one more clear counted as done.
pub asks_clear_recovery :
    (l : Link)
    → l.place ≡ at_wait
    → l.stop ≡ false
    → l.state ≡ faulted
    → let l' =
        run
          (asks_clear
            ∷ goes_on fine
            ∷ goes_on fine
            ∷ goes_on fine
            ∷ goes_on fine
            ∷ goes_on fine
            ∷ [])
          l in
      (l'.place ≡ at_run)
      × (l'.latched ≡ false)
      × (l'.state ≡ running)
      × (l'.reason ≡ "")
      × (l'.clears_done ≡ u64 (l.clears_done + 1))
      × (l'.calls
          ≡ run_executor
            ∷ tell running
            ∷ set_position_modes
            ∷ set_servoing_low_level
            ∷ clear_faults
            ∷ l.calls)
unfolding run step step_at request_clear wait_step settle_step modes_step enter_servoing set_state
asks_clear_recovery l p q s = ground arith

-- A loss while the executor runs is latched: the link reports that it is connecting, shuts the
-- transport down, connects again, and then hands the arm back instead of running on it: the latch is
-- set, the reason is the loss, and the reconnection is counted.
pub comms_lost_latched :
    (w : String) (l : Link)
    → l.place ≡ at_run
    → l.stop ≡ false
    → l.commanding ≡ true
    → l.state ≡ running
    → l.ever_connected ≡ true
    → let l' = run (goes_on (throws (comms_lost w)) ∷ goes_on fine ∷ goes_on fine ∷ []) l in
      (l'.place ≡ at_release)
      × (l'.latched ≡ true)
      × (l'.state ≡ faulted)
      × (l'.reason ≡ ("connection lost: " ++ w))
      × (l'.reconnects ≡ u64 (l.reconnects + 1))
      × (l'.calls
          ≡ release_low_level ∷ tell faulted ∷ connect ∷ safe_shutdown ∷ tell connecting ∷ l.calls)
unfolding run step step_at caught lost latch set_state shutdown top_step connect_step enter_check
    enter_faulted
comms_lost_latched w l p q c s e = elim (Bool-cases l.latched) [
  | inl h ↦ ground arith
  | inr h ↦ ground arith
]

-- A timeout while the arm is being set up, before the executor runs, is retried and not latched: the
-- transport is shut down and connected again, and six steps later the executor runs.
pub timed_out_retried :
    (w : String) (l : Link)
    → l.place ≡ at_servoing
    → l.stop ≡ false
    → l.commanding ≡ false
    → l.latched ≡ false
    → l.state ≡ connecting
    → let l' =
        run
          (goes_on (throws (timed_out w))
            ∷ goes_on fine
            ∷ goes_on fine
            ∷ goes_on fine
            ∷ goes_on fine
            ∷ goes_on fine
            ∷ [])
          l in
      (l'.place ≡ at_run)
      × (l'.latched ≡ false)
      × (l'.state ≡ running)
      × (l'.faults ≡ l.faults)
      × (l'.calls
          ≡ run_executor
            ∷ tell running
            ∷ set_position_modes
            ∷ set_servoing_low_level
            ∷ connect
            ∷ safe_shutdown
            ∷ l.calls)
unfolding run step step_at caught lost latch set_state shutdown top_step connect_step enter_check
    check_step enter_servoing modes_step
timed_out_retried w l p q c e s = ground arith
