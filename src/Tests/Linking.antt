-- ===== src/Tests/Linking.antt =====
-- The link to the arm on concrete runs.
use Prim.Native.String.{◌++◌}
use kinova_gen3_driver.Prelude.{◌+◌, ◌≤◌, ◌≡◌, refl, true, false, some, List, [], ◌∷◌, ◌⊎◌, u64}
use kinova_gen3_driver.Types.{running, faulted, connecting}
use kinova_gen3_driver.ArmLink.{
  Event, goes_on, asks_clear, comms_lost, failure, begin, run, Link, step, step_at, set_state,
  top_step, connect_step, enter_check, check_step, enter_servoing, modes_step, caught, latch,
  enter_faulted, connect, set_servoing_low_level, set_position_modes, run_executor,
  release_low_level, clear_faults, safe_shutdown, tell, at_run, at_wait, at_settle, at_release,
}
use kinova_gen3_driver.ArmLink.Clears.{is_clear, is_run, count, accepted}
use kinova_gen3_driver.ArmLink.Requests.{clear_faults_bound}
use kinova_gen3_driver.ArmLink.Status.{last_told, run_status}
use kinova_gen3_driver.ArmLink.Recovery.{fine, throws, asks_clear_recovery, comms_lost_latched}

abbrev starts : List Event
starts = goes_on fine ∷ goes_on fine ∷ goes_on fine ∷ goes_on fine ∷ goes_on fine ∷ []

-- The arm faults while it runs; the link comes to wait for a clear, which is asked for and carried out.
abbrev faults_and_clears : List Event
faults_and_clears =
    goes_on fine
    ∷ goes_on fine
    ∷ goes_on fine
    ∷ goes_on fine
    ∷ goes_on fine
    ∷ goes_on (throws (failure "fault"))
    ∷ goes_on fine
    ∷ goes_on fine
    ∷ asks_clear
    ∷ goes_on fine
    ∷ goes_on fine
    ∷ goes_on fine
    ∷ goes_on fine
    ∷ goes_on fine
    ∷ []

abbrev running_link : Link
running_link = run starts (begin 3)

abbrev waiting_link : Link
waiting_link =
    run (goes_on (throws (failure "fault")) ∷ goes_on fine ∷ goes_on fine ∷ []) running_link

clear_faults_bound_example :
    let l = run faults_and_clears (begin 3) in
    (count is_clear l.calls ≤ accepted faults_and_clears (begin 3))
    × (count is_run l.calls ≤ count is_clear l.calls + 1)
clear_faults_bound_example = clear_faults_bound 3 faults_and_clears

run_status_example :
    let l = run faults_and_clears (begin 3) in
    (last_told l.calls ≡ some l.state)
    × (l.place ≡ at_run → (l.state ≡ running) × (l.connected ≡ true) × (l.latched ≡ false))
    × ((l.place ≡ at_wait) ⊎ (l.place ≡ at_settle)
        → (l.state ≡ faulted) × (l.connected ≡ true) × (l.latched ≡ true))
run_status_example = run_status 3 faults_and_clears

asks_clear_recovery_example :
    let l' =
      run
        (asks_clear ∷ goes_on fine ∷ goes_on fine ∷ goes_on fine ∷ goes_on fine ∷ goes_on fine ∷ [])
        waiting_link in
    (l'.place ≡ at_run)
    × (l'.latched ≡ false)
    × (l'.state ≡ running)
    × (l'.reason ≡ "")
    × (l'.clears_done ≡ u64 (waiting_link.clears_done + 1))
    × (l'.calls
        ≡ run_executor
          ∷ tell running
          ∷ set_position_modes
          ∷ set_servoing_low_level
          ∷ clear_faults
          ∷ waiting_link.calls)
unfolding run begin step step_at set_state top_step connect_step enter_check check_step
    enter_servoing modes_step caught latch enter_faulted
asks_clear_recovery_example = asks_clear_recovery waiting_link refl refl refl

comms_lost_latched_example :
    let l' =
      run (goes_on (throws (comms_lost "cable")) ∷ goes_on fine ∷ goes_on fine ∷ []) running_link in
    (l'.place ≡ at_release)
    × (l'.latched ≡ true)
    × (l'.state ≡ faulted)
    × (l'.reason ≡ ("connection lost: " ++ "cable"))
    × (l'.reconnects ≡ u64 (running_link.reconnects + 1))
    × (l'.calls
        ≡ release_low_level
          ∷ tell faulted
          ∷ connect
          ∷ safe_shutdown
          ∷ tell connecting
          ∷ running_link.calls)
unfolding run begin step step_at set_state top_step connect_step enter_check check_step
    enter_servoing modes_step
comms_lost_latched_example = comms_lost_latched "cable" running_link refl refl refl refl refl
