-- ===== src/ArmLink/Requests.antt =====
-- src/arm_link.cpp: a clear is sent only when one has been asked for.
use kinova_gen3_driver.Prelude.{
  ℕ, ◌+◌, ◌≤◌, none, some, List, [], ◌∷◌, arith, inl, inr, Option-cases, subst, sym,
}
use kinova_gen3_driver.ArmLink.{
  Thrown, comms_lost, timed_out, logic_error, failure, unknown_exception, Reply, set_position_modes,
  Position, at_top, at_connect, at_check, at_release, at_wait, at_clear, at_settle, at_servoing,
  at_modes, at_run, finished, escaped, Link, issue, finish, checked, polled, enter_run, enter_wait,
  enter_settle, note_connected, silence, note_silence, unless_thrown, set_state, latch,
  note_connect_failure, request_clear, shutdown, lost, caught, enter_faulted, enter_servoing,
  enter_check, top_step, connect_failed, connect_step, check_step, wait_step, settle_step,
  modes_step, step_at, begin, Event, goes_on, asks_clear, asks_stop, step, run,
}
use kinova_gen3_driver.ArmLink.Clears.{
  is_clear, is_run, count, one_if, accepts, accepted, run_executor_bound,
}

-- The clears sent, with the one that is asked for and not sent yet.
unfoldable spent : Link → ℕ
spent l = count is_clear l.calls + one_if l.clear_requested

caught-spent : (t : Thrown) (l : Link) → spent (caught t l) ≤ spent l
unfolding spent caught lost latch set_state shutdown count one_if
caught-spent (comms_lost w) l = ground arith
caught-spent (timed_out w) l = ground arith
caught-spent (logic_error w) l = ground arith
caught-spent (failure w) l = ground arith
caught-spent unknown_exception l = ground arith

connect_failed-spent : (t : Thrown) (l : Link) → spent (connect_failed t l) ≤ spent l
unfolding spent connect_failed note_connect_failure shutdown count one_if
connect_failed-spent (comms_lost w) l = ground arith
connect_failed-spent (timed_out w) l = ground arith
connect_failed-spent (logic_error w) l = ground arith
connect_failed-spent (failure w) l = ground arith
connect_failed-spent unknown_exception l = ground arith

unless_thrown-spent :
    (r : Reply) (next : Link → Link) (l : Link)
    → spent (next l) ≤ spent l
    → spent (unless_thrown r next l) ≤ spent l
unless_thrown-spent r next l n = elim (Option-cases r.thrown) [
  | inl e ↦ subst (λ o. spent (elim o [ none ↦ next l | some t ↦ caught t l ]) ≤ spent l) (sym e) n
  | inr (t, e) ↦
      subst (λ o. spent (elim o [ none ↦ next l | some t ↦ caught t l ]) ≤ spent l) (sym e)
        (caught-spent t l)
]

enter_check-spent : (l : Link) → spent (enter_check l) ≤ spent l
unfolding spent enter_check enter_faulted set_state count one_if
enter_check-spent l = ground arith

top-spent : (l : Link) → spent (top_step l) ≤ spent l
unfolding spent top_step shutdown count one_if
top-spent l = ground (arith, enter_check-spent l)

connect-spent : (r : Reply) (l : Link) → spent (connect_step r l) ≤ spent l
unfolding connect_step spent
connect-spent r l = elim (Option-cases r.thrown) [
  | inl e ↦ ground (arith, enter_check-spent (note_connected l))
  | inr (t, e) ↦ ground (arith, connect_failed-spent t l)
]

checked-spent : (r : Reply) (l : Link) → spent (checked r l) ≤ spent l
unfolding spent enter_faulted enter_servoing latch set_state count one_if
checked-spent r l = ground arith

polled-spent : (r : Reply) (l : Link) → spent (polled r l) ≤ spent l
unfolding spent enter_servoing count one_if
polled-spent r l = ground arith

enter_run-spent : (l : Link) → spent (enter_run l) ≤ spent l
unfolding spent set_state count one_if
enter_run-spent l = ground arith

wait-spent : (r : Reply) (l : Link) → spent (wait_step r l) ≤ spent l
unfolding wait_step spent shutdown count one_if
wait-spent r l = elim (Option-cases r.thrown) [
  | inl e ↦ ground arith
  | inr (t, e) ↦ ground (arith, caught-spent silence (note_silence l))
]

step_at-spent : (p : Position) (r : Reply) (l : Link) → spent (step_at p r l) ≤ spent l
unfolding step_at check_step settle_step modes_step spent shutdown count one_if
step_at-spent at_top r l = top-spent l
step_at-spent at_connect r l = connect-spent r l
step_at-spent at_check r l = unless_thrown-spent r (checked r) l (checked-spent r l)
step_at-spent at_release r l = unless_thrown-spent r enter_wait l (ground arith)
step_at-spent at_wait r l = wait-spent r l
step_at-spent at_clear r l = unless_thrown-spent r enter_settle l (ground arith)
step_at-spent at_settle r l = unless_thrown-spent r (polled r) l (polled-spent r l)
step_at-spent at_servoing r l =
    unless_thrown-spent r (issue set_position_modes at_modes) l (ground arith)
step_at-spent at_modes r l = unless_thrown-spent r enter_run l (enter_run-spent l)
step_at-spent at_run r l = unless_thrown-spent r finish l (ground arith)
step_at-spent finished r l = ground arith
step_at-spent escaped r l = ground arith

step-spent : (e : Event) (l : Link) → spent (step e l) ≤ spent l + one_if (accepts e l)
unfolding step accepts request_clear spent one_if
step-spent (goes_on r) l = ground (arith, step_at-spent l.place r l)
step-spent asks_clear l = ground arith
step-spent asks_stop l = ground arith

run-spent : (es : List Event) (l : Link) → spent (run es l) ≤ spent l + accepted es l
unfolding run accepted
run-spent [] l = ground arith
run-spent (e ∷ es) l = ground (arith, run-spent es (step e l), step-spent e l)

-- However the calls of the transport answer and throw, and whenever a clear or a stop is asked for:
-- at most as many clears are sent to the arm as `request_clear` accepted, and the executor is started
-- at most once more than clears are sent. A run that ended in a loss or in a fault is never taken up
-- again without a clear that was asked for.
pub clear_faults_bound :
    (n : ℕ) (es : List Event)
    → let l = run es (begin n) in
      (count is_clear l.calls ≤ accepted es (begin n))
      × (count is_run l.calls ≤ count is_clear l.calls + 1)
unfolding spent begin set_state count one_if
clear_faults_bound n es = ground (arith, run-spent es (begin n), run_executor_bound n es)
