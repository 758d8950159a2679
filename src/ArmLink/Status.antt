-- ===== src/ArmLink/Status.antt =====
-- src/arm_link.cpp: what the listener and `status` report while the link lives.
use kinova_gen3_driver.Prelude.{
  ℕ, ◌≡◌, refl, Bool, true, false, not, ◌&&◌, Option, none, some, List, [], ◌∷◌, arith, subst, sym,
  ◌⊎◌, inl, inr, Option-cases, Bool-cases,
}
use kinova_gen3_driver.Types.{LinkState, running, faulted}
use kinova_gen3_driver.ArmLink.{
  Thrown, comms_lost, timed_out, logic_error, failure, unknown_exception, Reply, Call,
  set_position_modes, tell, state_eq, Position, at_top, at_connect, at_check, at_release, at_wait,
  at_clear, at_settle, at_servoing, at_modes, at_run, finished, escaped, Link, issue, finish,
  checked, polled, enter_run, enter_wait, enter_settle, note_connected, silence, note_silence,
  unless_thrown, set_state, latch, note_connect_failure, request_clear, shutdown, lost, caught,
  enter_faulted, enter_servoing, enter_check, top_step, connect_failed, connect_step, check_step,
  wait_step, settle_step, modes_step, step_at, begin, Event, goes_on, asks_clear, asks_stop, step,
  run,
}

unfoldable pub last_told : List Call → Option LinkState
last_told [] = none
last_told (c ∷ cs) = let rest = last_told cs in elim c [ tell s ↦ some s | _ ↦ rest ]

is_told : Option LinkState → LinkState → Bool
is_told none s = false
is_told (some t) s = state_eq t s

-- What the place says about the rest of the state.
unfoldable fits : Position → Bool → Bool → LinkState → Bool
fits at_check connected latched st = connected && not latched
fits at_release connected latched st = connected && (latched && state_eq st faulted)
fits at_wait connected latched st = connected && (latched && state_eq st faulted)
fits at_clear connected latched st = connected && (latched && state_eq st faulted)
fits at_settle connected latched st = connected && (latched && state_eq st faulted)
fits at_servoing connected latched st = connected && not latched
fits at_modes connected latched st = connected && not latched
fits at_run connected latched st = connected && (not latched && state_eq st running)
fits _ connected latched st = true

unfoldable honest : Link → Bool
unfolding is_told
honest l = is_told (last_told l.calls) l.state && fits l.place l.connected l.latched l.state

caught-honest : (t : Thrown) (l : Link) → honest l ≡ true → honest (caught t l) ≡ true
unfolding honest fits caught lost latch set_state shutdown last_told
caught-honest (comms_lost w) l s = ground arith
caught-honest (timed_out w) l s = ground arith
caught-honest (logic_error w) l s = ground arith
caught-honest (failure w) l s = ground arith
caught-honest unknown_exception l s = ground arith

connect_failed-honest :
    (t : Thrown) (l : Link) → honest l ≡ true → honest (connect_failed t l) ≡ true
unfolding honest fits connect_failed note_connect_failure shutdown last_told
connect_failed-honest (comms_lost w) l s = ground arith
connect_failed-honest (timed_out w) l s = ground arith
connect_failed-honest (logic_error w) l s = ground arith
connect_failed-honest (failure w) l s = ground arith
connect_failed-honest unknown_exception l s = ground arith

unless_thrown-honest :
    (r : Reply) (next : Link → Link) (l : Link)
    → honest l ≡ true
    → honest (next l) ≡ true
    → honest (unless_thrown r next l) ≡ true
unless_thrown-honest r next l s n = elim (Option-cases r.thrown) [
  | inl e ↦ subst (λ o. honest (elim o [ none ↦ next l | some t ↦ caught t l ]) ≡ true) (sym e) n
  | inr (t, e) ↦
      subst (λ o. honest (elim o [ none ↦ next l | some t ↦ caught t l ]) ≡ true) (sym e)
        (caught-honest t l s)
]

told : Link → Bool
told l = is_told (last_told l.calls) l.state

enter_check-honest : (l : Link) → l.connected ≡ true → told l ≡ true → honest (enter_check l) ≡ true
unfolding honest fits told enter_check enter_faulted set_state last_told
enter_check-honest l c s = ground arith

top-honest : (l : Link) → honest l ≡ true → honest (top_step l) ≡ true
unfolding honest fits told top_step shutdown last_told
top-honest l s = elim (Bool-cases l.connected) [
  | inl e ↦ ground (arith, enter_check-honest l)
  | inr e ↦ ground arith
]

connect-honest : (r : Reply) (l : Link) → honest l ≡ true → honest (connect_step r l) ≡ true
unfolding connect_step honest told
connect-honest r l s = elim (Option-cases r.thrown) [
  | inl e ↦ ground (arith, enter_check-honest (note_connected l) refl)
  | inr (t, e) ↦ ground (arith, connect_failed-honest t l s)
]

checked-honest :
    (r : Reply) (l : Link) → l.place ≡ at_check → honest l ≡ true → honest (checked r l) ≡ true
unfolding honest fits enter_faulted enter_servoing latch set_state last_told
checked-honest r l p s = ground arith

polled-honest :
    (r : Reply) (l : Link) → l.place ≡ at_settle → honest l ≡ true → honest (polled r l) ≡ true
unfolding honest fits enter_servoing last_told
polled-honest r l p s = ground arith

enter_run-honest : (l : Link) → l.place ≡ at_modes → honest l ≡ true → honest (enter_run l) ≡ true
unfolding honest fits set_state last_told
enter_run-honest l p s = ground arith

wait-honest :
    (r : Reply) (l : Link) → l.place ≡ at_wait → honest l ≡ true → honest (wait_step r l) ≡ true
unfolding wait_step honest fits shutdown last_told
wait-honest r l p s = elim (Option-cases r.thrown) [
  | inl e ↦ ground arith
  | inr (t, e) ↦ ground (arith, caught-honest silence (note_silence l) s)
]

step_at-honest :
    (p : Position) (r : Reply) (l : Link)
    → l.place ≡ p
    → honest l ≡ true
    → honest (step_at p r l) ≡ true
unfolding step_at check_step settle_step modes_step honest fits shutdown last_told
step_at-honest at_top r l p s = top-honest l s
step_at-honest at_connect r l p s = connect-honest r l s
step_at-honest at_check r l p s = unless_thrown-honest r (checked r) l s (checked-honest r l p s)
step_at-honest at_release r l p s = unless_thrown-honest r enter_wait l s (ground arith)
step_at-honest at_wait r l p s = wait-honest r l p s
step_at-honest at_clear r l p s = unless_thrown-honest r enter_settle l s (ground arith)
step_at-honest at_settle r l p s = unless_thrown-honest r (polled r) l s (polled-honest r l p s)
step_at-honest at_servoing r l p s =
    unless_thrown-honest r (issue set_position_modes at_modes) l s (ground arith)
step_at-honest at_modes r l p s = unless_thrown-honest r enter_run l s (enter_run-honest l p s)
step_at-honest at_run r l p s = unless_thrown-honest r finish l s (ground arith)
step_at-honest finished r l p s = s
step_at-honest escaped r l p s = s

step-honest : (e : Event) (l : Link) → honest l ≡ true → honest (step e l) ≡ true
unfolding step request_clear honest fits
step-honest (goes_on r) l s = step_at-honest l.place r l refl s
step-honest asks_clear l s = ground arith
step-honest asks_stop l s = s

run-honest : (es : List Event) (l : Link) → honest l ≡ true → honest (run es l) ≡ true
unfolding run
run-honest [] l s = s
run-honest (e ∷ es) l s = run-honest es (step e l) (step-honest e l s)

begin-honest : (n : ℕ) → honest (begin n) ≡ true
unfolding begin honest fits set_state last_told
begin-honest n = refl

-- Whenever the link is at one of its calls of the transport or the executor, at the top of its loop or
-- at its end, in any run: what the listener was told last is the state that `status` reports (in
-- between, while `set_state` runs, `status` may be one state ahead of the listener); while the executor
-- runs the link is connected, unlatched and reported running; while a fault is waited out or cleared it
-- is connected, latched and reported faulted.
pub run_status :
    (n : ℕ) (es : List Event)
    → let l = run es (begin n) in
      (last_told l.calls ≡ some l.state)
      × (l.place ≡ at_run → (l.state ≡ running) × (l.connected ≡ true) × (l.latched ≡ false))
      × ((l.place ≡ at_wait) ⊎ (l.place ≡ at_settle)
          → (l.state ≡ faulted) × (l.connected ≡ true) × (l.latched ≡ true))
unfolding honest fits
run_status n es = ground (arith, run-honest es (begin n) (begin-honest n))
