-- ===== src/ArmLink/Clears.antt =====
-- src/arm_link.cpp: how often the arm is taken, given up and taken back along any run.
use kinova_gen3_driver.Prelude.{
  ℕ, ◌+◌, ◌≤◌, ◌≡◌, refl, Bool, true, false, not, ◌&&◌, ◌||◌, none, some, List, [], ◌∷◌,
  if◌then◌else◌, leb, arith, subst, sym, inl, inr, Option-cases,
}
use kinova_gen3_driver.ArmLink.{
  Thrown, comms_lost, timed_out, logic_error, failure, unknown_exception, Reply, Call,
  set_position_modes, run_executor, clear_faults, Position, at_top, at_connect, at_check,
  at_release, at_wait, at_clear, at_settle, at_servoing, at_modes, at_run, finished, escaped, Link,
  issue, finish, checked, polled, enter_run, enter_wait, enter_settle, note_connected, silence,
  note_silence, unless_thrown, set_state, latch, note_connect_failure, request_clear, shutdown,
  lost, caught, enter_faulted, enter_servoing, enter_check, top_step, connect_failed, connect_step,
  check_step, wait_step, settle_step, modes_step, step_at, begin, Event, goes_on, asks_clear,
  asks_stop, step, run,
}

abbrev pub is_run : Call → Bool
is_run run_executor = true
is_run _ = false

abbrev pub is_clear : Call → Bool
is_clear clear_faults = true
is_clear _ = false

unfoldable pub count : (Call → Bool) → List Call → ℕ
count p [] = 0
count p (c ∷ cs) = let rest = count p cs in if p c then rest + 1 else rest

unfoldable pub one_if : Bool → ℕ
one_if true = 1
one_if false = 0

-- Whether an event is a request that `request_clear` accepts.
unfoldable pub accepts : Event → Link → Bool
accepts (goes_on r) l = false
accepts asks_clear l = (request_clear l).0
accepts asks_stop l = false

unfoldable pub accepted : List Event → Link → ℕ
accepted [] l = 0
accepted (e ∷ es) l = one_if (accepts e l) + accepted es (step e l)

abbrev is_at_run : Position → Bool
is_at_run at_run = true
is_at_run _ = false

abbrev is_open : Position → Bool
is_open at_check = true
is_open at_servoing = true
is_open at_modes = true
is_open at_run = true
is_open _ = false

abbrev is_cleared : Position → Bool
is_cleared at_clear = true
is_cleared at_settle = true
is_cleared _ = false

abbrev is_over : Position → Bool
is_over at_run = true
is_over finished = true
is_over _ = false

abbrev is_finished : Position → Bool
is_finished finished = true
is_finished _ = false

-- A run that has started and whose loss no clear has made good yet.
unfoldable debt : Link → ℕ
debt l = one_if (not (is_cleared l.place) && (l.latched || is_over l.place))

same : Bool → Bool → Bool
same true b = b
same false b = not b

unfoldable sound : Link → Bool
unfolding same
sound l =
    (is_finished l.place || same l.commanding (is_at_run l.place))
    && (not (l.latched && is_open l.place)
        && leb (count is_run l.calls) (count is_clear l.calls + debt l))

top-sound : (r : Reply) (l : Link) → l.place ≡ at_top → sound l ≡ true → sound (top_step l) ≡ true
unfolding sound same debt top_step enter_check enter_faulted set_state shutdown count one_if
top-sound r l p s = ground arith

caught-sound :
    (t : Thrown) (l : Link)
    → is_over l.place ≡ is_at_run l.place
    → sound l ≡ true
    → sound (caught t l) ≡ true
unfolding sound same debt caught lost latch set_state shutdown count one_if
caught-sound (comms_lost w) l p s = ground arith
caught-sound (timed_out w) l p s = ground arith
caught-sound (logic_error w) l p s = ground arith
caught-sound (failure w) l p s = ground arith
caught-sound unknown_exception l p s = ground arith

connect_failed-sound :
    (t : Thrown) (l : Link)
    → l.place ≡ at_connect
    → sound l ≡ true
    → sound (connect_failed t l) ≡ true
unfolding sound same debt connect_failed note_connect_failure shutdown count one_if
connect_failed-sound (comms_lost w) l p s = ground arith
connect_failed-sound (timed_out w) l p s = ground arith
connect_failed-sound (logic_error w) l p s = ground arith
connect_failed-sound (failure w) l p s = ground arith
connect_failed-sound unknown_exception l p s = ground arith

enter_check-sound :
    (l : Link) → l.place ≡ at_connect → sound l ≡ true → sound (enter_check l) ≡ true
unfolding sound same debt enter_check enter_faulted set_state shutdown count one_if
enter_check-sound l p s = ground arith

unless_thrown-sound :
    (r : Reply) (next : Link → Link) (l : Link)
    → is_over l.place ≡ is_at_run l.place
    → sound l ≡ true
    → sound (next l) ≡ true
    → sound (unless_thrown r next l) ≡ true
unless_thrown-sound r next l p s n = elim (Option-cases r.thrown) [
  | inl e ↦ subst (λ o. sound (elim o [ none ↦ next l | some t ↦ caught t l ]) ≡ true) (sym e) n
  | inr (t, e) ↦
      subst (λ o. sound (elim o [ none ↦ next l | some t ↦ caught t l ]) ≡ true) (sym e)
        (caught-sound t l p s)
]

connect-sound :
    (r : Reply) (l : Link) → l.place ≡ at_connect → sound l ≡ true → sound (connect_step r l) ≡ true
unfolding connect_step sound same debt
connect-sound r l p s = elim (Option-cases r.thrown) [
  | inl e ↦ ground (arith, enter_check-sound (note_connected l) p s)
  | inr (t, e) ↦ ground (arith, connect_failed-sound t l p s)
]

check-sound :
    (r : Reply) (l : Link) → l.place ≡ at_check → sound l ≡ true → sound (check_step r l) ≡ true
unfolding check_step sound same debt enter_faulted enter_servoing latch set_state count one_if
check-sound r l p s = unless_thrown-sound r (checked r) l (ground arith) s (ground arith)

wait-sound :
    (r : Reply) (l : Link) → l.place ≡ at_wait → sound l ≡ true → sound (wait_step r l) ≡ true
unfolding wait_step sound same debt shutdown count one_if
wait-sound r l p s = elim (Option-cases r.thrown) [
  | inl e ↦ ground arith
  | inr (t, e) ↦ ground (arith, caught-sound silence (note_silence l) (ground arith) s)
]

settle-sound :
    (r : Reply) (l : Link) → l.place ≡ at_settle → sound l ≡ true → sound (settle_step r l) ≡ true
unfolding settle_step sound same debt enter_servoing count one_if
settle-sound r l p s = unless_thrown-sound r (polled r) l (ground arith) s (ground arith)

modes-sound :
    (r : Reply) (l : Link) → l.place ≡ at_modes → sound l ≡ true → sound (modes_step r l) ≡ true
unfolding modes_step sound same debt set_state count one_if
modes-sound r l p s = unless_thrown-sound r enter_run l (ground arith) s (ground arith)

step_at-sound :
    (p : Position) (r : Reply) (l : Link)
    → l.place ≡ p
    → sound l ≡ true
    → sound (step_at p r l) ≡ true
unfolding step_at sound same debt shutdown count one_if
step_at-sound at_top r l p s = top-sound r l p s
step_at-sound at_connect r l p s = connect-sound r l p s
step_at-sound at_check r l p s = check-sound r l p s
step_at-sound at_release r l p s =
    unless_thrown-sound r enter_wait l (ground arith) s (ground arith)
step_at-sound at_wait r l p s = wait-sound r l p s
step_at-sound at_clear r l p s =
    unless_thrown-sound r enter_settle l (ground arith) s (ground arith)
step_at-sound at_settle r l p s = settle-sound r l p s
step_at-sound at_servoing r l p s =
    unless_thrown-sound r (issue set_position_modes at_modes) l (ground arith) s (ground arith)
step_at-sound at_modes r l p s = modes-sound r l p s
step_at-sound at_run r l p s = unless_thrown-sound r finish l (ground arith) s (ground arith)
step_at-sound finished r l p s = s
step_at-sound escaped r l p s = s

step-sound : (e : Event) (l : Link) → sound l ≡ true → sound (step e l) ≡ true
unfolding step request_clear sound debt
step-sound (goes_on r) l s = step_at-sound l.place r l refl s
step-sound asks_clear l s = ground arith
step-sound asks_stop l s = s

run-sound : (es : List Event) (l : Link) → sound l ≡ true → sound (run es l) ≡ true
unfolding run
run-sound [] l s = s
run-sound (e ∷ es) l s = run-sound es (step e l) (step-sound e l s)

begin-sound : (n : ℕ) → sound (begin n) ≡ true
unfolding begin sound same debt set_state count one_if
begin-sound n = refl

-- The executor has been started at most once more than clears have been sent.
pub run_executor_bound :
    (n : ℕ) (es : List Event)
    → count is_run (run es (begin n)).calls ≤ count is_clear (run es (begin n)).calls + 1
unfolding sound debt one_if
run_executor_bound n es = ground (arith, run-sound es (begin n) (begin-sound n))
