-- ===== src/ArmLink.antt =====
-- src/arm_link.cpp: the lifecycle of the link to the arm. `run` is cut at its calls of the transport
-- and of the executor: `position` is the call that it waits for, and a `Reply` is what that call did.
-- `calls` logs, newest first, the calls that act on the arm and what the listener was told. The sleeps
-- between attempts change nothing and are left out; another thread may act between any two steps.
pub mod Clears
pub mod Requests
pub mod Status
pub mod Recovery
use Prim.Native.String.{◌++◌}
use kinova_gen3_driver.Prelude.{
  ℕ, ◌+◌, Bool, true, false, not, ◌&&◌, ◌||◌, Option, none, some, List, [], ◌∷◌, String,
  if◌then◌else◌, leb, u64,
}
use kinova_gen3_driver.Types.{LinkState, connecting, running, faulted}

-- What leaves a call: the two of the comms, `std::logic_error`, any other `std::exception`, the rest.
pub data Thrown : Type 0 where
  comms_lost timed_out logic_error failure : String → Thrown
  unknown_exception : Thrown

-- `in_fault` is the answer of `arm_in_fault`; `due` and `late` compare the clock with `next_health`
-- and with the deadline of `fault_persists`.
pub record Reply : Type 0 where
  pub thrown : Option Thrown
  pub in_fault : Bool
  pub due : Bool
  pub late : Bool

pub data Call : Type 0 where
  connect set_servoing_low_level set_position_modes : Call
  run_executor release_low_level clear_faults safe_shutdown : Call
  tell : LinkState → Call

pub data Position : Type 0 where
  at_top at_connect at_check at_release at_wait at_clear at_settle : Position
  at_servoing at_modes at_run finished escaped : Position

pub record Link : Type 0 where
  pub health_max_failures : ℕ
  pub latched : Bool
  pub clearing : Bool
  pub fault_reason : String
  pub connect_failures : ℕ
  pub last_connect_error : String
  pub clear_requested : Bool
  pub state : LinkState
  pub reason : String
  pub faults : ℕ
  pub reconnects : ℕ
  pub clears_done : ℕ
  -- Locals of `run`, and the flag that it is given.
  pub stop : Bool
  pub connected : Bool
  pub ever_connected : Bool
  pub commanding : Bool
  pub health_failures : ℕ
  pub place : Position
  pub calls : List Call

abbrev pub state_eq : LinkState → LinkState → Bool
state_eq connecting connecting = true
state_eq running running = true
state_eq faulted faulted = true
state_eq _ _ = false

abbrev pub issue : Call → Position → Link → Link
issue c p l = record l { calls = c ∷ l.calls; place = p }

-- The store under `m_` and the call of the listener after it is let go are one step: another thread
-- may read the new status before the listener is told.
unfoldable pub set_state : LinkState → String → Bool → Link → Link
set_state st r announce l =
    let dropped = not (state_eq st faulted) && l.clear_requested in
    let resolved = l.clearing || dropped in
    record l {
      state = st;
      reason = r;
      clear_requested = state_eq st faulted && l.clear_requested;
      clears_done = if resolved then u64 (l.clears_done + 1) else l.clears_done;
      clearing = false;
      calls = if announce || not (state_eq l.state st) then tell st ∷ l.calls else l.calls;
    }

unfoldable pub latch : String → Link → Link
latch r l = record l {
  fault_reason = r;
  latched = true;
  faults = if l.latched then l.faults else u64 (l.faults + 1);
}

unfoldable pub note_connect_failure : String → Link → Link
note_connect_failure r l = record l {
  connect_failures = u64 (l.connect_failures + 1);
  last_connect_error = r;
  reason = r;
}

unfoldable pub request_clear : Link → Bool × Link
request_clear l =
    if state_eq l.state faulted then (true, record l { clear_requested = true }) else (false, l)

-- Whatever `safe_shutdown` throws is swallowed.
unfoldable pub shutdown : Link → Link
shutdown l = record l { calls = safe_shutdown ∷ l.calls; connected = false }

unfoldable pub lost : String → Link → Link
lost w l = shutdown (
    set_state connecting w false
      (record (if l.commanding then latch ("connection lost: " ++ w) l else l) {
        commanding = false;
      }))

-- The four handlers of the outer `try`; then the loop goes round.
unfoldable pub caught : Thrown → Link → Link
caught (comms_lost w) l = record (lost w l) { place = at_top }
caught (timed_out w) l = record (lost w l) { place = at_top }
caught (logic_error w) l = record (latch w (record l { commanding = false })) { place = at_top }
caught (failure w) l = record (latch w (record l { commanding = false })) { place = at_top }
caught unknown_exception l = record (latch "unknown exception" (record l { commanding = false })) {
  place = at_top;
}

-- A call that returned goes on; one that threw is handled.
abbrev pub unless_thrown : Reply → (Link → Link) → Link → Link
unless_thrown r next l = elim (r.thrown) [ none ↦ next l | some t ↦ caught t l ]

abbrev pub finish : Link → Link
finish l = record (shutdown l) { place = finished }

unfoldable pub enter_faulted : Link → Link
enter_faulted l = issue release_low_level at_release (set_state faulted l.fault_reason false l)

unfoldable pub enter_servoing : Link → Link
enter_servoing l = issue set_servoing_low_level at_servoing l

-- The `try` block up to the first call that it makes.
unfoldable pub enter_check : Link → Link
enter_check l = if l.latched then enter_faulted l else record l { place = at_check }

unfoldable pub top_step : Link → Link
top_step l =
    if l.stop then finish l else if l.connected then enter_check l else issue connect at_connect l

unfoldable pub connect_failed : Thrown → Link → Link
connect_failed (logic_error w) l = record (shutdown l) { place = escaped }
connect_failed (comms_lost w) l = record (shutdown (note_connect_failure w l)) { place = at_top }
connect_failed (timed_out w) l = record (shutdown (note_connect_failure w l)) { place = at_top }
connect_failed (failure w) l = record (shutdown (note_connect_failure w l)) { place = at_top }
connect_failed unknown_exception l =
    record (shutdown (note_connect_failure "unknown exception from connect()" l)) { place = at_top }

abbrev pub note_connected : Link → Link
note_connected l = record l {
  connected = true;
  connect_failures = 0;
  reconnects = if l.ever_connected then u64 (l.reconnects + 1) else l.reconnects;
  ever_connected = true;
}

unfoldable pub connect_step : Reply → Link → Link
connect_step r l = elim (r.thrown) [
  | some t ↦ connect_failed t l
  | none ↦ enter_check (note_connected l)
]

abbrev pub checked : Reply → Link → Link
checked r l =
    if r.in_fault then enter_faulted (latch "the arm reports a fault" l) else enter_servoing l

unfoldable pub check_step : Reply → Link → Link
check_step r = unless_thrown r (checked r)

abbrev pub note_silence : Link → Link
note_silence l = record l { health_failures = l.health_failures + 1 }

abbrev pub silence : Thrown
silence = timed_out "the arm stopped answering while faulted"

-- One round of `wait_faulted`. What `receive` does is ignored.
unfoldable pub wait_step : Reply → Link → Link
wait_step r l =
    if l.stop
    then finish l
    else if l.clear_requested
    then issue clear_faults at_clear (record l { clear_requested = false; clearing = true })
    else if not r.due
    then l
    else elim (r.thrown) [
      | none ↦ record l { health_failures = 0 }
      | some t ↦
          if leb l.health_max_failures (l.health_failures + 1)
          then caught silence (note_silence l)
          else note_silence l
    ]

-- One round of `fault_persists`.
abbrev pub polled : Reply → Link → Link
polled r l =
    if not r.in_fault
    then enter_servoing (record l { latched = false })
    else if l.stop || r.late
    then record l { fault_reason = "fault persists after clear"; place = at_top }
    else l

unfoldable pub settle_step : Reply → Link → Link
settle_step r = unless_thrown r (polled r)

abbrev pub enter_run : Link → Link
enter_run l =
    issue run_executor at_run (record (set_state running "" false l) { commanding = true })

unfoldable pub modes_step : Reply → Link → Link
modes_step r = unless_thrown r enter_run

abbrev pub enter_wait : Link → Link
enter_wait l = record l { health_failures = 0; place = at_wait }

abbrev pub enter_settle : Link → Link
enter_settle l = record l { place = at_settle }

unfoldable pub step_at : Position → Reply → Link → Link
step_at at_top r l = top_step l
step_at at_connect r l = connect_step r l
step_at at_check r l = check_step r l
step_at at_release r l = unless_thrown r enter_wait l
step_at at_wait r l = wait_step r l
step_at at_clear r l = unless_thrown r enter_settle l
step_at at_settle r l = settle_step r l
step_at at_servoing r l = unless_thrown r (issue set_position_modes at_modes) l
step_at at_modes r l = modes_step r l
step_at at_run r l = unless_thrown r finish l
step_at finished r l = l
step_at escaped r l = l

-- The constructor and the first line of `run`.
unfoldable pub begin : ℕ → Link
begin health_max_failures = set_state connecting "" true (record {
  health_max_failures = health_max_failures;
  latched = false;
  clearing = false;
  fault_reason = "";
  connect_failures = 0;
  last_connect_error = "";
  clear_requested = false;
  state = connecting;
  reason = "";
  faults = 0;
  reconnects = 0;
  clears_done = 0;
  stop = false;
  connected = false;
  ever_connected = false;
  commanding = false;
  health_failures = 0;
  place = at_top;
  calls = [];
})

-- What may happen next: the thread of `run` goes on, another thread asks for a clear, or for the end.
pub data Event : Type 0 where
  goes_on : Reply → Event
  asks_clear asks_stop : Event

unfoldable pub step : Event → Link → Link
step (goes_on r) l = step_at l.place r l
step asks_clear l = (request_clear l).1
step asks_stop l = record l { stop = true }

unfoldable pub run : List Event → Link → Link
run [] l = l
run (e ∷ es) l = run es (step e l)
