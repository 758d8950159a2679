-- ===== src/Session/Lifecycle.antt =====
-- What a streaming session guarantees from open to close.
use kinova_gen3_driver.Prelude.{
  ◌+◌, ◌≡◌, true, false, not, ◌&&◌, arith, List, [], ◌∷◌, u64, if◌then◌else◌,
}
use kinova_gen3_driver.Double.{Double, ◌-ᵈ◌, ◌<ᵈ◌, ◌≤ᵈ◌, nought}
use kinova_gen3_driver.Types.{SetpointKind, StreamOpenRequest, kind_eq}
use kinova_gen3_driver.Session.{
  Session, pair_supported, new_session, open_session, close_session, admit_setpoint, expired,
}

pub data Event (R : Type 0) : Type 0 where
  open_at : StreamOpenRequest R → R → Event R
  close_it : Event R
  setpoint_at : SetpointKind → R → Event R

module _ {R : Type 0} ⦃d : Double R⦄ where
  pub step : Event R → Session R → Session R
  unfolding open_session close_session admit_setpoint
  step (open_at r now) s = (open_session r now s).1
  step close_it s = close_session s
  step (setpoint_at k now) s = (admit_setpoint k now s).1

  pub run : List (Event R) → Session R → Session R
  unfolding step
  run [] s = s
  run (e ∷ es) s = run es (step e s)

  -- An open session has a deadline and a pair that its mode can serve.
  pub record IsServed (s : Session R) : Type 0 where
    pub deadline : s.open_flag ≡ true → (s.timeout_s ≤ᵈ nought) ≡ false
    pub pair : s.open_flag ≡ true → pair_supported s.kind s.mode ≡ true

  -- The session that an accepted request leaves.
  abbrev pub opened : StreamOpenRequest R → R → Session R → Session R
  opened r now s = record {
    open_flag = true;
    kind = r.kind;
    mode = r.control_mode;
    timeout_s = r.timeout_s;
    last_s = now;
    rejected = s.rejected;
  }

  step-IsServed : (e : Event R) (s : Session R) → IsServed s → IsServed (step e s)
  unfolding step
  step-IsServed (open_at r now) s v = ground arith
  step-IsServed e s v = ground arith

  run-IsServed : (es : List (Event R)) (s : Session R) → IsServed s → IsServed (run es s)
  unfolding run
  run-IsServed [] s v = v
  run-IsServed (e ∷ es) s v = run-IsServed es (step e s) (step-IsServed e s v)

  -- After any opens, closes and setpoints, a session that is open has a timeout that is not <= 0 and
  -- a (setpoint kind, control mode) pair of the table.
  run-new-IsServed : (es : List (Event R)) → IsServed (run es new_session)
  unfolding new_session
  run-new-IsServed es = run-IsServed es new_session (ground arith)

  -- A setpoint is accepted exactly when the session is open and of that kind. An accepted one
  -- re-arms the deadline, so the session then expires exactly when the clock has passed it by more
  -- than the timeout; a refused one moves no deadline and is counted.
  admit_setpoint-expired :
      (k : SetpointKind) (now later : R) (s : Session R)
      → let r = (admit_setpoint k now s).0 in
        let s' = (admit_setpoint k now s).1 in
        (r ≡ (s.open_flag && kind_eq k s.kind))
        × (expired later s' ≡ (if r then s.timeout_s <ᵈ (later -ᵈ now) else expired later s))
        × (s'.rejected ≡ (if r then s.rejected else u64 (s.rejected + 1)))
  unfolding admit_setpoint expired
  admit_setpoint-expired k now later s = ground arith

  -- Refusals in order: whatever is refused leaves the session as it was, and an open is accepted
  -- exactly when no session is open, its timeout is not <= 0 and its pair is in the table.
  pub open_session_iff :
      (r : StreamOpenRequest R) (now : R) (s : Session R)
      → let ok =
          not s.open_flag && not (r.timeout_s ≤ᵈ nought) && pair_supported r.kind r.control_mode in
        ((open_session r now s).0.accepted ≡ ok)
        × ((open_session r now s).1 ≡ (if ok then opened r now s else s))
  unfolding open_session
  open_session_iff r now s = ground arith
