-- ===== src/Kortex/Gripping.antt =====
-- src/kortex_transport.cpp: the gripper's target, which rides in every frame once there is one.
use kinova_gen3_driver.Prelude.{
  ℕ, zero, suc, ◌+◌, ◌≡◌, refl, arith, ◌∙◌, ap, Bool, true, false, Option, some, List, [], ◌∷◌,
  if◌then◌else◌, inl, inr, ◌⊎◌,
}
use kinova_gen3_driver.Double.{Double, ◌*ᵈ◌, nought, one, clamp_d}
use kinova_gen3_driver.Types.{index, Joint, JointVec, JointCommand, ActuatorMode, GripperCommand}
use kinova_gen3_driver.Kortex.{
  Fault, timeout, rejected, runtime, invalid_argument, sdk_error, Feedback, MotorCommand, refresh,
  refresh_command, refresh_feedback, Kortex, Sdk, M, go_on, ask, rpc, cyclic_call, parse_feedback,
  send_refresh, set_control_mode, to_kortex_mode, ◌>>=◌,
}
use kinova_gen3_driver.Gripper.{clamp01}
use kinova_gen3_driver.Kortex.Wire.{
  motor_command, measured, write_command, write_hold, pump, exchange, send, receive,
}
use kinova_gen3_driver.Kortex.Switching.{
  take_over, count_miss, pump_once, pump_times, switch_each, switch_order, settle,
  set_actuator_modes,
}

-- A call of the real-time loop.
pub data Use (R : Type 0) : Type 0 where
  exchanges sends : JointCommand R → Use R
  receives : Use R
  switches : JointVec ActuatorMode → Option (JointCommand R) → Use R

module _ {R : Type 0} ⦃d : Double R⦄ where
  -- A target as the arm takes it: each part clamped into [0, 1], in percent.
  abbrev pub in_percent : GripperCommand R → MotorCommand R
  in_percent g = record {
    position = clamp_d g.position nought one *ᵈ d.lit 100 0;
    velocity = clamp_d g.speed nought one *ᵈ d.lit 100 0;
    force = clamp_d g.force nought one *ᵈ d.lit 100 0;
  }

  -- The target of the last call that carried one, else the earlier one.
  abbrev pub last_motor : Option (MotorCommand R) → List (Use R) → Option (MotorCommand R)
  last_motor m [] = m
  last_motor m (exchanges c ∷ us) =
      last_motor (if c.gripper.active then some (in_percent c.gripper) else m) us
  last_motor m (sends c ∷ us) =
      last_motor (if c.gripper.active then some (in_percent c.gripper) else m) us
  last_motor m (receives ∷ us) = last_motor m us
  last_motor m (switches modes hold ∷ us) = last_motor m us

  written :
      {W : Type 0} (c : JointCommand R) (k : Kortex R W)
      → (write_command c k).cmd.motor_cmd
        ≡ (if c.gripper.active then some (in_percent c.gripper) else k.cmd.motor_cmd)
  unfolding write_command motor_command clamp01
  written c k = refl

module _ {R W : Type 0} ⦃d : Double R⦄ (sdk : Sdk R W) where
  unfoldable pub call : ℕ → Use R → Kortex R W → Kortex R W
  call fuel (exchanges c) k = (exchange sdk fuel c k).1
  call fuel (sends c) k = (send sdk c k).1
  call fuel receives k = (receive sdk fuel k).1
  call fuel (switches modes hold) k = (set_actuator_modes sdk modes hold k).1

  unfoldable pub run : ℕ → List (Use R) → Kortex R W → Kortex R W
  unfolding call
  run fuel [] k = k
  run fuel (u ∷ us) k = run fuel us (call fuel u k)

  module _ (m : Option (MotorCommand R)) where
    abbrev Grips : Kortex R W → Type 0
    Grips k = k.cmd.motor_cmd ≡ m

    go_on-Grips :
        {A B : Type 0} (r : (Fault ⊎ A) × Kortex R W) (f : A → M R W B)
        → Grips r.1
        → ((a : A) (k : Kortex R W) → Grips k → Grips (f a k).1)
        → Grips (go_on f r).1
    go_on-Grips (inl e, k) f h g = h
    go_on-Grips (inr a, k) f h g = g a k h

    parse-Grips : (f : Bool × Feedback R) (k : Kortex R W) → Grips k → Grips (parse_feedback f k).1
    parse-Grips (true, f) k h = h
    parse-Grips (false, f) k h = h

    send_refresh-Grips : (k : Kortex R W) → Grips k → Grips (send_refresh sdk k).1
    unfolding send_refresh cyclic_call
    send_refresh-Grips k h =
        go_on-Grips (cyclic_call sdk (refresh k.cmd) k) parse_feedback h parse-Grips

    count_miss-Grips :
        (n : ℕ) (r : (Fault ⊎ Unit {0}) × Kortex R W) → Grips r.1 → Grips (count_miss n r).1
    count_miss-Grips n (inl (timeout w), k) h = ground arith
    count_miss-Grips n (inl (rejected w), k) h = h
    count_miss-Grips n (inl (runtime w), k) h = h
    count_miss-Grips n (inl (invalid_argument w), k) h = h
    count_miss-Grips n (inl (sdk_error e), k) h = h
    count_miss-Grips n (inr u, k) h = h

    pump_once-Grips :
        (sent : JointVec R) (n : ℕ) (k : Kortex R W) → Grips k → Grips (pump_once sdk sent n k).1
    unfolding pump_once pump write_hold
    pump_once-Grips sent n k h =
        count_miss-Grips n (pump sdk sent k) (send_refresh-Grips (write_hold sent k) h)

    pump_times-Grips :
        (left : ℕ) (sent : JointVec R) (n : ℕ) (k : Kortex R W)
        → Grips k
        → Grips (pump_times sdk left sent n k).1
    unfolding pump_times
    pump_times-Grips zero sent n k h = h
    pump_times-Grips (suc left) sent n k h =
        go_on-Grips (pump_once sdk sent n k) (pump_times sdk left sent) (pump_once-Grips sent n k h)
          (λ n' s g. pump_times-Grips left sent n' s g)

    switch_each-Grips :
        (modes : JointVec ActuatorMode) (hold : Option (JointCommand R)) (js : List Joint)
        (sent : JointVec R) (n : ℕ) (k : Kortex R W)
        → Grips k
        → Grips (switch_each sdk modes hold js sent n k).1
    unfolding switch_each rpc ask
    switch_each-Grips modes hold [] sent n k h = h
    switch_each-Grips modes hold (j ∷ js) sent n k h =
        go_on-Grips (rpc sdk (set_control_mode (to_kortex_mode (modes j)) (index j + 1)) k) _ h
          (λ a s g.
            let now = take_over hold j sent in
            go_on-Grips (pump_once sdk now n s) (switch_each sdk modes hold js now)
              (pump_once-Grips now n s g)
              (λ n' s' g'. switch_each-Grips modes hold js now n' s' g'))

    settle-Grips : (s : JointVec R × ℕ) (k : Kortex R W) → Grips k → Grips (settle sdk s k).1
    settle-Grips (sent, n) k h =
        go_on-Grips (pump_times sdk 10 sent n k) _ (pump_times-Grips 10 sent n k h) (λ a s g. g)

    switch-Grips :
        (modes : JointVec ActuatorMode) (hold : Option (JointCommand R)) (k : Kortex R W)
        → Grips k
        → Grips (set_actuator_modes sdk modes hold k).1
    unfolding set_actuator_modes
    switch-Grips modes hold k h =
        let sent = measured k.fb in
        go_on-Grips (pump_once sdk sent 0 k) _ (pump_once-Grips sent 0 k h) (λ n s g.
          go_on-Grips (switch_each sdk modes hold (switch_order hold) sent n s) (settle sdk)
            (switch_each-Grips modes hold (switch_order hold) sent n s g) settle-Grips)

    exchange-Grips :
        (fuel : ℕ) (c : JointCommand R) (k : Kortex R W)
        → Grips (write_command c k)
        → Grips (exchange sdk fuel c k).1
    unfolding exchange
    exchange-Grips fuel c k h =
        go_on-Grips (send_refresh sdk (write_command c k)) _
          (send_refresh-Grips (write_command c k) h) (λ a s g. g)

    send-Grips :
        (c : JointCommand R) (k : Kortex R W) → Grips (write_command c k) → Grips (send sdk c k).1
    unfolding send cyclic_call
    send-Grips c k h =
        let s = write_command c k in
        go_on-Grips (cyclic_call sdk (refresh_command s.cmd) s) _ h (λ a s g. g)

    receive-Grips : (fuel : ℕ) (k : Kortex R W) → Grips k → Grips (receive sdk fuel k).1
    unfolding receive cyclic_call
    receive-Grips fuel k h =
        go_on-Grips ((cyclic_call sdk refresh_feedback >>= parse_feedback) k) _
          (go_on-Grips (cyclic_call sdk refresh_feedback k) parse_feedback h parse-Grips)
          (λ a s g. g)

  -- Whatever the calls of the real-time loop are, and however they end: the gripper message of the
  -- next frame is the target that was commanded last, clamped and in percent. A frame without a target
  -- does not take it back, so a released gripper is sent its last target again in every frame.
  pub run-motor_cmd :
      (fuel : ℕ) (us : List (Use R)) (k : Kortex R W)
      → (run fuel us k).cmd.motor_cmd ≡ last_motor k.cmd.motor_cmd us
  unfolding run call
  run-motor_cmd fuel [] k = refl
  run-motor_cmd fuel (exchanges c ∷ us) k =
      run-motor_cmd fuel us (exchange sdk fuel c k).1
      ∙ ap (λ m. last_motor m us) (exchange-Grips _ fuel c k (written c k))
  run-motor_cmd fuel (sends c ∷ us) k =
      run-motor_cmd fuel us (send sdk c k).1
      ∙ ap (λ m. last_motor m us) (send-Grips _ c k (written c k))
  run-motor_cmd fuel (receives ∷ us) k =
      run-motor_cmd fuel us (receive sdk fuel k).1
      ∙ ap (λ m. last_motor m us) (receive-Grips _ fuel k refl)
  run-motor_cmd fuel (switches modes hold ∷ us) k =
      run-motor_cmd fuel us (set_actuator_modes sdk modes hold k).1
      ∙ ap (λ m. last_motor m us) (switch-Grips _ modes hold k refl)
