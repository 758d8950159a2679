-- ===== src/Transport/Sim.antt =====
-- src/sim_transport.cpp: the simulated arm behind the transport interface. What its hook throws, what
-- the sequence lock of the external torque gives (none for a torn read) and the gravity model are
-- fields; the busy wait is left out. `fuel` bounds the loops of `wrap_to_pi`.
pub mod Reports
use kinova_gen3_driver.Prelude.{
  ℕ, ◌+◌, ◌-◌, ◌≡◌, refl, ◌<◌, Bool, true, false, ◌&&◌, ◌||◌, Option, none, some, if◌then◌else◌,
  ltb, u64, ◌⊎◌, inl, inr, if-both, ◌∙◌, ap,
}
use kinova_gen3_driver.Double.{Double, ◌+ᵈ◌, ◌-ᵈ◌, ◌*ᵈ◌, ◌<ᵈ◌, ◌≤ᵈ◌, nought, one}
use kinova_gen3_driver.Types.{
  Joint, JointVec, ActuatorMode, torque_actuator, JointCommand, JointFeedback, GripperCommand,
}
use kinova_gen3_driver.Units.{wrap_to_pi, Turns, minus_pi, wrap_to_pi_bounds}
use kinova_gen3_driver.Kortex.{Fault, runtime, timeout}
use kinova_gen3_driver.Transport.{Transport}

pub record SimTransport (R : Type 0) : Type 0 where
  pub state : JointFeedback R
  pub last_cmd : JointCommand R
  pub frame : ℕ
  pub gripper_lag : R
  pub gripper_block : R
  pub failing_connects : ℕ
  pub failing_health : ℕ
  pub clear_lag : ℕ
  pub lag_left : ℕ
  pub arm_fault : Bool
  pub fault_sticky : Bool
  pub low_level_fb : Bool
  pub tau_ext : Option (JointVec R)
  pub tau_ext_seen : JointVec R
  pub hook : Option Fault
  pub gravity : Option (JointVec R → JointVec R)
  pub connects : ℕ
  pub low_level_entries : ℕ
  pub releases : ℕ
  pub shutdowns : ℕ
  pub clears : ℕ

abbrev is_torque : ActuatorMode → Bool
is_torque torque_actuator = true
is_torque _ = false

module _ {R : Type 0} ⦃d : Double R⦄ where
  -- A command as it is declared.
  abbrev blank_command : JointCommand R
  blank_command = record {
    mode = torque_actuator;
    position = λ _. nought;
    velocity = λ _. nought;
    torque = λ _. nought;
    gripper = record { position = nought; speed = one; force = d.lit 5 1; active = false };
  }

  unfoldable pub new_sim : JointFeedback R → SimTransport R
  new_sim initial = record {
    state = record initial { gripper = record (initial.gripper) { present = true } };
    last_cmd = blank_command;
    frame = 0;
    gripper_lag = one;
    gripper_block = nought -ᵈ one;
    failing_connects = 0;
    failing_health = 0;
    clear_lag = 0;
    lag_left = 0;
    arm_fault = false;
    fault_sticky = false;
    low_level_fb = true;
    tau_ext = some (λ _. nought);
    tau_ext_seen = λ _. nought;
    hook = none;
    gravity = none;
    connects = 0;
    low_level_entries = 0;
    releases = 0;
    shutdowns = 0;
    clears = 0;
  }

  -- The knobs of the tests; `throw_on_exchange` sets what the hook throws.
  unfoldable set_gripper_lag : R → SimTransport R → SimTransport R
  set_gripper_lag l s = record s { gripper_lag = l }

  unfoldable fail_connects : ℕ → SimTransport R → SimTransport R
  fail_connects n s = record s { failing_connects = n }

  unfoldable fail_health : ℕ → SimTransport R → SimTransport R
  fail_health n s = record s { failing_health = n }

  unfoldable set_fault_sticky : Bool → SimTransport R → SimTransport R
  set_fault_sticky f s = record s { fault_sticky = f }

  unfoldable set_external_torque : JointVec R → SimTransport R → SimTransport R
  set_external_torque t s = record s { tau_ext = some t }

  unfoldable set_gravity_model : (JointVec R → JointVec R) → SimTransport R → SimTransport R
  set_gravity_model g s = record s { gravity = some g }

  unfoldable set_clear_lag : ℕ → SimTransport R → SimTransport R
  set_clear_lag n s = record s { clear_lag = n }

  unfoldable set_low_level_feedback : Bool → SimTransport R → SimTransport R
  set_low_level_feedback l s = record s { low_level_fb = l }

  unfoldable throw_on_exchange : Option Fault → SimTransport R → SimTransport R
  throw_on_exchange e s = record s { hook = e }

  unfoldable pub set_arm_fault : Bool → SimTransport R → SimTransport R
  set_arm_fault f s = record s { arm_fault = f }

  unfoldable pub set_gripper_blocked_at : R → SimTransport R → SimTransport R
  set_gripper_blocked_at p s = record s { gripper_block = p }

  unfoldable pub set_joint_positions : JointVec R → SimTransport R → SimTransport R
  set_joint_positions q s = record s { state = record (s.state) { q = q } }

  unfoldable pub connect : SimTransport R → Option Fault × SimTransport R
  connect s =
      let t = record s { connects = s.connects + 1 } in
      if ltb 0 t.failing_connects
      then (
        some (runtime "sim: arm unreachable"),
        record t { failing_connects = t.failing_connects - 1 },
      )
      else (none, t)

  unfoldable pub arm_in_fault : SimTransport R → (Fault ⊎ Bool) × SimTransport R
  arm_in_fault s =
      if ltb 0 s.failing_health
      then (
        inl (timeout "sim: no reply to the arm-state query"),
        record s { failing_health = s.failing_health - 1 },
      )
      else if ltb 0 s.lag_left
      then (inr true, record s { lag_left = s.lag_left - 1 })
      else (inr s.arm_fault, s)

  unfoldable pub clear_faults : SimTransport R → SimTransport R
  clear_faults s =
      let t = record s { clears = s.clears + 1 } in
      if t.fault_sticky then t else record t { arm_fault = false; lag_left = t.clear_lag }

  abbrev settled_eps : R
  settled_eps = d.lit 1 6

  -- Whether the gripper is within `settled_eps` of the block.
  abbrev is_at_block : R → SimTransport R → Bool
  is_at_block p s = d.abs (p -ᵈ s.gripper_block) <ᵈ settled_eps

  unfoldable pub gripper_target : GripperCommand R → SimTransport R → R
  gripper_target g s =
      if (nought ≤ᵈ s.gripper_block) && (s.gripper_block <ᵈ g.position)
      then s.gripper_block
      else g.position

  -- A step of the lag towards the target, snapped onto the block where that is the target.
  unfoldable pub gripper_moved : GripperCommand R → SimTransport R → R
  unfolding gripper_target
  gripper_moved g s =
      let target = gripper_target g s in
      let before = s.state.gripper.position in
      let moved = before +ᵈ (target -ᵈ before) *ᵈ s.gripper_lag in
      if (nought ≤ᵈ s.gripper_block)
        && ((target ≤ᵈ s.gripper_block && s.gripper_block ≤ᵈ target) && is_at_block moved s)
      then s.gripper_block
      else moved

  unfoldable pub step_gripper : GripperCommand R → SimTransport R → SimTransport R
  unfolding gripper_moved
  step_gripper g s =
      if g.active
      then (let moved = gripper_moved g s in
          let blocked =
            (nought ≤ᵈ s.gripper_block)
            && ((s.gripper_block <ᵈ g.position) && is_at_block moved s) in
          let effort = if blocked then g.force else nought in
          record s {
            state = record (s.state) {
              gripper = record {
                position = moved;
                effort = effort;
                current = effort *ᵈ one;
                present = true;
              };
            };
          })
      else record s {
        state = record (s.state) { gripper = record (s.state.gripper) { present = true } };
      }

  abbrev resting_torque : Option (JointVec R → JointVec R) → JointFeedback R → JointVec R
  resting_torque none fb = fb.tau
  resting_torque (some g) fb = g fb.q

  unfoldable pub step_torque : JointCommand R → SimTransport R → SimTransport R
  step_torque c s = record s {
    state = record (s.state) {
      tau = if is_torque c.mode then c.torque else resting_torque s.gravity s.state;
    };
  }

  abbrev pub whole_or : JointVec R → Option (JointVec R) → JointVec R
  whole_or seen none = seen
  whole_or seen (some t) = t

  unfoldable pub report_wrapped : ℕ → SimTransport R → JointFeedback R × SimTransport R
  report_wrapped fuel s =
      let ext = whole_or s.tau_ext_seen s.tau_ext in
      (
        record (s.state) {
          tau = λ i. s.state.tau i -ᵈ ext i;
          fault = s.state.fault || s.arm_fault;
          low_level = s.low_level_fb;
          q = λ i. wrap_to_pi fuel (s.state.q i);
        },
        record s { tau_ext_seen = ext },
      )

  -- What a command does before anything is reported.
  unfoldable pub command : JointCommand R → SimTransport R → SimTransport R
  unfolding step_torque step_gripper
  command c s =
      let t = step_gripper c.gripper (step_torque c (record s { last_cmd = c })) in
      record t {
        frame = u64 (t.frame + 1);
        state = record (t.state) { frame_id = u64 (t.frame + 1) };
      }

  abbrev pub reported :
      JointFeedback R × SimTransport R → Option Fault × JointFeedback R × SimTransport R
  reported (fb, s) = (none, fb, s)

  unfoldable pub exchange :
      ℕ
      → JointCommand R
      → JointFeedback R
      → SimTransport R
      → Option Fault × JointFeedback R × SimTransport R
  unfolding command report_wrapped
  exchange fuel c fb s = elim s.hook [
    | some e ↦ (some e, fb, s)
    | none ↦ reported (report_wrapped fuel (command c s))
  ]

  unfoldable pub sim : ℕ → Transport R (SimTransport R)
  unfolding connect exchange command report_wrapped arm_in_fault clear_faults
  sim fuel = record {
    connect = connect;
    set_servoing_low_level = λ s. (none, record s { low_level_entries = s.low_level_entries + 1 });
    set_actuator_modes = λ m h s. (none, s);
    exchange = exchange fuel;
    send = λ c s. (none, command c s);
    receive = λ fb s. reported (report_wrapped fuel s);
    safe_shutdown = λ s. record s { shutdowns = s.shutdowns + 1 };
    release_low_level = λ s. record s { releases = s.releases + 1 };
    arm_in_fault = arm_in_fault;
    clear_faults = clear_faults;
  }
