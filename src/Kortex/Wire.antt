-- ===== src/Kortex/Wire.antt =====
-- src/kortex_transport.cpp: the cyclic frames. `write_command` and `fill_feedback` convert between the
-- driver's units and KORTEX's; `exchange`, `send` and `receive` are the calls of the real-time loop,
-- `set_servoing_low_level` the entry. The loops run over the seven joints, the count that `connect`
-- has checked; `fuel` bounds the loops of `wrap_to_pi`.
use kinova_gen3_driver.Prelude.{
  ℕ, ◌+◌, ◌%◌, ◌^◌, Bool, true, false, not, ◌||◌, Option, none, some, if◌then◌else◌, ◌==◌, inr,
}
use kinova_gen3_driver.Double.{Double, ◌-ᵈ◌, ◌*ᵈ◌, ◌/ᵈ◌, ◌<ᵈ◌, nought, one}
use kinova_gen3_driver.Types.{
  Joint, j1, j2, j3, j4, j5, j6, j7, JointVec, JointCommand, JointFeedback, GripperCommand,
  GripperFeedback, ActuatorMode, position_actuator, velocity_actuator, torque_actuator,
  current_actuator,
}
use kinova_gen3_driver.Units.{wrap_to_pi}
use kinova_gen3_driver.Gripper.{clamp01}
use kinova_gen3_driver.Kortex.{
  ActuatorFeedback, ActuatorCommand, MotorFeedback, MotorCommand, Feedback, Kortex, Sdk, M, ◌>>=◌,
  ◌>>◌, modify, go_on, ArmStateCode, in_fault, servoing_low_level, set_low_level, refresh_feedback,
  refresh_command, rpc, cyclic_call, parse_feedback, send_refresh,
}

abbrev u16 : ℕ → ℕ
u16 n = n % 2 ^ 16

unfoldable pub is_in_fault : ArmStateCode → Bool
is_in_fault in_fault = true
is_in_fault _ = false

unfoldable pub is_low_level : ArmStateCode → Bool
is_low_level servoing_low_level = true
is_low_level _ = false

module _ {R : Type 0} ⦃d : Double R⦄ where
  abbrev deg2rad : R
  deg2rad = d.pi /ᵈ d.lit 180 0

  abbrev rad2deg : R
  rad2deg = d.lit 180 0 /ᵈ d.pi

  abbrev pct_per_unit : R
  pct_per_unit = d.lit 100 0

  -- The torque that was measured, turned from the reaction's sign to the command's.
  abbrev pub measured : Feedback R → JointVec R
  measured f i = nought -ᵈ (f.actuators i).torque

  unfoldable pub actuator_faulted : Feedback R → Joint → Bool
  actuator_faulted f i =
      not ((f.actuators i).fault_bank_a == 0) || not ((f.actuators i).fault_bank_b == 0)

  unfoldable pub any_fault : Feedback R → Bool
  unfolding actuator_faulted is_in_fault
  any_fault f =
      (actuator_faulted f j1
        || (actuator_faulted f j2
            || (actuator_faulted f j3
                || (actuator_faulted f j4
                    || (actuator_faulted f j5
                        || (actuator_faulted f j6 || actuator_faulted f j7))))))
      || (not (f.base_fault_bank_a == 0)
          || (not (f.base_fault_bank_b == 0) || is_in_fault f.active_state))

  unfoldable pub gripper_feedback : Option (MotorFeedback R) → GripperFeedback R
  gripper_feedback none = record {
    position = nought;
    effort = nought;
    current = nought;
    present = false;
  }
  gripper_feedback (some m) =
      let e = d.abs m.current_motor /ᵈ one in
      record {
        position = m.position /ᵈ pct_per_unit;
        effort = if one <ᵈ e then one else e;
        current = m.current_motor;
        present = true;
      }

  unfoldable pub fill_feedback : ℕ → Feedback R → JointFeedback R
  unfolding any_fault is_low_level gripper_feedback
  fill_feedback fuel f = record {
    q = λ i. wrap_to_pi fuel ((f.actuators i).position *ᵈ deg2rad);
    qd = λ i. (f.actuators i).velocity *ᵈ deg2rad;
    tau = measured f;
    current = λ i. (f.actuators i).current_motor;
    frame_id = f.frame_id;
    fault = any_fault f;
    low_level = is_low_level f.active_state;
    gripper = gripper_feedback f.motor;
  }

  -- The setpoint of one actuator: a position in every mode, the measured one unless it is commanded.
  unfoldable pub write_actuator :
      ActuatorMode
      → JointCommand R
      → ActuatorFeedback R
      → Joint
      → ActuatorCommand R
      → ActuatorCommand R
  write_actuator position_actuator c f i a = record a {
    position = d.to_float (c.position i *ᵈ rad2deg);
  }
  write_actuator velocity_actuator c f i a = record a {
    position = f.position;
    velocity = d.to_float (c.velocity i *ᵈ rad2deg);
  }
  write_actuator torque_actuator c f i a = record a {
    position = f.position;
    torque_joint = d.to_float (c.torque i);
  }
  write_actuator current_actuator c f i a = record a {
    position = f.position;
    current_motor = d.to_float (c.torque i);
  }

  unfoldable pub motor_command : GripperCommand R → MotorCommand R
  unfolding clamp01
  motor_command g = record {
    position = clamp01 g.position *ᵈ pct_per_unit;
    velocity = clamp01 g.speed *ᵈ pct_per_unit;
    force = clamp01 g.force *ᵈ pct_per_unit;
  }

  -- With no gripper command the motor message of an earlier one stays and is sent again.
  unfoldable pub write_command : {W : Type 0} → JointCommand R → Kortex R W → Kortex R W
  unfolding write_actuator motor_command
  write_command c k =
      let id = u16 (k.frame_id + 1) in
      record k {
        frame_id = id;
        cmd = record (k.cmd) {
          frame_id = id;
          actuators = λ i.
              let a = write_actuator c.mode c (k.fb.actuators i) i (k.cmd.actuators i) in
              record a { command_id = id };
          motor_cmd = if c.gripper.active then some (motor_command c.gripper) else k.cmd.motor_cmd;
        };
      }

  -- What `pump` writes before it refreshes.
  unfoldable pub write_hold : {W : Type 0} → JointVec R → Kortex R W → Kortex R W
  write_hold torque k =
      let id = u16 (k.frame_id + 1) in
      record k {
        frame_id = id;
        cmd = record (k.cmd) {
          frame_id = id;
          actuators = λ i. record (k.cmd.actuators i) {
            position = (k.fb.actuators i).position;
            torque_joint = torque i;
            command_id = id;
          };
        };
      }

  -- The command that enters low-level servoing: no gripper target, and the measured torque.
  unfoldable pub write_seed : {W : Type 0} → Kortex R W → Kortex R W
  write_seed k = record k {
    cmd = record (k.cmd) {
      actuators = λ i. record {
        position = (k.fb.actuators i).position;
        velocity = nought;
        torque_joint = measured k.fb i;
        current_motor = nought;
        command_id = 0;
      };
      motor_cmd = none;
    };
  }

  module _ {W : Type 0} (sdk : Sdk R W) where
    unfoldable pub pump : JointVec R → M R W (Unit {0})
    unfolding write_hold send_refresh
    pump torque k = send_refresh sdk (write_hold torque k)

    unfoldable pub set_servoing_low_level : M R W (Unit {0})
    unfolding rpc cyclic_call send_refresh write_seed
    set_servoing_low_level k =
        (do
          _ ← rpc sdk set_low_level
          modify (λ (s : Kortex R W). record s { low_level = true })
          f ← cyclic_call sdk refresh_feedback
          parse_feedback f
          modify write_seed
          send_refresh sdk)
          k

    unfoldable pub exchange : ℕ → JointCommand R → M R W (JointFeedback R)
    unfolding write_command send_refresh fill_feedback
    exchange fuel c k =
        go_on (λ u s. (inr (fill_feedback fuel s.fb), s)) (send_refresh sdk (write_command c k))

    unfoldable pub send : JointCommand R → M R W (Unit {0})
    unfolding write_command cyclic_call
    send c k =
        let s = write_command c k in
        go_on (λ f t. (inr tt, t)) (cyclic_call sdk (refresh_command s.cmd) s)

    unfoldable pub receive : ℕ → M R W (JointFeedback R)
    unfolding cyclic_call fill_feedback
    receive fuel k =
        go_on (λ u s. (inr (fill_feedback fuel s.fb), s))
          ((cyclic_call sdk refresh_feedback >>= parse_feedback) k)
