-- ===== src/Tests/Arm.antt =====
-- The transport to the arm against a vendor library that answers a number of requests and then falls
-- silent.
use mathlib.Core.List.{Perm, map}
use kinova_gen3_driver.Prelude.{
  ℕ, ◌+◌, ◌-◌, ◌≡◌, refl, true, false, none, some, List, [], ◌∷◌, if◌then◌else◌, ◌==◌, inl, inr,
  ◌⊎◌,
}
use kinova_gen3_driver.Double.{Nano, nano, nano-IsOrdered, nought, one, ◌-ᵈ◌}
use kinova_gen3_driver.Types.{
  Joint, j1, j2, j3, j4, j5, j6, j7, index, joints, JointVec, JointCommand, ActuatorMode,
  torque_actuator,
}
use kinova_gen3_driver.Kortex.{
  SdkError, runtime_error, Answer, other_state, CyclicAnswer, no_reply, frame, Feedback, Command,
  Sdk, Request, CyclicRequest, Kortex, After, set_control_mode, to_kortex_mode,
}
use kinova_gen3_driver.Kortex.Lifecycle.{release_low_level, safe_shutdown, connect}
use kinova_gen3_driver.Kortex.Switching.{switch_order, set_actuator_modes}
use kinova_gen3_driver.Kortex.Holding.{Held, done, set_actuator_modes-Held}
use kinova_gen3_driver.Kortex.Order.{LightestFirst, switch_order-LightestFirst}
use kinova_gen3_driver.Kortex.Reverting.{
  requests, revert_requests, Worked, release_low_level-Worked,
}
use kinova_gen3_driver.Kortex.ShuttingDown.{IsDown, safe_shutdown-IsDown}
use kinova_gen3_driver.Kortex.Connecting.{handshake, connect-After}
use kinova_gen3_driver.Kortex.Gripping.{exchanges, sends, receives, in_percent, run, run-motor_cmd}
use kinova_gen3_driver.Tests.{at}
use kinova_gen3_driver.Tests.Looping.{rest_command}

abbrev reading : Feedback Nano
reading = record {
  frame_id = 1;
  actuators = λ _. record {
    position = nano.lit 10 0;
    velocity = nought;
    torque = nano.lit 5 0;
    current_motor = nought;
    fault_bank_a = 0;
    fault_bank_b = 0;
  };
  base_fault_bank_a = 0;
  base_fault_bank_b = 0;
  active_state = other_state;
  motor = none;
}

abbrev answer_request : Request → ℕ → (SdkError ⊎ Answer) × ℕ
answer_request r left =
    if left == 0
    then (inl (runtime_error "timeout detected: Base"), 0)
    else (inr (record { count = 7; arm_state = other_state }), left - 1)

abbrev answer_cyclic : CyclicRequest Nano → ℕ → CyclicAnswer Nano × ℕ
answer_cyclic r left = if left == 0 then (no_reply, 0) else (frame true reading, left - 1)

-- The state of the library is the number of answers that are left.
abbrev library : Sdk Nano ℕ
library = record { request = answer_request; cyclic = answer_cyclic }

abbrev blank_command : Command Nano
blank_command = record {
  frame_id = 0;
  actuators = λ _. record {
    position = nought;
    velocity = nought;
    torque_joint = nought;
    current_motor = nought;
    command_id = 0;
  };
  motor_cmd = none;
}

-- A connected transport in low-level servoing, with so many answers left.
abbrev transport : ℕ → Kortex Nano ℕ
transport left = record {
  tcp = true;
  udp = true;
  tcp_router = true;
  udp_router = true;
  tcp_sess = true;
  udp_sess = true;
  base = true;
  base_cyclic = true;
  act_cfg = true;
  cmd = blank_command;
  fb = reading;
  n = 7;
  frame_id = 65535;
  connected = true;
  unanswered = false;
  low_level = true;
  world = left;
  calls = [];
}

abbrev fresh : Kortex Nano ℕ
fresh = record (transport 40) {
  tcp = false;
  udp = false;
  tcp_router = false;
  udp_router = false;
  tcp_sess = false;
  udp_sess = false;
  base = false;
  base_cyclic = false;
  act_cfg = false;
  n = 0;
  connected = false;
  low_level = false;
}

abbrev all_torque : JointVec ActuatorMode
all_torque = λ _. torque_actuator

abbrev lifted : JointCommand Nano
lifted = record rest_command { mode = torque_actuator; torque = at 12 }

set_actuator_modes-Held_example :
    After
      (λ t. Held (some lifted) (λ j. nought -ᵈ (reading.actuators j).torque) t.calls)
      (λ _ t.
        Held (some lifted) (λ j. nought -ᵈ (reading.actuators j).torque) t.calls
        × (done t.calls
            ≡ map
                (λ j. set_control_mode (to_kortex_mode torque_actuator) (index j + 1))
                (switch_order (some lifted))))
      (set_actuator_modes library all_torque (some lifted) (transport 9))
set_actuator_modes-Held_example =
    set_actuator_modes-Held library all_torque (some lifted) (transport 9) refl

-- The first joint holds the most.
abbrev leaning : JointCommand Nano
leaning = record lifted { torque = heavy_first }
  where
    heavy_first : JointVec Nano
    heavy_first j1 = nano.lit 9 0
    heavy_first j = nano.lit 2 0

switch_order-LightestFirst_example :
    Perm (switch_order (some leaning)) joints
    × LightestFirst leaning.torque (switch_order (some leaning))
    × ((order : List Joint)
        → Perm order joints
        → LightestFirst leaning.torque order
        → order ≡ switch_order (some leaning))
switch_order-LightestFirst_example =
    switch_order-LightestFirst nano-IsOrdered leaning (λ j. finite j)
  where
    finite : (j : Joint) → nano.is_finite (nano.abs (leaning.torque j)) ≡ true
    finite j1 = refl
    finite j2 = refl
    finite j3 = refl
    finite j4 = refl
    finite j5 = refl
    finite j6 = refl
    finite j7 = refl

release_low_level-Worked_example :
    let t = release_low_level library (transport 4) in
    (t.low_level ≡ false)
    × (true ≡ true → Worked (revert_requests (transport 4)) (requests t.calls) t.unanswered)
    × (true ≡ false → t ≡ transport 4)
release_low_level-Worked_example = release_low_level-Worked library (transport 4) refl

safe_shutdown-IsDown_example :
    let t = safe_shutdown library (transport 4) in
    IsDown t × ((safe_shutdown library t).calls ≡ t.calls)
safe_shutdown-IsDown_example = safe_shutdown-IsDown library (transport 4)

connect-After_example :
    After
      (λ s. s.connected ≡ false)
      (λ _ s. (s.connected ≡ true) × (done s.calls ≡ handshake) × (s.n ≡ 7))
      (connect library (inr none) fresh)
connect-After_example = connect-After library (inr none) fresh refl

abbrev gripping : JointCommand Nano
gripping = record rest_command {
  gripper = record { position = nano.lit 15 1; speed = one; force = one; active = true };
}

run-motor_cmd_example :
    (run library 3
      (exchanges gripping ∷ sends rest_command ∷ receives ∷ [])
      (transport 1)).cmd.motor_cmd
    ≡ some (in_percent gripping.gripper)
run-motor_cmd_example =
    run-motor_cmd library 3 (exchanges gripping ∷ sends rest_command ∷ receives ∷ []) (transport 1)
