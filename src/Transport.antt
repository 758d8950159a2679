-- ===== src/Transport.antt =====
-- include/kinova_lowlevel/transport.h: what every transport offers, as operations on a state; the two
-- decorators, the snapshot of include/kinova_lowlevel/feedback_tap.h and the stamping of
-- include/kinova_lowlevel/gripper_controller.h; the transport of src/kortex_transport.cpp behind the
-- interface; and a caller with its own feedback variable.
pub mod Decorated
pub mod Sim
use kinova_gen3_driver.Prelude.{
  ℕ, Bool, true, false, Option, none, some, List, [], ◌∷◌, ◌⊎◌, inl, inr, String,
}
use kinova_gen3_driver.Double.{Double}
use kinova_gen3_driver.Types.{JointVec, ActuatorMode, JointCommand, JointFeedback}
use kinova_gen3_driver.Gripper.{GripperController, stamp}
use kinova_gen3_driver.Kortex.{Fault, Kortex, Sdk}
use kinova_gen3_driver.Kortex.Wire
use kinova_gen3_driver.Kortex.Lifecycle
use kinova_gen3_driver.Kortex.Switching

-- What a call throws, if anything, comes first; the caller's feedback is passed in and out.
pub record Transport (R T : Type 0) : Type 0 where
  pub connect : T → Option Fault × T
  pub set_servoing_low_level : T → Option Fault × T
  pub set_actuator_modes : JointVec ActuatorMode → Option (JointCommand R) → T → Option Fault × T
  pub exchange : JointCommand R → JointFeedback R → T → Option Fault × JointFeedback R × T
  pub send : JointCommand R → T → Option Fault × T
  pub receive : JointFeedback R → T → Option Fault × JointFeedback R × T
  pub safe_shutdown : T → T
  pub release_low_level : T → T
  pub arm_in_fault : T → (Fault ⊎ Bool) × T
  pub clear_faults : T → T

-- `FeedbackTap`: the wrapped transport, and what the snapshot holds, none before the first store.
pub record Tapped (R T : Type 0) : Type 0 where
  pub inner : T
  pub snapshot : Option (JointFeedback R)

-- `GripperController` as a transport.
pub record Gripped (R T : Type 0) : Type 0 where
  pub inner : T
  pub controller : GripperController R

-- A frame as it goes out: with the gripper command of the controller.
abbrev pub stamped :
    {R : Type 0} ⦃d : Double R⦄ → GripperController R → JointCommand R → JointCommand R
stamped g c = record c { gripper = stamp g }

module _ {R T : Type 0} where
  abbrev on_inner : {A : Type 0} → A × T → Tapped R T → A × Tapped R T
  on_inner (a, t) s = (a, record s { inner = t })

  -- A call that gives feedback is followed by a store, unless it threw.
  abbrev pub published :
      Option Fault × JointFeedback R × T → Tapped R T → Option Fault × JointFeedback R × Tapped R T
  published (none, fb, t) s = (none, fb, record s { inner = t; snapshot = some fb })
  published (some e, fb, t) s = (some e, fb, record s { inner = t })

  unfoldable pub tapped : Transport R T → Transport R (Tapped R T)
  tapped x = record {
    connect = λ s. on_inner (x.connect s.inner) s;
    set_servoing_low_level = λ s. on_inner (x.set_servoing_low_level s.inner) s;
    set_actuator_modes = λ m h s. on_inner (x.set_actuator_modes m h s.inner) s;
    exchange = λ c fb s. published (x.exchange c fb s.inner) s;
    send = λ c s. on_inner (x.send c s.inner) s;
    receive = λ fb s. published (x.receive fb s.inner) s;
    safe_shutdown = λ s. record s { inner = x.safe_shutdown s.inner };
    release_low_level = λ s. record s { inner = x.release_low_level s.inner };
    arm_in_fault = λ s. on_inner (x.arm_in_fault s.inner) s;
    clear_faults = λ s. record s { inner = x.clear_faults s.inner };
  }

  abbrev on_gripped : {A : Type 0} → A × T → Gripped R T → A × Gripped R T
  on_gripped (a, t) s = (a, record s { inner = t })

  abbrev pub fed_back :
      Option Fault × JointFeedback R × T
      → Gripped R T
      → Option Fault × JointFeedback R × Gripped R T
  fed_back (e, fb, t) s = (e, fb, record s { inner = t })

  unfoldable pub gripped : ⦃d : Double R⦄ → Transport R T → Transport R (Gripped R T)
  gripped x = record {
    connect = λ s. on_gripped (x.connect s.inner) s;
    set_servoing_low_level = λ s. on_gripped (x.set_servoing_low_level s.inner) s;
    set_actuator_modes = λ m h s. on_gripped (x.set_actuator_modes m h s.inner) s;
    exchange = λ c fb s. fed_back (x.exchange (stamped s.controller c) fb s.inner) s;
    send = λ c s. on_gripped (x.send (stamped s.controller c) s.inner) s;
    receive = λ fb s. fed_back (x.receive fb s.inner) s;
    safe_shutdown = λ s. record s { inner = x.safe_shutdown s.inner };
    release_low_level = λ s. record s { inner = x.release_low_level s.inner };
    arm_in_fault = λ s. on_gripped (x.arm_in_fault s.inner) s;
    clear_faults = λ s. record s { inner = x.clear_faults s.inner };
  }

-- The transport to a real arm; a call that throws leaves the caller's feedback as it was.
module _ {R W : Type 0} ⦃d : Double R⦄ (sdk : Sdk R W) (fuel : ℕ)
    (route : Fault ⊎ Option String) where
  abbrev thrown : {A : Type 0} → (Fault ⊎ A) × Kortex R W → Option Fault × Kortex R W
  thrown (inl e, k) = (some e, k)
  thrown (inr a, k) = (none, k)

  abbrev read_into :
      JointFeedback R
      → (Fault ⊎ JointFeedback R) × Kortex R W
      → Option Fault × JointFeedback R × Kortex R W
  read_into fb (inl e, k) = (some e, fb, k)
  read_into fb (inr now, k) = (none, now, k)

  unfoldable pub kortex : Transport R (Kortex R W)
  kortex = record {
    connect = λ k. thrown (Lifecycle.connect sdk route k);
    set_servoing_low_level = λ k. thrown (Wire.set_servoing_low_level sdk k);
    set_actuator_modes = λ m h k. thrown (Switching.set_actuator_modes sdk m h k);
    exchange = λ c fb k. read_into fb (Wire.exchange sdk fuel c k);
    send = λ c k. thrown (Wire.send sdk c k);
    receive = λ fb k. read_into fb (Wire.receive sdk fuel k);
    safe_shutdown = λ k. Lifecycle.safe_shutdown sdk k;
    release_low_level = λ k. Lifecycle.release_low_level sdk k;
    arm_in_fault = λ k. Lifecycle.arm_in_fault sdk k;
    clear_faults = λ k. Lifecycle.clear_faults sdk k;
  }

pub data Order (R : Type 0) : Type 0 where
  connects enters shuts releases asks_fault clears receives : Order R
  switches : JointVec ActuatorMode → Option (JointCommand R) → Order R
  exchanges sends : JointCommand R → Order R

-- The caller: its feedback variable, and how each call ended, newest first.
pub record Caller (R T : Type 0) : Type 0 where
  pub fb : JointFeedback R
  pub endings : List (Fault ⊎ Bool)
  pub transport : T

abbrev pub ended : Option Fault → Fault ⊎ Bool
ended none = inr false
ended (some e) = inl e

module _ {R T : Type 0} where
  abbrev pub note : Option Fault × T → Caller R T → Caller R T
  note (e, t) c = record c { endings = ended e ∷ c.endings; transport = t }

  abbrev pub note_fb : Option Fault × JointFeedback R × T → Caller R T → Caller R T
  note_fb (e, fb, t) c = record { fb = fb; endings = ended e ∷ c.endings; transport = t }

  abbrev note_answer : (Fault ⊎ Bool) × T → Caller R T → Caller R T
  note_answer (a, t) c = record c { endings = a ∷ c.endings; transport = t }

  unfoldable pub step : Transport R T → Order R → Caller R T → Caller R T
  step x connects c = note (x.connect c.transport) c
  step x enters c = note (x.set_servoing_low_level c.transport) c
  step x shuts c = note (none, x.safe_shutdown c.transport) c
  step x releases c = note (none, x.release_low_level c.transport) c
  step x asks_fault c = note_answer (x.arm_in_fault c.transport) c
  step x clears c = note (none, x.clear_faults c.transport) c
  step x receives c = note_fb (x.receive c.fb c.transport) c
  step x (switches m h) c = note (x.set_actuator_modes m h c.transport) c
  step x (exchanges cmd) c = note_fb (x.exchange cmd c.fb c.transport) c
  step x (sends cmd) c = note (x.send cmd c.transport) c

  unfoldable pub run : Transport R T → List (Order R) → Caller R T → Caller R T
  unfolding step
  run x [] c = c
  run x (o ∷ os) c = run x os (step x o c)
