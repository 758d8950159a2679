-- ===== src/Kortex.antt =====
-- src/kortex_transport.cpp and src/kortex_cyclic.h: the transport to a real arm. The KORTEX SDK is not
-- code of this repository: `Sdk` is what it answers, as a function of a state of its own, and the
-- objects that the driver creates from it are flags that say which are alive. A method is a
-- computation that may throw and keeps what it changed (`M`). `calls` logs, newest first, each
-- request and how it ended. `float` is taken as the same parameter as `double`; the text
-- of an error is shortened to its fixed part, prints and thread priorities are left out.
pub mod Wire
pub mod Lifecycle
pub mod Switching
pub mod Reverting
pub mod ShuttingDown
pub mod Holding
pub mod Order
pub mod Route
pub mod Connecting
pub mod Gripping
use Prim.Native.String.{◌++◌}
use text.Mathlib.Text.{starts_with}
use kinova_gen3_driver.Prelude.{
  ℕ, Bool, true, false, Option, none, some, List, [], ◌∷◌, String, if◌then◌else◌, ◌⊎◌, inl, inr,
}
use kinova_gen3_driver.Types.{
  JointVec, ActuatorMode, position_actuator, velocity_actuator, torque_actuator, current_actuator,
}

-- What the SDK throws: `KDetailedException`, another `std::runtime_error`, anything else.
pub data SdkError : Type 0 where
  detailed runtime_error : String → SdkError
  other_error : SdkError

-- What the transport throws: `TransportTimeout`, `ArmRejected`, another `std::runtime_error` of its
-- own, `std::invalid_argument`, or what the SDK threw, unchanged.
pub data Fault : Type 0 where
  timeout rejected runtime invalid_argument : String → Fault
  sdk_error : SdkError → Fault

-- `ActuatorConfig::ControlMode`, and what the driver tells apart of `Common::ArmState`.
pub data ControlMode : Type 0 where
  position_control velocity_control torque_control current_control : ControlMode

pub data ArmStateCode : Type 0 where
  in_fault servoing_low_level other_state : ArmStateCode

pub record ActuatorFeedback (R : Type 0) : Type 0 where
  pub position : R
  pub velocity : R
  pub torque : R
  pub current_motor : R
  pub fault_bank_a : ℕ
  pub fault_bank_b : ℕ

pub record MotorFeedback (R : Type 0) : Type 0 where
  pub position : R
  pub current_motor : R

-- `BaseCyclic::Feedback`; `motor` is motor 0 of the interconnect's gripper, if it reports one.
pub record Feedback (R : Type 0) : Type 0 where
  pub frame_id : ℕ
  pub actuators : JointVec (ActuatorFeedback R)
  pub base_fault_bank_a : ℕ
  pub base_fault_bank_b : ℕ
  pub active_state : ArmStateCode
  pub motor : Option (MotorFeedback R)

pub record ActuatorCommand (R : Type 0) : Type 0 where
  pub position : R
  pub velocity : R
  pub torque_joint : R
  pub current_motor : R
  pub command_id : ℕ

pub record MotorCommand (R : Type 0) : Type 0 where
  pub position : R
  pub velocity : R
  pub force : R

-- `BaseCyclic::Command`; `motor_cmd` is absent until a gripper command has been written.
pub record Command (R : Type 0) : Type 0 where
  pub frame_id : ℕ
  pub actuators : JointVec (ActuatorCommand R)
  pub motor_cmd : Option (MotorCommand R)

-- Requests over the control channel, and the life of the connections. A device id counts from 1.
pub data Request : Type 0 where
  connect_tcp connect_udp create_tcp_session create_udp_session get_actuator_count : Request
  get_control_mode : ℕ → Request
  set_control_mode : ControlMode → ℕ → Request
  set_low_level set_single_level get_arm_state clear_arm_faults : Request
  close_tcp_session close_udp_session disconnect_tcp disconnect_udp : Request

pub data CyclicRequest (R : Type 0) : Type 0 where
  refresh refresh_command : Command R → CyclicRequest R
  refresh_feedback : CyclicRequest R

-- The answer of a request; each reads the field that it asks for.
pub record Answer : Type 0 where
  pub count : ℕ
  pub arm_state : ArmStateCode

-- `frame parses f`: a reply whose payload leaves `f` in the message it is parsed into.
pub data CyclicAnswer (R : Type 0) : Type 0 where
  send_failed get_failed : SdkError → CyclicAnswer R
  no_reply : CyclicAnswer R
  frame : Bool → Feedback R → CyclicAnswer R

pub record Sdk (R W : Type 0) : Type 0 where
  pub request : Request → W → (SdkError ⊎ Answer) × W
  pub cyclic : CyclicRequest R → W → CyclicAnswer R × W

-- How a request ended: with an answer, with an error reply of the arm, or otherwise.
pub data Ending : Type 0 where
  answered refused unanswered_ : Ending

pub data Call (R : Type 0) : Type 0 where
  asked : Request → Ending → Call R
  cycled : CyclicRequest R → Call R

-- `KortexTransport::Impl`. The pointers are flags; `world` is the state of the SDK and of the arm.
pub record Kortex (R W : Type 0) : Type 0 where
  pub tcp : Bool
  pub udp : Bool
  pub tcp_router : Bool
  pub udp_router : Bool
  pub tcp_sess : Bool
  pub udp_sess : Bool
  pub base : Bool
  pub base_cyclic : Bool
  pub act_cfg : Bool
  pub cmd : Command R
  pub fb : Feedback R
  pub n : ℕ
  pub frame_id : ℕ
  pub connected : Bool
  pub unanswered : Bool
  pub low_level : Bool
  pub world : W
  pub calls : List (Call R)

abbrev pub M : Type 0 → Type 0 → Type 0 → Type 0
M R W A = Kortex R W → (Fault ⊎ A) × Kortex R W

abbrev pub go_on :
    {R W A B : Type 0} → (A → M R W B) → (Fault ⊎ A) × Kortex R W → (Fault ⊎ B) × Kortex R W
go_on f (inl e, k) = (inl e, k)
go_on f (inr a, k) = f a k

infixl 5 ◌>>=◌ ◌>>◌
abbrev pub ◌>>=◌ : {R W A B : Type 0} → M R W A → (A → M R W B) → M R W B
◌>>=◌ m f k = go_on f (m k)

abbrev pub ◌>>◌ : {R W B : Type 0} → M R W (Unit {0}) → M R W B → M R W B
m >> n = m >>= λ _. n

abbrev pub pure : {R W A : Type 0} → A → M R W A
pure a k = (inr a, k)

abbrev pub throw : {R W A : Type 0} → Fault → M R W A
throw e k = (inl e, k)

abbrev pub modify : {R W : Type 0} → (Kortex R W → Kortex R W) → M R W (Unit {0})
modify f k = (inr tt, f k)

-- `I` of the state that an exception leaves, `Q` of what is returned and of its state.
abbrev pub After :
    {R W A : Type 0}
    → (Kortex R W → Type 0)
    → (A → Kortex R W → Type 0)
    → (Fault ⊎ A) × Kortex R W
    → Type 0
After I Q (inl e, k) = I k
After I Q (inr a, k) = Q a k

pub go_on-After :
    {R W A B : Type 0} (I : Kortex R W → Type 0) (Q : A → Kortex R W → Type 0)
    (S : B → Kortex R W → Type 0) (r : (Fault ⊎ A) × Kortex R W) (f : A → M R W B)
    → After I Q r
    → ((a : A) (k : Kortex R W) → Q a k → After I S (f a k))
    → After I S (go_on f r)
go_on-After I Q S (inl e, k) f p q = p
go_on-After I Q S (inr a, k) f p q = q a k p

-- What holds of the state however the computation ended.
pub After-of :
    {R W A : Type 0} (I : Kortex R W → Type 0) (Q : A → Kortex R W → Type 0)
    (r : (Fault ⊎ A) × Kortex R W)
    → I r.1
    → ((a : A) → Q a r.1)
    → After I Q r
After-of I Q (inl e, k) p q = p
After-of I Q (inr a, k) p q = q a

abbrev pub ending : {A : Type 0} → SdkError ⊎ A → Ending
ending (inr _) = answered
ending (inl (detailed _)) = refused
ending (inl _) = unanswered_

unfoldable pub to_kortex_mode : ActuatorMode → ControlMode
to_kortex_mode position_actuator = position_control
to_kortex_mode velocity_actuator = velocity_control
to_kortex_mode torque_actuator = torque_control
to_kortex_mode current_actuator = current_control

-- What `rpc` makes of an outcome: the text is all that tells an RPC timeout apart.
unfoldable pub classify : {A : Type 0} → SdkError ⊎ A → Fault ⊎ A
classify (inr a) = inr a
classify (inl (detailed w)) = inl (rejected ("KortexTransport: arm rejected the request: " ++ w))
classify (inl (runtime_error w)) =
    inl (if starts_with w "timeout detected" then timeout w else sdk_error (runtime_error w))
classify (inl other_error) = inl (sdk_error other_error)

-- What `kortex_cyclic_call` makes of the send, of the wait and of the reply.
unfoldable pub classify_cyclic : {R : Type 0} → CyclicAnswer R → Fault ⊎ (Bool × Feedback R)
classify_cyclic (send_failed (detailed w)) =
    inl (rejected ("KortexTransport: BaseCyclic send failed: " ++ w))
classify_cyclic (send_failed (runtime_error w)) =
    inl (timeout ("KortexTransport: BaseCyclic send failed: " ++ w))
classify_cyclic (send_failed other_error) = inl (sdk_error other_error)
classify_cyclic no_reply =
    inl (timeout "KortexTransport: no BaseCyclic reply within the cyclic timeout")
classify_cyclic (get_failed (detailed w)) =
    inl (rejected ("KortexTransport: arm rejected the cyclic call: " ++ w))
classify_cyclic (get_failed e) = inl (sdk_error e)
classify_cyclic (frame parses f) = inr (parses, f)

abbrev pub parse_feedback : {R W : Type 0} → Bool × Feedback R → M R W (Unit {0})
parse_feedback (true, f) k = (inr tt, record k { fb = f })
parse_feedback (false, f) k =
    (inl (runtime "KortexTransport: unparseable BaseCyclic feedback"), record k { fb = f })

module _ {R W : Type 0} (sdk : Sdk R W) where
  -- A request as the SDK makes it, its exceptions unclassified.
  unfoldable pub ask : Request → Kortex R W → (SdkError ⊎ Answer) × Kortex R W
  ask r k =
      let (a, w) = sdk.request r k.world in
      (a, record k { world = w; calls = asked r (ending a) ∷ k.calls })

  unfoldable pub rpc : Request → M R W Answer
  unfolding ask classify
  rpc r k = let (a, k') = ask r k in (classify a, k')

  unfoldable pub cyclic_call : CyclicRequest R → M R W (Bool × Feedback R)
  unfolding classify_cyclic
  cyclic_call r k =
      let (a, w) = sdk.cyclic r k.world in
      (classify_cyclic a, record k { world = w; calls = cycled r ∷ k.calls })

  -- Send `cmd_` and store the reply.
  unfoldable pub send_refresh : M R W (Unit {0})
  unfolding cyclic_call
  send_refresh k = (cyclic_call (refresh k.cmd) >>= parse_feedback) k
