-- ===== src/Modes.antt =====
-- The control modes, src/joint_torque_mode.cpp, joint_velocity_mode.cpp, joint_position_mode.cpp,
-- joint_impedance_mode.cpp and float_mode.cpp, and what they share: a value that another thread
-- publishes in one of two slots, and the limits that they read from the rigid-body model.
pub mod JointTorque
pub mod JointVelocity
pub mod JointPosition
pub mod Float
pub mod JointImpedance
pub mod CartesianImpedance
use kinova_gen3_driver.Prelude.{Bool, true, false, not, ◌&&◌, if◌then◌else◌, if-both}
use kinova_gen3_driver.Double.{Double}
use kinova_gen3_driver.Types.{Joint, JointVec}

-- A double buffer with one writer: the value is stored in the slot that is not active, then the index
-- is switched.
pub record Slots (A : Type 0) : Type 0 where
  pub slot0 : A
  pub slot1 : A
  pub second : Bool

abbrev pub both : {A : Type 0} → A → Slots A
both a = record { slot0 = a; slot1 = a; second = false }

abbrev pub publish : {A : Type 0} → A → Slots A → Slots A
publish a b =
    if b.second
    then record b { slot0 = a; second = false }
    else record b { slot1 = a; second = true }

abbrev pub published : {A : Type 0} → Slots A → A
published b = if b.second then b.slot1 else b.slot0

-- What `Dynamics::joint_limits` and `Dynamics::velocity_limits` give.
pub record JointLimits (R : Type 0) : Type 0 where
  pub q_lower : JointVec R
  pub q_upper : JointVec R
  pub v_max : JointVec R

module _ {R : Type 0} ⦃d : Double R⦄ where
  -- A joint without finite limits turns freely.
  abbrev pub continuous : JointLimits R → Joint → Bool
  continuous u i = not (d.is_finite (u.q_lower i)) && not (d.is_finite (u.q_upper i))

-- What holds of both slots and of a new value holds of both slots after it is published.
pub publish-both :
    {A : Type 0} (P : A → Type 0) (a : A) (b : Slots A)
    → P a
    → P b.slot0
    → P b.slot1
    → P (publish a b).slot0 × P (publish a b).slot1
publish-both P a b p q r =
    if-both (λ s. P s.slot0 × P s.slot1) b.second (record b { slot0 = a; second = false })
      (record b { slot1 = a; second = true }) (p, r) (q, p)
