-- ===== src/Arbiter.antt =====
-- src/interface/arbiter.cpp: who may command the arm. A handler returns its result and the new
-- arbiter; `down` is the state behind the three downstream sinks. Each handler runs
-- alone, as it does under the lock; the window in which `estop` latches ahead of the lock is not here.
pub mod Admission
pub mod Estop
pub mod Ownership
use kinova_gen3_driver.Prelude.{
  ℕ, ◌+◌, ◌*◌, ◌^◌, Bool, true, false, ◌&&◌, Option, none, some, String, if◌then◌else◌, ◌==◌, u64,
}
use kinova_gen3_driver.Types.{
  Token, GoalId, ArbitrationMode, enforced, disabled, HaltReason, ownership_revoked, emergency_stop,
  GoalResponse, reject_unauthorized, CancelResponse, reject_cancel, not_authorized, TrajectoryGoal,
  CancelRequest, GainsRequest, GainsResult, SpeedOverrideRequest, SpeedResult, ArmState,
  ContactThresholdsRequest, ContactThresholdsResult, ContactState, StreamOpenRequest,
  StreamOpenResult, StreamCloseRequest, JointSetpoint, PoseSetpoint, TwistSetpoint, StreamStatus,
  GripperSetpoint, GripperState, GrantResult, ArbitrationStatus,
}
use kinova_gen3_driver.Ports.{Sinks}

-- `std::mt19937_64`: a state and the next 64-bit word.
pub record Rng (G : Type 0) : Type 0 where
  pub draw : G → ℕ × G

pub record Arbiter (G D : Type 0) : Type 0 where
  pub down : D
  pub mode : ArbitrationMode
  pub rng : G
  pub owned : Bool
  pub estopped : Bool
  pub token : Token
  pub owner_id : String
  pub generation : ℕ
  pub rejected : ℕ

-- `Token{}`, the no-owner sentinel.
abbrev pub no_token : Token
no_token = 0

abbrev pub is_disabled : ArbitrationMode → Bool
is_disabled disabled = true
is_disabled enforced = false

module _ {G D : Type 0} where
  unfoldable pub init : D → ArbitrationMode → G → Arbiter G D
  init down mode rng = record {
    down = down;
    mode = mode;
    rng = rng;
    owned = false;
    estopped = false;
    token = no_token;
    owner_id = "";
    generation = 0;
    rejected = 0;
  }

  unfoldable pub admit : Arbiter G D → Token → Bool
  admit a t =
      if a.estopped then false else if is_disabled a.mode then true else a.owned && t == a.token

  unfoldable pub reject : Arbiter G D → Arbiter G D
  reject a = record a { rejected = u64 (a.rejected + 1) }

  unfoldable pub status : Arbiter G D → ArbitrationStatus
  status a = record {
    mode = a.mode;
    estopped = a.estopped;
    owned = a.owned;
    owner_id = a.owner_id;
    generation = a.generation;
    rejected_count = a.rejected;
  }

  unfoldable pub estop_clear : Arbiter G D → Arbiter G D
  estop_clear a = record a { estopped = false }

abbrev pub is_zero_token : Option Token → Bool
is_zero_token none = false
is_zero_token (some t) = t == no_token

module _ {G : Type 0} ⦃g : Rng G⦄ where
  -- Two 64-bit words, the first in the low bytes.
  unfoldable pub mint : G → Token × G
  mint s = let (a, s1) = g.draw s in let (b, s2) = g.draw s1 in (u64 a + 2 ^ 64 * u64 b, s2)

module _ {G D : Type 0} ⦃g : Rng G⦄ where
  abbrev refused_grant : String → Arbiter G D → GrantResult
  refused_grant m a = record {
    accepted = false;
    token = no_token;
    generation = a.generation;
    message = m;
  }

  -- The last locked block of `grant`, past its re-check of the latch.
  unfoldable pub adopt : String → Option Token → Arbiter G D → Arbiter G D
  unfolding mint
  adopt owner (some t) a = record a {
    token = t;
    owned = true;
    owner_id = owner;
    generation = u64 (a.generation + 1);
  }
  adopt owner none a =
      let (t, rng) = mint a.rng in
      record a {
        token = t;
        owned = true;
        owner_id = owner;
        generation = u64 (a.generation + 1);
        rng = rng;
      }

module _ {R G D : Type 0} (s : Sinks R D) where
  -- The first locked block of `grant` and the halt that follows it: a re-grant revokes first.
  unfoldable pub vacate : Arbiter G D → Arbiter G D
  vacate a =
      if a.owned
      then record a { owned = false; token = no_token; down = s.on_halt ownership_revoked a.down }
      else a

  unfoldable pub revoke : Arbiter G D → Arbiter G D
  revoke a =
      if a.owned
      then record a {
        owned = false;
        token = no_token;
        owner_id = "";
        down = s.on_halt ownership_revoked a.down;
      }
      else a

  -- Both deliveries of the halt, with nothing between them.
  unfoldable pub estop : Arbiter G D → Arbiter G D
  estop a = record a {
    estopped = true;
    owned = false;
    token = no_token;
    owner_id = "";
    down = s.on_halt emergency_stop (s.on_halt emergency_stop a.down);
  }

  unfoldable pub on_trajectory_goal : TrajectoryGoal R → Arbiter G D → GoalResponse × Arbiter G D
  unfolding admit reject
  on_trajectory_goal r a =
      if admit a r.token
      then (let (x, d) = s.on_trajectory_goal r a.down in (x, record a { down = d }))
      else (reject_unauthorized, reject a)

  unfoldable pub on_trajectory_accepted : GoalId → TrajectoryGoal R → Arbiter G D → Arbiter G D
  unfolding admit reject
  on_trajectory_accepted id r a =
      if admit a r.token then record a { down = s.on_trajectory_accepted id r a.down } else reject a

  unfoldable pub on_trajectory_cancel : CancelRequest → Arbiter G D → CancelResponse × Arbiter G D
  unfolding admit reject
  on_trajectory_cancel c a =
      if admit a c.token
      then (let (x, d) = s.on_trajectory_cancel c a.down in (x, record a { down = d }))
      else (reject_cancel, reject a)

  unfoldable pub on_set_gains : GainsRequest R → Arbiter G D → GainsResult × Arbiter G D
  unfolding admit reject
  on_set_gains r a =
      if admit a r.token
      then (let (x, d) = s.on_set_gains r a.down in (x, record a { down = d }))
      else (record { accepted = false; message = "not authorized" }, reject a)

  unfoldable pub on_set_speed_override :
      SpeedOverrideRequest R → Arbiter G D → SpeedResult × Arbiter G D
  on_set_speed_override r a =
      let (x, d) = s.on_set_speed_override r a.down in (x, record a { down = d })

  unfoldable pub on_query_state : Arbiter G D → ArmState R
  on_query_state a = s.on_query_state a.down

  unfoldable pub on_query_contact : Arbiter G D → ContactState R × Arbiter G D
  on_query_contact a = let (x, d) = s.on_query_contact a.down in (x, record a { down = d })

  -- A refusal reports what is active.
  unfoldable pub on_set_contact_thresholds :
      ContactThresholdsRequest R → Arbiter G D → ContactThresholdsResult R × Arbiter G D
  unfolding admit reject on_query_contact
  on_set_contact_thresholds r a =
      if admit a r.token
      then (let (x, d) = s.on_set_contact_thresholds r a.down in (x, record a { down = d }))
      else (let (c, a') = on_query_contact (reject a) in
          (
            record {
              accepted = false;
              message = "not authorized";
              profile = c.profile;
              theta = c.status.theta;
            },
            a',
          ))

  unfoldable pub on_query_stream : Arbiter G D → StreamStatus R
  on_query_stream a = s.on_query_stream a.down

  unfoldable pub on_halt : HaltReason → Arbiter G D → Arbiter G D
  on_halt r a = record a { down = s.on_halt r a.down }

  unfoldable pub on_stream_open : StreamOpenRequest R → Arbiter G D → StreamOpenResult × Arbiter G D
  unfolding admit reject
  on_stream_open r a =
      if admit a r.token
      then (let (x, d) = s.on_stream_open r a.down in (x, record a { down = d }))
      else (
        record { accepted = false; error_code = not_authorized; message = "not authorized" },
        reject a,
      )

  unfoldable pub on_stream_close : StreamCloseRequest → Arbiter G D → Arbiter G D
  unfolding admit reject
  on_stream_close r a =
      if admit a r.token then record a { down = s.on_stream_close r a.down } else reject a

  unfoldable pub on_setpoint_joint_position : JointSetpoint R → Arbiter G D → Arbiter G D
  unfolding admit reject
  on_setpoint_joint_position p a =
      if admit a p.token
      then record a { down = s.on_setpoint_joint_position p a.down }
      else reject a

  unfoldable pub on_setpoint_joint_velocity : JointSetpoint R → Arbiter G D → Arbiter G D
  unfolding admit reject
  on_setpoint_joint_velocity p a =
      if admit a p.token
      then record a { down = s.on_setpoint_joint_velocity p a.down }
      else reject a

  unfoldable pub on_setpoint_joint_torque : JointSetpoint R → Arbiter G D → Arbiter G D
  unfolding admit reject
  on_setpoint_joint_torque p a =
      if admit a p.token then record a { down = s.on_setpoint_joint_torque p a.down } else reject a

  unfoldable pub on_setpoint_pose : PoseSetpoint R → Arbiter G D → Arbiter G D
  unfolding admit reject
  on_setpoint_pose p a =
      if admit a p.token then record a { down = s.on_setpoint_pose p a.down } else reject a

  unfoldable pub on_setpoint_twist : TwistSetpoint R → Arbiter G D → Arbiter G D
  unfolding admit reject
  on_setpoint_twist p a =
      if admit a p.token then record a { down = s.on_setpoint_twist p a.down } else reject a

  unfoldable pub on_gripper_setpoint : GripperSetpoint R → Arbiter G D → Arbiter G D
  unfolding admit reject
  on_gripper_setpoint p a =
      if admit a p.token then record a { down = s.on_gripper_setpoint p a.down } else reject a

  unfoldable pub on_query_gripper : Arbiter G D → GripperState R
  on_query_gripper a = s.on_query_gripper a.down

module _ {R G D : Type 0} ⦃g : Rng G⦄ (s : Sinks R D) where
  unfoldable pub grant : String → Option Token → Arbiter G D → GrantResult × Arbiter G D
  unfolding vacate adopt
  grant owner t a =
      if is_zero_token t
      then (refused_grant "all-zero token" a, a)
      else if a.estopped
      then (refused_grant "e-stopped" a, a)
      else let free = vacate s a in
        if free.estopped
        then (refused_grant "e-stopped" free, free)
        else let held = adopt owner t free in
          (
            record {
              accepted = true;
              token = held.token;
              generation = held.generation;
              message = "";
            },
            held,
          )
