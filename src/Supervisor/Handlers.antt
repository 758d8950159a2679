-- ===== src/Supervisor/Handlers.antt =====
-- The other handlers of supervisor.cpp: trajectory goals, gains, speed, contact, gripper and link.
use kinova_gen3_driver.Prelude.{
  Bool, true, false, not, ◌&&◌, ◌||◌, Option, none, some, [], ◌∷◌, ◌++◌, String, if◌then◌else◌,
}
use Prim.Native.String.{◌++◌ as join}
use kinova_gen3_driver.Double.{Double, ◌<ᵈ◌, nought, one}
use kinova_gen3_driver.Types.{
  HaltReason, contact, arm_unavailable, GoalResponse, accept_goal, reject_goal, CancelResponse,
  accept_cancel, GoalId, TrajectoryGoal, CancelRequest, position, impedance, velocity, torque,
  GainsRequest, GainsResult, SpeedOverrideRequest, SpeedResult, ArmState, ContactThresholdsRequest,
  ContactThresholdsResult, ContactState, ContactStatus, enforce, settling, default_theta,
  GripperSetpoint, GripperState, LinkState, running, faulted, connecting,
}
use kinova_gen3_driver.Executor.{valid_timestamps, min_speed_scale, is_empty}
use kinova_gen3_driver.Gains.{validate_custom, known_profile, resolve_gains}
use kinova_gen3_driver.Contact.{resolve_contact}
use kinova_gen3_driver.Monitor.{Monitor, set_thresholds, request_clear}
use kinova_gen3_driver.Gripper.{set_target}
use kinova_gen3_driver.Supervisor.{
  Supervisor, World, goal_in, cancel_in, request_mode, emit, contact_latched,
}
use kinova_gen3_driver.Supervisor.Streams.{is_kind, is_session_default, is_custom, on_halt}

abbrev gains_refused : String → GainsResult
gains_refused m = record { accepted = false; message = m }

-- `ContactStatus{}`.
abbrev pub blank_status : {R : Type 0} ⦃d : Double R⦄ → ContactStatus R
blank_status = record {
  detection = enforce;
  phase = settling;
  settled = false;
  r = λ _. nought;
  theta = λ _. nought;
  would_trips = 0;
  bad_samples = 0;
  has_trip = false;
  last = record {
    cycle = 0;
    joint = none;
    r = λ _. nought;
    theta = λ _. nought;
    q = λ _. nought;
    qd = λ _. nought;
  };
}

module _ {R : Type 0} ⦃d : Double R⦄ where
  -- A goal that carries gains which cannot act, or custom ones that fail validation.
  unfoldable pub bad_gains : TrajectoryGoal R → Bool
  bad_gains g =
      is_kind g.control_mode position && not (is_session_default g.gains.profile)
      || is_kind g.control_mode impedance
        && (is_custom g.gains.profile && not (validate_custom g.gains.custom_values).ok)

  unfoldable pub on_trajectory_goal : TrajectoryGoal R → Supervisor R → GoalResponse
  on_trajectory_goal g s =
      if not s.ready
      then reject_goal
      else if contact_latched s
      then reject_goal
      else if s.stream_open
      then reject_goal
      else if is_empty g.trajectory.points
      then reject_goal
      else if not (valid_timestamps g.trajectory)
      then reject_goal
      else if not (d.is_finite g.speed_scale)
          || (g.speed_scale <ᵈ min_speed_scale || one <ᵈ g.speed_scale)
      then reject_goal
      else if is_kind g.control_mode velocity || is_kind g.control_mode torque
      then reject_goal
      else if not (known_profile g.gains.profile)
      then reject_goal
      else if bad_gains g
      then reject_goal
      else if s.in_flight && not (is_kind g.control_mode s.active_mode_kind)
      then reject_goal
      else accept_goal

  -- What marks a goal that arrives while the arm cannot run it.
  unfoldable pub arrival_mark : Supervisor R → Option HaltReason
  arrival_mark s =
      if contact_latched s then some contact else if not s.ready then some arm_unavailable else none

  unfoldable pub on_trajectory_accepted : GoalId → TrajectoryGoal R → Supervisor R → Supervisor R
  on_trajectory_accepted id g s = record s {
    inbox = s.inbox ++ (goal_in id g (arrival_mark s) ∷ []);
  }

  unfoldable pub on_trajectory_cancel : CancelRequest → Supervisor R → CancelResponse × Supervisor R
  on_trajectory_cancel c s = (accept_cancel, record s { inbox = s.inbox ++ (cancel_in c.id ∷ []) })

  -- Leaving `kRunning`: refuse, halt once per outage, and line position mode up.
  unfoldable pub link_down : World R → Supervisor R → Supervisor R
  link_down w s =
      if not s.ready
      then s
      else emit (request_mode position)
          (record (on_halt arm_unavailable w (record s { ready = false })) {
            active_mode_kind = position;
          })

  unfoldable pub on_link_state : LinkState → World R → Supervisor R → Supervisor R
  on_link_state running w s = record s { ready = true }
  on_link_state connecting w s = link_down w s
  on_link_state faulted w s = link_down w s

  unfoldable pub on_set_gains : GainsRequest R → Supervisor R → GainsResult × Supervisor R
  on_set_gains r s =
      if not (known_profile r.spec.profile)
      then (gains_refused "unknown gains profile: expected soft, medium, stiff or custom", s)
      else if is_session_default r.spec.profile
      then (gains_refused "set_gains needs a named profile or custom gains", s)
      else if is_custom r.spec.profile && not (validate_custom r.spec.custom_values).ok
      then (gains_refused ((validate_custom r.spec.custom_values).message), s)
      else (
        record { accepted = true; message = "" },
        elim (resolve_gains r.spec s.session_default_params) [
          | none ↦ record s { terminated = true }
          | some p ↦ record s { session_default_params = p }
        ],
      )

  unfoldable pub set_speed_override : R → Supervisor R → SpeedResult × Supervisor R
  set_speed_override x s =
      if not (d.is_finite x)
      then (record { accepted = false; message = "speed override must be finite" }, s)
      else if x <ᵈ min_speed_scale || one <ᵈ x
      then (
        record {
          accepted = false;
          message =
              join "speed override must be in ["
                (join (d.show min_speed_scale) (join ", 1.0]; got " (d.show x)));
        },
        s,
      )
      else (record { accepted = true; message = "" }, record s { speed_override = x })

  unfoldable pub on_set_speed_override :
      SpeedOverrideRequest R → Supervisor R → SpeedResult × Supervisor R
  on_set_speed_override r s = set_speed_override r.scale s

  unfoldable pub on_query_state : Supervisor R → ArmState R
  on_query_state s = s.state_snap

  abbrev active_thresholds : Bool → String → Supervisor R → ContactThresholdsResult R
  active_thresholds ok m s = record {
    accepted = ok;
    message = m;
    profile = s.contact_profile;
    theta = s.contact_theta;
  }

  unfoldable pub with_monitor_thresholds :
      ContactThresholdsRequest R
      → Monitor R
      → Supervisor R
      → ContactThresholdsResult R × Supervisor R
  with_monitor_thresholds r m s =
      let (c, theta) = resolve_contact r s.contact_profiles in
      elim theta [
        | none ↦ (active_thresholds false c.message s, s)
        | some t ↦
            let s' = record s {
              monitor = some (set_thresholds t m);
              contact_profile = r.profile;
              contact_theta = t;
            } in
            (active_thresholds true "" s', s')
      ]

  unfoldable pub on_set_contact_thresholds :
      ContactThresholdsRequest R → Supervisor R → ContactThresholdsResult R × Supervisor R
  on_set_contact_thresholds r s = elim (s.monitor) [
    | none ↦ (
      record {
        accepted = false;
        message = "contact detection not available";
        profile = default_theta;
        theta = λ _. nought;
      },
      s,
    )
    | some m ↦ with_monitor_thresholds r m s
  ]

  -- `contact_->status(st)`: `status_whole` is false for a torn read.
  unfoldable pub on_query_contact : World R → Supervisor R → ContactState R × Supervisor R
  on_query_contact w s = elim (s.monitor) [
    | none ↦ (record { enabled = false; profile = default_theta; status = blank_status }, s)
    | some m ↦
        let s' = if w.status_whole then record s { contact_status = m.published } else s in
        (record { enabled = true; profile = s.contact_profile; status = s'.contact_status }, s')
  ]

  -- The body of `clear_contact`; the halt leaves the monitor alone.
  unfoldable pub clear_latched : Monitor R → World R → Supervisor R → Supervisor R
  clear_latched m w s =
      record (emit (request_mode position)
        (record (on_halt contact w s) { active_mode_kind = position })) {
          monitor = some (request_clear m);
          contact_cleared = true;
        }

  unfoldable pub clear_contact : World R → Supervisor R → Bool × Supervisor R
  clear_contact w s = elim (s.monitor) [
    | none ↦ (false, s)
    | some m ↦ if not m.latched then (false, s) else (true, clear_latched m w s)
  ]

  unfoldable pub on_gripper_setpoint : GripperSetpoint R → Supervisor R → Supervisor R
  on_gripper_setpoint p s =
      if not s.has_grip
      then s
      else if not s.ready || contact_latched s
      then s
      else record s { grip = set_target p.command s.grip }

  unfoldable pub on_query_gripper : World R → Supervisor R → GripperState R
  on_query_gripper w s = if not s.has_grip then absent else elim (w.snap) [
    | none ↦ absent
    | some fb ↦ record {
      position = fb.gripper.position;
      effort = fb.gripper.effort;
      current = fb.gripper.current;
      present = fb.gripper.present;
      stamp_s = w.now_s;
    }
  ]
    where
      absent : GripperState R
      absent = record {
        position = nought;
        effort = nought;
        current = nought;
        present = false;
        stamp_s = nought;
      }
