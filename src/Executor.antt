-- ===== src/Executor.antt =====
-- src/interface/trajectory_executor.cpp: submitting a trajectory and ticking it. The target that
-- `tick` writes to its sink is a result. `fuel` bounds the loops of `wrap_to_pi`.
pub mod Sample
pub mod Submit
pub mod Tick
use kinova_gen3_driver.Prelude.{
  ℕ, Bool, true, false, not, ◌&&◌, Option, none, some, List, [], ◌∷◌, if◌then◌else◌, is_some,
}
use kinova_gen3_driver.Double.{
  Double, ◌+ᵈ◌, ◌-ᵈ◌, ◌*ᵈ◌, ◌/ᵈ◌, ◌<ᵈ◌, ◌≤ᵈ◌, nought, one, min_d, max_d,
}
use kinova_gen3_driver.Types.{
  Joint, joints, JointVec, Trajectory, JointWaypoint, Preemption, queue, latest_wins,
  ControlModeKind, position, mode_eq, ResultCode, successful, path_tolerance_violated,
}
use kinova_gen3_driver.Units.{wrap_to_pi}
use Sample.{JointTarget, sample_target, duration}

pub data SubmitResult : Type 0 where
  accepted rejected_mode_change rejected_empty rejected_speed_scale : SubmitResult
  rejected_queue rejected_timestamps : SubmitResult

pub record ExecStatus (R : Type 0) : Type 0 where
  pub active : Bool
  pub completed : Bool
  pub fraction : R
  pub error_code : ResultCode

pub record Active (R : Type 0) : Type 0 where
  pub plan : Trajectory R
  pub traj_t : R
  pub last_now_s : R
  pub started : Bool

pub record Executor (R : Type 0) : Type 0 where
  pub continuous : Joint → Bool
  pub mode : ControlModeKind
  pub active : Option (Active R)
  pub path_tol : JointVec R
  pub scale : R
  pub applied : R

abbrev pub is_queue : Preemption → Bool
is_queue queue = true
is_queue latest_wins = false

module _ {R : Type 0} ⦃d : Double R⦄ where
  abbrev pub min_segment_span : R
  min_segment_span = d.lit 1 8

  abbrev pub min_speed_scale : R
  min_speed_scale = d.lit 1 2

  unfoldable pub slew_scale : R → R → R → R
  slew_scale cur target dt =
      let max_step = d.lit 2 0 *ᵈ (if nought <ᵈ dt then dt else nought) in
      if (cur +ᵈ max_step) <ᵈ target
      then cur +ᵈ max_step
      else if target <ᵈ (cur -ᵈ max_step)
      then cur -ᵈ max_step
      else target

  unfoldable pub effective_scale : R → R → R
  effective_scale goal_scale override_scale =
      let g = if d.is_finite goal_scale then goal_scale else one in
      let o = if d.is_finite override_scale then override_scale else one in
      let s = if g <ᵈ o then g else o in
      let s1 = if one <ᵈ s then one else s in if s1 <ᵈ min_speed_scale then min_speed_scale else s1

  -- Every stamp is finite, and each waypoint is at least the span after the one before.
  unfoldable pub spaced_after : R → List (JointWaypoint R) → Bool
  spaced_after prev [] = true
  spaced_after prev (w ∷ ws) =
      d.is_finite w.t_s && ((min_segment_span ≤ᵈ (w.t_s -ᵈ prev)) && spaced_after w.t_s ws)

  unfoldable pub valid_stamps : List (JointWaypoint R) → Bool
  unfolding spaced_after
  valid_stamps [] = true
  valid_stamps (w ∷ ws) = d.is_finite w.t_s && spaced_after w.t_s ws

  unfoldable pub valid_timestamps : Trajectory R → Bool
  unfolding valid_stamps
  valid_timestamps plan = valid_stamps plan.points

  unfoldable pub new_executor : (Joint → Bool) → Executor R
  new_executor continuous = record {
    continuous = continuous;
    mode = position;
    active = none;
    path_tol = λ _. nought;
    scale = one;
    applied = one;
  }

  abbrev pub is_active : Executor R → Bool
  is_active x = is_some x.active

  abbrev pub is_empty : List (JointWaypoint R) → Bool
  is_empty [] = true
  is_empty (_ ∷ _) = false

  -- The assignments that adopt a goal: idle, or preempting.
  unfoldable pub adopt : Trajectory R → ControlModeKind → JointVec R → R → Executor R → Executor R
  adopt plan mode tol speed x = record x {
    mode = mode;
    active = some (record { plan = plan; traj_t = nought; last_now_s = nought; started = false });
    path_tol = tol;
    scale = speed;
  }

  unfoldable pub submit :
      Trajectory R
      → ControlModeKind
      → Preemption
      → JointVec R
      → R
      → Executor R
      → SubmitResult × Executor R
  submit plan mode p tol speed x =
      if is_empty plan.points
      then (rejected_empty, x)
      else if not (valid_timestamps plan)
      then (rejected_timestamps, x)
      else if not ((min_speed_scale ≤ᵈ speed) && (speed ≤ᵈ one))
      then (rejected_speed_scale, x)
      else if is_active x && not (mode_eq mode x.mode)
      then (rejected_mode_change, x)
      else if not (is_active x)
      then (accepted, adopt plan mode tol speed x)
      else if is_queue p
      then (rejected_queue, x)
      else (accepted, adopt plan x.mode tol speed x)

module _ {R : Type 0} ⦃d : Double R⦄ (fuel : ℕ) where
  -- One round of the divergence guard.
  unfoldable pub diverges : Executor R → JointVec R → JointVec R → Joint → Bool
  diverges x q_meas q_desired i =
      let raw = q_meas i -ᵈ q_desired i in
      let err = if x.continuous i then wrap_to_pi fuel raw else raw in
      (nought <ᵈ x.path_tol i) && (x.path_tol i <ᵈ d.abs err)

  unfoldable pub any_diverges : Executor R → JointVec R → JointVec R → List Joint → Bool
  any_diverges x q_meas q_desired [] = false
  any_diverges x q_meas q_desired (i ∷ is) =
      let rest = any_diverges x q_meas q_desired is in
      if diverges x q_meas q_desired i then true else rest

module _ {R : Type 0} ⦃d : Double R⦄ where
  -- The trajectory clock after this tick, with the scale in force.
  unfoldable pub advance : R → R → Active R → Active R
  advance now applied a =
      let last = if a.started then a.last_now_s else now in
      let t = if a.started then a.traj_t else nought in
      let dt_wall = now -ᵈ last in
      record a {
        last_now_s = now;
        started = true;
        traj_t = if nought <ᵈ dt_wall then t +ᵈ dt_wall *ᵈ applied else t;
      }

  -- The reference at the trajectory clock, its derivatives in wall time.
  unfoldable pub reference_at : R → Active R → JointTarget R
  reference_at applied a =
      let t = sample_target a.plan a.traj_t in
      record t { qd = λ i. t.qd i *ᵈ applied; qdd = λ i. t.qdd i *ᵈ (applied *ᵈ applied) }

  unfoldable pub fraction_of : Active R → R
  fraction_of a =
      let dur = duration a.plan in
      if nought <ᵈ dur then min_d one (max_d nought (a.traj_t /ᵈ dur)) else one

module _ {R : Type 0} ⦃d : Double R⦄ (fuel : ℕ) where
  abbrev idle_status : ExecStatus R
  idle_status = record {
    active = false;
    completed = false;
    fraction = nought;
    error_code = successful;
  }

  unfoldable pub tick_active :
      R
      → JointVec R
      → R
      → Active R
      → Executor R
      → ExecStatus R × Option (JointTarget R) × Executor R
  tick_active now q_meas speed a x =
      let applied = effective_scale x.scale speed in
      let a' = advance now applied a in
      let ref = reference_at applied a' in
      let frac = fraction_of a' in
      if any_diverges fuel x q_meas ref.q joints
      then (
        record {
          active = false;
          completed = true;
          fraction = frac;
          error_code = path_tolerance_violated;
        },
        some ref,
        record x { active = none; applied = applied },
      )
      else if duration a'.plan ≤ᵈ a'.traj_t
      then (
        record { active = false; completed = true; fraction = one; error_code = successful },
        some ref,
        record x { active = none; applied = applied },
      )
      else (
        record { active = true; completed = false; fraction = frac; error_code = successful },
        some ref,
        record x { active = some a'; applied = applied },
      )

  unfoldable pub tick :
      R → JointVec R → R → Executor R → ExecStatus R × Option (JointTarget R) × Executor R
  unfolding tick_active
  tick now q_meas speed x = elim (x.active) [
    | none ↦ (idle_status, none, x)
    | some a ↦ tick_active now q_meas speed a x
  ]
