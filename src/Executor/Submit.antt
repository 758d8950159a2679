-- ===== src/Executor/Submit.antt =====
-- Which goals `submit` takes, and what it leaves alone.
use kinova_gen3_driver.Prelude.{
  ◌≡◌, ◌↔◌, inl, inr, sym, subst, ap, ◌∙◌, Bool, true, false, some, arith, if◌then◌else◌, List, [],
  ◌∷◌, List-cases,
}
use kinova_gen3_driver.Double.{Double, IsOrdered, ◌≤ᵈ◌, ◌-ᵈ◌, nought, one}
use kinova_gen3_driver.Types.{
  JointVec, JointWaypoint, Trajectory, Preemption, ControlModeKind, mode_eq-eq,
}
use kinova_gen3_driver.Executor.{
  Executor, SubmitResult, accepted, submit, adopt, valid_timestamps, valid_stamps, spaced_after,
  effective_scale, min_speed_scale, is_active, is_empty, is_queue,
}

abbrev pub is_accepted : SubmitResult → Bool
is_accepted accepted = true
is_accepted _ = false

module _ {R : Type 0} ⦃d : Double R⦄ where
  -- Waypoints from one on: every timestamp finite, and each at least 10 ns after the one before it.
  pub data Spaced : List (JointWaypoint R) → Type 0 where
    last : {w : JointWaypoint R} → d.is_finite w.t_s ≡ true → Spaced (w ∷ [])
    earlier :
        {w v : JointWaypoint R} {ws : List (JointWaypoint R)}
        → d.is_finite w.t_s ≡ true
        → (d.lit 1 8 ≤ᵈ (v.t_s -ᵈ w.t_s)) ≡ true
        → Spaced (v ∷ ws)
        → Spaced (w ∷ v ∷ ws)

  Spaced-valid :
      (w : JointWaypoint R) (ws : List (JointWaypoint R))
      → Spaced (w ∷ ws)
      → valid_stamps (w ∷ ws) ≡ true
  unfolding valid_stamps spaced_after
  Spaced-valid w [] (last f) = ground arith
  Spaced-valid w (v ∷ ws) (earlier f gap s) = ground (arith, Spaced-valid v ws s)

  valid-Spaced :
      (w : JointWaypoint R) (ws : List (JointWaypoint R))
      → valid_stamps (w ∷ ws) ≡ true
      → Spaced (w ∷ ws)
  unfolding valid_stamps spaced_after
  valid-Spaced w [] h = last (ground arith)
  valid-Spaced w (v ∷ ws) h =
      earlier (ground arith) (ground arith) (valid-Spaced v ws (ground arith))

  -- What a goal must be to be taken.
  pub record IsFit (plan : Trajectory R) (mode : ControlModeKind) (p : Preemption) (speed : R)
      (x : Executor R) : Type 0 where
    pub spaced : Spaced plan.points
    pub not_too_slow : (d.lit 1 2 ≤ᵈ speed) ≡ true
    pub not_too_fast : (speed ≤ᵈ one) ≡ true
    pub same_mode : is_active x ≡ true → mode ≡ x.mode
    pub no_queue : is_active x ≡ true → is_queue p ≡ false

  IsFit-accepted :
      (plan : Trajectory R) (mode : ControlModeKind) (p : Preemption) (tol : JointVec R) (speed : R)
      (x : Executor R)
      → IsFit plan mode p speed x
      → is_accepted (submit plan mode p tol speed x).0 ≡ true
  unfolding submit valid_timestamps
  IsFit-accepted plan mode p tol speed x f = elim (List-cases plan.points) [
    | inl n ↦ absurd (not_empty (subst Spaced n f.spaced))
    | inr (w, ws, n) ↦ ground (
      arith,
      mode_eq-eq mode x.mode,
      ap valid_stamps n,
      Spaced-valid w ws (subst Spaced n f.spaced),
    )
  ]
    where
      not_empty : Spaced [] → ⊥
      not_empty h = elim h [ ]

  accepted-IsFit :
      (plan : Trajectory R) (mode : ControlModeKind) (p : Preemption) (tol : JointVec R) (speed : R)
      (x : Executor R)
      → is_accepted (submit plan mode p tol speed x).0 ≡ true
      → IsFit plan mode p speed x
  unfolding submit valid_timestamps
  accepted-IsFit plan mode p tol speed x h = elim (List-cases plan.points) [
    | inl n ↦ ground (arith, ap is_empty n)
    | inr (w, ws, n) ↦
        let valid : valid_stamps plan.points ≡ true = ground (arith, mode_eq-eq mode x.mode) in
        record {
          spaced = subst Spaced (sym n) (valid-Spaced w ws (ap valid_stamps (sym n) ∙ valid));
          not_too_slow = ground (arith, mode_eq-eq mode x.mode);
          not_too_fast = ground (arith, mode_eq-eq mode x.mode);
          same_mode = ground (arith, mode_eq-eq mode x.mode);
          no_queue = ground (arith, mode_eq-eq mode x.mode);
        }
  ]

  submit_effect :
      (plan : Trajectory R) (mode : ControlModeKind) (p : Preemption) (tol : JointVec R) (speed : R)
      (x : Executor R)
      → let r = submit plan mode p tol speed x in
        r.1 ≡ (
          if is_accepted r.0
          then record {
            continuous = x.continuous;
            mode = mode;
            active =
                some
                  (record { plan = plan; traj_t = nought; last_now_s = nought; started = false });
            path_tol = tol;
            scale = speed;
            applied = x.applied;
          }
          else x)
  unfolding submit adopt
  submit_effect plan mode p tol speed x = ground (arith, mode_eq-eq mode x.mode)

  -- A goal is taken exactly when it has waypoints, all at finite times and each at least 10 ns after
  -- the one before it, a scale from 0.01 to 1.0 and, behind an active goal, the same mode and no
  -- queueing. A goal that is taken starts its clock anew with its own tolerance and scale; a refused
  -- one leaves the executor as it was.
  pub submit_iff :
      (plan : Trajectory R) (mode : ControlModeKind) (p : Preemption) (tol : JointVec R) (speed : R)
      (x : Executor R)
      → let r = submit plan mode p tol speed x in
        ((is_accepted r.0 ≡ true) ↔ IsFit plan mode p speed x)
        × (r.1 ≡ (
            if is_accepted r.0
            then record {
              continuous = x.continuous;
              mode = mode;
              active =
                  some
                    (record { plan = plan; traj_t = nought; last_now_s = nought; started = false });
              path_tol = tol;
              scale = speed;
              applied = x.applied;
            }
            else x))
  submit_iff plan mode p tol speed x = (
    (accepted-IsFit plan mode p tol speed x, IsFit-accepted plan mode p tol speed x),
    submit_effect plan mode p tol speed x,
  )

  -- The scale in force lies in [0.01, 1.0] whatever the goal and the override ask for, NaN and the
  -- infinities included.
  effective_scale_bounds :
      (o : IsOrdered d) (goal_scale override_scale : R)
      → ((min_speed_scale ≤ᵈ effective_scale goal_scale override_scale) ≡ true)
        × ((effective_scale goal_scale override_scale ≤ᵈ one) ≡ true)
  unfolding effective_scale
  effective_scale_bounds o goal_scale override_scale = ground (
    arith,
    o.lit_finite 1 0,
    o.lit_finite 1 2,
    o.le_refl one (o.lit_finite 1 0),
    o.le_refl min_speed_scale (o.lit_finite 1 2),
    o.lit_le 1 2 1 0 (omega arith) (omega arith) (omega arith),
    o.le_of_not_lt one goal_scale (o.lit_finite 1 0),
    o.le_of_not_lt one override_scale (o.lit_finite 1 0),
    o.le_of_not_lt goal_scale min_speed_scale,
    o.le_of_not_lt override_scale min_speed_scale,
  )
