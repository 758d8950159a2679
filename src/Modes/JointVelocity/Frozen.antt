-- ===== src/Modes/JointVelocity/Frozen.antt =====
-- src/joint_velocity_mode.cpp: a dead stream holds the arm where it is, and the speed caps stay below
-- the ratings of the joints.
use kinova_gen3_driver.Prelude.{
  ℕ, ◌≡◌, refl, sym, subst, ◌∙◌, arith, true, List, [], ◌∷◌, Bool-cases, inl, inr, if-both,
}
use kinova_gen3_driver.Double.{Double, IsOrdered, ◌≤ᵈ◌, nought, clamp_range}
use kinova_gen3_driver.Types.{Joint, JointVec, Vector6, JointFeedback, JointCommand}
use kinova_gen3_driver.Watchdog.{arm, tick}
use kinova_gen3_driver.VelocityReference.{velocity_ref_max_lead, integrate_leashed_reference}
use kinova_gen3_driver.Modes.{published, publish-both, JointLimits, continuous}
use kinova_gen3_driver.Modes.JointVelocity.{
  JointVelocityParams, JointVelocityMode, TwistSolver, Source, no_source, joint_source,
  twist_source, seed_limits, new_velocity_mode, set_velocity_params, set_velocity_target,
  set_twist_target, set_velocity_timeout, set_velocity_scale, enter_velocity, watch_stream,
  take_target, limit_command, choose_velocity, compute_velocity,
}

pub data Event (R : Type 0) : Type 0 where
  commands : JointVec R → Event R
  commands_twist : Vector6 R → Event R
  sets_params : JointVelocityParams R → Event R
  sets_timeout sets_scale : R → Event R
  enters : JointFeedback R → Event R
  computes : JointFeedback R → R → Event R

-- Nothing is commanded and the mode is not entered again.
abbrev pub IsQuiet : {R : Type 0} → List (Event R) → Type 0
IsQuiet [] = Unit
IsQuiet (commands v ∷ es) = ⊥
IsQuiet (commands_twist v ∷ es) = ⊥
IsQuiet (enters fb ∷ es) = ⊥
IsQuiet (e ∷ es) = IsQuiet es

module _ {R : Type 0} ⦃d : Double R⦄ {W : Type 0} (ts : TwistSolver R W) (fuel : ℕ)
    (out : JointCommand R) where
  unfoldable pub after : Event R → JointVelocityMode R W → JointVelocityMode R W
  after (commands v) m = set_velocity_target v m
  after (commands_twist v) m = set_twist_target v m
  after (sets_params p) m = set_velocity_params p m
  after (sets_timeout s) m = set_velocity_timeout s m
  after (sets_scale s) m = set_velocity_scale s m
  after (enters fb) m = enter_velocity ts fb m
  after (computes fb dt) m = (compute_velocity ts fuel fb dt out m).1

  unfoldable pub run : List (Event R) → JointVelocityMode R W → JointVelocityMode R W
  run [] m = m
  run (e ∷ es) m = run es (after e m)

  Dead : JointVelocityMode R W → Type 0
  Dead m = (m.frozen ≡ true) × (m.wd.count ≡ m.wd.last_seen)

  watch_stream-Dead : (dt : R) (m : JointVelocityMode R W) → Dead m → Dead (watch_stream ts dt m)
  unfolding Dead watch_stream tick
  watch_stream-Dead dt m h = ground (arith, h)

  choose_frozen :
      (fb : JointFeedback R) (m : JointVelocityMode R W)
      → m.frozen ≡ true
      → choose_velocity ts fb m ≡ record m { qd_cmd = λ _. nought; q_ref = fb.q }
  unfolding choose_velocity
  choose_frozen fb m h = ground (arith, h)

  after-Dead :
      (e : Event R) (es : List (Event R)) (m : JointVelocityMode R W)
      → IsQuiet (e ∷ es)
      → Dead m
      → Dead (after e m)
  unfolding after Dead set_velocity_params set_velocity_timeout set_velocity_scale arm
      compute_velocity
  after-Dead (commands v) es m q h = elim q [ ]
  after-Dead (commands_twist v) es m q h = elim q [ ]
  after-Dead (sets_params p) es m q h = h
  after-Dead (sets_timeout s) es m q h = h
  after-Dead (sets_scale s) es m q h = h
  after-Dead (enters fb) es m q h = elim q [ ]
  after-Dead (computes fb dt) es m q h =
      let w = watch_stream-Dead dt m h in
      ground (arith, w, choose_frozen fb (watch_stream ts dt m) w.0)

  IsQuiet-tail : (e : Event R) (es : List (Event R)) → IsQuiet (e ∷ es) → IsQuiet es
  IsQuiet-tail (commands v) es q = elim q [ ]
  IsQuiet-tail (commands_twist v) es q = elim q [ ]
  IsQuiet-tail (sets_params p) es q = q
  IsQuiet-tail (sets_timeout s) es q = q
  IsQuiet-tail (sets_scale s) es q = q
  IsQuiet-tail (enters fb) es q = elim q [ ]
  IsQuiet-tail (computes fb dt) es q = q

  run-Dead :
      (es : List (Event R)) (m : JointVelocityMode R W) → IsQuiet es → Dead m → Dead (run es m)
  unfolding run
  run-Dead [] m q h = h
  run-Dead (e ∷ es) m q h = run-Dead es (after e m) (IsQuiet-tail e es q) (after-Dead e es m q h)

  compute-Dead :
      (fb : JointFeedback R) (dt : R) (m : JointVelocityMode R W)
      → Dead m
      → let r = compute_velocity ts fuel fb dt out m in
        (r.1.qd_cmd ≡ λ _. nought)
        × (r.0.position ≡ (
            integrate_leashed_reference fuel fb.q
              (λ _. nought)
              dt
              fb.q
              velocity_ref_max_lead
              (continuous m.urdf)
              m.urdf.q_lower
              m.urdf.q_upper))
  unfolding compute_velocity Dead
  compute-Dead fb dt m h =
      let w = watch_stream-Dead dt m h in
      ground (arith, choose_frozen fb (watch_stream ts dt m) w.0)

  -- Once the stream is taken as dead, whatever limits, timeouts and speed scales are set meanwhile,
  -- disarming the timeout included, and until a new target or a new entry: every cycle commands no
  -- velocity, and the position that it commands is worked out from the measured pose of that cycle
  -- alone, so that no travel is left to finish.
  pub compute_velocity-frozen :
      (es : List (Event R)) (fb : JointFeedback R) (dt : R) (m : JointVelocityMode R W)
      → IsQuiet es
      → m.frozen ≡ true
      → m.wd.count ≡ m.wd.last_seen
      → let r = compute_velocity ts fuel fb dt out (run es m) in
        let u = (run es m).urdf in
        (r.1.qd_cmd ≡ λ _. nought)
        × (r.0.position ≡ (
            integrate_leashed_reference fuel fb.q
              (λ _. nought)
              dt
              fb.q
              velocity_ref_max_lead
              (continuous u)
              u.q_lower
              u.q_upper))
  unfolding Dead
  compute_velocity-frozen es fb dt m q f c = compute-Dead fb dt (run es m) (run-Dead es m q (f, c))

  module _ (o : IsOrdered d) (u : JointLimits R) where
    Capped : JointVelocityParams R → Type 0
    Capped p = (i : Joint) → ((nought ≤ᵈ p.max_qd i) ≡ true) × ((p.max_qd i ≤ᵈ u.v_max i) ≡ true)

    abbrev pub Rated : Type 0
    Rated = (i : Joint) → (d.is_finite (u.v_max i) ≡ true) × ((nought ≤ᵈ u.v_max i) ≡ true)

    Limited : JointVelocityMode R W → Type 0
    Limited m = (m.urdf ≡ u) × Capped m.params.slot0 × Capped m.params.slot1

    seed_limits-Capped : (p : JointVelocityParams R) → Rated → Capped (seed_limits u p)
    unfolding Capped seed_limits
    seed_limits-Capped p r i = elim (Bool-cases (d.is_finite (p.max_qd i))) [
      | inl e ↦ ground (
        arith,
        e,
        clamp_range o (p.max_qd i) nought (u.v_max i) e (o.lit_finite 0 0) (r i).0 (r i).1,
      )
      | inr e ↦ ground (
        arith,
        e,
        clamp_range o (u.v_max i) nought (u.v_max i) (r i).0 (o.lit_finite 0 0) (r i).0 (r i).1,
      )
    ]

    take_target-params :
        (fb : JointFeedback R) (p : JointVelocityParams R) (m : JointVelocityMode R W)
        → ((take_target ts fb p m).urdf ≡ m.urdf) × ((take_target ts fb p m).params ≡ m.params)
    unfolding take_target
    take_target-params fb p m = by_source m.source refl
      where
        by_source :
            (s : Source)
            → m.source ≡ s
            → ((take_target ts fb p m).urdf ≡ m.urdf) × ((take_target ts fb p m).params ≡ m.params)
        by_source no_source e = ground (arith, e)
        by_source joint_source e = ground (arith, e)
        by_source twist_source e = ground (arith, e)

    choose-params :
        (fb : JointFeedback R) (m : JointVelocityMode R W)
        → ((choose_velocity ts fb m).urdf ≡ m.urdf) × ((choose_velocity ts fb m).params ≡ m.params)
    unfolding choose_velocity limit_command
    choose-params fb m = ground (arith, take_target-params fb (published m.params) m)

    compute-params :
        (fb : JointFeedback R) (dt : R) (m : JointVelocityMode R W)
        → ((after (computes fb dt) m).urdf ≡ m.urdf)
          × ((after (computes fb dt) m).params ≡ m.params)
    unfolding after compute_velocity watch_stream
    compute-params fb dt m = ground (arith, choose-params fb (watch_stream ts dt m))

    after-Limited :
        (e : Event R) (m : JointVelocityMode R W) → Rated → Limited m → Limited (after e m)
    unfolding after Limited set_velocity_params set_velocity_timeout set_velocity_scale
        set_velocity_target set_twist_target enter_velocity
    after-Limited (commands v) m r h = h
    after-Limited (commands_twist v) m r h = h
    after-Limited (sets_params p) m r h =
        let c = subst (λ v. Capped (seed_limits v p)) (sym h.0) (seed_limits-Capped p r) in
        let b = publish-both Capped (seed_limits m.urdf p) m.params c h.1 h.2 in (h.0, b.0, b.1)
    after-Limited (sets_timeout s) m r h = h
    after-Limited (sets_scale s) m r h = h
    after-Limited (enters fb) m r h = h
    after-Limited (computes fb dt) m r h =
        let k = compute-params fb dt m in
        let c = subst (λ p. Capped p.slot0 × Capped p.slot1) (sym k.1) (h.1, h.2) in
        (k.0 ∙ h.0, c.0, c.1)

    run-Limited :
        (es : List (Event R)) (m : JointVelocityMode R W) → Rated → Limited m → Limited (run es m)
    unfolding run
    run-Limited [] m r h = h
    run-Limited (e ∷ es) m r h = run-Limited es (after e m) r (after-Limited e m r h)

    -- From its construction on, whatever limits a caller asks for, the mode never holds a speed cap
    -- that is negative or above the rating of the joint, as long as the ratings are finite and not
    -- negative.
    pub run-max_qd :
        (p : JointVelocityParams R) (w : W) (es : List (Event R)) (i : Joint)
        → Rated
        → let m = run es (new_velocity_mode u p w) in
          ((nought ≤ᵈ (published m.params).max_qd i) ≡ true)
          × (((published m.params).max_qd i ≤ᵈ u.v_max i) ≡ true)
    unfolding Limited new_velocity_mode Capped
    run-max_qd p w es i r =
        let c = seed_limits-Capped p r in
        let h = run-Limited es (new_velocity_mode u p w) r (refl, c, c) in
        if-both (λ q. ((nought ≤ᵈ q.max_qd i) ≡ true) × ((q.max_qd i ≤ᵈ u.v_max i) ≡ true))
          (run es (new_velocity_mode u p w)).params.second
          (run es (new_velocity_mode u p w)).params.slot1
          (run es (new_velocity_mode u p w)).params.slot0 (h.2 i) (h.1 i)
