-- ===== src/Supervisor/Floor.antt =====
-- The gains that the supervisor may send, and the steps that send none.
use kinova_gen3_driver.Prelude.{
  ℕ, ◌≡◌, refl, Bool, true, false, not, ◌&&◌, ◌||◌, Option, none, some, List, [], ◌∷◌, arith,
  if◌then◌else◌, All,
}
use kinova_gen3_driver.Double.{Double, IsOrdered, ◌≤ᵈ◌}
use kinova_gen3_driver.Types.{
  Joint, joints, every_joint, JointVec, Vector6, HaltReason, StreamCloseCause, contact,
  contact_stop, halted, deadline_expired, ik_fault, TrajectoryResult, ImpedanceGains, impedance,
  StreamOpenRequest, ControlModeKind,
}
use kinova_gen3_driver.Gains.{
  JointImpedanceParams, resolve_gains, validate_custom, known_profile, torque_limit_floor,
}
use kinova_gen3_driver.Gains.Resolution.{
  AboveFloor, IsAccepted, resolve_gains-AboveFloor, resolve_gains_keeps,
}
use kinova_gen3_driver.Supervisor.{
  Supervisor, World, Phase, settling_goal, submitting, top, draining, ticking, Call, set_gains,
  is_contact, halt_result,
}
use kinova_gen3_driver.Supervisor.Streams.{
  is_kind, is_custom, close_stream, latch_hold, stop_velocity, on_halt, release_grip, latch_halt,
  apply_impedance_gains,
}
use kinova_gen3_driver.Supervisor.Sampler.{
  push_speed, contact_edge, settle_active, line_up_position, rebind, go_idle, hold_measured,
  take_halt, close_dead_stream, compliant_step, integrate_stream, failed_gains,
}

module _ {R : Type 0} ⦃d : Double R⦄ where
  abbrev all_above : JointVec R → List Joint → Bool
  all_above limit [] = true
  all_above limit (i ∷ is) =
      let rest = all_above limit is in (torque_limit_floor i ≤ᵈ limit i) && rest

  -- No joint's torque limit is below its gravity floor.
  unfoldable pub above_floor : JointImpedanceParams R → Bool
  above_floor p = all_above p.torque_limit joints

  pub above_floor-AboveFloor : (p : JointImpedanceParams R) → AboveFloor p → above_floor p ≡ true
  unfolding above_floor
  above_floor-AboveFloor p h = all joints
    where
      all : (is : List Joint) → all_above p.torque_limit is ≡ true
      all [] = refl
      all (i ∷ is) = ground (arith, h i, all is)

  pub AboveFloor-above_floor : (p : JointImpedanceParams R) → above_floor p ≡ true → AboveFloor p
  unfolding above_floor
  AboveFloor-above_floor p e =
      every_joint (λ i. (torque_limit_floor i ≤ᵈ p.torque_limit i) ≡ true) (each joints e)
    where
      each :
          (is : List Joint)
          → all_above p.torque_limit is ≡ true
          → All (λ i. (torque_limit_floor i ≤ᵈ p.torque_limit i) ≡ true) is
      each [] e = tt
      each (i ∷ is) e = (ground arith, each is (ground arith))

  -- A known profile, and custom values that pass the validation.
  abbrev pub acceptable : ImpedanceGains R → Bool
  acceptable g =
      known_profile g.profile
      && not (is_custom g.profile && not (validate_custom g.custom_values).ok)

  pub resolve_gains-above_floor :
      (o : IsOrdered d) (g : ImpedanceGains R) (base : JointImpedanceParams R)
      → acceptable g ≡ true
      → above_floor base ≡ true
      → (q : JointImpedanceParams R) × (resolve_gains g base ≡ some q) × (above_floor q ≡ true)
  resolve_gains-above_floor o g base a b =
      let (q, e, kept) = resolve_gains_keeps g base (ground arith) in
      let v : IsAccepted g = record { known = ground arith; validated = λ c. ground arith } in
      (
        q,
        e,
        above_floor-AboveFloor q
            (resolve_gains-AboveFloor o g base q v (AboveFloor-above_floor base b) e),
      )

  -- Every set of gains that was sent.
  abbrev pub sent_above : List (Call R) → Bool
  sent_above [] = true
  sent_above (set_gains p ∷ cs) = let rest = sent_above cs in above_floor p && rest
  sent_above (_ ∷ cs) = sent_above cs

  -- The gains of every call that applies some.
  abbrev pub AllAbove : List (Call R) → Type 0
  AllAbove [] = Unit
  AllAbove (set_gains p ∷ cs) = AboveFloor p × AllAbove cs
  AllAbove (_ ∷ cs) = AllAbove cs

  abbrev pub goal_ready : Phase R → Bool
  goal_ready (settling_goal id g) = not (failed_gains g)
  goal_ready (submitting id g) = not (failed_gains g)
  goal_ready top = true
  goal_ready draining = true
  goal_ready ticking = true

  abbrev pub open_ready : Option (StreamOpenRequest R) → Bool
  open_ready none = true
  open_ready (some r) = not (is_kind r.control_mode impedance) || acceptable r.gains

  -- No thread died of an exception, and nothing below the floor is the default, was sent, or can be
  -- sent by what is asleep.
  pub record IsSafe (s : Supervisor R) : Type 0 where
    pub alive : s.terminated ≡ false
    pub base_above : above_floor s.session_default_params ≡ true
    pub calls_above : sent_above s.calls ≡ true
    pub goal_checked : goal_ready s.phase ≡ true
    pub open_checked : open_ready s.opening ≡ true

  pub apply_impedance_gains-IsSafe :
      (o : IsOrdered d) (g : ImpedanceGains R) (s : Supervisor R)
      → acceptable g ≡ true
      → IsSafe s
      → IsSafe (apply_impedance_gains g s)
  unfolding apply_impedance_gains
  apply_impedance_gains-IsSafe o g s a v =
      let (q, e, h) = resolve_gains-above_floor o g s.session_default_params a v.base_above in
      ground arith

  pub close_stream-IsSafe :
      (c : StreamCloseCause) (w : World R) (s : Supervisor R)
      → IsSafe s
      → IsSafe (close_stream c w s)
  unfolding close_stream latch_hold stop_velocity
  close_stream-IsSafe c w s v = ground arith

  pub on_halt-IsSafe :
      (r : HaltReason) (w : World R) (s : Supervisor R) → IsSafe s → IsSafe (on_halt r w s)
  unfolding on_halt release_grip latch_halt
  on_halt-IsSafe r w s v =
      ground (arith, close_stream-IsSafe (if is_contact r then contact_stop else halted) w s v)

  pub settle_active-IsSafe :
      (r : TrajectoryResult) (s : Supervisor R) → IsSafe s → IsSafe (settle_active r s)
  unfolding settle_active
  settle_active-IsSafe r s v = ground arith

  pub rebind-IsSafe :
      (k : ControlModeKind) (s : Supervisor R) → IsSafe s → IsSafe (go_idle (rebind k s))
  unfolding rebind go_idle
  rebind-IsSafe k s v = ground arith

  line_up_position-IsSafe : (s : Supervisor R) → IsSafe s → IsSafe (line_up_position s)
  unfolding line_up_position
  line_up_position-IsSafe s v = ground arith

  hold_measured-IsSafe : (w : World R) (s : Supervisor R) → IsSafe s → IsSafe (hold_measured w s)
  unfolding hold_measured
  hold_measured-IsSafe w s v = ground arith

  push_speed-IsSafe : (w : World R) (s : Supervisor R) → IsSafe s → IsSafe (push_speed w s)
  unfolding push_speed
  push_speed-IsSafe w s v = ground arith

  contact_edge-IsSafe : (w : World R) (s : Supervisor R) → IsSafe s → IsSafe (contact_edge w s)
  unfolding contact_edge
  contact_edge-IsSafe w s v =
      ground (arith, on_halt-IsSafe contact w (record s { contact_cleared = false }) (ground arith))

  take_halt-IsSafe : (w : World R) (s : Supervisor R) → IsSafe s → IsSafe (take_halt w s)
  unfolding take_halt
  take_halt-IsSafe w s v =
      let s0 = record s { halt_pending = false } in
      let s1 = settle_active (halt_result s.halt_reason) s0 in
      let s2 = line_up_position s1 in
      let s3 = go_idle (rebind s2.active_mode_kind s2) in
      let v1 = settle_active-IsSafe (halt_result s.halt_reason) s0 (ground arith) in
      let v3 = rebind-IsSafe s2.active_mode_kind s2 (line_up_position-IsSafe s1 v1) in
      ground (arith, hold_measured-IsSafe w s3 v3)

  close_dead_stream-IsSafe :
      (w : World R) (s : Supervisor R) → IsSafe s → IsSafe (close_dead_stream w s)
  unfolding close_dead_stream
  close_dead_stream-IsSafe w s v =
      let closed = close_stream-IsSafe deadline_expired w s v in
      ground (
        arith,
        closed,
        close_stream-IsSafe ik_fault w s v,
        close_stream-IsSafe ik_fault w (close_stream deadline_expired w s) closed,
      )

  compliant_step-IsSafe :
      (fuel : ℕ) (solve : JointVec R → Vector6 R → JointVec R) (w : World R) (s : Supervisor R)
      → IsSafe s
      → IsSafe (compliant_step fuel solve w s)
  unfolding compliant_step integrate_stream
  compliant_step-IsSafe fuel solve w s v = ground arith

  pub top_part-IsSafe :
      (fuel : ℕ) (solve : JointVec R → Vector6 R → JointVec R) (w : World R) (s : Supervisor R)
      → IsSafe s
      → IsSafe (
          compliant_step fuel solve w
            (close_dead_stream w (take_halt w (contact_edge w (push_speed w s)))))
  top_part-IsSafe fuel solve w s v =
      let s1 = push_speed w s in
      let s2 = contact_edge w s1 in
      let s3 = take_halt w s2 in
      let v2 = contact_edge-IsSafe w s1 (push_speed-IsSafe w s v) in
      compliant_step-IsSafe fuel solve w (close_dead_stream w s3)
        (close_dead_stream-IsSafe w s3 (take_halt-IsSafe w s2 v2))
