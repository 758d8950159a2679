-- ===== src/Supervisor/Settlement.antt =====
-- The ledger of src/interface/supervisor.cpp: the goals that wait, run or are being started, and the
-- results that were sent. Here what the streams and a halt do to it.
use kinova_gen3_driver.Prelude.{
  ℕ, ◌+◌, ◌≡◌, refl, Bool, true, false, not, Option, none, some, List, [], ◌∷◌, ◌==◌, ◌∙◌, count_if,
  arith, if◌then◌else◌, if-both, Option-cases, inl, inr,
}
use kinova_gen3_driver.Double.{Double}
use kinova_gen3_driver.Types.{
  GoalId, HaltReason, StreamCloseCause, contact_stop, halted, ImpedanceGains, StreamOpenRequest,
  StreamOpenResult, position,
}
use kinova_gen3_driver.Supervisor.{
  Supervisor, World, Inbound, goal_in, cancel_in, Phase, top, draining, ticking, settling_goal,
  submitting, Call, settle, emit, contact_latched, request_mode, set_command_timeout, is_contact,
}
use kinova_gen3_driver.Supervisor.Streams.{
  close_stream, latch_hold, stop_velocity, on_halt, latch_halt, release_grip, flush,
  apply_impedance_gains, open_begin, open_refusal, open_finish, open_commit, seed_stream,
  contact_refusal, is_kind,
}
use kinova_gen3_driver.Session.{open_session, refuse_stream}
use kinova_gen3_driver.Supervisor.System.{ask_open, wake_open}

abbrev pub waits_for : {R : Type 0} → GoalId → Inbound R → Bool
waits_for id (goal_in i g why) = i == id
waits_for id (cancel_in i) = false

abbrev pub answers : {R : Type 0} → GoalId → Call R → Bool
answers id (settle i r) = i == id
answers id _ = false

abbrev pub runs : GoalId → Option GoalId → ℕ
runs id none = 0
runs id (some i) = elim (i == id) [ true ↦ 1 | false ↦ 0 ]

abbrev pub starts : {R : Type 0} → GoalId → Phase R → ℕ
starts id (settling_goal i g) = elim (i == id) [ true ↦ 1 | false ↦ 0 ]
starts id (submitting i g) = elim (i == id) [ true ↦ 1 | false ↦ 0 ]
starts id top = 0
starts id draining = 0
starts id ticking = 0

module _ {R : Type 0} ⦃d : Double R⦄ where
  -- The results still due under an id, and those sent.
  abbrev pub due : GoalId → Supervisor R → ℕ
  due id s = count_if (waits_for id) s.inbox + (runs id s.active_goal + starts id s.phase)

  abbrev pub sent : GoalId → Supervisor R → ℕ
  sent id s = count_if (answers id) s.calls

  abbrev pub total : GoalId → Supervisor R → ℕ
  total id s = due id s + sent id s

  flush-waits :
      (id : GoalId) (r : HaltReason) (is : List (Inbound R))
      → count_if (waits_for id) (flush r is) ≡ count_if (waits_for id) is
  flush-waits id r [] = refl
  flush-waits id r (cancel_in i ∷ is) = flush-waits id r is
  flush-waits id r (goal_in i g none ∷ is) = ground (arith, flush-waits id r is)
  flush-waits id r (goal_in i g (some why) ∷ is) = ground (arith, flush-waits id r is)

module _ {R : Type 0} ⦃d : Double R⦄ (id : GoalId) where
  pub close_stream-total :
      (c : StreamCloseCause) (w : World R) (s : Supervisor R)
      → total id (close_stream c w s) ≡ total id s
  unfolding close_stream latch_hold stop_velocity
  close_stream-total c w s = ground arith

  pub release_grip-total : (s : Supervisor R) → total id (release_grip s) ≡ total id s
  unfolding release_grip
  release_grip-total s = ground arith

  pub latch_halt-total :
      (r : HaltReason) (s : Supervisor R) → total id (latch_halt r s) ≡ total id s
  unfolding latch_halt
  latch_halt-total r s = ground (arith, flush-waits id r s.inbox)

  pub on_halt-total :
      (r : HaltReason) (w : World R) (s : Supervisor R) → total id (on_halt r w s) ≡ total id s
  unfolding on_halt
  on_halt-total r w s =
      let s1 = close_stream (if is_contact r then contact_stop else halted) w s in
      let s2 = release_grip s1 in
      latch_halt-total r s2
      ∙ (release_grip-total s1
          ∙ close_stream-total (if is_contact r then contact_stop else halted) w s)

  pub close_stream-phase :
      (c : StreamCloseCause) (w : World R) (s : Supervisor R) → (close_stream c w s).phase ≡ s.phase
  unfolding close_stream latch_hold stop_velocity
  close_stream-phase c w s = ground arith

  pub on_halt-phase :
      (r : HaltReason) (w : World R) (s : Supervisor R) → (on_halt r w s).phase ≡ s.phase
  unfolding on_halt release_grip latch_halt
  on_halt-phase r w s =
      ground (arith, close_stream-phase (if is_contact r then contact_stop else halted) w s)

  pub apply_impedance_gains-total :
      (g : ImpedanceGains R) (s : Supervisor R) → total id (apply_impedance_gains g s) ≡ total id s
  unfolding apply_impedance_gains
  apply_impedance_gains-total g s = ground arith

  open_commit-total :
      (r : StreamOpenRequest R) (w : World R) (s : Supervisor R)
      → total id ((open_commit r w s).1) ≡ total id s
  unfolding open_commit open_session
  open_commit-total r w s =
      let session = (open_session r w.now_s s.session).1 in
      ground (arith, apply_impedance_gains-total r.gains (record s { session = session }))

  seed_stream-total :
      (r : StreamOpenRequest R) (w : World R) (s : Supervisor R)
      → total id (seed_stream r w s) ≡ total id s
  unfolding seed_stream
  seed_stream-total r w s = ground arith

  if-total :
      (b : Bool) (x y : StreamOpenResult × Supervisor R) (n : ℕ)
      → total id x.1 ≡ n
      → total id y.1 ≡ n
      → total id ((if b then x else y).1) ≡ n
  if-total true x y n p q = p
  if-total false x y n p q = q

  open_finish-total :
      (r : StreamOpenRequest R) (w : World R) (s : Supervisor R)
      → total id ((open_finish r w s).1) ≡ total id s
  unfolding open_finish
  open_finish-total r w s =
      let s0 = record s { opening = none } in
      let armed = emit (set_command_timeout r.control_mode r.timeout_s) s0 in
      let c = open_commit r w (seed_stream r w armed) in
      let switched : StreamOpenResult × Supervisor R =
        (refuse_stream "the mode changed during the open; retry", s0) in
      let b3 = if not (is_kind s0.active_mode_kind r.control_mode) then switched else c in
      let b2 = if contact_latched s0 then (contact_refusal, s0) else b3 in
      let down : StreamOpenResult × Supervisor R = (
        refuse_stream "arm not ready",
        emit (request_mode position) (record s0 { active_mode_kind = position }),
      ) in
      if-total (not s0.ready) down b2 (total id s) refl (
        if-total (contact_latched s0) (contact_refusal, s0) b3 (total id s) refl
          (if-total (not (is_kind s0.active_mode_kind r.control_mode)) switched c (total id s) refl
            (open_commit-total r w (seed_stream r w armed) ∙ seed_stream-total r w armed)))

  pub wake_open-total : (w : World R) (s : Supervisor R) → total id (wake_open w s) ≡ total id s
  unfolding wake_open
  wake_open-total w s =
      elim (s.opening)
        as (λ o. total id (elim o [ none ↦ s | some r ↦ (open_finish r w s).1 ]) ≡ total id s) [
          | none ↦ refl
          | some r ↦ open_finish-total r w s
        ]

  open_begin-total :
      (r : StreamOpenRequest R) (s : Supervisor R) → total id (open_begin r s).1 ≡ total id s
  unfolding open_begin
  open_begin-total r s = elim (Option-cases (open_refusal r s)) [
    | inl e ↦
        rw (e, open_begin)
          (if-both {A = Supervisor R} (λ t. total id t ≡ total id s)
            (is_kind r.control_mode s.active_mode_kind) _ _ refl refl)
    | inr (refused, e) ↦ rw (e, open_begin) refl
  ]

  pub ask_open-total :
      (r : StreamOpenRequest R) (s : Supervisor R) → total id (ask_open r s) ≡ total id s
  unfolding ask_open
  ask_open-total r s =
      elim (s.opening)
        as (λ o. total id (elim o [ none ↦ (open_begin r s).1 | some _ ↦ s ]) ≡ total id s) [
          | none ↦ open_begin-total r s
          | some _ ↦ refl
        ]
