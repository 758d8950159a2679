-- ===== src/Modes/JointTorque.antt =====
-- src/joint_torque_mode.cpp: a streamed feedforward torque over gravity compensation, ramped down when
-- the stream goes stale.
use kinova_gen3_driver.Prelude.{
  ℕ, suc, ◌+◌, ◌<◌, ◌≤◌, ◌^◌, ◌≡◌, refl, arith, Bool, true, false, not, Option, none, some, List,
  [], ◌∷◌, if◌then◌else◌, length, get_or, u64, ◌==◌, ap, ◌∙◌,
}
use kinova_gen3_driver.Double.{
  Double, IsOrdered, ◌+ᵈ◌, ◌-ᵈ◌, ◌*ᵈ◌, ◌/ᵈ◌, ◌<ᵈ◌, ◌≤ᵈ◌, nought, clamp_d, clamp_range,
}
use kinova_gen3_driver.Types.{
  Joint, JointVec, JointFeedback, JointCommand, ActuatorMode, torque_actuator,
}
use kinova_gen3_driver.Watchdog.{Watchdog, arm, bump, reset, tick}
use kinova_gen3_driver.Modes.{Slots, both, publish, published}

pub record JointTorqueParams (R : Type 0) : Type 0 where
  pub scale : R
  pub damping : R
  pub torque_limit : JointVec R
  pub cmd_timeout_s : R
  pub cmd_decay_s : R

pub record JointTorqueMode (R : Type 0) : Type 0 where
  pub p : JointTorqueParams R
  pub tau_ff : Slots (JointVec R)
  pub wd : Watchdog R
  pub tau_ff_target : JointVec R
  pub tau_ff_applied : JointVec R

abbrev pub torque_modes : Joint → ActuatorMode
torque_modes _ = torque_actuator

module _ {R : Type 0} ⦃d : Double R⦄ where
  unfoldable pub new_torque_mode : JointTorqueParams R → JointTorqueMode R
  unfolding arm
  new_torque_mode p = record {
    p = p;
    tau_ff = both (λ _. nought);
    wd =
        arm p.cmd_timeout_s (record {
          count = 0;
          timeout_s = nought;
          last_seen = 0;
          stale_s = nought;
          fresh = false;
        });
    tau_ff_target = λ _. nought;
    tau_ff_applied = λ _. nought;
  }

  unfoldable pub set_torque : JointVec R → JointTorqueMode R → JointTorqueMode R
  set_torque tau_ff m = record m { tau_ff = publish tau_ff m.tau_ff; wd = bump m.wd }

  unfoldable pub set_torque_timeout : R → JointTorqueMode R → JointTorqueMode R
  set_torque_timeout s m = record m { wd = arm (if nought ≤ᵈ s then s else m.p.cmd_timeout_s) m.wd }

  unfoldable pub enter_torque : JointTorqueMode R → JointTorqueMode R
  enter_torque m = record m {
    tau_ff_target = λ _. nought;
    tau_ff_applied = λ _. nought;
    wd = reset m.wd;
  }

  -- One joint of the ramp: a step toward zero, or zero within one step of it.
  unfoldable pub decayed : R → R → R → R
  decayed frac target applied =
      let step = frac *ᵈ d.abs target in
      if step <ᵈ applied
      then applied -ᵈ step
      else if applied <ᵈ (nought -ᵈ step)
      then applied +ᵈ step
      else nought

  -- The watchdog and the adoption of a fresh command; the Boolean is `stale`.
  unfoldable pub read_torque : R → JointTorqueMode R → Bool × JointTorqueMode R
  read_torque dt m =
      let t = tick dt m.wd in
      (
        t.0,
        record m {
          wd = t.1;
          tau_ff_target = if t.1.fresh then published m.tau_ff else m.tau_ff_target;
        },
      )

  unfoldable pub apply_torque : Bool → R → JointTorqueMode R → JointTorqueMode R
  apply_torque stale dt m =
      if not stale
      then record m { tau_ff_applied = m.tau_ff_target }
      else if nought <ᵈ m.p.cmd_decay_s
      then record m {
        tau_ff_applied =
            λ i. decayed (dt /ᵈ m.p.cmd_decay_s) (m.tau_ff_target i) (m.tau_ff_applied i);
      }
      else record m { tau_ff_applied = λ _. nought }

  unfoldable pub clamped_torque :
      (JointVec R → JointVec R) → JointFeedback R → JointTorqueMode R → JointVec R
  clamped_torque gravity fb m i =
      clamp_d (m.p.scale *ᵈ gravity fb.q i -ᵈ m.p.damping *ᵈ fb.qd i +ᵈ m.tau_ff_applied i)
        (nought -ᵈ m.p.torque_limit i) (m.p.torque_limit i)

  -- `gravity` is `Dynamics::gravity`.
  unfoldable pub compute_torque :
      (JointVec R → JointVec R)
      → JointFeedback R
      → R
      → JointCommand R
      → JointTorqueMode R
      → JointCommand R × JointTorqueMode R
  compute_torque gravity fb dt out m =
      let read = read_torque dt m in
      let applied = apply_torque read.0 dt read.1 in
      (
        record out {
          mode = torque_actuator;
          torque = clamped_torque gravity fb applied;
          position = fb.q;
        },
        applied,
      )

-- What happens to the mode between two entries: a command, or a cycle with its feedback and step.
pub data Event (R : Type 0) : Type 0 where
  commands : JointVec R → Event R
  computes : JointFeedback R → R → Event R

-- The target that a stream of commands leaves: the last command that a cycle has come after.
abbrev pub last_command :
    {R : Type 0} → List (Event R) → Option (JointVec R) → JointVec R → JointVec R
last_command [] pending target = target
last_command (commands v ∷ es) pending target = last_command es (some v) target
last_command (computes fb dt ∷ es) pending target = last_command es none (get_or target pending)

module _ {R : Type 0} ⦃d : Double R⦄ (gravity : JointVec R → JointVec R)
    (out : JointCommand R) where
  unfoldable pub after : Event R → JointTorqueMode R → JointTorqueMode R
  after (commands v) m = set_torque v m
  after (computes fb dt) m = (compute_torque gravity fb dt out m).1

  unfoldable pub run : List (Event R) → JointTorqueMode R → JointTorqueMode R
  run [] m = m
  run (e ∷ es) m = run es (after e m)

  -- How far the counter is ahead of what the mode has seen: one for each command still to adopt.
  Pending : Option (JointVec R) → ℕ → JointTorqueMode R → Type 0
  Pending none n m = m.wd.count ≡ m.wd.last_seen
  Pending (some v) n m =
      (published m.tau_ff ≡ v)
      × ((k : ℕ) × (0 < k) × (k ≤ n) × (m.wd.count ≡ u64 (m.wd.last_seen + k)))

  commands-Pending :
      (v : JointVec R) (pending : Option (JointVec R)) (n : ℕ) (m : JointTorqueMode R)
      → m.wd.count < 2 ^ 64
      → Pending pending n m
      → Pending (some v) (suc n) (after (commands v) m)
  unfolding Pending after set_torque bump
  commands-Pending v none n m c h = (ground arith, (1, omega arith, omega arith, ground (arith, h)))
  commands-Pending v (some w) n m c (h, (k, p, q, e)) =
      (ground arith, (suc k, omega arith, omega arith, ground (arith, e)))

  command_count :
      (v : JointVec R) (m : JointTorqueMode R) → (after (commands v) m).wd.count < 2 ^ 64
  unfolding after set_torque bump
  command_count v m = ground arith

  command_target :
      (v : JointVec R) (m : JointTorqueMode R)
      → (after (commands v) m).tau_ff_target ≡ m.tau_ff_target
  unfolding after set_torque
  command_target v m = refl

  none-Pending : (n : ℕ) (m : JointTorqueMode R) → m.wd.count ≡ m.wd.last_seen → Pending none n m
  unfolding Pending
  none-Pending n m e = e

  computes-Pending :
      (fb : JointFeedback R) (dt : R) (pending : Option (JointVec R)) (n : ℕ)
      (m : JointTorqueMode R)
      → n < 2 ^ 64
      → m.wd.count < 2 ^ 64
      → Pending pending n m
      → let m' = after (computes fb dt) m in
        (m'.tau_ff_target ≡ get_or m.tau_ff_target pending)
        × (m'.wd.count ≡ m'.wd.last_seen)
        × (m'.wd.count ≡ m.wd.count)
  unfolding Pending after compute_torque read_torque apply_torque tick
  computes-Pending fb dt none n m b c h = ground (arith, h)
  computes-Pending fb dt (some v) n m b c (h, (k, p, q, e)) =
      let ne : (m.wd.count == m.wd.last_seen) ≡ false = ground (arith, e, p, q) in
      ground (arith, h, ne)

  run-last_command :
      (es : List (Event R)) (pending : Option (JointVec R)) (n : ℕ) (m : JointTorqueMode R)
      → n + length es < 2 ^ 64
      → m.wd.count < 2 ^ 64
      → Pending pending n m
      → (run es m).tau_ff_target ≡ last_command es pending m.tau_ff_target
  unfolding run
  run-last_command [] pending n m b c h = refl
  run-last_command (commands v ∷ es) pending n m b c h =
      commanded (run-last_command es (some v) (suc n) (after (commands v) m) (omega (arith, b)))
    where
      commanded :
          ((after (commands v) m).wd.count < 2 ^ 64
            → Pending (some v) (suc n) (after (commands v) m)
            → (run es (after (commands v) m)).tau_ff_target
              ≡ last_command es (some v) (after (commands v) m).tau_ff_target)
          → (run es (after (commands v) m)).tau_ff_target ≡ last_command es (some v) m.tau_ff_target
      commanded f =
          f (command_count v m) (commands-Pending v pending n m c h)
          ∙ ap (last_command es (some v)) (command_target v m)
  run-last_command (computes fb dt ∷ es) pending n m b c h =
      let p = computes-Pending fb dt pending n m (omega (arith, b)) c h in
      run-last_command es none 0 (after (computes fb dt) m) (omega (arith, b))
        (omega (arith, p.2, c)) (none-Pending 0 (after (computes fb dt) m) p.1)
      ∙ ap (last_command es none) p.0

  -- From the entry of the mode on, with fewer than 2^64 commands and cycles: the feedforward that the
  -- mode aims at is the last command that a cycle has come after, whatever was commanded before the
  -- entry; it is nought until the first command of this entry.
  pub enter_torque-last_command :
      (es : List (Event R)) (m : JointTorqueMode R)
      → length es < 2 ^ 64
      → m.wd.count < 2 ^ 64
      → (run es (enter_torque m)).tau_ff_target ≡ last_command es none (λ _. nought)
  unfolding enter_torque reset Pending
  enter_torque-last_command es m b c =
      run-last_command es none 0 (enter_torque m) (omega (arith, b)) c refl

module _ {R : Type 0} ⦃d : Double R⦄ (o : IsOrdered d) where
  -- Every torque that the mode commands is within the limit of its joint, as long as the sum of its
  -- terms and the limit are finite and the limit is not negative.
  pub compute_torque_limits :
      (gravity : JointVec R → JointVec R) (fb : JointFeedback R) (dt : R) (out : JointCommand R)
      (m : JointTorqueMode R) (i : Joint)
      → let r = compute_torque gravity fb dt out m in
        let limit = r.1.p.torque_limit i in
        d.is_finite
            (r.1.p.scale *ᵈ gravity fb.q i -ᵈ r.1.p.damping *ᵈ fb.qd i +ᵈ r.1.tau_ff_applied i)
          ≡ true
        → d.is_finite limit ≡ true
        → d.is_finite (nought -ᵈ limit) ≡ true
        → ((nought -ᵈ limit) ≤ᵈ limit) ≡ true
        → (((nought -ᵈ limit) ≤ᵈ r.0.torque i) ≡ true) × ((r.0.torque i ≤ᵈ limit) ≡ true)
  unfolding compute_torque clamped_torque
  compute_torque_limits gravity fb dt out m i f g h l = clamp_range o _ _ _ f h g l
