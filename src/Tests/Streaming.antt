-- ===== src/Tests/Streaming.antt =====
-- The control modes on concrete streams.
use kinova_gen3_driver.Prelude.{All, ℕ, ◌≡◌, refl, arith, true, List, [], ◌∷◌}
use kinova_gen3_driver.Double.{Nano, nano, nano-IsOrdered, nought, one, ◌≤ᵈ◌}
use kinova_gen3_driver.Types.{j1}
use kinova_gen3_driver.VelocityReference.{velocity_ref_max_lead, integrate_leashed_reference}
use kinova_gen3_driver.Modes.{JointLimits, continuous, published}
use kinova_gen3_driver.Modes.JointTorque
use kinova_gen3_driver.Modes.JointTorque.{
  JointTorqueParams, JointTorqueMode, new_torque_mode, set_torque, enter_torque, last_command,
  enter_torque-last_command,
}
use kinova_gen3_driver.Modes.JointVelocity.{
  JointVelocityParams, JointVelocityMode, TwistSolver, new_velocity_mode, compute_velocity,
}
use kinova_gen3_driver.Modes.JointVelocity.Frozen
use kinova_gen3_driver.Modes.JointVelocity.Frozen.{compute_velocity-frozen, run-max_qd}
use kinova_gen3_driver.Watchdog.{bump}
use kinova_gen3_driver.FeedbackTap
use kinova_gen3_driver.FeedbackTap.{stores, writes, loads, reads, new_seqlock}
use kinova_gen3_driver.FeedbackTap.Whole.{Agree, returned_whole}
use kinova_gen3_driver.Tests.{at, feedback}
use kinova_gen3_driver.Tests.Looping.{rest_command}

abbrev torque_mode : JointTorqueMode Nano
torque_mode = set_torque (at 5) (
    new_torque_mode (record {
      scale = one;
      damping = nought;
      torque_limit = at 39;
      cmd_timeout_s = nano.lit 1 1;
      cmd_decay_s = nano.lit 5 2;
    }))

-- A command from before the entry, then one that a cycle adopts, then one that none has yet.
abbrev torque_stream : List (JointTorque.Event Nano)
torque_stream =
    JointTorque.computes feedback (nano.lit 1 3)
    ∷ JointTorque.commands (at 2)
    ∷ JointTorque.computes feedback (nano.lit 1 3)
    ∷ JointTorque.commands (at 3)
    ∷ []

enter_torque-last_command_example :
    (JointTorque.run (λ q. q) rest_command torque_stream (enter_torque torque_mode)).tau_ff_target
    ≡ at 2
unfolding new_torque_mode set_torque bump
enter_torque-last_command_example =
    enter_torque-last_command (λ q. q) rest_command torque_stream torque_mode (omega arith)
      (omega arith)

abbrev limits : JointLimits Nano
limits = record { q_lower = at 0; q_upper = at 3; v_max = at 1 }

abbrev velocity_params : JointVelocityParams Nano
velocity_params = record {
  max_qd = at 2;
  dls_damping = nano.lit 1 3;
  w_threshold = nano.lit 33 4;
  dls_damping_max = nano.lit 1 1;
  posture_gain = nano.lit 15 2;
  q_rest = at 0;
  cmd_timeout_s = nano.lit 1 1;
}

abbrev no_solver : TwistSolver Nano ℕ
no_solver = record { restart = λ w. w; solve = λ q v p w. (q, w) }

abbrev frozen_mode : JointVelocityMode Nano ℕ
frozen_mode = record (new_velocity_mode limits velocity_params 0) { frozen = true }

abbrev quiet_events : List (Frozen.Event Nano)
quiet_events =
    Frozen.computes feedback (nano.lit 1 3)
    ∷ Frozen.sets_timeout nought
    ∷ Frozen.sets_params velocity_params
    ∷ []

compute_velocity-frozen_example :
    let m = Frozen.run no_solver 1 rest_command quiet_events frozen_mode in
    let r = compute_velocity no_solver 1 feedback (nano.lit 1 3) rest_command m in
    (r.1.qd_cmd ≡ λ _. nought)
    × (r.0.position ≡ (
        integrate_leashed_reference 1 feedback.q
          (λ _. nought)
          (nano.lit 1 3)
          feedback.q
          velocity_ref_max_lead
          (continuous m.urdf)
          m.urdf.q_lower
          m.urdf.q_upper))
unfolding new_velocity_mode
compute_velocity-frozen_example =
    compute_velocity-frozen no_solver 1 rest_command quiet_events feedback (nano.lit 1 3)
      frozen_mode tt refl refl

run-max_qd_example :
    let m =
      Frozen.run no_solver 1 rest_command quiet_events
        (new_velocity_mode limits velocity_params 0) in
    ((nought ≤ᵈ (published m.params).max_qd j1) ≡ true)
    × (((published m.params).max_qd j1 ≤ᵈ limits.v_max j1) ≡ true)
run-max_qd_example =
    run-max_qd no_solver 1 rest_command nano-IsOrdered limits velocity_params 0 quiet_events j1
      (λ i. (refl, refl))

-- A load of two words that a store overtakes, and the attempt after it.
abbrev overtaken : List (FeedbackTap.Event ℕ)
overtaken =
    loads (λ _. 0)
    ∷ reads
    ∷ reads
    ∷ stores (λ _. 7)
    ∷ writes
    ∷ reads
    ∷ writes
    ∷ writes
    ∷ reads
    ∷ reads
    ∷ reads
    ∷ reads
    ∷ reads
    ∷ []

returned_whole_example :
    All
      (λ (r : (ℕ → ℕ) × (ℕ → ℕ)). Agree 2 r.0 r.1)
      (FeedbackTap.run 2 overtaken (new_seqlock (λ _. 5))).returned
returned_whole_example = returned_whole 2 (λ _. 5) overtaken (omega arith)
