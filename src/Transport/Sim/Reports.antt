-- ===== src/Transport/Sim/Reports.antt =====
-- src/sim_transport.cpp: what the simulated arm reports.
use kinova_gen3_driver.Prelude.{ℕ, ◌≡◌, refl, ◌<◌, Bool, true, false, none, some, if-both, ◌∙◌, ap}
use kinova_gen3_driver.Double.{Double, ◌-ᵈ◌, ◌<ᵈ◌, ◌≤ᵈ◌}
use kinova_gen3_driver.Types.{Joint, JointCommand, JointFeedback, GripperCommand}
use kinova_gen3_driver.Units.{wrap_to_pi, Turns, minus_pi, wrap_to_pi_bounds}
use kinova_gen3_driver.Transport.Sim.{
  SimTransport, is_torque, step_gripper, step_torque, whole_or, report_wrapped, command, reported,
  exchange,
}

module _ {R : Type 0} ⦃d : Double R⦄ where
  -- What a step keeps of the arm: its torque, its angles and the push on it.
  abbrev Keeps : SimTransport R → SimTransport R → Type 0
  Keeps s t =
      (t.state.tau ≡ s.state.tau)
      × (t.state.q ≡ s.state.q)
      × (whole_or t.tau_ext_seen t.tau_ext ≡ whole_or s.tau_ext_seen s.tau_ext)

  step_gripper-Keeps : (g : GripperCommand R) (s : SimTransport R) → Keeps s (step_gripper g s)
  unfolding step_gripper
  step_gripper-Keeps g s = if-both (Keeps s) g.active _ _ (refl, refl, refl) (refl, refl, refl)

  step_torque-commanded :
      (c : JointCommand R) (s : SimTransport R)
      → is_torque c.mode ≡ true
      → (step_torque c s).state.tau ≡ c.torque
  unfolding step_torque
  step_torque-commanded c s e = simp e

  exchange_calm :
      (fuel : ℕ) (c : JointCommand R) (fb : JointFeedback R) (s : SimTransport R)
      → s.hook ≡ none
      → exchange fuel c fb s ≡ reported (report_wrapped fuel (command c s))
  unfolding exchange
  exchange_calm fuel c fb s calm =
      ap
        (λ h. elim h [
          | some e ↦ (some e, fb, s)
          | none ↦ reported (report_wrapped fuel (command c s))
        ])
        calm

  -- As the arm does, the simulation reports an angle above -pi and not above pi, with fuel for the turns
  -- to unwind from an angle near enough; and an actuator in torque mode reports the torque that was commanded, less the push.
  exchange_reports :
      (near : R → Bool) (turns : R → ℕ)
      → Turns near turns
      → (fuel : ℕ) (c : JointCommand R) (fb : JointFeedback R) (s : SimTransport R) (i : Joint)
      → s.hook ≡ none
      → is_torque c.mode ≡ true
      → near (s.state.q i) ≡ true
      → turns (s.state.q i) < fuel
      → let out = (exchange fuel c fb s).1 in
        ((d.pi <ᵈ out.q i) ≡ false)
        × ((out.q i ≤ᵈ minus_pi) ≡ false)
        × (out.tau i ≡ c.torque i -ᵈ whole_or s.tau_ext_seen s.tau_ext i)
  unfolding report_wrapped command step_torque
  exchange_reports near turns t fuel c fb s i calm torque close enough =
      let run = ap (λ r. r.1) (exchange_calm fuel c fb s calm) in
      let start = step_torque c (record s { last_cmd = c }) in
      let (tau, q, push) = step_gripper-Keeps c.gripper start in
      let (below, above) = wrap_to_pi_bounds near turns t fuel (s.state.q i) close enough in
      (
        ap (λ r. d.pi <ᵈ r.q i) run ∙ ap (λ f. d.pi <ᵈ wrap_to_pi fuel (f i)) q ∙ below,
        ap (λ r. r.q i ≤ᵈ minus_pi) run ∙ ap (λ f. wrap_to_pi fuel (f i) ≤ᵈ minus_pi) q ∙ above,
        ap (λ r. r.tau i) run
            ∙ (λ j. tau j i -ᵈ push j i)
            ∙ ap (λ f. f i -ᵈ whole_or s.tau_ext_seen s.tau_ext i)
                (step_torque-commanded c (record s { last_cmd = c }) torque),
      )
