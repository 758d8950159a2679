-- ===== src/Tests/Ownership.antt =====
-- The arbiter, the session, the watchdog and the gripper on concrete calls.
use kinova_gen3_driver.Prelude.{String, Option, ℕ, ◌≡◌, refl, true, false, none, List, [], ◌∷◌}
use kinova_gen3_driver.Double.{Nano, nano}
use kinova_gen3_driver.Types.{Token, enforced, operator_request}
use kinova_gen3_driver.Arbiter.{Arbiter, init, admit, grant, estop}
use kinova_gen3_driver.Arbiter.Admission.{goal, handle, handle_gate}
use kinova_gen3_driver.Arbiter.Ownership.{
  Call, command, halt, grant_to, stop, run, IsSound, run_draws_blank, run-init-IsSound,
}
use kinova_gen3_driver.Arbiter.Estop.{IsUngated, estop_silences}
use kinova_gen3_driver.Gripper.{GripperController, new_gripper}
use kinova_gen3_driver.Tests.{counting, Counts, fives, short_goal}

abbrev held : Arbiter ℕ Counts
held = record {
  down = (0, 0);
  mode = enforced;
  rng = 3;
  owned = true;
  estopped = false;
  token = 7;
  owner_id = "a";
  generation = 4;
  rejected = 0;
}

abbrev calls : List (Call Nano)
calls = grant_to "a" none ∷ command (goal short_goal) ∷ stop ∷ []

ungated : IsUngated counting (λ d. d.0 ≡ 0)
ungated = record { by_halt = λ r d p. p; by_query = λ d p. p; by_speed = λ r d p. p }

handle_gate_example : handle counting (goal short_goal) held ≡ record held { down = (1, 0) }
unfolding admit
handle_gate_example = handle_gate counting (goal short_goal) held

run-init-IsSound_example :
    IsSound {G = ℕ}
      (run_draws_blank {G = ℕ} counting calls (init (0, 0) enforced 3))
      (run counting calls (init (0, 0) enforced 3))
run-init-IsSound_example = run-init-IsSound counting (0, 0) enforced 3 calls

estop_silences_example :
    let b =
      run counting (halt operator_request ∷ command (goal short_goal) ∷ []) (estop counting held) in
    (b.down.0 ≡ 0)
    × ((t : Token) → admit b t ≡ false)
    × ((o : String) (t : Option Token) → (grant counting o t b).0.accepted ≡ false)
estop_silences_example =
    estop_silences counting (λ d. d.0 ≡ 0) ungated held
      (halt operator_request ∷ command (goal short_goal) ∷ []) refl tt

abbrev idle_grip : GripperController Nano
idle_grip = new_gripper
