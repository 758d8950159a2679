-- ===== src/Tests/Limits.antt =====
-- Gains, thresholds, the contact monitor, angles and references on concrete numbers.
use kinova_gen3_driver.Prelude.{
  ℕ, ◌+◌, ◌*◌, ◌<◌, ◌≡◌, refl, Bool, true, false, ◌&&◌, none, some, List, [], ◌∷◌, arith, ◌==◌,
  get_or,
}
use kinova_gen3_driver.Prelude.Int.{pos, negsuc}
use Prim.Native.Nat.{min}
use kinova_gen3_driver.Double.{
  Nano, nano, nano-IsOrdered, nought, one, ◌≤ᵈ◌, ◌<ᵈ◌, ◌-ᵈ◌, ◌+ᵈ◌, ◌/ᵈ◌,
}
use kinova_gen3_driver.Types.{
  j1, ImpedanceGains, JointImpedanceGainValues, stiff, enforce, ContactPhase, ContactStatus,
  settling, latched_phase,
}
use kinova_gen3_driver.Gains.{
  JointImpedanceParams, resolve_gains, default_params, known_profile, resolve_profile,
  profile_params, overlay_profile_gains,
}
use kinova_gen3_driver.Gains.Resolution.{
  AboveFloor, IsAccepted, resolve_gains-AboveFloor, default-AboveFloor,
}
use kinova_gen3_driver.Contact.{
  ContactProfiles, validate_contact_thresholds, check_thresholds, threshold_failure,
}
use kinova_gen3_driver.Monitor.{Monitor, Dynamics, Config, new_monitor, new_observer, step, crosses}
use kinova_gen3_driver.Monitor.Latch.{
  Event, cycle_of, run_start, thresholds, IsAgreed, run, run-new-IsAgreed, run-latched,
}
use kinova_gen3_driver.Monitor.Debounce.{streak, counts, crosses-streak}
use kinova_gen3_driver.Units.{turn, minus_pi, wrap_to_pi, Turns, wrap_to_pi_bounds}
use kinova_gen3_driver.Tests.{at, feedback, no_status}

abbrev fine_values : JointImpedanceGainValues Nano
fine_values = record { kq = at 100; zeta = nano.lit 1 0; torque_limit = at 38 }

abbrev pub stiff_gains : ImpedanceGains Nano
stiff_gains = record { profile = stiff; custom_values = fine_values }

abbrev base_params : JointImpedanceParams Nano
base_params = default_params

abbrev stiff_params : JointImpedanceParams Nano
stiff_params = get_or base_params (resolve_gains stiff_gains base_params)

stiff-IsAccepted : IsAccepted stiff_gains
unfolding known_profile
stiff-IsAccepted = record { known = refl; validated = λ e. ground arith }

resolve_gains-AboveFloor_example : AboveFloor stiff_params
unfolding resolve_gains resolve_profile profile_params overlay_profile_gains
resolve_gains-AboveFloor_example =
    resolve_gains-AboveFloor nano-IsOrdered stiff_gains base_params stiff_params stiff-IsAccepted
      (default-AboveFloor nano-IsOrdered) refl

abbrev pub usable_profiles : ContactProfiles Nano
usable_profiles = record {
  sensitive_theta = at 5;
  normal = at 10;
  loose_theta = at 20;
  ceiling = at 40;
}

-- A body with unit inertia and no weight.
abbrev pub free_body : Dynamics Nano
free_body = record { momentum = λ q qd. qd; coriolis_t = λ q qd. at 0; gravity = λ q. at 0 }

abbrev config : Config Nano
config = record {
  detection = enforce;
  gain = nano.lit 10 0;
  debounce_cycles = 3;
  initial_theta = at 10;
  ceiling = at 40;
}

abbrev status_in : ContactPhase → ContactStatus Nano
status_in phase = record no_status { phase = phase; theta = at 10 }

abbrev monitor_in : Bool → ContactPhase → ℕ → Monitor Nano
monitor_in latched phase version = record {
  cfg = config;
  settle_s = nano.lit 5 0 /ᵈ nano.lit 10 0;
  max_step_s = one /ᵈ nano.lit 10 0;
  observer = new_observer (nano.lit 10 0);
  theta_buf0 = at 10;
  theta_buf1 = at 10;
  theta_active = false;
  clear_requested = false;
  latched = latched;
  theta = at 10;
  count = λ _. 0;
  pending_dt = nought;
  cycle = 0;
  status = status_in phase;
  published = status_in phase;
  version = version;
}

abbrev new_one : Monitor Nano
new_one = monitor_in false settling 2

abbrev pub stopped : Monitor Nano
stopped = monitor_in true latched_phase 2

abbrev events : List (Event Nano)
events = run_start ∷ cycle_of feedback (nano.lit 1 3) false ∷ thresholds (at 20) ∷ []

run-new-IsAgreed_example :
    let r = step free_body feedback (nano.lit 1 3) false (run free_body events new_one) in
    IsAgreed (run free_body events new_one) × (r.0 ≡ r.1.latched)
unfolding new_monitor validate_contact_thresholds check_thresholds threshold_failure
run-new-IsAgreed_example =
    run-new-IsAgreed free_body config {m = new_one} events feedback (nano.lit 1 3) false refl

run-latched_example : (run free_body events stopped).latched ≡ true
run-latched_example =
    run-latched free_body events stopped (record { phase_is = refl; enforced = refl }) refl refl tt

crosses-streak_example :
    (counts 3 ((λ i. true) ∷ (λ i. true) ∷ []) j1
      ≡ min 3 (streak ((λ i. true) ∷ (λ i. true) ∷ []) j1))
    × (crosses 3 (λ i. true) (counts 3 ((λ i. true) ∷ [])) j1
        ≡ (true && (streak ((λ i. true) ∷ (λ i. true) ∷ []) j1 == 3)))
crosses-streak_example = crosses-streak 3 (λ i. true) ((λ i. true) ∷ []) j1

-- The angles below a million radians.
abbrev near_angle : Nano → Bool
near_angle a = nano.abs a <ᵈ nano.lit 1000000 0

-- Billionths, doubled and one off for the negative ones, bound the turns.
abbrev steps_left : Nano → ℕ
steps_left none = 0
steps_left (some (pos n)) = 2 * n
steps_left (some (negsuc n)) = 2 * n + 3

nano-Turns : Turns near_angle steps_left
nano-Turns = record { down = falls; up = rises; up_below = not_past }
  where
    falls :
        (a : Nano)
        → near_angle a ≡ true
        → (nano.pi <ᵈ a) ≡ true
        → (near_angle (a -ᵈ turn) ≡ true) × (steps_left (a -ᵈ turn) < steps_left a)
    falls a n h = ground arith

    rises :
        (a : Nano)
        → near_angle a ≡ true
        → (a ≤ᵈ minus_pi) ≡ true
        → (near_angle (a +ᵈ turn) ≡ true) × (steps_left (a +ᵈ turn) < steps_left a)
    rises a n h = ground arith

    not_past :
        (a : Nano) → near_angle a ≡ true → (a ≤ᵈ minus_pi) ≡ true → (nano.pi <ᵈ (a +ᵈ turn)) ≡ false
    not_past a n h = ground arith

abbrev seven : Nano
seven = nano.lit 7 0

wrap_to_pi_bounds_example :
    ((nano.pi <ᵈ wrap_to_pi 14000000001 seven) ≡ false)
    × ((wrap_to_pi 14000000001 seven ≤ᵈ minus_pi) ≡ false)
wrap_to_pi_bounds_example =
    wrap_to_pi_bounds near_angle steps_left nano-Turns 14000000001 seven refl (omega arith)
