-- ===== src/Tests/Transports.antt =====
-- The simulated arm, and the tap and the gripper controller around it.
use kinova_gen3_driver.Prelude.{◌≡◌, true, none, List, [], ◌∷◌}
use kinova_gen3_driver.Double.{Nano, nano}
use kinova_gen3_driver.Transport.{
  Tapped, tapped, Order, connects, exchanges, sends, receives, asks_fault, Caller, run,
}
use kinova_gen3_driver.Transport.Decorated.{untapped, last_good, run-tapped}
use kinova_gen3_driver.Transport.Sim.{SimTransport, new_sim, sim, set_arm_fault}
use kinova_gen3_driver.Tests.{feedback}
use kinova_gen3_driver.Tests.Looping.{rest_command}

abbrev faulted : SimTransport Nano
faulted = set_arm_fault true (new_sim feedback)

abbrev orders : List (Order Nano)
orders = connects ∷ receives ∷ exchanges rest_command ∷ sends rest_command ∷ asks_fault ∷ []

abbrev tapping : Caller Nano (Tapped Nano (SimTransport Nano))
tapping = record {
  fb = feedback;
  endings = [];
  transport = record { inner = faulted; snapshot = none };
}

run-tapped_example :
    (untapped (run (tapped (sim 3)) orders tapping) ≡ run (sim 3) orders (untapped tapping))
    × ((run (tapped (sim 3)) orders tapping).transport.snapshot
        ≡ last_good (sim 3) orders (untapped tapping) none)
run-tapped_example = run-tapped (sim 3) orders tapping
