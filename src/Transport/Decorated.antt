-- ===== src/Transport/Decorated.antt =====
-- include/kinova_lowlevel/feedback_tap.h and gripper_controller.h: the decorators change nothing but
-- what they are for.
use mathlib.Core.List.{map}
use kinova_gen3_driver.Prelude.{
  ◌≡◌, refl, ap, ◌∙◌, Bool, true, false, Option, none, some, List, [], ◌∷◌, ◌⊎◌, inr,
}
use kinova_gen3_driver.Double.{Double}
use kinova_gen3_driver.Types.{JointFeedback}
use kinova_gen3_driver.Gripper.{GripperController}
use kinova_gen3_driver.Kortex.{Fault}
use kinova_gen3_driver.Transport.{
  Transport, Tapped, Gripped, tapped, gripped, stamped, Order, connects, enters, shuts, releases,
  asks_fault, clears, receives, switches, exchanges, sends, Caller, step, run, note_fb, published,
  ended,
}

abbrev gives_feedback : {R : Type 0} → Order R → Bool
gives_feedback (exchanges cmd) = true
gives_feedback receives = true
gives_feedback _ = false

abbrev keep_good :
    {R : Type 0}
    → Bool
    → List (Fault ⊎ Bool)
    → JointFeedback R
    → Option (JointFeedback R)
    → Option (JointFeedback R)
keep_good true (inr _ ∷ _) fb last = some fb
keep_good _ _ fb last = last

module _ {R T : Type 0} where
  -- The caller as it would be without the tap.
  abbrev pub untapped : Caller R (Tapped R T) → Caller R T
  untapped c = record { fb = c.fb; endings = c.endings; transport = c.transport.inner }

  -- The feedback that the last call that gave any, and did not throw, left in the caller's variable.
  abbrev pub last_good :
      Transport R T
      → List (Order R)
      → Caller R T
      → Option (JointFeedback R)
      → Option (JointFeedback R)
  last_good x [] c last = last
  last_good x (o ∷ os) c last =
      let c' = step x o c in last_good x os c' (keep_good (gives_feedback o) c'.endings c'.fb last)

  abbrev Steps : Transport R T → Order R → Caller R (Tapped R T) → Type 0
  Steps x o c =
      (untapped (step (tapped x) o c) ≡ step x o (untapped c))
      × ((step (tapped x) o c).transport.snapshot
          ≡ keep_good (gives_feedback o) (step x o (untapped c)).endings (step x o (untapped c)).fb
              c.transport.snapshot)

  read-tapped :
      (r : Option Fault × JointFeedback R × T) (c : Caller R (Tapped R T))
      → (untapped (note_fb (published r c.transport) c) ≡ note_fb r (untapped c))
        × ((published r c.transport).2.snapshot
            ≡ keep_good true (ended r.0 ∷ c.endings) r.1 c.transport.snapshot)
  read-tapped (none, fb, t) c = (refl, refl)
  read-tapped (some e, fb, t) c = (refl, refl)

  step-tapped : (x : Transport R T) (o : Order R) (c : Caller R (Tapped R T)) → Steps x o c
  unfolding step tapped
  step-tapped x connects c = (refl, refl)
  step-tapped x enters c = (refl, refl)
  step-tapped x shuts c = (refl, refl)
  step-tapped x releases c = (refl, refl)
  step-tapped x asks_fault c = (refl, refl)
  step-tapped x clears c = (refl, refl)
  step-tapped x receives c = read-tapped (x.receive c.fb c.transport.inner) c
  step-tapped x (switches m h) c = (refl, refl)
  step-tapped x (exchanges cmd) c = read-tapped (x.exchange cmd c.fb c.transport.inner) c
  step-tapped x (sends cmd) c = (refl, refl)

  -- The tap changes nothing that the caller or the wrapped transport can tell, whatever the calls and
  -- whatever they throw; and its snapshot is the feedback of the last exchange or receive that did not
  -- throw: a call that throws publishes nothing.
  pub run-tapped :
      (x : Transport R T) (os : List (Order R)) (c : Caller R (Tapped R T))
      → (untapped (run (tapped x) os c) ≡ run x os (untapped c))
        × ((run (tapped x) os c).transport.snapshot
            ≡ last_good x os (untapped c) c.transport.snapshot)
  unfolding run
  run-tapped x [] c = (refl, refl)
  run-tapped x (o ∷ os) c =
      let (same_state, snapshot) = step-tapped x o c in
      let c' = step (tapped x) o c in
      let (ih, ih') = run-tapped x os c' in
      (ih ∙ ap (run x os) same_state, ih' ∙ (λ i. last_good x os (same_state i) (snapshot i)))

  abbrev pub ungripped : Caller R (Gripped R T) → Caller R T
  ungripped c = record { fb = c.fb; endings = c.endings; transport = c.transport.inner }

abbrev pub stamp_order : {R : Type 0} ⦃d : Double R⦄ → GripperController R → Order R → Order R
stamp_order g (exchanges cmd) = exchanges (stamped g cmd)
stamp_order g (sends cmd) = sends (stamped g cmd)
stamp_order g o = o

module _ {R T : Type 0} ⦃d : Double R⦄ where
  abbrev StepsGripped : Transport R T → Order R → Caller R (Gripped R T) → Type 0
  StepsGripped x o c =
      (ungripped (step (gripped x) o c)
        ≡ step x (stamp_order c.transport.controller o) (ungripped c))
      × ((step (gripped x) o c).transport.controller ≡ c.transport.controller)

  step-gripped : (x : Transport R T) (o : Order R) (c : Caller R (Gripped R T)) → StepsGripped x o c
  unfolding step gripped
  step-gripped x connects c = (refl, refl)
  step-gripped x enters c = (refl, refl)
  step-gripped x shuts c = (refl, refl)
  step-gripped x releases c = (refl, refl)
  step-gripped x asks_fault c = (refl, refl)
  step-gripped x clears c = (refl, refl)
  step-gripped x receives c = (refl, refl)
  step-gripped x (switches m h) c = (refl, refl)
  step-gripped x (exchanges cmd) c = (refl, refl)
  step-gripped x (sends cmd) c = (refl, refl)

  -- While nobody changes its target, the controller does to a transport exactly what stamping each
  -- outgoing frame does: every other call, its answer and what it throws pass unchanged.
  pub run-gripped :
      (x : Transport R T) (os : List (Order R)) (c : Caller R (Gripped R T))
      → ungripped (run (gripped x) os c)
        ≡ run x (map (stamp_order c.transport.controller) os) (ungripped c)
  unfolding run
  run-gripped x [] c = refl
  run-gripped x (o ∷ os) c =
      let (same_state, kept) = step-gripped x o c in
      let c' = step (gripped x) o c in
      run-gripped x os c' ∙ (λ i. run x (map (stamp_order (kept i)) os) (same_state i))
