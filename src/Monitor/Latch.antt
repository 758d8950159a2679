-- ===== src/Monitor/Latch.antt =====
-- The latch of the contact monitor over any sequence of its calls: what sets it, what clears it, and
-- what `step` returns.
use kinova_gen3_driver.Prelude.{
  u64, ◌+◌, ℕ, ◌≡◌, refl, Bool, true, false, not, ◌&&◌, ◌||◌, some, is_some, List, [], ◌∷◌, arith,
}
use kinova_gen3_driver.Double.{Double}
use kinova_gen3_driver.Types.{JointVec, JointFeedback, joints}
use kinova_gen3_driver.Monitor.{
  Monitor, Dynamics, Config, new_monitor, set_thresholds, request_clear, on_run_start, step,
  step_good, is_latched_phase, feed, arm_and_count, adopt_theta, take_clear, skip, publish,
  is_enforce, first_joint, crosses, is_over,
}

pub data Event (R : Type 0) : Type 0 where
  cycle_of : JointFeedback R → R → Bool → Event R
  run_start : Event R
  thresholds : JointVec R → Event R
  clear : Event R

-- The published phase, the latch and the mode agree: only enforce latches.
pub record IsAgreed {R : Type 0} (m : Monitor R) : Type 0 where
  pub phase_is : is_latched_phase m.status.phase ≡ m.latched
  pub enforced : (m.latched && not (is_enforce m.cfg.detection)) ≡ false

module _ {R : Type 0} ⦃d : Double R⦄ (dyn : Dynamics R) where
  unfoldable pub after : Event R → Monitor R → Monitor R
  unfolding set_thresholds request_clear on_run_start
  after (cycle_of fb dt missed) m = (step dyn fb dt missed m).1
  after run_start m = on_run_start m
  after (thresholds theta) m = set_thresholds theta m
  after clear m = request_clear m

  pub run : List (Event R) → Monitor R → Monitor R
  run [] m = m
  run (e ∷ es) m = run es (after e m)

  ready-IsAgreed : (m : Monitor R) → IsAgreed m → IsAgreed (adopt_theta (take_clear m))
  unfolding adopt_theta take_clear
  ready-IsAgreed m v = ground arith

  skip-IsAgreed :
      (dt : R) (missed : Bool) (m : Monitor R) → IsAgreed m → IsAgreed (publish (skip dt missed m))
  unfolding skip publish
  skip-IsAgreed dt missed m v = ground arith

  publish-skip-latched :
      (dt : R) (missed : Bool) (m : Monitor R)
      → ((publish (skip dt missed m)).latched ≡ m.latched)
        × ((publish (skip dt missed m)).clear_requested ≡ m.clear_requested)
  unfolding skip publish
  publish-skip-latched dt missed m = (refl, refl)

  step_good-clear_requested :
      (cycle : ℕ) (fb : JointFeedback R) (dt : R) (m : Monitor R)
      → (step_good dyn cycle fb dt m).1.clear_requested ≡ m.clear_requested
  unfolding step_good feed arm_and_count
  step_good-clear_requested cycle fb dt m = ground arith

  -- On a good sample: the result is the new latch, a latch is kept, and a new one needs enforce
  -- mode, a settled observer and a joint that crosses the debounce count.
  step_good-latch :
      (cycle : ℕ) (fb : JointFeedback R) (dt : R) (m : Monitor R)
      → IsAgreed m
      → let r = step_good dyn cycle fb dt m in
        let fed = feed dyn fb dt m in
        IsAgreed r.1
        × (r.0 ≡ r.1.latched)
        × (r.1.latched ≡ (
            m.latched
            || (fed.status.settled
                && (is_enforce m.cfg.detection
                    && is_some (
                        first_joint
                          (crosses m.cfg.debounce_cycles (is_over fed.status.r m.theta) m.count)
                          joints)))))
  unfolding step_good feed arm_and_count
  step_good-latch cycle fb dt m v = ground arith

  -- Step 1 of a cycle, the cycle counted.
  begun : Monitor R → Monitor R
  begun m = adopt_theta (take_clear (record m { cycle = u64 (m.cycle + 1) }))

  begun-IsAgreed : (m : Monitor R) → IsAgreed m → IsAgreed (begun m)
  unfolding begun
  begun-IsAgreed m v =
      ready-IsAgreed (record m { cycle = u64 (m.cycle + 1) })
        (record { phase_is = v.phase_is; enforced = v.enforced })

  begun-latched :
      (m : Monitor R)
      → m.clear_requested ≡ false
      → ((begun m).latched ≡ m.latched) × ((begun m).clear_requested ≡ false)
  unfolding begun adopt_theta take_clear
  begun-latched m c = ground arith

  pub step-latch :
      (fb : JointFeedback R) (dt : R) (missed : Bool) (m : Monitor R)
      → IsAgreed m
      → let r = step dyn fb dt missed m in IsAgreed r.1 × (r.0 ≡ r.1.latched)
  unfolding step begun
  step-latch fb dt missed m v = ground (
    arith,
    skip-IsAgreed dt missed (begun m) (begun-IsAgreed m v),
    step_good-latch m.cycle fb dt (begun m) (begun-IsAgreed m v),
    publish-skip-latched dt missed (begun m),
  )

  after-IsAgreed : (e : Event R) (m : Monitor R) → IsAgreed m → IsAgreed (after e m)
  unfolding after
  after-IsAgreed (cycle_of fb dt missed) m v = (step-latch fb dt missed m v).0
  after-IsAgreed run_start m v = ground arith
  after-IsAgreed (thresholds theta) m v = ground arith
  after-IsAgreed clear m v = ground arith

  run-IsAgreed : (es : List (Event R)) (m : Monitor R) → IsAgreed m → IsAgreed (run es m)
  unfolding run
  run-IsAgreed [] m v = v
  run-IsAgreed (e ∷ es) m v = run-IsAgreed es (after e m) (after-IsAgreed e m v)

  -- After any cycles, run starts, threshold changes and clears on a new monitor: the phase is
  -- latched exactly when the latch is set, an observe-mode monitor never latches, and what the next
  -- cycle returns is the latch that it leaves.
  pub run-new-IsAgreed :
      (c : Config R) {m : Monitor R} (es : List (Event R)) (fb : JointFeedback R) (dt : R)
      (missed : Bool)
      → new_monitor c ≡ some m
      → let r = step dyn fb dt missed (run es m) in IsAgreed (run es m) × (r.0 ≡ r.1.latched)
  unfolding new_monitor
  run-new-IsAgreed c {m} es fb dt missed e =
      let v : IsAgreed m = ground arith in
      let w = run-IsAgreed es m v in (w, (step-latch fb dt missed (run es m) w).1)

  -- No clear is requested in the sequence.
  abbrev pub NoClear : List (Event R) → Type 0
  NoClear [] = Unit
  NoClear (clear ∷ es) = ⊥
  NoClear (e ∷ es) = NoClear es

  abbrev pub Held : Monitor R → Type 0
  Held m = IsAgreed m × (m.latched ≡ true) × (m.clear_requested ≡ false)

  pub step-Held :
      (fb : JointFeedback R) (dt : R) (missed : Bool) (m : Monitor R)
      → Held m
      → Held (step dyn fb dt missed m).1
  unfolding step begun
  step-Held fb dt missed m h = ground (
    arith,
    skip-IsAgreed dt missed (begun m) (begun-IsAgreed m h.0),
    step_good-latch m.cycle fb dt (begun m) (begun-IsAgreed m h.0),
    publish-skip-latched dt missed (begun m),
    step_good-clear_requested m.cycle fb dt (begun m),
    begun-latched m h.2,
  )

  pub after-Held :
      (e : Event R) (es : List (Event R)) (m : Monitor R)
      → NoClear (e ∷ es)
      → Held m
      → Held (after e m)
  unfolding after
  after-Held (cycle_of fb dt missed) es m n h = step-Held fb dt missed m h
  after-Held run_start es m n h = ground arith
  after-Held (thresholds theta) es m n h = ground arith
  after-Held clear es m n h = elim n [ ]

  NoClear-tail : (e : Event R) (es : List (Event R)) → NoClear (e ∷ es) → NoClear es
  NoClear-tail clear es n = elim n [ ]
  NoClear-tail (cycle_of fb dt missed) es n = n
  NoClear-tail run_start es n = n
  NoClear-tail (thresholds theta) es n = n

  -- A set latch, with no clear pending and the phase and the mode in agreement with it, holds through
  -- any cycles, run starts and threshold changes: only a clear ends it.
  pub run-latched :
      (es : List (Event R)) (m : Monitor R)
      → IsAgreed m
      → m.latched ≡ true
      → m.clear_requested ≡ false
      → NoClear es
      → (run es m).latched ≡ true
  unfolding run
  run-latched [] m v l c n = l
  run-latched (e ∷ es) m v l c n =
      let h = after-Held e es m n (v, l, c) in
      run-latched es (after e m) h.0 h.1 h.2 (NoClear-tail e es n)
