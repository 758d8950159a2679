-- ===== src/RtExecutor/Latched.antt =====
-- src/rt_executor.cpp: while the contact latch is set, the loop runs the contact mode and no other.
use kinova_gen3_driver.Prelude.{
  ℕ, ◌+◌, ◌≡◌, refl, subst, sym, ◌∙◌, ◌-◌, Bool, true, not, ◌&&◌, ◌||◌, Option, none, some, List,
  [], ◌∷◌, if◌then◌else◌, ◌==◌, ◌⊎◌, inl, inr, arith, Option-cases, if-both, EachOf, then_do-EachOf,
  ◌then_do◌,
}
use mathlib.Core.Option
use kinova_gen3_driver.Double.{Double}
use kinova_gen3_driver.Types.{JointVec, JointFeedback}
use kinova_gen3_driver.Monitor
use kinova_gen3_driver.Monitor.{Dynamics}
use kinova_gen3_driver.Monitor.Latch
use kinova_gen3_driver.Monitor.Latch.{step-Held, step-latch, after-Held}
use kinova_gen3_driver.RtExecutor.{
  Loop, Call, enters, computes, End, comms_lost, arm_fault, Modes, Cycle, Answer, replies,
  times_out, breaks, Pumping, pumped, pump_times_out, pump_breaks, is_mode, is_lost,
  contact_latched, count_exchange,
}
use kinova_gen3_driver.RtExecutor.Steps.{
  take_request, exchange, check_fault, advance, finish_cycle, leave, enter, compute_over, switch_to,
  watch, adopt, adopt_taken, on_trip, step_contact, compute_active, after_read, cycle, count_miss,
  count_fault, is_confirmed, check_read, after_exchange, request_mode,
}
use kinova_gen3_driver.RtExecutor.Running.{
  Event, cycles, requests, sets_modes_state, sets_thresholds, asks_clear, step, run,
}
use kinova_gen3_driver.RtExecutor.Trace.{log}

-- How many times a log enters or computes another mode than `k`.
unfoldable pub foreign : {R : Type 0} → ℕ → List (Call R) → ℕ
foreign k [] = 0
foreign k (c ∷ cs) =
    let rest = foreign k cs in
    elim c [
      | enters m ↦ if m == k then rest else rest + 1
      | computes m dt ↦ if m == k then rest else rest + 1
      | _ ↦ rest
    ]

-- No clear of the contact latch is asked for.
abbrev pub NoClear : {R : Type 0} {S : Type 0} → List (Event R S) → Type 0
NoClear [] = Unit
NoClear (asks_clear ∷ es) = ⊥
NoClear (e ∷ es) = NoClear es

module _ {R : Type 0} ⦃d : Double R⦄ {S : Type 0} (ms : Modes R S) (dyn : Dynamics R)
    (seconds : ℕ → R) where
  IsHeld : Option (Monitor.Monitor R) → Type 0
  IsHeld none = ⊥
  IsHeld (some m) = Latch.Held dyn m

  watch-IsHeld :
      (fb : JointFeedback R) (dt : R) (missed : Bool) (c : Option (Monitor.Monitor R))
      → IsHeld c
      → let w = watch dyn fb dt missed c in (w.0 ≡ true) × IsHeld w.1
  unfolding IsHeld watch
  watch-IsHeld fb dt missed none h = elim h [ ]
  watch-IsHeld fb dt missed (some m) h =
      let h' = step-Held dyn fb dt missed m h in ((step-latch dyn fb dt missed m h.0).1 ∙ h'.1, h')

  thresholds-IsHeld :
      (theta : JointVec R) (c : Option (Monitor.Monitor R))
      → IsHeld c
      → IsHeld (Option.map (Monitor.set_thresholds theta) c)
  unfolding IsHeld Monitor.set_thresholds Latch.after
  thresholds-IsHeld theta none h = h
  thresholds-IsHeld theta (some m) h = after-Held dyn (Latch.thresholds theta) [] m tt h

  module _ (k n : ℕ) where
    Kept : Loop R S → Type 0
    Kept l = (l.on_contact ≡ k) × (foreign k l.calls ≡ n) × IsHeld l.contact

    Over : End × Loop R S → Type 0
    Over e = foreign k e.1.calls ≡ n

    held-latched : (c : Option (Monitor.Monitor R)) → IsHeld c → contact_latched c ≡ true
    unfolding IsHeld
    held-latched none h = elim h [ ]
    held-latched (some m) h = h.1

    leave-Kept : (l : Loop R S) → Kept l → Kept (leave ms l.active l)
    unfolding Kept leave foreign
    leave-Kept l t = elim (Option-cases l.active) [
      | inl e ↦ ground (arith, t, e)
      | inr (a, e) ↦ ground (arith, t, e)
    ]

    switch_to-Kept : (p : Pumping) (l : Loop R S) → Kept l → EachOf Over Kept (switch_to ms p k l)
    unfolding Kept Over switch_to enter compute_over foreign
    switch_to-Kept pumped l t = ground (arith, leave-Kept l t)
    switch_to-Kept pump_times_out l t = ground (arith, leave-Kept l t)
    switch_to-Kept pump_breaks l t = ground (arith, leave-Kept l t)

    take_request-Kept :
        (l : Loop R S) → Kept l → ((take_request l ≡ (none, l)) ⊎ (take_request l ≡ (some k, l)))
    unfolding Kept take_request
    take_request-Kept l t = ground (arith, t, held-latched l.contact t.2)

    adopt-Kept : (p : Pumping) (l : Loop R S) → Kept l → EachOf Over Kept (adopt ms p l)
    unfolding adopt adopt_taken
    adopt-Kept p l t = elim (take_request-Kept l t) [
      | inl e ↦ subst (λ r. EachOf Over Kept (adopt_taken ms p r)) (sym e) t
      | inr e ↦
          subst (λ r. EachOf Over Kept (adopt_taken ms p r)) (sym e)
            (if-both (EachOf Over Kept) (is_mode k l.active) (inr l) (switch_to ms p k l) t
              (switch_to-Kept p l t))
    ]

    Sent : Bool × Loop R S → Type 0
    Sent y = Kept y.1

    count_miss-Kept : (l : Loop R S) → Kept l → Kept (count_miss l)
    unfolding Kept foreign
    count_miss-Kept l t = t

    Kept-Over : (e : End) (l : Loop R S) → Kept l → Over (e, l)
    unfolding Kept Over
    Kept-Over e l t = t.1

    exchange-Kept : (a : Answer R) (l : Loop R S) → Kept l → EachOf Over Sent (exchange a l)
    unfolding Kept Over Sent exchange foreign
    exchange-Kept (replies fb) l t = t
    exchange-Kept times_out l t =
        if-both (EachOf Over Sent) (is_lost (count_exchange l.cfg true l.misses).0)
          (inl (comms_lost, count_miss l)) (inr (true, count_miss l))
          (Kept-Over comms_lost (count_miss l) (count_miss-Kept l t)) (count_miss-Kept l t)
    exchange-Kept breaks l t = t.1

    check_read-Kept :
        (missed : Bool) (l : Loop R S) → Kept l → EachOf Over Kept (check_read missed l)
    unfolding check_read check_fault Kept Over
    check_read-Kept missed l t =
        if-both (EachOf Over Kept) (l.cfg.exit_on_fault && not missed) (check_fault l) (inr l)
          (if-both (EachOf Over Kept) (is_confirmed (count_fault l))
            (inl (arm_fault, count_fault l)) (inr (count_fault l)) (t.1) t)
          t

    step_contact-Kept :
        (t1 : ℕ) (missed : Bool) (l : Loop R S)
        → Kept l
        → let s = step_contact ms dyn seconds t1 missed l in (s.0 ≡ true) × Kept s.1
    unfolding Kept step_contact
    step_contact-Kept t1 missed l t =
        let w = watch-IsHeld l.fb (seconds (t1 - l.last_read_ns)) missed l.contact t.2 in
        (w.0, (t.0, t.1, w.1))

    -- What the trip leaves: the contact mode active, or nothing to compute in this cycle.
    on_trip-Kept :
        (missed : Bool) (l : Loop R S)
        → Kept l
        → let o = on_trip ms true missed l in
          Kept o.1 × ((missed || (o.0 || is_mode k o.1.active)) ≡ true)
    unfolding Kept on_trip enter foreign
    on_trip-Kept missed l t = elim (Option-cases l.active) [
      | inl e ↦ ground (arith, t, e)
      | inr (a, e) ↦ ground (arith, t, e, leave-Kept l t)
    ]

    compute_active-Kept :
        (t1 : ℕ) (missed frozen : Bool) (l : Loop R S)
        → (missed || (frozen || is_mode k l.active)) ≡ true
        → Kept l
        → Kept (compute_active ms dyn seconds t1 missed frozen l)
    unfolding Kept compute_active compute_over foreign
    compute_active-Kept t1 missed frozen l h t = elim (Option-cases l.active) [
      | inl e ↦ ground (arith, t, e)
      | inr (m, e) ↦ ground (arith, t, e)
    ]

    finish_cycle-Kept :
        (x : Cycle R) (missed latched : Bool) (l : Loop R S)
        → Kept l
        → Kept (finish_cycle x missed latched l)
    unfolding Kept finish_cycle advance
    finish_cycle-Kept x missed latched l t = ground (arith, t)

    after_read-Kept :
        (x : Cycle R) (missed : Bool) (l : Loop R S)
        → Kept l
        → Kept (after_read ms dyn seconds x missed l)
    unfolding after_read
    after_read-Kept x missed l t =
        let s = step_contact-Kept x.t1 missed l t in
        let stepped = step_contact ms dyn seconds x.t1 missed l in
        let o = on_trip-Kept missed stepped.1 s.1 in
        let tripped = on_trip ms true missed stepped.1 in
        subst
          (λ b. Kept (
            finish_cycle x missed b (
              compute_active ms dyn seconds x.t1 missed (on_trip ms b missed stepped.1).0
                (on_trip ms b missed stepped.1).1)))
          (sym s.0)
          (finish_cycle-Kept x missed true
            (compute_active ms dyn seconds x.t1 missed tripped.0 tripped.1)
            (compute_active-Kept x.t1 missed tripped.0 tripped.1 o.1 o.0))

    after_exchange-Kept :
        (x : Cycle R) (y : Bool × Loop R S)
        → Sent y
        → EachOf Over Kept (after_exchange ms dyn seconds x y)
    unfolding after_exchange Sent
    after_exchange-Kept x (missed, l) t =
        then_do-EachOf Over Kept Kept (check_read missed l)
          (λ l'. inr (after_read ms dyn seconds x missed l')) (check_read-Kept missed l t)
          λ c tc. after_read-Kept x missed c tc

    cycle-Kept : (x : Cycle R) (l : Loop R S) → Kept l → EachOf Over Kept (cycle ms dyn seconds x l)
    unfolding cycle
    cycle-Kept x l t =
        then_do-EachOf Over Sent Kept (adopt ms x.pumping l then_do exchange x.answer)
          (after_exchange ms dyn seconds x)
          (then_do-EachOf Over Kept Sent (adopt ms x.pumping l) (exchange x.answer)
            (adopt-Kept x.pumping l t) (exchange-Kept x.answer))
          (after_exchange-Kept x)

    step-Kept :
        (e : Event R S) (es : List (Event R S)) (l : Loop R S)
        → NoClear (e ∷ es)
        → Kept l
        → EachOf Over Kept (step ms dyn seconds e l)
    unfolding step request_mode Kept
    step-Kept (cycles x) es l c t = cycle-Kept x l t
    step-Kept (requests m) es l c t = t
    step-Kept (sets_modes_state s) es l c t = t
    step-Kept (sets_thresholds theta) es l c t = (t.0, t.1, thresholds-IsHeld theta l.contact t.2)
    step-Kept asks_clear es l c t = elim c [ ]

    NoClear-tail : (e : Event R S) (es : List (Event R S)) → NoClear (e ∷ es) → NoClear es
    NoClear-tail asks_clear es c = elim c [ ]
    NoClear-tail (cycles x) es c = c
    NoClear-tail (requests m) es c = c
    NoClear-tail (sets_modes_state s) es c = c
    NoClear-tail (sets_thresholds theta) es c = c

    run-Kept :
        (es : List (Event R S)) (l : Loop R S)
        → NoClear es
        → Kept l
        → EachOf Over Kept (run ms dyn seconds es l)
    unfolding run
    run-Kept [] l c t = t
    run-Kept (e ∷ es) l c t =
        then_do-EachOf Over Kept Kept (step ms dyn seconds e l) (run ms dyn seconds es)
          (step-Kept e es l c t) λ l' t'. run-Kept es l' (NoClear-tail e es c) t'

  Kept-foreign :
      (k n : ℕ) (o : (End × Loop R S) ⊎ Loop R S)
      → EachOf (Over k n) (Kept k n) o
      → foreign k (log o) ≡ n
  unfolding Over Kept
  Kept-foreign k n (inl e) p = p
  Kept-foreign k n (inr l) p = p.1

  -- While the contact latch is set and no clear of it is asked for, whatever the transport answers,
  -- whatever modes are requested and whatever thresholds are set: the loop enters and computes no
  -- mode but the contact mode, to the end of the run.
  pub run-foreign :
      (es : List (Event R S)) (l : Loop R S) {m : Monitor.Monitor R}
      → l.contact ≡ some m
      → Latch.Held dyn m
      → NoClear es
      → foreign l.on_contact (log (run ms dyn seconds es l)) ≡ foreign l.on_contact l.calls
  unfolding Kept IsHeld
  run-foreign es l {m} e h c =
      let n = foreign l.on_contact l.calls in
      Kept-foreign l.on_contact n (run ms dyn seconds es l)
        (run-Kept l.on_contact n es l c (refl, refl, subst IsHeld (sym e) h))
