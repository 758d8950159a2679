-- ===== src/RtExecutor/Missed.antt =====
-- src/rt_executor.cpp: a cycle whose exchange times out leaves the command and the modes alone.
use kinova_gen3_driver.Prelude.{
  ℕ, ◌≡◌, refl, subst, sym, ap, ◌∙◌, ◌<◌, Bool, true, false, ◌∷◌, if◌then◌else◌, inl, inr, arith,
  Bool-cases, Option-cases, if-both, EachOf,
}
use kinova_gen3_driver.Double.{Double}
use kinova_gen3_driver.Monitor.{Dynamics}
use kinova_gen3_driver.RtExecutor.{
  Loop, exchanges_command, End, comms_lost, Modes, Cycle, times_out, is_lost, count_exchange,
}
use kinova_gen3_driver.RtExecutor.Steps.{
  take_request, exchange, advance, finish_cycle, adopt, adopt_taken, on_trip, step_contact,
  compute_active, after_read, cycle, count_miss, check_read, after_exchange,
}

module _ {R : Type 0} {S : Type 0} where
  -- The loop that a missed cycle leaves, but for the counters, the clock and the sample.
  abbrev pub Resends : Loop R S → Loop R S → Type 0
  Resends l l' =
      (l'.cmd ≡ l.cmd)
      × (l'.fb ≡ l.fb)
      × (l'.modes ≡ l.modes)
      × (l'.active ≡ l.active)
      × (l'.requested ≡ l.requested)
      × (l'.faulty ≡ l.faulty)
      × (l'.last_compute_ns ≡ l.last_compute_ns)
      × (l'.calls ≡ exchanges_command l.cmd ∷ l.calls)

module _ {R : Type 0} ⦃d : Double R⦄ {S : Type 0} (ms : Modes R S) (dyn : Dynamics R)
    (seconds : ℕ → R) where
  compute_active_missed :
      (t1 : ℕ) (frozen : Bool) (l : Loop R S) → compute_active ms dyn seconds t1 true frozen l ≡ l
  unfolding compute_active
  compute_active_missed t1 frozen l = elim (Option-cases l.active) [
    | inl e ↦ ground (arith, e)
    | inr (m, e) ↦ ground (arith, e)
  ]

  on_trip_missed : (latched : Bool) (l : Loop R S) → on_trip ms latched true l ≡ (false, l)
  unfolding on_trip
  on_trip_missed latched l = ground arith

  after_read_missed :
      (x : Cycle R) (l : Loop R S)
      → after_read ms dyn seconds x true l
        ≡ finish_cycle x true
            (step_contact ms dyn seconds x.t1 true l).0
            (step_contact ms dyn seconds x.t1 true l).1
  unfolding after_read
  after_read_missed x l =
      let s = step_contact ms dyn seconds x.t1 true l in
      ap (finish_cycle x true s.0) (
        compute_active_missed x.t1 (on_trip ms s.0 true s.1).0 (on_trip ms s.0 true s.1).1
        ∙ ap (λ (o : Bool × Loop R S). o.1) (on_trip_missed s.0 s.1))

  finish_cycle-Resends :
      (x : Cycle R) (latched : Bool) (l l' : Loop R S)
      → Resends l l'
      → Resends l (finish_cycle x true latched l')
  unfolding finish_cycle advance
  finish_cycle-Resends x latched l l' r = ground (arith, r)

  cycle_times_out :
      (x : Cycle R) (l : Loop R S)
      → x.answer ≡ times_out
      → 0 < l.misses.consecutive
      → cycle ms dyn seconds x l ≡ (
          if is_lost (count_exchange l.cfg true l.misses).0
          then inl (comms_lost, count_miss l)
          else inr (after_read ms dyn seconds x true (count_miss l)))
  unfolding cycle adopt adopt_taken take_request exchange after_exchange check_read
  cycle_times_out x l e c = elim (Bool-cases (is_lost (count_exchange l.cfg true l.misses).0)) [
    | inl h ↦ ground (arith, e, h)
    | inr h ↦ ground (arith, e, h)
  ]

  -- A cycle that begins after a miss and whose own exchange times out either ends the run with comms
  -- loss, or leaves the command, the feedback, the active mode and its state, the pending request
  -- and the count of faulty readings as they were: all that it asks of the transport is to send the
  -- same command again, and no mode is entered, computed or left.
  pub cycle_missed :
      (x : Cycle R) (l : Loop R S)
      → x.answer ≡ times_out
      → 0 < l.misses.consecutive
      → EachOf
          (λ (e : End × Loop R S).
            (e.0 ≡ comms_lost) × (e.1.calls ≡ exchanges_command l.cmd ∷ l.calls))
          (Resends l)
          (cycle ms dyn seconds x l)
  unfolding step_contact
  cycle_missed x l e c =
      subst
        (EachOf
          (λ (e : End × Loop R S).
            (e.0 ≡ comms_lost) × (e.1.calls ≡ exchanges_command l.cmd ∷ l.calls))
          (Resends l))
        (sym (cycle_times_out x l e c))
        (if-both
          (EachOf
            (λ (e : End × Loop R S).
              (e.0 ≡ comms_lost) × (e.1.calls ≡ exchanges_command l.cmd ∷ l.calls))
            (Resends l))
          (is_lost (count_exchange l.cfg true l.misses).0) (inl (comms_lost, count_miss l))
          (inr (after_read ms dyn seconds x true (count_miss l))) (refl, refl)
          (subst (Resends l) (sym (after_read_missed x (count_miss l))) (
            finish_cycle-Resends x (step_contact ms dyn seconds x.t1 true (count_miss l)).0 l
              (step_contact ms dyn seconds x.t1 true (count_miss l)).1
              (refl, refl, refl, refl, refl, refl, refl, refl))))
