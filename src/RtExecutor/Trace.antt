-- ===== src/RtExecutor/Trace.antt =====
-- src/rt_executor.cpp: the order in which the loop enters, computes and leaves the modes.
use kinova_gen3_driver.Prelude.{
  ℕ, ◌≡◌, refl, Bool, true, false, not, ◌&&◌, Option, none, some, List, [], ◌∷◌, if◌then◌else◌, ◌⊎◌,
  inl, inr, arith, Option-cases, if-both, EachOf, then_do-EachOf, ◌then_do◌,
}
use kinova_gen3_driver.Double.{Double}
use kinova_gen3_driver.Monitor.{Dynamics}
use kinova_gen3_driver.RtExecutor.{
  Loop, Call, enters, exits, computes, End, comms_lost, arm_fault, Modes, Cycle, Answer, replies,
  times_out, breaks, Pumping, pumped, pump_times_out, pump_breaks, is_mode, is_lost, count_exchange,
}
use kinova_gen3_driver.RtExecutor.Steps.{
  take_request, exchange, check_fault, advance, finish_cycle, leave, enter, compute_over, switch_to,
  adopt, adopt_taken, on_trip, step_contact, compute_active, after_read, cycle, count_miss,
  count_fault, is_confirmed, check_read, after_exchange, request_mode,
}
use kinova_gen3_driver.RtExecutor.Running.{
  begin, Event, cycles, requests, sets_modes_state, sets_thresholds, asks_clear, step, run, seed,
  begin_cycles, run_loop,
}

-- The mode that was entered last and not left since, from a log.
unfoldable pub inside : {R : Type 0} → List (Call R) → Option ℕ
inside [] = none
inside (c ∷ cs) = let rest = inside cs in elim c [ enters m ↦ some m | exits m ↦ none | _ ↦ rest ]

abbrev is_outside : Option ℕ → Bool
is_outside none = true
is_outside (some _) = false

-- A mode is entered only when none is, and computes and is left only while it is the one entered.
unfoldable pub is_orderly : {R : Type 0} → List (Call R) → Bool
is_orderly [] = true
is_orderly (c ∷ cs) =
    let rest = is_orderly cs in
    rest && (elim c [
      | enters m ↦ is_outside (inside cs)
      | exits m ↦ is_mode m (inside cs)
      | computes m dt ↦ is_mode m (inside cs)
      | _ ↦ true
    ])

module _ {R : Type 0} {S : Type 0} where
  Traced : Loop R S → Type 0
  Traced l = (is_orderly l.calls ≡ true) × (inside l.calls ≡ l.active)

  Ordered : End × Loop R S → Type 0
  Ordered e = is_orderly e.1.calls ≡ true

  Sent : Bool × Loop R S → Type 0
  Sent y = Traced y.1

  abbrev StaysTraced : (End × Loop R S) ⊎ Loop R S → Type 0
  StaysTraced = EachOf Ordered Traced

module _ {R : Type 0} ⦃d : Double R⦄ {S : Type 0} (ms : Modes R S) where
  leave-Traced :
      (l : Loop R S)
      → Traced l
      → (is_orderly (leave ms l.active l).calls ≡ true)
        × (inside (leave ms l.active l).calls ≡ none)
  unfolding Traced leave is_orderly inside
  leave-Traced l (t, i) = elim (Option-cases l.active) [
    | inl e ↦ ground (arith, t, i, e)
    | inr (a, e) ↦ ground (arith, t, i, e)
  ]

  switch_to-StaysTraced :
      (p : Pumping) (m : ℕ) (l : Loop R S) → Traced l → StaysTraced (switch_to ms p m l)
  unfolding Traced Ordered switch_to enter compute_over is_orderly inside
  switch_to-StaysTraced pumped m l t = ground (arith, leave-Traced l t)
  switch_to-StaysTraced pump_times_out m l t = ground (arith, leave-Traced l t)
  switch_to-StaysTraced pump_breaks m l t = ground (arith, leave-Traced l t)

  take_request-Traced : (l : Loop R S) → Traced l → Traced (take_request l).1
  unfolding Traced take_request
  take_request-Traced l t = ground arith

  adopt_taken-StaysTraced :
      (p : Pumping) (r : Option ℕ × Loop R S) → Traced r.1 → StaysTraced (adopt_taken ms p r)
  unfolding adopt_taken Traced
  adopt_taken-StaysTraced p (none, l) t = t
  adopt_taken-StaysTraced p (some m, l) t =
      if-both StaysTraced (is_mode m l.active) (inr l) (switch_to ms p m l) t
        (switch_to-StaysTraced p m l t)

  adopt-StaysTraced : (p : Pumping) (l : Loop R S) → Traced l → StaysTraced (adopt ms p l)
  unfolding adopt
  adopt-StaysTraced p l t = adopt_taken-StaysTraced p (take_request l) (take_request-Traced l t)

  on_trip-Traced :
      (latched missed : Bool) (l : Loop R S) → Traced l → Traced (on_trip ms latched missed l).1
  unfolding Traced on_trip enter is_orderly inside
  on_trip-Traced latched missed l t = elim (Option-cases l.active) [
    | inl e ↦ ground (arith, e)
    | inr (a, e) ↦ ground (arith, e, leave-Traced l t)
  ]

module _ {R : Type 0} {S : Type 0} where
  count_miss-Traced : (l : Loop R S) → Traced l → Traced (count_miss l)
  unfolding Traced is_orderly inside
  count_miss-Traced l t = ground (arith, t)

  Traced-Ordered : (e : End) (l : Loop R S) → Traced l → Ordered (e, l)
  unfolding Traced Ordered
  Traced-Ordered e l t = t.0

  exchange-Traced : (a : Answer R) (l : Loop R S) → Traced l → EachOf Ordered Sent (exchange a l)
  unfolding Traced Ordered Sent exchange is_orderly inside
  exchange-Traced (replies fb) l t = ground (arith, t)
  exchange-Traced times_out l t =
      if-both (EachOf Ordered Sent) (is_lost (count_exchange l.cfg true l.misses).0)
        (inl (comms_lost, count_miss l)) (inr (true, count_miss l))
        (Traced-Ordered comms_lost (count_miss l) (count_miss-Traced l t)) (count_miss-Traced l t)
  exchange-Traced breaks l t = ground (arith, t)

  count_fault-Traced : (l : Loop R S) → Traced l → Traced (count_fault l)
  unfolding Traced
  count_fault-Traced l t = t

  check_read-Traced : (missed : Bool) (l : Loop R S) → Traced l → StaysTraced (check_read missed l)
  unfolding check_read check_fault
  check_read-Traced missed l t =
      if-both StaysTraced (l.cfg.exit_on_fault && not missed) (check_fault l) (inr l)
        (if-both StaysTraced (is_confirmed (count_fault l)) (inl (arm_fault, count_fault l))
          (inr (count_fault l)) (Traced-Ordered arm_fault (count_fault l) (count_fault-Traced l t))
          (count_fault-Traced l t))
        t

  finish_cycle-Traced :
      (x : Cycle R) (missed latched : Bool) (l : Loop R S)
      → Traced l
      → Traced (finish_cycle x missed latched l)
  unfolding Traced finish_cycle advance
  finish_cycle-Traced x missed latched l t = ground (arith, t)

module _ {R : Type 0} ⦃d : Double R⦄ {S : Type 0} (ms : Modes R S) (dyn : Dynamics R)
    (seconds : ℕ → R) where
  step_contact-Traced :
      (t1 : ℕ) (missed : Bool) (l : Loop R S)
      → Traced l
      → Traced (step_contact ms dyn seconds t1 missed l).1
  unfolding Traced step_contact
  step_contact-Traced t1 missed l t = t

  compute_active-Traced :
      (t1 : ℕ) (missed frozen : Bool) (l : Loop R S)
      → Traced l
      → Traced (compute_active ms dyn seconds t1 missed frozen l)
  unfolding Traced compute_active compute_over is_orderly inside
  compute_active-Traced t1 missed frozen l t = elim (Option-cases l.active) [
    | inl e ↦ ground (arith, t, e)
    | inr (m, e) ↦ ground (arith, t, e)
  ]

  after_read-Traced :
      (x : Cycle R) (missed : Bool) (l : Loop R S)
      → Traced l
      → Traced (after_read ms dyn seconds x missed l)
  unfolding after_read
  after_read-Traced x missed l t =
      let s = step_contact ms dyn seconds x.t1 missed l in
      let o = on_trip ms s.0 missed s.1 in
      finish_cycle-Traced x missed s.0 (compute_active ms dyn seconds x.t1 missed o.0 o.1) (
        compute_active-Traced x.t1 missed o.0 o.1
          (on_trip-Traced ms s.0 missed s.1 (step_contact-Traced x.t1 missed l t)))

  after_exchange-StaysTraced :
      (x : Cycle R) (y : Bool × Loop R S) → Sent y → StaysTraced (after_exchange ms dyn seconds x y)
  unfolding after_exchange Sent
  after_exchange-StaysTraced x (missed, l) t =
      then_do-EachOf Ordered Traced Traced (check_read missed l)
        (λ l'. inr (after_read ms dyn seconds x missed l')) (check_read-Traced missed l t)
        λ c tc. after_read-Traced x missed c tc

  cycle-StaysTraced :
      (x : Cycle R) (l : Loop R S) → Traced l → StaysTraced (cycle ms dyn seconds x l)
  unfolding cycle
  cycle-StaysTraced x l t =
      then_do-EachOf Ordered Sent Traced (adopt ms x.pumping l then_do exchange x.answer)
        (after_exchange ms dyn seconds x)
        (then_do-EachOf Ordered Traced Sent (adopt ms x.pumping l) (exchange x.answer)
          (adopt-StaysTraced ms x.pumping l t) (exchange-Traced x.answer))
        (after_exchange-StaysTraced x)

  step-StaysTraced :
      (e : Event R S) (l : Loop R S) → Traced l → StaysTraced (step ms dyn seconds e l)
  unfolding step request_mode Traced
  step-StaysTraced (cycles x) l t = cycle-StaysTraced x l t
  step-StaysTraced (requests m) l t = t
  step-StaysTraced (sets_modes_state s) l t = t
  step-StaysTraced (sets_thresholds theta) l t = t
  step-StaysTraced asks_clear l t = t

  run-StaysTraced :
      (es : List (Event R S)) (l : Loop R S) → Traced l → StaysTraced (run ms dyn seconds es l)
  unfolding run
  run-StaysTraced [] l t = t
  run-StaysTraced (e ∷ es) l t =
      then_do-EachOf Ordered Traced Traced (step ms dyn seconds e l) (run ms dyn seconds es)
        (step-StaysTraced e l t) (run-StaysTraced es)

abbrev pub OnSome : {A : Type 0} → (A → Type 0) → Option A → Type 0
OnSome P none = Unit
OnSome P (some a) = P a

-- The log of a run that has ended or still goes on.
abbrev pub log : {R : Type 0} {S : Type 0} → (End × Loop R S) ⊎ Loop R S → List (Call R)
log (inl (e, l)) = l.calls
log (inr l) = l.calls

module _ {R : Type 0} {S : Type 0} where
  seed-StaysTraced :
      (answers : List (Answer R)) (l : Loop R S) → Traced l → OnSome StaysTraced (seed answers l)
  unfolding seed Traced Sent
  seed-StaysTraced [] l t = tt
  seed-StaysTraced (a ∷ rest) l t =
      sent (seed-StaysTraced rest) (exchange a l) (exchange-Traced a l t)
    where
      sent :
          ((l' : Loop R S) → Traced l' → OnSome StaysTraced (seed rest l'))
          → (o : (End × Loop R S) ⊎ (Bool × Loop R S)) → EachOf Ordered Sent o
          → OnSome StaysTraced (elim o [
            | inl e ↦ some (inl e)
            | inr (missed, l') ↦ if missed then seed rest l' else some (inr l')
          ])
      sent go (inl e) p = p
      sent go (inr (true, l')) p = go l' p
      sent go (inr (false, l')) p = p

  StaysTraced-orderly :
      (o : (End × Loop R S) ⊎ Loop R S) → StaysTraced o → is_orderly (log o) ≡ true
  unfolding Traced Ordered
  StaysTraced-orderly (inl e) p = p
  StaysTraced-orderly (inr l) p = p.0

module _ {R : Type 0} ⦃d : Double R⦄ {S : Type 0} (ms : Modes R S) (dyn : Dynamics R)
    (seconds : ℕ → R) where
  -- Whatever the transport answers, the clock reads and the other threads ask for, from the start of
  -- a run to any moment of it or to its end: the loop enters a mode only when none is entered, and a
  -- mode computes and is left only while it is the one that was entered last and not left since.
  pub run_loop-orderly :
      (answers : List (Answer R)) (read now : ℕ) (es : List (Event R S)) (l : Loop R S)
      → OnSome (λ o. is_orderly (log o) ≡ true) (run_loop ms dyn seconds answers read now es l)
  unfolding run_loop begin is_orderly inside Traced begin_cycles
  run_loop-orderly answers read now es l =
      seeded (seed answers (begin l)) (seed-StaysTraced answers (begin l) (refl, refl))
    where
      seeded :
          (o : Option ((End × Loop R S) ⊎ Loop R S))
          → OnSome StaysTraced o
          → OnSome
              (λ o. is_orderly (log o) ≡ true)
              (elim o [
                | none ↦ none
                | some o ↦ some (o then_do λ l'. run ms dyn seconds es (begin_cycles read now l'))
              ])
      seeded none p = tt
      seeded (some o) p =
          StaysTraced-orderly (o then_do λ l'. run ms dyn seconds es (begin_cycles read now l')) (
            then_do-EachOf Ordered Traced Traced o
              (λ l'. run ms dyn seconds es (begin_cycles read now l')) p
              λ l' t. run-StaysTraced ms dyn seconds es (begin_cycles read now l') t)
