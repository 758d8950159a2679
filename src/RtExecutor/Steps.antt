-- ===== src/RtExecutor/Steps.antt =====
-- src/rt_executor.cpp: the steps of a cycle of the loop.
use kinova_gen3_driver.Prelude.{
  ℕ, ◌+◌, ◌-◌, Bool, true, false, not, ◌&&◌, ◌||◌, Option, none, some, ◌∷◌, if◌then◌else◌, ltb, leb,
  ◌==◌, u64, ◌⊎◌, inl, inr, ◌then_do◌,
}
use kinova_gen3_driver.Double.{Double, nought, min_d}
use kinova_gen3_driver.Types.{joints, JointFeedback}
use kinova_gen3_driver.Telemetry.{push}
use kinova_gen3_driver.Monitor
use kinova_gen3_driver.Monitor.{Dynamics, on_run_start, set_thresholds, request_clear}
use kinova_gen3_driver.RtExecutor.{
  is_lost, count_exchange, Modes, End, Loop, Answer, Pumping, Cycle, fault_confirm,
  left_low_level_confirm, clamp_u32, flag, same_modes, is_mode, contact_latched, enters, exits,
  computes, sets_modes, exchanges_command, comms_lost, arm_fault, propagates, replies, times_out,
  breaks, pumped, pump_times_out, pump_breaks,
}

module _ {R : Type 0} {S : Type 0} where
  unfoldable pub request_mode : ℕ → Loop R S → Loop R S
  request_mode m l = record l { requested = some m }

  unfoldable pub attach_contact : Monitor.Monitor R → ℕ → Loop R S → Loop R S
  attach_contact m k l = record l { contact = some m; on_contact = k }

  -- Step 3: the request that this boundary takes.
  unfoldable pub take_request : Loop R S → Option ℕ × Loop R S
  take_request l =
      if not (l.misses.consecutive == 0)
      then (none, l)
      else if contact_latched l.contact
      then (some l.on_contact, l)
      else (l.requested, record l { requested = none })

  abbrev pub count_miss : Loop R S → Loop R S
  count_miss l = record l {
    misses = (count_exchange l.cfg true l.misses).1;
    calls = exchanges_command l.cmd ∷ l.calls;
  }

  -- Step 4, with `exchange_ok`; the Boolean is `missed`.
  unfoldable pub exchange : Answer R → Loop R S → (End × Loop R S) ⊎ (Bool × Loop R S)
  exchange (replies fb) l = inr (
    false,
    record l {
      fb = fb;
      misses = (count_exchange l.cfg false l.misses).1;
      calls = exchanges_command l.cmd ∷ l.calls;
    },
  )
  exchange times_out l =
      if is_lost (count_exchange l.cfg true l.misses).0
      then inl (comms_lost, count_miss l)
      else inr (true, count_miss l)
  exchange breaks l = inl (
    propagates,
    record l {
      misses = record (l.misses) { exchanges = u64 (l.misses.exchanges + 1) };
      calls = exchanges_command l.cmd ∷ l.calls;
    },
  )

  abbrev pub count_fault : Loop R S → Loop R S
  count_fault l = record l {
    faulty = if l.fb.fault then l.faulty + 1 else 0;
    not_low_level = if l.fb.low_level then 0 else l.not_low_level + 1;
  }

  abbrev pub is_confirmed : Loop R S → Bool
  is_confirmed l = leb fault_confirm l.faulty || leb left_low_level_confirm l.not_low_level

  unfoldable pub check_fault : Loop R S → (End × Loop R S) ⊎ Loop R S
  check_fault l =
      if is_confirmed (count_fault l) then inl (arm_fault, count_fault l) else inr (count_fault l)

  unfoldable pub check_read : Bool → Loop R S → (End × Loop R S) ⊎ Loop R S
  check_read missed l = if l.cfg.exit_on_fault && not missed then check_fault l else inr l

  -- Step 8.
  unfoldable pub advance : ℕ → Loop R S → Bool × Loop R S
  advance now l =
      let next = l.boundary + l.cfg.period_ns in
      if ltb next now
      then (true, record l { boundary = now + l.cfg.period_ns })
      else (false, record l { boundary = next })

  -- Steps 8 and 7.
  unfoldable pub finish_cycle : Cycle R → Bool → Bool → Loop R S → Loop R S
  finish_cycle x missed latched l =
      let moved = advance x.now l in
      record (moved.1) {
        cycle_index = u64 (l.cycle_index + 1);
        ring =
            (push
              (record {
                cycle_index = l.cycle_index;
                wake_jitter_ns = clamp_u32 x.t0 l.boundary;
                comm_ns = clamp_u32 x.t1 x.t0;
                compute_ns = clamp_u32 x.t2 x.t1;
                cycle_ns = clamp_u32 x.t2 x.t0;
                flags = flag moved.0 1 + flag l.fb.fault 2 + flag missed 4 + flag latched 8;
              })
              l.ring).1;
      }

module _ {R : Type 0} ⦃d : Double R⦄ {S : Type 0} (ms : Modes R S) where
  unfoldable pub leave : Option ℕ → Loop R S → Loop R S
  leave none l = l
  leave (some a) l = record l { modes = ms.on_exit a l.modes; calls = exits a ∷ l.calls }

  unfoldable pub enter : ℕ → Loop R S → Loop R S
  enter m l = record l { modes = ms.on_enter m l.fb l.modes; calls = enters m ∷ l.calls }

  unfoldable pub compute_over : ℕ → JointFeedback R → R → Loop R S → Loop R S
  compute_over m fb dt l =
      let out = ms.compute m fb dt l.cmd l.modes in
      record l { cmd = out.0; modes = out.1; calls = computes m dt ∷ l.calls }

  -- The rest of step 3, when the request is not the active mode.
  unfoldable pub switch_to : Pumping → ℕ → Loop R S → (End × Loop R S) ⊎ Loop R S
  switch_to p m l =
      let entered = enter m (leave l.active l) in
      let computed = compute_over m (record (l.fb) { qd = λ _. nought }) l.cfg.dt_s entered in
      let asked = record computed {
        calls = sets_modes (ms.required_modes m) computed.cmd ∷ computed.calls;
      } in
      elim p [
        | pumped ↦ inr (record asked { active = some m; last_compute_ns = none })
        | pump_times_out ↦ inl (comms_lost, asked)
        | pump_breaks ↦ inl (propagates, asked)
      ]

  unfoldable pub adopt_taken : Pumping → Option ℕ × Loop R S → (End × Loop R S) ⊎ Loop R S
  adopt_taken p (none, l) = inr l
  adopt_taken p (some m, l) = if is_mode m l.active then inr l else switch_to p m l

  unfoldable pub adopt : Pumping → Loop R S → (End × Loop R S) ⊎ Loop R S
  adopt p l = adopt_taken p (take_request l)

  -- Step 5b: what the trip does in its own cycle; the Boolean is `frozen`.
  unfoldable pub on_trip : Bool → Bool → Loop R S → Bool × Loop R S
  on_trip latched missed l =
      if not (latched && (not (is_mode l.on_contact l.active) && not missed))
      then (false, l)
      else elim (l.active) [
        | none ↦ (true, freeze)
        | some a ↦
            if same_modes (ms.required_modes a) (ms.required_modes l.on_contact) joints
            then (
              false,
              record (enter l.on_contact (leave (some a) l)) { active = some l.on_contact },
            )
            else (true, freeze)
      ]
    where
      freeze : Loop R S
      freeze = record l { cmd = record (l.cmd) { position = l.fb.q; velocity = λ _. nought } }

module _ {R : Type 0} ⦃d : Double R⦄ (dyn : Dynamics R) where
  unfoldable pub watch :
      JointFeedback R → R → Bool → Option (Monitor.Monitor R) → Bool × Option (Monitor.Monitor R)
  watch fb dt missed none = (false, none)
  watch fb dt missed (some m) =
      let stepped = Monitor.step dyn fb dt missed m in (stepped.0, some stepped.1)

-- `seconds` is a duration in seconds: `double(ns) * 1e-9`.
module _ {R : Type 0} ⦃d : Double R⦄ {S : Type 0} (ms : Modes R S) (dyn : Dynamics R)
    (seconds : ℕ → R) where
  unfoldable pub step_contact : ℕ → Bool → Loop R S → Bool × Loop R S
  step_contact t1 missed l =
      let w = watch dyn l.fb (seconds (t1 - l.last_read_ns)) missed l.contact in
      (w.0, record l { contact = w.1; last_read_ns = t1 })

  -- Step 6.
  unfoldable pub compute_active : ℕ → Bool → Bool → Loop R S → Loop R S
  compute_active t1 missed frozen l = elim (l.active) [
    | none ↦ l
    | some m ↦
        if missed || frozen
        then l
        else compute_over ms m l.fb (since l.last_compute_ns)
            (record l { last_compute_ns = some t1 })
  ]
    where
      since : Option ℕ → R
      since none = l.cfg.dt_s
      since (some t) = min_d (seconds (t1 - t)) l.cfg.max_dt_s

  -- Steps 5 to 8.
  unfoldable pub after_read : Cycle R → Bool → Loop R S → Loop R S
  after_read x missed l =
      let stepped = step_contact x.t1 missed l in
      let tripped = on_trip ms stepped.0 missed stepped.1 in
      finish_cycle x missed stepped.0 (compute_active x.t1 missed tripped.0 tripped.1)

  unfoldable pub after_exchange : Cycle R → Bool × Loop R S → (End × Loop R S) ⊎ Loop R S
  after_exchange x (missed, l) = check_read missed l then_do λ l'. inr (after_read x missed l')

  unfoldable pub cycle : Cycle R → Loop R S → (End × Loop R S) ⊎ Loop R S
  cycle x l = adopt ms x.pumping l then_do exchange x.answer then_do after_exchange x
