-- ===== src/Kortex/Holding.antt =====
-- src/kortex_transport.cpp: what the arm is sent while its actuators switch modes.
use kinova_gen3_driver.Prelude.{
  ℕ, zero, suc, ◌+◌, ◌≡◌, refl, arith, ap, Bool, true, false, ◌||◌, Option, none, some, List, [],
  ◌∷◌, ◌++◌, map, if◌then◌else◌, ◌==◌, inl, inr, ◌⊎◌, subst, sym, ◌∙◌,
}
use mathlib.Core.List.{append_assoc, append-nil}
use kinova_gen3_driver.Double.{Double, ◌-ᵈ◌, nought}
use kinova_gen3_driver.Types.{index, Joint, JointVec, JointCommand, ActuatorMode}
use kinova_gen3_driver.Kortex.{
  Fault, timeout, rejected, runtime, invalid_argument, sdk_error, Feedback, Request,
  set_control_mode, ControlMode, Ending, answered, refused, unanswered_, CyclicRequest, refresh,
  refresh_command, refresh_feedback, Call, asked, cycled, Kortex, Sdk, SdkError, detailed,
  runtime_error, other_error, Answer, go_on, After, go_on-After, After-of, ending, classify,
  parse_feedback, send_refresh, cyclic_call, ask, rpc, to_kortex_mode,
}
use kinova_gen3_driver.Kortex.Wire.{measured, write_hold, pump}
use kinova_gen3_driver.Kortex.Switching.{
  take_over, count_miss, pump_once, pump_times, switch_each, switch_order, settle,
  set_actuator_modes,
}

-- Whether a request is the switch of the actuator of a joint.
abbrev asks_switch : Request → Joint → Bool
asks_switch (set_control_mode m id) j = id == index j + 1
asks_switch _ j = false

module _ {R : Type 0} where
  abbrev pub switched : Joint → List (Call R) → Bool
  switched j [] = false
  switched j (asked r e ∷ rest) = asks_switch r j || switched j rest
  switched j (cycled r ∷ rest) = switched j rest

  -- The requests of a log that the arm has answered, oldest first.
  abbrev pub done : List (Call R) → List Request
  done [] = []
  done (asked r answered ∷ rest) = done rest ++ r ∷ []
  done (asked r refused ∷ rest) = done rest
  done (asked r unanswered_ ∷ rest) = done rest
  done (cycled r ∷ rest) = done rest

module _ {R : Type 0} ⦃d : Double R⦄ where
  -- The torque that a joint is to be sent next: once it is asked to switch, the incoming command's.
  abbrev pub expected : Option (JointCommand R) → JointVec R → List (Call R) → JointVec R
  expected none m log j = m j
  expected (some hold) m log j = if switched j log then d.to_float (hold.torque j) else m j

  -- Every frame of a log commands each joint the torque that was expected at that moment.
  abbrev pub Held : Option (JointCommand R) → JointVec R → List (Call R) → Type 0
  Held hold m [] = Unit
  Held hold m (cycled (refresh c) ∷ rest) =
      ((j : Joint) → (c.actuators j).torque_joint ≡ expected hold m rest j) × Held hold m rest
  Held hold m (cycled (refresh_command c) ∷ rest) =
      ((j : Joint) → (c.actuators j).torque_joint ≡ expected hold m rest j) × Held hold m rest
  Held hold m (cycled refresh_feedback ∷ rest) = Held hold m rest
  Held hold m (asked r e ∷ rest) = Held hold m rest

  expected-cycled :
      (hold : Option (JointCommand R)) (m : JointVec R) (r : CyclicRequest R) (log : List (Call R))
      (j : Joint)
      → expected hold m (cycled r ∷ log) j ≡ expected hold m log j
  expected-cycled none m r log j = refl
  expected-cycled (some hold) m r log j = refl

  expected-switch :
      (hold : Option (JointCommand R)) (m sent : JointVec R) (c : ControlMode) (e : Ending)
      (log : List (Call R)) (j : Joint)
      → ((i : Joint) → sent i ≡ expected hold m log i)
      → (i : Joint)
      → take_over hold j sent i
        ≡ expected hold m (asked (set_control_mode c (index j + 1)) e ∷ log) i
  unfolding take_over
  expected-switch none m sent c e log j h i = h i
  expected-switch (some hold) m sent c e log j h i = ground (arith, h i)

  parse-calls :
      {W : Type 0} (r : (Fault ⊎ (Bool × Feedback R)) × Kortex R W)
      → (go_on parse_feedback r).1.calls ≡ r.1.calls
  parse-calls (inl e, k) = refl
  parse-calls (inr (true, f), k) = refl
  parse-calls (inr (false, f), k) = refl

  count_miss-calls :
      {W : Type 0} (m : ℕ) (r : (Fault ⊎ Unit {0}) × Kortex R W)
      → (count_miss m r).1.calls ≡ r.1.calls
  count_miss-calls m (inl (timeout w), k) = ground arith
  count_miss-calls m (inl (rejected w), k) = refl
  count_miss-calls m (inl (runtime w), k) = refl
  count_miss-calls m (inl (invalid_argument w), k) = refl
  count_miss-calls m (inl (sdk_error e), k) = refl
  count_miss-calls m (inr u, k) = refl

module _ {R W : Type 0} ⦃d : Double R⦄ (sdk : Sdk R W) where
  pump_once-calls :
      (sent : JointVec R) (m : ℕ) (k : Kortex R W)
      → (pump_once sdk sent m k).1.calls ≡ cycled (refresh ((write_hold sent k).cmd)) ∷ k.calls
  unfolding pump_once pump send_refresh
  pump_once-calls sent m k =
      count_miss-calls m (pump sdk sent k)
      ∙ parse-calls (cyclic_call sdk (refresh ((write_hold sent k).cmd)) (write_hold sent k))

  rpc-calls :
      (r : Request) (k : Kortex R W)
      → (rpc sdk r k).1.calls ≡ asked r (ending (sdk.request r k.world).0) ∷ k.calls
  unfolding rpc ask
  rpc-calls r k = refl

module _ {R W : Type 0} ⦃d : Double R⦄ (sdk : Sdk R W) where
  module _ (modes : JointVec ActuatorMode) (hold : Option (JointCommand R)) (m : JointVec R) where
    abbrev Safe : Kortex R W → Type 0
    Safe k = Held hold m k.calls

    -- `sent` is what is expected next, and `past` are the requests that the arm has answered.
    abbrev Ready : List Request → JointVec R → List (Call R) → Type 0
    Ready past sent log =
        Held hold m log × ((i : Joint) → sent i ≡ expected hold m log i) × (done log ≡ past)

    abbrev to_request : Joint → Request
    to_request j = set_control_mode (to_kortex_mode (modes j)) (index j + 1)

    pump_once-Ready :
        (past : List Request) (sent : JointVec R) (n : ℕ) (k : Kortex R W)
        → Ready past sent k.calls
        → Ready past sent (pump_once sdk sent n k).1.calls
    unfolding write_hold
    pump_once-Ready past sent n k (held, next, p) = rw (pump_once-calls sdk sent n k) (
      (next, held),
      (λ i. next i ∙ sym (expected-cycled hold m (refresh ((write_hold sent k).cmd)) k.calls i)),
      p,
    )

    pump_once-After :
        (past : List Request) (sent : JointVec R) (n : ℕ) (k : Kortex R W)
        → Ready past sent k.calls
        → After Safe (λ _ s. Ready past sent s.calls) (pump_once sdk sent n k)
    pump_once-After past sent n k h =
        let g = pump_once-Ready past sent n k h in
        After-of Safe (λ _ s. Ready past sent s.calls) (pump_once sdk sent n k) (g.0) (λ _. g)

    pump_times-Ready :
        (past : List Request) (sent : JointVec R) (left n : ℕ) (k : Kortex R W)
        → Ready past sent k.calls
        → After Safe (λ _ s. Ready past sent s.calls) (pump_times sdk left sent n k)
    unfolding pump_times
    pump_times-Ready past sent zero n k h = h
    pump_times-Ready past sent (suc left) n k h =
        go_on-After Safe (λ _ s. Ready past sent s.calls) (λ _ s. Ready past sent s.calls)
          (pump_once sdk sent n k) (pump_times sdk left sent) (pump_once-After past sent n k h)
          (λ n' s g. pump_times-Ready past sent left n' s g)

    classify-Ready :
        (past : List Request) (sent : JointVec R) (j : Joint) (k : Kortex R W) (w : W)
        (o : SdkError ⊎ Answer)
        → Ready past sent k.calls
        → After Safe
            (λ a s. Ready (past ++ to_request j ∷ []) (take_over hold j sent) s.calls)
            (classify o, record k { world = w; calls = asked (to_request j) (ending o) ∷ k.calls })
    unfolding classify
    classify-Ready past sent j k w (inr a) (held, next, p) = (
      held,
      expected-switch hold m sent (to_kortex_mode (modes j)) answered k.calls j next,
      ap (λ (l : List Request). l ++ to_request j ∷ []) p,
    )
    classify-Ready past sent j k w (inl (detailed e)) (held, next, p) = held
    classify-Ready past sent j k w (inl (runtime_error e)) (held, next, p) = held
    classify-Ready past sent j k w (inl other_error) (held, next, p) = held

    -- A switch that the arm answers leads to the next torques; one that it does not ends the method.
    rpc-Ready :
        (past : List Request) (sent : JointVec R) (j : Joint) (k : Kortex R W)
        → Ready past sent k.calls
        → After Safe
            (λ a s. Ready (past ++ to_request j ∷ []) (take_over hold j sent) s.calls)
            (rpc sdk (to_request j) k)
    unfolding rpc ask
    rpc-Ready past sent j k h =
        let (o, w) = sdk.request (to_request j) k.world in classify-Ready past sent j k w o h

    switch_each-Ready :
        (js : List Joint) (past : List Request) (sent : JointVec R) (n : ℕ) (k : Kortex R W)
        → Ready past sent k.calls
        → After Safe
            (λ s k'. Ready (past ++ map to_request js) s.0 k'.calls)
            (switch_each sdk modes hold js sent n k)
    unfolding switch_each
    switch_each-Ready [] past sent n k h = rw (append-nil past) h
    switch_each-Ready (j ∷ js) past sent n k h =
        let past' = past ++ to_request j ∷ [] in
        let now = take_over hold j sent in
        let goal : JointVec R × ℕ → Kortex R W → Type 0 =
          λ s k'. Ready (past ++ map to_request (j ∷ js)) s.0 k'.calls in
        go_on-After Safe (λ a s. Ready past' now s.calls) goal (rpc sdk (to_request j) k)
          (λ a s. go_on (switch_each sdk modes hold js now) (pump_once sdk now n s))
          (rpc-Ready past sent j k h)
          (λ a s g.
            go_on-After Safe (λ _ s'. Ready past' now s'.calls) goal (pump_once sdk now n s)
              (switch_each sdk modes hold js now) (pump_once-After past' now n s g)
              (λ n' s' g'.
                subst
                  (λ l.
                    After Safe (λ r k'. Ready l r.0 k'.calls)
                      (switch_each sdk modes hold js now n' s'))
                  (append_assoc past (to_request j ∷ []) (map to_request js))
                  (switch_each-Ready js past' now n' s' g')))

    settle-Ready :
        (past : List Request) (s : JointVec R × ℕ) (k : Kortex R W)
        → Ready past s.0 k.calls
        → After Safe (λ _ t. Held hold m t.calls × (done t.calls ≡ past)) (settle sdk s k)
    settle-Ready past (sent, n) k h =
        go_on-After Safe (λ _ s. Ready past sent s.calls)
          (λ _ t. Held hold m t.calls × (done t.calls ≡ past)) (pump_times sdk 10 sent n k)
          (λ _ t. (inr tt, t)) (pump_times-Ready past sent 10 n k h) (λ _ t g. (g.0, g.2))

    expected-nil : (i : Joint) → m i ≡ expected hold m [] i
    expected-nil i = elim hold as (λ h. m i ≡ expected h m [] i) [ none ↦ refl | some c ↦ refl ]

    start : (log : List (Call R)) → log ≡ [] → Ready [] m log
    start log e = rw e (tt, expected-nil, refl)

  -- A switch of the modes, however the SDK and the arm answer, and however it ends: every frame that
  -- goes out during it commands each joint the opposite of the torque that was read before it, and from
  -- the request of that joint's own switch on the torque of the incoming command, if there is one,
  -- rounded to single precision. If the
  -- method returns, the arm has answered one switch of each actuator, to its mode, in the order of
  -- `switch_order`, and no other request.
  pub set_actuator_modes-Held :
      (modes : JointVec ActuatorMode) (hold : Option (JointCommand R)) (k : Kortex R W)
      → k.calls ≡ []
      → After
          (λ t. Held hold (λ j. nought -ᵈ (k.fb.actuators j).torque) t.calls)
          (λ _ t.
            Held hold (λ j. nought -ᵈ (k.fb.actuators j).torque) t.calls
            × (done t.calls
                ≡ map
                    (λ j. set_control_mode (to_kortex_mode (modes j)) (index j + 1))
                    (switch_order hold)))
          (set_actuator_modes sdk modes hold k)
  unfolding set_actuator_modes
  set_actuator_modes-Held modes hold k none_yet =
      let m = measured k.fb in
      let order = switch_order hold in
      let requests = map (to_request modes hold m) order in
      let first = start modes hold m k.calls none_yet in
      go_on-After (Safe modes hold m) (λ _ s. Ready modes hold m [] m s.calls)
        (λ _ t. Held hold m t.calls × (done t.calls ≡ requests)) (pump_once sdk m 0 k)
        (λ n s. go_on (settle sdk) (switch_each sdk modes hold order m n s))
        (pump_once-After modes hold m [] m 0 k first)
        (λ n s g.
          go_on-After (Safe modes hold m) (λ r k'. Ready modes hold m requests r.0 k'.calls)
            (λ _ t. Held hold m t.calls × (done t.calls ≡ requests))
            (switch_each sdk modes hold order m n s) (settle sdk)
            (switch_each-Ready modes hold m order [] m n s g) (settle-Ready modes hold m requests))
