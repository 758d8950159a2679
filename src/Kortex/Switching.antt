-- ===== src/Kortex/Switching.antt =====
-- src/kortex_transport.cpp: `set_actuator_modes`, the switch of the actuators' control modes one at a
-- time, with a frame after each so that the cyclic channel stays alive.
use kinova_gen3_driver.Prelude.{
  ℕ, zero, suc, ◌+◌, Bool, not, ◌&&◌, ◌||◌, Option, none, some, List, [], ◌∷◌, if◌then◌else◌, ltb,
  inl, inr, ◌⊎◌,
}
use kinova_gen3_driver.Prelude.Sorting.{sort_by}
use kinova_gen3_driver.Double.{Double, ◌<ᵈ◌}
use kinova_gen3_driver.Types.{Joint, index, same, joints, JointVec, JointCommand, ActuatorMode}
use kinova_gen3_driver.Kortex.{
  Fault, timeout, set_control_mode, Kortex, Sdk, M, go_on, pure, to_kortex_mode, rpc,
}
use kinova_gen3_driver.Kortex.Wire.{measured, pump}

-- `kMaxConsecutiveTimeouts`.
abbrev max_consecutive_timeouts : ℕ
max_consecutive_timeouts = 3

-- The torque of the frames after the switch of joint `j`.
unfoldable pub take_over :
    {R : Type 0} ⦃d : Double R⦄ → Option (JointCommand R) → Joint → JointVec R → JointVec R
take_over ⦃d = d⦄ none j sent i = sent i
take_over ⦃d = d⦄ (some hold) j sent i = if same i j then d.to_float (hold.torque i) else sent i

-- A lost frame is skipped, three in a row are not; the value is `misses`.
abbrev pub count_miss :
    {R W : Type 0} → ℕ → (Fault ⊎ Unit {0}) × Kortex R W → (Fault ⊎ ℕ) × Kortex R W
count_miss m (inl (timeout w), k) =
    if ltb (m + 1) max_consecutive_timeouts then (inr (m + 1), k) else (inl (timeout w), k)
count_miss m (inl e, k) = (inl e, k)
count_miss m (inr u, k) = (inr 0, k)

module _ {R : Type 0} ⦃d : Double R⦄ where
  -- `std::make_pair(|torque[a]|, a) < std::make_pair(|torque[b]|, b)`.
  unfoldable pub before : JointVec R → Joint → Joint → Bool
  before t a b =
      (d.abs (t a) <ᵈ d.abs (t b)) || (not (d.abs (t b) <ᵈ d.abs (t a)) && ltb (index a) (index b))

  -- `std::sort`, which is any sort: Kortex/Order shows that the sorted order is unique.
  unfoldable pub switch_order : Option (JointCommand R) → List Joint
  unfolding sort_by before
  switch_order none = joints
  switch_order (some hold) = sort_by (before hold.torque) joints

  module _ {W : Type 0} (sdk : Sdk R W) where
    unfoldable pub pump_once : JointVec R → ℕ → M R W ℕ
    unfolding pump
    pump_once sent m k = count_miss m (pump sdk sent k)

    unfoldable pub pump_times : ℕ → JointVec R → ℕ → M R W ℕ
    unfolding pump_once
    pump_times zero sent m k = (inr m, k)
    pump_times (suc left) sent m k = go_on (pump_times left sent) (pump_once sent m k)

    -- The loop over the order; what it leaves is `sent` and `misses`.
    unfoldable pub switch_each :
        JointVec ActuatorMode
        → Option (JointCommand R)
        → List Joint
        → JointVec R
        → ℕ
        → M R W (JointVec R × ℕ)
    unfolding rpc take_over pump_once
    switch_each modes hold [] sent m k = (inr (sent, m), k)
    switch_each modes hold (j ∷ js) sent m k =
        go_on
          (λ a s.
            let now = take_over hold j sent in
            go_on (switch_each modes hold js now) (pump_once now m s))
          (rpc sdk (set_control_mode (to_kortex_mode (modes j)) (index j + 1)) k)

    abbrev pub settle : JointVec R × ℕ → M R W (Unit {0})
    settle (sent, m) k = go_on (λ _. pure tt) (pump_times 10 sent m k)

    unfoldable pub set_actuator_modes :
        JointVec ActuatorMode → Option (JointCommand R) → M R W (Unit {0})
    unfolding switch_order switch_each pump_once pump_times
    set_actuator_modes modes hold k =
        let sent = measured k.fb in
        go_on (λ m s. go_on settle (switch_each modes hold (switch_order hold) sent m s))
          (pump_once sent 0 k)
