-- ===== src/Kortex/Lifecycle.antt =====
-- src/kortex_transport.cpp: connecting, handing the arm back and shutting down. The kernel's verdict
-- about the route (src/arm_route.cpp) is an argument of `connect`.
use Prim.Native.String.{◌++◌}
use kinova_gen3_driver.Prelude.{
  ℕ, zero, suc, Bool, true, false, not, ◌&&◌, ◌||◌, String, Option, none, some, if◌then◌else◌, ltb,
  ◌==◌, ◌⊎◌, inl, inr,
}
use kinova_gen3_driver.Double.{Double}
use kinova_gen3_driver.Kortex.{
  Fault, rejected, runtime, invalid_argument, timeout, sdk_error, SdkError, Answer, Request,
  connect_tcp, connect_udp, create_tcp_session, create_udp_session, get_actuator_count,
  get_control_mode, set_control_mode, set_single_level, get_arm_state, clear_arm_faults,
  close_tcp_session, close_udp_session, disconnect_tcp, disconnect_udp, position_control, Ending,
  unanswered_, Kortex, Sdk, M, go_on, ◌>>=◌, ◌>>◌, pure, throw, modify, ending, ask, rpc,
}
use kinova_gen3_driver.Kortex.Wire.{is_in_fault, set_servoing_low_level}

-- What `attempt` makes of an outcome: only an RPC that the arm never answered is not ok.
abbrev pub still_ok : Bool → Ending → Bool
still_ok ok unanswered_ = false
still_ok ok _ = ok

abbrev pub note_revert : {R W : Type 0} → Bool × Kortex R W → Kortex R W
note_revert (ok, k) = record k { unanswered = not ok }

abbrev pub drop_all : {R W : Type 0} → Kortex R W → Kortex R W
drop_all k = record k {
  tcp = false;
  udp = false;
  tcp_router = false;
  udp_router = false;
  tcp_sess = false;
  udp_sess = false;
  base = false;
  base_cyclic = false;
  act_cfg = false;
  connected = false;
}

module _ {R W : Type 0} (sdk : Sdk R W) where
  abbrev pub unclassified : (SdkError ⊎ Answer) × Kortex R W → (Fault ⊎ Unit {0}) × Kortex R W
  unclassified (inl e, k) = (inl (sdk_error e), k)
  unclassified (inr a, k) = (inr tt, k)

  -- A request whose exceptions leave the method unchanged.
  unfoldable pub demand : Request → M R W (Unit {0})
  unfolding ask
  demand r k = unclassified (ask sdk r k)

  abbrev pub registered : (Fault ⊎ Answer) × Kortex R W → (Fault ⊎ Unit {0}) × Kortex R W
  registered (inl (rejected w), k) =
      (inl (runtime "KortexTransport: actuator not registered yet (still booting?)"), k)
  registered (inl e, k) = (inl e, k)
  registered (inr a, k) = (inr tt, k)

  -- `for (int id = first; id < first + left; ++id)`: a read on each actuator.
  unfoldable pub check_registered : ℕ → ℕ → M R W (Unit {0})
  unfolding rpc
  check_registered id zero k = (inr tt, k)
  check_registered id (suc left) k =
      go_on (λ _. check_registered (suc id) left) (registered (rpc sdk (get_control_mode id) k))

  unfoldable pub check_count : ℕ → M R W (Unit {0})
  check_count n k =
      if n == 0
      then (inl (runtime "KortexTransport: the arm reports no actuators yet (still booting?)"), k)
      else if not (n == 7)
      then (inl (invalid_argument "KortexTransport: actuator count"), k)
      else (inr tt, k)

  -- A call of the SDK that returns has been answered, also a `connect` that failed without throwing: the
  -- method does not look at what it returns.
  unfoldable pub open_sessions : M R W (Unit {0})
  unfolding demand
  open_sessions = do
    modify (λ (s : Kortex R W). record s { tcp = true; udp = true })
    demand connect_tcp
    demand connect_udp
    modify (λ (s : Kortex R W). record s {
      tcp_router = true;
      udp_router = true;
      tcp_sess = true;
      udp_sess = true;
    })
    demand create_tcp_session
    demand create_udp_session
    modify (λ (s : Kortex R W). record s { base = true; base_cyclic = true; act_cfg = true })

  -- `none` is the empty string: nothing is wrong with the route.
  abbrev check_route : Fault ⊎ Option String → M R W (Unit {0})
  check_route (inl e) = throw e
  check_route (inr none) = pure tt
  check_route (inr (some p)) = throw (runtime ("KortexTransport: " ++ p))

  unfoldable pub connect : Fault ⊎ Option String → M R W (Unit {0})
  unfolding rpc open_sessions check_count check_registered
  connect route = do
    check_route route
    open_sessions
    a ← rpc sdk get_actuator_count
    modify (λ (s : Kortex R W). record s { n = a.count })
    check_count a.count
    check_registered 1 a.count
    modify (λ (s : Kortex R W). record s { connected = true })

  unfoldable pub attempt : Request → Bool × Kortex R W → Bool × Kortex R W
  unfolding ask
  attempt r (ok, k) = let (a, k') = ask sdk r k in (still_ok ok (ending a), k')

  -- `for (int idx = first; ok && idx < first + left; ++idx)`.
  unfoldable pub revert_actuators : ℕ → ℕ → Bool × Kortex R W → Bool × Kortex R W
  unfolding attempt
  revert_actuators id zero s = s
  revert_actuators id (suc left) (false, k) = (false, k)
  revert_actuators id (suc left) (true, k) =
      revert_actuators (suc id) left (attempt (set_control_mode position_control id) (true, k))

  unfoldable pub revert_base : Bool × Kortex R W → Bool × Kortex R W
  unfolding attempt
  revert_base (ok, k) = if ok && k.base then attempt set_single_level (ok, k) else (ok, k)

  unfoldable pub release_low_level : Kortex R W → Kortex R W
  unfolding revert_actuators revert_base
  release_low_level k =
      if not k.low_level
      then k
      else let s = record k { low_level = false } in
        note_revert (
          revert_base
            (if k.act_cfg && ltb 0 k.n then revert_actuators 1 k.n (true, s) else (true, s)))

  unfoldable pub arm_in_fault : M R W Bool
  unfolding rpc is_in_fault
  arm_in_fault k =
      if not k.base
      then (inl (timeout "KortexTransport: not connected"), k)
      else go_on (λ a s. (inr (is_in_fault a.arm_state), s)) (rpc sdk get_arm_state k)

  -- A request under `try { … } catch (...) {}`, made only if a condition holds.
  unfoldable pub swallow_if : Bool → Request → Kortex R W → Kortex R W
  unfolding ask
  swallow_if b r k = if b then (ask sdk r k).1 else k

  unfoldable pub safe_shutdown : Kortex R W → Kortex R W
  unfolding release_low_level swallow_if
  safe_shutdown k =
      let a = release_low_level k in
      let b = swallow_if (a.tcp_sess && not a.unanswered) close_tcp_session a in
      let c = swallow_if (b.udp_sess && not b.unanswered) close_udp_session b in
      let e = swallow_if c.tcp disconnect_tcp (record c { unanswered = false }) in
      drop_all (swallow_if e.udp disconnect_udp e)

  unfoldable pub clear_faults : ⦃d : Double R⦄ → Kortex R W → Kortex R W
  unfolding swallow_if set_servoing_low_level
  clear_faults k =
      if not k.connected || not k.base
      then k
      else let s = swallow_if true clear_arm_faults k in
        if s.low_level then (set_servoing_low_level sdk s).1 else s
