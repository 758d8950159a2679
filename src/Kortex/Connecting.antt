-- ===== src/Kortex/Connecting.antt =====
-- src/kortex_transport.cpp: what has been checked when `connect` returns.
use mathlib.Core.List.{append_assoc, append-nil}
use kinova_gen3_driver.Prelude.{
  ℕ, zero, suc, ◌≡◌, refl, ap, subst, ◌∙◌, Bool, true, Option, none, some, String, List, [], ◌∷◌,
  ◌++◌, ◌==◌, inl, inr, ◌⊎◌, Bool-cases, ==_iff,
}
use kinova_gen3_driver.Kortex.{
  Fault, rejected, runtime, invalid_argument, timeout, sdk_error, SdkError, detailed, runtime_error,
  other_error, Answer, Request, connect_tcp, connect_udp, create_tcp_session, create_udp_session,
  get_actuator_count, get_control_mode, Kortex, Sdk, go_on, After, go_on-After, ending, classify, M,
  modify, ask, asked, rpc, ◌>>◌,
}
use kinova_gen3_driver.Kortex.Holding.{done}
use kinova_gen3_driver.Kortex.Lifecycle.{
  demand, unclassified, registered, check_registered, check_count, open_sessions, connect,
}

-- Reads on the actuators `first`, `first` + 1, ...
abbrev pub reads : ℕ → ℕ → List Request
reads first zero = []
reads first (suc left) = get_control_mode first ∷ reads (suc first) left

-- What the arm has answered when a connection is made.
abbrev pub handshake : List Request
handshake =
    connect_tcp
    ∷ connect_udp
    ∷ create_tcp_session
    ∷ create_udp_session
    ∷ get_actuator_count
    ∷ reads 1 7

module _ {R W : Type 0} (sdk : Sdk R W) where
  abbrev At : Bool → ℕ → List Request → Kortex R W → Type 0
  At c m past k = (k.connected ≡ c) × (done k.calls ≡ past) × (k.n ≡ m)

  -- An answer is noted, and what throws leaves `connected` as it was.
  unclassified-At :
      (c : Bool) (m : ℕ) (past : List Request) (r : Request) (k : Kortex R W) (w : W)
      (o : SdkError ⊎ Answer)
      → At c m past k
      → After
          (λ s. s.connected ≡ c)
          (λ _ s. At c m (past ++ r ∷ []) s)
          (unclassified sdk (o, record k { world = w; calls = asked r (ending o) ∷ k.calls }))
  unclassified-At c m past r k w (inl x) (e, p, q) = e
  unclassified-At c m past r k w (inr a) (e, p, q) =
      (e, ap (λ (l : List Request). l ++ r ∷ []) p, q)

  demand-At :
      (c : Bool) (m : ℕ) (past : List Request) (r : Request) (k : Kortex R W)
      → At c m past k
      → After (λ s. s.connected ≡ c) (λ _ s. At c m (past ++ r ∷ []) s) (demand sdk r k)
  unfolding demand ask
  demand-At c m past r k h =
      let (o, w) = sdk.request r k.world in unclassified-At c m past r k w o h

  rpc-At :
      (c : Bool) (m : ℕ) (past : List Request) (r : Request) (k : Kortex R W)
      → At c m past k
      → After (λ s. s.connected ≡ c) (λ _ s. At c m (past ++ r ∷ []) s) (rpc sdk r k)
  unfolding rpc ask classify
  rpc-At c m past r k h = by_outcome (sdk.request r k.world).0 h
    where
      by_outcome :
          (o : SdkError ⊎ Answer)
          → At c m past k
          → After
              (λ s. s.connected ≡ c)
              (λ _ s. At c m (past ++ r ∷ []) s)
              (
                classify o,
                record k {
                  world = (sdk.request r k.world).1;
                  calls = asked r (ending o) ∷ k.calls;
                },
              )
      by_outcome (inr a) (e, p, q) = (e, ap (λ (l : List Request). l ++ r ∷ []) p, q)
      by_outcome (inl (detailed w)) (e, p, q) = e
      by_outcome (inl (runtime_error w)) (e, p, q) = e
      by_outcome (inl other_error) (e, p, q) = e

  registered-At :
      (c : Bool) (m : ℕ) (past : List Request) (r : (Fault ⊎ Answer) × Kortex R W)
      → After (λ s. s.connected ≡ c) (λ _ s. At c m past s) r
      → After (λ s. s.connected ≡ c) (λ _ s. At c m past s) (registered sdk r)
  registered-At c m past (inl (timeout w), k) h = h
  registered-At c m past (inl (rejected w), k) h = h
  registered-At c m past (inl (runtime w), k) h = h
  registered-At c m past (inl (invalid_argument w), k) h = h
  registered-At c m past (inl (sdk_error w), k) h = h
  registered-At c m past (inr a, k) h = h

  check_registered-At :
      (c : Bool) (m : ℕ) (past : List Request) (first left : ℕ) (k : Kortex R W)
      → At c m past k
      → After
          (λ s. s.connected ≡ c)
          (λ _ s. At c m (past ++ reads first left) s)
          (check_registered sdk first left k)
  unfolding check_registered
  check_registered-At c m past first zero k h = rw (append-nil past) h
  check_registered-At c m past first (suc left) k h =
      let r = get_control_mode first in
      go_on-After (λ s. s.connected ≡ c) (λ _ s. At c m (past ++ r ∷ []) s)
        (λ _ s. At c m (past ++ reads first (suc left)) s) (registered sdk (rpc sdk r k))
        (λ _. check_registered sdk (suc first) left)
        (registered-At c m (past ++ r ∷ []) (rpc sdk r k) (rpc-At c m past r k h))
        (λ _ s g.
          subst
            (λ l.
              After (λ s'. s'.connected ≡ c) (λ _ s'. At c m l s')
                (check_registered sdk (suc first) left s))
            (append_assoc past (r ∷ []) (reads (suc first) left))
            (check_registered-At c m (past ++ r ∷ []) (suc first) left s g))

  -- A demand in front of the rest of a method.
  demand-then :
      (c : Bool) (m : ℕ) (past : List Request) (r : Request) {B : Type 0}
      (S : B → Kortex R W → Type 0) (f : Unit {0} → M R W B) (k : Kortex R W)
      → At c m past k
      → ((s : Kortex R W) → At c m (past ++ r ∷ []) s → After (λ t. t.connected ≡ c) S (f tt s))
      → After (λ t. t.connected ≡ c) S (go_on f (demand sdk r k))
  demand-then c m past r S f k h next =
      go_on-After (λ t. t.connected ≡ c) (λ _ s. At c m (past ++ r ∷ []) s) S (demand sdk r k) f
        (demand-At c m past r k h) (λ _ s g. next s g)

  abbrev opened : List Request
  opened = connect_tcp ∷ connect_udp ∷ create_tcp_session ∷ create_udp_session ∷ []

  open_sessions-At :
      (c : Bool) (m : ℕ) (k : Kortex R W)
      → At c m [] k
      → After (λ s. s.connected ≡ c) (λ _ s. At c m opened s) (open_sessions sdk k)
  unfolding open_sessions
  open_sessions-At c m k h =
      let S : Unit {0} → Kortex R W → Type 0 = λ _ s. At c m opened s in
      demand-then c m [] connect_tcp S _ (record k { tcp = true; udp = true }) h
        (λ s1 h1. demand-then c m (connect_tcp ∷ []) connect_udp S _ s1 h1 (λ s2 h2.
          demand-then c m (connect_tcp ∷ connect_udp ∷ []) create_tcp_session S _ _ h2 (λ s3 h3.
            demand-then c m (connect_tcp ∷ connect_udp ∷ create_tcp_session ∷ []) create_udp_session
              S _ s3 h3 (λ s4 h4. h4))))

  -- A count other than 0 and 7 is a configuration error; 0 is an arm that is still booting.
  check_count-At :
      (c : Bool) (m : ℕ) (past : List Request) (n : ℕ) (k : Kortex R W)
      → At c m past k
      → After (λ s. s.connected ≡ c) (λ _ s. At c m past s × (n ≡ 7)) (check_count sdk n k)
  unfolding check_count
  check_count-At c m past n k h = elim (Bool-cases (n == 0)) [
    | inl e ↦ rw e (h.0)
    | inr e ↦ elim (Bool-cases (n == 7)) [
      | inl g ↦ rw (e, g) (h, (==_iff n 7).0 g)
      | inr g ↦ rw (e, g) (h.0)
    ]
  ]

  abbrev Connected : Unit {0} → Kortex R W → Type 0
  Connected u s = (s.connected ≡ true) × (done s.calls ≡ handshake) × (s.n ≡ 7)

  -- The rest of `connect`, once the arm has told its count.
  counted :
      (c : Bool) (a : Answer) (k : Kortex R W)
      → At c a.count (opened ++ get_actuator_count ∷ []) k
      → After
          (λ t. t.connected ≡ c)
          Connected
          ((check_count sdk a.count
              >> (check_registered sdk 1 a.count
                  >> modify (λ (s : Kortex R W). record s { connected = true })))
            k)
  counted c a k h =
      let past = opened ++ get_actuator_count ∷ [] in
      go_on-After (λ t. t.connected ≡ c) (λ _ s. At c a.count past s × (a.count ≡ 7)) Connected
        (check_count sdk a.count k) _ (check_count-At c a.count past a.count k h)
        (λ _ s (g, seven).
          go_on-After (λ t. t.connected ≡ c) (λ _ t. At c a.count (past ++ reads 1 a.count) t)
            Connected (check_registered sdk 1 a.count s) _
            (check_registered-At c a.count past 1 a.count s g)
            (λ _ t f. (refl, f.1 ∙ ap (λ (n : ℕ). past ++ reads 1 n) seven, f.2 ∙ seven)))

  -- A connection is made only with an arm that has answered every request of the handshake, in order,
  -- that reports seven actuators, and each of whose actuators has answered a read. Where any of this
  -- fails, or the route is refused, the transport does not become connected.
  pub connect-After :
      (route : Fault ⊎ Option String) (k : Kortex R W)
      → k.calls ≡ []
      → After
          (λ s. s.connected ≡ k.connected)
          (λ _ s. (s.connected ≡ true) × (done s.calls ≡ handshake) × (s.n ≡ 7))
          (connect sdk route k)
  unfolding connect
  connect-After (inl e) k none_yet = refl
  connect-After (inr (some p)) k none_yet = refl
  connect-After (inr none) k none_yet =
      let c = k.connected in
      let n = k.n in
      go_on-After (λ t. t.connected ≡ c) (λ _ s. At c n opened s) Connected (open_sessions sdk k) _
        (open_sessions-At c n k (refl, ap done none_yet, refl))
        (λ _ s h.
          go_on-After (λ t. t.connected ≡ c) (λ _ t. At c n (opened ++ get_actuator_count ∷ []) t)
            Connected (rpc sdk get_actuator_count s) _ (rpc-At c n opened get_actuator_count s h)
            (λ a t g. counted c a (record t { n = a.count }) (g.0, g.1, refl)))
