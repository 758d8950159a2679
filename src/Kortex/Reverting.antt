-- ===== src/Kortex/Reverting.antt =====
-- src/kortex_transport.cpp: how the arm is handed back, and what a shutdown leaves.
use kinova_gen3_driver.Prelude.{
  ℕ, zero, suc, ◌≡◌, refl, subst, sym, ap, ◌∙◌, Bool, true, false, not, ◌&&◌, List, [], ◌∷◌, ◌++◌,
  if◌then◌else◌, ltb, inl, inr, ◌⊎◌,
}
use mathlib.Core.Bool.{false≢true}
use mathlib.Core.List.{append_assoc, append-nil}
use kinova_gen3_driver.Kortex.{
  SdkError, detailed, runtime_error, other_error, Answer, Request, set_control_mode,
  set_single_level, position_control, Ending, answered, refused, unanswered_, Call, asked, cycled,
  Kortex, Sdk, ending, ask,
}
use kinova_gen3_driver.Kortex.Lifecycle.{
  attempt, still_ok, revert_actuators, revert_base, note_revert, release_low_level,
}

-- The requests of a log with how each ended, oldest first.
abbrev pub requests : {R : Type 0} → List (Call R) → List (Request × Ending)
requests [] = []
requests (asked r e ∷ rest) = requests rest ++ (r, e) ∷ []
requests (cycled r ∷ rest) = requests rest

-- `for (int idx = first; idx < first + left; ++idx)`: the actuators in position mode.
abbrev pub positions : ℕ → ℕ → List Request
positions first zero = []
positions first (suc left) = set_control_mode position_control first ∷ positions (suc first) left

-- What a revert of the arm asks for when nothing goes unanswered.
abbrev pub revert_requests : {R W : Type 0} → Kortex R W → List Request
revert_requests k =
    (if k.act_cfg && ltb 0 k.n then positions 1 k.n else [])
    ++ (if k.base then set_single_level ∷ [] else [])

-- A plan is worked through in order, past refusals, up to the first request that goes unanswered; the
-- flag says whether there was one.
abbrev pub Worked : List Request → List (Request × Ending) → Bool → Type 0
Worked [] [] u = u ≡ false
Worked [] (_ ∷ _) u = ⊥
Worked (r ∷ rs) [] u = ⊥
Worked (r ∷ rs) ((q, answered) ∷ rest) u = (q ≡ r) × Worked rs rest u
Worked (r ∷ rs) ((q, refused) ∷ rest) u = (q ≡ r) × Worked rs rest u
Worked (r ∷ rs) ((q, unanswered_) ∷ []) u = (q ≡ r) × (u ≡ true)
Worked (r ∷ rs) ((q, unanswered_) ∷ _ ∷ _) u = ⊥

-- Two plans, one after the other: the second is begun only if the first leaves nothing unanswered.
Worked-append :
    (rs qs : List Request) (xs ys : List (Request × Ending)) (u : Bool)
    → Worked rs xs false
    → Worked qs ys u
    → Worked (rs ++ qs) (xs ++ ys) u
Worked-append [] qs [] ys u h g = g
Worked-append [] qs (x ∷ xs) ys u h g = elim h [ ]
Worked-append (r ∷ rs) qs [] ys u h g = elim h [ ]
Worked-append (r ∷ rs) qs ((q, answered) ∷ xs) ys u (e, h) g = (e, Worked-append rs qs xs ys u h g)
Worked-append (r ∷ rs) qs ((q, refused) ∷ xs) ys u (e, h) g = (e, Worked-append rs qs xs ys u h g)
Worked-append (r ∷ rs) qs ((q, unanswered_) ∷ []) ys u (e, h) g = cc
Worked-append (r ∷ rs) qs ((q, unanswered_) ∷ x ∷ xs) ys u h g = elim h [ ]

Worked-cut :
    (rs qs : List Request) (xs : List (Request × Ending))
    → Worked rs xs true
    → Worked (rs ++ qs) xs true
Worked-cut [] qs [] h = cc
Worked-cut [] qs (x ∷ xs) h = elim h [ ]
Worked-cut (r ∷ rs) qs [] h = elim h [ ]
Worked-cut (r ∷ rs) qs ((q, answered) ∷ xs) (e, h) = (e, Worked-cut rs qs xs h)
Worked-cut (r ∷ rs) qs ((q, refused) ∷ xs) (e, h) = (e, Worked-cut rs qs xs h)
Worked-cut (r ∷ rs) qs ((q, unanswered_) ∷ []) h = h
Worked-cut (r ∷ rs) qs ((q, unanswered_) ∷ x ∷ xs) h = elim h [ ]

module _ {R W : Type 0} (sdk : Sdk R W) where
  -- A part of the revert adds to the log what working a plan adds, `ok` saying that all was answered,
  -- and changes nothing but the log and the arm.
  abbrev Adds : List Request → Kortex R W → Bool × Kortex R W → Type 0
  Adds plan k (ok, k') =
      ((xs : List (Request × Ending)) × (requests k'.calls ≡ requests k.calls ++ xs)
        × Worked plan xs (not ok))
      × (k'.low_level ≡ k.low_level)
      × (k'.base ≡ k.base)

  attempt-Adds : (r : Request) (k : Kortex R W) → Adds (r ∷ []) k (attempt sdk r (true, k))
  unfolding attempt ask
  attempt-Adds r k = by_outcome (sdk.request r k.world).0
    where
      by_outcome :
          (o : SdkError ⊎ Answer)
          → Adds (r ∷ []) k (
            still_ok true (ending o),
            record k { world = (sdk.request r k.world).1; calls = asked r (ending o) ∷ k.calls },
          )
      by_outcome (inr a) = (((r, answered) ∷ [], refl, (refl, refl)), refl, refl)
      by_outcome (inl (detailed w)) = (((r, refused) ∷ [], refl, (refl, refl)), refl, refl)
      by_outcome (inl (runtime_error w)) = (((r, unanswered_) ∷ [], refl, (refl, refl)), refl, refl)
      by_outcome (inl other_error) = (((r, unanswered_) ∷ [], refl, (refl, refl)), refl, refl)

  -- One part after another.
  Adds-then :
      (ps qs : List Request) (k : Kortex R W) (s t : Bool × Kortex R W)
      → Adds ps k s
      → (s.0 ≡ true → Adds qs s.1 t)
      → (s.0 ≡ false → t ≡ s)
      → Adds (ps ++ qs) k t
  Adds-then ps qs k (true, k1) (ok, k2) ((xs, e, w), l, b) more stop =
      let ((ys, e', w'), l', b') = more refl in
      (
        (
          xs ++ ys,
          e'
              ∙ ap (λ (z : List (Request × Ending)). z ++ ys) e
              ∙ append_assoc (requests k.calls) xs ys,
          Worked-append ps qs xs ys (not ok) w w',
        ),
        l' ∙ l,
        b' ∙ b,
      )
  Adds-then ps qs k (false, k1) t ((xs, e, w), l, b) more stop =
      rw (stop refl) ((xs, e, Worked-cut ps qs xs w), l, b)

  resume :
      (first left : ℕ) (plan : List Request) (s : Bool × Kortex R W)
      → Adds plan s.1 (revert_actuators sdk first left (true, s.1))
      → s.0 ≡ true
      → Adds plan s.1 (revert_actuators sdk first left s)
  resume first left plan (true, k) h e = h
  resume first left plan (false, k) h e = cc

  stopped :
      (first left : ℕ) (s : Bool × Kortex R W) → s.0 ≡ false → revert_actuators sdk first left s ≡ s
  unfolding revert_actuators
  stopped first zero s e = refl
  stopped first (suc left) (false, k) e = refl
  stopped first (suc left) (true, k) e = cc

  revert_actuators-Adds :
      (first left : ℕ) (k : Kortex R W)
      → Adds (positions first left) k (revert_actuators sdk first left (true, k))
  unfolding revert_actuators
  revert_actuators-Adds first zero k = (([], sym (append-nil (requests k.calls)), refl), refl, refl)
  revert_actuators-Adds first (suc left) k =
      let r = set_control_mode position_control first in
      let s = attempt sdk r (true, k) in
      Adds-then (r ∷ []) (positions (suc first) left) k s (revert_actuators sdk (suc first) left s)
        (attempt-Adds r k)
        (resume (suc first) left (positions (suc first) left) s
          (revert_actuators-Adds (suc first) left s.1))
        (stopped (suc first) left s)

  abbrev none_more : (k : Kortex R W) → Adds [] k (true, k)
  none_more k = (([], sym (append-nil (requests k.calls)), refl), refl, refl)

  either :
      (b : Bool) (plan : List Request) (k : Kortex R W) (s : Bool × Kortex R W)
      → Adds plan k s
      → Adds (if b then plan else []) k (if b then s else (true, k))
  either true plan k s h = h
  either false plan k s h = none_more k

  base-Adds :
      (s : Bool × Kortex R W)
      → s.0 ≡ true
      → Adds (if s.1.base then set_single_level ∷ [] else []) s.1 (revert_base sdk s)
  unfolding revert_base
  base-Adds (true, k) e =
      either k.base (set_single_level ∷ []) k (attempt sdk set_single_level (true, k))
        (attempt-Adds set_single_level k)
  base-Adds (false, k) e = cc

  base_stopped : (s : Bool × Kortex R W) → s.0 ≡ false → revert_base sdk s ≡ s
  unfolding revert_base
  base_stopped (true, k) e = cc
  base_stopped (false, k) e = refl

  abbrev actuators_first : Kortex R W → Bool × Kortex R W
  actuators_first k =
      if k.act_cfg && ltb 0 k.n then revert_actuators sdk 1 k.n (true, k) else (true, k)

  revert-Adds : (k : Kortex R W) → Adds (revert_requests k) k (revert_base sdk (actuators_first k))
  revert-Adds k =
      let s = actuators_first k in
      let plan = if k.act_cfg && ltb 0 k.n then positions 1 k.n else [] in
      let h =
        either (k.act_cfg && ltb 0 k.n) (positions 1 k.n) k (revert_actuators sdk 1 k.n (true, k))
          (revert_actuators-Adds 1 k.n k) in
      Adds-then plan (if k.base then set_single_level ∷ [] else []) k s (revert_base sdk s) h
        (λ e.
          subst (λ b. Adds (if b then set_single_level ∷ [] else []) s.1 (revert_base sdk s)) h.2
            (base-Adds s e))
        (base_stopped s)

  low_level-note_revert : (s : Bool × Kortex R W) → (note_revert s).low_level ≡ s.1.low_level
  low_level-note_revert (ok, k) = refl

  noted :
      (plan : List Request) (k : Kortex R W) (s : Bool × Kortex R W)
      → k.calls ≡ []
      → k.low_level ≡ false
      → Adds plan k s
      → let t = note_revert s in (t.low_level ≡ false) × Worked plan (requests t.calls) t.unanswered
  noted plan k (ok, k') none_yet out ((xs, e, w), l, b) = (
    l ∙ out,
    subst (λ z. Worked plan z (not ok))
        (sym (e ∙ ap (λ (c : List (Call R)). requests c ++ xs) none_yet)) w,
  )

  abbrev released_if : Bool → Kortex R W → Kortex R W
  released_if low k =
      if not low
      then k
      else note_revert (revert_base sdk (actuators_first (record k { low_level = false })))

  by_level :
      (k : Kortex R W)
      → k.calls ≡ []
      → (low : Bool) → k.low_level ≡ low
      → let t = released_if low k in
        (t.low_level ≡ false)
        × (low ≡ true → Worked (revert_requests k) (requests t.calls) t.unanswered)
        × (low ≡ false → t ≡ k)
  by_level k none_yet false e = (e, (λ f. absurd (false≢true f)), (λ _. refl))
  by_level k none_yet true e =
      let s = record k { low_level = false } in
      let g =
        noted (revert_requests s) s (revert_base sdk (actuators_first s)) none_yet refl
          (revert-Adds s) in
      (g.0, (λ _. g.1), (λ f. absurd (false≢true (sym f))))

  pub low_level-release_low_level : (k : Kortex R W) → (release_low_level sdk k).low_level ≡ false
  unfolding release_low_level
  low_level-release_low_level k = by_test k.low_level refl
    where
      by_test : (low : Bool) → k.low_level ≡ low → (released_if low k).low_level ≡ false
      by_test false e = e
      by_test true e =
          let s = record k { low_level = false } in
          let t = revert_base sdk (actuators_first s) in low_level-note_revert t ∙ (revert-Adds s).1

  -- Handing the arm back, however it answers: out of low-level servoing nothing is done. Otherwise the
  -- actuators are asked into position mode one by one and then the base out of low-level servoing, each
  -- request once and in this order, past refusals; the first that goes unanswered is the last, and
  -- `unanswered` says whether there was one. Low-level servoing is over either way.
  pub release_low_level-Worked :
      (k : Kortex R W)
      → k.calls ≡ []
      → let t = release_low_level sdk k in
        (t.low_level ≡ false)
        × (k.low_level ≡ true → Worked (revert_requests k) (requests t.calls) t.unanswered)
        × (k.low_level ≡ false → t ≡ k)
  unfolding release_low_level
  release_low_level-Worked k none_yet = by_level k none_yet k.low_level refl
