-- ===== src/Arbiter/Ownership.antt =====
-- Every method of arbiter.cpp as one operation, and what any sequence of them keeps: who owns the
-- arm, and which token is live.
use kinova_gen3_driver.Prelude.{
  ◌+◌, ◌≡◌, refl, ◌∙◌, subst, Bool, true, false, ◌||◌, String, Option, none, some, List, [], ◌∷◌,
  arith, if◌then◌else◌, ◌==◌, u64, get_or,
}
use kinova_gen3_driver.Types.{
  Token, HaltReason, ownership_revoked, ArbitrationMode, enforced, SpeedOverrideRequest,
}
use kinova_gen3_driver.Ports.{Sinks}
use kinova_gen3_driver.Arbiter.{
  Arbiter, Rng, no_token, init, admit, mint, grant, revoke, estop, estop_clear,
  on_set_speed_override, on_query_contact, on_halt,
}
use kinova_gen3_driver.Arbiter.Admission.{Command, handle, handle_gate}

pub data Call (R : Type 0) : Type 0 where
  command : Command R → Call R
  speed : SpeedOverrideRequest R → Call R
  query_contact : Call R
  halt : HaltReason → Call R
  grant_to : String → Option Token → Call R
  revoke_owner : Call R
  stop : Call R
  clear_stop : Call R

module _ {R G D : Type 0} ⦃g : Rng G⦄ (s : Sinks R D) where
  unfoldable pub step : Call R → Arbiter G D → Arbiter G D
  unfolding on_set_speed_override on_query_contact on_halt grant revoke estop estop_clear
  step (command c) a = handle s c a
  step (speed r) a = (on_set_speed_override s r a).1
  step query_contact a = (on_query_contact s a).1
  step (halt r) a = on_halt s r a
  step (grant_to o t) a = (grant s o t a).1
  step revoke_owner a = revoke s a
  step stop a = estop s a
  step clear_stop a = estop_clear a

  unfoldable pub run : List (Call R) → Arbiter G D → Arbiter G D
  run [] a = a
  run (c ∷ cs) a = run cs (step c a)

  step-mode : (c : Call R) (a : Arbiter G D) → (step c a).mode ≡ a.mode
  unfolding step
  step-mode (command c) a = rw (handle_gate s c a) (ground arith)
  step-mode (grant_to o none) a = ground arith
  step-mode c a = ground arith

  pub run-mode : (cs : List (Call R)) (a : Arbiter G D) → (run cs a).mode ≡ a.mode
  unfolding run
  run-mode [] a = refl
  run-mode (c ∷ cs) a = run-mode cs (step c a) ∙ step-mode c a

-- Without an owner there is no live token; an e-stopped arm has no owner; and a live token is not the
-- all-zero one that an untokened command carries, unless the random source has drawn that one.
pub record IsSound {G D : Type 0} (drawn_blank : Bool) (a : Arbiter G D) : Type 0 where
  pub unowned_blank : a.owned ≡ false → a.token ≡ no_token
  pub stopped_unowned : a.estopped ≡ true → a.owned ≡ false
  pub live_not_blank : a.owned ≡ true → a.token ≡ no_token → drawn_blank ≡ true

init-IsSound : {G D : Type 0} (d : D) (m : ArbitrationMode) (r : G) → IsSound false (init d m r)
unfolding init
init-IsSound d m r = ground arith

module _ {R G D : Type 0} ⦃g : Rng G⦄ (s : Sinks R D) where
  -- Whether a call is a grant without a token for which two zero words would be drawn.
  abbrev pub draws_blank : Call R → Arbiter G D → Bool
  draws_blank (grant_to o none) a = (mint a.rng).0 == no_token
  draws_blank c a = false

  -- Whether some call of a run is.
  abbrev pub run_draws_blank : List (Call R) → Arbiter G D → Bool
  run_draws_blank [] a = false
  run_draws_blank (c ∷ cs) a = let rest = run_draws_blank cs (step s c a) in draws_blank c a || rest

  step-IsSound :
      (b : Bool) (c : Call R) (a : Arbiter G D)
      → IsSound b a
      → IsSound (b || draws_blank c a) (step s c a)
  unfolding step
  step-IsSound b (command c) a v = rw (handle_gate s c a) (ground arith)
  step-IsSound b (grant_to o none) a v = ground arith
  step-IsSound b c a v = ground arith

  run-IsSound :
      (b : Bool) (cs : List (Call R)) (a : Arbiter G D)
      → IsSound b a
      → IsSound (b || run_draws_blank cs a) (run s cs a)
  unfolding run
  run-IsSound b [] a v = ground arith
  run-IsSound b (c ∷ cs) a v =
      subst (λ x. IsSound x (run s cs (step s c a)))
        (or_assoc b (draws_blank c a) (run_draws_blank cs (step s c a)))
        (run-IsSound (b || draws_blank c a) cs (step s c a) (step-IsSound b c a v))
    where
      or_assoc : (x y z : Bool) → ((x || y) || z) ≡ (x || (y || z))
      or_assoc x y z = ground arith

  -- After any calls on a new arbiter, with any random source: an arm without an owner has no live
  -- token, an e-stopped arm has no owner, and if the live token of an owned arm is the all-zero one,
  -- which an untokened command carries, then a grant of the run that named no token has drawn two zero
  -- words from the source; a grant that names a token cannot bring it about.
  pub run-init-IsSound :
      (d : D) (m : ArbitrationMode) (r : G) (cs : List (Call R))
      → IsSound (run_draws_blank cs (init d m r)) (run s cs (init d m r))
  run-init-IsSound d m r cs = run-IsSound false cs (init d m r) (init-IsSound d m r)

  -- After any calls on a new arbiter in enforced mode none of which draws two zero words, a command
  -- that carries the all-zero token is refused.
  run-refuses-blank :
      (d : D) (r : G) (cs : List (Call R))
      → run_draws_blank cs (init d enforced r) ≡ false
      → admit (run s cs (init d enforced r)) no_token ≡ false
  unfolding admit init
  run-refuses-blank d r cs none_drawn =
      ground (arith, run-init-IsSound d enforced r cs, run-mode s cs (init d enforced r))

module _ {R G D : Type 0} ⦃g : Rng G⦄ (s : Sinks R D) where
  -- A grant that is accepted carries the requested token if one was named, counts one generation up,
  -- and leaves the arm owned, not e-stopped and admitting exactly the granted token (enforced mode).
  -- An arm that was owned before was halted exactly once on the way, and an arm that was not was not.
  grant_accepted :
      (o : String) (t : Option Token) (a : Arbiter G D)
      → a.mode ≡ enforced
      → (grant s o t a).0.accepted ≡ true
      → let r = (grant s o t a).0 in
        let b = (grant s o t a).1 in
        (r.generation ≡ u64 (a.generation + 1))
        × (b.generation ≡ r.generation)
        × (b.owner_id ≡ o)
        × (b.down ≡ (if a.owned then s.on_halt ownership_revoked a.down else a.down))
        × ((x : Token) → admit b x ≡ (x == r.token))
        × (get_or r.token t ≡ r.token)
  unfolding grant admit
  grant_accepted o none a m h = ground arith
  grant_accepted o (some t) a m h = ground arith

  -- A grant that is refused changes nothing at all: no halt, no owner, no generation.
  pub grant_refused :
      (o : String) (t : Option Token) (a : Arbiter G D)
      → (grant s o t a).0.accepted ≡ false
      → (grant s o t a).1 ≡ a
  unfolding grant
  grant_refused o none a h = ground arith
  grant_refused o (some t) a h = ground arith
