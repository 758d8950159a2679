-- ===== src/Arbiter/Estop.antt =====
-- The emergency stop of src/interface/arbiter.cpp in a sequence of calls, up to a clear and after it.
use kinova_gen3_driver.Prelude.{
  ◌≡◌, refl, true, false, List, [], ◌∷◌, arith, Option, none, some, String,
}
use kinova_gen3_driver.Types.{HaltReason, emergency_stop, enforced, SpeedOverrideRequest, Token}
use kinova_gen3_driver.Ports.{Sinks}
use kinova_gen3_driver.Arbiter.{Arbiter, Rng, admit, grant, estop, estop_clear}
use kinova_gen3_driver.Arbiter.Admission.{Command, handle_gate, refusal, thresholds}
use kinova_gen3_driver.Arbiter.Ownership.{
  Call, command, speed, query_contact, halt, grant_to, revoke_owner, stop, clear_stop, step, run,
  run-mode,
}

-- The sequence holds no `estop_clear`.
abbrev pub NoClear : {R : Type 0} → List (Call R) → Type 0
NoClear [] = Unit
NoClear (clear_stop ∷ cs) = ⊥
NoClear (c ∷ cs) = NoClear cs

NoClear-tail : {R : Type 0} (c : Call R) (cs : List (Call R)) → NoClear (c ∷ cs) → NoClear cs
NoClear-tail clear_stop cs n = elim n [ ]
NoClear-tail c cs n = n

-- What an ungated method leaves of the sink: halts, contact queries and the speed override.
pub record IsUngated {R D : Type 0} (s : Sinks R D) (P : D → Type 0) : Type 0 where
  pub by_halt : (r : HaltReason) (d : D) → P d → P (s.on_halt r d)
  pub by_query : (d : D) → P d → P (s.on_query_contact d).1
  pub by_speed : (r : SpeedOverrideRequest R) (d : D) → P d → P (s.on_set_speed_override r d).1

module _ {R D : Type 0} (s : Sinks R D) (P : D → Type 0) (u : IsUngated s P) where
  refusal_keeps : (c : Command R) (d : D) → P d → P (refusal s c d)
  refusal_keeps (thresholds r) d p = u.by_query d p
  refusal_keeps c d p = p

  module _ {G : Type 0} ⦃g : Rng G⦄ where
    abbrev Stopped : Arbiter G D → Type 0
    Stopped a = (a.estopped ≡ true) × (a.owned ≡ false) × P a.down

    Stopped-step :
        (c : Call R) (cs : List (Call R)) (a : Arbiter G D)
        → NoClear (c ∷ cs)
        → Stopped a
        → Stopped (step s c a)
    unfolding step admit
    Stopped-step (command c) cs a n h =
        rw (handle_gate s c a) (ground (arith, refusal_keeps c a.down h.2))
    Stopped-step (speed r) cs a n h = (h.0, h.1, u.by_speed r a.down h.2)
    Stopped-step query_contact cs a n h = (h.0, h.1, u.by_query a.down h.2)
    Stopped-step (halt r) cs a n h = (h.0, h.1, u.by_halt r a.down h.2)
    Stopped-step (grant_to o none) cs a n h = ground arith
    Stopped-step (grant_to o (some t)) cs a n h = ground arith
    Stopped-step clear_stop cs a n h = elim n [ ]
    Stopped-step revoke_owner cs a n h = ground arith
    Stopped-step stop cs a n h =
        (refl, refl, u.by_halt emergency_stop _ (u.by_halt emergency_stop _ h.2))

    stop_here : (a : Arbiter G D) → P a.down → Stopped (estop s a)
    unfolding estop
    stop_here a p = (refl, refl, u.by_halt emergency_stop _ (u.by_halt emergency_stop _ p))

    refused :
        (o : String) (t : Option Token) (b : Arbiter G D)
        → b.estopped ≡ true
        → (grant s o t b).0.accepted ≡ false
    unfolding grant
    refused o none b e = ground arith
    refused o (some t) b e = ground arith

    Stopped-run :
        (cs : List (Call R)) (a : Arbiter G D) → NoClear cs → Stopped a → Stopped (run s cs a)
    unfolding run
    Stopped-run [] a n h = h
    Stopped-run (c ∷ cs) a n h =
        Stopped-run cs (step s c a) (NoClear-tail c cs n) (Stopped-step c cs a n h)

    -- After an e-stop, whatever is called before the next clear, in either mode: no command is
    -- admitted, no grant is accepted, and the sink only changes the way halts, contact queries and
    -- the speed override change it (every property that those keep still holds).
    pub estop_silences :
        (a : Arbiter G D) (cs : List (Call R))
        → P a.down
        → NoClear cs
        → let b = run s cs (estop s a) in
          P b.down
          × ((t : Token) → admit b t ≡ false)
          × ((o : String) (t : Option Token) → (grant s o t b).0.accepted ≡ false)
    unfolding estop admit grant
    estop_silences a cs p n =
        let h = Stopped-run cs (estop s a) n (stop_here a p) in
        (h.2, (λ t. ground (arith, h.0)), λ o t. refused o t _ h.0)

    -- A clear after that does not give the arm back: in enforced mode nothing is admitted until a
    -- new grant.
    pub clear_unowned :
        (a : Arbiter G D) (cs : List (Call R)) (t : Token)
        → P a.down
        → NoClear cs
        → a.mode ≡ enforced
        → admit (estop_clear (run s cs (estop s a))) t ≡ false
    unfolding estop_clear admit estop
    clear_unowned a cs t p n m =
        let h = Stopped-run cs (estop s a) n (stop_here a p) in
        ground (arith, h.1, run-mode s cs (estop s a))
