-- ===== src/Gripper.antt =====
-- src/gripper_controller.cpp: the decorator that stamps a gripper command into every outgoing frame.
-- The double buffer is two fields and an index; `float` is taken as the same parameter as `double`.
use kinova_gen3_driver.Prelude.{◌≡◌, Bool, true, false, arith, if◌then◌else◌}
use kinova_gen3_driver.Double.{Double, ◌<ᵈ◌, nought, one}
use kinova_gen3_driver.Types.{GripperCommand}

-- `buf_[0]`, `buf_[1]`; `active_` is true for index 1.
pub record GripperController (R : Type 0) : Type 0 where
  pub buf0 : GripperCommand R
  pub buf1 : GripperCommand R
  pub active : Bool
  pub stamping : Bool

module _ {R : Type 0} ⦃d : Double R⦄ where
  unfoldable pub clamp01 : R → R
  clamp01 v = if v <ᵈ nought then nought else if one <ᵈ v then one else v

  abbrev clamped : GripperCommand R → GripperCommand R
  clamped c = record c {
    position = clamp01 c.position;
    speed = clamp01 c.speed;
    force = clamp01 c.force;
  }

  unfoldable pub new_gripper : GripperController R
  new_gripper = record { buf0 = blank; buf1 = blank; active = false; stamping = false }
    where
      blank : GripperCommand R
      blank = record { position = nought; speed = one; force = d.lit 5 1; active = false }

  unfoldable pub set_target : GripperCommand R → GripperController R → GripperController R
  unfolding clamp01
  set_target c g =
      if g.active
      then record g { buf0 = clamped c; active = false; stamping = true }
      else record g { buf1 = clamped c; active = true; stamping = true }

  unfoldable pub release : GripperController R → GripperController R
  release g = record g { stamping = false }

  unfoldable pub target : GripperController R → GripperCommand R
  target g = if g.active then g.buf1 else g.buf0

  -- The gripper field of `stamp(c)`; the rest of the frame passes unchanged.
  unfoldable pub stamp : GripperController R → GripperCommand R
  unfolding target
  stamp g = record (target g) { active = g.stamping }

  -- A target, whatever came before, is what the next frames carry, saturated into [0, 1] where a
  -- field is out of it, with `active` set whatever the caller put there.
  pub stamp-set_target :
      (c : GripperCommand R) (g : GripperController R)
      → let out = stamp (set_target c g) in
        (out.active ≡ true)
        × (out.position ≡ clamp01 c.position)
        × (out.speed ≡ clamp01 c.speed)
        × (out.force ≡ clamp01 c.force)
  unfolding stamp set_target
  stamp-set_target c g = ground arith

  -- A release stops the stamping and keeps the target; the next target arms it again.
  pub stamp-release :
      (c : GripperCommand R) (g : GripperController R)
      → ((stamp (release g)).active ≡ false)
        × (target (release g) ≡ target g)
        × (stamp (set_target c (release g)) ≡ stamp (set_target c g))
  unfolding stamp release set_target
  stamp-release c g = ground arith
