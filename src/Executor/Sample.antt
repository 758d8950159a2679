-- ===== src/Executor/Sample.antt =====
-- `sample_target`: the reference of a trajectory at a time, with the derivatives of the polynomial
-- that it lies on. `std::upper_bound` is the first waypoint later than the time.
use kinova_gen3_driver.Prelude.{
  ℕ, Option-cases, inl, inr, ◌≡◌, refl, Bool, true, not, ◌&&◌, ◌||◌, Option, none, some, List, [],
  ◌∷◌, if◌then◌else◌, arith,
}
use kinova_gen3_driver.Double.{Double, ◌+ᵈ◌, ◌-ᵈ◌, ◌*ᵈ◌, ◌/ᵈ◌, ◌<ᵈ◌, ◌≤ᵈ◌, nought, one}
use kinova_gen3_driver.Types.{Joint, JointVec, Trajectory, JointWaypoint}

pub record JointTarget (R : Type 0) : Type 0 where
  pub q : JointVec R
  pub qd : JointVec R
  pub qdd : JointVec R
  pub has_velocity : Bool
  pub has_acceleration : Bool

-- One joint of the quintic: its coefficients from both ends.
pub record Quintic (R : Type 0) : Type 0 where
  pub pos0 : R
  pub v0 : R
  pub a0 : R
  pub c3 : R
  pub c4 : R
  pub c5 : R

module _ {R : Type 0} ⦃d : Double R⦄ where
  abbrev pub back : JointWaypoint R → List (JointWaypoint R) → JointWaypoint R
  back w [] = w
  back w (v ∷ ws) = back v ws

  unfoldable pub duration : Trajectory R → R
  duration plan = elim (plan.points) [ [] ↦ nought | w ∷ ws ↦ (back w ws).t_s ]

  -- The waypoint before the first later one, and that one.
  abbrev pub segment :
      R → JointWaypoint R → List (JointWaypoint R) → Option (JointWaypoint R × JointWaypoint R)
  segment t a [] = none
  segment t a (b ∷ ws) = let rest = segment t b ws in if t <ᵈ b.t_s then some (a, b) else rest

  abbrev pub zero_vec : JointVec R
  zero_vec _ = nought

  unfoldable pub blank_target : Trajectory R → JointTarget R
  blank_target plan = record {
    q = zero_vec;
    qd = zero_vec;
    qdd = zero_vec;
    has_velocity = plan.has_velocities;
    has_acceleration = plan.has_velocities && plan.has_accelerations;
  }

  abbrev lin : ℕ → R
  lin n = d.lit n 0

  unfoldable pub linear : JointWaypoint R → JointWaypoint R → R → JointTarget R → JointTarget R
  linear a b u out = record out { q = λ i. a.q i +ᵈ u *ᵈ (b.q i -ᵈ a.q i) }

  unfoldable pub cubic : JointWaypoint R → JointWaypoint R → R → R → JointTarget R → JointTarget R
  cubic a b span u out =
      let u2 = u *ᵈ u in
      let u3 = u2 *ᵈ u in
      let h00 = lin 2 *ᵈ u3 -ᵈ lin 3 *ᵈ u2 +ᵈ one in
      let h10 = u3 -ᵈ lin 2 *ᵈ u2 +ᵈ u in
      let h01 = (nought -ᵈ lin 2) *ᵈ u3 +ᵈ lin 3 *ᵈ u2 in
      let h11 = u3 -ᵈ u2 in
      let d00 = lin 6 *ᵈ u2 -ᵈ lin 6 *ᵈ u in
      let d10 = lin 3 *ᵈ u2 -ᵈ lin 4 *ᵈ u +ᵈ one in
      let d01 = (nought -ᵈ lin 6) *ᵈ u2 +ᵈ lin 6 *ᵈ u in
      let d11 = lin 3 *ᵈ u2 -ᵈ lin 2 *ᵈ u in
      record out {
        q = λ i. h00 *ᵈ a.q i +ᵈ h10 *ᵈ (a.qd i *ᵈ span) +ᵈ h01 *ᵈ b.q i +ᵈ h11 *ᵈ (b.qd i *ᵈ span);
        qd = λ i.
            (d00 *ᵈ a.q i +ᵈ d10 *ᵈ (a.qd i *ᵈ span) +ᵈ d01 *ᵈ b.q i +ᵈ d11 *ᵈ (b.qd i *ᵈ span))
            /ᵈ span;
      }

  unfoldable pub quintic_coeffs : R → R → R → R → R → R → Quintic R
  quintic_coeffs q0 q1 v0 v1 a0 a1 = record {
    pos0 = q0;
    v0 = v0;
    a0 = a0;
    c3 = lin 10 *ᵈ (q1 -ᵈ q0) -ᵈ lin 6 *ᵈ v0 -ᵈ lin 4 *ᵈ v1 -ᵈ d.lit 15 1 *ᵈ a0 +ᵈ d.lit 5 1 *ᵈ a1;
    c4 =
        (nought -ᵈ lin 15) *ᵈ (q1 -ᵈ q0)
        +ᵈ lin 8 *ᵈ v0
        +ᵈ lin 7 *ᵈ v1
        +ᵈ d.lit 15 1 *ᵈ a0
        -ᵈ one *ᵈ a1;
    c5 = lin 6 *ᵈ (q1 -ᵈ q0) -ᵈ lin 3 *ᵈ v0 -ᵈ lin 3 *ᵈ v1 -ᵈ d.lit 5 1 *ᵈ a0 +ᵈ d.lit 5 1 *ᵈ a1;
  }

  unfoldable pub quintic : JointWaypoint R → JointWaypoint R → R → R → JointTarget R → JointTarget R
  quintic a b span u out =
      let u2 = u *ᵈ u in
      let u3 = u2 *ᵈ u in
      let u4 = u3 *ᵈ u in
      let u5 = u4 *ᵈ u in
      let c : Joint → Quintic R = λ i.
        quintic_coeffs (a.q i) (b.q i) (a.qd i *ᵈ span) (b.qd i *ᵈ span) (a.qdd i *ᵈ span *ᵈ span)
          (b.qdd i *ᵈ span *ᵈ span) in
      record out {
        q = λ i.
            (c i).pos0
            +ᵈ (c i).v0 *ᵈ u
            +ᵈ d.lit 5 1 *ᵈ (c i).a0 *ᵈ u2
            +ᵈ (c i).c3 *ᵈ u3
            +ᵈ (c i).c4 *ᵈ u4
            +ᵈ (c i).c5 *ᵈ u5;
        qd = λ i.
            ((c i).v0
              +ᵈ (c i).a0 *ᵈ u
              +ᵈ lin 3 *ᵈ (c i).c3 *ᵈ u2
              +ᵈ lin 4 *ᵈ (c i).c4 *ᵈ u3
              +ᵈ lin 5 *ᵈ (c i).c5 *ᵈ u4)
            /ᵈ span;
        qdd = λ i.
            ((c i).a0
              +ᵈ lin 6 *ᵈ (c i).c3 *ᵈ u
              +ᵈ lin 12 *ᵈ (c i).c4 *ᵈ u2
              +ᵈ lin 20 *ᵈ (c i).c5 *ᵈ u3)
            /ᵈ (span *ᵈ span);
      }

  -- Inside a segment.
  unfoldable pub interpolate :
      Trajectory R → R → JointWaypoint R → JointWaypoint R → JointTarget R → JointTarget R
  interpolate plan t a b out =
      let span = b.t_s -ᵈ a.t_s in
      let u = (t -ᵈ a.t_s) /ᵈ span in
      if span ≤ᵈ nought
      then record out { q = a.q }
      else if not plan.has_velocities
      then linear a b u out
      else if not plan.has_accelerations
      then cubic a b span u out
      else quintic a b span u out

  unfoldable pub sample_points :
      Trajectory R → R → JointWaypoint R → List (JointWaypoint R) → JointTarget R → JointTarget R
  sample_points plan t w ws out =
      if t ≤ᵈ w.t_s
      then record out { q = w.q }
      else if (back w ws).t_s ≤ᵈ t
      then record out { q = (back w ws).q }
      else elim (segment t w ws) [ none ↦ out | some (a, b) ↦ interpolate plan t a b out ]

  unfoldable pub sample_target : Trajectory R → R → JointTarget R
  sample_target plan t = elim (plan.points) [
    | [] ↦ blank_target plan
    | w ∷ ws ↦ sample_points plan t w ws (blank_target plan)
  ]

  -- Before the first waypoint and after the last the reference is pinned: the joint positions are
  -- those of that waypoint and both derivatives are zero; everywhere, the flags say whether the plan
  -- carried a profile, and so does a trajectory with no waypoints.
  sample_target_pinned :
      (plan : Trajectory R) (t : R) (w : JointWaypoint R) (ws : List (JointWaypoint R))
      → plan.points ≡ w ∷ ws
      → (t ≤ᵈ w.t_s || (back w ws).t_s ≤ᵈ t) ≡ true
      → let s = sample_target plan t in
        (s.q ≡ (if t ≤ᵈ w.t_s then w.q else (back w ws).q))
        × (s.qd ≡ zero_vec)
        × (s.qdd ≡ zero_vec)
        × (s.has_velocity ≡ plan.has_velocities)
        × (s.has_acceleration ≡ (plan.has_velocities && plan.has_accelerations))
  unfolding sample_target sample_points blank_target
  sample_target_pinned plan t w ws e h = ground arith

  flags_kept :
      (plan : Trajectory R) (t : R) (a b : JointWaypoint R) (out : JointTarget R)
      → ((interpolate plan t a b out).has_velocity ≡ out.has_velocity)
        × ((interpolate plan t a b out).has_acceleration ≡ out.has_acceleration)
  unfolding interpolate linear cubic quintic
  flags_kept plan t a b out = ground arith

  points_flags :
      (plan : Trajectory R) (t : R) (w : JointWaypoint R) (ws : List (JointWaypoint R))
      (out : JointTarget R)
      → ((sample_points plan t w ws out).has_velocity ≡ out.has_velocity)
        × ((sample_points plan t w ws out).has_acceleration ≡ out.has_acceleration)
  unfolding sample_points
  points_flags plan t w ws out = elim (Option-cases (segment t w ws)) [
    | inl e ↦ ground arith
    | inr (ab, e) ↦ ground (arith, flags_kept plan t ab.0 ab.1 out)
  ]

  flags_of :
      (plan : Trajectory R) (t : R) (ps : List (JointWaypoint R))
      → plan.points ≡ ps
      → ((sample_target plan t).has_velocity ≡ plan.has_velocities)
        × ((sample_target plan t).has_acceleration
            ≡ (plan.has_velocities && plan.has_accelerations))
  unfolding sample_target blank_target
  flags_of plan t [] e = ground arith
  flags_of plan t (w ∷ ws) e = ground (arith, points_flags plan t w ws (blank_target plan))

  -- The flags never flicker: at every time, inside a segment too, they are the plan's own, and an
  -- acceleration counts only together with a velocity.
  pub sample_target_flags :
      (plan : Trajectory R) (t : R)
      → ((sample_target plan t).has_velocity ≡ plan.has_velocities)
        × ((sample_target plan t).has_acceleration
            ≡ (plan.has_velocities && plan.has_accelerations))
  sample_target_flags plan t = flags_of plan t plan.points refl
