-- ===== src/Kortex/Order.antt =====
-- src/kortex_transport.cpp: the order in which the actuators switch.
use mathlib.Core.List.{Perm}
use mathlib.Core.List.Perm
use kinova_gen3_driver.Prelude.{
  ℕ, All, ◌≤◌, ◌≡◌, refl, arith, sym, ap, ◌∙◌, true, false, some, List, [], ◌∷◌, if◌then◌else◌,
  ◌==◌,
}
use kinova_gen3_driver.Prelude.Sorting.{
  sort_by-perm, sort_by-IsSortedBy, IsSortedBy, IsOrder, sorted_unique,
}
use kinova_gen3_driver.Double.{Double, IsOrdered, ◌<ᵈ◌}
use kinova_gen3_driver.Types.{
  index, Joint, j1, j2, j3, j4, j5, j6, j7, joints, JointVec, JointCommand,
}
use kinova_gen3_driver.Kortex.Switching.{before, switch_order}

module _ {R : Type 0} ⦃d : Double R⦄ (t : JointVec R) where
  -- A later joint holds no less, and if an earlier one holds no less either its number is the greater.
  abbrev pub Follows : Joint → Joint → Type 0
  Follows a b =
      ((d.abs (t b) <ᵈ d.abs (t a)) ≡ false)
      × ((d.abs (t a) <ᵈ d.abs (t b)) ≡ false → index a ≤ index b)

  abbrev pub LightestFirst : List Joint → Type 0
  LightestFirst [] = Unit
  LightestFirst (a ∷ as_) = All (Follows a) as_ × LightestFirst as_

module _ {R : Type 0} ⦃d : Double R⦄ (o : IsOrdered d) (t : JointVec R)
    (finite : (j : Joint) → d.is_finite (d.abs (t j)) ≡ true) where
  before_asym : (a b : Joint) → before t a b ≡ true → before t b a ≡ false
  unfolding before
  before_asym a b h =
      let x = d.abs (t a) in
      let y = d.abs (t b) in ground (arith, o.le_of_lt x y, o.not-lt_of_le x y)

  before-below : (a b c : Joint) → before t a b ≡ true → before t c b ≡ false → before t c a ≡ false
  unfolding before
  before-below a b c h g =
      let x = d.abs (t a) in
      let y = d.abs (t b) in
      let z = d.abs (t c) in
      ground (
        arith,
        o.le_of_lt x y,
        o.le_of_lt y z,
        o.le_of_not_lt z y (finite c) (finite b),
        o.le_of_not_lt y x (finite b) (finite a),
        o.le_of_not_lt x z (finite a) (finite c),
        o.le_trans x y z,
        o.le_trans y z x,
        o.le_trans z x y,
        o.not-lt_of_le x z,
        o.not-lt_of_le y x,
        o.not-lt_of_le z y,
      )

  before-IsOrder : IsOrder (before t)
  before-IsOrder = record { asym = before_asym; below = before-below }

  -- The joint with a number.
  abbrev of_index : ℕ → Joint
  of_index n =
      if n == 0
      then j1
      else if n == 1
      then j2
      else if n == 2
      then j3
      else if n == 3
      then j4
      else if n == 4
      then j5
      else if n == 5
      then j6
      else j7

  of_index-index : (j : Joint) → of_index (index j) ≡ j
  of_index-index j1 = refl
  of_index-index j2 = refl
  of_index-index j3 = refl
  of_index-index j4 = refl
  of_index-index j5 = refl
  of_index-index j6 = refl
  of_index-index j7 = refl

  before_total : (a b : Joint) → before t a b ≡ false → before t b a ≡ false → a ≡ b
  unfolding before
  before_total a b h g =
      let e : index a ≡ index b = ground arith in
      sym (of_index-index a) ∙ ap of_index e ∙ of_index-index b

  Follows-before : (a b : Joint) → before t b a ≡ false → Follows t a b
  unfolding before
  Follows-before a b h = (ground arith, λ e. ground arith)

  before-Follows : (a b : Joint) → Follows t a b → before t b a ≡ false
  unfolding before
  before-Follows a b h = ground arith

  All-to :
      {P Q : Joint → Type 0} → ((b : Joint) → P b → Q b) → (bs : List Joint) → All P bs → All Q bs
  All-to f [] all = tt
  All-to f (b ∷ bs) (now, all) = (f b now, All-to f bs all)

  lightest : (as_ : List Joint) → IsSortedBy (before t) as_ → LightestFirst t as_
  lightest [] h = tt
  lightest (a ∷ as_) (now, h) = (All-to (Follows-before a) as_ now, lightest as_ h)

  sorted : (as_ : List Joint) → LightestFirst t as_ → IsSortedBy (before t) as_
  sorted [] h = tt
  sorted (a ∷ as_) (now, h) = (All-to (before-Follows a) as_ now, sorted as_ h)

-- With a command to hold, none of whose torques is infinite or NaN: each joint switches once, the one
-- that is to hold the least torque in absolute value first and, of two that are to hold as much, the one
-- with the lower number; and any order of the joints with this property, whatever algorithm sorts it,
-- is this one.
pub switch_order-LightestFirst :
    {R : Type 0} ⦃d : Double R⦄
    → (o : IsOrdered d) (hold : JointCommand R)
      (finite : (j : Joint) → d.is_finite (d.abs (hold.torque j)) ≡ true)
    → Perm (switch_order (some hold)) joints
      × LightestFirst hold.torque (switch_order (some hold))
      × ((order : List Joint)
          → Perm order joints
          → LightestFirst hold.torque order
          → order ≡ switch_order (some hold))
unfolding switch_order
switch_order-LightestFirst o hold finite =
    let t = hold.torque in
    let permuted = sort_by-perm (before t) joints in
    let in_order = sort_by-IsSortedBy (before t) (before-IsOrder o t finite) joints in
    (
      permuted,
      lightest o t finite _ in_order,
      λ order m h.
          sorted_unique (before t) (before-IsOrder o t finite) (before_total o t finite) order _
            (sorted o t finite order h) in_order (Perm.trans m (Perm.symm permuted)),
    )
