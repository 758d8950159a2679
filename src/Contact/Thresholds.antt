-- ===== src/Contact/Thresholds.antt =====
-- Which contact thresholds pass, and what a request resolves to.
use kinova_gen3_driver.Prelude.{
  ◌≡◌, refl, ◌↔◌, ◌⊎◌, inl, inr, true, none, some, List, [], ◌∷◌, arith, All, Option-cases,
  if◌then◌else◌,
}
use kinova_gen3_driver.Double.{Double, ◌<ᵈ◌, ◌≤ᵈ◌, nought}
use kinova_gen3_driver.Types.{
  Joint, j1, j2, j3, j4, j5, j6, j7, joints, every_joint, JointVec, custom_theta, unknown_theta,
  ContactThresholdsRequest,
}
use kinova_gen3_driver.Contact.{
  ContactProfiles, threshold_failure, check_thresholds, validate_contact_thresholds,
  validate_profiles, resolve_contact, profile_theta,
}

module _ {R : Type 0} ⦃d : Double R⦄ where
  -- A usable threshold: finite, above 0 and no larger than a ceiling that is finite and above 0.
  pub record IsUsable (theta ceiling : R) : Type 0 where
    pub ceiling_finite : d.is_finite ceiling ≡ true
    pub ceiling_pos : (nought <ᵈ ceiling) ≡ true
    pub theta_finite : d.is_finite theta ≡ true
    pub theta_pos : (nought <ᵈ theta) ≡ true
    pub theta_le : (theta ≤ᵈ ceiling) ≡ true

  abbrev pub AllUsable : JointVec R → JointVec R → Type 0
  AllUsable theta ceiling = (i : Joint) → IsUsable (theta i) (ceiling i)

  threshold_failure_iff :
      (theta ceiling : JointVec R) (i : Joint)
      → (threshold_failure theta ceiling i ≡ none) ↔ IsUsable (theta i) (ceiling i)
  unfolding threshold_failure
  threshold_failure_iff theta ceiling i = (ground arith, ground arith)

  check_thresholds-parts :
      (theta ceiling : JointVec R) (i : Joint) (is : List Joint)
      → ((check_thresholds theta ceiling (i ∷ is)).ok ≡ true) ↔ (
          (threshold_failure theta ceiling i ≡ none)
          × ((check_thresholds theta ceiling is).ok ≡ true))
  unfolding check_thresholds
  check_thresholds-parts theta ceiling i is = (ground arith, ground arith)

  check_thresholds_iff :
      (theta ceiling : JointVec R) (is : List Joint)
      → ((check_thresholds theta ceiling is).ok ≡ true)
        ↔ All (λ i. IsUsable (theta i) (ceiling i)) is
  unfolding check_thresholds
  check_thresholds_iff theta ceiling [] = (λ _. tt, λ _. refl)
  check_thresholds_iff theta ceiling (i ∷ is) =
      let first = threshold_failure_iff theta ceiling i in
      let more = check_thresholds_iff theta ceiling is in
      let both = check_thresholds-parts theta ceiling i is in
      (λ e. (first.0 (both.0 e).0, more.0 (both.0 e).1), λ h. both.1 (first.1 h.0, more.1 h.1))

  -- A threshold vector passes exactly when every joint's threshold is finite, above 0 and at most
  -- its ceiling, and every ceiling is finite and above 0.
  validate_contact_thresholds_iff :
      (theta ceiling : JointVec R)
      → ((validate_contact_thresholds theta ceiling).ok ≡ true) ↔ AllUsable theta ceiling
  unfolding validate_contact_thresholds
  validate_contact_thresholds_iff theta ceiling =
      let all = check_thresholds_iff theta ceiling joints in
      (
        λ e. every_joint (λ i. IsUsable (theta i) (ceiling i)) (all.0 e),
        λ h. all.1 (h j1, (h j2, (h j3, (h j4, (h j5, (h j6, (h j7, tt))))))),
      )

  -- A request is accepted exactly when its profile is of the enumeration and the thresholds that it
  -- names are usable under the ceiling; those thresholds, and only those, are then written.
  resolve_contact_iff :
      (r : ContactThresholdsRequest R) (p : ContactProfiles R)
      → (((resolve_contact r p).0.ok ≡ true) ↔ (
          (theta : JointVec R) × (profile_theta r.profile r p ≡ some theta)
          × AllUsable theta p.ceiling))
        × ((resolve_contact r p).1
            ≡ (if (resolve_contact r p).0.ok then profile_theta r.profile r p else none))
  unfolding resolve_contact
  resolve_contact_iff r p = (
    (
      λ e. elim (Option-cases (profile_theta r.profile r p)) [
        | inl missing ↦ absurd (ground arith)
        | inr (theta, named) ↦
            (theta, named, (validate_contact_thresholds_iff theta p.ceiling).0 (ground arith))
      ],
      λ h. ground (arith, (validate_contact_thresholds_iff h.0 p.ceiling).1 h.2),
    ),
    ground arith,
  )

  -- Profiles that pass give a usable answer for every named profile: only a custom request or a
  -- byte outside the enumeration can be refused.
  pub validate_profiles-resolve :
      (r : ContactThresholdsRequest R) (p : ContactProfiles R)
      → (validate_profiles p).ok ≡ true
      → (r.profile ≡ custom_theta)
        ⊎ (r.profile ≡ unknown_theta)
        ⊎ ((resolve_contact r p).0.ok ≡ true)
  unfolding validate_profiles resolve_contact
  validate_profiles-resolve r p e = ground arith
