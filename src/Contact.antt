-- ===== src/Contact.antt =====
-- src/interface/contact.cpp and `validate_contact_thresholds` of src/contact_monitor.cpp: contact
-- thresholds and their profiles. `ostringstream` is `show`.
pub mod Thresholds
use Prim.Native.String.{◌++◌}
use kinova_gen3_driver.Prelude.{
  Bool, true, false, not, ◌&&◌, Option, none, some, List, [], ◌∷◌, String, if◌then◌else◌,
}
use kinova_gen3_driver.Double.{Double, ◌<ᵈ◌, ◌≤ᵈ◌, nought}
use kinova_gen3_driver.Types.{
  Joint, joints, JointVec, ContactProfile, default_theta, sensitive, loose, custom_theta,
  unknown_theta, ContactThresholdsRequest,
}
use kinova_gen3_driver.Gains.{Check, vec}

pub record ContactProfiles (R : Type 0) : Type 0 where
  pub sensitive_theta : JointVec R
  pub normal : JointVec R
  pub loose_theta : JointVec R
  pub ceiling : JointVec R

abbrev pub number_text : Joint → String
number_text = vec "1" "2" "3" "4" "5" "6" "7"

abbrev pub pass : Check
pass = record { ok = true; message = "" }

abbrev pub refuse : String → Check
refuse m = record { ok = false; message = m }

abbrev pub prefixed : String → Check → Check
prefixed p c = record c { message = p ++ c.message }

module _ {R : Type 0} ⦃d : Double R⦄ where
  -- One round of the loop. Both tests are negated accepts, so NaN is refused.
  unfoldable pub threshold_failure : JointVec R → JointVec R → Joint → Option String
  threshold_failure theta ceiling i =
      if not (d.is_finite (ceiling i) && (nought <ᵈ ceiling i))
      then some (
          "joint "
          ++ number_text i
          ++ " ceiling "
          ++ d.show (ceiling i)
          ++ " N·m must be finite and > 0")
      else if not (d.is_finite (theta i) && ((nought <ᵈ theta i) && (theta i ≤ᵈ ceiling i)))
      then some (
          "joint "
          ++ number_text i
          ++ " threshold "
          ++ d.show (theta i)
          ++ " N·m must be finite, > 0 and <= ceiling "
          ++ d.show (ceiling i)
          ++ " N·m")
      else none

  unfoldable pub check_thresholds : JointVec R → JointVec R → List Joint → Check
  check_thresholds theta ceiling [] = pass
  check_thresholds theta ceiling (i ∷ is) =
      let rest = check_thresholds theta ceiling is in
      elim (threshold_failure theta ceiling i) [ some m ↦ refuse m | none ↦ rest ]

  unfoldable pub validate_contact_thresholds : JointVec R → JointVec R → Check
  validate_contact_thresholds theta ceiling = check_thresholds theta ceiling joints

  unfoldable pub validate_profiles : ContactProfiles R → Check
  validate_profiles p =
      let ceil = validate_contact_thresholds p.ceiling p.ceiling in
      let c1 = validate_contact_thresholds p.sensitive_theta p.ceiling in
      let c2 = validate_contact_thresholds p.normal p.ceiling in
      let c3 = validate_contact_thresholds p.loose_theta p.ceiling in
      if not ceil.ok
      then prefixed "contact ceiling: " ceil
      else if not c1.ok
      then prefixed "contact profile sensitive: " c1
      else if not c2.ok
      then prefixed "contact profile default: " c2
      else if not c3.ok
      then prefixed "contact profile loose: " c3
      else pass

  -- The thresholds that a profile names; `none` outside the enumeration.
  abbrev pub profile_theta :
      ContactProfile → ContactThresholdsRequest R → ContactProfiles R → Option (JointVec R)
  profile_theta default_theta r p = some p.normal
  profile_theta sensitive r p = some p.sensitive_theta
  profile_theta loose r p = some p.loose_theta
  profile_theta custom_theta r p = some r.custom_values
  profile_theta unknown_theta r p = none

  -- `theta_out` is the second result, `none` while it is not written.
  unfoldable pub resolve_contact :
      ContactThresholdsRequest R → ContactProfiles R → Check × Option (JointVec R)
  resolve_contact r p = elim (profile_theta r.profile r p) [
    | none ↦ (refuse "unknown contact profile: expected default, sensitive, loose or custom", none)
    | some theta ↦
        let c = validate_contact_thresholds theta p.ceiling in
        (c, if c.ok then some theta else none)
  ]
