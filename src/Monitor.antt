-- ===== src/Monitor.antt =====
-- src/contact_monitor.cpp and src/momentum_observer.cpp: detection of unexpected contact. The rigid
-- body model (Pinocchio, behind `Dynamics`) is a parameter; so are Eigen's products with it. Each
-- atomic is a field, the double buffer of thresholds is two fields and an index, and the Seqlock is
-- the last published status with the count of its stores.
pub mod Latch
pub mod Debounce
use kinova_gen3_driver.Prelude.{
  ℕ, ◌+◌, Bool, true, false, not, ◌&&◌, ◌||◌, Option, none, some, List, [], ◌∷◌, if◌then◌else◌, ltb,
  ◌==◌, u64, is_some,
}
use kinova_gen3_driver.Double.{Double, ◌+ᵈ◌, ◌-ᵈ◌, ◌*ᵈ◌, ◌/ᵈ◌, ◌<ᵈ◌, ◌≤ᵈ◌, nought, one, min_d}
use kinova_gen3_driver.Types.{
  Joint, joints, JointVec, JointFeedback, ContactDetection, observe, enforce, ContactPhase,
  settling, armed, latched_phase, ContactTrip, ContactStatus,
}
use kinova_gen3_driver.Contact.{validate_contact_thresholds}

pub record Dynamics (R : Type 0) : Type 0 where
  -- M(q) qd, C(q, qd)^T qd and g(q).
  pub momentum : JointVec R → JointVec R → JointVec R
  pub coriolis_t : JointVec R → JointVec R → JointVec R
  pub gravity : JointVec R → JointVec R

pub record Observer (R : Type 0) : Type 0 where
  pub gain : R
  pub seeded : Bool
  pub p0 : JointVec R
  pub integral : JointVec R
  pub r : JointVec R
  pub time_s : R

pub record Config (R : Type 0) : Type 0 where
  pub detection : ContactDetection
  pub gain : R
  pub debounce_cycles : ℕ
  pub initial_theta : JointVec R
  pub ceiling : JointVec R

pub record Monitor (R : Type 0) : Type 0 where
  pub cfg : Config R
  pub settle_s : R
  pub max_step_s : R
  pub observer : Observer R
  pub theta_buf0 : JointVec R
  pub theta_buf1 : JointVec R
  pub theta_active : Bool
  pub clear_requested : Bool
  pub latched : Bool
  pub theta : JointVec R
  pub count : Joint → ℕ
  pub pending_dt : R
  pub cycle : ℕ
  pub status : ContactStatus R
  pub published : ContactStatus R
  pub version : ℕ

abbrev pub is_enforce : ContactDetection → Bool
is_enforce enforce = true
is_enforce observe = false

abbrev pub is_latched_phase : ContactPhase → Bool
is_latched_phase latched_phase = true
is_latched_phase settling = false
is_latched_phase armed = false

-- The first joint of the list that passes a test.
unfoldable pub first_joint : (Joint → Bool) → List Joint → Option Joint
first_joint p [] = none
first_joint p (i ∷ is) = let rest = first_joint p is in if p i then some i else rest

-- One round of the debounce loop, joint by joint.
unfoldable pub debounce : ℕ → (Joint → Bool) → (Joint → ℕ) → Joint → ℕ
debounce n over count i = if over i then if ltb (count i) n then count i + 1 else count i else 0

unfoldable pub crosses : ℕ → (Joint → Bool) → (Joint → ℕ) → Joint → Bool
crosses n over count i = over i && (ltb (count i) n && (count i + 1 == n))

module _ {R : Type 0} ⦃d : Double R⦄ where
  unfoldable pub new_observer : R → Observer R
  new_observer gain = record {
    gain = gain;
    seeded = false;
    p0 = λ _. nought;
    integral = λ _. nought;
    r = λ _. nought;
    time_s = nought;
  }

  unfoldable pub reset_observer : Observer R → Observer R
  reset_observer o = record o {
    seeded = false;
    time_s = nought;
    integral = λ _. nought;
    r = λ _. nought;
  }

  unfoldable pub publish : Monitor R → Monitor R
  publish m = record m { published = m.status; version = m.version + 2 }

  -- `validated` and the constructor; `none` is the throw.
  unfoldable pub new_monitor : Config R → Option (Monitor R)
  unfolding publish new_observer
  new_monitor c =
      if not (d.is_finite c.gain && (nought <ᵈ c.gain))
      then none
      else if ltb c.debounce_cycles 1
      then none
      else if not (validate_contact_thresholds c.ceiling c.ceiling).ok
      then none
      else if not (validate_contact_thresholds c.initial_theta c.ceiling).ok
      then none
      else some (publish fresh)
    where
      blank : ContactStatus R
      blank = record {
        detection = c.detection;
        phase = settling;
        settled = false;
        r = λ _. nought;
        theta = c.initial_theta;
        would_trips = 0;
        bad_samples = 0;
        has_trip = false;
        last = record {
          cycle = 0;
          joint = none;
          r = λ _. nought;
          theta = λ _. nought;
          q = λ _. nought;
          qd = λ _. nought;
        };
      }

      fresh : Monitor R
      fresh = record {
        cfg = c;
        settle_s = d.lit 5 0 /ᵈ c.gain;
        max_step_s = one /ᵈ c.gain;
        observer = new_observer c.gain;
        theta_buf0 = c.initial_theta;
        theta_buf1 = c.initial_theta;
        theta_active = false;
        clear_requested = false;
        latched = false;
        theta = c.initial_theta;
        count = λ _. 0;
        pending_dt = nought;
        cycle = 0;
        status = blank;
        published = blank;
        version = 0;
      }

  unfoldable pub set_thresholds : JointVec R → Monitor R → Monitor R
  set_thresholds theta m =
      if m.theta_active
      then record m { theta_buf0 = theta; theta_active = false }
      else record m { theta_buf1 = theta; theta_active = true }

  unfoldable pub request_clear : Monitor R → Monitor R
  request_clear m = record m { clear_requested = true }

  unfoldable pub restart : Monitor R → Monitor R
  unfolding reset_observer
  restart m = record m {
    observer = reset_observer m.observer;
    count = λ _. 0;
    pending_dt = nought;
    status = record (m.status) {
      r = λ _. nought;
      settled = false;
      phase = if m.latched then latched_phase else settling;
    };
  }

  unfoldable pub on_run_start : Monitor R → Monitor R
  unfolding restart publish
  on_run_start m = publish (
      restart
        (if m.clear_requested then record m { clear_requested = false; latched = false } else m))

  -- Step 1 of `step`: a pending clear, then the thresholds of the active buffer.
  unfoldable pub take_clear : Monitor R → Monitor R
  unfolding restart
  take_clear m =
      if m.clear_requested
      then restart (record m { clear_requested = false; latched = false })
      else m

  unfoldable pub adopt_theta : Monitor R → Monitor R
  adopt_theta m =
      let theta = if m.theta_active then m.theta_buf1 else m.theta_buf0 in
      record m { theta = theta; status = record (m.status) { theta = theta } }

  abbrev pub all_finite : JointVec R → List Joint → Bool
  all_finite v [] = true
  all_finite v (i ∷ is) = d.is_finite (v i) && all_finite v is

  unfoldable pub is_good : JointFeedback R → Bool
  is_good fb = all_finite fb.q joints && (all_finite fb.qd joints && all_finite fb.tau joints)

  -- Step 2: the sample is skipped, its dt owed to the next good one.
  unfoldable pub skip : R → Bool → Monitor R → Monitor R
  skip dt missed m = record m {
    status = record (m.status) {
      bad_samples = if missed then m.status.bad_samples else u64 (m.status.bad_samples + 1);
    };
    pending_dt = m.pending_dt +ᵈ dt;
  }

  unfoldable pub is_over : JointVec R → JointVec R → Joint → Bool
  is_over r theta i = theta i <ᵈ d.abs (r i)

module _ {R : Type 0} ⦃d : Double R⦄ (dyn : Dynamics R) where
  unfoldable pub step_observer : JointVec R → JointVec R → JointVec R → R → Observer R → Observer R
  step_observer q qd tau dt o =
      if not o.seeded
      then record o {
        p0 = p;
        integral = λ _. nought;
        r = λ _. nought;
        time_s = nought;
        seeded = true;
      }
      else record o {
        integral = integral;
        r = λ i. o.gain *ᵈ (p i -ᵈ o.p0 i -ᵈ integral i);
        time_s = o.time_s +ᵈ dt;
      }
    where
      p : JointVec R
      p = dyn.momentum q qd

      integral : JointVec R
      integral i =
          o.integral i +ᵈ (tau i +ᵈ dyn.coriolis_t q qd i -ᵈ dyn.gravity q i +ᵈ o.r i) *ᵈ dt

  -- Step 3: the observer over the carried time, at most 1/K.
  unfoldable pub feed : JointFeedback R → R → Monitor R → Monitor R
  feed fb dt m =
      let o =
        step_observer fb.q fb.qd fb.tau (min_d (m.pending_dt +ᵈ dt) m.max_step_s) m.observer in
      record m {
        observer = o;
        pending_dt = nought;
        status = record (m.status) { r = o.r; settled = m.settle_s ≤ᵈ o.time_s };
      }

  -- Step 4: the counters, and the trip of the first joint that crosses.
  unfoldable pub arm_and_count : ℕ → JointFeedback R → Monitor R → Monitor R
  arm_and_count cycle fb m =
      elim (first_joint (crosses m.cfg.debounce_cycles over m.count) joints) [
        | none ↦ counted
        | some j ↦ record counted {
          latched = is_enforce m.cfg.detection || m.latched;
          status = record (counted.status) {
            would_trips = u64 (m.status.would_trips + 1);
            has_trip = true;
            last = record {
              cycle = cycle;
              joint = some j;
              r = m.status.r;
              theta = m.theta;
              q = fb.q;
              qd = fb.qd;
            };
            phase = if is_enforce m.cfg.detection then latched_phase else armed;
          };
        }
      ]
    where
      over : Joint → Bool
      over = is_over m.status.r m.theta

      counted : Monitor R
      counted = record m {
        count = debounce m.cfg.debounce_cycles over m.count;
        status = record (m.status) { phase = armed };
      }

  with_phase : ContactPhase → Monitor R → Monitor R
  with_phase p m = record m { status = record (m.status) { phase = p } }

  -- Steps 3 to 5 on a good sample.
  unfoldable pub step_good : ℕ → JointFeedback R → R → Monitor R → Bool × Monitor R
  unfolding publish with_phase
  step_good cycle fb dt m =
      let fed = feed fb dt m in
      let done = arm_and_count cycle fb fed in
      if m.latched
      then (true, publish (with_phase latched_phase fed))
      else if not fed.status.settled
      then (false, publish (with_phase settling fed))
      else (is_latched_phase done.status.phase, publish done)

  unfoldable pub step : JointFeedback R → R → Bool → Monitor R → Bool × Monitor R
  step fb dt missed m =
      let ready = adopt_theta (take_clear (record m { cycle = u64 (m.cycle + 1) })) in
      if missed || not (is_good fb)
      then (ready.latched, publish (skip dt missed ready))
      else step_good m.cycle fb dt ready
