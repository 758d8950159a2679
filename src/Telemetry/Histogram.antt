-- ===== src/Telemetry/Histogram.antt =====
-- src/telemetry_consumers.cpp: the histogram of durations, the sink that fills four of them, and the
-- queries. The text of `dump` and `console_line` is left out; rows of the CSV file are the samples.
-- The conversions between `uint64_t` and `double`, and `std::ceil`, are parameters.
pub mod Percentile
use Prim.Native.Nat.{bit_and, min, max}
use kinova_gen3_driver.Prelude.{
  ℕ, zero, suc, ◌+◌, ◌-◌, ◌*◌, ◌/◌, ◌%◌, ◌^◌, Bool, true, false, not, Option, none, some, List, [],
  ◌∷◌, if◌then◌else◌, ltb, leb, ◌==◌, u64, set_at,
}
use kinova_gen3_driver.Double.{Double, ◌/ᵈ◌, ◌<ᵈ◌, nought, one}
use kinova_gen3_driver.Telemetry.{CycleSample}

-- Bucket k of the 64 counts the samples whose highest bit is bit k.
pub record NanoHistogram : Type 0 where
  pub buckets : ℕ → ℕ
  pub count : ℕ
  pub sum : ℕ
  pub min_ : ℕ
  pub max_ : ℕ

unfoldable pub new_histogram : NanoHistogram
new_histogram = record { buckets = λ _. 0; count = 0; sum = 0; min_ = 2 ^ 32 - 1; max_ = 0 }

-- The highest bit that is set, `63 - __builtin_clzll(ns)`, and 0 for 0: the halvings down to 1.
unfoldable pub top_bit : ℕ → ℕ → ℕ
top_bit zero n = 0
top_bit (suc f) n = elim (ltb n 2) [ true ↦ 0 | false ↦ suc (top_bit f (n / 2)) ]

unfoldable pub bucket_of : ℕ → ℕ
unfolding top_bit
bucket_of ns = top_bit 63 ns

unfoldable pub add : ℕ → NanoHistogram → NanoHistogram
unfolding bucket_of
add ns h =
    let k = bucket_of ns in
    record {
      buckets = set_at k (u64 (h.buckets k + 1)) h.buckets;
      count = u64 (h.count + 1);
      sum = u64 (h.sum + ns);
      min_ = if ltb ns h.min_ then ns else h.min_;
      max_ = if ltb h.max_ ns then ns else h.max_;
    }

unfoldable pub add_all : List ℕ → NanoHistogram → NanoHistogram
unfolding add
add_all [] h = h
add_all (ns ∷ rest) h = add_all rest (add ns h)

abbrev min_of : NanoHistogram → ℕ
min_of h = if h.count == 0 then 0 else h.min_

-- The loop of `percentile` from bucket `k` on, with what it has counted so far.
unfoldable pub find_bucket : ℕ → ℕ → ℕ → ℕ → (ℕ → ℕ) → ℕ
find_bucket zero k acc target buckets = 2 ^ 31
find_bucket (suc left) k acc target buckets =
    let acc' = u64 (acc + buckets k) in
    elim (leb target acc') [
      | true ↦ 2 ^ min k 31
      | false ↦ find_bucket left (suc k) acc' target buckets
    ]

unfoldable pub at_rank : ℕ → NanoHistogram → ℕ
unfolding find_bucket
at_rank target h = find_bucket 64 0 0 (if target == 0 then 1 else target) h.buckets

module _ {R : Type 0} ⦃d : Double R⦄ (of_count : ℕ → R) (ceil_count : R → ℕ) where
  abbrev mean : NanoHistogram → R
  mean h = if h.count == 0 then nought else of_count h.sum /ᵈ of_count h.count

  unfoldable pub percentile : R → NanoHistogram → ℕ
  unfolding at_rank
  percentile p h =
      let q = if p <ᵈ nought then nought else p in
      let r = if one <ᵈ q then one else q in
      if h.count == 0 then 0 else at_rank (ceil_count (d.mul r (of_count h.count))) h

-- `csv` holds the rows that were written, newest first, if a file is open.
pub record TelemetrySink : Type 0 where
  pub cycle : NanoHistogram
  pub compute : NanoHistogram
  pub comm : NanoHistogram
  pub jitter : NanoHistogram
  pub overruns : ℕ
  pub faults : ℕ
  pub comm_timeouts : ℕ
  pub n : ℕ
  pub csv : Option (List CycleSample)

abbrev new_sink : Bool → TelemetrySink
new_sink file = record {
  cycle = new_histogram;
  compute = new_histogram;
  comm = new_histogram;
  jitter = new_histogram;
  overruns = 0;
  faults = 0;
  comm_timeouts = 0;
  n = 0;
  csv = if file then some [] else none;
}

abbrev has_flag : ℕ → CycleSample → Bool
has_flag bit s = not (bit_and s.flags bit == 0)

abbrev write_row : CycleSample → Option (List CycleSample) → Option (List CycleSample)
write_row s none = none
write_row s (some rows) = some (s ∷ rows)

unfoldable pub consume : CycleSample → TelemetrySink → TelemetrySink
unfolding add
consume s t = record {
  cycle = add s.cycle_ns t.cycle;
  compute = add s.compute_ns t.compute;
  comm = add s.comm_ns t.comm;
  jitter = add s.wake_jitter_ns t.jitter;
  overruns = u64 (t.overruns + (if has_flag 1 s then 1 else 0));
  faults = u64 (t.faults + (if has_flag 2 s then 1 else 0));
  comm_timeouts = u64 (t.comm_timeouts + (if has_flag 4 s then 1 else 0));
  n = u64 (t.n + 1);
  csv = write_row s t.csv;
}
