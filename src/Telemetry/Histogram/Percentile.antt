-- ===== src/Telemetry/Histogram/Percentile.antt =====
-- src/telemetry_consumers.cpp: what a percentile says of the samples.
use native.Mathlib.Nat.{min-eq_left}
use kinova_gen3_driver.Prelude.{
  ℕ, zero, suc, ◌+◌, ◌*◌, ◌/◌, ◌^◌, ◌≤◌, ◌<◌, ◌≡◌, refl, arith, Bool, false, List, [], ◌∷◌, ◌⊎◌,
  inl, inr, ltb, leb, ◌==◌, count_if, length, All, Bool-cases, ==_iff, ap, subst, u64,
  if◌then◌else◌,
}
use kinova_gen3_driver.Double.{Double, ◌<ᵈ◌, nought, one}
use kinova_gen3_driver.Telemetry.Histogram.{
  NanoHistogram, new_histogram, top_bit, bucket_of, add, add_all, find_bucket, at_rank, percentile,
}

pow_pos : (k : ℕ) → 0 < 2 ^ k
pow_pos zero = omega arith
pow_pos (suc k) = omega (arith, pow_pos k)

-- The highest bit of a number is at most bit k exactly when the number is below 2^(k+1).
top_bit-lt : (f n k : ℕ) → n < 2 ^ suc f → ltb (top_bit f n) (suc k) ≡ ltb n (2 ^ suc k)
unfolding top_bit
top_bit-lt zero n k h = ground (arith, pow_pos k)
top_bit-lt (suc f) n zero h = ground arith
top_bit-lt (suc f) n (suc k) h = ground (arith, pow_pos k, top_bit-lt f (n / 2) k)

-- Counting the samples of one more bucket.
count-below :
    (b : ℕ → ℕ) (k : ℕ) (xs : List ℕ)
    → count_if (λ x. ltb (b x) k) xs + count_if (λ x. b x == k) xs
      ≡ count_if (λ x. ltb (b x) (suc k)) xs
count-below b k [] = omega arith
count-below b k (x ∷ xs) = ground (arith, count-below b k xs)

count-le : {A : Type 0} (p : A → Bool) (xs : List A) → count_if p xs ≤ length xs
count-le p [] = omega arith
count-le p (x ∷ xs) = ground (arith, count-le p xs)

-- Two tests that agree on the samples count alike.
count-agree :
    (p q : ℕ → Bool) (xs : List ℕ) → All (λ x. p x ≡ q x) xs → count_if p xs ≡ count_if q xs
count-agree p q [] h = refl
count-agree p q (x ∷ xs) h = ground (arith, count-agree p q xs)

-- A bucket up to which there are too few samples is not the last that can hold one.
next_below :
    (b : ℕ → ℕ) (xs : List ℕ) (k target : ℕ)
    → k < 32
    → count_if (λ x. ltb (b x) (suc k)) xs < target
    → target ≤ count_if (λ x. ltb (b x) 32) xs
    → suc k < 32
next_below b xs k target below more high = elim (Bool-cases (suc k == 32)) [
  | inl e ↦
      absurd
        (omega (arith, ap (λ (n : ℕ). count_if (λ x. ltb (b x) n) xs) ((==_iff (suc k) 32).0 e)))
  | inr e ↦ ground arith
]

-- With the samples `xs` in the buckets, the loop ends at the first bucket up to which there are
-- `target` of them.
find_bucket-rank :
    (b : ℕ → ℕ) (xs : List ℕ) (buckets : ℕ → ℕ) (target left k acc : ℕ)
    → ((j : ℕ) → buckets j ≡ count_if (λ x. b x == j) xs)
    → length xs < 2 ^ 64
    → left + k ≡ 64
    → k < 32
    → acc ≡ count_if (λ x. ltb (b x) k) xs
    → acc < target
    → target ≤ count_if (λ x. ltb (b x) 32) xs
    → (j : ℕ) × (j < 32)
      × (find_bucket left k acc target buckets ≡ 2 ^ j)
      × (count_if (λ x. ltb (b x) j) xs < target)
      × (target ≤ count_if (λ x. ltb (b x) (suc j)) xs)
unfolding find_bucket
find_bucket-rank b xs buckets target zero k acc full small e below a low high = absurd (omega arith)
find_bucket-rank b xs buckets target (suc left) k acc full small e below a low high =
    let upto = count_if (λ x. ltb (b x) (suc k)) xs in
    let sum : u64 (acc + buckets k) ≡ upto =
      omega (arith, full k, count-below b k xs, count-le (λ x. ltb (b x) (suc k)) xs) in
    elim (Bool-cases (leb target (u64 (acc + buckets k)))) [
      | inl stop ↦ (
        k,
        below,
        rw (stop, find_bucket) (ap (λ (m : ℕ). 2 ^ m) (min-eq_left {n = k} {m = 31} (omega arith))),
        omega (arith, a),
        ground (arith, sum),
      )
      | inr on ↦
          let more : upto < target = ground (arith, sum) in
          rw (on, find_bucket)
            (find_bucket-rank b xs buckets target left (suc k) (u64 (acc + buckets k)) full small
              (omega arith) (next_below b xs k target below more high) sum (omega (arith, sum))
              high)
    ]

-- The buckets, the count and the bounds after any samples.
add_all-buckets :
    (xs : List ℕ) (h : NanoHistogram) (j : ℕ)
    → h.buckets j + length xs < 2 ^ 64
    → (add_all xs h).buckets j ≡ h.buckets j + count_if (λ x. bucket_of x == j) xs
unfolding add_all add
add_all-buckets [] h j small = omega arith
add_all-buckets (x ∷ xs) h j small = ground (arith, add_all-buckets xs (add x h) j)

add_all-count :
    (xs : List ℕ) (h : NanoHistogram)
    → h.count + length xs < 2 ^ 64
    → (add_all xs h).count ≡ h.count + length xs
unfolding add_all add
add_all-count [] h small = omega arith
add_all-count (x ∷ xs) h small = ground (arith, add_all-count xs (add x h))

bucket_of-lt : (x k : ℕ) → x < 2 ^ 32 → ltb (bucket_of x) (suc k) ≡ ltb x (2 ^ suc k)
unfolding bucket_of
bucket_of-lt x k h = top_bit-lt 63 x k (omega arith)

All-bucket :
    (k : ℕ) (xs : List ℕ)
    → All (λ x. x < 2 ^ 32) xs
    → All (λ x. ltb (bucket_of x) (suc k) ≡ ltb x (2 ^ suc k)) xs
All-bucket k [] h = tt
All-bucket k (x ∷ xs) (now, h) = (bucket_of-lt x k now, All-bucket k xs h)

count-All :
    (xs : List ℕ) → All (λ x. x < 2 ^ 32) xs → count_if (λ x. ltb (bucket_of x) 32) xs ≡ length xs
count-All [] h = refl
count-All (x ∷ xs) (now, h) = ground (arith, bucket_of-lt x 31 now, count-All xs h)

-- A reported value: enough samples lie below its double, and, unless it is the least, too few below it.
abbrev pub IsRank : ℕ → List ℕ → ℕ → Type 0
IsRank target xs v =
    (target ≤ count_if (λ x. ltb x (2 * v)) xs) × ((v ≡ 1) ⊎ (count_if (λ x. ltb x v) xs < target))

agree :
    (k : ℕ) (xs : List ℕ)
    → All (λ x. x < 2 ^ 32) xs
    → count_if (λ x. ltb (bucket_of x) (suc k)) xs ≡ count_if (λ x. ltb x (2 ^ suc k)) xs
agree k xs h =
    count-agree (λ x. ltb (bucket_of x) (suc k)) (λ x. ltb x (2 ^ suc k)) xs (All-bucket k xs h)

from_bucket :
    (xs : List ℕ) (target j : ℕ)
    → All (λ x. x < 2 ^ 32) xs
    → count_if (λ x. ltb (bucket_of x) j) xs < target
    → target ≤ count_if (λ x. ltb (bucket_of x) (suc j)) xs
    → IsRank target xs (2 ^ j)
from_bucket xs target zero h few enough = (omega (arith, agree 0 xs h), inl refl)
from_bucket xs target (suc j) h few enough = (
  subst (λ n. target ≤ count_if (λ x. ltb x n) xs) {x = 2 ^ suc (suc j)} (omega arith)
      (omega (arith, agree (suc j) xs h)),
  inr (omega (arith, agree j xs h)),
)

new_buckets :
    (xs : List ℕ) (j : ℕ)
    → length xs < 2 ^ 64
    → (add_all xs new_histogram).buckets j ≡ count_if (λ x. bucket_of x == j) xs
unfolding new_histogram
new_buckets xs j small = omega (arith, add_all-buckets xs new_histogram j (omega (arith, small)))

count-none : (b : ℕ → ℕ) (xs : List ℕ) → 0 ≡ count_if (λ x. ltb (b x) 0) xs
count-none b [] = refl
count-none b (x ∷ xs) = ground (arith, count-none b xs)

at_rank-IsRank :
    (xs : List ℕ) (target : ℕ)
    → All (λ x. x < 2 ^ 32) xs
    → length xs < 2 ^ 64
    → 0 < target
    → target ≤ length xs
    → IsRank target xs (at_rank target (add_all xs new_histogram))
unfolding at_rank
at_rank-IsRank xs target h small positive enough =
    let buckets = (add_all xs new_histogram).buckets in
    let asked : (if target == 0 then 1 else target) ≡ target = ground arith in
    let (j, _, e, few, reached) =
      find_bucket-rank bucket_of xs buckets target 64 0 0 (λ i. new_buckets xs i small) small
        (omega arith) (omega arith) (count-none bucket_of xs) positive
        (omega (arith, count-All xs h)) in
    rw (asked, e) (from_bucket xs target j h few reached)

module _ {R : Type 0} ⦃d : Double R⦄ (of_count : ℕ → R) (ceil_count : R → ℕ) where
  -- The samples of the rank that `p` of their number, rounded up, asks for. `rank` is that number, and
  -- at least 1.
  abbrev IsRankOf : R → List ℕ → ℕ → Type 0
  IsRankOf p xs rank =
      (0 < rank) × (ceil_count (d.mul p (of_count (length xs))) ≡ rank) × (rank ≤ length xs)

  percentile-at_rank :
      (xs : List ℕ) (p : R) (rank : ℕ) (h : NanoHistogram)
      → h.count ≡ length xs
      → (p <ᵈ nought) ≡ false
      → (one <ᵈ p) ≡ false
      → IsRankOf p xs rank
      → percentile of_count ceil_count p h ≡ at_rank rank h
  unfolding percentile
  percentile-at_rank xs p rank h counted low high (positive, asked, within) =
      let some_samples : (length xs == 0) ≡ false = ground arith in
      rw (low, high, counted, some_samples, asked)

  new_count : (xs : List ℕ) → length xs < 2 ^ 64 → (add_all xs new_histogram).count ≡ length xs
  unfolding new_histogram
  new_count xs small = omega (arith, add_all-count xs new_histogram (omega (arith, small)))

  -- After fewer than 2^64 samples below 2^32, from an empty histogram on, and for a share p between 0
  -- and 1 that asks for a rank from 1 to the number of samples: at least as many samples as the rank lie
  -- below twice the reported value; and fewer than the rank lie below the value itself, unless it is 1.
  pub percentile-IsRank :
      (xs : List ℕ) (p : R) (rank : ℕ)
      → All (λ x. x < 2 ^ 32) xs
      → length xs < 2 ^ 64
      → (p <ᵈ nought) ≡ false
      → (one <ᵈ p) ≡ false
      → IsRankOf p xs rank
      → IsRank rank xs (percentile of_count ceil_count p (add_all xs new_histogram))
  unfolding percentile
  percentile-IsRank xs p rank h small low high r =
      rw (percentile-at_rank xs p rank (add_all xs new_histogram) (new_count xs small) low high r)
        (at_rank-IsRank xs rank h small r.0 r.2)
