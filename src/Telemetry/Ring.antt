-- ===== src/Telemetry/Ring.antt =====
-- src/telemetry.cpp: the ring of samples is a bounded queue.
use kinova_gen3_driver.Prelude.{
  ℕ, zero, suc, ◌+◌, ◌-◌, ◌*◌, ◌%◌, ◌^◌, ◌<◌, ◌≤◌, ◌≡◌, refl, ap, Bool, true, false, ◌&&◌, Option,
  none, some, List, [], ◌∷◌, ◌++◌, if◌then◌else◌, ltb, leb, set_at, arith, length, mod-apart, ◌⊎◌,
}
use kinova_gen3_driver.Telemetry.{SampleRing, double_up, round_up_pow2, new_ring, push, pop}

double_up_bounds :
    (fuel n p : ℕ)
    → n ≤ p * 2 ^ fuel
    → (n ≤ double_up fuel n p)
      × (p ≤ double_up fuel n p)
      × ((double_up fuel n p ≤ p) ⊎ (double_up fuel n p < n * 2))
unfolding double_up
double_up_bounds zero n p b = ground arith
double_up_bounds (suc fuel) n p b = ground (arith, double_up_bounds fuel n (p * 2) (grind arith))

-- What a consumer and a producer may rely on: a queue of bounded length.
abbrev pub enqueue : {A : Type 0} → ℕ → A → List A → Bool × List A
enqueue size a q = if ltb (length q) size then (true, q ++ a ∷ []) else (false, q)

abbrev pub dequeue : {A : Type 0} → List A → Option A × List A
dequeue [] = (none, [])
dequeue (a ∷ q) = (some a, q)

module _ {A : Type 0} where
  unfoldable pub slots : (ℕ → A) → ℕ → ℕ → ℕ → List A
  slots buf size t zero = []
  slots buf size t (suc n) = buf (t % size) ∷ slots buf size (suc t) n

  -- The samples pushed and not yet popped, oldest first.
  unfoldable pub contents : SampleRing A → List A
  contents r = slots r.buf r.size r.tail (r.head - r.tail)

  length-slots : (buf : ℕ → A) (size t n : ℕ) → length (slots buf size t n) ≡ n
  unfolding slots
  length-slots buf size t zero = refl
  length-slots buf size t (suc n) = ground (arith, length-slots buf size (suc t) n)

  slots-set_at :
      (a : A) (buf : ℕ → A) (size t n h : ℕ)
      → n < size
      → h ≡ t + n
      → slots (set_at (h % size) a buf) size t n ≡ slots buf size t n
  unfolding slots
  slots-set_at a buf size t zero h b e = refl
  slots-set_at a buf size t (suc n) h b e = ground (
    arith,
    e,
    mod-apart size t (suc n) (omega arith) b,
    slots-set_at a buf size (suc t) n h (omega arith) (omega arith),
  )

  slots-suc :
      (buf : ℕ → A) (size t n : ℕ)
      → slots buf size t (suc n) ≡ slots buf size t n ++ buf ((t + n) % size) ∷ []
  unfolding slots
  slots-suc buf size t zero = ground arith
  slots-suc buf size t (suc n) = ground (arith, slots-suc buf size (suc t) n)

  unfoldable is_ring : SampleRing A → Bool
  is_ring r = ltb 0 r.size && (leb r.tail r.head && leb (r.head - r.tail) r.size)

  push-contents :
      (a : A) (r : SampleRing A)
      → suc r.head < 2 ^ 64
      → is_ring r ≡ true
      → (enqueue r.size a (contents r) ≡ ((push a r).0, contents (push a r).1))
        × (is_ring (push a r).1 ≡ true)
        × ((push a r).1.size ≡ r.size)
        × ((push a r).1.head ≤ suc r.head)
  unfolding push contents is_ring
  push-contents a r b i = ground (
    arith,
    length-slots r.buf r.size r.tail (r.head - r.tail),
    slots-suc (set_at (r.head % r.size) a r.buf) r.size r.tail (r.head - r.tail),
    shut,
  )
    where
      shut :
          ltb (r.head - r.tail) r.size ≡ true
          → slots (set_at (r.head % r.size) a r.buf) r.size r.tail (r.head - r.tail)
            ≡ slots r.buf r.size r.tail (r.head - r.tail)
      shut e =
          slots-set_at a r.buf r.size r.tail (r.head - r.tail) r.head (ground arith) (ground arith)

  pop-contents :
      (r : SampleRing A)
      → suc r.head < 2 ^ 64
      → is_ring r ≡ true
      → (dequeue (contents r) ≡ ((pop r).0, contents (pop r).1))
        × (is_ring (pop r).1 ≡ true)
        × ((pop r).1.size ≡ r.size)
        × ((pop r).1.head ≡ r.head)
  unfolding pop contents slots is_ring
  pop-contents r b i = by_length (r.head - r.tail) refl
    where
      by_length :
          (n : ℕ)
          → n ≡ r.head - r.tail
          → (dequeue (contents r) ≡ ((pop r).0, contents (pop r).1))
            × (is_ring (pop r).1 ≡ true)
            × ((pop r).1.size ≡ r.size)
            × ((pop r).1.head ≡ r.head)
      by_length zero e = ground (arith, e, ap (slots r.buf r.size r.tail) e)
      by_length (suc n) e = ground (arith, e, ap (slots r.buf r.size r.tail) e)

pub data Op (A : Type 0) : Type 0 where
  pushes : A → Op A
  pops : Op A

pub data Told (A : Type 0) : Type 0 where
  pushed : Bool → Told A
  popped : Option A → Told A

module _ {A : Type 0} where
  unfoldable pub run_ring : List (Op A) → SampleRing A → List (Told A)
  run_ring [] r = []
  run_ring (pushes a ∷ os) r = pushed (push a r).0 ∷ run_ring os (push a r).1
  run_ring (pops ∷ os) r = popped (pop r).0 ∷ run_ring os (pop r).1

  unfoldable pub run_queue : ℕ → List (Op A) → List A → List (Told A)
  run_queue size [] q = []
  run_queue size (pushes a ∷ os) q =
      pushed (enqueue size a q).0 ∷ run_queue size os (enqueue size a q).1
  run_queue size (pops ∷ os) q = popped (dequeue q).0 ∷ run_queue size os (dequeue q).1

  run_ring-contents :
      (os : List (Op A)) (r : SampleRing A)
      → suc (r.head + length os) < 2 ^ 64
      → is_ring r ≡ true
      → run_ring os r ≡ run_queue r.size os (contents r)
  unfolding run_ring run_queue
  run_ring-contents [] r b i = refl
  run_ring-contents (pushes a ∷ os) r b i =
      let p = push-contents a r (omega arith) i in
      let rest = run_ring-contents os (push a r).1 (omega (arith, p.3)) p.1 in
      rw (p.0, rest, p.2) refl
  run_ring-contents (pops ∷ os) r b i =
      let p = pop-contents r (omega arith) i in
      let rest = run_ring-contents os (pop r).1 (omega (arith, p.3)) p.1 in rw (p.0, rest, p.2) refl

-- The size that the constructor takes: a number up to 2^63 is rounded up, to less than its double, and
-- the loop ends.
pub round_up_pow2_bounds :
    (n : ℕ) → 2 ≤ n → n ≤ 2 ^ 63 → (n ≤ round_up_pow2 n) × (round_up_pow2 n < n * 2)
unfolding round_up_pow2
round_up_pow2_bounds n b c = ground (arith, double_up_bounds 63 n 1 (ground arith))

-- From its construction on, and for fewer than 2^64 calls, the ring answers every sequence of pushes
-- and pops as a first-in-first-out queue does that holds as many samples as the size: a push is
-- refused exactly when the queue is full, and a pop gives the oldest sample, or nothing when it is
-- empty.
pub run_ring-refines :
    {A : Type 0} (blank : A) (capacity : ℕ) (os : List (Op A))
    → suc (length os) < 2 ^ 64
    → capacity ≤ 2 ^ 63
    → run_ring os (new_ring blank capacity) ≡ run_queue (round_up_pow2 capacity) os []
unfolding new_ring is_ring contents slots round_up_pow2
run_ring-refines blank capacity os b c =
    run_ring-contents os (new_ring blank capacity) (omega (arith, b))
      (ground (arith, double_up_bounds 63 capacity 1))
