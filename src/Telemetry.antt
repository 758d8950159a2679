-- ===== src/Telemetry.antt =====
-- src/telemetry.cpp: the ring that carries a sample of each cycle from the real-time loop to its
-- consumer. The size is a power of two, so `head & mask` is the remainder of the head by the size. A
-- call is one step here; the two threads share only `head`, `tail` and the slots between them.
pub mod Ring
pub mod Histogram
use kinova_gen3_driver.Prelude.{
  ℕ, zero, suc, ◌+◌, ◌*◌, ◌%◌, Bool, true, false, Option, none, some, if◌then◌else◌, ltb, leb, ◌==◌,
  u64, set_at, sub_u64,
}

pub record CycleSample : Type 0 where
  pub cycle_index : ℕ
  pub wake_jitter_ns : ℕ
  pub comm_ns : ℕ
  pub compute_ns : ℕ
  pub cycle_ns : ℕ
  pub flags : ℕ

pub record SampleRing (A : Type 0) : Type 0 where
  pub buf : ℕ → A
  pub size : ℕ
  pub head : ℕ
  pub tail : ℕ
  pub dropped : ℕ

-- The loop of `round_up_pow2`, on fuel; it doubles.
unfoldable pub double_up : ℕ → ℕ → ℕ → ℕ
double_up zero n p = p
double_up (suc fuel) n p = let rest = double_up fuel n (p * 2) in if ltb p n then rest else p

unfoldable pub round_up_pow2 : ℕ → ℕ
round_up_pow2 n = if ltb n 2 then 2 else double_up 63 n 1

unfoldable pub new_ring : {A : Type 0} → A → ℕ → SampleRing A
new_ring blank capacity = record {
  buf = λ _. blank;
  size = round_up_pow2 capacity;
  head = 0;
  tail = 0;
  dropped = 0;
}

unfoldable pub push : {A : Type 0} → A → SampleRing A → Bool × SampleRing A
push s r =
    if leb r.size (sub_u64 r.head r.tail)
    then (false, record r { dropped = u64 (r.dropped + 1) })
    else (true, record r { buf = set_at (r.head % r.size) s r.buf; head = u64 (r.head + 1) })

unfoldable pub pop : {A : Type 0} → SampleRing A → Option A × SampleRing A
pop r =
    if r.tail == r.head
    then (none, r)
    else (some (r.buf (r.tail % r.size)), record r { tail = u64 (r.tail + 1) })
