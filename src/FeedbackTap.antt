-- ===== src/FeedbackTap.antt =====
-- include/kinova_lowlevel/feedback_tap.h: the sequence lock between the real-time thread, its only
-- writer, and a reader. The value is `size` words that are copied one at a time; each access to memory
-- is a step, in the order that the fences give, and the steps of the two threads interleave in any
-- way. `latest` and `returned` are logs: the value that was stored last, and each value that a load
-- has returned with the one that was the latest then.
pub mod Whole
use kinova_gen3_driver.Prelude.{
  ℕ, zero, suc, ◌+◌, ◌%◌, ◌^◌, Bool, true, false, List, [], ◌∷◌, if◌then◌else◌, ltb, ◌==◌, set_at,
}

pub data Writer (W : Type 0) : Type 0 where
  resting : Writer W
  copying_in : (ℕ → W) → ℕ → Writer W

-- The attempts that are left and the caller's variable; then the first reading of `seq_` and the next
-- word too.
pub data Reader (W : Type 0) : Type 0 where
  idle : Reader W
  asking : ℕ → (ℕ → W) → Reader W
  copying_out : ℕ → ℕ → ℕ → (ℕ → W) → Reader W

pub record Seqlock (W : Type 0) : Type 0 where
  pub seq : ℕ
  pub data_ : ℕ → W
  pub writer : Writer W
  pub reader : Reader W
  pub latest : ℕ → W
  pub returned : List ((ℕ → W) × (ℕ → W))

abbrev pub u32 : ℕ → ℕ
u32 n = n % 2 ^ 32

abbrev pub new_seqlock : {W : Type 0} → (ℕ → W) → Seqlock W
new_seqlock blank = record {
  seq = 0;
  data_ = blank;
  writer = resting;
  reader = idle;
  latest = blank;
  returned = [];
}

-- `stores` and `loads` are the calls; the others are the next step of a call that has begun.
pub data Event (W : Type 0) : Type 0 where
  stores : (ℕ → W) → Event W
  writes : Event W
  loads : (ℕ → W) → Event W
  reads : Event W

-- The next of the 16 attempts, or giving up.
abbrev pub try_again : {W : Type 0} → ℕ → (ℕ → W) → Reader W
try_again zero out = idle
try_again (suc a) out = asking a out

module _ {W : Type 0} (size : ℕ) where
  unfoldable pub begin_store : (ℕ → W) → Writer W → Seqlock W → Seqlock W
  begin_store v resting l = record l { seq = u32 (l.seq + 1); writer = copying_in v 0 }
  begin_store v (copying_in w k) l = l

  unfoldable pub write_step : Writer W → Seqlock W → Seqlock W
  write_step resting l = l
  write_step (copying_in v k) l =
      if ltb k size
      then record l { data_ = set_at k (v k) l.data_; writer = copying_in v (suc k) }
      else record l { seq = u32 (l.seq + 1); writer = resting; latest = v }

  unfoldable pub read_step : Reader W → Seqlock W → Seqlock W
  read_step idle l = l
  read_step (asking a out) l =
      if (l.seq % 2) == 1
      then record l { reader = try_again a out }
      else record l { reader = copying_out a l.seq 0 out }
  read_step (copying_out a s1 k out) l =
      if ltb k size
      then record l { reader = copying_out a s1 (suc k) (set_at k (l.data_ k) out) }
      else if l.seq == s1
      then record l { reader = idle; returned = (out, l.latest) ∷ l.returned }
      else record l { reader = try_again a out }

  unfoldable pub step : Event W → Seqlock W → Seqlock W
  step (stores v) l = begin_store v l.writer l
  step writes l = write_step l.writer l
  step (loads out) l = record l { reader = asking 15 out }
  step reads l = read_step l.reader l

  unfoldable pub run : List (Event W) → Seqlock W → Seqlock W
  run [] l = l
  run (e ∷ es) l = run es (step e l)
