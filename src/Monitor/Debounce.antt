-- ===== src/Monitor/Debounce.antt =====
-- The debounce counters of contact_monitor.cpp against the run of cycles over the threshold.
use Prim.Native.Nat.{min}
use kinova_gen3_driver.Prelude.{ℕ, suc, ◌≡◌, Bool, ◌&&◌, List, [], ◌∷◌, arith, if◌then◌else◌, ◌==◌}
use kinova_gen3_driver.Types.{Joint}
use kinova_gen3_driver.Monitor.{debounce, crosses}

-- For each armed cycle, newest first, which joints were over their threshold.
abbrev pub History : Type 0
History = List (Joint → Bool)

-- How many of the latest cycles in a row the joint was over.
pub streak : History → Joint → ℕ
streak [] i = 0
streak (over ∷ h) i = let rest = streak h i in if over i then suc rest else 0

-- The counters that the loop leaves, from a restart on.
pub counts : ℕ → History → Joint → ℕ
counts n [] = λ _. 0
counts n (over ∷ h) = debounce n over (counts n h)

counts-streak : (n : ℕ) (h : History) (i : Joint) → counts n h i ≡ min n (streak h i)
unfolding counts streak debounce
counts-streak n [] i = omega arith
counts-streak n (over ∷ h) i = ground (arith, counts-streak n h i)

-- The counter of a joint is its run of cycles over the threshold, cut off at the debounce count, and
-- the joint crosses in exactly that cycle in which the run reaches the count: once in each run.
pub crosses-streak :
    (n : ℕ) (over : Joint → Bool) (h : History) (i : Joint)
    → (counts n (over ∷ h) i ≡ min n (streak (over ∷ h) i))
      × (crosses n over (counts n h) i ≡ (over i && (streak (over ∷ h) i == n)))
unfolding counts streak debounce crosses
crosses-streak n over h i = ground (arith, counts-streak n h i)
