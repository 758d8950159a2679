-- ===== src/RtExecutor/CommsLoss.antt =====
-- src/rt_executor.cpp: the detection of comms loss against the whole history of exchanges.
use kinova_gen3_driver.Prelude.{
  ℕ, zero, suc, ◌+◌, ◌-◌, ◌%◌, ◌^◌, ◌<◌, ◌≤◌, ◌≡◌, refl, sym, ap, subst, ◌∙◌, Bool, true, false,
  not, ◌&&◌, ◌||◌, Bool-cases, inl, inr, Option, none, some, List, [], ◌∷◌, if◌then◌else◌, ltb, leb,
  arith, length, mod-apart,
}
use native.Mathlib.Nat.{mod-eq-sub-mod}
use kinova_gen3_driver.RtExecutor.{
  ExecutorConfig, Misses, no_misses, tolerated, miss, count_exchange, note_miss, is_full, is_lost,
  is_valid,
}

-- A history lists, newest first, which exchanges timed out.
unfoldable pub streak : List Bool → ℕ
streak [] = 0
streak (h ∷ hs) = let rest = streak hs in if h then rest + 1 else 0

-- How many of the last `w` exchanges timed out.
unfoldable pub recent : ℕ → List Bool → ℕ
recent w [] = 0
recent zero (h ∷ hs) = 0
recent (suc w) (h ∷ hs) = let rest = recent w hs in if h then rest + 1 else rest

-- How many exchanges ago the miss was that `k` later ones followed.
unfoldable age : ℕ → List Bool → Option ℕ
age k [] = none
age zero (h ∷ hs) =
    let rest = age zero hs in
    if h then some 0 else elim rest [ none ↦ none | some a ↦ some (suc a) ]
age (suc k) (h ∷ hs) =
    let rest = age k hs in
    let same = age (suc k) hs in
    elim (if h then rest else same) [ none ↦ none | some a ↦ some (suc a) ]

unfoldable is_within : ℕ → Option ℕ → Bool
is_within w none = false
is_within w (some a) = ltb a w

-- The miss that `k` later ones followed is among the last `w` exchanges exactly when more than `k`
-- of these missed.
age-recent : (w k : ℕ) (hs : List Bool) → is_within w (age k hs) ≡ ltb k (recent w hs)
unfolding age recent is_within
age-recent w k [] = ground arith
age-recent zero zero (h ∷ hs) = ground arith
age-recent zero (suc k) (h ∷ hs) = ground arith
age-recent (suc w) zero (h ∷ hs) = ground (arith, age-recent w zero hs)
age-recent (suc w) (suc k) (h ∷ hs) = ground (arith, age-recent w k hs, age-recent w (suc k) hs)

unfoldable missed : List Bool → ℕ
missed [] = 0
missed (h ∷ hs) = let rest = missed hs in if h then rest + 1 else rest

recent-missed : (w : ℕ) (hs : List Bool) → (recent w hs ≤ missed hs) × (missed hs ≤ length hs)
unfolding recent missed
recent-missed w [] = ground arith
recent-missed zero (h ∷ hs) = ground (arith, recent-missed zero hs)
recent-missed (suc w) (h ∷ hs) = ground (arith, recent-missed w hs)

module _ {R : Type 0} (c : ExecutorConfig R) where
  -- The counters after a history.
  unfoldable pub after : List Bool → Misses
  after [] = no_misses
  after (h ∷ hs) = (count_exchange c h (after hs)).1

  -- What the settings promise: so many misses in a row, or so many within the window.
  unfoldable pub meets : List Bool → Bool
  meets [] = false
  meets (h ∷ hs) =
      h
      && (leb c.max_consecutive_misses (streak (h ∷ hs))
          || leb c.max_window_misses (recent c.miss_window (h ∷ hs)))

  -- The history without the ends that come before its last exchange.
  unfoldable pub survives : List Bool → Bool
  survives [] = true
  survives (h ∷ hs) = let rest = survives hs in rest && not (meets (h ∷ hs))

  -- The ring holds the exchange of each of the last misses.
  IsRing : List Bool → Misses → Type 0
  IsRing hs m =
      (k : ℕ)
      → k < c.max_window_misses
      → k < m.total_misses
      → (age k hs
          ≡ some (m.exchanges - 1 - m.miss_at ((m.total_misses - 1 - k) % c.max_window_misses)))
        × (m.miss_at ((m.total_misses - 1 - k) % c.max_window_misses) < m.exchanges)

  record Tracks (hs : List Bool) (m : Misses) : Type 0 where
    consecutive : m.consecutive ≡ streak hs
    exchanges : m.exchanges ≡ length hs
    total : m.total_misses ≡ missed hs
    ring : IsRing hs m

  good-Tracks :
      (hs : List Bool) (m : Misses)
      → suc (length hs) < 2 ^ 64
      → Tracks hs m
      → Tracks (false ∷ hs) (count_exchange c false m).1
  unfolding count_exchange IsRing streak missed age
  good-Tracks hs m b t = record {
    consecutive = refl;
    exchanges = ground (arith, t.exchanges);
    total = t.total;
    ring = ring;
  }
    where
      ring : IsRing (false ∷ hs) (count_exchange c false m).1
      ring zero p q = ground (arith, t.ring zero p q)
      ring (suc k) p q = ground (arith, t.ring (suc k) p q)

  miss-Tracks :
      (hs : List Bool) (m : Misses)
      → suc (length hs) < 2 ^ 64
      → Tracks hs m
      → Tracks (true ∷ hs) (note_miss c m)
  unfolding IsRing streak missed age
  miss-Tracks hs m b t = record {
    consecutive = ground (arith, t.consecutive);
    exchanges = ground (arith, t.exchanges);
    total = ground (arith, t.total, recent-missed 0 hs);
    ring = ring;
  }
    where
      bound : m.total_misses + 1 < 2 ^ 64
      bound = ground (arith, t.total, recent-missed 0 hs)

      ring : IsRing (true ∷ hs) (note_miss c m)
      ring zero p q = ground (arith, t.exchanges, bound)
      ring (suc k) p q = ground (
        arith,
        t.exchanges,
        bound,
        t.ring k (omega arith) (ground (arith, bound)),
        mod-apart c.max_window_misses (m.total_misses - suc k) (suc k) (omega arith) (omega arith),
      )

  is_full-recent :
      (hs : List Bool) (m : Misses)
      → 0 < c.max_window_misses
      → suc (length hs) < 2 ^ 64
      → Tracks (true ∷ hs) m
      → m.exchanges ≡ suc (length hs)
      → is_full c (length hs) m ≡ leb c.max_window_misses (recent c.miss_window (true ∷ hs))
  unfolding IsRing is_full is_within
  is_full-recent hs m w b t e = elim (Bool-cases (leb c.max_window_misses m.total_misses)) [
    | inl f ↦
        let r = t.ring (c.max_window_misses - 1) (omega arith) (ground arith) in
        ground (
          arith,
          r.1,
          mod-eq-sub-mod {n = m.total_misses} {m = c.max_window_misses} (ground arith),
          sym (ap (is_within c.miss_window) r.0)
              ∙ age-recent c.miss_window (c.max_window_misses - 1) (true ∷ hs),
        )
    | inr f ↦ ground (arith, t.total, recent-missed c.miss_window (true ∷ hs))
  ]

  -- One exchange more.
  next-Tracks :
      (h : Bool) (hs : List Bool) (m : Misses)
      → 0 < c.max_window_misses
      → suc (length hs) < 2 ^ 64
      → Tracks hs m
      → (is_lost (count_exchange c h m).0 ≡ meets (h ∷ hs))
        × (meets (h ∷ hs) ≡ false → Tracks (h ∷ hs) (count_exchange c h m).1)
  unfolding count_exchange miss meets streak
  next-Tracks false hs m w b t = (refl, λ _. good-Tracks hs m b t)
  next-Tracks true hs m w b t = (
    ground (arith, full, t.consecutive),
    λ e. subst (λ x. Tracks (true ∷ hs) x.1) (sym (settled e)) noted,
  )
    where
      noted : Tracks (true ∷ hs) (note_miss c m)
      noted = miss-Tracks hs m b t

      full :
          is_full c m.exchanges (note_miss c m)
          ≡ leb c.max_window_misses (recent c.miss_window (true ∷ hs))
      full =
          ap (λ n. is_full c n (note_miss c m)) t.exchanges
          ∙ is_full-recent hs (note_miss c m) w b noted noted.exchanges

      settled : meets (true ∷ hs) ≡ false → miss c m ≡ (tolerated, note_miss c m)
      settled e = ground (arith, full, t.consecutive)

  after-Tracks :
      (hs : List Bool)
      → 0 < c.max_window_misses
      → length hs < 2 ^ 64
      → survives hs ≡ true
      → Tracks hs (after hs)
  unfolding after survives IsRing missed streak
  after-Tracks [] w b s = record {
    consecutive = refl;
    exchanges = refl;
    total = refl;
    ring = λ k p q. ground arith;
  }
  after-Tracks (h ∷ hs) w b s =
      (next-Tracks h hs (after hs) w b (after-Tracks hs w (omega arith) (ground arith))).1
        (ground arith)

  -- With settings that the constructor takes, and after any history of fewer than 2^64 exchanges that
  -- has not ended the run, the ring of the last misses and the counters decide as the settings promise: the next exchange is taken as the loss of
  -- the arm exactly when it times out and either so many in a row have, or so many of the last
  -- `miss_window` exchanges have.
  pub count_exchange-meets :
      (h : Bool) (hs : List Bool)
      → is_valid c ≡ true
      → suc (length hs) < 2 ^ 64
      → survives hs ≡ true
      → is_lost (count_exchange c h (after hs)).0 ≡ meets (h ∷ hs)
  count_exchange-meets h hs v b s =
      let w : 0 < c.max_window_misses = ground (arith, v) in
      (next-Tracks h hs (after hs) w b (after-Tracks hs w (omega arith) s)).0
