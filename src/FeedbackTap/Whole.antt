-- ===== src/FeedbackTap/Whole.antt =====
-- include/kinova_lowlevel/feedback_tap.h: no load returns a torn value.
use kinova_gen3_driver.Prelude.{
  ℕ, zero, suc, ◌+◌, ◌%◌, ◌^◌, ◌<◌, ◌≤◌, ◌≡◌, refl, sym, ap, subst, ◌∙◌, List, [], ◌∷◌,
  if◌then◌else◌, ltb, ◌==◌, set_at, arith, length, All, Bool-cases, inl, inr, if-cases, ==_iff,
}
use kinova_gen3_driver.FeedbackTap.{
  Writer, resting, copying_in, Reader, idle, asking, copying_out, Seqlock, u32, new_seqlock, Event,
  stores, writes, loads, reads, begin_store, write_step, try_again, read_step, step, run,
}

module _ {W : Type 0} where
  -- Two values agree on their first words.
  abbrev pub Agree : ℕ → (ℕ → W) → (ℕ → W) → Type 0
  Agree k a b = (j : ℕ) → j < k → a j ≡ b j

  set_at-Agree : (k : ℕ) (a b : ℕ → W) → Agree k a b → Agree (suc k) (set_at k (b k) a) b
  set_at-Agree k a b h j p = elim (Bool-cases (k == j)) [
    | inl e ↦ subst (λ c. (if c then b k else a j) ≡ b j) (sym e) (ap b ((==_iff k j).0 e))
    | inr e ↦ subst (λ c. (if c then b k else a j) ≡ b j) (sym e) (h j (ground (arith, e, p)))
  ]

module _ {W : Type 0} (size : ℕ) where
  module _ (t : ℕ) (d latest : ℕ → W) where
    Written : Writer W → Type 0
    Written resting = (t % 2 ≡ 0) × Agree size d latest
    Written (copying_in v k) = (t % 2 ≡ 1) × (k ≤ size) × Agree k d v

    Reading : Reader W → Type 0
    Reading idle = Unit
    Reading (asking a out) = Unit
    Reading (copying_out a s1 k out) =
        (t1 : ℕ) × (t1 % 2 ≡ 0) × (s1 ≡ u32 t1) × (t1 ≤ t) × (k ≤ size) × (t ≡ t1 → Agree k out d)

  -- `t` counts the changes of the counter, which wraps.
  Sound : ℕ → Seqlock W → Type 0
  Sound t l =
      (l.seq ≡ u32 t)
      × Written t l.data_ l.latest l.writer
      × Reading t l.data_ l.latest l.reader
      × All (λ (r : (ℕ → W) × (ℕ → W)). Agree size r.0 r.1) l.returned

  try_again-Reading :
      (t : ℕ) (d latest : ℕ → W) (a : ℕ) (out : ℕ → W) → Reading t d latest (try_again a out)
  unfolding Reading
  try_again-Reading t d latest zero out = tt
  try_again-Reading t d latest (suc a) out = tt

  -- A change of the counter leaves the reader nothing to say of the words.
  later-Reading :
      (t : ℕ) (d d' latest latest' : ℕ → W) (r : Reader W)
      → Reading t d latest r
      → Reading (suc t) d' latest' r
  unfolding Reading
  later-Reading t d d' latest latest' idle h = tt
  later-Reading t d d' latest latest' (asking a out) h = tt
  later-Reading t d d' latest latest' (copying_out a s1 k out) (t1, e, s, l, b, w) =
      (t1, e, s, omega (arith, l), b, λ q. absurd (omega (arith, q, l)))

  -- While a store is under way, the words may change: no reader is at its count.
  busy-Reading :
      (t : ℕ) (d d' latest : ℕ → W) (r : Reader W)
      → t % 2 ≡ 1
      → Reading t d latest r
      → Reading t d' latest r
  unfolding Reading
  busy-Reading t d d' latest idle o h = tt
  busy-Reading t d d' latest (asking a out) o h = tt
  busy-Reading t d d' latest (copying_out a s1 k out) o (t1, e, s, l, b, w) =
      (t1, e, s, l, b, λ q. absurd (ground (arith, q, e, o)))

  Moves : ℕ → Seqlock W → Type 0
  Moves t l = (t' : ℕ) × (t' ≤ suc t) × Sound t' l

  begin_store-Moves :
      (t : ℕ) (v : ℕ → W) (l : Seqlock W) (w : Writer W)
      → l.writer ≡ w
      → Sound t l
      → Moves t (begin_store size v w l)
  unfolding Moves Sound begin_store Written
  begin_store-Moves t v l resting e (q, w, r, a) =
      let w' = subst (Written t l.data_ l.latest) e w in
      (
        suc t,
        omega arith,
        (
          ground (arith, q),
          (ground (arith, w'.0), omega arith, λ j p. absurd (omega (arith, p))),
          later-Reading t l.data_ l.data_ l.latest l.latest l.reader r,
          a,
        ),
      )
  begin_store-Moves t v l (copying_in u k) e h = (t, omega arith, h)

  write_step-Moves :
      (t : ℕ) (l : Seqlock W) (w : Writer W)
      → l.writer ≡ w
      → Sound t l
      → Moves t (write_step size w l)
  unfolding Moves Sound write_step Written
  write_step-Moves t l resting e h = (t, omega arith, h)
  write_step-Moves t l (copying_in v k) e (q, w, r, a) =
      copied (subst (Written t l.data_ l.latest) e w)
    where
      copied :
          (t % 2 ≡ 1) × (k ≤ size) × Agree k l.data_ v
          → Moves t (write_step size (copying_in v k) l)
      copied (o, b, h) =
          if-cases (Moves t) (ltb k size)
            (record l { data_ = set_at k (v k) l.data_; writer = copying_in v (suc k) })
            (record l { seq = u32 (l.seq + 1); writer = resting; latest = v })
            (λ f. (
              t,
              omega arith,
              (
                q,
                (o, ground (arith, f), set_at-Agree k l.data_ v h),
                busy-Reading t l.data_ (set_at k (v k) l.data_) l.latest l.reader o r,
                a,
              ),
            ))
            λ f. (
              suc t,
              omega arith,
              (
                ground (arith, q),
                (ground (arith, o), λ j p. h j (ground (arith, f, p))),
                later-Reading t l.data_ l.data_ l.latest v l.reader r,
                a,
              ),
            )

  resting-Agree :
      (t : ℕ) (d latest : ℕ → W) (w : Writer W)
      → t % 2 ≡ 0
      → Written t d latest w
      → Agree size d latest
  unfolding Written
  resting-Agree t d latest resting p h = h.1
  resting-Agree t d latest (copying_in v k) p h = absurd (ground (arith, p, h.0))

  read_step-Moves :
      (t : ℕ) (l : Seqlock W) (r : Reader W)
      → l.reader ≡ r
      → t < 2 ^ 32
      → Sound t l
      → Moves t (read_step size r l)
  unfolding Moves Sound read_step Reading
  read_step-Moves t l idle e b h = (t, omega arith, h)
  read_step-Moves t l (asking a out) e b (q, w, r, c) =
      if-cases (Moves t) ((l.seq % 2) == 1) (record l { reader = try_again a out })
        (record l { reader = copying_out a l.seq 0 out })
        (λ f. (t, omega arith, (q, w, try_again-Reading t l.data_ l.latest a out, c)))
        λ f.
          let begun : Reading t l.data_ l.latest (copying_out a l.seq 0 out) = (
            t,
            ground (arith, f, q, b),
            q,
            omega arith,
            omega arith,
            λ _ j p. absurd (omega (arith, p)),
          ) in
          (t, omega arith, (q, w, begun, c))
  read_step-Moves t l (copying_out a s1 k out) e b (q, w, r, c) =
      copied (subst (Reading t l.data_ l.latest) e r)
    where
      copied :
          Reading t l.data_ l.latest (copying_out a s1 k out)
          → Moves t (read_step size (copying_out a s1 k out) l)
      copied (t1, e1, s, b1, bk, h) =
          if-cases (Moves t) (ltb k size)
            (record l { reader = copying_out a s1 (suc k) (set_at k (l.data_ k) out) })
            (if l.seq == s1
              then record l { reader = idle; returned = (out, l.latest) ∷ l.returned }
              else record l { reader = try_again a out })
            (λ f.
              let next : Reading t l.data_ l.latest
                  (copying_out a s1 (suc k) (set_at k (l.data_ k) out)) =
                (t1, e1, s, b1, ground (arith, f), λ p. set_at-Agree k out l.data_ (h p)) in
              (t, omega arith, (q, w, next, c)))
            λ f.
              if-cases (Moves t) (l.seq == s1)
                (record l { reader = idle; returned = (out, l.latest) ∷ l.returned })
                (record l { reader = try_again a out })
                (λ g.
                  let now : t ≡ t1 = ground (arith, g, q, s, b, b1) in
                  let still =
                    resting-Agree t l.data_ l.latest l.writer (ground (arith, now, e1)) w in
                  (
                    t,
                    omega arith,
                    (q, w, tt, (λ j p. h now j (ground (arith, f, p)) ∙ still j p, c)),
                  ))
                λ g. (t, omega arith, (q, w, try_again-Reading t l.data_ l.latest a out, c))

  step-Moves :
      (t : ℕ) (e : Event W) (l : Seqlock W) → t < 2 ^ 32 → Sound t l → Moves t (step size e l)
  unfolding step Sound Moves Reading
  step-Moves t (stores v) l b h = begin_store-Moves t v l l.writer refl h
  step-Moves t writes l b h = write_step-Moves t l l.writer refl h
  step-Moves t (loads out) l b (q, w, r, c) = (t, omega arith, (q, w, tt, c))
  step-Moves t reads l b h = read_step-Moves t l l.reader refl b h

  run-Sound :
      (es : List (Event W)) (t : ℕ) (l : Seqlock W)
      → t + length es < 2 ^ 32
      → Sound t l
      → (t' : ℕ) × Sound t' (run size es l)
  unfolding run Moves
  run-Sound [] t l b h = (t, h)
  run-Sound (e ∷ es) t l b h =
      let (t', p, h') = step-Moves t e l (omega (arith, b)) h in
      run-Sound es t' (step size e l) (omega (arith, b, p)) h'

  -- However the steps of the writer and of the reader interleave, as long as they are fewer than 2^32:
  -- every value that a load returns is, in each of its words, the value whose store was the last to
  -- end when the load returned. No load returns words of two values.
  pub returned_whole :
      (blank : ℕ → W) (es : List (Event W))
      → length es < 2 ^ 32
      → All
          (λ (r : (ℕ → W) × (ℕ → W)). Agree size r.0 r.1)
          (run size es (new_seqlock blank)).returned
  unfolding Sound Written Reading
  returned_whole blank es b =
      let (t, h) =
        run-Sound es 0 (new_seqlock blank) (omega (arith, b)) (refl, (refl, λ j p. refl), tt, tt) in
      h.3
