-- ===== src/Prelude/Sorting.antt =====
-- `std::sort` by an order: insertion, which gives the one sorted list when the order is total.
use mathlib.Core.Path.{◌≡◌, sym, subst}
use mathlib.Core.Bool.{Bool, true, false, Bool-set}
use mathlib.Core.List.{List, [], ◌∷◌, Perm}
use mathlib.Core.List.Perm
use mathlib.Core.List.{Mem, mem-cons_self, eq-or-mem_of_mem-cons, not-mem-nil}
use mathlib.Core.Logic.{inl, inr, ∥∥₁_elim}
use kinova_gen3_driver.Prelude.Tests.{if◌then◌else◌, Bool-cases}
use kinova_gen3_driver.Prelude.Lists.{All}

module _ {ℓ} {A : Type ℓ} where
  unfoldable pub insert_by : (A → A → Bool) → A → List A → List A
  insert_by p a [] = a ∷ []
  insert_by p a (b ∷ bs) = if p a b then a ∷ b ∷ bs else b ∷ insert_by p a bs

  unfoldable pub sort_by : (A → A → Bool) → List A → List A
  unfolding insert_by
  sort_by p [] = []
  sort_by p (a ∷ as_) = insert_by p a (sort_by p as_)

  insert_by-perm : (p : A → A → Bool) (a : A) (bs : List A) → Perm (insert_by p a bs) (a ∷ bs)
  unfolding insert_by
  insert_by-perm p a [] = Perm.refl (a ∷ [])
  insert_by-perm p a (b ∷ bs) = elim (Bool-cases (p a b)) [
    | inl e ↦ rw e (Perm.refl (a ∷ b ∷ bs))
    | inr e ↦ rw e (Perm.trans (Perm.cons b (insert_by-perm p a bs)) (Perm.swap a b bs))
  ]

  pub sort_by-perm : (p : A → A → Bool) (as_ : List A) → Perm (sort_by p as_) as_
  unfolding sort_by
  sort_by-perm p [] = Perm.refl []
  sort_by-perm p (a ∷ as_) =
      Perm.trans (insert_by-perm p a (sort_by p as_)) (Perm.cons a (sort_by-perm p as_))

  -- No element is before one that it follows.
  abbrev pub IsSortedBy : (A → A → Bool) → List A → Type 0
  IsSortedBy p [] = Unit
  IsSortedBy p (a ∷ as_) = All (λ b. p b a ≡ false) as_ × IsSortedBy p as_

  -- What a sort relies on: no two elements are before each other, and what is not before the later of
  -- two is not before the earlier.
  pub record IsOrder (p : A → A → Bool) : Type ℓ where
    pub asym : (a b : A) → p a b ≡ true → p b a ≡ false
    pub below : (a b c : A) → p a b ≡ true → p c b ≡ false → p c a ≡ false

  All-insert_by :
      (p : A → A → Bool) (a b : A) (as_ : List A)
      → p a b ≡ false
      → All (λ c. p c b ≡ false) as_
      → All (λ c. p c b ≡ false) (insert_by p a as_)
  unfolding insert_by
  All-insert_by p a b [] h all = (h, tt)
  All-insert_by p a b (c ∷ cs) h (now, all) = elim (Bool-cases (p a c)) [
    | inl e ↦ rw e (h, (now, all))
    | inr e ↦ rw e (now, All-insert_by p a b cs h all)
  ]

  All-below :
      (p : A → A → Bool)
      → IsOrder p
      → (a b : A) (cs : List A) → p a b ≡ true
      → All (λ c. p c b ≡ false) cs
      → All (λ c. p c a ≡ false) cs
  All-below p o a b [] h all = tt
  All-below p o a b (c ∷ cs) h (now, all) = (o.below a b c h now, All-below p o a b cs h all)

  insert_by-IsSortedBy :
      (p : A → A → Bool)
      → IsOrder p
      → (a : A) (bs : List A) → IsSortedBy p bs
      → IsSortedBy p (insert_by p a bs)
  unfolding insert_by
  insert_by-IsSortedBy p o a [] h = (tt, tt)
  insert_by-IsSortedBy p o a (b ∷ bs) (all, h) = elim (Bool-cases (p a b)) [
    | inl e ↦ rw e ((o.asym a b e, All-below p o a b bs e all), (all, h))
    | inr e ↦ rw e (All-insert_by p a b bs e all, insert_by-IsSortedBy p o a bs h)
  ]

  pub sort_by-IsSortedBy :
      (p : A → A → Bool) → IsOrder p → (as_ : List A) → IsSortedBy p (sort_by p as_)
  unfolding sort_by
  sort_by-IsSortedBy p o [] = tt
  sort_by-IsSortedBy p o (a ∷ as_) =
      insert_by-IsSortedBy p o a (sort_by p as_) (sort_by-IsSortedBy p o as_)

  All-Mem :
      (q : A → Bool) (a : A) (bs : List A) → All (λ b. q b ≡ false) bs → Mem a bs → q a ≡ false
  All-Mem q a [] all m = absurd (not-mem-nil m)
  All-Mem q a (b ∷ bs) (now, all) m =
      ∥∥₁_elim (eq-or-mem_of_mem-cons m) (Bool-set (q a) false) (λ h. elim h [
        | inl e ↦ subst (λ c. q c ≡ false) (sym e) now
        | inr m' ↦ All-Mem q a bs all m'
      ])

  irreflexive : (p : A → A → Bool) → IsOrder p → (a : A) → p a a ≡ false
  irreflexive p o a = elim (Bool-cases (p a a)) [ inl e ↦ o.asym a a e | inr e ↦ e ]

  -- No element of a list that is sorted is before its first.
  not_before :
      (p : A → A → Bool)
      → IsOrder p
      → (a b : A) (bs : List A) → All (λ c. p c b ≡ false) bs
      → Mem a (b ∷ bs)
      → p a b ≡ false
  not_before p o a b bs all m = All-Mem (λ c. p c b) a (b ∷ bs) (irreflexive p o b, all) m

  -- An order in which two elements are equal if neither is before the other sorts a list in one way
  -- only, whatever the algorithm.
  pub sorted_unique :
      (p : A → A → Bool)
      → IsOrder p
      → ((a b : A) → p a b ≡ false → p b a ≡ false → a ≡ b)
      → (as_ bs : List A) → IsSortedBy p as_
      → IsSortedBy p bs
      → Perm as_ bs
      → as_ ≡ bs
  sorted_unique p o total [] bs g h m = sym (Perm.eq-nil (Perm.symm m))
  sorted_unique p o total (a ∷ as_) [] g h m = Perm.eq-nil m
  sorted_unique p o total (a ∷ as_) (b ∷ bs) (now, g) (now', h) m =
      let first : a ≡ b =
        total a b (not_before p o a b bs now' (Perm.subset m a mem-cons_self))
          (not_before p o b a as_ now (Perm.subset (Perm.symm m) b mem-cons_self)) in
      let rest : Perm as_ bs = Perm.cons_inv (subst (λ c. Perm (a ∷ as_) (c ∷ bs)) (sym first) m) in
      (λ i. first i ∷ sorted_unique p o total as_ bs g h rest i)
