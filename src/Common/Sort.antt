-- ===== src/Common/Sort.antt =====
-- `std::sort` by a comparator, as insertion sort, with what callers use of it: the result has the
-- same elements, and is ordered by any measure that the comparator respects.
use mathlib.Core.Path.{◌≡◌}
use mathlib.Core.Logic.{inl, inr}
use mathlib.Core.Bool.{Bool, true, false}
use mathlib.Core.List.{List, [], ◌∷◌, Perm}
use mathlib.Core.List.Perm
use native.Mathlib.Omega.{arith}
use sakamoto_snort.Common.Tests.{if◌then◌else◌, Bool-cases}
use sakamoto_snort.Common.Lists.{In, All, All-In, All-mono, All-tabulate}

module _ {A : Type 0} (less : A → A → Bool) where
  unfoldable pub insert_sorted : A → List A → List A
  insert_sorted x [] = x ∷ []
  insert_sorted x (y ∷ ys) = if less y x then y ∷ insert_sorted x ys else x ∷ y ∷ ys

  unfoldable pub sort : List A → List A
  unfolding insert_sorted
  sort [] = []
  sort (x ∷ xs) = insert_sorted x (sort xs)

  In-insert_sorted : (z x : A) (ys : List A) → In z (x ∷ ys) → In z (insert_sorted x ys)
  unfolding insert_sorted
  In-insert_sorted z x [] h = h
  In-insert_sorted z x (y ∷ ys) h = ground (arith, In-insert_sorted z x ys)

  pub In-sort : (z : A) (xs : List A) → In z xs → In z (sort xs)
  unfolding sort
  In-sort z [] h = absurd h
  In-sort z (x ∷ xs) (inl e) = In-insert_sorted z x (sort xs) (inl e)
  In-sort z (x ∷ xs) (inr h) = In-insert_sorted z x (sort xs) (inr (In-sort z xs h))

  module _ {κ} (P : A → Type κ) where
    All-insert_sorted : (x : A) (ys : List A) → P x → All P ys → All P (insert_sorted x ys)
    unfolding insert_sorted
    All-insert_sorted x [] p a = (p, tt)
    All-insert_sorted x (y ∷ ys) p a = elim (Bool-cases (less y x)) [
      | inl e ↦ rw e (a.0, All-insert_sorted x ys p a.1)
      | inr e ↦ rw e (p, a)
    ]

    pub All-sort : (xs : List A) → All P xs → All P (sort xs)
    unfolding sort
    All-sort [] a = tt
    All-sort (x ∷ xs) a = All-insert_sorted x (sort xs) a.0 (All-sort xs a.1)

  pub sort-In : (z : A) (xs : List A) → In z (sort xs) → In z xs
  sort-In z xs =
      All-In (λ x. In x xs) z (sort xs)
        (All-sort (λ x. In x xs) xs (All-tabulate (λ x. In x xs) xs (λ x i. i)))

module _ {A : Type 0} (less : A → A → Bool) where
  insert_sorted-Perm : (x : A) (ys : List A) → Perm (insert_sorted less x ys) (x ∷ ys)
  unfolding insert_sorted
  insert_sorted-Perm x [] = Perm.rfl
  insert_sorted-Perm x (y ∷ ys) = elim (Bool-cases (less y x)) [
    | inl e ↦ rw e (Perm.trans (Perm.cons y (insert_sorted-Perm x ys)) (Perm.swap x y ys))
    | inr e ↦ rw e Perm.rfl
  ]

  pub sort-Perm : (xs : List A) → Perm (sort less xs) xs
  unfolding sort
  sort-Perm [] = Perm.rfl
  sort-Perm (x ∷ xs) = Perm.trans (insert_sorted-Perm x (sort less xs)) (Perm.cons x (sort-Perm xs))

-- Every element stands in the relation `R` to each that follows it.
abbrev pub Ordered : {A : Type 0} → (A → A → Type 0) → List A → Type 0
Ordered R [] = Unit
Ordered R (x ∷ xs) = All (R x) xs × Ordered R xs

module _ {A : Type 0} (less : A → A → Bool) (R : A → A → Type 0)
    (trans : (a b c : A) → R a b → R b c → R a c) (of_less : (a b : A) → less a b ≡ true → R a b)
    (of_not_less : (a b : A) → less a b ≡ false → R b a) where
  insert_sorted-Ordered : (x : A) (ys : List A) → Ordered R ys → Ordered R (insert_sorted less x ys)
  unfolding insert_sorted
  insert_sorted-Ordered x [] o = (tt, tt)
  insert_sorted-Ordered x (y ∷ ys) o = elim (Bool-cases (less y x)) [
    | inl e ↦
        rw e (All-insert_sorted less (R y) x ys (of_less y x e) o.0, insert_sorted-Ordered x ys o.1)
    | inr e ↦
        rw e (
          (of_not_less y x e, All-mono (R y) (R x) (λ z. trans x y z (of_not_less y x e)) ys o.0),
          o,
        )
  ]

  pub sort-Ordered : (xs : List A) → Ordered R (sort less xs)
  unfolding sort
  sort-Ordered [] = tt
  sort-Ordered (x ∷ xs) = insert_sorted-Ordered x (sort less xs) (sort-Ordered xs)
