-- ===== src/Checkpoint/Distinct.antt =====
-- A loop over a set of the keys seen so far: no key occurs twice, and every item passes its test.
use sakamoto_snort.Common.{
  ◌≡◌, refl, subst, Bool, true, false, List, [], ◌∷◌, map, In, All, inl, inr, ◌↔◌, ◌==◌, ==_iff,
  Bool-cases, &&-true, arith,
}
use sakamoto_snort.Checkpoint.Masks.{same_bytes}
use sakamoto_snort.Checkpoint.Valid.{elem, all_fresh}

-- No element occurs twice.
abbrev pub Distinct : {A : Type 0} → List A → Type 0
Distinct [] = Unit
Distinct (x ∷ xs) = ¬ In x xs × Distinct xs

-- A test of equality.
abbrev pub IsEquality : {A : Type 0} → (A → A → Bool) → Type 0
IsEquality {A} eq = (x y : A) → (eq x y ≡ true) ↔ (x ≡ y)

pub same_bytes-IsEquality : IsEquality same_bytes
same_bytes-IsEquality [] [] = (λ h. refl, λ h. refl)
same_bytes-IsEquality [] (y ∷ ys) = (λ h. cc, λ h. cc)
same_bytes-IsEquality (x ∷ xs) [] = (λ h. cc, λ h. cc)
same_bytes-IsEquality (x ∷ xs) (y ∷ ys) =
    let rest = same_bytes-IsEquality xs ys in
    let first = ==_iff x y in
    (
      λ h. let (a, b) = &&-true (x == y) (same_bytes xs ys) h in cc (first.0 a, rest.0 b),
      λ h. let e : x ≡ y = cc in let f : xs ≡ ys = cc in rw (first.1 e, rest.1 f) refl,
    )

module _ {K : Type 0} (eq : K → K → Bool) (is_eq : IsEquality eq) where
  pub elem-In : (x : K) (ys : List K) → elem eq x ys ≡ true → In x ys
  elem-In x [] h = cc
  elem-In x (y ∷ ys) h = elim (Bool-cases (eq x y)) [
    | inl e ↦ inl ((is_eq x y).0 e)
    | inr e ↦ inr (elem-In x ys (ground arith))
  ]

  pub elem-not_In : (x : K) (ys : List K) → elem eq x ys ≡ false → ¬ In x ys
  elem-not_In x [] h i = i
  elem-not_In x (y ∷ ys) h (inl e) = let same = (is_eq x y).1 e in ground arith
  elem-not_In x (y ∷ ys) h (inr i) = elem-not_In x ys (ground arith) i

  module _ {A : Type 0} (key : A → K) (test : A → Bool) where
    fresh_step :
        (seen : List K) (x : A) (xs : List A)
        → all_fresh eq key test seen (x ∷ xs) ≡ true
        → (elem eq (key x) seen ≡ false)
          × (test x ≡ true)
          × (all_fresh eq key test (key x ∷ seen) xs ≡ true)
    unfolding all_fresh
    fresh_step seen x xs h = ground arith

    all_fresh-passes :
        (seen : List K) (xs : List A)
        → all_fresh eq key test seen xs ≡ true
        → All (λ x. test x ≡ true) xs
    all_fresh-passes seen [] h = tt
    all_fresh-passes seen (x ∷ xs) h =
        let (new, passes, rest) = fresh_step seen x xs h in
        (passes, all_fresh-passes (key x ∷ seen) xs rest)

    all_fresh-apart :
        (seen : List K) (xs : List A) (k : K)
        → all_fresh eq key test seen xs ≡ true
        → In k seen
        → ¬ In k (map key xs)
    all_fresh-apart seen [] k h i j = j
    all_fresh-apart seen (x ∷ xs) k h i (inl e) =
        let (new, passes, rest) = fresh_step seen x xs h in
        elem-not_In (key x) seen new (subst (λ m. In m seen) e i)
    all_fresh-apart seen (x ∷ xs) k h i (inr j) =
        let (new, passes, rest) = fresh_step seen x xs h in
        all_fresh-apart (key x ∷ seen) xs k rest (inr i) j

    all_fresh-Distinct :
        (seen : List K) (xs : List A) → all_fresh eq key test seen xs ≡ true → Distinct (map key xs)
    all_fresh-Distinct seen [] h = tt
    all_fresh-Distinct seen (x ∷ xs) h =
        let (new, passes, rest) = fresh_step seen x xs h in
        (
          all_fresh-apart (key x ∷ seen) xs (key x) rest (inl refl),
          all_fresh-Distinct (key x ∷ seen) xs rest,
        )

    pub all_fresh-lem :
        (xs : List A)
        → all_fresh eq key test [] xs ≡ true
        → Distinct (map key xs) × All (λ x. test x ≡ true) xs
    all_fresh-lem xs h = (all_fresh-Distinct [] xs h, all_fresh-passes [] xs h)
