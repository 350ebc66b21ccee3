-- ===== src/IpRules/Correct/Views.antt =====
-- From the tables of `compile` to the views that it publishes: what sorting and mapping keep.
use sakamoto_snort.Common.{
  ℕ, zero, suc, ◌+◌, ◌≤◌, ◌<◌, ◌≡◌, refl, inl, inr, Bool, true, false, List, map, arith, ◌==◌,
  Bool-cases, In, All, Ordered, ◌≤ℤ◌, length, sort, In-sort, All-sort, sort-Ordered,
}
use sakamoto_snort.IpRules.Signature.{MaskSig}
use sakamoto_snort.IpRules.Table.{
  Lane, enforcing, would, Bucket, Subtable, exact_of, range_of, max_of, order_of, rule_less,
  sort_all, order_less,
}
use sakamoto_snort.IpRules.Compile.{upto, subtable_at, sort_subtable, sorted_order, uid_view}

In-upto : (i j n : ℕ) → i ≤ j → j < i + n → In j (upto i n)
In-upto i j zero h k = absurd (omega arith)
In-upto i j (suc n) h k = elim (Bool-cases (j == i)) [
  | inl e ↦ inl (ground arith)
  | inr e ↦ inr (In-upto (suc i) j n (ground arith) (omega arith))
]

upto-below : (i n m : ℕ) → i + n ≤ m → All (λ j. j < m) (upto i n)
upto-below i zero m h = tt
upto-below i (suc n) m h = (omega arith, upto-below (suc i) n m (omega arith))

module _ {A : Type 0} where
  pub exact-sort_all :
      (lane : Lane) (b : Bucket A) → exact_of lane (sort_all b) ≡ sort rule_less (exact_of lane b)
  unfolding sort_all
  exact-sort_all enforcing b = refl
  exact-sort_all would b = refl

  pub range-sort_all :
      (lane : Lane) (b : Bucket A) → range_of lane (sort_all b) ≡ sort rule_less (range_of lane b)
  unfolding sort_all
  range-sort_all enforcing b = refl
  range-sort_all would b = refl

  pub max-sort_subtable :
      (lane : Lane) (t : Subtable A) → max_of lane (sort_subtable t) ≡ max_of lane t
  unfolding sort_subtable
  max-sort_subtable enforcing t = refl
  max-sort_subtable would t = refl

  module _ (lane : Lane) (sts : List (Subtable A)) where
    pub sorted_order-valid : All (λ i. i < length sts) (sorted_order lane sts)
    unfolding sorted_order
    sorted_order-valid =
        All-sort (λ a b. order_less lane (subtable_at sts a) (subtable_at sts b))
          (λ i. i < length sts) (upto 0 (length sts))
          (upto-below 0 (length sts) (length sts) (omega arith))

    pub In-sorted_order : (i : ℕ) → i < length sts → In i (sorted_order lane sts)
    unfolding sorted_order
    In-sorted_order i h =
        In-sort (λ a b. order_less lane (subtable_at sts a) (subtable_at sts b)) i
          (upto 0 (length sts)) (In-upto 0 i (length sts) (omega arith) (omega arith))

    order_less-max :
        (sa sb : Subtable A) → order_less lane sa sb ≡ true → max_of lane sb ≤ℤ max_of lane sa
    unfolding order_less
    order_less-max sa sb h = ground arith

    not_order_less-max :
        (sa sb : Subtable A) → order_less lane sa sb ≡ false → max_of lane sa ≤ℤ max_of lane sb
    unfolding order_less
    not_order_less-max sa sb h = ground arith

    pub sorted_order-Ordered :
        Ordered
          (λ i j. max_of lane (subtable_at sts j) ≤ℤ max_of lane (subtable_at sts i))
          (sorted_order lane sts)
    unfolding sorted_order
    sorted_order-Ordered =
        sort-Ordered (λ a b. order_less lane (subtable_at sts a) (subtable_at sts b))
          (λ i j. max_of lane (subtable_at sts j) ≤ℤ max_of lane (subtable_at sts i))
          (λ a b c p q. omega arith) (λ a b. order_less-max (subtable_at sts a) (subtable_at sts b))
          (λ a b. not_order_less-max (subtable_at sts a) (subtable_at sts b)) (upto 0 (length sts))

  pub order-uid_view :
      (lane : Lane) (ct : Bool) (subs : List (MaskSig × Subtable A))
      → order_of lane (uid_view ct subs) ≡ sorted_order lane (uid_view ct subs).subtables
  unfolding uid_view
  order-uid_view enforcing ct subs = refl
  order-uid_view would ct subs = refl

  pub subtables-uid_view :
      (ct : Bool) (subs : List (MaskSig × Subtable A))
      → (uid_view ct subs).subtables ≡ map (λ e. sort_subtable e.1) subs
  unfolding uid_view
  subtables-uid_view ct subs = refl
