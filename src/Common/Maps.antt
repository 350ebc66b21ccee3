-- ===== src/Common/Maps.antt =====
-- Maps as association lists. `upsert k` is `f(m[k])`: it applies `f` to the value of `k`, or to the
-- default where there is none. A new entry stands before the first greater key by `before`, as in
-- a `std::map`; for a hash map, whose order nothing reads, `before` is constantly false.
use mathlib.Core.Path.{◌≡◌, refl, sym, ap, subst}
use mathlib.Core.Logic.{inl, inr}
use mathlib.Core.Bool.{Bool, true, false}
use mathlib.Core.Option.{Option, none, some}
use mathlib.Core.List.{List, [], ◌∷◌, map}
use native.Mathlib.Omega.{arith}
use sakamoto_snort.Common.Tests.{if◌then◌else◌, Bool-cases, Option-cases}
use sakamoto_snort.Common.Lists.{In, All}

module _ {K V : Type 0} (eq : K → K → Bool) where
  unfoldable pub find : K → List (K × V) → Option V
  find k [] = none
  find k ((j, v) ∷ m) = if eq k j then some v else find k m

  abbrev default_to : V → Option V → V
  default_to default o = elim o [ some v ↦ v | none ↦ default ]

  unfoldable pub find_or : V → K → List (K × V) → V
  find_or default k m = default_to default (find k m)

  update : (V → V) → K → List (K × V) → List (K × V)
  update f k [] = []
  update f k ((j, v) ∷ m) = if eq k j then (j, f v) ∷ m else (j, v) ∷ update f k m

  pub find-In :
      (k : K) (v : V) (m : List (K × V))
      → find k m ≡ some v
      → (j : K) × In (j, v) m × (eq k j ≡ true)
  unfolding find
  find-In k v [] h = cc
  find-In k v ((j, w) ∷ m) h = elim (Bool-cases (eq k j)) [
    | inl e ↦ (j, inl (ground arith), e)
    | inr e ↦ let (i, p, q) = find-In k v m (rw e at h) in (i, inr p, q)
  ]

  All-update :
      (P : K × V → Type 0) (f : V → V) (k : K) (m : List (K × V))
      → ((j : K) (v : V) → eq k j ≡ true → P (j, v) → P (j, f v))
      → All P m
      → All P (update f k m)
  unfolding update
  All-update P f k [] step a = tt
  All-update P f k ((j, v) ∷ m) step a = elim (Bool-cases (eq k j)) [
    | inl e ↦ rw e (step j v e a.0, a.1)
    | inr e ↦ rw e (a.0, All-update P f k m step a.1)
  ]

  module _ (same : (a b : K) → eq a b ≡ true → a ≡ b) where
    find-update_self :
        (f : V → V) (k : K) (v : V) (m : List (K × V))
        → find k m ≡ some v
        → find k (update f k m) ≡ some (f v)
    unfolding find update
    find-update_self f k v [] h = cc
    find-update_self f k v ((j, w) ∷ m) h = ground (arith, find-update_self f k v m)

    find-update_other :
        (f : V → V) (k i : K) (m : List (K × V)) → eq i k ≡ false → find i (update f k m) ≡ find i m
    unfolding find update
    find-update_other f k i [] h = refl
    find-update_other f k i ((j, w) ∷ m) h = ground (arith, find-update_other f k i m, same k j)

  module _ (before : K → K → Bool) where
    insert_new : K → V → List (K × V) → List (K × V)
    insert_new k v [] = (k, v) ∷ []
    insert_new k v ((j, w) ∷ m) =
        if before k j then (k, v) ∷ (j, w) ∷ m else (j, w) ∷ insert_new k v m

    unfoldable pub upsert : V → (V → V) → K → List (K × V) → List (K × V)
    unfolding find update insert_new
    upsert default f k m = elim (find k m) [
      | some v ↦ update f k m
      | none ↦ insert_new k (f default) m
    ]

    upsert-found :
        (default : V) (f : V → V) (k : K) (v : V) (m : List (K × V))
        → find k m ≡ some v
        → upsert default f k m ≡ update f k m
    unfolding upsert
    upsert-found default f k v m h = rw (h, upsert)

    upsert-missing :
        (default : V) (f : V → V) (k : K) (m : List (K × V))
        → find k m ≡ none
        → upsert default f k m ≡ insert_new k (f default) m
    unfolding upsert
    upsert-missing default f k m h = rw (h, upsert)

    All-insert_new :
        (P : K × V → Type 0) (k : K) (v : V) (m : List (K × V))
        → P (k, v)
        → All P m
        → All P (insert_new k v m)
    unfolding insert_new
    All-insert_new P k v [] p a = (p, tt)
    All-insert_new P k v ((j, w) ∷ m) p a = elim (Bool-cases (before k j)) [
      | inl e ↦ rw e (p, a)
      | inr e ↦ rw e (a.0, All-insert_new P k v m p a.1)
    ]

    pub All-upsert :
        (P : K × V → Type 0) (default : V) (f : V → V) (k : K) (m : List (K × V))
        → ((j : K) (v : V) → eq k j ≡ true → P (j, v) → P (j, f v))
        → P (k, f default)
        → All P m
        → All P (upsert default f k m)
    All-upsert P default f k m step fresh a = elim (Option-cases (find k m)) [
      | inl e ↦ rw (upsert-missing default f k m e) (All-insert_new P k (f default) m fresh a)
      | inr (v, e) ↦ rw (upsert-found default f k v m e) (All-update P f k m step a)
    ]

    module _ (same : (a b : K) → eq a b ≡ true → a ≡ b) (eq_refl : (a : K) → eq a a ≡ true) where
      find-insert_new_self :
          (k : K) (v : V) (m : List (K × V)) → find k m ≡ none → find k (insert_new k v m) ≡ some v
      unfolding find insert_new
      find-insert_new_self k v [] h = rw (eq_refl k)
      find-insert_new_self k v ((j, w) ∷ m) h =
          ground (arith, find-insert_new_self k v m, eq_refl k)

      find-insert_new_other :
          (k i : K) (v : V) (m : List (K × V))
          → eq i k ≡ false
          → find i (insert_new k v m) ≡ find i m
      unfolding find insert_new
      find-insert_new_other k i v [] h = rw h
      find-insert_new_other k i v ((j, w) ∷ m) h = ground (arith, find-insert_new_other k i v m)

      pub find_or-upsert_self :
          (default : V) (f : V → V) (k : K) (m : List (K × V))
          → find_or default k (upsert default f k m) ≡ f (find_or default k m)
      unfolding find_or
      find_or-upsert_self default f k m = elim (Option-cases (find k m)) [
        | inl e ↦
            rw (upsert-missing default f k m e)
              (ground (arith, find-insert_new_self k (f default) m e))
        | inr (v, e) ↦
            rw (upsert-found default f k v m e) (ground (arith, find-update_self same f k v m e))
      ]

      pub find-upsert_other :
          (default : V) (f : V → V) (k i : K) (m : List (K × V))
          → eq i k ≡ false
          → find i (upsert default f k m) ≡ find i m
      find-upsert_other default f k i m h = elim (Option-cases (find k m)) [
        | inl e ↦ rw (upsert-missing default f k m e) (find-insert_new_other k i (f default) m h)
        | inr (v, e) ↦ rw (upsert-found default f k v m e) (find-update_other same f k i m h)
      ]

      -- A property of values that `f` keeps, or brings about, carries over to the map.
      pub find_or-upsert :
          (Q : V → Type 0) (default : V) (f : V → V) (k i : K) (m : List (K × V))
          → ((v : V) → Q v → Q (f v))
          → Q (find_or default i m)
          → Q (find_or default i (upsert default f k m))
      unfolding find_or
      find_or-upsert Q default f k i m step q = elim (Bool-cases (eq i k)) [
        | inl e ↦
            let i_is_k : i ≡ k = same i k e in
            rw (i_is_k, find_or-upsert_self default f k m)
              (step (find_or default k m) (subst (λ j. Q (find_or default j m)) i_is_k q))
        | inr e ↦ subst Q (ap (default_to default) (sym (find-upsert_other default f k i m e))) q
      ]

-- A map whose values alone are changed, perhaps by the key, is looked up as before.
pub find-map :
    {K V W : Type 0} (eq : K → K → Bool) (f : K → V → W) (k : K) (v : V) (m : List (K × V))
    → find eq k m ≡ some v
    → (j : K) × (find eq k (map (λ e. (e.0, f e.0 e.1)) m) ≡ some (f j v))
      × In (j, v) m
      × (eq k j ≡ true)
unfolding find
find-map eq f k v [] h = cc
find-map eq f k v ((j, w) ∷ m) h = elim (Bool-cases (eq k j)) [
  | inl e ↦
      let same : some w ≡ some v = rw e at h in
      let w_is_v : w ≡ v = cc in
      (j, rw e (ap (λ x. some (f j x)) w_is_v), inl (ap (λ x. (j, x)) (sym w_is_v)), e)
  | inr e ↦
      let (i, found, listed, same) = find-map eq f k v m (rw e at h) in
      (i, rw e found, inr listed, same)
]

-- A value that the default lacks a property of was found in the map.
pub found :
    {K V : Type 0} (eq : K → K → Bool) (Q : V → Type 0) (default : V) (k : K) (m : List (K × V))
    → ¬ Q default
    → Q (find_or eq default k m)
    → (v : V) × (find eq k m ≡ some v) × Q v
unfolding find_or
found eq Q default k m no_default q = elim (Option-cases (find eq k m)) [
  | inl e ↦ absurd (no_default (rw e at q))
  | inr (v, e) ↦ (v, e, rw e at q)
]
