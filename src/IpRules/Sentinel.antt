-- ===== src/IpRules/Sentinel.antt =====
-- The priority that the lookups take for "no rule" is one that a rule can have: what becomes of such rules.
use sakamoto_snort.Common.{
  ℕ, zero, suc, ◌≡◌, refl, ap, not, In, inl, inr, Bool, true, false, List, [], ◌∷◌, map, none, some,
  get_elem?, ◌==◌, if◌then◌else◌, Option-cases, All, All-In, ℤ, find, find-In, ltb, upsert,
  All-upsert, max_ℤ,
}
use sakamoto_snort.IpRules.Rule.{PacketKey}
use sakamoto_snort.IpRules.Family.{Ip}
use sakamoto_snort.IpRules.Signature.{MaskSig, sig_eq, sig_less, mask_sig_for_rule}
use sakamoto_snort.IpRules.Table.{
  Lane, enforcing, would, Subtable, UidView, max_of, order_of, no_priority, lookup_loop,
  lookup_best,
}
use sakamoto_snort.IpRules.Compile.{
  RuleState, RulesMap, Tables, lane_of, family_eq, empty_subtable, file_rule, file_at, add_rule,
  add_rules, sort_subtable, uid_view, compile_views, contains_uid, uids_using_ct,
}
use sakamoto_snort.IpRules.Correct.Views.{max-sort_subtable, subtables-uid_view}

-- A rule of the lane has the least 32-bit priority.
abbrev pub IsLeast : Lane → ℕ × RuleState → Type 0
IsLeast lane e = lane_of e.1.def ≡ lane → e.1.def.priority ≡ no_priority

-- A subtable that the lookups of the lane stop at.
abbrev Stops : {A : Type 0} → Lane → Subtable A → Type 0
Stops lane t = max_of lane t ≡ no_priority

abbrev AllStop : {A : Type 0} → Lane → Tables A → Type 0
AllStop lane tables = All (λ e. All (λ s. Stops lane s.1) e.1) tables

max-if :
    (own : Bool) (a p : ℤ)
    → a ≡ no_priority
    → (own ≡ true → p ≡ no_priority)
    → (if own then max_ℤ a p else a) ≡ no_priority
max-if true a p h g = let low = g refl in rw (h, low) refl
max-if false a p h g = h

max-unless :
    (other : Bool) (a p : ℤ)
    → a ≡ no_priority
    → (other ≡ false → p ≡ no_priority)
    → (if other then a else max_ℤ a p) ≡ no_priority
max-unless true a p h g = h
max-unless false a p h g = let low = g refl in rw (h, low) refl

file_rule-Stops :
    {A : Type 0} ⦃ip : Ip A⦄ (lane : Lane) (i : ℕ) (st : RuleState) (t : Subtable A)
    → IsLeast lane (i, st)
    → Stops lane t
    → Stops lane (file_rule st t)
unfolding file_rule
file_rule-Stops enforcing i st t least h =
    max-if st.def.enforce t.max_enforce_priority st.def.priority h
      (λ e. least (ap (λ b. if b then enforcing else would) e))
file_rule-Stops would i st t least h =
    max-unless st.def.enforce t.max_would_priority st.def.priority h
      (λ e. least (ap (λ b. if b then enforcing else would) e))

guarded :
    {X : Type 0} (P : X → Type 0) (on own : Bool) (x y : X)
    → P x
    → P y
    → P (if not on then x else if not own then x else y)
guarded P false own x y p q = p
guarded P true false x y p q = p
guarded P true true x y p q = q

module _ {A : Type 0} ⦃ip : Ip A⦄ (lane : Lane) where
  file_at-AllStop :
      (i : ℕ) (st : RuleState) (tables : Tables A)
      → IsLeast lane (i, st)
      → AllStop lane tables
      → AllStop lane (file_at tables st)
  unfolding file_at
  file_at-AllStop i st tables least h =
      All-upsert ◌==◌ ltb (λ e. All (λ s. Stops lane s.1) e.1) []
        (upsert sig_eq sig_less empty_subtable (file_rule st) (mask_sig_for_rule ip st.def))
        st.def.uid tables (λ j subs same a. filed subs a) (filed [] tt) h
    where
      filed :
          (subs : List (MaskSig × Subtable A))
          → All (λ s. Stops lane s.1) subs
          → All
              (λ s. Stops lane s.1)
              (upsert sig_eq sig_less empty_subtable
                (file_rule st)
                (mask_sig_for_rule ip st.def)
                subs)
      filed subs a =
          All-upsert sig_eq sig_less (λ s. Stops lane s.1) empty_subtable (file_rule st)
            (mask_sig_for_rule ip st.def) subs
            (λ j t same stops. file_rule-Stops lane i st t least stops)
            (file_rule-Stops lane i st empty_subtable least empty_stops) a
        where
          empty_stops : Stops {A = A} lane empty_subtable
          empty_stops = elim lane as (λ l. Stops {A = A} l empty_subtable) [
            | enforcing ↦ refl
            | would ↦ refl
          ]

  add_rules-AllStop :
      (rules : RulesMap) (tables : Tables A)
      → All (IsLeast lane) rules
      → AllStop lane tables
      → AllStop lane (add_rules tables rules)
  unfolding add_rules add_rule
  add_rules-AllStop [] tables least h = h
  add_rules-AllStop ((i, st) ∷ rules) tables least h =
      add_rules-AllStop rules (add_rule tables st) least.1 (
        guarded (AllStop lane) st.def.enabled (family_eq st.def.family ip.family) tables
          (file_at tables st) h (file_at-AllStop i st tables least.0 h))

  stopped-sorted :
      (subs : List (MaskSig × Subtable A))
      → All (λ s. Stops lane s.1) subs
      → All (Stops lane) (map (λ e. sort_subtable e.1) subs)
  stopped-sorted [] a = tt
  stopped-sorted ((s, t) ∷ subs) a = (rw (max-sort_subtable lane t) a.0, stopped-sorted subs a.1)

  stopped_at :
      (sts : List (Subtable A)) (i : ℕ) (t : Subtable A)
      → All (Stops lane) sts
      → get_elem? sts i ≡ some t
      → Stops lane t
  stopped_at [] i t a e = cc
  stopped_at (u ∷ sts) zero t a e = let same : u ≡ t = cc in rw (← same) a.0
  stopped_at (u ∷ sts) (suc i) t a e = stopped_at sts i t a.1 e

  lookup_loop-stopped :
      (sts : List (Subtable A)) (order : List ℕ) (k : PacketKey A)
      → All (Stops lane) sts
      → lookup_loop lane sts order k (none, no_priority) ≡ none
  unfolding lookup_loop
  lookup_loop-stopped sts [] k a = refl
  lookup_loop-stopped sts (i ∷ is) k a = elim (Option-cases (get_elem? sts i)) [
    | inl out ↦ rw (out, lookup_loop) refl
    | inr (t, e) ↦ rw (e, lookup_loop, stopped_at sts i t a e) refl
  ]

views_stop :
    {A : Type 0} (ip : Ip A) (lane : Lane) (rules : RulesMap)
    → All (IsLeast lane) rules
    → All (λ (e : ℕ × UidView A). All (Stops lane) e.1.subtables) (compile_views ⦃ip = ip⦄ rules)
unfolding compile_views
views_stop {A} ip lane rules least =
    stop_all (add_rules ⦃ip = ip⦄ [] rules) (add_rules-AllStop ⦃ip = ip⦄ lane rules [] least tt)
  where
    stop_all :
        (tables : Tables A)
        → AllStop lane tables
        → All
            (λ (e : ℕ × UidView A). All (Stops lane) e.1.subtables)
            (map
              (λ e. (e.0, uid_view (contains_uid e.0 (uids_using_ct ip.family rules)) e.1))
              tables)
    stop_all [] a = tt
    stop_all ((u, subs) ∷ tables) (a, rest) = (
      rw (subtables-uid_view (contains_uid u (uids_using_ct ip.family rules)) subs)
          (stopped-sorted ⦃ip = ip⦄ lane subs a),
      stop_all tables rest,
    )

module _ {A : Type 0} ⦃ip : Ip A⦄ (lane : Lane) where
  -- When the rules of a lane all have the least 32-bit priority, no packet finds any of them in the compiled
  -- snapshot, whatever they match.
  pub lookup_best-sentinel :
      (rules : RulesMap) (k : PacketKey A)
      → All (IsLeast lane) rules
      → lookup_best lane (compile_views ⦃ip = ip⦄ rules) k ≡ none
  unfolding lookup_best
  lookup_best-sentinel rules k least =
      elim (Option-cases (find ◌==◌ k.uid (compile_views ⦃ip = ip⦄ rules))) [
        | inl none_of ↦ rw (lookup_best, none_of) refl
        | inr (view, e) ↦
            rw (lookup_best, e)
              (stopped view (find-In ◌==◌ k.uid view (compile_views ⦃ip = ip⦄ rules) e))
      ]
    where
      stopped :
          (view : UidView A)
          → (j : ℕ) × In (j, view) (compile_views ⦃ip = ip⦄ rules) × ((k.uid == j) ≡ true)
          → lookup_loop lane view.subtables (order_of lane view) k (none, no_priority) ≡ none
      stopped view (j, listed, same) =
          lookup_loop-stopped lane view.subtables (order_of lane view) k (
            All-In (λ (e : ℕ × UidView A). All (Stops lane) e.1.subtables) (j, view)
              (compile_views ⦃ip = ip⦄ rules) (views_stop ip lane rules least) listed)
