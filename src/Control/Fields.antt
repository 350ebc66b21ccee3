-- ===== src/Control/Fields.antt =====
-- The fields of a match key: none has a `|`, and each is told by its text.
use sakamoto_snort.Common.{
  ℕ, ◌^◌, ◌<◌, ◌≡◌, refl, sym, ap, ◌∙◌, Bool, true, false, List, [], ◌∷◌, ◌++◌, Option, some, none,
  ◌==◌,
}
use sakamoto_snort.IpRules.Rule.{Family, PortKind, PortPredicate, Cidr}
use sakamoto_snort.Checkpoint.Json.{codes}
use sakamoto_snort.Control.Words.{
  Inet, any_v4, any_v6, split_at, parse_dec, number_text, format_port_predicate, format_cidr_v4,
  format_cidr_v6, parse_cidr_text_v4, parse_cidr_text_v6,
}
use sakamoto_snort.Control.Texts.{
  NoBar, not_found, split_at-append, split_at-number_text, parse_dec-number_text,
}
use sakamoto_snort.Control.Addresses.{
  InetLaws, IsCidrText4, IsCidrText6, parse_cidr_text_v4-format, parse_cidr_text_v6-format,
}
use sakamoto_snort.Control.Apply.{address_text}

pub same_read :
    {A : Type 0} (parse : List ℕ → Option A) (x y : A) (s t : List ℕ)
    → parse s ≡ some x
    → parse t ≡ some y
    → s ≡ t
    → x ≡ y
same_read parse x y s t reads_x reads_y e = cc (sym reads_x ∙ ap parse e ∙ reads_y)

abbrev some_or : List ℕ × List ℕ → Option (List ℕ × List ℕ) → List ℕ × List ℕ
some_or p none = p
some_or p (some q) = q

some_pair :
    (a b xs ys : List ℕ) (o : Option (List ℕ × List ℕ))
    → o ≡ some (a, xs)
    → o ≡ some (b, ys)
    → (a ≡ b) × (xs ≡ ys)
some_pair a b xs ys o h g =
    let e : some_or (a, xs) o ≡ (b, ys) = rw g refl in
    let f : some_or (a, xs) o ≡ (a, xs) = rw h refl in
    let same : (a, xs) ≡ (b, ys) = sym f ∙ e in
    (ap (λ (p : List ℕ × List ℕ). p.0) same, ap (λ (p : List ℕ × List ℕ). p.1) same)

-- Two keys agree up to the next `|` and from there on.
pub next_field :
    (a b xs ys : List ℕ)
    → split_at 124 a ≡ none
    → split_at 124 b ≡ none
    → a ++ 124 ∷ xs ≡ b ++ 124 ∷ ys
    → (a ≡ b) × (xs ≡ ys)
next_field a b xs ys no_a no_b h =
    some_pair a b xs ys (split_at 124 (a ++ 124 ∷ xs)) (split_at-append 124 a xs no_a)
      (ap (split_at 124) h ∙ split_at-append 124 b ys no_b)

pub not_found-append :
    (c : ℕ) (xs ys : List ℕ)
    → split_at c xs ≡ none
    → split_at c ys ≡ none
    → split_at c (xs ++ ys) ≡ none
unfolding split_at
not_found-append c [] ys h g = g
not_found-append c (x ∷ xs) ys h g =
    let (other, rest) = not_found (x == c) (split_at c xs) x xs h in
    rw (other, not_found-append c xs ys rest g) refl

pub number_text-injective :
    (n m : ℕ) → n < 2 ^ 32 → m < 2 ^ 32 → number_text n ≡ number_text m → n ≡ m
number_text-injective n m h g =
    same_read parse_dec n m (number_text n) (number_text m) (parse_dec-number_text n h)
      (parse_dec-number_text m g)

any-NoBar : NoBar (codes "any")
unfolding split_at
any-NoBar = refl

one-NoBar : (c : ℕ) → (c == 124) ≡ false → NoBar (c ∷ [])
unfolding split_at
one-NoBar c h = rw h refl

with_prefix-NoBar : (t : List ℕ) (n : ℕ) → NoBar t → NoBar (t ++ 47 ∷ number_text n)
with_prefix-NoBar t n h = not_found-append 124 t (47 ∷ number_text n) h (
    not_found-append 124 (47 ∷ []) (number_text n) (one-NoBar 47 refl)
      (split_at-number_text 124 n refl))

pub format_port_predicate-NoBar : (p : PortPredicate) → NoBar (format_port_predicate p)
unfolding format_port_predicate
format_port_predicate-NoBar p = by_kind p.kind p.lo p.hi
  where
    by_kind :
        (k : PortKind) (lo hi : ℕ)
        → NoBar (format_port_predicate (record { kind = k; lo = lo; hi = hi }))
    by_kind PortKind.any lo hi = any-NoBar
    by_kind PortKind.exact lo hi = split_at-number_text 124 lo refl
    by_kind PortKind.range lo hi =
        not_found-append 124 (number_text lo) (45 ∷ number_text hi)
          (split_at-number_text 124 lo refl)
          (not_found-append 124 (45 ∷ []) (number_text hi) (one-NoBar 45 refl)
            (split_at-number_text 124 hi refl))

-- The addresses that the source reads for a family: the other family's is `any`.
abbrev pub IsAddress : Family → Cidr ℕ → Cidr (List ℕ) → Type 0
IsAddress Family.ipv4 c c6 = IsCidrText4 c.any c.addr c.prefix × (c6 ≡ any_v6)
IsAddress Family.ipv6 c c6 = (c ≡ any_v4) × IsCidrText6 c6.any c6.addr c6.prefix

module _ (net : Inet) (laws : InetLaws net) where
  format_cidr_v4-NoBar :
      (c : Cidr ℕ) → IsCidrText4 c.any c.addr c.prefix → NoBar (format_cidr_v4 net c)
  unfolding format_cidr_v4
  format_cidr_v4-NoBar c h = by_any c.any c.addr c.prefix h
    where
      by_any :
          (b : Bool) (a n : ℕ)
          → IsCidrText4 b a n
          → NoBar (format_cidr_v4 net (record { any = b; addr = a; prefix = n }))
      by_any true a n h = any-NoBar
      by_any false a n (fits, short, masked) =
          let (t, prints, reads, (some_text, no_slash, no_bar)) = laws.pton4-ntop4 a fits in
          rw prints (with_prefix-NoBar t n no_bar)

  format_cidr_v6-NoBar :
      (c : Cidr (List ℕ)) → IsCidrText6 c.any c.addr c.prefix → NoBar (format_cidr_v6 net c)
  unfolding format_cidr_v6
  format_cidr_v6-NoBar c h = by_any c.any c.addr c.prefix h
    where
      by_any :
          (b : Bool) (a : List ℕ) (n : ℕ)
          → IsCidrText6 b a n
          → NoBar (format_cidr_v6 net (record { any = b; addr = a; prefix = n }))
      by_any true a n h = any-NoBar
      by_any false a n (full, short, masked) =
          let (t, prints, reads, (some_text, no_slash, no_bar)) = laws.pton6-ntop6 a full in
          rw prints (with_prefix-NoBar t n no_bar)

  pub address_text-NoBar :
      (f : Family) (c : Cidr ℕ) (c6 : Cidr (List ℕ))
      → IsAddress f c c6
      → NoBar (address_text net f c c6)
  address_text-NoBar Family.ipv4 c c6 (good, other) = format_cidr_v4-NoBar c good
  address_text-NoBar Family.ipv6 c c6 (other, good) = format_cidr_v6-NoBar c6 good

  pub address_text-injective :
      (f : Family) (c d : Cidr ℕ) (c6 d6 : Cidr (List ℕ))
      → IsAddress f c c6
      → IsAddress f d d6
      → address_text net f c c6 ≡ address_text net f d d6
      → (c ≡ d) × (c6 ≡ d6)
  address_text-injective Family.ipv4 c d c6 d6 (good, other) (good', other') e = (
    same_read (parse_cidr_text_v4 net) c d (format_cidr_v4 net c) (format_cidr_v4 net d)
        (parse_cidr_text_v4-format net laws c good) (parse_cidr_text_v4-format net laws d good') e,
    other ∙ sym other',
  )
  address_text-injective Family.ipv6 c d c6 d6 (other, good) (other', good') e = (
    other ∙ sym other',
    same_read (parse_cidr_text_v6 net) c6 d6 (format_cidr_v6 net c6) (format_cidr_v6 net d6)
        (parse_cidr_text_v6-format net laws c6 good) (parse_cidr_text_v6-format net laws d6 good')
        e,
  )
