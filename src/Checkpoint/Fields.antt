-- ===== src/Checkpoint/Fields.antt =====
-- What a constructed object shows of its members, under the laws of the JSON library.
use Prim.Native.String.{String}
use sakamoto_snort.Common.{
  ℕ, ◌^◌, ◌<◌, ◌≡◌, refl, ap, ◌∙◌, Bool, true, false, List, [], ◌∷◌, map, some, lt→ltb, All,
  All-tabulate, ℤ, arith,
}
use sakamoto_snort.Checkpoint.Json.{
  JsonLib, JsonLaws, Result, ok, err, outside, Code, check, ◌>>=◌, ◌>>◌, is_i32, keys_of,
  has_duplicate_keys, has_unknown_key, find_member, reject_unknown_or_duplicate, member,
  require_member, as_bool, as_uint, as_i32, as_string, require_bool, require_u32, require_u64,
  require_i32, require_string, parse_items, parse_array, make_string_array, make_u32_array,
}

pub bind-ok :
    {A B : Type 0} (m : Result A) (f : A → Result B) (a : A) (r : Result B)
    → m ≡ ok a
    → f a ≡ r
    → (m >>= f) ≡ r
bind-ok m f a r e h = ap (λ x. x >>= f) e ∙ h

-- A sequence that succeeds passed its first step, and its first check.
pub bind-inv :
    {A B : Type 0} (m : Result A) (f : A → Result B) (r : B)
    → (m >>= f) ≡ ok r
    → (a : A) × (m ≡ ok a) × (f a ≡ ok r)
bind-inv (ok a) f r h = (a, refl, h)
bind-inv (err e) f r h = cc
bind-inv outside f r h = cc

pub check-inv :
    {B : Type 0} (b : Bool) (c : Code) (k : Result B) (r : B)
    → (check b c >> k) ≡ ok r
    → (b ≡ true) × (k ≡ ok r)
check-inv true c k r h = (refl, h)
check-inv false c k r h = cc

pub check-last : (b : Bool) (c : Code) → check b c ≡ ok tt → b ≡ true
check-last true c h = refl
check-last false c h = cc

pub ok-inv : {A : Type 0} (a b : A) → ◌≡◌ {A = Result A} (ok a) (ok b) → a ≡ b
ok-inv a b h = cc

module _ (lib : JsonLib) (laws : JsonLaws lib) where
  pub as_bool-of_bool : (b : Bool) → as_bool lib (lib.of_bool b) ≡ ok b
  unfolding as_bool
  as_bool-of_bool b = rw (as_bool, laws.of_bool-view b) refl

  pub as_uint-of_uint :
      (bits n : ℕ) → n < 2 ^ bits → n < 2 ^ 64 → as_uint lib bits (lib.of_uint n) ≡ ok n
  unfolding as_uint
  as_uint-of_uint bits n h w = rw (as_uint, laws.of_uint-view n w, lt→ltb n (2 ^ bits) h) refl

  pub as_i32-of_int : (i : ℤ) → is_i32 i ≡ true → as_i32 lib (lib.of_int i) ≡ ok i
  unfolding as_i32
  as_i32-of_int i h = rw (as_i32, laws.of_int-view i h, h) refl

  pub as_string-of_string : (s : List ℕ) → as_string lib (lib.of_string s) ≡ ok s
  unfolding as_string
  as_string-of_string s = rw (as_string, laws.of_string-view s) refl

  pub parse_items-map :
      {A : Type 0} (P : A → Type 0) (parse_item : lib.Value → Result A) (make : A → lib.Value)
      → ((a : A) → P a → parse_item (make a) ≡ ok a)
      → (xs : List A) → All P xs
      → parse_items lib parse_item (map make xs) ≡ ok xs
  unfolding parse_items
  parse_items-map P parse_item make h [] a = refl
  parse_items-map P parse_item make h (x ∷ xs) (p, ps) =
      rw (h x p, parse_items-map P parse_item make h xs ps) refl

  module _ (ms : List (String × lib.Value)) where
    pub known_keys :
        (allowed : List String)
        → has_duplicate_keys [] (keys_of ms) ≡ false
        → has_unknown_key allowed (keys_of ms) ≡ false
        → reject_unknown_or_duplicate lib allowed (lib.of_object ms) ≡ ok tt
    unfolding reject_unknown_or_duplicate
    known_keys allowed d u = rw (reject_unknown_or_duplicate, laws.of_object-view ms, d, u) refl

    pub member_of :
        (key : String) (v : lib.Value)
        → find_member key ms ≡ some v
        → require_member lib key (lib.of_object ms) ≡ ok v
    unfolding require_member
    member_of key v h = rw (require_member, member, laws.of_object-view ms, h) refl

    pub bool_of :
        (key : String) (b : Bool)
        → find_member key ms ≡ some (lib.of_bool b)
        → require_bool lib key (lib.of_object ms) ≡ ok b
    unfolding require_bool
    bool_of key b h =
        bind-ok _ (as_bool lib) (lib.of_bool b) _ (member_of key (lib.of_bool b) h)
          (as_bool-of_bool b)

    pub u32_of :
        (key : String) (n : ℕ)
        → n < 2 ^ 32
        → find_member key ms ≡ some (lib.of_uint n)
        → require_u32 lib key (lib.of_object ms) ≡ ok n
    unfolding require_u32
    u32_of key n lt h =
        bind-ok _ (as_uint lib 32) (lib.of_uint n) _ (member_of key (lib.of_uint n) h)
          (as_uint-of_uint 32 n lt (omega arith))

    pub u64_of :
        (key : String) (n : ℕ)
        → n < 2 ^ 64
        → find_member key ms ≡ some (lib.of_uint n)
        → require_u64 lib key (lib.of_object ms) ≡ ok n
    unfolding require_u64
    u64_of key n lt h =
        bind-ok _ (as_uint lib 64) (lib.of_uint n) _ (member_of key (lib.of_uint n) h)
          (as_uint-of_uint 64 n lt lt)

    pub i32_of :
        (key : String) (i : ℤ)
        → is_i32 i ≡ true
        → find_member key ms ≡ some (lib.of_int i)
        → require_i32 lib key (lib.of_object ms) ≡ ok i
    unfolding require_i32
    i32_of key i small h =
        bind-ok _ (as_i32 lib) (lib.of_int i) _ (member_of key (lib.of_int i) h)
          (as_i32-of_int i small)

    pub string_of :
        (key : String) (s : List ℕ)
        → find_member key ms ≡ some (lib.of_string s)
        → require_string lib key (lib.of_object ms) ≡ ok s
    unfolding require_string
    string_of key s h =
        bind-ok _ (as_string lib) (lib.of_string s) _ (member_of key (lib.of_string s) h)
          (as_string-of_string s)

    pub array_of :
        {A : Type 0} (P : A → Type 0) (key : String) (parse_item : lib.Value → Result A)
        (make : A → lib.Value) (xs : List A)
        → ((a : A) → P a → parse_item (make a) ≡ ok a)
        → All P xs
        → find_member key ms ≡ some (lib.of_array (map make xs))
        → parse_array lib key parse_item (lib.of_object ms) ≡ ok xs
    unfolding parse_array
    array_of P key parse_item make xs item all h =
        bind-ok (require_member lib key (lib.of_object ms)) _ (lib.of_array (map make xs)) _
          (member_of key (lib.of_array (map make xs)) h)
          (rw (laws.of_array-view (map make xs)) (parse_items-map P parse_item make item xs all))

    pub strings_of :
        (key : String) (xs : List (List ℕ))
        → find_member key ms ≡ some (make_string_array lib xs)
        → parse_array lib key (as_string lib) (lib.of_object ms) ≡ ok xs
    strings_of key xs h =
        array_of (λ s. Unit {0}) key (as_string lib) lib.of_string xs (λ s _. as_string-of_string s)
          (All-tabulate (λ s. Unit {0}) xs (λ s i. tt)) h

    pub u32s_of :
        (key : String) (xs : List ℕ)
        → All (λ n. n < 2 ^ 32) xs
        → find_member key ms ≡ some (make_u32_array lib xs)
        → parse_array lib key (as_uint lib 32) (lib.of_object ms) ≡ ok xs
    u32s_of key xs all h =
        array_of (λ n. n < 2 ^ 32) key (as_uint lib 32) lib.of_uint xs
          (λ n lt. as_uint-of_uint 32 n lt (omega arith)) all h
