-- ===== src/Checkpoint/Json.antt =====
-- The JSON helpers of src/PolicyCheckpoint.cpp. rapidjson is a parameter, `JsonLib`: its values as
-- its type tests and getters show them (`view`), its constructors, its writer and its parser. Its
-- sizes, of 32 bits, are not exceeded here. A status is its code, without the message. `outside` is
-- a cast to an enumerator that the enumeration does not have: what follows it is not modelled.
use Prim.Native.String.{String}
use Prim.Native.Char.{code}
use text.Mathlib.Text.{◌==◌}
use sakamoto_snort.Common.{
  ℕ, ◌^◌, ◌<◌, ◌≡◌, Bool, true, false, not, ◌||◌, List, [], ◌∷◌, map, Option, none, some, ltb,
  if◌then◌else◌, ℤ, pos, negsuc,
}

pub data Json (V : Type 0) : Type 0 where
  null real : Json V
  boolean : Bool → Json V
  integer : ℤ → Json V
  chars : List ℕ → Json V
  array : List V → Json V
  object : List (String × V) → Json V

-- `Value` and the text of a document, whose `size` is in bytes.
pub record JsonLib : Type 1 where
  pub Value : Type 0
  pub Text : Type 0
  pub view : Value → Json Value
  pub of_bool : Bool → Value
  pub of_uint : ℕ → Value
  pub of_int : ℤ → Value
  pub of_string : List ℕ → Value
  pub of_array : List Value → Value
  pub of_object : List (String × Value) → Value
  pub write : Value → Text
  pub parse : Text → Option Value
  pub size : Text → ℕ

-- What `IsInt` accepts.
abbrev pub is_i32 : ℤ → Bool
is_i32 (pos n) = ltb n (2 ^ 31)
is_i32 (negsuc n) = ltb n (2 ^ 31)

-- A constructed value shows what it was made of, and parsing what was written gives the value.
pub record JsonLaws (lib : JsonLib) : Type 0 where
  pub of_bool-view : (b : Bool) → lib.view (lib.of_bool b) ≡ boolean b
  pub of_uint-view : (n : ℕ) → n < 2 ^ 64 → lib.view (lib.of_uint n) ≡ integer (pos n)
  pub of_int-view : (i : ℤ) → is_i32 i ≡ true → lib.view (lib.of_int i) ≡ integer i
  pub of_string-view : (s : List ℕ) → lib.view (lib.of_string s) ≡ chars s
  pub of_array-view : (vs : List lib.Value) → lib.view (lib.of_array vs) ≡ array vs
  pub of_object-view : (ms : List (String × lib.Value)) → lib.view (lib.of_object ms) ≡ object ms
  pub parse-write : (v : lib.Value) → lib.parse (lib.write v) ≡ some v

pub data Code : Type 0 where
  invalid_argument missing_argument syntax_error capacity_exceeded : Code

pub data Result (A : Type 0) : Type 0 where
  ok : A → Result A
  err : Code → Result A
  outside : Result A

infixl 5 ◌>>=◌ ◌>>◌
abbrev pub ◌>>=◌ : {A B : Type 0} → Result A → (A → Result B) → Result B
ok a >>= f = f a
err e >>= f = err e
outside >>= f = outside

abbrev pub ◌>>◌ : {B : Type 0} → Result (Unit {0}) → Result B → Result B
m >> k = m >>= λ _. k

-- `if (!test) return errStatus(code, ...)`
abbrev pub check : Bool → Code → Result (Unit {0})
check true e = ok tt
check false e = err e

-- The code points of a literal.
abbrev pub codes : String → List ℕ
codes String.[] = []
codes (String.◌∷◌ c s) = code c ∷ codes s

abbrev pub is_key_in : String → List String → Bool
is_key_in k [] = false
is_key_in k (j ∷ js) = let rest = is_key_in k js in (j == k) || rest

abbrev pub keys_of : {A : Type 0} → List (String × A) → List String
keys_of [] = []
keys_of ((k, v) ∷ ms) = k ∷ keys_of ms

-- `hasDuplicateKeys` on the members of an object, with the keys `seen` so far.
abbrev pub has_duplicate_keys : List String → List String → Bool
has_duplicate_keys seen [] = false
has_duplicate_keys seen (k ∷ ks) =
    let rest = has_duplicate_keys (k ∷ seen) ks in if is_key_in k seen then true else rest

-- `findUnknownKey(...).has_value()`
abbrev pub has_unknown_key : List String → List String → Bool
has_unknown_key allowed [] = false
has_unknown_key allowed (k ∷ ks) =
    let rest = has_unknown_key allowed ks in if not (is_key_in k allowed) then true else rest

abbrev pub find_member : {A : Type 0} → String → List (String × A) → Option A
find_member k [] = none
find_member k ((j, v) ∷ ms) = let rest = find_member k ms in if j == k then some v else rest

module _ (lib : JsonLib) where
  unfoldable pub reject_unknown_or_duplicate : List String → lib.Value → Result (Unit {0})
  reject_unknown_or_duplicate allowed v = elim (lib.view v) [
    | object ms ↦
        if has_duplicate_keys [] (keys_of ms)
        then err invalid_argument
        else if has_unknown_key allowed (keys_of ms)
        then err syntax_error
        else ok tt
    | _ ↦ err invalid_argument
  ]

  unfoldable pub member : String → lib.Value → Option lib.Value
  member key v = elim (lib.view v) [ object ms ↦ find_member key ms | _ ↦ none ]

  -- A missing member is an `INVALID_ARGUMENT`.
  unfoldable pub require_member : String → lib.Value → Result lib.Value
  unfolding member
  require_member key v = elim (member key v) [ none ↦ err invalid_argument | some w ↦ ok w ]

  unfoldable pub as_bool : lib.Value → Result Bool
  as_bool v = elim (lib.view v) [ boolean b ↦ ok b | _ ↦ err invalid_argument ]

  -- `IsUint` and `IsUint64` with the number of bits.
  unfoldable pub as_uint : ℕ → lib.Value → Result ℕ
  as_uint bits v = elim (lib.view v) [
    | integer (pos n) ↦ if ltb n (2 ^ bits) then ok n else err invalid_argument
    | _ ↦ err invalid_argument
  ]

  unfoldable pub as_i32 : lib.Value → Result ℤ
  as_i32 v = elim (lib.view v) [
    | integer i ↦ if is_i32 i then ok i else err invalid_argument
    | _ ↦ err invalid_argument
  ]

  unfoldable pub as_string : lib.Value → Result (List ℕ)
  as_string v = elim (lib.view v) [ chars s ↦ ok s | _ ↦ err invalid_argument ]

  unfoldable pub require_bool : String → lib.Value → Result Bool
  unfolding require_member as_bool
  require_bool key v = do w ← require_member key v; as_bool w

  unfoldable pub require_u32 : String → lib.Value → Result ℕ
  unfolding require_member as_uint
  require_u32 key v = do w ← require_member key v; as_uint 32 w

  unfoldable pub require_u64 : String → lib.Value → Result ℕ
  unfolding require_member as_uint
  require_u64 key v = do w ← require_member key v; as_uint 64 w

  unfoldable pub require_i32 : String → lib.Value → Result ℤ
  unfolding require_member as_i32
  require_i32 key v = do w ← require_member key v; as_i32 w

  unfoldable pub require_string : String → lib.Value → Result (List ℕ)
  unfolding require_member as_string
  require_string key v = do w ← require_member key v; as_string w

  -- The loop of `parseArray`.
  unfoldable pub parse_items :
      {A : Type 0} → (lib.Value → Result A) → List lib.Value → Result (List A)
  parse_items parse_item [] = ok []
  parse_items parse_item (v ∷ vs) =
      let rest = parse_items parse_item vs in do x ← parse_item v; xs ← rest; ok (x ∷ xs)

  unfoldable pub parse_array :
      {A : Type 0} → String → (lib.Value → Result A) → lib.Value → Result (List A)
  unfolding require_member parse_items
  parse_array key parse_item v = do
    w ← require_member key v
    elim (lib.view w) [ array vs ↦ parse_items parse_item vs | _ ↦ err invalid_argument ]

  abbrev pub make_string_array : List (List ℕ) → lib.Value
  make_string_array items = lib.of_array (map lib.of_string items)

  abbrev pub make_u32_array : List ℕ → lib.Value
  make_u32_array items = lib.of_array (map lib.of_uint items)
