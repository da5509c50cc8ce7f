-- ===== src/Json.antt =====
-- JSON values, as serde_json keeps them: the code reads and builds them in src/domain/schema.rs and
-- src/modules/archive/service.rs. The members of an object stand in some order.
use cqwu_achievement_system.Prelude.{
  ℕ, ◌^◌, String, Bool, true, false, Option, none, some, List, [], ◌∷◌, str_eq, ltb, ◌||◌,
  if◌then◌else◌, ◌≡◌, refl, Bool-cases, inl, inr, eq_iff, sym, ◌∙◌, arith, subst,
}

-- The integers, negsuc n for -1 - n.
pub data ℤ : Type 0 where
  pos negsuc : ℕ → ℤ

unfoldable pub ltℤ : ℤ → ℤ → Bool
ltℤ (pos m) (pos n) = ltb m n
ltℤ (pos m) (negsuc n) = false
ltℤ (negsuc m) (pos n) = true
ltℤ (negsuc m) (negsuc n) = ltb n m

-- A number: an integer, or one with a fraction or an exponent, which is kept as its text.
pub data Number : Type 0 where
  whole : ℤ → Number
  fraction : String → Number

mutual
  pub data Value : Type 0 where
    json_null : Value
    json_bool : Bool → Value
    json_number : Number → Value
    json_string : String → Value
    json_array : Values → Value
    json_object : Members → Value

  pub data Values : Type 0 where
    no_values : Values
    add_value : Value → Values → Values

  pub data Members : Type 0 where
    no_members : Members
    add_member : String → Value → Members → Members

-- `get` of a key on the map of an object.
unfoldable pub member_of : String → Members → Option Value
member_of field no_members = none
member_of field (add_member name v ms) = if str_eq name field then some v else member_of field ms

-- `insert` on the map of an object.
unfoldable pub set_member : String → Value → Members → Members
set_member field v no_members = add_member field v no_members
set_member field v (add_member name w ms) =
    if str_eq name field then add_member name v ms else add_member name w (set_member field v ms)

-- `get` of a key on a value.
abbrev pub get_field : String → Value → Option Value
get_field field (json_object ms) = member_of field ms
get_field field _ = none

abbrev pub as_object : Value → Option Members
as_object (json_object ms) = some ms
as_object _ = none

abbrev pub as_array : Value → Option Values
as_array (json_array vs) = some vs
as_array _ = none

abbrev pub as_str : Value → Option String
as_str (json_string s) = some s
as_str _ = none

-- The integers of 64 bits, with a sign and without one.
abbrev pub in_i64 : ℤ → Bool
in_i64 (pos n) = ltb n (2 ^ 63)
in_i64 (negsuc n) = ltb n (2 ^ 63)

abbrev pub in_u64 : ℤ → Bool
in_u64 (pos n) = ltb n (2 ^ 64)
in_u64 (negsuc n) = false

abbrev pub as_i64 : Value → Option ℤ
as_i64 (json_number (whole n)) = if in_i64 n then some n else none
as_i64 _ = none

abbrev u64_of : ℤ → Option ℕ
u64_of (pos n) = if ltb n (2 ^ 64) then some n else none
u64_of (negsuc n) = none

abbrev pub as_u64 : Value → Option ℕ
as_u64 (json_number (whole n)) = u64_of n
as_u64 _ = none

abbrev pub append_value : Value → Values → Values
append_value v no_values = add_value v no_values
append_value v (add_value w ws) = add_value w (append_value v ws)

-- The array of some texts.
abbrev pub texts : List String → Values
texts [] = no_values
texts (s ∷ ss) = add_value (json_string s) (texts ss)

-- `filter_map(|v| v.as_str())` on the items of an array.
abbrev pub strings : Values → List String
strings no_values = []
strings (add_value (json_string s) vs) = s ∷ strings vs
strings (add_value _ vs) = strings vs

abbrev pub has_member : String → Members → Bool
has_member field no_members = false
has_member field (add_member name v ms) = if str_eq name field then true else has_member field ms

-- No key stands in the map twice, which serde_json's map promises.
abbrev pub distinct : Members → Bool
distinct no_members = true
distinct (add_member name v ms) = if has_member name ms then false else distinct ms

pub str_eq_refl : (s : String) → str_eq s s ≡ true
str_eq_refl s = (eq_iff s s).1 refl

pub str_neq_sym : (a b : String) → str_eq a b ≡ false → str_eq b a ≡ false
str_neq_sym a b h = elim (Bool-cases (str_eq b a)) [
  | inl k ↦ absurd (false_only (sym h ∙ (eq_iff a b).1 (sym ((eq_iff b a).0 k))))
  | inr k ↦ k
]
  where
    false_only : false ≡ true → ⊥
    false_only e = ground arith

pub absorbed :
    {A : Type 0} (b : Bool) (x y z : A)
    → (if b then x else z) ≡ (if b then x else if b then y else z)
absorbed true x y z = refl
absorbed false x y z = refl

-- Two texts that equal a third one are equal.
pub str_eq_trans : (a b c : String) → str_eq a b ≡ true → str_eq c b ≡ true → str_eq a c ≡ true
str_eq_trans a b c h k = (eq_iff a c).1 ((eq_iff a b).0 h ∙ sym ((eq_iff c b).0 k))

pub member_of-set_member :
    (g field : String) (v : Value) (ms : Members)
    → member_of g (set_member field v ms) ≡ (if str_eq field g then some v else member_of g ms)
unfolding member_of set_member
member_of-set_member g field v no_members = refl
member_of-set_member g field v (add_member name w ms) = elim (Bool-cases (str_eq name field)) [
  | inl e ↦ rw e (
      subst
        (λ t.
          (if str_eq t g then some v else member_of g ms)
          ≡ (if str_eq field g then some v else if str_eq t g then some w else member_of g ms))
        (sym ((eq_iff name field).0 e))
        (absorbed (str_eq field g) (some v) (some w) (member_of g ms)))
  | inr e ↦ rw e (elim (Bool-cases (str_eq name g)) [
    | inl k ↦ rw k (elim (Bool-cases (str_eq field g)) [
      | inl l ↦ absurd (apart e (str_eq_trans name g field k l))
      | inr l ↦ rw l refl
    ])
    | inr k ↦ rw k (member_of-set_member g field v ms)
  ])
]
  where
    apart : {b : Bool} → b ≡ false → b ≡ true → ⊥
    apart h k = ground arith

has_member-set_member :
    (g field : String) (v : Value) (ms : Members)
    → has_member g (set_member field v ms) ≡ (str_eq field g || has_member g ms)
unfolding set_member
has_member-set_member g field v no_members = elim (Bool-cases (str_eq field g)) [
  | inl e ↦ rw e refl
  | inr e ↦ rw e refl
]
has_member-set_member g field v (add_member name w ms) = elim (Bool-cases (str_eq name field)) [
  | inl e ↦ rw e (
      subst
        (λ t.
          (if str_eq t g then true else has_member g ms)
          ≡ (str_eq field g || (if str_eq t g then true else has_member g ms)))
        (sym ((eq_iff name field).0 e)) (twice (str_eq field g)))
  | inr e ↦ rw e (swap (str_eq name g) (str_eq field g) (has_member-set_member g field v ms))
]
  where
    twice :
        (b : Bool)
        → (if b then true else has_member g ms) ≡ (b || (if b then true else has_member g ms))
    twice b = ground arith

    swap :
        {m : Bool} (a b : Bool)
        → m ≡ (b || has_member g ms)
        → (if a then true else m) ≡ (b || (if a then true else has_member g ms))
    swap a b h = ground arith

pub distinct-set_member :
    (field : String) (v : Value) (ms : Members)
    → distinct ms ≡ true
    → distinct (set_member field v ms) ≡ true
unfolding set_member
distinct-set_member field v no_members h = refl
distinct-set_member field v (add_member name w ms) h = elim (Bool-cases (str_eq name field)) [
  | inl e ↦ rw e h
  | inr e ↦
      rw (e, has_member-set_member name field v ms, str_neq_sym name field e)
        (both (has_member name ms) (distinct-set_member field v ms) h)
]
  where
    both :
        {d : Bool} (b : Bool)
        → (distinct ms ≡ true → d ≡ true)
        → (if b then false else distinct ms) ≡ true
        → (if b then false else d) ≡ true
    both false k h = k h
    both true k h = h
