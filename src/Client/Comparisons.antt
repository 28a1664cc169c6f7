-- ===== src/Client/Comparisons.antt =====
-- What the comparisons of internal/rabbitmqclient/utilities.go decide.
use provider_rabbitmq.Prelude.{
  List, ◌≡◌, ◌↔◌, Bool-cases, inl, inr, refl, ap, Bool, true, false, not, Option, none, some, Str,
  StringMap, str_eq, str_eq_iff, if◌then◌else◌,
}
use provider_rabbitmq.Go.Decimal.{ℤ}
use provider_rabbitmq.Go.Json.{marshal}
use provider_rabbitmq.Go.Json.Injective.{marshal_injective, marshal-ne-null}
use provider_rabbitmq.Client.Utilities.{
  Bool-discrete, ℤ-discrete, Str-discrete, is_bool_equal_to_bool_ptr, is_bool_ptr_equal_to_bool,
  is_int_equal_to_int_ptr, is_string_equal_to_string_ptr, is_string_ptr_equal_to_string, or_empty,
  maps_equal_json,
}
use provider_rabbitmq.Libraries.{Libraries, LibraryLaws}

-- A field of a spec that is absent asks for nothing; one that is present asks for its value.
abbrev pub Asks {ℓ} : {A : Type ℓ} → Option A → A → Type ℓ
Asks none a = Unit
Asks (some v) a = v ≡ a

guard_iff : (b : Bool) → ((if not b then false else true) ≡ true) ↔ (b ≡ true)
guard_iff true = ((λ h. h), (λ h. h))
guard_iff false = ((λ h. h), (λ h. h))

module _ ⦃lib : Libraries⦄ (laws : LibraryLaws lib) where
  compared :
      (A : Type 0) (d : Discrete A) (x y : A)
      → ((if not (lib.cmp_equal A d x y) then false else true) ≡ true) ↔ (x ≡ y)
  compared A d x y =
      let (to, from) = laws.cmp_equal_iff A d x y in
      let (unguard, guard) = guard_iff (lib.cmp_equal A d x y) in
      ((λ h. to (unguard h)), (λ e. guard (from e)))

  pub is_bool_ptr_equal_to_bool_iff :
      (p : Option Bool) (b : Bool) → (is_bool_ptr_equal_to_bool p b ≡ true) ↔ Asks p b
  unfolding is_bool_ptr_equal_to_bool
  is_bool_ptr_equal_to_bool_iff none b = ((λ _. tt), (λ _. refl))
  is_bool_ptr_equal_to_bool_iff (some v) b = compared Bool Bool-discrete v b

  pub is_bool_equal_to_bool_ptr_iff :
      (p : Option Bool) (b : Bool) → (is_bool_equal_to_bool_ptr p b ≡ true) ↔ Asks p b
  unfolding is_bool_equal_to_bool_ptr
  is_bool_equal_to_bool_ptr_iff none b = ((λ _. tt), (λ _. refl))
  is_bool_equal_to_bool_ptr_iff (some v) b = compared Bool Bool-discrete v b

  pub is_int_equal_to_int_ptr_iff :
      (p : Option ℤ) (i : ℤ) → (is_int_equal_to_int_ptr p i ≡ true) ↔ Asks p i
  unfolding is_int_equal_to_int_ptr
  is_int_equal_to_int_ptr_iff none i = ((λ _. tt), (λ _. refl))
  is_int_equal_to_int_ptr_iff (some v) i = compared ℤ ℤ-discrete v i

  pub is_string_ptr_equal_to_string_iff :
      (p : Option Str) (s : Str) → (is_string_ptr_equal_to_string p s ≡ true) ↔ Asks p s
  unfolding is_string_ptr_equal_to_string
  is_string_ptr_equal_to_string_iff none s = ((λ _. tt), (λ _. refl))
  is_string_ptr_equal_to_string_iff (some v) s = compared Str Str-discrete v s

  pub is_string_equal_to_string_ptr_iff :
      (p : Option Str) (s : Str) → (is_string_equal_to_string_ptr p s ≡ true) ↔ Asks p s
  unfolding is_string_equal_to_string_ptr
  is_string_equal_to_string_ptr_iff none s = ((λ _. tt), (λ _. refl))
  is_string_equal_to_string_ptr_iff (some v) s = compared Str Str-discrete v s

  -- A comparison that is followed by `return true`.
  pub last_string_iff :
      (p : Option Str) (s : Str)
      → ((if not (is_string_ptr_equal_to_string p s) then false else true) ≡ true) ↔ Asks p s
  last_string_iff p s =
      let (to, from) = is_string_ptr_equal_to_string_iff p s in
      let (unguard, guard) = guard_iff (is_string_ptr_equal_to_string p s) in
      ((λ h. to (unguard h)), (λ a. guard (from a)))

  -- `if !cmp.Equal(…, cmpopts.EquateEmpty()) { return false }; return true`
  pub slices_iff :
      (xs ys : List Str)
      → ((if not (lib.cmp_equal_slices xs ys) then false else true) ≡ true) ↔ (xs ≡ ys)
  slices_iff xs ys =
      let (to, from) = laws.cmp_equal_slices_iff xs ys in
      let (unguard, guard) = guard_iff (lib.cmp_equal_slices xs ys) in
      ((λ h. to (unguard h)), (λ e. guard (from e)))

-- Two maps have the same JSON exactly when they are equal, a nil first map standing for the empty
-- one; and no map has the JSON of a nil second map.
pub maps_equal_json_iff :
    (m1 : Option StringMap) (m2 : StringMap)
    → ((maps_equal_json m1 (some m2) ≡ true) ↔ (or_empty m1 ≡ m2))
      × (maps_equal_json m1 none ≡ false)
unfolding maps_equal_json
maps_equal_json_iff m1 m2 = (
  (
    (λ h. marshal_injective (or_empty m1) m2 ((str_eq_iff _ _).0 h)),
    (λ e. (str_eq_iff _ _).1 (ap (λ m. marshal (some m)) e)),
  ),
  elim (Bool-cases (str_eq (marshal (some (or_empty m1))) (marshal none))) [
    | inl same ↦ absurd (marshal-ne-null (or_empty m1) ((str_eq_iff _ _).0 same))
    | inr differ ↦ differ
  ],
)
