-- ===== src/Client/Utilities.antt =====
-- internal/rabbitmqclient/utilities.go.
use native.Mathlib.Decide.{ℕ_discrete}
use provider_rabbitmq.Prelude.{
  Bool, true, false, not, Option, none, some, [], ◌∷◌, Str, StringMap, str_eq, if◌then◌else◌,
}
use provider_rabbitmq.Go.Decimal.{ℤ, atoi}
use provider_rabbitmq.Go.Value.{Value, int, string, sprint}
use provider_rabbitmq.Go.Json.{marshal}
use provider_rabbitmq.Client.Types.{InterfaceMap}
use provider_rabbitmq.Libraries.{Libraries}

pub Bool-discrete : Discrete Bool
Bool-discrete = hlevel

pub ℤ-discrete : Discrete ℤ
ℤ-discrete = hlevel ℕ_discrete

pub Str-discrete : Discrete Str
Str-discrete = hlevel ℕ_discrete

module _ ⦃lib : Libraries⦄ where
  -- The common shape of the comparisons with a pointer: nil agrees with everything.
  unfoldable pub is_bool_equal_to_bool_ptr : Option Bool → Bool → Bool
  is_bool_equal_to_bool_ptr none b = true
  is_bool_equal_to_bool_ptr (some v) b =
      if not (lib.cmp_equal Bool Bool-discrete v b) then false else true

  unfoldable pub is_bool_ptr_equal_to_bool : Option Bool → Bool → Bool
  is_bool_ptr_equal_to_bool none b = true
  is_bool_ptr_equal_to_bool (some v) b =
      if not (lib.cmp_equal Bool Bool-discrete v b) then false else true

  unfoldable pub is_int_equal_to_int_ptr : Option ℤ → ℤ → Bool
  is_int_equal_to_int_ptr none i = true
  is_int_equal_to_int_ptr (some v) i = if not (lib.cmp_equal ℤ ℤ-discrete v i) then false else true

  unfoldable pub is_string_equal_to_string_ptr : Option Str → Str → Bool
  is_string_equal_to_string_ptr none s = true
  is_string_equal_to_string_ptr (some v) s =
      if not (lib.cmp_equal Str Str-discrete v s) then false else true

  unfoldable pub is_string_ptr_equal_to_string : Option Str → Str → Bool
  is_string_ptr_equal_to_string none s = true
  is_string_ptr_equal_to_string (some v) s =
      if not (lib.cmp_equal Str Str-discrete v s) then false else true

-- `strconv.Atoi(v)`: the number if it succeeds, else the text.
unfoldable pub convert_value : Str → Option ℤ → Value
convert_value v (some i) = int i
convert_value v none = string v

unfoldable pub to_interface : Str → Value
unfolding convert_value
to_interface v = convert_value v (atoi v)

unfoldable pub convert_string_map_to_interface_map : StringMap → InterfaceMap
unfolding to_interface
convert_string_map_to_interface_map [] = []
convert_string_map_to_interface_map ((k, v) ∷ m) =
    (k, to_interface v) ∷ convert_string_map_to_interface_map m

-- A string as it is, any other value through `fmt.Sprintf("%v", v)`.
unfoldable pub to_string : Value → Str
to_string (string s) = s
to_string v = sprint v

unfoldable pub convert_interface_map_to_string_map : InterfaceMap → StringMap
unfolding to_string
convert_interface_map_to_string_map [] = []
convert_interface_map_to_string_map ((k, v) ∷ m) =
    (k, to_string v) ∷ convert_interface_map_to_string_map m

-- `if m1 == nil { m1 = map[string]string{} }`.
unfoldable pub or_empty : Option StringMap → StringMap
or_empty none = []
or_empty (some m) = m

-- The marshalling of string maps never fails, so the error result is always nil.
unfoldable pub maps_equal_json : Option StringMap → Option StringMap → Bool
unfolding or_empty
maps_equal_json m1 m2 = str_eq (marshal (some (or_empty m1))) (marshal m2)
