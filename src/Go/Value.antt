-- ===== src/Go/Value.antt =====
-- The values of an `interface{}` that occur as arguments of a queue, an exchange or a binding, and
-- `fmt.Sprintf("%v", v)` of them.
use provider_rabbitmq.Prelude.{◌≡◌, refl, Bool, true, false, [], ◌∷◌, ◌++◌, Str, codes}
use provider_rabbitmq.Go.Decimal.{ℤ, print_int}
use provider_rabbitmq.Go.Float.{Float, print_float}

mutual
  pub data Value : Type 0 where
    nil : Value
    bool : Bool → Value
    int : ℤ → Value
    float64 : Float → Value
    string : Str → Value
    slice : Items → Value
    table : Entries → Value

  pub data Items : Type 0 where
    no_item : Items
    item : Value → Items → Items

  -- The entries of a map[string]interface{}, in ascending order of the keys, as fmt prints them.
  pub data Entries : Type 0 where
    no_entry : Entries
    entry : Str → Value → Entries → Entries

mutual
  unfolding print_int print_float

  sprint_value : Value → Str
  sprint_value nil = codes "<nil>"
  sprint_value (bool true) = codes "true"
  sprint_value (bool false) = codes "false"
  sprint_value (int z) = print_int z
  sprint_value (float64 x) = print_float x
  sprint_value (string s) = s
  sprint_value (slice xs) = b'[' ∷ sprint_items xs ++ b']' ∷ []
  sprint_value (table es) = codes "map[" ++ sprint_entries es ++ b']' ∷ []

  sprint_items : Items → Str
  sprint_items no_item = []
  sprint_items (item v no_item) = sprint_value v
  sprint_items (item v (item w xs)) = sprint_value v ++ b' ' ∷ sprint_items (item w xs)

  sprint_entries : Entries → Str
  sprint_entries no_entry = []
  sprint_entries (entry k v no_entry) = k ++ b':' ∷ sprint_value v
  sprint_entries (entry k v (entry j w es)) =
      k ++ b':' ∷ sprint_value v ++ b' ' ∷ sprint_entries (entry j w es)

unfoldable pub sprint : Value → Str
unfolding sprint_value
sprint v = sprint_value v

pub sprint-int : (z : ℤ) → sprint (int z) ≡ print_int z
unfolding sprint
sprint-int z = refl

pub sprint-float64 : (x : Float) → sprint (float64 x) ≡ print_float x
unfolding sprint
sprint-float64 x = refl
