-- ===== src/Client/Arguments.antt =====
-- The way of the arguments through the server: written as numbers and texts, read back from JSON,
-- and turned into texts again.
use mathlib.Core.Path.{subst}
use provider_rabbitmq.Prelude.{
  suc, ◌<◌, ◌^◌, ◌≡◌, ◌↔◌, refl, ap, sym, ◌∙◌, Option, none, some, [], ◌∷◌, Str, StringMap, All,
  ltb, ltb→lt, Bool-cases, inl, inr, ◌⊎◌, arith, str_eq, if◌then◌else◌,
}
use provider_rabbitmq.Go.Decimal.{ℤ, pos, negsuc, print_int, atoi}
use provider_rabbitmq.Go.Float.{Float, float_of_int, print_float}
use provider_rabbitmq.Go.Float.Integers.{
  IsLarge, large_unread, IsSmall, print-float_of_int_iff, atoi-print_float,
}
use provider_rabbitmq.Go.Value.{Value, int, float64, sprint-float64}
use provider_rabbitmq.Client.Types.{InterfaceMap}
use provider_rabbitmq.Client.Utilities.{
  convert_value, to_interface, convert_string_map_to_interface_map, to_string,
  convert_interface_map_to_string_map,
}

-- What encoding/json makes of an encoded value when it decodes it into an `interface{}`: a number
-- becomes a float64, which is this one if the number has at most 15 digits.
unfoldable pub decoded : Value → Value
decoded (int z) = float64 (float_of_int z)
decoded v = v

unfoldable pub decoded_map : InterfaceMap → InterfaceMap
unfolding decoded
decoded_map [] = []
decoded_map ((k, v) ∷ m) = (k, decoded v) ∷ decoded_map m

-- `m[k]`, where the map has the key.
unfoldable pub value_of : Str → InterfaceMap → Option Value
value_of k [] = none
value_of k ((j, v) ∷ m) = if str_eq k j then some v else value_of k m

-- A text that `Atoi` does not read as a number, or the plain spelling of one of at most six digits.
abbrev pub SurvivesAs : Option ℤ → Str → Type 0
SurvivesAs none v = Unit
SurvivesAs (some z) v = (v ≡ print_int z) × IsSmall z

abbrev pub Survives : Str → Type 0
Survives v = SurvivesAs (atoi v) v

abbrev pub AllSurvive : StringMap → Type 0
AllSurvive = All (λ (e : Str × Str). Survives e.1)

-- Every number is within the 15 digits that a float64 holds exactly.
abbrev pub IsBelow : ℤ → Type 0
IsBelow (pos n) = n < 10 ^ 15
IsBelow (negsuc n) = suc n < 10 ^ 15

abbrev pub IsExact : Option ℤ → Type 0
IsExact none = Unit
IsExact (some z) = IsBelow z

abbrev pub AllExact : StringMap → Type 0
AllExact = All (λ (e : Str × Str). IsExact (atoi e.1))

survives_from :
    (v : Str) (o : Option ℤ)
    → atoi v ≡ o
    → to_string (decoded (convert_value v o)) ≡ v
    → SurvivesAs o v
unfolding to_string decoded convert_value
survives_from v none e h = tt
survives_from v (some i) e h =
    let printed : print_float (float_of_int i) ≡ v = sym (sprint-float64 (float_of_int i)) ∙ h in
    let small = atoi-print_float i (ap atoi printed ∙ e) in
    (sym printed ∙ (print-float_of_int_iff i).1 small, small)

survives_to :
    (v : Str) (o : Option ℤ) → SurvivesAs o v → to_string (decoded (convert_value v o)) ≡ v
unfolding to_string decoded convert_value
survives_to v none s = refl
survives_to v (some i) s =
    sprint-float64 (float_of_int i) ∙ (print-float_of_int_iff i).1 s.1 ∙ sym s.0

value-Survives : (v : Str) → (to_string (decoded (to_interface v)) ≡ v) ↔ Survives v
unfolding to_interface
value-Survives v = (survives_from v (atoi v) refl, survives_to v (atoi v))

-- The round trip of the arguments by `decoded_map`.
pub decoded_round_trip :
    (m : StringMap)
    → (convert_interface_map_to_string_map (decoded_map (convert_string_map_to_interface_map m))
        ≡ m)
      ↔ AllSurvive m
unfolding convert_interface_map_to_string_map decoded_map convert_string_map_to_interface_map
decoded_round_trip [] = ((λ _. tt), (λ _. refl))
decoded_round_trip ((k, v) ∷ m) =
    let (to, from) = decoded_round_trip m in
    let (head_to, head_from) = value-Survives v in
    ((λ h. (head_to (cc), to (cc))), (λ s. cc (head_from s.0, from s.1)))

-- A float64 that encoding/json makes of an integer: of 15 digits it is exact, and above it is rounded
-- to one of that size.
abbrev pub IsFloatOf : ℤ → Float → Type 0
IsFloatOf z x = (IsBelow z → x ≡ float_of_int z) × (¬ (IsBelow z) → IsLarge x)

abbrev pub DecodesTo : Value → Value → Type 0
DecodesTo (int z) w = (x : Float) × IsFloatOf z x × (w ≡ float64 x)
DecodesTo v w = w ≡ v

-- What the server's JSON decodes to, entry by entry.
abbrev pub DecodesToMap : InterfaceMap → InterfaceMap → Type 0
DecodesToMap [] [] = Unit
DecodesToMap ((k, v) ∷ m) ((j, w) ∷ n) = (j ≡ k) × DecodesTo v w × DecodesToMap m n
DecodesToMap _ _ = ⊥

Below-cases : (z : ℤ) → IsBelow z ⊎ (¬ (IsBelow z))
Below-cases (pos n) = elim (Bool-cases (ltb n (10 ^ 15))) [
  | inl small ↦ inl (ltb→lt n (10 ^ 15) small)
  | inr large ↦ inr (λ h. absurd (ground arith))
]
Below-cases (negsuc n) = elim (Bool-cases (ltb (suc n) (10 ^ 15))) [
  | inl small ↦ inl (ltb→lt (suc n) (10 ^ 15) small)
  | inr large ↦ inr (λ h. absurd (ground arith))
]

small-IsBelow : (z : ℤ) → IsSmall z → IsBelow z
small-IsBelow (pos n) h = omega arith
small-IsBelow (negsuc n) h = omega arith

decoded-Survives :
    (v : Str) (o : Option ℤ) (w : Value)
    → atoi v ≡ o
    → DecodesTo (convert_value v o) w
    → (to_string w ≡ v) ↔ SurvivesAs o v
unfolding convert_value decoded to_string
decoded-Survives v none w e h = ((λ _. tt), (λ _. ap to_string h ∙ survives_to v none tt))
decoded-Survives v (some i) w e (x, (exact, large), h) = (to, from)
  where
    Prints : Float → Type 0
    Prints y = to_string (float64 y) ≡ v

    to : to_string w ≡ v → (v ≡ print_int i) × IsSmall i
    to s = elim (Below-cases i) [
      | inl below ↦
          survives_from v (some i) e (subst Prints (exact below) (sym (ap to_string h) ∙ s))
      | inr above ↦ absurd (
          large_unread x (large above)
            (ap atoi (sym (sprint-float64 x) ∙ sym (ap to_string h) ∙ s) ∙ e))
    ]

    from : (v ≡ print_int i) × IsSmall i → to_string w ≡ v
    from s =
        ap to_string h ∙ subst Prints (sym (exact (small-IsBelow i s.1))) (survives_to v (some i) s)

-- The arguments that are converted for the server, decoded from its JSON and converted back are as
-- they were exactly when each value is no number for `Atoi`, or the plain spelling of one of at
-- most six digits. A number of at most 15 digits is decoded to its float64, a larger one to any
-- float64 of at least 15 integral digits.
pub arguments_round_trip :
    (m : StringMap) (answered : InterfaceMap)
    → DecodesToMap (convert_string_map_to_interface_map m) answered
    → (convert_interface_map_to_string_map answered ≡ m) ↔ AllSurvive m
unfolding convert_interface_map_to_string_map convert_string_map_to_interface_map to_interface
arguments_round_trip [] [] h = ((λ _. tt), (λ _. refl))
arguments_round_trip [] (a ∷ answered) h = absurd h
arguments_round_trip ((k, v) ∷ m) [] h = absurd h
arguments_round_trip ((k, v) ∷ m) ((j, w) ∷ answered) (same, head, tail) =
    let (to, from) = arguments_round_trip m answered tail in
    let (head_to, head_from) = decoded-Survives v (atoi v) w refl head in
    ((λ h. (head_to (cc), to (cc))), (λ s. cc (same, head_from s.0, from s.1)))

-- The same bound on what is written to the server.
abbrev pub IsExactValue : Value → Type 0
IsExactValue (int z) = IsBelow z
IsExactValue v = Unit

abbrev pub ExactMap : InterfaceMap → Type 0
ExactMap = All (λ (e : Str × Value). IsExactValue e.1)

converted-exact : (v : Str) (o : Option ℤ) → IsExact o → IsExactValue (convert_value v o)
unfolding convert_value
converted-exact v none h = tt
converted-exact v (some i) h = h

pub AllExact-converted :
    (m : StringMap) → AllExact m → ExactMap (convert_string_map_to_interface_map m)
unfolding convert_string_map_to_interface_map to_interface
AllExact-converted [] h = tt
AllExact-converted ((k, v) ∷ m) h = (converted-exact v (atoi v) h.0, AllExact-converted m h.1)
