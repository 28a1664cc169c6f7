-- ===== src/Client/Requests.antt =====
-- What a spec asks for, field by field, against what the server shows after the spec's settings
-- were written to it.
use mathlib.Core.Option
use mathlib.Core.Option.{get_or}
use provider_rabbitmq.Prelude.{
  ◌≡◌, ◌≢◌, ◌↔◌, refl, sym, ap, ◌∙◌, Option, none, some, [], Str, StringMap, fill,
}
use provider_rabbitmq.Client.Arguments.{decoded_map, AllSurvive, decoded_round_trip}
use provider_rabbitmq.Client.Comparisons.{Asks}
use provider_rabbitmq.Client.Types.{InterfaceMap}
use provider_rabbitmq.Client.Utilities.{
  or_empty, convert_string_map_to_interface_map, convert_interface_map_to_string_map,
}

-- A field that was written with a default for nil, and then filled in.
pub Asks-fill {ℓ} : {A : Type ℓ} (p : Option A) (d : A) {a : A} → get_or p d ≡ a → Asks (fill p a) a
Asks-fill none d h = refl
Asks-fill (some v) d h = h

-- A field that is filled in with the server's value agrees with it exactly if it did before.
pub Asks-fill_iff {ℓ} : {A : Type ℓ} (p : Option A) (a : A) → Asks (fill p a) a ↔ Asks p a
Asks-fill_iff none a = ((λ _. tt), (λ _. refl))
Asks-fill_iff (some v) a = ((λ h. h), (λ h. h))

-- The same where the server chooses a value for an empty text.
pub Asks-fill_text :
    (p : Option Str) {a : Str}
    → p ≢ some []
    → (get_or p [] ≢ [] → get_or p [] ≡ a)
    → Asks (fill p a) a
Asks-fill_text none given h = refl
Asks-fill_text (some v) given h = h (λ e. given (ap some e))

pub written_arguments :
    (m : StringMap) (a : InterfaceMap)
    → a ≡ decoded_map (convert_string_map_to_interface_map m)
    → (m ≡ convert_interface_map_to_string_map a) ↔ AllSurvive m
written_arguments m a e =
    let (to, from) = decoded_round_trip m in
    let back = ap convert_interface_map_to_string_map e in
    ((λ h. to (sym (h ∙ back))), (λ s. sym (back ∙ from s)))

pub filled_arguments :
    (p : Option StringMap) (a : InterfaceMap)
    → a ≡ decoded_map (get_or (Option.map convert_string_map_to_interface_map p) [])
    → (or_empty (fill p (convert_interface_map_to_string_map a))
        ≡ convert_interface_map_to_string_map a)
      ↔ AllSurvive (or_empty p)
unfolding or_empty
filled_arguments none a e = ((λ _. tt), (λ _. refl))
filled_arguments (some m) a e = written_arguments m a e

-- A field that was written with a default for nil and is compared as it is.
pub Asks-written {ℓ} : {A : Type ℓ} (p : Option A) (d : A) {a : A} → get_or p d ≡ a → Asks p a
Asks-written none d h = tt
Asks-written (some v) d h = h

pub written_arguments_or :
    (p : Option StringMap) (a : InterfaceMap)
    → a ≡ decoded_map (get_or (Option.map convert_string_map_to_interface_map p) [])
    → (or_empty p ≡ convert_interface_map_to_string_map a) ↔ AllSurvive (or_empty p)
unfolding or_empty convert_string_map_to_interface_map
written_arguments_or none a e = written_arguments [] a e
written_arguments_or (some m) a e = written_arguments m a e
