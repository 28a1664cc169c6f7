-- ===== src/Client/Bounds.antt =====
-- What `ConvertStringMapToInterfaceMap` makes of each entry, and the range of the numbers in it.
use provider_rabbitmq.Prelude.{
  ◌≡◌, refl, none, some, [], ◌∷◌, inl, inr, Str, StringMap, Option-cases,
}
use provider_rabbitmq.Go.Decimal.{InRange, atoi, atoi-InRange}
use provider_rabbitmq.Go.Value.{Value, int, string}
use provider_rabbitmq.Client.Types.{InterfaceMap}
use provider_rabbitmq.Client.Utilities.{
  to_interface, convert_value, convert_string_map_to_interface_map,
}

-- A value that is sent for a text: a number of 64 bits that the text reads as, or the text if it
-- reads as no such number.
abbrev pub SentFor : Str → Value → Type 0
SentFor v (int z) = (atoi v ≡ some z) × InRange z
SentFor v (string s) = (s ≡ v) × (atoi v ≡ none)
SentFor v _ = ⊥

-- The same keys in the same order, each with a value that is sent for its text.
abbrev pub AllSentFor : StringMap → InterfaceMap → Type 0
AllSentFor [] [] = Unit
AllSentFor ((k, v) ∷ m) ((j, x) ∷ n) = (j ≡ k) × SentFor v x × AllSentFor m n
AllSentFor _ _ = ⊥

to_interface-SentFor : (v : Str) → SentFor v (to_interface v)
unfolding to_interface convert_value
to_interface-SentFor v = elim (Option-cases (atoi v)) [
  | inl e ↦ rw e (refl, e)
  | inr (z, e) ↦ rw e (e, atoi-InRange v e)
]

-- Every argument is sent under its key, as the number that its text reads as, which fits 64 bits, or
-- as the text if that reads as no such number; no argument is dropped and none is added.
pub convert_string_map_to_interface_map-AllSentFor :
    (m : StringMap) → AllSentFor m (convert_string_map_to_interface_map m)
unfolding convert_string_map_to_interface_map
convert_string_map_to_interface_map-AllSentFor [] = tt
convert_string_map_to_interface_map-AllSentFor ((k, v) ∷ m) =
    (refl, to_interface-SentFor v, convert_string_map_to_interface_map-AllSentFor m)
