-- ===== src/Client/Tests.antt =====
-- Runs of the helpers of internal/rabbitmqclient, and the theorems at concrete inputs.
use provider_rabbitmq.Prelude.{
  ◌≡◌, ◌↔◌, refl, true, false, none, some, [], ◌∷◌, StringMap, codes, arith,
}
use provider_rabbitmq.Client.Arguments.{decoded_map, AllSurvive, DecodesToMap, arguments_round_trip}
use provider_rabbitmq.Client.Bounds.{AllSentFor, convert_string_map_to_interface_map-AllSentFor}
use provider_rabbitmq.Client.Comparisons.{maps_equal_json_iff}
use provider_rabbitmq.Client.Utilities.{
  convert_string_map_to_interface_map, convert_interface_map_to_string_map, to_interface,
  maps_equal_json, or_empty,
}
use provider_rabbitmq.Go.Decimal.{atoi}
use provider_rabbitmq.Go.Float.{print_float, float_of_int}
use provider_rabbitmq.Go.Value.{sprint}

abbrev queue_arguments : StringMap
queue_arguments =
    (codes "x-max-length", codes "1000") ∷ (codes "x-message-ttl", codes "1000000") ∷ []

-- A number of seven digits comes back in another spelling.
million :
    convert_interface_map_to_string_map
      (decoded_map (convert_string_map_to_interface_map queue_arguments))
    ≡ (codes "x-max-length", codes "1000") ∷ (codes "x-message-ttl", codes "1e+06") ∷ []
unfolding convert_interface_map_to_string_map decoded_map convert_string_map_to_interface_map
    to_interface atoi sprint print_float float_of_int
million = refl

queue_arguments-DecodesToMap :
    DecodesToMap
      (convert_string_map_to_interface_map queue_arguments)
      (decoded_map (convert_string_map_to_interface_map queue_arguments))
unfolding decoded_map convert_string_map_to_interface_map to_interface atoi
queue_arguments-DecodesToMap = (
  refl,
  (_, (λ _. refl, λ h. absurd (h (omega arith))), refl),
  (refl, (_, (λ _. refl, λ h. absurd (h (omega arith))), refl), tt),
)

arguments_round_trip_example :
    (convert_interface_map_to_string_map
        (decoded_map (convert_string_map_to_interface_map queue_arguments))
      ≡ queue_arguments)
    ↔ AllSurvive queue_arguments
arguments_round_trip_example =
    arguments_round_trip queue_arguments
      (decoded_map (convert_string_map_to_interface_map queue_arguments))
      queue_arguments-DecodesToMap

maps_equal_json_iff_example :
    ((maps_equal_json none (some queue_arguments) ≡ true) ↔ ([] ≡ queue_arguments))
    × (maps_equal_json none none ≡ false)
unfolding or_empty
maps_equal_json_iff_example = maps_equal_json_iff none queue_arguments

convert_string_map_to_interface_map-AllSentFor_example :
    AllSentFor queue_arguments (convert_string_map_to_interface_map queue_arguments)
convert_string_map_to_interface_map-AllSentFor_example =
    convert_string_map_to_interface_map-AllSentFor queue_arguments
