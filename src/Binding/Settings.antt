-- ===== src/Binding/Settings.antt =====
-- The pure parts of binding.go: the external name and its parts, the search among the server's
-- bindings, the comparison.
use provider_rabbitmq.Prelude.{
  ℕ, Bool, false, not, ◌&&◌, Option, none, some, List, [], ◌∷◌, ◌++◌, Str, codes, str_eq, index,
  length, get_elem?, ltb, if◌then◌else◌,
}
use provider_rabbitmq.Libraries.{external_name_key}
use provider_rabbitmq.Client.{RabbitMqClient}
use provider_rabbitmq.Client.Types.{Result, BindingInfo}
use provider_rabbitmq.Client.Utilities.{
  convert_string_map_to_interface_map, convert_interface_map_to_string_map, maps_equal_json,
  or_empty,
}
use provider_rabbitmq.Go.Split.{split}
use provider_rabbitmq.Binding.Types.{Binding, BindingParameters, BindingObservation}

abbrev pub properties_key_expected_parts_counter : ℕ
properties_key_expected_parts_counter = 5

-- A range over a nil map makes no round, so its conversion is the empty map.
unfoldable pub generate_binding_info : BindingParameters → BindingInfo
unfolding or_empty
generate_binding_info binding = record {
  source = binding.source;
  vhost = [];
  destination = binding.destination;
  destination_type = binding.destination_type;
  routing_key = binding.routing_key;
  arguments = convert_string_map_to_interface_map (or_empty binding.arguments);
  properties_key = [];
}

unfoldable pub generate_binding_observation : Option BindingInfo → BindingObservation
generate_binding_observation none = record {
  source = [];
  vhost = [];
  destination = [];
  destination_type = [];
  routing_key = [];
  properties_key = [];
  arguments = [];
}
generate_binding_observation (some api) = record {
  source = api.source;
  vhost = api.vhost;
  destination = api.destination;
  destination_type = api.destination_type;
  routing_key = api.routing_key;
  properties_key = api.properties_key;
  arguments = convert_interface_map_to_string_map api.arguments;
}

unfoldable pub is_up_to_date : BindingParameters → BindingInfo → Bool
is_up_to_date spec api =
    if not (str_eq spec.source api.source)
    then false
    else if not (str_eq spec.vhost api.vhost)
    then false
    else if not (str_eq spec.destination api.destination)
    then false
    else if not (str_eq spec.destination_type api.destination_type)
    then false
    else if not (str_eq spec.routing_key api.routing_key)
    then false
    else maps_equal_json spec.arguments (some (convert_interface_map_to_string_map api.arguments))

unfoldable pub list_bindings :
    {W : Type 0} → Str → Str → Str → Str → RabbitMqClient W → W → Result (List BindingInfo)
list_bindings vhost source destination destination_type client w =
    if str_eq destination_type (codes "queue")
    then client.list_queue_bindings_between vhost source destination w
    else if str_eq destination_type (codes "exchange")
    then client.list_exchange_bindings_between vhost source destination w
    else client.list_bindings_in vhost w

-- The test in the loop of `getBinding`.
unfoldable pub is_the_binding : BindingParameters → Str → BindingInfo → Bool
is_the_binding spec properties_key binding =
    str_eq binding.source spec.source
    && str_eq binding.destination spec.destination
    && str_eq binding.destination_type spec.destination_type
    && str_eq binding.properties_key properties_key

-- The loop: the first binding that passes.
unfoldable pub find_binding : BindingParameters → Str → List BindingInfo → Option BindingInfo
unfolding is_the_binding
find_binding spec properties_key [] = none
find_binding spec properties_key (b ∷ bindings) =
    if is_the_binding spec properties_key b
    then some b
    else find_binding spec properties_key bindings

-- `id[4]`, once the number of parts has been tested.
binding_at : BindingParameters → List BindingInfo → Option Str → Option BindingInfo
unfolding find_binding
binding_at spec bindings none = none
binding_at spec bindings (some properties_key) = find_binding spec properties_key bindings

-- The parts of the external name.
unfoldable pub name_parts : Binding → List Str
unfolding index
name_parts cr = split b'/' (index external_name_key cr.meta.annotations)

-- `if len(id) < propertiesKeyExpectedPartsCounter { return nil }`, and the loop.
unfoldable pub binding_from : BindingParameters → List BindingInfo → List Str → Option BindingInfo
unfolding binding_at
binding_from spec bindings id =
    if ltb (length id) properties_key_expected_parts_counter
    then none
    else binding_at spec bindings (get_elem? id 4)

unfoldable pub get_binding : List BindingInfo → Binding → Option BindingInfo
unfolding name_parts binding_from
get_binding bindings cr = binding_from cr.for_provider bindings (name_parts cr)

unfoldable pub get_external_name : BindingParameters → Str → Str
get_external_name binding properties_key =
    binding.vhost
    ++ (b'/' ∷ binding.source
        ++ (b'/' ∷ binding.destination_type
            ++ (b'/' ∷ binding.destination ++ (b'/' ∷ properties_key))))
