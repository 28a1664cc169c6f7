-- ===== src/Binding/Agreement.antt =====
-- What `isUpToDate` of binding.go decides.
use provider_rabbitmq.Prelude.{◌≡◌, ◌↔◌, true, str_eq_iff, unless_both}
use provider_rabbitmq.Client.Comparisons.{maps_equal_json_iff}
use provider_rabbitmq.Client.Types.{BindingInfo}
use provider_rabbitmq.Client.Utilities.{or_empty, convert_interface_map_to_string_map}
use provider_rabbitmq.Binding.Settings.{is_up_to_date}
use provider_rabbitmq.Binding.Types.{BindingParameters}

-- Every field of the spec is the binding's, the virtual host included.
abbrev pub Agrees : BindingParameters → BindingInfo → Type 0
Agrees spec api =
    (spec.source ≡ api.source)
    × ((spec.vhost ≡ api.vhost)
        × ((spec.destination ≡ api.destination)
            × ((spec.destination_type ≡ api.destination_type)
                × ((spec.routing_key ≡ api.routing_key)
                    × (or_empty spec.arguments
                        ≡ convert_interface_map_to_string_map api.arguments)))))

-- A binding is up to date exactly when every field of the spec is the server's, missing arguments
-- standing for no arguments.
pub is_binding_up_to_date_iff :
    (spec : BindingParameters) (api : BindingInfo)
    → (is_up_to_date spec api ≡ true) ↔ Agrees spec api
unfolding is_up_to_date
is_binding_up_to_date_iff spec api = unless_both _ _ (str_eq_iff spec.source api.source) (
    unless_both _ _ (str_eq_iff spec.vhost api.vhost) (
      unless_both _ _ (str_eq_iff spec.destination api.destination) (
        unless_both _ _ (str_eq_iff spec.destination_type api.destination_type) (
          unless_both _ _ (str_eq_iff spec.routing_key api.routing_key)
            (maps_equal_json_iff spec.arguments
              (convert_interface_map_to_string_map api.arguments)).0))))
