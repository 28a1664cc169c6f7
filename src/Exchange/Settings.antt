-- ===== src/Exchange/Settings.antt =====
-- The pure parts of exchange.go: names, settings, late initialization, comparison.
use mathlib.Core.Option
use mathlib.Core.Option.{get_or}
use provider_rabbitmq.Prelude.{
  Bool, true, false, not, Option, none, some, [], Str, if◌then◌else◌, codes,
}
use provider_rabbitmq.Libraries.{Libraries}
use provider_rabbitmq.Client.Types.{DetailedExchangeInfo, ExchangeSettings as ApiExchangeSettings}
use provider_rabbitmq.Client.Utilities.{
  is_string_ptr_equal_to_string, is_bool_ptr_equal_to_bool, convert_string_map_to_interface_map,
  convert_interface_map_to_string_map, maps_equal_json,
}
use provider_rabbitmq.Exchange.Types.{
  Exchange, ExchangeParameters, ExchangeSettings, ExchangeObservation,
}

-- `spec.Spec.ForProvider.Name` if it is set, else the name of the resource.
unfoldable pub get_external_name : Exchange → Str
get_external_name spec = get_or spec.for_provider.name spec.meta.name

abbrev pub exchange_default_type : Str
exchange_default_type = codes "fanout"

-- Each pointer that is set overwrites the zero value; the type has a default of its own.
unfoldable pub generate_exchange_settings : Option ExchangeSettings → ApiExchangeSettings
generate_exchange_settings none = record {
  type = exchange_default_type;
  durable = false;
  auto_delete = false;
  arguments = none;
}
generate_exchange_settings (some spec) = record {
  type = get_or spec.type exchange_default_type;
  durable = get_or spec.durable false;
  auto_delete = get_or spec.auto_delete false;
  arguments = Option.map convert_string_map_to_interface_map spec.arguments;
}

abbrev pub empty_settings : ExchangeSettings
empty_settings = record { type = none; durable = none; auto_delete = none; arguments = none }

unfoldable pub late_initialize :
    ExchangeParameters → Option DetailedExchangeInfo → ExchangeParameters
late_initialize spec none = spec
late_initialize spec (some api) = record spec {
  exchange_settings = some (get_or spec.exchange_settings empty_settings);
}

unfoldable pub generate_exchange_observation : Option DetailedExchangeInfo → ExchangeObservation
generate_exchange_observation none = record {
  name = [];
  vhost = [];
  type = [];
  durable = false;
  auto_delete = false;
  arguments = [];
}
generate_exchange_observation (some api) = record {
  name = api.name;
  vhost = api.vhost;
  type = api.type;
  durable = api.durable;
  auto_delete = api.auto_delete;
  arguments = convert_interface_map_to_string_map api.arguments;
}

unfoldable pub settings_up_to_date :
    ⦃lib : Libraries⦄ → Option ExchangeSettings → DetailedExchangeInfo → Bool
settings_up_to_date none api = true
settings_up_to_date (some spec) api =
    if not (is_string_ptr_equal_to_string spec.type api.type)
    then false
    else if not (is_bool_ptr_equal_to_bool spec.durable api.durable)
    then false
    else if not (is_bool_ptr_equal_to_bool spec.auto_delete api.auto_delete)
    then false
    else maps_equal_json spec.arguments (some (convert_interface_map_to_string_map api.arguments))

unfoldable pub is_up_to_date : ⦃lib : Libraries⦄ → ExchangeParameters → DetailedExchangeInfo → Bool
unfolding settings_up_to_date
is_up_to_date spec api = settings_up_to_date spec.exchange_settings api
