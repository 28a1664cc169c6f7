-- ===== src/Queue/Settings.antt =====
-- The pure parts of queue.go: names, settings, late initialization, comparison.
use mathlib.Core.Option
use mathlib.Core.Option.{get_or}
use provider_rabbitmq.Prelude.{
  Bool, true, false, not, Option, none, some, [], Str, if◌then◌else◌, fill,
}
use provider_rabbitmq.Libraries.{Libraries}
use provider_rabbitmq.Client.Types.{DetailedQueueInfo, QueueSettings as ApiQueueSettings}
use provider_rabbitmq.Client.Utilities.{
  is_string_ptr_equal_to_string, is_bool_ptr_equal_to_bool, convert_string_map_to_interface_map,
  convert_interface_map_to_string_map, maps_equal_json,
}
use provider_rabbitmq.Queue.Types.{Queue, QueueParameters, QueueSettings, QueueObservation}

-- `spec.Spec.ForProvider.Name` if it is set, else the name of the resource.
unfoldable pub get_external_name : Queue → Str
get_external_name spec = get_or spec.for_provider.name spec.meta.name

abbrev zero_settings : ApiQueueSettings
zero_settings = record { type = []; durable = false; auto_delete = false; arguments = none }

-- Each pointer that is set overwrites the zero value.
unfoldable pub generate_queue_settings : Option QueueSettings → ApiQueueSettings
generate_queue_settings none = zero_settings
generate_queue_settings (some spec) = record {
  type = get_or spec.type [];
  durable = get_or spec.durable false;
  auto_delete = get_or spec.auto_delete false;
  arguments = Option.map convert_string_map_to_interface_map spec.arguments;
}

abbrev pub empty_settings : QueueSettings
empty_settings = record { type = none; durable = none; auto_delete = none; arguments = none }

unfoldable pub late_initialize_settings : QueueSettings → DetailedQueueInfo → QueueSettings
late_initialize_settings spec api = record {
  type = fill spec.type api.type;
  durable = fill spec.durable api.durable;
  auto_delete = fill spec.auto_delete api.auto_delete;
  arguments = fill spec.arguments (convert_interface_map_to_string_map api.arguments);
}

unfoldable pub late_initialize : QueueParameters → Option DetailedQueueInfo → QueueParameters
unfolding late_initialize_settings
late_initialize spec none = spec
late_initialize spec (some api) = record spec {
  queue_settings = some (late_initialize_settings (get_or spec.queue_settings empty_settings) api);
}

unfoldable pub generate_queue_observation : Option DetailedQueueInfo → QueueObservation
generate_queue_observation none = record {
  name = [];
  vhost = [];
  type = [];
  durable = false;
  auto_delete = false;
  arguments = [];
}
generate_queue_observation (some api) = record {
  name = api.name;
  vhost = api.vhost;
  type = api.type;
  durable = api.durable;
  auto_delete = api.auto_delete;
  arguments = convert_interface_map_to_string_map api.arguments;
}

unfoldable pub settings_up_to_date :
    ⦃lib : Libraries⦄ → Option QueueSettings → DetailedQueueInfo → Bool
settings_up_to_date none api = true
settings_up_to_date (some spec) api =
    if not (is_string_ptr_equal_to_string spec.type api.type)
    then false
    else if not (is_bool_ptr_equal_to_bool spec.durable api.durable)
    then false
    else if not (is_bool_ptr_equal_to_bool spec.auto_delete api.auto_delete)
    then false
    else maps_equal_json spec.arguments (some (convert_interface_map_to_string_map api.arguments))

unfoldable pub is_up_to_date : ⦃lib : Libraries⦄ → QueueParameters → DetailedQueueInfo → Bool
unfolding settings_up_to_date
is_up_to_date spec api = settings_up_to_date spec.queue_settings api
