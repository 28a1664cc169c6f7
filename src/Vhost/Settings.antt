-- ===== src/Vhost/Settings.antt =====
-- The pure parts of vhost.go: names, settings, late initialization, comparison.
use mathlib.Core.Option.{get_or}
use provider_rabbitmq.Prelude.{
  Bool, true, false, not, Option, none, some, List, [], ◌∷◌, Str, if◌then◌else◌, fill,
}
use provider_rabbitmq.Libraries.{Libraries}
use provider_rabbitmq.Client.Types.{VhostInfo, VhostSettings as ApiVhostSettings}
use provider_rabbitmq.Client.Utilities.{is_string_ptr_equal_to_string, is_bool_ptr_equal_to_bool}
use provider_rabbitmq.Vhost.Types.{Vhost, VhostParameters, VhostSettings, VhostObservation}

-- `spec.Spec.ForProvider.HostName` if it is set, else the name of the resource.
unfoldable pub get_external_name : Vhost → Str
get_external_name spec = get_or spec.for_provider.host_name spec.meta.name

-- `generateVhostObservation`: the pointers are always set.
unfoldable pub generate_vhost_observation : Option VhostInfo → VhostObservation
generate_vhost_observation none = record {
  name = [];
  description = none;
  default_queue_type = none;
  messages = 0;
  messages_ready = 0;
  messages_unacknowledged = 0;
}
generate_vhost_observation (some vh) = record {
  name = vh.name;
  description = some vh.description;
  default_queue_type = some vh.default_queue_type;
  messages = vh.messages;
  messages_ready = vh.messages_ready;
  messages_unacknowledged = vh.messages_unacknowledged;
}

-- Each pointer that is set overwrites the zero value, and the tags are copied.
unfoldable pub generate_api_vhost_settings : Option VhostSettings → ApiVhostSettings
generate_api_vhost_settings none = record {
  description = [];
  tags = [];
  default_queue_type = [];
  tracing = false;
}
generate_api_vhost_settings (some spec) = record {
  description = get_or spec.description [];
  tags = spec.tags;
  default_queue_type = get_or spec.default_queue_type [];
  tracing = get_or spec.tracing false;
}

abbrev pub empty_settings : VhostSettings
empty_settings = record { description = none; tags = []; default_queue_type = none; tracing = none }

-- `if len(api.Tags) > 0 && len(spec.VhostSettings.Tags) > 0` the server's tags replace the spec's.
unfoldable pub late_initialize_tags : List Str → List Str → List Str
late_initialize_tags (t ∷ spec) (u ∷ api) = u ∷ api
late_initialize_tags spec api = spec

unfoldable pub late_initialize_settings : VhostSettings → VhostInfo → VhostSettings
unfolding late_initialize_tags
late_initialize_settings spec api = record {
  description = fill spec.description api.description;
  tags = late_initialize_tags spec.tags api.tags;
  default_queue_type = fill spec.default_queue_type api.default_queue_type;
  tracing = fill spec.tracing api.tracing;
}

unfoldable pub late_initialize_vhost : VhostParameters → Option VhostInfo → VhostParameters
unfolding late_initialize_settings
late_initialize_vhost spec none = spec
late_initialize_vhost spec (some api) = record spec {
  vhost_settings = some (late_initialize_settings (get_or spec.vhost_settings empty_settings) api);
}

unfoldable pub settings_up_to_date : ⦃lib : Libraries⦄ → Option VhostSettings → VhostInfo → Bool
settings_up_to_date none api = true
settings_up_to_date ⦃lib⦄ (some spec) api =
    if not (is_string_ptr_equal_to_string spec.description api.description)
    then false
    else if not (is_string_ptr_equal_to_string spec.default_queue_type api.default_queue_type)
    then false
    else if not (is_bool_ptr_equal_to_bool spec.tracing api.tracing)
    then false
    else if not (lib.cmp_equal_slices spec.tags api.tags)
    then false
    else true

unfoldable pub is_vhost_up_to_date : ⦃lib : Libraries⦄ → VhostParameters → VhostInfo → Bool
unfolding settings_up_to_date
is_vhost_up_to_date spec api = settings_up_to_date spec.vhost_settings api
