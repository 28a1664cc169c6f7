-- ===== src/Permissions/Settings.antt =====
-- The pure parts of permissions.go: names, settings, late initialization, comparison.
use mathlib.Core.Option.{get_or}
use provider_rabbitmq.Prelude.{
  Bool, true, false, not, Option, none, some, [], ◌∷◌, ◌++◌, Str, if◌then◌else◌,
}
use provider_rabbitmq.Libraries.{Libraries}
use provider_rabbitmq.Client.Types.{PermissionInfo, Permissions as ApiPermissions}
use provider_rabbitmq.Client.Utilities.{is_string_ptr_equal_to_string}
use provider_rabbitmq.Permissions.Types.{
  PermissionsParameters, PermissionSettings, PermissionsObservation,
}

unfoldable pub get_external_name : PermissionsParameters → Str
get_external_name spec = spec.vhost ++ (b'/' ∷ spec.user)

abbrev pub empty_settings : PermissionSettings
empty_settings = record { configure = []; write = []; read = [] }

unfoldable pub late_initialize :
    PermissionsParameters → Option PermissionInfo → PermissionsParameters
late_initialize spec none = spec
late_initialize spec (some api) = record spec {
  permission_settings = some (get_or spec.permission_settings empty_settings);
}

-- Its name in the source is `generateExchangeObservation`.
unfoldable pub generate_permissions_observation : Option PermissionInfo → PermissionsObservation
generate_permissions_observation none = record {
  user = [];
  vhost = [];
  configure = [];
  write = [];
  read = [];
}
generate_permissions_observation (some api) = record {
  user = api.user;
  vhost = api.vhost;
  configure = api.configure;
  write = api.write;
  read = api.read;
}

unfoldable pub settings_up_to_date : ⦃lib : Libraries⦄ → PermissionSettings → PermissionInfo → Bool
settings_up_to_date spec api =
    if not (is_string_ptr_equal_to_string (some spec.configure) api.configure)
    then false
    else if not (is_string_ptr_equal_to_string (some spec.write) api.write)
    then false
    else if not (is_string_ptr_equal_to_string (some spec.read) api.read)
    then false
    else true

compared : ⦃lib : Libraries⦄ → Option PermissionSettings → PermissionInfo → Option Bool
unfolding settings_up_to_date
compared none api = none
compared (some spec) api = some (settings_up_to_date spec api)

-- none: the nil pointer to the settings is dereferenced.
unfoldable pub is_up_to_date :
    ⦃lib : Libraries⦄ → PermissionsParameters → PermissionInfo → Option Bool
unfolding compared
is_up_to_date spec api = compared spec.permission_settings api

-- none: the nil pointer to the settings is dereferenced.
unfoldable pub generate_permission_settings : Option PermissionSettings → Option ApiPermissions
generate_permission_settings none = none
generate_permission_settings (some spec) =
    some (record { configure = spec.configure; write = spec.write; read = spec.read })
