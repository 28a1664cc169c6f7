-- ===== src/User/Settings.antt =====
-- The pure parts of user.go: names, settings, late initialization, comparison.
use mathlib.Core.Option.{get_or}
use provider_rabbitmq.Prelude.{
  Bool, true, false, not, Option, none, some, List, [], ◌∷◌, Str, if◌then◌else◌,
}
use provider_rabbitmq.Libraries.{Libraries}
use provider_rabbitmq.Client.Types.{UserInfo, UserSettings as ApiUserSettings}
use provider_rabbitmq.User.Passwords.{Hashes, password_differs}
use provider_rabbitmq.User.Types.{Bytes, User, UserParameters, UserSettings, UserObservation}

unfoldable pub get_external_name : User → Str
get_external_name spec = get_or spec.for_provider.username spec.meta.name

unfoldable pub generate_api_user_settings : Option Bytes → Option UserSettings → ApiUserSettings
generate_api_user_settings password none = record { tags = []; password = [] }
generate_api_user_settings password (some spec) = record {
  tags = spec.tags;
  password = get_or password [];
}

abbrev pub empty_settings : UserSettings
empty_settings = record { password = none; password_secret_ref = none; tags = [] }

-- `if len(api.Tags) > 0 && len(spec.UserSettings.Tags) > 0` the server's tags replace the spec's.
unfoldable pub late_initialize_tags : List Str → List Str → List Str
late_initialize_tags (t ∷ spec) (u ∷ api) = u ∷ api
late_initialize_tags spec api = spec

unfoldable pub late_initialize_settings : UserSettings → UserInfo → UserSettings
unfolding late_initialize_tags
late_initialize_settings spec api = record spec { tags = late_initialize_tags spec.tags api.tags }

unfoldable pub late_initialize : UserParameters → Option UserInfo → UserParameters
unfolding late_initialize_settings
late_initialize spec none = spec
late_initialize spec (some api) = record spec {
  user_settings = some (late_initialize_settings (get_or spec.user_settings empty_settings) api);
}

unfoldable pub generate_user_observation : Option UserInfo → UserObservation
generate_user_observation none = record { username = []; hashing_algorithm = []; tags = [] }
generate_user_observation (some api) = record {
  username = api.name;
  hashing_algorithm = api.hashing_algorithm;
  tags = api.tags;
}

unfoldable pub tags_up_to_date : ⦃lib : Libraries⦄ → Option UserSettings → UserInfo → Bool
tags_up_to_date none api = true
tags_up_to_date ⦃lib⦄ (some spec) api =
    if not (lib.cmp_equal_slices spec.tags api.tags) then false else true

unfoldable pub is_up_to_date :
    ⦃lib : Libraries⦄ → ⦃h : Hashes⦄ → Bytes → UserParameters → UserInfo → Bool
unfolding tags_up_to_date password_differs
is_up_to_date password spec api =
    if password_differs password api then false else tags_up_to_date spec.user_settings api
