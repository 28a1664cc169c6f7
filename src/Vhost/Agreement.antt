-- ===== src/Vhost/Agreement.antt =====
-- What `isVhostUpToDate` of vhost.go decides, and what late initialization leaves of a spec.
use provider_rabbitmq.Prelude.{
  ◌≡◌, ◌≢◌, ◌↔◌, refl, true, Option, none, some, List, [], Str, arith, unless_both,
}
use provider_rabbitmq.Libraries.{Libraries, LibraryLaws}
use provider_rabbitmq.Client.Types.{VhostInfo}
use provider_rabbitmq.Client.Comparisons.{
  Asks, is_string_ptr_equal_to_string_iff, is_bool_ptr_equal_to_bool_iff, slices_iff,
}
use provider_rabbitmq.Vhost.Types.{VhostParameters, VhostSettings}
use provider_rabbitmq.Vhost.Settings.{
  late_initialize_vhost, late_initialize_settings, late_initialize_tags, is_vhost_up_to_date,
  settings_up_to_date,
}

-- Each setting that the spec gives is the server's, and the tags are the server's in their order.
abbrev pub SettingsAgree : Option VhostSettings → VhostInfo → Type 0
SettingsAgree none api = Unit
SettingsAgree (some spec) api =
    Asks spec.description api.description
    × (Asks spec.default_queue_type api.default_queue_type
        × (Asks spec.tracing api.tracing × (spec.tags ≡ api.tags)))

module _ ⦃lib : Libraries⦄ (laws : LibraryLaws lib) where
  settings_up_to_date_iff :
      (spec : Option VhostSettings) (api : VhostInfo)
      → (settings_up_to_date spec api ≡ true) ↔ SettingsAgree spec api
  unfolding settings_up_to_date
  settings_up_to_date_iff none api = ((λ _. tt), (λ _. refl))
  settings_up_to_date_iff (some spec) api =
      unless_both _ _ (is_string_ptr_equal_to_string_iff laws spec.description api.description) (
        unless_both _ _
          (is_string_ptr_equal_to_string_iff laws spec.default_queue_type api.default_queue_type)
          (unless_both _ _ (is_bool_ptr_equal_to_bool_iff laws spec.tracing api.tracing)
            (slices_iff laws spec.tags api.tags)))

  -- A virtual host is up to date exactly when it has no settings in its spec, or each setting that
  -- is set is the server's and the tags are the server's, in their order.
  pub is_vhost_up_to_date_iff :
      (spec : VhostParameters) (api : VhostInfo)
      → (is_vhost_up_to_date spec api ≡ true) ↔ SettingsAgree spec.vhost_settings api
  unfolding is_vhost_up_to_date
  is_vhost_up_to_date_iff spec api = settings_up_to_date_iff spec.vhost_settings api

late_initialize_tags_idem :
    (t u : List Str) → late_initialize_tags (late_initialize_tags t u) u ≡ late_initialize_tags t u
unfolding late_initialize_tags
late_initialize_tags_idem t u = ground arith

-- The tags that a spec asks for have no effect once the server's virtual host has tags: two specs
-- that differ in their tags only, both with some, become the same spec, with the server's tags.
pub tags_lost :
    (spec : VhostSettings) (api : VhostInfo) (t : List Str) (host_name : Option Str)
    → spec.tags ≢ []
    → t ≢ []
    → api.tags ≢ []
    → (late_initialize_vhost
          (record { host_name = host_name; vhost_settings = some spec })
          (some api)
        ≡ late_initialize_vhost
            (record { host_name = host_name; vhost_settings = some (record spec { tags = t }) })
            (some api))
      × ((late_initialize_settings spec api).tags ≡ api.tags)
unfolding late_initialize_vhost late_initialize_settings late_initialize_tags
tags_lost spec api t host_name a b c = (ground arith, ground arith)
