-- ===== src/Queue/Agreement.antt =====
-- What `isUpToDate` of queue.go decides, and what late initialization leaves of a spec.
use provider_rabbitmq.Prelude.{◌≡◌, ◌↔◌, refl, true, Option, none, some, arith, unless_both}
use provider_rabbitmq.Libraries.{Libraries, LibraryLaws}
use provider_rabbitmq.Client.Types.{DetailedQueueInfo}
use provider_rabbitmq.Client.Utilities.{convert_interface_map_to_string_map, or_empty}
use provider_rabbitmq.Client.Comparisons.{
  Asks, is_string_ptr_equal_to_string_iff, is_bool_ptr_equal_to_bool_iff, maps_equal_json_iff,
}
use provider_rabbitmq.Queue.Types.{QueueParameters, QueueSettings}
use provider_rabbitmq.Queue.Settings.{late_initialize, is_up_to_date, settings_up_to_date}

-- Each setting that the spec gives is the server's, and the arguments are the server's as texts.
abbrev pub SettingsAgree : Option QueueSettings → DetailedQueueInfo → Type 0
SettingsAgree none api = Unit
SettingsAgree (some spec) api =
    Asks spec.type api.type
    × (Asks spec.durable api.durable
        × (Asks spec.auto_delete api.auto_delete
            × (or_empty spec.arguments ≡ convert_interface_map_to_string_map api.arguments)))

module _ ⦃lib : Libraries⦄ (laws : LibraryLaws lib) where
  settings_up_to_date_iff :
      (spec : Option QueueSettings) (api : DetailedQueueInfo)
      → (settings_up_to_date spec api ≡ true) ↔ SettingsAgree spec api
  unfolding settings_up_to_date
  settings_up_to_date_iff none api = ((λ _. tt), (λ _. refl))
  settings_up_to_date_iff (some spec) api =
      unless_both _ _ (is_string_ptr_equal_to_string_iff laws spec.type api.type) (
        unless_both _ _ (is_bool_ptr_equal_to_bool_iff laws spec.durable api.durable) (
          unless_both _ _ (is_bool_ptr_equal_to_bool_iff laws spec.auto_delete api.auto_delete)
            (maps_equal_json_iff spec.arguments
              (convert_interface_map_to_string_map api.arguments)).0))

  -- A queue is up to date exactly when it has no settings in its spec, or each setting that is set
  -- is the server's and the arguments are the server's as texts, missing arguments standing for no
  -- arguments.
  pub is_queue_up_to_date_iff :
      (spec : QueueParameters) (api : DetailedQueueInfo)
      → (is_up_to_date spec api ≡ true) ↔ SettingsAgree spec.queue_settings api
  unfolding is_up_to_date
  is_queue_up_to_date_iff spec api = settings_up_to_date_iff spec.queue_settings api

-- Late initialization of a queue is settled by the first answer of the server: a later answer,
-- whatever it says, adds nothing.
pub late_initialize_settled :
    (spec : QueueParameters) (first later : DetailedQueueInfo)
    → late_initialize (late_initialize spec (some first)) (some later)
      ≡ late_initialize spec (some first)
unfolding late_initialize
late_initialize_settled spec first later = ground arith
