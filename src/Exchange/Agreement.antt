-- ===== src/Exchange/Agreement.antt =====
-- What `isUpToDate` of exchange.go decides, and what late initialization leaves of a spec.
use mathlib.Core.Path.{subst}
use mathlib.Core.Option.{get_or}
use provider_rabbitmq.Prelude.{◌≡◌, ◌↔◌, refl, sym, true, Option, none, some, [], ◌∷◌, unless_both}
use provider_rabbitmq.Libraries.{Libraries, LibraryLaws}
use provider_rabbitmq.Client.Types.{DetailedExchangeInfo, InterfaceMap}
use provider_rabbitmq.Client.Utilities.{convert_interface_map_to_string_map, or_empty}
use provider_rabbitmq.Client.Comparisons.{
  Asks, is_string_ptr_equal_to_string_iff, is_bool_ptr_equal_to_bool_iff, maps_equal_json_iff,
}
use provider_rabbitmq.Exchange.Types.{ExchangeParameters, ExchangeSettings}
use provider_rabbitmq.Exchange.Settings.{
  late_initialize, empty_settings, is_up_to_date, settings_up_to_date,
}

-- Each setting that the spec gives is the server's, and the arguments are the server's as texts.
abbrev pub SettingsAgree : Option ExchangeSettings → DetailedExchangeInfo → Type 0
SettingsAgree none api = Unit
SettingsAgree (some spec) api =
    Asks spec.type api.type
    × (Asks spec.durable api.durable
        × (Asks spec.auto_delete api.auto_delete
            × (or_empty spec.arguments ≡ convert_interface_map_to_string_map api.arguments)))

module _ ⦃lib : Libraries⦄ (laws : LibraryLaws lib) where
  settings_up_to_date_iff :
      (spec : Option ExchangeSettings) (api : DetailedExchangeInfo)
      → (settings_up_to_date spec api ≡ true) ↔ SettingsAgree spec api
  unfolding settings_up_to_date
  settings_up_to_date_iff none api = ((λ _. tt), (λ _. refl))
  settings_up_to_date_iff (some spec) api =
      unless_both _ _ (is_string_ptr_equal_to_string_iff laws spec.type api.type) (
        unless_both _ _ (is_bool_ptr_equal_to_bool_iff laws spec.durable api.durable) (
          unless_both _ _ (is_bool_ptr_equal_to_bool_iff laws spec.auto_delete api.auto_delete)
            (maps_equal_json_iff spec.arguments
              (convert_interface_map_to_string_map api.arguments)).0))

  -- An exchange is up to date exactly when it has no settings in its spec, or each setting that is
  -- set is the server's and the arguments are the server's as texts, missing arguments standing
  -- for no arguments.
  pub is_exchange_up_to_date_iff :
      (spec : ExchangeParameters) (api : DetailedExchangeInfo)
      → (is_up_to_date spec api ≡ true) ↔ SettingsAgree spec.exchange_settings api
  unfolding is_up_to_date
  is_exchange_up_to_date_iff spec api = settings_up_to_date_iff spec.exchange_settings api

no_arguments : (a : InterfaceMap) → ([] ≡ convert_interface_map_to_string_map a) ↔ (a ≡ [])
unfolding convert_interface_map_to_string_map
no_arguments [] = ((λ _. refl), (λ _. refl))
no_arguments ((k, v) ∷ a) = ((λ h. absurd (cc)), (λ h. absurd (cc)))

empty_agree :
    (o : Option ExchangeSettings) (api : DetailedExchangeInfo)
    → o ≡ none
    → SettingsAgree (some (get_or o empty_settings)) api ↔ (api.arguments ≡ [])
unfolding or_empty
empty_agree none api h =
    let (to, from) = no_arguments api.arguments in
    ((λ a. to a.1.1.1), (λ e. (tt, (tt, (tt, from e)))))
empty_agree (some q) api h = absurd (cc)

-- An exchange whose settings are missing is up to date before late initialization, and after it
-- exactly when the server's exchange has no arguments.
pub late_initialized_empty :
    ⦃lib : Libraries⦄ (laws : LibraryLaws lib) (spec : ExchangeParameters)
    (api : DetailedExchangeInfo)
    → spec.exchange_settings ≡ none
    → (is_up_to_date spec api ≡ true)
      × ((is_up_to_date (late_initialize spec (some api)) api ≡ true) ↔ (api.arguments ≡ []))
unfolding late_initialize
late_initialized_empty laws spec api h =
    let (to, from) = is_exchange_up_to_date_iff laws (late_initialize spec (some api)) api in
    let (to', from') = empty_agree spec.exchange_settings api h in
    (
      (is_exchange_up_to_date_iff laws spec api).1 (subst (λ o. SettingsAgree o api) (sym h) tt),
      ((λ u. to' (to u)), (λ e. from (from' e))),
    )
