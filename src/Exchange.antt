-- ===== src/Exchange.antt =====
-- internal/controller/namespaced/exchange/exchange.go: the external client of exchanges, with the types of
-- apis/namespaced/core/v1alpha1/exchange_types.go.
pub mod Types
pub mod Settings
pub mod Agreement
pub mod Methods
pub mod Convergence
pub mod Updates
pub mod Stability
pub mod External
mod Tests
use provider_rabbitmq.Prelude.{
  Bool, true, false, not, Option, none, some, [], ◌∷◌, Str, codes, if◌then◌else◌,
}
use provider_rabbitmq.Libraries.{Libraries}
use provider_rabbitmq.Meta.{
  set_crossplane_managed, is_not_crossplane_managed, new_not_crossplane_managed_error,
}
use provider_rabbitmq.Client.{RabbitMqClient, is_not_found_error}
use provider_rabbitmq.Client.Types.{Result, ok, err, DetailedExchangeInfo}
use provider_rabbitmq.Go.Error.{Error, wrap}
use provider_rabbitmq.Handler.{
  State, M, ◌>>=◌, ◌>>◌, pure, fail, or_wrap, cast, put_cr, read, call, close_body,
  ExternalObservation, does_not_exist,
}
use Types.{Exchange, ExchangeParameters, ExchangeParameters-discrete}
use Settings.{
  get_external_name, generate_exchange_settings, late_initialize, generate_exchange_observation,
  is_up_to_date,
}

abbrev pub err_not_exchange : Str
err_not_exchange = codes "managed resource is not a Exchange custom resource"

abbrev pub err_get_failed : Str
err_get_failed = codes "cannot get RabbitMq Exchange"

abbrev pub err_create_failed : Str
err_create_failed = codes "cannot create new Exchange"

abbrev pub err_delete_failed : Str
err_delete_failed = codes "cannot delete Exchange"

abbrev pub err_update_failed : Str
err_update_failed = codes "cannot update Exchange"

module _ ⦃lib : Libraries⦄ {W : Type 0} where
  -- What `Observe` does with a exchange that exists and is its own.
  unfoldable pub observe_managed :
      Exchange → DetailedExchangeInfo → M (State Exchange W) ExternalObservation
  observe_managed cr api = do
    let current = cr.for_provider
    let spec = late_initialize cr.for_provider (some api)
    put_cr (record cr {
      for_provider = spec;
      at_provider = generate_exchange_observation (some api);
      available = true;
    })
    pure (record {
      resource_exists = true;
      resource_up_to_date = is_up_to_date spec api;
      resource_late_initialized =
          not (lib.cmp_equal ExchangeParameters ExchangeParameters-discrete current spec);
    })

  unfoldable pub observe_answer :
      Exchange → Result DetailedExchangeInfo → M (State Exchange W) ExternalObservation
  unfolding observe_managed
  observe_answer cr (err e) =
      if is_not_found_error e then pure does_not_exist else fail (wrap e err_get_failed)
  observe_answer cr (ok api) =
      if is_not_crossplane_managed cr.meta
      then fail (new_not_crossplane_managed_error (get_external_name cr))
      else observe_managed cr api

  module _ (client : RabbitMqClient W) where
    unfoldable pub observe : M (State Exchange W) ExternalObservation
    unfolding observe_answer
    observe = do
      cr ← cast err_not_exchange
      answer ← read (client.get_exchange cr.for_provider.vhost (get_external_name cr))
      observe_answer cr answer

    unfoldable pub create : M (State Exchange W) (Unit {0})
    create = do
      cr ← cast err_not_exchange
      let name = get_external_name cr
      answer ← call (
          client.declare_exchange cr.for_provider.vhost name
            (generate_exchange_settings cr.for_provider.exchange_settings))
      resp ← or_wrap err_create_failed answer
      close_body
      put_cr (record cr { meta = set_crossplane_managed cr.meta name })

    unfoldable pub update : M (State Exchange W) (Unit {0})
    update = do
      cr ← cast err_not_exchange
      answer ← call (
          client.declare_exchange cr.for_provider.vhost (get_external_name cr)
            (generate_exchange_settings cr.for_provider.exchange_settings))
      resp ← or_wrap err_update_failed answer
      close_body

    unfoldable pub delete : M (State Exchange W) (Unit {0})
    delete = do
      cr ← cast err_not_exchange
      answer ← call (client.delete_exchange cr.for_provider.vhost (get_external_name cr))
      resp ← or_wrap err_delete_failed answer
      close_body

    unfoldable pub disconnect : M (State Exchange W) (Unit {0})
    disconnect = pure tt
