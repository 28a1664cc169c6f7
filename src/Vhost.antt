-- ===== src/Vhost.antt =====
-- internal/controller/namespaced/vhost/vhost.go: the external client of vhosts, with the types of
-- apis/namespaced/core/v1alpha1/vhost_types.go.
pub mod Types
pub mod Settings
pub mod Agreement
pub mod Methods
pub mod Convergence
pub mod Tags
pub mod Updates
pub mod Stability
pub mod External
mod Tests
use provider_rabbitmq.Prelude.{
  Bool, true, false, not, Option, none, some, [], ◌∷◌, Str, codes, if◌then◌else◌,
}
use provider_rabbitmq.Libraries.{Libraries}
use provider_rabbitmq.Meta.{
  set_crossplane_managed, is_not_crossplane_managed, new_not_crossplane_managed_error,
}
use provider_rabbitmq.Client.{RabbitMqClient, is_not_found_error}
use provider_rabbitmq.Client.Types.{Result, ok, err, VhostInfo}
use provider_rabbitmq.Go.Error.{Error, wrap}
use provider_rabbitmq.Handler.{
  State, M, ◌>>=◌, ◌>>◌, pure, fail, or_wrap, cast, put_cr, read, call, close_body,
  ExternalObservation, does_not_exist,
}
use Types.{Vhost, VhostParameters, VhostParameters-discrete}
use Settings.{
  get_external_name, generate_api_vhost_settings, late_initialize_vhost, generate_vhost_observation,
  is_vhost_up_to_date,
}

abbrev pub err_not_vhost : Str
err_not_vhost = codes "managed resource is not a Vhost custom resource"

abbrev pub err_get_failed : Str
err_get_failed = codes "cannot get RabbitMq vhost"

abbrev pub err_create_failed : Str
err_create_failed = codes "cannot create RabbitMq vhost"

abbrev pub err_delete_failed : Str
err_delete_failed = codes "cannot delete RabbitMq vhost"

abbrev pub err_update_failed : Str
err_update_failed = codes "cannot update RabbitMq vhost"

module _ ⦃lib : Libraries⦄ {W : Type 0} where
  -- What `Observe` does with a vhost that exists and is its own.
  unfoldable pub observe_managed : Vhost → VhostInfo → M (State Vhost W) ExternalObservation
  observe_managed cr api = do
    let current = cr.for_provider
    let spec = late_initialize_vhost cr.for_provider (some api)
    put_cr (record cr {
      for_provider = spec;
      at_provider = generate_vhost_observation (some api);
      available = true;
    })
    pure (record {
      resource_exists = true;
      resource_up_to_date = is_vhost_up_to_date spec api;
      resource_late_initialized =
          not (lib.cmp_equal VhostParameters VhostParameters-discrete current spec);
    })

  unfoldable pub observe_answer : Vhost → Result VhostInfo → M (State Vhost W) ExternalObservation
  unfolding observe_managed
  observe_answer cr (err e) =
      if is_not_found_error e then pure does_not_exist else fail (wrap e err_get_failed)
  observe_answer cr (ok api) =
      if is_not_crossplane_managed cr.meta
      then fail (new_not_crossplane_managed_error (get_external_name cr))
      else observe_managed cr api

  module _ (client : RabbitMqClient W) where
    unfoldable pub observe : M (State Vhost W) ExternalObservation
    unfolding observe_answer
    observe = do
      cr ← cast err_not_vhost
      answer ← read (client.get_vhost (get_external_name cr))
      observe_answer cr answer

    unfoldable pub create : M (State Vhost W) (Unit {0})
    create = do
      cr ← cast err_not_vhost
      let name = get_external_name cr
      answer ←
          call (client.put_vhost name (generate_api_vhost_settings cr.for_provider.vhost_settings))
      resp ← or_wrap err_create_failed answer
      close_body
      put_cr (record cr { meta = set_crossplane_managed cr.meta name })

    unfoldable pub update : M (State Vhost W) (Unit {0})
    update = do
      cr ← cast err_not_vhost
      answer ← call (
          client.put_vhost (get_external_name cr)
            (generate_api_vhost_settings cr.for_provider.vhost_settings))
      resp ← or_wrap err_update_failed answer
      close_body

    unfoldable pub delete : M (State Vhost W) (Unit {0})
    delete = do
      cr ← cast err_not_vhost
      answer ← call (client.delete_vhost (get_external_name cr))
      resp ← or_wrap err_delete_failed answer
      close_body

    unfoldable pub disconnect : M (State Vhost W) (Unit {0})
    disconnect = pure tt
