-- ===== src/Binding.antt =====
-- internal/controller/namespaced/binding/binding.go: the external client of bindings, with the types
-- of apis/namespaced/core/v1alpha1/binding_types.go.
pub mod Types
pub mod Settings
pub mod Names
pub mod Agreement
pub mod Methods
pub mod Convergence
pub mod Deletion
pub mod External
mod Tests
use provider_rabbitmq.Prelude.{
  Bool, true, false, not, Option, none, some, List, [], ◌∷◌, Str, codes, if◌then◌else◌,
}
use provider_rabbitmq.Libraries.{Libraries}
use provider_rabbitmq.Meta.{
  set_crossplane_managed, is_not_crossplane_managed, new_not_crossplane_managed_error,
}
use provider_rabbitmq.Client.{RabbitMqClient}
use provider_rabbitmq.Client.Types.{Result, ok, err, Response, BindingInfo}
use provider_rabbitmq.Go.Error.{Error, new, wrap, foreign}
use provider_rabbitmq.Go.Split.{split}
use provider_rabbitmq.Go.Url.{path_unescape}
use provider_rabbitmq.Handler.{
  State, M, ◌>>=◌, ◌>>◌, pure, fail, or_wrap, cast, put_cr, read, call, close_body,
  ExternalObservation, does_not_exist,
}
use Types.{Binding, BindingParameters, BindingParameters-discrete}
use Settings.{
  get_external_name, generate_binding_info, generate_binding_observation, is_up_to_date,
  list_bindings, get_binding,
}

abbrev pub err_not_binding : Str
err_not_binding = codes "managed resource is not a Binding custom resource"

abbrev pub err_get_failed : Str
err_get_failed = codes "cannot get RabbitMq Binding"

abbrev pub err_create_failed : Str
err_create_failed = codes "cannot create new Binding"

abbrev pub err_delete_failed : Str
err_delete_failed = codes "cannot delete Binding"

abbrev pub error_update_not_supported : Str
error_update_not_supported = codes "Binding cannot be updated. Please, Try to recreate it"

-- The last part of a list that is not empty.
last_part : Str → List Str → Str
last_part d [] = d
last_part d (p ∷ ps) = last_part p ps

-- The ID in the `Location` header; none if it is not validly escaped.
unfoldable pub properties_key_of : Response → Option Str
unfolding last_part
properties_key_of resp = path_unescape (last_part [] (split b'/' resp.location))

module _ ⦃lib : Libraries⦄ {W : Type 0} where
  unfoldable pub observe_binding :
      Binding → Option BindingInfo → M (State Binding W) ExternalObservation
  observe_binding cr none = pure does_not_exist
  observe_binding cr (some binding) = do
    put_cr
        (record cr { at_provider = generate_binding_observation (some binding); available = true })
    pure (record {
      resource_exists = true;
      resource_up_to_date = is_up_to_date cr.for_provider binding;
      resource_late_initialized = not (
          lib.cmp_equal BindingParameters BindingParameters-discrete cr.for_provider
            cr.for_provider);
    })

  unfoldable pub observe_answer :
      Binding → Result (List BindingInfo) → M (State Binding W) ExternalObservation
  unfolding observe_binding
  observe_answer cr (err e) = fail (wrap e err_get_failed)
  observe_answer cr (ok []) = pure does_not_exist
  observe_answer cr (ok (b ∷ bindings)) =
      if is_not_crossplane_managed cr.meta
      then fail (new_not_crossplane_managed_error cr.meta.name)
      else observe_binding cr (get_binding (b ∷ bindings) cr)

  -- What follows the server's answer to a creation. The body is closed last.
  unfoldable pub finish_create : Binding → Option Str → M (State Binding W) (Unit {0})
  finish_create cr none = fail (wrap (foreign (codes "invalid URL escape")) err_create_failed)
  finish_create cr (some properties_key) = do
    put_cr (record cr {
      meta = set_crossplane_managed cr.meta (get_external_name cr.for_provider properties_key);
    })
    close_body

  module _ (client : RabbitMqClient W) where
    unfoldable pub observe : M (State Binding W) ExternalObservation
    observe = do
      cr ← cast err_not_binding
      answer ← read (
          list_bindings cr.for_provider.vhost cr.for_provider.source cr.for_provider.destination
            cr.for_provider.destination_type client)
      observe_answer cr answer

    unfoldable pub create : M (State Binding W) (Unit {0})
    create = do
      cr ← cast err_not_binding
      answer ←
          call
            (client.declare_binding cr.for_provider.vhost (generate_binding_info cr.for_provider))
      resp ← or_wrap err_create_failed answer
      finish_create cr (properties_key_of resp)

    unfoldable pub update : M (State Binding W) (Unit {0})
    update = fail (new error_update_not_supported)

    unfoldable pub delete : M (State Binding W) (Unit {0})
    delete = do
      cr ← cast err_not_binding
      let info = record (generate_binding_info cr.for_provider) {
        properties_key = cr.at_provider.properties_key;
      }
      answer ← call (client.delete_binding cr.for_provider.vhost info)
      resp ← or_wrap err_delete_failed answer
      close_body

    unfoldable pub disconnect : M (State Binding W) (Unit {0})
    disconnect = pure tt
