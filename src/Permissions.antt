-- ===== src/Permissions.antt =====
-- internal/controller/namespaced/permissions/permissions.go: the external client of permissions, with the types of
-- apis/namespaced/core/v1alpha1/permissions_types.go.
pub mod Types
pub mod Settings
pub mod Agreement
pub mod Methods
pub mod Convergence
pub mod Updates
pub mod External
mod Tests
use provider_rabbitmq.Prelude.{
  Bool, true, false, not, Option, none, some, [], ◌∷◌, Str, codes, if◌then◌else◌,
}
use provider_rabbitmq.Libraries.{Libraries}
use provider_rabbitmq.Meta.{
  set_crossplane_managed, is_not_crossplane_managed, new_not_crossplane_managed_error,
}
use provider_rabbitmq.Client.{RabbitMqClient, is_not_found_error}
use provider_rabbitmq.Client.Types.{Result, ok, err, PermissionInfo}
use provider_rabbitmq.Go.Error.{Error, wrap}
use provider_rabbitmq.Handler.{
  State, M, ◌>>=◌, ◌>>◌, pure, fail, or_wrap, deref, cast, put_cr, read, call, close_body,
  ExternalObservation, does_not_exist,
}
use Types.{Permissions, PermissionsParameters, PermissionsParameters-discrete}
use Settings.{
  get_external_name, generate_permission_settings, late_initialize,
  generate_permissions_observation, is_up_to_date,
}

abbrev pub err_not_permissions : Str
err_not_permissions = codes "managed resource is not a Permissions custom resource"

abbrev pub err_get_failed : Str
err_get_failed = codes "cannot get RabbitMq User Permissions"

abbrev pub err_create_failed : Str
err_create_failed = codes "cannot create new User Permissions"

abbrev pub err_delete_failed : Str
err_delete_failed = codes "cannot delete User Permissions"

abbrev pub err_update_failed : Str
err_update_failed = codes "cannot update User Permissions"

module _ ⦃lib : Libraries⦄ {W : Type 0} where
  -- What `Observe` does with permissions that exist and are its own.
  unfoldable pub observe_managed :
      Permissions → PermissionInfo → M (State Permissions W) ExternalObservation
  observe_managed cr api = do
    let current = cr.for_provider
    let spec = late_initialize cr.for_provider (some api)
    put_cr (record cr {
      for_provider = spec;
      at_provider = generate_permissions_observation (some api);
      available = true;
    })
    up_to_date ← deref (is_up_to_date spec api)
    pure (record {
      resource_exists = true;
      resource_up_to_date = up_to_date;
      resource_late_initialized =
          not (lib.cmp_equal PermissionsParameters PermissionsParameters-discrete current spec);
    })

  unfoldable pub observe_answer :
      Permissions → Result PermissionInfo → M (State Permissions W) ExternalObservation
  unfolding observe_managed
  observe_answer cr (err e) =
      if is_not_found_error e then pure does_not_exist else fail (wrap e err_get_failed)
  observe_answer cr (ok api) =
      if is_not_crossplane_managed cr.meta
      then fail (new_not_crossplane_managed_error (get_external_name cr.for_provider))
      else observe_managed cr api

  module _ (client : RabbitMqClient W) where
    unfoldable pub observe : M (State Permissions W) ExternalObservation
    unfolding observe_answer
    observe = do
      cr ← cast err_not_permissions
      answer ← read (client.get_permissions_in cr.for_provider.vhost cr.for_provider.user)
      observe_answer cr answer

    unfoldable pub create : M (State Permissions W) (Unit {0})
    create = do
      cr ← cast err_not_permissions
      let name = get_external_name cr.for_provider
      user_perms ← deref (generate_permission_settings cr.for_provider.permission_settings)
      answer ←
          call (client.update_permissions_in cr.for_provider.vhost cr.for_provider.user user_perms)
      resp ← or_wrap err_create_failed answer
      close_body
      put_cr (record cr { meta = set_crossplane_managed cr.meta name })

    unfoldable pub update : M (State Permissions W) (Unit {0})
    update = do
      cr ← cast err_not_permissions
      user_perms ← deref (generate_permission_settings cr.for_provider.permission_settings)
      answer ←
          call (client.update_permissions_in cr.for_provider.vhost cr.for_provider.user user_perms)
      resp ← or_wrap err_update_failed answer
      close_body

    unfoldable pub delete : M (State Permissions W) (Unit {0})
    delete = do
      cr ← cast err_not_permissions
      answer ← call (client.clear_permissions_in cr.for_provider.vhost cr.for_provider.user)
      resp ← or_wrap err_delete_failed answer
      close_body

    unfoldable pub disconnect : M (State Permissions W) (Unit {0})
    disconnect = pure tt
