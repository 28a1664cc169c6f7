-- ===== src/User.antt =====
-- internal/controller/namespaced/user/user.go: the external client of users, with the types of
-- apis/namespaced/core/v1alpha1/user_types.go.
pub mod Types
pub mod Passwords
pub mod Settings
pub mod Agreement
pub mod Methods
pub mod Server
pub mod Convergence
pub mod Updates
pub mod External
mod Tests
use provider_rabbitmq.Prelude.{
  Bool, true, false, not, Option, none, some, [], ◌∷◌, Str, codes, str_eq, if◌then◌else◌,
}
use provider_rabbitmq.Libraries.{Libraries}
use provider_rabbitmq.Meta.{
  set_crossplane_managed, is_not_crossplane_managed, new_not_crossplane_managed_error,
}
use provider_rabbitmq.Client.{RabbitMqClient, is_not_found_error}
use provider_rabbitmq.Client.Types.{Result, Response, ok, err, UserInfo}
use provider_rabbitmq.Go.Error.{Error, wrap}
use provider_rabbitmq.Handler.{
  State, M, ◌>>=◌, ◌>>◌, pure, fail, or_wrap, cast, put_cr, read, call, close_body,
  ExternalObservation, does_not_exist,
}
use Types.{Bytes, User, UserParameters, UserParameters-discrete, KubeClient}
use Passwords.{Hashes, resolve_user_password}
use Settings.{
  get_external_name, generate_api_user_settings, late_initialize, generate_user_observation,
  is_up_to_date,
}

abbrev pub err_not_user : Str
err_not_user = codes "managed resource is not a User custom resource"

abbrev pub err_get_failed : Str
err_get_failed = codes "cannot get RabbitMq User"

abbrev pub err_create_failed : Str
err_create_failed = codes "cannot create RabbitMq user"

abbrev pub err_update_failed : Str
err_update_failed = codes "cannot update RabbitMq user"

abbrev pub err_delete_failed : Str
err_delete_failed = codes "cannot delete RabbitMq user"

-- The call of a creation and of an update.
unfoldable pub put_user : {W : Type 0} → RabbitMqClient W → User → Bytes → W → Result Response × W
put_user client cr [] =
    client.put_user_without_password (get_external_name cr)
      (generate_api_user_settings none cr.for_provider.user_settings)
put_user client cr (b ∷ password) =
    client.put_user (get_external_name cr)
      (generate_api_user_settings (some (b ∷ password)) cr.for_provider.user_settings)

module _ ⦃lib : Libraries⦄ ⦃h : Hashes⦄ {W : Type 0} (kube : KubeClient W) where
  -- What `Observe` does with a user that exists and is its own.
  unfoldable pub observe_managed : User → UserInfo → M (State User W) ExternalObservation
  observe_managed cr api = do
    let current = cr.for_provider
    let spec = late_initialize cr.for_provider (some api)
    put_cr (record cr {
      for_provider = spec;
      at_provider = generate_user_observation (some api);
      available = true;
    })
    resolved ← read (λ w. resolve_user_password kube w spec.user_settings)
    password ← or_wrap (codes "cannot resolve password") resolved
    pure (record {
      resource_exists = true;
      resource_up_to_date = is_up_to_date password spec api;
      resource_late_initialized =
          not (lib.cmp_equal UserParameters UserParameters-discrete current spec);
    })

  unfoldable pub observe_answer : User → Result UserInfo → M (State User W) ExternalObservation
  unfolding observe_managed
  observe_answer cr (err e) =
      if is_not_found_error e then pure does_not_exist else fail (wrap e err_get_failed)
  observe_answer cr (ok api) =
      if is_not_crossplane_managed cr.meta
      then fail (new_not_crossplane_managed_error (get_external_name cr))
      else observe_managed cr api

  module _ (client : RabbitMqClient W) where
    unfoldable pub observe : M (State User W) ExternalObservation
    unfolding observe_answer
    observe = do
      cr ← cast err_not_user
      answer ← read (client.get_user (get_external_name cr))
      observe_answer cr answer

    unfoldable pub create : M (State User W) (Unit {0})
    create = do
      cr ← cast err_not_user
      let name = get_external_name cr
      resolved ← read (λ w. resolve_user_password kube w cr.for_provider.user_settings)
      password ← or_wrap (codes "cannot determine password") resolved
      answer ← call (put_user client cr password)
      resp ← or_wrap err_create_failed answer
      close_body
      put_cr (record cr { meta = set_crossplane_managed cr.meta name })

    unfoldable pub update : M (State User W) (Unit {0})
    update = do
      cr ← cast err_not_user
      resolved ← read (λ w. resolve_user_password kube w cr.for_provider.user_settings)
      password ← or_wrap (codes "cannot determine password") resolved
      answer ← call (put_user client cr password)
      resp ← or_wrap err_update_failed answer
      close_body

    unfoldable pub delete : M (State User W) (Unit {0})
    delete = do
      cr ← cast err_not_user
      answer ← call (client.delete_user (get_external_name cr))
      resp ← or_wrap err_delete_failed answer
      close_body

    unfoldable pub disconnect : M (State User W) (Unit {0})
    disconnect = pure tt
