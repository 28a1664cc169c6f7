-- ===== src/Permissions/Types.antt =====
-- apis/namespaced/core/v1alpha1/permissions_types.go.
use native.Mathlib.Decide.{ℕ_discrete}
use provider_rabbitmq.Prelude.{Bool, Option, Str}
use provider_rabbitmq.Meta.{ObjectMeta}

pub record PermissionSettings : Type 0 where
  pub configure : Str
  pub write : Str
  pub read : Str

pub record PermissionsParameters : Type 0 where
  pub user : Str
  pub vhost : Str
  pub permission_settings : Option PermissionSettings

pub record PermissionsObservation : Type 0 where
  pub user : Str
  pub vhost : Str
  pub configure : Str
  pub write : Str
  pub read : Str

-- The custom resource; `available` says whether its Ready condition has been set.
pub record Permissions : Type 0 where
  pub meta : ObjectMeta
  pub for_provider : PermissionsParameters
  pub at_provider : PermissionsObservation
  pub available : Bool

pub PermissionsParameters-discrete : Discrete PermissionsParameters
PermissionsParameters-discrete = hlevel ℕ_discrete
