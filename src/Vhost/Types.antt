-- ===== src/Vhost/Types.antt =====
-- apis/namespaced/core/v1alpha1/vhost_types.go. A nil slice is the empty list.
use native.Mathlib.Decide.{ℕ_discrete}
use provider_rabbitmq.Prelude.{ℕ, Bool, Option, List, Str}
use provider_rabbitmq.Meta.{ObjectMeta}

pub record VhostSettings : Type 0 where
  pub description : Option Str
  pub tags : List Str
  pub default_queue_type : Option Str
  pub tracing : Option Bool

pub record VhostParameters : Type 0 where
  pub host_name : Option Str
  pub vhost_settings : Option VhostSettings

pub record VhostObservation : Type 0 where
  pub name : Str
  pub description : Option Str
  pub default_queue_type : Option Str
  pub messages : ℕ
  pub messages_ready : ℕ
  pub messages_unacknowledged : ℕ

-- The custom resource; `available` says whether its Ready condition has been set.
pub record Vhost : Type 0 where
  pub meta : ObjectMeta
  pub for_provider : VhostParameters
  pub at_provider : VhostObservation
  pub available : Bool

pub VhostParameters-discrete : Discrete VhostParameters
VhostParameters-discrete = hlevel ℕ_discrete
