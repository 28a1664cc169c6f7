-- ===== src/Queue/Types.antt =====
-- apis/namespaced/core/v1alpha1/queue_types.go. A nil map is none.
use native.Mathlib.Decide.{ℕ_discrete}
use provider_rabbitmq.Prelude.{Bool, Option, Str, StringMap}
use provider_rabbitmq.Meta.{ObjectMeta}

pub record QueueSettings : Type 0 where
  pub type : Option Str
  pub durable : Option Bool
  pub auto_delete : Option Bool
  pub arguments : Option StringMap

pub record QueueParameters : Type 0 where
  pub name : Option Str
  pub vhost : Str
  pub queue_settings : Option QueueSettings

pub record QueueObservation : Type 0 where
  pub name : Str
  pub vhost : Str
  pub type : Str
  pub durable : Bool
  pub auto_delete : Bool
  pub arguments : StringMap

-- The custom resource; `available` says whether its Ready condition has been set.
pub record Queue : Type 0 where
  pub meta : ObjectMeta
  pub for_provider : QueueParameters
  pub at_provider : QueueObservation
  pub available : Bool

pub QueueParameters-discrete : Discrete QueueParameters
QueueParameters-discrete = hlevel ℕ_discrete
