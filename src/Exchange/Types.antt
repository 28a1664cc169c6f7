-- ===== src/Exchange/Types.antt =====
-- apis/namespaced/core/v1alpha1/exchange_types.go. A nil map is none.
use native.Mathlib.Decide.{ℕ_discrete}
use provider_rabbitmq.Prelude.{Bool, Option, Str, StringMap}
use provider_rabbitmq.Meta.{ObjectMeta}

pub record ExchangeSettings : Type 0 where
  pub type : Option Str
  pub durable : Option Bool
  pub auto_delete : Option Bool
  pub arguments : Option StringMap

pub record ExchangeParameters : Type 0 where
  pub name : Option Str
  pub vhost : Str
  pub exchange_settings : Option ExchangeSettings

pub record ExchangeObservation : Type 0 where
  pub name : Str
  pub vhost : Str
  pub type : Str
  pub durable : Bool
  pub auto_delete : Bool
  pub arguments : StringMap

-- The custom resource; `available` says whether its Ready condition has been set.
pub record Exchange : Type 0 where
  pub meta : ObjectMeta
  pub for_provider : ExchangeParameters
  pub at_provider : ExchangeObservation
  pub available : Bool

pub ExchangeParameters-discrete : Discrete ExchangeParameters
ExchangeParameters-discrete = hlevel ℕ_discrete
