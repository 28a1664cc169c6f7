-- ===== src/Binding/Types.antt =====
-- apis/namespaced/core/v1alpha1/binding_types.go. A nil map is none.
use native.Mathlib.Decide.{ℕ_discrete}
use provider_rabbitmq.Prelude.{Bool, Option, Str, StringMap}
use provider_rabbitmq.Meta.{ObjectMeta}

pub record BindingParameters : Type 0 where
  pub source : Str
  pub vhost : Str
  pub destination : Str
  pub destination_type : Str
  pub routing_key : Str
  pub arguments : Option StringMap

pub record BindingObservation : Type 0 where
  pub source : Str
  pub vhost : Str
  pub destination : Str
  pub destination_type : Str
  pub routing_key : Str
  pub properties_key : Str
  pub arguments : StringMap

-- The custom resource; `available` says whether its Ready condition has been set.
pub record Binding : Type 0 where
  pub meta : ObjectMeta
  pub for_provider : BindingParameters
  pub at_provider : BindingObservation
  pub available : Bool

pub BindingParameters-discrete : Discrete BindingParameters
BindingParameters-discrete = hlevel ℕ_discrete
