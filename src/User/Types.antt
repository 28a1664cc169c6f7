-- ===== src/User/Types.antt =====
-- apis/namespaced/core/v1alpha1/user_types.go, with the secrets that a user's settings point at.
-- A nil slice is the empty list. A password is the list of its bytes.
use native.Mathlib.Decide.{ℕ_discrete}
use provider_rabbitmq.Prelude.{ℕ, Bool, Option, List, Str}
use provider_rabbitmq.Client.Types.{Result}
use provider_rabbitmq.Meta.{ObjectMeta}

abbrev pub Bytes : Type 0
Bytes = List ℕ

-- `xpv1.SecretKeySelector`
pub record SecretKeySelector : Type 0 where
  pub name : Str
  pub namespace : Str
  pub key : Str

pub record UserSettings : Type 0 where
  pub password : Option Bytes
  pub password_secret_ref : Option SecretKeySelector
  pub tags : List Str

pub record UserParameters : Type 0 where
  pub username : Option Str
  pub user_settings : Option UserSettings

pub record UserObservation : Type 0 where
  pub username : Str
  pub hashing_algorithm : Str
  pub tags : List Str

-- The custom resource; `available` says whether its Ready condition has been set.
pub record User : Type 0 where
  pub meta : ObjectMeta
  pub for_provider : UserParameters
  pub at_provider : UserObservation
  pub available : Bool

pub UserParameters-discrete : Discrete UserParameters
UserParameters-discrete = hlevel ℕ_discrete

-- `kube.Get` of a secret by namespace and name: its `Data`, or an error. The secrets are a part of
-- the state `W`, which the call only reads.
pub record KubeClient (W : Type 0) : Type 0 where
  pub get_secret : Str → Str → W → Result (List (Str × Bytes))
