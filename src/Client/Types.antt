-- ===== src/Client/Types.antt =====
-- The records of github.com/michaelklishin/rabbit-hole that the provider reads and writes, with
-- the fields that it uses. A nil slice is the empty list; so is a nil map in an answer.
use provider_rabbitmq.Prelude.{ℕ, Bool, Option, List, Str}
use provider_rabbitmq.Go.Value.{Value}
use provider_rabbitmq.Go.Error.{Error}

-- What a call returns: a value with a nil error, or an error.
pub data Result (A : Type 0) : Type 0 where
  ok : A → Result A
  err : Error → Result A

-- An http.Response, as far as it is read: its `Location` header.
pub record Response : Type 0 where
  pub location : Str

abbrev pub InterfaceMap : Type 0
InterfaceMap = List (Str × Value)

pub record Permissions : Type 0 where
  pub configure : Str
  pub write : Str
  pub read : Str

pub record PermissionInfo : Type 0 where
  pub user : Str
  pub vhost : Str
  pub configure : Str
  pub write : Str
  pub read : Str

pub record ExchangeSettings : Type 0 where
  pub type : Str
  pub durable : Bool
  pub auto_delete : Bool
  pub arguments : Option InterfaceMap

pub record DetailedExchangeInfo : Type 0 where
  pub name : Str
  pub vhost : Str
  pub type : Str
  pub durable : Bool
  pub auto_delete : Bool
  pub arguments : InterfaceMap

pub record VhostSettings : Type 0 where
  pub description : Str
  pub tags : List Str
  pub default_queue_type : Str
  pub tracing : Bool

pub record VhostInfo : Type 0 where
  pub name : Str
  pub description : Str
  pub tags : List Str
  pub default_queue_type : Str
  pub tracing : Bool
  pub messages : ℕ
  pub messages_ready : ℕ
  pub messages_unacknowledged : ℕ

pub record UserSettings : Type 0 where
  pub tags : List Str
  pub password : Str

-- `HashingAlgorithm` is a string type with two constants.
pub record UserInfo : Type 0 where
  pub name : Str
  pub password_hash : Str
  pub hashing_algorithm : Str
  pub tags : List Str

pub record BindingInfo : Type 0 where
  pub source : Str
  pub vhost : Str
  pub destination : Str
  pub destination_type : Str
  pub routing_key : Str
  pub arguments : InterfaceMap
  pub properties_key : Str

pub record QueueSettings : Type 0 where
  pub type : Str
  pub durable : Bool
  pub auto_delete : Bool
  pub arguments : Option InterfaceMap

pub record DetailedQueueInfo : Type 0 where
  pub name : Str
  pub vhost : Str
  pub type : Str
  pub durable : Bool
  pub auto_delete : Bool
  pub arguments : InterfaceMap
