-- ===== src/Client/Memory.antt =====
-- A small server to run the model on: one object of each kind, whatever its name.
use mathlib.Core.Option.{get_or}
use provider_rabbitmq.Go.Base64.{encode_to_string}
use provider_rabbitmq.Prelude.{
  ℕ, ◌%◌, Option, none, some, List, [], ◌∷◌, Str, codes, str_eq, if◌then◌else◌,
}
use provider_rabbitmq.Client.{RabbitMqClient}
use provider_rabbitmq.Client.Arguments.{decoded_map, value_of}
use provider_rabbitmq.Go.Value.{Value, string}
use provider_rabbitmq.Client.Types.{
  Result, ok, err, Response, Permissions, PermissionInfo, ExchangeSettings, DetailedExchangeInfo,
  VhostSettings, VhostInfo, UserSettings, UserInfo, BindingInfo, QueueSettings, DetailedQueueInfo,
}
use provider_rabbitmq.Go.Error.{Error, response}

pub record Memory : Type 0 where
  pub permissions : Option PermissionInfo
  pub exchange : Option DetailedExchangeInfo
  pub vhost : Option VhostInfo
  pub user : Option UserInfo
  pub bindings : List BindingInfo
  pub queue : Option DetailedQueueInfo

abbrev pub empty_memory : Memory
empty_memory = record {
  permissions = none;
  exchange = none;
  vhost = none;
  user = none;
  bindings = [];
  queue = none;
}

abbrev pub not_found : Error
not_found =
    response
      (record { status_code = 404; message = codes "Object Not Found"; reason = codes "Not Found" })

abbrev pub found : {A : Type 0} → Option A → Result A
found none = err not_found
found (some a) = ok a

abbrev pub answer : Memory → Result Response × Memory
answer w = (ok (record { location = [] }), w)

-- The type that the arguments of a queue name, or else the one that the server chooses.
abbrev pub named_type : Option Value → Str
named_type (some (string t)) = t
named_type _ = codes "classic"

abbrev pub queue_info : Str → Str → QueueSettings → DetailedQueueInfo
queue_info vhost name settings = record {
  name = name;
  vhost = vhost;
  type = named_type (value_of (codes "x-queue-type") (get_or settings.arguments []));
  durable = settings.durable;
  auto_delete = settings.auto_delete;
  arguments = decoded_map (get_or settings.arguments []);
}

abbrev pub exchange_info : Str → Str → ExchangeSettings → DetailedExchangeInfo
exchange_info vhost name settings = record {
  name = name;
  vhost = vhost;
  type = settings.type;
  durable = settings.durable;
  auto_delete = settings.auto_delete;
  arguments = decoded_map (get_or settings.arguments []);
}

abbrev pub vhost_info : Str → VhostSettings → VhostInfo
vhost_info name settings = record {
  name = name;
  description = settings.description;
  tags = settings.tags;
  default_queue_type = settings.default_queue_type;
  tracing = settings.tracing;
  messages = 0;
  messages_ready = 0;
  messages_unacknowledged = 0;
}

-- The low eight bits of each number.
abbrev pub password_bytes : List ℕ → List ℕ
password_bytes [] = []
password_bytes (b ∷ s) = b % 256 ∷ password_bytes s

-- What the server stores of a password: a salt of zeros, and the password's bytes in place of a sum.
unfoldable pub plain_sum : List ℕ → List ℕ
plain_sum (a ∷ b ∷ c ∷ d ∷ password) = password_bytes password
plain_sum _ = []

abbrev pub stored_hash : Str → Str
stored_hash password = encode_to_string (0 ∷ 0 ∷ 0 ∷ 0 ∷ password_bytes password)

abbrev pub user_info : Str → Str → UserSettings → UserInfo
user_info name hash settings = record {
  name = name;
  password_hash = hash;
  hashing_algorithm = codes "rabbit_password_hashing_sha256";
  tags = settings.tags;
}

abbrev pub permission_info : Str → Str → Permissions → PermissionInfo
permission_info vhost user p = record {
  user = user;
  vhost = vhost;
  configure = p.configure;
  write = p.write;
  read = p.read;
}

abbrev pub binding_info : Str → BindingInfo → BindingInfo
binding_info vhost info = record info {
  vhost = vhost;
  arguments = decoded_map info.arguments;
  properties_key = codes "~";
}

-- The bindings whose destination is of a kind.
unfoldable pub bindings_to : Str → List BindingInfo → List BindingInfo
bindings_to kind [] = []
bindings_to kind (b ∷ bindings) =
    let rest = bindings_to kind bindings in
    if str_eq b.destination_type kind then b ∷ rest else rest

abbrev pub memory_client : RabbitMqClient Memory
memory_client = record {
  update_permissions_in =
      λ vhost user p w. answer (record w { permissions = some (permission_info vhost user p) });
  get_permissions_in = λ vhost user w. found w.permissions;
  clear_permissions_in = λ vhost user w. answer (record w { permissions = none });
  get_exchange = λ vhost name w. found w.exchange;
  declare_exchange = λ vhost name settings w.
      answer (record w { exchange = some (exchange_info vhost name settings) });
  delete_exchange = λ vhost name w. answer (record w { exchange = none });
  get_vhost = λ name w. found w.vhost;
  put_vhost = λ name settings w. answer (record w { vhost = some (vhost_info name settings) });
  delete_vhost = λ name w. answer (record w { vhost = none });
  get_user = λ name w. found w.user;
  put_user = λ name settings w.
      answer (record w { user = some (user_info name (stored_hash settings.password) settings) });
  put_user_without_password =
      λ name settings w. answer (record w { user = some (user_info name [] settings) });
  delete_user = λ name w. answer (record w { user = none });
  list_queue_bindings_between = λ vhost source queue w. ok (bindings_to (codes "queue") w.bindings);
  list_exchange_bindings_between =
      λ vhost source destination w. ok (bindings_to (codes "exchange") w.bindings);
  declare_binding = λ vhost info w. (
    ok (record { location = codes "api/~" }),
    record w { bindings = binding_info vhost info ∷ w.bindings },
  );
  delete_binding = λ vhost info w. answer (record w { bindings = [] });
  list_bindings_in = λ vhost w. ok w.bindings;
  get_queue = λ vhost name w. found w.queue;
  declare_queue =
      λ vhost name settings w. answer (record w { queue = some (queue_info vhost name settings) });
  delete_queue = λ vhost name w. answer (record w { queue = none });
}
