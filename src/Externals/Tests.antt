-- ===== src/Externals/Tests.antt =====
-- Calls on external clients that connectors returned, on the small server.
use provider_rabbitmq.Prelude.{
  ◌≡◌, ◌≢◌, refl, ℕ, false, some, none, [], ◌∷◌, Str, codes, str_eq, index, lookup,
}
use provider_rabbitmq.Libraries.{Libraries}
use provider_rabbitmq.Libraries.Plain.{plain_libraries, plain-LibraryLaws}
use provider_rabbitmq.Meta.{annotation_key_crossplane_managed, is_crossplane_managed}
use provider_rabbitmq.Client.{RabbitMqClient}
use provider_rabbitmq.Client.Memory.{Memory, empty_memory, memory_client}
use provider_rabbitmq.Client.Types.{ok}
use provider_rabbitmq.Connector.{
  Managed, RabbitMqCredentials, Connections, connect_cluster, service_of, new_client,
}
use provider_rabbitmq.Handler.{State, done, final}
use provider_rabbitmq.Externals.{Reaches, here, next, creating, deleting, elsewhere}
use provider_rabbitmq.Externals.Laws.{Claimed}
use provider_rabbitmq.Externals.Kinds.{
  queues, bindings, meta_of, external_of, open_bodies_kept, create_writes_as_update,
}
use provider_rabbitmq.Externals.Connected.{cluster, connect_in, connected_claim_kept}
use provider_rabbitmq.Externals.Cluster
use provider_rabbitmq.Queue.Types.{Queue}
use provider_rabbitmq.User.Passwords.{Hashes}
use provider_rabbitmq.User.Types.{KubeClient}

instance abbrev lib : Libraries
lib = plain_libraries

instance abbrev no_hashes : Hashes
no_hashes = record { sum256 = λ b. b; sum512 = λ b. b }

abbrev kube : KubeClient Memory
kube = record { get_secret = λ namespace name w. ok [] }

abbrev credentials : RabbitMqCredentials
credentials = record {
  username = codes "guest";
  password = codes "guest";
  endpoint = codes "http://rabbit";
}

abbrev memory_connections : Connections ℕ Str (RabbitMqClient Memory)
memory_connections = record {
  track = λ mg w. (ok tt, 1);
  get_provider_config = λ namespace name w. ok name;
  get_cluster_provider_config = λ name w. ok name;
  extract_credentials = λ cd w. ok cd;
  unmarshal = λ creds. ok (some credentials);
  new_rabbithole_client = λ endpoint username password. ok memory_client;
}

abbrev reference : Managed
reference = record {
  namespace = codes "shop";
  reference = some (record { kind = codes "ProviderConfig"; name = codes "default" });
}

abbrev orders : Queue
orders = record {
  meta = record {
    name = codes "orders";
    namespace = codes "shop";
    annotations = (annotation_key_crossplane_managed, codes "true") ∷ [];
  };
  for_provider = record { name = none; vhost = codes "/"; queue_settings = none };
  at_provider = record {
    name = [];
    vhost = [];
    type = [];
    durable = false;
    auto_delete = false;
    arguments = [];
  };
  available = false;
}

abbrev start : State Queue Memory
start = record { cr = some orders; world = empty_memory; open_bodies = 0 }

-- A creation, then the server loses the queue, then a deletion.
abbrev after_create : State Queue Memory
after_create = final ((external_of kube memory_client queues).create start)

abbrev after_loss : State Queue Memory
after_loss = record after_create { world = empty_memory }

abbrev after_delete : State Queue Memory
after_delete = final ((external_of kube memory_client queues).delete after_loss)

abbrev deleted : Reaches (external_of kube memory_client queues) (meta_of queues) start after_delete
deleted =
    next (next (next here (creating start)) (elsewhere after_create empty_memory))
      (deleting after_loss)

orders-Claimed : Claimed (meta_of queues) start
unfolding is_crossplane_managed index lookup str_eq
orders-Claimed = (orders, refl, refl)

queues_not_bindings : queues ≢ bindings
queues_not_bindings e = cc

returned_client :
    connect_in memory_connections kube cluster queues (some reference) 0
    ≡ done (external_of kube memory_client queues) 0
unfolding Cluster.queue_connect connect_cluster service_of new_client
returned_client = refl

connected_claim_kept_example : Claimed (meta_of queues) after_delete
connected_claim_kept_example =
    connected_claim_kept memory_connections kube plain-LibraryLaws cluster queues (some reference) 0
      0 (external_of kube memory_client queues) returned_client deleted orders-Claimed

open_bodies_kept_example : after_delete.open_bodies ≡ 0
open_bodies_kept_example =
    open_bodies_kept kube memory_client plain-LibraryLaws queues queues_not_bindings deleted

create_writes_as_update_example :
    (final ((external_of kube memory_client queues).create start)).world
    ≡ (final ((external_of kube memory_client queues).update start)).world
create_writes_as_update_example =
    create_writes_as_update kube memory_client queues queues_not_bindings start
