-- ===== src/Externals/Cluster.antt =====
-- internal/controller/cluster: the external clients of the six kinds of the cluster, whose methods are
-- the text of the kinds in a namespace, and their connectors.
use provider_rabbitmq.Prelude.{Option}
use provider_rabbitmq.Libraries.{Libraries}
use provider_rabbitmq.Client.{RabbitMqClient}
use provider_rabbitmq.Handler.{M, ◌>>=◌, pure}
use provider_rabbitmq.Connector.{Managed, Connections, connect_cluster}
use provider_rabbitmq.Externals.{External}
use provider_rabbitmq.Externals.Kinds.{
  ResourceKind, bindings, exchanges, permissions, queues, users, vhosts, Resource,
}
use provider_rabbitmq.User.Passwords.{Hashes}
use provider_rabbitmq.User.Types.{KubeClient}
use provider_rabbitmq.Binding
use provider_rabbitmq.Exchange
use provider_rabbitmq.Permissions
use provider_rabbitmq.Queue
use provider_rabbitmq.User
use provider_rabbitmq.Vhost
use provider_rabbitmq.Binding.Types.{Binding}
use provider_rabbitmq.Exchange.Types.{Exchange}
use provider_rabbitmq.Permissions.Types.{Permissions}
use provider_rabbitmq.Queue.Types.{Queue}
use provider_rabbitmq.User.Types.{User}
use provider_rabbitmq.Vhost.Types.{Vhost}

module _ ⦃lib : Libraries⦄ {W : Type 0} (client : RabbitMqClient W) where
  abbrev pub binding_external : External Binding W
  binding_external = record {
    observe = Binding.observe client;
    create = Binding.create client;
    update = Binding.update client;
    delete = Binding.delete client;
    disconnect = Binding.disconnect client;
  }

  abbrev pub exchange_external : External Exchange W
  exchange_external = record {
    observe = Exchange.observe client;
    create = Exchange.create client;
    update = Exchange.update client;
    delete = Exchange.delete client;
    disconnect = Exchange.disconnect client;
  }

  abbrev pub permissions_external : External Permissions W
  permissions_external = record {
    observe = Permissions.observe client;
    create = Permissions.create client;
    update = Permissions.update client;
    delete = Permissions.delete client;
    disconnect = Permissions.disconnect client;
  }

  abbrev pub queue_external : External Queue W
  queue_external = record {
    observe = Queue.observe client;
    create = Queue.create client;
    update = Queue.update client;
    delete = Queue.delete client;
    disconnect = Queue.disconnect client;
  }

  abbrev pub vhost_external : External Vhost W
  vhost_external = record {
    observe = Vhost.observe client;
    create = Vhost.create client;
    update = Vhost.update client;
    delete = Vhost.delete client;
    disconnect = Vhost.disconnect client;
  }

module _ ⦃lib : Libraries⦄ ⦃hashes : Hashes⦄ {W : Type 0} (kube : KubeClient W)
    (client : RabbitMqClient W) where
  abbrev pub user_external : External User W
  user_external = record {
    observe = User.observe kube client;
    create = User.create kube client;
    update = User.update kube client;
    delete = User.delete kube client;
    disconnect = User.disconnect kube client;
  }

module _ ⦃lib : Libraries⦄ ⦃hashes : Hashes⦄ {W V C : Type 0}
    (calls : Connections W C (RabbitMqClient V)) (kube : KubeClient V) where
  unfoldable pub binding_connect : Option Managed → M W (External Binding V)
  binding_connect mg = do
    svc ← connect_cluster calls Binding.err_not_binding mg
    pure (binding_external svc)

  unfoldable pub exchange_connect : Option Managed → M W (External Exchange V)
  exchange_connect mg = do
    svc ← connect_cluster calls Exchange.err_not_exchange mg
    pure (exchange_external svc)

  unfoldable pub permissions_connect : Option Managed → M W (External Permissions V)
  permissions_connect mg = do
    svc ← connect_cluster calls Permissions.err_not_permissions mg
    pure (permissions_external svc)

  unfoldable pub queue_connect : Option Managed → M W (External Queue V)
  queue_connect mg = do
    svc ← connect_cluster calls Queue.err_not_queue mg
    pure (queue_external svc)

  unfoldable pub user_connect : Option Managed → M W (External User V)
  user_connect mg = do
    svc ← connect_cluster calls User.err_not_user mg
    pure (user_external kube svc)

  unfoldable pub vhost_connect : Option Managed → M W (External Vhost V)
  vhost_connect mg = do
    svc ← connect_cluster calls Vhost.err_not_vhost mg
    pure (vhost_external svc)

  abbrev pub connect_of : (k : ResourceKind) → Option Managed → M W (External (Resource k) V)
  connect_of bindings = binding_connect
  connect_of exchanges = exchange_connect
  connect_of permissions = permissions_connect
  connect_of queues = queue_connect
  connect_of users = user_connect
  connect_of vhosts = vhost_connect
