-- ===== src/Externals/Namespaced.antt =====
-- internal/controller/namespaced: the connectors of the six kinds, each with the external client that it returns.
use provider_rabbitmq.Prelude.{Option}
use provider_rabbitmq.Libraries.{Libraries}
use provider_rabbitmq.Client.{RabbitMqClient}
use provider_rabbitmq.Handler.{M, ◌>>=◌, pure}
use provider_rabbitmq.Connector.{Managed, Connections, connect}
use provider_rabbitmq.Externals.{External}
use provider_rabbitmq.Externals.Kinds.{
  ResourceKind, bindings, exchanges, permissions, queues, users, vhosts, Resource,
}
use provider_rabbitmq.User.Passwords.{Hashes}
use provider_rabbitmq.User.Types.{KubeClient}
use provider_rabbitmq.Binding.External.{binding_external}
use provider_rabbitmq.Exchange.External.{exchange_external}
use provider_rabbitmq.Permissions.External.{permissions_external}
use provider_rabbitmq.Queue.External.{queue_external}
use provider_rabbitmq.User.External.{user_external}
use provider_rabbitmq.Vhost.External.{vhost_external}
use provider_rabbitmq.Binding.{err_not_binding}
use provider_rabbitmq.Exchange.{err_not_exchange}
use provider_rabbitmq.Permissions.{err_not_permissions}
use provider_rabbitmq.Queue.{err_not_queue}
use provider_rabbitmq.User.{err_not_user}
use provider_rabbitmq.Vhost.{err_not_vhost}
use provider_rabbitmq.Binding.Types.{Binding}
use provider_rabbitmq.Exchange.Types.{Exchange}
use provider_rabbitmq.Permissions.Types.{Permissions}
use provider_rabbitmq.Queue.Types.{Queue}
use provider_rabbitmq.User.Types.{User}
use provider_rabbitmq.Vhost.Types.{Vhost}

module _ ⦃lib : Libraries⦄ ⦃hashes : Hashes⦄ {W V C : Type 0}
    (calls : Connections W C (RabbitMqClient V)) (kube : KubeClient V) where
  unfoldable pub binding_connect : Option Managed → M W (External Binding V)
  binding_connect mg = do svc ← connect calls err_not_binding mg; pure (binding_external svc)

  unfoldable pub exchange_connect : Option Managed → M W (External Exchange V)
  exchange_connect mg = do svc ← connect calls err_not_exchange mg; pure (exchange_external svc)

  unfoldable pub permissions_connect : Option Managed → M W (External Permissions V)
  permissions_connect mg = do
    svc ← connect calls err_not_permissions mg
    pure (permissions_external svc)

  unfoldable pub queue_connect : Option Managed → M W (External Queue V)
  queue_connect mg = do svc ← connect calls err_not_queue mg; pure (queue_external svc)

  unfoldable pub user_connect : Option Managed → M W (External User V)
  user_connect mg = do svc ← connect calls err_not_user mg; pure (user_external kube svc)

  unfoldable pub vhost_connect : Option Managed → M W (External Vhost V)
  vhost_connect mg = do svc ← connect calls err_not_vhost mg; pure (vhost_external svc)

  abbrev pub connect_of : (k : ResourceKind) → Option Managed → M W (External (Resource k) V)
  connect_of bindings = binding_connect
  connect_of exchanges = exchange_connect
  connect_of permissions = permissions_connect
  connect_of queues = queue_connect
  connect_of users = user_connect
  connect_of vhosts = vhost_connect
