-- ===== src/Externals/Kinds.antt =====
-- The six kinds of resources, with the external client of each, and what every sequence of calls on it keeps.
use provider_rabbitmq.Prelude.{◌≡◌, ◌≢◌, refl}
use provider_rabbitmq.Libraries.{Libraries, LibraryLaws}
use provider_rabbitmq.Client.{RabbitMqClient}
use provider_rabbitmq.Handler.{State, final}
use provider_rabbitmq.Meta.{ObjectMeta}
use provider_rabbitmq.Externals.{External, Reaches}
use provider_rabbitmq.Externals.Laws.{ExternalLaws, WritingLaws, Reaches-open_bodies}
use provider_rabbitmq.User.Passwords.{Hashes}
use provider_rabbitmq.Binding.External.{binding_external, binding-ExternalLaws}
use provider_rabbitmq.Binding.Types.{Binding}
use provider_rabbitmq.Exchange.External.{
  exchange_external, exchange-ExternalLaws, exchange-WritingLaws,
}
use provider_rabbitmq.Exchange.Types.{Exchange}
use provider_rabbitmq.Permissions.External.{
  permissions_external, permissions-ExternalLaws, permissions-WritingLaws,
}
use provider_rabbitmq.Permissions.Types.{Permissions}
use provider_rabbitmq.Queue.External.{queue_external, queue-ExternalLaws, queue-WritingLaws}
use provider_rabbitmq.Queue.Types.{Queue}
use provider_rabbitmq.User.External.{user_external, user-ExternalLaws, user-WritingLaws}
use provider_rabbitmq.User.Types.{User, KubeClient}
use provider_rabbitmq.Vhost.External.{vhost_external, vhost-ExternalLaws, vhost-WritingLaws}
use provider_rabbitmq.Vhost.Types.{Vhost}

pub data ResourceKind : Type 0 where
  bindings : ResourceKind
  exchanges : ResourceKind
  permissions : ResourceKind
  queues : ResourceKind
  users : ResourceKind
  vhosts : ResourceKind

abbrev pub Resource : ResourceKind → Type 0
Resource bindings = Binding
Resource exchanges = Exchange
Resource permissions = Permissions
Resource queues = Queue
Resource users = User
Resource vhosts = Vhost

abbrev pub meta_of : (k : ResourceKind) → Resource k → ObjectMeta
meta_of bindings cr = cr.meta
meta_of exchanges cr = cr.meta
meta_of permissions cr = cr.meta
meta_of queues cr = cr.meta
meta_of users cr = cr.meta
meta_of vhosts cr = cr.meta

module _ ⦃lib : Libraries⦄ ⦃hashes : Hashes⦄ {W : Type 0} (kube : KubeClient W)
    (client : RabbitMqClient W) where
  abbrev pub external_of : (k : ResourceKind) → External (Resource k) W
  external_of bindings = binding_external client
  external_of exchanges = exchange_external client
  external_of permissions = permissions_external client
  external_of queues = queue_external client
  external_of users = user_external kube client
  external_of vhosts = vhost_external client

  pub external_of-ExternalLaws :
      LibraryLaws lib → (k : ResourceKind) → ExternalLaws (external_of k) (meta_of k)
  external_of-ExternalLaws laws bindings = binding-ExternalLaws client laws
  external_of-ExternalLaws laws exchanges = exchange-ExternalLaws client laws
  external_of-ExternalLaws laws permissions = permissions-ExternalLaws client laws
  external_of-ExternalLaws laws queues = queue-ExternalLaws client laws
  external_of-ExternalLaws laws users = user-ExternalLaws kube client laws
  external_of-ExternalLaws laws vhosts = vhost-ExternalLaws client laws

  external_of-WritingLaws : (k : ResourceKind) → k ≢ bindings → WritingLaws (external_of k)
  external_of-WritingLaws bindings other = absurd (other refl)
  external_of-WritingLaws exchanges other = exchange-WritingLaws client
  external_of-WritingLaws permissions other = permissions-WritingLaws client
  external_of-WritingLaws queues other = queue-WritingLaws client
  external_of-WritingLaws users other = user-WritingLaws kube client
  external_of-WritingLaws vhosts other = vhost-WritingLaws client

  -- For every kind but bindings, any sequence of observations, creations, updates, deletions and
  -- disconnections, of changes to the server by others and of edits of the resource that leave its
  -- metadata alone ends with as many response bodies open as there were before.
  pub open_bodies_kept :
      LibraryLaws lib
      → (k : ResourceKind) → k ≢ bindings
      → {s t : State (Resource k) W} → Reaches (external_of k) (meta_of k) s t
      → t.open_bodies ≡ s.open_bodies
  open_bodies_kept laws k other r =
      Reaches-open_bodies (external_of k) (meta_of k) (external_of-ExternalLaws laws k)
        (external_of-WritingLaws k other) r

  -- For every kind but bindings, a creation and an update from the same state leave the server in the
  -- same state, whichever way they end.
  pub create_writes_as_update :
      (k : ResourceKind)
      → k ≢ bindings
      → (s : State (Resource k) W)
      → (final ((external_of k).create s)).world ≡ (final ((external_of k).update s)).world
  create_writes_as_update k other s = (external_of-WritingLaws k other).create_as_update s
