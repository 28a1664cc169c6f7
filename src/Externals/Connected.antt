-- ===== src/Externals/Connected.antt =====
-- What is known of an external client that a connector of either scope returned.
use mathlib.Core.Path.{subst}
use provider_rabbitmq.Prelude.{◌≡◌, Option}
use provider_rabbitmq.Libraries.{Libraries, LibraryLaws}
use provider_rabbitmq.Client.{RabbitMqClient}
use provider_rabbitmq.Handler.{State, done, M, ◌>>=◌, pure, bind_done}
use provider_rabbitmq.Connector.{Managed, Connections, connect, connect_cluster}
use provider_rabbitmq.Binding.{err_not_binding}
use provider_rabbitmq.Exchange.{err_not_exchange}
use provider_rabbitmq.Permissions.{err_not_permissions}
use provider_rabbitmq.Queue.{err_not_queue}
use provider_rabbitmq.User.{err_not_user}
use provider_rabbitmq.Vhost.{err_not_vhost}
use provider_rabbitmq.Externals.{External, Reaches}
use provider_rabbitmq.Externals.Laws.{Claimed, ExternalLaws, Reaches-Claimed}
use provider_rabbitmq.Externals.Kinds.{
  ResourceKind, bindings, exchanges, permissions, queues, users, vhosts, Resource, meta_of,
  external_of, external_of-ExternalLaws,
}
use provider_rabbitmq.Externals.Namespaced
use provider_rabbitmq.Externals.Cluster
use provider_rabbitmq.User.Passwords.{Hashes}
use provider_rabbitmq.User.Types.{KubeClient}

pub data Scope : Type 0 where
  namespaced : Scope
  cluster : Scope

returned :
    {S A B : Type 0} (m : M S A) (f : A → B) (s s' : S) (b : B)
    → (m >>= λ a. pure (f a)) s ≡ done b s'
    → (a : A) × (f a ≡ b)
returned m f s s' b h =
    let (a, s1, first, last) = (bind_done m (λ a. pure (f a)) s s' b).0 h in (a, cc)

module _ ⦃lib : Libraries⦄ ⦃hashes : Hashes⦄ {W V C : Type 0}
    (calls : Connections W C (RabbitMqClient V)) (kube : KubeClient V) where
  abbrev pub connect_in :
      Scope → (k : ResourceKind) → Option Managed → M W (External (Resource k) V)
  connect_in namespaced = Namespaced.connect_of calls kube
  connect_in cluster = Cluster.connect_of calls kube

  connected :
      (scope : Scope) (k : ResourceKind) (mg : Option Managed) (w w' : W)
      (x : External (Resource k) V)
      → connect_in scope k mg w ≡ done x w'
      → (client : RabbitMqClient V) × (external_of kube client k ≡ x)
  unfolding Namespaced.binding_connect Namespaced.exchange_connect Namespaced.permissions_connect
      Namespaced.queue_connect Namespaced.user_connect Namespaced.vhost_connect
      Cluster.binding_connect Cluster.exchange_connect Cluster.permissions_connect
      Cluster.queue_connect Cluster.user_connect Cluster.vhost_connect
  connected namespaced bindings mg w w' x h = returned (connect calls err_not_binding mg) _ w w' x h
  connected namespaced exchanges mg w w' x h =
      returned (connect calls err_not_exchange mg) _ w w' x h
  connected namespaced permissions mg w w' x h =
      returned (connect calls err_not_permissions mg) _ w w' x h
  connected namespaced queues mg w w' x h = returned (connect calls err_not_queue mg) _ w w' x h
  connected namespaced users mg w w' x h = returned (connect calls err_not_user mg) _ w w' x h
  connected namespaced vhosts mg w w' x h = returned (connect calls err_not_vhost mg) _ w w' x h
  connected cluster bindings mg w w' x h =
      returned (connect_cluster calls err_not_binding mg) _ w w' x h
  connected cluster exchanges mg w w' x h =
      returned (connect_cluster calls err_not_exchange mg) _ w w' x h
  connected cluster permissions mg w w' x h =
      returned (connect_cluster calls err_not_permissions mg) _ w w' x h
  connected cluster queues mg w w' x h =
      returned (connect_cluster calls err_not_queue mg) _ w w' x h
  connected cluster users mg w w' x h = returned (connect_cluster calls err_not_user mg) _ w w' x h
  connected cluster vhosts mg w w' x h =
      returned (connect_cluster calls err_not_vhost mg) _ w w' x h

  -- If a connector of any kind, in a namespace or of the cluster, returned an external client, and
  -- the resource is marked as managed, then it stays marked through any sequence of calls on that
  -- client, of changes to the server by others, and of edits that leave its metadata alone.
  pub connected_claim_kept :
      (laws : LibraryLaws lib) (scope : Scope) (k : ResourceKind) (mg : Option Managed) (w w' : W)
      (x : External (Resource k) V)
      → connect_in scope k mg w ≡ done x w'
      → {s t : State (Resource k) V} → Reaches x (meta_of k) s t
      → Claimed (meta_of k) s
      → Claimed (meta_of k) t
  connected_claim_kept laws scope k mg w w' x h =
      let (client, e) = connected scope k mg w w' x h in
      Reaches-Claimed x (meta_of k)
        (subst (λ y. ExternalLaws y (meta_of k)) e (external_of-ExternalLaws kube client laws k))
