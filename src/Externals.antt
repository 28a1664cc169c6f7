-- ===== src/Externals.antt =====
-- The external clients as the reconciler sees them: the interface `managed.ExternalClient` with what
-- every implementation under internal/controller keeps to, and sequences of calls on it.
pub mod Laws
pub mod Kinds
pub mod Connected
pub mod Namespaced
pub mod Cluster
mod Tests
use provider_rabbitmq.Prelude.{◌≡◌, some}
use provider_rabbitmq.Handler.{State, M, final, ExternalObservation}
use provider_rabbitmq.Meta.{ObjectMeta}

-- `managed.ExternalClient`, for resources `Cr` and a server with the state `W`.
pub record External (Cr W : Type 0) : Type 0 where
  pub observe : M (State Cr W) ExternalObservation
  pub create : M (State Cr W) (Unit {0})
  pub update : M (State Cr W) (Unit {0})
  pub delete : M (State Cr W) (Unit {0})
  pub disconnect : M (State Cr W) (Unit {0})

-- What can happen between two states: a call, anything that others do to the server, or an edit of
-- the resource that leaves its metadata alone. `meta_of` is the metadata of a resource.
pub data Step {Cr W : Type 0} (x : External Cr W) (meta_of : Cr → ObjectMeta)
    : State Cr W → State Cr W → Type 0 where
  observing : (s : State Cr W) → Step x meta_of s (final (x.observe s))
  creating : (s : State Cr W) → Step x meta_of s (final (x.create s))
  updating : (s : State Cr W) → Step x meta_of s (final (x.update s))
  deleting : (s : State Cr W) → Step x meta_of s (final (x.delete s))
  disconnecting : (s : State Cr W) → Step x meta_of s (final (x.disconnect s))
  elsewhere : (s : State Cr W) (w : W) → Step x meta_of s (record s { world = w })
  edited :
      (s : State Cr W) (cr cr' : Cr)
      → s.cr ≡ some cr
      → meta_of cr' ≡ meta_of cr
      → Step x meta_of s (record s { cr = some cr' })

pub data Reaches {Cr W : Type 0} (x : External Cr W) (meta_of : Cr → ObjectMeta) (s : State Cr W)
    : State Cr W → Type 0 where
  here : Reaches x meta_of s s
  next : {t u : State Cr W} → Reaches x meta_of s t → Step x meta_of t u → Reaches x meta_of s u
