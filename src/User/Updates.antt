-- ===== src/User/Updates.antt =====
-- Whether a user that was updated is found up to date.
use mathlib.Core.Path.{subst}
use provider_rabbitmq.Prelude.{◌≡◌, sym, ◌∙◌, true, some, inl, inr, arith}
use provider_rabbitmq.Libraries.{Libraries, LibraryLaws}
use provider_rabbitmq.Meta.{is_crossplane_managed}
use provider_rabbitmq.Client.{RabbitMqClient}
use provider_rabbitmq.Client.Types.{Response, ok, err}
use provider_rabbitmq.Go.Error.{Error, wrap}
use provider_rabbitmq.Handler.{
  State, done, failed, cast, call, Answer-cases, Result-cases, ExternalObservation,
}
use provider_rabbitmq.User.{observe, put_user, update, err_update_failed}
use provider_rabbitmq.User.Convergence.{accepted}
use provider_rabbitmq.User.Methods.{observe_ok, unresolved_stops}
use provider_rabbitmq.User.Passwords.{Hashes, resolve_user_password}
use provider_rabbitmq.User.Server.{UserServer, Stored, put_user-Stored}
use provider_rabbitmq.User.Types.{Bytes, User, KubeClient}

module _ ⦃lib : Libraries⦄ ⦃h : Hashes⦄ {W : Type 0} (kube : KubeClient W)
    (client : RabbitMqClient W) where
  update_ok :
      (s : State User W) {cr : User} {password : Bytes} {r : Response} {w : W}
      → s.cr ≡ some cr
      → resolve_user_password kube s.world cr.for_provider.user_settings ≡ ok password
      → put_user client cr password s.world ≡ (ok r, w)
      → update kube client s ≡ done tt (record s { world = w })
  unfolding update cast call
  update_ok s same p e = ground arith

  update_err :
      (s : State User W) {cr : User} {password : Bytes} {x : Error} {w : W}
      → s.cr ≡ some cr
      → resolve_user_password kube s.world cr.for_provider.user_settings ≡ ok password
      → put_user client cr password s.world ≡ (err x, w)
      → update kube client s ≡ failed (wrap x err_update_failed) (record s { world = w })
  unfolding update cast call
  update_err s same p e = ground arith

  update_done :
      (s : State User W) {s' : State User W} {cr : User}
      → s.cr ≡ some cr
      → update kube client s ≡ done tt s'
      → (password : Bytes) × (r : Response) × (w : W) × (resolve_user_password kube s.world
            cr.for_provider.user_settings
          ≡ ok password)
        × (put_user client cr password s.world ≡ (ok r, w))
        × (s' ≡ record s { world = w })
  update_done s {s'} {cr} same updated =
      elim (Result-cases (resolve_user_password kube s.world cr.for_provider.user_settings)) [
        | inl (password, p) ↦ elim (Answer-cases (put_user client cr password s.world)) [
          | inl (r, w, e) ↦ (password, r, w, p, e, cc (update_ok s same p e))
          | inr (x, w, e) ↦ absurd (cc (update_err s same p e))
        ]
        | inr (x, p) ↦ absurd (cc ((unresolved_stops kube client s same p).1))
      ]

  -- On a server that stores the tags and a salted SHA-256 sum of the password, and leaves the
  -- secrets of the cluster alone, after a successful update of a managed user an observation finds
  -- the user, and finds it up to date, whatever its password and its tags were before.
  pub updated_user_observed :
      (laws : LibraryLaws lib) (server : UserServer kube client) (s : State User W)
      {s' : State User W} {cr : User}
      → s.cr ≡ some cr
      → is_crossplane_managed cr.meta ≡ true
      → update kube client s ≡ done tt s'
      → (o : ExternalObservation) × (s'' : State User W) × (observe kube client s' ≡ done o s'')
        × (o.resource_exists ≡ true)
        × (o.resource_up_to_date ≡ true)
  updated_user_observed laws server s {s'} {cr} same m updated =
      let (password, r, w, p, e, state) = update_done s same updated in
      subst Found (sym state)
        (found password w (put_user-Stored server cr password s.world w r p e))
    where
      Found : State User W → Type 0
      Found t =
          (o : ExternalObservation) × (t' : State User W) × (observe kube client t ≡ done o t')
          × (o.resource_exists ≡ true)
          × (o.resource_up_to_date ≡ true)

      found :
          (password : Bytes) (w : W) → Stored server cr password w → Found (record s { world = w })
      found password w (info, got, tags, same_hash, p) =
          let (o, t, ob, _, ex, up) =
            observe_ok kube client (record s { world = w }) same m got p in
          (o, t, ob, ex, up ∙ (accepted laws password cr.for_provider info tags).1 same_hash)
