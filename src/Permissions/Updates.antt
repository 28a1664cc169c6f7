-- ===== src/Permissions/Updates.antt =====
-- Whether permissions that were updated are found up to date.
use mathlib.Core.Path.{subst}
use provider_rabbitmq.Prelude.{◌≡◌, sym, true, none, some, inl, inr, arith, Option-cases}
use provider_rabbitmq.Libraries.{Libraries, LibraryLaws}
use provider_rabbitmq.Meta.{is_crossplane_managed}
use provider_rabbitmq.Client.{RabbitMqClient}
use provider_rabbitmq.Client.Types.{Response, ok, err, Permissions as ApiPermissions}
use provider_rabbitmq.Go.Error.{Error, wrap}
use provider_rabbitmq.Handler.{
  State, done, failed, panicked, cast, call, Answer-cases, ExternalObservation,
}
use provider_rabbitmq.Permissions.{observe, update, err_update_failed}
use provider_rabbitmq.Permissions.Convergence.{PermissionsServer, Found, sent-Found}
use provider_rabbitmq.Permissions.Settings.{generate_permission_settings}
use provider_rabbitmq.Permissions.Types.{Permissions}

module _ ⦃lib : Libraries⦄ {W : Type 0} (client : RabbitMqClient W) where
  update_ok :
      (s : State Permissions W) {cr : Permissions} {p : ApiPermissions} {r : Response} {w : W}
      → s.cr ≡ some cr
      → generate_permission_settings cr.for_provider.permission_settings ≡ some p
      → client.update_permissions_in cr.for_provider.vhost cr.for_provider.user p s.world
        ≡ (ok r, w)
      → update client s ≡ done tt (record s { world = w })
  unfolding update cast call
  update_ok s same g e = ground arith

  update_err :
      (s : State Permissions W) {cr : Permissions} {p : ApiPermissions} {x : Error} {w : W}
      → s.cr ≡ some cr
      → generate_permission_settings cr.for_provider.permission_settings ≡ some p
      → client.update_permissions_in cr.for_provider.vhost cr.for_provider.user p s.world
        ≡ (err x, w)
      → update client s ≡ failed (wrap x err_update_failed) (record s { world = w })
  unfolding update cast call
  update_err s same g e = ground arith

  update_unset :
      (s : State Permissions W) {cr : Permissions}
      → s.cr ≡ some cr
      → generate_permission_settings cr.for_provider.permission_settings ≡ none
      → update client s ≡ panicked s
  unfolding update cast call
  update_unset s same g = ground arith

  update_done :
      (s : State Permissions W) {s' : State Permissions W} {cr : Permissions}
      → s.cr ≡ some cr
      → update client s ≡ done tt s'
      → (p : ApiPermissions) × (r : Response) × (w : W) × (generate_permission_settings
            cr.for_provider.permission_settings
          ≡ some p)
        × (client.update_permissions_in cr.for_provider.vhost cr.for_provider.user p s.world
            ≡ (ok r, w))
        × (s' ≡ record s { world = w })
  update_done s {s'} {cr} same updated =
      elim (Option-cases (generate_permission_settings cr.for_provider.permission_settings)) [
        | inl g ↦ absurd (cc (update_unset s same g))
        | inr (p, g) ↦
            elim (Answer-cases
              (client.update_permissions_in cr.for_provider.vhost cr.for_provider.user p s.world)) [
                | inl (r, w, e) ↦ (p, r, w, g, e, cc (update_ok s same g e))
                | inr (x, w, e) ↦ absurd (cc (update_err s same g e))
              ]
      ]

  -- On a server that stores what is sent, after a successful update of managed permissions an
  -- observation finds them, and finds them up to date, whatever the patterns were before.
  pub updated_permissions_observed :
      (laws : LibraryLaws lib) (server : PermissionsServer client) (s : State Permissions W)
      {s' : State Permissions W} {cr : Permissions}
      → s.cr ≡ some cr
      → is_crossplane_managed cr.meta ≡ true
      → update client s ≡ done tt s'
      → (o : ExternalObservation) × (s'' : State Permissions W) × (observe client s' ≡ done o s'')
        × (o.resource_exists ≡ true)
        × (o.resource_up_to_date ≡ true)
  updated_permissions_observed laws server s {s'} {cr} same m updated =
      let (p, r, w, g, e, state) = update_done s same updated in
      subst (Found client) (sym state)
        (sent-Found laws server (record s { world = w }) s.world same m g e)
