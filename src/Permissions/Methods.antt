-- ===== src/Permissions/Methods.antt =====
-- What the methods of the permissions' external client do to the resource, the server and the bodies.
use provider_rabbitmq.Prelude.{
  ◌≡◌, ◌≢◌, ◌↔◌, refl, true, false, Option, none, some, arith, Bool-cases, Option-cases, inl, inr,
}
use provider_rabbitmq.Libraries.{Libraries, LibraryLaws}
use provider_rabbitmq.Meta.{
  is_crossplane_managed, is_not_crossplane_managed, set_crossplane_managed,
}
use provider_rabbitmq.Meta.Claims.{IsClaimed, set_crossplane_managed-IsClaimed}
use provider_rabbitmq.Client.{RabbitMqClient, is_not_found_error}
use provider_rabbitmq.Client.Types.{
  Result, Response, ok, err, PermissionInfo, Permissions as ApiPermissions,
}
use provider_rabbitmq.Go.Error.{Error, wrap}
use provider_rabbitmq.Handler.{
  Untouched, State, Run, done, failed, panicked, final, Answer-cases, cast, call,
  ExternalObservation,
}
use provider_rabbitmq.Permissions.{
  observe, observe_answer, create, update, delete, err_create_failed,
}
use provider_rabbitmq.Permissions.Settings.{
  get_external_name, generate_permission_settings, late_initialize, is_up_to_date,
}
use provider_rabbitmq.Permissions.Types.{Permissions, PermissionSettings}

-- How a creation ends: the resource is claimed and no other part of it changed, or it is untouched
-- and the error is a wrapped one of the server.
abbrev pub CreateOutcome :
    {W : Type 0} → Permissions → Run (State Permissions W) (Unit {0}) → Type 0
CreateOutcome cr (done _ s) =
    (cr' : Permissions) × (s.cr ≡ some cr')
    × IsClaimed cr'.meta (get_external_name cr.for_provider)
    × (cr'.for_provider ≡ cr.for_provider)
CreateOutcome cr (failed e s) =
    (s.cr ≡ some cr) × ((cause : Error) × (e ≡ wrap cause err_create_failed))
CreateOutcome cr (panicked s) = (s.cr ≡ some cr) × (cr.for_provider.permission_settings ≡ none)

-- The state behind a successful creation.
abbrev pub created_state :
    ⦃lib : Libraries⦄ {W : Type 0} → Permissions → W → State Permissions W → State Permissions W
created_state cr w s = record {
  cr =
      some
        (record cr { meta = set_crossplane_managed cr.meta (get_external_name cr.for_provider) });
  world = w;
  open_bodies = s.open_bodies;
}

module _ ⦃lib : Libraries⦄ {W : Type 0} (client : RabbitMqClient W) where
  pub observe-answer :
      (s : State Permissions W) {cr : Permissions}
      → s.cr ≡ some cr
      → observe client s
        ≡ observe_answer cr
            (client.get_permissions_in cr.for_provider.vhost cr.for_provider.user s.world)
            s
  unfolding observe cast
  observe-answer s h = ground arith

  answer_unmanaged :
      (s : State Permissions W) (cr : Permissions) (a : Result PermissionInfo)
      → is_crossplane_managed cr.meta ≡ false
      → Untouched s (observe_answer cr a s)
  unfolding observe_answer is_not_crossplane_managed
  answer_unmanaged s cr (err e) u = elim (Bool-cases (is_not_found_error e)) [
    | inl missing ↦ rw missing (refl, refl)
    | inr other ↦ rw other refl
  ]
  answer_unmanaged s cr (ok api) u = rw u refl

  -- Permissions that are not marked as managed are never changed by an observation, whatever the server
  -- answers, and are not reported as existing.
  pub observe_unmanaged_permissions :
      (s : State Permissions W) {cr : Permissions}
      → s.cr ≡ some cr
      → is_crossplane_managed cr.meta ≡ false
      → Untouched s (observe client s)
  observe_unmanaged_permissions s {cr} h u = rw (observe-answer s h) (answer_unmanaged s cr _ u)

  -- Observing writes nothing to the server, leaves no response body open and never panics.
  pub observe_permissions_reads :
      (s t : State Permissions W)
      → ((final (observe client s)).world ≡ s.world)
        × ((final (observe client s)).open_bodies ≡ s.open_bodies)
        × (observe client s ≢ panicked t)
  unfolding observe cast late_initialize is_up_to_date
  observe_permissions_reads s t = (ground arith, ground arith, ground arith)

  answer_exists_iff :
      (s : State Permissions W) (cr : Permissions) (a : Result PermissionInfo)
      → ((o : ExternalObservation) × (s' : State Permissions W) × (observe_answer cr a s
            ≡ done o s')
          × (o.resource_exists ≡ true))
        ↔ ((api : PermissionInfo) × (a ≡ ok api) × (is_crossplane_managed cr.meta ≡ true))
  unfolding observe_answer is_not_crossplane_managed late_initialize is_up_to_date
  answer_exists_iff s cr (err e) =
      ((λ (o, s', q, x). absurd (ground arith)), (λ (api, q, m). absurd (cc)))
  answer_exists_iff s cr (ok api) =
      ((λ (o, s', q, x). (api, refl, ground arith)), (λ (api', q, m). rw m (_, _, refl, refl)))

  -- An observation reports that the permissions exist exactly if the server has them and they are managed.
  pub permissions_exists_iff :
      (s : State Permissions W) {cr : Permissions}
      → s.cr ≡ some cr
      → ((o : ExternalObservation) × (s' : State Permissions W) × (observe client s ≡ done o s')
          × (o.resource_exists ≡ true))
        ↔ ((api : PermissionInfo) × (client.get_permissions_in cr.for_provider.vhost
                cr.for_provider.user s.world
              ≡ ok api)
            × (is_crossplane_managed cr.meta ≡ true))
  permissions_exists_iff s {cr} h = rw (observe-answer s h) (
      answer_exists_iff s cr
        (client.get_permissions_in cr.for_provider.vhost cr.for_provider.user s.world))

  -- Creating, updating and deleting close the body of the answer, on every path.
  pub permissions_bodies_closed :
      (s : State Permissions W)
      → ((final (create client s)).open_bodies ≡ s.open_bodies)
        × ((final (update client s)).open_bodies ≡ s.open_bodies)
        × ((final (delete client s)).open_bodies ≡ s.open_bodies)
  unfolding create update delete cast call
  permissions_bodies_closed s = (ground arith, ground arith, ground arith)

  -- Updating and deleting leave the resource itself as it is.
  pub resource_kept :
      (s : State Permissions W)
      → ((final (update client s)).cr ≡ s.cr) × ((final (delete client s)).cr ≡ s.cr)
  unfolding update delete cast call
  resource_kept s = (ground arith, ground arith)

  -- The ends of a creation, by the settings and by the server's answer.
  create_ok :
      (s : State Permissions W) {cr : Permissions} {p : ApiPermissions} {r : Response} {w : W}
      → s.cr ≡ some cr
      → generate_permission_settings cr.for_provider.permission_settings ≡ some p
      → client.update_permissions_in cr.for_provider.vhost cr.for_provider.user p s.world
        ≡ (ok r, w)
      → create client s ≡ done tt (created_state cr w s)
  unfolding create cast call
  create_ok s h g e = ground arith

  create_err :
      (s : State Permissions W) {cr : Permissions} {p : ApiPermissions} {x : Error} {w : W}
      → s.cr ≡ some cr
      → generate_permission_settings cr.for_provider.permission_settings ≡ some p
      → client.update_permissions_in cr.for_provider.vhost cr.for_provider.user p s.world
        ≡ (err x, w)
      → create client s ≡ failed (wrap x err_create_failed) (record s { world = w })
  unfolding create cast call
  create_err s h g e = ground arith

  -- If the settings are missing, a creation and an update both panic, with the resource and the
  -- server as they were.
  pub nil_settings_panic :
      (s : State Permissions W) {cr : Permissions}
      → s.cr ≡ some cr
      → cr.for_provider.permission_settings ≡ none
      → (create client s ≡ panicked s) × (update client s ≡ panicked s)
  unfolding create update cast call generate_permission_settings
  nil_settings_panic s h g = (ground arith, ground arith)

  no_settings : (o : Option PermissionSettings) → generate_permission_settings o ≡ none → o ≡ none
  unfolding generate_permission_settings
  no_settings o h = ground arith

  pub create_done :
      (s : State Permissions W) {s' : State Permissions W} {cr : Permissions}
      → s.cr ≡ some cr
      → create client s ≡ done tt s'
      → (p : ApiPermissions) × (r : Response) × (w : W) × (generate_permission_settings
            cr.for_provider.permission_settings
          ≡ some p)
        × (client.update_permissions_in cr.for_provider.vhost cr.for_provider.user p s.world
            ≡ (ok r, w))
        × (s' ≡ created_state cr w s)
  create_done s {s'} {cr} h created =
      elim (Option-cases (generate_permission_settings cr.for_provider.permission_settings)) [
        | inl g ↦ absurd (cc ((nil_settings_panic s h (no_settings _ g)).0))
        | inr (p, g) ↦
            elim (Answer-cases
              (client.update_permissions_in cr.for_provider.vhost cr.for_provider.user p s.world)) [
                | inl (r, w, e) ↦ (p, r, w, g, e, cc (create_ok s h g e))
                | inr (x, w, e) ↦ absurd (cc (create_err s h g e))
              ]
      ]

  -- A creation claims the permissions under their external name, and keeps their desired state; or
  -- it fails with the server's error in a wrapping and leaves the resource as it was; or it panics
  -- with the resource as it was, on missing settings only.
  pub create_permissions_outcome :
      (laws : LibraryLaws lib) (s : State Permissions W) {cr : Permissions}
      → s.cr ≡ some cr
      → CreateOutcome cr (create client s)
  create_permissions_outcome laws s {cr} h =
      elim (Option-cases (generate_permission_settings cr.for_provider.permission_settings)) [
        | inl g ↦ rw ((nil_settings_panic s h (no_settings _ g)).0) (h, no_settings _ g)
        | inr (p, g) ↦
            elim (Answer-cases
              (client.update_permissions_in cr.for_provider.vhost cr.for_provider.user p s.world)) [
                | inl (r, w, e) ↦ rw (create_ok s h g e) (
                  _,
                  refl,
                  set_crossplane_managed-IsClaimed laws cr.meta (get_external_name cr.for_provider),
                  refl,
                )
                | inr (x, w, e) ↦ rw (create_err s h g e) (h, (x, refl))
              ]
      ]
