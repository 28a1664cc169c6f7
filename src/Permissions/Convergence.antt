-- ===== src/Permissions/Convergence.antt =====
-- Whether permissions that were created are found up to date.
use mathlib.Core.Path.{subst}
use mathlib.Core.Option.{get_or}
use provider_rabbitmq.Prelude.{◌≡◌, refl, sym, ◌∙◌, true, Option, none, some, Str, arith}
use provider_rabbitmq.Libraries.{Libraries, LibraryLaws}
use provider_rabbitmq.Meta.{
  is_crossplane_managed, is_not_crossplane_managed, set_crossplane_managed,
}
use provider_rabbitmq.Meta.Claims.{set_crossplane_managed-IsClaimed}
use provider_rabbitmq.Client.{RabbitMqClient}
use provider_rabbitmq.Client.Types.{Response, ok, PermissionInfo, Permissions as ApiPermissions}
use provider_rabbitmq.Handler.{State, done, ExternalObservation}
use provider_rabbitmq.Permissions.{observe, observe_answer, create}
use provider_rabbitmq.Permissions.Agreement.{PatternsAgree, settings_up_to_date_iff}
use provider_rabbitmq.Permissions.Methods.{create_done, created_state, observe-answer}
use provider_rabbitmq.Permissions.Settings.{
  get_external_name, generate_permissions_observation, generate_permission_settings,
  late_initialize, empty_settings, is_up_to_date, settings_up_to_date,
}
use provider_rabbitmq.Permissions.Types.{Permissions, PermissionSettings}

-- Permissions that were updated are there, with the three patterns.
pub record PermissionsServer {W : Type 0} (client : RabbitMqClient W) : Type 0 where
  pub updated :
      (vhost user : Str) (p : ApiPermissions) (w w' : W) (r : Response)
      → client.update_permissions_in vhost user p w ≡ (ok r, w')
      → (info : PermissionInfo) × (client.get_permissions_in vhost user w' ≡ ok info)
        × (p.configure ≡ info.configure)
        × (p.write ≡ info.write)
        × (p.read ≡ info.read)

written :
    (o : Option PermissionSettings) {p : ApiPermissions} (info : PermissionInfo)
    → generate_permission_settings o ≡ some p
    → p.configure ≡ info.configure
    → p.write ≡ info.write
    → p.read ≡ info.read
    → PatternsAgree (get_or o empty_settings) info
unfolding generate_permission_settings
written none info g c w r = absurd (cc)
written (some q) info g c w r = (ground arith, (ground arith, ground arith))

-- The resource behind an observation that finds it.
abbrev pub observed : Permissions → PermissionInfo → Permissions
observed cr info = record cr {
  for_provider = late_initialize cr.for_provider (some info);
  at_provider = generate_permissions_observation (some info);
  available = true;
}

module _ ⦃lib : Libraries⦄ {W : Type 0} where
  answer_ok :
      (s : State Permissions W) (cr : Permissions) (info : PermissionInfo)
      → is_crossplane_managed cr.meta ≡ true
      → (o : ExternalObservation) × (s' : State Permissions W) × (observe_answer cr (ok info) s
          ≡ done o s')
        × (s' ≡ record s { cr = some (observed cr info) })
        × (o.resource_exists ≡ true)
        × (o.resource_up_to_date
            ≡ settings_up_to_date (get_or cr.for_provider.permission_settings empty_settings) info)
  unfolding observe_answer is_not_crossplane_managed late_initialize is_up_to_date
  answer_ok s cr info m = rw m (_, _, refl, refl, refl, refl)

  -- An observation of a managed vhost that the server has.
  pub observe_ok :
      (client : RabbitMqClient W) (s : State Permissions W) {cr : Permissions}
      {info : PermissionInfo}
      → s.cr ≡ some cr
      → is_crossplane_managed cr.meta ≡ true
      → client.get_permissions_in cr.for_provider.vhost cr.for_provider.user s.world ≡ ok info
      → (o : ExternalObservation) × (s' : State Permissions W) × (observe client s ≡ done o s')
        × (s' ≡ record s { cr = some (observed cr info) })
        × (o.resource_exists ≡ true)
        × (o.resource_up_to_date
            ≡ settings_up_to_date (get_or cr.for_provider.permission_settings empty_settings) info)
  observe_ok client s {cr} {info} h m e = rw (observe-answer client s h, e) (answer_ok s cr info m)

  -- The observation of permissions that are found up to date.
  abbrev pub Found : RabbitMqClient W → State Permissions W → Type 0
  Found client t =
      (o : ExternalObservation) × (t' : State Permissions W) × (observe client t ≡ done o t')
      × (o.resource_exists ≡ true)
      × (o.resource_up_to_date ≡ true)

  -- What was sent for a spec is found up to date by a resource of that spec.
  pub sent-Found :
      (laws : LibraryLaws lib) {client : RabbitMqClient W} (server : PermissionsServer client)
      (t : State Permissions W) {cr : Permissions} {p : ApiPermissions} {r : Response} (w : W)
      → t.cr ≡ some cr
      → is_crossplane_managed cr.meta ≡ true
      → generate_permission_settings cr.for_provider.permission_settings ≡ some p
      → client.update_permissions_in cr.for_provider.vhost cr.for_provider.user p w
        ≡ (ok r, t.world)
      → Found client t
  sent-Found laws {client} server t {cr} {p} {r} w h m g e =
      let (info, got, c, wr, rd) =
        server.updated cr.for_provider.vhost cr.for_provider.user p w t.world r e in
      let (o, t', ob, _, ex, up) = observe_ok client t h m got in
      (
        o,
        t',
        ob,
        ex,
        up
            ∙ (settings_up_to_date_iff laws
                  (get_or cr.for_provider.permission_settings empty_settings) info).1
                (written cr.for_provider.permission_settings info g c wr rd),
      )

  -- On a server that stores what is sent, after a successful creation an observation finds the
  -- permissions, and finds them up to date.
  pub created_permissions_observed :
      (laws : LibraryLaws lib) {client : RabbitMqClient W} (server : PermissionsServer client)
      (s : State Permissions W) {s' : State Permissions W} {cr : Permissions}
      → s.cr ≡ some cr
      → create client s ≡ done tt s'
      → (o : ExternalObservation) × (s'' : State Permissions W) × (observe client s' ≡ done o s'')
        × (o.resource_exists ≡ true)
        × (o.resource_up_to_date ≡ true)
  unfolding set_crossplane_managed
  created_permissions_observed laws {client} server s {s'} {cr} h created =
      let (p, r, w, g, e, same) = create_done client s h created in
      subst (Found client) (sym same) (
        sent-Found laws server (created_state cr w s) s.world refl
          (set_crossplane_managed-IsClaimed laws cr.meta (get_external_name cr.for_provider)).0 g e)
