-- ===== src/Vhost/Tags.antt =====
-- What becomes of the tags of a virtual host's spec in an observation.
use mathlib.Core.Path.{subst}
use mathlib.Core.Option.{get_or}
use provider_rabbitmq.Prelude.{
  ◌≡◌, ◌≢◌, ◌↔◌, sym, ap, true, Option, none, some, List, [], Str, arith,
}
use provider_rabbitmq.Libraries.{Libraries, LibraryLaws}
use provider_rabbitmq.Meta.{is_crossplane_managed}
use provider_rabbitmq.Client.{RabbitMqClient}
use provider_rabbitmq.Client.Comparisons.{Asks}
use provider_rabbitmq.Client.Requests.{Asks-fill_iff}
use provider_rabbitmq.Client.Types.{ok, VhostInfo}
use provider_rabbitmq.Handler.{State, done, ExternalObservation}
use provider_rabbitmq.Vhost.{observe}
use provider_rabbitmq.Vhost.Agreement.{SettingsAgree, is_vhost_up_to_date_iff}
use provider_rabbitmq.Vhost.Settings.{
  get_external_name, late_initialize_vhost, late_initialize_settings, late_initialize_tags,
  empty_settings,
}
use provider_rabbitmq.Vhost.Types.{Vhost, VhostSettings}
use provider_rabbitmq.Vhost.Convergence.{observed, observe_ok}

replaced_tags : (t u : List Str) → t ≢ [] → u ≢ [] → late_initialize_tags t u ≡ u
unfolding late_initialize_tags
replaced_tags t u a b = ground arith

-- With tags on both sides only the other settings decide.
rest_agree :
    (o : Option VhostSettings) (q : VhostSettings) (info : VhostInfo)
    → o ≡ some q
    → q.tags ≢ []
    → info.tags ≢ []
    → SettingsAgree (some (late_initialize_settings (get_or o empty_settings) info)) info ↔ (
        Asks q.description info.description
        × (Asks q.default_queue_type info.default_queue_type × Asks q.tracing info.tracing))
unfolding late_initialize_settings
rest_agree none q info h t u = absurd (cc)
rest_agree (some p) q info h t u =
    let same : p ≡ q = cc in
    let (d, d') = Asks-fill_iff q.description info.description in
    let (k, k') = Asks-fill_iff q.default_queue_type info.default_queue_type in
    let (r, r') = Asks-fill_iff q.tracing info.tracing in
    rw same (
      (λ a. (d a.0, (k a.1.0, r a.1.1.0))),
      (λ a. (d' a.0, (k' a.1.0, (r' a.1.1, replaced_tags q.tags info.tags t u)))),
    )

module _ ⦃lib : Libraries⦄ {W : Type 0} where
  -- An observation undoes a change of the tags: for a managed virtual host that the server has,
  -- and whose spec and whose virtual host on the server both have tags, the tags of the spec are
  -- replaced by the server's, and the virtual host counts as up to date exactly if its other
  -- settings agree.
  pub vhost_tag_change_undone :
      (laws : LibraryLaws lib) (client : RabbitMqClient W) (s : State Vhost W) {cr : Vhost}
      {info : VhostInfo} {q : VhostSettings}
      → s.cr ≡ some cr
      → is_crossplane_managed cr.meta ≡ true
      → client.get_vhost (get_external_name cr) s.world ≡ ok info
      → cr.for_provider.vhost_settings ≡ some q
      → q.tags ≢ []
      → info.tags ≢ []
      → (o : ExternalObservation) × (s' : State Vhost W) × (observe client s ≡ done o s')
        × ((cr' : Vhost) × (q' : VhostSettings) × (s'.cr ≡ some cr')
            × (cr'.for_provider.vhost_settings ≡ some q')
            × (q'.tags ≡ info.tags))
        × ((o.resource_up_to_date ≡ true) ↔ (
            Asks q.description info.description
            × (Asks q.default_queue_type info.default_queue_type × Asks q.tracing info.tracing)))
  unfolding late_initialize_vhost late_initialize_settings
  vhost_tag_change_undone laws client s {cr} {info} {q} h m e has t u =
      let (o, s', ob, st, ex, up) = observe_ok client s h m e in
      (
        o,
        s',
        ob,
        (
          observed cr info,
          late_initialize_settings q info,
          ap (λ x. x.cr) st,
          filled cr.for_provider.vhost_settings has,
          replaced_tags q.tags info.tags t u,
        ),
        subst (λ b. (b ≡ true) ↔ Rest) (sym up)
            (let (to, from) =
                is_vhost_up_to_date_iff laws (late_initialize_vhost cr.for_provider (some info))
                  info in
              let (to', from') = rest_agree cr.for_provider.vhost_settings q info has t u in
              ((λ x. to' (to x)), (λ x. from (from' x)))),
      )
    where
      Rest : Type 0
      Rest =
          Asks q.description info.description
          × (Asks q.default_queue_type info.default_queue_type × Asks q.tracing info.tracing)

      filled :
          (x : Option VhostSettings)
          → x ≡ some q
          → ◌≡◌ {A = Option VhostSettings}
              (some (late_initialize_settings (get_or x empty_settings) info))
              (some (late_initialize_settings q info))
      filled x same = rw same
