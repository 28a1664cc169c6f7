-- ===== src/Vhost/Convergence.antt =====
-- Whether a virtual host that was created is found up to date, and what becomes of its tags.
use mathlib.Core.Path.{subst}
use mathlib.Core.Option.{get_or}
use provider_rabbitmq.Prelude.{
  ◌≡◌, ◌≢◌, refl, sym, ◌∙◌, true, false, Option, none, some, List, [], Str, arith,
}
use provider_rabbitmq.Libraries.{Libraries, LibraryLaws}
use provider_rabbitmq.Meta.{
  is_crossplane_managed, is_not_crossplane_managed, set_crossplane_managed,
}
use provider_rabbitmq.Meta.Claims.{set_crossplane_managed-IsClaimed}
use provider_rabbitmq.Client.{RabbitMqClient}
use provider_rabbitmq.Client.Requests.{Asks-fill, Asks-fill_text}
use provider_rabbitmq.Client.Types.{Response, ok, VhostInfo, VhostSettings as ApiVhostSettings}
use provider_rabbitmq.Handler.{State, done, ExternalObservation}
use provider_rabbitmq.Vhost.{observe, observe_answer, create}
use provider_rabbitmq.Vhost.Agreement.{SettingsAgree, is_vhost_up_to_date_iff}
use provider_rabbitmq.Vhost.Methods.{create_done, created_state, observe-answer}
use provider_rabbitmq.Vhost.Settings.{
  get_external_name, generate_vhost_observation, generate_api_vhost_settings, late_initialize_vhost,
  late_initialize_settings, late_initialize_tags, empty_settings, is_vhost_up_to_date,
}
use provider_rabbitmq.Vhost.Types.{Vhost, VhostParameters, VhostSettings}

-- The server's answer shows the settings that were put. An empty queue type is for the server to
-- choose.
pub record Reflects (settings : ApiVhostSettings) (info : VhostInfo) : Type 0 where
  pub same_description : settings.description ≡ info.description
  pub same_tags : settings.tags ≡ info.tags
  pub same_default_queue_type :
      settings.default_queue_type ≢ [] → settings.default_queue_type ≡ info.default_queue_type
  pub same_tracing : settings.tracing ≡ info.tracing

-- A virtual host that was put is there, with those settings.
pub record VhostServer {W : Type 0} (client : RabbitMqClient W) : Type 0 where
  pub put :
      (name : Str) (settings : ApiVhostSettings) (w w' : W) (r : Response)
      → client.put_vhost name settings w ≡ (ok r, w')
      → (info : VhostInfo) × (client.get_vhost name w' ≡ ok info) × Reflects settings info

abbrev pub requested_queue_type : Option VhostSettings → Option Str
requested_queue_type none = none
requested_queue_type (some settings) = settings.default_queue_type

same_tags_kept : (t u : List Str) → t ≡ u → late_initialize_tags t u ≡ u
unfolding late_initialize_tags
same_tags_kept t u h = ground arith

settings_agree :
    (o : Option VhostSettings) (info : VhostInfo)
    → requested_queue_type o ≢ some []
    → Reflects (generate_api_vhost_settings o) info
    → SettingsAgree (some (late_initialize_settings (get_or o empty_settings) info)) info
unfolding generate_api_vhost_settings late_initialize_settings
settings_agree none info typed r = (refl, (refl, (refl, same_tags_kept [] info.tags r.same_tags)))
settings_agree (some q) info typed r = (
  Asks-fill q.description [] r.same_description,
  (
    Asks-fill_text q.default_queue_type typed r.same_default_queue_type,
    (Asks-fill q.tracing false r.same_tracing, same_tags_kept q.tags info.tags r.same_tags),
  ),
)

module _ ⦃lib : Libraries⦄ where
  up_to_date :
      (laws : LibraryLaws lib) (spec : VhostParameters) (info : VhostInfo)
      → requested_queue_type spec.vhost_settings ≢ some []
      → Reflects (generate_api_vhost_settings spec.vhost_settings) info
      → is_vhost_up_to_date (late_initialize_vhost spec (some info)) info ≡ true
  unfolding late_initialize_vhost
  up_to_date laws spec info typed r =
      (is_vhost_up_to_date_iff laws (late_initialize_vhost spec (some info)) info).1
        (settings_agree spec.vhost_settings info typed r)

-- The resource behind an observation that finds it.
abbrev pub observed : Vhost → VhostInfo → Vhost
observed cr info = record cr {
  for_provider = late_initialize_vhost cr.for_provider (some info);
  at_provider = generate_vhost_observation (some info);
  available = true;
}

module _ ⦃lib : Libraries⦄ {W : Type 0} where
  answer_ok :
      (s : State Vhost W) (cr : Vhost) (info : VhostInfo)
      → is_crossplane_managed cr.meta ≡ true
      → (o : ExternalObservation) × (s' : State Vhost W) × (observe_answer cr (ok info) s
          ≡ done o s')
        × (s' ≡ record s { cr = some (observed cr info) })
        × (o.resource_exists ≡ true)
        × (o.resource_up_to_date
            ≡ is_vhost_up_to_date (late_initialize_vhost cr.for_provider (some info)) info)
  unfolding observe_answer is_not_crossplane_managed
  answer_ok s cr info m = rw m (_, _, refl, refl, refl, refl)

  -- An observation of a managed vhost that the server has.
  pub observe_ok :
      (client : RabbitMqClient W) (s : State Vhost W) {cr : Vhost} {info : VhostInfo}
      → s.cr ≡ some cr
      → is_crossplane_managed cr.meta ≡ true
      → client.get_vhost (get_external_name cr) s.world ≡ ok info
      → (o : ExternalObservation) × (s' : State Vhost W) × (observe client s ≡ done o s')
        × (s' ≡ record s { cr = some (observed cr info) })
        × (o.resource_exists ≡ true)
        × (o.resource_up_to_date
            ≡ is_vhost_up_to_date (late_initialize_vhost cr.for_provider (some info)) info)
  observe_ok client s {cr} {info} h m e = rw (observe-answer client s h, e) (answer_ok s cr info m)

  -- The observation of a virtual host that is found up to date.
  abbrev pub Found : RabbitMqClient W → State Vhost W → Type 0
  Found client t =
      (o : ExternalObservation) × (t' : State Vhost W) × (observe client t ≡ done o t')
      × (o.resource_exists ≡ true)
      × (o.resource_up_to_date ≡ true)

  pub reflected-Found :
      (laws : LibraryLaws lib) (client : RabbitMqClient W) (t : State Vhost W) {cr : Vhost}
      {info : VhostInfo}
      → t.cr ≡ some cr
      → is_crossplane_managed cr.meta ≡ true
      → requested_queue_type cr.for_provider.vhost_settings ≢ some []
      → client.get_vhost (get_external_name cr) t.world ≡ ok info
      → Reflects (generate_api_vhost_settings cr.for_provider.vhost_settings) info
      → Found client t
  reflected-Found laws client t {cr} {info} h m typed got shown =
      let (o, t', ob, _, ex, up) = observe_ok client t h m got in
      (o, t', ob, ex, up ∙ up_to_date laws cr.for_provider info typed shown)

  -- On a server that stores what is put, after a successful creation of a virtual host whose
  -- requested queue type is not the empty text, an observation finds the virtual host, and finds
  -- it up to date.
  pub created_vhost_observed :
      (laws : LibraryLaws lib) {client : RabbitMqClient W} (server : VhostServer client)
      (s : State Vhost W) {s' : State Vhost W} {cr : Vhost}
      → s.cr ≡ some cr
      → requested_queue_type cr.for_provider.vhost_settings ≢ some []
      → create client s ≡ done tt s'
      → (o : ExternalObservation) × (s'' : State Vhost W) × (observe client s' ≡ done o s'')
        × (o.resource_exists ≡ true)
        × (o.resource_up_to_date ≡ true)
  unfolding set_crossplane_managed get_external_name
  created_vhost_observed laws {client} server s {s'} {cr} h typed created =
      let (r, w, e, same) = create_done client s h created in
      let (info, got, shown) =
        server.put (get_external_name cr)
          (generate_api_vhost_settings cr.for_provider.vhost_settings) s.world w r e in
      subst (Found client) (sym same) (
        reflected-Found laws client (created_state cr w s) refl
          (set_crossplane_managed-IsClaimed laws cr.meta (get_external_name cr)).0 typed got shown)
