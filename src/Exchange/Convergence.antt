-- ===== src/Exchange/Convergence.antt =====
-- Whether a exchange that was created is found up to date: the settings that are written, the
-- server's answer, and the comparison, together.
use mathlib.Core.Path.{subst}
use mathlib.Core.Option
use mathlib.Core.Option.{get_or}
use provider_rabbitmq.Prelude.{
  ◌≡◌, ◌↔◌, refl, sym, true, false, Option, none, some, [], Str, StringMap,
}
use provider_rabbitmq.Libraries.{Libraries, LibraryLaws}
use provider_rabbitmq.Meta.{
  is_crossplane_managed, is_not_crossplane_managed, set_crossplane_managed,
}
use provider_rabbitmq.Meta.Claims.{set_crossplane_managed-IsClaimed}
use provider_rabbitmq.Client.{RabbitMqClient}
use provider_rabbitmq.Client.Arguments.{
  decoded_map, AllSurvive, AllExact, ExactMap, AllExact-converted,
}
use provider_rabbitmq.Client.Requests.{Asks-written, written_arguments_or}
use provider_rabbitmq.Client.Types.{
  Response, ok, DetailedExchangeInfo, ExchangeSettings as ApiExchangeSettings,
}
use provider_rabbitmq.Client.Utilities.{or_empty, convert_string_map_to_interface_map}
use provider_rabbitmq.Handler.{State, done, ExternalObservation}
use provider_rabbitmq.Exchange.{observe, observe_answer, create}
use provider_rabbitmq.Exchange.Agreement.{SettingsAgree, is_exchange_up_to_date_iff}
use provider_rabbitmq.Exchange.Methods.{create_done, created_state, observe-answer}
use provider_rabbitmq.Exchange.Settings.{
  get_external_name, generate_exchange_observation, generate_exchange_settings, late_initialize,
  empty_settings, exchange_default_type, is_up_to_date,
}
use provider_rabbitmq.Exchange.Types.{Exchange, ExchangeParameters, ExchangeSettings}

-- The server's answer shows the settings that were declared. Numbers among the arguments come back as decoded JSON.
pub record Reflects (settings : ApiExchangeSettings) (info : DetailedExchangeInfo) : Type 0 where
  pub same_type : settings.type ≡ info.type
  pub same_durable : settings.durable ≡ info.durable
  pub same_auto_delete : settings.auto_delete ≡ info.auto_delete
  pub same_arguments : info.arguments ≡ decoded_map (get_or settings.arguments [])

-- A exchange that was declared is there, with those settings.
pub record ExchangeServer {W : Type 0} (client : RabbitMqClient W) : Type 0 where
  pub declared :
      (vhost name : Str) (settings : ApiExchangeSettings) (w w' : W) (r : Response)
      → client.declare_exchange vhost name settings w ≡ (ok r, w')
      → ExactMap (get_or settings.arguments [])
      → (info : DetailedExchangeInfo) × (client.get_exchange vhost name w' ≡ ok info)
        × Reflects settings info

-- What a spec asks for.
abbrev pub requested_arguments : Option ExchangeSettings → StringMap
requested_arguments none = []
requested_arguments (some settings) = or_empty settings.arguments

-- After late initialization the settings agree exactly when the arguments survive the round trip.
settings_agree :
    (o : Option ExchangeSettings) (info : DetailedExchangeInfo)
    → Reflects (generate_exchange_settings o) info
    → SettingsAgree (some (get_or o empty_settings)) info ↔ AllSurvive (requested_arguments o)
unfolding generate_exchange_settings or_empty
settings_agree none info r = (
  (λ _. tt),
  (λ _. (tt, (tt, (tt, (written_arguments_or none info.arguments r.same_arguments).1 tt)))),
)
settings_agree (some q) info r =
    let (to, from) = written_arguments_or q.arguments info.arguments r.same_arguments in
    (
      (λ h. to h.1.1.1),
      (λ s. (
        Asks-written q.type exchange_default_type r.same_type,
        (
          Asks-written q.durable false r.same_durable,
          (Asks-written q.auto_delete false r.same_auto_delete, from s),
        ),
      )),
    )

pub exact_arguments :
    (o : Option ExchangeSettings)
    → AllExact (requested_arguments o)
    → ExactMap (get_or (generate_exchange_settings o).arguments [])
unfolding generate_exchange_settings or_empty
exact_arguments none h = tt
exact_arguments (some q) h = exact_converted q.arguments h
  where
    exact_converted :
        (p : Option StringMap)
        → AllExact (or_empty p)
        → ExactMap (get_or (Option.map convert_string_map_to_interface_map p) [])
    exact_converted none h' = tt
    exact_converted (some m) h' = AllExact-converted m h'

module _ ⦃lib : Libraries⦄ where
  up_to_date_iff :
      (laws : LibraryLaws lib) (spec : ExchangeParameters) (info : DetailedExchangeInfo)
      → Reflects (generate_exchange_settings spec.exchange_settings) info
      → (is_up_to_date (late_initialize spec (some info)) info ≡ true)
        ↔ AllSurvive (requested_arguments spec.exchange_settings)
  unfolding late_initialize
  up_to_date_iff laws spec info r =
      let (to, from) = is_exchange_up_to_date_iff laws (late_initialize spec (some info)) info in
      let (to', from') = settings_agree spec.exchange_settings info r in
      ((λ h. to' (to h)), (λ s. from (from' s)))

-- The resource behind an observation that finds it.
abbrev pub observed : Exchange → DetailedExchangeInfo → Exchange
observed cr info = record cr {
  for_provider = late_initialize cr.for_provider (some info);
  at_provider = generate_exchange_observation (some info);
  available = true;
}

module _ ⦃lib : Libraries⦄ {W : Type 0} where
  answer_ok :
      (s : State Exchange W) (cr : Exchange) (info : DetailedExchangeInfo)
      → is_crossplane_managed cr.meta ≡ true
      → (o : ExternalObservation) × (s' : State Exchange W) × (observe_answer cr (ok info) s
          ≡ done o s')
        × (s' ≡ record s { cr = some (observed cr info) })
        × (o.resource_exists ≡ true)
        × (o.resource_up_to_date ≡ is_up_to_date (late_initialize cr.for_provider (some info)) info)
  unfolding observe_answer is_not_crossplane_managed
  answer_ok s cr info m = rw m (_, _, refl, refl, refl, refl)

  -- An observation of a managed exchange that the server has.
  pub observe_ok :
      (client : RabbitMqClient W) (s : State Exchange W) {cr : Exchange}
      {info : DetailedExchangeInfo}
      → s.cr ≡ some cr
      → is_crossplane_managed cr.meta ≡ true
      → client.get_exchange cr.for_provider.vhost (get_external_name cr) s.world ≡ ok info
      → (o : ExternalObservation) × (s' : State Exchange W) × (observe client s ≡ done o s')
        × (s' ≡ record s { cr = some (observed cr info) })
        × (o.resource_exists ≡ true)
        × (o.resource_up_to_date ≡ is_up_to_date (late_initialize cr.for_provider (some info)) info)
  observe_ok client s {cr} {info} h m e = rw (observe-answer client s h, e) (answer_ok s cr info m)

  -- The observation of a exchange that is there with the settings of its spec.
  abbrev pub Found : RabbitMqClient W → Exchange → State Exchange W → Type 0
  Found client cr t =
      (o : ExternalObservation) × (t' : State Exchange W) × (observe client t ≡ done o t')
      × (o.resource_exists ≡ true)
      × ((o.resource_up_to_date ≡ true)
          ↔ AllSurvive (requested_arguments cr.for_provider.exchange_settings))

  pub reflected-Found :
      (laws : LibraryLaws lib) (client : RabbitMqClient W) (t : State Exchange W) {cr : Exchange}
      {info : DetailedExchangeInfo}
      → t.cr ≡ some cr
      → is_crossplane_managed cr.meta ≡ true
      → client.get_exchange cr.for_provider.vhost (get_external_name cr) t.world ≡ ok info
      → Reflects (generate_exchange_settings cr.for_provider.exchange_settings) info
      → Found client cr t
  reflected-Found laws client t {cr} {info} h m got shown =
      let (o, t', ob, _, ex, up) = observe_ok client t h m got in
      (
        o,
        t',
        ob,
        ex,
        subst (λ b. (b ≡ true) ↔ AllSurvive (requested_arguments cr.for_provider.exchange_settings))
            (sym up) (up_to_date_iff laws cr.for_provider info shown),
      )

  -- On a server that stores what is declared, after a successful creation of an exchange whose
  -- numbers among the arguments have at most 15 digits, an observation finds the exchange, and
  -- finds it up to date exactly when every argument survives the way through the server: it is no
  -- number for `Atoi`, or the plain spelling of one of at most six digits.
  pub created_exchange_observed :
      (laws : LibraryLaws lib) {client : RabbitMqClient W} (server : ExchangeServer client)
      (s : State Exchange W) {s' : State Exchange W} {cr : Exchange}
      → s.cr ≡ some cr
      → AllExact (requested_arguments cr.for_provider.exchange_settings)
      → create client s ≡ done tt s'
      → (o : ExternalObservation) × (s'' : State Exchange W) × (observe client s' ≡ done o s'')
        × (o.resource_exists ≡ true)
        × ((o.resource_up_to_date ≡ true)
            ↔ AllSurvive (requested_arguments cr.for_provider.exchange_settings))
  unfolding set_crossplane_managed get_external_name
  created_exchange_observed laws {client} server s {s'} {cr} h exact created =
      let (r, w, e, same) = create_done client s h created in
      let (info, got, shown) =
        server.declared cr.for_provider.vhost (get_external_name cr)
          (generate_exchange_settings cr.for_provider.exchange_settings) s.world w r e
          (exact_arguments cr.for_provider.exchange_settings exact) in
      subst (Found client cr) (sym same) (
        reflected-Found laws client (created_state cr w s) refl
          (set_crossplane_managed-IsClaimed laws cr.meta (get_external_name cr)).0 got shown)
