-- ===== src/Queue/Convergence.antt =====
-- Whether a queue that was created is found up to date: the settings that are written, the
-- server's answer, and the comparison, together.
use mathlib.Core.Path.{subst}
use provider_rabbitmq.Prelude.{◌≡◌, ◌↔◌, refl, sym, true, some}
use provider_rabbitmq.Libraries.{Libraries, LibraryLaws}
use provider_rabbitmq.Meta.{
  is_crossplane_managed, is_not_crossplane_managed, set_crossplane_managed,
}
use provider_rabbitmq.Meta.Claims.{set_crossplane_managed-IsClaimed}
use provider_rabbitmq.Client.{RabbitMqClient}
use provider_rabbitmq.Client.Arguments.{AllSurvive, AllExact}
use provider_rabbitmq.Client.Types.{ok, DetailedQueueInfo}
use provider_rabbitmq.Handler.{State, done, ExternalObservation}
use provider_rabbitmq.Queue.{observe, observe_answer, create}
use provider_rabbitmq.Queue.Agreement.{is_queue_up_to_date_iff}
use provider_rabbitmq.Queue.Methods.{create_done, created_state, observe-answer}
use provider_rabbitmq.Queue.Settings.{
  get_external_name, generate_queue_observation, generate_queue_settings, late_initialize,
  is_up_to_date,
}
use provider_rabbitmq.Queue.Types.{Queue, QueueParameters}
use provider_rabbitmq.Queue.Server.{
  Reflects, QueueServer, StatesType, requested_arguments, settings_agree, exact_arguments,
}

module _ ⦃lib : Libraries⦄ where
  up_to_date_iff :
      (laws : LibraryLaws lib) (spec : QueueParameters) (info : DetailedQueueInfo)
      → StatesType spec.queue_settings
      → Reflects (generate_queue_settings spec.queue_settings) info
      → (is_up_to_date (late_initialize spec (some info)) info ≡ true)
        ↔ AllSurvive (requested_arguments spec.queue_settings)
  unfolding late_initialize
  up_to_date_iff laws spec info typed r =
      let (to, from) = is_queue_up_to_date_iff laws (late_initialize spec (some info)) info in
      let (to', from') = settings_agree spec.queue_settings info typed r in
      ((λ h. to' (to h)), (λ s. from (from' s)))

-- The resource behind an observation that finds it.
abbrev pub observed : Queue → DetailedQueueInfo → Queue
observed cr info = record cr {
  for_provider = late_initialize cr.for_provider (some info);
  at_provider = generate_queue_observation (some info);
  available = true;
}

module _ ⦃lib : Libraries⦄ {W : Type 0} where
  answer_ok :
      (s : State Queue W) (cr : Queue) (info : DetailedQueueInfo)
      → is_crossplane_managed cr.meta ≡ true
      → (o : ExternalObservation) × (s' : State Queue W) × (observe_answer cr (ok info) s
          ≡ done o s')
        × (s' ≡ record s { cr = some (observed cr info) })
        × (o.resource_exists ≡ true)
        × (o.resource_up_to_date ≡ is_up_to_date (late_initialize cr.for_provider (some info)) info)
  unfolding observe_answer is_not_crossplane_managed
  answer_ok s cr info m = rw m (_, _, refl, refl, refl, refl)

  -- An observation of a managed queue that the server has.
  pub observe_ok :
      (client : RabbitMqClient W) (s : State Queue W) {cr : Queue} {info : DetailedQueueInfo}
      → s.cr ≡ some cr
      → is_crossplane_managed cr.meta ≡ true
      → client.get_queue cr.for_provider.vhost (get_external_name cr) s.world ≡ ok info
      → (o : ExternalObservation) × (s' : State Queue W) × (observe client s ≡ done o s')
        × (s' ≡ record s { cr = some (observed cr info) })
        × (o.resource_exists ≡ true)
        × (o.resource_up_to_date ≡ is_up_to_date (late_initialize cr.for_provider (some info)) info)
  observe_ok client s {cr} {info} h m e = rw (observe-answer client s h, e) (answer_ok s cr info m)

  -- The observation of a queue that is there with the settings of its spec.
  abbrev pub Found : RabbitMqClient W → Queue → State Queue W → Type 0
  Found client cr t =
      (o : ExternalObservation) × (t' : State Queue W) × (observe client t ≡ done o t')
      × (o.resource_exists ≡ true)
      × ((o.resource_up_to_date ≡ true)
          ↔ AllSurvive (requested_arguments cr.for_provider.queue_settings))

  pub reflected-Found :
      (laws : LibraryLaws lib) (client : RabbitMqClient W) (t : State Queue W) {cr : Queue}
      {info : DetailedQueueInfo}
      → t.cr ≡ some cr
      → is_crossplane_managed cr.meta ≡ true
      → StatesType cr.for_provider.queue_settings
      → client.get_queue cr.for_provider.vhost (get_external_name cr) t.world ≡ ok info
      → Reflects (generate_queue_settings cr.for_provider.queue_settings) info
      → Found client cr t
  reflected-Found laws client t {cr} {info} h m typed got shown =
      let (o, t', ob, _, ex, up) = observe_ok client t h m got in
      (
        o,
        t',
        ob,
        ex,
        subst (λ b. (b ≡ true) ↔ AllSurvive (requested_arguments cr.for_provider.queue_settings))
            (sym up) (up_to_date_iff laws cr.for_provider info typed shown),
      )

  -- On a server that stores what is declared, after a successful creation of a queue whose
  -- spec names its type among its arguments or has neither arguments nor a type, and whose numbers
  -- among the arguments have at most 15 digits, an observation finds the queue, and finds it up to date exactly when every argument
  -- survives the way through the server: it is no number for `Atoi`, or the plain spelling of one
  -- of at most six digits.
  pub created_queue_observed :
      (laws : LibraryLaws lib) {client : RabbitMqClient W} (server : QueueServer client)
      (s : State Queue W) {s' : State Queue W} {cr : Queue}
      → s.cr ≡ some cr
      → StatesType cr.for_provider.queue_settings
      → AllExact (requested_arguments cr.for_provider.queue_settings)
      → create client s ≡ done tt s'
      → (o : ExternalObservation) × (s'' : State Queue W) × (observe client s' ≡ done o s'')
        × (o.resource_exists ≡ true)
        × ((o.resource_up_to_date ≡ true)
            ↔ AllSurvive (requested_arguments cr.for_provider.queue_settings))
  unfolding set_crossplane_managed get_external_name
  created_queue_observed laws {client} server s {s'} {cr} h typed exact created =
      let (r, w, e, same) = create_done client s h created in
      let (info, got, shown) =
        server.declared cr.for_provider.vhost (get_external_name cr)
          (generate_queue_settings cr.for_provider.queue_settings) s.world w r e
          (exact_arguments cr.for_provider.queue_settings exact) in
      subst (Found client cr) (sym same) (
        reflected-Found laws client (created_state cr w s) refl
          (set_crossplane_managed-IsClaimed laws cr.meta (get_external_name cr)).0 typed got shown)
