-- ===== src/Queue/Updates.antt =====
-- Whether a queue that was updated is found up to date.
use mathlib.Core.Path.{subst}
use provider_rabbitmq.Prelude.{◌≡◌, ◌↔◌, sym, true, some, inl, inr, arith}
use provider_rabbitmq.Libraries.{Libraries, LibraryLaws}
use provider_rabbitmq.Meta.{is_crossplane_managed}
use provider_rabbitmq.Client.{RabbitMqClient}
use provider_rabbitmq.Client.Arguments.{AllSurvive, AllExact}
use provider_rabbitmq.Client.Types.{Response, ok, err}
use provider_rabbitmq.Go.Error.{Error, wrap}
use provider_rabbitmq.Handler.{State, done, failed, cast, call, Answer-cases, ExternalObservation}
use provider_rabbitmq.Queue.{observe, update, err_update_failed}
use provider_rabbitmq.Queue.Convergence.{Found, reflected-Found}
use provider_rabbitmq.Queue.Server.{QueueServer, exact_arguments, requested_arguments, StatesType}
use provider_rabbitmq.Queue.Settings.{get_external_name, generate_queue_settings}
use provider_rabbitmq.Queue.Types.{Queue}

module _ ⦃lib : Libraries⦄ {W : Type 0} (client : RabbitMqClient W) where
  update_ok :
      (s : State Queue W) {cr : Queue} {r : Response} {w : W}
      → s.cr ≡ some cr
      → client.declare_queue cr.for_provider.vhost
          (get_external_name cr)
          (generate_queue_settings cr.for_provider.queue_settings)
          s.world
        ≡ (ok r, w)
      → update client s ≡ done tt (record s { world = w })
  unfolding update cast call
  update_ok s same e = ground arith

  update_err :
      (s : State Queue W) {cr : Queue} {x : Error} {w : W}
      → s.cr ≡ some cr
      → client.declare_queue cr.for_provider.vhost
          (get_external_name cr)
          (generate_queue_settings cr.for_provider.queue_settings)
          s.world
        ≡ (err x, w)
      → update client s ≡ failed (wrap x err_update_failed) (record s { world = w })
  unfolding update cast call
  update_err s same e = ground arith

  update_done :
      (s : State Queue W) {s' : State Queue W} {cr : Queue}
      → s.cr ≡ some cr
      → update client s ≡ done tt s'
      → (r : Response) × (w : W) × (client.declare_queue cr.for_provider.vhost
            (get_external_name cr)
            (generate_queue_settings cr.for_provider.queue_settings)
            s.world
          ≡ (ok r, w))
        × (s' ≡ record s { world = w })
  update_done s {s'} {cr} same updated =
      elim (Answer-cases (
        client.declare_queue cr.for_provider.vhost (get_external_name cr)
          (generate_queue_settings cr.for_provider.queue_settings) s.world)) [
            | inl (r, w, e) ↦ (r, w, e, cc (update_ok s same e))
            | inr (x, w, e) ↦ absurd (cc (update_err s same e))
          ]

  -- On a server that stores what is declared, after a successful update of a managed queue whose
  -- spec names its type among its arguments or has neither arguments nor a type, and whose numbers
  -- among the arguments have at most 15 digits, an observation finds the queue, and finds it up to date exactly when every argument survives the way
  -- through the server, whatever the settings of the queue were before.
  pub updated_queue_observed :
      (laws : LibraryLaws lib) (server : QueueServer client) (s : State Queue W)
      {s' : State Queue W} {cr : Queue}
      → s.cr ≡ some cr
      → is_crossplane_managed cr.meta ≡ true
      → StatesType cr.for_provider.queue_settings
      → AllExact (requested_arguments cr.for_provider.queue_settings)
      → update client s ≡ done tt s'
      → (o : ExternalObservation) × (s'' : State Queue W) × (observe client s' ≡ done o s'')
        × (o.resource_exists ≡ true)
        × ((o.resource_up_to_date ≡ true)
            ↔ AllSurvive (requested_arguments cr.for_provider.queue_settings))
  updated_queue_observed laws server s {s'} {cr} same m typed exact updated =
      let (r, w, e, state) = update_done s same updated in
      let (info, got, shown) =
        server.declared cr.for_provider.vhost (get_external_name cr)
          (generate_queue_settings cr.for_provider.queue_settings) s.world w r e
          (exact_arguments cr.for_provider.queue_settings exact) in
      subst (Found client cr) (sym state)
        (reflected-Found laws client (record s { world = w }) same m typed got shown)
