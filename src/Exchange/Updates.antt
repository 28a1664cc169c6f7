-- ===== src/Exchange/Updates.antt =====
-- Whether a exchange that was updated is found up to date.
use mathlib.Core.Path.{subst}
use provider_rabbitmq.Prelude.{◌≡◌, ◌↔◌, sym, true, some, inl, inr, arith}
use provider_rabbitmq.Libraries.{Libraries, LibraryLaws}
use provider_rabbitmq.Meta.{is_crossplane_managed}
use provider_rabbitmq.Client.{RabbitMqClient}
use provider_rabbitmq.Client.Arguments.{AllSurvive, AllExact}
use provider_rabbitmq.Client.Types.{Response, ok, err}
use provider_rabbitmq.Go.Error.{Error, wrap}
use provider_rabbitmq.Handler.{State, done, failed, cast, call, Answer-cases, ExternalObservation}
use provider_rabbitmq.Exchange.{observe, update, err_update_failed}
use provider_rabbitmq.Exchange.Convergence.{
  ExchangeServer, Found, reflected-Found, exact_arguments, requested_arguments,
}
use provider_rabbitmq.Exchange.Settings.{get_external_name, generate_exchange_settings}
use provider_rabbitmq.Exchange.Types.{Exchange}

module _ ⦃lib : Libraries⦄ {W : Type 0} (client : RabbitMqClient W) where
  update_ok :
      (s : State Exchange W) {cr : Exchange} {r : Response} {w : W}
      → s.cr ≡ some cr
      → client.declare_exchange cr.for_provider.vhost
          (get_external_name cr)
          (generate_exchange_settings cr.for_provider.exchange_settings)
          s.world
        ≡ (ok r, w)
      → update client s ≡ done tt (record s { world = w })
  unfolding update cast call
  update_ok s same e = ground arith

  update_err :
      (s : State Exchange W) {cr : Exchange} {x : Error} {w : W}
      → s.cr ≡ some cr
      → client.declare_exchange cr.for_provider.vhost
          (get_external_name cr)
          (generate_exchange_settings cr.for_provider.exchange_settings)
          s.world
        ≡ (err x, w)
      → update client s ≡ failed (wrap x err_update_failed) (record s { world = w })
  unfolding update cast call
  update_err s same e = ground arith

  update_done :
      (s : State Exchange W) {s' : State Exchange W} {cr : Exchange}
      → s.cr ≡ some cr
      → update client s ≡ done tt s'
      → (r : Response) × (w : W) × (client.declare_exchange cr.for_provider.vhost
            (get_external_name cr)
            (generate_exchange_settings cr.for_provider.exchange_settings)
            s.world
          ≡ (ok r, w))
        × (s' ≡ record s { world = w })
  update_done s {s'} {cr} same updated =
      elim (Answer-cases (
        client.declare_exchange cr.for_provider.vhost (get_external_name cr)
          (generate_exchange_settings cr.for_provider.exchange_settings) s.world)) [
            | inl (r, w, e) ↦ (r, w, e, cc (update_ok s same e))
            | inr (x, w, e) ↦ absurd (cc (update_err s same e))
          ]

  -- On a server that stores what is declared, after a successful update of a managed exchange whose
  -- numbers among the arguments have at most 15 digits, an
  -- observation finds the exchange, and finds it up to date exactly when every argument survives the way
  -- through the server, whatever the settings of the exchange were before.
  pub updated_exchange_observed :
      (laws : LibraryLaws lib) (server : ExchangeServer client) (s : State Exchange W)
      {s' : State Exchange W} {cr : Exchange}
      → s.cr ≡ some cr
      → is_crossplane_managed cr.meta ≡ true
      → AllExact (requested_arguments cr.for_provider.exchange_settings)
      → update client s ≡ done tt s'
      → (o : ExternalObservation) × (s'' : State Exchange W) × (observe client s' ≡ done o s'')
        × (o.resource_exists ≡ true)
        × ((o.resource_up_to_date ≡ true)
            ↔ AllSurvive (requested_arguments cr.for_provider.exchange_settings))
  updated_exchange_observed laws server s {s'} {cr} same m exact updated =
      let (r, w, e, state) = update_done s same updated in
      let (info, got, shown) =
        server.declared cr.for_provider.vhost (get_external_name cr)
          (generate_exchange_settings cr.for_provider.exchange_settings) s.world w r e
          (exact_arguments cr.for_provider.exchange_settings exact) in
      subst (Found client cr) (sym state)
        (reflected-Found laws client (record s { world = w }) same m got shown)
