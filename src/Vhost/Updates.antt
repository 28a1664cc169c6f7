-- ===== src/Vhost/Updates.antt =====
-- Whether a virtual host that was updated is found up to date.
use mathlib.Core.Path.{subst}
use provider_rabbitmq.Prelude.{◌≡◌, ◌≢◌, sym, true, some, [], inl, inr, arith}
use provider_rabbitmq.Libraries.{Libraries, LibraryLaws}
use provider_rabbitmq.Meta.{is_crossplane_managed}
use provider_rabbitmq.Client.{RabbitMqClient}
use provider_rabbitmq.Client.Types.{Response, ok, err}
use provider_rabbitmq.Go.Error.{Error, wrap}
use provider_rabbitmq.Handler.{State, done, failed, cast, call, Answer-cases, ExternalObservation}
use provider_rabbitmq.Vhost.{observe, update, err_update_failed}
use provider_rabbitmq.Vhost.Convergence.{VhostServer, Found, reflected-Found, requested_queue_type}
use provider_rabbitmq.Vhost.Settings.{get_external_name, generate_api_vhost_settings}
use provider_rabbitmq.Vhost.Types.{Vhost}

module _ ⦃lib : Libraries⦄ {W : Type 0} (client : RabbitMqClient W) where
  update_ok :
      (s : State Vhost W) {cr : Vhost} {r : Response} {w : W}
      → s.cr ≡ some cr
      → client.put_vhost
          (get_external_name cr)
          (generate_api_vhost_settings cr.for_provider.vhost_settings)
          s.world
        ≡ (ok r, w)
      → update client s ≡ done tt (record s { world = w })
  unfolding update cast call
  update_ok s same e = ground arith

  update_err :
      (s : State Vhost W) {cr : Vhost} {x : Error} {w : W}
      → s.cr ≡ some cr
      → client.put_vhost
          (get_external_name cr)
          (generate_api_vhost_settings cr.for_provider.vhost_settings)
          s.world
        ≡ (err x, w)
      → update client s ≡ failed (wrap x err_update_failed) (record s { world = w })
  unfolding update cast call
  update_err s same e = ground arith

  update_done :
      (s : State Vhost W) {s' : State Vhost W} {cr : Vhost}
      → s.cr ≡ some cr
      → update client s ≡ done tt s'
      → (r : Response) × (w : W) × (client.put_vhost
            (get_external_name cr)
            (generate_api_vhost_settings cr.for_provider.vhost_settings)
            s.world
          ≡ (ok r, w))
        × (s' ≡ record s { world = w })
  update_done s {s'} {cr} same updated =
      elim (Answer-cases (
        client.put_vhost (get_external_name cr)
          (generate_api_vhost_settings cr.for_provider.vhost_settings) s.world)) [
            | inl (r, w, e) ↦ (r, w, e, cc (update_ok s same e))
            | inr (x, w, e) ↦ absurd (cc (update_err s same e))
          ]

  -- On a server that stores what is put, after a successful update of a managed virtual host whose
  -- requested queue type is not the empty text, an observation finds the virtual host, and finds it
  -- up to date, whatever its settings were before.
  pub updated_vhost_observed :
      (laws : LibraryLaws lib) (server : VhostServer client) (s : State Vhost W)
      {s' : State Vhost W} {cr : Vhost}
      → s.cr ≡ some cr
      → is_crossplane_managed cr.meta ≡ true
      → requested_queue_type cr.for_provider.vhost_settings ≢ some []
      → update client s ≡ done tt s'
      → (o : ExternalObservation) × (s'' : State Vhost W) × (observe client s' ≡ done o s'')
        × (o.resource_exists ≡ true)
        × (o.resource_up_to_date ≡ true)
  updated_vhost_observed laws server s {s'} {cr} same m typed updated =
      let (r, w, e, state) = update_done s same updated in
      let (info, got, shown) =
        server.put (get_external_name cr)
          (generate_api_vhost_settings cr.for_provider.vhost_settings) s.world w r e in
      subst (Found client) (sym state)
        (reflected-Found laws client (record s { world = w }) same m typed got shown)
