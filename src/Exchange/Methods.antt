-- ===== src/Exchange/Methods.antt =====
-- What the methods of the exchange's external client do to the resource, the server and the bodies.
use provider_rabbitmq.Prelude.{◌≡◌, ◌↔◌, refl, true, false, some, arith, Bool-cases, inl, inr}
use provider_rabbitmq.Libraries.{Libraries, LibraryLaws}
use provider_rabbitmq.Meta.{
  is_crossplane_managed, is_not_crossplane_managed, set_crossplane_managed,
}
use provider_rabbitmq.Meta.Claims.{IsClaimed, set_crossplane_managed-IsClaimed}
use provider_rabbitmq.Client.{RabbitMqClient, is_not_found_error}
use provider_rabbitmq.Client.Types.{Result, Response, ok, err, DetailedExchangeInfo}
use provider_rabbitmq.Go.Error.{Error, wrap}
use provider_rabbitmq.Handler.{
  Untouched, State, Run, done, failed, panicked, final, Answer-cases, cast, call,
  ExternalObservation,
}
use provider_rabbitmq.Exchange.{observe, observe_answer, create, update, delete, err_create_failed}
use provider_rabbitmq.Exchange.Settings.{get_external_name, generate_exchange_settings}
use provider_rabbitmq.Exchange.Types.{Exchange}

-- How a creation ends: the resource is claimed and no other part of it changed, or it is untouched
-- and the error is a wrapped one of the server.
abbrev pub CreateOutcome : {W : Type 0} → Exchange → Run (State Exchange W) (Unit {0}) → Type 0
CreateOutcome cr (done _ s) =
    (cr' : Exchange) × (s.cr ≡ some cr')
    × IsClaimed cr'.meta (get_external_name cr)
    × (cr'.for_provider ≡ cr.for_provider)
CreateOutcome cr (failed e s) =
    (s.cr ≡ some cr) × ((cause : Error) × (e ≡ wrap cause err_create_failed))
CreateOutcome cr (panicked s) = ⊥

-- The state behind a successful creation.
abbrev pub created_state :
    ⦃lib : Libraries⦄ {W : Type 0} → Exchange → W → State Exchange W → State Exchange W
created_state cr w s = record {
  cr = some (record cr { meta = set_crossplane_managed cr.meta (get_external_name cr) });
  world = w;
  open_bodies = s.open_bodies;
}

module _ ⦃lib : Libraries⦄ {W : Type 0} (client : RabbitMqClient W) where
  pub observe-answer :
      (s : State Exchange W) {cr : Exchange}
      → s.cr ≡ some cr
      → observe client s
        ≡ observe_answer cr
            (client.get_exchange cr.for_provider.vhost (get_external_name cr) s.world)
            s
  unfolding observe cast
  observe-answer s h = ground arith

  answer_unmanaged :
      (s : State Exchange W) (cr : Exchange) (a : Result DetailedExchangeInfo)
      → is_crossplane_managed cr.meta ≡ false
      → Untouched s (observe_answer cr a s)
  unfolding observe_answer is_not_crossplane_managed
  answer_unmanaged s cr (err e) u = elim (Bool-cases (is_not_found_error e)) [
    | inl missing ↦ rw missing (refl, refl)
    | inr other ↦ rw other refl
  ]
  answer_unmanaged s cr (ok api) u = rw u refl

  -- A exchange that is not marked as managed is never changed by an observation, whatever the server
  -- answers, and it is not reported as existing.
  pub observe_unmanaged_exchange :
      (s : State Exchange W) {cr : Exchange}
      → s.cr ≡ some cr
      → is_crossplane_managed cr.meta ≡ false
      → Untouched s (observe client s)
  observe_unmanaged_exchange s {cr} h u = rw (observe-answer s h) (answer_unmanaged s cr _ u)

  -- Observing writes nothing to the server and leaves no response body open.
  pub observe_exchange_reads :
      (s : State Exchange W)
      → ((final (observe client s)).world ≡ s.world)
        × ((final (observe client s)).open_bodies ≡ s.open_bodies)
  unfolding observe cast
  observe_exchange_reads s = (ground arith, ground arith)

  answer_exists_iff :
      (s : State Exchange W) (cr : Exchange) (a : Result DetailedExchangeInfo)
      → ((o : ExternalObservation) × (s' : State Exchange W) × (observe_answer cr a s ≡ done o s')
          × (o.resource_exists ≡ true))
        ↔ ((api : DetailedExchangeInfo) × (a ≡ ok api) × (is_crossplane_managed cr.meta ≡ true))
  unfolding observe_answer is_not_crossplane_managed
  answer_exists_iff s cr (err e) =
      ((λ (o, s', q, x). absurd (ground arith)), (λ (api, q, m). absurd (cc)))
  answer_exists_iff s cr (ok api) =
      ((λ (o, s', q, x). (api, refl, ground arith)), (λ (api', q, m). rw m (_, _, refl, refl)))

  -- An observation reports that the exchange exists exactly if the server has it and it is managed.
  pub exchange_exists_iff :
      (s : State Exchange W) {cr : Exchange}
      → s.cr ≡ some cr
      → ((o : ExternalObservation) × (s' : State Exchange W) × (observe client s ≡ done o s')
          × (o.resource_exists ≡ true))
        ↔ ((api : DetailedExchangeInfo) × (client.get_exchange cr.for_provider.vhost
                (get_external_name cr)
                s.world
              ≡ ok api)
            × (is_crossplane_managed cr.meta ≡ true))
  exchange_exists_iff s {cr} h = rw (observe-answer s h) (
      answer_exists_iff s cr
        (client.get_exchange cr.for_provider.vhost (get_external_name cr) s.world))

  -- Creating, updating and deleting close the body of the answer, on every path.
  pub exchange_bodies_closed :
      (s : State Exchange W)
      → ((final (create client s)).open_bodies ≡ s.open_bodies)
        × ((final (update client s)).open_bodies ≡ s.open_bodies)
        × ((final (delete client s)).open_bodies ≡ s.open_bodies)
  unfolding create update delete cast call
  exchange_bodies_closed s = (ground arith, ground arith, ground arith)

  -- Updating and deleting leave the resource itself as it is.
  pub resource_kept :
      (s : State Exchange W)
      → ((final (update client s)).cr ≡ s.cr) × ((final (delete client s)).cr ≡ s.cr)
  unfolding update delete cast call
  resource_kept s = (ground arith, ground arith)

  -- The two ends of a creation, by the server's answer.
  pub create_ok :
      (s : State Exchange W) {cr : Exchange} {r : Response} {w : W}
      → s.cr ≡ some cr
      → client.declare_exchange cr.for_provider.vhost
          (get_external_name cr)
          (generate_exchange_settings cr.for_provider.exchange_settings)
          s.world
        ≡ (ok r, w)
      → create client s ≡ done tt (created_state cr w s)
  unfolding create cast call
  create_ok s h e = ground arith

  pub create_err :
      (s : State Exchange W) {cr : Exchange} {x : Error} {w : W}
      → s.cr ≡ some cr
      → client.declare_exchange cr.for_provider.vhost
          (get_external_name cr)
          (generate_exchange_settings cr.for_provider.exchange_settings)
          s.world
        ≡ (err x, w)
      → create client s ≡ failed (wrap x err_create_failed) (record s { world = w })
  unfolding create cast call
  create_err s h e = ground arith

  pub create_done :
      (s : State Exchange W) {s' : State Exchange W} {cr : Exchange}
      → s.cr ≡ some cr
      → create client s ≡ done tt s'
      → (r : Response) × (w : W) × (client.declare_exchange cr.for_provider.vhost
            (get_external_name cr)
            (generate_exchange_settings cr.for_provider.exchange_settings)
            s.world
          ≡ (ok r, w))
        × (s' ≡ created_state cr w s)
  create_done s {s'} {cr} h created =
      elim (Answer-cases (
        client.declare_exchange cr.for_provider.vhost (get_external_name cr)
          (generate_exchange_settings cr.for_provider.exchange_settings) s.world)) [
            | inl (r, w, e) ↦ (r, w, e, cc (create_ok s h e))
            | inr (x, w, e) ↦ absurd (cc (create_err s h e))
          ]

  -- A creation claims the resource under its external name, and keeps its desired state; or it
  -- fails with the server's error in a wrapping and leaves the resource as it was. It never panics.
  pub create_exchange_outcome :
      (laws : LibraryLaws lib) (s : State Exchange W) {cr : Exchange}
      → s.cr ≡ some cr
      → CreateOutcome cr (create client s)
  create_exchange_outcome laws s {cr} h =
      elim (Answer-cases (
        client.declare_exchange cr.for_provider.vhost (get_external_name cr)
          (generate_exchange_settings cr.for_provider.exchange_settings) s.world)) [
            | inl (r, w, e) ↦ rw (create_ok s h e) (
              _,
              refl,
              set_crossplane_managed-IsClaimed laws cr.meta (get_external_name cr),
              refl,
            )
            | inr (x, w, e) ↦ rw (create_err s h e) (h, (x, refl))
          ]
