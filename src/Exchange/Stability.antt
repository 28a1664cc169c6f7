-- ===== src/Exchange/Stability.antt =====
-- That observing a exchange settles: a second observation finds nothing more to fill in.
use mathlib.Core.Path.{subst}
use provider_rabbitmq.Prelude.{◌≡◌, refl, sym, ap, ◌∙◌, true, false, not, some, arith}
use provider_rabbitmq.Libraries.{Libraries, LibraryLaws}
use provider_rabbitmq.Meta.{is_crossplane_managed, is_not_crossplane_managed}
use provider_rabbitmq.Client.{RabbitMqClient}
use provider_rabbitmq.Client.Types.{ok, DetailedExchangeInfo}
use provider_rabbitmq.Handler.{State, done, ExternalObservation}
use provider_rabbitmq.Exchange.{observe, observe_answer}
use provider_rabbitmq.Exchange.Convergence.{observed, observe_ok}
use provider_rabbitmq.Exchange.Methods.{observe-answer, exchange_exists_iff}
use provider_rabbitmq.Exchange.Settings.{get_external_name, late_initialize, is_up_to_date}
use provider_rabbitmq.Exchange.Types.{Exchange, ExchangeParameters, ExchangeParameters-discrete}

late_initialize_twice :
    (spec : ExchangeParameters) (info : DetailedExchangeInfo)
    → late_initialize (late_initialize spec (some info)) (some info)
      ≡ late_initialize spec (some info)
unfolding late_initialize
late_initialize_twice spec info = ground arith

module _ ⦃lib : Libraries⦄ {W : Type 0} where
  -- A second observation: it ends in the state it began in, fills in nothing, and decides as before.
  abbrev pub Repeats : RabbitMqClient W → ExternalObservation → State Exchange W → Type 0
  Repeats client o s =
      (o' : ExternalObservation) × (observe client s ≡ done o' s)
      × (o'.resource_exists ≡ true)
      × (o'.resource_late_initialized ≡ false)
      × (o'.resource_up_to_date ≡ o.resource_up_to_date)

  answer_again :
      (s : State Exchange W) (cr : Exchange) (info : DetailedExchangeInfo)
      → is_crossplane_managed cr.meta ≡ true
      → observe_answer (observed cr info) (ok info) s
        ≡ done
            (record {
              resource_exists = true;
              resource_up_to_date =
                  is_up_to_date (late_initialize cr.for_provider (some info)) info;
              resource_late_initialized = not (
                  lib.cmp_equal ExchangeParameters ExchangeParameters-discrete
                    (late_initialize cr.for_provider (some info))
                    (late_initialize cr.for_provider (some info)));
            })
            (record s { cr = some (observed cr info) })
  unfolding observe_answer is_not_crossplane_managed
  answer_again s cr info m = rw (m, late_initialize_twice cr.for_provider info) refl

  again-Repeats :
      (laws : LibraryLaws lib) (client : RabbitMqClient W) (s : State Exchange W) (cr : Exchange)
      (info : DetailedExchangeInfo) (o : ExternalObservation)
      → is_crossplane_managed cr.meta ≡ true
      → client.get_exchange cr.for_provider.vhost (get_external_name cr) s.world ≡ ok info
      → o.resource_up_to_date ≡ is_up_to_date (late_initialize cr.for_provider (some info)) info
      → Repeats client o (record s { cr = some (observed cr info) })
  unfolding get_external_name late_initialize
  again-Repeats laws client s cr info o m got up = (
    _,
    observe-answer client (record s { cr = some (observed cr info) }) refl
        ∙ ap (λ a. observe_answer (observed cr info) a (record s { cr = some (observed cr info) }))
            got
        ∙ answer_again (record s { cr = some (observed cr info) }) cr info m,
    refl,
    ap not ((laws.cmp_equal_iff ExchangeParameters ExchangeParameters-discrete _ _).1 refl),
    sym up,
  )

  -- If an observation finds a managed exchange, a second one directly after it reports the same, fills
  -- in nothing more, and leaves the resource and the server as the first one left them.
  pub observed_exchange_settled :
      (laws : LibraryLaws lib) (client : RabbitMqClient W) (s : State Exchange W)
      {s' : State Exchange W} {cr : Exchange} {o : ExternalObservation}
      → s.cr ≡ some cr
      → observe client s ≡ done o s'
      → o.resource_exists ≡ true
      → Repeats client o s'
  observed_exchange_settled laws client s {s'} {cr} {o} h ran exists =
      let (info, got, m) = (exchange_exists_iff client s h).0 (o, s', ran, exists) in
      let (o1, t, again, state, _, up) = observe_ok client s h m got in
      let same_end : s' ≡ t = cc in
      let same : o1 ≡ o = cc in
      subst (Repeats client o) (sym (same_end ∙ state)) (
        again-Repeats laws client s cr info o m got
          (ap (λ x. x.resource_up_to_date) (sym same) ∙ up))
