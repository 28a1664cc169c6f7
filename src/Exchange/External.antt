-- ===== src/Exchange/External.antt =====
-- The exchange's external client as an implementation of `managed.ExternalClient`.
use provider_rabbitmq.Prelude.{◌≡◌, inl, inr, refl, some, arith, Bool-cases}
use provider_rabbitmq.Libraries.{Libraries, LibraryLaws}
use provider_rabbitmq.Meta.{is_crossplane_managed, is_not_crossplane_managed}
use provider_rabbitmq.Client.{RabbitMqClient, is_not_found_error}
use provider_rabbitmq.Client.Types.{Result, ok, err, DetailedExchangeInfo}
use provider_rabbitmq.Handler.{State, Run, done, failed, panicked, final, cast, call}
use provider_rabbitmq.Externals.{External}
use provider_rabbitmq.Externals.Laws.{MarkedAtMost, ExternalLaws, WritingLaws}
use provider_rabbitmq.Exchange.{observe, observe_answer, create, update, delete, disconnect}
use provider_rabbitmq.Exchange.Methods.{
  observe-answer, observe_unmanaged_exchange, observe_exchange_reads, exchange_bodies_closed,
  resource_kept, CreateOutcome, create_exchange_outcome,
}
use provider_rabbitmq.Exchange.Types.{Exchange}

module _ ⦃lib : Libraries⦄ {W : Type 0} (client : RabbitMqClient W) where
  abbrev pub exchange_external : External Exchange W
  exchange_external = record {
    observe = observe client;
    create = create client;
    update = update client;
    delete = delete client;
    disconnect = disconnect client;
  }

  answer_meta :
      (s : State Exchange W) (cr : Exchange) (a : Result DetailedExchangeInfo)
      → s.cr ≡ some cr
      → (cr' : Exchange) × ((final (observe_answer cr a s)).cr ≡ some cr') × (cr'.meta ≡ cr.meta)
  unfolding observe_answer is_not_crossplane_managed
  answer_meta s cr (err e) h = elim (Bool-cases (is_not_found_error e)) [
    | inl missing ↦ rw missing (cr, h, refl)
    | inr other ↦ rw other (cr, h, refl)
  ]
  answer_meta s cr (ok api) h = elim (Bool-cases (is_crossplane_managed cr.meta)) [
    | inl managed ↦ rw managed (_, refl, refl)
    | inr unmanaged ↦ rw unmanaged (cr, h, refl)
  ]

  outcome_marks :
      (cr : Exchange) (run : Run (State Exchange W) (Unit {0}))
      → CreateOutcome cr run
      → MarkedAtMost (λ q. q.meta) cr (final run)
  outcome_marks cr (done u s) (cr', there, claim, same) = (cr', there, inr claim.0)
  outcome_marks cr (failed e s) (there, cause) = (cr, there, inl refl)
  outcome_marks cr (panicked s) h = absurd h

  pub exchange-ExternalLaws : LibraryLaws lib → ExternalLaws exchange_external (λ q. q.meta)
  unfolding disconnect
  exchange-ExternalLaws laws = record {
    observe_reads = observe_exchange_reads client;
    observe_meta = λ s cr h. rw (observe-answer client s h) (answer_meta s cr _ h);
    observe_unmanaged = λ s cr h u. observe_unmanaged_exchange client s h u;
    create_marks = λ s cr h. outcome_marks cr _ (create_exchange_outcome client laws s h);
    update_keeps = λ s. (resource_kept client s).0;
    delete_keeps = λ s. (resource_kept client s).1;
    disconnect_keeps = λ s. refl;
  }

  create_as_update :
      (s : State Exchange W) → (final (create client s)).world ≡ (final (update client s)).world
  unfolding create update cast call
  create_as_update s = ground arith

  pub exchange-WritingLaws : WritingLaws exchange_external
  exchange-WritingLaws = record {
    closed = exchange_bodies_closed client;
    create_as_update = create_as_update;
  }
