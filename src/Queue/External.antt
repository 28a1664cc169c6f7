-- ===== src/Queue/External.antt =====
-- The queue's external client as an implementation of `managed.ExternalClient`.
use provider_rabbitmq.Prelude.{◌≡◌, inl, inr, refl, some, arith, Bool-cases}
use provider_rabbitmq.Libraries.{Libraries, LibraryLaws}
use provider_rabbitmq.Meta.{is_crossplane_managed, is_not_crossplane_managed}
use provider_rabbitmq.Client.{RabbitMqClient, is_not_found_error}
use provider_rabbitmq.Client.Types.{Result, ok, err, DetailedQueueInfo}
use provider_rabbitmq.Handler.{State, Run, done, failed, panicked, final, cast, call}
use provider_rabbitmq.Externals.{External}
use provider_rabbitmq.Externals.Laws.{MarkedAtMost, ExternalLaws, WritingLaws}
use provider_rabbitmq.Queue.{observe, observe_answer, create, update, delete, disconnect}
use provider_rabbitmq.Queue.Methods.{
  observe-answer, observe_unmanaged_queue, observe_queue_reads, queue_bodies_closed, resource_kept,
  CreateOutcome, create_queue_outcome,
}
use provider_rabbitmq.Queue.Types.{Queue}

module _ ⦃lib : Libraries⦄ {W : Type 0} (client : RabbitMqClient W) where
  abbrev pub queue_external : External Queue W
  queue_external = record {
    observe = observe client;
    create = create client;
    update = update client;
    delete = delete client;
    disconnect = disconnect client;
  }

  answer_meta :
      (s : State Queue W) (cr : Queue) (a : Result DetailedQueueInfo)
      → s.cr ≡ some cr
      → (cr' : Queue) × ((final (observe_answer cr a s)).cr ≡ some cr') × (cr'.meta ≡ cr.meta)
  unfolding observe_answer is_not_crossplane_managed
  answer_meta s cr (err e) h = elim (Bool-cases (is_not_found_error e)) [
    | inl missing ↦ rw missing (cr, h, refl)
    | inr other ↦ rw other (cr, h, refl)
  ]
  answer_meta s cr (ok api) h = elim (Bool-cases (is_crossplane_managed cr.meta)) [
    | inl managed ↦ rw managed (_, refl, refl)
    | inr unmanaged ↦ rw unmanaged (cr, h, refl)
  ]

  outcome_marks :
      (s : State Queue W) (cr : Queue) (run : Run (State Queue W) (Unit {0}))
      → CreateOutcome client s cr run
      → MarkedAtMost (λ q. q.meta) cr (final run)
  outcome_marks s cr (done u s') (r, cr', taken, there, claim, same, closed) =
      (cr', there, inr claim.0)
  outcome_marks s cr (failed e s') (cause, refused, wrapped, there, closed) = (cr, there, inl refl)
  outcome_marks s cr (panicked s') h = absurd h

  pub queue-ExternalLaws : LibraryLaws lib → ExternalLaws queue_external (λ q. q.meta)
  unfolding disconnect
  queue-ExternalLaws laws = record {
    observe_reads = observe_queue_reads client;
    observe_meta = λ s cr h. rw (observe-answer client s h) (answer_meta s cr _ h);
    observe_unmanaged = λ s cr h u. observe_unmanaged_queue client s h u;
    create_marks = λ s cr h. outcome_marks s cr _ (create_queue_outcome client laws s h);
    update_keeps = λ s. (resource_kept client s).0;
    delete_keeps = λ s. (resource_kept client s).1;
    disconnect_keeps = λ s. refl;
  }

  create_as_update :
      (s : State Queue W) → (final (create client s)).world ≡ (final (update client s)).world
  unfolding create update cast call
  create_as_update s = ground arith

  pub queue-WritingLaws : WritingLaws queue_external
  queue-WritingLaws = record {
    closed = queue_bodies_closed client;
    create_as_update = create_as_update;
  }
