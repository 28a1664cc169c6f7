-- ===== src/Vhost/External.antt =====
-- The vhost's external client as an implementation of `managed.ExternalClient`.
use provider_rabbitmq.Prelude.{◌≡◌, inl, inr, refl, some, arith, Bool-cases}
use provider_rabbitmq.Libraries.{Libraries, LibraryLaws}
use provider_rabbitmq.Meta.{is_crossplane_managed, is_not_crossplane_managed}
use provider_rabbitmq.Client.{RabbitMqClient, is_not_found_error}
use provider_rabbitmq.Client.Types.{Result, ok, err, VhostInfo}
use provider_rabbitmq.Handler.{State, Run, done, failed, panicked, final, cast, call}
use provider_rabbitmq.Externals.{External}
use provider_rabbitmq.Externals.Laws.{MarkedAtMost, ExternalLaws, WritingLaws}
use provider_rabbitmq.Vhost.{observe, observe_answer, create, update, delete, disconnect}
use provider_rabbitmq.Vhost.Methods.{
  observe-answer, observe_unmanaged_vhost, observe_vhost_reads, vhost_bodies_closed, resource_kept,
  CreateOutcome, create_vhost_outcome,
}
use provider_rabbitmq.Vhost.Types.{Vhost}

module _ ⦃lib : Libraries⦄ {W : Type 0} (client : RabbitMqClient W) where
  abbrev pub vhost_external : External Vhost W
  vhost_external = record {
    observe = observe client;
    create = create client;
    update = update client;
    delete = delete client;
    disconnect = disconnect client;
  }

  answer_meta :
      (s : State Vhost W) (cr : Vhost) (a : Result VhostInfo)
      → s.cr ≡ some cr
      → (cr' : Vhost) × ((final (observe_answer cr a s)).cr ≡ some cr') × (cr'.meta ≡ cr.meta)
  unfolding observe_answer is_not_crossplane_managed
  answer_meta s cr (err e) h = elim (Bool-cases (is_not_found_error e)) [
    | inl missing ↦ rw missing (cr, h, refl)
    | inr other ↦ rw other (cr, h, refl)
  ]
  answer_meta s cr (ok api) h = elim (Bool-cases (is_crossplane_managed cr.meta)) [
    | inl managed ↦ rw managed (_, refl, refl)
    | inr unmanaged ↦ rw unmanaged (cr, h, refl)
  ]

  outcome_marks :
      (cr : Vhost) (run : Run (State Vhost W) (Unit {0}))
      → CreateOutcome cr run
      → MarkedAtMost (λ q. q.meta) cr (final run)
  outcome_marks cr (done u s) (cr', there, claim, same) = (cr', there, inr claim.0)
  outcome_marks cr (failed e s) (there, cause) = (cr, there, inl refl)
  outcome_marks cr (panicked s) h = absurd h

  pub vhost-ExternalLaws : LibraryLaws lib → ExternalLaws vhost_external (λ q. q.meta)
  unfolding disconnect
  vhost-ExternalLaws laws = record {
    observe_reads = observe_vhost_reads client;
    observe_meta = λ s cr h. rw (observe-answer client s h) (answer_meta s cr _ h);
    observe_unmanaged = λ s cr h u. observe_unmanaged_vhost client s h u;
    create_marks = λ s cr h. outcome_marks cr _ (create_vhost_outcome client laws s h);
    update_keeps = λ s. (resource_kept client s).0;
    delete_keeps = λ s. (resource_kept client s).1;
    disconnect_keeps = λ s. refl;
  }

  create_as_update :
      (s : State Vhost W) → (final (create client s)).world ≡ (final (update client s)).world
  unfolding create update cast call
  create_as_update s = ground arith

  pub vhost-WritingLaws : WritingLaws vhost_external
  vhost-WritingLaws = record {
    closed = vhost_bodies_closed client;
    create_as_update = create_as_update;
  }
