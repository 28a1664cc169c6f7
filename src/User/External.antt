-- ===== src/User/External.antt =====
-- The user's external client as an implementation of `managed.ExternalClient`.
use provider_rabbitmq.Prelude.{◌≡◌, inl, inr, refl, some, arith, Bool-cases}
use provider_rabbitmq.Libraries.{Libraries, LibraryLaws}
use provider_rabbitmq.Meta.{is_crossplane_managed, is_not_crossplane_managed}
use provider_rabbitmq.Client.{RabbitMqClient, is_not_found_error}
use provider_rabbitmq.Client.Types.{Result, ok, err, UserInfo}
use provider_rabbitmq.Handler.{State, Run, done, failed, panicked, final, cast, call}
use provider_rabbitmq.Externals.{External}
use provider_rabbitmq.Externals.Laws.{MarkedAtMost, ExternalLaws, WritingLaws}
use provider_rabbitmq.User.{
  observe, observe_managed, observe_answer, create, update, delete, disconnect,
}
use provider_rabbitmq.User.Methods.{
  observe-answer, observe_unmanaged_user, observe_user_reads, user_bodies_closed, resource_kept,
  CreateOutcome, observed, create_user_outcome,
}
use provider_rabbitmq.User.Passwords.{Hashes}
use provider_rabbitmq.User.Types.{User, KubeClient}

module _ ⦃lib : Libraries⦄ ⦃hashes : Hashes⦄ {W : Type 0} (kube : KubeClient W)
    (client : RabbitMqClient W) where
  abbrev pub user_external : External User W
  user_external = record {
    observe = observe kube client;
    create = create kube client;
    update = update kube client;
    delete = delete kube client;
    disconnect = disconnect kube client;
  }

  managed_meta :
      (s : State User W) (cr : User) (api : UserInfo)
      → (cr' : User) × ((final (observe_managed kube cr api s)).cr ≡ some cr')
        × (cr'.meta ≡ cr.meta)
  unfolding observe_managed
  managed_meta s cr api = (observed cr api, ground arith, refl)

  answer_meta :
      (s : State User W) (cr : User) (a : Result UserInfo)
      → s.cr ≡ some cr
      → (cr' : User) × ((final (observe_answer kube cr a s)).cr ≡ some cr') × (cr'.meta ≡ cr.meta)
  unfolding observe_answer is_not_crossplane_managed
  answer_meta s cr (err e) h = elim (Bool-cases (is_not_found_error e)) [
    | inl missing ↦ rw missing (cr, h, refl)
    | inr other ↦ rw other (cr, h, refl)
  ]
  answer_meta s cr (ok api) h = elim (Bool-cases (is_crossplane_managed cr.meta)) [
    | inl managed ↦ rw managed (managed_meta s cr api)
    | inr unmanaged ↦ rw unmanaged (cr, h, refl)
  ]

  outcome_marks :
      (cr : User) (run : Run (State User W) (Unit {0}))
      → CreateOutcome cr run
      → MarkedAtMost (λ q. q.meta) cr (final run)
  outcome_marks cr (done u s) (cr', there, claim, same) = (cr', there, inr claim.0)
  outcome_marks cr (failed e s) (there, cause) = (cr, there, inl refl)
  outcome_marks cr (panicked s) h = absurd h

  pub user-ExternalLaws : LibraryLaws lib → ExternalLaws user_external (λ q. q.meta)
  unfolding disconnect
  user-ExternalLaws laws = record {
    observe_reads = observe_user_reads kube client;
    observe_meta = λ s cr h. rw (observe-answer kube client s h) (answer_meta s cr _ h);
    observe_unmanaged = λ s cr h u. observe_unmanaged_user kube client s h u;
    create_marks = λ s cr h. outcome_marks cr _ (create_user_outcome kube client laws s h);
    update_keeps = λ s. (resource_kept kube client s).0;
    delete_keeps = λ s. (resource_kept kube client s).1;
    disconnect_keeps = λ s. refl;
  }

  create_as_update :
      (s : State User W)
      → (final (create kube client s)).world ≡ (final (update kube client s)).world
  unfolding create update cast call
  create_as_update s = ground arith

  pub user-WritingLaws : WritingLaws user_external
  user-WritingLaws = record {
    closed = user_bodies_closed kube client;
    create_as_update = create_as_update;
  }
