-- ===== src/Permissions/External.antt =====
-- The permissions' external client as an implementation of `managed.ExternalClient`.
use provider_rabbitmq.Prelude.{◌≡◌, inl, inr, refl, true, some, arith, Bool-cases}
use provider_rabbitmq.Libraries.{Libraries, LibraryLaws}
use provider_rabbitmq.Meta.{is_crossplane_managed, is_not_crossplane_managed}
use provider_rabbitmq.Client.{RabbitMqClient, is_not_found_error}
use provider_rabbitmq.Client.Types.{Result, ok, err, PermissionInfo}
use provider_rabbitmq.Handler.{State, Run, done, failed, panicked, final, cast, call}
use provider_rabbitmq.Externals.{External}
use provider_rabbitmq.Externals.Laws.{MarkedAtMost, ExternalLaws, WritingLaws}
use provider_rabbitmq.Permissions.{
  observe, observe_managed, observe_answer, create, update, delete, disconnect,
}
use provider_rabbitmq.Permissions.Methods.{
  observe-answer, observe_unmanaged_permissions, observe_permissions_reads,
  permissions_bodies_closed, resource_kept, CreateOutcome, create_permissions_outcome,
}
use provider_rabbitmq.Permissions.Settings.{
  late_initialize, is_up_to_date, generate_permissions_observation,
}
use provider_rabbitmq.Permissions.Types.{Permissions}

module _ ⦃lib : Libraries⦄ {W : Type 0} (client : RabbitMqClient W) where
  abbrev pub permissions_external : External Permissions W
  permissions_external = record {
    observe = observe client;
    create = create client;
    update = update client;
    delete = delete client;
    disconnect = disconnect client;
  }

  managed_meta :
      (s : State Permissions W) (cr : Permissions) (api : PermissionInfo)
      → (cr' : Permissions) × ((final (observe_managed cr api s)).cr ≡ some cr')
        × (cr'.meta ≡ cr.meta)
  unfolding observe_managed late_initialize is_up_to_date
  managed_meta s cr api = (
    record cr {
      for_provider = late_initialize cr.for_provider (some api);
      at_provider = generate_permissions_observation (some api);
      available = true;
    },
    ground arith,
    refl,
  )

  answer_meta :
      (s : State Permissions W) (cr : Permissions) (a : Result PermissionInfo)
      → s.cr ≡ some cr
      → (cr' : Permissions) × ((final (observe_answer cr a s)).cr ≡ some cr') × (cr'.meta ≡ cr.meta)
  unfolding observe_answer is_not_crossplane_managed
  answer_meta s cr (err e) h = elim (Bool-cases (is_not_found_error e)) [
    | inl missing ↦ rw missing (cr, h, refl)
    | inr other ↦ rw other (cr, h, refl)
  ]
  answer_meta s cr (ok api) h = elim (Bool-cases (is_crossplane_managed cr.meta)) [
    | inl managed ↦ rw managed (managed_meta s cr api)
    | inr unmanaged ↦ rw unmanaged (cr, h, refl)
  ]

  outcome_marks :
      (cr : Permissions) (run : Run (State Permissions W) (Unit {0}))
      → CreateOutcome cr run
      → MarkedAtMost (λ q. q.meta) cr (final run)
  outcome_marks cr (done u s) (cr', there, claim, same) = (cr', there, inr claim.0)
  outcome_marks cr (failed e s) (there, cause) = (cr, there, inl refl)
  outcome_marks cr (panicked s) (there, missing) = (cr, there, inl refl)

  pub permissions-ExternalLaws : LibraryLaws lib → ExternalLaws permissions_external (λ q. q.meta)
  unfolding disconnect
  permissions-ExternalLaws laws = record {
    observe_reads = λ s. let (w, bodies, p) = observe_permissions_reads client s s in (w, bodies);
    observe_meta = λ s cr h. rw (observe-answer client s h) (answer_meta s cr _ h);
    observe_unmanaged = λ s cr h u. observe_unmanaged_permissions client s h u;
    create_marks = λ s cr h. outcome_marks cr _ (create_permissions_outcome client laws s h);
    update_keeps = λ s. (resource_kept client s).0;
    delete_keeps = λ s. (resource_kept client s).1;
    disconnect_keeps = λ s. refl;
  }

  create_as_update :
      (s : State Permissions W) → (final (create client s)).world ≡ (final (update client s)).world
  unfolding create update cast call
  create_as_update s = ground arith

  pub permissions-WritingLaws : WritingLaws permissions_external
  permissions-WritingLaws = record {
    closed = permissions_bodies_closed client;
    create_as_update = create_as_update;
  }
