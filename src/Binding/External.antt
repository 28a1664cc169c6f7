-- ===== src/Binding/External.antt =====
-- The binding's external client as an implementation of `managed.ExternalClient`.
use provider_rabbitmq.Prelude.{
  ◌≡◌, inl, inr, refl, ap, false, Option, none, some, List, [], ◌∷◌, ◌+◌, arith, Str, Bool-cases,
}
use provider_rabbitmq.Libraries.{Libraries, LibraryLaws}
use provider_rabbitmq.Meta.Claims.{set_crossplane_managed-IsClaimed}
use provider_rabbitmq.Meta.{is_crossplane_managed, is_not_crossplane_managed}
use provider_rabbitmq.Client.{RabbitMqClient}
use provider_rabbitmq.Client.Types.{Result, Response, ok, err, BindingInfo}
use provider_rabbitmq.Go.Error.{Error, wrap}
use provider_rabbitmq.Handler.{Untouched, State, Run, failed, final, Answer-cases, cast, call}
use provider_rabbitmq.Externals.{External}
use provider_rabbitmq.Externals.Laws.{MarkedAtMost, ExternalLaws}
use provider_rabbitmq.Binding.{
  observe, observe_answer, observe_binding, properties_key_of, finish_create, err_create_failed,
  create, update, delete, disconnect,
}
use provider_rabbitmq.Binding.Methods.{observe-answer, observe_binding_reads, update_and_delete}
use provider_rabbitmq.Binding.Settings.{get_external_name, generate_binding_info, get_binding}
use provider_rabbitmq.Binding.Types.{Binding}

module _ ⦃lib : Libraries⦄ {W : Type 0} (client : RabbitMqClient W) where
  abbrev pub binding_external : External Binding W
  binding_external = record {
    observe = observe client;
    create = create client;
    update = update client;
    delete = delete client;
    disconnect = disconnect client;
  }

  found_meta :
      (s : State Binding W) (cr : Binding) (found : Option BindingInfo)
      → s.cr ≡ some cr
      → (cr' : Binding) × ((final (observe_binding cr found s)).cr ≡ some cr')
        × (cr'.meta ≡ cr.meta)
  unfolding observe_binding
  found_meta s cr none h = (cr, h, refl)
  found_meta s cr (some binding) h = (_, refl, refl)

  answer_meta :
      (s : State Binding W) (cr : Binding) (a : Result (List BindingInfo))
      → s.cr ≡ some cr
      → (cr' : Binding) × ((final (observe_answer cr a s)).cr ≡ some cr') × (cr'.meta ≡ cr.meta)
  unfolding observe_answer is_not_crossplane_managed
  answer_meta s cr (err e) h = (cr, h, refl)
  answer_meta s cr (ok []) h = (cr, h, refl)
  answer_meta s cr (ok (b ∷ bindings)) h = elim (Bool-cases (is_crossplane_managed cr.meta)) [
    | inl managed ↦ rw managed (found_meta s cr (get_binding (b ∷ bindings) cr) h)
    | inr unmanaged ↦ rw unmanaged (cr, h, refl)
  ]

  answer_unmanaged :
      (s : State Binding W) (cr : Binding) (a : Result (List BindingInfo))
      → is_crossplane_managed cr.meta ≡ false
      → Untouched s (observe_answer cr a s)
  unfolding observe_answer is_not_crossplane_managed
  answer_unmanaged s cr (err e) u = refl
  answer_unmanaged s cr (ok []) u = (refl, refl)
  answer_unmanaged s cr (ok (b ∷ bindings)) u = rw u refl

  finish_marks :
      (laws : LibraryLaws lib) (s : State Binding W) (cr : Binding) (key : Option Str)
      → s.cr ≡ some cr
      → MarkedAtMost (λ q. q.meta) cr (final (finish_create cr key s))
  unfolding finish_create
  finish_marks laws s cr none h = (cr, h, inl refl)
  finish_marks laws s cr (some key) h = (
    _,
    refl,
    inr (set_crossplane_managed-IsClaimed laws cr.meta (get_external_name cr.for_provider key)).0,
  )

  create_answered :
      (s : State Binding W) {cr : Binding} {r : Response} {w : W}
      → s.cr ≡ some cr
      → client.declare_binding cr.for_provider.vhost (generate_binding_info cr.for_provider) s.world
        ≡ (ok r, w)
      → create client s
        ≡ finish_create cr
            (properties_key_of r)
            (record s { world = w; open_bodies = s.open_bodies + 1 })
  unfolding create cast call
  create_answered s h e = ground arith

  create_refused :
      (s : State Binding W) {cr : Binding} {x : Error} {w : W}
      → s.cr ≡ some cr
      → client.declare_binding cr.for_provider.vhost (generate_binding_info cr.for_provider) s.world
        ≡ (err x, w)
      → create client s ≡ failed (wrap x err_create_failed) (record s { world = w })
  unfolding create cast call
  create_refused s h e = ground arith

  create_marks :
      (laws : LibraryLaws lib) (s : State Binding W) (cr : Binding)
      → s.cr ≡ some cr
      → MarkedAtMost (λ q. q.meta) cr (final (create client s))
  create_marks laws s cr h =
      elim (Answer-cases (
        client.declare_binding cr.for_provider.vhost (generate_binding_info cr.for_provider)
          s.world)) [
            | inl (r, w, e) ↦ rw (create_answered s h e) (
                finish_marks laws (record s { world = w; open_bodies = s.open_bodies + 1 }) cr
                  (properties_key_of r) h)
            | inr (x, w, e) ↦ rw (create_refused s h e) (cr, h, inl refl)
          ]

  pub binding-ExternalLaws : LibraryLaws lib → ExternalLaws binding_external (λ q. q.meta)
  unfolding disconnect
  binding-ExternalLaws laws = record {
    observe_reads = observe_binding_reads client;
    observe_meta = λ s cr h. rw (observe-answer client s h) (answer_meta s cr _ h);
    observe_unmanaged = λ s cr h u. rw (observe-answer client s h) (answer_unmanaged s cr _ u);
    create_marks = create_marks laws;
    update_keeps = λ s.
        ap (λ (run : Run (State Binding W) (Unit {0})). (final run).cr)
          (update_and_delete client s).0;
    delete_keeps = λ s. (update_and_delete client s).2;
    disconnect_keeps = λ s. refl;
  }
