-- ===== src/Binding/Deletion.antt =====
-- Which binding a deletion asks the server to remove, after an observation.
use mathlib.Core.Path.{subst}
use provider_rabbitmq.Prelude.{
  ◌≡◌, refl, sym, ap, ◌∙◌, true, false, some, List, [], ◌∷◌, Str, arith, length, get_elem?, ltb,
  Bool-cases, Option-cases, inl, inr,
}
use provider_rabbitmq.Libraries.{Libraries}
use provider_rabbitmq.Meta.{is_not_crossplane_managed}
use provider_rabbitmq.Client.{RabbitMqClient}
use provider_rabbitmq.Client.Types.{Result, ok, err, BindingInfo}
use provider_rabbitmq.Handler.{State, done, final, cast, call, ExternalObservation, does_not_exist}
use provider_rabbitmq.Binding.{observe, observe_answer, observe_binding, delete}
use provider_rabbitmq.Binding.Methods.{observe-answer, listed}
use provider_rabbitmq.Binding.Names.{find_binding_sound}
use provider_rabbitmq.Binding.Settings.{
  generate_binding_info, generate_binding_observation, binding_from, get_binding,
  properties_key_expected_parts_counter,
}
use provider_rabbitmq.Binding.Types.{Binding, BindingParameters}

-- The endpoints of a binding are those of the spec.
abbrev pub HasEndpoints : BindingParameters → BindingInfo → Type 0
HasEndpoints p b =
    (b.source ≡ p.source)
    × (b.destination ≡ p.destination)
    × (b.destination_type ≡ p.destination_type)

binding_from-HasEndpoints :
    (p : BindingParameters) (bindings : List BindingInfo) (id : List Str) {b : BindingInfo}
    → binding_from p bindings id ≡ some b
    → HasEndpoints p b
unfolding binding_from
binding_from-HasEndpoints p bindings id {b} h =
    elim (Bool-cases (ltb (length id) properties_key_expected_parts_counter)) [
      | inl short ↦ absurd (cc (rw short at h))
      | inr long ↦ elim (Option-cases (get_elem? id 4)) [
        | inl missing ↦ absurd (cc (rw (long, missing) at h))
        | inr (key, e) ↦
            let (s, d, t, k) = find_binding_sound p key bindings (rw (long, e) at h) in (s, d, t)
      ]
    ]

get_binding-HasEndpoints :
    (bindings : List BindingInfo) (cr : Binding) {b : BindingInfo}
    → get_binding bindings cr ≡ some b
    → HasEndpoints cr.for_provider b
unfolding get_binding
get_binding-HasEndpoints bindings cr h = binding_from-HasEndpoints cr.for_provider bindings _ h

module _ ⦃lib : Libraries⦄ {W : Type 0} where
  -- An observation that finds a binding, and the state it leaves.
  abbrev Finds : Binding → Result (List BindingInfo) → State Binding W → State Binding W → Type 0
  Finds cr answer s s' =
      (bindings : List BindingInfo) × (stored : BindingInfo) × (answer ≡ ok bindings)
      × (get_binding bindings cr ≡ some stored)
      × (s' ≡ record s {
        cr = some (record cr {
          at_provider = generate_binding_observation (some stored);
          available = true;
        });
      })

  nothing :
      (s s' : State Binding W) (o : ExternalObservation)
      → done does_not_exist s ≡ done o s'
      → ¬ (o.resource_exists ≡ true)
  nothing s s' o h x =
      let same : does_not_exist ≡ o = cc in
      let exists : false ≡ true = ap (λ y. y.resource_exists) same ∙ x in absurd (cc)

  state : {s s' : State Binding W} (o o' : ExternalObservation) → done o s ≡ done o' s' → s ≡ s'
  state o o' h = cc

  answer-Finds :
      (s s' : State Binding W) (cr : Binding) (answer : Result (List BindingInfo))
      (o : ExternalObservation)
      → observe_answer cr answer s ≡ done o s'
      → o.resource_exists ≡ true
      → Finds cr answer s s'
  unfolding observe_answer observe_binding
  answer-Finds s s' cr (err e) o h x = absurd (ground arith)
  answer-Finds s s' cr (ok []) o h x = absurd (ground arith)
  answer-Finds s s' cr (ok (b ∷ bindings)) o h x =
      elim (Bool-cases (is_not_crossplane_managed cr.meta)) [
        | inl foreign ↦ absurd (cc (rw (foreign) at h))
        | inr own ↦ elim (Option-cases (get_binding (b ∷ bindings) cr)) [
          | inl missing ↦ absurd (nothing s s' o (rw (own, missing) at h) x)
          | inr (stored, e) ↦ (b ∷ bindings, stored, refl, e, sym (state _ _ (rw (own, e) at h)))
        ]
      ]

  -- After an observation that found the binding, a deletion asks the server to remove the binding
  -- that the search found in the server's listing: one with the endpoints of the spec, under the
  -- properties key that is listed for it.
  pub observed_then_deleted :
      (client : RabbitMqClient W) (s s' : State Binding W) {cr : Binding} {o : ExternalObservation}
      → s.cr ≡ some cr
      → observe client s ≡ done o s'
      → o.resource_exists ≡ true
      → (bindings : List BindingInfo) × (stored : BindingInfo) × (listed client cr s.world
          ≡ ok bindings)
        × (get_binding bindings cr ≡ some stored)
        × HasEndpoints cr.for_provider stored
        × ((final (delete client s')).world
            ≡ (client.delete_binding cr.for_provider.vhost
                (record (generate_binding_info cr.for_provider) {
                  properties_key = stored.properties_key;
                })
                s.world).1)
  unfolding delete cast call generate_binding_observation
  observed_then_deleted client s s' {cr} {o} h ob x =
      let (bindings, stored, e, g, same) =
        answer-Finds s s' cr (listed client cr s.world) o (sym (observe-answer client s h) ∙ ob)
          x in
      (
        bindings,
        stored,
        e,
        g,
        get_binding-HasEndpoints bindings cr g,
        subst (Deletes stored) (sym same) (ground arith),
      )
    where
      Deletes : BindingInfo → State Binding W → Type 0
      Deletes stored t =
          (final (delete client t)).world
          ≡ (client.delete_binding cr.for_provider.vhost
              (record (generate_binding_info cr.for_provider) {
                properties_key = stored.properties_key;
              })
              s.world).1
