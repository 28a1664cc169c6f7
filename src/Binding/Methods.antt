-- ===== src/Binding/Methods.antt =====
-- What the methods of the bindings' external client do to the resource, the server and the bodies.
use provider_rabbitmq.Prelude.{
  ◌+◌, ◌≡◌, ◌≢◌, refl, ◌∙◌, true, Option, none, some, List, [], ◌∷◌, Str, codes, arith,
  if◌then◌else◌, Option-cases, inl, inr, All, Lacks,
}
use provider_rabbitmq.Libraries.{Libraries}
use provider_rabbitmq.Meta.{
  is_crossplane_managed, is_not_crossplane_managed, new_not_crossplane_managed_error,
  set_crossplane_managed,
}
use provider_rabbitmq.Client.{RabbitMqClient}
use provider_rabbitmq.Client.Types.{Result, Response, ok, err, BindingInfo}
use provider_rabbitmq.Go.Error.{new}
use provider_rabbitmq.Handler.{State, done, failed, final, cast, call, fail, does_not_exist}
use provider_rabbitmq.Binding.{
  observe, observe_answer, observe_binding, create, update, delete, finish_create,
  properties_key_of, error_update_not_supported,
}
use provider_rabbitmq.Binding.Names.{NamedAs, get_binding-default_vhost, find_binding-none}
use provider_rabbitmq.Binding.Settings.{
  get_external_name, generate_binding_info, list_bindings, get_binding,
}
use provider_rabbitmq.Binding.Types.{Binding}

-- What the server lists for the spec.
abbrev pub listed : {W : Type 0} → RabbitMqClient W → Binding → W → Result (List BindingInfo)
listed client cr w =
    list_bindings cr.for_provider.vhost cr.for_provider.source cr.for_provider.destination
      cr.for_provider.destination_type client w

-- The state behind a successful creation.
abbrev pub created_state :
    ⦃lib : Libraries⦄ {W : Type 0} → Binding → Str → W → State Binding W → State Binding W
created_state cr key w s = record {
  cr =
      some (record cr {
        meta = set_crossplane_managed cr.meta (get_external_name cr.for_provider key);
      });
  world = w;
  open_bodies = s.open_bodies;
}

module _ ⦃lib : Libraries⦄ {W : Type 0} (client : RabbitMqClient W) where
  pub observe-answer :
      (s : State Binding W) {cr : Binding}
      → s.cr ≡ some cr
      → observe client s ≡ observe_answer cr (listed client cr s.world) s
  unfolding observe cast
  observe-answer s h = ground arith

  answer_reads :
      (s : State Binding W) (cr : Binding) (a : Result (List BindingInfo))
      → ((final (observe_answer cr a s)).world ≡ s.world)
        × ((final (observe_answer cr a s)).open_bodies ≡ s.open_bodies)
  unfolding observe_answer observe_binding
  answer_reads s cr (err e) = (refl, refl)
  answer_reads s cr (ok []) = (refl, refl)
  answer_reads s cr (ok (b ∷ bindings)) = managed (get_binding (b ∷ bindings) cr)
    where
      managed :
          (found : Option BindingInfo)
          → ((final (
                (if is_not_crossplane_managed cr.meta
                    then fail (new_not_crossplane_managed_error cr.meta.name)
                    else observe_binding cr found)
                  s)).world
              ≡ s.world)
            × ((final (
                  (if is_not_crossplane_managed cr.meta
                      then fail (new_not_crossplane_managed_error cr.meta.name)
                      else observe_binding cr found)
                    s)).open_bodies
                ≡ s.open_bodies)
      managed none = (ground arith, ground arith)
      managed (some x) = (ground arith, ground arith)

  -- Observing a binding writes nothing to the server and leaves no response body open.
  pub observe_binding_reads :
      (s : State Binding W)
      → ((final (observe client s)).world ≡ s.world)
        × ((final (observe client s)).open_bodies ≡ s.open_bodies)
  unfolding observe cast
  observe_binding_reads s = elim (Option-cases s.cr) [
    | inl e ↦ rw e (refl, refl)
    | inr (cr, e) ↦ rw (observe-answer s e) (answer_reads s cr (listed client cr s.world))
  ]

  -- A managed binding in the default virtual host, whose external name is the one that a creation
  -- stored and whose other parts hold no slash, is reported as missing and left as it is, although
  -- the server lists bindings, unless a listed binding happens to have the destination's name as
  -- its properties key: the stored name is cut at the wrong place.
  pub default_vhost_lost :
      (s : State Binding W) {cr : Binding} {b : BindingInfo} {bindings : List BindingInfo}
      (key : Str)
      → s.cr ≡ some cr
      → is_crossplane_managed cr.meta ≡ true
      → cr.for_provider.vhost ≡ codes "/"
      → Lacks b'/' cr.for_provider.source
      → Lacks b'/' cr.for_provider.destination_type
      → Lacks b'/' cr.for_provider.destination
      → NamedAs cr (get_external_name cr.for_provider key)
      → listed client cr s.world ≡ ok (b ∷ bindings)
      → All (λ (x : BindingInfo). x.properties_key ≢ cr.for_provider.destination) (b ∷ bindings)
      → observe client s ≡ done does_not_exist s
  unfolding observe_answer is_not_crossplane_managed
  default_vhost_lost s {cr} {b} {bindings} key h m v src ty dst named lists others =
      let missing =
        get_binding-default_vhost (b ∷ bindings) cr key v src ty dst named
        ∙ find_binding-none cr.for_provider cr.for_provider.destination (b ∷ bindings) others in
      observe-answer s h ∙ rw (lists, observe_answer, m, missing)

  pub create_ok :
      (s : State Binding W) {cr : Binding} {r : Response} {w : W} {key : Str}
      → s.cr ≡ some cr
      → client.declare_binding cr.for_provider.vhost (generate_binding_info cr.for_provider) s.world
        ≡ (ok r, w)
      → properties_key_of r ≡ some key
      → create client s ≡ done tt (created_state cr key w s)
  unfolding create cast call finish_create
  create_ok s h e k = ground arith

  -- A creation that the server accepts with an answer that has no readable key ends with the
  -- binding made, the resource as it was, not claimed, and the body of the answer still open.
  pub create_leaks :
      (s : State Binding W) {cr : Binding} {r : Response} {w : W}
      → s.cr ≡ some cr
      → client.declare_binding cr.for_provider.vhost (generate_binding_info cr.for_provider) s.world
        ≡ (ok r, w)
      → properties_key_of r ≡ none
      → ((final (create client s)).open_bodies ≡ s.open_bodies + 1)
        × ((final (create client s)).cr ≡ s.cr)
        × ((final (create client s)).world ≡ w)
  unfolding create cast call finish_create
  create_leaks s h e k = (ground arith, ground arith, ground arith)

  -- An update fails whatever the resource is, and changes nothing; a deletion closes the body of its
  -- answer and leaves the resource as it is.
  pub update_and_delete :
      (s : State Binding W)
      → (update client s ≡ failed (new error_update_not_supported) s)
        × ((final (delete client s)).open_bodies ≡ s.open_bodies)
        × ((final (delete client s)).cr ≡ s.cr)
  unfolding update delete cast call
  update_and_delete s = (refl, ground arith, ground arith)
