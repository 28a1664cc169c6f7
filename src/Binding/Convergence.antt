-- ===== src/Binding/Convergence.antt =====
-- Whether a binding that was created is found again, and found up to date.
use mathlib.Core.Path.{subst}
use provider_rabbitmq.Prelude.{
  ◌≡◌, ◌↔◌, refl, sym, ap, ◌∙◌, true, some, List, [], ◌∷◌, ◌++◌, Str, codes, str_eq, str_eq_iff,
  All, Bool-cases, inl, inr,
}
use provider_rabbitmq.Libraries.{Libraries, LibraryLaws}
use provider_rabbitmq.Meta.{
  is_crossplane_managed, is_not_crossplane_managed, set_crossplane_managed,
}
use provider_rabbitmq.Meta.Claims.{set_crossplane_managed-IsClaimed}
use provider_rabbitmq.Client.{RabbitMqClient}
use provider_rabbitmq.Client.Arguments.{
  decoded_map, AllSurvive, AllExact, ExactMap, AllExact-converted,
}
use provider_rabbitmq.Client.Requests.{written_arguments}
use provider_rabbitmq.Client.Types.{Result, Response, ok, BindingInfo}
use provider_rabbitmq.Client.Utilities.{or_empty}
use provider_rabbitmq.Handler.{State, Run, done, ExternalObservation}
use provider_rabbitmq.Binding.{observe, observe_answer, observe_binding, create, properties_key_of}
use provider_rabbitmq.Binding.Agreement.{is_binding_up_to_date_iff}
use provider_rabbitmq.Binding.Methods.{observe-answer, create_ok, created_state, listed}
use provider_rabbitmq.Binding.Names.{IsPlain, get_binding-external_name, is_the_binding_iff}
use provider_rabbitmq.Binding.Settings.{
  generate_binding_info, is_up_to_date, list_bindings, is_the_binding, find_binding, get_binding,
  get_external_name,
}
use provider_rabbitmq.Binding.Types.{Binding, BindingParameters}

-- What the server stores of a binding that is declared: its endpoints, its routing key, and its
-- arguments with numbers as decoded JSON, under the key that it answered.
pub record Reflects (vhost : Str) (info : BindingInfo) (key : Str) (stored : BindingInfo)
    : Type 0 where
  pub same_source : stored.source ≡ info.source
  pub same_vhost : stored.vhost ≡ vhost
  pub same_destination : stored.destination ≡ info.destination
  pub same_destination_type : stored.destination_type ≡ info.destination_type
  pub same_routing_key : stored.routing_key ≡ info.routing_key
  pub same_arguments : stored.arguments ≡ decoded_map info.arguments
  pub same_key : stored.properties_key ≡ key

-- The listing has the binding, and before it only bindings with other endpoints or another key.
abbrev pub IsOther : BindingInfo → BindingInfo → Type 0
IsOther stored b = ¬ (
    (b.source ≡ stored.source)
    × (b.destination ≡ stored.destination)
    × (b.destination_type ≡ stored.destination_type)
    × (b.properties_key ≡ stored.properties_key))

abbrev pub Lists : Result (List BindingInfo) → BindingInfo → Type 0
Lists answer stored =
    (before : List BindingInfo) × (after : List BindingInfo) × (answer
      ≡ ok (before ++ (stored ∷ after)))
    × All (IsOther stored) before

-- The listing for the kind of the destination has the binding, and so has that of the virtual host.
pub record IsListed {W : Type 0} (client : RabbitMqClient W) (vhost : Str) (info : BindingInfo)
    (w : W) (stored : BindingInfo) : Type 0 where
  pub to_queue :
      info.destination_type ≡ codes "queue"
      → Lists (client.list_queue_bindings_between vhost info.source info.destination w) stored
  pub to_exchange :
      info.destination_type ≡ codes "exchange"
      → Lists (client.list_exchange_bindings_between vhost info.source info.destination w) stored
  pub in_vhost : Lists (client.list_bindings_in vhost w) stored

-- A binding that was declared is stored and listed.
pub record BindingServer {W : Type 0} (client : RabbitMqClient W) : Type 0 where
  pub declared :
      (vhost : Str) (info : BindingInfo) (w w' : W) (r : Response) (key : Str)
      → client.declare_binding vhost info w ≡ (ok r, w')
      → properties_key_of r ≡ some key
      → ExactMap info.arguments
      → (stored : BindingInfo) × Reflects vhost info key stored
        × IsListed client vhost info w' stored

found_first :
    (p : BindingParameters) (key : Str) (stored : BindingInfo) (before after : List BindingInfo)
    → is_the_binding p key stored ≡ true
    → All (IsOther stored) before
    → find_binding p key (before ++ (stored ∷ after)) ≡ some stored
unfolding find_binding
found_first p key stored [] after this others = rw this refl
found_first p key stored (b ∷ before) after this (other, others) =
    elim (Bool-cases (is_the_binding p key b)) [
      | inl same ↦
          let (s, d, t, k) = (is_the_binding_iff p key b).0 same in
          let (s', d', t', k') = (is_the_binding_iff p key stored).0 this in
          absurd (other (s ∙ sym s', d ∙ sym d', t ∙ sym t', k ∙ sym k'))
      | inr differs ↦ rw differs (found_first p key stored before after this others)
    ]

-- The binding that reflects a spec is up to date with it, up to the arguments.
reflected_up_to_date :
    (p : BindingParameters) (key : Str) (stored : BindingInfo)
    → Reflects p.vhost (generate_binding_info p) key stored
    → (is_up_to_date p stored ≡ true) ↔ AllSurvive (or_empty p.arguments)
unfolding generate_binding_info
reflected_up_to_date p key stored r =
    let (to, from) = is_binding_up_to_date_iff p stored in
    let (back, forth) =
      written_arguments (or_empty p.arguments) stored.arguments r.same_arguments in
    (
      (λ u. back (to u).1.1.1.1.1),
      (λ a. from (
        sym r.same_source,
        (
          sym r.same_vhost,
          (
            sym r.same_destination,
            (sym r.same_destination_type, (sym r.same_routing_key, forth a)),
          ),
        ),
      )),
    )

reflected_is_the_binding :
    (p : BindingParameters) (key : Str) (stored : BindingInfo)
    → Reflects p.vhost (generate_binding_info p) key stored
    → is_the_binding p key stored ≡ true
unfolding generate_binding_info
reflected_is_the_binding p key stored r =
    (is_the_binding_iff p key stored).1
      (r.same_source, r.same_destination, r.same_destination_type, r.same_key)

exact_arguments :
    (p : BindingParameters)
    → AllExact (or_empty p.arguments)
    → ExactMap (generate_binding_info p).arguments
unfolding generate_binding_info
exact_arguments p exact = AllExact-converted (or_empty p.arguments) exact

-- The listing that is asked is the one for the kind of the destination, or that of the virtual host.
module _ {W : Type 0} (client : RabbitMqClient W) where
  asked :
      (p : BindingParameters) (stored : BindingInfo) (w : W)
      → IsListed client p.vhost (generate_binding_info p) w stored
      → Lists (list_bindings p.vhost p.source p.destination p.destination_type client w) stored
  unfolding list_bindings generate_binding_info
  asked p stored w listed = elim (Bool-cases (str_eq p.destination_type (codes "queue"))) [
    | inl queue ↦ rw queue (listed.to_queue ((str_eq_iff _ _).0 queue))
    | inr no_queue ↦ elim (Bool-cases (str_eq p.destination_type (codes "exchange"))) [
      | inl exchange ↦ rw (no_queue, exchange) (listed.to_exchange ((str_eq_iff _ _).0 exchange))
      | inr neither ↦ rw (no_queue, neither) listed.in_vhost
    ]
  ]

module _ ⦃lib : Libraries⦄ {W : Type 0} where
  -- The end of an observation that finds the binding.
  Found : Binding → BindingInfo → Run (State Binding W) ExternalObservation → Type 0
  Found cr stored run =
      (o : ExternalObservation) × (s' : State Binding W) × (run ≡ done o s')
      × (o.resource_exists ≡ true)
      × (o.resource_up_to_date ≡ is_up_to_date cr.for_provider stored)

  answer-Found :
      (s : State Binding W) (cr : Binding) (stored : BindingInfo) (before after : List BindingInfo)
      → is_crossplane_managed cr.meta ≡ true
      → get_binding (before ++ (stored ∷ after)) cr ≡ some stored
      → Found cr stored (observe_answer cr (ok (before ++ (stored ∷ after))) s)
  unfolding Found observe_answer observe_binding is_not_crossplane_managed
  answer-Found s cr stored [] after m found = rw (m, found) (_, _, refl, refl, refl)
  answer-Found s cr stored (b ∷ before) after m found = rw (m, found) (_, _, refl, refl, refl)

  -- An observation of a managed binding that the server lists.
  observe-listed :
      (client : RabbitMqClient W) (s : State Binding W) (cr : Binding) (stored : BindingInfo)
      → s.cr ≡ some cr
      → is_crossplane_managed cr.meta ≡ true
      → (before after : List BindingInfo)
      → listed client cr s.world ≡ ok (before ++ (stored ∷ after))
      → get_binding (before ++ (stored ∷ after)) cr ≡ some stored
      → Found cr stored (observe client s)
  observe-listed client s cr stored h m before after lists found =
      subst (Found cr stored)
        (sym (observe-answer client s h ∙ ap (λ a. observe_answer cr a s) lists))
        (answer-Found s cr stored before after m found)

  -- On a server that stores and lists what is declared, if the answer to the declaration has a
  -- readable key, no part of the external name holds a slash, and the numbers among the arguments
  -- have at most 15 digits, the creation succeeds, and an observation then finds the binding, and
  -- finds it up to date exactly when every argument survives the way through the server: it is no
  -- number for `Atoi`, or the plain spelling of one of at most six digits.
  pub created_binding_observed :
      (laws : LibraryLaws lib) {client : RabbitMqClient W} (server : BindingServer client)
      (s : State Binding W) {cr : Binding} {r : Response} {w : W} {key : Str}
      → s.cr ≡ some cr
      → client.declare_binding cr.for_provider.vhost (generate_binding_info cr.for_provider) s.world
        ≡ (ok r, w)
      → properties_key_of r ≡ some key
      → IsPlain cr.for_provider key
      → AllExact (or_empty cr.for_provider.arguments)
      → (o : ExternalObservation) × (s'' : State Binding W) × (create client s
          ≡ done tt (created_state cr key w s))
        × (observe client (created_state cr key w s) ≡ done o s'')
        × (o.resource_exists ≡ true)
        × ((o.resource_up_to_date ≡ true) ↔ AllSurvive (or_empty cr.for_provider.arguments))
  unfolding Found set_crossplane_managed generate_binding_info
  created_binding_observed laws {client} server s {cr} {r} {w} {key} h e k plain exact =
      let info = generate_binding_info cr.for_provider in
      let (stored, shown, is_listed) =
        server.declared cr.for_provider.vhost info s.world w r key e k
          (exact_arguments cr.for_provider exact) in
      let (before, after, lists, others) = asked client cr.for_provider stored w is_listed in
      let claimed =
        set_crossplane_managed-IsClaimed laws cr.meta (get_external_name cr.for_provider key) in
      let cr' = record cr {
        meta = set_crossplane_managed cr.meta (get_external_name cr.for_provider key);
      } in
      let found =
        get_binding-external_name (before ++ (stored ∷ after)) cr' key plain claimed.1
        ∙ found_first cr.for_provider key stored before after
            (reflected_is_the_binding cr.for_provider key stored shown) others in
      let (o, t, ob, ex, up) =
        observe-listed client (created_state cr key w s) cr' stored refl claimed.0 before after
          lists found in
      let (to, from) = reflected_up_to_date cr.for_provider key stored shown in
      (o, t, create_ok client s h e k, ob, ex, ((λ u. to (sym up ∙ u)), (λ c. up ∙ from c)))
