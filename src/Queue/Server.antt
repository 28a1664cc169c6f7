-- ===== src/Queue/Server.antt =====
-- What a server promises of queues: that it stores what is declared. The type of a queue goes to it
-- among the arguments.
use mathlib.Core.Path.{subst}
use mathlib.Core.Option
use mathlib.Core.Option.{get_or}
use provider_rabbitmq.Prelude.{
  ◌≡◌, ◌↔◌, refl, sym, ap, ◌∙◌, ◌⊎◌, inl, inr, false, Option, none, some, [], ◌∷◌, Str, StringMap,
  codes, str_eq, lookup, Bool-cases, fill,
}
use provider_rabbitmq.Client.{RabbitMqClient}
use provider_rabbitmq.Client.Arguments.{
  value_of, decoded_map, AllSurvive, AllExact, ExactMap, AllExact-converted,
}
use provider_rabbitmq.Client.Requests.{Asks-fill, filled_arguments}
use provider_rabbitmq.Client.Types.{
  Response, ok, DetailedQueueInfo, QueueSettings as ApiQueueSettings,
}
use provider_rabbitmq.Client.Utilities.{
  or_empty, to_interface, convert_value, convert_string_map_to_interface_map,
  convert_interface_map_to_string_map,
}
use provider_rabbitmq.Client.Comparisons.{Asks}
use provider_rabbitmq.Go.Decimal.{atoi}
use provider_rabbitmq.Go.Value.{string}
use provider_rabbitmq.Queue.Agreement.{SettingsAgree}
use provider_rabbitmq.Queue.Settings.{
  generate_queue_settings, late_initialize_settings, empty_settings,
}
use provider_rabbitmq.Queue.Types.{QueueSettings}

abbrev pub queue_type_key : Str
queue_type_key = codes "x-queue-type"

-- The types of queues that the server has.
abbrev pub IsQueueType : Str → Type 0
IsQueueType t = (t ≡ codes "classic") ⊎ (t ≡ codes "quorum") ⊎ (t ≡ codes "stream")

-- The arguments that are declared name a type of queues, and the field for it is empty or repeats it.
pub record NamesType (settings : ApiQueueSettings) (t : Str) : Type 0 where
  pub is_type : IsQueueType t
  pub as_argument : value_of queue_type_key (get_or settings.arguments []) ≡ some (string t)
  pub field_agrees : (settings.type ≡ []) ⊎ (settings.type ≡ t)

-- The server's answer shows the settings that were declared. The type of a queue is the one that its
-- argument `x-queue-type` names; where no argument names one, the server chooses, and it may list its
-- choice among the arguments. Numbers among the arguments come back as decoded JSON.
pub record Reflects (settings : ApiQueueSettings) (info : DetailedQueueInfo) : Type 0 where
  pub same_durable : settings.durable ≡ info.durable
  pub same_auto_delete : settings.auto_delete ≡ info.auto_delete
  pub same_type : (t : Str) → NamesType settings t → info.type ≡ t
  pub same_arguments :
      (t : Str) → NamesType settings t → info.arguments ≡ decoded_map (get_or settings.arguments [])

-- A queue that was declared is there, with those settings.
pub record QueueServer {W : Type 0} (client : RabbitMqClient W) : Type 0 where
  pub declared :
      (vhost name : Str) (settings : ApiQueueSettings) (w w' : W) (r : Response)
      → client.declare_queue vhost name settings w ≡ (ok r, w')
      → ExactMap (get_or settings.arguments [])
      → (info : DetailedQueueInfo) × (client.get_queue vhost name w' ≡ ok info)
        × Reflects settings info

-- What a spec asks for.
abbrev pub requested_arguments : Option QueueSettings → StringMap
requested_arguments none = []
requested_arguments (some settings) = or_empty settings.arguments

-- The type is left to the server with all arguments, or it is one of the arguments, which the field
-- for it repeats if it is set.
abbrev pub StatesTypeBy : Option Str → Option StringMap → Type 0
StatesTypeBy type none = type ≡ none
StatesTypeBy type (some m) =
    (t : Str) × IsQueueType t
    × (lookup queue_type_key m ≡ some t)
    × ((type ≡ none) ⊎ (type ≡ some t))

abbrev pub StatesType : Option QueueSettings → Type 0
StatesType none = Unit
StatesType (some settings) = StatesTypeBy settings.type settings.arguments

type_sent : (t : Str) → IsQueueType t → to_interface t ≡ string t
unfolding to_interface convert_value atoi
type_sent t (inl e) = ap to_interface e ∙ ap string (sym e)
type_sent t (inr (inl e)) = ap to_interface e ∙ ap string (sym e)
type_sent t (inr (inr e)) = ap to_interface e ∙ ap string (sym e)

value_of-converted :
    (k t : Str) (m : StringMap)
    → IsQueueType t
    → lookup k m ≡ some t
    → value_of k (convert_string_map_to_interface_map m) ≡ some (string t)
unfolding lookup value_of convert_string_map_to_interface_map
value_of-converted k t [] q h = absurd (cc)
value_of-converted k t ((j, v) ∷ m) q h = elim (Bool-cases (str_eq k j)) [
  | inl same ↦
      let e : v ≡ t = cc (rw same at h) in rw same (ap some (ap to_interface e ∙ type_sent t q))
  | inr other ↦ rw other (value_of-converted k t m q (rw other at h))
]

-- A spec that names a type asks for it.
spec-NamesType :
    (q : QueueSettings) (m : StringMap) (t : Str)
    → q.arguments ≡ some m
    → IsQueueType t
    → lookup queue_type_key m ≡ some t
    → (q.type ≡ none) ⊎ (q.type ≡ some t)
    → NamesType (generate_queue_settings (some q)) t
unfolding generate_queue_settings
spec-NamesType q m t e is_type named field = record {
  is_type = is_type;
  as_argument =
      ap
        (λ a.
          value_of queue_type_key (get_or (Option.map convert_string_map_to_interface_map a) []))
        e
      ∙ value_of-converted queue_type_key t m is_type named;
  field_agrees = by field;
}
  where
    by : (q.type ≡ none) ⊎ (q.type ≡ some t) → (get_or q.type [] ≡ []) ⊎ (get_or q.type [] ≡ t)
    by (inl h) = inl (ap (λ o. get_or o []) h)
    by (inr h) = inr (ap (λ o. get_or o []) h)

filled_type : (o : Option Str) (t a : Str) → (o ≡ none) ⊎ (o ≡ some t) → a ≡ t → Asks (fill o a) a
filled_type o t a (inl h) e = subst (λ p. Asks (fill p a) a) (sym h) refl
filled_type o t a (inr h) e = subst (λ p. Asks (fill p a) a) (sym h) (sym e)

-- The type that is filled in is the server's, and the arguments are the server's exactly if they
-- survive the way through it.
typed_fields :
    (q : QueueSettings) (info : DetailedQueueInfo)
    → StatesTypeBy q.type q.arguments
    → Reflects (generate_queue_settings (some q)) info
    → Asks (fill q.type info.type) info.type
      × ((or_empty (fill q.arguments (convert_interface_map_to_string_map info.arguments))
            ≡ convert_interface_map_to_string_map info.arguments)
          ↔ AllSurvive (or_empty q.arguments))
unfolding generate_queue_settings or_empty
typed_fields q info typed r = by q.arguments refl typed
  where
    Typed : Option StringMap → Type 0
    Typed a =
        Asks (fill q.type info.type) info.type
        × ((or_empty (fill a (convert_interface_map_to_string_map info.arguments))
              ≡ convert_interface_map_to_string_map info.arguments)
            ↔ AllSurvive (or_empty a))

    by : (a : Option StringMap) → q.arguments ≡ a → StatesTypeBy q.type a → Typed a
    by none e untyped = (
      subst (λ p. Asks (fill p info.type) info.type) (sym untyped) refl,
      ((λ _. tt), (λ _. refl)),
    )
    by (some m) e (t, is_type, named, field) =
        let names = spec-NamesType q m t e is_type named field in
        (
          filled_type q.type t info.type field (r.same_type t names),
          filled_arguments (some m) info.arguments (
              r.same_arguments t names
              ∙ ap (λ a. decoded_map (get_or (Option.map convert_string_map_to_interface_map a) []))
                  e),
        )

-- After late initialization the settings agree exactly when the arguments survive the round trip.
pub settings_agree :
    (o : Option QueueSettings) (info : DetailedQueueInfo)
    → StatesType o
    → Reflects (generate_queue_settings o) info
    → SettingsAgree (some (late_initialize_settings (get_or o empty_settings) info)) info
      ↔ AllSurvive (requested_arguments o)
unfolding generate_queue_settings late_initialize_settings or_empty
settings_agree none info typed r = ((λ _. tt), (λ _. (refl, (refl, (refl, refl)))))
settings_agree (some q) info typed r =
    let (same_type, (to, from)) = typed_fields q info typed r in
    (
      (λ h. to h.1.1.1),
      (λ s. (
        same_type,
        (
          Asks-fill q.durable false r.same_durable,
          (Asks-fill q.auto_delete false r.same_auto_delete, from s),
        ),
      )),
    )

pub exact_arguments :
    (o : Option QueueSettings)
    → AllExact (requested_arguments o)
    → ExactMap (get_or (generate_queue_settings o).arguments [])
unfolding generate_queue_settings or_empty
exact_arguments none h = tt
exact_arguments (some q) h = exact_converted q.arguments h
  where
    exact_converted :
        (p : Option StringMap)
        → AllExact (or_empty p)
        → ExactMap (get_or (Option.map convert_string_map_to_interface_map p) [])
    exact_converted none h' = tt
    exact_converted (some m) h' = AllExact-converted m h'
