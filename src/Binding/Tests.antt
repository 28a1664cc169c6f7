-- ===== src/Binding/Tests.antt =====
-- Runs of the binding client on the small server, and the theorems at concrete inputs.
use provider_rabbitmq.Prelude.{
  List, not, ◌≡◌, ◌↔◌, ◌≢◌, refl, Bool, true, false, none, some, [], ◌∷◌, Str, codes, arith, str_eq,
  lookup, ℕ, ◌==◌, ◌||◌, Lacks, str_eq_iff, sym, ap, ◌∙◌,
}
use provider_rabbitmq.Libraries.{Libraries}
use provider_rabbitmq.Libraries.Plain.{plain_libraries, plain-LibraryLaws}
use provider_rabbitmq.Meta.{is_not_crossplane_managed, is_crossplane_managed}
use provider_rabbitmq.Client.{RabbitMqClient}
use provider_rabbitmq.Client.Memory.{Memory, empty_memory, memory_client, binding_info, bindings_to}
use provider_rabbitmq.Client.Types.{ok, BindingInfo, Response}
use provider_rabbitmq.Handler.{cast, State, done, final, does_not_exist, ExternalObservation}
use provider_rabbitmq.Binding.{
  delete, observe_answer, observe_binding, observe, create, properties_key_of,
}
use provider_rabbitmq.Go.Split.{split}
use provider_rabbitmq.Go.Url.{path_unescape}
use provider_rabbitmq.Client.Arguments.{AllSurvive}
use provider_rabbitmq.Client.Utilities.{or_empty}
use provider_rabbitmq.Binding.Deletion.{HasEndpoints, observed_then_deleted}
use provider_rabbitmq.Binding.Convergence.{BindingServer, Lists, created_binding_observed}
use provider_rabbitmq.Binding.Methods.{listed, default_vhost_lost, create_leaks, created_state}
use provider_rabbitmq.Binding.Names.{get_binding-external_name}
use provider_rabbitmq.Binding.Settings.{
  generate_binding_observation, name_parts, binding_from, is_up_to_date, find_binding, get_binding,
  get_external_name, is_the_binding, list_bindings, generate_binding_info,
}
use provider_rabbitmq.Binding.Types.{BindingParameters-discrete, Binding, BindingParameters}

instance abbrev lib : Libraries
lib = plain_libraries

-- The hypotheses on names, by computing.
abbrev contains : ℕ → Str → Bool
contains c [] = false
contains c (d ∷ s) = (d == c) || contains c s

lacking : (c : ℕ) (s : Str) → contains c s ≡ false → Lacks c s
lacking c [] h = tt
lacking c (d ∷ s) h = (ground arith, lacking c s (ground arith))

other_than : (s t : Str) → str_eq s t ≡ false → s ≢ t
other_than s t h e = true-ne-false (sym ((str_eq_iff s t).1 e) ∙ h)
  where
    true-ne-false : true ≢ false
    true-ne-false x = absurd (cc)

abbrev parameters : Str → BindingParameters
parameters vhost = record {
  vhost = vhost;
  source = codes "orders";
  destination = codes "billing";
  destination_type = codes "queue";
  routing_key = codes "paid";
  arguments = none;
}

abbrev named : Str → Str → Binding
named vhost name = record {
  meta = record {
    name = codes "billing";
    namespace = codes "shop";
    annotations =
        (codes "crossplane.io/external-name", name)
        ∷ (codes "rabbitmq.crossplane.io/managed", codes "true")
        ∷ [];
  };
  for_provider = parameters vhost;
  at_provider = record {
    source = [];
    vhost = [];
    destination = [];
    destination_type = [];
    routing_key = [];
    properties_key = [];
    arguments = [];
  };
  available = false;
}

-- The server's binding.
abbrev paid : BindingInfo
paid = record {
  source = codes "orders";
  vhost = codes "shop";
  destination = codes "billing";
  destination_type = codes "queue";
  routing_key = codes "paid";
  arguments = [];
  properties_key = codes "paid";
}

abbrev in_shop : Binding
in_shop = named (codes "shop") (codes "shop/orders/queue/billing/paid")

get_binding-external_name_example :
    get_binding (paid ∷ []) in_shop ≡ find_binding in_shop.for_provider (codes "paid") (paid ∷ [])
unfolding lookup str_eq get_external_name
get_binding-external_name_example =
    get_binding-external_name (paid ∷ []) in_shop (codes "paid")
      (
        lacking b'/' (codes "shop") refl,
        lacking b'/' (codes "orders") refl,
        lacking b'/' (codes "queue") refl,
        lacking b'/' (codes "billing") refl,
        lacking b'/' (codes "paid") refl,
      )
      refl

found : find_binding in_shop.for_provider (codes "paid") (paid ∷ []) ≡ some paid
unfolding find_binding is_the_binding str_eq
found = refl

-- The same binding in the default virtual host.
abbrev in_default : Binding
in_default = named (codes "/") (codes "//orders/queue/billing/paid")

abbrev listing : State Binding Memory
listing = record {
  cr = some in_default;
  world = record empty_memory { bindings = paid ∷ [] };
  open_bodies = 0;
}

in_default_managed : is_crossplane_managed in_default.meta ≡ true
unfolding is_crossplane_managed lookup str_eq
in_default_managed = refl

default_vhost_lost_example : observe memory_client listing ≡ done does_not_exist listing
unfolding list_bindings lookup str_eq get_external_name bindings_to
default_vhost_lost_example =
    default_vhost_lost memory_client listing (codes "paid") refl in_default_managed refl
      (lacking b'/' (codes "orders") refl) (lacking b'/' (codes "queue") refl)
      (lacking b'/' (codes "billing") refl) refl refl
      (other_than (codes "paid") (codes "billing") refl, tt)

-- A server whose answer has a malformed `Location`.
abbrev odd_client : RabbitMqClient Memory
odd_client = record memory_client {
  declare_binding = λ vhost info w.
      (ok (record { location = codes "api/%" }), record w { bindings = info ∷ w.bindings });
}

abbrev start : State Binding Memory
start = record { cr = some in_shop; world = empty_memory; open_bodies = 0 }

malformed : properties_key_of (record { location = codes "api/%" }) ≡ none
unfolding properties_key_of path_unescape split
malformed = refl

create_leaks_example :
    ((final (create odd_client start)).open_bodies ≡ 1)
    × ((final (create odd_client start)).cr ≡ some in_shop)
    × ((final (create odd_client start)).world
        ≡ record empty_memory { bindings = generate_binding_info in_shop.for_provider ∷ [] })
create_leaks_example = create_leaks odd_client start refl refl malformed

-- The small server answers with the key of a binding without a routing key.
tilde : properties_key_of (record { location = codes "api/~" }) ≡ some (codes "~")
unfolding properties_key_of path_unescape split
tilde = refl

answered_key :
    (r : Response) (key : Str)
    → r ≡ record { location = codes "api/~" }
    → properties_key_of r ≡ some key
    → codes "~" ≡ key
answered_key r key e k = cc (tilde, e, k)

-- The server lists the last binding of a kind first.
kind_listed :
    (vhost : Str) (info : BindingInfo) (kind : Str) (w w' : Memory) (r : Response)
    → w' ≡ record w { bindings = binding_info vhost info ∷ w.bindings }
    → info.destination_type ≡ kind
    → Lists (ok (bindings_to kind w'.bindings)) (binding_info vhost info)
unfolding bindings_to
kind_listed vhost info kind w w' r e h = (
  [],
  bindings_to kind w.bindings,
  ap (λ (m : Memory). ok (bindings_to kind m.bindings)) e ∙ rw ((str_eq_iff _ _).1 h) refl,
  tt,
)

memory_server : BindingServer memory_client
memory_server = record {
  declared = λ vhost info w w' r key e k exact. (
    binding_info vhost info,
    record {
      same_source = refl;
      same_vhost = refl;
      same_destination = refl;
      same_destination_type = refl;
      same_routing_key = refl;
      same_arguments = refl;
      same_key = answered_key r key (cc) k;
    },
    record {
      to_queue = λ kind. kind_listed vhost info (codes "queue") w w' r (cc) kind;
      to_exchange = λ kind. kind_listed vhost info (codes "exchange") w w' r (cc) kind;
      in_vhost = ([], w.bindings, cc, tt);
    },
  );
}

abbrev fresh : State Binding Memory
fresh = record start { cr = some in_shop }

-- The server after the declaration.
abbrev declared_world : Memory
declared_world = record empty_memory {
  bindings = binding_info (codes "shop") (generate_binding_info in_shop.for_provider) ∷ [];
}

created_binding_observed_example :
    (o : ExternalObservation) × (s : State Binding Memory) × (create memory_client fresh
      ≡ done tt (created_state in_shop (codes "~") declared_world fresh))
    × (observe memory_client (created_state in_shop (codes "~") declared_world fresh) ≡ done o s)
    × (o.resource_exists ≡ true)
    × ((o.resource_up_to_date ≡ true) ↔ AllSurvive [])
unfolding or_empty
created_binding_observed_example =
    created_binding_observed plain-LibraryLaws memory_server fresh refl refl tilde
      (
        lacking b'/' (codes "shop") refl,
        lacking b'/' (codes "orders") refl,
        lacking b'/' (codes "queue") refl,
        lacking b'/' (codes "billing") refl,
        lacking b'/' (codes "~") refl,
      )
      tt

-- A managed binding that the server lists is observed, and then deleted.
abbrev shop_listing : State Binding Memory
shop_listing = record {
  cr = some in_shop;
  world = record empty_memory { bindings = paid ∷ [] };
  open_bodies = 0;
}

abbrev seen : State Binding Memory
seen = record shop_listing {
  cr =
      some (record in_shop {
        at_provider = generate_binding_observation (some paid);
        available = true;
      });
}

abbrev seen_observation : ExternalObservation
seen_observation = record {
  resource_exists = true;
  resource_up_to_date = is_up_to_date in_shop.for_provider paid;
  resource_late_initialized = not (
      plain_libraries.cmp_equal BindingParameters BindingParameters-discrete in_shop.for_provider
        in_shop.for_provider);
}

observed_paid : observe memory_client shop_listing ≡ done seen_observation seen
unfolding observe observe_answer observe_binding cast is_not_crossplane_managed lookup str_eq
    list_bindings get_binding name_parts split binding_from find_binding is_the_binding bindings_to
observed_paid = refl

observed_then_deleted_example :
    (bindings : List BindingInfo) × (stored : BindingInfo) × (listed memory_client in_shop
        shop_listing.world
      ≡ ok bindings)
    × (get_binding bindings in_shop ≡ some stored)
    × HasEndpoints in_shop.for_provider stored
    × ((final (delete memory_client seen)).world
        ≡ (memory_client.delete_binding
            (codes "shop")
            (record (generate_binding_info in_shop.for_provider) {
              properties_key = stored.properties_key;
            })
            shop_listing.world).1)
observed_then_deleted_example =
    observed_then_deleted memory_client shop_listing seen refl observed_paid refl
