-- ===== src/Exchange/Tests.antt =====
-- Runs of the exchange client on the small server, and the theorems at concrete inputs.
use provider_rabbitmq.Prelude.{
  ◌≡◌, ◌↔◌, refl, true, false, none, some, [], ◌∷◌, codes, arith, str_eq, lookup,
}
use provider_rabbitmq.Libraries.{Libraries}
use provider_rabbitmq.Libraries.Plain.{plain_libraries, plain-LibraryLaws}
use provider_rabbitmq.Meta.{is_crossplane_managed}
use provider_rabbitmq.Client.Memory.{Memory, empty_memory, memory_client, exchange_info}
use provider_rabbitmq.Client.Types.{ok, DetailedExchangeInfo}
use provider_rabbitmq.Handler.{State, done, final, cast, call, ExternalObservation}
use provider_rabbitmq.Client.Arguments.{AllSurvive}
use provider_rabbitmq.Client.Utilities.{or_empty}
use provider_rabbitmq.Go.Decimal.{atoi}
use provider_rabbitmq.Exchange.{observe, create, update, delete}
use provider_rabbitmq.Exchange.Convergence.{ExchangeServer, created_exchange_observed}
use provider_rabbitmq.Exchange.Methods.{exchange_exists_iff, exchange_bodies_closed}
use provider_rabbitmq.Exchange.Settings.{get_external_name}
use provider_rabbitmq.Exchange.Types.{Exchange, ExchangeParameters}

instance abbrev lib : Libraries
lib = plain_libraries

memory_server : ExchangeServer memory_client
memory_server = record {
  declared = λ vhost name settings w w' r e exact. (
    exchange_info vhost name settings,
    cc,
    record {
      same_type = refl;
      same_durable = refl;
      same_auto_delete = refl;
      same_arguments = refl;
    },
  );
}

abbrev parameters : ExchangeParameters
parameters = record {
  name = none;
  vhost = codes "/";
  exchange_settings = some (record {
    type = none;
    durable = some true;
    auto_delete = none;
    arguments = some ((codes "x-message-ttl", codes "1000") ∷ []);
  });
}

abbrev orders : Exchange
orders = record {
  meta = record { name = codes "orders"; namespace = codes "shop"; annotations = [] };
  for_provider = parameters;
  at_provider = record {
    name = [];
    vhost = [];
    type = [];
    durable = false;
    auto_delete = false;
    arguments = [];
  };
  available = false;
}

abbrev start : State Exchange Memory
start = record { cr = some orders; world = empty_memory; open_bodies = 0 }

-- What the server has of that name, made by somebody else.
abbrev other_info : DetailedExchangeInfo
other_info =
    exchange_info (codes "/") (codes "orders")
      (record { type = []; durable = false; auto_delete = false; arguments = none })

abbrev foreign : State Exchange Memory
foreign = record start { world = record empty_memory { exchange = some other_info } }

orders_unmanaged : is_crossplane_managed orders.meta ≡ false
unfolding is_crossplane_managed lookup str_eq
orders_unmanaged = refl

exchange_exists_iff_example :
    ((o : ExternalObservation) × (s : State Exchange Memory) × (observe memory_client foreign
        ≡ done o s)
      × (o.resource_exists ≡ true))
    ↔ ((api : DetailedExchangeInfo) × (memory_client.get_exchange
            (codes "/")
            (get_external_name orders)
            foreign.world
          ≡ ok api)
        × (is_crossplane_managed orders.meta ≡ true))
exchange_exists_iff_example = exchange_exists_iff memory_client foreign refl

exchange_bodies_closed_example :
    ((final (create memory_client start)).open_bodies ≡ 0)
    × ((final (update memory_client start)).open_bodies ≡ 0)
    × ((final (delete memory_client start)).open_bodies ≡ 0)
exchange_bodies_closed_example = exchange_bodies_closed memory_client start

abbrev bare : ExchangeParameters
bare = record { name = none; vhost = codes "/"; exchange_settings = none }

created : create memory_client start ≡ done tt (final (create memory_client start))
unfolding create cast call
created = refl

created_exchange_observed_example :
    (o : ExternalObservation) × (s : State Exchange Memory) × (observe memory_client
        (final (create memory_client start))
      ≡ done o s)
    × (o.resource_exists ≡ true)
    × ((o.resource_up_to_date ≡ true) ↔ AllSurvive ((codes "x-message-ttl", codes "1000") ∷ []))
unfolding or_empty atoi
created_exchange_observed_example =
    created_exchange_observed plain-LibraryLaws memory_server start refl (omega arith, tt) created
