-- ===== src/Queue/Tests.antt =====
-- Runs of the queue client on the small server, and the theorems at concrete inputs.
use provider_rabbitmq.Prelude.{
  ◌≡◌, ◌↔◌, refl, true, false, not, none, some, [], ◌∷◌, StringMap, codes, inl, inr, ap, arith,
  str_eq, lookup,
}
use provider_rabbitmq.Libraries.{Libraries}
use provider_rabbitmq.Libraries.Plain.{plain_libraries, plain-LibraryLaws}
use provider_rabbitmq.Meta.{is_crossplane_managed, is_not_crossplane_managed}
use provider_rabbitmq.Client.Memory.{Memory, empty_memory, memory_client, queue_info, named_type}
use provider_rabbitmq.Client.Types.{ok, DetailedQueueInfo}
use provider_rabbitmq.Handler.{Untouched, State, done, final, cast, call, ExternalObservation}
use provider_rabbitmq.Client.Arguments.{AllSurvive, AllExact}
use provider_rabbitmq.Client.Utilities.{or_empty}
use provider_rabbitmq.Go.Decimal.{atoi}
use provider_rabbitmq.Queue.{update, observe, observe_answer, create}
use provider_rabbitmq.Queue.Agreement.{SettingsAgree, is_queue_up_to_date_iff}
use provider_rabbitmq.Queue.Convergence.{created_queue_observed}
use provider_rabbitmq.Queue.Server.{QueueServer, StatesType}
use provider_rabbitmq.Queue.Methods.{
  CreateOutcome, observe_unmanaged_queue, queue_exists_iff, create_queue_outcome,
}
use provider_rabbitmq.Queue.Stability.{Repeats, observed_queue_settled}
use provider_rabbitmq.Queue.Updates.{updated_queue_observed}
use provider_rabbitmq.Queue.Settings.{get_external_name, late_initialize, is_up_to_date}
use provider_rabbitmq.Queue.Types.{Queue, QueueParameters, QueueParameters-discrete}

instance abbrev lib : Libraries
lib = plain_libraries

memory_server : QueueServer memory_client
memory_server = record {
  declared = λ vhost name settings w w' r e exact. (
    queue_info vhost name settings,
    cc,
    record {
      same_durable = refl;
      same_auto_delete = refl;
      same_type = λ t names. ap named_type names.as_argument;
      same_arguments = λ t names. refl;
    },
  );
}

abbrev declared_arguments : StringMap
declared_arguments =
    (codes "x-queue-type", codes "quorum") ∷ (codes "x-max-length", codes "1000") ∷ []

abbrev parameters : QueueParameters
parameters = record {
  name = none;
  vhost = codes "/";
  queue_settings = some (record {
    type = some (codes "quorum");
    durable = some true;
    auto_delete = none;
    arguments = some declared_arguments;
  });
}

abbrev orders : Queue
orders = record {
  meta = record { name = codes "orders"; namespace = codes "shop"; annotations = [] };
  for_provider = parameters;
  at_provider = record {
    name = [];
    vhost = [];
    type = [];
    durable = false;
    auto_delete = false;
    arguments = [];
  };
  available = false;
}

abbrev start : State Queue Memory
start = record { cr = some orders; world = empty_memory; open_bodies = 0 }

-- What the server has of that name, made by somebody else.
abbrev other_info : DetailedQueueInfo
other_info =
    queue_info (codes "/") (codes "orders")
      (record { type = []; durable = false; auto_delete = false; arguments = none })

abbrev foreign : State Queue Memory
foreign = record start { world = record empty_memory { queue = some other_info } }

orders_unmanaged : is_crossplane_managed orders.meta ≡ false
unfolding is_crossplane_managed lookup str_eq
orders_unmanaged = refl

observe_unmanaged_queue_example : Untouched foreign (observe memory_client foreign)
observe_unmanaged_queue_example =
    observe_unmanaged_queue memory_client foreign refl orders_unmanaged

queue_exists_iff_example :
    ((o : ExternalObservation) × (s : State Queue Memory) × (observe memory_client foreign
        ≡ done o s)
      × (o.resource_exists ≡ true))
    ↔ ((api : DetailedQueueInfo) × (memory_client.get_queue
            (codes "/")
            (get_external_name orders)
            foreign.world
          ≡ ok api)
        × (is_crossplane_managed orders.meta ≡ true))
queue_exists_iff_example = queue_exists_iff memory_client foreign refl

create_queue_outcome_example : CreateOutcome memory_client start orders (create memory_client start)
create_queue_outcome_example = create_queue_outcome memory_client plain-LibraryLaws start refl

is_queue_up_to_date_iff_example :
    (is_up_to_date parameters other_info ≡ true)
    ↔ SettingsAgree parameters.queue_settings other_info
is_queue_up_to_date_iff_example = is_queue_up_to_date_iff plain-LibraryLaws parameters other_info

orders_type : StatesType parameters.queue_settings
unfolding lookup str_eq
orders_type = (codes "quorum", inr (inl refl), refl, inr refl)

exact_arguments : AllExact declared_arguments
unfolding atoi
exact_arguments = (tt, (omega arith, tt))

created : create memory_client start ≡ done tt (final (create memory_client start))
unfolding create cast call
created = refl

created_queue_observed_example :
    (o : ExternalObservation) × (s : State Queue Memory) × (observe memory_client
        (final (create memory_client start))
      ≡ done o s)
    × (o.resource_exists ≡ true)
    × ((o.resource_up_to_date ≡ true) ↔ AllSurvive declared_arguments)
unfolding or_empty atoi
created_queue_observed_example =
    created_queue_observed plain-LibraryLaws memory_server start refl orders_type exact_arguments
      created

-- The same resource once it is managed, and its update.
abbrev owned : Queue
owned = record orders {
  meta = record orders.meta {
    annotations = (codes "rabbitmq.crossplane.io/managed", codes "true") ∷ [];
  };
}

abbrev managed : State Queue Memory
managed = record foreign { cr = some owned }

owned_managed : is_crossplane_managed owned.meta ≡ true
unfolding is_crossplane_managed lookup str_eq
owned_managed = refl

updated : update memory_client managed ≡ done tt (final (update memory_client managed))
unfolding update cast call
updated = refl

updated_queue_observed_example :
    (o : ExternalObservation) × (s : State Queue Memory) × (observe memory_client
        (final (update memory_client managed))
      ≡ done o s)
    × (o.resource_exists ≡ true)
    × ((o.resource_up_to_date ≡ true) ↔ AllSurvive declared_arguments)
unfolding or_empty atoi
updated_queue_observed_example =
    updated_queue_observed memory_client plain-LibraryLaws memory_server managed refl owned_managed
      orders_type exact_arguments updated

abbrev first_observation : ExternalObservation
first_observation = record {
  resource_exists = true;
  resource_up_to_date = is_up_to_date (late_initialize parameters (some other_info)) other_info;
  resource_late_initialized = not (
      lib.cmp_equal QueueParameters QueueParameters-discrete parameters
        (late_initialize parameters (some other_info)));
}

observed :
    observe memory_client managed ≡ done first_observation (final (observe memory_client managed))
unfolding observe observe_answer cast call get_external_name is_crossplane_managed
    is_not_crossplane_managed lookup str_eq
observed = refl

observed_queue_settled_example :
    Repeats memory_client first_observation (final (observe memory_client managed))
observed_queue_settled_example =
    observed_queue_settled plain-LibraryLaws memory_client managed refl observed refl
