-- ===== src/Vhost/Tests.antt =====
-- Runs of the vhost client on the small server, and the theorems at concrete inputs.
use provider_rabbitmq.Prelude.{
  ◌≡◌, ◌↔◌, refl, true, false, none, some, [], ◌∷◌, codes, str_eq, lookup,
}
use provider_rabbitmq.Libraries.{Libraries}
use provider_rabbitmq.Libraries.Plain.{plain_libraries, plain-LibraryLaws}
use provider_rabbitmq.Meta.{is_crossplane_managed}
use provider_rabbitmq.Client.Memory.{Memory, empty_memory, memory_client, vhost_info}
use provider_rabbitmq.Client.Types.{VhostInfo}
use provider_rabbitmq.Handler.{State, done, final, cast, call, ExternalObservation}
use provider_rabbitmq.Client.Comparisons.{Asks}
use provider_rabbitmq.Vhost.{update, observe, create}
use provider_rabbitmq.Vhost.Tags.{vhost_tag_change_undone}
use provider_rabbitmq.Vhost.Convergence.{VhostServer, created_vhost_observed}
use provider_rabbitmq.Vhost.Updates.{updated_vhost_observed}
use provider_rabbitmq.Vhost.Types.{Vhost, VhostParameters, VhostSettings}

instance abbrev lib : Libraries
lib = plain_libraries

memory_server : VhostServer memory_client
memory_server = record {
  put = λ name settings w w' r e. (
    vhost_info name settings,
    cc,
    record {
      same_description = refl;
      same_tags = refl;
      same_default_queue_type = λ _. refl;
      same_tracing = refl;
    },
  );
}

abbrev settings : VhostSettings
settings = record {
  description = some (codes "orders");
  tags = codes "production" ∷ [];
  default_queue_type = none;
  tracing = none;
}

abbrev parameters : VhostParameters
parameters = record { host_name = none; vhost_settings = some settings }

abbrev orders : Vhost
orders = record {
  meta = record { name = codes "orders"; namespace = codes "shop"; annotations = [] };
  for_provider = parameters;
  at_provider = record {
    name = [];
    description = none;
    default_queue_type = none;
    messages = 0;
    messages_ready = 0;
    messages_unacknowledged = 0;
  };
  available = false;
}

abbrev start : State Vhost Memory
start = record { cr = some orders; world = empty_memory; open_bodies = 0 }

-- What the server has, with other tags.
abbrev other_info : VhostInfo
other_info = vhost_info (codes "orders") (record {
  description = codes "orders";
  tags = codes "staging" ∷ [];
  default_queue_type = [];
  tracing = false;
})

abbrev foreign : State Vhost Memory
foreign = record start { world = record empty_memory { vhost = some other_info } }

-- The same resource once it is managed.
abbrev owned : Vhost
owned = record orders {
  meta = record orders.meta {
    annotations = (codes "rabbitmq.crossplane.io/managed", codes "true") ∷ [];
  };
}

orders_unmanaged : is_crossplane_managed orders.meta ≡ false
unfolding is_crossplane_managed lookup str_eq
orders_unmanaged = refl

owned_managed : is_crossplane_managed owned.meta ≡ true
unfolding is_crossplane_managed lookup str_eq
owned_managed = refl

created : create memory_client start ≡ done tt (final (create memory_client start))
unfolding create cast call
created = refl

created_vhost_observed_example :
    (o : ExternalObservation) × (s : State Vhost Memory) × (observe memory_client
        (final (create memory_client start))
      ≡ done o s)
    × (o.resource_exists ≡ true)
    × (o.resource_up_to_date ≡ true)
created_vhost_observed_example =
    created_vhost_observed plain-LibraryLaws memory_server start refl (cc) created

abbrev managed : State Vhost Memory
managed = record foreign { cr = some owned }

vhost_tag_change_undone_example :
    (o : ExternalObservation) × (s : State Vhost Memory) × (observe memory_client managed
      ≡ done o s)
    × ((cr : Vhost) × (q : VhostSettings) × (s.cr ≡ some cr)
        × (cr.for_provider.vhost_settings ≡ some q)
        × (q.tags ≡ codes "staging" ∷ []))
    × ((o.resource_up_to_date ≡ true) ↔ (
        Asks settings.description other_info.description
        × (Asks settings.default_queue_type other_info.default_queue_type
            × Asks settings.tracing other_info.tracing)))
vhost_tag_change_undone_example =
    vhost_tag_change_undone plain-LibraryLaws memory_client managed refl owned_managed refl refl
      (cc) (cc)

updated : update memory_client managed ≡ done tt (final (update memory_client managed))
unfolding update cast call
updated = refl

updated_vhost_observed_example :
    (o : ExternalObservation) × (s : State Vhost Memory) × (observe memory_client
        (final (update memory_client managed))
      ≡ done o s)
    × (o.resource_exists ≡ true)
    × (o.resource_up_to_date ≡ true)
updated_vhost_observed_example =
    updated_vhost_observed memory_client plain-LibraryLaws memory_server managed refl owned_managed
      (cc) updated
