-- ===== src/Connector/Tests.antt =====
-- The connectors on a small cluster, and the theorems at concrete inputs.
use provider_rabbitmq.Prelude.{
  ◌≡◌, ◌↔◌, ◌⊎◌, inr, refl, ℕ, none, some, Str, codes, str_eq, if◌then◌else◌,
}
use provider_rabbitmq.Client.Types.{ok}
use provider_rabbitmq.Connector.{
  Managed, RabbitMqCredentials, Connections, connect, connect_cluster,
}
use provider_rabbitmq.Connector.Outcome.{
  Configured, Serves, connect_done_iff, connect_cluster_done_iff, ClusterConfigured, Null,
  connect_cluster_panics_iff,
}
use provider_rabbitmq.Handler.{done, panicked}

-- The state counts the recorded uses; a config is its name, which is also its secret, and a client
-- its endpoint.
abbrev credentials : RabbitMqCredentials
credentials = record {
  username = codes "guest";
  password = codes "guest";
  endpoint = codes "http://rabbit";
}

abbrev small : Connections ℕ Str Str
small = record {
  track = λ mg w. (ok tt, 1);
  get_provider_config = λ namespace name w. ok name;
  get_cluster_provider_config = λ name w. ok name;
  extract_credentials = λ cd w. ok cd;
  unmarshal = λ creds. ok (if str_eq creds (codes "null") then none else some credentials);
  new_rabbithole_client = λ endpoint username password. ok endpoint;
}

abbrev queue : Managed
queue = record {
  namespace = codes "shop";
  reference = some (record { kind = codes "ProviderConfig"; name = codes "default" });
}

-- A resource whose config leads to a secret that holds the JSON `null`.
abbrev broken : Managed
broken = record queue {
  reference = some (record { kind = codes "ProviderConfig"; name = codes "null" });
}

connect_done_iff_example :
    (connect small (codes "not a Queue") (some queue) 0 ≡ done (codes "http://rabbit") 1) ↔ (
      (small.track queue 0 ≡ (ok tt, 1))
      × ((cd : Str) × Configured small queue 1 cd × Serves small cd 1 (codes "http://rabbit")))
connect_done_iff_example =
    connect_done_iff small (codes "not a Queue") queue 0 1 (codes "http://rabbit")

connect_cluster_done_iff_example :
    (connect_cluster small (codes "not a Queue") (some queue) 0 ≡ done (codes "http://rabbit") 0)
    ↔ ((◌≡◌ {A = ℕ} 0 0)
        × ((cd : Str) × ClusterConfigured small queue 0 cd
            × Serves small cd 0 (codes "http://rabbit")))
connect_cluster_done_iff_example =
    connect_cluster_done_iff small (codes "not a Queue") queue 0 0 (codes "http://rabbit")

connect_cluster_panics_iff_example :
    (connect_cluster small (codes "not a Queue") (some broken) 0 ≡ panicked 0) ↔ (
      (◌≡◌ {A = ℕ} 0 0)
      × ((broken.reference ≡ none)
          ⊎ ((cd : Str) × ClusterConfigured small broken 0 cd × Null small cd 0)))
connect_cluster_panics_iff_example =
    connect_cluster_panics_iff small (codes "not a Queue") broken 0 0

broken_panics : connect_cluster small (codes "not a Queue") (some broken) 0 ≡ panicked 0
unfolding str_eq
broken_panics =
    (connect_cluster_panics_iff small (codes "not a Queue") broken 0 0).1
      (refl, inr (codes "null", (_, refl, refl), (codes "null", refl, refl)))
