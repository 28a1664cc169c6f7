-- ===== src/Connector.antt =====
-- The connectors of internal/controller: how a method's client comes about, with `NewClient` of
-- internal/rabbitmqclient/rabbitmq_client.go. `connect` is the connector of the kinds in a
-- namespace, `connect_cluster` that of the cluster's kinds; the text of user.go stands for the six
-- copies, which differ in `err_not_kind` alone.
pub mod Outcome
mod Tests
use provider_rabbitmq.Prelude.{
  ℕ, Bool, true, false, Option, none, some, List, [], ◌++◌, Str, codes, str_eq, if◌then◌else◌,
}
use provider_rabbitmq.Client.Types.{Result, ok, err}
use provider_rabbitmq.Go.Error.{Error, new}
use provider_rabbitmq.Handler.{
  M, Run, done, failed, panicked, ◌>>=◌, ◌>>◌, pure, fail, or_wrap, wrapping, deref,
}

abbrev pub err_track_pc_usage : Str
err_track_pc_usage = codes "cannot track ProviderConfig usage"

abbrev pub err_get_pc : Str
err_get_pc = codes "cannot get ProviderConfig"

abbrev pub err_get_cpc : Str
err_get_cpc = codes "cannot get ClusterProviderConfig"

abbrev pub err_get_creds : Str
err_get_creds = codes "cannot get credentials"

abbrev pub err_new_client : Str
err_new_client = codes "cannot create new Service"

pub record RabbitMqCredentials : Type 0 where
  pub username : Str
  pub password : Str
  pub endpoint : Str

-- A reference to a provider config; those of the cluster's kinds have a name alone.
pub record Reference : Type 0 where
  pub kind : Str
  pub name : Str

-- What a connector reads of a managed resource: its namespace, and the pointer that
-- `GetProviderConfigReference` returns, none if it is nil.
pub record Managed : Type 0 where
  pub namespace : Str
  pub reference : Option Reference

-- The calls on Kubernetes and on the libraries, for a state `W` of the cluster, credentials
-- selectors `C` and connected clients `S`. `unmarshal` is `json.Unmarshal` into a pointer to a
-- pointer to credentials: the JSON `null` makes the inner pointer nil, here none.
pub record Connections (W C S : Type 0) : Type 0 where
  pub track : Managed → W → Result (Unit {0}) × W
  pub get_provider_config : Str → Str → W → Result C
  pub get_cluster_provider_config : Str → W → Result C
  pub extract_credentials : C → W → Result (List ℕ)
  pub unmarshal : List ℕ → Result (Option RabbitMqCredentials)
  pub new_rabbithole_client : Str → Str → Str → Result S

module _ {W C S : Type 0} (calls : Connections W C S) where
  unfoldable pub new_client : List ℕ → M W S
  new_client creds = do
    unmarshalled ← or_wrap (codes "failed to unmarshal credentials") (calls.unmarshal creds)
    config ← deref unmarshalled
    or_wrap (codes "failed to create RabbitMQ client")
        (calls.new_rabbithole_client config.endpoint config.username config.password)

  tracked : Result (Unit {0}) × W → M W (Unit {0})
  tracked (ok u, w') w = done u w'
  tracked (err e, w') w = or_wrap err_track_pc_usage (err e) w'

  unfoldable pub track_usage : Managed → M W (Unit {0})
  unfolding tracked
  track_usage mg w = tracked (calls.track mg w) w

  -- The `switch` on the kind of the reference, which is dereferenced.
  unfoldable pub credentials_at : Str → Reference → M W C
  credentials_at namespace ref w =
      if str_eq ref.kind (codes "ProviderConfig")
      then or_wrap err_get_pc (calls.get_provider_config namespace ref.name w) w
      else if str_eq ref.kind (codes "ClusterProviderConfig")
      then or_wrap err_get_cpc (calls.get_cluster_provider_config ref.name w) w
      else fail (new (codes "unsupported provider config kind: " ++ ref.kind)) w

  unfoldable pub provider_credentials : Managed → M W C
  unfolding credentials_at
  provider_credentials mg = do ref ← deref mg.reference; credentials_at mg.namespace ref

  -- What both connectors do with the selectors.
  unfoldable pub service_of : C → M W S
  unfolding new_client
  service_of cd = do
    creds ← λ w. or_wrap err_get_creds (calls.extract_credentials cd w) w
    wrapping err_new_client (new_client creds)

  unfoldable pub connect : Str → Option Managed → M W S
  connect err_not_kind none = fail (new err_not_kind)
  connect err_not_kind (some mg) = do track_usage mg; cd ← provider_credentials mg; service_of cd

  unfoldable pub connect_cluster : Str → Option Managed → M W S
  connect_cluster err_not_kind none = fail (new err_not_kind)
  connect_cluster err_not_kind (some mg) = do
    ref ← deref mg.reference
    cd ← λ w. or_wrap err_get_pc (calls.get_provider_config [] ref.name w) w
    service_of cd
