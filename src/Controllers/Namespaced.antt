-- ===== src/Controllers/Namespaced.antt =====
-- internal/controller/namespaced: the kinds in a namespace, their controllers, and the order in which
-- register.go sets them up.
use provider_rabbitmq.Prelude.{false, Str, codes, [], ◌∷◌}
use provider_rabbitmq.Handler.{M, ◌>>◌}
use provider_rabbitmq.Controllers.Types.{
  Kind, GroupVersionKind, Options, complete_config, Log, Runtime, ask,
}
use provider_rabbitmq.Controllers.Setup.{
  setup_controller, setup_gated as gate_controller, set_up_each,
}

-- apis/namespaced/core/v1alpha1 and apis/namespaced/v1alpha1: `SchemeGroupVersion.WithKind(…)`.
unfoldable pub core_kind : Str → GroupVersionKind
core_kind kind = record {
  group = codes "core.rabbitmq.m.crossplane.io";
  version = codes "v1alpha1";
  kind = kind;
}

unfoldable pub config_kind : Str → GroupVersionKind
config_kind kind = record {
  group = codes "rabbitmq.m.crossplane.io";
  version = codes "v1alpha1";
  kind = kind;
}

abbrev pub binding_kind : Kind
binding_kind = record {
  kind = core_kind (codes "Binding");
  list = codes "BindingList";
  recorder_refused = codes "cannot register MR state metrics recorder for kind v1alpha1.Binding";
  no_initializers = false;
}

abbrev pub exchange_kind : Kind
exchange_kind = record {
  kind = core_kind (codes "Exchange");
  list = codes "ExchangeList";
  recorder_refused =
      codes "cannot register MR state metrics recorder for kind v1alpha1.ExchangeList";
  no_initializers = false;
}

abbrev pub permissions_kind : Kind
permissions_kind = record {
  kind = core_kind (codes "Permissions");
  list = codes "PermissionsList";
  recorder_refused =
      codes "cannot register MR state metrics recorder for kind v1alpha1.Permissions";
  no_initializers = false;
}

abbrev pub queue_kind : Kind
queue_kind = record {
  kind = core_kind (codes "Queue");
  list = codes "QueueList";
  recorder_refused = codes "cannot register MR state metrics recorder for kind v1alpha1.Queue";
  no_initializers = false;
}

abbrev pub user_kind : Kind
user_kind = record {
  kind = core_kind (codes "User");
  list = codes "UserList";
  recorder_refused = codes "cannot register MR state metrics recorder for kind v1alpha1.UserList";
  no_initializers = false;
}

abbrev pub vhost_kind : Kind
vhost_kind = record {
  kind = core_kind (codes "Vhost");
  list = codes "VhostList";
  recorder_refused = codes "cannot register MR state metrics recorder for kind v1alpha1.MyTypeList";
  no_initializers = false;
}

unfoldable pub binding_setup_gated : Options → M Log (Unit {0})
binding_setup_gated o = gate_controller binding_kind o

unfoldable pub exchange_setup_gated : Options → M Log (Unit {0})
exchange_setup_gated o = gate_controller exchange_kind o

unfoldable pub permissions_setup_gated : Options → M Log (Unit {0})
permissions_setup_gated o = gate_controller permissions_kind o

unfoldable pub queue_setup_gated : Options → M Log (Unit {0})
queue_setup_gated o = gate_controller queue_kind o

unfoldable pub user_setup_gated : Options → M Log (Unit {0})
user_setup_gated o = gate_controller user_kind o

unfoldable pub vhost_setup_gated : Options → M Log (Unit {0})
vhost_setup_gated o = gate_controller vhost_kind o

module _ (rt : Runtime) where
  unfoldable pub setup_namespaced_provider_config : Options → M Log (Unit {0})
  setup_namespaced_provider_config o = ask rt (
      complete_config (record {
        name = rt.config_controller_name (config_kind (codes "ProviderConfig"));
        max_concurrent_reconciles = o.max_concurrent_reconciles;
        config = config_kind (codes "ProviderConfig");
        usage = config_kind (codes "ProviderConfigUsage");
        usage_list = config_kind (codes "ProviderConfigUsageList");
      }))

  unfoldable pub setup_cluster_provider_config : Options → M Log (Unit {0})
  setup_cluster_provider_config o = ask rt (
      complete_config (record {
        name = rt.config_controller_name (config_kind (codes "ClusterProviderConfig"));
        max_concurrent_reconciles = o.max_concurrent_reconciles;
        config = config_kind (codes "ClusterProviderConfig");
        usage = config_kind (codes "ClusterProviderConfigUsage");
        usage_list = config_kind (codes "ClusterProviderConfigUsageList");
      }))

  unfoldable pub config_setup : Options → M Log (Unit {0})
  config_setup o = do setup_namespaced_provider_config o; setup_cluster_provider_config o

  unfoldable pub binding_setup : Options → M Log (Unit {0})
  binding_setup o = setup_controller rt binding_kind o

  unfoldable pub exchange_setup : Options → M Log (Unit {0})
  exchange_setup o = setup_controller rt exchange_kind o

  unfoldable pub permissions_setup : Options → M Log (Unit {0})
  permissions_setup o = setup_controller rt permissions_kind o

  unfoldable pub queue_setup : Options → M Log (Unit {0})
  queue_setup o = setup_controller rt queue_kind o

  unfoldable pub user_setup : Options → M Log (Unit {0})
  user_setup o = setup_controller rt user_kind o

  unfoldable pub vhost_setup : Options → M Log (Unit {0})
  vhost_setup o = setup_controller rt vhost_kind o

  unfoldable pub setup : Options → M Log (Unit {0})
  setup o = set_up_each o (
      config_setup ∷ binding_setup ∷ exchange_setup ∷ permissions_setup ∷ queue_setup ∷ user_setup
      ∷ vhost_setup ∷ [])

  unfoldable pub setup_gated : Options → M Log (Unit {0})
  setup_gated o = set_up_each o (
      config_setup ∷ binding_setup_gated ∷ exchange_setup_gated ∷ permissions_setup_gated
      ∷ queue_setup_gated ∷ user_setup_gated ∷ vhost_setup_gated ∷ [])
