-- ===== src/Controllers/Tests.antt =====
-- Runs of the set-up and of the process.
use provider_rabbitmq.Prelude.{
  ◌≡◌, refl, List, All, Bool, true, false, Option, none, some, [], ◌∷◌, ◌++◌, Str, codes, str_eq,
  if◌then◌else◌,
}
use provider_rabbitmq.Client.Types.{ok}
use provider_rabbitmq.Handler.{done, ◌>>◌}
use provider_rabbitmq.Controllers.Types.{add_to_scheme, registered, Request, Runtime, ask}
use provider_rabbitmq.Controllers.Setup.{setup_controller, open_gates, setup_gated, set_up_each}
use provider_rabbitmq.Controllers.Process.{
  Flags, options_of, verbs, ask_review, review_each, can_watch_crd,
}
use provider_rabbitmq.Controllers.Namespaced
use provider_rabbitmq.Controllers.Scripts.{Follows}
use provider_rabbitmq.Controllers.Register.{controller_script, setup_controller-Follows}
use provider_rabbitmq.Controllers.Scopes.{
  Agrees, IsOwn, gates_of, namespaced_configs, namespaced_kinds, namespaced_gates-Agrees,
}
use provider_rabbitmq.Controllers.Reviews.{reviews, can_watch_crd_iff}

-- A runtime that refuses the review of a verb, if it is given, and grants the rest.
abbrev runtime : Option Str → Runtime
runtime verb = record {
  answer = λ log r. ok tt;
  allowed = λ log v. allows verb v;
  served = λ log. Namespaced.core_kind (codes "Queue") ∷ [];
  managed_controller_name = λ k. codes "managed/" ++ k.kind;
  config_controller_name = λ k. codes "providerconfig/" ++ k.kind;
}
  where
    allows : Option Str → Str → Bool
    allows none v = true
    allows (some w) v = if str_eq w v then false else true

abbrev default_flags : Flags
default_flags = record {
  leader_election = false;
  sync_interval = 3600;
  poll_interval = 60;
  poll_state_metric_interval = 5;
  max_reconcile_rate = 10;
  enable_management_policies = true;
  enable_change_logs = true;
  changelogs_socket_path = codes "/var/run/changelogs/changelogs.sock";
}

-- The requests of the gated set-up, which all are granted.
abbrev gated_requests : List Request
gated_requests =
    namespaced_configs (runtime none) (options_of default_flags)
    ++ gates_of namespaced_kinds (options_of default_flags)

gated :
    Namespaced.setup_gated (runtime none) (options_of default_flags) []
    ≡ done tt ([] ++ gated_requests)
unfolding Namespaced.setup_gated set_up_each Namespaced.config_setup
    Namespaced.setup_namespaced_provider_config Namespaced.setup_cluster_provider_config ask
    Namespaced.binding_setup_gated Namespaced.exchange_setup_gated
    Namespaced.permissions_setup_gated Namespaced.queue_setup_gated Namespaced.user_setup_gated
    Namespaced.vhost_setup_gated setup_gated
gated = refl

namespaced_gates-Agrees_example :
    All IsOwn gated_requests
    × Agrees (runtime none) (Namespaced.setup (runtime none) (options_of default_flags) []) (
        (Namespaced.config_setup (runtime none) (options_of default_flags)
            >> open_gates (runtime none) (registered gated_requests))
          [])
namespaced_gates-Agrees_example =
    namespaced_gates-Agrees (runtime none) (options_of default_flags) [] gated_requests gated

can_watch_crd_iff_example :
    can_watch_crd (runtime none) []
    ≡ done true (add_to_scheme (codes "authorization.k8s.io") ∷ reviews verbs)
can_watch_crd_iff_example =
    (can_watch_crd_iff (runtime none) []
        (add_to_scheme (codes "authorization.k8s.io") ∷ reviews verbs)).1
      (refl, (refl, refl, (refl, refl, (refl, refl, tt))), refl)

setup_controller-Follows_example :
    Follows
      (runtime none)
      (controller_script (runtime none) Namespaced.queue_kind (options_of default_flags))
      []
      (setup_controller (runtime none) Namespaced.queue_kind (options_of default_flags) [])
unfolding options_of
setup_controller-Follows_example =
    setup_controller-Follows (runtime none) Namespaced.queue_kind (options_of default_flags) [] tt

-- Without the permission to watch, the third review is the last.
watch_refused :
    can_watch_crd (runtime (some (codes "watch"))) []
    ≡ done false (add_to_scheme (codes "authorization.k8s.io") ∷ reviews verbs)
unfolding can_watch_crd review_each ask_review ask str_eq
watch_refused = refl
