-- ===== src/Controllers/Process.antt =====
-- cmd/provider/main.go: the process that sets the controllers up and starts the manager. The flags
-- are those that kingpin has parsed; `kingpin.FatalIfError(err, message)` ends the process with the
-- error in a wrapping. Loggers are left out.
use provider_rabbitmq.Prelude.{
  ℕ, Bool, true, false, none, some, List, [], ◌∷◌, ◌++◌, Str, codes, if◌then◌else◌,
}
use provider_rabbitmq.Handler.{M, Run, done, failed, ◌>>=◌, ◌>>◌, pure, wrapping}
use provider_rabbitmq.Controllers.Types.{
  Options, get_config, new_manager, add_to_scheme, register_metrics, dial, review, setup_crd_gate,
  start, stopped, Log, Runtime, ask, or_panic, opened,
}
use provider_rabbitmq.Client.Types.{Result, ok, err}
use provider_rabbitmq.Controllers.Setup.{open_gates}
use provider_rabbitmq.Controllers.Namespaced
use provider_rabbitmq.Controllers.Cluster

pub record Flags : Type 0 where
  pub leader_election : Bool
  pub sync_interval : ℕ
  pub poll_interval : ℕ
  pub poll_state_metric_interval : ℕ
  pub max_reconcile_rate : ℕ
  pub enable_management_policies : Bool
  pub enable_change_logs : Bool
  pub changelogs_socket_path : Str

abbrev pub changelogs_address : Flags → Str
changelogs_address flags = codes "unix://" ++ flags.changelogs_socket_path

-- `o`, with the features that the flags enable.
unfoldable pub options_of : Flags → Options
options_of flags = record {
  max_concurrent_reconciles = flags.max_reconcile_rate;
  poll_interval = flags.poll_interval;
  management_policies = flags.enable_management_policies;
  change_logs = flags.enable_change_logs;
  change_logger = if flags.enable_change_logs then some (changelogs_address flags) else none;
  metric_options = some (record {
    poll_state_metric_interval = flags.poll_state_metric_interval;
    has_state_metrics = true;
  });
}

abbrev pub verbs : List Str
verbs = codes "get" ∷ codes "list" ∷ codes "watch" ∷ []

reviewed : Bool → Result (Unit {0}) → Log → Run Log Bool
reviewed allowed (ok u) log = done allowed log
reviewed allowed (err e) log = failed e log

module _ (rt : Runtime) where
  -- `mgr.GetClient().Create(ctx, sar)`, and the status that the server fills in.
  unfoldable pub ask_review : Str → M Log Bool
  unfolding reviewed
  ask_review verb log =
      reviewed (rt.allowed log verb) (rt.answer log (review verb)) (log ++ (review verb ∷ []))

  unfoldable pub review_each : List Str → M Log Bool
  review_each [] = pure true
  review_each (verb ∷ rest) = do
    allowed ←
        wrapping
          (codes "unable to perform RBAC check for verb "
            ++ (verb ++ codes " on CustomResourceDefinitions"))
          (ask_review verb)
    if allowed then review_each rest else pure false

  unfoldable pub can_watch_crd : M Log Bool
  can_watch_crd = do ask rt (add_to_scheme (codes "authorization.k8s.io")); review_each verbs

  unfoldable pub start_controllers : Bool → Options → M Log (Unit {0})
  start_controllers true o = do
    wrapping (codes "Cannot setup CRD gate") (ask rt setup_crd_gate)
    wrapping (codes "Cannot setup RabbitMq legacy controllers") (Cluster.setup_gated rt o)
    wrapping (codes "Cannot setup RabbitMq modern controllers") (Namespaced.setup_gated rt o)
  start_controllers false o = do
    wrapping (codes "Cannot setup RabbitMq legacy controllers") (Cluster.setup rt o)
    wrapping (codes "Cannot setup RabbitMq modern controllers") (Namespaced.setup rt o)

  unfoldable pub connect_changelogs : Flags → M Log (Unit {0})
  connect_changelogs flags =
      if flags.enable_change_logs
      then wrapping
          (codes "failed to create change logs client connection in "
            ++ flags.changelogs_socket_path)
          (ask rt (dial (changelogs_address flags)))
      else pure tt

  -- `mgr.Start`: while the manager runs, the gates of the kinds that are served open.
  unfoldable pub start_manager : M Log (Unit {0})
  start_manager log =
      (open_gates rt (opened (rt.served log) log) >> ask rt stopped) (log ++ (start ∷ []))

  -- `MustRegister` panics where the registry refuses a collector.
  unfoldable pub main : Flags → M Log (Unit {0})
  main flags = do
    wrapping (codes "Cannot get API server rest config") (ask rt get_config)
    wrapping (codes "Cannot create controller manager")
        (ask rt (new_manager flags.leader_election flags.sync_interval flags.max_reconcile_rate))
    wrapping (codes "Cannot add apiextensions to scheme")
        (ask rt (add_to_scheme (codes "apiextensions.k8s.io")))
    wrapping (codes "Cannot add namespaced RabbitMq APIs to scheme")
        (ask rt (add_to_scheme (codes "rabbitmq.m.crossplane.io")))
    wrapping (codes "Cannot add cluster RabbitMq APIs to scheme")
        (ask rt (add_to_scheme (codes "rabbitmq.crossplane.io")))
    or_panic (ask rt (register_metrics (codes "MRMetricRecorder")))
    or_panic (ask rt (register_metrics (codes "MRStateMetrics")))
    connect_changelogs flags
    can_safe_start ← wrapping (codes "SafeStart precheck failed") can_watch_crd
    start_controllers can_safe_start (options_of flags)
    wrapping (codes "Cannot start controller manager") start_manager
