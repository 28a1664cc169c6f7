-- ===== src/Controllers/Startup.antt =====
-- The requests of `main` of cmd/provider/main.go, in order.
use provider_rabbitmq.Prelude.{Bool, true, false, List, [], ◌∷◌, ◌++◌, Str, codes}
use provider_rabbitmq.Handler.{Run}
use provider_rabbitmq.Controllers.Types.{
  Options, get_config, new_manager, add_to_scheme, register_metrics, Log, Runtime,
}
use provider_rabbitmq.Controllers.Process.{Flags, verbs}
use provider_rabbitmq.Controllers.Endings.{Step, requests, steps, Ends}
use provider_rabbitmq.Controllers.Reviews.{Reviewed}
use provider_rabbitmq.Controllers.Wiring.{dial_script}
use provider_rabbitmq.Controllers.Serving.{serve_steps}

-- The steps of the process up to the reviews. A collector that is refused is a panic.
abbrev pub boot_steps : Flags → List Step
boot_steps flags =
    steps false (
      get_config
      ∷ new_manager flags.leader_election flags.sync_interval flags.max_reconcile_rate
      ∷ add_to_scheme (codes "apiextensions.k8s.io")
      ∷ add_to_scheme (codes "rabbitmq.m.crossplane.io")
      ∷ add_to_scheme (codes "rabbitmq.crossplane.io")
      ∷ [])
    ++ (steps true (
          register_metrics (codes "MRMetricRecorder")
          ∷ register_metrics (codes "MRStateMetrics")
          ∷ [])
        ++ steps false (dial_script flags))

module _ (rt : Runtime) where
  -- A run takes the steps of `before` and then those of one of the two modes, of the one that the
  -- reviews lead to.
  abbrev pub Starts : List Step → Options → Log → Run Log (Unit {0}) → Type 0
  Starts before o log run =
      (safe : Bool) × (asked : List Str) × Reviewed verbs safe asked
      × Ends rt (before ++ serve_steps rt safe asked o (log ++ requests before)) log run
