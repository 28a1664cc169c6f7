-- ===== src/Controllers/Setup.antt =====
-- The functions `Setup` and `SetupGated` of the twelve packages under internal/controller: one text,
-- but for what a `Kind` holds.
use provider_rabbitmq.Prelude.{
  Bool, true, false, Option, none, some, List, [], ◌∷◌, ◌++◌, Str, if◌then◌else◌,
}
use provider_rabbitmq.Handler.{M, ◌>>=◌, ◌>>◌, pure, deref, wrapping}
use provider_rabbitmq.Controllers.Types.{
  Kind, Callback, or_panic, ReconcilerOption, with_external_connector, with_initializers,
  with_logger, with_poll_interval, with_recorder, with_management_policies, with_change_logger,
  with_metric_recorder, MetricOptions, Options, add_recorder, complete, register_gate, Log, Runtime,
  ask, note,
}

abbrev pub initializers : Bool → List ReconcilerOption
initializers true = with_initializers ∷ []
initializers false = []

unfoldable pub basic_options : Kind → Str → Options → List ReconcilerOption
basic_options k name o =
    with_external_connector name
    ∷ (initializers k.no_initializers
        ++ (with_logger name ∷ with_poll_interval o.poll_interval ∷ with_recorder name ∷ []))

abbrev pub policy_options : Bool → List ReconcilerOption
policy_options true = with_management_policies ∷ []
policy_options false = []

-- `o.ChangeLogOptions` is dereferenced if change logs are enabled; none if it is nil then.
abbrev pub change_log_options : Bool → Option Str → Option (List ReconcilerOption)
change_log_options false logger = some []
change_log_options true none = none
change_log_options true (some logger) = some (with_change_logger logger ∷ [])

abbrev pub metric_recorder_options : Option MetricOptions → List ReconcilerOption
metric_recorder_options none = []
metric_recorder_options (some m) = with_metric_recorder ∷ []

module _ (rt : Runtime) where
  unfoldable pub add_state_recorder : Kind → Option MetricOptions → M Log (Unit {0})
  add_state_recorder k none = pure tt
  add_state_recorder k (some m) =
      if m.has_state_metrics
      then wrapping k.recorder_refused (ask rt (add_recorder k.list m.poll_state_metric_interval))
      else pure tt

  unfoldable pub setup_controller : Kind → Options → M Log (Unit {0})
  unfolding basic_options add_state_recorder
  setup_controller k o = do
    let name = rt.managed_controller_name k.kind
    logged ← deref (change_log_options o.change_logs o.change_logger)
    add_state_recorder k o.metric_options
    ask rt (
        complete (record {
          name = name;
          max_concurrent_reconciles = o.max_concurrent_reconciles;
          reconciles = k.kind;
          options =
              basic_options k name o
              ++ (policy_options o.management_policies
                  ++ (logged ++ metric_recorder_options o.metric_options));
        }))

  -- What the gate runs once the kind is served: an error of the set-up becomes a panic.
  unfoldable pub gated_callback : Callback → M Log (Unit {0})
  unfolding setup_controller
  gated_callback c = or_panic (setup_controller c.setup_of c.options)

  -- Callbacks of the gate, in the order in which it runs them.
  unfoldable pub open_gates : List Callback → M Log (Unit {0})
  open_gates [] = pure tt
  open_gates (c ∷ callbacks) = gated_callback c >> open_gates callbacks

-- The gate keeps the callback, which sets up the controller of the kind; the function itself never
-- fails.
unfoldable pub setup_gated : Kind → Options → M Log (Unit {0})
setup_gated k o = note (register_gate k.kind (record { setup_of = k; options = o }))

-- The loop of register.go: the first error ends it.
unfoldable pub set_up_each : Options → List (Options → M Log (Unit {0})) → M Log (Unit {0})
set_up_each o [] = pure tt
set_up_each o (setup ∷ setups) = do setup o; set_up_each o setups
