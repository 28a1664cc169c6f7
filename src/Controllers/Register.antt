-- ===== src/Controllers/Register.antt =====
-- What the set-up of a controller, of each scope, and of the process asks for, in order.
use provider_rabbitmq.Prelude.{
  Bool, true, false, Option, none, some, List, [], ◌∷◌, ◌++◌, All, Str, if◌then◌else◌,
}
use provider_rabbitmq.Handler.{M, ◌>>=◌, ◌>>◌, pure, deref, wrapping}
use provider_rabbitmq.Controllers.Types.{
  Kind, ReconcilerOption, with_change_logger, MetricOptions, Options, Request, add_recorder,
  complete, Log, Runtime, ask,
}
use provider_rabbitmq.Controllers.Setup.{
  basic_options, policy_options, change_log_options, metric_recorder_options, add_state_recorder,
  setup_controller, set_up_each,
}
use provider_rabbitmq.Controllers.Scripts.{
  Follows, then-Follows, ask-Follows, wrapping-Follows, nothing-Follows,
}

-- The state metrics recorder of a kind, where there are state metrics.
abbrev pub recorder_script : Kind → Option MetricOptions → List Request
recorder_script k none = []
recorder_script k (some m) =
    if m.has_state_metrics then add_recorder k.list m.poll_state_metric_interval ∷ [] else []

abbrev pub logger_options : Bool → Option Str → List ReconcilerOption
logger_options true (some logger) = with_change_logger logger ∷ []
logger_options _ _ = []

-- The change logger is there whenever change logs are enabled.
abbrev pub WiredTo : Bool → Option Str → Type 0
WiredTo true none = ⊥
WiredTo _ _ = Unit

abbrev pub IsWired : Options → Type 0
IsWired o = WiredTo o.change_logs o.change_logger

abbrev pub scripts_of : List ((Options → M Log (Unit {0})) × List Request) → List Request
scripts_of [] = []
scripts_of ((f, script) ∷ parts) = script ++ scripts_of parts

abbrev pub setups_of :
    List ((Options → M Log (Unit {0})) × List Request) → List (Options → M Log (Unit {0}))
setups_of [] = []
setups_of ((f, script) ∷ parts) = f ∷ setups_of parts

module _ (rt : Runtime) where
  abbrev pub controller_of : Kind → Options → Request
  controller_of k o = complete (record {
    name = rt.managed_controller_name k.kind;
    max_concurrent_reconciles = o.max_concurrent_reconciles;
    reconciles = k.kind;
    options =
        basic_options k (rt.managed_controller_name k.kind) o
        ++ (policy_options o.management_policies
            ++ (logger_options o.change_logs o.change_logger
                ++ metric_recorder_options o.metric_options));
  })

  abbrev pub controller_script : Kind → Options → List Request
  controller_script k o = recorder_script k o.metric_options ++ (controller_of k o ∷ [])

  recorder-Follows :
      (k : Kind) (m : Option MetricOptions) (log : Log)
      → Follows rt (recorder_script k m) log (add_state_recorder rt k m log)
  unfolding add_state_recorder
  recorder-Follows k none log = nothing-Follows rt log
  recorder-Follows k (some m) log = by m.has_state_metrics
    where
      by :
          (b : Bool)
          → Follows rt
              (if b then add_recorder k.list m.poll_state_metric_interval ∷ [] else [])
              log
              ((if b
                  then wrapping k.recorder_refused
                      (ask rt (add_recorder k.list m.poll_state_metric_interval))
                  else pure tt)
                log)
      by true =
          wrapping-Follows rt _ log k.recorder_refused _
            (ask-Follows rt (add_recorder k.list m.poll_state_metric_interval) log)
      by false = nothing-Follows rt log

  wired-Follows :
      (k : Kind) (o : Options) (logs : Bool) (logger : Option Str) (log : Log)
      → WiredTo logs logger
      → Follows rt
          (recorder_script k o.metric_options
            ++ (complete (record {
              name = rt.managed_controller_name k.kind;
              max_concurrent_reconciles = o.max_concurrent_reconciles;
              reconciles = k.kind;
              options =
                  basic_options k (rt.managed_controller_name k.kind) o
                  ++ (policy_options o.management_policies
                      ++ (logger_options logs logger ++ metric_recorder_options o.metric_options));
            })
                ∷ []))
          log
          ((deref (change_log_options logs logger) >>= λ logged.
              add_state_recorder rt k o.metric_options
              >> ask rt (
                  complete (record {
                    name = rt.managed_controller_name k.kind;
                    max_concurrent_reconciles = o.max_concurrent_reconciles;
                    reconciles = k.kind;
                    options =
                        basic_options k (rt.managed_controller_name k.kind) o
                        ++ (policy_options o.management_policies
                            ++ (logged ++ metric_recorder_options o.metric_options));
                  })))
            log)
  wired-Follows k o true none log w = absurd w
  wired-Follows k o true (some logger) log w =
      then-Follows rt _ _ log _ _ (recorder-Follows k o.metric_options log) (ask-Follows rt _)
  wired-Follows k o false none log w =
      then-Follows rt _ _ log _ _ (recorder-Follows k o.metric_options log) (ask-Follows rt _)
  wired-Follows k o false (some logger) log w =
      then-Follows rt _ _ log _ _ (recorder-Follows k o.metric_options log) (ask-Follows rt _)

  -- Setting up a controller asks for its state metrics recorder, if there are state metrics, and
  -- then for the controller, with the options that the features enable; a request that is refused
  -- ends it with an error. It does not panic if a change logger is there whenever change logs are
  -- enabled.
  pub setup_controller-Follows :
      (k : Kind) (o : Options) (log : Log)
      → IsWired o
      → Follows rt (controller_script k o) log (setup_controller rt k o log)
  unfolding setup_controller
  setup_controller-Follows k o log w = wired-Follows k o o.change_logs o.change_logger log w

  pub each-Follows :
      (o : Options) (parts : List ((Options → M Log (Unit {0})) × List Request))
      → All
          (λ (p : (Options → M Log (Unit {0})) × List Request).
            (log : Log) → Follows rt p.1 log (p.0 o log))
          parts
      → (log : Log) → Follows rt (scripts_of parts) log (set_up_each o (setups_of parts) log)
  unfolding set_up_each
  each-Follows o [] all log = nothing-Follows rt log
  each-Follows o ((f, script) ∷ parts) (this, all) log =
      then-Follows rt script (scripts_of parts) log (f o log) _ (this log)
        (each-Follows o parts all)
