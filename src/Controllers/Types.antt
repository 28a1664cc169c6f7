-- ===== src/Controllers/Types.antt =====
-- What the set-up of the controllers passes to controller-runtime and crossplane-runtime: the
-- options of the process, the options of a reconciler, and the requests to the manager.
use provider_rabbitmq.Prelude.{
  ℕ, Bool, ◌&&◌, Option, none, some, List, [], ◌∷◌, ◌++◌, Str, str_eq, if◌then◌else◌,
}
use provider_rabbitmq.Client.Types.{Result, ok, err}
use provider_rabbitmq.Handler.{M, Run, done, failed, panicked}

-- `schema.GroupVersionKind`
pub record GroupVersionKind : Type 0 where
  pub group : Str
  pub version : Str
  pub kind : Str

-- `managed.ReconcilerOption`, by the function that makes it. The connector and the loggers carry the
-- controller's name.
pub data ReconcilerOption : Type 0 where
  with_external_connector : Str → ReconcilerOption
  with_initializers : ReconcilerOption
  with_logger : Str → ReconcilerOption
  with_poll_interval : ℕ → ReconcilerOption
  with_recorder : Str → ReconcilerOption
  with_management_policies : ReconcilerOption
  with_change_logger : Str → ReconcilerOption
  with_metric_recorder : ReconcilerOption

-- A controller of a managed resource, and one of provider configs, as they are completed.
pub record Controller : Type 0 where
  pub name : Str
  pub max_concurrent_reconciles : ℕ
  pub reconciles : GroupVersionKind
  pub options : List ReconcilerOption

pub record ConfigController : Type 0 where
  pub name : Str
  pub max_concurrent_reconciles : ℕ
  pub config : GroupVersionKind
  pub usage : GroupVersionKind
  pub usage_list : GroupVersionKind

-- `controller.Options`. `change_logger` is the pointer `ChangeLogOptions`, by the address of its
-- logger; `metric_options` the pointer `MetricOptions`, whose `MRStateMetrics` may be nil.
pub record MetricOptions : Type 0 where
  pub poll_state_metric_interval : ℕ
  pub has_state_metrics : Bool

pub record Options : Type 0 where
  pub max_concurrent_reconciles : ℕ
  pub poll_interval : ℕ
  pub management_policies : Bool
  pub change_logs : Bool
  pub change_logger : Option Str
  pub metric_options : Option MetricOptions

-- What differs between the copies: the kind, its list, the message for a recorder that is refused,
-- and whether the reconciler is given an empty list of initializers.
pub record Kind : Type 0 where
  pub kind : GroupVersionKind
  pub list : Str
  pub recorder_refused : Str
  pub no_initializers : Bool

-- The function that `SetupGated` of a package registers with a gate: a closure that calls a `Setup`,
-- of one of the packages, with the options.
pub record Callback : Type 0 where
  pub setup_of : Kind
  pub options : Options

-- What the process asks of the libraries, in the order of the calls. `start` is the begin of
-- `mgr.Start`, and `stopped` its return.
pub data Request : Type 0 where
  get_config : Request
  new_manager : Bool → ℕ → ℕ → Request
  add_to_scheme : Str → Request
  register_metrics : Str → Request
  dial : Str → Request
  review : Str → Request
  setup_crd_gate : Request
  add_recorder : Str → ℕ → Request
  complete : Controller → Request
  complete_config : ConfigController → Request
  register_gate : GroupVersionKind → Callback → Request
  start : Request
  stopped : Request

abbrev pub Log : Type 0
Log = List Request

-- How the libraries answer a request after those of the log, whether a review of a verb allows it,
-- the names that they give to controllers, and the kinds whose gate opens while a manager runs that
-- is started after the log, in their order.
pub record Runtime : Type 0 where
  pub answer : Log → Request → Result (Unit {0})
  pub allowed : Log → Str → Bool
  pub served : Log → List GroupVersionKind
  pub managed_controller_name : GroupVersionKind → Str
  pub config_controller_name : GroupVersionKind → Str

pub answered : Result (Unit {0}) → Log → Run Log (Unit {0})
answered (ok u) log = done u log
answered (err e) log = failed e log

module _ (rt : Runtime) where
  -- A request that can be refused.
  unfoldable pub ask : Request → M Log (Unit {0})
  unfolding answered
  ask r log = answered (rt.answer log r) (log ++ (r ∷ []))

-- A request that returns nothing.
abbrev pub note : Request → M Log (Unit {0})
note r log = done tt (log ++ (r ∷ []))

-- An error of a part becomes a panic.
abbrev pub or_panic : M Log (Unit {0}) → M Log (Unit {0})
or_panic m log = elim (m log) [
  | done u log' ↦ done u log'
  | failed e log' ↦ panicked log'
  | panicked log' ↦ panicked log'
]

unfoldable pub same_kind : GroupVersionKind → GroupVersionKind → Bool
same_kind g k = str_eq g.group k.group && (str_eq g.version k.version && str_eq g.kind k.kind)

-- The callbacks that a log registers, and those of a kind among them.
abbrev pub gate_in : Request → Option (GroupVersionKind × Callback)
gate_in (register_gate k c) = some (k, c)
gate_in _ = none

abbrev pub callback_in : Option (GroupVersionKind × Callback) → List Callback
callback_in none = []
callback_in (some (k, c)) = c ∷ []

abbrev pub registered : Log → List Callback
registered [] = []
registered (r ∷ log) = callback_in (gate_in r) ++ registered log

abbrev pub callback_for : GroupVersionKind → Option (GroupVersionKind × Callback) → List Callback
callback_for g none = []
callback_for g (some (k, c)) = if same_kind g k then c ∷ [] else []

unfoldable pub callbacks_of : GroupVersionKind → Log → List Callback
callbacks_of g [] = []
callbacks_of g (r ∷ log) = callback_for g (gate_in r) ++ callbacks_of g log

-- The callbacks of the kinds that are served.
unfoldable pub opened : List GroupVersionKind → Log → List Callback
opened [] log = []
opened (g ∷ kinds) log = callbacks_of g log ++ opened kinds log
