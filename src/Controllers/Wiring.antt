-- ===== src/Controllers/Wiring.antt =====
-- The change logger behind the callbacks that gates keep: whoever enables change logs has one.
use mathlib.Core.Path.{subst}
use provider_rabbitmq.Prelude.{
  ◌≡◌, refl, Option, none, some, sym, ap, ◌∙◌, All, All-append, Bool-cases, inl, inr, Bool, true,
  false, List, [], ◌∷◌, ◌++◌, append_assoc, Str, if◌then◌else◌,
}
use provider_rabbitmq.Controllers.Types.{
  Request, dial, Log, Callback, GroupVersionKind, Kind, MetricOptions, same_kind, add_recorder,
  gate_in, callback_in, callback_for, registered, opened, callbacks_of,
}
use provider_rabbitmq.Controllers.Process.{Flags, options_of, changelogs_address, verbs}
use provider_rabbitmq.Controllers.Register.{IsWired, recorder_script}
use provider_rabbitmq.Controllers.Reviews.{reviews}

-- The flags wire the options: a change logger is there if change logs are enabled.
pub options_of-IsWired : (flags : Flags) → IsWired (options_of flags)
unfolding options_of
options_of-IsWired flags = by flags.enable_change_logs
  where
    by : (b : Bool) → IsWired (options_of (record flags { enable_change_logs = b }))
    by true = tt
    by false = tt

abbrev pub dial_script : Flags → List Request
dial_script flags = if flags.enable_change_logs then dial (changelogs_address flags) ∷ [] else []

-- The callbacks of gates whose options have what their features need.
abbrev pub AllWired : List Callback → Type 0
AllWired = All (λ (c : Callback). IsWired c.options)

abbrev pub IsReady : Log → Type 0
IsReady log = AllWired (registered log)

registered-append :
    (log1 log2 : Log) → registered (log1 ++ log2) ≡ registered log1 ++ registered log2
registered-append [] log2 = refl
registered-append (r ∷ log1) log2 =
    ap (λ l. callback_in (gate_in r) ++ l) (registered-append log1 log2)
    ∙ sym (append_assoc (callback_in (gate_in r)) (registered log1) (registered log2))

pub append-IsReady : (log1 log2 : Log) → IsReady log1 → IsReady log2 → IsReady (log1 ++ log2)
append-IsReady log1 log2 h1 h2 =
    subst AllWired (sym (registered-append log1 log2))
      (All-append (λ (c : Callback). IsWired c.options) (registered log1) (registered log2) h1 h2)

-- The callback of one request, under any kind, and what a later log holds.
first-AllWired :
    (g : GroupVersionKind) (o : Option (GroupVersionKind × Callback)) (rest : List Callback)
    → AllWired (callback_in o ++ rest)
    → AllWired (callback_for g o) × AllWired rest
first-AllWired g none rest h = (tt, h)
first-AllWired g (some (k, c)) rest (w, h) = elim (Bool-cases (same_kind g k)) [
  | inl same ↦ (rw same (w, tt), h)
  | inr other ↦ (rw other tt, h)
]

callbacks-AllWired :
    (g : GroupVersionKind) (log : Log) → IsReady log → AllWired (callbacks_of g log)
unfolding callbacks_of
callbacks-AllWired g [] h = tt
callbacks-AllWired g (r ∷ log) h =
    let (this, rest) = first-AllWired g (gate_in r) (registered log) h in
    All-append (λ (c : Callback). IsWired c.options) (callback_for g (gate_in r))
      (callbacks_of g log) this (callbacks-AllWired g log rest)

pub opened-AllWired :
    (kinds : List GroupVersionKind) (log : Log) → IsReady log → AllWired (opened kinds log)
unfolding opened
opened-AllWired [] log h = tt
opened-AllWired (g ∷ kinds) log h =
    All-append (λ (c : Callback). IsWired c.options) (callbacks_of g log) (opened kinds log)
      (callbacks-AllWired g log h) (opened-AllWired kinds log h)

pub reviews-IsReady : (verbs : List Str) → IsReady (reviews verbs)
reviews-IsReady [] = tt
reviews-IsReady (verb ∷ verbs) = reviews-IsReady verbs

pub dial_script-IsReady : (flags : Flags) → IsReady (dial_script flags)
dial_script-IsReady flags = by flags.enable_change_logs
  where
    by : (b : Bool) → IsReady (if b then dial (changelogs_address flags) ∷ [] else [])
    by true = tt
    by false = tt

pub recorder_script-IsReady : (k : Kind) (m : Option MetricOptions) → IsReady (recorder_script k m)
recorder_script-IsReady k none = tt
recorder_script-IsReady k (some m) = by m.has_state_metrics
  where
    by :
        (b : Bool)
        → IsReady (if b then add_recorder k.list m.poll_state_metric_interval ∷ [] else [])
    by true = tt
    by false = tt
