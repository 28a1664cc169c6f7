-- ===== src/Controllers/Scopes.antt =====
-- What `Setup` and `SetupGated` of register.go, of both scopes, ask for, and what opening the gates
-- amounts to.
use provider_rabbitmq.Prelude.{◌≡◌, refl, sym, List, [], ◌∷◌, ◌++◌, All, codes}
use mathlib.Core.Path.{subst}
use mathlib.Core.List.{append_cancel_left}
use provider_rabbitmq.Handler.{M, Run, done, failed, panicked, ◌>>◌}
use provider_rabbitmq.Controllers.Types.{
  Kind, Options, Request, complete_config, register_gate, registered, or_panic, Log, Runtime, note,
}
use provider_rabbitmq.Controllers.Setup.{
  setup_controller, gated_callback, open_gates, setup_gated, set_up_each,
}
use provider_rabbitmq.Controllers.Namespaced
use provider_rabbitmq.Controllers.Cluster
use provider_rabbitmq.Controllers.Scripts.{
  Follows, then-Follows, ask-Follows, note-Follows, nothing-Follows,
}
use provider_rabbitmq.Controllers.Register.{
  IsWired, controller_script, setup_controller-Follows, setups_of,
}

-- The kinds in the order of register.go.
abbrev pub namespaced_kinds : List Kind
namespaced_kinds =
    Namespaced.binding_kind ∷ Namespaced.exchange_kind ∷ Namespaced.permissions_kind
    ∷ Namespaced.queue_kind ∷ Namespaced.user_kind ∷ Namespaced.vhost_kind ∷ []

abbrev pub cluster_kinds : List Kind
cluster_kinds =
    Cluster.binding_kind ∷ Cluster.exchange_kind ∷ Cluster.permissions_kind ∷ Cluster.queue_kind
    ∷ Cluster.user_kind ∷ Cluster.vhost_kind ∷ []

abbrev pub gate_of : Kind → Options → Request
gate_of k o = register_gate k.kind (record { setup_of = k; options = o })

abbrev pub gates_of : List Kind → Options → List Request
gates_of [] o = []
gates_of (k ∷ ks) o = gate_of k o ∷ gates_of ks o

-- A gate is for the kind that the `Setup` of its callback is for.
abbrev pub IsOwn : Request → Type 0
IsOwn (register_gate k c) = k ≡ c.setup_of.kind
IsOwn _ = Unit

module _ (rt : Runtime) where
  abbrev pub controllers_of : List Kind → Options → List Request
  controllers_of [] o = []
  controllers_of (k ∷ ks) o = controller_script rt k o ++ controllers_of ks o

  abbrev pub namespaced_configs : Options → List Request
  namespaced_configs o =
      complete_config (record {
        name = rt.config_controller_name (Namespaced.config_kind (codes "ProviderConfig"));
        max_concurrent_reconciles = o.max_concurrent_reconciles;
        config = Namespaced.config_kind (codes "ProviderConfig");
        usage = Namespaced.config_kind (codes "ProviderConfigUsage");
        usage_list = Namespaced.config_kind (codes "ProviderConfigUsageList");
      })
      ∷ complete_config (record {
        name = rt.config_controller_name (Namespaced.config_kind (codes "ClusterProviderConfig"));
        max_concurrent_reconciles = o.max_concurrent_reconciles;
        config = Namespaced.config_kind (codes "ClusterProviderConfig");
        usage = Namespaced.config_kind (codes "ClusterProviderConfigUsage");
        usage_list = Namespaced.config_kind (codes "ClusterProviderConfigUsageList");
      })
      ∷ []

  abbrev pub cluster_configs : Options → List Request
  cluster_configs o =
      complete_config (record {
        name = rt.config_controller_name (Cluster.config_kind (codes "ProviderConfig"));
        max_concurrent_reconciles = o.max_concurrent_reconciles;
        config = Cluster.config_kind (codes "ProviderConfig");
        usage = Cluster.config_kind (codes "ProviderConfigUsage");
        usage_list = Cluster.config_kind (codes "ProviderConfigUsageList");
      })
      ∷ []

  namespaced_config-Follows :
      (o : Options) (log : Log)
      → Follows rt (namespaced_configs o) log (Namespaced.config_setup rt o log)
  unfolding Namespaced.config_setup Namespaced.setup_namespaced_provider_config
      Namespaced.setup_cluster_provider_config
  namespaced_config-Follows o log =
      then-Follows rt (_ ∷ []) (_ ∷ []) log _ _ (ask-Follows rt _ log) (ask-Follows rt _)

  cluster_config-Follows :
      (o : Options) (log : Log) → Follows rt (cluster_configs o) log (Cluster.config_setup rt o log)
  unfolding Cluster.config_setup Cluster.setup_provider_config
  cluster_config-Follows o log = ask-Follows rt _ log

  -- The parts of a set-up that are controllers, and those that are gates.
  abbrev parts_of : Options → List Kind → List ((Options → M Log (Unit {0})) × List Request)
  parts_of o [] = []
  parts_of o (k ∷ ks) = (setup_controller rt k, controller_script rt k o) ∷ parts_of o ks

  abbrev gated_parts_of : Options → List Kind → List ((Options → M Log (Unit {0})) × List Request)
  gated_parts_of o [] = []
  gated_parts_of o (k ∷ ks) = (setup_gated k, gate_of k o ∷ []) ∷ gated_parts_of o ks

  each_controller-Follows :
      (o : Options)
      → IsWired o
      → (ks : List Kind) (log : Log)
      → Follows rt (controllers_of ks o) log (set_up_each o (setups_of (parts_of o ks)) log)
  unfolding set_up_each
  each_controller-Follows o w [] log = nothing-Follows rt log
  each_controller-Follows o w (k ∷ ks) log =
      then-Follows rt _ _ log _ _ (setup_controller-Follows rt k o log w)
        (each_controller-Follows o w ks)

  each_gate-Follows :
      (o : Options) (ks : List Kind) (log : Log)
      → Follows rt (gates_of ks o) log (set_up_each o (setups_of (gated_parts_of o ks)) log)
  unfolding set_up_each setup_gated
  each_gate-Follows o [] log = nothing-Follows rt log
  each_gate-Follows o (k ∷ ks) log =
      then-Follows rt (gate_of k o ∷ []) (gates_of ks o) log (note (gate_of k o) log) _
        (note-Follows rt (gate_of k o) log) (each_gate-Follows o ks)

  pub namespaced_setup-Follows :
      (o : Options) (log : Log)
      → IsWired o
      → Follows rt
          (namespaced_configs o ++ controllers_of namespaced_kinds o)
          log
          (Namespaced.setup rt o log)
  unfolding Namespaced.setup set_up_each Namespaced.binding_setup Namespaced.exchange_setup
      Namespaced.permissions_setup Namespaced.queue_setup Namespaced.user_setup
      Namespaced.vhost_setup
  namespaced_setup-Follows o log w =
      then-Follows rt _ _ log _ _ (namespaced_config-Follows o log)
        (each_controller-Follows o w namespaced_kinds)

  pub cluster_setup-Follows :
      (o : Options) (log : Log)
      → IsWired o
      → Follows rt
          (cluster_configs o ++ controllers_of cluster_kinds o)
          log
          (Cluster.setup rt o log)
  unfolding Cluster.setup set_up_each Cluster.binding_setup Cluster.exchange_setup
      Cluster.permissions_setup Cluster.queue_setup Cluster.user_setup Cluster.vhost_setup
  cluster_setup-Follows o log w =
      then-Follows rt _ _ log _ _ (cluster_config-Follows o log)
        (each_controller-Follows o w cluster_kinds)

  pub namespaced_setup_gated-Follows :
      (o : Options) (log : Log)
      → Follows rt
          (namespaced_configs o ++ gates_of namespaced_kinds o)
          log
          (Namespaced.setup_gated rt o log)
  unfolding Namespaced.setup_gated set_up_each Namespaced.binding_setup_gated
      Namespaced.exchange_setup_gated Namespaced.permissions_setup_gated
      Namespaced.queue_setup_gated Namespaced.user_setup_gated Namespaced.vhost_setup_gated
  namespaced_setup_gated-Follows o log =
      then-Follows rt _ _ log _ _ (namespaced_config-Follows o log)
        (each_gate-Follows o namespaced_kinds)

  pub cluster_setup_gated-Follows :
      (o : Options) (log : Log)
      → Follows rt
          (cluster_configs o ++ gates_of cluster_kinds o)
          log
          (Cluster.setup_gated rt o log)
  unfolding Cluster.setup_gated set_up_each Cluster.binding_setup_gated Cluster.exchange_setup_gated
      Cluster.permissions_setup_gated Cluster.queue_setup_gated Cluster.user_setup_gated
      Cluster.vhost_setup_gated
  cluster_setup_gated-Follows o log =
      then-Follows rt _ _ log _ _ (cluster_config-Follows o log) (each_gate-Follows o cluster_kinds)

  -- The same requests, with the same end, where an error of one may be a panic of the other.
  abbrev pub Agrees : Run Log (Unit {0}) → Run Log (Unit {0}) → Type 0
  Agrees (done u log1) (done v log2) = log1 ≡ log2
  Agrees (failed e log1) (failed x log2) = log1 ≡ log2
  Agrees (failed e log1) (panicked log2) = log1 ≡ log2
  Agrees (panicked log1) (panicked log2) = log1 ≡ log2
  Agrees _ _ = ⊥

  then-Agrees :
      (run run' : Run Log (Unit {0})) (k k' : M Log (Unit {0})) (log : Log)
      → Agrees run run'
      → ((log' : Log) → Agrees (k log') (k' log'))
      → Agrees (((λ _. run) >> k) log) (((λ _. run') >> k') log)
  then-Agrees (done u log1) (done v log2) k k' log h next = rw h (next log2)
  then-Agrees (done u log1) (failed x log2) k k' log h next = absurd h
  then-Agrees (done u log1) (panicked log2) k k' log h next = absurd h
  then-Agrees (failed e log1) (done v log2) k k' log h next = absurd h
  then-Agrees (failed e log1) (failed x log2) k k' log h next = h
  then-Agrees (failed e log1) (panicked log2) k k' log h next = h
  then-Agrees (panicked log1) (done v log2) k k' log h next = absurd h
  then-Agrees (panicked log1) (failed x log2) k k' log h next = absurd h
  then-Agrees (panicked log1) (panicked log2) k k' log h next = h

  self-Agrees : (run : Run Log (Unit {0})) → Agrees run run
  self-Agrees (done u log) = refl
  self-Agrees (failed e log) = refl
  self-Agrees (panicked log) = refl

  callback-Agrees :
      (k : Kind) (o : Options) (log : Log)
      → Agrees
          (setup_controller rt k o log)
          (gated_callback rt (record { setup_of = k; options = o }) log)
  unfolding gated_callback
  callback-Agrees k o log = by (setup_controller rt k o log)
    where
      by : (run : Run Log (Unit {0})) → Agrees run (or_panic (λ _. run) log)
      by (done u log') = refl
      by (failed e log') = refl
      by (panicked log') = refl

  gates-Agrees :
      (o : Options) (ks : List Kind) (log : Log)
      → Agrees
          (set_up_each o (setups_of (parts_of o ks)) log)
          (open_gates rt (registered (gates_of ks o)) log)
  unfolding set_up_each open_gates
  gates-Agrees o [] log = refl
  gates-Agrees o (k ∷ ks) log =
      then-Agrees _ _ _ _ log (callback-Agrees k o log) (gates-Agrees o ks)

  -- The requests of a run that returned are the whole script.
  returned :
      (script requests : List Request) (log : Log) (run : Run Log (Unit {0}))
      → Follows rt script log run
      → run ≡ done tt (log ++ requests)
      → requests ≡ script
  returned script requests log run h e =
      append_cancel_left log requests script (subst (Follows rt script log) e h)

  -- If the gated set-up of the namespaced kinds returns, then it has registered each callback under
  -- the kind that its `Setup` is for, and running the callbacks that it has registered, in their order
  -- and once the controllers of provider configs are set up, makes the requests that the set-up
  -- without gates makes and ends as that does, but that an error of a controller is a panic.
  pub namespaced_gates-Agrees :
      (o : Options) (log : Log) (requests : List Request)
      → Namespaced.setup_gated rt o log ≡ done tt (log ++ requests)
      → All IsOwn requests
        × Agrees
            (Namespaced.setup rt o log)
            ((Namespaced.config_setup rt o >> open_gates rt (registered requests)) log)
  unfolding Namespaced.setup set_up_each Namespaced.binding_setup Namespaced.exchange_setup
      Namespaced.permissions_setup Namespaced.queue_setup Namespaced.user_setup
      Namespaced.vhost_setup
  namespaced_gates-Agrees o log requests ran =
      let same : requests ≡ namespaced_configs o ++ gates_of namespaced_kinds o =
        returned _ requests log _ (namespaced_setup_gated-Follows o log) ran in
      (
        subst (All IsOwn) (sym same) (tt, (tt, (refl, (refl, (refl, (refl, (refl, (refl, tt)))))))),
        subst
            (λ l.
              Agrees (Namespaced.setup rt o log)
                ((Namespaced.config_setup rt o >> open_gates rt (registered l)) log))
            (sym same)
            (then-Agrees (Namespaced.config_setup rt o log) (Namespaced.config_setup rt o log) _ _
              log (self-Agrees (Namespaced.config_setup rt o log))
              (gates-Agrees o namespaced_kinds)),
      )

  -- The same of the kinds of the cluster.
  pub cluster_gates-Agrees :
      (o : Options) (log : Log) (requests : List Request)
      → Cluster.setup_gated rt o log ≡ done tt (log ++ requests)
      → All IsOwn requests
        × Agrees
            (Cluster.setup rt o log)
            ((Cluster.config_setup rt o >> open_gates rt (registered requests)) log)
  unfolding Cluster.setup set_up_each Cluster.binding_setup Cluster.exchange_setup
      Cluster.permissions_setup Cluster.queue_setup Cluster.user_setup Cluster.vhost_setup
  cluster_gates-Agrees o log requests ran =
      let same : requests ≡ cluster_configs o ++ gates_of cluster_kinds o =
        returned _ requests log _ (cluster_setup_gated-Follows o log) ran in
      (
        subst (All IsOwn) (sym same) (tt, (refl, (refl, (refl, (refl, (refl, (refl, tt))))))),
        subst
            (λ l.
              Agrees (Cluster.setup rt o log)
                ((Cluster.config_setup rt o >> open_gates rt (registered l)) log))
            (sym same)
            (then-Agrees (Cluster.config_setup rt o log) (Cluster.config_setup rt o log) _ _ log
              (self-Agrees (Cluster.config_setup rt o log)) (gates-Agrees o cluster_kinds)),
      )
