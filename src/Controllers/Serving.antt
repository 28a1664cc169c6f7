-- ===== src/Controllers/Serving.antt =====
-- The second part of `main` of cmd/provider/main.go: the reviews, the controllers, and the manager
-- while it runs.
use mathlib.Core.Path.{subst}
use provider_rabbitmq.Prelude.{
  ◌≡◌, refl, sym, ap, ◌∙◌, Bool, true, false, List, [], ◌∷◌, ◌++◌, append_assoc, append-nil, Str,
  codes,
}
use provider_rabbitmq.Handler.{M, Run, ◌>>=◌, ◌>>◌, wrapping}
use provider_rabbitmq.Controllers.Types.{
  Options, Request, add_to_scheme, setup_crd_gate, start, stopped, Log, Callback, Kind, opened,
  Runtime,
}
use provider_rabbitmq.Controllers.Process.{verbs, can_watch_crd, start_controllers, start_manager}
use provider_rabbitmq.Controllers.Scripts.{Follows, then-Follows, ask-Follows, wrapping-Follows}
use provider_rabbitmq.Controllers.Register.{
  IsWired, recorder_script, controller_of, controller_script, setup_controller-Follows,
}
use provider_rabbitmq.Controllers.Setup.{open_gates, gated_callback}
use provider_rabbitmq.Controllers.Endings.{
  Step, requests, steps, requests-steps, steps-append, logged-append, Ends, shift-Ends, then-Ends,
  wrapping-Ends, fatal-Ends, panic-Ends, decided-Ends,
}
use provider_rabbitmq.Controllers.Scopes.{
  namespaced_kinds, cluster_kinds, gates_of, controllers_of, namespaced_configs, cluster_configs,
  namespaced_setup-Follows, cluster_setup-Follows, namespaced_setup_gated-Follows,
  cluster_setup_gated-Follows,
}
use provider_rabbitmq.Controllers.Reviews.{
  reviews, Reviewed, Finds, can_watch-Watches, wrapping-Finds,
}
use provider_rabbitmq.Controllers.Wiring.{
  AllWired, IsReady, append-IsReady, opened-AllWired, reviews-IsReady, recorder_script-IsReady,
}

module _ (rt : Runtime) where
  -- What either mode sets up.
  abbrev pub mode_script : Bool → Options → List Request
  mode_script true o =
      setup_crd_gate
      ∷ ((cluster_configs rt o ++ gates_of cluster_kinds o)
          ++ (namespaced_configs rt o ++ gates_of namespaced_kinds o))
  mode_script false o =
      (cluster_configs rt o ++ controllers_of rt cluster_kinds o)
      ++ (namespaced_configs rt o ++ controllers_of rt namespaced_kinds o)

  -- Where the process may watch custom resource definitions, it sets up the gate, and the controllers
  -- of the cluster and those in a namespace behind it; elsewhere it sets these up at once.
  pub start_controllers-Follows :
      (safe : Bool) (o : Options) (log : Log)
      → IsWired o
      → Follows rt (mode_script safe o) log (start_controllers rt safe o log)
  unfolding start_controllers
  start_controllers-Follows true o log w =
      then-Follows rt (setup_crd_gate ∷ []) _ log _ _
        (wrapping-Follows rt (setup_crd_gate ∷ []) log _ _ (ask-Follows rt setup_crd_gate log))
        (λ log1.
          then-Follows rt _ _ log1 _ _
            (wrapping-Follows rt _ log1 _ _ (cluster_setup_gated-Follows rt o log1))
            (λ log2. wrapping-Follows rt _ log2 _ _ (namespaced_setup_gated-Follows rt o log2)))
  start_controllers-Follows false o log w =
      then-Follows rt _ _ log _ _ (wrapping-Follows rt _ log _ _ (cluster_setup-Follows rt o log w))
        (λ log2. wrapping-Follows rt _ log2 _ _ (namespaced_setup-Follows rt o log2 w))

  -- What callbacks of gates ask for.
  abbrev pub callback_scripts : List Callback → List Request
  callback_scripts [] = []
  callback_scripts (c ∷ callbacks) =
      controller_script rt c.setup_of c.options ++ callback_scripts callbacks

  -- The manager, started after a log: the callbacks that the log registers for the kinds that are
  -- served set their controllers up, and panic where a request is refused.
  abbrev pub manager_steps : Log → List Step
  manager_steps log =
      steps false (start ∷ [])
      ++ (steps true (callback_scripts (opened (rt.served log) log)) ++ steps false (stopped ∷ []))

  -- The steps from the reviews on, in one of the two modes, after a log.
  abbrev pub review_script : Bool → List Str → Options → List Request
  review_script safe asked o =
      (add_to_scheme (codes "authorization.k8s.io") ∷ reviews asked) ++ mode_script safe o

  abbrev pub serve_steps : Bool → List Str → Options → Log → List Step
  serve_steps safe asked o log =
      steps false (review_script safe asked o)
      ++ manager_steps (log ++ requests (steps false (review_script safe asked o)))

  gates-Ends :
      (callbacks : List Callback) (log : Log)
      → AllWired callbacks
      → Ends rt (steps true (callback_scripts callbacks)) log (open_gates rt callbacks log)
  unfolding open_gates gated_callback
  gates-Ends [] log all = sym (append-nil log)
  gates-Ends (c ∷ callbacks) log (w, all) =
      subst (λ l. Ends rt l log (open_gates rt (c ∷ callbacks) log))
        (sym (
          steps-append true (controller_script rt c.setup_of c.options)
            (callback_scripts callbacks)))
        (then-Ends rt _ _ log (gated_callback rt c log) _
          (panic-Ends rt _ log _ (setup_controller-Follows rt c.setup_of c.options log w))
          (λ log1 e. gates-Ends callbacks log1 all))

  manager-Ends : (log : Log) → IsReady log → Ends rt (manager_steps log) log (start_manager rt log)
  unfolding start_manager
  manager-Ends log ready =
      shift-Ends rt (steps false (start ∷ [])) _ log (log ++ (start ∷ [])) _ refl (
        then-Ends rt _ _ (log ++ (start ∷ [])) _ _
          (gates-Ends _ _ (opened-AllWired (rt.served log) log ready))
          (λ log1 e. fatal-Ends rt (stopped ∷ []) log1 _ (ask-Follows rt stopped log1)))

  controllers_of-IsReady : (ks : List Kind) (o : Options) → IsReady (controllers_of rt ks o)
  controllers_of-IsReady [] o = tt
  controllers_of-IsReady (k ∷ ks) o =
      append-IsReady (controller_script rt k o) (controllers_of rt ks o)
        (append-IsReady (recorder_script k o.metric_options) (controller_of rt k o ∷ [])
          (recorder_script-IsReady k o.metric_options) tt)
        (controllers_of-IsReady ks o)

  mode_script-IsReady : (safe : Bool) (o : Options) → IsWired o → IsReady (mode_script safe o)
  mode_script-IsReady true o w = (w, (w, (w, (w, (w, (w, (w, (w, (w, (w, (w, (w, tt))))))))))))
  mode_script-IsReady false o w =
      append-IsReady (cluster_configs rt o ++ controllers_of rt cluster_kinds o)
        (namespaced_configs rt o ++ controllers_of rt namespaced_kinds o)
        (append-IsReady (cluster_configs rt o) (controllers_of rt cluster_kinds o) tt
          (controllers_of-IsReady cluster_kinds o))
        (append-IsReady (namespaced_configs rt o) (controllers_of rt namespaced_kinds o) tt
          (controllers_of-IsReady namespaced_kinds o))

  review_script-IsReady :
      (safe : Bool) (asked : List Str) (o : Options)
      → IsWired o
      → IsReady (review_script safe asked o)
  review_script-IsReady safe asked o w =
      append-IsReady (add_to_scheme (codes "authorization.k8s.io") ∷ reviews asked)
        (mode_script safe o) (reviews-IsReady asked) (mode_script-IsReady safe o w)

  unfoldable pub serve : Options → M Log (Unit {0})
  serve o = do
    can_safe_start ← wrapping (codes "SafeStart precheck failed") (can_watch_crd rt)
    start_controllers rt can_safe_start o
    wrapping (codes "Cannot start controller manager") (start_manager rt)

  abbrev pub Serves : Options → Log → Run Log (Unit {0}) → Type 0
  Serves o log run =
      (safe : Bool) × (asked : List Str) × Reviewed verbs safe asked
      × Ends rt (serve_steps safe asked o log) log run

  pub serve-Serves :
      (o : Options) → IsWired o → (log : Log) → IsReady log → Serves o log (serve o log)
  unfolding serve
  serve-Serves o w log ready =
      let (safe, asked, r, found) = can_watch-Watches rt log in
      (safe, asked, r, by safe asked found)
    where
      by :
          (safe : Bool) (asked : List Str)
          → Finds rt safe
              (add_to_scheme (codes "authorization.k8s.io") ∷ reviews asked)
              log
              (can_watch_crd rt log)
          → Ends rt (serve_steps safe asked o log) log (serve o log)
      by safe asked found =
          let a = add_to_scheme (codes "authorization.k8s.io") ∷ reviews asked in
          let b = mode_script safe o in
          let end : Log = log ++ requests (steps false (a ++ b)) in
          subst (λ l. Ends rt l log (serve o log))
            (sym (append_assoc (steps false a) (steps false b) (manager_steps end))
              ∙ ap (λ l. l ++ manager_steps end) (sym (steps-append false a b)))
            (decided-Ends rt safe a (steps false b ++ manager_steps end) log _ _
              (wrapping-Finds rt safe a log _ _ found)
              (λ log1 e1.
                then-Ends rt (steps false b) (manager_steps end) log1 _ _
                  (fatal-Ends rt b log1 _ (start_controllers-Follows safe o log1 w))
                  (λ log2 e2.
                    let there : log2 ≡ end =
                      e2
                      ∙ logged-append log log1 (steps false a) (steps false b) e1
                      ∙ ap (λ l. log ++ requests l) (sym (steps-append false a b)) in
                    let ready2 : IsReady log2 =
                      subst IsReady
                        (sym (there ∙ ap (λ l. log ++ l) (requests-steps false (a ++ b))))
                        (append-IsReady log (a ++ b) ready
                          (review_script-IsReady safe asked o w)) in
                    wrapping-Ends rt (manager_steps end) log2 _ _ (
                      subst (λ l. Ends rt (manager_steps l) log2 (start_manager rt log2)) there
                        (manager-Ends log2 ready2)))))
