-- ===== src/Controllers/Endings.antt =====
-- How a script of requests ends when some of its requests end the run with an error and others with a
-- panic: an error of a part is a panic in a callback of a gate and in `MustRegister`.
use mathlib.Core.Path.{subst}
use provider_rabbitmq.Prelude.{
  ◌≡◌, refl, sym, ap, ◌∙◌, Bool, true, false, List, [], ◌∷◌, ◌++◌, append_assoc, Str,
}
use provider_rabbitmq.Client.Types.{err}
use provider_rabbitmq.Go.Error.{Error}
use provider_rabbitmq.Handler.{M, Run, done, failed, panicked, ◌>>=◌, ◌>>◌, wrapping}
use provider_rabbitmq.Controllers.Types.{Request, Log, Runtime, or_panic}
use provider_rabbitmq.Controllers.Scripts.{Refused, Follows}
use provider_rabbitmq.Controllers.Reviews.{Finds}

-- A request, and whether the run panics where it is refused.
pub record Step : Type 0 where
  pub request : Request
  pub panics : Bool

abbrev pub requests : List Step → List Request
requests [] = []
requests (s ∷ steps) = s.request ∷ requests steps

-- All requests of a list, which end the run with a panic, or all with an error.
abbrev pub steps : Bool → List Request → List Step
steps b [] = []
steps b (r ∷ script) = record { request = r; panics = b } ∷ steps b script

requests-append : (s1 s2 : List Step) → requests (s1 ++ s2) ≡ requests s1 ++ requests s2
requests-append [] s2 = refl
requests-append (s ∷ s1) s2 = ap (λ l. s.request ∷ l) (requests-append s1 s2)

pub requests-steps : (b : Bool) (script : List Request) → requests (steps b script) ≡ script
requests-steps b [] = refl
requests-steps b (r ∷ script) = ap (λ l. r ∷ l) (requests-steps b script)

pub steps-append : (b : Bool) (l1 l2 : List Request) → steps b (l1 ++ l2) ≡ steps b l1 ++ steps b l2
steps-append b [] l2 = refl
steps-append b (r ∷ l1) l2 = ap (λ l. record { request = r; panics = b } ∷ l) (steps-append b l1 l2)

-- The log after the requests of two parts.
pub logged-append :
    (log log1 : Log) (s1 s2 : List Step)
    → log1 ≡ log ++ requests s1
    → log1 ++ requests s2 ≡ log ++ requests (s1 ++ s2)
logged-append log log1 s1 s2 e =
    ap (λ l. l ++ requests s2) e
    ∙ append_assoc log (requests s1) (requests s2)
    ∙ ap (λ l. log ++ l) (sym (requests-append s1 s2))

module _ (rt : Runtime) where
  -- The requests up to one of the given ending that the libraries refused, and nothing after it.
  abbrev pub RefusedAt : Bool → List Step → Log → Log → Type 0
  RefusedAt b script log log' =
      (before : List Step) × (r : Request) × (after : List Step) × (script
        ≡ before ++ (record { request = r; panics = b } ∷ after))
      × (log' ≡ (log ++ requests before) ++ (r ∷ []))
      × ((e : Error) × (rt.answer (log ++ requests before) r ≡ err e))

  -- A run makes the requests of the script in order, all of them and then returns, or up to the first
  -- that is refused; then it fails or panics, as the script says of that request.
  abbrev pub Ends : List Step → Log → Run Log (Unit {0}) → Type 0
  Ends script log (done u log') = log' ≡ log ++ requests script
  Ends script log (failed e log') = RefusedAt false script log log'
  Ends script log (panicked log') = RefusedAt true script log log'

  shift-RefusedAt :
      (b : Bool) (s1 s2 : List Step) (log log1 log' : Log)
      → log1 ≡ log ++ requests s1
      → RefusedAt b s2 log1 log'
      → RefusedAt b (s1 ++ s2) log log'
  shift-RefusedAt b s1 s2 log log1 log' e (before, r, after, script, ended, (x, refused)) =
      let there = logged-append log log1 s1 before e in
      (
        s1 ++ before,
        r,
        after,
        ap (λ l. s1 ++ l) script ∙ sym (append_assoc s1 before (_ ∷ after)),
        ended ∙ ap (λ l. l ++ (r ∷ [])) there,
        (x, subst (λ l. rt.answer l r ≡ err x) there refused),
      )

  pub extend-RefusedAt :
      (b : Bool) (s1 s2 : List Step) (log log' : Log)
      → RefusedAt b s1 log log'
      → RefusedAt b (s1 ++ s2) log log'
  extend-RefusedAt b s1 s2 log log' (before, r, after, script, ended, refused) = (
    before,
    r,
    after ++ s2,
    ap (λ l. l ++ s2) script ∙ append_assoc before (_ ∷ after) s2,
    ended,
    refused,
  )

  pub shift-Ends :
      (s1 s2 : List Step) (log log1 : Log) (run : Run Log (Unit {0}))
      → log1 ≡ log ++ requests s1
      → Ends s2 log1 run
      → Ends (s1 ++ s2) log run
  shift-Ends s1 s2 log log1 (done u log') e h = h ∙ logged-append log log1 s1 s2 e
  shift-Ends s1 s2 log log1 (failed x log') e h = shift-RefusedAt false s1 s2 log log1 log' e h
  shift-Ends s1 s2 log log1 (panicked log') e h = shift-RefusedAt true s1 s2 log log1 log' e h

  pub then-Ends :
      (s1 s2 : List Step) (log : Log) (run : Run Log (Unit {0})) (k : M Log (Unit {0}))
      → Ends s1 log run
      → ((log1 : Log) → log1 ≡ log ++ requests s1 → Ends s2 log1 (k log1))
      → Ends (s1 ++ s2) log (((λ _. run) >> k) log)
  then-Ends s1 s2 log (done u log1) k h next = shift-Ends s1 s2 log log1 (k log1) h (next log1 h)
  then-Ends s1 s2 log (failed x log1) k h next = extend-RefusedAt false s1 s2 log log1 h
  then-Ends s1 s2 log (panicked log1) k h next = extend-RefusedAt true s1 s2 log log1 h

  pub wrapping-Ends :
      (script : List Step) (log : Log) (message : Str) (run : Run Log (Unit {0}))
      → Ends script log run
      → Ends script log (wrapping message (λ _. run) log)
  wrapping-Ends script log message (done u log') h = h
  wrapping-Ends script log message (failed x log') h = h
  wrapping-Ends script log message (panicked log') h = h

  steps-RefusedAt :
      (b : Bool) (script : List Request) (log log' : Log)
      → Refused rt script log log'
      → RefusedAt b (steps b script) log log'
  steps-RefusedAt b script log log' (before, r, after, whole, ended, (x, refused)) =
      let there = ap (λ l. log ++ l) (sym (requests-steps b before)) in
      (
        steps b before,
        r,
        steps b after,
        ap (steps b) whole ∙ steps-append b before (r ∷ after),
        ended ∙ sym (append_assoc log before (r ∷ [])) ∙ ap (λ l. l ++ (r ∷ [])) there,
        (x, subst (λ l. rt.answer l r ≡ err x) there refused),
      )

  -- A part whose errors are errors, and one whose errors become panics.
  pub fatal-Ends :
      (script : List Request) (log : Log) (run : Run Log (Unit {0}))
      → Follows rt script log run
      → Ends (steps false script) log run
  fatal-Ends script log (done u log') h = h ∙ ap (λ l. log ++ l) (sym (requests-steps false script))
  fatal-Ends script log (failed x log') h = steps-RefusedAt false script log log' h
  fatal-Ends script log (panicked log') h = absurd h

  pub panic-Ends :
      (script : List Request) (log : Log) (run : Run Log (Unit {0}))
      → Follows rt script log run
      → Ends (steps true script) log (or_panic (λ _. run) log)
  panic-Ends script log (done u log') h = h ∙ ap (λ l. log ++ l) (sym (requests-steps true script))
  panic-Ends script log (failed x log') h = steps-RefusedAt true script log log' h
  panic-Ends script log (panicked log') h = absurd h

  -- A part that decides, before one that depends on the decision.
  pub decided-Ends :
      (b : Bool) (script : List Request) (s2 : List Step) (log : Log) (run : Run Log Bool)
      (k : Bool → M Log (Unit {0}))
      → Finds rt b script log run
      → ((log1 : Log) → log1 ≡ log ++ requests (steps false script) → Ends s2 log1 (k b log1))
      → Ends (steps false script ++ s2) log (((λ _. run) >>= k) log)
  decided-Ends b script s2 log (done c log1) k (same, ended) next =
      let there = ended ∙ ap (λ l. log ++ l) (sym (requests-steps false script)) in
      subst (λ d. Ends (steps false script ++ s2) log (k d log1)) (sym same)
        (shift-Ends (steps false script) s2 log log1 (k b log1) there (next log1 there))
  decided-Ends b script s2 log (failed x log1) k h next =
      extend-RefusedAt false (steps false script) s2 log log1
        (steps-RefusedAt false script log log1 h)
  decided-Ends b script s2 log (panicked log1) k h next = absurd h
