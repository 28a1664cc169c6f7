-- ===== src/Controllers/Scripts.antt =====
-- A part of the set-up against the list of the requests that it is meant to make.
use mathlib.Core.Path.{subst}
use provider_rabbitmq.Prelude.{
  ◌≡◌, refl, sym, ap, ◌∙◌, List, [], ◌∷◌, ◌++◌, append_assoc, append-nil, Str,
}
use provider_rabbitmq.Client.Types.{err}
use provider_rabbitmq.Go.Error.{Error}
use provider_rabbitmq.Handler.{M, Run, done, failed, panicked, ◌>>◌, wrapping, Result-cases}
use provider_rabbitmq.Prelude.{inl, inr}
use provider_rabbitmq.Controllers.Types.{Request, Log, Runtime, ask, note}

module _ (rt : Runtime) where
  -- The requests up to one that the libraries refused, and nothing after it.
  abbrev pub Refused : List Request → Log → Log → Type 0
  Refused script log log' =
      (before : List Request) × (r : Request) × (after : List Request) × (script
        ≡ before ++ (r ∷ after))
      × (log' ≡ log ++ (before ++ (r ∷ [])))
      × ((e : Error) × (rt.answer (log ++ before) r ≡ err e))

  -- A run makes the requests of the script in order, all of them and then returns, or up to the first
  -- that is refused and then fails. It does not panic.
  abbrev pub Follows : List Request → Log → Run Log (Unit {0}) → Type 0
  Follows script log (done u log') = log' ≡ log ++ script
  Follows script log (failed e log') = Refused script log log'
  Follows script log (panicked log') = ⊥

  -- A later part, seen from the log before an earlier one.
  pub shift-Follows :
      (s1 s2 : List Request) (log log' : Log) (run : Run Log (Unit {0}))
      → log' ≡ log ++ s1
      → Follows s2 log' run
      → Follows (s1 ++ s2) log run
  shift-Follows s1 s2 log log' (done u end) e h = h ∙ ap (λ l. l ++ s2) e ∙ append_assoc log s1 s2
  shift-Follows s1 s2 log log' (failed x end) e (before, r, after, script, ended, (x', no_answer)) =
      (
        s1 ++ before,
        r,
        after,
        ap (λ l. s1 ++ l) script ∙ sym (append_assoc s1 before (r ∷ after)),
        ended
            ∙ ap (λ l. l ++ (before ++ (r ∷ []))) e
            ∙ append_assoc log s1 (before ++ (r ∷ []))
            ∙ ap (λ l. log ++ l) (sym (append_assoc s1 before (r ∷ []))),
        (
          x',
          subst (λ l. rt.answer l r ≡ err x') (ap (λ l. l ++ before) e ∙ append_assoc log s1 before)
              no_answer,
        ),
      )
  shift-Follows s1 s2 log log' (panicked end) e h = absurd h

  pub extend-Refused :
      (s1 s2 : List Request) (log : Log) (x : Error) (log' : Log)
      → Refused s1 log log'
      → Refused (s1 ++ s2) log log'
  extend-Refused s1 s2 log x log' (before, r, after, script, ended, refused) = (
    before,
    r,
    after ++ s2,
    ap (λ l. l ++ s2) script ∙ append_assoc before (r ∷ after) s2,
    ended,
    refused,
  )

  pub then-Follows :
      (s1 s2 : List Request) (log : Log) (run : Run Log (Unit {0})) (k : M Log (Unit {0}))
      → Follows s1 log run
      → ((log' : Log) → Follows s2 log' (k log'))
      → Follows (s1 ++ s2) log (((λ _. run) >> k) log)
  then-Follows s1 s2 log (done u log') k h next =
      shift-Follows s1 s2 log log' (k log') h (next log')
  then-Follows s1 s2 log (failed e log') k h next = extend-Refused s1 s2 log e log' h
  then-Follows s1 s2 log (panicked log') k h next = absurd h

  pub ask-Follows : (r : Request) (log : Log) → Follows (r ∷ []) log (ask rt r log)
  unfolding ask
  ask-Follows r log = elim (Result-cases (rt.answer log r)) [
    | inl (u, e) ↦ rw e refl
    | inr (x, e) ↦ rw e ([], r, [], refl, refl, (x, ap (λ l. rt.answer l r) (append-nil log) ∙ e))
  ]

  pub wrapping-Follows :
      (script : List Request) (log : Log) (message : Str) (run : Run Log (Unit {0}))
      → Follows script log run
      → Follows script log (wrapping message (λ _. run) log)
  wrapping-Follows script log message (done u log') h = h
  wrapping-Follows script log message (failed e log') h = h
  wrapping-Follows script log message (panicked log') h = h

  pub note-Follows : (r : Request) (log : Log) → Follows (r ∷ []) log (note r log)
  note-Follows r log = refl

  pub nothing-Follows : (log : Log) → Follows [] log (done tt log)
  nothing-Follows log = sym (append-nil log)
