-- ===== src/Controllers/Reviews.antt =====
-- The review of the permissions, `canWatchCRD` of cmd/provider/main.go.
use mathlib.Core.Path.{subst}
use provider_rabbitmq.Prelude.{
  ◌≡◌, ◌↔◌, refl, sym, ap, ◌∙◌, Bool, true, false, List, [], ◌∷◌, ◌++◌, append_assoc, append-nil,
  Str, codes, Bool-cases, if◌then◌else◌, inl, inr,
}
use provider_rabbitmq.Client.Types.{ok, err}
use provider_rabbitmq.Go.Error.{Error, wrap}
use provider_rabbitmq.Handler.{
  M, Run, done, failed, panicked, ◌>>=◌, pure, wrapping, Result-cases, bind_done,
}
use provider_rabbitmq.Controllers.Types.{Request, add_to_scheme, review, Log, Runtime, ask}
use provider_rabbitmq.Controllers.Process.{verbs, ask_review, review_each, can_watch_crd}
use provider_rabbitmq.Controllers.Scripts.{
  Refused, Follows, shift-Follows, extend-Refused, ask-Follows,
}

abbrev pub reviews : List Str → List Request
reviews [] = []
reviews (verb ∷ rest) = review verb ∷ reviews rest

-- What was reviewed, with the answer: all the verbs if it is yes, up to the first that is not
-- allowed if it is no.
abbrev pub Reviewed : List Str → Bool → List Str → Type 0
Reviewed verbs true asked = asked ≡ verbs
Reviewed verbs false asked = (rest : List Str) × (verbs ≡ asked ++ rest)

module _ (rt : Runtime) where
  -- The server answers a review of each verb and allows it.
  abbrev pub Granted : List Str → Log → Type 0
  Granted [] log = Unit
  Granted (verb ∷ rest) log =
      (rt.answer log (review verb) ≡ ok tt)
      × (rt.allowed log verb ≡ true)
      × Granted rest (log ++ (review verb ∷ []))

  -- A part that decides, against its requests: it answers `b` after all of them, or one was refused.
  abbrev pub Finds : Bool → List Request → Log → Run Log Bool → Type 0
  Finds b script log (done c log') = (c ≡ b) × (log' ≡ log ++ script)
  Finds b script log (failed e log') = Refused rt script log log'
  Finds b script log (panicked log') = ⊥

  pub decided-Follows :
      (b : Bool) (s1 s2 : List Request) (log : Log) (run : Run Log Bool)
      (k : Bool → M Log (Unit {0}))
      → Finds b s1 log run
      → ((log' : Log) → Follows rt s2 log' (k b log'))
      → Follows rt (s1 ++ s2) log (((λ _. run) >>= k) log)
  decided-Follows b s1 s2 log (done c log') k (same, ended) next =
      rw same (shift-Follows rt s1 s2 log log' (k b log') ended (next log'))
  decided-Follows b s1 s2 log (failed e log') k h next = extend-Refused rt s1 s2 log e log' h
  decided-Follows b s1 s2 log (panicked log') k h next = absurd h

  pub shift-Finds :
      (b : Bool) (s1 s2 : List Request) (log log' : Log) (run : Run Log Bool)
      → log' ≡ log ++ s1
      → Finds b s2 log' run
      → Finds b (s1 ++ s2) log run
  shift-Finds b s1 s2 log log' (done c end) e (same, ended) =
      (same, ended ∙ ap (λ l. l ++ s2) e ∙ append_assoc log s1 s2)
  shift-Finds b s1 s2 log log' (failed x end) e refused =
      shift-Follows rt s1 s2 log log' (failed x end) e refused
  shift-Finds b s1 s2 log log' (panicked end) e h = absurd h

  abbrev Decides : List Str → Log → Run Log Bool → Type 0
  Decides verbs log run =
      (b : Bool) × (asked : List Str) × Reviewed verbs b asked × Finds b (reviews asked) log run

  further-Decides :
      (verb : Str) (rest : List Str) (log : Log) (run : Run Log Bool)
      → Decides rest (log ++ (review verb ∷ [])) run
      → Decides (verb ∷ rest) log run
  further-Decides verb rest log run (b, asked, r, found) = (
    b,
    verb ∷ asked,
    further b r,
    shift-Finds b (review verb ∷ []) (reviews asked) log _ run refl found,
  )
    where
      further : (b : Bool) → Reviewed rest b asked → Reviewed (verb ∷ rest) b (verb ∷ asked)
      further true r = ap (λ l. verb ∷ l) r
      further false (more, r) = (more, ap (λ l. verb ∷ l) r)

  abbrev review_message : Str → Str
  review_message verb =
      codes "unable to perform RBAC check for verb "
      ++ (verb ++ codes " on CustomResourceDefinitions")

  -- What the loop does with the outcome of a review.
  abbrev after_review : Str → List Str → Run Log Bool → M Log Bool
  after_review verb rest run = wrapping (review_message verb) (λ _. run) >>= λ allowed.
      if allowed then review_each rt rest else pure false

  answered_review :
      (verb : Str) (rest : List Str) (log : Log)
      → rt.answer log (review verb) ≡ ok tt
      → review_each rt (verb ∷ rest) log
        ≡ (if rt.allowed log verb then review_each rt rest else pure false)
            (log ++ (review verb ∷ []))
  unfolding review_each ask_review
  answered_review verb rest log e = ap (λ run. after_review verb rest run log) (asked e)
    where
      asked :
          rt.answer log (review verb) ≡ ok tt
          → ask_review rt verb log ≡ done (rt.allowed log verb) (log ++ (review verb ∷ []))
      asked e = rw (e, ask_review) refl

  refused_review :
      (verb : Str) (rest : List Str) (log : Log) (x : Error)
      → rt.answer log (review verb) ≡ err x
      → review_each rt (verb ∷ rest) log
        ≡ failed (wrap x (review_message verb)) (log ++ (review verb ∷ []))
  unfolding review_each ask_review
  refused_review verb rest log x e = ap (λ run. after_review verb rest run log) (asked e)
    where
      asked :
          rt.answer log (review verb) ≡ err x
          → ask_review rt verb log ≡ failed x (log ++ (review verb ∷ []))
      asked e = rw (e, ask_review) refl

  review_each-Decides :
      (verbs : List Str) (log : Log) → Decides verbs log (review_each rt verbs log)
  unfolding review_each
  review_each-Decides [] log = (true, [], refl, (refl, sym (append-nil log)))
  review_each-Decides (verb ∷ rest) log = elim (Result-cases (rt.answer log (review verb))) [
    | inl (u, e) ↦
        subst (Decides (verb ∷ rest) log) (sym (answered_review verb rest log e))
          (by (rt.allowed log verb) (review_each-Decides rest (log ++ (review verb ∷ []))))
    | inr (x, e) ↦ subst (Decides (verb ∷ rest) log) (sym (refused_review verb rest log x e)) (
      true,
      verb ∷ rest,
      refl,
      (
        [],
        review verb,
        reviews rest,
        refl,
        refl,
        (x, ap (λ l. rt.answer l (review verb)) (append-nil log) ∙ e),
      ),
    )
  ]
    where
      by :
          (allowed : Bool)
          → Decides rest
              (log ++ (review verb ∷ []))
              (review_each rt rest (log ++ (review verb ∷ [])))
          → Decides
              (verb ∷ rest)
              log
              ((if allowed then review_each rt rest else pure false) (log ++ (review verb ∷ [])))
      by true next = further-Decides verb rest log _ next
      by false next = (false, verb ∷ [], (rest, refl), (refl, refl))

  -- A review that is answered and leaves `b`.
  judged_review :
      (verb : Str) (rest : List Str) (log : Log) (b : Bool)
      → rt.answer log (review verb) ≡ ok tt
      → rt.allowed log verb ≡ b
      → review_each rt (verb ∷ rest) log
        ≡ (if b then review_each rt rest else pure false) (log ++ (review verb ∷ []))
  judged_review verb rest log b e judged =
      answered_review verb rest log e
      ∙ ap (λ c. (if c then review_each rt rest else pure false) (log ++ (review verb ∷ []))) judged

  review_each_to :
      (vs : List Str) (log log' : Log)
      → review_each rt vs log ≡ done true log'
      → Granted vs log × (log' ≡ log ++ reviews vs)
  unfolding review_each
  review_each_to [] log log' h = let e = append-nil log in (tt, cc)
  review_each_to (verb ∷ rest) log log' h = elim (Result-cases (rt.answer log (review verb))) [
    | inl (u, e) ↦ elim (Bool-cases (rt.allowed log verb)) [
      | inl allowed ↦
          let (granted, ended) =
            review_each_to rest (log ++ (review verb ∷ [])) log'
              (sym (judged_review verb rest log true e allowed) ∙ h) in
          ((e, allowed, granted), ended ∙ append_assoc log (review verb ∷ []) (reviews rest))
      | inr refused ↦ let g = sym (judged_review verb rest log false e refused) ∙ h in absurd (cc)
    ]
    | inr (x, e) ↦ let g = sym (refused_review verb rest log x e) ∙ h in absurd (cc)
  ]

  review_each_from :
      (vs : List Str) (log : Log)
      → Granted vs log
      → review_each rt vs log ≡ done true (log ++ reviews vs)
  unfolding review_each
  review_each_from [] log granted = ap (λ l. done true l) (sym (append-nil log))
  review_each_from (verb ∷ rest) log (e, allowed, granted) =
      judged_review verb rest log true e allowed
      ∙ review_each_from rest (log ++ (review verb ∷ [])) granted
      ∙ ap (λ l. done true l) (append_assoc log (review verb ∷ []) (reviews rest))

  abbrev pub scheme_request : Request
  scheme_request = add_to_scheme (codes "authorization.k8s.io")

  asked_iff :
      (r : Request) (log log' : Log)
      → (ask rt r log ≡ done tt log') ↔ ((rt.answer log r ≡ ok tt) × (log' ≡ log ++ (r ∷ [])))
  unfolding ask
  asked_iff r log log' = elim (Result-cases (rt.answer log r)) [
    | inl (u, e) ↦ rw e ((λ h. (refl, cc)), (λ (a, h). cc))
    | inr (x, e) ↦ rw e ((λ h. absurd (cc)), (λ (a, h). absurd (cc)))
  ]

  -- The process may watch custom resource definitions exactly if the scheme takes the reviews and
  -- the server answers a review of `get`, of `list` and of `watch` and allows each; it has asked for
  -- all of them then.
  pub can_watch_crd_iff :
      (log log' : Log)
      → (can_watch_crd rt log ≡ done true log') ↔ (
          (rt.answer log (add_to_scheme (codes "authorization.k8s.io")) ≡ ok tt)
          × Granted verbs (log ++ (add_to_scheme (codes "authorization.k8s.io") ∷ []))
          × (log' ≡ log ++ (add_to_scheme (codes "authorization.k8s.io") ∷ reviews verbs)))
  unfolding can_watch_crd
  can_watch_crd_iff log log' =
      let (to_parts, from_parts) =
        bind_done (ask rt scheme_request) (λ _. review_each rt verbs) log log' true in
      (
        (λ h.
            let (u, log1, first, next) = to_parts h in
            let (answer, ended) = (asked_iff scheme_request log log1).0 first in
            let (granted, last) = review_each_to verbs log1 log' next in
            (
              answer,
              subst (Granted verbs) ended granted,
              last
                  ∙ ap (λ l. l ++ reviews verbs) ended
                  ∙ append_assoc log (scheme_request ∷ []) (reviews verbs),
            )),
        (λ (answer, granted, ended). from_parts (
          tt,
          log ++ (scheme_request ∷ []),
          (asked_iff scheme_request log _).1 (answer, refl),
          review_each_from verbs _ granted
              ∙ ap (λ l. done true l)
                  (append_assoc log (scheme_request ∷ []) (reviews verbs) ∙ sym ended),
        )),
      )

  abbrev pub Watches : Log → Run Log Bool → Type 0
  Watches log run =
      (b : Bool) × (asked : List Str) × Reviewed verbs b asked
      × Finds b (scheme_request ∷ reviews asked) log run

  pub can_watch-Watches : (log : Log) → Watches log (can_watch_crd rt log)
  unfolding can_watch_crd
  can_watch-Watches log = by (ask rt scheme_request log) (ask-Follows rt scheme_request log)
    where
      by :
          (run : Run Log (Unit {0}))
          → Follows rt (scheme_request ∷ []) log run
          → Watches log (((λ _. run) >>= λ _. review_each rt verbs) log)
      by (done u log') h =
          let (b, asked, r, found) = review_each-Decides verbs log' in
          (b, asked, r, shift-Finds b (scheme_request ∷ []) (reviews asked) log log' _ h found)
      by (failed e log') h =
          (true, verbs, refl, extend-Refused rt (scheme_request ∷ []) (reviews verbs) log e log' h)
      by (panicked log') h = absurd h

  pub wrapping-Finds :
      (b : Bool) (script : List Request) (log : Log) (message : Str) (run : Run Log Bool)
      → Finds b script log run
      → Finds b script log (wrapping message (λ _. run) log)
  wrapping-Finds b script log message (done c log') h = h
  wrapping-Finds b script log message (failed e log') h = h
  wrapping-Finds b script log message (panicked log') h = absurd h
