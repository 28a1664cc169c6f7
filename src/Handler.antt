-- ===== src/Handler.antt =====
-- How a method of an external client runs: the calls that the `external` types of
-- internal/controller make on the managed resource, the RabbitMQ server and the response bodies.
use provider_rabbitmq.Prelude.{
  ◌≡◌, ◌↔◌, refl, ◌⊎◌, inl, inr, ℕ, ◌+◌, ◌-◌, Bool, false, Option, none, some, Str,
}
use provider_rabbitmq.Go.Error.{Error, new, wrap}
use provider_rabbitmq.Client.Types.{Result, ok, err, Response}

-- `cr` is the managed resource, none if it is of another kind; `world` is the server; and
-- `open_bodies` counts the response bodies that were received and not closed.
pub record State (Cr W : Type 0) : Type 0 where
  pub cr : Option Cr
  pub world : W
  pub open_bodies : ℕ

-- A method returns a value or an error, or it panics. What was written stays written.
pub data Run (S A : Type 0) : Type 0 where
  done : A → S → Run S A
  failed : Error → S → Run S A
  panicked : S → Run S A

abbrev pub M : Type 0 → Type 0 → Type 0
M S A = S → Run S A

infixl 5 ◌>>=◌ ◌>>◌
abbrev pub ◌>>=◌ : {S A B : Type 0} → M S A → (A → M S B) → M S B
◌>>=◌ m f s = elim (m s) [
  | done a s' ↦ f a s'
  | failed e s' ↦ failed e s'
  | panicked s' ↦ panicked s'
]

abbrev pub ◌>>◌ : {S B : Type 0} → M S (Unit {0}) → M S B → M S B
m >> k = m >>= λ _. k

module _ {S A : Type 0} where
  abbrev pub pure : A → M S A
  pure a s = done a s

  abbrev pub fail : Error → M S A
  fail e s = failed e s

  abbrev pub panic : M S A
  panic s = panicked s

  -- A pointer that must not be nil.
  abbrev pub deref : Option A → M S A
  deref none = panic
  deref (some a) = pure a

  -- `if err != nil { return …, errors.Wrap(err, message) }`
  abbrev pub or_wrap : Str → Result A → M S A
  or_wrap message (ok a) = pure a
  or_wrap message (err e) = fail (wrap e message)

  -- `if err != nil { return …, errors.Wrap(err, message) }` after a part that can end anyhow.
  abbrev pub wrapping : Str → M S A → M S A
  wrapping message m s = elim (m s) [
    | done a s' ↦ done a s'
    | failed e s' ↦ failed (wrap e message) s'
    | panicked s' ↦ panicked s'
  ]

module _ {Cr W : Type 0} where
  cast_from : Str → Option Cr → M (State Cr W) Cr
  cast_from message none = fail (new message)
  cast_from message (some cr) = pure cr

  -- `cr, ok := mg.(*T); if !ok { return …, errors.New(message) }`
  unfoldable pub cast : Str → M (State Cr W) Cr
  unfolding cast_from
  cast message s = cast_from message s.cr s

  -- What the method writes to `*cr`.
  abbrev pub put_cr : Cr → M (State Cr W) (Unit {0})
  put_cr cr s = done tt (record s { cr = some cr })

  abbrev pub read : {A : Type 0} → (W → A) → M (State Cr W) A
  read f s = done (f s.world) s

  -- An answer comes with an open body.
  answered : Result Response × W → M (State Cr W) (Result Response)
  answered (ok r, w) s = done (ok r) (record s { world = w; open_bodies = s.open_bodies + 1 })
  answered (err e, w) s = done (err e) (record s { world = w })

  unfoldable pub call : (W → Result Response × W) → M (State Cr W) (Result Response)
  unfolding answered
  call f s = answered (f s.world) s

  -- `resp.Body.Close()`; an error of it is only logged.
  abbrev pub close_body : M (State Cr W) (Unit {0})
  close_body s = done tt (record s { open_bodies = s.open_bodies - 1 })

-- `managed.ExternalObservation`.
pub record ExternalObservation : Type 0 where
  pub resource_exists : Bool
  pub resource_up_to_date : Bool
  pub resource_late_initialized : Bool

abbrev pub does_not_exist : ExternalObservation
does_not_exist = record {
  resource_exists = false;
  resource_up_to_date = false;
  resource_late_initialized = false;
}

-- Where a run ended.
abbrev pub final : {S A : Type 0} → Run S A → S
final (done _ s) = s
final (failed _ s) = s
final (panicked s) = s

-- The run ends in the same state, with an error or with the report that nothing exists.
abbrev pub Untouched : {Cr W : Type 0} → State Cr W → Run (State Cr W) ExternalObservation → Type 0
Untouched s (done o s') = (o ≡ does_not_exist) × (s' ≡ s)
Untouched s (failed e s') = s' ≡ s
Untouched s (panicked s') = ⊥

pub Answer-cases :
    {W : Type 0} (p : Result Response × W)
    → ((r : Response) × (w : W) × (p ≡ (ok r, w))) ⊎ ((e : Error) × (w : W) × (p ≡ (err e, w)))
Answer-cases (ok r, w) = inl (r, w, refl)
Answer-cases (err e, w) = inr (e, w, refl)

pub Result-cases :
    {A : Type 0} (a : Result A) → ((x : A) × (a ≡ ok x)) ⊎ ((e : Error) × (a ≡ err e))
Result-cases (ok x) = inl (x, refl)
Result-cases (err e) = inr (e, refl)

-- A chain returns exactly if its first part and then its second return.
pub bind_done :
    {S A B : Type 0} (m : M S A) (f : A → M S B) (s s'' : S) (b : B)
    → ((m >>= f) s ≡ done b s'') ↔ ((a : A) × (s' : S) × (m s ≡ done a s') × (f a s' ≡ done b s''))
bind_done {S = S} {A} {B} m f s s'' b = (to (m s), (λ (a, s', e, h). from (m s) a s' e h))
  where
    Ends : Run S A → Type 0
    Ends r = (a : A) × (s' : S) × (r ≡ done a s') × (f a s' ≡ done b s'')

    to : (r : Run S A) → ((λ _. r) >>= f) s ≡ done b s'' → Ends r
    to (done a s') h = (a, s', refl, h)
    to (failed x s') h = absurd (cc)
    to (panicked s') h = absurd (cc)

    from :
        (r : Run S A) (a : A) (s' : S)
        → r ≡ done a s'
        → f a s' ≡ done b s''
        → ((λ _. r) >>= f) s ≡ done b s''
    from (done c t) a s' e h = cc
    from (failed x t) a s' e h = absurd (cc)
    from (panicked t) a s' e h = absurd (cc)
