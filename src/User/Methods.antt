-- ===== src/User/Methods.antt =====
-- What the methods of the users' external client do to the resource, the server and the bodies.
use mathlib.Core.Option.{get_or}
use provider_rabbitmq.Prelude.{
  ◌≡◌, ◌⊎◌, refl, ◌∙◌, true, false, Option, none, some, codes, arith, Bool-cases, inl, inr,
}
use provider_rabbitmq.Libraries.{Libraries, LibraryLaws}
use provider_rabbitmq.Meta.{
  is_crossplane_managed, is_not_crossplane_managed, set_crossplane_managed,
}
use provider_rabbitmq.Meta.Claims.{IsClaimed, set_crossplane_managed-IsClaimed}
use provider_rabbitmq.Client.{RabbitMqClient, is_not_found_error}
use provider_rabbitmq.Client.Types.{Result, Response, ok, err, UserInfo}
use provider_rabbitmq.Go.Error.{Error, wrap}
use provider_rabbitmq.Handler.{
  Untouched, State, Run, done, failed, panicked, final, Answer-cases, Result-cases, cast, call,
  ExternalObservation,
}
use provider_rabbitmq.User.{
  observe, observe_answer, observe_managed, put_user, create, update, delete, err_create_failed,
}
use provider_rabbitmq.User.Passwords.{Hashes, resolve_user_password}
use provider_rabbitmq.User.Settings.{
  get_external_name, late_initialize, late_initialize_settings, empty_settings,
  generate_user_observation, is_up_to_date,
}
use provider_rabbitmq.User.Types.{Bytes, User, UserSettings, KubeClient}

-- How a creation ends: the resource is claimed and no other part of it changed, or it is untouched
-- and the error is a wrapped one of the server or of the password's resolution.
abbrev pub CreateOutcome : {W : Type 0} → User → Run (State User W) (Unit {0}) → Type 0
CreateOutcome cr (done _ s) =
    (cr' : User) × (s.cr ≡ some cr')
    × IsClaimed cr'.meta (get_external_name cr)
    × (cr'.for_provider ≡ cr.for_provider)
CreateOutcome cr (failed e s) =
    (s.cr ≡ some cr)
    × ((cause : Error) × ((e ≡ wrap cause err_create_failed)
          ⊎ (e ≡ wrap cause (codes "cannot determine password"))))
CreateOutcome cr (panicked s) = ⊥

-- The resource behind an observation that finds it.
abbrev pub observed : User → UserInfo → User
observed cr info = record cr {
  for_provider = late_initialize cr.for_provider (some info);
  at_provider = generate_user_observation (some info);
  available = true;
}

-- The state behind a successful creation.
abbrev pub created_state : ⦃lib : Libraries⦄ {W : Type 0} → User → W → State User W → State User W
created_state cr w s = record {
  cr = some (record cr { meta = set_crossplane_managed cr.meta (get_external_name cr) });
  world = w;
  open_bodies = s.open_bodies;
}

module _ ⦃lib : Libraries⦄ ⦃h : Hashes⦄ {W : Type 0} (kube : KubeClient W)
    (client : RabbitMqClient W) where
  pub observe-answer :
      (s : State User W) {cr : User}
      → s.cr ≡ some cr
      → observe kube client s
        ≡ observe_answer kube cr (client.get_user (get_external_name cr) s.world) s
  unfolding observe cast
  observe-answer s h = ground arith

  answer_unmanaged :
      (s : State User W) (cr : User) (a : Result UserInfo)
      → is_crossplane_managed cr.meta ≡ false
      → Untouched s (observe_answer kube cr a s)
  unfolding observe_answer is_not_crossplane_managed
  answer_unmanaged s cr (err e) u = elim (Bool-cases (is_not_found_error e)) [
    | inl missing ↦ rw missing (refl, refl)
    | inr other ↦ rw other refl
  ]
  answer_unmanaged s cr (ok api) u = rw u refl

  -- A user that is not marked as managed is never changed by an observation, whatever the server
  -- answers, and it is not reported as existing.
  pub observe_unmanaged_user :
      (s : State User W) {cr : User}
      → s.cr ≡ some cr
      → is_crossplane_managed cr.meta ≡ false
      → Untouched s (observe kube client s)
  observe_unmanaged_user s {cr} h u = rw (observe-answer s h) (answer_unmanaged s cr _ u)

  -- Observing writes nothing to the server and leaves no response body open.
  pub observe_user_reads :
      (s : State User W)
      → ((final (observe kube client s)).world ≡ s.world)
        × ((final (observe kube client s)).open_bodies ≡ s.open_bodies)
  unfolding observe cast
  observe_user_reads s = (ground arith, ground arith)

  -- Late initialization leaves the password of the settings alone.
  pub resolve-late_initialize :
      (w : W) (cr : User) (api : UserInfo)
      → resolve_user_password kube w (late_initialize cr.for_provider (some api)).user_settings
        ≡ resolve_user_password kube w cr.for_provider.user_settings
  unfolding late_initialize late_initialize_settings resolve_user_password
  resolve-late_initialize w cr api = filled cr.for_provider.user_settings
    where
      filled :
          (o : Option UserSettings)
          → resolve_user_password kube w
              (some (late_initialize_settings (get_or o empty_settings) api))
            ≡ resolve_user_password kube w o
      filled none = refl
      filled (some spec) = refl

  managed_ok :
      (s : State User W) (cr : User) (info : UserInfo) {password : Bytes}
      → resolve_user_password kube s.world cr.for_provider.user_settings ≡ ok password
      → (o : ExternalObservation) × (s' : State User W) × (observe_managed kube cr info s
          ≡ done o s')
        × (s' ≡ record s { cr = some (observed cr info) })
        × (o.resource_exists ≡ true)
        × (o.resource_up_to_date
            ≡ is_up_to_date password (late_initialize cr.for_provider (some info)) info)
  unfolding observe_managed
  managed_ok s cr info p =
      rw (resolve-late_initialize s.world cr info ∙ p) (_, _, refl, refl, refl, refl)

  answer_ok :
      (s : State User W) (cr : User) (info : UserInfo) {password : Bytes}
      → is_crossplane_managed cr.meta ≡ true
      → resolve_user_password kube s.world cr.for_provider.user_settings ≡ ok password
      → (o : ExternalObservation) × (s' : State User W) × (observe_answer kube cr (ok info) s
          ≡ done o s')
        × (s' ≡ record s { cr = some (observed cr info) })
        × (o.resource_exists ≡ true)
        × (o.resource_up_to_date
            ≡ is_up_to_date password (late_initialize cr.for_provider (some info)) info)
  unfolding observe_answer is_not_crossplane_managed
  answer_ok s cr info m p = rw m (managed_ok s cr info p)

  -- An observation of a managed user that the server has, and whose password is resolved.
  pub observe_ok :
      (s : State User W) {cr : User} {info : UserInfo} {password : Bytes}
      → s.cr ≡ some cr
      → is_crossplane_managed cr.meta ≡ true
      → client.get_user (get_external_name cr) s.world ≡ ok info
      → resolve_user_password kube s.world cr.for_provider.user_settings ≡ ok password
      → (o : ExternalObservation) × (s' : State User W) × (observe kube client s ≡ done o s')
        × (s' ≡ record s { cr = some (observed cr info) })
        × (o.resource_exists ≡ true)
        × (o.resource_up_to_date
            ≡ is_up_to_date password (late_initialize cr.for_provider (some info)) info)
  observe_ok s {cr} {info} h m e p = rw (observe-answer s h, e) (answer_ok s cr info m p)

  -- Creating, updating and deleting close the body of the answer, on every path.
  pub user_bodies_closed :
      (s : State User W)
      → ((final (create kube client s)).open_bodies ≡ s.open_bodies)
        × ((final (update kube client s)).open_bodies ≡ s.open_bodies)
        × ((final (delete kube client s)).open_bodies ≡ s.open_bodies)
  unfolding create update delete cast call
  user_bodies_closed s = (ground arith, ground arith, ground arith)

  -- Updating and deleting leave the resource itself as it is.
  pub resource_kept :
      (s : State User W)
      → ((final (update kube client s)).cr ≡ s.cr) × ((final (delete kube client s)).cr ≡ s.cr)
  unfolding update delete cast call
  resource_kept s = (ground arith, ground arith)

  -- The ends of a creation, by the password and the server's answer.
  pub create_ok :
      (s : State User W) {cr : User} {password : Bytes} {r : Response} {w : W}
      → s.cr ≡ some cr
      → resolve_user_password kube s.world cr.for_provider.user_settings ≡ ok password
      → put_user client cr password s.world ≡ (ok r, w)
      → create kube client s ≡ done tt (created_state cr w s)
  unfolding create cast call
  create_ok s h p e = ground arith

  create_err :
      (s : State User W) {cr : User} {password : Bytes} {x : Error} {w : W}
      → s.cr ≡ some cr
      → resolve_user_password kube s.world cr.for_provider.user_settings ≡ ok password
      → put_user client cr password s.world ≡ (err x, w)
      → create kube client s ≡ failed (wrap x err_create_failed) (record s { world = w })
  unfolding create cast call
  create_err s h p e = ground arith

  -- If the password of a user cannot be resolved, a creation and an update both fail with that
  -- error in a wrapping, and change neither the resource nor the server.
  pub unresolved_stops :
      (s : State User W) {cr : User} {x : Error}
      → s.cr ≡ some cr
      → resolve_user_password kube s.world cr.for_provider.user_settings ≡ err x
      → (create kube client s ≡ failed (wrap x (codes "cannot determine password")) s)
        × (update kube client s ≡ failed (wrap x (codes "cannot determine password")) s)
  unfolding create update cast call
  unresolved_stops s h p = (ground arith, ground arith)

  pub create_done :
      (s : State User W) {s' : State User W} {cr : User}
      → s.cr ≡ some cr
      → create kube client s ≡ done tt s'
      → (password : Bytes) × (r : Response) × (w : W) × (resolve_user_password kube s.world
            cr.for_provider.user_settings
          ≡ ok password)
        × (put_user client cr password s.world ≡ (ok r, w))
        × (s' ≡ created_state cr w s)
  create_done s {s'} {cr} h created =
      elim (Result-cases (resolve_user_password kube s.world cr.for_provider.user_settings)) [
        | inl (password, p) ↦ elim (Answer-cases (put_user client cr password s.world)) [
          | inl (r, w, e) ↦ (password, r, w, p, e, cc (create_ok s h p e))
          | inr (x, w, e) ↦ absurd (cc (create_err s h p e))
        ]
        | inr (x, p) ↦ absurd (cc ((unresolved_stops s h p).0))
      ]

  -- A creation claims the user under its external name, and keeps its desired state; or it fails
  -- with a wrapping of the server's error, or of the error of the password's resolution, and
  -- leaves the resource as it was. It never panics.
  pub create_user_outcome :
      (laws : LibraryLaws lib) (s : State User W) {cr : User}
      → s.cr ≡ some cr
      → CreateOutcome cr (create kube client s)
  create_user_outcome laws s {cr} h =
      elim (Result-cases (resolve_user_password kube s.world cr.for_provider.user_settings)) [
        | inl (password, p) ↦ elim (Answer-cases (put_user client cr password s.world)) [
          | inl (r, w, e) ↦
              rw (create_ok s h p e) (
                _,
                refl,
                set_crossplane_managed-IsClaimed laws cr.meta (get_external_name cr),
                refl,
              )
          | inr (x, w, e) ↦ rw (create_err s h p e) (h, (x, inl refl))
        ]
        | inr (x, p) ↦ rw ((unresolved_stops s h p).0) (h, (x, inr refl))
      ]
