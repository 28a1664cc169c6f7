-- ===== src/User/Server.antt =====
-- What a server promises of users that are put, and what a successful call of it leaves behind.
use mathlib.Core.Path.{subst}
use mathlib.Core.Option.{get_or}
use provider_rabbitmq.Prelude.{
  ℕ, ◌≡◌, ◌≢◌, refl, sym, ◌∙◌, true, false, Option, none, some, List, [], ◌∷◌, Str, str_eq,
  str_eq_iff, arith, inl, inr,
}
use provider_rabbitmq.Client.{RabbitMqClient}
use provider_rabbitmq.Client.Types.{Response, ok, UserInfo, UserSettings as ApiUserSettings}
use provider_rabbitmq.User.{put_user}
use provider_rabbitmq.User.Agreement.{IsSaltedSum, Differs}
use provider_rabbitmq.Go.Base64.{decode_string}
use provider_rabbitmq.User.Passwords.{
  Hashes, hashing_algorithm_sha256, hashing_algorithm_sha512, resolve_user_password, password_of,
  password_of_ref,
}
use provider_rabbitmq.User.Settings.{
  get_external_name, generate_api_user_settings, late_initialize_settings, late_initialize_tags,
  empty_settings,
}
use provider_rabbitmq.User.Types.{Bytes, User, UserSettings, SecretKeySelector, KubeClient}

-- What is documented of the two calls that put a user: the user is there with its tags, a password
-- is stored as its salted SHA-256 sum, and the secrets of the cluster are as before.
pub record UserServer ⦃h : Hashes⦄ {W : Type 0} (kube : KubeClient W) (client : RabbitMqClient W)
    : Type 0 where
  pub put :
      (name : Str) (settings : ApiUserSettings) (w w' : W) (r : Response)
      → client.put_user name settings w ≡ (ok r, w')
      → (info : UserInfo) × (client.get_user name w' ≡ ok info)
        × (settings.tags ≡ info.tags)
        × (info.hashing_algorithm ≡ hashing_algorithm_sha256)
        × IsSaltedSum h.sum256 settings.password (decode_string info.password_hash)
  pub put_without_password :
      (name : Str) (settings : ApiUserSettings) (w w' : W) (r : Response)
      → client.put_user_without_password name settings w ≡ (ok r, w')
      → (info : UserInfo) × (client.get_user name w' ≡ ok info) × (settings.tags ≡ info.tags)
  pub secrets_kept :
      (name namespace secret : Str) (settings : ApiUserSettings) (w w' : W) (r : Response)
      → client.put_user name settings w ≡ (ok r, w')
      → kube.get_secret namespace secret w' ≡ kube.get_secret namespace secret w
  pub secrets_kept_without_password :
      (name namespace secret : Str) (settings : ApiUserSettings) (w w' : W) (r : Response)
      → client.put_user_without_password name settings w ≡ (ok r, w')
      → kube.get_secret namespace secret w' ≡ kube.get_secret namespace secret w

pub same_tags_kept : (t u : List Str) → t ≡ u → late_initialize_tags t u ≡ u
unfolding late_initialize_tags
same_tags_kept t u h = ground arith

pub replaced_tags : (t u : List Str) → t ≢ [] → u ≢ [] → late_initialize_tags t u ≡ u
unfolding late_initialize_tags
replaced_tags t u a b = ground arith

tags_agree :
    (o : Option UserSettings) (password : Option Bytes) (info : UserInfo)
    → (generate_api_user_settings password o).tags ≡ info.tags
    → (late_initialize_settings (get_or o empty_settings) info).tags ≡ info.tags
unfolding generate_api_user_settings late_initialize_settings
tags_agree none password info h = same_tags_kept [] info.tags h
tags_agree (some spec) password info h = same_tags_kept spec.tags info.tags h

-- A password that is not empty comes from settings, which is where it is sent from.
sent_password :
    {W : Type 0} (kube : KubeClient W) (w : W) (o : Option UserSettings) (b : ℕ) (password : Bytes)
    → resolve_user_password kube w o ≡ ok (b ∷ password)
    → (generate_api_user_settings (some (b ∷ password)) o).password ≡ b ∷ password
unfolding resolve_user_password generate_api_user_settings
sent_password kube w none b password p = absurd (ground arith)
sent_password kube w (some spec) b password p = refl

-- Where the secrets are the same, so is the password.
same_password :
    {W : Type 0} (kube : KubeClient W) (w w' : W) (o : Option UserSettings)
    → ((namespace secret : Str)
        → kube.get_secret namespace secret w' ≡ kube.get_secret namespace secret w)
    → resolve_user_password kube w' o ≡ resolve_user_password kube w o
unfolding resolve_user_password password_of password_of_ref
same_password kube w w' none kept = refl
same_password kube w w' (some spec) kept = of spec.password spec.password_secret_ref
  where
    of :
        (p : Option Bytes) (ref : Option SecretKeySelector)
        → password_of kube w' p ref ≡ password_of kube w p ref
    of (some password) ref = refl
    of none none = refl
    of none (some ref) = rw (kept ref.namespace ref.name)

algorithms_differ : hashing_algorithm_sha256 ≢ hashing_algorithm_sha512
unfolding str_eq
algorithms_differ e =
    false-ne-true ((str_eq_iff hashing_algorithm_sha256 hashing_algorithm_sha512).1 e)
  where
    false-ne-true : false ≢ true
    false-ne-true x = absurd (cc)

-- What a successful call leaves behind.
module _ ⦃h : Hashes⦄ {W : Type 0} {kube : KubeClient W} {client : RabbitMqClient W}
    (server : UserServer kube client) where
  abbrev pub Stored : User → Bytes → W → Type 0
  Stored cr password w' =
      (info : UserInfo) × (client.get_user (get_external_name cr) w' ≡ ok info)
      × ((late_initialize_settings (get_or cr.for_provider.user_settings empty_settings) info).tags
          ≡ info.tags)
      × (¬ Differs password info)
      × (resolve_user_password kube w' cr.for_provider.user_settings ≡ ok password)

  not_differing :
      (password : Bytes) (info : UserInfo)
      → info.hashing_algorithm ≡ hashing_algorithm_sha256
      → IsSaltedSum h.sum256 password (decode_string info.password_hash)
      → ¬ Differs password info
  not_differing password info a salted (_, (_, inl (_, n))) = n salted
  not_differing password info a salted (_, (_, inr (b, _))) = algorithms_differ (sym a ∙ b)

  pub put_user-Stored :
      (cr : User) (password : Bytes) (w w' : W) (r : Response)
      → resolve_user_password kube w cr.for_provider.user_settings ≡ ok password
      → put_user client cr password w ≡ (ok r, w')
      → Stored cr password w'
  unfolding put_user
  put_user-Stored cr [] w w' r p e =
      let (info, got, tags) = server.put_without_password _ _ w w' r e in
      (
        info,
        got,
        tags_agree cr.for_provider.user_settings none info tags,
        (λ d. d.0 refl),
        same_password kube w w' cr.for_provider.user_settings (λ namespace secret.
              server.secrets_kept_without_password _ namespace secret _ w w' r e)
            ∙ p,
      )
  put_user-Stored cr (b ∷ password) w w' r p e =
      let (info, got, tags, a, salted) = server.put _ _ w w' r e in
      (
        info,
        got,
        tags_agree cr.for_provider.user_settings (some (b ∷ password)) info tags,
        not_differing (b ∷ password) info a (
            subst (λ sent. IsSaltedSum h.sum256 sent (decode_string info.password_hash))
              (sent_password kube w cr.for_provider.user_settings b password p) salted),
        same_password kube w w' cr.for_provider.user_settings
              (λ namespace secret. server.secrets_kept _ namespace secret _ w w' r e)
            ∙ p,
      )
