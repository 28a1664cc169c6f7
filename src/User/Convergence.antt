-- ===== src/User/Convergence.antt =====
-- Whether a user that was created is found up to date, password included, and what becomes of the
-- tags.
use mathlib.Core.Path.{subst}
use mathlib.Core.Option.{get_or}
use provider_rabbitmq.Prelude.{◌≡◌, ◌≢◌, ◌↔◌, refl, sym, ap, ◌∙◌, true, some, []}
use provider_rabbitmq.Libraries.{Libraries, LibraryLaws}
use provider_rabbitmq.Meta.{is_crossplane_managed, set_crossplane_managed}
use provider_rabbitmq.Meta.Claims.{set_crossplane_managed-IsClaimed}
use provider_rabbitmq.Client.{RabbitMqClient}
use provider_rabbitmq.Client.Types.{ok, UserInfo}
use provider_rabbitmq.Handler.{State, done, ExternalObservation}
use provider_rabbitmq.User.{observe, create}
use provider_rabbitmq.User.Agreement.{Differs, is_user_up_to_date_iff}
use provider_rabbitmq.User.Methods.{observed, observe_ok, create_done, created_state}
use provider_rabbitmq.User.Passwords.{Hashes, resolve_user_password}
use provider_rabbitmq.User.Settings.{
  get_external_name, late_initialize, late_initialize_settings, empty_settings, is_up_to_date,
}
use provider_rabbitmq.User.Types.{Bytes, User, UserParameters, UserSettings, KubeClient}
use provider_rabbitmq.User.Server.{UserServer, Stored, put_user-Stored, replaced_tags}

pub accepted :
    ⦃lib : Libraries⦄ ⦃h : Hashes⦄ (laws : LibraryLaws lib) (password : Bytes)
    (spec : UserParameters) (info : UserInfo)
    → (late_initialize_settings (get_or spec.user_settings empty_settings) info).tags ≡ info.tags
    → (is_up_to_date password (late_initialize spec (some info)) info ≡ true)
      ↔ (¬ Differs password info)
unfolding late_initialize
accepted laws password spec info tags =
    let (to, from) = is_user_up_to_date_iff laws password (late_initialize spec (some info)) info in
    ((λ x. (to x).0), (λ n. from (n, tags)))

server_tags :
    (q : UserSettings) (info : UserInfo)
    → q.tags ≢ []
    → info.tags ≢ []
    → late_initialize_settings q info ≡ record q { tags = info.tags }
unfolding late_initialize_settings
server_tags q info t u = ap (λ x. record q { tags = x }) (replaced_tags q.tags info.tags t u)

module _ ⦃lib : Libraries⦄ ⦃h : Hashes⦄ {W : Type 0} (kube : KubeClient W)
    (client : RabbitMqClient W) where
  -- On a server that stores the tags and a salted SHA-256 sum of the password, and leaves the
  -- secrets of the cluster alone, after a successful creation an observation finds the user, and
  -- finds it up to date, password included.
  pub created_user_observed :
      (laws : LibraryLaws lib) (server : UserServer kube client) (s : State User W)
      {s' : State User W} {cr : User}
      → s.cr ≡ some cr
      → create kube client s ≡ done tt s'
      → (o : ExternalObservation) × (s'' : State User W) × (observe kube client s' ≡ done o s'')
        × (o.resource_exists ≡ true)
        × (o.resource_up_to_date ≡ true)
  unfolding set_crossplane_managed get_external_name
  created_user_observed laws server s {s'} {cr} same created =
      let (password, r, w, p, e, state) = create_done kube client s same created in
      subst Found (sym state)
        (found password w (put_user-Stored server cr password s.world w r p e))
    where
      Found : State User W → Type 0
      Found t =
          (o : ExternalObservation) × (t' : State User W) × (observe kube client t ≡ done o t')
          × (o.resource_exists ≡ true)
          × (o.resource_up_to_date ≡ true)

      found :
          (password : Bytes) (w : W) → Stored server cr password w → Found (created_state cr w s)
      found password w (info, got, tags, same_hash, p) =
          let (o, t, ob, _, ex, up) =
            observe_ok kube client (created_state cr w s) refl
              (set_crossplane_managed-IsClaimed laws cr.meta (get_external_name cr)).0 got p in
          (o, t, ob, ex, up ∙ (accepted laws password cr.for_provider info tags).1 same_hash)

  -- An observation undoes a change of the tags: for a managed user that the server has, whose
  -- password is resolved, and whose spec and whose user on the server both have tags, the tags of
  -- the spec are replaced by the server's, and the user counts as up to date exactly if the
  -- password is not known to differ.
  pub user_tag_change_undone :
      (laws : LibraryLaws lib) (s : State User W) {cr : User} {info : UserInfo} {q : UserSettings}
      {password : Bytes}
      → s.cr ≡ some cr
      → is_crossplane_managed cr.meta ≡ true
      → client.get_user (get_external_name cr) s.world ≡ ok info
      → resolve_user_password kube s.world cr.for_provider.user_settings ≡ ok password
      → cr.for_provider.user_settings ≡ some q
      → q.tags ≢ []
      → info.tags ≢ []
      → (o : ExternalObservation) × (s' : State User W) × (observe kube client s ≡ done o s')
        × (s'.cr ≡ some (observed cr info))
        × ((observed cr info).for_provider.user_settings ≡ some (record q { tags = info.tags }))
        × ((o.resource_up_to_date ≡ true) ↔ (¬ Differs password info))
  unfolding late_initialize
  user_tag_change_undone laws s {cr} {info} {q} {password} same m got p has t u =
      let (o, s', ob, st, ex, up) = observe_ok kube client s same m got p in
      let filled =
        ap (λ x. late_initialize_settings (get_or x empty_settings) info) has
        ∙ server_tags q info t u in
      (
        o,
        s',
        ob,
        ap (λ x. x.cr) st,
        ap some filled,
        subst (λ b. (b ≡ true) ↔ (¬ Differs password info)) (sym up)
            (accepted laws password cr.for_provider info (ap (λ x. x.tags) filled)),
      )
