-- ===== src/Connector/Outcome.antt =====
-- When a connector returns a client, and how else it can end.
use mathlib.Core.Path.{subst}
use provider_rabbitmq.Prelude.{
  ℕ, ◌≡◌, ◌↔◌, ◌⊎◌, inl, inr, refl, sym, ap, ◌∙◌, false, none, some, List, [], Str, codes, arith,
  str_eq, str_eq_iff, Bool-cases, Option-cases,
}
use provider_rabbitmq.Client.Types.{ok}
use provider_rabbitmq.Handler.{done, panicked, Result-cases, bind_done}
use provider_rabbitmq.Connector.{
  Reference, Managed, RabbitMqCredentials, Connections, new_client, credentials_at, track_usage,
  provider_credentials, service_of, connect, connect_cluster,
}

module _ {W C S : Type 0} (calls : Connections W C S) where
  -- The config that a reference names: in the resource's own namespace, or of the cluster.
  abbrev pub ConfiguredBy : Str → Reference → W → C → Type 0
  ConfiguredBy namespace ref w cd =
      ((ref.kind ≡ codes "ProviderConfig")
        × (calls.get_provider_config namespace ref.name w ≡ ok cd))
      ⊎ ((ref.kind ≡ codes "ClusterProviderConfig")
          × (calls.get_cluster_provider_config ref.name w ≡ ok cd))

  abbrev pub Configured : Managed → W → C → Type 0
  Configured mg w cd =
      (ref : Reference) × (mg.reference ≡ some ref) × ConfiguredBy mg.namespace ref w cd

  -- The client of the credentials that the selectors lead to.
  abbrev pub Serves : C → W → S → Type 0
  Serves cd w svc =
      (creds : List ℕ) × (config : RabbitMqCredentials) × (calls.extract_credentials cd w
        ≡ ok creds)
      × (calls.unmarshal creds ≡ ok (some config))
      × (calls.new_rabbithole_client config.endpoint config.username config.password ≡ ok svc)

  client_done :
      (creds : List ℕ) (w w' : W) (svc : S)
      → (new_client calls creds w ≡ done svc w') ↔ (
          (config : RabbitMqCredentials) × (calls.unmarshal creds ≡ ok (some config))
          × (calls.new_rabbithole_client config.endpoint config.username config.password ≡ ok svc)
          × (w' ≡ w))
  unfolding new_client
  client_done creds w w' svc = (to, (λ (config, u, n, same). ground arith))
    where
      to :
          new_client calls creds w ≡ done svc w'
          → (config : RabbitMqCredentials) × (calls.unmarshal creds ≡ ok (some config))
            × (calls.new_rabbithole_client config.endpoint config.username config.password ≡ ok svc)
            × (w' ≡ w)
      to e = elim (Result-cases (calls.unmarshal creds)) [
        | inl (o, u) ↦ elim (Option-cases o) [
          | inl nil ↦ absurd (ground arith)
          | inr (config, some_config) ↦ (config, u ∙ ap ok some_config, ground arith, ground arith)
        ]
        | inr (x, u) ↦ absurd (ground arith)
      ]

  service_done :
      (cd : C) (w w' : W) (svc : S)
      → (service_of calls cd w ≡ done svc w') ↔ (Serves cd w svc × (w' ≡ w))
  unfolding service_of
  service_done cd w w' svc = (to, from)
    where
      from : Serves cd w svc × (w' ≡ w) → service_of calls cd w ≡ done svc w'
      from ((creds, config, x, u, n), same) =
          let connected = (client_done creds w w' svc).1 (config, u, n, same) in ground arith

      to : service_of calls cd w ≡ done svc w' → Serves cd w svc × (w' ≡ w)
      to e = elim (Result-cases (calls.extract_credentials cd w)) [
        | inl (creds, x) ↦
            let (config, u, n, same) = (client_done creds w w' svc).0 (ground arith) in
            ((creds, config, x, u, n), same)
        | inr (problem, x) ↦ absurd (ground arith)
      ]

  other_kind :
      (k : Str) → k ≡ codes "ClusterProviderConfig" → str_eq k (codes "ProviderConfig") ≡ false
  unfolding str_eq
  other_kind k e = ap (λ x. str_eq x (codes "ProviderConfig")) e

  tracked_done :
      (mg : Managed) (w w' : W) (u : Unit {0})
      → (track_usage calls mg w ≡ done u w') ↔ (calls.track mg w ≡ (ok u, w'))
  unfolding track_usage
  tracked_done mg w w' u = (ground arith, ground arith)

  referred_done :
      (namespace : Str) (ref : Reference) (w w' : W) (cd : C)
      → (credentials_at calls namespace ref w ≡ done cd w')
        ↔ (ConfiguredBy namespace ref w cd × (w' ≡ w))
  unfolding credentials_at
  referred_done namespace ref w w' cd = (to, from)
    where
      to :
          credentials_at calls namespace ref w ≡ done cd w'
          → ConfiguredBy namespace ref w cd × (w' ≡ w)
      to e = elim (Bool-cases (str_eq ref.kind (codes "ProviderConfig"))) [
        | inl own ↦ (inl ((str_eq_iff _ _).0 own, ground arith), ground arith)
        | inr other ↦ elim (Bool-cases (str_eq ref.kind (codes "ClusterProviderConfig"))) [
          | inl shared ↦ (inr ((str_eq_iff _ _).0 shared, ground arith), ground arith)
          | inr neither ↦ absurd (ground arith)
        ]
      ]

      from :
          ConfiguredBy namespace ref w cd × (w' ≡ w)
          → credentials_at calls namespace ref w ≡ done cd w'
      from (inl (k, g), same) =
          let own = (str_eq_iff ref.kind (codes "ProviderConfig")).1 k in ground arith
      from (inr (k, g), same) =
          let other = other_kind ref.kind k in
          let shared = (str_eq_iff ref.kind (codes "ClusterProviderConfig")).1 k in ground arith

  credentials_done :
      (mg : Managed) (w w' : W) (cd : C)
      → (provider_credentials calls mg w ≡ done cd w') ↔ (Configured mg w cd × (w' ≡ w))
  unfolding provider_credentials
  credentials_done mg w w' cd = elim (Option-cases mg.reference) [
    | inl nil ↦ ((λ e. absurd (cc (rw nil at e))), (λ ((ref, there, _), _). absurd (cc)))
    | inr (ref, there) ↦
        let (to, from) = referred_done mg.namespace ref w w' cd in
        (
          (λ e. let (conf, same) = to (rw there at e) in ((ref, there, conf), same)),
          (λ ((ref', there', conf), same).
              let e : ref' ≡ ref = cc in
              rw there (from (subst (λ x. ConfiguredBy mg.namespace x w cd) e conf, same))),
        )
  ]

  -- A connector in a namespace returns a client exactly if the use of the config was recorded, there is a
  -- reference, the config that it names was found, in the resource's own namespace or in the cluster
  -- by the kind of the reference, and its credentials were extracted, read and accepted; the state
  -- is then the one that the record of the use left.
  pub connect_done_iff :
      (err_not_kind : Str) (mg : Managed) (w w' : W) (svc : S)
      → (connect calls err_not_kind (some mg) w ≡ done svc w')
        ↔ ((calls.track mg w ≡ (ok tt, w')) × ((cd : C) × Configured mg w' cd × Serves cd w' svc))
  unfolding connect
  connect_done_iff err_not_kind mg w w' svc = (to, from)
    where
      Ends : W → Type 0
      Ends x = (calls.track mg w ≡ (ok tt, x)) × ((cd : C) × Configured mg x cd × Serves cd x svc)

      to : connect calls err_not_kind (some mg) w ≡ done svc w' → Ends w'
      to e =
          let (u, w1, t, rest) = (bind_done (track_usage calls mg) _ w w' svc).0 e in
          let (cd, w2, g, r) =
            (bind_done (provider_credentials calls mg) (service_of calls) w1 w' svc).0 rest in
          let (conf, same) = (credentials_done mg w1 w2 cd).0 g in
          let (serves, same') = (service_done cd w2 w' svc).0 r in
          subst Ends (sym (same' ∙ same))
            ((tracked_done mg w w1 u).0 t, (cd, conf, subst (λ x. Serves cd x svc) same serves))

      from : Ends w' → connect calls err_not_kind (some mg) w ≡ done svc w'
      from (t, (cd, conf, serves)) = (bind_done (track_usage calls mg) _ w w' svc).1 (
        tt,
        w',
        (tracked_done mg w w' tt).1 t,
        (bind_done (provider_credentials calls mg) (service_of calls) w' w' svc).1 (
          cd,
          w',
          (credentials_done mg w' w' cd).1 (conf, refl),
          (service_done cd w' w' svc).1 (serves, refl),
        ),
      )

  -- The config of the cluster that the reference names.
  abbrev pub ClusterConfigured : Managed → W → C → Type 0
  ClusterConfigured mg w cd =
      (ref : Reference) × (mg.reference ≡ some ref)
      × (calls.get_provider_config [] ref.name w ≡ ok cd)

  -- A connector of the cluster's kinds returns a client exactly if there is a reference, the config
  -- of the cluster that it names was found, and its credentials were extracted, read and accepted; it
  -- changes nothing.
  pub connect_cluster_done_iff :
      (err_not_kind : Str) (mg : Managed) (w w' : W) (svc : S)
      → (connect_cluster calls err_not_kind (some mg) w ≡ done svc w')
        ↔ ((w' ≡ w) × ((cd : C) × ClusterConfigured mg w cd × Serves cd w svc))
  unfolding connect_cluster
  connect_cluster_done_iff err_not_kind mg w w' svc = (to, from)
    where
      Ends : Type 0
      Ends = (w' ≡ w) × ((cd : C) × ClusterConfigured mg w cd × Serves cd w svc)

      to : connect_cluster calls err_not_kind (some mg) w ≡ done svc w' → Ends
      to e = elim (Option-cases mg.reference) [
        | inl nil ↦ absurd (cc (rw nil at e))
        | inr (ref, there) ↦ elim (Result-cases (calls.get_provider_config [] ref.name w)) [
          | inl (cd, g) ↦
              let (serves, same) = (service_done cd w w' svc).0 (ground arith) in
              (same, (cd, (ref, there, g), serves))
          | inr (problem, g) ↦ absurd (ground arith)
        ]
      ]

      from : Ends → connect_cluster calls err_not_kind (some mg) w ≡ done svc w'
      from (same, (cd, (ref, there, g), serves)) =
          let connected = (service_done cd w w' svc).1 (serves, same) in ground arith

  -- Credentials that are found, extracted, and read as a nil pointer.
  abbrev pub Null : C → W → Type 0
  Null cd w =
      (creds : List ℕ) × (calls.extract_credentials cd w ≡ ok creds)
      × (calls.unmarshal creds ≡ ok none)

  service_panics :
      (cd : C) (w w' : W) → (service_of calls cd w ≡ panicked w') ↔ (Null cd w × (w' ≡ w))
  unfolding service_of new_client
  service_panics cd w w' = (to, (λ ((creds, x, u), same). ground arith))
    where
      to : service_of calls cd w ≡ panicked w' → Null cd w × (w' ≡ w)
      to e = elim (Result-cases (calls.extract_credentials cd w)) [
        | inl (creds, x) ↦ elim (Result-cases (calls.unmarshal creds)) [
          | inl (o, u) ↦ elim (Option-cases o) [
            | inl nil ↦ ((creds, x, u ∙ ap ok nil), ground arith)
            | inr (config, there) ↦
                elim (Result-cases
                  (calls.new_rabbithole_client config.endpoint config.username config.password)) [
                    | inl (svc, n) ↦ absurd (ground arith)
                    | inr (problem, n) ↦ absurd (ground arith)
                  ]
          ]
          | inr (problem, u) ↦ absurd (ground arith)
        ]
        | inr (problem, x) ↦ absurd (ground arith)
      ]

  -- A connector of the cluster's kinds panics exactly if the resource has no reference to a config, or
  -- the config that it names is found, and its credentials are extracted and read as a nil pointer, as
  -- the JSON `null` is; nothing has changed then.
  pub connect_cluster_panics_iff :
      (err_not_kind : Str) (mg : Managed) (w w' : W)
      → (connect_cluster calls err_not_kind (some mg) w ≡ panicked w')
        ↔ ((w' ≡ w) × ((mg.reference ≡ none) ⊎ ((cd : C) × ClusterConfigured mg w cd × Null cd w)))
  unfolding connect_cluster
  connect_cluster_panics_iff err_not_kind mg w w' = (to, from)
    where
      Ends : Type 0
      Ends = (w' ≡ w) × ((mg.reference ≡ none) ⊎ ((cd : C) × ClusterConfigured mg w cd × Null cd w))

      to : connect_cluster calls err_not_kind (some mg) w ≡ panicked w' → Ends
      to e = elim (Option-cases mg.reference) [
        | inl nil ↦ (ground arith, inl nil)
        | inr (ref, there) ↦ elim (Result-cases (calls.get_provider_config [] ref.name w)) [
          | inl (cd, g) ↦
              let (null, same) = (service_panics cd w w').0 (ground arith) in
              (same, inr (cd, (ref, there, g), null))
          | inr (problem, g) ↦ absurd (ground arith)
        ]
      ]

      from : Ends → connect_cluster calls err_not_kind (some mg) w ≡ panicked w'
      from (same, inl nil) = ground arith
      from (same, inr (cd, (ref, there, g), null)) =
          let ended = (service_panics cd w w').1 (null, same) in ground arith
