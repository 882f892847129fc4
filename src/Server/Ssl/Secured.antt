-- ===== src/Server/Ssl/Secured.antt =====
-- What the three settings of TLS lead to.
use orbstrike.Common.{
  ◌≡◌, ◌≢◌, refl, ◌⊎◌, inl, inr, true, false, [], ◌∷◌, Option, none, some, Text, text_eqb,
  text_eqb_iff, ◌||◌, if◌then◌else◌, arith, Option-cases, Bool-cases,
}
use orbstrike.Tls.{
  X509, Loaded, loaded, load_failed, TlsConfig, switched_off, socket_tls, no_client_cert,
}
use orbstrike.Server.Ssl.{version_tls12, with_ca, with_pair, get_auth_credentials, get_tls_client}

abbrev pub AnyEmpty : Text → Text → Text → Type 0
AnyEmpty cert key ca = (cert ≡ []) ⊎ (key ≡ []) ⊎ (ca ≡ [])

-- Without one of the settings there is no configuration of TLS; with all of them it has the pair that
-- they load as, and the pool of their CA in the field `pool_of`.
pub data Secured (x : X509) (pool_of : TlsConfig x → Option (x.CertPool)) (cert key ca : Text)
    (o : Option (TlsConfig x)) : Type 0 where
  plain : AnyEmpty cert key ca → o ≡ none → Secured x pool_of cert key ca o
  encrypted :
      (pair : x.Cert) (pool : x.CertPool) (tls : TlsConfig x)
      → cert ≢ []
      → key ≢ []
      → ca ≢ []
      → x.key_pair (x.decode cert) (x.decode key) ≡ loaded pair
      → x.add_certs (x.decode ca) ≡ some pool
      → o ≡ some tls
      → tls.certificates ≡ pair ∷ []
      → pool_of tls ≡ some pool
      → Secured x pool_of cert key ca o

module _ (x : X509) (pool_of : TlsConfig x → Option (x.CertPool))
    (build : x.Cert → x.CertPool → TlsConfig x)
    (certified : (pair : x.Cert) (pool : x.CertPool) → (build pair pool).certificates ≡ pair ∷ [])
    (pooled : (pair : x.Cert) (pool : x.CertPool) → pool_of (build pair pool) ≡ some pool)
    (cert key ca : Text) (o : Option (TlsConfig x)) where
  with_pair-Secured :
      (l : Loaded (x.Cert))
      → cert ≢ []
      → key ≢ []
      → ca ≢ []
      → x.key_pair (x.decode cert) (x.decode key) ≡ l
      → socket_tls (with_pair x build l ca) ≡ some o
      → Secured x pool_of cert key ca o
  unfolding with_pair with_ca
  with_pair-Secured (load_failed e) c k a q h = cc
  with_pair-Secured (loaded pair) c k a q h = elim (Option-cases (x.add_certs (x.decode ca))) [
    | inl e ↦ ground arith
    | inr (pool, e) ↦
        encrypted pair pool (build pair pool) c k a q e (ground arith) (certified pair pool)
          (pooled pair pool)
  ]

  all_set :
      (text_eqb cert [] || (text_eqb key [] || text_eqb ca [])) ≡ false
      → (cert ≢ []) × (key ≢ []) × (ca ≢ [])
  all_set e = (
    λ q. ground (arith, text_eqb_iff cert []),
    λ q. ground (arith, text_eqb_iff key []),
    λ q. ground (arith, text_eqb_iff ca []),
  )

  one_empty :
      (text_eqb cert [] || (text_eqb key [] || text_eqb ca [])) ≡ true → AnyEmpty cert key ca
  one_empty e = ground (arith, text_eqb_iff cert [], text_eqb_iff key [], text_eqb_iff ca [])

  checked-Secured :
      socket_tls (
          if text_eqb cert [] || (text_eqb key [] || text_eqb ca [])
          then switched_off
          else with_pair x build (x.key_pair (x.decode cert) (x.decode key)) ca)
        ≡ some o
      → Secured x pool_of cert key ca o
  checked-Secured h = elim (Bool-cases (text_eqb cert [] || (text_eqb key [] || text_eqb ca []))) [
    | inl e ↦ plain (one_empty e) (ground (arith, e, h))
    | inr e ↦
        let (c, k, a) = all_set e in
        with_pair-Secured (x.key_pair (x.decode cert) (x.decode key)) c k a refl (rw e at h)
  ]

module _ (x : X509) (cert key ca : Text) (o : Option (TlsConfig x)) where
  pub get_auth_credentials-Secured :
      socket_tls (get_auth_credentials x cert key ca) ≡ some o
      → Secured x (λ t. t.client_cas) cert key ca o
  unfolding get_auth_credentials
  get_auth_credentials-Secured h =
      checked-Secured x (λ t. t.client_cas)
        (λ pair pool. record {
          min_version = none;
          certificates = pair ∷ [];
          client_auth = some no_client_cert;
          client_cas = some pool;
          root_cas = none;
        })
        (λ pair pool. refl) (λ pair pool. refl) cert key ca o h

  pub get_tls_client-Secured :
      socket_tls (get_tls_client x cert key ca) ≡ some o → Secured x (λ t. t.root_cas) cert key ca o
  unfolding get_tls_client
  get_tls_client-Secured h =
      checked-Secured x (λ t. t.root_cas)
        (λ pair pool. record {
          min_version = some version_tls12;
          certificates = pair ∷ [];
          client_auth = none;
          client_cas = none;
          root_cas = some pool;
        })
        (λ pair pool. refl) (λ pair pool. refl) cert key ca o h
