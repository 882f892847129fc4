-- ===== src/Orchestrator/Ssl/Trusted.antt =====
-- What the CA of the gameservers leads to.
use orbstrike.Common.{
  ◌≡◌, ◌≢◌, refl, inl, inr, [], Option, none, some, Text, text_eqb, text_eqb_iff, arith,
  Option-cases, Bool-cases,
}
use orbstrike.Tls.{X509, TlsConfig, socket_tls}
use orbstrike.Orchestrator.Ssl.{get_tls_client_ca}

-- Without a CA there is no configuration of TLS, with one it trusts the pool of the CA.
pub data Trusted (x : X509) (ca : Text) (o : Option (TlsConfig x)) : Type 0 where
  plain : ca ≡ [] → o ≡ none → Trusted x ca o
  trusts :
      (pool : x.CertPool) (tls : TlsConfig x)
      → ca ≢ []
      → x.add_certs (x.decode ca) ≡ some pool
      → o ≡ some tls
      → tls.root_cas ≡ some pool
      → Trusted x ca o

pub get_tls_client_ca-Trusted :
    (x : X509) (ca : Text) (o : Option (TlsConfig x))
    → socket_tls (get_tls_client_ca x ca) ≡ some o
    → Trusted x ca o
unfolding get_tls_client_ca
get_tls_client_ca-Trusted x ca o h = elim (Bool-cases (text_eqb ca [])) [
  | inl e ↦ plain ((text_eqb_iff ca []).0 e) (ground arith)
  | inr e ↦ elim (Option-cases (x.add_certs (x.decode ca))) [
    | inl q ↦ ground arith
    | inr (pool, q) ↦
        trusts pool
          (record {
            min_version = none;
            certificates = [];
            client_auth = none;
            client_cas = none;
            root_cas = some pool;
          })
          (λ n. cc (e, (text_eqb_iff ca []).1 n)) q (ground arith) refl
  ]
]
