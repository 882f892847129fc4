-- ===== src/Tls.antt =====
-- What server/ssl/ssl.go and orchestrator/ssl/ssl.go take from Go's encoding/base64, crypto/tls and
-- crypto/x509, and the settings that they build.
use orbstrike.Common.{ℕ, List, Option, none, some, Text}

-- Of two results of a call, its value or the text of its error.
pub data Loaded (A : Type 0) : Type 0 where
  loaded : A → Loaded A
  load_failed : Text → Loaded A

-- `decode` is what DecodeString yields beside its error, which the programs drop; `add_certs` is
-- AppendCertsFromPEM on an empty pool, `none` where it finds no certificate.
pub record X509 : Type 1 where
  pub Cert : Type 0
  pub CertPool : Type 0
  pub decode : Text → List ℕ
  pub key_pair : (cert key : List ℕ) → Loaded Cert
  pub add_certs : List ℕ → Option CertPool

pub data ClientAuth : Type 0 where
  no_client_cert : ClientAuth

-- tls.Config: a field that is not set is `none`.
pub record TlsConfig (x : X509) : Type 0 where
  pub min_version : Option ℕ
  pub certificates : List (x.Cert)
  pub client_auth : Option ClientAuth
  pub client_cas : Option (x.CertPool)
  pub root_cas : Option (x.CertPool)

-- A configuration and an error that are both nil switch TLS off.
pub data Tls (x : X509) : Type 0 where
  switched_off : Tls x
  configured : TlsConfig x → Tls x
  pair_failed : Text → Tls x
  ca_failed : Tls x

-- What a socket is opened with: nothing where TLS is switched off, and no socket after an error.
abbrev pub socket_tls : {x : X509} → Tls x → Option (Option (TlsConfig x))
socket_tls switched_off = some none
socket_tls (configured tls) = some (some tls)
socket_tls (pair_failed e) = none
socket_tls ca_failed = none
