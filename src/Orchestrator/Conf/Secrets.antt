-- ===== src/Orchestrator/Conf/Secrets.antt =====
-- A gameserver and an orchestrator that read the same secret.
use orbstrike.Common.{
  ◌≡◌, refl, ap, ◌∙◌, some_inj, [], Option, none, some, Text, codes, Map, ℤ, ℕ, IsInt64, length,
  List, sym, lookup, text_eq, text_eqb,
}
use orbstrike.Cipher.{Cipher, IsAead}
use orbstrike.Viper.{
  Viper, IsViper, Value, complete, load_file, ConfigFile, missing, unreadable, settings, all_fields,
  text_field,
}
use orbstrike.Viper.Precedence.{text_field-set, bind-Ensures}
use orbstrike.Server.Conf.{Config, bound, unmarshal, load_conig}
use orbstrike.Orchestrator.Conf.{
  Config as OrchestratorConfig, bound as orchestrator_bound, unmarshal as orchestrator_unmarshal,
  load_conig as orchestrator_load_conig,
}
use orbstrike.Server.Crypto.{decrypt_user_key}
use orbstrike.Orchestrator.Crypto.{sealed, encrypt_user_key}
use orbstrike.Orchestrator.Crypto.RoundTrip.{decrypt_user_key-encrypt_user_key}

all_fields-complete :
    {C : Type 0} (o : Option C) (config : C) → all_fields o ≡ complete config → o ≡ some config
all_fields-complete none config h = cc
all_fields-complete (some d) config h = cc

load_file-complete :
    {C : Type 0} (f : Map Text Value → Option C) (x : ConfigFile) (config : C)
    → load_file f x ≡ complete config
    → (file : Map Text Value) × (f file ≡ some config)
unfolding load_file
load_file-complete f missing config h = ([], all_fields-complete (f []) config h)
load_file-complete f (unreadable e) config h = cc
load_file-complete f (settings file) config h = (file, all_fields-complete (f file) config h)

module _ (v : Viper) where
  unmarshal-secret :
      (file : Map Text Value) (config : Config)
      → unmarshal v file ≡ some config
      → text_field v bound file (codes "secret") ≡ some config.secret
  unfolding unmarshal
  unmarshal-secret file =
      let P = λ (config : Config). text_field v bound file (codes "secret") ≡ some config.secret in
      bind-Ensures P _ _ (λ _ _. bind-Ensures P _ _ (λ _ _. bind-Ensures P _ _ (λ _ _.
        bind-Ensures P _ _ (λ secret e. bind-Ensures P _ _ (λ _ _. bind-Ensures P _ _ (λ _ _.
          bind-Ensures P _ _ (λ _ _. bind-Ensures P _ _ (λ _ _. bind-Ensures P _ _ (λ _ _.
            bind-Ensures P _ _ (λ _ _. bind-Ensures P _ _ (λ _ _. bind-Ensures P _ _ (λ _ _.
              bind-Ensures P _ _ (λ _ _. bind-Ensures P _ _ (λ _ _. bind-Ensures P _ _ (λ _ _.
                bind-Ensures P _ _ (λ _ _. bind-Ensures P _ _ (λ _ _. bind-Ensures P _ _ (λ _ _.
                  bind-Ensures P _ _ (λ _ _. bind-Ensures P _ _ (λ _ _. bind-Ensures P _ _ (λ _ _.
                    bind-Ensures P _ _ (λ _ _. bind-Ensures P _ _ (λ _ _.
                      (λ config q. e ∙ ap (λ x. some x.secret) (some_inj q)))))))))))))))))))))))))

  orchestrator-secret :
      (file : Map Text Value) (config : OrchestratorConfig)
      → orchestrator_unmarshal v file ≡ some config
      → text_field v orchestrator_bound file (codes "secret") ≡ some config.secret
  unfolding orchestrator_unmarshal
  orchestrator-secret file =
      let P = λ (config : OrchestratorConfig).
        text_field v orchestrator_bound file (codes "secret") ≡ some config.secret in
      bind-Ensures P _ _ (λ _ _. bind-Ensures P _ _ (λ _ _. bind-Ensures P _ _ (λ secret e.
        bind-Ensures P _ _ (λ _ _. bind-Ensures P _ _ (λ _ _. bind-Ensures P _ _ (λ _ _.
          bind-Ensures P _ _ (λ _ _. bind-Ensures P _ _ (λ _ _. bind-Ensures P _ _ (λ _ _.
            bind-Ensures P _ _ (λ _ _. bind-Ensures P _ _ (λ _ _. bind-Ensures P _ _ (λ _ _.
              bind-Ensures P _ _ (λ _ _. bind-Ensures P _ _ (λ _ _. bind-Ensures P _ _ (λ _ _.
                bind-Ensures P _ _ (λ _ _. bind-Ensures P _ _ (λ _ _. bind-Ensures P _ _ (λ _ _.
                  bind-Ensures P _ _ (λ _ _. bind-Ensures P _ _ (λ _ _. bind-Ensures P _ _ (λ _ _.
                    bind-Ensures P _ _ (λ _ _.
                      (λ config q. e ∙ ap (λ x. some x.secret) (some_inj q))))))))))))))))))))))))

module _ (v : Viper) (is : IsViper v) (secret : Text)
    (set : v.env (codes "SECRET") ≡ some secret) where
  load_conig-secret :
      (path : Text) (config : Config) → load_conig v path ≡ complete config → config.secret ≡ secret
  unfolding load_conig lookup text_eqb codes
  load_conig-secret path config h =
      let (file, q) = load_file-complete (unmarshal v) (v.read_in_config path) config h in
      sym (
        some_inj (
          sym (text_field-set v bound file is (codes "secret") (codes "SECRET") secret refl set)
          ∙ unmarshal-secret v file config q))

  orchestrator_load_conig-secret :
      (path : Text) (config : OrchestratorConfig)
      → orchestrator_load_conig v path ≡ complete config
      → config.secret ≡ secret
  unfolding orchestrator_load_conig lookup text_eqb codes
  orchestrator_load_conig-secret path config h =
      let (file, q) =
        load_file-complete (orchestrator_unmarshal v) (v.read_in_config path) config h in
      sym (
        some_inj (
          sym (
            text_field-set v orchestrator_bound file is (codes "secret") (codes "SECRET") secret
              refl set)
          ∙ orchestrator-secret v file config q))

  -- If the environment sets SECRET, then a gameserver and an orchestrator that have read their
  -- configurations accept the same keys, whatever the files say: a key that the orchestrator seals
  -- with its secret opens with the gameserver's to the identifier that was sealed.
  pub load_conig-decrypt_user_key :
      (path path' : Text) (config : Config) (config' : OrchestratorConfig)
      → load_conig v path ≡ complete config
      → orchestrator_load_conig v path' ≡ complete config'
      → (c : Cipher) (aead : IsAead c) (id : ℤ) → IsInt64 id
      → (nonce userkey : List ℕ) → length nonce ≡ c.nonce_size
      → encrypt_user_key c id config'.secret (some nonce) ≡ sealed userkey
      → decrypt_user_key c userkey config.secret ≡ some (record { id = id; err = none })
  load_conig-decrypt_user_key path path' config config' h h' c aead id range nonce userkey full s =
      decrypt_user_key-encrypt_user_key c aead id range config.secret nonce userkey full (
        rw (load_conig-secret path config h)
          (rw (orchestrator_load_conig-secret path' config' h') at s))
