-- ===== src/Viper.antt =====
-- github.com/spf13/viper, as far as server/conf and orchestrator/conf call it: settings bound to
-- variables of the environment, settings of a file, and defaults.
pub mod Precedence
use orbstrike.Common.{
  ◌≡◌, Option, none, some, List, Text, ℤ, pos, Bool, true, false, Map, lookup, text_eq, [], codes,
}

pub data Value : Type 0 where
  text : Text → Value
  number : ℤ → Value
  flag : Bool → Value

-- What ReadInConfig finds.
pub data ConfigFile : Type 0 where
  missing : ConfigFile
  unreadable : Text → ConfigFile
  settings : Map Text Value → ConfigFile

-- `env` is `none` for a variable that is not set or empty. The others are the conversions of
-- Unmarshal to the type of a field, `none` for an error.
pub record Viper : Type 0 where
  pub read_in_config : (name : Text) → ConfigFile
  pub env : Text → Option Text
  pub as_text : Value → Option Text
  pub as_int : Value → Option ℤ
  pub as_bool : Value → Option Bool

-- Unmarshal takes a value of the field's own type as it is.
pub record IsViper (v : Viper) : Type 0 where
  pub text_as_text : (t : Text) → v.as_text (text t) ≡ some t
  pub number_as_int : (n : ℤ) → v.as_int (number n) ≡ some n
  pub flag_as_bool : (b : Bool) → v.as_bool (flag b) ≡ some b

-- What BindEnv and SetDefault have set up.
pub record Bound : Type 0 where
  pub bindings : Map Text Text
  pub defaults : Map Text Value

-- A value of the file, or else a default.
unfoldable pub unset : Bound → Map Text Value → Text → Option Value
unset b file key = elim (lookup key file) [ some x ↦ some x | none ↦ lookup key b.defaults ]

module _ (v : Viper) (b : Bound) (file : Map Text Value) where
  -- The environment comes before the file, and the file before the defaults.
  unfoldable pub resolve : Text → Option Value
  unfolding unset
  resolve key = elim (lookup key b.bindings) [
    | none ↦ unset b file key
    | some variable ↦ elim (v.env variable) [ none ↦ unset b file key | some t ↦ some (text t) ]
  ]

  -- A field of a setting that has no value keeps its zero value.
  unfoldable pub text_field : Text → Option Text
  unfolding resolve
  text_field key = elim (resolve key) [ none ↦ some [] | some x ↦ v.as_text x ]

  unfoldable pub int_field : Text → Option ℤ
  unfolding resolve
  int_field key = elim (resolve key) [ none ↦ some (pos 0) | some x ↦ v.as_int x ]

  unfoldable pub bool_field : Text → Option Bool
  unfolding resolve
  bool_field key = elim (resolve key) [ none ↦ some false | some x ↦ v.as_bool x ]

infixl 5 ◌>>=◌
unfoldable pub ◌>>=◌ {ℓ κ} : {A : Type ℓ} {B : Type κ} → Option A → (A → Option B) → Option B
none >>= f = none
some a >>= f = f a

-- What LoadConig returns: a configuration, or an error of the file or of a field.
pub data Configuration {ℓ} (C : Type ℓ) : Type ℓ where
  complete : C → Configuration C
  bad_file : Text → Configuration C
  bad_field : Configuration C

abbrev pub all_fields {ℓ} : {C : Type ℓ} → Option C → Configuration C
all_fields none = bad_field
all_fields (some c) = complete c

-- From ReadInConfig on: a missing file is no error.
unfoldable pub load_file {ℓ} :
    {C : Type ℓ} → (Map Text Value → Option C) → ConfigFile → Configuration C
load_file unmarshal missing = all_fields (unmarshal [])
load_file unmarshal (unreadable e) = bad_file e
load_file unmarshal (settings file) = all_fields (unmarshal file)
