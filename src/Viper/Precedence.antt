-- ===== src/Viper/Precedence.antt =====
-- Which value a setting takes.
use orbstrike.Common.{
  ◌≡◌, refl, Option, none, some, inl, inr, Text, Map, lookup, text_eq, Option-cases,
}
use orbstrike.Viper.{Viper, IsViper, Value, text, Bound, unset, resolve, text_field, ◌>>=◌}

module _ (v : Viper) (b : Bound) (file : Map Text Value) where
  pub resolve-set :
      (key variable t : Text)
      → lookup key b.bindings ≡ some variable
      → v.env variable ≡ some t
      → resolve v b file key ≡ some (text t)
  unfolding resolve
  resolve-set key variable t e q = rw (e, resolve) (rw (q, resolve))

  pub resolve-unset :
      (key : Text)
      → ((variable : Text) → v.env variable ≡ none)
      → resolve v b file key ≡ unset b file key
  unfolding resolve
  resolve-unset key h = elim (Option-cases (lookup key b.bindings)) [
    | inl e ↦ rw (e, resolve)
    | inr (x, e) ↦ rw (e, resolve) (rw (h x, resolve))
  ]

  pub text_field-set :
      IsViper v
      → (key variable t : Text) → lookup key b.bindings ≡ some variable
      → v.env variable ≡ some t
      → text_field v b file key ≡ some t
  unfolding text_field
  text_field-set is key variable t e q =
      rw (resolve-set key variable t e q, text_field) (is.text_as_text t)

-- What holds of the result, if there is one.
abbrev pub Ensures {ℓ} : {B : Type ℓ} → (B → Type 0) → Option B → Type ℓ
Ensures {B} P o = (b : B) → o ≡ some b → P b

-- A chain that ends has a value in each part.
pub bind-Ensures {ℓ κ} :
    {A : Type ℓ} {B : Type κ} (P : B → Type 0) (o : Option A) (f : A → Option B)
    → ((a : A) → o ≡ some a → Ensures P (f a))
    → Ensures P (o >>= f)
unfolding ◌>>=◌
bind-Ensures P none f h b q = cc
bind-Ensures P (some a) f h b q = h a refl b q
