-- ===== src/Configuration.antt =====
-- ConfigurationContainer of redash/utils/configuration.py: the options of a data source or of a notification
-- destination, with secrets that are masked when they are shown.
pub mod Secrets
use redash.Prelude.{
  ℕ, zero, suc, ◌+◌, ◌-◌, ◌*◌, ◌/◌, ◌%◌, ◌^◌, ◌≤◌, ◌<◌, min, max, String, ◌≡◌, refl, sym, ap, ◌∙◌,
  subst, ◌≢◌, ◌↔◌, ◌⊎◌, inl, inr, Bool, true, false, ◌&&◌, ◌||◌, not, Option, none, some, List, [],
  ◌∷◌, ◌++◌, map, arith, ltb, leb, nat_beq, if◌then◌else◌, ltb→lt, lt→ltb, leb→le, nat_beq_iff,
  tests, Eq, ◌==◌, nat_eq, string_eq, list_eq, option_eq, list_beq_iff, option_beq_iff, Bool-cases,
  Option-cases, is_some, length, take, drop, select, find, any, all, length-append,
  length-select-le, any-append, contains, contains-append, reject, update, option_all-find, sort_by,
  any-sort_by, any-select, pair_eq, pair_beq_iff, option_all, any-reject_self, length-update,
  without_first, count, count-without_first, count-without_first_ne, contains-eq-ltb, Assoc, lookup,
  insert, remove, lookup-insert, lookup-remove,
}

-- The JSON schema of the options: the list under 'secret', if it has one, and what `jsonschema.validate`
-- says of a configuration.
pub record Schema (V : Type 0) : Type 0 where
  pub secret : Option (List String)
  pub validates : Assoc String V → Bool

pub data Error : Type 0 where
  runtime_error validation_error key_error : Error

pub data Result {ℓ} (A : Type ℓ) : Type ℓ where
  ok : A → Result A
  raise : Error → Result A

infixl 5 ◌>>=◌
abbrev pub ◌>>=◌ {ℓ κ} : {A : Type ℓ} {C : Type κ} → Result A → (A → Result C) → Result C
ok a >>= f = f a
raise e >>= f = raise e

pub record Container (V : Type 0) : Type 0 where
  pub config : Assoc String V
  pub schema : Option (Schema V)

-- The values of a configuration are JSON values; `placeholder` is SECRET_PLACEHOLDER among them.
module _ {V : Type 0} ⦃e : Eq V⦄ (placeholder : V) where
  -- The property `schema`.
  unfoldable pub schema_of : Container V → Result (Schema V)
  schema_of c = elim c.schema [ none ↦ raise runtime_error | some s ↦ ok s ]

  unfoldable pub set_schema : Option (Schema V) → Container V → Container V
  set_schema s c = record c { schema = s }

  unfoldable pub mask : List String → Assoc String V → Assoc String V
  mask secret [] = []
  mask secret ((k, v) ∷ config) =
      (k, if contains secret k then placeholder else v) ∷ mask secret config

  unfoldable pub to_dict : Bool → Container V → Result (Assoc String V)
  unfolding schema_of mask
  to_dict false c = ok c.config
  to_dict true c = do
    s ← schema_of c
    ok (elim s.secret [ none ↦ c.config | some secret ↦ mask secret c.config ])

  -- `__getitem__`
  unfoldable pub get_item : Assoc String V → String → Result V
  get_item config k = elim (lookup k config) [ none ↦ raise key_error | some v ↦ ok v ]

  abbrev pub secrets : Schema V → List String
  secrets s = elim s.secret [ none ↦ [] | some l ↦ l ]

  -- The loop of `update` over `new_config`, whose keys are all different.
  unfoldable pub merge : List String → Assoc String V → Assoc String V → Result (Assoc String V)
  merge secret old [] = ok []
  merge secret old ((k, v) ∷ new_config) =
      (if contains secret k && v == placeholder then get_item old k else ok v) >>= λ w.
      merge secret old new_config >>= λ rest. ok ((k, w) ∷ rest)

  unfoldable pub update_config : Assoc String V → Container V → Result (Container V)
  unfolding merge schema_of
  update_config new_config c = do
    s ← schema_of c
    if s.validates new_config
        then (merge (secrets s) c.config new_config >>= λ config. ok (record c { config = config }))
        else raise validation_error
