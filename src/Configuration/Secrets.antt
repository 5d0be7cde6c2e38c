-- ===== src/Configuration/Secrets.antt =====
-- What masking the secrets hides, and that showing a configuration and sending it back keeps it.
use redash.Prelude.{
  String, ◌≡◌, refl, Bool, true, false, ◌&&◌, Option, none, some, List, [], ◌∷◌, arith,
  if◌then◌else◌, Eq, ◌==◌, nat_eq, string_eq, list_eq, option_eq, is_some, contains, pair_eq, Assoc,
  lookup, insert,
}
use redash.Configuration.{
  Schema, Result, ok, raise, ◌>>=◌, Container, schema_of, mask, to_dict, get_item, merge,
  update_config, secrets, validation_error,
}

bind_inv :
    {A B : Type 0} (r : Result A) (next : A → Result B) {b : B}
    → (r >>= next) ≡ ok b
    → (a : A) × (r ≡ ok a) × (next a ≡ ok b)
bind_inv (ok a) f h = (a, refl, h)
bind_inv (raise e) f h = cc

if_inv :
    {A : Type 0} (b : Bool) (m : Result A) {a : A}
    → (if b then m else raise validation_error) ≡ ok a
    → m ≡ ok a
if_inv true m h = h
if_inv false m h = cc

-- No key stands twice.
abbrev pub IsDict : {V : Type 0} → Assoc String V → Type 0
IsDict [] = Unit
IsDict ((k, v) ∷ m) = (is_some (lookup k m) ≡ false) × IsDict m

module _ {V : Type 0} ⦃e : Eq V⦄ (placeholder : V) where
  abbrev Agrees : Assoc String V → Assoc String V → Type 0
  Agrees whole [] = Unit
  Agrees whole ((k, v) ∷ part) = (lookup k whole ≡ some v) × Agrees whole part

  Agrees-cons :
      (k : String) (v : V) (whole part : Assoc String V)
      → is_some (lookup k part) ≡ false
      → Agrees whole part
      → Agrees ((k, v) ∷ whole) part
  unfolding lookup
  Agrees-cons k v whole [] h a = tt
  Agrees-cons k v whole ((j, w) ∷ part) h a = (
    ground (arith, a.0, string_eq.beq_iff k j, string_eq.beq_iff j k),
    Agrees-cons k v whole part (ground (arith, string_eq.beq_iff j k)) a.1,
  )

  IsDict→Agrees : (m : Assoc String V) → IsDict m → Agrees m m
  unfolding lookup
  IsDict→Agrees [] d = tt
  IsDict→Agrees ((k, v) ∷ m) d =
      (ground (arith, string_eq.beq_iff k k), Agrees-cons k v m m d.0 (IsDict→Agrees m d.1))

  merge-mask :
      (secret : List String) (old part : Assoc String V)
      → Agrees old part
      → merge placeholder secret old (mask placeholder secret part) ≡ ok part
  unfolding merge mask get_item
  merge-mask secret old [] a = refl
  merge-mask secret old ((k, v) ∷ part) a =
      ground (arith, a.0, merge-mask secret old part a.1, e.beq_iff placeholder placeholder)

  -- Without secrets nothing is merged.
  merge-plain : (old new : Assoc String V) → merge placeholder [] old new ≡ ok new
  unfolding merge contains
  merge-plain old [] = refl
  merge-plain old ((k, v) ∷ new) = rw (merge-plain old new)

  merge_shown :
      (o : Option (List String)) (config shown : Assoc String V)
      → IsDict config
      → (elim o [ none ↦ config | some secret ↦ mask placeholder secret config ]) ≡ shown
      → merge placeholder (elim o [ none ↦ [] | some l ↦ l ]) config shown ≡ ok config
  merge_shown none config shown d p = rw (← p) (merge-plain config config)
  merge_shown (some l) config shown d p =
      rw (← p) (merge-mask l config config (IsDict→Agrees config d))

  schema_of-eq :
      (c : Container V) (s : Schema V) → c.schema ≡ some s → schema_of placeholder c ≡ ok s
  unfolding schema_of
  schema_of-eq c s p = rw p

  ok-injective : {A : Type 0} {a b : A} → Result.ok a ≡ ok b → a ≡ b
  ok-injective p = cc

  -- A configuration that is shown with its secrets masked, and sent back as it was shown, is unchanged, the
  -- secrets included, if what was shown passes the schema's validation.
  pub update-to_dict :
      (c : Container V) (s : Schema V) (shown : Assoc String V)
      → c.schema ≡ some s
      → IsDict c.config
      → to_dict placeholder true c ≡ ok shown
      → s.validates shown ≡ true
      → update_config placeholder shown c ≡ ok c
  unfolding to_dict update_config
  update-to_dict c s shown known d p valid =
      let p' : (ok (elim s.secret [ none ↦ c.config | some l ↦ mask placeholder l c.config ]))
          ≡ ok shown =
        rw (schema_of-eq c s known) at p in
      rw (schema_of-eq c s known)
        (rw (valid, merge_shown s.secret c.config shown d (ok-injective p')))

  -- Whatever value a secret key has, the masked configuration looks the same.
  mask-insert :
      (secret : List String) (k : String) (v : V) (m : Assoc String V)
      → contains secret k ≡ true
      → is_some (lookup k m) ≡ true
      → mask placeholder secret (insert k v m) ≡ mask placeholder secret m
  unfolding mask insert lookup
  mask-insert secret k v [] s h = cc
  mask-insert secret k v ((j, w) ∷ m) s h =
      ground (arith, string_eq.beq_iff j k, mask-insert secret k v m)

  -- Showing a configuration with its secrets masked gives the same whatever the value of a secret is.
  pub to_dict_hides :
      (c : Container V) (s : Schema V) (secret : List String) (k : String) (v : V)
      → c.schema ≡ some s
      → s.secret ≡ some secret
      → contains secret k ≡ true
      → is_some (lookup k c.config) ≡ true
      → to_dict placeholder true (record c { config = insert k v c.config })
        ≡ to_dict placeholder true c
  unfolding to_dict
  to_dict_hides c s secret k v known q h present =
      rw (schema_of-eq c s known) (rw q (rw (mask-insert secret k v c.config h present)))

  -- What a key has after an update.
  lookup-merge :
      (secret : List String) (k : String) (old new m : Assoc String V)
      → merge placeholder secret old new ≡ ok m
      → lookup k m ≡ elim (lookup k new) [
        | none ↦ none
        | some v ↦ if contains secret k && v == placeholder then lookup k old else some v
      ]
  unfolding merge lookup get_item
  lookup-merge secret k old [] m p = ground arith
  lookup-merge secret k old ((j, v) ∷ new) m p =
      let value =
        if contains secret j && v == placeholder then get_item placeholder old j else ok v in
      let (w, taken, p') = bind_inv value _ p in
      let (rest, merged, p'') = bind_inv (merge placeholder secret old new) _ p' in
      ground (arith, p'', taken, lookup-merge secret k old new rest merged, string_eq.beq_iff j k)

  -- After a successful update a key has the value that was sent, but a secret key for which the placeholder was
  -- sent keeps the value that it had; a key that was not sent is gone.
  pub lookup-update :
      (c after : Container V) (s : Schema V) (k : String) (new_config : Assoc String V)
      → c.schema ≡ some s
      → update_config placeholder new_config c ≡ ok after
      → lookup k after.config ≡ elim (lookup k new_config) [
        | none ↦ none
        | some v ↦
            if contains (secrets placeholder s) k && v == placeholder
            then lookup k c.config
            else some v
      ]
  unfolding update_config
  lookup-update c after s k new_config known p =
      let p' = if_inv (s.validates new_config) _ (rw (schema_of-eq c s known) at p) in
      let (m, merged, q) =
        bind_inv (merge placeholder (secrets placeholder s) c.config new_config) _ p' in
      ground (arith, q, lookup-merge (secrets placeholder s) k c.config new_config m merged)
