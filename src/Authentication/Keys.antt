-- ===== src/Authentication/Keys.antt =====
-- Whom an API key or a signature lets in.
use redash.Prelude.{
  ℕ, String, ◌≡◌, refl, sym, ap, ◌∙◌, ◌≢◌, ◌⊎◌, inl, inr, Bool, true, false, ◌&&◌, Option, none,
  some, List, [], ◌∷◌, arith, if◌then◌else◌, nat_beq_iff, ◌==◌, nat_eq, string_eq, list_eq,
  option_eq, select, find, pair_eq,
}
use mathlib.Core.List.{Memᴰ}
use redash.Tables.{User, ApiKey, Query, Db}
use redash.Permissions.{Principal, user}
use redash.Handler.{abort, no_result, exception, Result, ok, err}
use redash.Alerts.Requests.{query_by_id_and_org}
use redash.Authentication.{
  one_of, except_no_result, found, query_principal, key_principal, user_by_api_key_and_org,
  api_key_by_api_key, query_by_key, get_user_from_api_key,
}

module _ {A : Type 0} where
  Memᴰ-select :
      (p : A → Bool) (xs : List A) (a : A) → Memᴰ a (select p xs) → Memᴰ a xs × (p a ≡ true)
  unfolding select
  Memᴰ-select p [] a r = elim r [ ]
  Memᴰ-select p (x ∷ xs) a r = go (p x) refl (Memᴰ-select p xs a) r
    where
      go :
          (b : Bool)
          → p x ≡ b
          → (Memᴰ a (select p xs) → Memᴰ a xs × (p a ≡ true))
          → Memᴰ a (if b then x ∷ select p xs else select p xs)
          → Memᴰ a (x ∷ xs) × (p a ≡ true)
      go true e rest (Memᴰ.head h) = (Memᴰ.head h, ap p h ∙ e)
      go true e rest (Memᴰ.tail m) = (Memᴰ.tail (rest m).0, (rest m).1)
      go false e rest m = (Memᴰ.tail (rest m).0, (rest m).1)

  one_of-Memᴰ : (xs : List A) (a : A) → one_of xs ≡ ok a → Memᴰ a xs
  one_of-Memᴰ [] a h = cc
  one_of-Memᴰ (x ∷ []) a h = Memᴰ.head (cc)
  one_of-Memᴰ (x ∷ y ∷ xs) a h = cc

  pub find-Memᴰ :
      (p : A → Bool) (xs : List A) (a : A) → find p xs ≡ some a → Memᴰ a xs × (p a ≡ true)
  unfolding find
  find-Memᴰ p [] a h = cc
  find-Memᴰ p (x ∷ xs) a h = go (p x) refl (find-Memᴰ p xs a) h
    where
      go :
          (b : Bool)
          → p x ≡ b
          → (find p xs ≡ some a → Memᴰ a xs × (p a ≡ true))
          → (if b then some x else find p xs) ≡ some a
          → Memᴰ a (x ∷ xs) × (p a ≡ true)
      go true e rest h = (Memᴰ.head (cc h), cc (h, e))
      go false e rest h = (Memᴰ.tail (rest h).0, (rest h).1)

  except_no_result-cases :
      (r s : Result A) (a : A) → except_no_result r s ≡ ok a → (r ≡ ok a) ⊎ (s ≡ ok a)
  unfolding except_no_result
  except_no_result-cases (ok b) s a h = inl h
  except_no_result-cases (err no_result) s a h = inr h
  except_no_result-cases (err (abort n)) s a h = cc
  except_no_result-cases (err exception) s a h = cc

module _ {A B : Type 0} where
  found-cases :
      (f : A → B) (r : Result A) (b : B)
      → found f r ≡ ok (some b)
      → (a : A) × (r ≡ ok a) × (b ≡ f a)
  unfolding found
  found-cases f (ok a) b h = (a, refl, cc h)
  found-cases f (err e) b h = cc

-- What lets somebody in by a key: the key of a user of the organization, an active row of the API keys, or the
-- key of the query of the organization that the request is about.
abbrev pub ByUser : String → ℕ → Db → Principal → Type 0
ByUser key org db p =
    (u : User) × (p ≡ user u) × Memᴰ u db.users × (u.api_key ≡ key) × (u.org_id ≡ org)

abbrev pub ByApiKey : String → Db → Principal → Type 0
ByApiKey key db p =
    (k : ApiKey) × (p ≡ key_principal k)
    × Memᴰ k db.api_keys
    × (k.api_key ≡ key)
    × (k.active ≡ true)

abbrev pub ByQuery : String → Option ℕ → ℕ → Db → Principal → Type 0
ByQuery key query_id org db p =
    (q : Query) × (p ≡ query_principal q db)
    × Memᴰ q db.queries
    × (query_id ≡ some q.id)
    × (q.api_key ≡ key)
    × (q.org_id ≡ org)

pub and-cases : (a b : Bool) → (a && b) ≡ true → (a ≡ true) × (b ≡ true)
and-cases a b h = ground (arith)

user_by_api_key_and_org-Memᴰ :
    (key : String) (org : ℕ) (db : Db) (p : Principal)
    → found user (user_by_api_key_and_org key org db) ≡ ok (some p)
    → ByUser key org db p
unfolding user_by_api_key_and_org
user_by_api_key_and_org-Memᴰ key org db p h =
    let (u, e, q) = found-cases user (user_by_api_key_and_org key org db) p h in
    let (m, t) =
      Memᴰ-select (λ u. u.api_key == key && u.org_id == org) db.users u (one_of-Memᴰ _ u e) in
    let (a, b) = and-cases (u.api_key == key) (u.org_id == org) t in
    (u, q, m, (string_eq.beq_iff u.api_key key).0 a, (nat_beq_iff u.org_id org).0 b)

api_key_by_api_key-Memᴰ :
    (key : String) (db : Db) (p : Principal)
    → found key_principal (api_key_by_api_key key db) ≡ ok (some p)
    → ByApiKey key db p
unfolding api_key_by_api_key
api_key_by_api_key-Memᴰ key db p h =
    let (k, e, q) = found-cases key_principal (api_key_by_api_key key db) p h in
    let (m, t) =
      Memᴰ-select (λ k. k.api_key == key && k.active) db.api_keys k (one_of-Memᴰ _ k e) in
    let (a, b) = and-cases (k.api_key == key) k.active t in
    (k, q, m, (string_eq.beq_iff k.api_key key).0 a, b)

pub if-some :
    {A : Type 0} (b : Bool) (x a : A) → (if b then some x else none) ≡ some a → (b ≡ true) × (a ≡ x)
if-some true x a h = (refl, cc h)
if-some false x a h = cc

query_by_key-Memᴰ :
    (key : String) (query_id : Option ℕ) (org : ℕ) (db : Db) (p : Principal)
    → query_by_key key query_id org db ≡ ok (some p)
    → ByQuery key query_id org db p
unfolding query_by_key query_by_id_and_org
query_by_key-Memᴰ key none org db p h = cc
query_by_key-Memᴰ key (some id) org db p h = go (query_by_id_and_org id org db) refl h
  where
    go :
        (o : Option Query)
        → query_by_id_and_org id org db ≡ o
        → (elim o [
          | none ↦ err no_result
          | some q ↦ ok (if q.api_key == key then some (query_principal q db) else none)
        ])
          ≡ ok (some p)
        → ByQuery key (some id) org db p
    go none e h = cc
    go (some q) e h =
        let (k, v) = if-some (q.api_key == key) (query_principal q db) p (cc h) in
        let (m, t) = find-Memᴰ (λ q. q.id == id && q.org_id == org) db.queries q e in
        let (a, b) = and-cases (q.id == id) (q.org_id == org) t in
        (
          q,
          v,
          m,
          ap some (sym ((nat_beq_iff q.id id).0 a)),
          (string_eq.beq_iff q.api_key key).0 k,
          (nat_beq_iff q.org_id org).0 b,
        )

-- Whoever an API key lets in, the key is not empty, and it is the key of a user of the organization, or of an
-- active row of the API keys, or of the query of the organization that the request is about; the request is then
-- made by that user, or with the groups of that row or query.
pub get_user_from_api_key_sound :
    (key : String) (query_id : Option ℕ) (org : ℕ) (db : Db) (p : Principal)
    → get_user_from_api_key (some key) query_id org db ≡ ok (some p)
    → (key ≢ "") × (ByUser key org db p ⊎ (ByApiKey key db p ⊎ ByQuery key query_id org db p))
unfolding get_user_from_api_key
get_user_from_api_key_sound key query_id org db p h = go (key == "") refl h
  where
    go :
        (b : Bool)
        → (key == "") ≡ b
        → (if b
            then ok none
            else except_no_result (found user (user_by_api_key_and_org key org db)) (
                except_no_result
                  (found key_principal (api_key_by_api_key key db))
                  (query_by_key key query_id org db)))
          ≡ ok (some p)
        → (key ≢ "") × (ByUser key org db p ⊎ (ByApiKey key db p ⊎ ByQuery key query_id org db p))
    go true e h = cc
    go false e h = (
      λ q. cc ((string_eq.beq_iff key "").1 q, e),
      elim (except_no_result-cases _ _ (some p) h) [
        | inl u ↦ inl (user_by_api_key_and_org-Memᴰ key org db p u)
        | inr r ↦ inr (elim (except_no_result-cases _ _ (some p) r) [
          | inl k ↦ inl (api_key_by_api_key-Memᴰ key db p k)
          | inr q ↦ inr (query_by_key-Memᴰ key query_id org db p q)
        ])
      ],
    )
