-- ===== src/Authentication/Disabled.antt =====
-- What disabling a user does to the ways in.
use redash.Prelude.{
  ℕ, String, ◌≡◌, refl, ap, true, false, ◌&&◌, Option, none, some, List, [], ◌∷◌, arith,
  if◌then◌else◌, ◌==◌, nat_eq, string_eq, list_eq, option_eq, select, find, update, option_all-find,
  pair_eq, option_all,
}
use redash.Tables.{User, Db}
use redash.Permissions.{Principal, user}
use redash.Handler.{ok, serve, ◌>>=◌}
use redash.Groups.{user_by_id_and_org}
use redash.Groups.{require_permission}
use redash.Sharing.{user_row}
use redash.Users.{set_disabled_at, disable}
use redash.Authentication.{
  one_of, is_disabled, load_user, except_no_result, found, user_by_api_key_and_org,
  get_user_from_api_key,
}

disable-set_disabled_at :
    (me : Principal) (org now user_id : ℕ) (db : Db)
    → (serve (disable me org now user_id) db).0 ≡ ok tt
    → (serve (disable me org now user_id) db).1 ≡ set_disabled_at user_id (some now) db
unfolding serve disable ◌>>=◌ require_permission user_row user_by_id_and_org
disable-set_disabled_at me org now user_id db h =
    ground (arith, option_all-find (λ u. u.id == user_id && u.org_id == org) db.users)

module _ (user_id now : ℕ) where
  abbrev disabled : User → User
  disabled u = if u.id == user_id then record u { disabled_at = some now } else u

  abbrev disable_all : List User → List User
  disable_all us = update (λ u. u.id == user_id) (λ u. record u { disabled_at = some now }) us

  any-disable_all :
      (org : ℕ) (us : List User)
      → option_all is_disabled (find (λ u. u.id == user_id && u.org_id == org) (disable_all us))
        ≡ true
  unfolding find update
  any-disable_all org [] = refl
  any-disable_all org (u ∷ us) = ground (arith, any-disable_all org us)

  load_user-set_disabled_at :
      (org : ℕ) (db : Db) → load_user user_id org (set_disabled_at user_id (some now) db) ≡ none
  unfolding load_user set_disabled_at user_by_id_and_org
  load_user-set_disabled_at org db = ground (arith, any-disable_all org db.users)

  -- The users with a key are those they were, disabled or not.
  select-disable_all :
      (key : String) (org : ℕ) (us : List User)
      → select (λ u. u.api_key == key && u.org_id == org) (disable_all us)
        ≡ disable_all (select (λ u. u.api_key == key && u.org_id == org) us)
  unfolding select update
  select-disable_all key org [] = refl
  select-disable_all key org (u ∷ us) = ground (arith, select-disable_all key org us)

  same : (v u : User) → one_of (v ∷ []) ≡ ok u → v ≡ u
  same v u h = cc h

  one_of-disable_all :
      (us : List User) (u : User) → one_of us ≡ ok u → one_of (disable_all us) ≡ ok (disabled u)
  unfolding update
  one_of-disable_all [] u h = cc
  one_of-disable_all (v ∷ []) u h = ap (λ x. ok (disabled x)) (same v u h)
  one_of-disable_all (v ∷ w ∷ us) u h = cc

  get_user-set_disabled_at :
      (key : String) (query_id : Option ℕ) (org : ℕ) (db : Db) (u : User)
      → (key == "") ≡ false
      → user_by_api_key_and_org key org db ≡ ok u
      → get_user_from_api_key (some key) query_id org (set_disabled_at user_id (some now) db)
        ≡ ok (some (user (disabled u)))
  unfolding get_user_from_api_key user_by_api_key_and_org set_disabled_at found except_no_result
  get_user-set_disabled_at key query_id org db u k h = rw (
    k,
    select-disable_all key org db.users,
    one_of-disable_all (select (λ u. u.api_key == key && u.org_id == org) db.users) u h,
  )

disabled_self : (now : ℕ) (u : User) → disabled u.id now u ≡ record u { disabled_at = some now }
disabled_self now u = ground arith

-- Disabling a user closes the session but not the API key: after a successful request, the session's user id
-- loads nobody, while the API key of the user still lets the user in, marked as disabled. (The key is not empty,
-- and one user of the organization has it.)
pub disable-keeps_key :
    (me : Principal) (org now : ℕ) (key : String) (query_id : Option ℕ) (db : Db) (u : User)
    → (key == "") ≡ false
    → user_by_api_key_and_org key org db ≡ ok u
    → (serve (disable me org now u.id) db).0 ≡ ok tt
    → (load_user u.id org (serve (disable me org now u.id) db).1 ≡ none)
      × (get_user_from_api_key (some key) query_id org (serve (disable me org now u.id) db).1
          ≡ ok (some (user (record u { disabled_at = some now }))))
disable-keeps_key me org now key query_id db u k h d =
    let e = disable-set_disabled_at me org now u.id db d in
    (
      rw (e, load_user-set_disabled_at u.id now org db),
      rw (e, get_user-set_disabled_at u.id now key query_id org db u k h, disabled_self now u),
    )
