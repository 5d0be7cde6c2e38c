-- ===== src/Users.antt =====
-- redash/handlers/users.py: editing, disabling and enabling users.
pub mod Passwords
use redash.Prelude.{
  ℕ, zero, suc, ◌+◌, ◌-◌, ◌*◌, ◌/◌, ◌%◌, ◌^◌, ◌≤◌, ◌<◌, min, max, String, ◌≡◌, refl, sym, ap, ◌∙◌,
  subst, ◌≢◌, ◌↔◌, ◌⊎◌, inl, inr, Bool, true, false, ◌&&◌, ◌||◌, not, Option, none, some, List, [],
  ◌∷◌, ◌++◌, map, arith, ltb, leb, nat_beq, if◌then◌else◌, ltb→lt, lt→ltb, leb→le, nat_beq_iff,
  tests, Eq, ◌==◌, nat_eq, string_eq, list_eq, option_eq, list_beq_iff, option_beq_iff, Bool-cases,
  Option-cases, is_some, length, take, drop, select, find, any, all, length-append,
  length-select-le, any-append, contains, contains-append, reject, update, option_all-find,
  insert_by, sort_by, any-sort_by, any-select, pair_eq, pair_beq_iff, option_all, any-reject_self,
  length-update, without_first, count, count-without_first, count-without_first_ne, contains-eq-ltb,
  Assoc, lookup, insert, remove, lookup-insert, lookup-remove,
}
use redash.Tables.{User, Db}
use redash.Permissions.{Principal, viewer, has_permission}
use redash.Handler.{
  Failure, abort, Action, pure, fail, gets, modify, commit, rollback, record_event, ◌>>=◌, ◌>>◌,
  one, require,
}
use redash.Groups.{user_by_id_and_org, require_permission}
use redash.Sharing.{user_row, require_admin_or_owner}

-- passlib's context, and the lower case in which e-mail addresses are stored.
pub record Library : Type 0 where
  pub verify : String → String → Bool
  pub encrypt : String → String
  pub lower : String → String

-- What an edit request may give. Groups that are given are checked but set no column.
pub record Params : Type 0 where
  pub email : Option String
  pub name : Option String
  pub password : Option String
  pub old_password : Option String
  pub groups : Bool

-- User.disable and User.enable
unfoldable pub set_disabled_at : ℕ → Option ℕ → Db → Db
set_disabled_at id t db = record db {
  users = update (λ u. u.id == id) (λ u. record u { disabled_at = t }) db.users;
}

module _ (library : Library) where
  open library use {verify, encrypt, lower}

  -- User.verify_password
  unfoldable pub verify_password : String → User → Bool
  verify_password password u = elim u.password_hash [
    | none ↦ false
    | some hash ↦ verify password hash
  ]

  -- The tests on the two passwords.
  unfoldable pub passwords_pass : Params → User → Bool
  unfolding verify_password
  passwords_pass p u =
      (not (is_some p.password) || is_some p.old_password)
      && (elim p.old_password [ none ↦ true | some old ↦ verify_password old u ])

  unfoldable pub updated : Params → User → User
  updated p u = record u {
    email = elim p.email [ none ↦ u.email | some e ↦ lower e ];
    name = elim p.name [ none ↦ u.name | some n ↦ n ];
    password_hash = elim p.password [ none ↦ u.password_hash | some q ↦ some (encrypt q) ];
  }

  unfoldable pub update_user : Params → ℕ → Db → Db
  unfolding updated
  update_user p id db = record db { users = update (λ u. u.id == id) (updated p) db.users }

  -- Another user of the organization with the address, which the table's unique index refuses.
  unfoldable pub is_taken : Params → User → Db → Bool
  is_taken p u db = elim p.email [
    | none ↦ false
    | some e ↦
        any (λ v. not (v.id == u.id) && (v.org_id == u.org_id && v.email == lower e)) db.users
  ]

  unfoldable pub commit_user : Params → ℕ → Bool → Action (Unit {0})
  commit_user p id true = do rollback; fail (abort 400)
  commit_user p id false = do modify (update_user p id); commit

  module _ (me : Principal) (org : ℕ) where
    -- UserResource.post
    unfoldable pub edit : ℕ → Params → Action (Unit {0})
    edit user_id p = do
      require_admin_or_owner me org user_id
      user ← gets (user_by_id_and_org user_id org)
      user ← one user
      require (passwords_pass p user) (abort 403)
      admin ← gets (λ db. has_permission (viewer db.groups me) "admin")
      require (not p.groups || admin) (abort 403)
      taken ← gets (is_taken p user)
      commit_user p user.id taken
      record_event "edit" "user" user.id

module _ (me : Principal) (org : ℕ) where
  -- UserDisableResource.post
  unfoldable pub disable : ℕ → ℕ → Action (Unit {0})
  disable now user_id = do
    require_permission me org "admin"
    user ← gets (user_by_id_and_org user_id org)
    user ← one user
    my_id ← user_row me
    require (not (user.id == my_id)) (abort 400)
    modify (set_disabled_at user.id (some now))
    commit

  -- UserDisableResource.delete
  unfoldable pub enable : ℕ → Action (Unit {0})
  enable user_id = do
    require_permission me org "admin"
    user ← gets (user_by_id_and_org user_id org)
    user ← one user
    modify (set_disabled_at user.id none)
    commit
