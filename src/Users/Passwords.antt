-- ===== src/Users/Passwords.antt =====
-- Who can change a user, and with what password.
use redash.Prelude.{
  ℕ, ◌≡◌, true, false, none, some, arith, nat_eq, string_eq, list_eq, option_eq, is_some, pair_eq,
}
use redash.Tables.{Db}
use redash.Permissions.{Principal, is_admin_or_owner}
use redash.Handler.{ok, serve, ◌>>=◌}
use redash.Groups.{user_by_id_and_org}
use redash.Sharing.{require_admin_or_owner}
use redash.Users.{Library, Params, passwords_pass, verify_password, edit}

-- A request to edit a user that gives a new password succeeds only if the current password is given as well
-- and is right, even for an administrator.
pub edit-passwords_pass :
    (library : Library) (me : Principal) (org user_id : ℕ) (p : Params) (db : Db)
    → is_some p.password ≡ true
    → (serve (edit library me org user_id p) db).0 ≡ ok tt
    → (elim p.old_password [
      | none ↦ false
      | some old ↦ elim (user_by_id_and_org user_id org db) [
        | none ↦ false
        | some u ↦ verify_password library old u
      ]
    ])
      ≡ true
unfolding serve edit require_admin_or_owner passwords_pass ◌>>=◌
edit-passwords_pass library me org user_id p db given h = ground arith

-- A request to edit a user by somebody who is neither an administrator nor that user changes nothing.
pub edit-forbidden :
    (library : Library) (me : Principal) (org user_id : ℕ) (p : Params) (db : Db)
    → is_admin_or_owner db.groups me user_id ≡ false
    → (serve (edit library me org user_id p) db).1 ≡ db
unfolding serve edit require_admin_or_owner ◌>>=◌
edit-forbidden library me org user_id p db h = ground arith
