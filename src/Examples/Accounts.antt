-- ===== src/Examples/Accounts.antt =====
-- Requests on users.
use redash.Prelude.{
  ◌≡◌, refl, true, false, none, some, [], ◌∷◌, ◌==◌, nat_eq, string_eq, list_eq, option_eq, find,
  pair_eq,
}
use redash.Tables.{Db}
use redash.Examples.Rows.{ada, as_member, bob, rows}
use redash.Permissions.{is_owner, has_permission_or_owner, is_admin_or_owner}
use redash.Handler.{serve, ◌>>=◌}
use redash.Groups.{user_by_id_and_org}
use redash.Sharing.{require_admin_or_owner}
use redash.Users.{Library, Params, passwords_pass, verify_password, is_taken, commit_user, edit}
use redash.Users.Passwords.{edit-passwords_pass}

-- Passwords that are stored as they are.
abbrev plain : Library
plain = record { verify = λ a b. a == b; encrypt = λ a. a; lower = λ a. a }

abbrev with_password : Db
with_password = record rows { users = ada ∷ record bob { password_hash = some "old" } ∷ [] }

abbrev new_password : Params
new_password = record {
  email = none;
  name = none;
  password = some "new";
  old_password = some "old";
  groups = false;
}

edit-passwords_pass_example :
    (elim (user_by_id_and_org 2 1 with_password) [
      | none ↦ false
      | some u ↦ verify_password plain "old" u
    ])
    ≡ true
unfolding serve edit require_admin_or_owner passwords_pass verify_password is_taken commit_user
    ◌>>=◌ user_by_id_and_org find is_admin_or_owner has_permission_or_owner is_owner
edit-passwords_pass_example =
    edit-passwords_pass plain as_member 1 2 new_password with_password refl refl
