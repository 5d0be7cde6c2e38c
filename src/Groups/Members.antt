-- ===== src/Groups/Members.antt =====
-- What deleting a group and changing its members do to the rows.
use redash.Prelude.{
  ℕ, suc, ◌+◌, ◌≡◌, refl, Bool, true, false, ◌&&◌, Option, none, some, List, [], ◌∷◌, ◌++◌, arith,
  leb, ◌==◌, nat_eq, string_eq, list_eq, option_eq, is_some, find, any, contains, update,
  option_all-find, option_all, any-reject_self, without_first, count, count-without_first,
  contains-eq-ltb,
}
use redash.Tables.{Group, User, DataSourceGroup, Db}
use redash.Permissions.{Principal}
use redash.Handler.{ok, ◌>>=◌, serve}
use redash.Groups.{
  require_permission, delete, add_member, remove_member, delete_group, set_group_ids,
  user_by_id_and_org, group_by_id_and_org,
}

-- Some user lists the group at least `n` times.
unfoldable pub listed : ℕ → ℕ → List User → Bool
listed n group_id users = any (λ u. leb n (count group_id u.group_ids)) users

-- Dropping one occurrence from each member.
listed-update :
    (n group_id : ℕ) (users : List User)
    → listed (suc n) group_id (
        update
          (λ u. contains u.group_ids group_id)
          (λ u. record u { group_ids = without_first group_id u.group_ids })
          users)
      ≡ listed (suc (suc n)) group_id users
unfolding listed any update
listed-update n group_id [] = refl
listed-update n group_id (u ∷ users) = ground (
  arith,
  listed-update n group_id users,
  contains-eq-ltb group_id u.group_ids,
  count-without_first group_id u.group_ids,
)

module _ (me : Principal) (org group_id : ℕ) (db : Db) where
  -- After a successful request to delete a group, no row of the group and no data source row of it are
  -- left, and a user lists it n times or more (n positive) just where some user listed it at least
  -- n + 1 times before.
  pub delete-removes :
      (n : ℕ)
      → (serve (delete me org group_id) db).0 ≡ ok tt
      → let after = (serve (delete me org group_id) db).1 in
        (any (λ g. g.id == group_id) after.groups ≡ false)
        × (any (λ r. r.group_id == group_id) after.data_source_groups ≡ false)
        × (listed (suc n) group_id after.users ≡ listed (suc (suc n)) group_id db.users)
  unfolding serve delete require_permission ◌>>=◌ delete_group
  delete-removes n h = ground (
    arith,
    any-reject_self (λ (g : Group). g.id == group_id) db.groups,
    any-reject_self (λ (r : DataSourceGroup). r.group_id == group_id) db.data_source_groups,
    listed-update n group_id db.users,
  )

count-snoc : (a : ℕ) (xs : List ℕ) → count a (xs ++ a ∷ []) ≡ count a xs + 1
count-snoc a [] = ground arith
count-snoc a (x ∷ xs) = ground (arith, count-snoc a xs)

group_by_id_and_org-id :
    (id org : ℕ) (db : Db) → option_all (λ g. g.id == id) (group_by_id_and_org id org db) ≡ true
unfolding group_by_id_and_org
group_by_id_and_org-id id org db =
    ground (arith, option_all-find (λ (g : Group). g.id == id && g.org_id == org) db.groups)

module _ (user_id org group_id : ℕ) where
  abbrev user_of : List User → Option User
  user_of users = find (λ u. u.id == user_id && u.org_id == org) users

  -- How often the user lists the group.
  unfoldable pub times : List User → ℕ
  times users = elim (user_of users) [ none ↦ 0 | some u ↦ count group_id u.group_ids ]

  user_of-id : (users : List User) → option_all (λ u. u.id == user_id) (user_of users) ≡ true
  user_of-id users =
      ground (arith, option_all-find (λ (u : User). u.id == user_id && u.org_id == org) users)

  abbrev edited : (List ℕ → List ℕ) → List User → List User
  edited f users = update (λ u. u.id == user_id) (λ u. record u { group_ids = f u.group_ids }) users

  times-append :
      (users : List User)
      → is_some (user_of users) ≡ true
      → times (edited (λ ids. ids ++ group_id ∷ []) users) ≡ times users + 1
  unfolding times find update
  times-append [] h = cc
  times-append (u ∷ users) h = ground (arith, times-append users, count-snoc group_id u.group_ids)

  times-without_first :
      (users : List User)
      → is_some (user_of users) ≡ true
      → option_all (λ u. contains u.group_ids group_id) (user_of users) ≡ true
      → times (edited (without_first group_id) users) + 1 ≡ times users
  unfolding times find update
  times-without_first [] h c = cc
  times-without_first (u ∷ users) h c =
      ground (arith, times-without_first users, count-without_first group_id u.group_ids)

module _ (me : Principal) (org group_id user_id : ℕ) (db : Db) where
  -- A successful request to add a member adds one entry of the group to the user's list, also where the
  -- user is a member already.
  pub add_member-times :
      (serve (add_member me org group_id user_id) db).0 ≡ ok tt
      → times user_id org group_id (serve (add_member me org group_id user_id) db).1.users
        ≡ times user_id org group_id db.users + 1
  unfolding serve add_member require_permission ◌>>=◌ set_group_ids user_by_id_and_org
  add_member-times h = ground (
    arith,
    user_of-id user_id org group_id db.users,
    group_by_id_and_org-id group_id org db,
    times-append user_id org group_id db.users,
  )

  -- A successful request to remove a member takes one entry of the group off the user's list.
  pub remove_member-times :
      (serve (remove_member me org group_id user_id) db).0 ≡ ok tt
      → times user_id org group_id (serve (remove_member me org group_id user_id) db).1.users + 1
        ≡ times user_id org group_id db.users
  unfolding serve remove_member require_permission ◌>>=◌ set_group_ids user_by_id_and_org
  remove_member-times h = ground (
    arith,
    user_of-id user_id org group_id db.users,
    times-without_first user_id org group_id db.users,
  )
