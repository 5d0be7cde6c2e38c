-- ===== src/Listing/Visible.antt =====
-- What the lists show is what `has_access` lets their reader see.
use redash.Prelude.{
  ℕ, ◌≡◌, refl, inl, inr, Bool, true, false, ◌&&◌, ◌||◌, List, [], ◌∷◌, arith, ◌==◌, nat_eq,
  string_eq, list_eq, option_eq, Bool-cases, any, contains, pair_eq, Assoc, insert,
}
use redash.Tables.{DataSourceGroup, Db}
use redash.Permissions.{Viewer, has_access, groups_from, data_source_groups, keys}
use redash.Permissions.Access.{IsDict, some_group, has_access_iff}
use redash.Listing.{joined}

keys-insert :
    (g h : ℕ) (v : Bool) (m : Assoc ℕ Bool)
    → contains (keys (insert g v m)) h ≡ (g == h || contains (keys m) h)
unfolding insert contains
keys-insert g h v [] = ground arith
keys-insert g h v ((j, w) ∷ m) = ground (arith, keys-insert g h v m)

insert-IsDict : (g : ℕ) (v : Bool) (m : Assoc ℕ Bool) → IsDict m → IsDict (insert g v m)
unfolding insert contains
insert-IsDict g v [] d = (refl, tt)
insert-IsDict g v ((j, w) ∷ m) d = elim (Bool-cases (j == g)) [
  | inl e ↦ rw e d
  | inr e ↦ rw e (ground (arith, keys-insert g j v m), insert-IsDict g v m d.1)
]

groups_from-IsDict :
    (rows : List DataSourceGroup) (ds : ℕ) (m : Assoc ℕ Bool)
    → IsDict m
    → IsDict (groups_from rows ds m)
unfolding groups_from
groups_from-IsDict [] ds m d = d
groups_from-IsDict (r ∷ rows) ds m d = elim (Bool-cases (r.data_source_id == ds)) [
  | inl e ↦ rw e (
      groups_from-IsDict rows ds (insert r.group_id r.view_only m)
        (insert-IsDict r.group_id r.view_only m d))
  | inr e ↦ rw e (groups_from-IsDict rows ds m d)
]

some_group-insert :
    (ids : List ℕ) (g : ℕ) (v : Bool) (m : Assoc ℕ Bool)
    → some_group (insert g v m) ids true ≡ (contains ids g || some_group m ids true)
unfolding some_group insert any
some_group-insert ids g v [] = ground arith
some_group-insert ids g v ((j, w) ∷ m) =
    ground (arith, nat_eq.beq_iff j g, some_group-insert ids g v m)

joined-groups_from :
    (ids : List ℕ) (ds : ℕ) (rows : List DataSourceGroup) (m : Assoc ℕ Bool)
    → some_group (groups_from rows ds m) ids true ≡ (
        some_group m ids true
        || any (λ (r : DataSourceGroup). r.data_source_id == ds && contains ids r.group_id) rows)
unfolding groups_from any
joined-groups_from ids ds [] m = ground arith
joined-groups_from ids ds (r ∷ rows) m = ground (
  arith,
  joined-groups_from ids ds rows m,
  joined-groups_from ids ds rows (insert r.group_id r.view_only m),
  some_group-insert ids r.group_id r.view_only m,
)

abbrev pub groups_of : ℕ → Db → Assoc ℕ Bool
groups_of ds db = data_source_groups db.data_source_groups ds

pub groups_of-IsDict : (ds : ℕ) (db : Db) → IsDict (groups_of ds db)
unfolding data_source_groups
groups_of-IsDict ds db = groups_from-IsDict db.data_source_groups ds [] tt

-- Who is no administrator sees a data source where the join finds a row.
pub joined-has_access :
    (u : Viewer) (ds : ℕ) (db : Db)
    → contains u.permissions "admin" ≡ false
    → joined u.group_ids ds db ≡ has_access (groups_of ds db) u true
unfolding joined data_source_groups some_group any
joined-has_access u ds db h = ground (
  arith,
  has_access_iff (groups_of ds db) u true (groups_of-IsDict ds db),
  joined-groups_from u.group_ids ds db.data_source_groups [],
)
