-- ===== src/Permissions/Access.antt =====
-- What `has_access` decides.
use redash.Prelude.{
  ℕ, ◌≡◌, refl, Bool, true, false, ◌&&◌, ◌||◌, not, some, List, [], ◌∷◌, map, arith, nat_eq,
  string_eq, list_eq, option_eq, select, any, all, contains, Assoc, lookup,
}
use redash.Permissions.{Viewer, has_access, keys, level_of, is_empty}

-- Every key of `part` has in `whole` the value that `part` gives it.
abbrev Agrees : Assoc ℕ Bool → Assoc ℕ Bool → Type 0
Agrees whole [] = Unit
Agrees whole ((g, v) ∷ rest) = (lookup g whole ≡ some v) × Agrees whole rest

-- No key stands twice, as in a `dict`.
abbrev pub IsDict : Assoc ℕ Bool → Type 0
IsDict [] = Unit
IsDict ((g, v) ∷ rest) = (contains (map (λ (p : ℕ × Bool). p.0) rest) g ≡ false) × IsDict rest

Agrees-cons :
    (g : ℕ) (v : Bool) (whole part : Assoc ℕ Bool)
    → contains (keys part) g ≡ false
    → Agrees whole part
    → Agrees ((g, v) ∷ whole) part
unfolding lookup contains
Agrees-cons g v whole [] h a = tt
Agrees-cons g v whole ((j, w) ∷ part) h a =
    (ground (arith, a.0), Agrees-cons g v whole part (ground arith) a.1)

IsDict→Agrees : (m : Assoc ℕ Bool) → IsDict m → Agrees m m
unfolding lookup
IsDict→Agrees [] d = tt
IsDict→Agrees ((g, v) ∷ m) d = (ground arith, Agrees-cons g v m m d.0 (IsDict→Agrees m d.1))

-- A group of the object that holds the viewer, with full access if that is needed.
unfoldable pub some_group : Assoc ℕ Bool → List ℕ → Bool → Bool
some_group object_groups ids need_view_only =
    any (λ p. contains ids p.0 && (need_view_only || not p.1)) object_groups

module _ (ids : List ℕ) where
  abbrev matching : Assoc ℕ Bool → List ℕ
  matching m = select (λ g. contains ids g) (keys m)

  is_empty-matching : (m : Assoc ℕ Bool) → is_empty (matching m) ≡ not (some_group m ids true)
  unfolding select some_group any
  is_empty-matching [] = refl
  is_empty-matching ((g, v) ∷ m) = ground (arith, is_empty-matching m)

  all-matching :
      (whole part : Assoc ℕ Bool)
      → Agrees whole part
      → all (level_of whole) (matching part) ≡ not (some_group part ids false)
  unfolding select some_group any all
  all-matching whole [] a = refl
  all-matching whole ((g, v) ∷ part) a = ground (arith, a.0, all-matching whole part a.1)

  some_group_mono :
      (m : Assoc ℕ Bool) → some_group m ids false ≡ true → some_group m ids true ≡ true
  unfolding some_group any
  some_group_mono [] h = cc
  some_group_mono ((g, v) ∷ m) h = ground (arith, some_group_mono m)

-- `has_access` grants access exactly to a viewer with the permission 'admin' and to a viewer in some
-- group of the object, where that group must have more than view-only access unless viewing is all
-- that is needed. The object's groups are a dictionary: no group stands in them twice.
pub has_access_iff :
    (object_groups : Assoc ℕ Bool) (u : Viewer) (need_view_only : Bool)
    → IsDict object_groups
    → has_access object_groups u need_view_only
      ≡ (contains u.permissions "admin" || some_group object_groups u.group_ids need_view_only)
unfolding has_access
has_access_iff m u true d = ground (arith, is_empty-matching u.group_ids m)
has_access_iff m u false d = ground (
  arith,
  is_empty-matching u.group_ids m,
  all-matching u.group_ids m m (IsDict→Agrees m d),
  some_group_mono u.group_ids m,
)
