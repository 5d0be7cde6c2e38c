-- ===== src/Favorites/Marks.antt =====
-- How many rows mark an object for a user.
use redash.Prelude.{
  ℕ, String, ◌≡◌, refl, Bool, true, false, ◌&&◌, ◌||◌, not, List, [], ◌∷◌, ◌++◌, arith, nat_eq,
  string_eq, list_eq, option_eq, any, reject, pair_eq,
}
use redash.Tables.{Favorite, Db}
use redash.Permissions.{Principal}
use redash.Handler.{gets, serve, ◌>>=◌}
use redash.Handler.Keeps.{Keeps, serve-Keeps, keeps}
use redash.Alerts.Requests.Subscriptions.{Keeps-user_row, Keeps-require_access}
use redash.Favorites.{
  marks, is_favorite, add_favorite, delete_favorite, commit_favorite, favor, disfavor,
  favorite_query, unfavorite_query, favorite_dashboard, unfavorite_dashboard, Request, mark_query,
  unmark_query, mark_dashboard, unmark_dashboard, handle,
}

-- No two rows are of one object and one user: the constraint `unique_favorite`.
unfoldable pub is_unique : List Favorite → Bool
is_unique [] = true
is_unique (f ∷ fs) = not (any (marks f.object_type f.object_id f.user_id) fs) && is_unique fs

unfoldable pub unique : Db → Bool
unique db = is_unique db.favorites

marks-sym :
    (f g : Favorite)
    → marks f.object_type f.object_id f.user_id g ≡ marks g.object_type g.object_id g.user_id f
marks-sym f g = ground (
  arith,
  string_eq.beq_iff f.object_type g.object_type,
  string_eq.beq_iff g.object_type f.object_type,
)

any-snoc :
    (q : Favorite → Bool) (fs : List Favorite) (f : Favorite)
    → any q (fs ++ f ∷ []) ≡ (any q fs || q f)
unfolding any
any-snoc q [] f = ground arith
any-snoc q (g ∷ fs) f = ground (arith, any-snoc q fs f)

is_unique-snoc :
    (fs : List Favorite) (f : Favorite)
    → any (marks f.object_type f.object_id f.user_id) fs ≡ false
    → is_unique (fs ++ f ∷ []) ≡ is_unique fs
unfolding is_unique any
is_unique-snoc [] f h = refl
is_unique-snoc (g ∷ fs) f h = ground (
  arith,
  is_unique-snoc fs f,
  any-snoc (marks g.object_type g.object_id g.user_id) fs f,
  marks-sym f g,
)

any-reject :
    (q p : Favorite → Bool) (fs : List Favorite) → any q fs ≡ false → any q (reject p fs) ≡ false
unfolding any reject
any-reject q p [] h = refl
any-reject q p (f ∷ fs) h = ground (arith, any-reject q p fs)

is_unique-reject :
    (p : Favorite → Bool) (fs : List Favorite)
    → is_unique fs ≡ true
    → is_unique (reject p fs) ≡ true
unfolding is_unique any reject
is_unique-reject p [] h = refl
is_unique-reject p (f ∷ fs) h =
    ground
      (arith, is_unique-reject p fs, any-reject (marks f.object_type f.object_id f.user_id) p fs)

unique-delete_favorite :
    (object_type : String) (object_id user_id : ℕ) (db : Db)
    → unique db ≡ true
    → unique (delete_favorite object_type object_id user_id db) ≡ true
unfolding unique delete_favorite
unique-delete_favorite object_type object_id user_id db h =
    is_unique-reject (marks object_type object_id user_id) db.favorites h

module _ (me : Principal) (org : ℕ) where
  Keeps-commit_favorite :
      (object_type : String) (object_id user_id : ℕ)
      → Keeps unique (
          gets (is_favorite user_id object_type object_id) >>= λ taken.
          commit_favorite org object_type object_id user_id taken)
  unfolding ◌>>=◌ unique is_favorite commit_favorite add_favorite
  Keeps-commit_favorite object_type object_id user_id = record {
    at = λ w h. ground (
      arith,
      is_unique-snoc w.session.favorites (record {
        id = w.session.next_id;
        org_id = org;
        object_type = object_type;
        object_id = object_id;
        user_id = user_id;
      }),
    );
  }

  Keeps-favor :
      (object_type : String) (object_id : ℕ) → Keeps unique (favor me org object_type object_id)
  unfolding favor
  Keeps-favor object_type object_id = search (keeps, Keeps-user_row, Keeps-commit_favorite) depth 20

  Keeps-disfavor :
      (object_type : String) (object_id : ℕ) → Keeps unique (disfavor me org object_type object_id)
  unfolding disfavor
  Keeps-disfavor object_type object_id =
      search (keeps, Keeps-user_row, unique-delete_favorite) depth 20

  handle-Keeps : (r : Request) → Keeps unique (handle me org r)
  unfolding handle favorite_query unfavorite_query favorite_dashboard unfavorite_dashboard
  handle-Keeps (mark_query id) = search (keeps, Keeps-require_access, Keeps-favor) depth 20
  handle-Keeps (unmark_query id) = search (keeps, Keeps-require_access, Keeps-disfavor) depth 20
  handle-Keeps (mark_dashboard slug) = search (keeps, Keeps-favor) depth 20
  handle-Keeps (unmark_dashboard slug) = search (keeps, Keeps-disfavor) depth 20

  -- Whether it succeeds or not, a request on favourites leaves no two rows for one object and one user, if there
  -- were none.
  pub handle-unique_marks :
      (r : Request) (db : Db) → unique db ≡ true → unique (serve (handle me org r) db).1 ≡ true
  handle-unique_marks r db u = serve-Keeps unique (handle me org r) db (handle-Keeps r) u
