-- ===== src/Queries/Forks.antt =====
-- What a fork copies.
use redash.Prelude.{
  ℕ, String, ◌≡◌, refl, sym, ap, ◌∙◌, Bool, true, false, ◌&&◌, not, some, List, [], ◌∷◌, ◌++◌, map,
  arith, if◌then◌else◌, ◌==◌, nat_eq, string_eq, list_eq, option_eq, select, find, any, pair_eq,
  lookup,
}
use redash.Tables.{Query, Visualization, Db}
use redash.Permissions.{Principal}
use redash.Handler.{ok, serve}
use redash.Alerts.Requests.{query_by_id_and_org}
use redash.Visuals.{add_visualization}
use redash.Tracking.{untouched}
use redash.Tracking.Recorded.{record_changes-others}
use redash.Queries.{fork, fork_query, copy_visualizations, create_query, forked}
use redash.Queries.Versions.{id_of, record_changes-found, query_by_id_and_org-ids}
use redash.Queries.Hashes.{copy_visualizations-queries}
use redash.Queries.Consistent.{fork-some}

-- What is seen of a visualization.
abbrev pub content : Visualization → String × String × String × String
content v = (v.type, v.name, v.description, v.options)

-- The visualizations of a query.
unfoldable pub contents : ℕ → List Visualization → List (String × String × String × String)
contents query_id vs = map content (select (λ v. v.query_id == query_id) vs)

contents-snoc :
    (id : ℕ) (vs : List Visualization) (v : Visualization)
    → v.query_id ≡ id
    → contents id (vs ++ v ∷ []) ≡ contents id vs ++ content v ∷ []
unfolding contents select
contents-snoc id [] v h = ground (arith, h)
contents-snoc id (w ∷ vs) v h = ground (arith, contents-snoc id vs v h)

append-snoc : {A : Type 0} (xs : List A) (x : A) (zs : List A) → (xs ++ x ∷ []) ++ zs ≡ xs ++ x ∷ zs
append-snoc [] x zs = refl
append-snoc (y ∷ xs) x zs = ap (λ l. y ∷ l) (append-snoc xs x zs)

append-nil : {A : Type 0} (xs : List A) → xs ++ [] ≡ xs
append-nil [] = refl
append-nil (x ∷ xs) = ap (λ l. x ∷ l) (append-nil xs)

abbrev pub is_copied : Visualization → Bool
is_copied v = not (v.type == "TABLE")

contents-copy_visualizations :
    (id : ℕ) (vs : List Visualization) (db : Db)
    → contents id (copy_visualizations id vs db).visualizations
      ≡ contents id db.visualizations ++ map content (select is_copied vs)
unfolding copy_visualizations add_visualization select
contents-copy_visualizations id [] db = sym (append-nil _)
contents-copy_visualizations id (v ∷ vs) db =
    go (v.type == "TABLE") (contents-copy_visualizations id vs)
  where
    go :
        (b : Bool)
        → ((d : Db)
            → contents id (copy_visualizations id vs d).visualizations
              ≡ contents id d.visualizations ++ map content (select is_copied vs))
        → contents id
            (copy_visualizations id vs (
              if b
              then db
              else add_visualization id v.type v.name v.description v.options db)).visualizations
          ≡ contents id db.visualizations
            ++ map content (if not b then v ∷ select is_copied vs else select is_copied vs)
    go true rest = rest db
    go false rest =
        rest (add_visualization id v.type v.name v.description v.options db)
        ∙ ap (λ l. l ++ map content (select is_copied vs))
            (contents-snoc id db.visualizations _ refl)
        ∙ append-snoc (contents id db.visualizations) (content v) _

find-snoc :
    (id org : ℕ) (rows : List Query) (q : Query)
    → any (λ r. r.id == id) rows ≡ false
    → q.id ≡ id
    → q.org_id ≡ org
    → find (λ r. r.id == id && r.org_id == org) (rows ++ q ∷ []) ≡ some q
unfolding find any
find-snoc id org [] q h i o = ground (arith, i, o)
find-snoc id org (r ∷ rows) q h i o = ground (arith, find-snoc id org rows q)

fork_query-copies :
    (q : Query) (user_id org : ℕ) (token : String) (db : Db)
    → any (λ r. r.id == db.next_id) db.queries ≡ false
    → contents db.next_id db.visualizations ≡ []
    → q.org_id ≡ org
    → (query_by_id_and_org db.next_id org (fork_query q user_id token db)
        ≡ some (record (forked q user_id token db.next_id) { version = 1 }))
      × (contents db.next_id (fork_query q user_id token db).visualizations
          ≡ ("TABLE", "Table", "", "{}")
            ∷ map content (select is_copied (select (λ v. v.query_id == q.id) db.visualizations)))
unfolding fork_query lookup query_by_id_and_org create_query add_visualization
fork_query-copies q user_id org token db fresh none_yet o =
    let copy = forked q user_id token db.next_id in
    let after = create_query copy db in
    let vs = select (λ (v : Visualization). v.query_id == q.id) db.visualizations in
    (
      ap (find (λ r. r.id == db.next_id && r.org_id == org))
            (copy_visualizations-queries copy.id vs _)
          ∙ record_changes-found (untouched copy) user_id copy.id org after copy refl refl o
              (find-snoc copy.id org db.queries copy fresh refl o),
      contents-copy_visualizations copy.id vs _
          ∙ ap (λ l. contents copy.id l ++ map content (select is_copied vs))
              ((record_changes-others (untouched copy) user_id after).2)
          ∙ ap (λ l. l ++ map content (select is_copied vs))
              (contents-snoc copy.id db.visualizations _ refl
                ∙ ap (λ l. l ++ ("TABLE", "Table", "", "{}") ∷ []) none_yet),
    )

-- A successful fork adds a query, which whoever asked for it owns, with the text, the hash, the data source and
-- the latest result of the query, unscheduled, at version 1; its visualizations are a new table and copies of
-- those of the query that are no tables. (The next id is not in use for a query yet.)
pub fork-copies :
    (me : Principal) (org query_id : ℕ) (token : String) (db : Db) (q : Query)
    → any (λ r. r.id == db.next_id) db.queries ≡ false
    → contents db.next_id db.visualizations ≡ []
    → query_by_id_and_org query_id org db ≡ some q
    → (serve (fork me org query_id token) db).0 ≡ ok tt
    → (query_by_id_and_org db.next_id org (serve (fork me org query_id token) db).1
        ≡ some (record (forked q (id_of me) token db.next_id) { version = 1 }))
      × (contents db.next_id (serve (fork me org query_id token) db).1.visualizations
          ≡ ("TABLE", "Table", "", "{}")
            ∷ map content (select is_copied (select (λ v. v.query_id == q.id) db.visualizations)))
fork-copies me org query_id token db q fresh none_yet e h =
    let o = (query_by_id_and_org-ids query_id org db q e).1 in
    rw (fork-some me org db query_id token q e h)
      (fork_query-copies q (id_of me) org token db fresh none_yet o)
