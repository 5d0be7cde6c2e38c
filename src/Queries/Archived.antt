-- ===== src/Queries/Archived.antt =====
-- What is left of a query after a request to archive it.
use redash.Prelude.{
  ℕ, suc, ◌≡◌, refl, sym, ap, ◌∙◌, subst, ◌≢◌, inl, inr, Bool, true, false, ◌&&◌, not, none, some,
  List, [], ◌∷◌, map, arith, ◌==◌, nat_eq, string_eq, list_eq, option_eq, Option-cases, select,
  find, any, contains, reject, pair_eq, lookup, insert,
}
use redash.Tables.{Query, Alert, Visualization, Widget, Db}
use redash.Permissions.{Principal}
use redash.Handler.{ok, serve, ◌>>=◌}
use redash.Sharing.{user_row, require_admin_or_owner}
use redash.Alerts.Requests.{query_by_id_and_org, delete_alert}
use redash.Schedule.Outdated.{is_scheduled}
use redash.Tracking.{set_attribute}
use redash.Queries.{archived, archive, delete, delete_alerts, alerts_of, delete_widgets_of}
use redash.Tracking.Recorded.{record_changes-others}
use redash.Queries.Versions.{id_of, record_changes-found, query_by_id_and_org-ids}

-- The widget shows one of the visualizations that the query has.
abbrev pub shown_of : ℕ → List Visualization → Widget → Bool
shown_of query_id vs w = elim w.visualization_id [
  | none ↦ false
  | some id ↦ any (λ v. v.query_id == query_id && v.id == id) vs
]

abbrev pub shows : ℕ → Db → Widget → Bool
shows query_id db w = shown_of query_id db.visualizations w

module _ (query_id : ℕ) where
  contains-visualizations :
      (vs : List Visualization) (id : ℕ)
      → contains (map (λ (v : Visualization). v.id) (select (λ v. v.query_id == query_id) vs)) id
        ≡ any (λ v. v.query_id == query_id && v.id == id) vs
  unfolding contains select any
  contains-visualizations [] id = refl
  contains-visualizations (v ∷ vs) id = ground (arith, contains-visualizations vs id)

  any-reject_shown :
      (vs : List Visualization) (ws : List Widget)
      → any (shown_of query_id vs) (
          reject
            (λ w. elim w.visualization_id [
              | none ↦ false
              | some id ↦
                  contains
                    (map (λ (v : Visualization). v.id) (select (λ v. v.query_id == query_id) vs))
                    id
            ])
            ws)
        ≡ false
  unfolding any reject
  any-reject_shown vs [] = refl
  any-reject_shown vs (w ∷ ws) = elim (Option-cases w.visualization_id) [
    | inl e ↦ ground (arith, e, any-reject_shown vs ws)
    | inr (id, e) ↦ ground (arith, e, contains-visualizations vs id, any-reject_shown vs ws)
  ]

  any-not_nil :
      (rows : List Alert)
      → any (λ a. a.query_id == query_id) rows
        ≡ any (λ a. a.query_id == query_id && not (contains [] a.id)) rows
  unfolding any contains
  any-not_nil [] = refl
  any-not_nil (a ∷ rows) = ground (arith, any-not_nil rows)

  any-reject_alert :
      (id : ℕ) (ids : List ℕ) (rows : List Alert)
      → any (λ a. a.query_id == query_id && not (contains ids a.id)) (reject (λ a. a.id == id) rows)
        ≡ any (λ a. a.query_id == query_id && not (contains (id ∷ ids) a.id)) rows
  unfolding any contains reject
  any-reject_alert id ids [] = refl
  any-reject_alert id ids (a ∷ rows) = ground (arith, any-reject_alert id ids rows)

  any-delete_alerts :
      (ids : List ℕ) (db : Db)
      → any (λ a. a.query_id == query_id) (delete_alerts ids db).alerts
        ≡ any (λ a. a.query_id == query_id && not (contains ids a.id)) db.alerts
  unfolding delete_alerts delete_alert
  any-delete_alerts [] db = any-not_nil db.alerts
  any-delete_alerts (id ∷ ids) db =
      any-delete_alerts ids (delete_alert id db) ∙ any-reject_alert id ids db.alerts

  contains-alerts :
      (rows : List Alert) (id : ℕ)
      → contains (map (λ (a : Alert). a.id) (select (λ a. a.query_id == query_id) rows)) id
        ≡ any (λ a. a.query_id == query_id && a.id == id) rows
  unfolding contains select any
  contains-alerts [] id = refl
  contains-alerts (a ∷ rows) id = ground (arith, contains-alerts rows id)

  any-left_over :
      (whole rows : List Alert)
      → ((f : Alert → Bool) → any f rows ≡ true → any f whole ≡ true)
      → any
          (λ a.
            a.query_id == query_id
            && not (
                contains
                  (map (λ (a : Alert). a.id) (select (λ a. a.query_id == query_id) whole))
                  a.id))
          rows
        ≡ false
  unfolding any
  any-left_over whole [] h = refl
  any-left_over whole (a ∷ rows) h =
      let rest = any-left_over whole rows (λ f e. h f (ground (arith, e))) in
      ground
        (arith, rest, contains-alerts whole a.id, h (λ b. b.query_id == query_id && b.id == a.id))

any-shown :
    (query_id : ℕ) {ws ws' : List Widget} {vs vs' : List Visualization}
    → ws ≡ ws'
    → vs ≡ vs'
    → any (shown_of query_id vs) ws ≡ any (shown_of query_id vs') ws'
any-shown query_id p q = cc (p, q)

delete_alerts-others :
    (ids : List ℕ) (db : Db)
    → ((delete_alerts ids db).queries ≡ db.queries)
      × ((delete_alerts ids db).widgets ≡ db.widgets)
      × ((delete_alerts ids db).visualizations ≡ db.visualizations)
unfolding delete_alerts delete_alert
delete_alerts-others [] db = (refl, refl, refl)
delete_alerts-others (id ∷ ids) db = delete_alerts-others ids (delete_alert id db)

-- What `Query.archive` does to the rows before it records the change.
abbrev pub cleared : ℕ → Db → Db
cleared query_id db = delete_alerts (alerts_of query_id db) (delete_widgets_of query_id db)

module _ (query_id : ℕ) (db : Db) where
  pub cleared-queries : (cleared query_id db).queries ≡ db.queries
  unfolding delete_widgets_of
  cleared-queries = (delete_alerts-others (alerts_of query_id db) (delete_widgets_of query_id db)).0

  cleared-alerts : any (λ a. a.query_id == query_id) (cleared query_id db).alerts ≡ false
  unfolding delete_widgets_of
  cleared-alerts =
      any-delete_alerts query_id (alerts_of query_id db) (delete_widgets_of query_id db)
      ∙ any-left_over query_id db.alerts db.alerts (λ f e. e)

  cleared-widgets : any (shows query_id (cleared query_id db)) (cleared query_id db).widgets ≡ false
  unfolding delete_widgets_of
  cleared-widgets =
      let after = cleared query_id db in
      let o = delete_alerts-others (alerts_of query_id db) (delete_widgets_of query_id db) in
      any-shown query_id o.1 o.2 ∙ any-reject_shown query_id db.visualizations db.widgets

pub delete-none :
    (me : Principal) (org query_id : ℕ) (db : Db)
    → query_by_id_and_org query_id org db ≡ none
    → (serve (delete me org query_id) db).0 ≢ ok tt
unfolding serve delete ◌>>=◌ require_admin_or_owner user_row
delete-none me org query_id db e h = ground (arith, e, h)

pub delete-some :
    (me : Principal) (org query_id : ℕ) (db : Db) (q : Query)
    → query_by_id_and_org query_id org db ≡ some q
    → (serve (delete me org query_id) db).0 ≡ ok tt
    → (serve (delete me org query_id) db).1 ≡ archive q (id_of me) db
unfolding serve delete ◌>>=◌ require_admin_or_owner user_row
delete-some me org query_id db q e h = ground (arith, e, h)

-- What holds of the rows when the query is archived.
abbrev pub IsArchived : ℕ → ℕ → Db → Type 0
IsArchived query_id org db =
    ((q : Query) × (query_by_id_and_org query_id org db ≡ some q)
      × (q.is_archived ≡ true)
      × ((now : ℕ) → is_scheduled now q ≡ false))
    × (any (λ a. a.query_id == query_id) db.alerts ≡ false)
    × (any (shows query_id db) db.widgets ≡ false)

archive-IsArchived :
    (org user_id : ℕ) (db : Db) (q : Query)
    → query_by_id_and_org q.id org db ≡ some q
    → IsArchived q.id org (archive q user_id db)
unfolding archive lookup insert set_attribute is_scheduled query_by_id_and_org
archive-IsArchived org user_id db q e =
    let (i, o) = query_by_id_and_org-ids q.id org db q e in
    let after = cleared q.id db in
    let others = record_changes-others (archived q) user_id after in
    (
      (
        record q { is_archived = true; schedule = none; version = suc q.version },
        record_changes-found (archived q) user_id q.id org after q refl i o
            (ap (find (λ r. r.id == q.id && r.org_id == org)) (cleared-queries q.id db) ∙ e),
        refl,
        λ now. refl,
      ),
      ap (any (λ a. a.query_id == q.id)) others.0 ∙ cleared-alerts q.id db,
      any-shown q.id others.1 others.2 ∙ cleared-widgets q.id db,
    )

-- After a successful request to archive a query, the query is still there, but it is archived and at no time
-- among the scheduled queries, no alert is on it, and no widget shows a visualization of it.
pub delete-IsArchived :
    (me : Principal) (org query_id : ℕ) (db : Db)
    → (serve (delete me org query_id) db).0 ≡ ok tt
    → IsArchived query_id org (serve (delete me org query_id) db).1
delete-IsArchived me org query_id db h = elim (Option-cases (query_by_id_and_org query_id org db)) [
  | inl e ↦ absurd (delete-none me org query_id db e h)
  | inr (q, e) ↦
      let i = (query_by_id_and_org-ids query_id org db q e).0 in
      subst (IsArchived query_id org) (sym (delete-some me org query_id db q e h)) (
        subst (λ n. IsArchived n org (archive q (id_of me) db)) i
          (archive-IsArchived org (id_of me) db q (ap (λ n. query_by_id_and_org n org db) i ∙ e)))
]
