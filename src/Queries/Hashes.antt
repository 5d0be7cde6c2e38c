-- ===== src/Queries/Hashes.antt =====
-- What the changes of queries do to the hashes of their texts.
use redash.Prelude.{
  ℕ, suc, String, ◌≡◌, refl, ap, ◌∙◌, Bool, true, false, none, some, List, [], ◌∷◌, ◌++◌, arith,
  if◌then◌else◌, ◌==◌, nat_eq, string_eq, list_eq, option_eq, select, find, any, all, contains,
  update, pair_eq, lookup, insert,
}
use redash.Tables.{Query, Visualization, Db}
use redash.Visuals.{add_visualization}
use redash.Tracking.{
  Assignment, set_name, set_description, set_query_text, set_data_source_id, set_schedule,
  set_schedule_until, set_schedule_resultset_size, set_options, set_tags, set_is_draft,
  set_is_archived, set_org_id, set_user_id, set_last_modified_by_id, set_latest_query_data_id,
  set_query_hash, set_schedule_failures, Tracked, untouched, assign, set_attribute, update_model,
  record_changes,
}
use redash.Tracking.Recorded.{record_changes-queries, update_model-lookup}
use redash.Queries.{
  NewQuery, created, create_query, add_query, edited, archived, archive, forked,
  copy_visualizations, fork_query,
}
use redash.Queries.Archived.{cleared, cleared-queries}

pub copy_visualizations-queries :
    (id : ℕ) (vs : List Visualization) (db : Db)
    → (copy_visualizations id vs db).queries ≡ db.queries
unfolding copy_visualizations add_visualization
copy_visualizations-queries id [] db = refl
copy_visualizations-queries id (v ∷ vs) db =
    copy_visualizations-queries id vs _ ∙ either (v.type == "TABLE")
  where
    either :
        (b : Bool)
        → (if b then db else add_visualization id v.type v.name v.description v.options db).queries
          ≡ db.queries
    either true = refl
    either false = refl

module _ (p : Query → Bool) where
  all-write :
      (q : Query) (rows : List Query)
      → p q ≡ true
      → all p rows ≡ true
      → all p (update (λ r. r.id == q.id) (λ r. q) rows) ≡ true
  unfolding all update
  all-write q [] h g = refl
  all-write q (r ∷ rows) h g = ground (arith, all-write q rows h)

  all-next_version :
      (id : ℕ) (rows : List Query)
      → ((r : Query) → p (record r { version = suc r.version }) ≡ p r)
      → all p rows ≡ true
      → all p (update (λ r. r.id == id) (λ r. record r { version = suc r.version }) rows) ≡ true
  unfolding all update
  all-next_version id [] h g = refl
  all-next_version id (r ∷ rows) h g = ground (arith, h r, all-next_version id rows h)

  pub all-find :
      (t : Query → Bool) (rows : List Query) (q : Query)
      → all p rows ≡ true
      → find t rows ≡ some q
      → p q ≡ true
  unfolding all find
  all-find t [] q h e = cc
  all-find t (r ∷ rows) q h e = ground (arith, all-find t rows q)

  all-snoc :
      (rows : List Query) (q : Query)
      → all p rows ≡ true
      → p q ≡ true
      → all p (rows ++ q ∷ []) ≡ true
  unfolding all
  all-snoc [] q h g = ground (arith, g)
  all-snoc (r ∷ rows) q h g = ground (arith, all-snoc rows q)

-- The client sends a hash of its own.
abbrev pub sets_hash : Assignment → Bool
sets_hash (set_query_hash v) = true
sets_hash _ = false

module _ (hash : String → String) where
  -- The hash of the row is that of its text.
  abbrev pub is_hashed : Query → Bool
  is_hashed q = q.query_hash == hash q.query_text

  unfoldable pub all_hashed : Db → Bool
  all_hashed db = all is_hashed db.queries

  assign-is_hashed :
      (a : Assignment) (t : Tracked)
      → sets_hash a ≡ false
      → is_hashed t.row ≡ true
      → is_hashed (assign hash a t).row ≡ true
  unfolding assign set_attribute
  assign-is_hashed (set_name v) t n h = h
  assign-is_hashed (set_description v) t n h = h
  assign-is_hashed (set_query_hash v) t n h = cc
  assign-is_hashed (set_query_text v) t n h = (string_eq.beq_iff (hash v) (hash v)).1 refl
  assign-is_hashed (set_data_source_id v) t n h = h
  assign-is_hashed (set_schedule v) t n h = h
  assign-is_hashed (set_schedule_until v) t n h = h
  assign-is_hashed (set_schedule_resultset_size v) t n h = h
  assign-is_hashed (set_options v) t n h = h
  assign-is_hashed (set_tags v) t n h = h
  assign-is_hashed (set_is_draft v) t n h = h
  assign-is_hashed (set_is_archived v) t n h = h
  assign-is_hashed (set_org_id v) t n h = h
  assign-is_hashed (set_user_id v) t n h = h
  assign-is_hashed (set_last_modified_by_id v) t n h = h
  assign-is_hashed (set_latest_query_data_id v) t n h = h
  assign-is_hashed (set_schedule_failures v) t n h = h

  update_model-is_hashed :
      (assignments : List Assignment) (t : Tracked)
      → any sets_hash assignments ≡ false
      → is_hashed t.row ≡ true
      → is_hashed (update_model hash assignments t).row ≡ true
  unfolding update_model any
  update_model-is_hashed [] t n h = h
  update_model-is_hashed (a ∷ rest) t n h =
      update_model-is_hashed rest (assign hash a t) (ground (arith, n))
        (assign-is_hashed a t (ground (arith, n)) h)

  record_changes-all_hashed :
      (t : Tracked) (user_id : ℕ) (db : Db)
      → lookup "query" t.clean ≡ none
      → is_hashed t.row ≡ true
      → all_hashed db ≡ true
      → all_hashed (record_changes t user_id db) ≡ true
  unfolding all_hashed
  record_changes-all_hashed t user_id db c h g =
      ap (all is_hashed) (record_changes-queries t user_id db c)
      ∙ all-next_version is_hashed t.row.id _ (λ r. refl) (all-write is_hashed t.row db.queries h g)

  pub fork_query-all_hashed :
      (q : Query) (user_id : ℕ) (token : String) (db : Db)
      → is_hashed q ≡ true
      → all_hashed db ≡ true
      → all_hashed (fork_query q user_id token db) ≡ true
  unfolding fork_query create_query add_visualization all_hashed lookup
  fork_query-all_hashed q user_id token db h g =
      let copy = forked q user_id token db.next_id in
      let vs = select (λ (v : Visualization). v.query_id == q.id) db.visualizations in
      ap (all is_hashed) (copy_visualizations-queries copy.id vs _)
      ∙ record_changes-all_hashed (untouched copy) user_id (create_query copy db) refl h
          (all-snoc is_hashed db.queries copy g h)

  pub add_query-all_hashed :
      (p : NewQuery) (org user_id : ℕ) (token : String) (db : Db)
      → all_hashed db ≡ true
      → all_hashed (add_query hash p org user_id token db) ≡ true
  unfolding add_query create_query add_visualization all_hashed lookup
  add_query-all_hashed p org user_id token db g =
      let q = created hash p org user_id token db.next_id in
      let h = (string_eq.beq_iff (hash p.query_text) (hash p.query_text)).1 refl in
      record_changes-all_hashed (untouched q) user_id (create_query q db) refl h
        (all-snoc is_hashed db.queries q g h)

  pub archive-all_hashed :
      (q : Query) (user_id : ℕ) (db : Db)
      → is_hashed q ≡ true
      → all_hashed db ≡ true
      → all_hashed (archive q user_id db) ≡ true
  unfolding archive all_hashed lookup insert set_attribute
  archive-all_hashed q user_id db h g =
      record_changes-all_hashed (archived q) user_id (cleared q.id db) refl h
        (ap (all is_hashed) (cleared-queries q.id db) ∙ g)

  pub edited-all_hashed :
      (assignments : List Assignment) (q : Query) (user_id : ℕ) (db : Db)
      → any sets_hash assignments ≡ false
      → is_hashed q ≡ true
      → all_hashed db ≡ true
      → all_hashed (record_changes (edited hash assignments user_id q) user_id db) ≡ true
  unfolding contains lookup
  edited-all_hashed assignments q user_id db n h g =
      record_changes-all_hashed (edited hash assignments user_id q) user_id db
        (update_model-lookup hash "query" assignments (untouched q) refl)
        (update_model-is_hashed assignments (untouched q) n h) g
