-- ===== src/Tracking/Recorded.antt =====
-- What `record_changes` records of the assignments of a request.
use redash.Prelude.{
  ℕ, suc, String, ◌≡◌, refl, ◌∙◌, inl, inr, true, false, none, some, List, [], ◌∷◌, arith, ◌==◌,
  nat_eq, string_eq, list_eq, option_eq, Bool-cases, contains, update, pair_eq, Assoc, lookup,
  insert, lookup-insert,
}
use redash.Tables.{Query, Value, null, text, Db}
use redash.Tracking.{
  Column, org_id, data_source_id, latest_query_data_id, name, description, query_text, columns,
  untouched, column_name, get_attribute, previous, value_eq, changes_of, add_change, flush_row,
  record_changes, Assignment, set_name, set_description, set_query_text, set_data_source_id,
  set_schedule, set_schedule_until, set_schedule_resultset_size, set_options, set_tags,
  set_is_draft, set_is_archived, set_org_id, set_user_id, set_last_modified_by_id,
  set_latest_query_data_id, set_query_hash, set_schedule_failures, assign, set_attribute,
  update_model, Tracked,
}

lookup-insert_ne :
    (k j : String) (v : Value) (m : Assoc String Value)
    → (k == j) ≡ false
    → lookup j (insert k v m) ≡ lookup j m
lookup-insert_ne k j v m h = rw (lookup-insert k j v m, h)

not-contained :
    (xs : List String) (k j : String)
    → contains xs k ≡ true
    → contains xs j ≡ false
    → (k == j) ≡ false
not-contained xs k j h g = elim (Bool-cases (k == j)) [
  | inl e ↦ cc (h, g, (string_eq.beq_iff k j).0 e)
  | inr e ↦ e
]

abbrev assigned_keys : List String
assigned_keys =
    "name" ∷ "description" ∷ "query_text" ∷ "query_hash" ∷ "schedule_failures" ∷ "data_source_id"
    ∷ "schedule" ∷ "schedule_until" ∷ "schedule_resultset_size" ∷ "options" ∷ "tags" ∷ "is_draft"
    ∷ "is_archived" ∷ "org_id" ∷ "user_id" ∷ "last_modified_by_id" ∷ "latest_query_data_id" ∷ []

module _ (hash : String → String) where
  -- No assignment touches a key that is not among those of the assigned attributes.
  assign-lookup :
      (j : String) (a : Assignment) (t : Tracked)
      → contains assigned_keys j ≡ false
      → lookup j (assign hash a t).clean ≡ lookup j t.clean
  unfolding assign set_attribute contains
  assign-lookup j (set_query_text v) t h =
      lookup-insert_ne "schedule_failures" j _ _
        (not-contained assigned_keys "schedule_failures" j refl h)
      ∙ lookup-insert_ne "query_hash" j _ _ (not-contained assigned_keys "query_hash" j refl h)
      ∙ lookup-insert_ne "query_text" j _ _ (not-contained assigned_keys "query_text" j refl h)
  assign-lookup j (set_name v) t h =
      lookup-insert_ne "name" j _ _ (not-contained assigned_keys "name" j refl h)
  assign-lookup j (set_description v) t h =
      lookup-insert_ne "description" j _ _ (not-contained assigned_keys "description" j refl h)
  assign-lookup j (set_data_source_id v) t h =
      lookup-insert_ne "data_source_id" j _ _
        (not-contained assigned_keys "data_source_id" j refl h)
  assign-lookup j (set_schedule v) t h =
      lookup-insert_ne "schedule" j _ _ (not-contained assigned_keys "schedule" j refl h)
  assign-lookup j (set_schedule_until v) t h =
      lookup-insert_ne "schedule_until" j _ _
        (not-contained assigned_keys "schedule_until" j refl h)
  assign-lookup j (set_schedule_resultset_size v) t h =
      lookup-insert_ne "schedule_resultset_size" j _ _
        (not-contained assigned_keys "schedule_resultset_size" j refl h)
  assign-lookup j (set_options v) t h =
      lookup-insert_ne "options" j _ _ (not-contained assigned_keys "options" j refl h)
  assign-lookup j (set_tags v) t h =
      lookup-insert_ne "tags" j _ _ (not-contained assigned_keys "tags" j refl h)
  assign-lookup j (set_is_draft v) t h =
      lookup-insert_ne "is_draft" j _ _ (not-contained assigned_keys "is_draft" j refl h)
  assign-lookup j (set_is_archived v) t h =
      lookup-insert_ne "is_archived" j _ _ (not-contained assigned_keys "is_archived" j refl h)
  assign-lookup j (set_org_id v) t h =
      lookup-insert_ne "org_id" j _ _ (not-contained assigned_keys "org_id" j refl h)
  assign-lookup j (set_user_id v) t h =
      lookup-insert_ne "user_id" j _ _ (not-contained assigned_keys "user_id" j refl h)
  assign-lookup j (set_last_modified_by_id v) t h =
      lookup-insert_ne "last_modified_by_id" j _ _
        (not-contained assigned_keys "last_modified_by_id" j refl h)
  assign-lookup j (set_latest_query_data_id v) t h =
      lookup-insert_ne "latest_query_data_id" j _ _
        (not-contained assigned_keys "latest_query_data_id" j refl h)
  assign-lookup j (set_query_hash v) t h =
      lookup-insert_ne "query_hash" j _ _ (not-contained assigned_keys "query_hash" j refl h)
  assign-lookup j (set_schedule_failures v) t h =
      lookup-insert_ne "schedule_failures" j _ _
        (not-contained assigned_keys "schedule_failures" j refl h)

  pub update_model-lookup :
      (j : String) (assignments : List Assignment) (t : Tracked)
      → contains assigned_keys j ≡ false
      → lookup j (update_model hash assignments t).clean ≡ lookup j t.clean
  unfolding update_model
  update_model-lookup j [] t h = refl
  update_model-lookup j (a ∷ rest) t h =
      update_model-lookup j rest (assign hash a t) h ∙ assign-lookup j a t h

  -- What no request assigns.
  abbrev pub fixed : Query → ℕ × ℕ
  fixed q = (q.id, q.version)

  assign-fixed : (a : Assignment) (t : Tracked) → fixed (assign hash a t).row ≡ fixed t.row
  unfolding assign set_attribute
  assign-fixed (set_name v) t = refl
  assign-fixed (set_description v) t = refl
  assign-fixed (set_query_text v) t = refl
  assign-fixed (set_data_source_id v) t = refl
  assign-fixed (set_schedule v) t = refl
  assign-fixed (set_schedule_until v) t = refl
  assign-fixed (set_schedule_resultset_size v) t = refl
  assign-fixed (set_options v) t = refl
  assign-fixed (set_tags v) t = refl
  assign-fixed (set_is_draft v) t = refl
  assign-fixed (set_is_archived v) t = refl
  assign-fixed (set_org_id v) t = refl
  assign-fixed (set_user_id v) t = refl
  assign-fixed (set_last_modified_by_id v) t = refl
  assign-fixed (set_latest_query_data_id v) t = refl
  assign-fixed (set_query_hash v) t = refl
  assign-fixed (set_schedule_failures v) t = refl

  pub update_model-fixed :
      (assignments : List Assignment) (t : Tracked)
      → fixed (update_model hash assignments t).row ≡ fixed t.row
  unfolding update_model
  update_model-fixed [] t = refl
  update_model-fixed (a ∷ rest) t = update_model-fixed rest (assign hash a t) ∙ assign-fixed a t

module _ (t : Tracked) where
  changes_of-skip :
      (c : Column) (cs : List Column) (j : String)
      → (column_name c == j) ≡ false
      → lookup j (changes_of (c ∷ cs) t) ≡ lookup j (changes_of cs t)
  unfolding changes_of lookup
  changes_of-skip c cs j h = ground (arith, h)

  changes_of-here :
      (c : Column) (cs : List Column)
      → value_eq (previous c t) (get_attribute c t.row) ≡ false
      → lookup (column_name c) (changes_of (c ∷ cs) t) ≡ some (previous c t, get_attribute c t.row)
  unfolding changes_of lookup
  changes_of-here c cs h = ground (arith, h, string_eq.beq_iff (column_name c) (column_name c))

previous-query_text : (t : Tracked) → lookup "query" t.clean ≡ none → previous query_text t ≡ null
unfolding lookup
previous-query_text t h = rw (previous, h)

-- The change of a row whose clean values have nothing under the name of the column names that column.
changes_of-query :
    (t : Tracked)
    → lookup "query" t.clean ≡ none
    → lookup "query" (changes_of columns t) ≡ some (null, text t.row.query_text)
changes_of-query t h =
    changes_of-skip t org_id _ "query" refl
    ∙ changes_of-skip t data_source_id _ "query" refl
    ∙ changes_of-skip t latest_query_data_id _ "query" refl
    ∙ changes_of-skip t name _ "query" refl
    ∙ changes_of-skip t description _ "query" refl
    ∙ changes_of-here t query_text _ (rw (previous-query_text t h))
    ∙ rw (previous-query_text t h)

-- Whatever a request assigns to a query, its text or not, the change that is recorded names the column of the
-- text, with the text after the request as the current value and null as the previous one.
pub update_model-text :
    (hash : String → String) (assignments : List Assignment) (q : Query)
    → lookup "query" (changes_of columns (update_model hash assignments (untouched q)))
      ≡ some (null, text (update_model hash assignments (untouched q)).row.query_text)
unfolding lookup contains
update_model-text hash assignments q =
    changes_of-query (update_model hash assignments (untouched q))
      (update_model-lookup hash "query" assignments (untouched q) refl)

add_change-queries :
    (q : Query) (user_id : ℕ) (changes : Assoc String (Value × Value)) (change : Value × Value)
    (db : Db)
    → lookup "query" changes ≡ some change
    → (add_change q user_id changes db).queries
      ≡ update (λ r. r.id == q.id) (λ r. record r { version = suc r.version }) db.queries
unfolding add_change lookup
add_change-queries q user_id [] change db h = cc
add_change-queries q user_id (c ∷ cs) change db h = refl

-- What a change does to a row that is not new: it writes the row with the next version, and adds one change.
pub record_changes-queries :
    (t : Tracked) (user_id : ℕ) (db : Db)
    → lookup "query" t.clean ≡ none
    → (record_changes t user_id db).queries
      ≡ update
          (λ r. r.id == t.row.id)
          (λ r. record r { version = suc r.version })
          (update (λ r. r.id == t.row.id) (λ r. t.row) db.queries)
unfolding record_changes flush_row
record_changes-queries t user_id db h =
    add_change-queries t.row user_id (changes_of columns t) _ (flush_row t.row db)
      (changes_of-query t h)

add_change-others :
    (q : Query) (user_id : ℕ) (changes : Assoc String (Value × Value)) (db : Db)
    → ((add_change q user_id changes db).alerts ≡ db.alerts)
      × ((add_change q user_id changes db).widgets ≡ db.widgets)
      × ((add_change q user_id changes db).visualizations ≡ db.visualizations)
unfolding add_change
add_change-others q user_id [] db = (refl, refl, refl)
add_change-others q user_id (c ∷ cs) db = (refl, refl, refl)

-- The other tables that a query has rows in stay as they are.
pub record_changes-others :
    (t : Tracked) (user_id : ℕ) (db : Db)
    → ((record_changes t user_id db).alerts ≡ db.alerts)
      × ((record_changes t user_id db).widgets ≡ db.widgets)
      × ((record_changes t user_id db).visualizations ≡ db.visualizations)
unfolding record_changes flush_row
record_changes-others t user_id db =
    add_change-others t.row user_id (changes_of columns t) (flush_row t.row db)
