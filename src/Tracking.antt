-- ===== src/Tracking.antt =====
-- ChangeTrackingMixin of redash/models.py on a query: what a request assigns to its attributes, and the change
-- that `record_changes` writes. The column `search_vector`, which the database fills, is left out.
pub mod Recorded
use redash.Prelude.{
  ℕ, zero, suc, ◌+◌, ◌-◌, ◌*◌, ◌/◌, ◌%◌, ◌^◌, ◌≤◌, ◌<◌, min, max, String, ◌≡◌, refl, sym, ap, ◌∙◌,
  subst, ◌≢◌, ◌↔◌, ◌⊎◌, inl, inr, Bool, true, false, ◌&&◌, ◌||◌, not, Option, none, some, List, [],
  ◌∷◌, ◌++◌, map, arith, ltb, leb, nat_beq, if◌then◌else◌, ltb→lt, lt→ltb, leb→le, nat_beq_iff,
  tests, Eq, ◌==◌, nat_eq, string_eq, list_eq, option_eq, list_beq_iff, option_beq_iff, Bool-cases,
  Option-cases, is_some, length, take, drop, select, find, any, all, length-append,
  length-select-le, any-append, contains, contains-append, reject, update, option_all-find,
  insert_by, sort_by, any-sort_by, any-select, pair_eq, pair_beq_iff, option_all, any-reject_self,
  length-update, without_first, count, count-without_first, count-without_first_ne, contains-eq-ltb,
  Assoc, lookup, insert, remove, lookup-insert, lookup-remove, printed, concat, all-append, any_ext,
  select_ext, find-update, all-update, all-reject, all_except, all_mono, any_left, any_never,
}
use redash.Tables.{Query, Change, Value, null, number, flag, text, texts, chars, Db}

-- The mapped attributes of Query but `skipped_fields`, in the order of the mapper.
pub data Column : Type 0 where
  org_id data_source_id latest_query_data_id name description query_text query_hash api_key user_id
        last_modified_by_id is_archived is_draft schedule schedule_failures schedule_until
        schedule_resultset_size options tags :
      Column

abbrev pub columns : List Column
columns =
    org_id ∷ data_source_id ∷ latest_query_data_id ∷ name ∷ description ∷ query_text ∷ query_hash
    ∷ api_key ∷ user_id ∷ last_modified_by_id ∷ is_archived ∷ is_draft ∷ schedule
    ∷ schedule_failures ∷ schedule_until ∷ schedule_resultset_size ∷ options ∷ tags ∷ []

-- `attr.key`
abbrev pub attribute_key : Column → String
attribute_key org_id = "org_id"
attribute_key data_source_id = "data_source_id"
attribute_key latest_query_data_id = "latest_query_data_id"
attribute_key name = "name"
attribute_key description = "description"
attribute_key query_text = "query_text"
attribute_key query_hash = "query_hash"
attribute_key api_key = "api_key"
attribute_key user_id = "user_id"
attribute_key last_modified_by_id = "last_modified_by_id"
attribute_key is_archived = "is_archived"
attribute_key is_draft = "is_draft"
attribute_key schedule = "schedule"
attribute_key schedule_failures = "schedule_failures"
attribute_key schedule_until = "schedule_until"
attribute_key schedule_resultset_size = "schedule_resultset_size"
attribute_key options = "options"
attribute_key tags = "tags"

-- `col.name`, which differs from the key for one attribute.
abbrev pub column_name : Column → String
column_name query_text = "query"
column_name c = attribute_key c

abbrev pub maybe : {A : Type 0} → (A → Value) → Option A → Value
maybe f none = null
maybe f (some a) = f a

-- `getattr(self, key)`
abbrev pub get_attribute : Column → Query → Value
get_attribute org_id q = number q.org_id
get_attribute data_source_id q = maybe number q.data_source_id
get_attribute latest_query_data_id q = maybe number q.latest_query_data_id
get_attribute name q = text q.name
get_attribute description q = maybe text q.description
get_attribute query_text q = text q.query_text
get_attribute query_hash q = text q.query_hash
get_attribute api_key q = text q.api_key
get_attribute user_id q = number q.user_id
get_attribute last_modified_by_id q = maybe number q.last_modified_by_id
get_attribute is_archived q = flag q.is_archived
get_attribute is_draft q = flag q.is_draft
get_attribute schedule q = maybe chars q.schedule
get_attribute schedule_failures q = number q.schedule_failures
get_attribute schedule_until q = maybe number q.schedule_until
get_attribute schedule_resultset_size q = maybe number q.schedule_resultset_size
get_attribute options q = text q.options
get_attribute tags q = maybe texts q.tags

-- A query with `_clean_values`: a key that is missing here has None there.
pub record Tracked : Type 0 where
  pub row : Query
  pub clean : Assoc String Value

-- A query of which no attribute was assigned: `prep_cleanvalues`.
abbrev pub untouched : Query → Tracked
untouched q = record { row = q; clean = [] }

-- ChangeTrackingMixin.__setattr__, with what the assignment does to the row.
unfoldable pub set_attribute : Column → (Query → Query) → Tracked → Tracked
set_attribute c f t = record {
  row = f t.row;
  clean = insert (attribute_key c) (get_attribute c t.row) t.clean;
}

-- What the client assigns to a query: any column but those that QueryResource.post takes out (id, created_at,
-- api_key). `version` is not here, as the one value it can have is the row's, nor `updated_at`, which the rows leave
-- out. The values have the columns' types, and the rows they name are there.
pub data Assignment : Type 0 where
  set_name : String → Assignment
  set_description : Option String → Assignment
  set_query_text : String → Assignment
  set_data_source_id : Option ℕ → Assignment
  set_schedule : Option (List ℕ) → Assignment
  set_schedule_until : Option ℕ → Assignment
  set_schedule_resultset_size : Option ℕ → Assignment
  set_options : String → Assignment
  set_tags : Option (List String) → Assignment
  set_is_draft : Bool → Assignment
  set_is_archived : Bool → Assignment
  set_org_id : ℕ → Assignment
  set_user_id : ℕ → Assignment
  set_last_modified_by_id : Option ℕ → Assignment
  set_latest_query_data_id : Option ℕ → Assignment
  set_query_hash : String → Assignment
  set_schedule_failures : ℕ → Assignment

module _ (hash : String → String) where
  -- `setattr(model, k, v)`. Setting the text fires the listener `gen_query_hash` before the text is set.
  unfoldable pub assign : Assignment → Tracked → Tracked
  unfolding set_attribute
  assign (set_name v) t = set_attribute name (λ q. record q { name = v }) t
  assign (set_description v) t = set_attribute description (λ q. record q { description = v }) t
  assign (set_query_text v) t =
      let t₁ = record t {
        clean = insert (attribute_key query_text) (get_attribute query_text t.row) t.clean;
      } in
      let t₂ = set_attribute query_hash (λ q. record q { query_hash = hash v }) t₁ in
      let t₃ = set_attribute schedule_failures (λ q. record q { schedule_failures = 0 }) t₂ in
      record t₃ { row = record t₃.row { query_text = v } }
  assign (set_data_source_id v) t =
      set_attribute data_source_id (λ q. record q { data_source_id = v }) t
  assign (set_schedule v) t = set_attribute schedule (λ q. record q { schedule = v }) t
  assign (set_schedule_until v) t =
      set_attribute schedule_until (λ q. record q { schedule_until = v }) t
  assign (set_schedule_resultset_size v) t =
      set_attribute schedule_resultset_size (λ q. record q { schedule_resultset_size = v }) t
  assign (set_options v) t = set_attribute options (λ q. record q { options = v }) t
  assign (set_tags v) t = set_attribute tags (λ q. record q { tags = v }) t
  assign (set_is_draft v) t = set_attribute is_draft (λ q. record q { is_draft = v }) t
  assign (set_is_archived v) t = set_attribute is_archived (λ q. record q { is_archived = v }) t
  assign (set_org_id v) t = set_attribute org_id (λ q. record q { org_id = v }) t
  assign (set_user_id v) t = set_attribute user_id (λ q. record q { user_id = v }) t
  assign (set_last_modified_by_id v) t =
      set_attribute last_modified_by_id (λ q. record q { last_modified_by_id = v }) t
  assign (set_latest_query_data_id v) t =
      set_attribute latest_query_data_id (λ q. record q { latest_query_data_id = v }) t
  assign (set_query_hash v) t = set_attribute query_hash (λ q. record q { query_hash = v }) t
  assign (set_schedule_failures v) t =
      set_attribute schedule_failures (λ q. record q { schedule_failures = v }) t

  -- BaseResource.update_model
  unfoldable pub update_model : List Assignment → Tracked → Tracked
  unfolding assign
  update_model [] t = t
  update_model (a ∷ rest) t = update_model rest (assign a t)

-- Equality of values as Python's `==`.
abbrev pub value_eq : Value → Value → Bool
value_eq null null = true
value_eq (number m) (number n) = m == n
value_eq (flag true) (flag b) = b
value_eq (flag false) (flag b) = not b
value_eq (text s) (text t) = s == t
value_eq (texts s) (texts t) = s == t
value_eq (chars s) (chars t) = s == t
value_eq _ _ = false

-- `self._clean_values[col.name]`
abbrev pub previous : Column → Tracked → Value
previous c t = elim (lookup (column_name c) t.clean) [ none ↦ null | some v ↦ v ]

-- The loop of `record_changes`.
unfoldable pub changes_of : List Column → Tracked → Assoc String (Value × Value)
changes_of [] t = []
changes_of (c ∷ cs) t =
    let rest = changes_of cs t in
    let current = get_attribute c t.row in
    if value_eq (previous c t) current
    then rest
    else (column_name c, (previous c t, current)) ∷ rest

-- `if changes:` the version goes up and a row is added.
unfoldable pub add_change : Query → ℕ → Assoc String (Value × Value) → Db → Db
add_change q changed_by [] db = db
add_change q changed_by (c ∷ cs) db = record db {
  queries = update (λ r. r.id == q.id) (λ r. record r { version = suc r.version }) db.queries;
  changes =
      db.changes
      ++ record {
        id = db.next_id;
        object_type = "queries";
        object_id = q.id;
        object_version = suc q.version;
        user_id = changed_by;
        change = c ∷ cs;
      }
        ∷ [];
  next_id = suc db.next_id;
}

-- `db.session.flush()`: the row as it was assigned is written.
unfoldable pub flush_row : Query → Db → Db
flush_row q db = record db { queries = update (λ r. r.id == q.id) (λ r. q) db.queries }

-- ChangeTrackingMixin.record_changes
unfoldable pub record_changes : Tracked → ℕ → Db → Db
unfolding flush_row changes_of add_change
record_changes t changed_by db =
    add_change t.row changed_by (changes_of columns t) (flush_row t.row db)
