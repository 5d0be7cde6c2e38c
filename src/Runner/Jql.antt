-- ===== src/Runner/Jql.antt =====
-- redash/query_runner/jql.py: the rows that are made of the issues of JIRA's answer. `V` are the values of its JSON that
-- are kept as they are; `join` is `','.join`, which fails on a value that is no text.
pub mod Issues
use redash.Prelude.{
  ℕ, zero, suc, ◌+◌, ◌-◌, ◌*◌, ◌/◌, ◌%◌, ◌^◌, ◌≤◌, ◌<◌, min, max, String, ◌≡◌, refl, sym, ap, ◌∙◌,
  subst, ◌≢◌, ◌↔◌, ◌⊎◌, inl, inr, Bool, true, false, ◌&&◌, ◌||◌, not, Option, none, some, List, [],
  ◌∷◌, ◌++◌, map, arith, ltb, leb, nat_beq, if◌then◌else◌, ltb→lt, lt→ltb, leb→le, nat_beq_iff,
  tests, Eq, ◌==◌, nat_eq, string_eq, list_eq, option_eq, list_beq_iff, option_beq_iff, Bool-cases,
  Option-cases, is_some, length, take, drop, select, find, any, all, length-append,
  length-select-le, any-append, contains, contains-append, reject, update, option_all-find,
  insert_by, sort_by, any-sort_by, any-select, pair_eq, pair_beq_iff, option_all, any-reject_self,
  length-update, without_first, count, count-without_first, count-without_first_ne, contains-eq-ltb,
  Assoc, lookup, insert, remove, lookup-insert, lookup-remove, printed, concat, all-append, any_ext,
  select_ext, find-update,
}
use redash.Runner.{Column}
use redash.Runner.Shapes.{add_column}

-- An entry of FieldMapping.mapping.
pub record MappingItem : Type 0 where
  pub field_name : List ℕ
  pub member_name : Option (List ℕ)
  pub output_field_name : List ℕ

-- FieldMapping.get_output_field_name
unfoldable pub get_output_field_name : List MappingItem → List ℕ → List ℕ
get_output_field_name [] field_name = field_name
get_output_field_name (item ∷ mapping) field_name =
    let rest = get_output_field_name mapping field_name in
    if item.field_name == field_name && not (is_some item.member_name)
    then item.output_field_name
    else rest

-- FieldMapping.get_dict_members
unfoldable pub get_dict_members : List MappingItem → List ℕ → List (List ℕ)
get_dict_members [] field_name = []
get_dict_members (item ∷ mapping) field_name =
    let rest = get_dict_members mapping field_name in
    if item.field_name == field_name
    then elim item.member_name [ none ↦ rest | some m ↦ m ∷ rest ]
    else rest

-- FieldMapping.get_dict_output_field_name
unfoldable pub get_dict_output_field_name : List MappingItem → List ℕ → List ℕ → Option (List ℕ)
get_dict_output_field_name [] field_name member_name = none
get_dict_output_field_name (item ∷ mapping) field_name member_name =
    let rest = get_dict_output_field_name mapping field_name member_name in
    if item.field_name == field_name && item.member_name == some member_name
    then some item.output_field_name
    else rest

-- An item of a list, and the value of a field.
pub data Item (V : Type 0) : Type 0 where
  dict_item : Assoc (List ℕ) V → Item V
  plain_item : V → Item V

pub data FieldValue (V : Type 0) : Type 0 where
  dict : Assoc (List ℕ) V → FieldValue V
  list : List (Item V) → FieldValue V
  plain : V → FieldValue V

pub record Issue (V : Type 0) : Type 0 where
  pub key : V
  pub fields : Assoc (List ℕ) (FieldValue V)

abbrev key_name : List ℕ
key_name = b'k' ∷ b'e' ∷ b'y' ∷ []

abbrev name_name : List ℕ
name_name = b'n' ∷ b'a' ∷ b'm' ∷ b'e' ∷ []

-- 'watchCount'
abbrev watch_count : List ℕ
watch_count = b'w' ∷ b'a' ∷ b't' ∷ b'c' ∷ b'h' ∷ b'C' ∷ b'o' ∷ b'u' ∷ b'n' ∷ b't' ∷ []

-- ResultSet: the columns, an OrderedDict by name, and the rows.
pub record ResultSet (V : Type 0) : Type 0 where
  pub columns : List Column
  pub rows : List (Assoc (List ℕ) V)

abbrev pub Row : Type 0 → Type 0
Row V = Assoc (List ℕ) V

-- An output name is found for each of the members, which the mapping itself names.
abbrev pub output_or : Option (List ℕ) → List ℕ → List ℕ
output_or none member = member
output_or (some output) member = output

module _ {V : Type 0} where
  -- `if member in v: result[output] = v[member]`
  unfoldable pub copy_member : Assoc (List ℕ) V → List ℕ → List ℕ → Row V → Row V
  copy_member v member output result = elim (lookup member v) [
    | none ↦ result
    | some x ↦ insert output x result
  ]

  unfoldable pub copy_members :
      List MappingItem → List ℕ → Assoc (List ℕ) V → List (List ℕ) → Row V → Row V
  unfolding copy_member
  copy_members mapping k v [] result = result
  copy_members mapping k v (m ∷ members) result =
      copy_members mapping k v members
        (copy_member v m (output_or (get_dict_output_field_name mapping k m) m) result)

  -- The rules that are kept for backwards compatibility.
  unfoldable pub copy_known : List ℕ → List ℕ → Assoc (List ℕ) V → Row V → Row V
  unfolding copy_member
  copy_known k output v result = copy_member v watch_count output (
      copy_member v k output (
        copy_member v name_name (output ++ b'_' ∷ name_name)
          (copy_member v key_name (output ++ b'_' ∷ key_name) result)))

  -- `[item[member] for item in v if isinstance(item, dict) and member in item]`
  unfoldable pub member_values : List ℕ → List (Item V) → List V
  member_values member [] = []
  member_values member (plain_item x ∷ v) = member_values member v
  member_values member (dict_item d ∷ v) =
      let rest = member_values member v in
      elim (lookup member d) [ none ↦ rest | some x ↦ x ∷ rest ]

  -- The items that are no dictionaries.
  unfoldable pub plain_values : List (Item V) → List V
  plain_values [] = []
  plain_values (plain_item x ∷ v) = x ∷ plain_values v
  plain_values (dict_item d ∷ v) = plain_values v

  module _ (join : List V → Option V) where
    -- `if len(listValues) > 0: result[output] = ','.join(listValues)`
    unfoldable pub put_joined : List ℕ → List V → Row V → Option (Row V)
    put_joined output [] result = some result
    put_joined output (x ∷ values) result = elim (join (x ∷ values)) [
      | none ↦ none
      | some v ↦ some (insert output v result)
    ]

    unfoldable pub join_members :
        List MappingItem → List ℕ → List (Item V) → List (List ℕ) → Row V → Option (Row V)
    unfolding member_values put_joined
    join_members mapping k v [] result = some result
    join_members mapping k v (m ∷ members) result =
        elim (put_joined (output_or (get_dict_output_field_name mapping k m) m) (member_values m v)
          result) [ none ↦ none | some result' ↦ join_members mapping k v members result' ]

    abbrev pub has_members : List (List ℕ) → Bool
    has_members [] = false
    has_members (_ ∷ _) = true

    -- The loop's body.
    unfoldable pub parse_field : List MappingItem → List ℕ → FieldValue V → Row V → Option (Row V)
    unfolding copy_members copy_known join_members plain_values
    parse_field mapping k (dict v) result =
        if has_members (get_dict_members mapping k)
        then some (copy_members mapping k v (get_dict_members mapping k) result)
        else some (copy_known k (get_output_field_name mapping k) v result)
    parse_field mapping k (list v) result =
        if has_members (get_dict_members mapping k)
        then join_members mapping k v (get_dict_members mapping k) result
        else put_joined (get_output_field_name mapping k) (plain_values v) result
    parse_field mapping k (plain v) result =
        some (insert (get_output_field_name mapping k) v result)

    unfoldable pub parse_fields :
        List MappingItem → Assoc (List ℕ) (FieldValue V) → Row V → Option (Row V)
    unfolding parse_field
    parse_fields mapping [] result = some result
    parse_fields mapping ((k, v) ∷ fields) result = elim (parse_field mapping k v result) [
      | none ↦ none
      | some result' ↦ parse_fields mapping fields result'
    ]

    unfoldable pub parse_issue : List MappingItem → Issue V → Option (Row V)
    unfolding parse_fields
    parse_issue mapping issue = parse_fields mapping issue.fields ((key_name, issue.key) ∷ [])

  -- ResultSet.add_row
  unfoldable pub add_columns : Row V → List Column → List Column
  add_columns [] columns = columns
  add_columns ((key, v) ∷ row) columns = add_columns row (add_column key "string" columns)

  unfoldable pub add_row : Row V → ResultSet V → ResultSet V
  unfolding add_columns
  add_row row results = record {
    columns = add_columns row results.columns;
    rows = results.rows ++ row ∷ [];
  }

  unfoldable pub parse_issues :
      (List V → Option V) → List MappingItem → List (Issue V) → ResultSet V → Option (ResultSet V)
  unfolding parse_issue add_row
  parse_issues join mapping [] results = some results
  parse_issues join mapping (issue ∷ issues) results = elim (parse_issue join mapping issue) [
    | none ↦ none
    | some row ↦ parse_issues join mapping issues (add_row row results)
  ]

  -- `ResultSet()`
  abbrev pub no_results : ResultSet V
  no_results = record { columns = []; rows = [] }

  -- 'count'
  unfoldable pub parse_count : V → ResultSet V
  unfolding add_row
  parse_count total = add_row ((b'c' ∷ b'o' ∷ b'u' ∷ b'n' ∷ b't' ∷ [], total) ∷ []) no_results
