-- ===== src/Runner/Sheets.antt =====
-- The worksheets of redash/query_runner/google_spreadsheets.py. A cell is a text; `col_name` is xl_col_to_name,
-- `reads_int`, `reads_float` and `is_datetime` tell the texts that `int`, `float` and `dateutil.parser.parse` read,
-- `lower` is Python's `lower()`.
pub mod Rows
use redash.Prelude.{
  ℕ, zero, suc, ◌+◌, ◌-◌, ◌*◌, ◌/◌, ◌%◌, ◌^◌, ◌≤◌, ◌<◌, min, max, String, ◌≡◌, refl, sym, ap, ◌∙◌,
  subst, ◌≢◌, ◌↔◌, ◌⊎◌, inl, inr, Bool, true, false, ◌&&◌, ◌||◌, not, Option, none, some, List, [],
  ◌∷◌, ◌++◌, map, arith, ltb, leb, nat_beq, if◌then◌else◌, ltb→lt, lt→ltb, leb→le, nat_beq_iff,
  tests, Eq, ◌==◌, nat_eq, string_eq, list_eq, option_eq, list_beq_iff, option_beq_iff, Bool-cases,
  Option-cases, is_some, length, take, drop, select, find, any, all, length-append,
  length-select-le, any-append, contains, contains-append, reject, update, option_all-find,
  insert_by, sort_by, any-sort_by, any-select, pair_eq, pair_beq_iff, option_all, any-reject_self,
  length-update, without_first, count, count-without_first, count-without_first_ne, contains-eq-ltb,
  Assoc, lookup, insert, remove, lookup-insert, lookup-remove, printed, concat, all-append, any_ext,
  select_ext, find-update,
}
use redash.Prelude.Decimal.{decimal}
use redash.Runner.{Column}
use redash.Runner.QueryResults.{guess_text}

-- 'column_'
abbrev column_word : List ℕ
column_word = b'c' ∷ b'o' ∷ b'l' ∷ b'u' ∷ b'm' ∷ b'n' ∷ b'_' ∷ []

-- A value of a row; a number and a time keep the text that was read.
pub data SheetValue : Type 0 where
  absent : SheetValue
  truth : Bool → SheetValue
  time real whole string : List ℕ → SheetValue

-- `data`: the columns and the rows.
pub record Sheet : Type 0 where
  pub columns : List Column
  pub rows : List (Assoc (List ℕ) SheetValue)

abbrev or_numbered : (ℕ → List ℕ) → ℕ → List ℕ → List ℕ
or_numbered col_name i [] = column_word ++ col_name i
or_numbered col_name i (c ∷ name) = c ∷ name

module _ (col_name : ℕ → List ℕ) where
  -- The loop of `_get_columns_and_column_names`: the number of the column, the names so far, the counter of
  -- duplicates.
  unfoldable pub columns_from : ℕ → List (List ℕ) → ℕ → List (List ℕ) → List Column
  columns_from i column_names duplicate_counter [] = []
  columns_from i column_names duplicate_counter (cell ∷ row) =
      let given = or_numbered col_name i cell in
      let name =
        if contains column_names given then given ++ decimal duplicate_counter else given in
      let counter =
        if contains column_names given then duplicate_counter + 1 else duplicate_counter in
      record { name = name; friendly_name = name; type = some "string" }
      ∷ columns_from (suc i) (column_names ++ name ∷ []) counter row

  unfoldable pub get_columns : List (List ℕ) → List Column
  unfolding columns_from
  get_columns row = columns_from 0 [] 1 row

-- The types that the second row of the worksheet gives; `none` is an IndexError, in a row that is longer than the header.
unfoldable pub guess_types : (List ℕ → String) → List Column → List (List ℕ) → Option (List Column)
guess_types guess columns [] = some columns
guess_types guess [] (cell ∷ row) = none
guess_types guess (c ∷ columns) (cell ∷ row) =
    let rest = guess_types guess columns row in
    elim rest [ none ↦ none | some typed ↦ some (record c { type = some (guess cell) } ∷ typed) ]

abbrev true_word : List ℕ
true_word = b't' ∷ b'r' ∷ b'u' ∷ b'e' ∷ []

-- `dict(zip(column_names, values))`
unfoldable pub zip_dict :
    List (List ℕ) → List SheetValue → Assoc (List ℕ) SheetValue → Assoc (List ℕ) SheetValue
zip_dict [] values d = d
zip_dict (n ∷ names) [] d = d
zip_dict (n ∷ names) (v ∷ values) d = zip_dict names values (insert n v d)

module _ (reads_int reads_float is_datetime : List ℕ → Bool) (lower : List ℕ → List ℕ) where
  -- `_guess_type`
  unfoldable pub guess_type : List ℕ → String
  unfolding guess_text
  guess_type [] = "string"
  guess_type (c ∷ s) =
      if reads_int (c ∷ s)
      then "integer"
      else if reads_float (c ∷ s)
      then "float"
      else guess_text lower is_datetime (c ∷ s)

  -- The body of the loop of `_value_eval_list`: a cell that its type cannot read stays a text.
  unfoldable pub value_of : String → List ℕ → SheetValue
  value_of type [] = absent
  value_of type (c ∷ s) =
      if type == "boolean"
      then truth (lower (c ∷ s) == true_word)
      else if type == "datetime"
      then (if is_datetime (c ∷ s) then time (c ∷ s) else string (c ∷ s))
      else if type == "float"
      then (if reads_float (c ∷ s) then real (c ∷ s) else string (c ∷ s))
      else if type == "integer"
      then (if reads_int (c ∷ s) then whole (c ∷ s) else string (c ∷ s))
      else string (c ∷ s)

  abbrev type_or_string : Option String → String
  type_or_string none = "string"
  type_or_string (some t) = t

  -- `_value_eval_list` over the columns' types.
  unfoldable pub value_eval_list : List (List ℕ) → List Column → List SheetValue
  unfolding value_of
  value_eval_list [] columns = []
  value_eval_list (cell ∷ row) [] = []
  value_eval_list (cell ∷ row) (c ∷ columns) =
      value_of (type_or_string c.type) cell ∷ value_eval_list row columns

  unfoldable pub sheet_row : List Column → List (List ℕ) → Assoc (List ℕ) SheetValue
  unfolding value_eval_list zip_dict
  sheet_row columns row =
      zip_dict (map (λ (c : Column). c.name) columns) (value_eval_list row columns) []

  -- `parse_worksheet`
  unfoldable pub parse_worksheet : (ℕ → List ℕ) → List (List (List ℕ)) → Option Sheet
  unfolding sheet_row get_columns guess_types guess_type
  parse_worksheet col_name [] = some (record { columns = []; rows = [] })
  parse_worksheet col_name (header ∷ []) =
      some (record { columns = get_columns col_name header; rows = [] })
  parse_worksheet col_name (header ∷ first ∷ rest) =
      elim (guess_types guess_type (get_columns col_name header) first) [
        | none ↦ none
        | some columns ↦
            some (record { columns = columns; rows = map (sheet_row columns) (first ∷ rest) })
      ]
