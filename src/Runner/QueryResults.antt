-- ===== src/Runner/QueryResults.antt =====
-- redash/query_runner/query_results.py, the runner whose queries read the results of other queries: which queries it
-- loads, what it puts into the tables, and the types that it guesses. A text is the list of its characters;
-- `is_datetime` tells the texts that `dateutil.parser.parse` reads, `lower` is Python's `lower()`.
pub mod Types
pub mod Ids
pub mod Loaded
use redash.Prelude.{
  ℕ, zero, suc, ◌+◌, ◌-◌, ◌*◌, ◌/◌, ◌%◌, ◌^◌, ◌≤◌, ◌<◌, min, max, String, ◌≡◌, refl, sym, ap, ◌∙◌,
  subst, ◌≢◌, ◌↔◌, ◌⊎◌, inl, inr, Bool, true, false, ◌&&◌, ◌||◌, not, Option, none, some, List, [],
  ◌∷◌, ◌++◌, map, arith, ltb, leb, nat_beq, if◌then◌else◌, ltb→lt, lt→ltb, leb→le, nat_beq_iff,
  tests, Eq, ◌==◌, nat_eq, string_eq, list_eq, option_eq, list_beq_iff, option_beq_iff, Bool-cases,
  Option-cases, is_some, length, take, drop, select, find, any, all, length-append,
  length-select-le, any-append, contains, contains-append, reject, update, option_all-find,
  insert_by, sort_by, any-sort_by, any-select, pair_eq, pair_beq_iff, option_all, any-reject_self,
  length-update, without_first, count, count-without_first, count-without_first_ne, contains-eq-ltb,
  Assoc, lookup, insert, remove, lookup-insert, lookup-remove, printed, concat, all-append, any_ext,
  select_ext, find-update,
}
use redash.Prelude.Decimal.{value, is_digit, decimal}
use redash.Tables.{DataSource, Query, Db}
use redash.Permissions.{Viewer, has_access, data_source_groups}
use redash.Handler.{Result, ok, err, Failure, no_result, exception}
use redash.Runner.{Column, fetch_columns}

-- A value of SQLite.
pub data Cell : Type 0 where
  null : Cell
  integer : ℕ → Cell
  real : String → Cell
  text : List ℕ → Cell

module _ (lower : List ℕ → List ℕ) (is_datetime : List ℕ → Bool) where
  -- `_guess_type` of a text that is not empty: 'true' and 'false', then what reads as a time.
  unfoldable pub guess_text : List ℕ → String
  guess_text s =
      let l = lower s in
      if l == b't' ∷ b'r' ∷ b'u' ∷ b'e' ∷ [] || l == b'f' ∷ b'a' ∷ b'l' ∷ b's' ∷ b'e' ∷ []
      then "boolean"
      else if is_datetime s
      then "datetime"
      else "string"

  unfoldable pub guess_type : Cell → String
  unfolding guess_text
  guess_type null = "string"
  guess_type (integer n) = "integer"
  guess_type (real s) = "float"
  guess_type (text []) = "string"
  guess_type (text (c ∷ s)) = guess_text (c ∷ s)

  -- What the loop does to `columns[j]['type']`.
  unfoldable pub merge_type : Option String → String → Option String
  merge_type none guess = some guess
  merge_type (some t) guess = if t == guess then some t else some "string"

  -- One row; a row of SQLite has as many values as the result has columns.
  unfoldable pub note_row : List Column → List Cell → List Column
  unfolding merge_type guess_type
  note_row [] values = []
  note_row (c ∷ columns) [] = c ∷ columns
  note_row (c ∷ columns) (v ∷ values) =
      record c { type = merge_type c.type (guess_type v) } ∷ note_row columns values

  unfoldable pub note_rows : List Column → List (List Cell) → List Column
  unfolding note_row
  note_rows columns [] = columns
  note_rows columns (row ∷ rows) = note_rows (note_row columns row) rows

  -- `dict(zip(column_names, row))`
  unfoldable pub row_dict : List (List ℕ) → List Cell → Assoc (List ℕ) Cell → Assoc (List ℕ) Cell
  row_dict [] values d = d
  row_dict (n ∷ names) [] d = d
  row_dict (n ∷ names) (v ∷ values) d = row_dict names values (insert n v d)

  pub record Data : Type 0 where
    pub columns : List Column
    pub rows : List (Assoc (List ℕ) Cell)

  -- `Results.run_query` on what the cursor gives: its description and its rows.
  unfoldable pub run_query : List (List ℕ) → List (List Cell) → Data
  unfolding note_rows row_dict
  run_query description cursor =
      let columns = fetch_columns (map (λ n. (n, none)) description) in
      record {
        columns = note_rows columns cursor;
        rows = map (λ row. row_dict (map (λ (c : Column). c.name) columns) row []) cursor;
      }

-- `name.replace(':', '_').replace('.', '_').replace(' ', '_')`
unfoldable pub fix_column_name : List ℕ → List ℕ
fix_column_name name = map (λ c. if c == b':' || (c == b'.' || c == b' ') then b'_' else c) name

-- The values that `create_table` inserts for a row: `row.get(column)`.
unfoldable pub table_values : List (List ℕ) → Assoc (List ℕ) Cell → List Cell
table_values columns row =
    map (λ column. elim (lookup column row) [ none ↦ null | some v ↦ v ]) columns

-- The characters of \s, and a letter in either case.
abbrev is_space : ℕ → Bool
is_space c = c == 32 || leb 9 c && leb c 13

abbrev same_letter : ℕ → ℕ → Bool
same_letter p c = c == p || leb 97 p && (leb p 122 && c == p - 32)

-- What follows `word`, in either case, if the text begins with it.
unfoldable pub after_word : List ℕ → List ℕ → Option (List ℕ)
after_word [] s = some s
after_word (p ∷ ps) [] = none
after_word (p ∷ ps) (c ∷ s) = let rest = after_word ps s in if same_letter p c then rest else none

unfoldable pub after_spaces : List ℕ → List ℕ
after_spaces [] = []
after_spaces (c ∷ s) = let rest = after_spaces s in if is_space c then rest else c ∷ s

-- The digits at the beginning.
unfoldable pub leading_digits : List ℕ → List ℕ
leading_digits [] = []
leading_digits (c ∷ s) = let rest = leading_digits s in if is_digit c then c ∷ rest else []

abbrev pub query_word : List ℕ
query_word = b'q' ∷ b'u' ∷ b'e' ∷ b'r' ∷ b'y' ∷ b'_' ∷ []

abbrev number_of : List ℕ → Option ℕ
number_of [] = none
number_of (d ∷ ds) = some (value 0 (d ∷ ds))

-- `\s+query_(\d+)`
unfoldable pub match_table : List ℕ → Option ℕ
unfolding after_word after_spaces leading_digits
match_table [] = none
match_table (c ∷ s) =
    if is_space c
    then elim (after_word query_word (after_spaces s)) [
      | none ↦ none
      | some rest ↦ number_of (leading_digits rest)
    ]
    else none

-- The whole pattern, `(?:join|from)\s+query_(\d+)`, at the beginning of the text.
unfoldable pub match_at : List ℕ → Option ℕ
unfolding match_table
match_at s = elim (after_word (b'j' ∷ b'o' ∷ b'i' ∷ b'n' ∷ []) s) [
  | some rest ↦ match_table rest
  | none ↦ elim (after_word (b'f' ∷ b'r' ∷ b'o' ∷ b'm' ∷ []) s) [
    | some rest ↦ match_table rest
    | none ↦ none
  ]
]

abbrev pub prepend : Option ℕ → List ℕ → List ℕ
prepend none ids = ids
prepend (some id) ids = id ∷ ids

-- `re.findall`: no match begins inside another, since none of its letters but the first begins one.
unfoldable pub extract_query_ids : List ℕ → List ℕ
unfolding match_at
extract_query_ids [] = []
extract_query_ids (c ∷ s) = prepend (match_at (c ∷ s)) (extract_query_ids s)

-- `_load_query`; a query without a data source has no groups to ask (AttributeError).
unfoldable pub load_query : Viewer → ℕ → ℕ → Db → Result Query
load_query u org id db = elim (find (λ q. q.id == id) db.queries) [
  | none ↦ err no_result
  | some q ↦
      if q.org_id == org
      then elim q.data_source_id [
        | none ↦ err exception
        | some ds ↦
            if has_access (data_source_groups db.data_source_groups ds) u false
            then ok q
            else err exception
      ]
      else err exception
]

-- What a run of a query gives: its columns' names and its rows, or an error.
pub record Table : Type 0 where
  pub columns : List (List ℕ)
  pub rows : List (Assoc (List ℕ) Cell)

-- A table of the connection: its name, its columns and its rows of values.
pub record Created : Type 0 where
  pub name : List ℕ
  pub columns : List (List ℕ)
  pub values : List (List Cell)

unfoldable pub create_table : List ℕ → Table → Created
unfolding table_values fix_column_name
create_table name results = record {
  name = name;
  columns = map fix_column_name results.columns;
  values = map (table_values results.columns) results.rows;
}

abbrev and_then : {A B : Type 0} → Result A → (A → Result B) → Result B
and_then (ok a) f = f a
and_then (err e) f = err e

-- `create_tables_from_query_ids` over the ids, each once; `run` is the runner of the query's data source.
unfoldable pub create_tables :
    (Query → Option Table) → Viewer → ℕ → List ℕ → Db → Result (List (Query × Created))
unfolding load_query create_table
create_tables run u org [] db = ok []
create_tables run u org (id ∷ ids) db =
    let rest = create_tables run u org ids db in
    and_then (load_query u org id db) λ q. elim (run q) [
      | none ↦ err exception
      | some results ↦
          and_then rest λ tables. ok ((q, create_table (query_word ++ decimal id) results) ∷ tables)
    ]
