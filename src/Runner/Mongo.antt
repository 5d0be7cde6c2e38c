-- ===== src/Runner/Mongo.antt =====
-- parse_results of redash/query_runner/mongodb.py, and the columns of MongoDB.run_query. `V` are the values of
-- documents, `python_type` tells their types.
pub mod Parsed
use redash.Prelude.{
  ℕ, zero, suc, ◌+◌, ◌-◌, ◌*◌, ◌/◌, ◌%◌, ◌^◌, ◌≤◌, ◌<◌, min, max, String, ◌≡◌, refl, sym, ap, ◌∙◌,
  subst, ◌≢◌, ◌↔◌, ◌⊎◌, inl, inr, Bool, true, false, ◌&&◌, ◌||◌, not, Option, none, some, List, [],
  ◌∷◌, ◌++◌, map, arith, ltb, leb, nat_beq, if◌then◌else◌, ltb→lt, lt→ltb, leb→le, nat_beq_iff,
  tests, Eq, ◌==◌, nat_eq, string_eq, list_eq, option_eq, list_beq_iff, option_beq_iff, Bool-cases,
  Option-cases, is_some, length, take, drop, select, find, any, all, length-append,
  length-select-le, any-append, contains, contains-append, reject, update, option_all-find,
  insert_by, sort_by, any-sort_by, any-select, pair_eq, pair_beq_iff, option_all, any-reject_self,
  length-update, without_first, count, count-without_first, count-without_first_ne, contains-eq-ltb,
  Assoc, lookup, insert, remove, lookup-insert, lookup-remove, printed, concat, all-append, any_ext,
  select_ext, find-update,
}
use redash.Runner.{Column}
use redash.Runner.Shapes.{add_column}

-- The types that TYPES_MAP knows, and any other.
pub data PythonType : Type 0 where
  str unicode int long float bool datetime other : PythonType

-- `TYPES_MAP.get(type(value), TYPE_STRING)`
unfoldable pub types_map : PythonType → String
types_map str = "string"
types_map unicode = "string"
types_map int = "integer"
types_map long = "integer"
types_map float = "float"
types_map bool = "boolean"
types_map datetime = "datetime"
types_map other = "string"

-- A field of a document: a `dict`, whose fields become columns, or another value.
pub data Field (V : Type 0) : Type 0 where
  embedded : Assoc (List ℕ) V → Field V
  plain : V → Field V

abbrev pub Document : Type 0 → Type 0
Document V = Assoc (List ℕ) (Field V)

-- `'{}.{}'.format(key, inner_key)`
abbrev pub dotted : List ℕ → List ℕ → List ℕ
dotted key inner_key = key ++ b'.' ∷ inner_key

module _ {V : Type 0} (python_type : V → PythonType) where
  -- The columns so far, and the row that is parsed.
  abbrev pub Parsing : Type 0
  Parsing = List Column × Assoc (List ℕ) V

  unfoldable pub parse_value : List ℕ → V → Parsing → Parsing
  unfolding types_map
  parse_value name v (columns, row) =
      (add_column name (types_map (python_type v)) columns, insert name v row)

  unfoldable pub parse_embedded : List ℕ → Assoc (List ℕ) V → Parsing → Parsing
  unfolding parse_value
  parse_embedded key [] s = s
  parse_embedded key ((inner_key, v) ∷ rest) s =
      parse_embedded key rest (parse_value (dotted key inner_key) v s)

  unfoldable pub parse_field : List ℕ → Field V → Parsing → Parsing
  unfolding parse_embedded
  parse_field key (embedded d) s = parse_embedded key d s
  parse_field key (plain v) s = parse_value key v s

  unfoldable pub parse_document : Document V → Parsing → Parsing
  unfolding parse_field
  parse_document [] s = s
  parse_document ((key, f) ∷ rest) s = parse_document rest (parse_field key f s)

  -- The outer loop, with the columns so far: the rows, and the columns at the end.
  unfoldable pub parse_from :
      List (Document V) → List Column → List (Assoc (List ℕ) V) × List Column
  unfolding parse_document
  parse_from [] columns = ([], columns)
  parse_from (d ∷ results) columns =
      let (columns', row) = parse_document d (columns, []) in
      let (rows, end) = parse_from results columns' in (row ∷ rows, end)

  unfoldable pub parse_results : List (Document V) → List (Assoc (List ℕ) V) × List Column
  unfolding parse_from
  parse_results results = parse_from results []

-- `_get_column_by_name`
unfoldable pub get_column_by_name : List Column → List ℕ → Option Column
get_column_by_name columns name = find (λ c. c.name == name) columns

-- The columns in the order of the `fields` that the query asks for, `keys` being sorted by their values.
unfoldable pub ordered_columns : List Column → List (List ℕ) → List Column
unfolding get_column_by_name
ordered_columns columns [] = []
ordered_columns columns (k ∷ keys) =
    let rest = ordered_columns columns keys in
    elim (get_column_by_name columns k) [ none ↦ rest | some c ↦ c ∷ rest ]
