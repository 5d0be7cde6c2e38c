-- ===== src/Runner.antt =====
-- `BaseQueryRunner.fetch_columns` of redash/query_runner/__init__.py. A name is the list of its characters.
pub mod Columns
pub mod QueryResults
pub mod Shapes
pub mod Mongo
pub mod Sheets
pub mod Base
pub mod Influx
pub mod Jql
use redash.Prelude.{
  ℕ, zero, suc, ◌+◌, ◌-◌, ◌*◌, ◌/◌, ◌%◌, ◌^◌, ◌≤◌, ◌<◌, min, max, String, ◌≡◌, refl, sym, ap, ◌∙◌,
  subst, ◌≢◌, ◌↔◌, ◌⊎◌, inl, inr, Bool, true, false, ◌&&◌, ◌||◌, not, Option, none, some, List, [],
  ◌∷◌, ◌++◌, map, arith, ltb, leb, nat_beq, if◌then◌else◌, ltb→lt, lt→ltb, leb→le, nat_beq_iff,
  tests, Eq, ◌==◌, nat_eq, string_eq, list_eq, option_eq, list_beq_iff, option_beq_iff, Bool-cases,
  Option-cases, is_some, length, take, drop, select, find, any, all, length-append,
  length-select-le, any-append, contains, contains-append, reject, update, option_all-find, sort_by,
  any-sort_by, any-select, pair_eq, pair_beq_iff, option_all, any-reject_self, length-update,
  without_first, count, count-without_first, count-without_first_ne, contains-eq-ltb, Assoc, lookup,
  insert, remove, lookup-insert, lookup-remove,
}
use redash.Prelude.Decimal.{decimal}

-- The column's type as the runner gives it; `none` where the runner guesses types later.
pub record Column : Type 0 where
  pub name : List ℕ
  pub friendly_name : List ℕ
  pub type : Option String

-- The loop: the names so far, the counter of duplicates, the columns that are left.
unfoldable pub fetch_from : List (List ℕ) → ℕ → List (List ℕ × Option String) → List Column
fetch_from column_names duplicates_counter [] = []
fetch_from column_names duplicates_counter ((name, type) ∷ columns) =
    let column_name =
      if contains column_names name then name ++ decimal duplicates_counter else name in
    let counter =
      if contains column_names name then duplicates_counter + 1 else duplicates_counter in
    record { name = column_name; friendly_name = column_name; type = type }
    ∷ fetch_from (column_names ++ column_name ∷ []) counter columns

unfoldable pub fetch_columns : List (List ℕ × Option String) → List Column
unfolding fetch_from
fetch_columns columns = fetch_from [] 1 columns
