-- ===== src/Runner/Influx.antt =====
-- `_transform_result` of redash/query_runner/influx_db.py: one table of the series that InfluxDB answers. `V` are the
-- values of points and tags.
pub mod Kept
use redash.Prelude.{
  ℕ, zero, suc, ◌+◌, ◌-◌, ◌*◌, ◌/◌, ◌%◌, ◌^◌, ◌≤◌, ◌<◌, min, max, String, ◌≡◌, refl, sym, ap, ◌∙◌,
  subst, ◌≢◌, ◌↔◌, ◌⊎◌, inl, inr, Bool, true, false, ◌&&◌, ◌||◌, not, Option, none, some, List, [],
  ◌∷◌, ◌++◌, map, arith, ltb, leb, nat_beq, if◌then◌else◌, ltb→lt, lt→ltb, leb→le, nat_beq_iff,
  tests, Eq, ◌==◌, nat_eq, string_eq, list_eq, option_eq, list_beq_iff, option_beq_iff, Bool-cases,
  Option-cases, is_some, length, take, drop, select, find, any, all, length-append,
  length-select-le, any-append, contains, contains-append, reject, update, option_all-find,
  insert_by, sort_by, any-sort_by, any-select, pair_eq, pair_beq_iff, option_all, any-reject_self,
  length-update, without_first, count, count-without_first, count-without_first_ne, contains-eq-ltb,
  Assoc, lookup, insert, remove, lookup-insert, lookup-remove, printed, concat, all-append, any_ext,
  select_ext, find-update,
}

-- A series: its columns, its tags (none where there are no 'tags') and its points.
pub record Series (V : Type 0) : Type 0 where
  pub columns : List (List ℕ)
  pub tags : Assoc (List ℕ) V
  pub values : List (List V)

-- `if name not in result_columns: result_columns.append(name)`
unfoldable pub note_column : List ℕ → List (List ℕ) → List (List ℕ)
note_column name result_columns =
    if contains result_columns name then result_columns else result_columns ++ name ∷ []

unfoldable pub note_columns : List (List ℕ) → List (List ℕ) → List (List ℕ)
unfolding note_column
note_columns [] result_columns = result_columns
note_columns (n ∷ names) result_columns = note_columns names (note_column n result_columns)

-- `point[series['columns'].index(column)]`, where the column is there; `none` is an IndexError.
unfoldable pub value_at : {V : Type 0} → List (List ℕ) → List ℕ → List V → Option V
value_at [] column point = none
value_at (c ∷ columns) column [] = none
value_at (c ∷ columns) column (v ∷ point) =
    let rest = value_at columns column point in if c == column then some v else rest

module _ {V : Type 0} where
  -- The first loop, over the series of all results.
  unfoldable pub collect_columns : List (Series V) → List (List ℕ) → List (List ℕ)
  unfolding note_columns
  collect_columns [] result_columns = result_columns
  collect_columns (s ∷ series) result_columns =
      collect_columns series (
        note_columns (map (λ (t : List ℕ × V). t.0) s.tags) (note_columns s.columns result_columns))

  -- The body of the innermost loop.
  unfoldable pub set_value :
      Series V → List V → List ℕ → Assoc (List ℕ) V → Option (Assoc (List ℕ) V)
  unfolding value_at
  set_value s point column row = elim (lookup column s.tags) [
    | some v ↦ some (insert column v row)
    | none ↦
        if contains s.columns column
        then elim (value_at s.columns column point) [
          | none ↦ none
          | some v ↦ some (insert column v row)
        ]
        else some row
  ]

  unfoldable pub result_row :
      Series V → List V → List (List ℕ) → Assoc (List ℕ) V → Option (Assoc (List ℕ) V)
  unfolding set_value
  result_row s point [] row = some row
  result_row s point (c ∷ result_columns) row = elim (set_value s point c row) [
    | none ↦ none
    | some row' ↦ result_row s point result_columns row'
  ]

  unfoldable pub rows_of_points :
      Series V → List (List ℕ) → List (List V) → Option (List (Assoc (List ℕ) V))
  unfolding result_row
  rows_of_points s result_columns [] = some []
  rows_of_points s result_columns (p ∷ points) =
      let rest = rows_of_points s result_columns points in
      elim (result_row s p result_columns []) [
        | none ↦ none
        | some row ↦ elim rest [ none ↦ none | some rows ↦ some (row ∷ rows) ]
      ]

  unfoldable pub rows_of_series : List (List ℕ) → List (Series V) → Option (List (Assoc (List ℕ) V))
  unfolding rows_of_points
  rows_of_series result_columns [] = some []
  rows_of_series result_columns (s ∷ series) =
      let rest = rows_of_series result_columns series in
      elim (rows_of_points s result_columns s.values) [
        | none ↦ none
        | some rows ↦ elim rest [ none ↦ none | some more ↦ some (rows ++ more) ]
      ]

  -- `_transform_result`: the columns and the rows.
  unfoldable pub transform_result :
      List (Series V) → Option (List (List ℕ) × List (Assoc (List ℕ) V))
  unfolding collect_columns rows_of_series
  transform_result series =
      let result_columns = collect_columns series [] in
      elim (rows_of_series result_columns series) [
        | none ↦ none
        | some rows ↦ some (result_columns, rows)
      ]
