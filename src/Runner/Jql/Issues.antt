-- ===== src/Runner/Jql/Issues.antt =====
-- The rows that are made of issues fit their columns.
use redash.Prelude.{
  ◌+◌, ◌≡◌, refl, ◌∙◌, subst, inl, inr, true, Option, some, List, [], ◌∷◌, arith, nat_eq, string_eq,
  list_eq, option_eq, Option-cases, length, all, length-append, pair_eq, all-append,
}
use redash.Runner.{Column}
use redash.Runner.Shapes.{
  add_column, covers, distinct_columns, Grows, add_column-Grows, has_column-add_column,
  distinct-add_column, covers-Grows, distinct_nil,
}
use redash.Runner.Jql.{
  MappingItem, Issue, Row, ResultSet, add_columns, add_row, parse_issue, parse_issues, no_results,
}

module _ {V : Type 0} where
  add_columns-Grows :
      (row : Row V) (columns : List Column) → Grows columns (add_columns row columns)
  unfolding add_columns
  add_columns-Grows [] columns n h = h
  add_columns-Grows ((key, v) ∷ row) columns n h =
      add_columns-Grows row (add_column key "string" columns) n
        (add_column-Grows key "string" columns n h)

  distinct-add_columns :
      (row : Row V) (columns : List Column)
      → distinct_columns columns ≡ true
      → distinct_columns (add_columns row columns) ≡ true
  unfolding add_columns
  distinct-add_columns [] columns d = d
  distinct-add_columns ((key, v) ∷ row) columns d =
      distinct-add_columns row (add_column key "string" columns)
        (distinct-add_column key "string" columns d)

  covers-add_columns :
      (row : Row V) (columns : List Column) → covers (add_columns row columns) row ≡ true
  unfolding add_columns covers all
  covers-add_columns [] columns = refl
  covers-add_columns ((key, v) ∷ row) columns =
      let columns' = add_column key "string" columns in
      rw (add_columns-Grows row columns' key (has_column-add_column key "string" columns))
        (covers-add_columns row columns')

  -- Every row is covered by the columns, and no name stands twice.
  pub record IsTable (results : ResultSet V) : Type 0 where
    pub covered : all (covers results.columns) results.rows ≡ true
    pub distinct : distinct_columns results.columns ≡ true

  all_covered :
      (columns later : List Column) (rows : List (Row V))
      → Grows columns later
      → all (covers columns) rows ≡ true
      → all (covers later) rows ≡ true
  unfolding all
  all_covered columns later [] g h = refl
  all_covered columns later (row ∷ rows) g h =
      ground (arith, h, covers-Grows columns later row g, all_covered columns later rows g)

  add_row-IsTable :
      (row : Row V) (results : ResultSet V) → IsTable results → IsTable (add_row row results)
  unfolding add_row all
  add_row-IsTable row results t = record {
    covered =
        all-append (covers (add_columns row results.columns)) results.rows (row ∷ [])
        ∙ rw
            (all_covered results.columns (add_columns row results.columns) results.rows
              (add_columns-Grows row results.columns) t.covered)
            (rw (covers-add_columns row results.columns) refl);
    distinct = distinct-add_columns row results.columns t.distinct;
  }

  length-add_row :
      (row : Row V) (results : ResultSet V)
      → length (add_row row results).rows ≡ length results.rows + 1
  unfolding add_row
  length-add_row row results = length-append results.rows (row ∷ [])

  no_results-IsTable : IsTable (no_results {V = V})
  unfolding all
  no_results-IsTable = record { covered = refl; distinct = distinct_nil }

  parse_from :
      (join : List V → Option V) (mapping : List MappingItem) (issues : List (Issue V))
      (before results : ResultSet V)
      → IsTable before
      → parse_issues join mapping issues before ≡ some results
      → IsTable results × (length results.rows ≡ length before.rows + length issues)
  unfolding parse_issues
  parse_from join mapping [] before results t h =
      (subst IsTable (some-injective before results h) t, ground (arith, h))
    where
      some-injective : (a b : ResultSet V) → Option.some a ≡ some b → a ≡ b
      some-injective a b e = cc
  parse_from join mapping (issue ∷ issues) before results t h =
      elim (Option-cases (parse_issue join mapping issue)) [
        | inl e ↦ absurd (ground (arith, e, h))
        | inr (row, e) ↦
            let (table, n) =
              parse_from join mapping issues (add_row row before) results
                (add_row-IsTable row before t) (ground (arith, e, h)) in
            (table, ground (arith, n, length-add_row row before))
      ]

  -- Where the issues can be parsed there is one row for each; every key of a row names one of the columns, and no
  -- two columns have one name.
  pub parse_issues-IsTable :
      (join : List V → Option V) (mapping : List MappingItem) (issues : List (Issue V))
      (results : ResultSet V)
      → parse_issues join mapping issues no_results ≡ some results
      → (all (covers results.columns) results.rows ≡ true)
        × (distinct_columns results.columns ≡ true)
        × (length results.rows ≡ length issues)
  parse_issues-IsTable join mapping issues results h =
      let (t, n) = parse_from join mapping issues no_results results no_results-IsTable h in
      (t.covered, t.distinct, ground (arith, n))
