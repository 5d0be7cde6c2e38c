-- ===== src/Runner/Mongo/Parsed.antt =====
-- The rows that are parsed from documents fit their columns.
use redash.Prelude.{
  ℕ, ◌≡◌, refl, true, List, [], ◌∷◌, nat_eq, string_eq, list_eq, option_eq, all, pair_eq, Assoc,
}
use redash.Runner.{Column}
use redash.Runner.Shapes.{
  add_column, covers, distinct_columns, Grows, add_column-Grows, has_column-add_column,
  distinct-add_column, covers-Grows, covers-insert, covers_nil, distinct_nil,
}
use redash.Runner.Mongo.{
  PythonType, types_map, Field, embedded, plain, Document, dotted, parse_value, parse_embedded,
  parse_field, parse_document, parse_from, parse_results,
}

module _ {V : Type 0} (python_type : V → PythonType) where
  -- What a step of the parsing keeps: columns stay, the row is covered, and no name stands twice.
  abbrev Fits : List Column → List Column × Assoc (List ℕ) V → Type 0
  Fits before (columns, row) =
      Grows before columns × (covers columns row ≡ true) × (distinct_columns columns ≡ true)

  Fits-parse_value :
      (before : List Column) (name : List ℕ) (v : V) (columns : List Column)
      (row : Assoc (List ℕ) V)
      → Fits before (columns, row)
      → Fits before (parse_value python_type name v (columns, row))
  unfolding parse_value
  Fits-parse_value before name v columns row (g, c, d) =
      let type = types_map (python_type v) in
      (
        λ n h. add_column-Grows name type columns n (g n h),
        covers-insert (add_column name type columns) name v row
            (has_column-add_column name type columns)
            (covers-Grows columns (add_column name type columns) row
              (add_column-Grows name type columns) c),
        distinct-add_column name type columns d,
      )

  Fits-parse_embedded :
      (before : List Column) (key : List ℕ) (d : Assoc (List ℕ) V) (columns : List Column)
      (row : Assoc (List ℕ) V)
      → Fits before (columns, row)
      → Fits before (parse_embedded python_type key d (columns, row))
  unfolding parse_embedded parse_value
  Fits-parse_embedded before key [] columns row f = f
  Fits-parse_embedded before key ((inner_key, v) ∷ rest) columns row f =
      Fits-parse_embedded before key rest _ _
        (Fits-parse_value before (dotted key inner_key) v columns row f)

  Fits-parse_field :
      (before : List Column) (key : List ℕ) (x : Field V) (columns : List Column)
      (row : Assoc (List ℕ) V)
      → Fits before (columns, row)
      → Fits before (parse_field python_type key x (columns, row))
  unfolding parse_field
  Fits-parse_field before key (embedded d) columns row f =
      Fits-parse_embedded before key d columns row f
  Fits-parse_field before key (plain v) columns row f = Fits-parse_value before key v columns row f

  Fits-parse_document :
      (before : List Column) (d : Document V) (s : List Column × Assoc (List ℕ) V)
      → Fits before s
      → Fits before (parse_document python_type d s)
  unfolding parse_document
  Fits-parse_document before [] s f = f
  Fits-parse_document before ((key, x) ∷ rest) (columns, row) f =
      Fits-parse_document before rest (parse_field python_type key x (columns, row))
        (Fits-parse_field before key x columns row f)

  -- The same of all rows, with the columns at the end.
  Fits-parse_from :
      (results : List (Document V)) (columns : List Column)
      → distinct_columns columns ≡ true
      → Grows columns (parse_from python_type results columns).1
        × (all
              (covers (parse_from python_type results columns).1)
              (parse_from python_type results columns).0
            ≡ true)
        × (distinct_columns (parse_from python_type results columns).1 ≡ true)
  unfolding parse_from all
  Fits-parse_from [] columns d = (λ n h. h, refl, d)
  Fits-parse_from (x ∷ results) columns d =
      let (g, c, e) =
        Fits-parse_document columns x (columns, []) (λ n h. h, covers_nil V columns, d) in
      let (g', c', e') = Fits-parse_from results (parse_document python_type x (columns, [])).0 e in
      (
        λ n h. g' n (g n h),
        rw
            (covers-Grows _
              (parse_from python_type results (parse_document python_type x (columns, [])).0).1
              (parse_document python_type x (columns, [])).1 g' c)
            c',
        e',
      )

  -- Every key of every row that is parsed names one of the columns, and no two columns have one name.
  pub parse_results-covers :
      (results : List (Document V))
      → (all (covers (parse_results python_type results).1) (parse_results python_type results).0
          ≡ true)
        × (distinct_columns (parse_results python_type results).1 ≡ true)
  unfolding parse_results
  parse_results-covers results = let (g, c, d) = Fits-parse_from results [] distinct_nil in (c, d)
