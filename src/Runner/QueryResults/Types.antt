-- ===== src/Runner/QueryResults/Types.antt =====
-- The types that the runner guesses are types of the values.
use redash.Prelude.{
  ℕ, String, ◌≡◌, refl, ap, ◌∙◌, subst, Bool, true, false, ◌&&◌, ◌||◌, not, Option, none, some,
  List, [], ◌∷◌, map, arith, nat_beq_iff, ◌==◌, nat_eq, string_eq, list_eq, option_eq, length, any,
  all, contains, pair_eq, Assoc, lookup, insert, lookup-insert,
}
use redash.Runner.{Column, fetch_columns}
use redash.Runner.QueryResults.{
  Cell, row_dict, guess_type, merge_type, note_row, note_rows, run_query,
}

module _ (lower : List ℕ → List ℕ) (is_datetime : List ℕ → Bool) where
  -- The type is 'string', or what `_guess_type` says of the value.
  abbrev pub type_fits : Option String → Cell → Bool
  type_fits none v = false
  type_fits (some t) v = t == "string" || t == guess_type lower is_datetime v

  unfoldable pub fits : List Column → List Cell → Bool
  fits [] values = true
  fits (c ∷ columns) [] = true
  fits (c ∷ columns) (v ∷ values) = type_fits c.type v && fits columns values

  -- Whatever value comes next, the merged type fits it, and what the type before fitted.
  type_fits-merge_type :
      (t : Option String) (v : Cell)
      → type_fits (merge_type lower is_datetime t (guess_type lower is_datetime v)) v ≡ true
  unfolding merge_type
  type_fits-merge_type none v =
      ground
        (arith, string_eq.beq_iff (guess_type lower is_datetime v) (guess_type lower is_datetime v))
  type_fits-merge_type (some t) v = ground arith

  type_fits_still :
      (t : Option String) (guess : String) (v : Cell)
      → type_fits t v ≡ true
      → type_fits (merge_type lower is_datetime t guess) v ≡ true
  unfolding merge_type
  type_fits_still none guess v h = cc
  type_fits_still (some t) guess v h = ground (arith, h)

  fits-note_row :
      (columns : List Column) (row : List Cell)
      → fits (note_row lower is_datetime columns row) row ≡ true
  unfolding fits note_row
  fits-note_row [] row = refl
  fits-note_row (c ∷ columns) [] = refl
  fits-note_row (c ∷ columns) (v ∷ row) =
      rw (type_fits-merge_type c.type v) (fits-note_row columns row)

  fits_still :
      (columns : List Column) (row next : List Cell)
      → fits columns row ≡ true
      → fits (note_row lower is_datetime columns next) row ≡ true
  unfolding fits note_row
  fits_still [] row next h = refl
  fits_still (c ∷ columns) row [] h = h
  fits_still (c ∷ columns) [] (w ∷ next) h = refl
  fits_still (c ∷ columns) (v ∷ row) (w ∷ next) h = ground (
    arith,
    h,
    type_fits_still c.type (guess_type lower is_datetime w) v,
    fits_still columns row next,
  )

  fits-note_rows :
      (columns : List Column) (row : List Cell) (rows : List (List Cell))
      → fits columns row ≡ true
      → fits (note_rows lower is_datetime columns rows) row ≡ true
  unfolding note_rows
  fits-note_rows columns row [] h = h
  fits-note_rows columns row (next ∷ rows) h =
      fits-note_rows (note_row lower is_datetime columns next) row rows
        (fits_still columns row next h)

  all_fit :
      (columns : List Column) (rows : List (List Cell))
      → all (fits (note_rows lower is_datetime columns rows)) rows ≡ true
  unfolding note_rows all
  all_fit columns [] = refl
  all_fit columns (row ∷ rows) =
      rw
        (fits-note_rows (note_row lower is_datetime columns row) row rows
          (fits-note_row columns row))
        (all_fit (note_row lower is_datetime columns row) rows)

  names-note_row :
      (columns : List Column) (row : List Cell)
      → map (λ (c : Column). c.name) (note_row lower is_datetime columns row)
        ≡ map (λ (c : Column). c.name) columns
  unfolding note_row
  names-note_row [] row = refl
  names-note_row (c ∷ columns) [] = refl
  names-note_row (c ∷ columns) (v ∷ row) = ap (λ names. c.name ∷ names) (names-note_row columns row)

  names-note_rows :
      (columns : List Column) (rows : List (List Cell))
      → map (λ (c : Column). c.name) (note_rows lower is_datetime columns rows)
        ≡ map (λ (c : Column). c.name) columns
  unfolding note_rows
  names-note_rows columns [] = refl
  names-note_rows columns (row ∷ rows) =
      names-note_rows (note_row lower is_datetime columns row) rows ∙ names-note_row columns row

  -- The row has a value under the name of each column, and the column's type fits it.
  abbrev pub row_fits : List Column → Assoc (List ℕ) Cell → Bool
  row_fits columns row =
      all (λ (c : Column). elim (lookup c.name row) [ none ↦ false | some v ↦ type_fits c.type v ])
        columns

  -- No two names are the same.
  unfoldable pub different : List (List ℕ) → Bool
  different [] = true
  different (n ∷ names) = not (contains names n) && different names

  not-here :
      (m n : List ℕ) (names : List (List ℕ)) → contains (m ∷ names) n ≡ false → (m == n) ≡ false
  unfolding contains any
  not-here m n names h = ground (arith, h)

  lookup-row_dict :
      (names : List (List ℕ)) (values : List Cell) (n : List ℕ) (d : Assoc (List ℕ) Cell)
      → contains names n ≡ false
      → lookup n (row_dict lower is_datetime names values d) ≡ lookup n d
  unfolding row_dict contains
  lookup-row_dict [] values n d h = refl
  lookup-row_dict (m ∷ names) [] n d h = refl
  lookup-row_dict (m ∷ names) (v ∷ values) n d h =
      lookup-row_dict names values n (insert m v d) (ground (arith, h))
      ∙ lookup-insert m n v d
      ∙ rw (not-here m n names h)

  row_fits-row_dict :
      (columns : List Column) (values : List Cell) (d : Assoc (List ℕ) Cell)
      → different (map (λ (c : Column). c.name) columns) ≡ true
      → length values ≡ length columns
      → fits columns values ≡ true
      → row_fits columns
          (row_dict lower is_datetime (map (λ (c : Column). c.name) columns) values d)
        ≡ true
  unfolding different fits all row_dict
  row_fits-row_dict [] values d n l f = refl
  row_fits-row_dict (c ∷ columns) [] d n l f = absurd (omega (arith, l))
  row_fits-row_dict (c ∷ columns) (v ∷ values) d n l f =
      let names = map (λ (c : Column). c.name) columns in
      let here : lookup c.name (row_dict lower is_datetime names values (insert c.name v d))
          ≡ some v =
        lookup-row_dict names values c.name (insert c.name v d) (ground (arith, n))
        ∙ lookup-insert c.name c.name v d
        ∙ rw ((list_eq.beq_iff c.name c.name).1 refl) in
      let rest =
        row_fits-row_dict columns values (insert c.name v d) (ground (arith, n)) (omega (arith, l))
          (ground (arith, f)) in
      rw here (ground (arith, f, rest))

  all-row_fits :
      (columns : List Column) (cursor : List (List Cell))
      → different (map (λ (c : Column). c.name) columns) ≡ true
      → all (λ row. length row == length columns) cursor ≡ true
      → all (fits columns) cursor ≡ true
      → all (row_fits columns) (
          map
            (λ row. row_dict lower is_datetime (map (λ (c : Column). c.name) columns) row [])
            cursor)
        ≡ true
  unfolding all
  all-row_fits columns [] n l f = refl
  all-row_fits columns (row ∷ rows) n l f =
      let here =
        row_fits-row_dict columns row [] n
          ((nat_beq_iff (length row) (length columns)).0 (ground (arith, l))) (ground (arith, f)) in
      let rest = all-row_fits columns rows n (ground (arith, l)) (ground (arith, f)) in rw here rest

  -- Every row of a result of the runner has, under the name of each column, a value that the type of the column fits:
  -- that type is 'string', or what `_guess_type` says of the value. (No two columns have one name, and SQLite gives
  -- each row as many values as there are columns.)
  pub run_query-fits :
      (description : List (List ℕ)) (cursor : List (List Cell))
      → different
          (map (λ (c : Column). c.name) (run_query lower is_datetime description cursor).columns)
        ≡ true
      → all
          (λ row. length row == length (run_query lower is_datetime description cursor).columns)
          cursor
        ≡ true
      → all
          (row_fits (run_query lower is_datetime description cursor).columns)
          (run_query lower is_datetime description cursor).rows
        ≡ true
  unfolding run_query
  run_query-fits description cursor n l =
      let plain = fetch_columns (map (λ n. (n, none)) description) in
      let columns = note_rows lower is_datetime plain cursor in
      subst
        (λ names.
          all (row_fits columns) (map (λ row. row_dict lower is_datetime names row []) cursor)
          ≡ true)
        (names-note_rows plain cursor) (all-row_fits columns cursor n l (all_fit plain cursor))
