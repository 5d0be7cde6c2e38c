-- ===== src/Runner/Sheets/Rows.antt =====
-- The rows of a worksheet fit its columns.
use redash.Prelude.{
  ℕ, suc, String, ◌≡◌, refl, ap, ◌∙◌, inl, inr, Bool, true, some, List, [], ◌∷◌, map, arith, nat_eq,
  string_eq, list_eq, option_eq, list_beq_iff, Option-cases, length, any, all, pair_eq, Assoc,
  insert,
}
use redash.Runner.{Column}
use redash.Runner.Shapes.{has_column, covers, covers-insert, covers_nil}
use redash.Runner.Sheets.{
  SheetValue, Sheet, guess_type, get_columns, guess_types, zip_dict, sheet_row, parse_worksheet,
}

length-map : {A B : Type 0} (f : A → B) (xs : List A) → length (map f xs) ≡ length xs
length-map f [] = refl
length-map f (x ∷ xs) = omega (arith, length-map f xs)

module _ (reads_int reads_float is_datetime : List ℕ → Bool) (lower : List ℕ → List ℕ) where
  -- Every one of the names is the name of a column.
  abbrev all_named : List Column → List (List ℕ) → Bool
  all_named columns names = all (λ n. has_column columns n) names

  covers-zip_dict :
      (columns : List Column) (names : List (List ℕ)) (values : List SheetValue)
      (d : Assoc (List ℕ) SheetValue)
      → all_named columns names ≡ true
      → covers columns d ≡ true
      → covers columns (zip_dict names values d) ≡ true
  unfolding zip_dict all
  covers-zip_dict columns [] values d h c = c
  covers-zip_dict columns (n ∷ names) [] d h c = c
  covers-zip_dict columns (n ∷ names) (v ∷ values) d h c =
      covers-zip_dict columns names values (insert n v d) (ground (arith, h))
        (covers-insert columns n v d (ground (arith, h)) c)

  all_named-later :
      (c : Column) (columns : List Column) (names : List (List ℕ))
      → all_named columns names ≡ true
      → all_named (c ∷ columns) names ≡ true
  unfolding all has_column any
  all_named-later c columns [] h = refl
  all_named-later c columns (n ∷ names) h = ground (arith, h, all_named-later c columns names)

  all_named-names :
      (columns : List Column) → all_named columns (map (λ (c : Column). c.name) columns) ≡ true
  unfolding all has_column any
  all_named-names [] = refl
  all_named-names (c ∷ columns) = ground (
    arith,
    list_beq_iff c.name c.name,
    all_named-names columns,
    all_named-later c columns (map (λ (c : Column). c.name) columns),
  )

  covers-sheet_row :
      (columns : List Column) (row : List (List ℕ))
      → covers columns (sheet_row reads_int reads_float is_datetime lower columns row) ≡ true
  unfolding sheet_row
  covers-sheet_row columns row =
      covers-zip_dict columns (map (λ (c : Column). c.name) columns) _ [] (all_named-names columns)
        (covers_nil SheetValue columns)

  all_covered :
      (columns : List Column) (rows : List (List (List ℕ)))
      → all (covers columns) (map (sheet_row reads_int reads_float is_datetime lower columns) rows)
        ≡ true
  unfolding all
  all_covered columns [] = refl
  all_covered columns (row ∷ rows) = rw (covers-sheet_row columns row) (all_covered columns rows)

  names-guess_types :
      (guess : List ℕ → String) (columns : List Column) (row : List (List ℕ)) (typed : List Column)
      → guess_types guess columns row ≡ some typed
      → map (λ (c : Column). c.name) typed ≡ map (λ (c : Column). c.name) columns
  unfolding guess_types
  names-guess_types guess columns [] typed h = ground (arith, h)
  names-guess_types guess [] (cell ∷ row) typed h = cc
  names-guess_types guess (c ∷ columns) (cell ∷ row) typed h =
      elim (Option-cases (guess_types guess columns row)) [
        | inl e ↦ absurd (ground (arith, e, h))
        | inr (rest, e) ↦ ground (arith, e, h, names-guess_types guess columns row rest)
      ]

  -- Where a worksheet can be read it has a row for each line below the header, and every key of a row names one of
  -- the columns.
  pub parse_worksheet-covers :
      (col_name : ℕ → List ℕ) (header : List (List ℕ)) (lines : List (List (List ℕ)))
      (sheet : Sheet)
      → parse_worksheet reads_int reads_float is_datetime lower col_name (header ∷ lines)
        ≡ some sheet
      → (all (covers sheet.columns) sheet.rows ≡ true) × (length sheet.rows ≡ length lines)
  unfolding parse_worksheet all
  parse_worksheet-covers col_name header [] sheet h = (ground (arith, h), ground (arith, h))
  parse_worksheet-covers col_name header (first ∷ rest) sheet h =
      elim (Option-cases (
        guess_types (guess_type reads_int reads_float is_datetime lower)
          (get_columns col_name header) first)) [
            | inl e ↦ absurd (ground (arith, e, h))
            | inr (columns, e) ↦ rows-covers columns sheet (ground (arith, e, h))
          ]
    where
      rows-covers :
          (columns : List Column) (sheet : Sheet)
          → sheet ≡ record {
            columns = columns;
            rows = map (sheet_row reads_int reads_float is_datetime lower columns) (first ∷ rest);
          }
          → (all (covers sheet.columns) sheet.rows ≡ true) × (length sheet.rows ≡ suc (length rest))
      rows-covers columns sheet e = (
        ap (λ (x : Sheet). all (covers x.columns) x.rows) e ∙ all_covered columns (first ∷ rest),
        ap (λ (x : Sheet). length x.rows) e ∙ length-map _ (first ∷ rest),
      )
