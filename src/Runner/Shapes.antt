-- ===== src/Runner/Shapes.antt =====
-- Results that a runner builds row by row, adding a column for each key that it meets first: what their columns say of
-- their rows.
use redash.Prelude.{
  ℕ, String, ◌≡◌, refl, inl, inr, Bool, true, false, ◌&&◌, not, some, List, [], ◌∷◌, ◌++◌, arith,
  if◌then◌else◌, ◌==◌, nat_eq, string_eq, list_eq, option_eq, list_beq_iff, Bool-cases, any, all,
  any-append, pair_eq, Assoc, insert, all_mono,
}
use redash.Runner.{Column}

-- A column of a name is among the columns.
unfoldable pub has_column : List Column → List ℕ → Bool
has_column columns name = any (λ c. c.name == name) columns

-- `columns.append({"name": name, "friendly_name": name, "type": type})`, if there is none of the name.
unfoldable pub add_column : List ℕ → String → List Column → List Column
unfolding has_column
add_column name type columns =
    if has_column columns name
    then columns
    else columns ++ record { name = name; friendly_name = name; type = some type } ∷ []

-- Every key of the row names a column.
unfoldable pub covers : {V : Type 0} → List Column → Assoc (List ℕ) V → Bool
unfolding has_column
covers columns row = all (λ (p : List ℕ × _). has_column columns p.0) row

-- No two columns have one name.
unfoldable pub distinct_columns : List Column → Bool
unfolding has_column
distinct_columns [] = true
distinct_columns (c ∷ columns) = not (has_column columns c.name) && distinct_columns columns

-- What has a column has one later.
abbrev pub Grows : List Column → List Column → Type 0
Grows columns later = (n : List ℕ) → has_column columns n ≡ true → has_column later n ≡ true

list_sym : (s r : List ℕ) → (s == r) ≡ (r == s)
list_sym s r = elim (Bool-cases (s == r)) [
  | inl y ↦ ground (arith, y, list_beq_iff s r, list_beq_iff r s)
  | inr n ↦ ground (arith, n, list_beq_iff s r, list_beq_iff r s)
]

module _ (name : List ℕ) (type : String) where
  pub add_column-Grows : (columns : List Column) → Grows columns (add_column name type columns)
  unfolding add_column has_column
  add_column-Grows columns n h = ground (
    arith,
    h,
    any-append (λ (c : Column). c.name == n) columns
        (record { name = name; friendly_name = name; type = some type } ∷ []),
  )

  pub has_column-add_column :
      (columns : List Column) → has_column (add_column name type columns) name ≡ true
  unfolding add_column has_column any
  has_column-add_column columns = ground (
    arith,
    any-append (λ (c : Column). c.name == name) columns
        (record { name = name; friendly_name = name; type = some type } ∷ []),
    list_beq_iff name name,
  )

  distinct_snoc :
      (columns : List Column)
      → has_column columns name ≡ false
      → distinct_columns columns ≡ true
      → distinct_columns
          (columns ++ record { name = name; friendly_name = name; type = some type } ∷ [])
        ≡ true
  unfolding distinct_columns has_column any
  distinct_snoc [] h d = refl
  distinct_snoc (c ∷ columns) h d = ground (
    arith,
    h,
    d,
    distinct_snoc columns,
    list_sym name c.name,
    any-append (λ (x : Column). x.name == c.name) columns
        (record { name = name; friendly_name = name; type = some type } ∷ []),
  )

  pub distinct-add_column :
      (columns : List Column)
      → distinct_columns columns ≡ true
      → distinct_columns (add_column name type columns) ≡ true
  unfolding add_column
  distinct-add_column columns d = elim (Bool-cases (has_column columns name)) [
    | inl y ↦ rw y d
    | inr n ↦ rw n (distinct_snoc columns n d)
  ]

module _ {V : Type 0} where
  pub covers-Grows :
      (columns later : List Column) (row : Assoc (List ℕ) V)
      → Grows columns later
      → covers columns row ≡ true
      → covers later row ≡ true
  unfolding covers
  covers-Grows columns later row g h = all_mono _ _ row (λ p. g p.0) h

  pub covers-insert :
      (columns : List Column) (name : List ℕ) (v : V) (row : Assoc (List ℕ) V)
      → has_column columns name ≡ true
      → covers columns row ≡ true
      → covers columns (insert name v row) ≡ true
  unfolding covers insert all
  covers-insert columns name v [] n h = ground (arith, n)
  covers-insert columns name v ((j, w) ∷ row) n h =
      ground (arith, n, h, covers-insert columns name v row)

pub covers_nil : (V : Type 0) (columns : List Column) → covers {V = V} columns [] ≡ true
unfolding covers all
covers_nil V columns = refl

pub distinct_nil : distinct_columns [] ≡ true
unfolding distinct_columns
distinct_nil = refl
