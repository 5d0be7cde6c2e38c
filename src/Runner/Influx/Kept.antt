-- ===== src/Runner/Influx/Kept.antt =====
-- What becomes of the values of a point.
use redash.Prelude.{
  ℕ, ◌≡◌, refl, sym, ap, ◌∙◌, ◌⊎◌, inl, inr, true, ◌||◌, Option, none, some, List, [], ◌∷◌, ◌++◌,
  map, arith, if◌then◌else◌, ◌==◌, nat_eq, string_eq, list_eq, option_eq, list_beq_iff, Bool-cases,
  Option-cases, contains, contains-append, pair_eq, Assoc, lookup, insert, lookup-insert,
}
use redash.Runner.Influx.{
  Series, note_column, note_columns, value_at, collect_columns, set_value, result_row,
}

-- What a row has for a column: the tag, else the value of the point.
abbrev pub expected : {V : Type 0} → Series V → List V → List ℕ → Option V
expected s point column = elim (lookup column s.tags) [
  | some v ↦ some v
  | none ↦ if contains s.columns column then value_at s.columns column point else none
]

some_injective : {A : Type 0} (a b : A) → Option.some a ≡ some b → a ≡ b
some_injective a b h = cc

module _ {V : Type 0} (s : Series V) (point : List V) where
  set_value-cases :
      (c : List ℕ) (row after : Assoc (List ℕ) V)
      → set_value s point c row ≡ some after
      → ((expected s point c ≡ none) × (after ≡ row))
        ⊎ ((v : V) × (expected s point c ≡ some v) × (after ≡ insert c v row))
  unfolding set_value
  set_value-cases c row after h = elim (Option-cases (lookup c s.tags)) [
    | inr (v, e) ↦ inr (v, ground (arith, e), ground (arith, e, h))
    | inl e ↦ elim (Bool-cases (contains s.columns c)) [
      | inr n ↦ inl (ground (arith, e, n), ground (arith, e, n, h))
      | inl y ↦ elim (Option-cases (value_at s.columns c point)) [
        | inl f ↦ absurd (ground (arith, e, y, f, h))
        | inr (v, f) ↦ inr (v, ground (arith, e, y, f), ground (arith, e, y, f, h))
      ]
    ]
  ]

  module _ (n : List ℕ) (v : V) (value : expected s point n ≡ some v) where
    same_value : (c : List ℕ) → (c == n) ≡ true → expected s point c ≡ some v
    same_value c y = ap (expected s point) ((list_beq_iff c n).0 y) ∙ value

    -- Once the row has the value of the column it keeps it.
    lookup-set_value :
        (c : List ℕ) (row after : Assoc (List ℕ) V)
        → set_value s point c row ≡ some after
        → ((c == n) ≡ true) ⊎ (lookup n row ≡ some v)
        → lookup n after ≡ some v
    lookup-set_value c row after h known = elim (set_value-cases c row after h) [
      | inl (e, same) ↦ elim known [
        | inl y ↦ absurd (cc (e, same_value c y))
        | inr k ↦ ap (lookup n) same ∙ k
      ]
      | inr (w, e, same) ↦
          ap (lookup n) same ∙ lookup-insert c n w row ∙ (elim (Bool-cases (c == n)) [
            | inl y ↦ rw y (sym e ∙ same_value c y)
            | inr z ↦ rw z (elim known [ inl y ↦ absurd (cc (y, z)) | inr k ↦ k ])
          ])
    ]

    lookup-result_row :
        (columns : List (List ℕ)) (row after : Assoc (List ℕ) V)
        → result_row s point columns row ≡ some after
        → (contains columns n ≡ true) ⊎ (lookup n row ≡ some v)
        → lookup n after ≡ some v
    unfolding result_row contains
    lookup-result_row [] row after h known =
        ap (lookup n) (sym (some_injective row after h))
        ∙ (elim known [ inl y ↦ absurd (cc y) | inr k ↦ k ])
    lookup-result_row (c ∷ columns) row after h known =
        elim (Option-cases (set_value s point c row)) [
          | inl e ↦ absurd (ground (arith, e, h))
          | inr (row', e) ↦ elim (Bool-cases (c == n)) [
            | inl y ↦
                lookup-result_row columns row' after (ground (arith, e, h))
                  (inr (lookup-set_value c row row' e (inl y)))
            | inr z ↦ lookup-result_row columns row' after (ground (arith, e, h)) (elim known [
              | inl y ↦ inl (ground (arith, z, y))
              | inr k ↦ inr (lookup-set_value c row row' e (inr k))
            ])
          ]
        ]

note_column-contains :
    (n m : List ℕ) (result_columns : List (List ℕ))
    → contains (note_column m result_columns) n ≡ (contains result_columns n || m == n)
unfolding note_column contains
note_column-contains n m result_columns = elim (Bool-cases (contains result_columns m)) [
  | inl y ↦ rw y (elim (Bool-cases (m == n)) [
    | inl e ↦ ground (arith, e, y, ap (contains result_columns) ((list_beq_iff m n).0 e))
    | inr e ↦ ground (arith, e)
  ])
  | inr z ↦ rw z (ground (arith, contains-append result_columns (m ∷ []) n))
]

note_columns-contains :
    (n : List ℕ) (names result_columns : List (List ℕ))
    → contains (note_columns names result_columns) n
      ≡ (contains result_columns n || contains names n)
unfolding note_columns contains
note_columns-contains n [] result_columns = ground arith
note_columns-contains n (m ∷ names) result_columns = ground (
  arith,
  note_columns-contains n names (note_column m result_columns),
  note_column-contains n m result_columns,
)

module _ {V : Type 0} where
  abbrev tag_names : Series V → List (List ℕ)
  tag_names s = map (λ (t : List ℕ × V). t.0) s.tags

  contains-tags :
      (n : List ℕ) (tags : Assoc (List ℕ) V) (v : V)
      → lookup n tags ≡ some v
      → contains (map (λ (t : List ℕ × V). t.0) tags) n ≡ true
  unfolding contains lookup
  contains-tags n [] v h = cc
  contains-tags n ((k, w) ∷ tags) v h = ground (arith, h, contains-tags n tags v)

  contains-expected :
      (s : Series V) (point : List V) (n : List ℕ) (v : V)
      → expected s point n ≡ some v
      → (contains s.columns n || contains (tag_names s) n) ≡ true
  contains-expected s point n v h = elim (Option-cases (lookup n s.tags)) [
    | inr (w, e) ↦ ground (arith, contains-tags n s.tags w e)
    | inl e ↦ ground (arith, e, h)
  ]

  collect_columns-grows :
      (n : List ℕ) (series : List (Series V)) (result_columns : List (List ℕ))
      → contains result_columns n ≡ true
      → contains (collect_columns series result_columns) n ≡ true
  unfolding collect_columns
  collect_columns-grows n [] result_columns h = h
  collect_columns-grows n (s ∷ series) result_columns h = collect_columns-grows n series _ (
      note_columns-contains n (tag_names s) (note_columns s.columns result_columns)
      ∙ rw (note_columns-contains n s.columns result_columns) (rw h refl))

  collect_columns-contains :
      (n : List ℕ) (before rest : List (Series V)) (s : Series V) (result_columns : List (List ℕ))
      → (contains s.columns n || contains (tag_names s) n) ≡ true
      → contains (collect_columns (before ++ s ∷ rest) result_columns) n ≡ true
  unfolding collect_columns
  collect_columns-contains n [] rest s result_columns h = collect_columns-grows n rest _ (
      ground (
        arith,
        h,
        note_columns-contains n (tag_names s) (note_columns s.columns result_columns),
        note_columns-contains n s.columns result_columns,
      ))
  collect_columns-contains n (b ∷ before) rest s result_columns h =
      collect_columns-contains n before rest s _ h

  -- The row of a point of a series has, for every column of the series, the value that the point has there, unless a tag
  -- of the name replaces it, and the value of every tag: the table's columns leave out none of them.
  pub result_row-keeps :
      (before rest : List (Series V)) (s : Series V) (point : List V) (n : List ℕ) (v : V)
      (row : Assoc (List ℕ) V)
      → expected s point n ≡ some v
      → result_row s point (collect_columns (before ++ s ∷ rest) []) [] ≡ some row
      → lookup n row ≡ some v
  result_row-keeps before rest s point n v row e h =
      lookup-result_row s point n v e (collect_columns (before ++ s ∷ rest) []) [] row h
        (inl (collect_columns-contains n before rest s [] (contains-expected s point n v e)))
