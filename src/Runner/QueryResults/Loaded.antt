-- ===== src/Runner/QueryResults/Loaded.antt =====
-- Whose results the runner puts into its tables.
use redash.Prelude.{
  ℕ, ◌≡◌, refl, sym, ap, ◌∙◌, subst, ◌⊎◌, inl, inr, Bool, true, false, ◌&&◌, Option, none, some,
  List, [], ◌∷◌, ◌++◌, map, arith, ◌==◌, nat_eq, string_eq, list_eq, option_eq, Option-cases, all,
  option_all-find, pair_eq, lookup,
}
use redash.Tables.{Query, Db}
use redash.Permissions.{Viewer, has_access, data_source_groups}
use redash.Handler.{Result, ok, err}
use redash.Runner.QueryResults.{
  Table, Created, load_query, create_table, create_tables, query_word, fix_column_name,
  table_values, null,
}
use redash.Prelude.Decimal.{decimal}

-- The query is one of the organization's, on a data source on which the user may run queries.
unfoldable pub may_execute : Viewer → ℕ → Db → Query → Bool
may_execute u org db q = q.org_id == org && elim q.data_source_id [
  | none ↦ false
  | some ds ↦ has_access (data_source_groups db.data_source_groups ds) u false
]

ok_injective : {A : Type 0} (a b : A) → ok a ≡ ok b → a ≡ b
ok_injective a b h = cc h

Result-cases : {A : Type 0} (r : Result A) → ((a : A) × (r ≡ ok a)) ⊎ ((e : _) × (r ≡ err e))
Result-cases (ok a) = inl (a, refl)
Result-cases (err e) = inr (e, refl)

-- The table holds the result of the query: it is named after the query's id, it has the columns of the result under
-- their cleaned names, and for each row the values that the row has under these columns, null where it has none.
abbrev pub Holds : (Query → Option Table) → Query × Created → Type 0
Holds run (q, made) =
    (results : Table) × (run q ≡ some results)
    × (made.name ≡ query_word ++ decimal q.id)
    × (made.columns ≡ map fix_column_name results.columns)
    × (made.values
        ≡ map
            (λ row.
              map (λ column. elim (lookup column row) [ none ↦ null | some v ↦ v ]) results.columns)
            results.rows)

abbrev pub AllHold : (Query → Option Table) → List (Query × Created) → Type 0
AllHold run [] = Unit
AllHold run (t ∷ ts) = Holds run t × AllHold run ts

create_table-Holds :
    (run : Query → Option Table) (q : Query) (results : Table)
    → run q ≡ some results
    → Holds run (q, create_table (query_word ++ decimal q.id) results)
unfolding create_table table_values
create_table-Holds run q results e = (results, e, refl, refl, refl)

module _ (u : Viewer) (org : ℕ) (db : Db) where
  load_query-may_execute :
      (id : ℕ) (q : Query)
      → load_query u org id db ≡ ok q
      → (may_execute u org db q ≡ true) × (q.id ≡ id)
  unfolding load_query may_execute
  load_query-may_execute id q h =
      let found = option_all-find (λ (q : Query). q.id == id) db.queries in
      (ground (arith, h), ground (arith, h, found))

  create_tables-cons :
      (run : Query → Option Table) (id : ℕ) (ids : List ℕ) (tables : List (Query × Created))
      → create_tables run u org (id ∷ ids) db ≡ ok tables
      → (q : Query) × (made : Created) × (rest : List (Query × Created)) × (load_query u org id db
          ≡ ok q)
        × (create_tables run u org ids db ≡ ok rest)
        × (tables ≡ (q, made) ∷ rest)
        × ((results : Table) × (run q ≡ some results)
            × (made ≡ create_table (query_word ++ decimal id) results))
  unfolding create_tables
  create_tables-cons run id ids tables h = elim (Result-cases (load_query u org id db)) [
    | inr (e, f) ↦ absurd (ground (arith, f, h))
    | inl (q, f) ↦ elim (Option-cases (run q)) [
      | inl e ↦ absurd (ground (arith, f, e, h))
      | inr (results, e) ↦ elim (Result-cases (create_tables run u org ids db)) [
        | inr (x, g) ↦ absurd (ground (arith, f, e, g, h))
        | inl (rest, g) ↦ (
          q,
          create_table (query_word ++ decimal id) results,
          rest,
          f,
          g,
          ground (arith, f, e, g, h),
          (results, e, refl),
        )
      ]
    ]
  ]

  -- If the runner's tables can be made, there is one for each query that is asked for, and each holds the result of
  -- a query of the user's organization on a data source on which the user may run queries.
  pub create_tables-may_execute :
      (run : Query → Option Table) (ids : List ℕ) (tables : List (Query × Created))
      → create_tables run u org ids db ≡ ok tables
      → (all (λ (t : Query × Created). may_execute u org db t.0) tables ≡ true)
        × (map (λ (t : Query × Created). t.0.id) tables ≡ ids)
        × AllHold run tables
  unfolding create_tables all
  create_tables-may_execute run [] tables h =
      let e = ok_injective [] tables h in
      (ground (arith, h), ground (arith, h), subst (AllHold run) e tt)
  create_tables-may_execute run (id ∷ ids) tables h =
      let (q, made, rest, f, g, e, (results, ran, m)) = create_tables-cons run id ids tables h in
      let (fine, same) = load_query-may_execute id q f in
      let (all_fine, all_same, all_hold) = create_tables-may_execute run ids rest g in
      (
        ground (arith, e, fine, all_fine),
        ground (arith, e, same, all_same),
        subst (AllHold run) (sym e) (
          subst (λ n. Holds run (q, n))
              (ap (λ i. create_table (query_word ++ decimal i) results) same ∙ sym m)
              (create_table-Holds run q results ran),
          all_hold,
        ),
      )
