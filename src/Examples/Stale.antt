-- ===== src/Examples/Stale.antt =====
-- The clean-up of results.
use redash.Prelude.{
  ◌+◌, ◌≡◌, refl, true, some, [], ◌∷◌, nat_eq, string_eq, list_eq, option_eq, any, pair_eq,
}
use redash.Tables.{Query, Db}
use redash.Examples.Rows.{report, old_result, rows}
use redash.Results.Stale.{delete_unused}
use redash.Results.Stale.Trimmed.{leaves, delete_unused-leaves}

-- The report keeps one result; another query with the same text keeps more, and has the same two results.
abbrev keeps_one : Query
keeps_one = record report { schedule_resultset_size = some 1 }

abbrev two_results : Db
two_results = record rows {
  queries = keeps_one ∷ record report { id = 8; schedule_resultset_size = some 5 } ∷ [];
  query_resultsets =
      record { query_id = 7; result_id = 4 }
      ∷ record { query_id = 7; result_id = 9 }
      ∷ record { query_id = 8; result_id = 4 }
      ∷ record { query_id = 8; result_id = 9 }
      ∷ [];
}

delete_unused-leaves_example :
    leaves 9 two_results (delete_unused (old_result.retrieved_at + 1) 100 two_results) ≡ true
unfolding any
delete_unused-leaves_example =
    delete_unused-leaves (old_result.retrieved_at + 1) 100 9 two_results refl
