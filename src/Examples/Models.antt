-- ===== src/Examples/Models.antt =====
-- Schedules, configurations, alerts, results and columns.
use redash.Prelude.{
  ℕ, ◌+◌, ◌*◌, ◌%◌, ◌≤◌, ◌<◌, String, ◌≡◌, refl, true, ◌&&◌, some, [], ◌∷◌, arith, ltb, ◌==◌,
  nat_eq, string_eq, list_eq, option_eq, is_some, select, find, any, all, insert_by, sort_by,
  pair_eq, option_all, Assoc, lookup, insert,
}
use redash.Tables.{Query}
use redash.Examples.Rows.{half_past_eight, report, in_2020, old_result}
use redash.Schedule.Clock.{ok, minute, hour, day, plus}
use redash.Schedule.{
  isdigit, digits_value, lstrip, rstrip, unsigned, signed, int, split, pair_of, hour_and_minute,
  next_iteration, back_off, should_schedule_next,
}
use redash.Schedule.Daily.{daily_schedule}
use redash.Schedule.Outdated.{
  key, Context, Key, is_true, is_scheduled, latest_query_data, last_run, check, collect,
  outdated_queries, is_outdated, outdated_queries_iff,
}
use redash.Configuration.{Schema, Container}

daily_schedule_example :
    (next : ℕ) × (should_schedule_next in_2020 (in_2020 + day) half_past_eight 0
      ≡ ok (ltb next (in_2020 + day)))
    × (in_2020 < next)
    × (next ≤ in_2020 + day)
    × (next % day ≡ 8 * hour + 30 * minute + in_2020 % minute)
unfolding isdigit hour_and_minute split pair_of int lstrip rstrip signed unsigned digits_value all
daily_schedule_example =
    daily_schedule in_2020 (in_2020 + day) half_past_eight 8 30 refl refl (omega arith)
      (omega arith)

abbrev now_in_2020 : Context
now_in_2020 = record {
  query_results = old_result ∷ [];
  executions = [];
  now = in_2020 + hour;
  db_now = in_2020 + hour;
}

abbrev report_key : Key
report_key = ("h", some 5)

abbrev found : Assoc Key Query
found = (report_key, report) ∷ []

outdated_queries_iff_example :
    (is_some (lookup report_key found) ≡ any (is_outdated now_in_2020 report_key) (report ∷ []))
    × (option_all
          (λ q. is_true (check now_in_2020 q) && key q == report_key)
          (lookup report_key found)
        ≡ true)
unfolding outdated_queries collect is_scheduled latest_query_data last_run check
    should_schedule_next next_iteration isdigit digits_value plus all back_off select sort_by
    insert_by find insert lookup is_outdated any
outdated_queries_iff_example = outdated_queries_iff now_in_2020 report_key (report ∷ []) found refl

-- A data source's options, with a password; every configuration is valid.
abbrev schema : Schema String
schema = record { secret = some ("password" ∷ []); validates = λ _. true }

abbrev options : Container String
options = record { config = ("host", "db") ∷ ("password", "s3cret") ∷ []; schema = some schema }

abbrev shown_options : Assoc String String
shown_options = ("host", "db") ∷ ("password", "--------") ∷ []
