-- ===== src/Examples/Shapes.antt =====
-- Permissions and snippets, and results of runners.
use redash.Prelude.{
  ℕ, String, ◌≡◌, refl, true, false, not, none, some, List, [], ◌∷◌, nat_eq, string_eq, list_eq,
  option_eq, is_some, length, find, all, contains, pair_eq, Assoc, lookup, insert, printed,
}
use redash.Examples.Rows.{as_admin, as_member, rows}
use redash.Tables.{QuerySnippet, Db}
use redash.Permissions.{
  Principal, viewer, user_permissions, has_permission, has_permissions, is_owner,
  has_permission_or_owner, is_admin_or_owner,
}
use redash.Handler.{serve}
use redash.Sharing.Sequences.{Request, grant_to, revoke_from, run, granted, replay, run_refines}
use redash.Snippets.{snippet_by_id_and_org, delete_snippet_by_id, handle}
use redash.Snippets.Owned.{handle-kept}
use redash.Runner.Shapes.{covers, distinct_columns}
use redash.Runner.Mongo.{int, Document, embedded, plain, parse_results}
use redash.Runner.Mongo.Parsed.{parse_results-covers}
use redash.Runner.Influx.{
  Series, value_at, collect_columns, note_columns, note_column, result_row, set_value,
}
use redash.Runner.Influx.Kept.{result_row-keeps}
use redash.Runner.Sheets.{
  Sheet, parse_worksheet, get_columns, columns_from, guess_types, guess_type, sheet_row,
  value_eval_list, value_of, zip_dict, string,
}
use redash.Runner.Sheets.Rows.{parse_worksheet-covers}
use redash.Runner.QueryResults.{guess_text}
use redash.Runner.Base.{HttpConfiguration, Response, answered, get_response, get_auth}
use redash.Runner.Base.Responses.{is_success, get_response-is_success}

-- The administrator lets a member modify the report, then takes that back.
abbrev requests : List (Principal × Request)
requests =
    (as_admin, grant_to "queries" 7 "modify" 2)
    ∷ (as_admin, revoke_from "queries" 7 "modify" 2)
    ∷ []

run_refines_example :
    granted (run 1 requests rows).1 ≡ replay requests (run 1 requests rows).0 (granted rows)
run_refines_example = run_refines 1 requests rows

-- A snippet of the administrator.
abbrev join_users : QuerySnippet
join_users = record {
  id = 30;
  org_id = 1;
  trigger = "ju";
  description = "";
  user_id = 1;
  snippet = "JOIN users";
}

abbrev with_snippet : Db
with_snippet = record rows { query_snippets = join_users ∷ [] }

handle-kept_example :
    snippet_by_id_and_org 30 1 (serve (handle as_member 1 (delete_snippet_by_id 30)) with_snippet).1
    ≡ some join_users
unfolding snippet_by_id_and_org find is_admin_or_owner has_permission_or_owner is_owner viewer
    user_permissions has_permission has_permissions contains all
handle-kept_example =
    handle-kept as_member 1 with_snippet 30 join_users refl refl (delete_snippet_by_id 30)

-- Two documents, with a number and with an embedded document.
abbrev documents : List (Document ℕ)
documents =
    ((b'n' ∷ [], plain 1) ∷ [])
    ∷ ((b'n' ∷ [], plain 2) ∷ (b'd' ∷ [], embedded ((b'x' ∷ [], 3) ∷ [])) ∷ [])
    ∷ []

parse_results-covers_example :
    (all (covers (parse_results (λ _. int) documents).1) (parse_results (λ _. int) documents).0
      ≡ true)
    × (distinct_columns (parse_results (λ _. int) documents).1 ≡ true)
parse_results-covers_example = parse_results-covers (λ _. int) documents

-- A series with a tag and one point.
abbrev series : Series ℕ
series = record {
  columns = (b't' ∷ []) ∷ (b'v' ∷ []) ∷ [];
  tags = (b'h' ∷ [], 9) ∷ [];
  values = (1 ∷ 2 ∷ []) ∷ [];
}

abbrev point_row : Assoc (List ℕ) ℕ
point_row = (b't' ∷ [], 1) ∷ (b'v' ∷ [], 2) ∷ (b'h' ∷ [], 9) ∷ []

result_row-keeps_example : lookup {K = List ℕ} (b'v' ∷ []) point_row ≡ some 2
unfolding value_at contains lookup collect_columns note_columns note_column result_row set_value
    insert
result_row-keeps_example =
    result_row-keeps [] [] series (1 ∷ 2 ∷ []) (b'v' ∷ []) 2 point_row refl refl

-- A worksheet with the header 'n' and a cell 'x'.
abbrev sheet : Sheet
sheet = record {
  columns = record { name = b'n' ∷ []; friendly_name = b'n' ∷ []; type = some "string" } ∷ [];
  rows = ((b'n' ∷ [], string (b'x' ∷ [])) ∷ []) ∷ [];
}

abbrev lines : List (List (List ℕ))
lines = ((b'x' ∷ []) ∷ []) ∷ []

parse_worksheet-covers_example :
    (all (covers sheet.columns) sheet.rows ≡ true) × (length sheet.rows ≡ length lines)
unfolding parse_worksheet get_columns columns_from guess_types guess_type guess_text sheet_row
    value_eval_list value_of zip_dict contains insert
parse_worksheet-covers_example =
    parse_worksheet-covers (λ s. false) (λ s. false) (λ s. false) (λ s. s) (λ i. b'A' ∷ [])
      ((b'n' ∷ []) ∷ []) lines sheet refl

-- A service that asks for no password and answers that there is nothing.
abbrev open_service : HttpConfiguration
open_service = record { username = none; password = none; requires_authentication = false }

abbrev no_content : Response
no_content = record { status_code = 204; text = "" }

get_response-is_success_example :
    is_some {A = String} (some "Failed (204).") ≡ not (is_success (some no_content))
unfolding get_response get_auth printed
get_response-is_success_example =
    get_response-is_success (λ auth. answered no_content) open_service "Failed" none
      (some no_content) (some "Failed (204).") refl
