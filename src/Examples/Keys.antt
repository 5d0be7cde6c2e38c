-- ===== src/Examples/Keys.antt =====
-- Requests that an API key or a signature lets in.
use redash.Prelude.{
  ℕ, ◌+◌, ◌*◌, ◌≤◌, ◌<◌, String, ◌≡◌, refl, ◌≢◌, ◌⊎◌, none, some, nat_eq, string_eq, list_eq,
  option_eq, select, find, pair_eq,
}
use redash.Permissions.{data_source_groups}
use redash.Alerts.Requests.{query_by_id_and_org, query_groups}
use redash.Examples.Rows.{rows, report}
use redash.Authentication.{
  Request, query_principal, get_user_from_api_key, except_no_result, found, user_by_api_key_and_org,
  api_key_by_api_key, query_by_key, hmac_load_user, hmac_load, by_user, by_query, is_signed, sign,
}
use redash.Authentication.Keys.{ByUser, ByApiKey, ByQuery, get_user_from_api_key_sound}
use redash.Authentication.Signatures.{SignedFor, hmac_load_user_sound}

-- The key "k" of a query.
get_user_from_api_key_sound_example :
    ◌≢◌ {A = String} "k" ""
    × (ByUser "k" 1 rows (query_principal report rows)
        ⊎ (ByApiKey "k" rows (query_principal report rows)
            ⊎ ByQuery "k" (some 7) 1 rows (query_principal report rows)))
unfolding get_user_from_api_key except_no_result found user_by_api_key_and_org api_key_by_api_key
    query_by_key query_by_id_and_org query_groups data_source_groups select find
get_user_from_api_key_sound_example =
    get_user_from_api_key_sound "k" (some 7) 1 rows (query_principal report rows) refl

-- A digest that shows its key.
abbrev open_digest : String → String → ℕ → String
open_digest key path expires = key

abbrev signed_request : Request
signed_request = record {
  path = "/api/queries/7/results";
  api_key = none;
  authorization = none;
  token = none;
  signature = some "k";
  expires = some 20;
  user_id = none;
  query_id = some 7;
}

hmac_load_user_sound_example :
    (expires : ℕ) × (key : String) × (signed_request.expires ≡ some expires)
    × (10 < expires)
    × (expires ≤ 10 + 3_600 * 1_000_000)
    × (key ≢ "")
    × (signed_request.signature ≡ some (open_digest key signed_request.path expires))
    × SignedFor open_digest signed_request rows key (query_principal report rows)
unfolding hmac_load_user hmac_load by_user by_query is_signed sign query_groups data_source_groups
    find
hmac_load_user_sound_example =
    hmac_load_user_sound open_digest signed_request 10 rows (query_principal report rows) refl
