-- ===== src/Authentication.antt =====
-- redash/authentication/__init__.py: who a request is made by. A session names a user; a request may carry an
-- API key or a signature instead. The digest is hmac's, over the key, the path and the printed time.
pub mod Keys
pub mod Signatures
pub mod Disabled
use redash.Prelude.{
  ℕ, zero, suc, ◌+◌, ◌-◌, ◌*◌, ◌/◌, ◌%◌, ◌^◌, ◌≤◌, ◌<◌, min, max, String, ◌≡◌, refl, sym, ap, ◌∙◌,
  subst, ◌≢◌, ◌↔◌, ◌⊎◌, inl, inr, Bool, true, false, ◌&&◌, ◌||◌, not, Option, none, some, List, [],
  ◌∷◌, ◌++◌, map, arith, ltb, leb, nat_beq, if◌then◌else◌, ltb→lt, lt→ltb, leb→le, nat_beq_iff,
  tests, Eq, ◌==◌, nat_eq, string_eq, list_eq, option_eq, list_beq_iff, option_beq_iff, Bool-cases,
  Option-cases, is_some, length, take, drop, select, find, any, all, length-append,
  length-select-le, any-append, contains, contains-append, reject, update, option_all-find,
  insert_by, sort_by, any-sort_by, any-select, pair_eq, pair_beq_iff, option_all, any-reject_self,
  length-update, without_first, count, count-without_first, count-without_first_ne, contains-eq-ltb,
  Assoc, lookup, insert, remove, lookup-insert, lookup-remove, printed, concat,
}
use Prim.Native.String.{find as find_text, slice, len}
use redash.Tables.{User, ApiUser, ApiKey, Query, Db}
use redash.Permissions.{Principal, user, api_user}
use redash.Handler.{Failure, abort, no_result, exception, Result, ok, err}
use redash.Groups.{user_by_id_and_org}
use redash.Alerts.Requests.{query_by_id_and_org, query_groups}

-- What the two loaders read of a request. `expires` is in microseconds, 0 where it is not given and none
-- where it is no number.
pub record Request : Type 0 where
  pub path : String
  pub api_key : Option String
  pub authorization : Option String
  pub token : Option String
  pub signature : Option String
  pub expires : Option ℕ
  pub user_id : Option ℕ
  pub query_id : Option ℕ

-- `"ApiKey: {}".format(id)` and `"ApiKey: Query {}".format(id)`
abbrev pub key_name : String → ℕ → String
key_name text id = concat text (printed id)

-- `one()` on a result.
abbrev pub one_of : {A : Type 0} → List A → Result A
one_of [] = err no_result
one_of (a ∷ []) = ok a
one_of (a ∷ b ∷ rest) = err exception

abbrev pub is_disabled : User → Bool
is_disabled u = is_some u.disabled_at

-- load_user
unfoldable pub load_user : ℕ → ℕ → Db → Option User
load_user user_id org db = elim (user_by_id_and_org user_id org db) [
  | none ↦ none
  | some u ↦ if is_disabled u then none else some u
]

-- `try: ... except NoResultFound: ...`
unfoldable pub except_no_result : {A : Type 0} → Result A → Result A → Result A
except_no_result (ok a) r = ok a
except_no_result (err no_result) r = r
except_no_result (err (abort status)) r = err (abort status)
except_no_result (err exception) r = err exception

unfoldable pub found : {A B : Type 0} → (A → B) → Result A → Result (Option B)
found f (ok a) = ok (some (f a))
found f (err e) = err e

-- `query.groups.keys()`
abbrev pub group_keys : Query → Db → List ℕ
group_keys q db = map (λ (p : ℕ × Bool). p.0) (query_groups q db)

abbrev pub query_principal : Query → Db → Principal
query_principal q db = api_user (record {
  id = q.api_key;
  name = key_name "ApiKey: Query " q.id;
  group_ids = group_keys q db;
  org_id = q.org_id;
})

abbrev pub key_principal : ApiKey → Principal
key_principal k =
    api_user (record {
      id = k.api_key;
      name = key_name "ApiKey: " k.id;
      group_ids = [];
      org_id = k.org_id;
    })

-- User.get_by_api_key_and_org
unfoldable pub user_by_api_key_and_org : String → ℕ → Db → Result User
user_by_api_key_and_org key org db =
    one_of (select (λ u. u.api_key == key && u.org_id == org) db.users)

-- ApiKey.get_by_api_key
unfoldable pub api_key_by_api_key : String → Db → Result ApiKey
api_key_by_api_key key db = one_of (select (λ k. k.api_key == key && k.active) db.api_keys)

-- The third place where `get_user_from_api_key` looks.
unfoldable pub query_by_key : String → Option ℕ → ℕ → Db → Result (Option Principal)
query_by_key key query_id org db = elim query_id [
  | none ↦ ok none
  | some id ↦ elim (query_by_id_and_org id org db) [
    | none ↦ err no_result
    | some q ↦ ok (if q.api_key == key then some (query_principal q db) else none)
  ]
]

-- get_user_from_api_key
unfoldable pub get_user_from_api_key : Option String → Option ℕ → ℕ → Db → Result (Option Principal)
unfolding except_no_result found user_by_api_key_and_org api_key_by_api_key query_by_key
get_user_from_api_key none query_id org db = ok none
get_user_from_api_key (some key) query_id org db =
    if key == ""
    then ok none
    else except_no_result (found user (user_by_api_key_and_org key org db)) (
        except_no_result (found key_principal (api_key_by_api_key key db))
          (query_by_key key query_id org db))

-- `auth_header.replace('Key ', '', 1)`
abbrev strip_key : String → String
strip_key h =
    let i = find_text h "Key " in
    if ltb (len h) i then h else concat (slice h 0 i) (slice h (i + 4) (len h))

-- get_api_key_from_request: an empty header or token counts as none.
unfoldable pub get_api_key_from_request : Request → Option String
get_api_key_from_request r = elim r.api_key [
  | some key ↦ some key
  | none ↦
      if given r.authorization
      then ap_option strip_key r.authorization
      else if given r.token
      then r.token
      else none
]
  where
    given : Option String → Bool
    given none = false
    given (some s) = not (s == "")

    ap_option : (String → String) → Option String → Option String
    ap_option f none = none
    ap_option f (some s) = some (f s)

-- api_key_load_user_from_request
unfoldable pub api_key_load_user : Request → ℕ → Db → Result (Option Principal)
unfolding get_user_from_api_key get_api_key_from_request
api_key_load_user r org db = get_user_from_api_key (get_api_key_from_request r) r.query_id org db

module _ (digest : String → String → ℕ → String) where
  -- sign
  unfoldable pub sign : String → String → ℕ → Option String
  sign key path expires = if key == "" then none else some (digest key path expires)

  -- `row.api_key and signature == calculated_signature`
  unfoldable pub is_signed : String → String → String → ℕ → Bool
  unfolding sign
  is_signed key signature path expires = not (key == "") && sign key path expires == some signature

  module _ (r : Request) (db : Db) (signature : String) (expires : ℕ) where
    -- `if query_id:`, with what `one()` finds.
    unfoldable pub admit_query : Option Query → Result (Option Principal)
    admit_query none = err no_result
    admit_query (some q) =
        ok (
          if is_signed q.api_key signature r.path expires
          then some (query_principal q db)
          else none)

    unfoldable pub by_query : Option ℕ → Result (Option Principal)
    unfolding admit_query
    by_query none = ok none
    by_query (some id) = admit_query (find (λ q. q.id == id) db.queries)

    -- `if user_id:`, with what `get` finds. Where it finds no row, None has no `api_key`.
    unfoldable pub admit_user : Option User → Result (Option Principal)
    unfolding by_query
    admit_user none = err exception
    admit_user (some u) =
        if is_signed u.api_key signature r.path expires
        then ok (some (user u))
        else by_query r.query_id

    unfoldable pub by_user : Option ℕ → Result (Option Principal)
    unfolding admit_user by_query
    by_user none = by_query r.query_id
    by_user (some id) = admit_user (find (λ u. u.id == id) db.users)

  -- hmac_load_user_from_request
  unfoldable pub hmac_load : Request → ℕ → Db → Option ℕ → Option String → Result (Option Principal)
  unfolding by_user
  hmac_load r now db none signature = err exception
  hmac_load r now db (some expires) none = ok none
  hmac_load r now db (some expires) (some signature) =
      if not (signature == "") && (ltb now expires && leb expires (now + 3_600 * 1_000_000))
      then by_user r db signature expires r.user_id
      else ok none

  unfoldable pub hmac_load_user : Request → ℕ → Db → Result (Option Principal)
  unfolding hmac_load
  hmac_load_user r now db = hmac_load r now db r.expires r.signature
