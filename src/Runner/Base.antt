-- ===== src/Runner/Base.antt =====
-- The base classes of query runners of redash/query_runner/__init__.py: testing a connection, the version of a data
-- source, requests over HTTP, and the register of runners. A version is the list of its characters.
pub mod Responses
use redash.Prelude.{
  ℕ, zero, suc, ◌+◌, ◌-◌, ◌*◌, ◌/◌, ◌%◌, ◌^◌, ◌≤◌, ◌<◌, min, max, String, ◌≡◌, refl, sym, ap, ◌∙◌,
  subst, ◌≢◌, ◌↔◌, ◌⊎◌, inl, inr, Bool, true, false, ◌&&◌, ◌||◌, not, Option, none, some, List, [],
  ◌∷◌, ◌++◌, map, arith, ltb, leb, nat_beq, if◌then◌else◌, ltb→lt, lt→ltb, leb→le, nat_beq_iff,
  tests, Eq, ◌==◌, nat_eq, string_eq, list_eq, option_eq, list_beq_iff, option_beq_iff, Bool-cases,
  Option-cases, is_some, length, take, drop, select, find, any, all, length-append,
  length-select-le, any-append, contains, contains-append, reject, update, option_all-find,
  insert_by, sort_by, any-sort_by, any-select, pair_eq, pair_beq_iff, option_all, any-reject_self,
  length-update, without_first, count, count-without_first, count-without_first_ne, contains-eq-ltb,
  Assoc, lookup, insert, remove, lookup-insert, lookup-remove, printed, concat, all-append, any_ext,
  select_ext, find-update,
}

-- How a method ends early.
pub data Raised : Type 0 where
  not_implemented value_error type_error key_error index_error : Raised
  failed : String → Raised

pub data Outcome (A : Type 0) : Type 0 where
  returns : A → Outcome A
  raises : Raised → Outcome A

-- What `run_query` returns: the JSON that it made, if any, and the error, if any.
abbrev pub Ran : Type 0 → Type 0
Ran A = Option A × Option String

-- What `data_source_version_post_process` says.
pub data PostProcess : Type 0 where
  take_second take_last unchanged : PostProcess

-- The attributes of a class; `run` is its `run_query`.
pub record RunnerClass (A : Type 0) : Type 0 where
  pub noop_query : Option String
  pub data_source_version_query : Option String
  pub data_source_version_post_process : PostProcess
  pub run : String → Ran A

-- BaseQueryRunner.test_connection
abbrev raise_error : {A : Type 0} → Ran A → Outcome (Unit {0})
raise_error (data_text, none) = returns tt
raise_error (data_text, some error) = raises (failed error)

unfoldable pub test_connection : {A : Type 0} → RunnerClass A → Outcome (Unit {0})
test_connection c = elim c.noop_query [
  | none ↦ raises not_implemented
  | some q ↦ raise_error (c.run q)
]

-- `version.split(" ")`
unfoldable pub split_spaces : List ℕ → List (List ℕ)
split_spaces [] = [] ∷ []
split_spaces (c ∷ s) =
    let rest = split_spaces s in
    if c == b' '
    then [] ∷ rest
    else elim rest [ [] ↦ (c ∷ []) ∷ [] | ◌∷◌ word words ↦ (c ∷ word) ∷ words ]

unfoldable pub last_word : List ℕ → List (List ℕ) → List ℕ
last_word w [] = w
last_word w (x ∷ words) = last_word x words

unfoldable pub second_word : List (List ℕ) → Outcome (List ℕ)
second_word [] = raises index_error
second_word (w ∷ []) = raises index_error
second_word (w ∷ x ∷ words) = returns x

unfoldable pub post_processed : PostProcess → List ℕ → Outcome (List ℕ)
unfolding split_spaces last_word second_word
post_processed take_second version = second_word (split_spaces version)
post_processed take_last version = returns (last_word [] (split_spaces version))
post_processed unchanged version = returns version

-- `json.loads(data)['rows'][0]['version']` is `version_in`, which fails on a missing key or row. Data that is not
-- there is a TypeError.
abbrev version_of : {A : Type 0} → (A → Outcome (List ℕ)) → PostProcess → Ran A → Outcome (List ℕ)
version_of version_in p (data_text, some error) = raises (failed error)
version_of version_in p (none, none) = raises type_error
version_of version_in p (some a, none) = elim (version_in a) [
  | raises e ↦ raises e
  | returns version ↦ post_processed p version
]

-- BaseQueryRunner.get_data_source_version
unfoldable pub get_data_source_version :
    {A : Type 0} → (A → Outcome (List ℕ)) → RunnerClass A → Outcome (List ℕ)
unfolding post_processed
get_data_source_version version_in c = elim c.data_source_version_query [
  | none ↦ raises not_implemented
  | some q ↦ version_of version_in c.data_source_version_post_process (c.run q)
]

-- The configuration of a runner over HTTP.
pub record HttpConfiguration : Type 0 where
  pub username : Option String
  pub password : Option String
  pub requires_authentication : Bool

abbrev pub Auth : Type 0
Auth = String × String

-- `username and password`: both are given, and neither is empty.
abbrev credentials : Option String → Option String → Option Auth
credentials (some u) (some p) = if u == "" || p == "" then none else some (u, p)
credentials (some u) none = none
credentials none p = none

-- BaseHTTPQueryRunner.get_auth
unfoldable pub get_auth : HttpConfiguration → Outcome (Option Auth)
get_auth c = elim (credentials c.username c.password) [
  | some auth ↦ returns (some auth)
  | none ↦ if c.requires_authentication then raises value_error else returns none
]

pub record Response : Type 0 where
  pub status_code : ℕ
  pub text : String

-- What `requests.get` does: it answers, raises a RequestException with a message, or another exception.
pub data Got : Type 0 where
  answered : Response → Got
  request_exception : String → Got
  other_exception : Raised → Got

-- `raise_for_status` raises on the codes of errors, 400 to 599.
abbrev pub is_error_status : ℕ → Bool
is_error_status n = leb 400 n && ltb n 600

abbrev pub returned : String → Response → Option Response × Option String
returned response_error r =
    if is_error_status r.status_code
    then (
      some r,
      some (
          concat "Failed to execute query. Return Code: "
            (concat (printed r.status_code) (concat " Reason: " r.text))),
    )
    else if r.status_code == 200
    then (some r, none)
    else (some r, some (concat response_error (concat " (" (concat (printed r.status_code) ")."))))

abbrev pub with_got : String → Got → Outcome (Option Response × Option String)
with_got response_error (answered r) = returns (returned response_error r)
with_got response_error (request_exception message) = returns (none, some message)
with_got response_error (other_exception e) = raises e

-- BaseHTTPQueryRunner.get_response
unfoldable pub get_response :
    (Option Auth → Got)
    → HttpConfiguration
    → String
    → Option Auth
    → Outcome (Option Response × Option String)
unfolding get_auth
get_response get c response_error (some auth) = with_got response_error (get (some auth))
get_response get c response_error none = elim (get_auth c) [
  | raises e ↦ raises e
  | returns auth ↦ with_got response_error (get auth)
]

-- `query_runners`, the classes by their types; `enabled` tells the classes that can be used.
unfoldable pub register :
    {C : Type 0} → (C → Bool) → (C → String) → C → Assoc String C → Assoc String C
register enabled type_of c query_runners =
    if enabled c then insert (type_of c) c query_runners else query_runners

unfoldable pub get_query_runner : {C R : Type 0} → (C → R) → String → Assoc String C → Option R
get_query_runner make type query_runners = elim (lookup type query_runners) [
  | none ↦ none
  | some c ↦ some (make c)
]
