-- ===== src/Snippets.antt =====
-- redash/handlers/query_snippets.py: the requests that create, edit and delete a query snippet. No two snippets may
-- have one trigger: the database refuses a commit that breaks this (IntegrityError, which nobody catches).
pub mod Owned
use redash.Prelude.{
  ℕ, zero, suc, ◌+◌, ◌-◌, ◌*◌, ◌/◌, ◌%◌, ◌^◌, ◌≤◌, ◌<◌, min, max, String, ◌≡◌, refl, sym, ap, ◌∙◌,
  subst, ◌≢◌, ◌↔◌, ◌⊎◌, inl, inr, Bool, true, false, ◌&&◌, ◌||◌, not, Option, none, some, List, [],
  ◌∷◌, ◌++◌, map, arith, ltb, leb, nat_beq, if◌then◌else◌, ltb→lt, lt→ltb, leb→le, nat_beq_iff,
  tests, Eq, ◌==◌, nat_eq, string_eq, list_eq, option_eq, list_beq_iff, option_beq_iff, Bool-cases,
  Option-cases, is_some, length, take, drop, select, find, any, all, length-append,
  length-select-le, any-append, contains, contains-append, reject, update, option_all-find,
  insert_by, sort_by, any-sort_by, any-select, pair_eq, pair_beq_iff, option_all, any-reject_self,
  length-update, without_first, count, count-without_first, count-without_first_ne, contains-eq-ltb,
  Assoc, lookup, insert, remove, lookup-insert, lookup-remove, printed, concat, all-append, any_ext,
  select_ext, find-update,
}
use redash.Tables.{QuerySnippet, Db}
use redash.Permissions.{Principal}
use redash.Handler.{
  Failure, abort, exception, Action, pure, fail, gets, modify, commit, record_event, ◌>>=◌, ◌>>◌,
  require, get_object_or_404,
}
use redash.Sharing.{user_row, require_admin_or_owner}

-- The keys that an edit may give.
pub record Params : Type 0 where
  pub trigger : Option String
  pub description : Option String
  pub snippet : Option String

abbrev given : Option String → String → String
given none a = a
given (some b) a = b

-- QuerySnippet.get_by_id_and_org
unfoldable pub snippet_by_id_and_org : ℕ → ℕ → Db → Option QuerySnippet
snippet_by_id_and_org id org db = find (λ s. s.id == id && s.org_id == org) db.query_snippets

-- The unique column `trigger`.
unfoldable pub unique_triggers : List QuerySnippet → Bool
unique_triggers [] = true
unique_triggers (s ∷ rest) = not (any (λ r. r.trigger == s.trigger) rest) && unique_triggers rest

unfoldable pub add_snippet : ℕ → ℕ → String → String → String → Db → Db
add_snippet user_id org trigger description snippet db = record db {
  query_snippets =
      db.query_snippets
      ++ record {
        id = db.next_id;
        org_id = org;
        trigger = trigger;
        description = description;
        user_id = user_id;
        snippet = snippet;
      }
        ∷ [];
  next_id = suc db.next_id;
}

unfoldable pub update_snippet : ℕ → Params → Db → Db
update_snippet id params db = record db {
  query_snippets =
      update (λ s. s.id == id)
        (λ s. record s {
          trigger = given params.trigger s.trigger;
          description = given params.description s.description;
          snippet = given params.snippet s.snippet;
        })
        db.query_snippets;
}

unfoldable pub delete_snippet : ℕ → Db → Db
delete_snippet id db = record db { query_snippets = reject (λ s. s.id == id) db.query_snippets }

-- require_fields
abbrev pub present : Option String → Action String
present none = fail (abort 400)
present (some a) = pure a

module _ (me : Principal) (org : ℕ) where
  -- QuerySnippetResource.post
  unfoldable pub edit : ℕ → Params → Action (Unit {0})
  edit snippet_id params = do
    snippet ← gets (snippet_by_id_and_org snippet_id org)
    snippet ← get_object_or_404 snippet
    require_admin_or_owner me org snippet.user_id
    modify (update_snippet snippet.id params)
    accepted ← gets (λ db. unique_triggers db.query_snippets)
    require accepted exception
    commit
    record_event "edit" "query_snippet" snippet.id

  -- QuerySnippetResource.delete
  unfoldable pub delete : ℕ → Action (Unit {0})
  delete snippet_id = do
    snippet ← gets (snippet_by_id_and_org snippet_id org)
    snippet ← get_object_or_404 snippet
    require_admin_or_owner me org snippet.user_id
    modify (delete_snippet snippet.id)
    commit
    record_event "delete" "query_snippet" snippet.id

  -- QuerySnippetListResource.post
  unfoldable pub create : Params → Action (Unit {0})
  create params = do
    trigger ← present params.trigger
    description ← present params.description
    snippet ← present params.snippet
    my_id ← user_row me
    id ← gets (λ db. db.next_id)
    modify (add_snippet my_id org trigger description snippet)
    accepted ← gets (λ db. unique_triggers db.query_snippets)
    require accepted exception
    commit
    record_event "create" "query_snippet" id

pub data Request : Type 0 where
  edit_snippet : (id : ℕ) (params : Params) → Request
  delete_snippet_by_id : (id : ℕ) → Request
  create_snippet : (params : Params) → Request

unfoldable pub handle : Principal → ℕ → Request → Action (Unit {0})
handle me org (edit_snippet id params) = edit me org id params
handle me org (delete_snippet_by_id id) = delete me org id
handle me org (create_snippet params) = create me org params
