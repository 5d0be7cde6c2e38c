-- ===== src/Paging.antt =====
-- `paginate` of redash/handlers/base.py, and the page that flask_sqlalchemy's `paginate` takes. Numbers below 1
-- are all answered alike, so 0 stands for them.
pub mod Pages
use redash.Prelude.{
  ℕ, zero, suc, ◌+◌, ◌-◌, ◌*◌, ◌/◌, ◌%◌, ◌^◌, ◌≤◌, ◌<◌, min, max, String, ◌≡◌, refl, sym, ap, ◌∙◌,
  subst, ◌≢◌, ◌↔◌, ◌⊎◌, inl, inr, Bool, true, false, ◌&&◌, ◌||◌, not, Option, none, some, List, [],
  ◌∷◌, ◌++◌, map, arith, ltb, leb, nat_beq, if◌then◌else◌, ltb→lt, lt→ltb, leb→le, nat_beq_iff,
  tests, Eq, ◌==◌, nat_eq, string_eq, list_eq, option_eq, list_beq_iff, option_beq_iff, Bool-cases,
  Option-cases, is_some, length, take, drop, select, find, any, all, length-append,
  length-select-le, any-append, contains, contains-append, reject, update, option_all-find,
  insert_by, sort_by, any-sort_by, any-select, pair_eq, pair_beq_iff, option_all, any-reject_self,
  length-update, without_first, count-without_first, count-without_first_ne, contains-eq-ltb, Assoc,
  lookup, insert, remove, lookup-insert, lookup-remove, printed, concat,
}
use redash.Handler.{Failure, abort, Result, ok, err}

pub record Page (B : Type 0) : Type 0 where
  pub count : ℕ
  pub page : ℕ
  pub page_size : ℕ
  pub results : List B

-- The documented LIMIT page_size OFFSET (page - 1) * page_size.
abbrev pub items : {A : Type 0} → List A → ℕ → ℕ → List A
items rows page page_size = take page_size (drop ((page - 1) * page_size) rows)

module _ {A B : Type 0} where
  unfoldable pub paginate : List A → ℕ → ℕ → (A → B) → Result (Page B)
  paginate rows page page_size serializer =
      let count = length rows in
      if ltb page 1
      then err (abort 400)
      else if ltb count ((page - 1) * page_size + 1) && ltb 0 count
      then err (abort 400)
      else if ltb 250 page_size || ltb page_size 1
      then err (abort 400)
      else ok (record {
        count = count;
        page = page;
        page_size = page_size;
        results = map serializer (items rows page page_size);
      })
