-- ===== src/Queries/Versions.antt =====
-- The versions that keep two edits of a query apart.
use redash.Prelude.{
  ℕ, suc, String, ◌≡◌, refl, ap, ◌∙◌, subst, ◌≢◌, ◌⊎◌, inl, inr, Bool, true, ◌&&◌, Option, none,
  some, List, [], ◌∷◌, arith, nat_beq_iff, ◌==◌, nat_eq, string_eq, list_eq, option_eq,
  Option-cases, find, contains, update, option_all-find, pair_eq, option_all, lookup,
}
use redash.Tables.{Query, Db}
use redash.Permissions.{Principal, user, api_user}
use redash.Handler.{Failure, ok, err, serve, ◌>>=◌}
use redash.Handler.Rules.{serve-cases}
use redash.Groups.{require_permission}
use redash.Sharing.{user_row, require_object_modify_permission}
use redash.Alerts.Requests.{query_by_id_and_org}
use redash.Tracking.{Assignment, Tracked, record_changes, untouched}
use redash.Tracking.Recorded.{update_model-fixed, update_model-lookup, record_changes-queries}
use redash.Queries.Requests.{handle, edit_query, handle-Atomic}
use redash.Queries.{edited, edit, same_version}

find-rewritten :
    (id org : ℕ) (q : Query) (rows : List Query) (old : Query)
    → find (λ r. r.id == id && r.org_id == org) rows ≡ some old
    → q.id ≡ id
    → q.org_id ≡ org
    → find
        (λ r. r.id == id && r.org_id == org)
        (update
          (λ r. r.id == q.id)
          (λ r. record r { version = suc r.version })
          (update (λ r. r.id == q.id) (λ r. q) rows))
      ≡ some (record q { version = suc q.version })
unfolding find update
find-rewritten id org q [] old h i o = cc
find-rewritten id org q (r ∷ rows) old h i o = ground (arith, find-rewritten id org q rows old)

-- The id that `user_row` gives.
abbrev pub id_of : Principal → ℕ
id_of (user u) = u.id
id_of (api_user a) = 0

module _ (hash : String → String) (org query_id : ℕ) (version : Option ℕ)
    (assignments : List Assignment) (stale : Bool) (db : Db) where
  pub edit-none :
      (me : Principal)
      → query_by_id_and_org query_id org db ≡ none
      → (serve (edit hash me org query_id version assignments stale) db).0 ≢ ok tt
  unfolding serve edit ◌>>=◌ require_permission user_row require_object_modify_permission
  edit-none me e h = ground (arith, e, h)

  -- What an edit that succeeds did.
  pub edit-some :
      (me : Principal) (q : Query)
      → query_by_id_and_org query_id org db ≡ some q
      → (serve (edit hash me org query_id version assignments stale) db).0 ≡ ok tt
      → (same_version version q ≡ true)
        × ((serve (edit hash me org query_id version assignments stale) db).1
            ≡ record_changes (edited hash assignments (id_of me) q) (id_of me) db)
  unfolding serve edit ◌>>=◌ require_permission user_row require_object_modify_permission
  edit-some me q e h = (ground (arith, e, h), ground (arith, e, h))

pub record_changes-found :
    (t : Tracked) (user_id query_id org : ℕ) (db : Db) (old : Query)
    → lookup "query" t.clean ≡ none
    → t.row.id ≡ query_id
    → t.row.org_id ≡ org
    → query_by_id_and_org query_id org db ≡ some old
    → query_by_id_and_org query_id org (record_changes t user_id db)
      ≡ some (record t.row { version = suc t.row.version })
unfolding query_by_id_and_org
record_changes-found t user_id query_id org db old c i o e =
    ap (find (λ q. q.id == query_id && q.org_id == org)) (record_changes-queries t user_id db c)
    ∙ find-rewritten query_id org t.row db.queries old e i o

pub query_by_id_and_org-ids :
    (query_id org : ℕ) (db : Db) (q : Query)
    → query_by_id_and_org query_id org db ≡ some q
    → (q.id ≡ query_id) × (q.org_id ≡ org)
unfolding query_by_id_and_org
query_by_id_and_org-ids query_id org db q e =
    let h = option_all-find (λ (q : Query). q.id == query_id && q.org_id == org) db.queries in
    (ground (arith, h, e), ground (arith, h, e))

-- Wherever the row was, if it is found after the change it has the next version.
find-next_version :
    (id org : ℕ) (q : Query) (rows : List Query)
    → q.id ≡ id
    → option_all
        (λ r. r.version == suc q.version)
        (find
          (λ r. r.id == id && r.org_id == org)
          (update
            (λ r. r.id == q.id)
            (λ r. record r { version = suc r.version })
            (update (λ r. r.id == q.id) (λ r. q) rows)))
      ≡ true
unfolding find update
find-next_version id org q [] i = refl
find-next_version id org q (r ∷ rows) i = ground (arith, find-next_version id org q rows)

edited-version :
    (hash : String → String) (assignments : List Assignment) (user_id query_id org : ℕ) (db : Db)
    (q : Query)
    → query_by_id_and_org query_id org db ≡ some q
    → option_all
        (λ r. r.version == suc q.version)
        (query_by_id_and_org query_id org
          (record_changes (edited hash assignments user_id q) user_id db))
      ≡ true
unfolding lookup contains query_by_id_and_org
edited-version hash assignments user_id query_id org db q e =
    let t = edited hash assignments user_id q in
    let f = update_model-fixed hash assignments (untouched q) in
    let (i, o) = query_by_id_and_org-ids query_id org db q e in
    let c = update_model-lookup hash "query" assignments (untouched q) refl in
    rw (record_changes-queries t user_id db c) (
      subst
        (λ n.
          option_all (λ (r : Query). r.version == suc n)
            (find (λ r. r.id == query_id && r.org_id == org)
              (update (λ r. r.id == t.row.id) (λ r. record r { version = suc r.version })
                (update (λ r. r.id == t.row.id) (λ r. t.row) db.queries)))
          ≡ true)
        (ap (λ x. x.1) f) (find-next_version query_id org t.row db.queries (ap (λ x. x.0) f ∙ i)))

module _ (hash : String → String) (org query_id n : ℕ) (db : Db) where
  -- After an edit that names a version and succeeds, what is found under the id has the next version.
  edit-next_version :
      (me : Principal) (assignments : List Assignment) (stale : Bool)
      → (serve (edit hash me org query_id (some n) assignments stale) db).0 ≡ ok tt
      → option_all
          (λ r. r.version == suc n)
          (query_by_id_and_org query_id org
            (serve (edit hash me org query_id (some n) assignments stale) db).1)
        ≡ true
  edit-next_version me assignments stale h =
      elim (Option-cases (query_by_id_and_org query_id org db)) [
        | inl e ↦ absurd (edit-none hash org query_id (some n) assignments stale db me e h)
        | inr (q, e) ↦
            let (v, s) = edit-some hash org query_id (some n) assignments stale db me q e h in
            rw (s, (nat_beq_iff n q.version).0 v)
              (edited-version hash assignments (id_of me) query_id org db q e)
      ]

  -- An edit ends in a failure, and then changes nothing, or it succeeds.
  edit-cases :
      (me : Principal) (assignments : List Assignment) (stale : Bool)
      → ((e : Failure) × (serve (edit hash me org query_id (some n) assignments stale) db
            ≡ (err e, db)))
        ⊎ ((serve (edit hash me org query_id (some n) assignments stale) db).0 ≡ ok tt)
  unfolding handle
  edit-cases me assignments stale =
      serve-cases (edit hash me org query_id (some n) assignments stale) db
        (handle-Atomic hash me org (edit_query query_id (some n) assignments stale))

-- Of two edits of a query that name the same version, by anybody and whatever they assign, only one can
-- succeed: after the first has, the second fails and changes nothing.
pub edit_twice :
    (hash : String → String) (org query_id n : ℕ) (db : Db) (me you : Principal)
    (assignments more : List Assignment) (stale stale' : Bool)
    → (serve (edit hash me org query_id (some n) assignments stale) db).0 ≡ ok tt
    → (e : Failure) × (serve
          (edit hash you org query_id (some n) more stale')
          (serve (edit hash me org query_id (some n) assignments stale) db).1
        ≡ (err e, (serve (edit hash me org query_id (some n) assignments stale) db).1))
edit_twice hash org query_id n db me you assignments more stale stale' h =
    let after = (serve (edit hash me org query_id (some n) assignments stale) db).1 in
    let next = edit-next_version hash org query_id n db me assignments stale h in
    elim (edit-cases hash org query_id n after you more stale') [
      | inl failed ↦ failed
      | inr again ↦ elim (Option-cases (query_by_id_and_org query_id org after)) [
        | inl e ↦ absurd (edit-none hash org query_id (some n) more stale' after you e again)
        | inr (r, e) ↦ absurd (
            not_both r (rw e at next)
              (edit-some hash org query_id (some n) more stale' after you r e again).0)
      ]
    ]
  where
    not_both : (r : Query) → (r.version == suc n) ≡ true → (n == r.version) ≡ true → ⊥
    not_both r a b =
        absurd (omega (arith, (nat_beq_iff r.version (suc n)).0 a, (nat_beq_iff n r.version).0 b))
