-- ===== src/Sharing/Sequences.antt =====
-- Requests on permissions that follow each other, and what they are on the level of who has which permission.
use redash.Prelude.{
  ℕ, String, ◌≡◌, refl, ap, ◌∙◌, inl, inr, Bool, true, false, ◌&&◌, ◌||◌, not, none, some, List, [],
  ◌∷◌, arith, if◌then◌else◌, ◌==◌, nat_eq, string_eq, list_eq, option_eq, Bool-cases, length,
  select, any, any-append, reject, pair_eq,
}
use mathlib.Core.Path.{fun_ext}
use redash.Tables.{AccessPermission, Db}
use redash.Permissions.{Principal}
use redash.Handler.{Action, Result, ok, err, serve, ◌>>=◌}
use redash.Handler.Rules.{Atomic, serve-cases, atomic_rules}
use redash.Sharing.{
  user_row, query_permission, revoke, same_grant, add_grant, grant, require_admin_or_owner,
  grant_permission, revoke_permission,
}
use redash.Alerts.Requests.Subscriptions.{Reads-user_row, Reads-require_admin_or_owner}
use redash.Queries.Versions.{id_of}

pub data Request : Type 0 where
  grant_to revoke_from :
      (object_type : String) (object_id : ℕ) (access_type : String) (user_id : ℕ) → Request

unfoldable pub handle : Principal → ℕ → Request → Action (Unit {0})
handle me org (grant_to object_type object_id access_type user_id) =
    grant_permission me org object_type object_id access_type user_id
handle me org (revoke_from object_type object_id access_type user_id) =
    revoke_permission me org object_type object_id access_type user_id

-- Requests one after the other, each by whoever sends it: how they end, and the rows at the end.
unfoldable pub run : ℕ → List (Principal × Request) → Db → List (Result (Unit {0})) × Db
unfolding handle
run org [] db = ([], db)
run org ((me, r) ∷ rest) db =
    let (answer, db') = serve (handle me org r) db in
    let (answers, end) = run org rest db' in (answer ∷ answers, end)

-- Who has which permission: a type and an id of an object, an access type, a user.
abbrev pub Granted : Type 0
Granted = String → ℕ → String → ℕ → Bool

abbrev pub is_grant : String → ℕ → String → ℕ → AccessPermission → Bool
is_grant t o a u p =
    p.object_type == t && (p.object_id == o && (p.access_type == a && p.grantee_id == u))

unfoldable pub granted : Db → Granted
granted db t o a u = any (is_grant t o a u) db.access_permissions

-- What a request that succeeds does: it grants one permission, or revokes one, or all on the object where the
-- access type is empty.
unfoldable pub apply : Request → Granted → Granted
apply (grant_to t o a u) f t' o' a' u' =
    t == t' && (o == o' && (a == a' && u == u')) || f t' o' a' u'
apply (revoke_from t o a u) f t' o' a' u' =
    not (t == t' && (o == o' && ((a == "" || a == a') && u == u'))) && f t' o' a' u'

-- A request that fails does nothing.
abbrev pub apply_answered : Request → Result (Unit {0}) → Granted → Granted
apply_answered r (ok _) f = apply r f
apply_answered r (err e) f = f

unfoldable pub replay : List (Principal × Request) → List (Result (Unit {0})) → Granted → Granted
replay [] answers f = f
replay (r ∷ rest) [] f = f
replay (r ∷ rest) (answer ∷ answers) f = replay rest answers (apply_answered r.1 answer f)

module _ (t : String) (o : ℕ) (a : String) (u : ℕ) where
  any-is_grant :
      (grantor : ℕ) (rows : List AccessPermission)
      → any (is_grant t o a u) rows ≡ false
      → length (select (same_grant t o a u grantor) rows) ≡ 0
  unfolding any select
  any-is_grant grantor [] h = refl
  any-is_grant grantor (p ∷ rows) h = ground (arith, any-is_grant grantor rows)

  any_other :
      (t' : String) (o' : ℕ) (a' : String) (u' : ℕ) (rows : List AccessPermission)
      → (t == t' && (o == o' && (a == a' && u == u'))) ≡ true
      → any (is_grant t o a u) rows ≡ any (is_grant t' o' a' u') rows
  any_other t' o' a' u' rows h = ground (
    arith,
    h,
    string_eq.beq_iff t t',
    nat_eq.beq_iff o o',
    string_eq.beq_iff a a',
    nat_eq.beq_iff u u',
  )

  granted_or :
      (t' : String) (o' : ℕ) (a' : String) (u' grantor : ℕ) (db : Db)
      → granted
          (if length (select (same_grant t o a u grantor) db.access_permissions) == 0
            then add_grant t o a u grantor db
            else db)
          t'
          o'
          a'
          u'
        ≡ apply (grant_to t o a u) (granted db) t' o' a' u'
  unfolding granted apply add_grant any
  granted_or t' o' a' u' grantor db = ground (
    arith,
    any-is_grant grantor db.access_permissions,
    any_other t' o' a' u' db.access_permissions,
    any-append (is_grant t' o' a' u') db.access_permissions (
        record {
          id = db.next_id;
          object_type = t;
          object_id = o;
          access_type = a;
          grantor_id = grantor;
          grantee_id = u;
        }
        ∷ []),
  )

  string_swap : (s r : String) → (s == r) ≡ (r == s)
  string_swap s r = elim (Bool-cases (s == r)) [
    | inl y ↦ ground (arith, y, string_eq.beq_iff s r, string_eq.beq_iff r s)
    | inr n ↦ ground (arith, n, string_eq.beq_iff s r, string_eq.beq_iff r s)
  ]

  query_permission-is_grant :
      (t' : String) (o' : ℕ) (a' : String) (u' : ℕ) (p : AccessPermission)
      → is_grant t' o' a' u' p ≡ true
      → query_permission t o a (some u) none p
        ≡ (t == t' && (o == o' && ((a == "" || a == a') && u == u')))
  unfolding query_permission
  query_permission-is_grant t' o' a' u' p h = ground (
    arith,
    h,
    string_eq.beq_iff p.object_type t',
    string_eq.beq_iff p.access_type a',
    string_swap p.object_type t,
    string_swap p.access_type a,
  )

  granted-reject :
      (t' : String) (o' : ℕ) (a' : String) (u' : ℕ) (rows : List AccessPermission)
      → any (is_grant t' o' a' u') (reject (query_permission t o a (some u) none) rows) ≡ (
          not (t == t' && (o == o' && ((a == "" || a == a') && u == u')))
          && any (is_grant t' o' a' u') rows)
  unfolding any reject
  granted-reject t' o' a' u' [] = ground arith
  granted-reject t' o' a' u' (p ∷ rows) =
      elim (Bool-cases (query_permission t o a (some u) none p)) [
        | inl y ↦ rw y (
            ground
              (arith, y, granted-reject t' o' a' u' rows, query_permission-is_grant t' o' a' u' p))
        | inr n ↦ rw n (
            ground
              (arith, n, granted-reject t' o' a' u' rows, query_permission-is_grant t' o' a' u' p))
      ]

  granted-revoke :
      (t' : String) (o' : ℕ) (a' : String) (u' : ℕ) (db : Db)
      → granted (revoke t o u a db) t' o' a' u'
        ≡ apply (revoke_from t o a u) (granted db) t' o' a' u'
  unfolding granted apply revoke
  granted-revoke t' o' a' u' db = granted-reject t' o' a' u' db.access_permissions

module _ (me : Principal) (org : ℕ) where
  handle-Atomic : (r : Request) → Atomic (handle me org r)
  unfolding handle grant_permission revoke_permission grant
  handle-Atomic (grant_to t o a u) =
      search (atomic_rules, Reads-user_row, Reads-require_admin_or_owner) depth 30
  handle-Atomic (revoke_from t o a u) = search (atomic_rules, Reads-require_admin_or_owner) depth 20

  grant_permission-ok :
      (t : String) (o : ℕ) (a : String) (u : ℕ) (db : Db)
      → (serve (grant_permission me org t o a u) db).0 ≡ ok tt
      → (serve (grant_permission me org t o a u) db).1 ≡ (
          if length (select (same_grant t o a u (id_of me)) db.access_permissions) == 0
          then add_grant t o a u (id_of me) db
          else db)
  unfolding serve grant_permission grant user_row require_admin_or_owner ◌>>=◌
  grant_permission-ok t o a u db h = ground (arith, h)

  revoke_permission-ok :
      (t : String) (o : ℕ) (a : String) (u : ℕ) (db : Db)
      → (serve (revoke_permission me org t o a u) db).0 ≡ ok tt
      → (serve (revoke_permission me org t o a u) db).1 ≡ revoke t o u a db
  unfolding serve revoke_permission require_admin_or_owner ◌>>=◌
  revoke_permission-ok t o a u db h = ground (arith, h)

  granted-handle :
      (r : Request) (db : Db)
      → (serve (handle me org r) db).0 ≡ ok tt
      → granted (serve (handle me org r) db).1 ≡ apply r (granted db)
  unfolding handle
  granted-handle (grant_to t o a u) db h =
      ap granted (grant_permission-ok t o a u db h)
      ∙ fun_ext λ t'.
        fun_ext λ o'. fun_ext λ a'. fun_ext λ u'. granted_or t o a u t' o' a' u' (id_of me) db
  granted-handle (revoke_from t o a u) db h =
      ap granted (revoke_permission-ok t o a u db h)
      ∙ fun_ext
          λ t'. fun_ext λ o'. fun_ext λ a'. fun_ext λ u'. granted-revoke t o a u t' o' a' u' db

  granted-serve :
      (r : Request) (db : Db)
      → granted (serve (handle me org r) db).1
        ≡ apply_answered r (serve (handle me org r) db).0 (granted db)
  granted-serve r db = elim (serve-cases (handle me org r) db (handle-Atomic r)) [
    | inl (e, s) ↦ rw s refl
    | inr h ↦ granted-handle r db h ∙ rw h refl
  ]

-- Whatever requests to grant and to revoke permissions follow each other, by whomever, who has which permission at
-- the end is what the requests that succeeded make of who had which permission at the beginning.
pub run_refines :
    (org : ℕ) (requests : List (Principal × Request)) (db : Db)
    → granted (run org requests db).1 ≡ replay requests (run org requests db).0 (granted db)
unfolding run replay
run_refines org [] db = refl
run_refines org ((me, r) ∷ rest) db =
    run_refines org rest (serve (handle me org r) db).1
    ∙ ap (replay rest (run org rest (serve (handle me org r) db).1).0) (granted-serve me org r db)
