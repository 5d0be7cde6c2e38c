-- ===== src/Alerts/Requests/Subscriptions.antt =====
-- Which subscriptions there are after the requests on alerts.
use redash.Prelude.{
  ℕ, String, ◌≡◌, refl, Bool, true, false, ◌&&◌, ◌||◌, not, Option, none, some, List, [], ◌∷◌, ◌++◌,
  arith, ◌==◌, nat_eq, string_eq, list_eq, option_eq, any, reject, option_all-find, pair_eq,
  any-reject_self, Assoc,
}
use redash.Tables.{Alert, AlertSubscription, AlertOptions, Db}
use redash.Permissions.{Principal, user, api_user}
use redash.Handler.{
  Failure, ok, err, exception, gets, modify, commit, record_event, require, serve, ◌>>=◌, ◌>>◌,
}
use redash.Handler.Rules.{Reads, Reads-pure, Reads-fail, Atomic, serve-Atomic, atomic_rules, reads}
use redash.Handler.Keeps.{Keeps, Keeps-pure, Keeps-fail, serve-Keeps, keeps}
use redash.Sharing.{require_admin_or_owner, user_row}
use redash.Alerts.Requests.{
  Params, Request, edit_alert, delete_alert_row, create_alert, subscribe_to, unsubscribe_from,
  handle, same_subscription, alert_by_id_and_org, add_subscription, delete_alert,
  delete_subscription, require_access, edit, delete, create, subscribe, unsubscribe, update_alert,
  add_alert,
}

-- No two subscriptions of one alert have the same destination: the unique index of the table.
unfoldable pub is_unique : List AlertSubscription → Bool
is_unique [] = true
is_unique (s ∷ ss) = not (any (same_subscription s.destination_id s.alert_id) ss) && is_unique ss

any-snoc :
    (q : AlertSubscription → Bool) (ss : List AlertSubscription) (s : AlertSubscription)
    → any q (ss ++ s ∷ []) ≡ (any q ss || q s)
unfolding any
any-snoc q [] s = ground arith
any-snoc q (t ∷ ss) s = ground (arith, any-snoc q ss s)

same_subscription-sym :
    (d e : Option ℕ) (s t : AlertSubscription)
    → s.destination_id ≡ d
    → t.destination_id ≡ e
    → same_subscription d s.alert_id t ≡ same_subscription e t.alert_id s
unfolding same_subscription
same_subscription-sym none none s t p q = refl
same_subscription-sym none (some e) s t p q = ground arith
same_subscription-sym (some d) none s t p q = ground arith
same_subscription-sym (some d) (some e) s t p q = ground arith

is_unique-snoc :
    (ss : List AlertSubscription) (s : AlertSubscription)
    → any (same_subscription s.destination_id s.alert_id) ss ≡ false
    → is_unique (ss ++ s ∷ []) ≡ is_unique ss
unfolding is_unique any
is_unique-snoc [] s h = refl
is_unique-snoc (t ∷ ss) s h = ground (
  arith,
  is_unique-snoc ss s,
  any-snoc (same_subscription t.destination_id t.alert_id) ss s,
  same_subscription-sym s.destination_id t.destination_id s t refl refl,
)

any-reject :
    (q p : AlertSubscription → Bool) (ss : List AlertSubscription)
    → any q ss ≡ false
    → any q (reject p ss) ≡ false
unfolding any reject
any-reject q p [] h = refl
any-reject q p (s ∷ ss) h = ground (arith, any-reject q p ss)

is_unique-reject :
    (p : AlertSubscription → Bool) (ss : List AlertSubscription)
    → is_unique ss ≡ true
    → is_unique (reject p ss) ≡ true
unfolding is_unique any reject
is_unique-reject p [] h = refl
is_unique-reject p (s ∷ ss) h =
    ground (
      arith,
      is_unique-reject p ss,
      any-reject (same_subscription s.destination_id s.alert_id) p ss,
    )

-- The invariant of the table.
unfoldable pub unique : Db → Bool
unique db = is_unique db.alert_subscriptions

pub Keeps-user_row : (p : Db → Bool) (me : Principal) → Keeps p (user_row me)
unfolding user_row
Keeps-user_row p (user u) = Keeps-pure p u.id
Keeps-user_row p (api_user a) = Keeps-fail p exception

unique-delete_alert : (id : ℕ) (db : Db) → unique db ≡ true → unique (delete_alert id db) ≡ true
unfolding unique delete_alert
unique-delete_alert id db h = is_unique-reject (λ s. s.alert_id == id) db.alert_subscriptions h

unique-delete_subscription :
    (id : ℕ) (db : Db) → unique db ≡ true → unique (delete_subscription id db) ≡ true
unfolding unique delete_subscription
unique-delete_subscription id db h = is_unique-reject (λ s. s.id == id) db.alert_subscriptions h

unique-update_alert :
    (id : ℕ) (params : Params) (db : Db)
    → unique db ≡ true
    → unique (update_alert id params db) ≡ true
unfolding unique update_alert
unique-update_alert id params db h = h

unique-add_alert :
    (user_id query_id : ℕ) (name : String) (rearm : Option ℕ) (options : AlertOptions) (db : Db)
    → unique db ≡ true
    → unique (add_alert user_id name query_id rearm options db) ≡ true
unfolding unique add_alert
unique-add_alert user_id query_id name rearm options db h = h

pub Reads-user_row : (me : Principal) → Reads (user_row me)
unfolding user_row
Reads-user_row (user u) = Reads-pure u.id
Reads-user_row (api_user a) = Reads-fail exception

module _ (me : Principal) (org : ℕ) where
  Keeps-require_admin_or_owner :
      (p : Db → Bool) (id : ℕ) → Keeps p (require_admin_or_owner me org id)
  unfolding require_admin_or_owner
  Keeps-require_admin_or_owner p id = search keeps

  pub Keeps-require_access :
      (p : Db → Bool) (groups : Db → Assoc ℕ Bool) (b : Bool)
      → Keeps p (require_access me org groups b)
  unfolding require_access
  Keeps-require_access p groups b = search keeps

  Keeps-add_subscription :
      (user_id alert_id id : ℕ) (destination_id : Option ℕ)
      → Keeps unique (
          gets (λ db. any (same_subscription destination_id alert_id) db.alert_subscriptions)
          >>= λ taken.
              require (not taken) exception
              >> (modify (add_subscription user_id destination_id alert_id)
                  >> (commit >> record_event "subscribe" "alert" id)))
  unfolding ◌>>=◌ unique add_subscription
  Keeps-add_subscription user_id alert_id id destination_id = record {
    at = λ w h. ground (
      arith,
      is_unique-snoc w.session.alert_subscriptions (record {
        id = w.session.next_id;
        user_id = user_id;
        destination_id = destination_id;
        alert_id = alert_id;
      }),
    );
  }

  handle-Keeps : (r : Request) → Keeps unique (handle me org r)
  unfolding handle edit delete create subscribe unsubscribe
  handle-Keeps (edit_alert a p) =
      search (keeps, Keeps-require_admin_or_owner, unique-update_alert) depth 20
  handle-Keeps (delete_alert_row a) =
      search (keeps, Keeps-require_admin_or_owner, unique-delete_alert) depth 20
  handle-Keeps (create_alert n q r o) =
      search (keeps, Keeps-user_row, Keeps-require_access, unique-add_alert) depth 20
  handle-Keeps (subscribe_to f a d) =
      search (keeps, Keeps-user_row, Keeps-require_access, Keeps-add_subscription) depth 20
  handle-Keeps (unsubscribe_from a s) =
      search (keeps, Keeps-require_admin_or_owner, unique-delete_subscription) depth 20

  -- Whether it succeeds or not, a request on alerts leaves no two subscriptions of one alert with the same
  -- destination, if there were none.
  pub handle-unique :
      (r : Request) (db : Db) → unique db ≡ true → unique (serve (handle me org r) db).1 ≡ true
  handle-unique r db u = serve-Keeps unique (handle me org r) db (handle-Keeps r) u

  pub Reads-require_admin_or_owner : (id : ℕ) → Reads (require_admin_or_owner me org id)
  unfolding require_admin_or_owner
  Reads-require_admin_or_owner id = search reads

  pub Reads-require_access :
      (groups : Db → Assoc ℕ Bool) (b : Bool) → Reads (require_access me org groups b)
  unfolding require_access
  Reads-require_access groups b = search reads

  handle-Atomic : (r : Request) → Atomic (handle me org r)
  unfolding handle edit delete create subscribe unsubscribe
  handle-Atomic (create_alert n q r o) =
      search (atomic_rules, Reads-user_row, Reads-require_access) depth 20
  handle-Atomic (subscribe_to f a d) =
      search (atomic_rules, Reads-user_row, Reads-require_access) depth 20
  handle-Atomic _ = search (atomic_rules, Reads-require_admin_or_owner) depth 20

  -- A request on alerts that fails leaves the database as it was.
  pub handle-failure :
      (r : Request) (db : Db) (e : Failure)
      → (serve (handle me org r) db).0 ≡ err e
      → (serve (handle me org r) db).1 ≡ db
  handle-failure r db e h = serve-Atomic (handle me org r) db e (handle-Atomic r) h

  -- A successful request to delete an alert leaves no alert with its id and no subscription to it.
  pub delete-removes_all :
      (alert_id : ℕ) (db : Db)
      → (serve (delete me org alert_id) db).0 ≡ ok tt
      → (any (λ a. a.id == alert_id) (serve (delete me org alert_id) db).1.alerts ≡ false)
        × (any
              (λ s. s.alert_id == alert_id)
              (serve (delete me org alert_id) db).1.alert_subscriptions
            ≡ false)
  unfolding serve delete require_admin_or_owner ◌>>=◌ delete_alert alert_by_id_and_org
  delete-removes_all alert_id db h = ground (
    arith,
    option_all-find
        (λ (a : Alert).
          a.id == alert_id && any (λ q. q.id == a.query_id && q.org_id == org) db.queries)
        db.alerts,
    any-reject_self (λ (a : Alert). a.id == alert_id) db.alerts,
    any-reject_self (λ (s : AlertSubscription). s.alert_id == alert_id) db.alert_subscriptions,
  )
