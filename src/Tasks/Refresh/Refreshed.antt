-- ===== src/Tasks/Refresh/Refreshed.antt =====
-- For which queries the refresh asks for a task.
use redash.Prelude.{
  ℕ, ◌≡◌, refl, ap, Option, none, some, List, [], ◌∷◌, map, nat_eq, string_eq, list_eq, option_eq,
  is_some, select, pair_eq,
}
use redash.Tables.{DataSource, Query, Db}
use redash.Tasks.Enqueue.{Broker, enqueue_query}
use redash.Tasks.Refresh.{Settings, refreshable, call_of, refresh}

-- The refresh asks for a task for each query that it does not skip, in order, whatever has been asked for before.
pub refresh-ids :
    (s : Settings) (now : ℕ) (db : Db) (qs : List Query) (b : Broker)
    → (refresh s now db qs b).0 ≡ map (λ q. q.id) (select (λ q. is_some (refreshable s db q)) qs)
unfolding refresh select
refresh-ids s now db [] b = refl
refresh-ids s now db (q ∷ qs) b = go (refreshable s db q) refl (λ b. refresh-ids s now db qs b)
  where
    wanted : List Query → List ℕ
    wanted qs = map (λ (q : Query). q.id) (select (λ q. is_some (refreshable s db q)) qs)

    go :
        (o : Option DataSource)
        → refreshable s db q ≡ o
        → ((b : Broker) → (refresh s now db qs b).0 ≡ wanted qs)
        → (refresh s now db (q ∷ qs) b).0 ≡ wanted (q ∷ qs)
    go none e rest = rw (e, refresh) (rest b)
    go (some ds) e rest =
        rw (e, refresh) (ap (λ ids. q.id ∷ ids) (rest (enqueue_query (call_of s now ds q) [] b).1))
