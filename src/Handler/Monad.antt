-- ===== src/Handler/Monad.antt =====
-- Actions of a request over the database session (flask_sqlalchemy's `db.session`).
use redash.Prelude.{
  ℕ, String, Bool, true, false, Option, none, some, List, [], ◌∷◌, ◌++◌, nat_eq, string_eq, list_eq,
  option_eq,
}
use redash.Tables.{Db}

-- `record_event` of handlers/base.py hands such a message to a background task.
pub record Event : Type 0 where
  pub action : String
  pub object_type : String
  pub object_id : ℕ

-- How a handler ends early: `abort(status)`, `NoResultFound`, or another exception.
pub data Failure : Type 0 where
  abort : (status : ℕ) → Failure
  no_result : Failure
  exception : Failure

pub data Result (A : Type 0) : Type 0 where
  ok : A → Result A
  err : Failure → Result A

-- `stored` is what the database holds, `session` what the handler sees.
pub record World : Type 0 where
  pub stored : Db
  pub session : Db
  pub events : List Event

abbrev pub Action : Type 0 → Type 0
Action A = World → Result A × World

module _ {A : Type 0} where
  unfoldable pub pure : A → Action A
  pure a w = (ok a, w)

  unfoldable pub fail : Failure → Action A
  fail e w = (err e, w)

  -- A value that the handler computes from the rows.
  unfoldable pub gets : (Db → A) → Action A
  gets f w = (ok (f w.session), w)

unfoldable pub modify : (Db → Db) → Action (Unit {0})
modify f w = (ok tt, record w { session = f w.session })

-- `db.session.commit()`
unfoldable pub commit : Action (Unit {0})
commit w = (ok tt, record w { stored = w.session })

-- `db.session.rollback()`
unfoldable pub rollback : Action (Unit {0})
rollback w = (ok tt, record w { session = w.stored })

unfoldable pub record_event : String → String → ℕ → Action (Unit {0})
record_event action object_type object_id w = (
  ok tt,
  record w {
    events =
        w.events
        ++ record { action = action; object_type = object_type; object_id = object_id } ∷ [];
  },
)

module _ {A : Type 0} where
  -- `one()` on a query by primary key.
  unfoldable pub one : Option A → Action A
  one none w = (err no_result, w)
  one (some a) w = (ok a, w)

-- `if not test: abort(status)`
unfoldable pub require : Bool → Failure → Action (Unit {0})
require true e w = (ok tt, w)
require false e w = (err e, w)

-- get_object_or_404 of handlers/base.py over `one()`.
module _ {A : Type 0} where
  unfoldable pub get_object_or_404 : Option A → Action A
  get_object_or_404 none w = (err (abort 404), w)
  get_object_or_404 (some a) w = (ok a, w)

module _ {A B : Type 0} where
  abbrev pub and_then : Result A → (A → Action B) → Action B
  and_then (ok a) f w = f a w
  and_then (err e) f w = (err e, w)

  infixl 5 ◌>>=◌ ◌>>◌
  -- Unfolding this opens all the actions above.
  unfoldable pub ◌>>=◌ : Action A → (A → Action B) → Action B
  unfolding pure fail gets modify commit rollback record_event one require get_object_or_404
  ◌>>=◌ m f w = let (r, w') = m w in and_then r f w'

  abbrev pub ◌>>◌ : Action A → Action B → Action B
  m >> n = m >>= λ _. n

-- A request: a session is opened on the stored rows, and removed at the end.
abbrev pub open_session : Db → World
open_session db = record { stored = db; session = db; events = [] }

module _ {A : Type 0} where
  unfoldable pub serve : Action A → Db → Result A × Db
  serve m db = let (r, w) = m (open_session db) in (r, w.stored)
