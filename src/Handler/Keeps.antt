-- ===== src/Handler/Keeps.antt =====
-- Invariants of the rows, kept by an action whether it succeeds or not.
use redash.Prelude.{
  ℕ, String, ◌≡◌, Bool, true, false, Option, none, some, nat_eq, string_eq, list_eq, option_eq,
  pair_eq,
}
use redash.Tables.{Db}
use redash.Handler.Monad.{
  Failure, Result, ok, err, World, Action, pure, fail, gets, modify, commit, record_event, one,
  require, get_object_or_404, and_then, ◌>>=◌, open_session, serve,
}

-- The invariant holds of what is stored and of what the session sees.
abbrev pub Holds : (Db → Bool) → World → Type 0
Holds p w = (p w.stored ≡ true) × (p w.session ≡ true)

pub record Keeps {A : Type 0} (p : Db → Bool) (m : Action A) : Type 0 where
  pub at : (w : World) → Holds p w → Holds p (m w).1

module _ (p : Db → Bool) where
  module _ {A : Type 0} where
    pub Keeps-pure : (a : A) → Keeps p (pure a)
    unfolding pure
    Keeps-pure a = record { at = λ w h. h }

    pub Keeps-fail : (e : Failure) → Keeps p (fail {A = A} e)
    unfolding fail
    Keeps-fail e = record { at = λ w h. h }

    pub Keeps-gets : (f : Db → A) → Keeps p (gets f)
    unfolding gets
    Keeps-gets f = record { at = λ w h. h }

    pub Keeps-one : (o : Option A) → Keeps p (one o)
    unfolding one
    Keeps-one none = record { at = λ w h. h }
    Keeps-one (some a) = record { at = λ w h. h }

    pub Keeps-get_object_or_404 : (o : Option A) → Keeps p (get_object_or_404 o)
    unfolding get_object_or_404
    Keeps-get_object_or_404 none = record { at = λ w h. h }
    Keeps-get_object_or_404 (some a) = record { at = λ w h. h }

    pub serve-Keeps : (m : Action A) (db : Db) → Keeps p m → p db ≡ true → p (serve m db).1 ≡ true
    unfolding serve
    serve-Keeps m db k h = (k.at (open_session db) (h, h)).0

  pub Keeps-require : (b : Bool) (e : Failure) → Keeps p (require b e)
  unfolding require
  Keeps-require true e = record { at = λ w h. h }
  Keeps-require false e = record { at = λ w h. h }

  pub Keeps-commit : Keeps p commit
  unfolding commit
  Keeps-commit = record { at = λ w h. (h.1, h.1) }

  pub Keeps-record_event : (a t : String) (i : ℕ) → Keeps p (record_event a t i)
  unfolding record_event
  Keeps-record_event a t i = record { at = λ w h. h }

  -- A change of the rows keeps what it keeps of any rows.
  pub Keeps-modify :
      (f : Db → Db) → ((db : Db) → p db ≡ true → p (f db) ≡ true) → Keeps p (modify f)
  unfolding modify
  Keeps-modify f k = record { at = λ w h. (h.0, k w.session h.1) }

  module _ {A B : Type 0} where
    pub Keeps-bind :
        (m : Action A) (f : A → Action B)
        → Keeps p m
        → ((a : A) → Keeps p (f a))
        → Keeps p (m >>= f)
    unfolding ◌>>=◌
    Keeps-bind m f km kf = record { at = λ w h. go (m w).0 (m w).1 (km.at w h) }
      where
        go : (r : Result A) (w : World) → Holds p w → Holds p (and_then r f w).1
        go (ok a) w h = (kf a).at w h
        go (err e) w h = h

pub ruleset keeps = (
  Keeps-pure, Keeps-fail, Keeps-gets, Keeps-one, Keeps-get_object_or_404, Keeps-require,
  Keeps-commit, Keeps-record_event, Keeps-modify, Keeps-bind,
)
