-- ===== src/Handler/Ensures.antt =====
-- What holds of the stored rows after an action that succeeds.
use redash.Prelude.{◌≡◌, Bool, true, nat_eq, string_eq, list_eq, option_eq, pair_eq}
use redash.Tables.{Db}
use redash.Handler.Monad.{Result, ok, err, World, Action, and_then, ◌>>=◌, open_session, serve}

-- If `m` succeeds, the stored rows have the property `p`, wherever it starts.
pub record Ensures {A : Type 0} (p : Db → Bool) (m : Action A) : Type 0 where
  pub at : (w : World) (a : A) → (m w).0 ≡ ok a → p (m w).1.stored ≡ true

module _ {A B : Type 0} (p : Db → Bool) where
  -- It is enough that what comes last ensures it.
  pub Ensures-bind :
      (m : Action A) (f : A → Action B) → ((a : A) → Ensures p (f a)) → Ensures p (m >>= f)
  unfolding ◌>>=◌
  Ensures-bind m f h = record { at = λ w b e. go (m w).0 (m w).1 b e }
    where
      go :
          (r : Result A) (w : World) (b : B)
          → (and_then r f w).0 ≡ ok b
          → p (and_then r f w).1.stored ≡ true
      go (ok a) w b e = (h a).at w b e
      go (err x) w b e = cc

module _ {A : Type 0} (p : Db → Bool) where
  pub serve-Ensures :
      (m : Action A) (db : Db) (a : A)
      → Ensures p m
      → (serve m db).0 ≡ ok a
      → p (serve m db).1 ≡ true
  unfolding serve
  serve-Ensures m db a h e = h.at (open_session db) a e

pub ruleset ensures = (Ensures-bind)
