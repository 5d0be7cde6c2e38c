-- ===== src/Handler/Rules.antt =====
-- Rules for what an action does to the stored rows.
use redash.Prelude.{
  ℕ, String, ◌≡◌, refl, sym, ap, ◌∙◌, ◌⊎◌, inl, inr, Bool, true, false, Option, none, some, nat_eq,
  string_eq, list_eq, option_eq, pair_eq,
}
use redash.Tables.{Db}
use redash.Handler.Monad.{
  Failure, Result, ok, err, World, Action, pure, fail, gets, modify, commit, record_event, and_then,
  ◌>>=◌, one, require, get_object_or_404, open_session, serve,
}

-- Whatever happens, `m` leaves the stored rows alone.
pub record Reads {A : Type 0} (m : Action A) : Type 0 where
  pub at : (w : World) → (m w).1.stored ≡ w.stored

-- If `m` fails, it leaves the stored rows alone.
pub record Atomic {A : Type 0} (m : Action A) : Type 0 where
  pub at : (w : World) (e : Failure) → (m w).0 ≡ err e → (m w).1.stored ≡ w.stored

module _ {A : Type 0} where
  pub Reads-pure : (a : A) → Reads (pure a)
  unfolding pure
  Reads-pure a = record { at = λ w. refl }

  pub Reads-fail : (e : Failure) → Reads (fail {A = A} e)
  unfolding fail
  Reads-fail e = record { at = λ w. refl }

  pub Reads-gets : (f : Db → A) → Reads (gets f)
  unfolding gets
  Reads-gets f = record { at = λ w. refl }

  pub Reads-one : (o : Option A) → Reads (one o)
  unfolding one
  Reads-one none = record { at = λ w. refl }
  Reads-one (some a) = record { at = λ w. refl }

  pub Reads-get_object_or_404 : (o : Option A) → Reads (get_object_or_404 o)
  unfolding get_object_or_404
  Reads-get_object_or_404 none = record { at = λ w. refl }
  Reads-get_object_or_404 (some a) = record { at = λ w. refl }

  pub Atomic-Reads : (m : Action A) → Reads m → Atomic m
  Atomic-Reads m r = record { at = λ w e h. r.at w }

  -- An action that never fails.
  pub Atomic-total : (m : Action A) → ((w : World) → (a : A) × ((m w).0 ≡ ok a)) → Atomic m
  Atomic-total m t = record { at = λ w e h. absurd (cc (h, (t w).1)) }

  -- A request that fails changes nothing in the database.
  pub serve-Atomic :
      (m : Action A) (db : Db) (e : Failure)
      → Atomic m
      → (serve m db).0 ≡ err e
      → (serve m db).1 ≡ db
  unfolding serve
  serve-Atomic m db e a h = a.at (open_session db) e h

-- A request that cannot fail halfway either fails and changes nothing, or succeeds.
pub serve-cases :
    (m : Action (Unit {0})) (db : Db)
    → Atomic m
    → ((e : Failure) × (serve m db ≡ (err e, db))) ⊎ ((serve m db).0 ≡ ok tt)
serve-cases m db a = go (serve m db) refl
  where
    go :
        (r : Result (Unit {0}) × Db)
        → serve m db ≡ r
        → ((e : Failure) × (r ≡ (err e, db))) ⊎ (r.0 ≡ ok tt)
    go (ok tt, d) h = inr refl
    go (err e, d) h =
        let same = serve-Atomic m db e a (ap (λ x. x.0) h) in
        inl (e, ap (λ x. (err e, x)) (sym (ap (λ x. x.1) h) ∙ same))

pub Reads-require : (b : Bool) (e : Failure) → Reads (require b e)
unfolding require
Reads-require true e = record { at = λ w. refl }
Reads-require false e = record { at = λ w. refl }

pub Reads-modify : (f : Db → Db) → Reads (modify f)
unfolding modify
Reads-modify f = record { at = λ w. refl }

module _ {A B : Type 0} where
  pub Reads-bind :
      (m : Action A) (f : A → Action B) → Reads m → ((a : A) → Reads (f a)) → Reads (m >>= f)
  unfolding ◌>>=◌
  Reads-bind m f rm rf = record { at = λ w. go w (m w).0 (m w).1 (rm.at w) }
    where
      go :
          (w : World) (r : Result A) (w' : World)
          → w'.stored ≡ w.stored
          → (and_then r f w').1.stored ≡ w.stored
      go w (ok a) w' h = (rf a).at w' ∙ h
      go w (err e) w' h = h

  pub Atomic-bind :
      (m : Action A) (f : A → Action B) → Reads m → ((a : A) → Atomic (f a)) → Atomic (m >>= f)
  unfolding ◌>>=◌
  Atomic-bind m f rm rf = record { at = λ w e h. go w (m w).0 (m w).1 (rm.at w) e h }
    where
      go :
          (w : World) (r : Result A) (w' : World)
          → w'.stored ≡ w.stored
          → (e : Failure) → (and_then r f w').0 ≡ err e
          → (and_then r f w').1.stored ≡ w.stored
      go w (ok a) w' h e q = (rf a).at w' e q ∙ h
      go w (err x) w' h e q = h

-- `m` never fails.
pub record Succeeds {A : Type 0} (m : Action A) : Type 0 where
  pub at : (w : World) → (a : A) × ((m w).0 ≡ ok a)

module _ {A : Type 0} where
  pub Succeeds-pure : (a : A) → Succeeds (pure a)
  unfolding pure
  Succeeds-pure a = record { at = λ w. (a, refl) }

  pub Atomic-Succeeds : (m : Action A) → Succeeds m → Atomic m
  Atomic-Succeeds m s = record {
    at = λ w e h. absurd (err-ne-ok e (s.at w).0 (sym h ∙ (s.at w).1));
  }
    where
      err-ne-ok : (e : Failure) (a : A) → Result.err e ≡ ok a → ⊥
      err-ne-ok e a h = cc

pub Succeeds-modify : (f : Db → Db) → Succeeds (modify f)
unfolding modify
Succeeds-modify f = record { at = λ w. (tt, refl) }

pub Succeeds-commit : Succeeds commit
unfolding commit
Succeeds-commit = record { at = λ w. (tt, refl) }

pub Succeeds-record_event : (a t : String) (i : ℕ) → Succeeds (record_event a t i)
unfolding record_event
Succeeds-record_event a t i = record { at = λ w. (tt, refl) }

module _ {A B : Type 0} where
  pub Succeeds-bind :
      (m : Action A) (f : A → Action B)
      → Succeeds m
      → ((a : A) → Succeeds (f a))
      → Succeeds (m >>= f)
  unfolding ◌>>=◌
  Succeeds-bind m f sm sf = record { at = λ w. go (m w).0 (m w).1 (sm.at w).0 (sm.at w).1 }
    where
      go : (r : Result A) (w' : World) (a : A) → r ≡ ok a → (b : B) × ((and_then r f w').0 ≡ ok b)
      go (ok a) w' a' h = (sf a).at w'
      go (err e) w' a' h = cc

  -- What follows an atomic action may not fail.
  pub Atomic-then :
      (m : Action A) (f : A → Action B) → Atomic m → ((a : A) → Succeeds (f a)) → Atomic (m >>= f)
  unfolding ◌>>=◌
  Atomic-then m f am sf = record { at = λ w e h. go w (m w).0 (m w).1 (am.at w) e h }
    where
      go :
          (w : World) (r : Result A) (w' : World)
          → ((x : Failure) → r ≡ err x → w'.stored ≡ w.stored)
          → (e : Failure) → (and_then r f w').0 ≡ err e
          → (and_then r f w').1.stored ≡ w.stored
      go w (ok a) w' k e h = absurd (ok-ne-err e ((sf a).at w').0 (sym ((sf a).at w').1 ∙ h))
        where
          ok-ne-err : (e : Failure) (b : B) → Result.ok b ≡ err e → ⊥
          ok-ne-err e b h = cc
      go w (err x) w' k e h = k x refl

pub ruleset reads = (
  Reads-pure, Reads-fail, Reads-gets, Reads-one, Reads-get_object_or_404, Reads-require,
  Reads-modify, Reads-bind,
)

pub ruleset succeeds =
    (Succeeds-pure, Succeeds-modify, Succeeds-commit, Succeeds-record_event, Succeeds-bind)

pub ruleset atomic_rules = (reads, succeeds, Atomic-bind, Atomic-Succeeds)
