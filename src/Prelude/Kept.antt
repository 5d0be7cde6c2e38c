-- ===== src/Prelude/Kept.antt =====
-- What updates and deletions keep of all rows, or of some.
use mathlib.Core.Path.{◌≡◌, refl}
use mathlib.Core.Bool.{Bool, true, false, ◌&&◌}
use mathlib.Core.List.{List, [], ◌∷◌}
use native.Mathlib.Omega.{arith}
use redash.Prelude.Tests.{if◌then◌else◌}
use redash.Prelude.Lists.{any, all, update, reject}

module _ {A : Type 0} where
  pub all-update :
      (p r c : A → Bool) (f : A → A) (xs : List A)
      → ((x : A) → p x ≡ true → r (if c x then f x else x) ≡ true)
      → all p xs ≡ true
      → all r (update c f xs) ≡ true
  unfolding all update
  all-update p r c f [] k h = refl
  all-update p r c f (x ∷ xs) k h = ground (arith, k x, all-update p r c f xs k)

  pub all-reject :
      (p r c : A → Bool) (xs : List A)
      → ((x : A) → c x ≡ false → p x ≡ true → r x ≡ true)
      → all p xs ≡ true
      → all r (reject c xs) ≡ true
  unfolding all reject
  all-reject p r c [] k h = refl
  all-reject p r c (x ∷ xs) k h = ground (arith, k x, all-reject p r c xs k)

  pub all_except :
      (p r b : A → Bool) (xs : List A)
      → ((x : A) → b x ≡ false → p x ≡ true → r x ≡ true)
      → any b xs ≡ false
      → all p xs ≡ true
      → all r xs ≡ true
  unfolding all any
  all_except p r b [] k e h = refl
  all_except p r b (x ∷ xs) k e h = ground (arith, k x, all_except p r b xs k)

  pub all_mono :
      (p r : A → Bool) (xs : List A)
      → ((x : A) → p x ≡ true → r x ≡ true)
      → all p xs ≡ true
      → all r xs ≡ true
  unfolding all
  all_mono p r [] k h = refl
  all_mono p r (x ∷ xs) k h = ground (arith, k x, all_mono p r xs k)

  -- What is left of a row that is there, where no row that goes is like it.
  pub any_left :
      (p c : A → Bool) (xs : List A)
      → any p xs ≡ true
      → any (λ x. c x && p x) xs ≡ false
      → any p (reject c xs) ≡ true
  unfolding any reject
  any_left p c [] h e = h
  any_left p c (x ∷ xs) h e = ground (arith, any_left p c xs)

pub any_never :
    {A : Type 0} (p : A → Bool) (xs : List A) → ((x : A) → p x ≡ false) → any p xs ≡ false
unfolding any
any_never p [] k = refl
any_never p (x ∷ xs) k = ground (arith, k x, any_never p xs k)
