-- ===== src/Prelude/Lists.antt =====
-- Lists: measures over the native numbers, Boolean filters and searches.
use Prim.Native.Nat.{ℕ, zero, suc, ◌+◌, ◌≤◌}
use mathlib.Core.Path.{◌≡◌, refl, ◌∙◌}
use mathlib.Core.Bool.{Bool, true, false, ◌&&◌, ◌||◌}
use mathlib.Core.List.{List, [], ◌∷◌, ◌++◌}
use mathlib.Core.Option.{Option, none, some}
use native.Mathlib.Omega.{arith}
use redash.Prelude.Tests.{if◌then◌else◌, Eq, ◌==◌, ltb, option_all, leb}

module _ {ℓ} {A : Type ℓ} where
  abbrev pub length : List A → ℕ
  length [] = 0
  length (x ∷ xs) = suc (length xs)

  abbrev pub take : ℕ → List A → List A
  take zero xs = []
  take (suc n) [] = []
  take (suc n) (x ∷ xs) = x ∷ take n xs

  abbrev pub drop : ℕ → List A → List A
  drop zero xs = xs
  drop (suc n) [] = []
  drop (suc n) (x ∷ xs) = drop n xs

  -- `[x for x in xs if p x]`
  unfoldable pub select : (A → Bool) → List A → List A
  select p [] = []
  select p (x ∷ xs) = let rest = select p xs in if p x then x ∷ rest else rest

  -- The first row of a result, `first()`.
  unfoldable pub find : (A → Bool) → List A → Option A
  find p [] = none
  find p (x ∷ xs) = let rest = find p xs in if p x then some x else rest

  unfoldable pub any : (A → Bool) → List A → Bool
  any p [] = false
  any p (x ∷ xs) = p x || any p xs

  unfoldable pub all : (A → Bool) → List A → Bool
  all p [] = true
  all p (x ∷ xs) = p x && all p xs

  -- The rows that a DELETE leaves.
  unfoldable pub reject : (A → Bool) → List A → List A
  reject p [] = []
  reject p (x ∷ xs) = let rest = reject p xs in if p x then rest else x ∷ rest

  -- An UPDATE of the rows that `p` selects.
  unfoldable pub update : (A → Bool) → (A → A) → List A → List A
  update p f [] = []
  update p f (x ∷ xs) = (if p x then f x else x) ∷ update p f xs

  -- What a search finds passes its test.
  pub option_all-find : (p : A → Bool) (xs : List A) → option_all p (find p xs) ≡ true
  unfolding find
  option_all-find p [] = refl
  option_all-find p (x ∷ xs) = ground (arith, option_all-find p xs)

  -- ORDER BY a number, by insertion; rows that agree keep their order.
  unfoldable pub insert_by : (A → ℕ) → A → List A → List A
  insert_by key a [] = a ∷ []
  insert_by key a (x ∷ xs) = if leb (key a) (key x) then a ∷ x ∷ xs else x ∷ insert_by key a xs

  unfoldable pub sort_by : (A → ℕ) → List A → List A
  unfolding insert_by
  sort_by key [] = []
  sort_by key (x ∷ xs) = insert_by key x (sort_by key xs)

  any-insert_by :
      (p : A → Bool) (key : A → ℕ) (a : A) (xs : List A)
      → any p (insert_by key a xs) ≡ (p a || any p xs)
  unfolding any insert_by
  any-insert_by p key a [] = refl
  any-insert_by p key a (x ∷ xs) = ground (arith, any-insert_by p key a xs)

  pub any-sort_by : (p : A → Bool) (key : A → ℕ) (xs : List A) → any p (sort_by key xs) ≡ any p xs
  unfolding any sort_by
  any-sort_by p key [] = refl
  any-sort_by p key (x ∷ xs) = any-insert_by p key x (sort_by key xs) ∙ rw (any-sort_by p key xs)

  pub any-select : (p q : A → Bool) (xs : List A) → any p (select q xs) ≡ any (λ x. q x && p x) xs
  unfolding any select
  any-select p q [] = refl
  any-select p q (x ∷ xs) = ground (arith, any-select p q xs)

  pub any-reject_self : (p : A → Bool) (xs : List A) → any p (reject p xs) ≡ false
  unfolding any reject
  any-reject_self p [] = refl
  any-reject_self p (x ∷ xs) = ground (arith, any-reject_self p xs)

  pub length-update : (p : A → Bool) (f : A → A) (xs : List A) → length (update p f xs) ≡ length xs
  unfolding update
  length-update p f [] = refl
  length-update p f (x ∷ xs) = omega (arith, length-update p f xs)

  pub length-append : (xs ys : List A) → length (xs ++ ys) ≡ length xs + length ys
  length-append [] ys = omega arith
  length-append (x ∷ xs) ys = omega (arith, length-append xs ys)

  pub length-select-le : (p : A → Bool) (xs : List A) → length (select p xs) ≤ length xs
  unfolding select
  length-select-le p [] = omega arith
  length-select-le p (x ∷ xs) = ground (arith, length-select-le p xs)

  pub any-append : (p : A → Bool) (xs ys : List A) → any p (xs ++ ys) ≡ (any p xs || any p ys)
  unfolding any
  any-append p [] ys = refl
  any-append p (x ∷ xs) ys = ground (arith, any-append p xs ys)

  pub all-append : (p : A → Bool) (xs ys : List A) → all p (xs ++ ys) ≡ (all p xs && all p ys)
  unfolding all
  all-append p [] ys = refl
  all-append p (x ∷ xs) ys = ground (arith, all-append p xs ys)

  pub any_ext : (p q : A → Bool) (xs : List A) → ((a : A) → p a ≡ q a) → any p xs ≡ any q xs
  unfolding any
  any_ext p q [] h = refl
  any_ext p q (x ∷ xs) h = ground (arith, h x, any_ext p q xs h)

  pub select_ext :
      (p q : A → Bool) (xs : List A) → ((a : A) → p a ≡ q a) → select p xs ≡ select q xs
  unfolding select
  select_ext p q [] h = refl
  select_ext p q (x ∷ xs) h = ground (arith, h x, select_ext p q xs h)

  -- An update that keeps a test changes what the test finds, and not which row that is.
  pub find-update :
      (p c : A → Bool) (f : A → A)
      → ((a : A) → p (f a) ≡ p a)
      → (xs : List A)
      → find p (update c f xs)
        ≡ elim (find p xs) [ none ↦ none | some a ↦ some (if c a then f a else a) ]
  unfolding find update
  find-update p c f keep [] = refl
  find-update p c f keep (x ∷ xs) = ground (arith, keep x, find-update p c f keep xs)

-- `a in xs`
unfoldable pub contains {ℓ} : {A : Type ℓ} ⦃e : Eq A⦄ → List A → A → Bool
contains [] a = false
contains (x ∷ xs) a = x == a || contains xs a

module _ {ℓ} {A : Type ℓ} ⦃e : Eq A⦄ where
  pub contains-append :
      (xs ys : List A) (a : A) → contains (xs ++ ys) a ≡ (contains xs a || contains ys a)
  unfolding contains
  contains-append [] ys a = refl
  contains-append (x ∷ xs) ys a = ground (arith, contains-append xs ys a)

  -- `xs.remove(a)` where `a` is there: its first occurrence goes.
  unfoldable pub without_first : A → List A → List A
  without_first a [] = []
  without_first a (x ∷ xs) = if x == a then xs else x ∷ without_first a xs

  abbrev pub count : A → List A → ℕ
  count a [] = 0
  count a (x ∷ xs) = (if x == a then 1 else 0) + count a xs

  pub count-without_first :
      (a : A) (xs : List A) → contains xs a ≡ true → count a (without_first a xs) + 1 ≡ count a xs
  unfolding contains without_first
  count-without_first a [] h = cc
  count-without_first a (x ∷ xs) h = ground (arith, count-without_first a xs)

  pub count-without_first_ne :
      (a b : A) (xs : List A) → (a == b) ≡ false → count b (without_first a xs) ≡ count b xs
  unfolding without_first
  count-without_first_ne a b [] h = refl
  count-without_first_ne a b (x ∷ xs) h =
      ground (arith, count-without_first_ne a b xs, e.beq_iff x a, e.beq_iff x b, e.beq_iff a b)

  pub contains-eq-ltb : (a : A) (xs : List A) → contains xs a ≡ ltb 0 (count a xs)
  unfolding contains
  contains-eq-ltb a [] = ground arith
  contains-eq-ltb a (x ∷ xs) = ground (arith, contains-eq-ltb a xs)
