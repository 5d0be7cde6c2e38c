-- ===== src/Paging/Pages.antt =====
-- Which pages there are, and that together they are all the rows.
use redash.Prelude.{
  ℕ, zero, suc, ◌+◌, ◌-◌, ◌*◌, ◌≤◌, ◌<◌, ◌≡◌, refl, sym, ap, ◌∙◌, List, [], ◌∷◌, ◌++◌, map, arith,
  nat_eq, string_eq, list_eq, option_eq, length, take, drop, pair_eq,
}
use redash.Handler.{ok}
use redash.Paging.{Page, items, paginate}

module _ {A : Type 0} where
  length-take-le : (n : ℕ) (xs : List A) → length (take n xs) ≤ n
  length-take-le zero xs = omega arith
  length-take-le (suc n) [] = omega arith
  length-take-le (suc n) (x ∷ xs) = omega (arith, length-take-le n xs)

  take-nil : (n : ℕ) → take {A = A} n [] ≡ []
  take-nil zero = refl
  take-nil (suc n) = refl

  take-add : (m n : ℕ) (xs : List A) → take m xs ++ take n (drop m xs) ≡ take (m + n) xs
  take-add zero n xs = ap (λ k. take k xs) (zero-plus n)
    where
      zero-plus : (n : ℕ) → n ≡ 0 + n
      zero-plus n = omega arith
  take-add (suc m) n [] = take-nil n ∙ sym (take-nil (suc m + n))
  take-add (suc m) n (x ∷ xs) =
      ap (λ l. x ∷ l) (take-add m n xs) ∙ ap (λ k. take k (x ∷ xs)) (suc-plus m n)
    where
      suc-plus : (m n : ℕ) → suc (m + n) ≡ suc m + n
      suc-plus m n = omega arith

  length-take : (n : ℕ) (xs : List A) → 0 < n → 0 < length xs → 0 < length (take n xs)
  length-take (suc n) (x ∷ xs) h g = omega arith
  length-take zero xs h g = absurd (omega (arith, h))
  length-take (suc n) [] h g = absurd (omega (arith, g))

  length-drop : (n : ℕ) (xs : List A) → length (drop n xs) ≡ length xs - n
  length-drop zero xs = omega arith
  length-drop (suc n) [] = omega arith
  length-drop (suc n) (x ∷ xs) = omega (arith, length-drop n xs)

module _ {A B : Type 0} where
  length-map : (f : A → B) (xs : List A) → length (map f xs) ≡ length xs
  length-map f [] = refl
  length-map f (x ∷ xs) = omega (arith, length-map f xs)

  map-append : (f : A → B) (xs ys : List A) → map f (xs ++ ys) ≡ map f xs ++ map f ys
  map-append f [] ys = refl
  map-append f (x ∷ xs) ys = ap (λ l. f x ∷ l) (map-append f xs ys)

  paginate-tests :
      (rows : List A) (page page_size : ℕ) (f : A → B) (p : Page B)
      → paginate rows page page_size f ≡ ok p
      → (1 ≤ page)
        × (1 ≤ page_size)
        × (page_size ≤ 250)
        × (0 < length rows → (page - 1) * page_size < length rows)
        × (p.count ≡ length rows)
        × (p.results ≡ map f (items rows page page_size))
  unfolding paginate
  paginate-tests rows page page_size f p h = (
    ground (arith, h),
    ground (arith, h),
    ground (arith, h),
    λ g. ground (arith, h, g),
    ground (arith, h),
    ground (arith, h),
  )

  -- A page that is shown is one of those that there are: its number is from 1, its size from 1 to 250, it counts all
  -- rows, it has at most its size of them, and some if there are any; it goes on where the pages before it
  -- ended.
  pub paginate_bounds :
      (rows : List A) (page page_size : ℕ) (f : A → B) (p : Page B)
      → paginate rows page page_size f ≡ ok p
      → (1 ≤ page)
        × (1 ≤ page_size)
        × (page_size ≤ 250)
        × (p.count ≡ length rows)
        × (length p.results ≤ page_size)
        × (0 < length rows → 0 < length p.results)
        × (map f (take ((page - 1) * page_size) rows) ++ p.results
            ≡ map f (take ((page - 1) * page_size + page_size) rows))
  paginate_bounds rows page page_size f p h =
      let (a, b, c, d, e, r) = paginate-tests rows page page_size f p h in
      let offset = (page - 1) * page_size in
      let n = length-map f (items rows page page_size) in
      let rest = length-drop offset rows in
      (
        a,
        b,
        c,
        e,
        rw r (omega (arith, n, length-take-le page_size (drop offset rows))),
        λ g. rw r (
            omega (
              arith,
              n,
              length-take page_size (drop offset rows) (omega (arith, b))
                  (omega (arith, rest, d g)),
            )),
        ap (λ l. map f (take offset rows) ++ l) r
            ∙ sym (map-append f (take offset rows) (items rows page page_size))
            ∙ ap (map f) (take-add offset page_size rows),
      )
