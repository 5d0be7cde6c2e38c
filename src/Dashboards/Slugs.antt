-- ===== src/Dashboards/Slugs.antt =====
-- The slugs of dashboards: of which characters they are, and that a free one is found.
use redash.Prelude.{
  ℕ, zero, suc, ◌≤◌, ◌<◌, ◌≡◌, refl, sym, ap, ◌∙◌, ◌≢◌, inl, inr, Bool, true, false, some, List, [],
  ◌∷◌, ◌++◌, arith, ◌==◌, nat_eq, string_eq, list_eq, option_eq, list_beq_iff, Bool-cases,
  Option-cases, is_some, length, all, length-append, contains, reject, pair_eq,
}
use redash.Prelude.Decimal.{decimal, decimal-injective}
use redash.Dashboards.{is_slug_char, replace_runs, numbered, search_slug, slugify, generate_slug}

replace_runs-all : (in_run : Bool) (s : List ℕ) → all is_slug_char (replace_runs in_run s) ≡ true
unfolding replace_runs all
replace_runs-all in_run [] = refl
replace_runs-all in_run (c ∷ cs) =
    ground (arith, replace_runs-all true cs, replace_runs-all false cs)

replace_runs-fixed :
    (in_run : Bool) (s : List ℕ) → all is_slug_char s ≡ true → replace_runs in_run s ≡ s
unfolding replace_runs all
replace_runs-fixed in_run [] h = refl
replace_runs-fixed in_run (c ∷ cs) h = ground (arith, h, replace_runs-fixed false cs)

-- A slug has only characters of a slug, and making a slug of it again changes nothing, where `lower` leaves
-- text of such characters as it is.
pub slugify_twice :
    (lower : List ℕ → List ℕ) (s : List ℕ)
    → ((t : List ℕ) → all is_slug_char t ≡ true → lower t ≡ t)
    → (all is_slug_char (slugify lower s) ≡ true)
      × (slugify lower (slugify lower s) ≡ slugify lower s)
unfolding slugify
slugify_twice lower s h =
    let a = replace_runs-all false (lower s) in
    (a, ap (replace_runs false) (h _ a) ∙ replace_runs-fixed false _ a)

length-numbered : (base : List ℕ) (n : ℕ) → length base < length (numbered base n)
length-numbered base n = omega (arith, length-append base (b'_' ∷ decimal n))

base-numbered_ne : (base : List ℕ) (n : ℕ) → base ≢ numbered base n
base-numbered_ne base n h = omega (arith, length-numbered base n, ap length h)

append-cancel : (base xs ys : List ℕ) → base ++ xs ≡ base ++ ys → xs ≡ ys
append-cancel [] xs ys h = h
append-cancel (b ∷ base) xs ys h = append-cancel base xs ys (cc h)

numbered-injective : (base : List ℕ) (m n : ℕ) → numbered base m ≡ numbered base n → m ≡ n
numbered-injective base m n h =
    decimal-injective m n (cc (append-cancel base (b'_' ∷ decimal m) (b'_' ∷ decimal n) h))

module _ (s : List ℕ) where
  contains-reject_ne :
      (slugs : List (List ℕ)) (t : List ℕ)
      → s ≢ t
      → contains (reject (λ x. x == s) slugs) t ≡ contains slugs t
  unfolding contains reject
  contains-reject_ne [] t n = refl
  contains-reject_ne (x ∷ slugs) t n =
      ground (arith, n, list_beq_iff x s, list_beq_iff x t, contains-reject_ne slugs t n)

  length-reject-le : (slugs : List (List ℕ)) → length (reject (λ x. x == s) slugs) ≤ length slugs
  unfolding reject
  length-reject-le [] = omega arith
  length-reject-le (x ∷ slugs) = ground (arith, length-reject-le slugs)

  length-reject-lt :
      (slugs : List (List ℕ))
      → contains slugs s ≡ true
      → length (reject (λ x. x == s) slugs) < length slugs
  unfolding contains reject
  length-reject-lt [] h = cc
  length-reject-lt (x ∷ slugs) h = ground (arith, h, length-reject-le slugs, length-reject-lt slugs)

module _ (base : List ℕ) where
  -- A slug that is no later candidate does not matter to the search.
  search_slug-reject :
      (fuel : ℕ) (s slug : List ℕ) (tries : ℕ) (slugs : List (List ℕ))
      → s ≢ slug
      → ((j : ℕ) → tries ≤ j → s ≢ numbered base j)
      → search_slug fuel base (reject (λ x. x == s) slugs) slug tries
        ≡ search_slug fuel base slugs slug tries
  unfolding search_slug
  search_slug-reject zero s slug tries slugs n h = refl
  search_slug-reject (suc fuel) s slug tries slugs n h =
      let rest =
        search_slug-reject fuel s (numbered base tries) (suc tries) slugs (h tries (omega arith))
          (λ j l. h j (omega (arith, l))) in
      rw (contains-reject_ne s slugs slug n, rest)

  search_slug-some :
      (fuel : ℕ) (slug : List ℕ) (tries : ℕ) (slugs : List (List ℕ))
      → length slugs < fuel
      → ((j : ℕ) → tries ≤ j → slug ≢ numbered base j)
      → is_some (search_slug fuel base slugs slug tries) ≡ true
  unfolding search_slug
  search_slug-some zero slug tries slugs l h = absurd (omega (arith, l))
  search_slug-some (suc fuel) slug tries slugs l h = elim (Bool-cases (contains slugs slug)) [
    | inr e ↦ rw e
    | inl e ↦ rw (
      e,
      sym (
          search_slug-reject fuel slug (numbered base tries) (suc tries) slugs
            (h tries (omega arith)) (λ j g. h j (omega (arith, g)))),
      search_slug-some fuel (numbered base tries) (suc tries) (reject (λ x. x == slug) slugs)
          (omega (arith, l, length-reject-lt slug slugs e))
          (λ j g q. omega (arith, g, numbered-injective base tries j q)),
    )
  ]

  search_slug-contains :
      (fuel : ℕ) (slug : List ℕ) (tries : ℕ) (slugs : List (List ℕ)) (r : List ℕ)
      → search_slug fuel base slugs slug tries ≡ some r
      → contains slugs r ≡ false
  unfolding search_slug
  search_slug-contains zero slug tries slugs r h = cc
  search_slug-contains (suc fuel) slug tries slugs r h =
      ground (arith, h, search_slug-contains fuel (numbered base tries) (suc tries) slugs r)

-- The search for a slug ends, with a slug that no dashboard has.
pub generate_slug_free :
    (lower : List ℕ → List ℕ) (name : List ℕ) (slugs : List (List ℕ))
    → (slug : List ℕ) × (generate_slug lower name slugs ≡ some slug) × (contains slugs slug ≡ false)
unfolding generate_slug
generate_slug_free lower name slugs =
    let base = slugify lower name in
    let fuel = suc (length slugs) in
    let h =
      search_slug-some base fuel base 1 slugs (omega arith) (λ j g. base-numbered_ne base j) in
    elim (Option-cases (search_slug fuel base slugs base 1)) [
      | inl e ↦ cc (h, e)
      | inr (slug, e) ↦ (slug, e, search_slug-contains base fuel base 1 slugs slug e)
    ]
