-- ===== src/Runner/QueryResults/Ids.antt =====
-- The ids of the queries whose tables a query names.
use redash.Prelude.{
  ℕ, ◌≡◌, refl, sym, ap, ◌∙◌, Bool, true, false, not, Option, none, some, List, [], ◌∷◌, ◌++◌,
  arith, nat_eq, string_eq, list_eq, option_eq, all, contains, pair_eq,
}
use redash.Prelude.Decimal.{value, is_digit, decimal, value-decimal, decimal_sound, decimal-ne-nil}
use redash.Runner.QueryResults.{
  query_word, number_of, after_word, after_spaces, leading_digits, prepend, match_table, match_at,
  extract_query_ids,
}

-- The text does not begin with a digit.
abbrev pub ends_number : List ℕ → Bool
ends_number [] = true
ends_number (c ∷ s) = not (is_digit c)

leading_digits-append :
    (ds rest : List ℕ)
    → all is_digit ds ≡ true
    → ends_number rest ≡ true
    → leading_digits (ds ++ rest) ≡ ds
unfolding leading_digits all
leading_digits-append [] [] d e = refl
leading_digits-append [] (c ∷ rest) d e = ground (arith, e)
leading_digits-append (x ∷ ds) rest d e = ground (arith, d, leading_digits-append ds rest)

number_of-decimal : (n : ℕ) (ds : List ℕ) → decimal n ≡ ds → number_of ds ≡ some n
number_of-decimal n [] h = absurd (decimal-ne-nil n h)
number_of-decimal n (d ∷ ds) h = ap some (ap (value 0) (sym h) ∙ value-decimal n)

-- Both words, in lower case.
abbrev pub join_or_from : Bool → List ℕ
join_or_from true = b'j' ∷ b'o' ∷ b'i' ∷ b'n' ∷ []
join_or_from false = b'f' ∷ b'r' ∷ b'o' ∷ b'm' ∷ []

module _ (n : ℕ) (rest : List ℕ) (ends : ends_number rest ≡ true) where
  match_table-decimal : match_table (b' ' ∷ query_word ++ decimal n ++ rest) ≡ some n
  unfolding match_table after_word after_spaces
  match_table-decimal =
      ap number_of (leading_digits-append (decimal n) rest (decimal_sound n) ends)
      ∙ number_of-decimal n (decimal n) refl

  contains-prepend :
      (o : Option ℕ) (ids : List ℕ) → contains ids n ≡ true → contains (prepend o ids) n ≡ true
  unfolding contains
  contains-prepend none ids h = h
  contains-prepend (some id) ids h = ground (arith, h)

  contains-later :
      (c : ℕ) (s : List ℕ)
      → contains (extract_query_ids s) n ≡ true
      → contains (extract_query_ids (c ∷ s)) n ≡ true
  unfolding extract_query_ids
  contains-later c s h = contains-prepend (match_at (c ∷ s)) (extract_query_ids s) h

  contains-match_at :
      (c : ℕ) (s : List ℕ)
      → match_at (c ∷ s) ≡ some n
      → contains (extract_query_ids (c ∷ s)) n ≡ true
  unfolding extract_query_ids contains
  contains-match_at c s e = first (match_at (c ∷ s)) e
    where
      first : (o : Option ℕ) → o ≡ some n → contains (prepend o (extract_query_ids s)) n ≡ true
      first o e = rw e (ground (arith, nat_eq.beq_iff n n))

  match_at-join :
      match_at (b'j' ∷ b'o' ∷ b'i' ∷ b'n' ∷ b' ' ∷ query_word ++ decimal n ++ rest) ≡ some n
  unfolding match_at after_word
  match_at-join = match_table-decimal

  match_at-from :
      match_at (b'f' ∷ b'r' ∷ b'o' ∷ b'm' ∷ b' ' ∷ query_word ++ decimal n ++ rest) ≡ some n
  unfolding match_at after_word
  match_at-from = match_table-decimal

  contains-here :
      (word : Bool)
      → contains (extract_query_ids (join_or_from word ++ b' ' ∷ query_word ++ decimal n ++ rest)) n
        ≡ true
  contains-here true = contains-match_at _ _ match_at-join
  contains-here false = contains-match_at _ _ match_at-from

  -- A query finds every query whose table it names behind 'join' or 'from' and a space, wherever in its text
  -- that is.
  pub extract_query_ids_complete :
      (before : List ℕ) (word : Bool)
      → contains
          (extract_query_ids
            (before ++ join_or_from word ++ b' ' ∷ query_word ++ decimal n ++ rest))
          n
        ≡ true
  extract_query_ids_complete [] word = contains-here word
  extract_query_ids_complete (c ∷ before) word =
      contains-later c _ (extract_query_ids_complete before word)
