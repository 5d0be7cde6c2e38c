-- ===== src/Runner/Columns.antt =====
-- Which names `fetch_columns` gives to the columns of a result.
use redash.Prelude.{
  ℕ, String, ◌≡◌, refl, Bool, true, false, ◌&&◌, not, Option, List, [], ◌∷◌, ◌++◌, map, arith, ◌==◌,
  nat_eq, string_eq, list_eq, option_eq, list_beq_iff, contains, pair_eq,
}
use redash.Prelude.Decimal.{decimal}
use redash.Runner.{Column, fetch_from, fetch_columns}

abbrev pub names : List Column → List (List ℕ)
names columns = map (λ c. c.name) columns

abbrev pub given_names : List (List ℕ × Option String) → List (List ℕ)
given_names columns = map (λ (c : List ℕ × Option String). c.0) columns

-- No name stands twice, and none is among `seen`.
unfoldable pub fresh : List (List ℕ) → List (List ℕ) → Bool
fresh seen [] = true
fresh seen (n ∷ ns) = not (contains seen n) && fresh (seen ++ n ∷ []) ns

names-fetch_from :
    (seen : List (List ℕ)) (k : ℕ) (columns : List (List ℕ × Option String))
    → fresh seen (given_names columns) ≡ true
    → names (fetch_from seen k columns) ≡ given_names columns
unfolding fresh fetch_from
names-fetch_from seen k [] h = refl
names-fetch_from seen k ((name, type) ∷ columns) h =
    ground (arith, names-fetch_from (seen ++ name ∷ []) k columns)

-- Where the names of a result's columns are all different they are kept, in order.
pub fetch_columns-names :
    (columns : List (List ℕ × Option String))
    → fresh [] (given_names columns) ≡ true
    → names (fetch_columns columns) ≡ given_names columns
unfolding fetch_columns
fetch_columns-names columns h = names-fetch_from [] 1 columns h

append_ne : (xs : List ℕ) (y : ℕ) → (xs ++ y ∷ [] == xs) ≡ false
append_ne [] y = refl
append_ne (x ∷ xs) y = ground (arith, append_ne xs y)

-- Two columns of one name, behind a column of that name followed by the digit 1, get names of which two are
-- equal: the new name is not looked up among the names given so far.
pub fetch_columns_collision :
    (name : List ℕ) (t u v : Option String)
    → names (fetch_columns ((name ++ decimal 1, t) ∷ (name, u) ∷ (name, v) ∷ []))
      ≡ (name ++ decimal 1) ∷ name ∷ (name ++ decimal 1) ∷ []
unfolding fetch_columns contains decimal
fetch_columns_collision name t u v =
    ground (arith, append_ne name 49, list_beq_iff name name, list_beq_iff (name ++ decimal 1) name)
