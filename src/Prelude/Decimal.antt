-- ===== src/Prelude/Decimal.antt =====
-- Numbers printed in decimal, as `str(n)` and `"{}".format(n)` do, over code points.
use Prim.Native.Nat.{ℕ, zero, suc, ◌+◌, ◌-◌, ◌*◌, ◌/◌, ◌%◌, ◌<◌}
use Prim.Native.String.{String, slice, ◌++◌ as cat}
use mathlib.Core.Path.{◌≡◌, refl, sym, ap, ◌∙◌}
use mathlib.Core.List.{List, [], ◌∷◌, ◌++◌}
use native.Mathlib.Omega.{arith}
use mathlib.Core.Bool.{Bool, true, ◌&&◌}
use mathlib.Core.Logic.{◌≢◌}
use redash.Prelude.Tests.{ltb, leb, if◌then◌else◌}
use redash.Prelude.Lists.{all}

digits : ℕ → ℕ → List ℕ
digits zero n = []
digits (suc fuel) n =
    let rest = digits fuel (n / 10) in
    if ltb n 10 then (48 + n) ∷ [] else rest ++ (48 + n % 10) ∷ []

unfoldable pub decimal : ℕ → List ℕ
unfolding digits
decimal n = digits (suc n) n

-- `int(text)` of digits, behind those that are read.
unfoldable pub value : ℕ → List ℕ → ℕ
value acc [] = acc
value acc (c ∷ cs) = value (acc * 10 + (c - 48)) cs

value-append :
    (acc : ℕ) (xs : List ℕ) (c : ℕ) → value acc (xs ++ c ∷ []) ≡ value acc xs * 10 + (c - 48)
unfolding value
value-append acc [] c = refl
value-append acc (x ∷ xs) c = value-append (acc * 10 + (x - 48)) xs c

value-digits : (fuel n : ℕ) → n < fuel → value 0 (digits fuel n) ≡ n
unfolding digits value
value-digits zero n h = elim h [ ]
value-digits (suc fuel) n h =
    ground (arith, value-append 0 (digits fuel (n / 10)) (48 + n % 10), value-digits fuel (n / 10))

pub value-decimal : (n : ℕ) → value 0 (decimal n) ≡ n
unfolding decimal
value-decimal n = value-digits (suc n) n (omega arith)

-- The class \d.
abbrev pub is_digit : ℕ → Bool
is_digit c = leb 48 c && leb c 57

append_sound : (xs : List ℕ) (c : ℕ) → all is_digit (xs ++ c ∷ []) ≡ (all is_digit xs && is_digit c)
unfolding all
append_sound [] c = ground arith
append_sound (x ∷ xs) c = ground (arith, append_sound xs c)

digits_sound : (fuel n : ℕ) → all is_digit (digits fuel n) ≡ true
unfolding digits all
digits_sound zero n = refl
digits_sound (suc fuel) n =
    ground (arith, append_sound (digits fuel (n / 10)) (48 + n % 10), digits_sound fuel (n / 10))

pub decimal_sound : (n : ℕ) → all is_digit (decimal n) ≡ true
unfolding decimal
decimal_sound n = digits_sound (suc n) n

append-ne-nil : (xs : List ℕ) (c : ℕ) → xs ++ c ∷ [] ≢ []
append-ne-nil [] c h = cc
append-ne-nil (x ∷ xs) c h = cc

pub decimal-ne-nil : (n : ℕ) → decimal n ≢ []
unfolding decimal digits
decimal-ne-nil n h = ground (arith, h, append-ne-nil (digits n (n / 10)) (48 + n % 10))

-- Different numbers print differently.
pub decimal-injective : (m n : ℕ) → decimal m ≡ decimal n → m ≡ n
unfolding decimal
decimal-injective m n h =
    sym (value-digits (suc m) m (omega arith))
    ∙ ap (value 0) h
    ∙ value-digits (suc n) n (omega arith)

abbrev pub concat : String → String → String
concat s t = cat s t

-- The same as a String, to be part of a name.
digit : ℕ → String
digit d = slice "0123456789" d (d + 1)

string_digits : ℕ → ℕ → String
string_digits zero n = ""
string_digits (suc fuel) n =
    let rest = string_digits fuel (n / 10) in
    if ltb n 10 then digit n else concat rest (digit (n % 10))

unfoldable pub printed : ℕ → String
unfolding digit string_digits
printed n = string_digits (suc n) n
