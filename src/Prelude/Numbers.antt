-- ===== src/Prelude/Numbers.antt =====
-- Decimal numbers in texts, as `to_string` and `parse` of unsigned integers have them, and the search
-- for a text in another.
use Prim.Native.Nat.{ℕ, zero, suc, ◌+◌, ◌-◌, ◌*◌, ◌/◌, ◌%◌}
use mathlib.Core.Bool.{Bool, ◌&&◌, ◌||◌}
use mathlib.Core.Option.{Option, none, some}
use mathlib.Core.List.{List, [], ◌∷◌, ◌++◌}
use xfiles.Prelude.Tests.{ltb, leb, nat_beq, if◌then◌else◌}
use xfiles.Prelude.Texts.{Text, starts_with}

-- The digits of a number that has no more of them than the first argument says.
unfoldable pub digits : ℕ → ℕ → Text
digits zero n = []
digits (suc most) n = if ltb n 10 then (48 + n) ∷ [] else digits most (n / 10) ++ (48 + n % 10) ∷ []

-- `to_string` on `u16`
unfoldable pub show_u16 : ℕ → Text
unfolding digits
show_u16 = digits 5

unfoldable pub parse_digits : ℕ → ℕ → Text → Option ℕ
parse_digits bound n [] = if ltb n bound then some n else none
parse_digits bound n (c ∷ s) =
    let rest = parse_digits bound (n * 10 + (c - 48)) s in
    if leb 48 c && leb c 57 then rest else none

-- `parse` of an unsigned number below a bound: digits, after a plus sign or not.
unfoldable pub parse_unsigned : ℕ → Text → Option ℕ
unfolding parse_digits
parse_unsigned bound [] = none
parse_unsigned bound (c ∷ []) = parse_digits bound 0 (c ∷ [])
parse_unsigned bound (c ∷ d ∷ s) =
    if nat_beq c 43 then parse_digits bound 0 (d ∷ s) else parse_digits bound 0 (c ∷ d ∷ s)

-- `contains` on texts.
unfoldable pub contains_text : Text → Text → Bool
contains_text s [] = starts_with s []
contains_text s (c ∷ t) = starts_with s (c ∷ t) || contains_text s t

-- `chars().take(n)`
abbrev pub take {ℓ} : {A : Type ℓ} → ℕ → List A → List A
take n [] = []
take zero (a ∷ l) = []
take (suc n) (a ∷ l) = a ∷ take n l
