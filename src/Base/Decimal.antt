-- ===== src/Base/Decimal.antt =====
-- `format!("{}", n)` of an integer.
use Prim.Native.Nat.{ℕ, zero, suc, ◌+◌, ◌/◌, ◌%◌}
use Prim.Native.Char.{Char}
use Prim.Native.String.{String, [], ◌∷◌}
use mathlib.Core.Path.{◌≡◌, refl}
use nexuspouch.Base.Tests.{ltb, eqb, if◌then◌else◌}
use nexuspouch.Base.Int.{ℤ, pos, negsuc}

abbrev digit : ℕ → Char
digit d =
    if eqb d 0
    then "0"
    else if eqb d 1
    then "1"
    else if eqb d 2
    then "2"
    else if eqb d 3
    then "3"
    else if eqb d 4
    then "4"
    else if eqb d 5
    then "5"
    else if eqb d 6
    then "6"
    else if eqb d 7
    then "7"
    else if eqb d 8
    then "8"
    else "9"

digits : ℕ → ℕ → String → String
digits zero n tail = tail
digits (suc fuel) n tail =
    let here = digit (n % 10) ∷ tail in
    let more = digits fuel (n / 10) here in if ltb n 10 then here else more

-- Forty digits hold every number of 128 bits.
unfoldable pub show_ℕ : ℕ → String
unfolding digits
show_ℕ n = digits 40 n []

unfoldable pub show_ℤ : ℤ → String
unfolding show_ℕ
show_ℤ (pos n) = show_ℕ n
show_ℤ (negsuc n) = "-" ∷ show_ℕ (n + 1)

shows : show_ℤ (negsuc 1029) ≡ "-1030"
unfolding show_ℤ
shows = refl
