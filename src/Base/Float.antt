-- ===== src/Base/Float.antt =====
-- `f64` as far as the store uses it: a number of a message is read as `f64` and cast to an integer.
use Prim.Native.Nat.{ℕ, zero, suc, ◌+◌, ◌-◌, ◌*◌, ◌/◌, ◌%◌, ◌^◌, ◌<◌}
use mathlib.Core.Path.{◌≡◌, refl}
use mathlib.Core.Bool.{Bool, true, false, ◌&&◌, ◌||◌}
use native.Mathlib.Omega.{arith}
use nexuspouch.Base.Tests.{ltb, eqb, if◌then◌else◌}
use nexuspouch.Base.Int.{ℤ, pos, negsuc, i64_max, i64_min, in_i64, saturate_i64, saturate_i64-fits}

-- `num neg m up down` is ± m * 2^up / 2^down.
pub data F64 : Type 0 where
  nan : F64
  infinite : Bool → F64
  finite : Bool → ℕ → ℕ → ℕ → F64

-- How far the number must be shifted down to have 53 binary digits.
excess : ℕ → ℕ → ℕ
excess zero n = 0
excess (suc fuel) n = let more = suc (excess fuel (n / 2)) in if ltb n (2 ^ 53) then 0 else more

-- n / 2^k to the nearest number, ties to even.
round_shift : ℕ → ℕ → ℕ
round_shift n k =
    let q = n / 2 ^ k in
    let twice_rest = 2 * (n % 2 ^ k) in
    if ltb (2 ^ k) twice_rest || (eqb twice_rest (2 ^ k) && eqb (q % 2) 1) then q + 1 else q

-- `n as f64`; a 64-bit number has at most 11 excess digits.
from_ℕ : Bool → ℕ → F64
unfolding excess round_shift
from_ℕ neg n =
    let k = excess 11 n in if eqb k 0 then finite neg n 0 0 else finite neg (round_shift n k) k 0

unfoldable pub of_ℤ : ℤ → F64
unfolding from_ℕ
of_ℤ (pos n) = from_ℕ false n
of_ℤ (negsuc n) = from_ℕ true (n + 1)

abbrev magnitude : Bool → ℕ → ℤ
magnitude false n = pos n
magnitude true zero = pos 0
magnitude true (suc n) = negsuc n

-- `x as i64`: towards zero, stopping at the bounds; NaN is 0.
unfoldable pub to_i64 : F64 → ℤ
unfolding saturate_i64
to_i64 nan = pos 0
to_i64 (infinite false) = i64_max
to_i64 (infinite true) = i64_min
to_i64 (finite neg m up down) = saturate_i64 (magnitude neg (m * 2 ^ up / 2 ^ down))

pub to_i64-fits : (x : F64) → in_i64 (to_i64 x) ≡ true
unfolding to_i64
to_i64-fits nan = refl
to_i64-fits (infinite true) = refl
to_i64-fits (infinite false) = refl
to_i64-fits (finite neg m up down) = saturate_i64-fits (magnitude neg (m * 2 ^ up / 2 ^ down))

-- `x as u64` and, on a 64-bit machine, `x as usize`.
unfoldable pub to_u64 : F64 → ℕ
to_u64 nan = 0
to_u64 (infinite false) = 2 ^ 64 - 1
to_u64 (infinite true) = 0
to_u64 (finite true m up down) = 0
to_u64 (finite false m up down) =
    let n = m * 2 ^ up / 2 ^ down in if ltb n (2 ^ 64) then n else 2 ^ 64 - 1

-- An integer below 2^53 comes back unchanged.
pub to_i64-of_ℤ : (n : ℕ) → n < 2 ^ 53 → to_i64 (of_ℤ (pos n)) ≡ pos n
unfolding to_i64 of_ℤ
to_i64-of_ℤ n h = ground arith

pub to_u64-of_ℤ : (n : ℕ) → n < 2 ^ 53 → to_u64 (of_ℤ (pos n)) ≡ n
unfolding to_u64 of_ℤ
to_u64-of_ℤ n h = ground arith

rounds_to_even : to_i64 (of_ℤ (pos (2 ^ 53 + 1))) ≡ pos (2 ^ 53)
unfolding to_i64 of_ℤ
rounds_to_even = refl
