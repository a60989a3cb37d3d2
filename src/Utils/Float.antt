-- ===== src/Utils/Float.antt =====
-- Go's float64 and integer conversions, where utils/ passes integers through them.
-- Integers up to 2^53 convert exactly; `float64_of` says what happens above.
use brokernode.Prelude.{
  ℕ, zero, suc, ◌+◌, ◌-◌, ◌*◌, ◌/◌, ◌%◌, ◌^◌, ltb, ◌==◌, if◌then◌else◌, Option, none, some, ◌≡◌,
  refl,
}
use brokernode.Prelude.Int.{ℤ, pos, negsuc, sub_ℕ}

-- int(math.Ceil(float64(a) / float64(b))) for a below 2^53 and a positive b: the quotient's
-- rounding error is below 1 / b there, so it does not cross an integer.
abbrev pub ceil_div : ℕ → ℕ → ℕ
ceil_div a b = (a + b - 1) / b

-- The same for a signed a: the ceiling of a negative quotient drops its fraction.
abbrev pub ceil_div_ℤ : ℤ → ℕ → ℤ
ceil_div_ℤ (pos n) b = pos (ceil_div n b)
ceil_div_ℤ (negsuc n) b = sub_ℕ 0 (suc n / b)

-- The weight of the last of the 53 significant bits of n, searched from u.
abbrev unit_in_last_place : ℕ → ℕ → ℕ → ℕ
unit_in_last_place zero u n = u
unit_in_last_place (suc fuel) u n =
    let wider = unit_in_last_place fuel (2 * u) n in if ltb (n / u) (2 ^ 53) then u else wider

-- To the nearest multiple of u, and to the even one of two that are as near.
abbrev round_half_even : ℕ → ℕ → ℕ
round_half_even n u =
    let q = n / u in
    let r = n % u in
    if ltb (2 * r) u
    then q * u
    else if ltb u (2 * r)
    then (q + 1) * u
    else if q % 2 == 0
    then q * u
    else (q + 1) * u

-- float64(n) of a uint64: eleven doublings reach every n below 2^64.
unfoldable pub float64_of : ℕ → ℕ
float64_of n = round_half_even n (unit_in_last_place 11 1 n)

-- math.Mod(x, float64(y)) for an x that is not negative: the result has the sign of x, and it is
-- NaN, here `none`, where y is zero.
abbrev pub float_mod : ℕ → ℤ → Option ℕ
float_mod x (pos zero) = none
float_mod x (pos (suc n)) = some (x % suc n)
float_mod x (negsuc n) = some (x % suc n)

-- The first integer that float64 does not have goes to its even neighbour.
float64_of_above : float64_of (2 ^ 53 + 1) ≡ 2 ^ 53
unfolding float64_of
float64_of_above = refl

float64_of_max : float64_of (2 ^ 64 - 1) ≡ 2 ^ 64
unfolding float64_of
float64_of_max = refl
