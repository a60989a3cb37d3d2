-- ===== src/Prelude/Word.antt =====
-- Go's int64 and the uint64 that shares its bits.
use Prim.Native.Nat.{ℕ, ◌+◌, ◌*◌, ◌-◌, ◌%◌, ◌^◌, ◌≤◌}
use mathlib.Core.Path.{◌≡◌, refl}
use native.Mathlib.Omega.{arith}
use brokernode.Prelude.Tests.{ltb, if◌then◌else◌}
use brokernode.Prelude.Int.{
  ℤ, pos, negsuc, pos_part, neg_part, ◌+ℤ◌, ◌*ℤ◌, ◌≤ℤ◌, ◌<ℤ◌, int_laws, parts_exclusive,
}

-- The conversion of an integer to uint64.
abbrev pub to_uint64 : ℤ → ℕ
to_uint64 (pos n) = n % 2 ^ 64
to_uint64 (negsuc n) = 2 ^ 64 - 1 - n % 2 ^ 64

abbrev pub int64_of_bits : ℕ → ℤ
int64_of_bits r = if ltb r (2 ^ 63) then pos r else negsuc (2 ^ 64 - 1 - r)

-- An integer as int64 keeps it: its low 64 bits, read as two's complement.
unfoldable pub wrap64 : ℤ → ℤ
wrap64 z = int64_of_bits (to_uint64 z)

abbrev pub add64 : ℤ → ℤ → ℤ
add64 a b = wrap64 (a +ℤ b)

abbrev pub mul64 : ℤ → ℤ → ℤ
mul64 a b = wrap64 (a *ℤ b)

pub wrap64_id : (z : ℤ) → negsuc (2 ^ 63 - 1) ≤ℤ z → z <ℤ pos (2 ^ 63) → wrap64 z ≡ z
unfolding wrap64
wrap64_id (pos n) l u = ground arith
wrap64_id (negsuc n) l u = ground arith

-- Where neither side is far from zero a sum is exact.
pub add64_small :
    (i j : ℤ)
    → pos_part i + neg_part i ≤ 2 ^ 62
    → pos_part j + neg_part j ≤ 2 ^ 61
    → add64 i j ≡ i +ℤ j
add64_small i j h k =
    wrap64_id (i +ℤ j) (omega (int_laws, parts_exclusive (i +ℤ j)))
      (omega (int_laws, parts_exclusive (i +ℤ j)))

-- 10 PRL in wei do not fit: read as int64 the amount is negative.
wrap64_ten_prl : wrap64 (pos (10 * 10 ^ 18)) ≡ negsuc 8446744073709551615
unfolding wrap64
wrap64_ten_prl = refl
