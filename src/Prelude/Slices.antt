-- ===== src/Prelude/Slices.antt =====
-- The slices xs[i:end] that a loop takes of a list, `size` at a time.
use Prim.Native.Nat.{ℕ, ◌+◌, ◌-◌, ◌≤◌}
use mathlib.Core.Path.{◌≡◌, sym, ap, ◌∙◌}
use mathlib.Core.Logic.{inl, inr}
use mathlib.Core.List.{List}
use native.Mathlib.Omega.{arith}
use brokernode.Prelude.Tests.{ltb, if◌then◌else◌, Bool-cases, tests, ltb→lt}
use brokernode.Prelude.Lists.{length, take, drop, take_all, length-take, length-drop}

-- The end of the slice from i on: i + size, or the length n where that is less.
abbrev pub slice_end : ℕ → ℕ → ℕ → ℕ
slice_end size n i = if ltb n (i + size) then n else i + size

add_sub : (i k : ℕ) → i + k - i ≡ k
add_sub i k = omega arith

module _ {ℓ} {A : Type ℓ} where
  -- The slice is what `take` gives, which stops at the end too.
  pub take-slice_end :
      (size : ℕ) (xs : List A) (i : ℕ)
      → take (slice_end size (length xs) i - i) (drop i xs) ≡ take size (drop i xs)
  take-slice_end size xs i = elim (Bool-cases (ltb (length xs) (i + size))) [
    | inl short ↦
        rw (short, slice_end)
          (take_all (length xs - i) (drop i xs) (omega (arith, length-drop i xs))
            ∙ sym (
                take_all size (drop i xs)
                  (omega (tests, length-drop i xs, ltb→lt (length xs) (i + size) short))))
    | inr long ↦ rw (long, slice_end) (ap (λ k. take k (drop i xs)) (add_sub i size))
  ]

  pub length-slice_end :
      (size : ℕ) (xs : List A) (i : ℕ)
      → length (take (slice_end size (length xs) i - i) (drop i xs)) ≤ size
  length-slice_end size xs i = omega (
    arith,
    length-take (slice_end size (length xs) i - i) (drop i xs),
    at_most size (length xs) i,
  )
    where
      at_most : (size n i : ℕ) → slice_end size n i - i ≤ size
      at_most size n i = ground arith
