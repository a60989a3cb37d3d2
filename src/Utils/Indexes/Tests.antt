-- ===== src/Utils/Indexes/Tests.antt =====
-- The routines of Indexes on small files, and the theorems at concrete inputs.
use brokernode.Prelude.{
  ℕ, ◌-◌, ◌/◌, ◌%◌, ◌<◌, some, none, List, [], ◌∷◌, get_elem?, length, ◌≡◌, ◌≢◌, refl, arith,
}
use brokernode.Prelude.Int.{ℤ, pos, negsuc, ◌+ℤ◌, ◌-ℤ◌, ◌*ℤ◌}
use brokernode.Utils.Float.{float64_of}
use brokernode.Utils.Indexes.{transform_index, merge_indexes}
use brokernode.Utils.Indexes.Placement.{
  transform_index_avoids, transform_index_inj, transform_index_covers,
}
use brokernode.Utils.Indexes.Merge.{InSector, merge_indexes-InSector}

-- The cases of utils_test.go.
transform_equal_index : transform_index (pos 20) (pos 20 ∷ pos 1 ∷ []) ≡ some (pos 21)
unfolding transform_index ◌+ℤ◌ ◌-ℤ◌ ◌*ℤ◌
transform_equal_index = refl

transform_last_sector : transform_index (pos 1999997) (pos 0 ∷ pos 0 ∷ []) ≡ some (pos 1999999)
unfolding transform_index ◌+ℤ◌ ◌-ℤ◌ ◌*ℤ◌
transform_last_sector = refl

-- A negative index reads before the slice once it passes a sector.
transform_panic : transform_index (negsuc 999999) (pos 20 ∷ []) ≡ none
unfolding transform_index
transform_panic = refl

transform_index_avoids_example :
    (p : ℕ) × (transform_index (pos 20) (pos 20 ∷ pos 1 ∷ []) ≡ some (pos p))
    × (p / 1000000 ≡ 20 / 999999)
    × (p % 1000000 ≢ 20)
transform_index_avoids_example = transform_index_avoids (pos 20 ∷ pos 1 ∷ []) 20 20 refl

transform_index_inj_example : ◌≡◌ {A = ℕ} 1000005 1000005
transform_index_inj_example =
    transform_index_inj (pos 20 ∷ pos 1 ∷ []) 1000005 1000005 1 1 refl refl refl

transform_index_covers_example :
    (n : ℕ) × (transform_index (pos n) (pos 20 ∷ pos 1 ∷ []) ≡ some (pos 1000000))
transform_index_covers_example =
    transform_index_covers (pos 20 ∷ pos 1 ∷ []) 1000000 1 (omega arith) (omega arith) refl

-- A hash that keeps its argument.
abbrev same : ℕ → ℕ
same n = n

abbrev alpha_indexes : List ℤ
alpha_indexes = pos 3 ∷ pos 4 ∷ pos 5 ∷ []

abbrev beta_indexes : List ℤ
beta_indexes = pos 7 ∷ pos 8 ∷ pos 9 ∷ []

merged_places :
    merge_indexes same (pos 0) (pos 1000000) (pos 2500000) alpha_indexes beta_indexes
    ≡ some (pos 10 ∷ pos 1000012 ∷ pos 2000014 ∷ [])
unfolding merge_indexes float64_of ◌+ℤ◌ ◌-ℤ◌ ◌*ℤ◌
merged_places = refl

merge_indexes-InSector_example :
    (merged : List ℤ) × (merge_indexes same
        (pos 0)
        (pos 1000000)
        (pos 2500000)
        alpha_indexes
        beta_indexes
      ≡ some merged)
    × (length merged ≡ 3)
    × ((i : ℕ)
        → i < 3
        → (t : ℕ) × (get_elem? merged i ≡ some (pos t)) × InSector 1000000 2500000 3 i t)
merge_indexes-InSector_example =
    merge_indexes-InSector same (pos 0) 1000000 2500000 alpha_indexes beta_indexes (omega arith)
      (omega arith) refl (omega arith)

-- The largest place that is allowed.
abbrev last_place : ℕ → ℕ → ℕ
last_place i n = n - 1

last_place_in_range : (i n : ℕ) → 0 < n → last_place i n < n
last_place_in_range i n h = omega arith
