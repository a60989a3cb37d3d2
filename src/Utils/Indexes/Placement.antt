-- ===== src/Utils/Indexes/Placement.antt =====
-- utils/utils.go, TransformIndexWithBuriedIndexes: where the chunks of a file go round its
-- treasure chunks.
use brokernode.Prelude.{
  ℕ, ◌+◌, ◌/◌, ◌%◌, some, List, [], ◌∷◌, get_elem?, ap, ◌≡◌, ◌≢◌, arith, if◌then◌else◌, leb, ltb,
  ◌∙◌, ◌*◌, ◌<◌, ◌-◌,
}
use brokernode.Prelude.Int.{ℤ, pos, ◌+ℤ◌, ◌-ℤ◌, ◌*ℤ◌}
use brokernode.Utils.Indexes.{transform_index, place}

-- The slot of chunk n, where the treasure of its sector is k slots into the sector.
abbrev pub slot_of : ℕ → ℕ → ℕ
slot_of n k = n + n / 999999 + (if leb k (n % 999999) then 1 else 0)

place_pos : (n k : ℕ) → place (pos n) (pos (n / 999999)) (pos k) ≡ pos (slot_of n k)
unfolding place ◌+ℤ◌ ◌-ℤ◌ ◌*ℤ◌
place_pos n k = ground arith

pub transform_index_pos :
    (m : List ℤ) (n k : ℕ)
    → get_elem? m (n / 999999) ≡ some (pos k)
    → transform_index (pos n) m ≡ some (pos (slot_of n k))
unfolding transform_index
transform_index_pos [] n k h = cc
transform_index_pos (t ∷ ts) n k h = rw (h, transform_index) (ap some (place_pos n k))

-- A chunk stays in its own sector and never takes the treasure's slot: with the treasure of
-- sector s at k slots into the sector, the chunk's slot is in sector s and is not that one.
pub transform_index_avoids :
    (m : List ℤ) (n k : ℕ)
    → get_elem? m (n / 999999) ≡ some (pos k)
    → (p : ℕ) × (transform_index (pos n) m ≡ some (pos p))
      × (p / 1000000 ≡ n / 999999)
      × (p % 1000000 ≢ k)
transform_index_avoids m n k h =
    (slot_of n k, transform_index_pos m n k h, ground arith, ground arith)

-- Two chunks with the same slot are the same chunk, whatever the treasures' places are.
slot_of_inj :
    (n n' k k' : ℕ) → (n / 999999 ≡ n' / 999999 → k ≡ k') → slot_of n k ≡ slot_of n' k' → n ≡ n'
slot_of_inj n n' k k' same e = ground arith

-- Two chunks whose sectors' treasures have places never share a slot.
pub transform_index_inj :
    (m : List ℤ) (n n' k k' : ℕ)
    → get_elem? m (n / 999999) ≡ some (pos k)
    → get_elem? m (n' / 999999) ≡ some (pos k')
    → transform_index (pos n) m ≡ transform_index (pos n') m
    → n ≡ n'
transform_index_inj m n n' k k' h h' e =
    slot_of_inj n n' k k' (λ s. cc)
      (ground (arith, transform_index_pos m n k h, transform_index_pos m n' k' h'))

-- The chunk of slot p, where the treasure is k slots into p's sector.
abbrev chunk_at : ℕ → ℕ → ℕ
chunk_at p k =
    if ltb (p % 1000000) k
    then p / 1000000 * 999999 + p % 1000000
    else p / 1000000 * 999999 + p % 1000000 - 1

chunk_at_sector : (p k : ℕ) → k < 1000000 → p % 1000000 ≢ k → chunk_at p k / 999999 ≡ p / 1000000
chunk_at_sector p k b h = ground arith

slot_of-chunk_at : (p k : ℕ) → k < 1000000 → p % 1000000 ≢ k → slot_of (chunk_at p k) k ≡ p
slot_of-chunk_at p k b h = ground arith

-- Every slot but the treasure's is taken: with the treasure of p's sector at k slots into it, and
-- p elsewhere, some chunk goes to slot p.
pub transform_index_covers :
    (m : List ℤ) (p k : ℕ)
    → k < 1000000
    → p % 1000000 ≢ k
    → get_elem? m (p / 1000000) ≡ some (pos k)
    → (n : ℕ) × (transform_index (pos n) m ≡ some (pos p))
transform_index_covers m p k b h e = (
  chunk_at p k,
  transform_index_pos m (chunk_at p k) k (rw (chunk_at_sector p k b h) e)
      ∙ ap (λ x. some (pos x)) (slot_of-chunk_at p k b h),
)
