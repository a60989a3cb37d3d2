-- ===== src/Utils/Indexes.antt =====
-- utils/utils.go: the counts of chunks and sectors, and the places of the treasure chunks.
-- An int that the source fills from a request is an integer; a panic is `none`.
pub mod Placement
pub mod Merge
pub mod Generate
mod Tests
use brokernode.Prelude.{
  ℕ, zero, suc, ◌+◌, ◌-◌, ◌*◌, ◌/◌, ◌%◌, ◌^◌, leb, ltb, ◌==◌, if◌then◌else◌, Option, none, some,
  List, [], ◌∷◌, length, get_elem?, ◌&&◌, ◌||◌, not, Bool,
}
use brokernode.Prelude.Int.{ℤ, pos, negsuc, sub_ℕ, ◌+ℤ◌, ◌-ℤ◌, ◌*ℤ◌, leb_ℤ, eqb_ℤ}
use brokernode.Prelude.Word.{to_uint64}
use brokernode.Utils.Float.{ceil_div, ceil_div_ℤ, float64_of, float_mod}

abbrev pub byte_to_trytes : ℕ
byte_to_trytes = 2

abbrev pub file_chunk_size_in_byte : ℕ
file_chunk_size_in_byte = 1024

abbrev pub file_sector_in_chunk_size : ℕ
file_sector_in_chunk_size = 1000000

-- ConvertToByte
pub convert_to_byte : ℕ → ℕ
convert_to_byte trytes = ceil_div trytes byte_to_trytes

-- ConvertToTrytes, on uint64
pub convert_to_trytes : ℕ → ℕ
convert_to_trytes bytes = (bytes * byte_to_trytes) % 2 ^ 64

-- How many sectors GetTotalFileChunkIncludingBuriedPearlsUsingFileSize and
-- GenerateInsertedIndexesForPearl give a file: one chunk of each sector is the treasure's.
abbrev pub num_of_sectors : ℕ → ℕ
num_of_sectors size = ceil_div size (file_chunk_size_in_byte * (file_sector_in_chunk_size - 1))

-- GetTotalFileChunkIncludingBuriedPearlsUsingFileSize
pub total_chunks_using_file_size : ℕ → ℕ
total_chunks_using_file_size size = num_of_sectors size + ceil_div size file_chunk_size_in_byte

-- GetTotalFileChunkIncludingBuriedPearlsUsingNumChunks
unfoldable pub total_chunks_using_num_chunks : ℤ → ℤ
total_chunks_using_num_chunks n = n +ℤ ceil_div_ℤ n file_sector_in_chunk_size

-- Go's integer division drops the fraction of a negative quotient too.
abbrev pub quot_ℤ : ℤ → ℕ → ℤ
quot_ℤ (pos n) d = pos (n / d)
quot_ℤ (negsuc n) d = sub_ℕ 0 (suc n / d)

-- xs[i], which panics out of range.
abbrev pub index_slice {ℓ} : {A : Type ℓ} → List A → ℤ → Option A
index_slice xs (pos n) = get_elem? xs n
index_slice xs (negsuc n) = none

-- The two branches of TransformIndexWithBuriedIndexes, once the treasure's index is read.
place : ℤ → ℤ → ℤ → ℤ
place index sector treasure =
    if leb_ℤ treasure (index -ℤ sector *ℤ pos (file_sector_in_chunk_size - 1))
    then index +ℤ sector +ℤ pos 1
    else index +ℤ sector

-- TransformIndexWithBuriedIndexes. No sum here passes int64: `sector` is below the slice's length.
pub transform_index : ℤ → List ℤ → Option ℤ
unfolding place
transform_index index [] = some index
transform_index index (t ∷ ts) =
    let sector = quot_ℤ index (file_sector_in_chunk_size - 1) in
    elim (index_slice (t ∷ ts) sector) [
      | none ↦ none
      | some treasure ↦ some (place index sector treasure)
    ]

-- One round of the loop of MergeIndexes. `hash` is the first eight bytes of the md5 of a number's
-- eight bytes, both big-endian; `nan` is what int(NaN) gives, which Go leaves open.
module _ (hash : ℕ → ℕ) (nan : ℤ) (sector_size num_chunks : ℤ) where
  max_idx : ℕ → ℕ → ℤ
  max_idx i len = if i == len - 1 then num_chunks -ℤ sector_size *ℤ pos (len - 1) else sector_size

  int_of_mod : ℕ → ℤ → ℤ
  int_of_mod x m = elim (float_mod x m) [ none ↦ nan | some r ↦ pos r ]

  merged_index : ℕ → ℕ → ℤ → ℤ → ℤ
  unfolding max_idx int_of_mod
  merged_index i len a b =
      let val = hash (to_uint64 (a +ℤ b)) in
      let idx = int_of_mod (float64_of val) (max_idx i len) +ℤ sector_size *ℤ pos i in
      if eqb_ℤ idx (pos 0) then pos 1 else idx

  -- The rounds from i on.
  merge_loop : ℕ → ℕ → List ℤ → List ℤ → List ℤ
  merge_loop i len [] bs = []
  merge_loop i len (a ∷ as') [] = []
  merge_loop i len (a ∷ as') (b ∷ bs) = merged_index i len a b ∷ merge_loop (suc i) len as' bs

  -- MergeIndexes; `none` is its error.
  pub merge_indexes : List ℤ → List ℤ → Option (List ℤ)
  unfolding merge_loop merged_index
  merge_indexes a b =
      if length a == 0 && length b == 0 || not (length a == length b)
      then none
      else some (merge_loop 0 (length a) a b)

-- The loop of GenerateInsertedIndexesForPearl: `draw i n` is the i-th call's rand.Intn(n), which
-- panics where n is not positive.
module _ (draw : ℕ → ℕ → ℕ) where
  insert_loop : ℕ → ℕ → ℤ → Option (List ℕ)
  insert_loop zero i remainder = some []
  insert_loop (suc rounds) i remainder =
      let rang =
        if leb_ℤ remainder (pos file_sector_in_chunk_size)
        then remainder
        else pos file_sector_in_chunk_size in
      let rest = insert_loop rounds (suc i) (remainder -ℤ pos file_sector_in_chunk_size) in
      elim rang [
        | pos zero ↦ none
        | pos (suc n) ↦ elim rest [ none ↦ none | some xs ↦ some (draw i (suc n) ∷ xs) ]
        | negsuc n ↦ none
      ]

  -- GenerateInsertedIndexesForPearl
  pub generate_inserted_indexes : ℕ → Option (List ℕ)
  unfolding insert_loop
  generate_inserted_indexes size =
      if size == 0
      then some []
      else insert_loop (num_of_sectors size) 0
          (pos (ceil_div size file_chunk_size_in_byte) +ℤ pos (num_of_sectors size))
