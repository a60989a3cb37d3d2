-- ===== src/Utils/Indexes/Generate.antt =====
-- utils/utils.go: the counts of chunks, and GenerateInsertedIndexesForPearl.
use brokernode.Prelude.{
  ◌∙◌, ◌==◌, false, ℕ, zero, suc, ◌+◌, ◌-◌, ◌*◌, ◌/◌, ◌^◌, ◌≤◌, ◌<◌, some, List, [], ◌∷◌, get_elem?,
  length, ap, ◌≡◌, refl, arith, if◌then◌else◌, leb,
}
use brokernode.Prelude.Int.{
  ℤ, pos, negsuc, pos_part, neg_part, ◌+ℤ◌, ◌-ℤ◌, int_laws, parts_exclusive, +ℤ-pos,
}
use brokernode.Utils.Indexes.{
  convert_to_byte, convert_to_trytes, num_of_sectors, total_chunks_using_file_size,
  total_chunks_using_num_chunks, insert_loop, generate_inserted_indexes,
}

-- A file's size in trytes gives its size in bytes back, where doubling it stays below 2^64.
pub convert_to_byte-convert_to_trytes :
    (bytes : ℕ) → bytes < 2 ^ 63 → convert_to_byte (convert_to_trytes bytes) ≡ bytes
unfolding convert_to_byte convert_to_trytes
convert_to_byte-convert_to_trytes bytes h = omega arith

-- The two counts of a file of n chunks of 1024 bytes. Between k sectors without their treasures and
-- k sectors with them, for k up to 999999, the one that goes by the number of chunks leaves room
-- for one treasure fewer than the one that goes by the size.
pub total_chunks_differ :
    (k n : ℕ)
    → 0 < k
    → k ≤ 999999
    → k * 999999 < n
    → n ≤ k * 1000000
    → (m : ℕ) × (total_chunks_using_num_chunks (pos n) ≡ pos m)
      × (total_chunks_using_file_size (1024 * n) ≡ m + 1)
unfolding total_chunks_using_num_chunks total_chunks_using_file_size ◌+ℤ◌
total_chunks_differ k n p h l u = (n + k, ground arith, ground arith)

suc-ne-zero : (s : ℕ) → (suc s == 0) ≡ false
suc-ne-zero s = ground arith

module _ (draw : ℕ → ℕ → ℕ) (in_range : (i n : ℕ) → 0 < n → draw i n < n) where
  -- The places of the rounds that are left, from the first slot of the current sector.
  abbrev Fits : ℤ → List ℕ → Type 0
  Fits remainder xs =
      (j : ℕ)
      → j < length xs
      → (t : ℕ) × (get_elem? xs j ≡ some t) × (t < 1000000) × (j * 1000000 + t < pos_part remainder)

  Fits-cons :
      (remainder : ℤ) (t : ℕ) (xs : List ℕ)
      → t < 1000000
      → t < pos_part remainder
      → Fits (remainder -ℤ pos 1000000) xs
      → Fits remainder (t ∷ xs)
  Fits-cons remainder t xs a b h zero lt = (t, refl, a, omega arith)
  Fits-cons remainder t xs a b h (suc j) lt =
      let (t', found, small, fits) = h j (omega arith) in
      (t', found, small, omega (int_laws, parts_exclusive (remainder -ℤ pos 1000000)))

  insert_loop-Fits :
      (rounds i : ℕ) (remainder : ℤ)
      → 1000000 * rounds + neg_part remainder < pos_part remainder + 1000000
      → (xs : List ℕ) × (insert_loop draw rounds i remainder ≡ some xs)
        × (length xs ≡ rounds)
        × Fits remainder xs
  unfolding insert_loop
  insert_loop-Fits zero i remainder h = ([], refl, refl, λ j lt. elim lt [ ])
  insert_loop-Fits (suc rounds) i (negsuc n) h = absurd (omega arith)
  insert_loop-Fits (suc rounds) i (pos zero) h = absurd (omega arith)
  insert_loop-Fits (suc rounds) i (pos (suc n)) h =
      let (xs, found, len, fits) =
        insert_loop-Fits rounds (suc i) (pos (suc n) -ℤ pos 1000000) (omega int_laws) in
      (
        draw i (if leb (suc n) 1000000 then suc n else 1000000) ∷ xs,
        ground (arith, found),
        ap suc len,
        Fits-cons (pos (suc n)) (draw i (if leb (suc n) 1000000 then suc n else 1000000)) xs
            (ground (arith, in_range i (suc n), in_range i 1000000))
            (ground (arith, in_range i (suc n), in_range i 1000000)) fits,
      )

  generate_suc :
      (s : ℕ)
      → generate_inserted_indexes draw (suc s)
        ≡ insert_loop draw
            (num_of_sectors (suc s))
            0
            (pos ((suc s + 1024 - 1) / 1024) +ℤ pos (num_of_sectors (suc s)))
  unfolding generate_inserted_indexes
  generate_suc s = rw (suc-ne-zero s) refl

  -- If every rand.Intn(n) is below a positive n, GenerateInsertedIndexesForPearl does not panic. It
  -- gives one place for each sector, below the sector's size, and counted from the start of the
  -- file it is below the number of chunks that goes by the file's size.
  pub generate_inserted_indexes_fit :
      (size : ℕ)
      → (xs : List ℕ) × (generate_inserted_indexes draw size ≡ some xs)
        × (length xs ≡ num_of_sectors size)
        × ((i : ℕ)
            → i < length xs
            → (t : ℕ) × (get_elem? xs i ≡ some t)
              × (t < 1000000)
              × (i * 1000000 + t < total_chunks_using_file_size size))
  unfolding generate_inserted_indexes total_chunks_using_file_size
  generate_inserted_indexes_fit zero = ([], refl, refl, λ i lt. elim lt [ ])
  generate_inserted_indexes_fit (suc s) =
      let chunks = (suc s + 1024 - 1) / 1024 in
      let sectors = num_of_sectors (suc s) in
      let enough : 1000000 * sectors < chunks + sectors + 1000000 = omega arith in
      let (xs, found, len, fits) =
        insert_loop-Fits sectors 0 (pos chunks +ℤ pos sectors) (rw +ℤ-pos (omega arith)) in
      (
        xs,
        generate_suc s ∙ found,
        len,
        λ i lt.
            let (t, at, small, fit) = fits i lt in
            (t, at, small, omega (arith, ap pos_part (+ℤ-pos chunks sectors))),
      )
