-- ===== src/Utils/Indexes/Merge.antt =====
-- utils/utils.go, MergeIndexes: the treasures' places lie in their sectors, counted from the start
-- of the file; and what TransformIndexWithBuriedIndexes makes of such places.
use brokernode.Prelude.{
  ℕ, zero, suc, ◌+◌, ◌-◌, ◌*◌, ◌/◌, ◌%◌, ◌≤◌, ◌<◌, some, none, List, [], ◌∷◌, get_elem?, ◌↔◌,
  length, ap, ◌∙◌, ◌≡◌, ◌≢◌, ◌⊎◌, refl, arith, if◌then◌else◌, ◌==◌,
}
use brokernode.Prelude.Int.{ℤ, pos, ◌+ℤ◌, +ℤ-pos, -ℤ-pos, *ℤ-pos, eqb_ℤ}
use native.Mathlib.Nat.{mod-lt}
use brokernode.Prelude.Word.{to_uint64}
use brokernode.Utils.Float.{float64_of}
use brokernode.Utils.Indexes.{
  transform_index, merge_indexes, merge_loop, merged_index, max_idx, int_of_mod,
}
use brokernode.Utils.Indexes.Placement.{transform_index_pos}

-- The entry t of sector i, of n: in the sector, or 1 for the first slot of the file. The last
-- sector of a file ends where the file does.
pub record InSector (size num_chunks n i t : ℕ) : Type 0 where
  pub from : size * i ≤ t
  pub not_first : 0 < t
  pub to : suc i < n → t < size * i + size
  pub last : suc i ≡ n → t < num_chunks ⊎ (t ≡ 1)

first_avoided :
    (x : ℕ) → (if eqb_ℤ (pos x) (pos 0) then pos 1 else pos x) ≡ pos (if x == 0 then 1 else x)
first_avoided x = ground arith

-- What the remainder of round i is taken by.
abbrev room : ℕ → ℕ → ℕ → ℕ → ℕ
room size num_chunks i n = if i == n - 1 then num_chunks - size * (n - 1) else size

module _ (hash : ℕ → ℕ) (nan : ℤ) (size num_chunks : ℕ) where
  max_idx-room :
      (i n : ℕ)
      → size * (n - 1) < num_chunks
      → max_idx hash nan (pos size) (pos num_chunks) i n ≡ pos (room size num_chunks i n)
  unfolding max_idx
  max_idx-room i n h = ground (arith, *ℤ-pos size (n - 1), -ℤ-pos num_chunks (size * (n - 1)))

  int_of_mod_pos :
      (x m : ℕ) → 0 < m → int_of_mod hash nan (pos size) (pos num_chunks) x (pos m) ≡ pos (x % m)
  unfolding int_of_mod
  int_of_mod_pos x zero h = elim h [ ]
  int_of_mod_pos x (suc m) h = refl

  -- The entry before the first slot is avoided.
  abbrev sum : ℕ → ℕ → ℤ → ℤ → ℕ
  sum i n a b = float64_of (hash (to_uint64 (a +ℤ b))) % room size num_chunks i n + size * i

  abbrev entry : ℕ → ℕ → ℤ → ℤ → ℕ
  entry i n a b = if sum i n a b == 0 then 1 else sum i n a b

  room_pos : (i n : ℕ) → 0 < size → size * (n - 1) < num_chunks → 0 < room size num_chunks i n
  room_pos i n s h = ground arith

  merged_index-entry :
      (i n : ℕ) (a b : ℤ)
      → 0 < size
      → size * (n - 1) < num_chunks
      → merged_index hash nan (pos size) (pos num_chunks) i n a b ≡ pos (entry i n a b)
  unfolding merged_index
  merged_index-entry i n a b s h = rw (max_idx-room i n h) (
      rw
        (int_of_mod_pos (float64_of (hash (to_uint64 (a +ℤ b)))) (room size num_chunks i n)
          (room_pos i n s h))
        (rw *ℤ-pos (rw +ℤ-pos (first_avoided (sum i n a b)))))

  room_bounds :
      (i n : ℕ)
      → size * (n - 1) < num_chunks
      → (suc i < n → room size num_chunks i n ≡ size)
        × (suc i ≡ n → room size num_chunks i n + size * i ≡ num_chunks)
  room_bounds i n h = (λ lt. ground arith, λ e. grind arith)

  remainder_InSector :
      (i n r : ℕ)
      → 1 < size
      → size * (n - 1) < num_chunks
      → r < room size num_chunks i n
      → InSector size num_chunks n i (if r + size * i == 0 then 1 else r + size * i)
  remainder_InSector i n r s h lt =
      let (inner, end) = room_bounds i n h in
      record {
        from = ground arith;
        not_first = ground arith;
        to = λ l. ground (arith, inner l);
        last = λ e. ground (arith, end e);
      }

  -- What holds of the entry that the loop leaves at place j of the rounds from i on.
  abbrev EntryAt : ℕ → ℕ → List ℤ → ℕ → Type 0
  EntryAt n i merged j =
      (t : ℕ) × (get_elem? merged j ≡ some (pos t)) × InSector size num_chunks n (i + j) t

  merge_loop_entries :
      (i n : ℕ) (as' bs : List ℤ) (j : ℕ)
      → 1 < size
      → size * (n - 1) < num_chunks
      → i + length as' ≡ n
      → length as' ≡ length bs
      → j < length as'
      → EntryAt n i (merge_loop hash nan (pos size) (pos num_chunks) i n as' bs) j
  unfolding merge_loop
  merge_loop_entries i n [] bs j s h e l lt = elim lt [ ]
  merge_loop_entries i n (a ∷ as') [] j s h e l lt = absurd (omega arith)
  merge_loop_entries i n (a ∷ as') (b ∷ bs) zero s h e l lt =
      let plus_zero : i + 0 ≡ i = omega arith in
      (
        entry i n a b,
        ap some (merged_index-entry i n a b (omega arith) h),
        rw plus_zero (
            remainder_InSector i n
              (float64_of (hash (to_uint64 (a +ℤ b))) % room size num_chunks i n) s h
              (mod-lt _ (room_pos i n (omega arith) h))),
      )
  merge_loop_entries i n (a ∷ as') (b ∷ bs) (suc j) s h e l lt =
      let (t, found, sector) =
        merge_loop_entries (suc i) n as' bs j s h (omega arith) (omega arith) (omega arith) in
      let shift : i + suc j ≡ suc i + j = omega arith in (t, found, rw shift sector)

length-merge_loop :
    (hash : ℕ → ℕ) (nan size num_chunks : ℤ) (i n : ℕ) (as' bs : List ℤ)
    → length as' ≡ length bs
    → length (merge_loop hash nan size num_chunks i n as' bs) ≡ length as'
unfolding merge_loop
length-merge_loop hash nan size num_chunks i n [] bs l = refl
length-merge_loop hash nan size num_chunks i n (a ∷ as') [] l = absurd (omega arith)
length-merge_loop hash nan size num_chunks i n (a ∷ as') (b ∷ bs) l =
    ap suc (length-merge_loop hash nan size num_chunks (suc i) n as' bs (omega arith))

-- For two lists of one positive length n, sectors of more than one chunk and a last sector that is
-- not empty, MergeIndexes gives n places and no error, whatever the hash: the i-th lies in sector i
-- and is not slot 0, and the last one is below the number of chunks, or is slot 1.
pub merge_indexes-InSector :
    (hash : ℕ → ℕ) (nan : ℤ) (size num_chunks : ℕ) (a b : List ℤ)
    → 1 < size
    → 0 < length a
    → length a ≡ length b
    → size * (length a - 1) < num_chunks
    → (merged : List ℤ) × (merge_indexes hash nan (pos size) (pos num_chunks) a b ≡ some merged)
      × (length merged ≡ length a)
      × ((i : ℕ)
          → i < length a
          → (t : ℕ) × (get_elem? merged i ≡ some (pos t)) × InSector size num_chunks (length a) i t)
unfolding merge_indexes
merge_indexes-InSector hash nan size num_chunks a b p ne l h = (
  merge_loop hash nan (pos size) (pos num_chunks) 0 (length a) a b,
  ground arith,
  length-merge_loop hash nan (pos size) (pos num_chunks) 0 (length a) a b l,
  λ i lt.
      let first : 0 + i ≡ i = omega arith in
      rw first at
        (merge_loop_entries hash nan size num_chunks 0 (length a) a b i p h (omega arith) l lt),
)

-- MergeIndexes reports an error exactly when both lists are empty or their lengths differ.
pub merge_indexes_error :
    (hash : ℕ → ℕ) (nan size num_chunks : ℤ) (a b : List ℤ)
    → (merge_indexes hash nan size num_chunks a b ≡ none)
      ↔ (((length a ≡ 0) × (length b ≡ 0)) ⊎ (length a ≢ length b))
unfolding merge_indexes
merge_indexes_error hash nan size num_chunks a b = (λ e. ground arith, λ e. ground arith)

-- Places counted from the start of the file, read as places in their sector: past the first
-- sector the treasure's slot is given to a chunk of the file too.
overwritten :
    (m : List ℤ) (s t : ℕ)
    → 0 < s
    → t / 1000000 ≡ s
    → t % 1000000 < 999999
    → get_elem? m s ≡ some (pos t)
    → transform_index (pos (s * 999999 + t % 1000000)) m ≡ some (pos t)
overwritten m s t p q r e =
    let same : (s * 999999 + t % 1000000) / 999999 ≡ s = omega arith in
    transform_index_pos m (s * 999999 + t % 1000000) t (rw same e)
    ∙ ap (λ x. some (pos x)) (ground arith)

-- The treasures' places as the brokers merge them, for sectors of the program's size: in every
-- sector but the first and the last, a treasure's slot before the sector's last one is also the
-- slot that TransformIndexWithBuriedIndexes gives to some chunk of the file.
pub merge_indexes_overwritten :
    (hash : ℕ → ℕ) (nan : ℤ) (num_chunks : ℕ) (a b merged : List ℤ) (s : ℕ)
    → length a ≡ length b
    → 1000000 * (length a - 1) < num_chunks
    → merge_indexes hash nan (pos 1000000) (pos num_chunks) a b ≡ some merged
    → 0 < s
    → suc s < length a
    → (t : ℕ) × (get_elem? merged s ≡ some (pos t))
      × (t / 1000000 ≡ s)
      × (t % 1000000 < 999999 → (n : ℕ) × (transform_index (pos n) merged ≡ some (pos t)))
merge_indexes_overwritten hash nan num_chunks a b merged s l h e p lt =
    let (found, e', len, entries) =
      merge_indexes-InSector hash nan 1000000 num_chunks a b (omega arith) (omega arith) l h in
    let same : found ≡ merged = cc in
    let (t, at, sector) = entries s (omega arith) in
    let at' : get_elem? merged s ≡ some (pos t) = rw (← same) at in
    let slot : t / 1000000 ≡ s = omega (arith, sector.from, sector.to lt) in
    (t, at', slot, λ r. (s * 999999 + t % 1000000, overwritten merged s t p slot r at'))
