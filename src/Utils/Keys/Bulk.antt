-- ===== src/Utils/Keys/Bulk.antt =====
-- utils/kv_store.go, GenerateBulkKeys: the keys of a run of chunks, in the run's order.
use brokernode.Prelude.{
  dec_lt, leb, ℕ, zero, suc, ◌+◌, ◌-◌, ◌≤◌, ◌<◌, ◌^◌, ◌≡◌, refl, List, [], ◌∷◌, length, get_elem?,
  some, arith, ap, ◌∙◌, if◌then◌else◌, true, false,
}
use brokernode.Prelude.Int.{
  ℤ, pos, negsuc, ◌+ℤ◌, int_laws, pos_part, neg_part, eqb_ℤ, ltb_ℤ, parts_exclusive, +ℤ-pos,
  eq_of_parts,
}
use brokernode.Prelude.Word.{add64, add64_small}
use brokernode.Prelude.Bytes.{Bytes}
use brokernode.Utils.Keys.{chunk_key, bulk_loop, generate_bulk_keys, distance}

-- The n keys from i on.
keys_from : Bytes → ℤ → ℤ → ℕ → List Bytes
keys_from gen_hash step i zero = []
keys_from gen_hash step i (suc n) = chunk_key gen_hash i ∷ keys_from gen_hash step (i +ℤ step) n

bulk_loop_up :
    (fuel : ℕ) (gen_hash : Bytes) (stop i : ℤ) (n : ℕ)
    → n < fuel
    → pos_part i + neg_part i + n ≤ 2 ^ 62
    → pos_part stop + neg_part i ≡ neg_part stop + pos_part i + n
    → bulk_loop fuel gen_hash (pos 1) stop i ≡ keys_from gen_hash (pos 1) i n
unfolding bulk_loop keys_from
bulk_loop_up zero gen_hash stop i n f h e = elim f [ ]
bulk_loop_up (suc fuel) gen_hash stop i zero f h e =
    let done : eqb_ℤ i stop ≡ true = ground arith in rw done
bulk_loop_up (suc fuel) gen_hash stop i (suc n) f h e =
    let more : eqb_ℤ i stop ≡ false = ground arith in
    let next : add64 i (pos 1) ≡ i +ℤ pos 1 = add64_small i (pos 1) (omega arith) (omega arith) in
    rw more (
      rw next (
        ap (λ r. chunk_key gen_hash i ∷ r)
          (bulk_loop_up fuel gen_hash stop (i +ℤ pos 1) n (omega arith)
            (omega (int_laws, parts_exclusive (i +ℤ pos 1), parts_exclusive i)) (omega int_laws))))

bulk_loop_down :
    (fuel : ℕ) (gen_hash : Bytes) (stop i : ℤ) (n : ℕ)
    → n < fuel
    → pos_part i + neg_part i + n ≤ 2 ^ 62
    → pos_part stop + neg_part i + n ≡ neg_part stop + pos_part i
    → bulk_loop fuel gen_hash (negsuc 0) stop i ≡ keys_from gen_hash (negsuc 0) i n
unfolding bulk_loop keys_from
bulk_loop_down zero gen_hash stop i n f h e = elim f [ ]
bulk_loop_down (suc fuel) gen_hash stop i zero f h e =
    let done : eqb_ℤ i stop ≡ true = ground arith in rw done
bulk_loop_down (suc fuel) gen_hash stop i (suc n) f h e =
    let more : eqb_ℤ i stop ≡ false = ground arith in
    let next : add64 i (negsuc 0) ≡ i +ℤ negsuc 0 =
      add64_small i (negsuc 0) (omega arith) (omega arith) in
    rw more (
      rw next (
        ap (λ r. chunk_key gen_hash i ∷ r)
          (bulk_loop_down fuel gen_hash stop (i +ℤ negsuc 0) n (omega arith)
            (omega (int_laws, parts_exclusive (i +ℤ negsuc 0), parts_exclusive i))
            (omega int_laws))))

length-keys_from :
    (gen_hash : Bytes) (step i : ℤ) (n : ℕ) → length (keys_from gen_hash step i n) ≡ n
unfolding keys_from
length-keys_from gen_hash step i zero = refl
length-keys_from gen_hash step i (suc n) = ap suc (length-keys_from gen_hash step (i +ℤ step) n)

keys_from_up :
    (gen_hash : Bytes) (a n k : ℕ)
    → k < n
    → get_elem? (keys_from gen_hash (pos 1) (pos a) n) k ≡ some (chunk_key gen_hash (pos (a + k)))
unfolding keys_from
keys_from_up gen_hash a zero k h = elim h [ ]
keys_from_up gen_hash a (suc n) zero h = ap (λ i. some (chunk_key gen_hash (pos i))) (omega arith)
keys_from_up gen_hash a (suc n) (suc k) h = rw (+ℤ-pos a 1) (
    keys_from_up gen_hash (a + 1) n k (omega arith)
    ∙ ap (λ i. some (chunk_key gen_hash (pos i))) (omega arith))

keys_from_down :
    (gen_hash : Bytes) (a n k : ℕ)
    → k < n
    → k ≤ a
    → get_elem? (keys_from gen_hash (negsuc 0) (pos a) n) k
      ≡ some (chunk_key gen_hash (pos (a - k)))
unfolding keys_from
keys_from_down gen_hash a zero k h l = elim h [ ]
keys_from_down gen_hash a (suc n) zero h l =
    ap (λ i. some (chunk_key gen_hash (pos i))) (omega arith)
keys_from_down gen_hash a (suc n) (suc k) h l =
    let next : pos a +ℤ negsuc 0 ≡ pos (a - 1) = eq_of_parts _ _ (omega int_laws) in
    rw next (
      keys_from_down gen_hash (a - 1) n k (omega arith) (omega arith)
      ∙ ap (λ i. some (chunk_key gen_hash (pos i))) (omega arith))

bulk_up :
    (gen_hash : Bytes) (a b : ℕ)
    → a < b
    → b ≤ 2 ^ 60
    → generate_bulk_keys gen_hash (pos a) (pos b) ≡ keys_from gen_hash (pos 1) (pos a) (b - a + 1)
unfolding generate_bulk_keys
bulk_up gen_hash a b lt h =
    let ne : eqb_ℤ (pos a) (pos b) ≡ false = ground arith in
    let up : ltb_ℤ (pos a) (pos b) ≡ true = ground arith in
    let stop : add64 (pos b) (pos 1) ≡ pos (b + 1) =
      add64_small (pos b) (pos 1) (omega arith) (omega arith) ∙ +ℤ-pos b 1 in
    rw (ne, generate_bulk_keys)
      (rw up (
        bulk_loop_up (distance (pos a) (pos b) + 2) gen_hash (add64 (pos b) (pos 1)) (pos a)
          (b - a + 1) (omega int_laws) (omega arith) (rw stop (omega arith))))

bulk_down :
    (gen_hash : Bytes) (a b : ℕ)
    → b < a
    → a ≤ 2 ^ 60
    → generate_bulk_keys gen_hash (pos a) (pos b)
      ≡ keys_from gen_hash (negsuc 0) (pos a) (a - b + 1)
unfolding generate_bulk_keys
bulk_down gen_hash a b lt h =
    let ne : eqb_ℤ (pos a) (pos b) ≡ false = ground arith in
    let down : ltb_ℤ (pos a) (pos b) ≡ false = ground arith in
    let stop : add64 (pos b) (negsuc 0) ≡ pos b +ℤ negsuc 0 =
      add64_small (pos b) (negsuc 0) (omega arith) (omega arith) in
    rw (ne, generate_bulk_keys)
      (rw down (
        bulk_loop_down (distance (pos a) (pos b) + 2) gen_hash (add64 (pos b) (negsuc 0)) (pos a)
          (a - b + 1) (omega int_laws) (omega arith) (rw stop (omega int_laws))))

bulk_same :
    (gen_hash : Bytes) (a : ℕ)
    → generate_bulk_keys gen_hash (pos a) (pos a) ≡ chunk_key gen_hash (pos a) ∷ []
unfolding generate_bulk_keys
bulk_same gen_hash a =
    let eq : eqb_ℤ (pos a) (pos a) ≡ true = ground arith in rw (eq, generate_bulk_keys)

-- The k-th index on the way from a to b, and how many there are.
abbrev pub toward : ℕ → ℕ → ℕ → ℕ
toward a b k = if leb a b then a + k else a - k

abbrev pub span : ℕ → ℕ → ℕ
span a b = if leb a b then b - a + 1 else a - b + 1

one_key :
    (gen_hash : Bytes) (a k : ℕ)
    → k < span a a
    → get_elem? (chunk_key gen_hash (pos a) ∷ []) k ≡ some (chunk_key gen_hash (pos (toward a a k)))
one_key gen_hash a zero h = ap (λ i. some (chunk_key gen_hash (pos i))) (ground arith)
one_key gen_hash a (suc k) h = absurd (ground arith)

-- What it means that `keys` are the keys of the chunks from a to b, both included, in that order.
abbrev pub AreKeys : Bytes → ℕ → ℕ → List Bytes → Type 0
AreKeys gen_hash a b keys =
    (length keys ≡ span a b)
    × ((k : ℕ) → k < span a b → get_elem? keys k ≡ some (chunk_key gen_hash (pos (toward a b k))))

-- For indexes that are not negative and at most 2^60, GenerateBulkKeys gives the key of every chunk
-- from the first index to the second, both included, upwards or downwards, and no other.
pub generate_bulk_keys-AreKeys :
    (gen_hash : Bytes) (a b : ℕ)
    → a ≤ 2 ^ 60
    → b ≤ 2 ^ 60
    → AreKeys gen_hash a b (generate_bulk_keys gen_hash (pos a) (pos b))
generate_bulk_keys-AreKeys gen_hash a b ha hb = elim (dec_lt a b) [
  | yes lt ↦
      let up : leb a b ≡ true = ground arith in
      rw (bulk_up gen_hash a b lt hb) (
        rw up (
          length-keys_from gen_hash (pos 1) (pos a) (b - a + 1),
          λ k h. keys_from_up gen_hash a (b - a + 1) k h,
        ))
  | no ge ↦ elim (dec_lt b a) [
    | yes lt ↦
        let down : leb a b ≡ false = ground arith in
        rw (bulk_down gen_hash a b lt ha) (
          rw down (
            length-keys_from gen_hash (negsuc 0) (pos a) (a - b + 1),
            λ k h. keys_from_down gen_hash a (a - b + 1) k h (omega arith),
          ))
    | no le ↦
        let same : b ≡ a = omega arith in
        rw (same, bulk_same gen_hash a) (ground arith, λ k h. one_key gen_hash a k h)
  ]
]
