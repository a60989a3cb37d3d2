-- ===== src/Utils/Keys/RoundTrip.antt =====
-- utils/kv_store.go and utils/utils.go: the index of a chunk is read back from its key.
use brokernode.Prelude.{
  ◌≡◌, ◌≢◌, refl, [], ◌∷◌, ◌++◌, append_assoc, arith, All, sym, if◌then◌else◌, ◌==◌, ◌^◌, ◌-◌,
}
use brokernode.Prelude.Int.{ℤ, pos, negsuc, ◌≤ℤ◌, ◌<ℤ◌}
use brokernode.Prelude.Bytes.{Bytes}
use brokernode.Utils.Keys.{
  key_delimiter, after_last, get_chunk_idx_from_key, chunk_key, generate_badger_key,
}
use brokernode.Utils.Keys.Decimal.{format_int, parse_int-format_int, format_int_bytes}

after_last_none :
    (found rest : Bytes) → All (λ c. c ≢ key_delimiter) rest → after_last found rest ≡ found
unfolding after_last
after_last_none found [] h = refl
after_last_none found (c ∷ rest) h = ground (arith, after_last_none found rest h.1)

after_last_delimiter :
    (found front rest : Bytes)
    → All (λ c. c ≢ key_delimiter) rest
    → after_last found (front ++ key_delimiter ∷ rest) ≡ rest
unfolding after_last
after_last_delimiter found [] rest h = ground (arith, after_last_none rest rest h)
after_last_delimiter found (c ∷ front) rest h =
    after_last_delimiter (if c == key_delimiter then front ++ key_delimiter ∷ rest else found) front
      rest h

-- The index that GetChunkIdxFromKey reads from the key of a chunk is the chunk's, for every int64,
-- and whatever the genesis hash is, delimiters included.
pub get_chunk_idx_from_key-chunk_key :
    (gen_hash : Bytes) (i : ℤ)
    → negsuc (2 ^ 63 - 1) ≤ℤ i
    → i <ℤ pos (2 ^ 63)
    → get_chunk_idx_from_key (chunk_key gen_hash i) ≡ i
unfolding get_chunk_idx_from_key chunk_key
get_chunk_idx_from_key-chunk_key gen_hash i l u =
    let front : gen_hash ++ (key_delimiter ∷ key_delimiter ∷ format_int i)
        ≡ (gen_hash ++ key_delimiter ∷ []) ++ key_delimiter ∷ format_int i =
      sym (append_assoc gen_hash (key_delimiter ∷ []) (key_delimiter ∷ format_int i)) in
    rw front (
      rw
        (after_last_delimiter _ (gen_hash ++ key_delimiter ∷ []) (format_int i)
          (format_int_bytes i))
        (parse_int-format_int i l u))

-- The keys of the shared store, with no text in front, are those of the stores of one upload.
pub generate_badger_key-chunk_key :
    (gen_hash : Bytes) (i : ℤ) → generate_badger_key [] gen_hash i ≡ chunk_key gen_hash i
unfolding generate_badger_key chunk_key
generate_badger_key-chunk_key gen_hash i = refl
