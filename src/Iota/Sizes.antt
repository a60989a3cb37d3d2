-- ===== src/Iota/Sizes.antt =====
-- services/iota_wrappers.go: none of the three lists is longer than what was asked for.
use brokernode.Prelude.{
  Bool, Bool-cases, List, Option, [], arith, false, inl, inr, length, none, some, suc, ℕ, ◌∷◌, ◌≤◌,
}
use brokernode.Iota.{
  Api, FilteredChunk, Transaction, TransactionMap, check_tx_objects_for_match, filter_chunks,
  on_addresses, on_response, sort_at, sort_loop, sort_one, verify_chunk_messages_match_record,
  verify_chunks_match_record,
}
use brokernode.Prelude.Bytes.{Bytes}
use brokernode.Utils.Keys.{ChunkData}

abbrev pub AtMost : ℕ → FilteredChunk → Type 0
AtMost k f =
    (length f.matches_tangle ≤ k)
    × (length f.does_not_match_tangle ≤ k)
    × (length f.not_attached ≤ k)

module _ (api : Api) where
  sort_one-AtMost :
      (o : Option (List Transaction)) (check : Bool) (c : ChunkData) (f : FilteredChunk) (k : ℕ)
      → AtMost k f
      → AtMost (suc k) (sort_one api o check c f)
  sort_one-AtMost none check c f k h = (omega arith, omega (arith, h.1), omega (arith, h.2))
  sort_one-AtMost (some ts) check c f k h =
      elim (Bool-cases (check_tx_objects_for_match ts c check)) [
        | inl matches ↦
            rw (matches, sort_one) (omega (arith, h.0), omega (arith, h.1), omega (arith, h.2))
        | inr differs ↦
            rw (differs, sort_one) (omega (arith, h.0), omega (arith, h.1), omega (arith, h.2))
      ]

  sort_at-AtMost :
      (m : TransactionMap) (check : Bool) (c : ChunkData) (o : Option Bytes) (f : FilteredChunk)
      (k : ℕ)
      → AtMost k f
      → AtMost (suc k) (sort_at api m check c o f)
  sort_at-AtMost m check c none f k h = (omega (arith, h.0), omega (arith, h.1), omega (arith, h.2))
  sort_at-AtMost m check c (some a) f k h = sort_one-AtMost (m a) check c f k h

  sort_loop-AtMost :
      (m : TransactionMap) (check : Bool) (cs : List ChunkData)
      → AtMost (length cs) (sort_loop api m check cs)
  unfolding sort_loop
  sort_loop-AtMost m check [] = (omega arith, omega arith, omega arith)
  sort_loop-AtMost m check (c ∷ cs) =
      sort_at-AtMost m check c (api.new_trytes c.address) _ (length cs)
        (sort_loop-AtMost m check cs)

  on_response-AtMost :
      (cs : List ChunkData) (check : Bool) (o : Option (List Bytes))
      → AtMost (length cs) (on_response api cs check o).0
  unfolding filter_chunks
  on_response-AtMost cs check none = (omega arith, omega arith, omega arith)
  on_response-AtMost cs check (some []) = (omega arith, omega arith, omega arith)
  on_response-AtMost cs check (some (x ∷ xs)) = sort_loop-AtMost _ check cs

  on_addresses-AtMost :
      (cs : List ChunkData) (check : Bool) (as' : List Bytes)
      → AtMost (length cs) (on_addresses api cs check as').0
  on_addresses-AtMost cs check [] = (omega arith, omega arith, omega arith)
  on_addresses-AtMost cs check (a ∷ as') = on_response-AtMost cs check _

  pub verify-AtMost :
      (cs : List ChunkData) → AtMost (length cs) (verify_chunk_messages_match_record api cs).0
  unfolding verify_chunk_messages_match_record verify_chunks_match_record
  verify-AtMost cs = on_addresses-AtMost cs false _
