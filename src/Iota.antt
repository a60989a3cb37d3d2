-- ===== src/Iota.antt =====
-- services/iota_wrappers.go: which chunks are on the tangle, with the message on record or with another.
-- `Api` is the client library of iota; `none` is an error of a call.
pub mod Matches
pub mod Sizes
pub mod Treasure
mod Tests
use brokernode.Prelude.{
  Bool, List, Option, [], false, if◌then◌else◌, leb, ltb, none, not, some, suc, true, zero, ℕ, ◌&&◌,
  ◌+◌, ◌-◌, ◌==◌, ◌||◌, ◌∷◌, length, take, drop,
}
use brokernode.Prelude.Bytes.{Bytes, bytes_eq}
use brokernode.Prelude.Table.{keep}
use brokernode.Utils.Keys.{ChunkData}

-- transaction.Transaction, as far as it is read.
pub record Transaction : Type 0 where
  pub address : Bytes
  pub signature_message_fragment : Bytes
  pub timestamp : ℕ

pub record Api : Type 0 where
  pub new_trytes : Bytes → Option Bytes
  pub find_transactions : List Bytes → Option (List Bytes)
  pub get_trytes : List Bytes → Option (List Bytes)
  pub as_transaction_objects : List Bytes → Option (List Transaction)

pub record FilteredChunk : Type 0 where
  pub matches_tangle : List ChunkData
  pub does_not_match_tangle : List ChunkData
  pub not_attached : List ChunkData

abbrev pub no_chunks : FilteredChunk
no_chunks = record { matches_tangle = []; does_not_match_tangle = []; not_attached = [] }

abbrev pub max_number_of_address_per_find_transaction_request : ℕ
max_number_of_address_per_find_transaction_request = 1000

-- strings.HasPrefix and strings.Contains.
unfoldable pub has_prefix : Bytes → Bytes → Bool
has_prefix s [] = true
has_prefix [] (c ∷ sub) = false
has_prefix (d ∷ s) (c ∷ sub) = if d == c then has_prefix s sub else false

unfoldable pub contains : Bytes → Bytes → Bool
unfolding has_prefix
contains [] sub = has_prefix [] sub
contains (d ∷ s) sub = has_prefix (d ∷ s) sub || contains s sub

-- map[trinary.Hash][]transaction.Transaction
abbrev pub TransactionMap : Type 0
TransactionMap = Bytes → Option (List Transaction)

abbrev pub or_absent : List Transaction → Option (List Transaction)
or_absent [] = none
or_absent (t ∷ ts) = some (t ∷ ts)

-- makeTransactionObjectsMap
unfoldable pub make_transaction_objects_map : List Transaction → TransactionMap
make_transaction_objects_map ts a = or_absent (keep (λ (t : Transaction). bytes_eq t.address a) ts)

-- The loop that copies one map into another.
abbrev pub prefer :
    Option (List Transaction) → Option (List Transaction) → Option (List Transaction)
prefer none old = old
prefer (some ts) old = some ts

-- chunksMatch
unfoldable pub chunks_match : Transaction → ChunkData → Bool → Bool
unfolding contains
chunks_match t c check_branch_and_trunk =
    not check_branch_and_trunk && contains t.signature_message_fragment c.message

-- checkTxObjectsForMatch
unfoldable pub check_tx_objects_for_match : List Transaction → ChunkData → Bool → Bool
unfolding chunks_match
check_tx_objects_for_match [] c check = false
check_tx_objects_for_match (t ∷ ts) c check =
    if chunks_match t c check then true else check_tx_objects_for_match ts c check

module _ (api : Api) where
  -- The transactions of one batch of hashes: `none` where the round is left by `continue`.
  abbrev pub objects_of : Option (List Bytes) → Option (List Transaction)
  objects_of none = none
  objects_of (some trytes) = api.as_transaction_objects trytes

  abbrev pub copied : Option (List Transaction) → TransactionMap → TransactionMap
  copied none m = m
  copied (some ts) m = λ a. prefer (make_transaction_objects_map ts a) (m a)

  -- The first loop of filterChunks, on fuel.
  unfoldable pub fetch_loop : ℕ → List Bytes → ℕ → TransactionMap → TransactionMap
  unfolding make_transaction_objects_map
  fetch_loop zero hashes i m = m
  fetch_loop (suc fuel) hashes i m =
      let size = max_number_of_address_per_find_transaction_request in
      let end = if ltb (length hashes) (i + size) then length hashes else i + size in
      let m' = copied (objects_of (api.get_trytes (take (end - i) (drop i hashes)))) m in
      let rest = fetch_loop fuel hashes (i + size) m' in if leb end i then m else rest

  -- One chunk of the second loop, in front of the chunks after it. A chunk whose address is not
  -- valid is in none of the three lists.
  abbrev pub sort_one : Option (List Transaction) → Bool → ChunkData → FilteredChunk → FilteredChunk
  sort_one none check c f = record f { not_attached = c ∷ f.not_attached }
  sort_one (some ts) check c f =
      if check_tx_objects_for_match ts c check
      then record f { matches_tangle = c ∷ f.matches_tangle }
      else record f { does_not_match_tangle = c ∷ f.does_not_match_tangle }

  abbrev pub sort_at :
      TransactionMap → Bool → ChunkData → Option Bytes → FilteredChunk → FilteredChunk
  sort_at m check c none f = f
  sort_at m check c (some address) f = sort_one (m address) check c f

  unfoldable pub sort_loop : TransactionMap → Bool → List ChunkData → FilteredChunk
  unfolding check_tx_objects_for_match
  sort_loop m check [] = no_chunks
  sort_loop m check (c ∷ cs) = sort_at m check c (api.new_trytes c.address) (sort_loop m check cs)

  -- filterChunks. Every round but the last takes a thousand hashes.
  unfoldable pub filter_chunks : List Bytes → List ChunkData → Bool → FilteredChunk
  unfolding fetch_loop sort_loop
  filter_chunks hashes chunks check =
      sort_loop (fetch_loop (length hashes + 1) hashes 0 (λ a. none)) check chunks

  abbrev pub if_valid : Option Bytes → List Bytes → List Bytes
  if_valid none rest = rest
  if_valid (some a) rest = a ∷ rest

  abbrev pub addresses_of : List ChunkData → List Bytes
  addresses_of [] = []
  addresses_of (c ∷ cs) = if_valid (api.new_trytes c.address) (addresses_of cs)

  -- What the response makes of the chunks, and whether there was no error.
  abbrev pub on_response : List ChunkData → Bool → Option (List Bytes) → FilteredChunk × Bool
  on_response chunks check none = (no_chunks, false)
  on_response chunks check (some []) = (record no_chunks { not_attached = chunks }, true)
  on_response chunks check (some (h ∷ hashes)) = (filter_chunks (h ∷ hashes) chunks check, true)

  abbrev pub on_addresses : List ChunkData → Bool → List Bytes → FilteredChunk × Bool
  on_addresses chunks check [] = (no_chunks, true)
  on_addresses chunks check (a ∷ addresses) =
      on_response chunks check (api.find_transactions (a ∷ addresses))

  -- verifyChunksMatchRecord
  unfoldable pub verify_chunks_match_record : List ChunkData → Bool → FilteredChunk × Bool
  unfolding filter_chunks
  verify_chunks_match_record chunks check = on_addresses chunks check (addresses_of chunks)

  -- verifyChunkMessagesMatchRecord
  unfoldable pub verify_chunk_messages_match_record : List ChunkData → FilteredChunk × Bool
  unfolding verify_chunks_match_record
  verify_chunk_messages_match_record chunks = verify_chunks_match_record chunks false
