-- ===== src/Store/Registry/Batches/Chunks.antt =====
-- utils/kv_store.go: the data of chunks, from the store of hashes and the store of messages of an upload.
-- A message is the list of its runes, which are its bytes where it is ASCII.
use brokernode.Utils.Trytes.{Converted, converted, panicked}
use brokernode.Utils.Trytes.{Converted, chunk_message_to_trytes_with_stopper, sha256_to_address}
use brokernode.Utils.Keys.{ChunkData, chunk_key, get_chunk_idx_from_key}
use brokernode.Store.Registry.Batches.{batch_get_from_unique_db}
use brokernode.Store.Pairs.{lookup_pair}
use brokernode.Store.{Badger}
use brokernode.Prelude.Int.{ℤ}
use brokernode.Prelude.Bytes.{Bytes, codes, is_empty}
use brokernode.Prelude.{
  Bool, List, Option, [], false, if◌then◌else◌, none, not, some, true, ◌&&◌, ◌∷◌,
}
use brokernode.Store.Registry.{DbId, Files, OpenStores}

abbrev pub hash_dir : Bytes
hash_dir = codes "hash"

abbrev pub message_dir : Bytes
message_dir = codes "message"

-- The value of a map at a key, or "".
abbrev pub or_no_bytes : Option Bytes → Bytes
or_no_bytes none = []
or_no_bytes (some v) = v

-- Whether both messages and hash of a chunk are there.
pub all_chunk_data_has_arrived : ChunkData → Bool
all_chunk_data_has_arrived c =
    not (is_empty c.address) && (not (is_empty c.message) && not (is_empty c.hash))

module _ {World Db Txn : Type 0} (fs : Files World Db) (b : Badger World Db Txn) where
  -- The value of one key, or "" on an error too, and the state after it.
  pub one_value : DbId → Bytes → OpenStores World Db → Bytes × OpenStores World Db
  unfolding batch_get_from_unique_db
  one_value id key s =
      let ((ok, kvs), s') = batch_get_from_unique_db fs b id (key ∷ []) s in
      (or_no_bytes (lookup_pair key kvs), s')

  -- GetMessageData
  pub get_message_data : Bytes → Bytes → ℤ → OpenStores World Db → Bytes × OpenStores World Db
  unfolding one_value
  get_message_data prefix genesis_hash chunk_idx s =
      one_value (prefix, genesis_hash ∷ message_dir ∷ []) (chunk_key genesis_hash chunk_idx) s

  -- GetHashData
  pub get_hash_data : Bytes → Bytes → ℤ → OpenStores World Db → Bytes × OpenStores World Db
  unfolding one_value
  get_hash_data prefix genesis_hash chunk_idx s =
      one_value (prefix, genesis_hash ∷ hash_dir ∷ []) (chunk_key genesis_hash chunk_idx) s

module _ {World Db Txn : Type 0} (fs : Files World Db) (b : Badger World Db Txn)
    (new_trytes : Bytes → Option Bytes) (sha256 sha384 : Bytes → Bytes) where
  -- The message in trytes, of which an error leaves "", and the address: `none` where the conversion
  -- panics.
  abbrev pub trytes_of : Converted → Option Bytes
  trytes_of (converted t) = some t
  trytes_of panicked = none
  trytes_of _ = some []

  abbrev pub message_of : Bytes → Option Bytes
  message_of raw_message = trytes_of (chunk_message_to_trytes_with_stopper new_trytes raw_message)

  abbrev pub address_of : Bytes → Option Bytes
  address_of hash = sha256_to_address new_trytes sha256 sha384 hash

  abbrev pub chunk_of : Option Bytes → Option Bytes → Bytes → Bytes → ℤ → Bytes → Option ChunkData
  chunk_of none address hash raw_message idx genesis_hash = none
  chunk_of (some message) none hash raw_message idx genesis_hash = none
  chunk_of (some message) (some address) hash raw_message idx genesis_hash = some (record {
    address = address;
    hash = hash;
    message = message;
    raw_message = raw_message;
    idx = idx;
    genesis_hash = genesis_hash;
  })

  -- GetChunkData: the conversions are made only of what is not "".
  pub get_chunk_data :
      Bytes → Bytes → ℤ → OpenStores World Db → Option ChunkData × OpenStores World Db
  unfolding get_message_data get_hash_data chunk_message_to_trytes_with_stopper sha256_to_address
  get_chunk_data prefix genesis_hash chunk_idx s =
      let (raw_message, s') = get_message_data fs b prefix genesis_hash chunk_idx s in
      let (hash, s'') = get_hash_data fs b prefix genesis_hash chunk_idx s' in
      let message : Option Bytes =
        if is_empty raw_message then some [] else message_of raw_message in
      let address : Option Bytes = if is_empty hash then some [] else address_of hash in
      (chunk_of message address hash raw_message chunk_idx genesis_hash, s'')

  -- The loop of GetBulkChunkData: the chunks of the keys that have both values; `none` where a
  -- conversion panics.
  abbrev in_front_of : Option ChunkData → Option (List ChunkData) → Option (List ChunkData)
  in_front_of none rest = none
  in_front_of (some c) none = none
  in_front_of (some c) (some rest) = some (c ∷ rest)

  abbrev pub with_both :
      Bytes
      → Bytes
      → Option Bytes
      → Option Bytes
      → Option (List ChunkData)
      → Option (List ChunkData)
  with_both genesis_hash key none hash rest = rest
  with_both genesis_hash key (some m) none rest = rest
  with_both genesis_hash key (some m) (some h) rest =
      in_front_of
        (chunk_of (message_of m) (address_of h) h m (get_chunk_idx_from_key key) genesis_hash) rest

  pub bulk_chunks :
      Bytes → List (Bytes × Bytes) → List (Bytes × Bytes) → List Bytes → Option (List ChunkData)
  bulk_chunks genesis_hash hashes messages [] = some []
  bulk_chunks genesis_hash hashes messages (key ∷ ks) =
      with_both genesis_hash key (lookup_pair key messages) (lookup_pair key hashes)
        (bulk_chunks genesis_hash hashes messages ks)

  -- GetBulkChunkData: whether it had no error, and the chunks.
  pub get_bulk_chunk_data :
      Bytes
      → Bytes
      → List Bytes
      → OpenStores World Db
      → (Bool × Option (List ChunkData)) × OpenStores World Db
  unfolding batch_get_from_unique_db bulk_chunks
  get_bulk_chunk_data prefix genesis_hash ks s =
      let ((hash_ok, hashes), s') =
        batch_get_from_unique_db fs b (prefix, genesis_hash ∷ hash_dir ∷ []) ks s in
      let ((message_ok, messages), s'') =
        batch_get_from_unique_db fs b (prefix, genesis_hash ∷ message_dir ∷ []) ks s' in
      let chunks = bulk_chunks genesis_hash hashes messages ks in
      ((if hash_ok && message_ok then (true, chunks) else (false, some [])), s'')
