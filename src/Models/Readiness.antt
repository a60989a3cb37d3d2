-- ===== src/Models/Readiness.antt =====
-- models/upload_sessions.go, whether the data of an upload has arrived, and what stores the messages that
-- a client sends, where the data maps are in badger.
use brokernode.Store.Registry.Batches.{batch_set_to_unique_db}
use brokernode.Utils.Keys.{chunk_key}
use brokernode.Utils.Indexes.{transform_index}
use brokernode.Store.Registry.Batches.Chunks.{get_hash_data, get_message_data, message_dir}
use brokernode.Utils.Mode.{BrokerMode, is_no_treasure}
use brokernode.Store.{Badger, put_pair}
use brokernode.Prelude.Int.{eqb_ℤ, pos, ℤ, ◌-ℤ◌}
use brokernode.Prelude.Bytes.{Bytes, is_empty}
use brokernode.Prelude.{
  Bool, List, Option, [], false, if◌then◌else◌, length, none, not, some, true, ℕ, ◌&&◌, ◌==◌, ◌||◌,
  ◌∷◌,
}
use brokernode.Store.Registry.{DbId, Files, OpenStores, get_or_init_unique_badger_db}
use brokernode.Models.Session.{UploadSession, get_treasure_indexes, all_data_is_ready}
use brokernode.Models.DataMaps.{in_progress_dir}

-- ChunkReq: the genesis hash is in the field Hash.
pub record ChunkReq : Type 0 where
  pub idx : ℤ
  pub chunk_data : Bytes
  pub hash : Bytes

module _ {World Db Txn : Type 0} (fs : Files World Db) (b : Badger World Db Txn) where
  abbrev pub last_chunk_of : UploadSession → ℤ
  last_chunk_of u = u.num_chunks -ℤ pos 1

  -- CheckIfAllHashesAreReady
  pub check_if_all_hashes_are_ready :
      UploadSession → OpenStores World Db → Bool × OpenStores World Db
  check_if_all_hashes_are_ready u s =
      let (start_hash, s') = get_hash_data fs b in_progress_dir u.genesis_hash (pos 0) s in
      let (end_hash, s'') =
        get_hash_data fs b in_progress_dir u.genesis_hash (last_chunk_of u) s' in
      (not (is_empty start_hash) && not (is_empty end_hash), s'')

  -- The loop over the treasures' indexes.
  pub treasures_there : Bytes → List ℤ → Bool × OpenStores World Db → Bool × OpenStores World Db
  treasures_there genesis_hash [] r = r
  treasures_there genesis_hash (i ∷ indexes) (all_found, s) =
      let (message, s') = get_message_data fs b in_progress_dir genesis_hash i s in
      treasures_there genesis_hash indexes (not (is_empty message) && all_found, s')

  -- checkIfAllMessagesAreReadyInBadger
  pub check_if_all_messages_are_ready_in_badger :
      List ℤ → UploadSession → OpenStores World Db → Bool × OpenStores World Db
  unfolding treasures_there
  check_if_all_messages_are_ready_in_badger indexes u s =
      let (start_message, s') = get_message_data fs b in_progress_dir u.genesis_hash (pos 0) s in
      let (end_message, s'') =
        get_message_data fs b in_progress_dir u.genesis_hash (last_chunk_of u) s' in
      let treasures = treasures_there u.genesis_hash indexes (true, s'') in
      if not (is_empty start_message) && not (is_empty end_message) then treasures else (false, s'')

  -- CheckIfAllMessagesAreReady
  pub check_if_all_messages_are_ready :
      BrokerMode → UploadSession → OpenStores World Db → Bool × OpenStores World Db
  unfolding check_if_all_messages_are_ready_in_badger
  check_if_all_messages_are_ready mode u s =
      let (indexes, fine) = get_treasure_indexes u in
      let checked = check_if_all_messages_are_ready_in_badger indexes u s in
      if not fine || (length indexes == 0 && not (is_no_treasure mode)) then (false, s) else checked

  -- CheckIfAllDataIsReady: && asks for the messages only where the hashes are ready.
  pub check_if_all_data_is_ready :
      BrokerMode → UploadSession → OpenStores World Db → Bool × OpenStores World Db
  unfolding check_if_all_hashes_are_ready check_if_all_messages_are_ready
  check_if_all_data_is_ready mode u s =
      let (hashes, s') = check_if_all_hashes_are_ready u s in
      let messages = check_if_all_messages_are_ready mode u s' in
      let looked = if hashes then messages else (false, s') in
      if eqb_ℤ u.all_data_ready all_data_is_ready then (true, s) else looked

  -- The key of a chunk that a client sends; `none` where the transformation of its index panics.
  abbrev pub index_of_chunk : BrokerMode → List ℤ → ℤ → Option ℤ
  index_of_chunk mode treasure_idx_map i =
      let moved = transform_index i treasure_idx_map in
      if is_no_treasure mode then some i else moved

  abbrev pub put_chunk :
      Bytes → Option ℤ → Bytes → Option (List (Bytes × Bytes)) → Option (List (Bytes × Bytes))
  put_chunk genesis_hash none d kvs = none
  put_chunk genesis_hash (some i) d none = none
  put_chunk genesis_hash (some i) d (some kvs) = some (put_pair (chunk_key genesis_hash i) d kvs)

  -- convertToBadgerKeyedMapForChunks, with the data of the chunks that the map is then read for.
  pub convert_to_badger_keyed_map_for_chunks :
      BrokerMode
      → Bytes
      → List ℤ
      → List ChunkReq
      → Option (List (Bytes × Bytes))
      → Option (List (Bytes × Bytes))
  convert_to_badger_keyed_map_for_chunks mode genesis_hash treasures [] kvs = kvs
  convert_to_badger_keyed_map_for_chunks mode genesis_hash treasures (c ∷ chunks) kvs =
      convert_to_badger_keyed_map_for_chunks mode genesis_hash treasures chunks
        (put_chunk genesis_hash (index_of_chunk mode treasures c.idx) c.chunk_data kvs)

  -- ProcessAndStoreChunkData: `none` is a panic, of chunks[0], of an index, or of an error in the store.
  abbrev pub stored_chunks :
      DbId → ℕ → Option (List (Bytes × Bytes)) → OpenStores World Db → Option (OpenStores World Db)
  stored_chunks id ttl none s = none
  stored_chunks id ttl (some kvs) s =
      let (db?, s') = get_or_init_unique_badger_db fs id s in
      let (ok, s'') = batch_set_to_unique_db fs b id kvs ttl s' in
      elim db? [ none ↦ some s' | some db ↦ if ok then some s'' else none ]

  pub process_and_store_chunk_data :
      BrokerMode
      → List ChunkReq
      → Bytes
      → List ℤ
      → ℕ
      → OpenStores World Db
      → Option (OpenStores World Db)
  unfolding convert_to_badger_keyed_map_for_chunks
  process_and_store_chunk_data mode [] genesis_hash treasures ttl s = none
  process_and_store_chunk_data mode (c ∷ chunks) genesis_hash treasures ttl s =
      stored_chunks (in_progress_dir, c.hash ∷ message_dir ∷ []) ttl
        (convert_to_badger_keyed_map_for_chunks mode genesis_hash treasures (c ∷ chunks) (some []))
        s
