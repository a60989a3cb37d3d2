-- ===== src/Models/DataMaps.antt =====
-- models/upload_sessions.go, BuildDataMapsForSession where the data maps are in badger: the hashes of an
-- upload's chunks, each the hash of the one before, are written to its store of hashes.
pub mod Chain
use brokernode.Utils.Keys.{chunk_key}
use brokernode.Store.Registry.Batches.Chunks.{hash_dir}
use brokernode.Store.Registry.Batches.{batch_set_to_unique_db}
use brokernode.Store.{Badger, put_pair}
use brokernode.Prelude.Int.{pos}
use brokernode.Prelude.Bytes.{Bytes, codes}
use brokernode.Prelude.{
  ◌^◌, Bool, List, Option, [], false, if◌then◌else◌, leb, none, some, suc, true, zero, ℕ, ◌*◌, ◌+◌,
  ◌∷◌,
}
use brokernode.Store.Registry.{DbId, Files, OpenStores, get_or_init_unique_badger_db}

-- DataMapsTimeToLive, in nanoseconds
abbrev pub data_maps_time_to_live : ℕ
data_maps_time_to_live = 2 * 24 * 3600 * 10 ^ 9

abbrev pub max_badger_insertions : ℕ
max_badger_insertions = 100

abbrev pub in_progress_dir : Bytes
in_progress_dir = codes "current"

-- The variables of the loop.
pub record Building (World Db : Type 0) : Type 0 where
  pub kv_pairs : List (Bytes × Bytes)
  pub insertion_count : ℕ
  pub curr_hash : Bytes
  pub no_error : Bool
  pub stores : OpenStores World Db

-- How the function ends: with no error, with one, or in a panic.
pub data Built : Type 0 where
  built build_failed build_panicked : Built

module _ {World Db Txn : Type 0} (fs : Files World Db) (b : Badger World Db Txn)
    (sha256 : Bytes → Bytes) (gen_hash : Bytes) where
  abbrev pub hash_store : DbId
  hash_store = (in_progress_dir, gen_hash ∷ hash_dir ∷ [])

  -- A full batch is written; where that fails, its pairs are kept for the next round.
  unfoldable pub insert_batch : Building World Db → Building World Db
  insert_batch st =
      let (ok, s') =
        batch_set_to_unique_db fs b hash_store st.kv_pairs data_maps_time_to_live st.stores in
      let emptied = record st {
        kv_pairs = [];
        insertion_count = 0;
        no_error = true;
        stores = s';
      } in
      let kept = record st { no_error = false; stores = s' } in if ok then emptied else kept

  unfoldable pub build_round : ℕ → Building World Db → Building World Db
  unfolding insert_batch
  build_round i st =
      let more = record st {
        kv_pairs = put_pair (chunk_key gen_hash (pos i)) st.curr_hash st.kv_pairs;
        curr_hash = sha256 st.curr_hash;
        insertion_count = st.insertion_count + 1;
      } in
      if leb max_badger_insertions (st.insertion_count + 1) then insert_batch more else more

  -- The loop, with the number of rounds that are left.
  unfoldable pub build_loop : ℕ → ℕ → Building World Db → Building World Db
  unfolding build_round
  build_loop zero i st = st
  build_loop (suc left) i st = build_loop left (suc i) (build_round i st)

  -- What is left of the last batch, with what writing it gives.
  abbrev pub end_with :
      List (Bytes × Bytes)
      → Bool
      → OpenStores World Db
      → Bool × OpenStores World Db
      → Built × OpenStores World Db
  end_with [] no_error s r = (if no_error then built else build_failed, s)
  end_with (kv ∷ kvs) no_error s (true, s') = (built, s')
  end_with (kv ∷ kvs) no_error s (false, s') = (build_panicked, s')

  unfoldable pub end_of_build : Building World Db → Built × OpenStores World Db
  end_of_build st =
      end_with st.kv_pairs st.no_error st.stores
        (batch_set_to_unique_db fs b hash_store st.kv_pairs data_maps_time_to_live st.stores)

  abbrev pub empty_build : OpenStores World Db → Building World Db
  empty_build s = record {
    kv_pairs = [];
    insertion_count = 0;
    curr_hash = gen_hash;
    no_error = true;
    stores = s;
  }

  abbrev pub build_in : Option Db → ℕ → OpenStores World Db → Built × OpenStores World Db
  build_in none n s = (build_failed, s)
  build_in (some db) n s = end_of_build (build_loop n 0 (empty_build s))

  -- BuildDataMapsForSession; a number of chunks below 0 would be as 0.
  unfoldable pub build_data_maps_for_session : ℕ → OpenStores World Db → Built × OpenStores World Db
  unfolding build_loop end_of_build
  build_data_maps_for_session num_chunks s =
      let (db?, s') = get_or_init_unique_badger_db fs hash_store s in build_in db? num_chunks s'
