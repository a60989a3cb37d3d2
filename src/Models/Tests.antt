-- ===== src/Models/Tests.antt =====
-- Data maps of three chunks, and the theorems at concrete inputs.
use brokernode.Utils.Keys.Decimal.{format_int}
use brokernode.Prelude.Table.{Any}
use brokernode.Store.{batch_set_in, write_all, set_pair, get_ttl}
use brokernode.Store.Registry.Batches.{batch_set_to_unique_db}
use brokernode.Utils.Keys.{get_badger_db_name, build_badger_name, chunk_key, get_badger_key}
use brokernode.Store.Samples.{small_files, small_badger, no_stores, small_laws}
use brokernode.Prelude.Int.{pos}
use brokernode.Prelude.Bytes.{Bytes, bytes_eq, codes}
use brokernode.Models.MoveAll.Windows.{
  HasIndex, move_all_chunks_to_completed_badger-rounds, rounds, windows,
}
use brokernode.Models.MoveAll.{move_all_chunks_to_completed_badger, move_window}
use brokernode.Models.DataMaps.Chain.Stored.{build_data_maps_for_session-hash_chain}
use brokernode.Prelude.{arith, false, refl, some, ◌∷◌, ◌≡◌}
use brokernode.Store.Registry.{
  get_or_init_unique_badger_db, init_unique_kv_store, get_unique_badger_db, on_open,
}
use brokernode.Models.DataMaps.{
  build_data_maps_for_session, build_loop, build_round, data_maps_time_to_live, end_of_build,
  insert_batch,
}

-- Stands for the hash.
abbrev one_more_byte : Bytes → Bytes
one_more_byte h = 1 ∷ h

build_data_maps_for_session-hash_chain_example :
    small_laws.contents
      ((build_data_maps_for_session small_files small_badger one_more_byte
          (codes "abc")
          3
          no_stores).1
        ).world
      7
      (chunk_key (codes "abc") (pos 2))
    ≡ some (record { value = 1 ∷ 1 ∷ codes "abc"; ttl = get_ttl false data_maps_time_to_live })
unfolding build_data_maps_for_session build_loop build_round insert_batch end_of_build
    get_badger_db_name build_badger_name batch_set_to_unique_db get_or_init_unique_badger_db
    init_unique_kv_store get_unique_badger_db batch_set_in write_all set_pair bytes_eq on_open
    chunk_key get_badger_key format_int
build_data_maps_for_session-hash_chain_example =
    build_data_maps_for_session-hash_chain small_files small_badger small_laws one_more_byte
      (codes "abc") 3 2 no_stores 7 (omega arith) (omega arith) refl refl

move_all_chunks_to_completed_badger-rounds_example :
    (move_all_chunks_to_completed_badger small_files small_badger (codes "abc") (pos 251) no_stores
      ≡ some (
          rounds
            (move_window small_files small_badger (codes "abc"))
            (windows 250 251 0)
            no_stores))
    × Any (HasIndex 200) (windows 250 251 0)
move_all_chunks_to_completed_badger-rounds_example =
    move_all_chunks_to_completed_badger-rounds small_files small_badger (codes "abc") 250 200
      no_stores (omega arith)
