-- ===== src/Store/Tests.antt =====
-- The batches on the small badger, at concrete inputs.
use brokernode.Prelude.Word.{wrap64}
use brokernode.Utils.Keys.Bulk.{toward}
use brokernode.Utils.Keys.{
  chunk_key, get_badger_db_name, build_badger_name, generate_bulk_keys, bulk_loop,
}
use brokernode.Store.Samples.{
  all_shown, never, no_stores, small_badger, small_files, small_laws, three_pairs,
}
use brokernode.Store.RoundTrip.{keys_of}
use brokernode.Store.Registry.Batches.Reading.{
  batch_get_from_unique_db-batch_set_to_unique_db, delete_data_from_unique_db-toward,
}
use brokernode.Store.Registry.Batches.{
  batch_delete_from_unique_db, batch_get_from_unique_db, batch_set_to_unique_db,
  delete_data_from_unique_db,
}
use brokernode.Store.{Write, batch_delete_in, batch_set_in, get_ttl, set_pair, write_all}
use brokernode.Prelude.Int.{pos, ◌+ℤ◌, ◌-ℤ◌}
use brokernode.Prelude.Bytes.{bytes_eq, codes}
use brokernode.Prelude.{List, [], arith, map, none, refl, true, ℕ, ◌∷◌, ◌≡◌}
use brokernode.Store.Refine.{batch_set_in-Carried, Carried, set_of}
use brokernode.Store.Registry.{
  DbId, OpenStores, get_or_init_unique_badger_db, get_unique_badger_db, init_unique_kv_store,
  on_open,
}

-- Three pairs do not fit into one transaction.
three_set : (batch_set_in small_badger 7 three_pairs 5 []).0 ≡ true
unfolding batch_set_in write_all set_pair bytes_eq
three_set = refl

batch_set_in-Carried_example :
    Carried
      (map (set_of 5) three_pairs)
      never
      (small_laws.contents ((batch_set_in small_badger 7 three_pairs 5 []).1) 7)
      ((batch_set_in small_badger 7 three_pairs 5 []).0)
batch_set_in-Carried_example = batch_set_in-Carried small_badger small_laws 7 three_pairs 5 []

abbrev upload_id : DbId
upload_id = (codes "current", codes "abc" ∷ codes "hash" ∷ [])

batch_get_from_unique_db-batch_set_to_unique_db_example :
    batch_get_from_unique_db small_files small_badger upload_id
      (keys_of three_pairs)
      ((batch_set_to_unique_db small_files small_badger upload_id three_pairs 5 no_stores).1)
    ≡ (
      (true, three_pairs),
      (batch_set_to_unique_db small_files small_badger upload_id three_pairs 5 no_stores).1,
    )
unfolding get_badger_db_name build_badger_name batch_set_to_unique_db get_or_init_unique_badger_db
    init_unique_kv_store get_unique_badger_db batch_set_in write_all set_pair bytes_eq on_open
    get_ttl
batch_get_from_unique_db-batch_set_to_unique_db_example =
    batch_get_from_unique_db-batch_set_to_unique_db small_files small_badger small_laws upload_id
      three_pairs 5 no_stores ((refl, (refl, tt)), ((refl, tt), (tt, tt)))
      (refl, (refl, (refl, tt))) refl
      (λ db.
        all_shown
          ((batch_set_to_unique_db small_files small_badger upload_id three_pairs 5
            no_stores).1.world)
          db)

abbrev one_open : OpenStores (List Write) ℕ
one_open = (get_or_init_unique_badger_db small_files upload_id no_stores).1

delete_data_from_unique_db-toward_example :
    small_laws.contents
      ((delete_data_from_unique_db small_files small_badger upload_id
          (codes "abc")
          (pos 3)
          (pos 1)
          no_stores).1
        ).world
      7
      (chunk_key (codes "abc") (pos (toward 3 1 1)))
    ≡ none
unfolding ◌-ℤ◌ wrap64 ◌+ℤ◌ get_badger_db_name build_badger_name generate_bulk_keys bulk_loop
    delete_data_from_unique_db batch_delete_from_unique_db get_or_init_unique_badger_db
    init_unique_kv_store get_unique_badger_db batch_delete_in write_all bytes_eq on_open
delete_data_from_unique_db-toward_example =
    delete_data_from_unique_db-toward small_files small_badger small_laws upload_id (codes "abc") 3
      1 1 no_stores 7 (omega arith) (omega arith) (omega arith) refl refl
