-- ===== src/Store/Registry/Batches.antt =====
-- utils/kv_store.go: the batches as the program calls them, on the store of a name or on the one without.
pub mod Reading
pub mod Chunks
use brokernode.Utils.Keys.{generate_bulk_keys}
use brokernode.Store.{Badger, batch_delete_in, batch_set_in, get_loop, get_ttl}
use brokernode.Prelude.Int.{ℤ}
use brokernode.Prelude.Bytes.{Bytes}
use brokernode.Prelude.{Bool, List, [], false, none, some, ℕ}
use brokernode.Store.Registry.{DbId, Files, get_or_init_unique_badger_db, OpenStores}

module _ {World Db Txn : Type 0} (fs : Files World Db) (b : Badger World Db Txn) where
  abbrev carry : OpenStores World Db → Bool × World → Bool × OpenStores World Db
  carry s r = (r.0, record s { world = r.1 })

  -- BatchSetToUniqueDB, BatchDeleteFromUniqueDB and BatchGetFromUniqueDB
  unfoldable pub batch_set_to_unique_db :
      DbId → List (Bytes × Bytes) → ℕ → OpenStores World Db → Bool × OpenStores World Db
  unfolding get_or_init_unique_badger_db batch_set_in get_ttl
  batch_set_to_unique_db id kvs ttl s =
      let (db?, s') = get_or_init_unique_badger_db fs id s in
      elim db? [
        | none ↦ (false, s')
        | some db ↦ carry s' (batch_set_in b db kvs (get_ttl fs.under_test ttl) s'.world)
      ]

  unfoldable pub batch_delete_from_unique_db :
      DbId → List Bytes → OpenStores World Db → Bool × OpenStores World Db
  unfolding get_or_init_unique_badger_db batch_delete_in
  batch_delete_from_unique_db id ks s =
      let (db?, s') = get_or_init_unique_badger_db fs id s in
      elim db? [ none ↦ (false, s') | some db ↦ carry s' (batch_delete_in b db ks s'.world) ]

  unfoldable pub batch_get_from_unique_db :
      DbId → List Bytes → OpenStores World Db → (Bool × List (Bytes × Bytes)) × OpenStores World Db
  unfolding get_or_init_unique_badger_db get_loop
  batch_get_from_unique_db id ks s =
      let (db?, s') = get_or_init_unique_badger_db fs id s in
      elim db? [ none ↦ ((false, []), s') | some db ↦ (get_loop b s'.world db ks [], s') ]

  -- BatchSet, BatchDelete and BatchGet, of the database without a name
  pub batch_set : List (Bytes × Bytes) → ℕ → OpenStores World Db → Bool × OpenStores World Db
  unfolding batch_set_in get_ttl
  batch_set kvs ttl s = elim s.badger_db [
    | none ↦ (false, s)
    | some db ↦ carry s (batch_set_in b db kvs (get_ttl fs.under_test ttl) s.world)
  ]

  pub batch_delete : List Bytes → OpenStores World Db → Bool × OpenStores World Db
  unfolding batch_delete_in
  batch_delete ks s = elim s.badger_db [
    | none ↦ (false, s)
    | some db ↦ carry s (batch_delete_in b db ks s.world)
  ]

  pub batch_get : List Bytes → OpenStores World Db → Bool × List (Bytes × Bytes)
  unfolding get_loop
  batch_get ks s = elim s.badger_db [ none ↦ (false, []) | some db ↦ get_loop b s.world db ks [] ]

  -- DeleteDataFromUniqueDB
  unfoldable pub delete_data_from_unique_db :
      DbId → Bytes → ℤ → ℤ → OpenStores World Db → Bool × OpenStores World Db
  unfolding batch_delete_from_unique_db
  delete_data_from_unique_db id genesis_hash starting_idx ending_idx s =
      batch_delete_from_unique_db id (generate_bulk_keys genesis_hash starting_idx ending_idx) s
