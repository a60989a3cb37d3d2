-- ===== src/Store/Registry.antt =====
-- utils/kv_store.go: the stores that are open, by name, and the functions that open, close and remove
-- them; then the batches as the program calls them. The environment's part is an interface too.
pub mod Batches
use brokernode.Utils.Keys.{get_badger_db_name, get_badger_dir_name}
use brokernode.Prelude.Table.{for_each}
use brokernode.Prelude.Bytes.{Bytes, bytes_eq, codes}
use brokernode.Prelude.{
  Bool, List, Option, [], false, if◌then◌else◌, map, none, some, suc, true, zero, ℕ, ◌++◌, ◌∷◌,
}

-- DBData
pub record DbData (Db : Type 0) : Type 0 where
  pub database_name : Bytes
  pub directory_path : Bytes
  pub database : Db

-- dbMap, badgerDB, and the world in which the stores are.
pub record OpenStores (World Db : Type 0) : Type 0 where
  pub db_map : List (Bytes × DbData Db)
  pub badger_db : Option Db
  pub world : World

-- The parts of a database's name; there is always a first one.
abbrev pub DbId : Type 0
DbId = Bytes × List Bytes

-- What badger.Open gives: a handle, EAGAIN or EWOULDBLOCK, or another error.
pub data Opened (Db : Type 0) : Type 0 where
  opened : Db → Opened Db
  blocked : Opened Db
  not_opened : Opened Db

-- The error of an initialization.
pub data InitError : Type 0 where
  no_error try_again other_error : InitError

-- The file system and badger's Open and Close; `sleep` is what others do while a loop sleeps.
pub record Files (World Db : Type 0) : Type 0 where
  pub under_test : Bool
  pub badger_dir_test : Bytes
  pub make_dir : World → Bytes → World
  pub open_db : World → Bytes → Opened Db × World
  pub close_db : World → Db → Bool × World
  pub remove_all : World → Bytes → Bool × World
  pub sleep : OpenStores World Db → OpenStores World Db

abbrev pub badger_dir : Bytes
badger_dir = codes "/var/lib/badger/prod"

-- Get, Set and Remove of the concurrent map.
module _ {Db : Type 0} where
  abbrev pub get_db : Bytes → List (Bytes × DbData Db) → Option (DbData Db)
  get_db name [] = none
  get_db name ((n, d) ∷ rest) = if bytes_eq n name then some d else get_db name rest

  abbrev pub remove_db : Bytes → List (Bytes × DbData Db) → List (Bytes × DbData Db)
  remove_db name [] = []
  remove_db name ((n, d) ∷ rest) =
      let others = remove_db name rest in if bytes_eq n name then others else (n, d) ∷ others

  abbrev pub set_db : Bytes → DbData Db → List (Bytes × DbData Db) → List (Bytes × DbData Db)
  set_db name d dbs = (name, d) ∷ remove_db name dbs

module _ {World Db : Type 0} (fs : Files World Db) where
  -- The directory that the stores' directories are in.
  unfoldable pub base_dir : Bytes
  base_dir = if fs.under_test then fs.badger_dir_test else badger_dir

  unfoldable pub store_dir : Bytes → Bytes
  unfolding base_dir
  store_dir directory_path = (base_dir ++ codes "/") ++ directory_path

  -- InitUniqueKvStore
  unfoldable pub on_open : DbId → Opened Db → OpenStores World Db → InitError × OpenStores World Db
  on_open id (opened db) s =
      let name = get_badger_db_name (id.0) (id.1) in
      let db_data : DbData Db = record {
        database = db;
        database_name = name;
        directory_path = get_badger_dir_name (id.0) (id.1);
      } in
      (no_error, record s { db_map = set_db name db_data s.db_map })
  on_open id blocked s = (try_again, s)
  on_open id not_opened s = (other_error, s)

  unfoldable pub init_unique_kv_store : DbId → OpenStores World Db → InitError × OpenStores World Db
  unfolding store_dir on_open
  init_unique_kv_store id s =
      let dir = store_dir (get_badger_dir_name (id.0) (id.1)) in
      let (answer, world') = fs.open_db (fs.make_dir s.world dir) dir in
      elim (get_db (get_badger_db_name (id.0) (id.1)) s.db_map) [
        | some d ↦ (no_error, s)
        | none ↦ on_open id answer (record s { world = world' })
      ]

  -- InitKvStore; badger.Open gives no handle with an error.
  pub on_open_kv : Opened Db → OpenStores World Db → InitError × OpenStores World Db
  on_open_kv (opened db) s = (no_error, record s { badger_db = some db })
  on_open_kv blocked s = (try_again, record s { badger_db = none })
  on_open_kv not_opened s = (other_error, record s { badger_db = none })

  pub init_kv_store : OpenStores World Db → InitError × OpenStores World Db
  unfolding base_dir on_open_kv
  init_kv_store s =
      let (answer, world') = fs.open_db s.world base_dir in
      elim s.badger_db [
        | some db ↦ (no_error, s)
        | none ↦ on_open_kv answer (record s { world = world' })
      ]

  -- CloseUniqueKvStore: whether it had no error.
  unfoldable pub close_unique_kv_store : Bytes → OpenStores World Db → Bool × OpenStores World Db
  close_unique_kv_store name s = elim (get_db name s.db_map) [
    | none ↦ (true, s)
    | some d ↦
        let (ok, world') = fs.close_db s.world d.database in
        (ok, record s { db_map = remove_db name s.db_map; world = world' })
  ]

  -- CloseKvStore
  pub close_kv_store : OpenStores World Db → Bool × OpenStores World Db
  close_kv_store s = elim s.badger_db [
    | none ↦ (true, s)
    | some db ↦
        let (ok, world') = fs.close_db s.world db in
        (ok, record s { badger_db = none; world = world' })
  ]

  unfoldable pub removed : Bytes → OpenStores World Db → Bool × OpenStores World Db
  removed dir s = let (ok, world') = fs.remove_all s.world dir in (ok, record s { world = world' })

  -- RemoveAllUniqueKvStoreData
  unfoldable pub remove_all_unique_kv_store_data :
      Bytes → OpenStores World Db → Bool × OpenStores World Db
  unfolding close_unique_kv_store store_dir removed
  remove_all_unique_kv_store_data name s = elim (get_db name s.db_map) [
    | none ↦ (false, s)
    | some d ↦
        let (ok, s') = close_unique_kv_store name s in
        let gone = removed (store_dir d.directory_path) s' in if ok then gone else (false, s')
  ]

  -- RemoveAllKvStoreDataFromAllKvStores: the names of the stores whose closing gave an error. An error of
  -- RemoveAll is logged only.
  pub remove_one : Bytes → List Bytes × OpenStores World Db → List Bytes × OpenStores World Db
  unfolding close_unique_kv_store store_dir removed
  remove_one name (errors, s) = elim (get_db name s.db_map) [
    | none ↦ (errors, s)
    | some d ↦
        let (ok, s') = close_unique_kv_store name s in
        let (ok', s'') = removed (store_dir d.directory_path) s' in
        if ok then (errors, s'') else (errors ++ (name ∷ []), s')
  ]

  pub remove_all_kv_store_data_from_all_kv_stores :
      OpenStores World Db → List Bytes × OpenStores World Db
  unfolding remove_one
  remove_all_kv_store_data_from_all_kv_stores s =
      for_each remove_one (map (λ (e : Bytes × DbData Db). e.0) s.db_map) ([], s)

  -- RemoveAllKvStoreData
  pub remove_all_kv_store_data : OpenStores World Db → Bool × OpenStores World Db
  unfolding close_kv_store base_dir removed
  remove_all_kv_store_data s =
      let (ok, s') = close_kv_store s in
      let gone = removed base_dir s' in if ok then gone else (false, s')

  -- GetUniqueBadgerDb
  unfoldable pub get_unique_badger_db : Bytes → OpenStores World Db → Option Db
  get_unique_badger_db name s = elim (get_db name s.db_map) [
    | none ↦ none
    | some d ↦ some d.database
  ]

  -- The loop of GetOrInitUniqueBadgerDB, with timesToRetry less timesRetried. It leaves the state, of which
  -- both of its exits read the database.
  abbrev after_try :
      Option Db
      → InitError
      → OpenStores World Db
      → OpenStores World Db
      → (OpenStores World Db → OpenStores World Db)
      → OpenStores World Db
  after_try (some db) answer woken s' again = woken
  after_try none no_error woken s' again = s'
  after_try none try_again woken s' again = again s'
  after_try none other_error woken s' again = again s'

  abbrev tried :
      DbId → (OpenStores World Db → OpenStores World Db) → OpenStores World Db → OpenStores World Db
  tried id again s =
      let woken = fs.sleep s in
      let (answer, s') = init_unique_kv_store id woken in
      after_try (get_unique_badger_db (get_badger_db_name (id.0) (id.1)) woken) answer woken s'
        again

  unfoldable pub retry_loop : ℕ → DbId → OpenStores World Db → OpenStores World Db
  unfolding get_unique_badger_db init_unique_kv_store
  retry_loop zero id s = tried id (λ s'. s') s
  retry_loop (suc left) id s = tried id (retry_loop left id) s

  abbrev pub times_to_retry : ℕ
  times_to_retry = 50

  -- GetOrInitUniqueBadgerDB
  unfoldable pub get_or_init_unique_badger_db :
      DbId → OpenStores World Db → Option Db × OpenStores World Db
  unfolding get_unique_badger_db init_unique_kv_store retry_loop
  get_or_init_unique_badger_db id s =
      let name = get_badger_db_name (id.0) (id.1) in
      let (answer, s') = init_unique_kv_store id s in
      let settled : OpenStores World Db = elim answer [
        | try_again ↦ retry_loop times_to_retry id s'
        | no_error ↦ s'
        | other_error ↦ s'
      ] in
      elim (get_unique_badger_db name s) [
        | some db ↦ (some db, s)
        | none ↦ (get_unique_badger_db name settled, settled)
      ]
