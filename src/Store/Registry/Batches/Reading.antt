-- ===== src/Store/Registry/Batches/Reading.antt =====
-- utils/kv_store.go: what a batch has written to the store of a name, or deleted from it, as a later call
-- finds it there.
use brokernode.Utils.Keys.Bulk.{span, toward, generate_bulk_keys-AreKeys}
use brokernode.Prelude.Int.{pos, ℤ}
use brokernode.Utils.Keys.{get_badger_db_name, generate_bulk_keys, chunk_key}
use brokernode.Store.RoundTrip.{
  AllShown, NonEmptyKeys, batch_get-batch_set, keys_of, batch_delete_in-mem_key,
}
use brokernode.Store.Registry.Batches.{
  batch_get_from_unique_db, batch_set_to_unique_db, batch_delete_from_unique_db,
  delete_data_from_unique_db,
}
use brokernode.Store.Pairs.{DistinctKeys, mem_key}
use brokernode.Store.{Badger, Laws, batch_set_in, get_ttl, batch_delete_in, get_loop}
use brokernode.Prelude.Bytes.{Bytes, bytes_eq, bytes_eq_refl}
use brokernode.Prelude.{
  ◌^◌, Bool, Bool-cases, List, Option, Option-cases, [], ap, false, get_elem?, inl, inr, none, refl,
  some, suc, sym, true, zero, ℕ, ◌∙◌, ◌∷◌, ◌≡◌, if◌then◌else◌, ◌<◌, ◌≤◌,
}
use brokernode.Store.Registry.{
  DbId, Files, OpenStores, get_or_init_unique_badger_db, get_unique_badger_db,
}
use mathlib.Core.Path.{subst}

mem_key-get_elem? :
    (ks : List Bytes) (i : ℕ) (k : Bytes) → get_elem? ks i ≡ some k → mem_key k ks ≡ true
mem_key-get_elem? [] i k h = absurd cc
mem_key-get_elem? (x ∷ ks) zero k h =
    let same : x ≡ k = cc in rw (same, bytes_eq_refl k, mem_key) refl
mem_key-get_elem? (x ∷ ks) (suc i) k h = elim (Bool-cases (bytes_eq x k)) [
  | inl same ↦ rw (same, mem_key) refl
  | inr other ↦ rw (other, mem_key) (mem_key-get_elem? ks i k h)
]

module _ {World Db Txn : Type 0} (fs : Files World Db) (b : Badger World Db Txn) (laws : Laws b)
    (id : DbId) where
  abbrev pub open_in : OpenStores World Db → Option Db
  open_in s = get_unique_badger_db fs (get_badger_db_name (id.0) (id.1)) s

  abbrev pub start : OpenStores World Db → Option Db × OpenStores World Db
  start s = get_or_init_unique_badger_db fs id s

  pub start-open_in : (s : OpenStores World Db) → open_in ((start s).1) ≡ (start s).0
  unfolding get_or_init_unique_badger_db
  start-open_in s = elim (Option-cases (open_in s)) [
    | inl closed ↦ rw (closed, get_or_init_unique_badger_db) refl
    | inr (db, e) ↦ rw (e, get_or_init_unique_badger_db) e
  ]

  start_again : (db : Db) (s : OpenStores World Db) → open_in s ≡ some db → start s ≡ (some db, s)
  unfolding get_or_init_unique_badger_db
  start_again db s e = rw (e, get_or_init_unique_badger_db) refl

  -- The state behind a batch on a store that is open.
  abbrev pub behind : OpenStores World Db → Bool × World → OpenStores World Db
  behind s r = record s { world = r.1 }

  pub behind-open_in :
      (s : OpenStores World Db) (r : Bool × World) → open_in (behind s r) ≡ open_in s
  unfolding get_unique_badger_db
  behind-open_in s r = refl

  get_with :
      List Bytes
      → Option Db × OpenStores World Db
      → (Bool × List (Bytes × Bytes)) × OpenStores World Db
  get_with ks (none, s) = ((false, []), s)
  get_with ks (some db, s) = (get_loop b s.world db ks [], s)

  batch_get-get_with :
      (ks : List Bytes) (s : OpenStores World Db)
      → batch_get_from_unique_db fs b id ks s ≡ get_with ks (start s)
  unfolding batch_get_from_unique_db get_with
  batch_get-get_with ks s = elim (Option-cases ((start s).0)) [
    | inl closed ↦ rw (closed, batch_get_from_unique_db, get_with) refl
    | inr (db, e) ↦ rw (e, batch_get_from_unique_db, get_with) refl
  ]

  read_back :
      (db : Db) (kvs : List (Bytes × Bytes)) (ttl : ℕ) (s : OpenStores World Db)
      → DistinctKeys kvs
      → NonEmptyKeys kvs
      → open_in s ≡ some db
      → (batch_set_in b db kvs ttl s.world).0 ≡ true
      → AllShown laws ((batch_set_in b db kvs ttl s.world).1) db
      → batch_get_from_unique_db fs b id
          (keys_of kvs)
          (behind s (batch_set_in b db kvs ttl s.world))
        ≡ ((true, kvs), behind s (batch_set_in b db kvs ttl s.world))
  unfolding get_with
  read_back db kvs ttl s d n o ok readable =
      let after = behind s (batch_set_in b db kvs ttl s.world) in
      batch_get-get_with (keys_of kvs) after
      ∙ (ap (get_with (keys_of kvs))
            (start_again db after (behind-open_in s (batch_set_in b db kvs ttl s.world) ∙ o))
          ∙ ap (λ r. (r, after)) (batch_get-batch_set b laws db kvs ttl s.world d n ok readable))

  set_in : Option Db → List (Bytes × Bytes) → ℕ → OpenStores World Db → Bool × OpenStores World Db
  set_in none kvs ttl s = (false, s)
  set_in (some db) kvs ttl s =
      ((batch_set_in b db kvs ttl s.world).0, behind s (batch_set_in b db kvs ttl s.world))

  set_in-read_back :
      (db? : Option Db) (kvs : List (Bytes × Bytes)) (ttl : ℕ) (s : OpenStores World Db)
      → DistinctKeys kvs
      → NonEmptyKeys kvs
      → open_in s ≡ db?
      → (set_in db? kvs ttl s).0 ≡ true
      → ((db : Db) → AllShown laws ((set_in db? kvs ttl s).1).world db)
      → batch_get_from_unique_db fs b id (keys_of kvs) ((set_in db? kvs ttl s).1)
        ≡ ((true, kvs), (set_in db? kvs ttl s).1)
  unfolding set_in
  set_in-read_back none kvs ttl s d n o ok readable = absurd cc
  set_in-read_back (some db) kvs ttl s d n o ok readable =
      read_back db kvs ttl s d n o ok (readable db)

  batch_set_to_unique_db-set_in :
      (kvs : List (Bytes × Bytes)) (ttl : ℕ) (s : OpenStores World Db)
      → batch_set_to_unique_db fs b id kvs ttl s
        ≡ set_in ((start s).0) kvs (get_ttl fs.under_test ttl) ((start s).1)
  unfolding batch_set_to_unique_db set_in
  batch_set_to_unique_db-set_in kvs ttl s = elim (Option-cases ((start s).0)) [
    | inl closed ↦ rw (closed, batch_set_to_unique_db, set_in) refl
    | inr (db, e) ↦ rw (e, batch_set_to_unique_db, set_in) refl
  ]

  -- What a batch does where the store of the name is open.
  pub set_where_open :
      (db : Db) (kvs : List (Bytes × Bytes)) (ttl : ℕ) (s : OpenStores World Db)
      → open_in s ≡ some db
      → batch_set_to_unique_db fs b id kvs ttl s ≡ (
        (batch_set_in b db kvs (get_ttl fs.under_test ttl) s.world).0,
        behind s (batch_set_in b db kvs (get_ttl fs.under_test ttl) s.world),
      )
  unfolding set_in
  set_where_open db kvs ttl s e =
      batch_set_to_unique_db-set_in kvs ttl s
      ∙ ap (λ r. set_in (r.0) kvs (get_ttl fs.under_test ttl) (r.1)) (start_again db s e)

  -- Where BatchSetToUniqueDB, for pairs whose keys are distinct and not empty, reports no error, and no
  -- entry has expired or is unreadable afterwards, BatchGetFromUniqueDB for the same name and keys gives
  -- those pairs with no error, and opens no store.
  pub batch_get_from_unique_db-batch_set_to_unique_db :
      (kvs : List (Bytes × Bytes)) (ttl : ℕ) (s : OpenStores World Db)
      → DistinctKeys kvs
      → NonEmptyKeys kvs
      → (batch_set_to_unique_db fs b id kvs ttl s).0 ≡ true
      → ((db : Db) → AllShown laws ((batch_set_to_unique_db fs b id kvs ttl s).1).world db)
      → batch_get_from_unique_db fs b id
          (keys_of kvs)
          ((batch_set_to_unique_db fs b id kvs ttl s).1)
        ≡ ((true, kvs), (batch_set_to_unique_db fs b id kvs ttl s).1)
  batch_get_from_unique_db-batch_set_to_unique_db kvs ttl s d n ok readable =
      let as_set = batch_set_to_unique_db-set_in kvs ttl s in
      let ok' : (set_in ((start s).0) kvs (get_ttl fs.under_test ttl) ((start s).1)).0 ≡ true =
        ap (λ r. r.0) (sym as_set) ∙ ok in
      rw as_set (
        set_in-read_back ((start s).0) kvs (get_ttl fs.under_test ttl) ((start s).1) d n
          (start-open_in s) ok'
          (subst (λ (r : Bool × OpenStores World Db). (db : Db) → AllShown laws ((r.1).world) db)
            as_set readable))

  delete_in : Option Db → List Bytes → OpenStores World Db → Bool × OpenStores World Db
  delete_in none ks s = (false, s)
  delete_in (some db) ks s =
      ((batch_delete_in b db ks s.world).0, behind s (batch_delete_in b db ks s.world))

  delete_data-delete_in :
      (genesis_hash : Bytes) (i j : ℤ) (s : OpenStores World Db)
      → delete_data_from_unique_db fs b id genesis_hash i j s
        ≡ delete_in ((start s).0) (generate_bulk_keys genesis_hash i j) ((start s).1)
  unfolding delete_data_from_unique_db batch_delete_from_unique_db delete_in
  delete_data-delete_in genesis_hash i j s = elim (Option-cases ((start s).0)) [
    | inl closed ↦
        rw (closed, delete_data_from_unique_db, batch_delete_from_unique_db, delete_in) refl
    | inr (db, e) ↦ rw (e, delete_data_from_unique_db, batch_delete_from_unique_db, delete_in) refl
  ]

  delete_in-mem_key :
      (db? : Option Db) (db : Db) (ks : List Bytes) (s : OpenStores World Db) (q : Bytes)
      → open_in s ≡ db?
      → (delete_in db? ks s).0 ≡ true
      → open_in ((delete_in db? ks s).1) ≡ some db
      → laws.contents ((delete_in db? ks s).1).world db q
        ≡ (if mem_key q ks then none else laws.contents s.world db q)
  unfolding delete_in
  delete_in-mem_key none db ks s q o ok now = absurd cc
  delete_in-mem_key (some db') db ks s q o ok now =
      let same : db' ≡ db =
        some_inj db' db
          (sym o ∙ (sym (behind-open_in s (batch_delete_in b db' ks s.world)) ∙ now)) in
      subst
        (λ d.
          laws.contents ((batch_delete_in b db' ks s.world).1) d q
          ≡ (if mem_key q ks then none else laws.contents s.world d q))
        same (batch_delete_in-mem_key b laws db' ks s.world q ok)
    where
      some_inj : (x y : Db) → some x ≡ some y → x ≡ y
      some_inj x y e = cc

  -- Where DeleteDataFromUniqueDB reports no error, with indexes that are not negative and at most 2^60, and
  -- db is the store that is then open under the name: it has nothing for any chunk from the first index
  -- to the second, both included, upwards or downwards.
  pub delete_data_from_unique_db-toward :
      (genesis_hash : Bytes) (i j k : ℕ) (s : OpenStores World Db) (db : Db)
      → i ≤ 2 ^ 60
      → j ≤ 2 ^ 60
      → k < span i j
      → (delete_data_from_unique_db fs b id genesis_hash (pos i) (pos j) s).0 ≡ true
      → open_in ((delete_data_from_unique_db fs b id genesis_hash (pos i) (pos j) s).1) ≡ some db
      → laws.contents
          ((delete_data_from_unique_db fs b id genesis_hash (pos i) (pos j) s).1).world
          db
          (chunk_key genesis_hash (pos (toward i j k)))
        ≡ none
  delete_data_from_unique_db-toward genesis_hash i j k s db hi hj hk ok now =
      let keys = generate_bulk_keys genesis_hash (pos i) (pos j) in
      let q = chunk_key genesis_hash (pos (toward i j k)) in
      let as_delete = delete_data-delete_in genesis_hash (pos i) (pos j) s in
      let there : mem_key q keys ≡ true =
        mem_key-get_elem? keys k q ((generate_bulk_keys-AreKeys genesis_hash i j hi hj).1 k hk) in
      rw as_delete (
        delete_in-mem_key ((start s).0) db keys ((start s).1) q (start-open_in s)
          (ap (λ r. r.0) (sym as_delete) ∙ ok) (ap (λ r. open_in (r.1)) (sym as_delete) ∙ now)
        ∙ ap (λ t. if t then none else laws.contents ((start s).1).world db q) there)
